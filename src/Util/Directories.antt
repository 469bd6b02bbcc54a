-- ===== src/Util/Directories.antt =====
-- src/util.rs: the directory of an output file, which other threads may create at the same time, and
-- the file in it. `create_dir_all` answers each attempt in turn; the library's operations on paths
-- are parameters.
use xsv.Prelude.{
  ℕ, zero, suc, ◌+◌, ◌≡◌, ◌≤◌, ◌⊎◌, inl, inr, ap, ◌∙◌, Bool, true, false, Bool-cases, Option, none,
  some, arith, All, sym,
}
use xsv.Prelude.Results.{Result, ok, err, ◌>>◌}
use xsv.Error.{Text, IoError, already_exists}
use xsv.Csv.{Sink}
use xsv.Config.{new_config}
use xsv.Config.Files.{Platform, writer}
use xsv.Select.Resolve.{ascending}
use xsv.Util.{FilenameTemplate, filename}

unfoldable pub is_taken : Result IoError (Unit {0}) → Bool
is_taken (err already_exists) = true
is_taken _ = false

module _ (create_dir_all : ℕ → Result IoError (Unit {0})) where
  -- The loop with `n` rounds left, at attempt `k`; behind it the last attempt.
  unfoldable pub attempts : ℕ → ℕ → Result IoError (Unit {0})
  attempts zero k = create_dir_all k
  attempts (suc n) k = elim (is_taken (create_dir_all k)) [
    | true ↦ attempts n (suc k)
    | false ↦ create_dir_all k
  ]

  unfoldable pub create_dir_all_threadsafe : Result IoError (Unit {0})
  create_dir_all_threadsafe = attempts 20 0

  abbrev Taken : ℕ → Type 0
  Taken i = is_taken (create_dir_all i) ≡ true

  -- From attempt `k` on, `tried` of at most `n` attempts find the directory taken; the result is that
  -- of the next one.
  abbrev pub EndsAfter : ℕ → ℕ → Result IoError (Unit {0}) → Type 0
  EndsAfter k n r =
      (tried : ℕ) × (tried ≤ n)
      × All Taken (ascending k tried)
      × (r ≡ create_dir_all (k + tried))
      × ((tried ≡ n) ⊎ (is_taken (create_dir_all (k + tried)) ≡ false))

  attempts-EndsAfter : (n k : ℕ) → EndsAfter k n (attempts n k)
  unfolding attempts ascending
  attempts-EndsAfter zero k =
      (0, omega arith, tt, ap create_dir_all (omega arith), inl (omega arith))
  attempts-EndsAfter (suc n) k = elim (Bool-cases (is_taken (create_dir_all k))) [
    | inl taken ↦
        let (tried, few, before, result, ends) = attempts-EndsAfter n (suc k) in
        let next : suc k + tried ≡ k + suc tried = omega arith in
        (
          suc tried,
          omega arith,
          (taken, before),
          rw (taken, attempts) (result ∙ ap create_dir_all next),
          elim ends [
            | inl all ↦ inl (omega (arith, all))
            | inr free ↦ inr (ap (λ i. is_taken (create_dir_all i)) (sym next) ∙ free)
          ],
        )
    | inr free ↦
        let here : k ≡ k + 0 = omega arith in
        (
          0,
          omega arith,
          tt,
          rw (free, attempts) (ap create_dir_all here),
          inr (ap (λ i. is_taken (create_dir_all i)) (sym here) ∙ free),
        )
  ]

  -- Creating a directory ends after at most 21 attempts, with the result of the last one: every
  -- attempt before it failed because something of that name was there already, and the last did not,
  -- or it is the 21st.
  pub create_dir_all_threadsafe-EndsAfter : EndsAfter 0 20 create_dir_all_threadsafe
  unfolding create_dir_all_threadsafe
  create_dir_all_threadsafe-EndsAfter = attempts-EndsAfter 20 0

-- `join` and `parent` are those of the library's paths, and `new_dirs` what creating a directory
-- answers.
module _ (p : Platform) (is_tsv : Text → Bool) (join : Text → Text → Text)
    (parent : Text → Option Text) (new_dirs : Text → ℕ → Result IoError (Unit {0})) where
  unfoldable pub create_parent : Option Text → Result IoError (Unit {0})
  create_parent none = ok tt
  create_parent (some dir) = create_dir_all_threadsafe (new_dirs dir)

  -- `FilenameTemplate::writer`.
  unfoldable pub template_writer : FilenameTemplate → Text → Text → Result IoError Sink
  template_writer t path unique_value = do
    create_parent (parent (join path (filename t unique_value)))
    writer p (new_config is_tsv (some (join path (filename t unique_value))))
