-- ===== src/Main/Laws.antt =====
-- Which results the program reports as failures.
use xsv.Prelude.{ℕ, ◌≡◌, ◌≢◌, refl, ap, ◌↔◌, ◌⊎◌, inl, inr, Bool-cases, true, false, some, arith}
use xsv.Prelude.Results.{ok, err}
use xsv.Error.{
  CliError, CliResult, IoError, invalid_record_index, already_exists, stdin_here, index_with_stdin,
  index_too_old, failed_to_open, other_io, broken_pipe, flag, csv, io, other,
}
use xsv.Main.{Args, Command, Exit, nothing, error_of, is_broken_pipe, finish, start, main}

is_broken_pipe-only : (e : IoError) → is_broken_pipe e ≡ true → e ≡ broken_pipe
unfolding is_broken_pipe
is_broken_pipe-only broken_pipe h = refl
is_broken_pipe-only (invalid_record_index i n) h = absurd (ground arith)
is_broken_pipe-only already_exists h = absurd (ground arith)
is_broken_pipe-only stdin_here h = absurd (ground arith)
is_broken_pipe-only index_with_stdin h = absurd (ground arith)
is_broken_pipe-only index_too_old h = absurd (ground arith)
is_broken_pipe-only (failed_to_open p e) h = absurd (ground arith)
is_broken_pipe-only (other_io n) h = absurd (ground arith)

closed_pipe : is_broken_pipe broken_pipe ≡ true
unfolding is_broken_pipe
closed_pipe = refl

-- The results that are no failure: success, and a reader of the output that went away.
abbrev pub Succeeds : CliResult (Unit {0}) → Type 0
Succeeds r = (r ≡ ok tt) ⊎ (r ≡ err (io broken_pipe))

-- An exit that tells of a failure exactly where the result is one.
abbrev pub Tells : CliResult (Unit {0}) → Exit → Type 0
Tells r x =
    ((x.code ≡ 0) ↔ Succeeds r) × ((x.shown ≡ nothing) ↔ Succeeds r) × ((x.code ≡ 0) ⊎ (x.code ≡ 1))

Tells-success :
    (r : CliResult (Unit {0})) → Succeeds r → Tells r (record { code = 0; shown = nothing })
Tells-success r s = ((λ e. s, λ t. refl), (λ e. s, λ t. refl), inl refl)

Tells-failure :
    (r : CliResult (Unit {0})) (e : CliError)
    → ¬ Succeeds r
    → Tells r (record { code = 1; shown = error_of e })
Tells-failure r e n = (
  (λ z. absurd (ground arith), λ s. absurd (n s)),
  (λ z. absurd (ground arith), λ s. absurd (n s)),
  inr refl,
)

module _ (docopt_exit : ℕ → Exit) where
  finish-Tells :
      (r : CliResult (Unit {0})) → ((e : ℕ) → r ≢ err (flag e)) → Tells r (finish docopt_exit r)
  unfolding finish
  finish-Tells (ok done) h = Tells-success (ok done) (inl refl)
  finish-Tells (err (flag e)) h = absurd (h e refl)
  finish-Tells (err (csv e)) h =
      Tells-failure (err (csv e)) (csv e)
        (λ s. elim s [ inl same ↦ ground arith | inr same ↦ ground arith ])
  finish-Tells (err (io e)) h = elim (Bool-cases (is_broken_pipe e)) [
    | inl closed ↦
        rw closed
          (Tells-success (err (io e)) (inr (ap (λ x. err (io x)) (is_broken_pipe-only e closed))))
    | inr open_still ↦ rw open_still (
        Tells-failure (err (io e)) (io e) (λ s. elim s [
          | inl same ↦ ground arith
          | inr same ↦ ground (arith, open_still, closed_pipe)
        ]))
  ]
  finish-Tells (err (other m)) h =
      Tells-failure (err (other m)) (other m)
        (λ s. elim s [ inl same ↦ ground arith | inr same ↦ ground arith ])

  -- Where a command runs, and does not end with an error of its arguments, the program exits with 0
  -- or 1; it exits with 0, and shows nothing, exactly where the command succeeded or its output was
  -- closed.
  pub main-Tells :
      (run : Command → CliResult (Unit {0})) (a : Args) (cmd : Command)
      → a.flag_list ≡ false
      → a.arg_command ≡ some cmd
      → ((e : ℕ) → run cmd ≢ err (flag e))
      → Tells (run cmd) (main docopt_exit run (ok a))
  unfolding main start
  main-Tells run a cmd unlisted given h = rw (unlisted, given) (finish-Tells (run cmd) h)
