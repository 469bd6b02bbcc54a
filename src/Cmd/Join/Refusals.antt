-- ===== src/Cmd/Join/Refusals.antt =====
-- What `xsv join` refuses.
use xsv.Prelude.{
  ℕ, ◌+◌, ◌≡◌, ◌≢◌, ◌⊎◌, inl, inr, Bool-cases, ◌<◌, refl, ap, ◌∙◌, Bool, true, false, List, length,
  ◌==◌, if◌then◌else◌, arith,
}
use xsv.Prelude.Results.{Result, ok, err, Result-cases}
use xsv.Error.{
  Text, ByteRecord, CliResult, CliError, IoError, other, io, selection_lengths_differ,
  pick_one_join,
}
use xsv.Csv.{Sink, Stop, after, pure, ◌>>=◌, try_csv, try_cli, try_text, failed}
use xsv.Csv.Laws.{bind-ok, bind-err}
use xsv.Config.{Config, config_selection, new_config}
use xsv.Csv.Plain.{try_io}
use xsv.Unicode.{Unicode}
use xsv.Cmd.Join.{Args, IoState, get_selections, joined, rconf, new_io_state, run}
use xsv.Cmd.Join.Values.{Seekable}

abbrev one_if : Bool → ℕ
one_if b = if b then 1 else 0

-- How many kinds of join the flags choose.
abbrev pub kinds : Args → ℕ
kinds a = one_if a.flag_left + one_if a.flag_right + one_if a.flag_full + one_if a.flag_cross

joined-pick_one :
    (u : Unicode) (w : Sink) (left right full cross : Bool) (st : IoState) (out : List ByteRecord)
    → 1 < one_if left + one_if right + one_if full + one_if cross
    → joined u w left right full cross st out ≡ (err (failed (other pick_one_join)), out)
unfolding joined
joined-pick_one u w true true full cross st out l = refl
joined-pick_one u w true false true cross st out l = refl
joined-pick_one u w true false false true st out l = refl
joined-pick_one u w false true true cross st out l = refl
joined-pick_one u w false true false true st out l = refl
joined-pick_one u w false false true true st out l = refl
joined-pick_one u w true false false false st out l = absurd (omega (arith, l))
joined-pick_one u w false true false false st out l = absurd (omega (arith, l))
joined-pick_one u w false false true false st out l = absurd (omega (arith, l))
joined-pick_one u w false false false true st out l = absurd (omega (arith, l))
joined-pick_one u w false false false false st out l = absurd (omega (arith, l))

module _ (is_tsv : Text → Bool) (toggle : Bool) (reader_file : Config → CliResult Seekable)
    (open_writer : Config → Result IoError Sink) (a : Args) where
  abbrev pub config1 : Config
  config1 = rconf is_tsv toggle reader_file open_writer a.arg_input1 a.arg_columns1 a

  abbrev pub config2 : Config
  config2 = rconf is_tsv toggle reader_file open_writer a.arg_input2 a.arg_columns2 a

  module _ (rdr1 rdr2 : Seekable) (headers1 headers2 : ByteRecord) (sel1 sel2 : List ℕ)
      (r1 : reader_file config1 ≡ ok rdr1) (r2 : reader_file config2 ≡ ok rdr2)
      (h1 : rdr1.rdr.headers ≡ ok headers1) (h2 : rdr2.rdr.headers ≡ ok headers2)
      (s1 : config_selection config1 headers1 ≡ ok sel1)
      (s2 : config_selection config2 headers2 ≡ ok sel2) where
    abbrev state : List ℕ × List ℕ → IoState
    state sels = record {
      rdr1 = rdr1;
      sel1 = sels.0;
      rdr2 = rdr2;
      sel2 = sels.1;
      no_headers = config1.no_headers;
      casei = a.flag_no_case;
      nulls = a.flag_nulls;
    }

    -- The output is opened behind the selections.
    abbrev with_selections :
        List ℕ × List ℕ → List ByteRecord → Result Stop (IoState × Sink) × List ByteRecord
    with_selections sels =
        try_io (open_writer (new_config is_tsv a.flag_output)) >>= λ w. pure (state sels, w)

    abbrev stopped : Stop → List ByteRecord → Result Stop (IoState × Sink) × List ByteRecord
    stopped e out = (err e, out)

    opened :
        (o : Result Stop (List ℕ × List ℕ)) (out : List ByteRecord)
        → get_selections config1 rdr1.rdr config2 rdr2.rdr out ≡ (o, out)
        → new_io_state is_tsv toggle reader_file open_writer a out
          ≡ after (o, out) with_selections stopped
    unfolding new_io_state rconf
    opened o out h =
        bind-ok (try_cli (reader_file config1)) _ (ap (λ r. try_cli r out) r1)
        ∙ bind-ok (try_cli (reader_file config2)) _ (ap (λ r. try_cli r out) r2)
        ∙ ap (λ r. after r with_selections stopped) h

    selections :
        (out : List ByteRecord)
        → get_selections config1 rdr1.rdr config2 rdr2.rdr out
          ≡ (if length sel1 == length sel2
                then pure (sel1, sel2)
                else try_text (err (selection_lengths_differ (length sel1) (length sel2))))
              out
    unfolding get_selections
    selections out =
        bind-ok (try_csv rdr1.rdr.headers) _ (ap (λ r. try_csv r out) h1)
        ∙ bind-ok (try_csv rdr2.rdr.headers) _ (ap (λ r. try_csv r out) h2)
        ∙ bind-ok (try_text (config_selection config1 headers1)) _ (ap (λ r. try_text r out) s1)
        ∙ bind-ok (try_text (config_selection config2 headers2)) _ (ap (λ r. try_text r out) s2)

    -- What the command ends with: the lengths of the selections come before the output, and the output
    -- before the flags.
    abbrev pub refusal : Result IoError Sink → CliError
    refusal o =
        if length sel1 == length sel2
        then elim o [ ok w ↦ other pick_one_join | err e ↦ io e ]
        else other (selection_lengths_differ (length sel1) (length sel2))

    -- Where both inputs open and both selections resolve, but the selections have different lengths or
    -- the flags choose more than one kind of join: `xsv join` fails and nothing is written. If the
    -- lengths differ, the message has both; otherwise, if the output does not open, the command ends
    -- with that error; otherwise the message asks to pick one kind of join.
    pub run-refuses :
        (u : Unicode) (out : List ByteRecord)
        → (length sel1 ≢ length sel2) ⊎ (1 < kinds a)
        → run is_tsv toggle reader_file open_writer u a out
          ≡ (err (failed (refusal (open_writer (new_config is_tsv a.flag_output)))), out)
    unfolding run
    run-refuses u out h = elim (Bool-cases (length sel1 == length sel2)) [
      | inr differ ↦ rw differ (
          bind-err (new_io_state is_tsv toggle reader_file open_writer a) _
            (opened _ out (rw differ at (selections out))))
      | inl same ↦ rw same (
          by_output (rw same at (selections out)) (ground (arith, h, same))
            (Result-cases (open_writer (new_config is_tsv a.flag_output))))
    ]
      where
        by_output :
            get_selections config1 rdr1.rdr config2 rdr2.rdr out ≡ (ok (sel1, sel2), out)
            → 1 < kinds a
            → ((w : Sink) × (open_writer (new_config is_tsv a.flag_output) ≡ ok w))
              ⊎ ((e : IoError) × (open_writer (new_config is_tsv a.flag_output) ≡ err e))
            → run is_tsv toggle reader_file open_writer u a out ≡ (
              err (
                  failed (elim (open_writer (new_config is_tsv a.flag_output)) [
                    | ok w ↦ other pick_one_join
                    | err e ↦ io e
                  ])),
              out,
            )
        by_output found many (inl (w, e)) =
            bind-ok (new_io_state is_tsv toggle reader_file open_writer a) _ (
              opened _ out found
              ∙ bind-ok (try_io (open_writer (new_config is_tsv a.flag_output))) _
                  (ap (λ o. try_io o out) e))
            ∙ joined-pick_one u w a.flag_left a.flag_right a.flag_full a.flag_cross _ out many
            ∙ rw e refl
        by_output found many (inr (x, e)) =
            bind-err (new_io_state is_tsv toggle reader_file open_writer a) _ (
              opened _ out found
              ∙ bind-err (try_io (open_writer (new_config is_tsv a.flag_output))) _
                  (ap (λ o. try_io o out) e))
            ∙ rw e refl
