-- ===== src/Tests/Directories.antt =====
-- Runs and witnesses for the directories of src/util.rs.
use xsv.Prelude.{ℕ, zero, suc, ◌≡◌, refl}
use xsv.Prelude.Results.{Result, ok, err}
use xsv.Error.{IoError, already_exists}
use xsv.Util.Directories.{
  is_taken, attempts, create_dir_all_threadsafe, EndsAfter, create_dir_all_threadsafe-EndsAfter,
}

-- Another thread is in the way twice.
abbrev busy : ℕ → Result IoError (Unit {0})
busy zero = err already_exists
busy (suc zero) = err already_exists
busy (suc (suc k)) = ok tt

third_attempt : create_dir_all_threadsafe busy ≡ ok tt
unfolding create_dir_all_threadsafe attempts is_taken
third_attempt = refl

create_dir_all_threadsafe-EndsAfter_example : EndsAfter busy 0 20 (create_dir_all_threadsafe busy)
create_dir_all_threadsafe-EndsAfter_example = create_dir_all_threadsafe-EndsAfter busy
