-- ===== src/Tests/Util.antt =====
-- Runs and witnesses for src/util.rs.
use xsv.Prelude.{◌≡◌, ◌<◌, ◌≤◌, ◌*◌, ◌-◌, refl, arith}
use xsv.Util.{chunk_size, num_of_chunks}
use xsv.Util.Laws.{num_of_chunks-chunk_size}

num_of_chunks-chunk_size_example :
    (0 < chunk_size 10 3)
    × (10 ≤ num_of_chunks 10 (chunk_size 10 3) * chunk_size 10 3)
    × ((num_of_chunks 10 (chunk_size 10 3) - 1) * chunk_size 10 3 < 10)
num_of_chunks-chunk_size_example = num_of_chunks-chunk_size 10 3 (omega arith) (omega arith)

four_chunks : num_of_chunks 10 (chunk_size 10 3) ≡ 4
unfolding num_of_chunks chunk_size
four_chunks = refl
