-- ===== src/Harness/Machine.antt =====
-- What a benchmark program meets outside of itself, and the values that its files hold.
use spheres_benchmark.Prelude.{
  ℕ, ◌+◌, ◌-◌, ◌*◌, ◌/◌, ◌%◌, ◌^◌, Bool, Option, none, some, List, map, ltb, ◌==◌, if◌then◌else◌,
  ◌>>=◌,
}
use spheres_benchmark.Prelude.Int.{ℤ, pos, sub_ℕ}
use spheres_benchmark.Harness.Bytes.{Bytes}
use spheres_benchmark.Harness.Quote.{write_json}
use spheres_benchmark.Harness.Vectors.{read_file_as_vectors, read_file_as_flat_array}
use spheres_benchmark.Harness.Metrics.{to_int}

-- Files by their paths, `none` where one does not open; whether a file can be written; what
-- `std::to_string` prints of a fraction; and the milliseconds that each timer of a program measures.
pub record Machine : Type 0 where
  pub file : Bytes → Option Bytes
  pub writable : Bytes → Bool
  pub show : ℕ × ℕ → Bytes
  pub elapsed : ℕ → ℕ × ℕ

-- The number that the bits of a finite `float` stand for, in units of 2 ^ -149, which divide all.
unfoldable pub float_units : ℕ → ℤ
float_units bits =
    let exponent = bits / 2 ^ 23 % 256 in
    let fraction = bits % 2 ^ 23 in
    let size = if exponent == 0 then fraction else (2 ^ 23 + fraction) * 2 ^ (exponent - 1) in
    if ltb bits (2 ^ 31) then pos size else sub_ℕ 0 size

-- `read_gt_vectors`: the elements are of type `int`.
unfoldable pub read_gt_vectors : Option Bytes → ℕ → ℕ → Option (List (List ℤ))
unfolding to_int
read_gt_vectors file rows dim = do
  vectors ← read_file_as_vectors file rows dim
  some (map (map to_int) vectors)

-- A flat array of numbers.
unfoldable pub read_numbers : Option Bytes → ℕ → ℕ → Option (List ℤ)
unfolding float_units
read_numbers file rows dim = do
  vectors ← read_file_as_flat_array file rows dim
  some (map float_units vectors)

-- `search_ms / n_query_vectors`
abbrev pub avg_ms : ℕ × ℕ → ℕ → ℕ × ℕ
avg_ms time n = (time.0, time.1 * n)

-- A squared distance over a count, in units of 2 ^ -298.
abbrev pub show_distance : Machine → ℕ → ℕ → Bytes
show_distance m sum count = m.show (sum, count * 2 ^ 298)

-- `write_json` to a file: the stream is tested once it is open.
unfoldable pub write_metrics : Machine → Bytes → List (Bytes × Bytes) → Option Bytes
write_metrics m path fields = if m.writable path then some (write_json fields) else none
