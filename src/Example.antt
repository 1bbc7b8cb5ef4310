-- ===== src/Example.antt =====
-- example/main.cpp: the benchmark program of the database with its own copy of
-- include/benchmark_config.h, whose functions have the same text and are named here again, and with a
-- summary of recall.
use mathlib.Core.Bool.{not}
use spheres_benchmark.Prelude.{
  ℕ, zero, suc, ◌+◌, ◌*◌, ◌/◌, Bool, ◌&&◌, ◌||◌, Option, none, some, List, [], ◌∷◌, length, take,
  get_elem?, ltb, leb, ◌==◌, if◌then◌else◌, ◌>>=◌, sub_size,
}
use spheres_benchmark.Prelude.Int.{ℤ}
use spheres_benchmark.Harness.Bytes.{Bytes}
use spheres_benchmark.Harness.Args as Args
use spheres_benchmark.Harness.Args.{BenchmarkConfig}
use spheres_benchmark.Harness.Quote as Quote
use spheres_benchmark.Harness.Vectors as Vectors
use spheres_benchmark.Harness.Machine as Machine
use spheres_benchmark.Harness.Metrics as Metrics
use spheres_benchmark.Harness.Metrics.{count_hits, total_hits}
pub mod Summary
pub mod Run

unfoldable pub example_parse_dataset_type : Bytes → Args.DatasetType
unfolding Args.parse_dataset_type
example_parse_dataset_type = Args.parse_dataset_type

unfoldable pub example_parse_distance_type : Bytes → Args.Result Args.DistanceType
unfolding Args.parse_distance_type
example_parse_distance_type = Args.parse_distance_type

unfoldable pub example_default_params : BenchmarkConfig → Args.DatasetType → BenchmarkConfig
unfolding Args.make_benchmark_with_default_params
example_default_params = Args.make_benchmark_with_default_params

unfoldable pub example_parse_size : Bytes → Bytes → Args.Result ℕ
unfolding Args.parse_size
example_parse_size = Args.parse_size

unfoldable pub example_parse_argv : List Bytes → Args.Result BenchmarkConfig
unfolding Args.parse_argv
example_parse_argv = Args.parse_argv

unfoldable pub example_read_vectors : Option Bytes → ℕ → ℕ → Option (List (List ℕ))
unfolding Vectors.read_file_as_vectors
example_read_vectors = Vectors.read_file_as_vectors

unfoldable pub example_read_gt_vectors : Option Bytes → ℕ → ℕ → Option (List (List ℤ))
unfolding Machine.read_gt_vectors
example_read_gt_vectors = Machine.read_gt_vectors

unfoldable pub example_read_flat_array : Option Bytes → ℕ → ℕ → Option (List ℕ)
unfolding Vectors.read_file_as_flat_array
example_read_flat_array = Vectors.read_file_as_flat_array

unfoldable pub example_recall : List (List ℕ) → List (List ℤ) → ℕ → Option (ℕ × ℕ)
unfolding Metrics.recall
example_recall = Metrics.recall

unfoldable pub example_quote : Bytes → Bytes
unfolding Quote.quote
example_quote = Quote.quote

unfoldable pub example_write_json : List (Bytes × Bytes) → Bytes
unfolding Quote.write_json
example_write_json = Quote.write_json

unfoldable pub example_squared_l2 : List ℤ → List ℤ → ℕ
example_squared_l2 = Metrics.row_distance

unfoldable pub example_avg_squared_l2 :
    List ℤ → ℕ → List ℤ → List (List ℕ) → List (List ℤ) → ℕ → Option ((ℕ × ℕ) × ℕ)
unfolding Metrics.avg_squared_l2_distance
example_avg_squared_l2 = Metrics.avg_squared_l2_distance

-- The loop over the rows: `recall_vec`, in which each number of hits stands for its share of k.
unfoldable pub row_hits : ℕ → List (List ℕ) → List (List ℤ) → Option (List ℕ)
unfolding count_hits
row_hits k [] gt = some []
row_hits k (row ∷ results) [] = none
row_hits k (row ∷ results) (truth ∷ gt) =
    if length row == k && leb k (length truth)
    then (do rest ← row_hits k results gt; some (count_hits (take k truth) row ∷ rest))
    else none

abbrev pub sum : List ℕ → ℕ
sum [] = 0
sum (x ∷ xs) = x + sum xs

-- `std::ranges::sort`
unfoldable pub insert_hits : ℕ → List ℕ → List ℕ
insert_hits x [] = x ∷ []
insert_hits x (y ∷ ys) = if ltb y x then y ∷ insert_hits x ys else x ∷ y ∷ ys

unfoldable pub sort_hits : List ℕ → List ℕ
unfolding insert_hits
sort_hits [] = []
sort_hits (x ∷ xs) = insert_hits x (sort_hits xs)

-- The average, the first and second quarter, and the least: numerators, the first over k for each row,
-- the others over k. The indices wrap below 0, and one that is out of range faults.
pub record RecallSummary : Type 0 where
  pub average : ℕ
  pub p25 : ℕ
  pub p50 : ℕ
  pub least : ℕ

unfoldable pub recall_summarize : List (List ℕ) → List (List ℤ) → ℕ → Option RecallSummary
unfolding row_hits sort_hits
recall_summarize results gt k =
    let n = length results in
    if n == 0 || (not (n == length gt) || k == 0) then none else (do
      hits ← row_hits k results gt
      let sorted = sort_hits hits
      p25 ← get_elem? sorted (sub_size (n / 4) 1)
      p50 ← get_elem? sorted (sub_size (n / 2) 1)
      least ← get_elem? sorted 0
      some (record { average = sum hits; p25 = p25; p50 = p50; least = least }))
