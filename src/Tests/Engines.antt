-- ===== src/Tests/Engines.antt =====
-- Runs of the engines and of what they share.
use mathlib.Core.List.{append-nil, append_assoc}
use spheres_benchmark.Prelude.{
  sym, ap, ℕ, ◌≡◌, refl, Option, none, some, List, [], ◌∷◌, ◌++◌, map, take, arith, ◌>>=◌, Returns,
  rows_from,
}
use spheres_benchmark.Prelude.Int.{ℤ, pos}
use spheres_benchmark.Config.{squared_l2_distance, float}
use spheres_benchmark.Storage.{create_storage, element_size_of}
use spheres_benchmark.Tagged.{sort}
use spheres_benchmark.Prefill.{vectors_per_page}
use spheres_benchmark.Knn.Sound.{
  squared_l2_distance_comm, squared_l2_distance_self, squared_l2-PruneIsSound,
}
use spheres_benchmark.Database.{find_k_nearest_batch}
use spheres_benchmark.Database.Lifecycle.{SizesFit, build_and_load}
use spheres_benchmark.Baseline.{squared_l2, query_row}
use spheres_benchmark.Baseline.Ranked.{candidates, query_row-sort}
use spheres_benchmark.Baseline.Engine.{numbered, AgreesAll, search-baseline}
use spheres_benchmark.Harness.Bytes.{text}
use spheres_benchmark.Harness.Args.{ok, parse_size}
use spheres_benchmark.Harness.Decimal.{to_string, parse_size-to_string}
use spheres_benchmark.Harness.Vectors.{file_bytes, read_file_as_flat_array, FvecsBatchReader}
use spheres_benchmark.Harness.Batches.{
  open_reader, each_batch, IsBatched, each_batch_lem, each_batch-stuck,
}
use spheres_benchmark.Tests.Samples.{square_of, squares}

abbrev flat_vectors : List ℕ
flat_vectors = 1 ∷ 9 ∷ 2 ∷ []

numbered_sizes :
    SizesFit squares squared_l2_distance float 64 128 1 2 8 (numbered 1 flat_vectors 3 0) 1 2
unfolding vectors_per_page create_storage element_size_of
numbered_sizes = record {
  header = omega arith;
  vector_bytes = omega arith;
  paged = omega arith;
  exact = refl;
  density = omega arith;
  two = omega arith;
  small_file = omega arith;
  small = omega arith;
}

search-baseline_example : Returns (AgreesAll square_of 1 flat_vectors (4 ∷ []) 2 3 1) (
    build_and_load squares squared_l2_distance float 64 128 1 2 8 (numbered 1 flat_vectors 3 0) 1 2
    >>= λ db. find_k_nearest_batch db (rows_from 1 (4 ∷ []) 1 0) 2 0 1 (1 ∷ 0 ∷ []))
search-baseline_example =
    search-baseline squares squared_l2_distance float 64 128 1 2 8 3 1 flat_vectors (4 ∷ []) 1 2
      numbered_sizes (squared_l2_distance_comm pos) (squared_l2_distance_self pos)
      (squared_l2-PruneIsSound pos 1) refl refl 2 1 (1 ∷ 0 ∷ []) (omega arith) (omega arith)
      (omega arith) (omega arith, (omega arith, tt)) (omega arith) (omega arith)

abbrev numbers : List ℤ
numbers = pos 1 ∷ pos 9 ∷ pos 2 ∷ []

query_row-sort_example :
    query_row squared_l2 1 numbers (pos 4 ∷ []) 2 3
    ≡ map (λ c. c.1) (take 2 (sort (candidates squared_l2 1 numbers (pos 4 ∷ []) 3 0)))
query_row-sort_example = query_row-sort squared_l2 1 numbers (pos 4 ∷ []) 2 3 (omega arith)

parse_size-to_string_example : parse_size (to_string 4096) (text "dim") ≡ ok 4096
parse_size-to_string_example = parse_size-to_string 4096 (text "dim") (omega arith)

-- A round that appends its batch to a list.
abbrev gather : List ℕ → ℕ → ℕ → List ℕ → Option (List ℕ)
gather s added rows batch = some (s ++ batch)

gather-IsBatched : (dim : ℕ) → IsBatched dim gather
gather-IsBatched dim = record {
  nothing = λ s added. ap some (append-nil s);
  joined = λ s added a b xs ys size size'. ap some (sym (append_assoc s xs ys));
}

abbrev three_rows : List (List ℕ)
three_rows = (7 ∷ 1 ∷ []) ∷ (8 ∷ 2 ∷ []) ∷ (9 ∷ 3 ∷ []) ∷ []

each_batch_lem_example :
    (open_reader (some (file_bytes 2 three_rows)) 2 >>= λ reader.
    each_batch gather 2 3 4 reader 0 [])
    ≡ (read_file_as_flat_array (some (file_bytes 2 three_rows)) 3 2 >>= λ vectors.
        gather [] 0 3 vectors)
each_batch_lem_example =
    each_batch_lem gather 2 3 (some (file_bytes 2 three_rows)) 2 [] (gather-IsBatched 2)
      (omega arith)

abbrev new_reader : FvecsBatchReader
new_reader = record { dim_ = 2; input_ = file_bytes 2 three_rows; buffer_ = [] }

each_batch-stuck_example : each_batch gather 0 3 1000 new_reader 0 [] ≡ none
each_batch-stuck_example =
    each_batch-stuck gather 0 3 1000 new_reader 0 [] (gather-IsBatched 2) refl (omega arith)
