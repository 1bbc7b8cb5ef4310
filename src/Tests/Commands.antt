-- ===== src/Tests/Commands.antt =====
-- Runs of the harness.
use spheres_benchmark.Prelude.{
  ℕ, ◌+◌, ◌*◌, ◌≡◌, refl, true, false, some, List, [], ◌∷◌, ◌++◌, arith, Returns,
}
use spheres_benchmark.Prelude.Int.{ℤ, pos, negsuc, ◌-ℤ◌}
use spheres_benchmark.Harness.Bytes.{Bytes, text}
use spheres_benchmark.Harness.Quote.{before, read_json, quote, read_json-quote}
use spheres_benchmark.Harness.Vectors.{
  read_file_as_vectors, file_bytes, read_file_as_vectors-file_bytes,
}
use spheres_benchmark.Harness.Metrics.Sums.{avg_squared_l2_distance_lem}
use spheres_benchmark.Harness.Metrics.{avg_squared_l2_distance, recall, all_misses, recall_lem}
use spheres_benchmark.Harness.Args.{
  BenchmarkConfig, parse_argv, default_config, ok, squared_l2, sift1m,
}
use spheres_benchmark.Harness.Main.{main, HasRun, main-IsUsable}
use spheres_benchmark.Harness.Args.Accepted.{IsUsable, parse_argv-IsUsable}

read_json-quote_example :
    read_json before (quote (b'"' ∷ b'\\' ∷ 10 ∷ 27 ∷ b'a' ∷ []))
    ≡ some (b'"' ∷ b'\\' ∷ 10 ∷ 27 ∷ b'a' ∷ [])
read_json-quote_example = read_json-quote (b'"' ∷ b'\\' ∷ 10 ∷ 27 ∷ b'a' ∷ [])

abbrev two_vectors : List (List ℕ)
two_vectors = (7 ∷ 70000 ∷ []) ∷ (1 ∷ 2 ∷ []) ∷ []

read_file_as_vectors-file_bytes_example :
    read_file_as_vectors (some (file_bytes 2 two_vectors ++ 9 ∷ [])) 2 2 ≡ some two_vectors
read_file_as_vectors-file_bytes_example =
    read_file_as_vectors-file_bytes 2 two_vectors (9 ∷ []) (omega arith) (refl, (refl, tt))

abbrev good_argv : List Bytes
good_argv =
    text "--dataset"
    ∷ text "sift1m"
    ∷ text "--engine"
    ∷ text "spheres"
    ∷ text "--path"
    ∷ text "/data"
    ∷ text "--metrics"
    ∷ text "m.json"
    ∷ text "--index"
    ∷ text "idx"
    ∷ text "--distance"
    ∷ text "squared_l2"
    ∷ text "--k"
    ∷ text "10"
    ∷ []

abbrev good_config : BenchmarkConfig
good_config = record default_config {
  dataset_type = sift1m;
  k = 10;
  k_in_gt = 100;
  vector_dim = 128;
  n_base_vectors = 1000000;
  n_query_vectors = 10000;
  n_learn_vectors = 100000;
  engine_name = text "spheres";
  dataset_path = text "/data";
  metrics_path = text "m.json";
  index_path = text "idx";
  distance_type = squared_l2;
  base_vector_path = text "/data/sift_base.fvecs";
  query_vector_path = text "/data/sift_query.fvecs";
  gt_vector_path = text "/data/sift_groundtruth.ivecs";
  learn_vector_path = text "/data/sift_learn.fvecs";
}

good_argv_accepted : parse_argv good_argv ≡ ok good_config
unfolding parse_argv
good_argv_accepted = refl

parse_argv-IsUsable_example : IsUsable good_config
parse_argv-IsUsable_example = parse_argv-IsUsable good_argv good_config good_argv_accepted

main-IsUsable_example :
    (c : BenchmarkConfig) × (parse_argv good_argv ≡ ok c)
    × IsUsable c
    × HasRun (λ c. false) (λ c. true) c
unfolding main parse_argv
main-IsUsable_example = main-IsUsable (λ c. false) (λ c. true) good_argv refl

abbrev answers : List (List ℕ)
answers = (1 ∷ 0 ∷ []) ∷ (2 ∷ 0 ∷ []) ∷ []

abbrev truths : List (List ℤ)
truths = (pos 0 ∷ pos 1 ∷ pos 2 ∷ []) ∷ (pos 2 ∷ negsuc 0 ∷ []) ∷ []

recall_lem_example :
    Returns
      (λ (r : ℕ × ℕ). (r.0 + all_misses 2 answers truths ≡ r.1) × (r.1 ≡ 2 * 2))
      (recall answers truths 2)
recall_lem_example =
    recall_lem answers truths 2 (refl, omega arith, (refl, omega arith, tt)) (omega arith)
      (omega arith)

abbrev named : List (List ℤ)
named = (pos 0 ∷ pos 1 ∷ []) ∷ (pos 2 ∷ pos 1 ∷ []) ∷ []

avg_squared_l2_distance_lem_example :
    avg_squared_l2_distance (pos 1 ∷ pos 5 ∷ pos 9 ∷ []) 1 (pos 4 ∷ pos 8 ∷ []) answers named 2
    ≡ some ((60, 20), 4)
unfolding ◌-ℤ◌
avg_squared_l2_distance_lem_example =
    avg_squared_l2_distance_lem (pos 1 ∷ pos 5 ∷ pos 9 ∷ []) 1 (pos 4 ∷ pos 8 ∷ []) answers named 2
      (omega arith) (omega arith) refl refl
      (
        omega arith,
        omega arith,
        (omega arith, (omega arith, tt)),
        ((refl, omega arith), ((refl, omega arith), tt)),
        (
          omega arith,
          omega arith,
          (omega arith, (omega arith, tt)),
          ((refl, omega arith), ((refl, omega arith), tt)),
          tt,
        ),
      )
