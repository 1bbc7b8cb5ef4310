-- ===== src/Example/Run.antt =====
-- `run` and `main` of example/main.cpp.
use spheres_benchmark.Prelude.{
  ℕ, ◌*◌, Option, none, some, List, ◌∷◌, ◌++◌, length, if◌then◌else◌, ◌>>=◌,
}
use spheres_benchmark.Distance.{legacy_prune_check}
use spheres_benchmark.Database.{Database}
use spheres_benchmark.Harness.Bytes.{Bytes, text, same_text}
use spheres_benchmark.Harness.Args.{BenchmarkConfig, Result, ok, failed}
use spheres_benchmark.Harness.Decimal.{to_string}
use spheres_benchmark.Harness.Machine.{Machine}
use spheres_benchmark.Spheres.{Setting, directory_size, open_index, search_all, workers_of}
use spheres_benchmark.Spheres.Run.{common_fields, size_fields}
use spheres_benchmark.Example.{
  RecallSummary, recall_summarize, example_parse_argv, example_read_gt_vectors,
  example_read_flat_array, example_recall, example_write_json,
}

-- The mode `aggressive` sets a test that the other modes do not; none is refused.
unfoldable pub with_aggressive : BenchmarkConfig → Database → Database
with_aggressive config db =
    if same_text config.engine_mode (text "aggressive")
    then record db { prune_check_func = legacy_prune_check }
    else db

-- `pruning_rate` is the counter over the queries, over the pages of the database.
unfoldable pub example_fields :
    Machine → BenchmarkConfig → ℕ × ℕ → RecallSummary → ℕ → ℕ → ℕ → List (Bytes × Bytes)
unfolding common_fields size_fields
example_fields m config hits summary n_pruned n_db_pages index_bytes =
    common_fields m config hits
    ++ ((text "recall_p25_at_k", m.show (summary.p25, config.k))
        ∷ (text "recall_p50_at_k", m.show (summary.p50, config.k))
        ∷ (text "recall_min", m.show (summary.least, config.k))
        ∷ (text "total_pruned", to_string n_pruned)
        ∷ (text "n_database_pages", to_string n_db_pages)
        ∷ (text "pruning_rate", m.show (n_pruned, config.n_query_vectors * n_db_pages))
        ∷ size_fields config index_bytes)

-- What `run` writes to the file for the metrics.
unfoldable pub example_run : Setting → Machine → BenchmarkConfig → Option Bytes
unfolding open_index with_aggressive search_all example_fields example_read_flat_array
    example_read_gt_vectors recall_summarize example_recall example_write_json
example_run env m config = do
  loaded ← open_index env m config
  queries ←
      example_read_flat_array (m.file config.query_vector_path) config.n_query_vectors
        config.vector_dim
  let db = with_aggressive config loaded
  (results, n_pruned) ←
      search_all env m config db queries config.n_query_vectors 0 (workers_of db) 0
  let n_db_pages = length db.cached_max_dists
  ground_truth ←
      example_read_gt_vectors (m.file config.gt_vector_path) config.n_query_vectors config.k_in_gt
  let index_bytes = directory_size env.index_directory
  summary ← recall_summarize results ground_truth config.k
  hits ← example_recall results ground_truth config.k
  let fields = example_fields m config hits summary n_pruned n_db_pages index_bytes
  if m.writable config.metrics_path then some (example_write_json fields) else none

-- `main` catches nothing: `none` is a program that is ended by an exception.
unfoldable pub run_parsed : Setting → Machine → Result BenchmarkConfig → Option Bytes
unfolding example_run
run_parsed env m (ok config) = example_run env m config
run_parsed env m (failed e) = none

unfoldable pub example_main : Setting → Machine → List Bytes → Option Bytes
unfolding example_parse_argv run_parsed
example_main env m argv = run_parsed env m (example_parse_argv argv)
