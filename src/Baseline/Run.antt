-- ===== src/Baseline/Run.antt =====
-- `run` of baseline/baseline.cpp, from its files to the metrics that it writes.
use spheres_benchmark.Prelude.{
  ℕ, zero, suc, ◌+◌, ◌*◌, ◌^◌, Option, none, some, List, [], ◌∷◌, map, if◌then◌else◌, ◌>>=◌,
}
use spheres_benchmark.Prelude.Int.{ℤ}
use spheres_benchmark.Harness.Bytes.{Bytes, text}
use spheres_benchmark.Harness.Quote.{quote}
use spheres_benchmark.Harness.Args.{BenchmarkConfig}
use spheres_benchmark.Harness.Decimal.{to_string}
use spheres_benchmark.Harness.Machine.{
  Machine, read_numbers, read_gt_vectors, show_distance, avg_ms, write_metrics,
}
use spheres_benchmark.Harness.Metrics.{recall, avg_squared_l2_distance}
use spheres_benchmark.Baseline.{squared_l2, search_queries}
pub mod Total

-- The fields of the metrics: recall and the two average distances are fractions.
unfoldable pub baseline_fields :
    Machine → BenchmarkConfig → ℕ × ℕ → (ℕ × ℕ) × ℕ → List (Bytes × Bytes)
baseline_fields m config hits average =
    (text "engine", quote config.engine_name)
    ∷ (text "mode", quote config.engine_mode)
    ∷ (text "vectors_path", quote config.dataset_path)
    ∷ (text "count", to_string config.n_base_vectors)
    ∷ (text "dim", to_string config.vector_dim)
    ∷ (text "query_count", to_string config.n_query_vectors)
    ∷ (text "k", to_string config.k)
    ∷ (text "threads", text "1")
    ∷ (text "read_ms", m.show (m.elapsed 0))
    ∷ (text "prepare_ms", text "0.0")
    ∷ (text "build_ms", text "0.0")
    ∷ (text "search_ms", m.show (m.elapsed 1))
    ∷ (text "avg_query_ms", m.show (avg_ms (m.elapsed 1) config.n_query_vectors))
    ∷ (text "recall_at_k", m.show hits)
    ∷ (text "avg_squared_l2_gt", show_distance m average.0.1 average.1)
    ∷ (text "avg_squared_l2", show_distance m average.0.0 average.1)
    ∷ []

-- What `run` writes to the file for the metrics.
unfoldable pub run : Machine → BenchmarkConfig → Option Bytes
unfolding baseline_fields write_metrics
run m config = do
  vectors ← read_numbers (m.file config.base_vector_path) config.n_base_vectors config.vector_dim
  queries ← read_numbers (m.file config.query_vector_path) config.n_query_vectors config.vector_dim
  let results =
      search_queries squared_l2 config.vector_dim vectors queries config.k config.n_base_vectors
        config.n_query_vectors 0
  ground_truth ←
      read_gt_vectors (m.file config.gt_vector_path) config.n_query_vectors config.k_in_gt
  average ← avg_squared_l2_distance vectors config.vector_dim queries results ground_truth config.k
  hits ← recall results ground_truth config.k
  write_metrics m config.metrics_path (baseline_fields m config hits average)
