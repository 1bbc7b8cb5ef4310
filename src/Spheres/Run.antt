-- ===== src/Spheres/Run.antt =====
-- `run` of spheres/spheres_benchmark.cpp, from its files to the metrics that it writes.
use spheres_benchmark.Prelude.{ℕ, Option, List, [], ◌∷◌, ◌++◌, map, ◌>>=◌}
use spheres_benchmark.Harness.Bytes.{Bytes, text}
use spheres_benchmark.Harness.Quote.{quote}
use spheres_benchmark.Harness.Args.{BenchmarkConfig}
use spheres_benchmark.Harness.Decimal.{to_string}
use spheres_benchmark.Harness.Vectors.{read_file_as_flat_array}
use spheres_benchmark.Harness.Machine.{
  Machine, read_numbers, read_gt_vectors, float_units, show_distance, avg_ms, write_metrics,
}
use spheres_benchmark.Harness.Metrics.{recall, avg_squared_l2_distance}
use spheres_benchmark.Spheres.{
  Setting, directory_size, open_index, with_mode, search_all, workers_of,
}

-- The fields that the copy of this program in example/main.cpp writes too.
unfoldable pub common_fields : Machine → BenchmarkConfig → ℕ × ℕ → List (Bytes × Bytes)
common_fields m config hits =
    (text "engine", quote (text "spheres"))
    ∷ (text "mode", quote config.engine_mode)
    ∷ (text "count", to_string config.n_base_vectors)
    ∷ (text "dim", to_string config.vector_dim)
    ∷ (text "query_count", to_string config.n_query_vectors)
    ∷ (text "k", to_string config.k)
    ∷ (text "threads", to_string config.n_threads)
    ∷ (text "query_concurrency", text "1")
    ∷ (text "distance", quote (text "squared_l2"))
    ∷ (text "read_boundary", quote (text "read all base vectors into application memory"))
    ∷ (text "build_boundary", quote (text "create database and parallel batch prefill"))
    ∷ (text "read_ms", m.show (m.elapsed 0))
    ∷ (text "build_ms", m.show (m.elapsed 1))
    ∷ (text "load_ms", m.show (m.elapsed 2))
    ∷ (text "search_ms", m.show (m.elapsed 3))
    ∷ (text "avg_query_ms", m.show (avg_ms (m.elapsed 3) config.n_query_vectors))
    ∷ (text "recall_at_k", m.show hits)
    ∷ []

unfoldable pub size_fields : BenchmarkConfig → ℕ → List (Bytes × Bytes)
size_fields config index_bytes =
    (text "index_bytes", to_string index_bytes)
    ∷ (text "page_size", to_string config.spheres_page_size)
    ∷ (text "file_size", to_string config.spheres_file_size)
    ∷ (text "pages_to_probe", to_string config.spheres_n_pages_to_probe)
    ∷ (text "morsel_step", to_string config.spheres_morsel_step)
    ∷ []

unfoldable pub spheres_fields :
    Machine → BenchmarkConfig → ℕ × ℕ → (ℕ × ℕ) × ℕ → ℕ → List (Bytes × Bytes)
unfolding common_fields size_fields
spheres_fields m config hits average index_bytes =
    common_fields m config hits
    ++ ((text "avg_squared_l2_gt", show_distance m average.0.1 average.1)
        ∷ (text "avg_squared_l2", show_distance m average.0.0 average.1)
        ∷ size_fields config index_bytes)

-- What `run` writes to the file for the metrics.
unfoldable pub run : Setting → Machine → BenchmarkConfig → Option Bytes
unfolding open_index with_mode search_all spheres_fields write_metrics
run env m config = do
  loaded ← open_index env m config
  queries ←
      read_file_as_flat_array (m.file config.query_vector_path) config.n_query_vectors
        config.vector_dim
  db ← with_mode env m config loaded
  (results, n_pruned) ←
      search_all env m config db queries config.n_query_vectors 0 (workers_of db) 0
  ground_truth ←
      read_gt_vectors (m.file config.gt_vector_path) config.n_query_vectors config.k_in_gt
  let index_bytes = directory_size env.index_directory
  base ← read_numbers (m.file config.base_vector_path) config.n_base_vectors config.vector_dim
  average ←
      avg_squared_l2_distance base config.vector_dim (map float_units queries) results ground_truth
        config.k
  hits ← recall results ground_truth config.k
  write_metrics m config.metrics_path (spheres_fields m config hits average index_bytes)
