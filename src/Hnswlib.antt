-- ===== src/Hnswlib.antt =====
-- hnswlib/hnswlib_benchmark.cpp, with the library hnswlib as an interface.
use spheres_benchmark.Prelude.{
  ℕ, zero, suc, ◌+◌, Option, none, some, List, [], ◌∷◌, length, ◌>>=◌, row_at,
}
use spheres_benchmark.Tagged.{Tagged}
use spheres_benchmark.Baseline.{unload}
use spheres_benchmark.Harness.Bytes.{Bytes, text}
use spheres_benchmark.Harness.Quote.{quote}
use spheres_benchmark.Harness.Args.{BenchmarkConfig}
use spheres_benchmark.Harness.Decimal.{to_string}
use spheres_benchmark.Harness.Vectors.{read_file_as_flat_array}
use spheres_benchmark.Harness.Batches.{open_reader, each_batch}
use spheres_benchmark.Harness.Machine.{Machine, read_gt_vectors, avg_ms, write_metrics}
use spheres_benchmark.Harness.Metrics.{recall}
pub mod Added

-- What the program uses of hnswlib. Vectors are given by their bits; a search gives its queue from the top.
pub record HnswLibrary : Type 1 where
  pub Index : Type 0
  -- dimension, number of vectors, m, efConstruction
  pub hierarchical : ℕ → ℕ → ℕ → ℕ → Index
  pub set_ef : Index → ℕ → Index
  pub add_point : Index → List ℕ → ℕ → Index
  pub search_knn : Index → List ℕ → ℕ → List Tagged
  pub save_index : Index → Bytes
  pub load_index : Bytes → ℕ → Option Index

-- The settings that the program reads from the configuration, which has no such fields.
pub record HnswSettings : Type 0 where
  pub hnswlib_m : ℕ
  pub hnswlib_ef_construction : ℕ
  pub hnswlib_ef_search : ℕ

module _ (lib : HnswLibrary) (m : Machine) (config : BenchmarkConfig)
    (settings : HnswSettings) where
  open lib use {Index, hierarchical, set_ef, add_point, search_knn, save_index, load_index}

  -- The parallel loop over the rows of a batch, in the order in which the threads add them.
  unfoldable pub add_rows : List ℕ → ℕ → List ℕ → Index → Index
  add_rows batch added [] index = index
  add_rows batch added (row ∷ order) index =
      add_rows batch added order
        (add_point index (row_at config.vector_dim batch row) (added + row))

  -- The loop over the batches, with the order of the rows for each batch, by its first vector.
  unfoldable pub build_index : (ℕ → List ℕ) → Option Index
  unfolding add_rows
  build_index orders = do
    let empty =
        hierarchical config.vector_dim config.n_base_vectors settings.hnswlib_m
          settings.hnswlib_ef_construction
    reader ← open_reader (m.file config.base_vector_path) config.vector_dim
    each_batch (λ index added rows batch. some (add_rows batch added (orders added) index)) 10000
        config.n_base_vectors (suc config.n_base_vectors) reader 0
        (set_ef empty settings.hnswlib_ef_search)

  -- The loop over the queries, `n` of them from `query` on.
  unfoldable pub search_rows : Index → List ℕ → ℕ → ℕ → List (List ℕ)
  unfolding unload
  search_rows index queries zero query = []
  search_rows index queries (suc n) query =
      unload (search_knn index (row_at config.vector_dim queries query) config.k) []
      ∷ search_rows index queries n (suc query)

  unfoldable pub hnswlib_fields : ℕ × ℕ → ℕ → List (Bytes × Bytes)
  hnswlib_fields hits index_bytes =
      (text "engine", quote (text "hnswlib"))
      ∷ (text "mode", quote (text "hnsw"))
      ∷ (text "count", to_string config.n_base_vectors)
      ∷ (text "dim", to_string config.vector_dim)
      ∷ (text "query_count", to_string config.n_query_vectors)
      ∷ (text "k", to_string config.k)
      ∷ (text "threads", to_string config.n_threads)
      ∷ (text "query_concurrency", text "1")
      ∷ (text "distance", quote (text "squared_l2"))
      ∷ (text "build_boundary", quote (text "stream base vectors and construct HNSW"))
      ∷ (text "build_ms", m.show (m.elapsed 0))
      ∷ (text "save_ms", m.show (m.elapsed 1))
      ∷ (text "load_ms", m.show (m.elapsed 2))
      ∷ (text "search_ms", m.show (m.elapsed 3))
      ∷ (text "avg_query_ms", m.show (avg_ms (m.elapsed 3) config.n_query_vectors))
      ∷ (text "recall_at_k", m.show hits)
      ∷ (text "index_bytes", to_string index_bytes)
      ∷ (text "m", to_string settings.hnswlib_m)
      ∷ (text "ef_construction", to_string settings.hnswlib_ef_construction)
      ∷ (text "ef_search", to_string settings.hnswlib_ef_search)
      ∷ []

  -- What `run` writes to the file for the metrics.
  unfoldable pub run : (ℕ → List ℕ) → Option Bytes
  unfolding build_index search_rows hnswlib_fields write_metrics
  run orders = do
    built ← build_index orders
    let stored = save_index built
    loaded ← load_index stored config.n_base_vectors
    let index = set_ef loaded settings.hnswlib_ef_search
    queries ←
        read_file_as_flat_array (m.file config.query_vector_path) config.n_query_vectors
          config.vector_dim
    let results = search_rows index queries config.n_query_vectors 0
    ground_truth ←
        read_gt_vectors (m.file config.gt_vector_path) config.n_query_vectors config.k_in_gt
    hits ← recall results ground_truth config.k
    write_metrics m config.metrics_path (hnswlib_fields hits (length stored))
