-- ===== src/Faiss.antt =====
-- faiss/faiss_benchmark.cpp, with the library FAISS as an interface.
use spheres_benchmark.Prelude.{
  ℕ, zero, suc, ◌*◌, Bool, true, false, ◌&&◌, Option, none, some, List, [], ◌∷◌, ◌++◌, length, take,
  drop, ltb, if◌then◌else◌, ◌>>=◌, row_at,
}
use mathlib.Core.Bool.{not}
use spheres_benchmark.Prelude.Int.{ℤ, pos_part, neg_part}
use spheres_benchmark.Harness.Bytes.{Bytes, text, same_text}
use spheres_benchmark.Harness.Quote.{quote}
use spheres_benchmark.Harness.Args.{BenchmarkConfig}
use spheres_benchmark.Harness.Decimal.{to_string}
use spheres_benchmark.Harness.Vectors.{read_file_as_flat_array}
use spheres_benchmark.Harness.Batches.{open_reader, each_batch}
use spheres_benchmark.Harness.Machine.{
  Machine, read_numbers, read_gt_vectors, show_distance, avg_ms, write_metrics,
}
use spheres_benchmark.Harness.Metrics.{recall, avg_squared_l2_distance}
pub mod Added
pub mod Run

-- What the program uses of FAISS: the constructors, training, adding, the parameters of a search, the
-- search for one query, and the file of an index. Vectors are given by their bits.
pub record Library : Type 1 where
  pub Index : Type 0
  pub flat_l2 : ℕ → Index
  -- dimension, m, efConstruction, efSearch
  pub hnsw_flat : ℕ → ℕ → ℕ → ℕ → Index
  -- dimension, number of lists, nprobe
  pub ivf_flat : ℕ → ℕ → ℕ → Index
  pub train : Index → ℕ → List ℕ → Index
  pub add : Index → ℕ → List ℕ → Index
  pub set_ef_search : Index → ℕ → Index
  pub set_nprobe : Index → ℕ → Index
  pub search : Index → List ℕ → ℕ → List ℤ
  pub write_index : Index → Bytes
  pub read_index : Bytes → Option Index

-- The loop over the ranks of a query: a negative label throws.
unfoldable pub label_row : ℕ → List ℤ → Option (List ℕ)
label_row zero labels = some []
label_row (suc rank) [] = none
label_row (suc rank) (label ∷ labels) =
    let rest = label_row rank labels in
    if ltb 0 (neg_part label) then none else (rest >>= λ row. some (pos_part label ∷ row))

-- The loop over the queries, `n` of them from `query` on, on the array of all labels.
unfoldable pub label_rows : ℕ → List ℤ → ℕ → ℕ → Option (List (List ℕ))
unfolding label_row
label_rows k labels zero query = some []
label_rows k labels (suc n) query = do
  row ← label_row k (drop (query * k) labels)
  rows ← label_rows k labels n (suc query)
  some (row ∷ rows)

unfoldable pub build_fields : Machine → BenchmarkConfig → List (Bytes × Bytes)
build_fields m config =
    (text "engine", quote (text "faiss"))
    ∷ (text "mode", quote config.engine_mode)
    ∷ (text "count", to_string config.n_base_vectors)
    ∷ (text "dim", to_string config.vector_dim)
    ∷ (text "query_count", to_string config.n_query_vectors)
    ∷ (text "k", to_string config.k)
    ∷ (text "threads", to_string config.n_threads)
    ∷ (text "query_concurrency", text "1")
    ∷ (text "distance", quote (text "squared_l2"))
    ∷ (text "build_boundary", quote (text "stream base vectors and add to index"))
    ∷ (text "train_ms", m.show (m.elapsed 0))
    ∷ (text "build_ms", m.show (m.elapsed 1))
    ∷ (text "save_ms", m.show (m.elapsed 2))
    ∷ (text "load_ms", m.show (m.elapsed 3))
    ∷ []

unfoldable pub search_fields :
    Machine → BenchmarkConfig → ℕ × ℕ → (ℕ × ℕ) × ℕ → ℕ → List (Bytes × Bytes)
unfolding build_fields
search_fields m config hits average index_bytes =
    build_fields m config
    ++ (text "search_ms", m.show (m.elapsed 4))
      ∷ (text "avg_query_ms", m.show (avg_ms (m.elapsed 4) config.n_query_vectors))
      ∷ (text "recall_at_k", m.show hits)
      ∷ (text "avg_squared_l2_gt", show_distance m average.0.1 average.1)
      ∷ (text "avg_squared_l2", show_distance m average.0.0 average.1)
      ∷ (text "index_bytes", to_string index_bytes)
      ∷ (text "hnsw_m", to_string config.faiss_hnsw_m)
      ∷ (text "hnsw_ef_construction", to_string config.faiss_hnsw_efconstruction)
      ∷ (text "hnsw_ef_search", to_string config.faiss_hnsw_efsearch)
      ∷ (text "ivf_nlist", to_string config.faiss_ivfflat_nlists)
      ∷ (text "ivf_nprobe", to_string config.faiss_ivfflat_nprobe)
      ∷ []

module _ (faiss : Library) (m : Machine) (config : BenchmarkConfig) where
  open faiss use {
    Index, flat_l2, hnsw_flat, ivf_flat, train, add, set_ef_search, set_nprobe, search, write_index,
    read_index,
  }

  abbrev pub is_mode : Bytes → Bool
  is_mode mode = same_text config.engine_mode mode

  -- The base vectors go in by batches.
  unfoldable pub add_in_batches : ℕ → Index → Option Index
  add_in_batches batch_size index = do
    reader ← open_reader (m.file config.base_vector_path) config.vector_dim
    each_batch (λ i added rows batch. some (add i rows batch)) batch_size config.n_base_vectors
        (suc config.n_base_vectors) reader 0 index

  -- The chain of tests for the mode. An inverted file is trained, unless it is to be read.
  unfoldable pub make_index : Option Index
  make_index =
      let ivf =
        ivf_flat config.vector_dim config.faiss_ivfflat_nlists config.faiss_ivfflat_nprobe in
      if is_mode (text "flat")
      then some (flat_l2 config.vector_dim)
      else if is_mode (text "hnsw")
      then some (
          hnsw_flat config.vector_dim config.faiss_hnsw_m config.faiss_hnsw_efconstruction
            config.faiss_hnsw_efsearch)
      else if is_mode (text "lsh")
      then none
      else if is_mode (text "ivf")
      then if config.reuse_index then some ivf else (do
        learn ←
            read_file_as_flat_array (m.file config.learn_vector_path) config.n_learn_vectors
              config.vector_dim
        some (train ivf config.n_learn_vectors learn))
      else none

  -- The file of the index: a new one is made, or the one that is there stays.
  unfoldable pub index_file : Index → Option Bytes
  unfolding add_in_batches
  index_file index = if config.reuse_index then m.file config.index_path else (do
    built ← add_in_batches config.faiss_ivfflat_ingest_batch_size index
    some (write_index built))

  unfoldable pub tuned : Index → Index
  tuned index =
      if is_mode (text "hnsw")
      then set_ef_search index config.faiss_hnsw_efsearch
      else if is_mode (text "ivf")
      then set_nprobe index config.faiss_ivfflat_nprobe
      else index

  -- The labels of the queries, `n` of them from `query` on, one behind the other.
  unfoldable pub search_labels : Index → List ℕ → ℕ → ℕ → List ℤ
  search_labels index queries zero query = []
  search_labels index queries (suc n) query =
      search index (row_at config.vector_dim queries query) config.k
      ++ search_labels index queries n (suc query)
