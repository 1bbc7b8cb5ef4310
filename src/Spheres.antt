-- ===== src/Spheres.antt =====
-- spheres/spheres_benchmark.cpp: the database as an engine of the benchmark.
use spheres_benchmark.Prelude.{
  length, ℕ, zero, suc, ◌+◌, Bool, true, Option, none, some, List, [], ◌∷◌, map, if◌then◌else◌,
  ◌>>=◌, row_at,
}
use spheres_benchmark.Config.{
  DatabaseConfig, SupportedDistanceFunctions, squared_l2_distance, SupportedDataType, float,
}
use spheres_benchmark.Storage.{Vector, DataFile, close_database}
use spheres_benchmark.Tagged.{worst}
use spheres_benchmark.Cache.{update_anchor_cache, update_cached_max_dist}
use spheres_benchmark.Distance.{legacy_prune_check}
use spheres_benchmark.Prefill.{Entry}
use spheres_benchmark.Parallel.{Worker, find_k_nearest_state, collect_result}
use spheres_benchmark.Parallel.Filling.{batch_prefill_parallel, restarted}
use spheres_benchmark.Database.{Database, create_database, load_database}
use spheres_benchmark.Harness.Bytes.{Bytes, text, same_text}
use spheres_benchmark.Harness.Args.{BenchmarkConfig}
use spheres_benchmark.Harness.Vectors.{read_file_as_vectors}
use spheres_benchmark.Harness.Machine.{Machine}
pub mod Run

-- A directory: its regular files with their sizes, its directories, and what is neither.
mutual
  pub data Node : Type 0 where
    regular_file : ℕ → Node
    directory : Nodes → Node
    other : Node

  pub data Nodes : Type 0 where
    end : Nodes
    entry : Node → Nodes → Nodes

-- `directory_size`, which walks the directories below.
unfoldable mutual
  pub directory_size : Nodes → ℕ
  directory_size end = 0
  directory_size (entry node nodes) = node_size node + directory_size nodes

  pub node_size : Node → ℕ
  node_size (regular_file size) = size
  node_size (directory nodes) = directory_size nodes
  node_size other = 0

-- What a run meets besides its files: the distance functions on the bits of floats, the database that is
-- at the path of the index, the directory of that path at the end, and the orders in which the threads
-- take their morsels, for the pages that are filled and for the queries.
pub record Setting : Type 0 where
  pub dist_of : SupportedDistanceFunctions → Vector → Vector → ℕ
  pub disk : Option (List DataFile × DatabaseConfig)
  pub index_directory : Nodes
  pub fill_rounds : List (List ℕ)
  pub search_threads : ℕ → List ℕ

-- `std::iota` for the ids.
unfoldable pub with_ids : ℕ → List Vector → List Entry
with_ids id [] = []
with_ids id (vector ∷ vectors) = (id, vector) ∷ with_ids (suc id) vectors

-- The threads, with the places of their buffers and what stands at the front of those.
abbrev pub workers_of : Database → List Worker
workers_of db =
    map (λ buffer. record { heap = []; capacity = length buffer; stale = worst buffer })
      db.local_distance_buffers

-- `batch_prefill_parallel` of the interface, at the density 1.
unfoldable pub prefill_parallel : Database → List Entry → List (List ℕ) → Option Database
prefill_parallel db entries rounds = do
  s ← batch_prefill_parallel db.dist_func db.db_storage entries 1 1 (workers_of db) rounds
  anchors ← update_anchor_cache s db.cached_vectors
  max_dists ← update_cached_max_dist s
  some (record db { db_storage = s; cached_vectors = anchors; cached_max_dists = max_dists })

module _ (env : Setting) (m : Machine) (config : BenchmarkConfig) where
  -- The index that is loaded: what a new database leaves on disk, or what is there.
  unfoldable pub index_on_disk : List Vector → Option (List DataFile × DatabaseConfig)
  unfolding prefill_parallel with_ids
  index_on_disk vectors = if config.reuse_index then env.disk else (do
    db ←
        create_database env.dist_of config.spheres_page_size config.spheres_file_size float
          config.vector_dim squared_l2_distance config.n_threads config.spheres_local_buffer_size
    filled ← prefill_parallel db (with_ids 0 vectors) env.fill_rounds
    some (filled.db_storage.files, close_database filled.db_config filled.db_storage))

  unfoldable pub open_index : Option Database
  unfolding index_on_disk
  open_index = do
    vectors ←
        read_file_as_vectors (m.file config.base_vector_path) config.n_base_vectors
          config.vector_dim
    index ← index_on_disk vectors
    load_database env.dist_of index.0 index.1 config.n_threads config.spheres_local_buffer_size

  -- The loop over the queries, `n` of them from `query` on: the ids of each, and the counter of pruned
  -- pages, which goes on from one query to the next.
  unfoldable pub search_all :
      Database → List ℕ → ℕ → ℕ → List Worker → ℕ → Option (List (List ℕ) × ℕ)
  search_all db queries zero query workers n_pruned = some ([], n_pruned)
  search_all db queries (suc n) query workers n_pruned = do
    st ←
        find_k_nearest_state db.dist_func db.prune_check_func db.db_storage config.k
          (row_at config.vector_dim queries query) db.cached_vectors db.cached_max_dists
          config.spheres_n_pages_to_probe config.spheres_morsel_step (env.search_threads query)
          (map restarted workers) n_pruned
    nearest ← collect_result config.k st.workers
    rest ← search_all db queries n (suc query) st.workers st.n_pruned
    some (map (λ c. c.1) nearest ∷ rest.0, rest.1)

  -- The tests of the mode; an unknown one throws.
  unfoldable pub with_mode : Database → Option Database
  with_mode db =
      if same_text config.engine_mode (text "legacy_prune")
      then some (record db { prune_check_func = legacy_prune_check })
      else if same_text config.engine_mode (text "exact")
      then some db
      else if same_text config.engine_mode (text "ann")
      then some db
      else none
