-- ===== src/Database.antt =====
-- modules/database/database.cppm, and the calls of modules/interface/interface.cppm on a database.
-- `dist_of` stands for the distance functions on bit patterns.
use spheres_benchmark.Prelude.{
  ℕ, ◌*◌, Bool, Option, some, List, [], ◌∷◌, if◌then◌else◌, ◌==◌, ◌>>=◌, length, replicate,
}
use spheres_benchmark.Config.{DatabaseConfig, SupportedDistanceFunctions, SupportedDataType}
use spheres_benchmark.Storage.{
  Vector, DataFile, Storage, create_storage, create_config_file, load_storage,
}
use spheres_benchmark.Tagged.{Tagged}
use spheres_benchmark.Cache.{update_anchor_cache, update_cached_max_dist}
use spheres_benchmark.Distance.{prune_check}
use spheres_benchmark.Knn.{Batch, batch_turns}
use spheres_benchmark.Insert.{insert_a_vector}
use spheres_benchmark.Prefill.{Entry, batch_prefill_single_threaded}
pub mod Search
pub mod Build
pub mod Answers
pub mod Lifecycle

pub record Database : Type 0 where
  pub db_storage : Storage
  pub db_config : DatabaseConfig
  pub dist_func : Vector → Vector → ℕ
  pub prune_check_func : ℕ → ℕ → ℕ → Bool
  -- one buffer for each thread
  pub local_distance_buffers : List (List Tagged)
  pub cached_vectors : List Vector
  pub cached_max_dists : List Tagged
  pub dist_to_anchor_buffer : List Tagged

module _ (dist_of : SupportedDistanceFunctions → Vector → Vector → ℕ) where
  -- The constructor of `Database`.
  unfoldable pub open_database : List DataFile → DatabaseConfig → ℕ → ℕ → Option Database
  open_database disk config n_threads buffers_size = do
    s ← load_storage disk config
    some (record {
      db_storage = s;
      db_config = config;
      dist_func = dist_of config.distance_function;
      prune_check_func = prune_check config.distance_function;
      local_distance_buffers = replicate n_threads (replicate buffers_size (0, 0));
      cached_vectors = replicate s.n_pages (replicate s.vector_dim 0);
      cached_max_dists = [];
      dist_to_anchor_buffer = [];
    })

  unfoldable pub load_database : List DataFile → DatabaseConfig → ℕ → ℕ → Option Database
  unfolding open_database
  load_database disk config n_threads buffers_size = do
    db ← open_database disk config n_threads buffers_size
    anchors ← update_anchor_cache db.db_storage db.cached_vectors
    max_dists ← update_cached_max_dist db.db_storage
    some (record db { cached_vectors = anchors; cached_max_dists = max_dists })

  unfoldable pub create_database :
      ℕ → ℕ → SupportedDataType → ℕ → SupportedDistanceFunctions → ℕ → ℕ → Option Database
  unfolding open_database
  create_database page_size file_size dtype dim distance_function n_threads buffers_size =
      open_database (create_storage page_size file_size dtype dim).files
        (create_config_file dtype distance_function page_size file_size dim) n_threads buffers_size

-- `batch_prefill` of the interface, with the density `num / den`.
unfoldable pub batch_prefill : Database → List Entry → ℕ → ℕ → Option Database
batch_prefill db entries num den = do
  s ← batch_prefill_single_threaded db.dist_func db.db_storage entries num den
  anchors ← update_anchor_cache s db.cached_vectors
  max_dists ← update_cached_max_dist s
  some (record db { db_storage = s; cached_vectors = anchors; cached_max_dists = max_dists })

-- `insert_a_vector` of the interface, with fuel for its calls of itself.
unfoldable pub insert_into : ℕ → Database → ℕ → Vector → ℕ → ℕ → Option Database
insert_into fuel db new_id new_vector num den = do
  st ←
      insert_a_vector db.dist_func fuel num den
        (record {
          db_storage = db.db_storage;
          cached_anchors = db.cached_vectors;
          cached_max_dists = db.cached_max_dists;
          dist_to_anchor_buffer = db.dist_to_anchor_buffer;
        })
        new_id new_vector
  some (record db {
    db_storage = st.db_storage;
    cached_vectors = st.cached_anchors;
    cached_max_dists = st.cached_max_dists;
    dist_to_anchor_buffer = st.dist_to_anchor_buffer;
  })

-- `find_k_nearest_batch`, with the order in which the threads of the pool take their morsels; the
-- rows of the result stand one after the other.
unfoldable pub find_k_nearest_batch : Database → List Vector → ℕ → ℕ → ℕ → List ℕ → Option Batch
find_k_nearest_batch db queries k n_pages_to_probe step threads =
    let budget = if n_pages_to_probe == 0 then length db.cached_max_dists else n_pages_to_probe in
    batch_turns db.dist_func db.prune_check_func db.db_storage k db.cached_vectors
      db.cached_max_dists budget queries step threads
      (record {
        next_morsel = 0;
        buffers = db.local_distance_buffers;
        results = replicate (length queries) (replicate k (0, 0));
      })
