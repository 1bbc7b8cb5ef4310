-- ===== src/Database/Search.antt =====
-- Searches of a database that has been loaded.
use spheres_benchmark.Prelude.{
  ℕ, ◌*◌, ◌≤◌, ◌<◌, ◌≡◌, refl, some, List, [], arith, length, get_elem?, get_elem?-lt, replicate,
  All-replicate, size_mod, All, All-get, Returns, >>=-of_some, length-replicate, All-replicate,
}
use spheres_benchmark.Config.{DatabaseConfig, SupportedDistanceFunctions}
use spheres_benchmark.Storage.{Vector, DataFile, Storage, load_storage}
use spheres_benchmark.Storage.Pages.{all_pages, IsValid}
use spheres_benchmark.Tagged.{Tagged}
use spheres_benchmark.Cache.Fresh.{
  index_pages, AnchorsBelow, update_anchor_cache_lem, update_cached_max_dist_lem,
}
use spheres_benchmark.Distance.{prune_check}
use spheres_benchmark.Knn.{Batch}
use spheres_benchmark.Knn.Nearest.{Nearest}
use spheres_benchmark.Knn.Scan.{IsBall, PruneIsSound}
use spheres_benchmark.Knn.Exact.{database_candidates, batch_query-Nearest}
use spheres_benchmark.Knn.Rows.{QueriesRight, batch_turns-right}
use spheres_benchmark.Database.{Database, open_database, load_database, find_k_nearest_batch}

-- The caches agree with a valid storage.
pub record IsFresh (db : Database) : Type 0 where
  pub valid : IsValid db.db_storage
  pub anchors : AnchorsBelow db.db_storage valid db.db_storage.n_pages db.cached_vectors
  pub max_dists : db.cached_max_dists ≡ index_pages 0 (all_pages db.db_storage)

-- Loading a database whose files make up a valid storage gives that storage, caches that agree with
-- it, and a buffer of the given size for each thread.
pub load_database-IsFresh :
    (dist_of : SupportedDistanceFunctions → Vector → Vector → ℕ) (disk : List DataFile)
    (config : DatabaseConfig) (n_threads buffers_size : ℕ) (s : Storage)
    → load_storage disk config ≡ some s
    → IsValid s
    → Returns
        (λ (db : Database).
          IsFresh db
          × (db.db_storage ≡ s)
          × (length db.local_distance_buffers ≡ n_threads)
          × All (λ (b : List Tagged). length b ≡ buffers_size) db.local_distance_buffers
          × (db.dist_func ≡ dist_of config.distance_function)
          × (db.prune_check_func ≡ prune_check config.distance_function))
        (load_database dist_of disk config n_threads buffers_size)
unfolding load_database open_database
load_database-IsFresh dist_of disk config n_threads buffers_size s loaded valid =
    let (anchors, run, fresh) =
      update_anchor_cache_lem s valid (replicate s.n_pages (replicate {A = ℕ} s.vector_dim 0)) in
    (
      record {
        db_storage = s;
        db_config = config;
        dist_func = dist_of config.distance_function;
        prune_check_func = prune_check config.distance_function;
        local_distance_buffers = replicate n_threads (replicate buffers_size (0, 0));
        cached_vectors = anchors;
        cached_max_dists = index_pages 0 (all_pages s);
        dist_to_anchor_buffer = [];
      },
      rw loaded (>>=-of_some _ run (>>=-of_some _ (update_cached_max_dist_lem s valid) refl)),
      (
        record { valid = valid; anchors = fresh; max_dists = refl },
        refl,
        length-replicate n_threads _,
        All-replicate _ n_threads _ (length-replicate buffers_size _),
        refl,
        refl,
      ),
    )

query_right :
    (db : Database) (dim k : ℕ) (queries : List Vector)
    → IsFresh db
    → All (IsBall db.dist_func dim) (all_pages db.db_storage)
    → ((u v : Vector) → db.dist_func u v ≡ db.dist_func v u)
    → PruneIsSound db.dist_func dim db.prune_check_func
    → 0 < k
    → All
        (λ (q : Vector).
          (length q ≡ dim)
          × (k ≤ length (database_candidates db.dist_func q (all_pages db.db_storage))))
        queries
    → QueriesRight db.dist_func db.prune_check_func db.db_storage k db.cached_vectors
        db.cached_max_dists
        (length db.cached_max_dists)
        queries
        (λ q row. Nearest k (database_candidates db.dist_func q (all_pages db.db_storage)) row)
query_right db dim k queries fresh balls symmetric sound positive good i q old at places =
    let ok = All-get _ queries i good at in
    rw fresh.max_dists (
      batch_query-Nearest db.dist_func db.prune_check_func symmetric dim sound db.db_storage
        fresh.valid balls k positive q ok.0 db.cached_vectors
        (length (index_pages 0 (all_pages db.db_storage))) old fresh.anchors (omega arith) ok.1
        places)

-- The batch search of a database with fresh caches whose pages are balls, with no limit on the pages
-- to probe, ends with the k nearest stored vectors for every query, in whatever order the threads
-- take the morsels until none is left: each row holds k of the distances and ids of the stored
-- vectors, and no other stored vector is nearer. The distance is symmetric and the test sound for it,
-- the vectors have one dimension, there are k stored vectors at least, and the buffer of each thread has
-- k places at least.
pub find_k_nearest_batch-Nearest :
    (db : Database) (dim k step : ℕ) (queries : List Vector) (threads : List ℕ)
    → IsFresh db
    → All (IsBall db.dist_func dim) (all_pages db.db_storage)
    → ((u v : Vector) → db.dist_func u v ≡ db.dist_func v u)
    → PruneIsSound db.dist_func dim db.prune_check_func
    → 0 < k
    → All
        (λ (q : Vector).
          (length q ≡ dim)
          × (k ≤ length (database_candidates db.dist_func q (all_pages db.db_storage))))
        queries
    → All (λ (b : List Tagged). k ≤ length b) db.local_distance_buffers
    → All (λ (t : ℕ). t < length db.local_distance_buffers) threads
    → length queries ≤ step * length threads
    → step * length threads < size_mod
    → Returns
        (λ (b : Batch).
          (i : ℕ) (q : Vector)
          → get_elem? queries i ≡ some q
          → (row : List Tagged) × (get_elem? b.results i ≡ some row)
            × Nearest k (database_candidates db.dist_func q (all_pages db.db_storage)) row)
        (find_k_nearest_batch db queries k 0 step threads)
unfolding find_k_nearest_batch
find_k_nearest_batch-Nearest db dim k step queries threads fresh balls symmetric sound positive good
      places known enough small =
    let (b, run, rows) =
      batch_turns-right db.dist_func db.prune_check_func db.db_storage k db.cached_vectors
        db.cached_max_dists (length db.cached_max_dists) queries
        (λ q row. Nearest k (database_candidates db.dist_func q (all_pages db.db_storage)) row)
        (query_right db dim k queries fresh balls symmetric sound positive good) step threads
        (record {
          next_morsel = 0;
          buffers = db.local_distance_buffers;
          results = replicate (length queries) (replicate k (0, 0));
        })
        known (omega (arith, enough)) (omega (arith, small))
        (record {
          size = length-replicate (length queries) _;
          right = λ i q h. absurd (omega arith);
        })
        places in
    (b, run, λ i q at. rows.right i q (get_elem?-lt queries i at) at)
