-- ===== src/Database/Build.antt =====
-- Creating and filling a database.
use spheres_benchmark.Prelude.{
  ℕ, ◌+◌, ◌*◌, ◌/◌, ◌≤◌, ◌<◌, ◌≡◌, refl, some, List, [], replicate, length, size_mod, All, Returns,
  arith, >>=-of_some,
}
use native.Mathlib.Nat.{div-le_self}
use spheres_benchmark.Config.{SupportedDistanceFunctions, SupportedDataType}
use spheres_benchmark.Storage.{
  Vector, create_storage, create_config_file, load_storage, close_database, pages_per_file,
}
use spheres_benchmark.Storage.Slots.{HoldsSlots}
use spheres_benchmark.Storage.Pages.{all_pages, IsValid}
use spheres_benchmark.Storage.Files.{create_storage-IsValid, create-Describes, load-close}
use spheres_benchmark.Cache.Fresh.{index_pages, update_anchor_cache_lem, update_cached_max_dist_lem}
use spheres_benchmark.Distance.{prune_check}
use spheres_benchmark.Prefill.{Entry, vectors_per_page}
use spheres_benchmark.Prefill.Complete.{IsBlank}
use spheres_benchmark.Prefill.Whole.{IsPrefilled, batch_prefill_complete}
use spheres_benchmark.Database.{Database, open_database, create_database, batch_prefill}
use spheres_benchmark.Database.Search.{IsFresh}

create-close :
    (dtype : SupportedDataType) (distance : SupportedDistanceFunctions)
    (page_size file_size dim : ℕ)
    → close_database
        (create_config_file dtype distance page_size file_size dim)
        (create_storage page_size file_size dtype dim)
      ≡ create_config_file dtype distance page_size file_size dim
unfolding close_database create_config_file create_storage
create-close dtype distance page_size file_size dim = refl

pub create-sizes :
    (page_size file_size : ℕ) (dtype : SupportedDataType) (dim : ℕ)
    → let s = create_storage page_size file_size dtype dim in
      (s.n_files ≡ 1) × (s.page_size ≡ page_size) × (s.file_size ≡ file_size)
unfolding create_storage
create-sizes page_size file_size dtype dim = (refl, refl, refl)

module _ (dist_of : SupportedDistanceFunctions → Vector → Vector → ℕ) (page_size file_size : ℕ)
    (dtype : SupportedDataType) (dim : ℕ) (distance : SupportedDistanceFunctions)
    (n_threads buffers_size : ℕ) where
  abbrev pub created_database : Database
  created_database =
      let s = create_storage page_size file_size dtype dim in
      record {
        db_storage = s;
        db_config = create_config_file dtype distance page_size file_size dim;
        dist_func = dist_of distance;
        prune_check_func = prune_check distance;
        local_distance_buffers = replicate n_threads (replicate buffers_size (0, 0));
        cached_vectors = replicate s.n_pages (replicate s.vector_dim 0);
        cached_max_dists = [];
        dist_to_anchor_buffer = [];
      }

  -- The database that `create_database` opens is the one whose files it has just made.
  pub create_database_lem :
      0 < file_size / page_size
      → file_size / page_size * page_size ≡ file_size
      → file_size < size_mod
      → create_database dist_of page_size file_size dtype dim distance n_threads buffers_size
        ≡ some created_database
  unfolding create_database open_database create_config_file
  create_database_lem paged exact small =
      let s = create_storage page_size file_size dtype dim in
      let (one, same_page, same_file) = create-sizes page_size file_size dtype dim in
      let config = create_config_file dtype distance page_size file_size dim in
      let loaded : load_storage s.files config ≡ some s =
        rw (create-close dtype distance page_size file_size dim) at (
          load-close config s
            (create_storage-IsValid page_size file_size dtype dim paged
              (omega (arith, div-le_self file_size page_size))).0
            (create-Describes dtype distance page_size file_size dim)
            (rw (same_file, same_page) exact) (rw (one, same_file) (omega arith))) in
      >>=-of_some _ loaded refl

-- Filling an empty database makes a valid one with fresh caches, whose balls hold the given vectors,
-- each once under its id. The conditions are those on its storage.
pub batch_prefill-IsFresh :
    (db : Database) (dim : ℕ) (entries : List Entry) (num den : ℕ)
    → ((u v : Vector) → db.dist_func u v ≡ db.dist_func v u)
    → ((u : Vector) → db.dist_func u u ≡ 0)
    → IsValid db.db_storage
    → All IsBlank (all_pages db.db_storage)
    → 0 < db.db_storage.n_files
    → pages_per_file db.db_storage * db.db_storage.page_size ≡ db.db_storage.file_size
    → num ≤ den
    → 2 ≤ vectors_per_page db.db_storage num den
    → vectors_per_page db.db_storage num den * db.db_storage.file_size < size_mod
    → db.db_storage.n_pages + length entries < size_mod
    → HoldsSlots dim db.db_storage
    → All (λ (e : Entry). length e.1 ≡ dim) entries
    → Returns
        (λ (new : Database).
          IsFresh new
          × IsPrefilled db.dist_func dim db.db_storage entries new.db_storage
          × (new.db_config ≡ db.db_config)
          × (new.dist_func ≡ db.dist_func)
          × (new.prune_check_func ≡ db.prune_check_func))
        (batch_prefill db entries num den)
unfolding batch_prefill
batch_prefill-IsFresh db dim entries num den symmetric zero_self v blank files exact density two
      small counts slots dims =
    let (t, run, filled) =
      batch_prefill_complete db.dist_func dim symmetric zero_self db.db_storage entries num den v
        blank files exact density two small counts slots dims in
    let (anchors, run', fresh) = update_anchor_cache_lem t filled.valid db.cached_vectors in
    (
      record db {
        db_storage = t;
        cached_vectors = anchors;
        cached_max_dists = index_pages 0 (all_pages t);
      },
      >>=-of_some _ run
          (>>=-of_some _ run' (>>=-of_some _ (update_cached_max_dist_lem t filled.valid) refl)),
      (
        record { valid = filled.valid; anchors = fresh; max_dists = refl },
        filled,
        refl,
        refl,
        refl,
      ),
    )
