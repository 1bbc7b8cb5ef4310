-- ===== src/Database/Lifecycle.antt =====
-- A database of modules/database/database.cppm from its creation over closing and loading to a
-- search.
use native.Mathlib.Nat.{div-zero}
use spheres_benchmark.Prelude.{
  ℕ, ◌+◌, ◌*◌, ◌/◌, ◌≤◌, ◌<◌, ◌≡◌, refl, sym, ap, ◌∙◌, List, arith, length, size_mod, All,
  All-replicate, All-map, Option, ◌>>=◌, Returns, Returns-bind, Returns-some, mul_mono,
}
use mathlib.Core.Path.{subst}
use spheres_benchmark.Config.{SupportedDistanceFunctions, SupportedDataType, DatabaseConfig}
use spheres_benchmark.Storage.{
  Vector, Storage, element_size_of, create_storage, create_config_file, close_database,
  pages_per_file,
}
use spheres_benchmark.Tagged.{Tagged}
use spheres_benchmark.Storage.Slots.{create_storage-HoldsSlots}
use spheres_benchmark.Storage.Files.{
  create_storage-IsValid, create-Describes, Describes, load-close,
}
use spheres_benchmark.Distance.{prune_check}
use spheres_benchmark.Knn.Scan.{PruneIsSound}
use spheres_benchmark.Prefill.{Entry, vectors_per_page}
use spheres_benchmark.Prefill.Complete.{IsBlank}
use spheres_benchmark.Prefill.Whole.{IsPrefilled, blank_page-IsBlank}
use spheres_benchmark.Database.{
  Database, create_database, batch_prefill, load_database, find_k_nearest_batch,
}
use spheres_benchmark.Database.Search.{IsFresh, load_database-IsFresh}
use spheres_benchmark.Database.Build.{
  created_database, create-sizes, create_database_lem, batch_prefill-IsFresh,
}
use spheres_benchmark.Database.Answers.{AnswersAll, search-prefilled}

bytes_le :
    (n ppf size : ℕ) {file pages most : ℕ}
    → ppf * size ≡ file
    → pages ≡ n * ppf
    → pages ≤ most
    → n * file ≤ most * size
bytes_le n ppf size {file} {pages} {most} full count few =
    rw (← full) (omega (arith, mul_mono (n * ppf) most size (omega arith)))

module _ (dist_of : SupportedDistanceFunctions → Vector → Vector → ℕ)
    (distance : SupportedDistanceFunctions) (dtype : SupportedDataType)
    (page_size file_size dim n_threads buffers_size : ℕ) (entries : List Entry) (num den : ℕ) where
  abbrev new_storage : Storage
  new_storage = create_storage page_size file_size dtype dim

  -- A database is created and filled, closed, and loaded again from what that leaves on disk.
  abbrev pub build_and_load : Option Database
  build_and_load = do
    new ← create_database dist_of page_size file_size dtype dim distance n_threads buffers_size
    filled ← batch_prefill new entries num den
    load_database dist_of filled.db_storage.files
        (close_database filled.db_config filled.db_storage) n_threads buffers_size

  -- The conditions on the sizes: a page holds its header, pages fill a file, they take two vectors at
  -- least at the density, and the bytes of a vector with its id and those of all pages can be counted in
  -- 64 bits.
  pub record SizesFit : Type 0 where
    pub header : 16 ≤ page_size
    pub vector_bytes : element_size_of dtype * dim + 8 < size_mod
    pub paged : 0 < file_size / page_size
    pub exact : file_size / page_size * page_size ≡ file_size
    pub density : num ≤ den
    pub two : 2 ≤ vectors_per_page new_storage num den
    pub small_file : vectors_per_page new_storage num den * file_size < size_mod
    pub small : (file_size / page_size + length entries) * page_size < size_mod

  module _ (fit : SizesFit)
      (symmetric : (u v : Vector) → dist_of distance u v ≡ dist_of distance v u)
      (zero_self : (u : Vector) → dist_of distance u u ≡ 0)
      (dims : All (λ (e : Entry). length e.1 ≡ dim) entries) where
    -- A database that answers for the entries.
    abbrev IsReady : Database → Type 0
    IsReady db =
        IsFresh db
        × IsPrefilled (dist_of distance) dim new_storage entries db.db_storage
        × (length db.local_distance_buffers ≡ n_threads)
        × All (λ (b : List Tagged). length b ≡ buffers_size) db.local_distance_buffers
        × (db.dist_func ≡ dist_of distance)
        × (db.prune_check_func ≡ prune_check distance)

    abbrev new_config : DatabaseConfig
    new_config = create_config_file dtype distance page_size file_size dim

    abbrev new_database : Database
    new_database =
        created_database dist_of page_size file_size dtype dim distance n_threads buffers_size

    new_distance : new_config.distance_function ≡ distance
    unfolding create_config_file
    new_distance = refl

    new_layout :
        (t : Storage)
        → Describes new_config t
        → (t.page_size ≡ page_size) × (t.file_size ≡ file_size)
    unfolding create_config_file
    new_layout t d = (d.page_size, d.file_size)

    closed_distance :
        (config : DatabaseConfig) (t : Storage)
        → config ≡ new_config
        → (close_database config t).distance_function ≡ distance
    unfolding close_database
    closed_distance config t same =
        ap (λ (c : DatabaseConfig). c.distance_function) same ∙ new_distance

    positive : 0 < page_size
    positive = omega (arith, fit.paged, div-zero file_size)

    pages_small : file_size / page_size + length entries < size_mod
    pages_small =
        omega
          (arith, fit.small, mul_mono 1 page_size (file_size / page_size + length entries) positive)

    page_in : page_size < size_mod
    page_in = omega (
      arith,
      fit.small,
      fit.paged,
      mul_mono 1 (file_size / page_size + length entries) page_size (omega (arith, fit.paged)),
    )

    new_pages : new_storage.n_pages ≡ file_size / page_size
    new_pages =
        (create_storage-IsValid page_size file_size dtype dim fit.paged
          (omega (arith, pages_small))).2

    prefilled-fits :
        (t : Storage)
        → IsPrefilled (dist_of distance) dim new_storage entries t
        → Describes new_config t
          × (pages_per_file t * t.page_size ≡ t.file_size)
          × (t.n_files * t.file_size < size_mod)
    prefilled-fits t p =
        let d = p.described new_config (create-Describes dtype distance page_size file_size dim) in
        let (page, file) = new_layout t d in
        let full : pages_per_file t * t.page_size ≡ t.file_size = rw (page, file) fit.exact in
        let bytes =
          bytes_le t.n_files (pages_per_file t) t.page_size
            {most = file_size / page_size + length entries} full p.valid.pages_count
            (omega (arith, p.few_pages, new_pages)) in
        let most : (file_size / page_size + length entries) * t.page_size < size_mod =
          rw page fit.small in
        (d, full, omega (arith, bytes, most))

    reload-IsReady :
        (config : DatabaseConfig) (t : Storage)
        → config ≡ new_config
        → IsPrefilled (dist_of distance) dim new_storage entries t
        → Returns IsReady
            (load_database dist_of t.files (close_database config t) n_threads buffers_size)
    reload-IsReady config t same p =
        let (d, full, small) = prefilled-fits t p in
        let described = subst (λ (c : DatabaseConfig). Describes c t) (sym same) d in
        let (db, load, y) =
          load_database-IsFresh dist_of t.files (close_database config t) n_threads buffers_size t
            (load-close config t p.valid described full small) p.valid in
        let distance_eq = closed_distance config t same in
        (
          db,
          load,
          (y.0, rw y.1 p, y.2, y.3, y.4 ∙ ap dist_of distance_eq, y.5 ∙ ap prune_check distance_eq),
        )

    fill-IsPrefilled :
        Returns
          (λ (filled : Database).
            IsPrefilled (dist_of distance) dim new_storage entries filled.db_storage
            × (filled.db_config ≡ new_config))
          (batch_prefill new_database entries num den)
    fill-IsPrefilled =
        let (one, same_page, same_file) = create-sizes page_size file_size dtype dim in
        let (valid, blank, _) =
          create_storage-IsValid page_size file_size dtype dim fit.paged
            (omega (arith, pages_small)) in
        let (filled, run, x) =
          batch_prefill-IsFresh new_database dim entries num den symmetric zero_self valid
            (rw blank (All-replicate IsBlank _ _ (blank_page-IsBlank _ dim))) (rw one (omega arith))
            (rw (same_file, same_page) fit.exact) fit.density fit.two
            (subst (λ (f : ℕ). vectors_per_page new_storage num den * f < size_mod) (sym same_file)
              fit.small_file)
            (rw new_pages pages_small)
            (create_storage-HoldsSlots page_size file_size dtype dim fit.header page_in
              fit.vector_bytes)
            dims in
        (filled, run, (x.1, x.2))

    build_and_load-IsReady : Returns IsReady build_and_load
    build_and_load-IsReady =
        Returns-some _
          (create_database_lem dist_of page_size file_size dtype dim distance n_threads buffers_size
            fit.paged fit.exact (omega (arith, fit.exact, fit.small)))
          (Returns-bind fill-IsPrefilled
            λ filled x. reload-IsReady filled.db_config filled.db_storage x.1 x.0)

    -- A database is created, filled with the entries, closed, and loaded again; then a batch search with
    -- no limit on the pages to probe ends with the k nearest of the entries for every query, in whatever
    -- order the threads take the morsels until none is left. The sizes fit, the distance is symmetric
    -- and zero from a vector to itself, and the test that is set for it is sound; entries and queries
    -- have the dimension of the database, there are k entries at least, and a thread's buffer has k places
    -- at least.
    pub build-search_exact :
        (k step : ℕ) (queries : List Vector) (threads : List ℕ)
        → PruneIsSound (dist_of distance) dim (prune_check distance)
        → 0 < k
        → k ≤ length entries
        → All (λ (q : Vector). length q ≡ dim) queries
        → k ≤ buffers_size
        → All (λ (t : ℕ). t < n_threads) threads
        → length queries ≤ step * length threads
        → step * length threads < size_mod
        → Returns
            (AnswersAll (dist_of distance) entries k queries)
            (build_and_load >>= λ db. find_k_nearest_batch db queries k 0 step threads)
    build-search_exact k step queries threads sound some_k enough query_dims room known turns
          small =
        Returns-bind build_and_load-IsReady λ db r. rw (← r.4) (
          search-prefilled db dim k step new_storage entries queries threads r.0 (rw r.4 r.1)
            (rw r.4 symmetric) (rw (r.4, r.5) sound) some_k enough query_dims
            (All-map _ _ db.local_distance_buffers (λ b e. rw e room) r.3) (rw r.2 known) turns
            small)
