-- ===== src/Storage/Files.antt =====
-- Creating, extending, closing and loading a database.
use native.Mathlib.Nat.{mod-eq_of_lt, div-eq_of_eq-mul_left, div-le_self, div-zero}
use spheres_benchmark.Prelude.{
  ℕ, ◌+◌, ◌*◌, ◌/◌, ◌≤◌, ◌<◌, ◌≡◌, refl, sym, ap, ◌∙◌, List, [], ◌∷◌, ◌++◌, some, arith, length,
  replicate, concat, >>=-of_some, All-append, All-replicate, size_mod, length-append,
  length-replicate, mul_size, add_size, sub_size,
}
use mathlib.Core.List.{append-nil, append_assoc}
use spheres_benchmark.Config.{
  size_bytes, first_n_bytes_per_page, SupportedDataType, SupportedDistanceFunctions, DatabaseConfig,
}
use spheres_benchmark.Storage.{
  DataFile, Storage, pages_per_file, blank_page, create_storage_file, create_storage, fresh_storage,
  open_files, load_storage, create_config_file, close_database, max_num_vectors, vector_offset_of,
  element_size_of,
}
use spheres_benchmark.Storage.Flat.{FilesFull}
use spheres_benchmark.Storage.Pages.{all_pages, IsValid, PageIsValid}

factor_le : (a b : ℕ) → 0 < b → a ≤ a * b
factor_le a b h = grind arith

bytes_lem :
    (n p size : ℕ) {bytes pages : ℕ} → p * size ≡ bytes → pages ≡ n * p → n * bytes ≡ pages * size
bytes_lem n p size e h = rw (← e, h) (omega arith)

max_num-lt :
    (page_size element_size dim : ℕ) → max_num_vectors page_size element_size dim < size_mod
unfolding max_num_vectors
max_num-lt page_size element_size dim =
    let n = sub_size page_size first_n_bytes_per_page in
    omega (arith, div-le_self n (add_size size_bytes (mul_size element_size dim)))

FilesFull-append :
    (p : ℕ) (files : List DataFile) (f : DataFile)
    → FilesFull p files
    → length f ≡ p
    → FilesFull p (files ++ f ∷ [])
FilesFull-append p files f h e = All-append (λ g. length g ≡ p) files (f ∷ []) h (e, tt)

concat-append :
    (files : List DataFile) (f : DataFile) → concat (files ++ f ∷ []) ≡ concat files ++ f
concat-append [] f = append-nil f
concat-append (g ∷ files) f =
    ap (λ t. g ++ t) (concat-append files f) ∙ sym (append_assoc g (concat files) f)

blank_page-IsValid : (max_num dim : ℕ) → PageIsValid max_num (blank_page max_num dim)
unfolding blank_page
blank_page-IsValid max_num dim = record {
  id_slots = length-replicate max_num 0;
  vector_slots = length-replicate max_num (replicate dim 0);
  fits = omega arith;
}

-- Extending a database by a file adds its blank pages behind the others, keeps those as they are,
-- and keeps the invariant, if the pages can be counted in 64 bits.
pub create_storage_file-IsValid :
    (s : Storage)
    → IsValid s
    → s.n_pages + pages_per_file s < size_mod
    → IsValid (create_storage_file s)
      × (all_pages (create_storage_file s)
          ≡ all_pages s
            ++ replicate (pages_per_file s) (blank_page s.max_num_vectors_per_page s.vector_dim))
      × ((create_storage_file s).n_pages ≡ s.n_pages + pages_per_file s)
unfolding create_storage_file
create_storage_file-IsValid s v room =
    let more = replicate (pages_per_file s) (blank_page s.max_num_vectors_per_page s.vector_dim) in
    let files = concat-append s.files more in
    let some_files : s.n_files ≤ s.n_files * pages_per_file s = factor_le s.n_files _ v.paged in
    let one_more : add_size s.n_files 1 ≡ s.n_files + 1 =
      mod-eq_of_lt (omega (arith, v.pages_count, v.paged)) in
    let counted : add_size s.n_pages (pages_per_file s) ≡ s.n_pages + pages_per_file s =
      mod-eq_of_lt room in
    (
      record {
        paged = v.paged;
        files_count = omega (arith, length-append s.files (more ∷ []), v.files_count, one_more);
        full = FilesFull-append _ s.files more v.full (length-replicate (pages_per_file s) _);
        pages_count =
            omega (arith, counted, v.pages_count, ap (λ (n : ℕ). n * pages_per_file s) one_more);
        bounded = v.bounded;
        pages = rw files (
            All-append _ (all_pages s) more v.pages
              (All-replicate _ _ _ (blank_page-IsValid s.max_num_vectors_per_page s.vector_dim)));
      },
      files,
      counted,
    )

-- A new database is valid and has the blank pages of one file.
pub create_storage-IsValid :
    (page_size file_size : ℕ) (dtype : SupportedDataType) (dim : ℕ)
    → 0 < file_size / page_size
    → file_size / page_size < size_mod
    → let s = create_storage page_size file_size dtype dim in
      IsValid s
      × (all_pages s
          ≡ replicate (file_size / page_size) (blank_page s.max_num_vectors_per_page dim))
      × (s.n_pages ≡ file_size / page_size)
unfolding create_storage
create_storage-IsValid page_size file_size dtype dim paged room =
    let (valid, blank, count) =
      create_storage_file-IsValid (fresh_storage page_size file_size dtype dim)
        (record {
          paged = paged;
          files_count = refl;
          full = tt;
          pages_count = omega arith;
          bounded = max_num-lt page_size (element_size_of dtype) dim;
          pages = tt;
        })
        (omega arith) in
    (valid, blank, omega (arith, count))

-- The configuration on disk and the fields that it fixes agree.
pub record Describes (config : DatabaseConfig) (s : Storage) : Type 0 where
  pub page_size : s.page_size ≡ config.page_size
  pub file_size : s.file_size ≡ config.file_size
  pub dim : s.vector_dim ≡ config.dim
  pub id_offset : s.id_offset ≡ first_n_bytes_per_page
  pub element_size : s.element_size ≡ element_size_of config.dtype
  pub max_num :
      s.max_num_vectors_per_page
      ≡ max_num_vectors config.page_size (element_size_of config.dtype) config.dim
  pub vector_offset :
      s.vector_offset
      ≡ vector_offset_of
          (max_num_vectors config.page_size (element_size_of config.dtype) config.dim)

-- What `create_database` writes to disk describes the storage that it creates.
pub create-Describes :
    (dtype : SupportedDataType) (distance : SupportedDistanceFunctions)
    (page_size file_size dim : ℕ)
    → Describes
        (create_config_file dtype distance page_size file_size dim)
        (create_storage page_size file_size dtype dim)
unfolding create_config_file create_storage
create-Describes dtype distance page_size file_size dim = record {
  page_size = refl;
  file_size = refl;
  dim = refl;
  id_offset = refl;
  element_size = refl;
  max_num = refl;
  vector_offset = refl;
}

open_files_all : (files : List DataFile) → open_files (length files) files ≡ some files
unfolding open_files
open_files_all [] = refl
open_files_all (f ∷ files) = rw (open_files_all files)

-- Loading the files of a valid storage with the configuration that closing it leaves gives that
-- storage back, where the pages fill the files and the bytes can be counted in 64 bits.
pub load-close :
    (config : DatabaseConfig) (s : Storage)
    → IsValid s
    → Describes config s
    → pages_per_file s * s.page_size ≡ s.file_size
    → s.n_files * s.file_size < size_mod
    → load_storage s.files (close_database config s) ≡ some s
unfolding load_storage close_database
load-close config s v d exact small =
    let opened : open_files s.n_files s.files ≡ some s.files =
      rw (← v.files_count) (open_files_all s.files) in
    >>=-of_some _ opened (ground (arith, pages))
  where
    pages : mul_size s.n_files s.file_size / s.page_size ≡ s.n_pages
    pages =
        let positive : 0 < s.page_size = omega (arith, v.paged, div-zero s.file_size) in
        rw (mod-eq_of_lt small) (
          div-eq_of_eq-mul_left positive
            (bytes_lem s.n_files (pages_per_file s) s.page_size exact v.pages_count))
