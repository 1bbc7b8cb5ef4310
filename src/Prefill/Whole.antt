-- ===== src/Prefill/Whole.antt =====
-- `batch_prefill_single_threaded` on an empty database, with the files that are made for it.
use native.Mathlib.Nat.{
  mod-eq_of_lt, div-eq_of_eq-mul_left, div-zero, div-le_of_le-mul, div-lt_iff_lt-mul,
  div-mul-le_self,
}
use spheres_benchmark.Prelude.{
  ℕ, zero, suc, ◌+◌, ◌*◌, ◌/◌, ◌≤◌, ◌<◌, ◌≡◌, refl, sym, ap, ◌∙◌, List, [], arith, length, mul_size,
  size_mod, All, All-append, All-replicate, SameItems, Returns, mul_mono, mul_mono_both,
}
use spheres_benchmark.Config.{DatabaseConfig}
use spheres_benchmark.Storage.{Vector, Storage, blank_page, pages_per_file, create_storage_file}
use spheres_benchmark.Storage.Slots.{HoldsSlots}
use spheres_benchmark.Storage.Pages.{all_pages, IsValid, SameShape, length-all_pages}
use spheres_benchmark.Storage.Files.{Describes, create_storage_file-IsValid}
use spheres_benchmark.Knn.Scan.{IsBall}
use spheres_benchmark.Prefill.{Entry, create_files, vectors_per_page, batch_prefill_single_threaded}
use spheres_benchmark.Prefill.Complete.{stored_entries, IsBlank, prefill_pages-Prefilled}

-- What `create_files` keeps and adds.
record Grown (n : ℕ) (s t : Storage) : Type 0 where
  valid : IsValid t
  blank : All IsBlank (all_pages t)
  count : t.n_pages ≡ s.n_pages + n * pages_per_file s
  max_num : t.max_num_vectors_per_page ≡ s.max_num_vectors_per_page
  described : (config : DatabaseConfig) → Describes config s → Describes config t
  slots : (dim : ℕ) → HoldsSlots dim s → HoldsSlots dim t

pub create_storage_file-kept :
    (s : Storage)
    → (pages_per_file (create_storage_file s) ≡ pages_per_file s)
      × ((create_storage_file s).max_num_vectors_per_page ≡ s.max_num_vectors_per_page)
unfolding create_storage_file
create_storage_file-kept s = (refl, refl)

pub create_storage_file-HoldsSlots :
    (s : Storage) (dim : ℕ) → HoldsSlots dim s → HoldsSlots dim (create_storage_file s)
unfolding create_storage_file
create_storage_file-HoldsSlots s dim h = record {
  same_dim = h.same_dim;
  id_start = h.id_start;
  vector_start = h.vector_start;
  bytes = h.bytes;
  page_in = h.page_in;
  element = h.element;
}

create_storage_file-Describes :
    (s : Storage) (config : DatabaseConfig)
    → Describes config s
    → Describes config (create_storage_file s)
unfolding create_storage_file
create_storage_file-Describes s config d = record {
  page_size = d.page_size;
  file_size = d.file_size;
  dim = d.dim;
  id_offset = d.id_offset;
  element_size = d.element_size;
  max_num = d.max_num;
  vector_offset = d.vector_offset;
}

SameShape-Describes :
    {s t : Storage} (config : DatabaseConfig)
    → SameShape s t
    → Describes config s
    → Describes config t
SameShape-Describes config h d = ground arith

pub blank_page-IsBlank : (max_num dim : ℕ) → IsBlank (blank_page max_num dim)
unfolding blank_page
blank_page-IsBlank max_num dim = refl

create_files-Grown :
    (n : ℕ) (s : Storage)
    → IsValid s
    → All IsBlank (all_pages s)
    → s.n_pages + n * pages_per_file s < size_mod
    → Grown n s (create_files n s)
unfolding create_files
create_files-Grown zero s v blank room = record {
  valid = v;
  blank = blank;
  count = omega arith;
  max_num = refl;
  described = λ c d. d;
  slots = λ dim h. h;
}
create_files-Grown (suc n) s v blank room =
    let (valid, pages, count) = create_storage_file-IsValid s v (omega (arith, room)) in
    let (same_size, same_max) = create_storage_file-kept s in
    let more = blank_page-IsBlank s.max_num_vectors_per_page s.vector_dim in
    let counts : (create_storage_file s).n_pages + n * pages_per_file (create_storage_file s)
        ≡ s.n_pages + suc n * pages_per_file s =
      rw (same_size, count) (omega arith) in
    let g =
      create_files-Grown n (create_storage_file s) valid
        (rw pages (All-append IsBlank (all_pages s) _ blank (All-replicate IsBlank _ _ more)))
        (rw counts room) in
    record {
      valid = g.valid;
      blank = g.blank;
      count = g.count ∙ counts;
      max_num = g.max_num ∙ same_max;
      described = λ c d. g.described c (create_storage_file-Describes s c d);
      slots = λ dim h. g.slots dim (create_storage_file-HoldsSlots s dim h);
    }

pub part_le : (m num den : ℕ) → num ≤ den → m * num / den ≤ m
part_le m num den h = div-le_of_le-mul den (omega (arith, mul_mono num den m h))

-- The files that are made hold all entries.
new_pages_fit :
    (n m ppf pages : ℕ) → 0 < m * ppf → ppf ≤ pages → n ≤ (pages + n / (m * ppf) * ppf) * m
new_pages_fit n m ppf pages positive some_pages =
    let below =
      (div-lt_iff_lt-mul {k = m * ppf} {x = n} {y = suc (n / (m * ppf))} positive).0
        (omega arith) in
    omega (arith, below, mul_mono ppf pages m some_pages)

new_pages_small : (n m ppf : ℕ) → 0 < m → n / (m * ppf) * ppf ≤ n
new_pages_small n m ppf positive =
    omega (arith, div-mul-le_self n (m * ppf), mul_mono 1 m (n / (m * ppf) * ppf) positive)

per_file :
    (m file_size page_size : ℕ)
    → 0 < file_size / page_size
    → file_size / page_size * page_size ≡ file_size
    → m * file_size < size_mod
    → mul_size m file_size / page_size ≡ m * (file_size / page_size)
per_file m file_size page_size paged exact small =
    let positive : 0 < page_size = omega (arith, paged, div-zero file_size) in
    rw (mod-eq_of_lt small)
      (div-eq_of_eq-mul_left positive (ap (λ (n : ℕ). m * n) (sym exact) ∙ omega arith))

-- A valid storage in whose balls the entries are all that is stored, with the layout of `s`.
pub record IsPrefilled (dist_func : Vector → Vector → ℕ) (dim : ℕ) (s : Storage)
    (entries : List Entry) (t : Storage) : Type 0 where
  pub valid : IsValid t
  pub balls : All (IsBall dist_func dim) (all_pages t)
  pub same : SameItems (stored_entries (all_pages t)) entries
  pub described : (config : DatabaseConfig) → Describes config s → Describes config t
  pub few_pages : t.n_pages ≤ s.n_pages + length entries

module _ (dist_func : Vector → Vector → ℕ) (dim : ℕ)
    (symmetric : (u v : Vector) → dist_func u v ≡ dist_func v u)
    (zero_self : (u : Vector) → dist_func u u ≡ 0) where
  -- A prefill of an empty database returns, and leaves a valid storage that holds each given vector
  -- under its id, once, and nothing else, in pages that are all balls round their first vectors. The
  -- distance is symmetric and zero from a vector to itself, the vectors have the dimension of the
  -- storage, whose pages have the bytes of their slots; a page takes two vectors at least at the given
  -- density, pages fill the files, and the counts of pages and the bytes of a file full of pages fit in
  -- 64 bits.
  pub batch_prefill_complete :
      (s : Storage) (entries : List Entry) (num den : ℕ)
      → IsValid s
      → All IsBlank (all_pages s)
      → 0 < s.n_files
      → pages_per_file s * s.page_size ≡ s.file_size
      → num ≤ den
      → 2 ≤ vectors_per_page s num den
      → vectors_per_page s num den * s.file_size < size_mod
      → s.n_pages + length entries < size_mod
      → HoldsSlots dim s
      → All (λ (e : Entry). length e.1 ≡ dim) entries
      → Returns
          (IsPrefilled dist_func dim s entries)
          (batch_prefill_single_threaded dist_func s entries num den)
  unfolding batch_prefill_single_threaded vectors_per_page
  batch_prefill_complete s entries num den v blank files exact density two small counts slots dims =
      let m = vectors_per_page s num den in
      let n_new = length entries / (mul_size m s.file_size / s.page_size) in
      let ppf = pages_per_file s in
      let new_files : n_new ≡ length entries / (m * ppf) =
        ap (λ (c : ℕ). length entries / c)
          (per_file m s.file_size s.page_size v.paged exact small) in
      let more : n_new * ppf ≤ length entries =
        rw new_files (new_pages_small (length entries) m ppf (omega arith)) in
      let g = create_files-Grown n_new s v blank (omega (arith, more)) in
      let full_pages : ppf ≤ s.n_pages =
        rw v.pages_count (omega (arith, mul_mono 1 s.n_files ppf files)) in
      let u = create_files n_new s in
      let fits : length entries ≤ length (all_pages u) * m =
        rw (length-all_pages u g.valid, g.count, new_files)
          (new_pages_fit (length entries) m ppf s.n_pages
            (omega (arith, two, mul_mono_both 1 m 1 ppf (omega (arith, two)) v.paged))
            full_pages) in
      let (t, run, x) =
        prefill_pages-Prefilled dist_func dim symmetric zero_self m two (length entries + 1) u 0 []
          (all_pages u) entries g.valid
          (rw g.max_num (part_le s.max_num_vectors_per_page num den density)) refl refl g.blank dims
          (omega arith) fits (g.slots dim slots) in
      (
        t,
        run,
        record {
          valid = x.valid;
          balls = rw x.pages x.balls;
          same = rw x.pages x.same;
          described = λ c d. SameShape-Describes c x.shape (g.described c d);
          few_pages = omega (arith, x.shape.n_pages, g.count, more);
        },
      )
