-- ===== src/Storage/Pages.antt =====
-- The storage invariant, and the operations on the pages that `page_idx` addresses.
use spheres_benchmark.Prelude.{
  ℕ, ◌*◌, ◌/◌, ◌%◌, ◌≤◌, ◌<◌, ◌≡◌, refl, sym, ap, ◌∙◌, List, Option, some, arith, length, get_elem?,
  set, take, ◌==◌, leb, true, false, concat, All, All-set, All-get, >>=-eq-some, >>=-of_some,
  Returns, size_mod, add_size, length-set, set-set, get_elem?-lt, get_elem?-set_self,
}
use native.Mathlib.Nat.{mod-lt, mul-div_cancel_left}
use spheres_benchmark.Storage.{
  get_array_view_of_page, get_n_vectors_of, get_max_dist_at, get_vector, get_vector_id, Vector,
  Page, Storage, pages_per_file, page_at, page_of, update_page_at, calculate_file_index,
  calculate_page_index, update_in_page_max_dist, append_new_vector, append_new_vector_at,
  place_new_vector_at, place_in_page, update_number_of_vectors_at,
}
use spheres_benchmark.Storage.Slots.{HoldsSlots, fits_slot_lem}
use spheres_benchmark.Storage.Flat.{
  FilesFull, get_elem?-concat, set-concat, FilesFull-set, FilesFull-get, length-concat,
}

abbrev pub all_pages : Storage → List Page
all_pages s = concat s.files

pub record PageIsValid (max_num : ℕ) (p : Page) : Type 0 where
  pub id_slots : length p.ids ≡ max_num
  pub vector_slots : length p.vectors ≡ max_num
  pub fits : p.n_vectors ≤ max_num

pub record IsValid (s : Storage) : Type 0 where
  pub paged : 0 < pages_per_file s
  pub files_count : length s.files ≡ s.n_files
  pub full : FilesFull (pages_per_file s) s.files
  pub pages_count : s.n_pages ≡ s.n_files * pages_per_file s
  pub bounded : s.max_num_vectors_per_page < size_mod
  pub pages : All (PageIsValid s.max_num_vectors_per_page) (all_pages s)

-- `t` is `s` with other contents in its files.
pub record SameShape (s t : Storage) : Type 0 where
  pub n_files : t.n_files ≡ s.n_files
  pub n_pages : t.n_pages ≡ s.n_pages
  pub page_size : t.page_size ≡ s.page_size
  pub file_size : t.file_size ≡ s.file_size
  pub max_num : t.max_num_vectors_per_page ≡ s.max_num_vectors_per_page
  pub dim : t.vector_dim ≡ s.vector_dim
  pub element_size : t.element_size ≡ s.element_size
  pub id_offset : t.id_offset ≡ s.id_offset
  pub vector_offset : t.vector_offset ≡ s.vector_offset

-- `t` is `s` with page `i` replaced by `q`.
pub record Wrote (s : Storage) (i : ℕ) (q : Page) (t : Storage) : Type 0 where
  pub shape : SameShape s t
  pub valid : IsValid t
  pub pages : all_pages t ≡ set (all_pages s) i q

pub page_of_lem : (s : Storage) (i : ℕ) → IsValid s → page_of s i ≡ get_elem? (all_pages s) i
unfolding page_of
page_of_lem s i v = get_elem?-concat (pages_per_file s) v.paged s.files i v.full

pub update_page-Wrote :
    (s : Storage) (i : ℕ) (f : Page → Option Page) (p q : Page)
    → IsValid s
    → get_elem? (all_pages s) i ≡ some p
    → f p ≡ some q
    → PageIsValid s.max_num_vectors_per_page q
    → Returns
        (Wrote s i q)
        (update_page_at s (calculate_file_index s i) (calculate_page_index s i) f)
unfolding update_page_at calculate_file_index calculate_page_index
update_page-Wrote s i f p q v here step ok =
    let n = pages_per_file s in
    let found = get_elem?-concat n v.paged s.files i v.full ∙ here in
    let (file, open_file, open_page) =
      >>=-eq-some (get_elem? s.files (i / n)) (λ g. get_elem? g (i % n)) found in
    let file' = set file (i % n) q in
    let files' = set s.files (i / n) file' in
    let full' =
      FilesFull-set n s.files (i / n) file' v.full
        (length-set file (i % n) q ∙ FilesFull-get n s.files (i / n) v.full open_file) in
    let written = set-concat n v.paged s.files i file q v.full open_file in
    (
      record s { files = files' },
      rw (open_file, open_page, step) refl,
      record {
        shape = record {
          n_files = refl;
          n_pages = refl;
          page_size = refl;
          file_size = refl;
          max_num = refl;
          dim = refl;
          element_size = refl;
          id_offset = refl;
          vector_offset = refl;
        };
        valid = record {
          paged = v.paged;
          files_count = length-set s.files (i / n) file' ∙ v.files_count;
          full = full';
          pages_count = v.pages_count;
          bounded = v.bounded;
          pages = rw written (All-set _ (all_pages s) i q v.pages ok);
        };
        pages = written;
      },
    )

pub SameShape-HoldsSlots :
    {s t : Storage} (dim : ℕ) → SameShape s t → HoldsSlots dim s → HoldsSlots dim t
SameShape-HoldsSlots dim a h = record {
  same_dim = a.dim ∙ h.same_dim;
  id_start = a.id_offset ∙ h.id_start;
  vector_start = rw (a.vector_offset, a.max_num) h.vector_start;
  bytes = rw (a.max_num, a.element_size, a.page_size) h.bytes;
  page_in = rw a.page_size h.page_in;
  element = rw a.element_size h.element;
}

pub SameShape-trans : {s t u : Storage} → SameShape s t → SameShape t u → SameShape s u
SameShape-trans a b = ground arith

-- A write to a page after a write to it.
pub Wrote-trans :
    {s t u : Storage} {i : ℕ} {p q : Page} → Wrote s i p t → Wrote t i q u → Wrote s i q u
Wrote-trans {s} {i = i} {p = p} {q = q} a b = record {
  shape = SameShape-trans a.shape b.shape;
  valid = b.valid;
  pages = b.pages ∙ ap (λ ps. set ps i q) a.pages ∙ set-set (all_pages s) i p q;
}

module _ {s t : Storage} (shape : SameShape s t) (i : ℕ) where
  file_index-shape : calculate_file_index t i ≡ calculate_file_index s i
  unfolding calculate_file_index
  file_index-shape = rw (shape.file_size, shape.page_size)

  page_index-shape : calculate_page_index t i ≡ calculate_page_index s i
  unfolding calculate_page_index
  page_index-shape = rw (shape.file_size, shape.page_size)

pub get-Wrote :
    {s t : Storage} {i : ℕ} {p q : Page}
    → Wrote s i q t
    → get_elem? (all_pages s) i ≡ some p
    → get_elem? (all_pages t) i ≡ some q
get-Wrote {s} {i = i} {q = q} w here =
    rw w.pages (get_elem?-set_self (all_pages s) i q (get_elem?-lt (all_pages s) i here))

-- The page that an append leaves.
abbrev pub appended : ℕ → Vector → Page → Page
appended new_id new_vector p = record p {
  n_vectors = add_size p.n_vectors 1;
  ids = set p.ids p.n_vectors new_id;
  vectors = set p.vectors p.n_vectors new_vector;
}

module _ (s : Storage) (i : ℕ) (p : Page) (v : IsValid s)
    (here : get_elem? (all_pages s) i ≡ some p) where
  pub page-IsValid : PageIsValid s.max_num_vectors_per_page p
  page-IsValid = All-get _ (all_pages s) i v.pages here

  -- Storing a maximal distance changes that word of the page only.
  pub update_in_page_max_dist-Wrote :
      (d : ℕ) → Returns (Wrote s i (record p { max_dist = d })) (update_in_page_max_dist s i d)
  unfolding update_in_page_max_dist
  update_in_page_max_dist-Wrote d =
      update_page-Wrote s i (λ r. some (record r { max_dist = d })) p (record p { max_dist = d }) v
        here refl
        (record {
          id_slots = page-IsValid.id_slots;
          vector_slots = page-IsValid.vector_slots;
          fits = page-IsValid.fits;
        })

module _ (s : Storage) (new_id : ℕ) (new_vector : Vector) (i : ℕ) (p : Page) (v : IsValid s)
    (here : get_elem? (all_pages s) i ≡ some p) (room : p.n_vectors < s.max_num_vectors_per_page)
    (dim : ℕ) (holds : HoldsSlots dim s) (size : length new_vector ≡ dim) where
  slots : PageIsValid s.max_num_vectors_per_page p
  slots = page-IsValid s i p v here

  abbrev placed : Page
  placed = record p {
    ids = set p.ids p.n_vectors new_id;
    vectors = set p.vectors p.n_vectors new_vector;
  }

  placed-IsValid : PageIsValid s.max_num_vectors_per_page placed
  placed-IsValid = record {
    id_slots = length-set p.ids p.n_vectors new_id ∙ slots.id_slots;
    vector_slots = length-set p.vectors p.n_vectors new_vector ∙ slots.vector_slots;
    fits = slots.fits;
  }

  appended-IsValid : PageIsValid s.max_num_vectors_per_page (appended new_id new_vector p)
  appended-IsValid = record {
    id_slots = placed-IsValid.id_slots;
    vector_slots = placed-IsValid.vector_slots;
    fits = omega arith;
  }

  place_in_page_lem : place_in_page new_id new_vector p.n_vectors p ≡ some placed
  unfolding place_in_page
  place_in_page_lem = ground (arith, slots.vector_slots)

  -- An append to a page with room writes the vector and its id in the next slots of that page, counts
  -- it, and changes nothing else. The vector has the dimension of the storage, and a page has the bytes of
  -- its slots.
  pub append_new_vector-Wrote :
      Returns (Wrote s i (appended new_id new_vector p)) (append_new_vector s new_id new_vector i)
  unfolding append_new_vector append_new_vector_at page_of place_new_vector_at
      update_number_of_vectors_at
  append_new_vector-Wrote =
      let at : page_at s (calculate_file_index s i) (calculate_page_index s i) ≡ some p =
        page_of_lem s i v ∙ here in
      let fits = fits_slot_lem dim s holds p.n_vectors room new_vector size in
      let (t, place, w) =
        update_page-Wrote s i (place_in_page new_id new_vector p.n_vectors) p placed v here
          place_in_page_lem placed-IsValid in
      let placed_at : place_new_vector_at s new_id new_vector (calculate_file_index s i)
            (calculate_page_index s i) p.n_vectors
          ≡ some t =
        rw fits place in
      let (u, count, x) =
        update_page-Wrote t i (λ r. some (record r { n_vectors = add_size r.n_vectors 1 })) placed
          (appended new_id new_vector p) w.valid (get-Wrote w here) refl
          (rw w.shape.max_num appended-IsValid) in
      (
        u,
        >>=-of_some _ at (
            >>=-of_some _ placed_at
              (rw (file_index-shape w.shape i, page_index-shape w.shape i) at count)),
        Wrote-trans w x,
      )

pub length-all_pages : (s : Storage) → IsValid s → length (all_pages s) ≡ s.n_pages
length-all_pages s v =
    length-concat (pages_per_file s) s.files v.full
    ∙ ap (λ n. n * pages_per_file s) v.files_count
    ∙ sym v.pages_count

-- The reads of a page that `page_idx` addresses.
module _ (s : Storage) (i : ℕ) (p : Page) (v : IsValid s)
    (here : get_elem? (all_pages s) i ≡ some p) where
  page_of-eq : page_of s i ≡ some p
  page_of-eq = page_of_lem s i v ∙ here

  pub get_n_vectors_of-eq : get_n_vectors_of s i ≡ some p.n_vectors
  unfolding get_n_vectors_of
  get_n_vectors_of-eq = >>=-of_some _ page_of-eq refl

  pub get_max_dist_at-eq : get_max_dist_at s i ≡ some p.max_dist
  unfolding get_max_dist_at
  get_max_dist_at-eq = >>=-of_some _ page_of-eq refl

  pub get_vector-eq : (j : ℕ) → get_vector s i j ≡ get_elem? p.vectors j
  unfolding get_vector
  get_vector-eq j = >>=-of_some _ page_of-eq refl

  pub get_vector_id-eq : (j : ℕ) → get_vector_id s i j ≡ get_elem? p.ids j
  unfolding get_vector_id
  get_vector_id-eq j = >>=-of_some _ page_of-eq refl

  page_at-eq : page_at s (calculate_file_index s i) (calculate_page_index s i) ≡ some p
  unfolding page_of
  page_at-eq = page_of-eq

  file_index-lt : calculate_file_index s i < length s.files
  unfolding page_at
  file_index-lt =
      let file = calculate_file_index s i in
      let (f, found, _) =
        >>=-eq-some (get_elem? s.files file) (λ f. get_elem? f (calculate_page_index s i))
          page_at-eq in
      get_elem?-lt s.files file found

  page_index-lt : calculate_page_index s i < pages_per_file s
  unfolding calculate_page_index
  page_index-lt = mod-lt i v.paged

  -- Of a page that is there the view has the vectors that the page counts.
  pub get_array_view_of_page-eq : get_array_view_of_page s i ≡ some (take p.n_vectors p.vectors)
  unfolding get_array_view_of_page
  get_array_view_of_page-eq =
      let slots = page-IsValid s i p v here in
      let some_files : 0 < s.n_files = omega (arith, v.files_count, file_index-lt) in
      let per_file : s.n_pages / s.n_files ≡ pages_per_file s =
        ap (λ n. n / s.n_files) v.pages_count ∙ mul-div_cancel_left (pages_per_file s) some_files in
      let no_guard : (length s.files == 0 ≡ false)
          × (leb (length s.files) (calculate_file_index s i) ≡ false)
          × (leb (s.n_pages / s.n_files) (calculate_page_index s i) ≡ false)
          × (leb p.n_vectors (length p.vectors) ≡ true) =
        (
          ground (arith, v.files_count),
          ground (arith, file_index-lt),
          ground (arith, per_file, page_index-lt),
          ground (arith, slots.fits, slots.vector_slots),
        ) in
      rw (no_guard.0, no_guard.1, no_guard.2) (>>=-of_some _ page_at-eq (rw no_guard.3))
