-- ===== src/Insert/Stored.antt =====
-- What `insert_a_vector` stores where it pushes no vector out of a page.
use native.Mathlib.Nat.{div-eq_of_eq-mul_left, mul-mod_left}
use spheres_benchmark.Prelude.{
  ℕ, zero, suc, ◌+◌, ◌-◌, ◌*◌, ◌/◌, ◌%◌, ◌≤◌, ◌<◌, ◌≡◌, refl, sym, ap, ◌∙◌, inl, inr, Option, true,
  none, some, ◌∷◌, ◌++◌, arith, ltb, leb, Bool-cases, length, get_elem?, get_elem?-append_right,
  replicate, total, SameItems, All-replicate, add_size, size_mod, Returns, ◌>>=◌, >>=-of_some,
}
use mathlib.Core.Path.{ap₂}
use spheres_benchmark.Storage.{
  Vector, Page, Storage, blank_page, pages_per_file, create_storage_file, append_new_vector,
  append_new_vector_at, calculate_file_index, calculate_page_index,
}
use spheres_benchmark.Storage.Slots.{HoldsSlots}
use spheres_benchmark.Storage.Pages.{
  all_pages, IsValid, appended, append_new_vector-Wrote, length-all_pages,
}
use spheres_benchmark.Storage.Files.{create_storage_file-IsValid}
use spheres_benchmark.Cache.Fresh.{index_pages, update_anchor_cache_lem, update_cached_max_dist_lem}
use spheres_benchmark.Prefill.{Entry, vectors_per_page}
use spheres_benchmark.Prefill.Complete.{stored_entries, IsBlank, blank_entries}
use spheres_benchmark.Prefill.Whole.{
  part_le, blank_page-IsBlank, create_storage_file-kept, create_storage_file-HoldsSlots,
}
use spheres_benchmark.Insert.{
  Inserting, refresh_both, no_victim, case3, case5, case6, choose_case, empty_page,
}
use spheres_benchmark.Insert.Cases.{choose_case_lem}
use spheres_benchmark.Insert.Empty.{empty_page-blank}
use spheres_benchmark.Insert.Entries.{total-stored_append, index_pages-set, Wrote-SameItems}

-- The first page of the last file.
last_file : (i n p : ℕ) → i ≡ n * p → 0 < p → (i / p ≡ n) × (i % p ≡ 0)
last_file i n p at positive =
    (div-eq_of_eq-mul_left positive at, ap (λ (j : ℕ). j % p) at ∙ mul-mod_left n p)

one_less : (n p pages : ℕ) → pages + p ≡ n * p → 0 < p → pages ≡ (n - 1) * p
one_less zero p pages h positive = absurd (omega arith)
one_less (suc n) p pages h positive =
    let product : suc n * p ≡ n * p + p = grind arith in
    let before : suc n - 1 ≡ n = omega arith in rw before (omega (arith, h, product))

replicate_head {ℓ} : {A : Type ℓ} (n : ℕ) (x : A) → 0 < n → get_elem? (replicate n x) 0 ≡ some x
replicate_head zero x h = absurd (omega arith)
replicate_head (suc n) x h = refl

-- The state after an entry has been stored: with a valid storage that holds it besides what was stored,
-- with a fresh cache of maximal distances, and with no vector left to be inserted.
pub record IsInserted (st : Inserting) (e : Entry) (r : Inserting × Option (ℕ × Vector))
    : Type 0 where
  pub valid : IsValid r.0.db_storage
  pub same :
      SameItems
        (stored_entries (all_pages r.0.db_storage))
        (e ∷ stored_entries (all_pages st.db_storage))
  pub max_dists : r.0.cached_max_dists ≡ index_pages 0 (all_pages r.0.db_storage)
  pub done : r.1 ≡ none

module _ (dist_func : Vector → Vector → ℕ) (num den : ℕ) (st : Inserting) (new_id : ℕ)
    (new_vector : Vector) (v : IsValid st.db_storage) (dim : ℕ)
    (slots : HoldsSlots dim st.db_storage) (size : length new_vector ≡ dim)
    (fresh : st.cached_max_dists ≡ index_pages 0 (all_pages st.db_storage))
    (some_slots : 0 < st.db_storage.max_num_vectors_per_page) where
  abbrev s : Storage
  s = st.db_storage

  abbrev e : Entry
  e = (new_id, new_vector)

  abbrev Inserted : Option Inserting → Type 0
  Inserted m = Returns (IsInserted st e) (no_victim dist_func num den st new_id new_vector m)

  refresh_both-IsInserted :
      (t : Storage)
      → IsValid t
      → SameItems (stored_entries (all_pages t)) (e ∷ stored_entries (all_pages s))
      → Inserted (refresh_both st t)
  unfolding refresh_both
  refresh_both-IsInserted t valid same =
      let (anchors, run, _) = update_anchor_cache_lem t valid st.cached_anchors in
      (
        _,
        >>=-of_some _ (>>=-of_some _ run (>>=-of_some _ (update_cached_max_dist_lem t valid) refl))
            refl,
        record { valid = valid; same = same; max_dists = refl; done = refl },
      )

  case3-IsInserted :
      (page_idx : ℕ) (p : Page)
      → get_elem? (all_pages s) page_idx ≡ some p
      → 0 < p.n_vectors
      → p.n_vectors < s.max_num_vectors_per_page
      → Inserted (case3 dist_func num den st new_id new_vector page_idx)
  unfolding case3
  case3-IsInserted page_idx p here some_vectors room =
      let (t, run, w) =
        append_new_vector-Wrote s new_id new_vector page_idx p v here room dim slots size in
      let kept =
        index_pages-set (all_pages s) 0 page_idx p (appended new_id new_vector p) here some_vectors
          (omega (arith, room, v.bounded)) refl in
      (
        (record st { db_storage = t }, none),
        >>=-of_some _ (>>=-of_some _ run refl) refl,
        record {
          valid = w.valid;
          same = Wrote-SameItems s e page_idx p v here room w;
          max_dists = fresh ∙ sym (ap (index_pages 0) w.pages ∙ kept);
          done = refl;
        },
      )

  case5-IsInserted :
      length st.cached_max_dists < s.n_pages
      → Inserted (case5 dist_func num den st new_id new_vector)
  unfolding case5
  case5-IsInserted more =
      let (p, here, blank) = empty_page-blank st v fresh more in
      let room : p.n_vectors < s.max_num_vectors_per_page = omega (arith, blank, some_slots) in
      let (t, run, w) =
        append_new_vector-Wrote s new_id new_vector (empty_page st) p v here room dim slots size in
      let (r, run', x) =
        refresh_both-IsInserted t w.valid (Wrote-SameItems s e (empty_page st) p v here room w) in
      (r, ap (λ m. m >>= λ q. some (q, none)) (>>=-of_some _ run refl) ∙ run', x)

  case6-IsInserted :
      s.n_pages + pages_per_file s < size_mod
      → Inserted (case6 dist_func num den st new_id new_vector)
  unfolding case6 append_new_vector calculate_file_index calculate_page_index
  case6-IsInserted countable =
      let s' = create_storage_file s in
      let (valid, pages, count) = create_storage_file-IsValid s v countable in
      let (same_size, same_max) = create_storage_file-kept s in
      let blank = blank_page s.max_num_vectors_per_page s.vector_dim in
      let blanks = replicate (pages_per_file s) blank in
      let is_blank : IsBlank blank = blank_page-IsBlank s.max_num_vectors_per_page s.vector_dim in
      let here : get_elem? (all_pages s') s.n_pages ≡ some blank =
        ap (λ ps. get_elem? ps s.n_pages) pages
        ∙ ap (get_elem? (all_pages s ++ blanks)) (omega (arith, length-all_pages s v))
        ∙ get_elem?-append_right (all_pages s) blanks 0
        ∙ replicate_head (pages_per_file s) blank v.paged in
      let room : blank.n_vectors < s'.max_num_vectors_per_page =
        omega (arith, is_blank, same_max, some_slots) in
      let (t, run, w) =
        append_new_vector-Wrote s' new_id new_vector s.n_pages blank valid here room dim
          (create_storage_file-HoldsSlots s dim slots) size in
      let stored = Wrote-SameItems s' e s.n_pages blank valid here room w in
      let nothing =
        blank_entries blanks (All-replicate IsBlank (pages_per_file s) blank is_blank) in
      let (r, run', x) = refresh_both-IsInserted t w.valid λ f. omega (
        arith,
        stored f,
        ap (λ ps. total f (stored_entries ps)) pages,
        total-stored_append f (all_pages s) blanks,
        ap (total f) nothing,
      ) in
      let last : s.n_pages ≡ (length s'.files - 1) * pages_per_file s' =
        one_less (length s'.files) (pages_per_file s') s.n_pages
          (ap (λ (p : ℕ). s.n_pages + p) same_size
            ∙ sym count
            ∙ valid.pages_count
            ∙ ap (λ (n : ℕ). n * pages_per_file s') (sym valid.files_count))
          valid.paged in
      let (file, page) =
        last_file s.n_pages (length s'.files - 1) (pages_per_file s') last valid.paged in
      let run_last : append_new_vector_at s' new_id new_vector (length s'.files - 1) 0 ≡ some t =
        ap₂ (append_new_vector_at s' new_id new_vector) (sym file) (sym page) ∙ run in
      (r, ap (λ m. m >>= λ q. some (q, none)) (>>=-of_some _ run_last refl) ∙ run', x)

  -- Where insert_a_vector finds a best page and takes none of its special cases, it stores the new vector
  -- under its id besides what was stored, and nothing else, in a storage that is valid again; the cache of
  -- maximal distances is fresh again, and no vector is left to be inserted. The storage is valid, its pages
  -- have the bytes of their slots, one at least, and another file of them can be counted; the cache is
  -- fresh; the vector has the dimension of the storage; the best page holds vectors, and has room at the
  -- density, which is one at most, if the vector is nearer to its anchor than its maximal distance.
  pub choose_case-IsInserted :
      (page_idx best : ℕ) (p : Page)
      → get_elem? (all_pages s) page_idx ≡ some p
      → 0 < p.n_vectors
      → num ≤ den
      → (best < p.max_dist → p.n_vectors < vectors_per_page s num den)
      → s.n_pages + pages_per_file s < size_mod
      → Returns
          (IsInserted st e)
          (choose_case dist_func num den st new_id new_vector page_idx p.n_vectors best p.max_dist)
  unfolding vectors_per_page
  choose_case-IsInserted page_idx best p here some_vectors density near countable =
      rw
        (choose_case_lem dist_func num den st new_id new_vector page_idx p.n_vectors best
          p.max_dist)
        (elim (Bool-cases (ltb best p.max_dist)) [
          | inl nearer ↦
              let room = near (ground arith) in
              let few = part_le s.max_num_vectors_per_page num den density in
              let below : p.n_vectors < s.max_num_vectors_per_page = omega (arith, room, few) in
              let fits : leb (add_size p.n_vectors 1) (vectors_per_page s num den) ≡ true =
                ground (arith, room, below, v.bounded) in
              rw (nearer, fits) (case3-IsInserted page_idx p here some_vectors below)
          | inr farther ↦ elim (Bool-cases (ltb (length st.cached_max_dists) s.n_pages)) [
            | inl more ↦ rw (farther, more) (case5-IsInserted (ground arith))
            | inr full ↦ rw (farther, full) (case6-IsInserted countable)
          ]
        ])
