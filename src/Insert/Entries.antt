-- ===== src/Insert/Entries.antt =====
-- The entries that an append of `insert_a_vector` adds to those that are stored.
use native.Mathlib.Nat.{mod-eq_of_lt}
use spheres_benchmark.Prelude.{
  ℕ, zero, suc, ◌+◌, ◌<◌, ◌≡◌, refl, ap, ◌∙◌, true, some, some_injective, List, [], ◌∷◌, ◌++◌,
  arith, ltb, if◌then◌else◌, length, get_elem?, set, take, take-set, length-take, total,
  total-append, SameItems, add_size, size_mod,
}
use spheres_benchmark.Storage.{Vector, Page, Storage}
use spheres_benchmark.Storage.Pages.{all_pages, IsValid, PageIsValid, Wrote, appended, page-IsValid}
use spheres_benchmark.Cache.Fresh.{index_pages}
use spheres_benchmark.Prefill.{Entry}
use spheres_benchmark.Prefill.Complete.{zip, page_entries, stored_entries}

zip-append :
    (ids ids' : List ℕ) (vs vs' : List Vector)
    → length ids ≡ length vs
    → zip (ids ++ ids') (vs ++ vs') ≡ zip ids vs ++ zip ids' vs'
zip-append [] ids' [] vs' h = refl
zip-append [] ids' (v ∷ vs) vs' h = absurd (omega arith)
zip-append (i ∷ ids) ids' [] vs' h = absurd (omega arith)
zip-append (i ∷ ids) ids' (v ∷ vs) vs' h =
    ap (◌∷◌ (i, v)) (zip-append ids ids' vs vs' (omega arith))

page_entries-appended :
    (max_num : ℕ) (p : Page) (e : Entry)
    → PageIsValid max_num p
    → p.n_vectors < max_num
    → max_num < size_mod
    → page_entries (appended e.0 e.1 p) ≡ page_entries p ++ e ∷ []
page_entries-appended max_num p e v room small =
    let next : add_size p.n_vectors 1 ≡ suc p.n_vectors =
      mod-eq_of_lt {n = p.n_vectors + 1} (omega arith) ∙ omega arith in
    let ids = take-set p.n_vectors p.ids e.0 (omega (arith, v.id_slots)) in
    let vectors = take-set p.n_vectors p.vectors e.1 (omega (arith, v.vector_slots)) in
    let size : length (take p.n_vectors p.ids) ≡ length (take p.n_vectors p.vectors) = omega (
      arith,
      length-take p.n_vectors p.ids,
      length-take p.n_vectors p.vectors,
      v.id_slots,
      v.vector_slots,
    ) in
    rw (next, ids, vectors)
      (zip-append (take p.n_vectors p.ids) (e.0 ∷ []) (take p.n_vectors p.vectors) (e.1 ∷ []) size)

pub total-stored_set :
    (f : Entry → ℕ) (ps : List Page) (i : ℕ) (p q : Page)
    → get_elem? ps i ≡ some p
    → total f (stored_entries (set ps i q)) + total f (page_entries p)
      ≡ total f (stored_entries ps) + total f (page_entries q)
total-stored_set f [] i p q h = cc
total-stored_set f (r ∷ ps) zero p q h =
    let same : r ≡ p = some_injective h in
    rw same (
      omega (
        arith,
        total-append f (page_entries q) (stored_entries ps),
        total-append f (page_entries p) (stored_entries ps),
      ))
total-stored_set f (r ∷ ps) (suc i) p q h = omega (
  arith,
  total-append f (page_entries r) (stored_entries (set ps i q)),
  total-append f (page_entries r) (stored_entries ps),
  total-stored_set f ps i p q h,
)

pub total-stored_append :
    (f : Entry → ℕ) (ps qs : List Page)
    → total f (stored_entries (ps ++ qs))
      ≡ total f (stored_entries ps) + total f (stored_entries qs)
total-stored_append f [] qs = omega arith
total-stored_append f (p ∷ ps) qs = omega (
  arith,
  total-append f (page_entries p) (stored_entries (ps ++ qs)),
  total-append f (page_entries p) (stored_entries ps),
  total-stored_append f ps qs,
)

-- The same pages with the same maximal distances are listed.
pub index_pages-set :
    (ps : List Page) (first i : ℕ) (p q : Page)
    → get_elem? ps i ≡ some p
    → 0 < p.n_vectors
    → 0 < q.n_vectors
    → q.max_dist ≡ p.max_dist
    → index_pages first (set ps i q) ≡ index_pages first ps
index_pages-set [] first i p q h some_p some_q same = cc
index_pages-set (r ∷ ps) first zero p q h some_p some_q same =
    let here : r ≡ p = some_injective h in
    let listed : (ltb 0 p.n_vectors ≡ true) × (ltb 0 q.n_vectors ≡ true) =
      (ground arith, ground arith) in
    rw (here, listed.0, listed.1, same) refl
index_pages-set (r ∷ ps) first (suc i) p q h some_p some_q same =
    ap (λ rest. if ltb 0 r.n_vectors then (r.max_dist, first) ∷ rest else rest)
      (index_pages-set ps (suc first) i p q h some_p some_q same)

-- An append stores one entry more.
pub Wrote-SameItems :
    (s : Storage) (e : Entry) (i : ℕ) (p : Page) (v : IsValid s) {t : Storage}
    → get_elem? (all_pages s) i ≡ some p
    → p.n_vectors < s.max_num_vectors_per_page
    → Wrote s i (appended e.0 e.1 p) t
    → SameItems (stored_entries (all_pages t)) (e ∷ stored_entries (all_pages s))
Wrote-SameItems s e i p v {t} here room w f =
    let entries =
      page_entries-appended s.max_num_vectors_per_page p e (page-IsValid s i p v here) room
        v.bounded in
    omega (
      arith,
      ap (λ ps. total f (stored_entries ps)) w.pages,
      total-stored_set f (all_pages s) i p (appended e.0 e.1 p) here,
      ap (total f) entries,
      total-append f (page_entries p) (e ∷ []),
    )
