-- ===== src/Insert/Empty.antt =====
-- The first page that the cache of maximal distances does not list.
use spheres_benchmark.Prelude.{
  ℕ, zero, suc, ◌+◌, ◌≤◌, ◌<◌, ◌≡◌, ◌≢◌, refl, sym, ap, ◌∙◌, inl, inr, some, some_injective, List,
  [], ◌∷◌, arith, ltb, ◌==◌, Bool-cases, length, get_elem?, get_elem?-lt, get_elem?-some, set,
  length-set, replicate, length-replicate, total, All, All-set, All-replicate,
}
use mathlib.Core.Path.{subst}
use spheres_benchmark.Storage.{Page}
use spheres_benchmark.Storage.Pages.{all_pages, IsValid, length-all_pages}
use spheres_benchmark.Tagged.{Tagged}
use spheres_benchmark.Cache.Fresh.{index_pages}
use spheres_benchmark.Insert.{Inserting, mark_used, find_one, empty_page}

abbrev IsMark : ℕ → Type 0
IsMark x = x ≤ 1

abbrev ones : List ℕ → ℕ
ones xs = total (λ x. x) xs

ones-set : (xs : List ℕ) (i : ℕ) → All IsMark xs → ones xs ≤ suc (ones (set xs i 0))
ones-set [] i h = omega arith
ones-set (x ∷ xs) zero h = omega (arith, h.0)
ones-set (x ∷ xs) (suc i) h = omega (arith, ones-set xs i h.1)

ones-mark_used :
    (cs : List Tagged) (xs : List ℕ)
    → All IsMark xs
    → All IsMark (mark_used cs xs)
      × (ones xs ≤ length cs + ones (mark_used cs xs))
      × (length (mark_used cs xs) ≡ length xs)
unfolding mark_used
ones-mark_used [] xs h = (h, omega arith, refl)
ones-mark_used (c ∷ cs) xs h =
    let (marks, few, size) =
      ones-mark_used cs (set xs c.1 0) (All-set IsMark xs c.1 0 h (omega arith)) in
    (marks, omega (arith, ones-set xs c.1 h, few), size ∙ length-set xs c.1 0)

ones-replicate : (n : ℕ) → ones (replicate n 1) ≡ n
ones-replicate zero = refl
ones-replicate (suc n) = omega (arith, ones-replicate n)

get_elem?-find_one :
    (xs : List ℕ) → All IsMark xs → 0 < ones xs → get_elem? xs (find_one xs) ≡ some 1
unfolding find_one
get_elem?-find_one [] h some_one = absurd (omega arith)
get_elem?-find_one (x ∷ xs) h some_one = elim (Bool-cases (x == 1)) [
  | inl here ↦ let same : x ≡ 1 = ground arith in rw here (ap some same)
  | inr there ↦
      let none_here : x ≡ 0 = ground (arith, h.0) in
      rw there (get_elem?-find_one xs h.1 (omega (arith, some_one, none_here)))
]

set_one :
    (xs : List ℕ) (j i : ℕ)
    → get_elem? (set xs j 0) i ≡ some 1
    → (i ≢ j) × (get_elem? xs i ≡ some 1)
set_one [] j i e = cc
set_one (x ∷ xs) zero zero e = let same : 0 ≡ 1 = some_injective e in absurd (omega (arith, same))
set_one (x ∷ xs) zero (suc i) e = (λ h. omega (arith, h), e)
set_one (x ∷ xs) (suc j) zero e = (λ h. omega (arith, h), e)
set_one (x ∷ xs) (suc j) (suc i) e =
    let (other, at) = set_one xs j i e in (λ h. other (omega (arith, h)), at)

-- A page that keeps its mark is not listed.
unlisted :
    (cs : List Tagged) (xs : List ℕ) (i : ℕ)
    → get_elem? (mark_used cs xs) i ≡ some 1
    → All (λ (c : Tagged). c.1 ≢ i) cs
unfolding mark_used
unlisted cs xs i e = (both cs xs i e).0
  where
    both :
        (cs : List Tagged) (xs : List ℕ) (i : ℕ)
        → get_elem? (mark_used cs xs) i ≡ some 1
        → All (λ (c : Tagged). c.1 ≢ i) cs × (get_elem? xs i ≡ some 1)
    both [] xs i e = (tt, e)
    both (c ∷ cs) xs i e =
        let (rest, at) = both cs (set xs c.1 0) i e in
        let (other, at') = set_one xs c.1 i at in ((λ h. other (sym h), rest), at')

unlisted-n_vectors :
    (ps : List Page) (first j : ℕ) (p : Page)
    → All (λ (c : Tagged). c.1 ≢ first + j) (index_pages first ps)
    → get_elem? ps j ≡ some p
    → p.n_vectors ≡ 0
unlisted-n_vectors [] first j p h e = cc
unlisted-n_vectors (q ∷ ps) first zero p h e = elim (Bool-cases (ltb 0 q.n_vectors)) [
  | inl listed ↦ absurd ((rw listed at h).0 (omega arith))
  | inr blank ↦
      let none_there : q.n_vectors ≡ 0 = ground arith in
      ap (λ (r : Page). r.n_vectors) (sym (some_injective e)) ∙ none_there
]
unlisted-n_vectors (q ∷ ps) first (suc j) p h e =
    let shift : first + suc j ≡ suc first + j = omega arith in
    elim (Bool-cases (ltb 0 q.n_vectors)) [
      | inl listed ↦
          unlisted-n_vectors ps (suc first) j p
            (subst (λ i. All (λ (c : Tagged). c.1 ≢ i) (index_pages (suc first) ps)) shift
              (rw listed at h).1)
            e
      | inr blank ↦
          unlisted-n_vectors ps (suc first) j p
            (subst (λ i. All (λ (c : Tagged). c.1 ≢ i) (index_pages (suc first) ps)) shift
              (rw blank at h))
            e
    ]

-- If the cache is fresh and lists fewer pages than there are, a page is found that has no vectors.
pub empty_page-blank :
    (st : Inserting)
    → IsValid st.db_storage
    → st.cached_max_dists ≡ index_pages 0 (all_pages st.db_storage)
    → length st.cached_max_dists < st.db_storage.n_pages
    → (p : Page) × (get_elem? (all_pages st.db_storage) (empty_page st) ≡ some p)
      × (p.n_vectors ≡ 0)
unfolding empty_page
empty_page-blank st v fresh more =
    let n = st.db_storage.n_pages in
    let blank : List ℕ = replicate n 1 in
    let marks = mark_used st.cached_max_dists blank in
    let (good, few, size) =
      ones-mark_used st.cached_max_dists blank (All-replicate IsMark n 1 (omega arith)) in
    let found = get_elem?-find_one marks good (omega (arith, few, more, ones-replicate n)) in
    let inside = get_elem?-lt marks (find_one marks) found in
    let (p, here) = get_elem?-some (all_pages st.db_storage) (find_one marks) (
      omega
        (arith, inside, size, length-replicate {A = ℕ} n 1, length-all_pages st.db_storage v)) in
    let other = unlisted st.cached_max_dists blank (find_one marks) found in
    (
      p,
      here,
      unlisted-n_vectors (all_pages st.db_storage) 0 (find_one marks) p
          (subst (λ i. All (λ (c : Tagged). c.1 ≢ i) (index_pages 0 (all_pages st.db_storage)))
            (omega arith) (subst (λ cs. All (λ (c : Tagged). c.1 ≢ find_one marks) cs) fresh other))
          here,
    )
