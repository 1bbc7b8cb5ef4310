-- ===== src/Baseline/Ranked.antt =====
-- The rows of the baseline against all vectors, sorted by distance and then by index.
use mathlib.Core.Path.{subst}
use mathlib.Core.List.{reverse, reverse-cons, reverse-append, map-append, append_assoc, append-nil}
use spheres_benchmark.Prelude.{
  ℕ, zero, suc, ◌-◌, ◌<◌, ◌≡◌, refl, sym, ap, ◌∙◌, inl, inr, true, false, List, [], ◌∷◌, ◌++◌, map,
  arith, length, take, drop, ltb, Bool-cases, All, All-map, All-append, take-append,
  take-append-drop, take_all, length-reverse, length-drop, row_at,
}
use spheres_benchmark.Tagged.{Tagged, tagged_lt, push_heap, pop_heap, insert_sorted, sort}
use spheres_benchmark.Tagged.Order.{length-push_heap, All-push_heap}
use spheres_benchmark.Baseline.{consider, unload, scan_vectors, query_row}

-- Two entries go in in either order, as pairs are ordered totally.
insert_comm :
    (x y : Tagged) (s : List Tagged)
    → insert_sorted x (insert_sorted y s) ≡ insert_sorted y (insert_sorted x s)
unfolding insert_sorted
insert_comm x y [] = ground arith
insert_comm x y (z ∷ s) = ground (arith, insert_comm x y s)

-- Sorting in the order in which the entries come.
abbrev sort_from : List Tagged → List Tagged → List Tagged
sort_from sorted [] = sorted
sort_from sorted (c ∷ cs) = sort_from (insert_sorted c sorted) cs

sort_from-insert :
    (x : Tagged) (sorted cs : List Tagged)
    → sort_from (insert_sorted x sorted) cs ≡ insert_sorted x (sort_from sorted cs)
sort_from-insert x sorted [] = refl
sort_from-insert x sorted (c ∷ cs) =
    ap (λ s. sort_from s cs) (insert_comm c x sorted)
    ∙ sort_from-insert x (insert_sorted c sorted) cs

sort_from-nil : (cs : List Tagged) → sort_from [] cs ≡ sort cs
unfolding sort
sort_from-nil [] = refl
sort_from-nil (c ∷ cs) = sort_from-insert c [] cs ∙ ap (insert_sorted c) (sort_from-nil cs)

-- A descending list, entry by entry.
abbrev Falls : List Tagged → Type 0
Falls [] = Unit
Falls (x ∷ s) = All (λ (y : Tagged). tagged_lt x y ≡ false) s × Falls s

push_heap-Falls : (c : Tagged) (s : List Tagged) → Falls s → Falls (push_heap c s)
unfolding push_heap
push_heap-Falls c [] f = (tt, tt)
push_heap-Falls c (y ∷ s) f = elim (Bool-cases (tagged_lt y c)) [
  | inl e ↦ rw e ((ground arith, All-map _ _ s (λ z p. ground arith) f.0), f)
  | inr e ↦ rw e (All-push_heap _ c s (ground arith) f.0, push_heap-Falls c s f.1)
]

insert_last :
    (c y : Tagged) (s : List Tagged)
    → tagged_lt y c ≡ false
    → insert_sorted c (s ++ y ∷ []) ≡ insert_sorted c s ++ y ∷ []
unfolding insert_sorted
insert_last c y [] h = rw h refl
insert_last c y (x ∷ s) h = ground (arith, insert_last c y s h)

insert_end :
    (c : Tagged) (s : List Tagged)
    → All (λ (y : Tagged). tagged_lt y c ≡ true) s
    → insert_sorted c s ≡ s ++ c ∷ []
unfolding insert_sorted
insert_end c [] h = refl
insert_end c (y ∷ s) h = rw (h.0) (ap (◌∷◌ y) (insert_end c s h.1))

All-reverse {κ} : (P : Tagged → Type κ) (s : List Tagged) → All P s → All P (reverse s)
All-reverse P [] h = tt
All-reverse P (x ∷ s) h =
    rw (reverse-cons x s) (All-append P (reverse s) (x ∷ []) (All-reverse P s h.1) (h.0, tt))

reverse-push_heap :
    (c : Tagged) (s : List Tagged) → Falls s → reverse (push_heap c s) ≡ insert_sorted c (reverse s)
unfolding push_heap
reverse-push_heap c [] f = sym (insert_end c [] tt)
reverse-push_heap c (y ∷ s) f = elim (Bool-cases (tagged_lt y c)) [
  | inl e ↦ rw e (
      reverse-cons c (y ∷ s)
      ∙ sym (
          insert_end c (reverse (y ∷ s))
            (All-reverse _ (y ∷ s) (e, All-map _ _ s (λ z p. ground arith) f.0))))
  | inr e ↦
      rw (e, reverse-cons y (push_heap c s), reverse-cons y s, reverse-push_heap c s f.1)
        (sym (insert_last c y (reverse s) e))
]

All-drop {κ} :
    (P : Tagged → Type κ) (m : ℕ) (s : List Tagged) {top : Tagged} {t : List Tagged}
    → All P s
    → drop m s ≡ top ∷ t
    → P top
All-drop P zero [] h e = cc
All-drop P (suc m) [] h e = cc
All-drop P zero (y ∷ s) h e = subst P (cc) h.0
All-drop P (suc m) (y ∷ s) h e = All-drop P m s h.1 e

-- What is nearer than the entry at place `m` goes in behind it.
drop-push_heap :
    (c : Tagged) (m : ℕ) (s : List Tagged) {top : Tagged} {t : List Tagged}
    → Falls s
    → drop m s ≡ top ∷ t
    → c.0 < top.0
    → drop (suc m) (push_heap c s) ≡ push_heap c t
unfolding push_heap
drop-push_heap c zero [] f e h = cc
drop-push_heap c (suc m) [] f e h = cc
drop-push_heap c zero (y ∷ s) {top} {t} f e h =
    let same : s ≡ t = cc in
    let top_first : y.0 ≡ top.0 = cc in
    let behind : tagged_lt y c ≡ false = ground arith in rw behind (ap (push_heap c) same)
drop-push_heap c (suc m) (y ∷ s) {top} f e h =
    let later : tagged_lt y top ≡ false = All-drop _ m s f.0 e in
    let behind : tagged_lt y c ≡ false = ground arith in rw behind (drop-push_heap c m s f.1 e h)

-- What is behind the entry at place `m` in the order goes in before it.
drop-push_heap_over :
    (c : Tagged) (m : ℕ) (s : List Tagged) {top : Tagged} {t : List Tagged}
    → drop m s ≡ top ∷ t
    → tagged_lt top c ≡ true
    → drop (suc m) (push_heap c s) ≡ drop m s
unfolding push_heap
drop-push_heap_over c zero [] e h = cc
drop-push_heap_over c (suc m) [] e h = cc
drop-push_heap_over c zero (y ∷ s) {top} e h =
    let first : y ≡ top = cc in let over : tagged_lt y c ≡ true = rw first h in rw over refl
drop-push_heap_over c (suc m) (y ∷ s) e h = elim (Bool-cases (tagged_lt y c)) [
  | inl e' ↦ rw e' refl
  | inr e' ↦ rw e' (drop-push_heap_over c m s e h)
]

-- The heap of the search: of all entries so far, in descending order, the last k.
abbrev last {ℓ} : {A : Type ℓ} → ℕ → List A → List A
last k s = drop (length s - k) s

drop-cons :
    (m : ℕ) (s : List Tagged)
    → m < length s
    → (top : Tagged) × (t : List Tagged) × (drop m s ≡ top ∷ t)
drop-cons m [] h = absurd (omega arith)
drop-cons zero (x ∷ s) h = (x, s, refl)
drop-cons (suc m) (x ∷ s) h = drop-cons m s (omega arith)

consider_full :
    (k m : ℕ) (c : Tagged) (s : List Tagged) {top : Tagged} {t : List Tagged}
    → Falls s
    → All (λ (y : Tagged). y.1 < c.1) s
    → drop m s ≡ top ∷ t
    → length (top ∷ t) ≡ k
    → consider k (top ∷ t) c ≡ drop (suc m) (push_heap c s)
unfolding consider pop_heap
consider_full k m c s {top} {t} falls newer at size =
    let full : ltb (length (top ∷ t)) k ≡ false = ground arith in
    let older : top.1 < c.1 = All-drop _ m s newer at in
    elim (Bool-cases (ltb c.0 top.0)) [
      | inl near ↦ rw (full, near) (sym (drop-push_heap c m s falls at (ground arith)))
      | inr far ↦
          let over : tagged_lt top c ≡ true = ground arith in
          rw (full, far) (sym (drop-push_heap_over c m s at over ∙ at))
    ]

consider-last :
    (k : ℕ) (c : Tagged) (s : List Tagged)
    → 0 < k
    → Falls s
    → All (λ (y : Tagged). y.1 < c.1) s
    → consider k (last k s) c ≡ last k (push_heap c s)
consider-last k c s positive falls newer = elim (Bool-cases (ltb (length s) k)) [
  | inl few ↦
      let none_over : length s - k ≡ 0 = ground arith in
      let none_over' : length (push_heap c s) - k ≡ 0 = ground (arith, length-push_heap c s) in
      rw (none_over, none_over') (unfold consider in (rw few refl))
  | inr many ↦
      let (top, t, at) = drop-cons (length s - k) s (ground arith) in
      let size : length (top ∷ t) ≡ k =
        ap length (sym at) ∙ length-drop (length s - k) s ∙ ground arith in
      let next : length (push_heap c s) - k ≡ suc (length s - k) =
        ground (arith, length-push_heap c s) in
      ap (λ h. consider k h c) at
      ∙ consider_full k (length s - k) c s falls newer at size
      ∙ ap (λ n. drop n (push_heap c s)) (sym next)
]

unload_lem :
    (heap : List Tagged) (row : List ℕ) → unload heap row ≡ map (λ c. c.1) (reverse heap) ++ row
unfolding unload
unload_lem [] row = refl
unload_lem (x ∷ heap) row =
    unload_lem heap (x.1 ∷ row)
    ∙ sym (
        ap (λ l. map (λ c. c.1) l ++ row) (reverse-cons x heap)
        ∙ ap (λ l. l ++ row) (map-append (λ c. c.1) (reverse heap) (x ∷ []))
        ∙ append_assoc (map (λ c. c.1) (reverse heap)) (x.1 ∷ []) row)

-- The k last of the descending order are the k first of the ascending one.
reverse-last : (k : ℕ) (s : List Tagged) → reverse (last k s) ≡ take k (reverse s)
reverse-last k s =
    let m = length s - k in
    let parts : reverse s ≡ reverse (drop m s) ++ reverse (take m s) =
      ap reverse (sym (take-append-drop m s)) ∙ reverse-append (take m s) (drop m s) in
    let size = length-reverse (drop m s) ∙ length-drop m s in
    elim (Bool-cases (ltb (length s) k)) [
      | inl few ↦
          let none_over : length s - k ≡ 0 = ground arith in
          rw none_over (sym (take_all k (reverse s) (ground (arith, length-reverse s))))
      | inr many ↦
          let exact : k ≡ length (reverse (drop m s)) = ground (arith, size) in
          sym (
            ap (take k) parts
            ∙ ap (λ n. take n (reverse (drop m s) ++ reverse (take m s))) exact
            ∙ take-append (reverse (drop m s)) (reverse (take m s)))
    ]

module _ {ℓ} {A : Type ℓ} (distance_of : List A → List A → ℕ) (dim : ℕ)
    (vectors query : List A) where
  -- Every vector from index `i` on, with its distance to the query.
  abbrev pub candidates : ℕ → ℕ → List Tagged
  candidates zero i = []
  candidates (suc n) i = (distance_of (row_at dim vectors i) query, i) ∷ candidates n (suc i)

  -- The descending order of the entries, as they come.
  abbrev fall_from : List Tagged → List Tagged → List Tagged
  fall_from s [] = s
  fall_from s (c ∷ cs) = fall_from (push_heap c s) cs

  scan_vectors-last :
      (k n i : ℕ) (s : List Tagged)
      → 0 < k
      → Falls s
      → All (λ (y : Tagged). y.1 < i) s
      → scan_vectors distance_of dim vectors query k n i (last k s)
        ≡ last k (fall_from s (candidates n i))
  unfolding scan_vectors
  scan_vectors-last k zero i s positive falls newer = refl
  scan_vectors-last k (suc n) i s positive falls newer =
      let c : Tagged = (distance_of (row_at dim vectors i) query, i) in
      ap (scan_vectors distance_of dim vectors query k n (suc i))
        (consider-last k c s positive falls newer)
      ∙ scan_vectors-last k n (suc i) (push_heap c s) positive (push_heap-Falls c s falls)
          (All-push_heap _ c s (omega arith) (All-map _ _ s (λ y h. omega arith) newer))

  reverse-fall_from :
      (s cs : List Tagged) → Falls s → reverse (fall_from s cs) ≡ sort_from (reverse s) cs
  reverse-fall_from s [] falls = refl
  reverse-fall_from s (c ∷ cs) falls =
      reverse-fall_from (push_heap c s) cs (push_heap-Falls c s falls)
      ∙ ap (λ t. sort_from t cs) (reverse-push_heap c s falls)

  -- The row of a query has the indices of the k first of all vectors, sorted by their distances to the
  -- query and, where these are equal, by their indices; k is above 0.
  pub query_row-sort :
      (k n_base : ℕ)
      → 0 < k
      → query_row distance_of dim vectors query k n_base
        ≡ map (λ c. c.1) (take k (sort (candidates n_base 0)))
  unfolding query_row
  query_row-sort k n_base positive =
      let cs = candidates n_base 0 in
      let order = fall_from [] cs in
      let none_over : 0 - k ≡ 0 = omega arith in
      ap (λ m. unload (scan_vectors distance_of dim vectors query k n_base 0 (drop m [])) [])
        (sym none_over)
      ∙ ap (λ h. unload h []) (scan_vectors-last k n_base 0 [] positive tt tt)
      ∙ unload_lem (last k order) []
      ∙ append-nil (map (λ c. c.1) (reverse (last k order)))
      ∙ ap (map (λ c. c.1))
          (reverse-last k order ∙ ap (take k) (reverse-fall_from [] cs tt ∙ sort_from-nil cs))
