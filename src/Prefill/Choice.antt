-- ===== src/Prefill/Choice.antt =====
-- The vectors that are chosen for a page and those that are left.
use spheres_benchmark.Prelude.{
  ℕ, zero, suc, ◌+◌, ◌*◌, ◌≤◌, ◌<◌, ◌≡◌, ◌⊎◌, refl, inl, inr, true, false, some, List, [], ◌∷◌,
  ◌++◌, arith, ltb, ◌==◌, if◌then◌else◌, Bool-cases, length, get_elem?, total, total-append,
}
use spheres_benchmark.Storage.{Vector}
use spheres_benchmark.Tagged.{Tagged, worst}
use spheres_benchmark.Knn.Nearest.{
  Nearest, Nearest-nil, Nearest-push, Nearest-replace, Nearest-skip, Nearest-seen,
}
use spheres_benchmark.Prefill.{Entry, offer_nearest, is_listed, erase_listed, find_nearest}

-- The candidates for a page: distance from the anchor, and index from `i` on.
module _ (dist_func : Vector → Vector → ℕ) (anchor : Vector) where
  abbrev pub indexed : ℕ → List Entry → List Tagged
  indexed i [] = []
  indexed i (e ∷ entries) = (dist_func anchor e.1, i) ∷ indexed (suc i) entries

  offer_nearest-Nearest :
      (k : ℕ) (seen heap : List Tagged) (c : Tagged)
      → Nearest k seen heap
      → Nearest k (c ∷ seen) (offer_nearest k c heap)
  unfolding offer_nearest
  offer_nearest-Nearest k seen heap c n = elim (Bool-cases (ltb (length heap) k)) [
    | inl room ↦ rw room (Nearest-push k seen heap n c (ground arith))
    | inr no_room ↦
        let full : length heap ≡ k = ground (arith, n.size) in
        elim (Bool-cases (ltb c.0 (worst heap))) [
          | inl near ↦ rw (no_room, near) (Nearest-replace k seen heap n c full (ground arith))
          | inr far ↦
              rw (no_room, far) (Nearest-skip k seen heap n (c ∷ []) full (ground arith, tt))
        ]
  ]

  find_nearest-seen :
      (k i : ℕ) (entries : List Entry) (seen heap : List Tagged)
      → Nearest k seen heap
      → Nearest k (indexed i entries ++ seen) (find_nearest dist_func k anchor i entries heap)
  unfolding find_nearest
  find_nearest-seen k i [] seen heap n = n
  find_nearest-seen k i (e ∷ entries) seen heap n =
      let c : Tagged = (dist_func anchor e.1, i) in
      Nearest-seen _
        (λ f. omega (
          arith,
          total-append f (indexed (suc i) entries) (c ∷ seen),
          total-append f (indexed (suc i) entries) seen,
        ))
        (find_nearest-seen k (suc i) entries (c ∷ seen) (offer_nearest k c heap)
          (offer_nearest-Nearest k seen heap c n))

  -- The loop finds the nearest of the vectors to the anchor.
  pub find_nearest-Nearest :
      (k i : ℕ) (entries : List Entry)
      → Nearest k (indexed i entries) (find_nearest dist_func k anchor i entries [])
  find_nearest-Nearest k i entries =
      Nearest-seen _ (λ f. omega (arith, total-append f (indexed i entries) []))
        (find_nearest-seen k i entries [] [] (Nearest-nil k))

-- How often the heap lists an index.
abbrev pub occurrences : ℕ → List Tagged → ℕ
occurrences j heap = total (λ (c : Tagged). if j == c.1 then 1 else 0) heap

listed_lem :
    (j : ℕ) (heap : List Tagged)
    → ((is_listed j heap ≡ true) × (1 ≤ occurrences j heap))
      ⊎ ((is_listed j heap ≡ false) × (occurrences j heap ≡ 0))
listed_lem j [] = inr (refl, refl)
listed_lem j (c ∷ heap) = ground (arith, listed_lem j heap)

occurrences_before :
    (dist_func : Vector → Vector → ℕ) (anchor : Vector) (j i : ℕ) (entries : List Entry)
    → j < i
    → occurrences j (indexed dist_func anchor i entries) ≡ 0
occurrences_before dist_func anchor j i [] h = refl
occurrences_before dist_func anchor j i (e ∷ entries) h =
    ground (arith, occurrences_before dist_func anchor j (suc i) entries (omega arith))

pub occurrences-indexed :
    (dist_func : Vector → Vector → ℕ) (anchor : Vector) (j i : ℕ) (entries : List Entry)
    → occurrences j (indexed dist_func anchor i entries) ≤ 1
occurrences-indexed dist_func anchor j i [] = omega arith
occurrences-indexed dist_func anchor j i (e ∷ entries) = elim (Bool-cases (j == i)) [
  | inl here ↦
      rw here (omega (arith, occurrences_before dist_func anchor j (suc i) entries (ground arith)))
  | inr later ↦ rw later (omega (arith, occurrences-indexed dist_func anchor j (suc i) entries))
]

module _ (f : Entry → ℕ) where
  -- The weight of the listed entries, from index `i` on.
  unfoldable pub listed_total : List Tagged → ℕ → List Entry → ℕ
  listed_total heap i [] = 0
  listed_total heap i (e ∷ entries) = occurrences i heap * f e + listed_total heap (suc i) entries

  pub erase_listed-total :
      (heap : List Tagged) (i : ℕ) (entries : List Entry)
      → ((j : ℕ) → occurrences j heap ≤ 1)
      → 1 ≤ i
      → total f (erase_listed i heap entries) + listed_total heap i entries ≡ total f entries
  unfolding erase_listed listed_total
  erase_listed-total heap i [] once h = refl
  erase_listed-total heap i (e ∷ entries) once h =
      let rest = erase_listed-total heap (suc i) entries once (omega arith) in
      let first : i == 0 ≡ false = ground arith in
      elim (listed_lem i heap) [
        | inl (listed, some_times) ↦
            let one : occurrences i heap ≡ 1 = omega (arith, once i, some_times) in
            rw (first, listed, one) (omega (arith, rest))
        | inr (unlisted, never) ↦ rw (first, unlisted, never) (omega (arith, rest))
      ]

  pub listed_total-nil : (i : ℕ) (entries : List Entry) → listed_total [] i entries ≡ 0
  unfolding listed_total
  listed_total-nil i [] = refl
  listed_total-nil i (e ∷ entries) = omega (arith, listed_total-nil (suc i) entries)

  listed_total-past :
      (c : Tagged) (heap : List Tagged) (i : ℕ) (entries : List Entry)
      → c.1 < i
      → listed_total (c ∷ heap) i entries ≡ listed_total heap i entries
  unfolding listed_total
  listed_total-past c heap i [] h = refl
  listed_total-past c heap i (e ∷ entries) h =
      let other : i == c.1 ≡ false = ground arith in
      rw other (omega (arith, listed_total-past c heap (suc i) entries (omega arith)))

  pub listed_total-cons :
      (c : Tagged) (heap : List Tagged) (i d : ℕ) (entries : List Entry) {e : Entry}
      → c.1 ≡ i + d
      → get_elem? entries d ≡ some e
      → listed_total (c ∷ heap) i entries ≡ f e + listed_total heap i entries
  unfolding listed_total
  listed_total-cons c heap i d [] h at = cc
  listed_total-cons c heap i zero (e' ∷ entries) {e} h at =
      let here : i == c.1 ≡ true = ground arith in
      let same : e' ≡ e = cc in
      rw (here, same) (omega (arith, listed_total-past c heap (suc i) entries (omega arith)))
  listed_total-cons c heap i (suc d) (e' ∷ entries) h at =
      let other : i == c.1 ≡ false = ground arith in
      rw other (omega (arith, listed_total-cons c heap (suc i) d entries (omega arith) at))
