-- ===== src/Insert/Victim.antt =====
-- The victim of a full page, and the maximal distance after a change of a page.
use spheres_benchmark.Prelude.{
  ℕ, zero, suc, ◌+◌, ◌≤◌, ◌<◌, ◌≡◌, ◌⊎◌, refl, ap, sym, ◌∙◌, inl, inr, true, some, List, [], ◌∷◌,
  arith, get_elem?, ◌==◌, Bool-cases, All,
}
use spheres_benchmark.Storage.{Vector}
use spheres_benchmark.Insert.{find_equal, victim_of, larger, largest, max_dist_of}

larger_lem : (m d : ℕ) → (m ≤ larger m d) × (d ≤ larger m d) × ((larger m d ≡ m) ⊎ (larger m d ≡ d))
unfolding larger
larger_lem m d = ground arith

module _ (dist_func : Vector → Vector → ℕ) (anchor : Vector) where
  -- The running maximum bounds what it has seen.
  largest_lem :
      (m : ℕ) (view : List Vector)
      → (m ≤ largest dist_func m anchor view)
        × All (λ (v : Vector). dist_func v anchor ≤ largest dist_func m anchor view) view
  unfolding largest
  largest_lem m [] = (omega arith, tt)
  largest_lem m (v ∷ view) =
      let (first, second, _) = larger_lem m (dist_func v anchor) in
      let (bound, all) = largest_lem (larger m (dist_func v anchor)) view in
      (omega (arith, first, bound), (omega (arith, second, bound), all))

  -- Where no distance is above `m`, the loop leaves `m`; else some vector has the distance it leaves.
  largest-reached :
      (m : ℕ) (view : List Vector)
      → (largest dist_func m anchor view ≡ m)
        ⊎ ((i : ℕ) × (v : Vector) × (get_elem? view i ≡ some v)
            × (dist_func v anchor ≡ largest dist_func m anchor view))
  unfolding largest
  largest-reached m [] = inl refl
  largest-reached m (v ∷ view) = elim (largest-reached (larger m (dist_func v anchor)) view) [
    | inr (i, w, found, same) ↦ inr (suc i, w, found, same)
    | inl kept ↦ elim (larger_lem m (dist_func v anchor)).2 [
      | inl old ↦ inl (kept ∙ old)
      | inr new ↦ inr (zero, v, refl, sym (kept ∙ new))
    ]
  ]

  -- The victim's index is that of a vector at the distance, if there is one from index `i` on.
  find_equal_lem :
      (m i : ℕ) (view : List Vector) (j : ℕ) {v : Vector}
      → get_elem? view j ≡ some v
      → dist_func v anchor ≡ m
      → (l : ℕ) × (w : Vector) × (find_equal dist_func m anchor i view ≡ i + l)
        × (get_elem? view l ≡ some w)
        × (dist_func w anchor ≡ m)
  unfolding find_equal
  find_equal_lem m i [] j at same = cc
  find_equal_lem m i (w ∷ view) zero {v} at same =
      let first : w ≡ v = cc in
      let e : m == dist_func w anchor ≡ true = rw (first, same) (ground arith) in
      rw e (zero, w, omega arith, refl, rw first same)
  find_equal_lem m i (w ∷ view) (suc j) at same = elim (Bool-cases (m == dist_func w anchor)) [
    | inl e ↦ rw e (zero, w, omega arith, refl, ground arith)
    | inr e ↦
        let (l, x, index, found, equal) = find_equal_lem m (suc i) view j at same in
        rw e (suc l, x, omega (arith, index), found, equal)
  ]

-- For a page whose maximal distance is the one that `calculate_new_max_dist` gives, and is above 0, the
-- victim is one of its vectors at that distance from the anchor, and no vector of the page is farther.
pub victim_of_lem :
    (dist_func : Vector → Vector → ℕ) (anchor : Vector) (view : List Vector)
    → 0 < max_dist_of dist_func (anchor ∷ view)
    → let m = max_dist_of dist_func (anchor ∷ view) in
      ((w : Vector) × (get_elem? (anchor ∷ view) (victim_of dist_func m (anchor ∷ view)) ≡ some w)
        × (dist_func w anchor ≡ m))
      × All (λ (v : Vector). dist_func v anchor ≤ m) view
victim_of_lem dist_func anchor view positive = elim (largest-reached dist_func anchor 0 view) [
  | inl none_far ↦ absurd (omega (arith, none_far))
  | inr (j, v, found, same) ↦
      let m = largest dist_func 0 anchor view in
      let (l, w, index, here, equal) = find_equal_lem dist_func anchor m 1 view j found same in
      let next : 1 + l ≡ suc l = omega arith in
      (
        (w, ap (get_elem? (anchor ∷ view)) (index ∙ next) ∙ here, equal),
        (largest_lem dist_func anchor 0 view).1,
      )
]
