-- ===== src/Baseline/Agrees.antt =====
-- The distances of the rows of a search and of the sorted candidates.
use mathlib.Core.List.{reverse, reverse-cons, append-nil, map-append}
use spheres_benchmark.Prelude.{
  ℕ, zero, suc, ◌≤◌, ◌<◌, ◌≡◌, refl, sym, ap, ◌∙◌, List, [], ◌∷◌, ◌++◌, map, arith, length, take,
  ◌==◌, if◌then◌else◌, All, All-map, All-append, take-append, take_all, length-map, length-reverse,
  total, total-append, SameItems, length-same,
}
use spheres_benchmark.Tagged.{Tagged, worst, sort}
use spheres_benchmark.Tagged.Order.{
  Ascending, Descending, sort-same, sort-Ascending, Descending-worst, All-sort,
}
use spheres_benchmark.Knn.Nearest.{Nearest}
pub use spheres_benchmark.Baseline.Ranked.{candidates}

-- Numbers in order, and how often one stands among them.
abbrev Rises : List ℕ → Type 0
Rises [] = Unit
Rises (x ∷ xs) = All (λ (y : ℕ). x ≤ y) xs × Rises xs

abbrev is_one : ℕ → ℕ → ℕ
is_one a b = if a == b then 1 else 0

none_below : (a x : ℕ) (xs : List ℕ) → a < x → All (λ (y : ℕ). x ≤ y) xs → total (is_one a) xs ≡ 0
none_below a x [] h r = refl
none_below a x (y ∷ xs) h r = ground (arith, none_below a x xs h r.1)

-- In order, the same numbers are the same list.
Rises-unique : (xs ys : List ℕ) → Rises xs → Rises ys → SameItems xs ys → xs ≡ ys
Rises-unique [] [] r q h = refl
Rises-unique [] (y ∷ ys) r q h = absurd (omega (arith, h (λ _. 1)))
Rises-unique (x ∷ xs) [] r q h = absurd (omega (arith, h (λ _. 1)))
Rises-unique (x ∷ xs) (y ∷ ys) r q h =
    let same : x ≡ y =
      ground (arith, h (is_one x), h (is_one y), none_below x y ys, none_below y x xs) in
    rw same (ap (◌∷◌ y) (Rises-unique xs ys r.1 q.1 (λ f. ground (arith, h f))))

Rises-append :
    (m : ℕ) (xs ys : List ℕ)
    → Rises xs
    → Rises ys
    → All (λ (x : ℕ). x ≤ m) xs
    → All (λ (y : ℕ). m ≤ y) ys
    → Rises (xs ++ ys)
Rises-append m [] ys r q low high = q
Rises-append m (x ∷ xs) ys r q low high = (
  All-append _ xs ys r.0 (All-map _ _ ys (λ y h. omega (arith, low.0)) high),
  Rises-append m xs ys r.1 q low.1 high,
)

abbrev pub distances : List Tagged → List ℕ
distances = map (λ c. c.0)

total-distances :
    (f : ℕ → ℕ) (cs : List Tagged) → total f (distances cs) ≡ total (λ (c : Tagged). f c.0) cs
total-distances f [] = refl
total-distances f (c ∷ cs) = omega (arith, total-distances f cs)

total-reverse : (f : Tagged → ℕ) (cs : List Tagged) → total f (reverse cs) ≡ total f cs
total-reverse f [] = refl
total-reverse f (c ∷ cs) =
    ap (total f) (reverse-cons c cs)
    ∙ omega (arith, total-append f (reverse cs) (c ∷ []), total-reverse f cs)

distances-take : (k : ℕ) (cs : List Tagged) → distances (take k cs) ≡ take k (distances cs)
distances-take zero cs = refl
distances-take (suc k) [] = refl
distances-take (suc k) (c ∷ cs) = ap (◌∷◌ c.0) (distances-take k cs)

All-distances {κ} :
    (P : ℕ → Type κ) (cs : List Tagged) → All (λ (c : Tagged). P c.0) cs → All P (distances cs)
All-distances P [] h = tt
All-distances P (c ∷ cs) h = (h.0, All-distances P cs h.1)

distances-Rises : (cs : List Tagged) → Ascending cs → Rises (distances cs)
distances-Rises [] a = tt
distances-Rises (c ∷ cs) a = (All-distances _ cs a.0, distances-Rises cs a.1)

All-reverse {κ} :
    (P : ℕ → Type κ) (cs : List Tagged)
    → All (λ (c : Tagged). P c.0) cs
    → All P (distances (reverse cs))
All-reverse P [] h = tt
All-reverse P (c ∷ cs) h =
    rw (reverse-cons c cs, map-append (λ (c : Tagged). c.0) (reverse cs) (c ∷ []))
      (All-append P (distances (reverse cs)) (c.0 ∷ []) (All-reverse P cs h.1) (h.0, tt))

reverse-Rises : (cs : List Tagged) → Descending cs → Rises (distances (reverse cs))
reverse-Rises [] d = tt
reverse-Rises (c ∷ cs) d =
    rw (reverse-cons c cs, map-append (λ (c : Tagged). c.0) (reverse cs) (c ∷ []))
      (Rises-append c.0 (distances (reverse cs)) (c.0 ∷ []) (reverse-Rises cs d.1) (tt, tt)
        (All-reverse _ cs d.0) (omega arith, tt))

take_front :
    (k : ℕ) (xs ys : List ℕ)
    → length xs ≤ k
    → (0 < length ys → length xs ≡ k)
    → take k (xs ++ ys) ≡ xs
take_front k xs [] some_k full = rw append-nil (take_all k xs some_k)
take_front k xs (y ∷ ys) some_k full =
    ap (λ n. take n (xs ++ y ∷ ys)) (sym (full (omega arith))) ∙ take-append xs (y ∷ ys)

module _ (k : ℕ) (seen heap : List Tagged) (n : Nearest k seen heap) where
  all_distances : distances (reverse heap) ++ distances (sort n.rest) ≡ distances (sort seen)
  all_distances =
      Rises-unique (distances (reverse heap) ++ distances (sort n.rest)) (distances (sort seen))
        (Rises-append (worst heap) (distances (reverse heap)) (distances (sort n.rest))
          (reverse-Rises heap n.order) (distances-Rises (sort n.rest) (sort-Ascending n.rest))
          (All-reverse _ heap (Descending-worst heap n.order))
          (All-distances _ (sort n.rest) (All-sort _ n.rest n.bound)))
        (distances-Rises (sort seen) (sort-Ascending seen))
        λ f. omega (
          arith,
          total-append f (distances (reverse heap)) (distances (sort n.rest)),
          total-distances f (reverse heap),
          total-reverse (λ (c : Tagged). f c.0) heap,
          total-distances f (sort n.rest),
          sort-same n.rest (λ (c : Tagged). f c.0),
          total-distances f (sort seen),
          sort-same seen (λ (c : Tagged). f c.0),
          n.same (λ (c : Tagged). f c.0),
          total-append (λ (c : Tagged). f c.0) heap n.rest,
        )

  -- The distances of the k nearest, in ascending order, are those of the k first in sorted order.
  pub distances-Nearest : distances (reverse heap) ≡ distances (take k (sort seen))
  distances-Nearest =
      let size = length-map (reverse heap) (λ (c : Tagged). c.0) ∙ length-reverse heap in
      let left =
        length-map (sort n.rest) (λ (c : Tagged). c.0)
        ∙ length-same (sort n.rest) n.rest (sort-same n.rest) in
      sym (
        take_front k (distances (reverse heap)) (distances (sort n.rest))
          (omega (arith, size, n.size))
          (λ some_left.
            size ∙ n.full (λ none. absurd (omega (arith, left, ap length none, some_left)))))
      ∙ ap (take k) all_distances
      ∙ sym (distances-take k (sort seen))
