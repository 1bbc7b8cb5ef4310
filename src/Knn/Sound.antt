-- ===== src/Knn/Sound.antt =====
-- What a search asks of the tests and distance functions that a database sets.
use spheres_benchmark.Prelude.{
  ℕ, ◌+◌, ◌≤◌, ◌≡◌, ◌∙◌, refl, sym, ap, true, List, [], ◌∷◌, map, arith, length-map,
}
use mathlib.Core.Path.{subst}
use spheres_benchmark.Prelude.Int.{ℤ, pos_part, ◌-ℤ◌}
use spheres_benchmark.Config.{normalized_l2_distance, squared_l2_distance}
use spheres_benchmark.Storage.{Vector}
use spheres_benchmark.Distance.{pairs, squared_l2_distance_of, prune_check}
use spheres_benchmark.Distance.Unrolled.{gap, sum_squares, squared_l2-sum}
use spheres_benchmark.Distance.Triangle.{squares-SquaredTriangle, sum_squares_comm}
use spheres_benchmark.Distance.Prune.{prune_check_far}
use spheres_benchmark.Knn.Scan.{PruneIsSound}

module _ (decode : ℕ → ℤ) where
  pub squared_l2_distance_lem :
      (x y : Vector)
      → squared_l2_distance_of decode x y ≡ sum_squares (pairs (map decode x) (map decode y))
  unfolding squared_l2_distance_of
  squared_l2_distance_lem x y = ap pos_part (squared_l2-sum (pairs (map decode x) (map decode y)))

  pub squared_l2_distance_comm :
      (x y : Vector) → squared_l2_distance_of decode x y ≡ squared_l2_distance_of decode y x
  squared_l2_distance_comm x y =
      squared_l2_distance_lem x y
      ∙ sum_squares_comm (map decode x) (map decode y)
      ∙ sym (squared_l2_distance_lem y x)

  gap_self : (x : ℤ) → gap (x, x) ≡ 0
  unfolding ◌-ℤ◌
  gap_self x = ground arith

  sum_squares_self : (xs : List ℤ) → sum_squares (pairs xs xs) ≡ 0
  sum_squares_self [] = refl
  sum_squares_self (x ∷ xs) = rw gap_self (omega (arith, sum_squares_self xs))

  pub squared_l2_distance_self : (x : Vector) → squared_l2_distance_of decode x x ≡ 0
  squared_l2_distance_self x = squared_l2_distance_lem x x ∙ sum_squares_self (map decode x)

  -- For the unrolled squared distance, on vectors of one dimension, the squared test prunes only pages
  -- without a vector nearer than the worst item.
  pub squared_l2-PruneIsSound :
      (dim : ℕ) → PruneIsSound (squared_l2_distance_of decode) dim (prune_check squared_l2_distance)
  squared_l2-PruneIsSound dim query anchor v m w hq ha hv e within =
      let sizes = λ (x : Vector). length-map x decode in
      let t =
        squares-SquaredTriangle (map decode query) (map decode anchor) (map decode v)
          (sizes query ∙ hq ∙ sym hv ∙ sym (sizes v))
          (sizes anchor ∙ ha ∙ sym hv ∙ sym (sizes v)) in
      let far = prune_check_far _ _ _ m w t (rw squared_l2_distance_lem at within) (
        subst (λ d. prune_check squared_l2_distance d m w ≡ true)
          (squared_l2_distance_lem query anchor) e) in
      omega (arith, far, squared_l2_distance_lem v query)

-- For any distance that satisfies the triangle inequality the unsquared test is sound.
pub metric-PruneIsSound :
    (dist_func : Vector → Vector → ℕ) (dim : ℕ)
    → ((q a v : Vector) → dist_func q a ≤ dist_func v q + dist_func v a)
    → PruneIsSound dist_func dim (prune_check normalized_l2_distance)
unfolding prune_check ◌-ℤ◌
metric-PruneIsSound dist_func dim triangle query anchor v m w hq ha hv e within =
    ground (arith, triangle query anchor v)
