-- ===== src/Distance.antt =====
-- modules/distance/distance.cppm in exact arithmetic: the elements are whole numbers of some unit, and
-- nothing is rounded. The two spans of a call have one length and are given as the list of the pairs
-- x[i], y[i].
use spheres_benchmark.Prelude.{ℕ, List, [], ◌∷◌, map, Bool, ◌+◌, ◌*◌, ◌-◌, ◌&&◌, ltb, if◌then◌else◌}
use spheres_benchmark.Prelude.Int.{ℤ, pos, pos_part, ◌+ℤ◌, ◌-ℤ◌, ◌*ℤ◌, ltb_ℤ}
use spheres_benchmark.Config.{
  SupportedDistanceFunctions, normalized_l2_distance, squared_normalized_l2_distance,
  squared_l2_distance,
}
pub mod Unrolled
pub mod Triangle
pub mod Prune

abbrev pub pairs {ℓ} : {A : Type ℓ} → List A → List A → List (A × A)
pairs [] ys = []
pairs (x ∷ xs) [] = []
pairs (x ∷ xs) (y ∷ ys) = (x, y) ∷ pairs xs ys

-- The eight partial sums `xy0` to `xy7`.
pub record Lanes : Type 0 where
  pub xy0 : ℤ
  pub xy1 : ℤ
  pub xy2 : ℤ
  pub xy3 : ℤ
  pub xy4 : ℤ
  pub xy5 : ℤ
  pub xy6 : ℤ
  pub xy7 : ℤ

abbrev pub zero_lanes : Lanes
zero_lanes = record {
  xy0 = pos 0;
  xy1 = pos 0;
  xy2 = pos 0;
  xy3 = pos 0;
  xy4 = pos 0;
  xy5 = pos 0;
  xy6 = pos 0;
  xy7 = pos 0;
}

-- `((xy0 + xy4) + (xy1 + xy5)) + ((xy2 + xy6) + (xy3 + xy7))`
unfoldable pub join_lanes : Lanes → ℤ
join_lanes l = ((l.xy0 +ℤ l.xy4) +ℤ (l.xy1 +ℤ l.xy5)) +ℤ ((l.xy2 +ℤ l.xy6) +ℤ (l.xy3 +ℤ l.xy7))

-- The loops of `dot_product_naive` and `squared_l2_distance` share their shape: `term` is what is
-- added for an index.
module _ (term : ℤ × ℤ → ℤ) where
  -- `for (;i < x.size(); ++i) sum = term + sum`
  unfoldable pub tail_loop : ℤ → List (ℤ × ℤ) → ℤ
  tail_loop sum [] = sum
  tail_loop sum (p ∷ ps) = tail_loop (term p +ℤ sum) ps

  -- `for (i = 0; i + 7 < x.size(); i += 8)`, and then the loop above.
  unfoldable pub unrolled_loop : Lanes → List (ℤ × ℤ) → ℤ
  unfolding tail_loop join_lanes
  unrolled_loop l (p0 ∷ p1 ∷ p2 ∷ p3 ∷ p4 ∷ p5 ∷ p6 ∷ p7 ∷ ps) =
      unrolled_loop
        (record {
          xy0 = term p0 +ℤ l.xy0;
          xy1 = term p1 +ℤ l.xy1;
          xy2 = term p2 +ℤ l.xy2;
          xy3 = term p3 +ℤ l.xy3;
          xy4 = term p4 +ℤ l.xy4;
          xy5 = term p5 +ℤ l.xy5;
          xy6 = term p6 +ℤ l.xy6;
          xy7 = term p7 +ℤ l.xy7;
        })
        ps
  unrolled_loop l ps = tail_loop (join_lanes l) ps

abbrev pub product_term : ℤ × ℤ → ℤ
product_term p = p.0 *ℤ p.1

abbrev pub difference_term : ℤ × ℤ → ℤ
difference_term p = (p.0 -ℤ p.1) *ℤ (p.0 -ℤ p.1)

unfoldable pub dot_product_naive : List (ℤ × ℤ) → ℤ
unfolding unrolled_loop
dot_product_naive ps = unrolled_loop product_term zero_lanes ps

unfoldable pub squared_l2 : List (ℤ × ℤ) → ℤ
unfolding unrolled_loop
squared_l2 ps = unrolled_loop difference_term zero_lanes ps

-- `squared_normalized_l2_distance`, where the number one is `unit` units and products are in units
-- of `unit`.
unfoldable pub squared_normalized_l2 : ℕ → List (ℤ × ℤ) → ℤ
unfolding dot_product_naive
squared_normalized_l2 unit ps =
    let dist = pos (2 * unit) -ℤ pos 2 *ℤ dot_product_naive ps in
    if ltb_ℤ (pos 0) dist then dist else pos 0

-- The `prune_check_func` that a database sets for its distance function, on distances of at least 0.
unfoldable pub prune_check : SupportedDistanceFunctions → ℕ → ℕ → ℕ → Bool
prune_check normalized_l2_distance dist_to_anchor in_page_max worst =
    ltb_ℤ (pos worst) (pos dist_to_anchor -ℤ pos in_page_max)
prune_check squared_normalized_l2_distance dist_to_anchor in_page_max worst =
    ltb in_page_max dist_to_anchor
    && (ltb worst (dist_to_anchor + in_page_max)
        && ltb (4 * dist_to_anchor * in_page_max)
            ((dist_to_anchor + in_page_max - worst) * (dist_to_anchor + in_page_max - worst)))
prune_check squared_l2_distance dist_to_anchor in_page_max worst =
    ltb in_page_max dist_to_anchor
    && (ltb worst (dist_to_anchor + in_page_max)
        && ltb (4 * dist_to_anchor * in_page_max)
            ((dist_to_anchor + in_page_max - worst) * (dist_to_anchor + in_page_max - worst)))

-- What the mode `legacy_prune` of spheres/spheres_benchmark.cpp sets, on squared distances.
unfoldable pub legacy_prune_check : ℕ → ℕ → ℕ → Bool
legacy_prune_check dist_to_anchor in_page_max worst =
    ltb_ℤ (pos worst) (pos dist_to_anchor -ℤ pos in_page_max)

-- `squared_l2_distance` on bit patterns that stand for whole numbers.
unfoldable pub squared_l2_distance_of : (ℕ → ℤ) → List ℕ → List ℕ → ℕ
unfolding squared_l2
squared_l2_distance_of decode x y = pos_part (squared_l2 (pairs (map decode x) (map decode y)))
