-- ===== src/Distance/Unrolled.antt =====
-- The unrolled loops of modules/distance/distance.cppm against plain sums.
use spheres_benchmark.Prelude.{ℕ, ◌+◌, ◌*◌, ◌≡◌, refl, ◌∙◌, List, [], ◌∷◌, arith, total}
use mathlib.Core.Path.{ap₂}
use spheres_benchmark.Prelude.Int.{ℤ, pos, negsuc, pos_part, neg_part, ◌+ℤ◌, ◌-ℤ◌, ◌*ℤ◌, int_laws}
use spheres_benchmark.Distance.{
  Lanes, zero_lanes, join_lanes, tail_loop, unrolled_loop, product_term, difference_term,
  dot_product_naive, squared_l2,
}

abbrev pub sum_ℤ : (ℤ × ℤ → ℤ) → List (ℤ × ℤ) → ℤ
sum_ℤ term [] = pos 0
sum_ℤ term (p ∷ ps) = term p +ℤ sum_ℤ term ps

module _ (term : ℤ × ℤ → ℤ) where
  tail_loop_lem : (sum : ℤ) (ps : List (ℤ × ℤ)) → tail_loop term sum ps ≡ sum +ℤ sum_ℤ term ps
  unfolding tail_loop
  tail_loop_lem sum [] = omega int_laws
  tail_loop_lem sum (p ∷ ps) = tail_loop_lem (term p +ℤ sum) ps ∙ omega int_laws

  unrolled_loop_lem :
      (ps : List (ℤ × ℤ)) (l : Lanes) → unrolled_loop term l ps ≡ join_lanes l +ℤ sum_ℤ term ps
  unfolding unrolled_loop join_lanes
  unrolled_loop_lem (p0 ∷ p1 ∷ p2 ∷ p3 ∷ p4 ∷ p5 ∷ p6 ∷ p7 ∷ ps) l =
      unrolled_loop_lem ps _ ∙ omega int_laws
  unrolled_loop_lem ps l = tail_loop_lem (join_lanes l) ps

-- The unrolled dot product is the sum of the products, for every length.
pub dot_product_naive-sum : (ps : List (ℤ × ℤ)) → dot_product_naive ps ≡ sum_ℤ product_term ps
unfolding dot_product_naive join_lanes
dot_product_naive-sum ps = unrolled_loop_lem product_term ps zero_lanes ∙ omega int_laws

-- |x - y|
abbrev pub gap : ℤ × ℤ → ℕ
gap p = pos_part (p.0 -ℤ p.1) + neg_part (p.0 -ℤ p.1)

-- The sum of the squares of the differences.
abbrev pub sum_squares : List (ℤ × ℤ) → ℕ
sum_squares ps = total (λ p. gap p * gap p) ps

square_lem : (z : ℤ) → z *ℤ z ≡ pos ((pos_part z + neg_part z) * (pos_part z + neg_part z))
unfolding ◌*ℤ◌
square_lem (pos n) = ground arith
square_lem (negsuc n) = ground arith

pos-add : (a b : ℕ) → pos a +ℤ pos b ≡ pos (a + b)
unfolding ◌+ℤ◌
pos-add a b = ground arith

sum-squares_lem : (ps : List (ℤ × ℤ)) → sum_ℤ difference_term ps ≡ pos (sum_squares ps)
sum-squares_lem [] = refl
sum-squares_lem (p ∷ ps) =
    ap₂ ◌+ℤ◌ (square_lem (p.0 -ℤ p.1)) (sum-squares_lem ps)
    ∙ pos-add (gap p * gap p) (sum_squares ps)

-- The unrolled squared distance is the sum of the squared differences, for every length, and so is
-- never negative.
pub squared_l2-sum : (ps : List (ℤ × ℤ)) → squared_l2 ps ≡ pos (sum_squares ps)
unfolding squared_l2 join_lanes
squared_l2-sum ps =
    unrolled_loop_lem difference_term ps zero_lanes ∙ omega int_laws ∙ sum-squares_lem ps
