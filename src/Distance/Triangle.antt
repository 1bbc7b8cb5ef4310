-- ===== src/Distance/Triangle.antt =====
-- The triangle inequality in terms of squares: with D, X, M the squared distances of three vectors,
-- D ≤ X + M + 2 c for a number c with c² ≤ X M.
use spheres_benchmark.Prelude.{
  mul_mono, ℕ, suc, ◌+◌, ◌*◌, ◌-◌, ◌≤◌, ◌≡◌, refl, List, [], ◌∷◌, arith, length,
}
use mathlib.Core.Path.{ap₂}
use native.Mathlib.Decide.{dec_le}
use native.Mathlib.Nat.{mul_comm, add_comm}
use spheres_benchmark.Prelude.Int.{ℤ, ◌-ℤ◌}
use spheres_benchmark.Distance.{pairs}
use spheres_benchmark.Distance.Unrolled.{gap, sum_squares}

pub square_mono : (a b : ℕ) → a ≤ b → a * a ≤ b * b
square_mono a b h = grind arith

pub of_squares : (a b : ℕ) → a * a ≤ b * b → a ≤ b
of_squares a b h = elim (dec_le a b) [
  | yes p ↦ p
  | no p ↦ absurd (omega (arith, h, square_mono (suc b) a (omega arith)))
]

four_le_square : (a b : ℕ) → 4 * (a * b) ≤ (a + b) * (a + b)
four_le_square a b = elim (dec_le a b) [
  | yes p ↦ by_gap a (b - a) (omega arith)
  | no p ↦ rw (mul_comm a b, add_comm a b) (by_gap b (a - b) (omega arith))
]
  where
    by_gap : (a e : ℕ) {b : ℕ} → b ≡ a + e → 4 * (a * b) ≤ (a + b) * (a + b)
    by_gap a e h = rw h (omega arith)

twice_cross : (c x y u w : ℕ) → c * c ≤ x * y → 2 * (c * (u * w)) ≤ x * (w * w) + y * (u * u)
twice_cross c x y u w h = of_squares (2 * (c * (u * w))) (x * (w * w) + y * (u * u)) (
    omega (
      arith,
      mul_mono (c * c) (x * y) (4 * (u * w * (u * w))) h,
      four_le_square (x * (w * w)) (y * (u * u)),
    ))

-- One more coordinate keeps the inequality of Cauchy and Schwarz.
cross_step : (c x y u w : ℕ) → c * c ≤ x * y → (c + u * w) * (c + u * w) ≤ (x + u * u) * (y + w * w)
cross_step c x y u w h = omega (arith, h, twice_cross c x y u w h)

pub record SquaredTriangle (d x m : ℕ) : Type 0 where
  pub cross : ℕ
  pub cross_bound : cross * cross ≤ x * m
  pub sides : d ≤ x + m + 2 * cross

SquaredTriangle-step :
    {d x m : ℕ} (g u w : ℕ)
    → SquaredTriangle d x m
    → g ≤ u + w
    → SquaredTriangle (g * g + d) (u * u + x) (w * w + m)
SquaredTriangle-step {d} {x} {m} g u w t h = record {
  cross = t.cross + u * w;
  cross_bound = omega (arith, cross_step t.cross x m u w t.cross_bound);
  sides = omega (arith, square_mono g (u + w) h, t.sides);
}

gap_triangle : (q a v : ℤ) → gap (q, a) ≤ gap (v, q) + gap (v, a)
unfolding ◌-ℤ◌
gap_triangle q a v = ground arith

-- For vectors of one dimension the squared distances satisfy the inequality.
pub squares-SquaredTriangle :
    (q a v : List ℤ)
    → length q ≡ length v
    → length a ≡ length v
    → SquaredTriangle (sum_squares (pairs q a)) (sum_squares (pairs v q)) (sum_squares (pairs v a))
squares-SquaredTriangle [] [] [] h k = record {
  cross = 0;
  cross_bound = omega arith;
  sides = omega arith;
}
squares-SquaredTriangle (q ∷ qs) (a ∷ as') (v ∷ vs) h k =
    SquaredTriangle-step (gap (q, a)) (gap (v, q)) (gap (v, a))
      (squares-SquaredTriangle qs as' vs (omega arith) (omega arith)) (gap_triangle q a v)
squares-SquaredTriangle qs ys vs h k = absurd (omega arith)

gap_comm : (x y : ℤ) → gap (x, y) ≡ gap (y, x)
unfolding ◌-ℤ◌
gap_comm x y = ground arith

pub sum_squares_comm : (xs ys : List ℤ) → sum_squares (pairs xs ys) ≡ sum_squares (pairs ys xs)
sum_squares_comm [] [] = refl
sum_squares_comm [] (y ∷ ys) = refl
sum_squares_comm (x ∷ xs) [] = refl
sum_squares_comm (x ∷ xs) (y ∷ ys) =
    ap₂ (λ (g rest : ℕ). g * g + rest) (gap_comm x y) (sum_squares_comm xs ys)
