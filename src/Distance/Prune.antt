-- ===== src/Distance/Prune.antt =====
-- The tests of modules/database/database.cppm that prune a page.
use spheres_benchmark.Prelude.{
  mul_mono, mul_mono_both, ℕ, suc, ◌+◌, ◌*◌, ◌-◌, ◌≤◌, ◌<◌, ◌≡◌, ◌↔◌, true, arith,
}
use mathlib.Core.Path.{subst, sym}
use native.Mathlib.Decide.{dec_le, dec_lt}
use spheres_benchmark.Config.{squared_l2_distance}
use spheres_benchmark.Distance.{prune_check}
use spheres_benchmark.Distance.Triangle.{SquaredTriangle, square_mono}

lt_of_squares : (a b : ℕ) → a * a < b * b → a < b
lt_of_squares a b h = elim (dec_lt a b) [
  | yes p ↦ p
  | no p ↦ absurd (omega (arith, h, square_mono b a (omega arith)))
]

square_lt : (a b : ℕ) → a < b → a * a < b * b
square_lt a b h = omega (arith, square_mono (suc a) b h)

-- What the squared test asks for.
prune_check_parts :
    (d m w : ℕ)
    → (prune_check squared_l2_distance d m w ≡ true)
      ↔ (m < d) × (w < d + m) × (4 * d * m < (d + m - w) * (d + m - w))
unfolding prune_check
prune_check_parts d m w = (λ e. ground arith, λ h. ground arith)

module _ (r g w : ℕ) where
  abbrev farther : ℕ
  farther = r + g

  square_of_sum : farther * farther + r * r ≡ g * g + 2 * (farther * r)
  square_of_sum = omega arith

  test_of_length :
      w < g * g → 0 < g → prune_check squared_l2_distance (farther * farther) (r * r) w ≡ true
  test_of_length h positive = (prune_check_parts (farther * farther) (r * r) w).1 (
    square_lt r farther (omega arith),
    omega (arith, square_of_sum),
    omega (
      arith,
      square_lt (2 * (farther * r)) (farther * farther + r * r - w) (omega (arith, square_of_sum)),
    ),
  )

  length_of_test : prune_check squared_l2_distance (farther * farther) (r * r) w ≡ true → w < g * g
  length_of_test e =
      let p = (prune_check_parts (farther * farther) (r * r) w).0 e in
      let longer =
        lt_of_squares (2 * (farther * r)) (farther * farther + r * r - w) (omega (arith, p.2)) in
      omega (arith, longer, square_of_sum)

-- On squares of lengths the squared test prunes exactly when the anchor is farther than the radius of
-- the page by a length whose square is above the worst distance.
pub prune_check_iff :
    (a r w : ℕ)
    → (prune_check squared_l2_distance (a * a) (r * r) w ≡ true) ↔ (r < a) × (w < (a - r) * (a - r))
prune_check_iff a r w = (
  λ e.
      let below = lt_of_squares r a ((prune_check_parts (a * a) (r * r) w).0 e).0 in
      let split : a ≡ r + (a - r) = omega arith in
      (
        below,
        length_of_test r (a - r) w
            (subst (λ b. prune_check squared_l2_distance (b * b) (r * r) w ≡ true) split e),
      ),
  λ h.
      let split : a ≡ r + (a - r) = omega arith in
      subst (λ b. prune_check squared_l2_distance (b * b) (r * r) w ≡ true) (sym split)
        (test_of_length r (a - r) w h.1 (omega arith)),
)

-- The bound that the triangle inequality gives if the vector were within the worst distance.
no_prune_near :
    (d m w c : ℕ)
    → c * c ≤ w * m
    → d ≤ w + m + 2 * c
    → m < d
    → (d + m - w) * (d + m - w) ≤ 4 * d * m
no_prune_near d m w c h sides below = elim (dec_le (m + w) d) [
  | yes outside ↦ by_excess (d - m - w) (omega arith) (omega arith)
  | no inside ↦
      omega
        (arith, square_mono (d + m - w) (2 * m) (omega arith), mul_mono m d (4 * m) (omega arith))
]
  where
    by_excess : (e : ℕ) → d ≡ m + w + e → e ≤ 2 * c → (d + m - w) * (d + m - w) ≤ 4 * d * m
    by_excess e split le =
        let s : d + m - w ≡ 2 * m + e = omega arith in
        rw (s, split) (omega (arith, h, square_mono e (2 * c) le))

-- If the test prunes and the triangle inequality holds of the squares, then a vector within the
-- radius of the page is farther than the worst item.
pub prune_check_far :
    (d x m r w : ℕ)
    → SquaredTriangle d x m
    → m ≤ r
    → prune_check squared_l2_distance d r w ≡ true
    → w < x
prune_check_far d x m r w t h e = elim (dec_lt w x) [
  | yes far ↦ far
  | no near ↦
      let p = (prune_check_parts d r w).0 e in
      let product : x * m ≤ w * r = mul_mono_both x w m r (omega arith) h in
      absurd (
        omega (
          arith,
          p.2,
          no_prune_near d r w t.cross (omega (arith, t.cross_bound, product))
              (omega (arith, t.sides)) p.0,
        ))
]
