-- ===== src/Knn/Legacy.antt =====
-- The mode `legacy_prune` of spheres/spheres_benchmark.cpp, which tests squared distances without their
-- cross term.
use spheres_benchmark.Prelude.{
  ℕ, ◌+◌, ◌*◌, ◌-◌, ◌<◌, ◌≡◌, refl, ap, ◌∙◌, true, some, [], ◌∷◌, arith, get_elem?,
}
use spheres_benchmark.Prelude.Int.{pos, ◌-ℤ◌}
use spheres_benchmark.Storage.{Vector, Page}
use spheres_benchmark.Distance.{squared_l2_distance_of, legacy_prune_check}
use spheres_benchmark.Distance.Unrolled.{gap}
use spheres_benchmark.Knn.Scan.{IsBall}
use spheres_benchmark.Knn.Sound.{
  squared_l2_distance_lem, squared_l2_distance_comm, squared_l2_distance_self,
}

-- A vector of one element.
abbrev pub point : ℕ → Vector
point x = x ∷ []

abbrev pub line_distance : Vector → Vector → ℕ
line_distance = squared_l2_distance_of pos

-- A page with an anchor and a vector at the length `r` from it.
abbrev pub line_page : ℕ → ℕ → Page
line_page c r = record {
  n_vectors = 2;
  max_dist = line_distance (point (c + r)) (point c);
  ids = 0 ∷ 1 ∷ [];
  vectors = point c ∷ point (c + r) ∷ [];
}

gap_lem : (x d : ℕ) → gap (pos (x + d), pos x) ≡ d
unfolding ◌-ℤ◌
gap_lem x d = ground arith

line_distance_lem : (x d : ℕ) → line_distance (point (x + d)) (point x) ≡ d * d
line_distance_lem x d =
    squared_l2_distance_lem pos (point (x + d)) (point x) ∙ rw (gap_lem x d) (omega arith)

square_split : (r g : ℕ) → (r + g) * (r + g) ≡ r * r + g * g + 2 * (r * g)
square_split r g = omega arith

line_page-IsBall : (c r : ℕ) → IsBall line_distance 1 (line_page c r)
line_page-IsBall c r anchor first =
    let same : anchor ≡ point c = cc in
    rw same
      ((refl, rw (squared_l2_distance_self pos (point c)) (omega arith)), ((refl, omega arith), tt))

-- The test of the mode leaves out pages that hold nearer vectors. Of a page with an anchor and a vector at
-- the length r from it, which is a ball, and a query beyond the vector at the length a from the anchor, on
-- the same line: whenever the worst item is farther from the query than the vector, but by less than twice r
-- times the length from the vector to the query, the test prunes the page, with the vector in it.
pub legacy_prune_loses :
    (c r a w : ℕ)
    → r < a
    → line_distance (point (c + r)) (point (c + a)) < w
    → w < line_distance (point (c + r)) (point (c + a)) + 2 * (r * (a - r))
    → IsBall line_distance 1 (line_page c r)
      × (get_elem? (line_page c r).vectors 1 ≡ some (point (c + r)))
      × (legacy_prune_check (line_distance (point (c + a)) (point c)) (line_page c r).max_dist w
          ≡ true)
unfolding legacy_prune_check ◌-ℤ◌
legacy_prune_loses c r a w beyond near most =
    let rest = a - r in
    let whole : a ≡ r + rest = omega arith in
    let at : c + a ≡ c + r + rest = omega arith in
    let left : line_distance (point (c + r)) (point (c + a)) ≡ rest * rest =
      squared_l2_distance_comm pos (point (c + r)) (point (c + a))
      ∙ ap (λ x. line_distance (point x) (point (c + r))) at
      ∙ line_distance_lem (c + r) rest in
    let square : a * a ≡ r * r + rest * rest + 2 * (r * rest) =
      ap (λ (x : ℕ). x * x) whole ∙ square_split r rest in
    (
      line_page-IsBall c r,
      refl,
      rw (line_distance_lem c a, line_distance_lem c r) (ground (arith, square, left, near, most)),
    )
