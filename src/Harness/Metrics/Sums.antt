-- ===== src/Harness/Metrics/Sums.antt =====
-- The sums of avg_squared_l2_distance of include/benchmark_config.h, coordinate by coordinate.
use spheres_benchmark.Prelude.{
  ℕ, zero, suc, ◌+◌, ◌*◌, ◌/◌, ◌%◌, ◌≤◌, ◌<◌, ◌≡◌, refl, ap, ◌∙◌, true, false, some, List, [], ◌∷◌,
  arith, length, length-drop, get_or, take, drop, ltb, leb, ◌==◌, All, >>=-of_some, mul_mono,
}
use native.Mathlib.Nat.{div-mul-le_self}
use mathlib.Core.Path.{ap₂}
use spheres_benchmark.Prelude.Int.{ℤ, pos, pos_part, neg_part}
use spheres_benchmark.Distance.Unrolled.{gap}
use spheres_benchmark.Harness.Metrics.{
  row_distance, flat_row, row_sums, all_sums, avg_squared_l2_distance,
}

abbrev pub sum_below : ℕ → (ℕ → ℕ) → ℕ
sum_below zero f = 0
sum_below (suc n) f = f 0 + sum_below n (λ i. f (suc i))

sum_below-same : (n : ℕ) (f g : ℕ → ℕ) → ((i : ℕ) → f i ≡ g i) → sum_below n f ≡ sum_below n g
sum_below-same zero f g h = refl
sum_below-same (suc n) f g h =
    ap₂ ◌+◌ (h 0) (sum_below-same n (λ i. f (suc i)) (λ i. g (suc i)) (λ i. h (suc i)))

-- The square of the difference of two coordinates.
abbrev pub square_between : List ℤ → ℕ → List ℤ → ℕ → ℕ
square_between xs i ys j =
    gap (get_or xs i (pos 0), get_or ys j (pos 0)) * gap (get_or xs i (pos 0), get_or ys j (pos 0))

get_or-drop : (m i : ℕ) (xs : List ℤ) → get_or (drop m xs) i (pos 0) ≡ get_or xs (m + i) (pos 0)
get_or-drop zero i xs = ap (λ j. get_or xs j (pos 0)) (omega arith)
get_or-drop (suc m) i [] = refl
get_or-drop (suc m) i (x ∷ xs) =
    let shift : suc (m + i) ≡ suc m + i = omega arith in
    get_or-drop m i xs ∙ ap (λ j. get_or (x ∷ xs) j (pos 0)) shift

row_distance-take :
    (n : ℕ) (xs ys : List ℤ)
    → n ≤ length xs
    → n ≤ length ys
    → row_distance (take n xs) (take n ys) ≡ sum_below n (λ i. square_between xs i ys i)
row_distance-take zero xs ys h k = refl
row_distance-take (suc n) [] ys h k = absurd (omega arith)
row_distance-take (suc n) (x ∷ xs) [] h k = absurd (omega arith)
row_distance-take (suc n) (x ∷ xs) (y ∷ ys) h k =
    ap (λ (rest : ℕ). gap (x, y) * gap (x, y) + rest)
      (row_distance-take n xs ys (omega arith) (omega arith))

module _ (base : List ℤ) (dim : ℕ) (query : List ℤ) where
  -- The squared distance of the row `a` of the base vectors and the row `b` of the queries.
  abbrev pub apart : ℕ → ℕ → ℕ
  apart a b = sum_below dim (λ i. square_between base (a * dim + i) query (b * dim + i))

  row_distance-apart :
      (a b : ℕ)
      → a * dim + dim ≤ length base
      → b * dim + dim ≤ length query
      → row_distance (flat_row dim base a) (flat_row dim query b) ≡ apart a b
  row_distance-apart a b h k =
      row_distance-take dim (drop (a * dim) base) (drop (b * dim) query)
        (omega (arith, length-drop (a * dim) base, h))
        (omega (arith, length-drop (b * dim) query, k))
      ∙ sum_below-same dim _ _ (λ i.
        ap₂ (λ (x y : ℤ). gap (x, y) * gap (x, y)) (get_or-drop (a * dim) i base)
          (get_or-drop (b * dim) i query))

  row_inside : (a rows len : ℕ) → a < rows → rows * dim ≤ len → a * dim + dim ≤ len
  row_inside a rows len h whole = omega (arith, mul_mono (suc a) rows dim h, whole)

  abbrev base_rows : ℕ
  base_rows = length base / dim

  -- An id of a result names a base vector, and so does one of the ground truth.
  abbrev pub IsRow : ℕ → Type 0
  IsRow id = id < length base / dim

  abbrev pub IsTruth : ℤ → Type 0
  IsTruth t = (neg_part t ≡ 0) × (pos_part t < length base / dim)

  row_sums-apart :
      (b : ℕ)
      → b * dim + dim ≤ length query
      → (n : ℕ) (ids : List ℕ) (truth : List ℤ) → n ≤ length ids
      → n ≤ length truth
      → All IsRow ids
      → All IsTruth truth
      → row_sums base dim (flat_row dim query b) n ids truth
        ≡ some (
          sum_below n (λ j. apart (get_or ids j 0) b),
          sum_below n (λ j. apart (pos_part (get_or truth j (pos 0))) b),
        )
  unfolding row_sums
  row_sums-apart b inside zero ids truth h k good good' = refl
  row_sums-apart b inside (suc n) [] truth h k good good' = absurd (omega arith)
  row_sums-apart b inside (suc n) (id ∷ ids) [] h k good good' = absurd (omega arith)
  row_sums-apart b inside (suc n) (id ∷ ids) (t ∷ truth) h k good good' =
      let guards : (leb base_rows id ≡ false)
          × (ltb 0 (neg_part t) ≡ false)
          × (leb base_rows (pos_part t) ≡ false) =
        (ground (arith, good.0), ground (arith, good'.0.0), ground (arith, good'.0.1)) in
      let whole = div-mul-le_self (length base) dim in
      let here =
        row_distance-apart id b (row_inside id base_rows (length base) good.0 whole) inside in
      let here' =
        row_distance-apart (pos_part t) b
          (row_inside (pos_part t) base_rows (length base) good'.0.1 whole) inside in
      rw (guards.0, guards.1, guards.2)
        (>>=-of_some _
          (row_sums-apart b inside n ids truth (omega arith) (omega arith) good.1 good'.1)
          (rw (here, here') refl))

  -- The rows hold k ids at least, and all of them name base vectors.
  abbrev pub RowsInRange : ℕ → List (List ℕ) → List (List ℤ) → Type 0
  RowsInRange k [] [] = Unit
  RowsInRange k [] (truth ∷ gt) = ⊥
  RowsInRange k (row ∷ results) [] = ⊥
  RowsInRange k (row ∷ results) (truth ∷ gt) =
      (k ≤ length row)
      × (k ≤ length truth)
      × All IsRow row
      × All IsTruth truth
      × RowsInRange k results gt

  length-RowsInRange :
      (k : ℕ) (results : List (List ℕ)) (gt : List (List ℤ))
      → RowsInRange k results gt
      → length results ≡ length gt
  length-RowsInRange k [] [] h = refl
  length-RowsInRange k [] (truth ∷ gt) h = absurd h
  length-RowsInRange k (row ∷ results) [] h = absurd h
  length-RowsInRange k (row ∷ results) (truth ∷ gt) h = ap suc (length-RowsInRange k results gt h.4)

  -- Over the first k ids of a row, from the query `b`.
  abbrev pub ids_apart : ℕ → List ℕ → ℕ → ℕ
  ids_apart k row b = sum_below k (λ j. apart (get_or row j 0) b)

  abbrev pub truth_apart : ℕ → List ℤ → ℕ → ℕ
  truth_apart k truth b = sum_below k (λ j. apart (pos_part (get_or truth j (pos 0))) b)

  all_sums-apart :
      (k q : ℕ) (results : List (List ℕ)) (gt : List (List ℤ))
      → RowsInRange k results gt
      → (q + length results) * dim ≤ length query
      → all_sums base dim query k q results gt
        ≡ some (
          sum_below (length results) (λ i. ids_apart k (get_or results i []) (q + i)),
          sum_below (length results) (λ i. truth_apart k (get_or gt i []) (q + i)),
        )
  unfolding all_sums
  all_sums-apart k q [] [] h inside = refl
  all_sums-apart k q [] (truth ∷ gt) h inside = absurd h
  all_sums-apart k q (row ∷ results) [] h inside = absurd h
  all_sums-apart k q (row ∷ results) (truth ∷ gt) h inside =
      let guards : (ltb (length row) k ≡ false) × (ltb (length truth) k ≡ false) =
        (ground (arith, h.0), ground (arith, h.1)) in
      let here = row_inside q (q + suc (length results)) (length query) (omega arith) inside in
      let shift : suc q + length results ≡ q + suc (length results) = omega arith in
      let rest = all_sums-apart k (suc q) results gt h.4 (rw shift inside) in
      rw (guards.0, guards.1)
        (>>=-of_some _ (row_sums-apart q here k row truth h.0 h.1 h.2 h.3) (
          >>=-of_some _ rest (
            ap₂ (λ (x y : ℕ). some (x, y))
              (ap₂ ◌+◌ (ap (ids_apart k row) (omega arith)) (
                sum_below-same (length results) _ _
                  (λ i. ap (ids_apart k (get_or results i [])) (omega arith))))
              (ap₂ ◌+◌ (ap (truth_apart k truth) (omega arith)) (
                sum_below-same (length results) _ _
                  (λ i. ap (truth_apart k (get_or gt i [])) (omega arith)))))))

  -- The two averages, with their denominator, are the sums over the queries, over the first k ids of their
  -- rows, and over the coordinates, of the squares of the differences between the coordinates of the query
  -- and those of the base vector that the id names: with the ids of the results, and with those of the ground
  -- truth. Each row has k ids at least, which name base vectors; the queries are as many as the results, one
  -- at least, and the base vectors are whole.
  pub avg_squared_l2_distance_lem :
      (results : List (List ℕ)) (gt : List (List ℤ)) (k : ℕ)
      → 0 < length results
      → 0 < dim
      → length query ≡ length results * dim
      → length base % dim ≡ 0
      → RowsInRange k results gt
      → avg_squared_l2_distance base dim query results gt k
        ≡ some (
          (
            sum_below (length results) (λ i. ids_apart k (get_or results i []) i),
            sum_below (length results) (λ i. truth_apart k (get_or gt i []) i),
          ),
          k * length results,
        )
  unfolding avg_squared_l2_distance
  avg_squared_l2_distance_lem results gt k some_rows positive sizes whole good =
      let guards : (length results == 0 ≡ false)
          × (length results == length gt ≡ true)
          × (length query == length results * dim ≡ true)
          × (dim == 0 ≡ false)
          × (length base % dim == 0 ≡ true) =
        (
          ground arith,
          ground (arith, length-RowsInRange k results gt good),
          ground (arith, sizes),
          ground arith,
          ground (arith, whole),
        ) in
      let from_first : 0 + length results ≡ length results = omega arith in
      let sums = all_sums-apart k 0 results gt good (rw from_first (omega (arith, sizes))) in
      rw (guards.0, guards.1, guards.2, guards.3, guards.4)
        (>>=-of_some _ sums (
          ap₂ (λ (x y : ℕ). some ((x, y), k * length results))
            (sum_below-same (length results) _ _
              (λ i. ap (ids_apart k (get_or results i [])) (omega arith)))
            (sum_below-same (length results) _ _
              (λ i. ap (truth_apart k (get_or gt i [])) (omega arith)))))
