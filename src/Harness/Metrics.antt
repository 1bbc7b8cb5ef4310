-- ===== src/Harness/Metrics.antt =====
-- `recall` and `avg_squared_l2_distance` of include/benchmark_config.h in exact arithmetic: a fraction is
-- kept as its numerator and its denominator. `none` is what the code throws.
use spheres_benchmark.Prelude.{
  ℕ, zero, suc, ◌+◌, ◌*◌, ◌-◌, ◌/◌, ◌%◌, ◌^◌, ◌≤◌, ◌<◌, ◌≡◌, refl, ap, inl, inr, Bool, true, false,
  ◌&&◌, ◌||◌, Option, none, some, List, [], ◌∷◌, map, arith, length, length-map, take, drop, ltb,
  leb, ◌==◌, if◌then◌else◌, Bool-cases, ◌>>=◌, >>=-of_some, Returns, All, total,
}
use mathlib.Core.Bool.{not}
use spheres_benchmark.Prelude.Int.{ℤ, pos, negsuc, pos_part, neg_part}
use spheres_benchmark.Distance.{pairs}
use spheres_benchmark.Distance.Unrolled.{sum_squares}
pub mod Defined
pub mod Sums

-- `static_cast<int>` of a `std::size_t`.
unfoldable pub to_int : ℕ → ℤ
to_int id = let low = id % 2 ^ 32 in if ltb low (2 ^ 31) then pos low else negsuc (2 ^ 32 - 1 - low)

abbrev same_int : ℤ → ℤ → Bool
same_int a b = pos_part a == pos_part b && neg_part a == neg_part b

-- `truth.contains`
abbrev pub contains : List ℤ → ℤ → Bool
contains [] id = false
contains (t ∷ truth) id = same_int t id || contains truth id

unfoldable pub count_hits : List ℤ → List ℕ → ℕ
unfolding to_int
count_hits truth [] = 0
count_hits truth (id ∷ ids) =
    if contains truth (to_int id) then suc (count_hits truth ids) else count_hits truth ids

-- The loop over the rows.
unfoldable pub total_hits : ℕ → List (List ℕ) → List (List ℤ) → Option ℕ
unfolding count_hits
total_hits k [] gt = some 0
total_hits k (row ∷ results) [] = none
total_hits k (row ∷ results) (truth ∷ gt) =
    if length row == k && leb k (length truth)
    then (do hits ← total_hits k results gt; some (count_hits (take k truth) row + hits))
    else none

unfoldable pub recall : List (List ℕ) → List (List ℤ) → ℕ → Option (ℕ × ℕ)
unfolding total_hits
recall results gt k =
    if length results == 0 || (not (length results == length gt) || k == 0)
    then none
    else (do hits ← total_hits k results gt; some (hits, k * length results))

-- Each result row has exactly k ids and its ground truth k at least.
abbrev pub RowsFit : ℕ → List (List ℕ) → List (List ℤ) → Type 0
RowsFit k [] [] = Unit
RowsFit k [] (truth ∷ gt) = ⊥
RowsFit k (row ∷ results) [] = ⊥
RowsFit k (row ∷ results) (truth ∷ gt) =
    (length row ≡ k) × (k ≤ length truth) × RowsFit k results gt

-- The ids that are not among the first k of the ground truth.
abbrev pub misses : List ℤ → List ℕ → ℕ
misses truth ids = total (λ id. if contains truth (to_int id) then 0 else 1) ids

abbrev pub all_misses : ℕ → List (List ℕ) → List (List ℤ) → ℕ
all_misses k [] gt = 0
all_misses k (row ∷ results) [] = 0
all_misses k (row ∷ results) (truth ∷ gt) = misses (take k truth) row + all_misses k results gt

hits_lem : (truth : List ℤ) (ids : List ℕ) → count_hits truth ids + misses truth ids ≡ length ids
unfolding count_hits
hits_lem truth [] = refl
hits_lem truth (id ∷ ids) = elim (Bool-cases (contains truth (to_int id))) [
  | inl e ↦ rw e (omega (arith, hits_lem truth ids))
  | inr e ↦ rw e (omega (arith, hits_lem truth ids))
]

total_hits_lem :
    (k : ℕ) (results : List (List ℕ)) (gt : List (List ℤ))
    → RowsFit k results gt
    → Returns
        (λ (hits : ℕ). hits + all_misses k results gt ≡ k * length results)
        (total_hits k results gt)
unfolding total_hits
total_hits_lem k [] [] fit = (0, refl, omega arith)
total_hits_lem k [] (truth ∷ gt) fit = absurd fit
total_hits_lem k (row ∷ results) [] fit = absurd fit
total_hits_lem k (row ∷ results) (truth ∷ gt) fit =
    let exact : length row == k ≡ true = ground (arith, fit.0) in
    let enough : leb k (length truth) ≡ true = ground (arith, fit.1) in
    let (hits, run, sum) = total_hits_lem k results gt fit.2 in
    rw (exact, enough)
      (
        count_hits (take k truth) row + hits,
        >>=-of_some _ run refl,
        omega (arith, hits_lem (take k truth) row, sum, fit.0),
      )

pub length-RowsFit :
    (k : ℕ) (results : List (List ℕ)) (gt : List (List ℤ))
    → RowsFit k results gt
    → length results ≡ length gt
length-RowsFit k [] [] fit = refl
length-RowsFit k [] (truth ∷ gt) fit = absurd fit
length-RowsFit k (row ∷ results) [] fit = absurd fit
length-RowsFit k (row ∷ results) (truth ∷ gt) fit = ap suc (length-RowsFit k results gt fit.2)

-- Recall is defined where the rows fit, and is the share of the ids that are among the first k of their
-- ground truth: the numerator falls short of the denominator by the number of ids that are not.
pub recall_lem :
    (results : List (List ℕ)) (gt : List (List ℤ)) (k : ℕ)
    → RowsFit k results gt
    → 0 < length results
    → 0 < k
    → Returns
        (λ (r : ℕ × ℕ). (r.0 + all_misses k results gt ≡ r.1) × (r.1 ≡ k * length results))
        (recall results gt k)
unfolding recall
recall_lem results gt k fit some_rows positive =
    let (hits, run, sum) = total_hits_lem k results gt fit in
    let sizes = length-RowsFit k results gt fit in
    let guards : (length results == 0 ≡ false)
        × (length results == length gt ≡ true)
        × (k == 0 ≡ false) =
      (ground arith, ground (arith, sizes), ground arith) in
    rw (guards.0, guards.1, guards.2)
      ((hits, k * length results), >>=-of_some _ run refl, (sum, refl))

-- `squared_l2_distance` of this file, of vectors of whole numbers.
abbrev pub row_distance : List ℤ → List ℤ → ℕ
row_distance x y = sum_squares (pairs x y)

-- The row of a flat array, from element `index * dim` on.
abbrev pub flat_row : ℕ → List ℤ → ℕ → List ℤ
flat_row dim base index = take dim (drop (index * dim) base)

module _ (base : List ℤ) (dim : ℕ) where
  -- The loop over the ids of a query: the sums for the results and for the ground truth.
  unfoldable pub row_sums : List ℤ → ℕ → List ℕ → List ℤ → Option (ℕ × ℕ)
  row_sums query zero ids truth = some (0, 0)
  row_sums query (suc n) [] truth = none
  row_sums query (suc n) (id ∷ ids) [] = none
  row_sums query (suc n) (id ∷ ids) (t ∷ truth) =
      let base_rows = length base / dim in
      if leb base_rows id || (ltb 0 (neg_part t) || leb base_rows (pos_part t)) then none else (do
        (qri, gri) ← row_sums query n ids truth
        some (
          row_distance (flat_row dim base id) query + qri,
          row_distance (flat_row dim base (pos_part t)) query + gri,
        ))

  unfoldable pub all_sums : List ℤ → ℕ → ℕ → List (List ℕ) → List (List ℤ) → Option (ℕ × ℕ)
  unfolding row_sums
  all_sums query k q [] gt = some (0, 0)
  all_sums query k q (row ∷ results) [] = none
  all_sums query k q (row ∷ results) (truth ∷ gt) =
      if ltb (length row) k || ltb (length truth) k then none else (do
        (qri, gri) ← row_sums (flat_row dim query q) k row truth
        (r1, r2) ← all_sums query k (suc q) results gt
        some (qri + r1, gri + r2))

  -- The two averages, as numerators over a common denominator.
  unfoldable pub avg_squared_l2_distance :
      List ℤ → List (List ℕ) → List (List ℤ) → ℕ → Option ((ℕ × ℕ) × ℕ)
  unfolding all_sums
  avg_squared_l2_distance query results gt k =
      if length results == 0
        || (not (length results == length gt)
            || (not (length query == length results * dim)
                || (dim == 0 || not (length base % dim == 0))))
      then none
      else (do sums ← all_sums query k 0 results gt; some (sums, k * length results))
