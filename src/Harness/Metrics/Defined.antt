-- ===== src/Harness/Metrics/Defined.antt =====
-- Where `recall` and `avg_squared_l2_distance` of include/benchmark_config.h are defined.
use spheres_benchmark.Prelude.{
  ℕ, zero, suc, ◌+◌, ◌*◌, ◌/◌, ◌%◌, ◌≤◌, ◌<◌, ◌≡◌, refl, ap, sym, ◌∙◌, true, false, ◌||◌, List, [],
  ◌∷◌, arith, length, ltb, leb, ◌==◌, >>=-of_some, Returns, Returns-map, All,
}
use mathlib.Core.Path.{subst}
use native.Mathlib.Nat.{mul-div_cancel, mod-eq-sub-div-mul}
use spheres_benchmark.Prelude.Int.{ℤ, pos_part, neg_part}
use spheres_benchmark.Harness.Metrics.{
  flat_row, row_sums, all_sums, avg_squared_l2_distance, recall, recall_lem, RowsFit,
  length-RowsFit, all_misses,
}

-- The index of one of `rows` vectors.
abbrev pub IsIndex : ℕ → ℤ → Type 0
IsIndex rows t = (neg_part t ≡ 0) × (pos_part t < rows)

-- Each result row has exactly k ids and its ground truth k at least, and all are indices of vectors.
abbrev pub RowsInRange : ℕ → ℕ → List (List ℕ) → List (List ℤ) → Type 0
RowsInRange rows k [] [] = Unit
RowsInRange rows k [] (truth ∷ gt) = ⊥
RowsInRange rows k (ids ∷ results) [] = ⊥
RowsInRange rows k (ids ∷ results) (truth ∷ gt) =
    (length ids ≡ k)
    × (k ≤ length truth)
    × All (λ (id : ℕ). id < rows) ids
    × All (IsIndex rows) truth
    × RowsInRange rows k results gt

pub RowsInRange-RowsFit :
    (rows k : ℕ) (results : List (List ℕ)) (gt : List (List ℤ))
    → RowsInRange rows k results gt
    → RowsFit k results gt
RowsInRange-RowsFit rows k [] [] h = tt
RowsInRange-RowsFit rows k [] (truth ∷ gt) h = absurd h
RowsInRange-RowsFit rows k (ids ∷ results) [] h = absurd h
RowsInRange-RowsFit rows k (ids ∷ results) (truth ∷ gt) h =
    (h.0, h.1, RowsInRange-RowsFit rows k results gt h.4)

module _ (base : List ℤ) (dim : ℕ) where
  row_sums-defined :
      (query : List ℤ) (n : ℕ) (ids : List ℕ) (truth : List ℤ)
      → n ≤ length ids
      → n ≤ length truth
      → All (λ (id : ℕ). id < length base / dim) ids
      → All (IsIndex (length base / dim)) truth
      → Returns (λ (r : ℕ × ℕ). Unit {0}) (row_sums base dim query n ids truth)
  unfolding row_sums
  row_sums-defined query zero ids truth h g inside there = ((0, 0), refl, tt)
  row_sums-defined query (suc n) [] truth h g inside there = absurd (omega arith)
  row_sums-defined query (suc n) (id ∷ ids) [] h g inside there = absurd (omega arith)
  row_sums-defined query (suc n) (id ∷ ids) (t ∷ truth) h g inside there =
      let (r, run, _) =
        row_sums-defined query n ids truth (omega arith) (omega arith) inside.1 there.1 in
      let guard : leb (length base / dim) id
            || (ltb 0 (neg_part t) || leb (length base / dim) (pos_part t))
          ≡ false =
        ground (arith, inside.0, there.0.0, there.0.1) in
      rw guard ((_, >>=-of_some _ run refl, tt))

  all_sums-defined :
      (query : List ℤ) (k q : ℕ) (results : List (List ℕ)) (gt : List (List ℤ))
      → RowsInRange (length base / dim) k results gt
      → Returns (λ (r : ℕ × ℕ). Unit {0}) (all_sums base dim query k q results gt)
  unfolding all_sums
  all_sums-defined query k q [] gt h = ((0, 0), refl, tt)
  all_sums-defined query k q (ids ∷ results) [] h = absurd h
  all_sums-defined query k q (ids ∷ results) (truth ∷ gt) h =
      let (r, run, _) =
        row_sums-defined (flat_row dim query q) k ids truth (omega (arith, h.0)) h.1 h.2 h.3 in
      let (t, run', _) = all_sums-defined query k (suc q) results gt h.4 in
      let guard : ltb (length ids) k || ltb (length truth) k ≡ false = ground (arith, h.0, h.1) in
      rw guard ((_, >>=-of_some _ run (>>=-of_some _ run' refl), tt))

  -- The average distances are defined on rows in range, over the number of ids.
  pub avg-defined :
      (query : List ℤ) (results : List (List ℕ)) (gt : List (List ℤ)) (k : ℕ)
      → 0 < length results
      → 0 < dim
      → length query ≡ length results * dim
      → length base % dim ≡ 0
      → RowsInRange (length base / dim) k results gt
      → Returns
          (λ (r : (ℕ × ℕ) × ℕ). r.1 ≡ k * length results)
          (avg_squared_l2_distance base dim query results gt k)
  unfolding avg_squared_l2_distance
  avg-defined query results gt k some_rows positive sizes whole h =
      let (sums, run, _) = all_sums-defined query k 0 results gt h in
      let same =
        length-RowsFit k results gt (RowsInRange-RowsFit (length base / dim) k results gt h) in
      let guards : (length results == 0 ≡ false)
          × (length results == length gt ≡ true)
          × (length query == length results * dim ≡ true)
          × (dim == 0 ≡ false)
          × (length base % dim == 0 ≡ true) =
        (
          ground arith,
          ground (arith, same),
          ground (arith, sizes),
          ground arith,
          ground (arith, whole),
        ) in
      rw (guards.0, guards.1, guards.2, guards.3, guards.4)
        ((sums, k * length results), >>=-of_some _ run refl, refl)

-- Both metrics of an engine are defined if its rows are in range; recall is the share of the ids that
-- are in the ground truth.
pub metrics-defined :
    (base query : List ℤ) (dim n_base n_query k : ℕ) (results : List (List ℕ)) (gt : List (List ℤ))
    → 0 < dim
    → 0 < k
    → 0 < n_query
    → length base ≡ n_base * dim
    → length query ≡ n_query * dim
    → length results ≡ n_query
    → RowsInRange n_base k results gt
    → Returns
        (λ (r : (ℕ × ℕ) × ℕ). r.1 ≡ k * n_query)
        (avg_squared_l2_distance base dim query results gt k)
      × Returns
          (λ (r : ℕ × ℕ). (r.0 + all_misses k results gt ≡ r.1) × (r.1 ≡ k * n_query))
          (recall results gt k)
metrics-defined base query dim n_base n_query k results gt dim_pos k_pos some_rows size query_size
      count h =
    let rows : length base / dim ≡ n_base =
      ap (λ n. n / dim) size ∙ mul-div_cancel n_base dim_pos in
    let whole : length base % dim ≡ 0 =
      omega (arith, mod-eq-sub-div-mul (length base) dim, ap (λ n. n * dim) rows, size) in
    let fit = RowsInRange-RowsFit n_base k results gt h in
    let queries : length query ≡ length results * dim =
      query_size ∙ ap (λ n. n * dim) (sym count) in
    let there : 0 < length results = omega (arith, count) in
    let total = ap (λ n. k * n) count in
    (
      Returns-map
          (avg-defined base dim query results gt k there dim_pos queries whole
            (subst (λ (n : ℕ). RowsInRange n k results gt) (sym rows) h))
          (λ r e. e ∙ total),
      Returns-map (recall_lem results gt k fit there k_pos) (λ r e. (e.0, e.1 ∙ total)),
    )
