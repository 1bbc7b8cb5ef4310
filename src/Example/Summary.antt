-- ===== src/Example/Summary.antt =====
-- `recall_summarize` of example/main.cpp: its average, its quarters and its range.
use spheres_benchmark.Prelude.{
  ℕ, zero, suc, ◌*◌, ◌/◌, ◌≤◌, ◌<◌, ◌≡◌, refl, ap, ◌∙◌, inl, inr, true, false, ◌&&◌, none, some,
  List, [], ◌∷◌, arith, length, take, get_elem?, get_elem?-some, ltb, leb, ◌==◌, Bool-cases,
  >>=-of_some, Returns, All, All-map, All-get, sub_size, sub_size-one, size_mod, get_elem?-none,
  some_injective,
}
use spheres_benchmark.Prelude.Int.{ℤ}
use spheres_benchmark.Harness.Metrics.{count_hits, total_hits, recall, RowsFit, length-RowsFit}
use spheres_benchmark.Example.{
  row_hits, sum, insert_hits, sort_hits, RecallSummary, recall_summarize, example_recall,
}

abbrev Rises : List ℕ → Type 0
Rises [] = Unit
Rises (x ∷ xs) = All (λ (y : ℕ). x ≤ y) xs × Rises xs

All-insert_hits {κ} :
    (P : ℕ → Type κ) (x : ℕ) (xs : List ℕ) → P x → All P xs → All P (insert_hits x xs)
unfolding insert_hits
All-insert_hits P x [] p q = (p, tt)
All-insert_hits P x (y ∷ xs) p q = elim (Bool-cases (ltb y x)) [
  | inl e ↦ rw e (q.0, All-insert_hits P x xs p q.1)
  | inr e ↦ rw e (p, q)
]

insert_hits-Rises : (x : ℕ) (xs : List ℕ) → Rises xs → Rises (insert_hits x xs)
unfolding insert_hits
insert_hits-Rises x [] r = (tt, tt)
insert_hits-Rises x (y ∷ xs) r = elim (Bool-cases (ltb y x)) [
  | inl e ↦ rw e (All-insert_hits _ x xs (ground arith) r.0, insert_hits-Rises x xs r.1)
  | inr e ↦ rw e ((ground arith, All-map _ _ xs (λ z p. ground arith) r.0), r)
]

length-insert_hits : (x : ℕ) (xs : List ℕ) → length (insert_hits x xs) ≡ suc (length xs)
unfolding insert_hits
length-insert_hits x [] = refl
length-insert_hits x (y ∷ xs) = ground (arith, length-insert_hits x xs)

sort_hits-Rises : (xs : List ℕ) → Rises (sort_hits xs)
unfolding sort_hits
sort_hits-Rises [] = tt
sort_hits-Rises (x ∷ xs) = insert_hits-Rises x (sort_hits xs) (sort_hits-Rises xs)

length-sort_hits : (xs : List ℕ) → length (sort_hits xs) ≡ length xs
unfolding sort_hits
length-sort_hits [] = refl
length-sort_hits (x ∷ xs) = length-insert_hits x (sort_hits xs) ∙ ap suc (length-sort_hits xs)

-- An item that goes in is there afterwards: what holds of all of the result holds of it.
All-of_insert {κ} :
    (P : ℕ → Type κ) (x : ℕ) (xs : List ℕ) → All P (insert_hits x xs) → P x × All P xs
unfolding insert_hits
All-of_insert P x [] h = h
All-of_insert P x (y ∷ xs) h = elim (Bool-cases (ltb y x)) [
  | inl e ↦ let g = (rw e at h) in let r = All-of_insert P x xs g.1 in (r.0, (g.0, r.1))
  | inr e ↦ rw e at h
]

All-of_sort {κ} : (P : ℕ → Type κ) (xs : List ℕ) → All P (sort_hits xs) → All P xs
unfolding sort_hits
All-of_sort P [] h = tt
All-of_sort P (x ∷ xs) h =
    let (p, rest) = All-of_insert P x (sort_hits xs) h in (p, All-of_sort P xs rest)

-- In order, an item is no greater than one behind it.
Rises-get :
    (xs : List ℕ) (i j : ℕ) {x y : ℕ}
    → Rises xs
    → i ≤ j
    → get_elem? xs i ≡ some x
    → get_elem? xs j ≡ some y
    → x ≤ y
Rises-get [] i j r h e e' = cc
Rises-get (z ∷ xs) zero zero r h e e' = ground (arith, e, e')
Rises-get (z ∷ xs) zero (suc j) r h e e' =
    let later = All-get _ xs j r.0 e' in ground (arith, e, later)
Rises-get (z ∷ xs) (suc i) zero r h e e' = absurd (omega arith)
Rises-get (z ∷ xs) (suc i) (suc j) r h e e' = Rises-get xs i j r.1 (omega arith) e e'

least_first : (xs : List ℕ) {x : ℕ} → Rises xs → get_elem? xs 0 ≡ some x → All (λ (h : ℕ). x ≤ h) xs
least_first [] r e = tt
least_first (y ∷ xs) {x} r e =
    let same : y ≡ x = some_injective e in
    (omega arith, All-map _ _ xs (λ z h. omega (arith, same)) r.0)

-- The hits of the rows, where these fit.
row_hits_lem :
    (k : ℕ) (results : List (List ℕ)) (gt : List (List ℤ))
    → RowsFit k results gt
    → Returns
        (λ (hits : List ℕ).
          (total_hits k results gt ≡ some (sum hits)) × (length hits ≡ length results))
        (row_hits k results gt)
unfolding row_hits total_hits
row_hits_lem k [] [] fit = ([], refl, (refl, refl))
row_hits_lem k [] (truth ∷ gt) fit = absurd fit
row_hits_lem k (row ∷ results) [] fit = absurd fit
row_hits_lem k (row ∷ results) (truth ∷ gt) fit =
    let guard : length row == k && leb k (length truth) ≡ true = ground (arith, fit.0, fit.1) in
    let (hits, run, (counted, size)) = row_hits_lem k results gt fit.2 in
    rw guard (
      count_hits (take k truth) row ∷ hits,
      >>=-of_some _ run refl,
      (>>=-of_some _ counted refl, ap suc size),
    )

module _ (results : List (List ℕ)) (gt : List (List ℤ)) (k : ℕ) (fit : RowsFit k results gt)
    (some_k : 0 < k) where
  guards :
      0 < length results
      → (length results == 0 ≡ false) × (length results == length gt ≡ true) × (k == 0 ≡ false)
  guards h = (ground arith, ground (arith, length-RowsFit k results gt fit), ground arith)

  -- Of four rows at least, the average is the recall, and the least is no greater than the first quarter nor
  -- that than the second; no row has fewer hits than the least.
  pub recall_summarize-ordered :
      4 ≤ length results
      → length results < size_mod
      → Returns
          (λ (r : RecallSummary).
            (example_recall results gt k ≡ some (r.average, k * length results))
            × (r.least ≤ r.p25)
            × (r.p25 ≤ r.p50)
            × (hits : List ℕ) × (row_hits k results gt ≡ some hits)
            × All (λ (h : ℕ). r.least ≤ h) hits)
          (recall_summarize results gt k)
  unfolding recall_summarize example_recall recall
  recall_summarize-ordered four small =
      let n = length results in
      let (hits, run, (counted, size)) = row_hits_lem k results gt fit in
      let sorted = sort_hits hits in
      let order = sort_hits-Rises hits in
      let count = length-sort_hits hits ∙ size in
      let quarter = sub_size-one (n / 4) (omega arith) (omega arith) in
      let half = sub_size-one (n / 2) (omega arith) (omega arith) in
      let (p25, at25) =
        get_elem?-some sorted (sub_size (n / 4) 1) (omega (arith, quarter, count)) in
      let (p50, at50) = get_elem?-some sorted (sub_size (n / 2) 1) (omega (arith, half, count)) in
      let (least, at0) = get_elem?-some sorted 0 (omega (arith, count)) in
      let g = guards (omega arith) in
      rw (g.0, g.1, g.2)
        (
          record { average = sum hits; p25 = p25; p50 = p50; least = least },
          >>=-of_some _ run (>>=-of_some _ at25 (>>=-of_some _ at50 (>>=-of_some _ at0 refl))),
          (
            >>=-of_some _ counted refl,
            Rises-get sorted 0 (sub_size (n / 4) 1) order (omega arith) at0 at25,
            Rises-get sorted (sub_size (n / 4) 1) (sub_size (n / 2) 1) order
                (omega (arith, quarter, half)) at25 at50,
            hits,
            run,
            All-of_sort _ hits (least_first sorted order at0),
          ),
        )

  -- Of one to three rows it has no first quarter: the index wraps below 0, and the read is out of range.
  pub recall_summarize-few :
      0 < length results → length results < 4 → recall_summarize results gt k ≡ none
  unfolding recall_summarize
  recall_summarize-few some_rows few =
      let n = length results in
      let (hits, run, (counted, size)) = row_hits_lem k results gt fit in
      let over =
        get_elem?-none (sort_hits hits) (sub_size (n / 4) 1)
          (omega (arith, length-sort_hits hits, size)) in
      let g = guards some_rows in rw (g.0, g.1, g.2) (>>=-of_some _ run (rw over refl))
