-- ===== src/Knn/Rows.antt =====
-- The queries of a batch, in the order in which the threads take their morsels.
use spheres_benchmark.Prelude.{
  ℕ, zero, suc, ◌+◌, ◌-◌, ◌*◌, ◌≤◌, ◌<◌, ◌≡◌, refl, sym, ap, ◌∙◌, inl, inr, Bool, some, List, [],
  ◌∷◌, arith, leb, min, Bool-cases, length, get_elem?, set, take, size_mod, add_size, All, All-get,
  All-set, All-map, true, Returns, Returns-some, >>=-of_some, get_elem?-some, get_elem?-lt,
  get_elem?-set_self, get_elem?-set_ne, length-set,
}
use native.Mathlib.Nat.{mod-eq_of_lt, add-zero}
use native.Mathlib.Decide.{dec_lt}
use spheres_benchmark.Storage.{Vector, Storage}
use spheres_benchmark.Tagged.{Tagged}
use spheres_benchmark.Knn.{Batch, copy_row, batch_query, batch_rows, batch_turn, batch_turns}

module _ (dist_func : Vector → Vector → ℕ) (prune : ℕ → ℕ → ℕ → Bool) (s : Storage) (k : ℕ)
    (cached_vectors : List Vector) (cached_max_dists : List Tagged) (budget : ℕ)
    (queries : List Vector) (IsRight : Vector → List Tagged → Type 0) where
  -- Each query, run on any buffer of k places at least, leaves a right row in the first k places.
  abbrev pub QueriesRight : Type 0
  QueriesRight =
      (i : ℕ) (q : Vector) (old : List Tagged)
      → get_elem? queries i ≡ some q
      → k ≤ length old
      → Returns (λ (b : List Tagged). IsRight q (take k b) × (length b ≡ length old))
          (batch_query dist_func prune s k q cached_vectors cached_max_dists budget old)

  -- The rows of the queries below `n` are right, and there is a row for each query.
  pub record RowsBelow (n : ℕ) (results : List (List Tagged)) : Type 0 where
    pub size : length results ≡ length queries
    pub right :
        (i : ℕ) (q : Vector)
        → i < n
        → get_elem? queries i ≡ some q
        → (row : List Tagged) × (get_elem? results i ≡ some row) × IsRight q row

  RowsBelow-set :
      (n : ℕ) (results : List (List Tagged)) (q : Vector) (row : List Tagged)
      → get_elem? queries n ≡ some q
      → IsRight q row
      → RowsBelow n results
      → RowsBelow (suc n) (set results n row)
  RowsBelow-set n results q row here ok r = record {
    size = length-set results n row ∙ r.size;
    right = λ i q' h at. elim (dec_lt i n) [
      | yes lt ↦
          let (row', found, ok') = r.right i q' lt at in
          (row', get_elem?-set_ne results row (omega arith) ∙ found, ok')
      | no ge ↦
          let e : i ≡ n = omega arith in
          let both : some q ≡ some q' = sym here ∙ ap (get_elem? queries) (sym e) ∙ at in
          let same : q ≡ q' = cc in
          let n_in : n < length results = omega (arith, get_elem?-lt queries n here, r.size) in
          (
            row,
            ap (get_elem? (set results n row)) e ∙ get_elem?-set_self results n row n_in,
            rw (← same) ok,
          )
    ];
  }

  module _ (right : QueriesRight) where
    batch_rows-RowsBelow :
        (n current : ℕ) (buffer : List Tagged) (results : List (List Tagged))
        → current + n ≤ length queries
        → RowsBelow current results
        → k ≤ length buffer
        → Returns
            (λ (r : List Tagged × List (List Tagged)).
              RowsBelow (current + n) r.1 × (k ≤ length r.0))
            (batch_rows dist_func prune s k cached_vectors cached_max_dists budget queries n current
              buffer results)
    unfolding batch_rows
    batch_rows-RowsBelow zero current buffer results h r places =
        ((buffer, results), refl, (rw add-zero r, places))
    batch_rows-RowsBelow (suc n) current buffer results h r places =
        let (q, at) = get_elem?-some queries current (omega arith) in
        let (buffer', run, (ok, size)) = right current q buffer at places in
        let places' : k ≤ length buffer' = omega (arith, size) in
        let inside : leb k (length buffer') ≡ true = ground arith in
        let copied : copy_row k buffer' ≡ some (take k buffer') = rw inside refl in
        let shift : current + suc n ≡ suc current + n = omega arith in
        rw shift (
          Returns-some _ at (
            Returns-some _ run (
              Returns-some _ copied (
                batch_rows-RowsBelow n (suc current) buffer' (set results current (take k buffer'))
                  (omega arith) (RowsBelow-set current results q (take k buffer') at ok r)
                  places'))))

    RowsBelow-past :
        (n m : ℕ) (results : List (List Tagged))
        → ((i : ℕ) → i < m → i < length queries → i < n)
        → RowsBelow n results
        → RowsBelow m results
    RowsBelow-past n m results h r = record {
      size = r.size;
      right = λ i q lt at. r.right i q (h i lt (get_elem?-lt queries i at)) at;
    }

    batch_turn-RowsBelow :
        (step thread : ℕ) (b : Batch)
        → thread < length b.buffers
        → b.next_morsel + step < size_mod
        → RowsBelow b.next_morsel b.results
        → All (λ (buffer : List Tagged). k ≤ length buffer) b.buffers
        → Returns
            (λ (c : Batch).
              All (λ (buffer : List Tagged). k ≤ length buffer) c.buffers
              × RowsBelow c.next_morsel c.results
              × (c.next_morsel ≡ b.next_morsel + step)
              × (length c.buffers ≡ length b.buffers))
            (batch_turn dist_func prune s k cached_vectors cached_max_dists budget queries step
              thread b)
    unfolding batch_turn
    batch_turn-RowsBelow step thread b h small r places =
        let next : add_size b.next_morsel step ≡ b.next_morsel + step = mod-eq_of_lt small in
        elim (Bool-cases (leb (length queries) b.next_morsel)) [
          | inl over ↦ rw over (
            record b { next_morsel = add_size b.next_morsel step },
            refl,
            (
              places,
              RowsBelow-past b.next_morsel _ b.results (λ i _ lt. ground arith) r,
              next,
              refl,
            ),
          )
          | inr more ↦
              let (buffer, mine) = get_elem?-some b.buffers thread h in
              let limit = min (length queries) (add_size step b.next_morsel) in
              let top : add_size step b.next_morsel ≡ b.next_morsel + step =
                mod-eq_of_lt (omega (arith, small)) ∙ omega arith in
              let start : b.next_morsel < length queries = ground arith in
              let end : b.next_morsel + (limit - b.next_morsel) ≤ length queries =
                omega (arith, top, start) in
              let (out, run, (r', place)) =
                batch_rows-RowsBelow (limit - b.next_morsel) b.next_morsel buffer b.results end r
                  (All-get _ b.buffers thread places mine) in
              rw more (
                record b {
                  next_morsel = add_size b.next_morsel step;
                  buffers = set b.buffers thread out.0;
                  results = out.1;
                },
                >>=-of_some _ mine (>>=-of_some _ run refl),
                (
                  All-set _ b.buffers thread out.0 places place,
                  RowsBelow-past (b.next_morsel + (limit - b.next_morsel)) _ out.1
                      (λ i lt lt'. omega (arith, top, start, next, lt, lt')) r',
                  next,
                  length-set b.buffers thread out.0,
                ),
              )
        ]

    -- Once the turns have taken all morsels, every query has its right row.
    pub batch_turns-right :
        (step : ℕ) (threads : List ℕ) (b : Batch)
        → All (λ (t : ℕ). t < length b.buffers) threads
        → length queries ≤ b.next_morsel + step * length threads
        → b.next_morsel + step * length threads < size_mod
        → RowsBelow b.next_morsel b.results
        → All (λ (buffer : List Tagged). k ≤ length buffer) b.buffers
        → Returns
            (λ (c : Batch). RowsBelow (length queries) c.results)
            (batch_turns dist_func prune s k cached_vectors cached_max_dists budget queries step
              threads b)
    unfolding batch_turns
    batch_turns-right step [] b known enough small r places =
        (b, refl, RowsBelow-past b.next_morsel _ b.results (λ i lt lt'. omega (arith, enough)) r)
    batch_turns-right step (t ∷ threads) b known enough small r places =
        let turn = batch_turn-RowsBelow step t b known.0 (omega (arith, small)) r places in
        let (c, run, (places', r', next, size)) = turn in
        Returns-some _ run (
          batch_turns-right step threads c (All-map _ _ threads (λ i lt. rw size lt) known.1)
            (rw next (omega (arith, enough))) (rw next (omega (arith, small))) r' places')
