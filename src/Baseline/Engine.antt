-- ===== src/Baseline/Engine.antt =====
-- The search of a database against that of the baseline, on the same vectors and queries.
use spheres_benchmark.Prelude.{
  ℕ, zero, suc, ◌+◌, ◌*◌, ◌≤◌, ◌<◌, ◌≡◌, refl, sym, ap, ◌∙◌, some, List, [], ◌∷◌, map, arith,
  length, take, get_elem?, All, size_mod, ◌>>=◌, Returns, Returns-map, row_at, rows_from,
  length-rows_from, get_elem?-rows_from, length-row_at, All-rows_from,
}
use native.Mathlib.Nat.{zero-add}
use mathlib.Core.Path.{subst}
use mathlib.Core.List.{reverse}
use spheres_benchmark.Config.{SupportedDistanceFunctions, SupportedDataType}
use spheres_benchmark.Storage.{Vector}
use spheres_benchmark.Tagged.{Tagged, sort}
use spheres_benchmark.Tagged.Order.{All-sort}
use spheres_benchmark.Distance.{prune_check}
use spheres_benchmark.Knn.{Batch}
use spheres_benchmark.Knn.Nearest.{Nearest}
use spheres_benchmark.Knn.Scan.{PruneIsSound}
use spheres_benchmark.Prefill.{Entry}
use spheres_benchmark.Database.{find_k_nearest_batch}
use spheres_benchmark.Database.Answers.{AnswersAll, candidate}
use spheres_benchmark.Database.Lifecycle.{SizesFit, build_and_load, build-search_exact}
use spheres_benchmark.Baseline.{query_row, search_queries}
use spheres_benchmark.Baseline.Ranked.{candidates, query_row-sort}
use spheres_benchmark.Baseline.Agrees.{distances, distances-Nearest}

-- The ids of the driver: every vector under its index.
abbrev pub numbered : ℕ → List ℕ → ℕ → ℕ → List Entry
numbered dim vectors zero i = []
numbered dim vectors (suc n) i = (i, row_at dim vectors i) ∷ numbered dim vectors n (suc i)

length-numbered : (dim : ℕ) (vectors : List ℕ) (n i : ℕ) → length (numbered dim vectors n i) ≡ n
length-numbered dim vectors zero i = refl
length-numbered dim vectors (suc n) i = ap suc (length-numbered dim vectors n (suc i))

numbered-dims :
    (dim m n i : ℕ) (vectors : List ℕ)
    → length vectors ≡ m * dim
    → i + n ≤ m
    → All (λ (e : Entry). length e.1 ≡ dim) (numbered dim vectors n i)
numbered-dims dim m zero i vectors size h = tt
numbered-dims dim m (suc n) i vectors size h = (
  length-row_at dim m i vectors size (omega arith),
  numbered-dims dim m n (suc i) vectors size (omega arith),
)

search_queries_lem {ℓ} :
    {A : Type ℓ} (distance_of : List A → List A → ℕ) (dim : ℕ) (vectors queries : List A)
    (k n_base n index i : ℕ)
    → i < n
    → get_elem? (search_queries distance_of dim vectors queries k n_base n index) i
      ≡ some (query_row distance_of dim vectors (row_at dim queries (index + i)) k n_base)
unfolding search_queries
search_queries_lem distance_of dim vectors queries k n_base zero index i h = absurd (omega arith)
search_queries_lem distance_of dim vectors queries k n_base (suc n) index zero h =
    ap (λ j. some (query_row distance_of dim vectors (row_at dim queries j) k n_base)) (omega arith)
search_queries_lem distance_of dim vectors queries k n_base (suc n) index (suc i) h =
    search_queries_lem distance_of dim vectors queries k n_base n (suc index) i (omega arith)
    ∙ ap (λ j. some (query_row distance_of dim vectors (row_at dim queries j) k n_base))
        (shift index i)
  where
    shift : (a b : ℕ) → suc a + b ≡ a + suc b
    shift a b = omega arith

module _ (distance_of : Vector → Vector → ℕ) (dim : ℕ) (vectors : List ℕ) where
  candidate-numbered :
      (q : Vector) (n i : ℕ)
      → map (candidate distance_of q) (numbered dim vectors n i)
        ≡ candidates distance_of dim vectors q n i
  candidate-numbered q zero i = refl
  candidate-numbered q (suc n) i =
      ap (◌∷◌ (distance_of (row_at dim vectors i) q, i)) (candidate-numbered q n (suc i))

  -- How far the vector with an index is from a query.
  abbrev pub distance_to : Vector → ℕ → ℕ
  distance_to q index = distance_of (row_at dim vectors index) q

  abbrev IsMeasured : Vector → Tagged → Type 0
  IsMeasured q c = distance_to q c.1 ≡ c.0

  candidates-IsMeasured :
      (q : Vector) (n i : ℕ) → All (IsMeasured q) (candidates distance_of dim vectors q n i)
  candidates-IsMeasured q zero i = tt
  candidates-IsMeasured q (suc n) i = (refl, candidates-IsMeasured q n (suc i))

  measured :
      (q : Vector) (k : ℕ) (cs : List Tagged)
      → All (IsMeasured q) cs
      → map (distance_to q) (map (λ c. c.1) (take k cs)) ≡ distances (take k cs)
  measured q zero cs h = refl
  measured q (suc k) [] h = refl
  measured q (suc k) (c ∷ cs) h = rw (h.0) (ap (◌∷◌ c.0) (measured q k cs h.1))

  -- The rows of the baseline are at the distances that any row of the k nearest has.
  query_row-distances :
      (q : Vector) (k n : ℕ) (row : List Tagged)
      → 0 < k
      → Nearest k (candidates distance_of dim vectors q n 0) row
      → map (distance_to q) (query_row distance_of dim vectors q k n) ≡ distances (reverse row)
  query_row-distances q k n row positive near =
      let cs = candidates distance_of dim vectors q n 0 in
      ap (map (distance_to q)) (query_row-sort distance_of dim vectors q k n positive)
      ∙ measured q k (sort cs) (All-sort _ cs (candidates-IsMeasured q n 0))
      ∙ sym (distances-Nearest k cs row near)

  -- Each row of a batch has the distances of the row of the baseline.
  abbrev pub AgreesAll : List ℕ → ℕ → ℕ → ℕ → Batch → Type 0
  AgreesAll queries k n n_query b =
      (i : ℕ)
      → i < n_query
      → (row : List Tagged) × (get_elem? b.results i ≡ some row)
        × (ids : List ℕ) × (get_elem? (search_queries distance_of dim vectors queries k n n_query 0)
              i
            ≡ some ids)
        × (map (distance_to (row_at dim queries i)) ids ≡ distances (reverse row))

  answers-AgreesAll :
      (queries : List ℕ) (k n n_query : ℕ) (b : Batch)
      → 0 < k
      → AnswersAll distance_of (numbered dim vectors n 0) k (rows_from dim queries n_query 0) b
      → AgreesAll queries k n n_query b
  answers-AgreesAll queries k n n_query b positive answers i h =
      let q = row_at dim queries i in
      let there : get_elem? (rows_from dim queries n_query 0) i ≡ some q =
        get_elem?-rows_from dim queries n_query 0 i h
        ∙ ap (λ j. some (row_at dim queries j)) (zero-add i) in
      let (row, found, near) = answers i q there in
      (
        row,
        found,
        query_row distance_of dim vectors q k n,
        search_queries_lem distance_of dim vectors queries k n n_query 0 i h
            ∙ ap (λ j. some (query_row distance_of dim vectors (row_at dim queries j) k n))
                (zero-add i),
        query_row-distances q k n row positive
            (subst (λ (cs : List Tagged). Nearest k cs row) (candidate-numbered q n 0) near),
      )

module _ (dist_of : SupportedDistanceFunctions → Vector → Vector → ℕ)
    (distance : SupportedDistanceFunctions) (dtype : SupportedDataType)
    (page_size file_size dim n_threads buffers_size n_base n_query : ℕ) (vectors queries : List ℕ)
    (num den : ℕ) where
  -- The exact search refines the baseline. A database is built of the vectors, under their indices, closed
  -- and loaded; then its batch search with no limit on the pages ends, in whatever order the threads take
  -- the morsels, with a row for every query whose distances, in ascending order, are those of the vectors
  -- that the baseline names for the query. The sizes fit, the distance is symmetric and zero from a vector to itself, the pruning test is
  -- sound for it, k is from 1 to the number of vectors, and a thread's buffer has k places at least.
  pub search-baseline :
      SizesFit dist_of distance dtype page_size file_size dim n_threads buffers_size
        (numbered dim vectors n_base 0)
        num
        den
      → ((u v : Vector) → dist_of distance u v ≡ dist_of distance v u)
      → ((u : Vector) → dist_of distance u u ≡ 0)
      → PruneIsSound (dist_of distance) dim (prune_check distance)
      → length vectors ≡ n_base * dim
      → length queries ≡ n_query * dim
      → (k step : ℕ) (threads : List ℕ) → 0 < k
      → k ≤ n_base
      → k ≤ buffers_size
      → All (λ (t : ℕ). t < n_threads) threads
      → n_query ≤ step * length threads
      → step * length threads < size_mod
      → Returns (AgreesAll (dist_of distance) dim vectors queries k n_base n_query) (
          build_and_load dist_of distance dtype page_size file_size dim n_threads buffers_size
            (numbered dim vectors n_base 0)
            num
            den
          >>= λ db. find_k_nearest_batch db (rows_from dim queries n_query 0) k 0 step threads)
  search-baseline fit symmetric zero_self sound size query_size k step threads positive some_k room
        known turns small =
      let entries = numbered dim vectors n_base 0 in
      let count = length-numbered dim vectors n_base 0 in
      let rows = rows_from dim queries n_query 0 in
      let query_count = length-rows_from dim queries n_query 0 in
      Returns-map
        (build-search_exact dist_of distance dtype page_size file_size dim n_threads buffers_size
          entries num den fit symmetric zero_self
          (numbered-dims dim n_base n_base 0 vectors size (omega arith)) k step rows threads sound
          positive (omega (arith, count, some_k))
          (All-rows_from dim n_query n_query 0 queries query_size (omega arith)) room known
          (omega (arith, query_count, turns)) small)
        λ b answers.
          answers-AgreesAll (dist_of distance) dim vectors queries k n_base n_query b positive
            answers
