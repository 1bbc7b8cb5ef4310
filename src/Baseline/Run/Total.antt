-- ===== src/Baseline/Run/Total.antt =====
-- `run` of baseline/baseline.cpp on a dataset that is what its configuration says.
use spheres_benchmark.Prelude.{
  ℕ, zero, suc, ◌+◌, ◌*◌, ◌≤◌, ◌<◌, ◌≡◌, refl, ap, ◌∙◌, true, some, List, [], ◌∷◌, map, arith,
  length, length-map, length-take, take, >>=-of_some, Returns, All, row_at, length-same,
}
use mathlib.Core.Path.{subst}
use spheres_benchmark.Prelude.Int.{ℤ}
use spheres_benchmark.Harness.Bytes.{Bytes}
use spheres_benchmark.Harness.Quote.{write_json}
use spheres_benchmark.Harness.Args.{BenchmarkConfig}
use spheres_benchmark.Harness.Args.Accepted.{IsUsable}
use spheres_benchmark.Harness.Machine.{Machine, write_metrics, read_numbers, read_gt_vectors}
use spheres_benchmark.Harness.Metrics.{avg_squared_l2_distance, all_misses}
use spheres_benchmark.Harness.Metrics.Defined.{IsIndex, RowsInRange, metrics-defined}
use spheres_benchmark.Harness.Vectors.Sizes.{length-read_numbers, read_gt_vectors-sizes}
use spheres_benchmark.Tagged.{Tagged, sort}
use spheres_benchmark.Tagged.Order.{sort-same, All-sort}
use spheres_benchmark.Baseline.{squared_l2, query_row, search_queries}
use spheres_benchmark.Baseline.Ranked.{candidates, query_row-sort}
use spheres_benchmark.Baseline.Run.{run, baseline_fields}

module _ {ℓ} {A : Type ℓ} (distance_of : List A → List A → ℕ) (dim : ℕ) (vectors : List A) where
  length-candidates : (q : List A) (n i : ℕ) → length (candidates distance_of dim vectors q n i) ≡ n
  length-candidates q zero i = refl
  length-candidates q (suc n) i = ap suc (length-candidates q n (suc i))

  candidates-below :
      (q : List A) (m n i : ℕ)
      → i + n ≤ m
      → All (λ (c : Tagged). c.1 < m) (candidates distance_of dim vectors q n i)
  candidates-below q m zero i h = tt
  candidates-below q m (suc n) i h = (omega arith, candidates-below q m n (suc i) (omega arith))

  All-indices :
      (m k : ℕ) (cs : List Tagged)
      → All (λ (c : Tagged). c.1 < m) cs
      → All (λ (id : ℕ). id < m) (map (λ c. c.1) (take k cs))
  All-indices m zero cs h = tt
  All-indices m (suc k) [] h = tt
  All-indices m (suc k) (c ∷ cs) h = (h.0, All-indices m k cs h.1)

  -- A row of the baseline has k indices of vectors.
  query_row-InRange :
      (q : List A) (k n : ℕ)
      → 0 < k
      → k ≤ n
      → (length (query_row distance_of dim vectors q k n) ≡ k)
        × All (λ (id : ℕ). id < n) (query_row distance_of dim vectors q k n)
  query_row-InRange q k n positive enough =
      let cs = candidates distance_of dim vectors q n 0 in
      let same = query_row-sort distance_of dim vectors q k n positive in
      let size = length-same (sort cs) cs (sort-same cs) in
      (
        ap length same
            ∙ length-map (take k (sort cs)) (λ c. c.1)
            ∙ omega (arith, length-take k (sort cs), size, length-candidates q n 0),
        rw same
            (All-indices n k (sort cs) (All-sort _ cs (candidates-below q n n 0 (omega arith)))),
      )

  search_queries-InRange :
      (queries : List A) (k n i : ℕ) (gt : List (List ℤ))
      → 0 < k
      → k ≤ n
      → All (λ (truth : List ℤ). (k ≤ length truth) × All (IsIndex n) truth) gt
      → RowsInRange n k (search_queries distance_of dim vectors queries k n (length gt) i) gt
  unfolding search_queries
  search_queries-InRange queries k n i [] positive enough good = tt
  search_queries-InRange queries k n i (truth ∷ gt) positive enough good =
      let row = query_row-InRange (row_at dim queries i) k n positive enough in
      (
        row.0,
        good.0.0,
        row.1,
        good.0.1,
        search_queries-InRange queries k n (suc i) gt positive enough good.1,
      )

length-search_queries {ℓ} :
    {A : Type ℓ} (distance_of : List A → List A → ℕ) (dim : ℕ) (vectors queries : List A)
    (k n_base n i : ℕ)
    → length (search_queries distance_of dim vectors queries k n_base n i) ≡ n
unfolding search_queries
length-search_queries distance_of dim vectors queries k n_base zero i = refl
length-search_queries distance_of dim vectors queries k n_base (suc n) i =
    ap suc (length-search_queries distance_of dim vectors queries k n_base n (suc i))

-- Each row of the ground truth has k numbers at least if it has `dim`.
pub with_sizes :
    (k dim : ℕ) (P : ℤ → Type 0) (gt : List (List ℤ))
    → k ≤ dim
    → All (λ (truth : List ℤ). length truth ≡ dim) gt
    → All (λ (truth : List ℤ). All P truth) gt
    → All (λ (truth : List ℤ). (k ≤ length truth) × All P truth) gt
with_sizes k dim P [] h sizes good = tt
with_sizes k dim P (truth ∷ gt) h sizes good =
    ((omega (arith, sizes.0), good.0), with_sizes k dim P gt h sizes.1 good.1)

module _ (m : Machine) (c : BenchmarkConfig) (vectors queries : List ℤ) (gt : List (List ℤ)) where
  abbrev pub rows : List (List ℕ)
  rows =
      search_queries squared_l2 c.vector_dim vectors queries c.k c.n_base_vectors c.n_query_vectors
        0

  -- The files hold what the configuration says, and the ground truth names vectors.
  pub record HoldsDataset : Type 0 where
    pub base_file :
        read_numbers (m.file c.base_vector_path) c.n_base_vectors c.vector_dim ≡ some vectors
    pub query_file :
        read_numbers (m.file c.query_vector_path) c.n_query_vectors c.vector_dim ≡ some queries
    pub truth_file : read_gt_vectors (m.file c.gt_vector_path) c.n_query_vectors c.k_in_gt ≡ some gt
    pub truths : All (λ (truth : List ℤ). All (IsIndex c.n_base_vectors) truth) gt
    pub output : m.writable c.metrics_path ≡ true

  -- The metrics are written, with a recall that is the share of the ids that are in the ground truth.
  abbrev pub IsReported : Bytes → Type 0
  IsReported out =
      (hits : ℕ) × (average : (ℕ × ℕ) × ℕ) × (out
        ≡ write_json (baseline_fields m c (hits, c.k * c.n_query_vectors) average))
      × (hits + all_misses c.k rows gt ≡ c.k * c.n_query_vectors)
      × (avg_squared_l2_distance vectors c.vector_dim queries rows gt c.k ≡ some average)

  -- With a usable configuration, on files that hold what it says, the baseline runs to its end and
  -- writes its metrics, with the average distances and with the share of the ids that are in the ground truth.
  pub run-IsReported : IsUsable c → HoldsDataset → Returns IsReported (run m c)
  unfolding run write_metrics
  run-IsReported u d =
      let (count, sizes) =
        read_gt_vectors-sizes (m.file c.gt_vector_path) c.n_query_vectors c.k_in_gt d.truth_file in
      let size =
        length-read_numbers (m.file c.base_vector_path) c.n_base_vectors c.vector_dim d.base_file in
      let query_size =
        length-read_numbers (m.file c.query_vector_path) c.n_query_vectors c.vector_dim
          d.query_file in
      let answered =
        length-search_queries squared_l2 c.vector_dim vectors queries c.k c.n_base_vectors
          c.n_query_vectors 0 in
      let good = with_sizes c.k c.k_in_gt (IsIndex c.n_base_vectors) gt u.k_in_gt sizes d.truths in
      let in_range =
        subst
          (λ (n : ℕ).
            RowsInRange c.n_base_vectors c.k
              (search_queries squared_l2 c.vector_dim vectors queries c.k c.n_base_vectors n 0) gt)
          count
          (search_queries-InRange squared_l2 c.vector_dim vectors queries c.k c.n_base_vectors 0 gt
            u.some_k u.k_in_base good) in
      let ((average, averaged, _), (hits, counted, share)) =
        metrics-defined vectors queries c.vector_dim c.n_base_vectors c.n_query_vectors c.k rows gt
          u.dim u.some_k u.queries size query_size answered in_range in
      (
        write_json (baseline_fields m c hits average),
        >>=-of_some _ d.base_file (
            >>=-of_some _ d.query_file (
              >>=-of_some _ d.truth_file
                (>>=-of_some _ averaged (>>=-of_some _ counted (rw (d.output) refl))))),
        (
          hits.0,
          average,
          ap (λ n. write_json (baseline_fields m c (hits.0, n) average)) share.1,
          share.0 ∙ share.1,
          averaged,
        ),
      )
