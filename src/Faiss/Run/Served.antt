-- ===== src/Faiss/Run/Served.antt =====
-- `run` of faiss/faiss_benchmark.cpp with a new flat index, and what it relies on of the library.
use mathlib.Core.Path.{subst}
use mathlib.Core.List.{append_assoc}
use spheres_benchmark.Prelude.{
  ℕ, zero, suc, ◌+◌, ◌*◌, ◌≤◌, ◌<◌, ◌≡◌, refl, sym, ap, ◌∙◌, true, false, some, List, [], ◌∷◌, ◌++◌,
  map, arith, length, length-map, length-append, drop, drop-append, ltb, >>=-of_some, Returns, All,
  row_at,
}
use spheres_benchmark.Prelude.Int.{ℤ, pos_part, neg_part}
use spheres_benchmark.Harness.Bytes.{Bytes, text}
use spheres_benchmark.Harness.Quote.{write_json}
use spheres_benchmark.Harness.Args.{BenchmarkConfig}
use spheres_benchmark.Harness.Args.Accepted.{IsUsable}
use spheres_benchmark.Harness.Vectors.{read_file_as_flat_array}
use spheres_benchmark.Harness.Vectors.Sizes.{length-read_numbers, read_gt_vectors-sizes}
use spheres_benchmark.Harness.Machine.{
  Machine, read_numbers, read_gt_vectors, float_units, write_metrics,
}
use spheres_benchmark.Harness.Metrics.{all_misses}
use spheres_benchmark.Harness.Metrics.Defined.{IsIndex, RowsInRange, metrics-defined}
use spheres_benchmark.Baseline.Run.Total.{with_sizes}
use spheres_benchmark.Faiss.{
  Library, label_row, label_rows, search_fields, make_index, index_file, is_mode, tuned,
  search_labels,
}
use spheres_benchmark.Faiss.Added.{IsAdditive, add_in_batches_lem}
use spheres_benchmark.Faiss.Run.{search_and_report, run}

label_row_lem :
    (n : ℕ) (labels rest : List ℤ)
    → All (IsIndex n) labels
    → label_row (length labels) (labels ++ rest) ≡ some (map pos_part labels)
unfolding label_row
label_row_lem n [] rest h = refl
label_row_lem n (label ∷ labels) rest h =
    let there : ltb 0 (neg_part label) ≡ false = ground (arith, h.0.0) in
    rw there (>>=-of_some _ (label_row_lem n labels rest h.1) refl)

indices-Below :
    (n : ℕ) (labels : List ℤ)
    → All (IsIndex n) labels
    → All (λ (id : ℕ). id < n) (map pos_part labels)
indices-Below n [] h = tt
indices-Below n (label ∷ labels) h = (h.0.1, indices-Below n labels h.1)

module _ (faiss : Library) (m : Machine) (c : BenchmarkConfig) where
  open faiss use {Index, flat_l2, add, search, write_index, read_index}

  -- For every query the index names k vectors out of `n`.
  abbrev pub Answers : ℕ → Index → Type 0
  Answers n index =
      (query : List ℕ)
      → (length (search index query c.k) ≡ c.k) × All (IsIndex n) (search index query c.k)

  abbrev rows_found : Index → List ℕ → ℕ → ℕ → List (List ℕ)
  rows_found index queries zero i = []
  rows_found index queries (suc n) i =
      map pos_part (search index (row_at c.vector_dim queries i) c.k)
      ∷ rows_found index queries n (suc i)

  length-rows_found :
      (index : Index) (queries : List ℕ) (n i : ℕ) → length (rows_found index queries n i) ≡ n
  length-rows_found index queries zero i = refl
  length-rows_found index queries (suc n) i = ap suc (length-rows_found index queries n (suc i))

  label_rows_lem :
      (total : ℕ) (index : Index) (queries : List ℕ) (n i : ℕ) (before : List ℤ)
      → Answers total index
      → length before ≡ i * c.k
      → label_rows c.k (before ++ search_labels faiss m c index queries n i) n i
        ≡ some (rows_found index queries n i)
  unfolding label_rows search_labels
  label_rows_lem total index queries zero i before answers size = refl
  label_rows_lem total index queries (suc n) i before answers size =
      let row = search index (row_at c.vector_dim queries i) c.k in
      let (k_labels, known) = answers (row_at c.vector_dim queries i) in
      let later = search_labels faiss m c index queries n (suc i) in
      let behind : drop (i * c.k) (before ++ (row ++ later)) ≡ row ++ later =
        ap (λ d. drop d (before ++ (row ++ later))) (sym size)
        ∙ drop-append before (row ++ later) in
      let first : label_row c.k (row ++ later) ≡ some (map pos_part row) =
        ap (λ d. label_row d (row ++ later)) (sym k_labels) ∙ label_row_lem total row later known in
      let next_place : suc i * c.k ≡ i * c.k + c.k = grind arith in
      let next_size : length (before ++ row) ≡ suc i * c.k =
        length-append before row ∙ omega (arith, size, k_labels, next_place) in
      >>=-of_some _ (ap (label_row c.k) behind ∙ first) (
        >>=-of_some _
          (ap (λ labels. label_rows c.k labels n (suc i)) (sym (append_assoc before row later))
            ∙ label_rows_lem total index queries n (suc i) (before ++ row) answers next_size)
          refl)

  rows_found-InRange :
      (total : ℕ) (index : Index) (queries : List ℕ) (i : ℕ) (gt : List (List ℤ))
      → Answers total index
      → All (λ (truth : List ℤ). (c.k ≤ length truth) × All (IsIndex total) truth) gt
      → RowsInRange total c.k (rows_found index queries (length gt) i) gt
  rows_found-InRange total index queries i [] answers good = tt
  rows_found-InRange total index queries i (truth ∷ gt) answers good =
      let (k_labels, known) = answers (row_at c.vector_dim queries i) in
      let row = search index (row_at c.vector_dim queries i) c.k in
      (
        length-map row pos_part ∙ k_labels,
        good.0.0,
        indices-Below total row known,
        good.0.1,
        rows_found-InRange total index queries (suc i) gt answers good.1,
      )

  -- What the program relies on: adding is additive, an index is read back from its file, and the flat
  -- index with all base vectors names k of them for every query.
  pub record IsServed (base : List ℕ) : Type 0 where
    pub additive : IsAdditive faiss
    pub stored : (index : Index) → read_index (write_index index) ≡ some index
    pub answers : Answers c.n_base_vectors (add (flat_l2 c.vector_dim) c.n_base_vectors base)

  -- The files hold what the configuration says, and the ground truth names vectors.
  pub record HoldsFiles (base queries : List ℕ) (gt : List (List ℤ)) : Type 0 where
    pub base_file :
        read_file_as_flat_array (m.file c.base_vector_path) c.n_base_vectors c.vector_dim
        ≡ some base
    pub query_file :
        read_file_as_flat_array (m.file c.query_vector_path) c.n_query_vectors c.vector_dim
        ≡ some queries
    pub truth_file : read_gt_vectors (m.file c.gt_vector_path) c.n_query_vectors c.k_in_gt ≡ some gt
    pub truths : All (λ (truth : List ℤ). All (IsIndex c.n_base_vectors) truth) gt
    pub output : m.writable c.metrics_path ≡ true

  -- The mode and the new index.
  pub record IsFlatBuild : Type 0 where
    pub flat : is_mode faiss m c (text "flat") ≡ true
    pub not_hnsw : is_mode faiss m c (text "hnsw") ≡ false
    pub not_ivf : is_mode faiss m c (text "ivf") ≡ false
    pub new_index : c.reuse_index ≡ false
    pub batches : 0 < c.faiss_ivfflat_ingest_batch_size

  module _ (base queries : List ℕ) (gt : List (List ℤ)) where
    abbrev pub built : Index
    built = add (flat_l2 c.vector_dim) c.n_base_vectors base

    abbrev pub found : List (List ℕ)
    found = rows_found built queries c.n_query_vectors 0

    -- The metrics with the recall of what the index has named, and with the size of its file.
    abbrev pub IsReported : Bytes → Type 0
    IsReported out =
        (hits : ℕ) × (average : (ℕ × ℕ) × ℕ) × (out
          ≡ write_json (
              search_fields m c (hits, c.k * c.n_query_vectors) average
                (length (write_index built))))
        × (hits + all_misses c.k found gt ≡ c.k * c.n_query_vectors)

    search_and_report-IsReported :
        IsUsable c
        → IsServed base
        → HoldsFiles base queries gt
        → Returns IsReported (search_and_report faiss m c built (write_index built))
    unfolding search_and_report write_metrics read_numbers
    search_and_report-IsReported u serves d =
        let (count, sizes) =
          read_gt_vectors-sizes (m.file c.gt_vector_path) c.n_query_vectors c.k_in_gt
            d.truth_file in
        let numbers : read_numbers (m.file c.base_vector_path) c.n_base_vectors c.vector_dim
            ≡ some (map float_units base) =
          >>=-of_some _ d.base_file refl in
        let query_numbers : read_numbers (m.file c.query_vector_path) c.n_query_vectors c.vector_dim
            ≡ some (map float_units queries) =
          >>=-of_some _ d.query_file refl in
        let size =
          length-read_numbers (m.file c.base_vector_path) c.n_base_vectors c.vector_dim numbers in
        let query_size =
          length-read_numbers (m.file c.query_vector_path) c.n_query_vectors c.vector_dim
            query_numbers in
        let good =
          with_sizes c.k c.k_in_gt (IsIndex c.n_base_vectors) gt u.k_in_gt sizes d.truths in
        let in_range =
          subst (λ (n : ℕ). RowsInRange c.n_base_vectors c.k (rows_found built queries n 0) gt)
            count (rows_found-InRange c.n_base_vectors built queries 0 gt serves.answers good) in
        let ((average, averaged, _), (hits, counted, share)) =
          metrics-defined (map float_units base) (map float_units queries) c.vector_dim
            c.n_base_vectors c.n_query_vectors c.k found gt u.dim u.some_k u.queries size query_size
            (length-rows_found built queries c.n_query_vectors 0) in_range in
        (
          write_json (search_fields m c hits average (length (write_index built))),
          >>=-of_some _ d.query_file (
              >>=-of_some _
                (label_rows_lem c.n_base_vectors built queries c.n_query_vectors 0 [] serves.answers
                  (omega arith))
                (>>=-of_some _ d.truth_file (
                  >>=-of_some _ numbers
                    (>>=-of_some _ averaged (>>=-of_some _ counted (rw (d.output) refl)))))),
          (
            hits.0,
            average,
            ap
                (λ n.
                  write_json (search_fields m c (hits.0, n) average (length (write_index built))))
                share.1,
            share.0 ∙ share.1,
          ),
        )

    index_file-built :
        IsServed base
        → HoldsFiles base queries gt
        → IsFlatBuild
        → index_file faiss m c (flat_l2 c.vector_dim) ≡ some (write_index built)
    unfolding index_file
    index_file-built serves d way = rw (way.new_index) (
        >>=-of_some _
          (add_in_batches_lem faiss m c serves.additive c.faiss_ivfflat_ingest_batch_size
              (flat_l2 c.vector_dim) way.batches
            ∙ >>=-of_some _ d.base_file refl)
          refl)

    -- With a usable configuration that asks for a new flat index, on files that hold what it says, and with a
    -- library that keeps its promises, the engine comes to its end: the vectors are added in batches, the index
    -- is written and read, and the metrics have the share of the ids it names that are in the ground truth.
    pub run-flat-IsReported :
        IsUsable c
        → IsServed base
        → HoldsFiles base queries gt
        → IsFlatBuild
        → Returns IsReported (run faiss m c)
    unfolding run make_index tuned
    run-flat-IsReported u serves d way =
        let (out, report, good) = search_and_report-IsReported u serves d in
        (
          out,
          rw (way.flat) (
              >>=-of_some _ (index_file-built serves d way) (
                >>=-of_some _ (serves.stored built)
                  (rw (way.not_hnsw, way.not_ivf, way.new_index) report))),
          good,
        )
