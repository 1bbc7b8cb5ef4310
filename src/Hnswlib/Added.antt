-- ===== src/Hnswlib/Added.antt =====
-- The vectors that the program of hnswlib/hnswlib_benchmark.cpp adds to its index, and their ids.
use mathlib.Core.Path.{subst}
use native.Mathlib.Nat.{add-zero}
use spheres_benchmark.Prelude.{
  ℕ, zero, suc, ◌+◌, ◌-◌, ◌*◌, ◌≤◌, ◌<◌, ◌≡◌, refl, sym, ap, ◌∙◌, inl, inr, Option, some, List, [],
  ◌∷◌, ◌++◌, map, arith, length, min, ltb, Bool-cases, >>=-of_some, >>=-eq-some, some_injective,
  Returns, total, total-append, SameItems, row_at, rows_from, rows_from-append, length-rows_from,
}
use spheres_benchmark.Prefill.{Entry}
use spheres_benchmark.Spheres.{with_ids}
use spheres_benchmark.Harness.Args.{BenchmarkConfig}
use spheres_benchmark.Harness.Machine.{Machine}
use spheres_benchmark.Harness.Vectors.{FvecsBatchReader, read, read_flat, read_file_as_flat_array}
use spheres_benchmark.Harness.Batches.{open_reader, each_batch, read_both, read-sizes}
use spheres_benchmark.Hnswlib.{HnswLibrary, HnswSettings, add_rows, build_index}

with_ids-append :
    (id : ℕ) (xs ys : List (List ℕ))
    → with_ids id (xs ++ ys) ≡ with_ids id xs ++ with_ids (id + length xs) ys
unfolding with_ids
with_ids-append id [] ys = ap (λ i. with_ids i ys) (sym (add-zero id))
with_ids-append id (x ∷ xs) ys =
    let next : suc id + length xs ≡ id + suc (length xs) = omega arith in
    ap (◌∷◌ (id, x))
      (with_ids-append (suc id) xs ys ∙ ap (λ i. with_ids (suc id) xs ++ with_ids i ys) next)

-- The rows of a batch in their order.
abbrev pub upto : ℕ → ℕ → List ℕ
upto zero i = []
upto (suc n) i = i ∷ upto n (suc i)

total-map {ℓ κ} :
    {A : Type ℓ} {B : Type κ} (f : B → ℕ) (g : A → B) (xs : List A)
    → total f (map g xs) ≡ total (λ x. f (g x)) xs
total-map f g [] = refl
total-map f g (x ∷ xs) = omega (arith, total-map f g xs)

module _ (dim : ℕ) (batch : List ℕ) (added : ℕ) where
  abbrev entry_of : ℕ → Entry
  entry_of row = (added + row, row_at dim batch row)

  total-upto :
      (f : Entry → ℕ) (rows i : ℕ)
      → total (λ row. f (entry_of row)) (upto rows i)
        ≡ total f (with_ids (added + i) (rows_from dim batch rows i))
  unfolding with_ids
  total-upto f zero i = refl
  total-upto f (suc rows) i =
      let next : added + suc i ≡ suc (added + i) = omega arith in
      omega (
        arith,
        total-upto f rows (suc i),
        ap (λ n. total f (with_ids n (rows_from dim batch rows (suc i)))) next,
      )

  batch-SameItems :
      (order : List ℕ) (rows : ℕ)
      → SameItems order (upto rows 0)
      → SameItems (map entry_of order) (with_ids added (rows_from dim batch rows 0))
  batch-SameItems order rows same f =
      total-map f entry_of order
      ∙ same (λ row. f (entry_of row))
      ∙ total-upto f rows 0
      ∙ ap (λ n. total f (with_ids n (rows_from dim batch rows 0))) (add-zero added)

module _ (lib : HnswLibrary) (m : Machine) (config : BenchmarkConfig)
    (settings : HnswSettings) where
  open lib use {Index, hierarchical, set_ef, add_point}

  -- Entries are added one by one.
  abbrev pub add_all : Index → List Entry → Index
  add_all index [] = index
  add_all index (e ∷ entries) = add_all (add_point index e.1 e.0) entries

  add_all-append :
      (index : Index) (xs ys : List Entry)
      → add_all index (xs ++ ys) ≡ add_all (add_all index xs) ys
  add_all-append index [] ys = refl
  add_all-append index (x ∷ xs) ys = add_all-append (add_point index x.1 x.0) xs ys

  add_rows_lem :
      (batch : List ℕ) (added : ℕ) (order : List ℕ) (index : Index)
      → add_rows lib m config settings batch added order index
        ≡ add_all index (map (entry_of config.vector_dim batch added) order)
  unfolding add_rows
  add_rows_lem batch added [] index = refl
  add_rows_lem batch added (row ∷ order) index =
      add_rows_lem batch added order
        (add_point index (row_at config.vector_dim batch row) (added + row))

  -- The index is one to which the vectors, under the ids from one on, have been added, each once.
  abbrev pub HasAdded : Index → ℕ → List (List ℕ) → Index → Type 0
  HasAdded before id vectors index =
      (entries : List Entry) × SameItems entries (with_ids id vectors)
      × (index ≡ add_all before entries)

  module _ (orders : ℕ → List ℕ)
      (ordered : (added : ℕ)
        → SameItems (orders added) (upto (min 10000 (config.n_base_vectors - added)) 0)) where
    abbrev body : Index → ℕ → ℕ → List ℕ → Option Index
    body index added rows batch =
        some (add_rows lib m config settings batch added (orders added) index)

    abbrev n : ℕ
    n = config.n_base_vectors

    batch_and_rest :
        (before : Index) (added a b : ℕ) (xs ys : List ℕ) (index : Index)
        → SameItems (orders added) (upto a 0)
        → length xs ≡ a * config.vector_dim
        → HasAdded
            (add_rows lib m config settings xs added (orders added) before)
            (added + a)
            (rows_from config.vector_dim ys b 0)
            index
        → HasAdded before added (rows_from config.vector_dim (xs ++ ys) (a + b) 0) index
    batch_and_rest before added a b xs ys index order size (entries, same, e) =
        let dim = config.vector_dim in
        let first = map (entry_of dim xs added) (orders added) in
        let whole : with_ids added (rows_from dim (xs ++ ys) (a + b) 0)
            ≡ with_ids added (rows_from dim xs a 0) ++ with_ids (added + a) (rows_from dim ys b 0) =
          ap (with_ids added) (rows_from-append dim a b xs ys size)
          ∙ with_ids-append added (rows_from dim xs a 0) (rows_from dim ys b 0)
          ∙ ap
              (λ l.
                with_ids added (rows_from dim xs a 0)
                ++ with_ids (added + l) (rows_from dim ys b 0))
              (length-rows_from dim xs a 0) in
        (
          first ++ entries,
          λ f. omega (
            arith,
            total-append f first entries,
            batch-SameItems dim xs added (orders added) a order f,
            same f,
            total-append f (with_ids added (rows_from dim xs a 0))
                (with_ids (added + a) (rows_from dim ys b 0)),
            ap (total f) whole,
          ),
          e
              ∙ ap (λ i. add_all i entries) (add_rows_lem xs added (orders added) before)
              ∙ sym (add_all-append before first entries),
        )

    batches-HasAdded :
        (fuel : ℕ) (reader : FvecsBatchReader) (added : ℕ) (before : Index) {r : FvecsBatchReader}
        → reader.dim_ ≡ config.vector_dim
        → read reader (n - added) ≡ some r
        → added ≤ n
        → n < added + fuel
        → Returns
            (HasAdded before added (rows_from config.vector_dim r.buffer_ (n - added) 0))
            (each_batch body 10000 n fuel reader added before)
    unfolding each_batch with_ids
    batches-HasAdded zero reader added before dim whole inside enough = absurd (omega arith)
    batches-HasAdded (suc fuel) reader added before {r} dim whole inside enough =
        elim (Bool-cases (ltb added n)) [
          | inr done ↦
              let none_left : n - added ≡ 0 = ground arith in
              rw (done, none_left) (before, refl, ([], λ f. refl, refl))
          | inl more ↦
              let rows = min 10000 (n - added) in
              let rest = n - (added + rows) in
              let parts : n - added ≡ rows + rest = ground arith in
              let (r1, run, h) =
                >>=-eq-some (read reader rows) _
                  (sym (read_both reader rows rest) ∙ ap (read reader) (sym parts) ∙ whole) in
              let (q, run', h') = >>=-eq-some (read r1 rest) _ h in
              let (same_dim, size) = read-sizes reader rows run in
              let next = add_rows lib m config settings r1.buffer_ added (orders added) before in
              let (index, looped, has) =
                batches-HasAdded fuel r1 (added + rows) next (same_dim ∙ dim) run' (ground arith)
                  (ground arith) in
              let joined : r1.buffer_ ++ q.buffer_ ≡ r.buffer_ =
                ap (λ (x : FvecsBatchReader). x.buffer_) (some_injective h') in
              rw more (
                index,
                >>=-of_some _ run looped,
                subst
                    (λ v. HasAdded before added (rows_from config.vector_dim v (n - added) 0) index)
                    joined
                    (subst
                      (λ l.
                        HasAdded before added
                          (rows_from config.vector_dim (r1.buffer_ ++ q.buffer_) l 0) index)
                      (sym parts)
                      (batch_and_rest before added rows rest r1.buffer_ q.buffer_ index
                        (ordered added) (size ∙ ap (λ d. rows * d) dim) has)),
              )
        ]

    -- If the file holds the vectors, and each batch is added in some order of its rows, the index is built: to an
    -- empty index each vector of the file has been added once, under its index as the id, and nothing else.
    pub build_index-HasAdded :
        (vectors : List ℕ)
        → read_file_as_flat_array (m.file config.base_vector_path) n config.vector_dim
          ≡ some vectors
        → Returns
            (HasAdded
              (set_ef
                (hierarchical config.vector_dim n settings.hnswlib_m
                  settings.hnswlib_ef_construction)
                settings.hnswlib_ef_search)
              0
              (rows_from config.vector_dim vectors n 0))
            (build_index lib m config settings orders)
    unfolding build_index open_reader read_file_as_flat_array read
    build_index-HasAdded vectors held =
        let dim = config.vector_dim in
        let (ins, file, h) = >>=-eq-some (m.file config.base_vector_path) _ held in
        let reader : FvecsBatchReader = record { dim_ = dim; input_ = ins; buffer_ = [] } in
        let (v, flat, h') = >>=-eq-some (read_flat n dim ins) _ h in
        let start =
          set_ef (hierarchical dim n settings.hnswlib_m settings.hnswlib_ef_construction)
            settings.hnswlib_ef_search in
        let opened : open_reader (m.file config.base_vector_path) dim ≡ some reader =
          >>=-of_some _ file refl in
        let whole : read reader n ≡ some (record { dim_ = dim; input_ = v.1; buffer_ = v.0 }) =
          >>=-of_some _ flat refl in
        let all : n - 0 ≡ n = omega arith in
        let (index, looped, has) =
          batches-HasAdded (suc n) reader 0 start refl (ap (read reader) all ∙ whole) (omega arith)
            (omega arith) in
        (
          index,
          >>=-of_some _ opened looped,
          subst (λ xs. HasAdded start 0 (rows_from dim xs n 0) index) (some_injective h')
              (subst (λ l. HasAdded start 0 (rows_from dim v.0 l 0) index) all has),
        )
