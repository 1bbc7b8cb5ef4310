-- ===== src/Pgvector/Copied.antt =====
-- The whole stream of bytes that `copy_vectors` of pgvector/pgvector_benchmark.cpp sends.
use mathlib.Core.Path.{ap₂, fun_ext}
use native.Mathlib.Nat.{add-zero}
use mathlib.Core.List.{append_assoc, append-nil}
use spheres_benchmark.Prelude.{
  ℕ, zero, suc, ◌+◌, ◌*◌, ◌≡◌, sym, ap, ◌∙◌, Option, none, some, List, [], ◌∷◌, ◌++◌, arith, length,
  ◌>>=◌, bind_assoc, bind_none, row_at, rows_from, rows_from-append, length-rows_from,
}
use spheres_benchmark.Harness.Bytes.{Bytes}
use spheres_benchmark.Harness.Args.{BenchmarkConfig}
use spheres_benchmark.Harness.Vectors.{read_file_as_flat_array}
use spheres_benchmark.Harness.Batches.{IsBatched, each_batch_lem, open_reader, each_batch}
use spheres_benchmark.Pgvector.{
  append_u16, append_u32, append_u64, copy_header, append_elements, append_row, append_rows,
  copy_batch, copy_vectors,
}

pub append_elements_lem :
    (payload : Bytes) (vector : List ℕ)
    → append_elements payload vector ≡ payload ++ append_elements [] vector
unfolding append_elements append_u32
append_elements_lem payload [] = sym (append-nil payload)
append_elements_lem payload (column ∷ vector) =
    append_elements_lem (append_u32 payload column) vector
    ∙ append_assoc payload (append_u32 [] column) (append_elements [] vector)
    ∙ ap (λ b. payload ++ b) (sym (append_elements_lem (append_u32 [] column) vector))

-- What stands before the elements of a vector.
abbrev pub fields : ℕ → Bytes → ℕ → Bytes
fields dim payload id =
    append_u16
      (append_u16 (append_u32 (append_u64 (append_u32 (append_u16 payload 2) 8) id) (4 + dim * 4))
        dim)
      0

abbrev pub fields_bytes : ℕ → ℕ → Bytes
fields_bytes dim id = fields dim [] id

fields_lem :
    (dim : ℕ) (payload : Bytes) (id : ℕ) → fields dim payload id ≡ payload ++ fields_bytes dim id
unfolding append_u16 append_u32 append_u64
fields_lem dim payload id = simp append_assoc

append_row_lem :
    (dim : ℕ) (payload : Bytes) (id : ℕ) (vector : List ℕ)
    → append_row dim payload id vector ≡ payload ++ append_row dim [] id vector
unfolding append_row append_u16 append_u32 append_u64
append_row_lem dim payload id vector =
    let field = fields_bytes dim id in
    ap (λ b. append_elements b vector) (fields_lem dim payload id)
    ∙ append_elements_lem (payload ++ field) vector
    ∙ append_assoc payload field (append_elements [] vector)
    ∙ ap (λ b. payload ++ b) (sym (append_elements_lem field vector))

-- Rows as the stream has them, the first of them under an id.
abbrev pub row_stream : ℕ → ℕ → List (List ℕ) → Bytes
row_stream dim id [] = []
row_stream dim id (vector ∷ rows) = append_row dim [] id vector ++ row_stream dim (suc id) rows

append_rows_lem :
    (dim : ℕ) (batch : List ℕ) (copied rows row : ℕ) (payload : Bytes)
    → append_rows dim batch copied rows row payload
      ≡ payload ++ row_stream dim (copied + row) (rows_from dim batch rows row)
unfolding append_rows
append_rows_lem dim batch copied zero row payload = sym (append-nil payload)
append_rows_lem dim batch copied (suc rows) row payload =
    let vector = row_at dim batch row in
    let next : copied + suc row ≡ suc (copied + row) = omega arith in
    append_rows_lem dim batch copied rows (suc row) (append_row dim payload (copied + row) vector)
    ∙ ap (λ b. b ++ row_stream dim (copied + suc row) (rows_from dim batch rows (suc row)))
        (append_row_lem dim payload (copied + row) vector)
    ∙ append_assoc payload (append_row dim [] (copied + row) vector)
        (row_stream dim (copied + suc row) (rows_from dim batch rows (suc row)))
    ∙ ap
        (λ i.
          payload
          ++ (append_row dim [] (copied + row) vector
              ++ row_stream dim i (rows_from dim batch rows (suc row))))
        next

row_stream-append :
    (dim id : ℕ) (xs ys : List (List ℕ))
    → row_stream dim id (xs ++ ys) ≡ row_stream dim id xs ++ row_stream dim (id + length xs) ys
row_stream-append dim id [] ys = ap (λ i. row_stream dim i ys) (sym (add-zero id))
row_stream-append dim id (x ∷ xs) ys =
    let next : suc id + length xs ≡ id + suc (length xs) = omega arith in
    ap (λ b. append_row dim [] id x ++ b) (row_stream-append dim (suc id) xs ys)
    ∙ sym (
        append_assoc (append_row dim [] id x) (row_stream dim (suc id) xs)
          (row_stream dim (suc id + length xs) ys))
    ∙ ap (λ i. (append_row dim [] id x ++ row_stream dim (suc id) xs) ++ row_stream dim i ys) next

-- What the program relies on of `PQputCopyData`: how the stream is cut does not matter.
pub record IsStream {ℓ} {S : Type ℓ} (put : S → Bytes → Option S) : Type ℓ where
  pub nothing : (s : S) → put s [] ≡ some s
  pub joined : (s : S) (xs ys : Bytes) → put s (xs ++ ys) ≡ (put s xs >>= λ t. put t ys)

-- The whole stream: the header, the rows, and the trailer.
abbrev pub copy_stream : ℕ → List (List ℕ) → Bytes
copy_stream dim rows = copy_header ++ (row_stream dim 0 rows ++ 255 ∷ 255 ∷ [])

module _ {ℓ} {S : Type ℓ} (put : S → Bytes → Option S) (stream : IsStream put) where
  copy_batch_lem :
      (dim : ℕ) (s : S) (copied rows : ℕ) (batch : List ℕ)
      → copy_batch put dim s copied rows batch
        ≡ put s (row_stream dim copied (rows_from dim batch rows 0))
  unfolding copy_batch
  copy_batch_lem dim s copied rows batch = ap (put s) (
      append_rows_lem dim batch copied rows 0 []
      ∙ ap (λ i. row_stream dim i (rows_from dim batch rows 0)) (add-zero copied))

  copy_batch-IsBatched : (dim : ℕ) → IsBatched dim (copy_batch put dim)
  copy_batch-IsBatched dim = record {
    nothing = λ s added. copy_batch_lem dim s added 0 [] ∙ stream.nothing s;
    joined = λ s added a b xs ys size size'. joined s added a b xs ys size;
  }
    where
      joined :
          (s : S) (added a b : ℕ) (xs ys : List ℕ)
          → length xs ≡ a * dim
          → copy_batch put dim s added (a + b) (xs ++ ys)
            ≡ (copy_batch put dim s added a xs >>= λ s'. copy_batch put dim s' (added + a) b ys)
      joined s added a b xs ys size =
          let count = length-rows_from dim xs a 0 in
          copy_batch_lem dim s added (a + b) (xs ++ ys)
          ∙ ap (λ rows. put s (row_stream dim added rows)) (rows_from-append dim a b xs ys size)
          ∙ ap (put s) (row_stream-append dim added (rows_from dim xs a 0) (rows_from dim ys b 0))
          ∙ stream.joined s (row_stream dim added (rows_from dim xs a 0)) _
          ∙ ap₂ (λ m k. m >>= k) (sym (copy_batch_lem dim s added a xs))
              (fun_ext λ s'.
                ap (λ n. put s' (row_stream dim (added + n) (rows_from dim ys b 0))) count
                ∙ sym (copy_batch_lem dim s' (added + a) b ys))

  -- From the header on, with all vectors at hand.
  abbrev send : ℕ → ℕ → S → List ℕ → (S → Option S) → Option S
  send dim n t vectors finish = put t (copy_stream dim (rows_from dim vectors n 0)) >>= finish

  trailed :
      (dim n : ℕ) (headed : S) (vectors : List ℕ) (finish : S → Option S)
      → (copy_batch put dim headed 0 n vectors >>= λ copied. put copied (255 ∷ 255 ∷ []) >>= finish)
        ≡ (put headed (row_stream dim 0 (rows_from dim vectors n 0) ++ 255 ∷ 255 ∷ []) >>= finish)
  trailed dim n headed vectors finish =
      let rows = row_stream dim 0 (rows_from dim vectors n 0) in
      ap (λ m. m >>= λ copied. put copied (255 ∷ 255 ∷ []) >>= finish)
        (copy_batch_lem dim headed 0 n vectors)
      ∙ bind_assoc (put headed rows) (λ copied. put copied (255 ∷ 255 ∷ [])) finish
      ∙ ap (λ m. m >>= finish) (sym (stream.joined headed rows (255 ∷ 255 ∷ [])))

  all_sent :
      (dim n : ℕ) (t : S) (vectors : List ℕ) (finish : S → Option S)
      → (put t copy_header >>= λ headed. copy_batch put dim headed 0 n vectors >>= λ copied.
          put copied (255 ∷ 255 ∷ []) >>= finish)
        ≡ send dim n t vectors finish
  all_sent dim n t vectors finish =
      let rest = row_stream dim 0 (rows_from dim vectors n 0) ++ 255 ∷ 255 ∷ [] in
      ap (λ k. put t copy_header >>= k) (fun_ext λ headed. trailed dim n headed vectors finish)
      ∙ bind_assoc (put t copy_header) (λ headed. put headed rest) finish
      ∙ ap (λ m. m >>= finish) (sym (stream.joined t copy_header rest))

  batches_sent :
      (file : Option Bytes) (dim n : ℕ) (headed : S) (g : S → Option S)
      → (open_reader file dim >>= λ reader.
          each_batch (copy_batch put dim) 1000 n (suc n) reader 0 headed >>= g)
        ≡ (read_file_as_flat_array file n dim >>= λ vectors.
            copy_batch put dim headed 0 n vectors >>= g)
  batches_sent file dim n headed g =
      bind_assoc (open_reader file dim)
        (λ reader. each_batch (copy_batch put dim) 1000 n (suc n) reader 0 headed) g
      ∙ ap (λ m. m >>= g)
          (each_batch_lem (copy_batch put dim) 1000 n file dim headed (copy_batch-IsBatched dim)
            (omega arith))
      ∙ sym (
          bind_assoc (read_file_as_flat_array file n dim)
            (λ vectors. copy_batch put dim headed 0 n vectors) g)

  -- The copying sends the stream of all vectors of the file, under the ids from 0 on, in whatever batches
  -- it reads them; it fails exactly when the server does not take the stream or the file is not as it should be.
  pub copy_vectors-copy_stream :
      (start finish : S → Option S) (file : Option Bytes) (config : BenchmarkConfig) (s : S)
      → copy_vectors put start finish file config s ≡ (
          start s >>= λ t.
          read_file_as_flat_array file config.n_base_vectors config.vector_dim >>= λ vectors.
          put t (
            copy_stream config.vector_dim
              (rows_from config.vector_dim vectors config.n_base_vectors 0))
          >>= finish)
  unfolding copy_vectors
  copy_vectors-copy_stream start finish file config s =
      let dim = config.vector_dim in
      let n = config.n_base_vectors in
      ap (λ k. start s >>= k)
        (fun_ext λ t.
          ap (λ k. put t copy_header >>= k)
            (fun_ext λ headed.
              batches_sent file dim n headed (λ copied. put copied (255 ∷ 255 ∷ []) >>= finish))
          ∙ read_first dim n t finish (read_file_as_flat_array file n dim))
    where
      read_first :
          (dim n : ℕ) (t : S) (finish : S → Option S) (m : Option (List ℕ))
          → (put t copy_header >>= λ headed. m >>= λ vectors.
              copy_batch put dim headed 0 n vectors >>= λ copied.
              put copied (255 ∷ 255 ∷ []) >>= finish)
            ≡ (m >>= λ vectors. send dim n t vectors finish)
      read_first dim n t finish none = bind_none (put t copy_header)
      read_first dim n t finish (some vectors) = all_sent dim n t vectors finish
