-- ===== src/Harness/Vectors.antt =====
-- `read_file_as_vectors`, `read_gt_vectors` and `read_file_as_flat_array` of
-- include/benchmark_config.h and `FvecsBatchReader` of include/fvecs_stream.h. A stream is the bytes
-- that are left of it, an element its 32 bits, and `none` what the code throws.
use native.Mathlib.Nat.{mod-eq_of_lt, zero-add}
use mathlib.Core.Path.{subst}
use mathlib.Core.List.{append_assoc}
use spheres_benchmark.Prelude.{
  ℕ, zero, suc, ◌+◌, ◌*◌, ◌/◌, ◌%◌, ◌^◌, ◌<◌, ◌≡◌, inl, inr, Option-cases, true, refl, ap, ◌∙◌,
  Option, none, some, List, [], ◌∷◌, ◌++◌, arith, length, concat, ◌==◌, if◌then◌else◌, ◌>>=◌,
  >>=-of_some, All,
}
use spheres_benchmark.Harness.Bytes.{Bytes}
pub mod Sizes

-- Four bytes of the stream, the lowest one first.
unfoldable pub read_word : Bytes → Option (ℕ × Bytes)
read_word (a ∷ b ∷ c ∷ d ∷ rest) = some (a + 256 * (b + 256 * (c + 256 * d)), rest)
read_word rest = none

-- `dim` elements.
unfoldable pub read_elements : ℕ → Bytes → Option (List ℕ × Bytes)
unfolding read_word
read_elements zero stream = some ([], stream)
read_elements (suc dim) stream = do
  (w, rest) ← read_word stream
  (ws, left) ← read_elements dim rest
  some (w ∷ ws, left)

-- The body of the loop over the rows: the dimension, which must be `dim`, and the elements.
unfoldable pub read_row : ℕ → Bytes → Option (List ℕ × Bytes)
unfolding read_elements
read_row dim stream = do
  (d, rest) ← read_word stream
  if d == dim % 2 ^ 32 then read_elements dim rest else none

-- The loop over the rows. The code counts them in an int, which is not wrapped here.
unfoldable pub read_rows : ℕ → ℕ → Bytes → Option (List (List ℕ) × Bytes)
unfolding read_row
read_rows zero dim stream = some ([], stream)
read_rows (suc rows) dim stream = do
  (row, rest) ← read_row dim stream
  (vectors, left) ← read_rows rows dim rest
  some (row ∷ vectors, left)

-- Also `read_gt_vectors`, whose elements are of 32 bits too. The file is `none` if it does not open.
unfoldable pub read_file_as_vectors : Option Bytes → ℕ → ℕ → Option (List (List ℕ))
unfolding read_rows
read_file_as_vectors file rows dim = do
  ins ← file
  (vectors, left) ← read_rows rows dim ins
  some vectors

-- The loop that reads each row into its place in one array.
unfoldable pub read_flat : ℕ → ℕ → Bytes → Option (List ℕ × Bytes)
unfolding read_row
read_flat zero dim stream = some ([], stream)
read_flat (suc rows) dim stream = do
  (row, rest) ← read_row dim stream
  (vectors, left) ← read_flat rows dim rest
  some (row ++ vectors, left)

unfoldable pub read_file_as_flat_array : Option Bytes → ℕ → ℕ → Option (List ℕ)
unfolding read_flat
read_file_as_flat_array file rows dim = do
  ins ← file
  (vectors, left) ← read_flat rows dim ins
  some vectors

-- `FvecsBatchReader`, which keeps what is left of its stream between the batches.
pub record FvecsBatchReader : Type 0 where
  pub dim_ : ℕ
  pub input_ : Bytes
  pub buffer_ : List ℕ

unfoldable pub read : FvecsBatchReader → ℕ → Option FvecsBatchReader
unfolding read_flat
read reader requested_rows = do
  (vectors, left) ← read_flat requested_rows reader.dim_ reader.input_
  some (record reader { input_ = left; buffer_ = vectors })

-- The format, written: each row as its dimension and its elements.
abbrev pub word_bytes : ℕ → Bytes
word_bytes w = w % 256 ∷ w / 256 % 256 ∷ w / 256 / 256 % 256 ∷ w / 256 / 256 / 256 ∷ []

abbrev pub element_bytes : List ℕ → Bytes
element_bytes [] = []
element_bytes (w ∷ ws) = word_bytes w ++ element_bytes ws

abbrev pub file_bytes : ℕ → List (List ℕ) → Bytes
file_bytes dim [] = []
file_bytes dim (row ∷ vectors) = word_bytes dim ++ (element_bytes row ++ file_bytes dim vectors)

word_bytes_lem :
    (w : ℕ)
    → w % 256 + 256 * (w / 256 % 256 + 256 * (w / 256 / 256 % 256 + 256 * (w / 256 / 256 / 256)))
      ≡ w
word_bytes_lem w = omega arith

read_elements_lem :
    (ws : List ℕ) (rest : Bytes)
    → read_elements (length ws) (element_bytes ws ++ rest) ≡ some (ws, rest)
unfolding read_elements
read_elements_lem [] rest = refl
read_elements_lem (w ∷ ws) rest = rw (read_elements_lem ws rest, word_bytes_lem w) refl

read_row_lem :
    (dim : ℕ) (row : List ℕ) (rest : Bytes)
    → dim < 2 ^ 32
    → length row ≡ dim
    → read_row dim (word_bytes dim ++ (element_bytes row ++ rest)) ≡ some (row, rest)
unfolding read_row
read_row_lem dim row rest small size =
    let same : dim == dim % 2 ^ 32 ≡ true = ground (arith, mod-eq_of_lt small) in
    rw (word_bytes_lem dim, same)
      (subst (λ (n : ℕ). read_elements n (element_bytes row ++ rest) ≡ some (row, rest)) size
        (read_elements_lem row rest))

read_rows_lem :
    (dim : ℕ) (vectors : List (List ℕ)) (rest : Bytes)
    → dim < 2 ^ 32
    → All (λ (row : List ℕ). length row ≡ dim) vectors
    → read_rows (length vectors) dim (file_bytes dim vectors ++ rest) ≡ some (vectors, rest)
unfolding read_rows
read_rows_lem dim [] rest small sizes = refl
read_rows_lem dim (row ∷ vectors) rest small sizes = rw append_assoc (
    >>=-of_some _ (read_row_lem dim row (file_bytes dim vectors ++ rest) small sizes.0)
      (>>=-of_some _ (read_rows_lem dim vectors rest small sizes.1) refl))

-- Vectors of `dim` elements, written in the format of the files, are read back, whatever stands behind
-- them in the file. The dimension fits 32 bits.
pub read_file_as_vectors-file_bytes :
    (dim : ℕ) (vectors : List (List ℕ)) (rest : Bytes)
    → dim < 2 ^ 32
    → All (λ (row : List ℕ). length row ≡ dim) vectors
    → read_file_as_vectors (some (file_bytes dim vectors ++ rest)) (length vectors) dim
      ≡ some vectors
unfolding read_file_as_vectors
read_file_as_vectors-file_bytes dim vectors rest small sizes =
    >>=-of_some _ (read_rows_lem dim vectors rest small sizes) refl

read_flat_lem :
    (rows dim : ℕ) (stream : Bytes)
    → read_flat rows dim stream ≡ (read_rows rows dim stream >>= λ r. some (concat r.0, r.1))
unfolding read_flat read_rows
read_flat_lem zero dim stream = refl
read_flat_lem (suc rows) dim stream = elim (Option-cases (read_row dim stream)) [
  | inl e ↦ rw e refl
  | inr ((row, rest), e) ↦ elim (Option-cases (read_rows rows dim rest)) [
    | inl e' ↦ rw (e, read_flat_lem rows dim rest, e') refl
    | inr (r, e') ↦ rw (e, read_flat_lem rows dim rest, e') refl
  ]
]

-- The flat array has the rows of the vectors one behind the other, and is refused exactly when they are.
pub read_file_as_flat_array-concat :
    (file : Option Bytes) (rows dim : ℕ)
    → read_file_as_flat_array file rows dim
      ≡ (read_file_as_vectors file rows dim >>= λ vectors. some (concat vectors))
unfolding read_file_as_flat_array read_file_as_vectors
read_file_as_flat_array-concat none rows dim = refl
read_file_as_flat_array-concat (some ins) rows dim = elim (Option-cases (read_rows rows dim ins)) [
  | inl e ↦ rw (read_flat_lem rows dim ins, e) refl
  | inr (r, e) ↦ rw (read_flat_lem rows dim ins, e) refl
]

abbrev pub in_front : List ℕ → List ℕ × Bytes → List ℕ × Bytes
in_front xs q = (xs ++ q.0, q.1)

sum_suc : (a b : ℕ) → suc a + b ≡ suc (a + b)
sum_suc a b = omega arith

bind_self : (m : Option (List ℕ × Bytes)) → m ≡ (m >>= λ q. some (in_front [] q))
bind_self none = refl
bind_self (some q) = refl

read_flat-row :
    (a b dim : ℕ)
    → ((stream : Bytes)
        → read_flat (a + b) dim stream
          ≡ (read_flat a dim stream >>= λ r. read_flat b dim r.1 >>= λ q. some (in_front r.0 q)))
    → (m : Option (List ℕ × Bytes))
    → (m >>= λ x. read_flat (a + b) dim x.1 >>= λ y. some (in_front x.0 y)) ≡ (
        (m >>= λ x. read_flat a dim x.1 >>= λ y. some (in_front x.0 y)) >>= λ r.
        read_flat b dim r.1 >>= λ q. some (in_front r.0 q))
read_flat-row a b dim ih none = refl
read_flat-row a b dim ih (some (row, rest)) =
    rw (ih rest) (elim (Option-cases (read_flat a dim rest)) [
      | inl e ↦ rw e refl
      | inr ((x, left), e) ↦ elim (Option-cases (read_flat b dim left)) [
        | inl e' ↦ rw (e, e') refl
        | inr (y, e') ↦ rw (e, e', append_assoc row x y.0) refl
      ]
    ])

pub read_flat-add :
    (a b dim : ℕ) (stream : Bytes)
    → read_flat (a + b) dim stream
      ≡ (read_flat a dim stream >>= λ r. read_flat b dim r.1 >>= λ q. some (in_front r.0 q))
unfolding read_flat
read_flat-add zero b dim stream =
    ap (λ n. read_flat n dim stream) (zero-add b) ∙ bind_self (read_flat b dim stream)
read_flat-add (suc a) b dim stream =
    ap (λ n. read_flat n dim stream) (sum_suc a b)
    ∙ read_flat-row a b dim (read_flat-add a b dim) (read_row dim stream)

-- What a batch leaves: its elements and the rest of the stream.
abbrev pub left_by : FvecsBatchReader → List ℕ × Bytes
left_by r = (r.buffer_, r.input_)

abbrev pub left_by_both : FvecsBatchReader → FvecsBatchReader → List ℕ × Bytes
left_by_both r q = (r.buffer_ ++ q.buffer_, q.input_)

-- Two batches in a row have the elements that one batch of their size would have, and leave the stream at
-- the same place; they are refused exactly when that one is.
pub read_add :
    (reader : FvecsBatchReader) (a b : ℕ)
    → (read reader (a + b) >>= λ r. some (left_by r))
      ≡ (read reader a >>= λ r. read r b >>= λ q. some (left_by_both r q))
unfolding read
read_add reader a b =
    let stream = reader.input_ in
    let dim = reader.dim_ in
    rw (read_flat-add a b dim stream) (elim (Option-cases (read_flat a dim stream)) [
      | inl e ↦ rw e refl
      | inr ((x, left), e) ↦ elim (Option-cases (read_flat b dim left)) [
        | inl e' ↦ rw (e, e') refl
        | inr (y, e') ↦ rw (e, e') refl
      ]
    ])
