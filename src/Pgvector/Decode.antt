-- ===== src/Pgvector/Decode.antt =====
-- A reader of the binary format of COPY, by its documentation, for the stream of
-- pgvector/pgvector_benchmark.cpp.
use mathlib.Core.Path.{subst}
use mathlib.Core.List.{append_assoc}
use spheres_benchmark.Prelude.{
  ℕ, zero, suc, ◌+◌, ◌*◌, ◌/◌, ◌%◌, ◌^◌, ◌≤◌, ◌<◌, ◌≡◌, refl, sym, ap, ◌∙◌, true, ◌&&◌, Option,
  none, some, List, [], ◌∷◌, ◌++◌, arith, length, length-append, ◌==◌, if◌then◌else◌, ◌>>=◌,
  >>=-of_some, >>=-eq-some, some_injective, All, size_mod,
}
use spheres_benchmark.Harness.Bytes.{Bytes}
use spheres_benchmark.Pgvector.{
  append_u16, append_u32, append_u64, copy_header, append_elements, append_row,
}
use spheres_benchmark.Pgvector.Copied.{row_stream, copy_stream, append_elements_lem, fields_bytes}

abbrev pub read_u16 : Bytes → Option (ℕ × Bytes)
read_u16 (a ∷ b ∷ rest) = some (a * 256 + b, rest)
read_u16 rest = none

abbrev pub read_u32 : Bytes → Option (ℕ × Bytes)
read_u32 (a ∷ b ∷ c ∷ d ∷ rest) = some (((a * 256 + b) * 256 + c) * 256 + d, rest)
read_u32 rest = none

abbrev pub read_u64 : Bytes → Option (ℕ × Bytes)
read_u64 stream = do
  (high, rest) ← read_u32 stream
  (low, left) ← read_u32 rest
  some (high * 2 ^ 32 + low, left)

abbrev pub read_u32s : ℕ → Bytes → Option (List ℕ × Bytes)
read_u32s zero stream = some ([], stream)
read_u32s (suc n) stream = do
  (w, rest) ← read_u32 stream
  (ws, left) ← read_u32s n rest
  some (w ∷ ws, left)

-- A field of eight bytes, and a field with a vector, each behind its length.
abbrev pub read_tuple : Bytes → Option ((ℕ × List ℕ) × Bytes)
read_tuple stream = do
  (eight, rest1) ← read_u32 stream
  (id, rest2) ← read_u64 rest1
  (size, rest3) ← read_u32 rest2
  (dim, rest4) ← read_u16 rest3
  (unused, rest5) ← read_u16 rest4
  (vector, left) ← if eight == 8 && size == 4 + dim * 4 then read_u32s dim rest5 else none
  some ((id, vector), left)

-- Tuples of two fields, up to the trailer, with which the stream ends.
unfoldable pub read_tuples : ℕ → Bytes → Option (List (ℕ × List ℕ))
read_tuples zero stream = none
read_tuples (suc fuel) stream =
    let tuple = λ (rest : Bytes). (do
      (t, left) ← read_tuple rest
      ts ← read_tuples fuel left
      some (t ∷ ts)) in
    read_u16 stream >>= λ c.
    if c.0 == 65535
    then if length c.1 == 0 then some [] else none
    else if c.0 == 2
    then tuple c.1
    else none

abbrev pub strip : Bytes → Bytes → Option Bytes
strip [] stream = some stream
strip (h ∷ header) [] = none
strip (h ∷ header) (b ∷ stream) = if h == b then strip header stream else none

pub read_copy : Bytes → Option (List (ℕ × List ℕ))
read_copy stream = strip copy_header stream >>= λ rest. read_tuples (length rest) rest

-- The rows under their ids.
abbrev pub under_ids : ℕ → List (List ℕ) → List (ℕ × List ℕ)
under_ids id [] = []
under_ids id (vector ∷ rows) = (id, vector) ∷ under_ids (suc id) rows

word_lem :
    (v : ℕ)
    → ((v / 2 ^ 24 % 256 * 256 + v / 2 ^ 16 % 256) * 256 + v / 256 % 256) * 256 + v % 256
      ≡ v % 2 ^ 32
word_lem v = omega arith

read_u32s-elements :
    (vector : List ℕ) (rest : Bytes)
    → All (λ (w : ℕ). w < 2 ^ 32) vector
    → read_u32s (length vector) (append_elements [] vector ++ rest) ≡ some (vector, rest)
unfolding append_elements append_u32
read_u32s-elements [] rest small = refl
read_u32s-elements (w ∷ vector) rest small = rw (append_elements_lem (append_u32 [] w) vector) (
    let value : ((w / 2 ^ 24 % 256 * 256 + w / 2 ^ 16 % 256) * 256 + w / 256 % 256) * 256 + w % 256
        ≡ w =
      omega (arith, small.0) in
    rw (read_u32s-elements vector rest small.1, value) refl)

last_field :
    (dim id d size i : ℕ) (vector : List ℕ) (rest : Bytes)
    → d ≡ dim
    → size ≡ 4 + dim * 4
    → i ≡ id
    → length vector ≡ dim
    → All (λ (w : ℕ). w < 2 ^ 32) vector
    → ◌>>=◌ {B = (ℕ × List ℕ) × Bytes}
        (if 8 == 8 && size == 4 + d * 4
          then read_u32s d (append_elements [] vector ++ rest)
          else none)
        (λ r. some ((i, r.0), r.1))
      ≡ some ((id, vector), rest)
last_field dim id d size i vector rest e e' e'' count words =
    let same : 8 == 8 && size == 4 + d * 4 ≡ true = ground (arith, e, e') in
    let vector_read =
      subst (λ (n : ℕ). read_u32s n (append_elements [] vector ++ rest) ≡ some (vector, rest))
        (count ∙ sym e) (read_u32s-elements vector rest words) in
    rw (same, vector_read, e'') refl

-- The fields of a tuple.
read_tuple-row :
    (dim id : ℕ) (vector : List ℕ) (rest : Bytes)
    → dim < 2 ^ 16
    → id < size_mod
    → length vector ≡ dim
    → All (λ (w : ℕ). w < 2 ^ 32) vector
    → (read_u16 (append_row dim [] id vector ++ rest) >>= λ c. read_tuple c.1)
      ≡ some ((id, vector), rest)
unfolding append_row append_u16 append_u32 append_u64
read_tuple-row dim id vector rest small id_small size words =
    rw (append_elements_lem (fields_bytes dim id) vector)
      (last_field dim id _ _ _ vector rest (omega arith) (omega arith) (omega arith) size words)

length-row :
    (dim id : ℕ) (vector : List ℕ) (rest : Bytes)
    → suc (length rest) ≤ length (append_row dim [] id vector ++ rest)
unfolding append_row append_u16 append_u32 append_u64
length-row dim id vector rest =
    rw (append_elements_lem (fields_bytes dim id) vector)
      (omega (arith, length-append (append_elements [] vector) rest))

count_lem :
    (dim id : ℕ) (vector : List ℕ) (rest : Bytes)
    → (read_u16 (append_row dim [] id vector ++ rest) >>= λ c. some c.0) ≡ some 2
unfolding append_row append_u16 append_u32 append_u64
count_lem dim id vector rest = rw (append_elements_lem (fields_bytes dim id) vector) refl

read_tuples-rows :
    (fuel dim id : ℕ) (rows : List (List ℕ))
    → dim < 2 ^ 16
    → id + length rows ≤ size_mod
    → All (λ (v : List ℕ). (length v ≡ dim) × All (λ (w : ℕ). w < 2 ^ 32) v) rows
    → length rows < fuel
    → read_tuples fuel (row_stream dim id rows ++ 255 ∷ 255 ∷ []) ≡ some (under_ids id rows)
unfolding read_tuples
read_tuples-rows zero dim id rows small ids good enough = absurd (omega arith)
read_tuples-rows (suc fuel) dim id [] small ids good enough = refl
read_tuples-rows (suc fuel) dim id (vector ∷ rows) small ids good enough =
    let rest = row_stream dim (suc id) rows ++ 255 ∷ 255 ∷ [] in
    let (c, e, two) =
      >>=-eq-some (read_u16 (append_row dim [] id vector ++ rest)) (λ c. some c.0)
        (count_lem dim id vector rest) in
    let tuple : read_tuple c.1 ≡ some ((id, vector), rest) =
      subst (λ m. (m >>= λ c. read_tuple c.1) ≡ some ((id, vector), rest)) e
        (read_tuple-row dim id vector rest small (omega arith) good.0.0 good.0.1) in
    ap (read_tuples (suc fuel))
      (append_assoc (append_row dim [] id vector) (row_stream dim (suc id) rows) (255 ∷ 255 ∷ []))
    ∙ rw (e, some_injective two)
        (>>=-of_some _ tuple (
          >>=-of_some _
            (read_tuples-rows fuel dim (suc id) rows small (omega arith) good.1 (omega arith))
            refl))

length-row_stream :
    (dim id : ℕ) (rows : List (List ℕ))
    → length rows < length (row_stream dim id rows ++ 255 ∷ 255 ∷ [])
length-row_stream dim id [] = omega arith
length-row_stream dim id (vector ∷ rows) =
    let rest = row_stream dim (suc id) rows ++ 255 ∷ 255 ∷ [] in
    omega (
      arith,
      length-row_stream dim (suc id) rows,
      length-row dim id vector rest,
      ap length (
          append_assoc (append_row dim [] id vector) (row_stream dim (suc id) rows)
            (255 ∷ 255 ∷ [])),
    )

-- The reader gets every vector back from the stream, under its index as the id, and nothing else. The
-- dimension is of 16 bits, the elements of 32, and the ids of 64.
pub read_copy-copy_stream :
    (dim : ℕ) (rows : List (List ℕ))
    → dim < 2 ^ 16
    → length rows ≤ size_mod
    → All (λ (v : List ℕ). (length v ≡ dim) × All (λ (w : ℕ). w < 2 ^ 32) v) rows
    → read_copy (copy_stream dim rows) ≡ some (under_ids 0 rows)
unfolding read_copy copy_header append_u32
read_copy-copy_stream dim rows small ids good =
    read_tuples-rows (length (row_stream dim 0 rows ++ 255 ∷ 255 ∷ [])) dim 0 rows small
      (omega arith) good (length-row_stream dim 0 rows)
