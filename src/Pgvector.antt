-- ===== src/Pgvector.antt =====
-- pgvector/pgvector_benchmark.cpp: the table, and the stream of bytes by which the vectors are copied
-- into it. The server is a parameter.
use spheres_benchmark.Prelude.{
  ℕ, zero, suc, ◌+◌, ◌*◌, ◌/◌, ◌%◌, ◌^◌, Option, none, some, List, [], ◌∷◌, ◌++◌, ◌>>=◌, row_at,
}
use spheres_benchmark.Harness.Bytes.{Bytes, text}
use spheres_benchmark.Harness.Args.{BenchmarkConfig}
use spheres_benchmark.Harness.Batches.{open_reader, each_batch}
pub mod Copied
pub mod Decode

-- `htons` and `htonl` put the highest byte first. The value is cut to its 16 or 32 bits.
unfoldable pub append_u16 : Bytes → ℕ → Bytes
append_u16 output value = output ++ value / 256 % 256 ∷ value % 256 ∷ []

unfoldable pub append_u32 : Bytes → ℕ → Bytes
append_u32 output value =
    output ++ value / 2 ^ 24 % 256 ∷ value / 2 ^ 16 % 256 ∷ value / 256 % 256 ∷ value % 256 ∷ []

unfoldable pub append_u64 : Bytes → ℕ → Bytes
unfolding append_u32
append_u64 output value = append_u32 (append_u32 output (value / 2 ^ 32)) value

-- The signature, the flags and the length of the extension.
unfoldable pub copy_header : Bytes
unfolding append_u32
copy_header = append_u32 (append_u32 (text "PGCOPY\n" ++ 255 ∷ 13 ∷ 10 ∷ 0 ∷ []) 0) 0

unfoldable pub append_elements : Bytes → List ℕ → Bytes
unfolding append_u32
append_elements payload [] = payload
append_elements payload (column ∷ vector) = append_elements (append_u32 payload column) vector

-- The body of the loop over the rows of a batch: a tuple of two fields, the id and the vector.
unfoldable pub append_row : ℕ → Bytes → ℕ → List ℕ → Bytes
unfolding append_u16 append_u32 append_u64 append_elements
append_row dim payload id vector =
    let tuple = append_u64 (append_u32 (append_u16 payload 2) 8) id in
    let field = append_u16 (append_u16 (append_u32 tuple (4 + dim * 4)) dim) 0 in
    append_elements field vector

-- The loop over the rows, `rows` of them from `row` on.
unfoldable pub append_rows : ℕ → List ℕ → ℕ → ℕ → ℕ → Bytes → Bytes
unfolding append_row
append_rows dim batch copied zero row payload = payload
append_rows dim batch copied (suc rows) row payload =
    append_rows dim batch copied rows (suc row)
      (append_row dim payload (copied + row) (row_at dim batch row))

-- A round of the loop over the batches. `put` is `PQputCopyData` with what the server has got so far,
-- `none` where it does not return 1. It is given the size as an int, which is not wrapped here.
unfoldable pub copy_batch {ℓ} :
    {S : Type ℓ} → (S → Bytes → Option S) → ℕ → S → ℕ → ℕ → List ℕ → Option S
unfolding append_rows
copy_batch put dim s copied rows batch = put s (append_rows dim batch copied rows 0 [])

-- `copy_vectors`, with what starts and ends the copying on the side of the server.
unfoldable pub copy_vectors {ℓ} :
    {S : Type ℓ}
    → (S → Bytes → Option S)
    → (S → Option S)
    → (S → Option S)
    → Option Bytes
    → BenchmarkConfig
    → S
    → Option S
unfolding copy_header copy_batch
copy_vectors put start finish file config s = do
  started ← start s
  headed ← put started copy_header
  reader ← open_reader file config.vector_dim
  copied ←
      each_batch (copy_batch put config.vector_dim) 1000 config.n_base_vectors
        (suc config.n_base_vectors) reader 0 headed
  trailed ← put copied (255 ∷ 255 ∷ [])
  finish trailed
