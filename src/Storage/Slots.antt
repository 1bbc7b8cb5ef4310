-- ===== src/Storage/Slots.antt =====
-- Whether the page that a storage writes has the bytes of its slots.
use spheres_benchmark.Prelude.{ℕ, ◌+◌, ◌*◌, ◌≤◌, ◌<◌, ◌≡◌, refl, true, arith, length, size_mod}
use native.Mathlib.Nat.{mod-eq_of_lt}
use spheres_benchmark.Config.{SupportedDataType}
use spheres_benchmark.Storage.{
  Vector, Storage, fits_slot, vector_address, id_address, element_size_of, create_storage,
}
use spheres_benchmark.Storage.Layout.{factor_le, slot_ends, created_fit, created_offset, elements}

-- A page has the bytes of the header, of the ids and of the vectors, which have the dimension `dim`.
pub record HoldsSlots (dim : ℕ) (s : Storage) : Type 0 where
  pub same_dim : s.vector_dim ≡ dim
  pub id_start : s.id_offset ≡ 16
  pub vector_start : s.vector_offset ≡ 16 + 8 * s.max_num_vectors_per_page
  pub bytes :
      s.max_num_vectors_per_page * (s.element_size * dim) + 8 * s.max_num_vectors_per_page + 16
      ≤ s.page_size
  pub page_in : s.page_size < size_mod
  pub element : 0 < s.element_size

module _ (dim : ℕ) (s : Storage) (h : HoldsSlots dim s) (i : ℕ)
    (inside : i < s.max_num_vectors_per_page) where
  vector_ends :
      i * (s.element_size * dim) + s.element_size * dim
      ≤ s.max_num_vectors_per_page * (s.element_size * dim)
  vector_ends = slot_ends i s.max_num_vectors_per_page (s.element_size * dim) inside

  vector_address-in : vector_address s i + s.element_size * dim ≤ s.page_size
  unfolding vector_address
  vector_address-in =
      let below = vector_ends in
      let product : i * dim * s.element_size ≡ i * (s.element_size * dim) = grind arith in
      let few = factor_le (i * dim) s.element_size h.element in
      rw
        (
          h.same_dim,
          h.vector_start,
          mod-eq_of_lt {n = i * dim} {m = size_mod} (omega (arith, h.bytes, h.page_in)),
          product,
        )
        (omega (arith, h.bytes, h.page_in))

  id_address-in : id_address s i + 8 ≤ s.vector_offset
  unfolding id_address
  id_address-in = omega (arith, h.id_start, h.vector_start, h.bytes, h.page_in)

  -- A vector of that dimension fits each slot.
  pub fits_slot_lem :
      (new_vector : Vector) → length new_vector ≡ dim → fits_slot s new_vector i ≡ true
  unfolding fits_slot
  fits_slot_lem new_vector size = ground (arith, size, h.same_dim, vector_address-in, id_address-in)

-- A new database does, if a page holds the header, and its size and that of a vector with its id fit 64
-- bits.
pub create_storage-HoldsSlots :
    (page_size file_size : ℕ) (dtype : SupportedDataType) (dim : ℕ)
    → 16 ≤ page_size
    → page_size < size_mod
    → element_size_of dtype * dim + 8 < size_mod
    → HoldsSlots dim (create_storage page_size file_size dtype dim)
unfolding create_storage
create_storage-HoldsSlots page_size file_size dtype dim header page_in vector_in = record {
  same_dim = refl;
  id_start = refl;
  vector_start = created_offset page_size file_size dtype dim header page_in vector_in;
  bytes = created_fit page_size file_size dtype dim header page_in vector_in;
  page_in = page_in;
  element = elements page_size file_size dtype dim header page_in vector_in;
}
