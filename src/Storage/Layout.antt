-- ===== src/Storage/Layout.antt =====
-- The byte layout of a page: header, ids, vectors.
use spheres_benchmark.Prelude.{
  ℕ, suc, ◌+◌, ◌-◌, ◌*◌, ◌/◌, ◌≤◌, ◌<◌, ◌≡◌, ◌∙◌, arith, size_mod, mul_size,
}
use native.Mathlib.Nat.{div-add-mod, mod-lt, mod-eq_of_lt}
use mathlib.Core.Path.{ap₂}
use spheres_benchmark.Config.{SupportedDataType}
use spheres_benchmark.Storage.{
  Storage, max_num_vectors, vector_offset_of, vector_address, id_address, element_size_of,
  create_storage,
}

module _ (n d : ℕ) (positive : 0 < d) where
  div_below : n / d * d ≤ n
  div_below = grind (arith, div-add-mod n d)

  div_above : n < (n / d + 1) * d
  div_above = grind (arith, div-add-mod n d, mod-lt n positive)

pub factor_le : (a b : ℕ) → 0 < b → a ≤ a * b
factor_le a b h = grind arith

pub slot_ends : (i n w : ℕ) → i < n → i * w + w ≤ n * w
slot_ends i n w h = omega (arith, scale (suc i) n w h)
  where
    scale : (a b c : ℕ) → a ≤ b → a * c ≤ b * c
    scale a b c h = grind arith

module _ (page_size element_size dim : ℕ) (header : 16 ≤ page_size) (page_in : page_size < size_mod)
    (vector_in : element_size * dim + 8 < size_mod) where
  abbrev pub slots : ℕ
  slots = max_num_vectors page_size element_size dim

  width : ℕ
  width = element_size * dim + 8

  slots_lem : slots ≡ (page_size - 16) / width
  unfolding width max_num_vectors
  slots_lem = ap₂ ◌/◌ (omega arith) (omega arith)

  pub slots_fit : slots * (element_size * dim) + 8 * slots + 16 ≤ page_size
  unfolding width
  slots_fit = rw slots_lem (omega (arith, div_below (page_size - 16) width (omega arith)))

  slots_most : page_size < 16 + (slots + 1) * (element_size * dim + 8)
  unfolding width
  slots_most = rw slots_lem (omega (arith, div_above (page_size - 16) width (omega arith)))

  -- The sums that the two address functions form do not wrap.
  offset_lem : vector_offset_of slots ≡ 16 + 8 * slots
  unfolding vector_offset_of
  offset_lem = omega (arith, slots_fit)

  module _ (i : ℕ) (inside : i < slots) (elements : 0 < element_size) where
    ends : i * (element_size * dim) + element_size * dim ≤ slots * (element_size * dim)
    ends = slot_ends i slots (element_size * dim) inside

    product_lem : mul_size (mul_size i dim) element_size ≡ i * (element_size * dim)
    product_lem =
        let below = ends in
        let small : i * dim < size_mod =
          omega (arith, slots_fit, below, factor_le (i * dim) element_size elements) in
        rw (mod-eq_of_lt small) (mod-eq_of_lt (omega (arith, slots_fit, below)) ∙ omega arith)

module _ (page_size file_size : ℕ) (dtype : SupportedDataType) (dim : ℕ) (header : 16 ≤ page_size)
    (page_in : page_size < size_mod) (vector_in : element_size_of dtype * dim + 8 < size_mod) where
  abbrev pub created : Storage
  created = create_storage page_size file_size dtype dim

  pub elements : 0 < element_size_of dtype
  unfolding element_size_of
  elements = ground arith

  abbrev pub created_slots : ℕ
  created_slots = max_num_vectors page_size (element_size_of dtype) dim

  abbrev pub created_fit :
      created_slots * (element_size_of dtype * dim) + 8 * created_slots + 16 ≤ page_size
  created_fit = slots_fit page_size (element_size_of dtype) dim header page_in vector_in

  pub created_offset : created.vector_offset ≡ 16 + 8 * created_slots
  unfolding create_storage
  created_offset = offset_lem page_size (element_size_of dtype) dim header page_in vector_in

  module _ (i : ℕ) (inside : i < created_slots) where
    created_ends :
        i * (element_size_of dtype * dim) + element_size_of dtype * dim
        ≤ created_slots * (element_size_of dtype * dim)
    created_ends = slot_ends i created_slots (element_size_of dtype * dim) inside

    id_address_lem : id_address created i ≡ 16 + i * 8
    unfolding id_address create_storage
    id_address_lem = omega (arith, created_fit)

    vector_address_lem :
        vector_address created i ≡ 16 + 8 * created_slots + i * (element_size_of dtype * dim)
    unfolding vector_address create_storage
    vector_address_lem =
        rw
          (
            product_lem page_size (element_size_of dtype) dim header page_in vector_in i inside
                elements,
            offset_lem page_size (element_size_of dtype) dim header page_in vector_in,
          )
          (mod-eq_of_lt (omega (arith, created_fit, created_ends)))

  -- In a page of a new database the slots of any two vectors j < i lie apart and inside the page:
  -- after the 16 bytes of the header come the ids, in order, all before the offset of the vectors,
  -- and from there the vectors, in order, the last one ending inside the page. No address wraps.
  -- The page holds the header, its size and that of one vector with its id fit 64 bits.
  pub slots_apart :
      (j i : ℕ)
      → j < i
      → i < created.max_num_vectors_per_page
      → (16 ≤ id_address created j)
        × (id_address created j + 8 ≤ id_address created i)
        × (id_address created i + 8 ≤ created.vector_offset)
        × (created.vector_offset ≤ vector_address created j)
        × (vector_address created j + element_size_of dtype * dim ≤ vector_address created i)
        × (vector_address created i + element_size_of dtype * dim ≤ page_size)
  unfolding create_storage
  slots_apart j i order inside = omega (
    arith,
    created_fit,
    created_offset,
    created_ends i inside,
    slot_ends j i (element_size_of dtype * dim) order,
    id_address_lem j (omega arith),
    id_address_lem i inside,
    vector_address_lem j (omega arith),
    vector_address_lem i inside,
  )

  -- The slots use the page up: one more vector with its id would not fit.
  pub slots_maximal :
      page_size < 16 + (created.max_num_vectors_per_page + 1) * (element_size_of dtype * dim + 8)
  unfolding create_storage
  slots_maximal = slots_most page_size (element_size_of dtype) dim header page_in vector_in
