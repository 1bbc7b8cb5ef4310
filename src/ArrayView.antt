-- ===== src/ArrayView.antt =====
-- modules/array_view/array_view.cppm: a view of memory as a matrix. The memory is the list of the elements
-- from the pointer on; `none` is a null pointer, or the exception of `reshape_array`.
use native.Mathlib.Nat.{mod-eq_of_lt}
use spheres_benchmark.Prelude.{
  ℕ, zero, suc, ◌+◌, ◌-◌, ◌*◌, ◌<◌, ◌≡◌, refl, sym, ap, ◌∙◌, true, false, Option, none, some, List,
  [], ◌∷◌, ◌++◌, arith, length, take, drop, concat, leb, ◌==◌, if◌then◌else◌, mul_size, size_mod,
  Returns, slice, drop-length,
}

pub record ArrayView {ℓ} (A : Type ℓ) : Type ℓ where
  pub memory : Option (List A)
  pub s1 : ℕ
  pub s2 : ℕ
  pub size : ℕ

module _ {ℓ} {A : Type ℓ} where
  -- The constructors: without arguments, from a size, and from a shape.
  unfoldable pub empty_view : ArrayView A
  empty_view = record { memory = none; s1 = 0; s2 = 0; size = 0 }

  unfoldable pub sized_view : List A → ℕ → ArrayView A
  sized_view memory size = record { memory = some memory; s1 = 0; s2 = 0; size = size }

  unfoldable pub shaped_view : List A → ℕ → ℕ → ArrayView A
  shaped_view memory s1 s2 = record {
    memory = some memory;
    s1 = s1;
    s2 = s2;
    size = mul_size s1 s2;
  }

  -- The move constructor: the new view, and what it leaves of the other.
  unfoldable pub move_view : ArrayView A → ArrayView A × ArrayView A
  unfolding empty_view
  move_view other = (other, empty_view)

  -- `operator[]`
  abbrev pub row_of : Option (List A) → ℕ → ℕ → List A
  row_of none index s2 = []
  row_of (some memory) index s2 = take s2 (drop (index * s2) memory)

  unfoldable pub row : ArrayView A → ℕ → List A
  row view index = if leb view.s1 index then [] else row_of view.memory index view.s2

  unfoldable pub reshape_array : ArrayView A → ℕ → ℕ → Option (ArrayView A)
  reshape_array array s1 s2 =
      if mul_size s1 s2 == array.size then some (record array { s1 = s1; s2 = s2 }) else none

  -- The `n` rows from `index` on.
  abbrev pub rows_from : ArrayView A → ℕ → ℕ → List (List A)
  rows_from view zero index = []
  rows_from view (suc n) index = row view index ∷ rows_from view n (suc index)

  rows_behind :
      (memory : List A) (s1 s2 size n i : ℕ)
      → i + n ≡ s1
      → length memory ≡ s1 * s2
      → concat (rows_from (record { memory = some memory; s1 = s1; s2 = s2; size = size }) n i)
        ≡ drop (i * s2) memory
  unfolding row
  rows_behind memory s1 s2 size zero i h e =
      let last : i * s2 ≡ length memory = ap (λ (m : ℕ). m * s2) (omega (arith, h)) ∙ sym e in
      sym (ap (λ m. drop m memory) last ∙ drop-length memory)
  rows_behind memory s1 s2 size (suc n) i h e =
      let inside : leb s1 i ≡ false = ground (arith, h) in
      let width : suc i * s2 - i * s2 ≡ s2 = omega arith in
      rw inside (
        ap (λ xs. take s2 (drop (i * s2) memory) ++ xs)
          (rows_behind memory s1 s2 size n (suc i) (omega arith) e)
        ∙ ap (λ m. take m (drop (i * s2) memory) ++ drop (suc i * s2) memory) (sym width)
        ∙ slice (i * s2) (suc i * s2) memory (omega arith))

  -- A view that is reshaped to a shape of its size has rows that are its memory, one behind the other.
  pub reshape_array_lem :
      (memory : List A) (s1 s2 : ℕ)
      → s1 * s2 ≡ length memory
      → length memory < size_mod
      → Returns
          (λ (view : ArrayView A). concat (rows_from view view.s1 0) ≡ memory)
          (reshape_array (sized_view memory (length memory)) s1 s2)
  unfolding reshape_array sized_view
  reshape_array_lem memory s1 s2 whole small =
      let below : s1 * s2 < size_mod = omega (arith, whole, small) in
      let product : mul_size s1 s2 ≡ length memory = mod-eq_of_lt below ∙ whole in
      let fits : mul_size s1 s2 == length memory ≡ true = ground (arith, product) in
      let front : 0 * s2 ≡ 0 = omega arith in
      rw fits (
        _,
        refl,
        rows_behind memory s1 s2 (length memory) s1 0 (omega arith) (sym whole)
            ∙ ap (λ (n : ℕ). drop n memory) front,
      )
