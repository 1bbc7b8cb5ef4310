-- ===== src/Prelude/Slices.antt =====
-- Parts of a list by their places.
use native.Mathlib.Nat.{zero-add, add-zero}
use Prim.Native.Nat.{ℕ, zero, suc, ◌+◌, ◌-◌, ◌*◌, ◌≤◌, ◌<◌}
use mathlib.Core.Path.{◌≡◌, refl, sym, ap, ◌∙◌}
use mathlib.Core.Option.{some}
use mathlib.Core.List.{List, [], ◌∷◌, ◌++◌}
use native.Mathlib.Omega.{arith}
use spheres_benchmark.Prelude.Lists.{
  length, take, drop, take-append-drop, length-take, length-drop, get_elem?,
}
use spheres_benchmark.Prelude.Items.{All}
use spheres_benchmark.Prelude.Products.{mul_mono}

suc_sum : (a b : ℕ) → suc a + b ≡ suc (a + b)
suc_sum a b = omega arith

module _ {ℓ} {A : Type ℓ} where
  drop-drop : (b a : ℕ) (xs : List A) → drop a (drop b xs) ≡ drop (b + a) xs
  drop-drop zero a xs = ap (λ n. drop n xs) (sym (zero-add a))
  drop-drop (suc b) zero [] = ap (λ n. drop {A = A} n []) (sym (add-zero (suc b)))
  drop-drop (suc b) (suc a) [] = ap (λ n. drop {A = A} n []) (sym (suc_sum b (suc a)))
  drop-drop (suc b) a (x ∷ xs) = drop-drop b a xs ∙ ap (λ n. drop n (x ∷ xs)) (sym (suc_sum b a))

  pub drop-length : (xs : List A) → drop (length xs) xs ≡ []
  drop-length [] = refl
  drop-length (x ∷ xs) = drop-length xs

  pub drop-append : (xs ys : List A) → drop (length xs) (xs ++ ys) ≡ ys
  drop-append [] ys = refl
  drop-append (x ∷ xs) ys = drop-append xs ys

  -- A slice and what is behind it.
  pub slice : (a b : ℕ) (xs : List A) → a ≤ b → take (b - a) (drop a xs) ++ drop b xs ≡ drop a xs
  slice a b xs h =
      let e : b ≡ a + (b - a) = omega arith in
      ap (λ n. take (b - a) (drop a xs) ++ drop n xs) e
      ∙ ap (λ t. take (b - a) (drop a xs) ++ t) (sym (drop-drop a (b - a) xs))
      ∙ take-append-drop (b - a) (drop a xs)

  -- The row `index` of a matrix that stands in one list, `dim` items to a row.
  abbrev pub row_at : ℕ → List A → ℕ → List A
  row_at dim xs index = take dim (drop (index * dim) xs)

  -- The rows from `index` on.
  abbrev pub rows_from : ℕ → List A → ℕ → ℕ → List (List A)
  rows_from dim xs zero index = []
  rows_from dim xs (suc n) index = row_at dim xs index ∷ rows_from dim xs n (suc index)

  pub length-rows_from :
      (dim : ℕ) (xs : List A) (n index : ℕ) → length (rows_from dim xs n index) ≡ n
  length-rows_from dim xs zero index = refl
  length-rows_from dim xs (suc n) index = ap suc (length-rows_from dim xs n (suc index))

  pub get_elem?-rows_from :
      (dim : ℕ) (xs : List A) (n index i : ℕ)
      → i < n
      → get_elem? (rows_from dim xs n index) i ≡ some (row_at dim xs (index + i))
  get_elem?-rows_from dim xs zero index i h = absurd (omega arith)
  get_elem?-rows_from dim xs (suc n) index zero h = ap (λ j. some (row_at dim xs j)) (omega arith)
  get_elem?-rows_from dim xs (suc n) index (suc i) h =
      get_elem?-rows_from dim xs n (suc index) i (omega arith)
      ∙ ap (λ j. some (row_at dim xs j)) (sym (shift index i))
    where
      shift : (a b : ℕ) → a + suc b ≡ suc a + b
      shift a b = omega arith

  pub length-row_at :
      (dim n index : ℕ) (xs : List A)
      → length xs ≡ n * dim
      → index < n
      → length (row_at dim xs index) ≡ dim
  length-row_at dim n index xs size h =
      let room : suc index * dim ≤ n * dim = mul_mono (suc index) n dim (omega arith) in
      omega (
        arith,
        length-take dim (drop (index * dim) xs),
        length-drop (index * dim) xs,
        room,
        size,
        suc-times index dim,
      )
    where
      suc-times : (a b : ℕ) → suc a * b ≡ a * b + b
      suc-times a b = grind arith

  pub All-rows_from :
      (dim m n index : ℕ) (xs : List A)
      → length xs ≡ m * dim
      → index + n ≤ m
      → All (λ (row : List A). length row ≡ dim) (rows_from dim xs n index)
  All-rows_from dim m zero index xs size h = tt
  All-rows_from dim m (suc n) index xs size h = (
    length-row_at dim m index xs size (omega arith),
    All-rows_from dim m n (suc index) xs size (omega arith),
  )
