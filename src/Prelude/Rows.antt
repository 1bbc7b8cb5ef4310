-- ===== src/Prelude/Rows.antt =====
-- Rows of a matrix that stands in one list, and of two matrices one behind the other.
use Prim.Native.Nat.{ℕ, zero, suc, ◌+◌, ◌*◌, ◌≤◌, ◌<◌}
use native.Mathlib.Nat.{zero-add, add-zero}
use mathlib.Core.Path.{◌≡◌, refl, sym, ap, ap₂, ◌∙◌}
use mathlib.Core.List.{List, [], ◌∷◌, ◌++◌, map}
use native.Mathlib.Omega.{arith}
use spheres_benchmark.Prelude.Lists.{length, take, drop}
use spheres_benchmark.Prelude.Products.{mul_mono}
use spheres_benchmark.Prelude.Slices.{row_at, rows_from}

suc-times : (a b : ℕ) → suc a * b ≡ a * b + b
suc-times a b = grind arith

sum_suc : (a b : ℕ) → a + suc b ≡ suc (a + b)
sum_suc a b = omega arith

suc_sum : (a b : ℕ) → suc a + b ≡ suc (a + b)
suc_sum a b = omega arith

module _ {ℓ} {A : Type ℓ} where
  take-append_left : (d : ℕ) (xs ys : List A) → d ≤ length xs → take d (xs ++ ys) ≡ take d xs
  take-append_left zero xs ys h = refl
  take-append_left (suc d) [] ys h = absurd (omega arith)
  take-append_left (suc d) (x ∷ xs) ys h = ap (◌∷◌ x) (take-append_left d xs ys (omega arith))

  slice-append :
      (m d : ℕ) (xs ys : List A)
      → m + d ≤ length xs
      → take d (drop m (xs ++ ys)) ≡ take d (drop m xs)
  slice-append zero d xs ys h = take-append_left d xs ys (omega arith)
  slice-append (suc m) d [] ys h = absurd (omega arith)
  slice-append (suc m) d (x ∷ xs) ys h = slice-append m d xs ys (omega arith)

  drop-append_right : (m : ℕ) (xs ys : List A) → drop (length xs + m) (xs ++ ys) ≡ drop m ys
  drop-append_right m [] ys = ap (λ n. drop n ys) (zero-add m)
  drop-append_right m (x ∷ xs) ys =
      ap (λ n. drop n (x ∷ (xs ++ ys))) (suc_sum (length xs) m) ∙ drop-append_right m xs ys

  row_at-left :
      (dim a i : ℕ) (xs ys : List A)
      → length xs ≡ a * dim
      → i < a
      → row_at dim (xs ++ ys) i ≡ row_at dim xs i
  row_at-left dim a i xs ys size h =
      slice-append (i * dim) dim xs ys
        (omega (arith, size, suc-times i dim, mul_mono (suc i) a dim (omega arith)))

  row_at-right :
      (dim a i : ℕ) (xs ys : List A)
      → length xs ≡ a * dim
      → row_at dim (xs ++ ys) (a + i) ≡ row_at dim ys i
  row_at-right dim a i xs ys size =
      let place : (a + i) * dim ≡ length xs + i * dim = grind (arith, size) in
      ap (λ n. take dim (drop n (xs ++ ys))) place
      ∙ ap (take dim) (drop-append_right (i * dim) xs ys)

  rows_from-left :
      (dim a n i : ℕ) (xs ys : List A)
      → length xs ≡ a * dim
      → i + n ≤ a
      → rows_from dim (xs ++ ys) n i ≡ rows_from dim xs n i
  rows_from-left dim a zero i xs ys size h = refl
  rows_from-left dim a (suc n) i xs ys size h =
      ap₂ ◌∷◌ (row_at-left dim a i xs ys size (omega arith))
        (rows_from-left dim a n (suc i) xs ys size (omega arith))

  rows_from-right :
      (dim a n i : ℕ) (xs ys : List A)
      → length xs ≡ a * dim
      → rows_from dim (xs ++ ys) n (a + i) ≡ rows_from dim ys n i
  rows_from-right dim a zero i xs ys size = refl
  rows_from-right dim a (suc n) i xs ys size = ap₂ ◌∷◌ (row_at-right dim a i xs ys size) (
      ap (rows_from dim (xs ++ ys) n) (sym (sum_suc a i))
      ∙ rows_from-right dim a n (suc i) xs ys size)

  rows_from-add :
      (dim a b i : ℕ) (xs : List A)
      → rows_from dim xs (a + b) i ≡ rows_from dim xs a i ++ rows_from dim xs b (i + a)
  rows_from-add dim zero b i xs = ap₂ (λ n j. rows_from dim xs n j) (zero-add b) (sym (add-zero i))
  rows_from-add dim (suc a) b i xs =
      ap (λ n. rows_from dim xs n i) (suc_sum a b)
      ∙ ap (◌∷◌ (row_at dim xs i)) (
          rows_from-add dim a b (suc i) xs
          ∙ ap (λ j. rows_from dim xs a (suc i) ++ rows_from dim xs b j)
              (suc_sum i a ∙ sym (sum_suc i a)))

  -- The rows of two matrices of one width, one behind the other.
  pub rows_from-append :
      (dim a b : ℕ) (xs ys : List A)
      → length xs ≡ a * dim
      → rows_from dim (xs ++ ys) (a + b) 0 ≡ rows_from dim xs a 0 ++ rows_from dim ys b 0
  rows_from-append dim a b xs ys size =
      rows_from-add dim a b 0 (xs ++ ys)
      ∙ ap₂ ◌++◌ (rows_from-left dim a a 0 xs ys size (omega arith)) (
          ap (rows_from dim (xs ++ ys) b) (zero-add a ∙ sym (add-zero a))
          ∙ rows_from-right dim a b 0 xs ys size)

-- A map over the items is one over the rows.
module _ {ℓ κ} {A : Type ℓ} {B : Type κ} (f : A → B) where
  map-take : (n : ℕ) (xs : List A) → map f (take n xs) ≡ take n (map f xs)
  map-take zero xs = refl
  map-take (suc n) [] = refl
  map-take (suc n) (x ∷ xs) = ap (◌∷◌ (f x)) (map-take n xs)

  map-drop : (n : ℕ) (xs : List A) → map f (drop n xs) ≡ drop n (map f xs)
  map-drop zero xs = refl
  map-drop (suc n) [] = refl
  map-drop (suc n) (x ∷ xs) = map-drop n xs

  pub map-row_at : (dim i : ℕ) (xs : List A) → map f (row_at dim xs i) ≡ row_at dim (map f xs) i
  map-row_at dim i xs = map-take dim (drop (i * dim) xs) ∙ ap (take dim) (map-drop (i * dim) xs)
