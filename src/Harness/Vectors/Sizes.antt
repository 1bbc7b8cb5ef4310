-- ===== src/Harness/Vectors/Sizes.antt =====
-- The sizes of what the readers of include/benchmark_config.h return.
use spheres_benchmark.Prelude.{
  ℕ, zero, suc, ◌*◌, ◌%◌, ◌^◌, ◌≡◌, refl, sym, ap, ◌∙◌, Bool, true, false, Option, none, some, List,
  [], ◌∷◌, ◌++◌, map, arith, length, length-map, length-append, ◌==◌, if◌then◌else◌, >>=-eq-some,
  some_injective, All,
}
use mathlib.Core.Path.{subst}
use spheres_benchmark.Prelude.Int.{ℤ}
use spheres_benchmark.Harness.Bytes.{Bytes}
use spheres_benchmark.Harness.Vectors.{
  read_word, read_elements, read_row, read_rows, read_flat, read_file_as_vectors,
  read_file_as_flat_array,
}
use spheres_benchmark.Harness.Machine.{read_numbers, read_gt_vectors, float_units}
use spheres_benchmark.Harness.Metrics.{to_int}

length-read_elements :
    (dim : ℕ) (stream : Bytes) {r : List ℕ × Bytes}
    → read_elements dim stream ≡ some r
    → length r.0 ≡ dim
unfolding read_elements
length-read_elements zero stream h = cc
length-read_elements (suc dim) stream h =
    let (w, e, h') = >>=-eq-some (read_word stream) _ h in
    let (ws, e', h'') = >>=-eq-some (read_elements dim w.1) _ h' in
    let size = length-read_elements dim w.1 e' in ground (arith, size, h'')

length-read_row :
    (dim : ℕ) (stream : Bytes) {r : List ℕ × Bytes}
    → read_row dim stream ≡ some r
    → length r.0 ≡ dim
unfolding read_row
length-read_row dim stream {r} h =
    let (d, e, h') = >>=-eq-some (read_word stream) _ h in
    length-read_elements dim d.1 (of_guard (d.0 == dim % 2 ^ 32) h')
  where
    of_guard :
        {m : Option (List ℕ × Bytes)} (b : Bool) → (if b then m else none) ≡ some r → m ≡ some r
    of_guard true g = g
    of_guard false g = cc

abbrev HasSizes : ℕ → ℕ → List (List ℕ) × Bytes → Type 0
HasSizes rows dim r = (length r.0 ≡ rows) × All (λ (row : List ℕ). length row ≡ dim) r.0

map-sizes :
    (dim : ℕ) (vectors : List (List ℕ))
    → All (λ (row : List ℕ). length row ≡ dim) vectors
    → All (λ (truth : List ℤ). length truth ≡ dim) (map (map to_int) vectors)
map-sizes dim [] h = tt
map-sizes dim (row ∷ vectors) h = (length-map row to_int ∙ h.0, map-sizes dim vectors h.1)

flat_size :
    (rows dim : ℕ) (xs ys : List ℕ)
    → length xs ≡ dim
    → length ys ≡ rows * dim
    → length (xs ++ ys) ≡ suc rows * dim
flat_size rows dim xs ys h g = grind (arith, length-append xs ys)

read_rows-sizes :
    (rows dim : ℕ) (stream : Bytes) {r : List (List ℕ) × Bytes}
    → read_rows rows dim stream ≡ some r
    → HasSizes rows dim r
unfolding read_rows
read_rows-sizes zero dim stream h = subst (HasSizes 0 dim) (some_injective h) (refl, tt)
read_rows-sizes (suc rows) dim stream h =
    let (w, e, h') = >>=-eq-some (read_row dim stream) _ h in
    let (ws, e', h'') = >>=-eq-some (read_rows rows dim w.1) _ h' in
    let size = length-read_row dim stream e in
    let (count, sizes) = read_rows-sizes rows dim w.1 e' in
    subst (HasSizes (suc rows) dim) (some_injective h'') (ap suc count, (size, sizes))

pub length-read_flat :
    (rows dim : ℕ) (stream : Bytes) {r : List ℕ × Bytes}
    → read_flat rows dim stream ≡ some r
    → length r.0 ≡ rows * dim
unfolding read_flat
length-read_flat zero dim stream h =
    subst (λ (r : List ℕ × Bytes). length r.0 ≡ 0 * dim) (some_injective h) (omega arith)
length-read_flat (suc rows) dim stream h =
    let (w, e, h') = >>=-eq-some (read_row dim stream) _ h in
    let (ws, e', h'') = >>=-eq-some (read_flat rows dim w.1) _ h' in
    subst (λ (r : List ℕ × Bytes). length r.0 ≡ suc rows * dim) (some_injective h'')
      (flat_size rows dim w.0 ws.0 (length-read_row dim stream e)
        (length-read_flat rows dim w.1 e'))

-- A flat array has as many numbers as its rows have.
pub length-read_numbers :
    (file : Option Bytes) (rows dim : ℕ) {xs : List ℤ}
    → read_numbers file rows dim ≡ some xs
    → length xs ≡ rows * dim
unfolding read_numbers read_file_as_flat_array
length-read_numbers file rows dim h =
    let (vectors, e, h') = >>=-eq-some (read_file_as_flat_array file rows dim) _ h in
    let (ins, _, h'') = >>=-eq-some file _ e in
    let (r, flat, g) = >>=-eq-some (read_flat rows dim ins) _ h'' in
    ap length (sym (some_injective h'))
    ∙ length-map vectors float_units
    ∙ ap length (sym (some_injective g))
    ∙ length-read_flat rows dim ins flat

-- The ground truth has its rows, and each the numbers of a row.
pub read_gt_vectors-sizes :
    (file : Option Bytes) (rows dim : ℕ) {gt : List (List ℤ)}
    → read_gt_vectors file rows dim ≡ some gt
    → (length gt ≡ rows) × All (λ (truth : List ℤ). length truth ≡ dim) gt
unfolding read_gt_vectors read_file_as_vectors
read_gt_vectors-sizes file rows dim h =
    let (vectors, e, h') = >>=-eq-some (read_file_as_vectors file rows dim) _ h in
    let (ins, _, h'') = >>=-eq-some file _ e in
    let (r, whole, g) = >>=-eq-some (read_rows rows dim ins) _ h'' in
    let (count, sizes) = read_rows-sizes rows dim ins whole in
    subst
      (λ (gt : List (List ℤ)). (length gt ≡ rows) × All (λ (truth : List ℤ). length truth ≡ dim) gt)
      (ap (map (map to_int)) (some_injective g) ∙ some_injective h')
      (length-map r.0 (map to_int) ∙ count, map-sizes dim r.0 sizes)
