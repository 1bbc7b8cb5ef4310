-- ===== src/Parallel/Parts.antt =====
-- The parts of the pages that the threads of FillDistToAnchor take.
use native.Mathlib.Nat.{div-add-mod, mod-lt}
use spheres_benchmark.Prelude.{
  ℕ, zero, suc, ◌+◌, ◌-◌, ◌*◌, ◌/◌, ◌%◌, ◌≤◌, ◌<◌, ◌≡◌, refl, sym, ap, ◌∙◌, inl, inr, true, List,
  ◌++◌, arith, length, drop, min, ltb, Bool-cases, mul_mono, drop-length, slice,
}
use spheres_benchmark.Storage.{Vector}
use spheres_benchmark.Tagged.{Tagged}
use spheres_benchmark.Cache.{fill_dist_to_anchor_buffer}
use spheres_benchmark.Parallel.{part_start, part_end, part_of, parts, anchor_distances}

part_start_lem : (q r t : ℕ) → part_start q r t ≡ q * t + min t r
unfolding part_start
part_start_lem q r t = elim (Bool-cases (ltb t r)) [
  | inl e ↦ let below : t < r = ground arith in rw e (omega arith)
  | inr e ↦
      let above : r ≤ t = ground arith in
      let split : t ≡ r + (t - r) = omega arith in rw e (omega (arith, ap (λ (n : ℕ). q * n) split))
]

part_end_lem :
    (q r n t : ℕ) → r < n → t < n → part_end q r (q * n + r) t ≡ q * suc t + min (suc t) r
unfolding part_end
part_end_lem q r n t small h = elim (Bool-cases (ltb t r)) [
  | inl e ↦ let below : t < r = ground arith in rw e (omega arith)
  | inr e ↦
      let above : r ≤ t = ground arith in
      let within = mul_mono (suc t) n q h in
      let split : t ≡ r + (t - r) = omega arith in
      rw e (omega (arith, within, ap (λ (m : ℕ). q * m) split))
]

module _ {ℓ} {A : Type ℓ} (n_threads : ℕ) (positive : 0 < n_threads) (pages : List A) where
  abbrev n_fill_avg : ℕ
  n_fill_avg = length pages / n_threads

  abbrev n_left : ℕ
  n_left = length pages % n_threads

  whole : length pages ≡ n_fill_avg * n_threads + n_left
  whole = omega (arith, div-add-mod (length pages) n_threads)

  part_ends :
      (t : ℕ)
      → t < n_threads
      → part_end n_fill_avg n_left (length pages) t ≡ part_start n_fill_avg n_left (suc t)
  part_ends t h =
      ap (λ (n : ℕ). part_end n_fill_avg n_left n t) whole
      ∙ part_end_lem n_fill_avg n_left n_threads t (mod-lt (length pages) positive) h
      ∙ sym (part_start_lem n_fill_avg n_left (suc t))

  part_of_lem :
      (t : ℕ)
      → t < n_threads
      → part_of n_threads pages t ++ drop (part_start n_fill_avg n_left (suc t)) pages
        ≡ drop (part_start n_fill_avg n_left t) pages
  unfolding part_of
  part_of_lem t h =
      let order : part_start n_fill_avg n_left t ≤ part_start n_fill_avg n_left (suc t) =
        omega
          (arith, part_start_lem n_fill_avg n_left t, part_start_lem n_fill_avg n_left (suc t)) in
      rw (part_ends t h)
        (slice (part_start n_fill_avg n_left t) (part_start n_fill_avg n_left (suc t)) pages order)

  parts_from :
      (n t : ℕ)
      → t + n ≡ n_threads
      → parts n_threads pages n t ≡ drop (part_start n_fill_avg n_left t) pages
  unfolding parts
  parts_from zero t h =
      let last : part_start n_fill_avg n_left t ≡ length pages = omega (
        arith,
        part_start_lem n_fill_avg n_left t,
        whole,
        mod-lt (length pages) positive,
        ap (λ (n : ℕ). n_fill_avg * n) h,
      ) in
      sym (ap (λ n. drop n pages) last ∙ drop-length pages)
  parts_from (suc n) t h =
      ap (λ xs. part_of n_threads pages t ++ xs) (parts_from n (suc t) (omega arith))
      ∙ part_of_lem t (omega arith)

  -- The parts that the threads take make up all pages, in their order: none is left out and none is taken
  -- twice, however many threads there are.
  pub parts_lem : parts n_threads pages n_threads 0 ≡ pages
  parts_lem =
      let first : part_start n_fill_avg n_left 0 ≡ 0 =
        part_start_lem n_fill_avg n_left 0 ∙ omega arith in
      parts_from n_threads 0 (omega arith) ∙ ap (λ n. drop n pages) first

-- The distances to the anchors that the threads of `find_k_nearest` fill in, sorted, are those that a single
-- thread fills in, however many threads there are.
pub anchor_distances_lem :
    (dist_func : Vector → Vector → ℕ) (query : Vector) (cached_vectors : List Vector)
    (cached_max_dists : List Tagged) (n_threads : ℕ)
    → 0 < n_threads
    → anchor_distances dist_func query cached_vectors cached_max_dists n_threads
      ≡ fill_dist_to_anchor_buffer dist_func cached_vectors cached_max_dists query true
unfolding anchor_distances fill_dist_to_anchor_buffer
anchor_distances_lem dist_func query cached_vectors cached_max_dists n_threads positive =
    elim (Bool-cases (ltb (n_threads * 2) (length cached_max_dists))) [
      | inl e ↦ rw (e, parts_lem n_threads positive cached_max_dists) refl
      | inr e ↦ rw e refl
    ]
