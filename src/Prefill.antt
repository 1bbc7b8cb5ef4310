-- ===== src/Prefill.antt =====
-- `batch_prefill_single_threaded` of modules/execution/execution.cppm: vectors are stored page by page,
-- each page holding the first vector that is left and the nearest of the others.
use spheres_benchmark.Prelude.{
  ℕ, zero, suc, ◌+◌, ◌*◌, ◌/◌, Bool, true, false, ◌||◌, Option, none, some, List, [], ◌∷◌, ltb,
  ◌==◌, if◌then◌else◌, ◌>>=◌, length, get_elem?, sub_size, mul_size,
}
use spheres_benchmark.Storage.{
  Vector, Storage, create_storage_file, append_new_vector, update_in_page_max_dist,
}
use spheres_benchmark.Tagged.{Tagged, push_heap, pop_heap, worst}
pub mod Choice
pub mod Picks
pub mod Fill
pub mod Ball
pub mod Complete
pub mod Whole

-- An id and its vector, of the two parallel arguments `ids` and `new_vectors`.
abbrev pub Entry : Type 0
Entry = ℕ × Vector

-- The body of the loop that looks for the nearest vectors.
unfoldable pub offer_nearest : ℕ → Tagged → List Tagged → List Tagged
offer_nearest max_num_nearest c heap =
    if ltb (length heap) max_num_nearest
    then push_heap c heap
    else if ltb c.0 (worst heap)
    then push_heap c (pop_heap heap)
    else heap

-- Whether `vector_indices` contains the index: it has 0 and the indices of the heap.
abbrev pub is_listed : ℕ → List Tagged → Bool
is_listed i [] = false
is_listed i (c ∷ heap) = i == c.1 || is_listed i heap

-- `std::erase_if` with the counter at `i`.
unfoldable pub erase_listed : ℕ → List Tagged → List Entry → List Entry
erase_listed i heap [] = []
erase_listed i heap (e ∷ entries) =
    if i == 0 || is_listed i heap
    then erase_listed (suc i) heap entries
    else e ∷ erase_listed (suc i) heap entries

-- The loop that appends the vectors of the heap to the page.
unfoldable pub append_listed : Storage → ℕ → List Entry → List Tagged → Option Storage
append_listed s page_idx entries [] = some s
append_listed s page_idx entries (c ∷ heap) = do
  e ← get_elem? entries c.1
  t ← append_new_vector s e.0 e.1 page_idx
  append_listed t page_idx entries heap

-- `floor(max_num_vectors_per_page * in_page_vector_density)`, with the density as a fraction.
unfoldable pub vectors_per_page : Storage → ℕ → ℕ → ℕ
vectors_per_page s num den = s.max_num_vectors_per_page * num / den

unfoldable pub create_files : ℕ → Storage → Storage
create_files zero s = s
create_files (suc n) s = create_files n (create_storage_file s)

module _ (dist_func : Vector → Vector → ℕ) where
  unfoldable pub find_nearest : ℕ → Vector → ℕ → List Entry → List Tagged → List Tagged
  unfolding offer_nearest
  find_nearest max_num_nearest anchor i [] heap = heap
  find_nearest max_num_nearest anchor i (e ∷ entries) heap =
      find_nearest max_num_nearest anchor (suc i) entries
        (offer_nearest max_num_nearest (dist_func anchor e.1, i) heap)

  -- One round of the `while` loop, on the entries `e ∷ rest`: the new storage, and what is left.
  unfoldable pub prefill_page : ℕ → Storage → ℕ → Entry → List Entry → Option (Storage × List Entry)
  unfolding find_nearest append_listed erase_listed
  prefill_page max_num s page_idx e rest = do
    let n_nearest = find_nearest (sub_size max_num 1) e.1 1 rest []
    t ← append_new_vector s e.0 e.1 page_idx
    u ← append_listed t page_idx (e ∷ rest) n_nearest
    w ← update_in_page_max_dist u page_idx (worst n_nearest)
    some (w, erase_listed 0 n_nearest (e ∷ rest))

  -- The `while` loop, with fuel; `none` also if that runs out.
  unfoldable pub prefill_pages : ℕ → ℕ → Storage → ℕ → List Entry → Option Storage
  unfolding prefill_page
  prefill_pages zero max_num s page_idx entries = none
  prefill_pages (suc fuel) max_num s page_idx [] = some s
  prefill_pages (suc fuel) max_num s page_idx (e ∷ rest) = do
    (t, left) ← prefill_page max_num s page_idx e rest
    prefill_pages fuel max_num t (suc page_idx) left

  unfoldable pub batch_prefill_single_threaded : Storage → List Entry → ℕ → ℕ → Option Storage
  unfolding prefill_pages create_files vectors_per_page
  batch_prefill_single_threaded s entries num den =
      let max_num = vectors_per_page s num den in
      let n_new = length entries / (mul_size max_num s.file_size / s.page_size) in
      prefill_pages (length entries + 1) max_num (create_files n_new s) 0 entries
