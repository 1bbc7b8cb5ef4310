-- ===== src/Parallel/Filling.antt =====
-- The parallel prefill: `batch_prefill_worker` of modules/execution/execution.cppm and
-- `batch_prefill_parallel` of modules/interface/interface.cppm. Threads act in whole turns, as in the search.
use spheres_benchmark.Prelude.{
  ℕ, zero, suc, ◌-◌, ◌/◌, Bool, false, ◌||◌, Option, none, some, List, [], ◌∷◌, ◌++◌, map, length,
  get_elem?, set, take, replicate, min, ltb, leb, ◌==◌, if◌then◌else◌, ◌>>=◌, add_size, mul_size,
}
use spheres_benchmark.Storage.{Vector, Storage, append_new_vector, update_in_page_max_dist}
use spheres_benchmark.Tagged.{Tagged, push_heap, pop_heap, worst, sort}
use spheres_benchmark.Prefill.{Entry, vectors_per_page, create_files}
use spheres_benchmark.Parallel.{Worker, in_buffer, front, Searching, is_below, lowered, outputs}

-- The body of the loop over the vectors of a morsel.
unfoldable pub consider_vector : ℕ → Option ℕ → Tagged → List Tagged → List Tagged
consider_vector max_num none c heap =
    if ltb (length heap) max_num
    then push_heap c heap
    else if ltb c.0 (worst heap)
    then push_heap c (pop_heap heap)
    else heap
consider_vector max_num (some bound) c heap =
    if ltb bound c.0
    then heap
    else if ltb (length heap) max_num
    then push_heap c heap
    else if ltb c.0 (worst heap)
    then push_heap c (pop_heap heap)
    else heap

-- The indices in `internal_buffer`, of which the first `n` are stored.
unfoldable pub store_listed : Storage → ℕ → List Entry → ℕ → List Tagged → Option Storage
store_listed s page_idx entries zero chosen = some s
store_listed s page_idx entries (suc n) [] = none
store_listed s page_idx entries (suc n) (c ∷ chosen) = do
  e ← get_elem? entries c.1
  t ← append_new_vector s e.0 e.1 page_idx
  store_listed t page_idx entries n chosen

abbrev pub is_chosen : ℕ → ℕ → List Tagged → Bool
is_chosen i zero chosen = false
is_chosen i (suc n) [] = false
is_chosen i (suc n) (c ∷ chosen) = i == c.1 || is_chosen i n chosen

-- `std::erase_if` with the counter at `i`.
unfoldable pub erase_chosen : ℕ → ℕ → List Tagged → List Entry → List Entry
erase_chosen i n chosen [] = []
erase_chosen i n chosen (e ∷ entries) =
    if is_chosen i n chosen
    then erase_chosen (suc i) n chosen entries
    else e ∷ erase_chosen (suc i) n chosen entries

-- The outputs of the threads are copied to the data of `internal_buffer`, and then it is resized to
-- their number. Where that is more than its size before, `resize` sets the items from there on to zero.
unfoldable pub gathered : ℕ → List Tagged → List Tagged
gathered old_size outs = take old_size outs ++ replicate (length outs - old_size) (0, 0)

-- `n_outputs` is 0 again for every thread; what stood at the front of its buffer is still there.
abbrev pub restarted : Worker → Worker
restarted w = record w { heap = []; stale = front w }

module _ (dist_func : Vector → Vector → ℕ) (max_num : ℕ) where
  -- The loop over the vectors of a morsel, `n` of them from `current` on.
  unfoldable pub consider_vectors :
      List Entry → Vector → Option ℕ → ℕ → ℕ → List Tagged → Option (List Tagged)
  unfolding consider_vector
  consider_vectors entries anchor bound zero current heap = some heap
  consider_vectors entries anchor bound (suc n) current heap = do
    e ← get_elem? entries current
    consider_vectors entries anchor bound n (suc current)
        (consider_vector max_num bound (dist_func e.1 anchor, current) heap)

  -- A turn of a thread of `batch_prefill_worker`.
  unfoldable pub fill_turn : List Entry → ℕ → ℕ → Searching → Option Searching
  unfolding consider_vectors
  fill_turn entries step thread st = do
    let morsel = st.next_morsel
    let max_morsel = length entries
    let claimed = record st { next_morsel = add_size morsel step }
    if leb max_morsel morsel then some claimed else (do
      w ← get_elem? st.workers thread
      anchor ← get_elem? entries 0
      heap ←
          consider_vectors entries anchor.1 st.shared_data
            (min max_morsel (add_size step morsel) - morsel) morsel w.heap
      kept ← in_buffer w heap
      let w' = record w { heap = kept }
      some (record claimed {
        shared_data =
            if is_below (front w') st.shared_data
            then lowered st.shared_data (front w')
            else st.shared_data;
        workers = set st.workers thread w';
      }))

  unfoldable pub fill_turns : List Entry → ℕ → List ℕ → Searching → Option Searching
  unfolding fill_turn
  fill_turns entries step [] st = some st
  fill_turns entries step (thread ∷ threads) st = do
    st' ← fill_turn entries step thread st
    fill_turns entries step threads st'

  -- A round of the `while` loop, with the order in which the threads take their morsels; `none` also
  -- while morsels are left. The result is the storage, the vectors that are left, the threads, and the
  -- size of `internal_buffer`.
  unfoldable pub fill_page :
      Storage
      → ℕ
      → List Entry
      → List Worker
      → ℕ
      → ℕ
      → List ℕ
      → Option (Storage × List Entry × List Worker × ℕ)
  unfolding fill_turns gathered store_listed erase_chosen
  fill_page s page_idx entries workers old_size step threads = do
    st ← fill_turns entries step threads (record {
      next_morsel = 0;
      n_pruned = 0;
      shared_data = none;
      workers = map restarted workers;
    })
    let internal_buffer = sort (gathered old_size (outputs st.workers))
    let n_vectors = min max_num (length internal_buffer)
    finished ← if leb (length entries) st.next_morsel then some st else none
    t ← store_listed s page_idx entries n_vectors internal_buffer
    last ← if n_vectors == 0 then none else get_elem? internal_buffer (n_vectors - 1)
    u ← update_in_page_max_dist t page_idx last.0
    some (
      u,
      erase_chosen 0 n_vectors internal_buffer entries,
      finished.workers,
      length internal_buffer,
    )

  -- The `while` loop, one round for each order of the threads.
  unfoldable pub fill_pages :
      Storage → ℕ → List Entry → List Worker → ℕ → ℕ → List (List ℕ) → Option Storage
  unfolding fill_page
  fill_pages s page_idx [] workers old_size step rounds = some s
  fill_pages s page_idx (e ∷ entries) workers old_size step [] = none
  fill_pages s page_idx (e ∷ entries) workers old_size step (threads ∷ rounds) = do
    (t, left, workers', size) ← fill_page s page_idx (e ∷ entries) workers old_size step threads
    fill_pages t (suc page_idx) left workers' size step rounds

-- With the density `num / den`; the caches are filled from the storage at the end.
unfoldable pub batch_prefill_parallel :
    (Vector → Vector → ℕ)
    → Storage
    → List Entry
    → ℕ
    → ℕ
    → List Worker
    → List (List ℕ)
    → Option Storage
unfolding fill_pages vectors_per_page create_files
batch_prefill_parallel dist_func s entries num den workers rounds =
    let max_num = vectors_per_page s num den in
    let n_new = length entries / (mul_size max_num s.file_size / s.page_size) in
    let step = length entries / length workers / 2 in
    fill_pages dist_func max_num (create_files n_new s) 0 entries workers
      (mul_size max_num (length workers)) step rounds
