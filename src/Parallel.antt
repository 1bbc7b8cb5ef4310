-- ===== src/Parallel.antt =====
-- The page-level search: `find_knn_worker` and the dispatch of `spheres_worker` of
-- modules/execution/execution.cppm, and `find_k_nearest` of modules/interface/interface.cppm.
use spheres_benchmark.Prelude.{
  ℕ, zero, suc, ◌+◌, ◌-◌, ◌*◌, ◌/◌, ◌%◌, Bool, true, false, Option, none, some, List, [], ◌∷◌, ◌++◌,
  length, get_elem?, set, take, drop, concat, min, ltb, leb, ◌==◌, if◌then◌else◌, ◌>>=◌, add_size,
  ◌&&◌, ◌||◌,
}
use mathlib.Core.Bool.{not}
use spheres_benchmark.Storage.{Vector, Storage, get_max_dist_at}
use spheres_benchmark.Tagged.{Tagged, worst, sort}
use spheres_benchmark.Cache.{dists_to_anchors, fill_dist_to_anchor_buffer}
use spheres_benchmark.Knn.{probe_page}
pub mod Parts
pub mod Filling
pub mod Pruned
pub mod Defined

-- Where the part of a thread in `FillDistToAnchor` starts and ends: the first `n_left` threads take one
-- page more than the others.
unfoldable pub part_start : ℕ → ℕ → ℕ → ℕ
part_start n_fill_avg n_left thread =
    if ltb thread n_left
    then (n_fill_avg + 1) * thread
    else (n_fill_avg + 1) * n_left + n_fill_avg * (thread - n_left)

unfoldable pub part_end : ℕ → ℕ → ℕ → ℕ → ℕ
unfolding part_start
part_end n_fill_avg n_left max_morsel thread =
    if ltb thread n_left
    then part_start n_fill_avg n_left thread + n_fill_avg + 1
    else min max_morsel (part_start n_fill_avg n_left thread + n_fill_avg)

-- The pages of a thread: `vector_input1.subspan(start, end - start)`.
unfoldable pub part_of {ℓ} : {A : Type ℓ} → ℕ → List A → ℕ → List A
unfolding part_end
part_of n_threads pages thread =
    let n_fill_avg = length pages / n_threads in
    let n_left = length pages % n_threads in
    let start = part_start n_fill_avg n_left thread in
    take (part_end n_fill_avg n_left (length pages) thread - start) (drop start pages)

-- The parts of the threads from `thread` on, one behind the other, as they stand in the output.
unfoldable pub parts {ℓ} : {A : Type ℓ} → ℕ → List A → ℕ → ℕ → List A
unfolding part_of
parts n_threads pages zero thread = []
parts n_threads pages (suc n) thread =
    part_of n_threads pages thread ++ parts n_threads pages n (suc thread)

-- What a thread has: its heap, the places of its part of the buffer, and what stood at the front of that
-- before the search.
pub record Worker : Type 0 where
  pub heap : List Tagged
  pub capacity : ℕ
  pub stale : ℕ

-- The heap that a turn leaves. Heaps only grow: one that is longer than the thread's part of the buffer has
-- been written past its end.
abbrev pub in_buffer : Worker → List Tagged → Option (List Tagged)
in_buffer w heap = if leb (length heap) w.capacity then some heap else none

-- `heap[0].first`
abbrev pub front : Worker → ℕ
front w = if length w.heap == 0 then w.stale else worst w.heap

-- The shared counters and bound, `none` for infinity, and the workers.
pub record Searching : Type 0 where
  pub next_morsel : ℕ
  pub n_pruned : ℕ
  pub shared_data : Option ℕ
  pub workers : List Worker

-- A test against the bound that a thread has read; no distance is above infinity.
abbrev pub prune_by : (ℕ → ℕ → ℕ → Bool) → ℕ → ℕ → Option ℕ → Bool
prune_by prune_check_func dist_to_anchor max none = false
prune_by prune_check_func dist_to_anchor max (some bound) =
    prune_check_func dist_to_anchor max bound

abbrev pub is_below : ℕ → Option ℕ → Bool
is_below d none = true
is_below d (some bound) = ltb d bound

-- The loop that publishes a bound: it ends with the smaller one.
abbrev pub lowered : Option ℕ → ℕ → Option ℕ
lowered none proposed = some proposed
lowered (some bound) proposed = if leb bound proposed then some bound else some proposed

-- The outputs of all threads, sorted, of which the first k are the result: fewer fault.
abbrev pub outputs : List Worker → List Tagged
outputs [] = []
outputs (w ∷ workers) = w.heap ++ outputs workers

unfoldable pub collect_result : ℕ → List Worker → Option (List Tagged)
collect_result k workers =
    let internal_buffer = sort (outputs workers) in
    if ltb (length internal_buffer) k then none else some (take k internal_buffer)

-- `dist_to_anchor_buffer`: by the threads if there are more than two pages for each.
unfoldable pub anchor_distances :
    (Vector → Vector → ℕ) → Vector → List Vector → List Tagged → ℕ → Option (List Tagged)
unfolding parts
anchor_distances dist_func query cached_vectors cached_max_dists n_threads =
    if ltb (n_threads * 2) (length cached_max_dists)
    then (do
      buffer ←
          dists_to_anchors dist_func cached_vectors (parts n_threads cached_max_dists n_threads 0)
            query
      some (sort buffer))
    else fill_dist_to_anchor_buffer dist_func cached_vectors cached_max_dists query true

module _ (dist_func : Vector → Vector → ℕ) (prune_check_func : ℕ → ℕ → ℕ → Bool) (s : Storage)
    (k : ℕ) (query : Vector) where
  -- Whether a page is left out: by the bound that has been read, or by the heap once it is full.
  abbrev pub is_pruned : Option ℕ → Tagged → ℕ → List Tagged → Bool
  is_pruned current_global_max page max heap =
      prune_by prune_check_func page.0 max current_global_max
      || (not (ltb (length heap) k) && prune_check_func page.0 max (worst heap))

  -- The body of the loop over the pages of a morsel: the heap, and the number `n_p` of pruned pages.
  unfoldable pub visit_page : Option ℕ → Tagged → List Tagged × ℕ → Option (List Tagged × ℕ)
  visit_page current_global_max page found = do
    max ← get_max_dist_at s page.1
    heap ←
        if prune_by prune_check_func page.0 max current_global_max
        then some found.0
        else probe_page dist_func prune_check_func s k query page found.0
    some (heap, if is_pruned current_global_max page max found.0 then found.1 + 1 else found.1)

  unfoldable pub visit_pages : Option ℕ → List Tagged → List Tagged × ℕ → Option (List Tagged × ℕ)
  unfolding visit_page
  visit_pages current_global_max [] found = some found
  visit_pages current_global_max (page ∷ pages) found = do
    found' ← visit_page current_global_max page found
    visit_pages current_global_max pages found'

  -- The pages of a morsel; one that `dist_to_anchor_buffer` does not have faults.
  abbrev pub morsel_pages : List Tagged → ℕ → ℕ → Option (List Tagged)
  morsel_pages buffer zero current = some []
  morsel_pages buffer (suc n) current = do
    page ← get_elem? buffer current
    pages ← morsel_pages buffer n (suc current)
    some (page ∷ pages)

  -- A turn of a thread, which takes a morsel, works on it with the bound that it has read at its start,
  -- and then publishes its own: here no other thread acts in between.
  unfoldable pub search_turn : List Tagged → ℕ → ℕ → ℕ → Searching → Option Searching
  unfolding visit_pages
  search_turn buffer max_morsel step thread st = do
    let morsel = st.next_morsel
    let claimed = record st { next_morsel = add_size morsel step }
    if leb max_morsel morsel then some claimed else (do
      w ← get_elem? st.workers thread
      pages ← morsel_pages buffer (min max_morsel (add_size step morsel) - morsel) morsel
      found ← visit_pages st.shared_data pages (w.heap, 0)
      heap ← in_buffer w found.0
      let w' = record w { heap = heap }
      some (record claimed {
        n_pruned = st.n_pruned + found.1;
        shared_data =
            if is_below (front w') st.shared_data
            then lowered st.shared_data (front w')
            else st.shared_data;
        workers = set st.workers thread w';
      }))

  unfoldable pub search_turns : List Tagged → ℕ → ℕ → List ℕ → Searching → Option Searching
  unfolding search_turn
  search_turns buffer max_morsel step [] st = some st
  search_turns buffer max_morsel step (thread ∷ threads) st = do
    st' ← search_turn buffer max_morsel step thread st
    search_turns buffer max_morsel step threads st'

  -- `find_k_nearest`, with the order in which the threads take their morsels, up to the threads and the
  -- counter of pruned pages that it leaves; the workers and the counter are those before it.
  unfoldable pub find_k_nearest_state :
      List Vector → List Tagged → ℕ → ℕ → List ℕ → List Worker → ℕ → Option Searching
  unfolding anchor_distances search_turns
  find_k_nearest_state cached_vectors cached_max_dists n_pages_to_probe step threads workers
        n_pruned =
      do
        buffer ← anchor_distances dist_func query cached_vectors cached_max_dists (length workers)
        let max_morsel = if n_pages_to_probe == 0 then length buffer else n_pages_to_probe
        search_turns buffer max_morsel step threads
            (record { next_morsel = 0; n_pruned = n_pruned; shared_data = none; workers = workers })

  unfoldable pub find_k_nearest :
      List Vector → List Tagged → ℕ → ℕ → List ℕ → List Worker → Option (List Tagged)
  unfolding find_k_nearest_state collect_result
  find_k_nearest cached_vectors cached_max_dists n_pages_to_probe step threads workers = do
    st ←
        find_k_nearest_state cached_vectors cached_max_dists n_pages_to_probe step threads workers 0
    collect_result k st.workers
