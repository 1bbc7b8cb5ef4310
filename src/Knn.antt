-- ===== src/Knn.antt =====
-- The search for the k nearest vectors by whole queries: `find_knn_batch_worker` of
-- modules/execution/execution.cppm and `find_k_nearest_batch` of modules/interface/interface.cppm.
use spheres_benchmark.Prelude.{
  ℕ, suc, ◌+◌, ◌-◌, Bool, true, Option, none, some, List, [], ◌∷◌, ◌++◌, ltb, ◌==◌, if◌then◌else◌,
  ◌>>=◌, length, get_elem?, set, take, drop, zero, leb, min, add_size,
}
use spheres_benchmark.Storage.{
  Vector, Storage, get_vector_id, get_max_dist_at, get_array_view_of_page,
}
use spheres_benchmark.Tagged.{Tagged, push_heap, pop_heap, worst}
use spheres_benchmark.Cache.{fill_dist_to_anchor_buffer}
pub mod Nearest
pub mod Scan
pub mod Exact
pub mod Sound
pub mod Rows
pub mod Legacy

-- The body of the loop over the vectors of a page behind its anchor: a candidate goes into the heap
-- while that is not full, and then in place of its worst item if it is nearer.
unfoldable pub offer : ℕ → Tagged → List Tagged → List Tagged
offer k c heap =
    if length heap == k
    then if ltb c.0 (worst heap) then push_heap c (pop_heap heap) else heap
    else push_heap c heap

module _ (dist_func : Vector → Vector → ℕ) (prune_check_func : ℕ → ℕ → ℕ → Bool) (s : Storage)
    (k : ℕ) (query : Vector) where
  unfoldable pub scan_rows : ℕ → ℕ → List Vector → List Tagged → Option (List Tagged)
  unfolding offer
  scan_rows page_idx i [] heap = some heap
  scan_rows page_idx i (row ∷ rows) heap = do
    id ← get_vector_id s page_idx i
    scan_rows page_idx (suc i) rows (offer k (dist_func row query, id) heap)

  -- The vectors of a page from its second one on.
  unfoldable pub scan_page : ℕ → List Tagged → Option (List Tagged)
  unfolding scan_rows
  scan_page page_idx heap = do
    view ← get_array_view_of_page s page_idx
    scan_rows page_idx 1 (drop 1 view) heap

  -- The body of the loop over the pages: the anchor, then the rest of the page, unless it is pruned.
  unfoldable pub probe_page : Tagged → List Tagged → Option (List Tagged)
  unfolding scan_page
  probe_page (dist_to_anchor, page_idx) heap = do
    max ← get_max_dist_at s page_idx
    if ltb (length heap) k
        then (do
          id ← get_vector_id s page_idx 0
          scan_page page_idx (push_heap (dist_to_anchor, id) heap))
        else if prune_check_func dist_to_anchor max (worst heap)
        then some heap
        else if ltb dist_to_anchor (worst heap)
        then (do
          id ← get_vector_id s page_idx 0
          scan_page page_idx (push_heap (dist_to_anchor, id) (pop_heap heap)))
        else scan_page page_idx heap

  -- The loop over the sorted pages, which stops when the budget of pages is used up.
  unfoldable pub probe_pages : ℕ → ℕ → List Tagged → List Tagged → Option (List Tagged)
  unfolding probe_page
  probe_pages n_pages_to_probe n_probed [] heap = some heap
  probe_pages n_pages_to_probe n_probed (page ∷ pages) heap =
      if n_probed == n_pages_to_probe then some heap else (do
        heap' ← probe_page page heap
        probe_pages n_pages_to_probe (n_probed + 1) pages heap')

  -- One query of the batch: what the thread's buffer, which the thread uses again for each query, then
  -- holds. The heap stands at its front; it only grows, so that one which is longer in the end than the
  -- buffer has been written past its end.
  unfoldable pub batch_query : List Vector → List Tagged → ℕ → List Tagged → Option (List Tagged)
  unfolding probe_pages
  batch_query cached_vectors cached_max_dists n_pages_to_probe old_buffer = do
    buffer ← fill_dist_to_anchor_buffer dist_func cached_vectors cached_max_dists query true
    heap ← probe_pages n_pages_to_probe 0 buffer []
    if leb (length heap) (length old_buffer)
        then some (heap ++ drop (length heap) old_buffer)
        else none

-- The copy of k places of a thread's buffer into the results.
abbrev pub copy_row : ℕ → List Tagged → Option (List Tagged)
copy_row k buffer = if leb k (length buffer) then some (take k buffer) else none

-- The shared state of the threads that work on a batch.
pub record Batch : Type 0 where
  pub next_morsel : ℕ
  pub buffers : List (List Tagged)
  pub results : List (List Tagged)

module _ (dist_func : Vector → Vector → ℕ) (prune_check_func : ℕ → ℕ → ℕ → Bool) (s : Storage)
    (k : ℕ) (cached_vectors : List Vector) (cached_max_dists : List Tagged) (n_pages_to_probe : ℕ)
    (queries : List Vector) where
  -- The `n` queries of a morsel from `current` on; the first k places of the buffer are the result.
  unfoldable pub batch_rows :
      ℕ → ℕ → List Tagged → List (List Tagged) → Option (List Tagged × List (List Tagged))
  unfolding batch_query
  batch_rows zero current buffer results = some (buffer, results)
  batch_rows (suc n) current buffer results = do
    query ← get_elem? queries current
    buffer' ←
        batch_query dist_func prune_check_func s k query cached_vectors cached_max_dists
          n_pages_to_probe buffer
    row ← copy_row k buffer'
    batch_rows n (suc current) buffer' (set results current row)

  -- A thread takes the next morsel and works it off. Threads share nothing else that they write.
  unfoldable pub batch_turn : ℕ → ℕ → Batch → Option Batch
  unfolding batch_rows
  batch_turn step thread b = do
    let morsel = b.next_morsel
    let claimed = record b { next_morsel = add_size morsel step }
    if leb (length queries) morsel then some claimed else (do
      buffer ← get_elem? b.buffers thread
      let limit = min (length queries) (add_size step morsel)
      (buffer', results') ← batch_rows (limit - morsel) morsel buffer b.results
      some (record claimed { buffers = set b.buffers thread buffer'; results = results' }))

  -- The turns of the threads, in the order in which they take their morsels.
  unfoldable pub batch_turns : ℕ → List ℕ → Batch → Option Batch
  unfolding batch_turn
  batch_turns step [] b = some b
  batch_turns step (thread ∷ threads) b = do
    b' ← batch_turn step thread b
    batch_turns step threads b'
