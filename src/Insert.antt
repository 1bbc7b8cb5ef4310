-- ===== src/Insert.antt =====
-- `insert_a_vector` of modules/execution/execution.cppm, and what it calls on the way.
use spheres_benchmark.Prelude.{
  ℕ, zero, suc, ◌+◌, ◌-◌, Bool, true, false, ◌&&◌, Option, none, some, List, [], ◌∷◌, length,
  replicate, set, ltb, leb, ◌==◌, if◌then◌else◌, ◌>>=◌, add_size,
}
use spheres_benchmark.Storage.{
  Vector, Storage, create_storage_file, append_new_vector, append_new_vector_at,
  place_new_vector_at, update_in_page_max_dist, get_array_view_of_page, get_n_vectors_of,
  get_max_dist_at, get_vector, get_vector_id, calculate_file_index, calculate_page_index,
}
use spheres_benchmark.Tagged.{Tagged}
use spheres_benchmark.Cache.{
  update_anchor_cache, update_cached_max_dist, fill_dist_to_anchor_buffer,
}
use spheres_benchmark.Prefill.{vectors_per_page}
pub mod Cases
pub mod Victim
pub mod Empty
pub mod Entries
pub mod Stored
pub mod Displaced

-- The storage and the buffers that the function is given by reference.
pub record Inserting : Type 0 where
  pub db_storage : Storage
  pub cached_anchors : List Vector
  pub cached_max_dists : List Tagged
  pub dist_to_anchor_buffer : List Tagged

-- The calls that bring the caches up to date: both, or that of the maximal distances.
unfoldable pub refresh_both : Inserting → Storage → Option Inserting
refresh_both st s = do
  anchors ← update_anchor_cache s st.cached_anchors
  max_dists ← update_cached_max_dist s
  some (record st { db_storage = s; cached_anchors = anchors; cached_max_dists = max_dists })

unfoldable pub refresh_max_dists : Inserting → Storage → Option Inserting
refresh_max_dists st s = do
  max_dists ← update_cached_max_dist s
  some (record st { db_storage = s; cached_max_dists = max_dists })

-- The index of the first page that `cached_max_dists` does not list.
unfoldable pub mark_used : List Tagged → List ℕ → List ℕ
mark_used [] all_page_idx = all_page_idx
mark_used (c ∷ cached_max_dists) all_page_idx = mark_used cached_max_dists (set all_page_idx c.1 0)

unfoldable pub find_one : List ℕ → ℕ
find_one [] = 0
find_one (x ∷ xs) = if x == 1 then 0 else suc (find_one xs)

unfoldable pub empty_page : Inserting → ℕ
unfolding mark_used find_one
empty_page st = find_one (mark_used st.cached_max_dists (replicate st.db_storage.n_pages 1))

-- `if (max_dist < dist) { max_dist = dist; }`
unfoldable pub larger : ℕ → ℕ → ℕ
larger max_dist dist = if ltb max_dist dist then dist else max_dist

module _ (dist_func : Vector → Vector → ℕ) where
  -- The loop of `find_victim_single_threaded` from index `i` on.
  unfoldable pub find_equal : ℕ → Vector → ℕ → List Vector → ℕ
  find_equal max_dist anchor i [] = i
  find_equal max_dist anchor i (v ∷ view) =
      if max_dist == dist_func v anchor then i else find_equal max_dist anchor (suc i) view

  abbrev pub victim_of : ℕ → List Vector → ℕ
  victim_of max_dist [] = 0
  victim_of max_dist (anchor ∷ view) = find_equal max_dist anchor 1 view

  unfoldable pub find_victim_single_threaded : Storage → ℕ → Option ℕ
  unfolding find_equal
  find_victim_single_threaded s page_idx = do
    max_dist ← get_max_dist_at s page_idx
    view ← get_array_view_of_page s page_idx
    some (victim_of max_dist view)

  -- The loop of `calculate_new_max_dist`.
  unfoldable pub largest : ℕ → Vector → List Vector → ℕ
  largest max_dist anchor [] = max_dist
  largest max_dist anchor (v ∷ view) = largest (larger max_dist (dist_func v anchor)) anchor view

  abbrev pub max_dist_of : List Vector → ℕ
  max_dist_of [] = 0
  max_dist_of (anchor ∷ view) = largest 0 anchor view

  unfoldable pub calculate_new_max_dist : Storage → ℕ → Option ℕ
  unfolding largest larger
  calculate_new_max_dist s page_idx = do
    view ← get_array_view_of_page s page_idx
    some (max_dist_of view)

  module _ (num den : ℕ) (st : Inserting) (new_id : ℕ) (new_vector : Vector) where
    unfoldable pub case1 : Option Inserting
    case1 = do s ← append_new_vector st.db_storage new_id new_vector 0; refresh_both st s

    unfoldable pub case2 : ℕ → Option Inserting
    case2 page_idx = do
      s ← append_new_vector st.db_storage new_id new_vector page_idx
      new_max_dist ← calculate_new_max_dist s page_idx
      t ← update_in_page_max_dist s page_idx new_max_dist
      refresh_max_dists st t

    unfoldable pub case3 : ℕ → Option Inserting
    case3 page_idx = do
      s ← append_new_vector st.db_storage new_id new_vector page_idx
      some (record st { db_storage = s })

    -- With the victim, which the function then inserts by a call of itself.
    unfoldable pub case4 : ℕ → Option (Inserting × Option (ℕ × Vector))
    case4 page_idx = do
      let s = st.db_storage
      victim_index ← find_victim_single_threaded s page_idx
      victim_id ← get_vector_id s page_idx victim_index
      victim ← get_vector s page_idx victim_index
      t ←
          place_new_vector_at s new_id new_vector (calculate_file_index s page_idx)
            (calculate_page_index s page_idx) victim_index
      new_max_dist ← calculate_new_max_dist t page_idx
      u ← update_in_page_max_dist t page_idx new_max_dist
      next ← refresh_max_dists st u
      buffer ←
          fill_dist_to_anchor_buffer dist_func next.cached_anchors next.cached_max_dists victim true
      some (record next { dist_to_anchor_buffer = buffer }, some (victim_id, victim))

    unfoldable pub case5 : Option Inserting
    unfolding empty_page
    case5 = do
      s ← append_new_vector st.db_storage new_id new_vector (empty_page st)
      refresh_both st s

    -- Case 8 has the same body.
    unfoldable pub case6 : Option Inserting
    case6 = do
      let s = create_storage_file st.db_storage
      t ← append_new_vector_at s new_id new_vector (length s.files - 1) 0
      refresh_both st t

    unfoldable pub case7 : ℕ → ℕ → Option Inserting
    case7 page_idx current_best_dist = do
      s ← append_new_vector st.db_storage new_id new_vector page_idx
      t ← update_in_page_max_dist s page_idx current_best_dist
      refresh_max_dists st t

    abbrev pub no_victim : Option Inserting → Option (Inserting × Option (ℕ × Vector))
    no_victim m = m >>= λ st. some (st, none)

    -- The tests for the best page, in the order of the code; at the end it throws.
    unfoldable pub choose_case : ℕ → ℕ → ℕ → ℕ → Option (Inserting × Option (ℕ × Vector))
    choose_case page_idx n_vectors current_best_dist max_dist =
        let max_num_vectors = vectors_per_page st.db_storage num den in
        let listed = length st.cached_max_dists in
        let n_pages = st.db_storage.n_pages in
        let n = add_size n_vectors 1 in
        if ltb current_best_dist max_dist && leb n max_num_vectors
        then no_victim (case3 page_idx)
        else if ltb current_best_dist max_dist && ltb max_num_vectors n
        then case4 page_idx
        else if leb max_dist current_best_dist && ltb listed n_pages
        then no_victim case5
        else if leb max_dist current_best_dist && leb n_pages listed
        then no_victim case6
        else if leb max_dist current_best_dist && ltb n max_num_vectors
        then no_victim (case7 page_idx current_best_dist)
        else if leb max_dist current_best_dist && leb max_num_vectors n
        then no_victim case6
        else none

    abbrev pub with_best : List Tagged → Option (Inserting × Option (ℕ × Vector))
    with_best [] = no_victim case1
    with_best (best ∷ others) = do
      n_vectors ← get_n_vectors_of st.db_storage best.1
      max_dist ← get_max_dist_at st.db_storage best.1
      if n_vectors == 1
          then no_victim (case2 best.1)
          else choose_case best.1 n_vectors best.0 max_dist

  -- One call, up to the call of itself: the new state, and the victim that remains to be inserted.
  unfoldable pub insert_step :
      ℕ → ℕ → Inserting → ℕ → Vector → Option (Inserting × Option (ℕ × Vector))
  unfolding choose_case
  insert_step num den st new_id new_vector =
      with_best num den st new_id new_vector st.dist_to_anchor_buffer

  -- With fuel for the calls; `none` also if that runs out.
  unfoldable pub insert_a_vector : ℕ → ℕ → ℕ → Inserting → ℕ → Vector → Option Inserting
  unfolding insert_step
  insert_a_vector zero num den st new_id new_vector = none
  insert_a_vector (suc fuel) num den st new_id new_vector =
      insert_step num den st new_id new_vector >>= λ next. elim next.1 [
        | none ↦ some next.0
        | some victim ↦ insert_a_vector fuel num den next.0 victim.0 victim.1
      ]
