-- ===== src/Baseline.antt =====
-- baseline/baseline.cpp: the engine that compares every query with every vector.
use spheres_benchmark.Prelude.{
  ℕ, zero, suc, Bool, List, [], ◌∷◌, length, ltb, if◌then◌else◌, row_at,
}
use spheres_benchmark.Prelude.Int.{ℤ, pos, ◌+ℤ◌, ◌-ℤ◌, ◌*ℤ◌, pos_part}
use spheres_benchmark.Tagged.{Tagged, push_heap, pop_heap, worst}
pub mod Ranked
pub mod Agrees
pub mod Engine
pub mod Run

-- The loop of `squared_l2`, in exact arithmetic. `y` is indexed up to the size of `x`.
unfoldable pub add_squares : ℤ → List ℤ → List ℤ → ℤ
add_squares sum [] y = sum
add_squares sum (a ∷ x) [] = sum
add_squares sum (a ∷ x) (b ∷ y) =
    let difference = a -ℤ b in add_squares (sum +ℤ difference *ℤ difference) x y

unfoldable pub squared_l2 : List ℤ → List ℤ → ℕ
unfolding add_squares
squared_l2 x y = pos_part (add_squares (pos 0) x y)

-- The body of the loop over the vectors: a `HeapEntry` goes into the heap, or not. The priority queue
-- has the greatest entry on top, as the heaps of Tagged have it in front.
unfoldable pub consider : ℕ → List Tagged → Tagged → List Tagged
consider k heap entry =
    if ltb (length heap) k
    then push_heap entry heap
    else if ltb entry.0 (worst heap)
    then push_heap entry (pop_heap heap)
    else heap

-- `query_results[rank - 1] = heap.top().second`, down to rank 1: the row is filled from its end.
unfoldable pub unload : List Tagged → List ℕ → List ℕ
unload [] row = row
unload (top ∷ heap) row = unload heap (top.1 ∷ row)

module _ {ℓ} {A : Type ℓ} (distance_of : List A → List A → ℕ) where
  -- The loop over the vectors, `n` of them from `vector_index` on. They stand one behind the other in
  -- one array.
  unfoldable pub scan_vectors : ℕ → List A → List A → ℕ → ℕ → ℕ → List Tagged → List Tagged
  unfolding consider
  scan_vectors dim vectors query k zero vector_index heap = heap
  scan_vectors dim vectors query k (suc n) vector_index heap =
      let vector = row_at dim vectors vector_index in
      scan_vectors dim vectors query k n (suc vector_index)
        (consider k heap (distance_of vector query, vector_index))

  -- The body of the loop over the queries.
  unfoldable pub query_row : ℕ → List A → List A → ℕ → ℕ → List ℕ
  unfolding scan_vectors unload
  query_row dim vectors query k n_base = unload (scan_vectors dim vectors query k n_base 0 []) []

  -- The loop over the queries, `n` of them from `query_index` on.
  unfoldable pub search_queries : ℕ → List A → List A → ℕ → ℕ → ℕ → ℕ → List (List ℕ)
  unfolding query_row
  search_queries dim vectors queries k n_base zero query_index = []
  search_queries dim vectors queries k n_base (suc n) query_index =
      query_row dim vectors (row_at dim queries query_index) k n_base
      ∷ search_queries dim vectors queries k n_base n (suc query_index)
