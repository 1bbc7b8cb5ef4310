-- ===== src/Tests/Changes.antt =====
-- Runs of the insertion and of the page-level search.
use spheres_benchmark.Prelude.{
  ℕ, ◌≡◌, ◌≤◌, refl, some, none, List, [], ◌∷◌, arith, get_elem?, true, All, Returns, concat,
}
use spheres_benchmark.Prelude.Int.{◌+ℤ◌, ◌-ℤ◌, ◌*ℤ◌}
use spheres_benchmark.Config.{squared_l2_distance}
use spheres_benchmark.Storage.{Vector, get_max_dist_at, get_vector_id, get_array_view_of_page}
use spheres_benchmark.Prefill.{vectors_per_page}
use spheres_benchmark.Knn.{probe_page}
use spheres_benchmark.Tagged.{sort, push_heap}
use spheres_benchmark.Cache.{fill_dist_to_anchor_buffer}
use spheres_benchmark.Distance.{prune_check, squared_l2_distance_of}
use spheres_benchmark.ArrayView.{ArrayView, rows_from, reshape_array, sized_view, reshape_array_lem}
use spheres_benchmark.Insert.{Inserting, choose_case, max_dist_of, victim_of, largest, larger}
use spheres_benchmark.Insert.Stored.{IsInserted, choose_case-IsInserted}
use spheres_benchmark.Insert.Victim.{victim_of_lem}
use spheres_benchmark.Parallel.{anchor_distances, find_k_nearest}
use spheres_benchmark.Parallel.Parts.{anchor_distances_lem}
use spheres_benchmark.Tests.Samples.{
  square_of, sample, sample_valid, sample-HoldsSlots, first_page, anchors,
}

abbrev seven : List ℕ
seven = 1 ∷ 2 ∷ 3 ∷ 4 ∷ 5 ∷ 6 ∷ 7 ∷ []

anchor_distances_lem_example :
    anchor_distances square_of (4 ∷ []) anchors ((1, 0) ∷ (0, 1) ∷ []) 2
    ≡ fill_dist_to_anchor_buffer square_of anchors ((1, 0) ∷ (0, 1) ∷ []) (4 ∷ []) true
anchor_distances_lem_example =
    anchor_distances_lem square_of (4 ∷ []) anchors ((1, 0) ∷ (0, 1) ∷ []) 2 (omega arith)

reshape_array_lem_example :
    Returns
      (λ (view : ArrayView ℕ). concat (rows_from view view.s1 0) ≡ 1 ∷ 2 ∷ 3 ∷ 4 ∷ 5 ∷ 6 ∷ [])
      (reshape_array (sized_view (1 ∷ 2 ∷ 3 ∷ 4 ∷ 5 ∷ 6 ∷ []) 6) 2 3)
reshape_array_lem_example = reshape_array_lem (1 ∷ 2 ∷ 3 ∷ 4 ∷ 5 ∷ 6 ∷ []) 2 3 refl (omega arith)

abbrev state : Inserting
state = record {
  db_storage = sample;
  cached_anchors = anchors;
  cached_max_dists = (1, 0) ∷ (0, 1) ∷ [];
  dist_to_anchor_buffer = (9, 0) ∷ (25, 1) ∷ [];
}

choose_case-IsInserted_example :
    Returns (IsInserted state (13, 4 ∷ [])) (choose_case square_of 1 1 state 13 (4 ∷ []) 0 2 9 1)
unfolding vectors_per_page
choose_case-IsInserted_example =
    choose_case-IsInserted square_of 1 1 state 13 (4 ∷ []) sample_valid 1 sample-HoldsSlots refl
      refl (omega arith) 0 9 first_page refl (omega arith) (omega arith) (λ near. omega arith)
      (omega arith)

victim_of_lem_example :
    let m = max_dist_of square_of ((1 ∷ []) ∷ (2 ∷ []) ∷ (4 ∷ []) ∷ []) in
    ((w : Vector) × (get_elem?
          ((1 ∷ []) ∷ (2 ∷ []) ∷ (4 ∷ []) ∷ [])
          (victim_of square_of m ((1 ∷ []) ∷ (2 ∷ []) ∷ (4 ∷ []) ∷ []))
        ≡ some w)
      × (square_of w (1 ∷ []) ≡ m))
    × All (λ (v : Vector). square_of v (1 ∷ []) ≤ m) ((2 ∷ []) ∷ (4 ∷ []) ∷ [])
unfolding largest larger squared_l2_distance_of ◌+ℤ◌ ◌-ℤ◌ ◌*ℤ◌
victim_of_lem_example = victim_of_lem square_of (1 ∷ []) ((2 ∷ []) ∷ (4 ∷ []) ∷ []) (omega arith)

-- Three vectors are found by a morsel of two pages. By morsels of one page the second page is pruned by
-- the bound of a heap that has two items, so that the search ends with two items and reads past them.
two_by_two :
    find_k_nearest square_of
      (prune_check squared_l2_distance)
      sample
      3
      (1 ∷ [])
      anchors
      ((1, 0) ∷ (0, 1) ∷ [])
      0
      2
      (0 ∷ [])
      (record { heap = []; capacity = 4; stale = 0 } ∷ [])
    ≡ some ((0, 10) ∷ (1, 12) ∷ (64, 11) ∷ [])
unfolding find_k_nearest squared_l2_distance_of ◌+ℤ◌ ◌-ℤ◌ ◌*ℤ◌ prune_check
    fill_dist_to_anchor_buffer sort get_max_dist_at probe_page get_vector_id get_array_view_of_page
    push_heap
two_by_two = refl

one_by_one :
    find_k_nearest square_of
      (prune_check squared_l2_distance)
      sample
      3
      (1 ∷ [])
      anchors
      ((1, 0) ∷ (0, 1) ∷ [])
      0
      1
      (0 ∷ 0 ∷ [])
      (record { heap = []; capacity = 4; stale = 0 } ∷ [])
    ≡ none
unfolding find_k_nearest squared_l2_distance_of ◌+ℤ◌ ◌-ℤ◌ ◌*ℤ◌ prune_check
    fill_dist_to_anchor_buffer sort get_max_dist_at probe_page get_vector_id get_array_view_of_page
    push_heap
one_by_one = refl
