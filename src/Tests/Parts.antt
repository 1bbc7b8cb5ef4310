-- ===== src/Tests/Parts.antt =====
-- Runs of the distances, the prefill and the caches.
use spheres_benchmark.Prelude.{
  ◌-◌, ◌*◌, ◌≡◌, ◌<◌, ◌↔◌, refl, true, get_elem?, some, List, [], ◌∷◌, arith, Returns,
}
use spheres_benchmark.Prelude.Int.{ℤ, pos, negsuc, ◌+ℤ◌, ◌-ℤ◌, ◌*ℤ◌}
use spheres_benchmark.Config.{squared_l2_distance, float}
use spheres_benchmark.Storage.{Storage, create_storage, element_size_of}
use spheres_benchmark.Storage.Slots.{create_storage-HoldsSlots}
use spheres_benchmark.Storage.Files.{create_storage-IsValid}
use spheres_benchmark.Distance.{prune_check, legacy_prune_check, squared_l2, squared_l2_distance_of}
use spheres_benchmark.Distance.Unrolled.{sum_squares, squared_l2-sum}
use spheres_benchmark.Distance.Prune.{prune_check_iff}
use spheres_benchmark.Knn.Scan.{IsBall}
use spheres_benchmark.Knn.Legacy.{point, line_distance, line_page, legacy_prune_loses}
use spheres_benchmark.Knn.Sound.{squared_l2_distance_comm, squared_l2_distance_self}
use spheres_benchmark.Prefill.{vectors_per_page, batch_prefill_single_threaded}
use spheres_benchmark.Prefill.Whole.{IsPrefilled, batch_prefill_complete}
use spheres_benchmark.Database.{Database, batch_prefill}
use spheres_benchmark.Database.Search.{IsFresh}
use spheres_benchmark.Database.Build.{created_database, batch_prefill-IsFresh}
use spheres_benchmark.Tests.Samples.{square_of, squares, three}

prune_check_iff_example :
    (prune_check squared_l2_distance (7 * 7) (2 * 2) 24 ≡ true) ↔ (2 < 7) × (24 < (7 - 2) * (7 - 2))
prune_check_iff_example = prune_check_iff 7 2 24

legacy_prune_loses_example :
    IsBall line_distance 1 (line_page 3 2)
    × (get_elem? (line_page 3 2).vectors 1 ≡ some (point 5))
    × (legacy_prune_check (line_distance (point 8) (point 3)) (line_page 3 2).max_dist 12 ≡ true)
unfolding squared_l2_distance_of ◌+ℤ◌ ◌-ℤ◌ ◌*ℤ◌
legacy_prune_loses_example = legacy_prune_loses 3 2 5 12 (omega arith) (omega arith) (omega arith)

abbrev nine : List (ℤ × ℤ)
nine =
    (pos 1, pos 4)
    ∷ (pos 2, pos 0)
    ∷ (negsuc 2, pos 1)
    ∷ (pos 0, pos 0)
    ∷ (pos 5, negsuc 0)
    ∷ (pos 1, pos 1)
    ∷ (pos 3, pos 8)
    ∷ (pos 2, pos 2)
    ∷ (pos 7, pos 6)
    ∷ []

squared_l2-sum_example : squared_l2 nine ≡ pos (sum_squares nine)
squared_l2-sum_example = squared_l2-sum nine

abbrev empty_storage : Storage
empty_storage = create_storage 64 128 float 1

batch_prefill_complete_example :
    Returns
      (IsPrefilled square_of 1 empty_storage three)
      (batch_prefill_single_threaded square_of empty_storage three 1 2)
unfolding vectors_per_page create_storage element_size_of
batch_prefill_complete_example =
    batch_prefill_complete square_of 1 (squared_l2_distance_comm pos) (squared_l2_distance_self pos)
      empty_storage three 1 2 (create_storage-IsValid 64 128 float 1 (omega arith) (omega arith)).0
      (refl, (refl, tt)) (omega arith) refl (omega arith) (omega arith) (omega arith) (omega arith)
      (create_storage-HoldsSlots 64 128 float 1 (omega arith) (omega arith) (omega arith))
      (refl, (refl, (refl, tt)))

abbrev empty_database : Database
empty_database = created_database squares 64 128 float 1 squared_l2_distance 2 8

batch_prefill-IsFresh_example :
    Returns
      (λ (new : Database).
        IsFresh new
        × IsPrefilled square_of 1 empty_storage three new.db_storage
        × (new.db_config ≡ empty_database.db_config)
        × (new.dist_func ≡ square_of)
        × (new.prune_check_func ≡ prune_check squared_l2_distance))
      (batch_prefill empty_database three 1 2)
unfolding vectors_per_page create_storage element_size_of
batch_prefill-IsFresh_example =
    batch_prefill-IsFresh empty_database 1 three 1 2 (squared_l2_distance_comm pos)
      (squared_l2_distance_self pos)
      (create_storage-IsValid 64 128 float 1 (omega arith) (omega arith)).0 (refl, (refl, tt))
      (omega arith) refl (omega arith) (omega arith) (omega arith) (omega arith)
      (create_storage-HoldsSlots 64 128 float 1 (omega arith) (omega arith) (omega arith))
      (refl, (refl, (refl, tt)))
