-- ===== src/Tests/Search.antt =====
-- Searches of the small database.
use spheres_benchmark.Prelude.{
  ℕ, ◌≡◌, ◌≤◌, refl, List, [], ◌∷◌, arith, ◌>>=◌, Returns, get_elem?, length, take, ◌++◌, some,
}
use spheres_benchmark.Prelude.Int.{pos, ◌+ℤ◌, ◌-ℤ◌, ◌*ℤ◌}
use spheres_benchmark.Config.{squared_l2_distance, float}
use spheres_benchmark.Storage.{Vector, create_storage, element_size_of}
use spheres_benchmark.Storage.Pages.{all_pages}
use spheres_benchmark.Tagged.{Tagged}
use spheres_benchmark.Distance.{squared_l2_distance_of, prune_check}
use spheres_benchmark.Prefill.{vectors_per_page}
use spheres_benchmark.Knn.{Batch, batch_query, probe_page}
use spheres_benchmark.Knn.Nearest.{Nearest, Nearest-nil}
use spheres_benchmark.Knn.Scan.{page_candidates, probe_page-Nearest}
use spheres_benchmark.Knn.Exact.{database_candidates, batch_query-Nearest}
use spheres_benchmark.Knn.Sound.{
  squared_l2_distance_comm, squared_l2_distance_self, squared_l2-PruneIsSound,
}
use spheres_benchmark.Database.{find_k_nearest_batch}
use spheres_benchmark.Database.Search.{find_k_nearest_batch-Nearest}
use spheres_benchmark.Database.Answers.{AnswersAll}
use spheres_benchmark.Database.Lifecycle.{SizesFit, build_and_load, build-search_exact}
use spheres_benchmark.Tests.Samples.{
  square_of, squares, three, first_page, sample, sample_valid, anchors, anchors_fresh, sample_balls,
  sample_database, sample-IsFresh,
}

small_sizes : SizesFit squares squared_l2_distance float 64 128 1 2 8 three 1 2
unfolding vectors_per_page create_storage element_size_of
small_sizes = record {
  header = omega arith;
  vector_bytes = omega arith;
  paged = omega arith;
  exact = refl;
  density = omega arith;
  two = omega arith;
  small_file = omega arith;
  small = omega arith;
}

abbrev query : Vector
query = 4 ∷ []

build-search_exact_example : Returns (AnswersAll square_of three 2 (query ∷ [])) (
    build_and_load squares squared_l2_distance float 64 128 1 2 8 three 1 2 >>= λ db.
    find_k_nearest_batch db (query ∷ []) 2 0 1 (1 ∷ 0 ∷ []))
build-search_exact_example =
    build-search_exact squares squared_l2_distance float 64 128 1 2 8 three 1 2 small_sizes
      (squared_l2_distance_comm pos) (squared_l2_distance_self pos) (refl, (refl, (refl, tt))) 2 1
      (query ∷ []) (1 ∷ 0 ∷ []) (squared_l2-PruneIsSound pos 1) (omega arith) (omega arith)
      (refl, tt) (omega arith) (omega arith, (omega arith, tt)) (omega arith) (omega arith)

find_k_nearest_batch-Nearest_example :
    Returns
      (λ (b : Batch).
        (i : ℕ) (q : Vector)
        → get_elem? (query ∷ []) i ≡ some q
        → (row : List Tagged) × (get_elem? b.results i ≡ some row)
          × Nearest 2 (database_candidates square_of q (all_pages sample)) row)
      (find_k_nearest_batch sample_database (query ∷ []) 2 0 1 (1 ∷ []))
find_k_nearest_batch-Nearest_example =
    find_k_nearest_batch-Nearest sample_database 1 2 1 (query ∷ []) (1 ∷ []) sample-IsFresh
      sample_balls (squared_l2_distance_comm pos) (squared_l2-PruneIsSound pos 1) (omega arith)
      ((refl, omega arith), tt) (omega arith, (omega arith, tt)) (omega arith, tt) (omega arith)
      (omega arith)

batch_query-Nearest_example :
    Returns
      (λ (b : List Tagged).
        Nearest 2 (database_candidates square_of query (all_pages sample)) (take 2 b)
        × (length b ≡ 2))
      (batch_query square_of
        (prune_check squared_l2_distance)
        sample
        2
        query
        anchors
        ((1, 0) ∷ (0, 1) ∷ [])
        2
        ((7, 7) ∷ (8, 8) ∷ []))
batch_query-Nearest_example =
    batch_query-Nearest square_of (prune_check squared_l2_distance) (squared_l2_distance_comm pos) 1
      (squared_l2-PruneIsSound pos 1) sample sample_valid sample_balls 2 (omega arith) query refl
      anchors 2 ((7, 7) ∷ (8, 8) ∷ []) anchors_fresh (omega arith) (omega arith) (omega arith)

probe_page-Nearest_example :
    Returns (Nearest 2 (page_candidates square_of query first_page ++ [])) (
      probe_page square_of
        (prune_check squared_l2_distance)
        sample
        2
        query
        (square_of query (1 ∷ []), 0)
        [])
probe_page-Nearest_example =
    probe_page-Nearest square_of (prune_check squared_l2_distance) (squared_l2_distance_comm pos) 1
      (squared_l2-PruneIsSound pos 1) sample sample_valid 2 (omega arith) query refl 0 first_page
      refl (1 ∷ []) refl (omega arith) [] [] sample_balls.0 (Nearest-nil 2)

squared_l2-PruneIsSound_example : 24 ≤ square_of (8 ∷ []) (3 ∷ [])
unfolding squared_l2_distance_of prune_check ◌+ℤ◌ ◌-ℤ◌ ◌*ℤ◌
squared_l2-PruneIsSound_example =
    squared_l2-PruneIsSound pos 1 (3 ∷ []) (9 ∷ []) (8 ∷ []) 1 24 refl refl refl refl (omega arith)
