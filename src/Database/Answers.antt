-- ===== src/Database/Answers.antt =====
-- The answers of a database whose storage holds given entries.
use spheres_benchmark.Prelude.{
  ℕ, zero, suc, ◌*◌, ◌≤◌, ◌<◌, ◌≡◌, refl, sym, ap, ◌∙◌, some, List, [], ◌∷◌, map, arith, length,
  take, get_elem?, size_mod, All, All-map, SameItems, total, length-same, length-map, Returns,
}
use mathlib.Core.List.{map-append}
use spheres_benchmark.Storage.{Vector, Page, Storage}
use spheres_benchmark.Storage.Pages.{all_pages}
use spheres_benchmark.Tagged.{Tagged}
use spheres_benchmark.Knn.{Batch}
use spheres_benchmark.Knn.Nearest.{Nearest, Nearest-seen}
use spheres_benchmark.Knn.Scan.{row_candidates, PruneIsSound}
use spheres_benchmark.Knn.Exact.{database_candidates}
use spheres_benchmark.Prefill.{Entry}
use spheres_benchmark.Prefill.Complete.{zip, page_entries, stored_entries}
use spheres_benchmark.Prefill.Whole.{IsPrefilled}
use spheres_benchmark.Database.{Database, find_k_nearest_batch}
use spheres_benchmark.Database.Search.{IsFresh, find_k_nearest_batch-Nearest}

module _ (dist_func : Vector → Vector → ℕ) (query : Vector) where
  -- What an entry is to a query: its distance and its id.
  abbrev pub candidate : Entry → Tagged
  candidate e = (dist_func e.1 query, e.0)

  row_candidates-zip :
      (n : ℕ) (vs : List Vector) (ids : List ℕ)
      → row_candidates dist_func query (take n vs) ids
        ≡ map candidate (zip (take n ids) (take n vs))
  row_candidates-zip zero vs ids = refl
  row_candidates-zip (suc n) [] [] = refl
  row_candidates-zip (suc n) [] (i ∷ ids) = refl
  row_candidates-zip (suc n) (v ∷ vs) [] = refl
  row_candidates-zip (suc n) (v ∷ vs) (i ∷ ids) =
      ap (◌∷◌ (dist_func v query, i)) (row_candidates-zip n vs ids)

  database_candidates-stored :
      (ps : List Page) → database_candidates dist_func query ps ≡ map candidate (stored_entries ps)
  database_candidates-stored [] = refl
  database_candidates-stored (p ∷ ps) =
      rw (row_candidates-zip p.n_vectors p.vectors p.ids, database_candidates-stored ps)
        (sym (map-append candidate (page_entries p) (stored_entries ps)))

  total-map :
      (f : Tagged → ℕ) (es : List Entry)
      → total f (map candidate es) ≡ total (λ e. f (candidate e)) es
  total-map f [] = refl
  total-map f (e ∷ es) = omega (arith, total-map f es)

  pub candidates-same :
      (ps : List Page) (es : List Entry)
      → SameItems (stored_entries ps) es
      → SameItems (database_candidates dist_func query ps) (map candidate es)
  candidates-same ps es h f =
      rw (database_candidates-stored ps)
        (total-map f (stored_entries ps) ∙ h (λ e. f (candidate e)) ∙ sym (total-map f es))

  pub enough_candidates :
      (ps : List Page) (es : List Entry)
      → SameItems (stored_entries ps) es
      → length (database_candidates dist_func query ps) ≡ length es
  enough_candidates ps es h =
      length-same (database_candidates dist_func query ps) (map candidate es)
        (candidates-same ps es h)
      ∙ length-map es candidate

-- Every row of the result has the k nearest of the entries.
abbrev pub AnswersAll : (Vector → Vector → ℕ) → List Entry → ℕ → List Vector → Batch → Type 0
AnswersAll dist_func entries k queries b =
    (i : ℕ) (q : Vector)
    → get_elem? queries i ≡ some q
    → (row : List Tagged) × (get_elem? b.results i ≡ some row)
      × Nearest k (map (candidate dist_func q) entries) row

-- Searching a database whose storage holds the entries in balls.
pub search-prefilled :
    (db : Database) (dim k step : ℕ) (s : Storage) (entries : List Entry) (queries : List Vector)
    (threads : List ℕ)
    → IsFresh db
    → IsPrefilled db.dist_func dim s entries db.db_storage
    → ((u v : Vector) → db.dist_func u v ≡ db.dist_func v u)
    → PruneIsSound db.dist_func dim db.prune_check_func
    → 0 < k
    → k ≤ length entries
    → All (λ (q : Vector). length q ≡ dim) queries
    → All (λ (b : List Tagged). k ≤ length b) db.local_distance_buffers
    → All (λ (t : ℕ). t < length db.local_distance_buffers) threads
    → length queries ≤ step * length threads
    → step * length threads < size_mod
    → Returns
        (AnswersAll db.dist_func entries k queries)
        (find_k_nearest_batch db queries k 0 step threads)
search-prefilled db dim k step s entries queries threads fresh filled symmetric sound positive
      some_k dims places known enough small =
    let pages = all_pages db.db_storage in
    let good =
      All-map (λ (q : Vector). length q ≡ dim)
        (λ (q : Vector). (length q ≡ dim) × (k ≤ length (database_candidates db.dist_func q pages)))
        queries (λ q h. (h, rw (enough_candidates db.dist_func q pages entries filled.same) some_k))
        dims in
    let (b, run, rows) =
      find_k_nearest_batch-Nearest db dim k step queries threads fresh filled.balls symmetric sound
        positive good places known enough small in
    (
      b,
      run,
      λ i q at.
          let (row, found, near) = rows i q at in
          (
            row,
            found,
            Nearest-seen _ (candidates-same db.dist_func q pages entries filled.same) near,
          ),
    )
