-- ===== src/Cache.antt =====
-- The caches of a database, of modules/execution/execution.cppm: the first vector of each page, which
-- is its anchor, and the maximal distance of each page that holds vectors.
use spheres_benchmark.Prelude.{
  ℕ, zero, suc, ◌+◌, ◌-◌, Bool, Option, none, some, List, [], ◌∷◌, ◌++◌, ltb, ◌==◌, if◌then◌else◌,
  ◌>>=◌, length, get_elem?, set, replicate,
}
use spheres_benchmark.Storage.{Vector, Storage, get_n_vectors_of, get_vector, get_max_dist_at}
use spheres_benchmark.Tagged.{Tagged, sort}
pub mod Fresh

-- The rows of `cached_vectors`, grown to `n_pages` rows of zeros.
unfoldable pub grown_cache : Storage → List Vector → List Vector
grown_cache s cache =
    if ltb (length cache) s.n_pages
    then cache ++ replicate (s.n_pages - length cache) (replicate s.vector_dim 0)
    else cache

-- The loop of `update_anchor_cache_single_threaded` over the `n` pages from page `i` on.
unfoldable pub copy_anchors : Storage → ℕ → ℕ → List Vector → Option (List Vector)
copy_anchors s zero i cache = some cache
copy_anchors s (suc n) i cache = do
  count ← get_n_vectors_of s i
  cache' ← if count == 0 then some cache else (do a ← get_vector s i 0; some (set cache i a))
  copy_anchors s n (suc i) cache'

unfoldable pub update_anchor_cache : Storage → List Vector → Option (List Vector)
unfolding copy_anchors grown_cache
update_anchor_cache s cache = copy_anchors s s.n_pages 0 (grown_cache s cache)

-- The loop of `update_cached_max_dist_single_threaded` over the `n` pages from page `i` on.
unfoldable pub collect_max_dists : Storage → ℕ → ℕ → Option (List Tagged)
collect_max_dists s zero i = some []
collect_max_dists s (suc n) i = do
  count ← get_n_vectors_of s i
  d ← get_max_dist_at s i
  rest ← collect_max_dists s n (suc i)
  some (if ltb 0 count then (d, i) ∷ rest else rest)

unfoldable pub update_cached_max_dist : Storage → Option (List Tagged)
unfolding collect_max_dists
update_cached_max_dist s = collect_max_dists s s.n_pages 0

module _ (dist_func : Vector → Vector → ℕ) where
  -- The loop of `fill_dist_to_anchor_buffer_single_threaded`, which `fill_dist_to_anchor_buffer_worker`
  -- shares.
  unfoldable pub dists_to_anchors : List Vector → List Tagged → Vector → Option (List Tagged)
  dists_to_anchors cache [] query = some []
  dists_to_anchors cache ((d, idx) ∷ pages) query = do
    anchor ← get_elem? cache idx
    rest ← dists_to_anchors cache pages query
    some ((dist_func query anchor, idx) ∷ rest)

  -- Both overloads, the one that is given copies of the caches and the one that is given views of them.
  unfoldable pub fill_dist_to_anchor_buffer :
      List Vector → List Tagged → Vector → Bool → Option (List Tagged)
  unfolding dists_to_anchors
  fill_dist_to_anchor_buffer cache cached_max_dists query sorted = do
    buffer ← dists_to_anchors cache cached_max_dists query
    some (if sorted then sort buffer else buffer)
