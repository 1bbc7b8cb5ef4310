-- ===== src/Insert/Displaced.antt =====
-- The insertion into a full page, which pushes a vector out of it.
use spheres_benchmark.Prelude.{ℕ, ◌≡◌, Option, some, ◌∷◌, SameItems}
use spheres_benchmark.Storage.{Vector, Storage}
use spheres_benchmark.Storage.Pages.{all_pages, IsValid}
use spheres_benchmark.Cache.Fresh.{index_pages}
use spheres_benchmark.Prefill.{Entry}
use spheres_benchmark.Prefill.Complete.{stored_entries}
use spheres_benchmark.Insert.{Inserting}

-- The state after an entry has been stored in the place of another, which is given back.
pub record IsExchanged (st : Inserting) (e : Entry) (r : Inserting × Option (ℕ × Vector))
    : Type 0 where
  pub valid : IsValid r.0.db_storage
  pub victim : Entry
  pub given_back : r.1 ≡ some victim
  pub same :
      SameItems
        (victim ∷ stored_entries (all_pages r.0.db_storage))
        (e ∷ stored_entries (all_pages st.db_storage))
  pub max_dists : r.0.cached_max_dists ≡ index_pages 0 (all_pages r.0.db_storage)
