-- ===== src/Tests/Samples.antt =====
-- A database of three vectors of one element, in pages of 64 bytes, two to a file.
use spheres_benchmark.Prelude.{
  ℕ, zero, suc, ◌≡◌, refl, ap, List, [], ◌∷◌, arith, some, get_elem?, All,
}
use mathlib.Core.Path.{subst}
use spheres_benchmark.Prelude.Int.{pos, ◌+ℤ◌, ◌-ℤ◌, ◌*ℤ◌}
use spheres_benchmark.Config.{
  SupportedDistanceFunctions, squared_l2_distance, float, DatabaseConfig,
}
use spheres_benchmark.Storage.{Vector, Page, Storage}
use spheres_benchmark.Storage.Pages.{all_pages, IsValid}
use spheres_benchmark.Storage.Slots.{HoldsSlots}
use spheres_benchmark.Distance.{squared_l2_distance_of, prune_check}
use spheres_benchmark.Cache.Fresh.{AnchorsBelow}
use spheres_benchmark.Knn.Scan.{IsBall, IsWithin}
use spheres_benchmark.Prefill.{Entry}
use spheres_benchmark.Database.{Database}
use spheres_benchmark.Database.Search.{IsFresh}

abbrev pub square_of : Vector → Vector → ℕ
square_of = squared_l2_distance_of pos

abbrev pub squares : SupportedDistanceFunctions → Vector → Vector → ℕ
squares f = square_of

abbrev pub three : List Entry
three = (10, 1 ∷ []) ∷ (11, 9 ∷ []) ∷ (12, 2 ∷ []) ∷ []

abbrev pub first_page : Page
first_page = record {
  n_vectors = 2;
  max_dist = 1;
  ids = 10 ∷ 12 ∷ 0 ∷ 0 ∷ [];
  vectors = (1 ∷ []) ∷ (2 ∷ []) ∷ (0 ∷ []) ∷ (0 ∷ []) ∷ [];
}

abbrev pub second_page : Page
second_page = record {
  n_vectors = 1;
  max_dist = 0;
  ids = 11 ∷ 0 ∷ 0 ∷ 0 ∷ [];
  vectors = (9 ∷ []) ∷ (0 ∷ []) ∷ (0 ∷ []) ∷ (0 ∷ []) ∷ [];
}

abbrev pub sample : Storage
sample = record {
  files = (first_page ∷ second_page ∷ []) ∷ [];
  n_files = 1;
  page_size = 64;
  file_size = 128;
  id_offset = 16;
  vector_offset = 48;
  n_pages = 2;
  element_size = 4;
  vector_dim = 1;
  max_num_vectors_per_page = 4;
}

abbrev pub sample_config : DatabaseConfig
sample_config = record {
  dtype = float;
  distance_function = squared_l2_distance;
  page_size = 64;
  file_size = 128;
  dim = 1;
  n_files = 1;
}

pub sample_valid : IsValid sample
sample_valid = record {
  paged = omega arith;
  files_count = refl;
  full = (refl, tt);
  pages_count = refl;
  bounded = omega arith;
  pages = (
    record { id_slots = refl; vector_slots = refl; fits = omega arith },
    (record { id_slots = refl; vector_slots = refl; fits = omega arith }, tt),
  );
}

some_inj {ℓ} : {A : Type ℓ} {a b : A} → some a ≡ some b → a ≡ b
some_inj h = cc

abbrev pub anchors : List Vector
anchors = (1 ∷ []) ∷ (9 ∷ []) ∷ []

pub anchors_fresh : AnchorsBelow sample sample_valid 2 anchors
anchors_fresh zero p lt at some_there = ap (λ (q : Page). get_elem? q.vectors 0) (some_inj at)
anchors_fresh (suc zero) p lt at some_there = ap (λ (q : Page). get_elem? q.vectors 0) (some_inj at)
anchors_fresh (suc (suc i)) p lt at some_there = absurd (omega arith)

pub sample_balls : All (IsBall square_of 1) (all_pages sample)
unfolding squared_l2_distance_of ◌+ℤ◌ ◌-ℤ◌ ◌*ℤ◌
sample_balls = (
  λ anchor first.
      subst (λ (a : Vector). All (IsWithin square_of 1 a 1) ((1 ∷ []) ∷ (2 ∷ []) ∷ []))
        (some_inj first) ((refl, omega arith), ((refl, omega arith), tt)),
  (
    λ anchor first.
        subst (λ (a : Vector). All (IsWithin square_of 1 a 0) ((9 ∷ []) ∷ [])) (some_inj first)
          ((refl, omega arith), tt),
    tt,
  ),
)

abbrev pub sample_database : Database
sample_database = record {
  db_storage = sample;
  db_config = sample_config;
  dist_func = square_of;
  prune_check_func = prune_check squared_l2_distance;
  local_distance_buffers = ((0, 0) ∷ (0, 0) ∷ []) ∷ ((0, 0) ∷ (0, 0) ∷ []) ∷ [];
  cached_vectors = anchors;
  cached_max_dists = (1, 0) ∷ (0, 1) ∷ [];
  dist_to_anchor_buffer = [];
}

pub sample-HoldsSlots : HoldsSlots 1 sample
sample-HoldsSlots = record {
  same_dim = refl;
  id_start = refl;
  vector_start = refl;
  bytes = omega arith;
  page_in = omega arith;
  element = omega arith;
}

pub sample-IsFresh : IsFresh sample_database
sample-IsFresh = record { valid = sample_valid; anchors = anchors_fresh; max_dists = refl }
