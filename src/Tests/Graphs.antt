-- ===== src/Tests/Graphs.antt =====
-- A run of the building of an index that keeps what is added to it.
use spheres_benchmark.Prelude.{
  ℕ, ◌-◌, ◌≡◌, refl, inl, inr, true, some, List, [], ◌∷◌, arith, min, ◌==◌, if◌then◌else◌,
  Bool-cases, Returns, SameItems, rows_from, total,
}
use spheres_benchmark.Prefill.{Entry}
use spheres_benchmark.Harness.Args.{BenchmarkConfig, default_config}
use spheres_benchmark.Harness.Machine.{Machine}
use spheres_benchmark.Harness.Vectors.{file_bytes, read_file_as_flat_array}
use spheres_benchmark.Hnswlib.{HnswLibrary, HnswSettings, build_index}
use spheres_benchmark.Hnswlib.Added.{upto, HasAdded, build_index-HasAdded}

abbrev graph : HnswLibrary
graph = record {
  Index = List Entry;
  hierarchical = λ dim n m efconstruction. [];
  set_ef = λ index ef. index;
  add_point = λ index vector id. (id, vector) ∷ index;
  search_knn = λ index query k. [];
  save_index = λ index. [];
  load_index = λ bytes n. some [];
}

abbrev config : BenchmarkConfig
config = record default_config { vector_dim = 1; n_base_vectors = 3 }

abbrev machine : Machine
machine = record {
  file = λ path. some (file_bytes 1 ((1 ∷ []) ∷ (9 ∷ []) ∷ (2 ∷ []) ∷ []));
  writable = λ path. true;
  show = λ fraction. [];
  elapsed = λ timer. (0, 1);
}

abbrev settings : HnswSettings
settings = record { hnswlib_m = 16; hnswlib_ef_construction = 128; hnswlib_ef_search = 200 }

-- The threads add the third row before the second.
abbrev orders : ℕ → List ℕ
orders added = if added == 0 then 0 ∷ 2 ∷ 1 ∷ [] else upto (min 10000 (3 - added)) 0

orders-SameItems : (added : ℕ) → SameItems (orders added) (upto (min 10000 (3 - added)) 0)
orders-SameItems added f = elim (Bool-cases (added == 0)) [
  | inl e ↦ let first : added ≡ 0 = ground arith in rw (first) (swapped f)
  | inr e ↦ rw e refl
]
  where
    swapped : (f : ℕ → ℕ) → total f (0 ∷ 2 ∷ 1 ∷ []) ≡ total f (upto 3 0)
    swapped f = omega arith

file_held :
    read_file_as_flat_array (some (file_bytes 1 ((1 ∷ []) ∷ (9 ∷ []) ∷ (2 ∷ []) ∷ []))) 3 1
    ≡ some (1 ∷ 9 ∷ 2 ∷ [])
unfolding read_file_as_flat_array
file_held = refl

build_index-HasAdded_example :
    Returns
      (HasAdded graph machine config settings [] 0 (rows_from 1 (1 ∷ 9 ∷ 2 ∷ []) 3 0))
      (build_index graph machine config settings orders)
build_index-HasAdded_example =
    build_index-HasAdded graph machine config settings orders orders-SameItems (1 ∷ 9 ∷ 2 ∷ [])
      file_held
