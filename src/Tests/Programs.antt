-- ===== src/Tests/Programs.antt =====
-- A run of the whole program, with a small library for FAISS.
use mathlib.Core.List.{append-nil, append_assoc}
use spheres_benchmark.Prelude.{
  ℕ, ◌≡◌, refl, sym, true, none, some, List, [], ◌∷◌, ◌++◌, arith, Returns, if◌then◌else◌,
}
use spheres_benchmark.Prelude.Int.{pos}
use spheres_benchmark.Harness.Bytes.{Bytes, text, same_text}
use spheres_benchmark.Harness.Args.{
  BenchmarkConfig, parse_argv, default_config, ok, squared_l2, sift1m,
}
use spheres_benchmark.Harness.Machine.{Machine, read_gt_vectors}
use spheres_benchmark.Harness.Vectors.{file_bytes, read_file_as_flat_array, read_file_as_vectors}
use spheres_benchmark.Faiss.{Library}
use spheres_benchmark.Faiss.Run.{run}
use spheres_benchmark.Faiss.Run.Served.{IsServed, HoldsFiles, IsFlatBuild, IsReported}
use spheres_benchmark.Spheres.{Setting, end}
use spheres_benchmark.Program.{program, program-IsReported}
use spheres_benchmark.Tests.Samples.{squares}

abbrev argv : List Bytes
argv =
    text "--dataset"
    ∷ text "sift1m"
    ∷ text "--engine"
    ∷ text "faiss"
    ∷ text "--mode"
    ∷ text "flat"
    ∷ text "--path"
    ∷ text "d"
    ∷ text "--metrics"
    ∷ text "m"
    ∷ text "--index"
    ∷ text "i"
    ∷ text "--distance"
    ∷ text "squared_l2"
    ∷ text "--dim"
    ∷ text "1"
    ∷ text "--n_base"
    ∷ text "3"
    ∷ text "--n_query"
    ∷ text "1"
    ∷ text "--k"
    ∷ text "1"
    ∷ text "--kgt"
    ∷ text "2"
    ∷ []

abbrev config : BenchmarkConfig
config = record default_config {
  dataset_type = sift1m;
  k = 1;
  k_in_gt = 2;
  vector_dim = 1;
  n_base_vectors = 3;
  n_query_vectors = 1;
  n_learn_vectors = 100000;
  engine_name = text "faiss";
  engine_mode = text "flat";
  dataset_path = text "d";
  metrics_path = text "m";
  index_path = text "i";
  distance_type = squared_l2;
  base_vector_path = text "d/sift_base.fvecs";
  query_vector_path = text "d/sift_query.fvecs";
  gt_vector_path = text "d/sift_groundtruth.ivecs";
  learn_vector_path = text "d/sift_learn.fvecs";
}

argv_accepted : parse_argv argv ≡ ok config
unfolding parse_argv
argv_accepted = refl

abbrev machine : Machine
machine = record {
  file = λ path.
      if same_text path (text "d/sift_base.fvecs")
      then some (file_bytes 1 ((1 ∷ []) ∷ (9 ∷ []) ∷ (2 ∷ []) ∷ []))
      else if same_text path (text "d/sift_query.fvecs")
      then some (file_bytes 1 ((4 ∷ []) ∷ []))
      else if same_text path (text "d/sift_groundtruth.ivecs")
      then some (file_bytes 2 ((2 ∷ 0 ∷ []) ∷ []))
      else none;
  writable = λ path. true;
  show = λ fraction. [];
  elapsed = λ timer. (0, 1);
}

-- An index that is the list of its elements, and names its third vector for every query.
abbrev library : Library
library = record {
  Index = List ℕ;
  flat_l2 = λ dim. [];
  hnsw_flat = λ dim m efconstruction efsearch. [];
  ivf_flat = λ dim nlists nprobe. [];
  train = λ index n vectors. index;
  add = λ index n vectors. index ++ vectors;
  set_ef_search = λ index n. index;
  set_nprobe = λ index n. index;
  search = λ index query k. pos 2 ∷ [];
  write_index = λ index. index;
  read_index = λ bytes. some bytes;
}

abbrev setting : Setting
setting = record {
  dist_of = squares;
  disk = none;
  index_directory = end;
  fill_rounds = [];
  search_threads = λ query. [];
}

library-IsServed : IsServed library machine config (1 ∷ 9 ∷ 2 ∷ [])
library-IsServed = record {
  additive = record { nothing = append-nil; joined = λ i a b xs ys. sym (append_assoc i xs ys) };
  stored = λ index. refl;
  answers = λ query. (refl, ((refl, omega arith), tt));
}

machine-HoldsFiles :
    HoldsFiles library machine config (1 ∷ 9 ∷ 2 ∷ []) (4 ∷ []) ((pos 2 ∷ pos 0 ∷ []) ∷ [])
unfolding read_file_as_flat_array read_gt_vectors read_file_as_vectors
machine-HoldsFiles = record {
  base_file = refl;
  query_file = refl;
  truth_file = refl;
  truths = (((refl, omega arith), ((refl, omega arith), tt)), tt);
  output = refl;
}

config-IsFlatBuild : IsFlatBuild library machine config
config-IsFlatBuild = record {
  flat = refl;
  not_hnsw = refl;
  not_ivf = refl;
  new_index = refl;
  batches = omega arith;
}

program-IsReported_example :
    (program library setting machine argv ≡ 0)
    × Returns
        (IsReported library machine config (1 ∷ 9 ∷ 2 ∷ []) (4 ∷ []) ((pos 2 ∷ pos 0 ∷ []) ∷ []))
        (run library machine config)
program-IsReported_example =
    program-IsReported library setting machine argv config (1 ∷ 9 ∷ 2 ∷ []) (4 ∷ [])
      ((pos 2 ∷ pos 0 ∷ []) ∷ []) argv_accepted refl config-IsFlatBuild library-IsServed
      machine-HoldsFiles
