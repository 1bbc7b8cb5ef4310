-- ===== src/Tests/Systems.antt =====
-- Runs against a small server and a small system.
use mathlib.Core.List.{append-nil, append_assoc}
use spheres_benchmark.Prelude.{
  sym, ap, ℕ, ◌+◌, ◌≤◌, ◌≡◌, refl, inl, true, Option, none, some, List, [], ◌∷◌, ◌++◌, arith, ◌>>=◌,
  Returns, total, rows_from, All, if◌then◌else◌,
}
use spheres_benchmark.Prelude.Int.{ℤ, pos}
use spheres_benchmark.Config.{squared_l2_distance}
use spheres_benchmark.Distance.{prune_check}
use spheres_benchmark.Parallel.{Worker, Searching, find_k_nearest_state}
use spheres_benchmark.Parallel.Defined.{find_k_nearest_state-defined}
use spheres_benchmark.Knn.Sound.{squared_l2_distance_comm, squared_l2-PruneIsSound}
use spheres_benchmark.Harness.Bytes.{Bytes, text, same_text}
use spheres_benchmark.Harness.Args.{BenchmarkConfig, default_config, squared_l2}
use spheres_benchmark.Harness.Args.Accepted.{IsUsable}
use spheres_benchmark.Harness.Machine.{Machine, float_units, read_numbers, read_gt_vectors}
use spheres_benchmark.Harness.Vectors.{file_bytes, read_file_as_flat_array, read_file_as_vectors}
use spheres_benchmark.Baseline.Run.{run}
use spheres_benchmark.Baseline.Run.Total.{IsReported, HoldsDataset, run-IsReported}
use spheres_benchmark.Pgvector.{copy_vectors}
use spheres_benchmark.Pgvector.Copied.{IsStream, copy_stream, copy_vectors-copy_stream}
use spheres_benchmark.Pgvector.Decode.{read_copy, under_ids, read_copy-copy_stream}
use spheres_benchmark.Example.{RecallSummary, row_hits, recall_summarize, example_recall}
use spheres_benchmark.Example.Summary.{recall_summarize-ordered, recall_summarize-few}
use spheres_benchmark.Memorymap.{write, MappedFile, construct}
use spheres_benchmark.Memorymap.Owners.{Reach, start, next, made, opens, closes, Reach-IsBalanced}
use spheres_benchmark.Tests.Samples.{
  square_of, sample, sample_valid, sample_balls, anchors, anchors_fresh,
}

abbrev config : BenchmarkConfig
config = record default_config {
  engine_name = text "baseline";
  dataset_path = text "d";
  metrics_path = text "m";
  vector_dim = 1;
  n_base_vectors = 3;
  n_query_vectors = 1;
  k = 1;
  k_in_gt = 2;
  distance_type = squared_l2;
  base_vector_path = text "b";
  query_vector_path = text "q";
  gt_vector_path = text "g";
}

-- The files of the three paths; 1, 9 and 2 are the smallest numbers above 0 of type `float`, in units.
abbrev machine : Machine
machine = record {
  file = λ path.
      if same_text path (text "b")
      then some (file_bytes 1 ((1 ∷ []) ∷ (9 ∷ []) ∷ (2 ∷ []) ∷ []))
      else if same_text path (text "q")
      then some (file_bytes 1 ((4 ∷ []) ∷ []))
      else if same_text path (text "g")
      then some (file_bytes 2 ((2 ∷ 0 ∷ []) ∷ []))
      else none;
  writable = λ path. true;
  show = λ fraction. [];
  elapsed = λ timer. (0, 1);
}

config-IsUsable : IsUsable config
config-IsUsable = record {
  engine = omega arith;
  path = omega arith;
  metrics = omega arith;
  index = inl refl;
  threads = omega arith;
  dim = omega arith;
  base = omega arith;
  queries = omega arith;
  some_k = omega arith;
  k_in_gt = omega arith;
  k_in_base = omega arith;
  distance = refl;
}

abbrev base_numbers : List ℤ
base_numbers = pos 1 ∷ pos 9 ∷ pos 2 ∷ []

abbrev query_numbers : List ℤ
query_numbers = pos 4 ∷ []

abbrev truths : List (List ℤ)
truths = (pos 2 ∷ pos 0 ∷ []) ∷ []

config-HoldsDataset : HoldsDataset machine config base_numbers query_numbers truths
unfolding read_numbers read_gt_vectors read_file_as_flat_array read_file_as_vectors float_units
config-HoldsDataset = record {
  base_file = refl;
  query_file = refl;
  truth_file = refl;
  truths = (((refl, omega arith), ((refl, omega arith), tt)), tt);
  output = refl;
}

run-IsReported_example :
    Returns (IsReported machine config base_numbers query_numbers truths) (run machine config)
run-IsReported_example =
    run-IsReported machine config base_numbers query_numbers truths config-IsUsable
      config-HoldsDataset

-- A server that keeps the bytes that it gets.
abbrev put : Bytes → Bytes → Option Bytes
put s bytes = some (s ++ bytes)

put-IsStream : IsStream put
put-IsStream = record {
  nothing = λ s. ap some (append-nil s);
  joined = λ s xs ys. ap some (sym (append_assoc s xs ys));
}

copy_vectors-copy_stream_example :
    copy_vectors put some some (machine.file (text "b")) config [] ≡ (
      read_file_as_flat_array (machine.file (text "b")) 3 1 >>= λ vectors.
      put [] (copy_stream 1 (rows_from 1 vectors 3 0)) >>= some)
copy_vectors-copy_stream_example =
    copy_vectors-copy_stream put put-IsStream some some (machine.file (text "b")) config []

abbrev two_rows : List (List ℕ)
two_rows = (1 ∷ 70000 ∷ []) ∷ (2 ∷ 5 ∷ []) ∷ []

read_copy-copy_stream_example : read_copy (copy_stream 2 two_rows) ≡ some (under_ids 0 two_rows)
read_copy-copy_stream_example =
    read_copy-copy_stream 2 two_rows (omega arith) (omega arith)
      ((refl, (omega arith, (omega arith, tt))), ((refl, (omega arith, (omega arith, tt))), tt))

abbrev idle : List Worker
idle =
    record { heap = []; capacity = 1; stale = 0 }
    ∷ record { heap = []; capacity = 1; stale = 0 }
    ∷ []

find_k_nearest_state-defined_example :
    Returns
      (λ (st : Searching). st.n_pruned ≤ 5 + 2)
      (find_k_nearest_state square_of
        (prune_check squared_l2_distance)
        sample
        1
        (4 ∷ [])
        anchors
        ((1, 0) ∷ (0, 1) ∷ [])
        0
        1
        (0 ∷ 1 ∷ [])
        idle
        5)
find_k_nearest_state-defined_example =
    find_k_nearest_state-defined square_of (prune_check squared_l2_distance)
      (squared_l2_distance_comm pos) 1 (squared_l2-PruneIsSound pos 1) sample sample_valid
      sample_balls 1 (omega arith) (4 ∷ []) refl anchors 0 1 5 (0 ∷ 1 ∷ []) idle anchors_fresh
      (omega arith) (omega arith) ((refl, omega arith), ((refl, omega arith), tt))
      (omega arith, (omega arith, tt)) (omega arith)

abbrev hits_of_four : List (List ℕ)
hits_of_four = (1 ∷ []) ∷ (2 ∷ []) ∷ (3 ∷ []) ∷ (4 ∷ []) ∷ []

abbrev truth_of_four : List (List ℤ)
truth_of_four = (pos 1 ∷ []) ∷ (pos 7 ∷ []) ∷ (pos 3 ∷ []) ∷ (pos 4 ∷ []) ∷ []

recall_summarize-ordered_example :
    Returns
      (λ (r : RecallSummary).
        (example_recall hits_of_four truth_of_four 1 ≡ some (r.average, 4))
        × (r.least ≤ r.p25)
        × (r.p25 ≤ r.p50)
        × (hits : List ℕ) × (row_hits 1 hits_of_four truth_of_four ≡ some hits)
        × All (λ (h : ℕ). r.least ≤ h) hits)
      (recall_summarize hits_of_four truth_of_four 1)
recall_summarize-ordered_example =
    recall_summarize-ordered hits_of_four truth_of_four 1
      (refl, omega arith, (refl, omega arith, (refl, omega arith, (refl, omega arith, tt))))
      (omega arith) (omega arith) (omega arith)

recall_summarize-few_example : recall_summarize ((1 ∷ []) ∷ []) ((pos 1 ∷ []) ∷ []) 1 ≡ none
recall_summarize-few_example =
    recall_summarize-few ((1 ∷ []) ∷ []) ((pos 1 ∷ []) ∷ []) 1 (refl, omega arith, tt) (omega arith)
      (omega arith) (omega arith)

-- The mapping of a new file of 64 bytes at the descriptor 4, after one at 3 that creates it.
abbrev mapping : MappedFile
mapping = record { fd = some 4; addr = some 1000; filesize = 64 }

one_mapping : Reach (record {
  alive = mapping ∷ [];
  calls =
      (construct write
        (text "f")
        64
        (record { created = some 3; opened = some 4; st_size = 64; address = 1000 })).0;
})
unfolding construct
one_mapping = next start (
    made write (text "f") 64
      (record { created = some 3; opened = some 4; st_size = 64; address = 1000 }) mapping refl)

Reach-IsBalanced_example :
    total
      (opens 4)
      (construct write
        (text "f")
        64
        (record { created = some 3; opened = some 4; st_size = 64; address = 1000 })).0
    ≡ total
        (closes 4)
        (construct write
          (text "f")
          64
          (record { created = some 3; opened = some 4; st_size = 64; address = 1000 })).0
      + 1
unfolding construct
Reach-IsBalanced_example = Reach-IsBalanced 4 one_mapping
