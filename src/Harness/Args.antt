-- ===== src/Harness/Args.antt =====
-- The command line of the benchmark programs: `BenchmarkConfig`, `parse_size` and `parse_argv` of
-- include/benchmark_config.h.
use mathlib.Core.Bool.{not}
use spheres_benchmark.Prelude.{
  ℕ, zero, suc, ◌+◌, ◌-◌, ◌*◌, ◌≤◌, ◌<◌, ◌≡◌, refl, Bool, true, false, ◌&&◌, ◌||◌, List, [], ◌∷◌,
  ◌++◌, length, drop, ltb, leb, ◌==◌, if◌then◌else◌, size_mod,
}
use spheres_benchmark.Harness.Bytes.{Bytes, text, same_text}
pub mod Accepted

pub data DatasetType : Type 0 where
  gist1m sift1m generated : DatasetType

pub data DistanceType : Type 0 where
  normalized_l2 squared_normalized_l2 squared_l2 : DistanceType

-- The exceptions of `parse_argv`, with the text that they name.
pub data ArgError : Type 0 where
  expected_option missing_value duplicate_option missing_option : Bytes → ArgError
  invalid_integer invalid_distance unknown_option : Bytes → ArgError
  invalid_counts wrong_distance : ArgError

pub data Result {ℓ} (A : Type ℓ) : Type ℓ where
  ok : A → Result A
  failed : ArgError → Result A

infixl 5 ◌>>=◌
abbrev pub ◌>>=◌ {ℓ κ} : {A : Type ℓ} {B : Type κ} → Result A → (A → Result B) → Result B
ok a >>= f = f a
failed e >>= f = failed e

pub record BenchmarkConfig : Type 0 where
  pub engine_name : Bytes
  pub engine_mode : Bytes
  pub n_threads : ℕ
  pub dataset_type : DatasetType
  pub dataset_path : Bytes
  pub distance_type : DistanceType
  pub vector_dim : ℕ
  pub n_base_vectors : ℕ
  pub n_query_vectors : ℕ
  pub n_learn_vectors : ℕ
  pub k : ℕ
  pub k_in_gt : ℕ
  pub metrics_path : Bytes
  pub index_path : Bytes
  pub reuse_index : Bool
  pub base_vector_path : Bytes
  pub query_vector_path : Bytes
  pub gt_vector_path : Bytes
  pub learn_vector_path : Bytes
  pub spheres_page_size : ℕ
  pub spheres_file_size : ℕ
  pub spheres_n_pages_to_probe : ℕ
  pub spheres_local_buffer_size : ℕ
  pub spheres_morsel_step : ℕ
  pub faiss_hnsw_m : ℕ
  pub faiss_hnsw_efsearch : ℕ
  pub faiss_hnsw_efconstruction : ℕ
  pub faiss_lsh_nbits : ℕ
  pub faiss_ivfflat_nlists : ℕ
  pub faiss_ivfflat_nprobe : ℕ
  pub faiss_ivfflat_ingest_batch_size : ℕ

abbrev pub default_config : BenchmarkConfig
default_config = record {
  engine_name = [];
  engine_mode = [];
  n_threads = 4;
  dataset_type = sift1m;
  dataset_path = [];
  distance_type = normalized_l2;
  vector_dim = 0;
  n_base_vectors = 0;
  n_query_vectors = 0;
  n_learn_vectors = 0;
  k = 0;
  k_in_gt = 0;
  metrics_path = [];
  index_path = [];
  reuse_index = false;
  base_vector_path = [];
  query_vector_path = [];
  gt_vector_path = [];
  learn_vector_path = [];
  spheres_page_size = 8 * 1024 * 1024;
  spheres_file_size = 256 * 1024 * 1024;
  spheres_n_pages_to_probe = 0;
  spheres_local_buffer_size = 30000;
  spheres_morsel_step = 1;
  faiss_hnsw_m = 16;
  faiss_hnsw_efsearch = 200;
  faiss_hnsw_efconstruction = 128;
  faiss_lsh_nbits = 256;
  faiss_ivfflat_nlists = 4000;
  faiss_ivfflat_nprobe = 100;
  faiss_ivfflat_ingest_batch_size = 10000;
}

unfoldable pub parse_dataset_type : Bytes → DatasetType
parse_dataset_type value =
    if same_text value (text "sift1m")
    then sift1m
    else if same_text value (text "gist1m")
    then gist1m
    else generated

unfoldable pub parse_distance_type : Bytes → Result DistanceType
parse_distance_type value =
    if same_text value (text "norml2")
    then ok normalized_l2
    else if same_text value (text "squared_norml2")
    then ok squared_normalized_l2
    else if same_text value (text "squared_l2")
    then ok squared_l2
    else failed (invalid_distance value)

unfoldable pub make_benchmark_with_default_params : BenchmarkConfig → DatasetType → BenchmarkConfig
make_benchmark_with_default_params config gist1m = record config {
  k = 100;
  k_in_gt = 100;
  vector_dim = 960;
  n_base_vectors = 1000000;
  n_query_vectors = 1000;
  n_learn_vectors = 500000;
}
make_benchmark_with_default_params config sift1m = record config {
  k = 100;
  k_in_gt = 100;
  vector_dim = 128;
  n_base_vectors = 1000000;
  n_query_vectors = 10000;
  n_learn_vectors = 100000;
}
make_benchmark_with_default_params config generated = record config {
  k = 100;
  k_in_gt = 100;
  vector_dim = 128;
  n_base_vectors = 10000000;
  n_query_vectors = 10000;
  n_learn_vectors = 100000;
}

-- `std::from_chars` for a `std::size_t` on the whole of a text: the value of its digits behind `acc`.
unfoldable pub digits_value : ℕ → Bytes → Result ℕ
digits_value acc [] = ok acc
digits_value acc (c ∷ value) =
    if leb b'0' c && leb c b'9'
    then digits_value (acc * 10 + (c - b'0')) value
    else failed (invalid_integer [])

-- The test of what `std::from_chars` reports.
abbrev pub checked_size : Bytes → Result ℕ → Result ℕ
checked_size option (ok n) = if ltb n size_mod then ok n else failed (invalid_integer option)
checked_size option (failed e) = failed (invalid_integer option)

unfoldable pub parse_size : Bytes → Bytes → Result ℕ
unfolding digits_value
parse_size [] option = failed (invalid_integer option)
parse_size (c ∷ value) option = checked_size option (digits_value 0 (c ∷ value))

-- `option.starts_with("--")`
abbrev pub starts_with_dashes : Bytes → Bool
starts_with_dashes [] = false
starts_with_dashes (a ∷ []) = false
starts_with_dashes (a ∷ b ∷ option) = a == b'-' && b == b'-'

abbrev pub has_key : Bytes → List (Bytes × Bytes) → Bool
has_key key [] = false
has_key key (a ∷ arguments) = same_text a.0 key || has_key key arguments

-- The loop over the arguments. The map stands as the list of its pairs, the last one first.
unfoldable pub collect : List Bytes → List (Bytes × Bytes) → Result (List (Bytes × Bytes))
collect [] arguments = ok arguments
collect (option ∷ []) arguments =
    if starts_with_dashes option
    then failed (missing_value option)
    else failed (expected_option option)
collect (option ∷ value ∷ argv) arguments =
    if starts_with_dashes option
    then if has_key (drop 2 option) arguments
      then failed (duplicate_option (drop 2 option))
      else collect argv ((drop 2 option, value) ∷ arguments)
    else failed (expected_option option)

unfoldable pub find : Bytes → List (Bytes × Bytes) → Result Bytes
find key [] = failed (missing_option key)
find key (a ∷ arguments) = if same_text a.0 key then ok a.1 else find key arguments

-- The chain of tests for one pair of the map.
unfoldable pub apply_option : BenchmarkConfig → Bytes → Bytes → Result BenchmarkConfig
unfolding parse_size parse_distance_type
apply_option config key value =
    if same_text key (text "dataset")
    then ok config
    else if same_text key (text "engine")
    then ok (record config { engine_name = value })
    else if same_text key (text "mode")
    then ok (record config { engine_mode = value })
    else if same_text key (text "n_threads")
    then (parse_size value key >>= λ n. ok (record config { n_threads = n }))
    else if same_text key (text "path")
    then ok (record config { dataset_path = value })
    else if same_text key (text "distance")
    then (parse_distance_type value >>= λ d. ok (record config { distance_type = d }))
    else if same_text key (text "dim")
    then (parse_size value key >>= λ n. ok (record config { vector_dim = n }))
    else if same_text key (text "n_base")
    then (parse_size value key >>= λ n. ok (record config { n_base_vectors = n }))
    else if same_text key (text "n_learn")
    then (parse_size value key >>= λ n. ok (record config { n_learn_vectors = n }))
    else if same_text key (text "n_query")
    then (parse_size value key >>= λ n. ok (record config { n_query_vectors = n }))
    else if same_text key (text "k")
    then (parse_size value key >>= λ n. ok (record config { k = n }))
    else if same_text key (text "kgt")
    then (parse_size value key >>= λ n. ok (record config { k_in_gt = n }))
    else if same_text key (text "metrics")
    then ok (record config { metrics_path = value })
    else if same_text key (text "index")
    then ok (record config { index_path = value })
    else if same_text key (text "reuse_index")
    then ok (record config { reuse_index = same_text value (text "1") })
    else if same_text key (text "spheres_page_size")
    then (parse_size value key >>= λ n. ok (record config { spheres_page_size = n }))
    else if same_text key (text "spheres_file_size")
    then (parse_size value key >>= λ n. ok (record config { spheres_file_size = n }))
    else if same_text key (text "spheres_n_ppage")
    then (parse_size value key >>= λ n. ok (record config { spheres_n_pages_to_probe = n }))
    else if same_text key (text "spheres_buf_size")
    then (parse_size value key >>= λ n. ok (record config { spheres_local_buffer_size = n }))
    else if same_text key (text "spheres_morsel")
    then (parse_size value key >>= λ n. ok (record config { spheres_morsel_step = n }))
    else if same_text key (text "faiss_hnsw_m")
    then (parse_size value key >>= λ n. ok (record config { faiss_hnsw_m = n }))
    else if same_text key (text "faiss_hnsw_search")
    then (parse_size value key >>= λ n. ok (record config { faiss_hnsw_efsearch = n }))
    else if same_text key (text "faiss_hnsw_con")
    then (parse_size value key >>= λ n. ok (record config { faiss_hnsw_efconstruction = n }))
    else if same_text key (text "faiss_lsh_nb")
    then (parse_size value key >>= λ n. ok (record config { faiss_lsh_nbits = n }))
    else if same_text key (text "faiss_ivf_nlists")
    then (parse_size value key >>= λ n. ok (record config { faiss_ivfflat_nlists = n }))
    else if same_text key (text "faiss_ivf_nprobe")
    then (parse_size value key >>= λ n. ok (record config { faiss_ivfflat_nprobe = n }))
    else if same_text key (text "faiss_ivf_batch")
    then (parse_size value key >>= λ n. ok (record config { faiss_ivfflat_ingest_batch_size = n }))
    else failed (unknown_option key)

-- The loop over the map, whose order is not specified: here it is that of the list.
unfoldable pub apply_options : BenchmarkConfig → List (Bytes × Bytes) → Result BenchmarkConfig
unfolding apply_option
apply_options config [] = ok config
apply_options config (a ∷ arguments) =
    apply_option config a.0 a.1 >>= λ config'. apply_options config' arguments

-- `path / name` of `std::filesystem::path`.
abbrev pub join_path : Bytes → Bytes → Bytes
join_path [] name = name
join_path (c ∷ []) name = if c == b'/' then c ∷ name else c ∷ b'/' ∷ name
join_path (c ∷ d ∷ path) name = c ∷ join_path (d ∷ path) name

unfoldable pub with_paths : DatasetType → BenchmarkConfig → BenchmarkConfig
with_paths gist1m config = record config {
  base_vector_path = join_path config.dataset_path (text "gist_base.fvecs");
  query_vector_path = join_path config.dataset_path (text "gist_query.fvecs");
  gt_vector_path = join_path config.dataset_path (text "gist_groundtruth.ivecs");
  learn_vector_path = join_path config.dataset_path (text "gist_learn.fvecs");
}
with_paths sift1m config = record config {
  base_vector_path = join_path config.dataset_path (text "sift_base.fvecs");
  query_vector_path = join_path config.dataset_path (text "sift_query.fvecs");
  gt_vector_path = join_path config.dataset_path (text "sift_groundtruth.ivecs");
  learn_vector_path = join_path config.dataset_path (text "sift_learn.fvecs");
}
with_paths generated config = record config {
  base_vector_path = config.dataset_path ++ text "base.fvecs";
  query_vector_path = config.dataset_path ++ text "query.fvecs";
  gt_vector_path = config.dataset_path ++ text "groundtruth.ivecs";
  learn_vector_path = config.dataset_path ++ text "learn.fvecs";
}

abbrev pub is_squared_l2 : DistanceType → Bool
is_squared_l2 squared_l2 = true
is_squared_l2 other = false

-- The tests at the end, one behind the other.
abbrev pub no_index : BenchmarkConfig → Bool
no_index c =
    not (same_text c.engine_name (text "baseline"))
    && (not (same_text c.engine_name (text "pgvector")) && length c.index_path == 0)

abbrev pub bad_counts : BenchmarkConfig → Bool
bad_counts c =
    c.n_threads == 0
    || (c.vector_dim == 0
        || (c.n_base_vectors == 0
            || (c.n_query_vectors == 0
                || (c.k == 0 || (ltb c.k_in_gt c.k || ltb c.n_base_vectors c.k)))))

abbrev pub check_distance : BenchmarkConfig → Result BenchmarkConfig
check_distance c = if not (is_squared_l2 c.distance_type) then failed wrong_distance else ok c

abbrev pub check_counts : BenchmarkConfig → Result BenchmarkConfig
check_counts c = if bad_counts c then failed invalid_counts else check_distance c

abbrev pub check_index : BenchmarkConfig → Result BenchmarkConfig
check_index c = if no_index c then failed (missing_option (text "index")) else check_counts c

abbrev pub check_metrics : BenchmarkConfig → Result BenchmarkConfig
check_metrics c =
    if length c.metrics_path == 0 then failed (missing_option (text "metrics")) else check_index c

abbrev pub check_path : BenchmarkConfig → Result BenchmarkConfig
check_path c =
    if length c.dataset_path == 0 then failed (missing_option (text "path")) else check_metrics c

unfoldable pub check_config : BenchmarkConfig → Result BenchmarkConfig
check_config c =
    if length c.engine_name == 0 then failed (missing_option (text "engine")) else check_path c

-- The parts of `parse_argv`, the last one first: the paths and tests, the options of a data set, and
-- the search for the name of the data set.
abbrev pub finish : DatasetType → BenchmarkConfig → Result BenchmarkConfig
finish dataset_type config = check_config (with_paths dataset_type config)

abbrev pub start_config : DatasetType → BenchmarkConfig
start_config dataset_type =
    make_benchmark_with_default_params (record default_config { dataset_type = dataset_type })
      dataset_type

abbrev pub configure : List (Bytes × Bytes) → Bytes → Result BenchmarkConfig
configure arguments dataset =
    apply_options (start_config (parse_dataset_type dataset)) arguments
    >>= finish (parse_dataset_type dataset)

abbrev pub with_dataset : List (Bytes × Bytes) → Result BenchmarkConfig
with_dataset arguments = find (text "dataset") arguments >>= configure arguments

-- `parse_argv`, on the arguments behind the name of the program.
unfoldable pub parse_argv : List Bytes → Result BenchmarkConfig
unfolding collect find parse_dataset_type make_benchmark_with_default_params apply_options
    with_paths check_config
parse_argv argv = collect argv [] >>= with_dataset
