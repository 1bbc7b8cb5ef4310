-- ===== src/Faiss/Run.antt =====
-- `run` of faiss/faiss_benchmark.cpp, from its files to the metrics that it writes.
use spheres_benchmark.Prelude.{◌&&◌, Option, map, length, if◌then◌else◌, ◌>>=◌}
use mathlib.Core.Bool.{not}
use spheres_benchmark.Harness.Bytes.{Bytes, text}
use spheres_benchmark.Harness.Args.{BenchmarkConfig}
use spheres_benchmark.Harness.Vectors.{read_file_as_flat_array}
use spheres_benchmark.Harness.Machine.{
  Machine, read_numbers, read_gt_vectors, float_units, write_metrics,
}
use spheres_benchmark.Harness.Metrics.{recall, avg_squared_l2_distance}
use spheres_benchmark.Faiss.{
  Library, label_rows, build_fields, search_fields, make_index, index_file, is_mode, tuned,
  search_labels,
}
pub mod Served

module _ (faiss : Library) (m : Machine) (config : BenchmarkConfig) where
  open faiss use {Index, read_index}

  -- From the queries on, with the index and its file.
  unfoldable pub search_and_report : Index → Bytes → Option Bytes
  unfolding search_labels label_rows search_fields write_metrics
  search_and_report index stored = do
    queries ←
        read_file_as_flat_array (m.file config.query_vector_path) config.n_query_vectors
          config.vector_dim
    let labels = search_labels faiss m config index queries config.n_query_vectors 0
    results ← label_rows config.k labels config.n_query_vectors 0
    ground_truth ←
        read_gt_vectors (m.file config.gt_vector_path) config.n_query_vectors config.k_in_gt
    base ← read_numbers (m.file config.base_vector_path) config.n_base_vectors config.vector_dim
    average ←
        avg_squared_l2_distance base config.vector_dim (map float_units queries) results
          ground_truth config.k
    hits ← recall results ground_truth config.k
    write_metrics m config.metrics_path (search_fields m config hits average (length stored))

  -- What `run` writes to the file for the metrics. An inverted file that has just been built is not
  -- searched.
  unfoldable pub run : Option Bytes
  unfolding make_index index_file tuned search_and_report build_fields
  run = do
    index ← make_index faiss m config
    stored ← index_file faiss m config index
    loaded ← read_index stored
    let ready = tuned faiss m config loaded
    let built_only = not config.reuse_index && is_mode faiss m config (text "ivf")
    if built_only
        then write_metrics m config.metrics_path (build_fields m config)
        else search_and_report ready stored
