-- ===== src/Config.antt =====
-- modules/definitions/definitions.cppm: the constants of the file format and the configuration
-- record that stands at the front of a database.
use spheres_benchmark.Prelude.{ℕ, ◌*◌, ◌+◌}

abbrev pub default_single_file_size : ℕ
default_single_file_size = 256 * 1024 * 1024

abbrev pub default_page_size : ℕ
default_page_size = 8 * 1024 * 1024

abbrev pub max_n_bytes_of_native_type : ℕ
max_n_bytes_of_native_type = 8

abbrev pub first_n_bytes_per_page : ℕ
first_n_bytes_per_page = 8 + max_n_bytes_of_native_type

-- `sizeof(std::size_t)`, which is also `sizeof(id_offset)`.
abbrev pub size_bytes : ℕ
size_bytes = 8

pub data SupportedDataType : Type 0 where
  float double : SupportedDataType

pub data SupportedDistanceFunctions : Type 0 where
  normalized_l2_distance squared_normalized_l2_distance squared_l2_distance :
      SupportedDistanceFunctions

pub record DatabaseConfig : Type 0 where
  pub dtype : SupportedDataType
  pub distance_function : SupportedDistanceFunctions
  pub page_size : ℕ
  pub file_size : ℕ
  pub dim : ℕ
  pub n_files : ℕ
