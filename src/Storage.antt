-- ===== src/Storage.antt =====
-- modules/storage/ and the storage half of modules/execution/execution.cppm: files of pages, and the
-- functions that address, read and write them. A page is kept as its header and its two slot
-- arrays; `none` is an access outside them, or a file that does not open.
pub mod Layout
pub mod Flat
pub mod Slots
pub mod Pages
pub mod Files
use spheres_benchmark.Prelude.{
  ℕ, zero, suc, ◌+◌, ◌-◌, ◌*◌, ◌/◌, ◌%◌, Bool, true, false, ◌||◌, ◌&&◌, Option, none, some, List,
  [], ◌∷◌, ◌++◌, ltb, leb, ◌==◌, if◌then◌else◌, ◌>>=◌, length, get_elem?, set, take, replicate,
  add_size, sub_size, mul_size,
}
use spheres_benchmark.Config.{
  SupportedDataType, SupportedDistanceFunctions, float, double, DatabaseConfig,
  first_n_bytes_per_page, size_bytes,
}

-- The bit patterns of the elements of a vector.
abbrev pub Vector : Type 0
Vector = List ℕ

-- `page::Page`: the header words and the slots behind them; whether the bytes of the page hold the slots is
-- tested where one is written (`fits_slot`). A distance is a number: this code only
-- compares distances, and floats from 0 to infinity are ordered as their bit patterns are.
pub record Page : Type 0 where
  pub n_vectors : ℕ
  pub max_dist : ℕ
  pub ids : List ℕ
  pub vectors : List Vector

-- `MappedDataFile`
abbrev pub DataFile : Type 0
DataFile = List Page

pub record Storage : Type 0 where
  pub files : List DataFile
  pub n_files : ℕ
  pub page_size : ℕ
  pub file_size : ℕ
  pub id_offset : ℕ
  pub vector_offset : ℕ
  pub n_pages : ℕ
  pub element_size : ℕ
  pub vector_dim : ℕ
  pub max_num_vectors_per_page : ℕ

-- The `switch` on `dtype`, in bytes.
unfoldable pub element_size_of : SupportedDataType → ℕ
element_size_of float = 4
element_size_of double = 8

unfoldable pub max_num_vectors : ℕ → ℕ → ℕ → ℕ
max_num_vectors page_size element_size dim =
    sub_size page_size first_n_bytes_per_page / add_size size_bytes (mul_size element_size dim)

unfoldable pub vector_offset_of : ℕ → ℕ
vector_offset_of max_num = add_size first_n_bytes_per_page (mul_size size_bytes max_num)

-- A page of a file that `posix_fallocate` has filled with zeros.
unfoldable pub blank_page : ℕ → ℕ → Page
blank_page max_num dim = record {
  n_vectors = 0;
  max_dist = 0;
  ids = replicate max_num 0;
  vectors = replicate max_num (replicate dim 0);
}

abbrev pub pages_per_file : Storage → ℕ
pages_per_file s = s.file_size / s.page_size

unfoldable pub create_storage_file : Storage → Storage
unfolding blank_page
create_storage_file s = record s {
  files =
      s.files
      ++ replicate (pages_per_file s) (blank_page s.max_num_vectors_per_page s.vector_dim) ∷ [];
  n_files = add_size s.n_files 1;
  n_pages = add_size s.n_pages (pages_per_file s);
}

unfoldable pub fresh_storage : ℕ → ℕ → SupportedDataType → ℕ → Storage
unfolding element_size_of max_num_vectors vector_offset_of
fresh_storage page_size file_size dtype dim =
    let element_size = element_size_of dtype in
    let max_num = max_num_vectors page_size element_size dim in
    record {
      files = [];
      n_files = 0;
      page_size = page_size;
      file_size = file_size;
      id_offset = first_n_bytes_per_page;
      vector_offset = vector_offset_of max_num;
      n_pages = 0;
      element_size = element_size;
      vector_dim = dim;
      max_num_vectors_per_page = max_num;
    }

-- The file that `create_storage` leaves on disk is that of this value.
unfoldable pub create_storage : ℕ → ℕ → SupportedDataType → ℕ → Storage
unfolding fresh_storage create_storage_file
create_storage page_size file_size dtype dim =
    create_storage_file (fresh_storage page_size file_size dtype dim)

-- The loop that maps the files 0, 1, … of the directory `disk`; one that is missing throws.
unfoldable pub open_files : ℕ → List DataFile → Option (List DataFile)
open_files zero disk = some []
open_files (suc n) [] = none
open_files (suc n) (f ∷ disk) = do fs ← open_files n disk; some (f ∷ fs)

unfoldable pub load_storage : List DataFile → DatabaseConfig → Option Storage
unfolding open_files element_size_of max_num_vectors vector_offset_of
load_storage disk config = do
  let element_size = element_size_of config.dtype
  let max_num = max_num_vectors config.page_size element_size config.dim
  files ← open_files config.n_files disk
  some (record {
    files = files;
    n_files = config.n_files;
    page_size = config.page_size;
    file_size = config.file_size;
    id_offset = first_n_bytes_per_page;
    vector_offset = vector_offset_of max_num;
    n_pages = mul_size config.n_files config.file_size / config.page_size;
    element_size = element_size;
    vector_dim = config.dim;
    max_num_vectors_per_page = max_num;
  })

-- `create_config_file`: what a new database keeps on disk beside its first file.
unfoldable pub create_config_file :
    SupportedDataType → SupportedDistanceFunctions → ℕ → ℕ → ℕ → DatabaseConfig
create_config_file dtype distance_function page_size file_size dim = record {
  dtype = dtype;
  distance_function = distance_function;
  page_size = page_size;
  file_size = file_size;
  dim = dim;
  n_files = 1;
}

-- `~Database` writes the number of files back into the mapped configuration.
unfoldable pub close_database : DatabaseConfig → Storage → DatabaseConfig
close_database config s = record config { n_files = s.n_files }

unfoldable pub calculate_file_index : Storage → ℕ → ℕ
calculate_file_index s page_idx = page_idx / (s.file_size / s.page_size)

unfoldable pub calculate_page_index : Storage → ℕ → ℕ
calculate_page_index s page_idx = page_idx % (s.file_size / s.page_size)

-- `files[file_index].pages[page_index]`
unfoldable pub page_at : Storage → ℕ → ℕ → Option Page
page_at s file_index page_index = do f ← get_elem? s.files file_index; get_elem? f page_index

unfoldable pub page_of : Storage → ℕ → Option Page
unfolding page_at calculate_file_index calculate_page_index
page_of s page_idx = page_at s (calculate_file_index s page_idx) (calculate_page_index s page_idx)

-- A write to the page, which is `f` of what stands there.
unfoldable pub update_page_at : Storage → ℕ → ℕ → (Page → Option Page) → Option Storage
update_page_at s file_index page_index f = do
  file ← get_elem? s.files file_index
  p ← get_elem? file page_index
  q ← f p
  some (record s { files = set s.files file_index (set file page_index q) })

unfoldable pub get_n_vectors_of : Storage → ℕ → Option ℕ
unfolding page_of
get_n_vectors_of s page_idx = do p ← page_of s page_idx; some p.n_vectors

-- The byte, from the front of a page, of the slots that `place_new_vector_at` writes.
unfoldable pub vector_address : Storage → ℕ → ℕ
vector_address s vector_index =
    add_size s.vector_offset (mul_size (mul_size vector_index s.vector_dim) s.element_size)

unfoldable pub id_address : Storage → ℕ → ℕ
id_address s vector_index = add_size s.id_offset (mul_size vector_index size_bytes)

unfoldable pub place_in_page : ℕ → Vector → ℕ → Page → Option Page
place_in_page new_id new_vector vector_index p =
    if ltb vector_index (length p.vectors)
    then some (record p {
      ids = set p.ids vector_index new_id;
      vectors = set p.vectors vector_index new_vector;
    })
    else none

-- Whether the bytes that `place_new_vector_at` writes are those of the slots with this index: the code
-- strides by `new_vector.size()`, so a vector of another size goes across slots, and where the page has
-- no bytes for the slot the write leaves it.
unfoldable pub fits_slot : Storage → Vector → ℕ → Bool
unfolding vector_address id_address
fits_slot s new_vector vector_index =
    length new_vector == s.vector_dim
    && leb (id_address s vector_index + size_bytes) s.vector_offset
    && leb (vector_address s vector_index + s.element_size * length new_vector) s.page_size

unfoldable pub place_new_vector_at : Storage → ℕ → Vector → ℕ → ℕ → ℕ → Option Storage
unfolding update_page_at place_in_page fits_slot
place_new_vector_at s new_id new_vector file_index page_index vector_index =
    if fits_slot s new_vector vector_index
    then update_page_at s file_index page_index (place_in_page new_id new_vector vector_index)
    else none

unfoldable pub update_number_of_vectors_at : Storage → ℕ → ℕ → Option Storage
unfolding update_page_at
update_number_of_vectors_at s file_index page_index =
    update_page_at s file_index page_index
      λ p. some (record p { n_vectors = add_size p.n_vectors 1 })

unfoldable pub update_in_page_max_dist : Storage → ℕ → ℕ → Option Storage
unfolding update_page_at calculate_file_index calculate_page_index
update_in_page_max_dist s page_idx d =
    update_page_at s (calculate_file_index s page_idx) (calculate_page_index s page_idx)
      λ p. some (record p { max_dist = d })

unfoldable pub get_max_dist_at : Storage → ℕ → Option ℕ
unfolding page_of
get_max_dist_at s page_idx = do p ← page_of s page_idx; some p.max_dist

unfoldable pub append_new_vector_at : Storage → ℕ → Vector → ℕ → ℕ → Option Storage
unfolding page_at place_new_vector_at update_number_of_vectors_at
append_new_vector_at s new_id new_vector file_index page_index = do
  p ← page_at s file_index page_index
  t ← place_new_vector_at s new_id new_vector file_index page_index p.n_vectors
  update_number_of_vectors_at t file_index page_index

unfoldable pub append_new_vector : Storage → ℕ → Vector → ℕ → Option Storage
unfolding append_new_vector_at calculate_file_index calculate_page_index
append_new_vector s new_id new_vector page_idx =
    append_new_vector_at s new_id new_vector (calculate_file_index s page_idx)
      (calculate_page_index s page_idx)

-- The rows of the view that `get_array_view_of_page` returns; its guards give the empty view.
unfoldable pub get_array_view_of_page : Storage → ℕ → Option (List Vector)
unfolding page_at calculate_file_index calculate_page_index
get_array_view_of_page s page_idx =
    let file_index = calculate_file_index s page_idx in
    let page_index = calculate_page_index s page_idx in
    if length s.files == 0
    then some []
    else if leb (length s.files) file_index || leb (s.n_pages / s.n_files) page_index
    then some []
    else (do
      p ← page_at s file_index page_index
      if leb p.n_vectors (length p.vectors) then some (take p.n_vectors p.vectors) else none)

unfoldable pub get_vector_id : Storage → ℕ → ℕ → Option ℕ
unfolding page_of
get_vector_id s page_idx vector_index = do p ← page_of s page_idx; get_elem? p.ids vector_index

unfoldable pub get_vector : Storage → ℕ → ℕ → Option Vector
unfolding page_of
get_vector s page_idx vector_index = do p ← page_of s page_idx; get_elem? p.vectors vector_index
