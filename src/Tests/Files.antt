-- ===== src/Tests/Files.antt =====
-- Runs of the storage.
use spheres_benchmark.Prelude.{◌+◌, ◌*◌, ◌≡◌, ◌≤◌, refl, [], ◌∷◌, arith, Returns, some}
use spheres_benchmark.Config.{float}
use spheres_benchmark.Storage.{
  Storage, create_storage, element_size_of, load_storage, close_database, append_new_vector,
  id_address, vector_address,
}
use spheres_benchmark.Storage.Layout.{slots_apart}
use spheres_benchmark.Storage.Pages.{Wrote, appended, append_new_vector-Wrote}
use spheres_benchmark.Storage.Files.{load-close}
use spheres_benchmark.Tests.Samples.{
  second_page, sample, sample_config, sample_valid, sample-HoldsSlots,
}

append_new_vector-Wrote_example :
    Returns
      (Wrote sample 1 (appended 13 (5 ∷ []) second_page))
      (append_new_vector sample 13 (5 ∷ []) 1)
append_new_vector-Wrote_example =
    append_new_vector-Wrote sample 13 (5 ∷ []) 1 second_page sample_valid refl (omega arith) 1
      sample-HoldsSlots refl

load-close_example : load_storage sample.files (close_database sample_config sample) ≡ some sample
unfolding load_storage
load-close_example =
    load-close sample_config sample sample_valid
      (record {
        page_size = refl;
        file_size = refl;
        dim = refl;
        id_offset = refl;
        element_size = refl;
        max_num = refl;
        vector_offset = refl;
      })
      refl (omega arith)

abbrev empty : Storage
empty = create_storage 64 128 float 1

slots_apart_example :
    (16 ≤ id_address empty 1)
    × (id_address empty 1 + 8 ≤ id_address empty 3)
    × (id_address empty 3 + 8 ≤ empty.vector_offset)
    × (empty.vector_offset ≤ vector_address empty 1)
    × (vector_address empty 1 + element_size_of float * 1 ≤ vector_address empty 3)
    × (vector_address empty 3 + element_size_of float * 1 ≤ 64)
unfolding create_storage element_size_of
slots_apart_example =
    slots_apart 64 128 float 1 (omega arith) (omega arith) (omega arith) 1 3 (omega arith)
      (omega arith)
