-- ===== src/Faiss/Added.antt =====
-- `add_in_batches` of faiss/faiss_benchmark.cpp against a call that adds all vectors.
use spheres_benchmark.Prelude.{ℕ, ◌+◌, ◌<◌, ◌≡◌, ap, some, List, [], ◌++◌, ◌>>=◌}
use spheres_benchmark.Harness.Args.{BenchmarkConfig}
use spheres_benchmark.Harness.Vectors.{read_file_as_flat_array}
use spheres_benchmark.Harness.Batches.{IsBatched, each_batch_lem}
use spheres_benchmark.Harness.Machine.{Machine}
use spheres_benchmark.Faiss.{Library, add_in_batches}

module _ (faiss : Library) where
  open faiss use {Index, add}

  -- What the program relies on of `Index::add`: vectors that are added in two calls are as those that are
  -- added in one.
  pub record IsAdditive : Type 0 where
    pub nothing : (i : Index) → add i 0 [] ≡ i
    pub joined :
        (i : Index) (a b : ℕ) (xs ys : List ℕ) → add i (a + b) (xs ++ ys) ≡ add (add i a xs) b ys

  module _ (m : Machine) (config : BenchmarkConfig) (law : IsAdditive) where
    add-IsBatched : IsBatched config.vector_dim (λ i added rows batch. some (add i rows batch))
    add-IsBatched = record {
      nothing = λ i added. ap some (law.nothing i);
      joined = λ i added a b xs ys size size'. ap some (law.joined i a b xs ys);
    }

    -- With batches of one vector at least the loop ends, and adds what one call would with all vectors of
    -- the file; it throws exactly when the file does not hold them.
    pub add_in_batches_lem :
        (batch_size : ℕ) (index : Index)
        → 0 < batch_size
        → add_in_batches faiss m config batch_size index ≡ (
            read_file_as_flat_array
              (m.file config.base_vector_path)
              config.n_base_vectors
              config.vector_dim
            >>= λ vectors. some (add index config.n_base_vectors vectors))
    unfolding add_in_batches
    add_in_batches_lem batch_size index positive =
        each_batch_lem (λ i added rows batch. some (add i rows batch)) batch_size
          config.n_base_vectors (m.file config.base_vector_path) config.vector_dim index
          add-IsBatched positive
