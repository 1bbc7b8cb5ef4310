-- ===== src/Insert/Cases.antt =====
-- The cases of `insert_a_vector`.
use spheres_benchmark.Prelude.{ℕ, ◌≡◌, arith, length, ltb, leb, if◌then◌else◌, add_size}
use spheres_benchmark.Storage.{Vector}
use spheres_benchmark.Prefill.{vectors_per_page}
use spheres_benchmark.Insert.{Inserting, no_victim, case3, case4, case5, case6, choose_case}

module _ (dist_func : Vector → Vector → ℕ) (num den : ℕ) (st : Inserting) (new_id : ℕ)
    (new_vector : Vector) (page_idx n_vectors best max_dist : ℕ) where
  -- Which of the cases is taken: 3 or 4 for a vector nearer to the best anchor than the maximal distance of
  -- its page, 5 or 6 for any other, and neither 7 nor 8.
  pub choose_case_lem :
      choose_case dist_func num den st new_id new_vector page_idx n_vectors best max_dist ≡ (
        if ltb best max_dist
        then if leb (add_size n_vectors 1) (vectors_per_page st.db_storage num den)
          then no_victim dist_func num den st new_id new_vector
              (case3 dist_func num den st new_id new_vector page_idx)
          else case4 dist_func num den st new_id new_vector page_idx
        else if ltb (length st.cached_max_dists) st.db_storage.n_pages
        then no_victim dist_func num den st new_id new_vector
            (case5 dist_func num den st new_id new_vector)
        else no_victim dist_func num den st new_id new_vector
            (case6 dist_func num den st new_id new_vector))
  unfolding choose_case
  choose_case_lem = ground arith
