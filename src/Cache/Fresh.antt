-- ===== src/Cache/Fresh.antt =====
-- What the caches hold after their updates.
use spheres_benchmark.Prelude.{
  ℕ, zero, suc, ◌+◌, ◌-◌, ◌≤◌, ◌<◌, ◌≡◌, refl, sym, ap, ◌∙◌, inl, inr, List, [], ◌∷◌, some, arith,
  ltb, ◌==◌, if◌then◌else◌, Bool-cases, length, get_elem?, set, replicate, >>=-of_some, Behind,
  Behind-head, Behind-tail, Returns, Returns-bind, ◌>>=◌, get_elem?-some, get_elem?-set_self,
  get_elem?-set_ne, length-set, length-append, length-replicate,
}
use native.Mathlib.Decide.{dec_lt}
use spheres_benchmark.Storage.{Vector, Page, Storage, get_vector}
use spheres_benchmark.Storage.Pages.{
  all_pages, IsValid, length-all_pages, page-IsValid, get_n_vectors_of-eq, get_max_dist_at-eq,
  get_vector-eq,
}
use spheres_benchmark.Tagged.{Tagged}
use spheres_benchmark.Cache.{
  grown_cache, copy_anchors, update_anchor_cache, collect_max_dists, update_cached_max_dist,
}

-- The maximal distance and the index of each page that holds vectors, from index `i` on.
abbrev pub index_pages : ℕ → List Page → List Tagged
index_pages i [] = []
index_pages i (p ∷ ps) =
    if ltb 0 p.n_vectors then (p.max_dist, i) ∷ index_pages (suc i) ps else index_pages (suc i) ps

module _ (s : Storage) (v : IsValid s) where
  collect_max_dists_lem :
      (ps : List Page) (n i : ℕ)
      → length ps ≡ n
      → Behind (all_pages s) i ps
      → collect_max_dists s n i ≡ some (index_pages i ps)
  unfolding collect_max_dists
  collect_max_dists_lem [] zero i e at = refl
  collect_max_dists_lem [] (suc n) i e at = absurd (omega arith)
  collect_max_dists_lem (p ∷ ps) zero i e at = absurd (omega arith)
  collect_max_dists_lem (p ∷ ps) (suc n) i e at =
      let here = Behind-head (all_pages s) i p ps at in
      >>=-of_some _ (get_n_vectors_of-eq s i p v here) (
        >>=-of_some _ (get_max_dist_at-eq s i p v here) (
          >>=-of_some _
            (collect_max_dists_lem ps n (suc i) (omega arith) (Behind-tail (all_pages s) i p ps at))
            refl))

  -- The cache of maximal distances has an entry for each page that holds vectors, in page order.
  pub update_cached_max_dist_lem : update_cached_max_dist s ≡ some (index_pages 0 (all_pages s))
  unfolding update_cached_max_dist
  update_cached_max_dist_lem =
      collect_max_dists_lem (all_pages s) s.n_pages 0 (length-all_pages s v)
        (λ j. ap (get_elem? (all_pages s)) (omega arith))

  -- The cache has the anchor of each of the first `n` pages that hold vectors.
  abbrev pub AnchorsBelow : ℕ → List Vector → Type 0
  AnchorsBelow n cache =
      (i : ℕ) (p : Page)
      → i < n
      → get_elem? (all_pages s) i ≡ some p
      → 0 < p.n_vectors
      → get_elem? cache i ≡ get_elem? p.vectors 0

  below_suc :
      (i : ℕ) (p : Page) (cache cache' : List Vector)
      → get_elem? (all_pages s) i ≡ some p
      → AnchorsBelow i cache
      → ((j : ℕ) → j < i → get_elem? cache' j ≡ get_elem? cache j)
      → (0 < p.n_vectors → get_elem? cache' i ≡ get_elem? p.vectors 0)
      → AnchorsBelow (suc i) cache'
  below_suc i p cache cache' here done old new j q h at pos = elim (dec_lt j i) [
    | yes lt ↦ old j lt ∙ done j q lt at pos
    | no ge ↦
        let e : j ≡ i = omega arith in
        let both : some p ≡ some q = sym here ∙ ap (get_elem? (all_pages s)) (sym e) ∙ at in
        let same : p ≡ q = cc in rw (e, ← same) (new (rw same pos))
  ]

  -- One round of the loop.
  copy_anchor_lem :
      (i : ℕ) (p : Page) (cache : List Vector)
      → get_elem? (all_pages s) i ≡ some p
      → i < length cache
      → AnchorsBelow i cache
      → Returns
          (λ (c : List Vector). AnchorsBelow (suc i) c × (length c ≡ length cache))
          (if p.n_vectors == 0
            then some cache
            else (get_vector s i 0 >>= λ a. some (set cache i a)))
  copy_anchor_lem i p cache here room done = elim (Bool-cases (p.n_vectors == 0)) [
    | inl none_there ↦ rw none_there (
      cache,
      refl,
      (below_suc i p cache cache here done (λ j _. refl) (λ pos. absurd (ground arith)), refl),
    )
    | inr some_there ↦
        let slots = page-IsValid s i p v here in
        let (a, first) =
          get_elem?-some p.vectors 0 (ground (arith, slots.vector_slots, slots.fits)) in
        rw some_there (
          set cache i a,
          >>=-of_some _ (get_vector-eq s i p v here 0 ∙ first) refl,
          (
            below_suc i p cache (set cache i a) here done
                (λ j lt. get_elem?-set_ne cache a (omega arith))
                (λ _. get_elem?-set_self cache i a room ∙ sym first),
            length-set cache i a,
          ),
        )
  ]

  copy_anchors_lem :
      (ps : List Page) (n i : ℕ) (cache : List Vector)
      → length ps ≡ n
      → Behind (all_pages s) i ps
      → i + n ≤ length cache
      → AnchorsBelow i cache
      → Returns (AnchorsBelow (i + n)) (copy_anchors s n i cache)
  unfolding copy_anchors
  copy_anchors_lem [] zero i cache e at room done = (cache, refl, λ j p h. done j p (omega arith))
  copy_anchors_lem [] (suc n) i cache e at room done = absurd (omega arith)
  copy_anchors_lem (p ∷ ps) zero i cache e at room done = absurd (omega arith)
  copy_anchors_lem (p ∷ ps) (suc n) i cache e at room done =
      let here = Behind-head (all_pages s) i p ps at in
      let rest = Behind-tail (all_pages s) i p ps at in
      let shift : i + suc n ≡ suc i + n = omega arith in
      rw shift (
        Returns-bind {P = λ (c : ℕ). c ≡ p.n_vectors}
          (p.n_vectors, get_n_vectors_of-eq s i p v here, refl)
          λ count e'. rw e' (
            Returns-bind (copy_anchor_lem i p cache here (omega arith) done)
              λ c q. copy_anchors_lem ps n (suc i) c (omega arith) rest (omega (arith, q.1)) q.0))

  length-grown_cache : (cache : List Vector) → s.n_pages ≤ length (grown_cache s cache)
  unfolding grown_cache
  length-grown_cache cache = elim (Bool-cases (ltb (length cache) s.n_pages)) [
    | inl e ↦ rw e (
        omega (
          arith,
          length-append cache
              (replicate (s.n_pages - length cache) (replicate {A = ℕ} s.vector_dim 0)),
          length-replicate (s.n_pages - length cache) (replicate {A = ℕ} s.vector_dim 0),
        ))
    | inr e ↦ rw e (ground arith)
  ]

  -- Whatever it held before, the anchor cache then has the anchor of every page that holds vectors.
  pub update_anchor_cache_lem :
      (cache : List Vector) → Returns (AnchorsBelow s.n_pages) (update_anchor_cache s cache)
  unfolding update_anchor_cache
  update_anchor_cache_lem cache =
      let none_before : 0 + s.n_pages ≡ s.n_pages = omega arith in
      rw none_before at (
        copy_anchors_lem (all_pages s) s.n_pages 0 (grown_cache s cache) (length-all_pages s v)
          (λ j. ap (get_elem? (all_pages s)) (omega arith))
          (rw none_before (length-grown_cache cache)) (λ i p h. absurd (omega arith)))
