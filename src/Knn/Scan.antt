-- ===== src/Knn/Scan.antt =====
-- Probing one page: its pruning, its anchor and its other vectors.
use spheres_benchmark.Prelude.{
  ℕ, suc, ◌+◌, ◌≤◌, ◌<◌, ◌≡◌, refl, ap, ◌∙◌, inl, inr, Bool, true, some, List, [], ◌∷◌, ◌++◌, arith,
  ltb, Bool-cases, length, get_elem?, take, drop, total, total-append, SameItems, All, Returns,
  >>=-of_some, Behind, Behind-head, Behind-tail, get_elem?-head, get_elem?-some, take-head,
  length-take, Returns-some,
}
use mathlib.Core.Path.{subst}
use spheres_benchmark.Storage.{Vector, Page, Storage, get_vector_id}
use spheres_benchmark.Storage.Pages.{
  all_pages, IsValid, page-IsValid, get_max_dist_at-eq, get_vector_id-eq, get_array_view_of_page-eq,
}
use spheres_benchmark.Tagged.{Tagged, worst}
use spheres_benchmark.Knn.{offer, scan_rows, scan_page, probe_page}
use spheres_benchmark.Knn.Nearest.{
  Nearest, Nearest-push, Nearest-skip, Nearest-replace, Nearest-offer, Nearest-seen,
}

module _ (dist_func : Vector → Vector → ℕ) (query : Vector) where
  -- The distance and id of each vector.
  abbrev pub row_candidates : List Vector → List ℕ → List Tagged
  row_candidates [] ids = []
  row_candidates (v ∷ vs) [] = []
  row_candidates (v ∷ vs) (i ∷ ids) = (dist_func v query, i) ∷ row_candidates vs ids

  abbrev pub page_candidates : Page → List Tagged
  page_candidates p = row_candidates (take p.n_vectors p.vectors) p.ids

-- A vector of `dim` elements within `m` of the anchor.
abbrev pub IsWithin : (Vector → Vector → ℕ) → ℕ → Vector → ℕ → Vector → Type 0
IsWithin dist_func dim anchor m v = (length v ≡ dim) × (dist_func v anchor ≤ m)

-- All vectors of the page are within its maximal distance of its first one.
abbrev pub IsBall : (Vector → Vector → ℕ) → ℕ → Page → Type 0
IsBall dist_func dim p =
    (anchor : Vector)
    → get_elem? p.vectors 0 ≡ some anchor
    → All (IsWithin dist_func dim anchor p.max_dist) (take p.n_vectors p.vectors)

-- The test prunes a page only if no vector within `m` of the anchor is nearer than `w`.
abbrev pub PruneIsSound : (Vector → Vector → ℕ) → ℕ → (ℕ → ℕ → ℕ → Bool) → Type 0
PruneIsSound dist_func dim prune =
    (query anchor v : Vector) (m w : ℕ)
    → length query ≡ dim
    → length anchor ≡ dim
    → length v ≡ dim
    → prune (dist_func query anchor) m w ≡ true
    → dist_func v anchor ≤ m
    → w ≤ dist_func v query

module _ (dist_func : Vector → Vector → ℕ) (query : Vector) where
  -- Where the test prunes, no candidate of the page is nearer than `w`.
  candidates_far :
      (dim : ℕ) (prune : ℕ → ℕ → ℕ → Bool) (anchor : Vector) (m w : ℕ) (vs : List Vector)
      (ids : List ℕ)
      → PruneIsSound dist_func dim prune
      → length query ≡ dim
      → length anchor ≡ dim
      → prune (dist_func query anchor) m w ≡ true
      → All (IsWithin dist_func dim anchor m) vs
      → All (λ (c : Tagged). w ≤ c.0) (row_candidates dist_func query vs ids)
  candidates_far dim prune anchor m w [] ids sound hq ha e ball = tt
  candidates_far dim prune anchor m w (v ∷ vs) [] sound hq ha e ball = tt
  candidates_far dim prune anchor m w (v ∷ vs) (i ∷ ids) sound hq ha e ball = (
    sound query anchor v m w hq ha ball.0.0 e ball.0.1,
    candidates_far dim prune anchor m w vs ids sound hq ha e ball.1,
  )

module _ (dist_func : Vector → Vector → ℕ) (prune : ℕ → ℕ → ℕ → Bool)
    (symmetric : (u v : Vector) → dist_func u v ≡ dist_func v u) (dim : ℕ)
    (sound : PruneIsSound dist_func dim prune) (s : Storage) (valid : IsValid s) (k : ℕ)
    (positive : 0 < k) (query : Vector) (query_dim : length query ≡ dim) (idx : ℕ) (p : Page)
    (here : get_elem? (all_pages s) idx ≡ some p) where
  scan_rows-Nearest :
      (vs : List Vector) (ids : List ℕ) (i : ℕ) (seen heap : List Tagged)
      → length vs ≤ length ids
      → Behind p.ids i ids
      → Nearest k seen heap
      → Returns
          (Nearest k (row_candidates dist_func query vs ids ++ seen))
          (scan_rows dist_func prune s k query idx i vs heap)
  unfolding scan_rows
  scan_rows-Nearest [] ids i seen heap h at n = (heap, refl, n)
  scan_rows-Nearest (v ∷ vs) [] i seen heap h at n = absurd (omega arith)
  scan_rows-Nearest (v ∷ vs) (id ∷ ids) i seen heap h at n =
      let c : Tagged = (dist_func v query, id) in
      let (heap', run, n') =
        scan_rows-Nearest vs ids (suc i) (c ∷ seen) (offer k c heap) (omega arith)
          (Behind-tail p.ids i id ids at) (Nearest-offer k seen heap c n) in
      (
        heap',
        >>=-of_some _ (get_vector_id-eq s idx p valid here i ∙ Behind-head p.ids i id ids at) run,
        Nearest-seen _
            (λ f. omega (
              arith,
              total-append f (row_candidates dist_func query vs ids) (c ∷ seen),
              total-append f (row_candidates dist_func query vs ids) seen,
            ))
            n',
      )

  module _ (anchor : Vector) (first : get_elem? p.vectors 0 ≡ some anchor)
      (some_there : 0 < p.n_vectors) where
    rows_split : (rows : List Vector) × (take p.n_vectors p.vectors ≡ anchor ∷ rows)
    rows_split = take-head p.n_vectors p.vectors some_there first

    anchor_dim : IsBall dist_func dim p → length anchor ≡ dim
    anchor_dim ball =
        let rows =
          subst (All (IsWithin dist_func dim anchor p.max_dist)) rows_split.1 (ball anchor first) in
        rows.0.0

    ids_split : (id : ℕ) × (ids : List ℕ) × (p.ids ≡ id ∷ ids)
    ids_split =
        let slots = page-IsValid s idx p valid here in
        let (id, e) = get_elem?-some p.ids 0 (omega (arith, slots.id_slots, slots.fits)) in
        let (ids, e') = get_elem?-head p.ids e in (id, ids, e')

    abbrev first_candidate : Tagged
    first_candidate = (dist_func query anchor, ids_split.0)

    first_id : get_vector_id s idx 0 ≡ some ids_split.0
    first_id =
        get_vector_id-eq s idx p valid here 0 ∙ ap (λ (ids : List ℕ). get_elem? ids 0) ids_split.2

    candidates_split :
        page_candidates dist_func query p
        ≡ first_candidate ∷ row_candidates dist_func query rows_split.0 ids_split.1
    candidates_split = rw (rows_split.1, ids_split.2, symmetric query anchor)

    rows-le-ids : length rows_split.0 ≤ length ids_split.1
    rows-le-ids =
        let slots = page-IsValid s idx p valid here in
        let rows : length (take p.n_vectors p.vectors) ≡ suc (length rows_split.0) =
          ap (length {A = Vector}) rows_split.1 in
        let ids : length p.ids ≡ suc (length ids_split.1) = ap (length {A = ℕ}) ids_split.2 in
        omega (
          arith,
          rows,
          ids,
          length-take p.n_vectors p.vectors,
          slots.fits,
          slots.id_slots,
          slots.vector_slots,
        )

    ids-Behind : Behind p.ids 1 ids_split.1
    ids-Behind j =
        let next : 1 + j ≡ suc j = omega arith in
        ap (λ (ids : List ℕ). get_elem? ids (1 + j)) ids_split.2
        ∙ ap (get_elem? (ids_split.0 ∷ ids_split.1)) next

    -- The candidates of the page, in the order in which the search meets them.
    candidates_met :
        (seen : List Tagged)
        → SameItems
            (row_candidates dist_func query rows_split.0 ids_split.1 ++ first_candidate ∷ seen)
            (page_candidates dist_func query p ++ seen)
    candidates_met seen f =
        let rows = row_candidates dist_func query rows_split.0 ids_split.1 in
        omega (
          arith,
          total-append f rows (first_candidate ∷ seen),
          total-append f (page_candidates dist_func query p) seen,
          ap (total f) candidates_split,
        )

    scan_page-Nearest :
        (seen heap : List Tagged)
        → Nearest k (first_candidate ∷ seen) heap
        → Returns
            (Nearest k (page_candidates dist_func query p ++ seen))
            (scan_page dist_func prune s k query idx heap)
    unfolding scan_page
    scan_page-Nearest seen heap n =
        let (heap', run, n') =
          scan_rows-Nearest rows_split.0 ids_split.1 1 (first_candidate ∷ seen) heap rows-le-ids
            ids-Behind n in
        (
          heap',
          >>=-of_some _ (get_array_view_of_page-eq s idx p valid here) (
              ap
                (λ (rows : List Vector).
                  scan_rows dist_func prune s k query idx 1 (drop 1 rows) heap)
                rows_split.1
              ∙ run),
          Nearest-seen _ (candidates_met seen) n',
        )

    -- Probing a page that is a ball adds all its vectors to the candidates seen.
    pub probe_page-Nearest :
        (seen heap : List Tagged)
        → IsBall dist_func dim p
        → Nearest k seen heap
        → Returns
            (Nearest k (page_candidates dist_func query p ++ seen))
            (probe_page dist_func prune s k query (dist_func query anchor, idx) heap)
    unfolding probe_page
    probe_page-Nearest seen heap ball n =
        let max = get_max_dist_at-eq s idx p valid here in
        let c = first_candidate in
        Returns-some _ max (elim (Bool-cases (ltb (length heap) k)) [
          | inl room ↦ rw room (
              Returns-some _ first_id
                (scan_page-Nearest seen _ (Nearest-push k seen heap n c (ground arith))))
          | inr no_room ↦
              let full : length heap ≡ k = ground (arith, n.size) in
              elim (Bool-cases (prune (dist_func query anchor) p.max_dist (worst heap))) [
                | inl pruned ↦
                    rw (no_room, pruned)
                      (
                        heap,
                        refl,
                        Nearest-skip k seen heap n (page_candidates dist_func query p) full (
                            candidates_far dist_func query dim prune anchor p.max_dist (worst heap)
                              _ p.ids sound query_dim (anchor_dim ball) pruned (ball anchor first)),
                      )
                | inr kept ↦ elim (Bool-cases (ltb (dist_func query anchor) (worst heap))) [
                  | inl near ↦
                      rw (no_room, kept, near)
                        (Returns-some _ first_id (
                          scan_page-Nearest seen _
                            (Nearest-replace k seen heap n c full (ground arith))))
                  | inr far ↦
                      rw (no_room, kept, far)
                        (scan_page-Nearest seen heap
                          (Nearest-skip k seen heap n (c ∷ []) full (ground arith, tt)))
                ]
              ]
        ])
