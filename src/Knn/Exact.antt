-- ===== src/Knn/Exact.antt =====
-- A query of `find_knn_batch_worker` that may probe every page.
use native.Mathlib.Nat.{zero-add}
use spheres_benchmark.Prelude.{
  leb, length-drop, ℕ, suc, ◌+◌, ◌≤◌, ◌<◌, ◌≡◌, refl, ap, ◌∙◌, inl, inr, Bool, true, false,
  take-append, Option, none, some, List, [], ◌∷◌, ◌++◌, arith, ltb, ◌==◌, Bool-cases, length,
  get_elem?, take, drop, total, total-append, length-append, length-total, length-same, All,
  All-get, Returns, >>=-of_some, Behind, Behind-head, Behind-tail, get_elem?-some, get_elem?-lt,
}
use spheres_benchmark.Storage.{Vector, Page, Storage}
use spheres_benchmark.Storage.Pages.{all_pages, IsValid, page-IsValid, length-all_pages}
use spheres_benchmark.Tagged.{Tagged, sort}
use spheres_benchmark.Tagged.Order.{sort-same, All-sort}
use spheres_benchmark.Cache.{dists_to_anchors, fill_dist_to_anchor_buffer}
use spheres_benchmark.Cache.Fresh.{index_pages, AnchorsBelow}
use spheres_benchmark.Knn.{probe_pages, batch_query}
use spheres_benchmark.Knn.Nearest.{Nearest, Nearest-nil, Nearest-seen}
use spheres_benchmark.Knn.Scan.{page_candidates, IsBall, PruneIsSound, probe_page-Nearest}

module _ (dist_func : Vector → Vector → ℕ) (query : Vector) where
  -- Every stored vector, by its distance from the query and its id.
  abbrev pub database_candidates : List Page → List Tagged
  database_candidates [] = []
  database_candidates (p ∷ ps) = page_candidates dist_func query p ++ database_candidates ps

  module _ (s : Storage) where
    candidates_of : Option Page → List Tagged
    candidates_of none = []
    candidates_of (some p) = page_candidates dist_func query p

    candidates_at : ℕ → List Tagged
    unfolding candidates_of
    candidates_at i = candidates_of (get_elem? (all_pages s) i)

    entries_candidates : List Tagged → List Tagged
    entries_candidates [] = []
    entries_candidates (x ∷ xs) = candidates_at x.1 ++ entries_candidates xs

    -- The entry has the index of a page with vectors and the distance of its anchor.
    pub record IsEntry (x : Tagged) : Type 0 where
      pub page : Page
      pub anchor : Vector
      pub here : get_elem? (all_pages s) x.1 ≡ some page
      pub some_there : 0 < page.n_vectors
      pub first : get_elem? page.vectors 0 ≡ some anchor
      pub dist : x.0 ≡ dist_func query anchor

    total-entries_candidates :
        (f : Tagged → ℕ) (xs : List Tagged)
        → total f (entries_candidates xs) ≡ total (λ x. total f (candidates_at x.1)) xs
    unfolding entries_candidates
    total-entries_candidates f [] = refl
    total-entries_candidates f (x ∷ xs) = omega (
      arith,
      total-append f (candidates_at x.1) (entries_candidates xs),
      total-entries_candidates f xs,
    )

    -- By page index the candidates are those of the database.
    total-index_pages :
        (f : Tagged → ℕ) (ps : List Page) (i : ℕ)
        → Behind (all_pages s) i ps
        → total (λ x. total f (candidates_at x.1)) (index_pages i ps)
          ≡ total f (database_candidates ps)
    unfolding candidates_at
    total-index_pages f [] i at = refl
    total-index_pages f (p ∷ ps) i at =
        let rest = total-index_pages f ps (suc i) (Behind-tail (all_pages s) i p ps at) in
        let split = total-append f (page_candidates dist_func query p) (database_candidates ps) in
        elim (Bool-cases (ltb 0 p.n_vectors)) [
          | inl e ↦ rw (e, Behind-head (all_pages s) i p ps at) (omega (arith, rest, split))
          | inr e ↦ let empty : p.n_vectors ≡ 0 = ground arith in rw e (rw empty rest)
        ]

    -- The buffer has an entry for each page of the cache, in its order.
    abbrev pub Matches : List Tagged → List Tagged → Type 0
    Matches pages buffer =
        All IsEntry buffer
        × ((g : ℕ → ℕ) → total (λ (x : Tagged). g x.1) buffer ≡ total (λ (x : Tagged). g x.1) pages)

    module _ (valid : IsValid s) (cache : List Vector)
        (fresh : AnchorsBelow s valid s.n_pages cache) where
      page-IsEntry :
          (i : ℕ) (p : Page)
          → get_elem? (all_pages s) i ≡ some p
          → 0 < p.n_vectors
          → (anchor : Vector) × (get_elem? cache i ≡ some anchor)
            × IsEntry (dist_func query anchor, i)
      page-IsEntry i p here some_there =
          let slots = page-IsValid s i p valid here in
          let (anchor, first) =
            get_elem?-some p.vectors 0 (omega (arith, slots.vector_slots, slots.fits)) in
          let i_in : i < s.n_pages =
            omega (arith, get_elem?-lt (all_pages s) i here, length-all_pages s valid) in
          (
            anchor,
            fresh i p i_in here some_there ∙ first,
            record {
              page = p;
              anchor = anchor;
              here = here;
              some_there = some_there;
              first = first;
              dist = refl;
            },
          )

      dists_to_anchors-Matches :
          (ps : List Page) (i : ℕ)
          → Behind (all_pages s) i ps
          → Returns
              (Matches (index_pages i ps))
              (dists_to_anchors dist_func cache (index_pages i ps) query)
      unfolding dists_to_anchors
      dists_to_anchors-Matches [] i at = ([], refl, (tt, λ g. refl))
      dists_to_anchors-Matches (p ∷ ps) i at =
          let ih = dists_to_anchors-Matches ps (suc i) (Behind-tail (all_pages s) i p ps at) in
          elim (Bool-cases (ltb 0 p.n_vectors)) [
            | inr e ↦ rw e ih
            | inl e ↦
                let (anchor, cached, entry) =
                  page-IsEntry i p (Behind-head (all_pages s) i p ps at) (ground arith) in
                let (buffer, run, m) = ih in
                rw e (
                  (dist_func query anchor, i) ∷ buffer,
                  >>=-of_some _ cached (>>=-of_some _ run refl),
                  ((entry, m.0), λ g. omega (arith, m.1 g)),
                )
          ]

      pub fill-Matches :
          Returns
            (Matches (index_pages 0 (all_pages s)))
            (fill_dist_to_anchor_buffer dist_func cache (index_pages 0 (all_pages s)) query true)
      unfolding fill_dist_to_anchor_buffer
      fill-Matches =
          let at = λ (j : ℕ). ap (get_elem? (all_pages s)) (zero-add j) in
          let (buffer, run, m) = dists_to_anchors-Matches (all_pages s) 0 at in
          (
            sort buffer,
            >>=-of_some _ run refl,
            (All-sort IsEntry buffer m.0, λ g. sort-same buffer (λ x. g x.1) ∙ m.1 g),
          )

module _ (dist_func : Vector → Vector → ℕ) (prune : ℕ → ℕ → ℕ → Bool)
    (symmetric : (u v : Vector) → dist_func u v ≡ dist_func v u) (dim : ℕ)
    (sound : PruneIsSound dist_func dim prune) (s : Storage) (valid : IsValid s)
    (balls : All (IsBall dist_func dim) (all_pages s)) (k : ℕ) (positive : 0 < k) (query : Vector)
    (query_dim : length query ≡ dim) where
  probe_pages-Nearest :
      (budget n_probed : ℕ) (xs seen heap : List Tagged)
      → n_probed + length xs ≤ budget
      → All (IsEntry dist_func query s) xs
      → Nearest k seen heap
      → Returns
          (Nearest k (entries_candidates dist_func query s xs ++ seen))
          (probe_pages dist_func prune s k query budget n_probed xs heap)
  unfolding probe_pages entries_candidates candidates_at
  probe_pages-Nearest budget n_probed [] seen heap h entries n = (heap, refl, n)
  probe_pages-Nearest budget n_probed ((d, i) ∷ xs) seen heap h entries n =
      let e = entries.0 in
      let going : n_probed == budget ≡ false = ground arith in
      let met = page_candidates dist_func query e.page in
      let step =
        probe_page-Nearest dist_func prune symmetric dim sound s valid k positive query query_dim i
          e.page e.here e.anchor e.first e.some_there seen heap
          (All-get (IsBall dist_func dim) (all_pages s) i balls e.here) n in
      let (heap', run, n') = step in
      let (heap'', run', n'') =
        probe_pages-Nearest budget (n_probed + 1) xs (met ++ seen) heap' (omega arith) entries.1
          n' in
      let page : candidates_of dist_func query s (get_elem? (all_pages s) i) ≡ met =
        ap (candidates_of dist_func query s) e.here in
      (
        heap'',
        rw (going, e.dist) (>>=-of_some _ run run'),
        Nearest-seen _
            (λ f. rw page (
              omega (
                arith,
                total-append f (entries_candidates dist_func query s xs) (met ++ seen),
                total-append f met seen,
                total-append f (met ++ entries_candidates dist_func query s xs) seen,
                total-append f met (entries_candidates dist_func query s xs),
              )))
            n'',
      )

  full_heap : (seen heap : List Tagged) → k ≤ length seen → Nearest k seen heap → length heap ≡ k
  full_heap seen heap enough n = by_rest n.rest refl
    where
      size : length (heap ++ n.rest) ≡ length seen
      size = length-same (heap ++ n.rest) seen n.same

      by_rest : (r : List Tagged) → n.rest ≡ r → length heap ≡ k
      by_rest [] e =
          let none_left : length n.rest ≡ 0 = ap (length {A = Tagged}) e in
          omega (arith, size, length-append heap n.rest, n.size)
      by_rest (x ∷ r) e = n.full (λ e'. cc)

  take_all : (heap rest : List Tagged) → length heap ≡ k → take k (heap ++ rest) ≡ heap
  take_all heap rest e = rw (← e) (take-append heap rest)

  -- With a budget for all its pages a query on fresh caches leaves the k nearest stored vectors in the
  -- first k places of the buffer, which has k places at least and keeps its length.
  pub batch_query-Nearest :
      (cached_vectors : List Vector) (budget : ℕ) (old_buffer : List Tagged)
      → AnchorsBelow s valid s.n_pages cached_vectors
      → length (index_pages 0 (all_pages s)) ≤ budget
      → k ≤ length (database_candidates dist_func query (all_pages s))
      → k ≤ length old_buffer
      → Returns
          (λ (b : List Tagged).
            Nearest k (database_candidates dist_func query (all_pages s)) (take k b)
            × (length b ≡ length old_buffer))
          (batch_query dist_func prune s k query cached_vectors
            (index_pages 0 (all_pages s))
            budget
            old_buffer)
  unfolding batch_query
  batch_query-Nearest cached_vectors budget old_buffer fresh room enough places =
      let pages = index_pages 0 (all_pages s) in
      let db = database_candidates dist_func query (all_pages s) in
      let (buffer, fill, m) = fill-Matches dist_func query s valid cached_vectors fresh in
      let size : length buffer ≤ budget =
        omega (arith, length-total buffer, length-total pages, m.1 (λ _. 1)) in
      let (heap, run, n) =
        probe_pages-Nearest budget 0 buffer [] [] (omega (arith, size)) m.0 (Nearest-nil k) in
      let all =
        λ (f : Tagged → ℕ). total-append f (entries_candidates dist_func query s buffer) [] in
      let n' : Nearest k db heap =
        Nearest-seen db
          (λ f. omega (
            arith,
            all f,
            total-entries_candidates dist_func query s f buffer,
            m.1 (λ j. total f (candidates_at dist_func query s j)),
            total-index_pages dist_func query s f (all_pages s) 0
                (λ j. ap (get_elem? (all_pages s)) (zero-add j)),
          ))
          n in
      let full = full_heap db heap enough n' in
      let inside : leb (length heap) (length old_buffer) ≡ true = ground (arith, full) in
      let used = drop (length heap) old_buffer in
      (
        heap ++ used,
        >>=-of_some _ fill (>>=-of_some _ run (rw inside refl)),
        (
          rw (take_all heap used full) n',
          omega (arith, length-append heap used, length-drop (length heap) old_buffer, full),
        ),
      )
