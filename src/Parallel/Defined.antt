-- ===== src/Parallel/Defined.antt =====
-- Where the work of the threads in a page-level search is defined.
use mathlib.Core.Path.{subst}
use spheres_benchmark.Prelude.{
  ℕ, zero, suc, ◌+◌, ◌-◌, ◌*◌, ◌≤◌, ◌<◌, ◌≡◌, refl, sym, ap, ◌∙◌, inl, inr, Bool, true, Option,
  none, some, List, [], ◌∷◌, arith, length, get_elem?-some, length-set, min, leb, ◌==◌,
  if◌then◌else◌, Bool-cases, >>=-of_some, Returns, All, All-get, All-set, All-map, length-total,
  add_size, size_mod,
}
use spheres_benchmark.Storage.{Vector, Storage}
use spheres_benchmark.Storage.Pages.{all_pages, IsValid, get_max_dist_at-eq}
use spheres_benchmark.Tagged.{Tagged}
use spheres_benchmark.Cache.Fresh.{index_pages, AnchorsBelow}
use spheres_benchmark.Knn.{probe_page}
use spheres_benchmark.Knn.Nearest.{Nearest, Nearest-nil}
use spheres_benchmark.Knn.Scan.{IsBall, PruneIsSound, probe_page-Nearest}
use spheres_benchmark.Knn.Exact.{IsEntry, fill-Matches}
use spheres_benchmark.Parallel.{
  Worker, in_buffer, Searching, visit_page, visit_pages, morsel_pages, search_turn, search_turns,
  find_k_nearest_state, anchor_distances, prune_by, is_pruned,
}
use spheres_benchmark.Parallel.Parts.{anchor_distances_lem}
use spheres_benchmark.Parallel.Pruned.{find_k_nearest_state-pruned}

module _ (dist_func : Vector → Vector → ℕ) (prune : ℕ → ℕ → ℕ → Bool)
    (symmetric : (u v : Vector) → dist_func u v ≡ dist_func v u) (dim : ℕ)
    (sound : PruneIsSound dist_func dim prune) (s : Storage) (valid : IsValid s)
    (balls : All (IsBall dist_func dim) (all_pages s)) (k : ℕ) (positive : 0 < k) (query : Vector)
    (query_dim : length query ≡ dim) where
  -- What a heap of a search is: the k nearest of some vectors.
  abbrev IsHeap : List Tagged → Type 0
  IsHeap heap = (seen : List Tagged) × Nearest k seen heap

  visit_page-IsHeap :
      (bound : Option ℕ) (page : Tagged) (found : List Tagged × ℕ)
      → IsEntry dist_func query s page
      → IsHeap found.0
      → Returns
          (λ (r : List Tagged × ℕ). IsHeap r.0)
          (visit_page dist_func prune s k query bound page found)
  unfolding visit_page
  visit_page-IsHeap bound (d, i) found e (seen, n) =
      let max = get_max_dist_at-eq s i e.page valid e.here in
      let (heap, run, n') =
        probe_page-Nearest dist_func prune symmetric dim sound s valid k positive query query_dim i
          e.page e.here e.anchor e.first e.some_there seen found.0
          (All-get (IsBall dist_func dim) (all_pages s) i balls e.here) n in
      let run' : probe_page dist_func prune s k query (d, i) found.0 ≡ some heap =
        ap (λ a. probe_page dist_func prune s k query (a, i) found.0) e.dist ∙ run in
      let count : ℕ =
        if is_pruned dist_func prune s k query bound (d, i) e.page.max_dist found.0
        then found.1 + 1
        else found.1 in
      elim (Bool-cases (prune_by prune d e.page.max_dist bound)) [
        | inl skip ↦ ((found.0, count), >>=-of_some _ max (rw skip refl), (seen, n))
        | inr visit ↦
            ((heap, count), >>=-of_some _ max (rw visit (>>=-of_some _ run' refl)), (_, n'))
      ]

  visit_pages-IsHeap :
      (bound : Option ℕ) (pages : List Tagged) (found : List Tagged × ℕ)
      → All (IsEntry dist_func query s) pages
      → IsHeap found.0
      → Returns
          (λ (r : List Tagged × ℕ). IsHeap r.0)
          (visit_pages dist_func prune s k query bound pages found)
  unfolding visit_pages
  visit_pages-IsHeap bound [] found entries n = (found, refl, n)
  visit_pages-IsHeap bound (page ∷ pages) found entries n =
      let (found', run, n') = visit_page-IsHeap bound page found entries.0 n in
      let (r, run', n'') = visit_pages-IsHeap bound pages found' entries.1 n' in
      (r, >>=-of_some _ run run', n'')

  morsel_pages-All :
      (buffer : List Tagged) (n current : ℕ)
      → All (IsEntry dist_func query s) buffer
      → current + n ≤ length buffer
      → Returns
          (All (IsEntry dist_func query s))
          (morsel_pages dist_func prune s k query buffer n current)
  morsel_pages-All buffer zero current entries h = ([], refl, tt)
  morsel_pages-All buffer (suc n) current entries h =
      let (page, there) = get_elem?-some buffer current (omega arith) in
      let (pages, run, rest) = morsel_pages-All buffer n (suc current) entries (omega arith) in
      (
        page ∷ pages,
        >>=-of_some _ there (>>=-of_some _ run refl),
        (All-get (IsEntry dist_func query s) buffer current entries there, rest),
      )

  -- The heaps of all threads, with the places for k items that each has.
  abbrev HoldsHeaps : ℕ → Searching → Type 0
  HoldsHeaps n st =
      (length st.workers ≡ n) × All (λ (w : Worker). IsHeap w.heap × (k ≤ w.capacity)) st.workers

  search_turn-HoldsHeaps :
      (buffer : List Tagged) (max_morsel step thread n : ℕ) (st : Searching)
      → All (IsEntry dist_func query s) buffer
      → max_morsel ≤ length buffer
      → thread < n
      → HoldsHeaps n st
      → Returns
          (HoldsHeaps n)
          (search_turn dist_func prune s k query buffer max_morsel step thread st)
  unfolding search_turn
  search_turn-HoldsHeaps buffer max_morsel step thread n st entries inside known (size, heaps) =
      elim (Bool-cases (leb max_morsel st.next_morsel)) [
        | inl over ↦
            rw over (record st { next_morsel = add_size st.next_morsel step }, refl, (size, heaps))
        | inr more ↦
            let count = min max_morsel (add_size step st.next_morsel) - st.next_morsel in
            let (w, there) = get_elem?-some st.workers thread (omega (arith, size)) in
            let (pages, run, good) =
              morsel_pages-All buffer count st.next_morsel entries (ground arith) in
            let mine = All-get _ st.workers thread heaps there in
            let (found, run', heap) =
              visit_pages-IsHeap st.shared_data pages (w.heap, 0) good mine.0 in
            let inside : leb (length found.0) w.capacity ≡ true =
              let few = heap.1.size in ground (arith, few, mine.1) in
            let kept : in_buffer w found.0 ≡ some found.0 = rw inside refl in
            let w' : Worker = record w { heap = found.0 } in
            rw more (
              _,
              >>=-of_some _ there
                  (>>=-of_some _ run (>>=-of_some _ run' (>>=-of_some _ kept refl))),
              (
                length-set st.workers thread w' ∙ size,
                All-set _ st.workers thread w' heaps (heap, mine.1),
              ),
            )
      ]

  search_turns-HoldsHeaps :
      (buffer : List Tagged) (max_morsel step n : ℕ) (threads : List ℕ) (st : Searching)
      → All (IsEntry dist_func query s) buffer
      → max_morsel ≤ length buffer
      → All (λ (t : ℕ). t < n) threads
      → HoldsHeaps n st
      → Returns
          (HoldsHeaps n)
          (search_turns dist_func prune s k query buffer max_morsel step threads st)
  unfolding search_turns
  search_turns-HoldsHeaps buffer max_morsel step n [] st entries inside known holds =
      (st, refl, holds)
  search_turns-HoldsHeaps buffer max_morsel step n (thread ∷ threads) st entries inside known
        holds =
      let (st', run, holds') =
        search_turn-HoldsHeaps buffer max_morsel step thread n st entries inside known.0 holds in
      let (st'', run', holds'') =
        search_turns-HoldsHeaps buffer max_morsel step n threads st' entries inside known.1
          holds' in
      (st'', >>=-of_some _ run run', holds'')

  -- The work of the threads in a search, up to the collection of their outputs, which can still fault. On
  -- fresh caches, with threads that have just started, at least one, with places for k items each, and with no
  -- more pages to probe than there are, the threads come to their end without a fault, in whatever order they
  -- take their morsels; and they add each page that they may probe to the counter of pruned pages once at most.
  -- The counter of morsels does not wrap.
  pub find_k_nearest_state-defined :
      (cached_vectors : List Vector) (n_pages_to_probe step n_pruned : ℕ) (threads : List ℕ)
      (workers : List Worker)
      → AnchorsBelow s valid s.n_pages cached_vectors
      → n_pages_to_probe ≤ length (index_pages 0 (all_pages s))
      → 0 < length workers
      → All (λ (w : Worker). (w.heap ≡ []) × (k ≤ w.capacity)) workers
      → All (λ (t : ℕ). t < length workers) threads
      → step * length threads < size_mod
      → Returns
          (λ (st : Searching).
            st.n_pruned
            ≤ n_pruned
              + (if n_pages_to_probe == 0
                  then length (index_pages 0 (all_pages s))
                  else n_pages_to_probe))
          (find_k_nearest_state dist_func prune s k query cached_vectors
            (index_pages 0 (all_pages s))
            n_pages_to_probe
            step
            threads
            workers
            n_pruned)
  unfolding find_k_nearest_state
  find_k_nearest_state-defined cached_vectors n_pages_to_probe step n_pruned threads workers fresh
        few some_threads started known small =
      let pages = index_pages 0 (all_pages s) in
      let (buffer, fill, m) = fill-Matches dist_func query s valid cached_vectors fresh in
      let size : length buffer ≡ length pages =
        omega (arith, length-total buffer, length-total pages, m.1 (λ _. 1)) in
      let filled : anchor_distances dist_func query cached_vectors pages (length workers)
          ≡ some buffer =
        anchor_distances_lem dist_func query cached_vectors pages (length workers) some_threads
        ∙ fill in
      let max_morsel = if n_pages_to_probe == 0 then length buffer else n_pages_to_probe in
      let at_start : Searching = record {
        next_morsel = 0;
        n_pruned = n_pruned;
        shared_data = none;
        workers = workers;
      } in
      let empty =
        All-map (λ (w : Worker). (w.heap ≡ []) × (k ≤ w.capacity))
          (λ (w : Worker). IsHeap w.heap × (k ≤ w.capacity)) workers
          (λ w e. (subst (λ heap. IsHeap heap) (sym e.0) ([], Nearest-nil k), e.1)) started in
      let (st, run, _) =
        search_turns-HoldsHeaps buffer max_morsel step (length workers) threads at_start m.0
          (ground (arith, few, size)) known (refl, empty) in
      let done = >>=-of_some _ filled run in
      let bound =
        find_k_nearest_state-pruned dist_func prune s k query cached_vectors pages buffer
          n_pages_to_probe step threads workers n_pruned st done filled small in
      (
        st,
        done,
        subst
            (λ l. st.n_pruned ≤ n_pruned + (if n_pages_to_probe == 0 then l else n_pages_to_probe))
            size bound,
      )
