-- ===== src/Parallel/Pruned.antt =====
-- The counter of pruned pages of a search.
use mathlib.Core.Path.{subst}
use spheres_benchmark.Prelude.{
  ℕ, zero, suc, ◌+◌, ◌-◌, ◌*◌, ◌≤◌, ◌<◌, ◌≡◌, sym, ap, ◌∙◌, inl, inr, Bool, true, false, Option,
  none, some, List, [], ◌∷◌, arith, length, get_elem?, min, leb, ◌==◌, if◌then◌else◌, Bool-cases,
  ◌>>=◌, >>=-eq-some, some_injective, add_size, size_mod,
}
use spheres_benchmark.Storage.{Vector, Storage, get_max_dist_at}
use spheres_benchmark.Tagged.{Tagged}
use spheres_benchmark.Knn.{probe_page}
use spheres_benchmark.Parallel.{
  Worker, in_buffer, Searching, visit_page, visit_pages, morsel_pages, search_turn, search_turns,
  find_k_nearest_state, anchor_distances, prune_by,
}

module _ (dist_func : Vector → Vector → ℕ) (prune_check_func : ℕ → ℕ → ℕ → Bool) (s : Storage)
    (k : ℕ) (query : Vector) where
  visit_page-count :
      (bound : Option ℕ) (page : Tagged) (found : List Tagged × ℕ) {r : List Tagged × ℕ}
      → visit_page dist_func prune_check_func s k query bound page found ≡ some r
      → r.1 ≤ suc found.1
  unfolding visit_page
  visit_page-count bound page found {r} h =
      let (max, e, h') = >>=-eq-some (get_max_dist_at s page.1) _ h in
      let (heap, e', h'') =
        >>=-eq-some
          (if prune_by prune_check_func page.0 max bound
            then some found.0
            else probe_page dist_func prune_check_func s k query page found.0)
          _ h' in
      one_more _ found.1 (ap (λ (q : List Tagged × ℕ). q.1) (some_injective h''))
    where
      one_more : (b : Bool) (n : ℕ) → (if b then n + 1 else n) ≡ r.1 → r.1 ≤ suc n
      one_more true n e = omega arith
      one_more false n e = omega arith

  visit_pages-count :
      (bound : Option ℕ) (pages : List Tagged) (found : List Tagged × ℕ) {r : List Tagged × ℕ}
      → visit_pages dist_func prune_check_func s k query bound pages found ≡ some r
      → r.1 ≤ found.1 + length pages
  unfolding visit_pages
  visit_pages-count bound [] found {r} h =
      let same : found.1 ≡ r.1 = ap (λ (q : List Tagged × ℕ). q.1) (some_injective h) in
      omega (arith, same)
  visit_pages-count bound (page ∷ pages) found h =
      let (found', e, h') =
        >>=-eq-some (visit_page dist_func prune_check_func s k query bound page found) _ h in
      omega (arith, visit_page-count bound page found e, visit_pages-count bound pages found' h')

  length-morsel_pages :
      (buffer : List Tagged) (n current : ℕ) {pages : List Tagged}
      → morsel_pages dist_func prune_check_func s k query buffer n current ≡ some pages
      → length pages ≡ n
  length-morsel_pages buffer zero current h = ap length (sym (some_injective h))
  length-morsel_pages buffer (suc n) current h =
      let (page, e, h') = >>=-eq-some (get_elem? buffer current) _ h in
      let (pages, e', h'') =
        >>=-eq-some (morsel_pages dist_func prune_check_func s k query buffer n (suc current)) _
          h' in
      ap length (sym (some_injective h'')) ∙ ap suc (length-morsel_pages buffer n (suc current) e')

  -- What has been counted since `before` is in the morsels that have been taken.
  abbrev IsCounted : ℕ → ℕ → Searching → Type 0
  IsCounted before max_morsel st = st.n_pruned ≤ before + min max_morsel st.next_morsel

  search_turn-IsCounted :
      (buffer : List Tagged) (before max_morsel step thread : ℕ) (st : Searching) {st' : Searching}
      → search_turn dist_func prune_check_func s k query buffer max_morsel step thread st ≡ some st'
      → st.next_morsel + step < size_mod
      → IsCounted before max_morsel st
      → IsCounted before max_morsel st' × (st'.next_morsel ≡ st.next_morsel + step)
  unfolding search_turn
  search_turn-IsCounted buffer before max_morsel step thread st {st'} h small counted =
      let next : add_size st.next_morsel step ≡ st.next_morsel + step = omega arith in
      elim (Bool-cases (leb max_morsel st.next_morsel)) [
        | inl over ↦
            subst
              (λ (t : Searching).
                IsCounted before max_morsel t × (t.next_morsel ≡ st.next_morsel + step))
              (some_injective (rw over at h)) (omega (arith, next), next)
        | inr more ↦
            let (w, e, h1) = >>=-eq-some (get_elem? st.workers thread) _ (rw more at h) in
            let (pages, e', h2) =
              >>=-eq-some
                (morsel_pages dist_func prune_check_func s k query buffer
                  (min max_morsel (add_size step st.next_morsel) - st.next_morsel) st.next_morsel)
                _ h1 in
            let (found, e'', h3) =
              >>=-eq-some
                (visit_pages dist_func prune_check_func s k query st.shared_data pages (w.heap, 0))
                _ h2 in
            let (heap, kept, h4) = >>=-eq-some (in_buffer w found.0) _ h3 in
            let size =
              length-morsel_pages buffer
                (min max_morsel (add_size step st.next_morsel) - st.next_morsel) st.next_morsel
                e' in
            let few = visit_pages-count st.shared_data pages (w.heap, 0) e'' in
            let other : add_size step st.next_morsel ≡ st.next_morsel + step = omega arith in
            subst
              (λ (t : Searching).
                IsCounted before max_morsel t × (t.next_morsel ≡ st.next_morsel + step))
              (some_injective h4) (ground (arith, next, other, size, few), next)
      ]

  search_turns-IsCounted :
      (buffer : List Tagged) (before max_morsel step : ℕ) (threads : List ℕ) (st : Searching)
      {st' : Searching}
      → search_turns dist_func prune_check_func s k query buffer max_morsel step threads st
        ≡ some st'
      → st.next_morsel + step * length threads < size_mod
      → IsCounted before max_morsel st
      → IsCounted before max_morsel st'
  unfolding search_turns
  search_turns-IsCounted buffer before max_morsel step [] st h small counted =
      subst (IsCounted before max_morsel) (some_injective h) counted
  search_turns-IsCounted buffer before max_morsel step (thread ∷ threads) st h small counted =
      let (st1, e, h') =
        >>=-eq-some
          (search_turn dist_func prune_check_func s k query buffer max_morsel step thread st) _ h in
      let total : step * suc (length threads) ≡ step * length threads + step = grind arith in
      let (counted', next) =
        search_turn-IsCounted buffer before max_morsel step thread st e
          (omega (arith, small, total)) counted in
      search_turns-IsCounted buffer before max_morsel step threads st1 h'
        (omega (arith, small, next, total)) counted'

  -- Of the pages that a search may probe, in whatever order the threads take their morsels, it adds each to
  -- the counter of pruned pages once at most; the counter of morsels does not wrap.
  pub find_k_nearest_state-pruned :
      (cached_vectors : List Vector) (cached_max_dists buffer : List Tagged)
      (n_pages_to_probe step : ℕ) (threads : List ℕ) (workers : List Worker) (n_pruned : ℕ)
      (st : Searching)
      → find_k_nearest_state dist_func prune_check_func s k query cached_vectors cached_max_dists
          n_pages_to_probe step threads workers n_pruned
        ≡ some st
      → anchor_distances dist_func query cached_vectors cached_max_dists (length workers)
        ≡ some buffer
      → step * length threads < size_mod
      → st.n_pruned ≤ n_pruned + (if n_pages_to_probe == 0 then length buffer else n_pages_to_probe)
  unfolding find_k_nearest_state
  find_k_nearest_state-pruned cached_vectors cached_max_dists buffer n_pages_to_probe step threads
        workers n_pruned st h at small =
      let max_morsel = if n_pages_to_probe == 0 then length buffer else n_pages_to_probe in
      let start : Searching = record {
        next_morsel = 0;
        n_pruned = n_pruned;
        shared_data = none;
        workers = workers;
      } in
      let counted =
        search_turns-IsCounted buffer n_pruned max_morsel step threads start {st' = st}
          (subst
            (λ m.
              (m >>= λ b.
              search_turns dist_func prune_check_func s k query b
                (if n_pages_to_probe == 0 then length b else n_pages_to_probe) step threads start)
              ≡ some st)
            at h)
          (omega (arith, small)) (omega arith) in
      omega (arith, counted)
