-- ===== src/Prefill/Complete.antt =====
-- All rounds of `batch_prefill_single_threaded`, and what they store.
use spheres_benchmark.Prelude.{
  ℕ, zero, suc, ◌+◌, ◌*◌, ◌-◌, ◌≤◌, ◌<◌, ◌≡◌, ◌≢◌, ◌⊎◌, refl, ap, ◌∙◌, inl, inr, ◌||◌, ◌==◌,
  Bool-cases, some, List, [], ◌∷◌, ◌++◌, map, arith, length, get_elem?, set, take, sub_size,
  size_mod, sub_size-one, length-append, get_elem?-append_right, set-append_right, All, SameItems,
  total, total-append, length-same, Returns, >>=-of_some,
}
use mathlib.Core.List.{append_assoc}
use spheres_benchmark.Storage.{Vector, Page, Storage}
use spheres_benchmark.Storage.Slots.{HoldsSlots}
use spheres_benchmark.Storage.Pages.{
  SameShape-HoldsSlots, all_pages, IsValid, SameShape, SameShape-trans,
}
use spheres_benchmark.Knn.Scan.{IsBall}
use spheres_benchmark.Tagged.{Tagged}
use spheres_benchmark.Prefill.{Entry, is_listed, erase_listed, prefill_pages}
use spheres_benchmark.Prefill.Choice.{indexed, find_nearest-Nearest}
use spheres_benchmark.Prefill.Picks.{
  chosen, chosen-IsPick, chosen_entries, chosen-SameItems, length-picks,
}
use spheres_benchmark.Prefill.Fill.{PageHolds, SameShape-refl}
use spheres_benchmark.Prefill.Ball.{HasDim, prefill_page-Stored}

abbrev pub zip : List ℕ → List Vector → List Entry
zip [] vs = []
zip (i ∷ ids) [] = []
zip (i ∷ ids) (v ∷ vs) = (i, v) ∷ zip ids vs

-- The ids and vectors that the page counts.
abbrev pub page_entries : Page → List Entry
page_entries p = zip (take p.n_vectors p.ids) (take p.n_vectors p.vectors)

abbrev pub stored_entries : List Page → List Entry
stored_entries [] = []
stored_entries (p ∷ ps) = page_entries p ++ stored_entries ps

-- The page has no vectors.
abbrev pub IsBlank : Page → Type 0
IsBlank p = p.n_vectors ≡ 0

zip-map : (es : List Entry) → zip (map (λ e. e.0) es) (map (λ e. e.1) es) ≡ es
zip-map [] = refl
zip-map (e ∷ es) = ap (◌∷◌ e) (zip-map es)

PageHolds-entries : (p : Page) (es : List Entry) → PageHolds p es → page_entries p ≡ es
PageHolds-entries p es h = rw (h.ids, h.vectors) (zip-map es)

pub blank_entries : (ps : List Page) → All IsBlank ps → stored_entries ps ≡ []
blank_entries [] h = refl
blank_entries (p ∷ ps) h = rw (h.0) (blank_entries ps h.1)

blank_balls :
    (dist_func : Vector → Vector → ℕ) (dim : ℕ) (ps : List Page)
    → All IsBlank ps
    → All (IsBall dist_func dim) ps
blank_balls dist_func dim [] h = tt
blank_balls dist_func dim (p ∷ ps) h =
    (λ anchor first. rw (h.0) tt, blank_balls dist_func dim ps h.1)

All-erase_listed {κ} :
    (P : Entry → Type κ) (i : ℕ) (heap : List Tagged) (es : List Entry)
    → All P es
    → All P (erase_listed i heap es)
unfolding erase_listed
All-erase_listed P i heap [] h = tt
All-erase_listed P i heap (e ∷ es) h = elim (Bool-cases (i == 0 || is_listed i heap)) [
  | inl gone ↦ rw gone (All-erase_listed P (suc i) heap es h.1)
  | inr kept ↦ rw kept (h.0, All-erase_listed P (suc i) heap es h.1)
]

length-indexed :
    (dist_func : Vector → Vector → ℕ) (anchor : Vector) (i : ℕ) (es : List Entry)
    → length (indexed dist_func anchor i es) ≡ length es
length-indexed dist_func anchor i [] = refl
length-indexed dist_func anchor i (e ∷ es) = ap suc (length-indexed dist_func anchor (suc i) es)

empty_or_not : (xs : List Tagged) → (length xs ≡ 0) ⊎ (xs ≢ [])
empty_or_not [] = inl refl
empty_or_not (x ∷ xs) = inr (λ e. cc)

module _ (dist_func : Vector → Vector → ℕ) (e : Entry) (rest : List Entry) (max_num : ℕ)
    (positive : 0 < max_num) (small : max_num < size_mod) where
  abbrev left : List Entry
  left = erase_listed 0 (chosen dist_func e rest (sub_size max_num 1)) (e ∷ rest)

  -- What a round leaves: nothing, or all but a full page.
  length-left : (length left ≤ length rest) × (length left ≤ suc (length rest) - max_num)
  length-left =
      let k = sub_size max_num 1 in
      let heap = chosen dist_func e rest k in
      let entries = chosen_entries dist_func e rest k in
      let n = find_nearest-Nearest dist_func e.1 k 1 rest in
      let split : length rest ≡ length heap + length left = omega (
        arith,
        length-same (e ∷ entries ++ left) (e ∷ rest) (chosen-SameItems dist_func e rest k),
        length-append entries left,
        length-picks dist_func e rest heap (chosen-IsPick dist_func e rest k),
      ) in
      let others : length rest ≡ length heap + length n.rest = omega (
        arith,
        length-same (heap ++ n.rest) (indexed dist_func e.1 1 rest) n.same,
        length-append heap n.rest,
        length-indexed dist_func e.1 1 rest,
      ) in
      (
        omega arith,
        elim (empty_or_not n.rest) [
          | inl none_left ↦ omega arith
          | inr more ↦ omega (arith, n.full more, sub_size-one max_num positive small)
        ],
      )

-- The page after those that are done, and a write to it.
page_here :
    (s : Storage) (i : ℕ) (done todo : List Page) (p : Page)
    → all_pages s ≡ done ++ p ∷ todo
    → i ≡ length done + 0
    → get_elem? (all_pages s) i ≡ some p
page_here s i done todo p split at = rw (split, at) (get_elem?-append_right done (p ∷ todo) 0)

page_written :
    (s : Storage) (i : ℕ) (done todo : List Page) (p q : Page) {ps : List Page}
    → all_pages s ≡ done ++ p ∷ todo
    → i ≡ length done + 0
    → ps ≡ set (all_pages s) i q
    → ps ≡ (done ++ q ∷ []) ++ todo
page_written s i done todo p q split at written =
    rw (written, split, at, append_assoc) (set-append_right done (p ∷ todo) 0 q)

module _ (dist_func : Vector → Vector → ℕ) (dim : ℕ)
    (symmetric : (u v : Vector) → dist_func u v ≡ dist_func v u)
    (zero_self : (u : Vector) → dist_func u u ≡ 0) (max_num : ℕ) (two : 2 ≤ max_num) where
  -- `t` has the pages `done`, and then balls that hold the entries.
  pub record Prefilled (s : Storage) (done : List Page) (entries : List Entry) (t : Storage)
      : Type 0 where
    pub valid : IsValid t
    pub shape : SameShape s t
    pub filled : List Page
    pub pages : all_pages t ≡ done ++ filled
    pub balls : All (IsBall dist_func dim) filled
    pub same : SameItems (stored_entries filled) entries

  pub prefill_pages-Prefilled :
      (fuel : ℕ) (s : Storage) (page_idx : ℕ) (done todo : List Page) (entries : List Entry)
      → IsValid s
      → max_num ≤ s.max_num_vectors_per_page
      → all_pages s ≡ done ++ todo
      → length done ≡ page_idx
      → All IsBlank todo
      → All (HasDim dist_func dim symmetric zero_self) entries
      → length entries < fuel
      → length entries ≤ length todo * max_num
      → HoldsSlots dim s
      → Returns (Prefilled s done entries) (prefill_pages dist_func fuel max_num s page_idx entries)
  unfolding prefill_pages
  prefill_pages-Prefilled zero s page_idx done todo entries v room split count blank dims enough
        fits slots =
      absurd (omega arith)
  prefill_pages-Prefilled (suc fuel) s page_idx done todo [] v room split count blank dims enough
        fits slots =
      (
        s,
        refl,
        record {
          valid = v;
          shape = SameShape-refl s;
          filled = todo;
          pages = split;
          balls = blank_balls dist_func dim todo blank;
          same = rw (blank_entries todo blank) (λ f. refl);
        },
      )
  prefill_pages-Prefilled (suc fuel) s page_idx done [] (e ∷ rest) v room split count blank dims
        enough fits slots =
      absurd (omega arith)
  prefill_pages-Prefilled (suc fuel) s page_idx done (p ∷ todo) (e ∷ rest) v room split count blank
        dims enough fits slots =
      let at : page_idx ≡ length done + 0 = omega (arith, count) in
      let here = page_here s page_idx done todo p split at in
      let (r, run, x) =
        prefill_page-Stored dist_func dim symmetric zero_self max_num s page_idx v p here blank.0
          room two e rest dims slots in
      let stored = x.0 in
      let page = stored.page in
      let w = stored.wrote in
      let left_eq = x.1 in
      let less = length-left dist_func e rest max_num (omega arith) (omega (arith, v.bounded)) in
      let (u, run', g) =
        prefill_pages-Prefilled fuel r.0 (suc page_idx) (done ++ page ∷ []) todo r.1 w.valid
          (rw w.shape.max_num room) (page_written s page_idx done todo p page split at w.pages)
          (omega (arith, count, length-append done (page ∷ []))) blank.1
          (rw left_eq (All-erase_listed _ 0 _ (e ∷ rest) dims)) (rw left_eq (omega (arith, less.0)))
          (rw left_eq (omega (arith, less.1))) (SameShape-HoldsSlots dim w.shape slots) in
      (
        u,
        >>=-of_some _ run run',
        record {
          valid = g.valid;
          shape = SameShape-trans w.shape g.shape;
          filled = page ∷ g.filled;
          pages = g.pages ∙ append_assoc done (page ∷ []) g.filled;
          balls = (stored.ball, g.balls);
          same = λ f. omega (
            arith,
            total-append f (page_entries page) (stored_entries g.filled),
            ap (total f) (
                PageHolds-entries page (e ∷ chosen_entries dist_func e rest (sub_size max_num 1))
                  stored.holds),
            g.same f,
            ap (total f) left_eq,
            total-append f (e ∷ chosen_entries dist_func e rest (sub_size max_num 1))
                (left dist_func e rest max_num (omega arith) (omega (arith, v.bounded))),
            chosen-SameItems dist_func e rest (sub_size max_num 1) f,
          );
        },
      )
