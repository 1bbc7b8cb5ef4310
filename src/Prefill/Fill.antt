-- ===== src/Prefill/Fill.antt =====
-- Appending entries to one page.
use mathlib.Core.List.{map-append, append_assoc, append-nil}
use native.Mathlib.Nat.{mod-eq_of_lt}
use spheres_benchmark.Prelude.{
  ℕ, suc, ◌+◌, ◌≤◌, ◌<◌, ◌≡◌, refl, sym, ap, ◌∙◌, some, List, [], ◌∷◌, ◌++◌, map, arith, length,
  get_elem?, set, take, add_size, size_mod, All-get, take-set, set-get_elem?, length-append, All,
  Returns, >>=-of_some,
}
use spheres_benchmark.Storage.{Vector, Page, Storage, append_new_vector}
use spheres_benchmark.Storage.Slots.{HoldsSlots}
use spheres_benchmark.Storage.Pages.{
  SameShape-HoldsSlots, all_pages, IsValid, PageIsValid, SameShape, Wrote, Wrote-trans, appended,
  page-IsValid, append_new_vector-Wrote, get-Wrote,
}
use spheres_benchmark.Tagged.{Tagged}
use spheres_benchmark.Prefill.{Entry, append_listed}
use spheres_benchmark.Prefill.Picks.{IsPick, picks}

-- The page holds these entries, in order.
pub record PageHolds (p : Page) (es : List Entry) : Type 0 where
  pub count : p.n_vectors ≡ length es
  pub ids : take p.n_vectors p.ids ≡ map (λ e. e.0) es
  pub vectors : take p.n_vectors p.vectors ≡ map (λ e. e.1) es

appended-PageHolds :
    (max_num : ℕ) (p : Page) (es : List Entry) (e : Entry)
    → PageIsValid max_num p
    → p.n_vectors < max_num
    → max_num < size_mod
    → PageHolds p es
    → PageHolds (appended e.0 e.1 p) (es ++ e ∷ [])
appended-PageHolds max_num p es e v room small h =
    let next : add_size p.n_vectors 1 ≡ suc p.n_vectors =
      mod-eq_of_lt {n = p.n_vectors + 1} (omega arith) ∙ omega arith in
    record {
      count = omega (arith, next, length-append es (e ∷ []), h.count);
      ids =
          ap (λ n. take n (set p.ids p.n_vectors e.0)) next
          ∙ take-set p.n_vectors p.ids e.0 (omega (arith, v.id_slots))
          ∙ ap (λ t. t ++ e.0 ∷ []) h.ids
          ∙ sym (map-append _ es (e ∷ []));
      vectors =
          ap (λ n. take n (set p.vectors p.n_vectors e.1)) next
          ∙ take-set p.n_vectors p.vectors e.1 (omega (arith, v.vector_slots))
          ∙ ap (λ t. t ++ e.1 ∷ []) h.vectors
          ∙ sym (map-append _ es (e ∷ []));
    }

-- `t` is `s` with page `i` holding the entries.
pub record Filled (s : Storage) (i : ℕ) (es : List Entry) (t : Storage) : Type 0 where
  pub page : Page
  pub wrote : Wrote s i page t
  pub holds : PageHolds page es

pub SameShape-refl : (s : Storage) → SameShape s s
SameShape-refl s = record {
  n_files = refl;
  n_pages = refl;
  page_size = refl;
  file_size = refl;
  max_num = refl;
  dim = refl;
  element_size = refl;
  id_offset = refl;
  vector_offset = refl;
}

module _ (s : Storage) (i : ℕ) (v : IsValid s) (p : Page)
    (here : get_elem? (all_pages s) i ≡ some p) (es : List Entry) (holds : PageHolds p es) (dim : ℕ)
    (slots : HoldsSlots dim s) where
  pub append_new_vector-Filled :
      (e : Entry)
      → length es < s.max_num_vectors_per_page
      → length e.1 ≡ dim
      → Returns (Filled s i (es ++ e ∷ [])) (append_new_vector s e.0 e.1 i)
  append_new_vector-Filled e room size =
      let below : p.n_vectors < s.max_num_vectors_per_page = omega (arith, holds.count) in
      let (t, run, w) = append_new_vector-Wrote s e.0 e.1 i p v here below dim slots size in
      (
        t,
        run,
        record {
          page = appended e.0 e.1 p;
          wrote = w;
          holds =
              appended-PageHolds s.max_num_vectors_per_page p es e (page-IsValid s i p v here) below
                v.bounded holds;
        },
      )

module _ (s : Storage) (i : ℕ) (v : IsValid s) (p : Page)
    (here : get_elem? (all_pages s) i ≡ some p) (es : List Entry) (holds : PageHolds p es) where
  pub Filled-self : Filled s i es s
  Filled-self = record {
    page = p;
    wrote = record {
      shape = SameShape-refl s;
      valid = v;
      pages = sym (set-get_elem? (all_pages s) i p here);
    };
    holds = holds;
  }

-- The loop appends the entries that the heap lists, in its order, to a page with room for them.
pub append_listed-Filled :
    (dist_func : Vector → Vector → ℕ) (first : Entry) (rest : List Entry) (heap : List Tagged)
    (ok : All (IsPick dist_func first rest) heap) (s : Storage) (i : ℕ) (v : IsValid s) (p : Page)
    → get_elem? (all_pages s) i ≡ some p
    → (es : List Entry) → PageHolds p es
    → length es + length heap ≤ s.max_num_vectors_per_page
    → (dim : ℕ) → HoldsSlots dim s
    → All (λ (e : Entry). length e.1 ≡ dim) rest
    → Returns
        (Filled s i (es ++ picks dist_func first rest heap ok))
        (append_listed s i (first ∷ rest) heap)
unfolding append_listed picks
append_listed-Filled dist_func first rest [] ok s i v p here es holds room dim slots dims =
    (s, refl, rw append-nil (Filled-self s i v p here es holds))
append_listed-Filled dist_func first rest (c ∷ heap) ok s i v p here es holds room dim slots dims =
    let pick = ok.0 in
    let found : get_elem? (first ∷ rest) c.1 ≡ some pick.entry =
      ap (get_elem? (first ∷ rest)) pick.index ∙ pick.found in
    let (t, run, f) =
      append_new_vector-Filled s i v p here es holds dim slots pick.entry (omega (arith, room))
        (All-get _ rest pick.place dims pick.found) in
    let (u, run', g) =
      append_listed-Filled dist_func first rest heap ok.1 t i f.wrote.valid f.page
        (get-Wrote f.wrote here) (es ++ pick.entry ∷ []) f.holds
        (rw f.wrote.shape.max_num (omega (arith, room, length-append es (pick.entry ∷ [])))) dim
        (SameShape-HoldsSlots dim f.wrote.shape slots) dims in
    (
      u,
      >>=-of_some _ found (>>=-of_some _ run run'),
      record {
        page = g.page;
        wrote = Wrote-trans f.wrote g.wrote;
        holds = rw append_assoc at g.holds;
      },
    )
