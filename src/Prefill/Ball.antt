-- ===== src/Prefill/Ball.antt =====
-- One round of the prefill, and the distances in its page.
use spheres_benchmark.Prelude.{
  ℕ, ◌+◌, ◌≤◌, ◌≡◌, refl, ap, some, List, [], ◌∷◌, map, arith, length, get_elem?, take, sub_size,
  sub_size-one, take-first, All, Returns, >>=-of_some,
}
use spheres_benchmark.Storage.{Vector, Page, Storage}
use spheres_benchmark.Storage.Slots.{HoldsSlots}
use spheres_benchmark.Storage.Pages.{
  SameShape-HoldsSlots, all_pages, IsValid, Wrote, Wrote-trans, update_in_page_max_dist-Wrote,
  get-Wrote,
}
use spheres_benchmark.Tagged.{Tagged, worst}
use spheres_benchmark.Knn.Scan.{IsBall, IsWithin}
use spheres_benchmark.Prefill.{Entry, erase_listed, prefill_page}
use spheres_benchmark.Prefill.Choice.{find_nearest-Nearest}
use spheres_benchmark.Prefill.Picks.{
  chosen, chosen-IsPick, chosen_entries, chosen_within, picks-All,
}
use spheres_benchmark.Prefill.Fill.{PageHolds, append_new_vector-Filled, append_listed-Filled}

module _ (dist_func : Vector → Vector → ℕ) (dim : ℕ)
    (symmetric : (u v : Vector) → dist_func u v ≡ dist_func v u)
    (zero_self : (u : Vector) → dist_func u u ≡ 0) where
  abbrev pub HasDim : Entry → Type 0
  HasDim e = length e.1 ≡ dim

  IsWithin-rows :
      (anchor : Vector) (m : ℕ) (es : List Entry)
      → All HasDim es
      → All (λ (e : Entry). dist_func anchor e.1 ≤ m) es
      → All (IsWithin dist_func dim anchor m) (map (λ (e : Entry). e.1) es)
  IsWithin-rows anchor m [] dims near = tt
  IsWithin-rows anchor m (e ∷ es) dims near =
      ((dims.0, rw (symmetric e.1 anchor) near.0), IsWithin-rows anchor m es dims.1 near.1)

  -- A page that holds an entry and others within the stored maximum of it is a ball.
  holds-IsBall :
      (p : Page) (e : Entry) (es : List Entry)
      → PageHolds p (e ∷ es)
      → All HasDim (e ∷ es)
      → All (λ (x : Entry). dist_func e.1 x.1 ≤ p.max_dist) es
      → IsBall dist_func dim p
  holds-IsBall p e es h dims near anchor first =
      let same : anchor ≡ e.1 = cc (first, take-first p.n_vectors p.vectors h.vectors) in
      rw (same, h.vectors)
        ((dims.0, rw (zero_self e.1) (omega arith)), IsWithin-rows e.1 p.max_dist es dims.1 near)

  -- Page `i` of `t` is a ball that holds the entries.
  pub record Stored (s : Storage) (i : ℕ) (es : List Entry) (t : Storage) : Type 0 where
    pub page : Page
    pub wrote : Wrote s i page t
    pub holds : PageHolds page es
    pub ball : IsBall dist_func dim page

  module _ (max_num : ℕ) (s : Storage) (i : ℕ) (v : IsValid s) (p : Page)
      (here : get_elem? (all_pages s) i ≡ some p) (blank : p.n_vectors ≡ 0)
      (room : max_num ≤ s.max_num_vectors_per_page) (two : 2 ≤ max_num) (e : Entry)
      (rest : List Entry) (dims : All HasDim (e ∷ rest)) (slots : HoldsSlots dim s) where
    abbrev pub near_first : List Tagged
    near_first = chosen dist_func e rest (sub_size max_num 1)

    abbrev pub in_page : List Entry
    in_page = e ∷ chosen_entries dist_func e rest (sub_size max_num 1)

    near_first-room : 1 + length near_first ≤ s.max_num_vectors_per_page
    near_first-room =
        let n = find_nearest-Nearest dist_func e.1 (sub_size max_num 1) 1 rest in
        omega
          (arith, n.size, sub_size-one max_num (omega arith) (omega (arith, v.bounded)), v.bounded)

    pub prefill_page-Stored :
        Returns
          (λ (r : Storage × List Entry).
            Stored s i in_page r.0 × (r.1 ≡ erase_listed 0 near_first (e ∷ rest)))
          (prefill_page dist_func max_num s i e rest)
    unfolding prefill_page
    prefill_page-Stored =
        let blank_holds : PageHolds p [] = record {
          count = blank;
          ids = ap (λ n. take n p.ids) blank;
          vectors = ap (λ n. take n p.vectors) blank;
        } in
        let (t, run, f) =
          append_new_vector-Filled s i v p here [] blank_holds dim slots e (omega arith) dims.0 in
        let at = get-Wrote f.wrote here in
        let picked = chosen-IsPick dist_func e rest (sub_size max_num 1) in
        let (u, run', g) =
          append_listed-Filled dist_func e rest near_first picked t i f.wrote.valid f.page at
            (e ∷ []) f.holds (rw f.wrote.shape.max_num near_first-room) dim
            (SameShape-HoldsSlots dim f.wrote.shape slots) dims.1 in
        let both = Wrote-trans f.wrote g.wrote in
        let (w, run'', x) =
          update_in_page_max_dist-Wrote u i g.page g.wrote.valid (get-Wrote both here)
            (worst near_first) in
        (
          (w, erase_listed 0 near_first (e ∷ rest)),
          >>=-of_some _ run (>>=-of_some _ run' (>>=-of_some _ run'' refl)),
          (
            record {
              page = record g.page { max_dist = worst near_first };
              wrote = Wrote-trans both x;
              holds = record {
                count = g.holds.count;
                ids = g.holds.ids;
                vectors = g.holds.vectors;
              };
              ball =
                  holds-IsBall (record g.page { max_dist = worst near_first }) e
                    (chosen_entries dist_func e rest (sub_size max_num 1))
                    (record { count = g.holds.count; ids = g.holds.ids; vectors = g.holds.vectors })
                    (dims.0, picks-All dist_func e rest HasDim near_first picked dims.1)
                    (chosen_within dist_func e rest (sub_size max_num 1));
            },
            refl,
          ),
        )
