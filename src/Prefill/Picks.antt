-- ===== src/Prefill/Picks.antt =====
-- The entries that the heap of a page lists.
use spheres_benchmark.Prelude.{
  ℕ, suc, ◌+◌, ◌≤◌, ◌≡◌, refl, sym, ap, inl, inr, some, List, [], ◌∷◌, ◌++◌, arith, ltb, ◌==◌,
  if◌then◌else◌, Bool-cases, length, get_elem?, Behind, Behind-head, Behind-tail, total,
  total-append, SameItems, All, All-get,
}
use native.Mathlib.Nat.{zero-add}
use spheres_benchmark.Storage.{Vector}
use spheres_benchmark.Tagged.{Tagged, pop_heap, worst}
use spheres_benchmark.Tagged.Order.{All-push_heap, All-pop_heap, Descending-worst}
use spheres_benchmark.Prefill.{Entry, offer_nearest, erase_listed, find_nearest}
use spheres_benchmark.Prefill.Choice.{
  find_nearest-Nearest, occurrences, occurrences-indexed, listed_total, listed_total-nil,
  listed_total-cons, erase_listed-total,
}

module _ (dist_func : Vector → Vector → ℕ) (first : Entry) (rest : List Entry) where
  -- An item of the heap has the index and the distance of one of the other entries.
  pub record IsPick (c : Tagged) : Type 0 where
    pub entry : Entry
    pub place : ℕ
    pub index : c.1 ≡ suc place
    pub found : get_elem? rest place ≡ some entry
    pub dist : c.0 ≡ dist_func first.1 entry.1

  All-offer_nearest :
      (k : ℕ) (c : Tagged) (heap : List Tagged)
      → IsPick c
      → All IsPick heap
      → All IsPick (offer_nearest k c heap)
  unfolding offer_nearest
  All-offer_nearest k c heap p h = elim (Bool-cases (ltb (length heap) k)) [
    | inl room ↦ rw room (All-push_heap IsPick c heap p h)
    | inr no_room ↦ elim (Bool-cases (ltb c.0 (worst heap))) [
      | inl near ↦
          rw (no_room, near) (All-push_heap IsPick c (pop_heap heap) p (All-pop_heap IsPick heap h))
      | inr far ↦ rw (no_room, far) h
    ]
  ]

  find_nearest-IsPick :
      (k d : ℕ) (entries : List Entry) (heap : List Tagged)
      → Behind rest d entries
      → All IsPick heap
      → All IsPick (find_nearest dist_func k first.1 (suc d) entries heap)
  unfolding find_nearest
  find_nearest-IsPick k d [] heap at h = h
  find_nearest-IsPick k d (e ∷ entries) heap at h =
      find_nearest-IsPick k (suc d) entries _ (Behind-tail rest d e entries at) (
        All-offer_nearest k _ heap
          (record {
            entry = e;
            place = d;
            index = refl;
            found = Behind-head rest d e entries at;
            dist = refl;
          })
          h)

  unfoldable pub picks : (heap : List Tagged) → All IsPick heap → List Entry
  picks [] h = []
  picks (c ∷ heap) h = h.0.entry ∷ picks heap h.1

  picks-total :
      (f : Entry → ℕ) (heap : List Tagged) (h : All IsPick heap)
      → total f (picks heap h) ≡ listed_total f heap 1 rest
  unfolding picks
  picks-total f [] h = sym (listed_total-nil f 1 rest)
  picks-total f (c ∷ heap) h =
      let p = h.0 in
      let index : c.1 ≡ 1 + p.place = omega (arith, p.index) in
      omega (arith, picks-total f heap h.1, listed_total-cons f c heap 1 p.place rest index p.found)

  pub length-picks :
      (heap : List Tagged) (h : All IsPick heap) → length (picks heap h) ≡ length heap
  unfolding picks
  length-picks [] h = refl
  length-picks (c ∷ heap) h = ap suc (length-picks heap h.1)

  pub picks-All {κ} :
      (P : Entry → Type κ) (heap : List Tagged) (h : All IsPick heap)
      → All P rest
      → All P (picks heap h)
  unfolding picks
  picks-All P [] h ok = tt
  picks-All P (c ∷ heap) h ok = (All-get P rest h.0.place ok h.0.found, picks-All P heap h.1 ok)

  picks-near :
      (w : ℕ) (heap : List Tagged) (h : All IsPick heap)
      → All (λ (c : Tagged). c.0 ≤ w) heap
      → All (λ (e : Entry). dist_func first.1 e.1 ≤ w) (picks heap h)
  unfolding picks
  picks-near w [] h near = tt
  picks-near w (c ∷ heap) h near = (rw (← h.0.dist) near.0, picks-near w heap h.1 near.1)

  module _ (k : ℕ) where
    abbrev pub chosen : List Tagged
    chosen = find_nearest dist_func k first.1 1 rest []

    pub chosen-IsPick : All IsPick chosen
    chosen-IsPick = find_nearest-IsPick k 0 rest [] (λ j. ap (get_elem? rest) (zero-add j)) tt

    abbrev pub chosen_entries : List Entry
    chosen_entries = picks chosen chosen-IsPick

    chosen_once : (j : ℕ) → occurrences j chosen ≤ 1
    chosen_once j =
        let n = find_nearest-Nearest dist_func first.1 k 1 rest in
        omega (
          arith,
          n.same (λ c. if j == c.1 then 1 else 0),
          total-append (λ (c : Tagged). if j == c.1 then 1 else 0) chosen n.rest,
          occurrences-indexed dist_func first.1 j 1 rest,
        )

    -- The entries of the page and those that are left are the entries that there were.
    pub chosen-SameItems :
        SameItems (first ∷ chosen_entries ++ erase_listed 0 chosen (first ∷ rest)) (first ∷ rest)
    unfolding erase_listed
    chosen-SameItems f = omega (
      arith,
      total-append f (first ∷ chosen_entries) (erase_listed 1 chosen rest),
      picks-total f chosen chosen-IsPick,
      erase_listed-total f chosen 1 rest chosen_once (omega arith),
    )

    -- The chosen vectors are within the distance that becomes the maximum of the page.
    pub chosen_within : All (λ (e : Entry). dist_func first.1 e.1 ≤ worst chosen) chosen_entries
    chosen_within =
        let n = find_nearest-Nearest dist_func first.1 k 1 rest in
        picks-near (worst chosen) chosen chosen-IsPick (Descending-worst chosen n.order)
