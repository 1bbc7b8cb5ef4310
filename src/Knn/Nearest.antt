-- ===== src/Knn/Nearest.antt =====
-- What a heap of a search holds of the candidates that the search has passed.
use spheres_benchmark.Prelude.{
  ℕ, ◌≤◌, ◌<◌, ◌≡◌, refl, ◌≢◌, ◌∙◌, inl, inr, List, [], ◌∷◌, ◌++◌, arith, ltb, ◌==◌, Bool-cases,
  length, total, total-append, SameItems, All, All-append, All-map,
}
use spheres_benchmark.Tagged.{Tagged, push_heap, pop_heap, worst}
use spheres_benchmark.Tagged.Order.{
  Descending, total-push_heap, length-push_heap, push_heap-Descending, worst-push_heap,
}
use spheres_benchmark.Knn.{offer}

-- `heap` holds k of the items of `seen`, or all of them if those are fewer, each as often as it was
-- seen, and none of the others is nearer than any of these.
pub record Nearest (k : ℕ) (seen heap : List Tagged) : Type 0 where
  pub rest : List Tagged
  pub same : SameItems (heap ++ rest) seen
  pub size : length heap ≤ k
  pub full : rest ≢ [] → length heap ≡ k
  pub bound : All (λ (r : Tagged). worst heap ≤ r.0) rest
  pub order : Descending heap

pub Nearest-nil : (k : ℕ) → Nearest k [] []
Nearest-nil k = record {
  rest = [];
  same = λ f. refl;
  size = omega arith;
  full = λ h. absurd (h refl);
  bound = tt;
  order = tt;
}

module _ (k : ℕ) (seen heap : List Tagged) (n : Nearest k seen heap) where
  none_left : length heap < k → n.rest ≡ []
  none_left h = elim-rest n.rest refl
    where
      elim-rest : (r : List Tagged) → n.rest ≡ r → n.rest ≡ []
      elim-rest [] e = e
      elim-rest (x ∷ r) e = absurd (omega (arith, n.full (λ e'. cc)))

  pub Nearest-push : (c : Tagged) → length heap < k → Nearest k (c ∷ seen) (push_heap c heap)
  Nearest-push c h = record {
    rest = [];
    same = λ f. omega (
      arith,
      total-append f (push_heap c heap) [],
      total-push_heap f c heap,
      n.same f,
      total-append f heap n.rest,
      gone f,
    );
    size = omega (arith, length-push_heap c heap);
    full = λ e. absurd (e refl);
    bound = tt;
    order = push_heap-Descending c heap n.order;
  }
    where
      gone : (f : Tagged → ℕ) → total f n.rest ≡ 0
      gone f = rw (none_left h)

  -- Candidates that are no nearer than the worst item of a full heap change nothing.
  pub Nearest-skip :
      (cs : List Tagged)
      → length heap ≡ k
      → All (λ (c : Tagged). worst heap ≤ c.0) cs
      → Nearest k (cs ++ seen) heap
  Nearest-skip cs h far = record {
    rest = cs ++ n.rest;
    same = λ f. omega (
      arith,
      total-append f heap (cs ++ n.rest),
      total-append f cs n.rest,
      total-append f cs seen,
      n.same f,
      total-append f heap n.rest,
    );
    size = n.size;
    full = λ _. h;
    bound = All-append _ cs n.rest far n.bound;
    order = n.order;
  }

worst-tail : (x : Tagged) (h : List Tagged) → Descending (x ∷ h) → worst h ≤ x.0
worst-tail x [] d = omega arith
worst-tail x (y ∷ h) d = d.0.0

-- A nearer candidate takes the place of the worst item of a full heap.
pub Nearest-replace :
    (k : ℕ) (seen heap : List Tagged)
    → Nearest k seen heap
    → (c : Tagged) → length heap ≡ k
    → c.0 < worst heap
    → Nearest k (c ∷ seen) (push_heap c (pop_heap heap))
unfolding pop_heap
Nearest-replace k seen [] n c h near = absurd (omega arith)
Nearest-replace k seen (x ∷ heap) n c h near = record {
  rest = x ∷ n.rest;
  same = λ f. omega (
    arith,
    total-append f (push_heap c heap) (x ∷ n.rest),
    total-push_heap f c heap,
    n.same f,
    total-append f heap n.rest,
  );
  size = omega (arith, length-push_heap c heap);
  full = λ _. omega (arith, length-push_heap c heap);
  bound = (below, All-map _ _ n.rest (λ r p. omega (arith, below)) n.bound);
  order = push_heap-Descending c heap n.order.1;
}
  where
    below : worst (push_heap c heap) ≤ x.0
    below = worst-push_heap x.0 c heap (omega arith) (worst-tail x heap n.order)

-- The heap stays right when a candidate is offered to it.
pub Nearest-offer :
    (k : ℕ) (seen heap : List Tagged) (c : Tagged)
    → Nearest k seen heap
    → Nearest k (c ∷ seen) (offer k c heap)
unfolding offer
Nearest-offer k seen heap c n = elim (Bool-cases (length heap == k)) [
  | inl e ↦ elim (Bool-cases (ltb c.0 (worst heap))) [
    | inl near ↦ rw (e, near) (Nearest-replace k seen heap n c (ground arith) (ground arith))
    | inr far ↦ rw (e, far) (Nearest-skip k seen heap n (c ∷ []) (ground arith) (ground arith, tt))
  ]
  | inr e ↦ rw e (Nearest-push k seen heap n c (ground (arith, n.size)))
]

-- The order in which the candidates were seen does not matter.
pub Nearest-seen :
    {k : ℕ} {seen heap : List Tagged} (seen' : List Tagged)
    → SameItems seen seen'
    → Nearest k seen heap
    → Nearest k seen' heap
Nearest-seen seen' e n = record {
  rest = n.rest;
  same = λ f. n.same f ∙ e f;
  size = n.size;
  full = n.full;
  bound = n.bound;
  order = n.order;
}
