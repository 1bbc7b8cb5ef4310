-- ===== src/Tagged/Order.antt =====
-- What the heap and the sort keep.
use spheres_benchmark.Prelude.{
  ℕ, suc, ◌+◌, ◌≤◌, ◌≡◌, refl, inl, inr, List, [], ◌∷◌, arith, Bool-cases, length, total, SameItems,
  All, All-map,
}
use spheres_benchmark.Tagged.{Tagged, tagged_lt, push_heap, pop_heap, worst, insert_sorted, sort}

abbrev pub Descending : List Tagged → Type 0
Descending [] = Unit
Descending (x ∷ h) = All (λ (y : Tagged). y.0 ≤ x.0) h × Descending h

abbrev pub Ascending : List Tagged → Type 0
Ascending [] = Unit
Ascending (x ∷ h) = All (λ (y : Tagged). x.0 ≤ y.0) h × Ascending h

pub total-push_heap :
    (f : Tagged → ℕ) (x : Tagged) (h : List Tagged) → total f (push_heap x h) ≡ f x + total f h
unfolding push_heap
total-push_heap f x [] = refl
total-push_heap f x (y ∷ h) = ground (arith, total-push_heap f x h)

pub length-push_heap : (x : Tagged) (h : List Tagged) → length (push_heap x h) ≡ suc (length h)
unfolding push_heap
length-push_heap x [] = refl
length-push_heap x (y ∷ h) = ground (arith, length-push_heap x h)

pub All-push_heap {κ} :
    (P : Tagged → Type κ) (x : Tagged) (h : List Tagged) → P x → All P h → All P (push_heap x h)
unfolding push_heap
All-push_heap P x [] p q = (p, tt)
All-push_heap P x (y ∷ h) p q = elim (Bool-cases (tagged_lt y x)) [
  | inl e ↦ rw e (p, q)
  | inr e ↦ rw e (q.0, All-push_heap P x h p q.1)
]

pub push_heap-Descending :
    (x : Tagged) (h : List Tagged) → Descending h → Descending (push_heap x h)
unfolding push_heap
push_heap-Descending x [] d = (tt, tt)
push_heap-Descending x (y ∷ h) d = elim (Bool-cases (tagged_lt y x)) [
  | inl e ↦ rw e ((ground arith, All-map _ _ h (λ z p. ground arith) d.0), d)
  | inr e ↦ rw e (All-push_heap _ x h (ground arith) d.0, push_heap-Descending x h d.1)
]

pub worst-push_heap :
    (n : ℕ) (x : Tagged) (h : List Tagged) → x.0 ≤ n → worst h ≤ n → worst (push_heap x h) ≤ n
unfolding push_heap
worst-push_heap n x [] p q = p
worst-push_heap n x (y ∷ h) p q = ground arith

pub total-insert_sorted :
    (f : Tagged → ℕ) (x : Tagged) (xs : List Tagged)
    → total f (insert_sorted x xs) ≡ f x + total f xs
unfolding insert_sorted
total-insert_sorted f x [] = refl
total-insert_sorted f x (y ∷ xs) = ground (arith, total-insert_sorted f x xs)

pub sort-same : (xs : List Tagged) → SameItems (sort xs) xs
unfolding sort
sort-same [] f = refl
sort-same (x ∷ xs) f = omega (arith, total-insert_sorted f x (sort xs), sort-same xs f)

All-insert_sorted {κ} :
    (P : Tagged → Type κ) (x : Tagged) (xs : List Tagged)
    → P x
    → All P xs
    → All P (insert_sorted x xs)
unfolding insert_sorted
All-insert_sorted P x [] p q = (p, tt)
All-insert_sorted P x (y ∷ xs) p q = elim (Bool-cases (tagged_lt y x)) [
  | inl e ↦ rw e (q.0, All-insert_sorted P x xs p q.1)
  | inr e ↦ rw e (p, q)
]

pub insert_sorted-Ascending :
    (x : Tagged) (xs : List Tagged) → Ascending xs → Ascending (insert_sorted x xs)
unfolding insert_sorted
insert_sorted-Ascending x [] a = (tt, tt)
insert_sorted-Ascending x (y ∷ xs) a = elim (Bool-cases (tagged_lt y x)) [
  | inl e ↦ rw e (All-insert_sorted _ x xs (ground arith) a.0, insert_sorted-Ascending x xs a.1)
  | inr e ↦ rw e ((ground arith, All-map _ _ xs (λ z p. ground arith) a.0), a)
]

pub sort-Ascending : (xs : List Tagged) → Ascending (sort xs)
unfolding sort
sort-Ascending [] = tt
sort-Ascending (x ∷ xs) = insert_sorted-Ascending x (sort xs) (sort-Ascending xs)

pub All-sort {κ} : (P : Tagged → Type κ) (xs : List Tagged) → All P xs → All P (sort xs)
unfolding sort
All-sort P [] h = tt
All-sort P (x ∷ xs) h = All-insert_sorted P x (sort xs) h.0 (All-sort P xs h.1)

pub All-pop_heap {κ} : (P : Tagged → Type κ) (h : List Tagged) → All P h → All P (pop_heap h)
unfolding pop_heap
All-pop_heap P [] p = tt
All-pop_heap P (x ∷ h) p = p.1

-- The front of a descending list is its worst item.
pub Descending-worst : (h : List Tagged) → Descending h → All (λ (c : Tagged). c.0 ≤ worst h) h
Descending-worst [] d = tt
Descending-worst (x ∷ h) d = (omega arith, d.0)
