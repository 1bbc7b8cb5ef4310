-- ===== src/Tagged.antt =====
-- `IdTaggedDistance`, and the standard algorithms that the program runs on ranges of them.
use spheres_benchmark.Prelude.{
  ℕ, suc, ◌<◌, Bool, ◌&&◌, ◌||◌, List, [], ◌∷◌, ltb, ◌==◌, if◌then◌else◌,
}
pub mod Order

-- `std::pair` of a distance and an id, or a page index.
abbrev pub Tagged : Type 0
Tagged = ℕ × ℕ

-- The order of `std::pair`.
abbrev pub tagged_lt : Tagged → Tagged → Bool
tagged_lt a b = ltb a.0 b.0 || (a.0 == b.0 && ltb a.1 b.1)

-- `*end++ = x; std::ranges::push_heap(begin, end)`. Of the layouts that the standard allows, with
-- the greatest item in front, a heap is kept in the one that descends.
unfoldable pub push_heap : Tagged → List Tagged → List Tagged
push_heap x [] = x ∷ []
push_heap x (y ∷ h) = if tagged_lt y x then x ∷ y ∷ h else y ∷ push_heap x h

-- `std::ranges::pop_heap(begin, end)`, less the item that it moves to the last place.
unfoldable pub pop_heap : List Tagged → List Tagged
pop_heap [] = []
pop_heap (x ∷ h) = h

-- `heap[0].first`. Only with k = 0 is it read of an empty heap.
abbrev pub worst : List Tagged → ℕ
worst [] = 0
worst (x ∷ h) = x.0

unfoldable pub insert_sorted : Tagged → List Tagged → List Tagged
insert_sorted x [] = x ∷ []
insert_sorted x (y ∷ xs) = if tagged_lt y x then y ∷ insert_sorted x xs else x ∷ y ∷ xs

-- `std::ranges::sort`
unfoldable pub sort : List Tagged → List Tagged
unfolding insert_sorted
sort [] = []
sort (x ∷ xs) = insert_sorted x (sort xs)
