-- ===== src/Threads/Weights.antt =====
-- How many steps are before the workers and the owner of the pool.
use mathlib.Core.Path.{subst}
use spheres_benchmark.Prelude.{
  ℕ, zero, suc, ◌+◌, ◌-◌, ◌*◌, ◌<◌, ◌≤◌, ◌≡◌, ◌≢◌, refl, ap, inl, inr, true, false, List, arith,
  ◌==◌, if◌then◌else◌, Bool-cases, add_size,
}
use spheres_benchmark.Threads.{
  ParallelTask, is_exit, Place, waiting, woken, exited, working, SpheresWorker, Owner, outside,
  deleted, clearing, joining, ThreadPool, update, cleared, awake, finished, Step, submit, close,
  clear, publish, join, leave, delete, wake, begin, finish,
}
use spheres_benchmark.Threads.Runs.{is_asleep, is_awake, is_working, is_done, Fits, Inv}

sum_to : ℕ → (ℕ → ℕ) → ℕ
sum_to zero f = 0
sum_to (suc n) f = f n + sum_to n f

sum_to-le : (n b : ℕ) (f : ℕ → ℕ) → ((i : ℕ) → i < n → f i ≤ b) → sum_to n f ≤ n * b
unfolding sum_to
sum_to-le zero b f h = omega arith
sum_to-le (suc n) b f h =
    let rest = sum_to-le n b f (λ i lt. h i (omega arith)) in
    let here = h n (omega arith) in
    let product : suc n * b ≡ n * b + b = grind arith in omega (arith, rest, here, product)

sum_to-same : (n : ℕ) (f g : ℕ → ℕ) → ((i : ℕ) → i < n → f i ≡ g i) → sum_to n f ≡ sum_to n g
unfolding sum_to
sum_to-same zero f g h = refl
sum_to-same (suc n) f g h =
    omega (arith, h n (omega arith), sum_to-same n f g (λ i lt. h i (omega arith)))

-- One of the numbers becomes less, the others stay.
sum_to-less :
    (n k : ℕ) (f g : ℕ → ℕ)
    → k < n
    → f k < g k
    → ((i : ℕ) → (i == k) ≡ false → f i ≡ g i)
    → sum_to n f < sum_to n g
unfolding sum_to
sum_to-less zero k f g lt less same = absurd (omega arith)
sum_to-less (suc n) k f g lt less same = elim (Bool-cases (n == k)) [
  | inl e ↦
      let here : k ≡ n = ground arith in
      let less' = subst (λ j. f j < g j) here less in
      omega (arith, less', sum_to-same n f g (λ i small. same i (ground (arith, here))))
  | inr e ↦ omega (arith, same n e, sum_to-less n k f g (ground arith) less same)
]

-- How many steps a worker has before it.
weight : ℕ → ℕ → Place → ℕ
weight id task_id waiting = if task_id == id then 0 else 3
weight id task_id woken = 2
weight id task_id (working task) = 1
weight id task_id exited = 0

weight-le : (id task_id : ℕ) (p : Place) → weight id task_id p ≤ 3
unfolding weight
weight-le id task_id waiting = ground arith
weight-le id task_id woken = omega arith
weight-le id task_id (working task) = omega arith
weight-le id task_id exited = omega arith

owner_weight : ℕ → Owner → ℕ
owner_weight n outside = 0
owner_weight n deleted = 0
owner_weight n (clearing j) = (n - j) + (n * 3 + (n + 2))
owner_weight n (joining j) = (n - j) + 1

abbrev worker_weight : ℕ → SpheresWorker → ℕ
worker_weight id w = weight id w.task_id w.place

pub measure : ℕ → ThreadPool → ℕ
measure n s = owner_weight n s.owner + sum_to n (λ i. worker_weight s.global_task_id (s.workers i))

update-weights :
    (id n k : ℕ) (workers : ℕ → SpheresWorker) (w : SpheresWorker)
    → k < n
    → worker_weight id w < worker_weight id (workers k)
    → sum_to n (λ i. worker_weight id (update workers k w i))
      < sum_to n (λ i. worker_weight id (workers i))
update-weights id n k workers w lt less =
    let self : (k == k) ≡ true = ground arith in
    sum_to-less n k (λ i. worker_weight id (update workers k w i))
      (λ i. worker_weight id (workers i)) lt (rw self less) (λ i other. rw other refl)

cleared-weights :
    (id n k : ℕ) (workers : ℕ → SpheresWorker)
    → sum_to n (λ i. worker_weight id (update workers k (cleared (workers k)) i))
      ≡ sum_to n (λ i. worker_weight id (workers i))
cleared-weights id n k workers = sum_to-same n _ _ λ i lt. elim (Bool-cases (i == k)) [
  | inl e ↦ let here : k ≡ i = ground arith in rw e (ap (λ j. worker_weight id (workers j)) here)
  | inr e ↦ rw e refl
]

-- A worker that is at its task has seen the counter.
working-Fits :
    (id : ℕ) (task : ParallelTask) (submitted : List ParallelTask) (m : Owner) (i : ℕ)
    (w : SpheresWorker) (t : ParallelTask)
    → w.place ≡ working t
    → Fits id task submitted m i w
    → w.task_id ≡ id
working-Fits id task submitted outside i w t at (e, _) = e
working-Fits id task submitted (clearing j) i w t at (e, _) = e
working-Fits id task submitted deleted i w t at (done, place, r) = cc
working-Fits id task submitted (joining j) i w t at
      (ran, new, is_asleep e (done, place, r), before) =
    cc
working-Fits id task submitted (joining j) i w t at (ran, new, is_awake e _, before) = e
working-Fits id task submitted (joining j) i w t at (ran, new, is_working e _, before) = e
working-Fits id task submitted (joining j) i w t at (ran, new, is_done e _, before) = e

finished-weight :
    (id : ℕ) (task : ParallelTask) (w : SpheresWorker)
    → w.task_id ≡ id
    → worker_weight id (finished task w) ≡ 0
unfolding weight
finished-weight id task w e = elim (Bool-cases (is_exit task)) [
  | inl h ↦ rw h refl
  | inr h ↦ let same : (w.task_id == id) ≡ true = ground (arith, e) in rw (h, same) refl
]

awake_less :
    (id : ℕ) (w : SpheresWorker)
    → w.place ≡ waiting
    → w.task_id ≢ id
    → worker_weight id (awake w) < worker_weight id w
unfolding weight
awake_less id w at other =
    let differ : (w.task_id == id) ≡ false = ground (arith, other) in rw (at, differ) (omega arith)

begin_less :
    (id : ℕ) (w : SpheresWorker) (t : ParallelTask)
    → w.place ≡ woken
    → worker_weight id (record w { place = working t }) < worker_weight id w
unfolding weight
begin_less id w t at = rw at (omega arith)

finished_less :
    (id : ℕ) (w : SpheresWorker) (task : ParallelTask)
    → w.place ≡ working task
    → w.task_id ≡ id
    → worker_weight id (finished task w) < worker_weight id w
unfolding weight
finished_less id w task at e = omega (arith, finished-weight id task w e, one)
  where
    one : worker_weight id w ≡ 1
    one = rw at refl

module _ (TaskEnds : ℕ → ParallelTask → Type 0) (n : ℕ) where
  -- Where the owner is not at rest, each step leaves fewer steps.
  pub Step-less :
      {s t : ThreadPool}
      → Step TaskEnds n s t
      → s.owner ≢ outside
      → Inv n s
      → measure n t < measure n s
  unfolding measure owner_weight
  Step-less (submit task at other) busy inv = absurd (busy at)
  Step-less (close at) busy inv = absurd (busy at)
  Step-less {s} (clear j at lt) busy inv =
      rw at (omega (arith, lt, cleared-weights s.global_task_id n j s.workers))
  Step-less {s} (publish at) busy inv =
      let few =
        sum_to-le n 3 (λ i. worker_weight (add_size s.global_task_id 1) (s.workers i))
          (λ i lt.
            weight-le (add_size s.global_task_id 1) (s.workers i).task_id (s.workers i).place) in
      rw at (omega (arith, few))
  Step-less {s} (join j at lt done) busy inv = rw at (omega (arith, lt))
  Step-less {s} (leave at other) busy inv = rw at (omega arith)
  Step-less {s} (delete at last) busy inv = rw at (omega arith)
  Step-less {s} (wake k lt at other) busy inv =
      let less = awake_less s.global_task_id (s.workers k) at other in
      omega (arith, update-weights s.global_task_id n k s.workers (awake (s.workers k)) lt less)
  Step-less {s} (begin k lt at) busy inv =
      let w = record (s.workers k) { place = working s.task } in
      let less = begin_less s.global_task_id (s.workers k) s.task at in
      omega (arith, update-weights s.global_task_id n k s.workers w lt less)
  Step-less {s} (finish k task lt at done) busy inv =
      let less = finished_less s.global_task_id (s.workers k) task at (
        working-Fits s.global_task_id s.task s.submitted s.owner k (s.workers k) task at
          (inv k lt)) in
      omega
        (arith, update-weights s.global_task_id n k s.workers (finished task (s.workers k)) lt less)
