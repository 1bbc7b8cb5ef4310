-- ===== src/Threads/Runs.antt =====
-- The invariant of the protocol of the pool in modules/execution/execution.cppm, and what the
-- workers have done.
use mathlib.Core.Path.{subst}
use spheres_benchmark.Prelude.{
  ℕ, suc, ◌<◌, ◌≡◌, ◌≢◌, refl, sym, ap, ◌∙◌, inl, inr, Bool, true, false, List, ◌∷◌, arith, leb,
  ◌==◌, Bool-cases, add_size,
}
use spheres_benchmark.Threads.{
  ParallelTask, is_exit, Place, waiting, woken, exited, working, SpheresWorker, Owner, outside,
  deleted, clearing, joining, ThreadPool, new_pool, update, awake, rest_of, finished, Step, submit,
  close, clear, publish, join, leave, delete, wake, begin, finish, Reach, start, next,
}

-- A worker with its flag set or not, at a place, having done some tasks.
abbrev pub IsAt : Bool → Place → List ParallelTask → SpheresWorker → Type 0
IsAt done place ran w = (w.job_done ≡ done) × (w.place ≡ place) × (w.ran ≡ ran)

-- While the owner waits for the flags, with the counter at `id`: a worker has still to see the task, has seen
-- the counter, is at the task, or has done it.
pub data IsBusy (id : ℕ) (task : ParallelTask) (ran : List ParallelTask) (w : SpheresWorker)
    : Type 0 where
  is_asleep : add_size w.task_id 1 ≡ id → IsAt false waiting ran w → IsBusy id task ran w
  is_awake : w.task_id ≡ id → IsAt false woken ran w → IsBusy id task ran w
  is_working : w.task_id ≡ id → IsAt false (working task) ran w → IsBusy id task ran w
  is_done : w.task_id ≡ id → IsAt true (rest_of task) (task ∷ ran) w → IsBusy id task ran w

-- How the worker `i` stands to where the owner stands.
abbrev pub Fits : ℕ → ParallelTask → List ParallelTask → Owner → ℕ → SpheresWorker → Type 0
Fits id task submitted outside i w = (w.task_id ≡ id) × IsAt true waiting submitted w
Fits id task submitted (clearing j) i w = (w.task_id ≡ id) × IsAt (leb j i) waiting submitted w
Fits id task submitted (joining j) i w =
    (ran : List ParallelTask) × (submitted ≡ task ∷ ran)
    × IsBusy id task ran w
    × (i < j → w.job_done ≡ true)
Fits id task submitted deleted i w = IsAt true exited submitted w

abbrev pub Inv : ℕ → ThreadPool → Type 0
Inv n s = (i : ℕ) → i < n → Fits s.global_task_id s.task s.submitted s.owner i (s.workers i)

-- A worker moves, and the others do not.
update-all {ℓ} :
    (P : ℕ → SpheresWorker → Type ℓ) (workers : ℕ → SpheresWorker) (n k : ℕ) (w : SpheresWorker)
    → ((i : ℕ) → i < n → P i (workers i))
    → P k w
    → (i : ℕ) → i < n
    → P i (update workers k w i)
update-all P workers n k w all new i h = elim (Bool-cases (i == k)) [
  | inl e ↦ let same : k ≡ i = ground arith in rw e (subst (λ j. P j w) same new)
  | inr e ↦ rw e (all i h)
]

rest_of-awake : (task : ParallelTask) → rest_of task ≢ woken
rest_of-awake task e = elim (Bool-cases (is_exit task)) [
  | inl h ↦ let other : exited ≡ woken = (rw h at e) in cc
  | inr h ↦ let other : waiting ≡ woken = (rw h at e) in cc
]

pub rest_of-working : (task t : ParallelTask) → rest_of task ≢ working t
rest_of-working task t e = elim (Bool-cases (is_exit task)) [
  | inl h ↦ let other : exited ≡ working t = (rw h at e) in cc
  | inr h ↦ let other : waiting ≡ working t = (rw h at e) in cc
]

working_injective : {t u : ParallelTask} → working t ≡ working u → t ≡ u
working_injective e = cc

module _ (id : ℕ) (task : ParallelTask) (submitted : List ParallelTask) where
  awake-Fits :
      (m : Owner) (i : ℕ) (w : SpheresWorker)
      → w.place ≡ waiting
      → w.task_id ≢ id
      → Fits id task submitted m i w
      → Fits id task submitted m i (awake w)
  awake-Fits outside i w at other (same, _) = absurd (other same)
  awake-Fits (clearing j) i w at other (same, _) = absurd (other same)
  awake-Fits deleted i w at other (done, place, ran) = cc
  awake-Fits (joining j) i w at other (ran, new, is_asleep e (done, place, r), before) =
      (ran, new, is_awake e (done, refl, r), λ h. cc (before h))
  awake-Fits (joining j) i w at other (ran, new, is_awake e _, before) = absurd (other e)
  awake-Fits (joining j) i w at other (ran, new, is_working e _, before) = absurd (other e)
  awake-Fits (joining j) i w at other (ran, new, is_done e _, before) = absurd (other e)

  begin-Fits :
      (m : Owner) (i : ℕ) (w : SpheresWorker)
      → w.place ≡ woken
      → Fits id task submitted m i w
      → Fits id task submitted m i (record w { place = working task })
  begin-Fits outside i w at (same, (done, place, ran)) = cc
  begin-Fits (clearing j) i w at (same, (done, place, ran)) = cc
  begin-Fits deleted i w at (done, place, ran) = cc
  begin-Fits (joining j) i w at (ran, new, is_asleep e (done, place, r), before) = cc
  begin-Fits (joining j) i w at (ran, new, is_awake e (done, place, r), before) =
      (ran, new, is_working e (done, refl, r), before)
  begin-Fits (joining j) i w at (ran, new, is_working e (done, place, r), before) = cc
  begin-Fits (joining j) i w at (ran, new, is_done e (done, place, r), before) =
      absurd (rest_of-awake task (sym place ∙ at))

  finished-Fits :
      (m : Owner) (i : ℕ) (w : SpheresWorker) (t : ParallelTask)
      → w.place ≡ working t
      → Fits id task submitted m i w
      → Fits id task submitted m i (finished t w)
  finished-Fits outside i w t at (same, (done, place, ran)) = cc
  finished-Fits (clearing j) i w t at (same, (done, place, ran)) = cc
  finished-Fits deleted i w t at (done, place, ran) = cc
  finished-Fits (joining j) i w t at (ran, new, is_asleep e (done, place, r), before) = cc
  finished-Fits (joining j) i w t at (ran, new, is_awake e (done, place, r), before) = cc
  finished-Fits (joining j) i w t at (ran, new, is_working e (done, place, r), before) =
      let same : t ≡ task = working_injective (sym at ∙ place) in
      (ran, new, is_done e (refl, ap rest_of same, cc), λ h. refl)
  finished-Fits (joining j) i w t at (ran, new, is_done e (done, place, r), before) =
      absurd (rest_of-working task t (sym place ∙ at))

Inv-new : (n : ℕ) → Inv n new_pool
unfolding new_pool
Inv-new n i h = (refl, (refl, refl, refl))

-- At the end of the waiting all workers have done the task.
done-IsAt :
    (id : ℕ) (task : ParallelTask) (ran : List ParallelTask) (w : SpheresWorker)
    → w.job_done ≡ true
    → IsBusy id task ran w
    → (w.task_id ≡ id) × IsAt true (rest_of task) (task ∷ ran) w
done-IsAt id task ran w h (is_asleep e (done, place, r)) = cc
done-IsAt id task ran w h (is_awake e (done, place, r)) = cc
done-IsAt id task ran w h (is_working e (done, place, r)) = cc
done-IsAt id task ran w h (is_done e at) = (e, at)

module _ (TaskEnds : ℕ → ParallelTask → Type 0) (n : ℕ) where
  -- What is known where the owner is known to be.
  pub known :
      (s : ThreadPool) (m : Owner)
      → s.owner ≡ m
      → Inv n s
      → (i : ℕ) → i < n
      → Fits s.global_task_id s.task s.submitted m i (s.workers i)
  known s m at inv i h =
      subst (λ o. Fits s.global_task_id s.task s.submitted o i (s.workers i)) at (inv i h)

  all_done :
      (s : ThreadPool)
      → s.owner ≡ joining n
      → Inv n s
      → (i : ℕ) → i < n
      → ((s.workers i).task_id ≡ s.global_task_id)
        × IsAt true (rest_of s.task) s.submitted (s.workers i)
  all_done s at inv i h =
      let (ran, new, busy, before) = known s (joining n) at inv i h in
      let (e, (done, place, r)) =
        done-IsAt s.global_task_id s.task ran (s.workers i) (before h) busy in
      (e, (done, place, r ∙ sym new))

  pub Step-Inv : {s t : ThreadPool} → Step TaskEnds n s t → Inv n s → Inv n t
  Step-Inv {s} (submit task at other) inv = λ i h.
      let (e, (done, place, r)) = known s outside at inv i h in
      let all_set : true ≡ leb 0 i = ground arith in (e, (done ∙ all_set, place, r))
  Step-Inv {s} (close at) inv = λ i h.
      let (e, (done, place, r)) = known s outside at inv i h in
      let all_set : true ≡ leb 0 i = ground arith in (e, (done ∙ all_set, place, r))
  Step-Inv {s} (clear j at small) inv = λ i h.
      let (e, (done, place, r)) = known s (clearing j) at inv i h in
      elim (Bool-cases (i == j)) [
        | inl here ↦
            let same : j ≡ i = ground arith in
            let (e', (_, place', r')) = known s (clearing j) at inv j small in
            let clear_now : false ≡ leb (suc j) i = ground arith in
            rw here (e', (clear_now, place', r'))
        | inr there ↦
            let as_before : leb j i ≡ leb (suc j) i = ground arith in
            rw there (e, (done ∙ as_before, place, r))
      ]
  Step-Inv {s} (publish at) inv = λ i h.
      let (e, (done, place, r)) = known s (clearing n) at inv i h in
      (
        s.submitted,
        refl,
        is_asleep (ap (λ d. add_size d 1) e) (done ∙ ground arith, place, r),
        λ lt. absurd (omega arith),
      )
  Step-Inv {s} (join j at small done) inv = λ i h.
      let (ran, new, busy, before) = known s (joining j) at inv i h in
      (
        ran,
        new,
        busy,
        λ lt. elim (Bool-cases (i == j)) [
          | inl here ↦
              let same : j ≡ i = ground arith in
              subst (λ k. (s.workers k).job_done ≡ true) same done
          | inr there ↦ before (ground arith)
        ],
      )
  Step-Inv {s} (leave at other) inv = λ i h.
      let (e, (done, place, r)) = all_done s at inv i h in (e, (done, place ∙ rw other refl, r))
  Step-Inv {s} (delete at last) inv =
      λ i h. let (e, (done, place, r)) = all_done s at inv i h in (done, place ∙ rw last refl, r)
  Step-Inv {s} (wake k small at other) inv =
      update-all (Fits s.global_task_id s.task s.submitted s.owner) s.workers n k
        (awake (s.workers k)) inv
        (awake-Fits s.global_task_id s.task s.submitted s.owner k (s.workers k) at other
          (inv k small))
  Step-Inv {s} (begin k small at) inv =
      update-all (Fits s.global_task_id s.task s.submitted s.owner) s.workers n k
        (record (s.workers k) { place = working s.task }) inv
        (begin-Fits s.global_task_id s.task s.submitted s.owner k (s.workers k) at (inv k small))
  Step-Inv {s} (finish k task small at done) inv =
      update-all (Fits s.global_task_id s.task s.submitted s.owner) s.workers n k
        (finished task (s.workers k)) inv
        (finished-Fits s.global_task_id s.task s.submitted s.owner k (s.workers k) task at
          (inv k small))

  pub Reach-Inv : {s : ThreadPool} → Reach TaskEnds n s → Inv n s
  Reach-Inv start = Inv-new n
  Reach-Inv (next r step) = Step-Inv step (Reach-Inv r)

  -- In whatever order a pool of n threads and its owner act: where the owner is between tasks, every
  -- worker waits for the counter, with its flag set, and has done each task that was submitted, once and in
  -- the order in which they were; and where it is behind the end of the pool, every worker has ended, and
  -- has done them too.
  pub Reach-IsAt :
      {s : ThreadPool}
      → Reach TaskEnds n s
      → (i : ℕ) → i < n
      → (s.owner ≡ outside → IsAt true waiting s.submitted (s.workers i))
        × (s.owner ≡ deleted → IsAt true exited s.submitted (s.workers i))
  Reach-IsAt {s} r i h =
      (λ at. (known s outside at (Reach-Inv r) i h).1, λ at. known s deleted at (Reach-Inv r) i h)
