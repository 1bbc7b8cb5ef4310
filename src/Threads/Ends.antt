-- ===== src/Threads/Ends.antt =====
-- Whether the owner of the pool comes to the end of submit_and_block, of
-- modules/execution/execution.cppm.
use spheres_benchmark.Prelude.{
  ℕ, zero, suc, ◌<◌, ◌≤◌, ◌≡◌, ◌≢◌, refl, sym, ap, ◌∙◌, inl, inr, ◌⊎◌, List, arith, ltb, Bool-cases,
  add_size,
}
use spheres_benchmark.Threads.{
  ParallelTask, is_exit, Owner, outside, deleted, clearing, joining, ThreadPool, new_pool, Step,
  submit, close, clear, publish, join, leave, delete, wake, begin, finish, Reach, start, next,
}
use spheres_benchmark.Threads.Runs.{
  IsBusy, is_asleep, is_awake, is_working, is_done, Inv, known, Step-Inv, Reach-Inv,
}
use spheres_benchmark.Threads.Weights.{measure, Step-less}

-- The owner is between tasks or behind the end.
abbrev pub IsResting : ThreadPool → Type 0
IsResting s = (s.owner ≡ outside) ⊎ (s.owner ≡ deleted)

-- Whatever steps are taken, the owner comes to rest: until it does some step can be taken, and they cannot
-- go on forever.
pub data Ends (TaskEnds : ℕ → ParallelTask → Type 0) (n : ℕ) : ThreadPool → Type 0 where
  rests : {s : ThreadPool} → IsResting s → Ends TaskEnds n s
  goes_on :
      {s : ThreadPool} (t : ThreadPool)
      → Step TaskEnds n s t
      → ((t : ThreadPool) → Step TaskEnds n s t → Ends TaskEnds n t)
      → Ends TaskEnds n s

module _ (TaskEnds : ℕ → ParallelTask → Type 0) (n : ℕ) where
  -- The owner is at a flag that is there, or behind the last.
  abbrev IsInRange : Owner → Type 0
  IsInRange outside = Unit
  IsInRange deleted = Unit
  IsInRange (clearing j) = j ≤ n
  IsInRange (joining j) = j ≤ n

  Step-InRange : {s t : ThreadPool} → Step TaskEnds n s t → IsInRange s.owner → IsInRange t.owner
  Step-InRange (submit task at other) h = omega arith
  Step-InRange (close at) h = omega arith
  Step-InRange (clear j at lt) h = lt
  Step-InRange (publish at) h = omega arith
  Step-InRange (join j at lt done) h = lt
  Step-InRange (leave at other) h = tt
  Step-InRange (delete at last) h = tt
  Step-InRange (wake k lt at other) h = h
  Step-InRange (begin k lt at) h = h
  Step-InRange (finish k task lt at done) h = h

  Reach-InRange : {s : ThreadPool} → Reach TaskEnds n s → IsInRange s.owner
  unfolding new_pool
  Reach-InRange start = tt
  Reach-InRange (next r step) = Step-InRange step (Reach-InRange r)

  -- The task is set where the owner is at rest only.
  Step-task : {s t : ThreadPool} → Step TaskEnds n s t → s.owner ≢ outside → t.task ≡ s.task
  Step-task (submit task at other) busy = absurd (busy at)
  Step-task (close at) busy = absurd (busy at)
  Step-task (clear j at lt) busy = refl
  Step-task (publish at) busy = refl
  Step-task (join j at lt done) busy = refl
  Step-task (leave at other) busy = refl
  Step-task (delete at last) busy = refl
  Step-task (wake k lt at other) busy = refl
  Step-task (begin k lt at) busy = refl
  Step-task (finish k task lt at done) busy = refl

  -- Every worker's part of a task comes to its end.
  abbrev IsEnding : ParallelTask → Type 0
  IsEnding task = (i : ℕ) → i < n → TaskEnds i task

  -- Some step that can be taken.
  abbrev CanGo : ThreadPool → Type 0
  CanGo s = (t : ThreadPool) × Step TaskEnds n s t

  busy-CanGo :
      (s : ThreadPool) (j : ℕ) (ran : List ParallelTask)
      → s.owner ≡ joining j
      → j < n
      → IsEnding s.task
      → IsBusy s.global_task_id s.task ran (s.workers j)
      → CanGo s
  busy-CanGo s j ran at lt all_end (is_asleep e (done, place, r)) =
      (_, wake j lt place (λ same. counter_moves (s.workers j).task_id s.global_task_id e same))
    where
      counter_moves : (a b : ℕ) → add_size a 1 ≡ b → a ≢ b
      counter_moves a b e same = omega arith
  busy-CanGo s j ran at lt all_end (is_awake e (done, place, r)) = (_, begin j lt place)
  busy-CanGo s j ran at lt all_end (is_working e (done, place, r)) =
      (_, finish j s.task lt place (all_end j lt))
  busy-CanGo s j ran at lt all_end (is_done e (done, place, r)) = (_, join j at lt done)

  clearing_outside : (j : ℕ) → clearing j ≢ outside
  clearing_outside j e = cc

  joining_outside : (j : ℕ) → joining j ≢ outside
  joining_outside j e = cc

  progress :
      (s : ThreadPool) (m : Owner)
      → s.owner ≡ m
      → IsInRange m
      → IsEnding s.task
      → Inv n s
      → IsResting s ⊎ ((s.owner ≢ outside) × CanGo s)
  progress s outside at h all_end inv = inl (inl at)
  progress s deleted at h all_end inv = inl (inr at)
  progress s (clearing j) at h all_end inv =
      let away : s.owner ≢ outside = (λ out. clearing_outside j (sym at ∙ out)) in
      elim (Bool-cases (ltb j n)) [
        | inl more ↦ inr (away, (_, clear j at (ground arith)))
        | inr all ↦
            let last : j ≡ n = ground arith in inr (away, (_, publish (at ∙ ap clearing last)))
      ]
  progress s (joining j) at h all_end inv =
      let away : s.owner ≢ outside = (λ out. joining_outside j (sym at ∙ out)) in
      elim (Bool-cases (ltb j n)) [
        | inl more ↦
            let lt : j < n = ground arith in
            let (ran, new, busy, before) = known TaskEnds n s (joining j) at inv j lt in
            inr (away, busy-CanGo s j ran at lt all_end busy)
        | inr all ↦
            let last : j ≡ n = ground arith in
            let here = at ∙ ap joining last in
            elim (Bool-cases (is_exit s.task)) [
              | inl e ↦ inr (away, (_, delete here e))
              | inr e ↦ inr (away, (_, leave here e))
            ]
      ]

  Ends-below :
      (bound : ℕ) (s : ThreadPool)
      → measure n s < bound
      → IsEnding s.task
      → Inv n s
      → IsInRange s.owner
      → Ends TaskEnds n s
  Ends-below zero s small all_end inv h = absurd (omega arith)
  Ends-below (suc bound) s small all_end inv h = elim (progress s s.owner refl h all_end inv) [
    | inl resting ↦ rests resting
    | inr (busy, (t, step)) ↦ goes_on t step λ u other.
        Ends-below bound u (omega (arith, small, Step-less TaskEnds n other busy inv))
          (rw (Step-task other busy) all_end) (Step-Inv TaskEnds n other inv) (Step-InRange other h)
  ]

  -- Wherever a pool and its owner have come, the owner comes to the end of submit_and_block or of the
  -- destructor, in whatever order they act from there on, if the part that each of the workers has in the
  -- task that is set comes to its end.
  pub Reach-Ends : {s : ThreadPool} → Reach TaskEnds n s → IsEnding s.task → Ends TaskEnds n s
  Reach-Ends {s} r all_end =
      Ends-below (suc (measure n s)) s (omega arith) all_end (Reach-Inv TaskEnds n r)
        (Reach-InRange r)
