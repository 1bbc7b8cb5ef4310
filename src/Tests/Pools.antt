-- ===== src/Tests/Pools.antt =====
-- A run of a pool of one thread, which does a search.
use spheres_benchmark.Prelude.{ℕ, ◌≡◌, refl, true, ◌∷◌, arith, add_size}
use spheres_benchmark.Threads.{
  ParallelTask, find_knn, is_exit, waiting, exited, working, ThreadPool, outside, deleted, clearing,
  joining, submit, clear, publish, join, leave, wake, begin, finish, Reach, start, next, new_pool,
  update, cleared, awake, finished,
}
use spheres_benchmark.Threads.Runs.{IsAt, Reach-IsAt}
use spheres_benchmark.Threads.Ends.{Ends, Reach-Ends}

abbrev submitted : ThreadPool
submitted = record new_pool { task = find_knn; owner = clearing 0 }

abbrev all_cleared : ThreadPool
all_cleared = record submitted {
  owner = clearing 1;
  workers = update submitted.workers 0 (cleared (submitted.workers 0));
}

abbrev published : ThreadPool
published = record all_cleared {
  owner = joining 0;
  global_task_id = add_size all_cleared.global_task_id 1;
  submitted = all_cleared.task ∷ all_cleared.submitted;
}

abbrev seen : ThreadPool
seen = record published { workers = update published.workers 0 (awake (published.workers 0)) }

abbrev begun : ThreadPool
begun = record seen {
  workers = update seen.workers 0 (record (seen.workers 0) { place = working seen.task });
}

abbrev found : ThreadPool
found = record begun { workers = update begun.workers 0 (finished find_knn (begun.workers 0)) }

abbrev joined : ThreadPool
joined = record found { owner = joining 1 }

abbrev left : ThreadPool
left = record joined { owner = outside }

-- The parts of these tasks that the threads have come to their ends.
abbrev AllEnd : ℕ → ParallelTask → Type 0
AllEnd i task = Unit

published-Reach : Reach AllEnd 1 published
unfolding new_pool is_exit
published-Reach =
    next (next (next start (submit find_knn refl refl)) (clear 0 refl (omega arith))) (publish refl)

left-Reach : Reach AllEnd 1 left
unfolding new_pool is_exit
left-Reach =
    next
      (next
        (next
          (next (next published-Reach (wake 0 (omega arith) refl (λ e. cc)))
            (begin 0 (omega arith) refl))
          (finish 0 find_knn (omega arith) refl tt))
        (join 0 refl (omega arith) refl))
      (leave refl refl)

Reach-IsAt_example :
    (left.owner ≡ outside → IsAt true waiting left.submitted (left.workers 0))
    × (left.owner ≡ deleted → IsAt true exited left.submitted (left.workers 0))
Reach-IsAt_example = Reach-IsAt AllEnd 1 left-Reach 0 (omega arith)

Reach-Ends_example : Ends AllEnd 1 published
Reach-Ends_example = Reach-Ends AllEnd 1 published-Reach (λ i h. tt)
