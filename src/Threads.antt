-- ===== src/Threads.antt =====
-- The thread pool of modules/execution/execution.cppm: spheres_worker, submit_and_block and ThreadPool, as
-- steps of the thread that owns the pool and of its workers, in any order.
use spheres_benchmark.Prelude.{
  ℕ, suc, ◌<◌, ◌≡◌, ◌≢◌, Bool, true, false, List, [], ◌∷◌, ◌==◌, if◌then◌else◌, add_size,
}
pub mod Runs
pub mod Weights
pub mod Ends

pub data ParallelTask : Type 0 where
  nop fill_dist_to_anchor find_knn batch_find_knn batch_prefill exit : ParallelTask

unfoldable pub is_exit : ParallelTask → Bool
is_exit exit = true
is_exit other = false

-- Where a worker stands: before the counter of tasks, behind it, at its task, or at its end.
pub data Place : Type 0 where
  waiting woken exited : Place
  working : ParallelTask → Place

-- A worker with its own count of tasks and its flag, and with the tasks that it has done, the last one first.
pub record SpheresWorker : Type 0 where
  pub task_id : ℕ
  pub place : Place
  pub job_done : Bool
  pub ran : List ParallelTask

-- Where the owner stands: between tasks, at a flag that it clears, at a flag that it waits for, or behind the
-- end of the pool.
pub data Owner : Type 0 where
  outside deleted : Owner
  clearing joining : ℕ → Owner

-- The pool, with the tasks that have been submitted, the last one first.
pub record ThreadPool : Type 0 where
  pub owner : Owner
  pub task : ParallelTask
  pub global_task_id : ℕ
  pub workers : ℕ → SpheresWorker
  pub submitted : List ParallelTask

-- The constructor.
abbrev pub new_worker : SpheresWorker
new_worker = record { task_id = 0; place = waiting; job_done = true; ran = [] }

unfoldable pub new_pool : ThreadPool
new_pool = record {
  owner = outside;
  task = nop;
  global_task_id = 0;
  workers = λ i. new_worker;
  submitted = [];
}

abbrev pub update : (ℕ → SpheresWorker) → ℕ → SpheresWorker → ℕ → SpheresWorker
update workers thread_id w i = if i == thread_id then w else workers i

abbrev pub cleared : SpheresWorker → SpheresWorker
cleared w = record w { job_done = false }

-- Behind `wait` and the increment.
abbrev pub awake : SpheresWorker → SpheresWorker
awake w = record w { task_id = add_size w.task_id 1; place = woken }

abbrev pub rest_of : ParallelTask → Place
rest_of task = if is_exit task then exited else waiting

abbrev pub finished : ParallelTask → SpheresWorker → SpheresWorker
finished task w = record w { job_done = true; place = rest_of task; ran = task ∷ w.ran }

-- The steps of a pool of `n` threads. What the owner does between tasks is to set the next one. A
-- worker ends its part of a task only where `TaskEnds` says that this part comes to its end: it may not,
-- as where a morsel of no pages is taken forever.
pub data Step (TaskEnds : ℕ → ParallelTask → Type 0) (n : ℕ) (s : ThreadPool)
    : ThreadPool → Type 0 where
  submit :
      (task : ParallelTask)
      → s.owner ≡ outside
      → is_exit task ≡ false
      → Step TaskEnds n s (record s { task = task; owner = clearing 0 })
  close : s.owner ≡ outside → Step TaskEnds n s (record s { task = exit; owner = clearing 0 })
  clear :
      (i : ℕ)
      → s.owner ≡ clearing i
      → i < n
      → Step TaskEnds n s (record s {
        owner = clearing (suc i);
        workers = update s.workers i (cleared (s.workers i));
      })
  publish :
      s.owner ≡ clearing n
      → Step TaskEnds n s (record s {
        owner = joining 0;
        global_task_id = add_size s.global_task_id 1;
        submitted = s.task ∷ s.submitted;
      })
  join :
      (i : ℕ)
      → s.owner ≡ joining i
      → i < n
      → (s.workers i).job_done ≡ true
      → Step TaskEnds n s (record s { owner = joining (suc i) })
  leave :
      s.owner ≡ joining n
      → is_exit s.task ≡ false
      → Step TaskEnds n s (record s { owner = outside })
  delete :
      s.owner ≡ joining n → is_exit s.task ≡ true → Step TaskEnds n s (record s { owner = deleted })
  wake :
      (i : ℕ)
      → i < n
      → (s.workers i).place ≡ waiting
      → (s.workers i).task_id ≢ s.global_task_id
      → Step TaskEnds n s (record s { workers = update s.workers i (awake (s.workers i)) })
  begin :
      (i : ℕ)
      → i < n
      → (s.workers i).place ≡ woken
      → Step TaskEnds n s (record s {
        workers = update s.workers i (record (s.workers i) { place = working s.task });
      })
  finish :
      (i : ℕ) (task : ParallelTask)
      → i < n
      → (s.workers i).place ≡ working task
      → TaskEnds i task
      → Step TaskEnds n s (record s { workers = update s.workers i (finished task (s.workers i)) })

pub data Reach (TaskEnds : ℕ → ParallelTask → Type 0) (n : ℕ) : ThreadPool → Type 0 where
  start : Reach TaskEnds n new_pool
  next : {s t : ThreadPool} → Reach TaskEnds n s → Step TaskEnds n s t → Reach TaskEnds n t
