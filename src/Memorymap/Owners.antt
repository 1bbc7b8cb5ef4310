-- ===== src/Memorymap/Owners.antt =====
-- The steps of a program with the mapped files of modules/memorymap/memorymap.cpp, and who owns a
-- descriptor.
use mathlib.Core.Path.{subst}
use spheres_benchmark.Prelude.{
  ℕ, ◌+◌, ◌≡◌, refl, Option, none, some, List, [], ◌∷◌, ◌++◌, arith, ◌==◌, if◌then◌else◌, total,
  total-append,
}
use spheres_benchmark.Harness.Bytes.{Bytes}
use spheres_benchmark.Memorymap.{
  MmapMode, read, write, read_write, Call, open_create, open_write, open_read, close, fstat, mmap,
  madvise, MappedFile, Answers, Descriptor, create_calls, mapped, open_call, protection, construct,
  husk, destroy, move,
}

-- The objects that are alive, and the calls so far.
pub record Objects : Type 0 where
  pub alive : List MappedFile
  pub calls : List Call

-- What a program can do with mapped files: construct one, which may throw, move from one, and destroy one.
pub data Step (s : Objects) : Objects → Type 0 where
  made :
      (mode : MmapMode) (filename : Bytes) (size : ℕ) (answers : Answers) (file : MappedFile)
      → (construct mode filename size answers).1 ≡ some file
      → Step s (record {
        alive = file ∷ s.alive;
        calls = s.calls ++ (construct mode filename size answers).0;
      })
  thrown :
      (mode : MmapMode) (filename : Bytes) (size : ℕ) (answers : Answers)
      → (construct mode filename size answers).1 ≡ none
      → Step s (record s { calls = s.calls ++ (construct mode filename size answers).0 })
  moved :
      (before after : List MappedFile) (file : MappedFile)
      → s.alive ≡ before ++ file ∷ after
      → Step s (record s { alive = (move file).0 ∷ (before ++ (move file).1 ∷ after) })
  destroyed :
      (before after : List MappedFile) (file : MappedFile)
      → s.alive ≡ before ++ file ∷ after
      → Step s (record { alive = before ++ after; calls = s.calls ++ destroy file })

pub data Reach : Objects → Type 0 where
  start : Reach (record { alive = []; calls = [] })
  next : {s t : Objects} → Reach s → Step s t → Reach t

abbrev is_descriptor : ℕ → Descriptor → ℕ
is_descriptor d none = 0
is_descriptor d (some fd) = if fd == d then 1 else 0

-- How often a call opens a descriptor, or closes it.
abbrev pub opens : ℕ → Call → ℕ
opens d (open_create filename fd) = is_descriptor d fd
opens d (open_write filename fd) = is_descriptor d fd
opens d (open_read filename fd) = is_descriptor d fd
opens d other = 0

abbrev pub closes : ℕ → Call → ℕ
closes d (close fd) = is_descriptor d fd
closes d other = 0

-- Whether an object will close a descriptor.
abbrev pub owns : ℕ → MappedFile → ℕ
owns d file = elim file.addr [ none ↦ 0 | some addr ↦ is_descriptor d file.fd ]

abbrev IsBalanced : ℕ → Objects → Type 0
IsBalanced d s = total (opens d) s.calls ≡ total (closes d) s.calls + total (owns d) s.alive

-- The calls open a descriptor as often as they close it, but for what the object owns.
abbrev AreBalanced : ℕ → List Call → Option MappedFile → Type 0
AreBalanced d calls none = total (opens d) calls ≡ total (closes d) calls
AreBalanced d calls (some file) = total (opens d) calls ≡ total (closes d) calls + owns d file

created-balanced :
    (d : ℕ) (mode : MmapMode) (filename : Bytes) (size : ℕ) (answers : Answers)
    → AreBalanced d (create_calls mode filename size answers) none
unfolding create_calls
created-balanced d mode filename size answers = ground arith

opened-balanced :
    (d : ℕ) (mode : MmapMode) (filename : Bytes) (answers : Answers)
    → (opens d (open_call mode filename answers) ≡ is_descriptor d answers.opened)
      × (closes d (open_call mode filename answers) ≡ 0)
opened-balanced d read filename answers = (refl, refl)
opened-balanced d write filename answers = (refl, refl)
opened-balanced d read_write filename answers = (refl, refl)

mapped-balanced :
    (d : ℕ) (mode : MmapMode) (answers : Answers) (opening : List Call) (opened : Descriptor)
    → total (opens d) opening ≡ total (closes d) opening + is_descriptor d opened
    → AreBalanced d (mapped mode answers opening opened).0 (mapped mode answers opening opened).1
unfolding mapped
mapped-balanced d mode answers opening none h = omega arith
mapped-balanced d mode answers opening (some fd) h =
    let rest =
      fstat (some fd)
      ∷ mmap answers.st_size (protection mode) (some fd)
      ∷ madvise answers.address answers.st_size
      ∷ [] in
    omega (arith, h, total-append (opens d) opening rest, total-append (closes d) opening rest)

constructed-balanced :
    (d : ℕ) (mode : MmapMode) (filename : Bytes) (size : ℕ) (answers : Answers)
    → AreBalanced d
        (construct mode filename size answers).0
        (construct mode filename size answers).1
unfolding construct
constructed-balanced d mode filename size answers =
    let before = create_calls mode filename size answers in
    let call = open_call mode filename answers in
    let (opened, closed) = opened-balanced d mode filename answers in
    mapped-balanced d mode answers (before ++ call ∷ []) answers.opened (
      omega (
        arith,
        created-balanced d mode filename size answers,
        opened,
        closed,
        total-append (opens d) before (call ∷ []),
        total-append (closes d) before (call ∷ []),
      ))

destroyed-balanced :
    (d : ℕ) (fd addr : Option ℕ) (size : ℕ) (calls : List Call)
    → calls ≡ destroy (record { fd = fd; addr = addr; filesize = size })
    → (total (opens d) calls ≡ 0)
      × (total (closes d) calls ≡ owns d (record { fd = fd; addr = addr; filesize = size }))
unfolding destroy
destroyed-balanced d fd none size calls e = rw e (refl, refl)
destroyed-balanced d fd (some addr) size calls e = rw e (refl, omega arith)

Step-IsBalanced : (d : ℕ) {s t : Objects} → IsBalanced d s → Step s t → IsBalanced d t
unfolding move
Step-IsBalanced d {s} h (made mode filename size answers file e) =
    let calls = (construct mode filename size answers).0 in
    let here = subst (AreBalanced d calls) e (constructed-balanced d mode filename size answers) in
    omega
      (arith, h, here, total-append (opens d) s.calls calls, total-append (closes d) s.calls calls)
Step-IsBalanced d {s} h (thrown mode filename size answers e) =
    let calls = (construct mode filename size answers).0 in
    let here = subst (AreBalanced d calls) e (constructed-balanced d mode filename size answers) in
    omega
      (arith, h, here, total-append (opens d) s.calls calls, total-append (closes d) s.calls calls)
Step-IsBalanced d {s} h (moved before after file e) = omega (
  arith,
  subst (λ alive. total (opens d) s.calls ≡ total (closes d) s.calls + total (owns d) alive) e h,
  total-append (owns d) before (file ∷ after),
  total-append (owns d) before (husk ∷ after),
)
Step-IsBalanced d {s} h (destroyed before after file e) =
    let (opened, closed) =
      destroyed-balanced d file.fd file.addr file.filesize (destroy file) refl in
    omega (
      arith,
      opened,
      closed,
      subst (λ alive. total (opens d) s.calls ≡ total (closes d) s.calls + total (owns d) alive) e
          h,
      total-append (owns d) before (file ∷ after),
      total-append (owns d) before after,
      total-append (opens d) s.calls (destroy file),
      total-append (closes d) s.calls (destroy file),
    )

-- Whatever a program constructs, moves and destroys, constructors that throw included, each descriptor
-- has been closed as often as it has been opened, but for the objects that are alive and own it.
pub Reach-IsBalanced : (d : ℕ) {s : Objects} → Reach s → IsBalanced d s
Reach-IsBalanced d start = refl
Reach-IsBalanced d (next r step) = Step-IsBalanced d (Reach-IsBalanced d r) step
