-- ===== src/Memorymap.antt =====
-- modules/memorymap/memorymap.cpp: files that are mapped into memory. The operating system is a
-- parameter: its answers are given, and the calls that are made are listed.
use mathlib.Core.Bool.{not}
use spheres_benchmark.Prelude.{
  ℕ, Bool, true, false, ◌&&◌, Option, none, some, List, [], ◌∷◌, ◌++◌, ltb, if◌then◌else◌,
}
use spheres_benchmark.Harness.Bytes.{Bytes}
pub mod Owners

pub data MmapMode : Type 0 where
  read write read_write : MmapMode

pub data Access : Type 0 where
  read_only read_and_write : Access

pub data Protection : Type 0 where
  prot_read prot_write prot_both : Protection

-- A descriptor is `none` where it is negative.
abbrev pub Descriptor : Type 0
Descriptor = Option ℕ

-- The system calls with what `open` answers.
pub data Call : Type 0 where
  open_create open_write : Bytes → Descriptor → Call
  open_read : Bytes → Descriptor → Call
  fallocate : Descriptor → ℕ → Call
  close : Descriptor → Call
  fstat : Descriptor → Call
  mmap : ℕ → Protection → Descriptor → Call
  madvise : ℕ → ℕ → Call
  msync : ℕ → ℕ → Call
  munmap : ℕ → ℕ → Call

-- `addr` is `none` for the null pointer.
pub record MappedFile : Type 0 where
  pub fd : Descriptor
  pub addr : Option ℕ
  pub filesize : ℕ

-- What the system answers to a constructor: the descriptors of the file that is created and of the file
-- that is opened, its size, and the address of the mapping, which is never null, also where it fails.
pub record Answers : Type 0 where
  pub created : Descriptor
  pub opened : Descriptor
  pub st_size : ℕ
  pub address : ℕ

abbrev pub is_read : MmapMode → Bool
is_read read = true
is_read other = false

abbrev pub protection : MmapMode → Protection
protection read = prot_read
protection write = prot_write
protection read_write = prot_both

-- The file is created with its size, if that is not 0.
unfoldable pub create_calls : MmapMode → Bytes → ℕ → Answers → List Call
create_calls mode filename size answers =
    if not (is_read mode) && ltb 0 size
    then open_create filename answers.created
      ∷ fallocate answers.created size
      ∷ close answers.created
      ∷ []
    else []

abbrev pub open_call : MmapMode → Bytes → Answers → Call
open_call mode filename answers =
    if is_read mode then open_read filename answers.opened else open_write filename answers.opened

-- The rest of the constructor: the calls, and the object, `none` where it throws.
unfoldable pub mapped : MmapMode → Answers → List Call → Descriptor → List Call × Option MappedFile
mapped mode answers opening none = (opening, none)
mapped mode answers opening (some fd) = (
  opening
      ++ (fstat (some fd)
          ∷ mmap answers.st_size (protection mode) (some fd)
          ∷ madvise answers.address answers.st_size
          ∷ []),
  some (record { fd = some fd; addr = some answers.address; filesize = answers.st_size }),
)

-- The constructor.
unfoldable pub construct : MmapMode → Bytes → ℕ → Answers → List Call × Option MappedFile
unfolding mapped create_calls
construct mode filename size answers =
    mapped mode answers
      (create_calls mode filename size answers ++ open_call mode filename answers ∷ [])
      answers.opened

-- What the destructor and the move leave of an object.
abbrev pub husk : MappedFile
husk = record { fd = none; addr = none; filesize = 0 }

-- The destructor.
unfoldable pub destroy : MappedFile → List Call
destroy file = elim file.addr [
  | none ↦ []
  | some addr ↦ msync addr file.filesize ∷ munmap addr file.filesize ∷ close file.fd ∷ []
]

-- The move: the new object, and what is left of the other.
unfoldable pub move : MappedFile → MappedFile × MappedFile
move other = (other, husk)
