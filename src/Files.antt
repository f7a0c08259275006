-- ===== src/Files.antt =====
-- Open files: the descriptors of a process and the system file table. kernel/fs/fio.c (`getf`,
-- `falloc`, `ufalloc`, `closef`) and the calls of kernel/sys.c that move descriptors (`sysclose`,
-- `dup`, `sys_dup`, `sys_dup2`, `sys_fcntl`), and the loop of `newproc` that shares them.
-- A pointer into the file table is its index. `closei`, which `closef` calls on the inode layer,
-- is a parameter: it works on a state of its own, and cannot reach the file table.
pub mod Refs
pub mod Find
pub mod Counting
pub mod Calls
pub mod Fork
pub mod Seek
mod Tests
use unix_v.Common.{
  ℕ, zero, suc, ◌+◌, ◌-◌, ◌/◌, ◌%◌, ◌^◌, ◌*◌, Bool, true, false, not, ◌&&◌, ◌||◌, Option, none,
  some, List, [], ◌∷◌, ltb, leb, ◌==◌, if◌then◌else◌, get_or, set, drop, length, map,
}

-- `NOFILE` and `NFILE`
abbrev pub nofile : ℕ
nofile = 15

abbrev pub nfile : ℕ
nfile = 100

abbrev pub ebadf : ℕ
ebadf = 9

abbrev pub einval : ℕ
einval = 22

abbrev pub enfile : ℕ
enfile = 23

abbrev pub emfile : ℕ
emfile = 24

-- `f_flag`, one field for each of FREAD, FWRITE, FPIPE, FAPPEND, FNONBLOCK
pub record Flags : Type 0 where
  pub fread : Bool
  pub fwrite : Bool
  pub fpipe : Bool
  pub fappend : Bool
  pub fnonblock : Bool

-- `struct file`; `count` holds the eight bits of the `int8_t`
pub record File : Type 0 where
  pub flag : Flags
  pub count : ℕ
  pub inode : ℕ
  pub offset0 : ℕ
  pub offset1 : ℕ

abbrev pub no_flags : Flags
no_flags = record {
  fread = false;
  fwrite = false;
  fpipe = false;
  fappend = false;
  fnonblock = false;
}

abbrev pub no_file : File
no_file = record { flag = no_flags; count = 0; inode = 0; offset0 = 0; offset1 = 0 }

-- `file[]`, and the fields of `u` for one process; `eax` is `u.u_ar0[EAX]`
pub record Files : Type 0 where
  pub file : List File
  pub ofile : List (Option ℕ)
  pub fdflags : List ℕ
  pub error : ℕ
  pub eax : ℕ

-- what a system call returns: -1, or 0
pub data Ret : Type 0 where
  failed done : Ret

abbrev pub at_fd : Files → ℕ → Option ℕ
at_fd s fd = get_or s.ofile fd none

abbrev pub file_at : Files → ℕ → File
file_at s k = get_or s.file k no_file

-- `int8_t` arithmetic on eight bits, and the comparison with 1 as a signed number
abbrev pub inc8 : ℕ → ℕ
inc8 c = (c + 1) % 256

abbrev pub dec8 : ℕ → ℕ
dec8 c = (c + 255) % 256

abbrev pub at_most_one : ℕ → Bool
at_most_one c = leb c 1 || leb 128 c

abbrev pub set_error : ℕ → Files → Files
set_error e s = record s { error = e }

-- An `int` that is negative is, as the `uint32_t` of `u_arg`, far above NOFILE.
pub getf : ℕ → Files → Option ℕ × Files
getf fd s =
    if ltb fd nofile
    then elim (at_fd s fd) [ some k ↦ (some k, s) | none ↦ (none, set_error ebadf s) ]
    else (none, set_error ebadf s)

-- The first descriptor from `i` on that is not open; the list is `u_ofile` from there.
pub first_null : ℕ → List (Option ℕ) → Option ℕ
first_null i [] = none
first_null i (none ∷ l) = some i
first_null i (some k ∷ l) = first_null (suc i) l

-- The first unused entry of the file table.
pub first_unused : ℕ → List File → Option ℕ
first_unused i [] = none
first_unused i (f ∷ l) = let rest = first_unused (suc i) l in if f.count == 0 then some i else rest

pub ufalloc : Files → Option ℕ × Files
unfolding first_null
ufalloc s = elim (first_null 0 s.ofile) [
  | some i ↦ (some i, record s { eax = i })
  | none ↦ (none, set_error emfile s)
]

-- `fd` refers to the file `k` from now on; `f` is the new content of `file[k]`
abbrev pub point : Files → ℕ → ℕ → File → Files
point s fd k f = record s { file = set s.file k f; ofile = set s.ofile fd (some k); eax = fd }

abbrev pub clear_flags : Files → ℕ → Files
clear_flags s fd = record s { fdflags = set s.fdflags fd 0 }

abbrev pub one_more : File → File
one_more f = record f { count = inc8 f.count }

abbrev pub one_less : File → File
one_less f = record f { count = dec8 f.count }

abbrev pub opened : File → File
opened f = record f { count = 1; offset0 = 0; offset1 = 0 }

pub falloc : Files → Option ℕ × Files
unfolding first_null first_unused
falloc s = elim (first_null 0 s.ofile) [
  | none ↦ (none, set_error emfile s)
  | some i ↦ elim (first_unused 0 s.file) [
    | none ↦ (none, set_error enfile s)
    | some k ↦ (some k, clear_flags (point s i k (opened (file_at s k))) i)
  ]
]

-- One more descriptor for the open file `k`.
pub share : Files → ℕ → ℕ → Files
share s fd k = point s fd k (one_more (file_at s k))

-- A call that begins by `getf` and returns -1 where that fails.
abbrev pub with_file : Option ℕ × Files → (ℕ → Files → Ret × Files) → Ret × Files
with_file (none, s) body = (failed, s)
with_file (some k, s) body = body k s

-- The first descriptor free from `from` on, given to the file `k`.
pub dup_from : ℕ → ℕ → Files → Ret × Files
unfolding first_null share
dup_from from k s = elim (first_null from (drop from s.ofile)) [
  | some i ↦ (done, clear_flags (share s i k) i)
  | none ↦ (failed, set_error emfile s)
]

pub dup : ℕ → Files → Ret × Files
unfolding getf dup_from
dup fd s = with_file (getf fd s) (dup_from 0)

-- As `dup`, but the flags of the new descriptor stay as they are.
pub sys_dup : ℕ → Files → Ret × Files
unfolding getf first_null share
sys_dup fd s = with_file (getf fd s) λ k s'. elim (first_null 0 s'.ofile) [
  | some i ↦ (done, share s' i k)
  | none ↦ (failed, set_error emfile s')
]

-- The commands of `fcntl`.
pub data Command : Type 0 where
  f_dupfd f_getfd f_setfd f_getfl f_setfl other : Command

-- bit `w` of a word, as a test
abbrev pub has_bit : ℕ → ℕ → Bool
has_bit w x = x / w % 2 == 1

abbrev pub flag_value : Bool → ℕ → ℕ
flag_value b w = if b then w else 0

-- FD_CLOEXEC is bit 0, O_NONBLOCK 4 and O_APPEND 8.
pub fcntl_on : Command → ℕ → ℕ → ℕ → Files → Ret × Files
unfolding dup_from
fcntl_on f_dupfd fd arg k s =
    if ltb arg nofile then dup_from arg k s else (failed, set_error einval s)
fcntl_on f_getfd fd arg k s = (done, record s { eax = get_or s.fdflags fd 0 % 2 })
fcntl_on f_setfd fd arg k s =
    let old = get_or s.fdflags fd 0 in
    (done, record s { fdflags = set s.fdflags fd (old - old % 2 + arg % 2) })
fcntl_on f_getfl fd arg k s =
    let f = (file_at s k).flag in
    (done, record s { eax = flag_value f.fappend 8 + flag_value f.fnonblock 4 })
fcntl_on f_setfl fd arg k s =
    let f = file_at s k in
    let g = record (f.flag) { fappend = has_bit 8 arg; fnonblock = has_bit 4 arg } in
    (done, record s { file = set s.file k (record f { flag = g }) })
fcntl_on other fd arg k s = (failed, set_error einval s)

pub sys_fcntl : ℕ → Command → ℕ → Files → Ret × Files
unfolding getf fcntl_on
sys_fcntl fd cmd arg s = with_file (getf fd s) (fcntl_on cmd fd arg)

-- The inode layer as `closef` uses it: `closei`, and what closing a pipe's end does to its inode.
pub record InodeOps : Type 1 where
  pub State : Type 0
  pub closei : ℕ → Bool → State → State
  pub end_pipe : ℕ → State → State

module _ (ops : InodeOps) where
  open ops use {State, closei, end_pipe}

  pub closef : ℕ → Files × State → Files × State
  closef k (s, i) =
      let f = file_at s k in
      let i' = if f.flag.fpipe then end_pipe f.inode i else i in
      (
        record s { file = set s.file k (one_less f) },
        if at_most_one f.count then closei f.inode f.flag.fwrite i' else i',
      )

  pub close_got : ℕ → Option ℕ × Files → State → Ret × Files × State
  unfolding closef
  close_got fd (none, s) i = (failed, s, i)
  close_got fd (some k, s) i =
      let (t, i') = closef k (record (clear_flags s fd) { ofile = set s.ofile fd none }, i) in
      (done, t, i')

  pub sysclose : ℕ → Files × State → Ret × Files × State
  unfolding getf close_got
  sysclose fd (s, i) = close_got fd (getf fd s) i

  -- The descriptor `new` is closed if it is open, and refers to the file of `old`.
  pub close_open : Option ℕ → Files × State → Files × State
  unfolding closef
  close_open none si = si
  close_open (some j) si = closef j si

  pub dup2_onto : ℕ → ℕ → Files × State → Ret × Files × State
  unfolding close_open share
  dup2_onto new k (s, i) =
      let (t, i') = close_open (at_fd s new) (s, i) in (done, clear_flags (share t new k) new, i')

  pub dup2_got : ℕ → ℕ → Option ℕ × Files → State → Ret × Files × State
  unfolding dup2_onto
  dup2_got old new (none, s) i = (failed, s, i)
  dup2_got old new (some k, s) i =
      if old == new then (done, record s { eax = new }, i) else dup2_onto new k (s, i)

  pub sys_dup2 : ℕ → ℕ → Files × State → Ret × Files × State
  unfolding getf dup2_got
  sys_dup2 old new (s, i) =
      if ltb new nofile then dup2_got old new (getf old s) i else (failed, set_error ebadf s, i)

-- `newproc`: the child has the same descriptors, so every file counts once more for each.
pub share_all : List (Option ℕ) → List File → List File
share_all [] files = files
share_all (none ∷ l) files = share_all l files
share_all (some k ∷ l) files =
    let f = get_or files k no_file in share_all l (set files k (one_more f))
