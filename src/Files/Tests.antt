-- ===== src/Files/Tests.antt =====
-- A process that opens two files: runs of the calls, and the theorems at its states.
use unix_v.Common.{
  ℕ, zero, suc, ◌+◌, ◌*◌, ◌≤◌, ◌<◌, ◌≡◌, refl, Option, none, some, ◌∷◌, arith, replicate,
  get_or-replicate,
}
use unix_v.Files.Seek.{seek, seek_target, seek_start, seek_relative}
use unix_v.Files.{getf, Files, no_file, file_at, at_fd, falloc, dup, sys_dup2, InodeOps, ebadf}
use unix_v.Files.Refs.{refs}
use unix_v.Files.Counting.{IsCounted}
use unix_v.Files.Calls.{falloc-IsCounted, sys_dup2-IsCounted}

abbrev none_outside : ℕ → ℕ
none_outside k = 0

abbrev fresh : Files
fresh = record {
  file = replicate 4 no_file;
  ofile = replicate 15 none;
  fdflags = replicate 15 0;
  error = 0;
  eax = 0;
}

refs-fresh : (n k : ℕ) → refs k (replicate n none) ≡ 0
refs-fresh zero k = refl
refs-fresh (suc n) k = omega (arith, refs-fresh n k)

fresh-IsCounted : IsCounted none_outside fresh
fresh-IsCounted = record {
  fds = refl;
  in_table = λ i k e. ground (arith, get_or-replicate 15 i (let o : Option ℕ = none in o));
  counted = λ k lt. ground (arith, get_or-replicate 4 k no_file, refs-fresh 15 k);
  small = λ k lt. ground (arith, get_or-replicate 4 k no_file);
}

-- descriptor 0 open on file 0
abbrev one : Files
one = record fresh {
  file = record no_file { count = 1 } ∷ replicate 3 no_file;
  ofile = some 0 ∷ replicate 14 none;
}

one-IsCounted : IsCounted none_outside one
unfolding falloc
one-IsCounted = falloc-IsCounted none_outside fresh fresh-IsCounted

-- the number of closes that reached the inode layer
abbrev counter : InodeOps
counter = record { State = ℕ; closei = λ ip w n. n + 1; end_pipe = λ ip n. n }

dup_gives_lowest : (dup 0 one).1.eax ≡ 1
unfolding dup
dup_gives_lowest = refl

closed_is_ebadf : (dup 3 one).1.error ≡ ebadf
unfolding dup
closed_is_ebadf = refl

room : (k : ℕ) → at_fd one 0 ≡ some k → (file_at one k).count < 127
room k e = ground arith

sys_dup2-IsCounted_example : IsCounted none_outside (sys_dup2 counter 0 7 (one, 0)).1
sys_dup2-IsCounted_example = sys_dup2-IsCounted counter 0 none_outside one one-IsCounted 0 7 room

few_refs : (k : ℕ) → 2 * refs k one.ofile + none_outside k ≤ 127
few_refs k = ground (arith, refs-fresh 14 k)

-- `seek` of descriptor 0 puts the offset at 0, the number of the descriptor, whatever is asked.
abbrev far : Files
far = record one {
  file = record no_file { count = 1; offset0 = 0; offset1 = 700 } ∷ replicate 3 no_file;
}

no_sizes : ℕ → ℕ × ℕ
no_sizes k = (0, 0)

seek_goes_to_fd : (file_at (seek 0 0 no_sizes far).1 0).offset1 ≡ 0
unfolding seek getf seek_target seek_start
seek_goes_to_fd = refl

seek_relative_adds : (file_at (seek 0 1 no_sizes far).1 0).offset1 ≡ 700
unfolding seek getf seek_target seek_start seek_relative
seek_relative_adds = refl
