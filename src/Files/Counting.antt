-- ===== src/Files/Counting.antt =====
-- The reference counts of the file table of kernel/fs/fio.c.
use unix_v.Common.{
  ℕ, ◌+◌, ◌≤◌, ◌<◌, ◌≡◌, Option, none, some, arith, set, length, get_or-set, length-set,
}
use unix_v.Files.{Files, nofile, file_at, at_fd}
use unix_v.Files.Refs.{hits, refs, refs-set}

-- `outside k` is how many descriptors of the other processes refer to file `k`.
pub record IsCounted (outside : ℕ → ℕ) (s : Files) : Type 0 where
  pub fds : length s.ofile ≡ nofile
  pub in_table : (i k : ℕ) → at_fd s i ≡ some k → k < length s.file
  pub counted : (k : ℕ) → k < length s.file → (file_at s k).count ≡ refs k s.ofile + outside k
  pub small : (k : ℕ) → k < length s.file → (file_at s k).count ≤ 127

module _ (outside : ℕ → ℕ) (s t : Files) (v : IsCounted outside s) (fd : ℕ) (o : Option ℕ) where
  -- A change of one descriptor keeps the invariant if the counts follow it.
  pub IsCounted-move :
      fd < nofile
      → t.ofile ≡ set s.ofile fd o
      → length t.file ≡ length s.file
      → ((k : ℕ) → o ≡ some k → k < length s.file)
      → ((k : ℕ) → k < length s.file → (file_at t k).count ≤ 127)
      → ((k : ℕ)
          → k < length s.file
          → (file_at t k).count + hits k (at_fd s fd) ≡ (file_at s k).count + hits k o)
      → IsCounted outside t
  IsCounted-move h eo el inside small move = record {
    fds = rw (eo, length-set) v.fds;
    in_table =
        λ i k e. ground (arith, v.fds, get_or-set s.ofile fd i o none, inside k, v.in_table i k);
    counted = λ k lt. ground (arith, v.fds, move k, v.counted k, refs-set k s.ofile fd o);
    small = λ k lt. small k (omega arith);
  }
