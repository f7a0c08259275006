-- ===== src/Files/Fork.antt =====
-- The loop of `newproc` of kernel/sched/slp.c over the open files, and `sys_fcntl` of kernel/sys.c.
use unix_v.Common.{
  ℕ, suc, ◌+◌, ◌*◌, ◌≤◌, ◌<◌, ◌≡◌, refl, Option, none, some, List, [], ◌∷◌, arith, get_or, set,
  length, ==_refl, get_or-set, length-set, lt→ltb, ◌∙◌,
}
use unix_v.Files.{
  File, Files, done, no_file, nofile, file_at, at_fd, share_all, one_more, sys_fcntl, fcntl_on,
  f_setfl, f_getfl, Command, getf, has_bit, flag_value,
}
use unix_v.Files.Refs.{refs}
use unix_v.Files.Counting.{IsCounted}

length-share_all : (l : List (Option ℕ)) (fs : List File) → length (share_all l fs) ≡ length fs
unfolding share_all
length-share_all [] fs = refl
length-share_all (none ∷ l) fs = length-share_all l fs
length-share_all (some k ∷ l) fs =
    length-share_all l (set fs k (one_more (get_or fs k no_file)))
    ∙ length-set fs k (one_more (get_or fs k no_file))

-- Every file counts one more for each of the descriptors that refer to it.
count-share_all :
    (l : List (Option ℕ)) (fs : List File) (k : ℕ)
    → ((i j : ℕ) → get_or l i none ≡ some j → j < length fs)
    → (get_or fs k no_file).count + refs k l < 256
    → (get_or (share_all l fs) k no_file).count ≡ (get_or fs k no_file).count + refs k l
unfolding share_all
count-share_all [] fs k inside room = omega arith
count-share_all (none ∷ l) fs k inside room =
    omega (arith, count-share_all l fs k (λ i. inside (suc i)) (omega arith))
count-share_all (some j ∷ l) fs k inside room =
    let fs' = set fs j (one_more (get_or fs j no_file)) in
    let at_k = get_or-set fs j k (one_more (get_or fs j no_file)) no_file (inside 0 j refl) in
    ground (
      arith,
      at_k,
      count-share_all l fs' k (λ i j' e.
          omega (arith, inside (suc i) j' e, length-set fs j (one_more (get_or fs j no_file)))),
    )

-- After `newproc` has shared the files, every count includes the child's descriptors, if twice
-- the parent's references and those of the other processes stay within 127 for every file.
pub share_all-IsCounted :
    (outside : ℕ → ℕ) (s : Files)
    → IsCounted outside s
    → ((k : ℕ) → 2 * refs k s.ofile + outside k ≤ 127)
    → IsCounted (λ k. outside k + refs k s.ofile) (record s { file = share_all s.ofile s.file })
share_all-IsCounted outside s v room = record {
  fds = v.fds;
  in_table = λ i k e. omega (arith, v.in_table i k e, length-share_all s.ofile s.file);
  counted = λ k lt. at k (omega (arith, length-share_all s.ofile s.file));
  small = λ k lt. omega (arith, at k (omega (arith, length-share_all s.ofile s.file)), room k);
}
  where
    at :
        (k : ℕ)
        → k < length s.file
        → (get_or (share_all s.ofile s.file) k no_file).count
          ≡ refs k s.ofile + (outside k + refs k s.ofile)
    at k lt = omega (
      arith,
      v.counted k lt,
      room k,
      count-share_all s.ofile s.file k v.in_table (omega (arith, v.counted k lt, room k)),
    )

fcntl-open :
    (s : Files) (fd k arg : ℕ) (cmd : Command)
    → fd < nofile
    → at_fd s fd ≡ some k
    → sys_fcntl fd cmd arg s ≡ fcntl_on cmd fd arg k s
unfolding sys_fcntl getf
fcntl-open s fd k arg cmd h o = rw (lt→ltb fd nofile h, o, sys_fcntl, getf)

-- the entry of `file[k]` after F_SETFL
abbrev with_bits : Files → ℕ → ℕ → File
with_bits s k arg =
    let f = file_at s k in
    let g = record (f.flag) { fappend = has_bit 8 arg; fnonblock = has_bit 4 arg } in
    record f { flag = g }

-- On an open descriptor of a well-formed table, F_GETFL after F_SETFL gives the append and
-- non-blocking bits that were set, and no others.
pub getfl-setfl :
    (outside : ℕ → ℕ) (s : Files) (fd k arg : ℕ)
    → IsCounted outside s
    → fd < nofile
    → at_fd s fd ≡ some k
    → let s' = (sys_fcntl fd f_setfl arg s).1 in
      sys_fcntl fd f_getfl 0 s'
      ≡ (done, record s' { eax = flag_value (has_bit 8 arg) 8 + flag_value (has_bit 4 arg) 4 })
unfolding fcntl_on
getfl-setfl outside s fd k arg v h o = rw (fcntl-open s fd k arg f_setfl h o) (
    rw (fcntl-open (record s { file = set s.file k (with_bits s k arg) }) fd k 0 f_getfl h o)
      (rw (get_or-set s.file k k (with_bits s k arg) no_file (v.in_table fd k o), ==_refl k)))
