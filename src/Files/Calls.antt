-- ===== src/Files/Calls.antt =====
-- The calls of kernel/sys.c that move descriptors, and those of kernel/fs/fio.c under them.
use unix_v.Common.{
  ℕ, ◌+◌, ◌<◌, ◌≡◌, refl, none, some, arith, get_or, set, length, ◌==◌, if◌then◌else◌, get_or-set,
  length-set, Option-cases, inl, inr, ltb, Bool-cases, false, ◌⊎◌, ltb→lt, lt→ltb, ◌∙◌,
}
use unix_v.Files.{
  Files, no_file, nofile, file_at, at_fd, getf, falloc, first_null, first_unused, dup_from, dup,
  share, point, clear_flags, sysclose, sys_dup2, dup2_onto, InodeOps, emfile, ebadf, enfile,
  one_more, one_less, opened,
}
use unix_v.Files.Refs.{refs, refs-pos}
use unix_v.Files.Find.{first_null-found, first_unused-found}
use unix_v.Files.Counting.{IsCounted, IsCounted-move}

module _ (outside : ℕ → ℕ) (s : Files) (v : IsCounted outside s) where
  -- One more descriptor, which was not open, for an open file.
  share-IsCounted :
      (fd k : ℕ)
      → fd < nofile
      → at_fd s fd ≡ none
      → k < length s.file
      → (file_at s k).count < 127
      → IsCounted outside (share s fd k)
  unfolding share
  share-IsCounted fd k h shut inside room =
      IsCounted-move outside s _ v fd (some k) h refl (length-set s.file k _) (λ j e. ground arith)
        (λ j lt. ground (arith, get_or-set s.file k j (one_more (file_at s k)) no_file, v.small j))
        (λ j lt. ground (arith, get_or-set s.file k j (one_more (file_at s k)) no_file))

  flags-IsCounted : (fd : ℕ) → IsCounted outside (clear_flags s fd)
  flags-IsCounted fd = record {
    fds = v.fds;
    in_table = v.in_table;
    counted = v.counted;
    small = v.small;
  }

  error-IsCounted : (e x : ℕ) → IsCounted outside (record s { error = e; eax = x })
  error-IsCounted e x = record {
    fds = v.fds;
    in_table = v.in_table;
    counted = v.counted;
    small = v.small;
  }

  free_fd : (i : ℕ) → first_null 0 s.ofile ≡ some i → (i < nofile) × (at_fd s i ≡ none)
  free_fd i e = let (j, p, b, g, less) = first_null-found s.ofile 0 i e in ground (arith, v.fds)

  unused_entry :
      (k : ℕ) → first_unused 0 s.file ≡ some k → (k < length s.file) × ((file_at s k).count ≡ 0)
  unused_entry k e = let (j, p, b, g) = first_unused-found s.file 0 k e in ground arith

  opened-IsCounted :
      (i k : ℕ)
      → i < nofile
      → at_fd s i ≡ none
      → k < length s.file
      → (file_at s k).count ≡ 0
      → IsCounted outside (point s i k (opened (file_at s k)))
  opened-IsCounted i k h shut inside unused =
      IsCounted-move outside s _ v i (some k) h refl (length-set s.file k _) (λ j e. ground arith)
        (λ j lt. ground (arith, get_or-set s.file k j (opened (file_at s k)) no_file, v.small j))
        (λ j lt. ground (arith, get_or-set s.file k j (opened (file_at s k)) no_file))

  -- `falloc` keeps every reference count right, whether it finds a place or not.
  pub falloc-IsCounted : IsCounted outside (falloc s).1
  unfolding falloc
  falloc-IsCounted = elim (Option-cases (first_null 0 s.ofile)) [
    | inl full ↦ rw (full, falloc) (error-IsCounted emfile s.eax)
    | inr (i, e) ↦ elim (Option-cases (first_unused 0 s.file)) [
      | inl used ↦ rw (e, used, falloc) (error-IsCounted enfile s.eax)
      | inr (k, d) ↦
          let (h, shut) = free_fd i e in
          let (inside, unused) = unused_entry k d in
          let w = opened-IsCounted i k h shut inside unused in
          rw (e, d, falloc)
            (record { fds = w.fds; in_table = w.in_table; counted = w.counted; small = w.small })
    ]
  ]

  dup_from-IsCounted :
      (k : ℕ) → k < length s.file → (file_at s k).count < 127 → IsCounted outside (dup_from 0 k s).1
  unfolding dup_from
  dup_from-IsCounted k inside room = elim (Option-cases (first_null 0 s.ofile)) [
    | inl full ↦ rw (full, dup_from) (error-IsCounted emfile s.eax)
    | inr (i, e) ↦
        let (h, shut) = free_fd i e in
        let w = share-IsCounted i k h shut inside room in
        rw (e, dup_from)
          (record { fds = w.fds; in_table = w.in_table; counted = w.counted; small = w.small })
  ]

-- `getf` finds the file of an open descriptor, and sets EBADF for any other.
getf-cases :
    (fd : ℕ) (s : Files)
    → ((k : ℕ) × (fd < nofile) × (at_fd s fd ≡ some k) × (getf fd s ≡ (some k, s)))
      ⊎ (getf fd s ≡ (none, record s { error = ebadf }))
unfolding getf
getf-cases fd s = elim (Bool-cases (ltb fd nofile)) [
  | inr past ↦ inr (rw past)
  | inl low ↦ elim (Option-cases (at_fd s fd)) [
    | inl shut ↦ inr (rw (low, shut))
    | inr (k, e) ↦ inl (k, ltb→lt _ _ low, e, rw (low, e))
  ]
]

-- If the file of `fd` has room for one more reference, `dup` keeps every reference count right.
pub dup-IsCounted :
    (outside : ℕ → ℕ) (s : Files) (fd : ℕ)
    → IsCounted outside s
    → ((k : ℕ) → at_fd s fd ≡ some k → (file_at s k).count < 127)
    → IsCounted outside (dup fd s).1
unfolding dup
dup-IsCounted outside s fd v room = elim (getf-cases fd s) [
  | inr e ↦ rw (e, dup) (error-IsCounted outside s v ebadf s.eax)
  | inl (k, h, o, e) ↦ rw (e, dup) (dup_from-IsCounted outside s v k (v.in_table fd k o) (room k o))
]

module _ (ops : InodeOps) (i : ops.State) (outside : ℕ → ℕ) (s : Files)
    (v : IsCounted outside s) where
  -- A descriptor that is open makes the count of its file positive.
  open_count : (fd k : ℕ) → at_fd s fd ≡ some k → (k < length s.file) × (0 < (file_at s k).count)
  open_count fd k o =
      (v.in_table fd k o, ground (arith, v.counted k, v.in_table fd k o, refs-pos k s.ofile fd o))

  -- `sysclose` keeps every reference count right, whatever the inode layer does.
  pub sysclose-IsCounted : (fd : ℕ) → IsCounted outside (sysclose ops fd (s, i)).1
  unfolding sysclose
  sysclose-IsCounted fd = elim (getf-cases fd s) [
    | inr e ↦ rw (e, sysclose) (error-IsCounted outside s v ebadf s.eax)
    | inl (k, h, o, e) ↦
        rw (e, sysclose)
          (IsCounted-move outside s _ v fd none h refl (length-set s.file k _) (λ j p. cc)
            (λ j lt. ground (
              arith,
              get_or-set s.file k j (one_less (file_at s k)) no_file,
              v.small j,
              open_count fd k o,
            ))
            (λ j lt. ground (
              arith,
              get_or-set s.file k j (one_less (file_at s k)) no_file,
              v.small k,
              open_count fd k o,
            )))
  ]

  -- Closing an open descriptor calls `closei` on the file's inode exactly if no other descriptor
  -- of any process refers to the file.
  pub sysclose-closei :
      (fd k : ℕ)
      → fd < nofile
      → at_fd s fd ≡ some k
      → (file_at s k).flag.fpipe ≡ false
      → (sysclose ops fd (s, i)).2 ≡ (
          if refs k s.ofile + outside k == 1
          then ops.closei (file_at s k).inode (file_at s k).flag.fwrite i
          else i)
  unfolding sysclose getf
  sysclose-closei fd k h o p =
      rw (lt→ltb fd nofile h, o, sysclose, getf, p)
        (ground (arith, v.counted k, v.small k, open_count fd k o))

  dup2_onto-IsCounted :
      (new k : ℕ)
      → new < nofile
      → k < length s.file
      → (file_at s k).count < 127
      → IsCounted outside (dup2_onto ops new k (s, i)).1
  unfolding dup2_onto share
  dup2_onto-IsCounted new k h inside room = elim (Option-cases (at_fd s new)) [
    | inl shut ↦
        let w = share-IsCounted outside s v new k h shut inside room in
        rw (shut, dup2_onto)
          (record { fds = w.fds; in_table = w.in_table; counted = w.counted; small = w.small })
    | inr (j, o) ↦
        let less = set s.file j (one_less (file_at s j)) in
        rw (o, dup2_onto)
          (IsCounted-move outside s _ v new (some k) h refl
            (length-set less k _ ∙ length-set s.file j _) (λ x e. ground arith)
            (λ x lt. ground (
              arith,
              get_or-set s.file j x (one_less (file_at s j)) no_file,
              get_or-set s.file j k (one_less (file_at s j)) no_file,
              get_or-set less k x (one_more (get_or less k no_file)) no_file,
              length-set s.file j (one_less (file_at s j)),
              v.small x,
              v.small j,
              open_count new j o,
            ))
            (λ x lt. ground (
              arith,
              get_or-set s.file j x (one_less (file_at s j)) no_file,
              get_or-set s.file j k (one_less (file_at s j)) no_file,
              get_or-set less k x (one_more (get_or less k no_file)) no_file,
              length-set s.file j (one_less (file_at s j)),
              v.small x,
              v.small j,
              open_count new j o,
            )))
  ]

  -- `sys_dup2` keeps every reference count right if the file of the old descriptor has room for
  -- one more reference; also where the new descriptor was open and is closed first.
  pub sys_dup2-IsCounted :
      (old new : ℕ)
      → ((k : ℕ) → at_fd s old ≡ some k → (file_at s k).count < 127)
      → IsCounted outside (sys_dup2 ops old new (s, i)).1
  unfolding sys_dup2
  sys_dup2-IsCounted old new room = elim (Bool-cases (ltb new nofile)) [
    | inr past ↦ rw (past, sys_dup2) (error-IsCounted outside s v ebadf s.eax)
    | inl low ↦ elim (getf-cases old s) [
      | inr e ↦ rw (low, e, sys_dup2) (error-IsCounted outside s v ebadf s.eax)
      | inl (k, h, o, e) ↦ elim (Bool-cases (old == new)) [
        | inl same ↦ rw (low, e, sys_dup2, same) (error-IsCounted outside s v s.error new)
        | inr other ↦
            rw (low, e, sys_dup2, other)
              (dup2_onto-IsCounted new k (ltb→lt _ _ low) (v.in_table old k o) (room k o))
      ]
    ]
  ]
