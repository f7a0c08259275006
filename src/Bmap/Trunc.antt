-- ===== src/Bmap/Trunc.antt =====
-- `itrunc` of kernel/fs/iget.c.
use mathlib.Core.Option.{bind}
use unix_v.Common.{
  ℕ, zero, suc, ◌≤◌, ◌<◌, ◌≡◌, refl, sym, ap, subst, ◌∙◌, arith, Bool, true, false, Option, some,
  List, [], ◌∷◌, ◌++◌, ◌==◌, if◌then◌else◌, inl, inr, Bool-cases, append_assoc, append-nil,
}
use unix_v.Alloc.{Slots, store_slot, Filsys, Volume, bfree_in}
use unix_v.Alloc.Chain.{Absent, Has}
use unix_v.Bmap.{Inode, free_under, free_slot, itrunc_from, itrunc}
use unix_v.Bmap.Tree.{Blocks, reach, lookup}
use unix_v.Bmap.Free.{
  Releasable, IsReleasing, Releases, Releasable-append, bfree-Releases, with_words,
  free_under-Releases,
}

abbrev one : ℕ → List ℕ
one b = b ∷ []

-- the block of a slot, with those under it
abbrev pub slot_blocks : Blocks → (large : Bool) → (i nb : ℕ) → List ℕ
slot_blocks block large i nb =
    if large
    then (if i == 7 then with_words (with_words one block) block nb else with_words one block nb)
    else one nb

-- The blocks of the first `n` slots, the indirect blocks and the blocks of the file, each indirect
-- block before those under it.
abbrev pub file_blocks : Blocks → (large : Bool) → Slots → (n : ℕ) → List ℕ
file_blocks block large addr zero = []
file_blocks block large addr (suc i) =
    file_blocks block large addr i
    ++ (if addr i == 0 then [] else slot_blocks block large i (addr i))

file_blocks_agree :
    (block : Blocks) (large : Bool) (a b : Slots) (n : ℕ)
    → ((j : ℕ) → j < n → a j ≡ b j)
    → file_blocks block large a n ≡ file_blocks block large b n
file_blocks_agree block large a b zero same = refl
file_blocks_agree block large a b (suc i) same =
    let e = same i (omega arith) in
    let r = file_blocks_agree block large a b i (λ j h. same j (omega arith)) in
    ap (λ m. m ++ (if a i == 0 then [] else slot_blocks block large i (a i))) r
    ∙ ap (λ x. file_blocks block large b i ++ (if x == 0 then [] else slot_blocks block large i x))
        e

store_slot-ne : (a : Slots) (i j : ℕ) → suc i ≤ j → store_slot a i 0 j ≡ a j
store_slot-ne a i j h = ground arith

store_slot-lt : (a : Slots) (i j : ℕ) → j < i → store_slot a i 0 j ≡ a j
store_slot-lt a i j h = ground arith

-- the slots below the next one are clear, where that one was clear, and where it has been cleared
cleared_below :
    (i j : ℕ) (b a : Slots)
    → ((j : ℕ) → j < i → b j ≡ 0)
    → ((j : ℕ) → i ≤ j → b j ≡ a j)
    → a i == 0 ≡ true
    → j < suc i
    → b j ≡ 0
cleared_below i j b a below above e h = elim (Bool-cases (j == i)) [
  | inl same ↦ ground (arith, above j, e, same)
  | inr less ↦ below j (ground (arith, less, h))
]

cut_below :
    (i j : ℕ) (b a : Slots)
    → ((j : ℕ) → j < i → b j ≡ 0)
    → ((j : ℕ) → i ≤ j → b j ≡ store_slot a i 0 j)
    → j < suc i
    → b j ≡ 0
cut_below i j b a below above h = elim (Bool-cases (j == i)) [
  | inl same ↦ ground (arith, above j, same)
  | inr less ↦ below j (ground (arith, less, h))
]

module _ (fs : Filsys) (block : Blocks) where
  single_Releases :
      (x : ℕ) (l : List ℕ) (v : Volume)
      → Releasable fs (with_words one block x) l
      → IsReleasing fs block l v
      → Releases fs block (with_words one block x) l (free_under bfree_in x v)
  single_Releases x l v good s =
      free_under-Releases fs block bfree_in one
        (λ x l v g s. bfree-Releases fs block x l v g.0 g.2 s) x l v good s

  free_slot-Releases :
      (large : Bool) (i nb : ℕ) (l : List ℕ) (v : Volume)
      → Releasable fs (slot_blocks block large i nb) l
      → IsReleasing fs block l v
      → Releases fs block (slot_blocks block large i nb) l (free_slot large i nb v)
  unfolding free_slot
  free_slot-Releases false i nb l v good s = bfree-Releases fs block nb l v good.0 good.2 s
  free_slot-Releases true i nb l v good s = by_slot (i == 7) good
    where
      by_slot :
          (b : Bool)
          → Releasable fs
              (if b then with_words (with_words one block) block nb else with_words one block nb)
              l
          → Releases fs block
              (if b then with_words (with_words one block) block nb else with_words one block nb)
              l
              (if b then free_under (free_under bfree_in) nb v else free_under bfree_in nb v)
      by_slot true g =
          free_under-Releases fs block (free_under bfree_in) (with_words one block) single_Releases
            nb l v g s
      by_slot false g = single_Releases nb l v g s

  -- What the loop over the slots below `n` comes to.
  unfoldable Emptied : (n : ℕ) → Inode → List ℕ → Option (Inode × Volume) → Type 0
  Emptied n ip l o =
      (ip' : Inode) × (w : Volume) × (o ≡ some (ip', w))
      × IsReleasing fs block (file_blocks block ip.large ip.addr n ++ l) w
      × ((j : ℕ) → j < n → ip'.addr j ≡ 0)
      × ((j : ℕ) → n ≤ j → ip'.addr j ≡ ip.addr j)

  itrunc_from-Emptied :
      (n : ℕ) (ip : Inode) (l : List ℕ) (v : Volume)
      → Releasable fs (file_blocks block ip.large ip.addr n) l
      → IsReleasing fs block l v
      → Emptied n ip l (itrunc_from n ip v)
  unfolding Emptied itrunc_from Releases bind
  itrunc_from-Emptied zero ip l v good s =
      (ip, v, refl, s, λ j h. absurd (omega arith), λ j h. refl)
  itrunc_from-Emptied (suc i) ip l v good s =
      by_slot (ip.addr i == 0) refl good (λ ip l v g s. itrunc_from-Emptied i ip l v g s)
    where
      rest : List ℕ
      rest = file_blocks block ip.large ip.addr i

      cut : Inode
      cut = record ip { addr = store_slot ip.addr i 0 }

      by_slot :
          (b : Bool)
          → ip.addr i == 0 ≡ b
          → Releasable fs (rest ++ (if b then [] else slot_blocks block ip.large i (ip.addr i))) l
          → ((ip : Inode) (l : List ℕ) (v : Volume)
              → Releasable fs (file_blocks block ip.large ip.addr i) l
              → IsReleasing fs block l v
              → Emptied i ip l (itrunc_from i ip v))
          → (ip' : Inode) × (w : Volume) × ((if b
                then itrunc_from i ip v
                else bind (free_slot ip.large i (ip.addr i) v) (itrunc_from i cut))
              ≡ some (ip', w))
            × IsReleasing fs block
                ((rest ++ (if b then [] else slot_blocks block ip.large i (ip.addr i))) ++ l)
                w
            × ((j : ℕ) → j < suc i → ip'.addr j ≡ 0)
            × ((j : ℕ) → suc i ≤ j → ip'.addr j ≡ ip.addr j)
      by_slot true e good' ih =
          let (ip', w, r, s', below, above) =
            ih ip l v (Releasable-append fs rest [] l good').1 s in
          (
            ip',
            w,
            r,
            subst (λ m. IsReleasing fs block (m ++ l) w) (sym (append-nil rest)) s',
            λ j h. cleared_below i j ip'.addr ip.addr below above e h,
            λ j h. above j (omega arith),
          )
      by_slot false e good' ih =
          let mine = slot_blocks block ip.large i (ip.addr i) in
          let (first, others) = Releasable-append fs rest mine l good' in
          let (u, r, s') = free_slot-Releases ip.large i (ip.addr i) l v first s in
          let same : file_blocks block ip.large cut.addr i ≡ rest =
            file_blocks_agree block ip.large cut.addr ip.addr i
              (λ j h. store_slot-lt ip.addr i j h) in
          let (ip', w, r', s'', below, above) =
            ih cut (mine ++ l) u (subst (λ m. Releasable fs m (mine ++ l)) (sym same) others) s' in
          (
            ip',
            w,
            ap (λ o. bind o (itrunc_from i cut)) r ∙ r',
            subst (λ m. IsReleasing fs block m w)
                (ap (λ m. m ++ (mine ++ l)) same ∙ sym (append_assoc rest mine l)) s'',
            λ j h. cut_below i j ip'.addr ip.addr below above h,
            λ j h. above j (omega arith) ∙ store_slot-ne ip.addr i j h,
          )

-- itrunc of a file that is not a device, on an unlocked file system with the free blocks `l`, where
-- the blocks of the file, indirect blocks among them, are valid, each of them once, and not free:
-- it ends, all of them are free afterwards, before those that were, every logical block is a hole
-- and the size is 0; and what is neither in the file nor free holds what it held.
pub itrunc-Has :
    (ip : Inode) (v : Volume) (l : List ℕ)
    → ip.device ≡ false
    → v.fs.flock ≡ false
    → Has v l
    → Releasable v.fs (file_blocks v.block ip.large ip.addr 8) l
    → (ip' : Inode) × (w : Volume) × (itrunc ip v ≡ some (ip', w))
      × Has w (file_blocks v.block ip.large ip.addr 8 ++ l)
      × ((n : ℕ) → n < reach → lookup ip' w.block n ≡ 0)
      × (ip'.size ≡ 0)
      × ((y : ℕ) → Absent y (file_blocks v.block ip.large ip.addr 8 ++ l) → w.block y ≡ v.block y)
unfolding itrunc bind IsReleasing Emptied lookup
itrunc-Has ip v l file open' has good =
    let (ip', w, r, s, below, _) =
      itrunc_from-Emptied v.fs v.block 8 ip l v good (has, open', refl, refl, λ y a. refl) in
    (
      record ip' { large = false; size = 0 },
      w,
      not_device ip v file ∙ ap (λ o. bind o emptied) r,
      s.0,
      λ n h. ground (arith, below n),
      refl,
      s.4,
    )
  where
    emptied : Inode × Volume → Option (Inode × Volume)
    emptied r = some (record (r.0) { large = false; size = 0 }, r.1)

    not_device :
        (ip : Inode) (v : Volume)
        → ip.device ≡ false
        → itrunc ip v ≡ bind (itrunc_from 8 ip v) emptied
    not_device ip v e = by_device ip.device e (some (ip, v)) (bind (itrunc_from 8 ip v) emptied)
      where
        by_device :
            (b : Bool) → b ≡ false → (x y : Option (Inode × Volume)) → (if b then x else y) ≡ y
        by_device false e x y = refl
        by_device true e x y = ground (arith, e)
