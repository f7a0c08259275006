-- ===== src/Bmap/Write.antt =====
-- `bmap` of kernel/fs/iget.c on a write.
use unix_v.Common.{
  ℕ, leb, ◌-◌, ◌/◌, ◌%◌, ◌≤◌, ◌<◌, ◌≡◌, ◌≢◌, refl, sym, ap, subst, fun_ext, ◌∙◌, arith, Bool, true,
  false, List, ltb, ◌==◌, if◌then◌else◌, inl, inr, Bool-cases,
}
use unix_v.Alloc.{Filsys, store_slot, Volume}
use unix_v.Bmap.{
  Inode, cleared, store_word, Mapped, mapped, bmap_word, bmap_double, bmap_indirect, slot_of,
  bmap_large, enlarged, moved, bmap_direct, bmap,
}
use unix_v.Bmap.Tree.{
  Blocks, reach, lookup, IsFresh, clear, store, Extends, slot-Extends, word-Extends,
  enlarged-Extends,
}
use unix_v.Bmap.Steps.{Fills, direct-Fills, single-Fills, double-Fills}
use unix_v.Bmap.Pool.{Pool}
use unix_v.Bmap.Apart.{IsApart-extend, IsApart-enlarge}
use unix_v.Bmap.Outcome.{Holds, WriteOutcome, took, with_block-Outcome, filled, kept}

module _ (base : ℕ → ℕ) (bn : ℕ) (inside : bn < reach) where
  bmap_word-Outcome :
      (nb i : ℕ) (ip : Inode) (v : Volume) (l : List ℕ)
      → Holds base ip v l
      → lookup ip v.block bn ≡ v.block nb i
      → ((b : ℕ)
          → IsFresh b ip v.block
          → v.block nb i ≡ 0
          → Fills b bn ip v.block ip (store nb i b (clear b v.block)))
      → WriteOutcome base bn l (bmap_word true nb i ip v)
  unfolding bmap_word WriteOutcome Holds
  bmap_word-Outcome nb i ip v l holds here fills = elim (Bool-cases (v.block nb i == 0)) [
    | inl e ↦
        let z : v.block nb i ≡ 0 = ground (arith, e) in
        let hole = sym (holds.1 bn inside) ∙ here ∙ z in
        rw e (
          with_block-Outcome base bn inside ip v l (λ b w. mapped b ip (store_word nb i b w)) holds
            hole
            (λ b l' fs fresh away apart pool.
              filled base bn inside ip ip v (store nb i b (clear b v.block)) b l' fs holds.1 hole
                fresh away apart pool (fills b fresh z)))
    | inr full ↦ rw full (kept base bn inside _ ip v l holds here (ground (arith, full)))
  ]

  -- through the block under a word of the double indirect block
  bmap_leaf-Outcome :
      (m : ℕ) (ip : Inode) (v : Volume) (l : List ℕ)
      → Holds base ip v l
      → 896 ≤ bn
      → ip.large ≡ true
      → ip.addr 7 ≢ 0
      → v.block (ip.addr 7) ((bn - 896) / 128) ≡ m
      → m ≢ 0
      → WriteOutcome base bn l (bmap_word true m ((bn - 896) % 128) ip v)
  unfolding Holds Pool lookup
  bmap_leaf-Outcome m ip v l holds high large some_slot e nz =
      subst (λ m. WriteOutcome base bn l (bmap_word true m ((bn - 896) % 128) ip v)) e
        (bmap_word-Outcome (v.block (ip.addr 7) ((bn - 896) / 128)) ((bn - 896) % 128) ip v l holds
          (ground arith)
          (λ b fresh hole.
            double-Fills ip v.block holds.0.0 b fresh bn inside high large some_slot (ground arith)
              hole))

  bmap_double-Outcome :
      (ip : Inode) (v : Volume) (l : List ℕ)
      → Holds base ip v l
      → 896 ≤ bn
      → ip.large ≡ true
      → ip.addr 7 ≢ 0
      → WriteOutcome base bn l (bmap_double true (ip.addr 7) (bn - 896) ip v)
  unfolding Holds Pool Extends bmap_double IsFresh lookup
  bmap_double-Outcome ip v l holds high large nz =
      let k = (bn - 896) / 128 in
      let some_word : leb 128 k ≡ false = ground arith in
      elim (Bool-cases (v.block (ip.addr 7) k == 0)) [
        | inl e ↦
            let hole : base bn ≡ 0 = ground (arith, holds.1 bn inside, e, high, large, nz) in
            rw (some_word, e)
              (with_block-Outcome base bn inside ip v l
                (λ b w. bmap_word true b ((bn - 896) % 128) ip (store_word (ip.addr 7) k b w)) holds
                hole
                (λ b l' fs fresh away apart pool.
                  let block' = store (ip.addr 7) k b (clear b v.block) in
                  let (tree, same, old) =
                    word-Extends ip v.block holds.0.0 b fresh k (omega arith) large nz
                      (ground (arith, e)) in
                  took base bn inside b l' _ hole (
                    bmap_leaf-Outcome b ip (record { fs = fs; block = block' }) l'
                      (
                        pool ip block' tree old,
                        λ n r. same n r ∙ holds.1 n r,
                        IsApart-extend base ip v.block b l' apart ip block' large old,
                      )
                      high large nz (ground arith) fresh.0)))
        | inr full ↦
            rw (some_word, full)
              (bmap_leaf-Outcome (v.block (ip.addr 7) k) ip v l holds high large nz refl
                (ground (arith, full)))
      ]

  bmap_indirect-Outcome :
      (nb : ℕ) (ip : Inode) (v : Volume) (l : List ℕ)
      → Holds base ip v l
      → ip.large ≡ true
      → ip.addr (slot_of bn) ≡ nb
      → nb ≢ 0
      → WriteOutcome base bn l (bmap_indirect true bn nb ip v)
  unfolding Holds Pool bmap_indirect lookup
  bmap_indirect-Outcome nb ip v l holds large e nz =
      subst (λ nb. WriteOutcome base bn l (bmap_indirect true bn nb ip v)) e
        (elim (Bool-cases (ltb bn 896)) [
          | inl low ↦
              let j : slot_of bn ≡ bn / 128 = rw low refl in
              rw low (
                bmap_word-Outcome (ip.addr (bn / 128)) (bn % 128) ip v l holds
                  (ground (arith, low, large, nz, e))
                  (λ b fresh.
                    subst
                      (λ j.
                        v.block (ip.addr j) (bn % 128) ≡ 0
                        → Fills b bn ip v.block ip
                            (store (ip.addr j) (bn % 128) b (clear b v.block)))
                      j
                      (single-Fills ip v.block holds.0.0 b fresh bn inside (ground (arith, low))
                        large (ground (arith, nz, e)))))
          | inr high ↦ rw high (
              bmap_double-Outcome ip v l holds (ground (arith, high)) large
                (ground (arith, high, nz, e)))
        ])

  bmap_large-Outcome :
      (ip : Inode) (v : Volume) (l : List ℕ)
      → Holds base ip v l
      → ip.large ≡ true
      → WriteOutcome base bn l (bmap_large true bn ip v)
  unfolding Holds Pool Extends bmap_large IsFresh lookup
  bmap_large-Outcome ip v l holds large =
      let j = slot_of bn in
      elim (Bool-cases (ip.addr j == 0)) [
        | inl e ↦
            let hole : base bn ≡ 0 = ground (arith, holds.1 bn inside, e, large) in
            rw e (
              with_block-Outcome base bn inside ip v l
                (λ b w. bmap_indirect true bn b (record ip { addr = store_slot ip.addr j b }) w)
                holds hole
                (λ b l' fs fresh away apart pool.
                  let ip' = record ip { addr = store_slot ip.addr j b } in
                  let (tree, same, old) =
                    slot-Extends ip v.block holds.0.0 b fresh j (ground arith) large
                      (ground (arith, e)) in
                  took base bn inside b l' _ hole (
                    bmap_indirect-Outcome b ip' (record { fs = fs; block = clear b v.block }) l'
                      (
                        pool ip' (clear b v.block) tree old,
                        λ n r. same n r ∙ holds.1 n r,
                        IsApart-extend base ip v.block b l' apart ip' (clear b v.block) large old,
                      )
                      large (ground arith) fresh.0)))
        | inr full ↦
            rw full
              (bmap_indirect-Outcome (ip.addr j) ip v l holds large refl (ground (arith, full)))
      ]

  bmap_direct-Outcome :
      (ip : Inode) (v : Volume) (l : List ℕ)
      → Holds base ip v l
      → ip.large ≡ false
      → bn < 8
      → WriteOutcome base bn l (bmap_direct true bn ip v)
  unfolding Holds Pool bmap_direct lookup WriteOutcome
  bmap_direct-Outcome ip v l holds small low =
      let here : lookup ip v.block bn ≡ ip.addr bn = ground (arith, small, low) in
      elim (Bool-cases (ip.addr bn == 0)) [
        | inl e ↦
            let z : ip.addr bn ≡ 0 = ground (arith, e) in
            let hole = sym (holds.1 bn inside) ∙ here ∙ z in
            rw e (
              with_block-Outcome base bn inside ip v l
                (λ b w. mapped b (record ip { addr = store_slot ip.addr bn b }) w) holds hole
                (λ b l' fs fresh away apart pool.
                  filled base bn inside ip (record ip { addr = store_slot ip.addr bn b }) v
                    (clear b v.block) b l' fs holds.1 hole fresh away apart pool
                    (direct-Fills ip v.block holds.0.0 b fresh bn inside small low z)))
        | inr full ↦ rw full (kept base bn inside _ ip v l holds here (ground (arith, full)))
      ]

  -- the block of the addresses was clear
  moved_eq :
      (b : ℕ) (ip : Inode) (v : Volume) (fs : Filsys)
      → record {
        fs = fs;
        block = λ x. if x == b then (λ i. if ltb i 8 then ip.addr i else 0) else v.block x;
      }
        ≡ moved b ip (cleared b (record v { fs = fs }))
  moved_eq b ip v fs =
      ap (λ f. record { fs = fs; block = f }) (fun_ext (λ x. fun_ext (λ i. ground arith)))

  if_Outcome :
      (l : List ℕ) (c : Bool) (x y : Mapped)
      → (c ≡ true → WriteOutcome base bn l x)
      → (c ≡ false → WriteOutcome base bn l y)
      → WriteOutcome base bn l (if c then x else y)
  if_Outcome l true _ _ f g = f refl
  if_Outcome l false _ _ f g = g refl

  -- bmap on a write, for a logical block that the inode can reach, of a file in an unlocked file
  -- system with valid free blocks, where no block is under two logical blocks, twice in the map of
  -- the file or twice in the free list, and the blocks under logical blocks, those of the map and the
  -- free ones are apart: it gives the block of the logical block, if it has one, and then the free blocks stay; or, if it
  -- has none, one of the blocks that were free, also where the file becomes large. Then the blocks
  -- behind that one are free, the other logical blocks have the blocks they had, and the blocks are
  -- apart as before. It fails only where the logical block has none and no block is free afterwards,
  -- and then every logical block has the block it had.
  pub bmap-WriteOutcome :
      (ip : Inode) (v : Volume) (l : List ℕ)
      → Holds base ip v l
      → WriteOutcome base bn l (bmap true bn ip v)
  unfolding Holds Pool Extends bmap IsFresh lookup
  bmap-WriteOutcome ip v l holds =
      if_Outcome l ip.large _ _ (bmap_large-Outcome ip v l holds) (λ small.
        if_Outcome l (ltb bn 8) _ _
          (λ low. bmap_direct-Outcome ip v l holds small (ground (arith, low)))
          (λ high.
            let hole : base bn ≡ 0 = ground (arith, holds.1 bn inside, small, high) in
            with_block-Outcome base bn inside ip v l
              (λ b w. bmap_large true bn (enlarged b ip) (moved b ip w)) holds hole
              (λ b l' fs fresh away apart pool.
                let (tree, same, old) = enlarged-Extends ip v.block holds.0.0 b fresh small in
                let block' : Blocks =
                  λ x. if x == b then (λ i. if ltb i 8 then ip.addr i else 0) else v.block x in
                took base bn inside b l' _ hole (
                  subst (λ w. WriteOutcome base bn l' (bmap_large true bn (enlarged b ip) w))
                    (moved_eq b ip v fs)
                    (bmap_large-Outcome (enlarged b ip) (record { fs = fs; block = block' }) l'
                      (
                        pool (enlarged b ip) block' tree old,
                        λ n r. same n r ∙ holds.1 n r,
                        IsApart-enlarge base ip v.block b l' apart block',
                      )
                      refl)))))
