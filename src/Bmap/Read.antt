-- ===== src/Bmap/Read.antt =====
-- `bmap` of kernel/fs/iget.c on a read.
use unix_v.Common.{
  ℕ, ◌-◌, ◌/◌, ◌%◌, ◌≤◌, ◌<◌, ◌≡◌, ◌≢◌, refl, arith, Bool, true, false, ltb, leb, ◌==◌,
  if◌then◌else◌, ◌⊎◌, inl, inr, Bool-cases,
}
use unix_v.Alloc.{Volume}
use unix_v.Bmap.{
  Inode, Mapped, mapped, unmapped, beyond, waits, bmap_word, bmap_double, bmap_indirect, bmap_large,
  bmap_direct, bmap,
}
use unix_v.Bmap.Tree.{reach, lookup}

-- What `bmap` comes to on a read of the logical block `bn` that has the block `x`, or none if `x`
-- is 0.
unfoldable pub ReadOutcome : (bn x : ℕ) → Inode → Volume → Mapped → Type 0
ReadOutcome bn x ip v (mapped y ip' v') = (bn < reach) × (y ≡ x) × (ip' ≡ ip) × (v' ≡ v)
ReadOutcome bn x ip v (unmapped ip' v') =
    (x ≡ 0) × (ip' ≡ ip) × (v' ≡ v) × ((bn < reach) ⊎ ((ip.large ≡ false) ⊎ (ip.addr 7 ≡ 0)))
ReadOutcome bn x ip v beyond = (reach ≤ bn) × (ip.large ≡ true) × (ip.addr 7 ≢ 0)
ReadOutcome bn x ip v waits = ⊥

module _ (ip : Inode) (v : Volume) (bn x : ℕ) (here : lookup ip v.block bn ≡ x) where
  Good : Mapped → Type 0
  unfolding ReadOutcome
  Good = ReadOutcome bn x ip v

  read_word : (nb i : ℕ) → bn < reach → v.block nb i ≡ x → Good (bmap_word false nb i ip v)
  unfolding bmap_word Good ReadOutcome
  read_word nb i inside e = elim (Bool-cases (v.block nb i == 0)) [
    | inl z ↦ rw z (inside, e, refl, refl)
    | inr z ↦ rw z (inside, e, refl, refl)
  ]

  read_double :
      ip.large ≡ true
      → 896 ≤ bn
      → ip.addr 7 ≢ 0
      → Good (bmap_double false (ip.addr 7) (bn - 896) ip v)
  unfolding bmap_double Good ReadOutcome lookup
  read_double large high nz =
      let m = v.block (ip.addr 7) ((bn - 896) / 128) in
      elim (Bool-cases (leb 128 ((bn - 896) / 128))) [
        | inl past ↦ rw past (ground (arith, past), large, nz)
        | inr inside ↦ elim (Bool-cases (m == 0)) [
          | inl e ↦
              rw (inside, e)
                (ground (arith, here, large, high, e), refl, refl, inl (ground (arith, inside)))
          | inr e ↦
              rw (inside, e)
                (read_word m ((bn - 896) % 128) (ground (arith, inside))
                  (ground (arith, here, large, high, nz, e)))
        ]
      ]

  read_large : ip.large ≡ true → Good (bmap_large false bn ip v)
  unfolding bmap_large bmap_indirect Good ReadOutcome lookup
  read_large large = elim (Bool-cases (ltb bn 896)) [
    | inl low ↦ elim (Bool-cases (ip.addr (bn / 128) == 0)) [
      | inl e ↦
          rw (low, e) (ground (arith, here, large, low, e), refl, refl, inl (ground (arith, low)))
      | inr e ↦
          rw (low, e)
            (read_word (ip.addr (bn / 128)) (bn % 128) (ground (arith, low))
              (ground (arith, here, large, low, e)))
    ]
    | inr high ↦ elim (Bool-cases (ip.addr 7 == 0)) [
      | inl e ↦
          rw (high, e)
            (ground (arith, here, large, high, e), refl, refl, inr (inr (ground (arith, e))))
      | inr e ↦ rw (high, e) (read_double large (ground (arith, high)) (ground (arith, e)))
    ]
  ]

  read_direct : ip.large ≡ false → bn < 8 → Good (bmap_direct false bn ip v)
  unfolding bmap_direct Good ReadOutcome lookup
  read_direct small low = elim (Bool-cases (ip.addr bn == 0)) [
    | inl e ↦ rw e (omega arith, ground (arith, here, small, low), refl, refl)
    | inr e ↦ rw e (omega arith, ground (arith, here, small, low), refl, refl)
  ]

  read_any : Good (bmap false bn ip v)
  unfolding bmap Good ReadOutcome lookup
  read_any = by_size ip.large (ltb bn 8) refl refl
    where
      by_size :
          (large low : Bool)
          → ip.large ≡ large
          → ltb bn 8 ≡ low
          → Good (
              if large
              then bmap_large false bn ip v
              else if low
              then bmap_direct false bn ip v
              else unmapped ip v)
      by_size true low large _ = read_large large
      by_size false true small low = read_direct small (ground (arith, low))
      by_size false false small high =
          (ground (arith, here, small, high), refl, refl, inr (inl small))

-- bmap on a read: a block number is that of the block that has the logical block, or 0 where there
-- is none, and comes only for a logical block below 17280; -1 comes only where there is none. It
-- never waits, and leaves the inode and the volume as they were. From logical block 17280 on it
-- goes beyond the buffer of the double indirect block in a large file that has this
-- block, and only there.
pub bmap-ReadOutcome :
    (ip : Inode) (v : Volume) (bn : ℕ)
    → ReadOutcome bn (lookup ip v.block bn) ip v (bmap false bn ip v)
unfolding Good
bmap-ReadOutcome ip v bn = read_any ip v bn (lookup ip v.block bn) refl
