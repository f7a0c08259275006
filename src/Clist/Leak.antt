-- ===== src/Clist/Leak.antt =====
-- `getc` and `putc` of kernel/tty.c on an empty list, and on the list of free blocks.
use unix_v.Common.{
  ℕ, zero, suc, ◌+◌, ◌*◌, ◌%◌, ◌^◌, ◌<◌, ◌≤◌, ◌≡◌, ◌≢◌, refl, ap, arith, false, ◌==◌, none, some,
  List, [], ◌∷◌, length, if_true, if_false, ◌⊎◌, inr,
}
use unix_v.Clist.{
  Cblocks, Clist, empty_clist, store_byte, c_next, set_next, info, getc, putc, cinit_from,
  cinit_blocks,
}

-- the block overlaps none of the list
unfoldable pub IsApart : ℕ → List ℕ → Type 0
IsApart a [] = Unit {0}
IsApart a (b ∷ l) = ((a + 12 ≤ b) ⊎ (b + 12 ≤ a)) × IsApart a l

-- The free blocks are those of the list, from the pointer on; each of them has an address other
-- than NULL, and they do not overlap.
unfoldable pub IsFreeList : ℕ → (ℕ → ℕ) → List ℕ → Type 0
IsFreeList a f [] = a ≡ 0
IsFreeList a f (b ∷ l) = (a ≡ b) × (a ≢ 0) × IsApart a l × IsFreeList (c_next a f) f l

-- a byte in the information of a block leaves the links of the others
c_next-store_byte :
    (a j v : ℕ) (f : ℕ → ℕ) → (j < a) ⊎ (a + 4 ≤ j) → c_next a (store_byte j v f) ≡ c_next a f
unfolding c_next
c_next-store_byte a j v f away = ground (arith, away)

-- the links of free blocks stay, where none of them has the byte
IsFreeList-store_byte :
    (a j v : ℕ) (f : ℕ → ℕ) (b : ℕ) (l : List ℕ)
    → (b ≤ j) × (j < b + 12)
    → IsApart b l
    → IsFreeList a f l
    → IsFreeList a (store_byte j v f) l
unfolding IsFreeList IsApart
IsFreeList-store_byte a j v f b [] at apart free = free
IsFreeList-store_byte a j v f b (c ∷ l) at (away, apart) (here, some_block, lone, free) = (
  here,
  some_block,
  lone,
  rw (c_next-store_byte a j v f (ground (arith, at, away, here)))
      (IsFreeList-store_byte (c_next a f) j v f b l at apart free),
)

-- Where a list is empty and there are free blocks: putc of a character and getc give the character
-- back and leave the list empty, and the first of the free blocks is free no more; only one byte of
-- it has changed.
pub getc-putc :
    (c b : ℕ) (m : Cblocks) (l : List ℕ)
    → IsFreeList m.cfreelist m.byte (b ∷ l)
    → (p : Clist) × (m' : Cblocks) × (putc c empty_clist m ≡ some (p, m'))
      × (getc p m' ≡ (some (c % 256), empty_clist, m'))
      × IsFreeList m'.cfreelist m'.byte l
      × ((j : ℕ) → j ≢ info b → m'.byte j ≡ m.byte j)
unfolding putc getc IsFreeList
getc-putc c b m l (here, some_block, apart, free) =
    let bp = m.cfreelist in
    let no : bp == 0 ≡ false = ground (arith, some_block) in
    let f = store_byte (info bp) c m.byte in
    let m' : Cblocks = record { byte = f; cfreelist = c_next bp m.byte } in
    (
      record { cc = 1; cf = info bp; cl = info bp + 1 },
      m',
      if_false (bp == 0) _ _ no,
      ap (λ k. (some k, empty_clist, m')) (ground arith),
      IsFreeList-store_byte (c_next bp m.byte) (info bp) c m.byte bp l (omega arith) apart free,
      λ j away. ground (arith, away, here),
    )

-- each character is put on an empty list, if that succeeds, and taken off again
unfoldable pub echoed : List ℕ → Cblocks → Cblocks
echoed [] m = m
echoed (c ∷ l) m =
    echoed l
      (elim (putc c empty_clist m) as (λ _. Cblocks) [ none ↦ m | some (p, m') ↦ (getc p m').2 ])

pub putc-none : (c : ℕ) (p : Clist) (m : Cblocks) → m.cfreelist ≡ 0 → putc c p m ≡ none
unfolding putc
putc-none c p m e = if_true (m.cfreelist == 0) _ _ (ground (arith, e))

echoed-none : (l : List ℕ) (m : Cblocks) → m.cfreelist ≡ 0 → (echoed l m).cfreelist ≡ 0
unfolding echoed
echoed-none [] m e = e
echoed-none (c ∷ l) m e = rw (echoed, putc-none c empty_clist m e) (echoed-none l m e)

echoed-uses_up :
    (cs : List ℕ) (m : Cblocks) (l : List ℕ)
    → IsFreeList m.cfreelist m.byte l
    → length l ≤ length cs
    → (echoed cs m).cfreelist ≡ 0
unfolding echoed IsFreeList
echoed-uses_up cs m [] free few = echoed-none cs m free
echoed-uses_up [] m (b ∷ l) free few = absurd (omega (arith, few))
echoed-uses_up (c ∷ cs) m (b ∷ l) free few =
    let (p, m', put, got, rest, _) = getc-putc c b m l free in
    rw (echoed, put, got) (echoed-uses_up cs m' l rest (omega (arith, few)))

-- every block of the list is below the address
unfoldable pub IsBelow : ℕ → List ℕ → Type 0
IsBelow a [] = Unit {0}
IsBelow a (b ∷ l) = (b + 12 ≤ a) × IsBelow a l

IsBelow-IsApart : (a : ℕ) (l : List ℕ) → IsBelow a l → IsApart a l
unfolding IsBelow IsApart
IsBelow-IsApart a [] h = tt
IsBelow-IsApart a (b ∷ l) (h, below) = (inr h, IsBelow-IsApart a l below)

IsBelow-more : (a a' : ℕ) (l : List ℕ) → a ≤ a' → IsBelow a l → IsBelow a' l
unfolding IsBelow
IsBelow-more a a' [] le h = tt
IsBelow-more a a' (b ∷ l) le (h, below) = (omega (arith, h, le), IsBelow-more a a' l le below)

c_next-set_next : (a v : ℕ) (f : ℕ → ℕ) → v < 2 ^ 32 → c_next a (set_next a v f) ≡ v
unfolding c_next set_next
c_next-set_next a v f h = ground (arith, h)

c_next-set_other : (a b v : ℕ) (f : ℕ → ℕ) → b + 12 ≤ a → c_next b (set_next a v f) ≡ c_next b f
unfolding c_next set_next
c_next-set_other a b v f h = ground (arith, h)

-- a link above all free blocks
IsFreeList-set_next :
    (a c v : ℕ) (f : ℕ → ℕ) (l : List ℕ)
    → IsBelow a l
    → IsFreeList c f l
    → IsFreeList c (set_next a v f) l
unfolding IsBelow IsFreeList
IsFreeList-set_next a c v f [] below free = free
IsFreeList-set_next a c v f (b ∷ l) (h, below) (here, some_block, apart, free) = (
  here,
  some_block,
  apart,
  rw (c_next-set_other a c v f (ground (arith, h, here)))
      (IsFreeList-set_next a (c_next c f) v f l below free),
)

cinit_from-IsFreeList :
    (cfree n i : ℕ) (m : Cblocks) (l : List ℕ)
    → cfree ≢ 0
    → cfree + 12 * (i + n) < 2 ^ 32
    → m.cfreelist < 2 ^ 32
    → IsBelow (cfree + 12 * i) l
    → IsFreeList m.cfreelist m.byte l
    → (l' : List ℕ) × (length l' ≡ length l + n)
      × IsFreeList (cinit_from cfree n i m).cfreelist (cinit_from cfree n i m).byte l'
unfolding cinit_from IsFreeList IsBelow
cinit_from-IsFreeList cfree zero i m l array fits small below free = (l, omega arith, free)
cinit_from-IsFreeList cfree (suc n) i m l array fits small below free =
    let cp = cfree + 12 * i in
    let f = set_next cp m.cfreelist m.byte in
    let (l', len, free') =
      cinit_from-IsFreeList cfree n (suc i) (record { byte = f; cfreelist = cp }) (cp ∷ l) array
        (omega (arith, fits)) (omega (arith, fits))
        (omega arith, IsBelow-more cp (cfree + 12 * suc i) l (omega arith) below)
        (
          refl,
          omega (arith, array),
          IsBelow-IsApart cp l below,
          rw (c_next-set_next cp m.cfreelist m.byte small)
              (IsFreeList-set_next cp m.cfreelist m.cfreelist m.byte l below free),
        ) in
    (l', omega (arith, len), free')

-- After cinit, once 100 characters have each been put on an empty list and taken off again, no block
-- is free although all lists are empty, and putc fails for every character and list.
pub putc-echoed :
    (cfree : ℕ) (m : Cblocks) (cs : List ℕ) (c : ℕ) (p : Clist)
    → cfree ≢ 0
    → cfree + 1200 < 2 ^ 32
    → 100 ≤ length cs
    → putc c p (echoed cs (cinit_blocks cfree m)) ≡ none
unfolding cinit_blocks IsBelow IsFreeList
putc-echoed cfree m cs c p array fits many =
    let (l, len, free) =
      cinit_from-IsFreeList cfree 100 0 (record m { cfreelist = 0 }) [] array (omega (arith, fits))
        (omega arith) tt refl in
    let none_left = echoed-uses_up cs (cinit_blocks cfree m) l free (omega (arith, len, many)) in
    putc-none c p (echoed cs (cinit_blocks cfree m)) none_left
