-- ===== src/Heap/Malloc.antt =====
-- `malloc` of userland/Libraries/libc/src/stdlib.c.
use unix_v.Common.{
  ℕ, ◌+◌, ◌/◌, ◌%◌, ◌^◌, ◌<◌, ◌≤◌, ◌≡◌, ◌≢◌, refl, ◌∙◌, ap, sym, subst, arith, Bool, true, false,
  ◌&&◌, ◌==◌, if◌then◌else◌, leb, Option, none, some, List, [], ◌∷◌, ◌++◌, if_true, if_false,
  Bool-cases, inl, inr, ◌⊎◌,
}
use unix_v.Heap.{
  Segments, break_of, sbrk, HeapBlock, Heap, ptr_of, find_free_block, granted, ask_kernel,
  request_space, malloc,
}
use unix_v.Heap.Space.{IsFitting, IsLaid, IsHeap, SbrkOutcome, sbrk-SbrkOutcome, sbrk-zero}

-- the pointer has a block in use of at least this size
unfoldable pub IsLive : (p size : ℕ) → List HeapBlock → Type 0
IsLive p size [] = ⊥
IsLive p size (b ∷ l) = ((ptr_of b ≡ p) × (b.free ≡ false) × (size ≤ b.size)) ⊎ IsLive p size l

-- two ranges of bytes do not overlap
abbrev pub IsApart : (p n q m : ℕ) → Type 0
IsApart p n q m = (q + m ≤ p) ⊎ (p + n ≤ q)

-- no free block is large enough
unfoldable pub IsShort : (size : ℕ) → List HeapBlock → Type 0
IsShort size [] = Unit {0}
IsShort size (b ∷ l) = (b.free ≡ true → b.size < size) × IsShort size l

-- What `malloc` of a size may come to.
unfoldable pub MallocOutcome : (size : ℕ) → Heap → Option ℕ × Heap → Type 0
MallocOutcome size h (none, h') =
    (h' ≡ h)
    × ((size ≡ 0)
        ⊎ IsShort size h.blocks
          × (h.seg.maxmem < (break_of h.seg + size + 12 + 63) / 64 + h.seg.ssize + 64))
MallocOutcome size h (some p, h') =
    IsHeap h'
    × (h'.byte ≡ h.byte)
    × IsLive p size h'.blocks
    × ((q m : ℕ) → IsLive q m h.blocks → IsLive q m h'.blocks × IsApart p size q m)

IsLaid-below : (from to : ℕ) (l : List HeapBlock) → IsLaid from l to → from ≤ to
unfolding IsLaid
IsLaid-below from to [] laid = laid
IsLaid-below from to (b ∷ l) (above, laid) =
    omega (arith, above, IsLaid-below (b.addr + 12 + b.size) to l laid)

pub IsLive-inside :
    (from to q m : ℕ) (l : List HeapBlock)
    → IsLaid from l to
    → IsLive q m l
    → (from + 12 ≤ q) × (q + m ≤ to)
unfolding IsLaid IsLive
IsLive-inside from to q m [] laid live = absurd live
IsLive-inside from to q m (b ∷ l) (above, laid) (inl (at, used, fits)) =
    let below = IsLaid-below (b.addr + 12 + b.size) to l laid in
    (omega (arith, at, above), omega (arith, at, fits, below))
IsLive-inside from to q m (b ∷ l) (above, laid) (inr live) =
    let (x, y) = IsLive-inside (b.addr + 12 + b.size) to q m l laid live in
    (omega (arith, x, above), y)

-- what the search for a free block comes to
FindOutcome : (size from to : ℕ) → List HeapBlock → Option (ℕ × List HeapBlock) → Type 0
FindOutcome size from to l none = IsShort size l
FindOutcome size from to l (some (p, l')) =
    IsLaid from l' to
    × IsLive p size l'
    × ((q m : ℕ) → IsLive q m l → IsLive q m l' × IsApart p size q m)

find_free_block-finds :
    (size from to : ℕ) (l : List HeapBlock)
    → IsLaid from l to
    → FindOutcome size from to l (find_free_block size l)
unfolding find_free_block FindOutcome IsLaid IsLive IsShort
find_free_block-finds size from to [] laid = tt
find_free_block-finds size from to (b ∷ l) (above, laid) =
    by_fit (b.free && leb size b.size) refl (find_free_block size l)
      (find_free_block-finds size (b.addr + 12 + b.size) to l laid)
  where
    by_fit :
        (w : Bool)
        → (b.free && leb size b.size) ≡ w
        → (o : Option (ℕ × List HeapBlock)) → FindOutcome size (b.addr + 12 + b.size) to l o
        → FindOutcome size from to (b ∷ l) (
            if w
            then some (ptr_of b, record b { free = false } ∷ l)
            else elim o as (λ _. Option (ℕ × List HeapBlock)) [
              | none ↦ none
              | some (p, l') ↦ some (p, b ∷ l')
            ])
    by_fit true e o found = (
      (above, laid),
      inl (refl, refl, ground (arith, e)),
      λ q m live. elim live [
        | inl (at, used, fits) ↦ absurd (ground (arith, e, used))
        | inr l' ↦
            let (x, _) = IsLive-inside (b.addr + 12 + b.size) to q m l laid l' in
            (inr l', inr (ground (arith, e, x)))
      ],
    )
    by_fit false e none short = (λ f. ground (arith, e, f), short)
    by_fit false e (some (p, l')) (laid', live', keeps) =
        let (x, _) = IsLive-inside (b.addr + 12 + b.size) to p size l' laid' live' in
        (
          (above, laid'),
          inr live',
          λ q m live. elim live [
            | inl (at, used, fits) ↦ (inl (at, used, fits), inl (omega (arith, at, fits, x)))
            | inr l'' ↦ let (k, apart) = keeps q m l'' in (inr k, apart)
          ],
        )

-- a block behind the others
append-IsLaid :
    (from mid to : ℕ) (l : List HeapBlock) (b : HeapBlock)
    → IsLaid from l mid
    → mid ≤ b.addr
    → b.addr + 12 + b.size ≤ to
    → IsLaid from (l ++ b ∷ []) to
unfolding IsLaid
append-IsLaid from mid to [] b laid behind room = (omega (arith, laid, behind), room)
append-IsLaid from mid to (c ∷ l) b (above, laid) behind room =
    (above, append-IsLaid (c.addr + 12 + c.size) mid to l b laid behind room)

append-IsLive :
    (q m : ℕ) (l : List HeapBlock) (b : HeapBlock) → IsLive q m l → IsLive q m (l ++ b ∷ [])
unfolding IsLive
append-IsLive q m [] b live = absurd live
append-IsLive q m (c ∷ l) b (inl here) = inl here
append-IsLive q m (c ∷ l) b (inr live) = inr (append-IsLive q m l b live)

last-IsLive :
    (l : List HeapBlock) (b : HeapBlock) → b.free ≡ false → IsLive (ptr_of b) b.size (l ++ b ∷ [])
unfolding IsLive
last-IsLive [] b used = inl (refl, used, omega arith)
last-IsLive (c ∷ l) b used = inr (last-IsLive l b used)

-- the heap with a new block at the end of the data
abbrev grown : (size : ℕ) → Heap → Segments → Heap
grown size h s' = record h {
  blocks = h.blocks ++ record { addr = break_of h.seg; size = size; free = false } ∷ [];
  seg = s';
}

granted-Outcome :
    (size : ℕ) (h : Heap)
    → size + 12 < 2 ^ 31
    → IsHeap h
    → IsShort size h.blocks
    → size ≢ 0
    → (r : Option ℕ × Segments) → SbrkOutcome (size + 12) h.seg r
    → MallocOutcome size h (granted size (break_of h.seg) h r)
unfolding MallocOutcome IsHeap SbrkOutcome IsFitting
granted-Outcome size h small (fits, laid) short some_size (none, s') (same, full) =
    (ap (λ s. record h { seg = s }) same, inr (short, omega (arith, full)))
granted-Outcome size h small (fits, laid) short some_size (some old, s')
      (at, fits', most, stack, room, _) =
    let new : HeapBlock = record { addr = break_of h.seg; size = size; free = false } in
    let p : (break_of h.seg + 12) % 2 ^ 32 ≡ ptr_of new = omega (arith, fits) in
    let up : break_of h.seg + 12 + size ≤ break_of s' = omega (arith, room) in
    (
      (fits', append-IsLaid 0 (break_of h.seg) (break_of s') h.blocks new laid (omega arith) up),
      refl,
      subst (λ p. IsLive p size (h.blocks ++ new ∷ [])) (sym p) (last-IsLive h.blocks new refl),
      λ q m live.
          let (_, below) = IsLive-inside 0 (break_of h.seg) q m h.blocks laid live in
          (append-IsLive q m h.blocks new live, inl (omega (arith, below, p))),
    )

-- malloc of a size below 2 ^ 31 - 12, where the blocks of the heap lie one behind the other below the
-- end of the data, and the segments fit into memory: it gives memory of this size that overlaps none
-- in use, which all stays in use as it was, and the heap is well laid out again. It returns NULL
-- only for the size 0, or where no free block is large enough and the memory is too small, and then
-- nothing has changed.
pub malloc-MallocOutcome :
    (size : ℕ) (h : Heap) → size + 12 < 2 ^ 31 → IsHeap h → MallocOutcome size h (malloc size h)
unfolding malloc MallocOutcome IsHeap request_space FindOutcome
malloc-MallocOutcome size h small (fits, laid) = elim (Bool-cases (size == 0)) [
  | inl z ↦
      subst (MallocOutcome size h) (sym (if_true (size == 0) _ _ z)) (refl, inl (ground (arith, z)))
  | inr nz ↦ subst (MallocOutcome size h) (sym (if_false (size == 0) _ _ nz)) (
      by_found (ground (arith, nz)) (find_free_block size h.blocks)
        (find_free_block-finds size 0 (break_of h.seg) h.blocks laid))
]
  where
    by_found :
        size ≢ 0
        → (o : Option (ℕ × List HeapBlock)) → FindOutcome size 0 (break_of h.seg) h.blocks o
        → MallocOutcome size h (elim o as (λ _. Option ℕ × Heap) [
          | none ↦ request_space size h
          | some (p, l) ↦ (some p, record h { blocks = l })
        ])
    by_found some_size none short =
        let word : (size + 12) % 2 ^ 32 ≡ size + 12 = omega (arith, small) in
        subst (MallocOutcome size h)
          (sym (
            ap (ask_kernel size h) (sbrk-zero h.seg fits)
            ∙ ap (λ k. granted size (break_of h.seg) h (sbrk k h.seg)) word))
          (granted-Outcome size h small (fits, laid) short some_size (sbrk (size + 12) h.seg)
            (sbrk-SbrkOutcome (size + 12) h.seg small fits))
    by_found some_size (some (p, l)) (laid', live, keeps) = ((fits, laid'), refl, live, keeps)
