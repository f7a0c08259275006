-- ===== src/Heap/Free.antt =====
-- `free` and `realloc` of userland/Libraries/libc/src/stdlib.c.
use unix_v.Common.{
  ℕ, zero, suc, ◌+◌, ◌-◌, ◌^◌, ◌<◌, ◌≤◌, ◌≡◌, ◌≢◌, refl, ◌∙◌, ap, sym, subst, arith, true, false,
  ◌&&◌, ◌==◌, if◌then◌else◌, leb, ltb, Option, none, some, List, [], ◌∷◌, if_true, if_false,
  Bool-cases, inl, inr,
}
use unix_v.Heap.{break_of, HeapBlock, Heap, ptr_of, malloc, free, free_from, size_of, copy, realloc}
use unix_v.Heap.Space.{IsLaid, IsHeap}
use unix_v.Heap.Malloc.{
  IsLive, IsApart, IsShort, MallocOutcome, malloc-MallocOutcome, IsLive-inside,
}

free_from-IsLaid :
    (p from to : ℕ) (l : List HeapBlock) → IsLaid from l to → IsLaid from (free_from p l) to
unfolding free_from IsLaid
free_from-IsLaid p from to [] laid = laid
free_from-IsLaid p from to (b ∷ l) (above, laid) = elim (Bool-cases (ptr_of b == p)) [
  | inl e ↦ rw (free_from, e) (above, laid)
  | inr e ↦ rw (free_from, e) (above, free_from-IsLaid p (b.addr + 12 + b.size) to l laid)
]

-- what else is in use stays
free_from-IsLive :
    (p q m : ℕ) (l : List HeapBlock) → q ≢ p → IsLive q m l → IsLive q m (free_from p l)
unfolding free_from IsLive
free_from-IsLive p q m [] other live = live
free_from-IsLive p q m (b ∷ l) other live = elim (Bool-cases (ptr_of b == p)) [
  | inl e ↦
      rw (free_from, e)
        (elim live [ inl (at, _, _) ↦ absurd (ground (arith, e, at, other)) | inr l' ↦ inr l' ])
  | inr e ↦
      rw (free_from, e)
        (elim live [ inl here ↦ inl here | inr l' ↦ inr (free_from-IsLive p q m l other l') ])
]

free_from-here :
    (p : ℕ) (b : HeapBlock) (l : List HeapBlock)
    → ptr_of b == p ≡ true
    → free_from p (b ∷ l) ≡ record b { free = true } ∷ l
unfolding free_from
free_from-here p b l e = if_true (ptr_of b == p) _ _ e

free_from-away :
    (p : ℕ) (b : HeapBlock) (l : List HeapBlock)
    → ptr_of b == p ≡ false
    → free_from p (b ∷ l) ≡ b ∷ free_from p l
unfolding free_from
free_from-away p b l e = if_false (ptr_of b == p) _ _ e

-- the block that was freed is large enough for as much as it was
free_from-fits :
    (p n m from to : ℕ) (l : List HeapBlock)
    → IsLaid from l to
    → IsLive p n l
    → m ≤ n
    → IsShort m (free_from p l)
    → ⊥
unfolding free_from IsLive IsLaid IsShort
free_from-fits p n m from to [] laid live le short = live
free_from-fits p n m from to (b ∷ l) (above, laid) live le short =
    elim (Bool-cases (ptr_of b == p)) [
      | inl e ↦
          let (large, _) = subst (IsShort m) (free_from-here p b l e) short in
          elim live [
            | inl (at, used, fits) ↦ omega (arith, large refl, fits, le)
            | inr l' ↦
                let (x, _) = IsLive-inside (b.addr + 12 + b.size) to p n l laid l' in
                ground (arith, e, x)
          ]
      | inr e ↦
          let (_, rest) = subst (IsShort m) (free_from-away p b l e) short in
          elim live [
            | inl (at, _, _) ↦ ground (arith, e, at)
            | inr l' ↦ free_from-fits p n m (b.addr + 12 + b.size) to l laid l' le rest
          ]
    ]

free-IsHeap : (p : ℕ) (h : Heap) → IsHeap h → IsHeap (free (some p) h)
unfolding free IsHeap
free-IsHeap p h (fits, laid) = (fits, free_from-IsLaid p 0 (break_of h.seg) h.blocks laid)

-- the outcome is not NULL
unfoldable pub IsGiven : Option ℕ × Heap → Type 0
IsGiven (none, h) = ⊥
IsGiven (some p, h) = Unit {0}

-- In a heap that is well laid out: after memory in use has been freed, malloc of no larger a size, but
-- 0, does not return NULL.
pub malloc-free :
    (p n m : ℕ) (h : Heap)
    → IsHeap h
    → IsLive p n h.blocks
    → m ≢ 0
    → m ≤ n
    → m + 12 < 2 ^ 31
    → IsGiven (malloc m (free (some p) h))
unfolding free IsHeap MallocOutcome IsGiven
malloc-free p n m h (fits, laid) live some_size le small =
    by_outcome (malloc m (free (some p) h))
      (malloc-MallocOutcome m (free (some p) h) small (free-IsHeap p h (fits, laid)))
  where
    by_outcome : (r : Option ℕ × Heap) → MallocOutcome m (free (some p) h) r → IsGiven r
    by_outcome (none, h') (_, inl zero_size) = absurd (some_size zero_size)
    by_outcome (none, h') (_, inr (short, _)) =
        free_from-fits p n m 0 (break_of h.seg) h.blocks laid live le short
    by_outcome (some q, h') given = tt

size_of-IsLive :
    (p n from to : ℕ) (l : List HeapBlock)
    → IsLaid from l to
    → IsLive p n l
    → (n ≤ size_of p l) × IsLive p (size_of p l) l
unfolding size_of IsLive IsLaid
size_of-IsLive p n from to [] laid live = absurd live
size_of-IsLive p n from to (b ∷ l) (above, laid) live = elim (Bool-cases (ptr_of b == p)) [
  | inl e ↦ elim live [
    | inl (at, used, fits) ↦ rw (size_of, e) (fits, inl (at, used, omega arith))
    | inr l' ↦
        let (x, _) = IsLive-inside (b.addr + 12 + b.size) to p n l laid l' in
        absurd (ground (arith, e, x))
  ]
  | inr e ↦ elim live [
    | inl (at, _, _) ↦ absurd (ground (arith, e, at))
    | inr l' ↦
        let (le, k) = size_of-IsLive p n (b.addr + 12 + b.size) to l laid l' in
        subst (λ k. (n ≤ k) × IsLive p k (b ∷ l)) (sym (if_false (ptr_of b == p) _ _ e)) (le, inr k)
  ]
]

copy-at :
    (n from to : ℕ) (f : ℕ → ℕ) (j : ℕ)
    → IsApart to n from n
    → copy n from to f j ≡ (if leb to j && ltb j (to + n) then f (from + (j - to)) else f j)
unfolding copy
copy-at zero from to f j apart = ground arith
copy-at (suc n) from to f j apart =
    let g : ℕ → ℕ = λ j. if j == to then f from else f j in
    ground (arith, copy-at n (from + 1) (to + 1) g j (ground (arith, apart)), apart)

-- What `realloc` of memory in use to a size may come to.
unfoldable pub ReallocOutcome : (p n size : ℕ) → Heap → Option ℕ × Heap → Type 0
ReallocOutcome p n size h (none, h') = h' ≡ h
ReallocOutcome p n size h (some q, h') =
    IsHeap h'
    × IsLive q size h'.blocks
    × ((i : ℕ) → i < n → i < size → h'.byte (q + i) ≡ h.byte (p + i))
    × ((r m : ℕ)
        → r ≢ p
        → IsLive r m h.blocks
        → IsLive r m h'.blocks × ((i : ℕ) → i < m → h'.byte (r + i) ≡ h.byte (r + i)))

IsLive-less : (p n m : ℕ) (l : List HeapBlock) → m ≤ n → IsLive p n l → IsLive p m l
unfolding IsLive
IsLive-less p n m [] le live = live
IsLive-less p n m (b ∷ l) le (inl (at, used, fits)) = inl (at, used, omega (arith, fits, le))
IsLive-less p n m (b ∷ l) le (inr live) = inr (IsLive-less p n m l le live)

-- the heap after the bytes were copied and the old memory was freed
abbrev moved : (p old q : ℕ) → Heap → Heap
moved p old q h = free (some p) (record h { byte = copy old p q h.byte })

moved-Outcome :
    (p n size : ℕ) (h : Heap)
    → n ≢ 0
    → n ≤ size_of p h.blocks
    → size_of p h.blocks < size
    → IsLive p (size_of p h.blocks) h.blocks
    → (r : Option ℕ × Heap) → MallocOutcome size h r
    → size ≢ 0
    → ReallocOutcome p n size h (elim r.0 as (λ _. Option ℕ × Heap) [
      | none ↦ (none, r.1)
      | some q ↦ (some q, moved p (size_of p h.blocks) q r.1)
    ])
unfolding MallocOutcome ReallocOutcome free IsHeap
moved-Outcome p n size h some_old le grows live (none, h') (same, _) some_size = same
moved-Outcome p n size h some_old le grows live (some q, h') ((fits, laid), same, live', keeps)
      some_size =
    let old = size_of p h.blocks in
    let (_, apart) = keeps p old live in
    let ne : q ≢ p = ground (arith, apart, le, grows, some_old) in
    let apart' : IsApart q old p old = ground (arith, apart, grows) in
    (
      (fits, free_from-IsLaid p 0 (break_of h'.seg) h'.blocks laid),
      free_from-IsLive p q size h'.blocks ne live',
      λ i a b.
          let back : p + (q + i - q) ≡ p + i = omega arith in
          copy-at old p q h'.byte (q + i) apart'
          ∙ if_true (leb q (q + i) && ltb (q + i) (q + old)) _ _ (ground (arith, a, le))
          ∙ ap h'.byte back
          ∙ ap (λ f. f (p + i)) same,
      λ r m other l.
          let (l', away) = keeps r m l in
          (
            free_from-IsLive p r m h'.blocks other l',
            λ i a.
                copy-at old p q h'.byte (r + i) apart'
                ∙ if_false (leb q (r + i) && ltb (r + i) (q + old)) _ _
                    (ground (arith, away, grows, a))
                ∙ ap (λ f. f (r + i)) same,
          ),
    )

-- realloc of memory in use, of a size other than 0, to a size other than 0 and below 2 ^ 31 - 12, in a
-- heap that is well laid out: it gives memory of the new size, which begins with the bytes that the
-- old memory held, as many as both have; all other memory in use stays, with its bytes, and the heap is
-- well laid out again. Or it returns NULL, and nothing has changed.
pub realloc-ReallocOutcome :
    (p n size : ℕ) (h : Heap)
    → IsHeap h
    → IsLive p n h.blocks
    → n ≢ 0
    → size ≢ 0
    → size + 12 < 2 ^ 31
    → ReallocOutcome p n size h (realloc (some p) size h)
unfolding realloc ReallocOutcome IsHeap
realloc-ReallocOutcome p n size h (fits, laid) live some_old some_size small =
    let (le, whole) = size_of-IsLive p n 0 (break_of h.seg) h.blocks laid live in
    subst (ReallocOutcome p n size h) (sym (if_false (size == 0) _ _ (ground (arith, some_size))))
      (elim (Bool-cases (leb size (size_of p h.blocks))) [
        | inl e ↦ subst (ReallocOutcome p n size h) (sym (if_true _ _ _ e)) (
          (fits, laid),
          IsLive-less p (size_of p h.blocks) size h.blocks (ground (arith, e)) whole,
          λ i a b. refl,
          λ r m other l. (l, λ i a. refl),
        )
        | inr e ↦ subst (ReallocOutcome p n size h) (sym (if_false _ _ _ e)) (
            moved-Outcome p n size h some_old le (ground (arith, e)) whole (malloc size h)
              (malloc-MallocOutcome size h small (fits, laid)) some_size)
      ])
