-- ===== src/Heap/Tests.antt =====
-- A heap with a block in use and a free one: runs and the theorems at it.
use unix_v.Common.{
  ℕ, ◌+◌, ◌^◌, ◌-◌, ◌≡◌, refl, none, some, Option, [], ◌∷◌, true, false, inl, arith,
}
use unix_v.Heap.{
  Segments, Heap, break_of, sys_sbrk, sys_brk, resize, malloc, calloc, clear_bytes, realloc, free,
  free_from, find_free_block, request_space, size_of, copy,
}
use unix_v.Heap.Space.{IsFitting, IsLaid, IsHeap}
use unix_v.Heap.Malloc.{IsLive, MallocOutcome, malloc-MallocOutcome}
use unix_v.Heap.Free.{IsGiven, malloc-free, ReallocOutcome, realloc-ReallocOutcome}

abbrev segments : Segments
segments = record { tsize = 16; dsize = 4; ssize = 32; maxmem = 2048 }

-- the data end at 1280
abbrev heap : Heap
heap = record {
  blocks =
      record { addr = 1024; size = 20; free = false }
      ∷ record { addr = 1088; size = 40; free = true }
      ∷ [];
  seg = segments;
  byte = λ j. j;
}

abbrev pointer : Option ℕ × Heap → ℕ
pointer (none, h) = 0
pointer (some p, h) = p

abbrev after : Option ℕ × Heap → Heap
after (_, h) = h

run_malloc-free : pointer (malloc 30 heap) ≡ 1100
unfolding malloc find_free_block
run_malloc-free = refl

run_malloc-new : pointer (malloc 50 heap) ≡ 1292
unfolding malloc find_free_block request_space sys_sbrk resize
run_malloc-new = refl

run_realloc : (after (realloc (some 1036) 30 heap)).byte 1103 ≡ 1039
unfolding realloc size_of copy free free_from malloc find_free_block
run_realloc = refl

-- sbrk takes a size from 2 ^ 31 - 12 on as a negative number, and the data shrink
run_malloc-huge : break_of (after (malloc (2 ^ 32 - 76) heap)).seg ≡ 1216
unfolding malloc find_free_block request_space sys_sbrk resize
run_malloc-huge = refl

-- the product of 2 ^ 31 + 4 and 2 comes out as 8
run_calloc-short : pointer (calloc (2 ^ 31 + 4) 2 heap) ≡ 1100
unfolding calloc malloc find_free_block clear_bytes
run_calloc-short = refl

run_sys_brk : (sys_brk 2000 segments).1.dsize ≡ 16
unfolding sys_brk resize
run_sys_brk = refl

segments-IsFitting : IsFitting segments
unfolding IsFitting
segments-IsFitting = (omega arith, omega arith)

heap-IsHeap : IsHeap heap
unfolding IsHeap IsLaid
heap-IsHeap = (segments-IsFitting, (omega arith, (omega arith, omega arith)))

some-IsLive : IsLive 1036 20 heap.blocks
unfolding IsLive
some-IsLive = inl (refl, refl, omega arith)

malloc-MallocOutcome_example : MallocOutcome 50 heap (malloc 50 heap)
malloc-MallocOutcome_example = malloc-MallocOutcome 50 heap (omega arith) heap-IsHeap

malloc-free_example : IsGiven (malloc 18 (free (some 1036) heap))
malloc-free_example =
    malloc-free 1036 20 18 heap heap-IsHeap some-IsLive (omega arith) (omega arith) (omega arith)

realloc-ReallocOutcome_example : ReallocOutcome 1036 20 30 heap (realloc (some 1036) 30 heap)
realloc-ReallocOutcome_example =
    realloc-ReallocOutcome 1036 20 30 heap heap-IsHeap some-IsLive (omega arith) (omega arith)
      (omega arith)
