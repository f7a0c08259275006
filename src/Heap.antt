-- ===== src/Heap.antt =====
-- The heap of a program: `malloc` and its kin of userland/Libraries/libc/src/stdlib.c, over the calls
-- sbrk and brk of kernel/sys.c and `estabur` of kernel/main.c. Addresses and sizes are words of 32
-- bits; the list of blocks is that of their headers, which only these functions write.
pub mod Space
pub mod Malloc
pub mod Free
mod Tests
use unix_v.Common.{
  ℕ, zero, suc, ◌+◌, ◌-◌, ◌*◌, ◌/◌, ◌%◌, ◌^◌, Bool, true, false, not, ◌&&◌, ◌||◌, Option, none,
  some, List, [], ◌∷◌, ◌++◌, ◌==◌, if◌then◌else◌, leb, ltb,
}

-- the sizes of text, data and stack, in units of 64 bytes, and `maxmem`
pub record Segments : Type 0 where
  pub tsize : ℕ
  pub dsize : ℕ
  pub ssize : ℕ
  pub maxmem : ℕ

-- `estabur` refuses what does not fit into memory, with USIZE for the user block.
abbrev pub estabur_fails : (nt nd : ℕ) → Segments → Bool
estabur_fails nt nd s = ltb s.maxmem ((nt + nd + s.ssize + 64) % 2 ^ 32)

-- EINVAL and ENOMEM
pub data Errno : Type 0 where
  einval : Errno
  enomem : Errno

-- Text and data are to have so many units. `none` is success.
unfoldable pub resize : (units : ℕ) → Segments → Option Errno × Segments
resize units s =
    let nd = units - s.tsize in
    if estabur_fails s.tsize nd s then (some enomem, s) else (none, record s { dsize = nd })

-- the ends of the text and of the data, as words
abbrev pub text_end : Segments → ℕ
text_end s = s.tsize * 64 % 2 ^ 32

abbrev pub break_of : Segments → ℕ
break_of s = (s.tsize + s.dsize) * 64 % 2 ^ 32

unfoldable pub sys_brk : (naddr : ℕ) → Segments → Option Errno × Segments
sys_brk naddr s =
    let units = (naddr + 63) % 2 ^ 32 / 64 in
    if ltb naddr (text_end s) || ltb units s.tsize then (some einval, s) else resize units s

-- The increment is a word; from 2 ^ 31 on it is negative. The result is the old end of the data.
unfoldable pub sys_sbrk : (incr : ℕ) → Segments → (Option Errno × Segments) × ℕ
sys_sbrk incr s =
    let old = break_of s in
    let less = 2 ^ 32 - incr in
    let negative = leb (2 ^ 31) incr in
    let below = if negative then ltb old (text_end s + less) else ltb (old + incr) (text_end s) in
    let total = if negative then old - less else old + incr in
    (if below then (some einval, s) else resize ((total + 63) / 64) s, old)

-- the result of the call for the program; `none` is -1
abbrev pub returned : (Option Errno × Segments) × ℕ → Option ℕ × Segments
returned ((none, s), old) = (some old, s)
returned ((some _, s), old) = (none, s)

abbrev pub sbrk : (incr : ℕ) → Segments → Option ℕ × Segments
sbrk incr s = returned (sys_sbrk incr s)

-- a block, whose header of 12 bytes is at its address
pub record HeapBlock : Type 0 where
  pub addr : ℕ
  pub size : ℕ
  pub free : Bool

-- the blocks in the order of their links, the sizes that the kernel has, and the bytes of memory
pub record Heap : Type 0 where
  pub blocks : List HeapBlock
  pub seg : Segments
  pub byte : ℕ → ℕ

-- the address of what is behind the header
abbrev pub ptr_of : HeapBlock → ℕ
ptr_of b = b.addr + 12

-- The first free block that is large enough is taken: its pointer, and the blocks afterwards.
unfoldable pub find_free_block : (size : ℕ) → List HeapBlock → Option (ℕ × List HeapBlock)
find_free_block size [] = none
find_free_block size (b ∷ l) =
    let rest = elim (find_free_block size l) as (λ _. Option (ℕ × List HeapBlock)) [
      | none ↦ none
      | some (p, l') ↦ some (p, b ∷ l')
    ] in
    if b.free && leb size b.size then some (ptr_of b, record b { free = false } ∷ l) else rest

-- the block at an address, where sbrk has given it
abbrev pub granted : (size block : ℕ) → Heap → Option ℕ × Segments → Option ℕ × Heap
granted size block h (none, s) = (none, record h { seg = s })
granted size block h (some _, s) = (
  some ((block + 12) % 2 ^ 32),
  record h {
    blocks = h.blocks ++ record { addr = block; size = size; free = false } ∷ [];
    seg = s;
  },
)

-- The block is where sbrk(0) says that the data end; -1 is taken for an address.
abbrev pub ask_kernel : (size : ℕ) → Heap → Option ℕ × Segments → Option ℕ × Heap
ask_kernel size h (at, s) =
    granted size (elim at as (λ _. ℕ) [ none ↦ 2 ^ 32 - 1 | some a ↦ a ]) h
      (sbrk ((size + 12) % 2 ^ 32) s)

-- a new block at the end of the data
unfoldable pub request_space : (size : ℕ) → Heap → Option ℕ × Heap
request_space size h = ask_kernel size h (sbrk 0 h.seg)

-- `none` is NULL.
unfoldable pub malloc : (size : ℕ) → Heap → Option ℕ × Heap
malloc size h =
    let found = elim (find_free_block size h.blocks) as (λ _. Option ℕ × Heap) [
      | none ↦ request_space size h
      | some (p, l) ↦ (some p, record h { blocks = l })
    ] in
    if size == 0 then (none, h) else found

-- `n` bytes from an address on are cleared
unfoldable pub clear_bytes : (n p : ℕ) → (ℕ → ℕ) → ℕ → ℕ
clear_bytes zero p f = f
clear_bytes (suc n) p f = clear_bytes n (p + 1) (λ j. if j == p then 0 else f j)

unfoldable pub calloc : (nmemb size : ℕ) → Heap → Option ℕ × Heap
calloc nmemb size h =
    let total = nmemb * size % 2 ^ 32 in
    let (p, h') = malloc total h in
    elim p as (λ _. Option ℕ × Heap) [
      | none ↦ (none, h')
      | some a ↦ (some a, record h' { byte = clear_bytes total a h'.byte })
    ]

-- The block of the pointer becomes free. A pointer that no block has is not one that malloc gave.
unfoldable pub free_from : (p : ℕ) → List HeapBlock → List HeapBlock
free_from p [] = []
free_from p (b ∷ l) =
    let rest = b ∷ free_from p l in if ptr_of b == p then record b { free = true } ∷ l else rest

unfoldable pub free : Option ℕ → Heap → Heap
free none h = h
free (some p) h = record h { blocks = free_from p h.blocks }

-- the size of the block of the pointer
unfoldable pub size_of : (p : ℕ) → List HeapBlock → ℕ
size_of p [] = 0
size_of p (b ∷ l) = let rest = size_of p l in if ptr_of b == p then b.size else rest

-- `n` bytes are copied, from the first on
unfoldable pub copy : (n from to : ℕ) → (ℕ → ℕ) → ℕ → ℕ
copy zero from to f = f
copy (suc n) from to f = copy n (from + 1) (to + 1) (λ j. if j == to then f from else f j)

unfoldable pub realloc : Option ℕ → (size : ℕ) → Heap → Option ℕ × Heap
realloc none size h = malloc size h
realloc (some p) size h =
    let old = size_of p h.blocks in
    let (q, h') = malloc size h in
    let moved = elim q as (λ _. Option ℕ × Heap) [
      | none ↦ (none, h')
      | some a ↦ (some a, free (some p) (record h' { byte = copy old p a h'.byte }))
    ] in
    if size == 0 then (none, free (some p) h) else if leb size old then (some p, h) else moved
