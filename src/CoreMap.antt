-- ===== src/CoreMap.antt =====
-- kernel/malloc.c: the first-fit allocator of the core and swap maps. A map is the list of the
-- entries that stand before the terminator (the entry of size 0), so the loops that move the
-- later entries down or up by one place are the removal and the insertion of a list element.
-- Sizes and addresses are numbers; the sums that the source makes in `uint32_t` wrap at 2 ^ 32.
pub mod Cover
pub mod Malloc
pub mod Mfree
pub mod Canonical
pub mod RoundTrip
mod Tests
use unix_v.Common.{ℕ, ◌+◌, ◌-◌, ◌%◌, ◌^◌, List, [], ◌∷◌, leb, ◌==◌, if◌then◌else◌}

-- `struct map`
pub record Entry : Type 0 where
  pub size : ℕ
  pub addr : ℕ

abbrev pub CoreMap : Type 0
CoreMap = List Entry

abbrev pub entry : ℕ → ℕ → Entry
entry s a = record { size = s; addr = a }

-- `uint32_t` arithmetic
abbrev pub add32 : ℕ → ℕ → ℕ
add32 a b = (a + b) % 2 ^ 32

abbrev pub sub32 : ℕ → ℕ → ℕ
sub32 a b = (a + 2 ^ 32 - b) % 2 ^ 32

-- An entry that holds enough gives up its lower end; one that is used up goes.
pub take_low : Entry → CoreMap → ℕ → CoreMap
take_low e es size =
    if e.size - size == 0 then es else entry (e.size - size) (add32 e.addr size) ∷ es

-- The address found, or 0, and the map that is left.
unfoldable pub malloc : CoreMap → ℕ → ℕ × CoreMap
unfolding take_low
malloc [] size = (0, [])
malloc (e ∷ es) size =
    let (a, rest) = malloc es size in
    if leb size e.size then (e.addr, take_low e es size) else (a, e ∷ rest)

-- The space ends where the entry before it begins to be free: that entry grows, and takes in the
-- entry behind it if the space reaches it.
pub join_before : Entry → CoreMap → ℕ → ℕ → CoreMap
join_before p [] size addr = entry (p.size + size) p.addr ∷ []
join_before p (b ∷ bs) size addr =
    if add32 addr size == b.addr
    then entry (p.size + size + b.size) p.addr ∷ bs
    else entry (p.size + size) p.addr ∷ b ∷ bs

-- Otherwise the entry behind it grows downwards, or a new entry is put in.
pub join_behind : CoreMap → ℕ → ℕ → CoreMap
join_behind [] size addr = if size == 0 then [] else entry size addr ∷ []
join_behind (b ∷ bs) size addr =
    if add32 addr size == b.addr
    then entry (b.size + size) (sub32 b.addr size) ∷ bs
    else if size == 0
    then b ∷ bs
    else entry size addr ∷ b ∷ bs

-- The two cases at the place where the search has stopped, behind the entry `p`.
pub join : Entry → CoreMap → ℕ → ℕ → CoreMap
unfolding join_before join_behind
join p rest size addr =
    if add32 p.addr p.size == addr
    then join_before p rest size addr
    else p ∷ join_behind rest size addr

-- The search, once it has passed the entry `p`.
pub mfree_after : Entry → CoreMap → ℕ → ℕ → CoreMap
unfolding join
mfree_after p [] size addr = join p [] size addr
mfree_after p (b ∷ bs) size addr =
    if leb b.addr addr then p ∷ mfree_after b bs size addr else join p (b ∷ bs) size addr

pub mfree : CoreMap → ℕ → ℕ → CoreMap
unfolding mfree_after join_behind
mfree [] size addr = join_behind [] size addr
mfree (b ∷ bs) size addr =
    if leb b.addr addr then mfree_after b bs size addr else join_behind (b ∷ bs) size addr
