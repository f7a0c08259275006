-- ===== src/Str/Blocks.antt =====
-- `memset` and `memmove` of userland/Libraries/libc/src/string.c.
use unix_v.Common.{
  ℕ, zero, suc, ◌+◌, ◌-◌, ◌≤◌, ◌≡◌, ◌⊎◌, ◌&&◌, arith, ltb, leb, if◌then◌else◌, inl, inr, Bool-cases,
}
use unix_v.Str.{Memory, poke, byte, memset, memcpy, copy_down, memmove}

-- the memory in which the `n` bytes from `s` on are also from `d` on
abbrev pub copied : (d s n : ℕ) → Memory → Memory
copied d s n m x = if leb d x && ltb x (d + n) then m (s + (x - d)) else m x

-- the memory in which the `n` bytes from `s` on are `c`
abbrev pub filled : (s c n : ℕ) → Memory → Memory
filled s c n m x = if leb s x && ltb x (s + n) then byte c else m x

-- Copying upwards is right unless the destination begins within the source.
pub memcpy-copied :
    (d s n : ℕ) (m : Memory) → (d ≤ s) ⊎ (s + n ≤ d) → (x : ℕ) → memcpy d s n m x ≡ copied d s n m x
unfolding memcpy
memcpy-copied d s zero m ok x = ground arith
memcpy-copied d s (suc n) m ok x =
    ground (arith, memcpy-copied (suc d) (suc s) n (poke m d (m s)) (grind (arith, ok)) x)

copy_down-copied :
    (d s n : ℕ) (m : Memory) → s ≤ d → (x : ℕ) → copy_down d s n m x ≡ copied d s n m x
unfolding copy_down
copy_down-copied d s zero m ok x = ground arith
copy_down-copied d s (suc n) m ok x =
    ground (arith, copy_down-copied d s n (poke m (d + n) (m (s + n))) ok x)

-- `memmove` copies the block as it was before, however source and destination overlap, and changes
-- nothing else.
pub memmove-copied : (d s n : ℕ) (m : Memory) (x : ℕ) → memmove d s n m x ≡ copied d s n m x
unfolding memmove
memmove-copied d s n m x = elim (Bool-cases (ltb d s)) [
  | inl e ↦ rw (e, memmove) (memcpy-copied d s n m (inl (ground (arith, e))) x)
  | inr e ↦ rw (e, memmove) (copy_down-copied d s n m (ground (arith, e)) x)
]

-- `memset` stores the byte in the whole block and nowhere else.
pub memset-filled : (s c n : ℕ) (m : Memory) (x : ℕ) → memset s c n m x ≡ filled s c n m x
unfolding memset
memset-filled s c zero m x = ground arith
memset-filled s c (suc n) m x = ground (arith, memset-filled (suc s) c n (poke m s (byte c)) x)
