-- ===== src/Clist.antt =====
-- The character lists of kernel/tty.c, in a memory of bytes: `cfree[]` at an address, of blocks of 12
-- bytes (a link of 4, `info` of 6 and 2 of padding), and a pointer as a number, with NULL as 0. A
-- character list stays locked for the whole of `getc` and `putc`.
pub mod Fifo
pub mod Leak
mod Tests
use unix_v.Common.{
  ℕ, zero, suc, ◌+◌, ◌-◌, ◌*◌, ◌/◌, ◌%◌, ◌^◌, Bool, true, false, Option, none, some, ◌==◌,
  if◌then◌else◌,
}

-- the memory of the blocks, and `cfreelist`
pub record Cblocks : Type 0 where
  pub byte : ℕ → ℕ
  pub cfreelist : ℕ

-- `struct clist`
pub record Clist : Type 0 where
  pub cc : ℕ
  pub cf : ℕ
  pub cl : ℕ

abbrev pub empty_clist : Clist
empty_clist = record { cc = 0; cf = 0; cl = 0 }

abbrev pub store_byte : (a v : ℕ) → (ℕ → ℕ) → ℕ → ℕ
store_byte a v f j = if j == a then v % 256 else f j

-- `c_next` of the block at an address
unfoldable pub c_next : ℕ → (ℕ → ℕ) → ℕ
c_next a f = f a + f (a + 1) * 2 ^ 8 + f (a + 2) * 2 ^ 16 + f (a + 3) * 2 ^ 24

unfoldable pub set_next : (a v : ℕ) → (ℕ → ℕ) → ℕ → ℕ
set_next a v f =
    store_byte (a + 3) (v / 2 ^ 24)
      (store_byte (a + 2) (v / 2 ^ 16) (store_byte (a + 1) (v / 2 ^ 8) (store_byte a v f)))

-- the address of `info`
abbrev pub info : ℕ → ℕ
info a = a + 4

-- `none` is -1.
unfoldable pub getc : Clist → Cblocks → Option ℕ × Clist × Cblocks
getc p m =
    let c = m.byte p.cf % 256 in
    let bp = p.cf / 8 * 8 in
    if p.cc == 0
    then (none, p, m)
    else if p.cc == 1
    then (some c, empty_clist, m)
    else if (p.cf + 1) % 8 == 0
    then (
      some c,
      record p { cc = p.cc - 1; cf = info (c_next bp m.byte) },
      record { byte = set_next bp m.cfreelist m.byte; cfreelist = bp },
    )
    else (some c, record p { cc = p.cc - 1; cf = p.cf + 1 }, m)

-- the character goes to the place behind the last
abbrev pub put_last : ℕ → Clist → Cblocks → Clist × Cblocks
put_last c p m =
    (record p { cc = p.cc + 1; cl = p.cl + 1 }, record m { byte = store_byte p.cl c m.byte })

-- `none` is -1, and then nothing has changed.
unfoldable pub putc : ℕ → Clist → Cblocks → Option (Clist × Cblocks)
putc c p m =
    let bp = m.cfreelist in
    let next = c_next bp m.byte in
    if bp == 0
    then none
    else if p.cc == 0
    then some (put_last c (record p { cf = info bp; cl = info bp }) (record m { cfreelist = next }))
    else if p.cl % 8 == 0
    then some (
        put_last c (record p { cl = info bp })
          (record { byte = set_next (p.cl - 8) bp m.byte; cfreelist = next }))
    else some (put_last c p m)

-- The loop of `cinit` puts `n` blocks from number `i` on before the list.
unfoldable pub cinit_from : (cfree n i : ℕ) → Cblocks → Cblocks
cinit_from cfree zero i m = m
cinit_from cfree (suc n) i m =
    let cp = cfree + 12 * i in
    cinit_from cfree n (suc i) (record { byte = set_next cp m.cfreelist m.byte; cfreelist = cp })

-- NCLIST blocks
unfoldable pub cinit_blocks : ℕ → Cblocks → Cblocks
cinit_blocks cfree m = cinit_from cfree 100 0 (record m { cfreelist = 0 })
