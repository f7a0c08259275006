-- ===== src/Str.antt =====
-- The string functions of the C library, userland/Libraries/libc/src/string.c. Memory is a function
-- from address to byte, and a pointer an address. A loop that stops at a NUL has fuel for the bytes
-- that it looks at; `none` is a run past the fuel, which the source does not have.
pub mod Blocks
pub mod Strings
pub mod Search
pub mod Compare
mod Tests
use unix_v.Common.{
  ℕ, zero, suc, ◌+◌, ◌-◌, ◌%◌, Bool, true, false, not, ◌&&◌, ◌||◌, Option, none, some, ltb, leb,
  ◌==◌, if◌then◌else◌, ℤ, pos, negsuc, ◌-ℤ◌,
}

abbrev pub Memory : Type 0
Memory = ℕ → ℕ

-- the store of a byte
abbrev pub poke : Memory → ℕ → ℕ → Memory
poke m a v x = if x == a then v else m x

-- `(unsigned char)c`
abbrev pub byte : ℕ → ℕ
byte c = c % 256

pub memset : (s c n : ℕ) → Memory → Memory
memset s c zero m = m
memset s c (suc n) m = memset (suc s) c n (poke m s (byte c))

pub memcpy : (dest src n : ℕ) → Memory → Memory
memcpy d s zero m = m
memcpy d s (suc n) m = memcpy (suc d) (suc s) n (poke m d (m s))

-- the other loop of `memmove`, from the last byte down
pub copy_down : (dest src n : ℕ) → Memory → Memory
copy_down d s zero m = m
copy_down d s (suc n) m = copy_down d s n (poke m (d + n) (m (s + n)))

pub memmove : (dest src n : ℕ) → Memory → Memory
memmove d s n m = if ltb d s then memcpy d s n m else copy_down d s n m

abbrev difference : ℕ → ℕ → ℤ
difference a b = pos a -ℤ pos b

pub memcmp : (s1 s2 n : ℕ) → Memory → ℤ
memcmp a b zero m = pos 0
memcmp a b (suc n) m =
    let rest = memcmp (suc a) (suc b) n m in if m a == m b then rest else difference (m a) (m b)

pub memchr : (s c n : ℕ) → Memory → Option ℕ
memchr s c zero m = none
memchr s c (suc n) m = let rest = memchr (suc s) c n m in if m s == byte c then some s else rest

pub bzero : (s n : ℕ) → Memory → Memory
bzero s n m = memset s 0 n m

pub bcopy : (src dest n : ℕ) → Memory → Memory
bcopy s d n m = memmove d s n m

pub bcmp : (s1 s2 n : ℕ) → Memory → ℤ
bcmp a b n m = memcmp a b n m

-- the address of the NUL that ends the string
pub ending : (fuel p : ℕ) → Memory → Option ℕ
ending zero p m = none
ending (suc n) p m = let rest = ending n (suc p) m in if m p == 0 then some p else rest

abbrev from : ℕ → Option ℕ → Option ℕ
from s none = none
from s (some p) = some (p - s)

pub strlen : (fuel s : ℕ) → Memory → Option ℕ
strlen fuel s m = from s (ending fuel s m)

pub strcpy : (fuel dest src : ℕ) → Memory → Option Memory
strcpy zero d s m = none
strcpy (suc n) d s m =
    let m' = poke m d (m s) in
    let rest = strcpy n (suc d) (suc s) m' in if m s == 0 then some m' else rest

-- `strncpy`: bytes up to a NUL, and NULs from there; each is read when it is copied.
pub strncpy : (dest src n : ℕ) → Memory → Memory
strncpy d s zero m = m
strncpy d s (suc n) m =
    let more = strncpy (suc d) (suc s) n (poke m d (m s)) in
    if m s == 0 then memset d 0 (suc n) m else more

pub strcat : (fuel dest src : ℕ) → Memory → Option Memory
strcat fuel d s m = elim (ending fuel d m) [ none ↦ none | some e ↦ strcpy fuel e s m ]

pub strcmp : (fuel s1 s2 : ℕ) → Memory → Option ℤ
strcmp zero a b m = none
strcmp (suc n) a b m =
    let rest = strcmp n (suc a) (suc b) m in
    if not (m a == 0) && m a == m b then rest else some (difference (m a) (m b))

pub strncmp : (s1 s2 n : ℕ) → Memory → ℤ
strncmp a b zero m = pos 0
strncmp a b (suc n) m =
    let rest = strncmp (suc a) (suc b) n m in
    if not (m a == 0) && m a == m b then rest else difference (m a) (m b)

-- The inner result is the pointer, `none` for `NULL`.
pub strchr : (fuel s c : ℕ) → Memory → Option (Option ℕ)
strchr zero s c m = none
strchr (suc n) s c m =
    let rest = strchr n (suc s) c m in
    if m s == 0
    then some (if m s == byte c then some s else none)
    else if m s == byte c
    then some (some s)
    else rest

-- `last` is the match that the loop has seen last.
pub last_match : (last : Option ℕ) (fuel s c : ℕ) → Memory → Option (Option ℕ)
last_match last zero s c m = none
last_match last (suc n) s c m =
    let last' = if m s == byte c then some s else last in
    let rest = last_match last' n (suc s) c m in if m s == 0 then some last' else rest

pub strrchr : (fuel s c : ℕ) → Memory → Option (Option ℕ)
strrchr fuel s c m = last_match none fuel s c m

-- `strncat`: the loop leaves `n` at -1 where the bound ends it, and the NUL is then put behind.
pub append_bytes : (fuel d s n : ℕ) → Memory → Option Memory
append_bytes zero d s n m = none
append_bytes (suc f) d s zero m = some (poke m d 0)
append_bytes (suc f) d s (suc n) m =
    let m' = poke m d (m s) in
    let rest = append_bytes f (suc d) (suc s) n m' in if m s == 0 then some m' else rest

pub strncat : (fuel dest src n : ℕ) → Memory → Option Memory
strncat fuel d s n m = elim (ending fuel d m) [ none ↦ none | some e ↦ append_bytes fuel e s n m ]

-- `strstr`: does the needle stand at `h`?
pub stands_at : (fuel h n : ℕ) → Memory → Option Bool
stands_at zero h n m = none
stands_at (suc f) h n m =
    let rest = stands_at f (suc h) (suc n) m in
    if not (m h == 0) && not (m n == 0) && m h == m n then rest else some (m n == 0)

pub search_from : (rounds fuel h n : ℕ) → Memory → Option (Option ℕ)
search_from zero fuel h n m = none
search_from (suc r) fuel h n m =
    let rest = search_from r fuel (suc h) n m in
    if m h == 0
    then some none
    else elim (stands_at fuel h n m) [ none ↦ none | some true ↦ some (some h) | some false ↦ rest ]

pub strstr : (fuel haystack needle : ℕ) → Memory → Option (Option ℕ)
strstr fuel h n m = if m n == 0 then some (some h) else search_from fuel fuel h n m
