-- ===== src/Text.antt =====
-- The table of shared text segments of kernel/text.c, over the table of inodes. A pointer to a text
-- or an inode is its position, and NULL is `none`. A call that sleeps ends there.
pub mod Find
pub mod Xalloc
pub mod Xfree
pub mod RoundTrip
mod Tests
use unix_v.Common.{
  ℕ, zero, suc, ◌-◌, ltb, not, ◌&&◌, Bool, true, false, Option, none, some, List, [], ◌∷◌, ◌==◌,
  if◌then◌else◌, get_or, set,
}
use unix_v.Inodes.{Store, entry_at, put_entry, inc8, dec8, iput}

-- `struct text`, with its counts of 8 bits and its flags
pub record Text : Type 0 where
  pub caddr : ℕ
  pub size : ℕ
  pub iptr : Option ℕ
  pub count : ℕ
  pub ccount : ℕ
  pub xlock : Bool
  pub xwant : Bool

abbrev pub no_text : Text
no_text = record {
  caddr = 0;
  size = 0;
  iptr = none;
  count = 0;
  ccount = 0;
  xlock = false;
  xwant = false;
}

-- `text[]`, the inodes, and the texts on which `wakeup` was called
pub record Texts : Type 0 where
  pub text : List Text
  pub store : Store
  pub woken : List ℕ

abbrev pub text_at : Texts → ℕ → Text
text_at s k = get_or s.text k no_text

abbrev pub put_text : ℕ → Text → Texts → Texts
put_text k x s = record s { text = set s.text k x }

abbrev pub is_free : Text → Bool
is_free x = elim x.iptr as (λ _. Bool) [ none ↦ true | some _ ↦ false ]

abbrev pub is_of : ℕ → Text → Bool
is_of ip x = elim x.iptr as (λ _. Bool) [ none ↦ false | some i ↦ i == ip ]

-- the first text that the test holds of, from `k` on: one of the inode, or a free one
unfoldable pub find_text : (Text → Bool) → (k : ℕ) → List Text → Option ℕ
find_text test k [] = none
find_text test k (x ∷ l) = let rest = find_text test (suc k) l in if test x then some k else rest

-- the text `k` becomes that of the inode
unfoldable pub attach : (ip k : ℕ) → Texts → Texts
attach ip k s =
    let e = entry_at s.store ip in
    record (put_text k
      (record (text_at s k) { count = 1; iptr = some ip; ccount = 0; caddr = 0; size = 0 }) s) {
        store = put_entry ip (record e { itext = true; count = inc8 e.count }) s.store;
      }

unfoldable pub xalloc : (ip : ℕ) → Texts → Option ℕ × Texts
xalloc ip s = elim (find_text (is_of ip) 0 s.text) [
  | some k ↦ (some k, put_text k (record (text_at s k) { count = inc8 (text_at s k).count }) s)
  | none ↦ elim (find_text is_free 0 s.text) [ none ↦ (none, s) | some k ↦ (some k, attach ip k s) ]
]

-- The last reference to the text `k` is gone. `none` is a wait in `iput`.
unfoldable pub detach : (k : ℕ) → Text → Texts → Option Texts
detach k x s = elim x.iptr [
  | none ↦ some (put_text k (record x { caddr = 0 }) s)
  | some ip ↦
      elim (iput ip (put_entry ip (record (entry_at s.store ip) { itext = false }) s.store)) [
        | none ↦ none
        | some t ↦ some (record (put_text k (record x { iptr = none; caddr = 0 }) s) { store = t })
      ]
]

unfoldable pub xfree : Option ℕ → Texts → Option Texts
xfree none s = some s
xfree (some k) s =
    let x = record (text_at s k) { count = dec8 (text_at s k).count } in
    let last = detach k x s in if x.count == 0 then last else some (put_text k x s)

unfoldable pub xccdec : Option ℕ → Texts → Texts
xccdec none s = s
xccdec (some k) s =
    let x = text_at s k in
    if ltb x.ccount 128 && not (x.ccount == 0)
    then put_text k (record x { ccount = x.ccount - 1 }) s
    else s

unfoldable pub xunlock : Option ℕ → Texts → Texts
xunlock none s = s
xunlock (some k) s =
    let x = text_at s k in
    if x.xlock
    then record (put_text k (record x { xlock = false }) s) { woken = k ∷ s.woken }
    else s

-- `xlock` has the lock, or sleeps until it is woken and then tries again.
pub data Xlock : Type 0 where
  has_lock : Texts → Xlock
  sleeps : Texts → Xlock

unfoldable pub xlock_text : Option ℕ → Texts → Xlock
xlock_text none s = has_lock s
xlock_text (some k) s =
    let x = text_at s k in
    if x.xlock
    then sleeps (put_text k (record x { xwant = true }) s)
    else has_lock (put_text k (record x { xlock = true }) s)
