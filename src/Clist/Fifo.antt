-- ===== src/Clist/Fifo.antt =====
-- `getc` and `putc` of kernel/tty.c on a character list that lies in one block.
use unix_v.Common.{
  ℕ, zero, suc, ◌+◌, ◌-◌, ◌%◌, ◌<◌, ◌≤◌, ◌≡◌, ◌≢◌, refl, ◌∙◌, ap, sym, arith, ◌==◌, Option, none,
  some, List, [], ◌∷◌, ◌++◌, length, if_true, if_false, inl, inr, ◌⊎◌, length-append, subst,
  append_assoc, append-nil,
}
use unix_v.Clist.{Cblocks, Clist, empty_clist, store_byte, c_next, info, getc, putc}

-- the bytes from an address on
unfoldable pub IsText : ℕ → (ℕ → ℕ) → List ℕ → Type 0
IsText a f [] = Unit {0}
IsText a f (c ∷ l) = (f a ≡ c) × (c < 256) × IsText (a + 1) f l

-- The list has the characters, all of them in one block before the next multiple of 8.
unfoldable pub Holds : Clist → Cblocks → List ℕ → Type 0
Holds p m l =
    (p.cc ≡ length l)
    × IsText p.cf m.byte l
    × (p.cc ≢ 0 → (p.cl ≡ p.cf + p.cc) × (p.cf % 8 + p.cc ≤ 8))

IsText-store_byte :
    (a j c : ℕ) (f : ℕ → ℕ) (l : List ℕ)
    → (j < a) ⊎ (a + length l ≤ j)
    → IsText a f l
    → IsText a (store_byte j c f) l
unfolding IsText
IsText-store_byte a j c f [] away h = tt
IsText-store_byte a j c f (b ∷ l) away (here, small, rest) = (
  ground (arith, here, away),
  small,
  IsText-store_byte (a + 1) j c f l (ground (arith, away)) rest,
)

pub IsText-same :
    (a j : ℕ) (f g : ℕ → ℕ) (l : List ℕ)
    → ((i : ℕ) → i ≢ j → g i ≡ f i)
    → (j < a) ⊎ (a + length l ≤ j)
    → IsText a f l
    → IsText a g l
unfolding IsText
IsText-same a j f g [] same away h = tt
IsText-same a j f g (b ∷ l) same away (here, small, rest) = (
  same a (ground (arith, away)) ∙ here,
  small,
  IsText-same (a + 1) j f g l same (ground (arith, away)) rest,
)

IsText-append :
    (a c : ℕ) (f : ℕ → ℕ) (l : List ℕ)
    → c < 256
    → f (a + length l) ≡ c
    → IsText a f l
    → IsText a f (l ++ c ∷ [])
unfolding IsText
IsText-append a c f [] small at h = (ground (arith, at), small, tt)
IsText-append a c f (b ∷ l) small at (here, b_small, rest) =
    (here, b_small, IsText-append (a + 1) c f l small (ap f (omega arith) ∙ at) rest)

pub getc-Holds :
    (p : Clist) (m : Cblocks) (c : ℕ) (l : List ℕ)
    → Holds p m (c ∷ l)
    → (p' : Clist) × (getc p m ≡ (some c, p', m))
      × Holds p' m l
      × ((p'.cf ≡ 0) × (length l ≡ 0) ⊎ (p'.cf ≡ p.cf + 1))
unfolding getc Holds IsText
getc-Holds p m c [] (len, (here, small, _), in_block) = (
  empty_clist,
  if_false (p.cc == 0) _ _ (ground (arith, len))
      ∙ if_true (p.cc == 1) _ _ (ground (arith, len))
      ∙ ap (λ k. (some k, empty_clist, m)) (omega (arith, here, small)),
  (refl, tt, λ h. absurd (h refl)),
  inl (refl, refl),
)
getc-Holds p m c (b ∷ l) (len, (here, small, rest), in_block) = (
  record p { cc = p.cc - 1; cf = p.cf + 1 },
  if_false (p.cc == 0) _ _ (ground (arith, len))
      ∙ if_false (p.cc == 1) _ _ (ground (arith, len))
      ∙ if_false ((p.cf + 1) % 8 == 0) _ _ (ground (arith, in_block, len))
      ∙ ap (λ k. (some k, record p { cc = p.cc - 1; cf = p.cf + 1 }, m))
          (omega (arith, here, small)),
  (omega (arith, len), rest, λ h. ground (arith, in_block, len)),
  inr refl,
)

-- Where there is room in the block, putc puts the character behind the others.
pub putc-Holds :
    (p : Clist) (m : Cblocks) (c : ℕ) (l : List ℕ)
    → p.cc ≢ 0
    → p.cl % 8 ≢ 0
    → m.cfreelist ≢ 0
    → c < 256
    → Holds p m l
    → (p' : Clist) × (m' : Cblocks) × (putc c p m ≡ some (p', m'))
      × Holds p' m' (l ++ c ∷ [])
      × (m'.cfreelist ≡ m.cfreelist)
      × (p'.cc ≡ p.cc + 1)
      × (p'.cf ≡ p.cf)
unfolding putc Holds
putc-Holds p m c l used room some_block small (len, text, in_block) =
    let f = store_byte p.cl c m.byte in
    let (behind, fits) = in_block used in
    let last : f (p.cf + length l) ≡ c = ground (arith, behind, len, small) in
    (
      record p { cc = p.cc + 1; cl = p.cl + 1 },
      record m { byte = f },
      if_false (m.cfreelist == 0) _ _ (ground (arith, some_block))
          ∙ if_false (p.cc == 0) _ _ (ground (arith, used))
          ∙ if_false (p.cl % 8 == 0) _ _ (ground (arith, room)),
      (
        omega (arith, length-append l (c ∷ []), len),
        IsText-append p.cf c f l small last
            (IsText-store_byte p.cf p.cl c m.byte l (inr (omega (arith, behind, len))) text),
        λ _. (omega (arith, behind), omega (arith, fits, behind, room)),
      ),
      refl,
      refl,
      refl,
    )

-- the first character takes a block
pub putc_first-Holds :
    (m : Cblocks) (c : ℕ)
    → m.cfreelist ≢ 0
    → m.cfreelist % 4 ≡ 0
    → c < 256
    → (p' : Clist) × (m' : Cblocks) × (putc c empty_clist m ≡ some (p', m'))
      × Holds p' m' (c ∷ [])
      × (m'.cfreelist ≡ c_next m.cfreelist m.byte)
      × (p'.cl % 8 ≢ 0)
      × (p'.cf % 4 ≡ 0)
      × ((j : ℕ) → j ≢ info m.cfreelist → m'.byte j ≡ m.byte j)
unfolding putc Holds IsText
putc_first-Holds m c some_block aligned small =
    let bp = m.cfreelist in
    let p' : Clist = record { cc = 1; cf = info bp; cl = info bp + 1 } in
    let m' : Cblocks = record {
      byte = store_byte (info bp) c m.byte;
      cfreelist = c_next bp m.byte;
    } in
    (
      p',
      m',
      if_false (bp == 0) _ _ (ground (arith, some_block)),
      (refl, (ground (arith, small), small, tt), λ _. (refl, omega (arith, aligned))),
      refl,
      omega (arith, aligned),
      omega (arith, aligned),
      λ j away. ground (arith, away),
    )

-- the characters are put on the list, until there is no block
unfoldable pub put_list : List ℕ → Clist → Cblocks → Option (Clist × Cblocks)
put_list [] p m = some (p, m)
put_list (c ∷ l) p m = elim (putc c p m) as (λ _. Option (Clist × Cblocks)) [
  | none ↦ none
  | some (p', m') ↦ put_list l p' m'
]

-- the character, and what is got after it
abbrev pub then_get : (Clist → Cblocks → List ℕ) → Option ℕ × Clist × Cblocks → List ℕ
then_get rest (none, _, _) = []
then_get rest (some c, p, m) = c ∷ rest p m

-- as many characters as there are, and at most `n`
unfoldable pub get_list : (n : ℕ) → Clist → Cblocks → List ℕ
get_list zero p m = []
get_list (suc n) p m = then_get (get_list n) (getc p m)

get_list-Holds : (l : List ℕ) (p : Clist) (m : Cblocks) → Holds p m l → get_list (length l) p m ≡ l
unfolding get_list
get_list-Holds [] p m h = refl
get_list-Holds (c ∷ l) p m h =
    let (p', got, rest, _) = getc-Holds p m c l h in
    ap (then_get (get_list (length l))) got ∙ ap (λ k. c ∷ k) (get_list-Holds l p' m rest)

-- all of them are bytes
unfoldable pub IsBytes : List ℕ → Type 0
IsBytes [] = Unit {0}
IsBytes (c ∷ l) = (c < 256) × IsBytes l

put_list-Holds :
    (k : List ℕ) (p : Clist) (m : Cblocks) (l : List ℕ)
    → IsBytes k
    → p.cc ≢ 0
    → p.cf % 8 + p.cc + length k ≤ 8
    → m.cfreelist ≢ 0
    → Holds p m l
    → (p' : Clist) × (m' : Cblocks) × (put_list k p m ≡ some (p', m')) × Holds p' m' (l ++ k)
unfolding put_list IsBytes Holds
put_list-Holds [] p m l bytes used fits some_block h =
    (p, m, refl, subst (Holds p m) (sym (append-nil l)) h)
put_list-Holds (c ∷ k) p m l (small, bytes) used fits some_block h =
    let (len, text, in_block) = h in
    let (p', m', put, held, same, more, front) =
      putc-Holds p m c l used (omega (arith, in_block used, fits, used)) some_block small h in
    let (q, m'', puts, all) =
      put_list-Holds k p' m' (l ++ c ∷ []) bytes (omega (arith, more))
        (omega (arith, more, front, fits)) (rw same some_block) held in
    (q, m'', rw (put_list, put) puts, subst (Holds q m'') (append_assoc l (c ∷ []) k) all)

-- Up to four bytes that are put on an empty list, where two blocks at multiples of 4 are free, come
-- off it in the order in which they were put on it.
pub get_list-put_list :
    (l : List ℕ) (m : Cblocks)
    → IsBytes l
    → length l ≤ 4
    → m.cfreelist ≢ 0
    → m.cfreelist % 4 ≡ 0
    → c_next m.cfreelist m.byte ≢ 0
    → (p : Clist) × (m' : Cblocks) × (put_list l empty_clist m ≡ some (p, m'))
      × (get_list (length l) p m' ≡ l)
unfolding put_list IsBytes get_list Holds
get_list-put_list [] m bytes short some_block aligned more = (empty_clist, m, refl, refl)
get_list-put_list (c ∷ l) m (small, bytes) short some_block aligned more =
    let (p, m', put, held, next, _, place, _) = putc_first-Holds m c some_block aligned small in
    let (q, m'', puts, all) =
      put_list-Holds l p m' (c ∷ []) bytes (omega (arith, held.0))
        (omega (arith, held.0, place, short)) (rw next more) held in
    (q, m'', rw (put_list, put) puts, get_list-Holds (c ∷ l) q m'' all)
