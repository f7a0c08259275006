-- ===== src/Text/Find.antt =====
-- The search in the table of texts of kernel/text.c, and the inodes of texts.
use unix_v.Common.{
  ℕ, zero, suc, ◌+◌, ◌<◌, ◌≡◌, ◌≢◌, refl, ap, ◌⊎◌, inl, inr, arith, Bool, true, false, Option, none,
  some, List, [], ◌∷◌, ◌==◌, if◌then◌else◌, get_or, length, Bool-cases, get_or-set, get_or-past,
  ltb, sym, subst, ◌∙◌,
}
use unix_v.Inodes.{Entry, Store, entry_at, put_entry, no_entry}
use unix_v.Text.{Text, Texts, no_text, text_at, put_text, is_free, is_of, find_text}

-- the text has references, and its inode is in use and marked
unfoldable pub IsHeld : Store → Text → ℕ → Type 0
IsHeld t x i =
    (i < length t.inode)
    × (x.count ≢ 0)
    × (x.count < 256)
    × ((entry_at t i).count ≢ 0)
    × ((entry_at t i).itext ≡ true)

-- No inode has two texts, and every text of an inode holds it.
unfoldable pub IsShared : Texts → Type 0
IsShared s =
    ((k l i : ℕ) → (text_at s k).iptr ≡ some i → (text_at s l).iptr ≡ some i → k ≡ l)
    × ((k i : ℕ) → (text_at s k).iptr ≡ some i → IsHeld s.store (text_at s k) i)

pub find_text-finds :
    (test : Text → Bool) (k : ℕ) (l : List Text)
    → ((find_text test k l ≡ none) × ((j : ℕ) → j < length l → test (get_or l j no_text) ≡ false))
      ⊎ ((j : ℕ) × (find_text test k l ≡ some (k + j))
          × (j < length l)
          × (test (get_or l j no_text) ≡ true))
unfolding find_text
find_text-finds test k [] = inl (refl, λ j h. absurd (omega arith))
find_text-finds test k (x ∷ l) = elim (Bool-cases (test x)) [
  | inl here ↦ inr (0, rw here (ap some (omega arith)), omega arith, here)
  | inr away ↦ elim (find_text-finds test (suc k) l) [
    | inl (none_found, all) ↦ inl (
      rw (away, none_found) refl,
      λ j h.
          elim j as (λ j. j < suc (length l) → test (get_or (x ∷ l) j no_text) ≡ false) [
            | zero ↦ λ _. away
            | suc (i → _) ↦ λ h. all i (omega arith)
          ]
            h,
    )
    | inr (j, found, h, v) ↦ inr (suc j, rw (away, found) (ap some (omega arith)), omega arith, v)
  ]
]

pub put_text-at :
    (k : ℕ) (x : Text) (s : Texts) (l : ℕ)
    → k < length s.text
    → text_at (put_text k x s) l ≡ (if k == l then x else text_at s l)
put_text-at k x s l h = get_or-set s.text k l x no_text h

pub put_entry-at :
    (i : ℕ) (e : Entry) (s : Store) (j : ℕ)
    → i < length s.inode
    → entry_at (put_entry i e s) j ≡ (if i == j then e else entry_at s j)
put_entry-at i e s j h = get_or-set s.inode i j e no_entry h

pub is_of-some : (i : ℕ) (x : Text) → is_of i x ≡ true → x.iptr ≡ some i
is_of-some i x h = by_iptr x.iptr refl h
  where
    by_iptr :
        (o : Option ℕ)
        → x.iptr ≡ o
        → elim o as (λ _. Bool) [ none ↦ false | some j ↦ j == i ] ≡ true
        → x.iptr ≡ some i
    by_iptr none e h = absurd (ground (arith, h))
    by_iptr (some j) e h = ground (arith, h, e)

pub is_of_other : (i : ℕ) (x : Text) → is_of i x ≡ false → x.iptr ≢ some i
is_of_other i x h e = ground (arith, h, e)

pub is_free-none : (x : Text) → is_free x ≡ true → x.iptr ≡ none
is_free-none x h = by_iptr x.iptr refl h
  where
    by_iptr :
        (o : Option ℕ)
        → x.iptr ≡ o
        → elim o as (λ _. Bool) [ none ↦ true | some _ ↦ false ] ≡ true
        → x.iptr ≡ none
    by_iptr none e h = e
    by_iptr (some j) e h = absurd (ground (arith, h))

-- No text past the end has an inode.
pub text_inside : (s : Texts) (k i : ℕ) → (text_at s k).iptr ≡ some i → k < length s.text
text_inside s k i h = elim (Bool-cases (ltb k (length s.text))) [
  | inl l ↦ ground (arith, l)
  | inr l ↦ absurd (ground (arith, h, get_or-past s.text k no_text (ground (arith, l))))
]

-- The texts after a change to one of them, where the inodes of the others keep what they are held by.
pub IsShared-change :
    (s s' : Texts) (k : ℕ)
    → IsShared s
    → ((l : ℕ) → k ≢ l → text_at s' l ≡ text_at s l)
    → ((l i : ℕ) → k ≢ l → (text_at s l).iptr ≡ some i → (text_at s' k).iptr ≢ some i)
    → ((i : ℕ) → (text_at s' k).iptr ≡ some i → IsHeld s'.store (text_at s' k) i)
    → ((l i : ℕ)
        → k ≢ l
        → (text_at s l).iptr ≡ some i
        → (i < length s'.store.inode)
          × ((entry_at s'.store i).count ≢ 0)
          × ((entry_at s'.store i).itext ≡ true))
    → IsShared s'
unfolding IsShared IsHeld
IsShared-change s s' k shared same alone mine stay = (
  λ l m i a b. elim (Bool-cases (k == l)) [
    | inl x ↦ elim (Bool-cases (k == m)) [
      | inl y ↦ ground (arith, x, y)
      | inr y ↦ ground (arith, x, y, same m, alone m i, a, b)
    ]
    | inr x ↦ elim (Bool-cases (k == m)) [
      | inl y ↦ ground (arith, x, y, same l, alone l i, a, b)
      | inr y ↦ ground (arith, x, y, same l, same m, shared.0 l m i, a, b)
    ]
  ],
  λ l i a. elim (Bool-cases (k == l)) [
    | inl x ↦
        subst (λ l. (text_at s' l).iptr ≡ some i → IsHeld s'.store (text_at s' l) i)
          (ground (arith, x)) (mine i) a
    | inr x ↦
        let ne : k ≢ l = ground (arith, x) in
        let old : (text_at s l).iptr ≡ some i = ap (λ x. x.iptr) (sym (same l ne)) ∙ a in
        let (len, used, marked) = stay l i ne old in
        let (_, some_count, few, _, _) = shared.1 l i old in
        (len, ground (arith, same l ne, some_count), ground (arith, same l ne, few), used, marked)
  ],
)
