-- ===== src/Prf/Formats.antt =====
-- Formats of `kprintf` of kernel/prf.c, piece by piece.
use unix_v.Common.{
  ℕ, ◌≡◌, ◌≢◌, refl, sym, ap, ◌∙◌, arith, Bool, true, false, ◌||◌, ◌==◌, if◌then◌else◌, Option,
  none, some, List, [], ◌∷◌, ◌++◌, append_assoc, append-nil, if_false, Bool-cases, inl, inr,
}
use unix_v.Prf.{
  Console, Arg, Place, in_text, after_percent, in_width, Printed, printed, past_end, bad_args,
  directive, is_digit, kprintf_from, kprintf, serial_putchar, put_both,
}
use unix_v.Prf.Numbers.{put_both-serial}

-- Both runs of a format take the same branch.
same_branch :
    (b : Bool) (o : Option (List Arg × Console)) (w w' : Printed)
    (k k' : List Arg → Console → Printed) (end goal : Printed)
    → (w ≡ end → w' ≡ goal)
    → (bad_args ≡ end → bad_args ≡ goal)
    → ((args : List Arg) (s : Console) → k args s ≡ end → k' args s ≡ goal)
    → (if b then w else elim o as (λ _. Printed) [ none ↦ bad_args | some (args, s) ↦ k args s ])
      ≡ end
    → (if b then w' else elim o as (λ _. Printed) [ none ↦ bad_args | some (args, s) ↦ k' args s ])
      ≡ goal
same_branch true o w w' k k' end goal in_w none_left next e = in_w e
same_branch false none w w' k k' end goal in_w none_left next e = none_left e
same_branch false (some (args, s)) w w' k k' end goal in_w none_left next e = next args s e

-- Where the first part of the format is read to its end, the second part is printed after it.
kprintf_from-append :
    (p : Place) (l m : List ℕ) (args args' : List Arg) (s s' : Console)
    → kprintf_from p l args s ≡ printed args' s'
    → kprintf_from p (l ++ m) args s ≡ kprintf_from in_text m args' s'
unfolding kprintf_from
kprintf_from-append in_text [] m args args' s s' e = ground (arith, e)
kprintf_from-append after_percent [] m args args' s s' e = ground (arith, e)
kprintf_from-append in_width [] m args args' s s' e = ground (arith, e)
kprintf_from-append in_text (c ∷ l) m args args' s s' e =
    kprintf_from-append (if c == 37 then after_percent else in_text) l m args args' _ s' e
kprintf_from-append after_percent (c ∷ l) m args args' s s' e =
    same_branch (c == 45 || is_digit c) (directive c args s) _ _ _ _ (printed args' s') _
      (kprintf_from-append in_width l m args args' s s') (λ bad. ground (arith, bad))
      (λ a t. kprintf_from-append in_text l m a args' t s') e
kprintf_from-append in_width (c ∷ l) m args args' s s' e =
    same_branch (is_digit c) (directive c args s) _ _ _ _ (printed args' s') _
      (kprintf_from-append in_width l m args args' s s') (λ bad. ground (arith, bad))
      (λ a t. kprintf_from-append in_text l m a args' t s') e

-- Where kprintf reads a format to its end, a format that goes on prints the rest with the arguments
-- that are left, after what the first part has printed.
pub kprintf-append :
    (l m : List ℕ) (args args' : List Arg) (s s' : Console)
    → kprintf l args s ≡ printed args' s'
    → kprintf (l ++ m) args s ≡ kprintf m args' s'
kprintf-append = kprintf_from-append in_text

-- Where kprintf reads a format to its end, the format with a `%` behind it is read beyond its end.
pub kprintf-percent :
    (l : List ℕ) (args args' : List Arg) (s s' : Console)
    → kprintf l args s ≡ printed args' s'
    → (t : Console) × (kprintf (l ++ 37 ∷ []) args s ≡ past_end t)
unfolding kprintf_from
kprintf-percent l args args' s s' e =
    (put_both 0 (put_both 37 s'), kprintf-append l (37 ∷ []) args args' s s' e)

-- each newline after a return
unfoldable pub with_returns : List ℕ → List ℕ
with_returns [] = []
with_returns (c ∷ l) = (if c == 10 then 13 ∷ 10 ∷ [] else c ∷ []) ++ with_returns l

-- no character is a `%`
unfoldable pub IsPlain : List ℕ → Type 0
IsPlain [] = Unit {0}
IsPlain (c ∷ l) = (c ≢ 37) × IsPlain l

text-serial :
    (c : ℕ) (s : Console)
    → (put_both c (if c == 10 then serial_putchar 13 s else s)).serial
      ≡ s.serial ++ (if c == 10 then 13 ∷ 10 ∷ [] else c ∷ [])
unfolding serial_putchar
text-serial c s = elim (Bool-cases (c == 10)) [
  | inl e ↦
      let c10 : c ≡ 10 = ground (arith, e) in
      ap (λ c. (put_both c (if c == 10 then serial_putchar 13 s else s)).serial) c10
      ∙ put_both-serial 10 (serial_putchar 13 s)
      ∙ append_assoc s.serial (13 ∷ []) (10 ∷ [])
      ∙ ap (λ c. s.serial ++ (if c == 10 then 13 ∷ 10 ∷ [] else c ∷ [])) (sym c10)
  | inr e ↦
      ap (λ s. (put_both c s).serial) (if_false (c == 10) _ _ e)
      ∙ put_both-serial c s
      ∙ ap (λ l. s.serial ++ l) (sym (if_false (c == 10) _ _ e))
]

-- kprintf of a format without `%` reads it to its end, takes no argument, and sends it to the serial
-- line with a return before each newline.
pub kprintf-plain :
    (l : List ℕ) (args : List Arg) (s : Console)
    → IsPlain l
    → (s' : Console) × (kprintf l args s ≡ printed args s')
      × (s'.serial ≡ s.serial ++ with_returns l)
unfolding kprintf_from IsPlain with_returns
kprintf-plain [] args s plain = (s, refl, sym (append-nil s.serial))
kprintf-plain (c ∷ l) args s (ordinary, plain) =
    let no : c == 37 ≡ false = ground (arith, ordinary) in
    let t = put_both c (if c == 10 then serial_putchar 13 s else s) in
    let (s', e, out) = kprintf-plain l args t plain in
    (
      s',
      rw no e,
      out
          ∙ ap (λ k. k ++ with_returns l) (text-serial c s)
          ∙ append_assoc s.serial (if c == 10 then 13 ∷ 10 ∷ [] else c ∷ []) (with_returns l),
    )
