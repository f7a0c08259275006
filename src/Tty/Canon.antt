-- ===== src/Tty/Canon.antt =====
-- `canon` of kernel/tty.c.
use unix_v.Common.{
  ℕ, zero, suc, ◌+◌, ◌%◌, ◌<◌, ◌≤◌, ◌≡◌, ◌≢◌, refl, ◌∙◌, ap, sym, subst, arith, Bool, true, false,
  ◌&&◌, ◌||◌, ◌==◌, if◌then◌else◌, none, some, List, [], ◌∷◌, ◌++◌, length, length-append, if_true,
  if_false, Bool-cases, inl, inr, ◌⊎◌,
}
use unix_v.Clist.{Clist, empty_clist, info, getc, putc}
use unix_v.Clist.Fifo.{Holds, IsText-same, getc-Holds, putc_first-Holds}
use unix_v.Tty.{
  Tty, Terminal, CanonResult, no_more, delivered, waits, put_can, set_can, set_raw, less_delct,
  canon_put, canon_char, canon_got, canon_loop, canon, erase_one, kill_line, drain,
}

-- the characters are all erase or kill characters
unfoldable pub AreEdits : List ℕ → (erase kill : ℕ) → Type 0
AreEdits [] erase kill = Unit {0}
AreEdits (e ∷ es) erase kill =
    (e ≢ 255) × (e ≢ 13) × ((e ≡ erase) ⊎ (e ≡ kill)) × AreEdits es erase kill

-- a return as a newline, if the terminal maps it
abbrev pub mapped : ℕ → Tty → ℕ
mapped c t = if c == 13 && t.crmod then 10 else c

-- The character is the one edited line, and the raw queue has what comes behind it.
unfoldable pub Delivers : ℕ → List ℕ → Terminal → CanonResult → Type 0
Delivers c l s (delivered t) =
    Holds t.tty.canq t.pool (mapped c s.tty ∷ [])
    × Holds t.tty.rawq t.pool l
    × (t.tty.delct ≡ (
        if mapped c s.tty == 10 || mapped c s.tty == 4
        then (s.tty.delct + 255) % 256
        else s.tty.delct))
Delivers c l s _ = ⊥

-- The terminal in its line mode, with no edited line, a free block apart from the raw queue, and the
-- whole raw queue in one block, before the next multiple of 8.
unfoldable pub IsReady : List ℕ → Terminal → Type 0
IsReady l s =
    (s.tty.raw ≡ false)
    × (s.tty.canq ≡ empty_clist)
    × (s.pool.cfreelist ≢ 0)
    × (s.pool.cfreelist % 4 ≡ 0)
    × ((info s.pool.cfreelist < s.tty.rawq.cf) ⊎ (s.tty.rawq.cf + length l ≤ info s.pool.cfreelist))
    × Holds s.tty.rawq s.pool l

put_can-Delivers :
    (c : ℕ) (l : List ℕ) (s t : Terminal)
    → IsReady l t
    → mapped c s.tty < 256
    → (t.tty.delct ≡ (
        if mapped c s.tty == 10 || mapped c s.tty == 4
        then (s.tty.delct + 255) % 256
        else s.tty.delct))
    → Delivers c l s (delivered (put_can (mapped c s.tty) t))
unfolding IsReady Delivers Holds
put_can-Delivers c l s t (cooked, empty, free, aligned, away, (len, text, block)) small count =
    let k = mapped c s.tty in
    let (q, m, put, held, _, _, _, same) = putc_first-Holds t.pool k free aligned small in
    let e : put_can k t ≡ set_can q m t =
      ap (λ o. elim o as (λ _. Terminal) [ none ↦ t | some (q, m) ↦ set_can q m t ])
        (ap (λ q. putc k q t.pool) empty ∙ put) in
    subst (λ r. Delivers c l s (delivered r)) (sym e)
      (
        held,
        (
          len,
          IsText-same t.tty.rawq.cf (info t.pool.cfreelist) t.pool.byte m.byte l same away text,
          block,
        ),
        count,
      )

-- the first character is taken off the raw queue
take_first :
    (c : ℕ) (l : List ℕ) (s : Terminal)
    → IsReady (c ∷ l) s
    → (q : Clist) × (getc s.tty.rawq s.pool ≡ (some c, q, s.pool)) × IsReady l (set_raw q s.pool s)
unfolding IsReady Holds
take_first c l s (cooked, empty, free, aligned, away, held) =
    let (q, got, rest, front) = getc-Holds s.tty.rawq s.pool c l held in
    (q, got, (cooked, empty, free, aligned, ground (arith, away, front), rest))

erase_one-empty : (s : Terminal) → s.tty.canq ≡ empty_clist → erase_one s ≡ s
unfolding erase_one
erase_one-empty s e = if_true (s.tty.canq.cc == 0) _ _ (ground (arith, ap (λ q. q.cc) e))

kill_line-empty : (s : Terminal) → s.tty.canq ≡ empty_clist → kill_line s ≡ s
unfolding kill_line drain
kill_line-empty s e =
    ap (λ q. let (q', m) = drain q.cc q s.pool in set_can q' m s) e
    ∙ ap (λ q. set_can q s.pool s) (sym e)

cooked_of : (l : List ℕ) (s : Terminal) → IsReady l s → s.tty.raw ≡ false
unfolding IsReady
cooked_of l s ready = ready.0

empty_of : (l : List ℕ) (s : Terminal) → IsReady l s → s.tty.canq ≡ empty_clist
unfolding IsReady
empty_of l s ready = ready.1

plain_char :
    (again : Terminal → CanonResult) (c : ℕ) (s : Terminal)
    → s.tty.raw ≡ false
    → c < 255
    → mapped c s.tty ≢ s.tty.erase
    → mapped c s.tty ≢ s.tty.kill
    → canon_char again c s ≡ canon_put (mapped c s.tty) s
unfolding canon_char
plain_char again c s cooked small no_erase no_kill =
    if_false (c == 255) _ _ (ground (arith, small))
    ∙ if_false s.tty.raw _ _ cooked
    ∙ if_false (mapped c s.tty == s.tty.erase) _ _ (ground (arith, no_erase))
    ∙ if_false (mapped c s.tty == s.tty.kill) _ _ (ground (arith, no_kill))

canon_put-Delivers :
    (c : ℕ) (l : List ℕ) (s : Terminal) (q : Clist)
    → IsReady l (set_raw q s.pool s)
    → c < 255
    → Delivers c l s (canon_put (mapped c s.tty) (set_raw q s.pool s))
unfolding canon_put IsReady
canon_put-Delivers c l s q ready small = by_end (k == 10 || k == 4) refl
  where
    k : ℕ
    k = mapped c s.tty

    t : Terminal
    t = set_raw q s.pool s

    by_end :
        (b : Bool)
        → (k == 10 || k == 4) ≡ b
        → Delivers c l s (delivered (put_can k (if b then less_delct t else t)))
    by_end true e =
        put_can-Delivers c l s (less_delct t) ready (ground (arith, small)) (sym (if_true _ _ _ e))
    by_end false e = put_can-Delivers c l s t ready (ground (arith, small)) (sym (if_false _ _ _ e))

-- An erase or a kill character has no effect: there is no edited line that it could act on.
edit_char :
    (again : Terminal → CanonResult) (e : ℕ) (s : Terminal)
    → s.tty.raw ≡ false
    → s.tty.canq ≡ empty_clist
    → e ≢ 255
    → e ≢ 13
    → (e ≡ s.tty.erase) ⊎ (e ≡ s.tty.kill)
    → canon_char again e s ≡ again s
unfolding canon_char
edit_char again e s cooked empty byte no_return which =
    let c = mapped e s.tty in
    let plain : c ≡ e = if_false (e == 13 && s.tty.crmod) 10 e (ground (arith, no_return)) in
    let start = if_false (e == 255) _ _ (ground (arith, byte)) ∙ if_false s.tty.raw _ _ cooked in
    elim (Bool-cases (c == s.tty.erase)) [
      | inl y ↦ start ∙ if_true (c == s.tty.erase) _ _ y ∙ ap again (erase_one-empty s empty)
      | inr n ↦
          start
          ∙ if_false (c == s.tty.erase) _ _ n
          ∙ if_true (c == s.tty.kill) _ _ (ground (arith, n, plain, which))
          ∙ ap again (kill_line-empty s empty)
    ]

same_Delivers :
    (c : ℕ) (l : List ℕ) (s : Terminal) (q : Clist) (r : CanonResult)
    → Delivers c l (set_raw q s.pool s) r
    → Delivers c l s r
unfolding Delivers
same_Delivers c l s q (delivered t) h = h
same_Delivers c l s q (no_more t) h = h
same_Delivers c l s q (waits t) h = h

canon_loop-Delivers :
    (es : List ℕ) (c : ℕ) (l : List ℕ) (fuel : ℕ) (s : Terminal)
    → length es < fuel
    → AreEdits es s.tty.erase s.tty.kill
    → IsReady (es ++ c ∷ l) s
    → c < 255
    → mapped c s.tty ≢ s.tty.erase
    → mapped c s.tty ≢ s.tty.kill
    → Delivers c l s (canon_loop fuel s)
unfolding canon_loop AreEdits
canon_loop-Delivers es c l zero s enough edits ready small no_erase no_kill =
    absurd (omega (arith, enough))
canon_loop-Delivers [] c l (suc fuel) s enough edits ready small no_erase no_kill =
    let (q, got, rest) = take_first c l s ready in
    let e : canon_loop (suc fuel) s ≡ canon_char (canon_loop fuel) c (set_raw q s.pool s) =
      ap (λ r. canon_got (canon_loop fuel) r s) got in
    subst (Delivers c l s)
      (sym (
        e
        ∙ plain_char (canon_loop fuel) c (set_raw q s.pool s)
            (cooked_of l (set_raw q s.pool s) rest) small no_erase no_kill))
      (canon_put-Delivers c l s q rest small)
canon_loop-Delivers (e ∷ es) c l (suc fuel) s enough (byte, no_return, which, edits) ready small
      no_erase no_kill =
    let (q, got, rest) = take_first e (es ++ c ∷ l) s ready in
    let t = set_raw q s.pool s in
    let step : canon_loop (suc fuel) s ≡ canon_loop fuel t =
      ap (λ r. canon_got (canon_loop fuel) r s) got
      ∙ edit_char (canon_loop fuel) e t (cooked_of (es ++ c ∷ l) t rest)
          (empty_of (es ++ c ∷ l) t rest) byte no_return which in
    subst (Delivers c l s) (sym step) (
      same_Delivers c l s q (canon_loop fuel t) (
        canon_loop-Delivers es c l fuel t (omega (arith, enough)) edits rest small no_erase
          no_kill))

-- canon of a terminal in its line mode that has a delimiter, no edited line, and a free block apart
-- from the raw queue, where the whole raw queue lies in one block before the next multiple of 8: of
-- what was typed, it skips the erase and kill characters and takes the first
-- other one, which alone becomes the edited line, a return as a newline if the terminal maps it;
-- what was typed behind it stays in the raw queue, and a newline or an end of file takes off one
-- delimiter. So an erase or a kill character takes nothing back.
pub canon-Delivers :
    (es : List ℕ) (c : ℕ) (l : List ℕ) (s : Terminal)
    → s.tty.delct ≢ 0
    → AreEdits es s.tty.erase s.tty.kill
    → IsReady (es ++ c ∷ l) s
    → c < 255
    → mapped c s.tty ≢ s.tty.erase
    → mapped c s.tty ≢ s.tty.kill
    → Delivers c l s (canon s)
unfolding canon IsReady Holds
canon-Delivers es c l s some_line edits ready small no_erase no_kill =
    let (_, _, _, _, _, (len, _, _)) = ready in
    subst (Delivers c l s) (sym (if_false (s.tty.delct == 0) _ _ (ground (arith, some_line)))) (
      canon_loop-Delivers es c l (suc s.tty.rawq.cc) s
        (omega (arith, len, length-append es (c ∷ l))) edits ready small no_erase no_kill)
