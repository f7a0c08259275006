-- ===== src/Tty/Input.antt =====
-- `ttyinput` of kernel/tty.c.
use unix_v.Common.{
  ℕ, ◌+◌, ◌%◌, ◌<◌, ◌≤◌, ◌≡◌, ◌≢◌, ◌∙◌, ap, sym, subst, arith, true, false, ◌&&◌, ◌||◌, ◌==◌,
  if◌then◌else◌, none, some, List, [], ◌∷◌, ◌++◌, length, if_true, if_false, ◌⊎◌,
}
use unix_v.Clist.{empty_clist, info}
use unix_v.Clist.Leak.{IsFreeList}
use unix_v.Clist.Fifo.{Holds, IsText-same, putc-Holds}
use unix_v.Tty.{
  Terminal, put_raw, set_raw, echoed, keep, ttyinput, ttyinput_cooked, ttyoutput, ttstart, vga_putc,
}
use unix_v.Tty.Output.{ShowsOne, ttstart-ttyoutput}

-- a character that is neither edited nor a delimiter
unfoldable pub IsOrdinary : ℕ → Terminal → Type 0
IsOrdinary c s =
    (c < 128)
    × (c ≢ 3)
    × (c ≢ 4)
    × (c ≢ 10)
    × (c ≢ 13)
    × (c ≢ 28)
    × (c ≢ s.tty.erase)
    × (c ≢ s.tty.kill)

-- What the terminal is after the character was typed.
unfoldable pub Typed : (c : ℕ) → List ℕ → (s t : Terminal) → Type 0
Typed c l s t =
    Holds t.tty.rawq t.pool (l ++ c ∷ [])
    × (t.screen ≡ vga_putc c s.screen)
    × (t.tty.canq ≡ s.tty.canq)
    × (t.tty.delct ≡ s.tty.delct)
    × (t.signals ≡ s.signals)

keep-Typed :
    (c b d : ℕ) (s t : Terminal) (l k : List ℕ)
    → IsOrdinary c s
    → ShowsOne c b (d ∷ k) s t
    → s.tty.rawq.cc ≢ 0
    → s.tty.rawq.cl % 8 ≢ 0
    → (info b < s.tty.rawq.cf) ⊎ (s.tty.rawq.cf + length l ≤ info b)
    → Holds s.tty.rawq s.pool l
    → Typed c l s (keep c t)
unfolding keep IsOrdinary ShowsOne Typed Holds IsFreeList
keep-Typed c b d s t l k ordinary (screen, tty, _, signals, free, same) used room away
      (len, text, block) =
    let raw : t.tty.rawq ≡ s.tty.rawq = ap (λ t. t.rawq) tty in
    let held : Holds t.tty.rawq t.pool l =
      subst (λ q. Holds q t.pool l) (sym raw)
        (len, IsText-same s.tty.rawq.cf (info b) s.pool.byte t.pool.byte l same away text, block) in
    let (q, m, put, all, _, _, _) =
      putc-Holds t.tty.rawq t.pool c l (rw raw used) (rw raw room) (ground (arith, free))
        (omega (arith, ordinary.0)) held in
    let kept : keep c t ≡ set_raw q m t =
      if_false (c == 10 || c == 4 || c == t.tty.erase || c == t.tty.kill) _ (put_raw c t)
        (ground (arith, ordinary, ap (λ t. t.erase) tty, ap (λ t. t.kill) tty))
      ∙ ap (λ o. elim o as (λ _. Terminal) [ none ↦ t | some (q, m) ↦ set_raw q m t ]) put in
    subst (Typed c l s) (sym kept)
      (all, screen, ap (λ t. t.canq) tty, ap (λ t. t.delct) tty, signals)

-- An ordinary character that is typed at a terminal that is not raw and echoes, where its output
-- queue is empty, at least two blocks are free, and the raw queue is not empty and lies, with room for
-- one more, in one block before the next multiple of 8, apart from the first free block: it is
-- shown on the screen and is the last of the raw queue; the lines that are ready, their number and
-- the signals stay as they were.
pub ttyinput-Typed :
    (c b d : ℕ) (s : Terminal) (l k : List ℕ)
    → IsOrdinary c s
    → s.tty.raw ≡ false
    → s.tty.echo ≡ true
    → s.tty.outq ≡ empty_clist
    → IsFreeList s.pool.cfreelist s.pool.byte (b ∷ d ∷ k)
    → s.tty.rawq.cc ≢ 0
    → s.tty.rawq.cl % 8 ≢ 0
    → (info b < s.tty.rawq.cf) ⊎ (s.tty.rawq.cf + length l ≤ info b)
    → Holds s.tty.rawq s.pool l
    → Typed c l s (ttyinput c s)
unfolding ttyinput ttyinput_cooked echoed IsOrdinary
ttyinput-Typed c b d s l k ordinary cooked echo none_out free used room away held =
    let small : c % 128 ≡ c = omega (arith, ordinary.0) in
    let same : ttyinput c s ≡ ttyinput_cooked c s =
      if_false s.tty.raw _ _ cooked
      ∙ ap (λ k. ttyinput_cooked (if k == 13 && s.tty.crmod then 10 else k) s) small
      ∙ ap (λ k. ttyinput_cooked k s)
          (if_false (c == 13 && s.tty.crmod) 10 c (ground (arith, ordinary))) in
    let inner : ttyinput_cooked c s ≡ keep c (ttstart (ttyoutput c s)) =
      if_false (c == 3) _ _ (ground (arith, ordinary))
      ∙ if_false (c == 28) _ _ (ground (arith, ordinary))
      ∙ ap (keep c) (
          if_true s.tty.echo _ _ echo
          ∙ ap ttstart (if_false (c == s.tty.erase) _ _ (ground (arith, ordinary)))) in
    subst (Typed c l s) (sym (same ∙ inner)) (
      keep-Typed c b d s (ttstart (ttyoutput c s)) l k ordinary
        (ttstart-ttyoutput c b s (d ∷ k) (ground (arith, ordinary)) (omega (arith, ordinary.0))
          none_out free)
        used room away held)
