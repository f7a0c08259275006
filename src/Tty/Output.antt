-- ===== src/Tty/Output.antt =====
-- `ttyoutput` and `ttstart` of kernel/tty.c.
use unix_v.Common.{
  ℕ, zero, suc, ◌-◌, ◌%◌, ◌<◌, ◌≡◌, ◌≢◌, refl, ◌∙◌, ap, sym, subst, arith, Bool, true, false, ◌==◌,
  if◌then◌else◌, Option, none, some, List, ◌∷◌, if_true, if_false,
}
use unix_v.Prf.{Console, vga_putchar, next_row, scroll_rows}
use unix_v.Prf.Screen.{vga_putchar-unframed}
use unix_v.Clist.{Cblocks, Clist, empty_clist, info, getc, putc}
use unix_v.Clist.Leak.{IsFreeList, getc-putc}
use unix_v.Tty.{
  Terminal, out_queue, put_out, set_out, next_col, output_one, ttyoutput, vga_putc, show, ttstart,
  with_tty, wake_queue,
}

-- The screen of the terminal does what the screen of the kernel's messages does, for every character
-- but a backspace, where no framebuffer is active.
pub vga_putc-vga_putchar :
    (c : ℕ) (s : Console) → c ≢ 8 → s.framed ≡ false → vga_putc c s ≡ vga_putchar c s
unfolding vga_putc
vga_putc-vga_putchar c s ordinary plain =
    ap (λ (t : Console). scroll_rows ((next_row t).row - 24) (next_row t))
      (if_false (c == 8) _ _ (ground (arith, ordinary)))
    ∙ sym (vga_putchar-unframed c s plain)

put_out-lem :
    (c : ℕ) (s : Terminal) (q : Clist) (m : Cblocks)
    → putc c s.tty.outq s.pool ≡ some (q, m)
    → put_out c s ≡ set_out q m s
put_out-lem c s q m e =
    ap (λ o. elim o as (λ _. Terminal) [ none ↦ s | some (q, m) ↦ set_out q m s ]) e

show-empty : (n : ℕ) (m : Cblocks) (v : Console) → show n empty_clist m v ≡ (empty_clist, m, v)
unfolding show getc
show-empty zero m v = refl
show-empty (suc n) m v = refl

-- one character is shown, and the list is empty
show-one :
    (n k : ℕ) (q : Clist) (m : Cblocks) (v : Console)
    → n ≢ 0
    → getc q m ≡ (some k, empty_clist, m)
    → show n q m v ≡ (empty_clist, m, vga_putc k v)
unfolding show
show-one zero k q m v some_fuel e = absurd (some_fuel refl)
show-one (suc n) k q m v some_fuel e =
    ap
      (λ (r : Option ℕ × Clist × Cblocks). elim r.0 as (λ _. Clist × Cblocks × Console) [
        | none ↦ (r.1, r.2, v)
        | some c ↦ show n r.1 r.2 (vga_putc c v)
      ])
      e
    ∙ show-empty n m (vga_putc k v)

getc-none : (q : Clist) (m : Cblocks) → q.cc ≡ 0 → getc q m ≡ (none, q, m)
unfolding getc
getc-none q m z = if_true (q.cc == 0) _ _ (ground (arith, z))

getc-count : (k : ℕ) (q : Clist) (m : Cblocks) → getc q m ≡ (some k, empty_clist, m) → q.cc ≢ 0
getc-count k q m e z =
    let both : none ≡ some k =
      ap (λ (r : Option ℕ × Clist × Cblocks). r.0) (sym (getc-none q m z) ∙ e) in
    ground (arith, both)

-- the terminal after its output queue was shown
abbrev after_show : Clist × Cblocks × Console → Terminal → Terminal
after_show (out, m, v) s =
    let t : Terminal = record s { tty = record s.tty { outq = out }; pool = m; screen = v } in
    if s.tty.asleep then wake_queue out_queue (with_tty (record t.tty { asleep = false }) t) else t

ttstart-lem :
    (s : Terminal) (r : Clist × Cblocks × Console)
    → show s.tty.outq.cc s.tty.outq s.pool s.screen ≡ r
    → ttstart s ≡ after_show r s
unfolding ttstart
ttstart-lem s r e = ap (λ r. after_show r s) e

-- What the terminal is after one character was shown.
unfoldable pub ShowsOne : (c b : ℕ) → List ℕ → (s t : Terminal) → Type 0
ShowsOne c b l s t =
    (t.screen ≡ vga_putc c s.screen)
    × (t.tty ≡ record s.tty { outq = empty_clist; asleep = false; col = next_col c s.tty.col })
    × (t.woken ≡ (if s.tty.asleep then out_queue ∷ s.woken else s.woken))
    × (t.signals ≡ s.signals)
    × IsFreeList t.pool.cfreelist t.pool.byte l
    × ((j : ℕ) → j ≢ info b → t.pool.byte j ≡ s.pool.byte j)

by_asleep :
    (c b : ℕ) (l : List ℕ) (s : Terminal) (m : Cblocks)
    → ((j : ℕ) → j ≢ info b → m.byte j ≡ s.pool.byte j)
    → (w : Bool) → s.tty.asleep ≡ w
    → IsFreeList m.cfreelist m.byte l
    → (let t : Terminal = record s {
      tty = record s.tty { outq = empty_clist; col = next_col c s.tty.col };
      pool = m;
      screen = vga_putc c s.screen;
    } in
        ShowsOne c b l s
          (if w then wake_queue out_queue (with_tty (record t.tty { asleep = false }) t) else t))
unfolding ShowsOne
by_asleep c b l s m same true e free = (refl, refl, sym (if_true _ _ _ e), refl, free, same)
by_asleep c b l s m same false e free = (
  refl,
  ap (λ b. record s.tty { outq = empty_clist; asleep = b; col = next_col c s.tty.col }) e,
  sym (if_false _ _ _ e),
  refl,
  free,
  same,
)

-- Where the output queue is empty and there are free blocks: a character other than a newline that is
-- sent to the terminal is shown on the screen by ttstart, and the queue is empty again; the column
-- moves with it, who waits for the output is woken, and nothing else of the terminal changes. But one
-- free block is free no more, and one byte of it has changed.
pub ttstart-ttyoutput :
    (c b : ℕ) (s : Terminal) (l : List ℕ)
    → c ≢ 10
    → c < 256
    → s.tty.outq ≡ empty_clist
    → IsFreeList s.pool.cfreelist s.pool.byte (b ∷ l)
    → ShowsOne c b l s (ttstart (ttyoutput c s))
unfolding ttyoutput output_one
ttstart-ttyoutput c b s l ordinary small none_out free =
    let (q, m, put, got, rest, same) = getc-putc c b s.pool l free in
    let t = set_out q m s in
    let u = with_tty (record t.tty { col = next_col c t.tty.col }) t in
    let sent : ttyoutput c s ≡ u =
      ap (output_one c) (if_false _ (output_one 13 s) s (ground (arith, ordinary)))
      ∙ ap (λ (t : Terminal). with_tty (record t.tty { col = next_col c t.tty.col }) t)
          (put_out-lem c s q m (ap (λ q. putc c q s.pool) none_out ∙ put)) in
    let k : c % 256 ≡ c = omega (arith, small) in
    let shown : show q.cc q m s.screen ≡ (empty_clist, m, vga_putc c s.screen) =
      show-one q.cc (c % 256) q m s.screen (getc-count (c % 256) q m got) got
      ∙ ap (λ k. (empty_clist, m, vga_putc k s.screen)) k in
    subst (ShowsOne c b l s) (sym (ap ttstart sent ∙ ttstart-lem u _ shown))
      (by_asleep c b l s m same s.tty.asleep refl rest)
