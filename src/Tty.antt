-- ===== src/Tty.antt =====
-- The terminal of kernel/tty.c, over the character lists of Clist and the screen of Prf, whose
-- functions the file has again under the same names. A call that sleeps ends there; the memory of
-- the user is a function, and the addresses that cannot be read or written are a parameter.
pub mod Output
pub mod Input
pub mod Canon
mod Tests
use unix_v.Common.{
  ℕ, zero, suc, ◌+◌, ◌-◌, ◌*◌, ◌/◌, ◌%◌, ◌^◌, Bool, true, false, not, ◌&&◌, ◌||◌, Option, none,
  some, List, [], ◌∷◌, ◌++◌, ◌==◌, if◌then◌else◌, leb, ltb,
}
use unix_v.Prf.{Console, put_at_cursor, next_row, scroll_rows}
use unix_v.Clist.{Cblocks, Clist, empty_clist, getc, putc}

-- `struct tty` of the console; `t_delct` and `t_col` have 8 bits, with those from 128 on negative.
pub record Tty : Type 0 where
  pub rawq : Clist
  pub canq : Clist
  pub outq : Clist
  pub echo : Bool
  pub crmod : Bool
  pub raw : Bool
  pub carr_on : Bool
  pub asleep : Bool
  pub delct : ℕ
  pub col : ℕ
  pub erase : ℕ
  pub kill : ℕ

-- the queues on which processes sleep
pub data TtyQueue : Type 0 where
  raw_queue : TtyQueue
  out_queue : TtyQueue

-- The terminal, the blocks, the screen, the queues on which `wakeup` was called, and the signals that
-- were sent to the processes of the terminal.
pub record Terminal : Type 0 where
  pub tty : Tty
  pub pool : Cblocks
  pub screen : Console
  pub woken : List TtyQueue
  pub signals : List ℕ

abbrev pub with_tty : Tty → Terminal → Terminal
with_tty t s = record s { tty = t }

abbrev pub wake_queue : TtyQueue → Terminal → Terminal
wake_queue q s = record s { woken = q ∷ s.woken }

abbrev pub set_raw : Clist → Cblocks → Terminal → Terminal
set_raw q m s = record s { tty = record s.tty { rawq = q }; pool = m }

abbrev pub set_can : Clist → Cblocks → Terminal → Terminal
set_can q m s = record s { tty = record s.tty { canq = q }; pool = m }

abbrev pub set_out : Clist → Cblocks → Terminal → Terminal
set_out q m s = record s { tty = record s.tty { outq = q }; pool = m }

-- The callers of `putc` do not look at what it returns.
abbrev pub put_ignored : ℕ → Clist → Cblocks → (Clist → Cblocks → Terminal) → Terminal → Terminal
put_ignored c q m set s = elim (putc c q m) as (λ _. Terminal) [
  | none ↦ s
  | some (q', m') ↦ set q' m'
]

abbrev pub put_raw : ℕ → Terminal → Terminal
put_raw c s = put_ignored c s.tty.rawq s.pool (λ q m. set_raw q m s) s

abbrev pub put_can : ℕ → Terminal → Terminal
put_can c s = put_ignored c s.tty.canq s.pool (λ q m. set_can q m s) s

abbrev pub put_out : ℕ → Terminal → Terminal
put_out c s = put_ignored c s.tty.outq s.pool (λ q m. set_out q m s) s

-- `getc` until it returns -1, with fuel for the characters of the list
unfoldable pub drain : (fuel : ℕ) → Clist → Cblocks → Clist × Cblocks
drain zero p m = (p, m)
drain (suc fuel) p m =
    let r = getc p m in
    elim r.0 as (λ _. Clist × Cblocks) [ none ↦ (r.1, r.2) | some c ↦ drain fuel r.1 r.2 ]

unfoldable pub flushtty : Terminal → Terminal
flushtty s =
    let (can, m) = drain s.tty.canq.cc s.tty.canq s.pool in
    let (out, m') = drain s.tty.outq.cc s.tty.outq m in
    let (raw, m'') = drain s.tty.rawq.cc s.tty.rawq m' in
    record s {
      tty = record s.tty { rawq = raw; canq = can; outq = out; delct = 0 };
      pool = m'';
      woken = out_queue ∷ raw_queue ∷ s.woken;
    }

-- What a call comes to that may sleep on a queue.
pub data Wait : Type 0 where
  done : Terminal → Wait
  sleeps : TtyQueue → Terminal → Wait

unfoldable pub wflushtty : Terminal → Wait
wflushtty s =
    if s.tty.outq.cc == 0
    then done (flushtty s)
    else sleeps out_queue (with_tty (record s.tty { asleep = true }) s)

-- the column after a character; a tab has moved it on by one before
abbrev pub next_col : ℕ → ℕ → ℕ
next_col c col =
    let t = (col + 1) % 256 in
    if c == 10 || c == 13
    then 0
    else if c == 8
    then (if t == 0 || leb 128 t then t else t - 1)
    else if c == 9
    then (t + 8) / 8 * 8 % 256
    else t

unfoldable pub output_one : ℕ → Terminal → Terminal
output_one c s = let t = put_out c s in with_tty (record t.tty { col = next_col c t.tty.col }) t

-- A newline goes out behind a return.
unfoldable pub ttyoutput : ℕ → Terminal → Terminal
ttyoutput c s = output_one c (if c == 10 && s.tty.crmod then output_one 13 s else s)

-- The screen of tty.c: as `vga_putchar` without a framebuffer, and a backspace moves the cursor back.
unfoldable pub vga_putc : ℕ → Console → Console
vga_putc c s =
    let back = if s.col == 0 then s else record s { col = s.col - 1 } in
    let t = next_row (if c == 8 then back else put_at_cursor c s) in scroll_rows (t.row - 24) t

-- the loop of `ttstart`, with fuel for the characters of the queue
unfoldable pub show : (fuel : ℕ) → Clist → Cblocks → Console → Clist × Cblocks × Console
show zero p m v = (p, m, v)
show (suc fuel) p m v =
    let r = getc p m in
    elim r.0 as (λ _. Clist × Cblocks × Console) [
      | none ↦ (r.1, r.2, v)
      | some c ↦ show fuel r.1 r.2 (vga_putc c v)
    ]

unfoldable pub ttstart : Terminal → Terminal
ttstart s =
    let (out, m, v) = show s.tty.outq.cc s.tty.outq s.pool s.screen in
    let t : Terminal = record s { tty = record s.tty { outq = out }; pool = m; screen = v } in
    if s.tty.asleep then wake_queue out_queue (with_tty (record t.tty { asleep = false }) t) else t

-- what is shown of a character that is typed
unfoldable pub echoed : ℕ → Terminal → Terminal
echoed c s = if c == s.tty.erase then ttyoutput 8 (ttyoutput 32 (ttyoutput 8 s)) else ttyoutput c s

-- A character that ends a line, or edits it, counts as a delimiter.
unfoldable pub keep : ℕ → Terminal → Terminal
keep c s =
    let t = put_raw c s in
    if c == 10 || c == 4 || c == s.tty.erase || c == s.tty.kill
    then wake_queue raw_queue (with_tty (record t.tty { delct = (t.tty.delct + 1) % 256 }) t)
    else t

-- the signals SIGINT and SIGQIT
unfoldable pub interrupt : ℕ → Terminal → Terminal
interrupt sig s = flushtty (record s { signals = sig ∷ s.signals })

unfoldable pub ttyinput_cooked : ℕ → Terminal → Terminal
ttyinput_cooked c s =
    if c == 3
    then interrupt 2 s
    else if c == 28
    then interrupt 3 s
    else keep c (if s.tty.echo then ttstart (echoed c s) else s)

unfoldable pub ttyinput : ℕ → Terminal → Terminal
ttyinput ch s =
    let c = ch % 128 in
    let t = put_raw c s in
    if s.tty.raw
    then wake_queue raw_queue (with_tty (record t.tty { delct = (t.tty.delct + 1) % 256 }) t)
    else ttyinput_cooked (if c == 13 && s.tty.crmod then 10 else c) s

-- What `canon` comes to: it returns 0 or 1, or sleeps.
pub data CanonResult : Type 0 where
  no_more : Terminal → CanonResult
  delivered : Terminal → CanonResult
  waits : Terminal → CanonResult

abbrev pub less_delct : Terminal → Terminal
less_delct s = with_tty (record s.tty { delct = (s.tty.delct + 255) % 256 }) s

-- a character of a line that is not edited
unfoldable pub canon_put : ℕ → Terminal → CanonResult
canon_put c s = delivered (put_can c (if c == 10 || c == 4 then less_delct s else s))

-- an erase or a kill character acts on the queue of edited lines
unfoldable pub erase_one : Terminal → Terminal
erase_one s = let r = getc s.tty.canq s.pool in if s.tty.canq.cc == 0 then s else set_can r.1 r.2 s

unfoldable pub kill_line : Terminal → Terminal
kill_line s = let (q, m) = drain s.tty.canq.cc s.tty.canq s.pool in set_can q m s

-- what becomes of a character of the raw queue; after an edit the loop goes on
unfoldable pub canon_char : (again : Terminal → CanonResult) (ch : ℕ) → Terminal → CanonResult
canon_char again ch t =
    let c = if ch == 13 && t.tty.crmod then 10 else ch in
    let erased = again (erase_one t) in
    let killed = again (kill_line t) in
    if ch == 255
    then no_more (less_delct t)
    else if t.tty.raw
    then delivered (put_can ch t)
    else if c == t.tty.erase
    then erased
    else if c == t.tty.kill
    then killed
    else canon_put c t

-- the character that `getc` has given, if any
abbrev pub canon_got :
    (again : Terminal → CanonResult) → Option ℕ × Clist × Cblocks → Terminal → CanonResult
canon_got again (none, q, m) s = no_more (set_raw q m s)
canon_got again (some ch, q, m) s = canon_char again ch (set_raw q m s)

-- The loop of `canon`, with fuel for the characters of the raw queue and for its end.
unfoldable pub canon_loop : (fuel : ℕ) → Terminal → CanonResult
canon_loop zero s = no_more s
canon_loop (suc fuel) s = canon_got (canon_loop fuel) (getc s.tty.rawq s.pool) s

unfoldable pub canon : Terminal → CanonResult
canon s =
    if s.tty.delct == 0
    then (if s.tty.carr_on then waits s else no_more s)
    else canon_loop (suc s.tty.rawq.cc) s

-- What `ttwrite` comes to: the characters left, and the terminal; it fails with EFAULT at an address
-- that cannot be read.
pub data Written : Type 0 where
  written : Terminal → Written
  fault : (left : ℕ) → Terminal → Written

unfoldable pub ttwrite_from : (fubyte : ℕ → Option ℕ) (count base : ℕ) → Terminal → Written
ttwrite_from fubyte zero base s = written (ttstart s)
ttwrite_from fubyte (suc count) base s = elim (fubyte base) as (λ _. Written) [
  | none ↦ fault (suc count) s
  | some c ↦ ttwrite_from fubyte count (base + 1) (ttyoutput c s)
]

unfoldable pub ttwrite : (fubyte : ℕ → Option ℕ) (count base : ℕ) → Terminal → Written
ttwrite fubyte count base s = if s.tty.carr_on then ttwrite_from fubyte count base s else written s
