-- ===== src/Tty/Tests.antt =====
-- A terminal with a pool of free blocks: runs and the theorems at it.
use unix_v.Common.{
  ℕ, ◌+◌, ◌≡◌, refl, inl, inr, none, some, Option, List, [], ◌∷◌, arith, true, false, ltb,
  if◌then◌else◌,
}
use unix_v.Prf.{Console, put_at_cursor, next_row, scroll_rows}
use unix_v.Clist.{empty_clist, store_byte, getc, putc, c_next, set_next, cinit_from}
use unix_v.Clist.Leak.{IsFreeList, IsApart}
use unix_v.Clist.Fifo.{Holds, IsText, get_list}
use unix_v.Tty.{
  Tty, Terminal, CanonResult, delivered, Written, written, fault, ttyoutput, output_one, ttstart,
  show, vga_putc, ttyinput, ttyinput_cooked, echoed, keep, canon, canon_loop, canon_char, canon_put,
  erase_one, kill_line, drain, ttwrite, ttwrite_from,
}
use unix_v.Tty.Input.{IsOrdinary, Typed, ttyinput-Typed}
use unix_v.Tty.Canon.{AreEdits, Delivers, IsReady, canon-Delivers}

abbrev screen : Console
screen = record { framed = false; sent = []; cell = λ _. 3872; row = 0; col = 0; serial = [] }

abbrev tty : Tty
tty = record {
  rawq = empty_clist;
  canq = empty_clist;
  outq = empty_clist;
  echo = true;
  crmod = true;
  raw = false;
  carr_on = true;
  asleep = false;
  delct = 0;
  col = 0;
  erase = 8;
  kill = 64;
}

-- eight free blocks, the first at 4180
abbrev terminal : Terminal
terminal = record {
  tty = tty;
  pool = cinit_from 4096 8 0 (record { byte = λ _. 0; cfreelist = 0 });
  screen = screen;
  woken = [];
  signals = [];
}

abbrev edited : CanonResult → List ℕ
edited (delivered s) = get_list 9 s.tty.canq s.pool
edited _ = []

-- "ab", a backspace and a newline: the first edited line is the character that was typed first
run_canon : edited (canon (ttyinput 10 (ttyinput 8 (ttyinput 98 (ttyinput 97 terminal))))) ≡ 97 ∷ []
unfolding cinit_from set_next c_next putc getc drain ttyinput ttyinput_cooked echoed keep ttyoutput
    output_one ttstart show vga_putc put_at_cursor next_row scroll_rows canon canon_loop canon_char
    canon_put erase_one kill_line get_list
run_canon = refl

abbrev left_of : Written → ℕ
left_of (written s) = 0
left_of (fault n s) = n

-- the user's memory has 3 characters from 0 on
abbrev user : ℕ → Option ℕ
user a = if ltb a 3 then some (65 + a) else none

run_ttwrite : left_of (ttwrite user 5 0 terminal) ≡ 2
unfolding ttwrite ttwrite_from cinit_from set_next c_next putc getc ttyoutput output_one
run_ttwrite = refl

-- a backspace, "a" and a newline in the block at 4120, and two free blocks
abbrev typed : Terminal
typed = record terminal {
  tty = record tty { rawq = record { cc = 3; cf = 4124; cl = 4127 }; delct = 2 };
  pool = record {
    byte =
        store_byte 4124 8
          (store_byte 4125 97 (store_byte 4126 10 (set_next 4108 4096 (set_next 4096 0 (λ _. 0)))));
    cfreelist = 4108;
  };
}

typed-IsFreeList : IsFreeList typed.pool.cfreelist typed.pool.byte (4108 ∷ 4096 ∷ [])
unfolding IsFreeList IsApart c_next set_next
typed-IsFreeList = (refl, omega arith, (inr (omega arith), tt), (refl, omega arith, tt, refl))

typed-Holds : Holds typed.tty.rawq typed.pool (8 ∷ 97 ∷ 10 ∷ [])
unfolding Holds IsText
typed-Holds = (
  refl,
  (refl, omega arith, (refl, omega arith, (refl, omega arith, tt))),
  λ _. (refl, omega arith),
)

typed-IsReady : IsReady (8 ∷ 97 ∷ 10 ∷ []) typed
unfolding IsReady
typed-IsReady = (refl, refl, omega arith, omega arith, inl (omega arith), typed-Holds)

ordinary : IsOrdinary 98 typed
unfolding IsOrdinary
ordinary = (
  omega arith,
  omega arith,
  omega arith,
  omega arith,
  omega arith,
  omega arith,
  omega arith,
  omega arith,
)

ttyinput-Typed_example : Typed 98 (8 ∷ 97 ∷ 10 ∷ []) typed (ttyinput 98 typed)
ttyinput-Typed_example =
    ttyinput-Typed 98 4108 4096 typed (8 ∷ 97 ∷ 10 ∷ []) [] ordinary refl refl refl typed-IsFreeList
      (omega arith) (omega arith) (inl (omega arith)) typed-Holds

one_edit : AreEdits (8 ∷ []) 8 64
unfolding AreEdits
one_edit = (omega arith, omega arith, inl refl, tt)

canon-Delivers_example : Delivers 97 (10 ∷ []) typed (canon typed)
canon-Delivers_example =
    canon-Delivers (8 ∷ []) 97 (10 ∷ []) typed (omega arith) one_edit typed-IsReady (omega arith)
      (omega arith) (omega arith)
