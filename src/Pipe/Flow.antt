-- ===== src/Pipe/Flow.antt =====
-- A reader and a writer of a pipe of kernel/pipe.c, each of which may block: their calls in any
-- order, and the wakeups.

use unix_v.Common.{
  ℕ, ◌≤◌, ◌≡◌, sym, ap, ◌∙◌, arith, Bool, true, false, not, ◌&&◌, List, [], ◌++◌, length,
  append_assoc, append-nil, length-drop,
}
use unix_v.Pipe.{
  Pipe, read_chan, write_chan, pipsiz, ReadEnd, read_bytes, read_nothing, read_again, read_sleeps,
  read_waits, readp, WriteEnd, written, write_broken, write_again, write_sleeps, write_waits,
  write_spins, writep,
}
use unix_v.Pipe.Queue.{queue, drop-past, IsPipe, has, ReadOutcome, readp-Outcome, Emptied}
use unix_v.Pipe.Writing.{WriteOutcome, writep-Outcome}

-- The pipe, whether the reader and the writer sleep, what the writer has still to write in its
-- call, and all that it was given to write and that the reader has got.
pub record Talk : Type 0 where
  pub pipe : Pipe
  pub reader_sleeps : Bool
  pub writer_sleeps : Bool
  pub todo : List ℕ
  pub given : List ℕ
  pub got : List ℕ

-- the pipe at the start of a call
abbrev fresh : Pipe → Pipe
fresh p = record p { woken = [] }

-- the sleepers that the call has woken run again
abbrev settle : Pipe → Talk → Talk
settle p s = record s {
  pipe = p;
  reader_sleeps = s.reader_sleeps && not (has read_chan p.woken);
  writer_sleeps = s.writer_sleeps && not (has write_chan p.woken);
}

unfoldable pub after_read : Talk → ReadEnd → Talk
after_read s (read_bytes l p) = settle p (record s { got = s.got ++ l })
after_read s (read_nothing p) = settle p s
after_read s (read_again p) = settle p s
after_read s (read_sleeps p) = record (settle p s) { reader_sleeps = true }
after_read s (read_waits p) = record (settle p s) { reader_sleeps = true }

unfoldable pub after_write : Talk → WriteEnd → Talk
after_write s (written p) = settle p (record s { todo = [] })
after_write s (write_broken p) = settle p s
after_write s (write_again m p) = settle p (record s { todo = m })
after_write s (write_sleeps m p) = record (settle p (record s { todo = m })) {
  writer_sleeps = true;
}
after_write s (write_waits m p) = record (settle p (record s { todo = m })) { writer_sleeps = true }
after_write s write_spins = s

-- One call, by whichever of the two runs.
pub data Step : Talk → Talk → Type 0 where
  reads :
      {s : Talk} (n : ℕ)
      → s.reader_sleeps ≡ false
      → Step s (after_read s (readp false n (fresh s.pipe)))
  gets :
      {s : Talk} (l : List ℕ) → s.todo ≡ [] → Step s (record s { todo = l; given = s.given ++ l })
  writes :
      {s : Talk}
      → s.writer_sleeps ≡ false
      → Step s (after_write s (writep false s.todo (fresh s.pipe)))

pub data Reach : Talk → Talk → Type 0 where
  here : {s : Talk} → Reach s s
  next : {s t u : Talk} → Step s t → Reach t u → Reach s u

-- A sleeping reader has left the pipe empty, and is to be woken; a sleeping writer has left it
-- full, and is to be woken; and the bytes are all there, in order.
unfoldable pub IsFlowing : Talk → Type 0
IsFlowing s =
    IsPipe s.pipe
    × (2 ≤ s.pipe.count)
    × (s.given ≡ s.got ++ (queue s.pipe ++ s.todo))
    × (s.reader_sleeps ≡ true → (s.pipe.bytes ≡ []) × (s.pipe.iread ≡ true))
    × (s.writer_sleeps ≡ true → (length s.pipe.bytes ≡ pipsiz) × (s.pipe.iwrite ≡ true))

-- bytes move over from the queue
moved : (a b c d : List ℕ) → a ++ ((b ++ c) ++ d) ≡ (a ++ b) ++ (c ++ d)
moved a b c d = ap (λ m. a ++ m) (append_assoc b c d) ∙ sym (append_assoc a b (c ++ d))

read-IsFlowing :
    (s : Talk) (n : ℕ) (w : ReadEnd)
    → IsFlowing s
    → s.reader_sleeps ≡ false
    → ReadOutcome false n (fresh s.pipe) w
    → IsFlowing (after_read s w)
unfolding IsFlowing ReadOutcome Emptied after_read queue IsPipe
read-IsFlowing s n (read_bytes l p) (ok, open', sum, r, wr) awake
      (ne, len, split, ok', bytes, iread, iwrite, count) =
    (
      ok',
      ground (arith, count, open'),
      sum ∙ ap (λ m. s.got ++ (m ++ s.todo)) split ∙ moved s.got l (queue p) s.todo,
      λ e. ground (arith, e, awake),
      λ e. ground (arith, e, wr, bytes, iwrite),
    )
read-IsFlowing s n (read_nothing p) (ok, open', sum, r, wr) awake (empty, few, _, rest) =
    absurd (omega (arith, few, open'))
read-IsFlowing s n (read_again p) (ok, open', sum, r, wr) awake (empty, more, bad, _, rest) =
    ground (arith, bad)
read-IsFlowing s n (read_sleeps p) (ok, open', sum, r, wr) awake
      (empty, more, _, iread, (bytes, head, lock, count, iwrite, wakes)) =
    (
      (ground (arith, head), ground (arith, bytes), lock),
      ground (arith, count, open'),
      sum
          ∙ ap (λ m. s.got ++ (m ++ s.todo))
              (empty ∙ sym (drop-past p.bytes p.head (ground (arith, bytes)))),
      λ e. (bytes, iread),
      λ e. ground (arith, e, wr, wakes, empty, length-drop s.pipe.head s.pipe.bytes),
    )
read-IsFlowing s n (read_waits p) f awake o = absurd o

write-IsFlowing :
    (s : Talk) (w : WriteEnd)
    → IsFlowing s
    → s.writer_sleeps ≡ false
    → WriteOutcome false s.todo (fresh s.pipe) w
    → IsFlowing (after_write s w)
unfolding IsFlowing WriteOutcome after_write queue IsPipe
write-IsFlowing s (written p) (ok, open', sum, r, wr) awake (added, ok', iwrite, count, wakes) = (
  ok',
  ground (arith, count, open'),
  sum ∙ ap (λ m. s.got ++ m) (sym added ∙ sym (append-nil (queue p))),
  λ e. ground (arith, e, r, wakes),
  λ e. ground (arith, e, awake),
)
write-IsFlowing s (write_broken p) (ok, open', sum, r, wr) awake (ne, few, _, rest) =
    absurd (omega (arith, few, open'))
write-IsFlowing s (write_again m p) f awake (bad, _, _, _, _, _, _) = ground (arith, bad)
write-IsFlowing s (write_sleeps m p) (ok, open', sum, r, wr) awake
      (_, ne, full, ok', iwrite, count, (k, split, added, wakes)) =
    (
      ok',
      ground (arith, count, open'),
      sum
          ∙ ap (λ m. s.got ++ (queue s.pipe ++ m)) split
          ∙ ap (λ m. s.got ++ m)
              (sym (append_assoc (queue s.pipe) k m) ∙ ap (λ q. q ++ m) (sym added)),
      λ e. ground (arith, e, r, wakes),
      λ _. (full, iwrite),
    )
write-IsFlowing s (write_waits m p) f awake o = absurd o
write-IsFlowing s write_spins f awake o = absurd o

Step-IsFlowing : (s t : Talk) → Step s t → IsFlowing s → IsFlowing t
unfolding IsFlowing IsPipe
Step-IsFlowing s _ (reads n awake) f =
    read-IsFlowing s n (readp false n (fresh s.pipe)) f awake
      (readp-Outcome false n (fresh s.pipe) f.0)
Step-IsFlowing s _ (gets l none_left) (ok, open', sum, r, wr) = (
  ok,
  open',
  ap (λ m. m ++ l) sum
      ∙ append_assoc s.got (queue s.pipe ++ s.todo) l
      ∙ ap (λ m. s.got ++ m)
          (append_assoc (queue s.pipe) s.todo l ∙ ap (λ m. queue s.pipe ++ (m ++ l)) none_left),
  r,
  wr,
)
Step-IsFlowing s _ (writes awake) f =
    write-IsFlowing s (writep false s.todo (fresh s.pipe)) f awake
      (writep-Outcome false s.todo (fresh s.pipe) f.0)

-- Whatever the order of the calls of a reader and a writer that may block, from a pipe that is open
-- at both ends and a state that flows: the bytes that the reader has got, those in the pipe and
-- those that the writer has still to write are together the bytes given to it, in order; and not
-- both of them sleep.
pub Reach-IsFlowing :
    (s t : Talk)
    → IsFlowing s
    → Reach s t
    → (t.given ≡ t.got ++ (queue t.pipe ++ t.todo))
      × (t.reader_sleeps && t.writer_sleeps ≡ false)
      × IsFlowing t
unfolding IsFlowing
Reach-IsFlowing s t f here = (f.2, ground (arith, f.3, f.4), f)
Reach-IsFlowing s t f (next {t = u} step more) =
    Reach-IsFlowing u t (Step-IsFlowing s u step f) more
