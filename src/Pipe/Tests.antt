-- ===== src/Pipe/Tests.antt =====
-- A pipe with a few bytes, and a talk of a reader and a writer.
use unix_v.Common.{◌≡◌, refl, true, false, [], ◌∷◌, ◌++◌, arith, ◌&&◌}
use unix_v.Pipe.{
  Pipe, read_bytes, read_sleeps, read_nothing, readp, readp_locked, readp_some, readp_empty, reset,
  prele, written, writep, writep_from, store_some, read_chan,
}
use unix_v.Pipe.Queue.{queue, IsPipe, ReadOutcome, readp-Outcome}
use unix_v.Pipe.Writing.{WriteOutcome, writep-Outcome}
use unix_v.Pipe.Flow.{
  Talk, reads, gets, writes, Reach, here, next, after_read, after_write, IsFlowing, Reach-IsFlowing,
}

abbrev empty : Pipe
empty = record {
  bytes = [];
  head = 0;
  iread = false;
  iwrite = false;
  ilock = false;
  iwant = false;
  count = 2;
  woken = [];
}

abbrev three : Pipe
three = record empty { bytes = 5 ∷ 6 ∷ 7 ∷ []; head = 1; iread = true }

run_readp : readp false 1 three ≡ read_bytes (6 ∷ []) (record three { head = 2 })
unfolding readp readp_locked readp_some prele
run_readp = refl

run_readp-none : readp false 1 empty ≡ read_sleeps (record empty { iread = true })
unfolding readp readp_locked readp_empty reset prele
run_readp-none = refl

run_readp_closed :
    readp false 1 (record empty { count = 1 }) ≡ read_nothing (record empty { count = 1 })
unfolding readp readp_locked readp_empty reset prele
run_readp_closed = refl

run_writep :
    writep false (8 ∷ []) three
    ≡ written (record three { bytes = 5 ∷ 6 ∷ 7 ∷ 8 ∷ []; iread = false; woken = read_chan ∷ [] })
unfolding writep writep_from store_some prele
run_writep = refl

three-IsPipe : IsPipe three
unfolding IsPipe
three-IsPipe = (omega arith, omega arith, refl)

readp-Outcome_example : ReadOutcome false 1 three (readp false 1 three)
readp-Outcome_example = readp-Outcome false 1 three three-IsPipe

writep-Outcome_example : WriteOutcome false (8 ∷ []) three (writep false (8 ∷ []) three)
writep-Outcome_example = writep-Outcome false (8 ∷ []) three three-IsPipe

-- nothing has been written yet
abbrev silent : Talk
silent = record {
  pipe = empty;
  reader_sleeps = false;
  writer_sleeps = false;
  todo = [];
  given = [];
  got = [];
}

silent-IsFlowing : IsFlowing silent
unfolding IsFlowing IsPipe queue
silent-IsFlowing = (
  (omega arith, omega arith, refl),
  omega arith,
  refl,
  λ e. ground (arith, e),
  λ e. ground (arith, e),
)

-- the reader sleeps, the writer is given two bytes and writes them, the reader wakes
abbrev asked : Talk
asked = after_read silent (readp false 2 empty)

abbrev handed : Talk
handed = record asked { todo = 1 ∷ 2 ∷ []; given = asked.given ++ (1 ∷ 2 ∷ []) }

abbrev answered : Talk
answered = after_write handed (writep false handed.todo (record handed.pipe { woken = [] }))

talk : Reach silent answered
unfolding after_read after_write readp readp_locked readp_empty reset prele writep writep_from
    store_some
talk = next (reads 2 refl) (next (gets (1 ∷ 2 ∷ []) refl) (next (writes refl) here))

run_talk : (answered.reader_sleeps ≡ false) × (queue answered.pipe ≡ 1 ∷ 2 ∷ [])
unfolding after_read after_write readp readp_locked readp_empty reset prele writep writep_from
    store_some queue
run_talk = (refl, refl)

Reach-IsFlowing_example :
    (answered.given ≡ answered.got ++ (queue answered.pipe ++ answered.todo))
    × (answered.reader_sleeps && answered.writer_sleeps ≡ false)
    × IsFlowing answered
Reach-IsFlowing_example = Reach-IsFlowing silent answered silent-IsFlowing talk
