-- ===== src/Bio/Tests.antt =====
-- A cache of two buffers, from `binit` on: runs of it, and the theorems at its states.
use unix_v.Common.{ℕ, ◌≡◌, refl, true, false, [], ◌∷◌, arith, replicate, Option, none, some}
use unix_v.Bio.{
  Block, Cache, Got, got, asleep, no_buf, binit, init_from, getblk, getblk_loop, held, find,
  reassign, notavail, remove, brelse, wake_waiters, bread, bwrite, bdwrite, buf_at, put, iodone,
  strategy, iowait, geterror, after_write, fill,
}
use unix_v.Bio.Coherent.{IsCoherent, Holds, Caches}
use unix_v.Bio.Bwrite.{Wrote, bwrite-Wrote}
use unix_v.Bio.Getblk.{Outcome, getblk-Outcome}
use unix_v.Bio.Bread.{Reads, bread-Reads}
use unix_v.Bio.Update.{Updates, bdwrite-Updates, bwrite-Updates}
use unix_v.Bio.{take_found}
use unix_v.Bio.Ahead.{breada, ahead, start, read_ahead}
use unix_v.Bio.{incore}
use unix_v.Bio.Flushing.{bflush, bflush_loop, first_dirty}
use unix_v.Bio.RoundTrip.{bread-bdwrite}
use unix_v.Bio.Init.{binit-IsCoherent}

-- the disk whose block `n` is full of `n`
abbrev numbered : ℕ → Block
numbered n w = n

abbrev cold : Cache
cold = record {
  bufs = replicate 2 no_buf;
  avail = [];
  free_wanted = false;
  chain = [];
  disk = numbered;
  u_error = 0;
  woken = [];
  waiting = none;
}

binit-IsCoherent_example :
    IsCoherent 0 (binit cold) × ((b : ℕ) → Holds 0 (binit cold) b (numbered b))
binit-IsCoherent_example = binit-IsCoherent 0 cold (omega arith)

binit_lists_all : (binit cold).avail ≡ 0 ∷ 1 ∷ []
unfolding binit init_from brelse wake_waiters
binit_lists_all = refl

getblk-Outcome_example : Outcome 0 7 (binit cold) (getblk 0 7 (binit cold))
getblk-Outcome_example =
    getblk-Outcome 0 7 (binit cold) (binit-IsCoherent 0 cold (omega arith)).0 (omega arith)

bread-Reads_example : Reads 0 7 (binit cold) (bread 0 7 (binit cold))
bread-Reads_example =
    bread-Reads 0 7 (binit cold) (binit-IsCoherent 0 cold (omega arith)).0 (omega arith)

-- the cache when block 7 has been got
abbrev state_of : Got → Cache
state_of (got i s) = s
state_of (asleep s) = s
state_of _ = cold

abbrev index_of : Got → ℕ
index_of (got i s) = i
index_of _ = 9

bread_gives_block : (buf_at (state_of (bread 0 7 (binit cold))) 0).contents 3 ≡ 7
unfolding binit init_from brelse wake_waiters getblk getblk_loop held find reassign notavail remove
    bread fill strategy iodone iowait geterror
bread_gives_block = refl

abbrev seven : Cache
seven = state_of (getblk 0 7 (binit cold))

-- what `getblk` gives, where it is known to give a buffer
seven-IsCoherent : IsCoherent 0 seven
unfolding binit init_from brelse wake_waiters getblk getblk_loop held find reassign notavail remove
seven-IsCoherent =
    (getblk-Outcome 0 7 (binit cold) (binit-IsCoherent 0 cold (omega arith)).0
      (omega arith)).keeps.coherent

seven-Caches :
    Caches 0 seven 7 0 × ((buf_at seven 0).busy ≡ true) × ((buf_at seven 0).error ≡ false)
unfolding binit init_from brelse wake_waiters getblk getblk_loop held find reassign notavail remove
seven-Caches = ((omega arith, refl, refl), refl, refl)

bdwrite-Updates_example : Updates 0 7 (buf_at seven 0).contents seven (bdwrite 0 seven)
bdwrite-Updates_example =
    bdwrite-Updates 0 7 seven seven-IsCoherent 0 seven-Caches.0 seven-Caches.1 seven-Caches.2

bwrite-Updates_example : Updates 0 7 (buf_at seven 0).contents seven (bwrite 0 seven)
bwrite-Updates_example =
    bwrite-Updates 0 7 seven seven-IsCoherent 0 seven-Caches.0 seven-Caches.1 (omega arith)

bwrite-Wrote_example : Wrote seven 0 (bwrite 0 seven)
bwrite-Wrote_example = bwrite-Wrote seven 0 seven-Caches.0.0

abbrev word : Option Cache → ℕ
word none = 0
word (some c) = c.disk 7 0

-- `bflush` writes what `bdwrite` has only marked.
dirty_cache : Cache
dirty_cache = bdwrite 0 (put seven 0 (record (buf_at seven 0) { contents = λ w. 99 }))

bflush_writes : word (bflush 0 dirty_cache) ≡ 99
unfolding dirty_cache bdwrite bflush bflush_loop first_dirty bwrite after_write binit init_from
    brelse wake_waiters getblk getblk_loop held find reassign notavail remove strategy iodone iowait
    geterror
bflush_writes = refl

-- the state after `bdwrite` and `bread`, which finds the buffer
abbrev reread : Cache
reread = state_of (bread 0 7 (bdwrite 0 seven))

rereads : bread 0 7 (bdwrite 0 seven) ≡ got 0 reread
unfolding bread fill getblk getblk_loop held find take_found notavail remove bdwrite brelse
    wake_waiters binit init_from reassign
rereads = refl

bread-bdwrite_example : (buf_at reread 0).contents ≡ (buf_at seven 0).contents
bread-bdwrite_example =
    bread-bdwrite 0 7 seven seven-IsCoherent 0 seven-Caches.0 seven-Caches.1 seven-Caches.2
      (omega arith) (omega arith) 0 reread rereads

-- `breada` of a block gives it, and the block read ahead is in the cache afterwards.
reads_ahead :
    (buf_at (state_of (breada 0 7 8 (binit cold))) (index_of (breada 0 7 8 (binit cold)))).contents
      3
    ≡ 7
unfolding breada ahead start read_ahead incore binit init_from brelse wake_waiters getblk
    getblk_loop held find reassign notavail remove bread fill strategy iodone iowait geterror
reads_ahead = refl
