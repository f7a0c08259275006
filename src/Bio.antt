-- ===== src/Bio.antt =====
-- The buffer cache, kernel/fs/bio.c, over the RAM disk, `rd_strategy` of
-- kernel/drivers/block/ramdisk.c, which is the one block device of the system (`nblkdev` is 1) and
-- answers at once, through `iodone`. A buffer pointer is its index in `buf[]`. The available list
-- and the device's list are lists of indices, from the head; what a block holds is a function from
-- word to value. A negative `daddr_t` is, as a number, above every block of the disk. Calls of
-- `wakeup` are recorded in `woken`, newest first, and a process that would sleep in `waiting`.
pub mod Lists
pub mod Avail
pub mod Write
pub mod Bwrite
pub mod Coherent
pub mod Flush
pub mod Take
pub mod Getblk
pub mod Bread
pub mod Ahead
pub mod Flushing
pub mod Update
pub mod RoundTrip
pub mod Init
mod Tests
use unix_v.Common.{
  ℕ, zero, suc, ◌+◌, ◌-◌, ◌*◌, ◌/◌, ◌%◌, ◌^◌, Bool, true, false, not, ◌&&◌, ◌||◌, Option, none,
  some, List, [], ◌∷◌, ◌++◌, ltb, leb, ◌==◌, if◌then◌else◌, get_or, set, length,
}

abbrev pub Block : Type 0
Block = ℕ → ℕ

abbrev pub zero_block : Block
zero_block w = 0

-- `struct buf`, one field for each flag that bio.c uses (B_READ, B_DONE, B_ERROR, B_BUSY,
-- B_WANTED, B_ASYNC, B_DELWRI), the error number and the data at `b_addr`
pub record Buf : Type 0 where
  pub read : Bool
  pub done : Bool
  pub error : Bool
  pub busy : Bool
  pub wanted : Bool
  pub async : Bool
  pub delwri : Bool
  pub dev : ℕ
  pub blkno : ℕ
  pub errno : ℕ
  pub contents : Block

-- `NODEV`, `RAMDISK_BLOCKS`, `EIO` and `ENXIO`
abbrev pub nodev : ℕ
nodev = 65535

abbrev pub ramdisk_blocks : ℕ
ramdisk_blocks = 16384

abbrev pub eio : ℕ
eio = 5

abbrev pub enxio : ℕ
enxio = 6

abbrev pub no_buf : Buf
no_buf = record {
  read = false;
  done = false;
  error = false;
  busy = false;
  wanted = false;
  async = false;
  delwri = false;
  dev = nodev;
  blkno = 0;
  errno = 0;
  contents = zero_block;
}

-- what a process sleeps on
pub data Chan : Type 0 where
  of_buf : ℕ → Chan
  of_free : Chan

-- `buf[]`, `bfreelist` and its B_WANTED flag, the list of the device's table, the disk, `u.u_error`
pub record Cache : Type 0 where
  pub bufs : List Buf
  pub avail : List ℕ
  pub free_wanted : Bool
  pub chain : List ℕ
  pub disk : ℕ → Block
  pub u_error : ℕ
  pub woken : List Chan
  pub waiting : Option Chan

abbrev pub buf_at : Cache → ℕ → Buf
buf_at s i = get_or s.bufs i no_buf

abbrev pub put : Cache → ℕ → Buf → Cache
put s i b = record s { bufs = set s.bufs i b }

abbrev pub wake : Chan → Cache → Cache
wake c s = record s { woken = c ∷ s.woken }

abbrev pub sleep : Chan → Cache → Cache
sleep c s = record s { waiting = some c }

-- a list without an index: the two stores that unlink a buffer
pub remove : ℕ → List ℕ → List ℕ
remove i [] = []
remove i (j ∷ l) = if j == i then l else j ∷ remove i l

pub geterror : ℕ → Cache → Cache
geterror i s =
    let b = buf_at s i in
    if b.error then record s { u_error = if b.errno == 0 then eio else b.errno } else s

pub notavail : ℕ → Cache → Cache
unfolding remove
notavail i s = record s {
  avail = remove i s.avail;
  bufs = set s.bufs i (record (buf_at s i) { busy = true });
}

-- the buffer as `brelse` leaves it
abbrev pub released : Buf → Buf
released b = record b {
  dev = if b.error then nodev else b.dev;
  wanted = false;
  busy = false;
  async = false;
}

-- the calls of `wakeup` in `brelse`
pub wake_waiters : ℕ → Cache → Cache
wake_waiters i s =
    let s' = if (buf_at s i).wanted then wake (of_buf i) s else s in
    if s'.free_wanted then wake of_free (record s' { free_wanted = false }) else s'

pub brelse : ℕ → Cache → Cache
unfolding wake_waiters
brelse i s =
    let s' = wake_waiters i s in
    record s' { bufs = set s.bufs i (released (buf_at s i)); avail = s.avail ++ (i ∷ []) }

pub iodone : ℕ → Cache → Cache
unfolding brelse
iodone i s =
    let b = record (buf_at s i) { done = true } in
    if b.async
    then brelse i (put s i b)
    else wake (of_buf i) (put s i (record b { wanted = false }))

abbrev pub store : (ℕ → Block) → ℕ → Block → ℕ → Block
store disk n c m = if m == n then c else disk m

-- `rd_strategy`, for a transfer of one block
pub strategy : ℕ → Cache → Cache
unfolding iodone
strategy i s =
    let b = buf_at s i in
    if leb ramdisk_blocks b.blkno
    then iodone i (put s i (record b { error = true; errno = enxio }))
    else if b.read
    then iodone i (put s i (record b { contents = s.disk b.blkno }))
    else iodone i (record s { disk = store s.disk b.blkno b.contents })

-- `iowait`: a process sleeps where the transfer is not done.
pub iowait : ℕ → Cache → Cache
unfolding geterror
iowait i s = if (buf_at s i).done then geterror i s else sleep (of_buf i) s

-- the flags that `bwrite` clears
abbrev pub to_write : Buf → Buf
to_write b = record b { read = false; done = false; error = false; delwri = false }

-- What follows the call of the strategy routine: nothing for an asynchronous write of a dirty
-- buffer, a test for errors for any other asynchronous one, else the wait and the release.
pub after_write : (async delwri : Bool) → ℕ → Cache → Cache
after_write true true i s = s
after_write true false i s = geterror i s
after_write false _ i s = brelse i (iowait i s)

pub bwrite : ℕ → Cache → Cache
bwrite i s =
    let b = buf_at s i in after_write b.async b.delwri i (strategy i (put s i (to_write b)))

pub bdwrite : ℕ → Cache → Cache
unfolding brelse
bdwrite i s = brelse i (put s i (record (buf_at s i) { delwri = true; done = true }))

pub bawrite : ℕ → Cache → Cache
bawrite i s = bwrite i (put s i (record (buf_at s i) { async = true }))

pub clrbuf : ℕ → Cache → Cache
clrbuf i s = put s i (record (buf_at s i) { contents = zero_block })

abbrev pub major : ℕ → ℕ
major dev = dev / 256 % 256

-- the search of the device's list, in `incore` and `getblk`
pub find : ℕ → ℕ → Cache → List ℕ → Option ℕ
find dev blkno s [] = none
find dev blkno s (i ∷ l) =
    let rest = find dev blkno s l in
    if (buf_at s i).blkno == blkno && (buf_at s i).dev == dev then some i else rest

-- the search of `getblk`, which has no list for `NODEV`
pub held : ℕ → ℕ → Cache → Option ℕ
unfolding find
held dev blkno s = if dev == nodev then none else find dev blkno s s.chain

-- `incore`; `nblkdev` is 1.
pub incore : ℕ → ℕ → Cache → Option ℕ
unfolding find
incore dev blkno s = if leb 1 (major dev) then none else find dev blkno s s.chain

-- What `getblk` comes to: a buffer, a sleep after which it starts again, or a panic. `out_of_fuel`
-- is none of the program's: `getblk` has fuel for more rounds than there are available buffers.
pub data Got : Type 0 where
  got : ℕ → Cache → Got
  asleep : Cache → Got
  panicked : Got
  out_of_fuel : Got

-- the buffer taken from the available list, for its new block
abbrev pub renamed : ℕ → ℕ → Buf → Buf
renamed dev blkno b = record b {
  read = false;
  done = false;
  error = false;
  busy = true;
  wanted = false;
  async = false;
  delwri = false;
  dev = dev;
  blkno = blkno;
}

pub reassign : ℕ → ℕ → ℕ → Cache → Cache
unfolding remove
reassign dev blkno i s = record s {
  bufs = set s.bufs i (renamed dev blkno (buf_at s i));
  chain = if dev == nodev then remove i s.chain else i ∷ remove i s.chain;
}

-- the sleep on a busy buffer
pub want : ℕ → Cache → Cache
want i s = sleep (of_buf i) (put s i (record (buf_at s i) { wanted = true }))

-- `getblk` has found the block in buffer `i`.
pub take_found : ℕ → Cache → Got
unfolding notavail
take_found i s = if (buf_at s i).busy then asleep (want i s) else got i (notavail i s)

-- the write of a dirty buffer that is to be reused
abbrev pub flush_one : ℕ → Cache → Cache
flush_one i s = bawrite i (notavail i s)

-- `getblk` takes the buffer that has been available longest; a dirty one is written, and the search
-- begins again.
pub getblk_loop : ℕ → ℕ → ℕ → Cache → Got
getblk_loop zero dev blkno s = out_of_fuel
getblk_loop (suc n) dev blkno s = elim (held dev blkno s) [
  | some i ↦ take_found i s
  | none ↦ elim s.avail [
    | [] ↦ asleep (sleep of_free (record s { free_wanted = true }))
    | i ∷ l ↦
        let again = getblk_loop n dev blkno (flush_one i s) in
        if (buf_at s i).delwri then again else got i (reassign dev blkno i (notavail i s))
  ]
]

pub getblk : ℕ → ℕ → Cache → Got
getblk dev blkno s =
    if not (dev == nodev) && leb 1 (major dev)
    then panicked
    else getblk_loop (suc (length s.avail)) dev blkno s

-- what follows `getblk` in `bread`
pub fill : ℕ → Cache → Cache
fill i s =
    if (buf_at s i).done
    then s
    else iowait i (strategy i (put s i (record (buf_at s i) { read = true })))

-- continue with the buffer that `getblk` got
abbrev pub and_then : Got → (ℕ → Cache → Got) → Got
and_then (got i s) f = f i s
and_then (asleep s) f = asleep s
and_then panicked f = panicked
and_then out_of_fuel f = out_of_fuel

pub bread : ℕ → ℕ → Cache → Got
bread dev blkno s = and_then (getblk dev blkno s) λ i s'. got i (fill i s')

-- `binit`: every buffer is set up busy, with no device, and released, which puts it on the
-- available list.
abbrev pub unassigned : Buf → Buf
unassigned b = record b {
  read = false;
  done = false;
  error = false;
  busy = true;
  wanted = false;
  async = false;
  delwri = false;
  dev = nodev;
}

pub init_from : (left i : ℕ) → Cache → Cache
init_from zero i s = s
init_from (suc n) i s = init_from n (suc i) (brelse i (put s i (unassigned (buf_at s i))))

pub binit : Cache → Cache
binit s = init_from (length s.bufs) 0 (record s { avail = []; free_wanted = false; chain = [] })
