-- ===== src/Pipe.antt =====
-- Pipes, kernel/pipe.c: `readp`, `writep`, `plock`, with `prele` of kernel/fs/iget.c. The file under
-- a pipe is the list of its bytes, of which `readi` takes some from the read offset on, and to which
-- `writei` appends; neither is taken to fail, though `writep` would lose the bytes that `writei` did
-- not write. A call that sleeps ends there, with what it has still to write; woken, it begins again
-- with that.
pub mod Queue
pub mod Rounds
pub mod Writing
pub mod Flow
mod Tests
use Prim.Native.Nat.{min}
use unix_v.Common.{
  ℕ, zero, suc, ◌+◌, ◌-◌, Bool, true, false, not, ◌&&◌, List, [], ◌∷◌, ◌++◌, ltb, ◌==◌,
  if◌then◌else◌, length, take, drop,
}

-- the channels of the inode `ip`: its lock, `ip+1` of the writers and `ip+2` of the readers
pub data Chan : Type 0 where
  lock_chan write_chan read_chan : Chan

-- `PIPSIZ`
abbrev pub pipsiz : ℕ
pipsiz = 4096

-- The inode of a pipe and the offset of its reader: the bytes of the file, the flags IREAD and
-- IWRITE of the mode, ILOCK and IWANT, the count, and the channels on which the call has called
-- `wakeup`.
pub record Pipe : Type 0 where
  pub bytes : List ℕ
  pub head : ℕ
  pub iread : Bool
  pub iwrite : Bool
  pub ilock : Bool
  pub iwant : Bool
  pub count : ℕ
  pub woken : List Chan

abbrev pub wake : Chan → Pipe → Pipe
wake c p = record p { woken = c ∷ p.woken }

pub prele : Pipe → Pipe
prele p =
    if p.iwant
    then wake lock_chan (record p { ilock = false; iwant = false })
    else record p { ilock = false }

-- What `readp` comes to: bytes, no bytes, EAGAIN, or a sleep for bytes or for the lock.
pub data ReadEnd : Type 0 where
  read_bytes : List ℕ → Pipe → ReadEnd
  read_nothing : Pipe → ReadEnd
  read_again : Pipe → ReadEnd
  read_sleeps : Pipe → ReadEnd
  read_waits : Pipe → ReadEnd

-- the reader has caught up
pub reset : Pipe → Pipe
reset p =
    let p' = record p { head = 0; bytes = [] } in
    if p.head == 0
    then p
    else if p.iwrite
    then wake write_chan (record p' { iwrite = false })
    else p'

pub readp_empty : (nonblock : Bool) → Pipe → ReadEnd
unfolding prele
readp_empty nonblock p =
    let p' = prele p in
    if ltb p.count 2
    then read_nothing p'
    else if nonblock
    then read_again p'
    else read_sleeps (record p' { iread = true })

pub readp_some : (n : ℕ) → Pipe → ReadEnd
readp_some n p =
    let k = min n (length p.bytes - p.head) in
    read_bytes (take k (drop p.head p.bytes)) (prele (record p { head = p.head + k }))

-- `readp` of `n` bytes, once the pipe is locked
pub readp_locked : (nonblock : Bool) → (n : ℕ) → Pipe → ReadEnd
readp_locked nonblock n p =
    if p.head == length p.bytes then readp_empty nonblock (reset p) else readp_some n p

pub readp : (nonblock : Bool) → (n : ℕ) → Pipe → ReadEnd
readp nonblock n p =
    if p.ilock
    then read_waits (record p { iwant = true })
    else readp_locked nonblock n (record p { ilock = true })

-- What `writep` comes to: all is written, EPIPE and SIGPIPE, EAGAIN, or a sleep for room or for the
-- lock, with what is left to write; `write_spins` is the end of the fuel.
pub data WriteEnd : Type 0 where
  written : Pipe → WriteEnd
  write_broken : Pipe → WriteEnd
  write_again : List ℕ → Pipe → WriteEnd
  write_sleeps : List ℕ → Pipe → WriteEnd
  write_waits : List ℕ → Pipe → WriteEnd
  write_spins : WriteEnd

-- the room that is left
abbrev pub room : Pipe → ℕ
room p = pipsiz - length p.bytes

-- one round that writes: `writei`, `prele`, and the readers are woken
pub store_some : List ℕ → Pipe → Pipe
store_some l p =
    let p' = prele (record p { bytes = p.bytes ++ take (room p) l }) in
    if p'.iread then wake read_chan (record p' { iread = false }) else p'

-- The loop of `writep`.
pub writep_from : (nonblock : Bool) → (fuel : ℕ) → List ℕ → Pipe → WriteEnd
writep_from nonblock zero l p = write_spins
writep_from nonblock (suc fuel) l p =
    let p' = record p { ilock = true } in
    let next = writep_from nonblock fuel (drop (room p') l) (store_some l p') in
    if p.ilock
    then write_waits l (record p { iwant = true })
    else if length l == 0
    then written (prele p')
    else if ltb p.count 2
    then write_broken (prele p')
    else if length p.bytes == pipsiz
    then (if nonblock
        then write_again l (prele p')
        else write_sleeps l (prele (record p' { iwrite = true })))
    else next

-- the first round fills the pipe or writes all
pub writep : (nonblock : Bool) → List ℕ → Pipe → WriteEnd
writep nonblock l p = writep_from nonblock 2 l p
