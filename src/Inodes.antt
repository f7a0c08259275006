-- ===== src/Inodes.antt =====
-- The table of inodes, `iget`, `iput`, `iupdat` and `prele` of kernel/fs/iget.c. What the disk has of
-- an inode is a function of device and number; the blocks of a file and the free lists are those of
-- Bmap and Alloc. Which inodes cannot be read is a parameter. A call that sleeps ends there.
pub mod Table
pub mod Steps
pub mod Counts
mod Tests
use unix_v.Common.{
  ℕ, zero, suc, ◌+◌, ◌-◌, ◌*◌, ◌/◌, ◌%◌, ◌^◌, Bool, true, false, not, ◌&&◌, ◌||◌, Option, none,
  some, List, [], ◌∷◌, ◌==◌, if◌then◌else◌, get_or, set,
}
use unix_v.Alloc.{Slots, Volume, ifree_in}
use unix_v.Bmap.{Inode, itrunc}

-- `struct dinode` (an inode on the disk), with each time as one number
pub record Dinode : Type 0 where
  pub mode : ℕ
  pub nlink : ℕ
  pub uid : ℕ
  pub gid : ℕ
  pub size0 : ℕ
  pub size1 : ℕ
  pub addr : Slots
  pub atime : ℕ
  pub mtime : ℕ

-- `struct inode`, with its flags, its count of 8 bits, and what it has from the disk
pub record Entry : Type 0 where
  pub ilock : Bool
  pub iupd : Bool
  pub iacc : Bool
  pub imount : Bool
  pub itext : Bool
  pub iwant : Bool
  pub count : ℕ
  pub dev : ℕ
  pub number : ℕ
  pub node : Dinode

abbrev pub no_node : Dinode
no_node = record {
  mode = 0;
  nlink = 0;
  uid = 0;
  gid = 0;
  size0 = 0;
  size1 = 0;
  addr = λ _. 0;
  atime = 0;
  mtime = 0;
}

abbrev pub no_entry : Entry
no_entry = record {
  ilock = false;
  iupd = false;
  iacc = false;
  imount = false;
  itext = false;
  iwant = false;
  count = 0;
  dev = 0;
  number = 0;
  node = no_node;
}

-- `inode[]`, the disks, the file systems, whether `iupdat`
-- finds none or one that is read-only, the mount table as the inodes
-- mounted on and the devices, and the inodes on which `wakeup` was called
pub record Store : Type 0 where
  pub inode : List Entry
  pub disk : (dev number : ℕ) → Dinode
  pub volume : ℕ → Volume
  pub ronly : ℕ → Bool
  pub mounts : List (ℕ × ℕ)
  pub woken : List ℕ

abbrev pub entry_at : Store → ℕ → Entry
entry_at s i = get_or s.inode i no_entry

abbrev pub put_entry : ℕ → Entry → Store → Store
put_entry i e s = record s { inode = set s.inode i e }

-- the first entry of the inode, from `i` on
unfoldable pub find_inode : (dev number i : ℕ) → List Entry → Option ℕ
find_inode dev number i [] = none
find_inode dev number i (e ∷ l) =
    let rest = find_inode dev number (suc i) l in
    if e.dev == dev && e.number == number then some i else rest

-- the first entry that is not in use, from `i` on
unfoldable pub find_empty : (i : ℕ) → List Entry → Option ℕ
find_empty i [] = none
find_empty i (e ∷ l) = let rest = find_empty (suc i) l in if e.count == 0 then some i else rest

-- the device that is mounted on the inode
pub mounted_on : ℕ → List (ℕ × ℕ) → Option ℕ
mounted_on i [] = none
mounted_on i ((j, dev) ∷ l) = let rest = mounted_on i l in if j == i then some dev else rest

-- `int8_t` arithmetic
abbrev pub inc8 : ℕ → ℕ
inc8 n = (n + 1) % 256

abbrev pub dec8 : ℕ → ℕ
dec8 n = (n + 255) % 256

unfoldable pub prele : ℕ → Store → Store
prele i s =
    let e = entry_at s i in
    if e.iwant
    then record (put_entry i (record e { ilock = false; iwant = false }) s) { woken = i ∷ s.woken }
    else put_entry i (record e { ilock = false }) s

-- What `iupdat` writes: the fields of the disk have 16 and 8 bits, and a time is written only with
-- its flag.
pub on_disk : Entry → Dinode → Dinode
on_disk e old = record {
  mode = e.node.mode % 2 ^ 16;
  nlink = e.node.nlink % 2 ^ 8;
  uid = e.node.uid % 2 ^ 8;
  gid = e.node.gid % 2 ^ 8;
  size0 = e.node.size0 % 2 ^ 8;
  size1 = e.node.size1 % 2 ^ 16;
  addr = λ i. e.node.addr i % 2 ^ 16;
  atime = if e.iacc then e.node.atime % 2 ^ 32 else old.atime;
  mtime = if e.iupd then e.node.mtime % 2 ^ 32 else old.mtime;
}

abbrev pub put_disk : (dev number : ℕ) → Dinode → Store → Store
put_disk dev number d s = record s {
  disk = λ v n. if v == dev && n == number then d else s.disk v n;
}

unfoldable pub iupdat : ℕ → Store → Store
iupdat i s =
    let e = entry_at s i in
    if not (e.iupd || e.iacc) || s.ronly e.dev
    then s
    else put_disk e.dev e.number (on_disk e (s.disk e.dev e.number)) s

-- `IFMT` is IFCHR or IFBLK; `ILARG`
abbrev pub is_device : ℕ → Bool
is_device mode = mode / 2 ^ 13 % 4 == 1 || mode / 2 ^ 13 % 4 == 3

abbrev pub is_large : ℕ → Bool
is_large mode = mode / 2 ^ 12 % 2 == 1

abbrev pub without_large : ℕ → ℕ
without_large mode = if is_large mode then mode - 2 ^ 12 else mode

-- the map of a file, as Bmap has it
abbrev pub map_of : Dinode → Inode
map_of d = record {
  large = is_large d.mode;
  device = is_device d.mode;
  addr = d.addr;
  size = d.size0 * 2 ^ 16 + d.size1;
}

-- the inode after `itrunc`
abbrev pub truncated : Inode → Entry → Entry
truncated ip e = if is_device e.node.mode then e else record e {
  iupd = true;
  node = record e.node { mode = without_large e.node.mode; addr = ip.addr; size0 = 0; size1 = 0 };
}

-- the inode of a file that no directory has is free
pub discard : ℕ → Store → Option Store
discard i s =
    let e = entry_at s i in
    elim (itrunc (map_of e.node) (s.volume e.dev)) [
      | none ↦ none
      | some (ip, v) ↦
          let t = truncated ip e in
          some (record (put_entry i (record t { node = record t.node { mode = 0 } }) s) {
            volume =
                λ d. if d == e.dev then record v { fs = ifree_in e.number v.fs } else s.volume d;
          })
    ]

-- the last reference is gone: the inode goes to the disk, and its entry is not in use
unfoldable pub forget : ℕ → Store → Store
forget i s =
    let s' = iupdat i s in
    put_entry i
      (record (entry_at s' i) {
        ilock = false;
        iupd = false;
        iacc = false;
        imount = false;
        itext = false;
        iwant = false;
        count = 0;
        number = 0;
      })
      s'

-- `none` is a wait for the lock of a free list.
unfoldable pub iput : ℕ → Store → Option Store
iput i s =
    let e = record (entry_at s i) { ilock = true } in
    let s' = put_entry i e s in
    let less = some (prele i (put_entry i (record e { count = dec8 e.count }) s')) in
    let kept = some (forget i s') in
    let gone = elim (discard i s') as (λ _. Option Store) [
      | none ↦ none
      | some s'' ↦ some (forget i s'')
    ] in
    if e.count == 1 then (if e.node.nlink == 0 then gone else kept) else less

-- What `iget` comes to: an entry, ENFILE, a read error, a wait for the lock of an entry, a panic,
-- a wait in `iput`, or the end of the fuel.
pub data Got : Type 0 where
  got : ℕ → Store → Got
  overflow : Store → Got
  read_error : Store → Got
  locked : ℕ → Store → Got
  no_imt : Got
  stuck : Got
  spins : Got

-- the entry `i` has the inode and nothing is mounted on it
unfoldable pub hold : ℕ → Store → Got
hold i s =
    let e = entry_at s i in got i (put_entry i (record e { count = inc8 e.count; ilock = true }) s)

module _ (bad : ℕ → ℕ → Bool) where
  -- the entry `i` is filled from the disk
  unfoldable pub load : (dev number i : ℕ) → Store → Got
  load dev number i s =
      let e = record (entry_at s i) {
        dev = dev;
        number = number;
        ilock = true;
        iupd = false;
        iacc = false;
        imount = false;
        itext = false;
        iwant = false;
        count = 1;
      } in
      let failed = elim (iput i (put_entry i e s)) as (λ _. Got) [
        | none ↦ stuck
        | some s' ↦ read_error s'
      ] in
      if bad dev number
      then failed
      else got i (put_entry i (record e { node = s.disk dev number }) s)

  -- `fuel` is for the file systems that are mounted one on the root of the other.
  unfoldable pub iget_from : (fuel dev number : ℕ) → Store → Got
  iget_from zero dev number s = spins
  iget_from (suc fuel) dev number s = elim (find_inode dev number 0 s.inode) [
    | some i ↦
        let e = entry_at s i in
        let root = elim (mounted_on i s.mounts) as (λ _. Got) [
          | none ↦ no_imt
          | some d ↦ iget_from fuel d 1 s
        ] in
        if e.ilock
        then locked i (put_entry i (record e { iwant = true }) s)
        else if e.imount
        then root
        else hold i s
    | none ↦ elim (find_empty 0 s.inode) [ none ↦ overflow s | some i ↦ load dev number i s ]
  ]
