-- ===== src/Lib.antt =====
-- A verification library for a port of Unix V6 to the x86: the kernel's resource allocator, buffer
-- cache, free blocks, block maps, inode table, path names, shared texts, pipes, open files,
-- permissions, processes, signals, clock, console and terminal, and the strings, characters, numbers
-- and heap of the C library.
--
-- CoreMap (kernel/malloc.c) is the first-fit allocator of the core and swap maps. A map is the list
-- of its entries; `malloc` and `mfree` are the functions of those names, and the abstract view is
-- the set of free units.
--
-- Bio (kernel/fs/bio.c, with rd_strategy of kernel/drivers/block/ramdisk.c) is the buffer cache.
-- The state has the buffers, the available list, the list of the device and the disk. What a block
-- holds is the abstract view: the content of the buffer that has the block and is done, or else
-- the disk's. `getblk`, `bread`, `breada`, `bwrite`, `bdwrite`, `bawrite`, `brelse`, `notavail`,
-- `iodone`, `iowait`, `bflush` and `binit` are the functions of the source. A call that would sleep
-- ends there, with the channel in the state; woken, the source begins its search again. The
-- searches of `getblk` and `bflush` start again after each dirty buffer that they write, and have
-- fuel for one round more than there are available buffers, each of which is written at most once.
-- A device is one number, with major number 0. `breada` is in Bio/Ahead and `bflush` in
-- Bio/Flushing.
--
-- Files (kernel/fs/fio.c, and the calls of kernel/sys.c that move descriptors) has the descriptors
-- of a process and the file table with its 8-bit reference counts; `seek` is in Files/Seek. The
-- references of other processes and of calls under way are a function from file to number.
-- `closei` and the wakeups of a pipe act on the inode layer, which is an interface, `InodeOps`.
--
-- Proc (kernel/sched/slp.c and kernel/sig.c) has the process table: `wakeup`, `setrun`, `setpri`,
-- the choice that `swtch` makes, a round of `sched`, and the sending and testing of signals. A wait
-- channel is an address; the address of `runout` is a parameter, since `setrun` wakes it.
--
-- Life (kernel/sched/slp.c and kernel/sys.c) is `newproc`, `exit`, `sys_exit`, `rexit`, `syswait` and
-- `sys_waitpid` over the process table of Proc and the core map of CoreMap. The address of an entry
-- of `proc[]`, on which its process waits for children, is a function of the index.
--
-- Bmap (kernel/fs/iget.c) is the block map of a file, `bmap`, and `itrunc`, over the free blocks of
-- Alloc. The abstract view is the block under each logical block.
--
-- Inodes (kernel/fs/iget.c) is the table of inodes: `iget` (here `iget_from`, with fuel for file
-- systems that are mounted one on the root of the other), `iput`, `iupdat` and `prele`. What the disk
-- has of an inode is a function of device and number, the numbers of links are not negative, and
-- which inodes cannot be read is a parameter. The blocks of a file that goes are given back by
-- `itrunc` of Bmap.
--
-- Pipe (kernel/pipe.c, with prele of kernel/fs/iget.c) is `readp` and `writep`. The abstract view is
-- the queue of the bytes that have been written and not read. The lock makes a call of one process
-- a step of the model. The loop of `writep` has fuel for two rounds: the first writes all or fills
-- the pipe. Pipe/Flow has a reader and a writer that call in any order, and sleep and are woken.
--
-- Clock (kernel/clock.c) is the callout table and the clock interrupt, which uses `wakeup` and
-- `setpri` of Proc. What `issig` and `psig` do at the end of a second is a parameter. Times of
-- callouts are not negative, and the bound of the table is not part of the model.
--
-- Alloc (kernel/fs/alloc.c) is the list of free blocks of a file system: `alloc`, `bfree`,
-- `badblock`, `getfs`, and `ifree`. Blocks are read and written through the cache, so the state is
-- what each block holds. The abstract view is the list of the free blocks, in the order in which
-- `alloc` gives them. A wait for a lock ends a call. `ialloc` and `update` are not modelled.
--
-- Cred (kernel/fs/fio.c, kernel/fs/iget.c and kernel/sys.c) is `access`, `iaccess`, `suser` and the
-- calls on the user and group numbers and on `nice`. The read-only flag of the file system, which
-- `access` finds by `getfs`, is an argument.
--
-- Nami (kernel/fs/nami.c) is `namei` over the inodes of Inodes: `walk` is its loop over the names of
-- a path, `search` that over the slots of a directory, which are a parameter.
--
-- Text (kernel/text.c) is the table of shared text segments, over the inodes of Inodes: `xalloc`,
-- `xfree`, `xccdec`, `xunlock`, and `xlock` as `xlock_text`.
--
-- Prf (kernel/prf.c) is the console: the screen and its cursor, the serial line, and `kprintf`. Its
-- formats are lists of bytes without the final NUL, and the number of digits is bounded by `buf`.
--
-- Clist and Tty (kernel/tty.c) are the character lists, in a memory of bytes with the blocks of
-- `cfree`, and the terminal over them: `ttyinput`, `canon`, `ttyoutput`, `ttstart`, `ttwrite`. A loop
-- over a queue has fuel for its characters.
--
-- Stdlib and Heap (userland/Libraries/libc/src/stdlib.c) read numbers from text, and are `malloc`,
-- `calloc`, `realloc` and `free` over `sys_sbrk` of kernel/sys.c and `estabur` of kernel/main.c.
--
-- Ctype (userland/Libraries/libc/src/ctype.c) is the character classes.
--
-- Str (userland/Libraries/libc/src/string.c) is the string functions over a memory of bytes. A loop
-- that a NUL ends has fuel for the bytes that it looks at.
--
-- Common has the shared names, the Boolean tests of numbers, lists with positions, and integers.
-- In each component the parent file has the core definitions, its children have the lemmas, and
-- Tests has runs and examples.
--
-- Not modelled: the context switch, traps and drivers, which act on the machine; swap and physio;
-- the contents of files and directories, and the reading of terminals; the other files of the C
-- library and the user programs. Interrupts come only where a step of the model ends.
pub mod Common
pub mod CoreMap
pub mod Files
pub mod Proc
pub mod Life
pub mod Bio
pub mod Clock
pub mod Str
pub mod Text
pub mod Ctype
pub mod Alloc
pub mod Bmap
pub mod Inodes
pub mod Nami
pub mod Pipe
pub mod Clist
pub mod Tty
pub mod Prf
pub mod Stdlib
pub mod Heap
pub mod Cred
