-- ===== src/Lib.antt =====
-- OSLAB2 is an operating system for a 32-bit PC: a UEFI loader (MyLoaderPkg) that starts a kernel
-- (xv6) with processes, a file system with a write-ahead log, pipes, and a network stack of its own.
-- This library models parts of the kernel, one tree of modules for each, from the C sources.
--
-- The parts and their files:
--   Disk         the buffers of xv6/bio.c as the log sees them: a disk of blocks, the cached blocks
--                with their dirty bit, and `bread` and `bwrite`. Every disk write first spends one unit
--                of power; at zero power the machine has crashed, and only the disk is left. A command
--                ends done, crashed or panicked. Disk/Ends has the rule for each end.
--   Log          xv6/log.c: `install_trans`, `read_head`, `write_head`, `recover_from_log`, `initlog`,
--                `write_log` and `commit`; Log/Ops has `begin_op`, `end_op` and `log_write`. A block is
--                a function from word numbers to words. Log/Overlay says what a disk is once the blocks
--                of its log are in place. Log/Recovery, Log/Reboot and Log/Commit are about crashes,
--                Log/Ops/Steps has the operations in any order, the commit as a step of its own, and
--                Log/Ops/Reserve the space that they reserve.
--   Kalloc       xv6/kalloc.c: the free pages linked through their own first words, with `kfree`,
--                `kalloc`, `freerange`, `kinit1` and `kinit2`. Kalloc/Spec has the list of free pages,
--                Kalloc/Range the initial range, Kalloc/Owners clients in any order.
--   Pipe         xv6/pipe.c: the buffer of 512 bytes and its two 32-bit counters, with `pipewrite`,
--                `piperead` and `pipeclose`. A call is one hold of the pipe's lock; a call that sleeps
--                gives the bytes still to be written, and the caller resumes it later. Pipe/Window has
--                the bytes in transit, Pipe/Stream any interleaving of the calls.
--   Proc         xv6/proc.c: the table of 64 processes, with `allocproc`, `userinit`, `fork`, `exit`,
--                `wait`, `sleep`, `wakeup1`, `yield`, `kill` and the scheduler's dispatch. Each function
--                is what happens during one hold of `ptable.lock`; `fork` is `allocproc` and
--                `fork_child`, since the lock is released between them. Proc/System is the relation of
--                one step on any CPU, Proc/Invariant the tree of processes, Proc/Safety and Proc/Start
--                the states that are reached.
--   Fs           xv6/fs.c: the blocks as the block cache shows them and the list of the blocks passed to
--                `log_write`, with `balloc` and `bfree`. Fs/Blocks has what they do to the bitmap,
--                Fs/Owners users of blocks in any order. Fs/Inode has `bmap`, `readi`, `writei`, `iupdate`
--                and the disk read of `ilock` on one inode: Fs/Inode/Slots has its 141 addresses and the
--                bytes of the file, Fs/Inode/Calls the two calls, Fs/Inode/Disk the inode on the disk.
--                The functions of devices (`devsw`) are a parameter. Fs/Inode/Trunc has `itrunc`, Fs/Icache
--                the 50 inodes in memory with `iget`, `idup`, `iput` and `ialloc`.
--   Path         xv6/fs.c: `skipelem` on paths as lists of bytes.
--   Walk         xv6/fs.c: `dirlookup`, `dirlink` and `namex` over the inode cache, on fuel: a directory
--                has as many rounds as bytes, a path one more than bytes, and Walk/Path and Walk/Link
--                show that this is enough.
--   File         xv6/file.c: the table of 100 open files, with `filealloc`, `filedup` and `fileclose`,
--                which gives what it releases after the table's lock; and `filewrite` on an inode, whose
--                loop has a round for each byte, while each chunk has at least one. `begin_op` and
--                `end_op` around a chunk, and `ilock`, are not in it.
--   Spin         xv6/spinlock.c: one lock and any number of CPUs, with `acquire` in three steps, `release`
--                in two, `holding`, `pushcli` and `popcli`. Spin/Exclusion has any interleaving of them.
--   Syscall      xv6/syscall.c: the memory of the calling process, `fetchint`, `fetchstr`, `argint`,
--                `argptr`, `argstr`, and the choice of the function by its number in `syscall`.
--   Uthread      xv6/uthread1.c: the choice of a thread in `thread_schedule`, up to the switch in
--                xv6/uthread_switch.S, with `thread_init` and `thread_create`.
--   Bio          the list of 30 buffers of xv6/bio.c in the order of their last release, with `binit`,
--                `bget` and `brelse`: Bio/Gets has the buffer that `bget` gives, Bio/Reach any sequence of
--                calls. The sleep locks of the buffers are not here.
--   Bytes        xv6/string.c over a memory of bytes: `memmove` in Bytes/Move, `memcmp` and `strncmp` in
--                Bytes/Compare, `safestrcpy` in Bytes/Copy and `strncpy` in Bytes/Pad. The two store
--                instructions of xv6/x86.h that `memset` uses are loops here. Counts are not negative.
--   Net          xv6/eth.c: byte order and the choice of a handler; the checksums of xv6/ipv4.c and
--                xv6/icmp.c over a memory of bytes. Net/Arp has xv6/arp.c: the table of 64 neighbours,
--                `arp_table_search` with its signed result, `arp_broadcast`, `arp_reply_pkt_create` and
--                `arp_proc`, which gives the frame that it sends; the page for that frame is taken to be
--                there, as the code does.
--   Common       names, lists and Boolean tests that all of them use.
--
-- How the parts interact: the log reads and writes through the buffers; pipes sleep and wake through the
-- process table; `fork` and `pipealloc` take their pages from `kalloc`. The models meet at these calls:
-- what one part takes from another is an argument of the function (the address that `kalloc` returned,
-- the flag `killed` of the calling process).
--
-- Bounds and fuel: the loop of `freerange` runs on fuel, and the number of pages in the range is shown to
-- be enough. The loops over the process table, the log's blocks and the bytes of a call are structural.
-- The counters of a pipe and the checksums wrap at their widths. Process numbers are not bounded:
-- the model says nothing of a kernel that has made 2 ^ 31 processes. Addresses, block numbers and the
-- numbers that the log keeps are unbounded, within the limits that the code tests.
--
-- Not modelled: the instructions and registers of the machine (context switch, interrupts),
-- devices, the change of directories, virtual memory, traps, the console, and the user programs
-- other than the threads. Sleeping in the log is a pass of the loop that does nothing, and may be
-- tried again at any time, so the calls of `wakeup` there have no counterpart; those of xv6/pipe.c
-- follow from the outcome of a call. In Disk the cache has room for each block that is asked for
-- and the disk has each block: the panics of `bget`, for want of one of the 30 buffers, and of
-- `iderw`, for a block past the end of the disk, are not there. A buffer that is not dirty holds
-- what the disk holds, so that reusing it, as Bio does, would change no data. In Fs the superblock
-- that `bfree` reads again is the one in memory, since nothing writes block 1.
pub mod Bio
pub mod Bytes
pub mod Common
pub mod Disk
pub mod File
pub mod Fs
pub mod Kalloc
pub mod Log
pub mod Net
pub mod Path
pub mod Pipe
pub mod Proc
pub mod Spin
pub mod Syscall
pub mod Uthread
pub mod Walk
