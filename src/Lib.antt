-- ===== src/Lib.antt =====
-- Two teaching kernels after xv6: p5/xv6-public, with threads, priorities and timed sleep, and
-- p4/xv6-public, with memory mappings. The files that they share are the same but for a few lines;
-- the modules follow p5, and Wmap follows p4.
--
-- The parts, and the files that model them:
--   Prelude: tests, lists and integers that all modules use, and the bitwise or of an address and flags.
--   Strings: p5/xv6-public/string.c. A buffer is a list of bytes, memory that pointers may share is a
--     function of addresses; `none` is an access out of bounds.
--   Kalloc: p5/xv6-public/kalloc.c. `Kmem` is `kmem`, its free list a list of addresses.
--   Proc: the process table of p5/xv6-public/proc.h and the functions of proc.c on it alone:
--     `schedule`, `yield`, `sleep_begin` and `sleep_end` (the two halves of `sleep`), `wakeup1`,
--     `sleep_proc_notify`, `kill`, and `nice` and `sys_sleep` of sysproc.c. A pointer to a process is its index.
--   Uvm: the reference counts of page directories in p5/xv6-public/vm.c; `share` is what `clone` does
--     with them, `drop_ref` what `freevm` does.
--   Vm: p5/xv6-public/vm.c over the pages of Kalloc; a page is its 1024 words. Vm has `walkpgdir` and
--     `mappages`, Vm.Space `allocuvm`, `deallocuvm`, `clearpteu`, `uva2ka` and the part of `freevm` behind the
--     count (`free_pages`), Vm.Copy `setupkvm` and `copyuvm`.
--   Kernel and Kernel.Calls: `allocproc`, `fork`, `clone`, `wait` and `exit` of p5/xv6-public/proc.c on
--     the state that they share: Proc, Kalloc and Uvm as above, and what they call in the file system
--     and the page table code as the interface `Ops`. Kernel.Reach is about any sequence of the steps of these calls.
--   Pipe: p5/xv6-public/pipe.c, its counters as `uint` that wrap around.
--   Log: p5/xv6-public/log.c over an abstract buffer cache; the writes that reach the disk are kept in
--     order, and a crash is a prefix of them.
--   Bcache: p5/xv6-public/bio.c, the list of buffers, most recently used first.
--   Spinlock: p5/xv6-public/spinlock.c on one CPU; the loop of `acquire` is a result of its own.
--   Sleeplock: p5/xv6-public/sleeplock.c and mutex.c, which are the same code on two structures.
--   File: p5/xv6-public/file.c, the counts of open files, and the loop that writes to an inode.
--   Fs: p5/xv6-public/fs.c over the blocks as the buffer cache has them; `log_write` only pins a buffer.
--     Path has `skipelem` and `namex`, with what `namex` calls on inodes as the interface `Inodes`;
--     Dir `dirlookup` and `dirlink` (their loops are `lookup` and `add_entry`, on the directory alone);
--     Icache `iget` to `iput`, `itrunc` and `ialloc` (Truncate is about `itrunc`); Inode `iupdate`, `bmap`, `readi` and `writei`; Bitmap
--     `balloc` and `bfree`; Names `namei` and `nameiparent`, which fill `Inodes` with the layers below;
--     Blocks the fields of C structures as bytes.
--   Syscall: p5/xv6-public/syscall.c, the checks of system call arguments.
--   Sysfile: the calls of p5/xv6-public/sysfile.c on file descriptors, `sys_dup`, `sys_close` and `sys_pipe`, with
--     `pipealloc` of pipe.c, on the table of File; what the pipe itself holds is in Pipe. The
--     `pipeclose` and `iput` that `fileclose` goes on to call are noted in order and not run.
--   Ulib: p5/xv6-public/ulib.c and printf.c, the library of the user programs.
--   Wmap: p4/xv6-public/wmap.c, on 32-bit patterns, with C's conversions written out. Wmap.Pages has its page
--     faults, `wunmap` and the calls that report, on the page tables of Vm; Wmap.Fork what `fork` of
--     p4/xv6-public/proc.c does with the mappings.
-- A component's child modules hold its theorems, and its module Tests runs on small inputs.
--
-- A function that runs under a lock is one step. A call that waits in a loop (`sleep`, `wait`, the pipes,
-- `begin_op`) is split where it gives up the CPU. `exit` and `fork` are defined as whole calls; the steps of
-- Kernel.Reach are their parts: `allocproc` and what follows it, the changes of the open files, and the part of
-- `exit` under `ptable.lock`, with any steps between them. The other calls are run as a whole. `panic` is
-- `none`.
--
-- `nextpid` is a 32-bit pattern that wraps around; what is said about pids is for steps before it leaves the
-- range of an `int`.
--
-- Fuel: `freerange` has one round for each page of the address space below its end and one for the last
-- test. The loop that names a thread has 16 rounds, the size of the buffer. `place` of Wmap takes its
-- fuel as an argument, since the loop need not end, and so does `write_loop`. `namex` has one round for each
-- byte of the path and one more, `readi` and `writei` for each byte to move and one more, `balloc` for
-- each block of the map and one more, the loops over a
-- directory two more than it has whole entries, and `mappages` one for each page there is. The
-- loops over the pages of an address space have one round for each page and one more, `printint` has 32 rounds
-- and needs no more than ten in base 10 or 16, and `getpgdirinfo` takes its fuel as an argument, since its loop
-- need not end. `gets` has one round for each byte of room.
--
-- Not modelled: the hardware switch, interrupts, device drivers and boot code; the contents of kernel
-- stacks and free pages; user programs and host tools; of vm.c what moves bytes between files, buffers and
-- pages; of sysfile.c the calls on path names; exec, traps and the dispatch of system calls. Where a modelled
-- call needs one of these it is a parameter, which the model of the call names.
pub mod Prelude
pub mod Strings
pub mod Kalloc
pub mod Proc
pub mod Uvm
pub mod Vm
pub mod Kernel
pub mod Pipe
pub mod Log
pub mod Spinlock
pub mod Sleeplock
pub mod Bcache
pub mod File
pub mod Syscall
pub mod Fs
pub mod Wmap
pub mod Sysfile
pub mod Ulib
