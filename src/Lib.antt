-- ===== src/Lib.antt =====
-- A verification library for the OS161 kernel of this repository: its paged virtual memory (the
-- C1_PAG configuration), its synchronisation, its system calls on files, its transfers of data, and
-- the blocks and directories of its simple file system.
--
-- The parts and their files. Each C file under kern/ has one module, whose name is the part's:
--   kern/vm/pt.c            PageTable (PageTable/Destroy has the two functions that free a table)
--   kern/vm/coremap.c       Coremap, and Vm/Frames for the functions that evict pages
--   kern/vm/swapfile.c      Swap
--   kern/vm/segments.c      Segment
--   kern/vm/addrspace.c     AddrSpace, and Vm/Spaces for those that create, copy and destroy
--   kern/vm/vm_tlb.c        Tlb, with the instructions of kern/arch/mips/include/tlb.h
--   kern/vm/vmc1.c          Vm/Fault (the fault handler), Tlb (its replacement), Vm/Machine
--   kern/vm/statistics.c    Stats
--   kern/arch/mips/vm/ram.c Ram
--   kern/lib/bitmap.c       Bitmap
--   kern/proc/proc.c        Proc: the process table and the copy of open files
--   kern/syscall/file_syscalls.c  FileCalls
--   kern/vm/copyinout.c     UserCopy
--   kern/lib/uio.c          Uio: transfers over lists of buffers
--   kern/thread/spinlock.c  Spinlock
--   kern/thread/synch.c     Synch/Semaphore, Synch/Lock and Synch/Cv, with the wait channels of
--                           kern/thread/thread.c
--   kern/thread/threadlist.c  ThreadList
--   kern/fs/sfs/sfs_balloc.c and kern/fs/sfs/sfs_bmap.c  Sfs: the free map and the block map
--   kern/fs/sfs/sfs_dir.c   SfsDir: directories
-- Base has what all of them use: Boolean tests, arrays as functions, loops, 32-bit masks, and the
-- type Outcome of what a kernel routine does.
--
-- State and operations. The static variables of a C file are the record of its module, and each C
-- function is a definition of the same name that takes the state and returns the new one. A
-- routine that asserts, panics or dereferences NULL returns an Outcome, whose `panic` is the end
-- of the kernel. Machine (Vm/Machine) joins the records of all the parts of kern/vm, with memory
-- as bytes, and page tables and address spaces at addresses, since processes share them: a fault
-- goes from Vm/Fault to AddrSpace and PageTable, to Vm/Frames for a frame, which takes it from
-- Coremap or Ram or evicts a page through Swap, and to Segment for the page's contents. The
-- spinlocks are held over straight-line code only, so an operation is one step.
--
-- Interleaving. Spinlock, Synch/Semaphore, Synch/Lock and Synch/Cv model the code as steps: each
-- has a type Pc of the places where a thread or processor may stand, a relation Move of one step of
-- one of them, and a relation Reach of what any number of them reach when they call the routines as
-- they like and interleave at every access. Spinlock justifies the spinlock that the other three
-- take and give back in one step; Synch/Lock/Refine justifies the lock that Synch/Cv uses.
-- ThreadList shows that the wait channels and run queues are the sequences that Synch takes them
-- for. FileCalls works on the tables of Proc. Sfs allocates its blocks from a Bitmap. Uio moves
-- bytes by the copies of UserCopy.
--
-- Bounds and fuel. Counters and segment arithmetic wrap around at 2^32. The search for a victim
-- frame gets 2 * n + 1 rounds for n frames, which is enough wherever a victim below the last frame
-- exists (Coremap/Victim); where none exists the C loop does not end. The search of the process
-- table gets as many rounds as there are identifiers, which is always enough (Proc/Pids). The
-- loop of uiomove gets one round for each byte and each buffer, which is enough (Uio/Moves). All other
-- loops are counted.
--
-- What is not modelled. The file layer is a parameter (Vfs, and FileLayer in FileCalls), and what it
-- documents is a hypothesis (IsPageStore, OpensVnodes), as are the block device below Sfs
-- (IsDevice) and the transfer of a directory entry below SfsDir (IsDirStore). kmalloc is an argument:
-- whether it finds memory, and what that memory holds. The frames of the coremap that it takes are
-- left out, so the theorems on a new page suppose that the inner table for it is there; the frames
-- that kfree of an inner or outer table gives back are modelled. spinlock_do_i_hold before there is a
-- current processor, context switches, devices and the rest of the file systems are not modelled, nor
-- is interleaving inside an operation of the memory system. Memory is sequentially consistent.
pub mod Base
pub mod Stats
pub mod Vfs
pub mod Swap
pub mod Segment
pub mod AddrSpace
pub mod Tlb
pub mod Ram
pub mod Coremap
pub mod PageTable
pub mod Vm
pub mod Proc
pub mod Bitmap
pub mod Synch
pub mod Spinlock
pub mod ThreadList
pub mod FileCalls
pub mod Uio
pub mod UserCopy
pub mod Sfs
pub mod SfsDir
