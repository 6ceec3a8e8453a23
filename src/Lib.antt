-- ===== src/Lib.antt =====
-- Chanux is a small 64-bit operating system: a kernel of C files below kernel/ and a few user
-- programs. This library models the parts of the kernel that keep state and decide: the allocator
-- of physical pages, the open files and their descriptors, the vnode table, the processes and
-- their scheduler, the keyboard, the string functions, the kernel heap, paths, the RAM
-- filesystem, the virtual filesystem, and the system calls. Each C function is a function of the
-- same name; the static variables of a file are a record that it takes and returns. Pointers into
-- a table are places in it, NULL is `none`, a panic is `none`. Unsigned arithmetic is on natural
-- numbers with the wrap of its width written out.
--
-- Parts and files:
--
-- Common.antt: Boolean tests, lists and maps over native numbers, 32- and 64-bit arithmetic.
-- Bitmap.antt: the bitmaps of kernel/mm/pmm.c and kernel/fs/ramfs.c; Bytes, Laws, Count and
--   Search hold their lemmas.
-- Pmm.antt: kernel/mm/pmm.c. Init is pmm_init; Valid states the invariant; Alloc, Release, Runs,
--   AllocRun, Boot and BootCount hold the proofs. The loops run over the 8388608 pages of the
--   bitmap by structural recursion.
-- Vnode.antt: the vnode table of kernel/fs/vfs.c, with its counts.
-- FileTable.antt: kernel/fs/file.c. A descriptor table is a value; the processes share the table
--   of open files, which shares the vnodes. Descriptors, Refs, Clone and Slots hold the proofs.
-- Proc.antt: the process control block of kernel/include/proc/process.h and the state that
--   process.c and sched.c share.
-- RunQueue.antt: the doubly linked run queue of kernel/proc/sched.c. Links says which list the
--   links hold; Queue and Pop are its two ends; Frame and Requeue what stays the same.
-- Sched.antt: the rest of sched.c and process_wake_sleeping. Invariant states the invariant of
--   the scheduler; Rotation, Wake and Tick are about switches, wake-ups and the timer, and Calm
--   says that they block no process.
-- Process.antt: kernel/proc/process.c and the sleep call of kernel/syscall/sys_process.c. Slots
--   is about creation, Lifecycle and Sleep about the calls that give the processor up, and Sample
--   is a state for tests.
-- Keyboard.antt: kernel/drivers/keyboard/keyboard.c. Queue reads the ring as a queue; Refinement
--   compares the driver with a keyboard that has no ring.
-- Memory.antt: kernel/lib/string.c. Copied says what a copy is; Fill, Move and Strings hold the
--   proofs about memory, Compare those about strcmp and strncmp.
-- Heap.antt: kernel/mm/heap.c. Pager is the interface to the pages below, pmm_alloc_page,
--   pmm_free_page and vmm_map_page, with any state. The block headers are a map from addresses to
--   records, apart from the bytes of memory; Calls has the functions that also touch those.
--   Layout says which list of blocks the headers hold; Split, Merge, Walks, Alloc and Free follow
--   the pointers; Valid, Shape, RoundTrip and Keeps are about kmalloc and kfree on that list;
--   Grow and Expand about heap_expand, Ends about the second try of kmalloc, Report about the
--   statistics and heap_validate, ExactFit about a block without room for a split, Bytes about
--   kzalloc, kmalloc_aligned and krealloc.
-- FsPath.antt: kernel/fs/path.c. Components says what the components of a path are and where they
--   lead; Work, Normalize and Resolve are about path_normalize, Join about the other functions.
-- Ramfs.antt: kernel/fs/ramfs.c. The disk is a map from addresses to bytes, the inode table a
--   function; a null superblock is not modelled. Ramfs itself has inodes and blocks, Files
--   reading, writing and truncation, Dirs the entries of a directory, Paths the lookup, creation
--   of files and of directories. Owned states the invariant of block ownership and what the bytes
--   of a file are; Chunk, Content, Write, WriteFile, Read and ReadBack are about file contents,
--   Release, Inodes, Drop and Truncate about giving blocks back, Create and CreateFile about new
--   files, Entries about one directory entry, Search, Listing, Edits and Directory about a
--   directory as a list of entries in its bytes and in its blocks, Names, AddName and NameMap
--   about it as a map from names to inodes, Format about the fresh disk, Marks and Sound about
--   the marks of inodes.
-- Vfs.antt: the rest of kernel/fs/vfs.c. Vfs itself has lookup and the operations of
--   ramfs_vfs_ops that create and unlink, Calls opening, closing, reading and writing, Seek
--   vfs_lseek, Tree the calls on paths and directories. Holds, Takes and Balance count references
--   to vnodes, Filled is about the inodes of vnodes in use, Close and ReadBack follow one open
--   file, Sound and Keeps are about the filesystem below, and Sample is a state for tests.
-- SysFs.antt: kernel/syscall/sys_fs.c, for the process that process_current returns. Chdir is
--   about sys_chdir, Sound about the filesystem below.
-- SysIo.antt: kernel/syscall/sys_io.c, with the keyboard and the screen. Bounds is about user
--   pointers and the buffer of sys_read, RoundTrip about a write, a seek and a read, Sound about
--   the filesystem below.
-- Syscall.antt: kernel/syscall/syscall.c, on the state that all system calls share: the processes
--   of Proc, the filesystem, the keyboard, the screen, and memory. Structs writes structs into
--   memory, Table takes a property from the handlers to the dispatch, Places says where results
--   are put, Bounds, Sound and Live are about memory, the filesystem and the scheduler, Fault
--   about the user memory that a call accesses and the page fault (kernel/interrupts/isr.c) where
--   it is not there, Run about runs of calls, interrupts (pit_irq_handler of
--   kernel/drivers/pit/pit.c, keyboard_irq_handler) and processes in user mode.
--
-- How the parts interact: process_create and process_exit make and destroy descriptor tables
-- (Process calls FileTable), file_unref gives vnodes back (FileTable calls Vnode), the process
-- calls and the timer tick change the run queue (Process and Sched call RunQueue), and the heap
-- takes its pages over the interface Pager. The system calls on files go through path_normalize
-- and the virtual filesystem (SysFs calls FsPath, FileTable and Vfs), and that goes to the open
-- files, the vnodes and the RAM filesystem (Vfs calls FileTable, Vnode and Ramfs), whose states
-- are parts of its own. The dispatch of system calls takes the parts that a call sees out of the
-- state of the kernel and puts them back (Syscall calls SysFs, SysIo and Process). Functions that
-- disable interrupts, and interrupt handlers, are single steps; the events of a keyboard are an
-- explicit sequence, and a run of the kernel is a sequence of system calls, interrupts and steps
-- of processes in user mode.
--
-- Fuel: strlen, strcpy and strcmp have a number of bytes in which the NUL lies, sched_ready_count
-- follows the links for 65 steps, one more than there are processes, and the loop of
-- path_normalize has one round more than the path has bytes, each round taking one byte at least,
-- as has the walk of lookup_path. The walks over the heap have heap_size / 32 + 1 steps, enough
-- since a block takes 32 bytes at least, and kmalloc calls itself once at most (Heap/Ends).
-- ramfs_read and ramfs_write have 13 rounds, one more than a file has blocks; each ends at a
-- block's end. All other loops are structural.
--
-- Page tables are a parameter of the system calls: which addresses the kernel can read and which
-- it can write. A call with an access elsewhere, or through a null pointer, stops the kernel. The
-- state of SysIo, SysFs and Vfs has memory at every address, and vfs_open and vfs_write take 0
-- for the size of a vnode without an inode, which is a null dereference there. A sum in vfs_lseek
-- beyond the range of int64_t, which C leaves undefined, wraps.
--
-- Not modelled: printed messages, port input and output, the registers that context_switch saves
-- and the contents of kernel stacks. What kmalloc answers is an argument of the process and
-- descriptor functions that call it; the heap itself is modelled on its own. ramdisk_init and
-- ramfs_init, which take the memory of the disk from kmalloc and fill in the constants of the
-- superblock, the construction of page tables, syscall_init, which writes machine registers, the
-- interrupt tables, the drawing of the screen, the boot loader and the user programs are not part
-- of this library.
pub mod Common
pub mod Bitmap
pub mod Pmm
pub mod Vnode
pub mod FileTable
pub mod Proc
pub mod RunQueue
pub mod Sched
pub mod Process
pub mod Keyboard
pub mod Memory
pub mod Heap
pub mod FsPath
pub mod Ramfs
pub mod Vfs
pub mod SysFs
pub mod SysIo
pub mod Syscall
