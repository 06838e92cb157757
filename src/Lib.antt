-- ===== src/Lib.antt =====
-- The virtual memory system of this OS/161 kernel, its kernel heap, its ELF loader, the block map of
-- its file system, parts of its library, its lists of threads and its deadlock detector.
--
-- The kernel keeps one inverted page table for all processes (vm/pt.c): the entry of a frame says
-- which page of which process it holds. Free frames stand on a linked list (lib/list.c), from which
-- alloc_kpages takes and to which free_kpages gives (vm/kmalloc.c). The 64 slots of the hardware TLB
-- are a cache of the page table (vm/vm_tlb.c). A page that has to leave memory goes to a slot of the
-- swap file (vm/swapfile.c). vm_fault (vm/vm.c) joins these parts; vm/addrspace.c creates, switches
-- and destroys the address space of a process; vm_bootstrap sets everything up over the memory that
-- arch/mips/vm/ram.c has found.
--
-- The heap of the kernel itself (kmalloc and kfree of vm/kmalloc.c) cuts whole pages into blocks.
-- The SFS file system finds the disk block of a block of a file, or allocates it in the bitmap of
-- lib/bitmap.c (fs/sfs). Beside these stand parts that the rest of the kernel shares: the doubly
-- linked lists on which threads wait (thread/threadlist.c) and the detector that spinlocks and locks
-- report to before they wait (thread/hangman.c).
--
-- Files:
--   Base         names of the libraries, lists, searches, 32-bit arithmetic, the result type Outcome
--   Segments     vm/segments.c and struct addrspace of include/addrspace.h
--   PageTable    vm/pt.c: pageSearch, addPT and victim_pageSearch
--   Tlb          vm/vm_tlb.c over arch/mips/include/tlb.h
--   Ram          arch/mips/vm/ram.c
--   Vm           the variables of the VM system in one record, and memory and swap file as bytes
--   Frames       lib/list.c, vm/coremap.c, alloc_kpages and free_kpages of vm/kmalloc.c,
--                alloc_pages of vm/vm.c, page_replacement of vm/pt.c
--   Swap         vm/swapfile.c
--   Fault        vm_fault of vm/vm.c and the counters of vm/vmstats.c
--   Space        vm/addrspace.c
--   Boot         vm_bootstrap of vm/vm.c
--   Bitmap       lib/bitmap.c
--   Bytes        lib/bswap.c
--   Time         lib/time.c
--   ThreadList   thread/threadlist.c: the nodes, and the refinement of sequences of threads
--   Hangman      thread/hangman.c: the detector, the walk along the waits, and all runs of its calls
--   Heap         vm/kmalloc.c up to kfree: pagerefs and their bitmaps (Heap), blocks, kmalloc and kfree
--                (Heap/Subpage), over an interface of whole pages
--   Elf          syscall/loadelf.c and the headers of include/elf.h
--   Sfs          fs/sfs/sfs_bmap.c, sfs_balloc.c and the transfers of sfs_io.c, over Bitmap;
--                Sfs/Truncate has sfs_itrunc
--   Array        lib/array.c and include/array.h, and the refinement of sequences of pointers
--   Uio          uiomove of lib/uio.c: the moves of bytes between buffers and a pointer
--   Tests        concrete machines, and the theorems at them
-- The file of a part holds its definitions, its folder the proofs. A function keeps its name, in
-- lower case and with underscores (addTLB is add_tlb); a loop or a branch that has a name of its own
-- stands directly above the function that it is a part of.
--
-- Correspondence. Each function takes the state and returns the next one. `ok` is a normal return,
-- `panic` a call of panic() or a failed KASSERT, `fault` a step that C leaves undefined. noEntryFound
-- is `none`. Numbers are naturals; where the source computes on 32 bits, the modulus is written out
-- (add32, sub32, mul32), and so it is for the uint8_t pid of an entry, the uint16_t victim_counter
-- and page counts, and the uint8_t size of alloc_kpages. The lists of the page table and of the TLB
-- are read by index; an index out of range is `fault` where the source does not test it.
--
-- Bounds. The loops run over a list or down from a given number. Frames are numbered below 2 ^ 17,
-- since ram.c uses at most 512 MiB. Three loops run on fuel: the walk of hangman_check, which has no
-- bound in the source, and for which enough fuel exists wherever the detector can be; the loop of
-- array_preallocate, for which 32 turns are enough up to 2 ^ 31 pointers, and none beyond (its block is
-- large enough below 2 ^ 29, since the number of bytes wraps around); and the
-- loop of uiomove, for which two turns for each buffer and one more are.
--
-- Parameters. The results of vfs_open, VOP_READ and VOP_WRITE on the swap file are the record Io; a
-- transfer that returns 0 has moved the page, and one that fails has moved nothing. load_elf is a
-- field of the process that faults, which Elf/Fault.antt fills with the loader; there the file is a
-- parameter: what VOP_READ gives, and what a read into user memory does to the VM system, which may
-- fault on the pages it writes. The device of Sfs is a function that gives the result of the n-th
-- transfer; a transfer that fails has moved nothing. Frames has the heap for the nodes of the frame
-- list as a number of blocks that are left: kfree of a node gives one back, kmalloc of a node takes
-- one, and takes a frame off the list for 256 more when none is left. Heap, the allocator below
-- kmalloc, has alloc_kpages and free_kpages as a parameter that may change the whole heap, since they
-- run with the allocator's lock released and call kmalloc and kfree themselves; it is not joined to
-- Frames. Array has what kmalloc gives for a number of bytes as a parameter, Uio the results of copyin
-- and copyout.
--
-- Not modelled: the timing of faults (gettime), interrupt levels and the spinlock of kmalloc.c, since
-- every call runs alone; output and DEBUG; the debugging modes of kmalloc.c, which the file turns
-- off; processes, thread switching, the rest of the file systems and the drivers, which the modelled
-- parts only call; the lock of the file systems, for the same reason as the spinlock.
pub mod Base
pub mod Segments
pub mod PageTable
pub mod Tlb
pub mod Ram
pub mod Vm
pub mod Frames
pub mod Swap
pub mod Fault
pub mod Space
pub mod Boot
pub mod Bitmap
pub mod Bytes
pub mod Time
pub mod ThreadList
pub mod Hangman
pub mod Heap
pub mod Elf
pub mod Sfs
pub mod Array
pub mod Uio
pub mod Tests
