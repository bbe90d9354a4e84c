-- ===== src/Lib.antt =====
-- MaOS: a model of the kernel's memory management, of its interrupts and device drivers, of its
-- screen, and of the parts of libc that these stand on. Paths are from the repository's root.
--
-- The program is an x86 kernel without a file system or user space. kernel_main sets up the
-- screen, the descriptor tables, the serial port, the physical memory manager and the virtual one,
-- and then the devices. The physical memory manager keeps its state in seven bit sets, which libc
-- provides; all output goes through printf of libc to the screen and to the serial port.
--
-- Base holds what the modules share: comparisons, arrays as lists, the binary digits of numbers,
-- and `Outcome`, the end of a C function: a value, a panic (kernel_panic and a failed ASSERT never
-- return), a fault (undefined behaviour, such as an access out of bounds) or `unfinished`, when
-- the rounds or the answers that a loop was given do not suffice. Numbers are natural numbers,
-- with every wrap of a fixed width written out.
--
-- Memory
--
-- Bitset models libc/bitset/bitset.c: find, read, set, clear, write and fill are bitset_find and
-- so on. Bitset/Member reads a set as a predicate on indices, Bitset/Find is about the search. The
-- inner loop of the search has 32 rounds, the outer one a round for each dword.
--
-- Pmm models kernel/memory/pmm.c with the macros of kernel/include/kernel/common.h and memory.h.
-- Its static variables are the record Pmm; init, mark_used, log2, alloc and free are pmm_init and
-- so on. The loop of log2 has 32 rounds, which is enough for 32 bits (Pmm/Log); the search of
-- pmm_alloc_buddy has one for each level that is left; mark_used recurs on the level. Pmm/Cover
-- counts the free blocks round a frame, the view in which all else is stated. Pmm/Mark, Alloc,
-- Free and Oversize are about the operations, Pmm/Managed has the invariant, Pmm/Layout and
-- Pmm/Init are about pmm_init. What memory holds before pmm_init and the linker's KERNEL_END_PHYS
-- are arguments. Pmm/History has the calls of the allocator's users as a step relation, with what
-- each of them holds.
--
-- FreeList, Paging and Vm model kernel/memory/vm.c and kernel/include/kernel/vm.h. FreeList has
-- the functions ll_... on a heap of buckets, with pointers that may be NULL; FreeList/Chain says
-- what a doubly linked list is. Paging has page tables, with vm_map_page, vm_unmap_page and
-- vm_dma; what the kernel enters for an address is `translate` of Paging/Translate, what the
-- processor finds through the directory is `walk` of Vm/Walk, Paging/Dma is about ranges, and
-- Paging/Touch has accesses to ranges, which end in a page fault at a page that is not mapped. Vm
-- has the static variables as a record, and vm_reserve_pages, vm_alloc_kpages and vm_item,
-- Vm/Reclaim has vm_return_pages and vm_free_kpages, Vm/Start vm_init. A loop along a list is
-- computed for a number of rounds, after which it is `unfinished`; as many rounds as the list has
-- buckets are enough (Vm/Reserve). Vm/Lists is about the list of free buckets and the waiting list
-- side by side, Vm/Pages about the pages that the free buckets hold, Vm/Merge and Vm/Optimize
-- about vm_optimize, Vm/Return about vm_return_pages; Vm/OnePage, Vm/Frames, Vm/Memset and
-- Vm/Alloc are about vm_alloc_kpages, Vm/Free is about vm_free_kpages. Vm/KernelTables and Vm/Boot
-- are about vm_init, Vm/Grow is about vm_alloc_kpages on what vm_init leaves, and Vm/Isolation has
-- the sequences of its calls as a step relation. The contents of pages are not kept, but for the
-- buckets that stand in their frames, which the memset of vm_alloc_kpages overwrites; the stolen
-- memory is kept as the buckets in it. Liballoc models libc/stdlib/stdlib.c, which hands pages to
-- libc/liballoc, and libc/cpp/new.cpp. Pmm/Debug, Paging/Debug and Vm/Debug have what pmm_debug,
-- debug_as and vm_debug print.
--
-- CString models libc/string/string.c and memcpy.asm on a memory of bytes; CString/Copy is about
-- memcpy, CString/Fill about memset, CString/Duplicate about strdup; malloc is a parameter of
-- strdup. Gfx models kernel/gfx/gfx.cpp, and Gfx/Enable is about gfx_init. Colors models
-- kernel/gfx/colors.cpp. Floating-point numbers are a parameter, the record of Float: their
-- operations are those of the processor and of the assembly in libmath. Angle models atan2 of
-- libmath/math.cpp and Remainder its fmod, whose instruction fprem is a parameter; as many rounds
-- as the number has units, and one more, are enough (Remainder/Exact). For the colours, fmod is
-- one of the operations of Float.
--
-- Output
--
-- Tty models kernel/io/tty.c. Tty/Screen is about single cells and lines, Tty/Putchar about
-- tty_putchar, Tty/Write about the loops over it and the packing of cells and colours.
--
-- Printf models print_int of libc/stdio/printf.c. Its buffer has 15 places, so the loop that fills
-- it has 15 rounds; Printf/Digits is about what it holds, and Printf/Numeral about all that
-- print_int prints. Printf/Format models vprintf, as a function from a format and the list of its
-- arguments to the bytes that are printed. Its loop has a number of rounds, for which Console
-- takes the length of the format: each round takes at least one byte of it. Printf/Unknown is
-- about specifiers that vprintf does not know. Printf/Double models print_double, and
-- Printf/Double/Decimal is about its digits. Printf/Items, Rounds and Render compare vprintf with
-- what a format is meant to print. Console has putchar, puts and printf on the screen and the
-- serial port, and kernel_panic of kernel/kernel/common.c. Console/Output is about one text,
-- Console/Spoken about texts one after the other.
--
-- Interrupts and devices
--
-- Machine models kernel/io/port.c. A function that uses ports takes a Machine: the answers that
-- the devices give to the coming reads, the trace of what was read and written, the screen, and
-- the static variables of the drivers. Pci/Scan is about the reads of pci_init. A loop that waits
-- for a device has a round for each answer, and is `unfinished` when no answer ends it: such a
-- call does not return.
--
-- Tables models kernel/kernel/tables.c. Tables/Pic says what the two interrupt controllers make of
-- the writes to their ports, Tables/Mask is about irq_clear_mask, Tables/Entries about what the
-- descriptors hold. Isr models kernel/kernel/isr.c: registration, Isr/Dispatch the dispatch of
-- exceptions and interrupts, Isr/Delivery how they fit together. Serial models kernel/io/serial.c,
-- Keyboard kernel/io/keyboard.c, Pci kernel/io/pci.c and Timer kernel/kernel/timer.c. A sleeping
-- processor is woken by a list of interrupts (Timer/Sleep).
--
-- The whole
--
-- Kernel models kernel_main of kernel/kernel/kernel.cpp: the start of all parts, in its order, and
-- the loop that draws. The loop has a list of the wake-ups of each of its sleeps, and is
-- `unfinished` behind the last, since it does not return. Kernel/Memory has the start of the
-- memory managers, Kernel/Parts is about what each part leaves, Kernel/StartUp about all parts
-- together but the memory managers, Kernel/MemoryStart about these two, and Kernel/Ready about the
-- whole start. Kernel/Lines has the lines that kernel_main prints, Kernel/TextMode what it does
-- behind the start without a frame buffer, and Kernel/Main and Kernel/Graphics are about
-- kernel_main as a whole, without a frame buffer and with one. Kernel/Frame has what is drawn in
-- one round, Kernel/Frame/Pixels is about the picture in the buffer and Kernel/Frame/Apply about
-- the one on the screen; Kernel/Render is about the loop.
--
-- Tests runs the model on concrete inputs.
--
-- Not modelled: the DEBUG lines inside other functions, which print nothing since dbflags is 0;
-- print_stacktrace, which nothing calls; the load of a page directory and of the descriptor tables
-- into the processor; the other functions of libmath, which are assembly; interrupts that arrive
-- outside a sleep; assembly but for memcpy_aligned; libc/liballoc, which is another project's
-- library.
pub mod Base
pub mod Bitset
pub mod Pmm
pub mod FreeList
pub mod Paging
pub mod Vm
pub mod Tty
pub mod Printf
pub mod Machine
pub mod Tables
pub mod Isr
pub mod Serial
pub mod Console
pub mod Timer
pub mod Pci
pub mod Keyboard
pub mod CString
pub mod Gfx
pub mod Liballoc
pub mod Float
pub mod Angle
pub mod Remainder
pub mod Colors
pub mod Kernel
mod Tests
