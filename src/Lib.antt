-- ===== src/Lib.antt =====
-- A model of side-hOS, a kernel for x86-64 in C, and proofs about it. The files src/kernel.c,
-- src/kernel.h, src/serial.c and src/task.S are modelled function by function.
--
-- The program's parts. The bootloader leaves a memory map; kmain (src/kernel.c) turns it into a free
-- list of segments, each a run of 4 KB frames. The frame allocator takes frames out of the segments and
-- puts them back; it also formats a single frame as a heap page. The heap, kmalloc and kfree, serves
-- small blocks from the free nodes of its pages and large blocks from frames of their own. Tasks are
-- blocks of the heap with a stack from the heap, in a queue that the processors take them from; a
-- spin lock guards the heap, another the queue, a third the serial port. The shell reads a line from
-- the serial port and calls the allocators.
--
-- The files:
--   Base      names shared by all: library names, Boolean tests, integers, 64-bit arithmetic (Word)
--   Bytes     memory as bytes by address; memset, memcpy, memmove, memcmp, strcmp (src/kernel.h);
--             64-bit words in memory (Words)
--   Kernel    the structs of src/kernel.h and the static variables of src/kernel.c as one record, the
--             commands over it, and total correctness of a command (Returns)
--   Frames    memory_allocate_frame, memory_allocate_frames, memory_free_frame, memory_free_frames;
--             Ledger is their specification, the list of free frames up to order
--   Lock      lock_acquire, lock_release, the loops that wait; Exclusion has the steps of any number of
--             processors that contend for one lock
--   Heap      kmalloc, kfree, heapnode_is_empty; Nodes and Pages are their specification, the free
--             nodes of a page and the pages as lists; Contract says what callers of kmalloc rely on, by
--             the bytes that are in use (Claims), and Client shows that kmalloc keeps it, Release that
--             kfree does
--   Serial    src/serial.c over a port that is a parameter; Line holds what it relies on of the port
--   Console   kputs and kputhex
--   Tasks     task_init, idle_task_entry, task_exit, ap_entry, factorial, fibonacci; Machine is the
--             processor as src/task.S sees it, Switch its four routines as lists of instructions, with
--             the offsets of src/offsets.c; Queue is the queue, Context, Saving and Resume the saved
--             registers, Prepare and Launch the start of a task, Init and Create its
--             creation, ApEntry a processor's entry, GsBase how it finds its structure; Taking,
--             Owner, Service and Drain have the steps of any number of processors that take tasks
--             from the queue in idle_task_entry, one access to the lock or the queue at a time
--   Shell     kshell and its commands, pointer_push, pointer_pop; Line is kgets and the line that kshell
--             then reads
--   Boot      kmain; Segments is its loop over the memory map, Creation its loop that creates tasks
--
-- How state corresponds. A pointer is a number, memory a function from addresses to bytes, a field of a
-- heap page, a heap node, a task or a processor's structure a 64-bit word at its offset. The static
-- variables are the fields of the record Kernel. A command takes a Kernel and gives a value and the
-- Kernel behind it, or a fault (an access outside an array), or the news that its fuel ran out.
-- Arithmetic of uint64_t is written out modulo 2 ^ 64; an int8_t or uint8_t is its bit pattern.
-- Comparisons of the signed HeapNode.length with unsigned operands are unsigned, as in C. In the assembly
-- the flags are one more register, pushfq and popfq are its push and pop, and popfq takes what it is
-- given; a routine is the straight list of its instructions, and where it goes on is its last one's
-- address.
--
-- Fuel. The loops over linked lists take fuel. The walk over the nodes of a page ends with 255, since
-- a node takes 16 bytes of the 4064 behind a page's header; the walk over the pages and over the
-- queue ends with more fuel than there are pages or tasks. The loops over the segments run on their
-- number. The loops that wait for the serial port end with as many looks as the line may need; those of
-- factorial and fibonacci go round n - 1 times, and without end for n = 2 ^ 64 - 1. A lock
-- that is held when a command asks for it is waited for without end, since the commands here run on one
-- processor at a time.
--
-- Not modelled. The end of a round of idle_task_entry as one piece: its store to current_task and its
-- calls of save_context and restore_context, which stand alone; a task that is queued while processors
-- take others. The instructions that halt, pause, read the clock or read %cr0; the loop behind the last
-- halt of kmain, which never runs; the bootloader's protocol (src/limine.h) beyond the answers that kmain
-- reads; src/font8x16.h, which no code reads. Paging is off the books: every
-- address of the model can be read and written.
pub mod Base
pub mod Bytes
pub mod Kernel
pub mod Frames
pub mod Lock
pub mod Heap
pub mod Serial
pub mod Console
pub mod Tasks
pub mod Shell
pub mod Boot
