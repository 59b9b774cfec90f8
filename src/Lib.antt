-- ===== src/Lib.antt =====
-- A model of the JUOS kernel, a 32-bit operating system for i386, and theorems about it.
--
-- The parts of the program and the files that model them (paths from the repository's root):
--
-- - kernel/kernel/schedualer.cpp, kernel/include/kernel/schedualer.h: Sched. The scheduler keeps two
--   queues of processes, the ids that were ended, and the current process. `_FindProcess` is
--   find_process, `CalculateNext` is calculate_next, `AddItem` is add_item, `SignalEnd` is
--   signal_end. Sched/Rotate has the specification of a search as a rotation of a list, Sched/Next
--   one call, Sched/Turns many calls in a row. The scheduler uses its queues through the interface
--   of Queue/Fifo.
-- - kernel/include/kernel/data_structures/queue.hpp: Queue, nodes in a store by address; a fault is
--   `none`. Queue/Linked relates the nodes to a list, and Queue/Fifo fills the interface with them,
--   for any allocator that returns fresh addresses.
-- - kernel/include/kernel/data_structures/vector.hpp: Vector, with its buffer as allocated;
--   Vector/Growth.
-- - kernel/kernel/kmm.cpp, kernel/include/kernel/kmm.h: Kmm. Kmm/Fast is the bin of small blocks
--   (`__malloc_fastbin`, `__free_fastbin`), with Kmm/Fast/Slots; Kmm/Big is the list of large chunks
--   (`__malloc_big`, `__free_big`), with Kmm/Big/Layout, Kmm/Big/Place and Kmm/Big/Overlap;
--   Kmm/Dispatch is `malloc` and `free`, which choose one of them.
-- - kernel/kernel/kheap.cpp: PrimitiveHeap, the heap that only grows; page tables come from it.
-- - kernel/kernel/frame_table.cpp, kernel/kernel/paging.cpp, kernel/include/kernel/paging.h: Paging.
--   `FindFirst` is find_first, `_get_page` is get_page, a round of `_map_virt_to_phys` is map_page,
--   `map_region` is map_region; Paging/Frames, Paging/Step, Paging/Map, Paging/Fresh;
--   Paging/Destroy is the destructor of a directory. Paging/Space has the directories by their
--   address: `create_directory`, `Initialize` (initialize) and `page_fault_handler`.
--   Paging/Space/Grown says what a mapping keeps, Paging/Space/Aligned and Paging/Space/Mappings are
--   about one region and several, Paging/Space/Created, Paging/Space/Identity, Paging/Space/Initial
--   and Paging/Space/Fault about the operations.
-- - kernel/kernel/process.cpp, kernel/include/kernel/processing.h: Processing, the processes over the
--   scheduler and the directories. `Start::Process` is start_process, `End::Process` end_process,
--   `_NewProcess` new_process, `Initialize` initialize_processing, and find_if is the one of
--   libstdcxx/algorithms.hpp. Processing/Names is about the copy of a name
--   to its buffer and the search for it.
-- - kernel/kernel/timer.cpp: Processing/Timer, the tick handler, which switches between processes.
--   Processing/Tick is about one tick, Processing/Resume about many, Processing/Started and
--   Processing/Launched about a start and the ticks after it, Processing/Ended about ticks, starts and
--   ends in any order, Processing/Emptied about ticks when no process is left, Processing/Booted about
--   `Initialize` and the first tick after it. Processing/Stage is `kernel_stage_2` of
--   kernel/kernel/kernel.cpp, and Processing/Shell is about it and the next tick.
-- - kernel/kernel/keyboard.cpp, the locks of kernel/include/kernel/lock.h, and `GetChar` of
--   kernel/kernel/kio.cpp: Keyboard. Keyboard/Order is about interrupts, switches and the steps of a
--   reader in any order, Keyboard/Taken about a call of `GetChar`.
-- - kernel/arch/i386/tty.cpp, kernel/include/arch/i386/vgh.h: Tty, the text screen; Tty/Cursor.
-- - kernel/arch/i386/interrupts/interrupts.cpp and the calls of kernel/kernel/kernel.cpp that set
--   handlers: Interrupts; Interrupts/Boot.
-- - kernel/arch/i386/interrupts/idt.cpp: Idt, the gates of the processor's interrupts; Idt/Gates.
-- - kernel/arch/i386/interrupts/pic.cpp: Pic, the gates of the hardware interrupts, and `Idt::_Init`,
--   which sets them before those of the processor.
-- - kernel/arch/i386/gdt/gdt.cpp: Gdt, the segment table; Gdt/Segments.
-- - kernel/drivers/ps2_keyboard.cpp: Ps2, the table of keys and the key source; Ps2/Control.
-- - kernel/kernel/kio.cpp: Kio, the line reader; Kio/Line describes line editing on lists.
-- - libc/string: Cstring; Cstring/Held is about memory that holds strings.
-- - libc/stdio/printf.cpp: Printf, the number printer `_convert_to_base`, and Printf/Format, the loop
--   of printf and `puts`; Printf/Digits, Printf/Shown and Printf/Pieces.
-- - kernel/include/kernel/data_structures/string.hpp: KernelString, the class String;
--   KernelString/Loops, KernelString/Held, KernelString/Texts, KernelString/Added.
-- - libstdcxx/static_stack.hpp: StaticStack; StaticStack/Order.
-- - libstdcxx/list.hpp: StdList, the doubly linked list; StdList/Doubly relates it to a list.
-- - kernel/drivers/ext2.cpp, kernel/include/drivers/ext2.h: Ext2, over the storage interface of
--   kernel/include/kernel/storage.h (Ext2/Storage), of which the file system asks for 0 sectors and
--   relies on one, as kernel/drivers/ata.cpp moves. Ext2/Bytes has the packed structures, Ext2/Volume
--   the block arithmetic and transfers, Ext2/Super `_get_super_block`, Ext2/Group
--   `_get_block_group`, Ext2/File the constructor and `CreateFile`. Ext2/Block, Ext2/Layout,
--   Ext2/Objects, Ext2/Filed, Ext2/Available and Ext2/Places have the lemmas; Ext2/Made, Ext2/Mounted,
--   Ext2/Slots, Ext2/Created and Ext2/First the theorems.
-- - kernel/drivers/ata.cpp, kernel/include/drivers/ata.h: Ata, over the ports of Ata/Drive, which also
--   states what a drive does: it moves data only while it is not busy and requests it. Ata/Ports has the operations on registers, Ata/Sector `ReadSectors`,
--   `WriteSectors` and the transfers of bytes, Ata/Identify `_get_device_info` and `create_device`;
--   Ata/Polls, Ata/Transfer, Ata/Spans and Ata/Absent are about them.
--
-- Prelude has the shared tests, lists, maps, options and machine words; Tests has the theorems at
-- single inputs.
--
-- How code becomes definitions. State is passed and returned. Words of 32 bits are natural numbers
-- with the wrap-around written out, and a pointer is a word, 0 for null. A result `none` is a fault
-- of the kind the file's first comment names, or out of fuel. Fuel stands where the source loops
-- over linked or unbounded data: the search for a process (one more than the queue's length is
-- enough), emptying a queue (the same), the search for a hole (one more than the number of links),
-- the mapping of a region (one more than the number of pages; several regions: one more than
-- 2 ^ 20), the search for an end mark (one more than the string's length), the polling of a status (more than the reads after which the drive is
-- ready), and the digits of a number (63). The theorems prove those amounts
-- enough. The difference of two chunk pointers in `__malloc_big` divides a distance by 13 that need
-- be no multiple of it, which C++ leaves open; it is a parameter, and no theorem assumes anything of
-- it.
--
-- Not modelled: interrupts inside of the allocator, when a queue makes or deletes a node, and inside of
-- `enqueue`, which runs in the interrupt; the loop of the shell; the C++ library but find_if, the static
-- stack and the linked list; the copy of the old stack in Processing::Initialize and the
-- other assembly, the port output other than the ATA driver's,
-- and the log lines; the C++ runtime support (kernel/kernel/icxxabi.cpp);
-- output.cpp, a dump of the other sources.
pub mod Prelude
pub mod Queue
pub mod Sched
pub mod Vector
pub mod Kmm
pub mod PrimitiveHeap
pub mod Paging
pub mod Tty
pub mod Interrupts
pub mod StaticStack
pub mod Kio
pub mod Ps2
pub mod Cstring
pub mod Printf
pub mod StdList
pub mod Idt
pub mod Ext2
pub mod Ata
pub mod KernelString
pub mod Gdt
pub mod Pic
pub mod Processing
pub mod Keyboard
mod Tests
