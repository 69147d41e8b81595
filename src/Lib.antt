-- ===== src/Lib.antt =====
-- mugOS: models and proofs of parts of the kernel and its library.
--
-- mugOS is a 64-bit x86 kernel in C. The kernel takes physical pages from a bitmap allocator
-- (Kernel/Memory/PMM.c). Its own C library has a heap (Stdlib/Heap.c), whose large blocks are looked
-- up in a hashmap from pages to chunks, a circular doubly linked list that the heap, the slab
-- allocator and the timers keep their objects in (Stdlib/mugOS/List.c), and a ring buffer that
-- passes keyboard input from an interrupt handler to the reader (Stdlib/mugOS/Ringbuffer.c). The
-- interrupts of a PS/2 keyboard bring scancodes, which the driver (Kernel/Drivers/Input/PS2.c) turns
-- into keys pressed and released, and the keyboard subsystem (Kernel/Drivers/Input/Keyboard.c) into
-- characters and calls of the registered callbacks. Printing (Stdlib/printf.c) formats into memory and
-- to descriptors, and paging (Kernel/Arch/x86_64/Memory/Paging.c) maps physical pages to addresses.
--
-- Base: numbers, lists with bounds as C arrays are read, and the arithmetic of bits and shifts.
--
-- Pmm: Kernel/Memory/PMM.c. `struct BitmapAllocator` is the record BitmapAllocator, which holds the
-- words of the bitmap. clearBits, setBits, countFreeBlocks, isFullyAllocated, allocate_firstFit,
-- PMM_allocatePages and PMM_freePages are clear_bits, set_bits, count_free_blocks,
-- is_fully_allocated, allocate_first_fit, allocate_pages and free_pages. Masks and Range compute
-- what the masks and the loops do to a bit; Marking, Pages, Freeing and Counter hold the results.
--
-- Ringbuffer: Stdlib/mugOS/Ringbuffer.c and Ringbuffer.h. Interrupts that come before lock() are a
-- function of the ring, a parameter of the operations. Queue gives the values a ring holds.
--
-- LinkedList: Stdlib/mugOS/List.c and List.h. A store maps an address to the two fields of the node
-- there, so that the aliasing of head and nodes is the one of the source. Links states that the
-- fields form a circle through a sequence of nodes.
--
-- Hashmap: the hashmap of Stdlib/Heap.c. Hashmap_grow, _insert, _find and _delete are grow, insert,
-- find and delete; the pages that a growth takes are a parameter. Walk follows the probe sequence.
--
-- MemoryMap: Kernel/Memory/MemoryMap.c. MMap_init and its three steps, parseLimineMemoryMap,
-- processLimineMemoryMap and copyIntoMemoryMap, are mmap_init, parse_limine_memory_map,
-- process_limine_memory_map and copy_into_memory_map, over a list of limine's entries. A panic is
-- `none`. getMagnitude is get_magnitude.
--
-- Time: computeConversion, ticksToNs, delayTicks and the ticks of mdelay, udelay and ndelay, of
-- Kernel/Time/Time.c; what the timer reads is a parameter. Time/Timers is the registering of timers; the
-- lists of Stdlib/mugOS/List.c that hold them are lists there.
--
-- Strings: the functions of Stdlib/string.c, over a memory that maps addresses to bytes.
--
-- Keycodes, Layout and Scancodes: the keys of Kernel/Drivers/Input/Keycodes.h, the five tables of
-- the AZERTY layout in Keyboard.c, and the four tables from scancodes to keys in PS2.c.
--
-- Keyboard: Kernel/Drivers/Input/Keyboard.c. Its static variables are the record Keyboard.
-- Keyboard_notifyPressed, Keyboard_notifyReleased and Keyboard_notifySysRq are notify_pressed,
-- notify_released and notify_sys_rq; what the callbacks are called with is a list. Modifiers,
-- Numpad, Letters and Callbacks hold the results on its parts.
--
-- Ps2: Kernel/Drivers/Input/PS2.c. Decoder holds the static variables of the scancode handlers and
-- what the handlers share; Set1 and Set2 are handleScancodeSet1 and handleScancodeSet2, whose checks
-- of sequences return or go on. What a handler calls, notifications and sends, is a list of effects;
-- Irq is keyboardIRQ with the keyboard subsystem behind it. Strokes says which scancodes a keyboard
-- sends. Mouse is mouseIRQ with handleMousePacket; Responses is the response buffer, and Exchange is
-- receiveByte and sendByteToDeviceHandleResend over a controller that is a parameter; Setup is
-- PS2_initKeyboard and PS2_initMouse with what they call.
--
-- Bounds and fuel: words are natural numbers, wrapped modulo 2 ^ 64 where C wraps them. Loops over
-- arrays are recursions on the rounds left. The searches of the hashmap have no bound of their own;
-- they run on as many rounds as there are entries, which is enough in a table with a free entry, and
-- `endless` stands for a search that uses them up. The loop of getMagnitude ends in at most as many
-- rounds as its number, and the while loop of computeConversion in at most 32. strlen, strchr and
-- strcpy run on fuel, of which one round more than the length of the string is enough; delayTicks
-- runs on fuel, of which one round more than the readings that come too early is enough. The loops of
-- receiveByte and of sendByteToDeviceHandleResend count to 100,000 and to 3, as in the source.
--
-- Hash: hashString of Stdlib/mugOS/Hash.c, on words of 64 bits.
--
-- Printf: Stdlib/printf.c. Printf/Spec is struct specifierState, Printf/Machine the state machine that
-- vdprintf_internal and vsnprintf_internal share (`advance` is one round of their loops, up to what is
-- written, which is a `Piece`). Printf/Number is sprintf_uint and sprintf_int, Printf/Size the sizes that
-- are computed before, Printf/Memory vsnprintf_internal, and Printf/Descriptor vdprintf_internal with
-- printf_uint, which writes char by char. Numbers are words of 64 bits in two's complement, cut to 32
-- bits where the code makes them an int. The strings that pointers stand for are a parameter, as is
-- whether each write to the descriptor succeeds. The loops over shifts have fuel for 64 bits (22 and 16
-- rounds), which is shown to be enough. An argument beyond the last is 0. The counts `printed` of chars
-- are ints in the code and numbers without bounds in the model, and the negation of the least long long
-- wraps: where C leaves these overflows undefined, the model is not the code.
--
-- Paging: Kernel/Arch/x86_64/Memory/Paging.c. Paging_map as the sequence of what it does to the tables
-- (`Effect`): the tables that it asks getPDP, getPD and getPT for, and the entries that it writes, each
-- at its index in every table on the way (`Slot`). Paging/Entries has the processor's reading of these
-- entries, Paging/Mapping the whole loop, which has as much fuel as there are pages.
--
-- Not modelled: logging, panics and assertions (the models state what they exclude), PMM_init, the
-- buffer that Ringbuffer_init allocates, the rest of the heap, the slab allocator, the file system, how
-- the tables of paging are found and allocated, Paging_unmap, PS2_init, the boot loaders, and the
-- drivers that only read and write hardware registers.
pub mod Base
pub mod Pmm
pub mod Ringbuffer
pub mod LinkedList
pub mod Hashmap
pub mod MemoryMap
pub mod Time
pub mod Strings
pub mod Keycodes
pub mod Layout
pub mod Scancodes
pub mod Keyboard
pub mod Hash
pub mod Printf
pub mod Paging
pub mod Ps2
