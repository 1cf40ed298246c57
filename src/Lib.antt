-- ===== src/Lib.antt =====
-- lxdream is an emulator of the Sega Dreamcast. This library models the parts of it that keep
-- time and pass events on, as functions on an explicit state, and proves that they keep that
-- state consistent.
--
-- How the parts interact: devices schedule events with the event queue; between instructions the
-- CPU compares its time with the time of the first event and calls those that are due. Most
-- events belong to the system ASIC, which collects them in its registers and passes them on to
-- three lines of the interrupt controller; the timers and the DMA controller raise their
-- interrupts there directly. The interrupt controller tells the CPU through the same two words as
-- the event queue, sh4r.event_pending and sh4r.event_types.
--
-- Files and sources, by paths from the repository's root:
--   Machine: the state: the static variables of the C files and the fields of sh4r
--     (src/sh4/sh4.h) that they use. A register region is a function from the offset of a
--     register to its 32-bit pattern; only whole registers at their offsets are read and written.
--   EventQueue: src/eventq.c. The array `events` is a function, a pointer to an event is its
--     index, and the functions have the names of the source. EventQueue/Slice has
--     event_scan_long, event_run_slice and event_execute. The other children hold the invariant
--     and its proofs.
--   Intc: src/sh4/intc.c. The array `pending` is the list of its entries. Intc/Order, Delivery,
--     Signal and Mask hold the proofs.
--   Timer: the TMU of src/sh4/timer.c; Timer/Clock is the CPG and Timer/Registers the access to
--     the registers. `none` stands for a division by zero or a failed assertion.
--   Asic: src/asic.c; Asic/G2 is the status of the G2 bus, Asic/Access the registers. Asic/Frame
--     has event_asic_callback of src/eventq.c.
--   Tqueue: src/tqueue.c; Tqueue/Ring compares the ring buffer with a list, Tqueue/Threads has
--     the interleavings of a producer and the consumer.
--   Dmac: src/sh4/dmac.c, over a memory without regions.
--   Ide: src/gdrom/ide.c without the packet commands and the data.
--   VmuVolume: src/vmu/vmuvol.c without the files.
--   Scif: src/sh4/scif.c: Scif has the FIFOs, Scif/Device the exchange with the serial device,
--     Scif/Clock the ticks, Scif/Access the registers. A pointer to a function of the device is a
--     Boolean, and a call of it is recorded. The other children hold the proofs.
--   Pmm: src/sh4/pmm.c.
--   Maple: src/maple/maple.c: Maple has attaching and detaching, Maple/Packet the handling of a
--     buffer. Maple/Controller, Keyboard and Vmu are src/maple/controller.c, kbd.c and vmu.c,
--     which Maple/Devices joins to the interface Operations of the bus.
--   Mmu: the translation buffers of src/sh4/mmu.c and the lookups in them; Mmu/Translate is the
--     translation of an address, with an exception as a result, Mmu/Pages the mapping of pages,
--     and Mmu/Entries that of the entries. A pointer in a table of pages is a value of Page. The
--     other children hold the proofs.
--   Base: shared names, Boolean tests, lists over native numbers, and the digits and masks of
--     machine words.
--   Tests: example states, and each theorem applied to one.
--
-- Bounds and fuel: the walks along the lists of events run on fuel 128, MAX_EVENT_ID, which is
-- enough since the events of a list are different and below 128 (EventQueue/Invariant).
-- event_execute has its fuel as an argument, since a callback may schedule again; it returns
-- Execution, with a case for fuel that runs out and one for a callback that was never registered.
-- SCIF_run_to runs on as much fuel as nanoseconds have passed, which is enough if the period of a
-- tick is not 0 (Scif/Ticks). maple_handle_buffer takes its fuel as an argument, a round for each
-- packet of the buffer. Numbers are natural numbers with the wrap-around of uint32_t and uint64_t
-- written out; an `int` is its 32-bit pattern.
--
-- Not modelled: the instructions of the CPU and their translation, memory and caches, graphics,
-- sound, discs, and everything that talks to the host; the loading and saving of states and
-- files; the four ASIC registers that start transfers of other parts.
pub mod Asic
pub mod Base
pub mod Dmac
pub mod Tests
pub mod Timer
pub mod Tqueue
pub mod VmuVolume
pub mod Machine
pub mod Maple
pub mod Mmu
pub mod Pmm
pub mod Scif
pub mod EventQueue
pub mod Ide
pub mod Intc
