-- ===== src/Tests/DeviceRuns.antt =====
-- The theorems on tqueue.c, sh4/dmac.c, gdrom/ide.c and vmu/vmuvol.c at example states.
use lxdream.Base.{ℕ, ◌<◌, ◌≡◌, refl, true, false, ◌&&◌, ◌==◌, some, arith}
use lxdream.Tqueue.{TqueueEntry, Tqueue, tqueue_enqueue, tqueue_take}
use lxdream.Tqueue.Ring.{
  contents, IsSame, IsTaken, enqueue_spec, take_spec, tqueue_enqueue-refines, tqueue_take-refines,
}
use lxdream.Tqueue.Threads.{
  System, Consumer, waiting_room, woken, waiting, Step, take, Reachable, here, there, after_post,
  woken-enqueues,
}
use lxdream.Dmac.{dmac_get_buffer}
use lxdream.Dmac.Transfer.{IsTransfer, dmac_get_buffer-IsTransfer}
use lxdream.Ide.{IdeRegisters, Drive, idle, inactive, ide_write_command}
use lxdream.Asic.{word_offset, event_bit}
use lxdream.Ide.Interrupt.{IsWired, ide_write_command-IsWired}
use lxdream.VmuVolume.{VmuVolume, default_metadata, vmu_block_size, vmu_volume_write_block}
use lxdream.VmuVolume.{get16, fat_entry, format_blocks}
use lxdream.VmuVolume.Format.{format_blocks-fat}
use lxdream.VmuVolume.Blocks.{byte_at, read-write_block}
use lxdream.Tests.{machine}
use lxdream.Tests.AsicRuns.{machine-IsRouted}

abbrev entry : TqueueEntry
entry = record { callback = 1; argument = 2; synchronous = true }

-- A full queue, which wraps around.
abbrev full : Tqueue
full = record { head = 7; tail = 6; last_result = 0; tqueue = λ i. entry }

abbrev half : Tqueue
half = record { head = 62; tail = 2; last_result = 0; tqueue = λ i. entry }

tqueue_enqueue-refines_example :
    IsSame (tqueue_enqueue entry half) (enqueue_spec entry (contents half))
tqueue_enqueue-refines_example =
    tqueue_enqueue-refines entry half (record { head_fits = omega arith; tail_fits = omega arith })

tqueue_take-refines_example : IsTaken (tqueue_take half) (take_spec (contents half))
tqueue_take-refines_example =
    tqueue_take-refines half (record { head_fits = omega arith; tail_fits = omega arith })

-- A producer waits for room; the consumer takes a message and signals it.
abbrev blocked : System
blocked = record { queue = full; producer = waiting_room entry; consumer = waiting }

abbrev signalled : System
signalled = record {
  queue = record full { head = 8 };
  producer = woken entry;
  consumer = Consumer.calling entry;
}

abbrev result : TqueueEntry → ℕ
result e = 5

signalled-Reachable : Reachable result blocked signalled
unfolding tqueue_take
signalled-Reachable = there here (take blocked entry true (record full { head = 8 }) refl refl)

woken-enqueues_example :
    (q : Tqueue) × (tqueue_enqueue entry (record full { head = 8 }) ≡ some q)
    × Step result signalled (record signalled { queue = q; producer = after_post entry })
woken-enqueues_example =
    woken-enqueues result blocked signalled entry
      (record { ring = record { head_fits = omega arith; tail_fits = omega arith }; room = refl })
      signalled-Reachable refl

abbrev memory : ℕ → ℕ
memory a = a

dmac_get_buffer-IsTransfer_example :
    (run : ℕ) × IsTransfer memory 2 100 machine run (dmac_get_buffer memory 2 100 machine)
dmac_get_buffer-IsTransfer_example =
    dmac_get_buffer-IsTransfer memory 2 100 machine (ground arith) (omega arith) (omega arith)
      (omega arith)

abbrev registers : IdeRegisters
registers = record {
  status = 0;
  control = 2;
  error = 0;
  feature = 0;
  count = 0;
  disc = 0;
  lba0 = 0;
  lba1 = 0;
  lba2 = 0;
  device = 0;
  command = 0;
  intrq_pending = 1;
  interface_enabled = true;
  was_reset = true;
  state = idle;
  last_packet_command = 0;
  gdrom_sense = λ i. 0;
  gdrom_mode = λ i. 0;
  data_offset = inactive;
  data_length = inactive;
  last_read_track = 1;
  current_lba = 150;
  current_mode = 0x28;
  sectors_left = 0;
}

-- The drive has an interrupt pending, which is not enabled.
abbrev drive : Drive
drive = record { ide = registers; machine = machine }

drive-IsWired : IsWired drive
unfolding word_offset event_bit
drive-IsWired = record { routed = machine-IsRouted; line = refl }

ide_write_command-IsWired_example : IsWired (ide_write_command 0xef drive)
ide_write_command-IsWired_example = ide_write_command-IsWired 0xef drive drive-IsWired

abbrev volume : VmuVolume
volume = record {
  part_count = 1;
  dirty = false;
  part = λ p. record { metadata = default_metadata; block_count = 256; blocks = λ i. 0 };
}

read-write_block_example :
    (vol' : VmuVolume) × (vmu_volume_write_block 0 3 memory volume ≡ some vol')
    × ((i : ℕ) → i < vmu_block_size → byte_at 0 3 i vol' ≡ some i)
    × ((q b i : ℕ)
        → (q == 0 && b == 3) ≡ false
        → i < vmu_block_size
        → byte_at q b i vol' ≡ byte_at q b i volume)
read-write_block_example = read-write_block 0 3 memory volume (ground arith)

format_blocks-fat_example :
    get16 (fat_entry 254 250) (format_blocks default_metadata 256 true memory) ≡ 249
format_blocks-fat_example =
    format_blocks-fat default_metadata 256 250 true memory
      (record {
        one_block = refl;
        table = omega arith;
        directory = omega arith;
        room = (omega arith, omega arith);
      })
      (omega arith)
