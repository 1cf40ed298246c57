-- ===== src/Maple/Card.antt =====
-- Blocks of a memory card over the Maple bus: maple/maple.c, maple/vmu.c and vmu/vmuvol.c together.
use lxdream.Base.{
  ℕ, zero, suc, ◌+◌, ◌-◌, ◌*◌, ◌^◌, ◌<◌, ◌≡◌, refl, ◌∙◌, ap, inl, inr, true, Option, some, List,
  arith, bit_or, get_or, length, sub32, Option-cases,
}
use lxdream.VmuVolume.{Bytes, VmuVolume, in_range, vmu_volume_read_block, vmu_volume_write_phase}
use lxdream.VmuVolume.Blocks.{byte_at, read-write_phase}
use lxdream.Maple.Vmu.{Vmu, func_memory, bytes_from, vmu_read_block, vmu_write_block}
use lxdream.Maple.Devices.{Device, vmu, reply, device_operations}
use lxdream.Maple.Packet.{
  Memory, Answer, get_word, put_word, copy, plain, acknowledged, with_data, execute, resp_ack,
  resp_data,
}

get_or-bytes_from : (i n j : ℕ) (b : Bytes) → j < n → get_or (bytes_from i n b) j 0 ≡ b (i + j)
unfolding bytes_from
get_or-bytes_from i zero j b h = absurd (omega arith)
get_or-bytes_from i (suc n) zero b h = ap b (omega arith)
get_or-bytes_from i (suc n) (suc j) b h =
    get_or-bytes_from (i + 1) n j b (omega arith) ∙ ap b (omega arith)

length-bytes_from : (i n : ℕ) (b : Bytes) → length (bytes_from i n b) ≡ n
unfolding bytes_from
length-bytes_from i zero b = refl
length-bytes_from i (suc n) b = omega (arith, length-bytes_from (i + 1) n b)

-- A byte that can be read stands in the block that is read.
block_of_byte :
    (pt block i x : ℕ) (vol : VmuVolume)
    → byte_at pt block i vol ≡ some x
    → (b : Bytes) × (vmu_volume_read_block pt block vol ≡ some b) × (b i ≡ x)
unfolding byte_at
block_of_byte pt block i x vol e = elim (Option-cases (vmu_volume_read_block pt block vol)) [
  | inl n ↦ ground (arith, n)
  | inr (b, y) ↦ (b, y, ground (arith, y))
]

vmu_write_block-phase :
    (pt block phase : ℕ) (input : Bytes) (v : Vmu) (vol vol' : VmuVolume)
    → v.vol ≡ some vol
    → vmu_volume_write_phase pt block phase input vol ≡ some vol'
    → vmu_write_block func_memory pt block phase input 32 v ≡ (0, record v { vol = some vol' })
unfolding vmu_write_block
vmu_write_block-phase pt block phase input v vol vol' e w = rw (e, w, vmu_write_block) refl

vmu_read_block-bytes :
    (pt block : ℕ) (b : Bytes) (v : Vmu) (vol : VmuVolume)
    → v.vol ≡ some vol
    → vmu_volume_read_block pt block vol ≡ some b
    → vmu_read_block func_memory pt block v ≡ (0, 128, bytes_from 0 512 b)
unfolding vmu_read_block
vmu_read_block-bytes pt block b v vol e r = rw (e, r, vmu_read_block) refl

-- The block that a packet at `buf` is about.
abbrev pub block_of : ℕ → Memory → ℕ
block_of buf mem = bit_or (mem (buf + 18) * 2 ^ 8) (mem (buf + 19))

abbrev pub card : ℕ → Vmu → Device
card a v = record { address = a; class = vmu v }

-- The answer to a read of a block of which `n` bytes are copied.
abbrev read_answer : ℕ → ℕ → ℕ → ℕ → Memory → Vmu → Bytes → ℕ → Answer Device
read_answer buf out recv a mem v b n = record {
  status = 8;
  recv_addr = recv;
  out_length = 130;
  memory = put_word (out + 8) (get_word mem (buf + 16)) (
      put_word (out + 4) func_memory
        (copy (out + 12) n (λ i. get_or (bytes_from 0 512 b) i 0) mem));
  device = card a v;
}

answer-byte :
    (buf out recv a j : ℕ) (mem : Memory) (v : Vmu) (b : Bytes)
    → j < 512
    → (read_answer buf out recv a mem v b 512).memory (out + 12 + j) ≡ b j
answer-byte buf out recv a j mem v b h =
    let e : out + 12 + j - (out + 12) ≡ j = omega arith in
    let copied : copy (out + 12) 512 (λ i. get_or (bytes_from 0 512 b) i 0) mem (out + 12 + j)
        ≡ get_or (bytes_from 0 512 b) (out + 12 + j - (out + 12)) 0 =
      ground arith in
    let kept : (read_answer buf out recv a mem v b 512).memory (out + 12 + j)
        ≡ copy (out + 12) 512 (λ i. get_or (bytes_from 0 512 b) i 0) mem (out + 12 + j) =
      ground arith in
    kept
    ∙ copied
    ∙ ap (λ i. get_or (bytes_from 0 512 b) i 0) e
    ∙ get_or-bytes_from 0 512 j b h
    ∙ ap b (omega arith)

module _ (load : ℕ → Option VmuVolume) where
  write_packet :
      (buf out periph recv a : ℕ) (ds : ℕ → Option Device) (mem : Memory) (v : Vmu)
      (vol vol' : VmuVolume)
      → get_word mem (buf + 12) ≡ func_memory
      → mem buf ≡ 34
      → v.vol ≡ some vol
      → vmu_volume_write_phase
          (mem (buf + 16))
          (block_of buf mem)
          (mem (buf + 17))
          (λ i. mem (buf + 20 + i))
          vol
        ≡ some vol'
      → execute (device_operations load) 12 buf out periph recv ds mem (card a v) ≡ record {
        status = 7;
        recv_addr = recv;
        out_length = 0;
        memory = mem;
        device = card a (record v { vol = some vol' });
      }
  unfolding execute acknowledged plain device_operations sub32
  write_packet buf out periph recv a ds mem v vol vol' f n e w =
      let pt = mem (buf + 16) in
      let phase = mem (buf + 17) in
      let input : Bytes = λ i. mem (buf + 20 + i) in
      let size : sub32 (mem buf) 2 ≡ 32 = omega (arith, n) in
      let call =
        ap (λ x. vmu_write_block x pt (block_of buf mem) phase input (sub32 (mem buf) 2) v) f
        ∙ ap (λ x. vmu_write_block func_memory pt (block_of buf mem) phase input x v) size
        ∙ vmu_write_block-phase pt (block_of buf mem) phase input v vol vol' e w in
      ap (λ r. acknowledged (some (r.0, card a r.1)) recv mem (card a v)) call

  read_packet :
      (buf out periph recv a : ℕ) (ds : ℕ → Option Device) (mem : Memory) (v : Vmu) (b : Bytes)
      (vol : VmuVolume)
      → get_word mem (buf + 12) ≡ func_memory
      → v.vol ≡ some vol
      → vmu_volume_read_block (mem (buf + 16)) (block_of buf mem) vol ≡ some b
      → execute (device_operations load) 11 buf out periph recv ds mem (card a v)
        ≡ read_answer buf out recv a mem v b 512
  unfolding execute with_data device_operations
  read_packet buf out periph recv a ds mem v b vol f e r =
      let pt = mem (buf + 16) in
      let call =
        ap (λ x. vmu_read_block x pt (block_of buf mem) v) f
        ∙ vmu_read_block-bytes pt (block_of buf mem) b v vol e r in
      let header : ℕ → Memory → Memory =
        λ x y. put_word (out + 8) (get_word mem (buf + 16)) (put_word (out + 4) x y) in
      let made : ℕ × ℕ × List ℕ → Answer Device = λ q.
        with_data (out + 12) 2 (header func_memory) (some (reply (card a v) q)) recv mem
          (card a v) in
      ap
        (λ x.
          with_data (out + 12) 2 (header x)
            (some
              (reply (card a v) (vmu_read_block (get_word mem (buf + 12)) pt (block_of buf mem) v)))
            recv mem (card a v))
        f
      ∙ ap made call
      ∙ ap (read_answer buf out recv a mem v b) (length-bytes_from 0 512 b)

  -- A block of a memory card exists, and a packet with the command to write one of its four phases
  -- comes in, with 32 words of data; later a packet with the command to read that block. The first
  -- is acknowledged; the second is answered with 130 words, among which stand the data of the
  -- first, byte by byte, at the place of the phase in the block.
  pub write-read :
      (buf out periph recv buf' out' i a : ℕ) (ds : ℕ → Option Device) (mem mem' : Memory) (v : Vmu)
      (vol : VmuVolume)
      → v.vol ≡ some vol
      → get_word mem (buf + 12) ≡ func_memory
      → mem buf ≡ 34
      → in_range (mem (buf + 16)) (block_of buf mem) vol ≡ true
      → mem (buf + 17) < 4
      → get_word mem' (buf' + 12) ≡ func_memory
      → mem' (buf' + 16) ≡ mem (buf + 16)
      → block_of buf' mem' ≡ block_of buf mem
      → i < 128
      → let first = execute (device_operations load) 12 buf out periph recv ds mem (card a v) in
        let second =
          execute (device_operations load) 11 buf' out' periph recv ds mem' first.device in
        (first.status ≡ resp_ack)
        × (second.status ≡ resp_data)
        × (second.out_length ≡ 130)
        × (second.memory (out' + 12 + (mem (buf + 17) * 128 + i)) ≡ mem (buf + 20 + i))
  write-read buf out periph recv buf' out' i a ds mem mem' v vol e f n ok fits f' p k h =
      let pt = mem (buf + 16) in
      let phase = mem (buf + 17) in
      let j = phase * 128 + i in
      let (vol', w, bytes, others) =
        read-write_phase pt (block_of buf mem) phase (λ x. mem (buf + 20 + x)) vol ok fits in
      let (b, r, at) =
        block_of_byte pt (block_of buf mem) j (mem (buf + 20 + i)) vol' (bytes i h) in
      let v' : Vmu = record v { vol = some vol' } in
      let r' : vmu_volume_read_block (mem' (buf' + 16)) (block_of buf' mem') vol' ≡ some b =
        ap (λ x. vmu_volume_read_block x (block_of buf' mem') vol') p
        ∙ ap (λ x. vmu_volume_read_block pt x vol') k
        ∙ r in
      let one = write_packet buf out periph recv a ds mem v vol vol' f n e w in
      let two =
        ap (λ x. execute (device_operations load) 11 buf' out' periph recv ds mem' x.device) one
        ∙ read_packet buf' out' periph recv a ds mem' v' b vol' f' refl r' in
      (
        ap (λ x. x.status) one,
        ap (λ x. x.status) two,
        ap (λ x. x.out_length) two,
        ap (λ x. x.memory (out' + 12 + j)) two
            ∙ answer-byte buf' out' recv a j mem' v' b (omega arith)
            ∙ at,
      )
