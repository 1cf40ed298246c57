-- ===== src/Scif/Blocks.antt =====
-- The blocks of data from the serial device, sh4/scif.c, as one sequence of bytes.
use lxdream.Base.{
  ℕ, zero, suc, ◌+◌, ◌≤◌, ◌<◌, ◌≡◌, refl, sym, subst, ◌∙◌, ap, inl, inr, Option, none, some, List,
  [], ◌∷◌, ◌++◌, arith, leb, if◌then◌else◌, length, get_or, drop, append_assoc, append-nil,
  Bool-cases,
}
use lxdream.Scif.{SerialBlock, Scif}
use lxdream.Scif.Device.{serial_transmit_data, serial_transmit_dequeue}
use lxdream.Scif.SendQueue.{take_spec}

-- Each block has a byte left.
abbrev pub IsWaiting : List SerialBlock → Type 0
IsWaiting [] = Unit
IsWaiting (b ∷ bs) = (b.offset < length b.bytes) × IsWaiting bs

-- The bytes that have not been taken, the next one first.
unfoldable pub waiting : List SerialBlock → List ℕ
waiting [] = []
waiting (b ∷ bs) = drop b.offset b.bytes ++ waiting bs

waiting-append : (bs cs : List SerialBlock) → waiting (bs ++ cs) ≡ waiting bs ++ waiting cs
unfolding waiting
waiting-append [] cs = refl
waiting-append (b ∷ bs) cs =
    ap (λ xs. drop b.offset b.bytes ++ xs) (waiting-append bs cs)
    ∙ sym (append_assoc (drop b.offset b.bytes) (waiting bs) (waiting cs))

append-IsWaiting : (bs cs : List SerialBlock) → IsWaiting bs → IsWaiting cs → IsWaiting (bs ++ cs)
append-IsWaiting [] cs v w = w
append-IsWaiting (b ∷ bs) cs (l, v) w = (l, append-IsWaiting bs cs v w)

drop-suc : (n : ℕ) (xs : List ℕ) → n < length xs → drop n xs ≡ get_or xs n 0 ∷ drop (suc n) xs
unfolding drop
drop-suc n [] l = ground arith
drop-suc zero (x ∷ xs) l = refl
drop-suc (suc n) (x ∷ xs) l = drop-suc n xs (omega arith)

drop-next : (n : ℕ) (xs : List ℕ) → n < length xs → drop n xs ≡ get_or xs n 0 ∷ drop (n + 1) xs
drop-next n xs l = drop-suc n xs l ∙ ap (λ k. get_or xs n 0 ∷ drop k xs) (omega arith)

drop-all : (n : ℕ) (xs : List ℕ) → length xs ≤ n → drop n xs ≡ []
unfolding drop
drop-all zero [] l = refl
drop-all (suc n) [] l = refl
drop-all zero (x ∷ xs) l = ground arith
drop-all (suc n) (x ∷ xs) l = drop-all n xs (omega arith)

stored :
    (x : ℕ) (xs : List ℕ) (s : Scif)
    → (serial_transmit_data (x ∷ xs) s).recv_blocks
      ≡ s.recv_blocks ++ (record { offset = 0; bytes = x ∷ xs } ∷ [])
unfolding serial_transmit_data
stored x xs s = ground arith

-- While each block has a byte left, data of the device goes behind the bytes that wait, and if it
-- is empty nothing changes; and each block has a byte left again.
pub serial_transmit_data-appends :
    (xs : List ℕ) (s : Scif)
    → IsWaiting s.recv_blocks
    → IsWaiting (serial_transmit_data xs s).recv_blocks
      × (waiting (serial_transmit_data xs s).recv_blocks ≡ waiting s.recv_blocks ++ xs)
unfolding serial_transmit_data waiting drop
serial_transmit_data-appends [] s w = (w, sym (append-nil (waiting s.recv_blocks)))
serial_transmit_data-appends (x ∷ xs) s w =
    let b : SerialBlock = record { offset = 0; bytes = x ∷ xs } in
    (
      subst IsWaiting (sym (stored x xs s))
          (append-IsWaiting s.recv_blocks (b ∷ []) w (omega arith, tt)),
      ap waiting (stored x xs s)
          ∙ waiting-append s.recv_blocks (b ∷ [])
          ∙ ap (λ ys. waiting s.recv_blocks ++ ys) (append-nil (x ∷ xs)),
    )

abbrev pub taken : List SerialBlock → List SerialBlock
taken [] = []
taken (b ∷ bs) =
    if leb (length b.bytes) (b.offset + 1) then bs else record b { offset = b.offset + 1 } ∷ bs

taken-IsWaiting : (bs : List SerialBlock) → IsWaiting bs → IsWaiting (taken bs)
taken-IsWaiting [] w = tt
taken-IsWaiting (b ∷ bs) (l, w) = elim (Bool-cases (leb (length b.bytes) (b.offset + 1))) [
  | inl y ↦ rw y w
  | inr n ↦ rw n (ground arith, w)
]

taken-waiting :
    (b : SerialBlock) (bs : List SerialBlock)
    → b.offset < length b.bytes
    → waiting (b ∷ bs) ≡ get_or b.bytes b.offset 0 ∷ waiting (taken (b ∷ bs))
unfolding waiting
taken-waiting b bs l = elim (Bool-cases (leb (length b.bytes) (b.offset + 1))) [
  | inl y ↦
      let e = drop-next b.offset b.bytes l in
      let z = drop-all (b.offset + 1) b.bytes (ground arith) in rw (y, e, z) refl
  | inr n ↦ let e = drop-next b.offset b.bytes l in rw (n, e) refl
]

abbrev first : List SerialBlock → Option ℕ
first [] = none
first (b ∷ bs) = some (get_or b.bytes b.offset 0)

dequeue-blocks : (s : Scif) → (serial_transmit_dequeue s).1.recv_blocks ≡ taken s.recv_blocks
unfolding serial_transmit_dequeue
dequeue-blocks s = ground arith

dequeue-byte : (s : Scif) → (serial_transmit_dequeue s).0 ≡ first s.recv_blocks
unfolding serial_transmit_dequeue
dequeue-byte s = ground arith

first-taken :
    (bs : List SerialBlock)
    → IsWaiting bs
    → (first bs ≡ (take_spec (waiting bs)).0) × (waiting (taken bs) ≡ (take_spec (waiting bs)).1)
unfolding take_spec waiting
first-taken [] w = (refl, refl)
first-taken (b ∷ bs) (l, w) =
    let e : waiting (b ∷ bs) ≡ get_or b.bytes b.offset 0 ∷ waiting (taken (b ∷ bs)) =
      taken-waiting b bs l in
    (ap (λ xs. (take_spec xs).0) (sym e), ap (λ xs. (take_spec xs).1) (sym e))

-- While each block has a byte left, `serial_transmit_dequeue` takes the bytes of the device in the
-- order in which they came, across the blocks, and answers -1 only if none is left; and each block
-- has a byte left again.
pub serial_transmit_dequeue-refines :
    (s : Scif)
    → IsWaiting s.recv_blocks
    → let (byte, s') = serial_transmit_dequeue s in
      IsWaiting s'.recv_blocks
      × (byte ≡ (take_spec (waiting s.recv_blocks)).0)
      × (waiting s'.recv_blocks ≡ (take_spec (waiting s.recv_blocks)).1)
serial_transmit_dequeue-refines s w =
    let (byte, rest) = first-taken s.recv_blocks w in
    (
      subst IsWaiting (sym (dequeue-blocks s)) (taken-IsWaiting s.recv_blocks w),
      dequeue-byte s ∙ byte,
      ap waiting (dequeue-blocks s) ∙ rest,
    )
