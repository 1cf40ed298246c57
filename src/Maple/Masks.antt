-- ===== src/Maple/Masks.antt =====
-- The masks of the Maple bus, maple/maple.c: which devices a port has.
use lxdream.Base.{
  ℕ, zero, suc, ◌-◌, ◌^◌, ◌<◌, ◌≡◌, ◌≢◌, refl, sym, ◌∙◌, ap, inl, inr, Bool, true, false, ◌&&◌,
  Option, none, some, arith, bit_and, ◌==◌, if◌then◌else◌, any_set, Bool-cases,
}
use lxdream.Base.Masks.{any_set-cleared, any_set-cleared_other, zero-bit_and}
use lxdream.Maple.{Operations, Maple, num_ports, num_periphs, periph_index, periph_bit, detach_sub}

module _ {D : Type 0} where
  abbrev pub is_attached : Option D → Bool
  is_attached none = false
  is_attached (some d) = true

  -- The mask of the port has the bits of the devices that are attached.
  abbrev pub IsPort : ℕ → (ℕ → ℕ → Option D) → (ℕ → ℕ) → Type 0
  IsPort port devices masks =
      (j : ℕ) → j < num_periphs → any_set (masks port) (periph_bit j) ≡ is_attached (devices port j)

  abbrev pub IsMasked : Maple D → Type 0
  IsMasked m = (port : ℕ) → port < num_ports → IsPort port m.devices m.periph_mask

  module _ (ops : Operations D) where
    pub detach_sub_self :
        (port k : ℕ) (m : Maple D) → (detach_sub ops port k m).devices port k ≡ none
    unfolding detach_sub
    detach_sub_self port k m = ground arith

    pub detach_sub-elsewhere :
        (port k i j : ℕ) (m : Maple D)
        → (i == port && j == k) ≡ false
        → (detach_sub ops port k m).devices i j ≡ m.devices i j
    unfolding detach_sub
    detach_sub-elsewhere port k i j m n = ground arith

    pub detach_sub-none :
        (port k i j : ℕ) (m : Maple D)
        → m.devices i j ≡ none
        → (detach_sub ops port k m).devices i j ≡ none
    unfolding detach_sub
    detach_sub-none port k i j m n = ground arith

    detach_sub-mask :
        (port k : ℕ) (m : Maple D)
        → (detach_sub ops port (suc k) m).periph_mask port ≡ (
            if is_attached (m.devices port (suc k))
            then bit_and (m.periph_mask port) (0xffff_ffff - 2 ^ k)
            else m.periph_mask port)
    unfolding detach_sub
    detach_sub-mask port k m = ground arith

    pub detach_sub-mask_zero :
        (port k : ℕ) (m : Maple D)
        → m.periph_mask port ≡ 0
        → (detach_sub ops port k m).periph_mask port ≡ 0
    unfolding detach_sub
    detach_sub-mask_zero port k m z = ground (arith, zero-bit_and (0xffff_ffff - periph_bit k))

    pub detach_sub-mask_elsewhere :
        (port k i : ℕ) (m : Maple D)
        → (i == port) ≡ false
        → (detach_sub ops port k m).periph_mask i ≡ m.periph_mask i
    unfolding detach_sub
    detach_sub-mask_elsewhere port k i m n = ground arith

    index-lt : (j : ℕ) → j < num_periphs → periph_index j < 32
    index-lt zero h = omega arith
    index-lt (suc j) h = omega arith

    index-ne : (j k : ℕ) → j < num_periphs → k < 5 → (j == suc k) ≡ false → k ≢ periph_index j
    index-ne zero k h i n = λ e. absurd (omega (arith, i, e))
    index-ne (suc j) k h i n = λ e. absurd (ground (arith, n, e))

    cleared-bit :
        (mask k j : ℕ)
        → k < 5
        → j < num_periphs
        → any_set (bit_and mask (0xffff_ffff - 2 ^ k)) (periph_bit j)
          ≡ (if j == suc k then false else any_set mask (periph_bit j))
    cleared-bit mask k j h i = elim (Bool-cases (j == suc k)) [
      | inl y ↦
          let x : j ≡ suc k = ground arith in
          let e : any_set (bit_and mask (0xffff_ffff - 2 ^ k)) (periph_bit j) ≡ false =
            ap (λ a. any_set (bit_and mask (0xffff_ffff - 2 ^ k)) (periph_bit a)) x
            ∙ any_set-cleared k mask (omega arith) in
          rw y e
      | inr n ↦
          let e =
            any_set-cleared_other k (periph_index j) mask (omega arith) (index-lt j i)
              (index-ne j k i h n) in
          rw n e
    ]

    kept-bit :
        (mask k j : ℕ)
        → any_set mask (2 ^ k) ≡ false
        → any_set mask (periph_bit j) ≡ (if j == suc k then false else any_set mask (periph_bit j))
    kept-bit mask k j z = elim (Bool-cases (j == suc k)) [
      | inl y ↦
          let x : j ≡ suc k = ground arith in
          let e : any_set mask (periph_bit j) ≡ false =
            ap (λ a. any_set mask (periph_bit a)) x ∙ z in
          rw y e
      | inr n ↦ rw n refl
    ]

    detach_sub-bit :
        (port k j : ℕ) (m : Maple D)
        → k < 5
        → j < num_periphs
        → IsPort port m.devices m.periph_mask
        → any_set ((detach_sub ops port (suc k) m).periph_mask port) (periph_bit j)
          ≡ (if j == suc k then false else any_set (m.periph_mask port) (periph_bit j))
    detach_sub-bit port k j m h i w =
        let mask = m.periph_mask port in
        let cleared = bit_and mask (0xffff_ffff - 2 ^ k) in
        let mask' = (detach_sub ops port (suc k) m).periph_mask port in
        elim (Bool-cases (is_attached (m.devices port (suc k)))) [
          | inl y ↦
              let e : mask' ≡ cleared =
                detach_sub-mask port k m ∙ ap (λ b. if b then cleared else mask) y in
              ap (λ x. any_set x (periph_bit j)) e ∙ cleared-bit mask k j h i
          | inr n ↦
              let e : mask' ≡ mask =
                detach_sub-mask port k m ∙ ap (λ b. if b then cleared else mask) n in
              ap (λ x. any_set x (periph_bit j)) e ∙ kept-bit mask k j (w (suc k) (omega arith) ∙ n)
        ]

    detach_sub-attached :
        (port k j : ℕ) (m : Maple D)
        → is_attached ((detach_sub ops port k m).devices port j)
          ≡ (if j == k then false else is_attached (m.devices port j))
    unfolding detach_sub
    detach_sub-attached port k j m = ground arith

    pub detach_sub-IsPort :
        (port k : ℕ) (m : Maple D)
        → k < 5
        → IsPort port m.devices m.periph_mask
        → let m' = detach_sub ops port (suc k) m in IsPort port m'.devices m'.periph_mask
    detach_sub-IsPort port k m h w j i =
        detach_sub-bit port k j m h i w
        ∙ ap (λ b. if j == suc k then false else b) (w j i)
        ∙ sym (detach_sub-attached port (suc k) j m)
