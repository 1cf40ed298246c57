-- ===== src/Maple/Attach.antt =====
-- maple_attach_device of maple/maple.c and the masks of the ports.
use lxdream.Base.{
  ℕ, zero, suc, ◌<◌, ◌≡◌, refl, sym, ◌∙◌, ap, inl, inr, Bool, false, ◌&&◌, ◌||◌, none, some, arith,
  bit_or, ◌==◌, any_set, Option-cases, subst,
}
use lxdream.Base.Masks.{any_set-bit_or_pow}
use lxdream.Maple.{
  Operations, Maple, attached, num_ports, num_periphs, set_device, maple_get_device, set_mask,
  is_some, after, notify, periph_index, periph_bit, detach_main, detach_at, attach_at,
  maple_attach_device, maple_detach_device,
}
use lxdream.Maple.Masks.{is_attached, IsPort, IsMasked, detach_sub_self}
use lxdream.Maple.Detach.{
  detach_main-stop, detach_main-none, trans-IsSame, detach_at-IsPort, detach_at-IsSame,
  join-IsMasked, IsSame,
}

module _ {D : Type 0} where
  module _ (ops : Operations D) where
    -- The port before the new device is put in.
    abbrev freed : ℕ → ℕ → Maple D → Maple D
    freed port k m = elim (m.devices port k) [ none ↦ m | some old ↦ detach_at ops port k m ]

    abbrev installed : D → ℕ → ℕ → Maple D → Maple D
    installed d port k m = notify (is_some (ops.attach d)) (attached (ops.name d)) (
        set_mask port (bit_or (m.periph_mask port) (periph_bit k))
          (record m { devices = set_device port k (some (after (ops.attach d) d)) m.devices }))

    index_eq :
        (j k : ℕ)
        → j < num_periphs
        → k < num_periphs
        → (periph_index j == periph_index k) ≡ (j == k)
    index_eq zero zero h i = refl
    index_eq zero (suc k) h i = ground arith
    index_eq (suc j) zero h i = ground arith
    index_eq (suc j) (suc k) h i = ground arith

    installed-IsPort :
        (d : D) (port k : ℕ) (m : Maple D)
        → k < num_periphs
        → IsPort port m.devices m.periph_mask
        → let m' = installed d port k m in IsPort port m'.devices m'.periph_mask
    installed-IsPort d port k m h w j i =
        let mask = m.periph_mask port in
        let e : (installed d port k m).periph_mask port ≡ bit_or mask (periph_bit k) =
          ground arith in
        let f : is_attached ((installed d port k m).devices port j)
            ≡ (is_attached (m.devices port j) || j == k) =
          ground arith in
        ap (λ a. any_set a (periph_bit j)) e
        ∙ any_set-bit_or_pow (periph_index j) (periph_index k) mask
        ∙ ap (λ b. any_set mask (periph_bit j) || b) (index_eq j k i h)
        ∙ ap (λ b. b || j == k) (w j i)
        ∙ sym f

    installed-IsSame :
        (d : D) (port k i : ℕ) (m : Maple D)
        → (i == port) ≡ false
        → IsSame ops i m (installed d port k m)
    installed-IsSame d port k i m n = record {
      device = λ j. ground (arith, n);
      mask = ground (arith, n);
    }

    freed-IsPort :
        (port k : ℕ) (m : Maple D)
        → k < num_periphs
        → IsPort port m.devices m.periph_mask
        → let m' = freed port k m in IsPort port m'.devices m'.periph_mask
    freed-IsPort port k m h w = elim (Option-cases (m.devices port k)) [
      | inl n ↦
          subst (λ x. IsPort port x.devices x.periph_mask)
            (sym (
              ap (λ o. elim o as (λ x. Maple D) [ none ↦ m | some old ↦ detach_at ops port k m ])
                n))
            w
      | inr (d, e) ↦
          subst (λ x. IsPort port x.devices x.periph_mask)
            (sym (
              ap (λ o. elim o as (λ x. Maple D) [ none ↦ m | some old ↦ detach_at ops port k m ])
                e))
            (detach_at-IsPort ops port k m h w)
    ]

    freed-IsSame :
        (port k i : ℕ) (m : Maple D) → (i == port) ≡ false → IsSame ops i m (freed port k m)
    freed-IsSame port k i m n = elim (Option-cases (m.devices port k)) [
      | inl e ↦
          subst (λ x. IsSame ops i m x)
            (sym (
              ap (λ o. elim o as (λ x. Maple D) [ none ↦ m | some old ↦ detach_at ops port k m ])
                e))
            (record { device = λ j. refl; mask = refl })
      | inr (d, e) ↦
          subst (λ x. IsSame ops i m x)
            (sym (
              ap (λ o. elim o as (λ x. Maple D) [ none ↦ m | some old ↦ detach_at ops port k m ])
                e))
            (detach_at-IsSame ops port k i m n)
    ]

    attach_at_lem :
        (d : D) (port k : ℕ) (m : Maple D)
        → attach_at ops d port k m ≡ installed d port k (freed port k m)
    unfolding attach_at
    attach_at_lem d port k m = refl

    -- If the masks tell of each port which devices it has, attaching a device to one of the four
    -- ports and six places succeeds, the device is there, and the masks are right again; also if
    -- another device was there, and if its subperipherals had to go with it.
    pub maple_attach_device-IsMasked :
        (d : D) (port k : ℕ) (m : Maple D)
        → port < num_ports
        → k < num_periphs
        → IsMasked m
        → (m' : Maple D) × (maple_attach_device ops d port k m ≡ some m')
          × IsMasked m'
          × (maple_get_device port k m' ≡ some (after (ops.attach d) d))
    unfolding maple_attach_device maple_get_device
    maple_attach_device-IsMasked d port k m h i w =
        let a = freed port k m in
        let p = installed-IsPort d port k a i (freed-IsPort port k m i (w port h)) in
        (
          installed d port k a,
          ground (arith, attach_at_lem d port k m),
          join-IsMasked ops port m (installed d port k a) w p (λ j n.
              trans-IsSame ops j m a (installed d port k a) (freed-IsSame port k j m n)
                (installed-IsSame d port k j a n)),
          ground arith,
        )

    detach_at-gone : (port k : ℕ) (m : Maple D) → (detach_at ops port k m).devices port k ≡ none
    detach_at-gone port zero m = elim (Option-cases (m.devices port 0)) [
      | inl n ↦ ap (λ x. x.devices port 0) (detach_main-stop ops port m n) ∙ n
      | inr (d, e) ↦ detach_main-none ops port 0 d m e (omega arith)
    ]
    detach_at-gone port (suc k) m = detach_sub_self ops port (suc k) m

    abbrev pub any_device : ℕ → ℕ → Maple D → Bool
    any_device port zero m = false
    any_device port (suc n) m = is_attached (m.devices port n) || any_device port n m

    no_device :
        (port n : ℕ) (m : Maple D)
        → ((j : ℕ) → j < n → m.devices port j ≡ none)
        → any_device port n m ≡ false
    no_device port zero m f = refl
    no_device port (suc n) m f =
        let e : is_attached (m.devices port n) ≡ false = ap is_attached (f n (omega arith)) in
        rw e (no_device port n m (λ j h. f j (omega arith)))

    detach_at-empties :
        (port k : ℕ) (m : Maple D)
        → (k == 0
            && is_attached (m.devices port 0)
            && any_device port num_periphs (detach_at ops port k m))
          ≡ false
    detach_at-empties port (suc k) m = ground arith
    detach_at-empties port zero m = elim (Option-cases (m.devices port 0)) [
      | inl n ↦ rw n refl
      | inr (d, e) ↦ rw e (
          no_device port num_periphs (detach_main ops port m)
            (λ j h. detach_main-none ops port j d m e h))
    ]

    -- If the masks tell of each port which devices it has, detaching a device from one of the four
    -- ports and six places succeeds, nothing is there any more, and the masks are right again; also
    -- if nothing was there. If a main device goes, its port has no device left at all.
    pub maple_detach_device-IsMasked :
        (port k : ℕ) (m : Maple D)
        → port < num_ports
        → k < num_periphs
        → IsMasked m
        → (m' : Maple D) × (maple_detach_device ops port k m ≡ some m')
          × IsMasked m'
          × (maple_get_device port k m' ≡ none)
          × ((k == 0 && is_attached (m.devices port 0) && any_device port num_periphs m') ≡ false)
    unfolding maple_detach_device maple_get_device
    maple_detach_device-IsMasked port k m h i w =
        let m' = detach_at ops port k m in
        (
          m',
          ground arith,
          join-IsMasked ops port m m' w (detach_at-IsPort ops port k m i (w port h))
              (λ j n. detach_at-IsSame ops port k j m n),
          ground (arith, detach_at-gone port k m),
          detach_at-empties port k m,
        )
