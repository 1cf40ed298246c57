-- ===== src/Maple/Detach.antt =====
-- maple_detach_device of maple/maple.c and the masks of the ports.
use lxdream.Base.{
  ℕ, zero, suc, ◌≤◌, ◌<◌, ◌≡◌, refl, sym, ◌∙◌, ap, inl, inr, false, none, some, arith, ◌==◌,
  any_set, Option-cases, subst,
}
use lxdream.Base.Masks.{any_set-none}
use native.Mathlib.Decide.{ℕ_discrete}
use lxdream.Maple.{
  Operations, Maple, num_periphs, set_device, set_mask, periph_index, periph_bit, release,
  detach_sub, detach_subs, detach_main, detach_at,
}
use lxdream.Maple.Masks.{
  is_attached, IsPort, IsMasked, detach_sub_self, detach_sub-elsewhere, detach_sub-none,
  detach_sub-mask_zero, detach_sub-mask_elsewhere, detach_sub-IsPort,
}

module _ {D : Type 0} where
  module _ (ops : Operations D) where
    -- A port without devices and with the mask 0.
    record IsBare (port : ℕ) (m : Maple D) : Type 0 where
      pub mask : m.periph_mask port ≡ 0
      pub main : m.devices port 0 ≡ none

    detach_sub-IsBare :
        (port k : ℕ) (m : Maple D) → IsBare port m → IsBare port (detach_sub ops port k m)
    detach_sub-IsBare port k m b = record {
      mask = detach_sub-mask_zero ops port k m b.mask;
      main = detach_sub-none ops port k port 0 m b.main;
    }

    detach_subs-IsBare :
        (port n : ℕ) (m : Maple D) → IsBare port m → IsBare port (detach_subs ops port n m)
    unfolding detach_subs
    detach_subs-IsBare port zero m b = b
    detach_subs-IsBare port (suc n) m b =
        detach_sub-IsBare port (suc n) (detach_subs ops port n m) (detach_subs-IsBare port n m b)

    detach_subs-none :
        (port n j : ℕ) (m : Maple D)
        → j ≤ n
        → m.devices port 0 ≡ none
        → (detach_subs ops port n m).devices port j ≡ none
    unfolding detach_subs
    detach_subs-none port zero j m h b = ap (λ i. m.devices port i) (omega arith) ∙ b
    detach_subs-none port (suc n) j m h b = elim (ℕ_discrete j (suc n)) [
      | yes e ↦ rw e (detach_sub_self ops port (suc n) (detach_subs ops port n m))
      | no d ↦
          detach_sub-none ops port (suc n) port j (detach_subs ops port n m)
            (detach_subs-none port n j m (omega arith) b)
    ]

    -- What `detach_main` makes of the port before it turns to the subperipherals.
    abbrev emptied : ℕ → D → Maple D → Maple D
    emptied port d m =
        set_mask port 0 (release ops d (record m { devices = set_device port 0 none m.devices }))

    emptied-IsBare : (port : ℕ) (d : D) (m : Maple D) → IsBare port (emptied port d m)
    emptied-IsBare port d m = record { mask = ground arith; main = ground arith }

    detach_main-step :
        (port : ℕ) (d : D) (m : Maple D)
        → m.devices port 0 ≡ some d
        → detach_main ops port m ≡ detach_subs ops port 5 (emptied port d m)
    unfolding detach_main
    detach_main-step port d m e = rw (e, detach_main) refl

    pub detach_main-stop :
        (port : ℕ) (m : Maple D) → m.devices port 0 ≡ none → detach_main ops port m ≡ m
    unfolding detach_main
    detach_main-stop port m e = rw (e, detach_main) refl

    pub detach_main-none :
        (port j : ℕ) (d : D) (m : Maple D)
        → m.devices port 0 ≡ some d
        → j < num_periphs
        → (detach_main ops port m).devices port j ≡ none
    detach_main-none port j d m e h =
        ap (λ x. x.devices port j) (detach_main-step port d m e)
        ∙ detach_subs-none port 5 j (emptied port d m) (omega arith) (emptied-IsBare port d m).main

    detach_main-IsPort :
        (port : ℕ) (m : Maple D)
        → IsPort port m.devices m.periph_mask
        → let m' = detach_main ops port m in IsPort port m'.devices m'.periph_mask
    detach_main-IsPort port m w j h = elim (Option-cases (m.devices port 0)) [
      | inl n ↦
          subst (λ x. any_set (x.periph_mask port) (periph_bit j) ≡ is_attached (x.devices port j))
            (sym (detach_main-stop port m n)) (w j h)
      | inr (d, e) ↦
          ap (λ x. any_set (x.periph_mask port) (periph_bit j)) (detach_main-step port d m e)
          ∙ ap (λ x. any_set x (periph_bit j))
              (detach_subs-IsBare port 5 (emptied port d m) (emptied-IsBare port d m)).mask
          ∙ any_set-none (periph_index j)
          ∙ ap is_attached (sym (detach_main-none port j d m e h))
    ]

    -- The device and the mask of a port are as before.
    pub record IsSame (i : ℕ) (m m' : Maple D) : Type 0 where
      pub device : (j : ℕ) → m'.devices i j ≡ m.devices i j
      pub mask : m'.periph_mask i ≡ m.periph_mask i

    pub trans-IsSame : (i : ℕ) (a b c : Maple D) → IsSame i a b → IsSame i b c → IsSame i a c
    trans-IsSame i a b c x y = record {
      device = λ j. y.device j ∙ x.device j;
      mask = y.mask ∙ x.mask;
    }

    same-IsPort :
        (i : ℕ) (m m' : Maple D)
        → IsSame i m m'
        → IsPort i m.devices m.periph_mask
        → IsPort i m'.devices m'.periph_mask
    same-IsPort i m m' x w j h =
        ap (λ a. any_set a (periph_bit j)) x.mask ∙ w j h ∙ ap is_attached (sym (x.device j))

    detach_sub-IsSame :
        (port k i : ℕ) (m : Maple D) → (i == port) ≡ false → IsSame i m (detach_sub ops port k m)
    detach_sub-IsSame port k i m n = record {
      device = λ j. detach_sub-elsewhere ops port k i j m (ground (arith, n));
      mask = detach_sub-mask_elsewhere ops port k i m n;
    }

    detach_subs-IsSame :
        (port n i : ℕ) (m : Maple D) → (i == port) ≡ false → IsSame i m (detach_subs ops port n m)
    unfolding detach_subs
    detach_subs-IsSame port zero i m d = record { device = λ j. refl; mask = refl }
    detach_subs-IsSame port (suc n) i m d =
        trans-IsSame i m (detach_subs ops port n m) (detach_subs ops port (suc n) m)
          (detach_subs-IsSame port n i m d)
          (detach_sub-IsSame port (suc n) i (detach_subs ops port n m) d)

    emptied-IsSame :
        (port i : ℕ) (d : D) (m : Maple D) → (i == port) ≡ false → IsSame i m (emptied port d m)
    emptied-IsSame port i d m n = record {
      device = λ j. ground (arith, n);
      mask = ground (arith, n);
    }

    detach_main-IsSame :
        (port i : ℕ) (m : Maple D) → (i == port) ≡ false → IsSame i m (detach_main ops port m)
    detach_main-IsSame port i m n = elim (Option-cases (m.devices port 0)) [
      | inl e ↦
          subst (λ x. IsSame i m x) (sym (detach_main-stop port m e))
            (record { device = λ j. refl; mask = refl })
      | inr (d, e) ↦
          subst (λ x. IsSame i m x) (sym (detach_main-step port d m e))
            (trans-IsSame i m (emptied port d m) (detach_subs ops port 5 (emptied port d m))
              (emptied-IsSame port i d m n) (detach_subs-IsSame port 5 i (emptied port d m) n))
    ]

    pub detach_at-IsPort :
        (port k : ℕ) (m : Maple D)
        → k < num_periphs
        → IsPort port m.devices m.periph_mask
        → let m' = detach_at ops port k m in IsPort port m'.devices m'.periph_mask
    detach_at-IsPort port zero m h w = detach_main-IsPort port m w
    detach_at-IsPort port (suc k) m h w = detach_sub-IsPort ops port k m (omega arith) w

    pub detach_at-IsSame :
        (port k i : ℕ) (m : Maple D) → (i == port) ≡ false → IsSame i m (detach_at ops port k m)
    detach_at-IsSame port zero i m n = detach_main-IsSame port i m n
    detach_at-IsSame port (suc k) i m n = detach_sub-IsSame port (suc k) i m n

    -- A port and its neighbours make up the invariant.
    pub join-IsMasked :
        (port : ℕ) (m m' : Maple D)
        → IsMasked m
        → IsPort port m'.devices m'.periph_mask
        → ((i : ℕ) → (i == port) ≡ false → IsSame i m m')
        → IsMasked m'
    join-IsMasked port m m' w p same i h = elim (ℕ_discrete i port) [
      | yes e ↦ rw e p
      | no d ↦ same-IsPort i m m' (same i (ground (arith, d))) (w i h)
    ]
