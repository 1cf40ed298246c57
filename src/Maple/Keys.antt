-- ===== src/Maple/Keys.antt =====
-- The array of the keyboard, maple/kbd.c, as the list of the keys that are down.
use lxdream.Base.{
  ℕ, zero, suc, ◌+◌, ◌-◌, ◌≡◌, ◌/◌, ◌%◌, ◌^◌, refl, sym, ◌∙◌, ap, inl, inr, Bool, true, false, List,
  [], ◌∷◌, ◌++◌, arith, ◌==◌, if◌then◌else◌, Bool-cases, has, erase,
}
use lxdream.Maple.Keyboard.{Keyboard, key_down, key_up, keyboard_input_hook}

-- The keys in the order in which they were pressed, and `n` bytes of 0 behind them.
unfoldable pub padded : ℕ → List ℕ → List ℕ
padded zero [] = []
padded (suc n) [] = 0 ∷ padded n []
padded n (k ∷ ks) = k ∷ padded n ks

-- Pressing a key when there is room for `n` keys more.
unfoldable pub press : ℕ → ℕ → List ℕ → List ℕ
press key n ks =
    if has key ks
    then padded n ks
    else if n == 0
    then padded n ks
    else padded (n - 1) (ks ++ (key ∷ []))

unfoldable pub release_key : ℕ → ℕ → List ℕ → List ℕ
release_key key n ks = if has key ks then padded (n + 1) (erase key ks) else padded n ks

press-cons :
    (key n x : ℕ) (ks : List ℕ) → (key == x) ≡ false → press key n (x ∷ ks) ≡ x ∷ press key n ks
unfolding press padded
press-cons key n x ks d = ground (arith, d)

press-same :
    (key n x : ℕ) (ks : List ℕ) → (key == x) ≡ true → press key n (x ∷ ks) ≡ x ∷ padded n ks
unfolding press padded
press-same key n x ks d = ground (arith, d)

press-full : (key : ℕ) → press key 0 [] ≡ []
unfolding press padded
press-full key = refl

press-first : (key n : ℕ) → press key (suc n) [] ≡ key ∷ padded n []
unfolding press padded
press-first key n =
    let e : suc n - 1 ≡ n = omega arith in
    let d : (suc n == 0) ≡ false = ground arith in rw (d, e, press) refl

key_down-padded :
    (key n : ℕ) (ks : List ℕ)
    → (key == 0) ≡ false
    → has 0 ks ≡ false
    → key_down key (padded n ks) ≡ press key n ks
unfolding key_down padded
key_down-padded key zero [] k z = sym (press-full key)
key_down-padded key (suc n) [] k z = ground (arith, k, press-first key n)
key_down-padded key n (x ∷ ks) k z = elim (Bool-cases (key == x)) [
  | inl y ↦ let e : (x == key) ≡ true = ground (arith, y) in rw (e, press-same key n x ks y) refl
  | inr d ↦
      let e : (x == key) ≡ false = ground (arith, d) in
      let nonzero : (x == 0) ≡ false = ground (arith, z) in
      let rest : has 0 ks ≡ false = ground (arith, z) in
      rw (e, nonzero, press-cons key n x ks d) (ap (λ xs. x ∷ xs) (key_down-padded key n ks k rest))
]

pad-more : (n : ℕ) (ks : List ℕ) → padded n ks ++ (0 ∷ []) ≡ padded (suc n) ks
unfolding padded
pad-more zero [] = refl
pad-more (suc n) [] = ap (λ xs. 0 ∷ xs) (pad-more n [])
pad-more zero (x ∷ ks) = ap (λ xs. x ∷ xs) (pad-more zero ks)
pad-more (suc n) (x ∷ ks) = ap (λ xs. x ∷ xs) (pad-more (suc n) ks)

up-zeros : (key n : ℕ) → (key == 0) ≡ false → key_up key (padded n []) ≡ padded n []
unfolding key_up padded
up-zeros key zero k = refl
up-zeros key (suc n) k =
    let e : (0 == key) ≡ false = ground (arith, k) in rw e (ap (λ xs. 0 ∷ xs) (up-zeros key n k))

release-cons :
    (key n x : ℕ) (ks : List ℕ)
    → (key == x) ≡ false
    → release_key key n (x ∷ ks) ≡ x ∷ release_key key n ks
unfolding release_key padded erase
release-cons key n x ks d = ground (arith, d)

release-same :
    (key n x : ℕ) (ks : List ℕ) → (key == x) ≡ true → release_key key n (x ∷ ks) ≡ padded (suc n) ks
unfolding release_key erase
release-same key n x ks y = let e : n + 1 ≡ suc n = omega arith in rw (y, e, release_key) refl

release-none : (key n : ℕ) → release_key key n [] ≡ padded n []
unfolding release_key
release-none key n = refl

key_up-padded :
    (key n : ℕ) (ks : List ℕ) → (key == 0) ≡ false → key_up key (padded n ks) ≡ release_key key n ks
unfolding key_up padded
key_up-padded key zero [] k = up-zeros key 0 k ∙ sym (release-none key 0)
key_up-padded key (suc n) [] k = up-zeros key (suc n) k ∙ sym (release-none key (suc n))
key_up-padded key n (x ∷ ks) k = elim (Bool-cases (key == x)) [
  | inl y ↦
      let e : (x == key) ≡ true = ground (arith, y) in
      rw (e, release-same key n x ks y) (pad-more n ks)
  | inr d ↦
      let e : (x == key) ≡ false = ground (arith, d) in
      rw (e, release-cons key n x ks d) (ap (λ xs. x ∷ xs) (key_up-padded key n ks k))
]

-- While the array has the keys that are down, in the order in which they were pressed, and bytes of
-- 0 behind them: a key code that is not of a shift key and whose low byte is not 0 adds its low byte
-- behind the others when it goes down, unless it is down already or the array is full, and takes it
-- out when it goes up, if it is there; nothing else of the keyboard changes.
pub keyboard_input_hook-refines :
    (key n : ℕ) (ks : List ℕ) (down : Bool) (k : Keyboard)
    → k.keys ≡ padded n ks
    → has 0 ks ≡ false
    → (key % 256 == 0) ≡ false
    → (key / 2 ^ 8 == 0xff) ≡ false
    → keyboard_input_hook key down k
      ≡ record k { keys = if down then press (key % 256) n ks else release_key (key % 256) n ks }
unfolding keyboard_input_hook
keyboard_input_hook-refines key n ks true k e z b s =
    let nonzero : (key == 0) ≡ false = ground (arith, b) in
    rw (nonzero, s, e, key_down-padded (key % 256) n ks b z) refl
keyboard_input_hook-refines key n ks false k e z b s =
    let nonzero : (key == 0) ≡ false = ground (arith, b) in
    rw (nonzero, s, e, key_up-padded (key % 256) n ks b) refl
