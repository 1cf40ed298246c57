-- ===== src/Dmac/Copied.antt =====
-- The bytes that DMAC_get_buffer of sh4/dmac.c copies, one by one.
use lxdream.Base.{
  ltb, if◌then◌else◌, ◌/◌, Bool-cases, inl, inr, ℕ, zero, suc, ◌+◌, ◌-◌, ◌*◌, ◌%◌, ◌≤◌, ◌<◌, ◌≡◌,
  refl, ◌∙◌, ap, List, [], ◌∷◌, ◌++◌, arith, add32, sub32, u32_mod, get_or, length, length-append,
}
use native.Mathlib.Nat.{mul-le-mul_right, mod-lt, div-lt_iff_lt-mul, mod-eq-sub-mul-div, mul-div-le}
use lxdream.Dmac.{read_bytes, read_same, read_down}

pub length-read_bytes : (n a : ℕ) (memory : ℕ → ℕ) → length (read_bytes n a memory) ≡ n
unfolding read_bytes
length-read_bytes zero a memory = refl
length-read_bytes (suc n) a memory = omega (arith, length-read_bytes n (add32 a 1) memory)

pub length-read_same :
    (run size a : ℕ) (memory : ℕ → ℕ) → length (read_same run size a memory) ≡ run * size
unfolding read_same
length-read_same zero size a memory = omega arith
length-read_same (suc run) size a memory = omega (
  arith,
  length-append (read_bytes size a memory) (read_same run size a memory),
  length-read_bytes size a memory,
  length-read_same run size a memory,
)

pub length-read_down :
    (run size a : ℕ) (memory : ℕ → ℕ) → length (read_down run size a memory) ≡ run * size
unfolding read_down
length-read_down zero size a memory = omega arith
length-read_down (suc run) size a memory = omega (
  arith,
  length-append (read_bytes size a memory) (read_down run size (sub32 a size) memory),
  length-read_bytes size a memory,
  length-read_down run size (sub32 a size) memory,
)

get_or-left : (xs ys : List ℕ) (i d : ℕ) → i < length xs → get_or (xs ++ ys) i d ≡ get_or xs i d
get_or-left [] ys i d h = absurd (omega arith)
get_or-left (x ∷ xs) ys zero d h = refl
get_or-left (x ∷ xs) ys (suc i) d h = get_or-left xs ys i d (omega arith)

get_or-right : (xs ys : List ℕ) (i d : ℕ) → get_or (xs ++ ys) (length xs + i) d ≡ get_or ys i d
get_or-right [] ys i d = ap (λ j. get_or ys j d) (omega arith)
get_or-right (x ∷ xs) ys i d =
    let e : length (x ∷ xs) + i ≡ suc (length xs + i) = omega arith in
    ap (λ j. get_or (x ∷ xs ++ ys) j d) e ∙ get_or-right xs ys i d

-- The byte at a distance from an address, with the wrap-around of the address.
pub get_or-read_bytes :
    (n a i : ℕ) (memory : ℕ → ℕ)
    → i < n
    → a < u32_mod
    → get_or (read_bytes n a memory) i 0 ≡ memory ((a + i) % u32_mod)
unfolding read_bytes add32
get_or-read_bytes zero a i memory h l = absurd (omega arith)
get_or-read_bytes (suc n) a zero memory h l = ap memory (omega arith)
get_or-read_bytes (suc n) a (suc i) memory h l =
    get_or-read_bytes n ((a + 1) % u32_mod) i memory (omega arith) (omega arith)
    ∙ ap memory (omega arith)

skip_block :
    (size a b j : ℕ) (ys : List ℕ) (memory : ℕ → ℕ)
    → get_or (read_bytes size a memory ++ ys) (suc b * size + j) 0 ≡ get_or ys (b * size + j) 0
skip_block size a b j ys memory =
    let e : suc b * size + j ≡ length (read_bytes size a memory) + (b * size + j) =
      omega (arith, length-read_bytes size a memory) in
    ap (λ i. get_or (read_bytes size a memory ++ ys) i 0) e
    ∙ get_or-right (read_bytes size a memory) ys (b * size + j) 0

in_block :
    (size a j : ℕ) (ys : List ℕ) (memory : ℕ → ℕ)
    → j < size
    → a < u32_mod
    → get_or (read_bytes size a memory ++ ys) (0 * size + j) 0 ≡ memory ((a + j) % u32_mod)
in_block size a j ys memory h l =
    let e : 0 * size + j ≡ j = omega arith in
    ap (λ i. get_or (read_bytes size a memory ++ ys) i 0) e
    ∙ get_or-left (read_bytes size a memory) ys j 0 (omega (arith, length-read_bytes size a memory))
    ∙ get_or-read_bytes size a j memory h l

pub get_or-read_same :
    (run size a b j : ℕ) (memory : ℕ → ℕ)
    → b < run
    → j < size
    → a < u32_mod
    → get_or (read_same run size a memory) (b * size + j) 0 ≡ memory ((a + j) % u32_mod)
unfolding read_same
get_or-read_same zero size a b j memory k h l = absurd (omega arith)
get_or-read_same (suc run) size a zero j memory k h l =
    in_block size a j (read_same run size a memory) memory h l
get_or-read_same (suc run) size a (suc b) j memory k h l =
    skip_block size a b j (read_same run size a memory) memory
    ∙ get_or-read_same run size a b j memory (omega arith) h l

pub get_or-read_down :
    (run size a b j : ℕ) (memory : ℕ → ℕ)
    → b < run
    → j < size
    → a < u32_mod
    → get_or (read_down run size a memory) (b * size + j) 0
      ≡ memory ((a + b * (u32_mod - size) + j) % u32_mod)
unfolding read_down sub32
get_or-read_down zero size a b j memory k h l = absurd (omega arith)
get_or-read_down (suc run) size a zero j memory k h l =
    in_block size a j (read_down run size (sub32 a size) memory) memory h l
    ∙ ap memory (omega arith)
get_or-read_down (suc run) size a (suc b) j memory k h l =
    let stride = u32_mod - size in
    let e : ((a + stride) % u32_mod + b * stride + j) % u32_mod
        ≡ (a + suc b * stride + j) % u32_mod =
      omega arith in
    skip_block size a b j (read_down run size (sub32 a size) memory) memory
    ∙ get_or-read_down run size ((a + stride) % u32_mod) b j memory (omega arith) h (omega arith)
    ∙ ap memory e

pub get_or-read_up :
    (run size a b j : ℕ) (memory : ℕ → ℕ)
    → b < run
    → j < size
    → a < u32_mod
    → get_or (read_bytes (run * size) a memory) (b * size + j) 0
      ≡ memory ((a + b * size + j) % u32_mod)
get_or-read_up run size a b j memory k h l =
    let fits : suc b * size ≤ run * size = mul-le-mul_right size k in
    get_or-read_bytes (run * size) a (b * size + j) memory (omega arith) l ∙ ap memory (omega arith)

get_or-beyond : (xs : List ℕ) (i d : ℕ) → length xs ≤ i → get_or xs i d ≡ d
get_or-beyond [] i d h = refl
get_or-beyond (x ∷ xs) zero d h = absurd (omega arith)
get_or-beyond (x ∷ xs) (suc i) d h = get_or-beyond xs i d (omega arith)

block_lt : (i size run : ℕ) → 0 < size → i < run * size → i / size < run
block_lt i size run p h = (div-lt_iff_lt-mul {x = i} {y = run} p).1 h

-- The byte at place `i` of blocks that start `stride` bytes apart.
abbrev pub byte_of : ℕ → ℕ → ℕ → ℕ → ℕ → (ℕ → ℕ) → ℕ
byte_of run size a stride i memory =
    if ltb i (run * size) then memory ((a + i / size * stride + i % size) % u32_mod) else 0

-- Blocks that are known byte by byte are known at every place.
pub blocks-at :
    (run size a stride i : ℕ) (memory : ℕ → ℕ) (xs : List ℕ)
    → 0 < size
    → length xs ≡ run * size
    → ((b j : ℕ)
        → b < run
        → j < size
        → get_or xs (b * size + j) 0 ≡ memory ((a + b * stride + j) % u32_mod))
    → get_or xs i 0 ≡ byte_of run size a stride i memory
blocks-at run size a stride i memory xs p n h = elim (Bool-cases (ltb i (run * size))) [
  | inl y ↦
      let parts : i ≡ i / size * size + i % size =
        omega (arith, mod-eq-sub-mul-div i size, mul-div-le size i) in
      let rest : i % size < size = mod-lt i p in
      let block : i / size < run = block_lt i size run p (ground (arith, y)) in
      rw y (ap (λ k. get_or xs k 0) parts ∙ h (i / size) (i % size) block rest)
  | inr o ↦ rw o (get_or-beyond xs i 0 (ground (arith, n, o)))
]
