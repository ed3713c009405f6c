-- ===== src/MemAlloc/Bitmap.antt =====
-- Single bits of the chunks of the bitmap (TPCC/Server/core/nbblist.c).
use tiny_stm_reval.Prelude.{
  ℕ, zero, suc, ◌-◌, ◌*◌, ◌/◌, ◌%◌, ◌^◌, ◌≤◌, ◌<◌, bit_and, bit_or, ◌≡◌, refl, sym, ap, ◌∙◌, ◌≢◌,
  inl, inr, Bool, true, false, arith, ◌==◌, if◌then◌else◌, ==_iff, Bool-cases, differ_of_test,
}
use native.Mathlib.Nat.{zero-div, div-div-eq-div-mul, div-one}
use tiny_stm_reval.Word.{word_max, complement}
use tiny_stm_reval.Word.Digits.{
  double_pow, pow-pos, bit_or_group, bit_and_group, bit_or-none, bit_or-ones, bit_and-none,
  bit_and-ones, bit_and-shifted, bit_and-fits, bit_or-fits,
}
use tiny_stm_reval.MemAlloc.{ffsl, free_pos, acquire_newchunk, release_newchunk}

-- Digit j of a number.
unfoldable pub bit_at : ℕ → ℕ → ℕ
bit_at x j = x / 2 ^ j % 2

pub bit_at-fits : (x j : ℕ) → bit_at x j < 2
unfolding bit_at
bit_at-fits x j = omega arith

bit_at-zero : (x : ℕ) → bit_at x 0 ≡ x % 2
unfolding bit_at
bit_at-zero x = ap (λ (t : ℕ). t % 2) (div-one x)

bit_at-suc : (x j : ℕ) → bit_at x (suc j) ≡ bit_at (x / 2) j
unfolding bit_at
bit_at-suc x j =
    ap (λ (t : ℕ). x / t % 2) twice ∙ ap (λ (t : ℕ). t % 2) (sym (div-div-eq-div-mul x 2 (2 ^ j)))
  where
    twice : 2 ^ suc j ≡ 2 * 2 ^ j
    twice = omega arith

bit_at-bit_or : (a b j : ℕ) → bit_at (bit_or a b) j ≡ bit_or (bit_at a j) (bit_at b j)
unfolding bit_at
bit_at-bit_or a b j = bit_or_group j 1 a b

bit_at-bit_and : (a b j : ℕ) → bit_at (bit_and a b) j ≡ bit_and (bit_at a j) (bit_at b j)
unfolding bit_at
bit_at-bit_and a b j = bit_and_group j 1 a b

pub bit_at-none : (j : ℕ) → bit_at 0 j ≡ 0
unfolding bit_at
bit_at-none j = rw (zero-div (2 ^ j)) refl

-- The one digit of a power of two.
pub bit_at-pow : (p j : ℕ) → bit_at (2 ^ p) j ≡ (if p == j then 1 else 0)
bit_at-pow zero zero = bit_at-zero 1 ∙ refl
bit_at-pow zero (suc j) = bit_at-suc 1 j ∙ bit_at-none j ∙ ground arith
bit_at-pow (suc p) zero =
    let even : 2 ^ suc p % 2 ≡ 0 = omega (arith, double_pow p) in
    bit_at-zero (2 ^ suc p) ∙ even ∙ ground arith
bit_at-pow (suc p) (suc j) =
    let half : 2 ^ suc p / 2 ≡ 2 ^ p = omega (arith, double_pow p) in
    bit_at-suc (2 ^ suc p) j ∙ ap (λ (t : ℕ). bit_at t j) half ∙ bit_at-pow p j ∙ ground arith

-- The digits of a complement in k digits.
bit_at-minus : (k j m : ℕ) → m < 2 ^ k → j < k → bit_at (2 ^ k - 1 - m) j ≡ 1 - bit_at m j
bit_at-minus zero j m fits lt = absurd (omega (arith, lt))
bit_at-minus (suc k) zero m fits lt =
    bit_at-zero (2 ^ suc k - 1 - m)
    ∙ omega (arith, double_pow k, fits)
    ∙ ap (λ (t : ℕ). 1 - t) (sym (bit_at-zero m))
bit_at-minus (suc k) (suc j) m fits lt =
    let half : (2 ^ suc k - 1 - m) / 2 ≡ 2 ^ k - 1 - m / 2 = omega (arith, double_pow k, fits) in
    bit_at-suc (2 ^ suc k - 1 - m) j
    ∙ ap (λ (t : ℕ). bit_at t j) half
    ∙ bit_at-minus k j (m / 2) (omega (arith, double_pow k, fits)) (omega (arith, lt))
    ∙ ap (λ (t : ℕ). 1 - t) (sym (bit_at-suc m j))

bit_at-complement : (m j : ℕ) → m ≤ word_max → j < 64 → bit_at (complement m) j ≡ 1 - bit_at m j
unfolding complement
bit_at-complement m j le lt = bit_at-minus 64 j m (omega (arith, le)) lt

-- What __builtin_ffsl finds.
ffsl-finds :
    (n x : ℕ) → x < 2 ^ n → x ≢ 0 → (p : ℕ) × (ffsl n x ≡ suc p) × (p < n) × (bit_at x p ≡ 1)
unfolding ffsl
ffsl-finds zero x fits ne = absurd (omega (arith, fits, ne))
ffsl-finds (suc n) x fits ne = elim (Bool-cases (x % 2 == 1)) [
  | inl e ↦ rw e (0, refl, omega arith, bit_at-zero x ∙ (==_iff _ _).0 e)
  | inr e ↦
      let odd = differ_of_test _ _ e in
      let (p, found, lt, one) =
        ffsl-finds n (x / 2) (omega (arith, fits, double_pow n)) (omega (arith, ne, odd)) in
      rw e (suc p, ap suc found, omega (arith, lt), bit_at-suc x p ∙ one)
]

-- A chunk that is not full has a free bit where mem_node_acquire looks.
pub free_pos-free :
    (old : ℕ)
    → old ≤ word_max
    → old ≢ word_max
    → (free_pos old < 64) × (bit_at old (free_pos old) ≡ 0)
unfolding free_pos
free_pos-free old le ne =
    let (p, found, lt, one) = ffsl-finds 64 (complement old) fits some_bit in
    let pos : ffsl 64 (complement old) - 1 ≡ p = omega (arith, found) in
    rw pos (lt, omega (arith, one, bit_at-complement old p le lt, bit_at-fits old p))
  where
    fits : complement old < 2 ^ 64
    fits = unfold complement in omega arith

    some_bit : complement old ≢ 0
    some_bit = unfold complement in omega (arith, le, ne)

or_bit : (x y : ℕ) (b : Bool) → y ≡ (if b then 1 else 0) → x < 2 → bit_or x y ≡ (if b then 1 else x)
or_bit x y true e lt = ap (λ (t : ℕ). bit_or x t) e ∙ bit_or-ones 1 x lt
or_bit x y false e lt = ap (λ (t : ℕ). bit_or x t) e ∙ bit_or-none x

and_bit :
    (x y : ℕ) (b : Bool) → y ≡ (if b then 0 else 1) → x < 2 → bit_and x y ≡ (if b then 0 else x)
and_bit x y true e lt = ap (λ (t : ℕ). bit_and x t) e ∙ bit_and-none x
and_bit x y false e lt = ap (λ (t : ℕ). bit_and x t) e ∙ bit_and-ones 1 x ∙ omega (arith, lt)

-- The bits of the chunk after a node is taken, and after one is given back.
pub bit_at-acquire :
    (old j : ℕ) → bit_at (acquire_newchunk old) j ≡ (if free_pos old == j then 1 else bit_at old j)
unfolding acquire_newchunk
bit_at-acquire old j =
    bit_at-bit_or old (2 ^ free_pos old) j
    ∙ or_bit (bit_at old j) (bit_at (2 ^ free_pos old) j) (free_pos old == j)
        (bit_at-pow (free_pos old) j) (bit_at-fits old j)

pow-less : (k p : ℕ) → p < k → 2 ^ p < 2 ^ k
pow-less zero p lt = absurd (omega (arith, lt))
pow-less (suc k) zero lt = omega (arith, double_pow k, pow-pos k)
pow-less (suc k) (suc p) lt =
    omega (arith, double_pow k, double_pow p, pow-less k p (omega (arith, lt)))

pow-fits : (p : ℕ) → p < 64 → 2 ^ p ≤ word_max
pow-fits p lt = omega (arith, pow-less 64 p lt)

pub bit_at-release :
    (id old j : ℕ)
    → j < 64
    → bit_at (release_newchunk id old) j ≡ (if id % 64 == j then 0 else bit_at old j)
unfolding release_newchunk
bit_at-release id old j lt =
    bit_at-bit_and old (complement (2 ^ (id % 64))) j
    ∙ and_bit (bit_at old j) (bit_at (complement (2 ^ (id % 64))) j) (id % 64 == j)
        (bit_at-complement (2 ^ (id % 64)) j (pow-fits (id % 64) (omega arith)) lt
          ∙ flip (id % 64 == j) (bit_at (2 ^ (id % 64)) j) (bit_at-pow (id % 64) j))
        (bit_at-fits old j)
  where
    flip : (b : Bool) (x : ℕ) → x ≡ (if b then 1 else 0) → 1 - x ≡ (if b then 0 else 1)
    flip true x e = omega (arith, e)
    flip false x e = omega (arith, e)

-- The test of mem_node_release.
pub bit_test : (chunk p : ℕ) → (bit_and chunk (2 ^ p) == 0) ≡ (bit_at chunk p == 0)
unfolding bit_at
bit_test chunk p = ap (λ (t : ℕ). t == 0) alone ∙ scaled (chunk / 2 ^ p % 2) (2 ^ p) (pow-pos p)
  where
    once : 2 ^ p ≡ 1 * 2 ^ p
    once = omega arith

    alone : bit_and chunk (2 ^ p) ≡ chunk / 2 ^ p % 2 * 2 ^ p
    alone =
        ap (bit_and chunk) once
        ∙ bit_and-shifted p chunk 1
        ∙ ap (λ (t : ℕ). t * 2 ^ p) (bit_and-ones 1 (chunk / 2 ^ p))

    scaled : (x q : ℕ) → 0 < q → (x * q == 0) ≡ (x == 0)
    scaled zero q pos = let none : 0 * q ≡ 0 = omega arith in ap (λ (t : ℕ). t == 0) none
    scaled (suc x) zero pos = absurd (omega (arith, pos))
    scaled (suc x) (suc q) pos =
        let some_bits : suc x * suc q ≢ 0 = omega arith in ground (arith, some_bits)

pub acquire_newchunk-fits :
    (old : ℕ) → old ≤ word_max → free_pos old < 64 → acquire_newchunk old ≤ word_max
unfolding acquire_newchunk
acquire_newchunk-fits old le lt = omega (
  arith,
  bit_or-fits 64 old (2 ^ free_pos old) (omega (arith, le))
      (omega (arith, pow-fits (free_pos old) lt)),
)

pub release_newchunk-fits : (id old : ℕ) → old ≤ word_max → release_newchunk id old ≤ word_max
unfolding release_newchunk
release_newchunk-fits id old le =
    let fits : complement (2 ^ (id % 64)) < 2 ^ 64 = unfold complement in omega arith in
    omega (arith, bit_and-fits 64 old (complement (2 ^ (id % 64))) (omega (arith, le)) fits)
