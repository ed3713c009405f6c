-- ===== src/Word/Bits.antt =====
-- The laws of masks (tinySTM/src/stm.c merges a masked write with
-- `(old & ~mask) | (new & mask)`).
use tiny_stm_reval.Prelude.{
  ℕ, zero, suc, ◌+◌, ◌*◌, ◌/◌, ◌%◌, ◌≤◌, ◌<◌, bit_and, bit_or, ◌≡◌, refl, ◌∙◌, arith,
}
use Prim.Native.Nat.{digits, min, max, bit_and-bitwise, bit_or-bitwise}
use tiny_stm_reval.Word.{word_max, complement, merge}

-- 2 ^ k - 1
ones : ℕ → ℕ
ones zero = 0
ones (suc k) = 1 + 2 * ones k

min_one : (a : ℕ) → a < 2 → min a 1 ≡ a
min_one zero b = refl
min_one (suc zero) b = refl
min_one (suc (suc a)) b = omega (arith, b)

max_one : (a : ℕ) → a < 2 → max a 1 ≡ 1
max_one zero b = refl
max_one (suc zero) b = refl
max_one (suc (suc a)) b = omega (arith, b)

min_zero : (a : ℕ) → min a 0 ≡ 0
min_zero a = omega arith

and_none : (n a : ℕ) → digits (λ b. zero) min n a 0 ≡ 0
and_none zero a = refl
and_none (suc n) zero = refl
and_none (suc n) (suc a) = rw (min_zero (suc a % 2), and_none n (suc a / 2)) refl

and_ones : (n k a : ℕ) → a ≤ n → a ≤ ones k → digits (λ b. zero) min n a (ones k) ≡ a
unfolding ones
and_ones zero k a le below = omega (arith, le)
and_ones (suc n) k zero le below = refl
and_ones (suc n) zero (suc a) le below = omega (arith, below)
and_ones (suc n) (suc k) (suc a) le below =
    let h : (1 + 2 * ones k) / 2 ≡ ones k = omega arith in
    let p : (1 + 2 * ones k) % 2 ≡ 1 = omega arith in
    let ih = and_ones n k (suc a / 2) (omega (arith, le)) (omega (arith, below)) in
    rw (h, p, ih, min_one (suc a % 2) (omega arith)) (omega arith)

or_ones : (n k a : ℕ) → a ≤ ones k → digits (λ b. b) max n a (ones k) ≡ ones k
unfolding ones
or_ones zero k a below = refl
or_ones (suc n) k zero below = refl
or_ones (suc n) zero (suc a) below = omega (arith, below)
or_ones (suc n) (suc k) (suc a) below =
    let h : (1 + 2 * ones k) / 2 ≡ ones k = omega arith in
    let p : (1 + 2 * ones k) % 2 ≡ 1 = omega arith in
    let ih = or_ones n k (suc a / 2) (omega (arith, below)) in
    rw (h, p, ih, max_one (suc a % 2) (omega arith)) (omega arith)

or_none : (a : ℕ) → bit_or 0 a ≡ a
or_none a = bit_or-bitwise 0 a

all_ones : word_max ≡ ones 64
unfolding ones
all_ones = refl

bit_and-word_max : (a : ℕ) → a ≤ word_max → bit_and a word_max ≡ a
unfolding ones
bit_and-word_max a below = bit_and-bitwise a word_max ∙ and_ones a 64 a (omega arith) below

-- Under a full mask, an entry takes every bit.
pub bit_or-word_max : (a : ℕ) → a ≤ word_max → bit_or a word_max ≡ word_max
unfolding ones
bit_or-word_max a below = bit_or-bitwise a word_max ∙ or_ones a 64 a below

-- A merge under a full mask is the new value.
pub merge-word_max : (old new : ℕ) → new ≤ word_max → merge word_max old new ≡ new
unfolding merge complement
merge-word_max old new below =
    let none : bit_and old 0 ≡ 0 = bit_and-bitwise old 0 ∙ and_none old old in
    rw (none, bit_and-word_max new below) (or_none new)
