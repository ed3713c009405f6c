-- ===== src/Word/Digits.antt =====
-- Bitwise operations digit by digit: the laws of shifts and masks of ones that packed words use
-- (TPCC/Server/datatypes/nbblist.h, tinySTM/src/wrappers.c).
use tiny_stm_reval.Prelude.{
  ℕ, zero, suc, ◌+◌, ◌-◌, ◌*◌, ◌/◌, ◌%◌, ◌^◌, ◌≤◌, ◌<◌, bit_and, bit_or, ◌≡◌, refl, sym, ap, ◌∙◌,
  arith,
}
use Prim.Native.Nat.{digits, min, max, bit_and-bitwise, bit_or-bitwise}
use native.Mathlib.Nat.{
  div-div-eq-div-mul, div-add-mod', div-eq_of_lt, mod-eq_of_lt, mul-div_cancel, mul-mod_left,
  mul_comm, div-one, mod-one, mod-lt, mul-add-div_right, mul-add-mod_self_right,
}

-- The definition's count of digits does not matter from the first number on.
module _ (z : ℕ → ℕ) (f : ℕ → ℕ → ℕ) where
  digits_count : (n m a b : ℕ) → a ≤ n → a ≤ m → digits z f n a b ≡ digits z f m a b
  digits_count zero zero a b p q = refl
  digits_count zero (suc m) zero b p q = refl
  digits_count zero (suc m) (suc a) b p q = absurd (omega arith)
  digits_count (suc n) zero zero b p q = refl
  digits_count (suc n) zero (suc a) b p q = absurd (omega arith)
  digits_count (suc n) (suc m) zero b p q = refl
  digits_count (suc n) (suc m) (suc a) b p q =
      omega (arith, digits_count n m (suc a / 2) (b / 2) (omega arith) (omega arith))

bit_and_halves : (a b : ℕ) → bit_and a b ≡ bit_and (a / 2) (b / 2) * 2 + min (a % 2) (b % 2)
bit_and_halves zero b = omega (arith, bit_and-bitwise 0 b, bit_and-bitwise 0 (b / 2))
bit_and_halves (suc a) b = omega (
  arith,
  bit_and-bitwise (suc a) b,
  bit_and-bitwise (suc a / 2) (b / 2),
  digits_count (λ b. zero) min a (suc a / 2) (suc a / 2) (b / 2) (omega arith) (omega arith),
)

bit_or_halves : (a b : ℕ) → bit_or a b ≡ bit_or (a / 2) (b / 2) * 2 + max (a % 2) (b % 2)
bit_or_halves zero b = omega (arith, bit_or-bitwise 0 b, bit_or-bitwise 0 (b / 2))
bit_or_halves (suc a) b = omega (
  arith,
  bit_or-bitwise (suc a) b,
  bit_or-bitwise (suc a / 2) (b / 2),
  digits_count (λ b. b) max a (suc a / 2) (suc a / 2) (b / 2) (omega arith) (omega arith),
)

-- A remainder by twice p, from the remainder of the half.
mod_twice : (a p : ℕ) → a % (2 * p) ≡ 2 * (a / 2 % p) + a % 2
mod_twice a p = omega (
  arith,
  div-add-mod' a (2 * p),
  div-add-mod' (a / 2) p,
  ap (λ (t : ℕ). t * p) (div-div-eq-div-mul a 2 p),
  mul_comm (a / (2 * p)) p,
  mul_comm (a / 2 / p) p,
)

pub double_pow : (k : ℕ) → 2 ^ suc k ≡ 2 * 2 ^ k
double_pow k = omega arith

pub pow-pos : (k : ℕ) → 0 < 2 ^ k
pow-pos zero = omega arith
pow-pos (suc k) = omega (arith, double_pow k, pow-pos k)

-- An operation on digits works apart on what is above and below a power of two.
module _ (op f : ℕ → ℕ → ℕ) (none : op 0 0 ≡ 0) (digit : (x y : ℕ) → x < 2 → y < 2 → f x y < 2)
    (halves : (a b : ℕ) → op a b ≡ op (a / 2) (b / 2) * 2 + f (a % 2) (b % 2)) where
  parts_step :
      (p a b : ℕ)
      → op (a / 2) (b / 2) ≡ op (a / 2 / p) (b / 2 / p) * p + op (a / 2 % p) (b / 2 % p)
      → op a b ≡ op (a / (2 * p)) (b / (2 * p)) * (2 * p) + op (a % (2 * p)) (b % (2 * p))
  parts_step p a b h =
      let low : op (a % (2 * p)) (b % (2 * p))
          ≡ op (a / 2 % p) (b / 2 % p) * 2 + f (a % 2) (b % 2) =
        rw (mod_twice a p, mod_twice b p)
          (rw
            (
              halves (2 * (a / 2 % p) + a % 2) (2 * (b / 2 % p) + b % 2),
              half (a / 2 % p) a,
              half (b / 2 % p) b,
              rest (a / 2 % p) a,
              rest (b / 2 % p) b,
            )
            refl) in
      rw (low, sym (div-div-eq-div-mul a 2 p), sym (div-div-eq-div-mul b 2 p))
        (omega (arith, h, halves a b))
    where
      half : (x a : ℕ) → (2 * x + a % 2) / 2 ≡ x
      half x a = omega arith

      rest : (x a : ℕ) → (2 * x + a % 2) % 2 ≡ a % 2
      rest x a = omega arith

  parts : (k a b : ℕ) → op a b ≡ op (a / 2 ^ k) (b / 2 ^ k) * 2 ^ k + op (a % 2 ^ k) (b % 2 ^ k)
  parts zero a b = rw (div-one a, div-one b, mod-one a, mod-one b, none) (omega arith)
  parts (suc k) a b = rw (double_pow k) (parts_step (2 ^ k) a b (parts k (a / 2) (b / 2)))

  low_fits : (k a b : ℕ) → a < 2 ^ k → b < 2 ^ k → op a b < 2 ^ k
  low_fits zero zero zero p q = rw none (omega arith)
  low_fits zero zero (suc b) p q = absurd (omega arith)
  low_fits zero (suc a) b p q = absurd (omega arith)
  low_fits (suc k) a b p q = rw (double_pow k) (
      omega (
        arith,
        halves a b,
        low_fits k (a / 2) (b / 2) (omega (arith, p, double_pow k))
            (omega (arith, q, double_pow k)),
        digit (a % 2) (b % 2) (omega arith) (omega arith),
      ))

  upper_part : (k a b : ℕ) → op a b / 2 ^ k ≡ op (a / 2 ^ k) (b / 2 ^ k)
  upper_part k a b =
      let fits = low_fits k (a % 2 ^ k) (b % 2 ^ k) (mod-lt a (pow-pos k)) (mod-lt b (pow-pos k)) in
      ap (λ (t : ℕ). t / 2 ^ k) (parts k a b)
      ∙ mul-add-div_right (pow-pos k) (op (a / 2 ^ k) (b / 2 ^ k)) (op (a % 2 ^ k) (b % 2 ^ k))
      ∙ rw (div-eq_of_lt fits) (omega arith)

  lower_part : (k a b : ℕ) → op a b % 2 ^ k ≡ op (a % 2 ^ k) (b % 2 ^ k)
  lower_part k a b =
      let fits = low_fits k (a % 2 ^ k) (b % 2 ^ k) (mod-lt a (pow-pos k)) (mod-lt b (pow-pos k)) in
      ap (λ (t : ℕ). t % 2 ^ k) (parts k a b)
      ∙ mul-add-mod_self_right (op (a / 2 ^ k) (b / 2 ^ k)) (2 ^ k) (op (a % 2 ^ k) (b % 2 ^ k))
      ∙ mod-eq_of_lt fits

pub bit_and-none : (a : ℕ) → bit_and a 0 ≡ 0
bit_and-none a = bit_and-none_upto a a (omega arith)
  where
    bit_and-none_upto : (n a : ℕ) → a ≤ n → bit_and a 0 ≡ 0
    bit_and-none_upto n zero h = bit_and-bitwise 0 0
    bit_and-none_upto zero (suc a) h = absurd (omega arith)
    bit_and-none_upto (suc n) (suc a) h =
        omega (arith, bit_and_halves (suc a) 0, bit_and-none_upto n (suc a / 2) (omega arith))

pub bit_or-none : (a : ℕ) → bit_or a 0 ≡ a
bit_or-none a = bit_or-none_upto a a (omega arith)
  where
    bit_or-none_upto : (n a : ℕ) → a ≤ n → bit_or a 0 ≡ a
    bit_or-none_upto n zero h = bit_or-bitwise 0 0
    bit_or-none_upto zero (suc a) h = absurd (omega arith)
    bit_or-none_upto (suc n) (suc a) h =
        omega (arith, bit_or_halves (suc a) 0, bit_or-none_upto n (suc a / 2) (omega arith))

none-bit_and : (b : ℕ) → bit_and 0 b ≡ 0
none-bit_and b = bit_and-bitwise 0 b

pub none-bit_or : (b : ℕ) → bit_or 0 b ≡ b
none-bit_or b = bit_or-bitwise 0 b

min_digit : (x y : ℕ) → x < 2 → y < 2 → min x y < 2
min_digit x y p q = omega (arith, p, q)

max_digit : (x y : ℕ) → x < 2 → y < 2 → max x y < 2
max_digit x y p q = omega (arith, p, q)

pub bit_and_parts :
    (k a b : ℕ)
    → bit_and a b ≡ bit_and (a / 2 ^ k) (b / 2 ^ k) * 2 ^ k + bit_and (a % 2 ^ k) (b % 2 ^ k)
bit_and_parts = parts bit_and min (bit_and-none 0) min_digit bit_and_halves

pub bit_or_parts :
    (k a b : ℕ)
    → bit_or a b ≡ bit_or (a / 2 ^ k) (b / 2 ^ k) * 2 ^ k + bit_or (a % 2 ^ k) (b % 2 ^ k)
bit_or_parts = parts bit_or max (bit_or-none 0) max_digit bit_or_halves

-- A mask of k ones keeps the lowest k digits.
pub bit_and-ones : (k a : ℕ) → bit_and a (2 ^ k - 1) ≡ a % 2 ^ k
bit_and-ones zero a = rw (bit_and-none a, mod-one a) refl
bit_and-ones (suc k) a =
    rw (double_pow k, mod_twice a (2 ^ k))
      (let h : (2 * 2 ^ k - 1) / 2 ≡ 2 ^ k - 1 = omega (arith, pow-pos k) in
        let l : (2 * 2 ^ k - 1) % 2 ≡ 1 = omega (arith, pow-pos k) in
        let keep : min (a % 2) 1 ≡ a % 2 = omega arith in
        bit_and_halves a (2 * 2 ^ k - 1) ∙ rw (h, l, keep, bit_and-ones k (a / 2)) (omega arith))

pub bit_or-ones : (k a : ℕ) → a < 2 ^ k → bit_or a (2 ^ k - 1) ≡ 2 ^ k - 1
bit_or-ones zero a lt = bit_or-none a ∙ omega (arith, lt)
bit_or-ones (suc k) a lt = rw (double_pow k) (
    let h : (2 * 2 ^ k - 1) / 2 ≡ 2 ^ k - 1 = omega (arith, pow-pos k) in
    let l : (2 * 2 ^ k - 1) % 2 ≡ 1 = omega (arith, pow-pos k) in
    let one : max (a % 2) 1 ≡ 1 = omega arith in
    bit_or_halves a (2 * 2 ^ k - 1)
    ∙ rw (h, l, one, bit_or-ones k (a / 2) (omega (arith, lt, double_pow k)))
        (omega (arith, pow-pos k)))

-- Digits put above others.
pub bit_or-shifted : (k h l : ℕ) → l < 2 ^ k → bit_or (h * 2 ^ k) l ≡ h * 2 ^ k + l
bit_or-shifted k h l fits =
    bit_or_parts k (h * 2 ^ k) l
    ∙ rw
        (
          mul-div_cancel h (pow-pos k),
          mul-mod_left h (2 ^ k),
          div-eq_of_lt fits,
          mod-eq_of_lt fits,
          bit_or-none h,
          none-bit_or l,
        )
        refl

-- A mask above k digits.
pub bit_and-shifted : (k a m : ℕ) → bit_and a (m * 2 ^ k) ≡ bit_and (a / 2 ^ k) m * 2 ^ k
bit_and-shifted k a m =
    bit_and_parts k a (m * 2 ^ k)
    ∙ rw (mul-div_cancel m (pow-pos k), mul-mod_left m (2 ^ k), bit_and-none (a % 2 ^ k))
        (omega arith)

-- A group of k digits from digit j on.
pub bit_and_group :
    (j k a b : ℕ) → bit_and a b / 2 ^ j % 2 ^ k ≡ bit_and (a / 2 ^ j % 2 ^ k) (b / 2 ^ j % 2 ^ k)
bit_and_group j k a b =
    ap (λ (t : ℕ). t % 2 ^ k)
      (upper_part bit_and min (bit_and-none 0) min_digit bit_and_halves j a b)
    ∙ lower_part bit_and min (bit_and-none 0) min_digit bit_and_halves k (a / 2 ^ j) (b / 2 ^ j)

pub bit_or_group :
    (j k a b : ℕ) → bit_or a b / 2 ^ j % 2 ^ k ≡ bit_or (a / 2 ^ j % 2 ^ k) (b / 2 ^ j % 2 ^ k)
bit_or_group j k a b =
    ap (λ (t : ℕ). t % 2 ^ k) (upper_part bit_or max (bit_or-none 0) max_digit bit_or_halves j a b)
    ∙ lower_part bit_or max (bit_or-none 0) max_digit bit_or_halves k (a / 2 ^ j) (b / 2 ^ j)

pub bit_and-fits : (k a b : ℕ) → a < 2 ^ k → b < 2 ^ k → bit_and a b < 2 ^ k
bit_and-fits = low_fits bit_and min (bit_and-none 0) min_digit bit_and_halves

pub bit_or-fits : (k a b : ℕ) → a < 2 ^ k → b < 2 ^ k → bit_or a b < 2 ^ k
bit_or-fits = low_fits bit_or max (bit_or-none 0) max_digit bit_or_halves
