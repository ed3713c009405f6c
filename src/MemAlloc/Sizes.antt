-- ===== src/MemAlloc/Sizes.antt =====
-- The sizes that mem_alloc_init computes (TPCC/Server/core/nbblist.c).
use tiny_stm_reval.Prelude.{
  ℕ, zero, suc, ◌+◌, ◌*◌, ◌/◌, ◌%◌, ◌^◌, ◌≤◌, ◌<◌, ◌≡◌, refl, ap, ◌∙◌, ◌≢◌, ◌⊎◌, inl, inr, true,
  false, arith, ltb, ◌==◌, if◌then◌else◌, ==_iff, Bool-cases, length, differ_of_test,
}
use native.Mathlib.Nat.{mod-eq_of_lt}
use tiny_stm_reval.Word.Digits.{double_pow}
use tiny_stm_reval.MemAlloc.{bit_length, mem_alloc_init}

bit_length-zero : (n : ℕ) → bit_length n 0 ≡ 0
unfolding bit_length
bit_length-zero zero = refl
bit_length-zero (suc n) = refl

-- The digits of a number are as many as needed.
bit_length-least :
    (n x : ℕ)
    → x < 2 ^ n
    → (x < 2 ^ bit_length n x) × (bit_length n x ≤ n) × ((x ≡ 0) ⊎ (2 ^ bit_length n x ≤ 2 * x))
unfolding bit_length
bit_length-least zero x fits = (fits, omega arith, inl (omega (arith, fits)))
bit_length-least (suc n) x fits = elim (Bool-cases (x == 0)) [
  | inl e ↦ let none = (==_iff _ _).0 e in rw e (omega (arith, none), omega arith, inl none)
  | inr e ↦
      let some_ = differ_of_test _ _ e in
      let (above, le, least) = bit_length-least n (x / 2) (omega (arith, fits, double_pow n)) in
      let twice = double_pow (bit_length n (x / 2)) in
      rw e (omega (arith, above, twice), omega (arith, le), inr (by_half some_ least))
]
  where
    by_half :
        x ≢ 0
        → (x / 2 ≡ 0) ⊎ (2 ^ bit_length n (x / 2) ≤ 2 * (x / 2))
        → 2 ^ suc (bit_length n (x / 2)) ≤ 2 * x
    by_half some_ (inl z) =
        let digit : bit_length n (x / 2) ≡ 0 = ap (bit_length n) z ∙ bit_length-zero n in
        let one : 2 ^ suc (bit_length n (x / 2)) ≡ 2 = ap (λ (t : ℕ). 2 ^ suc t) digit in
        omega (arith, one, some_)
    by_half some_ (inr le) = omega (arith, le, double_pow (bit_length n (x / 2)))

-- A power of two above 32 is a number of whole chunks.
whole_chunks : (k : ℕ) → 32 < 2 ^ k → (m : ℕ) × (2 ^ k ≡ m * 64) × (0 < m)
whole_chunks zero lt = absurd (omega (arith, lt))
whole_chunks (suc zero) lt = absurd (omega (arith, lt))
whole_chunks (suc (suc zero)) lt = absurd (omega (arith, lt))
whole_chunks (suc (suc (suc zero))) lt = absurd (omega (arith, lt))
whole_chunks (suc (suc (suc (suc zero)))) lt = absurd (omega (arith, lt))
whole_chunks (suc (suc (suc (suc (suc zero))))) lt = absurd (omega (arith, lt))
whole_chunks (suc (suc (suc (suc (suc (suc k)))))) lt = (
  2 ^ k,
  omega (
    arith,
    double_pow (suc (suc (suc (suc (suc k))))),
    double_pow (suc (suc (suc (suc k)))),
    double_pow (suc (suc (suc k))),
    double_pow (suc (suc k)),
    double_pow (suc k),
    double_pow k,
  ),
  omega (
    arith,
    lt,
    double_pow (suc (suc (suc (suc (suc k))))),
    double_pow (suc (suc (suc (suc k)))),
    double_pow (suc (suc (suc k))),
    double_pow (suc (suc k)),
    double_pow (suc k),
    double_pow k,
  ),
)

-- For a length that is not 0 and below 2 ^ 63, mem_alloc_init makes more nodes than the length, and at
-- most twice as many. The bits of its bitmap are the nodes from a length of 32 on; below
-- that they are 64, which is more than there are nodes.
pub mem_alloc_init_sizes :
    (junk length : ℕ)
    → 0 < length
    → length < 2 ^ 63
    → (length < (mem_alloc_init junk length).length_pow2)
      × ((mem_alloc_init junk length).length_pow2 ≤ 2 * length)
      × (((32 ≤ length)
            × (64 * (mem_alloc_init junk length).busymap_length
                ≡ (mem_alloc_init junk length).length_pow2))
          ⊎ ((length < 32)
              × (64 * (mem_alloc_init junk length).busymap_length ≡ 64)
              × ((mem_alloc_init junk length).length_pow2 < 64)))
unfolding mem_alloc_init
mem_alloc_init_sizes junk length some_ small =
    let (above, le, least) = bit_length-least 64 length (omega (arith, small)) in
    let most = at_most least in
    let whole : 2 ^ bit_length 64 length % 2 ^ 64 ≡ 2 ^ bit_length 64 length =
      mod-eq_of_lt (omega (arith, most, small)) in
    rw whole (
      above,
      most,
      by_size (2 ^ bit_length 64 length) most above
          (λ lt. whole_chunks (bit_length 64 length) (omega (arith, above, lt)))
          (Bool-cases (ltb length 32)),
    )
  where
    at_most :
        (length ≡ 0) ⊎ (2 ^ bit_length 64 length ≤ 2 * length)
        → 2 ^ bit_length 64 length ≤ 2 * length
    at_most (inl z) = absurd (omega (arith, z, some_))
    at_most (inr le) = le

    partial : (x : ℕ) → 0 < x → x < 64 → (x % 64 == 0) ≡ false
    partial x pos lt = let some_ : x % 64 ≢ 0 = omega (arith, pos, lt) in ground (arith, some_)

    by_size :
        (x : ℕ)
        → x ≤ 2 * length
        → length < x
        → (32 ≤ length → (m : ℕ) × (x ≡ m * 64) × (0 < m))
        → (ltb length 32 ≡ true) ⊎ (ltb length 32 ≡ false)
        → ((32 ≤ length) × (64 * (x / 64 + (if x % 64 == 0 then 0 else 1)) ≡ x))
          ⊎ ((length < 32) × (64 * (x / 64 + (if x % 64 == 0 then 0 else 1)) ≡ 64) × (x < 64))
    by_size x most low chunks (inl e) =
        let under : length < 32 = ground (arith, e) in
        let rest : (x % 64 == 0) ≡ false =
          partial x (omega (arith, low)) (omega (arith, most, under)) in
        inr (under, rw rest (omega (arith, most, under)), omega (arith, most, under))
    by_size x most low chunks (inr e) =
        let big : 32 ≤ length = ground (arith, e) in
        let (m, is, pos) = chunks big in
        let none : (x % 64 == 0) ≡ true = (==_iff _ _).1 (omega (arith, is)) in
        inl (big, rw none (omega (arith, is)))
