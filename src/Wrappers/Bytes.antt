-- ===== src/Wrappers/Bytes.antt =====
-- The bytes of words, and of words that are merged under a mask (tinySTM/src/wrappers.c and the
-- masked writes of tinySTM/src/stm.c).
use tiny_stm_reval.Prelude.{
  ℕ, zero, suc, ◌-◌, ◌*◌, ◌/◌, ◌^◌, ◌≤◌, ◌<◌, bit_and, bit_or, ◌≡◌, refl, ap, ◌∙◌, inl, inr, arith,
  leb, leb→le, Bool-cases,
}
use tiny_stm_reval.Word.{word_max, complement, merge}
use tiny_stm_reval.Word.Digits.{
  bit_and_group, bit_or_group, bit_and-ones, bit_and-none, bit_or-none, bit_or-ones, none-bit_or,
}
use native.Mathlib.Nat.{zero-div, mod-lt, mod-eq_of_lt}
use tiny_stm_reval.Wrappers.{byte_of, word_of}

abbrev pub AreBytes : (ℕ → ℕ) → Type 0
AreBytes b = (i : ℕ) → b i < 2 ^ 8

pub byte_of-AreBytes : (w : ℕ) → AreBytes (byte_of w)
unfolding byte_of
byte_of-AreBytes w i = mod-lt (w / 2 ^ (8 * i)) (omega arith)

pub byte_of-zero : (i : ℕ) → byte_of 0 i ≡ 0
unfolding byte_of
byte_of-zero i = rw (zero-div (2 ^ (8 * i))) refl

pub byte_of-word_of : (b : ℕ → ℕ) (i : ℕ) → AreBytes b → i < 8 → byte_of (word_of b) i ≡ b i
unfolding byte_of word_of
byte_of-word_of b zero h lt = omega (arith, h 0, h 1, h 2, h 3, h 4, h 5, h 6, h 7)
byte_of-word_of b (suc zero) h lt = omega (arith, h 0, h 1, h 2, h 3, h 4, h 5, h 6, h 7)
byte_of-word_of b (suc (suc zero)) h lt = omega (arith, h 0, h 1, h 2, h 3, h 4, h 5, h 6, h 7)
byte_of-word_of b (suc (suc (suc zero))) h lt =
    omega (arith, h 0, h 1, h 2, h 3, h 4, h 5, h 6, h 7)
byte_of-word_of b (suc (suc (suc (suc zero)))) h lt =
    omega (arith, h 0, h 1, h 2, h 3, h 4, h 5, h 6, h 7)
byte_of-word_of b (suc (suc (suc (suc (suc zero))))) h lt =
    omega (arith, h 0, h 1, h 2, h 3, h 4, h 5, h 6, h 7)
byte_of-word_of b (suc (suc (suc (suc (suc (suc zero)))))) h lt =
    omega (arith, h 0, h 1, h 2, h 3, h 4, h 5, h 6, h 7)
byte_of-word_of b (suc (suc (suc (suc (suc (suc (suc zero))))))) h lt =
    omega (arith, h 0, h 1, h 2, h 3, h 4, h 5, h 6, h 7)
byte_of-word_of b (suc (suc (suc (suc (suc (suc (suc (suc i)))))))) h lt =
    absurd (omega (arith, lt))

pub byte_of-bit_or : (a b i : ℕ) → byte_of (bit_or a b) i ≡ bit_or (byte_of a i) (byte_of b i)
unfolding byte_of
byte_of-bit_or a b i = bit_or_group (8 * i) 8 a b

byte_of-bit_and : (a b i : ℕ) → byte_of (bit_and a b) i ≡ bit_and (byte_of a i) (byte_of b i)
unfolding byte_of
byte_of-bit_and a b i = bit_and_group (8 * i) 8 a b

-- The bytes of `~m`.
byte_of-complement : (m i : ℕ) → m ≤ word_max → i < 8 → byte_of (complement m) i ≡ 255 - byte_of m i
unfolding byte_of complement
byte_of-complement m zero le lt = omega (arith, le)
byte_of-complement m (suc zero) le lt = omega (arith, le)
byte_of-complement m (suc (suc zero)) le lt = omega (arith, le)
byte_of-complement m (suc (suc (suc zero))) le lt = omega (arith, le)
byte_of-complement m (suc (suc (suc (suc zero)))) le lt = omega (arith, le)
byte_of-complement m (suc (suc (suc (suc (suc zero))))) le lt = omega (arith, le)
byte_of-complement m (suc (suc (suc (suc (suc (suc zero)))))) le lt = omega (arith, le)
byte_of-complement m (suc (suc (suc (suc (suc (suc (suc zero))))))) le lt = omega (arith, le)
byte_of-complement m (suc (suc (suc (suc (suc (suc (suc (suc i)))))))) le lt =
    absurd (omega (arith, lt))

complement-clear : (m i : ℕ) → i < 8 → byte_of m i ≡ 255 → byte_of (complement m) i ≡ 0
complement-clear m i lt full = elim (Bool-cases (leb m word_max)) [
  | inl le ↦ omega (arith, byte_of-complement m i (leb→le m word_max le) lt, full)
  | inr gt ↦
      let none : complement m ≡ 0 = past m (ground (arith, gt)) in
      ap (λ (t : ℕ). byte_of t i) none ∙ byte_of-zero i
]
  where
    past : (m : ℕ) → word_max < m → complement m ≡ 0
    past m lt = unfold complement in omega (arith, lt)

-- A merge takes the new byte where the mask has 0xFF, and keeps the old one where it has 0.
pub byte_of-merge_new :
    (mask old new i : ℕ)
    → i < 8
    → byte_of mask i ≡ 255
    → byte_of (merge mask old new) i ≡ byte_of new i
unfolding merge
byte_of-merge_new mask old new i lt m =
    byte_of-bit_or (bit_and old (complement mask)) (bit_and new mask) i
    ∙ rw
        (
          byte_of-bit_and old (complement mask) i,
          byte_of-bit_and new mask i,
          complement-clear mask i lt m,
          m,
        )
        (rw
          (
            bit_and-none (byte_of old i),
            bit_and-ones 8 (byte_of new i),
            mod-eq_of_lt (byte_of-AreBytes new i),
          )
          (none-bit_or (byte_of new i)))

pub byte_of-merge_old :
    (mask old new i : ℕ)
    → mask ≤ word_max
    → i < 8
    → byte_of mask i ≡ 0
    → byte_of (merge mask old new) i ≡ byte_of old i
unfolding merge
byte_of-merge_old mask old new i le lt m =
    byte_of-bit_or (bit_and old (complement mask)) (bit_and new mask) i
    ∙ rw
        (
          byte_of-bit_and old (complement mask) i,
          byte_of-bit_and new mask i,
          byte_of-complement mask i le lt,
          m,
        )
        (rw
          (
            bit_and-none (byte_of new i),
            bit_and-ones 8 (byte_of old i),
            mod-eq_of_lt (byte_of-AreBytes old i),
          )
          (bit_or-none (byte_of old i)))

-- The mask of an entry that is written twice.
pub byte_of-mask_new : (old mask i : ℕ) → byte_of mask i ≡ 255 → byte_of (bit_or old mask) i ≡ 255
byte_of-mask_new old mask i m =
    byte_of-bit_or old mask i ∙ rw m (bit_or-ones 8 (byte_of old i) (byte_of-AreBytes old i))

pub byte_of-mask_old :
    (old mask i : ℕ) → byte_of mask i ≡ 0 → byte_of (bit_or old mask) i ≡ byte_of old i
byte_of-mask_old old mask i m = byte_of-bit_or old mask i ∙ rw m (bit_or-none (byte_of old i))

pub word_of-fits : (b : ℕ → ℕ) → AreBytes b → word_of b ≤ word_max
unfolding word_of
word_of-fits b h = omega (arith, h 0, h 1, h 2, h 3, h 4, h 5, h 6, h 7)
