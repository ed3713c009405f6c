-- ===== src/NbbList/Layout.antt =====
-- The two halves of an entry (__nbb_list_val, __nbb_list_ver and __nbb_list_mask of
-- TPCC/Server/datatypes/nbblist.h) at the width that the task queues are created with.
use tiny_stm_reval.Prelude.{
  ℕ, ◌+◌, ◌-◌, ◌*◌, ◌/◌, ◌%◌, ◌^◌, ◌<◌, bit_and, ◌≡◌, refl, ◌∙◌, arith, length,
}
use tiny_stm_reval.Word.{sub_word, add_word}
use tiny_stm_reval.Word.Digits.{bit_and-ones, bit_or-shifted, bit_and-shifted}
use tiny_stm_reval.NbbList.{NbbList, nbb_list_val, nbb_list_ver, nbb_list_mask, nbb_list_create}

-- A version above a value.
abbrev pub pack : ℕ → ℕ → ℕ
pack ver val = ver * 2 ^ 32 + val

pub record Halves (l : NbbList) : Type 0 where
  pub val_nbits : l.val_nbits ≡ 32
  pub ver_nbits : l.ver_nbits ≡ 32
  pub val_mask : l.val_mask ≡ 2 ^ 32 - 1
  pub ver_mask : l.ver_mask ≡ (2 ^ 32 - 1) * 2 ^ 32

pub nbb_list_create-Halves : (heap : ℕ → ℕ) (length : ℕ) → Halves (nbb_list_create heap length 32)
unfolding nbb_list_create sub_word
nbb_list_create-Halves heap length = record {
  val_nbits = refl;
  ver_nbits = refl;
  val_mask = refl;
  ver_mask = refl;
}

pub nbb_list_mask-pack :
    (l : NbbList) (ver val : ℕ)
    → Halves l
    → ver < 2 ^ 32
    → val < 2 ^ 32
    → nbb_list_mask l ver val ≡ pack ver val
unfolding nbb_list_mask
nbb_list_mask-pack l ver val h a b =
    rw (h.val_nbits, h.ver_nbits)
      (let high : ver * 2 ^ 32 % 2 ^ 64 ≡ ver * 2 ^ 32 = omega (arith, a) in
        let low : val * 2 ^ 32 % 2 ^ 64 / 2 ^ 32 ≡ val = omega (arith, b) in
        rw (high, low) (bit_or-shifted 32 ver val b))

pub nbb_list_val-pack :
    (l : NbbList) (ver val : ℕ) → Halves l → val < 2 ^ 32 → nbb_list_val l (pack ver val) ≡ val
unfolding nbb_list_val
nbb_list_val-pack l ver val h b =
    rw h.val_mask (bit_and-ones 32 (ver * 2 ^ 32 + val) ∙ omega (arith, b))

pub nbb_list_ver-pack :
    (l : NbbList) (ver val : ℕ)
    → Halves l
    → ver < 2 ^ 32
    → val < 2 ^ 32
    → nbb_list_ver l (pack ver val) ≡ ver
unfolding nbb_list_ver
nbb_list_ver-pack l ver val h a b =
    rw (h.ver_mask, h.val_nbits)
      (let above : (ver * 2 ^ 32 + val) / 2 ^ 32 ≡ ver = omega (arith, b) in
        let whole : bit_and ver (2 ^ 32 - 1) ≡ ver = bit_and-ones 32 ver ∙ omega (arith, a) in
        rw (bit_and-shifted 32 (ver * 2 ^ 32 + val) (2 ^ 32 - 1), above, whole) (omega arith))

pub add_word-fits : (a : ℕ) → a + 1 < 2 ^ 64 → add_word a 1 ≡ a + 1
unfolding add_word
add_word-fits a lt = omega (arith, lt)
