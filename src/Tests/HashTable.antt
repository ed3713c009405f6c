-- ===== src/Tests/HashTable.antt =====
-- The table of revalidation times with words in the place of doubles.
use tiny_stm_reval.Prelude.{
  ℕ, ◌+◌, ◌-◌, ◌*◌, ◌/◌, ◌^◌, ◌≤◌, ◌≡◌, refl, some, List, [], arith, ltb, ◌==◌, ==_iff,
}
use tiny_stm_reval.HashTable.{Float64, Data, round_double, round_tv, mb_calculate, hash_t_get}
use tiny_stm_reval.HashTable.Ends.{mb_calculate_ends}
use tiny_stm_reval.HashTable.Memo.{Ieee, Calculated, hash_t_get_memo}

abbrev words : Float64
words = record {
  F = ℕ;
  bits = λ n. n;
  of_bits = λ n. n;
  of_word = λ n. n;
  add = λ a b. a + b;
  sub = λ a b. a - b;
  mul = λ a b. a * b;
  div = λ a b. a / b;
  neg = λ a. a;
  less = ltb;
  same = λ a b. a == b;
  max_double = 2 ^ 64;
}

words-Ieee : Ieee words
words-Ieee = record { same_iff = λ x y m n e f. ==_iff m n }

-- The pattern of 1.0.
abbrev one_pattern : ℕ
one_pattern = 1023 * 2 ^ 52

abbrev no_data : ℕ → List (Data ℕ)
no_data i = []

mb_calculate_ends_example :
    (x : Data ℕ) × (mb_calculate words (2 ^ 30) 3 0 ≡ some x)
    × (x.t_validation ≡ 2 ^ 30)
    × (x.u_rate ≡ 3)
    × (x.a_read ≡ 0)
    × (x.t_opt ≤ 2 ^ 30)
mb_calculate_ends_example = mb_calculate_ends words (2 ^ 30) 3 0 (omega arith)

hash_t_get_memo_example :
    (hit : ℕ) × (x : Data ℕ) × (table' : ℕ → List (Data ℕ)) × (hash_t_get words
        (2 ^ 30)
        one_pattern
        0
        no_data
      ≡ some (hit, some x, table'))
    × (mb_calculate words (round_tv (2 ^ 30)) one_pattern 0 ≡ some x)
    × Calculated words table'
    × (hash_t_get words (2 ^ 30) one_pattern 0 table' ≡ some (1, some x, table'))
unfolding round_double
hash_t_get_memo_example =
    hash_t_get_memo words (2 ^ 30) one_pattern 0 one_pattern 0 no_data words-Ieee (omega arith) refl
      refl (λ i. tt)
