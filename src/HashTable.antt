-- ===== src/HashTable.antt =====
-- The table of revalidation times, tinySTM/src/mb-hash-table.c, with the definitions of
-- tinySTM/Makefile for MB=1 (MB_APPROX_PRECISION, 40 bits of the period, 20 bits behind the comma of
-- both rates, 9 bits of each for the index). Doubles are a parameter. A bucket is the sequence of
-- its blocks, and one thread runs; the pool of free blocks is not modelled.
pub mod Ends
pub mod Memo
use tiny_stm_reval.Prelude.{
  [], ℕ, zero, suc, ◌+◌, ◌-◌, ◌*◌, ◌/◌, ◌%◌, ◌^◌, Bool, not, ◌&&◌, ◌||◌, Option, none, some, List,
  ◌∷◌, leb, ◌==◌, if◌then◌else◌,
}
use tiny_stm_reval.Word.{add_word, sub_word}

-- What the table uses of doubles; `bits` and `of_bits` read a double as a word and back.
pub record Float64 : Type 1 where
  pub F : Type 0
  pub bits : F → ℕ
  pub of_bits : ℕ → F
  pub of_word : ℕ → F
  pub add : F → F → F
  pub sub : F → F → F
  pub mul : F → F → F
  pub div : F → F → F
  pub neg : F → F
  pub less : F → F → Bool
  pub same : F → F → Bool
  pub max_double : F

abbrev pub exp_taylor_dgr : ℕ
exp_taylor_dgr = 5

abbrev pub binsearch_ths : ℕ
binsearch_ths = 5000

abbrev pub ht_index_range : ℕ
ht_index_range = 2 ^ 9

abbrev pub hash_t_size : ℕ
hash_t_size = ht_index_range * ht_index_range * ht_index_range

-- `mb_data_t`, without the links.
pub record Data (F : Type 0) : Type 0 where
  pub t_validation : ℕ
  pub u_rate : F
  pub a_read : F
  pub t_opt : ℕ
  pub cost_opt : F
  pub d_cost_opt : F

-- The state of the loop of mb_calculate.
pub record Search (F : Type 0) : Type 0 where
  pub t_eval : ℕ
  pub t_log2 : ℕ
  pub t_d_cost_min : ℕ
  pub d_cost_min : F
  pub taylor_exp_min : F

-- The rounded bits of a double, `none` for an infinity or NaN. The shift is
-- 52 - (20 + (exponent - 1023)); where that is negative the subtraction stops at 0, which shifts as
-- little.
unfoldable pub round_double : ℕ → Option ℕ
round_double n =
    let exponent = n / 2 ^ 52 % 2 ^ 11 in
    let shift = 52 + 1023 - (20 + exponent) in
    if exponent == 0x7ff
    then none
    else if exponent == 0
    then some 0
    else if leb 52 shift
    then some 0
    else some (n / 2 ^ shift * 2 ^ shift)

-- `tv & TVAL_ROUND_MASK`
unfoldable pub round_tv : ℕ → ℕ
round_tv tv = tv / 2 ^ 24 * 2 ^ 24

unfoldable pub hash_t_idx : (tv ur acc : ℕ) → ℕ
hash_t_idx tv ur acc =
    tv / 2 ^ 24 % ht_index_range * (ht_index_range * ht_index_range)
    + ur % 2 ^ 52 / 2 ^ (52 - 9) * ht_index_range
    + acc % 2 ^ 52 / 2 ^ (52 - 9)

module _ (d : Float64) where
  open d use {F, bits, of_bits, of_word, add, sub, mul, div, neg, less, same, max_double}

  -- The terms of the Taylor sum from the `i`-th on, `n` of them.
  unfoldable pub taylor_terms : ℕ → ℕ → (freq_tm pow fact sum : F) → F
  taylor_terms zero i freq_tm pow fact sum = sum
  taylor_terms (suc n) i freq_tm pow fact sum =
      let pow' = mul pow freq_tm in
      let fact' = mul fact (of_word i) in
      taylor_terms n (suc i) freq_tm pow' fact' (add sum (div pow' fact'))

  unfoldable pub taylor : (ur acc : F) → ℕ → F
  taylor ur acc t_eval =
      let freq_tm = sub (mul ur (of_word t_eval)) acc in
      taylor_terms (exp_taylor_dgr - 1) 2 freq_tm freq_tm (of_word 1) (add (of_word 1) freq_tm)

  -- The derivative of the cost at `t_eval`.
  unfoldable pub d_cost : ℕ → (ur acc : F) → ℕ → F
  d_cost tv ur acc t_eval =
      add (of_word 1)
        (mul (taylor ur acc t_eval) (sub (mul (of_word (sub_word tv t_eval)) ur) (of_word 1)))

  unfoldable pub fabs : F → F
  fabs x = if less x (of_word 0) then neg x else x

  -- The minimum so far.
  unfoldable pub improve : ℕ → (ur acc : F) → Search F → Search F
  improve tv ur acc st =
      let c = d_cost tv ur acc st.t_eval in
      if less (fabs c) (fabs st.d_cost_min)
      then record st {
        d_cost_min = c;
        t_d_cost_min = st.t_eval;
        taylor_exp_min = taylor ur acc st.t_eval;
      }
      else st

  -- The next point: to the right, to the left, or the end at 0.
  unfoldable pub move : F → Search F → Search F
  move c st =
      let l = st.t_log2 / 2 in
      record st {
        t_log2 = l;
        t_eval =
            if less (of_word 0) c
            then add_word st.t_eval l
            else if less c (of_word 0)
            then sub_word st.t_eval l
            else st.t_eval;
      }

  -- The loop of mb_calculate, `n` rounds at most.
  unfoldable pub search : ℕ → ℕ → (ur acc : F) → Search F → Option (Search F)
  search zero tv ur acc st = none
  search (suc n) tv ur acc st =
      let c = d_cost tv ur acc st.t_eval in
      let st' = move c (improve tv ur acc st) in
      let rest = search n tv ur acc st' in
      let stop = not (less (of_word 0) c) && not (less c (of_word 0)) in
      if stop || leb st'.t_log2 binsearch_ths then some st' else rest

  unfoldable pub search_start : ℕ → Search F
  search_start tv = record {
    t_eval = tv / 2;
    t_log2 = tv / 2;
    t_d_cost_min = 0;
    d_cost_min = max_double;
    taylor_exp_min = max_double;
  }

  -- What mb_calculate writes into a block.
  unfoldable pub finish : ℕ → (ur acc : F) → Search F → Data F
  finish tv ur acc st = record {
    t_validation = tv;
    u_rate = ur;
    a_read = acc;
    t_opt = st.t_d_cost_min;
    cost_opt = mul (sub st.taylor_exp_min (of_word 1)) (of_word (sub_word tv st.t_d_cost_min));
    d_cost_opt = st.d_cost_min;
  }

  -- A new block of hashT_get, filled by mb_calculate; `none` if the loop does not end in 64 rounds.
  unfoldable pub mb_calculate : ℕ → (ur acc : F) → Option (Data F)
  mb_calculate tv ur acc = elim (search 64 tv ur acc (search_start tv)) [
    | none ↦ none
    | some st ↦ some (finish tv ur acc st)
  ]

  -- The look-up in a bucket.
  unfoldable pub find_data : ℕ → (ur acc : F) → List (Data F) → Option (Data F)
  find_data tv ur acc [] = none
  find_data tv ur acc (x ∷ xs) =
      let rest = find_data tv ur acc xs in
      if (tv == x.t_validation && same ur x.u_rate) && same acc x.a_read then some x else rest

  abbrev pub Table : Type 0
  Table = ℕ → List (Data F)

  -- hashT_get behind the rounding: whether the table had the block, the block, and the table.
  unfoldable pub look_up : ℕ → (ur acc : ℕ) → Table → Option (ℕ × Option (Data F) × Table)
  look_up tv ur acc table =
      let idx = hash_t_idx tv ur acc in
      let u = of_bits ur in
      let a = of_bits acc in
      elim (find_data tv u a (table idx)) [
        | some x ↦ some (1, some x, table)
        | none ↦ elim (mb_calculate tv u a) [
          | none ↦ none
          | some x ↦ some (0, some x, λ j. if idx == j then x ∷ table idx else table j)
        ]
      ]

  -- hashT_get: `*data_p` is not written for an infinity or NaN.
  unfoldable pub hash_t_get : ℕ → (ur acc : F) → Table → Option (ℕ × Option (Data F) × Table)
  hash_t_get tv ur acc table = elim (round_double (bits ur)) [
    | none ↦ some (0, none, table)
    | some m ↦ elim (round_double (bits acc)) [
      | none ↦ some (0, none, table)
      | some n ↦ look_up (round_tv tv) m n table
    ]
  ]
