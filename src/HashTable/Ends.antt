-- ===== src/HashTable/Ends.antt =====
-- The loop of mb_calculate ends, within the period (tinySTM/src/mb-hash-table.c).
use tiny_stm_reval.Prelude.{
  ℕ, zero, suc, ◌+◌, ◌*◌, ◌/◌, ◌^◌, ◌≤◌, ◌<◌, ◌≡◌, refl, Bool, true, false, not, ◌&&◌, ◌||◌, some,
  arith, leb, if_both,
}
use tiny_stm_reval.Word.{add_word, sub_word}
use tiny_stm_reval.HashTable.{
  Float64, Data, Search, fabs, d_cost, improve, move, search, search_start, finish, mb_calculate,
  binsearch_ths,
}

-- 2 ^ n
power : ℕ → ℕ
power zero = 1
power (suc n) = 2 * power n

-- A search that has not left the period, and does not leave it in the next rounds.
record Inside {F : Type 0} (tv : ℕ) (st : Search F) : Type 0 where
  left : st.t_log2 ≤ st.t_eval
  right : st.t_eval + st.t_log2 ≤ tv
  least : st.t_d_cost_min ≤ tv

or_true : (a b : Bool) → b ≡ true → (a || b) ≡ true
or_true true b e = refl
or_true false b e = e

power_63 : power 63 ≡ 2 ^ 63
unfolding power
power_63 = refl

module _ (d : Float64) where
  open d use {F, of_word, less, max_double}

  improve-Inside :
      (tv : ℕ) (ur acc : F) (st : Search F) → Inside tv st → Inside tv (improve d tv ur acc st)
  unfolding improve
  improve-Inside tv ur acc st i =
      let c = d_cost d tv ur acc st.t_eval in
      if_both (less (fabs d c) (fabs d st.d_cost_min)) (Inside tv)
        (record { left = i.left; right = i.right; least = omega (arith, i.right) }) i

  improve-t_log2 :
      (tv : ℕ) (ur acc : F) (st : Search F) → (improve d tv ur acc st).t_log2 ≡ st.t_log2
  unfolding improve
  improve-t_log2 tv ur acc st =
      if_both (less (fabs d (d_cost d tv ur acc st.t_eval)) (fabs d st.d_cost_min))
        (λ (x : Search F). x.t_log2 ≡ st.t_log2) refl refl

  -- Half a step to the right, to the left or none.
  moved-Inside :
      (tv t : ℕ) (st : Search F)
      → Inside tv st
      → (t ≤ st.t_eval + st.t_log2 / 2)
      → (st.t_eval ≤ t + st.t_log2 / 2)
      → Inside tv (record st { t_log2 = st.t_log2 / 2; t_eval = t })
  moved-Inside tv t st i up down = record {
    left = omega (arith, i.left, down);
    right = omega (arith, i.right, up);
    least = i.least;
  }

  move-Inside :
      (tv : ℕ) (c : F) (st : Search F) → tv < 2 ^ 64 → Inside tv st → Inside tv (move d c st)
  unfolding move add_word sub_word
  move-Inside tv c st fits i =
      let l = st.t_log2 / 2 in
      if_both (less (of_word 0) c) (λ t. Inside tv (record st { t_log2 = l; t_eval = t }))
        (moved-Inside tv (add_word st.t_eval l) st i (omega (arith, i.right, fits))
          (omega (arith, i.right, fits)))
        (if_both (less c (of_word 0)) (λ t. Inside tv (record st { t_log2 = l; t_eval = t }))
          (moved-Inside tv (sub_word st.t_eval l) st i (omega (arith, i.left, i.right, fits))
            (omega (arith, i.left, i.right, fits)))
          (moved-Inside tv st.t_eval st i (omega arith) (omega arith)))

  search-Inside :
      (n tv : ℕ) (ur acc : F) (st : Search F)
      → tv < 2 ^ 64
      → st.t_log2 < power n
      → Inside tv st
      → (st' : Search F) × (search d (suc n) tv ur acc st ≡ some st') × Inside tv st'
  unfolding search power move
  search-Inside zero tv ur acc st fits lt i =
      let c = d_cost d tv ur acc st.t_eval in
      let st' = move d c (improve d tv ur acc st) in
      let i' = move-Inside tv c (improve d tv ur acc st) fits (improve-Inside tv ur acc st i) in
      let small : leb st'.t_log2 binsearch_ths ≡ true =
        ground (arith, improve-t_log2 tv ur acc st, lt) in
      let last =
        or_true (not (less (of_word 0) c) && not (less c (of_word 0)))
          (leb st'.t_log2 binsearch_ths) small in
      (st', rw (search, last) refl, i')
  search-Inside (suc n) tv ur acc st fits lt i =
      let c = d_cost d tv ur acc st.t_eval in
      let st' = move d c (improve d tv ur acc st) in
      let i' = move-Inside tv c (improve d tv ur acc st) fits (improve-Inside tv ur acc st i) in
      let half : st'.t_log2 < power n = omega (arith, improve-t_log2 tv ur acc st, lt) in
      let (end', ran, inside) = search-Inside n tv ur acc st' fits half i' in
      if_both
        ((not (less (of_word 0) c) && not (less c (of_word 0))) || leb st'.t_log2 binsearch_ths)
        (λ o. (x : Search F) × (o ≡ some x) × Inside tv x) (st', refl, i') (end', ran, inside)

-- For every period of 64 bits and all rates, mb_calculate ends within 64 rounds of its loop, and the
-- time that it finds lies in the period. The block carries the arguments.
pub mb_calculate_ends :
    (d : Float64) (tv : ℕ) (ur acc : d.F)
    → tv < 2 ^ 64
    → (x : Data d.F) × (mb_calculate d tv ur acc ≡ some x)
      × (x.t_validation ≡ tv)
      × (x.u_rate ≡ ur)
      × (x.a_read ≡ acc)
      × (x.t_opt ≤ tv)
unfolding mb_calculate finish search_start
mb_calculate_ends d tv ur acc fits =
    let start : (search_start d tv).t_log2 < power 63 = rw power_63 (omega (arith, fits)) in
    let (st, ran, inside) =
      search-Inside d 63 tv ur acc (search_start d tv) fits start
        (record { left = omega arith; right = omega arith; least = omega arith }) in
    (finish d tv ur acc st, rw (mb_calculate, ran) refl, refl, refl, refl, inside.least)
