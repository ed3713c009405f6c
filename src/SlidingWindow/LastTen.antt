-- ===== src/SlidingWindow/LastTen.antt =====
-- A window sums the last ten samples (tinySTM/include/sliding-window.h).
use tiny_stm_reval.Prelude.{
  ℕ, zero, suc, ◌+◌, ◌-◌, ◌%◌, ◌^◌, ◌<◌, ◌≡◌, refl, sym, ap, ◌∙◌, ◌≢◌, ◌⊎◌, inl, inr, Bool, true,
  false, ◌||◌, List, [], ◌∷◌, arith, leb, ◌==◌, if◌then◌else◌, Bool-cases, length, All,
}
use mathlib.Core.Path.{ap₂}
use tiny_stm_reval.Word.{add_word, sub_word}
use tiny_stm_reval.SlidingWindow.{
  Block, Window, Double, put_block, update_window, cleared, win_s_get_mean_u,
}

-- The window after a sequence of samples, the newest first.
unfoldable pub after : {F : Type 0} → F → List ℕ → Window ℕ F
after z [] = cleared z
after z (x ∷ xs) = update_window add_word sub_word z (after z xs) x

-- The sample `i` steps back, 0 before the first.
abbrev pub back : List ℕ → ℕ → ℕ
back [] i = 0
back (x ∷ xs) zero = x
back (x ∷ xs) (suc i) = back xs i

abbrev pub last_ten : List ℕ → ℕ
last_ten xs =
    back xs 0
    + back xs 1
    + back xs 2
    + back xs 3
    + back xs 4
    + back xs 5
    + back xs 6
    + back xs 7
    + back xs 8
    + back xs 9

record Holds {F : Type 0} (xs : List ℕ) (w : Window ℕ F) : Type 0 where
  at : w.position ≡ length xs % 10
  full : w.filled ≡ leb 10 (length xs)
  values : (i : ℕ) → i < 10 → (w.window ((w.position + 10 - i) % 10)).value ≡ back xs i
  summed : (w.window w.position).sum ≡ last_ten xs % 2 ^ 64

back_fits : (xs : List ℕ) (i : ℕ) → All (λ x. x < 2 ^ 64) xs → back xs i < 2 ^ 64
back_fits [] i fits = omega arith
back_fits (x ∷ xs) zero fits = fits.0
back_fits (x ∷ xs) (suc i) fits = back_fits xs i fits.1

back_nil : (i : ℕ) → back [] i ≡ 0
back_nil zero = refl
back_nil (suc i) = refl

slide :
    (s o x t r : ℕ)
    → o < 2 ^ 64
    → s ≡ t % 2 ^ 64
    → t ≡ r + o
    → add_word (sub_word s o) x ≡ (x + r) % 2 ^ 64
unfolding add_word sub_word
slide s o x t r fits e h = omega (arith, fits, e, h)

filled_lem :
    (f : Bool) (p n : ℕ) → f ≡ leb 10 n → p ≡ n % 10 → (f || (p + 1) % 10 == 0) ≡ leb 10 (suc n)
filled_lem f p n h e = elim (Bool-cases (leb 10 n)) [
  | inl many ↦ rw (h, many) (ground (arith, many))
  | inr few ↦ rw (h, few) (few_samples few (Bool-cases ((p + 1) % 10 == 0)))
]
  where
    few_samples :
        leb 10 n ≡ false
        → (((p + 1) % 10 == 0) ≡ true) ⊎ (((p + 1) % 10 == 0) ≡ false)
        → ((p + 1) % 10 == 0) ≡ leb 10 (suc n)
    few_samples few c = ground (arith, e, few)

put_block_here : (f : ℕ → Block ℕ) (i j : ℕ) (b : Block ℕ) → i ≡ j → put_block f i b j ≡ b
put_block_here f i j b e = ground (arith, e)

put_block_away : (f : ℕ → Block ℕ) (i j : ℕ) (b : Block ℕ) → i ≢ j → put_block f i b j ≡ f j
put_block_away f i j b e = ground (arith, e)

update_window-Holds :
    {F : Type 0} (z : F) (xs : List ℕ) (w : Window ℕ F) (x : ℕ)
    → All (λ x. x < 2 ^ 64) xs
    → Holds xs w
    → Holds (x ∷ xs) (update_window add_word sub_word z w x)
unfolding update_window
update_window-Holds z xs w x fits h = record {
  at = omega (arith, h.at);
  full = filled_lem w.filled w.position (length xs) h.full h.at;
  values = values;
  summed =
      ap (λ (b : Block ℕ). b.sum) (put_block_here w.window new new b refl)
      ∙ ap (λ o. add_word (sub_word (w.window w.position).sum o) x) oldest
      ∙ slide (w.window w.position).sum (back xs 9) x (last_ten xs) (last_ten (x ∷ xs) - x)
          (back_fits xs 9 fits) h.summed (omega arith)
      ∙ ap (λ n. n % 2 ^ 64) (omega arith);
}
  where
    new : ℕ
    new = (w.position + 1) % 10

    b : Block ℕ
    b = record {
      value = x;
      sum = add_word (sub_word (w.window w.position).sum (w.window new).value) x;
    }

    oldest : (w.window new).value ≡ back xs 9
    oldest =
        let e : (w.position + 10 - 9) % 10 ≡ (w.position + 1) % 10 = omega arith in
        ap (λ k. (w.window k).value) (sym e) ∙ h.values 9 (omega arith)

    values :
        (i : ℕ) → i < 10 → (put_block w.window new b ((new + 10 - i) % 10)).value ≡ back (x ∷ xs) i
    values zero lt =
        ap (λ (c : Block ℕ). c.value)
          (put_block_here w.window new ((new + 10 - 0) % 10) b (omega arith))
    values (suc i) lt =
        let low : w.position < 10 = omega (arith, h.at) in
        let apart : new ≢ (new + 10 - suc i) % 10 = omega (arith, lt, low) in
        let shift : (new + 10 - suc i) % 10 ≡ (w.position + 10 - i) % 10 = omega (arith, lt, low) in
        ap (λ (c : Block ℕ). c.value)
          (put_block_away w.window new ((new + 10 - suc i) % 10) b apart)
        ∙ ap (λ k. (w.window k).value) shift
        ∙ h.values i (omega (arith, lt))

after-Holds : {F : Type 0} (z : F) (xs : List ℕ) → All (λ x. x < 2 ^ 64) xs → Holds xs (after z xs)
unfolding after cleared
after-Holds z [] fits = record {
  at = omega arith;
  full = ground arith;
  values = λ i lt. sym (back_nil i);
  summed = omega arith;
}
after-Holds z (x ∷ xs) fits =
    update_window-Holds z xs (after z xs) x fits.1 (after-Holds z xs fits.1)

module _ (d : Double) where
  open d use {F, zero_double, is_zero, of_word, divide}

  mean_anew :
      (w : Window ℕ F)
      → is_zero w.mean ≡ true
      → (win_s_get_mean_u d w).0
        ≡ divide (of_word (w.window w.position).sum) (of_word (if w.filled then 10 else w.position))
  unfolding win_s_get_mean_u
  mean_anew w fresh = rw (win_s_get_mean_u, fresh) refl

  mean_kept : (w : Window ℕ F) → is_zero w.mean ≡ false → win_s_get_mean_u d w ≡ (w.mean, w)
  unfolding win_s_get_mean_u
  mean_kept w e = rw e refl

  abbrev mean_of : Window ℕ F → F
  mean_of w =
      divide (of_word (w.window w.position).sum) (of_word (if w.filled then 10 else w.position))

  mean_made :
      (w : Window ℕ F)
      → is_zero w.mean ≡ true
      → win_s_get_mean_u d w ≡ (mean_of w, record w { mean = mean_of w })
  unfolding win_s_get_mean_u
  mean_made w e = rw e refl

  mean_again :
      (w : Window ℕ F) → (win_s_get_mean_u d (win_s_get_mean_u d w).1).0 ≡ (win_s_get_mean_u d w).0
  mean_again w = elim (Bool-cases (is_zero w.mean)) [
    | inr e ↦ rw (mean_kept w e, mean_kept w e) refl
    | inl e ↦ rw (mean_made w e) (elim (Bool-cases (is_zero (mean_of w))) [
      | inl z ↦ rw (mean_made (record w { mean = mean_of w }) z) refl
      | inr z ↦ rw (mean_kept (record w { mean = mean_of w }) z) refl
    ])
  ]

  mean-after_zero : (xs : List ℕ) → (after zero_double xs).mean ≡ zero_double
  unfolding after cleared update_window
  mean-after_zero [] = refl
  mean-after_zero (x ∷ xs) = refl

  -- After any samples, winS_getMeanU divides the sum of the last ten of them, modulo 2 ^ 64, by
  -- their number, which is 10 or less if there were fewer, and a second call gives the same mean.
  -- The samples are 64-bit words, and the double 0.0 is taken for a mean to be computed anew.
  pub mean_of_last_ten :
      (xs : List ℕ)
      → All (λ x. x < 2 ^ 64) xs
      → is_zero zero_double ≡ true
      → ((win_s_get_mean_u d (after zero_double xs)).0
          ≡ divide
              (of_word (last_ten xs % 2 ^ 64))
              (of_word (if leb 10 (length xs) then 10 else length xs)))
        × ((win_s_get_mean_u d (win_s_get_mean_u d (after zero_double xs)).1).0
            ≡ (win_s_get_mean_u d (after zero_double xs)).0)
  mean_of_last_ten xs fits zero_is =
      let w = after zero_double xs in
      let h = after-Holds zero_double xs fits in
      let few : (if w.filled then 10 else w.position)
          ≡ (if leb 10 (length xs) then 10 else length xs) =
        rw h.full (counted (leb 10 (length xs)) refl h.at) in
      (
        mean_anew w (ap is_zero (mean-after_zero xs) ∙ zero_is)
            ∙ ap₂ divide (ap of_word h.summed) (ap of_word few),
        mean_again w,
      )
    where
      counted :
          (b : Bool)
          → leb 10 (length xs) ≡ b
          → (after zero_double xs).position ≡ length xs % 10
          → (if b then 10 else (after zero_double xs).position) ≡ (if b then 10 else length xs)
      counted true many at = refl
      counted false few at = ground (arith, few, at)
