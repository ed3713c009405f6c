-- ===== src/Tests/SlidingWindow.antt =====
-- A window of twelve samples, with the natural numbers in the place of doubles.
use tiny_stm_reval.Prelude.{
  ℕ, ◌/◌, ◌%◌, ◌^◌, ◌<◌, ◌≡◌, refl, List, [], ◌∷◌, arith, leb, ◌==◌, if◌then◌else◌, length, All,
}
use tiny_stm_reval.SlidingWindow.{Double, win_s_get_mean_u}
use tiny_stm_reval.SlidingWindow.LastTen.{after, last_ten, mean_of_last_ten}

abbrev whole : Double
whole = record {
  F = ℕ;
  zero_double = 0;
  is_zero = λ n. n == 0;
  of_word = λ n. n;
  divide = λ m n. m / n;
}

abbrev samples : List ℕ
samples = 12 ∷ 11 ∷ 10 ∷ 9 ∷ 8 ∷ 7 ∷ 6 ∷ 5 ∷ 4 ∷ 3 ∷ 2 ∷ 1 ∷ []

samples_fit : All (λ x. x < 2 ^ 64) samples
samples_fit = (
  omega arith,
  (
    omega arith,
    (
      omega arith,
      (
        omega arith,
        (
          omega arith,
          (
            omega arith,
            (
              omega arith,
              (omega arith, (omega arith, (omega arith, (omega arith, (omega arith, tt))))),
            ),
          ),
        ),
      ),
    ),
  ),
)

mean_of_last_ten_example :
    ((win_s_get_mean_u whole (after 0 samples)).0
      ≡ last_ten samples % 2 ^ 64 / (if leb 10 (length samples) then 10 else length samples))
    × ((win_s_get_mean_u whole (win_s_get_mean_u whole (after 0 samples)).1).0
        ≡ (win_s_get_mean_u whole (after 0 samples)).0)
mean_of_last_ten_example = mean_of_last_ten whole samples samples_fit refl
