-- ===== src/SlidingWindow.antt =====
-- The windows over the last samples of tinySTM/include/sliding-window.h, with S_WINDOW_SIZE 10. The
-- numbers are either 64-bit words (U) or doubles (D): the update is written over a type with its
-- addition and subtraction, and doubles are a parameter.
pub mod LastTen
use tiny_stm_reval.Prelude.{ℕ, ◌+◌, ◌%◌, Bool, false, ◌||◌, Option, none, some, ◌==◌, if◌then◌else◌}
use tiny_stm_reval.Word.{add_word, sub_word}

abbrev pub s_window_size : ℕ
s_window_size = 10

-- `win_block_t`
pub record Block (A : Type 0) : Type 0 where
  pub value : A
  pub sum : A

-- `window_t`; `mean` is a double, and 0.0 when it has to be computed anew.
pub record Window (A F : Type 0) : Type 0 where
  pub mean : F
  pub filled : Bool
  pub position : ℕ
  pub window : ℕ → Block A

-- What the windows use of doubles.
pub record Double : Type 1 where
  pub F : Type 0
  pub zero_double : F
  pub is_zero : F → Bool
  pub of_word : ℕ → F
  pub divide : F → F → F

abbrev pub put_block : {A : Type 0} → (ℕ → Block A) → ℕ → Block A → ℕ → Block A
put_block f i b j = if i == j then b else f j

-- winS_updateU and winS_updateD for one window.
unfoldable pub update_window :
    {A F : Type 0} (add sub : A → A → A) → F → Window A F → A → Window A F
update_window add sub zero_double w sample =
    let new_position = (w.position + 1) % s_window_size in
    let last = (w.window w.position).sum in
    let oldest = (w.window new_position).value in
    record {
      mean = zero_double;
      filled = w.filled || new_position == 0;
      position = new_position;
      window =
          put_block w.window new_position
            (record { value = sample; sum = add (sub last oldest) sample });
    }

-- winS_updateU: the status, and the array of windows (`none` for NULL).
unfoldable pub win_s_update_u :
    {F : Type 0} → F → Option (ℕ → Window ℕ F) → ℕ → ℕ → ℕ × Option (ℕ → Window ℕ F)
win_s_update_u zero_double none n sample = (1, none)
win_s_update_u zero_double (some win) n sample = (
  0,
  some (λ k. if k == n then update_window add_word sub_word zero_double (win n) sample else win k),
)

-- What calloc gives for a window of words.
unfoldable pub cleared : {F : Type 0} → F → Window ℕ F
cleared zero_double = record {
  mean = zero_double;
  filled = false;
  position = 0;
  window = λ _. record { value = 0; sum = 0 };
}

module _ (d : Double) where
  open d use {F, zero_double, is_zero, of_word, divide}

  -- winS_getMeanU for one window: the mean, and the window that remembers it.
  unfoldable pub win_s_get_mean_u : Window ℕ F → F × Window ℕ F
  win_s_get_mean_u w =
      let count = if w.filled then s_window_size else w.position in
      let mean = divide (of_word (w.window w.position).sum) (of_word count) in
      if is_zero w.mean then (mean, record w { mean = mean }) else (w.mean, w)
