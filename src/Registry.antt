-- ===== src/Registry.antt =====
-- The callbacks and the specific slots of tinySTM/src/stm.c: stm_register, stm_create_specific,
-- stm_set_specific and stm_get_specific.
pub mod Bounds
use tiny_stm_reval.Prelude.{
  [], ℕ, suc, Bool, true, false, ◌||◌, Option, none, some, List, ◌∷◌, ◌++◌, ltb, leb, ◌==◌,
  if◌then◌else◌, length,
}
use tiny_stm_reval.Machine.{Callback, Callbacks}

-- MAX_CB and MAX_SPECIFIC
abbrev pub max_cb : ℕ
max_cb = 16

abbrev pub max_specific : ℕ
max_specific = 16

-- Whether a callback is given and its table has no room.
unfoldable pub no_room : Option ℕ → List Callback → Bool
no_room none table = false
no_room (some f) table = leb max_cb (length table)

unfoldable pub add_callback : Option ℕ → ℕ → List Callback → List Callback
add_callback none arg table = table
add_callback (some f) arg table = table ++ ((f, arg) ∷ [])

-- The five functions that a module hands over, `none` for NULL.
pub record Hooks : Type 0 where
  pub init : Option ℕ
  pub exit : Option ℕ
  pub start : Option ℕ
  pub commit : Option ℕ
  pub abort : Option ℕ

unfoldable pub stm_register : Hooks → ℕ → Callbacks → Bool × Callbacks
stm_register h arg t =
    if no_room h.init t.on_init
      || no_room h.exit t.on_exit
      || no_room h.start t.on_start
      || no_room h.commit t.on_commit
      || no_room h.abort t.on_abort
    then (false, t)
    else (
      true,
      record {
        on_init = add_callback h.init arg t.on_init;
        on_exit = add_callback h.exit arg t.on_exit;
        on_start = add_callback h.start arg t.on_start;
        on_commit = add_callback h.commit arg t.on_commit;
        on_abort = add_callback h.abort arg t.on_abort;
      },
    )

-- stm_create_specific: the new slot (`none` for -1) and the number in use.
unfoldable pub stm_create_specific : ℕ → Option ℕ × ℕ
stm_create_specific nb = if leb max_specific nb then (none, nb) else (some nb, suc nb)

-- stm_set_specific and stm_get_specific, with their assertions: `none` where one fails.
unfoldable pub stm_set_specific : ℕ → ℕ → ℕ → (ℕ → ℕ) → Option (ℕ → ℕ)
stm_set_specific nb key value slots =
    if ltb key nb then some (λ k. if key == k then value else slots k) else none

unfoldable pub stm_get_specific : ℕ → ℕ → (ℕ → ℕ) → Option ℕ
stm_get_specific nb key slots = if ltb key nb then some (slots key) else none
