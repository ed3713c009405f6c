-- ===== src/Api.antt =====
-- The other calls of an application in tinySTM/src/stm.c: stm_start, stm_abort, the queries, and
-- stm_set_extension.
pub mod Nesting
use tiny_stm_reval.Prelude.{
  ℕ, ◌+◌, bit_or, Bool, true, false, Option, none, some, ◌++◌, ltb, ◌==◌, if◌then◌else◌,
}
use tiny_stm_reval.Machine.{Env}
use tiny_stm_reval.Descriptor.{
  Status, Attr, State, Exit, returned, jumped, exited, spinning, is_active,
}
use tiny_stm_reval.Restart.{stm_prepare, stm_rollback}

-- Whether the attributes ask for a read-only transaction.
unfoldable pub asks_read_only : Option Attr → Bool
asks_read_only none = false
asks_read_only (some a) = a.read_only

-- The end of stm_start: the callbacks, and the address of `env` for sigsetjmp.
unfoldable pub finish_start : Env → Exit (Unit {0}) × State → Exit Bool × State
finish_start env (returned _, s) =
    (returned true, record s { calls = s.calls ++ env.callbacks.on_start })
finish_start env (jumped r, s) = (jumped r, s)
finish_start env (exited, s) = (exited, s)
finish_start env (spinning, s) = (spinning, s)

-- stm_start: `false` stands for the NULL of a nested start.
unfoldable pub stm_start : Env → Option Attr → State → Exit Bool × State
stm_start env attr s =
    let tx = s.tx in
    if ltb 0 tx.nesting
    then (returned false, record s { tx = record tx { nesting = tx.nesting + 1 } })
    else finish_start env (
        stm_prepare env (record s {
          tx = record tx { nesting = tx.nesting + 1; attr = attr; ro = asks_read_only attr };
        }))

-- `reason | STM_ABORT_EXPLICIT`
unfoldable pub stm_abort : Env → ℕ → State → Exit (Unit {0}) × State
stm_abort env reason s = stm_rollback env (bit_or reason 0x10) s

unfoldable pub stm_active : State → Bool
stm_active s = is_active s.tx.status

unfoldable pub is_aborted : Status → Bool
is_aborted Status.aborted = true
is_aborted _ = false

unfoldable pub stm_aborted : State → Bool
stm_aborted s = is_aborted s.tx.status

-- stm_get_env: `true` stands for `&tx->env`
unfoldable pub stm_get_env : State → Bool
stm_get_env s = s.tx.nesting == 0

unfoldable pub stm_get_attributes : State → Option Attr
stm_get_attributes s = s.tx.attr

-- stm_set_extension: `none` stands for a NULL time stamp
unfoldable pub stm_set_extension : Bool → Option ℕ → State → State
stm_set_extension enable none s =
    let tx = s.tx in record s { tx = record tx { can_extend = enable } }
stm_set_extension enable (some t) s =
    let tx = s.tx in
    record s { tx = record tx { can_extend = enable; end_ = if ltb t tx.end_ then t else tx.end_ } }
