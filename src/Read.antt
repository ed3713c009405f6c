-- ===== src/Read.antt =====
-- stm_read_invisible and stm_load of tinySTM/src/stm.c.
pub mod Bounds
pub mod Frame
pub mod Alone
use tiny_stm_reval.Prelude.{
  ℕ, zero, suc, Bool, true, false, not, ◌||◌, Option, none, some, ltb, ◌==◌, if◌then◌else◌,
}
use tiny_stm_reval.Word.{word_max, get_owned, get_timestamp, lock_idx, merge, add_word}
use tiny_stm_reval.Machine.{Env, tick}
use tiny_stm_reval.Descriptor.{WriteEntry, State, Exit, returned, exited, spinning}
use tiny_stm_reval.Sets.{has_written, add_read}
use tiny_stm_reval.Validate.{stm_extend}
use tiny_stm_reval.Restart.{stm_rollback, after_rollback}

-- STM_ABORT_VAL_READ
abbrev pub abort_val_read : ℕ
abort_val_read = 0x520

-- How one pass over lock, value, lock ends: `goto restart` or `goto restart_no_load` with the lock
-- word then at hand, a value with its version, or no valid version.
pub data Attempt : Type 0 where
  again : ℕ → State → Attempt
  accept : (value version : ℕ) → State → Attempt
  refuse : State → Attempt

-- `restart`: the lock is loaded afresh.
unfoldable pub reload : Env → ℕ → State → Attempt
reload env addr s =
    let w = tick env s.world in again (w.shared.lock (lock_idx addr)) (record s { world = w })

-- After the extension: was the version overwritten in the meantime? Then the pass is made again with
-- the word `l2` from before the extension, which is `l`.
unfoldable pub recheck : Env → ℕ → ℕ → ℕ → Bool × State → Attempt
recheck env addr value l (false, s) = refuse s
recheck env addr value l (true, s) =
    let w = tick env s.world in
    let s' = record s { world = w } in
    if w.shared.lock (lock_idx addr) == l then accept value (get_timestamp l) s' else again l s'

-- `version > tx->end`: the snapshot is extended, where that is allowed.
unfoldable pub try_extend : Env → ℕ → ℕ → ℕ → State → Attempt
try_extend env addr value l s =
    if s.tx.ro || not s.tx.can_extend then refuse s else recheck env addr value l (stm_extend env s)

-- One pass, with the lock word `l` at hand.
unfoldable pub read_attempt : Env → ℕ → ℕ → State → Attempt
read_attempt env addr l s =
    if get_owned l
    then reload env addr s
    else let w₁ = tick env s.world in
      let value = w₁.shared.mem addr in
      let w₂ = tick env w₁ in
      let s' = record s { world = w₂ } in
      let l₂ = w₂.shared.lock (lock_idx addr) in
      if l == l₂
      then if ltb s.tx.end_ (get_timestamp l)
        then try_extend env addr value l s'
        else accept value (get_timestamp l) s'
      else again l₂ s'

unfoldable pub read_loop : Env → ℕ → ℕ → ℕ → State → Option Attempt
read_loop env zero addr l s = none
read_loop env (suc n) addr l s = elim (read_attempt env addr l s) [
  | again l' s' ↦ read_loop env n addr l' s'
  | accept value version s' ↦ some (accept value version s')
  | refuse s' ↦ some (refuse s')
]

-- The bytes that this transaction has written itself are taken from its write set.
unfoldable pub overlay : Option WriteEntry → ℕ → ℕ
overlay none value = value
overlay (some e) value = merge e.mask value e.value

-- A value with a valid version: update transactions remember what they have read. The first
-- argument is `tx->ro`.
unfoldable pub finish_accept :
    Env → ℕ → Option WriteEntry → (value version : ℕ) → State → Bool → Exit ℕ × State
finish_accept env addr written value version s true = (returned (overlay written value), s)
finish_accept env addr written value version s false =
    let tx = s.tx in
    elim (add_read env (record { version = version; lock = lock_idx addr }) tx.r_set) [
      | none ↦ (exited, s)
      | some rs ↦ (returned (overlay written value), record s { tx = record tx { r_set = rs } })
    ]

-- The end of stm_read_invisible.
unfoldable pub finish_read : Env → ℕ → Option WriteEntry → State → Option Attempt → Exit ℕ × State
finish_read env addr written s none = (spinning, s)
finish_read env addr written s (some (again l s')) = (spinning, s')
finish_read env addr written s (some (refuse s')) =
    let tx = s'.tx in
    let st = tx.stats in
    after_rollback 0 (
      stm_rollback env abort_val_read (record s' {
        tx = record tx {
          stats = record st { aborts_validate_read = add_word st.aborts_validate_read 1 };
        };
      }))
finish_read env addr written s (some (accept value version s')) =
    finish_accept env addr written value version s' s'.tx.ro

-- The value of a word that was written whole.
unfoldable pub written_whole : Option WriteEntry → Option ℕ
written_whole none = none
written_whole (some e) = if e.mask == word_max then some e.value else none

unfoldable pub stm_load : Env → ℕ → State → Exit ℕ × State
stm_load env addr s =
    let written = has_written s.tx.w_set.entries addr in
    elim (written_whole written) [
      | some value ↦ (returned value, s)
      | none ↦
          let w = tick env s.world in
          let s' = record s { world = w } in
          finish_read env addr written s'
            (read_loop env env.spins addr (w.shared.lock (lock_idx addr)) s')
    ]
