-- ===== src/Unit.antt =====
-- Unit transactions of tinySTM/src/stm.c: stm_unit_load, stm_unit_write, stm_unit_store and
-- stm_unit_store2.
pub mod Load
pub mod Alone
pub mod Store
use mathlib.Core.Option
use tiny_stm_reval.Prelude.{
  ℕ, zero, suc, Bool, true, false, Option, none, some, ltb, leb, ◌==◌, if◌then◌else◌,
}
use tiny_stm_reval.Word.{
  word_max, version_max, get_owned, get_timestamp, set_timestamp, lock_idx, lock_unit, add_word,
}
use tiny_stm_reval.Machine.{Env, World, tick, store_mem, store_lock, fetch_inc_clock, cas_lock}
use tiny_stm_reval.Restart.{quiesce_barrier}

-- How a pass over lock, value, lock ends: another round with the lock word at hand, or the value
-- and its version.
pub data UnitAttempt : Type 0 where
  retry : ℕ → World → UnitAttempt
  loaded : (value version : ℕ) → World → UnitAttempt

unfoldable pub unit_attempt : Env → ℕ → ℕ → World → UnitAttempt
unit_attempt env addr l w =
    if get_owned l
    then (let w' = tick env w in retry (w'.shared.lock (lock_idx addr)) w')
    else let w₁ = tick env w in
      let w₂ = tick env w₁ in
      let l₂ = w₂.shared.lock (lock_idx addr) in
      if l == l₂ then loaded (w₁.shared.mem addr) (get_timestamp l) w₂ else retry l₂ w₂

unfoldable pub unit_load_loop : Env → ℕ → ℕ → ℕ → World → Option (ℕ × ℕ × World)
unit_load_loop env zero addr l w = none
unit_load_loop env (suc n) addr l w = elim (unit_attempt env addr l w) [
  | retry l' w' ↦ unit_load_loop env n addr l' w'
  | loaded value version w' ↦ some (value, version, w')
]

-- stm_unit_load: the value, what `*timestamp` is set to if the pointer is given, and the world.
unfoldable pub stm_unit_load : Env → ℕ → World → Option (ℕ × ℕ × World)
stm_unit_load env addr w =
    let w' = tick env w in unit_load_loop env env.spins addr (w'.shared.lock (lock_idx addr)) w'

-- The end of stm_unit_write, once the lock is taken: the store, the new time, the release, and the
-- barrier when the clock has reached its bound.
unfoldable pub unit_install : Env → ℕ → ℕ → Option ℕ → World → Bool × Option ℕ × World
unit_install env addr value timestamp w =
    let w₁ = store_mem env addr value w in
    let (c, w₂) = fetch_inc_clock env w₁ in
    let t = add_word c 1 in
    let w₃ = store_lock env (lock_idx addr) (set_timestamp t) w₂ in
    (true, Option.map (λ _. t) timestamp, if leb version_max t then quiesce_barrier env w₃ else w₃)

-- `timestamp != NULL && LOCK_GET_TIMESTAMP(l) > *timestamp`
unfoldable pub is_newer : Option ℕ → ℕ → Bool
is_newer none version = false
is_newer (some t) version = ltb t version

-- stm_unit_write: whether the value was written, `*timestamp` (`none` for NULL), and the world.
-- The mask stands among the arguments, and is not read.
unfoldable pub unit_write_loop :
    Env → ℕ → ℕ → ℕ → ℕ → Option ℕ → World → Option (Bool × Option ℕ × World)
unit_write_loop env zero addr value mask timestamp w = none
unit_write_loop env (suc n) addr value mask timestamp w =
    let w₁ = tick env w in
    let l = w₁.shared.lock (lock_idx addr) in
    let wait = unit_write_loop env n addr value mask timestamp w₁ in
    let swap = cas_lock env (lock_idx addr) l lock_unit w₁ in
    let again = unit_write_loop env n addr value mask timestamp swap.1 in
    if get_owned l
    then wait
    else if is_newer timestamp (get_timestamp l)
    then some (false, some (get_timestamp l), w₁)
    else if swap.0
    then some (unit_install env addr value timestamp swap.1)
    else again

unfoldable pub stm_unit_write :
    Env → ℕ → ℕ → ℕ → Option ℕ → World → Option (Bool × Option ℕ × World)
stm_unit_write env addr value mask timestamp w =
    unit_write_loop env env.spins addr value mask timestamp w

unfoldable pub stm_unit_store : Env → ℕ → ℕ → Option ℕ → World → Option (Bool × Option ℕ × World)
stm_unit_store env addr value timestamp w = stm_unit_write env addr value word_max timestamp w

unfoldable pub stm_unit_store2 :
    Env → ℕ → ℕ → ℕ → Option ℕ → World → Option (Bool × Option ℕ × World)
stm_unit_store2 env addr value mask timestamp w = stm_unit_write env addr value mask timestamp w
