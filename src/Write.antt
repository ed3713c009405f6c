-- ===== src/Write.antt =====
-- stm_write, stm_store and stm_store2 of tinySTM/src/stm.c (commit-time locking: a write only
-- records an entry).
pub mod Bounds
pub mod Lookup
pub mod Alone
pub mod RoundTrip
use tiny_stm_reval.Prelude.{
  ℕ, zero, suc, Bool, true, false, not, ◌&&◌, ◌||◌, Option, none, some, ltb, ◌==◌, if◌then◌else◌,
}
use tiny_stm_reval.Word.{word_max, get_owned, get_timestamp, lock_idx, add_word}
use tiny_stm_reval.Machine.{Env, World, tick}
use tiny_stm_reval.Descriptor.{Attr, WriteEntry, State, Exit, returned, exited, spinning}
use tiny_stm_reval.Sets.{has_read, has_written, merge_entry, update_written, add_write}
use tiny_stm_reval.Restart.{stm_rollback, after_rollback}

-- STM_ABORT_VAL_WRITE and STM_ABORT_RO_WRITE
abbrev pub abort_val_write : ℕ
abort_val_write = 0x620

abbrev pub abort_ro_write : ℕ
abort_ro_write = 0x820

-- `restart`: load the lock until it is free.
unfoldable pub await_unlocked : Env → ℕ → ℕ → World → Option (ℕ × World)
await_unlocked env zero j w = none
await_unlocked env (suc n) j w =
    let w' = tick env w in
    let rest = await_unlocked env n j w' in
    if get_owned (w'.shared.lock j) then rest else some (w'.shared.lock j, w')

-- `tx->attr->read_only = 0`
unfoldable pub clear_read_only : Option Attr → Option Attr
clear_read_only none = none
clear_read_only (some a) = some (record a { read_only = false })

-- A write of a read-only transaction.
unfoldable pub refuse_ro : Env → State → Exit (Option WriteEntry) × State
refuse_ro env s =
    let tx = s.tx in
    let st = tx.stats in
    after_rollback none (
      stm_rollback env abort_ro_write (record s {
        tx = record tx {
          attr = clear_read_only tx.attr;
          stats = record st { aborts_ro = add_word st.aborts_ro 1 };
        };
      }))

-- A write to a location that may have been read at an older version.
unfoldable pub refuse_write : Env → State → Exit (Option WriteEntry) × State
refuse_write env s =
    let tx = s.tx in
    let st = tx.stats in
    after_rollback none (
      stm_rollback env abort_val_write (record s {
        tx = record tx {
          stats = record st { aborts_validate_write = add_word st.aborts_validate_write 1 };
        };
      }))

unfoldable pub is_some : {A : Type 0} → Option A → Bool
is_some none = false
is_some (some a) = true

-- The new entry of the write set, in the place of an unused one with these fields `value` and
-- `version`: with NDEBUG `version` is not set, and `value` only when the mask is not 0.
unfoldable pub new_entry : ℕ → ℕ → ℕ → ℕ × ℕ → WriteEntry
new_entry addr value mask stale = record {
  addr = addr;
  value = if mask == 0 then stale.0 else value;
  mask = mask;
  version = stale.1;
  lock = lock_idx addr;
  no_drop = true;
}

unfoldable pub append_write : Env → WriteEntry → State → Exit (Option WriteEntry) × State
append_write env e s =
    let tx = s.tx in
    elim (add_write env e tx.w_set) [
      | none ↦ (exited, s)
      | some ws ↦ (returned (some e), record s { tx = record tx { w_set = ws } })
    ]

-- stm_write once the lock is free and holds `l`.
unfoldable pub write_unlocked : Env → ℕ → ℕ → ℕ → ℕ → State → Exit (Option WriteEntry) × State
write_unlocked env addr value mask l s =
    let tx = s.tx in
    let ws = tx.w_set in
    elim (has_written ws.entries addr) [
      | some e ↦ (
        returned (some (merge_entry value mask e)),
        record s {
          tx = record tx {
            w_set = record ws { entries = update_written (merge_entry value mask) ws.entries addr };
          };
        },
      )
      | none ↦
          if ltb tx.end_ (get_timestamp l)
            && (not tx.can_extend || is_some (has_read tx.r_set.entries (lock_idx addr)))
          then refuse_write env s
          else append_write env (new_entry addr value mask (env.stale s.world.now)) s
    ]

unfoldable pub stm_write : Env → ℕ → ℕ → ℕ → State → Exit (Option WriteEntry) × State
stm_write env addr value mask s =
    if s.tx.ro
    then refuse_ro env s
    else elim (await_unlocked env env.spins (lock_idx addr) s.world) [
      | none ↦ (spinning, s)
      | some (l, w) ↦ write_unlocked env addr value mask l (record s { world = w })
    ]

unfoldable pub stm_store : Env → ℕ → ℕ → State → Exit (Option WriteEntry) × State
stm_store env addr value s = stm_write env addr value word_max s

unfoldable pub stm_store2 : Env → ℕ → ℕ → ℕ → State → Exit (Option WriteEntry) × State
stm_store2 env addr value mask s = stm_write env addr value mask s
