-- ===== src/Commit.antt =====
-- stm_commit of tinySTM/src/stm.c with commit-time locking.
pub mod Locks
pub mod Holding
pub mod Release
pub mod Start
pub mod Undo
pub mod Install
pub mod Isolated
pub mod WriteBack
pub mod Acquire
use tiny_stm_reval.Prelude.{
  ℕ, zero, suc, ◌-◌, Bool, true, false, List, [], ◌∷◌, ◌++◌, ltb, ◌==◌, if◌then◌else◌, length,
  rev_onto,
}
use tiny_stm_reval.Word.{
  word_max, get_owned, get_addr, get_timestamp, set_timestamp, set_addr_write, merge, add_word,
  sub_word,
}
use tiny_stm_reval.Machine.{Env, World, tick, store_mem, store_lock, fetch_inc_clock, cas_lock}
use tiny_stm_reval.Descriptor.{
  Status, WriteEntry, WriteSet, State, Exit, returned, spinning, w_entry_ptr, in_write_set,
}
use tiny_stm_reval.Validate.{stm_validate}
use tiny_stm_reval.Restart.{stm_rollback, after_rollback}

-- STM_ABORT_WW_CONFLICT and STM_ABORT_VALIDATE
abbrev pub abort_ww_conflict : ℕ
abort_ww_conflict = 0x420

abbrev pub abort_validate : ℕ
abort_validate = 0x720

-- How the work on one entry ends: its lock is ours already, it was taken (the entry is changed),
-- another transaction has it, or the rounds are used up.
pub data Grab : Type 0 where
  held : World → Grab
  taken : WriteEntry → World → Grab
  conflict : World → Grab
  tired : World → Grab

-- The lock of entry `i` of the write set: load, test, compare-and-swap, and `goto restart` when
-- the swap fails.
unfoldable pub acquire_lock : Env → WriteSet → ℕ → WriteEntry → ℕ → World → Grab
acquire_lock env ws i e zero w = tired w
acquire_lock env ws i e (suc n) w =
    let w₁ = tick env w in
    let l = w₁.shared.lock e.lock in
    let swap = cas_lock env e.lock l (set_addr_write (w_entry_ptr ws i)) w₁ in
    let rest = acquire_lock env ws i e n swap.1 in
    if get_owned l
    then if in_write_set ws (get_addr l) then held w₁ else conflict w₁
    else if swap.0
    then taken (record e { no_drop = false; version = get_timestamp l }) swap.1
    else rest

-- The locks are taken from the last entry to the first. The arguments are the entries to come,
-- last first, those behind them, and the number acquired.
pub data Acquired : Type 0 where
  all_taken : List WriteEntry → ℕ → World → Acquired
  refused : List WriteEntry → ℕ → World → Acquired
  given_up : List WriteEntry → ℕ → World → Acquired

unfoldable pub acquire_locks :
    Env → WriteSet → List WriteEntry → List WriteEntry → ℕ → World → Acquired
acquire_locks env ws [] done nb w = all_taken done nb w
acquire_locks env ws (e ∷ es) done nb w = elim (acquire_lock env ws (length es) e env.spins w) [
  | held w' ↦ acquire_locks env ws es (e ∷ done) nb w'
  | taken e' w' ↦ acquire_locks env ws es (e' ∷ done) (suc nb) w'
  | conflict w' ↦ refused (rev_onto es (e ∷ done)) nb w'
  | tired w' ↦ given_up (rev_onto es (e ∷ done)) nb w'
]

-- The store of one entry, whole or under its mask.
unfoldable pub write_word : Env → WriteEntry → World → World
write_word env e w =
    if e.mask == word_max
    then store_mem env e.addr e.value w
    else if e.mask == 0
    then w
    else let w' = tick env w in
      store_mem env e.addr (merge e.mask (w'.shared.mem e.addr) e.value) w'

-- The updates are installed from the first entry to the last, and a lock is dropped behind the
-- entry that took it.
unfoldable pub write_back : Env → ℕ → List WriteEntry → World → World
write_back env t [] w = w
write_back env t (e ∷ es) w =
    let w' = write_word env e w in
    write_back env t es (if e.no_drop then w' else store_lock env e.lock (set_timestamp t) w')

-- `end:` in stm_commit
unfoldable pub finish_commit : Env → State → Exit Bool × State
finish_commit env s =
    let tx = s.tx in
    let st = tx.stats in
    (
      returned true,
      record s {
        tx = record tx { stats = record st { retries = 0 }; status = Status.committed };
        calls = s.calls ++ env.callbacks.on_commit;
      },
    )

-- A failed validation.
unfoldable pub abort_commit : Env → State → Exit Bool × State
abort_commit env s =
    let tx = s.tx in
    let st = tx.stats in
    after_rollback false (
      stm_rollback env abort_validate (record s {
        tx = record tx {
          stats = record st { aborts_validate_commit = add_word st.aborts_validate_commit 1 };
        };
      }))

-- A lock that another transaction holds.
unfoldable pub abort_locked : Env → State → Exit Bool × State
abort_locked env s =
    let tx = s.tx in
    let st = tx.stats in
    after_rollback false (
      stm_rollback env abort_ww_conflict (record s {
        tx = record tx {
          stats = record st { aborts_locked_write = add_word st.aborts_locked_write 1 };
        };
      }))

-- With the commit time at hand: validate, unless no other transaction has committed since the
-- start, and write back.
unfoldable pub install : Env → ℕ → State → Exit Bool × State
install env t s =
    finish_commit env (record s { world = write_back env t s.tx.w_set.entries s.world })

unfoldable pub validate_and_install : Env → ℕ → State → Exit Bool × State
validate_and_install env t s =
    if s.tx.start == sub_word t 1
    then install env t s
    else let (valid, s') = stm_validate env s in
      if valid then install env t s' else abort_commit env s'

unfoldable pub at_commit_time : Env → State → Exit Bool × State
at_commit_time env s =
    let (c, w) = fetch_inc_clock env s.world in
    validate_and_install env (add_word c 1) (record s { world = w })

-- The state with the write set and the world that the acquisition leaves.
abbrev pub put_acquired : List WriteEntry → ℕ → World → State → State
put_acquired entries nb w s =
    let tx = s.tx in
    let ws = tx.w_set in
    record s {
      world = w;
      tx = record tx { w_set = record ws { entries = entries; nb_acquired = nb } };
    }

unfoldable pub commit_writes : Env → State → Exit Bool × State
commit_writes env s =
    let ws = s.tx.w_set in
    elim (acquire_locks env ws (rev_onto ws.entries []) [] ws.nb_acquired s.world) [
      | all_taken entries nb w ↦ at_commit_time env (put_acquired entries nb w s)
      | refused entries nb w ↦ abort_locked env (put_acquired entries nb w s)
      | given_up entries nb w ↦ (spinning, put_acquired entries nb w s)
    ]

unfoldable pub is_empty : List WriteEntry → Bool
is_empty [] = true
is_empty (e ∷ es) = false

-- `--tx->nesting > 0`: an inner commit only counts. (At a nesting of 0, outside the contract, the
-- source would store -1.)
unfoldable pub stm_commit : Env → State → Exit Bool × State
stm_commit env s =
    let tx = s.tx in
    let s' = record s { tx = record tx { nesting = tx.nesting - 1 } } in
    if ltb 1 tx.nesting
    then (returned true, s')
    else if is_empty tx.w_set.entries
    then finish_commit env s'
    else commit_writes env s'
