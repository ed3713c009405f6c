-- ===== src/Restart.antt =====
-- How a transaction begins and how it is undone: rollover_clock, stm_quiesce_barrier as a thread
-- sees it, stm_check_quiesce, stm_prepare and stm_rollback of tinySTM/src/stm.c.
pub mod Bounds
pub mod Frame
pub mod Alone
use tiny_stm_reval.Prelude.{
  ℕ, zero, suc, Bool, true, false, Option, none, some, List, [], ◌∷◌, ◌++◌, ltb, leb, ◌==◌,
  if◌then◌else◌, rev_onto,
}
use tiny_stm_reval.Word.{set_timestamp, add_word, version_max}
use tiny_stm_reval.Machine.{Shared, Env, World, tick, store_lock}
use tiny_stm_reval.Descriptor.{
  Status, Attr, WriteEntry, Stats, Tx, State, Exit, returned, jumped, exited, spinning,
}

-- The clock and all locks start again at 0.
unfoldable pub rollover_clock : Shared → Shared
rollover_clock s = record s { clock = 0; lock = λ _. 0 }

-- The barrier, for the thread that waits at it: the others run until all have stopped, the last
-- one resets the clock, and `quiesce` is 0 when the threads leave.
unfoldable pub quiesce_barrier : Env → World → World
quiesce_barrier env w =
    let w' = tick env w in
    let sh = rollover_clock w'.shared in record w' { shared = record sh { quiesce = 0 } }

-- The wait of stm_check_quiesce, while another thread holds all back.
unfoldable pub await_release : Env → ℕ → World → Option World
await_release env zero w = none
await_release env (suc n) w =
    let w' = tick env w in
    let rest = await_release env n w' in if w'.shared.quiesce == 2 then rest else some w'

unfoldable pub set_status : Status → State → State
set_status st s = let tx = s.tx in record s { tx = record tx { status = st } }

unfoldable pub stm_check_quiesce : Env → State → Exit (Unit {0}) × State
stm_check_quiesce env s =
    let w = tick env s.world in
    if w.shared.quiesce == 2
    then elim (await_release env env.spins w) [
      | none ↦ (spinning, set_status Status.idle (record s { world = w }))
      | some w' ↦ (returned tt, set_status s.tx.status (record s { world = w' }))
    ]
    else (returned tt, record s { world = w })

-- The descriptor once the clock has been read.
unfoldable pub reset : ℕ → Tx → Tx
reset now tx =
    let rs = tx.r_set in
    let ws = tx.w_set in
    record tx {
      start = now;
      end_ = now;
      can_extend = true;
      r_set = record rs { entries = [] };
      w_set = record ws { entries = []; nb_acquired = 0 };
      status = Status.active;
    }

-- stm_prepare, with the rounds left for `goto start`.
unfoldable pub prepare_loop : Env → ℕ → State → Exit (Unit {0}) × State
prepare_loop env zero s = (spinning, s)
prepare_loop env (suc n) s =
    let w = tick env s.world in
    let again = prepare_loop env n (record s { world = quiesce_barrier env w }) in
    if leb version_max w.shared.clock
    then again
    else stm_check_quiesce env (record s { tx = reset w.shared.clock s.tx; world = w })

unfoldable pub stm_prepare : Env → State → Exit (Unit {0}) × State
stm_prepare env s = prepare_loop env env.spins s

-- The loop that drops the locks, over the entries from the last to the first, with the number
-- still to drop.
unfoldable pub release_locks : Env → List WriteEntry → ℕ → World → World
release_locks env [] nb w = w
release_locks env (e ∷ es) zero w = w
release_locks env (e ∷ es) (suc nb) w =
    release_locks env es (if e.no_drop then suc nb else nb)
      (if e.no_drop then w else store_lock env e.lock (set_timestamp e.version) w)

-- The statistics of an abort.
unfoldable pub count_abort : Stats → Stats
count_abort st =
    let retries = add_word st.retries 1 in
    record st {
      retries = retries;
      aborts = add_word st.aborts 1;
      aborts_1 = if retries == 1 then add_word st.aborts_1 1 else st.aborts_1;
      aborts_2 = if retries == 2 then add_word st.aborts_2 1 else st.aborts_2;
      max_retries = if ltb st.max_retries retries then retries else st.max_retries;
    }

-- Whether the attributes forbid the jump back.
unfoldable pub no_retry : Option Attr → Bool
no_retry none = false
no_retry (some a) = a.no_retry

-- The end of stm_rollback, behind stm_prepare.
unfoldable pub finish_rollback : ℕ → Exit (Unit {0}) × State → Exit (Unit {0}) × State
finish_rollback reason (returned _, s) =
    let tx = s.tx in
    if no_retry tx.attr
    then (returned tt, record s { tx = record tx { nesting = 0 } })
    else (jumped reason, s)
finish_rollback reason (e, s) = (e, s)

-- stm_rollback up to the call of stm_prepare: locks, counters, callbacks, status, nesting.
unfoldable pub drop_all : Env → State → State
drop_all env s =
    let tx = s.tx in
    let ws = tx.w_set in
    record s {
      world = release_locks env (rev_onto ws.entries []) ws.nb_acquired s.world;
      calls = s.calls ++ env.callbacks.on_abort;
      tx = record tx {
        w_set = record ws { nb_acquired = 0 };
        stats = count_abort tx.stats;
        status = Status.aborted;
        nesting = 1;
      };
    }

unfoldable pub stm_rollback : Env → ℕ → State → Exit (Unit {0}) × State
stm_rollback env reason s = finish_rollback reason (stm_prepare env (drop_all env s))

-- What a function returns after a rollback that did not jump.
unfoldable pub after_rollback : {A : Type 0} → A → Exit (Unit {0}) × State → Exit A × State
after_rollback a (returned _, s) = (returned a, s)
after_rollback a (jumped r, s) = (jumped r, s)
after_rollback a (exited, s) = (exited, s)
after_rollback a (spinning, s) = (spinning, s)
