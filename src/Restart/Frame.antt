-- ===== src/Restart/Frame.antt =====
-- What stm_prepare and stm_rollback leave alone, and when a rollback comes back to its caller.
use tiny_stm_reval.Prelude.{ℕ, zero, suc, ◌≡◌, refl, ◌≢◌, false, arith}
use tiny_stm_reval.Machine.{Env, tick}
use tiny_stm_reval.Descriptor.{State, Exit, returned, jumped, exited, spinning}
use tiny_stm_reval.Restart.{
  set_status, stm_check_quiesce, quiesce_barrier, reset, prepare_loop, stm_prepare, no_retry,
  finish_rollback, drop_all, stm_rollback,
}

attr-stm_check_quiesce : (env : Env) (s : State) → (stm_check_quiesce env s).1.tx.attr ≡ s.tx.attr
unfolding stm_check_quiesce set_status
attr-stm_check_quiesce env s = ground arith

attr-prepare_loop : (env : Env) (n : ℕ) (s : State) → (prepare_loop env n s).1.tx.attr ≡ s.tx.attr
unfolding prepare_loop reset
attr-prepare_loop env zero s = refl
attr-prepare_loop env (suc n) s =
    let w = tick env s.world in
    ground (
      arith,
      attr-prepare_loop env n (record s { world = quiesce_barrier env w }),
      attr-stm_check_quiesce env (record s { tx = reset w.shared.clock s.tx; world = w }),
    )

pub attr-stm_prepare : (env : Env) (s : State) → (stm_prepare env s).1.tx.attr ≡ s.tx.attr
unfolding stm_prepare
attr-stm_prepare env s = attr-prepare_loop env env.spins s

finish_rollback_jumps :
    (reason : ℕ) (p : Exit (Unit {0}) × State)
    → no_retry p.1.tx.attr ≡ false
    → (u : Unit {0}) → (finish_rollback reason p).0 ≢ returned u
unfolding finish_rollback
finish_rollback_jumps reason (returned x, s) may u = rw may (λ e. cc)
finish_rollback_jumps reason (jumped r, s) may u = λ e. cc
finish_rollback_jumps reason (exited, s) may u = λ e. cc
finish_rollback_jumps reason (spinning, s) may u = λ e. cc

attr-drop_all : (env : Env) (s : State) → (drop_all env s).tx.attr ≡ s.tx.attr
unfolding drop_all
attr-drop_all env s = refl

-- A transaction that may retry never returns from a rollback.
pub rollback_jumps :
    (env : Env) (reason : ℕ) (s : State)
    → no_retry s.tx.attr ≡ false
    → (u : Unit {0}) → (stm_rollback env reason s).0 ≢ returned u
unfolding stm_rollback
rollback_jumps env reason s may =
    finish_rollback_jumps reason (stm_prepare env (drop_all env s))
      (rw (attr-stm_prepare env (drop_all env s), attr-drop_all env s) may)
