-- ===== src/Restart/Bounds.antt =====
-- A rollback (tinySTM/src/stm.c) leaves the sets within their arrays.
use tiny_stm_reval.Prelude.{ℕ, zero, suc, Option, none, some, arith, leb, ◌==◌, if_both}
use tiny_stm_reval.Word.{version_max}
use tiny_stm_reval.Machine.{Env, World, tick}
use tiny_stm_reval.Descriptor.{Status, State, Exit, returned, jumped, exited, spinning}
use tiny_stm_reval.Restart.{
  set_status, stm_check_quiesce, await_release, quiesce_barrier, reset, prepare_loop, stm_prepare,
  no_retry, finish_rollback, drop_all, stm_rollback, after_rollback,
}
use tiny_stm_reval.Sets.Bounds.{SetsFit}

check_quiesce-SetsFit :
    (env : Env) (s : State) → SetsFit s.tx → SetsFit (stm_check_quiesce env s).1.tx
unfolding stm_check_quiesce set_status
check_quiesce-SetsFit env s fit =
    if_both ((tick env s.world).shared.quiesce == 2)
      (λ (p : Exit (Unit {0}) × State). SetsFit p.1.tx)
      (go (await_release env env.spins (tick env s.world))) fit
  where
    go :
        (o : Option World)
        → SetsFit
            (elim o as (λ _. Exit (Unit {0}) × State) [
              | none ↦ (spinning, set_status Status.idle (record s { world = tick env s.world }))
              | some w' ↦ (returned tt, set_status s.tx.status (record s { world = w' }))
            ]).1.tx
    go none = fit
    go (some w) = fit

prepare_loop-SetsFit :
    (env : Env) (n : ℕ) (s : State) → SetsFit s.tx → SetsFit (prepare_loop env n s).1.tx
unfolding prepare_loop reset
prepare_loop-SetsFit env zero s fit = fit
prepare_loop-SetsFit env (suc n) s fit =
    let w = tick env s.world in
    if_both (leb version_max w.shared.clock) (λ (p : Exit (Unit {0}) × State). SetsFit p.1.tx)
      (prepare_loop-SetsFit env n (record s { world = quiesce_barrier env w }) fit)
      (check_quiesce-SetsFit env (record s { tx = reset w.shared.clock s.tx; world = w })
        ((fit.0.0, omega arith, fit.0.2), (fit.1.0, omega arith, fit.1.2)))

finish_rollback-SetsFit :
    (reason : ℕ) (p : Exit (Unit {0}) × State)
    → SetsFit p.1.tx
    → SetsFit (finish_rollback reason p).1.tx
unfolding finish_rollback
finish_rollback-SetsFit reason (returned u, s) fit =
    if_both (no_retry s.tx.attr) (λ (p : Exit (Unit {0}) × State). SetsFit p.1.tx) fit fit
finish_rollback-SetsFit reason (jumped r, s) fit = fit
finish_rollback-SetsFit reason (exited, s) fit = fit
finish_rollback-SetsFit reason (spinning, s) fit = fit

pub after_rollback-SetsFit :
    {A : Type 0} (a : A) (p : Exit (Unit {0}) × State)
    → SetsFit p.1.tx
    → SetsFit (after_rollback a p).1.tx
unfolding after_rollback
after_rollback-SetsFit a (returned u, s) fit = fit
after_rollback-SetsFit a (jumped r, s) fit = fit
after_rollback-SetsFit a (exited, s) fit = fit
after_rollback-SetsFit a (spinning, s) fit = fit

pub stm_rollback-SetsFit :
    (env : Env) (reason : ℕ) (s : State) → SetsFit s.tx → SetsFit (stm_rollback env reason s).1.tx
unfolding stm_rollback stm_prepare drop_all
stm_rollback-SetsFit env reason s fit =
    finish_rollback-SetsFit reason _ (prepare_loop-SetsFit env env.spins (drop_all env s) fit)
