-- ===== src/Restart/Alone.antt =====
-- stm_rollback (tinySTM/src/stm.c) for a thread that is alone: where it ends, and what it leaves.
use tiny_stm_reval.Prelude.{ℕ, ◌≡◌, refl, ap, ◌∙◌, true, false, [], ◌++◌}
use tiny_stm_reval.Machine.{Shared, Env}
use tiny_stm_reval.Descriptor.{Tx, State, Exit, returned, jumped, exited, spinning}
use tiny_stm_reval.Restart.{reset, stm_prepare, no_retry, finish_rollback, drop_all, stm_rollback}
use tiny_stm_reval.Descriptor.{is_active}
use tiny_stm_reval.Api.{stm_active, stm_aborted, is_aborted}
use tiny_stm_reval.Quiet.{Alone, CanStart, prepare_alone}

finish_rollback_retry :
    (reason : ℕ) (p : Exit (Unit {0}) × State)
    → p.0 ≡ returned tt
    → no_retry p.1.tx.attr ≡ false
    → finish_rollback reason p ≡ (jumped reason, p.1)
unfolding finish_rollback
finish_rollback_retry reason (returned u, s) e may = rw may
finish_rollback_retry reason (jumped r, s) e may = cc
finish_rollback_retry reason (exited, s) e may = cc
finish_rollback_retry reason (spinning, s) e may = cc

-- What is left behind by a rollback that undoes the acquisition of locks.
pub record RolledBack (env : Env) (sh₀ : Shared) (s s' : State) : Type 0 where
  pub shared : s'.world.shared ≡ sh₀
  pub tx : s'.tx ≡ reset sh₀.clock (drop_all env s).tx
  pub calls : s'.calls ≡ s.calls ++ env.callbacks.on_abort

pub rollback_alone :
    {env : Env}
    → Alone env
    → (sh₀ : Shared) (reason : ℕ) (s : State) → CanStart sh₀
    → (drop_all env s).world.shared ≡ sh₀
    → no_retry s.tx.attr ≡ false
    → ((stm_rollback env reason s).0 ≡ jumped reason)
      × RolledBack env sh₀ s (stm_rollback env reason s).1
unfolding stm_rollback
rollback_alone {env} alone sh₀ reason s can e may =
    let (a, b, c, d) = prepare_alone alone (drop_all env s) (rw e can) in
    let f =
      finish_rollback_retry reason (stm_prepare env (drop_all env s)) a
        (ap (λ (x : Tx). no_retry x.attr) c ∙ unfold reset drop_all in may) in
    rw f (
      refl,
      record {
        shared = b ∙ e;
        tx = c ∙ ap (λ (x : Shared). reset x.clock (drop_all env s).tx) e;
        calls = d ∙ unfold drop_all in refl;
      },
    )

finish_rollback_stay :
    (reason : ℕ) (p : Exit (Unit {0}) × State)
    → p.0 ≡ returned tt
    → no_retry p.1.tx.attr ≡ true
    → finish_rollback reason p
      ≡ (returned tt, let s = p.1 in let tx = s.tx in record s { tx = record tx { nesting = 0 } })
unfolding finish_rollback
finish_rollback_stay reason (returned u, s) e stay = rw stay
finish_rollback_stay reason (jumped r, s) e stay = cc
finish_rollback_stay reason (exited, s) e stay = cc
finish_rollback_stay reason (spinning, s) e stay = cc

-- A transaction whose attributes forbid a retry comes back from stm_rollback with nesting level 0,
-- empty sets and the clock as the end of its snapshot, and then stm_active holds of it and
-- stm_aborted does not. The thread is alone, the clock is below its bound, and dropping the locks
-- leads to the shared state from which that is meant.
pub rollback_no_retry_active :
    {env : Env}
    → Alone env
    → (sh₀ : Shared) (reason : ℕ) (s : State) → CanStart sh₀
    → (drop_all env s).world.shared ≡ sh₀
    → no_retry s.tx.attr ≡ true
    → ((stm_rollback env reason s).0 ≡ returned tt)
      × (stm_active (stm_rollback env reason s).1 ≡ true)
      × (stm_aborted (stm_rollback env reason s).1 ≡ false)
      × ((stm_rollback env reason s).1.tx.nesting ≡ 0)
      × ((stm_rollback env reason s).1.tx.r_set.entries ≡ [])
      × ((stm_rollback env reason s).1.tx.w_set.entries ≡ [])
      × ((stm_rollback env reason s).1.tx.end_ ≡ sh₀.clock)
unfolding reset stm_rollback stm_active stm_aborted is_active is_aborted
rollback_no_retry_active {env} alone sh₀ reason s can e stay =
    let (a, b, c, d) = prepare_alone alone (drop_all env s) (rw e can) in
    let f =
      finish_rollback_stay reason (stm_prepare env (drop_all env s)) a
        (ap (λ (x : Tx). no_retry x.attr) c ∙ unfold reset drop_all in stay) in
    let st = ap (λ (x : Tx). x.status) c in
    rw f (
      refl,
      ap is_active st,
      ap is_aborted st,
      refl,
      ap (λ (x : Tx). x.r_set.entries) c,
      ap (λ (x : Tx). x.w_set.entries) c,
      ap (λ (x : Tx). x.end_) c ∙ ap (λ (x : Shared). x.clock) e,
    )
