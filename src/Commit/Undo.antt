-- ===== src/Commit/Undo.antt =====
-- What stm_commit (tinySTM/src/stm.c) leaves when it meets the lock of another transaction.
use tiny_stm_reval.Prelude.{ℕ, ◌≡◌, refl, sym, ap, ◌∙◌, Bool, false, List, ◌++◌}
use mathlib.Core.Path.{subst}
use tiny_stm_reval.Word.{add_word}
use tiny_stm_reval.Machine.{Env, World}
use tiny_stm_reval.Descriptor.{
  Status, WriteEntry, WriteSet, Tx, State, Exit, returned, jumped, exited, spinning,
}
use tiny_stm_reval.Restart.{count_abort, reset, no_retry, stm_rollback, after_rollback, drop_all}
use tiny_stm_reval.Restart.Alone.{RolledBack, rollback_alone}
use tiny_stm_reval.Quiet.{Alone, CanStart}
use tiny_stm_reval.Commit.{abort_locked, put_acquired, abort_ww_conflict}
use tiny_stm_reval.Commit.Holding.{Worked}
use tiny_stm_reval.Commit.Release.{Fits, drop_all_restores}

-- How a commit that meets a lock of another transaction ends.
abbrev pub Refused : Env → State → Exit Bool × State → Type 0
Refused env s p =
    (p.0 ≡ jumped abort_ww_conflict)
    × (p.1.world.shared ≡ s.world.shared)
    × (p.1.calls ≡ s.calls ++ env.callbacks.on_abort)
    × (p.1.tx.stats.aborts_locked_write ≡ add_word s.tx.stats.aborts_locked_write 1)
    × (p.1.tx.status ≡ Status.active)

module _ {env : Env} (alone : Alone env) where
  pub after_jump :
      {A : Type 0} (a : A) (reason : ℕ) (p : Exit (Unit {0}) × State)
      → p.0 ≡ jumped reason
      → after_rollback a p ≡ (jumped reason, p.1)
  unfolding after_rollback
  after_jump a reason (returned u, s) e = cc
  after_jump a reason (jumped r, s) e = cc
  after_jump a reason (exited, s) e = cc
  after_jump a reason (spinning, s) e = cc

  pub abort_locked-Refused :
      (ws : WriteSet) (s : State) (es : List WriteEntry) (nb : ℕ) (w : World)
      → Fits s.world.shared.lock
      → CanStart s.world.shared
      → no_retry s.tx.attr ≡ false
      → Worked ws s.world.shared es nb w.shared
      → Refused env s (abort_locked env (put_acquired es nb w s))
  unfolding abort_locked
  abort_locked-Refused ws s es nb w fits start may k =
      subst (Refused env s)
        (sym (after_jump false abort_ww_conflict (stm_rollback env abort_ww_conflict t) back.0))
        (
          refl,
          back.1.shared,
          back.1.calls,
          ap (λ (x : Tx). x.stats.aborts_locked_write) back.1.tx
              ∙ unfold reset drop_all count_abort in refl,
          ap (λ (x : Tx). x.status) back.1.tx ∙ unfold reset in refl,
        )
    where
      t : State
      t =
          let s' = put_acquired es nb w s in
          let tx = s'.tx in
          let st = tx.stats in
          record s' {
            tx = record tx {
              stats = record st { aborts_locked_write = add_word st.aborts_locked_write 1 };
            };
          }

      back :
          ((stm_rollback env abort_ww_conflict t).0 ≡ jumped abort_ww_conflict)
          × RolledBack env s.world.shared t (stm_rollback env abort_ww_conflict t).1
      back =
          rollback_alone alone s.world.shared abort_ww_conflict t start
            (drop_all_restores alone s.world.shared fits ws t k) may
