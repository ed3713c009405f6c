-- ===== src/Commit/Isolated.antt =====
-- stm_commit as a whole (tinySTM/src/stm.c), for a thread that is alone: all its writes take effect
-- at once under a new time stamp, or nothing that is shared changes.
use tiny_stm_reval.Prelude.{ℕ, ◌-◌, ◌≡◌, sym, ◌∙◌, true, false, arith, ltb}
use mathlib.Core.Path.{subst}
use mathlib.Core.Bool.{false≢true}
use tiny_stm_reval.Word.{get_owned}
use tiny_stm_reval.Machine.{Env}
use tiny_stm_reval.Descriptor.{State, spinning}
use tiny_stm_reval.Restart.{no_retry}
use tiny_stm_reval.Quiet.{Alone}
use tiny_stm_reval.Commit.{
  Acquired, all_taken, refused, given_up, abort_locked, at_commit_time, put_acquired, commit_writes,
  stm_commit,
}
use tiny_stm_reval.Commit.Locks.{covers}
use tiny_stm_reval.Commit.Acquire.{AcquireHolds}
use tiny_stm_reval.Commit.Start.{CanCommit, acquired}
use tiny_stm_reval.Commit.Undo.{Refused, abort_locked-Refused}
use tiny_stm_reval.Commit.Install.{Committed, at_commit_time-Committed}

module _ {env : Env} (alone : Alone env) where
  decrement : State → State
  decrement s = let tx = s.tx in record s { tx = record tx { nesting = tx.nesting - 1 } }

  stm_commit_outermost :
      (s : State) → CanCommit s → stm_commit env s ≡ commit_writes env (decrement s)
  unfolding stm_commit decrement
  stm_commit_outermost s can =
      let test : ltb 1 s.tx.nesting ≡ false = ground (arith, can.outermost) in rw (test, can.writes)

  -- A transaction that comes to its outermost commit with writes, when no other has committed since
  -- its start and all locks of its write set are free, succeeds: memory holds at each address what
  -- its recorded writes make of the old word, in their order, the locks of the write set are free
  -- with the new time, all other locks are as before, the clock is one further, the commit callbacks
  -- are called, the status is `committed` and the count of retries is 0. The thread is alone, the
  -- clock is below its bound, and the transaction holds no lock when the commit starts.
  pub commit_takes_effect :
      (s : State)
      → CanCommit s
      → s.tx.start ≡ s.world.shared.clock
      → ((j : ℕ) → covers s.tx.w_set.entries j ≡ true → get_owned (s.world.shared.lock j) ≡ false)
      → Committed env s (stm_commit env s)
  unfolding commit_writes decrement
  commit_takes_effect s can fresh free =
      subst (Committed env s) (sym (stm_commit_outermost s can)) (go _ (acquired alone s can))
    where
      go :
          (a : Acquired)
          → AcquireHolds alone s.tx.w_set s.world.shared s.tx.w_set.entries a
          → Committed env s (elim a [
            | all_taken es nb w ↦ at_commit_time env (put_acquired es nb w (decrement s))
            | refused es nb w ↦ abort_locked env (put_acquired es nb w (decrement s))
            | given_up es nb w ↦ (spinning, put_acquired es nb w (decrement s))
          ])
      go (all_taken es nb w) (k, cov, st, f) =
          let r =
            at_commit_time-Committed alone (decrement s) es nb w fresh can.start.clock k cov st in
          record {
            result = r.result;
            mem = r.mem;
            lock = r.lock;
            clock = r.clock;
            calls = r.calls;
            status = r.status;
            retries = r.retries;
          }
      go (refused es nb w) (k, bad) = absurd (false≢true (sym (free bad.0 bad.1) ∙ bad.2))
      go (given_up es nb w) k = absurd k

  -- An outermost commit that meets a lock of another transaction aborts with the reason of a
  -- write-write conflict and jumps back: all that is shared is as before the commit, also the locks
  -- that it had taken already, the abort callbacks are called, the conflict is counted, and the
  -- transaction is active again. The thread is alone, the clock is below its bound, the transaction
  -- holds no lock when the commit starts, and it may retry.
  pub commit_conflict_undone :
      (s : State) (j : ℕ)
      → CanCommit s
      → no_retry s.tx.attr ≡ false
      → covers s.tx.w_set.entries j ≡ true
      → get_owned (s.world.shared.lock j) ≡ true
      → Refused env s (stm_commit env s)
  unfolding commit_writes decrement
  commit_conflict_undone s j can may c own =
      subst (Refused env s) (sym (stm_commit_outermost s can)) (go _ (acquired alone s can))
    where
      go :
          (a : Acquired)
          → AcquireHolds alone s.tx.w_set s.world.shared s.tx.w_set.entries a
          → Refused env s (elim a [
            | all_taken es nb w ↦ at_commit_time env (put_acquired es nb w (decrement s))
            | refused es nb w ↦ abort_locked env (put_acquired es nb w (decrement s))
            | given_up es nb w ↦ (spinning, put_acquired es nb w (decrement s))
          ])
      go (all_taken es nb w) (k, cov, st, f) = absurd (false≢true (sym (f j c) ∙ own))
      go (refused es nb w) (k, bad) =
          abort_locked-Refused alone s.tx.w_set (decrement s) es nb w can.fits can.start may k
      go (given_up es nb w) k = absurd k
