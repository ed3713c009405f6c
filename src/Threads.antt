-- ===== src/Threads.antt =====
-- The list of transaction descriptors in tinySTM/src/stm.c: stm_quiesce_enter_thread and
-- stm_quiesce_exit_thread, over the pointers `tx->next`.
pub mod Chain
use tiny_stm_reval.Prelude.{ℕ, zero, suc, Bool, not, ◌==◌, if◌then◌else◌}
use tiny_stm_reval.Word.{add_word, sub_word}
use tiny_stm_reval.Machine.{update}
use tiny_stm_reval.Descriptor.{Status, is_active}

-- `threads`, `threads_count` and the fields `next`, by the address of the descriptor; 0 is NULL.
pub record Threads : Type 0 where
  pub next : ℕ → ℕ
  pub threads : ℕ
  pub threads_count : ℕ

unfoldable pub stm_quiesce_enter_thread : ℕ → Threads → Threads
stm_quiesce_enter_thread tx q = record {
  next = update q.next tx q.threads;
  threads = tx;
  threads_count = add_word q.threads_count 1;
}

-- How the walk to a descriptor ends: at `tx`, with the address `p` before it (0 for NULL), or with
-- the failed assertion that `t` is not NULL. `walking` is a walk that has not ended in the steps
-- that are looked at.
pub data Walk : Type 0 where
  found : ℕ → Walk
  failed : Walk
  walking : Walk

unfoldable pub find_previous : (ℕ → ℕ) → ℕ → ℕ → (p t : ℕ) → Walk
find_previous next tx zero p t = if t == tx then found p else if t == 0 then failed else walking
find_previous next tx (suc n) p t =
    let rest = find_previous next tx n t (next t) in
    if t == tx then found p else if t == 0 then failed else rest

-- The removal of `tx` behind `p`.
unfoldable pub unlink : ℕ → ℕ → Threads → Threads
unlink tx p q = record {
  next = if p == 0 then q.next else update q.next p (q.next tx);
  threads = if p == 0 then q.next tx else q.threads;
  threads_count = sub_word q.threads_count 1;
}

-- How the call ends. With the list comes whether the condition variable is signalled, for threads
-- that wait at the barrier.
pub data Left : Type 0 where
  left : Bool → Threads → Left
  assertion_failed : Left
  still_walking : Left

-- `steps` bounds the part of the walk that is looked at.
unfoldable pub stm_quiesce_exit_thread : ℕ → ℕ → Status → (quiesce : ℕ) → Threads → Left
stm_quiesce_exit_thread steps tx status quiesce q =
    if is_active status
    then assertion_failed
    else elim (find_previous q.next tx steps 0 q.threads) [
      | found p ↦ left (not (quiesce == 0)) (unlink tx p q)
      | failed ↦ assertion_failed
      | walking ↦ still_walking
    ]
