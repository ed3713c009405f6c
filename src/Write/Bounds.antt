-- ===== src/Write/Bounds.antt =====
-- A write (tinySTM/src/stm.c) leaves the sets within their arrays.
use tiny_stm_reval.Prelude.{
  ℕ, ◌≡◌, refl, not, ◌&&◌, ◌||◌, Option, none, some, ltb, if◌then◌else◌, if_both,
}
use tiny_stm_reval.Word.{get_timestamp, lock_idx}
use tiny_stm_reval.Machine.{Env, World}
use tiny_stm_reval.Descriptor.{WriteEntry, WriteSet, State, Exit, returned, exited, spinning}
use tiny_stm_reval.Sets.{has_read, has_written, merge_entry, update_written, add_write}
use tiny_stm_reval.Sets.Bounds.{SetsFit, RefusesHuge, add_write-SetsFit, length-update_written}
use tiny_stm_reval.Restart.Bounds.{after_rollback-SetsFit, stm_rollback-SetsFit}
use tiny_stm_reval.Write.{
  await_unlocked, is_some, refuse_ro, refuse_write, new_entry, append_write, write_unlocked,
  stm_write,
}

append_write-SetsFit :
    (env : Env)
    → RefusesHuge env
    → (e : WriteEntry) (s : State) → SetsFit s.tx
    → SetsFit (append_write env e s).1.tx
unfolding append_write
append_write-SetsFit env refuses e s (reads, writes) = go (add_write env e s.tx.w_set) refl
  where
    go :
        (o : Option WriteSet)
        → add_write env e s.tx.w_set ≡ o
        → SetsFit
            (elim o as (λ _. Exit (Option WriteEntry) × State) [
              | none ↦ (exited, s)
              | some ws ↦
                  let tx = s.tx in (returned (some e), record s { tx = record tx { w_set = ws } })
            ]).1.tx
    go none h = (reads, writes)
    go (some ws) h = (reads, add_write-SetsFit env e s.tx.w_set ws refuses writes h)

refuse_write-SetsFit : (env : Env) (s : State) → SetsFit s.tx → SetsFit (refuse_write env s).1.tx
unfolding refuse_write
refuse_write-SetsFit env s fit = after_rollback-SetsFit none _ (stm_rollback-SetsFit env _ _ fit)

refuse_ro-SetsFit : (env : Env) (s : State) → SetsFit s.tx → SetsFit (refuse_ro env s).1.tx
unfolding refuse_ro
refuse_ro-SetsFit env s fit = after_rollback-SetsFit none _ (stm_rollback-SetsFit env _ _ fit)

write_unlocked-SetsFit :
    (env : Env)
    → RefusesHuge env
    → (addr value mask l : ℕ) (s : State) → SetsFit s.tx
    → SetsFit (write_unlocked env addr value mask l s).1.tx
unfolding write_unlocked
write_unlocked-SetsFit env refuses addr value mask l s fit =
    go (has_written s.tx.w_set.entries addr)
  where
    go :
        (o : Option WriteEntry)
        → SetsFit
            (elim o as (λ _. Exit (Option WriteEntry) × State) [
              | some e ↦ (
                returned (some (merge_entry value mask e)),
                let tx = s.tx in
                    let ws = tx.w_set in
                    record s {
                      tx = record tx {
                        w_set = record ws {
                          entries = update_written (merge_entry value mask) ws.entries addr;
                        };
                      };
                    },
              )
              | none ↦
                  if ltb s.tx.end_ (get_timestamp l)
                    && (not s.tx.can_extend
                        || is_some (has_read s.tx.r_set.entries (lock_idx addr)))
                  then refuse_write env s
                  else append_write env (new_entry addr value mask (env.stale s.world.now)) s
            ]).1.tx
    go (some e) = (
      fit.0,
      (
        fit.1.0,
        rw (length-update_written (merge_entry value mask) s.tx.w_set.entries addr) fit.1.1,
        fit.1.2,
      ),
    )
    go none =
        if_both
          (ltb s.tx.end_ (get_timestamp l)
            && (not s.tx.can_extend || is_some (has_read s.tx.r_set.entries (lock_idx addr))))
          (λ (p : Exit (Option WriteEntry) × State). SetsFit p.1.tx)
          (refuse_write-SetsFit env s fit)
          (append_write-SetsFit env refuses (new_entry addr value mask (env.stale s.world.now)) s
            fit)

-- However the other threads interleave and the write ends, also when it aborts, the entries of both
-- sets are within their arrays afterwards if they were before, and the sizes of both arrays are
-- positive ints: doubling one does not wrap around, because realloc refuses sizes above PTRDIFF_MAX.
pub stm_write-SetsFit :
    (env : Env)
    → RefusesHuge env
    → (addr value mask : ℕ) (s : State) → SetsFit s.tx
    → SetsFit (stm_write env addr value mask s).1.tx
unfolding stm_write
stm_write-SetsFit env refuses addr value mask s fit =
    if_both s.tx.ro (λ (p : Exit (Option WriteEntry) × State). SetsFit p.1.tx)
      (refuse_ro-SetsFit env s fit) (go (await_unlocked env env.spins (lock_idx addr) s.world))
  where
    go :
        (o : Option (ℕ × World))
        → SetsFit
            (elim o as (λ _. Exit (Option WriteEntry) × State) [
              | none ↦ (spinning, s)
              | some (l, w) ↦ write_unlocked env addr value mask l (record s { world = w })
            ]).1.tx
    go none = fit
    go (some (l, w)) =
        write_unlocked-SetsFit env refuses addr value mask l (record s { world = w }) fit
