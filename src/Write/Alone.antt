-- ===== src/Write/Alone.antt =====
-- stm_write (tinySTM/src/stm.c) for a thread that is alone: it returns an entry.
use tiny_stm_reval.Prelude.{
  ℕ, suc, ◌≤◌, ◌≡◌, refl, sym, ◌∙◌, ◌⊎◌, inl, inr, Bool, true, false, not, ◌&&◌, ◌||◌, Option, none,
  some, [], ◌∷◌, ◌++◌, arith, ltb, ◌==◌, if◌then◌else◌, length,
}
use mathlib.Core.Path.{subst}
use tiny_stm_reval.Word.{get_owned, get_timestamp, lock_idx}
use tiny_stm_reval.Machine.{Env, World, tick}
use tiny_stm_reval.Descriptor.{WriteEntry, WriteSet, State, Exit, returned, exited, spinning}
use tiny_stm_reval.Sets.{
  has_read, has_written, merge_entry, update_written, add_write, extend_write_set,
}
use tiny_stm_reval.Write.{
  await_unlocked, is_some, new_entry, append_write, refuse_write, refuse_ro, write_unlocked,
  stm_write,
}
use tiny_stm_reval.Quiet.{Alone, shared-tick, tries_suc}

-- An update transaction may write an address whose lock is free, if the write set has room and the
-- version lies in the snapshot or no word under that lock was read before.
pub record CanWrite (addr : ℕ) (s : State) : Type 0 where
  pub update : s.tx.ro ≡ false
  pub free : get_owned (s.world.shared.lock (lock_idx addr)) ≡ false
  pub reach :
      (get_timestamp (s.world.shared.lock (lock_idx addr)) ≤ s.tx.end_)
      ⊎ ((s.tx.can_extend ≡ true) × (has_read s.tx.r_set.entries (lock_idx addr) ≡ none))
  pub room : (length s.tx.w_set.entries == s.tx.w_set.size) ≡ false

-- A write that returns an entry, and leaves what is shared and the size of the write set alone.
abbrev pub Writes : State → Exit (Option WriteEntry) × State → Type 0
Writes s p =
    ((e : WriteEntry) × (p.0 ≡ returned (some e)))
    × (p.1.world.shared ≡ s.world.shared)
    × (p.1.tx.r_set ≡ s.tx.r_set)

module _ {env : Env} (alone : Alone env) where
  await_alone :
      (j : ℕ) (w : World)
      → get_owned (w.shared.lock j) ≡ false
      → await_unlocked env env.spins j w ≡ some ((tick env w).shared.lock j, tick env w)
  unfolding await_unlocked
  await_alone j w free =
      let (n, e) = tries_suc alone in
      subst (λ k. await_unlocked env k j w ≡ some ((tick env w).shared.lock j, tick env w)) (sym e)
        (first n)
    where
      first :
          (n : ℕ) → await_unlocked env (suc n) j w ≡ some ((tick env w).shared.lock j, tick env w)
      first n =
          let same = shared-tick alone w in
          let open_ : get_owned ((tick env w).shared.lock j) ≡ false = rw same free in rw open_ refl

  append_write_alone :
      (e : WriteEntry) (s : State)
      → (length s.tx.w_set.entries == s.tx.w_set.size) ≡ false
      → Writes s (append_write env e s)
  unfolding append_write add_write extend_write_set
  append_write_alone e s room = go (add_write env e s.tx.w_set) added
    where
      added :
          add_write env e s.tx.w_set
          ≡ some (let ws = s.tx.w_set in record ws { entries = ws.entries ++ (e ∷ []) })
      added = rw (room, add_write) refl

      go :
          (o : Option WriteSet)
          → o ≡ some (let ws = s.tx.w_set in record ws { entries = ws.entries ++ (e ∷ []) })
          → Writes s (elim o [
            | none ↦ (exited, s)
            | some ws ↦
                let tx = s.tx in (returned (some e), record s { tx = record tx { w_set = ws } })
          ])
      go none h = cc
      go (some ws) h = ((e, refl), refl, refl)

  write_unlocked_alone :
      (addr value mask : ℕ) (s : State)
      → CanWrite addr s
      → Writes s (write_unlocked env addr value mask (s.world.shared.lock (lock_idx addr)) s)
  unfolding write_unlocked is_some
  write_unlocked_alone addr value mask s can = go (has_written s.tx.w_set.entries addr)
    where
      open_ :
          (ltb s.tx.end_ (get_timestamp (s.world.shared.lock (lock_idx addr)))
            && (not s.tx.can_extend || is_some (has_read s.tx.r_set.entries (lock_idx addr))))
          ≡ false
      open_ = elim can.reach [
        | inl le ↦ ground (arith, le)
        | inr (may, unread) ↦ rw unread (ground (arith, may))
      ]

      go :
          (o : Option WriteEntry)
          → Writes s (elim o [
            | some e ↦ (
              returned (some (merge_entry value mask e)),
              let tx = s.tx in
                  let ws = tx.w_set in
                  record s {
                    tx = record tx {
                      w_set = record ws {
                        entries = update_written (merge_entry value mask) ws.entries addr;
                      };
                    };
                  },
            )
            | none ↦
                let l = s.world.shared.lock (lock_idx addr) in
                if ltb s.tx.end_ (get_timestamp l)
                  && (not s.tx.can_extend || is_some (has_read s.tx.r_set.entries (lock_idx addr)))
                then refuse_write env s
                else append_write env (new_entry addr value mask (env.stale s.world.now)) s
          ])
      go (some e) = ((merge_entry value mask e, refl), refl, refl)
      go none =
          rw open_
            (append_write_alone (new_entry addr value mask (env.stale s.world.now)) s can.room)

  -- A thread that is alone gets an entry from stm_write, which changes nothing that is shared and
  -- no entry of the read set, where an update transaction finds the lock of the address free, its
  -- version lies in the snapshot or the snapshot can be extended and no word under that lock was
  -- read, and the write set has room.
  pub stm_write_alone :
      (addr value mask : ℕ) (s : State)
      → CanWrite addr s
      → ((e : WriteEntry) × ((stm_write env addr value mask s).0 ≡ returned (some e)))
        × ((stm_write env addr value mask s).1.world.shared ≡ s.world.shared)
        × ((stm_write env addr value mask s).1.tx.r_set ≡ s.tx.r_set)
  unfolding stm_write
  stm_write_alone addr value mask s can =
      let same = shared-tick alone s.world in
      let waited = await_alone (lock_idx addr) s.world can.free in
      let t = record s { world = tick env s.world } in
      let can' : CanWrite addr t = record {
        update = can.update;
        free = rw same can.free;
        reach = rw same can.reach;
        room = can.room;
      } in
      let (e, sh, reads) = write_unlocked_alone addr value mask t can' in
      subst (Writes s)
        (sym (go s.tx.ro (await_unlocked env env.spins (lock_idx addr) s.world) can.update waited))
        (e, sh ∙ same, reads)
    where
      go :
          (ro : Bool) (o : Option (ℕ × World))
          → ro ≡ false
          → o ≡ some ((tick env s.world).shared.lock (lock_idx addr), tick env s.world)
          → (if ro then refuse_ro env s else elim o [
            | none ↦ (spinning, s)
            | some (l, w) ↦ write_unlocked env addr value mask l (record s { world = w })
          ])
            ≡ write_unlocked env addr value mask
                ((tick env s.world).shared.lock (lock_idx addr))
                (record s { world = tick env s.world })
      go true o e h = cc
      go false o e h = rw h refl
