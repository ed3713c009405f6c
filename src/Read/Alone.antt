-- ===== src/Read/Alone.antt =====
-- stm_load (tinySTM/src/stm.c) for a thread that is alone: the first pass over lock, value and lock
-- succeeds.
use tiny_stm_reval.Prelude.{
  ℕ, ◌≤◌, ◌<◌, ◌≡◌, refl, sym, ap, ◌∙◌, ◌⊎◌, inl, inr, Bool, true, false, not, ◌||◌, Option, none,
  some, List, [], ◌∷◌, ◌++◌, arith, ltb, leb, ◌==◌, if◌then◌else◌, length, All,
}
use mathlib.Core.Path.{subst}
use tiny_stm_reval.Word.{get_owned, get_timestamp, lock_idx, version_max}
use tiny_stm_reval.Machine.{Shared, Env, World, tick}
use tiny_stm_reval.Descriptor.{ReadEntry, ReadSet, WriteSet, Tx, State, Exit, returned}
use tiny_stm_reval.Sets.{has_written, add_read, extend_read_set}
use tiny_stm_reval.Validate.{entry_valid, validate_entries, stm_validate, finish_extend, stm_extend}
use tiny_stm_reval.Read.{
  Attempt, again, accept, refuse, recheck, try_extend, read_attempt, read_loop, finish_accept,
  finish_read, written_whole, stm_load,
}
use tiny_stm_reval.Snapshot.Load.{seen_value}
use tiny_stm_reval.Quiet.{Alone, shared-tick, tries_suc}

-- What validation asks of the read set, in a given shared state.
abbrev pub AllValid : Shared → WriteSet → List ReadEntry → Type 0
AllValid sh ws = All (λ r. entry_valid ws r (sh.lock r.lock) ≡ true)

-- The snapshot can be extended to the clock.
pub record CanExtend (s : State) : Type 0 where
  pub update : s.tx.ro ≡ false
  pub allowed : s.tx.can_extend ≡ true
  pub clock : s.world.shared.clock < version_max
  pub valid : AllValid s.world.shared s.tx.w_set s.tx.r_set.entries

-- The lock of an address is free, its version lies in the snapshot or the snapshot can be extended,
-- and the read set has room.
pub record CanLoad (addr : ℕ) (s : State) : Type 0 where
  pub free : get_owned (s.world.shared.lock (lock_idx addr)) ≡ false
  pub reach : (get_timestamp (s.world.shared.lock (lock_idx addr)) ≤ s.tx.end_) ⊎ CanExtend s
  pub room : (length s.tx.r_set.entries == s.tx.r_set.size) ≡ false

module _ {env : Env} (alone : Alone env) where
  validate_alone :
      (ws : WriteSet) (rs : List ReadEntry) (w : World)
      → AllValid w.shared ws rs
      → ((validate_entries env ws rs w).0 ≡ true)
        × ((validate_entries env ws rs w).1.shared ≡ w.shared)
  unfolding validate_entries
  validate_alone ws [] w ok = (refl, refl)
  validate_alone ws (r ∷ rs) w (v, ok) =
      let same = shared-tick alone w in
      let (a, b) = validate_alone ws rs (tick env w) (rw same ok) in
      let here : entry_valid ws r ((tick env w).shared.lock r.lock) ≡ true = rw same v in
      rw here (a, b ∙ same)

  extend_alone :
      (s : State)
      → CanExtend s
      → ((stm_extend env s).0 ≡ true)
        × ((stm_extend env s).1.world.shared ≡ s.world.shared)
        × ((stm_extend env s).1.tx ≡ (let tx = s.tx in record tx { end_ = s.world.shared.clock }))
        × ((stm_extend env s).1.calls ≡ s.calls)
  unfolding stm_extend stm_validate finish_extend
  extend_alone s can =
      let same = shared-tick alone s.world in
      let below : leb version_max (tick env s.world).shared.clock ≡ false =
        rw same (ground (arith, can.clock)) in
      let (a, b) =
        validate_alone s.tx.w_set s.tx.r_set.entries (tick env s.world) (rw same can.valid) in
      rw (below, a)
        (
          refl,
          b ∙ same,
          ap (λ (x : Shared). let tx = s.tx in record tx { end_ = x.clock }) same,
          refl,
        )

  -- What one pass does.
  abbrev Accepted : ℕ → State → Attempt → Type 0
  Accepted addr s (again l t) = ⊥
  Accepted addr s (refuse t) = ⊥
  Accepted addr s (accept value version t) =
      (value ≡ s.world.shared.mem addr)
      × (t.world.shared ≡ s.world.shared)
      × (t.tx.r_set ≡ s.tx.r_set)
      × (t.tx.w_set ≡ s.tx.w_set)

  recheck_alone :
      (addr value : ℕ) (s₀ : State) (p : Bool × State)
      → value ≡ s₀.world.shared.mem addr
      → p.0 ≡ true
      → p.1.world.shared ≡ s₀.world.shared
      → p.1.tx.r_set ≡ s₀.tx.r_set
      → p.1.tx.w_set ≡ s₀.tx.w_set
      → Accepted addr s₀ (recheck env addr value (s₀.world.shared.lock (lock_idx addr)) p)
  unfolding recheck
  recheck_alone addr value s₀ (false, t) v ok same reads writes = cc
  recheck_alone addr value s₀ (true, t) v ok same reads writes =
      let here = shared-tick alone t.world ∙ same in
      let l : ((tick env t.world).shared.lock (lock_idx addr)
            == s₀.world.shared.lock (lock_idx addr))
          ≡ true =
        rw here (ground arith) in
      rw l (v, here, reads, writes)

  try_extend_alone :
      (addr value : ℕ) (s₀ t : State)
      → CanExtend t
      → value ≡ s₀.world.shared.mem addr
      → t.world.shared ≡ s₀.world.shared
      → t.tx ≡ s₀.tx
      → Accepted addr s₀ (try_extend env addr value (s₀.world.shared.lock (lock_idx addr)) t)
  unfolding try_extend
  try_extend_alone addr value s₀ t can v same tx =
      let (a, b, c, d) = extend_alone t can in
      let may : (t.tx.ro || not t.tx.can_extend) ≡ false =
        ground (arith, can.update, can.allowed) in
      rw may (
        recheck_alone addr value s₀ (stm_extend env t) v a (b ∙ same)
          (ap (λ (x : Tx). x.r_set) c ∙ ap (λ (x : Tx). x.r_set) tx)
          (ap (λ (x : Tx). x.w_set) c ∙ ap (λ (x : Tx). x.w_set) tx))

  read_attempt_alone :
      (addr : ℕ) (s : State)
      → CanLoad addr s
      → Accepted addr s (read_attempt env addr (s.world.shared.lock (lock_idx addr)) s)
  unfolding read_attempt
  read_attempt_alone addr s can =
      let same = shared-tick alone (tick env s.world) ∙ shared-tick alone s.world in
      let value = ap (λ (x : Shared). x.mem addr) (shared-tick alone s.world) in
      let l : (s.world.shared.lock (lock_idx addr)
            == (tick env (tick env s.world)).shared.lock (lock_idx addr))
          ≡ true =
        rw same (ground arith) in
      rw (can.free, l)
        (elim can.reach [
          | inl le ↦
              let old : ltb s.tx.end_ (get_timestamp (s.world.shared.lock (lock_idx addr)))
                  ≡ false =
                ground (arith, le) in
              rw old (value, same, refl, refl)
          | inr ext ↦
              newer value same ext
                (ltb s.tx.end_ (get_timestamp (s.world.shared.lock (lock_idx addr))))
        ])
    where
      newer :
          (tick env s.world).shared.mem addr ≡ s.world.shared.mem addr
          → (tick env (tick env s.world)).shared ≡ s.world.shared
          → CanExtend s
          → (b : Bool)
          → Accepted addr s (
              let t = record s { world = tick env (tick env s.world) } in
              let value = (tick env s.world).shared.mem addr in
              let l = s.world.shared.lock (lock_idx addr) in
              if b then try_extend env addr value l t else accept value (get_timestamp l) t)
      newer value same ext false = (value, same, refl, refl)
      newer value same ext true =
          try_extend_alone addr ((tick env s.world).shared.mem addr) s
            (record s { world = tick env (tick env s.world) })
            (record {
              update = ext.update;
              allowed = ext.allowed;
              clock = rw same ext.clock;
              valid = rw same ext.valid;
            })
            value same refl

  -- How a load ends.
  abbrev Loads : ℕ → State → Exit ℕ × State → Type 0
  Loads addr s p =
      (p.0 ≡ returned (seen_value s.tx.w_set addr (s.world.shared.mem addr)))
      × (p.1.world.shared ≡ s.world.shared)
      × (p.1.tx.w_set ≡ s.tx.w_set)

  add_read_alone :
      (r : ReadEntry) (rs : ReadSet)
      → (length rs.entries == rs.size) ≡ false
      → add_read env r rs ≡ some (record rs { entries = rs.entries ++ (r ∷ []) })
  unfolding add_read extend_read_set
  add_read_alone r rs room = rw (room, add_read) refl

  finish_accept_alone :
      (addr : ℕ) (value version : ℕ) (s t : State) (ro : Bool)
      → written_whole (has_written s.tx.w_set.entries addr) ≡ none
      → (length s.tx.r_set.entries == s.tx.r_set.size) ≡ false
      → Accepted addr s (accept value version t)
      → Loads addr s
          (finish_accept env addr (has_written s.tx.w_set.entries addr) value version t ro)
  unfolding finish_accept
  finish_accept_alone addr value version s t true part room (v, same, reads, writes) =
      (rw (v, part) refl, same, writes)
  finish_accept_alone addr value version s t false part room (v, same, reads, writes) =
      let r : ReadEntry = record { version = version; lock = lock_idx addr } in
      let added = add_read_alone r t.tx.r_set (rw reads room) in
      rw (finish_accept, added) (rw (v, part) refl, same, writes)

  finish_read_alone :
      (addr : ℕ) (s s₀ : State) (more : ℕ → State → Option Attempt) (p : Attempt)
      → written_whole (has_written s.tx.w_set.entries addr) ≡ none
      → (length s.tx.r_set.entries == s.tx.r_set.size) ≡ false
      → Accepted addr s p
      → Loads addr s (
          finish_read env addr (has_written s.tx.w_set.entries addr) s₀ (elim p [
            | again l' s' ↦ more l' s'
            | accept value version s' ↦ some (accept value version s')
            | refuse s' ↦ some (refuse s')
          ]))
  unfolding finish_read
  finish_read_alone addr s s₀ more (again l t) part room ok = absurd ok
  finish_read_alone addr s s₀ more (refuse t) part room ok = absurd ok
  finish_read_alone addr s s₀ more (accept value version t) part room ok =
      finish_accept_alone addr value version s t t.tx.ro part room ok

  read_loop_alone :
      (addr : ℕ) (s : State)
      → CanLoad addr s
      → written_whole (has_written s.tx.w_set.entries addr) ≡ none
      → Loads addr s (
          finish_read env addr
            (has_written s.tx.w_set.entries addr)
            s
            (read_loop env env.spins addr (s.world.shared.lock (lock_idx addr)) s))
  unfolding read_loop
  read_loop_alone addr s can part =
      let (n, e) = tries_suc alone in
      subst
        (λ k. Loads addr s (
          finish_read env addr (has_written s.tx.w_set.entries addr) s
            (read_loop env k addr (s.world.shared.lock (lock_idx addr)) s)))
        (sym e)
        (finish_read_alone addr s s (read_loop env n addr)
          (read_attempt env addr (s.world.shared.lock (lock_idx addr)) s) part can.room
          (read_attempt_alone addr s can))

  -- A thread that is alone gets from stm_load, in one pass, what memory holds under its own writes,
  -- and changes nothing that is shared and no entry of its write set, where the lock of the address
  -- is free, its version lies in the snapshot or the snapshot can be extended, and the read set has
  -- room.
  pub stm_load_alone :
      (addr : ℕ) (s : State)
      → CanLoad addr s
      → ((stm_load env addr s).0 ≡ returned (seen_value s.tx.w_set addr (s.world.shared.mem addr)))
        × ((stm_load env addr s).1.world.shared ≡ s.world.shared)
        × ((stm_load env addr s).1.tx.w_set ≡ s.tx.w_set)
  unfolding stm_load
  stm_load_alone addr s can = go (written_whole (has_written s.tx.w_set.entries addr)) refl
    where
      go :
          (o : Option ℕ)
          → written_whole (has_written s.tx.w_set.entries addr) ≡ o
          → Loads addr s (elim o [
            | some value ↦ (returned value, s)
            | none ↦
                let w = tick env s.world in
                let s' = record s { world = w } in
                finish_read env addr
                  (has_written s.tx.w_set.entries addr)
                  s'
                  (read_loop env env.spins addr (w.shared.lock (lock_idx addr)) s')
          ])
      go (some value) own = (rw own refl, refl, refl)
      go none part =
          let same = shared-tick alone s.world in
          let can' : CanLoad addr (record s { world = tick env s.world }) = record {
            free = rw same can.free;
            reach = elim can.reach [
              | inl le ↦ inl (rw same le)
              | inr ext ↦ inr (record {
                update = ext.update;
                allowed = ext.allowed;
                clock = rw same ext.clock;
                valid = rw same ext.valid;
              })
            ];
            room = can.room;
          } in
          let (v, sh, ws) =
            read_loop_alone addr (record s { world = tick env s.world }) can' part in
          (v ∙ rw same refl, sh ∙ same, ws)
