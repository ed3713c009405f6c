-- ===== src/Snapshot/Load.antt =====
-- stm_load returns values of one snapshot, however the other threads interleave with it.
use tiny_stm_reval.Prelude.{
  ℕ, ◌≡◌, refl, sym, ap, ◌∙◌, ◌≢◌, ◌⊎◌, inl, inr, Bool, true, false, Option, none, some, List, [],
  ◌∷◌, ◌++◌, arith, All-append,
}
use mathlib.Core.Path.{subst}
use tiny_stm_reval.Word.{lock_idx}
use tiny_stm_reval.Machine.{Env, World, tick}
use tiny_stm_reval.Descriptor.{
  ReadEntry, WriteSet, ReadSet, State, Exit, returned, jumped, exited, spinning,
}
use tiny_stm_reval.Sets.{has_written, extend_read_set, add_read}
use tiny_stm_reval.Restart.{after_rollback, no_retry}
use tiny_stm_reval.Read.{
  Attempt, again, accept, refuse, read_loop, overlay, finish_accept, finish_read, written_whole,
  stm_load, abort_val_read,
}
use tiny_stm_reval.Restart.Frame.{rollback_jumps}
use tiny_stm_reval.Snapshot.{History, Rely, EntryHolds, Covered, Pinned}
use tiny_stm_reval.Snapshot.Extend.{Ready, tick-Ready}
use tiny_stm_reval.Snapshot.Attempt.{Seen-load, Passes}
use tiny_stm_reval.Snapshot.Loop.{read_loop-Passes}

-- The value that the transaction sees at an address: its own writes over a value of memory.
abbrev pub own_or : Option ℕ → ℕ → ℕ
own_or (some own) value = own
own_or none value = value

abbrev pub seen_value : WriteSet → ℕ → ℕ → ℕ
seen_value ws a value =
    own_or (written_whole (has_written ws.entries a)) (overlay (has_written ws.entries a) value)

Covered-append :
    (a : ℕ) (rs : List ReadEntry) (r : ReadEntry) → Covered a rs → Covered a (rs ++ (r ∷ []))
Covered-append a [] r c = absurd c
Covered-append a (x ∷ rs) r (inl e) = inl e
Covered-append a (x ∷ rs) r (inr c) = inr (Covered-append a rs r c)

Covered-added :
    (a version : ℕ) (rs : List ReadEntry)
    → Covered a (rs ++ (record { version = version; lock = lock_idx a } ∷ []))
Covered-added a version [] = inl refl
Covered-added a version (x ∷ rs) = inr (Covered-added a version rs)

entries-add_read :
    (env : Env) (r : ReadEntry) (rs : ReadSet) {rs' : ReadSet}
    → add_read env r rs ≡ some rs'
    → rs'.entries ≡ rs.entries ++ (r ∷ [])
unfolding add_read extend_read_set
entries-add_read env r rs e = ground arith

-- What a read adds to what it leaves alone.
pub record Loaded (h : History) (stamp : ℕ → ℕ → ℕ) (ws : WriteSet) (a : ℕ) (s s' : State)
    : Type 0 where
  pub ready : Ready h stamp ws s'
  pub attr : s'.tx.attr ≡ s.tx.attr
  pub kept : (b : ℕ) → Pinned b s.tx → Pinned b s'.tx × (h s'.tx.end_ b ≡ h s.tx.end_ b)

-- A value that is current at a version of the snapshot is the snapshot's.
in_snapshot :
    {h : History} (ws : WriteSet) (a value version : ℕ) (s' : State)
    → written_whole (has_written ws.entries a) ≡ none
    → value ≡ h version a
    → EntryHolds h s'.tx.end_ (record { version = version; lock = lock_idx a })
    → overlay (has_written ws.entries a) value ≡ seen_value ws a (h s'.tx.end_ a)
in_snapshot {h} ws a value version s' part v hold = rw part (
    ap (overlay (has_written ws.entries a))
      (v ∙ sym (hold.1 a refl s'.tx.end_ hold.0 (omega arith))))

module _ {env : Env} {h : History} {stamp : ℕ → ℕ → ℕ} {ws : WriteSet}
    (rely : Rely env h stamp ws) where
  -- What holds if a load returns.
  abbrev pub LoadHolds : ℕ → State → Exit ℕ × State → Type 0
  LoadHolds a s (returned v, s') =
      Loaded h stamp ws a s s'
      × (v ≡ seen_value ws a (h s'.tx.end_ a))
      × (((x y : ℕ) → seen_value ws a x ≡ seen_value ws a y) ⊎ Pinned a s'.tx)
  LoadHolds a s (jumped r, s') = Unit
  LoadHolds a s (exited, s') = Unit
  LoadHolds a s (spinning, s') = Unit

  refuse_LoadHolds :
      (a : ℕ) (s : State) (p : Exit (Unit {0}) × State)
      → ((u : Unit {0}) → p.0 ≢ returned u)
      → LoadHolds a s (after_rollback 0 p)
  unfolding after_rollback
  refuse_LoadHolds a s (returned u, s') no_return = absurd (no_return u refl)
  refuse_LoadHolds a s (jumped r, s') no_return = tt
  refuse_LoadHolds a s (exited, s') no_return = tt
  refuse_LoadHolds a s (spinning, s') no_return = tt

  accept_LoadHolds :
      (a value version : ℕ) (s s' : State)
      → written_whole (has_written ws.entries a) ≡ none
      → Passes rely a s (accept value version s')
      → (ro : Bool) → s'.tx.ro ≡ ro
      → LoadHolds a s (finish_accept env a (has_written ws.entries a) value version s' ro)
  unfolding finish_accept
  accept_LoadHolds a value version s s' part (r, on, v, hold) true ro = (
    record { ready = r; attr = on.attr; kept = λ b pin. (inl ro, on.pinned b pin) },
    in_snapshot ws a value version s' part v hold,
    inr (inl ro),
  )
  accept_LoadHolds a value version s s' part (r, on, v, hold) false ro =
      go (add_read env new s'.tx.r_set) refl
    where
      new : ReadEntry
      new = record { version = version; lock = lock_idx a }

      still :
          (rs : ReadSet)
          → rs.entries ≡ s'.tx.r_set.entries ++ (new ∷ [])
          → (b : ℕ) → Pinned b s.tx
          → (s'.tx.ro ≡ true) ⊎ Covered b rs.entries
      still rs grown b (inl e) = inl (on.ro ∙ e)
      still rs grown b (inr c) =
          inr (rw grown (Covered-append b s'.tx.r_set.entries new (rw on.reads c)))

      go :
          (o : Option ReadSet)
          → add_read env new s'.tx.r_set ≡ o
          → LoadHolds a s (elim o [
            | none ↦ (exited, s')
            | some rs ↦
                let tx = s'.tx in
                (
                  returned (overlay (has_written ws.entries a) value),
                  record s' { tx = record tx { r_set = rs } },
                )
          ])
      go none e = tt
      go (some rs) e =
          let grown = entries-add_read env new s'.tx.r_set e in
          (
            record {
              ready = record {
                writes = r.writes;
                good = r.good;
                snapshot = record {
                  entries =
                      rw grown
                        (All-append _ s'.tx.r_set.entries (new ∷ []) r.snapshot.entries (hold, tt));
                  bounded = r.snapshot.bounded;
                };
              };
              attr = on.attr;
              kept = λ b pin. (still rs grown b pin, on.pinned b pin);
            },
            in_snapshot ws a value version s' part v hold,
            inr (inr (rw grown (Covered-added a version s'.tx.r_set.entries))),
          )

  finish_LoadHolds :
      (a : ℕ) (s t : State) (o : Option Attempt)
      → no_retry s.tx.attr ≡ false
      → written_whole (has_written ws.entries a) ≡ none
      → ((att : Attempt) → o ≡ some att → Passes rely a s att)
      → LoadHolds a s (finish_read env a (has_written ws.entries a) t o)
  unfolding finish_read
  finish_LoadHolds a s t none may part p = tt
  finish_LoadHolds a s t (some (again l s')) may part p = tt
  finish_LoadHolds a s t (some (refuse s')) may part p =
      refuse_LoadHolds a s _ (rollback_jumps env abort_val_read _ (rw (p _ refl) may))
  finish_LoadHolds a s t (some (accept value version s')) may part p =
      accept_LoadHolds a value version s s' part (p _ refl) s'.tx.ro refl

  pub stm_load-LoadHolds :
      (a : ℕ) (s : State)
      → Ready h stamp ws s
      → no_retry s.tx.attr ≡ false
      → LoadHolds a s (stm_load env a s)
  unfolding stm_load
  stm_load-LoadHolds a s r may =
      subst Loads (sym r.writes) (go (written_whole (has_written ws.entries a)) refl)
    where
      w : World
      w = tick env s.world

      s' : State
      s' = record s { world = w }

      r' : Ready h stamp ws s'
      r' = tick-Ready rely s r

      Loads : WriteSet → Type 0
      Loads x = LoadHolds a s (elim (written_whole (has_written x.entries a)) [
        | some value ↦ (returned value, s)
        | none ↦
            finish_read env a (has_written x.entries a) s'
              (read_loop env env.spins a (w.shared.lock (lock_idx a)) s')
      ])

      -- A pass that starts from `s'` also follows on `s`.
      from : (att : Attempt) → Passes rely a s' att → Passes rely a s att
      from (again l t) p = (
        p.0,
        record { ro = p.1.ro; reads = p.1.reads; attr = p.1.attr; pinned = p.1.pinned },
        p.2,
      )
      from (accept v k t) p = (
        p.0,
        record { ro = p.1.ro; reads = p.1.reads; attr = p.1.attr; pinned = p.1.pinned },
        p.2,
        p.3,
      )
      from (refuse t) p = p

      go :
          (o : Option ℕ)
          → written_whole (has_written ws.entries a) ≡ o
          → LoadHolds a s (elim o [
            | some value ↦ (returned value, s)
            | none ↦
                finish_read env a
                  (has_written ws.entries a)
                  s'
                  (read_loop env env.spins a (w.shared.lock (lock_idx a)) s')
          ])
      go (some value) e =
          (record { ready = r; attr = refl; kept = λ b pin. (pin, refl) }, rw e, inl (λ x y. rw e))
      go none e =
          finish_LoadHolds a s s' (read_loop env env.spins a (w.shared.lock (lock_idx a)) s') may e
            (λ att q.
              from att
                (read_loop-Passes rely env.spins a _ s' r' (Seen-load rely a w r'.good) att q))
