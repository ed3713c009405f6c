-- ===== src/Snapshot.antt =====
-- What it means that a transaction of tinySTM/src/stm.c works on one snapshot of memory, and what
-- the other threads must keep for it: the vocabulary of the modules below.
pub mod Validate
pub mod Run
pub mod Load
pub mod Loop
pub mod Attempt
pub mod Extend
use tiny_stm_reval.Prelude.{[], ℕ, suc, ◌≤◌, ◌≡◌, ◌⊎◌, true, false, List, ◌∷◌, All}
use tiny_stm_reval.Word.{get_owned, get_addr, get_timestamp, lock_idx}
use tiny_stm_reval.Machine.{Shared, Env, World, tick}
use tiny_stm_reval.Descriptor.{ReadEntry, WriteSet, ReadSet, Tx, State, in_write_set}

-- A history: the value that an address has after all commits up to a time.
abbrev pub History : Type 0
History = ℕ → ℕ → ℕ

-- No commit with a time from `v + 1` to `t` changes address `a`.
abbrev pub Unchanged : History → ℕ → ℕ → ℕ → Type 0
Unchanged h a v t = (u : ℕ) → v ≤ u → u ≤ t → h u a ≡ h v a

-- The shared state agrees with the history. `stamp n a` is the time of the commit that wrote the
-- value which memory holds at `a` before access `n`. While a lock is free, its version lies between
-- that time and the clock, and no later commit up to the clock changed what it covers. A lock that
-- is taken does not name an entry of this transaction.
pub record Good (h : History) (stamp : ℕ → ℕ → ℕ) (ws : WriteSet) (w : World) : Type 0 where
  pub value : (a : ℕ) → w.shared.mem a ≡ h (stamp w.now a) a
  pub stamped :
      (a : ℕ)
      → get_owned (w.shared.lock (lock_idx a)) ≡ false
      → (stamp w.now a ≤ get_timestamp (w.shared.lock (lock_idx a)))
        × (get_timestamp (w.shared.lock (lock_idx a)) ≤ w.shared.clock)
  pub unchanged :
      (a : ℕ)
      → get_owned (w.shared.lock (lock_idx a)) ≡ false
      → Unchanged h a (stamp w.now a) w.shared.clock
  pub foreign :
      (j : ℕ)
      → get_owned (w.shared.lock j) ≡ true
      → in_write_set ws (get_addr (w.shared.lock j)) ≡ false

-- What the other threads keep: agreement with the history, a clock that does not go back, and
-- values that are only replaced by later ones.
pub record Rely (env : Env) (h : History) (stamp : ℕ → ℕ → ℕ) (ws : WriteSet) : Type 0 where
  pub keeps : (w : World) → Good h stamp ws w → Good h stamp ws (tick env w)
  pub forward : (w : World) → Good h stamp ws w → w.shared.clock ≤ (tick env w).shared.clock
  pub later : (n a : ℕ) → stamp n a ≤ stamp (suc n) a

-- An entry of the read set holds at time `t`.
abbrev pub EntryHolds : History → ℕ → ReadEntry → Type 0
EntryHolds h t r = (r.version ≤ t) × ((a : ℕ) → lock_idx a ≡ r.lock → Unchanged h a r.version t)

-- The transaction's read set is a snapshot at its `end`.
pub record IsSnapshot (h : History) (s : State) : Type 0 where
  pub entries : All (EntryHolds h s.tx.end_) s.tx.r_set.entries
  pub bounded : s.tx.end_ ≤ s.world.shared.clock

-- The read set has an entry for the lock that covers an address.
abbrev pub Covered : ℕ → List ReadEntry → Type 0
Covered a [] = ⊥
Covered a (r ∷ rs) = (lock_idx a ≡ r.lock) ⊎ Covered a rs

-- The addresses at which the transaction's snapshot may not move: all, in a read-only one.
abbrev pub Pinned : ℕ → Tx → Type 0
Pinned a tx = (tx.ro ≡ true) ⊎ Covered a tx.r_set.entries
