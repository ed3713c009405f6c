-- ===== src/Commit/Start.antt =====
-- The state in which stm_commit (tinySTM/src/stm.c) starts its acquisition phase.
use tiny_stm_reval.Prelude.{
  ℕ, ◌≡◌, refl, ◌∙◌, false, List, [], ◌∷◌, ◌++◌, arith, rev_onto, length-rev_onto,
}
use mathlib.Core.Path.{subst}
use mathlib.Core.List.{append-nil}
use mathlib.Core.Bool.{false≢true}
use tiny_stm_reval.Machine.{Shared, Env}
use tiny_stm_reval.Descriptor.{WriteEntry, WriteSet, State}
use tiny_stm_reval.Quiet.{Alone, CanStart}
use tiny_stm_reval.Commit.{acquire_locks, is_empty}
use tiny_stm_reval.Commit.Locks.{Untaken, All-rev_onto}
use tiny_stm_reval.Commit.Holding.{Placed, Worked}
use tiny_stm_reval.Commit.Acquire.{AcquireHolds, acquire_locks_holds}
use tiny_stm_reval.Commit.Release.{Fits}

-- A transaction that comes to its outermost commit with writes, and holds no lock yet.
pub record CanCommit (s : State) : Type 0 where
  pub outermost : s.tx.nesting ≡ 1
  pub writes : is_empty s.tx.w_set.entries ≡ false
  pub untaken : Untaken s.tx.w_set.entries
  pub none_acquired : s.tx.w_set.nb_acquired ≡ 0
  pub placed : Placed s.tx.w_set s.world.shared.lock
  pub fits : Fits s.world.shared.lock
  pub start : CanStart s.world.shared

rev_onto-twice :
    (xs ys zs : List WriteEntry) → rev_onto (rev_onto xs ys) zs ≡ rev_onto ys (xs ++ zs)
unfolding rev_onto
rev_onto-twice [] ys zs = refl
rev_onto-twice (x ∷ xs) ys zs = rev_onto-twice xs (x ∷ ys) zs

pub reversed : (xs : List WriteEntry) → rev_onto (rev_onto xs []) [] ≡ xs
unfolding rev_onto
reversed xs = rev_onto-twice xs [] [] ∙ append-nil xs

Worked-nothing : (ws : WriteSet) (sh : Shared) (nb : ℕ) → nb ≡ 0 → Worked ws sh [] nb sh
Worked-nothing ws sh nb z = record {
  holding = record { own = λ j t. cc; other = λ j t. refl; remembers = tt; rest = refl };
  counted = z;
}

module _ {env : Env} (alone : Alone env) where
  -- The acquisition phase, from the start.
  pub acquired :
      (s : State)
      → CanCommit s
      → AcquireHolds alone s.tx.w_set s.world.shared s.tx.w_set.entries (
          acquire_locks env s.tx.w_set
            (rev_onto s.tx.w_set.entries [])
            []
            s.tx.w_set.nb_acquired
            s.world)
  acquired s can =
      let ws = s.tx.w_set in
      subst
        (λ o.
          AcquireHolds alone ws s.world.shared o
            (acquire_locks env ws (rev_onto ws.entries []) [] ws.nb_acquired s.world))
        (reversed ws.entries)
        (acquire_locks_holds alone ws s.world.shared (rev_onto ws.entries []) [] ws.nb_acquired
          s.world can.placed (All-rev_onto _ ws.entries [] can.untaken tt)
          (omega (arith, length-rev_onto ws.entries []))
          (Worked-nothing ws s.world.shared ws.nb_acquired can.none_acquired) (λ j c. c)
          (λ j c. absurd (false≢true c)))
