-- ===== src/Snapshot/Run.antt =====
-- A transaction that loads a sequence of addresses (the application's side of
-- tinySTM/src/stm.c): all values belong to one snapshot, the one at its last `end`.
use tiny_stm_reval.Prelude.{ℕ, ◌≡◌, refl, sym, ap, ◌∙◌, ◌⊎◌, inl, inr, false, List, [], ◌∷◌}
use mathlib.Core.Path.{subst, ap₂}
use mathlib.Core.List.{map}
use tiny_stm_reval.Machine.{Env}
use tiny_stm_reval.Descriptor.{WriteSet, State, Exit, returned, jumped, exited, spinning, and_then}
use tiny_stm_reval.Restart.{no_retry}
use tiny_stm_reval.Read.{stm_load}
use tiny_stm_reval.Snapshot.{History, Rely, IsSnapshot, Pinned}
use tiny_stm_reval.Snapshot.Extend.{Ready}
use tiny_stm_reval.Snapshot.Load.{LoadHolds, seen_value, stm_load-LoadHolds}

unfoldable pub run_loads : Env → List ℕ → State → Exit (List ℕ) × State
run_loads env [] s = (returned [], s)
run_loads env (a ∷ xs) s =
    and_then (stm_load env a s)
      (λ v s'. and_then (run_loads env xs s') (λ vs s''. (returned (v ∷ vs), s'')))

module _ {env : Env} {h : History} {stamp : ℕ → ℕ → ℕ} {ws : WriteSet}
    (rely : Rely env h stamp ws) where
  abbrev RunHolds : List ℕ → State → Exit (List ℕ) × State → Type 0
  RunHolds xs s (returned vs, s') =
      Ready h stamp ws s'
      × ((b : ℕ) → Pinned b s.tx → h s'.tx.end_ b ≡ h s.tx.end_ b)
      × (vs ≡ map (λ a. seen_value ws a (h s'.tx.end_ a)) xs)
  RunHolds xs s (jumped r, s') = Unit
  RunHolds xs s (exited, s') = Unit
  RunHolds xs s (spinning, s') = Unit

  -- The value of the first load, seen at the end of the run.
  first_value :
      (a v : ℕ) (t u : State)
      → v ≡ seen_value ws a (h t.tx.end_ a)
      → ((x y : ℕ) → seen_value ws a x ≡ seen_value ws a y) ⊎ Pinned a t.tx
      → ((b : ℕ) → Pinned b t.tx → h u.tx.end_ b ≡ h t.tx.end_ b)
      → v ≡ seen_value ws a (h u.tx.end_ a)
  first_value a v t u e (inl own) k = e ∙ own _ _
  first_value a v t u e (inr pin) k = e ∙ ap (seen_value ws a) (sym (k a pin))

  run_loads-RunHolds :
      (xs : List ℕ) (s : State)
      → Ready h stamp ws s
      → no_retry s.tx.attr ≡ false
      → RunHolds xs s (run_loads env xs s)
  unfolding run_loads
  run_loads-RunHolds [] s r may = (r, λ b pin. refl, refl)
  run_loads-RunHolds (a ∷ xs) s r may =
      one (stm_load env a s) (stm_load-LoadHolds rely a s r may) (run_loads-RunHolds xs)
    where
      two :
          (v : ℕ) (t : State) (p : Exit (List ℕ) × State)
          → LoadHolds rely a s (returned v, t)
          → RunHolds xs t p
          → RunHolds (a ∷ xs) s (and_then p (λ vs s''. (returned (v ∷ vs), s'')))
      two v t (returned vs, u) (l, e, pin) (r', k, es) =
          unfold and_then in
          (r', λ b q. k b (l.kept b q).0 ∙ (l.kept b q).1, ap₂ ◌∷◌ (first_value a v t u e pin k) es)
      two v t (jumped x, u) l k = unfold and_then in tt
      two v t (exited, u) l k = unfold and_then in tt
      two v t (spinning, u) l k = unfold and_then in tt

      one :
          (p : Exit ℕ × State)
          → LoadHolds rely a s p
          → ((t : State)
              → Ready h stamp ws t
              → no_retry t.tx.attr ≡ false
              → RunHolds xs t (run_loads env xs t))
          → RunHolds (a ∷ xs) s (
              and_then p
                (λ v s'. and_then (run_loads env xs s') (λ vs s''. (returned (v ∷ vs), s''))))
      one (returned v, t) l ih =
          unfold and_then in two v t (run_loads env xs t) l (ih t l.0.ready (rw l.0.attr may))
      one (jumped x, t) l ih = unfold and_then in tt
      one (exited, t) l ih = unfold and_then in tt
      one (spinning, t) l ih = unfold and_then in tt

  -- However the other threads interleave, if a sequence of loads returns, then its values are those
  -- that the history has at one time, the `end` of the final state, under the transaction's own
  -- writes, and the read set is a snapshot at that time. The other threads keep memory, locks and
  -- clock in agreement with the history of commits; the transaction starts with a snapshot, and
  -- jumps back when it aborts.
  pub loads_same_time :
      (xs : List ℕ) (s : State) (vs : List ℕ) (s' : State)
      → Ready h stamp ws s
      → no_retry s.tx.attr ≡ false
      → run_loads env xs s ≡ (returned vs, s')
      → (vs ≡ map (λ a. seen_value ws a (h s'.tx.end_ a)) xs) × IsSnapshot h s'
  loads_same_time xs s vs s' r may e =
      let (r', k, es) = subst (RunHolds xs s) e (run_loads-RunHolds xs s r may) in (es, r'.snapshot)
