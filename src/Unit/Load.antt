-- ===== src/Unit/Load.antt =====
-- stm_unit_load (tinySTM/src/stm.c) reads a value and its version together, however the other
-- threads interleave.
use tiny_stm_reval.Prelude.{
  ℕ, zero, suc, ◌≤◌, ◌≡◌, sym, ◌∙◌, inl, inr, false, Option, some, arith, ◌==◌, ==_iff, Bool-cases,
}
use mathlib.Core.Path.{subst}
use mathlib.Core.Option.{some-injective}
use tiny_stm_reval.Word.{get_owned, get_timestamp, lock_idx}
use tiny_stm_reval.Machine.{Env, World, tick}
use tiny_stm_reval.Descriptor.{WriteSet}
use tiny_stm_reval.Unit.{UnitAttempt, retry, loaded, unit_attempt, unit_load_loop, stm_unit_load}
use tiny_stm_reval.Snapshot.{History, Unchanged, Good, Rely}
use tiny_stm_reval.Snapshot.Attempt.{Seen, Seen-load, value_current}

module _ {env : Env} {h : History} {stamp : ℕ → ℕ → ℕ} {ws : WriteSet}
    (rely : Rely env h stamp ws) where
  -- The value is the one of the history at the version, and no commit up to the clock replaced it.
  abbrev Current : ℕ → ℕ × ℕ × World → Type 0
  Current a (value, version, w) =
      (value ≡ h version a) × (version ≤ w.shared.clock) × Unchanged h a version w.shared.clock

  abbrev Attempted : ℕ → UnitAttempt → Type 0
  Attempted a (retry l w) = Good h stamp ws w × Seen h stamp a l w
  Attempted a (loaded value version w) = Current a (value, version, w)

  unit_attempt_holds :
      (a l : ℕ) (w : World)
      → Good h stamp ws w
      → Seen h stamp a l w
      → Attempted a (unit_attempt env a l w)
  unfolding unit_attempt
  unit_attempt_holds a l w g seen = elim (Bool-cases (get_owned l)) [
    | inl y ↦ rw y (rely.keeps w g, Seen-load rely a (tick env w) (rely.keeps w g))
    | inr free ↦ elim (Bool-cases (l == w₂.shared.lock (lock_idx a))) [
      | inr n ↦ rw (free, n) (g₂, Seen-load rely a w₂ g₂)
      | inl y ↦
          let e : w₂.shared.lock (lock_idx a) ≡ l = sym ((==_iff _ _).0 y) in
          let free₂ : get_owned (w₂.shared.lock (lock_idx a)) ≡ false = rw e free in
          let (b, c) = g₂.stamped a free₂ in
          let b' : stamp w₂.now a ≤ get_timestamp l = rw e at b in
          let c' : get_timestamp l ≤ w₂.shared.clock = rw e at c in
          rw (free, y)
            (
              value_current rely a l w g seen free e,
              c',
              λ u v k.
                  g₂.unchanged a free₂ u (omega arith) k
                  ∙ sym (g₂.unchanged a free₂ (get_timestamp l) b' c'),
            )
    ]
  ]
    where
      w₂ : World
      w₂ = tick env (tick env w)

      g₂ : Good h stamp ws w₂
      g₂ = rely.keeps (tick env w) (rely.keeps w g)

  unit_load_loop-Current :
      (n a l : ℕ) (w : World)
      → Good h stamp ws w
      → Seen h stamp a l w
      → (r : ℕ × ℕ × World) → unit_load_loop env n a l w ≡ some r
      → Current a r
  unfolding unit_load_loop
  unit_load_loop-Current zero a l w g seen r e = cc
  unit_load_loop-Current (suc n) a l w g seen r e =
      go (unit_load_loop-Current n a) (unit_attempt env a l w) (unit_attempt_holds a l w g seen) e
    where
      go :
          ((l' : ℕ) (w' : World)
            → Good h stamp ws w'
            → Seen h stamp a l' w'
            → (r' : ℕ × ℕ × World) → unit_load_loop env n a l' w' ≡ some r'
            → Current a r')
          → (b : UnitAttempt) → Attempted a b
          → ◌≡◌ {A = Option (ℕ × ℕ × World)}
              (elim b [
                | retry l' w' ↦ unit_load_loop env n a l' w'
                | loaded value version w' ↦ some (value, version, w')
              ])
              (some r)
          → Current a r
      go ih (retry l' w') p q = ih l' w' p.0 p.1 r q
      go ih (loaded v k w') p q = subst (Current a) (some-injective _ _ q) p

  -- If stm_unit_load returns, its value is the one that the history has at the time stamp returned,
  -- that time is not after the clock, and no commit up to the clock at the end of the call has
  -- replaced the value. The other threads keep memory, locks and clock in agreement with the history.
  pub stm_unit_load_current :
      (a : ℕ) (w : World) (value version : ℕ) (w' : World)
      → Good h stamp ws w
      → stm_unit_load env a w ≡ some (value, version, w')
      → (value ≡ h version a) × (version ≤ w'.shared.clock) × Unchanged h a version w'.shared.clock
  unfolding stm_unit_load
  stm_unit_load_current a w value version w' g e =
      let g' = rely.keeps w g in
      unit_load_loop-Current env.spins a _ (tick env w) g' (Seen-load rely a (tick env w) g') _ e
