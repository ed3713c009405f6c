-- ===== src/Snapshot/Loop.antt =====
-- The loop of stm_read_invisible: each way out of it keeps the snapshot.
use tiny_stm_reval.Prelude.{
  ℕ, zero, suc, ◌≤◌, ◌≡◌, refl, sym, ◌∙◌, inl, inr, Bool, true, false, not, ◌||◌, Option, some,
  arith, ltb, ◌==◌, ==_iff, Bool-cases,
}
use mathlib.Core.Path.{subst}
use mathlib.Core.Option.{some-injective}
use tiny_stm_reval.Word.{get_owned, get_timestamp, lock_idx}
use tiny_stm_reval.Machine.{Env, World, tick}
use tiny_stm_reval.Descriptor.{WriteSet, State}
use tiny_stm_reval.Validate.{stm_extend}
use tiny_stm_reval.Read.{
  Attempt, again, accept, refuse, recheck, try_extend, read_attempt, read_loop,
}
use tiny_stm_reval.Snapshot.{History, Rely}
use tiny_stm_reval.Snapshot.Extend.{
  Ready, Later, Later-trans, tick-Ready, attr-stm_extend, extend_Ready, end-stm_extend,
}
use tiny_stm_reval.Snapshot.Attempt.{
  Seen, Seen-load, Seen-tick, Seen-extend, value_current, Passes, reload-Passes, accept_holds,
}

or_false : (a b : Bool) → (a || b) ≡ false → a ≡ false
or_false true b e = e
or_false false b e = refl

module _ {env : Env} {h : History} {stamp : ℕ → ℕ → ℕ} {ws : WriteSet}
    (rely : Rely env h stamp ws) where
  -- `later` is what holds between the state before the pass and the one here.
  recheck-Passes :
      (addr value l : ℕ) (s₀ s : State)
      → Ready h stamp ws s
      → Later h s₀ s
      → value ≡ h (get_timestamp l) addr
      → get_owned l ≡ false
      → get_timestamp l ≤ s.tx.end_
      → Seen h stamp addr l s.world
      → Passes rely addr s₀ (recheck env addr value l (true, s))
  unfolding recheck
  recheck-Passes addr value l s₀ s r later v free b seen =
      elim (Bool-cases (w.shared.lock (lock_idx addr) == l)) [
        | inl y ↦ rw y (
          r',
          on,
          v,
          accept_holds rely addr l (record s { world = w }) r' ((==_iff _ _).0 y) free b,
        )
        | inr n ↦ rw n (r', on, Seen-tick rely addr l s.world r.good seen)
      ]
    where
      w : World
      w = tick env s.world

      r' : Ready h stamp ws (record s { world = w })
      r' = tick-Ready rely s r

      on : Later h s₀ (record s { world = w })
      on = record { ro = later.ro; reads = later.reads; attr = later.attr; pinned = later.pinned }

  -- After an extension the version that was read lies in the snapshot.
  try_extend-Passes :
      (addr value l : ℕ) (s₀ s : State)
      → Ready h stamp ws s
      → Later h s₀ s
      → value ≡ h (get_timestamp l) addr
      → get_owned l ≡ false
      → get_timestamp l ≤ s.world.shared.clock
      → Seen h stamp addr l s.world
      → Passes rely addr s₀ (try_extend env addr value l s)
  unfolding try_extend recheck
  try_extend-Passes addr value l s₀ s r later v free b seen =
      elim (Bool-cases (s.tx.ro || not s.tx.can_extend)) [
        | inl y ↦ rw y later.attr
        | inr n ↦ rw n (go (or_false _ _ n) (stm_extend env s).0 refl)
      ]
    where
      go :
          s.tx.ro ≡ false
          → (b' : Bool) → (stm_extend env s).0 ≡ b'
          → Passes rely addr s₀ (recheck env addr value l (b', (stm_extend env s).1))
      go up false e = attr-stm_extend env s ∙ later.attr
      go up true e =
          let (r', on) = extend_Ready rely s r up e in
          recheck-Passes addr value l s₀ (stm_extend env s).1 r' (Later-trans h _ s _ later on) v
            free (rw (end-stm_extend env s e) (omega (arith, rely.forward s.world r.good)))
            (Seen-extend rely addr l s r seen)

  pub read_attempt-Passes :
      (addr l : ℕ) (s : State)
      → Ready h stamp ws s
      → Seen h stamp addr l s.world
      → Passes rely addr s (read_attempt env addr l s)
  unfolding read_attempt
  read_attempt-Passes addr l s r seen = elim (Bool-cases (get_owned l)) [
    | inl y ↦ rw y (reload-Passes rely addr s r)
    | inr free ↦ elim (Bool-cases (l == w₂.shared.lock (lock_idx addr))) [
      | inr n ↦ rw (free, n) (r₂, on, Seen-load rely addr w₂ r₂.good)
      | inl y ↦
          let e : w₂.shared.lock (lock_idx addr) ≡ l = sym ((==_iff _ _).0 y) in
          let v = value_current rely addr l s.world r.good seen free e in
          let b : get_timestamp l ≤ w₂.shared.clock =
            rw e at ((r₂.good.stamped addr (rw e free)).1) in
          elim (Bool-cases (ltb s.tx.end_ (get_timestamp l))) [
            | inl old ↦ rw (free, y, old) (try_extend-Passes addr _ l s s₂ r₂ on v free b seen₂)
            | inr fits ↦
                rw (free, y, fits) (r₂, on, v, accept_holds rely addr l s₂ r₂ e free (ground arith))
          ]
    ]
  ]
    where
      w₂ : World
      w₂ = tick env (tick env s.world)

      s₂ : State
      s₂ = record s { world = w₂ }

      r₂ : Ready h stamp ws s₂
      r₂ = tick-Ready rely _ (tick-Ready rely s r)

      seen₂ : Seen h stamp addr l w₂
      seen₂ =
          Seen-tick rely addr l (tick env s.world) (rely.keeps s.world r.good)
            (Seen-tick rely addr l s.world r.good seen)

      on : Later h s s₂
      on = record { ro = refl; reads = refl; attr = refl; pinned = λ a p. refl }

  -- A pass that follows on other passes.
  Passes-after :
      (addr : ℕ) (s t : State) (a : Attempt)
      → Later h s t
      → Passes rely addr t a
      → Passes rely addr s a
  Passes-after addr s t (again l' s') on p = (p.0, Later-trans h s t s' on p.1, p.2)
  Passes-after addr s t (accept v k s') on p = (p.0, Later-trans h s t s' on p.1, p.2, p.3)
  Passes-after addr s t (refuse s') on p = p ∙ on.attr

  pub read_loop-Passes :
      (n addr l : ℕ) (s : State)
      → Ready h stamp ws s
      → Seen h stamp addr l s.world
      → (a : Attempt) → read_loop env n addr l s ≡ some a
      → Passes rely addr s a
  unfolding read_loop
  read_loop-Passes zero addr l s r seen a e = cc
  read_loop-Passes (suc n) addr l s r seen a e =
      go (read_loop-Passes n addr) (read_attempt env addr l s) (read_attempt-Passes addr l s r seen)
        e
    where
      go :
          ((l' : ℕ) (s' : State)
            → Ready h stamp ws s'
            → Seen h stamp addr l' s'.world
            → (a' : Attempt) → read_loop env n addr l' s' ≡ some a'
            → Passes rely addr s' a')
          → (b : Attempt) → Passes rely addr s b
          → ◌≡◌ {A = Option Attempt}
              (elim b [
                | again l' s' ↦ read_loop env n addr l' s'
                | accept value version s' ↦ some (accept value version s')
                | refuse s' ↦ some (refuse s')
              ])
              (some a)
          → Passes rely addr s a
      go ih (again l' s') p q = Passes-after addr s s' a p.1 (ih l' s' p.0 p.2 a q)
      go ih (accept v k s') p q = subst (Passes rely addr s) (some-injective _ _ q) p
      go ih (refuse s') p q = subst (Passes rely addr s) (some-injective _ _ q) p
