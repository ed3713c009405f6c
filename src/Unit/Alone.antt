-- ===== src/Unit/Alone.antt =====
-- stm_unit_load (tinySTM/src/stm.c) for a thread that is alone: it ends in its first pass.
use tiny_stm_reval.Prelude.{ℕ, suc, ◌≡◌, refl, sym, ap, ◌∙◌, true, false, some, arith, ◌==◌}
use mathlib.Core.Path.{subst}
use tiny_stm_reval.Word.{get_owned, get_timestamp, lock_idx}
use tiny_stm_reval.Machine.{Shared, Env, World, tick}
use tiny_stm_reval.Unit.{unit_attempt, loaded, unit_load_loop, stm_unit_load}
use tiny_stm_reval.Quiet.{Alone, shared-tick, tries_suc}

module _ {env : Env} (alone : Alone env) where
  -- The world after a load, which makes two accesses behind its first.
  abbrev two_on : World → World
  two_on w = tick env (tick env w)

  unit_attempt_alone :
      (addr l : ℕ) (w : World)
      → w.shared.lock (lock_idx addr) ≡ l
      → get_owned l ≡ false
      → unit_attempt env addr l w ≡ loaded (w.shared.mem addr) (get_timestamp l) (two_on w)
  unfolding unit_attempt
  unit_attempt_alone addr l w h free =
      let one = shared-tick alone w in
      let both = shared-tick alone (tick env w) ∙ one in
      let same : (l == (two_on w).shared.lock (lock_idx addr)) ≡ true =
        rw both (ground (arith, h)) in
      rw (unit_attempt, free, same)
        (ap (λ (x : Shared). loaded (x.mem addr) (get_timestamp l) (two_on w)) one)

  first_pass :
      (n addr l : ℕ) (w : World) (value version : ℕ) (w' : World)
      → unit_attempt env addr l w ≡ loaded value version w'
      → unit_load_loop env (suc n) addr l w ≡ some (value, version, w')
  unfolding unit_load_loop
  first_pass n addr l w value version w' h = rw (unit_load_loop, h) refl

  -- A thread that is alone gets from stm_unit_load, in one pass, what memory holds and the version
  -- of the lock, and changes nothing that is shared, where the lock of the address is free.
  pub stm_unit_load_alone :
      (addr : ℕ) (w : World)
      → get_owned (w.shared.lock (lock_idx addr)) ≡ false
      → (w' : World) × (stm_unit_load env addr w
          ≡ some (w.shared.mem addr, get_timestamp (w.shared.lock (lock_idx addr)), w'))
        × (w'.shared ≡ w.shared)
  unfolding stm_unit_load
  stm_unit_load_alone addr w free =
      let w₁ = tick env w in
      let one = shared-tick alone w in
      let l = w₁.shared.lock (lock_idx addr) in
      let (n, e) = tries_suc alone in
      let pass = unit_attempt_alone addr l w₁ refl (rw one free) in
      let run =
        subst
          (λ k.
            unit_load_loop env k addr l w₁ ≡ some (w₁.shared.mem addr, get_timestamp l, two_on w₁))
          (sym e) (first_pass n addr l w₁ _ _ _ pass) in
      (
        two_on w₁,
        run
            ∙ ap
                (λ (x : Shared).
                  some (x.mem addr, get_timestamp (x.lock (lock_idx addr)), two_on w₁))
                one,
        shared-tick alone (tick env w₁) ∙ shared-tick alone w₁ ∙ one,
      )
