-- ===== src/Quiet.antt =====
-- A thread that is alone: no other thread changes what is shared.
use tiny_stm_reval.Prelude.{
  ℕ, suc, ◌+◌, ◌-◌, ◌%◌, ◌^◌, ◌<◌, ◌≡◌, refl, sym, ap, ◌∙◌, false, arith, leb, ◌==◌,
}
use mathlib.Core.Path.{subst}
use tiny_stm_reval.Word.{version_max, add_word}
use tiny_stm_reval.Machine.{
  Shared, Env, World, tick, update, store_mem, store_lock, fetch_inc_clock,
}
use tiny_stm_reval.Descriptor.{State, Exit, returned}
use tiny_stm_reval.Restart.{stm_check_quiesce, reset, prepare_loop, stm_prepare}

abbrev pub IsQuiet : Env → Type 0
IsQuiet env = (n : ℕ) (s : Shared) → env.interfere n s ≡ s

-- The thread makes at least one attempt in each loop that waits.
pub record Alone (env : Env) : Type 0 where
  pub quiet : IsQuiet env
  pub tries : 0 < env.spins

-- What a transaction may start on: the clock is below its bound, and no thread holds the others
-- back.
pub record CanStart (sh : Shared) : Type 0 where
  pub clock : sh.clock < version_max
  pub quiesce : (sh.quiesce == 2) ≡ false

module _ {env : Env} (alone : Alone env) where
  pub shared-tick : (w : World) → (tick env w).shared ≡ w.shared
  unfolding tick
  shared-tick w = alone.quiet w.now w.shared

  pub tries_suc : (n : ℕ) × (env.spins ≡ suc n)
  tries_suc = (env.spins - 1, omega (arith, alone.tries))

  check_quiesce_alone :
      (s : State)
      → (s.world.shared.quiesce == 2) ≡ false
      → ((stm_check_quiesce env s).0 ≡ returned tt)
        × ((stm_check_quiesce env s).1.world.shared ≡ s.world.shared)
        × ((stm_check_quiesce env s).1.tx ≡ s.tx)
        × ((stm_check_quiesce env s).1.calls ≡ s.calls)
  unfolding stm_check_quiesce
  check_quiesce_alone s free =
      let e : ((tick env s.world).shared.quiesce == 2) ≡ false = rw (shared-tick s.world) free in
      rw e (refl, shared-tick s.world, refl, refl)

  abbrev pub Started : State → Exit (Unit {0}) × State → Type 0
  Started s p =
      (p.0 ≡ returned tt)
      × (p.1.world.shared ≡ s.world.shared)
      × (p.1.tx ≡ reset s.world.shared.clock s.tx)
      × (p.1.calls ≡ s.calls)

  prepare_loop_alone :
      (n : ℕ) (s : State) → CanStart s.world.shared → Started s (prepare_loop env (suc n) s)
  unfolding prepare_loop
  prepare_loop_alone n s can =
      let below : leb version_max (tick env s.world).shared.clock ≡ false =
        rw (shared-tick s.world) (ground (arith, can.clock)) in
      let t = record s {
        tx = reset (tick env s.world).shared.clock s.tx;
        world = tick env s.world;
      } in
      let (a, b, c, d) = check_quiesce_alone t (rw (shared-tick s.world) can.quiesce) in
      rw below (
        a,
        b ∙ shared-tick s.world,
        c ∙ ap (λ (x : Shared). reset x.clock s.tx) (shared-tick s.world),
        d,
      )

  -- stm_prepare resets the descriptor at the clock and changes nothing that is shared.
  pub prepare_alone : (s : State) → CanStart s.world.shared → Started s (stm_prepare env s)
  unfolding stm_prepare
  prepare_alone s can =
      let (n, e) = tries_suc in
      subst (λ k. Started s (prepare_loop env k s)) (sym e) (prepare_loop_alone n s can)

  pub store_mem_alone :
      (a v : ℕ) (w : World)
      → (store_mem env a v w).shared ≡ (let sh = w.shared in record sh { mem = update sh.mem a v })
  unfolding store_mem
  store_mem_alone a v w = ap (λ (x : Shared). record x { mem = update x.mem a v }) (shared-tick w)

  pub store_lock_alone :
      (j v : ℕ) (w : World)
      → (store_lock env j v w).shared
        ≡ (let sh = w.shared in record sh { lock = update sh.lock j v })
  unfolding store_lock
  store_lock_alone j v w =
      ap (λ (x : Shared). record x { lock = update x.lock j v }) (shared-tick w)

  pub fetch_alone :
      (w : World)
      → w.shared.clock < version_max
      → ((fetch_inc_clock env w).0 ≡ w.shared.clock)
        × ((fetch_inc_clock env w).1.shared
            ≡ (let sh = w.shared in record sh { clock = w.shared.clock + 1 }))
  unfolding fetch_inc_clock add_word
  fetch_alone w b = (
    ap (λ (x : Shared). x.clock) (shared-tick w),
    ap (λ (x : Shared). record x { clock = (x.clock + 1) % 2 ^ 64 }) (shared-tick w)
        ∙ ap (λ c. let sh = w.shared in record sh { clock = c }) (omega arith),
  )
