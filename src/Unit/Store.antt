-- ===== src/Unit/Store.antt =====
-- stm_unit_write (tinySTM/src/stm.c) for a thread that is alone: both ways in which it ends.
use tiny_stm_reval.Prelude.{
  ℕ, suc, ◌+◌, ◌≤◌, ◌<◌, ◌≡◌, refl, sym, ap, ◌∙◌, Bool, true, false, Option, none, some, arith, leb,
  ◌==◌, if◌then◌else◌, ==_iff,
}
use mathlib.Core.Path.{subst}
use mathlib.Core.Option
use tiny_stm_reval.Word.{
  version_max, get_owned, get_timestamp, set_timestamp, lock_idx, lock_unit, add_word,
}
use tiny_stm_reval.Machine.{
  Shared, Env, World, tick, store_mem, store_lock, fetch_inc_clock, cas_lock, update,
}
use tiny_stm_reval.Quiet.{
  Alone, shared-tick, tries_suc, store_mem_alone, store_lock_alone, fetch_alone,
}
use tiny_stm_reval.Unit.{unit_install, is_newer, unit_write_loop, stm_unit_write, stm_unit_store2}

-- What a unit store returns, and what it leaves.
pub record UnitStored (sh : Shared) (addr value : ℕ) (stamp : Option ℕ)
    (r : Bool × Option ℕ × World) : Type 0 where
  pub result : r.0 ≡ true
  pub timestamp : r.1 ≡ Option.map (λ _. sh.clock + 1) stamp
  pub mem : (a : ℕ) → r.2.shared.mem a ≡ (if addr == a then value else sh.mem a)
  pub lock :
      (j : ℕ)
      → r.2.shared.lock j ≡ (if lock_idx addr == j then set_timestamp (sh.clock + 1) else sh.lock j)
  pub clock : r.2.shared.clock ≡ sh.clock + 1

pub record UnitRefused (sh : Shared) (addr : ℕ) (r : Bool × Option ℕ × World) : Type 0 where
  pub result : r.0 ≡ false
  pub timestamp : r.1 ≡ some (get_timestamp (sh.lock (lock_idx addr)))
  pub shared : r.2.shared ≡ sh

-- What holds of an optional result that is there.
abbrev pub Gives : {A : Type 0} → (A → Type 0) → Option A → Type 0
Gives P none = ⊥
Gives P (some a) = P a

module _ {env : Env} (alone : Alone env) where
  unit_install_alone :
      (addr value : ℕ) (stamp : Option ℕ) (w : World) (sh : Shared)
      → w.shared ≡ record sh { lock = update sh.lock (lock_idx addr) lock_unit }
      → sh.clock + 1 < version_max
      → UnitStored sh addr value stamp (unit_install env addr value stamp w)
  unfolding unit_install
  unit_install_alone addr value stamp w sh e b = rw below (record {
    result = refl;
    timestamp = ap (λ x. Option.map (λ _. x) stamp) t_eq;
    mem = λ a. ap (λ (x : Shared). x.mem a) last;
    lock = λ k. ap (λ (x : Shared). x.lock k) last ∙ ground arith;
    clock = ap (λ (x : Shared). x.clock) last;
  })
    where
      j : ℕ
      j = lock_idx addr

      w₁ : World
      w₁ = store_mem env addr value w

      sh₁ : Shared
      sh₁ = record sh { mem = update sh.mem addr value; lock = update sh.lock j lock_unit }

      e₁ : w₁.shared ≡ sh₁
      e₁ =
          store_mem_alone alone addr value w
          ∙ ap (λ (x : Shared). record x { mem = update x.mem addr value }) e

      c₁ : w₁.shared.clock ≡ sh.clock
      c₁ = ap (λ (x : Shared). x.clock) e₁

      fetched :
          ((fetch_inc_clock env w₁).0 ≡ w₁.shared.clock)
          × ((fetch_inc_clock env w₁).1.shared
              ≡ (let x = w₁.shared in record x { clock = w₁.shared.clock + 1 }))
      fetched = fetch_alone alone w₁ (omega (arith, c₁))

      t : ℕ
      t = add_word (fetch_inc_clock env w₁).0 1

      t_eq : t ≡ sh.clock + 1
      t_eq = ap (λ x. add_word x 1) (fetched.0 ∙ c₁) ∙ unfold add_word in omega (arith, b)

      below : leb version_max (add_word (fetch_inc_clock env w₁).0 1) ≡ false
      below = ap (leb version_max) t_eq ∙ ground (arith, b)

      last : (store_lock env j (set_timestamp t) (fetch_inc_clock env w₁).1).shared ≡ record sh₁ {
        lock = update sh₁.lock j (set_timestamp (sh.clock + 1));
        clock = sh.clock + 1;
      }
      last =
          store_lock_alone alone j (set_timestamp t) (fetch_inc_clock env w₁).1
          ∙ ap (λ (x : Shared). record x { lock = update x.lock j (set_timestamp t) })
              (fetched.1 ∙ ap (λ (x : Shared). record x { clock = x.clock + 1 }) e₁)
          ∙ ap
              (λ x. record sh₁ { lock = update sh₁.lock j (set_timestamp x); clock = sh.clock + 1 })
              t_eq

  unit_write_loop_alone :
      (n addr value mask : ℕ) (stamp : Option ℕ) (w : World)
      → get_owned (w.shared.lock (lock_idx addr)) ≡ false
      → w.shared.clock + 1 < version_max
      → (is_newer stamp (get_timestamp (w.shared.lock (lock_idx addr))) ≡ true
          → Gives (UnitRefused w.shared addr) (unit_write_loop env (suc n) addr value mask stamp w))
        × (is_newer stamp (get_timestamp (w.shared.lock (lock_idx addr))) ≡ false
            → Gives
                (UnitStored w.shared addr value stamp)
                (unit_write_loop env (suc n) addr value mask stamp w))
  unfolding unit_write_loop cas_lock
  unit_write_loop_alone n addr value mask stamp w free b = (
    λ newer.
        let newer' : is_newer stamp (get_timestamp (w₁.shared.lock j)) ≡ true =
          subst (λ (x : Shared). is_newer stamp (get_timestamp (x.lock j)) ≡ true) (sym s₁) newer in
        rw (free₁, newer')
          (record {
            result = refl;
            timestamp = ap (λ (x : Shared). some (get_timestamp (x.lock j))) s₁;
            shared = s₁;
          }),
    λ older.
        let older' : is_newer stamp (get_timestamp (w₁.shared.lock j)) ≡ false =
          subst (λ (x : Shared). is_newer stamp (get_timestamp (x.lock j)) ≡ false) (sym s₁)
            older in
        rw (free₁, older', same)
          (unit_install_alone addr value stamp _ w.shared
            (ap (λ (x : Shared). record x { lock = update x.lock j lock_unit }) s₂) b),
  )
    where
      j : ℕ
      j = lock_idx addr

      w₁ : World
      w₁ = tick env w

      s₁ : w₁.shared ≡ w.shared
      s₁ = shared-tick alone w

      s₂ : (tick env w₁).shared ≡ w.shared
      s₂ = shared-tick alone w₁ ∙ s₁

      free₁ : get_owned (w₁.shared.lock j) ≡ false
      free₁ = subst (λ (x : Shared). get_owned (x.lock j) ≡ false) (sym s₁) free

      same : ((tick env w₁).shared.lock j == w₁.shared.lock j) ≡ true
      same = (==_iff _ _).1 (ap (λ (x : Shared). x.lock j) (shared-tick alone w₁))

  -- The two ends, by the test that the code makes.
  unit_store2_cases :
      (addr value mask : ℕ) (stamp : Option ℕ) (w : World)
      → get_owned (w.shared.lock (lock_idx addr)) ≡ false
      → w.shared.clock + 1 < version_max
      → (is_newer stamp (get_timestamp (w.shared.lock (lock_idx addr))) ≡ true
          → Gives (UnitRefused w.shared addr) (stm_unit_store2 env addr value mask stamp w))
        × (is_newer stamp (get_timestamp (w.shared.lock (lock_idx addr))) ≡ false
            → Gives
                (UnitStored w.shared addr value stamp)
                (stm_unit_store2 env addr value mask stamp w))
  unfolding stm_unit_store2 stm_unit_write
  unit_store2_cases addr value mask stamp w free b =
      let (n, e) = tries_suc alone in
      subst
        (λ k.
          (is_newer stamp (get_timestamp (w.shared.lock (lock_idx addr))) ≡ true
            → Gives (UnitRefused w.shared addr) (unit_write_loop env k addr value mask stamp w))
          × (is_newer stamp (get_timestamp (w.shared.lock (lock_idx addr))) ≡ false
              → Gives (UnitStored w.shared addr value stamp)
                  (unit_write_loop env k addr value mask stamp w)))
        (sym e) (unit_write_loop_alone n addr value mask stamp w free b)

  -- A unit store to an address whose lock is free always ends. If the caller gives a time stamp that
  -- is less than the version of the lock, nothing that is shared changes, 0 is returned, and the
  -- caller's time stamp becomes the version. If it gives none, or one that is not less, 1 is returned,
  -- the whole word becomes the value, whatever the mask says, the lock is free again with the next
  -- time, which is also the caller's new time stamp if one was given, the clock is one further, and
  -- all other words and locks are as before. The thread is alone and the clock is more than one below
  -- its bound.
  pub unit_store2_alone :
      (addr value mask : ℕ) (w : World)
      → get_owned (w.shared.lock (lock_idx addr)) ≡ false
      → w.shared.clock + 1 < version_max
      → ((t : ℕ)
          → t < get_timestamp (w.shared.lock (lock_idx addr))
          → Gives (UnitRefused w.shared addr) (stm_unit_store2 env addr value mask (some t) w))
        × ((t : ℕ)
            → get_timestamp (w.shared.lock (lock_idx addr)) ≤ t
            → Gives
                (UnitStored w.shared addr value (some t))
                (stm_unit_store2 env addr value mask (some t) w))
        × Gives (UnitStored w.shared addr value none) (stm_unit_store2 env addr value mask none w)
  unfolding is_newer
  unit_store2_alone addr value mask w free b = (
    λ t lt. (unit_store2_cases addr value mask (some t) w free b).0 (ground (arith, lt)),
    λ t le. (unit_store2_cases addr value mask (some t) w free b).1 (ground (arith, le)),
    (unit_store2_cases addr value mask none w free b).1 refl,
  )
