-- ===== src/Commit/Install.antt =====
-- What stm_commit (tinySTM/src/stm.c) leaves once all locks are taken and no other transaction
-- has committed.
use tiny_stm_reval.Prelude.{
  ℕ, ◌+◌, ◌<◌, ◌≡◌, refl, sym, ap, ◌∙◌, Bool, true, List, ◌++◌, arith, ◌==◌, if◌then◌else◌, ==_iff,
}
use mathlib.Core.Path.{subst}
use tiny_stm_reval.Word.{set_timestamp, add_word, sub_word, version_max}
use tiny_stm_reval.Machine.{Shared, Env, World, fetch_inc_clock}
use tiny_stm_reval.Descriptor.{Status, WriteEntry, State, Exit, returned}
use tiny_stm_reval.Quiet.{Alone, fetch_alone}
use tiny_stm_reval.Commit.{
  finish_commit, install, write_back, validate_and_install, at_commit_time, put_acquired,
}
use tiny_stm_reval.Commit.Locks.{taken_by, covers, strip_all, covers-strip_all, covers-taken_by}
use tiny_stm_reval.Commit.Holding.{Holding, Worked}
use tiny_stm_reval.Commit.WriteBack.{
  value_after, value_after-strip_all, Written, write_back-Written,
}

-- How a commit that succeeds ends.
pub record Committed (env : Env) (s : State) (p : Exit Bool × State) : Type 0 where
  pub result : p.0 ≡ returned true
  pub mem :
      (a : ℕ) → p.1.world.shared.mem a ≡ value_after s.tx.w_set.entries a (s.world.shared.mem a)
  pub lock :
      (j : ℕ)
      → p.1.world.shared.lock j ≡ (
          if covers s.tx.w_set.entries j
          then set_timestamp (s.world.shared.clock + 1)
          else s.world.shared.lock j)
  pub clock : p.1.world.shared.clock ≡ s.world.shared.clock + 1
  pub calls : p.1.calls ≡ s.calls ++ env.callbacks.on_commit
  pub status : p.1.tx.status ≡ Status.committed
  pub retries : p.1.tx.stats.retries ≡ 0

module _ {env : Env} (alone : Alone env) where
  -- The version that a commit at `c` publishes.
  commit_time : (c : ℕ) → c < version_max → (add_word c 1 ≡ c + 1) × (sub_word (add_word c 1) 1 ≡ c)
  unfolding add_word sub_word
  commit_time c b = (omega arith, omega arith)

  taken-covers :
      (es orig : List WriteEntry) (j : ℕ)
      → ((i : ℕ) → covers es i ≡ true → taken_by es i ≡ true)
      → strip_all es ≡ strip_all orig
      → taken_by es j ≡ covers orig j
  taken-covers es orig j cov e = ground (arith, cov j, covers-taken_by es j, same)
    where
      same : covers es j ≡ covers orig j
      same = sym (covers-strip_all es j) ∙ ap (λ x. covers x j) e ∙ covers-strip_all orig j

  value_after-stripped :
      (es orig : List WriteEntry) (a x : ℕ)
      → strip_all es ≡ strip_all orig
      → value_after es a x ≡ value_after orig a x
  value_after-stripped es orig a x e =
      sym (value_after-strip_all es a x)
      ∙ ap (λ z. value_after z a x) e
      ∙ value_after-strip_all orig a x

  install-Committed :
      (s : State) (es : List WriteEntry) (nb : ℕ) (w : World) (t : ℕ)
      → t ≡ s.world.shared.clock + 1
      → w.shared
        ≡ (let sh = s.world.shared in record sh { lock = w.shared.lock; clock = sh.clock + 1 })
      → Holding s.tx.w_set s.world.shared es
          (let sh = s.world.shared in record sh { lock = w.shared.lock })
      → ((i : ℕ) → covers es i ≡ true → taken_by es i ≡ true)
      → strip_all es ≡ strip_all s.tx.w_set.entries
      → Committed env s (install env t (put_acquired es nb w s))
  unfolding install finish_commit
  install-Committed s es nb w t et ew k cov st = record {
    result = refl;
    mem = λ a.
        wr.mem a
        ∙ ap (λ (x : Shared). value_after es a (x.mem a)) ew
        ∙ value_after-stripped es s.tx.w_set.entries a (s.world.shared.mem a) st;
    lock = λ j. wr.lock j ∙ locks j (taken_by es j) refl;
    clock = wr.clock ∙ ap (λ (x : Shared). x.clock) ew;
    calls = refl;
    status = refl;
    retries = refl;
  }
    where
      wr : Written t es w.shared (write_back env t es w).shared
      wr = write_back-Written alone t es w

      locks :
          (j : ℕ) (b : Bool)
          → taken_by es j ≡ b
          → (if taken_by es j then set_timestamp t else w.shared.lock j) ≡ (
              if covers s.tx.w_set.entries j
              then set_timestamp (s.world.shared.clock + 1)
              else s.world.shared.lock j)
      locks j b e = ground (arith, taken-covers es s.tx.w_set.entries j cov st, k.other j, et, e)

  -- No commit since the start: the read set is not validated.
  validate_fresh :
      (t : ℕ) (u : State)
      → u.tx.start ≡ sub_word t 1
      → validate_and_install env t u ≡ install env t u
  unfolding validate_and_install
  validate_fresh t u e =
      let test : (u.tx.start == sub_word t 1) ≡ true = (==_iff _ _).1 e in rw test

  pub at_commit_time-Committed :
      (s : State) (es : List WriteEntry) (nb : ℕ) (w : World)
      → s.tx.start ≡ s.world.shared.clock
      → s.world.shared.clock < version_max
      → Worked s.tx.w_set s.world.shared es nb w.shared
      → ((i : ℕ) → covers es i ≡ true → taken_by es i ≡ true)
      → strip_all es ≡ strip_all s.tx.w_set.entries
      → Committed env s (at_commit_time env (put_acquired es nb w s))
  unfolding at_commit_time
  at_commit_time-Committed s es nb w fresh b k cov st =
      subst (Committed env s)
        (sym (
          validate_fresh _ (put_acquired es nb (fetch_inc_clock env w).1 s) (
            fresh
            ∙ sym (commit_time s.world.shared.clock b).1
            ∙ ap (λ x. sub_word (add_word x 1) 1) (sym c))))
        installed
    where
      clock : w.shared.clock ≡ s.world.shared.clock
      clock = ap (λ (x : Shared). x.clock) k.holding.rest

      fetched :
          ((fetch_inc_clock env w).0 ≡ w.shared.clock)
          × ((fetch_inc_clock env w).1.shared
              ≡ (let sh = w.shared in record sh { clock = w.shared.clock + 1 }))
      fetched = fetch_alone alone w (omega (arith, clock))

      c : (fetch_inc_clock env w).0 ≡ s.world.shared.clock
      c = fetched.0 ∙ clock

      t : add_word (fetch_inc_clock env w).0 1 ≡ s.world.shared.clock + 1
      t = ap (λ x. add_word x 1) c ∙ (commit_time s.world.shared.clock b).0

      sh₁ : Shared
      sh₁ = let sh = s.world.shared in record sh { lock = w.shared.lock }

      after : (fetch_inc_clock env w).1.shared ≡ record sh₁ { clock = s.world.shared.clock + 1 }
      after = fetched.1 ∙ ap (λ (x : Shared). record x { clock = x.clock + 1 }) k.holding.rest

      same_lock : (fetch_inc_clock env w).1.shared.lock ≡ w.shared.lock
      same_lock = ap (λ (x : Shared). x.lock) after

      installed : Committed env s (
          install env
            (add_word (fetch_inc_clock env w).0 1)
            (put_acquired es nb (fetch_inc_clock env w).1 s))
      installed =
          install-Committed s es nb (fetch_inc_clock env w).1 _ t
            (after
              ∙ ap (λ l. record sh₁ { lock = l; clock = s.world.shared.clock + 1 }) (sym same_lock))
            (subst (λ l. Holding s.tx.w_set s.world.shared es (record sh₁ { lock = l }))
              (sym same_lock)
              (subst (Holding s.tx.w_set s.world.shared es) k.holding.rest k.holding))
            cov st
