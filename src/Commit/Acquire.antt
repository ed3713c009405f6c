-- ===== src/Commit/Acquire.antt =====
-- The acquisition phase of stm_commit, for a thread that is alone.
use tiny_stm_reval.Prelude.{
  ℕ, suc, ◌+◌, ◌≤◌, ◌≡◌, refl, sym, ap, ◌∙◌, inl, inr, true, false, List, [], ◌∷◌, arith, ◌==◌,
  ==_iff, Bool-cases, length, rev_onto,
}
use mathlib.Core.Path.{subst}
use tiny_stm_reval.Word.{get_owned, get_addr, get_timestamp, set_addr_write}
use tiny_stm_reval.Machine.{Shared, Env, World, tick, cas_lock, update}
use tiny_stm_reval.Descriptor.{WriteEntry, WriteSet, in_write_set, w_entry_ptr}
use tiny_stm_reval.Quiet.{Alone, shared-tick, tries_suc}
use tiny_stm_reval.Commit.{
  Grab, held, taken, conflict, tired, acquire_lock, Acquired, all_taken, refused, given_up,
  acquire_locks,
}
use tiny_stm_reval.Commit.Locks.{
  taken_by, covers, Untaken, strip_all, strip_all-rev_onto, covers-strip_all, covers-taken_by,
  covers-rev_onto,
}
use tiny_stm_reval.Commit.Holding.{
  Placed, Worked, not_taken, Worked-taken, Worked-held, Worked-Untaken, own_taken, foreign_at_start,
}

module _ {env : Env} (alone : Alone env) (ws : WriteSet) where
  abbrev GrabHolds : ℕ → WriteEntry → Shared → Grab → Type 0
  GrabHolds i e sh (held w') =
      (w'.shared ≡ sh)
      × (get_owned (sh.lock e.lock) ≡ true)
      × (in_write_set ws (get_addr (sh.lock e.lock)) ≡ true)
  GrabHolds i e sh (taken e' w') =
      (e' ≡ record e { no_drop = false; version = get_timestamp (sh.lock e.lock) })
      × (w'.shared ≡ record sh { lock = update sh.lock e.lock (set_addr_write (w_entry_ptr ws i)) })
      × (get_owned (sh.lock e.lock) ≡ false)
  GrabHolds i e sh (conflict w') =
      (w'.shared ≡ sh)
      × (get_owned (sh.lock e.lock) ≡ true)
      × (in_write_set ws (get_addr (sh.lock e.lock)) ≡ false)
  GrabHolds i e sh (tired w') = ⊥

  acquire_lock_holds :
      (i : ℕ) (e : WriteEntry) (n : ℕ) (w : World)
      → GrabHolds i e w.shared (acquire_lock env ws i e (suc n) w)
  unfolding acquire_lock cas_lock
  acquire_lock_holds i e n w = elim (Bool-cases (get_owned (w₁.shared.lock e.lock))) [
    | inl y ↦ elim (Bool-cases (in_write_set ws (get_addr (w₁.shared.lock e.lock)))) [
      | inl own ↦
          rw (y, own)
            (
              s₁,
              subst (λ (x : Shared). get_owned (x.lock e.lock) ≡ true) s₁ y,
              subst (λ (x : Shared). in_write_set ws (get_addr (x.lock e.lock)) ≡ true) s₁ own,
            )
      | inr not_own ↦
          rw (y, not_own)
            (
              s₁,
              subst (λ (x : Shared). get_owned (x.lock e.lock) ≡ true) s₁ y,
              subst (λ (x : Shared). in_write_set ws (get_addr (x.lock e.lock)) ≡ false) s₁ not_own,
            )
    ]
    | inr free ↦
        rw (free, same)
          (
            ap
                (λ (x : Shared). record e {
                  no_drop = false;
                  version = get_timestamp (x.lock e.lock);
                })
                s₁,
            ap
                (λ (x : Shared). record x {
                  lock = update x.lock e.lock (set_addr_write (w_entry_ptr ws i));
                })
                s₂,
            subst (λ (x : Shared). get_owned (x.lock e.lock) ≡ false) s₁ free,
          )
  ]
    where
      w₁ : World
      w₁ = tick env w

      s₁ : w₁.shared ≡ w.shared
      s₁ = shared-tick alone w

      s₂ : (tick env w₁).shared ≡ w.shared
      s₂ = shared-tick alone w₁ ∙ s₁

      same : ((tick env w₁).shared.lock e.lock == w₁.shared.lock e.lock) ≡ true
      same = (==_iff _ _).1 (ap (λ (x : Shared). x.lock e.lock) (shared-tick alone w₁))

  abbrev pub AllCovered : List WriteEntry → Type 0
  AllCovered es = (j : ℕ) → covers es j ≡ true → taken_by es j ≡ true

  abbrev pub AcquireHolds : Shared → List WriteEntry → Acquired → Type 0
  AcquireHolds sh₀ orig (all_taken es nb w) =
      Worked ws sh₀ es nb w.shared
      × AllCovered es
      × (strip_all es ≡ strip_all orig)
      × ((j : ℕ) → covers orig j ≡ true → get_owned (sh₀.lock j) ≡ false)
  AcquireHolds sh₀ orig (refused es nb w) =
      Worked ws sh₀ es nb w.shared
      × ((j : ℕ) × (covers orig j ≡ true) × (get_owned (sh₀.lock j) ≡ true))
  AcquireHolds sh₀ orig (given_up es nb w) = ⊥

  AcquireHolds-orig :
      (sh₀ : Shared) (o o' : List WriteEntry) (a : Acquired)
      → strip_all o ≡ strip_all o'
      → AcquireHolds sh₀ o a
      → AcquireHolds sh₀ o' a
  AcquireHolds-orig sh₀ o o' a e = elim a as (λ x. AcquireHolds sh₀ o x → AcquireHolds sh₀ o' x) [
    | all_taken es nb w ↦ λ (k, cov, st, free). (k, cov, st ∙ e, λ j c. free j (same j ∙ c))
    | refused es nb w ↦ λ r. (r.0, (r.1.0, sym (same r.1.0) ∙ r.1.1, r.1.2))
    | given_up es nb w ↦ λ x. x
  ]
    where
      same : (j : ℕ) → covers o j ≡ covers o' j
      same j = sym (covers-strip_all o j) ∙ ap (λ x. covers x j) e ∙ covers-strip_all o' j

  -- A lock that a longer list covers.
  cover_cases :
      (P : ℕ → Type 0) (e : WriteEntry) (es : List WriteEntry) (j : ℕ)
      → P e.lock
      → (covers es j ≡ true → P j)
      → covers (e ∷ es) j ≡ true
      → P j
  cover_cases P e es j here there c = elim (Bool-cases (e.lock == j)) [
    | inl y ↦ subst P ((==_iff e.lock j).0 y) here
    | inr n ↦ there (rw n at c)
  ]

  pub acquire_locks_holds :
      (sh₀ : Shared) (es done : List WriteEntry) (nb : ℕ) (w : World)
      → Placed ws sh₀.lock
      → Untaken es
      → length es + length done ≤ length ws.entries
      → Worked ws sh₀ done nb w.shared
      → AllCovered done
      → ((j : ℕ) → covers done j ≡ true → get_owned (sh₀.lock j) ≡ false)
      → AcquireHolds sh₀ (rev_onto es done) (acquire_locks env ws es done nb w)
  unfolding acquire_locks rev_onto
  acquire_locks_holds sh₀ [] done nb w placed un fits k cov free = (k, cov, refl, free)
  acquire_locks_holds sh₀ (e ∷ es) done nb w placed un fits k cov free =
      let (n, tries) = tries_suc alone in
      go (λ e' nb' w'. acquire_locks_holds sh₀ es (e' ∷ done) nb' w' placed un.1 (omega arith))
        (acquire_lock env ws (length es) e env.spins w)
        (subst (λ t. GrabHolds (length es) e w.shared (acquire_lock env ws (length es) e t w))
          (sym tries) (acquire_lock_holds (length es) e n w))
    where
      here : covers (rev_onto es (e ∷ done)) e.lock ≡ true
      here = rw (covers-rev_onto es (e ∷ done) e.lock) (ground arith)

      go :
          ((e' : WriteEntry) (nb' : ℕ) (w' : World)
            → Worked ws sh₀ (e' ∷ done) nb' w'.shared
            → AllCovered (e' ∷ done)
            → ((j : ℕ) → covers (e' ∷ done) j ≡ true → get_owned (sh₀.lock j) ≡ false)
            → AcquireHolds sh₀
                (rev_onto es (e' ∷ done))
                (acquire_locks env ws es (e' ∷ done) nb' w'))
          → (g : Grab) → GrabHolds (length es) e w.shared g
          → AcquireHolds sh₀ (rev_onto es (e ∷ done)) (elim g [
            | held w' ↦ acquire_locks env ws es (e ∷ done) nb w'
            | taken e' w' ↦ acquire_locks env ws es (e' ∷ done) (suc nb) w'
            | conflict w' ↦ refused (rev_onto es (e ∷ done)) nb w'
            | tired w' ↦ given_up (rev_onto es (e ∷ done)) nb w'
          ])
      go ih (held w') (same, own, ours) =
          let t : taken_by done e.lock ≡ true =
            own_taken ws sh₀ done w.shared e.lock placed k.holding own ours in
          ih e nb w'
            (subst (Worked ws sh₀ (e ∷ done) nb) (sym same)
              (Worked-held ws sh₀ done nb w.shared e un.0 k))
            (λ j.
              cover_cases (λ x. taken_by (e ∷ done) x ≡ true) e done j (ground (arith, t))
                (λ c. ground (arith, cov j c)))
            (λ j.
              cover_cases (λ x. get_owned (sh₀.lock x) ≡ false) e done j
                (free e.lock (covers-taken_by done e.lock t)) (free j))
      go ih (taken e' w') (ee, es', free') =
          let e₁ = record e { no_drop = false; version = get_timestamp (w.shared.lock e.lock) } in
          let not_before = not_taken ws sh₀ done w.shared e.lock k.holding free' in
          subst
            (λ x.
              AcquireHolds sh₀ (rev_onto es (e ∷ done))
                (acquire_locks env ws es (x ∷ done) (suc nb) w'))
            (sym ee)
            (AcquireHolds-orig sh₀ (rev_onto es (e₁ ∷ done)) (rev_onto es (e ∷ done)) _
              (strip_all-rev_onto es (e₁ ∷ done) ∙ sym (strip_all-rev_onto es (e ∷ done)))
              (ih e₁ (suc nb) w'
                (Worked-taken ws sh₀ done nb (length es) w.shared w'.shared e e₁ placed
                  (omega arith) k refl es' free')
                (λ j.
                  cover_cases (λ x. taken_by (e₁ ∷ done) x ≡ true) e₁ done j (ground arith)
                    (λ c. ground (arith, cov j c)))
                (λ j.
                  cover_cases (λ x. get_owned (sh₀.lock x) ≡ false) e₁ done j
                    (subst (λ l. get_owned l ≡ false) (k.holding.other e.lock not_before) free')
                    (free j))))
      go ih (conflict w') (same, own, theirs) = (
        subst (Worked ws sh₀ (rev_onto es (e ∷ done)) nb) (sym same) (
            Worked-Untaken ws sh₀ es (e ∷ done) nb w.shared un.1
              (Worked-held ws sh₀ done nb w.shared e un.0 k)),
        (e.lock, here, foreign_at_start ws sh₀ done w.shared e.lock k.holding own theirs),
      )
      go ih (tired w') x = x
