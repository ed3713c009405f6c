-- ===== src/Commit/Release.antt =====
-- The loop of stm_rollback that drops the locks (tinySTM/src/stm.c), for a thread that is alone:
-- each lock gets back the word that it had before the transaction took it.
use tiny_stm_reval.Prelude.{
  ℕ, zero, suc, ◌^◌, ◌<◌, ◌≡◌, refl, sym, ap, ◌∙◌, inl, inr, false, List, [], ◌∷◌, arith, ◌==◌,
  ==_iff, Bool-cases, rev_onto, All,
}
use mathlib.Core.Path.{subst, fun_ext}
use tiny_stm_reval.Word.{get_owned, get_timestamp, set_timestamp}
use tiny_stm_reval.Machine.{Shared, Env, World, store_lock, update}
use tiny_stm_reval.Descriptor.{WriteEntry, WriteSet, State}
use tiny_stm_reval.Restart.{release_locks, drop_all}
use tiny_stm_reval.Quiet.{Alone, shared-tick}
use tiny_stm_reval.Commit.Locks.{
  taken_by, count_taken, taken_by-rev_onto, count_taken-rev_onto, All-rev_onto, taken_by_none,
}
use tiny_stm_reval.Commit.Holding.{Remembers, Worked}

-- The words of `locks` fit in 64 bits.
abbrev pub Fits : (ℕ → ℕ) → Type 0
Fits lock = (j : ℕ) → lock j < 2 ^ 64

-- A free lock word is its time stamp, shifted.
pub set_timestamp-get_timestamp :
    (l : ℕ) → l < 2 ^ 64 → get_owned l ≡ false → set_timestamp (get_timestamp l) ≡ l
unfolding set_timestamp get_timestamp get_owned
set_timestamp-get_timestamp l b e = ground arith

module _ {env : Env} (alone : Alone env) (sh₀ : Shared) (fits : Fits sh₀.lock) where
  -- What the locks that are still to drop leave to restore.
  record Restoring (es : List WriteEntry) (sh : Shared) : Type 0 where
    other : (j : ℕ) → taken_by es j ≡ false → sh.lock j ≡ sh₀.lock j
    rest : sh ≡ record sh₀ { lock = sh.lock }

  restored : (es : List WriteEntry) (sh : Shared) → count_taken es ≡ 0 → Restoring es sh → sh ≡ sh₀
  restored es sh none_left k =
      k.rest
      ∙ ap (λ (f : ℕ → ℕ). record sh₀ { lock = f })
          (fun_ext (λ j. k.other j (taken_by_none es j none_left)))

  drop_one :
      (e : WriteEntry) (es : List WriteEntry) (w : World)
      → e.no_drop ≡ false
      → Remembers sh₀.lock e
      → Restoring (e ∷ es) w.shared
      → Restoring es (store_lock env e.lock (set_timestamp e.version) w).shared
  unfolding store_lock
  drop_one e es w drop rem k = subst Next (sym (shared-tick alone w)) (record {
    other = λ j t. elim (Bool-cases (e.lock == j)) [
      | inl y ↦ rw y (
          ap set_timestamp (rem drop).0
          ∙ set_timestamp-get_timestamp (sh₀.lock e.lock) (fits e.lock) (rem drop).1
          ∙ ap sh₀.lock ((==_iff e.lock j).0 y))
      | inr n ↦ rw n (k.other j (ground arith))
    ];
    rest =
        ap
          (λ (x : Shared). record x {
            lock = update w.shared.lock e.lock (set_timestamp e.version);
          })
          k.rest;
  })
    where
      Next : Shared → Type 0
      Next x = Restoring es (record x { lock = update x.lock e.lock (set_timestamp e.version) })

  release_locks_restores :
      (es : List WriteEntry) (nb : ℕ) (w : World)
      → All (Remembers sh₀.lock) es
      → nb ≡ count_taken es
      → Restoring es w.shared
      → (release_locks env es nb w).shared ≡ sh₀
  unfolding release_locks
  release_locks_restores [] nb w rem c k = restored [] w.shared refl k
  release_locks_restores (e ∷ es) zero w rem c k = restored (e ∷ es) w.shared (sym c) k
  release_locks_restores (e ∷ es) (suc nb) w rem c k = elim (Bool-cases e.no_drop) [
    | inl y ↦ rw y (
        release_locks_restores es (suc nb) w rem.1 (rw y at c)
          (record { other = λ j t. k.other j (ground arith); rest = k.rest }))
    | inr n ↦ rw n (
        release_locks_restores es nb (store_lock env e.lock (set_timestamp e.version) w) rem.1
          (ground arith) (drop_one e es w n rem.0 k))
  ]

  -- Up to the restart, a rollback undoes what the acquisition did.
  pub drop_all_restores :
      (ws : WriteSet) (s : State)
      → Worked ws sh₀ s.tx.w_set.entries s.tx.w_set.nb_acquired s.world.shared
      → (drop_all env s).world.shared ≡ sh₀
  unfolding drop_all
  drop_all_restores ws s k =
      release_locks_restores (rev_onto es []) s.tx.w_set.nb_acquired s.world
        (All-rev_onto (Remembers sh₀.lock) es [] k.holding.remembers tt)
        (omega (arith, k.counted, count_taken-rev_onto es []))
        (record {
          other = λ j t. k.holding.other j (ground (arith, taken_by-rev_onto es [] j));
          rest = k.holding.rest;
        })
    where
      es : List WriteEntry
      es = s.tx.w_set.entries
