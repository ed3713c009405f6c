-- ===== src/Commit/Holding.antt =====
-- What the entries hold while stm_commit takes their locks (tinySTM/src/stm.c).
use tiny_stm_reval.Prelude.{
  ℕ, suc, ◌%◌, ◌<◌, ◌≡◌, sym, ap, ◌∙◌, inl, inr, true, false, ◌||◌, List, ◌∷◌, arith, ◌==◌,
  Bool-cases, length, rev_onto, All, All-map,
}
use mathlib.Core.Path.{subst, subst₂}
use mathlib.Core.Bool.{false≢true, true≢false}
use tiny_stm_reval.Word.{get_owned, get_addr, get_timestamp, set_addr_write}
use tiny_stm_reval.Machine.{Shared, update}
use tiny_stm_reval.Descriptor.{WriteEntry, WriteSet, in_write_set, w_entry_ptr}
use tiny_stm_reval.Commit.Locks.{
  taken_by, count_taken, Untaken, taken_by-rev_onto, count_taken-rev_onto, All-rev_onto,
  taken_by-Untaken, count_taken-Untaken,
}

-- The lock words of the write set are told from all others.
pub record Placed (ws : WriteSet) (lock : ℕ → ℕ) : Type 0 where
  pub aligned : ws.base % 2 ≡ 0
  pub foreign : (j : ℕ) → get_owned (lock j) ≡ true → in_write_set ws (get_addr (lock j)) ≡ false

own_ptr :
    (ws : WriteSet) (i : ℕ)
    → ws.base % 2 ≡ 0
    → i < length ws.entries
    → (get_owned (set_addr_write (w_entry_ptr ws i)) ≡ true)
      × (in_write_set ws (get_addr (set_addr_write (w_entry_ptr ws i))) ≡ true)
unfolding get_owned set_addr_write in_write_set get_addr
own_ptr ws i a b = (ground arith, ground arith)

-- An entry that took its lock remembers the version that the lock had.
abbrev pub Remembers : (ℕ → ℕ) → WriteEntry → Type 0
Remembers lock₀ e =
    e.no_drop ≡ false
    → (e.version ≡ get_timestamp (lock₀ e.lock)) × (get_owned (lock₀ e.lock) ≡ false)

-- The shared state `sh` while the entries `es` have been worked on, from `sh₀`.
pub record Holding (ws : WriteSet) (sh₀ : Shared) (es : List WriteEntry) (sh : Shared)
    : Type 0 where
  pub own :
      (j : ℕ)
      → taken_by es j ≡ true
      → (get_owned (sh.lock j) ≡ true) × (in_write_set ws (get_addr (sh.lock j)) ≡ true)
  pub other : (j : ℕ) → taken_by es j ≡ false → sh.lock j ≡ sh₀.lock j
  pub remembers : All (Remembers sh₀.lock) es
  pub rest : sh ≡ record sh₀ { lock = sh.lock }

module _ (ws : WriteSet) where
  -- What is known of the entries that have been worked on.
  pub record Worked (sh₀ : Shared) (es : List WriteEntry) (nb : ℕ) (sh : Shared) : Type 0 where
    pub holding : Holding ws sh₀ es sh
    pub counted : nb ≡ count_taken es

  pub not_taken :
      (sh₀ : Shared) (es : List WriteEntry) (sh : Shared) (j : ℕ)
      → Holding ws sh₀ es sh
      → get_owned (sh.lock j) ≡ false
      → taken_by es j ≡ false
  not_taken sh₀ es sh j k free = elim (Bool-cases (taken_by es j)) [
    | inl y ↦ absurd (false≢true (sym free ∙ (k.own j y).0))
    | inr n ↦ n
  ]

  pub take_step :
      (sh₀ : Shared) (es : List WriteEntry) (i : ℕ) (sh : Shared) (e : WriteEntry)
      → Placed ws sh₀.lock
      → i < length ws.entries
      → Holding ws sh₀ es sh
      → get_owned (sh.lock e.lock) ≡ false
      → Holding ws sh₀
          (record e { no_drop = false; version = get_timestamp (sh.lock e.lock) } ∷ es)
          (record sh { lock = update sh.lock e.lock (set_addr_write (w_entry_ptr ws i)) })
  take_step sh₀ es i sh e placed lt k free = record {
    own = λ j t. elim (Bool-cases (e.lock == j)) [
      | inl y ↦ rw y (own_ptr ws i placed.aligned lt)
      | inr n ↦ rw n (k.own j (rw n at t))
    ];
    other = λ j t. elim (Bool-cases (e.lock == j)) [
      | inl y ↦ absurd (true≢false (rw y at t))
      | inr n ↦ rw n (k.other j (rw n at t))
    ];
    remembers =
        (λ n. (ap get_timestamp same, subst (λ l. get_owned l ≡ false) same free), k.remembers);
    rest =
        ap
          (λ (x : Shared). record x {
            lock = update sh.lock e.lock (set_addr_write (w_entry_ptr ws i));
          })
          k.rest;
  }
    where
      same : sh.lock e.lock ≡ sh₀.lock e.lock
      same = k.other e.lock (not_taken sh₀ es sh e.lock k free)

  -- The next entry took its lock.
  pub Worked-taken :
      (sh₀ : Shared) (es : List WriteEntry) (nb i : ℕ) (sh sh' : Shared) (e e' : WriteEntry)
      → Placed ws sh₀.lock
      → i < length ws.entries
      → Worked sh₀ es nb sh
      → e' ≡ record e { no_drop = false; version = get_timestamp (sh.lock e.lock) }
      → sh' ≡ record sh { lock = update sh.lock e.lock (set_addr_write (w_entry_ptr ws i)) }
      → get_owned (sh.lock e.lock) ≡ false
      → Worked sh₀ (e' ∷ es) (suc nb) sh'
  Worked-taken sh₀ es nb i sh sh' e e' placed lt k ee es' free = record {
    holding =
        subst₂ (λ x y. Holding ws sh₀ (x ∷ es) y) (sym ee) (sym es')
          (take_step sh₀ es i sh e placed lt k.holding free);
    counted = rw ee (omega (arith, k.counted));
  }

  -- The lock of the next entry is held already.
  pub Worked-held :
      (sh₀ : Shared) (es : List WriteEntry) (nb : ℕ) (sh : Shared) (e : WriteEntry)
      → e.no_drop ≡ true
      → Worked sh₀ es nb sh
      → Worked sh₀ (e ∷ es) nb sh
  Worked-held sh₀ es nb sh e untaken k = record {
    holding = record {
      own = λ j t. k.holding.own j (ground arith);
      other = λ j t. k.holding.other j (ground arith);
      remembers = (λ n. cc, k.holding.remembers);
      rest = k.holding.rest;
    };
    counted = ground (arith, k.counted);
  }

  -- The entries that are not worked on take no lock.
  pub Worked-Untaken :
      (sh₀ : Shared) (es done : List WriteEntry) (nb : ℕ) (sh : Shared)
      → Untaken es
      → Worked sh₀ done nb sh
      → Worked sh₀ (rev_onto es done) nb sh
  Worked-Untaken sh₀ es done nb sh un k = record {
    holding = record {
      own = λ j t. k.holding.own j (sym (same j) ∙ t);
      other = λ j t. k.holding.other j (sym (same j) ∙ t);
      remembers =
          All-rev_onto (Remembers sh₀.lock) es done
            (All-map (λ e u n. absurd (false≢true (sym n ∙ u))) es un) k.holding.remembers;
      rest = k.holding.rest;
    };
    counted = omega (arith, k.counted, count_taken-rev_onto es done, count_taken-Untaken es un);
  }
    where
      same : (j : ℕ) → taken_by (rev_onto es done) j ≡ taken_by done j
      same j =
          taken_by-rev_onto es done j ∙ ap (λ b. b || taken_by done j) (taken_by-Untaken es j un)

  -- A lock word that names an entry of ours is one that we took.
  pub own_taken :
      (sh₀ : Shared) (es : List WriteEntry) (sh : Shared) (j : ℕ)
      → Placed ws sh₀.lock
      → Holding ws sh₀ es sh
      → get_owned (sh.lock j) ≡ true
      → in_write_set ws (get_addr (sh.lock j)) ≡ true
      → taken_by es j ≡ true
  own_taken sh₀ es sh j placed k own ours = elim (Bool-cases (taken_by es j)) [
    | inl y ↦ y
    | inr n ↦
        let same = k.other j n in
        absurd (
          false≢true (
            sym (placed.foreign j (subst (λ l. get_owned l ≡ true) same own))
            ∙ subst (λ l. in_write_set ws (get_addr l) ≡ true) same ours))
  ]

  -- One that is another thread's was so at the start.
  pub foreign_at_start :
      (sh₀ : Shared) (es : List WriteEntry) (sh : Shared) (j : ℕ)
      → Holding ws sh₀ es sh
      → get_owned (sh.lock j) ≡ true
      → in_write_set ws (get_addr (sh.lock j)) ≡ false
      → get_owned (sh₀.lock j) ≡ true
  foreign_at_start sh₀ es sh j k own theirs = elim (Bool-cases (taken_by es j)) [
    | inl y ↦ absurd (false≢true (sym theirs ∙ (k.own j y).1))
    | inr n ↦ subst (λ l. get_owned l ≡ true) (k.other j n) own
  ]
