-- ===== src/Snapshot/Extend.antt =====
-- stm_extend moves the snapshot of a transaction forward and keeps what it has read.
use tiny_stm_reval.Prelude.{
  ℕ, ◌≤◌, ◌≡◌, refl, sym, ◌∙◌, inl, inr, Bool, true, false, List, [], ◌∷◌, arith, leb, Bool-cases,
  All,
}
use mathlib.Core.Bool.{false≢true}
use tiny_stm_reval.Word.{version_max}
use tiny_stm_reval.Machine.{Env, World, tick}
use tiny_stm_reval.Descriptor.{ReadEntry, WriteSet, State}
use tiny_stm_reval.Validate.{validate_entries, stm_validate, stm_extend, finish_extend}
use tiny_stm_reval.Snapshot.{History, Good, Rely, EntryHolds, IsSnapshot, Covered, Pinned}
use tiny_stm_reval.Snapshot.Validate.{validate_entries_holds, validate_entries-Good}

-- The state of a transaction that reads.
pub record Ready (h : History) (stamp : ℕ → ℕ → ℕ) (ws : WriteSet) (s : State) : Type 0 where
  pub writes : s.tx.w_set ≡ ws
  pub good : Good h stamp ws s.world
  pub snapshot : IsSnapshot h s

-- What a read leaves alone, and the values that it may not change.
pub record Later (h : History) (s s' : State) : Type 0 where
  pub ro : s'.tx.ro ≡ s.tx.ro
  pub reads : s'.tx.r_set ≡ s.tx.r_set
  pub attr : s'.tx.attr ≡ s.tx.attr
  pub pinned : (a : ℕ) → Pinned a s.tx → h s'.tx.end_ a ≡ h s.tx.end_ a

pub Later-refl : (h : History) (s : State) → Later h s s
Later-refl h s = record { ro = refl; reads = refl; attr = refl; pinned = λ a p. refl }

pub Later-trans : (h : History) (s t u : State) → Later h s t → Later h t u → Later h s u
Later-trans h s t u p q = record {
  ro = q.ro ∙ p.ro;
  reads = q.reads ∙ p.reads;
  attr = q.attr ∙ p.attr;
  pinned = λ a k. q.pinned a (move a k) ∙ p.pinned a k;
}
  where
    move : (a : ℕ) → Pinned a s.tx → Pinned a t.tx
    move a (inl e) = inl (p.ro ∙ e)
    move a (inr c) = inr (rw p.reads c)

pub Covered-eq :
    (h : History) (t t' a : ℕ) (rs : List ReadEntry)
    → t ≤ t'
    → All (EntryHolds h t) rs
    → All (EntryHolds h t') rs
    → Covered a rs
    → h t' a ≡ h t a
Covered-eq h t t' a [] b p q c = absurd c
Covered-eq h t t' a (r ∷ rs) b p q (inl e) =
    q.0.1 a e t' q.0.0 (omega arith) ∙ sym (q.0.1 a e t p.0.0 b)
Covered-eq h t t' a (r ∷ rs) b p q (inr c) = Covered-eq h t t' a rs b p.1 q.1 c

pub versions_le :
    (h : History) (t t' : ℕ) (rs : List ReadEntry)
    → t ≤ t'
    → All (EntryHolds h t) rs
    → All (λ r. r.version ≤ t') rs
versions_le h t t' [] b p = tt
versions_le h t t' (r ∷ rs) b p = (omega (arith, p.0.0), versions_le h t t' rs b p.1)

-- Other threads run: the transaction stays ready.
pub tick-Ready :
    {env : Env} {h : History} {stamp : ℕ → ℕ → ℕ} {ws : WriteSet}
    → Rely env h stamp ws
    → (s : State) → Ready h stamp ws s
    → Ready h stamp ws (record s { world = tick env s.world })
tick-Ready rely s r = record {
  writes = r.writes;
  good = rely.keeps s.world r.good;
  snapshot = record {
    entries = r.snapshot.entries;
    bounded = omega (arith, r.snapshot.bounded, rely.forward s.world r.good);
  };
}

pub attr-stm_extend : (env : Env) (s : State) → (stm_extend env s).1.tx.attr ≡ s.tx.attr
unfolding stm_extend stm_validate
attr-stm_extend env s =
    let w = tick env s.world in
    elim (Bool-cases (leb version_max w.shared.clock)) [ inl y ↦ rw y | inr n ↦ rw n (go _ _) ]
  where
    go :
        (b : Bool) (w : World)
        → (finish_extend (tick env s.world).shared.clock (b, record s { world = w })).1.tx.attr
          ≡ s.tx.attr
    go true w = unfold finish_extend in refl
    go false w = unfold finish_extend in refl

-- A successful extension.
pub extend_Ready :
    {env : Env} {h : History} {stamp : ℕ → ℕ → ℕ} {ws : WriteSet}
    → Rely env h stamp ws
    → (s : State) → Ready h stamp ws s
    → s.tx.ro ≡ false
    → (stm_extend env s).0 ≡ true
    → Ready h stamp ws (stm_extend env s).1 × Later h s (stm_extend env s).1
unfolding stm_extend stm_validate finish_extend
extend_Ready {env} {h} {stamp} {ws} rely s r up e =
    elim (Bool-cases (leb version_max w.shared.clock)) [
      | inl y ↦ absurd (false≢true (rw y at e))
      | inr n ↦ elim (Bool-cases (validate_entries env s.tx.w_set s.tx.r_set.entries w).0) [
        | inl v ↦ rw (n, v) (ready v, after v)
        | inr f ↦ absurd (false≢true (rw (n, f) at e))
      ]
    ]
  where
    w : World
    w = tick env s.world

    t : ℕ
    t = w.shared.clock

    now_Ready : Ready h stamp ws (record s { world = w })
    now_Ready = tick-Ready rely s r

    below : s.tx.end_ ≤ t
    below = now_Ready.snapshot.bounded

    holds :
        (validate_entries env s.tx.w_set s.tx.r_set.entries w).0 ≡ true
        → All (EntryHolds h t) s.tx.r_set.entries
    holds v =
        validate_entries_holds rely s.tx.r_set.entries w t now_Ready.good (omega arith)
          (versions_le h s.tx.end_ t s.tx.r_set.entries below r.snapshot.entries) (rw r.writes at v)

    after_good :
        Good h stamp ws (validate_entries env s.tx.w_set s.tx.r_set.entries w).1
        × (t ≤ (validate_entries env s.tx.w_set s.tx.r_set.entries w).1.shared.clock)
    after_good = rw r.writes (validate_entries-Good rely s.tx.r_set.entries w now_Ready.good)

    extended : State
    extended =
        let tx = s.tx in
        record s {
          tx = record tx { end_ = t };
          world = (validate_entries env s.tx.w_set s.tx.r_set.entries w).1;
        }

    ready :
        (validate_entries env s.tx.w_set s.tx.r_set.entries w).0 ≡ true → Ready h stamp ws extended
    ready v = record {
      writes = r.writes;
      good = after_good.0;
      snapshot = record { entries = holds v; bounded = after_good.1 };
    }

    pinned :
        (validate_entries env s.tx.w_set s.tx.r_set.entries w).0 ≡ true
        → (a : ℕ) → Pinned a s.tx
        → h t a ≡ h s.tx.end_ a
    pinned v a (inl ro) = absurd (false≢true (sym up ∙ ro))
    pinned v a (inr c) =
        Covered-eq h s.tx.end_ t a s.tx.r_set.entries below r.snapshot.entries (holds v) c

    after : (validate_entries env s.tx.w_set s.tx.r_set.entries w).0 ≡ true → Later h s extended
    after v = record { ro = refl; reads = refl; attr = refl; pinned = pinned v }

pub end-stm_extend :
    (env : Env) (s : State)
    → (stm_extend env s).0 ≡ true
    → (stm_extend env s).1.tx.end_ ≡ (tick env s.world).shared.clock
unfolding stm_extend stm_validate finish_extend
end-stm_extend env s e =
    let w = tick env s.world in
    elim (Bool-cases (leb version_max w.shared.clock)) [
      | inl y ↦ absurd (false≢true (rw y at e))
      | inr n ↦ elim (Bool-cases (validate_entries env s.tx.w_set s.tx.r_set.entries w).0) [
        | inl v ↦ rw (n, v)
        | inr f ↦ absurd (false≢true (rw (n, f) at e))
      ]
    ]
