-- ===== src/Snapshot/Attempt.antt =====
-- One pass of stm_read_invisible over lock, value, lock: what it returns belongs to the snapshot.
use tiny_stm_reval.Prelude.{
  ℕ, suc, ◌≤◌, ◌≡◌, refl, sym, ◌∙◌, inl, inr, Bool, true, false, List, [], ◌∷◌, arith, leb,
  Bool-cases, if_both,
}
use tiny_stm_reval.Word.{get_owned, get_timestamp, lock_idx, version_max}
use tiny_stm_reval.Machine.{Env, World, tick}
use tiny_stm_reval.Descriptor.{ReadEntry, WriteSet, State}
use tiny_stm_reval.Validate.{entry_valid, validate_entries, stm_validate, finish_extend, stm_extend}
use tiny_stm_reval.Read.{Attempt, again, accept, refuse, reload}
use tiny_stm_reval.Snapshot.{History, Unchanged, Good, Rely, EntryHolds}
use tiny_stm_reval.Snapshot.Validate.{Unchanged-upto, free_holds}
use tiny_stm_reval.Snapshot.Extend.{Ready, Later, tick-Ready}

-- A lock word that was loaded at `w` or before: if it was free, memory held at that time a value
-- that was current at the word's version.
abbrev pub Seen : History → (ℕ → ℕ → ℕ) → ℕ → ℕ → World → Type 0
Seen h stamp a l w =
    get_owned l ≡ false
    → (σ : ℕ) × (σ ≤ stamp w.now a)
      × (σ ≤ get_timestamp l)
      × (get_timestamp l ≤ w.shared.clock)
      × Unchanged h a σ (get_timestamp l)

now-tick : (env : Env) (w : World) → (tick env w).now ≡ suc w.now
unfolding tick
now-tick env w = refl

module _ {env : Env} {h : History} {stamp : ℕ → ℕ → ℕ} {ws : WriteSet}
    (rely : Rely env h stamp ws) where
  pub Seen-load :
      (a : ℕ) (w : World) → Good h stamp ws w → Seen h stamp a (w.shared.lock (lock_idx a)) w
  Seen-load a w g free = (
    stamp w.now a,
    omega arith,
    (g.stamped a free).0,
    (g.stamped a free).1,
    Unchanged-upto h a _ _ w.shared.clock (g.stamped a free).1 (g.unchanged a free),
  )

  stamp-tick : (a : ℕ) (w : World) → stamp w.now a ≤ stamp (tick env w).now a
  stamp-tick a w = rw (now-tick env w) (rely.later w.now a)

  pub Seen-tick :
      (a l : ℕ) (w : World) → Good h stamp ws w → Seen h stamp a l w → Seen h stamp a l (tick env w)
  Seen-tick a l w g seen free =
      let (σ, p, q, b, u) = seen free in
      (σ, omega (arith, stamp-tick a w), q, omega (arith, rely.forward w g), u)

  Seen-validate :
      (a l : ℕ) (rs : List ReadEntry) (w : World)
      → Good h stamp ws w
      → Seen h stamp a l w
      → Seen h stamp a l (validate_entries env ws rs w).1
  unfolding validate_entries
  Seen-validate a l [] w g seen = seen
  Seen-validate a l (r ∷ rs) w g seen =
      let seen' = Seen-tick a l w g seen in
      elim (Bool-cases (entry_valid ws r ((tick env w).shared.lock r.lock))) [
        | inl y ↦ rw y (Seen-validate a l rs (tick env w) (rely.keeps w g) seen')
        | inr n ↦ rw n seen'
      ]

  -- A word that was seen before an extension.
  pub Seen-extend :
      (a l : ℕ) (s : State)
      → Ready h stamp ws s
      → Seen h stamp a l s.world
      → Seen h stamp a l (stm_extend env s).1.world
  unfolding stm_extend stm_validate
  Seen-extend a l s r seen =
      let w = tick env s.world in
      let seen' = Seen-tick a l s.world r.good seen in
      if_both (leb version_max w.shared.clock) (λ (p : Bool × State). Seen h stamp a l p.1.world)
        seen'
        (same_world w.shared.clock _
          (rw r.writes (Seen-validate a l s.tx.r_set.entries w (rely.keeps s.world r.good) seen')))
    where
      same_world :
          (now : ℕ) (p : Bool × State)
          → Seen h stamp a l p.1.world
          → Seen h stamp a l (finish_extend now p).1.world
      same_world now (true, t) k = unfold finish_extend in k
      same_world now (false, t) k = unfold finish_extend in k

  -- Memory, read between two loads of a free lock that agree, is current at the lock's version.
  pub value_current :
      (a l : ℕ) (w : World)
      → Good h stamp ws w
      → Seen h stamp a l w
      → get_owned l ≡ false
      → (tick env (tick env w)).shared.lock (lock_idx a) ≡ l
      → (tick env w).shared.mem a ≡ h (get_timestamp l) a
  value_current a l w g seen free e =
      let (σ, p, q, b, u) = seen free in
      let g₁ = rely.keeps w g in
      let g₂ = rely.keeps (tick env w) g₁ in
      let (c, d) = g₂.stamped a (rw e free) in
      let c' : stamp (tick env (tick env w)).now a ≤ get_timestamp l = rw e at c in
      g₁.value a
      ∙ u (stamp (tick env w).now a) (omega (arith, stamp-tick a w))
          (omega (arith, stamp-tick a (tick env w)))
      ∙ sym (u (get_timestamp l) q (omega arith))

  abbrev pub Passes : ℕ → State → Attempt → Type 0
  Passes addr s (again l' s') = Ready h stamp ws s' × Later h s s' × Seen h stamp addr l' s'.world
  Passes addr s (accept value version s') =
      Ready h stamp ws s'
      × Later h s s'
      × (value ≡ h version addr)
      × EntryHolds h s'.tx.end_ (record { version = version; lock = lock_idx addr })
  Passes addr s (refuse s') = s'.tx.attr ≡ s.tx.attr

  pub reload-Passes :
      (addr : ℕ) (s : State) → Ready h stamp ws s → Passes addr s (reload env addr s)
  unfolding reload
  reload-Passes addr s r =
      let r' = tick-Ready rely s r in
      (
        r',
        record { ro = refl; reads = refl; attr = refl; pinned = λ a p. refl },
        Seen-load addr (tick env s.world) r'.good,
      )

  -- A free lock with a version in the snapshot.
  pub accept_holds :
      (addr l : ℕ) (s : State)
      → Ready h stamp ws s
      → s.world.shared.lock (lock_idx addr) ≡ l
      → get_owned l ≡ false
      → get_timestamp l ≤ s.tx.end_
      → EntryHolds h s.tx.end_ (record { version = get_timestamp l; lock = lock_idx addr })
  accept_holds addr l s r e free b =
      free_holds rely (record { version = get_timestamp l; lock = lock_idx addr }) s.world s.tx.end_
        r.good r.snapshot.bounded b (rw e free) (rw e)
