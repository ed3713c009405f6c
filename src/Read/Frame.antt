-- ===== src/Read/Frame.antt =====
-- What a load that returns leaves alone, and where its value comes from (stm_load of
-- tinySTM/src/stm.c).
use tiny_stm_reval.Prelude.{
  ℕ, zero, suc, ◌≡◌, refl, ap, ◌∙◌, ◌≢◌, ◌⊎◌, inl, inr, Bool, true, false, not, ◌||◌, Option, none,
  some, List, ltb, leb, ◌==◌, if_both,
}
use tiny_stm_reval.Word.{get_owned, get_timestamp, lock_idx, version_max}
use tiny_stm_reval.Machine.{Env, tick}
use tiny_stm_reval.Descriptor.{
  Attr, ReadSet, WriteEntry, State, Exit, returned, jumped, exited, spinning,
}
use tiny_stm_reval.Sets.{has_written, add_read}
use tiny_stm_reval.Validate.{stm_validate, finish_extend, stm_extend}
use tiny_stm_reval.Restart.{after_rollback, no_retry}
use tiny_stm_reval.Restart.Frame.{rollback_jumps}
use tiny_stm_reval.Read.{
  Attempt, again, accept, refuse, reload, recheck, try_extend, read_attempt, read_loop, overlay,
  finish_accept, finish_read, written_whole, stm_load, abort_val_read,
}

module _ (ws : List WriteEntry) (attr : Option Attr) where
  -- The write set and the attributes.
  abbrev pub Keeps : State → Type 0
  Keeps s = (s.tx.w_set.entries ≡ ws) × (s.tx.attr ≡ attr)

  abbrev PassKeeps : Attempt → Type 0
  PassKeeps (again l s) = Keeps s
  PassKeeps (accept value version s) = Keeps s
  PassKeeps (refuse s) = Keeps s

  finish_extend-Keeps : (now : ℕ) (p : Bool × State) → Keeps p.1 → Keeps (finish_extend now p).1
  unfolding finish_extend
  finish_extend-Keeps now (true, s) k = k
  finish_extend-Keeps now (false, s) k = k

  stm_extend-Keeps : (env : Env) (s : State) → Keeps s → Keeps (stm_extend env s).1
  unfolding stm_extend stm_validate
  stm_extend-Keeps env s k =
      let w = tick env s.world in
      if_both (leb version_max w.shared.clock) (λ (p : Bool × State). Keeps p.1) k
        (finish_extend-Keeps w.shared.clock _ k)

  recheck-Keeps :
      (env : Env) (addr value l : ℕ) (p : Bool × State)
      → Keeps p.1
      → PassKeeps (recheck env addr value l p)
  unfolding recheck
  recheck-Keeps env addr value l (false, s) k = k
  recheck-Keeps env addr value l (true, s) k =
      if_both ((tick env s.world).shared.lock (lock_idx addr) == l) PassKeeps k k

  read_attempt-Keeps :
      (env : Env) (addr l : ℕ) (s : State) → Keeps s → PassKeeps (read_attempt env addr l s)
  unfolding read_attempt reload try_extend
  read_attempt-Keeps env addr l s k =
      let w₁ = tick env s.world in
      let w₂ = tick env w₁ in
      let s₂ : State = record s { world = w₂ } in
      if_both (get_owned l) PassKeeps k (
        if_both (l == w₂.shared.lock (lock_idx addr)) PassKeeps
          (if_both (ltb s.tx.end_ (get_timestamp l)) PassKeeps
            (if_both (s.tx.ro || not s.tx.can_extend) PassKeeps k (
              recheck-Keeps env addr (w₁.shared.mem addr) l (stm_extend env s₂)
                (stm_extend-Keeps env s₂ k)))
            k)
          k)

  -- A load that returns.
  abbrev pub Gives : Option WriteEntry → Exit ℕ × State → Type 0
  Gives o (returned v, s) = Keeps s × ((x : ℕ) × (v ≡ overlay o x))
  Gives o (jumped r, s) = Unit
  Gives o (exited, s) = Unit
  Gives o (spinning, s) = Unit

  finish_accept-Gives :
      (env : Env) (addr : ℕ) (o : Option WriteEntry) (value version : ℕ) (s : State) (ro : Bool)
      → Keeps s
      → Gives o (finish_accept env addr o value version s ro)
  unfolding finish_accept
  finish_accept-Gives env addr o value version s true k = (k, (value, refl))
  finish_accept-Gives env addr o value version s false k =
      go (add_read env (record { version = version; lock = lock_idx addr }) s.tx.r_set)
    where
      go :
          (rs : Option ReadSet)
          → Gives o (elim rs as (λ _. Exit ℕ × State) [
            | none ↦ (exited, s)
            | some rs ↦ (
              returned (overlay o value),
              let tx = s.tx in record s { tx = record tx { r_set = rs } },
            )
          ])
      go none = tt
      go (some rs) = (k, (value, refl))

  refused-Gives :
      (o : Option WriteEntry) (p : Exit (Unit {0}) × State)
      → ((u : Unit {0}) → p.0 ≢ returned u)
      → Gives o (after_rollback 0 p)
  unfolding after_rollback
  refused-Gives o (returned u, t) stays = absurd (stays u refl)
  refused-Gives o (jumped r, t) stays = tt
  refused-Gives o (exited, t) stays = tt
  refused-Gives o (spinning, t) stays = tt

  finish_read-Gives :
      (env : Env) (addr : ℕ) (o : Option WriteEntry) (s : State) (p : Attempt)
      → no_retry attr ≡ false
      → PassKeeps p
      → Gives o (finish_read env addr o s (some p))
  unfolding finish_read
  finish_read-Gives env addr o s (again l t) may k = tt
  finish_read-Gives env addr o s (accept value version t) may k =
      finish_accept-Gives env addr o value version t t.tx.ro k
  finish_read-Gives env addr o s (refuse t) may k =
      refused-Gives o _ (rollback_jumps env abort_val_read _ (ap no_retry k.1 ∙ may))

  read_loop-Gives :
      (env : Env) (n addr l : ℕ) (o : Option WriteEntry) (s₀ s : State)
      → no_retry attr ≡ false
      → Keeps s
      → Gives o (finish_read env addr o s₀ (read_loop env n addr l s))
  unfolding read_loop
  read_loop-Gives env zero addr l o s₀ s may k = unfold finish_read in tt
  read_loop-Gives env (suc n) addr l o s₀ s may k =
      go (read_attempt env addr l s) (read_attempt-Keeps env addr l s k)
        (λ l' t k'. read_loop-Gives env n addr l' o s₀ t may k')
    where
      go :
          (p : Attempt)
          → PassKeeps p
          → ((l' : ℕ) (t : State)
              → Keeps t
              → Gives o (finish_read env addr o s₀ (read_loop env n addr l' t)))
          → Gives o (
              finish_read env addr o s₀ (elim p [
                | again l' s' ↦ read_loop env n addr l' s'
                | accept value version s' ↦ some (accept value version s')
                | refuse s' ↦ some (refuse s')
              ]))
      go (again l' t) k' more = more l' t k'
      go (accept value version t) k' more =
          finish_read-Gives env addr o s₀ (accept value version t) may k'
      go (refuse t) k' more = finish_read-Gives env addr o s₀ (refuse t) may k'

-- What a load gives: the value of an entry that is written whole, else the entry's bytes over some
-- value of memory.
abbrev pub Loads : ℕ → State → Exit ℕ × State → Type 0
Loads addr s (returned v, t) =
    Keeps s.tx.w_set.entries s.tx.attr t
    × ((written_whole (has_written s.tx.w_set.entries addr) ≡ some v)
        ⊎ ((x : ℕ) × (v ≡ overlay (has_written s.tx.w_set.entries addr) x)))
Loads addr s (jumped r, t) = Unit
Loads addr s (exited, t) = Unit
Loads addr s (spinning, t) = Unit

pub stm_load-Loads :
    (env : Env) (addr : ℕ) (s : State)
    → no_retry s.tx.attr ≡ false
    → Loads addr s (stm_load env addr s)
unfolding stm_load
stm_load-Loads env addr s may = go (written_whole (has_written s.tx.w_set.entries addr)) refl
  where
    s₁ : State
    s₁ = record s { world = tick env s.world }

    weaken :
        (p : Exit ℕ × State)
        → Gives s.tx.w_set.entries s.tx.attr (has_written s.tx.w_set.entries addr) p
        → Loads addr s p
    weaken (returned v, t) (k, x) = (k, inr x)
    weaken (jumped r, t) g = tt
    weaken (exited, t) g = tt
    weaken (spinning, t) g = tt

    go :
        (o : Option ℕ)
        → written_whole (has_written s.tx.w_set.entries addr) ≡ o
        → Loads addr s (elim o as (λ _. Exit ℕ × State) [
          | some value ↦ (returned value, s)
          | none ↦
              let w = tick env s.world in
              let s' = record s { world = w } in
              finish_read env addr
                (has_written s.tx.w_set.entries addr)
                s'
                (read_loop env env.spins addr (w.shared.lock (lock_idx addr)) s')
        ])
    go (some value) e = ((refl, refl), inl e)
    go none e = weaken _ (
        read_loop-Gives s.tx.w_set.entries s.tx.attr env env.spins addr _
          (has_written s.tx.w_set.entries addr) s₁ s₁ may (refl, refl))
