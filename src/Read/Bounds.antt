-- ===== src/Read/Bounds.antt =====
-- A load (tinySTM/src/stm.c) leaves the sets within their arrays.
use tiny_stm_reval.Prelude.{
  ℕ, zero, suc, ◌≡◌, refl, Bool, true, false, not, ◌||◌, Option, none, some, ltb, leb, ◌==◌,
  if_both,
}
use tiny_stm_reval.Word.{get_owned, get_timestamp, lock_idx, version_max}
use tiny_stm_reval.Machine.{Env, tick}
use tiny_stm_reval.Descriptor.{ReadSet, WriteEntry, State, Exit, returned, exited}
use tiny_stm_reval.Sets.{has_written, add_read}
use tiny_stm_reval.Sets.Bounds.{SetsFit, RefusesHuge, add_read-SetsFit}
use tiny_stm_reval.Validate.{stm_validate, finish_extend, stm_extend}
use tiny_stm_reval.Restart.Bounds.{after_rollback-SetsFit, stm_rollback-SetsFit}
use tiny_stm_reval.Read.{
  Attempt, again, accept, refuse, reload, recheck, try_extend, read_attempt, read_loop, overlay,
  finish_accept, finish_read, written_whole, stm_load,
}

finish_extend-SetsFit :
    (now : ℕ) (p : Bool × State) → SetsFit p.1.tx → SetsFit (finish_extend now p).1.tx
unfolding finish_extend
finish_extend-SetsFit now (true, s) fit = fit
finish_extend-SetsFit now (false, s) fit = fit

stm_extend-SetsFit : (env : Env) (s : State) → SetsFit s.tx → SetsFit (stm_extend env s).1.tx
unfolding stm_extend stm_validate
stm_extend-SetsFit env s fit =
    let w = tick env s.world in
    if_both (leb version_max w.shared.clock) (λ (p : Bool × State). SetsFit p.1.tx) fit
      (finish_extend-SetsFit w.shared.clock _ fit)

-- The sets at the end of a pass.
abbrev Fits : Attempt → Type 0
Fits (again l s) = SetsFit s.tx
Fits (accept value version s) = SetsFit s.tx
Fits (refuse s) = SetsFit s.tx

recheck-SetsFit :
    (env : Env) (addr value l : ℕ) (p : Bool × State)
    → SetsFit p.1.tx
    → Fits (recheck env addr value l p)
unfolding recheck
recheck-SetsFit env addr value l (false, s) fit = fit
recheck-SetsFit env addr value l (true, s) fit =
    if_both ((tick env s.world).shared.lock (lock_idx addr) == l) Fits fit fit

try_extend-SetsFit :
    (env : Env) (addr value l : ℕ) (s : State) → SetsFit s.tx → Fits (try_extend env addr value l s)
unfolding try_extend
try_extend-SetsFit env addr value l s fit =
    if_both (s.tx.ro || not s.tx.can_extend) Fits fit
      (recheck-SetsFit env addr value l (stm_extend env s) (stm_extend-SetsFit env s fit))

read_attempt-SetsFit :
    (env : Env) (addr l : ℕ) (s : State) → SetsFit s.tx → Fits (read_attempt env addr l s)
unfolding read_attempt reload
read_attempt-SetsFit env addr l s fit =
    let w₁ = tick env s.world in
    let w₂ = tick env w₁ in
    if_both (get_owned l) Fits fit (
      if_both (l == w₂.shared.lock (lock_idx addr)) Fits
        (if_both (ltb s.tx.end_ (get_timestamp l)) Fits
          (try_extend-SetsFit env addr (w₁.shared.mem addr) l (record s { world = w₂ }) fit) fit)
        fit)

finish_accept-SetsFit :
    (env : Env) (refuses : RefusesHuge env) (addr : ℕ) (o : Option WriteEntry) (value version : ℕ)
    (s : State) (ro : Bool)
    → SetsFit s.tx
    → SetsFit (finish_accept env addr o value version s ro).1.tx
unfolding finish_accept
finish_accept-SetsFit env refuses addr o value version s true fit = fit
finish_accept-SetsFit env refuses addr o value version s false (reads, writes) =
    go (add_read env (record { version = version; lock = lock_idx addr }) s.tx.r_set) refl
  where
    go :
        (rs : Option ReadSet)
        → add_read env (record { version = version; lock = lock_idx addr }) s.tx.r_set ≡ rs
        → SetsFit
            (elim rs as (λ _. Exit ℕ × State) [
              | none ↦ (exited, s)
              | some rs ↦ (
                returned (overlay o value),
                let tx = s.tx in record s { tx = record tx { r_set = rs } },
              )
            ]).1.tx
    go none h = (reads, writes)
    go (some rs) h = (
      add_read-SetsFit env (record { version = version; lock = lock_idx addr }) s.tx.r_set rs
          refuses reads h,
      writes,
    )

-- The end of a load, behind a pass that ends the loop.
finish-SetsFit :
    (env : Env) (refuses : RefusesHuge env) (addr : ℕ) (o : Option WriteEntry) (s : State)
    (p : Attempt)
    → Fits p
    → SetsFit (finish_read env addr o s (some p)).1.tx
unfolding finish_read
finish-SetsFit env refuses addr o s (again l t) fit = fit
finish-SetsFit env refuses addr o s (accept value version t) fit =
    finish_accept-SetsFit env refuses addr o value version t t.tx.ro fit
finish-SetsFit env refuses addr o s (refuse t) fit =
    after_rollback-SetsFit 0 _ (stm_rollback-SetsFit env _ _ fit)

read_loop-SetsFit :
    (env : Env) (refuses : RefusesHuge env) (n addr l : ℕ) (o : Option WriteEntry) (s₀ s : State)
    → SetsFit s₀.tx
    → SetsFit s.tx
    → SetsFit (finish_read env addr o s₀ (read_loop env n addr l s)).1.tx
unfolding read_loop
read_loop-SetsFit env refuses zero addr l o s₀ s fit₀ fit = unfold finish_read in fit₀
read_loop-SetsFit env refuses (suc n) addr l o s₀ s fit₀ fit =
    go (read_attempt env addr l s) (read_attempt-SetsFit env addr l s fit)
      (λ l' t f. read_loop-SetsFit env refuses n addr l' o s₀ t fit₀ f)
  where
    go :
        (p : Attempt)
        → Fits p
        → ((l' : ℕ) (t : State)
            → SetsFit t.tx
            → SetsFit (finish_read env addr o s₀ (read_loop env n addr l' t)).1.tx)
        → SetsFit
            (finish_read env addr o s₀ (elim p [
              | again l' s' ↦ read_loop env n addr l' s'
              | accept value version s' ↦ some (accept value version s')
              | refuse s' ↦ some (refuse s')
            ])).1.tx
    go (again l' t) f more = more l' t f
    go (accept value version t) f more =
        finish-SetsFit env refuses addr o s₀ (accept value version t) f
    go (refuse t) f more = finish-SetsFit env refuses addr o s₀ (refuse t) f

-- However the other threads interleave and the load ends, also when it aborts, the entries of both
-- sets are within their arrays afterwards if they were before, and the sizes of both arrays are
-- positive ints: doubling one does not wrap around, because realloc refuses sizes above PTRDIFF_MAX.
pub stm_load-SetsFit :
    (env : Env)
    → RefusesHuge env
    → (addr : ℕ) (s : State) → SetsFit s.tx
    → SetsFit (stm_load env addr s).1.tx
unfolding stm_load
stm_load-SetsFit env refuses addr s fit = go (written_whole (has_written s.tx.w_set.entries addr))
  where
    go :
        (o : Option ℕ)
        → SetsFit
            (elim o as (λ _. Exit ℕ × State) [
              | some value ↦ (returned value, s)
              | none ↦
                  let w = tick env s.world in
                  let s' = record s { world = w } in
                  finish_read env addr
                    (has_written s.tx.w_set.entries addr)
                    s'
                    (read_loop env env.spins addr (w.shared.lock (lock_idx addr)) s')
            ]).1.tx
    go (some value) = fit
    go none =
        read_loop-SetsFit env refuses env.spins addr _ (has_written s.tx.w_set.entries addr)
          (record s { world = tick env s.world }) (record s { world = tick env s.world }) fit fit
