-- ===== src/Write/Lookup.antt =====
-- What a transaction finds in its own write set after stm_write (tinySTM/src/stm.c).
use tiny_stm_reval.Prelude.{
  if_both, ℕ, ◌≡◌, refl, sym, ap, ◌∙◌, ◌≢◌, inl, inr, false, not, ◌&&◌, ◌||◌, Option, none, some,
  List, [], ◌∷◌, ◌++◌, arith, ltb, ◌==◌, if◌then◌else◌, ==_iff, Bool-cases,
}
use mathlib.Core.Option
use tiny_stm_reval.Word.{lock_idx, get_timestamp}
use tiny_stm_reval.Machine.{Env, World}
use tiny_stm_reval.Descriptor.{
  WriteEntry, WriteSet, Attr, State, Exit, returned, jumped, exited, spinning,
}
use tiny_stm_reval.Sets.{
  has_written, merge_entry, update_written, add_write, extend_write_set, has_read,
}
use tiny_stm_reval.Restart.{no_retry, after_rollback}
use tiny_stm_reval.Restart.Frame.{rollback_jumps}
use tiny_stm_reval.Write.{
  abort_ro_write, abort_val_write, await_unlocked, clear_read_only, refuse_ro, refuse_write,
  new_entry, append_write, write_unlocked, stm_write, is_some,
}

-- What a write makes of the entry of its address, if there is one.
abbrev pub next_entry : ℕ → ℕ → ℕ → ℕ × ℕ → Option WriteEntry → WriteEntry
next_entry addr value mask stale (some e) = merge_entry value mask e
next_entry addr value mask stale none = new_entry addr value mask stale

has_written-update_written :
    (value mask addr b : ℕ) (ws : List WriteEntry)
    → has_written (update_written (merge_entry value mask) ws addr) b ≡ (
        if addr == b
        then Option.map (merge_entry value mask) (has_written ws b)
        else has_written ws b)
unfolding has_written update_written merge_entry
has_written-update_written value mask addr b [] = ground arith
has_written-update_written value mask addr b (w ∷ ws) =
    ground (arith, has_written-update_written value mask addr b ws)

has_written-append :
    (ws : List WriteEntry) (e : WriteEntry) (b : ℕ)
    → has_written (ws ++ (e ∷ [])) b
      ≡ elim (has_written ws b) [ some w ↦ some w | none ↦ if e.addr == b then some e else none ]
unfolding has_written
has_written-append [] e b = refl
has_written-append (w ∷ ws) e b = ground (arith, has_written-append ws e b)

-- What holds of a write that returns.
abbrev pub WriteHolds : ℕ → ℕ → ℕ → State → Exit (Option WriteEntry) × State → Type 0
WriteHolds addr value mask s (returned (some e), s') =
    ((b : ℕ)
      → has_written s'.tx.w_set.entries b
        ≡ (if addr == b then some e else has_written s.tx.w_set.entries b))
    × ((stale : ℕ × ℕ) × (e
          ≡ next_entry addr value mask stale (has_written s.tx.w_set.entries addr)))
    × (no_retry s'.tx.attr ≡ no_retry s.tx.attr)
WriteHolds addr value mask s (returned none, s') = ⊥
WriteHolds addr value mask s (jumped r, s') = Unit
WriteHolds addr value mask s (exited, s') = Unit
WriteHolds addr value mask s (spinning, s') = Unit

refused-WriteHolds :
    (addr value mask : ℕ) (s : State) (p : Exit (Unit {0}) × State)
    → ((u : Unit {0}) → p.0 ≢ returned u)
    → WriteHolds addr value mask s (after_rollback none p)
unfolding after_rollback
refused-WriteHolds addr value mask s (returned u, t) stays = absurd (stays u refl)
refused-WriteHolds addr value mask s (jumped r, t) stays = tt
refused-WriteHolds addr value mask s (exited, t) stays = tt
refused-WriteHolds addr value mask s (spinning, t) stays = tt

entries-add_write :
    (env : Env) (e : WriteEntry) (ws ws' : WriteSet)
    → add_write env e ws ≡ some ws'
    → ws'.entries ≡ ws.entries ++ (e ∷ [])
unfolding add_write extend_write_set
entries-add_write env e ws ws' h = ground arith

place_new :
    (addr b : ℕ) (e : WriteEntry) (f : ℕ → Option WriteEntry)
    → e.addr ≡ addr
    → f addr ≡ none
    → elim (f b) [ some w ↦ some w | none ↦ if e.addr == b then some e else none ]
      ≡ (if addr == b then some e else f b)
place_new addr b e f at fresh = elim (Bool-cases (addr == b)) [
  | inl h ↦ let same : f b ≡ none = ap f (sym ((==_iff addr b).0 h)) ∙ fresh in ground arith
  | inr h ↦ by_found (f b) h
]
  where
    by_found :
        (o : Option WriteEntry)
        → (addr == b) ≡ false
        → elim o [ some w ↦ some w | none ↦ if e.addr == b then some e else none ]
          ≡ (if addr == b then some e else o)
    by_found none h = ground arith
    by_found (some w) h = ground arith

append_write-WriteHolds :
    (env : Env) (addr value mask : ℕ) (stale : ℕ × ℕ) (s : State)
    → has_written s.tx.w_set.entries addr ≡ none
    → WriteHolds addr value mask s (append_write env (new_entry addr value mask stale) s)
unfolding append_write new_entry
append_write-WriteHolds env addr value mask stale s fresh = go (add_write env e s.tx.w_set) refl
  where
    e : WriteEntry
    e = new_entry addr value mask stale

    found :
        (b : ℕ)
        → has_written (s.tx.w_set.entries ++ (e ∷ [])) b
          ≡ (if addr == b then some e else has_written s.tx.w_set.entries b)
    found b =
        has_written-append s.tx.w_set.entries e b
        ∙ place_new addr b e (has_written s.tx.w_set.entries) refl fresh

    go :
        (o : Option WriteSet)
        → add_write env e s.tx.w_set ≡ o
        → WriteHolds addr value mask s (elim o [
          | none ↦ (exited, s)
          | some ws ↦
              let tx = s.tx in (returned (some e), record s { tx = record tx { w_set = ws } })
        ])
    go none h = tt
    go (some ws) h = (
      λ b. ap (λ l. has_written l b) (entries-add_write env e s.tx.w_set ws h) ∙ found b,
      (stale, ap (next_entry addr value mask stale) (sym fresh)),
      refl,
    )

-- What a rollback gives its caller is no result of a write.
refuse_write-WriteHolds :
    (env : Env) (addr value mask : ℕ) (s s₀ : State)
    → no_retry s.tx.attr ≡ false
    → WriteHolds addr value mask s₀ (refuse_write env s)
unfolding refuse_write
refuse_write-WriteHolds env addr value mask s s₀ may =
    refused-WriteHolds addr value mask s₀ _ (rollback_jumps env abort_val_write _ may)

no_retry-clear_read_only : (a : Option Attr) → no_retry (clear_read_only a) ≡ no_retry a
unfolding no_retry clear_read_only
no_retry-clear_read_only none = refl
no_retry-clear_read_only (some a) = refl

refuse_ro-WriteHolds :
    (env : Env) (addr value mask : ℕ) (s s₀ : State)
    → no_retry s.tx.attr ≡ false
    → WriteHolds addr value mask s₀ (refuse_ro env s)
unfolding refuse_ro
refuse_ro-WriteHolds env addr value mask s s₀ may =
    refused-WriteHolds addr value mask s₀ _
      (rollback_jumps env abort_ro_write _ (no_retry-clear_read_only s.tx.attr ∙ may))

place_merged :
    (value mask addr b : ℕ) (e : WriteEntry) (f : ℕ → Option WriteEntry)
    → f addr ≡ some e
    → (if addr == b then Option.map (merge_entry value mask) (f b) else f b)
      ≡ (if addr == b then some (merge_entry value mask e) else f b)
place_merged value mask addr b e f has = elim (Bool-cases (addr == b)) [
  | inl h ↦ let same : f b ≡ some e = ap f (sym ((==_iff addr b).0 h)) ∙ has in rw h (rw same refl)
  | inr h ↦ rw h refl
]

write_unlocked-WriteHolds :
    (env : Env) (addr value mask l : ℕ) (s : State)
    → no_retry s.tx.attr ≡ false
    → WriteHolds addr value mask s (write_unlocked env addr value mask l s)
unfolding write_unlocked
write_unlocked-WriteHolds env addr value mask l s may =
    go (has_written s.tx.w_set.entries addr) refl
  where
    found : Option WriteEntry
    found = has_written s.tx.w_set.entries addr

    go :
        (o : Option WriteEntry)
        → has_written s.tx.w_set.entries addr ≡ o
        → WriteHolds addr value mask s (elim o [
          | some e ↦ (
            returned (some (merge_entry value mask e)),
            let tx = s.tx in
                let ws = tx.w_set in
                record s {
                  tx = record tx {
                    w_set = record ws {
                      entries = update_written (merge_entry value mask) ws.entries addr;
                    };
                  };
                },
          )
          | none ↦
              if ltb s.tx.end_ (get_timestamp l)
                && (not s.tx.can_extend || is_some (has_read s.tx.r_set.entries (lock_idx addr)))
              then refuse_write env s
              else append_write env (new_entry addr value mask (env.stale s.world.now)) s
        ])
    go none h =
        if_both
          (ltb s.tx.end_ (get_timestamp l)
            && (not s.tx.can_extend || is_some (has_read s.tx.r_set.entries (lock_idx addr))))
          (WriteHolds addr value mask s) (refuse_write-WriteHolds env addr value mask s s may)
          (append_write-WriteHolds env addr value mask (env.stale s.world.now) s h)
    go (some e) h = (
      λ b.
          has_written-update_written value mask addr b s.tx.w_set.entries
          ∙ place_merged value mask addr b e (has_written s.tx.w_set.entries) h,
      ((0, 0), ap (next_entry addr value mask (0, 0)) (sym h)),
      refl,
    )

-- What a write that returns leaves in the write set.
pub stm_write-WriteHolds :
    (env : Env) (addr value mask : ℕ) (s : State)
    → no_retry s.tx.attr ≡ false
    → WriteHolds addr value mask s (stm_write env addr value mask s)
unfolding stm_write
stm_write-WriteHolds env addr value mask s may =
    if_both s.tx.ro (WriteHolds addr value mask s)
      (refuse_ro-WriteHolds env addr value mask s s may)
      (go (await_unlocked env env.spins (lock_idx addr) s.world))
  where
    go :
        (o : Option (ℕ × World))
        → WriteHolds addr value mask s (elim o [
          | none ↦ (spinning, s)
          | some (l, w) ↦ write_unlocked env addr value mask l (record s { world = w })
        ])
    go none = tt
    go (some (l, w)) = write_unlocked-WriteHolds env addr value mask l (record s { world = w }) may
