-- ===== src/Snapshot/Validate.antt =====
-- What a successful stm_validate and stm_extend say of the read set.
use tiny_stm_reval.Prelude.{
  ℕ, ◌≤◌, ◌≡◌, sym, ◌∙◌, inl, inr, true, false, List, [], ◌∷◌, arith, ==_iff, Bool-cases, All,
}
use mathlib.Core.Bool.{false≢true}
use tiny_stm_reval.Word.{get_owned, get_addr, get_timestamp, lock_idx}
use tiny_stm_reval.Machine.{Env, World, tick}
use tiny_stm_reval.Descriptor.{ReadEntry, WriteSet, in_write_set}
use tiny_stm_reval.Validate.{entry_valid, validate_entries}
use tiny_stm_reval.Snapshot.{History, Unchanged, Good, Rely, EntryHolds}

-- An interval of no change, seen from a later time.
pub Unchanged-from :
    (h : History) (a u v t : ℕ) → u ≤ v → v ≤ t → Unchanged h a u t → Unchanged h a v t
Unchanged-from h a u v t uv vt k x vx xt = k x (omega arith) xt ∙ sym (k v uv vt)

pub Unchanged-upto : (h : History) (a v s t : ℕ) → s ≤ t → Unchanged h a v t → Unchanged h a v s
Unchanged-upto h a v s t st k x vx xs = k x vx (omega arith)

-- With no lock of ours taken, a valid entry is one whose lock is free at its version.
pub entry_valid_free :
    (ws : WriteSet) (r : ReadEntry) (l : ℕ)
    → (get_owned l ≡ true → in_write_set ws (get_addr l) ≡ false)
    → entry_valid ws r l ≡ true
    → (get_owned l ≡ false) × (get_timestamp l ≡ r.version)
unfolding entry_valid
entry_valid_free ws r l f e = elim (Bool-cases (get_owned l)) [
  | inl y ↦ absurd (false≢true (rw (y, f y) at e))
  | inr n ↦ (n, (==_iff _ _).0 (rw n at e))
]

module _ {env : Env} {h : History} {stamp : ℕ → ℕ → ℕ} {ws : WriteSet}
    (rely : Rely env h stamp ws) where
  -- A lock that is free at its version makes the entry hold up to the clock.
  pub free_holds :
      (r : ReadEntry) (w : World) (t : ℕ)
      → Good h stamp ws w
      → t ≤ w.shared.clock
      → r.version ≤ t
      → get_owned (w.shared.lock r.lock) ≡ false
      → get_timestamp (w.shared.lock r.lock) ≡ r.version
      → EntryHolds h t r
  free_holds r w t g b c e v = (
    c,
    λ a ea.
        let free : get_owned (w.shared.lock (lock_idx a)) ≡ false = rw ea e in
        let vers : get_timestamp (w.shared.lock (lock_idx a)) ≡ r.version = rw ea v in
        Unchanged-upto h a r.version t w.shared.clock b (
          Unchanged-from h a (stamp w.now a) r.version w.shared.clock
            (omega (arith, g.stamped a free)) (omega arith) (g.unchanged a free)),
  )

  -- Each entry is seen valid at a time when the clock has reached `t`.
  pub validate_entries_holds :
      (rs : List ReadEntry) (w : World) (t : ℕ)
      → Good h stamp ws w
      → t ≤ w.shared.clock
      → All (λ r. r.version ≤ t) rs
      → (validate_entries env ws rs w).0 ≡ true
      → All (EntryHolds h t) rs
  unfolding validate_entries
  validate_entries_holds [] w t g b c e = tt
  validate_entries_holds (r ∷ rs) w t g b c e =
      let g' = rely.keeps w g in
      let b' : t ≤ (tick env w).shared.clock = omega (arith, rely.forward w g) in
      elim (Bool-cases (entry_valid ws r ((tick env w).shared.lock r.lock))) [
        | inl y ↦
            let (free, v) = entry_valid_free ws r _ (g'.foreign r.lock) y in
            (
              free_holds r (tick env w) t g' b' c.0 free v,
              validate_entries_holds rs (tick env w) t g' b' c.1 (rw y at e),
            )
        | inr n ↦ absurd (false≢true (rw n at e))
      ]

  pub validate_entries-Good :
      (rs : List ReadEntry) (w : World)
      → Good h stamp ws w
      → Good h stamp ws (validate_entries env ws rs w).1
        × (w.shared.clock ≤ (validate_entries env ws rs w).1.shared.clock)
  unfolding validate_entries
  validate_entries-Good [] w g = (g, omega arith)
  validate_entries-Good (r ∷ rs) w g =
      let (g', c) = validate_entries-Good rs (tick env w) (rely.keeps w g) in
      elim (Bool-cases (entry_valid ws r ((tick env w).shared.lock r.lock))) [
        | inl y ↦ rw y (g', omega (arith, rely.forward w g))
        | inr n ↦ rw n (rely.keeps w g, rely.forward w g)
      ]
