-- ===== src/Gc/Sweep.antt =====
-- gc_cleanup_all of tinySTM/src/gc.c: the loop over the slots that threads have left.
use tiny_stm_reval.Prelude.{
  ℕ, zero, suc, ◌≤◌, ◌≡◌, refl, sym, ap, ◌∙◌, ◌⊎◌, inl, inr, Bool, true, false, arith, ◌==◌,
  if◌then◌else◌, ==_iff, Bool-cases, if_both,
}
use mathlib.Core.Path.{subst}
use tiny_stm_reval.Gc.{
  Used, null, busy, free_empty, free_full, Slot, Gc, put_slot, is_busy, is_null, gc_compute_min,
  clean_old, gc_cleanup_thread, no_regions, clean_taken, clean_slot, clean_all, gc_cleanup_all,
  max_gc_threads, epoch_max,
}
use tiny_stm_reval.Gc.Bound.{Below, gc_compute_min_lem}
use tiny_stm_reval.Gc.Safe.{
  Frees, Frees-none, Frees-then, Frees-map, Sound, Dead, put_same, Sound-put, cleanup_thread-Sound,
  Dead-min, Cleans,
}

-- What is true of both results of clean_slot.
used_both :
    {A : Type 0} (u : Used) (P : A → Type 0) (x y : A)
    → P x
    → (u ≡ Used.free_full → P y)
    → P (elim u [ null ↦ x | busy ↦ x | free_empty ↦ x | free_full ↦ y ])
used_both Used.null P x y px f = px
used_both Used.busy P x y px f = px
used_both Used.free_empty P x y px f = px
used_both Used.free_full P x y px f = f refl

released_not_null : (b : Bool) → is_null (if b then Used.free_empty else Used.free_full) ≡ false
unfolding is_null
released_not_null true = refl
released_not_null false = refl

-- The slots that are busy in the first state stay so, with their timestamps.
abbrev SameBusy : (ℕ → Slot) → (ℕ → Slot) → Type 0
SameBusy slots slots' =
    (k : ℕ)
    → is_busy (slots k).used ≡ true
    → (is_busy (slots' k).used ≡ true) × ((slots' k).ts ≡ (slots k).ts)

Below-same :
    (slots slots' : ℕ → Slot) (min : ℕ) → SameBusy slots slots' → Below slots' min → Below slots min
Below-same slots slots' min same below k lt b =
    let (b', t) = same k b in subst (λ n. min ≤ n) t (below k lt b')

module _ (retired : ℕ → ℕ) (now : ℕ) (g₀ : Gc) where
  -- What holds before and after each round.
  record Going (p : ℕ × Gc) : Type 0 where
    sound : Sound retired p.1.slots
    same : SameBusy g₀.slots p.1.slots
    bound : (p.0 ≡ epoch_max) ⊎ ((p.0 ≤ now) × Below g₀.slots p.0)
    frees : Frees (Dead retired now g₀.slots) g₀.released p.1.released

  taken_same :
      (g : Gc) (i : ℕ)
      → (g.slots i).used ≡ Used.free_full
      → SameBusy g₀.slots g.slots
      → (g' : Gc) → ((k : ℕ) → (i == k) ≡ false → g'.slots k ≡ g.slots k)
      → SameBusy g₀.slots g'.slots
  unfolding is_busy
  taken_same g i full same g' away k b = elim (Bool-cases (i == k)) [
    | inl h ↦
        let busy' = (same k b).0 in
        let full' : is_busy (g.slots k).used ≡ false =
          ap (λ j. is_busy (g.slots j).used) (sym ((==_iff i k).0 h)) ∙ ap is_busy full in
        absurd (clash busy' full')
    | inr h ↦ (
      ap (λ (s : Slot). is_busy s.used) (away k h) ∙ (same k b).0,
      ap (λ (s : Slot). s.ts) (away k h) ∙ (same k b).1,
    )
  ]
    where
      clash : {c : Bool} → c ≡ true → c ≡ false → ⊥
      clash e f = cc

  bounded :
      (g : Gc) (min : ℕ)
      → (min ≡ epoch_max) ⊎ ((min ≤ now) × Below g₀.slots min)
      → Sound retired g.slots
      → SameBusy g₀.slots g.slots
      → let min' = if min == epoch_max then gc_compute_min g.slots now else min in
        (min' ≤ now) × Below g₀.slots min'
  bounded g min bound sound same =
      let (le, below, reached) = gc_compute_min_lem g.slots now sound.packed in
      elim (Bool-cases (min == epoch_max)) [
        | inl unset ↦
            rw unset (le, Below-same g₀.slots g.slots (gc_compute_min g.slots now) same below)
        | inr set ↦ rw set (kept set bound)
      ]
    where
      kept :
          (min == epoch_max) ≡ false
          → (min ≡ epoch_max) ⊎ ((min ≤ now) × Below g₀.slots min)
          → (min ≤ now) × Below g₀.slots min
      kept set (inl e) = absurd (ground (arith, set, e))
      kept set (inr b) = b

  -- A slot that gc_cleanup_all takes.
  taken-Going :
      (i min : ℕ) (g : Gc)
      → (g.slots i).used ≡ Used.free_full
      → Going (min, g)
      → let taken = put_slot i (record (g.slots i) { used = Used.busy }) g in
        let min' = if min == epoch_max then gc_compute_min taken.slots now else min in
        Going (min', clean_taken i min' taken)
  unfolding is_null clean_taken gc_cleanup_thread
  taken-Going i min g full going =
      let taken = put_slot i (record (g.slots i) { used = Used.busy }) g in
      let min' = if min == epoch_max then gc_compute_min taken.slots now else min in
      let sound₁ =
        Sound-put retired g.slots i (record (g.slots i) { used = Used.busy })
          (sym (ap is_null full)) (going.sound.dated i) going.sound in
      let same₁ = taken_same g i full going.same taken (λ k h. rw h refl) in
      let (le, below) = bounded taken min going.bound sound₁ same₁ in
      let (sound₂, freed) = cleanup_thread-Sound retired i min' taken sound₁ in
      let g' = gc_cleanup_thread i min' taken in
      let left = record (taken.slots i) {
        regions = (clean_old min' (taken.slots i).regions g.released).0;
      } in
      let not_null : is_null (g'.slots i).used ≡ false =
        put_same retired (λ s. is_null s.used) taken.slots i left refl i
        ∙ put_same retired (λ s. is_null s.used) g.slots i (record (g.slots i) { used = Used.busy })
            (sym (ap is_null full)) i
        ∙ ap is_null full in
      let s = record (g'.slots i) {
        used = if no_regions (g'.slots i).regions then Used.free_empty else Used.free_full;
      } in
      record {
        sound =
            Sound-put retired g'.slots i s
              (released_not_null (no_regions (g'.slots i).regions) ∙ sym not_null) (sound₂.dated i)
              sound₂;
        same = taken_same g i full going.same (clean_taken i min' taken) (λ k h. rw h refl);
        bound = inr (le, below);
        frees =
            Frees-then (Dead retired now g₀.slots) g₀.released g.released g'.released going.frees (
              Frees-map g.released g'.released (Dead-min retired now min' g₀.slots le below) freed);
      }

  clean_slot-Going : (i : ℕ) (p : ℕ × Gc) → Going p → Going (clean_slot now i p)
  unfolding clean_slot
  clean_slot-Going i (min, g) going =
      let taken = put_slot i (record (g.slots i) { used = Used.busy }) g in
      let min' = if min == epoch_max then gc_compute_min taken.slots now else min in
      used_both (g.slots i).used Going (min, g) (min', clean_taken i min' taken) going
        (λ full. taken-Going i min g full going)

  clean_all-Going : (n i : ℕ) (p : ℕ × Gc) → Going p → Going (clean_all now n i p)
  unfolding clean_all
  clean_all-Going zero i (min, g) going = going
  clean_all-Going (suc n) i (min, g) going =
      if_both (is_null (g.slots i).used) Going going
        (clean_all-Going n (suc i) (clean_slot now i (min, g)) (clean_slot-Going i (min, g) going))

-- gc_cleanup_all frees only what no busy slot needs.
pub cleanup_all-Cleans :
    (retired : ℕ → ℕ) (now : ℕ) (g : Gc)
    → Sound retired g.slots
    → Cleans retired now g (gc_cleanup_all now g)
unfolding gc_cleanup_all
cleanup_all-Cleans retired now g sound =
    let going =
      clean_all-Going retired now g max_gc_threads 0 (epoch_max, g)
        (record {
          sound = sound;
          same = λ k b. (b, refl);
          bound = inl refl;
          frees = Frees-none (Dead retired now g.slots) g.released;
        }) in
    (going.sound, going.frees)
