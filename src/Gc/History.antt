-- ===== src/Gc/History.antt =====
-- Threads that come and go, and what is freed while they do (tinySTM/src/gc.c).
use tiny_stm_reval.Prelude.{
  ℕ, ◌≤◌, ◌<◌, ◌≡◌, refl, sym, ap, ◌∙◌, ◌⊎◌, inl, inr, Bool, true, false, Option, none, some, arith,
  leb, ◌==◌, if◌then◌else◌, Bool-cases, Option-cases, if_both,
}
use mathlib.Core.Path.{subst}
use tiny_stm_reval.Word.{add_word}
use tiny_stm_reval.Gc.{
  Used, Slot, Gc, put_slot, is_busy, is_null, no_regions, find_slot, gc_init, gc_init_thread,
  gc_exit_thread, gc_set_epoch, gc_cleanup, gc_free, gc_cleanup_all, max_gc_threads, epoch_max,
}
use tiny_stm_reval.Gc.Bound.{Packed, busy_not_null}
use tiny_stm_reval.Gc.Slots.{find_slot-First}
use tiny_stm_reval.Gc.Safe.{
  Frees, Frees-none, Sound, Dead, Sound-put, Cleans, Dated, cleanup-Cleans, free-Cleans,
}
use tiny_stm_reval.Gc.Sweep.{cleanup_all-Cleans}

-- The calls of the threads, with the index of the caller's slot, and the value of the epoch.
pub data Action : Type 0 where
  enters : (now : ℕ) → Action
  leaves : (idx : ℕ) → Action
  sets : (idx epoch : ℕ) → Action
  frees : (idx addr epoch now : ℕ) → Action
  cleans : (idx now : ℕ) → Action
  cleans_all : (now : ℕ) → Action

abbrev entered : Option (ℕ × Gc) → Option Gc
entered none = none
entered (some (idx, g)) = some g

unfoldable pub step : Action → Gc → Option Gc
step (enters now) g = entered (gc_init_thread now g)
step (leaves idx) g = some (gc_exit_thread idx g)
step (sets idx epoch) g = some (gc_set_epoch idx epoch g)
step (frees idx addr epoch now) g = some (gc_free idx addr epoch now g)
step (cleans idx now) g = some (gc_cleanup idx now g)
step (cleans_all now) g = some (gc_cleanup_all now g)

-- The value of the epoch that an action reads.
abbrev pub epoch_read : Action → ℕ
epoch_read (enters now) = now
epoch_read (leaves idx) = 0
epoch_read (sets idx epoch) = 0
epoch_read (frees idx addr epoch now) = now
epoch_read (cleans idx now) = now
epoch_read (cleans_all now) = now

-- A thread leaves that has a slot, and an address is given to gc_free with an epoch that is not
-- before the time at which it was retired.
abbrev pub Allowed : (ℕ → ℕ) → Action → Gc → Type 0
Allowed retired (enters now) g = Unit
Allowed retired (leaves idx) g = is_busy (g.slots idx).used ≡ true
Allowed retired (sets idx epoch) g = Unit
Allowed retired (frees idx addr epoch now) g = retired addr ≤ epoch
Allowed retired (cleans idx now) g = Unit
Allowed retired (cleans_all now) g = Unit

-- The states that threads reach from gc_init.
pub data Reaches (retired : ℕ → ℕ) : Gc → Type 0 where
  at_start : Reaches retired gc_init
  one_more :
      (a : Action) (g g' : Gc)
      → Reaches retired g
      → Allowed retired a g
      → step a g ≡ some g'
      → Reaches retired g'

-- What holds behind an action of the collector.
abbrev After : (ℕ → ℕ) → ℕ → Gc → Option Gc → Type 0
After retired now g none = Unit
After retired now g (some g') = Cleans retired now g g'

init-Sound : (retired : ℕ → ℕ) → Sound retired gc_init.slots
unfolding gc_init is_null
init-Sound retired = record { packed = λ j k le n. refl; dated = λ i. tt }

clash : {c : Bool} → c ≡ true → c ≡ false → ⊥
clash e f = cc

released_not_null : (b : Bool) → is_null (if b then Used.free_empty else Used.free_full) ≡ false
unfolding is_null
released_not_null true = refl
released_not_null false = refl

module _ (retired : ℕ → ℕ) where
  Sound-enter :
      (g : Gc) (idx now : ℕ)
      → find_slot g.slots max_gc_threads 0 ≡ some idx
      → Sound retired g.slots
      → Sound retired (put_slot idx (record (g.slots idx) { used = Used.busy; ts = now }) g).slots
  unfolding is_null is_busy
  Sound-enter g idx now found sound =
      let (lo, hi, free, before) = find_slot-First g.slots max_gc_threads 0 idx found in
      let s = record (g.slots idx) { used = Used.busy; ts = now } in
      record {
        packed = λ j k le n.
            packed before s refl sound.packed j k le (Bool-cases (idx == j)) (Bool-cases (idx == k))
              n;
        dated = λ j.
            if_both (idx == j) (λ (s : Slot). Dated retired s.regions) (sound.dated idx)
              (sound.dated j);
      }
    where
      packed :
          ((j : ℕ) → 0 ≤ j → j < idx → is_busy (g.slots j).used ≡ true)
          → (s : Slot) → is_null s.used ≡ false
          → Packed g.slots
          → (j k : ℕ) → j ≤ k
          → ((idx == j) ≡ true) ⊎ ((idx == j) ≡ false)
          → ((idx == k) ≡ true) ⊎ ((idx == k) ≡ false)
          → is_null (if idx == j then s else g.slots j).used ≡ true
          → is_null (if idx == k then s else g.slots k).used ≡ true
      packed before s new p j k le (inl h) c n =
          let n' : is_null s.used ≡ true =
            sym (ap (λ b. is_null (if b then s else g.slots j).used) h) ∙ n in
          absurd (clash n' new)
      packed before s new p j k le (inr h) (inl h') n =
          let n' : is_null (g.slots j).used ≡ true =
            sym (ap (λ b. is_null (if b then s else g.slots j).used) h) ∙ n in
          let b = before j (omega arith) (ground (arith, h, h', le)) in
          absurd (clash n' (busy_not_null (g.slots j).used b))
      packed before s new p j k le (inr h) (inr h') n =
          let n' : is_null (g.slots j).used ≡ true =
            sym (ap (λ b. is_null (if b then s else g.slots j).used) h) ∙ n in
          ap (λ b. is_null (if b then s else g.slots k).used) h' ∙ p j k le n'

  init_thread_ends :
      (now : ℕ) (g : Gc)
      → (gc_init_thread now g ≡ none)
        ⊎ ((idx : ℕ) × (find_slot g.slots max_gc_threads 0 ≡ some idx)
            × (gc_init_thread now g
                ≡ some (
                  idx,
                  record (put_slot idx (record (g.slots idx) { used = Used.busy; ts = now }) g) {
                    nb_active = add_word g.nb_active 1;
                  },
                )))
  unfolding gc_init_thread
  init_thread_ends now g = elim (Bool-cases (leb max_gc_threads g.nb_active)) [
    | inl full ↦ inl (rw full refl)
    | inr room ↦ elim (Option-cases (find_slot g.slots max_gc_threads 0)) [
      | inl nowhere ↦ inl (rw (room, nowhere) refl)
      | inr (idx, at) ↦ inr (idx, at, rw (room, at) refl)
    ]
  ]

  enter-After :
      (now : ℕ) (g : Gc) → Sound retired g.slots → After retired now g (step (enters now) g)
  unfolding step
  enter-After now g sound = elim (init_thread_ends now g) [
    | inl e ↦ subst (λ o. After retired now g (entered o)) (sym e) tt
    | inr (idx, at, e) ↦
        subst (λ o. After retired now g (entered o)) (sym e)
          (Sound-enter g idx now at sound, Frees-none (Dead retired now g.slots) g.released)
  ]

  leave-Cleans :
      (idx : ℕ) (g : Gc)
      → is_busy (g.slots idx).used ≡ true
      → Sound retired g.slots
      → Cleans retired 0 g (gc_exit_thread idx g)
  unfolding gc_exit_thread
  leave-Cleans idx g b sound =
      let s = record (g.slots idx) {
        ts = epoch_max;
        used = if no_regions (g.slots idx).regions then Used.free_empty else Used.free_full;
      } in
      (
        Sound-put retired g.slots idx s
            (released_not_null (no_regions (g.slots idx).regions)
              ∙ sym (busy_not_null (g.slots idx).used b))
            (sound.dated idx) sound,
        Frees-none (Dead retired 0 g.slots) g.released,
      )

  set-Cleans :
      (idx epoch : ℕ) (g : Gc)
      → Sound retired g.slots
      → Cleans retired 0 g (gc_set_epoch idx epoch g)
  unfolding gc_set_epoch
  set-Cleans idx epoch g sound =
      if_both (leb epoch_max epoch) (Cleans retired 0 g)
        (sound, Frees-none (Dead retired 0 g.slots) g.released)
        (
          Sound-put retired g.slots idx (record (g.slots idx) { ts = epoch }) refl (sound.dated idx)
              sound,
          Frees-none (Dead retired 0 g.slots) g.released,
        )

  step-After :
      (a : Action) (g : Gc)
      → Allowed retired a g
      → Sound retired g.slots
      → After retired (epoch_read a) g (step a g)
  unfolding step
  step-After (enters now) g ok sound = enter-After now g sound
  step-After (leaves idx) g ok sound = leave-Cleans idx g ok sound
  step-After (sets idx epoch) g ok sound = set-Cleans idx epoch g sound
  step-After (frees idx addr epoch now) g ok sound =
      free-Cleans retired idx addr epoch now g ok sound
  step-After (cleans idx now) g ok sound = cleanup-Cleans retired idx now g sound
  step-After (cleans_all now) g ok sound = cleanup_all-Cleans retired now g sound

  Reaches-Sound : (g : Gc) → Reaches retired g → Sound retired g.slots
  Reaches-Sound _ at_start = init-Sound retired
  Reaches-Sound _ (one_more a g g' r ok ran) =
      (subst (After retired (epoch_read a) g) ran (step-After a g ok (Reaches-Sound g r))).0

-- Whatever threads come and go, and whatever they free, each address that an action of a reachable
-- state frees was retired before the epoch that the action reads, and before the timestamp of every
-- thread that is registered. An address
-- is given to gc_free with an epoch not before the time at which it was retired, a thread that
-- leaves has a slot, and each action runs without others in between.
pub Frees-Dead :
    (retired : ℕ → ℕ) (a : Action) (g g' : Gc)
    → Reaches retired g
    → Allowed retired a g
    → step a g ≡ some g'
    → Frees (Dead retired (epoch_read a) g.slots) g.released g'.released
Frees-Dead retired a g g' r ok ran =
    (subst (After retired (epoch_read a) g) ran
      (step-After retired a g ok (Reaches-Sound retired g r))).1
