-- ===== src/Gc/Drain.antt =====
-- gc_exit and gc_reset of tinySTM/src/gc.c free all that is left.
use tiny_stm_reval.Prelude.{
  ℕ, zero, suc, ◌≤◌, ◌<◌, ◌≡◌, refl, sym, ap, ◌∙◌, ◌≢◌, inl, inr, true, false, none, some, List, [],
  ◌∷◌, ◌++◌, arith, ◌==◌, if◌then◌else◌, ==_iff, Bool-cases, if_both,
}
use mathlib.Core.List.{append-nil, append_assoc}
use tiny_stm_reval.Gc.{
  Region, Slot, Gc, put_slot, is_null, gc_clean_regions, clean_slots, gc_exit, reset_slots,
  gc_reset, max_gc_threads, epoch_max,
}
use tiny_stm_reval.Gc.Bound.{Packed}
use tiny_stm_reval.Gc.Safe.{put_same}

-- The addresses in regions, and in the `n` slots from `i` on.
abbrev pub blocks_of : List Region → List ℕ
blocks_of [] = []
blocks_of (r ∷ rs) = r.blocks ++ blocks_of rs

unfoldable pub pending : (ℕ → Slot) → ℕ → ℕ → List ℕ
pending slots zero i = []
pending slots (suc n) i = blocks_of (slots i).regions ++ pending slots n (suc i)

clean_regions_all :
    (rs : List Region) (freed : List ℕ) → gc_clean_regions rs freed ≡ freed ++ blocks_of rs
unfolding gc_clean_regions
clean_regions_all [] freed = sym (append-nil freed)
clean_regions_all (r ∷ rs) freed =
    clean_regions_all rs (freed ++ r.blocks) ∙ append_assoc freed r.blocks (blocks_of rs)

clean_slots_all :
    (slots : ℕ → Slot) (n i : ℕ) (freed : List ℕ)
    → clean_slots slots n i freed ≡ freed ++ pending slots n i
unfolding clean_slots pending
clean_slots_all slots zero i freed = sym (append-nil freed)
clean_slots_all slots (suc n) i freed =
    ap (clean_slots slots n (suc i)) (clean_regions_all (slots i).regions freed)
    ∙ clean_slots_all slots n (suc i) (freed ++ blocks_of (slots i).regions)
    ∙ append_assoc freed (blocks_of (slots i).regions) (pending slots n (suc i))

pending_put :
    (slots : ℕ → Slot) (n i idx : ℕ) (s : Slot)
    → idx < i
    → pending (λ j. if idx == j then s else slots j) n i ≡ pending slots n i
unfolding pending
pending_put slots zero i idx s lt = refl
pending_put slots (suc n) i idx s lt =
    let ih = pending_put slots n (suc i) idx s (omega (arith, lt)) in
    let away : (idx == i) ≡ false = ground (arith, lt) in rw (away, ih) refl

-- A slot that was never used has no regions.
abbrev pub Unused : (ℕ → Slot) → Type 0
Unused slots = (k : ℕ) → is_null (slots k).used ≡ true → (slots k).regions ≡ []

pending_unused :
    (slots : ℕ → Slot) (n i : ℕ)
    → ((k : ℕ) → i ≤ k → (slots k).regions ≡ [])
    → pending slots n i ≡ []
unfolding pending
pending_unused slots zero i h = refl
pending_unused slots (suc n) i h =
    ap (λ rs. blocks_of rs ++ pending slots n (suc i)) (h i (omega arith))
    ∙ pending_unused slots n (suc i) (λ k lt. h k (omega (arith, lt)))

-- The slot that the loop leaves, and the collector with it.
abbrev emptied : Slot → Slot
emptied s = record s { ts = epoch_max; regions = []; frees = 0 }

abbrev empty_slot : ℕ → Gc → Gc
empty_slot i g = record (put_slot i (emptied (g.slots i)) g) {
  released = gc_clean_regions (g.slots i).regions g.released;
}

reset_null : (n i : ℕ) (g : Gc) → is_null (g.slots i).used ≡ true → reset_slots (suc n) i g ≡ g
unfolding reset_slots
reset_null n i g e = rw (reset_slots, e) refl

reset_used :
    (n i : ℕ) (g : Gc)
    → is_null (g.slots i).used ≡ false
    → reset_slots (suc n) i g ≡ reset_slots n (suc i) (empty_slot i g)
unfolding reset_slots
reset_used n i g e = rw (reset_slots, e) refl

Packed-empty_slot : (i : ℕ) (g : Gc) → Packed g.slots → Packed (empty_slot i g).slots
Packed-empty_slot i g p j k le e = same k ∙ p j k le (sym (same j) ∙ e)
  where
    same : (k : ℕ) → is_null ((empty_slot i g).slots k).used ≡ is_null (g.slots k).used
    same = put_same (λ a. 0) (λ (s : Slot). is_null s.used) g.slots i (emptied (g.slots i)) refl

Unused-empty_slot : (i : ℕ) (g : Gc) → Unused g.slots → Unused (empty_slot i g).slots
Unused-empty_slot i g u k =
    if_both (i == k) (λ (s : Slot). is_null s.used ≡ true → s.regions ≡ []) (λ e. refl) (u k)

reset_slots_all :
    (n i : ℕ) (g : Gc)
    → Packed g.slots
    → Unused g.slots
    → (reset_slots n i g).released ≡ g.released ++ pending g.slots n i
unfolding reset_slots pending
reset_slots_all zero i g p u = sym (append-nil g.released)
reset_slots_all (suc n) i g p u = elim (Bool-cases (is_null (g.slots i).used)) [
  | inl e ↦
      ap (λ (h : Gc). h.released) (reset_null n i g e)
      ∙ sym (append-nil g.released)
      ∙ ap (λ l. g.released ++ l)
          (sym (pending_unused g.slots (suc n) i (λ k le. u k (p i k le e))))
  | inr e ↦
      let rs = (g.slots i).regions in
      ap (λ (h : Gc). h.released) (reset_used n i g e)
      ∙ reset_slots_all n (suc i) (empty_slot i g) (Packed-empty_slot i g p)
          (Unused-empty_slot i g u)
      ∙ ap (λ l. gc_clean_regions rs g.released ++ l)
          (pending_put g.slots n (suc i) i (emptied (g.slots i)) (omega arith))
      ∙ ap (λ l. l ++ pending g.slots n (suc i)) (clean_regions_all rs g.released)
      ∙ append_assoc g.released (blocks_of rs) (pending g.slots n (suc i))
]

-- gc_exit and gc_reset free every block of the slots once, in the order of the slots and their
-- regions; gc_exit does so when no thread is registered, and is an error when one is. No slot behind
-- one that was never used is in use, and such a slot has no regions.
pub exit_frees_all :
    (g : Gc)
    → Packed g.slots
    → Unused g.slots
    → (g.nb_active ≡ 0 → gc_exit g ≡ some (g.released ++ pending g.slots max_gc_threads 0))
      × (g.nb_active ≢ 0 → gc_exit g ≡ none)
      × ((gc_reset g).released ≡ g.released ++ pending g.slots max_gc_threads 0)
unfolding gc_exit gc_reset
exit_frees_all g p u = (
  λ z.
      let e : (g.nb_active == 0) ≡ true = (==_iff g.nb_active 0).1 z in
      rw e (ap some (clean_slots_all g.slots max_gc_threads 0 g.released)),
  λ z. let e : (g.nb_active == 0) ≡ false = ground (arith, z) in rw e refl,
  reset_slots_all max_gc_threads 0 g p u,
)
