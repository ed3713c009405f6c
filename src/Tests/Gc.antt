-- ===== src/Tests/Gc.antt =====
-- One thread that frees a block, and the collector that frees it once the thread has moved on.
use tiny_stm_reval.Prelude.{
  ℕ, zero, suc, ◌≤◌, ◌<◌, ◌≡◌, refl, sym, ◌≢◌, true, none, some, [], ◌∷◌, ◌++◌, arith,
}
use tiny_stm_reval.Word.{add_word}
use tiny_stm_reval.Gc.{
  Slot, epoch_max, gc_exit, gc_reset, Used, Gc, put_slot, is_busy, is_null, gc_compute_min,
  find_slot, gc_init, gc_init_thread, gc_exit_thread, gc_set_epoch, gc_cleanup, gc_free,
  max_gc_threads, lower_min, compute_min, clean_old, gc_cleanup_thread, add_block, no_regions,
}
use tiny_stm_reval.Gc.Bound.{Packed}
use tiny_stm_reval.Gc.Drain.{Unused, pending, exit_frees_all}
use tiny_stm_reval.Gc.Slots.{First, Counted, count_busy, init_thread_finds}
use tiny_stm_reval.Gc.Safe.{Frees, Dead}
use tiny_stm_reval.Gc.History.{
  enters, frees, sets, cleans, step, Reaches, at_start, one_more, Frees-Dead,
}

-- A thread has slot 0, from epoch 5 on.
abbrev entered : Gc
entered = record (put_slot 0 (record (gc_init.slots 0) { used = Used.busy; ts = 5 }) gc_init) {
  nb_active = 1;
}

-- It frees address 400 in epoch 6, and moves on to epoch 8.
abbrev freed : Gc
freed = gc_free 0 400 6 7 entered

abbrev moved : Gc
moved = gc_set_epoch 0 8 freed

enters_run : step (enters 5) gc_init ≡ some entered
unfolding step gc_init add_word gc_init_thread find_slot is_busy
enters_run = refl

abbrev retired : ℕ → ℕ
retired a = 6

moved-Reaches : Reaches retired moved
unfolding step
moved-Reaches =
    one_more (sets 0 8) freed moved
      (one_more (frees 0 400 6 7) entered freed
        (one_more (enters 5) gc_init entered at_start tt enters_run) (omega arith) refl)
      tt refl

Frees-Dead_example :
    Frees (Dead retired 9 moved.slots) moved.released (gc_cleanup 0 9 moved).released
unfolding step
Frees-Dead_example =
    Frees-Dead retired (cleans 0 9) moved (gc_cleanup 0 9 moved) moved-Reaches tt refl

-- The block is kept while the thread may see it, and freed then.
freed_run : (freed.released ≡ []) × ((gc_cleanup 0 9 moved).released ≡ 400 ∷ [])
unfolding gc_init gc_free gc_cleanup gc_set_epoch gc_compute_min compute_min lower_min is_busy
    is_null clean_old gc_cleanup_thread add_block no_regions
freed_run = (refl, refl)

init-Packed : Packed gc_init.slots
unfolding gc_init is_null
init-Packed j k le n = refl

none_busy : (n i : ℕ) → count_busy gc_init.slots n i ≡ 0
unfolding count_busy gc_init is_busy
none_busy zero i = refl
none_busy (suc n) i = omega (arith, none_busy n (suc i))

init_thread_finds_example :
    (gc_init.nb_active < max_gc_threads
      → (idx : ℕ) × (g' : Gc) × (gc_init_thread 5 gc_init ≡ some (idx, g'))
        × First gc_init.slots max_gc_threads 0 idx
        × Counted g')
    × (max_gc_threads ≤ gc_init.nb_active → gc_init_thread 5 gc_init ≡ none)
    × ((idx : ℕ)
        → idx < max_gc_threads
        → is_busy (gc_init.slots idx).used ≡ true
        → Counted (gc_exit_thread idx gc_init))
unfolding gc_init
init_thread_finds_example = init_thread_finds gc_init 5 (sym (none_busy max_gc_threads 0))

-- A thread has left slot 0 with a block that waits to be freed.
abbrev left_slots : ℕ → Slot
left_slots zero = record {
  used = Used.free_full;
  ts = epoch_max;
  regions = record { blocks = 400 ∷ []; ts = 6 } ∷ [];
  frees = 1;
}
left_slots (suc k) = record { used = Used.null; ts = epoch_max; regions = []; frees = 0 }

abbrev left : Gc
left = record { slots = left_slots; nb_active = 0; released = [] }

left-Packed : Packed left.slots
unfolding is_null
left-Packed zero k le e = cc
left-Packed (suc j) zero le e = absurd (omega (arith, le))
left-Packed (suc j) (suc k) le e = refl

left-Unused : Unused left.slots
unfolding is_null
left-Unused zero e = cc
left-Unused (suc k) e = refl

exit_frees_all_example :
    (left.nb_active ≡ 0
      → gc_exit left ≡ some (left.released ++ pending left.slots max_gc_threads 0))
    × (left.nb_active ≢ 0 → gc_exit left ≡ none)
    × ((gc_reset left).released ≡ left.released ++ pending left.slots max_gc_threads 0)
exit_frees_all_example = exit_frees_all left left-Packed left-Unused
