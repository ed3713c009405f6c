-- ===== src/Gc.antt =====
-- The epoch-based garbage collector, tinySTM/src/gc.c. A list of regions is its head and tail; the
-- blocks that hold the lists are not addresses here. Each function runs without other threads in
-- between; the value of the epoch that it reads is the argument `now`.
pub mod Bound
pub mod Slots
pub mod Safe
pub mod Sweep
pub mod History
pub mod Drain
use tiny_stm_reval.Prelude.{
  [], ℕ, zero, suc, ◌+◌, ◌-◌, ◌%◌, ◌^◌, Bool, true, false, ◌&&◌, Option, none, some, List, ◌∷◌,
  ◌++◌, ltb, leb, ◌==◌, if◌then◌else◌,
}
use tiny_stm_reval.Word.{add_word, sub_word}

abbrev pub max_gc_threads : ℕ
max_gc_threads = 1024

-- EPOCH_MAX, of 64 bits.
abbrev pub epoch_max : ℕ
epoch_max = 2 ^ 64 - 1

abbrev pub cleanup_frequency : ℕ
cleanup_frequency = 1

-- GC_NULL to GC_FREE_FULL
pub data Used : Type 0 where
  null busy free_empty free_full : Used

-- `gc_region_t`: the addresses of its blocks, and its timestamp.
pub record Region : Type 0 where
  pub blocks : List ℕ
  pub ts : ℕ

-- `gc_thread_t`
pub record Slot : Type 0 where
  pub used : Used
  pub ts : ℕ
  pub regions : List Region
  pub frees : ℕ

-- `gc_threads`, with the memory that was given to free so far.
pub record Gc : Type 0 where
  pub slots : ℕ → Slot
  pub nb_active : ℕ
  pub released : List ℕ

abbrev pub put_slot : ℕ → Slot → Gc → Gc
put_slot i s g = record g { slots = λ j. if i == j then s else g.slots j }

unfoldable pub is_busy : Used → Bool
is_busy Used.busy = true
is_busy _ = false

unfoldable pub is_null : Used → Bool
is_null Used.null = true
is_null _ = false

-- What a slot does to the bound.
unfoldable pub lower_min : Slot → ℕ → ℕ
lower_min s min = if is_busy s.used && ltb s.ts min then s.ts else min

-- The loop of gc_compute_min, `n` slots from `i` on.
unfoldable pub compute_min : (slots : ℕ → Slot) → ℕ → ℕ → ℕ → ℕ
compute_min slots zero i min = min
compute_min slots (suc n) i min =
    let rest = compute_min slots n (suc i) (lower_min (slots i) min) in
    if is_null (slots i).used then min else rest

unfoldable pub gc_compute_min : (slots : ℕ → Slot) → ℕ → ℕ
gc_compute_min slots now = compute_min slots max_gc_threads 0 now

-- gc_clean_regions, which calls gc_clean_blocks: the memory that is freed.
unfoldable pub gc_clean_regions : List Region → List ℕ → List ℕ
gc_clean_regions [] released = released
gc_clean_regions (r ∷ rs) released = gc_clean_regions rs (released ++ r.blocks)

-- The loop of gc_cleanup_thread: the regions that are left, and the memory freed.
unfoldable pub clean_old : ℕ → List Region → List ℕ → List Region × List ℕ
clean_old min [] released = ([], released)
clean_old min (r ∷ rs) released =
    let rest = clean_old min rs (released ++ r.blocks) in
    if ltb r.ts min then rest else (r ∷ rs, released)

unfoldable pub gc_cleanup_thread : ℕ → ℕ → Gc → Gc
gc_cleanup_thread idx min g =
    let s = g.slots idx in
    let (left, released) = clean_old min s.regions g.released in
    record (put_slot idx (record s { regions = left }) g) { released = released }

unfoldable pub no_regions : List Region → Bool
no_regions [] = true
no_regions (r ∷ rs) = false

-- gc_init
unfoldable pub gc_init : Gc
gc_init = record {
  slots = λ i. record { used = Used.null; ts = epoch_max; regions = []; frees = 0 };
  nb_active = 0;
  released = [];
}

-- The loop of gc_exit, which frees the regions of all slots.
unfoldable pub clean_slots : (slots : ℕ → Slot) → ℕ → ℕ → List ℕ → List ℕ
clean_slots slots zero i released = released
clean_slots slots (suc n) i released =
    clean_slots slots n (suc i) (gc_clean_regions (slots i).regions released)

-- gc_exit: the memory that was freed, or `none` when threads are left.
unfoldable pub gc_exit : Gc → Option (List ℕ)
gc_exit g =
    if g.nb_active == 0 then some (clean_slots g.slots max_gc_threads 0 g.released) else none

-- The search of gc_init_thread; its loop starts over at the end of the slots, so that a thread that
-- finds none without others in between never does.
unfoldable pub find_slot : (slots : ℕ → Slot) → ℕ → ℕ → Option ℕ
find_slot slots zero i = none
find_slot slots (suc n) i =
    let rest = find_slot slots n (suc i) in if is_busy (slots i).used then rest else some i

-- gc_init_thread: the index of the thread's slot; `none` is exit(1), or a search without end.
unfoldable pub gc_init_thread : ℕ → Gc → Option (ℕ × Gc)
gc_init_thread now g =
    if leb max_gc_threads g.nb_active then none else elim (find_slot g.slots max_gc_threads 0) [
      | none ↦ none
      | some idx ↦ some (
        idx,
        record (put_slot idx (record (g.slots idx) { used = Used.busy; ts = now }) g) {
          nb_active = add_word g.nb_active 1;
        },
      )
    ]

-- gc_exit_thread
unfoldable pub gc_exit_thread : ℕ → Gc → Gc
gc_exit_thread idx g =
    let s = g.slots idx in
    record (put_slot idx
      (record s {
        ts = epoch_max;
        used = if no_regions s.regions then Used.free_empty else Used.free_full;
      })
      g) { nb_active = sub_word g.nb_active 1 }

-- gc_set_epoch
unfoldable pub gc_set_epoch : ℕ → ℕ → Gc → Gc
gc_set_epoch idx epoch g =
    if leb epoch_max epoch then g else put_slot idx (record (g.slots idx) { ts = epoch }) g

-- Where gc_free puts a block: at the front of the first region, or in a new region at the end.
unfoldable pub add_block : ℕ → ℕ → List Region → List Region
add_block addr epoch [] = record { blocks = addr ∷ []; ts = epoch } ∷ []
add_block addr epoch (r ∷ rs) =
    if ltb r.ts epoch
    then (r ∷ rs) ++ (record { blocks = addr ∷ []; ts = epoch } ∷ [])
    else record r { blocks = addr ∷ r.blocks } ∷ rs

-- gc_cleanup
unfoldable pub gc_cleanup : ℕ → ℕ → Gc → Gc
gc_cleanup idx now g =
    if no_regions (g.slots idx).regions
    then g
    else gc_cleanup_thread idx (gc_compute_min g.slots now) g

-- gc_free, when no allocation fails.
unfoldable pub gc_free : ℕ → ℕ → ℕ → ℕ → Gc → Gc
gc_free idx addr epoch now g =
    let s = g.slots idx in
    let frees = (s.frees + 1) % 2 ^ 32 in
    let g' =
      put_slot idx (record s { regions = add_block addr epoch s.regions; frees = frees }) g in
    if frees % cleanup_frequency == 0 then gc_cleanup idx now g' else g'

-- What gc_cleanup_all does with a slot that it has taken.
unfoldable pub clean_taken : ℕ → ℕ → Gc → Gc
clean_taken i min g =
    let g' = gc_cleanup_thread i min g in
    let s = g'.slots i in
    put_slot i
      (record s { used = if no_regions s.regions then Used.free_empty else Used.free_full }) g'

-- What gc_cleanup_all does with a slot in use, with the bound; EPOCH_MAX if there is none yet.
unfoldable pub clean_slot : ℕ → ℕ → ℕ × Gc → ℕ × Gc
clean_slot now i (min, g) =
    let taken = put_slot i (record (g.slots i) { used = Used.busy }) g in
    let min' = if min == epoch_max then gc_compute_min taken.slots now else min in
    elim (g.slots i).used [
      | null ↦ (min, g)
      | busy ↦ (min, g)
      | free_empty ↦ (min, g)
      | free_full ↦ (min', clean_taken i min' taken)
    ]

-- The loop of gc_cleanup_all, `n` slots from `i` on.
unfoldable pub clean_all : ℕ → ℕ → ℕ → ℕ × Gc → ℕ × Gc
clean_all now zero i (min, g) = (min, g)
clean_all now (suc n) i (min, g) =
    let rest = clean_all now n (suc i) (clean_slot now i (min, g)) in
    if is_null (g.slots i).used then (min, g) else rest

unfoldable pub gc_cleanup_all : ℕ → Gc → Gc
gc_cleanup_all now g = (clean_all now max_gc_threads 0 (epoch_max, g)).1

-- The loop of gc_reset.
unfoldable pub reset_slots : ℕ → ℕ → Gc → Gc
reset_slots zero i g = g
reset_slots (suc n) i g =
    let s = g.slots i in
    let empty = record s { ts = epoch_max; regions = []; frees = 0 } in
    let rest =
      reset_slots n (suc i)
        (record (put_slot i empty g) { released = gc_clean_regions s.regions g.released }) in
    if is_null s.used then g else rest

unfoldable pub gc_reset : Gc → Gc
gc_reset g = reset_slots max_gc_threads 0 g
