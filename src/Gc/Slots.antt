-- ===== src/Gc/Slots.antt =====
-- The slots of threads (tinySTM/src/gc.c): gc_init_thread finds one while nb_active says so.
use tiny_stm_reval.Prelude.{
  ℕ, zero, suc, ◌+◌, ◌≤◌, ◌<◌, ◌≡◌, refl, sym, ap, ◌∙◌, ◌⊎◌, inl, inr, Bool, true, false, none,
  some, arith, leb, ◌==◌, if◌then◌else◌, ==_iff, Bool-cases, Option-cases,
}
use mathlib.Core.Option.{some-injective}
use tiny_stm_reval.Word.{add_word, sub_word}
use tiny_stm_reval.Gc.{
  Used, Slot, Gc, put_slot, is_busy, find_slot, gc_init_thread, gc_exit_thread, no_regions,
  epoch_max, max_gc_threads,
}

-- The busy slots among the `n` from `i` on.
unfoldable pub count_busy : (ℕ → Slot) → ℕ → ℕ → ℕ
count_busy slots zero i = 0
count_busy slots (suc n) i = (if is_busy (slots i).used then 1 else 0) + count_busy slots n (suc i)

-- The first slot that is not busy.
abbrev pub First : (ℕ → Slot) → ℕ → ℕ → ℕ → Type 0
First slots n i k =
    (i ≤ k)
    × (k < i + n)
    × (is_busy (slots k).used ≡ false)
    × ((j : ℕ) → i ≤ j → j < k → is_busy (slots j).used ≡ true)

First-next :
    (slots : ℕ → Slot) (n i k : ℕ)
    → is_busy (slots i).used ≡ true
    → First slots n (suc i) k
    → First slots (suc n) i k
First-next slots n i k b (lo, hi, free, before) =
    (omega (arith, lo), omega (arith, hi), free, λ j l h. at j l h (Bool-cases (i == j)))
  where
    at :
        (j : ℕ)
        → i ≤ j
        → j < k
        → ((i == j) ≡ true) ⊎ ((i == j) ≡ false)
        → is_busy (slots j).used ≡ true
    at j l h (inl e) = sym (ap (λ m. is_busy (slots m).used) ((==_iff i j).0 e)) ∙ b
    at j l h (inr e) = before j (ground (arith, e, l)) h

find_slot_busy :
    (slots : ℕ → Slot) (n i : ℕ)
    → is_busy (slots i).used ≡ true
    → find_slot slots (suc n) i ≡ find_slot slots n (suc i)
unfolding find_slot
find_slot_busy slots n i e = rw e refl

find_slot_here :
    (slots : ℕ → Slot) (n i : ℕ)
    → is_busy (slots i).used ≡ false
    → find_slot slots (suc n) i ≡ some i
unfolding find_slot
find_slot_here slots n i e = rw e refl

find_slot-none :
    (slots : ℕ → Slot) (n i : ℕ) → find_slot slots n i ≡ none → count_busy slots n i ≡ n
unfolding count_busy
find_slot-none slots zero i h = refl
find_slot-none slots (suc n) i h = elim (Bool-cases (is_busy (slots i).used)) [
  | inl e ↦
      let ih = find_slot-none slots n (suc i) (sym (find_slot_busy slots n i e) ∙ h) in
      rw e (omega (arith, ih))
  | inr e ↦ let g = find_slot_here slots n i e in cc
]

pub find_slot-First :
    (slots : ℕ → Slot) (n i k : ℕ) → find_slot slots n i ≡ some k → First slots n i k
unfolding find_slot
find_slot-First slots zero i k h = cc
find_slot-First slots (suc n) i k h = elim (Bool-cases (is_busy (slots i).used)) [
  | inl e ↦
      First-next slots n i k e
        (find_slot-First slots n (suc i) k (sym (find_slot_busy slots n i e) ∙ h))
  | inr e ↦
      let g : i ≡ k = some-injective _ _ (sym (find_slot_here slots n i e) ∙ h) in
      (
        omega (arith, g),
        omega (arith, g),
        ap (λ m. is_busy (slots m).used) (sym g) ∙ e,
        λ j l m. absurd (omega (arith, g, l, m)),
      )
]

-- nb_active counts the busy slots.
abbrev pub Counted : Gc → Type 0
Counted g = g.nb_active ≡ count_busy g.slots max_gc_threads 0

count_unchanged :
    (slots : ℕ → Slot) (n i idx : ℕ) (s : Slot)
    → idx < i
    → count_busy (λ j. if idx == j then s else slots j) n i ≡ count_busy slots n i
unfolding count_busy
count_unchanged slots zero i idx s lt = refl
count_unchanged slots (suc n) i idx s lt =
    let ih = count_unchanged slots n (suc i) idx s (omega (arith, lt)) in
    let away : (idx == i) ≡ false = ground (arith, lt) in rw away (omega (arith, ih))

abbrev weight : Slot → ℕ
weight s = if is_busy s.used then 1 else 0

count_put :
    (slots : ℕ → Slot) (n i idx : ℕ) (s : Slot)
    → i ≤ idx
    → idx < i + n
    → count_busy (λ j. if idx == j then s else slots j) n i + weight (slots idx)
      ≡ count_busy slots n i + weight s
unfolding count_busy
count_put slots zero i idx s lo hi = absurd (omega (arith, lo, hi))
count_put slots (suc n) i idx s lo hi = at (Bool-cases (idx == i)) (count_put slots n (suc i) idx s)
  where
    at :
        ((idx == i) ≡ true) ⊎ ((idx == i) ≡ false)
        → (suc i ≤ idx
            → idx < suc i + n
            → count_busy (λ j. if idx == j then s else slots j) n (suc i) + weight (slots idx)
              ≡ count_busy slots n (suc i) + weight s)
        → count_busy (λ j. if idx == j then s else slots j) (suc n) i + weight (slots idx)
          ≡ count_busy slots (suc n) i + weight s
    at (inl e) ih =
        let here = (==_iff idx i).0 e in
        let rest = count_unchanged slots n (suc i) idx s (omega (arith, here)) in
        let same = ap (λ j. weight (slots j)) here in rw e (omega (arith, rest, same))
    at (inr e) ih = rw e (omega (arith, ih (ground (arith, e, lo)) (omega (arith, hi))))

free_weight :
    (b : Bool) (s : Slot) → s.used ≡ (if b then Used.free_empty else Used.free_full) → weight s ≡ 0
unfolding is_busy
free_weight true s e = rw e refl
free_weight false s e = rw e refl

count_most : (slots : ℕ → Slot) (n i : ℕ) → count_busy slots n i ≤ n
unfolding count_busy
count_most slots zero i = omega arith
count_most slots (suc n) i =
    let ih = count_most slots n (suc i) in
    elim (Bool-cases (is_busy (slots i).used)) [
      | inl e ↦ rw e (omega (arith, ih))
      | inr e ↦ rw e (omega (arith, ih))
    ]

-- The count when a slot's weight changes.
counted_more :
    {a b c x y : ℕ} → a + x ≡ b + y → x ≡ 0 → y ≡ 1 → c ≡ b → b ≤ max_gc_threads → add_word c 1 ≡ a
unfolding add_word
counted_more e x y f most = omega (arith, e, x, y, f, most)

counted_less :
    {a b c x y : ℕ} → a + x ≡ b + y → x ≡ 1 → y ≡ 0 → c ≡ b → b ≤ max_gc_threads → sub_word c 1 ≡ a
unfolding sub_word
counted_less e x y f most = omega (arith, e, x, y, f, most)

too_many : {n : ℕ} → n < max_gc_threads → n ≡ max_gc_threads → ⊥
too_many lt e = omega (arith, lt, e)

-- While nb_active counts the busy slots, a thread that enters finds the first slot that is not busy,
-- within one round of the slots, unless all are busy, when it ends with an error; and nb_active
-- counts the busy slots after gc_init_thread and after gc_exit_thread.
pub init_thread_finds :
    (g : Gc) (now : ℕ)
    → Counted g
    → (g.nb_active < max_gc_threads
        → (idx : ℕ) × (g' : Gc) × (gc_init_thread now g ≡ some (idx, g'))
          × First g.slots max_gc_threads 0 idx
          × Counted g')
      × (max_gc_threads ≤ g.nb_active → gc_init_thread now g ≡ none)
      × ((idx : ℕ)
          → idx < max_gc_threads
          → is_busy (g.slots idx).used ≡ true
          → Counted (gc_exit_thread idx g))
unfolding gc_init_thread gc_exit_thread
init_thread_finds g now c = (
  λ room. enter room (Option-cases (find_slot g.slots max_gc_threads 0)),
  λ full. let e : leb max_gc_threads g.nb_active ≡ true = ground (arith, full) in rw e refl,
  λ idx lt b. leave idx lt b,
)
  where
    enter :
        g.nb_active < max_gc_threads
        → (find_slot g.slots max_gc_threads 0 ≡ none)
          ⊎ ((k : ℕ) × (find_slot g.slots max_gc_threads 0 ≡ some k))
        → (idx : ℕ) × (g' : Gc) × (gc_init_thread now g ≡ some (idx, g'))
          × First g.slots max_gc_threads 0 idx
          × Counted g'
    enter room (inl nowhere) =
        let all : g.nb_active ≡ max_gc_threads =
          c ∙ find_slot-none g.slots max_gc_threads 0 nowhere in
        absurd (too_many room all)
    enter room (inr (idx, found)) =
        let first = find_slot-First g.slots max_gc_threads 0 idx found in
        let s = record (g.slots idx) { used = Used.busy; ts = now } in
        let e : leb max_gc_threads g.nb_active ≡ false = ground (arith, room) in
        let put = count_put g.slots max_gc_threads 0 idx s (omega arith) (omega (arith, first.1)) in
        (
          idx,
          record (put_slot idx s g) { nb_active = add_word g.nb_active 1 },
          rw (gc_init_thread, e, found) refl,
          first,
          (let new : weight s ≡ 1 = unfold is_busy in refl in
              let old : weight (g.slots idx) ≡ 0 = rw first.2 refl in
              counted_more put old new c (count_most g.slots max_gc_threads 0)),
        )

    leave :
        (idx : ℕ)
        → idx < max_gc_threads
        → is_busy (g.slots idx).used ≡ true
        → Counted (gc_exit_thread idx g)
    leave idx lt b =
        let s = record (g.slots idx) {
          ts = epoch_max;
          used = if no_regions (g.slots idx).regions then Used.free_empty else Used.free_full;
        } in
        let put = count_put g.slots max_gc_threads 0 idx s (omega arith) (omega (arith, lt)) in
        let new : weight s ≡ 0 = free_weight (no_regions (g.slots idx).regions) s refl in
        let old : weight (g.slots idx) ≡ 1 = rw b refl in
        counted_less put old new c (count_most g.slots max_gc_threads 0)
