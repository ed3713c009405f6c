-- ===== src/Gc/Safe.antt =====
-- What the garbage collector frees, and when (tinySTM/src/gc.c).
use tiny_stm_reval.Prelude.{
  ℕ, ◌+◌, ◌%◌, ◌^◌, ◌≤◌, ◌<◌, ◌≡◌, refl, sym, ap, ◌∙◌, inl, inr, true, List, [], ◌∷◌, ◌++◌, arith,
  ltb, ◌==◌, if◌then◌else◌, ==_iff, Bool-cases, All, All-map, All-append, if_both,
}
use mathlib.Core.Path.{subst}
use mathlib.Core.List.{append-nil, append_assoc}
use tiny_stm_reval.Gc.{
  Region, Slot, Gc, put_slot, is_busy, is_null, gc_compute_min, clean_old, gc_cleanup_thread,
  no_regions, add_block, gc_cleanup, gc_free, max_gc_threads, cleanup_frequency,
}
use tiny_stm_reval.Gc.Bound.{Packed, Below, gc_compute_min_lem}

-- What is freed between two states, all of it with a property.
abbrev pub Frees : (ℕ → Type 0) → List ℕ → List ℕ → Type 0
Frees P before after = (new : List ℕ) × (after ≡ before ++ new) × All P new

pub Frees-none : (P : ℕ → Type 0) (xs : List ℕ) → Frees P xs xs
Frees-none P xs = ([], sym (append-nil xs), tt)

pub Frees-then :
    (P : ℕ → Type 0) (xs ys zs : List ℕ) → Frees P xs ys → Frees P ys zs → Frees P xs zs
Frees-then P xs ys zs (m, e, a) (n, f, b) =
    (m ++ n, f ∙ ap (λ l. l ++ n) e ∙ append_assoc xs m n, All-append P m n a b)

pub Frees-map :
    {P Q : ℕ → Type 0} (xs ys : List ℕ) → ((a : ℕ) → P a → Q a) → Frees P xs ys → Frees Q xs ys
Frees-map xs ys f (n, e, a) = (n, e, All-map f n a)

-- Each address that is given to gc_free is `retired` at some time. The regions hold addresses that
-- were retired at their timestamps at the latest.
abbrev pub Dated : (ℕ → ℕ) → List Region → Type 0
Dated retired rs = All (λ (r : Region). All (λ a. retired a ≤ r.ts) r.blocks) rs

module _ (retired : ℕ → ℕ) where
  add_block-Dated :
      (a e : ℕ) (rs : List Region)
      → retired a ≤ e
      → Dated retired rs
      → Dated retired (add_block a e rs)
  unfolding add_block
  add_block-Dated a e [] le d = ((le, tt), tt)
  add_block-Dated a e (r ∷ rs) le d = elim (Bool-cases (ltb r.ts e)) [
    | inl newer ↦ rw newer (
        All-append (λ (r : Region). All (λ a. retired a ≤ r.ts) r.blocks) (r ∷ rs)
          (record { blocks = a ∷ []; ts = e } ∷ []) d ((le, tt), tt))
    | inr same ↦ rw same ((ground (arith, same, le), d.0), d.1)
  ]

  clean_old-Dated :
      (min : ℕ) (rs : List Region) (freed : List ℕ)
      → Dated retired rs
      → Dated retired (clean_old min rs freed).0
        × Frees (λ a. retired a < min) freed (clean_old min rs freed).1
  unfolding clean_old
  clean_old-Dated min [] freed d = (tt, Frees-none (λ a. retired a < min) freed)
  clean_old-Dated min (r ∷ rs) freed d = elim (Bool-cases (ltb r.ts min)) [
    | inl old ↦
        let (left, later) = clean_old-Dated min rs (freed ++ r.blocks) d.1 in
        let dead = All-map (λ a (le : retired a ≤ r.ts). before a le old) r.blocks d.0 in
        rw old (
          left,
          Frees-then (λ a. retired a < min) freed (freed ++ r.blocks)
              (clean_old min rs (freed ++ r.blocks)).1 (r.blocks, refl, dead) later,
        )
    | inr young ↦ rw young (d, Frees-none (λ a. retired a < min) freed)
  ]
    where
      before : (a : ℕ) → retired a ≤ r.ts → ltb r.ts min ≡ true → retired a < min
      before a le old = ground (arith, le, old)

  -- The invariant of the slots.
  pub record Sound (slots : ℕ → Slot) : Type 0 where
    pub packed : Packed slots
    pub dated : (i : ℕ) → Dated retired (slots i).regions

  -- Retired before the current epoch, and before the timestamp of every busy slot.
  abbrev pub Dead : ℕ → (ℕ → Slot) → ℕ → Type 0
  Dead now slots a =
      (retired a < now)
      × ((k : ℕ) → k < max_gc_threads → is_busy (slots k).used ≡ true → retired a < (slots k).ts)

  pub put_same :
      {A : Type 0} (f : Slot → A) (slots : ℕ → Slot) (i : ℕ) (s : Slot)
      → f s ≡ f (slots i)
      → (k : ℕ) → f (if i == k then s else slots k) ≡ f (slots k)
  put_same f slots i s e k = elim (Bool-cases (i == k)) [
    | inl h ↦ rw h (e ∙ ap (λ j. f (slots j)) ((==_iff i k).0 h))
    | inr h ↦ rw h refl
  ]

  pub Sound-put :
      (slots : ℕ → Slot) (i : ℕ) (s : Slot)
      → is_null s.used ≡ is_null (slots i).used
      → Dated retired s.regions
      → Sound slots
      → Sound (λ j. if i == j then s else slots j)
  Sound-put slots i s e d sound = record {
    packed = λ j k le n.
        put_same (λ s. is_null s.used) slots i s e k
        ∙ sound.packed j k le (sym (put_same (λ s. is_null s.used) slots i s e j) ∙ n);
    dated = λ j. if_both (i == j) (λ (s : Slot). Dated retired s.regions) d (sound.dated j);
  }

  pub cleanup_thread-Sound :
      (idx min : ℕ) (g : Gc)
      → Sound g.slots
      → Sound (gc_cleanup_thread idx min g).slots
        × Frees (λ a. retired a < min) g.released (gc_cleanup_thread idx min g).released
  unfolding gc_cleanup_thread
  cleanup_thread-Sound idx min g sound =
      let s = g.slots idx in
      let (d, freed) = clean_old-Dated min s.regions g.released (sound.dated idx) in
      (
        Sound-put g.slots idx (record s { regions = (clean_old min s.regions g.released).0 }) refl d
            sound,
        freed,
      )

  pub Dead-min :
      (now min : ℕ) (slots : ℕ → Slot)
      → min ≤ now
      → Below slots min
      → (a : ℕ) → retired a < min
      → Dead now slots a
  Dead-min now min slots le below a lt =
      (omega (arith, le, lt), λ k h b. let m = below k h b in less lt m)
    where
      less : {x y z : ℕ} → x < y → y ≤ z → x < z
      less p q = omega (arith, p, q)

  -- What holds after an operation that may free.
  abbrev pub Cleans : ℕ → Gc → Gc → Type 0
  Cleans now g g' = Sound g'.slots × Frees (Dead now g.slots) g.released g'.released

  pub cleanup-Cleans : (idx now : ℕ) (g : Gc) → Sound g.slots → Cleans now g (gc_cleanup idx now g)
  unfolding gc_cleanup
  cleanup-Cleans idx now g sound =
      let min = gc_compute_min g.slots now in
      let (le, below, reached) = gc_compute_min_lem g.slots now sound.packed in
      let (sound', freed) = cleanup_thread-Sound idx min g sound in
      if_both (no_regions (g.slots idx).regions) (Cleans now g)
        (sound, Frees-none (Dead now g.slots) g.released)
        (
          sound',
          Frees-map g.released (gc_cleanup_thread idx min g).released
              (Dead-min now min g.slots le below) freed,
        )

  pub free-Cleans :
      (idx addr epoch now : ℕ) (g : Gc)
      → retired addr ≤ epoch
      → Sound g.slots
      → Cleans now g (gc_free idx addr epoch now g)
  unfolding gc_free
  free-Cleans idx addr epoch now g le sound =
      let s = record (g.slots idx) {
        regions = add_block addr epoch (g.slots idx).regions;
        frees = ((g.slots idx).frees + 1) % 2 ^ 32;
      } in
      let sound₁ =
        Sound-put g.slots idx s refl
          (add_block-Dated addr epoch (g.slots idx).regions le (sound.dated idx)) sound in
      let (sound₂, freed) = cleanup-Cleans idx now (put_slot idx s g) sound₁ in
      if_both (((g.slots idx).frees + 1) % 2 ^ 32 % cleanup_frequency == 0) (Cleans now g)
        (
          sound₂,
          Frees-map g.released (gc_cleanup idx now (put_slot idx s g)).released
              (λ a d. (d.0, λ k h b. before a k s refl refl d h b)) freed,
        )
        (sound₁, Frees-none (Dead now g.slots) g.released)
    where
      before :
          (a k : ℕ) (s : Slot)
          → s.used ≡ (g.slots idx).used
          → s.ts ≡ (g.slots idx).ts
          → Dead now (λ j. if idx == j then s else g.slots j) a
          → k < max_gc_threads
          → is_busy (g.slots k).used ≡ true
          → retired a < (g.slots k).ts
      before a k s u t d h b =
          subst (λ n. retired a < n) (put_same (λ s. s.ts) g.slots idx s t k)
            (d.1 k h (ap is_busy (put_same (λ s. s.used) g.slots idx s u k) ∙ b))
