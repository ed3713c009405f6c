-- ===== src/Gc/Bound.antt =====
-- The bound that gc_compute_min computes (tinySTM/src/gc.c).
use tiny_stm_reval.Prelude.{
  ℕ, zero, suc, ◌+◌, ◌≤◌, ◌<◌, ◌≡◌, refl, ap, ◌∙◌, ◌⊎◌, inl, inr, true, false, ◌&&◌, arith, ltb,
  ◌==◌, ==_iff, Bool-cases,
}
use tiny_stm_reval.Gc.{
  Used, Slot, is_busy, is_null, lower_min, compute_min, gc_compute_min, max_gc_threads,
}

-- Behind a slot that was never used there is none that was.
abbrev pub Packed : (ℕ → Slot) → Type 0
Packed slots = (j k : ℕ) → j ≤ k → is_null (slots j).used ≡ true → is_null (slots k).used ≡ true

-- A lower bound of the timestamps of all busy slots.
abbrev pub Below : (ℕ → Slot) → ℕ → Type 0
Below slots min = (k : ℕ) → k < max_gc_threads → is_busy (slots k).used ≡ true → min ≤ (slots k).ts

lower_min_lem :
    (s : Slot) (min : ℕ)
    → (lower_min s min ≤ min) × (is_busy s.used ≡ true → lower_min s min ≤ s.ts)
unfolding lower_min
lower_min_lem s min = (ground arith, λ b. ground (arith, b))

compute_min_most : (slots : ℕ → Slot) (n i min : ℕ) → compute_min slots n i min ≤ min
unfolding compute_min
compute_min_most slots zero i min = omega arith
compute_min_most slots (suc n) i min =
    let rest = compute_min_most slots n (suc i) (lower_min (slots i) min) in
    let low = (lower_min_lem (slots i) min).0 in
    elim (Bool-cases (is_null (slots i).used)) [
      | inl e ↦ rw e (omega arith)
      | inr e ↦ rw e (omega (arith, rest, low))
    ]

pub busy_not_null : (u : Used) → is_busy u ≡ true → is_null u ≡ false
unfolding is_busy is_null
busy_not_null Used.null h = cc
busy_not_null _ h = refl

compute_min_busy :
    (slots : ℕ → Slot) (n i min k : ℕ)
    → Packed slots
    → i ≤ k
    → k < i + n
    → is_busy (slots k).used ≡ true
    → compute_min slots n i min ≤ (slots k).ts
unfolding compute_min
compute_min_busy slots zero i min k p lo hi b = absurd (omega (arith, lo, hi))
compute_min_busy slots (suc n) i min k p lo hi b = elim (Bool-cases (is_null (slots i).used)) [
  | inl e ↦ let f = busy_not_null (slots k).used b in let g = p i k lo e in cc
  | inr e ↦ rw e (
      at (Bool-cases (i == k)) (λ later.
        compute_min_busy slots n (suc i) (lower_min (slots i) min) k p later (omega (arith, hi)) b))
]
  where
    at :
        ((i == k) ≡ true) ⊎ ((i == k) ≡ false)
        → (suc i ≤ k → compute_min slots n (suc i) (lower_min (slots i) min) ≤ (slots k).ts)
        → compute_min slots n (suc i) (lower_min (slots i) min) ≤ (slots k).ts
    at (inl h) further =
        let e = (==_iff i k).0 h in
        let most = compute_min_most slots n (suc i) (lower_min (slots i) min) in
        let low = (lower_min_lem (slots i) min).1 (ap (λ j. is_busy (slots j).used) e ∙ b) in
        let same : (slots i).ts ≡ (slots k).ts = ap (λ j. (slots j).ts) e in
        omega (arith, most, low, same)
    at (inr h) further = further (ground (arith, h, lo))

-- A lower bound is reached.
Reached : (ℕ → Slot) → ℕ → ℕ → Type 0
Reached slots min r = (r ≡ min) ⊎ ((k : ℕ) × (is_busy (slots k).used ≡ true) × (r ≡ (slots k).ts))

compute_min-Reached :
    (slots : ℕ → Slot) (n i min : ℕ) → Reached slots min (compute_min slots n i min)
unfolding compute_min Reached lower_min
compute_min-Reached slots zero i min = inl refl
compute_min-Reached slots (suc n) i min = elim (Bool-cases (is_null (slots i).used)) [
  | inl e ↦ rw e (inl refl)
  | inr e ↦ rw e (
      after (compute_min-Reached slots n (suc i) (lower_min (slots i) min))
        (Bool-cases (is_busy (slots i).used && ltb (slots i).ts min)))
]
  where
    after :
        Reached slots
          (lower_min (slots i) min)
          (compute_min slots n (suc i) (lower_min (slots i) min))
        → ((is_busy (slots i).used && ltb (slots i).ts min) ≡ true)
          ⊎ ((is_busy (slots i).used && ltb (slots i).ts min) ≡ false)
        → Reached slots min (compute_min slots n (suc i) (lower_min (slots i) min))
    after (inr r) c = inr r
    after (inl r) (inl h) = inr (i, ground (arith, h), r ∙ rw h refl)
    after (inl r) (inr h) = inl (r ∙ rw h refl)

-- If no slot behind one that was never used is in use, then the bound is the least of the epoch and
-- the timestamps of the busy slots: it is below all of them, and it is one of them.
pub gc_compute_min_lem :
    (slots : ℕ → Slot) (now : ℕ)
    → Packed slots
    → (gc_compute_min slots now ≤ now)
      × Below slots (gc_compute_min slots now)
      × ((gc_compute_min slots now ≡ now)
          ⊎ ((k : ℕ) × (is_busy (slots k).used ≡ true) × (gc_compute_min slots now ≡ (slots k).ts)))
unfolding gc_compute_min Reached
gc_compute_min_lem slots now p = (
  compute_min_most slots max_gc_threads 0 now,
  λ k lt b. compute_min_busy slots max_gc_threads 0 now k p (omega arith) lt b,
  compute_min-Reached slots max_gc_threads 0 now,
)
