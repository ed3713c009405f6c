-- ===== src/Barrier/Counting.antt =====
-- The threads that are not at the barrier, counted (tinySTM/src/stm.c).
use tiny_stm_reval.Prelude.{
  ℕ, zero, suc, ◌+◌, ◌<◌, ◌≡◌, refl, ap, ◌≢◌, ◌↔◌, ◌⊎◌, inl, inr, Bool, true, false, arith, ◌==◌,
  if◌then◌else◌, ==_iff, Bool-cases,
}
use tiny_stm_reval.Barrier.{Phase, wake_up}

pub is_outside : Phase → Bool
is_outside Phase.outside = true
is_outside _ = false

pub outside_lem : (p : Phase) → (is_outside p ≡ true) ↔ (p ≡ Phase.outside)
unfolding is_outside
outside_lem Phase.outside = (λ h. refl, λ h. refl)
outside_lem Phase.waiting = (λ h. cc, λ h. cc)
outside_lem Phase.woken = (λ h. cc, λ h. cc)

pub is_outside-wake_up : (p : Phase) → is_outside (wake_up p) ≡ is_outside p
unfolding is_outside wake_up
is_outside-wake_up Phase.outside = refl
is_outside-wake_up Phase.waiting = refl
is_outside-wake_up Phase.woken = refl

-- The threads that are not at the barrier.
pub count : (ℕ → Phase) → ℕ → ℕ
count f zero = 0
count f (suc n) = (if is_outside (f n) then 1 else 0) + count f n

abbrev pub weight : Phase → ℕ
weight p = if is_outside p then 1 else 0

pub count_same :
    (f g : ℕ → Phase) (n : ℕ)
    → ((k : ℕ) → k < n → is_outside (f k) ≡ is_outside (g k))
    → count f n ≡ count g n
unfolding count
count_same f g zero h = refl
count_same f g (suc n) h =
    let ih = count_same f g n (λ k lt. h k (omega (arith, lt))) in rw (h n (omega arith), ih) refl

pub count_put :
    (f : ℕ → Phase) (n i : ℕ) (p : Phase)
    → i < n
    → count (λ j. if i == j then p else f j) n + weight (f i) ≡ count f n + weight p
unfolding count
count_put f zero i p lt = absurd (omega (arith, lt))
count_put f (suc n) i p lt = at (Bool-cases (i == n)) (count_put f n i p)
  where
    at :
        ((i == n) ≡ true) ⊎ ((i == n) ≡ false)
        → (i < n → count (λ j. if i == j then p else f j) n + weight (f i) ≡ count f n + weight p)
        → count (λ j. if i == j then p else f j) (suc n) + weight (f i) ≡ count f (suc n) + weight p
    at (inl e) ih =
        let here = (==_iff i n).0 e in
        let rest =
          count_same (λ j. if i == j then p else f j) f n
            (λ k l. let a : (i == k) ≡ false = ground (arith, here, l) in rw a refl) in
        let same = ap (λ j. weight (f j)) here in rw e (omega (arith, rest, same))
    at (inr e) ih = rw e (omega (arith, ih (ground (arith, e, lt))))

pub count_none : (f : ℕ → Phase) (n k : ℕ) → count f n ≡ 0 → k < n → f k ≢ Phase.outside
unfolding count
count_none f zero k z lt out = omega (arith, lt)
count_none f (suc n) k z lt out =
    let o : weight (f k) ≡ 1 = rw ((outside_lem (f k)).1 out) refl in
    elim (Bool-cases (k == n)) [
      | inl e ↦ let same = ap (λ j. weight (f j)) ((==_iff k n).0 e) in omega (arith, z, o, same)
      | inr e ↦ count_none f n k (omega (arith, z)) (ground (arith, e, lt)) out
    ]

pub count_some : (f : ℕ → Phase) (n : ℕ) → 0 < count f n → (k : ℕ) × (k < n) × (f k ≡ Phase.outside)
unfolding count
count_some f zero h = absurd (omega (arith, h))
count_some f (suc n) h = elim (Bool-cases (is_outside (f n))) [
  | inl e ↦ (n, omega arith, (outside_lem (f n)).0 e)
  | inr e ↦
      let w : weight (f n) ≡ 0 = rw e refl in
      let (k, lt, out) = count_some f n (omega (arith, h, w)) in (k, omega (arith, lt), out)
]

pub not_outside : (p : Phase) → p ≢ Phase.outside → weight p ≡ 0
unfolding is_outside
not_outside Phase.outside h = absurd (h refl)
not_outside Phase.waiting h = refl
not_outside Phase.woken h = refl

pub waiting_not_outside : Phase.waiting ≢ Phase.outside
waiting_not_outside e = cc

pub woken_not_outside : Phase.woken ≢ Phase.outside
woken_not_outside e = cc

pub outside_not_waiting : Phase.outside ≢ Phase.waiting
outside_not_waiting e = cc

pub wake_up_not_waiting : (p : Phase) → wake_up p ≢ Phase.waiting
unfolding wake_up
wake_up_not_waiting Phase.outside e = cc
wake_up_not_waiting Phase.waiting e = cc
wake_up_not_waiting Phase.woken e = cc

pub weight_outside : weight Phase.outside ≡ 1
unfolding is_outside
weight_outside = refl

pub all_outside : (n : ℕ) → n ≡ count (λ i. Phase.outside) n
unfolding count
all_outside zero = refl
all_outside (suc n) = let ih = all_outside n in let w = weight_outside in rw w (omega (arith, ih))
