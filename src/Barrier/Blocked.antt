-- ===== src/Barrier/Blocked.antt =====
-- The function of the barrier runs while everybody is blocked, and nobody waits for ever because of
-- a lost broadcast (tinySTM/src/stm.c).
use tiny_stm_reval.Prelude.{
  ℕ, ◌+◌, ◌-◌, ◌<◌, ◌≡◌, refl, sym, ap, ◌∙◌, ◌≢◌, ◌⊎◌, inl, inr, true, false, arith, ◌==◌,
  if◌then◌else◌, ==_iff, Bool-cases,
}
use mathlib.Core.Path.{subst}
use tiny_stm_reval.Barrier.Counting.{
  outside_lem, is_outside-wake_up, count_same, count_put, count_none, count_some, not_outside,
  waiting_not_outside, woken_not_outside, outside_not_waiting, wake_up_not_waiting, weight_outside,
  all_outside, count, weight,
}
use tiny_stm_reval.Barrier.{
  Phase, Barrier, put_phase, wake_up, broadcast, leave, release, barrier_loop, arrive, resume,
  at_rest, Reaches, starts, arrives, resumes,
}

-- The invariant: threads_count is right, and who waits is held back by somebody.
record Inv (n : ℕ) (b : Barrier) : Type 0 where
  counted : b.threads_count ≡ count b.phase n
  held : (k : ℕ) → b.phase k ≡ Phase.waiting → (b.quiesce ≢ 0) × (0 < b.threads_count)

-- What holds when thread `i` has the mutex inside the barrier.
record Owner (n i : ℕ) (b : Barrier) : Type 0 where
  inside : b.phase i ≢ Phase.outside
  counted : b.threads_count ≡ count b.phase n
  held : (k : ℕ) → (i == k) ≡ false → b.phase k ≡ Phase.waiting → b.quiesce ≢ 0

-- One more thread outside.
more : {a b c x y : ℕ} → a + x ≡ b + y → x ≡ 0 → y ≡ 1 → c ≡ b → c + 1 ≡ a
more e x y f = omega (arith, e, x, y, f)

as_many : {a b c x y : ℕ} → a + x ≡ b + y → x ≡ 0 → y ≡ 0 → c ≡ b → c ≡ a
as_many e x y f = omega (arith, e, x, y, f)

leave-Inv :
    (n i : ℕ) (b : Barrier)
    → i < n
    → b.phase i ≢ Phase.outside
    → b.threads_count ≡ count b.phase n
    → ((k : ℕ) → (i == k) ≡ false → b.phase k ≢ Phase.waiting)
    → Inv n (leave i b)
unfolding leave
leave-Inv n i b lt inside counted idle = record {
  counted =
      more (count_put b.phase n i Phase.outside lt) (not_outside (b.phase i) inside) weight_outside
        counted;
  held = λ k w. absurd (nobody k (Bool-cases (i == k)) w);
}
  where
    nobody :
        (k : ℕ)
        → ((i == k) ≡ true) ⊎ ((i == k) ≡ false)
        → (if i == k then Phase.outside else b.phase k) ≢ Phase.waiting
    nobody k (inl e) = rw e outside_not_waiting
    nobody k (inr e) = rw e (idle k e)

release-Inv : (n i : ℕ) (b : Barrier) → i < n → Owner n i b → Inv n (leave i (release b))
unfolding release broadcast
release-Inv n i b lt o =
    leave-Inv n i (release b) lt
      (λ e. o.inside (
        (outside_lem (b.phase i)).0
          (sym (is_outside-wake_up (b.phase i)) ∙ (outside_lem (wake_up (b.phase i))).1 e)))
      (o.counted
        ∙ sym (
            count_same (λ j. wake_up (b.phase j)) b.phase n
              (λ k l. is_outside-wake_up (b.phase k))))
      (λ k e. wake_up_not_waiting (b.phase k))

wait-Inv :
    (n i : ℕ) (b : Barrier)
    → i < n
    → Owner n i b
    → b.quiesce ≢ 0
    → b.threads_count ≢ 0
    → Inv n (put_phase i Phase.waiting b)
wait-Inv n i b lt o q t = record {
  counted =
      as_many (count_put b.phase n i Phase.waiting lt) (not_outside (b.phase i) o.inside)
        (not_outside Phase.waiting waiting_not_outside) o.counted;
  held = λ k w. (q, omega (arith, t));
}

loop-Inv : (n i : ℕ) (b : Barrier) → i < n → Owner n i b → Inv n (barrier_loop i b)
unfolding barrier_loop
loop-Inv n i b lt o = elim (Bool-cases (b.quiesce == 0)) [
  | inl e ↦
      let zero_is = (==_iff b.quiesce 0).0 e in
      rw e (leave-Inv n i b lt o.inside o.counted (λ k a w. o.held k a w zero_is))
  | inr e ↦ elim (Bool-cases (b.threads_count == 0)) [
    | inl f ↦ rw (e, f) (release-Inv n i b lt o)
    | inr f ↦ rw (e, f) (wait-Inv n i b lt o (ground (arith, e)) (ground (arith, f)))
  ]
]

-- A thread that arrives takes the mutex and is not outside any more.
arrive-Owner :
    (n i : ℕ) (b : Barrier)
    → i < n
    → b.phase i ≡ Phase.outside
    → Inv n b
    → Owner n i (
        put_phase i Phase.woken (record b {
          threads_count = b.threads_count - 1;
          quiesce = if b.quiesce == 0 then 1 else b.quiesce;
        }))
arrive-Owner n i b lt out inv = record {
  inside = λ e.
      woken_not_outside
        (sym (ap (λ c. if c then Phase.woken else b.phase i) ((==_iff i i).1 refl)) ∙ e);
  counted =
      less (count_put b.phase n i Phase.woken lt) (ap weight out ∙ weight_outside)
        (not_outside Phase.woken woken_not_outside) inv.counted;
  held = λ k a w. set (Bool-cases (b.quiesce == 0));
}
  where
    less : {a b c x y : ℕ} → a + x ≡ b + y → x ≡ 1 → y ≡ 0 → c ≡ b → c - 1 ≡ a
    less e x y f = omega (arith, e, x, y, f)

    set :
        ((b.quiesce == 0) ≡ true) ⊎ ((b.quiesce == 0) ≡ false)
        → (if b.quiesce == 0 then 1 else b.quiesce) ≢ 0
    set (inl e) = rw e (omega arith)
    set (inr e) = rw e (ground (arith, e))

resume-Owner : (n i : ℕ) (b : Barrier) → b.phase i ≢ Phase.outside → Inv n b → Owner n i b
resume-Owner n i b inside inv = record {
  inside = inside;
  counted = inv.counted;
  held = λ k a w. (inv.held k w).0;
}

at_rest-Inv : (n : ℕ) → Inv n (at_rest n)
unfolding at_rest
at_rest-Inv n = record { counted = all_outside n; held = λ k w. absurd (outside_not_waiting w) }

Reaches-Inv : (n : ℕ) (b : Barrier) → Reaches n b → Inv n b
unfolding arrive resume
Reaches-Inv n _ starts = at_rest-Inv n
Reaches-Inv n _ (arrives i b lt out r) =
    loop-Inv n i
      (put_phase i Phase.woken (record b {
        threads_count = b.threads_count - 1;
        quiesce = if b.quiesce == 0 then 1 else b.quiesce;
      }))
      lt (arrive-Owner n i b lt out (Reaches-Inv n b r))
Reaches-Inv n _ (resumes i b lt inside r) =
    loop-Inv n i b lt (resume-Owner n i b inside (Reaches-Inv n b r))

-- The function is only called when no thread is outside.
calls_last :
    (n i : ℕ) (b : Barrier)
    → Owner n i b
    → (barrier_loop i b).calls ≢ b.calls
    → (k : ℕ) → k < n
    → b.phase k ≢ Phase.outside
unfolding barrier_loop leave
calls_last n i b o called k lt = elim (Bool-cases (b.quiesce == 0)) [
  | inl e ↦ absurd (called (rw e refl))
  | inr e ↦ elim (Bool-cases (b.threads_count == 0)) [
    | inl f ↦ count_none b.phase n k (sym o.counted ∙ (==_iff b.threads_count 0).0 f) lt
    | inr f ↦ absurd (called (rw (e, f) refl))
  ]
]

-- In every state that the threads reach: if the arrival of a thread, or its return from the wait,
-- calls the function that is given to the barrier, then all other threads are blocked in the
-- barrier; and if a thread waits without a broadcast behind it, then some thread is outside, so the
-- threads never all wait for each other.
pub blocked_while_called :
    (n i : ℕ) (b : Barrier)
    → i < n
    → Reaches n b
    → (b.phase i ≡ Phase.outside
        → (arrive i b).calls ≢ b.calls
        → (k : ℕ) → k < n
        → (i == k) ≡ false
        → b.phase k ≢ Phase.outside)
      × (b.phase i ≢ Phase.outside
          → (resume i b).calls ≢ b.calls
          → (k : ℕ) → k < n
          → b.phase k ≢ Phase.outside)
      × (b.phase i ≡ Phase.waiting → (j : ℕ) × (j < n) × (b.phase j ≡ Phase.outside))
unfolding arrive resume
blocked_while_called n i b lt r =
    let inv = Reaches-Inv n b r in
    (
      λ out called k l away e.
          calls_last n i
            (put_phase i Phase.woken (record b {
              threads_count = b.threads_count - 1;
              quiesce = if b.quiesce == 0 then 1 else b.quiesce;
            }))
            (arrive-Owner n i b lt out inv) called k l
            (ap (λ c. if c then Phase.woken else b.phase k) away ∙ e),
      λ inside called. calls_last n i b (resume-Owner n i b inside inv) called,
      λ w. let h = (inv.held i w).1 in count_some b.phase n (subst (λ m. 0 < m) inv.counted h),
    )
