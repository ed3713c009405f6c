-- ===== src/Tests/Barrier.antt =====
-- Two threads meet at the barrier.
use tiny_stm_reval.Prelude.{ℕ, ◌<◌, ◌≡◌, refl, ◌≢◌, false, arith, ◌==◌}
use tiny_stm_reval.Barrier.{
  Phase, Barrier, wake_up, broadcast, leave, release, barrier_loop, arrive, resume, at_rest,
  Reaches, starts, arrives,
}
use tiny_stm_reval.Barrier.Blocked.{blocked_while_called}

abbrev one_waits : Barrier
one_waits = arrive 0 (at_rest 2)

one_waits-Reaches : Reaches 2 one_waits
unfolding at_rest
one_waits-Reaches = arrives 0 (at_rest 2) (omega arith) refl starts

-- The second thread calls the function, once, and leaves; the first one is woken up.
both_run :
    (one_waits.phase 0 ≡ Phase.waiting)
    × ((arrive 1 one_waits).calls ≡ 1)
    × ((arrive 1 one_waits).phase 0 ≡ Phase.woken)
    × ((resume 0 (arrive 1 one_waits)).threads_count ≡ 2)
unfolding arrive at_rest barrier_loop leave release broadcast wake_up resume
both_run = (refl, refl, refl, refl)

blocked_while_called_example :
    (one_waits.phase 1 ≡ Phase.outside
      → (arrive 1 one_waits).calls ≢ one_waits.calls
      → (k : ℕ) → k < 2
      → (1 == k) ≡ false
      → one_waits.phase k ≢ Phase.outside)
    × (one_waits.phase 1 ≢ Phase.outside
        → (resume 1 one_waits).calls ≢ one_waits.calls
        → (k : ℕ) → k < 2
        → one_waits.phase k ≢ Phase.outside)
    × (one_waits.phase 1 ≡ Phase.waiting → (j : ℕ) × (j < 2) × (one_waits.phase j ≡ Phase.outside))
blocked_while_called_example = blocked_while_called 2 1 one_waits (omega arith) one_waits-Reaches
