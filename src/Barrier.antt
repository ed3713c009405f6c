-- ===== src/Barrier.antt =====
-- stm_quiesce_barrier of tinySTM/src/stm.c for a fixed set of registered threads. Between the places
-- at which a thread takes and gives up quiesce_mutex (a wait gives it up too) no other thread runs. A
-- thread that calls is counted, so threads_count is not 0 then.
pub mod Counting
pub mod Blocked
use tiny_stm_reval.Prelude.{ℕ, ◌+◌, ◌-◌, ◌<◌, ◌≡◌, ◌≢◌, ◌==◌, if◌then◌else◌}

-- Where a thread is: not at the barrier, in pthread_cond_wait, or behind a broadcast but without the
-- mutex.
pub data Phase : Type 0 where
  outside waiting woken : Phase

-- The shared variables, the phase of each thread, and the number of calls of `f`.
pub record Barrier : Type 0 where
  pub phase : ℕ → Phase
  pub threads_count : ℕ
  pub quiesce : ℕ
  pub calls : ℕ

abbrev pub put_phase : ℕ → Phase → Barrier → Barrier
put_phase i p b = record b { phase = λ j. if i == j then p else b.phase j }

unfoldable pub wake_up : Phase → Phase
wake_up Phase.waiting = Phase.woken
wake_up p = p

-- pthread_cond_broadcast
unfoldable pub broadcast : Barrier → Barrier
broadcast b = record b { phase = λ j. wake_up (b.phase j) }

-- Behind the loop.
unfoldable pub leave : ℕ → Barrier → Barrier
leave i b = put_phase i Phase.outside (record b { threads_count = b.threads_count + 1 })

-- Everybody is blocked.
unfoldable pub release : Barrier → Barrier
release b = broadcast (record b { quiesce = 0; calls = b.calls + 1 })

-- The loop of thread `i`, up to its wait or to the end of the call.
unfoldable pub barrier_loop : ℕ → Barrier → Barrier
barrier_loop i b =
    if b.quiesce == 0
    then leave i b
    else if b.threads_count == 0
    then leave i (release b)
    else put_phase i Phase.waiting b

-- Thread `i` calls stm_quiesce_barrier.
unfoldable pub arrive : ℕ → Barrier → Barrier
arrive i b = barrier_loop i (
    put_phase i Phase.woken (record b {
      threads_count = b.threads_count - 1;
      quiesce = if b.quiesce == 0 then 1 else b.quiesce;
    }))

-- Thread `i` gets the mutex back behind its wait.
unfoldable pub resume : ℕ → Barrier → Barrier
resume i b = barrier_loop i b

unfoldable pub at_rest : ℕ → Barrier
at_rest n = record { phase = λ i. Phase.outside; threads_count = n; quiesce = 0; calls = 0 }

-- What `n` threads reach. A wait may also end without a broadcast.
pub data Reaches (n : ℕ) : Barrier → Type 0 where
  starts : Reaches n (at_rest n)
  arrives :
      (i : ℕ) (b : Barrier)
      → i < n
      → b.phase i ≡ Phase.outside
      → Reaches n b
      → Reaches n (arrive i b)
  resumes :
      (i : ℕ) (b : Barrier)
      → i < n
      → b.phase i ≢ Phase.outside
      → Reaches n b
      → Reaches n (resume i b)
