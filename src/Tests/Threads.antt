-- ===== src/Tests/Threads.antt =====
-- Two descriptors enter the list, and the first of them leaves it.
use tiny_stm_reval.Prelude.{◌≡◌, refl, inl, inr, true, [], ◌∷◌, arith}
use tiny_stm_reval.Descriptor.{Status, is_active}
use tiny_stm_reval.Threads.{Threads, left, stm_quiesce_enter_thread, stm_quiesce_exit_thread}
use tiny_stm_reval.Threads.Chain.{Lists, remove, enter_thread-Lists, exit_thread-Lists}

abbrev empty : Threads
empty = record { next = λ _. 0; threads = 0; threads_count = 0 }

abbrev two : Threads
two = stm_quiesce_enter_thread 8192 (stm_quiesce_enter_thread 4096 empty)

empty-Lists : Lists empty 0 []
empty-Lists = record { chain = refl; distinct = tt; count = refl; few = omega arith }

one-Lists : Lists (stm_quiesce_enter_thread 4096 empty) 0 (4096 ∷ [])
one-Lists = enter_thread-Lists 4096 empty 0 [] (omega arith) tt (omega arith) empty-Lists

two-Lists : Lists two 0 (8192 ∷ 4096 ∷ [])
two-Lists =
    enter_thread-Lists 8192 (stm_quiesce_enter_thread 4096 empty) 0 (4096 ∷ []) (omega arith)
      (omega arith, tt) (omega arith) one-Lists

enter_thread-Lists_example : Lists two 0 (8192 ∷ 4096 ∷ [])
enter_thread-Lists_example =
    enter_thread-Lists 8192 (stm_quiesce_enter_thread 4096 empty) 0 (4096 ∷ []) (omega arith)
      (omega arith, tt) (omega arith) one-Lists

-- The second thread waits at the barrier: it has lowered `threads_count`, and has set `quiesce`.
abbrev one_waits : Threads
one_waits = record two { threads_count = 1 }

one_waits-Lists : Lists one_waits 1 (8192 ∷ 4096 ∷ [])
one_waits-Lists =
    let l = two-Lists in
    record { chain = l.chain; distinct = l.distinct; count = refl; few = l.few }

exit_thread-Lists_example :
    (q' : Threads) × (stm_quiesce_exit_thread 2 4096 Status.idle 1 one_waits ≡ left true q')
    × Lists q' 1 (8192 ∷ [])
unfolding is_active remove
exit_thread-Lists_example =
    exit_thread-Lists 2 4096 Status.idle 1 one_waits 1 (8192 ∷ 4096 ∷ []) (omega arith) refl
      one_waits-Lists (inr (inl refl)) (omega arith)
