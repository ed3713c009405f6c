-- ===== src/Tests/NbbList.antt =====
-- The task queue at concrete inputs (TPCC/Server/core/nbblist.c).
use tiny_stm_reval.Prelude.{
  ℕ, zero, suc, ◌≡◌, ◌≢◌, refl, sym, ◌∙◌, true, none, some, List, [], ◌∷◌, arith, All,
}
use tiny_stm_reval.Word.{sub_word, add_word}
use tiny_stm_reval.NbbList.{
  Answer, Pc, inserted, removed, full, empty, nbb_list_val, nbb_list_ver, nbb_list_mask,
  nbb_list_create, insert_look, insert_oldmask, insert_newmask, remove_look, remove_oldmask,
  remove_newmask, set_entry, advance, answer_in, effect,
}
use tiny_stm_reval.NbbList.Threads.{
  Action, call_insert, call_remove, take_turn, called, settled, may_call, act, event, run, note,
  history, new_system,
}
use tiny_stm_reval.NbbList.Linear.{fifo_all, history-fifo_all, InsertsValue}
use tiny_stm_reval.NbbList.Alone.{alone}
use tiny_stm_reval.NbbList.Progress.{run-Ends}
use tiny_stm_reval.NbbList.Answers.{alternates, last_event, Tells, history-Tells}

abbrev turns : ℕ → ℕ → List Action → List Action
turns i zero rest = rest
turns i (suc k) rest = take_turn i ∷ turns i k rest

-- Threads 0 and 1 insert and read the same free entry; thread 2 removes what one of them put first.
abbrev race : List Action
race =
    call_insert 0 5
    ∷ call_insert 1 6
    ∷ take_turn 0
    ∷ take_turn 1
    ∷ take_turn 0
    ∷ take_turn 1
    ∷ take_turn 0
    ∷ take_turn 1
    ∷ call_remove 2
    ∷ turns 1 5 (turns 2 4 (turns 0 1 (call_remove 2 ∷ turns 2 5 (call_remove 2 ∷ turns 2 3 []))))

abbrev zeros : ℕ → ℕ
zeros k = 0

race_run :
    history race (new_system zeros 2)
    ≡ (0, called)
      ∷ (1, called)
      ∷ (0, settled (inserted 5))
      ∷ (2, called)
      ∷ (1, settled (inserted 6))
      ∷ (2, settled (removed 5))
      ∷ (2, called)
      ∷ (2, settled (removed 6))
      ∷ (2, called)
      ∷ (2, settled empty)
      ∷ []
unfolding history note event act may_call effect advance answer_in insert_look remove_look set_entry
    insert_oldmask insert_newmask remove_oldmask remove_newmask nbb_list_val nbb_list_ver
    nbb_list_mask nbb_list_create sub_word add_word
race_run = refl

-- A list of one entry is full after one value.
full_run :
    history (call_insert 0 5 ∷ turns 0 4 (call_insert 0 6 ∷ turns 0 2 [])) (new_system zeros 1)
    ≡ (0, called) ∷ (0, settled (inserted 5)) ∷ (0, called) ∷ (0, settled full) ∷ []
unfolding history note event act may_call effect advance answer_in insert_look remove_look set_entry
    insert_oldmask insert_newmask remove_oldmask remove_newmask nbb_list_val nbb_list_ver
    nbb_list_mask nbb_list_create sub_word add_word
full_run = refl

history-fifo_all_example :
    (q : List ℕ) × (fifo_all 2 [] (history race (new_system zeros 2)) ≡ some q)
history-fifo_all_example =
    history-fifo_all zeros 2 race (omega arith) (omega arith) (λ k lt. refl) (omega arith) values
  where
    values : All InsertsValue race
    values = omega arith

history-Tells_example :
    (alternates 2 none (history race (new_system zeros 2)) ≡ true)
    × Tells
        (run race (new_system zeros 2)).list
        ((run race (new_system zeros 2)).pc 2)
        (last_event 2 none (history race (new_system zeros 2)))
history-Tells_example = history-Tells zeros 2 2 race

-- Threads 0 and 1 insert, and thread 0 takes the entry first.
abbrev contested : List Action
contested = call_insert 0 5 ∷ call_insert 1 6 ∷ turns 0 3 (turns 1 2 [])

contested_turns : (run contested (new_system zeros 2)).pc 1 ≡ Pc.insert_read 6 1 0
unfolding run act may_call advance insert_look set_entry insert_oldmask insert_newmask nbb_list_val
    nbb_list_ver nbb_list_mask nbb_list_create sub_word add_word
contested_turns = refl

run-Ends_example :
    (a : Answer) × ((alone 15
        ((run contested (new_system zeros 2)).list, (run contested (new_system zeros 2)).pc 1)).1
      ≡ Pc.answered a)
run-Ends_example =
    run-Ends zeros 2 1 contested (omega arith) (omega arith) (λ k lt. refl) (omega arith) values
      busy
  where
    values : All InsertsValue contested
    values = omega arith

    busy : (run contested (new_system zeros 2)).pc 1 ≢ Pc.idle
    busy e = absurd (ground (arith, sym contested_turns ∙ e))
