-- ===== src/Tests/MemAlloc.antt =====
-- The node allocator at concrete inputs (TPCC/Server/core/nbblist.c).
use tiny_stm_reval.Prelude.{◌*◌, ◌≤◌, ◌<◌, ◌≡◌, refl, ◌⊎◌, true, List, [], ◌∷◌, arith, ◌==◌}
use tiny_stm_reval.Word.{sub_word, add_word, complement}
use tiny_stm_reval.MemAlloc.{
  Pc, taken, given_back, was_free, bit_length, ffsl, mem_alloc_init, free_pos, acquire_look,
  acquire_newchunk, release_newchunk, set_chunk, advance, effect,
}
use tiny_stm_reval.MemAlloc.Threads.{
  Action, call_acquire, call_release, take_turn, may_call, act, event, note, history, keeps,
}
use tiny_stm_reval.MemAlloc.Sizes.{mem_alloc_init_sizes}
use tiny_stm_reval.MemAlloc.Held.{init-history-keeps}

-- Threads 0 and 1 look at the same chunk, and thread 1 has to look again; then thread 0 gives
-- node 1 back twice.
abbrev race : List Action
race =
    call_acquire 0 111
    ∷ call_acquire 1 222
    ∷ take_turn 0
    ∷ take_turn 1
    ∷ take_turn 0
    ∷ take_turn 1
    ∷ take_turn 1
    ∷ take_turn 1
    ∷ take_turn 0
    ∷ take_turn 0
    ∷ call_release 0 1
    ∷ take_turn 0
    ∷ take_turn 0
    ∷ take_turn 0
    ∷ take_turn 0
    ∷ take_turn 0
    ∷ call_release 0 1
    ∷ take_turn 0
    ∷ []

race_run :
    history race (record { alloc = mem_alloc_init 0 100; pc = λ i. Pc.idle })
    ≡ taken 1 ∷ taken 2 ∷ given_back 1 ∷ was_free 1 ∷ []
unfolding history note event act may_call effect advance acquire_look acquire_newchunk
    release_newchunk set_chunk free_pos ffsl bit_length mem_alloc_init complement add_word sub_word
race_run = refl

-- A length of 3 makes 4 nodes, and the fourth node that is taken is the one behind them.
abbrev take_one : List Action → List Action
take_one rest = call_acquire 0 7 ∷ take_turn 0 ∷ take_turn 0 ∷ take_turn 0 ∷ take_turn 0 ∷ rest

past_end :
    ((mem_alloc_init 0 3).length_pow2 ≡ 4)
    × (history
          (take_one (take_one (take_one (take_one []))))
          (record { alloc = mem_alloc_init 0 3; pc = λ i. Pc.idle })
        ≡ taken 1 ∷ taken 2 ∷ taken 3 ∷ taken 4 ∷ [])
unfolding history note event act may_call effect advance acquire_look acquire_newchunk
    release_newchunk set_chunk free_pos ffsl bit_length mem_alloc_init complement add_word sub_word
past_end = (refl, refl)

init-history-keeps_example :
    keeps
      (64 * (mem_alloc_init 0 100).busymap_length)
      (λ id. id == 0)
      (history race (record { alloc = mem_alloc_init 0 100; pc = λ i. Pc.idle }))
    ≡ true
init-history-keeps_example = init-history-keeps 0 100 race

mem_alloc_init_sizes_example :
    (100 < (mem_alloc_init 0 100).length_pow2)
    × ((mem_alloc_init 0 100).length_pow2 ≤ 2 * 100)
    × (((32 ≤ 100)
          × (64 * (mem_alloc_init 0 100).busymap_length ≡ (mem_alloc_init 0 100).length_pow2))
        ⊎ ((100 < 32)
            × (64 * (mem_alloc_init 0 100).busymap_length ≡ 64)
            × ((mem_alloc_init 0 100).length_pow2 < 64)))
mem_alloc_init_sizes_example = mem_alloc_init_sizes 0 100 (omega arith) (omega arith)
