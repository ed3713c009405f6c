-- ===== src/Tests/ModMem.antt =====
-- A transaction that obtains a block and gives one back.
use tiny_stm_reval.Prelude.{
  ℕ, ◌+◌, ◌-◌, ◌*◌, ◌/◌, ◌%◌, ◌^◌, ◌≤◌, ◌<◌, ◌≡◌, refl, true, Option, none, some, List, [], ◌∷◌,
  arith, ◌==◌, if◌then◌else◌,
}
use tiny_stm_reval.Descriptor.{State, WriteEntry, returned, and_then}
use tiny_stm_reval.Restart.{no_retry}
use tiny_stm_reval.Word.{lock_idx, get_owned, merge, complement}
use tiny_stm_reval.Sets.{has_written, merge_entry, update_written}
use tiny_stm_reval.Write.{await_unlocked, write_unlocked, stm_write, stm_store2}
use tiny_stm_reval.Machine.{Shared, tick}
use tiny_stm_reval.ModMem.{
  Info, round_size, stm_malloc, word_count, first_word, stm_free2, mod_mem_on_commit,
  mod_mem_on_abort, lock_words, schedule_free,
}
use tiny_stm_reval.ModMem.Balance.{
  Request, obtain, give_back, run, count, obtained, given_back, nodes, frees_once,
}
use tiny_stm_reval.ModMem.Size.{stm_malloc_asks}
use tiny_stm_reval.ModMem.Cover.{Recorded, free_records}
use tiny_stm_reval.Tests.Setup.{writing, state, alone_env}

abbrev requests : List Request
requests = obtain 100 200 16 ∷ give_back 300 400 ∷ []

abbrev no_blocks : Info
no_blocks = record { allocated = []; freed = []; frees = [] }

-- malloc answers a request for 16 bytes only.
abbrev sixteen : ℕ → Option ℕ
sixteen n = if n == 16 then some 4096 else none

abbrev one_block : Info
one_block = record { allocated = record { node = 64; addr = 4096 } ∷ []; freed = []; frees = [] }

malloc_run : stm_malloc (some 64) sixteen 13 no_blocks ≡ some (4096, one_block)
unfolding stm_malloc round_size
malloc_run = refl

stm_malloc_asks_example :
    ((n : ℕ) × (sixteen n ≡ some 4096)
      × (n % 8 ≡ 0)
      × (13 ≤ 2 ^ 64 - 8 → (13 ≤ n) × (n < 13 + 8))
      × (2 ^ 64 - 8 < 13 → n ≡ 0))
    × ((p : ℕ) × (one_block.allocated ≡ record { node = p; addr = 4096 } ∷ []))
    × (one_block.freed ≡ [])
    × (one_block.frees ≡ [])
stm_malloc_asks_example =
    stm_malloc_asks (some 64) sixteen 13 4096 no_blocks one_block (omega arith) malloc_run

frees_once_example :
    (mi' : Info) × (run requests no_blocks ≡ some mi')
    × ((x : ℕ)
        → count x (mod_mem_on_abort mi').frees
          ≡ count x no_blocks.frees + (count x (obtained requests) + count x (nodes requests)))
    × ((x : ℕ)
        → count x (mod_mem_on_commit mi').frees
          ≡ count x no_blocks.frees + (count x (given_back requests) + count x (nodes requests)))
    × ((mod_mem_on_abort mi').allocated ≡ [])
    × ((mod_mem_on_abort mi').freed ≡ [])
    × ((mod_mem_on_commit mi').allocated ≡ [])
    × ((mod_mem_on_commit mi').freed ≡ [])
frees_once_example = frees_once requests no_blocks refl refl

-- The low byte of address 64 is written already.
abbrev low_byte : WriteEntry
low_byte = record { addr = 64; value = 0x12; mask = 0xff; version = 0; lock = 2; no_drop = true }

abbrev ahead : Shared
ahead = record { mem = λ _. 0x4321; lock = λ _. 2; clock = 1; quiesce = 0 }

abbrev start : State
start = state (writing none (low_byte ∷ [])) ahead

abbrev after : State
after = record start { world = record { shared = ahead; now = 1 } }

abbrev scheduled : Info
scheduled = record no_blocks { freed = record { node = 300; addr = 56 } ∷ [] }

-- Frees the word behind the first one.
free_run : stm_free2 alone_env (some 300) 56 8 8 start no_blocks ≡ (returned scheduled, after)
unfolding stm_free2 lock_words first_word word_count schedule_free and_then stm_store2 stm_write
    write_unlocked await_unlocked has_written update_written merge_entry merge complement tick
    get_owned lock_idx
free_run = refl

free_records_example :
    ((i : ℕ) → 8 * i < 8 → Recorded after (56 + (8 + 7) / 8 * 8 + 8 * i))
    × ((b : ℕ) → Recorded start b → Recorded after b)
    × ((nd : ℕ) × (some 300 ≡ some nd)
        × (scheduled ≡ record no_blocks { freed = record { node = nd; addr = 56 } ∷ [] }))
unfolding no_retry
free_records_example =
    free_records alone_env (some 300) 56 8 8 start no_blocks scheduled after refl (omega arith)
      (omega arith) free_run
