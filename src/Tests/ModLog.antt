-- ===== src/Tests/ModLog.antt =====
-- Two words in place, one of them logged as a range, and the undo log at the end of the transaction.
use tiny_stm_reval.Prelude.{
  ℕ, ◌+◌, ◌≡◌, refl, ap, inl, inr, true, none, some, List, [], ◌∷◌, ◌++◌, arith, ◌==◌,
  if◌then◌else◌, length, rev_onto,
}
use tiny_stm_reval.ModLog.{
  Kind, Bytes, width, saved_as_char, Entry, Log, stm_log, is_bytes, buffers, undo, mod_log_on_abort,
  mod_log_on_thread_init, store_bytes,
}
use tiny_stm_reval.ModLog.Undo.{
  Action, log_value, log_range, poke, run, saved_whole, Logged, abort_restores,
}
use tiny_stm_reval.ModLog.Faults.{sign_byte, abort_restores_low_byte, second_abort_fails}

-- Byte 16 is 200, every other byte 3.
abbrev memory : Bytes
memory b = if b == 16 then 200 else 3

abbrev empty_log : Log
empty_log = mod_log_on_thread_init

-- Logs four bytes and a range of two, and overwrites a byte of each, one of them twice.
abbrev actions : List Action
actions = log_value Kind.int 16 ∷ poke 17 9 ∷ log_range 4096 32 2 ∷ poke 33 7 ∷ poke 17 5 ∷ []

actions-Logged : Logged [] actions
unfolding saved_whole width saved_as_char
actions-Logged = (
  refl,
  (
    inl (omega arith, omega arith),
    (inl (omega arith, omega arith), (inr (inl (omega arith, omega arith)), tt)),
  ),
)

abort_restores_example :
    (log' : Log) × (m' : Bytes) × (run actions empty_log memory ≡ some (log', m'))
    × (log'' : Log) × (m'' : Bytes) × (mod_log_on_abort m' log' ≡ some (log'', m''))
    × ((x : ℕ) → m'' x ≡ memory x)
    × (log''.freed ≡ log'.freed ++ rev_onto (buffers log'.entries) [])
unfolding mod_log_on_thread_init
abort_restores_example = abort_restores actions empty_log memory refl refl actions-Logged

abort_restores_low_byte_example :
    (log' : Log) × (log'' : Log) × (m'' : Bytes) × (stm_log true Kind.u16 16 memory empty_log
      ≡ some log')
    × (mod_log_on_abort (λ _. 0) log' ≡ some (log'', m''))
    × (m'' (16 + 1) ≡ (if 1 == 0 then memory 16 else sign_byte (memory 16)))
unfolding mod_log_on_thread_init saved_as_char width
abort_restores_low_byte_example =
    abort_restores_low_byte Kind.u16 16 1 memory (λ _. 0) empty_log refl (omega arith) refl refl

-- The log after the actions.
abbrev range_entry : Entry
range_entry = record { kind = Kind.bytes; addr = 32; saved = 3 ∷ 3 ∷ []; buffer = 4096 }

abbrev logged : Log
logged = record { entries = range_entry ∷ []; size = 1024; allocated = 1; freed = [] }

abbrev after_abort : Log
after_abort = record logged { allocated = 0; freed = 4096 ∷ [] }

second_abort_fails_example : mod_log_on_abort memory after_abort ≡ none
unfolding mod_log_on_abort buffers is_bytes undo store_bytes run rev_onto
second_abort_fails_example =
    second_abort_fails logged after_abort after_abort memory (undo (range_entry ∷ []) memory) memory
      memory [] (λ e. ground (arith, ap length e)) refl tt refl

abbrev range_only : List Action
range_only = log_range 4096 32 2 ∷ []
