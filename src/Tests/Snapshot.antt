-- ===== src/Tests/Snapshot.antt =====
-- A transaction that another one overtakes: between its first two accesses all words change from 0
-- to 7 in a commit with time 1.
use tiny_stm_reval.Prelude.{
  ℕ, suc, ◌≤◌, ◌≡◌, refl, sym, ◌∙◌, inl, inr, false, none, some, [], ◌∷◌, arith, ltb, ◌==◌,
  if◌then◌else◌, Bool-cases, ◌^◌,
}
use mathlib.Core.Bool.{false≢true}
use mathlib.Core.List.{map}
use tiny_stm_reval.Word.{get_owned, get_timestamp, lock_idx}
use tiny_stm_reval.Machine.{Shared, Env, World, tick}
use tiny_stm_reval.Descriptor.{WriteSet, State, returned, and_then}
use tiny_stm_reval.Sets.{has_written, add_read, extend_read_set}
use tiny_stm_reval.Validate.{entry_valid, validate_entries, stm_validate, finish_extend, stm_extend}
use tiny_stm_reval.Restart.{no_retry}
use tiny_stm_reval.Read.{
  reload, recheck, try_extend, read_attempt, read_loop, overlay, finish_accept, finish_read,
  written_whole, stm_load,
}
use tiny_stm_reval.Snapshot.{History, Good, Rely, IsSnapshot}
use tiny_stm_reval.Snapshot.Extend.{Ready}
use tiny_stm_reval.Snapshot.Load.{seen_value}
use tiny_stm_reval.Snapshot.Run.{run_loads, loads_same_time}
use tiny_stm_reval.Unit.{unit_attempt, unit_load_loop, stm_unit_load}
use tiny_stm_reval.Unit.Load.{stm_unit_load_current}
use tiny_stm_reval.Tests.Setup.{writing, zeroed, state, tables}

abbrev after_commit : ℕ → Shared
after_commit c = record { mem = λ _. 7; lock = λ _. 2; clock = suc c; quiesce = 0 }

abbrev overtaken : Env
overtaken = record {
  interfere = λ n s. if n == 1 then after_commit s.clock else s;
  realloc = λ p n. if ltb n (2 ^ 63) then some 65536 else none;
  stale = λ n. (0x99, 7);
  spins = 8;
  callbacks = tables;
}

abbrev history : History
history t a = if t == 0 then 0 else 7

abbrev written_at : ℕ → ℕ → ℕ
written_at n a = if ltb n 2 then 0 else 1

abbrev no_writes : WriteSet
no_writes = (writing none []).w_set

free_word :
    (get_owned 2 ≡ false) × (get_timestamp 2 ≡ 1) × (get_owned 0 ≡ false) × (get_timestamp 0 ≡ 0)
unfolding get_owned get_timestamp
free_word = (refl, refl, refl, refl)

after_commit-Good :
    (c n : ℕ)
    → ltb n 2 ≡ false
    → Good history written_at no_writes (record { shared = after_commit c; now = n })
after_commit-Good c n late = record {
  value = λ a. rw late;
  stamped = λ a f. rw (late, free_word.1) (omega arith, omega arith);
  unchanged = λ a f u v k. rw late (from_one u (rw late at v));
  foreign = λ j own. absurd (false≢true (sym free_word.0 ∙ own));
}
  where
    from_one : (u : ℕ) → 1 ≤ u → ◌≡◌ {A = ℕ} (if u == 0 then 0 else 7) 7
    from_one u v = ground arith

overtaken-keeps :
    (w : World)
    → Good history written_at no_writes w
    → Good history written_at no_writes (tick overtaken w)
unfolding tick
overtaken-keeps w g = elim (Bool-cases (w.now == 1)) [
  | inl y ↦ rw y (after_commit-Good w.shared.clock (suc w.now) (ground arith))
  | inr n ↦ rw n (
      let same : ltb (suc w.now) 2 ≡ ltb w.now 2 = ground arith in
      record {
        value = λ a. rw same (g.value a);
        stamped = λ a f. rw same (g.stamped a f);
        unchanged = λ a f. rw same (g.unchanged a f);
        foreign = g.foreign;
      })
]

overtaken-Rely : Rely overtaken history written_at no_writes
unfolding tick
overtaken-Rely = record {
  keeps = overtaken-keeps;
  forward = λ w g. ground arith;
  later = λ n a. ground arith;
}

zeroed-Good : Good history written_at no_writes (record { shared = zeroed; now = 0 })
zeroed-Good = record {
  value = λ a. refl;
  stamped = λ a f. rw free_word.3 (omega arith, omega arith);
  unchanged = λ a f u v k. ground arith;
  foreign = λ j own. absurd (false≢true (sym free_word.2 ∙ own));
}

abbrev start : State
start = state (writing none []) zeroed

start-Ready : Ready history written_at no_writes start
start-Ready = record {
  writes = refl;
  good = zeroed-Good;
  snapshot = record { entries = tt; bounded = omega arith };
}

abbrev final : State
final = (run_loads overtaken (64 ∷ 96 ∷ 64 ∷ []) start).1

-- The first load starts over, extends the snapshot to time 1, and all loads see the new words.
overtaken_run : run_loads overtaken (64 ∷ 96 ∷ 64 ∷ []) start ≡ (returned (7 ∷ 7 ∷ 7 ∷ []), final)
unfolding run_loads and_then stm_load written_whole has_written read_loop read_attempt reload
    try_extend recheck finish_read finish_accept overlay add_read extend_read_set stm_extend
    finish_extend stm_validate validate_entries entry_valid tick get_owned get_timestamp lock_idx
overtaken_run = refl

loads_same_time_example :
    ((7 ∷ 7 ∷ 7 ∷ [])
      ≡ map (λ a. seen_value no_writes a (history final.tx.end_ a)) (64 ∷ 96 ∷ 64 ∷ []))
    × IsSnapshot history final
unfolding no_retry
loads_same_time_example =
    loads_same_time overtaken-Rely (64 ∷ 96 ∷ 64 ∷ []) start (7 ∷ 7 ∷ 7 ∷ []) final start-Ready refl
      overtaken_run

abbrev unit_end : World
unit_end = record { shared = after_commit 0; now = 5 }

unit_run : stm_unit_load overtaken 64 start.world ≡ some (7, 1, unit_end)
unfolding stm_unit_load unit_load_loop unit_attempt tick get_owned get_timestamp lock_idx
unit_run = refl

stm_unit_load_current_example :
    (◌≡◌ {A = ℕ} 7 (history 1 64))
    × (1 ≤ unit_end.shared.clock)
    × ((u : ℕ) → 1 ≤ u → u ≤ unit_end.shared.clock → history u 64 ≡ history 1 64)
stm_unit_load_current_example =
    stm_unit_load_current overtaken-Rely 64 start.world 7 1 unit_end zeroed-Good unit_run
