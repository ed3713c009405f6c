-- ===== src/Tests/Commit.antt =====
-- A commit of three writes, two of them under one lock, with and without a conflict.
use tiny_stm_reval.Prelude.{
  ℕ, ◌≡◌, refl, sym, ◌∙◌, inl, inr, true, false, none, some, List, [], ◌∷◌, arith, ◌==◌, Bool-cases,
  rev_onto,
}
use mathlib.Core.Bool.{false≢true}
use tiny_stm_reval.Word.{word_max, get_owned, get_addr, merge, complement}
use tiny_stm_reval.Descriptor.{Attr, WriteEntry, State, returned, in_write_set}
use tiny_stm_reval.Restart.{stm_rollback, drop_all, release_locks, no_retry}
use tiny_stm_reval.Restart.Alone.{rollback_no_retry_active}
use tiny_stm_reval.Api.{stm_start, stm_active, stm_aborted}
use tiny_stm_reval.Api.Nesting.{stm_commit-stm_start}
use tiny_stm_reval.Commit.{is_empty, stm_commit}
use tiny_stm_reval.Commit.Start.{CanCommit}
use tiny_stm_reval.Commit.Undo.{Refused}
use tiny_stm_reval.Commit.Install.{Committed}
use tiny_stm_reval.Commit.WriteBack.{value_after, overwrite}
use tiny_stm_reval.Commit.Isolated.{commit_takes_effect, commit_conflict_undone}
use tiny_stm_reval.Tests.Setup.{
  writing, zeroed, contended, state, alone_env, alone, zeroed-CanStart, contended-CanStart,
}

abbrev entry : ℕ → ℕ → ℕ → ℕ → WriteEntry
entry addr value mask lock = record {
  addr = addr;
  value = value;
  mask = mask;
  version = 0;
  lock = lock;
  no_drop = true;
}

-- Lock 2 covers 64 and 72, lock 3 covers 96.
abbrev entries : List WriteEntry
entries = entry 64 5 word_max 2 ∷ entry 96 6 word_max 3 ∷ entry 72 0x1234 0xff 2 ∷ []

abbrev ready : State
ready = state (writing none entries) zeroed

abbrev blocked : State
blocked = state (writing none entries) contended

ready-CanCommit : CanCommit ready
unfolding is_empty get_owned
ready-CanCommit = record {
  outermost = refl;
  writes = refl;
  untaken = (refl, (refl, (refl, tt)));
  none_acquired = refl;
  placed = record { aligned = refl; foreign = λ j own. absurd (false≢true own) };
  fits = λ j. omega arith;
  start = zeroed-CanStart;
}

foreign_word :
    (get_owned 4097 ≡ true)
    × (get_owned 0 ≡ false)
    × (in_write_set blocked.tx.w_set (get_addr 4097) ≡ false)
unfolding get_owned get_addr in_write_set
foreign_word = (refl, refl, refl)

blocked-CanCommit : CanCommit blocked
unfolding is_empty
blocked-CanCommit = record {
  outermost = refl;
  writes = refl;
  untaken = (refl, (refl, (refl, tt)));
  none_acquired = refl;
  placed = record {
    aligned = refl;
    foreign = λ j own. elim (Bool-cases (j == 3)) [
      | inl y ↦ rw y foreign_word.2
      | inr n ↦ absurd (false≢true (sym foreign_word.1 ∙ rw n at own))
    ];
  };
  fits = λ j. ground arith;
  start = contended-CanStart;
}

-- Under the mask 0xff only the low byte of 0x1234 is written.
values :
    (value_after entries 64 9 ≡ 5)
    × (value_after entries 72 0xabcd ≡ 0xab34)
    × (value_after entries 80 9 ≡ 9)
unfolding value_after overwrite merge complement
values = (refl, refl, refl)

commit_takes_effect_example : Committed alone_env ready (stm_commit alone_env ready)
unfolding get_owned
commit_takes_effect_example = commit_takes_effect alone ready ready-CanCommit refl (λ j c. refl)

-- The entries are worked on from the last: lock 2 is taken before the conflict on lock 3.
commit_conflict_undone_example : Refused alone_env blocked (stm_commit alone_env blocked)
unfolding no_retry
commit_conflict_undone_example =
    commit_conflict_undone alone blocked 3 blocked-CanCommit refl refl foreign_word.0

abbrev no_retry_attr : Attr
no_retry_attr = record { id = 0; read_only = false; no_retry = true }

abbrev giving_up : State
giving_up = state (writing (some no_retry_attr) entries) zeroed

rollback_no_retry_active_example :
    ((stm_rollback alone_env 0x10 giving_up).0 ≡ returned tt)
    × (stm_active (stm_rollback alone_env 0x10 giving_up).1 ≡ true)
    × (stm_aborted (stm_rollback alone_env 0x10 giving_up).1 ≡ false)
    × ((stm_rollback alone_env 0x10 giving_up).1.tx.nesting ≡ 0)
    × ((stm_rollback alone_env 0x10 giving_up).1.tx.r_set.entries ≡ [])
    × ((stm_rollback alone_env 0x10 giving_up).1.tx.w_set.entries ≡ [])
    × ((stm_rollback alone_env 0x10 giving_up).1.tx.end_ ≡ 0)
unfolding drop_all release_locks no_retry rev_onto
rollback_no_retry_active_example =
    rollback_no_retry_active alone zeroed 0x10 giving_up zeroed-CanStart refl refl

stm_commit-stm_start_example :
    ((stm_start alone_env none ready).0 ≡ returned false)
    × (stm_commit alone_env (stm_start alone_env none ready).1 ≡ (returned true, ready))
stm_commit-stm_start_example = stm_commit-stm_start alone_env none ready (omega arith)
