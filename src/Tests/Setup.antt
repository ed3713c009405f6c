-- ===== src/Tests/Setup.antt =====
-- Small states and environments for the tests.
use tiny_stm_reval.Prelude.{
  refl, true, false, Option, some, List, [], ◌∷◌, arith, ◌==◌, if◌then◌else◌, ltb, ◌^◌, none,
}
use tiny_stm_reval.Machine.{Shared, Env, Callbacks}
use tiny_stm_reval.Descriptor.{Status, Attr, WriteEntry, Stats, Tx, State}
use tiny_stm_reval.Quiet.{Alone, CanStart}

abbrev pub no_aborts : Stats
no_aborts = record {
  retries = 0;
  aborts = 0;
  aborts_1 = 0;
  aborts_2 = 0;
  aborts_ro = 0;
  aborts_locked_read = 0;
  aborts_locked_write = 0;
  aborts_validate_read = 0;
  aborts_validate_write = 0;
  aborts_validate_commit = 0;
  aborts_invalid_memory = 0;
  max_retries = 0;
}

abbrev pub writing : Option Attr → List WriteEntry → Tx
writing attr entries = record {
  attr = attr;
  status = Status.active;
  start = 0;
  end_ = 0;
  r_set = record { base = 4096; entries = []; size = 4 };
  w_set = record { base = 8192; entries = entries; size = 4; nb_acquired = 0 };
  ro = false;
  can_extend = true;
  nesting = 1;
  stats = no_aborts;
}

-- All memory is 0, all locks are free at version 0.
abbrev pub zeroed : Shared
zeroed = record { mem = λ _. 0; lock = λ _. 0; clock = 0; quiesce = 0 }

-- The same, with lock 3 taken by another transaction.
abbrev pub contended : Shared
contended = record { mem = λ _. 0; lock = λ j. if j == 3 then 4097 else 0; clock = 0; quiesce = 0 }

abbrev pub state : Tx → Shared → State
state tx sh = record { tx = tx; world = record { shared = sh; now = 0 }; calls = [] }

abbrev pub tables : Callbacks
tables = record {
  on_init = [];
  on_exit = [];
  on_start = [];
  on_commit = (1, 10) ∷ [];
  on_abort = (2, 20) ∷ [];
}

abbrev pub alone_env : Env
alone_env = record {
  interfere = λ n s. s;
  realloc = λ p n. if ltb n (2 ^ 63) then some 65536 else none;
  stale = λ n. (0x99, 7);
  spins = 4;
  callbacks = tables;
}

pub alone : Alone alone_env
alone = record { quiet = λ n s. refl; tries = omega arith }

pub zeroed-CanStart : CanStart zeroed
zeroed-CanStart = record { clock = omega arith; quiesce = refl }

pub contended-CanStart : CanStart contended
contended-CanStart = record { clock = omega arith; quiesce = refl }
