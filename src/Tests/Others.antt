-- ===== src/Tests/Others.antt =====
-- Unit stores, callbacks and slots.
use tiny_stm_reval.Prelude.{
  ℕ, ◌*◌, ◌≤◌, ◌<◌, ◌≡◌, refl, ◌↔◌, ◌⊎◌, true, false, none, some, arith, ◌==◌, if◌then◌else◌,
}
use tiny_stm_reval.Word.{get_owned, get_timestamp}
use tiny_stm_reval.Machine.{Shared, World}
use tiny_stm_reval.Registry.{Hooks, stm_register}
use tiny_stm_reval.Registry.Bounds.{Full, Added, stm_register_whole}
use tiny_stm_reval.Unit.{stm_unit_store2}
use tiny_stm_reval.Unit.Store.{UnitStored, UnitRefused, Gives, unit_store2_alone}
use tiny_stm_reval.Tests.Setup.{zeroed, tables, alone_env, alone}

-- All locks are free at version 1, and so is the clock.
abbrev ahead : Shared
ahead = record zeroed { lock = λ _. 2; clock = 1 }

abbrev world : World
world = record { shared = ahead; now = 0 }

unit_store2_alone_example :
    ((t : ℕ)
      → t < get_timestamp 2
      → Gives (UnitRefused ahead 64) (stm_unit_store2 alone_env 64 0x1234 0xff (some t) world))
    × ((t : ℕ)
        → get_timestamp 2 ≤ t
        → Gives
            (UnitStored ahead 64 0x1234 (some t))
            (stm_unit_store2 alone_env 64 0x1234 0xff (some t) world))
    × Gives (UnitStored ahead 64 0x1234 none) (stm_unit_store2 alone_env 64 0x1234 0xff none world)
unfolding get_owned
unit_store2_alone_example = unit_store2_alone alone 64 0x1234 0xff world refl (omega arith)

abbrev hooks : Hooks
hooks = record { init = none; exit = none; start = none; commit = some 3; abort = some 4 }

stm_register_whole_example :
    (((stm_register hooks 30 tables).0 ≡ false) ↔ (
      Full none tables.on_init
      ⊎ Full none tables.on_exit
      ⊎ Full none tables.on_start
      ⊎ Full (some 3) tables.on_commit
      ⊎ Full (some 4) tables.on_abort))
    × ((stm_register hooks 30 tables).0 ≡ false → (stm_register hooks 30 tables).1 ≡ tables)
    × ((stm_register hooks 30 tables).0 ≡ true
        → Added none 30 tables.on_init (stm_register hooks 30 tables).1.on_init
          × Added none 30 tables.on_exit (stm_register hooks 30 tables).1.on_exit
          × Added none 30 tables.on_start (stm_register hooks 30 tables).1.on_start
          × Added (some 3) 30 tables.on_commit (stm_register hooks 30 tables).1.on_commit
          × Added (some 4) 30 tables.on_abort (stm_register hooks 30 tables).1.on_abort)
stm_register_whole_example = stm_register_whole hooks 30 tables

abbrev slots : ℕ → ℕ
slots k = k * 100

abbrev slots' : ℕ → ℕ
slots' k = if 2 == k then 77 else slots k
