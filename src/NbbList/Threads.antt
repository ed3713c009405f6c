-- ===== src/NbbList/Threads.antt =====
-- Threads that call nbb_list_insert and nbb_list_remove on one list, in any order
-- (TPCC/Server/core/nbblist.c).
use tiny_stm_reval.Prelude.{
  ℕ, Bool, true, false, Option, none, some, List, [], ◌∷◌, ◌==◌, if◌then◌else◌,
}
use tiny_stm_reval.NbbList.{NbbList, Answer, Pc, nbb_list_create, advance, effect}

pub record System : Type 0 where
  pub list : NbbList
  pub pc : ℕ → Pc

-- What a schedule lets a thread do next. A call by a thread that is in a call is passed over.
pub data Action : Type 0 where
  call_insert : ℕ → ℕ → Action
  call_remove : ℕ → Action
  take_turn : ℕ → Action

pub data Event : Type 0 where
  called : Event
  settled : Answer → Event

unfoldable pub may_call : Pc → Bool
may_call Pc.idle = true
may_call (Pc.answered a) = true
may_call other = false

abbrev pub set_pc : (ℕ → Pc) → ℕ → Pc → ℕ → Pc
set_pc f i pc j = if i == j then pc else f j

unfoldable pub act : Action → System → System
act (call_insert i v) s =
    if may_call (s.pc i) then record s { pc = set_pc s.pc i (Pc.insert_start v) } else s
act (call_remove i) s =
    if may_call (s.pc i) then record s { pc = set_pc s.pc i Pc.remove_start } else s
act (take_turn i) s =
    let (l, pc) = advance s.list (s.pc i) in record { list = l; pc = set_pc s.pc i pc }

-- The thread that an action is of, and what it records.
unfoldable pub event : Action → System → ℕ × Option Event
event (call_insert i v) s = (i, if may_call (s.pc i) then some called else none)
event (call_remove i) s = (i, if may_call (s.pc i) then some called else none)
event (take_turn i) s =
    (i, elim (effect s.list (s.pc i)) [ none ↦ none | some a ↦ some (settled a) ])

unfoldable pub run : List Action → System → System
run [] s = s
run (a ∷ rest) s = run rest (act a s)

unfoldable pub note : ℕ × Option Event → List (ℕ × Event) → List (ℕ × Event)
note (i, none) es = es
note (i, some e) es = (i, e) ∷ es

-- The calls and their effects, in the order they happen.
unfoldable pub history : List Action → System → List (ℕ × Event)
history [] s = []
history (a ∷ rest) s = note (event a s) (history rest (act a s))

-- A list as nbb_list_create makes it, with no call under way.
abbrev pub new_system : (ℕ → ℕ) → ℕ → System
new_system heap n = record { list = nbb_list_create heap n 32; pc = λ _. Pc.idle }
