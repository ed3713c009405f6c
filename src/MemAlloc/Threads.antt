-- ===== src/MemAlloc/Threads.antt =====
-- Threads that call mem_node_acquire and mem_node_release on one allocator, in any order
-- (TPCC/Server/core/nbblist.c).
use tiny_stm_reval.Prelude.{
  ℕ, Bool, true, false, not, ◌&&◌, Option, none, some, List, [], ◌∷◌, ltb, ◌==◌, if◌then◌else◌,
}
use tiny_stm_reval.MemAlloc.{MemAlloc, Pc, Event, taken, given_back, was_free, advance, effect}

pub record System : Type 0 where
  pub alloc : MemAlloc
  pub pc : ℕ → Pc

-- What a schedule lets a thread do next. A call by a thread that is in a call is passed over.
pub data Action : Type 0 where
  call_acquire : ℕ → ℕ → Action
  call_release : ℕ → ℕ → Action
  take_turn : ℕ → Action

unfoldable pub may_call : Pc → Bool
may_call Pc.idle = true
may_call (Pc.acquired o) = true
may_call (Pc.released o) = true
may_call other = false

abbrev pub set_pc : (ℕ → Pc) → ℕ → Pc → ℕ → Pc
set_pc f i pc j = if i == j then pc else f j

unfoldable pub act : Action → System → System
act (call_acquire i payload) s =
    if may_call (s.pc i) then record s { pc = set_pc s.pc i (Pc.acquire_read payload 0) } else s
act (call_release i id) s =
    if may_call (s.pc i) then record s { pc = set_pc s.pc i (Pc.release_read id) } else s
act (take_turn i) s =
    let (a, pc) = advance s.alloc (s.pc i) in record { alloc = a; pc = set_pc s.pc i pc }

unfoldable pub event : Action → System → Option Event
event (call_acquire i payload) s = none
event (call_release i id) s = none
event (take_turn i) s = effect s.alloc (s.pc i)

unfoldable pub note : Option Event → List Event → List Event
note none es = es
note (some e) es = e ∷ es

-- What happens to nodes, in the order it happens.
unfoldable pub history : List Action → System → List Event
history [] s = []
history (a ∷ rest) s = note (event a s) (history rest (act a s))

abbrev pub mark : (ℕ → Bool) → ℕ → Bool → ℕ → Bool
mark f i v j = if i == j then v else f j

-- Whether events may follow each other where `held` says which nodes are taken: a node that is
-- taken is not node 0, is below n, and was not taken, one that is given back was, and one that is found free was not.
unfoldable pub keeps : ℕ → (ℕ → Bool) → List Event → Bool
keeps n held [] = true
keeps n held (taken id ∷ es) =
    ((not (id == 0) && not (held id)) && ltb id n) && keeps n (mark held id true) es
keeps n held (given_back id ∷ es) = held id && keeps n (mark held id false) es
keeps n held (was_free id ∷ es) = not (held id) && keeps n held es
