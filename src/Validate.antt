-- ===== src/Validate.antt =====
-- stm_validate and stm_extend of tinySTM/src/stm.c.
use tiny_stm_reval.Prelude.{
  ℕ, Bool, true, false, none, some, List, [], ◌∷◌, leb, ◌==◌, if◌then◌else◌,
}
use tiny_stm_reval.Word.{get_owned, get_addr, get_timestamp, version_max}
use tiny_stm_reval.Machine.{Env, World, tick}
use tiny_stm_reval.Descriptor.{ReadEntry, WriteSet, State, in_write_set, w_entry_at}

-- Whether one entry is still valid, given the word that its lock holds.
unfoldable pub entry_valid : WriteSet → ReadEntry → ℕ → Bool
entry_valid ws r l =
    if get_owned l
    then if in_write_set ws (get_addr l)
      then elim (w_entry_at ws (get_addr l)) [ none ↦ false | some w ↦ w.version == r.version ]
      else false
    else get_timestamp l == r.version

-- The loop over the read set: one atomic load for each entry, up to the first that is not valid.
unfoldable pub validate_entries : Env → WriteSet → List ReadEntry → World → Bool × World
validate_entries env ws [] w = (true, w)
validate_entries env ws (r ∷ rs) w =
    let w' = tick env w in
    let rest = validate_entries env ws rs w' in
    if entry_valid ws r (w'.shared.lock r.lock) then rest else (false, w')

unfoldable pub stm_validate : Env → State → Bool × State
stm_validate env s =
    let (valid, w) = validate_entries env s.tx.w_set s.tx.r_set.entries s.world in
    (valid, record s { world = w })

unfoldable pub finish_extend : ℕ → Bool × State → Bool × State
finish_extend now (true, s) = let tx = s.tx in (true, record s { tx = record tx { end_ = now } })
finish_extend now (false, s) = (false, s)

-- The end of the snapshot moves up to the clock, if the read set is still valid.
unfoldable pub stm_extend : Env → State → Bool × State
stm_extend env s =
    let w = tick env s.world in
    let now = w.shared.clock in
    if leb version_max now
    then (false, record s { world = w })
    else finish_extend now (stm_validate env (record s { world = w }))
