-- ===== src/Sets.antt =====
-- The read and write sets of a transaction: stm_has_read, stm_has_written, and their growth
-- (stm_allocate_rs_entries, stm_allocate_ws_entries) in tinySTM/src/stm.c.
pub mod Bounds
use tiny_stm_reval.Prelude.{
  ℕ, ◌*◌, ◌%◌, ◌^◌, bit_or, Option, none, some, List, [], ◌∷◌, ◌++◌, ◌==◌, if◌then◌else◌, length,
}
use tiny_stm_reval.Word.{merge, double_int, int_to_size_t}
use tiny_stm_reval.Machine.{Env}
use tiny_stm_reval.Descriptor.{ReadEntry, WriteEntry, ReadSet, WriteSet, w_entry_size, r_entry_size}

-- The first entry of the read set for a lock.
unfoldable pub has_read : List ReadEntry → ℕ → Option ReadEntry
has_read [] lock = none
has_read (r ∷ rs) lock = if r.lock == lock then some r else has_read rs lock

-- The first entry of the write set for an address.
unfoldable pub has_written : List WriteEntry → ℕ → Option WriteEntry
has_written [] addr = none
has_written (w ∷ ws) addr = if w.addr == addr then some w else has_written ws addr

-- What a repeated write does to an entry.
unfoldable pub merge_entry : ℕ → ℕ → WriteEntry → WriteEntry
merge_entry value mask w = record w { value = merge mask w.value value; mask = bit_or w.mask mask }

-- The write set after the first entry for an address is changed in place.
unfoldable pub update_written : (WriteEntry → WriteEntry) → List WriteEntry → ℕ → List WriteEntry
update_written f [] addr = []
update_written f (w ∷ ws) addr = if w.addr == addr then f w ∷ ws else w ∷ update_written f ws addr

-- The doubled size and realloc; `none` is exit(1)
unfoldable pub extend_read_set : Env → ReadSet → Option ReadSet
extend_read_set env rs =
    let size = double_int rs.size in
    elim (env.realloc rs.base (int_to_size_t size * r_entry_size % 2 ^ 64)) [
      | none ↦ none
      | some base ↦ some (record rs { base = base; size = size })
    ]

unfoldable pub extend_write_set : Env → WriteSet → Option WriteSet
extend_write_set env ws =
    let size = double_int ws.size in
    elim (env.realloc ws.base (int_to_size_t size * w_entry_size % 2 ^ 64)) [
      | none ↦ none
      | some base ↦ some (record ws { base = base; size = size })
    ]

-- Appending to a set, which grows when it is full.
unfoldable pub add_read : Env → ReadEntry → ReadSet → Option ReadSet
add_read env r rs =
    elim (if length rs.entries == rs.size then extend_read_set env rs else some rs) [
      | none ↦ none
      | some rs' ↦ some (record rs' { entries = rs'.entries ++ (r ∷ []) })
    ]

unfoldable pub add_write : Env → WriteEntry → WriteSet → Option WriteSet
add_write env w ws =
    elim (if length ws.entries == ws.size then extend_write_set env ws else some ws) [
      | none ↦ none
      | some ws' ↦ some (record ws' { entries = ws'.entries ++ (w ∷ []) })
    ]
