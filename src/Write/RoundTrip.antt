-- ===== src/Write/RoundTrip.antt =====
-- stm_store followed by stm_load of the same address (tinySTM/src/stm.c).
use tiny_stm_reval.Prelude.{
  ℕ, ◌≤◌, bit_and, bit_or, ◌≡◌, refl, ap, ◌∙◌, ◌≢◌, true, false, Option, none, some, List, arith,
  ◌==◌, if◌then◌else◌,
}
use mathlib.Core.Path.{subst}
use tiny_stm_reval.Word.{word_max, complement, lock_idx}
use tiny_stm_reval.Word.Bits.{bit_or-word_max, merge-word_max}
use tiny_stm_reval.Machine.{Env}
use tiny_stm_reval.Descriptor.{WriteEntry, State, returned}
use tiny_stm_reval.Sets.{has_written, merge_entry}
use tiny_stm_reval.Restart.{no_retry}
use tiny_stm_reval.Read.{written_whole, stm_load}
use tiny_stm_reval.Write.{new_entry, stm_write, stm_store}
use tiny_stm_reval.Write.Lookup.{next_entry, WriteHolds, stm_write-WriteHolds}

-- The masks of a write set are words.
abbrev pub MasksFit : List WriteEntry → ℕ → Type 0
MasksFit ws addr = (e : WriteEntry) → has_written ws addr ≡ some e → e.mask ≤ word_max

-- What a write that returns leaves in the write set, from the equation of the write.
stm_write_made :
    (env : Env) (addr value mask : ℕ) (s s' : State) (e : WriteEntry)
    → no_retry s.tx.attr ≡ false
    → stm_write env addr value mask s ≡ (returned (some e), s')
    → ((b : ℕ)
        → has_written s'.tx.w_set.entries b
          ≡ (if addr == b then some e else has_written s.tx.w_set.entries b))
      × ((stale : ℕ × ℕ) × (e
            ≡ next_entry addr value mask stale (has_written s.tx.w_set.entries addr)))
stm_write_made env addr value mask s s' e may h =
    let (at, made, kept) =
      subst (WriteHolds addr value mask s) h (stm_write-WriteHolds env addr value mask s may) in
    (at, made)

-- The entry that a write makes, by the address's earlier entry.
abbrev pub IsWritten : ℕ → ℕ → ℕ → Option WriteEntry → WriteEntry → Type 0
IsWritten addr value mask none e =
    (e.addr ≡ addr)
    × (e.lock ≡ lock_idx addr)
    × (e.no_drop ≡ true)
    × (e.mask ≡ mask)
    × (mask ≢ 0 → e.value ≡ value)
IsWritten addr value mask (some w) e =
    (e.addr ≡ w.addr)
    × (e.lock ≡ w.lock)
    × (e.no_drop ≡ w.no_drop)
    × (e.mask ≡ bit_or w.mask mask)
    × (e.value ≡ bit_or (bit_and w.value (complement mask)) (bit_and value mask))

whole_entry :
    (addr value : ℕ) (stale : ℕ × ℕ) (o : Option WriteEntry)
    → value ≤ word_max
    → ((e : WriteEntry) → o ≡ some e → e.mask ≤ word_max)
    → written_whole (some (next_entry addr value word_max stale o)) ≡ some value
unfolding written_whole new_entry merge_entry
whole_entry addr value stale none fits masks = refl
whole_entry addr value stale (some e) fits masks =
    rw (bit_or-word_max e.mask (masks e refl), merge-word_max e.value value fits) refl

load_whole :
    (env : Env) (addr value : ℕ) (s : State)
    → written_whole (has_written s.tx.w_set.entries addr) ≡ some value
    → stm_load env addr s ≡ (returned value, s)
unfolding stm_load
load_whole env addr value s own = rw (stm_load, own) refl

-- However the other threads interleave, if a store of a whole word returns, then a load of the
-- address by the same transaction returns the stored word and changes nothing. The word and the
-- mask of the address's earlier entry, if it has one, fit in 64 bits, and the transaction jumps back
-- when it aborts.
pub store_then_load :
    (env : Env) (addr value : ℕ) (s s' : State) (e : WriteEntry)
    → no_retry s.tx.attr ≡ false
    → value ≤ word_max
    → MasksFit s.tx.w_set.entries addr
    → stm_store env addr value s ≡ (returned (some e), s')
    → stm_load env addr s' ≡ (returned value, s')
unfolding stm_store
store_then_load env addr value s s' e may fits masks h =
    let (found, (stale, made)) = stm_write_made env addr value word_max s s' e may h in
    let here : has_written s'.tx.w_set.entries addr ≡ some e = found addr ∙ ground arith in
    load_whole env addr value s' (
      ap written_whole (here ∙ ap (λ x. some x) made)
      ∙ whole_entry addr value stale (has_written s.tx.w_set.entries addr) fits masks)
