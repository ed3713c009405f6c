-- ===== src/Tests/Sets.antt =====
-- Loads and stores of a transaction that has written the low byte of address 64.
use tiny_stm_reval.Prelude.{◌≡◌, refl, inr, true, false, none, some, [], ◌∷◌, arith}
use tiny_stm_reval.Word.{word_max, lock_idx, get_owned, get_timestamp, merge, complement}
use tiny_stm_reval.Machine.{Shared, tick}
use tiny_stm_reval.Descriptor.{WriteEntry, State, returned}
use tiny_stm_reval.Sets.{has_written, merge_entry, update_written}
use tiny_stm_reval.Restart.{no_retry}
use tiny_stm_reval.Read.{written_whole, overlay, stm_load}
use tiny_stm_reval.Sets.Bounds.{SetsFit, RefusesHuge}
use tiny_stm_reval.Read.Bounds.{stm_load-SetsFit}
use tiny_stm_reval.Write.Bounds.{stm_write-SetsFit}
use tiny_stm_reval.Read.Alone.{CanLoad, stm_load_alone}
use tiny_stm_reval.Write.{await_unlocked, write_unlocked, stm_write, stm_store}
use tiny_stm_reval.Write.RoundTrip.{MasksFit, store_then_load}
use tiny_stm_reval.Tests.Setup.{writing, state, alone_env, alone}

-- Memory holds 0x4321, all locks are free at version 1, and so is the clock.
abbrev ahead : Shared
ahead = record { mem = λ _. 0x4321; lock = λ _. 2; clock = 1; quiesce = 0 }

abbrev low_byte : WriteEntry
low_byte = record { addr = 64; value = 0x12; mask = 0xff; version = 0; lock = 2; no_drop = true }

abbrev written : State
written = state (writing none (low_byte ∷ [])) ahead

free_word : (get_owned 2 ≡ false) × (get_owned 0 ≡ false) × (get_timestamp 0 ≡ 0)
unfolding get_owned get_timestamp
free_word = (refl, refl, refl)

written-CanLoad : CanLoad 64 written
written-CanLoad = record {
  free = free_word.0;
  reach = inr (record { update = refl; allowed = refl; clock = omega arith; valid = tt });
  room = refl;
}

-- The low byte is the transaction's own, the rest is memory's.
stm_load_alone_example :
    ((stm_load alone_env 64 written).0 ≡ returned 0x4312)
    × ((stm_load alone_env 64 written).1.world.shared ≡ ahead)
    × ((stm_load alone_env 64 written).1.tx.w_set ≡ written.tx.w_set)
unfolding has_written written_whole overlay merge complement
stm_load_alone_example = stm_load_alone alone 64 written written-CanLoad

-- The entry after a further write of the second byte, and after one of the whole word.
abbrev two_bytes : WriteEntry
two_bytes = record low_byte { value = 0x5612; mask = 0xffff }

abbrev whole_word : WriteEntry
whole_word = record low_byte { value = 0x5678; mask = word_max }

abbrev after : WriteEntry → State
after e = record written { tx = writing none (e ∷ []); world = record { shared = ahead; now = 1 } }

store_run : stm_store alone_env 64 0x5678 written ≡ (returned (some whole_word), after whole_word)
unfolding stm_store stm_write write_unlocked await_unlocked has_written update_written merge_entry
    merge complement tick get_owned lock_idx
store_run = refl

low_byte-MasksFit : MasksFit written.tx.w_set.entries 64
unfolding has_written
low_byte-MasksFit e h = ground arith

store_then_load_example :
    stm_load alone_env 64 (after whole_word) ≡ (returned 0x5678, after whole_word)
unfolding no_retry
store_then_load_example =
    store_then_load alone_env 64 0x5678 written (after whole_word) whole_word refl (omega arith)
      low_byte-MasksFit store_run

-- Both sets are full.
abbrev full : State
full =
    let tx = written.tx in
    record written {
      tx = record tx {
        r_set = record { base = 4096; entries = record { version = 0; lock = 5 } ∷ []; size = 1 };
        w_set = record { base = 8192; entries = low_byte ∷ []; size = 1; nb_acquired = 0 };
      };
    }

full-SetsFit : SetsFit full.tx
full-SetsFit = ((omega arith, omega arith, omega arith), (omega arith, omega arith, omega arith))

alone_env-RefusesHuge : RefusesHuge alone_env
alone_env-RefusesHuge p n le = ground (arith, le)

stm_load-SetsFit_example : SetsFit (stm_load alone_env 96 full).1.tx
stm_load-SetsFit_example = stm_load-SetsFit alone_env alone_env-RefusesHuge 96 full full-SetsFit

stm_write-SetsFit_example : SetsFit (stm_write alone_env 96 7 0xff full).1.tx
stm_write-SetsFit_example =
    stm_write-SetsFit alone_env alone_env-RefusesHuge 96 7 0xff full full-SetsFit
