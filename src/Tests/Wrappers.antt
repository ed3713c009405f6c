-- ===== src/Tests/Wrappers.antt =====
-- Stores and loads across words, for a transaction that has written the low byte of address 64
-- (tinySTM/src/wrappers.c).
use tiny_stm_reval.Prelude.{ℕ, ◌≡◌, refl, true, none, List, [], ◌∷◌, arith}
use tiny_stm_reval.Word.{lock_idx, get_owned, get_timestamp, merge, complement}
use tiny_stm_reval.Machine.{tick}
use tiny_stm_reval.Descriptor.{WriteEntry, State, returned, and_then}
use tiny_stm_reval.Sets.{has_written, merge_entry, update_written, add_write, has_read, add_read}
use tiny_stm_reval.Restart.{no_retry}
use tiny_stm_reval.Read.{
  written_whole, overlay, stm_load, read_loop, read_attempt, finish_read, finish_accept, try_extend,
}
use tiny_stm_reval.Write.{
  await_unlocked, write_unlocked, append_write, new_entry, stm_write, stm_store2, is_some,
}
use tiny_stm_reval.Wrappers.{
  byte_of, word_of, byte_run, put_run, replicate, take, drop, byte_list, from_bytes, first_count,
  load_words, load_last, load_rest, stm_load_bytes, load_value, stm_load_u32, stored, store_run,
  store_words, store_last, store_rest, stm_store_bytes, stm_store_u32, stm_set_bytes,
}
use tiny_stm_reval.Wrappers.Store.{Writes}
use tiny_stm_reval.Wrappers.Written.{stm_store_bytes-Writes}
use tiny_stm_reval.Wrappers.RoundTrip.{store_then_load_bytes}
use tiny_stm_reval.Wrappers.Typed.{Width, load_width, store_width, store_then_load_width}
use tiny_stm_reval.Wrappers.Fill.{stm_set_bytes-Writes}
use tiny_stm_reval.Tests.Setup.{writing, state, zeroed, alone_env}

abbrev low_byte : WriteEntry
low_byte = record { addr = 64; value = 0x12; mask = 0xff; version = 0; lock = 2; no_drop = true }

abbrev before : State
before = state (writing none (low_byte ∷ [])) zeroed

abbrev five : List ℕ
five = 1 ∷ 2 ∷ 3 ∷ 4 ∷ 5 ∷ []

abbrev after_five : State
after_five = (stm_store_bytes alone_env 62 five before).1

abbrev loaded_five : State
loaded_five = (stm_load_bytes alone_env 62 5 after_five).1

store_five : stm_store_bytes alone_env 62 five before ≡ (returned tt, after_five)
unfolding stm_store_bytes first_count store_run take drop store_rest store_words store_last stored
    and_then stm_store2 stm_write await_unlocked write_unlocked append_write new_entry has_written
    add_write update_written merge_entry merge complement word_of put_run replicate tick get_owned
    get_timestamp lock_idx has_read is_some
store_five = refl

load_five : stm_load_bytes alone_env 62 5 after_five ≡ (returned five, loaded_five)
unfolding stm_store_bytes first_count store_run take drop store_rest store_words store_last stored
    and_then stm_store2 stm_write await_unlocked write_unlocked append_write new_entry has_written
    add_write update_written merge_entry merge complement word_of put_run replicate tick get_owned
    get_timestamp lock_idx has_read is_some stm_load_bytes load_rest load_words load_last byte_run
    byte_of byte_list stm_load written_whole overlay read_loop read_attempt finish_read
    finish_accept try_extend add_read
load_five = refl

store_then_load_bytes_example : ◌≡◌ {A = List ℕ} five five
unfolding no_retry
store_then_load_bytes_example =
    store_then_load_bytes alone_env 62 five five before after_five loaded_five (omega arith) refl
      store_five load_five

stm_store_bytes-Writes_example : Writes 62 five before (stm_store_bytes alone_env 62 five before)
unfolding no_retry
stm_store_bytes-Writes_example = stm_store_bytes-Writes alone_env 62 five before (omega arith) refl

stm_set_bytes-Writes_example :
    Writes 62 (replicate 20 0xff) before (stm_set_bytes alone_env 62 0xff 20 before)
unfolding no_retry
stm_set_bytes-Writes_example = stm_set_bytes-Writes alone_env 62 0xff 20 before (omega arith) refl

-- A uint32_t that is not aligned, and across two words.
abbrev after_number : State
after_number = (store_width Width.u32 alone_env (λ i. 7) 62 0xdeadbeef before).1

abbrev loaded_number : State
loaded_number = (load_width Width.u32 alone_env 62 after_number).1

store_number :
    store_width Width.u32 alone_env (λ i. 7) 62 0xdeadbeef before ≡ (returned tt, after_number)
unfolding store_width stm_store_u32 byte_list byte_run byte_of stm_store_bytes first_count store_run
    take drop store_rest store_words store_last stored and_then stm_store2 stm_write await_unlocked
    write_unlocked append_write new_entry has_written add_write update_written merge_entry merge
    complement word_of put_run replicate tick get_owned get_timestamp lock_idx has_read is_some
store_number = refl

load_number : load_width Width.u32 alone_env 62 after_number ≡ (returned 0xdeadbeef, loaded_number)
unfolding store_width stm_store_u32 load_width stm_load_u32 load_value from_bytes stm_store_bytes
    first_count store_run take drop store_rest store_words store_last stored and_then stm_store2
    stm_write await_unlocked write_unlocked append_write new_entry has_written add_write
    update_written merge_entry merge complement word_of put_run replicate tick get_owned
    get_timestamp lock_idx has_read is_some stm_load_bytes load_rest load_words load_last byte_run
    byte_of byte_list stm_load written_whole overlay read_loop read_attempt finish_read
    finish_accept try_extend add_read
load_number = refl

store_then_load_width_example : ◌≡◌ {A = ℕ} 0xdeadbeef 0xdeadbeef
unfolding no_retry
store_then_load_width_example =
    store_then_load_width Width.u32 alone_env (λ i. 7) 62 0xdeadbeef 0xdeadbeef before after_number
      loaded_number (λ i. omega arith) (omega arith) refl store_number load_number
