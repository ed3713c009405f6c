-- ===== src/ModLog.antt =====
-- The undo log of tinySTM/src/mod_log.c, for data that a transaction changes in place. Memory is a
-- map from addresses to bytes, in the order of the processor (little endian).
pub mod Bytewise
pub mod Undo
pub mod Faults
pub mod Commit
use tiny_stm_reval.Prelude.{
  [], ℕ, zero, suc, ◌+◌, ◌*◌, Bool, true, false, Option, none, some, List, ◌∷◌, ◌++◌, ltb, ◌==◌,
  if◌then◌else◌, length, rev_onto, ◌||◌, leb, ◌^◌,
}
use tiny_stm_reval.Word.{double_int}
use tiny_stm_reval.Machine.{update}

-- The types of entries.
pub data Kind : Type 0 where
  word u8 u16 u32 u64 char uchar short ushort int uint long ulong float double ptr bytes : Kind

abbrev pub Bytes : Type 0
Bytes = ℕ → ℕ

-- sizeof of the type that an entry's address points to; `n` is the size given for TYPE_BYTES.
unfoldable pub width : Kind → ℕ → ℕ
width Kind.u8 n = 1
width Kind.char n = 1
width Kind.uchar n = 1
width Kind.u16 n = 2
width Kind.short n = 2
width Kind.ushort n = 2
width Kind.u32 n = 4
width Kind.int n = 4
width Kind.uint n = 4
width Kind.float n = 4
width Kind.bytes n = n
width _ n = 8

-- Whether the entry's field `v` is a `char`, whatever the width of the data.
unfoldable pub saved_as_char : Kind → Bool
saved_as_char Kind.u8 = true
saved_as_char Kind.u16 = true
saved_as_char Kind.u32 = true
saved_as_char Kind.u64 = true
saved_as_char _ = false

-- `n` bytes from an address on.
unfoldable pub load_bytes : Bytes → ℕ → ℕ → List ℕ
load_bytes m a zero = []
load_bytes m a (suc n) = m a ∷ load_bytes m (suc a) n

unfoldable pub store_bytes : Bytes → ℕ → List ℕ → Bytes
store_bytes m a [] = m
store_bytes m a (b ∷ bs) = store_bytes (update m a b) (suc a) bs

-- The other bytes of a signed char that is converted to a wider type.
unfoldable pub sign_bytes : ℕ → ℕ → List ℕ
sign_bytes b zero = []
sign_bytes b (suc n) = (if ltb b 128 then 0 else 255) ∷ sign_bytes b n

-- The bytes that come back from a field `v` of type `char`.
unfoldable pub through_char : List ℕ → List ℕ
through_char [] = []
through_char (b ∷ bs) = b ∷ sign_bytes b (length bs)

-- `mod_log_w_entry_t`: what the undo writes, and the buffer of an entry of TYPE_BYTES.
pub record Entry : Type 0 where
  pub kind : Kind
  pub addr : ℕ
  pub saved : List ℕ
  pub buffer : ℕ

-- `mod_log_w_set_t`, with the calls of free so far; `nb_entries` is the length of `entries`.
pub record Log : Type 0 where
  pub entries : List Entry
  pub size : ℕ
  pub allocated : ℕ
  pub freed : List ℕ

abbrev pub lw_set_size : ℕ
lw_set_size = 1024

-- `size < LW_SET_SIZE ? LW_SET_SIZE : size * 2`, where a size from 2 ^ 31 on is a negative int.
unfoldable pub next_size : ℕ → ℕ
next_size size = if ltb size lw_set_size || leb (2 ^ 31) size then lw_set_size else double_int size

-- get_entry, when the array is full: `grown` is whether realloc succeeds.
unfoldable pub extend_log : Bool → Log → Option Log
extend_log false log = none
extend_log true log = some (record log { size = next_size log.size })

-- get_entry, and the entry that is put there.
unfoldable pub push_entry : Bool → Entry → Log → Option Log
push_entry grown e log =
    elim (if length log.entries == log.size then extend_log grown log else some log) [
      | none ↦ none
      | some log' ↦ some (record log' { entries = log'.entries ++ (e ∷ []) })
    ]

-- stm_log and stm_log_u8 to stm_log_ptr.
unfoldable pub stm_log : Bool → Kind → ℕ → Bytes → Log → Option Log
stm_log grown k a m log =
    let now = load_bytes m a (width k 0) in
    push_entry grown
      (record {
        kind = k;
        addr = a;
        saved = if saved_as_char k then through_char now else now;
        buffer = 0;
      })
      log

unfoldable pub count_allocated : Log → Log
count_allocated log = record log { allocated = log.allocated + 1 }

-- stm_log_bytes: `buffer` is what malloc gives, `none` for NULL.
unfoldable pub stm_log_bytes : Bool → Option ℕ → ℕ → ℕ → Bytes → Log → Option Log
stm_log_bytes grown none a n m log = none
stm_log_bytes grown (some p) a n m log =
    elim (push_entry grown
      (record { kind = Kind.bytes; addr = a; saved = load_bytes m a n; buffer = p }) log) [
        | none ↦ none
        | some log' ↦ some (count_allocated log')
      ]

unfoldable pub is_bytes : Kind → Bool
is_bytes Kind.bytes = true
is_bytes _ = false

-- The buffers of entries of TYPE_BYTES.
unfoldable pub buffers : List Entry → List ℕ
buffers [] = []
buffers (e ∷ es) = if is_bytes e.kind then e.buffer ∷ buffers es else buffers es

-- The loop of mod_log_on_abort: the undo writes, from the last entry to the first.
unfoldable pub undo : List Entry → Bytes → Bytes
undo [] m = m
undo (e ∷ es) m = store_bytes (undo es m) e.addr e.saved

-- mod_log_on_abort: the new log and memory, or `none` when the assertion at the end fails. Each entry
-- of TYPE_BYTES gives its buffer to free and counts `allocated` down.
unfoldable pub mod_log_on_abort : Bytes → Log → Option (Log × Bytes)
mod_log_on_abort m log =
    let dropped = rev_onto (buffers log.entries) [] in
    if log.allocated == length dropped
    then some (record log { allocated = 0; freed = log.freed ++ dropped }, undo log.entries m)
    else none

-- The loop of mod_log_on_commit: what it frees, or `none` when its assertion fails.
unfoldable pub drop_buffers : List Entry → ℕ → List ℕ → Option (List ℕ)
drop_buffers es zero freed = some freed
drop_buffers [] (suc n) freed = none
drop_buffers (e ∷ es) (suc n) freed =
    drop_buffers es (if is_bytes e.kind then n else suc n)
      (if is_bytes e.kind then freed ++ (e.buffer ∷ []) else freed)

unfoldable pub mod_log_on_commit : Log → Option Log
mod_log_on_commit log = elim (drop_buffers log.entries log.allocated log.freed) [
  | none ↦ none
  | some freed ↦ some (record log { entries = []; allocated = 0; freed = freed })
]

-- mod_log_on_thread_init
unfoldable pub mod_log_on_thread_init : Log
mod_log_on_thread_init = record { entries = []; size = 0; allocated = 0; freed = [] }
