-- ===== src/Descriptor.antt =====
-- The transaction descriptor `stm_tx_t` of tinySTM/include/stm.h and its parts, in the default
-- configuration (WRITE_BACK_CTL, CM_SUICIDE, INTERNAL_STATS).
use tiny_stm_reval.Prelude.{
  ℕ, ◌+◌, ◌-◌, ◌*◌, ◌/◌, Bool, true, false, ◌&&◌, leb, ltb, Option, List, length, get_elem?,
}
use tiny_stm_reval.Machine.{World, Callback}

-- The status enumeration; the lowest bit is set in the active ones.
pub data Status : Type 0 where
  idle active committed aborted committing aborting killed irrevocable : Status

-- IS_ACTIVE
unfoldable pub is_active : Status → Bool
is_active Status.idle = false
is_active Status.committed = false
is_active Status.aborted = false
is_active _ = true

-- `stm_tx_attr_t`
pub record Attr : Type 0 where
  pub id : ℕ
  pub read_only : Bool
  pub no_retry : Bool

-- `r_entry_t`; a lock is named by its index in `locks`
pub record ReadEntry : Type 0 where
  pub version : ℕ
  pub lock : ℕ

-- `w_entry_t`
pub record WriteEntry : Type 0 where
  pub addr : ℕ
  pub value : ℕ
  pub mask : ℕ
  pub version : ℕ
  pub lock : ℕ
  pub no_drop : Bool

-- `r_set_t`: `nb_entries` is the length of `entries`
pub record ReadSet : Type 0 where
  pub base : ℕ
  pub entries : List ReadEntry
  pub size : ℕ

-- `w_set_t`, the same; `base` is the address of the first entry
pub record WriteSet : Type 0 where
  pub base : ℕ
  pub entries : List WriteEntry
  pub size : ℕ
  pub nb_acquired : ℕ

-- The counters of INTERNAL_STATS.
pub record Stats : Type 0 where
  pub retries : ℕ
  pub aborts : ℕ
  pub aborts_1 : ℕ
  pub aborts_2 : ℕ
  pub aborts_ro : ℕ
  pub aborts_locked_read : ℕ
  pub aborts_locked_write : ℕ
  pub aborts_validate_read : ℕ
  pub aborts_validate_write : ℕ
  pub aborts_validate_commit : ℕ
  pub aborts_invalid_memory : ℕ
  pub max_retries : ℕ

pub record Tx : Type 0 where
  pub attr : Option Attr
  pub status : Status
  pub start : ℕ
  pub end_ : ℕ
  pub r_set : ReadSet
  pub w_set : WriteSet
  pub ro : Bool
  pub can_extend : Bool
  pub nesting : ℕ
  pub stats : Stats

-- A thread: its descriptor, what it shares, and the callbacks that it has called so far.
pub record State : Type 0 where
  pub tx : Tx
  pub world : World
  pub calls : List Callback

-- How a call ends: it returns, jumps back to the start of the transaction with a reason
-- (siglongjmp), calls exit(1), or still waits for another thread when its rounds are used up.
pub data Exit (A : Type 0) : Type 0 where
  returned : A → Exit A
  jumped : ℕ → Exit A
  exited : Exit A
  spinning : Exit A

-- What follows a call, if it returns.
unfoldable pub and_then :
    {A B : Type 0} → Exit A × State → (A → State → Exit B × State) → Exit B × State
and_then (returned a, s) f = f a s
and_then (jumped r, s) f = (jumped r, s)
and_then (exited, s) f = (exited, s)
and_then (spinning, s) f = (spinning, s)

-- sizeof(w_entry_t) and sizeof(r_entry_t)
abbrev pub w_entry_size : ℕ
w_entry_size = 64

abbrev pub r_entry_size : ℕ
r_entry_size = 16

-- The address of entry `i` of a write set.
abbrev pub w_entry_ptr : WriteSet → ℕ → ℕ
w_entry_ptr ws i = ws.base + i * w_entry_size

-- `entries <= w && w < entries + nb_entries`
unfoldable pub in_write_set : WriteSet → ℕ → Bool
in_write_set ws p = leb ws.base p && ltb p (w_entry_ptr ws (length ws.entries))

-- `*w`, for a pointer into the write set
unfoldable pub w_entry_at : WriteSet → ℕ → Option WriteEntry
w_entry_at ws p = get_elem? ws.entries ((p - ws.base) / w_entry_size)
