-- ===== src/Word.antt =====
-- The words of tinySTM/src/stm.c: lock words, time stamps, masks and the hash from an address to
-- its lock, at 64 bits and with one lock bit (invisible reads).
pub mod Bits
pub mod Digits
use tiny_stm_reval.Prelude.{
  ℕ, ◌+◌, ◌-◌, ◌*◌, ◌/◌, ◌%◌, ◌^◌, Bool, ltb, ◌==◌, if◌then◌else◌, bit_and, bit_or,
}

-- `~(stm_word_t)0`, also LOCK_UNIT
abbrev pub word_max : ℕ
word_max = 2 ^ 64 - 1

abbrev pub lock_unit : ℕ
lock_unit = word_max

-- VERSION_MAX: the largest time stamp, less a margin for MAX_THREADS
abbrev pub version_max : ℕ
version_max = word_max / 2 - 8192

-- unsigned addition
unfoldable pub add_word : ℕ → ℕ → ℕ
add_word a b = (a + b) % 2 ^ 64

unfoldable pub sub_word : ℕ → ℕ → ℕ
sub_word a b = (a + 2 ^ 64 - b) % 2 ^ 64

-- LOCK_GET_OWNED, which is also LOCK_GET_WRITE
unfoldable pub get_owned : ℕ → Bool
get_owned l = l % 2 == 1

-- LOCK_GET_TIMESTAMP
unfoldable pub get_timestamp : ℕ → ℕ
get_timestamp l = l / 2

-- LOCK_SET_TIMESTAMP
unfoldable pub set_timestamp : ℕ → ℕ
set_timestamp t = t * 2 % 2 ^ 64

-- LOCK_SET_ADDR_WRITE: `a | 1`
unfoldable pub set_addr_write : ℕ → ℕ
set_addr_write a = a - a % 2 + 1

-- LOCK_GET_ADDR: `l & ~1`
unfoldable pub get_addr : ℕ → ℕ
get_addr l = l - l % 2

-- LOCK_IDX: the index in `locks` of the lock that covers an address
unfoldable pub lock_idx : ℕ → ℕ
lock_idx a = a / 2 ^ 5 % 2 ^ 20

-- `~m`
unfoldable pub complement : ℕ → ℕ
complement m = word_max - m

-- `(old & ~mask) | (new & mask)`
unfoldable pub merge : ℕ → ℕ → ℕ → ℕ
merge mask old new = bit_or (bit_and old (complement mask)) (bit_and new mask)

-- `size *= 2` on a C int of 32 bits that wraps around, and the conversion of the int to size_t, which
-- extends its sign.
unfoldable pub double_int : ℕ → ℕ
double_int size = size * 2 % 2 ^ 32

unfoldable pub int_to_size_t : ℕ → ℕ
int_to_size_t size = if ltb size (2 ^ 31) then size else size + (2 ^ 64 - 2 ^ 32)
