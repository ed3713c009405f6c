-- ===== src/Wrappers.antt =====
-- tinySTM/src/wrappers.c: loads and stores of values that are smaller than a word or not aligned
-- to one, by stm_load, stm_store and stm_store2 of whole words. A word has 8 bytes, the lowest
-- first. A union is the function from an index to the byte there; signed and floating values are
-- their bits. Addresses do not wrap.
pub mod Bytes
pub mod Store
pub mod Written
pub mod Load
pub mod RoundTrip
pub mod Typed
pub mod Types
pub mod Fill
use tiny_stm_reval.Prelude.{
  [], ℕ, zero, suc, ◌+◌, ◌-◌, ◌*◌, ◌/◌, ◌%◌, ◌^◌, Option, List, ◌∷◌, ◌++◌, ltb, ◌==◌, if◌then◌else◌,
  length,
}
use tiny_stm_reval.Word.{word_max}
use tiny_stm_reval.Machine.{Env, update}
use tiny_stm_reval.Descriptor.{WriteEntry, State, Exit, returned, and_then}
use tiny_stm_reval.Read.{stm_load}
use tiny_stm_reval.Write.{stm_store, stm_store2}

-- The byte at an index of a number.
unfoldable pub byte_of : ℕ → ℕ → ℕ
byte_of w i = w / 2 ^ (8 * i) % 2 ^ 8

-- The word of a union, `val.w` or `val.u64`.
unfoldable pub word_of : (ℕ → ℕ) → ℕ
word_of b =
    b 0
    + 2 ^ 8 * b 1
    + 2 ^ 16 * b 2
    + 2 ^ 24 * b 3
    + 2 ^ 32 * b 4
    + 2 ^ 40 * b 5
    + 2 ^ 48 * b 6
    + 2 ^ 56 * b 7

abbrev pub zeros : ℕ → ℕ
zeros i = 0

-- n bytes of a union from an index on, and a store of bytes there.
unfoldable pub byte_run : (ℕ → ℕ) → ℕ → ℕ → List ℕ
byte_run b i zero = []
byte_run b i (suc n) = b i ∷ byte_run b (suc i) n

unfoldable pub put_run : (ℕ → ℕ) → ℕ → List ℕ → ℕ → ℕ
put_run b i [] = b
put_run b i (x ∷ xs) = put_run (update b i x) (suc i) xs

unfoldable pub replicate : ℕ → ℕ → List ℕ
replicate zero x = []
replicate (suc n) x = x ∷ replicate n x

unfoldable pub take : ℕ → List ℕ → List ℕ
take zero xs = []
take (suc n) [] = []
take (suc n) (x ∷ xs) = x ∷ take n xs

unfoldable pub drop : ℕ → List ℕ → List ℕ
drop zero xs = xs
drop (suc n) [] = []
drop (suc n) (x ∷ xs) = drop n xs

-- The n bytes of a value in memory, and the value of bytes.
unfoldable pub byte_list : ℕ → ℕ → List ℕ
byte_list n v = byte_run (byte_of v) 0 n

unfoldable pub from_bytes : List ℕ → ℕ
from_bytes [] = 0
from_bytes (x ∷ xs) = x + 2 ^ 8 * from_bytes xs

-- The rounds of `for (; i < sizeof(stm_word_t) && size > 0; i++, size--)`.
unfoldable pub first_count : ℕ → ℕ → ℕ
first_count i size = if ltb (8 - i) size then 8 - i else size

-- `while (size >= sizeof(stm_word_t))`, for the number of its rounds
unfoldable pub load_words : Env → ℕ → ℕ → State → Exit (List ℕ) × State
load_words env zero a s = (returned [], s)
load_words env (suc k) a s =
    and_then (stm_load env a s) (λ w t.
      and_then (load_words env k (a + 8) t) (λ rest u. (returned (byte_list 8 w ++ rest), u)))

unfoldable pub load_last : Env → ℕ → ℕ → State → Exit (List ℕ) × State
load_last env a size s =
    if ltb 0 size
    then and_then (stm_load env a s) (λ w t. (returned (byte_run (byte_of w) 0 size), t))
    else (returned [], s)

-- Full words and last bytes.
unfoldable pub load_rest : Env → ℕ → ℕ → State → Exit (List ℕ) × State
load_rest env a size s = and_then (load_words env (size / 8) a s) (λ words t.
    and_then (load_last env (a + 8 * (size / 8)) (size % 8) t)
      (λ last u. (returned (words ++ last), u)))

-- stm_load_bytes, with the bytes that it leaves in `buf`
unfoldable pub stm_load_bytes : Env → ℕ → ℕ → State → Exit (List ℕ) × State
stm_load_bytes env addr size s =
    let i = addr % 8 in
    let n = first_count i size in
    if size == 0
    then (returned [], s)
    else if i == 0
    then load_rest env addr size s
    else and_then (stm_load env (addr - i) s) (λ w t.
      and_then (load_rest env (addr - i + 8) (size - n) t)
        (λ rest u. (returned (byte_run (byte_of w) i n ++ rest), u)))

unfoldable pub stm_load_u8 : Env → ℕ → State → Exit ℕ × State
stm_load_u8 env addr s =
    and_then (stm_load env (addr - addr % 8) s) (λ w t. (returned (byte_of w (addr % 8)), t))

-- A value of bytes that stm_load_bytes fills in.
unfoldable pub load_value : Env → ℕ → ℕ → State → Exit ℕ × State
load_value env addr size s =
    and_then (stm_load_bytes env addr size s) (λ buf t. (returned (from_bytes buf), t))

unfoldable pub stm_load_u16 : Env → ℕ → State → Exit ℕ × State
stm_load_u16 env addr s =
    if addr % 2 == 0
    then and_then (stm_load env (addr - addr % 8) s)
        (λ w t. (returned (from_bytes (byte_run (byte_of w) (2 * (addr % 8 / 2)) 2)), t))
    else load_value env addr 2 s

unfoldable pub stm_load_u32 : Env → ℕ → State → Exit ℕ × State
stm_load_u32 env addr s =
    if addr % 4 == 0
    then and_then (stm_load env (addr - addr % 8) s)
        (λ w t. (returned (from_bytes (byte_run (byte_of w) (4 * (addr % 8 / 4)) 4)), t))
    else load_value env addr 4 s

unfoldable pub stm_load_u64 : Env → ℕ → State → Exit ℕ × State
stm_load_u64 env addr s =
    if addr % 8 == 0
    then and_then (stm_load env addr s) (λ w t. (returned (w % 2 ^ 64), t))
    else load_value env addr 8 s

-- A store's end: the entry that stm_store and stm_store2 leave is not looked at.
unfoldable pub stored : Exit (Option WriteEntry) × State → Exit (Unit {0}) × State
stored p = and_then p (λ e t. (returned tt, t))

-- A store of the bytes xs into a word from index i on: `val` holds them over what it held before,
-- and `mask` has 0xFF there.
unfoldable pub store_run : Env → (ℕ → ℕ) → ℕ → ℕ → List ℕ → State → Exit (Unit {0}) × State
store_run env val a i xs s = stored (
    stm_store2 env a (word_of (put_run val i xs))
      (word_of (put_run zeros i (replicate (length xs) 0xff))) s)

unfoldable pub store_words : Env → ℕ → ℕ → List ℕ → State → Exit (Unit {0}) × State
store_words env zero a buf s = (returned tt, s)
store_words env (suc k) a buf s =
    and_then (stored (stm_store env a (word_of (put_run zeros 0 (take 8 buf))) s))
      (λ u t. store_words env k (a + 8) (drop 8 buf) t)

unfoldable pub store_last : Env → ℕ → List ℕ → State → Exit (Unit {0}) × State
store_last env a buf s =
    if ltb 0 (length buf) then store_run env zeros a 0 buf s else (returned tt, s)

unfoldable pub store_rest : Env → ℕ → List ℕ → State → Exit (Unit {0}) × State
store_rest env a buf s =
    let k = length buf / 8 in
    and_then (store_words env k a buf s) (λ u t. store_last env (a + 8 * k) (drop (8 * k) buf) t)

-- stm_store_bytes, with the bytes of `buf`
unfoldable pub stm_store_bytes : Env → ℕ → List ℕ → State → Exit (Unit {0}) × State
stm_store_bytes env addr buf s =
    let i = addr % 8 in
    let n = first_count i (length buf) in
    if length buf == 0
    then (returned tt, s)
    else if i == 0
    then store_rest env addr buf s
    else and_then (store_run env zeros (addr - i) i (take n buf) s)
        (λ u t. store_rest env (addr - i + 8) (drop n buf) t)

-- The members of a union: `val.u8[k] = v` and so on. `junk` is what the union held before.
unfoldable pub stm_store_u8 : Env → (ℕ → ℕ) → ℕ → ℕ → State → Exit (Unit {0}) × State
stm_store_u8 env junk addr value s =
    store_run env junk (addr - addr % 8) (addr % 8) (byte_list 1 value) s

unfoldable pub stm_store_u16 : Env → (ℕ → ℕ) → ℕ → ℕ → State → Exit (Unit {0}) × State
stm_store_u16 env junk addr value s =
    if addr % 2 == 0
    then store_run env junk (addr - addr % 8) (2 * (addr % 8 / 2)) (byte_list 2 value) s
    else stm_store_bytes env addr (byte_list 2 value) s

unfoldable pub stm_store_u32 : Env → (ℕ → ℕ) → ℕ → ℕ → State → Exit (Unit {0}) × State
stm_store_u32 env junk addr value s =
    if addr % 4 == 0
    then store_run env junk (addr - addr % 8) (4 * (addr % 8 / 4)) (byte_list 4 value) s
    else stm_store_bytes env addr (byte_list 4 value) s

unfoldable pub stm_store_u64 : Env → ℕ → ℕ → State → Exit (Unit {0}) × State
stm_store_u64 env addr value s =
    if addr % 8 == 0
    then stored (stm_store env addr value s)
    else stm_store_bytes env addr (byte_list 8 value) s

-- stm_set_bytes: `val` has the byte everywhere, and `mask` has 0xFF at the n indices from i on.
unfoldable pub set_run : Env → ℕ → ℕ → ℕ → ℕ → State → Exit (Unit {0}) × State
set_run env byte a i n s =
    stored (stm_store2 env a (word_of (λ j. byte)) (word_of (put_run zeros i (replicate n 0xff))) s)

unfoldable pub set_words : Env → ℕ → ℕ → ℕ → State → Exit (Unit {0}) × State
set_words env byte zero a s = (returned tt, s)
set_words env byte (suc k) a s =
    and_then (stored (stm_store env a (word_of (λ j. byte)) s))
      (λ u t. set_words env byte k (a + 8) t)

unfoldable pub set_last : Env → ℕ → ℕ → ℕ → State → Exit (Unit {0}) × State
set_last env byte a count s = if ltb 0 count then set_run env byte a 0 count s else (returned tt, s)

unfoldable pub set_rest : Env → ℕ → ℕ → ℕ → State → Exit (Unit {0}) × State
set_rest env byte a count s =
    and_then (set_words env byte (count / 8) a s)
      (λ u t. set_last env byte (a + 8 * (count / 8)) (count % 8) t)

unfoldable pub stm_set_bytes : Env → ℕ → ℕ → ℕ → State → Exit (Unit {0}) × State
stm_set_bytes env addr byte count s =
    let i = addr % 8 in
    let n = first_count i count in
    if count == 0
    then (returned tt, s)
    else if i == 0
    then set_rest env byte addr count s
    else and_then (set_run env byte (addr - i) i n s)
        (λ u t. set_rest env byte (addr - i + 8) (count - n) t)
