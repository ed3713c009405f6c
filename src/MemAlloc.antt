-- ===== src/MemAlloc.antt =====
-- The node allocator of TPCC/Server/core/nbblist.c: a bitmap of words of 64 bits in which many
-- threads take and give back nodes, without a lock. A call is a state of its thread, and one step
-- makes one access to shared memory.
pub mod Bitmap
pub mod Threads
pub mod Held
pub mod Sizes
use tiny_stm_reval.Prelude.{
  ℕ, zero, suc, ◌+◌, ◌-◌, ◌*◌, ◌/◌, ◌%◌, ◌^◌, bit_and, bit_or, ◌&&◌, Option, none, some, ltb, ◌==◌,
  if◌then◌else◌, length,
}
use tiny_stm_reval.Word.{word_max, add_word, sub_word, complement}
use tiny_stm_reval.Machine.{update}

-- mem_alloc_t; a node is its index in `base`, and `payload` has what the nodes hold
pub record MemAlloc : Type 0 where
  pub payload : ℕ → ℕ
  pub busymap : ℕ → ℕ
  pub nalloc : ℕ
  pub length : ℕ
  pub length_pow2 : ℕ
  pub busymap_length : ℕ

-- `64 - __builtin_clzl(x)`: the digits of x, of which there are at most `n`
unfoldable pub bit_length : ℕ → ℕ → ℕ
bit_length zero x = 0
bit_length (suc n) x = let rest = bit_length n (x / 2) in if x == 0 then 0 else suc rest

-- `__builtin_ffsl(x)`: one more than the index of the lowest 1 among n digits
unfoldable pub ffsl : ℕ → ℕ → ℕ
ffsl zero x = 0
ffsl (suc n) x = let rest = ffsl n (x / 2) in if x % 2 == 1 then 1 else suc rest

-- mem_alloc_init, with what malloc leaves in `nalloc`
unfoldable pub mem_alloc_init : ℕ → ℕ → MemAlloc
mem_alloc_init junk length =
    let length_pow2 = 2 ^ bit_length 64 length % 2 ^ 64 in
    record {
      payload = λ id. 0;
      busymap = update (λ b. 0) 0 (bit_or 0 1);
      nalloc = junk;
      length = length;
      length_pow2 = length_pow2;
      busymap_length = length_pow2 / 64 + (if length_pow2 % 64 == 0 then 0 else 1);
    }

-- Where a thread stands in mem_node_acquire or mem_node_release. `acquired` has the node, or none
-- for NULL.
pub data Pc : Type 0 where
  idle : Pc
  acquire_read : ℕ → ℕ → Pc
  acquire_swap : ℕ → ℕ → ℕ → Pc
  acquire_store : ℕ → ℕ → Pc
  acquire_count : ℕ → Pc
  acquired : Option ℕ → Pc
  release_read : ℕ → Pc
  release_load : ℕ → ℕ → Pc
  release_swap : ℕ → ℕ → ℕ → Pc
  release_clear : ℕ → ℕ → Pc
  release_count : ℕ → Pc
  released : Option ℕ → Pc

-- The bit that mem_node_acquire tries in a chunk.
unfoldable pub free_pos : ℕ → ℕ
free_pos oldchunk = ffsl 64 (complement oldchunk) - 1

-- The tests on the chunk that mem_node_acquire has loaded.
unfoldable pub acquire_look : ℕ → ℕ → ℕ → Pc
acquire_look payload b oldchunk =
    if oldchunk == word_max
    then acquire_read payload (suc b)
    else if (b == 0) && (free_pos oldchunk == 0)
    then acquire_read payload (suc b)
    else acquire_swap payload b oldchunk

unfoldable pub acquire_newchunk : ℕ → ℕ
acquire_newchunk oldchunk = bit_or oldchunk (2 ^ free_pos oldchunk)

unfoldable pub release_newchunk : ℕ → ℕ → ℕ
release_newchunk id oldchunk = bit_and oldchunk (complement (2 ^ (id % 64)))

unfoldable pub set_chunk : ℕ → ℕ → MemAlloc → MemAlloc
set_chunk b chunk a = record a { busymap = update a.busymap b chunk }

-- The next access of a call.
unfoldable pub advance : MemAlloc → Pc → MemAlloc × Pc
advance a idle = (a, idle)
advance a (acquire_read payload b) =
    if ltb b a.busymap_length then (a, acquire_look payload b (a.busymap b)) else (a, acquired none)
advance a (acquire_swap payload b oldchunk) =
    if a.busymap b == oldchunk
    then (
      set_chunk b (acquire_newchunk oldchunk) a,
      acquire_store payload (b * 8 * 8 + free_pos oldchunk),
    )
    else (a, acquire_read payload 0)
advance a (acquire_store payload id) =
    (record a { payload = update a.payload id payload }, acquire_count id)
advance a (acquire_count id) = (record a { nalloc = add_word a.nalloc 1 }, acquired (some id))
advance a (acquired o) = (a, acquired o)
advance a (release_read id) =
    if bit_and (a.busymap (id / 64)) (2 ^ (id % 64)) == 0
    then (a, released none)
    else (a, release_load id (a.busymap (id / 64)))
advance a (release_load id oldchunk) = (a, release_swap id oldchunk (a.payload id))
advance a (release_swap id oldchunk payload) =
    if a.busymap (id / 64) == oldchunk
    then (set_chunk (id / 64) (release_newchunk id oldchunk) a, release_clear id payload)
    else (a, release_read id)
advance a (release_clear id payload) =
    if a.payload id == payload
    then (record a { payload = update a.payload id 0 }, release_count payload)
    else (a, release_count (a.payload id))
advance a (release_count payload) =
    (record a { nalloc = sub_word a.nalloc 1 }, released (some payload))
advance a (released o) = (a, released o)

-- What happens to a node at the access at which a call takes effect: it is taken, it is given
-- back, or it is found to be free already.
pub data Event : Type 0 where
  taken : ℕ → Event
  given_back : ℕ → Event
  was_free : ℕ → Event

unfoldable pub effect : MemAlloc → Pc → Option Event
effect a (acquire_swap payload b oldchunk) =
    if a.busymap b == oldchunk then some (taken (b * 8 * 8 + free_pos oldchunk)) else none
effect a (release_read id) =
    if bit_and (a.busymap (id / 64)) (2 ^ (id % 64)) == 0 then some (was_free id) else none
effect a (release_swap id oldchunk payload) =
    if a.busymap (id / 64) == oldchunk then some (given_back id) else none
effect a other = none
