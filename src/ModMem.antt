-- ===== src/ModMem.antt =====
-- Dynamic memory in transactions, tinySTM/src/mod_mem.c (without EPOCH_GC). What malloc gives is an
-- argument of each call; the calls of free are recorded.
pub mod Balance
pub mod Size
pub mod Cover
use tiny_stm_reval.Prelude.{
  [], ℕ, zero, suc, ◌+◌, ◌*◌, ◌/◌, ◌%◌, ◌^◌, Bool, true, false, Option, none, some, List, ◌∷◌, ◌++◌,
  ltb, if◌then◌else◌,
}
use tiny_stm_reval.Machine.{Env}
use tiny_stm_reval.Descriptor.{State, Exit, returned, exited, and_then}
use tiny_stm_reval.Write.{stm_store2}

-- `mod_mem_block_t`: the address of the block itself, and the memory that it names.
pub record Block : Type 0 where
  pub node : ℕ
  pub addr : ℕ

-- `mod_mem_info_t`, with the calls of free so far.
pub record Info : Type 0 where
  pub allocated : List Block
  pub freed : List Block
  pub frees : List ℕ

-- `(size + 7) & ~(size_t)0x07`
unfoldable pub round_size : ℕ → ℕ
round_size size = (size + 7) % 2 ^ 64 / 8 * 8

-- stm_malloc: `node` is what the first malloc gives, and `malloc` answers the second.
unfoldable pub stm_malloc : Option ℕ → (ℕ → Option ℕ) → ℕ → Info → Option (ℕ × Info)
stm_malloc none malloc size mi = none
stm_malloc (some node) malloc size mi = elim (malloc (round_size size)) [
  | none ↦ none
  | some addr ↦
      some (addr, record mi { allocated = record { node = node; addr = addr } ∷ mi.allocated })
]

-- The end of stm_free2: the memory is scheduled for removal.
unfoldable pub schedule_free : Option ℕ → ℕ → Info → Option Info
schedule_free none addr mi = none
schedule_free (some node) addr mi =
    some (record mi { freed = record { node = node; addr = addr } ∷ mi.freed })

-- `while (size-- > 0) stm_store2(a++, 0, 0)`, with `size` in words.
unfoldable pub lock_words : Env → ℕ → ℕ → State → Exit (Unit {0}) × State
lock_words env a zero s = (returned tt, s)
lock_words env a (suc n) s = and_then (stm_store2 env a 0 0 s) (λ _ s'. lock_words env (a + 8) n s')

-- The first word that stm_free2 overwrites, and the number of words.
unfoldable pub first_word : ℕ → ℕ → ℕ
first_word addr idx = addr + (idx + 7) % 2 ^ 64 / 8 * 8

unfoldable pub word_count : ℕ → ℕ
word_count size = (size + 7) % 2 ^ 64 / 8

unfoldable pub stm_free2 : Env → Option ℕ → (addr idx size : ℕ) → State → Info → Exit Info × State
stm_free2 env node addr idx size s mi =
    and_then
      (if ltb 0 size
        then lock_words env (first_word addr idx) (word_count size) s
        else (returned tt, s))
      (λ _ s'. elim (schedule_free node addr mi) [
        | none ↦ (exited, s')
        | some mi' ↦ (returned mi', s')
      ])

unfoldable pub stm_free : Env → Option ℕ → (addr size : ℕ) → State → Info → Exit Info × State
stm_free env node addr size s mi = stm_free2 env node addr 0 size s mi

-- The loop over a list that frees the blocks and keeps the memory.
unfoldable pub free_nodes : List Block → List ℕ
free_nodes [] = []
free_nodes (b ∷ bs) = b.node ∷ free_nodes bs

-- The loop over a list that frees the memory and the blocks.
unfoldable pub free_all : List Block → List ℕ
free_all [] = []
free_all (b ∷ bs) = b.addr ∷ b.node ∷ free_all bs

unfoldable pub mod_mem_on_commit : Info → Info
mod_mem_on_commit mi = record {
  allocated = [];
  freed = [];
  frees = (mi.frees ++ free_nodes mi.allocated) ++ free_all mi.freed;
}

unfoldable pub mod_mem_on_abort : Info → Info
mod_mem_on_abort mi = record {
  allocated = [];
  freed = [];
  frees = (mi.frees ++ free_all mi.allocated) ++ free_nodes mi.freed;
}

-- mod_mem_on_thread_init: what malloc gives is not NULL.
unfoldable pub mod_mem_on_thread_init : Bool → Option Info
mod_mem_on_thread_init false = none
mod_mem_on_thread_init true = some (record { allocated = []; freed = []; frees = [] })
