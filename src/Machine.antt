-- ===== src/Machine.antt =====
-- What the threads of a program share (tinySTM/src/stm.c: memory, `locks`, `gclock`, `quiesce`), and
-- one thread's atomic accesses to it. Before each access the other threads may change anything, as
-- the environment says.
use tiny_stm_reval.Prelude.{ℕ, suc, Bool, ◌==◌, if◌then◌else◌, Option, List}
use tiny_stm_reval.Word.{add_word}

pub record Shared : Type 0 where
  pub mem : ℕ → ℕ  -- the word at an address
  pub lock : ℕ → ℕ  -- the entries of `locks`
  pub clock : ℕ  -- CLOCK
  pub quiesce : ℕ

-- A registered callback: its function and its argument, as pointers.
abbrev pub Callback : Type 0
Callback = ℕ × ℕ

pub record Callbacks : Type 0 where
  pub on_init : List Callback
  pub on_exit : List Callback
  pub on_start : List Callback
  pub on_commit : List Callback
  pub on_abort : List Callback

-- What a thread does not control: the other threads, the C allocator (a pointer and a size in
-- bytes to the new pointer, `none` for NULL), what the fields `value` and `version` of an entry of
-- the write set that is not in use hold before an access, and the rounds after which a loop that
-- waits for another thread is given up. The callback tables do not change after start-up.
pub record Env : Type 0 where
  pub interfere : ℕ → Shared → Shared
  pub realloc : ℕ → ℕ → Option ℕ
  pub stale : ℕ → ℕ × ℕ
  pub spins : ℕ
  pub callbacks : Callbacks

-- The shared state and the number of accesses made so far.
pub record World : Type 0 where
  pub shared : Shared
  pub now : ℕ

-- The other threads run.
unfoldable pub tick : Env → World → World
tick env w = record { shared = env.interfere w.now w.shared; now = suc w.now }

abbrev pub update : (ℕ → ℕ) → ℕ → ℕ → ℕ → ℕ
update f i v j = if i == j then v else f j

-- The shared state after a store, to memory, to a lock, and to the clock.
abbrev pub put_mem : ℕ → ℕ → World → World
put_mem a v w = let s = w.shared in record w { shared = record s { mem = update s.mem a v } }

abbrev pub put_lock : ℕ → ℕ → World → World
put_lock j v w = let s = w.shared in record w { shared = record s { lock = update s.lock j v } }

abbrev pub put_clock : ℕ → World → World
put_clock c w = let s = w.shared in record w { shared = record s { clock = c } }

-- ATOMIC_STORE to a memory word, and to a lock
unfoldable pub store_mem : Env → ℕ → ℕ → World → World
store_mem env a v w = put_mem a v (tick env w)

unfoldable pub store_lock : Env → ℕ → ℕ → World → World
store_lock env j v w = put_lock j v (tick env w)

-- FETCH_INC_CLOCK: the old value, and the world after
unfoldable pub fetch_inc_clock : Env → World → ℕ × World
fetch_inc_clock env w =
    let w' = tick env w in (w'.shared.clock, put_clock (add_word w'.shared.clock 1) w')

-- ATOMIC_CAS_FULL on a lock
unfoldable pub cas_lock : Env → ℕ → ℕ → ℕ → World → Bool × World
cas_lock env j old new w =
    let w' = tick env w in
    (w'.shared.lock j == old, if w'.shared.lock j == old then put_lock j new w' else w')
