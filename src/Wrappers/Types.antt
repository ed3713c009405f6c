-- ===== src/Wrappers/Types.antt =====
-- The loads and stores of the C types, by those of their widths (tinySTM/src/wrappers.c). A signed or
-- floating value is its bits, and `long` has 8 bytes.
use tiny_stm_reval.Prelude.{ℕ}
use tiny_stm_reval.Machine.{Env}
use tiny_stm_reval.Descriptor.{State, Exit}
use tiny_stm_reval.Read.{stm_load}
use tiny_stm_reval.Write.{stm_store}
use tiny_stm_reval.Wrappers.{
  stm_load_u8, stm_load_u16, stm_load_u32, stm_load_u64, stored, stm_store_u8, stm_store_u16,
  stm_store_u32, stm_store_u64,
}

unfoldable pub stm_load_char : Env → ℕ → State → Exit ℕ × State
stm_load_char env addr s = stm_load_u8 env addr s

unfoldable pub stm_load_uchar : Env → ℕ → State → Exit ℕ × State
stm_load_uchar env addr s = stm_load_u8 env addr s

unfoldable pub stm_load_short : Env → ℕ → State → Exit ℕ × State
stm_load_short env addr s = stm_load_u16 env addr s

unfoldable pub stm_load_ushort : Env → ℕ → State → Exit ℕ × State
stm_load_ushort env addr s = stm_load_u16 env addr s

unfoldable pub stm_load_int : Env → ℕ → State → Exit ℕ × State
stm_load_int env addr s = stm_load_u32 env addr s

unfoldable pub stm_load_uint : Env → ℕ → State → Exit ℕ × State
stm_load_uint env addr s = stm_load_u32 env addr s

unfoldable pub stm_load_long : Env → ℕ → State → Exit ℕ × State
stm_load_long env addr s = stm_load_u64 env addr s

unfoldable pub stm_load_ulong : Env → ℕ → State → Exit ℕ × State
stm_load_ulong env addr s = stm_load_u64 env addr s

unfoldable pub stm_load_float : Env → ℕ → State → Exit ℕ × State
stm_load_float env addr s = stm_load_u32 env addr s

unfoldable pub stm_load_double : Env → ℕ → State → Exit ℕ × State
stm_load_double env addr s = stm_load_u64 env addr s

unfoldable pub stm_load_ptr : Env → ℕ → State → Exit ℕ × State
stm_load_ptr env addr s = stm_load env addr s

unfoldable pub stm_store_char : Env → (ℕ → ℕ) → ℕ → ℕ → State → Exit (Unit {0}) × State
stm_store_char env junk addr value s = stm_store_u8 env junk addr value s

unfoldable pub stm_store_uchar : Env → (ℕ → ℕ) → ℕ → ℕ → State → Exit (Unit {0}) × State
stm_store_uchar env junk addr value s = stm_store_u8 env junk addr value s

unfoldable pub stm_store_short : Env → (ℕ → ℕ) → ℕ → ℕ → State → Exit (Unit {0}) × State
stm_store_short env junk addr value s = stm_store_u16 env junk addr value s

unfoldable pub stm_store_ushort : Env → (ℕ → ℕ) → ℕ → ℕ → State → Exit (Unit {0}) × State
stm_store_ushort env junk addr value s = stm_store_u16 env junk addr value s

unfoldable pub stm_store_int : Env → (ℕ → ℕ) → ℕ → ℕ → State → Exit (Unit {0}) × State
stm_store_int env junk addr value s = stm_store_u32 env junk addr value s

unfoldable pub stm_store_uint : Env → (ℕ → ℕ) → ℕ → ℕ → State → Exit (Unit {0}) × State
stm_store_uint env junk addr value s = stm_store_u32 env junk addr value s

unfoldable pub stm_store_float : Env → (ℕ → ℕ) → ℕ → ℕ → State → Exit (Unit {0}) × State
stm_store_float env junk addr value s = stm_store_u32 env junk addr value s

unfoldable pub stm_store_long : Env → ℕ → ℕ → State → Exit (Unit {0}) × State
stm_store_long env addr value s = stm_store_u64 env addr value s

unfoldable pub stm_store_ulong : Env → ℕ → ℕ → State → Exit (Unit {0}) × State
stm_store_ulong env addr value s = stm_store_u64 env addr value s

unfoldable pub stm_store_double : Env → ℕ → ℕ → State → Exit (Unit {0}) × State
stm_store_double env addr value s = stm_store_u64 env addr value s

unfoldable pub stm_store_ptr : Env → ℕ → ℕ → State → Exit (Unit {0}) × State
stm_store_ptr env addr value s = stored (stm_store env addr value s)
