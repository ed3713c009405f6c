-- ===== src/Wrappers/Typed.antt =====
-- A value that is stored and loaded again in one width (tinySTM/src/wrappers.c).
use tiny_stm_reval.Prelude.{
  ℕ, zero, suc, ◌+◌, ◌-◌, ◌*◌, ◌/◌, ◌%◌, ◌^◌, ◌≤◌, ◌<◌, ◌≡◌, refl, sym, ap, ◌∙◌, inl, inr, false,
  Option, List, arith, ◌==◌, ==_iff, Bool-cases, length,
}
use native.Mathlib.Nat.{mod-eq_of_lt}
use mathlib.Core.Path.{subst}
use tiny_stm_reval.Word.{word_max}
use tiny_stm_reval.Machine.{Env}
use tiny_stm_reval.Descriptor.{
  Attr, WriteEntry, State, Exit, returned, jumped, exited, spinning, and_then,
}
use tiny_stm_reval.Restart.{no_retry}
use tiny_stm_reval.Read.{stm_load}
use tiny_stm_reval.Read.Frame.{Keeps}
use tiny_stm_reval.Write.{stm_store}
use tiny_stm_reval.Wrappers.{
  byte_of, word_of, zeros, byte_run, put_run, byte_list, from_bytes, load_value, stm_load_bytes,
  stm_load_u8, stm_load_u16, stm_load_u32, stm_load_u64, stored, store_run, stm_store_u8,
  stm_store_u16, stm_store_u32, stm_store_u64,
}
use tiny_stm_reval.Wrappers.Bytes.{AreBytes, byte_of-AreBytes}
use tiny_stm_reval.Wrappers.Store.{own_byte, Writes}
use tiny_stm_reval.Wrappers.Written.{
  BytesList, store_run-Writes, store_word-Writes, stm_store_bytes-Writes,
}
use tiny_stm_reval.Wrappers.Load.{Agrees, Reads, load-Reads, length-byte_run, stm_load_bytes-Reads}
use tiny_stm_reval.Wrappers.RoundTrip.{Agrees-written}

-- The widths, and their loads and stores.
pub data Width : Type 0 where
  u8 : Width
  u16 : Width
  u32 : Width
  u64 : Width

abbrev pub size_of : Width → ℕ
size_of u8 = 1
size_of u16 = 2
size_of u32 = 4
size_of u64 = 8

unfoldable pub load_width : Width → Env → ℕ → State → Exit ℕ × State
load_width u8 = stm_load_u8
load_width u16 = stm_load_u16
load_width u32 = stm_load_u32
load_width u64 = stm_load_u64

unfoldable pub store_width : Width → Env → (ℕ → ℕ) → ℕ → ℕ → State → Exit (Unit {0}) × State
store_width u8 = stm_store_u8
store_width u16 = stm_store_u16
store_width u32 = stm_store_u32
store_width u64 = λ env junk. stm_store_u64 env

byte_list-BytesList : (n v : ℕ) → BytesList (byte_list n v)
unfolding byte_list byte_run
byte_list-BytesList n v = run n 0
  where
    run : (n i : ℕ) → BytesList (byte_run (byte_of v) i n)
    run zero i = tt
    run (suc n) i = (byte_of-AreBytes v i, run n (suc i))

from_bytes-byte_list :
    (w : Width) (v : ℕ) → from_bytes (byte_list (size_of w) v) ≡ v % 2 ^ (8 * size_of w)
unfolding from_bytes byte_list byte_run byte_of
from_bytes-byte_list u8 v = omega arith
from_bytes-byte_list u16 v = omega arith
from_bytes-byte_list u32 v = omega arith
from_bytes-byte_list u64 v = omega arith

word_of-byte_list : (v : ℕ) → v ≤ word_max → word_of (put_run zeros 0 (byte_list 8 v)) ≡ v
unfolding word_of put_run byte_list byte_run byte_of
word_of-byte_list v le = omega (arith, le)

-- A value within one word.
part-Writes :
    (env : Env) (junk : ℕ → ℕ) (addr i n value : ℕ) (s : State)
    → AreBytes junk
    → i ≡ addr % 8
    → i + n ≤ 8
    → no_retry s.tx.attr ≡ false
    → Writes addr
        (byte_list n value)
        s
        (store_run env junk (addr - addr % 8) i (byte_list n value) s)
part-Writes env junk addr i n value s j e fits may =
    subst
      (λ (t : ℕ).
        Writes t (byte_list n value) s
          (store_run env junk (addr - addr % 8) i (byte_list n value) s))
      aligned
      (store_run-Writes env junk (addr - addr % 8) i (byte_list n value) s j
        (byte_list-BytesList n value) (omega arith) (omega (arith, fits, size)) may)
  where
    aligned : addr - addr % 8 + i ≡ addr
    aligned = omega (arith, e)

    size : length (byte_list n value) ≡ n
    size = unfold byte_list in length-byte_run (byte_of value) 0 n

-- A store of a value writes its bytes.
store_width-Writes :
    (w : Width) (env : Env) (junk : ℕ → ℕ) (addr value : ℕ) (s : State)
    → AreBytes junk
    → value < 2 ^ (8 * size_of w)
    → no_retry s.tx.attr ≡ false
    → Writes addr (byte_list (size_of w) value) s (store_width w env junk addr value s)
unfolding store_width stm_store_u8 stm_store_u16 stm_store_u32 stm_store_u64
store_width-Writes u8 env junk addr value s j fits may =
    part-Writes env junk addr (addr % 8) 1 value s j refl (omega arith) may
store_width-Writes u16 env junk addr value s j fits may = elim (Bool-cases (addr % 2 == 0)) [
  | inl e ↦
      let even : addr % 2 ≡ 0 = (==_iff _ _).0 e in
      rw e (
        part-Writes env junk addr (2 * (addr % 8 / 2)) 2 value s j (omega (arith, even))
          (omega arith) may)
  | inr e ↦
      rw e (stm_store_bytes-Writes env addr (byte_list 2 value) s (byte_list-BytesList 2 value) may)
]
store_width-Writes u32 env junk addr value s j fits may = elim (Bool-cases (addr % 4 == 0)) [
  | inl e ↦
      let even : addr % 4 ≡ 0 = (==_iff _ _).0 e in
      rw e (
        part-Writes env junk addr (4 * (addr % 8 / 4)) 4 value s j (omega (arith, even))
          (omega arith) may)
  | inr e ↦
      rw e (stm_store_bytes-Writes env addr (byte_list 4 value) s (byte_list-BytesList 4 value) may)
]
store_width-Writes u64 env junk addr value s j fits may = elim (Bool-cases (addr % 8 == 0)) [
  | inl e ↦ rw e (
      subst (λ (v : ℕ). Writes addr (byte_list 8 value) s (stored (stm_store env addr v s)))
        (word_of-byte_list value (omega (arith, fits)))
        (store_word-Writes env addr (byte_list 8 value) s (byte_list-BytesList 8 value)
          ((==_iff _ _).0 e) eight may))
  | inr e ↦
      rw e (stm_store_bytes-Writes env addr (byte_list 8 value) s (byte_list-BytesList 8 value) may)
]
  where
    eight : length (byte_list 8 value) ≡ 8
    eight = unfold byte_list in length-byte_run (byte_of value) 0 8

module _ (ws : List WriteEntry) (attr : Option Attr) (may : no_retry attr ≡ false) where
  -- A load of a number that returns has read bytes that agree.
  abbrev NumberReads : ℕ → ℕ → Exit ℕ × State → Type 0
  NumberReads addr n (returned v, t) =
      (out : List ℕ) × (v ≡ from_bytes out) × (length out ≡ n) × Agrees (own_byte ws) addr out
  NumberReads addr n (jumped r, t) = Unit
  NumberReads addr n (exited, t) = Unit
  NumberReads addr n (spinning, t) = Unit

  load_value-NumberReads :
      (env : Env) (addr n : ℕ) (s : State)
      → Keeps ws attr s
      → NumberReads addr n (load_value env addr n s)
  unfolding load_value and_then
  load_value-NumberReads env addr n s keep =
      go (stm_load_bytes env addr n s) (stm_load_bytes-Reads ws attr may env addr n s keep)
    where
      go :
          (q : Exit (List ℕ) × State)
          → Reads ws attr may addr n q
          → NumberReads addr n (and_then q (λ buf t. (returned (from_bytes buf), t)))
      go (returned out, t) (k, len, h) = (out, refl, len, h)
      go (jumped r, t) h = tt
      go (exited, t) h = tt
      go (spinning, t) h = tt

  part-NumberReads :
      (env : Env) (addr a i n : ℕ) (s : State) (value : ℕ → ℕ)
      → Keeps ws attr s
      → a % 8 ≡ 0
      → a + i ≡ addr
      → i + n ≤ 8
      → ((w : ℕ) → value w ≡ from_bytes (byte_run (byte_of w) i n))
      → NumberReads addr n (and_then (stm_load env a s) (λ w t. (returned (value w), t)))
  unfolding and_then
  part-NumberReads env addr a i n s value keep al e fits same = go (stm_load env a s) (
      load-Reads ws attr may env a addr n s (λ w t. (returned (byte_run (byte_of w) i n), t)) keep
        al
        (λ w t keep' h. (
          keep',
          length-byte_run (byte_of w) i n,
          subst (λ (x : ℕ). Agrees (own_byte ws) x (byte_run (byte_of w) i n)) e (h i n fits),
        )))
    where
      go :
          (p : Exit ℕ × State)
          → Reads ws attr may addr n (and_then p (λ w t. (returned (byte_run (byte_of w) i n), t)))
          → NumberReads addr n (and_then p (λ w t. (returned (value w), t)))
      go (returned w, t) (k, len, h) = (byte_run (byte_of w) i n, same w, len, h)
      go (jumped r, t) h = tt
      go (exited, t) h = tt
      go (spinning, t) h = tt

  load_width-NumberReads :
      (w : Width) (env : Env) (addr : ℕ) (s : State)
      → Keeps ws attr s
      → NumberReads addr (size_of w) (load_width w env addr s)
  unfolding load_width stm_load_u8 stm_load_u16 stm_load_u32 stm_load_u64
  load_width-NumberReads u8 env addr s keep =
      part-NumberReads env addr (addr - addr % 8) (addr % 8) 1 s (λ w. byte_of w (addr % 8)) keep
        (omega arith) (omega arith) (omega arith) (λ w. one w (addr % 8))
    where
      one : (w i : ℕ) → byte_of w i ≡ from_bytes (byte_run (byte_of w) i 1)
      one w i = unfold from_bytes byte_run in omega arith
  load_width-NumberReads u16 env addr s keep = elim (Bool-cases (addr % 2 == 0)) [
    | inl e ↦
        let even : addr % 2 ≡ 0 = (==_iff _ _).0 e in
        rw e (
          part-NumberReads env addr (addr - addr % 8) (2 * (addr % 8 / 2)) 2 s
            (λ w. from_bytes (byte_run (byte_of w) (2 * (addr % 8 / 2)) 2)) keep (omega arith)
            (omega (arith, even)) (omega arith) (λ w. refl))
    | inr e ↦ rw e (load_value-NumberReads env addr 2 s keep)
  ]
  load_width-NumberReads u32 env addr s keep = elim (Bool-cases (addr % 4 == 0)) [
    | inl e ↦
        let even : addr % 4 ≡ 0 = (==_iff _ _).0 e in
        rw e (
          part-NumberReads env addr (addr - addr % 8) (4 * (addr % 8 / 4)) 4 s
            (λ w. from_bytes (byte_run (byte_of w) (4 * (addr % 8 / 4)) 4)) keep (omega arith)
            (omega (arith, even)) (omega arith) (λ w. refl))
    | inr e ↦ rw e (load_value-NumberReads env addr 4 s keep)
  ]
  load_width-NumberReads u64 env addr s keep = elim (Bool-cases (addr % 8 == 0)) [
    | inl e ↦ rw e (
        part-NumberReads env addr addr 0 8 s (λ w. w % 2 ^ 64) keep ((==_iff _ _).0 e) (omega arith)
          (omega arith) eight)
    | inr e ↦ rw e (load_value-NumberReads env addr 8 s keep)
  ]
    where
      eight : (w : ℕ) → w % 2 ^ 64 ≡ from_bytes (byte_run (byte_of w) 0 8)
      eight w = sym (unfold byte_list in from_bytes-byte_list u64 w)

-- At every address and in each of the widths of 1, 2, 4 and 8 bytes: if a store of a value that
-- fits the width returns, and then a load of that width at the same address, then the load gives
-- the value, whatever a union held before and however the other threads interleave. The
-- transaction jumps back when it aborts.
pub store_then_load_width :
    (w : Width) (env : Env) (junk : ℕ → ℕ) (addr value out : ℕ) (s s' s'' : State)
    → AreBytes junk
    → value < 2 ^ (8 * size_of w)
    → no_retry s.tx.attr ≡ false
    → store_width w env junk addr value s ≡ (returned tt, s')
    → load_width w env addr s' ≡ (returned out, s'')
    → out ≡ value
store_then_load_width w env junk addr value out s s' s'' j fits may stores loads =
    let (writes, may') =
      subst (Writes addr (byte_list (size_of w) value) s) stores
        (store_width-Writes w env junk addr value s j fits may) in
    let (bytes, v, len, agrees) =
      subst (NumberReads s'.tx.w_set.entries s'.tx.attr may' addr (size_of w)) loads
        (load_width-NumberReads s'.tx.w_set.entries s'.tx.attr may' w env addr s' (refl, refl)) in
    v
    ∙ ap from_bytes (
        Agrees-written (own_byte s'.tx.w_set.entries) (own_byte s.tx.w_set.entries) addr
          (byte_list (size_of w) value) bytes (len ∙ sym size) (λ b le. writes b) agrees)
    ∙ from_bytes-byte_list w value
    ∙ mod-eq_of_lt fits
  where
    size : length (byte_list (size_of w) value) ≡ size_of w
    size = unfold byte_list in length-byte_run (byte_of value) 0 (size_of w)
