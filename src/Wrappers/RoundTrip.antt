-- ===== src/Wrappers/RoundTrip.antt =====
-- Values that a transaction stores are what it loads again, at any address and in any width
-- (tinySTM/src/wrappers.c).
use tiny_stm_reval.Prelude.{
  ℕ, suc, ◌≤◌, ◌≡◌, refl, ap, ◌∙◌, false, Option, List, [], ◌∷◌, arith, ◌==◌, ==_iff, length,
}
use mathlib.Core.Path.{subst}
use tiny_stm_reval.Machine.{Env}
use tiny_stm_reval.Descriptor.{State, returned}
use tiny_stm_reval.Restart.{no_retry}
use tiny_stm_reval.Wrappers.{stm_load_bytes, stm_store_bytes}
use tiny_stm_reval.Wrappers.Store.{own_byte, written, Writes}
use tiny_stm_reval.Wrappers.Written.{BytesList, stm_store_bytes-Writes}
use tiny_stm_reval.Wrappers.Load.{Agrees, Reads, stm_load_bytes-Reads}

-- Bytes that agree with written ones of the same length are those.
pub Agrees-written :
    (f g : ℕ → Option ℕ) (addr : ℕ) (xs out : List ℕ)
    → length out ≡ length xs
    → ((b : ℕ) → addr ≤ b → f b ≡ written addr xs g b)
    → Agrees f addr out
    → out ≡ xs
unfolding written
Agrees-written f g addr [] [] len w a = refl
Agrees-written f g addr [] (y ∷ ys) len w a = absurd (omega (arith, len))
Agrees-written f g addr (x ∷ xs) [] len w a = absurd (omega (arith, len))
Agrees-written f g addr (x ∷ xs) (y ∷ ys) len w (a, agrees) =
    let first : y ≡ x = a x (w addr (omega arith) ∙ rw ((==_iff addr addr).1 refl) refl) in
    let others =
      Agrees-written f g (suc addr) xs ys (omega (arith, len))
        (λ b le. w b (omega (arith, le)) ∙ rw (later b le) refl) agrees in
    ap (λ (t : List ℕ). y ∷ t) others ∙ ap (λ (t : ℕ). t ∷ xs) first
  where
    later : (b : ℕ) → suc addr ≤ b → (addr == b) ≡ false
    later b le = ground (arith, le)

-- If stm_store_bytes returns and then stm_load_bytes of as many bytes at the same address, then it
-- gives the bytes that were stored. The transaction jumps back when it aborts; the other
-- threads interleave in any way.
pub store_then_load_bytes :
    (env : Env) (addr : ℕ) (buf out : List ℕ) (s s' s'' : State)
    → BytesList buf
    → no_retry s.tx.attr ≡ false
    → stm_store_bytes env addr buf s ≡ (returned tt, s')
    → stm_load_bytes env addr (length buf) s' ≡ (returned out, s'')
    → out ≡ buf
store_then_load_bytes env addr buf out s s' s'' bytes may stores loads =
    let (w, may') =
      subst (Writes addr buf s) stores (stm_store_bytes-Writes env addr buf s bytes may) in
    let (keep, len, agrees) =
      subst (Reads s'.tx.w_set.entries s'.tx.attr may' addr (length buf)) loads (
        stm_load_bytes-Reads s'.tx.w_set.entries s'.tx.attr may' env addr (length buf) s'
          (refl, refl)) in
    Agrees-written (own_byte s'.tx.w_set.entries) (own_byte s.tx.w_set.entries) addr buf out len
      (λ b le. w b) agrees
