-- ===== src/Wrappers/Load.antt =====
-- stm_load_bytes reads the bytes that the transaction has written itself (tinySTM/src/wrappers.c).
use tiny_stm_reval.Prelude.{
  ℕ, zero, suc, ◌+◌, ◌-◌, ◌*◌, ◌/◌, ◌%◌, ◌≤◌, ◌<◌, ◌≡◌, refl, sym, ap, ◌∙◌, ◌⊎◌, inl, inr, Bool,
  true, false, Option, none, some, List, [], ◌∷◌, ◌++◌, arith, ltb, ◌==◌, if◌then◌else◌, ==_iff,
  Bool-cases, length, length-append,
}
use native.Mathlib.Nat.{mod-lt}
use mathlib.Core.Path.{subst}
use tiny_stm_reval.Word.{word_max}
use tiny_stm_reval.Machine.{Env}
use tiny_stm_reval.Descriptor.{
  Attr, WriteEntry, State, Exit, returned, jumped, exited, spinning, and_then,
}
use tiny_stm_reval.Sets.{has_written}
use tiny_stm_reval.Restart.{no_retry}
use tiny_stm_reval.Read.{overlay, written_whole, stm_load}
use tiny_stm_reval.Read.Frame.{Keeps, Loads, stm_load-Loads}
use tiny_stm_reval.Wrappers.{
  byte_of, byte_run, byte_list, first_count, load_words, load_last, load_rest, stm_load_bytes,
}
use tiny_stm_reval.Wrappers.Bytes.{byte_of-merge_new}
use tiny_stm_reval.Wrappers.Store.{entry_byte, own_byte}
use tiny_stm_reval.Wrappers.Written.{first_count-fits, first_count-word, first_count-all}

-- A byte of a loaded word that the transaction has written.
loaded_byte :
    (o : Option WriteEntry) (w i x : ℕ)
    → i < 8
    → (written_whole o ≡ some w) ⊎ ((m : ℕ) × (w ≡ overlay o m))
    → entry_byte o i ≡ some x
    → byte_of w i ≡ x
unfolding entry_byte overlay written_whole
loaded_byte none w i x lt l e = absurd (ground arith)
loaded_byte (some c) w i x lt l e = by_mask (byte_of c.mask i == 255) refl l e
  where
    by_mask :
        (b : Bool)
        → (byte_of c.mask i == 255) ≡ b
        → (written_whole (some c) ≡ some w) ⊎ ((m : ℕ) × (w ≡ overlay (some c) m))
        → (if b then some (byte_of c.value i) else none) ≡ some x
        → byte_of w i ≡ x
    by_mask false m l e = absurd (ground arith)
    by_mask true m (inl g) e = by_whole (c.mask == word_max) g
      where
        by_whole : (b : Bool) → (if b then some c.value else none) ≡ some w → byte_of w i ≡ x
        by_whole false g = absurd (ground arith)
        by_whole true g = ground arith
    by_mask true m (inr (y, g)) e =
        ap (λ (t : ℕ). byte_of t i) g
        ∙ byte_of-merge_new c.mask y c.value i lt ((==_iff _ _).0 m)
        ∙ ground arith

-- The bytes xs agree with the own bytes from `addr` on.
abbrev pub Agrees : (ℕ → Option ℕ) → ℕ → List ℕ → Type 0
Agrees f addr [] = Unit
Agrees f addr (y ∷ ys) = ((x : ℕ) → f addr ≡ some x → y ≡ x) × Agrees f (suc addr) ys

Agrees-append :
    (f : ℕ → Option ℕ) (a c : ℕ) (xs ys : List ℕ)
    → c ≡ a + length xs
    → Agrees f a xs
    → Agrees f c ys
    → Agrees f a (xs ++ ys)
Agrees-append f a c [] ys e g h = subst (λ (t : ℕ). Agrees f t ys) (omega (arith, e)) h
Agrees-append f a c (x ∷ xs) ys e (g, gs) h =
    (g, Agrees-append f (suc a) c xs ys (omega (arith, e)) gs h)

pub length-byte_run : (b : ℕ → ℕ) (i n : ℕ) → length (byte_run b i n) ≡ n
unfolding byte_run
length-byte_run b i zero = refl
length-byte_run b i (suc n) = omega (arith, length-byte_run b (suc i) n)

module _ (ws : List WriteEntry) (attr : Option Attr) (may : no_retry attr ≡ false) where
  -- A load of n bytes that returns.
  abbrev pub Reads : ℕ → ℕ → Exit (List ℕ) × State → Type 0
  Reads addr n (returned out, t) =
      Keeps ws attr t × (length out ≡ n) × Agrees (own_byte ws) addr out
  Reads addr n (jumped r, t) = Unit
  Reads addr n (exited, t) = Unit
  Reads addr n (spinning, t) = Unit

  -- The bytes of the word at `a`.
  abbrev pub WordAgrees : ℕ → ℕ → Type 0
  WordAgrees a w = (i n : ℕ) → i + n ≤ 8 → Agrees (own_byte ws) (a + i) (byte_run (byte_of w) i n)

  Loads-WordAgrees :
      (a w : ℕ)
      → a % 8 ≡ 0
      → (written_whole (has_written ws a) ≡ some w) ⊎ ((m : ℕ) × (w ≡ overlay (has_written ws a) m))
      → WordAgrees a w
  unfolding byte_run own_byte
  Loads-WordAgrees a w al l i zero le = tt
  Loads-WordAgrees a w al l i (suc n) le = (
    λ x e.
        let index : (a + i) % 8 ≡ i = omega (arith, al, le) in
        let base : a + i - i ≡ a = omega arith in
        let here : entry_byte (has_written ws a) i ≡ some x =
          ap (λ (t : ℕ). entry_byte (has_written ws t) i) (sym base)
          ∙ ap (λ (t : ℕ). entry_byte (has_written ws (a + i - t)) t) (sym index)
          ∙ e in
        loaded_byte (has_written ws a) w i x (omega (arith, le)) l here,
    subst (λ (t : ℕ). Agrees (own_byte ws) t (byte_run (byte_of w) (suc i) n)) (omega arith)
        (Loads-WordAgrees a w al l (suc i) n (omega (arith, le))),
  )

  pub load-Reads :
      (env : Env) (a addr n : ℕ) (s : State) (f : ℕ → State → Exit (List ℕ) × State)
      → Keeps ws attr s
      → a % 8 ≡ 0
      → ((w : ℕ) (t : State) → Keeps ws attr t → WordAgrees a w → Reads addr n (f w t))
      → Reads addr n (and_then (stm_load env a s) f)
  unfolding and_then
  load-Reads env a addr n s f k al more =
      go (stm_load env a s) (stm_load-Loads env a s (ap no_retry k.1 ∙ may))
    where
      go : (p : Exit ℕ × State) → Loads a s p → Reads addr n (and_then p f)
      go (returned w, t) (keep, l) =
          more w t (keep.0 ∙ k.0, keep.1 ∙ k.1)
            (Loads-WordAgrees a w al (
              subst
                (λ (v : List WriteEntry).
                  (written_whole (has_written v a) ≡ some w)
                  ⊎ ((m : ℕ) × (w ≡ overlay (has_written v a) m)))
                k.0 l))
      go (jumped r, t) h = tt
      go (exited, t) h = tt
      go (spinning, t) h = tt

  behind-Reads :
      (addr c n m : ℕ) (xs : List ℕ) (q : Exit (List ℕ) × State)
      → length xs ≡ n
      → c ≡ addr + n
      → Agrees (own_byte ws) addr xs
      → Reads c m q
      → Reads addr (n + m) (and_then q (λ ys u. (returned (xs ++ ys), u)))
  unfolding and_then
  behind-Reads addr c n m xs (returned ys, u) l e g (k, len, h) = (
    k,
    omega (arith, l, len, length-append xs ys),
    Agrees-append (own_byte ws) addr c xs ys (omega (arith, l, e)) g h,
  )
  behind-Reads addr c n m xs (jumped r, u) l e g h = tt
  behind-Reads addr c n m xs (exited, u) l e g h = tt
  behind-Reads addr c n m xs (spinning, u) l e g h = tt

  from_start :
      (a n : ℕ) (w : ℕ) → n ≤ 8 → WordAgrees a w → Agrees (own_byte ws) a (byte_run (byte_of w) 0 n)
  from_start a n w le h =
      subst (λ (t : ℕ). Agrees (own_byte ws) t (byte_run (byte_of w) 0 n)) zero_more
        (h 0 n (omega (arith, le)))
    where
      zero_more : a + 0 ≡ a
      zero_more = omega arith

  load_words-Reads :
      (env : Env) (k a : ℕ) (s : State)
      → Keeps ws attr s
      → a % 8 ≡ 0
      → Reads a (8 * k) (load_words env k a s)
  unfolding load_words byte_list
  load_words-Reads env zero a s keep al = (keep, omega arith, tt)
  load_words-Reads env (suc k) a s keep al =
      subst (λ (t : ℕ). Reads a t (load_words env (suc k) a s)) (more k)
        (load-Reads env a a (8 + 8 * k) s _ keep al (λ w t keep' h.
          behind-Reads a (a + 8) 8 (8 * k) (byte_run (byte_of w) 0 8) (load_words env k (a + 8) t)
            (length-byte_run (byte_of w) 0 8) refl (from_start a 8 w (omega arith) h)
            (load_words-Reads env k (a + 8) t keep' (omega (arith, al)))))
    where
      more : (k : ℕ) → 8 + 8 * k ≡ 8 * suc k
      more k = omega arith

  load_last-Reads :
      (env : Env) (a size : ℕ) (s : State)
      → Keeps ws attr s
      → a % 8 ≡ 0
      → size < 8
      → Reads a size (load_last env a size s)
  unfolding load_last
  load_last-Reads env a zero s keep al lt = (keep, refl, tt)
  load_last-Reads env a (suc size) s keep al lt =
      let some_left : ltb 0 (suc size) ≡ true = ground arith in
      rw some_left (
        load-Reads env a a (suc size) s _ keep al (λ w t keep' h. (
          keep',
          length-byte_run (byte_of w) 0 (suc size),
          from_start a (suc size) w (omega (arith, lt)) h,
        )))

  load_rest-Reads :
      (env : Env) (a size : ℕ) (s : State)
      → Keeps ws attr s
      → a % 8 ≡ 0
      → Reads a size (load_rest env a size s)
  unfolding load_rest and_then
  load_rest-Reads env a size s keep al =
      subst (λ (t : ℕ). Reads a t (load_rest env a size s)) whole
        (go (load_words env (size / 8) a s) (load_words-Reads env (size / 8) a s keep al))
    where
      whole : 8 * (size / 8) + size % 8 ≡ size
      whole = omega arith

      last : State → Exit (List ℕ) × State
      last t = load_last env (a + 8 * (size / 8)) (size % 8) t

      go :
          (p : Exit (List ℕ) × State)
          → Reads a (8 * (size / 8)) p
          → Reads a
              (8 * (size / 8) + size % 8)
              (and_then p (λ words t. and_then (last t) (λ end u. (returned (words ++ end), u))))
      go (returned words, t) (keep', len, h) =
          behind-Reads a (a + 8 * (size / 8)) (8 * (size / 8)) (size % 8) words (last t) len refl h
            (load_last-Reads env (a + 8 * (size / 8)) (size % 8) t keep' (omega (arith, al))
              (omega arith))
      go (jumped r, t) h = tt
      go (exited, t) h = tt
      go (spinning, t) h = tt

  move_start :
      (a c m : ℕ) (q : Exit (List ℕ) × State) → (a ≡ c) ⊎ (m ≡ 0) → Reads a m q → Reads c m q
  move_start a c m q (inl e) h = subst (λ (t : ℕ). Reads t m q) e h
  move_start a c m (returned [], u) (inr e) (k, len, h) = (k, len, tt)
  move_start a c m (returned (x ∷ xs), u) (inr e) (k, len, h) = absurd (omega (arith, e, len))
  move_start a c m (jumped r, u) (inr e) h = tt
  move_start a c m (exited, u) (inr e) h = tt
  move_start a c m (spinning, u) (inr e) h = tt

  -- stm_load_bytes of `size` bytes.
  pub stm_load_bytes-Reads :
      (env : Env) (addr size : ℕ) (s : State)
      → Keeps ws attr s
      → Reads addr size (stm_load_bytes env addr size s)
  unfolding stm_load_bytes
  stm_load_bytes-Reads env addr zero s keep = (keep, refl, tt)
  stm_load_bytes-Reads env addr (suc left) s keep = elim (Bool-cases (addr % 8 == 0)) [
    | inl e ↦ rw (some_left, e) (load_rest-Reads env addr (suc left) s keep ((==_iff _ _).0 e))
    | inr e ↦
        rw (some_left, e)
          (subst (λ (t : ℕ). Reads addr t (and_then (stm_load env (addr - i) s) rest)) whole
            (load-Reads env (addr - i) addr (n + (size - n)) s rest keep (omega arith)
              (λ w t keep' h.
                behind-Reads addr (addr + n) n (size - n) (byte_run (byte_of w) i n)
                  (load_rest env (addr - i + 8) (size - n) t) (length-byte_run (byte_of w) i n) refl
                  (subst (λ (t : ℕ). Agrees (own_byte ws) t (byte_run (byte_of w) i n)) aligned
                    (h i n fits.0))
                  (move_start (addr - i + 8) (addr + n) (size - n)
                    (load_rest env (addr - i + 8) (size - n) t)
                    (next (Bool-cases (ltb (8 - i) size)))
                    (load_rest-Reads env (addr - i + 8) (size - n) t keep' (omega arith))))))
  ]
    where
      size : ℕ
      size = suc left

      i : ℕ
      i = addr % 8

      n : ℕ
      n = first_count i size

      rest : ℕ → State → Exit (List ℕ) × State
      rest w t =
          and_then (load_rest env (addr - i + 8) (size - n) t)
            (λ ys u. (returned (byte_run (byte_of w) i n ++ ys), u))

      some_left : (suc left == 0) ≡ false
      some_left = ground arith

      fits : (i + n ≤ 8) × (n ≤ size)
      fits = first_count-fits i size (mod-lt addr (omega arith))

      whole : n + (size - n) ≡ size
      whole = omega (arith, fits.1)

      aligned : addr - i + i ≡ addr
      aligned = omega arith

      next :
          (ltb (8 - i) size ≡ true) ⊎ (ltb (8 - i) size ≡ false)
          → (addr - i + 8 ≡ addr + n) ⊎ (size - n ≡ 0)
      next (inl e) = inl (omega (arith, first_count-word i size e))
      next (inr e) = inr (omega (arith, first_count-all i size e))
