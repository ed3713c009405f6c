-- ===== src/Wrappers/Fill.antt =====
-- stm_set_bytes writes one byte over its range (tinySTM/src/wrappers.c).
use tiny_stm_reval.Prelude.{
  ℕ, zero, suc, ◌+◌, ◌-◌, ◌*◌, ◌/◌, ◌%◌, ◌^◌, ◌≤◌, ◌<◌, ◌≡◌, refl, sym, ap, ◌∙◌, ◌⊎◌, inl, inr,
  true, false, List, [], ◌∷◌, ◌++◌, arith, ltb, ◌==◌, ==_iff, Bool-cases, length, if_both,
}
use native.Mathlib.Nat.{mod-lt}
use mathlib.Core.Path.{subst}
use tiny_stm_reval.Machine.{Env, update}
use tiny_stm_reval.Descriptor.{State, and_then}
use tiny_stm_reval.Restart.{no_retry}
use tiny_stm_reval.Write.{stm_store, stm_store2}
use tiny_stm_reval.Wrappers.{
  word_of, zeros, put_run, replicate, first_count, stored, store_run, set_run, set_words, set_last,
  set_rest, stm_set_bytes,
}
use tiny_stm_reval.Wrappers.Store.{Writes}
use tiny_stm_reval.Wrappers.Written.{
  BytesList, store_run-Writes, store_word-Writes, and_then-Writes, move_start, Writes-none, aligned,
  aligned_mod, first_count-fits, first_count-word, first_count-all,
}

length-replicate : (n x : ℕ) → length (replicate n x) ≡ n
unfolding replicate
length-replicate zero x = refl
length-replicate (suc n) x = omega (arith, length-replicate n x)

replicate-split : (n m t x : ℕ) → t ≡ n + m → replicate n x ++ replicate m x ≡ replicate t x
unfolding replicate
replicate-split zero m t x e = ap (λ (k : ℕ). replicate k x) (omega (arith, e))
replicate-split (suc n) m zero x e = absurd (omega (arith, e))
replicate-split (suc n) m (suc t) x e =
    ap (λ (l : List ℕ). x ∷ l) (replicate-split n m t x (omega (arith, e)))

replicate-BytesList : (n x : ℕ) → x < 2 ^ 8 → BytesList (replicate n x)
unfolding replicate
replicate-BytesList zero x h = tt
replicate-BytesList (suc n) x h = (h, replicate-BytesList n x h)

put_same :
    (byte i n j : ℕ) (val : ℕ → ℕ)
    → ((k : ℕ) → val k ≡ byte)
    → put_run val i (replicate n byte) j ≡ byte
unfolding put_run replicate
put_same byte i zero j val h = h j
put_same byte i (suc n) j val h =
    put_same byte (suc i) n j (update val i byte)
      (λ k. if_both (i == k) (λ (t : ℕ). t ≡ byte) refl (h k))

-- A union that has the byte everywhere keeps it.
filled_word :
    (byte i n : ℕ) → word_of (put_run (λ j. byte) i (replicate n byte)) ≡ word_of (λ j. byte)
unfolding word_of
filled_word byte i n = omega (arith, at 0, at 1, at 2, at 3, at 4, at 5, at 6, at 7)
  where
    at : (j : ℕ) → put_run (λ j. byte) i (replicate n byte) j ≡ byte
    at j = put_same byte i n j (λ j. byte) (λ k. refl)

set_run-Writes :
    (env : Env) (byte a i n : ℕ) (s : State)
    → byte < 2 ^ 8
    → a % 8 ≡ 0
    → i + n ≤ 8
    → no_retry s.tx.attr ≡ false
    → Writes (a + i) (replicate n byte) s (set_run env byte a i n s)
unfolding set_run store_run
set_run-Writes env byte a i n s small al fits may =
    subst
      (λ (v : ℕ).
        Writes (a + i) (replicate n byte) s
          (stored (stm_store2 env a v (word_of (put_run zeros i (replicate n 255))) s)))
      (filled_word byte i n)
      (subst
        (λ (k : ℕ). Writes (a + i) (replicate n byte) s (
          stored (
            stm_store2 env a (word_of (put_run (λ j. byte) i (replicate n byte)))
              (word_of (put_run zeros i (replicate k 255))) s)))
        (length-replicate n byte)
        (store_run-Writes env (λ j. byte) a i (replicate n byte) s (λ j. small)
          (replicate-BytesList n byte small) al (omega (arith, fits, length-replicate n byte)) may))

set_words-Writes :
    (env : Env) (byte k a : ℕ) (s : State)
    → byte < 2 ^ 8
    → a % 8 ≡ 0
    → no_retry s.tx.attr ≡ false
    → Writes a (replicate (8 * k) byte) s (set_words env byte k a s)
unfolding set_words
set_words-Writes env byte zero a s small al may = unfold replicate in Writes-none a s may
set_words-Writes env byte (suc k) a s small al may =
    subst (λ (l : List ℕ). Writes a l s (set_words env byte (suc k) a s))
      (replicate-split 8 (8 * k) (8 * suc k) byte (omega arith))
      (and_then-Writes a (a + 8) (replicate 8 byte) (replicate (8 * k) byte) s _ _
        (omega (arith, length-replicate 8 byte))
        (subst (λ (v : ℕ). Writes a (replicate 8 byte) s (stored (stm_store env a v s))) whole
          (store_word-Writes env a (replicate 8 byte) s (replicate-BytesList 8 byte small) al
            (length-replicate 8 byte) may))
        (λ u t may'. set_words-Writes env byte k (a + 8) t small (omega (arith, al)) may'))
  where
    whole : word_of (put_run zeros 0 (replicate 8 byte)) ≡ word_of (λ j. byte)
    whole = unfold word_of put_run replicate in refl

set_last-Writes :
    (env : Env) (byte a count : ℕ) (s : State)
    → byte < 2 ^ 8
    → a % 8 ≡ 0
    → count < 8
    → no_retry s.tx.attr ≡ false
    → Writes a (replicate count byte) s (set_last env byte a count s)
unfolding set_last
set_last-Writes env byte a zero s small al lt may = unfold replicate in Writes-none a s may
set_last-Writes env byte a (suc count) s small al lt may = rw some_left (
    subst (λ (t : ℕ). Writes t (replicate (suc count) byte) s (set_run env byte a 0 (suc count) s))
      from_start (set_run-Writes env byte a 0 (suc count) s small al (omega (arith, lt)) may))
  where
    some_left : ltb 0 (suc count) ≡ true
    some_left = ground arith

    from_start : a + 0 ≡ a
    from_start = omega arith

set_rest-Writes :
    (env : Env) (byte a count : ℕ) (s : State)
    → byte < 2 ^ 8
    → a % 8 ≡ 0
    → no_retry s.tx.attr ≡ false
    → Writes a (replicate count byte) s (set_rest env byte a count s)
unfolding set_rest
set_rest-Writes env byte a count s small al may =
    let k = count / 8 in
    subst (λ (l : List ℕ). Writes a l s (set_rest env byte a count s))
      (replicate-split (8 * k) (count % 8) count byte (omega arith))
      (and_then-Writes a (a + 8 * k) (replicate (8 * k) byte) (replicate (count % 8) byte) s _ _
        (ap (λ (t : ℕ). a + t) (sym (length-replicate (8 * k) byte)))
        (set_words-Writes env byte k a s small al may)
        (λ u t may'.
          set_last-Writes env byte (a + 8 * k) (count % 8) t small (omega (arith, al)) (omega arith)
            may'))

-- If stm_set_bytes returns, then the transaction has written the byte at the `count` addresses from
-- `addr` on, and at every other address it has written what it had before. The transaction jumps
-- back when it aborts; the other threads interleave in any way.
pub stm_set_bytes-Writes :
    (env : Env) (addr byte count : ℕ) (s : State)
    → byte < 2 ^ 8
    → no_retry s.tx.attr ≡ false
    → Writes addr (replicate count byte) s (stm_set_bytes env addr byte count s)
unfolding stm_set_bytes
stm_set_bytes-Writes env addr byte zero s small may = unfold replicate in Writes-none addr s may
stm_set_bytes-Writes env addr byte (suc left) s small may = elim (Bool-cases (addr % 8 == 0)) [
  | inl e ↦ rw (some_left, e) (set_rest-Writes env byte addr count s small ((==_iff _ _).0 e) may)
  | inr e ↦
      rw (some_left, e)
        (subst
          (λ (l : List ℕ). Writes addr l s (
            and_then (set_run env byte (addr - i) i n s)
              (λ u t. set_rest env byte (addr - i + 8) (count - n) t)))
          (replicate-split n (count - n) count byte (omega (arith, fits.1)))
          (and_then-Writes addr (addr + length (replicate n byte)) (replicate n byte)
            (replicate (count - n) byte) s _ _ refl first
            (λ u t may'.
              move_start (addr - i + 8) (addr + length (replicate n byte))
                (replicate (count - n) byte) t _ (next (Bool-cases (ltb (8 - i) count)))
                (set_rest-Writes env byte (addr - i + 8) (count - n) t small (omega arith) may'))))
]
  where
    count : ℕ
    count = suc left

    i : ℕ
    i = addr % 8

    n : ℕ
    n = first_count i count

    some_left : (suc left == 0) ≡ false
    some_left = ground arith

    fits : (i + n ≤ 8) × (n ≤ count)
    fits = first_count-fits i count (mod-lt addr (omega arith))

    first : Writes addr (replicate n byte) s (set_run env byte (addr - i) i n s)
    first =
        subst (λ (t : ℕ). Writes t (replicate n byte) s (set_run env byte (addr - i) i n s))
          (aligned addr)
          (set_run-Writes env byte (addr - i) i n s small (aligned_mod addr) fits.0 may)

    nothing : (k : ℕ) → k ≡ 0 → replicate k byte ≡ []
    nothing k e = ap (λ (t : ℕ). replicate t byte) e ∙ (unfold replicate in refl)

    next :
        (ltb (8 - i) count ≡ true) ⊎ (ltb (8 - i) count ≡ false)
        → (addr - i + 8 ≡ addr + length (replicate n byte)) ⊎ (replicate (count - n) byte ≡ [])
    next (inl e) = inl (omega (arith, length-replicate n byte, first_count-word i count e))
    next (inr e) = inr (nothing (count - n) (omega (arith, first_count-all i count e)))
