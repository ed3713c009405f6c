-- ===== src/Wrappers/Written.antt =====
-- stm_store_bytes and stm_set_bytes write the bytes of their range and no others
-- (tinySTM/src/wrappers.c).
use tiny_stm_reval.Prelude.{
  ℕ, zero, suc, ◌+◌, ◌-◌, ◌*◌, ◌/◌, ◌%◌, ◌^◌, ◌≤◌, ◌<◌, ◌≡◌, refl, sym, ap, ◌∙◌, ◌⊎◌, inl, inr,
  true, false, Option, List, [], ◌∷◌, ◌++◌, arith, ltb, ◌==◌, ==_iff, Bool-cases, length, All,
  if_both,
}
use native.Mathlib.Nat.{mod-lt}
use mathlib.Core.Path.{subst}
use tiny_stm_reval.Word.{word_max}
use tiny_stm_reval.Machine.{Env, update}
use tiny_stm_reval.Descriptor.{State, Exit, returned, jumped, exited, spinning, and_then}
use tiny_stm_reval.Restart.{no_retry}
use tiny_stm_reval.Write.{stm_write, stm_store, stm_store2}
use tiny_stm_reval.Wrappers.{
  word_of, zeros, put_run, replicate, take, drop, first_count, stored, store_run, store_words,
  store_last, store_rest, stm_store_bytes,
}
use tiny_stm_reval.Wrappers.Bytes.{AreBytes}
use tiny_stm_reval.Wrappers.Store.{
  own_byte, written, written-frame, written-append, select, select-put_run, IsMask, Selects, Writes,
  masked_write-Selects,
}

abbrev pub BytesList : List ℕ → Type 0
BytesList = All (λ x. x < 2 ^ 8)

pub put_run-AreBytes :
    (i : ℕ) (xs : List ℕ) (val : ℕ → ℕ) → AreBytes val → BytesList xs → AreBytes (put_run val i xs)
unfolding put_run
put_run-AreBytes i [] val v h = v
put_run-AreBytes i (x ∷ xs) val v (b, h) =
    put_run-AreBytes (suc i) xs (update val i x)
      (λ j. if_both (i == j) (λ (t : ℕ). t < 2 ^ 8) b (v j)) h

put_run-IsMask : (i n : ℕ) (mask : ℕ → ℕ) → IsMask mask → IsMask (put_run mask i (replicate n 255))
unfolding put_run replicate
put_run-IsMask i zero mask h = h
put_run-IsMask i (suc n) mask h =
    put_run-IsMask (suc i) n (update mask i 255)
      (λ j. if_both (i == j) (λ (t : ℕ). (t ≡ 0) ⊎ (t ≡ 255)) (inr refl) (h j))

select-zeros : (a b : ℕ) (val : ℕ → ℕ) (f : ℕ → Option ℕ) → select a val zeros f b ≡ f b
unfolding select
select-zeros a b val f = elim (Bool-cases (a == b - b % 8)) [
  | inl e ↦ rw e refl
  | inr e ↦ rw e refl
]

Selects-Writes :
    (a i : ℕ) (xs : List ℕ) (val : ℕ → ℕ) (s : State) (p : Exit (Unit {0}) × State)
    → a % 8 ≡ 0
    → i + length xs ≤ 8
    → Selects a (put_run val i xs) (put_run zeros i (replicate (length xs) 255)) s p
    → Writes (a + i) xs s p
Selects-Writes a i xs val s (returned u, s') al le (h, may) = (
  λ b.
      h b
      ∙ select-put_run a i b xs val zeros (own_byte s.tx.w_set.entries) al le
      ∙ written-frame (a + i) b xs (select a val zeros (own_byte s.tx.w_set.entries))
          (own_byte s.tx.w_set.entries) (select-zeros a b val (own_byte s.tx.w_set.entries)),
  may,
)
Selects-Writes a i xs val s (jumped r, s') al le h = tt
Selects-Writes a i xs val s (exited, s') al le h = tt
Selects-Writes a i xs val s (spinning, s') al le h = tt

pub store_run-Writes :
    (env : Env) (val : ℕ → ℕ) (a i : ℕ) (xs : List ℕ) (s : State)
    → AreBytes val
    → BytesList xs
    → a % 8 ≡ 0
    → i + length xs ≤ 8
    → no_retry s.tx.attr ≡ false
    → Writes (a + i) xs s (store_run env val a i xs s)
unfolding store_run stm_store2
store_run-Writes env val a i xs s v h al le may = Selects-Writes a i xs val s _ al le (
    masked_write-Selects env a (put_run val i xs) (put_run zeros i (replicate (length xs) 255)) s
      (put_run-AreBytes i xs val v h) (put_run-IsMask i (length xs) zeros (λ j. inl refl)) may)

zeros-AreBytes : AreBytes zeros
zeros-AreBytes i = omega arith

full_mask : (n : ℕ) → n ≡ 8 → word_of (put_run zeros 0 (replicate n 255)) ≡ word_max
unfolding word_of put_run replicate
full_mask n e = ap (λ (t : ℕ). word_of (put_run zeros 0 (replicate t 255))) e ∙ refl

-- A whole word of bytes.
pub store_word-Writes :
    (env : Env) (a : ℕ) (xs : List ℕ) (s : State)
    → BytesList xs
    → a % 8 ≡ 0
    → length xs ≡ 8
    → no_retry s.tx.attr ≡ false
    → Writes a xs s (stored (stm_store env a (word_of (put_run zeros 0 xs)) s))
unfolding stm_store stm_store2 store_run
store_word-Writes env a xs s h al eight may =
    subst (λ (m : ℕ). Writes a xs s (stored (stm_write env a (word_of (put_run zeros 0 xs)) m s)))
      (full_mask (length xs) eight)
      (subst (λ (t : ℕ). Writes t xs s (store_run env zeros a 0 xs s)) from_start
        (store_run-Writes env zeros a 0 xs s zeros-AreBytes h al (omega (arith, eight)) may))
  where
    from_start : a + 0 ≡ a
    from_start = omega arith

pub and_then-Writes :
    (addr c : ℕ) (xs ys : List ℕ) (s : State) (p : Exit (Unit {0}) × State)
    (f : Unit {0} → State → Exit (Unit {0}) × State)
    → c ≡ addr + length xs
    → Writes addr xs s p
    → ((u : Unit {0}) (t : State) → no_retry t.tx.attr ≡ false → Writes c ys t (f u t))
    → Writes addr (xs ++ ys) s (and_then p f)
unfolding and_then
and_then-Writes addr c xs ys s (returned u, t) f e (h, may) k = go (f u t) (k u t may)
  where
    go : (p : Exit (Unit {0}) × State) → Writes c ys t p → Writes addr (xs ++ ys) s p
    go (returned w, s') (g, may') = (
      λ b.
          g b
          ∙ written-frame c b ys (own_byte t.tx.w_set.entries)
              (written addr xs (own_byte s.tx.w_set.entries)) (h b)
          ∙ written-append addr c b xs ys (own_byte s.tx.w_set.entries) e,
      may',
    )
    go (jumped r, s') g = tt
    go (exited, s') g = tt
    go (spinning, s') g = tt
and_then-Writes addr c xs ys s (jumped r, t) f e h k = tt
and_then-Writes addr c xs ys s (exited, t) f e h k = tt
and_then-Writes addr c xs ys s (spinning, t) f e h k = tt

pub Writes-none :
    (addr : ℕ) (s : State) → no_retry s.tx.attr ≡ false → Writes addr [] s (returned tt, s)
unfolding written
Writes-none addr s may = (λ b. refl, may)

take-drop : (n : ℕ) (xs : List ℕ) → take n xs ++ drop n xs ≡ xs
unfolding take drop
take-drop zero xs = refl
take-drop (suc n) [] = refl
take-drop (suc n) (x ∷ xs) = ap (λ (t : List ℕ). x ∷ t) (take-drop n xs)

length-take : (n : ℕ) (xs : List ℕ) → n ≤ length xs → length (take n xs) ≡ n
unfolding take
length-take zero xs le = refl
length-take (suc n) [] le = absurd (omega arith)
length-take (suc n) (x ∷ xs) le = omega (arith, length-take n xs (omega (arith, le)))

length-drop : (n : ℕ) (xs : List ℕ) → length (drop n xs) ≡ length xs - n
unfolding drop
length-drop zero xs = omega arith
length-drop (suc n) [] = omega arith
length-drop (suc n) (x ∷ xs) = omega (arith, length-drop n xs)

BytesList-take : (n : ℕ) (xs : List ℕ) → BytesList xs → BytesList (take n xs)
unfolding take
BytesList-take zero xs h = tt
BytesList-take (suc n) [] h = tt
BytesList-take (suc n) (x ∷ xs) (b, h) = (b, BytesList-take n xs h)

BytesList-drop : (n : ℕ) (xs : List ℕ) → BytesList xs → BytesList (drop n xs)
unfolding drop
BytesList-drop zero xs h = h
BytesList-drop (suc n) [] h = h
BytesList-drop (suc n) (x ∷ xs) (b, h) = BytesList-drop n xs h

take-split : (n m t : ℕ) (xs : List ℕ) → t ≡ n + m → take n xs ++ take m (drop n xs) ≡ take t xs
unfolding take drop
take-split zero m t xs e = ap (λ (k : ℕ). take k xs) (omega (arith, e))
take-split (suc n) zero zero xs e = absurd (omega (arith, e))
take-split (suc n) (suc m) zero xs e = absurd (omega (arith, e))
take-split (suc n) zero (suc t) [] e = refl
take-split (suc n) (suc m) (suc t) [] e = refl
take-split (suc n) m (suc t) (x ∷ xs) e =
    ap (λ (l : List ℕ). x ∷ l) (take-split n m t xs (omega (arith, e)))

-- Full words, then the last bytes.
store_words-Writes :
    (env : Env) (k a : ℕ) (buf : List ℕ) (s : State)
    → BytesList buf
    → a % 8 ≡ 0
    → 8 * k ≤ length buf
    → no_retry s.tx.attr ≡ false
    → Writes a (take (8 * k) buf) s (store_words env k a buf s)
unfolding store_words
store_words-Writes env zero a buf s h al le may = unfold take in Writes-none a s may
store_words-Writes env (suc k) a buf s h al le may =
    subst (λ (t : List ℕ). Writes a t s (store_words env (suc k) a buf s)) (take-more k buf)
      (and_then-Writes a (a + 8) (take 8 buf) (take (8 * k) (drop 8 buf)) s _ _
        (omega (arith, eight))
        (store_word-Writes env a (take 8 buf) s (BytesList-take 8 buf h) al eight may)
        (λ u t may'.
          store_words-Writes env k (a + 8) (drop 8 buf) t (BytesList-drop 8 buf h)
            (omega (arith, al)) (omega (arith, le, length-drop 8 buf)) may'))
  where
    eight : length (take 8 buf) ≡ 8
    eight = length-take 8 buf (omega (arith, le))

    take-more :
        (k : ℕ) (buf : List ℕ) → take 8 buf ++ take (8 * k) (drop 8 buf) ≡ take (8 * suc k) buf
    take-more k buf = take-split 8 (8 * k) (8 * suc k) buf (omega arith)

store_last-Writes :
    (env : Env) (a : ℕ) (buf : List ℕ) (s : State)
    → BytesList buf
    → a % 8 ≡ 0
    → length buf < 8
    → no_retry s.tx.attr ≡ false
    → Writes a buf s (store_last env a buf s)
unfolding store_last
store_last-Writes env a [] s h al lt may = Writes-none a s may
store_last-Writes env a (x ∷ xs) s h al lt may = rw some_left (
    subst (λ (t : ℕ). Writes t (x ∷ xs) s (store_run env zeros a 0 (x ∷ xs) s)) from_start
      (store_run-Writes env zeros a 0 (x ∷ xs) s zeros-AreBytes h al (omega (arith, lt)) may))
  where
    some_left : ltb 0 (length (x ∷ xs)) ≡ true
    some_left = ground arith

    from_start : a + 0 ≡ a
    from_start = omega arith

store_rest-Writes :
    (env : Env) (a : ℕ) (buf : List ℕ) (s : State)
    → BytesList buf
    → a % 8 ≡ 0
    → no_retry s.tx.attr ≡ false
    → Writes a buf s (store_rest env a buf s)
unfolding store_rest
store_rest-Writes env a buf s h al may =
    let k = length buf / 8 in
    subst (λ (t : List ℕ). Writes a t s (store_rest env a buf s)) (take-drop (8 * k) buf)
      (and_then-Writes a (a + 8 * k) (take (8 * k) buf) (drop (8 * k) buf) s _ _
        (ap (λ (t : ℕ). a + t) (sym (length-take (8 * k) buf (omega arith))))
        (store_words-Writes env k a buf s h al (omega arith) may)
        (λ u t may'.
          store_last-Writes env (a + 8 * k) (drop (8 * k) buf) t (BytesList-drop (8 * k) buf h)
            (omega (arith, al)) (omega (arith, length-drop (8 * k) buf)) may'))

pub first_count-fits :
    (i size : ℕ) → i < 8 → (i + first_count i size ≤ 8) × (first_count i size ≤ size)
unfolding first_count
first_count-fits i size lt = ground (arith, lt)

pub first_count-word : (i size : ℕ) → ltb (8 - i) size ≡ true → first_count i size ≡ 8 - i
unfolding first_count
first_count-word i size e = rw e refl

pub first_count-all : (i size : ℕ) → ltb (8 - i) size ≡ false → first_count i size ≡ size
unfolding first_count
first_count-all i size e = rw e refl

drop-all : (n : ℕ) (xs : List ℕ) → n ≡ length xs → drop n xs ≡ []
unfolding drop
drop-all zero [] e = refl
drop-all zero (x ∷ xs) e = absurd (omega (arith, e))
drop-all (suc n) [] e = refl
drop-all (suc n) (x ∷ xs) e = drop-all n xs (omega (arith, e))

pub aligned : (addr : ℕ) → addr - addr % 8 + addr % 8 ≡ addr
aligned addr = omega arith

pub aligned_mod : (addr : ℕ) → (addr - addr % 8) % 8 ≡ 0
aligned_mod addr = omega arith

-- No bytes start anywhere.
pub move_start :
    (a c : ℕ) (ys : List ℕ) (s : State) (p : Exit (Unit {0}) × State)
    → (a ≡ c) ⊎ (ys ≡ [])
    → Writes a ys s p
    → Writes c ys s p
move_start a c ys s p (inl e) w = subst (λ (t : ℕ). Writes t ys s p) e w
move_start a c ys s p (inr e) w =
    subst (λ (l : List ℕ). Writes c l s p) (sym e)
      (empty p (subst (λ (l : List ℕ). Writes a l s p) e w))
  where
    empty : (p : Exit (Unit {0}) × State) → Writes a [] s p → Writes c [] s p
    empty (returned u, t) (h, may) = (λ b. h b ∙ same b, may)
      where
        same :
            (b : ℕ)
            → written a [] (own_byte s.tx.w_set.entries) b
              ≡ written c [] (own_byte s.tx.w_set.entries) b
        same b = unfold written in refl
    empty (jumped r, t) w = tt
    empty (exited, t) w = tt
    empty (spinning, t) w = tt

-- If stm_store_bytes returns, then the transaction has written the bytes of the buffer at the
-- addresses from `addr` on, and at every other address it has written what it had before. The
-- transaction jumps back when it aborts; the other threads interleave in any way.
pub stm_store_bytes-Writes :
    (env : Env) (addr : ℕ) (buf : List ℕ) (s : State)
    → BytesList buf
    → no_retry s.tx.attr ≡ false
    → Writes addr buf s (stm_store_bytes env addr buf s)
unfolding stm_store_bytes
stm_store_bytes-Writes env addr [] s h may = Writes-none addr s may
stm_store_bytes-Writes env addr (x ∷ xs) s h may = elim (Bool-cases (addr % 8 == 0)) [
  | inl e ↦ rw (some_left, e) (store_rest-Writes env addr (x ∷ xs) s h ((==_iff _ _).0 e) may)
  | inr e ↦
      rw (some_left, e)
        (subst
          (λ (t : List ℕ). Writes addr t s (
            and_then (store_run env zeros (addr - i) i (take n buf) s)
              (λ u t. store_rest env (addr - i + 8) (drop n buf) t)))
          (take-drop n buf)
          (and_then-Writes addr (addr + length (take n buf)) (take n buf) (drop n buf) s _ _ refl
            first
            (λ u t may'.
              move_start (addr - i + 8) (addr + length (take n buf)) (drop n buf) t _
                (next (Bool-cases (ltb (8 - i) (length buf))))
                (store_rest-Writes env (addr - i + 8) (drop n buf) t (BytesList-drop n buf h)
                  (omega arith) may'))))
]
  where
    some_left : (length (x ∷ xs) == 0) ≡ false
    some_left = ground arith

    buf : List ℕ
    buf = x ∷ xs

    i : ℕ
    i = addr % 8

    n : ℕ
    n = first_count i (length buf)

    fits : (i + n ≤ 8) × (n ≤ length buf)
    fits = first_count-fits i (length buf) (mod-lt addr (omega arith))

    taken : length (take n buf) ≡ n
    taken = length-take n buf fits.1

    first : Writes addr (take n buf) s (store_run env zeros (addr - i) i (take n buf) s)
    first =
        subst (λ (t : ℕ). Writes t (take n buf) s (store_run env zeros (addr - i) i (take n buf) s))
          (aligned addr)
          (store_run-Writes env zeros (addr - i) i (take n buf) s zeros-AreBytes
            (BytesList-take n buf h) (aligned_mod addr) (omega (arith, taken, fits.0)) may)

    next :
        ((ltb (8 - i) (length buf)) ≡ true) ⊎ ((ltb (8 - i) (length buf)) ≡ false)
        → (addr - i + 8 ≡ addr + length (take n buf)) ⊎ (drop n buf ≡ [])
    next (inl e) = inl (omega (arith, taken, first_count-word i (length buf) e))
    next (inr e) = inr (drop-all n buf (first_count-all i (length buf) e))
