-- ===== src/Threads/Chain.antt =====
-- The list of descriptors as a sequence: entering adds one in front, leaving removes it
-- (tinySTM/src/stm.c).
use tiny_stm_reval.Prelude.{
  ℕ, zero, suc, ◌+◌, ◌-◌, ◌^◌, ◌≤◌, ◌<◌, ◌≡◌, refl, sym, ap, ◌∙◌, ◌≢◌, ◌⊎◌, inl, inr, false, not,
  List, [], ◌∷◌, arith, ◌==◌, if◌then◌else◌, ==_iff, Bool-cases, length, All,
}
use mathlib.Core.Path.{subst}
use tiny_stm_reval.Word.{add_word, sub_word}
use tiny_stm_reval.Machine.{update}
use tiny_stm_reval.Descriptor.{Status, is_active}
use tiny_stm_reval.Threads.{
  Threads, found, left, stm_quiesce_enter_thread, find_previous, unlink, stm_quiesce_exit_thread,
}

-- The pointers from `t` on run through these addresses and end at NULL.
abbrev pub IsChain : (ℕ → ℕ) → ℕ → List ℕ → Type 0
IsChain next t [] = t ≡ 0
IsChain next t (x ∷ xs) = (t ≡ x) × (x ≢ 0) × IsChain next (next x) xs

abbrev pub Fresh : ℕ → List ℕ → Type 0
Fresh x = All (λ y. y ≢ x)

abbrev pub Distinct : List ℕ → Type 0
Distinct [] = Unit
Distinct (x ∷ xs) = Fresh x xs × Distinct xs

abbrev pub Among : ℕ → List ℕ → Type 0
Among x [] = ⊥
Among x (y ∷ ys) = (y ≡ x) ⊎ Among x ys

-- The descriptors of the list, from the first to the last. `threads_count` leaves out the threads
-- that are blocked at the barrier.
pub record Lists (q : Threads) (blocked : ℕ) (xs : List ℕ) : Type 0 where
  pub chain : IsChain q.next q.threads xs
  pub distinct : Distinct xs
  pub count : q.threads_count + blocked ≡ length xs
  pub few : length xs < 2 ^ 64

unfoldable pub remove : ℕ → List ℕ → List ℕ
remove tx [] = []
remove tx (x ∷ xs) = if x == tx then xs else x ∷ remove tx xs

-- The address before `tx`, `p` if `tx` is the first.
unfoldable previous : ℕ → ℕ → List ℕ → ℕ
previous tx p [] = p
previous tx p (x ∷ xs) = if x == tx then p else previous tx x xs

-- A store to a descriptor outside a chain.
IsChain-frame :
    (next : ℕ → ℕ) (x v t : ℕ) (xs : List ℕ)
    → Fresh x xs
    → IsChain next t xs
    → IsChain (update next x v) t xs
IsChain-frame next x v t [] fresh c = c
IsChain-frame next x v t (y ∷ ys) (ne, fresh) (e, nz, c) =
    let same : update next x v y ≡ next y = ground (arith, ne) in
    (e, nz, rw same (IsChain-frame next x v (next y) ys fresh c))

-- stm_quiesce_enter_thread puts a new descriptor, which is not NULL, in front of the list: the
-- pointers run through it and then through the earlier ones, and `threads_count` is the number of
-- those that are not blocked at the barrier, however many are. Before, the list has fewer than
-- 2 ^ 64 - 1 descriptors.
pub enter_thread-Lists :
    (tx : ℕ) (q : Threads) (blocked : ℕ) (xs : List ℕ)
    → tx ≢ 0
    → Fresh tx xs
    → length xs < 2 ^ 64 - 1
    → Lists q blocked xs
    → Lists (stm_quiesce_enter_thread tx q) blocked (tx ∷ xs)
unfolding stm_quiesce_enter_thread add_word
enter_thread-Lists tx q blocked xs nz fresh room l =
    let first : update q.next tx q.threads tx ≡ q.threads = ground arith in
    record {
      chain = (refl, nz, rw first (IsChain-frame q.next tx q.threads q.threads xs fresh l.chain));
      distinct = (fresh, l.distinct);
      count = omega (arith, l.count, room);
      few = omega (arith, room);
    }

Among-rest : {tx x : ℕ} (xs : List ℕ) → (x == tx) ≡ false → Among tx (x ∷ xs) → Among tx xs
Among-rest xs other (inl e) = ground (arith, other, e)
Among-rest xs other (inr m) = m

find_previous_lem :
    (next : ℕ → ℕ) (tx n p t : ℕ) (xs : List ℕ)
    → length xs ≤ n
    → IsChain next t xs
    → Among tx xs
    → find_previous next tx n p t ≡ found (previous tx p xs)
unfolding find_previous previous
find_previous_lem next tx n p t [] le c m = absurd m
find_previous_lem next tx zero p t (x ∷ xs) le c m = absurd (no_room (length xs) le)
  where
    no_room : (n : ℕ) → ¬ (suc n ≤ 0)
    no_room n h = omega (arith, h)
find_previous_lem next tx (suc n) p t (x ∷ xs) le (e, nz, c) m = elim (Bool-cases (x == tx)) [
  | inl y ↦ rw e (rw y refl)
  | inr other ↦
      let later =
        find_previous_lem next tx n x (next x) xs (omega (arith, le)) c (Among-rest xs other m) in
      let some_x : (x == 0) ≡ false = ground (arith, nz) in rw e (rw (other, some_x) later)
]

previous-Among : (tx p : ℕ) (xs : List ℕ) → Among tx xs → Among (previous tx p xs) (p ∷ xs)
unfolding previous
previous-Among tx p [] m = absurd m
previous-Among tx p (x ∷ xs) m = elim (Bool-cases (x == tx)) [
  | inl y ↦ rw y (inl refl)
  | inr other ↦
      let step : previous tx p (x ∷ xs) ≡ previous tx x xs = rw other refl in
      subst (λ k. Among k (p ∷ x ∷ xs)) (sym step)
        (inr (previous-Among tx x xs (Among-rest xs other m)))
]

Fresh-Among : (x y : ℕ) (xs : List ℕ) → Fresh x xs → Among y xs → y ≢ x
Fresh-Among x y [] fresh m = absurd m
Fresh-Among x y (z ∷ zs) (ne, fresh) (inl e) = subst (λ k. k ≢ x) e ne
Fresh-Among x y (z ∷ zs) (ne, fresh) (inr m) = Fresh-Among x y zs fresh m

-- The chain after `tx` has been taken out behind its predecessor.
unlink-IsChain :
    (next : ℕ → ℕ) (tx x : ℕ) (xs : List ℕ)
    → IsChain next (next x) xs
    → Distinct (x ∷ xs)
    → Among tx xs
    → let next' = update next (previous tx x xs) (next tx) in IsChain next' (next' x) (remove tx xs)
unfolding previous remove
unlink-IsChain next tx x [] c d m = absurd m
unlink-IsChain next tx x (y ∷ ys) (e, nz, c) ((ne, fresh), (fresh_y, d)) m =
    elim (Bool-cases (y == tx)) [
      | inl is ↦
          let here : update next x (next tx) x ≡ next y =
            ground arith ∙ ap next (sym ((==_iff y tx).0 is)) in
          rw is (rw here (IsChain-frame next x (next tx) (next y) ys fresh c))
      | inr other ↦
          let m' = Among-rest ys other m in
          let apart =
            Fresh-Among x (previous tx y ys) (y ∷ ys) (ne, fresh) (previous-Among tx y ys m') in
          let keep : update next (previous tx y ys) (next tx) x ≡ y = ground (arith, apart) ∙ e in
          rw other (keep, nz, unlink-IsChain next tx y ys c (fresh_y, d) m')
    ]

Fresh-remove : (z tx : ℕ) (xs : List ℕ) → Fresh z xs → Fresh z (remove tx xs)
unfolding remove
Fresh-remove z tx [] fresh = fresh
Fresh-remove z tx (x ∷ xs) (ne, fresh) = elim (Bool-cases (x == tx)) [
  | inl is ↦ rw is fresh
  | inr other ↦ rw other (ne, Fresh-remove z tx xs fresh)
]

Distinct-remove : (tx : ℕ) (xs : List ℕ) → Distinct xs → Distinct (remove tx xs)
unfolding remove
Distinct-remove tx [] d = d
Distinct-remove tx (x ∷ xs) (fresh, d) = elim (Bool-cases (x == tx)) [
  | inl is ↦ rw is d
  | inr other ↦ rw other (Fresh-remove x tx xs fresh, Distinct-remove tx xs d)
]

length-remove : (tx : ℕ) (xs : List ℕ) → Among tx xs → length xs ≡ suc (length (remove tx xs))
unfolding remove
length-remove tx [] m = absurd m
length-remove tx (x ∷ xs) m = elim (Bool-cases (x == tx)) [
  | inl is ↦ rw is refl
  | inr other ↦ rw other (ap suc (length-remove tx xs (Among-rest xs other m)))
]

chain_nonzero : (next : ℕ → ℕ) (y t : ℕ) (xs : List ℕ) → IsChain next t xs → Among y xs → y ≢ 0
chain_nonzero next y t [] c m = absurd m
chain_nonzero next y t (x ∷ xs) (e, nz, c) (inl h) = subst (λ k. k ≢ 0) h nz
chain_nonzero next y t (x ∷ xs) (e, nz, c) (inr m) = chain_nonzero next y (next x) xs c m

unlink_behind :
    (tx p : ℕ) (q : Threads)
    → (p == 0) ≡ false
    → unlink tx p q
      ≡ record q { next = update q.next p (q.next tx); threads_count = sub_word q.threads_count 1 }
unfolding unlink
unlink_behind tx p q h =
    ap
      (λ b. record {
        next = if b then q.next else update q.next p (q.next tx);
        threads = if b then q.next tx else q.threads;
        threads_count = sub_word q.threads_count 1;
      })
      h

unlinked-IsChain :
    (tx x : ℕ) (q : Threads) (xs : List ℕ)
    → IsChain q.next q.threads (x ∷ xs)
    → Distinct (x ∷ xs)
    → Among tx (x ∷ xs)
    → let q' = unlink tx (previous tx 0 (x ∷ xs)) q in
      IsChain q'.next q'.threads (remove tx (x ∷ xs))
unfolding unlink previous remove
unlinked-IsChain tx x q xs (e, nz, c) d m = elim (Bool-cases (x == tx)) [
  | inl is ↦ rw is (subst (λ k. IsChain q.next (q.next k) xs) ((==_iff x tx).0 is) c)
  | inr other ↦
      let m' = Among-rest xs other m in
      let p = previous tx x xs in
      let inside =
        chain_nonzero q.next p q.threads (x ∷ xs) (e, nz, c) (previous-Among tx x xs m') in
      let behind : (p == 0) ≡ false = ground (arith, inside) in
      let before : previous tx 0 (x ∷ xs) ≡ p = rw other refl in
      let rest : remove tx (x ∷ xs) ≡ x ∷ remove tx xs = rw other refl in
      subst (λ k. IsChain (unlink tx k q).next (unlink tx k q).threads (remove tx (x ∷ xs)))
        (sym before)
        (subst (IsChain (unlink tx p q).next (unlink tx p q).threads) (sym rest) (
          subst (λ (u : Threads). IsChain u.next u.threads (x ∷ remove tx xs))
            (sym (unlink_behind tx p q behind)) (e, nz, unlink-IsChain q.next tx x xs c d m')))
]

one_less :
    (count blocked n k : ℕ)
    → count + blocked ≡ n
    → blocked < n
    → n < 2 ^ 64
    → n ≡ suc k
    → sub_word count 1 + blocked ≡ k
unfolding sub_word
one_less count blocked n k e some_ b h = omega (arith, e, some_, b, h)

fewer : (n k : ℕ) → n < 2 ^ 64 → n ≡ suc k → k < 2 ^ 64
fewer n k b h = omega (arith, b, h)

-- What `unlink` makes of the pointers, when the predecessor is the one that the walk finds.
unlink-Lists :
    (tx : ℕ) (q : Threads) (blocked : ℕ) (xs : List ℕ)
    → Lists q blocked xs
    → Among tx xs
    → blocked < length xs
    → Lists (unlink tx (previous tx 0 xs) q) blocked (remove tx xs)
unfolding unlink previous remove
unlink-Lists tx q blocked [] l m lt = absurd m
unlink-Lists tx q blocked (x ∷ xs) l m lt = record {
  chain = unlinked-IsChain tx x q xs l.chain l.distinct m;
  distinct = Distinct-remove tx (x ∷ xs) l.distinct;
  count =
      one_less q.threads_count blocked (length (x ∷ xs)) (length (remove tx (x ∷ xs))) l.count lt
        l.few (length-remove tx (x ∷ xs) m);
  few = fewer (length (x ∷ xs)) (length (remove tx (x ∷ xs))) l.few (length-remove tx (x ∷ xs) m);
}

-- stm_quiesce_exit_thread takes a descriptor of the list that is not active out of it: the walk
-- ends at it within as many steps as the list has descriptors, no assertion fails, the pointers then
-- run through the other descriptors in their order, `threads_count` is the number of those that are
-- not blocked, and the condition variable is signalled exactly when `quiesce` is not 0. Threads may
-- be blocked at the barrier, though not all of them.
pub exit_thread-Lists :
    (steps tx : ℕ) (status : Status) (quiesce : ℕ) (q : Threads) (blocked : ℕ) (xs : List ℕ)
    → length xs ≤ steps
    → is_active status ≡ false
    → Lists q blocked xs
    → Among tx xs
    → blocked < length xs
    → (q' : Threads) × (stm_quiesce_exit_thread steps tx status quiesce q
        ≡ left (not (quiesce == 0)) q')
      × Lists q' blocked (remove tx xs)
unfolding stm_quiesce_exit_thread
exit_thread-Lists steps tx status quiesce q blocked xs enough idle l m lt =
    let walk = find_previous_lem q.next tx steps 0 q.threads xs enough l.chain m in
    (unlink tx (previous tx 0 xs) q, rw (idle, walk) refl, unlink-Lists tx q blocked xs l m lt)
