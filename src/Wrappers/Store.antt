-- ===== src/Wrappers/Store.antt =====
-- The bytes that a transaction has written itself, and how a store of some bytes of a word changes
-- them (tinySTM/src/wrappers.c).
use tiny_stm_reval.Prelude.{
  differ_of_test, ℕ, suc, ◌+◌, ◌-◌, ◌%◌, ◌≤◌, ◌<◌, ◌≡◌, refl, sym, ap, ◌∙◌, ◌≢◌, ◌⊎◌, inl, inr,
  true, false, ◌&&◌, Option, none, some, List, [], ◌∷◌, ◌++◌, arith, ◌==◌, if◌then◌else◌, ==_iff,
  Bool-cases, length,
}
use native.Mathlib.Nat.{mod-lt}
use tiny_stm_reval.Word.{word_max}
use tiny_stm_reval.Machine.{Env, update}
use tiny_stm_reval.Descriptor.{
  WriteEntry, State, Exit, returned, jumped, exited, spinning, and_then,
}
use tiny_stm_reval.Sets.{has_written, merge_entry}
use tiny_stm_reval.Restart.{no_retry}
use tiny_stm_reval.Write.{new_entry, stm_write}
use tiny_stm_reval.Write.Lookup.{next_entry, WriteHolds, stm_write-WriteHolds}
use tiny_stm_reval.Wrappers.{byte_of, word_of, put_run, replicate, stored}
use tiny_stm_reval.Wrappers.Bytes.{
  AreBytes, byte_of-zero, byte_of-word_of, byte_of-merge_new, byte_of-merge_old, byte_of-mask_new,
  byte_of-mask_old, word_of-fits,
}

-- The byte at index i of an entry, if the transaction has written it.
unfoldable pub entry_byte : Option WriteEntry → ℕ → Option ℕ
entry_byte none i = none
entry_byte (some e) i = if byte_of e.mask i == 255 then some (byte_of e.value i) else none

-- The byte at an address.
unfoldable pub own_byte : List WriteEntry → ℕ → Option ℕ
own_byte ws b = entry_byte (has_written ws (b - b % 8)) (b % 8)

-- The bytes xs at `addr` over earlier ones.
unfoldable pub written : ℕ → List ℕ → (ℕ → Option ℕ) → ℕ → Option ℕ
written addr [] f b = f b
written addr (x ∷ xs) f b = if addr == b then some x else written (suc addr) xs f b

-- The bytes of the word at `a` that a mask selects.
unfoldable pub select : ℕ → (ℕ → ℕ) → (ℕ → ℕ) → (ℕ → Option ℕ) → ℕ → Option ℕ
select a val mask f b =
    if (a == b - b % 8) && (mask (b % 8) == 255) then some (val (b % 8)) else f b

abbrev pub IsMask : (ℕ → ℕ) → Type 0
IsMask m = (i : ℕ) → (m i ≡ 0) ⊎ (m i ≡ 255)

IsMask-AreBytes : (m : ℕ → ℕ) → IsMask m → AreBytes m
IsMask-AreBytes m h i = elim (h i) [ inl e ↦ omega (arith, e) | inr e ↦ omega (arith, e) ]

-- An entry after a masked write.
entry_byte-next_entry :
    (a : ℕ) (stale : ℕ × ℕ) (i : ℕ) (val mask : ℕ → ℕ) (o : Option WriteEntry)
    → AreBytes val
    → IsMask mask
    → i < 8
    → entry_byte (some (next_entry a (word_of val) (word_of mask) stale o)) i
      ≡ (if mask i == 255 then some (val i) else entry_byte o i)
unfolding entry_byte new_entry merge_entry
entry_byte-next_entry a stale i val mask o v m lt = elim (m i) [
  | inl e ↦ zero_case o e
  | inr e ↦ one_case o e
]
  where
    mask_byte : byte_of (word_of mask) i ≡ mask i
    mask_byte = byte_of-word_of mask i (IsMask-AreBytes mask m) lt

    val_byte : byte_of (word_of val) i ≡ val i
    val_byte = byte_of-word_of val i v lt

    mask_fits : word_of mask ≤ word_max
    mask_fits = word_of-fits mask (IsMask-AreBytes mask m)

    zero_case :
        (o : Option WriteEntry)
        → mask i ≡ 0
        → entry_byte (some (next_entry a (word_of val) (word_of mask) stale o)) i
          ≡ (if mask i == 255 then some (val i) else entry_byte o i)
    zero_case none e = rw (mask_byte, e) refl
    zero_case (some w) e =
        rw
          (
            byte_of-mask_old w.mask (word_of mask) i (mask_byte ∙ e),
            byte_of-merge_old (word_of mask) w.value (word_of val) i mask_fits lt (mask_byte ∙ e),
            e,
          )
          refl

    some_mask : (word_of mask == 0) ≡ true → mask i ≡ 255 → ⊥
    some_mask z e =
        let none : byte_of 0 i ≡ 0 = byte_of-zero i in
        let here : byte_of 0 i ≡ 255 =
          ap (λ (t : ℕ). byte_of t i) (sym ((==_iff _ _).0 z)) ∙ mask_byte ∙ e in
        omega (arith, none, here)

    one_case :
        (o : Option WriteEntry)
        → mask i ≡ 255
        → entry_byte (some (next_entry a (word_of val) (word_of mask) stale o)) i
          ≡ (if mask i == 255 then some (val i) else entry_byte o i)
    one_case none e = elim (Bool-cases (word_of mask == 0)) [
      | inl z ↦ absurd (some_mask z e)
      | inr z ↦ rw (z, mask_byte, e) (rw val_byte refl)
    ]
    one_case (some w) e =
        rw
          (
            byte_of-mask_new w.mask (word_of mask) i (mask_byte ∙ e),
            byte_of-merge_new (word_of mask) w.value (word_of val) i lt (mask_byte ∙ e),
            val_byte,
            e,
          )
          refl

-- What a store of bytes leaves, if it returns.
abbrev pub Writes : ℕ → List ℕ → State → Exit (Unit {0}) × State → Type 0
Writes addr xs s (returned u, s') =
    ((b : ℕ) → own_byte s'.tx.w_set.entries b ≡ written addr xs (own_byte s.tx.w_set.entries) b)
    × (no_retry s'.tx.attr ≡ false)
Writes addr xs s (jumped r, s') = Unit
Writes addr xs s (exited, s') = Unit
Writes addr xs s (spinning, s') = Unit

abbrev pub Selects : ℕ → (ℕ → ℕ) → (ℕ → ℕ) → State → Exit (Unit {0}) × State → Type 0
Selects a val mask s (returned u, s') =
    ((b : ℕ) → own_byte s'.tx.w_set.entries b ≡ select a val mask (own_byte s.tx.w_set.entries) b)
    × (no_retry s'.tx.attr ≡ false)
Selects a val mask s (jumped r, s') = Unit
Selects a val mask s (exited, s') = Unit
Selects a val mask s (spinning, s') = Unit

pub masked_write-Selects :
    (env : Env) (a : ℕ) (val mask : ℕ → ℕ) (s : State)
    → AreBytes val
    → IsMask mask
    → no_retry s.tx.attr ≡ false
    → Selects a val mask s (stored (stm_write env a (word_of val) (word_of mask) s))
unfolding stored and_then own_byte select
masked_write-Selects env a val mask s v m may =
    go (stm_write env a (word_of val) (word_of mask) s)
      (stm_write-WriteHolds env a (word_of val) (word_of mask) s may)
  where
    go :
        (p : Exit (Option WriteEntry) × State)
        → WriteHolds a (word_of val) (word_of mask) s p
        → Selects a val mask s (and_then p (λ e t. (returned tt, t)))
    go (returned none, s') h = absurd h
    go (returned (some e), s') (found, (stale, made), kept) = (λ b. at b, kept ∙ may)
      where
        at :
            (b : ℕ)
            → entry_byte (has_written s'.tx.w_set.entries (b - b % 8)) (b % 8) ≡ (
                if (a == b - b % 8) && (mask (b % 8) == 255)
                then some (val (b % 8))
                else entry_byte (has_written s.tx.w_set.entries (b - b % 8)) (b % 8))
        at b = elim (Bool-cases (a == b - b % 8)) [
          | inl e ↦
              rw (found (b - b % 8), e)
                (ap (λ w. entry_byte (some w) (b % 8)) made
                  ∙ entry_byte-next_entry a stale (b % 8) val mask
                      (has_written s.tx.w_set.entries a) v m (mod-lt b (omega arith))
                  ∙ ap
                      (λ (t : ℕ).
                        if mask (b % 8) == 255
                        then some (val (b % 8))
                        else entry_byte (has_written s.tx.w_set.entries t) (b % 8))
                      ((==_iff _ _).0 e))
          | inr e ↦ rw (found (b - b % 8), e) refl
        ]
    go (jumped r, s') h = tt
    go (exited, s') h = tt
    go (spinning, s') h = tt

pub written-put :
    (a c x b : ℕ) (ys : List ℕ) (f : ℕ → Option ℕ)
    → a < c
    → written c ys (λ b. if a == b then some x else f b) b
      ≡ (if a == b then some x else written c ys f b)
unfolding written
written-put a c x b [] f lt = refl
written-put a c x b (y ∷ ys) f lt = elim (Bool-cases (c == b)) [
  | inl e ↦
      let other : (a == b) ≡ false = (let same = (==_iff c b).0 e in ground (arith, same, lt)) in
      rw (e, other) refl
  | inr e ↦ rw e (written-put a (suc c) x b ys f (omega (arith, lt)))
]

pub written-frame :
    (c b : ℕ) (ys : List ℕ) (f g : ℕ → Option ℕ) → f b ≡ g b → written c ys f b ≡ written c ys g b
unfolding written
written-frame c b [] f g e = e
written-frame c b (y ∷ ys) f g e = rw (written-frame (suc c) b ys f g e) refl

-- Bytes behind others.
pub written-append :
    (a c b : ℕ) (xs ys : List ℕ) (f : ℕ → Option ℕ)
    → c ≡ a + length xs
    → written c ys (written a xs f) b ≡ written a (xs ++ ys) f b
unfolding written
written-append a c b [] ys f e = rw e (ap (λ (t : ℕ). written t ys f b) (omega arith))
written-append a c b (x ∷ xs) ys f e =
    written-put a c x b ys (written (suc a) xs f) (omega (arith, e))
    ∙ rw (written-append (suc a) c b xs ys f (omega (arith, e))) refl

select-update :
    (a i x b : ℕ) (val mask : ℕ → ℕ) (f : ℕ → Option ℕ)
    → a % 8 ≡ 0
    → i < 8
    → select a (update val i x) (update mask i 255) f b
      ≡ (if a + i == b then some x else select a val mask f b)
unfolding select
select-update a i x b val mask f al lt = elim (Bool-cases (a + i == b)) [
  | inl e ↦
      let same : a + i ≡ b = (==_iff _ _).0 e in
      let at : (i == b % 8) ≡ true = (==_iff _ _).1 (omega (arith, same, al, lt)) in
      let word : (a == b - b % 8) ≡ true = (==_iff _ _).1 (omega (arith, same, al, lt)) in
      rw (at, word, e) refl
  | inr e ↦ elim (Bool-cases (a == b - b % 8)) [
    | inl w ↦
        let ne = differ_of_test _ _ e in
        let at : (i == b % 8) ≡ false = other (λ g. ne (omega (arith, g, (==_iff _ _).0 w))) in
        rw (at, e) refl
    | inr w ↦ rw (w, e) refl
  ]
]
  where
    other : {i j : ℕ} → (i ≢ j) → (i == j) ≡ false
    other {i} {j} ne = ground (arith, ne)

pub select-put_run :
    (a i b : ℕ) (xs : List ℕ) (val mask : ℕ → ℕ) (f : ℕ → Option ℕ)
    → a % 8 ≡ 0
    → i + length xs ≤ 8
    → select a (put_run val i xs) (put_run mask i (replicate (length xs) 255)) f b
      ≡ written (a + i) xs (select a val mask f) b
unfolding written put_run replicate
select-put_run a i b [] val mask f al le = refl
select-put_run a i b (x ∷ xs) val mask f al le =
    select-put_run a (suc i) b xs (update val i x) (update mask i 255) f al (omega (arith, le))
    ∙ written-frame (a + suc i) b xs (select a (update val i x) (update mask i 255) f)
        (λ c. if a + i == c then some x else select a val mask f c)
        (select-update a i x b val mask f al (omega (arith, le)))
    ∙ written-put (a + i) (a + suc i) x b xs (select a val mask f) (omega arith)
    ∙ ap (λ (t : ℕ). if a + i == b then some x else written t xs (select a val mask f) b)
        (omega arith)
