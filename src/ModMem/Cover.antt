-- ===== src/ModMem/Cover.antt =====
-- What stm_free2 does to the words that are given back (tinySTM/src/mod_mem.c, over stm_store2 of
-- tinySTM/src/stm.c).
use tiny_stm_reval.Prelude.{
  ℕ, zero, suc, ◌+◌, ◌*◌, ◌/◌, ◌^◌, ◌≤◌, ◌<◌, ◌≡◌, refl, ap, ◌∙◌, ◌⊎◌, inl, inr, false, Option,
  none, some, ◌∷◌, arith, ltb, ◌==◌, if◌then◌else◌, Bool-cases,
}
use mathlib.Core.Path.{subst}
use tiny_stm_reval.Machine.{Env}
use tiny_stm_reval.Descriptor.{
  WriteEntry, State, Exit, returned, jumped, exited, spinning, and_then,
}
use tiny_stm_reval.Sets.{has_written}
use tiny_stm_reval.Restart.{no_retry}
use tiny_stm_reval.Write.{stm_write, stm_store2}
use tiny_stm_reval.Write.Lookup.{WriteHolds, stm_write-WriteHolds}
use tiny_stm_reval.ModMem.{Info, schedule_free, lock_words, first_word, word_count, stm_free2}

-- An address has an entry in the write set.
abbrev pub Recorded : State → ℕ → Type 0
Recorded s b = (e : WriteEntry) × (has_written s.tx.w_set.entries b ≡ some e)

-- A write that returns keeps the entries and has one at its address.
write_records :
    (addr value mask b : ℕ) (s s' : State) (e : WriteEntry)
    → WriteHolds addr value mask s (returned (some e), s')
    → (addr ≡ b) ⊎ Recorded s b
    → Recorded s' b
write_records addr value mask b s s' e (at, made, kept) (inl h) = (e, at b ∙ ground (arith, h))
write_records addr value mask b s s' e (at, made, kept) (inr (f, h)) =
    elim (Bool-cases (addr == b)) [
      | inl here ↦ (e, at b ∙ rw here refl)
      | inr away ↦ (f, at b ∙ rw away h)
    ]

-- What holds of the loop over words if it ends.
abbrev Locked : ℕ → ℕ → State → Exit (Unit {0}) × State → Type 0
Locked a n s (returned u, s') =
    ((i : ℕ) → i < n → Recorded s' (a + 8 * i)) × ((b : ℕ) → Recorded s b → Recorded s' b)
Locked a n s (jumped r, s') = Unit
Locked a n s (exited, s') = Unit
Locked a n s (spinning, s') = Unit

Locked-next :
    (a n : ℕ) (s t : State) (p : Exit (Unit {0}) × State)
    → Recorded t a
    → ((b : ℕ) → Recorded s b → Recorded t b)
    → Locked (a + 8) n t p
    → Locked a (suc n) s p
Locked-next a n s t (returned u, s') here kept (l, keep) = (at, λ b r. keep b (kept b r))
  where
    at : (i : ℕ) → i < suc n → Recorded s' (a + 8 * i)
    at zero lt = let e : a ≡ a + 8 * 0 = omega arith in subst (Recorded s') e (keep a here)
    at (suc i) lt =
        let e : a + 8 + 8 * i ≡ a + 8 * suc i = omega arith in
        subst (Recorded s') e (l i (omega (arith, lt)))
Locked-next a n s t (jumped r, s') here kept l = tt
Locked-next a n s t (exited, s') here kept l = tt
Locked-next a n s t (spinning, s') here kept l = tt

lock_words-Locked :
    (env : Env) (a n : ℕ) (s : State)
    → no_retry s.tx.attr ≡ false
    → Locked a n s (lock_words env a n s)
unfolding lock_words stm_store2
lock_words-Locked env a zero s may = (λ i lt. absurd (omega (arith, lt)), λ b r. r)
lock_words-Locked env a (suc n) s may =
    go (stm_write env a 0 0 s) (stm_write-WriteHolds env a 0 0 s may)
      (λ t m. lock_words-Locked env (a + 8) n t m)
  where
    go :
        (p : Exit (Option WriteEntry) × State)
        → WriteHolds a 0 0 s p
        → ((t : State)
            → no_retry t.tx.attr ≡ false
            → Locked (a + 8) n t (lock_words env (a + 8) n t))
        → Locked a (suc n) s (and_then p (λ _ s'. lock_words env (a + 8) n s'))
    go (returned (some e), t) (at, made, kept) ih =
        unfold and_then in
        Locked-next a n s t (lock_words env (a + 8) n t)
          (write_records a 0 0 a s t e (at, made, kept) (inl refl))
          (λ b r. write_records a 0 0 b s t e (at, made, kept) (inr r)) (ih t (kept ∙ may))
    go (returned none, t) h ih = absurd h
    go (jumped r, t) h ih = unfold and_then in tt
    go (exited, t) h ih = unfold and_then in tt
    go (spinning, t) h ih = unfold and_then in tt

-- What holds of stm_free2 if it returns.
abbrev FreeHolds : Option ℕ → (addr idx size : ℕ) → State → Info → Exit Info × State → Type 0
FreeHolds block addr idx size s mi (returned mi', s') =
    ((i : ℕ) → i < word_count size → Recorded s' (first_word addr idx + 8 * i))
    × ((b : ℕ) → Recorded s b → Recorded s' b)
    × ((nd : ℕ) × (block ≡ some nd)
        × (mi' ≡ record mi { freed = record { node = nd; addr = addr } ∷ mi.freed }))
FreeHolds block addr idx size s mi (jumped r, s') = Unit
FreeHolds block addr idx size s mi (exited, s') = Unit
FreeHolds block addr idx size s mi (spinning, s') = Unit

-- The end of stm_free2, behind the loop.
abbrev finish_free : Option ℕ → ℕ → Info → Exit (Unit {0}) × State → Exit Info × State
finish_free block addr mi p = and_then p (λ _ s'. elim (schedule_free block addr mi) [
  | none ↦ (exited, s')
  | some mi' ↦ (returned mi', s')
])

finish_free-FreeHolds :
    (block : Option ℕ) (addr idx size : ℕ) (s : State) (mi : Info) (p : Exit (Unit {0}) × State)
    → Locked (first_word addr idx) (word_count size) s p
    → FreeHolds block addr idx size s mi (finish_free block addr mi p)
unfolding and_then schedule_free
finish_free-FreeHolds none addr idx size s mi (returned u, t) l = tt
finish_free-FreeHolds (some nd) addr idx size s mi (returned u, t) (l, keep) =
    (l, keep, (nd, refl, refl))
finish_free-FreeHolds block addr idx size s mi (jumped r, t) l = tt
finish_free-FreeHolds block addr idx size s mi (exited, t) l = tt
finish_free-FreeHolds block addr idx size s mi (spinning, t) l = tt

loop-Locked :
    (env : Env) (addr idx size : ℕ) (s : State)
    → no_retry s.tx.attr ≡ false
    → Locked (first_word addr idx) (word_count size) s (
        if ltb 0 size
        then lock_words env (first_word addr idx) (word_count size) s
        else (returned tt, s))
loop-Locked env addr idx size s may = elim (Bool-cases (ltb 0 size)) [
  | inl some_size ↦
      rw some_size (lock_words-Locked env (first_word addr idx) (word_count size) s may)
  | inr no_size ↦ rw no_size ((λ i lt. absurd (none_below i no_size lt)), λ b r. r)
]
  where
    none_below : (i : ℕ) → ltb 0 size ≡ false → i < word_count size → ⊥
    none_below i z lt =
        let e : size ≡ 0 = ground (arith, z) in
        let w : word_count size ≡ 0 = ap word_count e ∙ unfold word_count in refl in
        omega (arith, lt, w)

free_words :
    (env : Env) (block : Option ℕ) (addr idx size : ℕ) (s : State) (mi : Info) (mi' : Info)
    (s' : State)
    → no_retry s.tx.attr ≡ false
    → stm_free2 env block addr idx size s mi ≡ (returned mi', s')
    → ((i : ℕ) → i < word_count size → Recorded s' (first_word addr idx + 8 * i))
      × ((b : ℕ) → Recorded s b → Recorded s' b)
      × ((nd : ℕ) × (block ≡ some nd)
          × (mi' ≡ record mi { freed = record { node = nd; addr = addr } ∷ mi.freed }))
unfolding stm_free2
free_words env block addr idx size s mi mi' s' may h =
    subst (FreeHolds block addr idx size s mi) h (
      finish_free-FreeHolds block addr idx size s mi
        (if ltb 0 size
          then lock_words env (first_word addr idx) (word_count size) s
          else (returned tt, s))
        (loop-Locked env addr idx size s may))

-- However the other threads interleave, if stm_free2 returns, then each word of the `size` bytes
-- behind `idx`, rounded up to a word, has an entry in the write set, so that its lock is taken by
-- the commit, no entry that was there before is lost, and the memory is scheduled to be freed at
-- the end of the transaction. The transaction jumps back when it aborts, and rounding `idx` and
-- `size` up to words does not wrap.
pub free_records :
    (env : Env) (block : Option ℕ) (addr idx size : ℕ) (s : State) (mi : Info) (mi' : Info)
    (s' : State)
    → no_retry s.tx.attr ≡ false
    → idx + 8 ≤ 2 ^ 64
    → size + 8 ≤ 2 ^ 64
    → stm_free2 env block addr idx size s mi ≡ (returned mi', s')
    → ((i : ℕ) → 8 * i < size → Recorded s' (addr + (idx + 7) / 8 * 8 + 8 * i))
      × ((b : ℕ) → Recorded s b → Recorded s' b)
      × ((nd : ℕ) × (block ≡ some nd)
          × (mi' ≡ record mi { freed = record { node = nd; addr = addr } ∷ mi.freed }))
unfolding first_word word_count
free_records env block addr idx size s mi mi' s' may idx_fits size_fits h =
    let (words, kept, scheduled) = free_words env block addr idx size s mi mi' s' may h in
    let start : first_word addr idx ≡ addr + (idx + 7) / 8 * 8 = omega (arith, idx_fits) in
    (
      λ i lt. subst (λ a. Recorded s' (a + 8 * i)) start (words i (omega (arith, lt, size_fits))),
      kept,
      scheduled,
    )
