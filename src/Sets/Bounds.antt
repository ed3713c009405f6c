-- ===== src/Sets/Bounds.antt =====
-- The arrays of a transaction's sets (tinySTM/src/stm.c): no entry stands behind their end.
use tiny_stm_reval.Prelude.{
  ℕ, suc, ◌+◌, ◌-◌, ◌*◌, ◌%◌, ◌^◌, ◌≤◌, ◌<◌, ◌≡◌, refl, ap, ◌⊎◌, inl, inr, false, Option, none,
  some, List, [], ◌∷◌, ◌++◌, arith, ltb, ◌==◌, ltb→lt, Bool-cases, length, length-append,
  differ_of_test,
}
use mathlib.Core.Path.{subst}
use mathlib.Core.Option.{some-injective}
use tiny_stm_reval.Word.{double_int, int_to_size_t}
use tiny_stm_reval.Machine.{Env}
use tiny_stm_reval.Descriptor.{
  ReadEntry, WriteEntry, ReadSet, WriteSet, Tx, r_entry_size, w_entry_size,
}
use tiny_stm_reval.Sets.{extend_read_set, extend_write_set, add_read, add_write, update_written}

-- realloc refuses a size above PTRDIFF_MAX.
abbrev pub RefusesHuge : Env → Type 0
RefusesHuge env = (p n : ℕ) → 2 ^ 63 ≤ n → env.realloc p n ≡ none

-- Both arrays have a size that is a positive int, and the entries fit in it.
abbrev pub SetsFit : Tx → Type 0
SetsFit tx =
    ((0 < tx.r_set.size) × (length tx.r_set.entries ≤ tx.r_set.size) × (tx.r_set.size < 2 ^ 31))
    × ((0 < tx.w_set.size) × (length tx.w_set.entries ≤ tx.w_set.size) × (tx.w_set.size < 2 ^ 31))

-- A doubled size that is not a positive int asks for more than PTRDIFF_MAX bytes.
wrapped :
    (size : ℕ)
    → size < 2 ^ 31
    → ¬ (size * 2 < 2 ^ 31)
    → int_to_size_t (double_int size) ≡ size * 2 + (2 ^ 64 - 2 ^ 32)
unfolding int_to_size_t double_int
wrapped size small wide =
    let same : size * 2 % 2 ^ 32 ≡ size * 2 = omega (arith, small) in
    let far : 2 ^ 31 ≤ size * 2 = omega (arith, wide) in
    let test : ltb (size * 2) (2 ^ 31) ≡ false = ground (arith, far) in rw (same, test) refl

double_small : (size : ℕ) → size * 2 < 2 ^ 31 → double_int size ≡ size * 2
unfolding double_int
double_small size fits = omega (arith, fits)

huge :
    (size k : ℕ)
    → size < 2 ^ 31
    → (k ≡ 16) ⊎ (k ≡ 64)
    → ¬ (size * 2 < 2 ^ 31)
    → 2 ^ 63 ≤ int_to_size_t (double_int size) * k % 2 ^ 64
huge size k small (inl e) wide = rw (wrapped size small wide, e) (omega (arith, small, wide))
huge size k small (inr e) wide = rw (wrapped size small wide, e) (omega (arith, small, wide))

refused :
    {A : Type 0} (o : Option ℕ) (f : ℕ → A) (a : A)
    → o ≡ none
    → ◌≡◌ {A = Option A} (elim o [ none ↦ none | some b ↦ some (f b) ]) (some a)
    → ⊥
refused none f a e h = ground (arith, h)
refused (some b) f a e h = ground (arith, e)

extended-Fits :
    {A : Type 0} (o : Option ℕ) (f : ℕ → A) (a : A) (P : A → Type 0)
    → ((b : ℕ) → P (f b))
    → ◌≡◌ {A = Option A} (elim o [ none ↦ none | some b ↦ some (f b) ]) (some a)
    → P a
extended-Fits none f a P h e = absurd (ground (arith, e))
extended-Fits (some b) f a P h e = subst P (some-injective _ _ e) (h b)

-- The set that realloc lets grow.
extend_read_set-Fits :
    (env : Env) (rs rs' : ReadSet)
    → RefusesHuge env
    → rs.size < 2 ^ 31
    → extend_read_set env rs ≡ some rs'
    → (rs'.entries ≡ rs.entries) × (rs'.size ≡ rs.size * 2) × (rs.size * 2 < 2 ^ 31)
unfolding extend_read_set
extend_read_set-Fits env rs rs' refuses small h = elim (Bool-cases (ltb (rs.size * 2) (2 ^ 31))) [
  | inl y ↦
      let fits : rs.size * 2 < 2 ^ 31 = ltb→lt _ _ y in
      let same : double_int rs.size ≡ rs.size * 2 = double_small rs.size fits in
      extended-Fits
        (env.realloc rs.base (int_to_size_t (double_int rs.size) * r_entry_size % 2 ^ 64)) _ rs'
        (λ (t : ReadSet).
          (t.entries ≡ rs.entries) × (t.size ≡ rs.size * 2) × (rs.size * 2 < 2 ^ 31))
        (λ b. (refl, same, fits)) h
  | inr n ↦ absurd (
      refused (env.realloc rs.base (int_to_size_t (double_int rs.size) * r_entry_size % 2 ^ 64)) _
        rs'
        (refuses rs.base _ (
          huge rs.size r_entry_size small (inl refl)
            (λ (lt : rs.size * 2 < 2 ^ 31). absurd (ground (arith, n, lt)))))
        h)
]

-- The set that realloc lets grow.
extend_write_set-Fits :
    (env : Env) (ws ws' : WriteSet)
    → RefusesHuge env
    → ws.size < 2 ^ 31
    → extend_write_set env ws ≡ some ws'
    → (ws'.entries ≡ ws.entries) × (ws'.size ≡ ws.size * 2) × (ws.size * 2 < 2 ^ 31)
unfolding extend_write_set
extend_write_set-Fits env ws ws' refuses small h = elim (Bool-cases (ltb (ws.size * 2) (2 ^ 31))) [
  | inl y ↦
      let fits : ws.size * 2 < 2 ^ 31 = ltb→lt _ _ y in
      let same : double_int ws.size ≡ ws.size * 2 = double_small ws.size fits in
      extended-Fits
        (env.realloc ws.base (int_to_size_t (double_int ws.size) * w_entry_size % 2 ^ 64)) _ ws'
        (λ (t : WriteSet).
          (t.entries ≡ ws.entries) × (t.size ≡ ws.size * 2) × (ws.size * 2 < 2 ^ 31))
        (λ b. (refl, same, fits)) h
  | inr n ↦ absurd (
      refused (env.realloc ws.base (int_to_size_t (double_int ws.size) * w_entry_size % 2 ^ 64)) _
        ws'
        (refuses ws.base _ (
          huge ws.size w_entry_size small (inr refl)
            (λ (lt : ws.size * 2 < 2 ^ 31). absurd (ground (arith, n, lt)))))
        h)
]

pub add_read-SetsFit :
    (env : Env) (r : ReadEntry) (rs rs' : ReadSet)
    → RefusesHuge env
    → (0 < rs.size) × (length rs.entries ≤ rs.size) × (rs.size < 2 ^ 31)
    → add_read env r rs ≡ some rs'
    → (0 < rs'.size) × (length rs'.entries ≤ rs'.size) × (rs'.size < 2 ^ 31)
unfolding add_read
add_read-SetsFit env r rs rs' refuses (pos, fit, small) h =
    elim (Bool-cases (length rs.entries == rs.size)) [
      | inl y ↦ grown (extend_read_set env rs) refl (rw (add_read, y) at h)
      | inr n ↦
          let eq = some-injective _ _ (rw (add_read, n) at h) in
          subst (λ (t : ReadSet). (0 < t.size) × (length t.entries ≤ t.size) × (t.size < 2 ^ 31)) eq
            (
              pos,
              omega (arith, fit, differ_of_test _ _ n, length-append rs.entries (r ∷ [])),
              small,
            )
    ]
  where
    grown :
        (o : Option ReadSet)
        → extend_read_set env rs ≡ o
        → ◌≡◌ {A = Option ReadSet}
            (elim o [ none ↦ none | some t ↦ some (record t { entries = t.entries ++ (r ∷ []) }) ])
            (some rs')
        → (0 < rs'.size) × (length rs'.entries ≤ rs'.size) × (rs'.size < 2 ^ 31)
    grown none is q = absurd (ground (arith, q))
    grown (some t) is q =
        let (same, twice, below) = extend_read_set-Fits env rs t refuses small is in
        subst (λ (u : ReadSet). (0 < u.size) × (length u.entries ≤ u.size) × (u.size < 2 ^ 31))
          (some-injective _ _ q)
          (
            omega (arith, twice, pos),
            omega (arith, twice, fit, pos, ap length same, length-append t.entries (r ∷ [])),
            omega (arith, twice, below),
          )

pub add_write-SetsFit :
    (env : Env) (e : WriteEntry) (ws ws' : WriteSet)
    → RefusesHuge env
    → (0 < ws.size) × (length ws.entries ≤ ws.size) × (ws.size < 2 ^ 31)
    → add_write env e ws ≡ some ws'
    → (0 < ws'.size) × (length ws'.entries ≤ ws'.size) × (ws'.size < 2 ^ 31)
unfolding add_write
add_write-SetsFit env e ws ws' refuses (pos, fit, small) h =
    elim (Bool-cases (length ws.entries == ws.size)) [
      | inl y ↦ grown (extend_write_set env ws) refl (rw (add_write, y) at h)
      | inr n ↦
          let eq = some-injective _ _ (rw (add_write, n) at h) in
          subst (λ (t : WriteSet). (0 < t.size) × (length t.entries ≤ t.size) × (t.size < 2 ^ 31))
            eq
            (
              pos,
              omega (arith, fit, differ_of_test _ _ n, length-append ws.entries (e ∷ [])),
              small,
            )
    ]
  where
    grown :
        (o : Option WriteSet)
        → extend_write_set env ws ≡ o
        → ◌≡◌ {A = Option WriteSet}
            (elim o [ none ↦ none | some t ↦ some (record t { entries = t.entries ++ (e ∷ []) }) ])
            (some ws')
        → (0 < ws'.size) × (length ws'.entries ≤ ws'.size) × (ws'.size < 2 ^ 31)
    grown none is q = absurd (ground (arith, q))
    grown (some t) is q =
        let (same, twice, below) = extend_write_set-Fits env ws t refuses small is in
        subst (λ (u : WriteSet). (0 < u.size) × (length u.entries ≤ u.size) × (u.size < 2 ^ 31))
          (some-injective _ _ q)
          (
            omega (arith, twice, pos),
            omega (arith, twice, fit, pos, ap length same, length-append t.entries (e ∷ [])),
            omega (arith, twice, below),
          )

pub length-update_written :
    (f : WriteEntry → WriteEntry) (ws : List WriteEntry) (addr : ℕ)
    → length (update_written f ws addr) ≡ length ws
unfolding update_written
length-update_written f [] addr = refl
length-update_written f (w ∷ ws) addr = elim (Bool-cases (w.addr == addr)) [
  | inl is ↦ rw is refl
  | inr other ↦ rw other (ap suc (length-update_written f ws addr))
]
