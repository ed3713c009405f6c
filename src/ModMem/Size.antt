-- ===== src/ModMem/Size.antt =====
-- The size that stm_malloc asks for (tinySTM/src/mod_mem.c).
use tiny_stm_reval.Prelude.{
  ℕ, ◌+◌, ◌-◌, ◌%◌, ◌^◌, ◌≤◌, ◌<◌, ◌≡◌, refl, sym, ap, ◌∙◌, Option, none, some, ◌∷◌, arith,
}
use mathlib.Core.Option.{some-injective}
use tiny_stm_reval.ModMem.{Info, round_size, stm_malloc}

round_size_lem :
    (size : ℕ)
    → size < 2 ^ 64
    → (round_size size % 8 ≡ 0)
      × (size ≤ 2 ^ 64 - 8 → (size ≤ round_size size) × (round_size size < size + 8))
      × (2 ^ 64 - 8 < size → round_size size ≡ 0)
unfolding round_size
round_size_lem size fits =
    (omega arith, λ h. (omega (arith, h), omega (arith, h)), λ h. omega (arith, h, fits))

-- A block that stm_malloc hands out, and records as obtained by the transaction, is what malloc
-- gives for the next multiple of 8 from the size on, if the size is at most 2 ^ 64 - 8. For a larger
-- size the addition wraps, and the block is what malloc gives for the size 0.
pub stm_malloc_asks :
    (node : Option ℕ) (malloc : ℕ → Option ℕ) (size addr : ℕ) (mi mi' : Info)
    → size < 2 ^ 64
    → stm_malloc node malloc size mi ≡ some (addr, mi')
    → ((n : ℕ) × (malloc n ≡ some addr)
        × (n % 8 ≡ 0)
        × (size ≤ 2 ^ 64 - 8 → (size ≤ n) × (n < size + 8))
        × (2 ^ 64 - 8 < size → n ≡ 0))
      × ((p : ℕ) × (mi'.allocated ≡ record { node = p; addr = addr } ∷ mi.allocated))
      × (mi'.freed ≡ mi.freed)
      × (mi'.frees ≡ mi.frees)
unfolding stm_malloc
stm_malloc_asks none malloc size addr mi mi' fits h = absurd (ground (arith, h))
stm_malloc_asks (some p) malloc size addr mi mi' fits h = go (malloc (round_size size)) refl h
  where
    go :
        (o : Option ℕ)
        → malloc (round_size size) ≡ o
        → ◌≡◌ {A = Option (ℕ × Info)}
            (elim o [
              | none ↦ none
              | some addr ↦
                  some (
                    addr,
                    record mi { allocated = record { node = p; addr = addr } ∷ mi.allocated },
                  )
            ])
            (some (addr, mi'))
        → ((n : ℕ) × (malloc n ≡ some addr)
            × (n % 8 ≡ 0)
            × (size ≤ 2 ^ 64 - 8 → (size ≤ n) × (n < size + 8))
            × (2 ^ 64 - 8 < size → n ≡ 0))
          × ((p : ℕ) × (mi'.allocated ≡ record { node = p; addr = addr } ∷ mi.allocated))
          × (mi'.freed ≡ mi.freed)
          × (mi'.frees ≡ mi.frees)
    go none e q = absurd (ground (arith, q))
    go (some a) e q =
        let (eight, fit, wraps) = round_size_lem size fits in
        let r = some-injective _ _ q in
        let got : a ≡ addr = ap (λ (x : ℕ × Info). x.0) r in
        let left = ap (λ (x : ℕ × Info). x.1) r in
        (
          (round_size size, e ∙ ap (λ (t : ℕ). some t) got, eight, fit, wraps),
          (
            p,
            ap (λ (x : Info). x.allocated) (sym left)
                ∙ ap (λ (t : ℕ). record { node = p; addr = t } ∷ mi.allocated) got,
          ),
          ap (λ (x : Info). x.freed) (sym left),
          ap (λ (x : Info). x.frees) (sym left),
        )
