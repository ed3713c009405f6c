-- ===== src/Registry/Bounds.antt =====
-- The tables of callbacks never overflow, and a registration is done whole or not at all; slots are
-- handed out once.
use tiny_stm_reval.Prelude.{
  ℕ, ◌≤◌, ◌<◌, ◌≡◌, refl, sym, ap, ◌∙◌, ◌↔◌, ◌⊎◌, inl, inr, true, false, Option, none, some, List,
  [], ◌∷◌, ◌++◌, arith, ltb, ◌==◌, if◌then◌else◌, Bool-cases, length, length-append,
}
use mathlib.Core.Option.{some-injective}
use tiny_stm_reval.Machine.{Callback, Callbacks}
use tiny_stm_reval.Registry.{
  max_cb, max_specific, no_room, add_callback, Hooks, stm_register, stm_create_specific,
  stm_set_specific, stm_get_specific,
}

-- All five tables are within their arrays.
pub record InBounds (t : Callbacks) : Type 0 where
  pub on_init : length t.on_init ≤ max_cb
  pub on_exit : length t.on_exit ≤ max_cb
  pub on_start : length t.on_start ≤ max_cb
  pub on_commit : length t.on_commit ≤ max_cb
  pub on_abort : length t.on_abort ≤ max_cb

length-add_callback :
    (f : Option ℕ) (arg : ℕ) (t : List Callback)
    → no_room f t ≡ false
    → length t ≤ max_cb
    → length (add_callback f arg t) ≤ max_cb
unfolding no_room add_callback
length-add_callback none arg t r b = b
length-add_callback (some f) arg t r b = ground (arith, length-append t ((f, arg) ∷ []))

-- If all callback tables are within their arrays of 16, they still are after stm_register.
pub stm_register-InBounds :
    (h : Hooks) (arg : ℕ) (t : Callbacks) → InBounds t → InBounds (stm_register h arg t).1
unfolding stm_register
stm_register-InBounds h arg t b = ground (
  arith,
  length-add_callback h.init arg t.on_init,
  length-add_callback h.exit arg t.on_exit,
  length-add_callback h.start arg t.on_start,
  length-add_callback h.commit arg t.on_commit,
  length-add_callback h.abort arg t.on_abort,
)

-- A function is given whose table has all its 16 entries in use.
abbrev pub Full : Option ℕ → List Callback → Type 0
Full o t = ((f : ℕ) × (o ≡ some f)) × (16 ≤ length t)

-- A table afterwards: the function that is given stands last, with the argument, and without one
-- the table is as before.
abbrev pub Added : Option ℕ → ℕ → List Callback → List Callback → Type 0
Added o arg t t' = ((f : ℕ) → o ≡ some f → t' ≡ t ++ ((f, arg) ∷ [])) × (o ≡ none → t' ≡ t)

Full-no_room : (o : Option ℕ) (t : List Callback) → (no_room o t ≡ true) ↔ Full o t
unfolding no_room
Full-no_room none t = (λ h. absurd (ground (arith, h)), λ (x, le). absurd (ground (arith, x)))
Full-no_room (some f) t = (λ h. ((f, refl), ground (arith, h)), λ (x, le). ground (arith, le))

Added-add_callback :
    (o : Option ℕ) (arg : ℕ) (t t' : List Callback) → t' ≡ add_callback o arg t → Added o arg t t'
unfolding add_callback
Added-add_callback none arg t t' e = (λ f h. absurd (ground (arith, h)), λ h. e)
Added-add_callback (some g) arg t t' e = (
  λ f h. e ∙ ap (λ (k : ℕ). t ++ ((k, arg) ∷ [])) (some-injective _ _ h),
  λ h. absurd (ground (arith, h)),
)

stm_register_cases :
    (h : Hooks) (arg : ℕ) (t : Callbacks)
    → (((stm_register h arg t).0 ≡ false) ↔ (
        (no_room h.init t.on_init ≡ true)
        ⊎ (no_room h.exit t.on_exit ≡ true)
        ⊎ (no_room h.start t.on_start ≡ true)
        ⊎ (no_room h.commit t.on_commit ≡ true)
        ⊎ (no_room h.abort t.on_abort ≡ true)))
      × ((stm_register h arg t).0 ≡ false → (stm_register h arg t).1 ≡ t)
      × ((stm_register h arg t).0 ≡ true
          → ((stm_register h arg t).1.on_init ≡ add_callback h.init arg t.on_init)
            × ((stm_register h arg t).1.on_exit ≡ add_callback h.exit arg t.on_exit)
            × ((stm_register h arg t).1.on_start ≡ add_callback h.start arg t.on_start)
            × ((stm_register h arg t).1.on_commit ≡ add_callback h.commit arg t.on_commit)
            × ((stm_register h arg t).1.on_abort ≡ add_callback h.abort arg t.on_abort))
unfolding stm_register
stm_register_cases h arg t = ((ground arith, ground arith), ground arith, ground arith)

-- stm_register fails exactly when a function is given whose table of 16 is full, and then changes no
-- table; when it succeeds, each function that is given stands with the argument at the end of its
-- own table, behind what was there, and the other tables are as before.
pub stm_register_whole :
    (h : Hooks) (arg : ℕ) (t : Callbacks)
    → (((stm_register h arg t).0 ≡ false) ↔ (
        Full h.init t.on_init
        ⊎ Full h.exit t.on_exit
        ⊎ Full h.start t.on_start
        ⊎ Full h.commit t.on_commit
        ⊎ Full h.abort t.on_abort))
      × ((stm_register h arg t).0 ≡ false → (stm_register h arg t).1 ≡ t)
      × ((stm_register h arg t).0 ≡ true
          → Added h.init arg t.on_init (stm_register h arg t).1.on_init
            × Added h.exit arg t.on_exit (stm_register h arg t).1.on_exit
            × Added h.start arg t.on_start (stm_register h arg t).1.on_start
            × Added h.commit arg t.on_commit (stm_register h arg t).1.on_commit
            × Added h.abort arg t.on_abort (stm_register h arg t).1.on_abort)
stm_register_whole h arg t =
    let (fails, same, adds) = stm_register_cases h arg t in
    (
      (λ e. full_of (fails.0 e), λ x. fails.1 (of_full x)),
      same,
      λ e.
          let (a, b, c, d, k) = adds e in
          (
            Added-add_callback h.init arg t.on_init _ a,
            Added-add_callback h.exit arg t.on_exit _ b,
            Added-add_callback h.start arg t.on_start _ c,
            Added-add_callback h.commit arg t.on_commit _ d,
            Added-add_callback h.abort arg t.on_abort _ k,
          ),
    )
  where
    full_of :
        (no_room h.init t.on_init ≡ true)
          ⊎ (no_room h.exit t.on_exit ≡ true)
          ⊎ (no_room h.start t.on_start ≡ true)
          ⊎ (no_room h.commit t.on_commit ≡ true)
          ⊎ (no_room h.abort t.on_abort ≡ true)
        → Full h.init t.on_init
          ⊎ Full h.exit t.on_exit
          ⊎ Full h.start t.on_start
          ⊎ Full h.commit t.on_commit
          ⊎ Full h.abort t.on_abort
    full_of (inl x) = inl ((Full-no_room _ _).0 x)
    full_of (inr (inl x)) = inr (inl ((Full-no_room _ _).0 x))
    full_of (inr (inr (inl x))) = inr (inr (inl ((Full-no_room _ _).0 x)))
    full_of (inr (inr (inr (inl x)))) = inr (inr (inr (inl ((Full-no_room _ _).0 x))))
    full_of (inr (inr (inr (inr x)))) = inr (inr (inr (inr ((Full-no_room _ _).0 x))))

    of_full :
        Full h.init t.on_init
          ⊎ Full h.exit t.on_exit
          ⊎ Full h.start t.on_start
          ⊎ Full h.commit t.on_commit
          ⊎ Full h.abort t.on_abort
        → (no_room h.init t.on_init ≡ true)
          ⊎ (no_room h.exit t.on_exit ≡ true)
          ⊎ (no_room h.start t.on_start ≡ true)
          ⊎ (no_room h.commit t.on_commit ≡ true)
          ⊎ (no_room h.abort t.on_abort ≡ true)
    of_full (inl x) = inl ((Full-no_room _ _).1 x)
    of_full (inr (inl x)) = inr (inl ((Full-no_room _ _).1 x))
    of_full (inr (inr (inl x))) = inr (inr (inl ((Full-no_room _ _).1 x)))
    of_full (inr (inr (inr (inl x)))) = inr (inr (inr (inl ((Full-no_room _ _).1 x))))
    of_full (inr (inr (inr (inr x)))) = inr (inr (inr (inr ((Full-no_room _ _).1 x))))

set_at :
    (nb key value : ℕ) (slots slots' : ℕ → ℕ)
    → stm_set_specific nb key value slots ≡ some slots'
    → (k : ℕ) → slots' k ≡ (if key == k then value else slots k)
unfolding stm_set_specific
set_at nb key value slots slots' e k = elim (Bool-cases (ltb key nb)) [
  | inl y ↦ ap (λ (f : ℕ → ℕ). f k) (sym (some-injective _ _ (rw y at e)))
  | inr n ↦ let x : none ≡ some slots' = rw n at e in cc
]

-- If at most 16 slots are in use and stm_create_specific hands out a slot, then the slot is below
-- MAX_SPECIFIC; after stm_set_specific on it, stm_get_specific gives the value that was put there,
-- and for each slot that was in use before still its old value.
pub stm_create_specific_fresh :
    (nb value : ℕ) (slots slots' : ℕ → ℕ) (key : ℕ)
    → nb ≤ max_specific
    → (stm_create_specific nb).0 ≡ some key
    → stm_set_specific (stm_create_specific nb).1 key value slots ≡ some slots'
    → (key < max_specific)
      × (stm_get_specific (stm_create_specific nb).1 key slots' ≡ some value)
      × ((k : ℕ) → k < nb → stm_get_specific (stm_create_specific nb).1 k slots' ≡ some (slots k))
unfolding stm_create_specific stm_set_specific stm_get_specific
stm_create_specific_fresh nb value slots slots' key b e set = (
  ground arith,
  ground (arith, set_at (stm_create_specific nb).1 key value slots slots' set key),
  λ k lt. ground (arith, set_at (stm_create_specific nb).1 key value slots slots' set k),
)
