-- ===== src/ModLog/Bytewise.antt =====
-- Stores and the undo log, address by address (tinySTM/src/mod_log.c).
use tiny_stm_reval.Prelude.{
  ℕ, zero, suc, ◌+◌, ◌≤◌, ◌<◌, ◌≡◌, refl, ap, ◌⊎◌, inl, inr, true, false, List, [], ◌∷◌, ◌++◌,
  arith, ◌==◌, ==_iff, Bool-cases, length,
}
use tiny_stm_reval.Machine.{update}
use tiny_stm_reval.ModLog.{Bytes, Entry, load_bytes, store_bytes, undo}

pub length-load_bytes : (m : Bytes) (a n : ℕ) → length (load_bytes m a n) ≡ n
unfolding load_bytes
length-load_bytes m a zero = refl
length-load_bytes m a (suc n) = ap suc (length-load_bytes m (suc a) n)

-- Stores act address by address.
pub store_bytes_agree :
    (m m' : Bytes) (a : ℕ) (bs : List ℕ) (x : ℕ)
    → m x ≡ m' x
    → store_bytes m a bs x ≡ store_bytes m' a bs x
unfolding store_bytes
store_bytes_agree m m' a [] x h = h
store_bytes_agree m m' a (b ∷ bs) x h =
    store_bytes_agree (update m a b) (update m' a b) (suc a) bs x (ground (arith, h))

pub store_bytes_covers :
    (m m' : Bytes) (a : ℕ) (bs : List ℕ) (x : ℕ)
    → a ≤ x
    → x < a + length bs
    → store_bytes m a bs x ≡ store_bytes m' a bs x
unfolding store_bytes
store_bytes_covers m m' a [] x lo hi = absurd (omega (arith, lo, hi))
store_bytes_covers m m' a (b ∷ bs) x lo hi = elim (Bool-cases (a == x)) [
  | inl here ↦ store_bytes_agree (update m a b) (update m' a b) (suc a) bs x (rw here refl)
  | inr later ↦
      let past : suc a ≤ x = ground (arith, lo, later) in
      store_bytes_covers (update m a b) (update m' a b) (suc a) bs x past (omega (arith, hi))
]

-- Storing what was loaded changes nothing.
pub store_bytes-load_bytes :
    (m m' : Bytes) (a n : ℕ)
    → ((y : ℕ) → m' y ≡ m y)
    → (x : ℕ) → store_bytes m' a (load_bytes m a n) x ≡ m x
unfolding store_bytes load_bytes
store_bytes-load_bytes m m' a zero same x = same x
store_bytes-load_bytes m m' a (suc n) same x =
    store_bytes-load_bytes m (update m' a (m a)) (suc a) n (λ y. kept y (Bool-cases (a == y))) x
  where
    kept : (y : ℕ) → ((a == y) ≡ true) ⊎ ((a == y) ≡ false) → update m' a (m a) y ≡ m y
    kept y (inl h) = rw h (ap m ((==_iff a y).0 h))
    kept y (inr h) = rw h (same y)

-- The bytes that an undo writes, whatever memory holds.
abbrev pub Undone : ℕ → List Entry → Type 0
Undone b [] = ⊥
Undone b (e ∷ es) = ((e.addr ≤ b) × (b < e.addr + length e.saved)) ⊎ Undone b es

pub undo_agree : (es : List Entry) (m m' : Bytes) (x : ℕ) → m x ≡ m' x → undo es m x ≡ undo es m' x
unfolding undo
undo_agree [] m m' x h = h
undo_agree (e ∷ es) m m' x h =
    store_bytes_agree (undo es m) (undo es m') e.addr e.saved x (undo_agree es m m' x h)

pub undo_covers :
    (es : List Entry) (m m' : Bytes) (x : ℕ) → Undone x es → undo es m x ≡ undo es m' x
unfolding undo
undo_covers [] m m' x u = absurd u
undo_covers (e ∷ es) m m' x (inl (lo, hi)) =
    store_bytes_covers (undo es m) (undo es m') e.addr e.saved x lo hi
undo_covers (e ∷ es) m m' x (inr u) =
    store_bytes_agree (undo es m) (undo es m') e.addr e.saved x (undo_covers es m m' x u)

pub undo-append :
    (es : List Entry) (e : Entry) (m : Bytes)
    → undo (es ++ (e ∷ [])) m ≡ undo es (store_bytes m e.addr e.saved)
unfolding undo
undo-append [] e m = refl
undo-append (f ∷ es) e m = ap (λ k. store_bytes k f.addr f.saved) (undo-append es e m)

pub Undone-append : (b : ℕ) (es : List Entry) (e : Entry) → Undone b es → Undone b (es ++ (e ∷ []))
Undone-append b [] e u = absurd u
Undone-append b (f ∷ es) e (inl h) = inl h
Undone-append b (f ∷ es) e (inr u) = inr (Undone-append b es e u)

pub Undone-last :
    (b : ℕ) (es : List Entry) (e : Entry)
    → e.addr ≤ b
    → b < e.addr + length e.saved
    → Undone b (es ++ (e ∷ []))
Undone-last b [] e lo hi = inl (lo, hi)
Undone-last b (f ∷ es) e lo hi = inr (Undone-last b es e lo hi)
