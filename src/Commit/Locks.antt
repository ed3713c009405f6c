-- ===== src/Commit/Locks.antt =====
-- The locks that a write set holds while stm_commit runs: those of the entries whose `no_drop` is
-- reset.
use tiny_stm_reval.Prelude.{
  ℕ, suc, ◌+◌, ◌≡◌, refl, ap, Bool, true, false, not, ◌&&◌, ◌||◌, List, [], ◌∷◌, arith, ◌==◌,
  if◌then◌else◌, rev_onto, All,
}
use tiny_stm_reval.Descriptor.{WriteEntry}

-- Whether an entry took the lock `j`.
abbrev pub takes : WriteEntry → ℕ → Bool
takes e j = not e.no_drop && e.lock == j

abbrev pub taken_by : List WriteEntry → ℕ → Bool
taken_by [] j = false
taken_by (e ∷ es) j = takes e j || taken_by es j

-- The number of entries that took a lock.
abbrev pub count_taken : List WriteEntry → ℕ
count_taken [] = 0
count_taken (e ∷ es) = if e.no_drop then count_taken es else suc (count_taken es)

-- Whether the lock `j` covers an address of the write set.
abbrev pub covers : List WriteEntry → ℕ → Bool
covers [] j = false
covers (e ∷ es) j = e.lock == j || covers es j

-- No entry has taken its lock.
abbrev pub Untaken : List WriteEntry → Type 0
Untaken = All (λ e. e.no_drop ≡ true)

pub taken_by-rev_onto :
    (xs ys : List WriteEntry) (j : ℕ)
    → taken_by (rev_onto xs ys) j ≡ (taken_by xs j || taken_by ys j)
unfolding rev_onto
taken_by-rev_onto [] ys j = refl
taken_by-rev_onto (x ∷ xs) ys j = ground (arith, taken_by-rev_onto xs (x ∷ ys) j)

pub covers-rev_onto :
    (xs ys : List WriteEntry) (j : ℕ) → covers (rev_onto xs ys) j ≡ (covers xs j || covers ys j)
unfolding rev_onto
covers-rev_onto [] ys j = refl
covers-rev_onto (x ∷ xs) ys j = ground (arith, covers-rev_onto xs (x ∷ ys) j)

pub count_taken-rev_onto :
    (xs ys : List WriteEntry) → count_taken (rev_onto xs ys) ≡ count_taken xs + count_taken ys
unfolding rev_onto
count_taken-rev_onto [] ys = omega arith
count_taken-rev_onto (x ∷ xs) ys = ground (arith, count_taken-rev_onto xs (x ∷ ys))

pub All-rev_onto {κ} :
    (P : WriteEntry → Type κ) (xs ys : List WriteEntry)
    → All P xs
    → All P ys
    → All P (rev_onto xs ys)
unfolding rev_onto
All-rev_onto P [] ys p q = q
All-rev_onto P (x ∷ xs) ys p q = All-rev_onto P xs (x ∷ ys) p.1 (p.0, q)

pub taken_by-Untaken : (xs : List WriteEntry) (j : ℕ) → Untaken xs → taken_by xs j ≡ false
taken_by-Untaken [] j u = refl
taken_by-Untaken (x ∷ xs) j u = ground (arith, taken_by-Untaken xs j u.1)

pub count_taken-Untaken : (xs : List WriteEntry) → Untaken xs → count_taken xs ≡ 0
count_taken-Untaken [] u = refl
count_taken-Untaken (x ∷ xs) u = ground (arith, count_taken-Untaken xs u.1)

pub taken_by_none : (xs : List WriteEntry) (j : ℕ) → count_taken xs ≡ 0 → taken_by xs j ≡ false
taken_by_none [] j z = refl
taken_by_none (x ∷ xs) j z = ground (arith, taken_by_none xs j)

-- An entry without what the acquisition changes.
abbrev pub strip : WriteEntry → WriteEntry
strip e = record e { version = 0; no_drop = true }

abbrev pub strip_all : List WriteEntry → List WriteEntry
strip_all [] = []
strip_all (e ∷ es) = strip e ∷ strip_all es

pub strip_all-rev_onto :
    (xs ys : List WriteEntry) → strip_all (rev_onto xs ys) ≡ rev_onto (strip_all xs) (strip_all ys)
unfolding rev_onto
strip_all-rev_onto [] ys = refl
strip_all-rev_onto (x ∷ xs) ys = strip_all-rev_onto xs (x ∷ ys)

pub covers-strip_all : (es : List WriteEntry) (j : ℕ) → covers (strip_all es) j ≡ covers es j
covers-strip_all [] j = refl
covers-strip_all (e ∷ es) j = ap (λ b. e.lock == j || b) (covers-strip_all es j)

pub covers-taken_by : (es : List WriteEntry) (j : ℕ) → taken_by es j ≡ true → covers es j ≡ true
covers-taken_by [] j t = t
covers-taken_by (e ∷ es) j t = ground (arith, covers-taken_by es j)
