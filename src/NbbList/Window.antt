-- ===== src/NbbList/Window.antt =====
-- Positions of a ring: `position / length` counts its rounds, `position % length` is the index
-- (TPCC/Server/core/nbblist.c).
use tiny_stm_reval.Prelude.{
  ℕ, zero, suc, ◌+◌, ◌-◌, ◌*◌, ◌/◌, ◌%◌, ◌≤◌, ◌<◌, ◌≡◌, sym, ap, ◌∙◌, inl, inr, arith, leb, leb→le,
  Bool-cases,
}
use native.Mathlib.Nat.{
  div-add-mod', mod-lt, add-mul-mod_self_right, mod-mod, add-mod-mod, add-div_right, add-mod_right,
}

-- A position is known by its round and its index.
pub same_position : (n a b : ℕ) → a % n ≡ b % n → a / n ≡ b / n → a ≡ b
same_position n a b m d = omega (arith, div-add-mod' a n, div-add-mod' b n, ap (λ (t : ℕ). t * n) d)

pub next_round : (n a : ℕ) → 0 < n → (a + n) / n ≡ a / n + 1
next_round n a pos = add-div_right a pos

pub same_index : (n a : ℕ) → (a + n) % n ≡ a % n
same_index n a = add-mod_right a n

-- If a round later, then a whole ring later.
pub later_position : (n a b : ℕ) → 0 < n → a % n ≡ b % n → a / n + 1 ≡ b / n → a + n ≡ b
later_position n a b pos m d =
    same_position n (a + n) b (same_index n a ∙ m) (next_round n a pos ∙ d)

-- Two positions less than a ring apart have the same index only if they are one.
pub index_once : (n a d : ℕ) → d < n → (a + d) % n ≡ a % n → d ≡ 0
index_once n a d lt m =
    rounds ((a + d) / n) (a / n) (omega (arith, div-add-mod' a n, div-add-mod' (a + d) n, m))
  where
    rounds : (x y : ℕ) → x * n ≡ y * n + d → d ≡ 0
    rounds zero zero h = omega (arith, h)
    rounds zero (suc y) h = omega (arith, h, lt)
    rounds (suc zero) zero h = omega (arith, h, lt)
    rounds (suc (suc x)) zero h = omega (arith, h, lt)
    rounds (suc x) (suc y) h = rounds x y (omega (arith, h))

-- Each index stands at one of n positions from any position on.
pub find_index : (n a p : ℕ) → 0 < n → (k : ℕ) × (k < n) × ((a + k) % n ≡ p % n)
find_index n a p pos = (
  (p % n + (n - a % n)) % n,
  mod-lt (p % n + (n - a % n)) pos,
  add-mod-mod a (p % n + (n - a % n)) n
      ∙ ap (λ (t : ℕ). t % n) around
      ∙ add-mul-mod_self_right (p % n) (a / n + 1) n
      ∙ mod-mod p n,
)
  where
    around : a + (p % n + (n - a % n)) ≡ p % n + (a / n + 1) * n
    around = omega (arith, div-add-mod' a n, mod-lt a pos)

pub same_offset : (n a x y : ℕ) → x < n → y < n → (a + x) % n ≡ (a + y) % n → x ≡ y
same_offset n a x y lx ly m = elim (Bool-cases (leb x y)) [
  | inl le ↦ upward x y (leb→le x y le) ly m
  | inr gt ↦ sym (upward y x (ground (arith, gt)) lx (sym m))
]
  where
    upward : (x y : ℕ) → x ≤ y → y < n → (a + x) % n ≡ (a + y) % n → x ≡ y
    upward x y le lt m =
        let split : a + x + (y - x) ≡ a + y = omega (arith, le) in
        let none =
          index_once n (a + x) (y - x) (omega (arith, lt)) (ap (λ (t : ℕ). t % n) split ∙ sym m) in
        omega (arith, none, le)
