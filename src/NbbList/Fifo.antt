-- ===== src/NbbList/Fifo.antt =====
-- The queue that TPCC/Server/core/nbblist.c stands for: a sequence of at most `length` values, and
-- how the ring holds it.
use tiny_stm_reval.Prelude.{
  ℕ, zero, suc, ◌+◌, ◌*◌, ◌/◌, ◌%◌, ◌^◌, ◌≤◌, ◌<◌, ◌≡◌, refl, sym, ap, ◌∙◌, ◌⊎◌, inl, inr, Option,
  none, some, List, [], ◌∷◌, ◌++◌, arith, ltb, ◌==◌, if◌then◌else◌, length, get_elem?,
}
use native.Mathlib.Nat.{div-lt_iff_lt-mul}
use tiny_stm_reval.NbbList.{
  nbb_list_val, nbb_list_ver, NbbList, Answer, inserted, removed, full, empty, Pc,
}
use tiny_stm_reval.NbbList.Layout.{nbb_list_val-pack, nbb_list_ver-pack, pack, Halves}
use tiny_stm_reval.NbbList.Window.{next_round, find_index}

-- What a queue of capacity n does when it gives an answer; `none` if it cannot give it.
unfoldable pub fifo : ℕ → List ℕ → Answer → Option (List ℕ)
fifo n q (inserted v) = if ltb (length q) n then some (q ++ (v ∷ [])) else none
fifo n [] (removed v) = none
fifo n (x ∷ q) (removed v) = if x == v then some q else none
fifo n q full = if length q == n then some q else none
fifo n q empty = if length q == 0 then some q else none

unfoldable pub fifo_effect : ℕ → List ℕ → Option Answer → Option (List ℕ)
fifo_effect n q none = some q
fifo_effect n q (some a) = fifo n q a

abbrev pub IsValue : ℕ → Type 0
IsValue v = (0 < v) × (v < 2 ^ 32)

-- The ring l of n entries holds q, whose first value stands at position h. The entry of a value
-- has the number of the next round, a free one that of its own.
pub record Holds (n : ℕ) (l : NbbList) (q : List ℕ) (h : ℕ) : Type 0 where
  pub halves : Halves l
  pub ring : l.length ≡ n
  pub head : l.head ≤ h
  pub tail : l.tail ≤ h + length q
  pub few : length q ≤ n
  pub occupied :
      (k x : ℕ)
      → get_elem? q k ≡ some x
      → (l.entries ((h + k) % n) ≡ pack ((h + k) / n + 1) x) × IsValue x
  pub vacant : (k : ℕ) → length q ≤ k → k < n → l.entries ((h + k) % n) ≡ pack ((h + k) / n) 0

-- No round number up to position t wraps.
pub record Small (n t : ℕ) : Type 0 where
  pub some_entry : 0 < n
  pub entries_fit : n ≤ 2 ^ 32
  pub rounds : t + n < 2 ^ 32 * n

-- What a thread relies on, where h is the first value's position and t the next free one.
abbrev pub PcFits : ℕ → ℕ → ℕ → Pc → Type 0
PcFits n h t (Pc.insert_start v) = IsValue v
PcFits n h t (Pc.insert_read v p b) = IsValue v × (p ≤ t)
PcFits n h t (Pc.insert_swap v p b) = IsValue v × (p ≤ t)
PcFits n h t (Pc.insert_publish v p b) = suc p ≤ t
PcFits n h t (Pc.insert_reload v p) = suc p ≤ t
PcFits n h t (Pc.remove_read p b) = p ≤ h
PcFits n h t (Pc.remove_swap p b m) = (p ≤ h) × ((x : ℕ) × (m ≡ pack (p / n + 1) x) × IsValue x)
PcFits n h t (Pc.remove_publish p b m) = suc p ≤ h
PcFits n h t (Pc.remove_reload p m) = suc p ≤ h
PcFits n h t Pc.idle = Unit
PcFits n h t Pc.remove_start = Unit
PcFits n h t (Pc.answered a) = Unit

-- Other threads only move the two ends on.
pub PcFits-later :
    (n h t h' t' : ℕ) (pc : Pc) → h ≤ h' → t ≤ t' → PcFits n h t pc → PcFits n h' t' pc
PcFits-later n h t h' t' (Pc.insert_start v) a b f = f
PcFits-later n h t h' t' (Pc.insert_read v p x) a b f = (f.0, omega (arith, f.1))
PcFits-later n h t h' t' (Pc.insert_swap v p x) a b f = (f.0, omega (arith, f.1))
PcFits-later n h t h' t' (Pc.insert_publish v p x) a b f = omega (arith, f)
PcFits-later n h t h' t' (Pc.insert_reload v p) a b f = omega (arith, f)
PcFits-later n h t h' t' (Pc.remove_read p x) a b f = omega (arith, f)
PcFits-later n h t h' t' (Pc.remove_swap p x m) a b f = (omega (arith, f.0), f.1)
PcFits-later n h t h' t' (Pc.remove_publish p x m) a b f = omega (arith, f)
PcFits-later n h t h' t' (Pc.remove_reload p m) a b f = omega (arith, f)
PcFits-later n h t h' t' Pc.idle a b f = tt
PcFits-later n h t h' t' Pc.remove_start a b f = tt
PcFits-later n h t h' t' (Pc.answered x) a b f = tt

pub round_fits : (n t p : ℕ) → Small n t → p ≤ t → p / n + 1 < 2 ^ 32
round_fits n t p s le =
    rw (sym (next_round n p s.some_entry))
      ((div-lt_iff_lt-mul s.some_entry).1 (omega (arith, s.rounds, le)))

pub position_fits : (n t p : ℕ) → Small n t → p ≤ t → p + 1 < 2 ^ 64
position_fits n t p s le = omega (arith, s.rounds, s.entries_fit, s.some_entry, le)

-- What an entry at the k-th position from h on has for its two halves.
abbrev pub Kind : ℕ → List ℕ → ℕ → ℕ → ℕ → ℕ → Type 0
Kind n q h k ver val =
    ((get_elem? q k ≡ some val) × IsValue val × (ver ≡ (h + k) / n + 1))
    ⊎ ((length q ≤ k) × (val ≡ 0) × (ver ≡ (h + k) / n))

-- What a load at position p finds: the entry of the k-th position from h on.
pub record Seen (n : ℕ) (l : NbbList) (q : List ℕ) (h p : ℕ) : Type 0 where
  pub k : ℕ
  pub ver : ℕ
  pub val : ℕ
  pub inside : k < n
  pub index : (h + k) % n ≡ p % n
  pub entry : l.entries (p % n) ≡ pack ver val
  pub kind : Kind n q h k ver val

get_elem?-cases : (q : List ℕ) (k : ℕ) → ((x : ℕ) × (get_elem? q k ≡ some x)) ⊎ (length q ≤ k)
get_elem?-cases [] k = inr (omega arith)
get_elem?-cases (x ∷ q) zero = inl (x, refl)
get_elem?-cases (x ∷ q) (suc k) = elim (get_elem?-cases q k) [
  | inl (y, e) ↦ inl (y, e)
  | inr le ↦ inr (omega (arith, le))
]

pub get_elem?-below : (q : List ℕ) (k x : ℕ) → get_elem? q k ≡ some x → k < length q
get_elem?-below [] k x e = absurd (ground arith)
get_elem?-below (y ∷ q) zero x e = omega arith
get_elem?-below (y ∷ q) (suc k) x e = omega (arith, get_elem?-below q k x e)

pub look : (n : ℕ) (l : NbbList) (q : List ℕ) (h p : ℕ) → 0 < n → Holds n l q h → Seen n l q h p
look n l q h p pos r =
    let (k, inside, index) = find_index n h p pos in
    elim (get_elem?-cases q k) [
      | inl (x, e) ↦ record {
        k = k;
        ver = (h + k) / n + 1;
        val = x;
        inside = inside;
        index = index;
        entry = ap l.entries (sym index) ∙ (r.occupied k x e).0;
        kind = inl (e, (r.occupied k x e).1, refl);
      }
      | inr le ↦ record {
        k = k;
        ver = (h + k) / n;
        val = 0;
        inside = inside;
        index = index;
        entry = ap l.entries (sym index) ∙ r.vacant k le inside;
        kind = inr (le, refl, refl);
      }
    ]

pub Seen-fits :
    (n : ℕ) (l : NbbList) (q : List ℕ) (h : ℕ)
    → Small n (h + length q)
    → (p : ℕ) (s : Seen n l q h p) → (s.ver < 2 ^ 32) × (s.val < 2 ^ 32)
Seen-fits n l q h small p s = by_kind s.kind
  where
    by_kind : Kind n q h s.k s.ver s.val → (s.ver < 2 ^ 32) × (s.val < 2 ^ 32)
    by_kind (inl (e, v, c)) =
        let below = get_elem?-below q s.k s.val e in
        (omega (arith, c, round_fits n (h + length q) (h + s.k) small (omega (arith, below))), v.1)
    by_kind (inr (le, z, c)) =
        let below : (h + s.k) / n < 2 ^ 32 =
          (div-lt_iff_lt-mul small.some_entry).1 (omega (arith, small.rounds, s.inside)) in
        (omega (arith, c, below), omega (arith, z))

-- The loaded entry, and what the code reads from it.
module _ (n : ℕ) (l : NbbList) (q : List ℕ) (h : ℕ) (small : Small n (h + length q))
    (r : Holds n l q h) (p : ℕ) (s : Seen n l q h p) where
  pub Seen-found : l.entries (p % l.length) ≡ pack s.ver s.val
  Seen-found = ap (λ (t : ℕ). l.entries (p % t)) r.ring ∙ s.entry

  pub Seen-val : nbb_list_val l (l.entries (p % l.length)) ≡ s.val
  Seen-val =
      ap (nbb_list_val l) Seen-found
      ∙ nbb_list_val-pack l s.ver s.val r.halves (Seen-fits n l q h small p s).1

  pub Seen-ver : nbb_list_ver l (l.entries (p % l.length)) ≡ s.ver
  Seen-ver =
      ap (nbb_list_ver l) Seen-found
      ∙ nbb_list_ver-pack l s.ver s.val r.halves (Seen-fits n l q h small p s).0
          (Seen-fits n l q h small p s).1

-- What an access leaves: the queue after its effect, still held by the ring, and the thread's state.
pub record Advanced (n : ℕ) (q : List ℕ) (h : ℕ) (e : Option Answer) (r : NbbList × Pc)
    : Type 0 where
  pub queue : List ℕ
  pub first : ℕ
  pub does : fifo_effect n q e ≡ some queue
  pub holds : Holds n r.0 queue first
  pub fits : PcFits n first (first + length queue) r.1
  pub first_later : h ≤ first
  pub last_later : h + length q ≤ first + length queue
  pub one_more : first + length queue ≤ suc (h + length q)

-- An access without an effect on the queue.
pub silent :
    (n : ℕ) (q : List ℕ) (h : ℕ) (l : NbbList) (pc : Pc)
    → Holds n l q h
    → PcFits n h (h + length q) pc
    → Advanced n q h none (l, pc)
unfolding fifo_effect
silent n q h l pc r f = record {
  queue = q;
  first = h;
  does = refl;
  holds = r;
  fits = f;
  first_later = omega arith;
  last_later = omega arith;
  one_more = omega arith;
}
