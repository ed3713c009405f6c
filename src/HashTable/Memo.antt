-- ===== src/HashTable/Memo.antt =====
-- What hashT_get finds is what mb_calculate computes (tinySTM/src/mb-hash-table.c).
use tiny_stm_reval.Prelude.{
  ℕ, ◌/◌, ◌%◌, ◌^◌, ◌<◌, ◌≡◌, refl, sym, ap, ◌∙◌, ◌↔◌, ◌⊎◌, inl, inr, Bool, true, false, ◌&&◌, none,
  some, List, [], ◌∷◌, arith, ◌==◌, if◌then◌else◌, ==_iff, Bool-cases, Option-cases, All, if_both,
}
use mathlib.Core.Path.{subst}
use mathlib.Core.Option.{some-injective}
use tiny_stm_reval.HashTable.{
  Float64, Data, round_double, round_tv, hash_t_idx, hash_t_size, mb_calculate, find_data, look_up,
  hash_t_get,
}
use tiny_stm_reval.HashTable.Ends.{mb_calculate_ends}

-- The index is inside the table, whatever the bits of the arguments are.
pub hash_t_idx_fits : (tv ur acc : ℕ) → hash_t_idx tv ur acc < hash_t_size
unfolding hash_t_idx
hash_t_idx_fits tv ur acc =
    let a : tv / 2 ^ 24 % 512 < 512 = omega arith in
    let b : ur % 2 ^ 52 / 2 ^ 43 < 512 = omega arith in
    let c : acc % 2 ^ 52 / 2 ^ 43 < 512 = omega arith in omega (arith, a, b, c)

-- Two rounded doubles, which are neither NaN nor the negative zero, compare equal exactly when they
-- are the same.
pub record Ieee (d : Float64) : Type 0 where
  pub same_iff :
      (x y : d.F) (m n : ℕ)
      → round_double (d.bits x) ≡ some m
      → round_double (d.bits y) ≡ some n
      → (d.same (d.of_bits m) (d.of_bits n) ≡ true) ↔ (d.of_bits m ≡ d.of_bits n)

and_both : (a b : Bool) → (a && b) ≡ true → (a ≡ true) × (b ≡ true)
and_both true b e = (refl, e)
and_both false b e = cc

module _ (d : Float64) where
  open d use {F, bits, of_bits, same}

  -- A double that comes from rounding.
  abbrev pub Rounded : F → Type 0
  Rounded u = (x : F) × (m : ℕ) × (round_double (bits x) ≡ some m) × (u ≡ of_bits m)

  -- A block that holds what mb_calculate computes from its keys.
  abbrev pub Good : Data F → Type 0
  Good x =
      Rounded x.u_rate
      × Rounded x.a_read
      × (mb_calculate d x.t_validation x.u_rate x.a_read ≡ some x)

  abbrev pub Calculated : (ℕ → List (Data F)) → Type 0
  Calculated table = (i : ℕ) → All Good (table i)

  module _ (ieee : Ieee d) where
    Rounded-same : (u v : F) → Rounded u → Rounded v → (same u v ≡ true) ↔ (u ≡ v)
    Rounded-same u v (x, m, e, p) (y, n, f, q) =
        subst (λ u. (same u v ≡ true) ↔ (u ≡ v)) (sym p)
          (subst (λ v. (same (of_bits m) v ≡ true) ↔ (of_bits m ≡ v)) (sym q)
            (ieee.same_iff x y m n e f))

    abbrev matches : ℕ → F → F → Data F → Bool
    matches tv u a x = (tv == x.t_validation && same u x.u_rate) && same a x.a_read

    find_here :
        (tv : ℕ) (u a : F) (y : Data F) (ys : List (Data F))
        → matches tv u a y ≡ true
        → find_data d tv u a (y ∷ ys) ≡ some y
    unfolding find_data
    find_here tv u a y ys e = rw e refl

    find_next :
        (tv : ℕ) (u a : F) (y : Data F) (ys : List (Data F))
        → matches tv u a y ≡ false
        → find_data d tv u a (y ∷ ys) ≡ find_data d tv u a ys
    unfolding find_data
    find_next tv u a y ys e = rw e refl

    find_data-Good :
        (tv : ℕ) (u a : F) (xs : List (Data F)) (x : Data F)
        → All Good xs
        → find_data d tv u a xs ≡ some x
        → Good x × (matches tv u a x ≡ true)
    unfolding find_data
    find_data-Good tv u a [] x g h = cc
    find_data-Good tv u a (y ∷ ys) x g h =
        at (Bool-cases (matches tv u a y)) (find_data-Good tv u a ys x g.1)
      where
        at :
            (matches tv u a y ≡ true) ⊎ (matches tv u a y ≡ false)
            → (find_data d tv u a ys ≡ some x → Good x × (matches tv u a x ≡ true))
            → Good x × (matches tv u a x ≡ true)
        at (inl e) ih =
            subst (λ z. Good z × (matches tv u a z ≡ true))
              (some-injective _ _ (sym (find_here tv u a y ys e) ∙ h)) (g.0, e)
        at (inr e) ih = ih (sym (find_next tv u a y ys e) ∙ h)

    matches_equal :
        (tv : ℕ) (u a : F) (x : Data F)
        → Rounded u
        → Rounded a
        → Good x
        → matches tv u a x ≡ true
        → mb_calculate d tv u a ≡ some x
    matches_equal tv u a x ru ra (rx, ry, c) e =
        let (p, q) = and_both (tv == x.t_validation && same u x.u_rate) (same a x.a_read) e in
        let (r, s) = and_both (tv == x.t_validation) (same u x.u_rate) p in
        let et = (==_iff tv x.t_validation).0 r in
        let eu = (Rounded-same u x.u_rate ru rx).0 s in
        let ea = (Rounded-same a x.a_read ra ry).0 q in rw (et, eu, ea) c

    -- A rounded block finds itself.
    matches_itself :
        (x : Data F)
        → Rounded x.u_rate
        → Rounded x.a_read
        → matches x.t_validation x.u_rate x.a_read x ≡ true
    matches_itself x ru ra =
        let r = (==_iff x.t_validation x.t_validation).1 refl in
        let s = (Rounded-same x.u_rate x.u_rate ru ru).1 refl in
        let t = (Rounded-same x.a_read x.a_read ra ra).1 refl in rw (r, s, t) refl

    -- What holds of a look-up.
    abbrev Memo : ℕ → ℕ → ℕ → (ℕ → List (Data F)) → Type 0
    Memo tv m n table =
        (hit : ℕ) × (x : Data F) × (table' : ℕ → List (Data F)) × (look_up d tv m n table
          ≡ some (hit, some x, table'))
        × (mb_calculate d tv (of_bits m) (of_bits n) ≡ some x)
        × Calculated table'
        × (look_up d tv m n table' ≡ some (1, some x, table'))

    look_up_hit :
        (tv m n : ℕ) (table : ℕ → List (Data F)) (x : Data F)
        → find_data d tv (of_bits m) (of_bits n) (table (hash_t_idx tv m n)) ≡ some x
        → look_up d tv m n table ≡ some (1, some x, table)
    unfolding look_up
    look_up_hit tv m n table x e = rw (look_up, e) refl

    look_up_miss :
        (tv m n : ℕ) (table : ℕ → List (Data F)) (x : Data F)
        → find_data d tv (of_bits m) (of_bits n) (table (hash_t_idx tv m n)) ≡ none
        → mb_calculate d tv (of_bits m) (of_bits n) ≡ some x
        → look_up d tv m n table
          ≡ some (
            0,
            some x,
            λ j. if hash_t_idx tv m n == j then x ∷ table (hash_t_idx tv m n) else table j,
          )
    unfolding look_up
    look_up_miss tv m n table x e c = rw (look_up, e, c) refl

    look_up-Memo :
        (tv m n : ℕ) (table : ℕ → List (Data F))
        → tv < 2 ^ 64
        → Calculated table
        → Rounded (of_bits m)
        → Rounded (of_bits n)
        → Memo tv m n table
    look_up-Memo tv m n table fits good ru ra = elim (Option-cases (find_data d tv u a bucket)) [
      | inr (x, e) ↦
          let (g, same_keys) = find_data-Good tv u a bucket x (good idx) e in
          let run = look_up_hit tv m n table x e in
          (1, x, table, run, matches_equal tv u a x ru ra g same_keys, good, run)
      | inl e ↦
          let (x, c, ft, fu, fa, le) = mb_calculate_ends d tv u a fits in
          let table' : ℕ → List (Data F) = λ j. if idx == j then x ∷ bucket else table j in
          let rx = subst Rounded (sym fu) ru in
          let ry = subst Rounded (sym fa) ra in
          let g : Good x = (rx, ry, rw (ft, fu, fa) c) in
          let front : table' idx ≡ x ∷ bucket = rw ((==_iff idx idx).1 refl) refl in
          let own : matches tv u a x ≡ true =
            subst (λ v. matches tv v a x ≡ true) fu
              (subst (λ v. matches tv x.u_rate v x ≡ true) fa
                (subst (λ v. matches v x.u_rate x.a_read x ≡ true) ft (matches_itself x rx ry))) in
          (
            0,
            x,
            table',
            look_up_miss tv m n table x e c,
            c,
            λ j. if_both (idx == j) (All Good) (g, good idx) (good j),
            look_up_hit tv m n table' x
                (ap (find_data d tv u a) front ∙ find_here tv u a x bucket own),
          )
    ]
      where
        u : F
        u = of_bits m

        a : F
        a = of_bits n

        idx : ℕ
        idx = hash_t_idx tv m n

        bucket : List (Data F)
        bucket = table (hash_t_idx tv m n)

-- On a table all of whose blocks hold what mb_calculate computes from their keys, hashT_get ends and
-- gives the block that mb_calculate computes from the rounded arguments, whether it finds it or not;
-- the table is such a table then; and a second call with the same arguments finds that block and
-- changes nothing. The period has 64 bits, both rates are finite, and rounded doubles compare as
-- IEEE doubles do.
pub hash_t_get_memo :
    (d : Float64) (tv : ℕ) (ur acc : d.F) (m n : ℕ) (table : ℕ → List (Data d.F))
    → Ieee d
    → tv < 2 ^ 64
    → round_double (d.bits ur) ≡ some m
    → round_double (d.bits acc) ≡ some n
    → Calculated d table
    → (hit : ℕ) × (x : Data d.F) × (table' : ℕ → List (Data d.F)) × (hash_t_get d tv ur acc table
        ≡ some (hit, some x, table'))
      × (mb_calculate d (round_tv tv) (d.of_bits m) (d.of_bits n) ≡ some x)
      × Calculated d table'
      × (hash_t_get d tv ur acc table' ≡ some (1, some x, table'))
unfolding hash_t_get round_tv
hash_t_get_memo d tv ur acc m n table ieee fits em en good =
    let (hit, x, table', run, c, good', again) =
      look_up-Memo d ieee (round_tv tv) m n table (omega (arith, fits)) good (ur, m, em, refl)
        (acc, n, en, refl) in
    (hit, x, table', rw (hash_t_get, em, en) run, c, good', rw (hash_t_get, em, en) again)
