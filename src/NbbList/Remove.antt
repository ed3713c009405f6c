-- ===== src/NbbList/Remove.antt =====
-- The accesses of nbb_list_remove keep the ring a queue (TPCC/Server/core/nbblist.c).
use tiny_stm_reval.Prelude.{
  differ_of_test, ℕ, suc, ◌+◌, ◌/◌, ◌%◌, ◌^◌, ◌≤◌, ◌<◌, ◌≡◌, sym, ap, ◌∙◌, ◌≢◌, ◌⊎◌, inl, inr, true,
  false, none, some, List, [], ◌∷◌, arith, ltb, ◌==◌, ==_iff, Bool-cases, length, get_elem?,
  if_both,
}
use tiny_stm_reval.Word.{add_word}
use tiny_stm_reval.NbbList.{
  NbbList, removed, empty, Pc, nbb_list_val, nbb_list_ver, remove_look, remove_oldmask,
  remove_newmask, set_entry, advance, answer_in, effect,
}
use tiny_stm_reval.NbbList.Layout.{pack, nbb_list_val-pack, nbb_list_mask-pack, add_word-fits}
use tiny_stm_reval.NbbList.Window.{same_position, index_once, next_round, same_index}
use tiny_stm_reval.NbbList.Fifo.{
  fifo, fifo_effect, IsValue, Holds, Small, PcFits, round_fits, position_fits, Seen, Seen-fits,
  Seen-found, Seen-val, Seen-ver, Kind, get_elem?-below, look, Advanced, silent,
}

-- The three ways on from an entry that remove has loaded.
pub remove_look-cases :
    (l : NbbList) (p b m : ℕ)
    → ((remove_look l p b m ≡ Pc.remove_swap p b m)
        × (nbb_list_val l m ≢ 0)
        × (nbb_list_ver l m ≡ add_word (p / l.length) 1))
      ⊎ ((remove_look l p b m ≡ Pc.answered empty)
          × (nbb_list_val l m ≡ 0)
          × (nbb_list_ver l m ≡ p / l.length))
      ⊎ ((remove_look l p b m ≡ Pc.remove_read (add_word p 1) b)
          × ((nbb_list_val l m ≡ 0) ⊎ (nbb_list_ver l m ≢ add_word (p / l.length) 1))
          × ((nbb_list_val l m ≢ 0) ⊎ (nbb_list_ver l m ≢ p / l.length)))
unfolding remove_look
remove_look-cases l p b m =
    go (Bool-cases (nbb_list_val l m == 0))
      (Bool-cases (nbb_list_ver l m == add_word (p / l.length) 1))
      (Bool-cases (nbb_list_ver l m == p / l.length))
  where
    go :
        ((nbb_list_val l m == 0) ≡ true) ⊎ ((nbb_list_val l m == 0) ≡ false)
        → ((nbb_list_ver l m == add_word (p / l.length) 1) ≡ true)
          ⊎ ((nbb_list_ver l m == add_word (p / l.length) 1) ≡ false)
        → ((nbb_list_ver l m == p / l.length) ≡ true) ⊎ ((nbb_list_ver l m == p / l.length) ≡ false)
        → ((remove_look l p b m ≡ Pc.remove_swap p b m)
            × (nbb_list_val l m ≢ 0)
            × (nbb_list_ver l m ≡ add_word (p / l.length) 1))
          ⊎ ((remove_look l p b m ≡ Pc.answered empty)
              × (nbb_list_val l m ≡ 0)
              × (nbb_list_ver l m ≡ p / l.length))
          ⊎ ((remove_look l p b m ≡ Pc.remove_read (add_word p 1) b)
              × ((nbb_list_val l m ≡ 0) ⊎ (nbb_list_ver l m ≢ add_word (p / l.length) 1))
              × ((nbb_list_val l m ≢ 0) ⊎ (nbb_list_ver l m ≢ p / l.length)))
    go (inl a) y (inl c) = inr (inl (ground arith, (==_iff _ _).0 a, (==_iff _ _).0 c))
    go (inl a) y (inr c) =
        inr (inr (ground arith, inl ((==_iff _ _).0 a), inr (differ_of_test _ _ c)))
    go (inr a) (inl b) z = inl (ground arith, differ_of_test _ _ a, (==_iff _ _).0 b)
    go (inr a) (inr b) z =
        inr (inr (ground arith, inr (differ_of_test _ _ b), inl (differ_of_test _ _ a)))

module _ (n : ℕ) (l : NbbList) (q : List ℕ) (h : ℕ) (small : Small n (h + length q))
    (r : Holds n l q h) where
  nothing_here : (p : ℕ) (s : Seen n l q h p) → p ≤ h → s.val ≡ 0 → s.ver ≡ p / n → length q ≡ 0
  nothing_here p s le z c = by_kind s.kind
    where
      by_kind : Kind n q h s.k s.ver s.val → length q ≡ 0
      by_kind (inl (e, v, d)) = omega (arith, v.0, z)
      by_kind (inr (few, y, d)) =
          omega (arith, few, le, same_position n (h + s.k) p s.index (sym d ∙ c))

  pub more_ahead :
      (p : ℕ) (s : Seen n l q h p)
      → p ≤ h
      → (s.val ≡ 0) ⊎ (s.ver ≢ p / n + 1)
      → (s.val ≢ 0) ⊎ (s.ver ≢ p / n)
      → p + 1 ≤ h
  more_ahead p s le c1 c2 = elim (Bool-cases (p == h)) [
    | inl e ↦ absurd (here ((==_iff p h).0 e))
    | inr e ↦ let ne = differ_of_test p h e in omega (arith, ne, le)
  ]
    where
      by_kind : Kind n q h s.k s.ver s.val → (h + s.k ≡ p) → ⊥
      by_kind (inl (e, v, d)) g = elim c1 [
        | inl z ↦ omega (arith, v.0, z)
        | inr ne ↦ ne (d ∙ ap (λ (t : ℕ). t / n + 1) g)
      ]
      by_kind (inr (few, y, d)) g = elim c2 [
        | inl nz ↦ nz y
        | inr ne ↦ ne (d ∙ ap (λ (t : ℕ). t / n) g)
      ]

      here : p ≡ h → ⊥
      here e =
          by_kind s.kind
            (omega (arith, e, index_once n h s.k s.inside (s.index ∙ ap (λ (t : ℕ). t % n) e)))

  swap_ready : (p : ℕ) (s : Seen n l q h p) → s.val ≢ 0 → IsValue s.val
  swap_ready p s nz = by_kind s.kind
    where
      by_kind : Kind n q h s.k s.ver s.val → IsValue s.val
      by_kind (inl (e, v, d)) = v
      by_kind (inr (few, y, d)) = absurd (nz y)

  pub next_round_fits : (p : ℕ) → p ≤ h → add_word (p / l.length) 1 ≡ p / n + 1
  next_round_fits p le = rw r.ring (
      add_word-fits (p / n)
        (omega (arith, round_fits n (h + length q) p small (omega (arith, le)))))

  pub remove_read-Advanced :
      (p b : ℕ)
      → p ≤ h
      → Advanced n q h (effect l (Pc.remove_read p b)) (advance l (Pc.remove_read p b))
  unfolding effect advance answer_in fifo fifo_effect
  remove_read-Advanced p b le = elim (remove_look-cases l p b (l.entries (p % l.length))) [
    | inl (e, nz, c) ↦ rw e (
        silent n q h l (Pc.remove_swap p b (l.entries (p % l.length))) r (
          le,
          (
            s.val,
            Seen-found n l q h small r p s
                ∙ ap (λ (t : ℕ). pack t s.val) (sym ver ∙ c ∙ next_round_fits p le),
            swap_ready p s (λ z. nz (val ∙ z)),
          ),
        ))
    | inr (inl (e, z, c)) ↦ rw e (record {
      queue = q;
      first = h;
      does =
          ground
            (arith, nothing_here p s le (sym val ∙ z) (sym ver ∙ c ∙ ap (λ (t : ℕ). p / t) r.ring));
      holds = r;
      fits = tt;
      first_later = omega arith;
      last_later = omega arith;
      one_more = omega arith;
    })
    | inr (inr (e, c1, c2)) ↦ rw e (
        rw (add_word-fits p (position_fits n (h + length q) p small (omega (arith, le)))) (
          silent n q h l (Pc.remove_read (p + 1) b) r
            (more_ahead p s le (first_test c1) (second_test c2))))
  ]
    where
      s : Seen n l q h p
      s = look n l q h p small.some_entry r

      val : nbb_list_val l (l.entries (p % l.length)) ≡ s.val
      val = Seen-val n l q h small r p s

      ver : nbb_list_ver l (l.entries (p % l.length)) ≡ s.ver
      ver = Seen-ver n l q h small r p s

      first_test :
          (nbb_list_val l (l.entries (p % l.length)) ≡ 0)
            ⊎ (nbb_list_ver l (l.entries (p % l.length)) ≢ add_word (p / l.length) 1)
          → (s.val ≡ 0) ⊎ (s.ver ≢ p / n + 1)
      first_test (inl z) = inl (sym val ∙ z)
      first_test (inr ne) = inr (λ e. ne (ver ∙ e ∙ sym (next_round_fits p le)))

      second_test :
          (nbb_list_val l (l.entries (p % l.length)) ≢ 0)
            ⊎ (nbb_list_ver l (l.entries (p % l.length)) ≢ p / l.length)
          → (s.val ≢ 0) ⊎ (s.ver ≢ p / n)
      second_test (inl nz) = inl (λ e. nz (val ∙ e))
      second_test (inr ne) = inr (λ e. ne (ver ∙ e ∙ ap (λ (t : ℕ). p / t) (sym r.ring)))

  -- The compare-and-swap that succeeds finds the first value.
  swap_first :
      (p x : ℕ)
      → p ≤ h
      → IsValue x
      → l.entries (p % l.length) ≡ pack (p / n + 1) x
      → (p ≡ h) × (get_elem? q 0 ≡ some x)
  swap_first p x le v found = by_kind s.kind
    where
      s : Seen n l q h p
      s = look n l q h p small.some_entry r

      same : (s.ver ≡ p / n + 1) × (s.val ≡ x)
      same =
          let both = sym (Seen-found n l q h small r p s) ∙ found in
          let b = (Seen-fits n l q h small p s).1 in
          (omega (arith, both, b, v.1), omega (arith, both, b, v.1))

      by_kind : Kind n q h s.k s.ver s.val → (p ≡ h) × (get_elem? q 0 ≡ some x)
      by_kind (inl (e, w, d)) =
          let here : h + s.k ≡ p = same_position n (h + s.k) p s.index (omega (arith, d, same.0)) in
          let none : s.k ≡ 0 = omega (arith, here, le) in
          (omega (arith, here, le), ap (get_elem? q) (sym none) ∙ e ∙ ap (λ (t : ℕ). some t) same.1)
      by_kind (inr (few, z, d)) = absurd (omega (arith, z, same.1, v.0))

-- The ring after the first value is taken.
module _ (n : ℕ) (l : NbbList) (x : ℕ) (q : List ℕ) (h : ℕ) (pos : 0 < n)
    (r : Holds n l (x ∷ q) h) where
  taken : NbbList
  taken = set_entry l h (pack (h / n + 1) 0)

  taken-else : (d : ℕ) → 0 < d → d < n → taken.entries ((h + d) % n) ≡ l.entries ((h + d) % n)
  unfolding set_entry taken
  taken-else d nz lt = rw r.ring (ground (arith, index_once n h d lt))

  taken-here : taken.entries (h % n) ≡ pack (h / n + 1) 0
  unfolding set_entry taken
  taken-here = rw r.ring (ground arith)

  taken-occupied :
      (k y : ℕ)
      → get_elem? q k ≡ some y
      → (taken.entries ((suc h + k) % n) ≡ pack ((suc h + k) / n + 1) y) × IsValue y
  taken-occupied k y e =
      let same : suc h + k ≡ h + suc k = omega arith in
      let old = r.occupied (suc k) y e in
      let below : suc k < n = omega (arith, get_elem?-below q k y e, r.few) in
      (
        ap (λ (t : ℕ). taken.entries (t % n)) same
            ∙ taken-else (suc k) (omega arith) below
            ∙ old.0
            ∙ ap (λ (t : ℕ). pack (t / n + 1) y) (sym same),
        old.1,
      )

  taken-vacant :
      (k : ℕ) → length q ≤ k → k < n → taken.entries ((suc h + k) % n) ≡ pack ((suc h + k) / n) 0
  taken-vacant k few lt = elim (Bool-cases (suc k == n)) [
    | inl e ↦
        let same : suc h + k ≡ h + n = omega (arith, (==_iff (suc k) n).0 e) in
        ap (λ (t : ℕ). taken.entries (t % n)) same
        ∙ ap taken.entries (same_index n h)
        ∙ taken-here
        ∙ ap (λ (t : ℕ). pack t 0) (sym (next_round n h pos) ∙ ap (λ (t : ℕ). t / n) (sym same))
    | inr e ↦
        let same : suc h + k ≡ h + suc k = omega arith in
        let below : suc k < n = (let ne = differ_of_test (suc k) n e in omega (arith, ne, lt)) in
        ap (λ (t : ℕ). taken.entries (t % n)) same
        ∙ taken-else (suc k) (omega arith) below
        ∙ r.vacant (suc k) (omega (arith, few)) below
        ∙ ap (λ (t : ℕ). pack (t / n) 0) (sym same)
  ]

  taken-Holds : Holds n taken q (suc h)
  unfolding taken set_entry
  taken-Holds = record {
    halves = record {
      val_nbits = r.halves.val_nbits;
      ver_nbits = r.halves.ver_nbits;
      val_mask = r.halves.val_mask;
      ver_mask = r.halves.ver_mask;
    };
    ring = r.ring;
    head = omega (arith, r.head);
    tail = omega (arith, r.tail);
    few = omega (arith, r.few);
    occupied = taken-occupied;
    vacant = taken-vacant;
  }

module _ (n : ℕ) (l : NbbList) (h : ℕ) where
  take_first :
      (q : List ℕ) (p b x : ℕ)
      → Small n (h + length q)
      → Holds n l q h
      → p ≡ h
      → get_elem? q 0 ≡ some x
      → (m : ℕ) → m ≡ pack (p / n + 1) 0
      → (o : ℕ) → nbb_list_val l o ≡ x
      → Advanced n q h
          (some (removed (nbb_list_val l o)))
          (set_entry l p m, Pc.remove_publish p b o)
  unfolding fifo fifo_effect set_entry taken
  take_first [] p b x small r e g m f o v = absurd (ground arith)
  take_first (y ∷ q) p b x small r e g m f o v = record {
    queue = q;
    first = suc h;
    does = ground arith;
    holds = rw (f, e) (taken-Holds n l y q h small.some_entry r);
    fits = omega (arith, e);
    first_later = omega arith;
    last_later = omega arith;
    one_more = omega arith;
  }

  pub remove_swap-Advanced :
      (q : List ℕ) (p b m : ℕ)
      → Small n (h + length q)
      → Holds n l q h
      → PcFits n h (h + length q) (Pc.remove_swap p b m)
      → Advanced n q h (effect l (Pc.remove_swap p b m)) (advance l (Pc.remove_swap p b m))
  unfolding effect advance remove_oldmask remove_newmask
  remove_swap-Advanced q p b m small r (le, (x, is, v)) =
      elim (Bool-cases (l.entries (p % l.length) == remove_oldmask l p m)) [
        | inl e ↦ rw e (
            let first = swap_first n l q h small r p x le v ((==_iff _ _).0 e ∙ old) in
            take_first q p b x small r first.0 first.1 (remove_newmask l p) new
              (remove_oldmask l p m)
              (ap (nbb_list_val l) old ∙ nbb_list_val-pack l (p / n + 1) x r.halves v.1))
        | inr e ↦ rw e (silent n q h l Pc.remove_start r tt)
      ]
    where
      round : p / n + 1 < 2 ^ 32
      round = round_fits n (h + length q) p small (omega (arith, le))

      value : nbb_list_val l m ≡ x
      value = ap (nbb_list_val l) is ∙ nbb_list_val-pack l (p / n + 1) x r.halves v.1

      old : remove_oldmask l p m ≡ pack (p / n + 1) x
      old =
          rw (value, next_round_fits n l q h small r p le)
            (nbb_list_mask-pack l (p / n + 1) x r.halves round v.1)

      new : remove_newmask l p ≡ pack (p / n + 1) 0
      new =
          rw (next_round_fits n l q h small r p le)
            (nbb_list_mask-pack l (p / n + 1) 0 r.halves round (omega arith))

  move_head : (q : List ℕ) (v : ℕ) → Holds n l q h → v ≤ h → Holds n (record l { head = v }) q h
  move_head q v r le = record {
    halves = record {
      val_nbits = r.halves.val_nbits;
      ver_nbits = r.halves.ver_nbits;
      val_mask = r.halves.val_mask;
      ver_mask = r.halves.ver_mask;
    };
    ring = r.ring;
    head = le;
    tail = r.tail;
    few = r.few;
    occupied = r.occupied;
    vacant = r.vacant;
  }

  pub remove_publish-Advanced :
      (q : List ℕ) (p b m : ℕ)
      → Small n (h + length q)
      → Holds n l q h
      → suc p ≤ h
      → Advanced n q h (effect l (Pc.remove_publish p b m)) (advance l (Pc.remove_publish p b m))
  unfolding effect advance
  remove_publish-Advanced q p b m small r le =
      if_both (ltb b (add_word p 1)) (Advanced n q h none)
        (if_both (l.head == b) (Advanced n q h none)
          (silent n q h (record l { head = add_word p 1 })
            (Pc.answered (removed (nbb_list_val l m)))
            (move_head q (add_word p 1) r (
              omega (
                arith,
                le,
                add_word-fits p (position_fits n (h + length q) p small (omega (arith, le))),
              )))
            tt)
          (silent n q h l (Pc.remove_reload p m) r le))
        (silent n q h l (Pc.answered (removed (nbb_list_val l m))) r tt)
