-- ===== src/NbbList/Insert.antt =====
-- The accesses of nbb_list_insert keep the ring a queue (TPCC/Server/core/nbblist.c).
use tiny_stm_reval.Prelude.{
  differ_of_test, ℕ, zero, suc, ◌+◌, ◌/◌, ◌%◌, ◌^◌, ◌≤◌, ◌<◌, ◌≡◌, refl, sym, ap, ◌∙◌, ◌≢◌, ◌⊎◌,
  inl, inr, true, false, none, some, List, [], ◌∷◌, ◌++◌, arith, ltb, ◌==◌, ==_iff, Bool-cases,
  length, get_elem?, length-append, if_both,
}
use tiny_stm_reval.Word.{add_word}
use tiny_stm_reval.NbbList.{
  NbbList, inserted, full, Pc, nbb_list_val, nbb_list_ver, nbb_list_mask, insert_look,
  insert_oldmask, insert_newmask, set_entry, advance, answer_in, effect,
}
use tiny_stm_reval.NbbList.Layout.{pack, nbb_list_mask-pack, add_word-fits}
use tiny_stm_reval.NbbList.Window.{
  same_position, later_position, same_offset, index_once, next_round, same_index,
}
use tiny_stm_reval.NbbList.Fifo.{
  fifo, fifo_effect, IsValue, Holds, Small, PcFits, round_fits, position_fits, Seen, Seen-fits,
  Kind, Seen-found, Seen-val, Seen-ver, get_elem?-below, look, Advanced, silent,
}

-- The three ways on from an entry that insert has loaded.
pub insert_look-cases :
    (l : NbbList) (v p b m : ℕ)
    → ((insert_look l v p b m ≡ Pc.insert_swap v p b)
        × (nbb_list_val l m ≡ 0)
        × (nbb_list_ver l m ≡ p / l.length))
      ⊎ ((insert_look l v p b m ≡ Pc.answered full)
          × (nbb_list_val l m ≢ 0)
          × (nbb_list_ver l m ≡ p / l.length))
      ⊎ ((insert_look l v p b m ≡ Pc.insert_read v (add_word p 1) b)
          × (nbb_list_ver l m ≢ p / l.length))
unfolding insert_look
insert_look-cases l v p b m =
    go (Bool-cases (nbb_list_val l m == 0)) (Bool-cases (nbb_list_ver l m == p / l.length))
  where
    go :
        ((nbb_list_val l m == 0) ≡ true) ⊎ ((nbb_list_val l m == 0) ≡ false)
        → ((nbb_list_ver l m == p / l.length) ≡ true) ⊎ ((nbb_list_ver l m == p / l.length) ≡ false)
        → ((insert_look l v p b m ≡ Pc.insert_swap v p b)
            × (nbb_list_val l m ≡ 0)
            × (nbb_list_ver l m ≡ p / l.length))
          ⊎ ((insert_look l v p b m ≡ Pc.answered full)
              × (nbb_list_val l m ≢ 0)
              × (nbb_list_ver l m ≡ p / l.length))
          ⊎ ((insert_look l v p b m ≡ Pc.insert_read v (add_word p 1) b)
              × (nbb_list_ver l m ≢ p / l.length))
    go (inl x) (inl y) = inl (ground arith, (==_iff _ _).0 x, (==_iff _ _).0 y)
    go (inr x) (inl y) = inr (inl (ground arith, differ_of_test _ _ x, (==_iff _ _).0 y))
    go (inl x) (inr y) = inr (inr (ground arith, differ_of_test _ _ y))
    go (inr x) (inr y) = inr (inr (ground arith, differ_of_test _ _ y))

module _ (n : ℕ) (l : NbbList) (q : List ℕ) (h : ℕ) (small : Small n (h + length q))
    (r : Holds n l q h) where
  no_room :
      (p : ℕ) (s : Seen n l q h p) → p ≤ h + length q → s.val ≢ 0 → s.ver ≡ p / n → length q ≡ n
  no_room p s le nz c = by_kind s.kind
    where
      by_kind : Kind n q h s.k s.ver s.val → length q ≡ n
      by_kind (inl (e, v, d)) =
          omega
            (arith, r.few, le, later_position n (h + s.k) p small.some_entry s.index (sym d ∙ c))
      by_kind (inr (few, y, d)) = absurd (nz y)

  -- At the end of the queue the entry is free, or belongs to the first value of a full ring.
  at_end : (p : ℕ) (s : Seen n l q h p) → p ≡ h + length q → s.ver ≡ p / n
  at_end p s e = by_room (Bool-cases (length q == n)) s.kind
    where
      by_room :
          ((length q == n) ≡ true) ⊎ ((length q == n) ≡ false)
          → Kind n q h s.k s.ver s.val
          → s.ver ≡ p / n
      by_room (inl f) kind =
          let whole : p ≡ h + n = e ∙ ap (λ (t : ℕ). h + t) ((==_iff _ _).0 f) in
          let first =
            index_once n h s.k s.inside (s.index ∙ ap (λ (t : ℕ). t % n) whole ∙ same_index n h) in
          elim kind [
            | inl (g, v, d) ↦
                d
                ∙ ap (λ (t : ℕ). t / n + 1) (omega (arith, first))
                ∙ sym (next_round n h small.some_entry)
                ∙ ap (λ (t : ℕ). t / n) (sym whole)
            | inr (few, y, d) ↦
                absurd (omega (arith, few, first, (==_iff _ _).0 f, small.some_entry))
          ]
      by_room (inr f) kind =
          let ne = differ_of_test _ _ f in
          let room : length q < n = omega (arith, ne, r.few) in
          let last =
            same_offset n h s.k (length q) s.inside room (s.index ∙ ap (λ (t : ℕ). t % n) e) in
          elim kind [
            | inl (g, v, d) ↦ absurd (omega (arith, get_elem?-below q s.k s.val g, last))
            | inr (few, y, d) ↦ d ∙ ap (λ (t : ℕ). t / n) (omega (arith, last, e))
          ]

  pub room_ahead :
      (p : ℕ) (s : Seen n l q h p) → p ≤ h + length q → s.ver ≢ p / n → p + 1 ≤ h + length q
  room_ahead p s le ne = elim (Bool-cases (p == h + length q)) [
    | inl e ↦ absurd (ne (at_end p s ((==_iff _ _).0 e)))
    | inr e ↦ let other = differ_of_test _ _ e in omega (arith, other, le)
  ]

  pub insert_read-Advanced :
      (v p b : ℕ)
      → PcFits n h (h + length q) (Pc.insert_read v p b)
      → Advanced n q h (effect l (Pc.insert_read v p b)) (advance l (Pc.insert_read v p b))
  unfolding effect advance answer_in fifo fifo_effect
  insert_read-Advanced v p b (is, le) =
      elim (insert_look-cases l v p b (l.entries (p % l.length))) [
        | inl (e, z, c) ↦ rw e (silent n q h l (Pc.insert_swap v p b) r (is, le))
        | inr (inl (e, nz, c)) ↦ rw e (record {
          queue = q;
          first = h;
          does = ground (
            arith,
            no_room p s le (λ z. nz (val ∙ z)) (sym ver ∙ c ∙ ap (λ (t : ℕ). p / t) r.ring),
          );
          holds = r;
          fits = tt;
          first_later = omega arith;
          last_later = omega arith;
          one_more = omega arith;
        })
        | inr (inr (e, ne)) ↦ rw e (
            rw (add_word-fits p (position_fits n (h + length q) p small le)) (
              silent n q h l (Pc.insert_read v (p + 1) b) r
                (is, room_ahead p s le (λ e. ne (ver ∙ e ∙ ap (λ (t : ℕ). p / t) (sym r.ring))))))
      ]
    where
      s : Seen n l q h p
      s = look n l q h p small.some_entry r

      val : nbb_list_val l (l.entries (p % l.length)) ≡ s.val
      val = Seen-val n l q h small r p s

      ver : nbb_list_ver l (l.entries (p % l.length)) ≡ s.ver
      ver = Seen-ver n l q h small r p s

  -- The compare-and-swap that succeeds finds the first free position.
  swap_last :
      (p : ℕ)
      → p ≤ h + length q
      → l.entries (p % l.length) ≡ pack (p / n) 0
      → (p ≡ h + length q) × (length q < n)
  swap_last p le found = by_kind s.kind
    where
      s : Seen n l q h p
      s = look n l q h p small.some_entry r

      same : (s.ver ≡ p / n) × (s.val ≡ 0)
      same =
          let both = sym (Seen-found n l q h small r p s) ∙ found in
          let b = (Seen-fits n l q h small p s).1 in
          (omega (arith, both, b), omega (arith, both, b))

      by_kind : Kind n q h s.k s.ver s.val → (p ≡ h + length q) × (length q < n)
      by_kind (inl (e, w, d)) = absurd (omega (arith, w.0, same.1))
      by_kind (inr (few, z, d)) =
          let here : h + s.k ≡ p = same_position n (h + s.k) p s.index (sym d ∙ same.0) in
          (omega (arith, here, le, few), omega (arith, here, le, few, s.inside))

get_elem?-append_one :
    (q : List ℕ) (v k x : ℕ)
    → get_elem? (q ++ (v ∷ [])) k ≡ some x
    → (get_elem? q k ≡ some x) ⊎ ((k ≡ length q) × (v ≡ x))
get_elem?-append_one [] v zero x e = inr (refl, ground arith)
get_elem?-append_one [] v (suc k) x e = absurd (ground arith)
get_elem?-append_one (y ∷ q) v zero x e = inl e
get_elem?-append_one (y ∷ q) v (suc k) x e = elim (get_elem?-append_one q v k x e) [
  | inl f ↦ inl f
  | inr (f, g) ↦ inr (omega (arith, f), g)
]

-- The ring after a value is added.
module _ (n : ℕ) (l : NbbList) (v : ℕ) (q : List ℕ) (h : ℕ) (is : IsValue v) (room : length q < n)
    (r : Holds n l q h) where
  added : NbbList
  added = set_entry l (h + length q) (pack ((h + length q) / n + 1) v)

  more : length (q ++ (v ∷ [])) ≡ suc (length q)
  more = omega (arith, length-append q (v ∷ []))

  added-else :
      (d : ℕ) → d ≢ length q → d < n → added.entries ((h + d) % n) ≡ l.entries ((h + d) % n)
  unfolding set_entry added
  added-else d ne lt = rw r.ring (
      let other : (h + length q) % n ≢ (h + d) % n =
        λ e. ne (same_offset n h d (length q) lt room (sym e)) in
      ground arith)

  added-here : added.entries ((h + length q) % n) ≡ pack ((h + length q) / n + 1) v
  unfolding set_entry added
  added-here = rw r.ring (ground arith)

  added-occupied :
      (k y : ℕ)
      → get_elem? (q ++ (v ∷ [])) k ≡ some y
      → (added.entries ((h + k) % n) ≡ pack ((h + k) / n + 1) y) × IsValue y
  added-occupied k y e = elim (get_elem?-append_one q v k y e) [
    | inl f ↦
        let below = get_elem?-below q k y f in
        let old = r.occupied k y f in
        (added-else k (omega (arith, below)) (omega (arith, below, room)) ∙ old.0, old.1)
    | inr (f, g) ↦ rw (f, sym g) (added-here, is)
  ]

  added-Holds : Holds n added (q ++ (v ∷ [])) h
  unfolding added set_entry
  added-Holds = record {
    halves = record {
      val_nbits = r.halves.val_nbits;
      ver_nbits = r.halves.ver_nbits;
      val_mask = r.halves.val_mask;
      ver_mask = r.halves.ver_mask;
    };
    ring = r.ring;
    head = r.head;
    tail = omega (arith, r.tail, more);
    few = omega (arith, room, more);
    occupied = added-occupied;
    vacant = λ k le lt.
        added-else k (omega (arith, le, more)) lt ∙ r.vacant k (omega (arith, le, more)) lt;
  }

module _ (n : ℕ) (l : NbbList) (h : ℕ) where
  add_last :
      (q : List ℕ) (v p b : ℕ)
      → Holds n l q h
      → IsValue v
      → p ≡ h + length q
      → length q < n
      → (m : ℕ) → m ≡ pack (p / n + 1) v
      → Advanced n q h (some (inserted v)) (set_entry l p m, Pc.insert_publish v p b)
  unfolding fifo fifo_effect set_entry added
  add_last q v p b r is e room m f = record {
    queue = q ++ (v ∷ []);
    first = h;
    does = ground (arith, room);
    holds = rw (f, e) (added-Holds n l v q h is room r);
    fits = omega (arith, e, longer);
    first_later = omega arith;
    last_later = omega (arith, longer);
    one_more = omega (arith, longer);
  }
    where
      longer : length (q ++ (v ∷ [])) ≡ suc (length q)
      longer = omega (arith, length-append q (v ∷ []))

  pub insert_swap-Advanced :
      (q : List ℕ) (v p b : ℕ)
      → Small n (h + length q)
      → Holds n l q h
      → PcFits n h (h + length q) (Pc.insert_swap v p b)
      → Advanced n q h (effect l (Pc.insert_swap v p b)) (advance l (Pc.insert_swap v p b))
  unfolding effect advance insert_oldmask insert_newmask
  insert_swap-Advanced q v p b small r (is, le) =
      elim (Bool-cases (l.entries (p % l.length) == insert_oldmask l p)) [
        | inl e ↦ rw e (
            let last = swap_last n l q h small r p le ((==_iff _ _).0 e ∙ old) in
            add_last q v p b r is last.0 last.1 (insert_newmask l v p) new)
        | inr e ↦ rw e (silent n q h l (Pc.insert_start v) r is)
      ]
    where
      round : p / n + 1 < 2 ^ 32
      round = round_fits n (h + length q) p small le

      old : insert_oldmask l p ≡ pack (p / n) 0
      old =
          ap (λ (t : ℕ). nbb_list_mask l (p / t) 0) r.ring
          ∙ nbb_list_mask-pack l (p / n) 0 r.halves (omega (arith, round)) (omega arith)

      new : insert_newmask l v p ≡ pack (p / n + 1) v
      new =
          ap (λ (t : ℕ). nbb_list_mask l (add_word (p / t) 1) v) r.ring
          ∙ ap (λ (t : ℕ). nbb_list_mask l t v) (add_word-fits (p / n) (omega (arith, round)))
          ∙ nbb_list_mask-pack l (p / n + 1) v r.halves round is.1

  move_tail :
      (q : List ℕ) (v : ℕ) → Holds n l q h → v ≤ h + length q → Holds n (record l { tail = v }) q h
  move_tail q v r le = record {
    halves = record {
      val_nbits = r.halves.val_nbits;
      ver_nbits = r.halves.ver_nbits;
      val_mask = r.halves.val_mask;
      ver_mask = r.halves.ver_mask;
    };
    ring = r.ring;
    head = r.head;
    tail = le;
    few = r.few;
    occupied = r.occupied;
    vacant = r.vacant;
  }

  pub insert_publish-Advanced :
      (q : List ℕ) (v p b : ℕ)
      → Small n (h + length q)
      → Holds n l q h
      → suc p ≤ h + length q
      → Advanced n q h (effect l (Pc.insert_publish v p b)) (advance l (Pc.insert_publish v p b))
  unfolding effect advance
  insert_publish-Advanced q v p b small r le =
      let next = add_word-fits p (position_fits n (h + length q) p small (omega (arith, le))) in
      if_both (ltb b (add_word p 1)) (Advanced n q h none)
        (if_both (l.tail == b) (Advanced n q h none)
          (silent n q h (record l { tail = add_word p 1 }) (Pc.answered (inserted v))
            (move_tail q (add_word p 1) r (omega (arith, le, next))) tt)
          (silent n q h l (Pc.insert_reload v p) r le))
        (silent n q h l (Pc.answered (inserted v)) r tt)
