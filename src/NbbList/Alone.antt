-- ===== src/NbbList/Alone.antt =====
-- A call of nbb_list_insert or nbb_list_remove ends once its thread runs alone
-- (TPCC/Server/core/nbblist.c).
use tiny_stm_reval.Prelude.{
  ℕ, zero, suc, ◌+◌, ◌/◌, ◌%◌, ◌≤◌, ◌≡◌, refl, sym, ap, ◌∙◌, ◌≢◌, ◌⊎◌, inl, inr, true, List, arith,
  ltb, ◌==◌, ==_iff, length, if_both,
}
use mathlib.Core.Path.{subst}
use tiny_stm_reval.Word.{add_word}
use tiny_stm_reval.NbbList.{
  NbbList, Answer, inserted, removed, full, empty, Pc, nbb_list_val, nbb_list_ver, nbb_list_mask,
  insert_oldmask, insert_newmask, remove_oldmask, remove_newmask, set_entry, advance,
}
use tiny_stm_reval.NbbList.Layout.{pack, nbb_list_mask-pack, add_word-fits}
use tiny_stm_reval.NbbList.Fifo.{
  Holds, Small, round_fits, position_fits, Seen, Seen-fits, Seen-found, Seen-val, Seen-ver, look,
}
use tiny_stm_reval.NbbList.Insert.{insert_look-cases, room_ahead}
use tiny_stm_reval.NbbList.Remove.{remove_look-cases, next_round_fits, more_ahead}

-- k accesses of one thread, with none of another in between.
unfoldable pub alone : ℕ → NbbList × Pc → NbbList × Pc
alone zero x = x
alone (suc k) (l, pc) = alone k (advance l pc)

-- The call has answered after k accesses.
abbrev pub Ends : ℕ → NbbList × Pc → Type 0
Ends k x = (a : Answer) × ((alone k x).1 ≡ Pc.answered a)

pub answered-Ends : (k : ℕ) (l : NbbList) (a : Answer) → Ends k (l, Pc.answered a)
unfolding alone advance
answered-Ends zero l a = (a, refl)
answered-Ends (suc k) l a = answered-Ends k l a

pub Ends-more : (k m : ℕ) (l : NbbList) (pc : Pc) → k ≤ m → Ends k (l, pc) → Ends m (l, pc)
unfolding alone
Ends-more zero m l pc le (a, e) = subst (λ (c : Pc). Ends m (l, c)) (sym e) (answered-Ends m l a)
Ends-more (suc k) zero l pc le h = absurd (omega (arith, le))
Ends-more (suc k) (suc m) l pc le h =
    Ends-more k m (advance l pc).0 (advance l pc).1 (omega (arith, le)) h

pub publish-Ends : (v p b : ℕ) (l : NbbList) → Ends 3 (l, Pc.insert_publish v p b)
unfolding alone advance
publish-Ends v p b l =
    if_both (ltb b (add_word p 1)) (Ends 2)
      (if_both (l.tail == b) (Ends 2)
        (answered-Ends 2 (record l { tail = add_word p 1 }) (inserted v)) again)
      (answered-Ends 2 l (inserted v))
  where
    again : Ends 2 (l, Pc.insert_reload v p)
    again =
        if_both (ltb l.tail (add_word p 1)) (Ends 0)
          (rw ((==_iff l.tail l.tail).1 refl)
            (answered-Ends 0 (record l { tail = add_word p 1 }) (inserted v)))
          (answered-Ends 0 l (inserted v))

pub unpublish-Ends : (p b m : ℕ) (l : NbbList) → Ends 3 (l, Pc.remove_publish p b m)
unfolding alone advance
unpublish-Ends p b m l =
    if_both (ltb b (add_word p 1)) (Ends 2)
      (if_both (l.head == b) (Ends 2)
        (answered-Ends 2 (record l { head = add_word p 1 }) (removed (nbb_list_val l m))) again)
      (answered-Ends 2 l (removed (nbb_list_val l m)))
  where
    again : Ends 2 (l, Pc.remove_reload p m)
    again =
        if_both (ltb l.head (add_word p 1)) (Ends 0)
          (rw ((==_iff l.head l.head).1 refl)
            (answered-Ends 0 (record l { head = add_word p 1 }) (removed (nbb_list_val l m))))
          (answered-Ends 0 l (removed (nbb_list_val l m)))

pub insert_swap-Ends :
    (v p b : ℕ) (l : NbbList)
    → (l.entries (p % l.length) == insert_oldmask l p) ≡ true
    → Ends 4 (l, Pc.insert_swap v p b)
unfolding alone advance
insert_swap-Ends v p b l t = rw t (publish-Ends v p b (set_entry l p (insert_newmask l v p)))

pub remove_swap-Ends :
    (p b m : ℕ) (l : NbbList)
    → (l.entries (p % l.length) == remove_oldmask l p m) ≡ true
    → Ends 4 (l, Pc.remove_swap p b m)
unfolding alone advance
remove_swap-Ends p b m l t =
    rw t (unpublish-Ends p b (remove_oldmask l p m) (set_entry l p (remove_newmask l p)))

module _ (n : ℕ) (l : NbbList) (q : List ℕ) (h : ℕ) (small : Small n (h + length q))
    (r : Holds n l q h) where
  -- Each load that goes on comes nearer to the end of the queue.
  pub insert_read-Ends :
      (d m v p b : ℕ) → p + d ≡ h + length q → d + 5 ≤ m → Ends m (l, Pc.insert_read v p b)
  unfolding alone advance insert_oldmask
  insert_read-Ends d zero v p b e le = absurd (omega (arith, le))
  insert_read-Ends d (suc m) v p b e le =
      elim (insert_look-cases l v p b (l.entries (p % l.length))) [
        | inl (g, z, c) ↦
            subst (λ (c : Pc). Ends m (l, c)) (sym g)
              (Ends-more 4 m l (Pc.insert_swap v p b) (omega (arith, le))
                (insert_swap-Ends v p b l ((==_iff _ _).1 (free z c ∙ sym old))))
        | inr (inl (g, nz, c)) ↦ subst (λ (c : Pc). Ends m (l, c)) (sym g) (answered-Ends m l full)
        | inr (inr (g, ne)) ↦
            subst (λ (c : Pc). Ends m (l, c)) (sym g)
              (next d
                (room_ahead n l q h small r p s below
                  (λ x. ne (ver ∙ x ∙ ap (λ (t : ℕ). p / t) (sym r.ring))))
                e le (λ d' e' le'. insert_read-Ends d' m v (p + 1) b e' le'))
      ]
    where
      below : p ≤ h + length q
      below = omega (arith, e)

      s : Seen n l q h p
      s = look n l q h p small.some_entry r

      val : nbb_list_val l (l.entries (p % l.length)) ≡ s.val
      val = Seen-val n l q h small r p s

      ver : nbb_list_ver l (l.entries (p % l.length)) ≡ s.ver
      ver = Seen-ver n l q h small r p s

      free :
          nbb_list_val l (l.entries (p % l.length)) ≡ 0
          → nbb_list_ver l (l.entries (p % l.length)) ≡ p / l.length
          → l.entries (p % l.length) ≡ pack (p / n) 0
      free z c =
          Seen-found n l q h small r p s
          ∙ ap (pack s.ver) (sym val ∙ z)
          ∙ ap (λ (t : ℕ). pack t 0) (sym ver ∙ c ∙ ap (λ (t : ℕ). p / t) r.ring)

      old : insert_oldmask l p ≡ pack (p / n) 0
      old =
          ap (λ (t : ℕ). nbb_list_mask l (p / t) 0) r.ring
          ∙ nbb_list_mask-pack l (p / n) 0 r.halves
              (omega (arith, round_fits n (h + length q) p small below)) (omega arith)

      next :
          (d : ℕ)
          → p + 1 ≤ h + length q
          → p + d ≡ h + length q
          → d + 5 ≤ suc m
          → ((d : ℕ)
              → p + 1 + d ≡ h + length q
              → d + 5 ≤ m
              → Ends m (l, Pc.insert_read v (p + 1) b))
          → Ends m (l, Pc.insert_read v (add_word p 1) b)
      next zero more e le ih = absurd (omega (arith, more, e))
      next (suc d) more e le ih =
          subst (λ (t : ℕ). Ends m (l, Pc.insert_read v t b))
            (sym (add_word-fits p (position_fits n (h + length q) p small below)))
            (ih d (omega (arith, e)) (omega (arith, le)))

  pub remove_read-Ends : (d m p b : ℕ) → p + d ≡ h → d + 5 ≤ m → Ends m (l, Pc.remove_read p b)
  unfolding alone advance remove_oldmask
  remove_read-Ends d zero p b e le = absurd (omega (arith, le))
  remove_read-Ends d (suc m) p b e le = elim (remove_look-cases l p b (l.entries (p % l.length))) [
    | inl (g, nz, c) ↦
        subst (λ (c : Pc). Ends m (l, c)) (sym g)
          (Ends-more 4 m l (Pc.remove_swap p b (l.entries (p % l.length))) (omega (arith, le))
            (remove_swap-Ends p b (l.entries (p % l.length)) l ((==_iff _ _).1 (held c ∙ sym old))))
    | inr (inl (g, z, c)) ↦ subst (λ (c : Pc). Ends m (l, c)) (sym g) (answered-Ends m l empty)
    | inr (inr (g, c1, c2)) ↦
        subst (λ (c : Pc). Ends m (l, c)) (sym g)
          (next d (more_ahead n l q h small r p s below (first_test c1) (second_test c2)) e le
            (λ d' e' le'. remove_read-Ends d' m (p + 1) b e' le'))
  ]
    where
      below : p ≤ h
      below = omega (arith, e)

      s : Seen n l q h p
      s = look n l q h p small.some_entry r

      val : nbb_list_val l (l.entries (p % l.length)) ≡ s.val
      val = Seen-val n l q h small r p s

      ver : nbb_list_ver l (l.entries (p % l.length)) ≡ s.ver
      ver = Seen-ver n l q h small r p s

      up : add_word (p / l.length) 1 ≡ p / n + 1
      up = next_round_fits n l q h small r p below

      held :
          nbb_list_ver l (l.entries (p % l.length)) ≡ add_word (p / l.length) 1
          → l.entries (p % l.length) ≡ pack (p / n + 1) s.val
      held c = Seen-found n l q h small r p s ∙ ap (λ (t : ℕ). pack t s.val) (sym ver ∙ c ∙ up)

      old : remove_oldmask l p (l.entries (p % l.length)) ≡ pack (p / n + 1) s.val
      old =
          ap (λ (t : ℕ). nbb_list_mask l t (nbb_list_val l (l.entries (p % l.length)))) up
          ∙ ap (nbb_list_mask l (p / n + 1)) val
          ∙ nbb_list_mask-pack l (p / n + 1) s.val r.halves
              (round_fits n (h + length q) p small (omega (arith, below)))
              (Seen-fits n l q h small p s).1

      first_test :
          (nbb_list_val l (l.entries (p % l.length)) ≡ 0)
            ⊎ (nbb_list_ver l (l.entries (p % l.length)) ≢ add_word (p / l.length) 1)
          → (s.val ≡ 0) ⊎ (s.ver ≢ p / n + 1)
      first_test (inl z) = inl (sym val ∙ z)
      first_test (inr ne) = inr (λ e. ne (ver ∙ e ∙ sym up))

      second_test :
          (nbb_list_val l (l.entries (p % l.length)) ≢ 0)
            ⊎ (nbb_list_ver l (l.entries (p % l.length)) ≢ p / l.length)
          → (s.val ≢ 0) ⊎ (s.ver ≢ p / n)
      second_test (inl nz) = inl (λ e. nz (val ∙ e))
      second_test (inr ne) = inr (λ e. ne (ver ∙ e ∙ ap (λ (t : ℕ). p / t) (sym r.ring)))

      next :
          (d : ℕ)
          → p + 1 ≤ h
          → p + d ≡ h
          → d + 5 ≤ suc m
          → ((d : ℕ) → p + 1 + d ≡ h → d + 5 ≤ m → Ends m (l, Pc.remove_read (p + 1) b))
          → Ends m (l, Pc.remove_read (add_word p 1) b)
      next zero more e le ih = absurd (omega (arith, more, e))
      next (suc d) more e le ih =
          subst (λ (t : ℕ). Ends m (l, Pc.remove_read t b))
            (sym (add_word-fits p (position_fits n (h + length q) p small (omega (arith, below)))))
            (ih d (omega (arith, e)) (omega (arith, le)))
