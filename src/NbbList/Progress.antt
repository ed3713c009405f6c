-- ===== src/NbbList/Progress.antt =====
-- Whatever the other threads left, a call of nbb_list_insert or nbb_list_remove that goes on alone
-- answers after a bounded number of accesses (TPCC/Server/core/nbblist.c).
use tiny_stm_reval.Prelude.{
  ℕ, zero, suc, ◌+◌, ◌-◌, ◌*◌, ◌%◌, ◌^◌, ◌≤◌, ◌<◌, ◌≡◌, refl, sym, ◌≢◌, inl, inr, false, List, [],
  arith, ◌==◌, Bool-cases, length, All,
}
use mathlib.Core.Path.{subst}
use tiny_stm_reval.NbbList.{NbbList, Answer, Pc, insert_oldmask, remove_oldmask, advance}
use tiny_stm_reval.NbbList.Fifo.{Holds, Small, PcFits}
use tiny_stm_reval.NbbList.Linear.{InsertsValue, run-fifo_all, new_system-Sound}
use tiny_stm_reval.NbbList.Threads.{Action, run, new_system}
use tiny_stm_reval.NbbList.Alone.{
  alone, Ends, answered-Ends, Ends-more, publish-Ends, unpublish-Ends, insert_swap-Ends,
  remove_swap-Ends, insert_read-Ends, remove_read-Ends,
}

module _ (n : ℕ) (l : NbbList) (q : List ℕ) (h : ℕ) (small : Small n (h + length q))
    (r : Holds n l q h) where
  insert_start-Ends : (v m : ℕ) → h + length q + 6 ≤ m → Ends m (l, Pc.insert_start v)
  unfolding alone advance
  insert_start-Ends v zero le = absurd (omega (arith, le))
  insert_start-Ends v (suc m) le =
      insert_read-Ends n l q h small r (h + length q - l.tail) m v l.tail l.tail
        (omega (arith, r.tail)) (omega (arith, le))

  remove_start-Ends : (m : ℕ) → h + 6 ≤ m → Ends m (l, Pc.remove_start)
  unfolding alone advance
  remove_start-Ends zero le = absurd (omega (arith, le))
  remove_start-Ends (suc m) le =
      remove_read-Ends n l q h small r (h - l.head) m l.head l.head (omega (arith, r.head))
        (omega (arith, le))

  -- A failed compare-and-swap starts the call again.
  swap_insert-Ends : (v p b m : ℕ) → h + length q + 7 ≤ m → Ends m (l, Pc.insert_swap v p b)
  unfolding alone advance
  swap_insert-Ends v p b zero le = absurd (omega (arith, le))
  swap_insert-Ends v p b (suc m) le =
      elim (Bool-cases (l.entries (p % l.length) == insert_oldmask l p)) [
        | inl t ↦
            Ends-more 4 (suc m) l (Pc.insert_swap v p b) (omega (arith, le))
              (insert_swap-Ends v p b l t)
        | inr f ↦
            subst (λ (x : NbbList × Pc). Ends m x) (sym (again f))
              (insert_start-Ends v m (omega (arith, le)))
      ]
    where
      again :
          (l.entries (p % l.length) == insert_oldmask l p) ≡ false
          → advance l (Pc.insert_swap v p b) ≡ (l, Pc.insert_start v)
      again f = rw f refl

  swap_remove-Ends : (p b k m : ℕ) → h + 7 ≤ m → Ends m (l, Pc.remove_swap p b k)
  unfolding alone advance
  swap_remove-Ends p b k zero le = absurd (omega (arith, le))
  swap_remove-Ends p b k (suc m) le =
      elim (Bool-cases (l.entries (p % l.length) == remove_oldmask l p k)) [
        | inl t ↦
            Ends-more 4 (suc m) l (Pc.remove_swap p b k) (omega (arith, le))
              (remove_swap-Ends p b k l t)
        | inr f ↦
            subst (λ (x : NbbList × Pc). Ends m x) (sym (again f))
              (remove_start-Ends m (omega (arith, le)))
      ]
    where
      again :
          (l.entries (p % l.length) == remove_oldmask l p k) ≡ false
          → advance l (Pc.remove_swap p b k) ≡ (l, Pc.remove_start)
      again f = rw f refl

  pc-Ends :
      (pc : Pc) (m : ℕ)
      → pc ≢ Pc.idle
      → PcFits n h (h + length q) pc
      → h + length q + 8 ≤ m
      → Ends m (l, pc)
  pc-Ends Pc.idle m ne f le = absurd (ne refl)
  pc-Ends (Pc.insert_start v) m ne f le = insert_start-Ends v m (omega (arith, le))
  pc-Ends (Pc.insert_read v p b) m ne f le =
      insert_read-Ends n l q h small r (h + length q - p) m v p b (omega (arith, f.1))
        (omega (arith, le))
  pc-Ends (Pc.insert_swap v p b) m ne f le = swap_insert-Ends v p b m (omega (arith, le))
  pc-Ends (Pc.insert_publish v p b) m ne f le =
      Ends-more 3 m l (Pc.insert_publish v p b) (omega (arith, le)) (publish-Ends v p b l)
  pc-Ends (Pc.insert_reload v p) m ne f le =
      Ends-more 4 m l (Pc.insert_reload v p) (omega (arith, le))
        (unfold alone in (unfold advance in publish-Ends v p l.tail l))
  pc-Ends Pc.remove_start m ne f le = remove_start-Ends m (omega (arith, le))
  pc-Ends (Pc.remove_read p b) m ne f le =
      remove_read-Ends n l q h small r (h - p) m p b (omega (arith, f)) (omega (arith, le))
  pc-Ends (Pc.remove_swap p b k) m ne f le = swap_remove-Ends p b k m (omega (arith, le))
  pc-Ends (Pc.remove_publish p b k) m ne f le =
      Ends-more 3 m l (Pc.remove_publish p b k) (omega (arith, le)) (unpublish-Ends p b k l)
  pc-Ends (Pc.remove_reload p k) m ne f le =
      Ends-more 4 m l (Pc.remove_reload p k) (omega (arith, le))
        (unfold alone in (unfold advance in unpublish-Ends p l.head k l))
  pc-Ends (Pc.answered a) m ne f le = answered-Ends m l a

-- After any schedule of threads that insert and remove on a list whose entries start at 0, a call
-- that is under way and whose thread then runs alone answers after at most 8 accesses more than the
-- schedule has actions. The values are not 0 and fit in 32 bits, and the schedule is too short for
-- a round number to wrap.
pub run-Ends :
    (heap : ℕ → ℕ) (n i : ℕ) (acts : List Action)
    → 0 < n
    → n ≤ 2 ^ 32
    → ((k : ℕ) → k < n → heap k ≡ 0)
    → length acts + n < 2 ^ 32 * n
    → All InsertsValue acts
    → (run acts (new_system heap n)).pc i ≢ Pc.idle
    → (a : Answer) × ((alone
          (length acts + 8)
          ((run acts (new_system heap n)).list, (run acts (new_system heap n)).pc i)).1
        ≡ Pc.answered a)
run-Ends heap n i acts pos wide clear lt vs busy =
    let (q, (h, e, so, le)) =
      run-fifo_all n acts (new_system heap n) [] 0 pos wide (omega (arith, lt)) vs
        (new_system-Sound heap n clear) in
    let small : Small n (h + length q) = record {
      some_entry = pos;
      entries_fit = wide;
      rounds = omega (arith, lt, le);
    } in
    pc-Ends n (run acts (new_system heap n)).list q h small so.holds
      ((run acts (new_system heap n)).pc i) (length acts + 8) busy (so.fits i) (omega (arith, le))
