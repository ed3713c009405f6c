-- ===== src/NbbList/Linear.antt =====
-- Whatever order the threads take their turns in, the calls of nbb_list_insert and nbb_list_remove
-- answer as a queue would (TPCC/Server/core/nbblist.c).
use tiny_stm_reval.Prelude.{
  ℕ, suc, ◌+◌, ◌*◌, ◌/◌, ◌%◌, ◌^◌, ◌≤◌, ◌<◌, ◌≡◌, refl, sym, ap, ◌∙◌, Bool, true, false, Option,
  none, some, List, [], ◌∷◌, arith, ◌==◌, if◌then◌else◌, length, All, if_both,
}
use tiny_stm_reval.NbbList.{NbbList, Answer, Pc, nbb_list_create, advance, effect}
use tiny_stm_reval.NbbList.Layout.{nbb_list_create-Halves, pack}
use tiny_stm_reval.NbbList.Fifo.{
  fifo, fifo_effect, IsValue, Holds, Small, PcFits, PcFits-later, Advanced, silent,
}
use tiny_stm_reval.NbbList.Insert.{
  insert_read-Advanced, insert_swap-Advanced, insert_publish-Advanced,
}
use tiny_stm_reval.NbbList.Remove.{
  remove_read-Advanced, remove_swap-Advanced, remove_publish-Advanced,
}
use tiny_stm_reval.NbbList.Threads.{
  System, Action, call_insert, call_remove, take_turn, Event, called, settled, may_call, set_pc,
  act, event, run, note, history, new_system,
}
use native.Mathlib.Nat.{div-eq_of_lt, mod-eq_of_lt}

-- A queue of capacity n gives the answers of a history, in its order; `none` if it cannot.
unfoldable pub fifo_all : ℕ → List ℕ → List (ℕ × Event) → Option (List ℕ)
fifo_all n q [] = some q
fifo_all n q ((i, called) ∷ es) = fifo_all n q es
fifo_all n q ((i, settled a) ∷ es) = elim (fifo n q a) [ none ↦ none | some r ↦ fifo_all n r es ]

-- Every access keeps the ring a queue.
advance-Advanced :
    (n : ℕ) (l : NbbList) (q : List ℕ) (h : ℕ) (pc : Pc)
    → Small n (h + length q)
    → Holds n l q h
    → PcFits n h (h + length q) pc
    → Advanced n q h (effect l pc) (advance l pc)
unfolding effect advance
advance-Advanced n l q h Pc.idle small r f = silent n q h l Pc.idle r tt
advance-Advanced n l q h (Pc.insert_start v) small r f =
    silent n q h l (Pc.insert_read v l.tail l.tail) r (f, r.tail)
advance-Advanced n l q h (Pc.insert_read v p b) small r f =
    insert_read-Advanced n l q h small r v p b f
advance-Advanced n l q h (Pc.insert_swap v p b) small r f =
    insert_swap-Advanced n l h q v p b small r f
advance-Advanced n l q h (Pc.insert_publish v p b) small r f =
    insert_publish-Advanced n l h q v p b small r f
advance-Advanced n l q h (Pc.insert_reload v p) small r f =
    silent n q h l (Pc.insert_publish v p l.tail) r f
advance-Advanced n l q h Pc.remove_start small r f =
    silent n q h l (Pc.remove_read l.head l.head) r r.head
advance-Advanced n l q h (Pc.remove_read p b) small r f = remove_read-Advanced n l q h small r p b f
advance-Advanced n l q h (Pc.remove_swap p b m) small r f =
    remove_swap-Advanced n l h q p b m small r f
advance-Advanced n l q h (Pc.remove_publish p b m) small r f =
    remove_publish-Advanced n l h q p b m small r f
advance-Advanced n l q h (Pc.remove_reload p m) small r f =
    silent n q h l (Pc.remove_publish p l.head m) r f
advance-Advanced n l q h (Pc.answered a) small r f = silent n q h l (Pc.answered a) r tt

-- The list holds a queue, and each thread's state fits it.
pub record Sound (n : ℕ) (s : System) (q : List ℕ) (h : ℕ) : Type 0 where
  pub holds : Holds n s.list q h
  pub fits : (i : ℕ) → PcFits n h (h + length q) (s.pc i)

abbrev pub InsertsValue : Action → Type 0
InsertsValue (call_insert i v) = IsValue v
InsertsValue (call_remove i) = Unit
InsertsValue (take_turn i) = Unit

-- What an action leaves.
record Acted (n : ℕ) (q : List ℕ) (h : ℕ) (a : Action) (s : System) : Type 0 where
  queue : List ℕ
  first : ℕ
  sound : Sound n (act a s) queue first
  does : (es : List (ℕ × Event)) → fifo_all n q (note (event a s) es) ≡ fifo_all n queue es
  one_more : first + length queue ≤ suc (h + length q)

set_pc-fits :
    (n h t i : ℕ) (f : ℕ → Pc) (pc : Pc)
    → ((j : ℕ) → PcFits n h t (f j))
    → PcFits n h t pc
    → (j : ℕ) → PcFits n h t (set_pc f i pc j)
set_pc-fits n h t i f pc all one j = if_both (i == j) (PcFits n h t) one (all j)

calls :
    (n : ℕ) (q : List ℕ) (h i : ℕ) (s : System) (b : Bool) (pc : Pc)
    → Sound n s q h
    → PcFits n h (h + length q) pc
    → Sound n (if b then record s { pc = set_pc s.pc i pc } else s) q h
calls n q h i s true pc so f = record {
  holds = so.holds;
  fits = set_pc-fits n h (h + length q) i s.pc pc so.fits f;
}
calls n q h i s false pc so f = so

call_notes :
    (n : ℕ) (q : List ℕ) (i : ℕ) (b : Bool) (es : List (ℕ × Event))
    → fifo_all n q (note (i, if b then some called else none) es) ≡ fifo_all n q es
unfolding fifo_all note
call_notes n q i true es = refl
call_notes n q i false es = refl

turn_notes :
    (n : ℕ) (q q' : List ℕ) (i : ℕ) (o : Option Answer) (es : List (ℕ × Event))
    → fifo_effect n q o ≡ some q'
    → fifo_all n q (note (i, elim o [ none ↦ none | some a ↦ some (settled a) ]) es)
      ≡ fifo_all n q' es
unfolding fifo_all note fifo_effect
turn_notes n q q' i none es e = ground arith
turn_notes n q q' i (some a) es e =
    ap (λ (o : Option (List ℕ)). elim o [ none ↦ none | some r ↦ fifo_all n r es ]) e

act-Acted :
    (n : ℕ) (q : List ℕ) (h : ℕ) (a : Action) (s : System)
    → Small n (h + length q)
    → Sound n s q h
    → InsertsValue a
    → Acted n q h a s
unfolding act event
act-Acted n q h (call_insert i v) s small so is = record {
  queue = q;
  first = h;
  sound = calls n q h i s (may_call (s.pc i)) (Pc.insert_start v) so is;
  does = call_notes n q i (may_call (s.pc i));
  one_more = omega arith;
}
act-Acted n q h (call_remove i) s small so is = record {
  queue = q;
  first = h;
  sound = calls n q h i s (may_call (s.pc i)) Pc.remove_start so tt;
  does = call_notes n q i (may_call (s.pc i));
  one_more = omega arith;
}
act-Acted n q h (take_turn i) s small so is =
    let d = advance-Advanced n s.list q h (s.pc i) small so.holds (so.fits i) in
    record {
      queue = d.queue;
      first = d.first;
      sound = record {
        holds = d.holds;
        fits =
            set_pc-fits n d.first (d.first + length d.queue) i s.pc (advance s.list (s.pc i)).1
              (λ j.
                PcFits-later n h (h + length q) d.first (d.first + length d.queue) (s.pc j)
                  d.first_later d.last_later (so.fits j))
              d.fits;
      };
      does = λ es. turn_notes n q d.queue i (effect s.list (s.pc i)) es d.does;
      one_more = d.one_more;
    }

pub run-fifo_all :
    (n : ℕ) (acts : List Action) (s : System) (q : List ℕ) (h : ℕ)
    → 0 < n
    → n ≤ 2 ^ 32
    → h + length q + length acts + n < 2 ^ 32 * n
    → All InsertsValue acts
    → Sound n s q h
    → (r : List ℕ) × ((g : ℕ) × (fifo_all n q (history acts s) ≡ some r)
        × Sound n (run acts s) r g
        × (g + length r ≤ h + length q + length acts))
unfolding run history
run-fifo_all n [] s q h pos wide lt vs so = unfold fifo_all in (q, (h, refl, so, omega arith))
run-fifo_all n (a ∷ rest) s q h pos wide lt (v, vs) so =
    let small : Small n (h + length q) = record {
      some_entry = pos;
      entries_fit = wide;
      rounds = omega (arith, lt);
    } in
    let d = act-Acted n q h a s small so v in
    let (r, (g, e, so', le)) =
      run-fifo_all n rest (act a s) d.queue d.first pos wide (omega (arith, lt, d.one_more)) vs
        d.sound in
    (r, (g, d.does (history rest (act a s)) ∙ e, so', omega (arith, le, d.one_more)))

pub new_system-Sound :
    (heap : ℕ → ℕ) (n : ℕ) → ((k : ℕ) → k < n → heap k ≡ 0) → Sound n (new_system heap n) [] 0
unfolding nbb_list_create
new_system-Sound heap n clear = record {
  holds = record {
    halves = nbb_list_create-Halves heap n;
    ring = refl;
    head = omega arith;
    tail = omega arith;
    few = omega arith;
    occupied = λ k x e. absurd (ground arith);
    vacant = λ k le lt.
        ap (λ (t : ℕ). heap (t % n)) (from_start k)
        ∙ ap heap (mod-eq_of_lt lt)
        ∙ clear k lt
        ∙ ap (λ (t : ℕ). pack t 0) (sym (div-eq_of_lt lt))
        ∙ ap (λ (t : ℕ). pack (t / n) 0) (sym (from_start k));
  };
  fits = λ i. tt;
}
  where
    from_start : (k : ℕ) → 0 + k ≡ k
    from_start k = omega arith

-- However threads that insert and remove take turns on a list whose entries start at 0, a queue of
-- the list's length that starts empty can give the answers of the calls in the order in which they take effect:
-- an insert puts its value last when there is room, a remove takes the first value, a full list has
-- `length` values and an empty one none. The values are not 0 and fit in 32 bits, and the schedule
-- is too short for a round number to wrap.
pub history-fifo_all :
    (heap : ℕ → ℕ) (n : ℕ) (acts : List Action)
    → 0 < n
    → n ≤ 2 ^ 32
    → ((k : ℕ) → k < n → heap k ≡ 0)
    → length acts + n < 2 ^ 32 * n
    → All InsertsValue acts
    → (q : List ℕ) × (fifo_all n [] (history acts (new_system heap n)) ≡ some q)
history-fifo_all heap n acts pos wide clear lt vs =
    let (q, (h, e, so, le)) =
      run-fifo_all n acts (new_system heap n) [] 0 pos wide (omega (arith, lt)) vs
        (new_system-Sound heap n clear) in
    (q, e)
