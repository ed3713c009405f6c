-- ===== src/NbbList/Answers.antt =====
-- A call of nbb_list_insert or nbb_list_remove gives the answer with which it took effect, once
-- between its start and its end (TPCC/Server/core/nbblist.c).
use tiny_stm_reval.Prelude.{
  ℕ, ◌/◌, ◌%◌, bit_and, ◌≡◌, refl, sym, ap, ◌∙◌, inl, inr, Bool, true, false, not, ◌&&◌, ◌||◌,
  Option, none, some, List, [], ◌∷◌, arith, ltb, ◌==◌, if◌then◌else◌, ==_iff, Bool-cases, if_both,
}
use mathlib.Core.Path.{subst}
use tiny_stm_reval.Word.{add_word}
use tiny_stm_reval.NbbList.{
  NbbList, Answer, inserted, removed, Pc, nbb_list_val, nbb_list_ver, insert_look, insert_oldmask,
  remove_look, remove_oldmask, set_entry, advance, answer_in, effect,
}
use tiny_stm_reval.NbbList.Threads.{
  System, Action, call_insert, call_remove, take_turn, Event, called, settled, may_call, set_pc,
  act, event, run, note, history, new_system,
}

-- The last event of thread i, which was e before.
unfoldable pub last_event : ℕ → Option Event → List (ℕ × Event) → Option Event
last_event i e [] = e
last_event i e ((j, x) ∷ es) = last_event i (if j == i then some x else e) es

unfoldable pub is_called : Option Event → Bool
is_called (some called) = true
is_called (some (settled a)) = false
is_called none = false

-- Whether an event may follow: a call takes effect after its start, and once.
unfoldable pub follows : Option Event → Event → Bool
follows e called = true
follows e (settled a) = is_called e

-- Whether the events of thread i may follow each other.
unfoldable pub alternates : ℕ → Option Event → List (ℕ × Event) → Bool
alternates i e [] = true
alternates i e ((j, x) ∷ es) =
    (not (j == i) || follows e x) && alternates i (if j == i then some x else e) es

-- What the state of a thread says of its last event: until a call takes effect it is the start of
-- the call, and then the effect with the answer that the call gives.
abbrev pub Tells : NbbList → Pc → Option Event → Type 0
Tells l Pc.idle e = Unit
Tells l (Pc.insert_start v) e = e ≡ some called
Tells l (Pc.insert_read v p b) e = e ≡ some called
Tells l (Pc.insert_swap v p b) e = e ≡ some called
Tells l (Pc.insert_publish v p b) e = e ≡ some (settled (inserted v))
Tells l (Pc.insert_reload v p) e = e ≡ some (settled (inserted v))
Tells l Pc.remove_start e = e ≡ some called
Tells l (Pc.remove_read p b) e = e ≡ some called
Tells l (Pc.remove_swap p b m) e = e ≡ some called
Tells l (Pc.remove_publish p b m) e = e ≡ some (settled (removed (nbb_list_val l m)))
Tells l (Pc.remove_reload p m) e = e ≡ some (settled (removed (nbb_list_val l m)))
Tells l (Pc.answered a) e = e ≡ some (settled a)

-- The event after an effect, if there is one.
unfoldable after : Option Event → Option Answer → Option Event
after e none = e
after e (some a) = some (settled a)

unfoldable may_settle : Option Event → Option Answer → Bool
may_settle e none = true
may_settle e (some a) = is_called e

-- What an access does to the last event.
abbrev Turned : Option Event → Option Answer → NbbList × Pc → NbbList → Type 0
Turned e o (l', pc) l =
    Tells l' pc (after e o) × (may_settle e o ≡ true) × (l'.val_mask ≡ l.val_mask)

insert_look-Turned :
    (l : NbbList) (v p b m : ℕ)
    → Turned (some called) (answer_in (insert_look l v p b m)) (l, insert_look l v p b m) l
unfolding insert_look answer_in after may_settle is_called
insert_look-Turned l v p b m =
    if_both (not (nbb_list_val l m == 0) || not (nbb_list_ver l m == p / l.length)) Tells_more
      (if_both (not (nbb_list_val l m == 0) && (nbb_list_ver l m == p / l.length)) Tells_more
        (refl, refl, refl) (refl, refl, refl))
      (refl, refl, refl)
  where
    Tells_more : Pc → Type 0
    Tells_more pc = Turned (some called) (answer_in pc) (l, pc) l

remove_look-Turned :
    (l : NbbList) (p b m : ℕ)
    → Turned (some called) (answer_in (remove_look l p b m)) (l, remove_look l p b m) l
unfolding remove_look answer_in after may_settle is_called
remove_look-Turned l p b m =
    if_both ((nbb_list_val l m == 0) || not (nbb_list_ver l m == add_word (p / l.length) 1))
      Tells_more
      (if_both ((nbb_list_val l m == 0) && (nbb_list_ver l m == p / l.length)) Tells_more
        (refl, refl, refl) (refl, refl, refl))
      (refl, refl, refl)
  where
    Tells_more : Pc → Type 0
    Tells_more pc = Turned (some called) (answer_in pc) (l, pc) l

advance-Turned :
    (l : NbbList) (pc : Pc) (e : Option Event)
    → Tells l pc e
    → Turned e (effect l pc) (advance l pc) l
unfolding advance effect set_entry after may_settle is_called nbb_list_val
advance-Turned l Pc.idle e h = (tt, refl, refl)
advance-Turned l (Pc.insert_start v) e h = (h, refl, refl)
advance-Turned l (Pc.insert_read v p b) e h =
    rw h (insert_look-Turned l v p b (l.entries (p % l.length)))
advance-Turned l (Pc.insert_swap v p b) e h =
    elim (Bool-cases (l.entries (p % l.length) == insert_oldmask l p)) [
      | inl t ↦ rw (t, h) (refl, refl, refl)
      | inr t ↦ rw t (h, refl, refl)
    ]
advance-Turned l (Pc.insert_publish v p b) e h =
    if_both (ltb b (add_word p 1)) (λ r. Turned e none r l)
      (if_both (l.tail == b) (λ r. Turned e none r l) (h, refl, refl) (h, refl, refl))
      (h, refl, refl)
advance-Turned l (Pc.insert_reload v p) e h = (h, refl, refl)
advance-Turned l Pc.remove_start e h = (h, refl, refl)
advance-Turned l (Pc.remove_read p b) e h =
    rw h (remove_look-Turned l p b (l.entries (p % l.length)))
advance-Turned l (Pc.remove_swap p b m) e h =
    elim (Bool-cases (l.entries (p % l.length) == remove_oldmask l p m)) [
      | inl t ↦ rw (t, h) (refl, refl, refl)
      | inr t ↦ rw t (h, refl, refl)
    ]
advance-Turned l (Pc.remove_publish p b m) e h =
    if_both (ltb b (add_word p 1)) (λ r. Turned e none r l)
      (if_both (l.head == b) (λ r. Turned e none r l) (h, refl, refl) (h, refl, refl))
      (h, refl, refl)
advance-Turned l (Pc.remove_reload p m) e h = (h, refl, refl)
advance-Turned l (Pc.answered a) e h = (h, refl, refl)

advance-val_mask : (l : NbbList) (pc : Pc) → (advance l pc).0.val_mask ≡ l.val_mask
unfolding advance set_entry
advance-val_mask l pc = ground arith

-- Another thread's access.
Tells-frame :
    (l l' : NbbList) (pc : Pc) (e : Option Event)
    → l'.val_mask ≡ l.val_mask
    → Tells l pc e
    → Tells l' pc e
unfolding nbb_list_val
Tells-frame l l' Pc.idle e same h = h
Tells-frame l l' (Pc.insert_start v) e same h = h
Tells-frame l l' (Pc.insert_read v p b) e same h = h
Tells-frame l l' (Pc.insert_swap v p b) e same h = h
Tells-frame l l' (Pc.insert_publish v p b) e same h = h
Tells-frame l l' (Pc.insert_reload v p) e same h = h
Tells-frame l l' Pc.remove_start e same h = h
Tells-frame l l' (Pc.remove_read p b) e same h = h
Tells-frame l l' (Pc.remove_swap p b m) e same h = h
Tells-frame l l' (Pc.remove_publish p b m) e same h =
    h ∙ ap (λ (k : ℕ). some (settled (removed (bit_and m k)))) (sym same)
Tells-frame l l' (Pc.remove_reload p m) e same h =
    h ∙ ap (λ (k : ℕ). some (settled (removed (bit_and m k)))) (sym same)
Tells-frame l l' (Pc.answered a) e same h = h

-- The last event of thread i after what an action records.
unfoldable heard : ℕ → Option Event → ℕ × Option Event → Option Event
heard i e (j, none) = e
heard i e (j, some x) = if j == i then some x else e

unfoldable hears : ℕ → Option Event → ℕ × Option Event → Bool
hears i e (j, none) = true
hears i e (j, some x) = not (j == i) || follows e x

last_event-note :
    (i : ℕ) (e : Option Event) (x : ℕ × Option Event) (es : List (ℕ × Event))
    → last_event i e (note x es) ≡ last_event i (heard i e x) es
unfolding last_event note heard
last_event-note i e (j, none) es = refl
last_event-note i e (j, some x) es = refl

alternates-note :
    (i : ℕ) (e : Option Event) (x : ℕ × Option Event) (es : List (ℕ × Event))
    → alternates i e (note x es) ≡ (hears i e x && alternates i (heard i e x) es)
unfolding alternates note heard hears
alternates-note i e (j, none) es = refl
alternates-note i e (j, some x) es = refl

-- What an action does to the last event of thread i.
unfoldable Acts : ℕ → Option Event → Action → System → Type 0
Acts i e a s =
    Tells (act a s).list ((act a s).pc i) (heard i e (event a s)) × (hears i e (event a s) ≡ true)

call-Acts :
    (i j : ℕ) (e : Option Event) (s : System) (pc : Pc) (b : Bool)
    → Tells s.list (s.pc i) e
    → Tells s.list pc (some called)
    → Tells
        (if b then record s { pc = set_pc s.pc j pc } else s).list
        ((if b then record s { pc = set_pc s.pc j pc } else s).pc i)
        (heard i e (j, if b then some called else none))
      × (hears i e (j, if b then some called else none) ≡ true)
unfolding heard hears follows
call-Acts i j e s pc false h g = (h, refl)
call-Acts i j e s pc true h g = elim (Bool-cases (j == i)) [
  | inl t ↦ rw t (g, refl)
  | inr t ↦ rw t (h, refl)
]

unfoldable settled_event : Option Answer → Option Event
settled_event o = elim o [ none ↦ none | some a ↦ some (settled a) ]

heard-own :
    (i : ℕ) (e : Option Event) (o : Option Answer)
    → (heard i e (i, settled_event o) ≡ after e o)
      × (hears i e (i, settled_event o) ≡ may_settle e o)
unfolding heard hears follows after may_settle settled_event
heard-own i e none = (refl, refl)
heard-own i e (some a) = rw ((==_iff i i).1 refl) (refl, refl)

heard-other :
    (i j : ℕ) (e : Option Event) (o : Option Answer)
    → (j == i) ≡ false
    → (heard i e (j, settled_event o) ≡ e) × (hears i e (j, settled_event o) ≡ true)
unfolding heard hears settled_event
heard-other i j e none t = (refl, refl)
heard-other i j e (some a) t = rw t (refl, refl)

own_turn-Acts :
    (i : ℕ) (e : Option Event) (s : System) → Tells s.list (s.pc i) e → Acts i e (take_turn i) s
unfolding Acts act event settled_event
own_turn-Acts i e s h =
    let (tells, ok, same) = advance-Turned s.list (s.pc i) e h in
    let (now, may) = heard-own i e (effect s.list (s.pc i)) in
    let mine : set_pc s.pc i (advance s.list (s.pc i)).1 i ≡ (advance s.list (s.pc i)).1 =
      rw ((==_iff i i).1 refl) refl in
    (rw (now, mine) tells, may ∙ ok)

other_turn-Acts :
    (i j : ℕ) (e : Option Event) (s : System)
    → (j == i) ≡ false
    → Tells s.list (s.pc i) e
    → Acts i e (take_turn j) s
unfolding Acts act event settled_event
other_turn-Acts i j e s t h =
    let (now, may) = heard-other i j e (effect s.list (s.pc j)) t in
    let mine : set_pc s.pc j (advance s.list (s.pc j)).1 i ≡ s.pc i = rw t refl in
    (
      rw (now, mine)
          (Tells-frame s.list (advance s.list (s.pc j)).0 (s.pc i) e
            (advance-val_mask s.list (s.pc j)) h),
      may,
    )

act-Acts :
    (i : ℕ) (e : Option Event) (a : Action) (s : System) → Tells s.list (s.pc i) e → Acts i e a s
unfolding Acts act event
act-Acts i e (call_insert j v) s h =
    call-Acts i j e s (Pc.insert_start v) (may_call (s.pc j)) h refl
act-Acts i e (call_remove j) s h = call-Acts i j e s Pc.remove_start (may_call (s.pc j)) h refl
act-Acts i e (take_turn j) s h = elim (Bool-cases (j == i)) [
  | inl t ↦
      unfold Acts in
      (subst (λ k. Acts i e (take_turn k) s) (sym ((==_iff j i).0 t)) (own_turn-Acts i e s h))
  | inr t ↦ other_turn-Acts i j e s t h
]

run-Tells :
    (i : ℕ) (e : Option Event) (acts : List Action) (s : System)
    → Tells s.list (s.pc i) e
    → (alternates i e (history acts s) ≡ true)
      × Tells (run acts s).list ((run acts s).pc i) (last_event i e (history acts s))
unfolding run history Acts
run-Tells i e [] s h = unfold alternates last_event in (refl, h)
run-Tells i e (a ∷ rest) s h =
    let (tells, ok) = act-Acts i e a s h in
    let (goes, ends) = run-Tells i (heard i e (event a s)) rest (act a s) tells in
    (
      alternates-note i e (event a s) (history rest (act a s)) ∙ rw (ok, goes) refl,
      rw (last_event-note i e (event a s) (history rest (act a s))) ends,
    )

-- In every schedule on a list that is as nbb_list_create makes it, each thread's events alternate:
-- a call that takes effect does so after its start and once. The state in which a thread ends says what its last event is; in
-- particular, if its call has answered, then the last event is the call's effect with that answer.
pub history-Tells :
    (heap : ℕ → ℕ) (n i : ℕ) (acts : List Action)
    → (alternates i none (history acts (new_system heap n)) ≡ true)
      × Tells
          (run acts (new_system heap n)).list
          ((run acts (new_system heap n)).pc i)
          (last_event i none (history acts (new_system heap n)))
history-Tells heap n i acts = run-Tells i none acts (new_system heap n) tt
