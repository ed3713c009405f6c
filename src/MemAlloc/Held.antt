-- ===== src/MemAlloc/Held.antt =====
-- Threads that take and give back nodes in any order: no node is taken twice
-- (TPCC/Server/core/nbblist.c).
use tiny_stm_reval.Prelude.{
  ℕ, ◌+◌, ◌*◌, ◌/◌, ◌%◌, ◌^◌, ◌≤◌, ◌<◌, bit_and, ◌≡◌, refl, sym, ap, ◌∙◌, ◌≢◌, inl, inr, Bool, true,
  false, not, ◌&&◌, Option, none, some, List, [], ◌∷◌, arith, ltb, ◌==◌, if◌then◌else◌, ltb→lt,
  ==_iff, Bool-cases, length, if_both, differ_of_test,
}
use tiny_stm_reval.Word.{word_max}
use tiny_stm_reval.Machine.{update}
use tiny_stm_reval.MemAlloc.{
  MemAlloc, Pc, Event, free_pos, acquire_look, acquire_newchunk, release_newchunk, set_chunk,
  mem_alloc_init, advance, effect,
}
use tiny_stm_reval.MemAlloc.Threads.{
  System, Action, call_acquire, call_release, take_turn, may_call, set_pc, act, event, note,
  history, mark, keeps,
}
use tiny_stm_reval.MemAlloc.Bitmap.{
  bit_at-pow, bit_at-none, bit_at, bit_at-acquire, bit_at-release, bit_test, free_pos-free,
  acquire_newchunk-fits, release_newchunk-fits,
}

-- The bitmap has a 1 exactly for the nodes that are held.
record Shows (n : ℕ) (a : MemAlloc) (held : ℕ → Bool) : Type 0 where
  chunks : (b : ℕ) → a.busymap b ≤ word_max
  bits : (id : ℕ) → bit_at (a.busymap (id / 64)) (id % 64) ≡ (if held id then 1 else 0)
  size : 64 * a.busymap_length ≡ n

-- What a thread relies on.
abbrev PcFits : ℕ → Pc → Type 0
PcFits n (Pc.acquire_swap payload b old) =
    (64 * b + 64 ≤ n)
    × (old ≤ word_max)
    × (old ≢ word_max)
    × (((b == 0) && (free_pos old == 0)) ≡ false)
PcFits n (Pc.release_load id old) = (bit_at old (id % 64) ≡ 1) × (old ≤ word_max)
PcFits n (Pc.release_swap id old payload) = (bit_at old (id % 64) ≡ 1) × (old ≤ word_max)
PcFits n (Pc.idle) = Unit
PcFits n (Pc.acquire_read payload b) = Unit
PcFits n (Pc.acquire_store payload id) = Unit
PcFits n (Pc.acquire_count id) = Unit
PcFits n (Pc.acquired o) = Unit
PcFits n (Pc.release_read id) = Unit
PcFits n (Pc.release_clear id payload) = Unit
PcFits n (Pc.release_count payload) = Unit
PcFits n (Pc.released o) = Unit

-- A chunk in which one bit changes.
set_chunk-Shows :
    (n id b c : ℕ) (v : Bool) (a : MemAlloc) (held : ℕ → Bool)
    → Shows n a held
    → b ≡ id / 64
    → c ≤ word_max
    → ((j : ℕ)
        → j < 64
        → bit_at c j ≡ (if id % 64 == j then (if v then 1 else 0) else bit_at (a.busymap b) j))
    → Shows n (set_chunk b c a) (mark held id v)
unfolding set_chunk
set_chunk-Shows n id b c v a held r e fits changed = record {
  chunks = λ k. if_both (b == k) (λ (t : ℕ). t ≤ word_max) fits (r.chunks k);
  bits = λ k. at k;
  size = r.size;
}
  where
    at :
        (k : ℕ)
        → bit_at (update a.busymap b c (k / 64)) (k % 64) ≡ (if mark held id v k then 1 else 0)
    at k = elim (Bool-cases (b == k / 64)) [
      | inl s ↦ elim (Bool-cases (id % 64 == k % 64)) [
        | inl t ↦
            let same : (id == k) ≡ true =
              (==_iff _ _).1 (omega (arith, e, (==_iff _ _).0 s, (==_iff _ _).0 t)) in
            rw (s, same) (changed (k % 64) (omega arith) ∙ rw t refl)
        | inr t ↦
            let ne = differ_of_test _ _ t in
            let other : (id == k) ≡ false =
              not_same id k (λ (g : id ≡ k). ne (ap (λ (x : ℕ). x % 64) g)) in
            rw (s, other)
              (changed (k % 64) (omega arith)
                ∙ rw t
                    (ap (λ (x : ℕ). bit_at (a.busymap x) (k % 64)) ((==_iff _ _).0 s) ∙ r.bits k))
      ]
      | inr s ↦
          let ne = differ_of_test _ _ s in
          let other : (id == k) ≡ false =
            not_same id k (λ (g : id ≡ k). ne (e ∙ ap (λ (x : ℕ). x / 64) g)) in
          rw (s, other) (r.bits k)
    ]
      where
        not_same : (x y : ℕ) → x ≢ y → (x == y) ≡ false
        not_same x y ne = ground (arith, ne)

-- What an access leaves.
record Stepped (n : ℕ) (held : ℕ → Bool) (e : Option Event) (r : MemAlloc × Pc) : Type 0 where
  now : ℕ → Bool
  does : (es : List Event) → keeps n held (note e es) ≡ keeps n now es
  shows : Shows n r.0 now
  fits : PcFits n r.1

silent :
    (n : ℕ) (held : ℕ → Bool) (a : MemAlloc) (pc : Pc)
    → Shows n a held
    → PcFits n pc
    → Stepped n held none (a, pc)
unfolding note
silent n held a pc r f = record { now = held; does = λ es. refl; shows = r; fits = f }

acquire_look-fits :
    (n payload b : ℕ) (a : MemAlloc) (held : ℕ → Bool)
    → Shows n a held
    → b < a.busymap_length
    → PcFits n (acquire_look payload b (a.busymap b))
unfolding acquire_look
acquire_look-fits n payload b a held r lt = elim (Bool-cases (a.busymap b == word_max)) [
  | inl e ↦ rw e tt
  | inr e ↦
      let some_free : a.busymap b ≢ word_max = differ_of_test _ _ e in
      elim (Bool-cases ((b == 0) && (free_pos (a.busymap b) == 0))) [
        | inl z ↦ rw (e, z) tt
        | inr nz ↦ rw (e, nz) (omega (arith, r.size, lt), r.chunks b, some_free, nz)
      ]
]

free_of_bit : (h : Bool) (x : ℕ) → x ≡ (if h then 1 else 0) → x ≡ 0 → h ≡ false
free_of_bit true x e q = absurd (omega (arith, e, q))
free_of_bit false x e q = refl

held_of_bit : (h : Bool) (x : ℕ) → x ≡ (if h then 1 else 0) → x ≡ 1 → h ≡ true
held_of_bit true x e q = refl
held_of_bit false x e q = absurd (omega (arith, e, q))

-- The compare-and-swap of mem_node_acquire.
acquire_swap-Stepped :
    (n payload b old : ℕ) (a : MemAlloc) (held : ℕ → Bool)
    → Shows n a held
    → PcFits n (Pc.acquire_swap payload b old)
    → Stepped n held
        (effect a (Pc.acquire_swap payload b old))
        (advance a (Pc.acquire_swap payload b old))
unfolding effect advance
acquire_swap-Stepped n payload b old a held r (below, le, ne, nz) =
    elim (Bool-cases (a.busymap b == old)) [
      | inl e ↦ rw e (record {
        now = mark held id true;
        does = λ es. unfold note keeps in (rw (some_node, unheld e, in_range) refl);
        shows =
            set_chunk-Shows n id b (acquire_newchunk old) true a held r chunk
              (acquire_newchunk-fits old le pos.0)
              (λ j lt.
                bit_at-acquire old j
                ∙ rw bit (
                    ap (λ (t : ℕ). if free_pos old == j then 1 else bit_at t j)
                      (sym ((==_iff _ _).0 e))));
        fits = tt;
      })
      | inr e ↦ rw e (silent n held a (Pc.acquire_read payload 0) r tt)
    ]
  where
    id : ℕ
    id = b * 8 * 8 + free_pos old

    pos : (free_pos old < 64) × (bit_at old (free_pos old) ≡ 0)
    pos = free_pos-free old le ne

    chunk : b ≡ id / 64
    chunk = omega (arith, pos.0)

    bit : id % 64 ≡ free_pos old
    bit = omega (arith, pos.0)

    some_node : (id == 0) ≡ false
    some_node = ground (arith, nz)

    in_range : ltb id n ≡ true
    in_range = ground (arith, pos.0, below)

    unheld : (a.busymap b == old) ≡ true → held id ≡ false
    unheld e = free_of_bit (held id) (bit_at (a.busymap (id / 64)) (id % 64)) (r.bits id) (
        ap (λ (t : ℕ). bit_at (a.busymap t) (id % 64)) (sym chunk)
        ∙ ap (λ (t : ℕ). bit_at t (id % 64)) ((==_iff _ _).0 e)
        ∙ ap (bit_at old) bit
        ∙ pos.1)

held_bit : (h : Bool) (x : ℕ) → x ≡ (if h then 1 else 0) → (x == 0) ≡ not h
held_bit true x e = ground (arith, e)
held_bit false x e = ground (arith, e)

-- The test of mem_node_release.
release_read-Stepped :
    (n id : ℕ) (a : MemAlloc) (held : ℕ → Bool)
    → Shows n a held
    → Stepped n held (effect a (Pc.release_read id)) (advance a (Pc.release_read id))
unfolding effect advance
release_read-Stepped n id a held r = by_held (held id) refl
  where
    test : (bit_and (a.busymap (id / 64)) (2 ^ (id % 64)) == 0) ≡ not (held id)
    test =
        bit_test (a.busymap (id / 64)) (id % 64)
        ∙ held_bit (held id) (bit_at (a.busymap (id / 64)) (id % 64)) (r.bits id)

    by_held :
        (h : Bool)
        → held id ≡ h
        → Stepped n held (effect a (Pc.release_read id)) (advance a (Pc.release_read id))
    by_held true e = rw (test ∙ ap not e) (
        silent n held a (Pc.release_load id (a.busymap (id / 64))) r
          (r.bits id ∙ ap (λ (h : Bool). if h then 1 else 0) e, r.chunks (id / 64)))
    by_held false e =
        rw (test ∙ ap not e) (record {
          now = held;
          does = λ es. unfold note keeps in (rw e refl);
          shows = r;
          fits = tt;
        })

-- The compare-and-swap of mem_node_release.
release_swap-Stepped :
    (n id old payload : ℕ) (a : MemAlloc) (held : ℕ → Bool)
    → Shows n a held
    → PcFits n (Pc.release_swap id old payload)
    → Stepped n held
        (effect a (Pc.release_swap id old payload))
        (advance a (Pc.release_swap id old payload))
unfolding effect advance
release_swap-Stepped n id old payload a held r (one, le) =
    elim (Bool-cases (a.busymap (id / 64) == old)) [
      | inl e ↦ rw e (record {
        now = mark held id false;
        does = λ es. unfold note keeps in (rw (is_held e) refl);
        shows =
            set_chunk-Shows n id (id / 64) (release_newchunk id old) false a held r refl
              (release_newchunk-fits id old le)
              (λ j lt.
                bit_at-release id old j lt
                ∙ ap (λ (t : ℕ). if id % 64 == j then 0 else bit_at t j) (sym ((==_iff _ _).0 e)));
        fits = tt;
      })
      | inr e ↦ rw e (silent n held a (Pc.release_read id) r tt)
    ]
  where
    is_held : (a.busymap (id / 64) == old) ≡ true → held id ≡ true
    is_held e =
        held_of_bit (held id) (bit_at (a.busymap (id / 64)) (id % 64)) (r.bits id)
          (ap (λ (t : ℕ). bit_at t (id % 64)) ((==_iff _ _).0 e) ∙ one)

advance-Stepped :
    (n : ℕ) (a : MemAlloc) (held : ℕ → Bool) (pc : Pc)
    → Shows n a held
    → PcFits n pc
    → Stepped n held (effect a pc) (advance a pc)
unfolding effect advance
advance-Stepped n a held Pc.idle r f = silent n held a Pc.idle r tt
advance-Stepped n a held (Pc.acquire_read payload b) r f =
    elim (Bool-cases (ltb b a.busymap_length)) [
      | inl e ↦ rw e (
          silent n held a (acquire_look payload b (a.busymap b)) r
            (acquire_look-fits n payload b a held r (ltb→lt b a.busymap_length e)))
      | inr e ↦ rw e (silent n held a (Pc.acquired none) r tt)
    ]
advance-Stepped n a held (Pc.acquire_swap payload b old) r f =
    acquire_swap-Stepped n payload b old a held r f
advance-Stepped n a held (Pc.acquire_store payload id) r f =
    silent n held _ (Pc.acquire_count id) (same_map r) tt
  where
    same_map : Shows n a held → Shows n (record a { payload = update a.payload id payload }) held
    same_map r = record { chunks = r.chunks; bits = r.bits; size = r.size }
advance-Stepped n a held (Pc.acquire_count id) r f =
    silent n held _ (Pc.acquired (some id))
      (record { chunks = r.chunks; bits = r.bits; size = r.size }) tt
advance-Stepped n a held (Pc.acquired o) r f = silent n held a (Pc.acquired o) r tt
advance-Stepped n a held (Pc.release_read id) r f = release_read-Stepped n id a held r
advance-Stepped n a held (Pc.release_load id old) r f =
    silent n held a (Pc.release_swap id old (a.payload id)) r f
advance-Stepped n a held (Pc.release_swap id old payload) r f =
    release_swap-Stepped n id old payload a held r f
advance-Stepped n a held (Pc.release_clear id payload) r f =
    if_both (a.payload id == payload) (Stepped n held none)
      (silent n held (record a { payload = update a.payload id 0 }) (Pc.release_count payload)
        (record { chunks = r.chunks; bits = r.bits; size = r.size }) tt)
      (silent n held a (Pc.release_count (a.payload id)) r tt)
advance-Stepped n a held (Pc.release_count payload) r f =
    silent n held _ (Pc.released (some payload))
      (record { chunks = r.chunks; bits = r.bits; size = r.size }) tt
advance-Stepped n a held (Pc.released o) r f = silent n held a (Pc.released o) r tt

-- All threads.
record Sound (n : ℕ) (s : System) (held : ℕ → Bool) : Type 0 where
  shows : Shows n s.alloc held
  fits : (i : ℕ) → PcFits n (s.pc i)

calls :
    (n i : ℕ) (s : System) (held : ℕ → Bool) (b : Bool) (pc : Pc)
    → Sound n s held
    → PcFits n pc
    → Sound n (if b then record s { pc = set_pc s.pc i pc } else s) held
calls n i s held true pc so f = record {
  shows = so.shows;
  fits = λ j. if_both (i == j) (PcFits n) f (so.fits j);
}
calls n i s held false pc so f = so

history-keeps :
    (n : ℕ) (acts : List Action) (s : System) (held : ℕ → Bool)
    → Sound n s held
    → keeps n held (history acts s) ≡ true
unfolding history event act note
history-keeps n [] s held so = unfold keeps in refl
history-keeps n (call_acquire i payload ∷ rest) s held so =
    history-keeps n rest _ held
      (calls n i s held (may_call (s.pc i)) (Pc.acquire_read payload 0) so tt)
history-keeps n (call_release i id ∷ rest) s held so =
    history-keeps n rest _ held (calls n i s held (may_call (s.pc i)) (Pc.release_read id) so tt)
history-keeps n (take_turn i ∷ rest) s held so =
    let d = advance-Stepped n s.alloc held (s.pc i) so.shows (so.fits i) in
    d.does (history rest (act (take_turn i) s))
    ∙ history-keeps n rest (act (take_turn i) s) d.now
        (record { shows = d.shows; fits = λ j. if_both (i == j) (PcFits n) d.fits (so.fits j) })

init-Shows :
    (junk length : ℕ)
    → Shows
        (64 * (mem_alloc_init junk length).busymap_length)
        (mem_alloc_init junk length)
        (λ id. id == 0)
unfolding mem_alloc_init
init-Shows junk length = record {
  chunks = λ b. if_both (0 == b) (λ (t : ℕ). t ≤ word_max) (omega arith) (omega arith);
  bits = at;
  size = refl;
}
  where
    at : (id : ℕ) → bit_at (if 0 == id / 64 then 1 else 0) (id % 64) ≡ (if id == 0 then 1 else 0)
    at id = elim (Bool-cases (0 == id / 64)) [
      | inl e ↦ rw e (bit_at-pow 0 (id % 64) ∙ first id ((==_iff _ _).0 e))
      | inr e ↦ let ne = differ_of_test _ _ e in rw e (bit_at-none (id % 64) ∙ later id ne)
    ]
      where
        first :
            (id : ℕ)
            → 0 ≡ id / 64
            → ◌≡◌ {A = ℕ} (if 0 == id % 64 then 1 else 0) (if id == 0 then 1 else 0)
        first id q = elim (Bool-cases (id == 0)) [
          | inl z ↦
              let low : (0 == id % 64) ≡ true = (==_iff _ _).1 (omega (arith, (==_iff _ _).0 z)) in
              rw (z, low) refl
          | inr nz ↦
              let some_ = differ_of_test _ _ nz in
              let low : 0 ≢ id % 64 = omega (arith, q, some_) in ground (arith, low, some_)
        ]

        later : (id : ℕ) → 0 ≢ id / 64 → ◌≡◌ {A = ℕ} 0 (if id == 0 then 1 else 0)
        later id ne = let some_ : id ≢ 0 = omega (arith, ne) in ground (arith, some_)

-- However threads that take and give back nodes take their turns, from the state that mem_alloc_init
-- makes: a node that mem_node_acquire takes is not node 0, whatever nodes are given back, has not
-- been taken by anybody since it was last given back, and is one of the 64 of each chunk of the
-- bitmap; mem_node_release gives back only a node that is taken, and otherwise finds it free.
pub init-history-keeps :
    (junk length : ℕ) (acts : List Action)
    → keeps
        (64 * (mem_alloc_init junk length).busymap_length)
        (λ id. id == 0)
        (history acts (record { alloc = mem_alloc_init junk length; pc = λ i. Pc.idle }))
      ≡ true
init-history-keeps junk length acts =
    history-keeps (64 * (mem_alloc_init junk length).busymap_length) acts
      (record { alloc = mem_alloc_init junk length; pc = λ i. Pc.idle }) (λ id. id == 0)
      (record { shows = init-Shows junk length; fits = λ i. tt })
