-- ===== src/ModLog/Undo.antt =====
-- An abort undoes what a transaction changed in place, if it logged it before
-- (tinySTM/src/mod_log.c).
use tiny_stm_reval.Prelude.{
  ℕ, ◌+◌, ◌≤◌, ◌<◌, ◌≡◌, refl, sym, ap, ◌∙◌, ◌⊎◌, inl, inr, Bool, true, false, not, Option, none,
  some, List, [], ◌∷◌, ◌++◌, arith, ◌==◌, if◌then◌else◌, ==_iff, Bool-cases, length, rev_onto,
  length-rev_onto,
}
use mathlib.Core.Path.{subst}
use mathlib.Core.Option
use tiny_stm_reval.Machine.{update}
use tiny_stm_reval.ModLog.Bytewise.{
  length-load_bytes, Undone, store_bytes-load_bytes, undo_agree, undo_covers, undo-append,
  Undone-append, Undone-last,
}
use tiny_stm_reval.ModLog.{
  Kind, Bytes, width, saved_as_char, load_bytes, store_bytes, through_char, sign_bytes, Entry, Log,
  push_entry, next_size, extend_log, stm_log, stm_log_bytes, count_allocated, is_bytes, buffers,
  undo, mod_log_on_abort,
}

-- What a transaction does with data in place: a log call, or the store of a byte.
pub data Action : Type 0 where
  log_value : Kind → ℕ → Action
  log_range : (buffer addr size : ℕ) → Action
  poke : (addr byte : ℕ) → Action

-- The transaction's actions, when no allocation fails.
unfoldable pub run : List Action → Log → Bytes → Option (Log × Bytes)
run [] log m = some (log, m)
run (poke b v ∷ xs) log m = run xs log (update m b v)
run (log_value k a ∷ xs) log m = elim (stm_log true k a m log) [
  | none ↦ none
  | some log' ↦ run xs log' m
]
run (log_range p a n ∷ xs) log m = elim (stm_log_bytes true (some p) a n m log) [
  | none ↦ none
  | some log' ↦ run xs log' m
]

-- The kinds of which the whole value is saved.
unfoldable pub saved_whole : Kind → Bool
saved_whole Kind.u8 = true
saved_whole Kind.bytes = false
saved_whole k = not (saved_as_char k)

-- An address and a size in bytes.
abbrev pub Inside : ℕ → List (ℕ × ℕ) → Type 0
Inside b [] = ⊥
Inside b ((a, n) ∷ rs) = ((a ≤ b) × (b < a + n)) ⊎ Inside b rs

-- Each byte that is stored was logged before, whole.
abbrev pub Logged : List (ℕ × ℕ) → List Action → Type 0
Logged rs [] = Unit
Logged rs (poke b v ∷ xs) = Inside b rs × Logged rs xs
Logged rs (log_value k a ∷ xs) = (saved_whole k ≡ true) × Logged ((a, width k 0) ∷ rs) xs
Logged rs (log_range p a n ∷ xs) = Logged ((a, n) ∷ rs) xs

whole_value :
    (k : Kind) (m : Bytes) (a : ℕ)
    → saved_whole k ≡ true
    → (if saved_as_char k
        then through_char (load_bytes m a (width k 0))
        else load_bytes m a (width k 0))
      ≡ load_bytes m a (width k 0)
unfolding saved_whole saved_as_char width load_bytes through_char sign_bytes
whole_value Kind.u8 m a h = refl
whole_value Kind.u16 m a h = cc
whole_value Kind.u32 m a h = cc
whole_value Kind.u64 m a h = cc
whole_value Kind.bytes m a h = cc
whole_value _ m a h = refl

not_bytes : (k : Kind) → saved_whole k ≡ true → is_bytes k ≡ false
unfolding saved_whole is_bytes
not_bytes Kind.bytes h = cc
not_bytes _ h = refl

pub length-buffers-append :
    (es : List Entry) (e : Entry)
    → length (buffers (es ++ (e ∷ []))) ≡ length (buffers es) + (if is_bytes e.kind then 1 else 0)
unfolding buffers
length-buffers-append [] e = ground arith
length-buffers-append (f ∷ es) e = ground (arith, length-buffers-append es e)

-- The log while a transaction that found memory `m₀` has logged the ranges `rs` and memory is `m`.
record Kept (m₀ : Bytes) (rs : List (ℕ × ℕ)) (log : Log) (m : Bytes) : Type 0 where
  undone : (x : ℕ) → undo log.entries m x ≡ m₀ x
  covers : (b : ℕ) → Inside b rs → Undone b log.entries
  counted : log.allocated ≡ length (buffers log.entries)

poke-Kept :
    (m₀ : Bytes) (rs : List (ℕ × ℕ)) (log : Log) (m : Bytes) (b v : ℕ)
    → Inside b rs
    → Kept m₀ rs log m
    → Kept m₀ rs log (update m b v)
poke-Kept m₀ rs log m b v inside k = record {
  undone = λ x. at x (Bool-cases (b == x));
  covers = k.covers;
  counted = k.counted;
}
  where
    at : (x : ℕ) → ((b == x) ≡ true) ⊎ ((b == x) ≡ false) → undo log.entries (update m b v) x ≡ m₀ x
    at x (inl h) =
        undo_covers log.entries (update m b v) m x
          (subst (λ y. Undone y log.entries) ((==_iff b x).0 h) (k.covers b inside))
        ∙ k.undone x
    at x (inr h) = undo_agree log.entries (update m b v) m x (rw h refl) ∙ k.undone x

-- A new entry with the bytes that memory holds.
append-Kept :
    (m₀ : Bytes) (rs : List (ℕ × ℕ)) (log log' : Log) (m : Bytes) (n : ℕ) (e : Entry)
    → Kept m₀ rs log m
    → e.saved ≡ load_bytes m e.addr n
    → log'.entries ≡ log.entries ++ (e ∷ [])
    → log'.allocated ≡ log.allocated + (if is_bytes e.kind then 1 else 0)
    → Kept m₀ ((e.addr, n) ∷ rs) log' m
append-Kept m₀ rs log log' m n e k saved entries count = record {
  undone = λ x.
      ap (λ es. undo es m x) entries
      ∙ ap (λ (f : Bytes). f x) (undo-append log.entries e m)
      ∙ undo_agree log.entries (store_bytes m e.addr e.saved) m x (
          ap (λ bs. store_bytes m e.addr bs x) saved
          ∙ store_bytes-load_bytes m m e.addr n (λ y. refl) x)
      ∙ k.undone x;
  covers = λ b i. subst (Undone b) (sym entries) (inside b i);
  counted =
      count
      ∙ ap (λ c. c + (if is_bytes e.kind then 1 else 0)) k.counted
      ∙ sym (length-buffers-append log.entries e)
      ∙ ap (λ es. length (buffers es)) (sym entries);
}
  where
    inside : (b : ℕ) → Inside b ((e.addr, n) ∷ rs) → Undone b (log.entries ++ (e ∷ []))
    inside b (inl (lo, hi)) =
        Undone-last b log.entries e lo (rw (ap length saved, length-load_bytes m e.addr n) hi)
    inside b (inr i) = Undone-append b log.entries e (k.covers b i)

-- push_entry, when no allocation fails.
pub push_entry_grown :
    (e : Entry) (log : Log)
    → (log' : Log) × (push_entry true e log ≡ some log')
      × (log'.entries ≡ log.entries ++ (e ∷ []))
      × (log'.allocated ≡ log.allocated)
unfolding push_entry extend_log
push_entry_grown e log = elim (Bool-cases (length log.entries == log.size)) [
  | inl full ↦ (
    record log { entries = log.entries ++ (e ∷ []); size = next_size log.size },
    rw (push_entry, full) refl,
    refl,
    refl,
  )
  | inr room ↦
      (record log { entries = log.entries ++ (e ∷ []) }, rw (push_entry, room) refl, refl, refl)
]

abbrev pub then_run : List Action → Bytes → Option Log → Option (Log × Bytes)
then_run xs m o = elim o [ none ↦ none | some log' ↦ run xs log' m ]

-- What a run of the transaction's actions ends in.
abbrev RunKept : Bytes → List Action → Log → Bytes → Type 0
RunKept m₀ xs log m =
    (log' : Log) × (m' : Bytes) × (rs : List (ℕ × ℕ)) × (run xs log m ≡ some (log', m'))
    × Kept m₀ rs log' m'

run_keeps :
    (m₀ : Bytes) (xs : List Action) (rs : List (ℕ × ℕ)) (log : Log) (m : Bytes)
    → Logged rs xs
    → Kept m₀ rs log m
    → RunKept m₀ xs log m
unfolding run stm_log stm_log_bytes count_allocated is_bytes
run_keeps m₀ [] rs log m l k = (log, m, rs, refl, k)
run_keeps m₀ (poke b v ∷ xs) rs log m (i, l) k =
    run_keeps m₀ xs rs log (update m b v) l (poke-Kept m₀ rs log m b v i k)
run_keeps m₀ (log_value kd a ∷ xs) rs log m (w, l) k =
    let e : Entry = record {
      kind = kd;
      addr = a;
      saved =
          if saved_as_char kd
          then through_char (load_bytes m a (width kd 0))
          else load_bytes m a (width kd 0);
      buffer = 0;
    } in
    let (log', pushed, entries, same) = push_entry_grown e log in
    let plain : log.allocated ≡ log.allocated + (if is_bytes kd then 1 else 0) =
      rw (not_bytes kd w) (omega arith) in
    let k' =
      append-Kept m₀ rs log log' m (width kd 0) e k (whole_value kd m a w) entries (same ∙ plain) in
    let (log'', m'', rs'', ran, kept) = run_keeps m₀ xs ((a, width kd 0) ∷ rs) log' m l k' in
    (log'', m'', rs'', ap (then_run xs m) pushed ∙ ran, kept)
run_keeps m₀ (log_range p a n ∷ xs) rs log m l k =
    let e : Entry = record { kind = Kind.bytes; addr = a; saved = load_bytes m a n; buffer = p } in
    let (log', pushed, entries, same) = push_entry_grown e log in
    let k' =
      append-Kept m₀ rs log (count_allocated log') m n e k refl entries (ap (λ c. c + 1) same) in
    let (log'', m'', rs'', ran, kept) =
      run_keeps m₀ xs ((a, n) ∷ rs) (count_allocated log') m l k' in
    (log'', m'', rs'', ap (λ o. then_run xs m (Option.map count_allocated o)) pushed ∙ ran, kept)

-- If each byte that a transaction stores in place was logged before, in a call that saves the whole
-- value, then a first abort puts memory back as the transaction found it, frees each buffer of the
-- log once, from the last to the first, and fails no assertion. No allocation fails, and the log is
-- empty when the transaction starts.
pub abort_restores :
    (xs : List Action) (log : Log) (m : Bytes)
    → log.entries ≡ []
    → log.allocated ≡ 0
    → Logged [] xs
    → (log' : Log) × (m' : Bytes) × (run xs log m ≡ some (log', m'))
      × (log'' : Log) × (m'' : Bytes) × (mod_log_on_abort m' log' ≡ some (log'', m''))
      × ((x : ℕ) → m'' x ≡ m x)
      × (log''.freed ≡ log'.freed ++ rev_onto (buffers log'.entries) [])
unfolding mod_log_on_abort
abort_restores xs log m empty none_left l =
    let (log', m', rs, ran, k) = run_keeps m xs [] log m l (start empty none_left) in
    let count : (log'.allocated == length (rev_onto (buffers log'.entries) [])) ≡ true =
      ground (arith, k.counted, length-rev_onto (buffers log'.entries) []) in
    (
      log',
      m',
      ran,
      record log' { allocated = 0; freed = log'.freed ++ rev_onto (buffers log'.entries) [] },
      undo log'.entries m',
      rw (mod_log_on_abort, count) refl,
      k.undone,
      refl,
    )
  where
    start : log.entries ≡ [] → log.allocated ≡ 0 → Kept m [] log m
    start e z = record {
      undone = λ x. ap (λ es. undo es m x) e ∙ unfold undo in refl;
      covers = λ b i. absurd i;
      counted = z ∙ sym (ap (λ es. length (buffers es)) e ∙ unfold buffers in refl);
    }
