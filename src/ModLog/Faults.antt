-- ===== src/ModLog/Faults.antt =====
-- Where the undo log of tinySTM/src/mod_log.c does not undo: the entries whose value is saved in a
-- `char`, and the entries that stay behind after an abort.
use tiny_stm_reval.Prelude.{
  ℕ, zero, suc, ◌+◌, ◌<◌, ◌≡◌, refl, sym, ap, ◌∙◌, ◌≢◌, true, false, Option, none, some, List, [],
  ◌∷◌, ◌++◌, arith, ltb, ◌==◌, if◌then◌else◌, length, rev_onto, length-rev_onto,
}
use mathlib.Core.Option
use mathlib.Core.Path.{subst}
use tiny_stm_reval.Machine.{update}
use tiny_stm_reval.ModLog.{
  Kind, Bytes, width, saved_as_char, load_bytes, store_bytes, through_char, sign_bytes, Entry, Log,
  stm_log, stm_log_bytes, count_allocated, is_bytes, buffers, undo, mod_log_on_abort,
}
use tiny_stm_reval.ModLog.Bytewise.{length-load_bytes}
use tiny_stm_reval.ModLog.Undo.{
  Action, log_value, log_range, poke, run, length-buffers-append, push_entry_grown, then_run,
}

store_bytes_below : (m : Bytes) (a : ℕ) (bs : List ℕ) (x : ℕ) → x < a → store_bytes m a bs x ≡ m x
unfolding store_bytes
store_bytes_below m a [] x lt = refl
store_bytes_below m a (b ∷ bs) x lt =
    store_bytes_below (update m a b) (suc a) bs x (omega (arith, lt)) ∙ ground (arith, lt)

-- The byte that a signed char of this pattern is extended with.
abbrev pub sign_byte : ℕ → ℕ
sign_byte b = if ltb b 128 then 0 else 255

store_sign_bytes :
    (m : Bytes) (a b n i : ℕ) → i < n → store_bytes m a (sign_bytes b n) (a + i) ≡ sign_byte b
unfolding store_bytes sign_bytes
store_sign_bytes m a b zero i lt = absurd (omega (arith, lt))
store_sign_bytes m a b (suc n) zero lt =
    let here : a + 0 ≡ a = omega arith in
    ap (store_bytes (update m a (sign_byte b)) (suc a) (sign_bytes b n)) here
    ∙ store_bytes_below (update m a (sign_byte b)) (suc a) (sign_bytes b n) a (omega arith)
    ∙ ground arith
store_sign_bytes m a b (suc n) (suc i) lt =
    let next : a + suc i ≡ suc a + i = omega arith in
    ap (store_bytes (update m a (sign_byte b)) (suc a) (sign_bytes b n)) next
    ∙ store_sign_bytes (update m a (sign_byte b)) (suc a) b n i (omega (arith, lt))

store_through_char :
    (m m' : Bytes) (a n i : ℕ)
    → i < n
    → store_bytes m' a (through_char (load_bytes m a n)) (a + i)
      ≡ (if i == 0 then m a else sign_byte (m a))
unfolding store_bytes through_char load_bytes
store_through_char m m' a zero i lt = absurd (omega (arith, lt))
store_through_char m m' a (suc n) zero lt =
    let here : a + 0 ≡ a = omega arith in
    let rest = sign_bytes (m a) (length (load_bytes m (suc a) n)) in
    ap (store_bytes (update m' a (m a)) (suc a) rest) here
    ∙ store_bytes_below (update m' a (m a)) (suc a) rest a (omega arith)
    ∙ ground arith
store_through_char m m' a (suc n) (suc i) lt =
    let next : a + suc i ≡ suc a + i = omega arith in
    rw (length-load_bytes m (suc a) n) (
      ap (store_bytes (update m' a (m a)) (suc a) (sign_bytes (m a) n)) next
      ∙ store_sign_bytes (update m' a (m a)) (suc a) (m a) n i (omega (arith, lt))
      ∙ ground arith)

char_not_bytes : (k : Kind) → saved_as_char k ≡ true → is_bytes k ≡ false
unfolding saved_as_char is_bytes
char_not_bytes Kind.bytes h = cc
char_not_bytes _ h = refl

undo_one :
    (es : List Entry) (e : Entry) (m : Bytes)
    → es ≡ e ∷ []
    → undo es m ≡ store_bytes m e.addr e.saved
unfolding undo
undo_one es e m h = ap (λ xs. undo xs m) h

no_buffers :
    (es : List Entry) (e : Entry)
    → es ≡ e ∷ []
    → is_bytes e.kind ≡ false
    → rev_onto (buffers es) [] ≡ []
unfolding buffers rev_onto
no_buffers es e h plain =
    ap (λ xs. rev_onto (buffers xs) []) h
    ∙ ap (λ b. rev_onto (if b then e.buffer ∷ [] else []) []) plain

-- After stm_log_u16, stm_log_u32 or stm_log_u64 of an address, on an empty log, and whatever is
-- stored then, an abort brings back only the lowest of the bytes at the address: all others become
-- the sign of that byte, 0 if it is below 128, and 255 if not.
pub abort_restores_low_byte :
    (k : Kind) (a i : ℕ) (m m' : Bytes) (log : Log)
    → saved_as_char k ≡ true
    → i < width k 0
    → log.entries ≡ []
    → log.allocated ≡ 0
    → (log' : Log) × (log'' : Log) × (m'' : Bytes) × (stm_log true k a m log ≡ some log')
      × (mod_log_on_abort m' log' ≡ some (log'', m''))
      × (m'' (a + i) ≡ (if i == 0 then m a else sign_byte (m a)))
unfolding stm_log mod_log_on_abort
abort_restores_low_byte k a i m m' log as_char lt empty none_left =
    let e : Entry = record {
      kind = k;
      addr = a;
      saved =
          if saved_as_char k
          then through_char (load_bytes m a (width k 0))
          else load_bytes m a (width k 0);
      buffer = 0;
    } in
    let (log', pushed, entries, same) = push_entry_grown e log in
    let one : log'.entries ≡ e ∷ [] = entries ∙ ap (λ es. es ++ (e ∷ [])) empty in
    let none_freed = no_buffers log'.entries e one (char_not_bytes k as_char) in
    let count : (log'.allocated == length (rev_onto (buffers log'.entries) [])) ≡ true =
      rw none_freed (ground (arith, same, none_left)) in
    (
      log',
      record log' { allocated = 0; freed = log'.freed ++ rev_onto (buffers log'.entries) [] },
      undo log'.entries m',
      pushed,
      rw (mod_log_on_abort, count) refl,
      ap (λ (f : Bytes). f (a + i)) (undo_one log'.entries e m' one)
          ∙ ap
              (λ b.
                store_bytes m' a
                  (if b
                    then through_char (load_bytes m a (width k 0))
                    else load_bytes m a (width k 0))
                  (a + i))
              as_char
          ∙ store_through_char m m' a (width k 0) i lt,
    )

-- What a transaction logs in place, by the calls of the module.
abbrev pub Calls : List Action → Type 0
Calls [] = Unit
Calls (log_value k a ∷ xs) = (is_bytes k ≡ false) × Calls xs
Calls (log_range p a n ∷ xs) = Calls xs
Calls (poke b v ∷ xs) = Calls xs

-- `allocated` and the buffers of the log go up together.
abbrev pub Balanced : Log → Option (Log × Bytes) → Type 0
Balanced log none = Unit
Balanced log (some (log', m')) =
    length (buffers log'.entries) + log.allocated ≡ length (buffers log.entries) + log'.allocated

Balanced-push :
    (e : Entry) (log log' : Log) (o : Option (Log × Bytes))
    → log'.entries ≡ log.entries ++ (e ∷ [])
    → log'.allocated ≡ log.allocated + (if is_bytes e.kind then 1 else 0)
    → Balanced log' o
    → Balanced log o
Balanced-push e log log' none entries count b = tt
Balanced-push e log log' (some (l, m)) entries count b =
    omega
      (arith, b, count, ap (λ es. length (buffers es)) entries, length-buffers-append log.entries e)

pub run-Balanced :
    (xs : List Action) (log : Log) (m : Bytes) → Calls xs → Balanced log (run xs log m)
unfolding run stm_log stm_log_bytes count_allocated is_bytes
run-Balanced [] log m c = refl
run-Balanced (poke b v ∷ xs) log m c = run-Balanced xs log (update m b v) c
run-Balanced (log_value k a ∷ xs) log m (plain, c) =
    let e : Entry = record {
      kind = k;
      addr = a;
      saved =
          if saved_as_char k
          then through_char (load_bytes m a (width k 0))
          else load_bytes m a (width k 0);
      buffer = 0;
    } in
    let (log', pushed, entries, same) = push_entry_grown e log in
    let count : log'.allocated ≡ log.allocated + (if is_bytes k then 1 else 0) =
      same ∙ rw plain (omega arith) in
    subst (λ o. Balanced log (then_run xs m o)) (sym pushed)
      (Balanced-push e log log' (run xs log' m) entries count (run-Balanced xs log' m c))
run-Balanced (log_range p a n ∷ xs) log m c =
    let e : Entry = record { kind = Kind.bytes; addr = a; saved = load_bytes m a n; buffer = p } in
    let (log', pushed, entries, same) = push_entry_grown e log in
    subst (λ o. Balanced log (then_run xs m (Option.map count_allocated o))) (sym pushed)
      (Balanced-push e log (count_allocated log') (run xs (count_allocated log') m) entries
        (ap (λ n. n + 1) same) (run-Balanced xs (count_allocated log') m c))

left_behind :
    (log log' : Log) (m m₁ : Bytes)
    → mod_log_on_abort m log ≡ some (log', m₁)
    → (log'.entries ≡ log.entries) × (log'.allocated ≡ 0)
unfolding mod_log_on_abort
left_behind log log' m m₁ h = (ground (arith, h), ground (arith, h))

pub no_length : (xs : List ℕ) → length xs ≡ 0 → xs ≡ []
no_length [] h = refl
no_length (x ∷ xs) h = absurd (omega (arith, h))

-- Once a transaction that logged a range with stm_log_bytes has aborted, the abort of the next
-- attempt of the same thread fails its assertion, whatever that attempt logs and stores in place:
-- the entries of the first attempt are still in the log, and their buffers are freed again.
pub second_abort_fails :
    (log log' log'' : Log) (m m₁ m₂ m₃ : Bytes) (xs : List Action)
    → buffers log.entries ≢ []
    → mod_log_on_abort m log ≡ some (log', m₁)
    → Calls xs
    → run xs log' m₂ ≡ some (log'', m₃)
    → mod_log_on_abort m₃ log'' ≡ none
unfolding mod_log_on_abort
second_abort_fails log log' log'' m m₁ m₂ m₃ xs some_left h c ran =
    let (entries, zero_left) = left_behind log log' m m₁ h in
    let b = subst (Balanced log') ran (run-Balanced xs log' m₂ c) in
    let some_length : length (buffers log.entries) ≢ 0 =
      λ z. some_left (no_length (buffers log.entries) z) in
    let differ : (log''.allocated == length (rev_onto (buffers log''.entries) [])) ≡ false =
      ground (
        arith,
        b,
        zero_left,
        ap (λ es. length (buffers es)) entries,
        some_length,
        length-rev_onto (buffers log''.entries) [],
      ) in
    rw (mod_log_on_abort, differ) refl
