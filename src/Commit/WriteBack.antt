-- ===== src/Commit/WriteBack.antt =====
-- The write-back of stm_commit (tinySTM/src/stm.c), for a thread that is alone: what it leaves at
-- each address and in each lock.
use tiny_stm_reval.Prelude.{
  ℕ, ◌≡◌, refl, sym, ap, ◌∙◌, inl, inr, Bool, true, false, List, [], ◌∷◌, arith, ◌==◌,
  if◌then◌else◌, ==_iff, Bool-cases,
}
use mathlib.Core.Path.{subst}
use tiny_stm_reval.Word.{word_max, merge, set_timestamp}
use tiny_stm_reval.Machine.{Shared, Env, World, tick, store_lock, update}
use tiny_stm_reval.Descriptor.{WriteEntry}
use tiny_stm_reval.Quiet.{Alone, shared-tick, store_mem_alone}
use tiny_stm_reval.Commit.{write_word, write_back}
use tiny_stm_reval.Commit.Locks.{takes, taken_by, strip_all}

-- What one recorded write makes of the word at its address.
unfoldable pub overwrite : WriteEntry → ℕ → ℕ
overwrite e old =
    if e.mask == word_max then e.value else if e.mask == 0 then old else merge e.mask old e.value

-- What the recorded writes, in order, make of the word at `a`.
unfoldable pub value_after : List WriteEntry → ℕ → ℕ → ℕ
value_after [] a old = old
value_after (e ∷ es) a old = value_after es a (if e.addr == a then overwrite e old else old)

pub value_after-strip_all :
    (es : List WriteEntry) (a old : ℕ) → value_after (strip_all es) a old ≡ value_after es a old
unfolding value_after overwrite
value_after-strip_all [] a old = refl
value_after-strip_all (e ∷ es) a old = value_after-strip_all es a _

-- The shared state after a write-back.
pub record Written (t : ℕ) (es : List WriteEntry) (sh sh' : Shared) : Type 0 where
  pub mem : (a : ℕ) → sh'.mem a ≡ value_after es a (sh.mem a)
  pub lock : (j : ℕ) → sh'.lock j ≡ (if taken_by es j then set_timestamp t else sh.lock j)
  pub clock : sh'.clock ≡ sh.clock
  pub quiesce : sh'.quiesce ≡ sh.quiesce

module _ {env : Env} (alone : Alone env) where
  -- One entry, without its lock.
  record Stored (e : WriteEntry) (sh sh' : Shared) : Type 0 where
    mem : (a : ℕ) → sh'.mem a ≡ (if e.addr == a then overwrite e (sh.mem a) else sh.mem a)
    lock : sh'.lock ≡ sh.lock
    clock : sh'.clock ≡ sh.clock
    quiesce : sh'.quiesce ≡ sh.quiesce

  Stored-at :
      (e : WriteEntry) (v : ℕ) (sh : Shared)
      → v ≡ overwrite e (sh.mem e.addr)
      → Stored e sh (record sh { mem = update sh.mem e.addr v })
  Stored-at e v sh ev = record {
    mem = λ a. elim (Bool-cases (e.addr == a)) [
      | inl y ↦ rw y (ev ∙ ap (λ x. overwrite e (sh.mem x)) ((==_iff e.addr a).0 y))
      | inr n ↦ rw n
    ];
    lock = refl;
    clock = refl;
    quiesce = refl;
  }

  write_word-Stored : (e : WriteEntry) (w : World) → Stored e w.shared (write_word env e w).shared
  unfolding write_word overwrite
  write_word-Stored e w = elim (Bool-cases (e.mask == word_max)) [
    | inl whole ↦ rw whole (
        subst (Stored e w.shared) (sym (store_mem_alone alone e.addr e.value w))
          (Stored-at e e.value w.shared (rw whole)))
    | inr part ↦ elim (Bool-cases (e.mask == 0)) [
      | inl nothing ↦
          rw (part, nothing)
            (record { mem = λ a. ground arith; lock = refl; clock = refl; quiesce = refl })
      | inr some_bytes ↦
          rw (part, some_bytes)
            (subst (Stored e w.shared)
              (sym (
                store_mem_alone alone e.addr (merge e.mask ((tick env w).shared.mem e.addr) e.value)
                  (tick env w)))
              (subst
                (λ (x : Shared).
                  Stored e w.shared
                    (record x { mem = update x.mem e.addr (merge e.mask (x.mem e.addr) e.value) }))
                (sym (shared-tick alone w))
                (Stored-at e (merge e.mask (w.shared.mem e.addr) e.value) w.shared
                  (rw (part, some_bytes)))))
    ]
  ]

  -- One entry, with its lock.
  abbrev after_store : ℕ → WriteEntry → World → World
  after_store t e w = if e.no_drop then w else store_lock env e.lock (set_timestamp t) w

  record Dropped (t : ℕ) (e : WriteEntry) (sh sh' : Shared) : Type 0 where
    mem : (a : ℕ) → sh'.mem a ≡ (if e.addr == a then overwrite e (sh.mem a) else sh.mem a)
    lock : (j : ℕ) → sh'.lock j ≡ (if takes e j then set_timestamp t else sh.lock j)
    clock : sh'.clock ≡ sh.clock
    quiesce : sh'.quiesce ≡ sh.quiesce

  after_store-Dropped :
      (t : ℕ) (e : WriteEntry) (w : World)
      → Dropped t e w.shared (after_store t e (write_word env e w)).shared
  unfolding store_lock
  after_store-Dropped t e w = go e.no_drop refl
    where
      st : Stored e w.shared (write_word env e w).shared
      st = write_word-Stored e w

      Next : Shared → Type 0
      Next x = Dropped t e w.shared (record x { lock = update x.lock e.lock (set_timestamp t) })

      go :
          (b : Bool)
          → e.no_drop ≡ b
          → Dropped t e w.shared
              (if b
                then write_word env e w
                else store_lock env e.lock (set_timestamp t) (write_word env e w)).shared
      go true keep = record {
        mem = st.mem;
        lock = λ j. ground (arith, ap (λ (f : ℕ → ℕ). f j) st.lock);
        clock = st.clock;
        quiesce = st.quiesce;
      }
      go false drop = subst Next (sym (shared-tick alone (write_word env e w))) (record {
        mem = st.mem;
        lock = λ j. ground (arith, ap (λ (f : ℕ → ℕ). f j) st.lock);
        clock = st.clock;
        quiesce = st.quiesce;
      })

  Written-cons :
      (t : ℕ) (e : WriteEntry) (es : List WriteEntry) (sh sh' sh'' : Shared)
      → Dropped t e sh sh'
      → Written t es sh' sh''
      → Written t (e ∷ es) sh sh''
  unfolding value_after
  Written-cons t e es sh sh' sh'' d k = record {
    mem = λ a. k.mem a ∙ ap (value_after es a) (d.mem a);
    lock = λ j. ground (arith, k.lock j, d.lock j);
    clock = k.clock ∙ d.clock;
    quiesce = k.quiesce ∙ d.quiesce;
  }

  pub write_back-Written :
      (t : ℕ) (es : List WriteEntry) (w : World)
      → Written t es w.shared (write_back env t es w).shared
  unfolding write_back value_after
  write_back-Written t [] w = record {
    mem = λ a. refl;
    lock = λ j. refl;
    clock = refl;
    quiesce = refl;
  }
  write_back-Written t (e ∷ es) w =
      let w' = after_store t e (write_word env e w) in
      Written-cons t e es w.shared w'.shared (write_back env t es w').shared
        (after_store-Dropped t e w) (write_back-Written t es w')
