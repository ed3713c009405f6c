-- ===== src/ModCb/Order.antt =====
-- Which callbacks are called at the end of a transaction, and in which order
-- (tinySTM/src/mod_cb.c).
use tiny_stm_reval.Prelude.{
  ℕ, ◌≡◌, refl, sym, ap, ◌∙◌, Option, none, some, List, [], ◌∷◌, ◌++◌, rev_onto,
}
use mathlib.Core.List.{append_assoc, append-nil}
use tiny_stm_reval.Machine.{Callback}
use tiny_stm_reval.ModCb.{
  Entry, Info, stm_on_commit, stm_on_abort, call_entry, free_entry, call_commit, call_abort,
  drop_commit, drop_abort, mod_cb_on_commit, mod_cb_on_abort,
}

abbrev pub callbacks : List Entry → List Callback
callbacks [] = []
callbacks (e ∷ es) = e.callback ∷ callbacks es

-- A callback may register further callbacks; it does not call any itself.
abbrev pub OnlyRegisters : (Callback → Info → Info) → Type 0
OnlyRegisters effect = (f : Callback) (icb : Info) → (effect f icb).called ≡ icb.called

module _ (effect : Callback → Info → Info) (registers : OnlyRegisters effect) where
  called-call_commit :
      (es : List Entry) (icb : Info)
      → icb.commit ≡ es
      → ((call_commit effect es icb).called ≡ icb.called ++ callbacks es)
        × ((call_commit effect es icb).commit ≡ [])
  unfolding call_commit call_entry free_entry
  called-call_commit [] icb h = (sym (append-nil icb.called), h)
  called-call_commit (e ∷ es) icb h =
      let next = free_entry e (record (call_entry effect e icb) { commit = es }) in
      let (a, b) = called-call_commit es next refl in
      (
        a
            ∙ ap (λ c. c ++ callbacks es)
                (registers e.callback (record icb { called = icb.called ++ (e.callback ∷ []) }))
            ∙ append_assoc icb.called (e.callback ∷ []) (callbacks es),
        b,
      )

  called-call_abort :
      (es : List Entry) (icb : Info)
      → icb.abort ≡ es
      → ((call_abort effect es icb).called ≡ icb.called ++ callbacks es)
        × ((call_abort effect es icb).abort ≡ [])
  unfolding call_abort call_entry free_entry
  called-call_abort [] icb h = (sym (append-nil icb.called), h)
  called-call_abort (e ∷ es) icb h =
      let next = free_entry e (record (call_entry effect e icb) { abort = es }) in
      let (a, b) = called-call_abort es next refl in
      (
        a
            ∙ ap (λ c. c ++ callbacks es)
                (registers e.callback (record icb { called = icb.called ++ (e.callback ∷ []) }))
            ∙ append_assoc icb.called (e.callback ∷ []) (callbacks es),
        b,
      )

drop_commit_lem :
    (es : List Entry) (icb : Info)
    → icb.commit ≡ es
    → ((drop_commit es icb).called ≡ icb.called)
      × ((drop_commit es icb).commit ≡ [])
      × ((drop_commit es icb).abort ≡ icb.abort)
unfolding drop_commit free_entry
drop_commit_lem [] icb h = (refl, h, refl)
drop_commit_lem (e ∷ es) icb h = drop_commit_lem es (free_entry e (record icb { commit = es })) refl

drop_abort_lem :
    (es : List Entry) (icb : Info)
    → icb.abort ≡ es
    → ((drop_abort es icb).called ≡ icb.called)
      × ((drop_abort es icb).abort ≡ [])
      × ((drop_abort es icb).commit ≡ icb.commit)
unfolding drop_abort free_entry
drop_abort_lem [] icb h = (refl, h, refl)
drop_abort_lem (e ∷ es) icb h = drop_abort_lem es (free_entry e (record icb { abort = es })) refl

-- The callbacks that the end of a transaction calls are those of its list.
called-ends :
    (effect : Callback → Info → Info) (icb : Info)
    → OnlyRegisters effect
    → ((mod_cb_on_commit effect icb).called ≡ icb.called ++ callbacks icb.commit)
      × ((mod_cb_on_commit effect icb).commit ≡ [])
      × ((mod_cb_on_commit effect icb).abort ≡ [])
      × ((mod_cb_on_abort effect icb).called ≡ icb.called ++ callbacks icb.abort)
      × ((mod_cb_on_abort effect icb).commit ≡ [])
      × ((mod_cb_on_abort effect icb).abort ≡ [])
unfolding mod_cb_on_commit mod_cb_on_abort
called-ends effect icb registers =
    let (a, b) = called-call_commit effect registers icb.commit icb refl in
    let icb₁ = call_commit effect icb.commit icb in
    let (c, d, e) = drop_abort_lem icb₁.abort icb₁ refl in
    let (f, g) = called-call_abort effect registers icb.abort icb refl in
    let icb₂ = call_abort effect icb.abort icb in
    let (h, i, j) = drop_commit_lem icb₂.commit icb₂ refl in (c ∙ a, e ∙ b, d, h ∙ f, i, j ∙ g)

-- A call of stm_on_commit or stm_on_abort, with the block that malloc gives for its entry.
pub data Request : Type 0 where
  on_commit : ℕ → Callback → Request
  on_abort : ℕ → Callback → Request

unfoldable pub request : Request → Info → Option Info
request (on_commit p f) icb = stm_on_commit (some p) f icb
request (on_abort p f) icb = stm_on_abort (some p) f icb

unfoldable pub request_all : List Request → Info → Option Info
request_all [] icb = some icb
request_all (r ∷ rs) icb = elim (request r icb) [ none ↦ none | some icb' ↦ request_all rs icb' ]

-- The functions of the requests for a commit, and for an abort, in the order of the requests.
unfoldable pub commits : List Request → List Callback
commits [] = []
commits (on_commit p f ∷ rs) = f ∷ commits rs
commits (on_abort p f ∷ rs) = commits rs

unfoldable pub aborts : List Request → List Callback
aborts [] = []
aborts (on_commit p f ∷ rs) = aborts rs
aborts (on_abort p f ∷ rs) = f ∷ aborts rs

request_all_lem :
    (rs : List Request) (icb : Info)
    → (icb' : Info) × (request_all rs icb ≡ some icb')
      × (icb'.called ≡ icb.called)
      × (callbacks icb'.commit ≡ rev_onto (commits rs) (callbacks icb.commit))
      × (callbacks icb'.abort ≡ rev_onto (aborts rs) (callbacks icb.abort))
unfolding request_all request stm_on_commit stm_on_abort commits aborts rev_onto
request_all_lem [] icb = (icb, refl, refl, refl, refl)
request_all_lem (on_commit p f ∷ rs) icb =
    request_all_lem rs (record icb { commit = record { block = p; callback = f } ∷ icb.commit })
request_all_lem (on_abort p f ∷ rs) icb =
    request_all_lem rs (record icb { abort = record { block = p; callback = f } ∷ icb.abort })

-- After any calls of stm_on_commit and stm_on_abort, a commit calls the functions that were given
-- to stm_on_commit and no other, the one given last first, and an abort those given to stm_on_abort.
-- What these functions register themselves is dropped without a call, and both lists are empty
-- afterwards. Both are empty before the first of the calls, malloc does not fail, and the functions
-- do not end the transaction.
pub registered_before :
    (effect : Callback → Info → Info) (rs : List Request) (icb : Info)
    → OnlyRegisters effect
    → icb.commit ≡ []
    → icb.abort ≡ []
    → (icb' : Info) × (request_all rs icb ≡ some icb')
      × ((mod_cb_on_commit effect icb').called ≡ icb.called ++ rev_onto (commits rs) [])
      × ((mod_cb_on_commit effect icb').commit ≡ [])
      × ((mod_cb_on_commit effect icb').abort ≡ [])
      × ((mod_cb_on_abort effect icb').called ≡ icb.called ++ rev_onto (aborts rs) [])
      × ((mod_cb_on_abort effect icb').commit ≡ [])
      × ((mod_cb_on_abort effect icb').abort ≡ [])
registered_before effect rs icb registers no_commit no_abort =
    let (icb', e, same, cs, bs) = request_all_lem rs icb in
    let (a, b, c, d, f, g) = called-ends effect icb' registers in
    let cs' : callbacks icb'.commit ≡ rev_onto (commits rs) [] =
      cs ∙ ap (λ (l : List Entry). rev_onto (commits rs) (callbacks l)) no_commit in
    let bs' : callbacks icb'.abort ≡ rev_onto (aborts rs) [] =
      bs ∙ ap (λ (l : List Entry). rev_onto (aborts rs) (callbacks l)) no_abort in
    (
      icb',
      e,
      a
          ∙ ap (λ (l : List Callback). l ++ callbacks icb'.commit) same
          ∙ ap (λ (l : List Callback). icb.called ++ l) cs',
      b,
      c,
      d
          ∙ ap (λ (l : List Callback). l ++ callbacks icb'.abort) same
          ∙ ap (λ (l : List Callback). icb.called ++ l) bs',
      f,
      g,
    )
