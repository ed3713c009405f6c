-- ===== src/ModCb.antt =====
-- Callbacks of one transaction, tinySTM/src/mod_cb.c. What malloc gives is an argument; what a
-- callback does to the module's lists, by the calls it makes itself, is the parameter `effect`.
pub mod Order
use tiny_stm_reval.Prelude.{[], ℕ, Bool, true, false, Option, none, some, List, ◌∷◌, ◌++◌}
use tiny_stm_reval.Machine.{Callback}

-- `mod_cb_entry_t`
pub record Entry : Type 0 where
  pub block : ℕ
  pub callback : Callback

-- `mod_cb_info_t`, with the callbacks called and the entries freed so far.
pub record Info : Type 0 where
  pub commit : List Entry
  pub abort : List Entry
  pub called : List Callback
  pub frees : List ℕ

-- stm_on_commit and stm_on_abort; `none` is exit(1).
unfoldable pub stm_on_commit : Option ℕ → Callback → Info → Option Info
stm_on_commit none f icb = none
stm_on_commit (some p) f icb =
    some (record icb { commit = record { block = p; callback = f } ∷ icb.commit })

unfoldable pub stm_on_abort : Option ℕ → Callback → Info → Option Info
stm_on_abort none f icb = none
stm_on_abort (some p) f icb =
    some (record icb { abort = record { block = p; callback = f } ∷ icb.abort })

unfoldable pub call_entry : (Callback → Info → Info) → Entry → Info → Info
call_entry effect e icb =
    effect e.callback (record icb { called = icb.called ++ (e.callback ∷ []) })

unfoldable pub free_entry : Entry → Info → Info
free_entry e icb = record icb { frees = icb.frees ++ (e.block ∷ []) }

-- The loop that calls, over the entries from `icb->commit` on: each round sets the list to the
-- entry's successor.
unfoldable pub call_commit : (Callback → Info → Info) → List Entry → Info → Info
call_commit effect [] icb = icb
call_commit effect (e ∷ es) icb =
    call_commit effect es (free_entry e (record (call_entry effect e icb) { commit = es }))

unfoldable pub call_abort : (Callback → Info → Info) → List Entry → Info → Info
call_abort effect [] icb = icb
call_abort effect (e ∷ es) icb =
    call_abort effect es (free_entry e (record (call_entry effect e icb) { abort = es }))

-- The loops that only free.
unfoldable pub drop_commit : List Entry → Info → Info
drop_commit [] icb = icb
drop_commit (e ∷ es) icb = drop_commit es (free_entry e (record icb { commit = es }))

unfoldable pub drop_abort : List Entry → Info → Info
drop_abort [] icb = icb
drop_abort (e ∷ es) icb = drop_abort es (free_entry e (record icb { abort = es }))

unfoldable pub mod_cb_on_commit : (Callback → Info → Info) → Info → Info
mod_cb_on_commit effect icb =
    let icb' = call_commit effect icb.commit icb in drop_abort icb'.abort icb'

unfoldable pub mod_cb_on_abort : (Callback → Info → Info) → Info → Info
mod_cb_on_abort effect icb =
    let icb' = call_abort effect icb.abort icb in drop_commit icb'.commit icb'

-- mod_cb_on_thread_init: what malloc gives is not NULL.
unfoldable pub mod_cb_on_thread_init : Bool → Option Info
mod_cb_on_thread_init false = none
mod_cb_on_thread_init true = some (record { commit = []; abort = []; called = []; frees = [] })
