-- ===== src/Tests/ModCb.antt =====
-- Two commit callbacks and one abort callback; the first one called registers another.
use tiny_stm_reval.Prelude.{◌≡◌, refl, some, List, rev_onto, [], ◌∷◌}
use tiny_stm_reval.Machine.{Callback}
use tiny_stm_reval.ModCb.{Info, mod_cb_on_commit, mod_cb_on_abort}
use tiny_stm_reval.ModCb.Order.{
  Request, on_commit, on_abort, request_all, commits, aborts, registered_before,
}

abbrev requests : List Request
requests = on_commit 32 (1, 0) ∷ on_abort 96 (3, 0) ∷ on_commit 64 (2, 0) ∷ []

abbrev started : Info
started = record { commit = []; abort = []; called = []; frees = [] }

abbrev registers_more : Callback → Info → Info
registers_more f icb = record icb { commit = record { block = 128; callback = f } ∷ icb.commit }

registered_before_example :
    (icb : Info) × (request_all requests started ≡ some icb)
    × ((mod_cb_on_commit registers_more icb).called ≡ (2, 0) ∷ (1, 0) ∷ [])
    × ((mod_cb_on_commit registers_more icb).commit ≡ [])
    × ((mod_cb_on_commit registers_more icb).abort ≡ [])
    × ((mod_cb_on_abort registers_more icb).called ≡ (3, 0) ∷ [])
    × ((mod_cb_on_abort registers_more icb).commit ≡ [])
    × ((mod_cb_on_abort registers_more icb).abort ≡ [])
unfolding commits aborts rev_onto
registered_before_example =
    registered_before registers_more requests started (λ f icb. refl) refl refl
