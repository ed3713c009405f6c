-- ===== src/Api/Nesting.antt =====
-- Nested transactions of tinySTM/src/stm.c are flat.
use tiny_stm_reval.Prelude.{◌+◌, ◌-◌, ◌<◌, ◌≡◌, refl, ap, true, false, Option, arith, ltb}
use tiny_stm_reval.Machine.{Env}
use tiny_stm_reval.Descriptor.{Attr, State, returned}
use tiny_stm_reval.Commit.{stm_commit}
use tiny_stm_reval.Api.{stm_start}

-- Inside a transaction, a nested start hands out no environment for a jump back, whatever its
-- attributes, and the commit that ends the nested level succeeds and brings back the state before
-- the start: nothing that is shared is accessed, the attributes of the outer transaction stay, and
-- no callback is called.
pub stm_commit-stm_start :
    (env : Env) (attr : Option Attr) (s : State)
    → 0 < s.tx.nesting
    → ((stm_start env attr s).0 ≡ returned false)
      × (stm_commit env (stm_start env attr s).1 ≡ (returned true, s))
unfolding stm_start stm_commit
stm_commit-stm_start env attr s inside =
    let nested : ltb 0 s.tx.nesting ≡ true = ground (arith, inside) in
    let deeper : ltb 1 (s.tx.nesting + 1) ≡ true = ground (arith, inside) in
    let back : s.tx.nesting + 1 - 1 ≡ s.tx.nesting = omega arith in
    rw nested (
      refl,
      rw deeper (
          ap (λ n. let tx = s.tx in (returned true, record s { tx = record tx { nesting = n } }))
            back),
    )
