-- ===== src/ModMem/Balance.antt =====
-- What a transaction frees in the end (tinySTM/src/mod_mem.c).
use tiny_stm_reval.Prelude.{
  ℕ, ◌+◌, ◌≡◌, refl, ap, Option, none, some, List, [], ◌∷◌, ◌++◌, arith, ◌==◌, if◌then◌else◌,
}
use tiny_stm_reval.ModMem.{
  Info, stm_malloc, schedule_free, free_nodes, free_all, mod_mem_on_commit, mod_mem_on_abort,
}

-- A call of stm_malloc or of stm_free, with what the allocator gives.
pub data Request : Type 0 where
  obtain : (node addr size : ℕ) → Request
  give_back : (node addr : ℕ) → Request

unfoldable pub run : List Request → Info → Option Info
run [] mi = some mi
run (obtain node addr size ∷ rs) mi = elim (stm_malloc (some node) (λ _. some addr) size mi) [
  | none ↦ none
  | some (a, mi') ↦ run rs mi'
]
run (give_back node addr ∷ rs) mi = elim (schedule_free (some node) addr mi) [
  | none ↦ none
  | some mi' ↦ run rs mi'
]

abbrev pub count : ℕ → List ℕ → ℕ
count x [] = 0
count x (y ∷ ys) = (if y == x then 1 else 0) + count x ys

-- The memory that is obtained, the memory that is given back, and the blocks of the lists.
abbrev pub obtained : List Request → List ℕ
obtained [] = []
obtained (obtain node addr size ∷ rs) = addr ∷ obtained rs
obtained (give_back node addr ∷ rs) = obtained rs

abbrev pub given_back : List Request → List ℕ
given_back [] = []
given_back (obtain node addr size ∷ rs) = given_back rs
given_back (give_back node addr ∷ rs) = addr ∷ given_back rs

abbrev pub nodes : List Request → List ℕ
nodes [] = []
nodes (obtain node addr size ∷ rs) = node ∷ nodes rs
nodes (give_back node addr ∷ rs) = node ∷ nodes rs

count-append : (x : ℕ) (xs ys : List ℕ) → count x (xs ++ ys) ≡ count x xs + count x ys
count-append x [] ys = omega arith
count-append x (y ∷ xs) ys = omega (arith, count-append x xs ys)

-- What the lists hold, by address.
record Holds (x : ℕ) (mi mi' : Info) (rs : List Request) : Type 0 where
  frees : count x mi'.frees ≡ count x mi.frees
  obtained_all :
      count x (free_all mi'.allocated) + count x (free_nodes mi'.freed)
      ≡ count x (free_all mi.allocated)
        + count x (free_nodes mi.freed)
        + count x (obtained rs)
        + count x (nodes rs)
  given_all :
      count x (free_nodes mi'.allocated) + count x (free_all mi'.freed)
      ≡ count x (free_nodes mi.allocated)
        + count x (free_all mi.freed)
        + count x (given_back rs)
        + count x (nodes rs)

run-Holds :
    (rs : List Request) (mi : Info)
    → (mi' : Info) × (run rs mi ≡ some mi') × ((x : ℕ) → Holds x mi mi' rs)
unfolding run stm_malloc schedule_free free_all free_nodes
run-Holds [] mi =
    (mi, refl, λ x. record { frees = refl; obtained_all = omega arith; given_all = omega arith })
run-Holds (obtain node addr size ∷ rs) mi =
    let mi₁ : Info = record mi { allocated = record { node = node; addr = addr } ∷ mi.allocated } in
    let (mi', ran, h) = run-Holds rs mi₁ in
    (
      mi',
      ran,
      λ x. record {
        frees = (h x).frees;
        obtained_all = omega (arith, (h x).obtained_all);
        given_all = omega (arith, (h x).given_all);
      },
    )
run-Holds (give_back node addr ∷ rs) mi =
    let mi₁ : Info = record mi { freed = record { node = node; addr = addr } ∷ mi.freed } in
    let (mi', ran, h) = run-Holds rs mi₁ in
    (
      mi',
      ran,
      λ x. record {
        frees = (h x).frees;
        obtained_all = omega (arith, (h x).obtained_all);
        given_all = omega (arith, (h x).given_all);
      },
    )

count_lists :
    (x : ℕ) (xs ys zs : List ℕ)
    → count x ((xs ++ ys) ++ zs) ≡ count x xs + (count x ys + count x zs)
count_lists x xs ys zs = omega (arith, count-append x (xs ++ ys) zs, count-append x xs ys)

-- After a transaction that obtains memory with stm_malloc and gives memory back with stm_free, an
-- abort frees exactly the memory that was obtained, and a commit exactly the memory that was given
-- back; both free each block of the module's lists; everything is freed as often as it was obtained
-- or given back, and both lists are empty then. No allocation fails, and the lists are empty when
-- the transaction starts.
pub frees_once :
    (rs : List Request) (mi : Info)
    → mi.allocated ≡ []
    → mi.freed ≡ []
    → (mi' : Info) × (run rs mi ≡ some mi')
      × ((x : ℕ)
          → count x (mod_mem_on_abort mi').frees
            ≡ count x mi.frees + (count x (obtained rs) + count x (nodes rs)))
      × ((x : ℕ)
          → count x (mod_mem_on_commit mi').frees
            ≡ count x mi.frees + (count x (given_back rs) + count x (nodes rs)))
      × ((mod_mem_on_abort mi').allocated ≡ [])
      × ((mod_mem_on_abort mi').freed ≡ [])
      × ((mod_mem_on_commit mi').allocated ≡ [])
      × ((mod_mem_on_commit mi').freed ≡ [])
unfolding mod_mem_on_abort mod_mem_on_commit free_all free_nodes
frees_once rs mi e₁ e₂ =
    let (mi', ran, h) = run-Holds rs mi in
    (
      mi',
      ran,
      λ x. omega (
        arith,
        count_lists x mi'.frees (free_all mi'.allocated) (free_nodes mi'.freed),
        (h x).frees,
        (h x).obtained_all,
        ap (λ bs. count x (free_all bs)) e₁,
        ap (λ bs. count x (free_nodes bs)) e₂,
      ),
      λ x. omega (
        arith,
        count_lists x mi'.frees (free_nodes mi'.allocated) (free_all mi'.freed),
        (h x).frees,
        (h x).given_all,
        ap (λ bs. count x (free_nodes bs)) e₁,
        ap (λ bs. count x (free_all bs)) e₂,
      ),
      refl,
      refl,
      refl,
      refl,
    )
