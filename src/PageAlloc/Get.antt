-- ===== src/PageAlloc/Get.antt =====
-- `get_free_page` of benos/src/page_alloc.c.
use risc_v_lab.Base.{
  ℕ, zero, suc, ◌+◌, ◌*◌, ◌<◌, ◌≡◌, ◌∙◌, ap, ◌≢◌, ◌⊎◌, inl, inr, refl, arith, none, some, List, [],
  ◌∷◌, get_elem?, set, u64,
}
use native.Mathlib.Decide.{ℕ_discrete}
use native.Mathlib.Nat.{zero-add}
use risc_v_lab.PageAlloc.{PageAlloc, find_free, get_free_page}

-- Page `i` of the map is free.
abbrev pub IsFree : List ℕ → ℕ → Type 0
IsFree m i = get_elem? m i ≡ some 0

-- What the search finds in a list whose indices start at `i`.
pub data Found (i : ℕ) (ms : List ℕ) : Type 0 where
  nowhere : find_free i ms ≡ none → ((j : ℕ) → ¬ IsFree ms j) → Found i ms
  at :
      (d : ℕ)
      → find_free i ms ≡ some (i + d)
      → IsFree ms d
      → ((j : ℕ) → j < d → ¬ IsFree ms j)
      → Found i ms

find_free-skip : (i m : ℕ) (ms : List ℕ) → m ≢ 0 → Found (i + 1) ms → Found i (m ∷ ms)
unfolding find_free
find_free-skip i m ms h (nowhere e none_free) =
    nowhere (ground arith)
      λ j. elim j as (λ j. ¬ IsFree (m ∷ ms) j) [ zero ↦ λ f. ground arith | suc j ↦ none_free j ]
find_free-skip i m ms h (at d e free before) = at (suc d) (ground arith) free λ j.
    elim j as (λ j. j < suc d → ¬ IsFree (m ∷ ms) j) [
      | zero ↦ λ lt f. ground arith
      | suc j ↦ λ lt. before j (omega arith)
    ]

pub find_free-Found : (i : ℕ) (ms : List ℕ) → Found i ms
unfolding find_free
find_free-Found i [] = nowhere refl (λ j f. ground arith)
find_free-Found i (m ∷ ms) = elim (ℕ_discrete m 0) [
  | yes e ↦ at 0 (ground arith) (ground arith) (λ j lt. absurd (omega arith))
  | no ne ↦ find_free-skip i m ms ne (find_free-Found (i + 1) ms)
]

abbrev pub page_addr : PageAlloc → ℕ → ℕ
page_addr s i = u64 (s.phy_start_address + i * 4096)

pub get_free_page-none : (s : PageAlloc) → find_free 0 s.mem_map ≡ none → get_free_page s ≡ (0, s)
unfolding get_free_page
get_free_page-none s e = rw (e, get_free_page)

pub get_free_page-some :
    (s : PageAlloc) (i : ℕ)
    → find_free 0 s.mem_map ≡ some i
    → get_free_page s ≡ (page_addr s i, record s { mem_map = set s.mem_map i 1 })
unfolding get_free_page
get_free_page-some s i e = rw (e, get_free_page)

-- The outcome of a call: the state is unchanged and no page is free, or the least free index `i`
-- is taken.
abbrev pub FirstFit : PageAlloc → Type 0
FirstFit s =
    ((get_free_page s ≡ (0, s)) × ((j : ℕ) → ¬ IsFree s.mem_map j))
    ⊎ ((i : ℕ) × (get_free_page s ≡ (page_addr s i, record s { mem_map = set s.mem_map i 1 }))
        × IsFree s.mem_map i
        × ((j : ℕ) → j < i → ¬ IsFree s.mem_map j))

FirstFit-of_Found : (s : PageAlloc) → Found 0 s.mem_map → FirstFit s
FirstFit-of_Found s (nowhere e taken) = inl (get_free_page-none s e, taken)
FirstFit-of_Found s (at d e free before) =
    inr (d, get_free_page-some s d (e ∙ ap some (zero-add d)), free, before)

-- `get_free_page` on every branch. Either no page is free, and then the result is 0 and the state
-- is unchanged; or the least free index `i` is taken: the result is the address of page `i` in 64
-- bits, and the only change of the state is that entry `i` of the map is 1.
pub get_free_page-FirstFit : (s : PageAlloc) → FirstFit s
get_free_page-FirstFit s = FirstFit-of_Found s (find_free-Found 0 s.mem_map)
