-- ===== src/Kernel/Fork/TaskTable.antt =====
-- `find_empty_task` of benos/src/fork.c.
use risc_v_lab.Base.{
  ℕ, zero, suc, ◌+◌, ◌<◌, ◌≡◌, arith, none, some, List, [], ◌∷◌, get_elem?, Option-cases, inl, inr,
}
use native.Mathlib.Decide.{ℕ_discrete}
use risc_v_lab.Kernel.{Kernel}
use risc_v_lab.Kernel.Fork.{find_empty, find_empty_task}

abbrev pub IsEmptySlot : List ℕ → ℕ → Type 0
IsEmptySlot ts i = get_elem? ts i ≡ some 0

find_empty-some :
    (i k : ℕ) (ts : List ℕ)
    → find_empty i ts ≡ some k
    → (d : ℕ) × (k ≡ i + d) × IsEmptySlot ts d × ((j : ℕ) → j < d → ¬ IsEmptySlot ts j)
unfolding find_empty
find_empty-some i k [] h = ground arith
find_empty-some i k (t ∷ ts) h = elim (ℕ_discrete t 0) [
  | yes e ↦ (0, ground arith, ground arith, λ j lt. absurd (omega arith))
  | no ne ↦
      let (d, e, free, before) = find_empty-some (i + 1) k ts (ground arith) in
      (
        suc d,
        omega arith,
        free,
        elim [ zero ↦ λ lt f. ground arith | suc j ↦ λ lt. before j (omega arith) ],
      )
]

find_empty-none : (i : ℕ) (ts : List ℕ) → find_empty i ts ≡ none → (j : ℕ) → ¬ IsEmptySlot ts j
unfolding find_empty
find_empty-none i [] h j f = ground arith
find_empty-none i (t ∷ ts) h zero f = ground arith
find_empty-none i (t ∷ ts) h (suc j) f = find_empty-none (i + 1) ts (ground arith) j f

-- The number that a new task gets is the least free one.
pub find_empty_task-some :
    (k : Kernel) (pid : ℕ)
    → find_empty_task k ≡ some pid
    → IsEmptySlot k.g_task pid × ((j : ℕ) → j < pid → ¬ IsEmptySlot k.g_task j)
unfolding find_empty_task
find_empty_task-some k pid h =
    let (d, e, free, before) = find_empty-some 0 pid k.g_task h in
    let same : pid ≡ d = omega arith in rw same (free, before)

-- A table without a free entry is full for the search.
pub find_empty_task-full :
    (k : Kernel) → ((j : ℕ) → ¬ IsEmptySlot k.g_task j) → find_empty_task k ≡ none
unfolding find_empty_task
find_empty_task-full k full = elim (Option-cases (find_empty 0 k.g_task)) [
  | inl e ↦ e
  | inr (pid, e) ↦ absurd (full pid (find_empty_task-some k pid e).0)
]
