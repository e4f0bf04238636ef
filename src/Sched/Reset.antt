-- ===== src/Sched/Reset.antt =====
-- `reset_score` of benos/src/sched_simple.c.
use risc_v_lab.Base.{
  ℕ, zero, suc, ◌<◌, ◌≡◌, refl, arith, ◌==◌, if◌then◌else◌, false, some, List, [], ◌∷◌, length, has,
  ◌∈◌, ◌∉◌, Distinct, All,
}
use risc_v_lab.Base.Int.{pos, ◌≤ℤ◌, ◌+ℤ◌}
use risc_v_lab.ListHead.{Nodes}
use risc_v_lab.ListHead.Chain.{Chain, Chain-frame}
use risc_v_lab.ListHead.Ring.{IsRing}
use risc_v_lab.Sched.{TaskStruct, Tasks, def_counter, put_task, reset_loop, reset_score}
use risc_v_lab.Sched.Pick.{◌<ℤ◌}

-- The task list: its links are the fields `next_task` and `prev_task`.
abbrev pub task_links : Tasks → Nodes
task_links ts p = record { next = (ts p).next_task; prev = (ts p).prev_task }

-- A task with a new time slice.
abbrev pub refill : TaskStruct → TaskStruct
refill t = record t { counter = def_counter +ℤ t.priority }

-- `reset_score` gives every task of `ys` a new time slice, and changes nothing else.
abbrev pub Refilled : List ℕ → Tasks → Tasks → Type 0
Refilled ys ts ts' = (q : ℕ) → ts' q ≡ (if has q ys then refill (ts q) else ts q)

reset_loop-Refilled :
    (init_task fuel a : ℕ) (ys : List ℕ) (ts : Tasks)
    → Chain (task_links ts) a ys init_task
    → Distinct ys
    → init_task ∉ ys
    → length ys < fuel
    → (ts' : Tasks) × (reset_loop init_task fuel (ts a).next_task ts ≡ some ts')
      × Refilled ys ts ts'
unfolding reset_loop
reset_loop-Refilled init_task zero a ys ts c d out enough = absurd (omega arith)
reset_loop-Refilled init_task (suc fuel) a [] ts c d out enough =
    (ts, ground (arith, c.0), λ q. refl)
reset_loop-Refilled init_task (suc fuel) a (y ∷ ys) ts c d out enough =
    let ts1 : Tasks = put_task y (refill (ts y)) ts in
    let next_same : (q : ℕ) → (ts1 q).next_task ≡ (ts q).next_task = λ q. ground arith in
    let prev_same : (q : ℕ) → (ts1 q).prev_task ≡ (ts q).prev_task = λ q. ground arith in
    let ne : (y == init_task) ≡ false = ground arith in
    let (ts', runs, all) =
      reset_loop-Refilled init_task fuel y ys ts1
        (Chain-frame (task_links ts1) y ys init_task c.2 (λ q _. next_same q) (λ q _. prev_same q))
        d.1 (ground arith) (omega arith) in
    (ts', rw (c.0, ne) runs, λ q. ground (arith, all q))

-- What `reset_score` does when the tasks other than `init_task` are `ys`.
pub reset_score-Refilled :
    (init_task fuel : ℕ) (ys : List ℕ) (ts : Tasks)
    → IsRing (task_links ts) init_task ys
    → length ys < fuel
    → (ts' : Tasks) × (reset_score init_task fuel ts ≡ some ts') × Refilled ys ts ts'
unfolding reset_score
reset_score-Refilled init_task fuel ys ts r enough =
    reset_loop-Refilled init_task fuel init_task ys ts r.chain r.distinct.1 r.distinct.0 enough

-- New time slices keep a queue ready, and make every counter of it positive.
refilled_counter :
    (ts ts' : Tasks) (ys : List ℕ) (q : ℕ)
    → Refilled ys ts ts'
    → q ∈ ys
    → pos 0 ≤ℤ (ts q).priority
    → (pos 0 <ℤ (ts' q).counter) × (pos 0 ≤ℤ (ts' q).priority)
unfolding ◌+ℤ◌
refilled_counter ts ts' ys q all i pri = ground (arith, all q)

pub refilled_all :
    (ts ts' : Tasks) (ys xs : List ℕ)
    → Refilled ys ts ts'
    → All (λ q. q ∈ ys) xs
    → All (λ q. pos 0 ≤ℤ (ts q).priority) xs
    → All (λ q. (pos 0 <ℤ (ts' q).counter) × (pos 0 ≤ℤ (ts' q).priority)) xs
refilled_all ts ts' ys [] all i pri = tt
refilled_all ts ts' ys (x ∷ xs) all i pri =
    (refilled_counter ts ts' ys x all i.0 pri.0, refilled_all ts ts' ys xs all i.1 pri.1)
