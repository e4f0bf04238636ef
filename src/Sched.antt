-- ===== src/Sched.antt =====
-- The tasks and the run queue of benos/include/sched.h, and the scheduling class of
-- benos/src/sched_simple.c. A `struct task_struct` is known by its address; its `run_list` lies at
-- offset 152. The memory holds the two kinds of objects apart: `nodes` the list heads, `tasks` all
-- other fields.
pub mod Pick
pub mod Reset
pub mod Ready
pub mod Passes
pub mod Slices
pub mod Queue
pub mod Tick
use risc_v_lab.Base.{
  ℕ, zero, suc, ◌+◌, ◌-◌, ◌^◌, ◌==◌, if◌then◌else◌, Bool, true, false, Option, none, some, List,
  u32, u64, sub64, ◌%◌,
}
use risc_v_lab.Base.Int.{ℤ, pos, negsuc, ◌+ℤ◌, ◌-ℤ◌, ltb_ℤ, is_zero}
use risc_v_lab.ListHead.{Nodes, list_add, list_del, init_list_head}

-- struct cpu_context: `s` holds the registers s0 to s11.
pub record CpuContext : Type 0 where
  pub ra : ℕ
  pub sp : ℕ
  pub s : ℕ → ℕ

pub data TaskState : Type 0 where
  running interruptible uninterruptible zombie stopped : TaskState

pub record TaskStruct : Type 0 where
  pub cpu_context : CpuContext
  pub preempt_count : ℤ
  pub need_resched : ℤ
  pub kernel_sp : ℕ
  pub user_sp : ℕ
  pub state : TaskState
  pub flags : ℕ
  pub pid : ℤ
  pub counter : ℤ
  pub priority : ℤ
  pub next_task : ℕ
  pub prev_task : ℕ

abbrev pub Tasks : Type 0
Tasks = ℕ → TaskStruct

unfoldable pub put_task : ℕ → TaskStruct → Tasks → Tasks
put_task p t ts a = if a == p then t else ts a

-- struct run_queue, but for its list head, which stands in the memory at `rq_head`.
pub record RunQueue : Type 0 where
  pub nr_running : ℕ
  pub nr_switches : ℕ
  pub curr : ℕ

abbrev pub def_counter : ℤ
def_counter = pos 10

-- `&p->run_list`, and the `list_entry` that leads back.
abbrev pub run_list : ℕ → ℕ
run_list p = u64 (p + 152)

abbrev pub task_of : ℕ → ℕ
task_of n = sub64 n 152

pub record Sched : Type 0 where
  pub nodes : Nodes
  pub tasks : Tasks
  pub rq : RunQueue

unfoldable pub dequeue_task_simple : ℕ → Sched → Sched
dequeue_task_simple p s = record s {
  nodes = list_del (run_list p) s.nodes;
  rq = record (s.rq) { nr_running = (s.rq.nr_running + 2 ^ 32 - 1) % 2 ^ 32 };
}

unfoldable pub enqueue_task_simple : ℕ → ℕ → Sched → Sched
enqueue_task_simple rq_head p s = record s {
  nodes = list_add (run_list p) rq_head s.nodes;
  rq = record (s.rq) { nr_running = u32 (s.rq.nr_running + 1) };
}

unfoldable pub goodness : Tasks → ℕ → ℤ
goodness ts p = (ts p).counter

-- The `for_each_task` loop of `reset_score` from `p` on; `none` is a lack of fuel.
module _ (init_task : ℕ) where
  unfoldable pub reset_loop : ℕ → ℕ → Tasks → Option Tasks
  unfolding put_task ◌+ℤ◌
  reset_loop zero p ts = none
  reset_loop (suc fuel) p ts =
      let t = ts p in
      let ts' = put_task p (record t { counter = def_counter +ℤ t.priority }) ts in
      let rest = reset_loop fuel (ts' p).next_task ts' in if p == init_task then some ts else rest

  unfoldable pub reset_score : ℕ → Tasks → Option Tasks
  unfolding reset_loop
  reset_score fuel ts = reset_loop fuel (ts init_task).next_task ts

module _ (rq_head : ℕ) (m : Nodes) (ts : Tasks) where
  -- The `list_for_each` loop of `pick_next_task_simple`; a `next` of `none` was never assigned.
  unfoldable pub pick_loop : ℕ → ℕ → ℤ → Option ℕ → Option (ℤ × Option ℕ)
  unfolding goodness
  pick_loop zero tmp c next = none
  pick_loop (suc fuel) tmp c next =
      let p = task_of tmp in
      let weight = goodness ts p in
      let better = ltb_ℤ c weight in
      let rest =
        pick_loop fuel (m tmp).next (if better then weight else c)
          (if better then some p else next) in
      if tmp == rq_head then some (c, next) else rest

module _ (rq_head init_task : ℕ) (m : Nodes) where
  -- One pass for each `goto repeat`. The result is `next` and the tasks, whose counters may have
  -- been reset.
  unfoldable pub pick_next_task_simple : ℕ → ℕ → Tasks → Option (Option ℕ × Tasks)
  unfolding pick_loop reset_score
  pick_next_task_simple zero fuel ts = none
  pick_next_task_simple (suc passes) fuel ts =
      elim (pick_loop rq_head m ts fuel (m rq_head).next (negsuc 999) none) [
        | none ↦ none
        | some (c, next) ↦ elim (is_zero c) [
          | false ↦ some (next, ts)
          | true ↦ elim (reset_score init_task fuel ts) [
            | none ↦ none
            | some ts' ↦ pick_next_task_simple passes fuel ts'
          ]
        ]
      ]

unfoldable pub task_tick_simple : ℕ → Tasks → Tasks
unfolding put_task ◌-ℤ◌
task_tick_simple p ts =
    let t = ts p in
    let left = t.counter -ℤ pos 1 in
    if ltb_ℤ (pos 0) left
    then put_task p (record t { counter = left }) ts
    else put_task p (record t { counter = pos 0; need_resched = pos 1 }) ts
