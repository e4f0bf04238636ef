-- ===== src/Kernel/Schedule.antt =====
-- The scheduler of benos/src/sched.c over the class of sched_simple.c, the only one there is.
use risc_v_lab.Base.{
  ℕ, ◌+◌, ◌==◌, ◌||◌, if◌then◌else◌, Bool, true, false, Option, none, some, ◌∷◌, u64,
}
use risc_v_lab.Base.Int.{ℤ, pos, ◌+ℤ◌, ◌-ℤ◌, is_zero}
use risc_v_lab.ListHead.{init_list_head}
use risc_v_lab.Sched.{
  TaskState, running, Tasks, put_task, enqueue_task_simple, dequeue_task_simple,
  pick_next_task_simple, task_tick_simple,
}
use risc_v_lab.Kernel.{
  Layout, Caller, by_schedule, by_preempt_schedule_irq, Kernel, irq_enable, irq_disable, task,
  set_tasks, scheduling_while_atomic, incorrect_preempt_count,
}

-- The calls through `simple_sched_class`. A `next` that was never assigned is undefined in C, and
-- `none` here, as is a lack of fuel; two passes and a third are fuel enough.
unfoldable pub pick_next_task : Layout → ℕ → Kernel → Option (ℕ × Tasks)
pick_next_task l fuel k =
    elim (pick_next_task_simple l.rq_head l.init_task k.sched.nodes 3 fuel k.sched.tasks) [
      | none ↦ none
      | some (next, ts) ↦ elim next [ none ↦ none | some p ↦ some (p, ts) ]
    ]

unfoldable pub dequeue_task : ℕ → Kernel → Kernel
unfolding dequeue_task_simple
dequeue_task p k = record k { sched = dequeue_task_simple p k.sched }

unfoldable pub enqueue_task : Layout → ℕ → Kernel → Kernel
unfolding enqueue_task_simple
enqueue_task l p k = record k { sched = enqueue_task_simple l.rq_head p k.sched }

-- task_tick(rq, current)
unfoldable pub tick_handle_periodic : Kernel → Kernel
unfolding task_tick_simple
tick_handle_periodic k = set_tasks (task_tick_simple k.current k.sched.tasks) k

-- `current->preempt_count` and the increments of sched.h.
abbrev pub preempt_count : Kernel → ℤ
preempt_count k = (task k k.current).preempt_count

unfoldable pub preempt_add : ℤ → Kernel → Kernel
unfolding put_task ◌+ℤ◌
preempt_add v k =
    let t = task k k.current in
    set_tasks (put_task k.current (record t { preempt_count = t.preempt_count +ℤ v }) k.sched.tasks)
      k

unfoldable pub preempt_sub : ℤ → Kernel → Kernel
unfolding put_task ◌-ℤ◌
preempt_sub v k =
    let t = task k k.current in
    set_tasks (put_task k.current (record t { preempt_count = t.preempt_count -ℤ v }) k.sched.tasks)
      k

unfoldable pub preempt_disable : Kernel → Kernel
unfolding preempt_add
preempt_disable k = preempt_add (pos 1) k

unfoldable pub preempt_enable : Kernel → Kernel
unfolding preempt_sub
preempt_enable k = preempt_sub (pos 1) k

-- cpu_switch_to of src/entry.S: saves ra, sp and s0 to s11 in `prev`, loads those of `next`, and
-- sets tp. Its result, `prev`, is the `last` of the task that goes on.
unfoldable pub cpu_switch_to : ℕ → ℕ → Kernel → Kernel
unfolding put_task
cpu_switch_to prev next k =
    let ts = put_task prev (record (task k prev) { cpu_context = k.cpu }) k.sched.tasks in
    record (set_tasks ts k) { cpu = (ts next).cpu_context; current = next }

-- The two tasks differ where this is called, so the result is never NULL.
unfoldable pub switch_to : ℕ → ℕ → Kernel → Kernel
unfolding cpu_switch_to
switch_to prev next k = if prev == next then k else cpu_switch_to prev next k

unfoldable pub schedule_tail : Kernel → Kernel
unfolding irq_enable
schedule_tail k = irq_enable k

unfoldable pub schedule_debug : ℕ → Kernel → Kernel
schedule_debug p k = if is_zero (preempt_count k -ℤ pos 1) then k else record k {
  messages = scheduling_while_atomic (task k p).pid (preempt_count k) ∷ k.messages;
}

unfoldable pub clear_task_resched : ℕ → Kernel → Kernel
unfolding put_task
clear_task_resched p k =
    set_tasks (put_task p (record (task k p) { need_resched = pos 0 }) k.sched.tasks) k

abbrev pub is_running : TaskState → Bool
is_running running = true
is_running _ = false

-- `__schedule` as far as the comparison of `next` and `prev`.
unfoldable pub schedule_pick : Layout → ℕ → Kernel → Option (ℕ × Kernel)
schedule_pick l fuel k =
    let prev = k.current in
    let k1 = irq_disable (schedule_debug prev k) in
    let k2 = if is_running (task k1 prev).state then k1 else dequeue_task prev k1 in
    elim (pick_next_task l fuel k2) [
      | none ↦ none
      | some (next, ts) ↦ some (next, clear_task_resched prev (set_tasks ts k2))
    ]

-- What the task that goes on does after `switch_to` has returned in it.
unfoldable pub schedule_finish : Kernel → Kernel
unfolding schedule_tail
schedule_finish k = schedule_tail (record k {
  sched = record (k.sched) {
    rq = record (k.sched.rq) { nr_switches = u64 (k.sched.rq.nr_switches + 1); curr = k.current };
  };
})

-- `cpu_switch_to` returns to the saved ra of the next task: into its own `__schedule`, or, the
-- first time that a task runs, to the start routines of entry.S, which call `schedule_tail` alone.
unfoldable pub first_run : Layout → Kernel → Bool
first_run l k = k.cpu.ra == l.ret_from_kernel_thread || k.cpu.ra == l.ret_from_fork

-- The stack of the task `prev`, which is switched out, holds the way back to `caller`.
unfoldable pub push_caller : Caller → ℕ → Kernel → Kernel
push_caller caller prev k = record k { callers = λ q. if q == prev then caller else k.callers q }

-- Besides the state, the place to which `__schedule` returns in the task that goes on: the caller of
-- this call, if no other task was found, and else the caller in which that task was switched out, or
-- none if it starts.
unfoldable pub schedule' : Layout → ℕ → Caller → Kernel → Option (Option Caller × Kernel)
unfolding push_caller
schedule' l fuel caller k = elim (schedule_pick l fuel k) [
  | none ↦ none
  | some (next, k1) ↦
      if next == k.current
      then some (some caller, irq_enable k1)
      else (let k2 = switch_to k.current next (push_caller caller k.current k1) in
          if first_run l k2
          then some (none, schedule_tail k2)
          else some (some (k2.callers next), schedule_finish k2))
]

-- What follows the call of `__schedule` in `schedule` and in `preempt_schedule_irq`.
unfoldable pub after_schedule : Option Caller → Kernel → Kernel
after_schedule none k = k
after_schedule (some by_schedule) k = preempt_enable k
after_schedule (some by_preempt_schedule_irq) k = preempt_enable (irq_disable k)

unfoldable pub schedule : Layout → ℕ → Kernel → Option Kernel
schedule l fuel k = elim (schedule' l fuel by_schedule (preempt_disable k)) [
  | none ↦ none
  | some (back, k1) ↦ some (after_schedule back k1)
]

unfoldable pub preempt_schedule_irq : Layout → ℕ → Kernel → Option Kernel
preempt_schedule_irq l fuel k =
    let k1 =
      if is_zero (preempt_count k)
      then k
      else record k { messages = incorrect_preempt_count (preempt_count k) ∷ k.messages } in
    elim (schedule' l fuel by_preempt_schedule_irq (irq_enable (preempt_disable k1))) [
      | none ↦ none
      | some (back, k2) ↦ some (after_schedule back k2)
    ]

unfoldable pub wake_up_process : Layout → ℕ → Kernel → Kernel
unfolding put_task enqueue_task
wake_up_process l p k =
    enqueue_task l p
      (set_tasks (put_task p (record (task k p) { state = running }) k.sched.tasks) k)

unfoldable pub sched_init : Layout → Kernel → Kernel
unfolding init_list_head
sched_init l k = record k {
  sched = record (k.sched) {
    nodes = init_list_head l.rq_head k.sched.nodes;
    rq = record { nr_running = 0; nr_switches = 0; curr = 0 };
  };
}
