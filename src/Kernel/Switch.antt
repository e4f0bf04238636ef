-- ===== src/Kernel/Switch.antt =====
-- `schedule` and `preempt_schedule_irq` of benos/src/sched.c: what they leave behind, and the protocol of `preempt_count`.
use risc_v_lab.Base.{
  ℕ, ◌%◌, ◌/◌, ◌≡◌, ◌≢◌, arith, ◌==◌, ◌||◌, if◌then◌else◌, Bool, Option, none, some, List,
}
use risc_v_lab.Base.Int.{ℤ, pos}
use risc_v_lab.Sched.{CpuContext, TaskStruct}
use risc_v_lab.Sched.Pick.{IsBest}
use risc_v_lab.Kernel.{Layout, Caller, by_schedule, by_preempt_schedule_irq, Kernel, task}
use risc_v_lab.Kernel.Schedule.{preempt_count, cpu_switch_to}

-- `cpu_switch_to` saves and restores whole contexts: switching from `a` to another task `b` and
-- later back, both times from the CPU that the first switch found and left, gives the CPU its
-- registers back, makes `a` current again, and leaves in `b` the context that `b` had.
pub cpu_switch_to-back :
    (a b : ℕ) (k : Kernel)
    → a ≢ b
    → ((cpu_switch_to b a (cpu_switch_to a b k)).cpu ≡ k.cpu)
      × ((cpu_switch_to b a (cpu_switch_to a b k)).current ≡ a)
      × ((task (cpu_switch_to b a (cpu_switch_to a b k)) b).cpu_context ≡ (task k b).cpu_context)
unfolding cpu_switch_to
cpu_switch_to-back a b k ne = ground arith

-- The code that runs stands behind `__schedule` if the start routines of entry.S are not in ra.
abbrev pub is_first_run : Layout → CpuContext → Bool
is_first_run l c = c.ra == l.ret_from_kernel_thread || c.ra == l.ret_from_fork

-- The count that a task has while it does not run: 1 if it was switched out, since both callers
-- of `__schedule` have disabled preemption, and 0 if it has never run.
abbrev pub resting_count : Layout → TaskStruct → ℤ
resting_count l t = if is_first_run l t.cpu_context then pos 0 else pos 1

-- The running task can be preempted, and every other task has its resting count. `IsTask` says which
-- addresses are those of tasks.
pub record IsBalanced (IsTask : ℕ → Type 0) (l : Layout) (k : Kernel) : Type 0 where
  pub runs : preempt_count k ≡ pos 0
  pub rest :
      (q : ℕ) → IsTask q → q ≢ k.current → (task k q).preempt_count ≡ resting_count l (task k q)

-- Where the task `p` goes on behind `__schedule`, if `caller` calls it in the state `k`: in the
-- caller, if it is the task that runs, nowhere, if it starts, and else where it was switched out.
abbrev pub back_to : Layout → Caller → Kernel → ℕ → Option Caller
back_to l caller k p =
    if p == k.current
    then some caller
    else if is_first_run l (task k p).cpu_context
    then none
    else some (k.callers p)

-- `preempt_schedule_irq` returns with interrupts off, `schedule` and the start routines with
-- interrupts on.
abbrev pub sie_after : Option Caller → ℕ
sie_after none = 1
sie_after (some by_schedule) = 1
sie_after (some by_preempt_schedule_irq) = 0

-- What a call of `caller` in the state `k`, with the run queue `xs`, leaves behind when the task
-- that goes on has returned from it, or starts.
pub record Scheduled (IsTask : ℕ → Type 0) (l : Layout) (caller : Caller) (k : Kernel) (xs : List ℕ)
    (k' : Kernel) : Type 0 where
  -- The best task of the queue runs, and the queue is as before.
  pub best : IsBest k'.sched.tasks xs k'.current
  pub queue : k'.sched.nodes ≡ k.sched.nodes
  pub counted : k'.sched.rq.nr_running ≡ k.sched.rq.nr_running
  -- The task that called need not give up the CPU any more, and its way back is kept.
  pub resched : (task k' k.current).need_resched ≡ pos 0
  pub way_back : k'.current ≢ k.current → k'.callers k.current ≡ caller
  pub other_ways : (q : ℕ) → q ≢ k.current → k'.callers q ≡ k.callers q
  -- Interrupts are as the task that goes on wants them.
  pub interrupts : k'.sstatus / 2 % 2 ≡ sie_after (back_to l caller k k'.current)
  -- Preemption is as balanced as before, and no `BUG` was reported.
  pub balanced : IsBalanced IsTask l k'
  pub quiet : k'.messages ≡ k.messages
