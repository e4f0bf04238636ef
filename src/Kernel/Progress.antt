-- ===== src/Kernel/Progress.antt =====
-- `schedule` and `preempt_schedule_irq` of benos/src/sched.c always get on, with the best task.
use risc_v_lab.Base.{
  ℕ, ◌<◌, ◌≡◌, ◌∙◌, ap, arith, true, false, bit_or, Bool-cases, inl, inr, Option, some, List, All,
  length,
}
use native.Mathlib.Decide.{ℕ_discrete}
use risc_v_lab.Base.Int.{pos}
use risc_v_lab.Sched.{pick_next_task_simple}
use risc_v_lab.Sched.Ready.{IsReady, All-mem}
use risc_v_lab.Sched.Passes.{Picked, pick_next_task_simple-Picked}
use risc_v_lab.Sched.Slices.{SameSlices, IsReady-same}
use risc_v_lab.Kernel.{
  sr_sie, Layout, Caller, by_schedule, by_preempt_schedule_irq, Kernel, irq_enable, task,
}
use risc_v_lab.Kernel.Schedule.{
  preempt_count, preempt_disable, preempt_add, push_caller, cpu_switch_to, is_running,
  schedule_pick, first_run, schedule', after_schedule, schedule, preempt_schedule_irq,
}
use risc_v_lab.Kernel.Switch.{is_first_run, IsBalanced, Scheduled}
use risc_v_lab.Kernel.Scheduled.{
  picked_state, schedule_pick-some, Picked-SameRest, entered, schedule'-same, schedule'-first,
  schedule'-back, Scheduled-same, Scheduled-first, Scheduled-back,
}

disabled_slices : (k : Kernel) → SameSlices k.sched.tasks (preempt_disable k).sched.tasks
unfolding preempt_disable
disabled_slices k q = ground arith

disabled_once : (k : Kernel) → preempt_count k ≡ pos 0 → preempt_count (preempt_disable k) ≡ pos 1
unfolding preempt_disable
disabled_once k h = ground arith

disabled_state :
    (k : Kernel)
    → (task (preempt_disable k) (preempt_disable k).current).state ≡ (task k k.current).state
unfolding preempt_disable
disabled_state k = ground arith

disabled-IsReady :
    (l : Layout) (k : Kernel) (xs ys : List ℕ)
    → IsReady l.rq_head l.init_task k.sched.nodes k.sched.tasks xs ys
    → IsReady l.rq_head l.init_task
        (preempt_disable k).sched.nodes
        (preempt_disable k).sched.tasks
        xs
        ys
unfolding preempt_disable
disabled-IsReady l k xs ys r =
    IsReady-same k.sched.tasks (preempt_disable k).sched.tasks (disabled_slices k) r

-- The call of `__schedule` by `caller`, with sstatus `v`, returns in some task, or starts one, with
-- the best task.
module _ (IsTask : ℕ → Type 0) (l : Layout) (fuel v : ℕ) (caller : Caller) (k : Kernel)
    (xs ys : List ℕ) (ready : IsReady l.rq_head l.init_task k.sched.nodes k.sched.tasks xs ys)
    (balanced : IsBalanced IsTask l k) (known : All IsTask xs)
    (runs : is_running (task k k.current).state ≡ true) (behind : is_first_run l k.cpu ≡ false)
    (enough : length xs < fuel) (enough' : length ys < fuel) where
  pick : Picked (preempt_disable k).sched.tasks xs ys (
      pick_next_task_simple l.rq_head l.init_task
        (preempt_disable k).sched.nodes
        3
        fuel
        (preempt_disable k).sched.tasks)
  pick =
      pick_next_task_simple-Picked l.rq_head l.init_task (preempt_disable k).sched.nodes fuel 1
        (preempt_disable k).sched.tasks xs ys (disabled-IsReady l k xs ys ready) enough enough'

  found_next :
      schedule_pick l fuel (entered v k)
      ≡ some (pick.p, picked_state k.current (entered v k) pick.ts')
  unfolding preempt_disable preempt_add
  found_next =
      schedule_pick-some l fuel (entered v k) pick (disabled_once k balanced.runs)
        (ap is_running (disabled_state k) ∙ runs)

  pub schedule'-Scheduled :
      (back : Option Caller) × (k1 : Kernel) × (schedule' l fuel caller (entered v k)
        ≡ some (back, k1))
      × Scheduled IsTask l caller k xs (after_schedule back k1)
  unfolding preempt_disable preempt_add
  schedule'-Scheduled =
      let chosen = picked_state k.current (entered v k) pick.ts' in
      let rest = Picked-SameRest pick in
      let known_next =
        All-mem IsTask xs pick.best.before pick.p pick.best.after pick.best.split known in
      elim (ℕ_discrete pick.p k.current) [
        | yes same ↦ (
          _,
          _,
          schedule'-same l fuel caller (entered v k) pick.p chosen found_next same,
          Scheduled-same IsTask l v caller k xs pick.ts' pick.p balanced known_next behind pick.best
              rest same,
        )
        | no other ↦
            elim (Bool-cases (
              first_run l (cpu_switch_to k.current pick.p (push_caller caller k.current chosen)))) [
                | inl first ↦ (
                  _,
                  _,
                  schedule'-first l fuel caller (entered v k) pick.p chosen found_next other first,
                  Scheduled-first IsTask l v caller k xs pick.ts' pick.p balanced known_next behind
                      pick.best rest other first,
                )
                | inr back ↦ (
                  _,
                  _,
                  schedule'-back l fuel caller (entered v k) pick.p chosen found_next other back,
                  Scheduled-back IsTask l v caller k xs pick.ts' pick.p balanced known_next behind
                      pick.best rest other back,
                )
              ]
      ]

schedule-from :
    (l : Layout) (fuel : ℕ) (k k1 : Kernel) (back : Option Caller)
    → schedule' l fuel by_schedule (entered k.sstatus k) ≡ some (back, k1)
    → schedule l fuel k ≡ some (after_schedule back k1)
unfolding schedule preempt_disable preempt_add
schedule-from l fuel k k1 back e = rw (schedule, e)

preempt_schedule_irq-from :
    (l : Layout) (fuel : ℕ) (k k1 : Kernel) (back : Option Caller)
    → preempt_count k ≡ pos 0
    → schedule' l fuel by_preempt_schedule_irq (entered (bit_or k.sstatus sr_sie) k)
      ≡ some (back, k1)
    → preempt_schedule_irq l fuel k ≡ some (after_schedule back k1)
unfolding preempt_schedule_irq preempt_disable preempt_add irq_enable
preempt_schedule_irq-from l fuel k k1 back zero e = rw (preempt_schedule_irq, zero, e)

-- `schedule`, and `preempt_schedule_irq`, called by a running task, over a ready run queue, in a
-- state that is balanced for the tasks of a set which holds those of the queue (preemption of the
-- running task is enabled; every task of the set that was switched out has count 1 and every one
-- that has not run yet has count 0), get to the end of the call that
-- the task that goes on was switched out in, or to the start of that task: this task is the first of
-- the queue with the largest time slice, the queue is unchanged, the caller's `need_resched` is
-- clear and its way back is kept, interrupts are off if the call that ends is
-- `preempt_schedule_irq` and on otherwise, no `BUG` is reported, and the state is balanced again.
pub schedule-Scheduled :
    (IsTask : ℕ → Type 0) (l : Layout) (fuel : ℕ) (k : Kernel) (xs ys : List ℕ)
    → IsReady l.rq_head l.init_task k.sched.nodes k.sched.tasks xs ys
    → IsBalanced IsTask l k
    → All IsTask xs
    → is_running (task k k.current).state ≡ true
    → is_first_run l k.cpu ≡ false
    → length xs < fuel
    → length ys < fuel
    → ((k' : Kernel) × (schedule l fuel k ≡ some k') × Scheduled IsTask l by_schedule k xs k')
      × ((k' : Kernel) × (preempt_schedule_irq l fuel k ≡ some k')
          × Scheduled IsTask l by_preempt_schedule_irq k xs k')
schedule-Scheduled IsTask l fuel k xs ys ready balanced known runs behind enough enough' =
    let (back, k1, e, good) =
      schedule'-Scheduled IsTask l fuel k.sstatus by_schedule k xs ys ready balanced known runs
        behind enough enough' in
    let (back', k1', e', good') =
      schedule'-Scheduled IsTask l fuel (bit_or k.sstatus sr_sie) by_preempt_schedule_irq k xs ys
        ready balanced known runs behind enough enough' in
    (
      (after_schedule back k1, schedule-from l fuel k k1 back e, good),
      (
        after_schedule back' k1',
        preempt_schedule_irq-from l fuel k k1' back' balanced.runs e',
        good',
      ),
    )
