-- ===== src/Sched/Passes.antt =====
-- The passes of `pick_next_task_simple` of benos/src/sched_simple.c.
use risc_v_lab.Base.{
  ℕ, suc, ◌<◌, ◌≡◌, ◌∙◌, ap, refl, arith, false, ◌⊎◌, inl, inr, Option, none, some, List, length,
  All,
}
use risc_v_lab.Base.Int.{pos, negsuc, is_zero}
use risc_v_lab.ListHead.{Nodes}
use risc_v_lab.Sched.{Tasks, reset_score, pick_loop, pick_next_task_simple}
use risc_v_lab.Sched.Pick.{◌<ℤ◌, IsBest, pick_loop-Scanned}
use risc_v_lab.Sched.Reset.{Refilled, reset_score-Refilled}
use risc_v_lab.Sched.Ready.{
  IsReady, ℤ-cases, found_of_Scanned, All-mem, zero_of_best, Refilled-IsReady,
}

-- The outcome of `pick_next_task_simple`: the best task `p` of the queue for the tasks `ts'`, which
-- are `ts`, or `ts` with new time slices where all counters of the queue were 0.
pub record Picked (ts : Tasks) (xs ys : List ℕ) (result : Option (Option ℕ × Tasks)) : Type 0 where
  pub p : ℕ
  pub ts' : Tasks
  pub returns : result ≡ some (some p, ts')
  pub best : IsBest ts' xs p
  pub positive : pos 0 <ℤ (ts' p).counter
  pub tasks : (ts' ≡ ts) ⊎ (All (λ q. (ts q).counter ≡ pos 0) xs × Refilled ys ts ts')

module _ (rq_head init_task : ℕ) (m : Nodes) (fuel : ℕ) where
  one_pass :
      (ts : Tasks) (xs ys : List ℕ)
      → IsReady rq_head init_task m ts xs ys
      → length xs < fuel
      → (p : ℕ) × (pick_loop rq_head m ts fuel (m rq_head).next (negsuc 999) none
          ≡ some ((ts p).counter, some p))
        × IsBest ts xs p
  one_pass ts xs ys ready enough =
      let (r, runs, s) =
        pick_loop-Scanned rq_head m ts fuel xs (negsuc 999) none ready.queue ready.addresses
          enough in
      let (p, e, best) = found_of_Scanned ready.some_task ready.counters s in
      (p, runs ∙ ap some e, best)

  pick_now :
      (ts : Tasks) (passes p : ℕ)
      → pick_loop rq_head m ts fuel (m rq_head).next (negsuc 999) none
        ≡ some ((ts p).counter, some p)
      → pos 0 <ℤ (ts p).counter
      → pick_next_task_simple rq_head init_task m (suc passes) fuel ts ≡ some (some p, ts)
  unfolding pick_next_task_simple
  pick_now ts passes p runs lt =
      let more : is_zero (ts p).counter ≡ false = ground arith in
      rw (runs, more, pick_next_task_simple)

  pick_again :
      (ts ts' : Tasks) (passes p : ℕ)
      → pick_loop rq_head m ts fuel (m rq_head).next (negsuc 999) none
        ≡ some ((ts p).counter, some p)
      → (ts p).counter ≡ pos 0
      → reset_score init_task fuel ts ≡ some ts'
      → pick_next_task_simple rq_head init_task m (suc passes) fuel ts
        ≡ pick_next_task_simple rq_head init_task m passes fuel ts'
  unfolding pick_next_task_simple
  pick_again ts ts' passes p runs z reset = rw (runs, z, reset, pick_next_task_simple)

first_pass_ends :
    (rq_head init_task : ℕ) (m : Nodes) (fuel passes : ℕ) (ts : Tasks) (xs ys : List ℕ)
    → IsReady rq_head init_task m ts xs ys
    → length xs < fuel
    → All (λ q. pos 0 <ℤ (ts q).counter) xs
    → (p : ℕ) × (pick_next_task_simple rq_head init_task m (suc passes) fuel ts ≡ some (some p, ts))
      × IsBest ts xs p
      × (pos 0 <ℤ (ts p).counter)
first_pass_ends rq_head init_task m fuel passes ts xs ys r enough positive =
    let (p, runs, best) = one_pass rq_head init_task m fuel ts xs ys r enough in
    let lt = All-mem _ xs best.before p best.after best.split positive in
    (p, pick_now rq_head init_task m fuel ts passes p runs lt, best, lt)

-- `pick_next_task_simple` always returns a task. Over a ready queue (well linked, not empty, its
-- tasks in the task list, no counter and no priority negative), with fuel for the two lists, two
-- passes are enough; the task that is returned is the first of the queue with the largest counter,
-- which is positive; and either no task was changed, or all counters of the queue were 0 and every
-- task but `init_task` got the time slice 10 + priority.
pub pick_next_task_simple-Picked :
    (rq_head init_task : ℕ) (m : Nodes) (fuel passes : ℕ) (ts : Tasks) (xs ys : List ℕ)
    → IsReady rq_head init_task m ts xs ys
    → length xs < fuel
    → length ys < fuel
    → Picked ts xs ys (pick_next_task_simple rq_head init_task m (suc (suc passes)) fuel ts)
pick_next_task_simple-Picked rq_head init_task m fuel passes ts xs ys r enough enough' =
    let (p, runs, best) = one_pass rq_head init_task m fuel ts xs ys r enough in
    elim (ℤ-cases (ts p).counter (All-mem _ xs best.before p best.after best.split r.counters)) [
      | inl z ↦
          let (ts', reset, all) = reset_score-Refilled init_task fuel ys ts r.tasks enough' in
          let (ready, positive) = Refilled-IsReady ts' r all in
          let (p', runs', best', lt') =
            first_pass_ends rq_head init_task m fuel passes ts' xs ys ready enough positive in
          record {
            p = p';
            ts' = ts';
            returns =
                pick_again rq_head init_task m fuel ts ts' (suc passes) p runs z reset ∙ runs';
            best = best';
            positive = lt';
            tasks = inr (zero_of_best best z r.counters, all);
          }
      | inr lt ↦ record {
        p = p;
        ts' = ts;
        returns = pick_now rq_head init_task m fuel ts (suc passes) p runs lt;
        best = best;
        positive = lt;
        tasks = inl refl;
      }
    ]
