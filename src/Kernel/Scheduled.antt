-- ===== src/Kernel/Scheduled.antt =====
-- The proof that `__schedule` of benos/src/sched.c runs the best task of the queue.
use risc_v_lab.Base.{
  ◌∙◌, sym, none, bit_and, not64, ℕ, ◌%◌, ◌/◌, ◌≡◌, ◌≢◌, ap, refl, arith, ◌==◌, bit_or, true, false,
  ◌⊎◌, inl, inr, Option, some, List, All,
}
use mathlib.Core.Path.{subst}
use native.Mathlib.Decide.{ℕ_discrete}
use risc_v_lab.Base.Bits.{bit_and_digit, bit_or_digit}
use risc_v_lab.Base.Int.{pos, ◌-ℤ◌}
use risc_v_lab.Sched.{Tasks, pick_next_task_simple}
use risc_v_lab.Sched.Pick.{IsBest}
use risc_v_lab.Sched.Reset.{Refilled}
use risc_v_lab.Sched.Passes.{Picked}
use risc_v_lab.Sched.Slices.{SameSlices, IsBest-same}
use risc_v_lab.Kernel.{
  sr_sie, Caller, by_schedule, by_preempt_schedule_irq, Layout, Kernel, irq_enable, irq_disable,
  task, set_tasks,
}
use risc_v_lab.Kernel.Schedule.{
  pick_next_task, preempt_count, preempt_disable, preempt_enable, cpu_switch_to, is_running,
  schedule_debug, clear_task_resched, schedule_pick, schedule_finish, schedule_tail, switch_to,
  first_run, schedule', after_schedule, push_caller, preempt_sub,
}
use risc_v_lab.Kernel.Switch.{is_first_run, IsBalanced, back_to, sie_after, Scheduled}

-- The register sstatus behind the call of `__schedule`.
abbrev masked : Caller → ℕ → ℕ
masked by_schedule x = x
masked by_preempt_schedule_irq x = bit_and x (not64 sr_sie)

after_schedule-some :
    (c : Caller) (k : Kernel)
    → after_schedule (some c) k ≡ record (preempt_enable k) { sstatus = masked c k.sstatus }
unfolding after_schedule preempt_enable preempt_sub irq_disable
after_schedule-some by_schedule k = refl
after_schedule-some by_preempt_schedule_irq k = refl

enabled : (x : ℕ) → bit_or x 2 / 2 % 2 ≡ 1
enabled x = omega (arith, bit_or_digit x 2, bit_or_digit (x / 2) 1)

masked-enabled : (c : Caller) (x : ℕ) → masked c (bit_or x 2) / 2 % 2 ≡ sie_after (some c)
masked-enabled by_schedule x = enabled x
masked-enabled by_preempt_schedule_irq x =
    let y = bit_or x 2 in
    omega (arith, bit_and_digit y (not64 sr_sie), bit_and_digit (y / 2) (not64 sr_sie / 2))

-- The fields that new time slices leave alone.
abbrev pub SameRest : Tasks → Tasks → Type 0
SameRest ts us =
    (q : ℕ)
    → ((us q).preempt_count ≡ (ts q).preempt_count) × ((us q).cpu_context ≡ (ts q).cpu_context)

pub Picked-SameRest :
    {ts : Tasks} {xs ys : List ℕ} {r : Option (Option ℕ × Tasks)} (pick : Picked ts xs ys r)
    → SameRest ts pick.ts'
Picked-SameRest {ts} {xs} {ys} pick q = by_cases pick.tasks
  where
    by_cases :
        (pick.ts' ≡ ts) ⊎ (All (λ p. (ts p).counter ≡ pos 0) xs × Refilled ys ts pick.ts')
        → ((pick.ts' q).preempt_count ≡ (ts q).preempt_count)
          × ((pick.ts' q).cpu_context ≡ (ts q).cpu_context)
    by_cases (inl e) =
        (ap (λ (t : Tasks). (t q).preempt_count) e, ap (λ (t : Tasks). (t q).cpu_context) e)
    by_cases (inr (_, all)) = (ground (arith, all q), ground (arith, all q))

-- `__schedule` up to the switch, called with preemption disabled once.
abbrev pub picked_state : ℕ → Kernel → Tasks → Kernel
picked_state prev k ts = clear_task_resched prev (set_tasks ts (irq_disable k))

pub schedule_pick-some :
    (l : Layout) (fuel : ℕ) (k : Kernel) {xs ys : List ℕ}
    (pick : Picked k.sched.tasks xs ys
      (pick_next_task_simple l.rq_head l.init_task k.sched.nodes 3 fuel k.sched.tasks))
    → preempt_count k ≡ pos 1
    → is_running (task k k.current).state ≡ true
    → schedule_pick l fuel k ≡ some (pick.p, picked_state k.current k pick.ts')
unfolding ◌-ℤ◌ schedule_pick
schedule_pick-some l fuel k pick once runs =
    let quiet : schedule_debug k.current k ≡ k = unfold schedule_debug in rw once in
    let next : pick_next_task l fuel (irq_disable k) ≡ some (pick.p, pick.ts') =
      unfold pick_next_task irq_disable in rw (pick.returns, pick_next_task) in
    let running_still : is_running (task (irq_disable k) k.current).state ≡ true =
      unfold irq_disable in runs in
    simp (quiet, running_still, next, schedule_pick)

-- The three ways in which `__schedule` goes on, once the next task `p` has been found.
module _ (l : Layout) (fuel : ℕ) (caller : Caller) (k : Kernel) (p : ℕ) (chosen : Kernel)
    (found : schedule_pick l fuel k ≡ some (p, chosen)) where
  abbrev pub switched : Kernel
  switched = cpu_switch_to k.current p (push_caller caller k.current chosen)

  switch-other :
      p ≢ k.current → switch_to k.current p (push_caller caller k.current chosen) ≡ switched
  switch-other other =
      let test : (k.current == p) ≡ false = ground arith in unfold switch_to in rw test

  pub schedule'-same :
      p ≡ k.current → schedule' l fuel caller k ≡ some (some caller, irq_enable chosen)
  schedule'-same same =
      let test : (p == k.current) ≡ true = ground arith in
      unfold schedule' in simp (found, test, schedule')

  pub schedule'-first :
      p ≢ k.current
      → first_run l switched ≡ true
      → schedule' l fuel caller k ≡ some (none, schedule_tail switched)
  schedule'-first other first =
      let test : (p == k.current) ≡ false = ground arith in
      unfold schedule' in simp (found, test, switch-other other, first, schedule')

  pub schedule'-back :
      p ≢ k.current
      → first_run l switched ≡ false
      → schedule' l fuel caller k ≡ some (some (switched.callers p), schedule_finish switched)
  schedule'-back other back =
      let test : (p == k.current) ≡ false = ground arith in
      unfold schedule' in simp (found, test, switch-other other, back, schedule')

-- The state in which `__schedule` is called: preemption is disabled, and sstatus is `v`.
abbrev pub entered : ℕ → Kernel → Kernel
entered v k = record (preempt_disable k) { sstatus = v }

-- The three final states, from a balanced state `k` and the new time slices `ts`.
module _ (IsTask : ℕ → Type 0) (l : Layout) (v : ℕ) (caller : Caller) (k : Kernel) (xs : List ℕ)
    (ts : Tasks) (p : ℕ) (balanced : IsBalanced IsTask l k) (known : IsTask p)
    (behind : is_first_run l k.cpu ≡ false) (best : IsBest ts xs p)
    (rest : SameRest (preempt_disable k).sched.tasks ts) where
  abbrev pub before_switch : Kernel
  before_switch = picked_state k.current (entered v k) ts

  abbrev pub after_switch : Kernel
  after_switch = cpu_switch_to k.current p (push_caller caller k.current before_switch)

  slices_same : SameSlices ts (preempt_enable (irq_enable before_switch)).sched.tasks
  unfolding preempt_disable preempt_enable irq_enable irq_disable clear_task_resched
  slices_same q = ground arith

  slices_first : SameSlices ts (schedule_tail after_switch).sched.tasks
  unfolding preempt_disable schedule_tail irq_disable clear_task_resched cpu_switch_to push_caller
  slices_first q = ground arith

  slices_back : SameSlices ts (preempt_enable (schedule_finish after_switch)).sched.tasks
  unfolding preempt_disable preempt_enable schedule_finish irq_disable clear_task_resched
      cpu_switch_to push_caller
  slices_back q = ground arith

  same-sie : sie_after (some caller) ≡ sie_after (back_to l caller k k.current)
  same-sie = ground arith

  first-sie :
      p ≢ k.current
      → is_first_run l (task k p).cpu_context ≡ true
      → 1 ≡ sie_after (back_to l caller k p)
  first-sie other first =
      let test : (p == k.current) ≡ false = ground arith in rw (test, first) refl

  back-sie :
      p ≢ k.current
      → is_first_run l (task k p).cpu_context ≡ false
      → sie_after (some (k.callers p)) ≡ sie_after (back_to l caller k p)
  back-sie other back = let test : (p == k.current) ≡ false = ground arith in rw (test, back) refl

  pub Scheduled-same :
      p ≡ k.current
      → Scheduled IsTask l caller k xs (after_schedule (some caller) (irq_enable before_switch))
  unfolding preempt_disable preempt_enable irq_enable irq_disable clear_task_resched
  Scheduled-same same =
      subst (Scheduled IsTask l caller k xs)
        (sym (after_schedule-some caller (irq_enable before_switch)))
        record {
          best = subst (IsBest _ xs) same (IsBest-same ts _ slices_same best);
          queue = refl;
          counted = refl;
          resched = ground arith;
          way_back = λ ne. absurd (ne refl);
          other_ways = λ q ne. refl;
          interrupts = masked-enabled caller _ ∙ same-sie;
          balanced = record {
            runs = ground (arith, rest k.current, balanced.runs);
            rest = λ q known_q ne. ground (arith, rest q, balanced.rest q known_q ne);
          };
          quiet = refl;
        }

  pub Scheduled-first :
      p ≢ k.current
      → first_run l after_switch ≡ true
      → Scheduled IsTask l caller k xs (after_schedule none (schedule_tail after_switch))
  unfolding preempt_disable schedule_tail irq_disable clear_task_resched cpu_switch_to push_caller
      first_run after_schedule
  Scheduled-first other first = record {
    best = IsBest-same ts _ slices_first best;
    queue = refl;
    counted = refl;
    resched = ground arith;
    way_back = λ ne. ground arith;
    other_ways = λ q ne. ground arith;
    interrupts = enabled _ ∙ first-sie other (ground (arith, rest p));
    balanced = record {
      runs = ground (arith, rest p, balanced.rest p known other);
      rest = λ q known_q ne. elim (ℕ_discrete q k.current) [
        | yes e ↦ ground (arith, rest q, balanced.runs, behind, e)
        | no ne' ↦ ground (arith, rest q, balanced.rest q known_q ne')
      ];
    };
    quiet = refl;
  }

  pub Scheduled-back :
      p ≢ k.current
      → first_run l after_switch ≡ false
      → Scheduled IsTask l caller k xs
          (after_schedule (some (after_switch.callers p)) (schedule_finish after_switch))
  unfolding preempt_disable preempt_enable schedule_finish irq_disable clear_task_resched
      cpu_switch_to push_caller first_run
  Scheduled-back other back =
      let way : after_switch.callers p ≡ k.callers p = ground arith in
      subst (Scheduled IsTask l caller k xs)
        (sym (after_schedule-some (after_switch.callers p) (schedule_finish after_switch)))
        record {
          best = IsBest-same ts _ slices_back best;
          queue = refl;
          counted = refl;
          resched = ground arith;
          way_back = λ ne. ground arith;
          other_ways = λ q ne. ground arith;
          interrupts =
              masked-enabled (after_switch.callers p) _
              ∙ ap (λ c. sie_after (some c)) way
              ∙ back-sie other (ground (arith, rest p));
          balanced = record {
            runs = ground (arith, rest p, balanced.rest p known other);
            rest = λ q known_q ne. elim (ℕ_discrete q k.current) [
              | yes e ↦ ground (arith, rest q, balanced.runs, behind, e)
              | no ne' ↦ ground (arith, rest q, balanced.rest q known_q ne')
            ];
          };
          quiet = refl;
        }
