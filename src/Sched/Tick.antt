-- ===== src/Sched/Tick.antt =====
-- `task_tick_simple` of benos/src/sched_simple.c.
use risc_v_lab.Base.{ℕ, zero, suc, ◌-◌, ◌∙◌, ap, ◌≤◌, ◌≡◌, ◌≢◌, refl, arith}
use risc_v_lab.Base.Int.{pos, ◌≤ℤ◌}
use risc_v_lab.Sched.{TaskStruct, Tasks, task_tick_simple}

-- The ticks of a time slice.
unfoldable pub ticks : ℕ → ℕ → Tasks → Tasks
ticks zero p ts = ts
ticks (suc n) p ts = ticks n p (task_tick_simple p ts)

tick_short :
    (p : ℕ) (ts : Tasks)
    → (ts p).counter ≤ℤ pos 1
    → task_tick_simple p ts p ≡ record (ts p) { counter = pos 0; need_resched = pos 1 }
unfolding task_tick_simple
tick_short p ts h = ground arith

tick_long :
    (p n : ℕ) (ts : Tasks)
    → (ts p).counter ≡ pos (suc (suc n))
    → task_tick_simple p ts p ≡ record (ts p) { counter = pos (suc n) }
unfolding task_tick_simple
tick_long p n ts h = ground arith

tick_other : (p q : ℕ) (ts : Tasks) → q ≢ p → task_tick_simple p ts q ≡ ts q
unfolding task_tick_simple
tick_other p q ts ne = ground arith

ticks_others : (k p q : ℕ) (ts : Tasks) → q ≢ p → ticks k p ts q ≡ ts q
unfolding ticks
ticks_others zero p q ts ne = refl
ticks_others (suc k) p q ts ne =
    ticks_others k p q (task_tick_simple p ts) ne ∙ tick_other p q ts ne

ticks_long :
    (k n p : ℕ) (ts : Tasks)
    → (ts p).counter ≡ pos (suc n)
    → k ≤ n
    → ticks k p ts p ≡ record (ts p) { counter = pos (suc n - k) }
unfolding ticks
ticks_long zero n p ts slice le = ground arith
ticks_long (suc k) zero p ts slice le = absurd (omega arith)
ticks_long (suc k) (suc n) p ts slice le =
    let one = tick_long p n ts slice in
    ticks_long k n p (task_tick_simple p ts) (ap (λ (t : TaskStruct). t.counter) one) (omega arith)
    ∙ ap (λ (t : TaskStruct). record t { counter = pos (suc n - k) }) one
    ∙ ap (λ c. record (ts p) { counter = pos c }) (omega arith)

ticks_end :
    (n p : ℕ) (ts : Tasks)
    → (ts p).counter ≡ pos (suc n)
    → ticks (suc n) p ts p ≡ record (ts p) { counter = pos 0; need_resched = pos 1 }
unfolding ticks
ticks_end zero p ts slice = tick_short p ts (ground arith)
ticks_end (suc n) p ts slice =
    let one : task_tick_simple p ts p ≡ record (ts p) { counter = pos (suc n) } =
      tick_long p n ts slice in
    ticks_end n p (task_tick_simple p ts) (ap (λ (t : TaskStruct). t.counter) one)
    ∙ ap (λ (t : TaskStruct). record t { counter = pos 0; need_resched = pos 1 }) one

-- A task with the time slice `n + 1` is told to give up the CPU by tick `n + 1` and by none before:
-- after `k` of the first `n` ticks its counter is `n + 1 - k` and nothing else of it has changed;
-- after tick `n + 1` its counter is 0 and `need_resched` is 1. No tick touches another task.
pub ticks_lem :
    (n k p : ℕ) (ts : Tasks)
    → (ts p).counter ≡ pos (suc n)
    → k ≤ n
    → (ticks k p ts p ≡ record (ts p) { counter = pos (suc n - k) })
      × (ticks (suc n) p ts p ≡ record (ts p) { counter = pos 0; need_resched = pos 1 })
      × ((q : ℕ) → q ≢ p → ticks (suc n) p ts q ≡ ts q)
ticks_lem n k p ts slice le =
    (ticks_long k n p ts slice le, ticks_end n p ts slice, λ q ne. ticks_others (suc n) p q ts ne)
