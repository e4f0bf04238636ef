-- ===== src/Vs/Timer.antt =====
-- From one timer interrupt of a guest to the next (benos/virt/vs_timer.c, benos/src/trap.c).
use risc_v_lab.Base.{
  ℕ, ◌+◌, ◌^◌, ◌%◌, ◌<◌, ◌≤◌, true, false, u64, some, List, ◌∷◌, All, ◌≡◌, ◌∙◌, ap, sym,
}
use mathlib.Core.Path.{subst}
use risc_v_lab.Kernel.{PtRegs, Layout}
use risc_v_lab.Kernel.Timer.{vcpu_current_cycles}
use risc_v_lab.Mmu.Guest.{GuestLayout}
use risc_v_lab.Trap.{Machine, Readings, do_exception}
use risc_v_lab.Trap as Trap
use risc_v_lab.Trap.GuestTimer.{
  timer_cause, TimerRun, IsVcpu, hvip_clear, hvip_set, do_exception-guest_timer,
}
use risc_v_lab.Vs.{Guest, returns, vs_reset_timer, vs_handle_timer_irq, do_vs_exception}

-- The frame of a call of the host: its number is in a7 and its argument in a0.
pub record IsCall (regs : PtRegs) (call : ℕ × ℕ) : Type 0 where
  pub id : regs.a7 ≡ call.0
  pub argument : regs.a0 ≡ call.1

-- The time that the guest asks for at the reading `c`: 20 milliseconds later.
abbrev pub next_time : ℕ → ℕ
next_time c = u64 (c + 200000)

timer-calls :
    (c : ℕ) (v v' : Guest) (call : ℕ × ℕ)
    → do_vs_exception c timer_cause v ≡ returns v'
    → v'.calls ≡ call ∷ v.calls
    → (v'.vs_jiffies ≡ u64 (v.vs_jiffies + 1)) × (call.0 ≡ 0) × (call.1 ≡ next_time c)
unfolding do_vs_exception vs_handle_timer_irq vs_reset_timer
timer-calls c v v' call e calls =
    let same : vs_handle_timer_irq c v ≡ v' = cc in
    let listed : (0, next_time c) ∷ v.calls ≡ call ∷ v.calls =
      ap (λ (x : Guest). x.calls) same ∙ calls in
    let head : (0, next_time c) ≡ call = cc in
    (
      ap (λ (x : Guest). x.vs_jiffies) (sym same),
      ap (λ (x : ℕ × ℕ). x.0) (sym head),
      ap (λ (x : ℕ × ℕ). x.1) (sym head),
    )

-- A guest takes a timer interrupt at the reading `c` of its clock and asks the host for the next one;
-- the host takes the call, and its own timer interrupts follow: in those of `rs` the guest's clock is
-- before the time 20 milliseconds after `c`, in that of `r` it is not, and then come those of `ss`.
-- The guest has counted one tick. After the interrupts of `rs`, in the state `m2`, the bit of the
-- virtual timer in hvip is clear and the timer is on; right after that of `r`, in the state `m3`, the
-- bit is set and the timer is off, and so they are after those of `ss`.
pub do_vs_exception-next :
    (l : Layout) (g : GuestLayout) (regs c : ℕ) (v v' : Guest) (call : ℕ × ℕ) (r0 r : Readings)
    (rs ss : List Readings) (m m1 m2 m3 m4 : Machine)
    → do_vs_exception c timer_cause v ≡ returns v'
    → v'.calls ≡ call ∷ v.calls
    → IsCall (m.kernel.regs regs) call
    → do_exception l g r0 regs 10 m ≡ some (Trap.returns m1)
    → TimerRun l g regs rs m1 m2
    → do_exception l g r regs timer_cause m2 ≡ some (Trap.returns m3)
    → TimerRun l g regs ss m3 m4
    → All (λ (x : Readings). vcpu_current_cycles x.cycles m.timer < next_time c) rs
    → next_time c ≤ vcpu_current_cycles r.cycles m.timer
    → (v'.vs_jiffies ≡ u64 (v.vs_jiffies + 1))
      × IsVcpu (hvip_clear m.timer.hvip) (next_time c) true m2.timer
      × IsVcpu (hvip_set m.timer.hvip) (next_time c) false m3.timer
      × IsVcpu (hvip_set m.timer.hvip) (next_time c) false m4.timer
do_vs_exception-next l g regs c v v' call r0 r rs ss m m1 m2 m3 m4 irq calls frame called before now
      after early due =
    let t = timer-calls c v v' call irq calls in
    let time : (m.kernel.regs regs).a0 ≡ next_time c = frame.argument ∙ t.2 in
    let (first, second, third) =
      do_exception-guest_timer l g regs r0 r rs ss m m1 m2 m3 m4
        (ap (λ (n : ℕ). n % 2 ^ 32) (frame.id ∙ t.1)) called before now after (rw time early)
        (rw time due) in
    (
      t.0,
      subst (λ n. IsVcpu (hvip_clear m.timer.hvip) n true m2.timer) time first,
      subst (λ n. IsVcpu (hvip_set m.timer.hvip) n false m3.timer) time second,
      subst (λ n. IsVcpu (hvip_set m.timer.hvip) n false m4.timer) time third,
    )
