-- ===== src/Trap/GuestTimer.antt =====
-- The timer of a guest through the traps of the host: the call that sets it, and the host's timer
-- interrupts that check it (benos/src/trap.c, benos/src/timer.c).
use risc_v_lab.Base.{
  ℕ, ◌+◌, ◌^◌, ◌%◌, ◌<◌, ◌≤◌, Bool, true, false, bit_and, bit_or, not64, some, List, [], ◌∷◌, map,
  All, ◌≡◌, ◌∙◌, ap, sym, refl, arith,
}
use risc_v_lab.Kernel.{Layout, Kernel}
use risc_v_lab.Kernel.Timer.{
  Timer, irq_vs_timer, vcpu_current_cycles, vcpu_timer_event_start, vcpu_check_timer_expired,
  reset_timer, handle_timer_irq, checks,
}
use risc_v_lab.Kernel.Timer.Guest.{expired, checks-before, check-due, checks-expired}
use risc_v_lab.Mmu.Guest.{GuestLayout}
use risc_v_lab.Trap.{
  Machine, Readings, returns, skip_ecall, vs_sbi_ecall_handle, interrupt, exception, do_exception,
}

-- The virtual timer alone.
abbrev vcpu : Timer → Timer
vcpu t = record t { jiffies = 0; htimedelta = 0; sie = 0; timer_cmp = 0 }

check-vcpu :
    (c : ℕ) (t : Timer) → vcpu (vcpu_check_timer_expired c t) ≡ vcpu_check_timer_expired c (vcpu t)
unfolding vcpu_check_timer_expired
check-vcpu c t = ground arith

handle_timer_irq-vcpu :
    (c c' : ℕ) (t : Timer) (k : Kernel)
    → vcpu (handle_timer_irq c c' t k).0 ≡ vcpu_check_timer_expired c (vcpu t)
unfolding handle_timer_irq reset_timer
handle_timer_irq-vcpu c c' t k = check-vcpu c _

-- The cause of the host's timer interrupt.
abbrev pub timer_cause : ℕ
timer_cause = 2 ^ 63 + 5

-- Timer interrupts of the host, each with its readings, from one state to another.
pub data TimerRun (l : Layout) (g : GuestLayout) (regs : ℕ)
    : List Readings → Machine → Machine → Type 0 where
  done : {m : Machine} → TimerRun l g regs [] m m
  tick :
      {r : Readings} {rs : List Readings} {m m1 m2 : Machine}
      → do_exception l g r regs timer_cause m ≡ some (returns m1)
      → TimerRun l g regs rs m1 m2
      → TimerRun l g regs (r ∷ rs) m m2

module _ (l : Layout) (g : GuestLayout) (regs : ℕ) where
  tick-vcpu :
      (r : Readings) (m m1 : Machine)
      → do_exception l g r regs timer_cause m ≡ some (returns m1)
      → vcpu m1.timer ≡ vcpu_check_timer_expired r.cycles (vcpu m.timer)
  unfolding do_exception interrupt
  tick-vcpu r m m1 e =
      let h = handle_timer_irq-vcpu r.cycles r.cycles' m.timer m.kernel in
      let same : record m {
        timer = (handle_timer_irq r.cycles r.cycles' m.timer m.kernel).0;
        kernel = (handle_timer_irq r.cycles r.cycles' m.timer m.kernel).1;
      }
          ≡ m1 =
        cc in
      ap (λ (x : Machine). vcpu x.timer) (sym same) ∙ h

  TimerRun-vcpu :
      {rs : List Readings} {m m2 : Machine}
      → TimerRun l g regs rs m m2
      → vcpu m2.timer ≡ checks (map (λ (r : Readings). r.cycles) rs) (vcpu m.timer)
  unfolding checks
  TimerRun-vcpu done = refl
  TimerRun-vcpu (tick {r} {rs} {m} {m1} e run) =
      TimerRun-vcpu run ∙ ap (checks (map (λ (x : Readings). x.cycles) rs)) (tick-vcpu r m m1 e)

  -- The call that sets the timer.
  abbrev after_call : Machine → Machine
  after_call m = record m {
    timer = vcpu_timer_event_start (m.kernel.regs regs).a0 m.timer;
    kernel = skip_ecall regs m.kernel;
  }

  call-sets :
      (r : Readings) (m : Machine)
      → (m.kernel.regs regs).a7 % 2 ^ 32 ≡ 0
      → do_exception l g r regs 10 m ≡ some (returns (after_call m))
  unfolding do_exception exception vs_sbi_ecall_handle
  call-sets r m id = rw id refl

All-map :
    (P : ℕ → Type 0) (f : Readings → ℕ) (rs : List Readings)
    → All (λ r. P (f r)) rs
    → All P (map f rs)
All-map P f [] h = tt
All-map P f (r ∷ rs) h = (h.0, All-map P f rs h.1)

-- The virtual timer as a guest sees it: hvip, the time that is set, and whether it still runs.
pub record IsVcpu (hvip next : ℕ) (running : Bool) (t : Timer) : Type 0 where
  pub pending : t.hvip ≡ hvip
  pub time : t.vcpu_next_cycle ≡ next
  pub armed : t.vcpu_timer_init ≡ running

vcpu-IsVcpu :
    {t : Timer} (u : Timer) → vcpu t ≡ u → IsVcpu u.hvip u.vcpu_next_cycle u.vcpu_timer_init t
vcpu-IsVcpu u e = record {
  pending = ap (λ (x : Timer). x.hvip) e;
  time = ap (λ (x : Timer). x.vcpu_next_cycle) e;
  armed = ap (λ (x : Timer). x.vcpu_timer_init) e;
}

-- hvip without and with the bit of the virtual timer.
abbrev pub hvip_clear : ℕ → ℕ
hvip_clear hvip = bit_and hvip (not64 (2 ^ irq_vs_timer))

abbrev pub hvip_set : ℕ → ℕ
hvip_set hvip = bit_or (hvip_clear hvip) (2 ^ irq_vs_timer)

-- A guest calls the host with number 0 and a time in a0, and timer interrupts of the host follow:
-- in those of `rs` the guest's clock is before the time, in that of `r` it is not, and then come
-- those of `ss`. After those of `rs`, in the state `m2`, the bit of the virtual timer in hvip is
-- clear and the timer is on; right after that of `r`, in the state `m3`, the bit is set and the
-- timer is off, and so they are at the end.
pub do_exception-guest_timer :
    (l : Layout) (g : GuestLayout) (regs : ℕ) (r0 r : Readings) (rs ss : List Readings)
    (m m1 m2 m3 m4 : Machine)
    → (m.kernel.regs regs).a7 % 2 ^ 32 ≡ 0
    → do_exception l g r0 regs 10 m ≡ some (returns m1)
    → TimerRun l g regs rs m1 m2
    → do_exception l g r regs timer_cause m2 ≡ some (returns m3)
    → TimerRun l g regs ss m3 m4
    → All (λ (x : Readings). vcpu_current_cycles x.cycles m.timer < (m.kernel.regs regs).a0) rs
    → (m.kernel.regs regs).a0 ≤ vcpu_current_cycles r.cycles m.timer
    → IsVcpu (hvip_clear m.timer.hvip) (m.kernel.regs regs).a0 true m2.timer
      × IsVcpu (hvip_set m.timer.hvip) (m.kernel.regs regs).a0 false m3.timer
      × IsVcpu (hvip_set m.timer.hvip) (m.kernel.regs regs).a0 false m4.timer
unfolding vcpu_current_cycles vcpu_timer_event_start
do_exception-guest_timer l g regs r0 r rs ss m m1 m2 m3 m4 id called before now after early due =
    let next = (m.kernel.regs regs).a0 in
    let t0 = vcpu m.timer in
    let set : Timer = vcpu_timer_event_start next t0 in
    let sets = call-sets l g regs r0 m id in
    let same : after_call l g regs m ≡ m1 = cc in
    let cycles = λ (x : Readings). x.cycles in
    let first : vcpu m2.timer ≡ set =
      TimerRun-vcpu l g regs before
      ∙ ap (checks (map cycles rs)) (ap (λ (x : Machine). vcpu x.timer) (sym same))
      ∙ checks-before next (map cycles rs) t0
          (All-map (λ c. vcpu_current_cycles c t0 < next) cycles rs early) in
    let second : vcpu m3.timer ≡ expired set =
      tick-vcpu l g regs r m2 m3 now
      ∙ ap (vcpu_check_timer_expired r.cycles) first
      ∙ check-due next r.cycles t0 due in
    let third : vcpu m4.timer ≡ expired set =
      TimerRun-vcpu l g regs after
      ∙ ap (checks (map cycles ss)) second
      ∙ checks-expired (map cycles ss) set in
    (vcpu-IsVcpu set first, vcpu-IsVcpu (expired set) second, vcpu-IsVcpu (expired set) third)
