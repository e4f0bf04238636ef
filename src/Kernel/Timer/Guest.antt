-- ===== src/Kernel/Timer/Guest.antt =====
-- The virtual timer of benos/src/timer.c: when a guest is interrupted.
use risc_v_lab.Base.{
  ℕ, ◌^◌, ◌<◌, ◌≤◌, ◌≡◌, ◌∙◌, ap, refl, arith, true, false, bit_or, List, [], ◌∷◌, All,
}
use risc_v_lab.Kernel.Timer.{
  Timer, irq_vs_timer, vcpu_current_cycles, vcpu_timer_event_start, vcpu_check_timer_expired,
  checks,
}

check_early :
    (c : ℕ) (t : Timer)
    → vcpu_current_cycles c t < t.vcpu_next_cycle
    → vcpu_check_timer_expired c t ≡ t
unfolding vcpu_check_timer_expired
check_early c t h = ground arith

check_idle : (c : ℕ) (t : Timer) → t.vcpu_timer_init ≡ false → vcpu_check_timer_expired c t ≡ t
unfolding vcpu_check_timer_expired
check_idle c t idle = ground arith

check_due :
    (c : ℕ) (t : Timer)
    → t.vcpu_timer_init ≡ true
    → t.vcpu_next_cycle ≤ vcpu_current_cycles c t
    → vcpu_check_timer_expired c t
      ≡ record t { hvip = bit_or t.hvip (2 ^ irq_vs_timer); vcpu_timer_init = false }
unfolding vcpu_check_timer_expired
check_due c t armed due = ground arith

checks-idle : (cs : List ℕ) (t : Timer) → t.vcpu_timer_init ≡ false → checks cs t ≡ t
unfolding checks
checks-idle [] t idle = refl
checks-idle (c ∷ cs) t idle = ap (checks cs) (check_idle c t idle) ∙ checks-idle cs t idle

checks-early :
    (cs : List ℕ) (t : Timer)
    → All (λ c. vcpu_current_cycles c t < t.vcpu_next_cycle) cs
    → checks cs t ≡ t
unfolding checks
checks-early [] t early = refl
checks-early (c ∷ cs) t early = ap (checks cs) (check_early c t early.0) ∙ checks-early cs t early.1

-- The timer after its time has come.
abbrev pub expired : Timer → Timer
expired t = record t { hvip = bit_or t.hvip (2 ^ irq_vs_timer); vcpu_timer_init = false }

-- The checks before the time of a timer that has been set leave everything as it is.
pub checks-before :
    (next : ℕ) (cs : List ℕ) (t : Timer)
    → All (λ c. vcpu_current_cycles c t < next) cs
    → checks cs (vcpu_timer_event_start next t) ≡ vcpu_timer_event_start next t
unfolding vcpu_timer_event_start vcpu_current_cycles
checks-before next cs t early = checks-early cs (vcpu_timer_event_start next t) early

-- The first check at or after the time sets the bit of the virtual timer in hvip and takes the timer
-- back.
pub check-due :
    (next c : ℕ) (t : Timer)
    → next ≤ vcpu_current_cycles c t
    → vcpu_check_timer_expired c (vcpu_timer_event_start next t)
      ≡ expired (vcpu_timer_event_start next t)
unfolding vcpu_timer_event_start vcpu_current_cycles
check-due next c t due = check_due c (vcpu_timer_event_start next t) refl due

-- No later check changes anything.
pub checks-expired : (cs : List ℕ) (t : Timer) → checks cs (expired t) ≡ expired t
checks-expired cs t = checks-idle cs (expired t) refl
