-- ===== src/Kernel/Timer.antt =====
-- The timer of benos/src/timer.c, with the virtual timer of a guest. The readings of the clock are
-- arguments.
pub mod Guest
use risc_v_lab.Base.{
  ℕ, zero, suc, ◌+◌, ◌-◌, ◌*◌, ◌/◌, ◌^◌, ◌%◌, ◌<◌, ◌≤◌, ◌≡◌, ◌==◌, refl, arith, if◌then◌else◌, Bool,
  true, false, ltb, bit_and, bit_or, u64, not64, List, [], ◌∷◌,
}
use risc_v_lab.Kernel.{Kernel}
use risc_v_lab.Kernel.Schedule.{tick_handle_periodic}

-- The variables of the file, the control registers hvip, htimedelta and sie, and the time that was last given
-- to `sbi_set_timer`.
pub record Timer : Type 0 where
  pub jiffies : ℕ
  pub vcpu_time_delta : ℕ
  pub vcpu_next_cycle : ℕ
  pub vcpu_timer_init : Bool
  pub hvip : ℕ
  pub htimedelta : ℕ
  pub sie : ℕ
  pub timer_cmp : ℕ

abbrev pub irq_vs_timer : ℕ
irq_vs_timer = 6

abbrev pub sie_stie : ℕ
sie_stie = 0x20

abbrev pub clint_timebase_freq : ℕ
clint_timebase_freq = 10000000

abbrev pub hz : ℕ
hz = 100

-- riscv_vcpu_current_cycles
unfoldable pub vcpu_current_cycles : ℕ → Timer → ℕ
vcpu_current_cycles cycles t = u64 (cycles + t.vcpu_time_delta)

unfoldable pub vcpu_set_interrupt : ℕ → Timer → Timer
vcpu_set_interrupt intr t = record t { hvip = bit_or t.hvip (2 ^ intr) }

unfoldable pub vcpu_clear_interrupt : ℕ → Timer → Timer
vcpu_clear_interrupt intr t = record t { hvip = bit_and t.hvip (not64 (2 ^ intr)) }

unfoldable pub vcpu_timer_event_start : ℕ → Timer → Timer
unfolding vcpu_clear_interrupt
vcpu_timer_event_start next_cycle t = record (vcpu_clear_interrupt irq_vs_timer t) {
  vcpu_next_cycle = next_cycle;
  vcpu_timer_init = true;
}

unfoldable pub vcpu_check_timer_expired : ℕ → Timer → Timer
unfolding vcpu_current_cycles vcpu_set_interrupt
vcpu_check_timer_expired cycles t =
    if t.vcpu_timer_init
    then (if ltb (vcpu_current_cycles cycles t) t.vcpu_next_cycle
        then t
        else record (vcpu_set_interrupt irq_vs_timer t) { vcpu_timer_init = false })
    else t

unfoldable pub vcpu_timer_init' : Timer → Timer
vcpu_timer_init' t =
    let t1 = record t { vcpu_time_delta = 0 } in record t1 { htimedelta = t1.vcpu_time_delta }

unfoldable pub reset_timer : ℕ → Timer → Timer
reset_timer cycles t = record t {
  sie = bit_or t.sie sie_stie;
  timer_cmp = u64 (cycles + clint_timebase_freq / hz);
}

unfoldable pub timer_init : ℕ → Timer → Timer
timer_init cycles t = reset_timer cycles t

-- The clock is read for the guest's timer and for the next interrupt.
unfoldable pub handle_timer_irq : ℕ → ℕ → Timer → Kernel → Timer × Kernel
handle_timer_irq cycles cycles' t k =
    let t1 = record t { sie = bit_and t.sie (not64 sie_stie) } in
    let t2 = vcpu_check_timer_expired cycles t1 in
    let t3 = record t2 { jiffies = u64 (t2.jiffies + 1) } in
    (reset_timer cycles' t3, tick_handle_periodic k)

-- The checks at the readings `cs` of the clock.
unfoldable pub checks : List ℕ → Timer → Timer
checks [] t = t
checks (c ∷ cs) t = checks cs (vcpu_check_timer_expired c t)
