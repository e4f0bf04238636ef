-- ===== src/Vs.antt =====
-- The exceptions and the timer of a guest: benos/virt/vs_trap.c and benos/virt/vs_timer.c. A guest
-- asks the host by an `ecall`, which is kept as a call with its number and its argument.
pub mod Timer
use risc_v_lab.Base.{
  ℕ, ◌+◌, ◌-◌, ◌/◌, ◌^◌, ◌%◌, ◌==◌, if◌then◌else◌, Bool, leb, bit_and, bit_or, u64, not64, Option,
  none, List, ◌∷◌, get_elem?,
}
use risc_v_lab.Kernel.Timer.{sie_stie, clint_timebase_freq}
use risc_v_lab.Trap.{Fault, fault_info, scause_int, scause_ec, interrupt_cause_timer, sbi_set_timer}

-- The variable and the control registers, and the calls of the host, the last one first.
pub record Guest : Type 0 where
  pub vs_jiffies : ℕ
  pub sie : ℕ
  pub sscratch : ℕ
  pub stvec : ℕ
  pub calls : List (ℕ × ℕ)

abbrev pub vs_hz : ℕ
vs_hz = 50

unfoldable pub vs_reset_timer : ℕ → Guest → Guest
vs_reset_timer cycles v = record v {
  sie = bit_or v.sie sie_stie;
  calls = (sbi_set_timer, u64 (cycles + clint_timebase_freq / vs_hz)) ∷ v.calls;
}

unfoldable pub vs_timer_init : ℕ → Guest → Guest
vs_timer_init cycles v = vs_reset_timer cycles v

unfoldable pub vs_handle_timer_irq : ℕ → Guest → Guest
vs_handle_timer_irq cycles v =
    vs_reset_timer cycles
      (record v { sie = bit_and v.sie (not64 sie_stie); vs_jiffies = u64 (v.vs_jiffies + 1) })

pub data GuestOutcome : Type 0 where
  returns : Guest → GuestOutcome
  panics : Option Fault → Guest → GuestOutcome

-- The table of vs_trap.c has the faults of the one of trap.c.
unfoldable pub vs_ec_to_fault_info : ℕ → Option Fault
vs_ec_to_fault_info scause = get_elem? fault_info (bit_and (scause % 2 ^ 32) scause_ec)

-- The clock is read for the next interrupt.
unfoldable pub do_vs_exception : ℕ → ℕ → Guest → GuestOutcome
do_vs_exception cycles scause v =
    if leb scause_int scause
    then (if scause - scause_int == interrupt_cause_timer
        then returns (vs_handle_timer_irq cycles v)
        else panics none v)
    else panics (vs_ec_to_fault_info scause) v

unfoldable pub vs_trap_init : ℕ → Guest → Guest
vs_trap_init vector v = record v { sscratch = 0; stvec = vector; sie = 2 ^ 64 - 1 }
