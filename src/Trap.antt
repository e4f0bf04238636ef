-- ===== src/Trap.antt =====
-- The exceptions and interrupts of the kernel: benos/src/trap.c. It calls the system calls and the
-- timer of `Kernel`, the tables of `Mmu` and the interrupt controller of `Plic`.
pub mod Dispatch
pub mod Fork
pub mod GuestTimer
use risc_v_lab.Base.{
  ℕ, zero, suc, ◌+◌, ◌-◌, ◌*◌, ◌^◌, ◌%◌, ◌==◌, if◌then◌else◌, ◌||◌, Bool, leb, bit_and, bit_or, u64,
  Option, none, some, ◌>>=◌, List, [], ◌∷◌, get_elem?,
}
use risc_v_lab.Kernel.{PtRegs, Layout, Kernel}
use risc_v_lab.Kernel.Fork.{put_regs}
use risc_v_lab.Kernel.Syscall.{svc_handler}
use risc_v_lab.Kernel.Timer.{Timer, vcpu_timer_event_start, handle_timer_irq}
use risc_v_lab.Mmu.{Words, Mmu}
use risc_v_lab.Mmu.Guest.{GuestLayout, stage2_page_fault}
use risc_v_lab.Plic.{Plic, plic_handle_irq}

-- The registers that `hs_delegate_traps` and `trap_init` write.
pub record Csrs : Type 0 where
  pub hedeleg : ℕ
  pub hideleg : ℕ
  pub hvip : ℕ
  pub sscratch : ℕ
  pub stvec : ℕ
  pub sie : ℕ

-- The register sie stands in `timer`. `guest_writes` are the writes to memory of the guest by `hsvw`,
-- each an address and a value.
pub record Machine : Type 0 where
  pub kernel : Kernel
  pub mem : Words
  pub timer : Timer
  pub plic : Plic
  pub guest_writes : List (ℕ × ℕ)

-- What the code reads from the hardware.
pub record Readings : Type 0 where
  pub cycles : ℕ
  pub cycles' : ℕ
  pub claims : List ℕ
  pub htval : ℕ
  pub stval : ℕ

-- The entries of `fault_info`; each of their functions prints its name and the state, and panics.
pub data Fault : Type 0 where
  insn_misaligned : Fault
  insn_fault : Fault
  insn_illegal : Fault
  trap_break : Fault
  load_misaligned : Fault
  load_fault : Fault
  store_misaligned : Fault
  store_fault : Fault
  ecall_u : Fault
  ecall_s : Fault
  unknown : Fault
  page_fault : Fault

abbrev pub fault_info : List Fault
fault_info =
    insn_misaligned ∷ insn_fault ∷ insn_illegal ∷ trap_break ∷ load_misaligned ∷ load_fault
    ∷ store_misaligned ∷ store_fault ∷ ecall_u ∷ ecall_s ∷ unknown ∷ unknown ∷ page_fault
    ∷ page_fault ∷ unknown ∷ page_fault ∷ []

-- A panic is a loop without end: nothing comes after it.
pub data Outcome : Type 0 where
  returns : Machine → Outcome
  panics : Option Fault → Machine → Outcome

abbrev pub cause_user_ecall : ℕ
cause_user_ecall = 0x8

abbrev pub cause_virtual_supervisor_ecall : ℕ
cause_virtual_supervisor_ecall = 0xa

abbrev pub cause_fetch_guest_page_fault : ℕ
cause_fetch_guest_page_fault = 0x14

abbrev pub cause_load_guest_page_fault : ℕ
cause_load_guest_page_fault = 0x15

abbrev pub cause_store_guest_page_fault' : ℕ
cause_store_guest_page_fault' = 0x17

abbrev pub interrupt_cause_software : ℕ
interrupt_cause_software = 1

abbrev pub interrupt_cause_timer : ℕ
interrupt_cause_timer = 5

abbrev pub interrupt_cause_external : ℕ
interrupt_cause_external = 9

abbrev pub sbi_set_timer : ℕ
sbi_set_timer = 0

abbrev pub sbi_exit_vm_test : ℕ
sbi_exit_vm_test = 0x100

abbrev pub vs_mem : ℕ
vs_mem = 0x30000000

abbrev pub scause_int : ℕ
scause_int = 2 ^ 63

abbrev pub scause_ec : ℕ
scause_ec = 0xf

unfoldable pub ec_to_fault_info : ℕ → Option Fault
ec_to_fault_info scause = get_elem? fault_info (bit_and (scause % 2 ^ 32) scause_ec)

-- regs->sepc += 4
unfoldable pub skip_ecall : ℕ → Kernel → Kernel
skip_ecall regs k = put_regs regs (record (k.regs regs) { sepc = u64 ((k.regs regs).sepc + 4) }) k

-- It always returns 0.
unfoldable pub vs_sbi_ecall_handle : ℕ → ℕ → Machine → Machine
vs_sbi_ecall_handle id regs m =
    let m1 =
      if id == sbi_exit_vm_test
      then record m { guest_writes = (vs_mem, 0x87654321) ∷ m.guest_writes }
      else if id == sbi_set_timer
      then record m { timer = vcpu_timer_event_start (m.kernel.regs regs).a0 m.timer }
      else m in
    record m1 { kernel = skip_ecall regs m1.kernel }

-- The allocator of pages is the one of the kernel.
unfoldable pub guest_page_fault : GuestLayout → Readings → ℕ → Machine → Option Machine
guest_page_fault g r scause m = do
  mmu ← stage2_page_fault g r.htval r.stval scause (record { mem = m.mem; alloc = m.kernel.alloc })
  some (record m { mem = mmu.mem; kernel = record (m.kernel) { alloc = mmu.alloc } })

-- The branch for interrupts.
unfoldable pub interrupt : Readings → ℕ → Machine → Outcome
interrupt r cause m =
    if cause == interrupt_cause_timer
    then (let (timer, kernel) = handle_timer_irq r.cycles r.cycles' m.timer m.kernel in
        returns (record m { timer = timer; kernel = kernel }))
    else if cause == interrupt_cause_external
    then (let plic = plic_handle_irq r.claims (record (m.plic) { sie = m.timer.sie }) in
        returns (record m { plic = plic; timer = record (m.timer) { sie = plic.sie } }))
    else if cause == interrupt_cause_software
    then returns m
    else panics none m

-- The branch for exceptions. `none` is undefined behaviour of a system call.
unfoldable pub exception : Layout → GuestLayout → Readings → ℕ → ℕ → Machine → Option Outcome
exception l g r regs scause m =
    if scause == cause_user_ecall
    then (do
      k ← svc_handler l regs (skip_ecall regs m.kernel)
      some (returns (record m { kernel = k })))
    else if scause == cause_virtual_supervisor_ecall
    then some (returns (vs_sbi_ecall_handle ((m.kernel.regs regs).a7 % 2 ^ 32) regs m))
    else if scause == cause_load_guest_page_fault
        || scause == cause_fetch_guest_page_fault
        || scause == cause_store_guest_page_fault'
    then (do m' ← guest_page_fault g r scause m; some (returns m'))
    else some (panics (ec_to_fault_info scause) m)

unfoldable pub do_exception : Layout → GuestLayout → Readings → ℕ → ℕ → Machine → Option Outcome
do_exception l g r regs scause m =
    if leb scause_int scause
    then some (interrupt r (scause - scause_int) m)
    else exception l g r regs scause m

-- The exceptions and the interrupts of a guest that the guest handles itself.
unfoldable pub hs_delegate_traps : Csrs → Csrs
hs_delegate_traps c = record c {
  hideleg = bit_or (bit_or (2 ^ 2) (2 ^ 6)) (2 ^ 10);
  hedeleg =
      bit_or
        (bit_or
          (bit_or
            (bit_or (bit_or (bit_or (bit_or (bit_or (2 ^ 0) (2 ^ 12)) (2 ^ 3)) (2 ^ 13)) (2 ^ 15))
              (2 ^ 8))
            (2 ^ 5))
          (2 ^ 7))
        (2 ^ 2);
  hvip = 0;
}

-- With the address of the vector.
unfoldable pub trap_init : ℕ → Csrs → Csrs
trap_init vector c = record (hs_delegate_traps c) { sscratch = 0; stvec = vector; sie = 2 ^ 64 - 1 }
