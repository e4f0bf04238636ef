-- ===== src/Tests/Trap.antt =====
-- The traps of the kernel and of a guest, and the interrupt controller, on the kernel of
-- `Tests.Kernel`.
use risc_v_lab.Base.{
  true, ℕ, ◌+◌, ◌≤◌, ◌<◌, ◌≡◌, refl, some, false, [], ◌∷◌, ◌++◌, All, arith, bit_and, bit_or, not64,
  u64,
}
use risc_v_lab.PageAlloc.{get_free_page}
use risc_v_lab.Kernel.{Kernel}
use risc_v_lab.Kernel.Fork.{task_pt_regs, zero_regs}
use risc_v_lab.Kernel.Timer.{vcpu_current_cycles, vcpu_timer_event_start, handle_timer_irq}
use risc_v_lab.Mmu.Guest.{GuestLayout}
use risc_v_lab.Plic.{Plic, uart0_irq, sie_seie, plic_handle_irq}
use risc_v_lab.Plic.Claims.{count, plic_handle_irq-completes}
use risc_v_lab.Trap.{
  Machine, Readings, Fault, panics, returns, do_exception, exception, interrupt,
  vs_sbi_ecall_handle, skip_ecall,
}
use risc_v_lab.Trap.Dispatch.{do_exception-panics}
use risc_v_lab.Trap.Fork.{GoOn, do_exception-fork}
use risc_v_lab.Trap.GuestTimer.{timer_cause, done, tick, IsVcpu, hvip_clear, hvip_set}
use risc_v_lab.Vs.{Guest, do_vs_exception, vs_handle_timer_irq, vs_reset_timer}
use risc_v_lab.Vs as Vs
use risc_v_lab.Vs.Timer.{next_time, do_vs_exception-next}
use risc_v_lab.Tests.Kernel.{
  layout, timer, clone_kernel, frame_here, frame_apart, clone_page, clone_slot,
}

abbrev controller : Plic
controller = record { device = λ a. 0; sie = 0x222; uart_calls = 0; completed = [] }

plic_handle_irq-completes_example :
    ((plic_handle_irq (10 ∷ 3 ∷ 10 ∷ 0 ∷ 7 ∷ []) controller).completed ≡ [] ++ (10 ∷ 3 ∷ 10 ∷ []))
    × ((plic_handle_irq (10 ∷ 3 ∷ 10 ∷ 0 ∷ 7 ∷ []) controller).uart_calls
        ≡ 0 + count uart0_irq (10 ∷ 3 ∷ 10 ∷ []))
    × ((plic_handle_irq (10 ∷ 3 ∷ 10 ∷ 0 ∷ 7 ∷ []) controller).device ≡ controller.device)
    × ((plic_handle_irq (10 ∷ 3 ∷ 10 ∷ 0 ∷ 7 ∷ []) controller).sie
        ≡ bit_or (bit_and 0x222 (not64 sie_seie)) sie_seie)
plic_handle_irq-completes_example =
    plic_handle_irq-completes (10 ∷ 3 ∷ 10 ∷ []) (7 ∷ []) controller (omega arith)

abbrev guest_layout : GuestLayout
guest_layout = record {
  hs_pg_dir = 0x80300000;
  vs_page_table_dir = 0x80400000;
  text_boot = 0x80200000;
  etext = 0x80210000;
}

abbrev machine : Kernel → Machine
machine k = record { kernel = k; mem = λ a. 0; timer = timer; plic = controller; guest_writes = [] }

abbrev reading : ℕ → Readings
reading c = record { cycles = c; cycles' = c; claims = []; htval = 0; stval = 0 }

do_exception-panics_example :
    (f : Fault) × (do_exception layout guest_layout (reading 0) 11992 0x16 (machine clone_kernel)
      ≡ some (panics (some f) (machine clone_kernel)))
do_exception-panics_example =
    do_exception-panics layout guest_layout (reading 0) 11992 0x16 (machine clone_kernel)
      (omega arith) (omega arith) (omega arith) (omega arith) (omega arith) (omega arith)

do_exception-fork_example :
    (k' : Kernel) × (do_exception layout guest_layout (reading 0) 11992 8 (machine clone_kernel)
      ≡ some (returns (record (machine clone_kernel) { kernel = k' })))
    × ((k'.regs 11992).a0 ≡ 3)
    × ((k'.regs (task_pt_regs (get_free_page clone_kernel.alloc).0)).a0 ≡ 0)
    × GoOn 11992 (get_free_page clone_kernel.alloc).0 clone_kernel k'
do_exception-fork_example =
    do_exception-fork layout guest_layout (reading 0) 11992 3 (machine clone_kernel) refl frame_here
      refl clone_page frame_apart clone_slot

-- A guest that takes an interrupt at 1000 and asks for the next one, which comes due at 201500.
abbrev guest : Guest
guest = record { vs_jiffies = 4; sie = 0x20; sscratch = 0; stvec = 0; calls = [] }

abbrev guest_after : Guest
guest_after = record {
  vs_jiffies = 5;
  sie = 0x20;
  sscratch = 0;
  stvec = 0;
  calls = (0, 201000) ∷ [];
}

abbrev call_kernel : Kernel
call_kernel = record clone_kernel { regs = λ a. record zero_regs { a0 = 201000; a7 = 0 } }

abbrev set : Machine
set = record (machine call_kernel) {
  timer = vcpu_timer_event_start 201000 timer;
  kernel = skip_ecall 11992 call_kernel;
}

abbrev ticked : ℕ → Machine → Machine
ticked c m = record m {
  timer = (handle_timer_irq c c m.timer m.kernel).0;
  kernel = (handle_timer_irq c c m.timer m.kernel).1;
}

ticked-interrupt :
    (c : ℕ) (m : Machine)
    → do_exception layout guest_layout (reading c) 11992 timer_cause m ≡ some (returns (ticked c m))
unfolding do_exception interrupt
ticked-interrupt c m = refl

guest-interrupt : do_vs_exception 1000 timer_cause guest ≡ Vs.returns guest_after
unfolding do_vs_exception vs_handle_timer_irq vs_reset_timer
guest-interrupt = refl

guest-call :
    do_exception layout guest_layout (reading 1100) 11992 10 (machine call_kernel)
    ≡ some (returns set)
unfolding do_exception exception vs_sbi_ecall_handle
guest-call = refl

early :
    All
      (λ (x : Readings). vcpu_current_cycles x.cycles timer < next_time 1000)
      (reading 100000 ∷ [])
unfolding vcpu_current_cycles
early = (omega arith, tt)

due : next_time 1000 ≤ vcpu_current_cycles 201500 timer
unfolding vcpu_current_cycles
due = omega arith

abbrev last : Machine
last = ticked 201500 (ticked 100000 set)

do_vs_exception-next_example :
    (guest_after.vs_jiffies ≡ u64 (guest.vs_jiffies + 1))
    × IsVcpu (hvip_clear timer.hvip) (next_time 1000) true (ticked 100000 set).timer
    × IsVcpu (hvip_set timer.hvip) (next_time 1000) false last.timer
    × IsVcpu (hvip_set timer.hvip) (next_time 1000) false (ticked 210000 last).timer
do_vs_exception-next_example =
    do_vs_exception-next layout guest_layout 11992 1000 guest guest_after (0, 201000) (reading 1100)
      (reading 201500) (reading 100000 ∷ []) (reading 210000 ∷ []) (machine call_kernel) set
      (ticked 100000 set) last (ticked 210000 last) guest-interrupt refl
      (record { id = refl; argument = refl }) guest-call (tick (ticked-interrupt 100000 set) done)
      (ticked-interrupt 201500 (ticked 100000 set)) (tick (ticked-interrupt 210000 last) done) early
      due
