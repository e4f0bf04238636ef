-- ===== src/Start.antt =====
-- The start of the kernel, `kernel_main` of benos/src/kernel.c, which puts the parts together. What it
-- prints is left out.
pub mod Image
pub mod Boot
use risc_v_lab.Base.{
  ℕ, ◌+◌, ◌*◌, ◌/◌, ◌^◌, ◌-◌, ◌%◌, if◌then◌else◌, Bool, false, ltb, leb, ◌&&◌, u32, sub64, Option,
  none, some, ◌>>=◌, replicate,
}
use risc_v_lab.PageAlloc.{PageAlloc, MemReport, mem_init, ddr_end, nr_pages}
use risc_v_lab.Mmu.{Words, Mmu, Sections, paging_init}
use risc_v_lab.Plic.{Plic, plic_init}
use risc_v_lab.Uart.{Uart, uart_init, enable_uart_plic}
use risc_v_lab.Kernel.{Layout, Kernel, irq_enable}
use risc_v_lab.Kernel.Schedule.{sched_init}
use risc_v_lab.Kernel.Fork.{pf_kthread, do_fork}
use risc_v_lab.Kernel.Timer.{Timer, timer_init}
use risc_v_lab.Trap.{Csrs, Machine, trap_init}

-- Addresses that the linker chooses.
pub record Linked : Type 0 where
  pub bss : ℕ
  pub ebss : ℕ
  pub end_image : ℕ
  pub do_exception_vector : ℕ
  pub vs_thread : ℕ
  pub sections : Sections
  pub layout : Layout

pub record Start : Type 0 where
  pub machine : Machine
  pub csrs : Csrs
  pub uart : Uart

unfoldable pub clear_range : ℕ → ℕ → Words → Words
clear_range start size mem a = if leb start a && ltb a (start + size) then 0 else mem a

-- The section .bss, in which the map of the page allocator stands; the small variables stand in
-- .sdata.
unfoldable pub clean_bss : Linked → Start → Start
unfolding clear_range
clean_bss i s =
    let m = s.machine in
    record s {
      machine = record m {
        mem = clear_range i.bss (u32 (sub64 i.ebss i.bss)) m.mem;
        kernel = record (m.kernel) {
          alloc = record (m.kernel.alloc) { mem_map = replicate nr_pages 0 };
        };
      };
    }

-- The devices, the traps and the timer, in their order, around the forked task in `k`. The register
-- sie is written by three files; each takes it from the one before.
unfoldable pub start_devices : Bool → Linked → ℕ → Start → Mmu → Kernel → Start
start_devices qemu i cycles s mmu k =
    let m = s.machine in
    let uart = uart_init s.uart in
    let csrs = trap_init i.do_exception_vector s.csrs in
    let plic = record (m.plic) { sie = csrs.sie } in
    let devices = if qemu then enable_uart_plic uart (plic_init plic) else (uart, plic) in
    let timer = timer_init cycles (record (m.timer) { sie = devices.1.sie; hvip = csrs.hvip }) in
    record {
      machine = record m { kernel = irq_enable k; mem = mmu.mem; timer = timer; plic = devices.1 };
      csrs = csrs;
      uart = devices.0;
    }

-- Up to the endless loop, with the result of `do_fork`, for CONFIG_BOARD_QEMU and for other boards;
-- `cycles` is the clock. `none` is a lack of fuel.
unfoldable pub kernel_main : Bool → Linked → ℕ → Start → Option (Option ℕ × Start)
kernel_main qemu i cycles s = do
  let s1 = clean_bss i s
  mem ← mem_init i.end_image ddr_end s1.machine.kernel.alloc
  mmu ← paging_init qemu i.sections (record { mem = s1.machine.mem; alloc = mem.1 })
  let k = sched_init i.layout (record (s1.machine.kernel) { alloc = mmu.alloc })
  let forked = do_fork i.layout pf_kthread i.vs_thread 0 k
  some (forked.0, start_devices qemu i cycles s1 mmu forked.1)
