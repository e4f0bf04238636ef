-- ===== src/Plic.antt =====
-- The interrupt controller: benos/src/plic.c. The registers of the device are words of 32 bits by
-- address; what a read of the claim register gives is decided by the device and an argument.
pub mod Claims
use risc_v_lab.Base.{
  ℕ, zero, suc, ◌+◌, ◌-◌, ◌*◌, ◌/◌, ◌%◌, ◌^◌, ◌==◌, if◌then◌else◌, Bool, true, false, bit_and,
  bit_or, not64, u32, List, [], ◌∷◌, ◌++◌,
}

-- What the code here changes: the registers of the device, the control register sie, and, as
-- outputs, the numbers for which `handle_uart_irq` was called and those that were completed.
pub record Plic : Type 0 where
  pub device : ℕ → ℕ
  pub sie : ℕ
  pub uart_calls : ℕ
  pub completed : List ℕ

abbrev pub max_plic_irqs : ℕ
max_plic_irqs = 53

abbrev pub uart0_irq : ℕ
uart0_irq = 10

abbrev pub sie_seie : ℕ
sie_seie = 0x200

unfoldable pub plic_priority : ℕ → ℕ
plic_priority id = 0xc000000 + id * 4

unfoldable pub plic_menable : ℕ → ℕ
plic_menable hart = 0xc000000 + 0x2000 + hart * 0x80

unfoldable pub plic_mthreshold : ℕ → ℕ
plic_mthreshold hart = 0xc000000 + 0x200000 + hart * 0x1000

unfoldable pub cpu_to_hart_s : ℕ → ℕ
cpu_to_hart_s cpu = cpu + 1

unfoldable pub writel : ℕ → ℕ → Plic → Plic
writel v reg p = record p { device = λ a. if a == reg then v else p.device a }

unfoldable pub plic_set_prority : ℕ → ℕ → Plic → Plic
plic_set_prority hwirq pro p = writel pro (plic_priority hwirq) p

-- The enable register of the interrupt, and its bit there.
unfoldable pub enable_reg : ℕ → ℕ → ℕ
unfolding plic_menable cpu_to_hart_s
enable_reg cpu hwirq = plic_menable (cpu_to_hart_s cpu) + 4 * (hwirq / 32)

unfoldable pub plic_enable_irq : ℕ → ℕ → Bool → Plic → Plic
plic_enable_irq cpu hwirq enable p =
    let hwirq_mask = 2 ^ (hwirq % 32) in
    let reg = enable_reg cpu hwirq in
    if enable
    then writel (bit_or (p.device reg) hwirq_mask) reg p
    else writel (bit_and (p.device reg) (2 ^ 32 - 1 - hwirq_mask)) reg p

-- The loop on the readings of the claim register; behind the last one it reads 0.
unfoldable pub claim_loop : List ℕ → Plic → Plic
claim_loop [] p = p
claim_loop (hwirq ∷ readings) p =
    let p1 = if hwirq == uart0_irq then record p { uart_calls = p.uart_calls + 1 } else p in
    let rest = claim_loop readings (record p1 { completed = p1.completed ++ hwirq ∷ [] }) in
    if hwirq == 0 then p else rest

unfoldable pub plic_handle_irq : List ℕ → Plic → Plic
plic_handle_irq readings p =
    let p1 = claim_loop readings (record p { sie = bit_and p.sie (not64 sie_seie) }) in
    record p1 { sie = bit_or p1.sie sie_seie }

-- The inner loop of `plic_init`, from `hwirq` on for `n` rounds.
unfoldable pub init_loop : ℕ → ℕ → ℕ → Plic → Plic
init_loop cpu zero hwirq p = p
init_loop cpu (suc n) hwirq p =
    init_loop cpu n (suc hwirq) (plic_set_prority hwirq 1 (plic_enable_irq cpu hwirq false p))

-- There is one CPU.
unfoldable pub plic_init : Plic → Plic
plic_init p =
    let p1 = init_loop 0 max_plic_irqs 1 (writel 0 (plic_mthreshold (cpu_to_hart_s 0)) p) in
    record p1 { sie = bit_or p1.sie sie_seie }
