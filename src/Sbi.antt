-- ===== src/Sbi.antt =====
-- The firmware: benos/sbi/sbi_lib.c, sbi_timer.c, sbi_trap.c and sbi_main.c. The control registers
-- of the memory protection are known by their numbers.
pub mod Log2
pub mod Pmp
pub mod Main
use risc_v_lab.Base.{
  ℕ, zero, suc, ◌+◌, ◌-◌, ◌*◌, ◌/◌, ◌^◌, ◌%◌, ◌==◌, ◌&&◌, ◌||◌, if◌then◌else◌, Bool, true, false,
  leb, ltb, u64, not64, shl64, shr, bit_and, bit_or, Option, none, some,
}

abbrev pub riscv_xlen : ℕ
riscv_xlen = 64

abbrev pub max_csr_pmp : ℕ
max_csr_pmp = 8

abbrev pub csr_pmpcfg0 : ℕ
csr_pmpcfg0 = 0x3a0

abbrev pub csr_pmpaddr0 : ℕ
csr_pmpaddr0 = 0x3b0

abbrev pub pmp_a : ℕ
pmp_a = 0x18

abbrev pub pmp_a_na4 : ℕ
pmp_a_na4 = 0x10

abbrev pub pmp_a_napot : ℕ
pmp_a_napot = 0x18

abbrev pub pmp_shift : ℕ
pmp_shift = 2

abbrev pub Csrs : Type 0
Csrs = ℕ → ℕ

-- The registers that `read_csr_num` and `write_csr_num` know.
abbrev pub is_known : ℕ → Bool
is_known csr_num =
    csr_num == csr_pmpcfg0 || leb csr_pmpaddr0 csr_num && ltb csr_num (csr_pmpaddr0 + 8)

unfoldable pub read_csr_num : ℕ → Csrs → ℕ
read_csr_num csr_num c = if is_known csr_num then c csr_num else 0

unfoldable pub write_csr_num : ℕ → ℕ → Csrs → Csrs
write_csr_num csr_num val c a = if is_known csr_num && (a == csr_num) then val else c a

-- The `while` loop of `log2roundup`, with `n` rounds left.
unfoldable pub log2_loop : ℕ → ℕ → ℕ → ℕ
log2_loop zero ret x = ret
log2_loop (suc n) ret x = if leb x (2 ^ ret) then ret else log2_loop n (ret + 1) x

unfoldable pub log2roundup : ℕ → ℕ
unfolding log2_loop
log2roundup x = log2_loop riscv_xlen 0 x

-- The address register of a region: its order is given by the trailing ones.
unfoldable pub pmp_addr : ℕ → ℕ → ℕ
pmp_addr order start =
    let pmpaddr = shr start pmp_shift in
    let addrmask = 2 ^ (order - pmp_shift) - 1 in
    if ltb pmp_shift order
    then (if order == riscv_xlen
        then 2 ^ 64 - 1
        else bit_or (bit_and pmpaddr (not64 addrmask)) (shr addrmask 1))
    else pmpaddr

-- The configuration register with the byte of the region replaced.
unfoldable pub pmp_cfg : ℕ → ℕ → ℕ → ℕ → ℕ
pmp_cfg reg_idx order prot old =
    let shift = bit_and reg_idx 7 * 8 in
    let kept = bit_and prot (not64 pmp_a) in
    let prot' = bit_or kept (if order == pmp_shift then pmp_a_na4 else pmp_a_napot) in
    let cfgmask = not64 (shl64 0xff shift) in
    bit_or (bit_and old cfgmask) (bit_and (shl64 prot' shift) (not64 cfgmask))

-- The flag is false for the result -1. `reg_idx` is not negative.
unfoldable pub sbi_set_pmp : ℕ → ℕ → ℕ → ℕ → Csrs → Bool × Csrs
sbi_set_pmp reg_idx start size prot c =
    let order = log2roundup size in
    let pmpcfg_csr = (csr_pmpcfg0 + reg_idx / 4) / 2 * 2 in
    let pmpcfg = pmp_cfg reg_idx order prot (read_csr_num pmpcfg_csr c) in
    if ltb max_csr_pmp reg_idx then (false, c) else if ltb order pmp_shift then (false, c) else (
      true,
      write_csr_num pmpcfg_csr pmpcfg
          (write_csr_num (csr_pmpaddr0 + reg_idx) (pmp_addr order start) c),
    )

-- The registers of traps, and the time compare register.
pub record Machine : Type 0 where
  pub mie : ℕ
  pub mip : ℕ
  pub mideleg : ℕ
  pub medeleg : ℕ
  pub mtime_cmp : ℕ

abbrev pub mip_stip : ℕ
mip_stip = 0x20

abbrev pub mip_mtip : ℕ
mip_mtip = 0x80

unfoldable pub sbi_timer_process : Machine → Machine
sbi_timer_process m = record m { mie = bit_and m.mie (not64 mip_mtip); mip = bit_or m.mip mip_stip }

unfoldable pub clint_timer_event_start : ℕ → Machine → Machine
clint_timer_event_start next_event m = record m {
  mtime_cmp = next_event;
  mip = bit_and m.mip (not64 mip_stip);
  mie = bit_or m.mie mip_mtip;
}

-- What a call sees of its frame: a0, a7 and mepc.
pub record SbiTrapRegs : Type 0 where
  pub a0 : ℕ
  pub a7 : ℕ
  pub mepc : ℕ

-- `ch` is what `uart_get` would return. Every call succeeds; a number is 32 bits wide here.
unfoldable pub sbi_ecall_handle : ℕ → ℕ → SbiTrapRegs → Machine → SbiTrapRegs × Machine
unfolding clint_timer_event_start
sbi_ecall_handle ch id regs m =
    let after = record regs { mepc = u64 (regs.mepc + 4) } in
    if id == 0
    then (after, clint_timer_event_start regs.a0 m)
    else if id == 2
    then (record after { a0 = ch }, m)
    else (after, m)

abbrev pub mcause_irq : ℕ
mcause_irq = 2 ^ 63

-- `none` is the panic.
unfoldable pub sbi_trap_handler : ℕ → ℕ → SbiTrapRegs → Machine → Option (SbiTrapRegs × Machine)
unfolding sbi_timer_process sbi_ecall_handle
sbi_trap_handler ch mcause regs m =
    if leb mcause_irq mcause
    then (if mcause - mcause_irq == 7 then some (regs, sbi_timer_process m) else none)
    else if mcause == 9
    then some (sbi_ecall_handle ch (regs.a7 % 2 ^ 32) regs m)
    else none

-- The interrupts SSIP, STIP and SEIP, and the exceptions of the list.
unfoldable pub delegate_traps : Machine → Machine
delegate_traps m = record m {
  mideleg = bit_or 0x2 (bit_or 0x20 0x200);
  medeleg =
      2 ^ 0x0
      + 2 ^ 0xc
      + 2 ^ 0x3
      + 2 ^ 0xd
      + 2 ^ 0xf
      + 2 ^ 0x8
      + 2 ^ 0x5
      + 2 ^ 0x7
      + 2 ^ 0x2
      + 2 ^ 0xa
      + 2 ^ 0x15
      + 2 ^ 0x17
      + 2 ^ 0x14;
}
