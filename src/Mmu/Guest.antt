-- ===== src/Mmu/Guest.antt =====
-- The tables for guests: benos/src/stage2_mmu.c, from the guest's addresses to the host's, and
-- benos/virt/vs_mmu.c, the guest's own. The latter repeats the functions of benos/src/mmu.c.
use risc_v_lab.Base.{
  ℕ, ◌*◌, ◌/◌, ◌%◌, ◌^◌, ◌<◌, ◌≡◌, ◌∙◌, ap, arith, ◌==◌, if◌then◌else◌, Option, some, ◌>>=◌,
  bit_and, bit_or, shr, shl64, sub64,
}
use risc_v_lab.Base.Bits.{bit_or_low, bit_and_low}
use risc_v_lab.Mm.{page_mask, page_shift, page_align_up}
use risc_v_lab.Mm.Align.{bit_and-page_mask}
use risc_v_lab.PageAlloc.{ddr_end}
use risc_v_lab.Pgtable.{page_kernel, page_kernel_read_exec, prot_read_exec, prot_write_exec}
use risc_v_lab.Mmu.{Mmu, early_pgtable_alloc, create_pgd_mapping, rounds}
use risc_v_lab.Mmu.Paging.{create_pgd_mapping-returns}

-- Addresses that the linker chooses.
pub record GuestLayout : Type 0 where
  pub hs_pg_dir : ℕ
  pub vs_page_table_dir : ℕ
  pub text_boot : ℕ
  pub etext : ℕ

unfoldable pub set_stage2_page_mapping : GuestLayout → ℕ → ℕ → ℕ → ℕ → Mmu → Option Mmu
set_stage2_page_mapping l gpa hpa size prot m =
    create_pgd_mapping early_pgtable_alloc rounds l.hs_pg_dir hpa gpa size prot m

unfoldable pub setup_hg_page_table : GuestLayout → ℕ → ℕ → ℕ → ℕ → Mmu → Option Mmu
setup_hg_page_table l gpa hpa size prot m =
    create_pgd_mapping early_pgtable_alloc rounds l.hs_pg_dir hpa gpa size prot m

-- The value that `write_stage2_pg_reg` writes to hgatp.
unfoldable pub write_stage2_pg_reg : GuestLayout → ℕ
write_stage2_pg_reg l = bit_or (shr l.hs_pg_dir page_shift) (8 * 2 ^ 60)

abbrev pub cause_store_guest_page_fault : ℕ
cause_store_guest_page_fault = 0x17

-- The guest's address that faulted, from htval and stval.
unfoldable pub fault_addr : ℕ → ℕ → ℕ
fault_addr htval stval = bit_or (shl64 htval 2) (bit_and stval 3)

-- The registers htval, stval and scause are arguments.
unfoldable pub stage2_page_fault : GuestLayout → ℕ → ℕ → ℕ → Mmu → Option Mmu
stage2_page_fault l htval stval scause m =
    let page = bit_and (fault_addr htval stval) page_mask in
    setup_hg_page_table l page page 4096
      (if scause == cause_store_guest_page_fault then prot_write_exec else prot_read_exec) m

-- __create_vs_pgd_mapping
unfoldable pub create_vs_pgd_mapping : ℕ → ℕ → ℕ → ℕ → ℕ → ℕ → Mmu → Option Mmu
create_vs_pgd_mapping fuel pgdir phys virt size prot m =
    create_pgd_mapping early_pgtable_alloc fuel pgdir phys virt size prot m

unfoldable pub set_vs_mapping_page : GuestLayout → ℕ → ℕ → Mmu → Option Mmu
set_vs_mapping_page l gva gpa m =
    create_vs_pgd_mapping rounds l.vs_page_table_dir gpa gva 4096 page_kernel m

-- With the value that is written to satp.
unfoldable pub vs_paging_init : GuestLayout → Mmu → Option (ℕ × Mmu)
vs_paging_init l m = do
  m1 ←
      create_vs_pgd_mapping rounds l.vs_page_table_dir l.text_boot l.text_boot
        (sub64 l.etext l.text_boot) page_kernel_read_exec m
  m2 ←
      create_vs_pgd_mapping rounds l.vs_page_table_dir (page_align_up l.etext)
        (page_align_up l.etext) (sub64 ddr_end (page_align_up l.etext)) page_kernel m1
  m3 ← create_vs_pgd_mapping rounds l.vs_page_table_dir 0x10000000 0x10000000 4096 page_kernel m2
  m4 ← create_vs_pgd_mapping rounds l.vs_page_table_dir 0x2000000 0x2000000 0x10000 page_kernel m3
  some (bit_or (shr l.vs_page_table_dir page_shift) (2 ^ 63), m4)

-- htval holds the address without its lowest two bits, which are those of stval.
fault_addr_lem :
    (gpa stval : ℕ) → gpa < 2 ^ 63 → stval % 4 ≡ gpa % 4 → fault_addr (gpa / 4) stval ≡ gpa
unfolding fault_addr
fault_addr_lem gpa stval fits low =
    let digits = bit_and_low 2 stval in
    let shifted : shl64 (gpa / 4) 2 ≡ gpa / 4 * 4 = omega arith in
    rw (shifted, digits) (omega (arith, bit_or_low 2 (gpa / 4) (stval % 4) (omega arith)))

-- `stage2_page_fault`, for a guest address below 2 ^ 62 as the hardware reports it in htval and
-- stval, always returns, and maps exactly the page of this address to itself, writable after a
-- store and read-only otherwise.
pub stage2_page_fault-maps :
    (l : GuestLayout) (gpa stval scause : ℕ) (m : Mmu)
    → gpa < 2 ^ 62
    → stval % 4 ≡ gpa % 4
    → (m' : Mmu) × (stage2_page_fault l (gpa / 4) stval scause m ≡ some m')
      × (set_stage2_page_mapping l
            (gpa / 4096 * 4096)
            (gpa / 4096 * 4096)
            4096
            (if scause == cause_store_guest_page_fault then prot_write_exec else prot_read_exec)
            m
          ≡ some m')
unfolding stage2_page_fault setup_hg_page_table set_stage2_page_mapping
stage2_page_fault-maps l gpa stval scause m small low =
    let prot = if scause == cause_store_guest_page_fault then prot_write_exec else prot_read_exec in
    let page : bit_and (fault_addr (gpa / 4) stval) page_mask ≡ gpa / 4096 * 4096 =
      ap (λ a. bit_and a page_mask) (fault_addr_lem gpa stval (omega arith) low)
      ∙ bit_and-page_mask gpa (omega arith) in
    let (m', runs) =
      create_pgd_mapping-returns early_pgtable_alloc rounds l.hs_pg_dir (gpa / 4096 * 4096)
        (gpa / 4096 * 4096) 4096 prot m (omega arith) (omega arith) (omega arith) in
    (
      m',
      ap (λ q. create_pgd_mapping early_pgtable_alloc rounds l.hs_pg_dir q q 4096 prot m) page
          ∙ runs,
      runs,
    )
