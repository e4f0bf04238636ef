-- ===== src/Mmu.antt =====
-- The page tables that benos/src/mmu.c builds, over a memory of 64-bit words that is known by its
-- addresses, and the page allocator.
pub mod Ptes
pub mod Returns
pub mod Paging
pub mod Guest
use risc_v_lab.Base.{
  ℕ, zero, suc, ◌+◌, ◌-◌, ◌*◌, ◌^◌, ◌==◌, if◌then◌else◌, Bool, ◌&&◌, leb, ltb, Option, none, some,
  ◌>>=◌, u64, sub64,
}
use risc_v_lab.Mm.{page_size, page_align_up, page_align_down, pfn_down}
use risc_v_lab.PageAlloc.{PageAlloc, get_free_page, ddr_end}
use risc_v_lab.Pgtable.{
  page_table, page_kernel, page_kernel_read_exec, pgd_offset_raw, pgd_addr_end, pmd_addr_end,
  get_pmdp_from_pgdp, get_ptep_from_pmdp, pfn_pgd, pfn_pmd, pfn_pte,
}

abbrev pub Words : Type 0
Words = ℕ → ℕ

pub record Mmu : Type 0 where
  pub mem : Words
  pub alloc : PageAlloc

-- set_pgd, set_pmd and set_pte
unfoldable pub set_entry : ℕ → ℕ → Words → Words
set_entry p v mem a = if a == p then v else mem a

-- memset(phys, 0, PAGE_SIZE)
unfoldable pub clear_page : ℕ → Words → Words
clear_page phys mem a = if leb phys a && ltb a (phys + page_size) then 0 else mem a

unfoldable pub early_pgtable_alloc : Mmu → ℕ × Mmu
unfolding clear_page
early_pgtable_alloc m =
    let (phys, alloc) = get_free_page m.alloc in
    (phys, record { mem = clear_page phys m.mem; alloc = alloc })

-- The loop of `alloc_init_pte`, whose body runs at least once; `none` is a lack of fuel.
unfoldable pub pte_loop : ℕ → ℕ → ℕ → ℕ → ℕ → ℕ → Words → Option Words
unfolding set_entry
pte_loop zero ptep addr end phys prot mem = none
pte_loop (suc fuel) ptep addr end phys prot mem =
    let mem' = set_entry ptep (pfn_pte (pfn_down phys) prot) mem in
    let addr' = u64 (addr + page_size) in
    let rest = pte_loop fuel (u64 (ptep + 8)) addr' end (u64 (phys + page_size)) prot mem' in
    if addr' == end then some mem' else rest

-- The allocator of tables is an argument, as in C.
module _ (alloc_pgtable : Mmu → ℕ × Mmu) where
  -- The entry at `pmdp` gets a table if it has none.
  unfoldable pub fill_pmd : ℕ → Mmu → Mmu
  unfolding set_entry
  fill_pmd pmdp m =
      let (pte_phys, m1) = alloc_pgtable m in
      if m.mem pmdp == 0
      then record m1 { mem = set_entry pmdp (pfn_pmd (pfn_down pte_phys) page_table) m1.mem }
      else m

  unfoldable pub alloc_init_pte : ℕ → ℕ → ℕ → ℕ → ℕ → ℕ → Mmu → Option Mmu
  alloc_init_pte fuel pmdp addr end phys prot m =
      let m1 = fill_pmd pmdp m in
      elim (pte_loop fuel (get_ptep_from_pmdp (m1.mem pmdp) addr) addr end phys prot m1.mem) [
        | none ↦ none
        | some mem ↦ some (record m1 { mem = mem })
      ]

  unfoldable pub fill_pgd : ℕ → Mmu → Mmu
  unfolding set_entry
  fill_pgd pgdp m =
      let (pmd_phys, m1) = alloc_pgtable m in
      if m.mem pgdp == 0
      then record m1 { mem = set_entry pgdp (pfn_pgd (pfn_down pmd_phys) page_table) m1.mem }
      else m

  -- The loop of `alloc_init_pmd`; each table is given the same fuel.
  unfoldable pub pmd_loop : ℕ → ℕ → ℕ → ℕ → ℕ → ℕ → ℕ → Mmu → Option Mmu
  pmd_loop tables zero pmdp addr end phys prot m = none
  pmd_loop tables (suc fuel) pmdp addr end phys prot m =
      let next = pmd_addr_end addr end in
      elim (alloc_init_pte tables pmdp addr next phys prot m) [
        | none ↦ none
        | some m1 ↦
            let rest =
              pmd_loop tables fuel (u64 (pmdp + 8)) next end (u64 (phys + sub64 next addr)) prot
                m1 in
            if next == end then some m1 else rest
      ]

  unfoldable pub alloc_init_pmd : ℕ → ℕ → ℕ → ℕ → ℕ → ℕ → Mmu → Option Mmu
  alloc_init_pmd fuel pgdp addr end phys prot m =
      let m1 = fill_pgd pgdp m in
      pmd_loop fuel fuel (get_pmdp_from_pgdp (m1.mem pgdp) addr) addr end phys prot m1

  -- The loop of `__create_pgd_mapping`.
  unfoldable pub pgd_loop : ℕ → ℕ → ℕ → ℕ → ℕ → ℕ → ℕ → Mmu → Option Mmu
  pgd_loop tables zero pgdp addr end phys prot m = none
  pgd_loop tables (suc fuel) pgdp addr end phys prot m =
      let next = pgd_addr_end addr end in
      elim (alloc_init_pmd tables pgdp addr next phys prot m) [
        | none ↦ none
        | some m1 ↦
            let rest =
              pgd_loop tables fuel (u64 (pgdp + 8)) next end (u64 (phys + sub64 next addr)) prot
                m1 in
            if next == end then some m1 else rest
      ]

  -- __create_pgd_mapping
  unfoldable pub create_pgd_mapping : ℕ → ℕ → ℕ → ℕ → ℕ → ℕ → Mmu → Option Mmu
  create_pgd_mapping fuel pgdir phys virt size prot m =
      let addr = page_align_down virt in
      let end = page_align_up (u64 (virt + size)) in
      pgd_loop fuel fuel (pgd_offset_raw pgdir virt) addr end (page_align_down phys) prot m

-- Addresses that the linker chooses.
pub record Sections : Type 0 where
  pub idmap_pg_dir : ℕ
  pub text_boot : ℕ
  pub etext : ℕ

-- 2 ^ 18 rounds are enough for each level of a mapping below 1 GB.
abbrev pub rounds : ℕ
rounds = 2 ^ 18

-- One call of `create_identical_mapping` or `create_mmio_mapping`: a range mapped to itself.
abbrev pub map_identical : Sections → ℕ → ℕ → ℕ → Mmu → Option Mmu
map_identical s start size prot m =
    create_pgd_mapping early_pgtable_alloc rounds s.idmap_pg_dir start start size prot m

unfoldable pub create_identical_mapping : Sections → Mmu → Option Mmu
create_identical_mapping s m = do
  m1 ← map_identical s s.text_boot (sub64 s.etext s.text_boot) page_kernel_read_exec m
  map_identical s (page_align_up s.etext) (sub64 ddr_end (page_align_up s.etext)) page_kernel m1

-- PLIC_BASE, VIRT_CLINT_ADDR and UART, with their sizes; `qemu` is CONFIG_BOARD_QEMU.
unfoldable pub create_mmio_mapping : Bool → Sections → Mmu → Option Mmu
create_mmio_mapping qemu s m = do
  m1 ← if qemu then map_identical s 0xc000000 (0x10000000 - 0xc000000) page_kernel m else some m
  m2 ← map_identical s 0x2000000 0x10000 page_kernel m1
  map_identical s 0x10000000 4096 page_kernel m2

unfoldable pub paging_init : Bool → Sections → Mmu → Option Mmu
unfolding create_mmio_mapping
paging_init qemu s m = create_mmio_mapping qemu s m
