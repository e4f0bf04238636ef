-- ===== src/Tests/Mmu.antt =====
-- benos/src/mmu.c and benos/include/asm/pgtable.h at concrete tables.
use risc_v_lab.Base.{ℕ, ◌≡◌, refl, ◌==◌, if◌then◌else◌, some, List, [], ◌∷◌}
use mathlib.Core.Option
use risc_v_lab.Mm.{pfn_down, page_align_up, page_align_down}
use risc_v_lab.PageAlloc.{get_free_page}
use risc_v_lab.Pgtable.{
  page_kernel, pfn_pgd, pfn_pmd, pfn_pte, pgd_offset_raw, get_pmdp_from_pgdp, get_ptep_from_pmdp,
  pgd_addr_end, pmd_addr_end,
}
use risc_v_lab.Mmu.{
  Mmu, pgd_loop, alloc_init_pmd, fill_pgd, pmd_loop, pte_loop, early_pgtable_alloc, fill_pmd,
  alloc_init_pte, create_pgd_mapping,
}

-- The table at 0x80010000 has one entry, for the addresses from 0x200000 on: the table at
-- 0x80211000.
abbrev mmu : Mmu
mmu = record {
  mem = λ a. if a == 0x80010008 then 0x20084401 else 0;
  alloc = record { mem_map = 0 ∷ 0 ∷ 0 ∷ []; phy_start_address = 0x80220000 };
}

-- Two pages in a fresh directory: two tables are taken, and the second page has its entry.
mapping_runs :
    Option.map {B = ℕ × List ℕ}
      (λ m. (m.mem 0x80221008, m.alloc.mem_map))
      (create_pgd_mapping early_pgtable_alloc 3 0x80018000 0x10000000 0x10000000 8192 page_kernel
        mmu)
    ≡ some (0x40004e7, 1 ∷ 1 ∷ 0 ∷ [])
unfolding create_pgd_mapping pgd_loop alloc_init_pmd fill_pgd pmd_loop alloc_init_pte fill_pmd
    pte_loop pgd_offset_raw page_align_up page_align_down pgd_addr_end pmd_addr_end
    get_pmdp_from_pgdp get_ptep_from_pmdp pfn_pgd pfn_pmd pfn_pte early_pgtable_alloc get_free_page
    pfn_down
mapping_runs = refl
