-- ===== src/Tests/Walk.antt =====
-- The walk of page tables of benos/src/kernel.c over what benos/src/mmu.c maps, at concrete tables.
use risc_v_lab.Base.{
  ℕ, zero, suc, ◌+◌, ◌*◌, ◌/◌, ◌^◌, ◌<◌, ◌≡◌, refl, arith, ◌==◌, if◌then◌else◌, true, some, [], ◌∷◌,
  lt_of_get_elem?, replicate,
}
use mathlib.Core.Option
use risc_v_lab.Mm.{pfn_down, page_align_up, page_align_down}
use risc_v_lab.PageAlloc.{get_free_page}
use risc_v_lab.Pgtable.{
  page_kernel, pfn_pgd, pfn_pmd, pfn_pte, pgd_offset_raw, get_pmdp_from_pgdp, get_ptep_from_pmdp,
  pgd_addr_end, pmd_addr_end, pmd_page_paddr,
}
use risc_v_lab.PageAlloc.Get.{IsFree}
use risc_v_lab.Mmu.{
  Mmu, Sections, pgd_loop, alloc_init_pmd, fill_pgd, pmd_loop, pte_loop, early_pgtable_alloc,
  fill_pmd, alloc_init_pte, create_pgd_mapping, paging_init,
}
use risc_v_lab.Mmu.Guest.{GuestLayout, cause_store_guest_page_fault, stage2_page_fault}
use risc_v_lab.Walk.{walk_pgtable, entry_for}
use risc_v_lab.Walk.Supply.{IsFreePage}
use risc_v_lab.Walk.Tree.{Role, IsTree}
use risc_v_lab.Walk.Maps.{Maps}
use risc_v_lab.Walk.Pgd.{tables_for}
use risc_v_lab.Walk.Mapping.{found, create_pgd_mapping-Maps, walk_pgtable-entry_for}
use risc_v_lab.Walk.Empty.{IsEmptyDir, only_dir, empty-IsTree}
use risc_v_lab.Walk.Devices.{Spends, is_mmio, identity, paging_init-identity}
use risc_v_lab.Walk.Fault.{fault_prot, stage2_page_fault-served}
use risc_v_lab.Walk.Faults.{serve_faults, entry_after, serve_faults-entries}
use risc_v_lab.Walk.Exhausted.{fill_pmd-exhausted}

-- An empty directory at 0x80018000, and forty free pages.
abbrev fresh : Mmu
fresh = record {
  mem = λ a. 0;
  alloc = record { mem_map = replicate 40 0; phy_start_address = 0x80220000 };
}

fresh-own : ¬ IsFreePage fresh.alloc 0x80018000
fresh-own (i, e, free) = omega (arith, lt_of_get_elem? fresh.alloc.mem_map i 0 free)

fresh-IsEmptyDir : IsEmptyDir 0x80018000 fresh
fresh-IsEmptyDir = record {
  pool = record { positive = omega arith; aligned = refl; low = omega arith };
  page = (omega arith, refl, omega arith);
  own = fresh-own;
  empty = λ i hi. refl;
}

fresh-IsTree : IsTree 0x80018000 (only_dir 0x80018000) fresh
fresh-IsTree = empty-IsTree 0x80018000 fresh fresh-IsEmptyDir

-- Two pages are mapped; the walk finds the entry of the second, and nothing behind it.
walk_runs :
    Option.map {B = ℕ × ℕ}
      (λ m. (
        found (walk_pgtable 0x80018000 0x10001234 m.mem) m.mem,
        walk_pgtable 0x80018000 0x10002000 m.mem,
      ))
      (create_pgd_mapping early_pgtable_alloc 4 0x80018000 0x10000000 0x10000000 8192 page_kernel
        fresh)
    ≡ some (0x40004e7, 0)
unfolding create_pgd_mapping pgd_loop alloc_init_pmd fill_pgd pmd_loop alloc_init_pte fill_pmd
    pte_loop pgd_offset_raw page_align_up page_align_down pgd_addr_end pmd_addr_end
    get_pmdp_from_pgdp get_ptep_from_pmdp pfn_pgd pfn_pmd pfn_pte early_pgtable_alloc get_free_page
    pfn_down walk_pgtable
walk_runs = refl

create_pgd_mapping-Maps_example :
    (m' : Mmu) × (create_pgd_mapping early_pgtable_alloc 4 0x80018000 0x10000000 0x10000000 8192
        page_kernel fresh
      ≡ some m')
    × Maps 0x80018000
        (0x10000000 / 4096 * 4096)
        ((0x10000000 + 8192 + 4095) / 4096 * 4096)
        (0x10000000 / 4096 * 4096)
        page_kernel
        (tables_for (0x10000000 / 4096 * 4096) ((0x10000000 + 8192 + 4095) / 4096 * 4096))
        fresh
        m'
create_pgd_mapping-Maps_example =
    create_pgd_mapping-Maps 4 0x80018000 0x10000000 0x10000000 8192 page_kernel
      (only_dir 0x80018000) fresh fresh-IsTree (omega arith) (omega arith) (omega arith)
      (omega arith) (omega arith)

-- What is known of the memory after this mapping.
abbrev mapping :
    (m' : Mmu) × (create_pgd_mapping early_pgtable_alloc 4 0x80018000 0x10000000 0x10000000 8192
        page_kernel fresh
      ≡ some m')
    × Maps 0x80018000 0x10000000 0x10002000 0x10000000 page_kernel 2 fresh m'
mapping =
    create_pgd_mapping-Maps 4 0x80018000 0x10000000 0x10000000 8192 page_kernel
      (only_dir 0x80018000) fresh fresh-IsTree (omega arith) (omega arith) (omega arith)
      (omega arith) (omega arith)

abbrev mapped : Mmu
mapped = mapping.0

walk_pgtable-entry_for_example :
    found (walk_pgtable 0x80018000 0x10001234 mapped.mem) mapped.mem
    ≡ entry_for 0x80018000 mapped.mem 0x10001234
walk_pgtable-entry_for_example =
    walk_pgtable-entry_for 0x80018000 0x10001234 mapping.2.grows.role mapped mapping.2.grows.tree
      (omega arith)

abbrev layout : Sections
layout = record { idmap_pg_dir = 0x80018000; text_boot = 0x80200000; etext = 0x80208000 }

paging_init-identity_example :
    (m' : Mmu) × (paging_init true layout fresh ≡ some m')
    × (role : ℕ → Role) × IsTree 0x80018000 role m'
    × Spends 37 fresh m'
    × ((va : ℕ)
        → va < 2 ^ 39
        → found (walk_pgtable 0x80018000 va m'.mem) m'.mem
          ≡ (if is_mmio true va then identity va else 0))
paging_init-identity_example = paging_init-identity true layout fresh fresh-IsEmptyDir (omega arith)

abbrev vm : GuestLayout
vm = record {
  hs_pg_dir = 0x80018000;
  vs_page_table_dir = 0x8001c000;
  text_boot = 0x80200000;
  etext = 0x80208000;
}

stage2_page_fault-served_example :
    (m' : Mmu) × (stage2_page_fault vm (0x80001236 / 4) 0x2 cause_store_guest_page_fault fresh
      ≡ some m')
    × ((va : ℕ)
        → va < 2 ^ 39
        → found (walk_pgtable 0x80018000 va m'.mem) m'.mem ≡ (
            if va / 4096 == 0x80001236 / 4096
            then pfn_pte (pfn_down va) (fault_prot cause_store_guest_page_fault)
            else found (walk_pgtable 0x80018000 va fresh.mem) fresh.mem))
    × (role' : ℕ → Role) × IsTree 0x80018000 role' m'
    × Spends 2 fresh m'
stage2_page_fault-served_example =
    stage2_page_fault-served vm 0x80001236 0x2 cause_store_guest_page_fault (only_dir 0x80018000)
      fresh (omega arith) refl fresh-IsTree (omega arith)

-- No page is left.
abbrev used_up : Mmu
used_up = record {
  mem = λ a. if a == 8 then 5 else 0;
  alloc = record { mem_map = 1 ∷ 1 ∷ []; phy_start_address = 0x80220000 };
}

none_left : (i : ℕ) → ¬ IsFree used_up.alloc.mem_map i
none_left = elim [
  | zero ↦ λ e. ground arith
  | suc i ↦ elim i [ zero ↦ λ e. ground arith | suc j ↦ λ e. ground arith ]
]

fill_pmd-exhausted_example :
    ((fill_pmd early_pgtable_alloc 0x80010008 used_up).mem 0x80010008 ≡ 1)
    × (pmd_page_paddr ((fill_pmd early_pgtable_alloc 0x80010008 used_up).mem 0x80010008) ≡ 0)
    × ((a : ℕ) → a < 4096 → (fill_pmd early_pgtable_alloc 0x80010008 used_up).mem a ≡ 0)
fill_pmd-exhausted_example = fill_pmd-exhausted 0x80010008 used_up none_left (omega arith) refl

-- A guest starts, stores and loads: three faults on two pages.
serve_faults-entries_example :
    (m' : Mmu) × (serve_faults vm
        ((0x80200000, 0x14) ∷ (0x80300008, 0x17) ∷ (0x80300010, 0x15) ∷ [])
        fresh
      ≡ some m')
    × ((va : ℕ)
        → va < 2 ^ 39
        → found (walk_pgtable vm.hs_pg_dir va m'.mem) m'.mem
          ≡ entry_after
              ((0x80200000, 0x14) ∷ (0x80300008, 0x17) ∷ (0x80300010, 0x15) ∷ [])
              va
              (found (walk_pgtable vm.hs_pg_dir va fresh.mem) fresh.mem))
    × (role' : ℕ → Role) × IsTree vm.hs_pg_dir role' m'
serve_faults-entries_example =
    serve_faults-entries vm ((0x80200000, 0x14) ∷ (0x80300008, 0x17) ∷ (0x80300010, 0x15) ∷ [])
      (only_dir 0x80018000) fresh fresh-IsTree (omega arith, (omega arith, (omega arith, tt)))
      (omega arith)
