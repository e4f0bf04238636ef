-- ===== src/Walk/Exhausted.antt =====
-- What benos/src/mmu.c does when no page is left for a table: `early_pgtable_alloc` does not look at
-- the result of `get_free_page`.
use risc_v_lab.Base.{ℕ, ◌≤◌, ◌<◌, ◌≡◌, ◌∙◌, ap, refl, inl, inr, arith, ◌==◌, true}
use risc_v_lab.Mm.{pfn_down}
use risc_v_lab.Pgtable.{pmd_page_paddr, pfn_pmd, page_table}
use risc_v_lab.PageAlloc.Get.{IsFree, FirstFit, get_free_page-FirstFit}
use risc_v_lab.Mmu.{Mmu, early_pgtable_alloc, clear_page, set_entry, fill_pmd}

exhausted_alloc :
    (m : Mmu)
    → FirstFit m.alloc
    → ((i : ℕ) → ¬ IsFree m.alloc.mem_map i)
    → early_pgtable_alloc m ≡ (0, record m { mem = clear_page 0 m.mem })
unfolding early_pgtable_alloc
exhausted_alloc m (inl (e, _)) none_free = rw e refl
exhausted_alloc m (inr (i, e, free, _)) none_free = absurd (none_free i free)

-- The entry that names page 0.
link_zero : pfn_pmd (pfn_down 0) page_table ≡ 1
unfolding pfn_pmd pfn_down
link_zero = refl

paddr_one : pmd_page_paddr 1 ≡ 0
unfolding pmd_page_paddr
paddr_one = refl

exhausted_fill :
    (pmdp : ℕ) (m : Mmu)
    → early_pgtable_alloc m ≡ (0, record m { mem = clear_page 0 m.mem })
    → m.mem pmdp ≡ 0
    → fill_pmd early_pgtable_alloc pmdp m ≡ record m { mem = set_entry pmdp 1 (clear_page 0 m.mem) }
unfolding fill_pmd
exhausted_fill pmdp m e empty =
    let test : (m.mem pmdp == 0) ≡ true = ground arith in rw (e, test, link_zero) refl

-- When no page is free and the entry at `pmdp`, outside the first page, is empty, `alloc_init_pte`
-- goes on with the page at address 0 as the new table: the words of that page are cleared and the
-- entry names it, as if a page had been found.
pub fill_pmd-exhausted :
    (pmdp : ℕ) (m : Mmu)
    → ((i : ℕ) → ¬ IsFree m.alloc.mem_map i)
    → 4096 ≤ pmdp
    → m.mem pmdp ≡ 0
    → ((fill_pmd early_pgtable_alloc pmdp m).mem pmdp ≡ 1)
      × (pmd_page_paddr ((fill_pmd early_pgtable_alloc pmdp m).mem pmdp) ≡ 0)
      × ((a : ℕ) → a < 4096 → (fill_pmd early_pgtable_alloc pmdp m).mem a ≡ 0)
unfolding set_entry clear_page
fill_pmd-exhausted pmdp m none_free far empty =
    let alloc = exhausted_alloc m (get_free_page-FirstFit m.alloc) none_free in
    let here : (fill_pmd early_pgtable_alloc pmdp m).mem pmdp ≡ 1 =
      ap (λ m'. m'.mem pmdp) (exhausted_fill pmdp m alloc empty) ∙ ground arith in
    (
      here,
      ap pmd_page_paddr here ∙ paddr_one,
      λ a low. ap (λ m'. m'.mem a) (exhausted_fill pmdp m alloc empty) ∙ ground arith,
    )
