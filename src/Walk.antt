-- ===== src/Walk.antt =====
-- The walk of the page tables by software, `walk_pgtable` of benos/src/kernel.c, and the entries
-- that a page table holds.
pub mod Supply
pub mod Tree
pub mod Fill
pub mod Paths
pub mod Maps
pub mod Tables
pub mod Pte
pub mod Parts
pub mod Pmd
pub mod Pgd
pub mod Mapping
pub mod Empty
pub mod Devices
pub mod Fault
pub mod Exhausted
pub mod Faults
use risc_v_lab.Base.{ℕ, ◌+◌, ◌*◌, ◌/◌, ◌%◌, ◌^◌, ◌==◌, if◌then◌else◌, ◌||◌}
use risc_v_lab.Pgtable.{
  pgd_offset_raw, get_pmdp_from_pgdp, get_ptep_from_pmdp, pgd_page_paddr, pmd_page_paddr,
}
use risc_v_lab.Mmu.{Words}

-- The pointer to the entry for `address`; 0 is NULL.
unfoldable pub walk_pgtable : ℕ → ℕ → Words → ℕ
walk_pgtable idmap_pg_dir address mem =
    let pgdp = pgd_offset_raw idmap_pg_dir address in
    let pmdp = get_pmdp_from_pgdp (mem pgdp) address in
    let ptep = get_ptep_from_pmdp (mem pmdp) address in
    if (pgdp == 0) || (mem pgdp == 0)
    then 0
    else if (pmdp == 0) || (mem pmdp == 0)
    then 0
    else if (ptep == 0) || (mem ptep == 0)
    then 0
    else ptep

-- The entry `k` of the table under entry `j` of the table at `pmd`, which is 0 if there is none.
unfoldable pub leaf_at : ℕ → Words → ℕ → ℕ → ℕ
leaf_at pmd mem j k =
    if mem (pmd + j * 8) == 0 then 0 else mem (pmd_page_paddr (mem (pmd + j * 8)) + k * 8)

-- The same below entry `i` of the directory.
unfoldable pub entry_at : ℕ → Words → ℕ → ℕ → ℕ → ℕ
unfolding leaf_at
entry_at dir mem i j k =
    if mem (dir + i * 8) == 0 then 0 else leaf_at (pgd_page_paddr (mem (dir + i * 8))) mem j k

-- The entry for a virtual address, by the three parts of its page number.
unfoldable pub entry_for : ℕ → Words → ℕ → ℕ
entry_for dir mem va = entry_at dir mem (va / 2 ^ 30) (va / 2 ^ 21 % 512) (va / 4096 % 512)
