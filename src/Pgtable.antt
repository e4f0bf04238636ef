-- ===== src/Pgtable.antt =====
-- The entries of the page tables: benos/include/asm/pgtable.h and pgtable_hwdef.h. An entry is a
-- number of 64 bits: the page's number from bit 10 on, and the protection bits below.
pub mod Entries
pub mod Ends
use risc_v_lab.Base.{
  ℕ, ◌+◌, ◌-◌, ◌*◌, ◌/◌, ◌^◌, ◌==◌, Bool, not, ◌&&◌, bit_and, bit_or, if◌then◌else◌, ltb, u64,
  sub64, shl64, shr, not64,
}

abbrev pub pgdir_shift : ℕ
pgdir_shift = 30

abbrev pub pgdir_size : ℕ
pgdir_size = 2 ^ pgdir_shift

abbrev pub pgdir_mask : ℕ
pgdir_mask = not64 (pgdir_size - 1)

abbrev pub pmd_shift : ℕ
pmd_shift = 21

abbrev pub pmd_size : ℕ
pmd_size = 2 ^ pmd_shift

abbrev pub pmd_mask : ℕ
pmd_mask = not64 (pmd_size - 1)

abbrev pub pte_shift : ℕ
pte_shift = 12

-- PTRS_PER_PGD, PTRS_PER_PMD and PTRS_PER_PTE
abbrev pub ptrs_per_table : ℕ
ptrs_per_table = 512

abbrev pub page_pfn_shift : ℕ
page_pfn_shift = 10

abbrev pub page_present : ℕ
page_present = 0x01

abbrev pub page_read : ℕ
page_read = 0x02

abbrev pub page_write : ℕ
page_write = 0x04

abbrev pub page_exec : ℕ
page_exec = 0x08

abbrev pub page_user : ℕ
page_user = 0x10

abbrev pub page_global : ℕ
page_global = 0x20

abbrev pub page_accessed : ℕ
page_accessed = 0x40

abbrev pub page_dirty : ℕ
page_dirty = 0x80

abbrev pub page_table : ℕ
page_table = page_present

abbrev pub page_leaf : ℕ
page_leaf = bit_or page_read (bit_or page_write page_exec)

-- _PAGE_BASE
abbrev pub page_base : ℕ
page_base = bit_or page_present (bit_or page_accessed page_user)

-- PAGE_READ_EXEC and PAGE_WRITE_EXEC
abbrev pub prot_read_exec : ℕ
prot_read_exec = bit_or page_base (bit_or page_read page_exec)

abbrev pub prot_write_exec : ℕ
prot_write_exec = bit_or page_base (bit_or page_read (bit_or page_exec page_write))

abbrev pub page_kernel : ℕ
page_kernel =
    bit_or page_read (
      bit_or page_write
        (bit_or page_present (bit_or page_accessed (bit_or page_dirty page_global))))

abbrev pub page_kernel_read_exec : ℕ
page_kernel_read_exec = bit_or (bit_and page_kernel (not64 page_write)) page_exec

unfoldable pub pgd_index : ℕ → ℕ
pgd_index addr = bit_and (shr addr pgdir_shift) (ptrs_per_table - 1)

unfoldable pub pmd_index : ℕ → ℕ
pmd_index addr = bit_and (shr addr pmd_shift) (ptrs_per_table - 1)

unfoldable pub pte_index : ℕ → ℕ
pte_index addr = bit_and (shr addr pte_shift) (ptrs_per_table - 1)

-- Entries take 8 bytes.
unfoldable pub pgd_offset_raw : ℕ → ℕ → ℕ
unfolding pgd_index
pgd_offset_raw pgd addr = u64 (pgd + pgd_index addr * 8)

-- The comparison with the end is made between the last addresses.
unfoldable pub pgd_addr_end : ℕ → ℕ → ℕ
pgd_addr_end addr end =
    let boundary = bit_and (u64 (addr + pgdir_size)) pgdir_mask in
    if ltb (sub64 boundary 1) (sub64 end 1) then boundary else end

unfoldable pub pmd_addr_end : ℕ → ℕ → ℕ
pmd_addr_end addr end =
    let boundary = bit_and (u64 (addr + pmd_size)) pmd_mask in
    if ltb (sub64 boundary 1) (sub64 end 1) then boundary else end

unfoldable pub pgd_page_paddr : ℕ → ℕ
pgd_page_paddr pgd = shl64 (shr pgd page_pfn_shift) pte_shift

unfoldable pub pmd_page_paddr : ℕ → ℕ
pmd_page_paddr pmd = shl64 (shr pmd page_pfn_shift) pte_shift

-- The second argument is the entry at `pgdp` (`pmdp`).
unfoldable pub get_pmdp_from_pgdp : ℕ → ℕ → ℕ
unfolding pmd_index pgd_page_paddr
get_pmdp_from_pgdp pgd va = u64 (pgd_page_paddr pgd + pmd_index va * 8)

unfoldable pub get_ptep_from_pmdp : ℕ → ℕ → ℕ
unfolding pte_index pmd_page_paddr
get_ptep_from_pmdp pmd va = u64 (pmd_page_paddr pmd + pte_index va * 8)

unfoldable pub pfn_pgd : ℕ → ℕ → ℕ
pfn_pgd pfn prot = bit_or (shl64 pfn page_pfn_shift) prot

unfoldable pub pfn_pmd : ℕ → ℕ → ℕ
pfn_pmd pfn prot = bit_or (shl64 pfn page_pfn_shift) prot

unfoldable pub pfn_pte : ℕ → ℕ → ℕ
pfn_pte pfn prot = bit_or (shl64 pfn page_pfn_shift) prot

-- The flags of an entry: the C functions return the bit itself.
unfoldable pub pmd_present : ℕ → ℕ
pmd_present pmd = bit_and pmd page_present

unfoldable pub pmd_leaf : ℕ → Bool
unfolding pmd_present
pmd_leaf pmd = not (pmd_present pmd == 0) && not (bit_and pmd page_leaf == 0)

unfoldable pub pte_write : ℕ → ℕ
pte_write pte = bit_and pte page_write

unfoldable pub pte_exec : ℕ → ℕ
pte_exec pte = bit_and pte page_exec

unfoldable pub pte_dirty : ℕ → ℕ
pte_dirty pte = bit_and pte page_dirty

unfoldable pub pte_young : ℕ → ℕ
pte_young pte = bit_and pte page_accessed

unfoldable pub pte_wrprotect : ℕ → ℕ
pte_wrprotect pte = bit_and pte (not64 page_write)

unfoldable pub pte_mkwrite : ℕ → ℕ
pte_mkwrite pte = bit_or pte page_write

unfoldable pub pte_mkdirty : ℕ → ℕ
pte_mkdirty pte = bit_or pte page_dirty

unfoldable pub pte_mkclean : ℕ → ℕ
pte_mkclean pte = bit_and pte (not64 page_dirty)

unfoldable pub pte_mkyoung : ℕ → ℕ
pte_mkyoung pte = bit_or pte page_accessed
