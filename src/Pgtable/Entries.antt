-- ===== src/Pgtable/Entries.antt =====
-- What an entry of benos/include/asm/pgtable.h stores can be read back.
use risc_v_lab.Base.{ℕ, ◌+◌, ◌-◌, ◌*◌, ◌/◌, ◌%◌, ◌^◌, ◌<◌, ◌≡◌, bit_and, arith}
use risc_v_lab.Base.Bits.{bit_and_low, bit_or_low}
use risc_v_lab.Mm.{pfn_down}
use risc_v_lab.Pgtable.{pfn_pte, pmd_page_paddr}

-- The entry for page number `pfn`.
pub pfn_pte_lem :
    (pfn prot : ℕ) → pfn < 2 ^ 44 → prot < 2 ^ 10 → pfn_pte pfn prot ≡ pfn * 1024 + prot
unfolding pfn_pte
pfn_pte_lem pfn prot small low =
    let fits : pfn * 1024 % 2 ^ 64 ≡ pfn * 1024 = omega arith in
    rw fits (bit_or_low 10 pfn prot low)

-- An entry of a page table stores an address and protection bits: for a page below 2 ^ 56 and bits
-- below 2 ^ 10, the walk of the next level finds the page again, and the lowest ten bits of the
-- entry are the protection bits.
pub pmd_page_paddr-pfn_pte :
    (p prot : ℕ)
    → p < 2 ^ 56
    → p % 4096 ≡ 0
    → prot < 2 ^ 10
    → (pmd_page_paddr (pfn_pte (pfn_down p) prot) ≡ p)
      × (bit_and (pfn_pte (pfn_down p) prot) (2 ^ 10 - 1) ≡ prot)
unfolding pmd_page_paddr pfn_down
pmd_page_paddr-pfn_pte p prot small aligned low =
    let entry = pfn_pte_lem (p / 4096) prot (omega arith) low in
    (omega (arith, entry), omega (arith, entry, bit_and_low 10 (pfn_pte (p / 4096) prot)))
