-- ===== src/Pgtable/Ends.antt =====
-- How far one entry of a table of benos/include/asm/pgtable.h reaches.
use risc_v_lab.Base.{ℕ, ◌+◌, ◌-◌, ◌*◌, ◌/◌, ◌%◌, ◌^◌, ◌≤◌, ◌<◌, ◌≡◌, ◌⊎◌, bit_and, arith}
use risc_v_lab.Base.Bits.{bit_and_high, bit_and_low}
use risc_v_lab.Pgtable.{pgdir_mask, pmd_mask, pgd_addr_end, pmd_addr_end}

pub bit_and-pmd_mask : (a : ℕ) → a < 2 ^ 64 → bit_and a pmd_mask ≡ a / 2 ^ 21 * 2 ^ 21
bit_and-pmd_mask a h = omega (arith, bit_and_high 21 a (2 ^ 43 - 1), bit_and_low 43 (a / 2 ^ 21))

pub bit_and-pgdir_mask : (a : ℕ) → a < 2 ^ 64 → bit_and a pgdir_mask ≡ a / 2 ^ 30 * 2 ^ 30
bit_and-pgdir_mask a h = omega (arith, bit_and_high 30 a (2 ^ 34 - 1), bit_and_low 34 (a / 2 ^ 30))

-- The part of the range from `addr` to `end` that lies in one block of `size` bytes.
abbrev pub IsBlockEnd : ℕ → ℕ → ℕ → ℕ → Type 0
IsBlockEnd size addr end next =
    (addr < next)
    × (next ≤ end)
    × (next ≤ addr / size * size + size)
    × ((next ≡ end) ⊎ (next ≡ addr / size * size + size))

-- `pmd_addr_end` cuts a range that is not empty at the end of the 2 MB of its first entry: the
-- part is not empty, lies in the range and under that entry, and is as long as both allow.
pub pmd_addr_end-IsBlockEnd :
    (addr end : ℕ)
    → addr < end
    → end < 2 ^ 64
    → addr + 2 ^ 21 < 2 ^ 64
    → IsBlockEnd (2 ^ 21) addr end (pmd_addr_end addr end)
unfolding pmd_addr_end
pmd_addr_end-IsBlockEnd addr end lt fits room =
    let mask = bit_and-pmd_mask ((addr + 2 ^ 21) % 2 ^ 64) (omega arith) in ground (arith, mask)

-- `pgd_addr_end` does the same at the end of the 1 GB of the first entry.
pub pgd_addr_end-IsBlockEnd :
    (addr end : ℕ)
    → addr < end
    → end < 2 ^ 64
    → addr + 2 ^ 30 < 2 ^ 64
    → IsBlockEnd (2 ^ 30) addr end (pgd_addr_end addr end)
unfolding pgd_addr_end
pgd_addr_end-IsBlockEnd addr end lt fits room =
    let mask = bit_and-pgdir_mask ((addr + 2 ^ 30) % 2 ^ 64) (omega arith) in ground (arith, mask)
