-- ===== src/Mm/Align.antt =====
-- What the page macros of benos/include/mm.h compute.
use risc_v_lab.Base.{ℕ, ◌+◌, ◌-◌, ◌*◌, ◌/◌, ◌%◌, ◌^◌, ◌≤◌, ◌<◌, ◌≡◌, bit_and, arith}
use risc_v_lab.Base.Bits.{bit_and_high, bit_and_low}
use risc_v_lab.Mm.{page_mask, page_align_up, page_align_down}

-- Masking by `PAGE_MASK` cuts the offset within the page off.
pub bit_and-page_mask : (a : ℕ) → a < 2 ^ 64 → bit_and a page_mask ≡ a / 4096 * 4096
bit_and-page_mask a h = omega (arith, bit_and_high 12 a (2 ^ 52 - 1), bit_and_low 52 (a / 4096))

pub page_align_down_lem : (a : ℕ) → a < 2 ^ 64 → page_align_down a ≡ a / 4096 * 4096
unfolding page_align_down
page_align_down_lem a h = bit_and-page_mask a h

pub page_align_up_lem : (a : ℕ) → a + 4095 < 2 ^ 64 → page_align_up a ≡ (a + 4095) / 4096 * 4096
unfolding page_align_up
page_align_up_lem a h = omega (arith, bit_and-page_mask ((a + 4096 - 1) % 2 ^ 64) (omega arith))

-- The two alignment macros round to the page boundaries next to an address: `PAGE_ALIGN_DOWN`
-- gives the greatest multiple of 4096 that is at most the address, and `PAGE_ALIGN_UP` the least
-- one that is at least the address, for an address whose rounding does not pass 2 ^ 64.
pub page_align_bounds :
    (a : ℕ)
    → a + 4095 < 2 ^ 64
    → (page_align_down a % 4096 ≡ 0)
      × (page_align_down a ≤ a)
      × (a < page_align_down a + 4096)
      × (page_align_up a % 4096 ≡ 0)
      × (a ≤ page_align_up a)
      × (page_align_up a < a + 4096)
page_align_bounds a h = omega (arith, page_align_down_lem a (omega arith), page_align_up_lem a h)
