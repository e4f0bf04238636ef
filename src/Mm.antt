-- ===== src/Mm.antt =====
-- The page macros of benos/include/mm.h. `PAGE_SIZE` is an `int`, so `PAGE_MASK` is -4096, which
-- is extended to 64 bits where an address is masked by it.
pub mod Align
use risc_v_lab.Base.{ℕ, ◌+◌, ◌-◌, ◌^◌, bit_and, u64, shr}

abbrev pub page_shift : ℕ
page_shift = 12

abbrev pub page_size : ℕ
page_size = 4096

abbrev pub page_mask : ℕ
page_mask = 2 ^ 64 - 4096

-- PAGE_ALIGN and PAGE_ALIGN_UP
unfoldable pub page_align_up : ℕ → ℕ
page_align_up addr = bit_and (u64 (addr + page_size - 1)) page_mask

-- PAGE_ALIGN_DOWN
unfoldable pub page_align_down : ℕ → ℕ
page_align_down addr = bit_and addr page_mask

-- PFN_DOWN
unfoldable pub pfn_down : ℕ → ℕ
pfn_down x = shr x page_shift
