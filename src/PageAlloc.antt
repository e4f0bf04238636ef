-- ===== src/PageAlloc.antt =====
-- The page allocator of benos/src/page_alloc.c: `mem_map` holds one entry for each of `NR_PAGES`
-- pages that follow `phy_start_address`; 0 is free.
pub mod Get
pub mod Free
pub mod Init
pub mod Clients
use risc_v_lab.Base.{
  ℕ, zero, suc, ◌+◌, ◌-◌, ◌*◌, ◌/◌, ◌≡◌, ◌<◌, ◌%◌, ◌^◌, ◌==◌, if◌then◌else◌, ltb, Option, none,
  some, List, [], ◌∷◌, length, get_elem?, set, u64, sub64,
}
use risc_v_lab.Mm.{page_size, page_align_up, page_align_down}

-- include/asm/memory.h
abbrev pub ddr_base : ℕ
ddr_base = 0x80000000

abbrev pub total_memory : ℕ
total_memory = 16 * 0x100000

abbrev pub ddr_end : ℕ
ddr_end = ddr_base + total_memory

abbrev pub nr_pages : ℕ
nr_pages = total_memory / page_size

-- The static variables of the file.
pub record PageAlloc : Type 0 where
  pub mem_map : List ℕ
  pub phy_start_address : ℕ

-- The `for` loop of `get_free_page`, from index `i` on: the first entry that is 0. The array has
-- `NR_PAGES` entries, so the loop over the indices is the recursion on the list.
pub find_free : ℕ → List ℕ → Option ℕ
find_free i [] = none
find_free i (m ∷ ms) = if m == 0 then some i else find_free (i + 1) ms

-- The address is 0 if no entry is free.
unfoldable pub get_free_page : PageAlloc → ℕ × PageAlloc
unfolding find_free
get_free_page s = elim (find_free 0 s.mem_map) [
  | none ↦ (0, s)
  | some i ↦ (u64 (s.phy_start_address + i * page_size), record s { mem_map = set s.mem_map i 1 })
]

-- `none` is a write beyond the array, which C leaves undefined.
unfoldable pub free_page : ℕ → PageAlloc → Option PageAlloc
free_page p s =
    let index = sub64 p s.phy_start_address / page_size in
    if ltb index (length s.mem_map)
    then some (record s { mem_map = set s.mem_map index 0 })
    else none

-- The `while` loop of `mem_init`, which counts the pages; `none` is a lack of fuel.
pub count_pages : ℕ → ℕ → ℕ → ℕ → Option ℕ
count_pages zero start_mem end_mem nr_free_pages = none
count_pages (suc fuel) start_mem end_mem nr_free_pages =
    let rest = count_pages fuel (u64 (start_mem + page_size)) end_mem (nr_free_pages + 1) in
    if ltb start_mem end_mem then rest else some nr_free_pages

-- What `mem_init` prints.
pub record MemReport : Type 0 where
  pub free_kb : ℕ
  pub nr_free_pages : ℕ
  pub start : ℕ

-- The fuel is the number of pages below `end_mem`, and one more.
unfoldable pub mem_init : ℕ → ℕ → PageAlloc → Option (MemReport × PageAlloc)
unfolding count_pages
mem_init start_mem end_mem s =
    let first = page_align_up start_mem in
    let last = page_align_down end_mem in
    let free = sub64 last first in
    elim (count_pages (last / page_size + 2) first last 0) [
      | none ↦ none
      | some n ↦ some (
        record { free_kb = free / 1024; nr_free_pages = n; start = first },
        record s { phy_start_address = first },
      )
    ]
