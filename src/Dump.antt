-- ===== src/Dump.antt =====
-- The dump of a page table: benos/src/dump_pgtable.c, over the memory of words of `Mmu`. A walk is
-- the list of the calls of `print_pgtable` that it makes. `none` is a lack of fuel.
pub mod Tiles
pub mod Units
use risc_v_lab.Base.{
  ℕ, zero, suc, ◌+◌, ◌-◌, ◌/◌, ◌%◌, ◌^◌, ◌==◌, if◌then◌else◌, ◌||◌, Bool, bit_and, bit_or, u64,
  sub64, shr, Option, none, some, ◌>>=◌, List, [], ◌∷◌, ◌++◌, map,
}
use risc_v_lab.Mm.{page_align_down, page_align_up}
use risc_v_lab.PageAlloc.{ddr_end}
use risc_v_lab.Pgtable.{
  page_present, page_read, page_write, page_exec, page_user, page_global, page_accessed, page_dirty,
  pgd_offset_raw, pgd_addr_end, pmd_addr_end, get_pmdp_from_pgdp, get_ptep_from_pmdp, pmd_leaf,
}
use risc_v_lab.Mmu.{Words}

-- A call of `print_pgtable`: the range, the level (0, 1 or 2) and the entry.
pub record Call : Type 0 where
  pub start : ℕ
  pub end : ℕ
  pub level : ℕ
  pub val : ℕ

abbrev pub page_soft : ℕ
page_soft = 0x100

-- The masks of `pte_bits`, which are their values too; all three levels have them.
abbrev pub pte_bits : List ℕ
pte_bits =
    page_soft ∷ page_dirty ∷ page_accessed ∷ page_global ∷ page_user ∷ page_exec ∷ page_write
    ∷ page_read ∷ page_present ∷ []

-- For each field of the entry whether its mark or its blank is printed.
unfoldable pub dump_prot : ℕ → List ℕ → List Bool
dump_prot prot [] = []
dump_prot prot (mask ∷ bits) = (bit_and prot mask == mask) ∷ dump_prot prot bits

-- The mask of a level after `pg_level_init`, from the mask so far.
unfoldable pub pg_level_init : ℕ → List ℕ → ℕ
pg_level_init mask [] = mask
pg_level_init mask (bit ∷ bits) = pg_level_init (bit_or mask bit) bits

-- The loop that looks for a unit: the number and the place of the unit in "KMGT".
unfoldable pub find_unit : ℕ → ℕ → ℕ → Option (ℕ × ℕ)
find_unit zero delta unit = none
find_unit (suc fuel) delta unit =
    let rest = find_unit fuel (shr delta 10) (unit + 1) in
    if bit_and delta 1023 == 0 then rest else some (delta, unit)

-- What is printed: the marker of the identical mapping, or an entry.
pub data Line : Type 0 where
  marker : Line
  entry : Call → ℕ × ℕ → List Bool → Line

-- The mask of the levels is an argument; the loop for the unit has fuel for a number of 64 bits.
unfoldable pub print_pgtable : ℕ → Call → Option (List Line)
print_pgtable mask c =
    let before = if c.start == 0x80200000 then marker ∷ [] else [] in
    if c.val == 0 then some before else (do
      size ← find_unit 7 (shr (sub64 c.end c.start) 10) 0
      some (before ++ entry c size (dump_prot (bit_and c.val mask) pte_bits) ∷ []))

-- The lines of the calls in a row.
unfoldable pub print_calls : ℕ → List Call → Option (List Line)
print_calls mask [] = some []
print_calls mask (c ∷ cs) = do
  lines ← print_pgtable mask c
  rest ← print_calls mask cs
  some (lines ++ rest)

module _ (mem : Words) where
  unfoldable pub walk_pte_loop : ℕ → ℕ → ℕ → ℕ → Option (List Call)
  walk_pte_loop zero ptep addr end = none
  walk_pte_loop (suc fuel) ptep addr end =
      let next = u64 (addr + 4096) in
      let c : Call = record { start = addr; end = next; level = 2; val = mem ptep } in
      let rest = walk_pte_loop fuel (u64 (ptep + 8)) next end >>= λ cs. some (c ∷ cs) in
      if next == end then some (c ∷ []) else rest

  unfoldable pub walk_pte : ℕ → ℕ → ℕ → ℕ → Option (List Call)
  walk_pte fuel pmdp start end = walk_pte_loop fuel (get_ptep_from_pmdp (mem pmdp) start) start end

  -- A round of the loop of `walk_pmd`.
  unfoldable pub walk_pmd_entry : ℕ → ℕ → ℕ → ℕ → Option (List Call)
  walk_pmd_entry fuel pmdp addr next =
      if mem pmdp == 0 || pmd_leaf (mem pmdp)
      then some (record { start = addr; end = next; level = 1; val = mem pmdp } ∷ [])
      else walk_pte fuel pmdp addr next

  unfoldable pub walk_pmd_loop : ℕ → ℕ → ℕ → ℕ → ℕ → Option (List Call)
  walk_pmd_loop tables zero pmdp addr end = none
  walk_pmd_loop tables (suc fuel) pmdp addr end =
      let next = pmd_addr_end addr end in
      let here = walk_pmd_entry tables pmdp addr next in
      let rest = (do
        cs ← here
        ds ← walk_pmd_loop tables fuel (u64 (pmdp + 8)) next end
        some (cs ++ ds)) in
      if next == end then here else rest

  unfoldable pub walk_pmd : ℕ → ℕ → ℕ → ℕ → Option (List Call)
  walk_pmd fuel pgdp start end =
      walk_pmd_loop fuel fuel (get_pmdp_from_pgdp (mem pgdp) start) start end

  -- A round of the loop of `walk_pgd`.
  unfoldable pub walk_pgd_entry : ℕ → ℕ → ℕ → ℕ → Option (List Call)
  walk_pgd_entry fuel pgdp addr next =
      if mem pgdp == 0
      then some (record { start = addr; end = next; level = 0; val = mem pgdp } ∷ [])
      else walk_pmd fuel pgdp addr next

  unfoldable pub walk_pgd_loop : ℕ → ℕ → ℕ → ℕ → ℕ → Option (List Call)
  walk_pgd_loop tables zero pgdp addr end = none
  walk_pgd_loop tables (suc fuel) pgdp addr end =
      let next = pgd_addr_end addr end in
      let here = walk_pgd_entry tables pgdp addr next in
      let rest = (do
        cs ← here
        ds ← walk_pgd_loop tables fuel (u64 (pgdp + 8)) next end
        some (cs ++ ds)) in
      if next == end then here else rest

  unfoldable pub walk_pgd : ℕ → ℕ → ℕ → ℕ → Option (List Call)
  walk_pgd fuel pgd start size =
      walk_pgd_loop fuel fuel (pgd_offset_raw pgd start) start (u64 (start + size))

  -- The calls that `dump_pgtable` makes for the table at `idmap_pg_dir`.
  unfoldable pub dump_pgtable : ℕ → ℕ → ℕ → Option (List Call)
  dump_pgtable fuel idmap_pg_dir text_boot =
      let start = page_align_down text_boot in
      let end = page_align_up ddr_end in walk_pgd fuel idmap_pg_dir start (sub64 end start)
