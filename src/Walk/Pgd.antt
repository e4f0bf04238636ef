-- ===== src/Walk/Pgd.antt =====
-- `alloc_init_pmd` with its new table, the loop of `__create_pgd_mapping`, and the whole function,
-- of benos/src/mmu.c.
use risc_v_lab.Base.{
  ℕ, zero, suc, ◌+◌, ◌-◌, ◌*◌, ◌/◌, ◌%◌, ◌^◌, ◌≤◌, ◌<◌, ◌≡◌, ◌≢◌, ◌∙◌, ap, refl, arith, some, u64,
  sub64,
}
use native.Mathlib.Decide.{ℕ_discrete}
use risc_v_lab.Base.Bits.{bit_and_low}
use risc_v_lab.Pgtable.{
  pgd_page_paddr, pmd_index, pgd_index, pgd_addr_end, get_pmdp_from_pgdp, pgd_offset_raw,
}
use risc_v_lab.Pgtable.Ends.{pgd_addr_end-IsBlockEnd}
use risc_v_lab.Mmu.{Mmu, fill_pgd, alloc_init_pmd, pgd_loop}
use risc_v_lab.Mmu.Returns.{IsRange, part-IsRange}
use risc_v_lab.Mmu.Paging.{pgd_loop-last, pgd_loop-more}
use risc_v_lab.Walk.Supply.{IsTableAlloc, free_pages}
use risc_v_lab.Walk.Tree.{Role, top, middle, IsTree}
use risc_v_lab.Walk.Fill.{is_page}
use risc_v_lab.Walk.Maps.{Grows, SameEntries, Maps, Maps-after, Maps-trans, Maps-end, Maps-phys}
use risc_v_lab.Walk.Tables.{fill_pgd-Grows}
use risc_v_lab.Walk.Parts.{
  HasRoom, HasRoom-part, HasRoom-rest, next_phys, IsRange-weaken, IsBlockEnd-next, blocks,
}
use risc_v_lab.Walk.Pmd.{pmd_loop-Maps}

-- The tables that a mapping may need.
abbrev pub tables_for : ℕ → ℕ → ℕ
tables_for addr end = blocks (2 ^ 30) addr end + blocks (2 ^ 21) addr end

pub pmdp_lem :
    (pgd addr : ℕ)
    → pgd_page_paddr pgd < 2 ^ 56
    → get_pmdp_from_pgdp pgd addr ≡ pgd_page_paddr pgd + addr / 2 ^ 21 % 512 * 8
unfolding get_pmdp_from_pgdp pmd_index
pmdp_lem pgd addr low = omega (arith, bit_and_low 9 (addr / 2 ^ 21))

pub pgdp_lem :
    (dir addr : ℕ)
    → dir < 2 ^ 56
    → addr < 2 ^ 39
    → pgd_offset_raw dir addr ≡ dir + addr / 2 ^ 30 * 8
unfolding pgd_offset_raw pgd_index
pgdp_lem dir addr low small = omega (arith, bit_and_low 9 (addr / 2 ^ 30))

module _ (alloc_pgtable : Mmu → ℕ × Mmu) (law : IsTableAlloc alloc_pgtable) (dir : ℕ) where
  pub alloc_init_pmd-Maps :
      (fuel : ℕ) (role : ℕ → Role) (m : Mmu) (t : IsTree dir role m) (pgdp addr end phys prot : ℕ)
      → IsRange fuel addr end
      → HasRoom addr end phys
      → end ≤ addr / 2 ^ 30 * 2 ^ 30 + 2 ^ 30
      → suc (blocks (2 ^ 21) addr end) ≤ free_pages m.alloc.mem_map
      → pgdp ≡ dir + addr / 2 ^ 30 * 8
      → (m' : Mmu) × (alloc_init_pmd alloc_pgtable fuel pgdp addr end phys prot m ≡ some m')
        × Maps dir addr end phys prot (suc (blocks (2 ^ 21) addr end)) m m'
  unfolding alloc_init_pmd
  alloc_init_pmd-Maps fuel role m t pgdp addr end phys prot r room within left at_pgdp =
      let i = addr / 2 ^ 30 in
      let hi : i < 512 = omega (arith, r.some_page, room.top) in
      let m1 = fill_pgd alloc_pgtable pgdp m in
      let (g, same, full) : Grows dir 1 m m1 × SameEntries dir m m1 × (m1.mem (dir + i * 8) ≢ 0) =
        rw at_pgdp (fill_pgd-Grows alloc_pgtable law dir role m t i (omega (arith, left)) hi) in
      let page =
        is_page dir g.role m1 g.tree (pgd_page_paddr (m1.mem (dir + i * 8))) (middle i)
          (g.tree.tops i hi full) (λ e. cc) in
      let (m', runs, maps) =
        pmd_loop-Maps alloc_pgtable law dir fuel fuel g.role m1 g.tree
          (get_pmdp_from_pgdp (m1.mem pgdp) addr) addr end phys prot (omega arith) r room within
          (omega (arith, left, g.supply)) full
          (ap (λ a. get_pmdp_from_pgdp (m1.mem a) addr) at_pgdp
            ∙ pmdp_lem (m1.mem (dir + i * 8)) addr page.2) in
      (
        m',
        runs,
        Maps-after dir addr end phys prot 1 (blocks (2 ^ 21) addr end)
            (suc (blocks (2 ^ 21) addr end)) m m1 m' (omega arith) g same maps,
      )

  pub pgd_loop-Maps :
      (tables fuel : ℕ) (role : ℕ → Role) (m : Mmu) (t : IsTree dir role m)
      (pgdp addr end phys prot : ℕ)
      → fuel ≤ tables
      → IsRange fuel addr end
      → HasRoom addr end phys
      → tables_for addr end ≤ free_pages m.alloc.mem_map
      → pgdp ≡ dir + addr / 2 ^ 30 * 8
      → (m' : Mmu) × (pgd_loop alloc_pgtable tables fuel pgdp addr end phys prot m ≡ some m')
        × Maps dir addr end phys prot (tables_for addr end) m m'
  pgd_loop-Maps tables zero role m t pgdp addr end phys prot le r room left at_pgdp =
      absurd (omega (arith, r.some_page, r.pages))
  pgd_loop-Maps tables (suc fuel) role m t pgdp addr end phys prot le r room left at_pgdp =
      let next = pgd_addr_end addr end in
      let block =
        pgd_addr_end-IsBlockEnd addr end r.some_page (omega (arith, r.room))
          (omega (arith, r.room, r.some_page)) in
      let (part, rest) =
        part-IsRange (2 ^ 30) (suc fuel) addr end next refl (omega arith) r (omega arith) block in
      let page = is_page dir role m t dir top t.root (λ e. cc) in
      let (m1, runs, maps) =
        alloc_init_pmd-Maps tables role m t pgdp addr next phys prot
          (IsRange-weaken (suc fuel) tables addr next le part)
          (HasRoom-part addr next end phys block.1 room) block.2
          (omega (arith, left, block.0, block.1)) at_pgdp in
      elim (ℕ_discrete next end) [
        | yes e ↦ (
          m1,
          pgd_loop-last alloc_pgtable tables fuel pgdp addr end phys prot m m1 runs e,
          Maps-end dir addr next end phys prot (suc (blocks (2 ^ 21) addr next))
              (tables_for addr end) m m1 e (omega (arith, e, r.some_page)) maps,
        )
        | no ne ↦
            let at_next = IsBlockEnd-next (2 ^ 30) addr end next block ne in
            let (m', runs', maps') =
              pgd_loop-Maps tables fuel maps.grows.role m1 maps.grows.tree (u64 (pgdp + 8)) next end
                (u64 (phys + sub64 next addr)) prot (omega arith) (rest ne fuel refl)
                (HasRoom-rest addr next end phys block.0 block.1 (omega (arith, at_next, r.first))
                  room)
                (omega (arith, at_next, maps.grows.supply, left, block.0, block.1))
                (omega (arith, at_pgdp, at_next, page.2, room.top, block.1)) in
            (
              m',
              pgd_loop-more alloc_pgtable tables fuel pgdp addr end phys prot m m1 runs ne ∙ runs',
              Maps-trans dir addr next end phys prot (suc (blocks (2 ^ 21) addr next))
                  (tables_for next end) (tables_for addr end) m m1 m'
                  (omega (arith, at_next, block.0, block.1)) (omega (arith, block.0)) block.1
                  room.top maps
                  (Maps-phys dir next end (u64 (phys + sub64 next addr)) (phys + (next - addr)) prot
                    (tables_for next end) m1 m' (next_phys addr next end phys block.0 block.1 room)
                    maps'),
            )
      ]
