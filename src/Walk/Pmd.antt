-- ===== src/Walk/Pmd.antt =====
-- `alloc_init_pte` with its new table, and the loop of `alloc_init_pmd` of benos/src/mmu.c.
use risc_v_lab.Base.{
  ℕ, zero, suc, ◌+◌, ◌-◌, ◌*◌, ◌/◌, ◌%◌, ◌^◌, ◌≤◌, ◌<◌, ◌≡◌, ◌≢◌, ◌∙◌, sym, ap, refl, arith, some,
  u64, sub64,
}
use native.Mathlib.Decide.{ℕ_discrete}
use risc_v_lab.Pgtable.{pgd_page_paddr, pmd_page_paddr, pmd_addr_end, get_ptep_from_pmdp}
use risc_v_lab.Pgtable.Ends.{pmd_addr_end-IsBlockEnd}
use risc_v_lab.Mmu.{Words, Mmu, pte_loop, fill_pmd, alloc_init_pte, pmd_loop}
use risc_v_lab.Mmu.Ptes.{pte_loop-Filled, pte_index_lem, ptep_first, alloc_init_pte-some}
use risc_v_lab.Mmu.Returns.{IsRange, part-IsRange, pmd_loop-last, pmd_loop-more}
use risc_v_lab.Walk.Supply.{IsTableAlloc, free_pages}
use risc_v_lab.Walk.Tree.{Role, middle, bottom, IsTree}
use risc_v_lab.Walk.Fill.{is_page}
use risc_v_lab.Walk.Maps.{Grows, SameEntries, Maps, Maps-after, Maps-trans, Maps-end, Maps-phys}
use risc_v_lab.Walk.Tables.{fill_pmd-Grows}
use risc_v_lab.Walk.Parts.{
  HasRoom, HasRoom-part, HasRoom-rest, next_phys, IsRange-weaken, next_pmdp, IsBlockEnd-next,
  blocks,
}
use risc_v_lab.Walk.Pte.{written-Maps}

module _ (alloc_pgtable : Mmu → ℕ × Mmu) (law : IsTableAlloc alloc_pgtable) (dir : ℕ) where
  -- The table of the entry is there.
  write_ptes :
      (role : ℕ → Role) (m : Mmu) (t : IsTree dir role m) (pmdp fuel addr end phys prot : ℕ)
      → IsRange fuel addr end
      → HasRoom addr end phys
      → end ≤ addr / 2 ^ 21 * 2 ^ 21 + 2 ^ 21
      → m.mem (dir + addr / 2 ^ 30 * 8) ≢ 0
      → pmdp ≡ pgd_page_paddr (m.mem (dir + addr / 2 ^ 30 * 8)) + addr / 2 ^ 21 % 512 * 8
      → m.mem pmdp ≢ 0
      → (mem' : Words) × (pte_loop fuel
            (get_ptep_from_pmdp (m.mem pmdp) addr)
            addr
            end
            phys
            prot
            m.mem
          ≡ some mem')
        × Maps dir addr end phys prot 0 m (record m { mem = mem' })
  write_ptes role m t pmdp fuel addr end phys prot r room within full at_pmdp full' =
      let i = addr / 2 ^ 30 in
      let j = addr / 2 ^ 21 % 512 in
      let base = pgd_page_paddr (m.mem (dir + i * 8)) in
      let full_at : m.mem (base + j * 8) ≢ 0 = λ e. full' (ap m.mem at_pmdp ∙ e) in
      let at_base : role base ≡ middle i = t.tops i (omega (arith, r.some_page, room.top)) full in
      let at_table = t.middles base i j at_base (omega arith) full_at in
      let page =
        is_page dir role m t (pmd_page_paddr (m.mem (base + j * 8))) (bottom i j) at_table
          (λ e. cc) in
      let index = pte_index_lem addr in
      let n = (end - addr) / 4096 - 1 in
      let pages : addr + suc n * 4096 ≡ end = omega (arith, r.first, r.last, r.some_page) in
      let reach : addr / 4096 % 512 + suc n ≤ 512 = omega (arith, pages) in
      let ptep = pmd_page_paddr (m.mem (base + j * 8)) + addr / 4096 % 512 * 8 in
      let place : get_ptep_from_pmdp (m.mem pmdp) addr ≡ ptep =
        ap (λ a. get_ptep_from_pmdp (m.mem a) addr) at_pmdp
        ∙ ptep_first (m.mem (base + j * 8)) addr page.2 (omega (arith, index))
        ∙ ap (λ k. pmd_page_paddr (m.mem (base + j * 8)) + k * 8) index in
      let (mem', runs, filled) =
        pte_loop-Filled n fuel ptep addr phys prot m.mem (omega (arith, pages, r.pages))
          (omega (arith, pages, room.top)) (omega (arith, page.2, reach))
          (omega (arith, pages, room.low)) in
      (
        mem',
        ap (λ p. pte_loop fuel p addr end phys prot m.mem) place
            ∙ ap (λ e. pte_loop fuel ptep addr e phys prot m.mem) (sym pages)
            ∙ runs,
        written-Maps dir role m t addr (suc n) end phys prot mem' pages r.first
            (omega (arith, r.some_page, room.top)) room.whole reach full full_at filled,
      )

  pub alloc_init_pte-Maps :
      (role : ℕ → Role) (m : Mmu) (t : IsTree dir role m) (pmdp fuel addr end phys prot : ℕ)
      → IsRange fuel addr end
      → HasRoom addr end phys
      → end ≤ addr / 2 ^ 21 * 2 ^ 21 + 2 ^ 21
      → 0 < free_pages m.alloc.mem_map
      → m.mem (dir + addr / 2 ^ 30 * 8) ≢ 0
      → pmdp ≡ pgd_page_paddr (m.mem (dir + addr / 2 ^ 30 * 8)) + addr / 2 ^ 21 % 512 * 8
      → (m' : Mmu) × (alloc_init_pte alloc_pgtable fuel pmdp addr end phys prot m ≡ some m')
        × Maps dir addr end phys prot 1 m m'
  alloc_init_pte-Maps role m t pmdp fuel addr end phys prot r room within left full at_pmdp =
      let i = addr / 2 ^ 30 in
      let hi : i < 512 = omega (arith, r.some_page, room.top) in
      let base = pgd_page_paddr (m.mem (dir + i * 8)) in
      let m1 = fill_pmd alloc_pgtable pmdp m in
      let (g, same, full') : Grows dir 1 m m1 × SameEntries dir m m1 × (m1.mem pmdp ≢ 0) =
        rw at_pmdp (
          fill_pmd-Grows alloc_pgtable law dir role m t base i (addr / 2 ^ 21 % 512) left
            (t.tops i hi full) (omega arith)) in
      let kept = g.kept i hi full in
      let (mem', runs, maps) =
        write_ptes g.role m1 g.tree pmdp fuel addr end phys prot r room within
          (λ e. full (sym kept ∙ e))
          (at_pmdp ∙ ap (λ e. pgd_page_paddr e + addr / 2 ^ 21 % 512 * 8) (sym kept)) full' in
      (
        record m1 { mem = mem' },
        alloc_init_pte-some alloc_pgtable fuel pmdp addr end phys prot m mem' runs,
        Maps-after dir addr end phys prot 1 0 1 m m1 (record m1 { mem = mem' }) (omega arith) g same
            maps,
      )

  pub pmd_loop-Maps :
      (tables fuel : ℕ) (role : ℕ → Role) (m : Mmu) (t : IsTree dir role m)
      (pmdp addr end phys prot : ℕ)
      → fuel ≤ tables
      → IsRange fuel addr end
      → HasRoom addr end phys
      → end ≤ addr / 2 ^ 30 * 2 ^ 30 + 2 ^ 30
      → blocks (2 ^ 21) addr end ≤ free_pages m.alloc.mem_map
      → m.mem (dir + addr / 2 ^ 30 * 8) ≢ 0
      → pmdp ≡ pgd_page_paddr (m.mem (dir + addr / 2 ^ 30 * 8)) + addr / 2 ^ 21 % 512 * 8
      → (m' : Mmu) × (pmd_loop alloc_pgtable tables fuel pmdp addr end phys prot m ≡ some m')
        × Maps dir addr end phys prot (blocks (2 ^ 21) addr end) m m'
  pmd_loop-Maps tables zero role m t pmdp addr end phys prot le r room within left full at_pmdp =
      absurd (omega (arith, r.some_page, r.pages))
  pmd_loop-Maps tables (suc fuel) role m t pmdp addr end phys prot le r room within left full
        at_pmdp =
      let next = pmd_addr_end addr end in
      let block =
        pmd_addr_end-IsBlockEnd addr end r.some_page (omega (arith, r.room))
          (omega (arith, r.room, r.some_page)) in
      let (part, rest) =
        part-IsRange (2 ^ 21) (suc fuel) addr end next refl (omega arith) r (omega arith) block in
      let (m1, runs, maps) =
        alloc_init_pte-Maps role m t pmdp tables addr next phys prot
          (IsRange-weaken (suc fuel) tables addr next le part)
          (HasRoom-part addr next end phys block.1 room) block.2 (omega (arith, r.some_page)) full
          at_pmdp in
      elim (ℕ_discrete next end) [
        | yes e ↦ (
          m1,
          pmd_loop-last alloc_pgtable tables fuel pmdp addr end phys prot m m1 runs e,
          Maps-end dir addr next end phys prot 1 (blocks (2 ^ 21) addr end) m m1 e
              (omega (arith, r.some_page)) maps,
        )
        | no ne ↦
            let at_next = IsBlockEnd-next (2 ^ 21) addr end next block ne in
            let same : next / 2 ^ 30 ≡ addr / 2 ^ 30 = omega (arith, at_next, block.1) in
            let kept =
              maps.grows.kept (addr / 2 ^ 30) (omega (arith, r.some_page, room.top)) full in
            let kept_at : m1.mem (dir + next / 2 ^ 30 * 8) ≡ m.mem (dir + addr / 2 ^ 30 * 8) =
              ap (λ x. m1.mem (dir + x * 8)) same ∙ kept in
            let page =
              is_page dir role m t (pgd_page_paddr (m.mem (dir + addr / 2 ^ 30 * 8)))
                (middle (addr / 2 ^ 30))
                (t.tops (addr / 2 ^ 30) (omega (arith, r.some_page, room.top)) full) (λ e. cc) in
            let entry =
              next_pmdp (pgd_page_paddr (m.mem (dir + addr / 2 ^ 30 * 8)))
                (pgd_page_paddr (m1.mem (dir + next / 2 ^ 30 * 8))) pmdp addr next page.2 at_pmdp
                at_next same (ap pgd_page_paddr kept_at) in
            let (m', runs', maps') =
              pmd_loop-Maps tables fuel maps.grows.role m1 maps.grows.tree (u64 (pmdp + 8)) next end
                (u64 (phys + sub64 next addr)) prot (omega arith) (rest ne fuel refl)
                (HasRoom-rest addr next end phys block.0 block.1 (omega (arith, at_next, r.first))
                  room)
                (omega (arith, same)) (omega (arith, at_next, maps.grows.supply, left))
                (λ e. full (sym kept_at ∙ e)) entry in
            (
              m',
              pmd_loop-more alloc_pgtable tables fuel pmdp addr end phys prot m m1 runs ne ∙ runs',
              Maps-trans dir addr next end phys prot 1 (blocks (2 ^ 21) next end)
                  (blocks (2 ^ 21) addr end) m m1 m' (omega (arith, at_next, block.1))
                  (omega (arith, block.0)) block.1 room.top maps
                  (Maps-phys dir next end _ (phys + (next - addr)) prot _ m1 m'
                    (next_phys addr next end phys block.0 block.1 room) maps'),
            )
      ]
