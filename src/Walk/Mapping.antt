-- ===== src/Walk/Mapping.antt =====
-- `__create_pgd_mapping` of benos/src/mmu.c as a change of the mapping that the tables describe, and
-- `walk_pgtable` of benos/src/kernel.c as the way to read it.
use risc_v_lab.Base.{
  ℕ, ◌+◌, ◌*◌, ◌/◌, ◌%◌, ◌^◌, ◌≤◌, ◌<◌, ◌≡◌, ◌≢◌, ◌∙◌, sym, ap, arith, some, ◌==◌, if◌then◌else◌,
  u64,
}
use native.Mathlib.Decide.{ℕ_discrete}
use risc_v_lab.Mm.{page_align_up}
use risc_v_lab.Mm.Align.{page_align_down_lem, page_align_up_lem}
use risc_v_lab.Pgtable.{
  pgd_page_paddr, pmd_page_paddr, get_pmdp_from_pgdp, get_ptep_from_pmdp, pgd_offset_raw,
}
use risc_v_lab.Mmu.{Words, Mmu, create_pgd_mapping, early_pgtable_alloc}
use risc_v_lab.Mmu.Ptes.{pte_index_lem, ptep_first}
use risc_v_lab.Walk.{walk_pgtable, entry_for}
use risc_v_lab.Walk.Supply.{IsTableAlloc, free_pages, early_pgtable_alloc-IsTableAlloc}
use risc_v_lab.Walk.Tree.{Role, top, middle, bottom, IsTree}
use risc_v_lab.Walk.Fill.{is_page}
use risc_v_lab.Walk.Paths.{leaf_at-none, leaf_at-some, entry_at-none, entry_at-some}
use risc_v_lab.Walk.Maps.{Maps}
use risc_v_lab.Walk.Pgd.{pgd_loop-Maps, tables_for, pmdp_lem, pgdp_lem}

-- For any allocator of tables that keeps its promise.
create_mapping-Maps :
    (alloc_pgtable : Mmu → ℕ × Mmu) (fuel dir phys virt size prot : ℕ) (role : ℕ → Role) (m : Mmu)
    → IsTableAlloc alloc_pgtable
    → IsTree dir role m
    → 0 < size
    → virt + size ≤ 2 ^ 39
    → phys + size + 8192 < 2 ^ 64
    → size / 4096 + 2 ≤ fuel
    → tables_for (virt / 4096 * 4096) ((virt + size + 4095) / 4096 * 4096)
      ≤ free_pages m.alloc.mem_map
    → (m' : Mmu) × (create_pgd_mapping alloc_pgtable fuel dir phys virt size prot m ≡ some m')
      × Maps dir
          (virt / 4096 * 4096)
          ((virt + size + 4095) / 4096 * 4096)
          (phys / 4096 * 4096)
          prot
          (tables_for (virt / 4096 * 4096) ((virt + size + 4095) / 4096 * 4096))
          m
          m'
unfolding create_pgd_mapping
create_mapping-Maps alloc_pgtable fuel dir phys virt size prot role m law t some_byte fit low enough
      left =
    let page = is_page dir role m t dir Role.top t.root (λ e. cc) in
    let fits : u64 (virt + size) ≡ virt + size = omega arith in
    let last : page_align_up (u64 (virt + size)) ≡ (virt + size + 4095) / 4096 * 4096 =
      rw fits (page_align_up_lem (virt + size) (omega arith)) in
    rw (page_align_down_lem virt (omega arith), page_align_down_lem phys (omega arith), last)
      (pgd_loop-Maps alloc_pgtable law dir fuel fuel role m t (pgd_offset_raw dir virt)
        (virt / 4096 * 4096) ((virt + size + 4095) / 4096 * 4096) (phys / 4096 * 4096) prot
        (omega arith)
        (record {
          first = omega arith;
          last = omega arith;
          some_page = omega arith;
          room = omega arith;
          pages = omega arith;
        })
        (record { top = omega arith; whole = omega arith; low = omega arith }) left
        (pgdp_lem dir virt page.2 (omega arith) ∙ omega arith))

-- `__create_pgd_mapping` with `early_pgtable_alloc` does what it promises. For tables of the right
-- shape, a range that is not empty and ends within the 2 ^ 39 bytes of a directory, pages below
-- 2 ^ 64, fuel for the pages of the range, and as many free pages as the range may need tables, it
-- returns; afterwards every address of the range, rounded to whole pages, has the entry for the
-- page of `phys` at the same distance with the given protection, every other address has the entry
-- that it had, no entry of the directory has been replaced, no more pages have been taken than
-- these, and the tables have the right shape again.
pub create_pgd_mapping-Maps :
    (fuel dir phys virt size prot : ℕ) (role : ℕ → Role) (m : Mmu)
    → IsTree dir role m
    → 0 < size
    → virt + size ≤ 2 ^ 39
    → phys + size + 8192 < 2 ^ 64
    → size / 4096 + 2 ≤ fuel
    → tables_for (virt / 4096 * 4096) ((virt + size + 4095) / 4096 * 4096)
      ≤ free_pages m.alloc.mem_map
    → (m' : Mmu) × (create_pgd_mapping early_pgtable_alloc fuel dir phys virt size prot m ≡ some m')
      × Maps dir
          (virt / 4096 * 4096)
          ((virt + size + 4095) / 4096 * 4096)
          (phys / 4096 * 4096)
          prot
          (tables_for (virt / 4096 * 4096) ((virt + size + 4095) / 4096 * 4096))
          m
          m'
create_pgd_mapping-Maps fuel dir phys virt size prot role m t =
    create_mapping-Maps early_pgtable_alloc fuel dir phys virt size prot role m
      early_pgtable_alloc-IsTableAlloc t

-- What is found at the pointer that a walk gives, where NULL stands for no entry.
abbrev pub found : ℕ → Words → ℕ
found p mem = if p == 0 then 0 else mem p

module _ (dir va : ℕ) (mem : Words) where
  abbrev pgdp : ℕ
  pgdp = pgd_offset_raw dir va

  abbrev pmdp : ℕ
  pmdp = get_pmdp_from_pgdp (mem pgdp) va

  abbrev ptep : ℕ
  ptep = get_ptep_from_pmdp (mem pmdp) va

  walk-no_pgd : mem pgdp ≡ 0 → walk_pgtable dir va mem ≡ 0
  unfolding walk_pgtable
  walk-no_pgd e = ground arith

  walk-no_pmd : mem pmdp ≡ 0 → walk_pgtable dir va mem ≡ 0
  unfolding walk_pgtable
  walk-no_pmd e = ground arith

  walk-found :
      0 < pgdp
      → 0 < pmdp
      → 0 < ptep
      → mem pgdp ≢ 0
      → mem pmdp ≢ 0
      → found (walk_pgtable dir va mem) mem ≡ mem ptep
  unfolding walk_pgtable
  walk-found a b c d e = ground arith

-- `walk_pgtable`, for tables of the right shape and an address below 2 ^ 39: what is found at the
-- pointer that it returns, where NULL stands for an empty entry, is the entry that the three levels
-- of tables hold for the address.
pub walk_pgtable-entry_for :
    (dir va : ℕ) (role : ℕ → Role) (m : Mmu)
    → IsTree dir role m
    → va < 2 ^ 39
    → found (walk_pgtable dir va m.mem) m.mem ≡ entry_for dir m.mem va
unfolding entry_for
walk_pgtable-entry_for dir va role m t small =
    let i = va / 2 ^ 30 in
    let j = va / 2 ^ 21 % 512 in
    let k = va / 4096 % 512 in
    let page = is_page dir role m t dir top t.root (λ e. cc) in
    let at_pgd = pgdp_lem dir va page.2 small in
    elim (ℕ_discrete (m.mem (dir + i * 8)) 0) [
      | yes e ↦
          rw (walk-no_pgd dir va m.mem (ap m.mem at_pgd ∙ e))
            (sym (entry_at-none dir m.mem i j k e))
      | no ne ↦
          let base = pgd_page_paddr (m.mem (dir + i * 8)) in
          let at_base = t.tops i (omega arith) ne in
          let page' = is_page dir role m t base (middle i) at_base (λ e. cc) in
          let at_pmd : pmdp dir va m.mem ≡ base + j * 8 =
            ap (λ a. get_pmdp_from_pgdp (m.mem a) va) at_pgd
            ∙ pmdp_lem (m.mem (dir + i * 8)) va page'.2 in
          elim (ℕ_discrete (m.mem (base + j * 8)) 0) [
            | yes e ↦
                rw (walk-no_pmd dir va m.mem (ap m.mem at_pmd ∙ e))
                  (sym (entry_at-some dir m.mem i j k ne ∙ leaf_at-none base m.mem j k e))
            | no ne' ↦
                let table = pmd_page_paddr (m.mem (base + j * 8)) in
                let page'' =
                  is_page dir role m t table (bottom i j)
                    (t.middles base i j at_base (omega arith) ne') (λ e. cc) in
                let at_pte : ptep dir va m.mem ≡ table + k * 8 =
                  ap (λ a. get_ptep_from_pmdp (m.mem a) va) at_pmd
                  ∙ ptep_first (m.mem (base + j * 8)) va page''.2 (omega (arith, pte_index_lem va))
                  ∙ ap (λ x. table + x * 8) (pte_index_lem va) in
                walk-found dir va m.mem (omega (arith, at_pgd, page.0))
                  (omega (arith, at_pmd, page'.0)) (omega (arith, at_pte, page''.0))
                  (λ e. ne (sym (ap m.mem at_pgd) ∙ e)) (λ e. ne' (sym (ap m.mem at_pmd) ∙ e))
                ∙ ap m.mem at_pte
                ∙ sym (entry_at-some dir m.mem i j k ne ∙ leaf_at-some base m.mem j k ne')
          ]
    ]
