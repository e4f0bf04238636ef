-- ===== src/Mmu/Paging.antt =====
-- `__create_pgd_mapping` of benos/src/mmu.c ends, and with it `paging_init`.
use risc_v_lab.Base.{
  ℕ, zero, suc, ◌+◌, ◌-◌, ◌*◌, ◌/◌, ◌^◌, ◌≤◌, ◌<◌, ◌≡◌, ◌≢◌, ◌∙◌, refl, arith, ◌==◌, true, false,
  Bool, some, ◌>>=◌, u64, sub64,
}
use native.Mathlib.Decide.{ℕ_discrete}
use risc_v_lab.Mm.{page_align_up, page_align_down}
use risc_v_lab.Mm.Align.{page_align_down_lem, page_align_up_lem}
use risc_v_lab.Pgtable.{page_kernel, pgd_offset_raw, pgd_addr_end}
use risc_v_lab.Pgtable.Ends.{pgd_addr_end-IsBlockEnd}
use risc_v_lab.Mmu.{
  Mmu, alloc_init_pmd, pgd_loop, create_pgd_mapping, early_pgtable_alloc, Sections, rounds,
  map_identical, create_mmio_mapping, paging_init,
}
use risc_v_lab.Mmu.Returns.{IsRange, part-IsRange, alloc_init_pmd-returns}

module _ (alloc_pgtable : Mmu → ℕ × Mmu) where
  pub pgd_loop-last :
      (tables fuel pgdp addr end phys prot : ℕ) (m m1 : Mmu)
      → alloc_init_pmd alloc_pgtable tables pgdp addr (pgd_addr_end addr end) phys prot m ≡ some m1
      → pgd_addr_end addr end ≡ end
      → pgd_loop alloc_pgtable tables (suc fuel) pgdp addr end phys prot m ≡ some m1
  unfolding pgd_loop
  pgd_loop-last tables fuel pgdp addr end phys prot m m1 runs e =
      let last : (pgd_addr_end addr end == end) ≡ true = ground arith in rw (runs, last, pgd_loop)

  pub pgd_loop-more :
      (tables fuel pgdp addr end phys prot : ℕ) (m m1 : Mmu)
      → alloc_init_pmd alloc_pgtable tables pgdp addr (pgd_addr_end addr end) phys prot m ≡ some m1
      → pgd_addr_end addr end ≢ end
      → pgd_loop alloc_pgtable tables (suc fuel) pgdp addr end phys prot m
        ≡ pgd_loop alloc_pgtable tables fuel
            (u64 (pgdp + 8))
            (pgd_addr_end addr end)
            end
            (u64 (phys + sub64 (pgd_addr_end addr end) addr))
            prot
            m1
  unfolding pgd_loop
  pgd_loop-more tables fuel pgdp addr end phys prot m m1 runs ne =
      let more : (pgd_addr_end addr end == end) ≡ false = ground arith in rw (runs, more, pgd_loop)

  pgd_loop-returns :
      (tables fuel pgdp addr end phys prot : ℕ) (m : Mmu)
      → fuel ≤ tables
      → IsRange fuel addr end
      → (m' : Mmu) × (pgd_loop alloc_pgtable tables fuel pgdp addr end phys prot m ≡ some m')
  pgd_loop-returns tables zero pgdp addr end phys prot m le r =
      absurd (omega (arith, r.some_page, r.pages))
  pgd_loop-returns tables (suc fuel) pgdp addr end phys prot m le r =
      let block =
        pgd_addr_end-IsBlockEnd addr end r.some_page (omega (arith, r.room))
          (omega (arith, r.room, r.some_page)) in
      let (part, rest) =
        part-IsRange (2 ^ 30) (suc fuel) addr end (pgd_addr_end addr end) refl (omega arith) r
          (omega arith) block in
      let (m1, runs) =
        alloc_init_pmd-returns alloc_pgtable tables pgdp addr (pgd_addr_end addr end) phys prot m
          (record {
            first = part.first;
            last = part.last;
            some_page = part.some_page;
            room = part.room;
            pages = omega (arith, part.pages);
          }) in
      elim (ℕ_discrete (pgd_addr_end addr end) end) [
        | yes e ↦ (m1, pgd_loop-last tables fuel pgdp addr end phys prot m m1 runs e)
        | no ne ↦
            let (m', runs') =
              pgd_loop-returns tables fuel (u64 (pgdp + 8)) (pgd_addr_end addr end) end
                (u64 (phys + sub64 (pgd_addr_end addr end) addr)) prot m1 (omega arith)
                (rest ne fuel refl) in
            (m', pgd_loop-more tables fuel pgdp addr end phys prot m m1 runs ne ∙ runs')
      ]

-- `__create_pgd_mapping` returns, whatever the tables hold and the allocator of tables does, for a
-- range that is not empty and whose end, rounded up, is below 2 ^ 63: as many rounds as the range
-- has pages, and two more, are enough for each of its loops.
pub create_pgd_mapping-returns :
    (alloc_pgtable : Mmu → ℕ × Mmu) (fuel pgdir phys virt size prot : ℕ) (m : Mmu)
    → 0 < size
    → virt + size + 4096 < 2 ^ 63
    → size / 4096 + 2 ≤ fuel
    → (m' : Mmu) × (create_pgd_mapping alloc_pgtable fuel pgdir phys virt size prot m ≡ some m')
unfolding create_pgd_mapping
create_pgd_mapping-returns alloc_pgtable fuel pgdir phys virt size prot m some_byte room enough =
    let fits : u64 (virt + size) ≡ virt + size = omega arith in
    let first = page_align_down_lem virt (omega arith) in
    let last : page_align_up (u64 (virt + size)) ≡ (virt + size + 4095) / 4096 * 4096 =
      rw fits (page_align_up_lem (virt + size) (omega arith)) in
    pgd_loop-returns alloc_pgtable fuel fuel (pgd_offset_raw pgdir virt) (page_align_down virt)
      (page_align_up (u64 (virt + size))) (page_align_down phys) prot m (omega arith)
      (record {
        first = omega (arith, first);
        last = omega (arith, last);
        some_page = omega (arith, first, last);
        room = omega (arith, last);
        pages = omega (arith, first, last);
      })

map_identical-returns :
    (s : Sections) (start size prot : ℕ) (m : Mmu)
    → 0 < size
    → start + size + 4096 < 2 ^ 63
    → size ≤ 2 ^ 29
    → (m' : Mmu) × (map_identical s start size prot m ≡ some m')
map_identical-returns s start size prot m some_byte room small =
    create_pgd_mapping-returns early_pgtable_alloc rounds s.idmap_pg_dir start start size prot m
      some_byte room (omega arith)

mmio_devices :
    (s : Sections) (m : Mmu)
    → (m' : Mmu) × (map_identical s 0x2000000 0x10000 page_kernel m
          >>= (λ m1. map_identical s 0x10000000 4096 page_kernel m1)
        ≡ some m')
mmio_devices s m =
    let (m1, runs) =
      map_identical-returns s 0x2000000 0x10000 page_kernel m (omega arith) (omega arith)
        (omega arith) in
    let (m2, runs') =
      map_identical-returns s 0x10000000 4096 page_kernel m1 (omega arith) (omega arith)
        (omega arith) in
    (m2, rw (runs, runs') refl)

-- `paging_init` always returns, with and without the interrupt controller of the emulator, whatever
-- the memory holds.
pub paging_init-returns :
    (qemu : Bool) (s : Sections) (m : Mmu) → (m' : Mmu) × (paging_init qemu s m ≡ some m')
unfolding paging_init create_mmio_mapping
paging_init-returns false s m = mmio_devices s m
paging_init-returns true s m =
    let (m1, runs) =
      map_identical-returns s 0xc000000 (0x10000000 - 0xc000000) page_kernel m (omega arith)
        (omega arith) (omega arith) in
    let (m', runs') = mmio_devices s m1 in (m', rw runs runs')
