-- ===== src/Mmu/Returns.antt =====
-- The loops of benos/src/mmu.c end.
use risc_v_lab.Base.{
  ℕ, zero, suc, ◌+◌, ◌*◌, ◌/◌, ◌%◌, ◌^◌, ◌≤◌, ◌<◌, ◌≡◌, ◌≢◌, ◌∙◌, refl, arith, ◌==◌, true, false,
  some, u64, sub64, inl, inr,
}
use native.Mathlib.Decide.{ℕ_discrete}
use risc_v_lab.Mm.{pfn_down}
use risc_v_lab.Pgtable.{pfn_pte, pmd_addr_end, get_ptep_from_pmdp, get_pmdp_from_pgdp}
use risc_v_lab.Pgtable.Ends.{IsBlockEnd, pmd_addr_end-IsBlockEnd}
use risc_v_lab.Mmu.{
  Words, Mmu, set_entry, pte_loop, fill_pmd, alloc_init_pte, fill_pgd, pmd_loop, alloc_init_pmd,
}
use risc_v_lab.Mmu.Ptes.{pte_loop-last, alloc_init_pte-some}

-- A range of pages that is not empty, does not come near the end of the addresses, and has at most
-- `n` pages.
pub record IsRange (n addr end : ℕ) : Type 0 where
  pub first : addr % 4096 ≡ 0
  pub last : end % 4096 ≡ 0
  pub some_page : addr < end
  pub room : end < 2 ^ 63
  pub pages : end ≤ addr + n * 4096

pte_loop-more :
    (fuel ptep addr end phys prot : ℕ) (mem : Words)
    → addr + 4096 < end
    → end < 2 ^ 63
    → pte_loop (suc fuel) ptep addr end phys prot mem
      ≡ pte_loop fuel
          (u64 (ptep + 8))
          (addr + 4096)
          end
          (u64 (phys + 4096))
          prot
          (set_entry ptep (pfn_pte (pfn_down phys) prot) mem)
unfolding pte_loop
pte_loop-more fuel ptep addr end phys prot mem lt h =
    let a : u64 (addr + 4096) ≡ addr + 4096 = omega arith in
    let ne : (addr + 4096 == end) ≡ false = ground arith in rw (a, ne) refl

pte_loop-returns :
    (fuel ptep addr end phys prot : ℕ) (mem : Words)
    → IsRange fuel addr end
    → (mem' : Words) × (pte_loop fuel ptep addr end phys prot mem ≡ some mem')
pte_loop-returns zero ptep addr end phys prot mem r = absurd (omega (arith, r.some_page, r.pages))
pte_loop-returns (suc fuel) ptep addr end phys prot mem r = elim (ℕ_discrete end (addr + 4096)) [
  | yes e ↦ (_, pte_loop-last fuel ptep addr end phys prot mem e (omega (arith, r.room)))
  | no ne ↦
      let lt : addr + 4096 < end = omega (arith, r.first, r.last, r.some_page) in
      let (mem', runs) =
        pte_loop-returns fuel (u64 (ptep + 8)) (addr + 4096) end (u64 (phys + 4096)) prot
          (set_entry ptep (pfn_pte (pfn_down phys) prot) mem)
          (record {
            first = omega (arith, r.first);
            last = r.last;
            some_page = lt;
            room = r.room;
            pages = omega (arith, r.pages);
          }) in
      (mem', pte_loop-more fuel ptep addr end phys prot mem lt r.room ∙ runs)
]

-- The part of a range that one entry covers, and the rest.
pub part-IsRange :
    (size n addr end next : ℕ)
    → size % 4096 ≡ 0
    → 0 < size
    → IsRange n addr end
    → addr / size * size % 4096 ≡ 0
    → IsBlockEnd size addr end next
    → IsRange n addr next × ((next ≢ end) → (n' : ℕ) → (n ≡ suc n') → IsRange n' next end)
part-IsRange size n addr end next a pos r whole b =
    let aligned : next % 4096 ≡ 0 = elim b.3 [
      | inl e ↦ rw e r.last
      | inr e ↦ omega (arith, e, a, whole)
    ] in
    (
      record {
        first = r.first;
        last = aligned;
        some_page = b.0;
        room = omega (arith, b.1, r.room);
        pages = omega (arith, b.1, r.pages);
      },
      λ ne n' e. record {
        first = aligned;
        last = r.last;
        some_page = omega (arith, b.1);
        room = r.room;
        pages = omega (arith, aligned, b.0, r.first, r.pages);
      },
    )

module _ (alloc_pgtable : Mmu → ℕ × Mmu) where
  alloc_init_pte-returns :
      (fuel pmdp addr end phys prot : ℕ) (m : Mmu)
      → IsRange fuel addr end
      → (m' : Mmu) × (alloc_init_pte alloc_pgtable fuel pmdp addr end phys prot m ≡ some m')
  alloc_init_pte-returns fuel pmdp addr end phys prot m r =
      let m1 = fill_pmd alloc_pgtable pmdp m in
      let (mem', runs) =
        pte_loop-returns fuel (get_ptep_from_pmdp (m1.mem pmdp) addr) addr end phys prot m1.mem r in
      (_, alloc_init_pte-some alloc_pgtable fuel pmdp addr end phys prot m mem' runs)

  pub pmd_loop-last :
      (tables fuel pmdp addr end phys prot : ℕ) (m m1 : Mmu)
      → alloc_init_pte alloc_pgtable tables pmdp addr (pmd_addr_end addr end) phys prot m ≡ some m1
      → pmd_addr_end addr end ≡ end
      → pmd_loop alloc_pgtable tables (suc fuel) pmdp addr end phys prot m ≡ some m1
  unfolding pmd_loop
  pmd_loop-last tables fuel pmdp addr end phys prot m m1 runs e =
      let last : (pmd_addr_end addr end == end) ≡ true = ground arith in rw (runs, last, pmd_loop)

  pub pmd_loop-more :
      (tables fuel pmdp addr end phys prot : ℕ) (m m1 : Mmu)
      → alloc_init_pte alloc_pgtable tables pmdp addr (pmd_addr_end addr end) phys prot m ≡ some m1
      → pmd_addr_end addr end ≢ end
      → pmd_loop alloc_pgtable tables (suc fuel) pmdp addr end phys prot m
        ≡ pmd_loop alloc_pgtable tables fuel
            (u64 (pmdp + 8))
            (pmd_addr_end addr end)
            end
            (u64 (phys + sub64 (pmd_addr_end addr end) addr))
            prot
            m1
  unfolding pmd_loop
  pmd_loop-more tables fuel pmdp addr end phys prot m m1 runs ne =
      let more : (pmd_addr_end addr end == end) ≡ false = ground arith in rw (runs, more, pmd_loop)

  pmd_loop-returns :
      (tables fuel pmdp addr end phys prot : ℕ) (m : Mmu)
      → fuel ≤ tables
      → IsRange fuel addr end
      → (m' : Mmu) × (pmd_loop alloc_pgtable tables fuel pmdp addr end phys prot m ≡ some m')
  pmd_loop-returns tables zero pmdp addr end phys prot m le r =
      absurd (omega (arith, r.some_page, r.pages))
  pmd_loop-returns tables (suc fuel) pmdp addr end phys prot m le r =
      let block =
        pmd_addr_end-IsBlockEnd addr end r.some_page (omega (arith, r.room))
          (omega (arith, r.room, r.some_page)) in
      let (part, rest) =
        part-IsRange (2 ^ 21) (suc fuel) addr end (pmd_addr_end addr end) refl (omega arith) r
          (omega arith) block in
      let (m1, runs) =
        alloc_init_pte-returns tables pmdp addr (pmd_addr_end addr end) phys prot m (record {
          first = part.first;
          last = part.last;
          some_page = part.some_page;
          room = part.room;
          pages = omega (arith, part.pages);
        }) in
      elim (ℕ_discrete (pmd_addr_end addr end) end) [
        | yes e ↦ (m1, pmd_loop-last tables fuel pmdp addr end phys prot m m1 runs e)
        | no ne ↦
            let (m', runs') =
              pmd_loop-returns tables fuel (u64 (pmdp + 8)) (pmd_addr_end addr end) end
                (u64 (phys + sub64 (pmd_addr_end addr end) addr)) prot m1 (omega arith)
                (rest ne fuel refl) in
            (m', pmd_loop-more tables fuel pmdp addr end phys prot m m1 runs ne ∙ runs')
      ]

  pub alloc_init_pmd-returns :
      (fuel pgdp addr end phys prot : ℕ) (m : Mmu)
      → IsRange fuel addr end
      → (m' : Mmu) × (alloc_init_pmd alloc_pgtable fuel pgdp addr end phys prot m ≡ some m')
  unfolding alloc_init_pmd
  alloc_init_pmd-returns fuel pgdp addr end phys prot m r =
      let m1 = fill_pgd alloc_pgtable pgdp m in
      pmd_loop-returns fuel fuel (get_pmdp_from_pgdp (m1.mem pgdp) addr) addr end phys prot m1
        (omega arith) r
