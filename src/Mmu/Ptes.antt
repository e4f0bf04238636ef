-- ===== src/Mmu/Ptes.antt =====
-- `alloc_init_pte` of benos/src/mmu.c fills a table.
use risc_v_lab.Base.{
  ℕ, zero, suc, ◌+◌, ◌*◌, ◌/◌, ◌%◌, ◌^◌, ◌≤◌, ◌<◌, ◌≡◌, ◌≢◌, ◌∙◌, sym, ap, refl, arith, ◌==◌, false,
  some, u64,
}
use risc_v_lab.Base.Bits.{bit_and_low}
use risc_v_lab.Mm.{pfn_down}
use risc_v_lab.Pgtable.{pfn_pte, get_ptep_from_pmdp, pmd_page_paddr, pte_index}
use risc_v_lab.Mmu.{Words, Mmu, set_entry, pte_loop, fill_pmd, alloc_init_pte}

-- The memory `after` has the entries of `n` pages from `phys` on at `ptep`, and is `before` apart
-- from them.
pub record Filled (n ptep phys prot : ℕ) (before after : Words) : Type 0 where
  pub entries : (i : ℕ) → i < n → after (ptep + i * 8) ≡ pfn_pte (pfn_down (phys + i * 4096)) prot
  pub others : (a : ℕ) → ((i : ℕ) → i < n → a ≢ ptep + i * 8) → after a ≡ before a

pub pte_loop-last :
    (fuel ptep addr end phys prot : ℕ) (mem : Words)
    → end ≡ addr + 4096
    → end < 2 ^ 64
    → pte_loop (suc fuel) ptep addr end phys prot mem
      ≡ some (set_entry ptep (pfn_pte (pfn_down phys) prot) mem)
unfolding pte_loop
pte_loop-last fuel ptep addr end phys prot mem e h = ground arith

pte_loop-more :
    (fuel ptep addr end phys prot : ℕ) (mem : Words)
    → addr + 4096 < end
    → end < 2 ^ 64
    → ptep + 8 < 2 ^ 64
    → phys + 4096 < 2 ^ 64
    → pte_loop (suc fuel) ptep addr end phys prot mem
      ≡ pte_loop fuel
          (ptep + 8)
          (addr + 4096)
          end
          (phys + 4096)
          prot
          (set_entry ptep (pfn_pte (pfn_down phys) prot) mem)
unfolding pte_loop
pte_loop-more fuel ptep addr end phys prot mem lt h hp hq =
    let a : u64 (addr + 4096) ≡ addr + 4096 = omega arith in
    let b : u64 (ptep + 8) ≡ ptep + 8 = omega arith in
    let c : u64 (phys + 4096) ≡ phys + 4096 = omega arith in
    let ne : (addr + 4096 == end) ≡ false = ground arith in rw (a, b, c, ne) refl

Filled-one :
    (ptep phys prot : ℕ) (mem : Words)
    → Filled 1 ptep phys prot mem (set_entry ptep (pfn_pte (pfn_down phys) prot) mem)
unfolding set_entry
Filled-one ptep phys prot mem = record {
  entries = elim [ zero ↦ λ lt. ground arith | suc i ↦ λ lt. absurd (omega arith) ];
  others = λ a out. let ne : a ≢ ptep + 0 * 8 = out 0 (omega arith) in ground arith;
}

Filled-more :
    (n ptep phys prot : ℕ) (mem mem' : Words)
    → Filled n
        (ptep + 8)
        (phys + 4096)
        prot
        (set_entry ptep (pfn_pte (pfn_down phys) prot) mem)
        mem'
    → Filled (suc n) ptep phys prot mem mem'
unfolding set_entry
Filled-more n ptep phys prot mem mem' f = record {
  entries = elim [
    | zero ↦ λ lt. f.others (ptep + 0 * 8) (λ i lt e. omega arith) ∙ ground arith
    | suc i ↦ λ lt.
        let place : ptep + suc i * 8 ≡ ptep + 8 + i * 8 = omega arith in
        let page : phys + 4096 + i * 4096 ≡ phys + suc i * 4096 = omega arith in
        ap mem' place ∙ f.entries i (omega arith) ∙ ap (λ q. pfn_pte (pfn_down q) prot) page
  ];
  others = λ a out.
      let ne : a ≢ ptep = λ e. out 0 (omega arith) (omega arith) in
      f.others a (λ i lt e. out (suc i) (omega arith) (omega arith)) ∙ ground arith;
}

pub pte_loop-Filled :
    (n fuel ptep addr phys prot : ℕ) (mem : Words)
    → n < fuel
    → addr + suc n * 4096 < 2 ^ 64
    → ptep + suc n * 8 < 2 ^ 64
    → phys + suc n * 4096 < 2 ^ 64
    → (mem' : Words) × (pte_loop fuel ptep addr (addr + suc n * 4096) phys prot mem ≡ some mem')
      × Filled (suc n) ptep phys prot mem mem'
pte_loop-Filled n zero ptep addr phys prot mem enough a b c = absurd (omega arith)
pte_loop-Filled zero (suc fuel) ptep addr phys prot mem enough a b c = (
  _,
  pte_loop-last fuel ptep addr (addr + 1 * 4096) phys prot mem (omega arith) a,
  Filled-one ptep phys prot mem,
)
pte_loop-Filled (suc n) (suc fuel) ptep addr phys prot mem enough a b c =
    let mem1 = set_entry ptep (pfn_pte (pfn_down phys) prot) mem in
    let (mem', runs, filled) =
      pte_loop-Filled n fuel (ptep + 8) (addr + 4096) (phys + 4096) prot mem1 (omega arith)
        (omega arith) (omega arith) (omega arith) in
    let same : addr + 4096 + suc n * 4096 ≡ addr + suc (suc n) * 4096 = omega arith in
    (
      mem',
      pte_loop-more fuel ptep addr (addr + suc (suc n) * 4096) phys prot mem (omega arith) a
            (omega arith) (omega arith)
          ∙ ap (λ e. pte_loop fuel (ptep + 8) (addr + 4096) e (phys + 4096) prot mem1) (sym same)
          ∙ runs,
      Filled-more (suc n) ptep phys prot mem mem' filled,
    )

pub pte_index_lem : (addr : ℕ) → pte_index addr ≡ addr / 4096 % 512
unfolding pte_index
pte_index_lem addr = bit_and_low 9 (addr / 4096)

-- Where the walk finds the entry of page `i` behind `addr`, as far as the table reaches.
ptep_lem :
    (pmd addr i : ℕ)
    → pmd_page_paddr pmd < 2 ^ 56
    → pte_index addr + i < 512
    → get_ptep_from_pmdp pmd (addr + i * 4096) ≡ pmd_page_paddr pmd + pte_index addr * 8 + i * 8
unfolding get_ptep_from_pmdp
ptep_lem pmd addr i low reach =
    let step : pte_index (addr + i * 4096) ≡ pte_index addr + i =
      omega (arith, pte_index_lem addr, pte_index_lem (addr + i * 4096)) in
    omega (arith, step)

pub ptep_first :
    (pmd addr : ℕ)
    → pmd_page_paddr pmd < 2 ^ 56
    → pte_index addr < 512
    → get_ptep_from_pmdp pmd addr ≡ pmd_page_paddr pmd + pte_index addr * 8
unfolding get_ptep_from_pmdp
ptep_first pmd addr low reach = omega arith

pub alloc_init_pte-some :
    (alloc_pgtable : Mmu → ℕ × Mmu) (fuel pmdp addr end phys prot : ℕ) (m : Mmu) (mem' : Words)
    → pte_loop fuel
        (get_ptep_from_pmdp ((fill_pmd alloc_pgtable pmdp m).mem pmdp) addr)
        addr
        end
        phys
        prot
        (fill_pmd alloc_pgtable pmdp m).mem
      ≡ some mem'
    → alloc_init_pte alloc_pgtable fuel pmdp addr end phys prot m
      ≡ some (record (fill_pmd alloc_pgtable pmdp m) { mem = mem' })
unfolding alloc_init_pte
alloc_init_pte-some alloc_pgtable fuel pmdp addr end phys prot m mem' runs =
    rw (runs, alloc_init_pte)

-- The memory `after` maps `n` pages from `addr` on to the pages from `phys` on, in the table that
-- the entry `pmd` names, and is `before` apart from the entries of these pages.
pub record MapsPages (n pmd addr phys prot : ℕ) (before after : Words) : Type 0 where
  pub mapped :
      (i : ℕ)
      → i < n
      → after (get_ptep_from_pmdp pmd (addr + i * 4096)) ≡ pfn_pte (pfn_down (phys + i * 4096)) prot
  pub others :
      (a : ℕ)
      → ((i : ℕ) → i < n → a ≢ get_ptep_from_pmdp pmd (addr + i * 4096))
      → after a ≡ before a

Filled-MapsPages :
    (n pmd addr phys prot : ℕ) (before after : Words)
    → pmd_page_paddr pmd < 2 ^ 56
    → pte_index addr + n ≤ 512
    → Filled n (pmd_page_paddr pmd + pte_index addr * 8) phys prot before after
    → MapsPages n pmd addr phys prot before after
Filled-MapsPages n pmd addr phys prot before after low reach f = record {
  mapped = λ i lt. ap after (ptep_lem pmd addr i low (omega arith)) ∙ f.entries i lt;
  others =
      λ a out. f.others a (λ i lt e. out i lt (e ∙ sym (ptep_lem pmd addr i low (omega arith))));
}

-- `alloc_init_pte` returns, for a range of pages that one table covers, fuel for its pages, and
-- addresses that do not wrap: it maps every page of the range to the page of `phys` at the same
-- distance, with the given protection, in the table of the entry at `pmdp` (which `fill_pmd` has
-- made if there was none), and writes nothing else.
pub alloc_init_pte-MapsPages :
    (alloc_pgtable : Mmu → ℕ × Mmu) (fuel n pmdp addr phys prot : ℕ) (m : Mmu)
    → n < fuel
    → pte_index addr + suc n ≤ 512
    → pmd_page_paddr ((fill_pmd alloc_pgtable pmdp m).mem pmdp) < 2 ^ 56
    → addr + suc n * 4096 < 2 ^ 64
    → phys + suc n * 4096 < 2 ^ 64
    → (m' : Mmu) × (alloc_init_pte alloc_pgtable fuel pmdp addr (addr + suc n * 4096) phys prot m
        ≡ some m')
      × MapsPages
          (suc n)
          ((fill_pmd alloc_pgtable pmdp m).mem pmdp)
          addr
          phys
          prot
          (fill_pmd alloc_pgtable pmdp m).mem
          m'.mem
      × (m'.alloc ≡ (fill_pmd alloc_pgtable pmdp m).alloc)
alloc_init_pte-MapsPages alloc_pgtable fuel n pmdp addr phys prot m enough reach low a b =
    let m1 = fill_pmd alloc_pgtable pmdp m in
    let ptep = pmd_page_paddr (m1.mem pmdp) + pte_index addr * 8 in
    let place = ptep_first (m1.mem pmdp) addr low (omega arith) in
    let (mem', runs, filled) =
      pte_loop-Filled n fuel ptep addr phys prot m1.mem enough a (omega arith) b in
    let runs' =
      ap (λ p. pte_loop fuel p addr (addr + suc n * 4096) phys prot m1.mem) place ∙ runs in
    (
      record m1 { mem = mem' },
      alloc_init_pte-some alloc_pgtable fuel pmdp addr (addr + suc n * 4096) phys prot m mem' runs',
      Filled-MapsPages (suc n) (m1.mem pmdp) addr phys prot m1.mem mem' low reach filled,
      refl,
    )
