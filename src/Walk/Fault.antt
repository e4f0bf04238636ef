-- ===== src/Walk/Fault.antt =====
-- `stage2_page_fault` of benos/src/stage2_mmu.c in the tables for a guest.
use risc_v_lab.Base.{
  ℕ, ◌+◌, ◌-◌, ◌*◌, ◌/◌, ◌%◌, ◌^◌, ◌≤◌, ◌<◌, ◌≡◌, ◌∙◌, inl, inr, sym, ap, arith, some, ◌==◌,
  if◌then◌else◌,
}
use native.Mathlib.Decide.{ℕ_discrete, dec_lt}
use risc_v_lab.Mm.{pfn_down}
use risc_v_lab.Pgtable.{pfn_pte, prot_read_exec, prot_write_exec}
use risc_v_lab.Mmu.{Mmu, rounds}
use risc_v_lab.Mmu.Guest.{
  GuestLayout, stage2_page_fault, set_stage2_page_mapping, cause_store_guest_page_fault,
  stage2_page_fault-maps,
}
use risc_v_lab.Walk.{entry_for, walk_pgtable}
use risc_v_lab.Walk.Supply.{free_pages}
use risc_v_lab.Walk.Tree.{Role, IsTree}
use risc_v_lab.Walk.Maps.{Maps, Maps-ends}
use risc_v_lab.Walk.Devices.{Spends}
use risc_v_lab.Walk.Mapping.{found, create_pgd_mapping-Maps, walk_pgtable-entry_for}

-- The protection for the cause of a fault.
abbrev pub fault_prot : ℕ → ℕ
fault_prot scause =
    if scause == cause_store_guest_page_fault then prot_write_exec else prot_read_exec

map_page :
    (l : GuestLayout) (page prot : ℕ) (role : ℕ → Role) (m : Mmu)
    → IsTree l.hs_pg_dir role m
    → page % 4096 ≡ 0
    → page + 4096 ≤ 2 ^ 39
    → 2 ≤ free_pages m.alloc.mem_map
    → (m' : Mmu) × (set_stage2_page_mapping l page page 4096 prot m ≡ some m')
      × Maps l.hs_pg_dir page (page + 4096) page prot 2 m m'
unfolding set_stage2_page_mapping
map_page l page prot role m t whole low left =
    let a : page / 4096 * 4096 ≡ page = omega arith in
    let b : (page + 4096 + 4095) / 4096 * 4096 ≡ page + 4096 = omega arith in
    let (m', runs, maps) =
      create_pgd_mapping-Maps rounds l.hs_pg_dir page page 4096 prot role m t (omega arith) low
        (omega arith) (omega arith) (omega arith) in
    (
      m',
      runs,
      Maps-ends l.hs_pg_dir (page / 4096 * 4096) page ((page + 4096 + 4095) / 4096 * 4096)
          (page + 4096) prot _ 2 m m' a b (omega arith) maps,
    )

page_entry :
    (dir gpa prot : ℕ) (m m' : Mmu)
    → Maps dir (gpa / 4096 * 4096) (gpa / 4096 * 4096 + 4096) (gpa / 4096 * 4096) prot 2 m m'
    → (va : ℕ) → va < 2 ^ 39
    → entry_for dir m'.mem va
      ≡ (if va / 4096 == gpa / 4096 then pfn_pte (pfn_down va) prot else entry_for dir m.mem va)
page_entry dir gpa prot m m' maps va fits = elim (ℕ_discrete (va / 4096) (gpa / 4096)) [
  | yes e ↦
      let same : gpa / 4096 * 4096 + (va - gpa / 4096 * 4096) ≡ va = omega arith in
      maps.inside va (omega arith) (omega arith)
      ∙ ap (λ p. pfn_pte (pfn_down p) prot) same
      ∙ ground arith
  | no ne ↦ elim (dec_lt va (gpa / 4096 * 4096)) [
    | yes lt ↦ maps.outside va fits (inl lt) ∙ ground arith
    | no ge ↦ maps.outside va fits (inr (omega arith)) ∙ ground arith
  ]
]

-- A fault of the guest is served: for an address below 2 ^ 39 - 4096, as the hardware reports it in
-- htval and stval, tables of the right shape and two free pages, `stage2_page_fault` returns; then
-- a walk of the tables finds, for every address of the page that faulted, the entry that maps it to
-- itself, writable after a store and read-only otherwise, for every other address what it found
-- before, the tables have the right shape again, and at most two pages have been taken, which were
-- free; so the next fault is served in the same way.
pub stage2_page_fault-served :
    (l : GuestLayout) (gpa stval scause : ℕ) (role : ℕ → Role) (m : Mmu)
    → gpa + 4096 < 2 ^ 39
    → stval % 4 ≡ gpa % 4
    → IsTree l.hs_pg_dir role m
    → 2 ≤ free_pages m.alloc.mem_map
    → (m' : Mmu) × (stage2_page_fault l (gpa / 4) stval scause m ≡ some m')
      × ((va : ℕ)
          → va < 2 ^ 39
          → found (walk_pgtable l.hs_pg_dir va m'.mem) m'.mem ≡ (
              if va / 4096 == gpa / 4096
              then pfn_pte (pfn_down va) (fault_prot scause)
              else found (walk_pgtable l.hs_pg_dir va m.mem) m.mem))
      × (role' : ℕ → Role) × IsTree l.hs_pg_dir role' m'
      × Spends 2 m m'
stage2_page_fault-served l gpa stval scause role m small low t left =
    let page = gpa / 4096 * 4096 in
    let prot = fault_prot scause in
    let (m1, runs, same) = stage2_page_fault-maps l gpa stval scause m (omega arith) low in
    let (m', runs', maps) = map_page l page prot role m t (omega arith) (omega arith) left in
    (
      m',
      runs ∙ sym same ∙ runs',
      (λ va fits.
          walk_pgtable-entry_for l.hs_pg_dir va maps.grows.role m' maps.grows.tree fits
          ∙ page_entry l.hs_pg_dir gpa prot m m' maps va fits
          ∙ ap (λ e. if va / 4096 == gpa / 4096 then pfn_pte (pfn_down va) prot else e)
              (sym (walk_pgtable-entry_for l.hs_pg_dir va role m t fits))),
      maps.grows.role,
      maps.grows.tree,
      (maps.grows.supply, maps.grows.still, maps.grows.same),
    )
