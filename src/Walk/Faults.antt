-- ===== src/Walk/Faults.antt =====
-- A guest runs into faults, one after the other, and benos/src/stage2_mmu.c serves them.
use risc_v_lab.Base.{
  ℕ, ◌+◌, ◌*◌, ◌/◌, ◌^◌, ◌≤◌, ◌<◌, ◌≡◌, ◌∙◌, ap, refl, arith, Option, some, ◌==◌, if◌then◌else◌,
  ◌>>=◌, List, [], ◌∷◌, length, All,
}
use risc_v_lab.Mm.{pfn_down}
use risc_v_lab.Pgtable.{pfn_pte}
use risc_v_lab.Mmu.{Mmu}
use risc_v_lab.Mmu.Guest.{GuestLayout, stage2_page_fault}
use risc_v_lab.Walk.{walk_pgtable}
use risc_v_lab.Walk.Supply.{free_pages}
use risc_v_lab.Walk.Tree.{Role, IsTree}
use risc_v_lab.Walk.Mapping.{found}
use risc_v_lab.Walk.Fault.{fault_prot, stage2_page_fault-served}

-- Faults at the guest's addresses, each with its cause.
unfoldable pub serve_faults : GuestLayout → List (ℕ × ℕ) → Mmu → Option Mmu
serve_faults l [] m = some m
serve_faults l ((gpa, scause) ∷ faults) m = do
  m1 ← stage2_page_fault l (gpa / 4) gpa scause m
  serve_faults l faults m1

-- The entry that is found for `va` after the faults, from the entry `old` before them: that of the
-- last fault in its page, which maps the page to itself, writable after a store and read-only
-- otherwise.
abbrev pub entry_after : List (ℕ × ℕ) → ℕ → ℕ → ℕ
entry_after [] va old = old
entry_after ((gpa, scause) ∷ faults) va old =
    entry_after faults va
      (if va / 4096 == gpa / 4096 then pfn_pte (pfn_down va) (fault_prot scause) else old)

-- `stage2_page_fault` serves any sequence of faults at addresses below 2 ^ 39 - 4096, from tables of
-- the right shape and with two free pages for each fault, and at the end a walk finds, for every
-- address below 2 ^ 39: if faults were in its page, the entry of the last one, which is valid, leads
-- to the page itself, and has the protection for writing if that fault was a store and the one for
-- reading otherwise; and else what it found before. The tables have the right shape again.
pub serve_faults-entries :
    (l : GuestLayout) (faults : List (ℕ × ℕ)) (role : ℕ → Role) (m : Mmu)
    → IsTree l.hs_pg_dir role m
    → All (λ f. f.0 + 4096 < 2 ^ 39) faults
    → 2 * length faults ≤ free_pages m.alloc.mem_map
    → (m' : Mmu) × (serve_faults l faults m ≡ some m')
      × ((va : ℕ)
          → va < 2 ^ 39
          → found (walk_pgtable l.hs_pg_dir va m'.mem) m'.mem
            ≡ entry_after faults va (found (walk_pgtable l.hs_pg_dir va m.mem) m.mem))
      × (role' : ℕ → Role) × IsTree l.hs_pg_dir role' m'
unfolding serve_faults
serve_faults-entries l [] role m t low left = (m, refl, (λ va small. refl), role, t)
serve_faults-entries l ((gpa, scause) ∷ faults) role m t low left =
    let (m1, runs, entries, role1, tree, spent) =
      stage2_page_fault-served l gpa gpa scause role m low.0 refl t (omega arith) in
    let (m', runs', after, role', tree') =
      serve_faults-entries l faults role1 m1 tree low.1 (omega (arith, spent.0)) in
    (
      m',
      rw runs runs',
      (λ va small. after va small ∙ ap (entry_after faults va) (entries va small)),
      role',
      tree',
    )
