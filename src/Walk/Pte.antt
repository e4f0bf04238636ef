-- ===== src/Walk/Pte.antt =====
-- `alloc_init_pte` of benos/src/mmu.c in the tree: the part of a mapping that one table covers.
use risc_v_lab.Base.{
  refl, ℕ, ◌+◌, ◌-◌, ◌*◌, ◌/◌, ◌%◌, ◌^◌, ◌≤◌, ◌<◌, ◌≡◌, ◌≢◌, ◌∙◌, ◌⊎◌, inl, inr, sym, ap, arith,
}
use native.Mathlib.Decide.{ℕ_discrete}
use risc_v_lab.Mm.{pfn_down}
use risc_v_lab.Pgtable.{pgd_page_paddr, pmd_page_paddr, pfn_pte}
use risc_v_lab.Mmu.{Words, Mmu}
use risc_v_lab.Mmu.Ptes.{Filled}
use risc_v_lab.Walk.{leaf_at, entry_at, entry_for}
use risc_v_lab.Walk.Tree.{Role, unused, top, middle, bottom, IsTree, apart}
use risc_v_lab.Walk.Fill.{is_page}
use risc_v_lab.Walk.Paths.{leaf_at-some, entry_at-some, same_walk}
use risc_v_lab.Walk.Maps.{Grows, Maps}

-- `n` entries of the table under entry `j` of the table under entry `i` of the directory are
-- written, from entry `k` on.
module _ (dir : ℕ) (role : ℕ → Role) (m : Mmu) (t : IsTree dir role m) (i j k n phys prot : ℕ)
    (mem' : Words) (hi : i < 512) (hj : j < 512) (reach : k + n ≤ 512)
    (full_top : m.mem (dir + i * 8) ≢ 0)
    (full_middle : m.mem (pgd_page_paddr (m.mem (dir + i * 8)) + j * 8) ≢ 0)
    (filled : Filled n
      (pmd_page_paddr (m.mem (pgd_page_paddr (m.mem (dir + i * 8)) + j * 8)) + k * 8)
      phys
      prot
      m.mem
      mem') where
  abbrev base : ℕ
  base = pgd_page_paddr (m.mem (dir + i * 8))

  abbrev table : ℕ
  table = pmd_page_paddr (m.mem (base + j * 8))

  at_base : role base ≡ middle i
  at_base = t.tops i hi full_top

  at_table : role table ≡ bottom i j
  at_table = t.middles base i j at_base hj full_middle

  -- The other pages of the tree, and the other entries of the table, are as before.
  elsewhere :
      (p x : ℕ) (r : Role)
      → role p ≡ r
      → r ≢ unused
      → r ≢ bottom i j
      → x < 512
      → mem' (p + x * 8) ≡ m.mem (p + x * 8)
  elsewhere p x r e used ne hx = filled.others (p + x * 8) λ y lt at.
      apart p table x (k + y) (is_page dir role m t p r e used)
        (is_page dir role m t table (bottom i j) at_table (λ e. cc))
        (λ same. ne (sym e ∙ ap role same ∙ at_table)) hx (omega arith) (omega (arith, at))

  beside : (x : ℕ) → ((x < k) ⊎ (k + n ≤ x)) → mem' (table + x * 8) ≡ m.mem (table + x * 8)
  beside x (inl lt) = filled.others (table + x * 8) (λ y hy at. omega (arith, at))
  beside x (inr ge) = filled.others (table + x * 8) (λ y hy at. omega (arith, at))

  written-IsTree : IsTree dir role (record m { mem = mem' })
  written-IsTree = record {
    pool = t.pool;
    root = t.root;
    tables = t.tables;
    spare = t.spare;
    tops = λ x hx ne.
        let kept = elsewhere dir x top t.root (λ e. cc) (λ e. cc) hx in
        ap (λ e. role (pgd_page_paddr e)) kept ∙ t.tops x hx (λ e. ne (kept ∙ e));
    middles = λ p x y e hy ne.
        let kept = elsewhere p y (middle x) e (λ e. cc) (λ e. cc) hy in
        ap (λ e. role (pmd_page_paddr e)) kept ∙ t.middles p x y e hy (λ e. ne (kept ∙ e));
  }

  written-Grows : Grows dir 0 m (record m { mem = mem' })
  written-Grows = record {
    role = role;
    tree = written-IsTree;
    supply = omega arith;
    still = λ q h. h;
    same = record { start = refl; count = refl };
    kept = λ x hx ne. elsewhere dir x top t.root (λ e. cc) (λ e. cc) hx;
  }

  written_entry :
      (x : ℕ) → x < n → entry_at dir mem' i j (k + x) ≡ pfn_pte (pfn_down (phys + x * 4096)) prot
  written_entry x lt =
      let kept = elsewhere dir i top t.root (λ e. cc) (λ e. cc) hi in
      let kept' = elsewhere base j (middle i) at_base (λ e. cc) (λ e. cc) hj in
      entry_at-some dir mem' i j (k + x) (λ e. full_top (sym kept ∙ e))
      ∙ ap (λ e. leaf_at (pgd_page_paddr e) mem' j (k + x)) kept
      ∙ leaf_at-some base mem' j (k + x) (λ e. full_middle (sym kept' ∙ e))
      ∙ ap (λ e. mem' (pmd_page_paddr e + (k + x) * 8)) kept'
      ∙ ap mem' (omega arith)
      ∙ filled.entries x lt

  unwritten_entry :
      (x y z : ℕ)
      → x < 512
      → y < 512
      → z < 512
      → ((x ≢ i) ⊎ ((y ≢ j) ⊎ ((z < k) ⊎ (k + n ≤ z))))
      → entry_at dir mem' x y z ≡ entry_at dir m.mem x y z
  unwritten_entry x y z hx hy hz out =
      same_walk dir role m t x y z hx hy mem' (elsewhere dir x top t.root (λ e. cc) (λ e. cc) hx)
        (λ p e. elsewhere p y (middle x) e (λ e. cc) (λ e. cc) hy)
        (λ p e. elim out [
          | inl ne ↦ elsewhere p z (bottom x y) e (λ e. cc) (λ e. ne cc) hz
          | inr (inl ne) ↦ elsewhere p z (bottom x y) e (λ e. cc) (λ e. ne cc) hz
          | inr (inr far) ↦ elim (ℕ_discrete p table) [
            | yes same ↦ rw same (beside z far)
            | no ne ↦ filled.others (p + z * 8) λ w lt at.
                apart p table z (k + w) (is_page dir role m t p (bottom x y) e (λ e. cc))
                  (is_page dir role m t table (bottom i j) at_table (λ e. cc)) ne hz (omega arith)
                  (omega (arith, at))
          ]
        ])

-- The parts of an address in a range that lies in one table.
same_block :
    (addr n end va : ℕ)
    → addr + n * 4096 ≡ end
    → addr % 4096 ≡ 0
    → addr / 4096 % 512 + n ≤ 512
    → addr ≤ va
    → va < end
    → (va / 2 ^ 30 ≡ addr / 2 ^ 30)
      × (va / 2 ^ 21 % 512 ≡ addr / 2 ^ 21 % 512)
      × (va / 4096 % 512 ≡ addr / 4096 % 512 + (va - addr) / 4096)
same_block addr n end va e whole reach from to = omega arith

other_block :
    (addr n end va : ℕ)
    → addr + n * 4096 ≡ end
    → addr % 4096 ≡ 0
    → addr / 4096 % 512 + n ≤ 512
    → (va < addr) ⊎ (end ≤ va)
    → ((va / 2 ^ 30 ≢ addr / 2 ^ 30)
        ⊎ ((va / 2 ^ 21 % 512 ≢ addr / 2 ^ 21 % 512)
            ⊎ ((va / 4096 % 512 < addr / 4096 % 512) ⊎ (addr / 4096 % 512 + n ≤ va / 4096 % 512))))
other_block addr n end va e whole reach out = elim (ℕ_discrete (va / 2 ^ 30) (addr / 2 ^ 30)) [
  | no ne ↦ inl ne
  | yes e1 ↦ elim (ℕ_discrete (va / 2 ^ 21 % 512) (addr / 2 ^ 21 % 512)) [
    | no ne ↦ inr (inl ne)
    | yes e' ↦ elim out [
      | inl lt ↦ inr (inr (inl (omega arith)))
      | inr ge ↦ inr (inr (inr (omega arith)))
    ]
  ]
]

-- The page of an address behind a page's address.
page_behind :
    (phys x : ℕ) → phys % 4096 ≡ 0 → pfn_down (phys + x / 4096 * 4096) ≡ pfn_down (phys + x)
unfolding pfn_down
page_behind phys x whole = omega arith

pub written-Maps :
    (dir : ℕ) (role : ℕ → Role) (m : Mmu) (t : IsTree dir role m) (addr n end phys prot : ℕ)
    (mem' : Words)
    → addr + n * 4096 ≡ end
    → addr % 4096 ≡ 0
    → addr < 2 ^ 39
    → phys % 4096 ≡ 0
    → addr / 4096 % 512 + n ≤ 512
    → m.mem (dir + addr / 2 ^ 30 * 8) ≢ 0
    → m.mem (pgd_page_paddr (m.mem (dir + addr / 2 ^ 30 * 8)) + addr / 2 ^ 21 % 512 * 8) ≢ 0
    → Filled n
        (pmd_page_paddr
            (m.mem (pgd_page_paddr (m.mem (dir + addr / 2 ^ 30 * 8)) + addr / 2 ^ 21 % 512 * 8))
          + addr / 4096 % 512 * 8)
        phys
        prot
        m.mem
        mem'
    → Maps dir addr end phys prot 0 m (record m { mem = mem' })
unfolding entry_for
written-Maps dir role m t addr n end phys prot mem' e whole small whole' reach full full' filled =
    let i = addr / 2 ^ 30 in
    let j = addr / 2 ^ 21 % 512 in
    let k = addr / 4096 % 512 in
    let hi : i < 512 = omega arith in
    let hj : j < 512 = omega arith in
    record {
      grows = written-Grows dir role m t i j k n phys prot mem' hi hj reach full full' filled;
      inside = λ va from to.
          let (a, b, c) = same_block addr n end va e whole reach from to in
          let x = (va - addr) / 4096 in
          rw (a, b, c)
            (written_entry dir role m t i j k n phys prot mem' hi hj reach full full' filled x
                (omega arith)
              ∙ ap (λ p. pfn_pte p prot) (page_behind phys (va - addr) whole'));
      outside = λ va low out.
          unwritten_entry dir role m t i j k n phys prot mem' hi hj reach full full' filled
            (va / 2 ^ 30) (va / 2 ^ 21 % 512) (va / 4096 % 512) (omega arith) (omega arith)
            (omega arith) (other_block addr n end va e whole reach out);
    }
