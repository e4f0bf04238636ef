-- ===== src/Walk/Tables.antt =====
-- The tables that `alloc_init_pmd` and `alloc_init_pte` of benos/src/mmu.c add where an entry is
-- empty.
use risc_v_lab.Base.{ℕ, ◌+◌, ◌*◌, ◌/◌, ◌^◌, ◌<◌, ◌≡◌, ◌≢◌, ◌∙◌, ap, refl, arith, ◌==◌, true, false}
use native.Mathlib.Decide.{ℕ_discrete}
use risc_v_lab.Mm.{pfn_down}
use risc_v_lab.Pgtable.{page_table, pfn_pgd, pfn_pmd, pfn_pte}
use risc_v_lab.Pgtable.Entries.{pfn_pte_lem, pmd_page_paddr-pfn_pte}
use risc_v_lab.Mmu.{Mmu, set_entry, fill_pmd, fill_pgd}
use risc_v_lab.Walk.Supply.{IsTableAlloc, free_pages}
use risc_v_lab.Walk.Tree.{Role, unused, top, middle, bottom, IsTree, Links, Takes-Links}
use risc_v_lab.Walk.Fill.{used_page, is_page, other_page, top-IsTree, middle-IsTree}
use risc_v_lab.Walk.Paths.{top-same, middle-same}
use risc_v_lab.Walk.Maps.{Grows, SameEntries}

-- The entry that names the table at `p`.
link_nonzero : (p : ℕ) → p < 2 ^ 56 → pfn_pte (pfn_down p) page_table ≢ 0
unfolding pfn_down
link_nonzero p h e = omega (arith, pfn_pte_lem (p / 4096) page_table (omega arith) (omega arith))

pfn_pmd-pte : (p : ℕ) → pfn_pmd p page_table ≡ pfn_pte p page_table
unfolding pfn_pmd pfn_pte
pfn_pmd-pte p = refl

pfn_pgd-pte : (p : ℕ) → pfn_pgd p page_table ≡ pfn_pte p page_table
unfolding pfn_pgd pfn_pte
pfn_pgd-pte p = refl

-- The memory after a free page has been taken and linked at `s`.
abbrev linked : Mmu → ℕ → ℕ → Mmu
linked m1 s p = record m1 { mem = set_entry s (pfn_pte (pfn_down p) page_table) m1.mem }

module _ (alloc_pgtable : Mmu → ℕ × Mmu) where
  fill_pmd-full : (s : ℕ) (m : Mmu) → m.mem s ≢ 0 → fill_pmd alloc_pgtable s m ≡ m
  unfolding fill_pmd
  fill_pmd-full s m ne =
      let full : (m.mem s == 0) ≡ false = ground arith in rw (full, fill_pmd) refl

  fill_pmd-empty :
      (s : ℕ) (m : Mmu)
      → m.mem s ≡ 0
      → fill_pmd alloc_pgtable s m ≡ linked (alloc_pgtable m).1 s (alloc_pgtable m).0
  unfolding fill_pmd pfn_pmd pfn_pte
  fill_pmd-empty s m e =
      let empty : (m.mem s == 0) ≡ true = ground arith in rw (empty, fill_pmd) refl

  fill_pgd-full : (s : ℕ) (m : Mmu) → m.mem s ≢ 0 → fill_pgd alloc_pgtable s m ≡ m
  unfolding fill_pgd
  fill_pgd-full s m ne =
      let full : (m.mem s == 0) ≡ false = ground arith in rw (full, fill_pgd) refl

  fill_pgd-empty :
      (s : ℕ) (m : Mmu)
      → m.mem s ≡ 0
      → fill_pgd alloc_pgtable s m ≡ linked (alloc_pgtable m).1 s (alloc_pgtable m).0
  unfolding fill_pgd pfn_pgd pfn_pte
  fill_pgd-empty s m e =
      let empty : (m.mem s == 0) ≡ true = ground arith in rw (empty, fill_pgd) refl

  -- What the new table is, once it is linked.
  module _ (law : IsTableAlloc alloc_pgtable) (dir : ℕ) (role : ℕ → Role) (m : Mmu)
      (t : IsTree dir role m) where
    new_link :
        (base x : ℕ) (own : Role)
        → 0 < free_pages m.alloc.mem_map
        → role base ≡ own
        → own ≢ unused
        → x < 512
        → m.mem (base + x * 8) ≡ 0
        → Links m
            (base + x * 8)
            (alloc_pgtable m).0
            (linked (alloc_pgtable m).1 (base + x * 8) (alloc_pgtable m).0)
    new_link base x own left e used hx empty =
        let taken = law m t.pool left in
        Takes-Links m (alloc_pgtable m).1 base x (alloc_pgtable m).0
          (pfn_pte (pfn_down (alloc_pgtable m).0) page_table) taken
          (is_page dir role m t base own e used)
          (used_page dir role m t (alloc_pgtable m).0 base own
            (t.spare (alloc_pgtable m).0 taken.was_free) e used)
          hx empty (link_nonzero (alloc_pgtable m).0 taken.page.2)
          (pmd_page_paddr-pfn_pte (alloc_pgtable m).0 page_table taken.page.2 taken.page.1
            (omega arith)).0

    no_table : Grows dir 1 m m
    no_table = record {
      role = role;
      tree = t;
      supply = omega arith;
      still = λ q h. h;
      same = record { start = refl; count = refl };
      kept = λ x hx ne. refl;
    }

    pub fill_pgd-Grows :
        (i : ℕ)
        → 0 < free_pages m.alloc.mem_map
        → i < 512
        → Grows dir 1 m (fill_pgd alloc_pgtable (dir + i * 8) m)
          × SameEntries dir m (fill_pgd alloc_pgtable (dir + i * 8) m)
          × ((fill_pgd alloc_pgtable (dir + i * 8) m).mem (dir + i * 8) ≢ 0)
    fill_pgd-Grows i left hi = elim (ℕ_discrete (m.mem (dir + i * 8)) 0) [
      | yes empty ↦
          let p = (alloc_pgtable m).0 in
          let link = new_link dir i top left t.root (λ e. cc) hi empty in
          rw (fill_pgd-empty (dir + i * 8) m empty) (
            record {
              role = _;
              tree =
                  top-IsTree dir role m t i p (linked (alloc_pgtable m).1 (dir + i * 8) p) hi link;
              supply = omega (arith, (law m t.pool left).supply);
              still = link.still;
              same = (law m t.pool left).same;
              kept = λ x hx ne.
                  link.kept dir x (is_page dir role m t dir top t.root (λ e. cc))
                    (used_page dir role m t p dir top (t.spare p link.was_free) t.root (λ e. cc)) hx
                    (λ at. ne (ap m.mem at ∙ empty));
            },
            (λ i' j k hi' hj hk.
                top-same dir role m t i' j k hi' hj i p (linked (alloc_pgtable m).1 (dir + i * 8) p)
                  hi hk link),
            link.full,
          )
      | no ne ↦ rw (fill_pgd-full (dir + i * 8) m ne) (no_table, (λ i' j k hi' hj hk. refl), ne)
    ]

    pub fill_pmd-Grows :
        (base i j : ℕ)
        → 0 < free_pages m.alloc.mem_map
        → role base ≡ middle i
        → j < 512
        → Grows dir 1 m (fill_pmd alloc_pgtable (base + j * 8) m)
          × SameEntries dir m (fill_pmd alloc_pgtable (base + j * 8) m)
          × ((fill_pmd alloc_pgtable (base + j * 8) m).mem (base + j * 8) ≢ 0)
    fill_pmd-Grows base i j left at_base hj = elim (ℕ_discrete (m.mem (base + j * 8)) 0) [
      | yes empty ↦
          let p = (alloc_pgtable m).0 in
          let link = new_link base j (middle i) left at_base (λ e. cc) hj empty in
          let other =
            other_page dir role m t base j p (bottom i j) (middle i)
              (linked (alloc_pgtable m).1 (base + j * 8) p) link at_base (λ e. cc) (λ e. cc) hj in
          rw (fill_pmd-empty (base + j * 8) m empty) (
            record {
              role = _;
              tree =
                  middle-IsTree dir role m t base i j p
                    (linked (alloc_pgtable m).1 (base + j * 8) p) at_base hj link;
              supply = omega (arith, (law m t.pool left).supply);
              still = link.still;
              same = (law m t.pool left).same;
              kept = λ x hx ne. other dir top x t.root (λ e. cc) (λ e. cc) hx;
            },
            (λ i' j' k hi' hj' hk.
                middle-same dir role m t i' j' k hi' hj' base i j p
                  (linked (alloc_pgtable m).1 (base + j * 8) p) at_base hj hk link),
            link.full,
          )
      | no ne ↦ rw (fill_pmd-full (base + j * 8) m ne) (no_table, (λ i' j' k hi' hj' hk. refl), ne)
    ]
