-- ===== src/Walk/Fill.antt =====
-- A table that `alloc_init_pte` and `alloc_init_pmd` of benos/src/mmu.c add to the tree: the tree
-- keeps its shape, and no address is mapped by it.
use risc_v_lab.Base.{ℕ, ◌+◌, ◌*◌, ◌<◌, ◌≡◌, ◌≢◌, ◌∙◌, sym, ap, refl, arith}
use native.Mathlib.Decide.{ℕ_discrete}
use risc_v_lab.Pgtable.{pgd_page_paddr, pmd_page_paddr}
use risc_v_lab.Mmu.{Mmu}
use risc_v_lab.Walk.Supply.{IsTablePage, IsFreePage}
use risc_v_lab.Walk.Tree.{
  Role, unused, top, middle, bottom, IsTree, apart, Links, assign, assign_self, assign_ne,
  assign_used,
}

-- Both levels read the address in an entry in the same way.
pub pgd_page_paddr-pmd : (e : ℕ) → pgd_page_paddr e ≡ pmd_page_paddr e
unfolding pgd_page_paddr pmd_page_paddr
pgd_page_paddr-pmd e = refl

module _ (dir : ℕ) (role : ℕ → Role) (m : Mmu) (t : IsTree dir role m) where
  -- A used page and its entries outlive the new table.
  pub used_page : (p q : ℕ) (r : Role) → role p ≡ unused → role q ≡ r → r ≢ unused → q ≢ p
  used_page p q r fresh e used = λ same. used (sym e ∙ ap role same ∙ fresh)

  pub is_page : (q : ℕ) (r : Role) → role q ≡ r → r ≢ unused → IsTablePage q
  is_page q r e used = t.tables q (λ u. used (sym e ∙ u))

  -- Where the new table of the role `r` lies under an entry of the used page `base`.
  module _ (base x p : ℕ) (r own : Role) (m' : Mmu) (l : Links m (base + x * 8) p m')
      (base_role : role base ≡ own) (used_base : own ≢ unused) (used_r : r ≢ unused)
      (hx : x < 512) where
    fresh : role p ≡ unused
    fresh = t.spare p l.was_free

    -- An entry elsewhere.
    pub same_entry :
        (q : ℕ) (r' : Role) (y : ℕ)
        → role q ≡ r'
        → r' ≢ unused
        → y < 512
        → q + y * 8 ≢ base + x * 8
        → m'.mem (q + y * 8) ≡ m.mem (q + y * 8)
    same_entry q r' y e used hy out =
        l.kept q y (is_page q r' e used) (used_page p q r' fresh e used) hy out

    pub other_page :
        (q : ℕ) (r' : Role) (y : ℕ)
        → role q ≡ r'
        → r' ≢ unused
        → r' ≢ own
        → y < 512
        → m'.mem (q + y * 8) ≡ m.mem (q + y * 8)
    other_page q r' y e used ne hy = same_entry q r' y e used hy (
        apart q base y x (is_page q r' e used) (is_page base own base_role used_base)
          (λ same. ne (sym e ∙ ap role same ∙ base_role)) hy hx)

    tables_after : (q : ℕ) → assign p r role q ≢ unused → IsTablePage q
    tables_after q h = elim (ℕ_discrete q p) [
      | yes e ↦ rw e l.page
      | no ne ↦ t.tables q (λ u. h (assign_ne p r role q ne ∙ u))
    ]

    spare_after : (q : ℕ) → IsFreePage m'.alloc q → assign p r role q ≡ unused
    spare_after q free =
        assign_ne p r role q (λ e. l.now_taken (rw (sym e) free)) ∙ t.spare q (l.still q free)

    root_after : assign p r role dir ≡ top
    root_after = assign_used p r top role dir fresh t.root (λ e. cc)

  -- Entries at one place are entries of one page.
  same_page :
      (q base y x i' i : ℕ)
      → role q ≡ middle i'
      → role base ≡ middle i
      → y < 512
      → x < 512
      → q + y * 8 ≡ base + x * 8
      → q ≡ base
  same_page q base y x i' i e e' hy hx at =
      omega (arith, (is_page q (middle i') e (λ e. cc)).1, (is_page base (middle i) e' (λ e. cc)).1)

  same_middle : (q base i' i : ℕ) → role q ≡ middle i' → role base ≡ middle i → q ≡ base → i ≡ i'
  same_middle q base i' i e e' at = cc

  pub top-IsTree :
      (i p : ℕ) (m' : Mmu)
      → i < 512
      → Links m (dir + i * 8) p m'
      → IsTree dir (assign p (middle i) role) m'
  top-IsTree i p m' hi l =
      let fresh = t.spare p l.was_free in
      let other = other_page dir i p (middle i) top m' l t.root (λ e. cc) (λ e. cc) hi in
      let same = same_entry dir i p (middle i) top m' l t.root (λ e. cc) (λ e. cc) hi in
      record {
        pool = l.pool;
        root = root_after dir i p (middle i) top m' l t.root (λ e. cc) (λ e. cc) hi;
        tables = tables_after dir i p (middle i) top m' l t.root (λ e. cc) (λ e. cc) hi;
        spare = spare_after dir i p (middle i) top m' l t.root (λ e. cc) (λ e. cc) hi;
        tops = λ i' hi' ne. elim (ℕ_discrete i' i) [
          | yes e ↦
              rw (e, pgd_page_paddr-pmd (m'.mem (dir + i * 8)), l.names)
                (assign_self p (middle i) role)
          | no out ↦
              let kept = same dir top i' t.root (λ e. cc) hi' (λ e. out (omega (arith, e))) in
              assign_used p (middle i) (middle i') role (pgd_page_paddr (m'.mem (dir + i' * 8)))
                fresh (ap (λ e. role (pgd_page_paddr e)) kept ∙ t.tops i' hi' (λ e. ne (kept ∙ e)))
                (λ e. cc)
        ];
        middles = λ q i' j e hj ne. elim (ℕ_discrete q p) [
          | yes at ↦ absurd (ne (ap (λ a. m'.mem (a + j * 8)) at ∙ l.zeros j hj))
          | no out ↦
              let e' = sym (assign_ne p (middle i) role q out) ∙ e in
              let kept = other q (middle i') j e' (λ e. cc) (λ e. cc) hj in
              assign_used p (middle i) (bottom i' j) role (pmd_page_paddr (m'.mem (q + j * 8)))
                fresh
                (ap (λ e. role (pmd_page_paddr e)) kept
                  ∙ t.middles q i' j e' hj (λ e. ne (kept ∙ e)))
                (λ e. cc)
        ];
      }

  pub middle-IsTree :
      (base i j p : ℕ) (m' : Mmu)
      → role base ≡ middle i
      → j < 512
      → Links m (base + j * 8) p m'
      → IsTree dir (assign p (bottom i j) role) m'
  middle-IsTree base i j p m' at_base hj l =
      let fresh = t.spare p l.was_free in
      let other = other_page base j p (bottom i j) (middle i) m' l at_base (λ e. cc) (λ e. cc) hj in
      let same = same_entry base j p (bottom i j) (middle i) m' l at_base (λ e. cc) (λ e. cc) hj in
      record {
        pool = l.pool;
        root = root_after base j p (bottom i j) (middle i) m' l at_base (λ e. cc) (λ e. cc) hj;
        tables = tables_after base j p (bottom i j) (middle i) m' l at_base (λ e. cc) (λ e. cc) hj;
        spare = spare_after base j p (bottom i j) (middle i) m' l at_base (λ e. cc) (λ e. cc) hj;
        tops = λ i' hi' ne.
            let kept = other dir top i' t.root (λ e. cc) (λ e. cc) hi' in
            assign_used p (bottom i j) (middle i') role (pgd_page_paddr (m'.mem (dir + i' * 8)))
              fresh (ap (λ e. role (pgd_page_paddr e)) kept ∙ t.tops i' hi' (λ e. ne (kept ∙ e)))
              (λ e. cc);
        middles = λ q i' j' e hj' ne. elim (ℕ_discrete q p) [
          | yes at ↦ absurd (ne (ap (λ a. m'.mem (a + j' * 8)) at ∙ l.zeros j' hj'))
          | no out ↦
              let e' = sym (assign_ne p (bottom i j) role q out) ∙ e in
              elim (ℕ_discrete (q + j' * 8) (base + j * 8)) [
                | yes at ↦
                    let at_page = same_page q base j' j i' i e' at_base hj' hj at in
                    rw (at, l.names)
                      (assign_self p (bottom i j) role
                        ∙ ap (λ x. bottom x j) (same_middle q base i' i e' at_base at_page)
                        ∙ ap (bottom i') (omega (arith, at, at_page)))
                | no ne' ↦
                    let kept = same q (middle i') j' e' (λ e. cc) hj' ne' in
                    assign_used p (bottom i j) (bottom i' j') role
                      (pmd_page_paddr (m'.mem (q + j' * 8))) fresh
                      (ap (λ e. role (pmd_page_paddr e)) kept
                        ∙ t.middles q i' j' e' hj' (λ e. ne (kept ∙ e)))
                      (λ e. cc)
              ]
        ];
      }
