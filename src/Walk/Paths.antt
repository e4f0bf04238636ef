-- ===== src/Walk/Paths.antt =====
-- When two memories hold the same entry for an address, and that a new table of
-- benos/src/mmu.c maps nothing.
use risc_v_lab.Base.{ℕ, ◌+◌, ◌*◌, ◌<◌, ◌≡◌, ◌≢◌, ◌∙◌, sym, ap, refl, arith, ◌==◌, true, false}
use native.Mathlib.Decide.{ℕ_discrete}
use risc_v_lab.Pgtable.{pgd_page_paddr, pmd_page_paddr}
use risc_v_lab.Mmu.{Words, Mmu}
use risc_v_lab.Walk.{leaf_at, entry_at}
use risc_v_lab.Walk.Tree.{Role, top, middle, bottom, IsTree, Links}
use risc_v_lab.Walk.Fill.{pgd_page_paddr-pmd, other_page, same_entry}

pub leaf_at-none : (p : ℕ) (mem : Words) (j k : ℕ) → mem (p + j * 8) ≡ 0 → leaf_at p mem j k ≡ 0
unfolding leaf_at
leaf_at-none p mem j k e = ground arith

pub leaf_at-some :
    (p : ℕ) (mem : Words) (j k : ℕ)
    → mem (p + j * 8) ≢ 0
    → leaf_at p mem j k ≡ mem (pmd_page_paddr (mem (p + j * 8)) + k * 8)
unfolding leaf_at
leaf_at-some p mem j k ne = let full : (mem (p + j * 8) == 0) ≡ false = ground arith in rw full refl

pub entry_at-none :
    (dir : ℕ) (mem : Words) (i j k : ℕ) → mem (dir + i * 8) ≡ 0 → entry_at dir mem i j k ≡ 0
unfolding entry_at
entry_at-none dir mem i j k e =
    let empty : (mem (dir + i * 8) == 0) ≡ true = ground arith in rw empty refl

pub entry_at-some :
    (dir : ℕ) (mem : Words) (i j k : ℕ)
    → mem (dir + i * 8) ≢ 0
    → entry_at dir mem i j k ≡ leaf_at (pgd_page_paddr (mem (dir + i * 8))) mem j k
unfolding entry_at
entry_at-some dir mem i j k ne =
    let full : (mem (dir + i * 8) == 0) ≡ false = ground arith in rw full refl

module _ (dir : ℕ) (role : ℕ → Role) (m : Mmu) (t : IsTree dir role m) (i j k : ℕ) (hi : i < 512)
    (hj : j < 512) where
  same_leaf :
      (mem' : Words) (p : ℕ)
      → role p ≡ middle i
      → mem' (p + j * 8) ≡ m.mem (p + j * 8)
      → ((q : ℕ) → role q ≡ bottom i j → mem' (q + k * 8) ≡ m.mem (q + k * 8))
      → leaf_at p mem' j k ≡ leaf_at p m.mem j k
  same_leaf mem' p at_p kept bottoms = elim (ℕ_discrete (m.mem (p + j * 8)) 0) [
    | yes e ↦ leaf_at-none p mem' j k (kept ∙ e) ∙ sym (leaf_at-none p m.mem j k e)
    | no ne ↦
        leaf_at-some p mem' j k (λ e. ne (sym kept ∙ e))
        ∙ ap (λ e. mem' (pmd_page_paddr e + k * 8)) kept
        ∙ bottoms (pmd_page_paddr (m.mem (p + j * 8))) (t.middles p i j at_p hj ne)
        ∙ sym (leaf_at-some p m.mem j k ne)
  ]

  -- What is the same in the tables on the way is the same at its end.
  pub same_walk :
      (mem' : Words)
      → mem' (dir + i * 8) ≡ m.mem (dir + i * 8)
      → ((p : ℕ) → role p ≡ middle i → mem' (p + j * 8) ≡ m.mem (p + j * 8))
      → ((q : ℕ) → role q ≡ bottom i j → mem' (q + k * 8) ≡ m.mem (q + k * 8))
      → entry_at dir mem' i j k ≡ entry_at dir m.mem i j k
  same_walk mem' kept middles bottoms = elim (ℕ_discrete (m.mem (dir + i * 8)) 0) [
    | yes e ↦ entry_at-none dir mem' i j k (kept ∙ e) ∙ sym (entry_at-none dir m.mem i j k e)
    | no ne ↦
        let p = pgd_page_paddr (m.mem (dir + i * 8)) in
        let at_p : role p ≡ middle i = t.tops i hi ne in
        entry_at-some dir mem' i j k (λ e. ne (sym kept ∙ e))
        ∙ ap (λ e. leaf_at (pgd_page_paddr e) mem' j k) kept
        ∙ same_leaf mem' p at_p (middles p at_p) bottoms
        ∙ sym (entry_at-some dir m.mem i j k ne)
  ]

  -- A new table under an entry of the directory.
  pub top-same :
      (x p : ℕ) (m' : Mmu)
      → x < 512
      → k < 512
      → Links m (dir + x * 8) p m'
      → entry_at dir m'.mem i j k ≡ entry_at dir m.mem i j k
  top-same x p m' hx hk l =
      let other =
        other_page dir role m t dir x p (middle x) top m' l t.root (λ e. cc) (λ e. cc) hx in
      let same =
        same_entry dir role m t dir x p (middle x) top m' l t.root (λ e. cc) (λ e. cc) hx in
      elim (ℕ_discrete i x) [
        | yes e ↦
            let empty : m.mem (dir + i * 8) ≡ 0 = ap (λ y. m.mem (dir + y * 8)) e ∙ l.was_empty in
            let full : m'.mem (dir + i * 8) ≢ 0 =
              λ z. l.full (ap (λ y. m'.mem (dir + y * 8)) (sym e) ∙ z) in
            let new : pgd_page_paddr (m'.mem (dir + i * 8)) ≡ p =
              ap (λ y. pgd_page_paddr (m'.mem (dir + y * 8))) e
              ∙ pgd_page_paddr-pmd (m'.mem (dir + x * 8))
              ∙ l.names in
            entry_at-some dir m'.mem i j k full
            ∙ ap (λ q. leaf_at q m'.mem j k) new
            ∙ leaf_at-none p m'.mem j k (l.zeros j hj)
            ∙ sym (entry_at-none dir m.mem i j k empty)
        | no ne ↦
            same_walk m'.mem (same dir top i t.root (λ e. cc) hi (λ e. ne (omega (arith, e))))
              (λ q e. other q (middle i) j e (λ e. cc) (λ e. cc) hj)
              (λ q e. other q (bottom i j) k e (λ e. cc) (λ e. cc) hk)
      ]

  -- A new table under an entry of the table for entry `x` of the directory.
  pub middle-same :
      (base x y p : ℕ) (m' : Mmu)
      → role base ≡ middle x
      → y < 512
      → k < 512
      → Links m (base + y * 8) p m'
      → entry_at dir m'.mem i j k ≡ entry_at dir m.mem i j k
  middle-same base x y p m' at_base hy hk l =
      let other =
        other_page dir role m t base y p (bottom x y) (middle x) m' l at_base (λ e. cc) (λ e. cc)
          hy in
      let same =
        same_entry dir role m t base y p (bottom x y) (middle x) m' l at_base (λ e. cc) (λ e. cc)
          hy in
      let kept = other dir top i t.root (λ e. cc) (λ e. cc) hi in
      elim (ℕ_discrete (m.mem (dir + i * 8)) 0) [
        | yes e ↦ entry_at-none dir m'.mem i j k (kept ∙ e) ∙ sym (entry_at-none dir m.mem i j k e)
        | no ne ↦
            let q = pgd_page_paddr (m.mem (dir + i * 8)) in
            let at_q : role q ≡ middle i = t.tops i hi ne in
            entry_at-some dir m'.mem i j k (λ e. ne (sym kept ∙ e))
            ∙ ap (λ e. leaf_at (pgd_page_paddr e) m'.mem j k) kept
            ∙ elim (ℕ_discrete (q + j * 8) (base + y * 8))
                as (λ _. leaf_at q m'.mem j k ≡ leaf_at q m.mem j k) [
                  | yes at ↦
                      leaf_at-some q m'.mem j k (λ z. l.full (ap m'.mem (sym at) ∙ z))
                      ∙ ap (λ a. m'.mem (a + k * 8))
                          (ap (λ a. pmd_page_paddr (m'.mem a)) at ∙ l.names)
                      ∙ l.zeros k hk
                      ∙ sym (leaf_at-none q m.mem j k (ap m.mem at ∙ l.was_empty))
                  | no out ↦
                      same_leaf m'.mem q at_q (same q (middle i) j at_q (λ e. cc) hj out)
                        (λ s e. other s (bottom i j) k e (λ e. cc) (λ e. cc) hk)
                ]
            ∙ sym (entry_at-some dir m.mem i j k ne)
      ]
