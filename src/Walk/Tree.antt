-- ===== src/Walk/Tree.antt =====
-- The shape that benos/src/mmu.c keeps: every page in use by a page table has one place in it.
use risc_v_lab.Base.{ℕ, ◌+◌, ◌*◌, ◌<◌, ◌≡◌, ◌≢◌, ◌∙◌, sym, ap, arith, ◌==◌, if◌then◌else◌}
use risc_v_lab.Pgtable.{pgd_page_paddr, pmd_page_paddr}
use risc_v_lab.Mmu.{Mmu, set_entry, clear_page}
use risc_v_lab.Walk.Supply.{IsPool, IsFreePage, IsTablePage, Takes}

-- The directory, the table under its entry `i`, and the table under entry `j` of that one.
pub data Role : Type 0 where
  unused top : Role
  middle : ℕ → Role
  bottom : ℕ → ℕ → Role

-- Pages that are used have the address of a page, pages that the allocator may hand out are not
-- used, and an entry that is not empty names the page with the role that belongs to this entry.
pub record IsTree (dir : ℕ) (role : ℕ → Role) (m : Mmu) : Type 0 where
  pub pool : IsPool m.alloc
  pub root : role dir ≡ top
  pub tables : (p : ℕ) → role p ≢ unused → IsTablePage p
  pub spare : (p : ℕ) → IsFreePage m.alloc p → role p ≡ unused
  pub tops :
      (i : ℕ)
      → i < 512
      → m.mem (dir + i * 8) ≢ 0
      → role (pgd_page_paddr (m.mem (dir + i * 8))) ≡ middle i
  pub middles :
      (p i j : ℕ)
      → role p ≡ middle i
      → j < 512
      → m.mem (p + j * 8) ≢ 0
      → role (pmd_page_paddr (m.mem (p + j * 8))) ≡ bottom i j

pub apart :
    (p q x y : ℕ)
    → IsTablePage p
    → IsTablePage q
    → p ≢ q
    → x < 512
    → y < 512
    → p + x * 8 ≢ q + y * 8
apart p q x y hp hq ne hx hy e = omega (arith, hp.1, hq.1)

-- A free page `p` has been taken, and the entry at `s`, which was empty, names it.
pub record Links (m : Mmu) (s p : ℕ) (m' : Mmu) : Type 0 where
  pub page : IsTablePage p
  pub was_free : IsFreePage m.alloc p
  pub now_taken : ¬ IsFreePage m'.alloc p
  pub still : (q : ℕ) → IsFreePage m'.alloc q → IsFreePage m.alloc q
  pub pool : IsPool m'.alloc
  pub was_empty : m.mem s ≡ 0
  pub full : m'.mem s ≢ 0
  pub names : pmd_page_paddr (m'.mem s) ≡ p
  pub zeros : (x : ℕ) → x < 512 → m'.mem (p + x * 8) ≡ 0
  pub kept :
      (q x : ℕ)
      → IsTablePage q
      → q ≢ p
      → x < 512
      → q + x * 8 ≢ s
      → m'.mem (q + x * 8) ≡ m.mem (q + x * 8)

pub Takes-Links :
    (m m1 : Mmu) (base x p v : ℕ)
    → Takes m p m1
    → IsTablePage base
    → base ≢ p
    → x < 512
    → m.mem (base + x * 8) ≡ 0
    → v ≢ 0
    → pmd_page_paddr v ≡ p
    → Links m (base + x * 8) p (record m1 { mem = set_entry (base + x * 8) v m1.mem })
unfolding set_entry clear_page
Takes-Links m m1 base x p v t hb ne hx empty hv names = rw t.cleared record {
  page = t.page;
  was_free = t.was_free;
  now_taken = t.now_taken;
  still = t.still;
  pool = t.pool;
  was_empty = empty;
  full = ground arith;
  names = ground arith;
  zeros = λ y hy. let other = apart base p x y hb t.page ne hx hy in ground arith;
  kept = λ q y hq out hy other. ground (arith, hq.1, t.page.1);
}

-- The new page has the role `r`.
abbrev pub assign : ℕ → Role → (ℕ → Role) → ℕ → Role
assign p r role q = if q == p then r else role q

pub assign_self : (p : ℕ) (r : Role) (role : ℕ → Role) → assign p r role p ≡ r
assign_self p r role = ground arith

pub assign_ne : (p : ℕ) (r : Role) (role : ℕ → Role) (q : ℕ) → q ≢ p → assign p r role q ≡ role q
assign_ne p r role q ne = ground arith

-- A used page is not the new one, and keeps its role.
pub assign_used :
    (p : ℕ) (r r' : Role) (role : ℕ → Role) (q : ℕ)
    → role p ≡ unused
    → role q ≡ r'
    → r' ≢ unused
    → assign p r role q ≡ r'
assign_used p r r' role q fresh e used =
    assign_ne p r role q (λ same. used (sym e ∙ ap role same ∙ fresh)) ∙ e
