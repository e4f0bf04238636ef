-- ===== src/Walk/Supply.antt =====
-- What the page tables ask of the allocator of tables, which benos/src/mmu.c takes as an argument,
-- and that `early_pgtable_alloc` over benos/src/page_alloc.c does it while pages are left.
use risc_v_lab.Base.{
  ℕ, zero, suc, ◌+◌, ◌*◌, ◌%◌, ◌^◌, ◌≤◌, ◌<◌, ◌≡◌, ◌≢◌, ◌∙◌, sym, ap, refl, inl, inr, arith, ◌==◌,
  if◌then◌else◌, some, List, [], ◌∷◌, length, get_elem?, set, length-set, lt_of_get_elem?,
  get_elem?-set_self, get_elem?-set_ne,
}
use native.Mathlib.Decide.{ℕ_discrete}
use risc_v_lab.PageAlloc.{PageAlloc}
use risc_v_lab.PageAlloc.Get.{IsFree, page_addr, FirstFit, get_free_page-FirstFit}
use risc_v_lab.Mmu.{Mmu, clear_page, early_pgtable_alloc}

-- The pages of the allocator start at a page's address above 0 and lie below 2 ^ 56.
pub record IsPool (a : PageAlloc) : Type 0 where
  pub positive : 0 < a.phy_start_address
  pub aligned : a.phy_start_address % 4096 ≡ 0
  pub low : a.phy_start_address + length a.mem_map * 4096 ≤ 2 ^ 56

abbrev pub IsFreePage : PageAlloc → ℕ → Type 0
IsFreePage a p = (i : ℕ) × (p ≡ page_addr a i) × IsFree a.mem_map i

abbrev pub free_pages : List ℕ → ℕ
free_pages [] = 0
free_pages (m ∷ ms) = if m == 0 then suc (free_pages ms) else free_pages ms

-- An address that a table can have.
abbrev pub IsTablePage : ℕ → Type 0
IsTablePage p = (0 < p) × (p % 4096 ≡ 0) × (p < 2 ^ 56)

-- The allocator manages the same pages.
pub record SamePages (a a' : PageAlloc) : Type 0 where
  pub start : a'.phy_start_address ≡ a.phy_start_address
  pub count : length a'.mem_map ≡ length a.mem_map

-- A free page `p` has been taken and cleared.
pub record Takes (m : Mmu) (p : ℕ) (m' : Mmu) : Type 0 where
  pub page : IsTablePage p
  pub was_free : IsFreePage m.alloc p
  pub now_taken : ¬ IsFreePage m'.alloc p
  pub still : (q : ℕ) → IsFreePage m'.alloc q → IsFreePage m.alloc q
  pub same : SamePages m.alloc m'.alloc
  pub cleared : m'.mem ≡ clear_page p m.mem
  pub pool : IsPool m'.alloc
  pub supply : suc (free_pages m'.alloc.mem_map) ≡ free_pages m.alloc.mem_map

-- The interface: while a page is left, a table is a free page that has been cleared.
abbrev pub IsTableAlloc : (Mmu → ℕ × Mmu) → Type 0
IsTableAlloc alloc_pgtable =
    (m : Mmu)
    → IsPool m.alloc
    → 0 < free_pages m.alloc.mem_map
    → Takes m (alloc_pgtable m).0 (alloc_pgtable m).1

free_pages-set : (ms : List ℕ) (i : ℕ) → IsFree ms i → suc (free_pages (set ms i 1)) ≡ free_pages ms
free_pages-set [] i h = ground arith
free_pages-set (m ∷ ms) zero h = ground arith
free_pages-set (m ∷ ms) (suc i) h = ground (arith, free_pages-set ms i h)

pub free_pages-none : (ms : List ℕ) → ((j : ℕ) → ¬ IsFree ms j) → free_pages ms ≡ 0
free_pages-none [] h = refl
free_pages-none (m ∷ ms) h =
    let ne : m ≢ 0 = λ e. h 0 (ap some e) in
    let rest = free_pages-none ms (λ j. h (suc j)) in ground arith

free_pages-le : (ms : List ℕ) → free_pages ms ≤ length ms
free_pages-le [] = omega arith
free_pages-le (m ∷ ms) = ground (arith, free_pages-le ms)

-- The pages in front of the first free one are taken.
pub free_pages-first :
    (ms : List ℕ) (i : ℕ)
    → IsFree ms i
    → ((j : ℕ) → j < i → ¬ IsFree ms j)
    → free_pages ms + i ≤ length ms
free_pages-first [] i free before = ground arith
free_pages-first (m ∷ ms) zero free before = ground (arith, free_pages-le (m ∷ ms))
free_pages-first (m ∷ ms) (suc i) free before =
    let rest = free_pages-first ms i free (λ j lt. before (suc j) (omega arith)) in
    let ne : m ≢ 0 = λ e. before 0 (omega arith) (ap some e) in ground (arith, rest)

-- The pages of two indices are different.
index_of_page :
    (a : PageAlloc) (i j : ℕ)
    → IsPool a
    → i < length a.mem_map
    → j < length a.mem_map
    → page_addr a i ≡ page_addr a j
    → i ≡ j
index_of_page a i j pool hi hj e = omega (arith, pool.low)

taken_page :
    (a : PageAlloc) (i : ℕ)
    → IsPool a
    → IsFree a.mem_map i
    → ¬ IsFreePage (record a { mem_map = set a.mem_map i 1 }) (page_addr a i)
taken_page a i pool free (j, e, free') =
    let hi = lt_of_get_elem? a.mem_map i 0 free in
    let hj = lt_of_get_elem? (set a.mem_map i 1) j 0 free' in
    let len = length-set a.mem_map i 1 in
    let same = index_of_page a i j pool hi (omega arith) e in
    let now : get_elem? (set a.mem_map i 1) j ≡ some 1 =
      ap (get_elem? (set a.mem_map i 1)) (sym same) ∙ get_elem?-set_self a.mem_map i 1 hi in
    cc

still-IsFree : (ms : List ℕ) (i j : ℕ) → IsFree ms i → IsFree (set ms i 1) j → IsFree ms j
still-IsFree ms i j free h = elim (ℕ_discrete i j) [
  | yes e ↦ ap (get_elem? ms) (sym e) ∙ free
  | no ne ↦ sym (get_elem?-set_ne ms i j 1 ne) ∙ h
]

early_taken :
    (m : Mmu)
    → IsPool m.alloc
    → 0 < free_pages m.alloc.mem_map
    → FirstFit m.alloc
    → Takes m (early_pgtable_alloc m).0 (early_pgtable_alloc m).1
unfolding early_pgtable_alloc
early_taken m pool left (inl (e, taken)) =
    absurd (omega (arith, free_pages-none m.alloc.mem_map taken))
early_taken m pool left (inr (i, e, free, _)) =
    let hi = lt_of_get_elem? m.alloc.mem_map i 0 free in
    let len = length-set m.alloc.mem_map i 1 in
    rw e record {
      page = (
        omega (arith, pool.positive, pool.low),
        omega (arith, pool.aligned, pool.low),
        omega (arith, pool.low),
      );
      was_free = (i, refl, free);
      now_taken = taken_page m.alloc i pool free;
      still = λ q (j, at, h). (j, at, still-IsFree m.alloc.mem_map i j free h);
      same = record { start = refl; count = len };
      cleared = refl;
      pool = record {
        positive = pool.positive;
        aligned = pool.aligned;
        low = omega (arith, pool.low);
      };
      supply = free_pages-set m.alloc.mem_map i free;
    }

pub early_pgtable_alloc-IsTableAlloc : IsTableAlloc early_pgtable_alloc
early_pgtable_alloc-IsTableAlloc m pool left =
    early_taken m pool left (get_free_page-FirstFit m.alloc)
