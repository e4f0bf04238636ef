-- ===== src/Walk/Devices.antt =====
-- `paging_init` of benos/src/mmu.c from an empty directory: what is mapped afterwards.
use risc_v_lab.Base.{
  ℕ, ◌+◌, ◌-◌, ◌*◌, ◌/◌, ◌%◌, ◌^◌, ◌≤◌, ◌<◌, ◌≡◌, ◌∙◌, inl, inr, ap, refl, arith, some, Bool, true,
  false, ◌&&◌, ◌||◌, leb, ltb, if◌then◌else◌, ◌>>=◌,
}
use native.Mathlib.Decide.{dec_lt}
use risc_v_lab.Mm.{pfn_down}
use risc_v_lab.Pgtable.{pfn_pte, page_kernel}
use risc_v_lab.Mmu.{Mmu, Sections, rounds, map_identical, create_mmio_mapping, paging_init}
use risc_v_lab.Walk.{entry_for, walk_pgtable}
use risc_v_lab.Walk.Supply.{IsFreePage, SamePages, free_pages}
use risc_v_lab.Walk.Tree.{Role, IsTree}
use risc_v_lab.Walk.Maps.{Maps, Maps-ends}
use risc_v_lab.Walk.Mapping.{found, create_pgd_mapping-Maps, walk_pgtable-entry_for}
use risc_v_lab.Walk.Empty.{IsEmptyDir, only_dir, empty-IsTree, empty-entry_for}
use risc_v_lab.Walk.Pgd.{tables_for}

-- A page that is mapped to itself.
abbrev pub identity : ℕ → ℕ
identity va = pfn_pte (pfn_down va) page_kernel

-- At most `n` pages have been taken, which were free.
abbrev pub Spends : ℕ → Mmu → Mmu → Type 0
Spends n m m' =
    (free_pages m.alloc.mem_map ≤ n + free_pages m'.alloc.mem_map)
    × ((q : ℕ) → IsFreePage m'.alloc q → IsFreePage m.alloc q)
    × SamePages m.alloc m'.alloc

Spends-trans :
    (n n' total : ℕ) (m m1 m' : Mmu)
    → n + n' ≤ total
    → Spends n m m1
    → Spends n' m1 m'
    → Spends total m m'
Spends-trans n n' total m m1 m' sum (a, b, e) (c, d, f) = (
  omega arith,
  (λ q h. b q (d q h)),
  record { start = f.start ∙ e.start; count = f.count ∙ e.count },
)

-- One more range is mapped to itself.
abbrev pub Identity : ℕ → ℕ → ℕ → ℕ → Mmu → Mmu → Type 0
Identity dir first last n m m' =
    (role : ℕ → Role) × IsTree dir role m'
    × Spends n m m'
    × ((va : ℕ)
        → va < 2 ^ 39
        → entry_for dir m'.mem va
          ≡ (if leb first va && ltb va last then identity va else entry_for dir m.mem va))

Maps-Identity :
    (dir first last n : ℕ) (m m' : Mmu)
    → Maps dir first last first page_kernel n m m'
    → Identity dir first last n m m'
Maps-Identity dir first last n m m' f = (
  f.grows.role,
  f.grows.tree,
  (f.grows.supply, f.grows.still, f.grows.same),
  λ va small. elim (dec_lt va first) [
    | yes lt ↦ f.outside va small (inl lt) ∙ ground arith
    | no ge ↦ elim (dec_lt va last) [
      | yes lt ↦
          let same : first + (va - first) ≡ va = omega arith in
          f.inside va (omega arith) lt ∙ ap identity same ∙ ground arith
      | no ge' ↦ f.outside va small (inr (omega arith)) ∙ ground arith
    ]
  ],
)

-- One call of `create_mmio_mapping`, of whole pages.
map_identical-Identity :
    (s : Sections) (first size n : ℕ) (role : ℕ → Role) (m : Mmu)
    → IsTree s.idmap_pg_dir role m
    → 0 < size
    → first % 4096 ≡ 0
    → size % 4096 ≡ 0
    → first + size ≤ 2 ^ 29
    → tables_for first (first + size) ≡ n
    → n ≤ free_pages m.alloc.mem_map
    → (m' : Mmu) × (map_identical s first size page_kernel m ≡ some m')
      × Identity s.idmap_pg_dir first (first + size) n m m'
map_identical-Identity s first size n role m t some_byte whole whole' low count left =
    let a : first / 4096 * 4096 ≡ first = omega arith in
    let b : (first + size + 4095) / 4096 * 4096 ≡ first + size = omega arith in
    let tables : tables_for (first / 4096 * 4096) ((first + size + 4095) / 4096 * 4096)
        ≡ tables_for first (first + size) =
      rw (a, b) refl in
    let (m', runs, maps) =
      create_pgd_mapping-Maps rounds s.idmap_pg_dir first first size page_kernel role m t some_byte
        (omega arith) (omega arith) (omega arith) (omega (arith, tables, count, left)) in
    (
      m',
      runs,
      Maps-Identity s.idmap_pg_dir first (first + size) n m m' (
          Maps-ends s.idmap_pg_dir (first / 4096 * 4096) first ((first + size + 4095) / 4096 * 4096)
            (first + size) page_kernel
            (tables_for (first / 4096 * 4096) ((first + size + 4095) / 4096 * 4096)) n m m' a b
            (tables ∙ count) maps),
    )

-- The addresses of the devices that `create_mmio_mapping` maps.
abbrev pub is_mmio : Bool → ℕ → Bool
is_mmio qemu va =
    (qemu && (leb 0xc000000 va && ltb va 0x10000000))
    || ((leb 0x2000000 va && ltb va 0x2010000) || (leb 0x10000000 va && ltb va 0x10001000))

-- The two devices that every board has, after what has been mapped before.
two_devices :
    (s : Sections) (role : ℕ → Role) (m : Mmu)
    → IsTree s.idmap_pg_dir role m
    → 4 ≤ free_pages m.alloc.mem_map
    → (m' : Mmu) × (map_identical s 0x2000000 0x10000 page_kernel m
          >>= (λ m1. map_identical s 0x10000000 4096 page_kernel m1)
        ≡ some m')
      × (role' : ℕ → Role) × IsTree s.idmap_pg_dir role' m'
      × Spends 4 m m'
      × ((va : ℕ)
          → va < 2 ^ 39
          → entry_for s.idmap_pg_dir m'.mem va
            ≡ (if is_mmio false va then identity va else entry_for s.idmap_pg_dir m.mem va))
two_devices s role m t left =
    let (m1, runs, (role1, tree, spent, entries)) =
      map_identical-Identity s 0x2000000 0x10000 2 role m t (omega arith) refl refl (omega arith)
        refl (omega arith) in
    let (m2, runs', (role2, tree', spent', entries')) =
      map_identical-Identity s 0x10000000 4096 2 role1 m1 tree (omega arith) refl refl (omega arith)
        refl (omega (arith, spent.0)) in
    (
      m2,
      rw (runs, runs') refl,
      role2,
      tree',
      Spends-trans 2 2 4 m m1 m2 (omega arith) spent spent',
      λ va small. ground (arith, entries va small, entries' va small),
    )

-- After `paging_init`, from an empty directory at a page that the allocator does not hand out and
-- with 37 free pages for tables: the call returns, the tables have the right shape, at most 37
-- pages have been taken, which were free, and for every address below 2 ^ 39 `walk_pgtable` finds the entry that maps the page of this address to itself
-- with the protection of the kernel if it is an address of a device (the interrupt controller,
-- with CONFIG_BOARD_QEMU only, the timer or the UART), and no entry otherwise.
pub paging_init-identity :
    (qemu : Bool) (s : Sections) (m : Mmu)
    → IsEmptyDir s.idmap_pg_dir m
    → 37 ≤ free_pages m.alloc.mem_map
    → (m' : Mmu) × (paging_init qemu s m ≡ some m')
      × (role : ℕ → Role) × IsTree s.idmap_pg_dir role m'
      × Spends 37 m m'
      × ((va : ℕ)
          → va < 2 ^ 39
          → found (walk_pgtable s.idmap_pg_dir va m'.mem) m'.mem
            ≡ (if is_mmio qemu va then identity va else 0))
unfolding paging_init create_mmio_mapping
paging_init-identity false s m h left =
    let dir = s.idmap_pg_dir in
    let (m', runs, role, tree, spent, entries) =
      two_devices s (only_dir dir) m (empty-IsTree dir m h) (omega arith) in
    (
      m',
      runs,
      role,
      tree,
      (omega (arith, spent.0), spent.1, spent.2),
      λ va small.
          walk_pgtable-entry_for dir va role m' tree small
          ∙ entries va small
          ∙ ap (λ e. if is_mmio false va then identity va else e)
              (empty-entry_for dir va m h small),
    )
paging_init-identity true s m h left =
    let dir = s.idmap_pg_dir in
    let (m1, runs, (role1, tree1, spent, entries1)) =
      map_identical-Identity s 0xc000000 (0x10000000 - 0xc000000) 33 (only_dir dir) m
        (empty-IsTree dir m h) (omega arith) refl refl (omega arith) refl (omega arith) in
    let (m', runs', role, tree, spent', entries) =
      two_devices s role1 m1 tree1 (omega (arith, spent.0)) in
    (
      m',
      rw runs runs',
      role,
      tree,
      Spends-trans 33 4 37 m m1 m' (omega arith) spent spent',
      λ va small.
          walk_pgtable-entry_for dir va role m' tree small
          ∙ ground (arith, entries va small, entries1 va small, empty-entry_for dir va m h small),
    )
