-- ===== src/Walk/Maps.antt =====
-- What a part of the mapping that benos/src/mmu.c makes does to the tree, and how parts add up.
use risc_v_lab.Base.{
  ℕ, ◌+◌, ◌-◌, ◌*◌, ◌/◌, ◌%◌, ◌^◌, ◌≤◌, ◌<◌, ◌≡◌, ◌≢◌, ◌∙◌, ◌⊎◌, inl, inr, sym, ap, arith,
}
use native.Mathlib.Decide.{dec_lt}
use risc_v_lab.Mm.{pfn_down}
use risc_v_lab.Pgtable.{pfn_pte}
use risc_v_lab.Mmu.{Mmu}
use risc_v_lab.Walk.{entry_at, entry_for}
use risc_v_lab.Walk.Supply.{IsFreePage, SamePages, free_pages}
use risc_v_lab.Walk.Tree.{Role, IsTree}

-- `m'` is a tree again, at most `n` pages have been taken, and the directory keeps its
-- entries.
pub record Grows (dir n : ℕ) (m m' : Mmu) : Type 0 where
  pub role : ℕ → Role
  pub tree : IsTree dir role m'
  pub supply : free_pages m.alloc.mem_map ≤ n + free_pages m'.alloc.mem_map
  pub still : (q : ℕ) → IsFreePage m'.alloc q → IsFreePage m.alloc q
  pub same : SamePages m.alloc m'.alloc
  pub kept :
      (x : ℕ) → x < 512 → m.mem (dir + x * 8) ≢ 0 → m'.mem (dir + x * 8) ≡ m.mem (dir + x * 8)

-- No address is mapped in another way than before.
abbrev pub SameEntries : ℕ → Mmu → Mmu → Type 0
SameEntries dir m m' =
    (i j k : ℕ) → i < 512 → j < 512 → k < 512 → entry_at dir m'.mem i j k ≡ entry_at dir m.mem i j k

-- The addresses from `addr` on and below `end` are mapped to the pages from `phys` on, and the
-- other addresses of the directory as before.
pub record Maps (dir addr end phys prot n : ℕ) (m m' : Mmu) : Type 0 where
  pub grows : Grows dir n m m'
  pub inside :
      (va : ℕ)
      → addr ≤ va
      → va < end
      → entry_for dir m'.mem va ≡ pfn_pte (pfn_down (phys + (va - addr))) prot
  pub outside :
      (va : ℕ)
      → va < 2 ^ 39
      → (va < addr) ⊎ (end ≤ va)
      → entry_for dir m'.mem va ≡ entry_for dir m.mem va

pub Grows-trans :
    (dir n n' total : ℕ) (m m1 m' : Mmu)
    → n + n' ≤ total
    → Grows dir n m m1
    → Grows dir n' m1 m'
    → Grows dir total m m'
Grows-trans dir n n' total m m1 m' le g g' = record {
  role = g'.role;
  tree = g'.tree;
  supply = omega (arith, g.supply, g'.supply);
  still = λ q h. g.still q (g'.still q h);
  same = record { start = g'.same.start ∙ g.same.start; count = g'.same.count ∙ g.same.count };
  kept = λ x hx ne. let same = g.kept x hx ne in g'.kept x hx (λ e. ne (sym same ∙ e)) ∙ same;
}

-- Two parts, one after the other.
pub Maps-trans :
    (dir addr next end phys prot n n' total : ℕ) (m m1 m' : Mmu)
    → n + n' ≤ total
    → addr ≤ next
    → next ≤ end
    → end ≤ 2 ^ 39
    → Maps dir addr next phys prot n m m1
    → Maps dir next end (phys + (next - addr)) prot n' m1 m'
    → Maps dir addr end phys prot total m m'
Maps-trans dir addr next end phys prot n n' total m m1 m' sum le le' top f g = record {
  grows = Grows-trans dir n n' total m m1 m' sum f.grows g.grows;
  inside = λ va from to. elim (dec_lt va next) [
    | yes lt ↦ g.outside va (omega arith) (inl lt) ∙ f.inside va from lt
    | no ge ↦
        let far : phys + (next - addr) + (va - next) ≡ phys + (va - addr) = omega arith in
        g.inside va (omega arith) to ∙ ap (λ p. pfn_pte (pfn_down p) prot) far
  ];
  outside = λ va small. elim [
    | inl lt ↦ g.outside va small (inl (omega arith)) ∙ f.outside va small (inl lt)
    | inr ge ↦ g.outside va small (inr ge) ∙ f.outside va small (inr (omega arith))
  ];
}

-- A new table before a part.
pub Maps-after :
    (dir addr end phys prot n n' total : ℕ) (m m1 m' : Mmu)
    → n + n' ≤ total
    → Grows dir n m m1
    → SameEntries dir m m1
    → Maps dir addr end phys prot n' m1 m'
    → Maps dir addr end phys prot total m m'
unfolding entry_for
Maps-after dir addr end phys prot n n' total m m1 m' sum g same f = record {
  grows = Grows-trans dir n n' total m m1 m' sum g f.grows;
  inside = f.inside;
  outside = λ va small out.
      f.outside va small out
      ∙ same (va / 2 ^ 30) (va / 2 ^ 21 % 512) (va / 4096 % 512) (omega arith) (omega arith)
          (omega arith);
}

-- The last part.
pub Maps-end :
    (dir addr next end phys prot n total : ℕ) (m m' : Mmu)
    → next ≡ end
    → n ≤ total
    → Maps dir addr next phys prot n m m'
    → Maps dir addr end phys prot total m m'
Maps-end dir addr next end phys prot n total m m' e le f = record {
  grows = record {
    role = f.grows.role;
    tree = f.grows.tree;
    supply = omega (arith, f.grows.supply);
    still = f.grows.still;
    same = f.grows.same;
    kept = f.grows.kept;
  };
  inside = λ va from to. f.inside va from (omega arith);
  outside = λ va small. elim [
    | inl lt ↦ f.outside va small (inl lt)
    | inr ge ↦ f.outside va small (inr (omega arith))
  ];
}

pub Maps-phys :
    (dir addr end phys phys' prot n : ℕ) (m m' : Mmu)
    → phys ≡ phys'
    → Maps dir addr end phys prot n m m'
    → Maps dir addr end phys' prot n m m'
Maps-phys dir addr end phys phys' prot n m m' e f = rw (sym e) f

-- The bounds and the count in another form.
pub Maps-ends :
    (dir addr addr' end end' prot n n' : ℕ) (m m' : Mmu)
    → addr ≡ addr'
    → end ≡ end'
    → n ≡ n'
    → Maps dir addr end addr prot n m m'
    → Maps dir addr' end' addr' prot n' m m'
Maps-ends dir addr addr' end end' prot n n' m m' a b c f = rw (sym a, sym b, sym c) f
