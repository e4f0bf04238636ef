-- ===== src/Dump/Tiles.antt =====
-- The walk of benos/src/dump_pgtable.c reports the whole range, in order.
use risc_v_lab.Base.{
  ℕ, zero, suc, ◌+◌, ◌*◌, ◌%◌, ◌^◌, ◌≤◌, ◌<◌, ◌==◌, ◌||◌, true, false, u64, some, List, [], ◌∷◌,
  ◌++◌, ◌≡◌, ◌≢◌, refl, arith, Bool-cases, inl, inr,
}
use mathlib.Core.Path.{subst}
use native.Mathlib.Decide.{ℕ_discrete}
use risc_v_lab.Pgtable.{
  pgd_offset_raw, pgd_addr_end, pmd_addr_end, get_pmdp_from_pgdp, get_ptep_from_pmdp, pmd_leaf,
}
use risc_v_lab.Pgtable.Ends.{pmd_addr_end-IsBlockEnd, pgd_addr_end-IsBlockEnd}
use risc_v_lab.Mmu.{Words}
use risc_v_lab.Mmu.Returns.{IsRange, part-IsRange}
use risc_v_lab.Dump.{
  Call, walk_pte_loop, walk_pte, walk_pmd_entry, walk_pmd_loop, walk_pmd, walk_pgd_entry,
  walk_pgd_loop, walk_pgd,
}

-- The ranges of the calls follow one another from `a` to `b`, and none is empty.
abbrev pub Tiles : ℕ → List Call → ℕ → Type 0
Tiles a [] b = a ≡ b
Tiles a (c ∷ cs) b = (c.start ≡ a) × (a < c.end) × Tiles c.end cs b

Tiles-append : (a b d : ℕ) (cs ds : List Call) → Tiles a cs b → Tiles b ds d → Tiles a (cs ++ ds) d
Tiles-append a b d [] ds p q = rw p q
Tiles-append a b d (c ∷ cs) ds p q = (p.0, p.1, Tiles-append c.end b d cs ds p.2 q)

more-IsRange : (n m a b : ℕ) → n ≤ m → IsRange n a b → IsRange m a b
more-IsRange n m a b le r = record {
  first = r.first;
  last = r.last;
  some_page = r.some_page;
  room = r.room;
  pages = omega (arith, r.pages);
}

module _ (mem : Words) where
  -- The call for one page.
  abbrev page : ℕ → ℕ → Call
  page ptep addr = record { start = addr; end = addr + 4096; level = 2; val = mem ptep }

  walk_pte_loop-last :
      (fuel ptep addr end : ℕ)
      → addr + 4096 ≡ end
      → end < 2 ^ 63
      → walk_pte_loop mem (suc fuel) ptep addr end ≡ some (page ptep addr ∷ [])
  unfolding walk_pte_loop
  walk_pte_loop-last fuel ptep addr end e room =
      let step : u64 (addr + 4096) ≡ addr + 4096 = omega arith in
      let last : (addr + 4096 == end) ≡ true = ground arith in rw (step, last) refl

  walk_pte_loop-more :
      (fuel ptep addr end : ℕ) (cs : List Call)
      → addr + 4096 < end
      → end < 2 ^ 63
      → walk_pte_loop mem fuel (u64 (ptep + 8)) (addr + 4096) end ≡ some cs
      → walk_pte_loop mem (suc fuel) ptep addr end ≡ some (page ptep addr ∷ cs)
  unfolding walk_pte_loop
  walk_pte_loop-more fuel ptep addr end cs lt room runs =
      let step : u64 (addr + 4096) ≡ addr + 4096 = omega arith in
      let more : (addr + 4096 == end) ≡ false = ground arith in rw (step, more, runs) refl

  walk_pte_loop-Tiles :
      (fuel ptep addr end : ℕ)
      → IsRange fuel addr end
      → (cs : List Call) × (walk_pte_loop mem fuel ptep addr end ≡ some cs) × Tiles addr cs end
  walk_pte_loop-Tiles zero ptep addr end r = absurd (omega (arith, r.some_page, r.pages))
  walk_pte_loop-Tiles (suc fuel) ptep addr end r = elim (ℕ_discrete (addr + 4096) end) [
    | yes e ↦ (
      page ptep addr ∷ [],
      walk_pte_loop-last fuel ptep addr end e r.room,
      (refl, omega arith, e),
    )
    | no ne ↦
        let lt : addr + 4096 < end = omega (arith, r.first, r.last, r.some_page) in
        let (cs, runs, tiles) =
          walk_pte_loop-Tiles fuel (u64 (ptep + 8)) (addr + 4096) end (record {
            first = omega (arith, r.first);
            last = r.last;
            some_page = lt;
            room = r.room;
            pages = omega (arith, r.pages);
          }) in
        (
          page ptep addr ∷ cs,
          walk_pte_loop-more fuel ptep addr end cs lt r.room runs,
          (refl, omega arith, tiles),
        )
  ]

  walk_pmd_entry-Tiles :
      (tables pmdp addr next : ℕ)
      → IsRange tables addr next
      → (cs : List Call) × (walk_pmd_entry mem tables pmdp addr next ≡ some cs) × Tiles addr cs next
  unfolding walk_pmd_entry walk_pte
  walk_pmd_entry-Tiles tables pmdp addr next r =
      elim (Bool-cases (mem pmdp == 0 || pmd_leaf (mem pmdp))) [
        | inl e ↦ (
          record { start = addr; end = next; level = 1; val = mem pmdp } ∷ [],
          rw e refl,
          (refl, r.some_page, refl),
        )
        | inr e ↦ rw e (walk_pte_loop-Tiles tables (get_ptep_from_pmdp (mem pmdp) addr) addr next r)
      ]

  walk_pmd_loop-last :
      (tables fuel pmdp addr end : ℕ) (cs : List Call)
      → pmd_addr_end addr end ≡ end
      → walk_pmd_entry mem tables pmdp addr (pmd_addr_end addr end) ≡ some cs
      → walk_pmd_loop mem tables (suc fuel) pmdp addr end ≡ some cs
  unfolding walk_pmd_loop
  walk_pmd_loop-last tables fuel pmdp addr end cs e runs =
      let last : (pmd_addr_end addr end == end) ≡ true = ground arith in rw (last, runs) refl

  walk_pmd_loop-more :
      (tables fuel pmdp addr end : ℕ) (cs ds : List Call)
      → pmd_addr_end addr end ≢ end
      → walk_pmd_entry mem tables pmdp addr (pmd_addr_end addr end) ≡ some cs
      → walk_pmd_loop mem tables fuel (u64 (pmdp + 8)) (pmd_addr_end addr end) end ≡ some ds
      → walk_pmd_loop mem tables (suc fuel) pmdp addr end ≡ some (cs ++ ds)
  unfolding walk_pmd_loop
  walk_pmd_loop-more tables fuel pmdp addr end cs ds ne here runs =
      let more : (pmd_addr_end addr end == end) ≡ false = ground arith in rw (more, here, runs) refl

  walk_pmd_loop-Tiles :
      (tables fuel pmdp addr end : ℕ)
      → fuel ≤ tables
      → IsRange fuel addr end
      → (cs : List Call) × (walk_pmd_loop mem tables fuel pmdp addr end ≡ some cs)
        × Tiles addr cs end
  walk_pmd_loop-Tiles tables zero pmdp addr end le r = absurd (omega (arith, r.some_page, r.pages))
  walk_pmd_loop-Tiles tables (suc fuel) pmdp addr end le r =
      let next = pmd_addr_end addr end in
      let block =
        pmd_addr_end-IsBlockEnd addr end r.some_page (omega (arith, r.room))
          (omega (arith, r.room, r.some_page)) in
      let (part, rest) =
        part-IsRange (2 ^ 21) (suc fuel) addr end next refl (omega arith) r (omega arith) block in
      let (cs, here, tiles) =
        walk_pmd_entry-Tiles tables pmdp addr next
          (more-IsRange (suc fuel) tables addr next le part) in
      elim (ℕ_discrete next end) [
        | yes e ↦ (
          cs,
          walk_pmd_loop-last tables fuel pmdp addr end cs e here,
          subst (λ (b : ℕ). Tiles addr cs b) e tiles,
        )
        | no ne ↦
            let (ds, runs, tiles') =
              walk_pmd_loop-Tiles tables fuel (u64 (pmdp + 8)) next end (omega arith)
                (rest ne fuel refl) in
            (
              cs ++ ds,
              walk_pmd_loop-more tables fuel pmdp addr end cs ds ne here runs,
              Tiles-append addr next end cs ds tiles tiles',
            )
      ]

  walk_pgd_entry-Tiles :
      (tables pgdp addr next : ℕ)
      → IsRange tables addr next
      → (cs : List Call) × (walk_pgd_entry mem tables pgdp addr next ≡ some cs) × Tiles addr cs next
  unfolding walk_pgd_entry walk_pmd
  walk_pgd_entry-Tiles tables pgdp addr next r = elim (Bool-cases (mem pgdp == 0)) [
    | inl e ↦ (
      record { start = addr; end = next; level = 0; val = mem pgdp } ∷ [],
      rw e refl,
      (refl, r.some_page, refl),
    )
    | inr e ↦ rw e (
        walk_pmd_loop-Tiles tables tables (get_pmdp_from_pgdp (mem pgdp) addr) addr next
          (omega arith) r)
  ]

  walk_pgd_loop-last :
      (tables fuel pgdp addr end : ℕ) (cs : List Call)
      → pgd_addr_end addr end ≡ end
      → walk_pgd_entry mem tables pgdp addr (pgd_addr_end addr end) ≡ some cs
      → walk_pgd_loop mem tables (suc fuel) pgdp addr end ≡ some cs
  unfolding walk_pgd_loop
  walk_pgd_loop-last tables fuel pgdp addr end cs e runs =
      let last : (pgd_addr_end addr end == end) ≡ true = ground arith in rw (last, runs) refl

  walk_pgd_loop-more :
      (tables fuel pgdp addr end : ℕ) (cs ds : List Call)
      → pgd_addr_end addr end ≢ end
      → walk_pgd_entry mem tables pgdp addr (pgd_addr_end addr end) ≡ some cs
      → walk_pgd_loop mem tables fuel (u64 (pgdp + 8)) (pgd_addr_end addr end) end ≡ some ds
      → walk_pgd_loop mem tables (suc fuel) pgdp addr end ≡ some (cs ++ ds)
  unfolding walk_pgd_loop
  walk_pgd_loop-more tables fuel pgdp addr end cs ds ne here runs =
      let more : (pgd_addr_end addr end == end) ≡ false = ground arith in rw (more, here, runs) refl

  walk_pgd_loop-Tiles :
      (tables fuel pgdp addr end : ℕ)
      → fuel ≤ tables
      → IsRange fuel addr end
      → (cs : List Call) × (walk_pgd_loop mem tables fuel pgdp addr end ≡ some cs)
        × Tiles addr cs end
  walk_pgd_loop-Tiles tables zero pgdp addr end le r = absurd (omega (arith, r.some_page, r.pages))
  walk_pgd_loop-Tiles tables (suc fuel) pgdp addr end le r =
      let next = pgd_addr_end addr end in
      let block =
        pgd_addr_end-IsBlockEnd addr end r.some_page (omega (arith, r.room))
          (omega (arith, r.room, r.some_page)) in
      let (part, rest) =
        part-IsRange (2 ^ 30) (suc fuel) addr end next refl (omega arith) r (omega arith) block in
      let (cs, here, tiles) =
        walk_pgd_entry-Tiles tables pgdp addr next
          (more-IsRange (suc fuel) tables addr next le part) in
      elim (ℕ_discrete next end) [
        | yes e ↦ (
          cs,
          walk_pgd_loop-last tables fuel pgdp addr end cs e here,
          subst (λ (b : ℕ). Tiles addr cs b) e tiles,
        )
        | no ne ↦
            let (ds, runs, tiles') =
              walk_pgd_loop-Tiles tables fuel (u64 (pgdp + 8)) next end (omega arith)
                (rest ne fuel refl) in
            (
              cs ++ ds,
              walk_pgd_loop-more tables fuel pgdp addr end cs ds ne here runs,
              Tiles-append addr next end cs ds tiles tiles',
            )
      ]

-- The walk of a range of whole pages that is not empty and ends below 2 ^ 63, with fuel for its
-- pages, always ends, whatever the tables hold. The ranges that it reports, at any of the three
-- levels, are not empty and follow one another from the start of the range to its end, without a gap
-- and without an overlap.
pub walk_pgd-Tiles :
    (mem : Words) (fuel pgd start size : ℕ)
    → start % 4096 ≡ 0
    → size % 4096 ≡ 0
    → 0 < size
    → start + size < 2 ^ 63
    → size ≤ fuel * 4096
    → (cs : List Call) × (walk_pgd mem fuel pgd start size ≡ some cs)
      × Tiles start cs (start + size)
unfolding walk_pgd
walk_pgd-Tiles mem fuel pgd start size first whole nonempty room pages =
    let fits : u64 (start + size) ≡ start + size = omega arith in
    rw fits (
      walk_pgd_loop-Tiles mem fuel fuel (pgd_offset_raw pgd start) start (start + size)
        (omega arith)
        (record {
          first = first;
          last = omega arith;
          some_page = omega arith;
          room = room;
          pages = omega arith;
        }))
