-- ===== src/Walk/Parts.antt =====
-- The parts into which the loops of benos/src/mmu.c cut a range.
use risc_v_lab.Base.{
  ℕ, ◌+◌, ◌-◌, ◌*◌, ◌/◌, ◌%◌, ◌^◌, ◌≤◌, ◌<◌, ◌≡◌, ◌≢◌, inl, inr, arith, u64, sub64,
}
use risc_v_lab.Pgtable.Ends.{IsBlockEnd}
use risc_v_lab.Mmu.Returns.{IsRange}

-- The addresses lie in the directory's 2 ^ 39 bytes, and the pages below 2 ^ 64.
pub record HasRoom (addr end phys : ℕ) : Type 0 where
  pub top : end ≤ 2 ^ 39
  pub whole : phys % 4096 ≡ 0
  pub low : phys + (end - addr) < 2 ^ 64

-- How many blocks of `size` bytes a range touches.
abbrev pub blocks : ℕ → ℕ → ℕ → ℕ
blocks size addr end = (end - 1) / size + 1 - addr / size

pub HasRoom-part :
    (addr next end phys : ℕ) → next ≤ end → HasRoom addr end phys → HasRoom addr next phys
HasRoom-part addr next end phys le room = record {
  top = omega (arith, room.top);
  whole = room.whole;
  low = omega (arith, room.low);
}

-- `phys += next - addr`
pub next_phys :
    (addr next end phys : ℕ)
    → addr < next
    → next ≤ end
    → HasRoom addr end phys
    → u64 (phys + sub64 next addr) ≡ phys + (next - addr)
next_phys addr next end phys lt le room = omega (arith, room.top, room.low)

pub HasRoom-rest :
    (addr next end phys : ℕ)
    → addr < next
    → next ≤ end
    → (next - addr) % 4096 ≡ 0
    → HasRoom addr end phys
    → HasRoom next end (u64 (phys + sub64 next addr))
HasRoom-rest addr next end phys lt le whole room =
    let far = next_phys addr next end phys lt le room in
    record {
      top = room.top;
      whole = omega (arith, far, room.whole);
      low = omega (arith, far, room.low);
    }

pub IsRange-weaken : (n n' addr end : ℕ) → n ≤ n' → IsRange n addr end → IsRange n' addr end
IsRange-weaken n n' addr end le r = record {
  first = r.first;
  last = r.last;
  some_page = r.some_page;
  room = r.room;
  pages = omega (arith, r.pages);
}

-- The next entry of a table.
pub next_pmdp :
    (base base' pmdp addr next : ℕ)
    → base < 2 ^ 56
    → pmdp ≡ base + addr / 2 ^ 21 % 512 * 8
    → next ≡ addr / 2 ^ 21 * 2 ^ 21 + 2 ^ 21
    → next / 2 ^ 30 ≡ addr / 2 ^ 30
    → base' ≡ base
    → u64 (pmdp + 8) ≡ base' + next / 2 ^ 21 % 512 * 8
next_pmdp base base' pmdp addr next low at at_next same e = omega arith

-- Where the entry of a range ends before the range does, the next one starts.
pub IsBlockEnd-next :
    (size addr end next : ℕ)
    → IsBlockEnd size addr end next
    → next ≢ end
    → next ≡ addr / size * size + size
IsBlockEnd-next size addr end next block ne = elim block.3 [ inl e ↦ absurd (ne e) | inr e ↦ e ]
