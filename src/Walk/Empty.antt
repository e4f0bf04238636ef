-- ===== src/Walk/Empty.antt =====
-- A directory without entries, from which `paging_init` of benos/src/mmu.c starts, and what it maps.
use risc_v_lab.Base.{ℕ, ◌+◌, ◌*◌, ◌/◌, ◌%◌, ◌^◌, ◌<◌, ◌≡◌, ◌≢◌, ◌∙◌, sym, ap, arith}
use native.Mathlib.Decide.{ℕ_discrete}
use risc_v_lab.Mmu.{Mmu}
use risc_v_lab.Walk.{entry_for}
use risc_v_lab.Walk.Supply.{IsPool, IsFreePage, IsTablePage}
use risc_v_lab.Walk.Tree.{Role, unused, top, middle, IsTree, assign, assign_self, assign_ne}
use risc_v_lab.Walk.Paths.{entry_at-none}

-- An empty directory at a page of its own.
pub record IsEmptyDir (dir : ℕ) (m : Mmu) : Type 0 where
  pub pool : IsPool m.alloc
  pub page : IsTablePage dir
  pub own : ¬ IsFreePage m.alloc dir
  pub empty : (i : ℕ) → i < 512 → m.mem (dir + i * 8) ≡ 0

abbrev pub only_dir : ℕ → ℕ → Role
only_dir dir = assign dir top (λ p. unused)

only_dir-top : (dir p : ℕ) → only_dir dir p ≢ unused → p ≡ dir
only_dir-top dir p h = elim (ℕ_discrete p dir) [
  | yes e ↦ e
  | no ne ↦ absurd (h (assign_ne dir top (λ p. unused) p ne))
]

only_dir-middle : (dir p i : ℕ) → ¬ (only_dir dir p ≡ middle i)
only_dir-middle dir p i e = elim (ℕ_discrete p dir) [
  | yes at ↦
      let here : only_dir dir p ≡ top = ap (only_dir dir) at ∙ assign_self dir top (λ p. unused) in
      cc
  | no ne ↦ let other = assign_ne dir top (λ p. unused) p ne in cc
]

pub empty-IsTree : (dir : ℕ) (m : Mmu) → IsEmptyDir dir m → IsTree dir (only_dir dir) m
empty-IsTree dir m h = record {
  pool = h.pool;
  root = assign_self dir top (λ p. unused);
  tables = λ p used. rw (only_dir-top dir p used) h.page;
  spare = λ p free. assign_ne dir top (λ p. unused) p (λ e. h.own (rw (sym e) free));
  tops = λ i hi ne. absurd (ne (h.empty i hi));
  middles = λ p i j e. absurd (only_dir-middle dir p i e);
}

pub empty-entry_for :
    (dir va : ℕ) (m : Mmu) → IsEmptyDir dir m → va < 2 ^ 39 → entry_for dir m.mem va ≡ 0
unfolding entry_for
empty-entry_for dir va m h small =
    entry_at-none dir m.mem (va / 2 ^ 30) (va / 2 ^ 21 % 512) (va / 4096 % 512)
      (h.empty (va / 2 ^ 30) (omega arith))
