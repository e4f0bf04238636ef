-- ===== src/Exercises/Copy.antt =====
-- `my_memcpy_asm_test1` of benos/src/kernel.c copies.
use risc_v_lab.Base.{
  ℕ, zero, suc, ◌+◌, ◌-◌, ◌*◌, ◌/◌, ◌^◌, ◌≤◌, ◌<◌, ◌≡◌, ◌≢◌, ◌∙◌, ◌⊎◌, inl, inr, ap, refl, arith,
  true, false, some, u64,
}
use risc_v_lab.Mmu.{Words, set_entry}
use risc_v_lab.Exercises.{blt, copy_loop, my_memcpy}

-- `after` has the `n` doublewords from `src` on at `dst`, and is `before` apart from these places.
pub record Copied (n src dst : ℕ) (before after : Words) : Type 0 where
  pub copied : (k : ℕ) → k < n → after (dst + k * 8) ≡ before (src + k * 8)
  pub others : (a : ℕ) → ((k : ℕ) → k < n → a ≢ dst + k * 8) → after a ≡ before a

-- The two ranges do not overlap.
abbrev pub IsApart : ℕ → ℕ → ℕ → Type 0
IsApart n src dst = (src + n * 8 ≤ dst) ⊎ (dst + n * 8 ≤ src)

blt_lem : (a b : ℕ) → a < 2 ^ 63 → b < 2 ^ 63 → (a < b) → blt a b ≡ true
unfolding blt
blt_lem a b ha hb lt = ground arith

blt_not : (a b : ℕ) → a < 2 ^ 63 → b < 2 ^ 63 → (b ≤ a) → blt a b ≡ false
unfolding blt
blt_not a b ha hb ge = ground arith

copy_loop-last :
    (fuel src dst end : ℕ) (mem : Words)
    → end ≤ src + 8
    → src + 8 < 2 ^ 63
    → copy_loop (suc fuel) src dst end mem ≡ some (set_entry dst (mem src) mem)
unfolding copy_loop
copy_loop-last fuel src dst end mem le low =
    let a : u64 (src + 8) ≡ src + 8 = omega arith in
    rw (a, blt_not (src + 8) end low (omega arith) le) refl

copy_loop-more :
    (fuel src dst end : ℕ) (mem : Words)
    → src + 8 < end
    → end < 2 ^ 63
    → dst + 8 < 2 ^ 64
    → copy_loop (suc fuel) src dst end mem
      ≡ copy_loop fuel (src + 8) (dst + 8) end (set_entry dst (mem src) mem)
unfolding copy_loop
copy_loop-more fuel src dst end mem lt low low' =
    let a : u64 (src + 8) ≡ src + 8 = omega arith in
    let b : u64 (dst + 8) ≡ dst + 8 = omega arith in
    rw (a, b, blt_lem (src + 8) end (omega arith) low lt) refl

Copied-one : (src dst : ℕ) (mem : Words) → Copied 1 src dst mem (set_entry dst (mem src) mem)
unfolding set_entry
Copied-one src dst mem = record {
  copied = elim [
    | zero ↦ λ lt.
        let here : dst + 0 * 8 ≡ dst = omega arith in
        let from : src + 0 * 8 ≡ src = omega arith in rw (here, from) (ground arith)
    | suc k ↦ λ lt. absurd (omega arith)
  ];
  others = λ a out. let ne : a ≢ dst + 0 * 8 = out 0 (omega arith) in ground arith;
}

separate : (n k src dst : ℕ) → IsApart (suc n) src dst → suc k ≤ n → src + suc k * 8 ≢ dst
separate n k src dst (inl h) le e = omega arith
separate n k src dst (inr h) le e = omega arith

IsApart-rest : (n src dst : ℕ) → IsApart (suc (suc n)) src dst → IsApart (suc n) (src + 8) (dst + 8)
IsApart-rest n src dst (inl h) = inl (omega arith)
IsApart-rest n src dst (inr h) = inr (omega arith)

Copied-more :
    (n src dst : ℕ) (mem mem' : Words)
    → IsApart (suc n) src dst
    → Copied n (src + 8) (dst + 8) (set_entry dst (mem src) mem) mem'
    → Copied (suc n) src dst mem mem'
unfolding set_entry
Copied-more n src dst mem mem' apart c = record {
  copied = elim [
    | zero ↦ λ lt.
        let here : dst + 0 * 8 ≡ dst = omega arith in
        let from : src + 0 * 8 ≡ src = omega arith in
        c.others (dst + 0 * 8) (λ k lt' e. omega arith) ∙ rw (here, from) (ground arith)
    | suc k ↦ λ lt.
        let place : dst + suc k * 8 ≡ dst + 8 + k * 8 = omega arith in
        let from : src + 8 + k * 8 ≡ src + suc k * 8 = omega arith in
        let ne : src + suc k * 8 ≢ dst = separate n k src dst apart (omega arith) in
        ap mem' place ∙ c.copied k (omega arith) ∙ rw from (ground arith)
  ];
  others = λ a out.
      let ne : a ≢ dst = λ e. out 0 (omega arith) (omega arith) in
      c.others a (λ k lt e. out (suc k) (omega arith) (omega arith)) ∙ ground arith;
}

copy_loop-Copied :
    (n fuel src dst end : ℕ) (mem : Words)
    → n < fuel
    → end ≤ src + suc n * 8
    → (n ≢ 0 → src + n * 8 < end)
    → src + suc n * 8 < 2 ^ 63
    → dst + suc n * 8 < 2 ^ 64
    → IsApart (suc n) src dst
    → (mem' : Words) × (copy_loop fuel src dst end mem ≡ some mem')
      × Copied (suc n) src dst mem mem'
copy_loop-Copied n zero src dst end mem enough b c d e f = absurd (omega arith)
copy_loop-Copied zero (suc fuel) src dst end mem enough b c d e f =
    (_, copy_loop-last fuel src dst end mem (omega arith) (omega arith), Copied-one src dst mem)
copy_loop-Copied (suc n) (suc fuel) src dst end mem enough b c d e f =
    let inside : src + suc n * 8 < end = c (omega arith) in
    let (mem', runs, copied) =
      copy_loop-Copied n fuel (src + 8) (dst + 8) end (set_entry dst (mem src) mem) (omega arith)
        (omega arith) (λ ne. omega arith) (omega arith) (omega arith) (IsApart-rest n src dst f) in
    (
      mem',
      copy_loop-more fuel src dst end mem (omega arith) (omega arith) (omega arith) ∙ runs,
      Copied-more (suc n) src dst mem mem' f copied,
    )

-- The copies in assembly, for ranges of whole doublewords that do not overlap and whose addresses
-- are below 2 ^ 63 and 2 ^ 64: with fuel for the doublewords they end, have copied the doublewords
-- that contain the `size` bytes from `src` on to `dst`, and one even if `size` is 0, and have
-- changed nothing else.
pub my_memcpy-Copied :
    (fuel src dst size : ℕ) (mem : Words)
    → (size - 1) / 8 < fuel
    → src + size + 8 < 2 ^ 63
    → dst + size + 8 < 2 ^ 64
    → IsApart (suc ((size - 1) / 8)) src dst
    → (mem' : Words) × (my_memcpy fuel src dst size mem ≡ some mem')
      × Copied (suc ((size - 1) / 8)) src dst mem mem'
unfolding my_memcpy
my_memcpy-Copied fuel src dst size mem enough low low' apart =
    let end : u64 (src + size) ≡ src + size = omega arith in
    let (mem', runs, copied) =
      copy_loop-Copied ((size - 1) / 8) fuel src dst (src + size) mem enough (omega arith)
        (λ ne. omega arith) (omega arith) (omega arith) apart in
    (mem', ap (λ e. copy_loop fuel src dst e mem) end ∙ runs, copied)
