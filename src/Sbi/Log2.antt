-- ===== src/Sbi/Log2.antt =====
-- `log2roundup` of benos/sbi/sbi_lib.c.
use risc_v_lab.Base.{ℕ, zero, suc, ◌+◌, ◌^◌, ◌≤◌, ◌<◌, arith, leb, Bool-cases, inl, inr}
use native.Mathlib.Decide.{ℕ_discrete}
use risc_v_lab.Sbi.{log2_loop, log2roundup}

-- `r` is the least exponent from `ret` on whose power reaches `x`, if it is below `last`.
pub record IsLog2 (ret last x r : ℕ) : Type 0 where
  pub bound : r ≤ last
  pub reaches : r < last → x ≤ 2 ^ r
  pub least : (j : ℕ) → ret ≤ j → j < r → 2 ^ j < x

log2_loop-IsLog2 : (n ret x : ℕ) → IsLog2 ret (ret + n) x (log2_loop n ret x)
unfolding log2_loop
log2_loop-IsLog2 zero ret x = record {
  bound = omega arith;
  reaches = λ h. absurd (omega arith);
  least = λ j le lt. absurd (omega arith);
}
log2_loop-IsLog2 (suc n) ret x = elim (Bool-cases (leb x (2 ^ ret))) [
  | inl stop ↦ rw stop (record {
    bound = omega arith;
    reaches = λ h. ground arith;
    least = λ j le lt. absurd (omega arith);
  })
  | inr more ↦
      let rest = log2_loop-IsLog2 n (ret + 1) x in
      rw more (record {
        bound = omega (arith, rest.bound);
        reaches = λ h. rest.reaches (omega arith);
        least = λ j le lt. elim (ℕ_discrete j ret) [
          | yes e ↦ rw e (ground arith)
          | no ne ↦ rest.least j (omega arith) lt
        ];
      })
]

-- `log2roundup` gives the least exponent whose power of 2 is at least `x`, and 64 where that would
-- be 2 ^ 64 or more.
pub log2roundup-IsLog2 : (x : ℕ) → IsLog2 0 64 x (log2roundup x)
unfolding log2roundup
log2roundup-IsLog2 x = log2_loop-IsLog2 64 0 x
