-- ===== src/Dump/Units.antt =====
-- The unit that `print_pgtable` of benos/src/dump_pgtable.c finds.
use risc_v_lab.Base.{
  ℕ, zero, suc, ◌+◌, ◌*◌, ◌/◌, ◌%◌, ◌^◌, ◌<◌, ◌==◌, bit_and, some, ◌≡◌, ◌≢◌, ◌∙◌, ap, arith,
  Bool-cases, inl, inr,
}
use native.Mathlib.Nat.{pow-suc}
use risc_v_lab.Base.Bits.{bit_and_low}
use risc_v_lab.Dump.{find_unit}

-- The loop that looks for the unit of a number that is not 0 and is below 1024 ^ fuel ends; the number
-- it gives, in its unit, is the one it was given.
pub find_unit_lem :
    (fuel delta unit : ℕ)
    → delta ≢ 0
    → delta < 1024 ^ fuel
    → (d : ℕ) × (u : ℕ) × (find_unit fuel delta unit ≡ some (d, unit + u))
      × (d * 1024 ^ u ≡ delta)
      × (d % 1024 ≢ 0)
unfolding find_unit
find_unit_lem zero delta unit nz h = absurd (omega arith)
find_unit_lem (suc fuel) delta unit nz h = elim (Bool-cases (bit_and delta 1023 == 0)) [
  | inl whole ↦
      let low = bit_and_low 10 delta in
      let (d, u, runs, size, rest) =
        find_unit_lem fuel (delta / 1024) (unit + 1) (ground arith)
          (omega (arith, pow-suc 1024 fuel)) in
      (
        d,
        suc u,
        rw whole (
            runs
            ∙ ap (λ (n : ℕ). some (d, n)) (let e : unit + 1 + u ≡ unit + suc u = omega arith in e)),
        omega (
          arith,
          ap (λ (n : ℕ). d * n) (pow-suc 1024 u),
          ap (λ (n : ℕ). n * 1024) size,
          (let e : delta / 1024 * 1024 ≡ delta = ground arith in e),
        ),
        rest,
      )
  | inr part ↦
      let low = bit_and_low 10 delta in
      (
        delta,
        0,
        rw part (ap (λ (n : ℕ). some (delta, n)) (let e : unit ≡ unit + 0 = omega arith in e)),
        omega arith,
        ground arith,
      )
]
