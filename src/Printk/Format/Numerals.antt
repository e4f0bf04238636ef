-- ===== src/Printk/Format/Numerals.antt =====
-- The numerals that `number` of benos/lib/printk.c prints without a width and a precision.
use mathlib.Core.List.{reverse, reverse-cons, append-nil}
use native.Mathlib.Nat.{pow-suc}
use risc_v_lab.Base.Int.{ℤ, pos, negsuc, ◌-ℤ◌}
use risc_v_lab.Base.{
  ℕ, zero, suc, ◌*◌, ◌/◌, ◌%◌, ◌^◌, ◌≤◌, ◌<◌, ◌==◌, if◌then◌else◌, true, false, ltb, some, List, [],
  ◌∷◌, ◌++◌, length, ◌≡◌, ◌≢◌, ◌∙◌, ap, refl, arith, Bool-cases, inl, inr,
}
use risc_v_lab.Printk.{
  sign_flag, small, has_flag, digit_char, upper_digits, lower_digits, div_loop, fill_tmp, pad,
  take_sign, special_prefix, special_size, effective_type, layout_number, number,
}
use risc_v_lab.Printk.Digits.{at_least, sign_text, magnitude}

-- A numeral from its highest digit on, for numbers below 2 ^ fuel.
unfoldable pub numeral : ℕ → List ℕ → ℕ → ℕ → List ℕ
numeral zero digits base n = []
numeral (suc fuel) digits base n =
    let rest = numeral fuel digits base (n / base) in
    if ltb n base then digit_char digits n ∷ [] else rest ++ digit_char digits (n % base) ∷ []

div_loop-zero : (fuel base : ℕ) (digits : List ℕ) → div_loop fuel digits base 0 ≡ []
unfolding div_loop
div_loop-zero zero base digits = refl
div_loop-zero (suc fuel) base digits = refl

quotient_small : (n base : ℕ) → n < base → (n / base ≡ 0) × (n % base ≡ n)
quotient_small n base h = grind arith

quotient_pos : (n base : ℕ) → 2 ≤ base → base ≤ n → n / base ≢ 0
quotient_pos n base two h = grind arith

quotient_half : (n base m : ℕ) → 2 ≤ base → n < m * 2 → n / base < m
quotient_half n base m two h = grind arith

reverse-div_loop :
    (fuel base n : ℕ) (digits : List ℕ)
    → 2 ≤ base
    → n ≢ 0
    → n < 2 ^ fuel
    → reverse (div_loop fuel digits base n) ≡ numeral fuel digits base n
unfolding div_loop numeral
reverse-div_loop zero base n digits two nz h = absurd (omega arith)
reverse-div_loop (suc fuel) base n digits two nz h =
    let ne : (n == 0) ≡ false = ground arith in
    elim (Bool-cases (ltb n base)) [
      | inl below ↦
          let q = quotient_small n base (ground arith) in
          rw (ne, below, q.0, q.1, div_loop-zero fuel base digits) refl
      | inr above ↦
          let high : base ≤ n = ground arith in
          let half : n / base < 2 ^ fuel =
            quotient_half n base (2 ^ fuel) two (omega (arith, pow-suc 2 fuel)) in
          rw (ne, above)
            (reverse-cons (digit_char digits (n % base)) (div_loop fuel digits base (n / base))
              ∙ ap (λ (l : List ℕ). l ++ digit_char digits (n % base) ∷ [])
                  (reverse-div_loop fuel base (n / base) digits two (quotient_pos n base two high)
                    half))
    ]

reverse-fill_tmp :
    (base n : ℕ) (digits : List ℕ)
    → 2 ≤ base
    → digit_char digits 0 ≡ b'0'
    → n < 2 ^ 64
    → reverse (fill_tmp digits base n) ≡ numeral 64 digits base n
unfolding fill_tmp numeral
reverse-fill_tmp base n digits two first h = elim (Bool-cases (n == 0)) [
  | inl e ↦
      let nil : n ≡ 0 = ground arith in
      let below : ltb 0 base ≡ true = ground arith in rw (nil, below, first) refl
  | inr ne ↦ rw ne (reverse-div_loop 64 base n digits two (ground arith) h)
]

-- Without a width and a precision nothing is filled.
no_precision : (i : ℕ) → at_least (negsuc 0) i ≡ pos i
no_precision i = ground arith

no_width : (i : ℕ) → negsuc 0 -ℤ pos i ≡ negsuc i
unfolding ◌-ℤ◌
no_width i = ground arith

no_zeros : (i : ℕ) → pos i -ℤ pos i ≡ pos 0
unfolding ◌-ℤ◌
no_zeros i = ground arith

layout-plain :
    (sign tmp : List ℕ) (type : ℕ)
    → layout_number sign [] tmp (negsuc 0) (negsuc 0) type ≡ sign ++ reverse tmp
unfolding layout_number pad
layout-plain sign tmp type = elim (Bool-cases (has_flag type 17)) [
  | inl one ↦ elim (Bool-cases (has_flag type 16)) [
    | inl l ↦
        rw (no_precision (length tmp), no_width (length tmp), no_zeros (length tmp), one, l)
          (simp append-nil)
    | inr r ↦
        rw (no_precision (length tmp), no_width (length tmp), no_zeros (length tmp), one, r)
          (simp append-nil)
  ]
  | inr neither ↦ elim (Bool-cases (has_flag type 16)) [
    | inl l ↦
        rw (no_precision (length tmp), no_width (length tmp), no_zeros (length tmp), neither, l)
          (simp append-nil)
    | inr r ↦
        rw (no_precision (length tmp), no_width (length tmp), no_zeros (length tmp), neither, r)
          (simp append-nil)
  ]
]

module _ (v : ℕ) (fits : v < 2 ^ 64) where
  magnitude_fits : magnitude v < 2 ^ 64
  magnitude_fits = ground arith

  pub number-signed :
      number v 10 (negsuc 0) (negsuc 0) sign_flag
      ≡ some (sign_text v ++ numeral 64 upper_digits 10 (magnitude v))
  unfolding number take_sign special_prefix special_size effective_type digit_char
  number-signed =
      let tmp = fill_tmp upper_digits 10 (magnitude v) in
      let r : take_sign sign_flag v (negsuc 0) ≡ (sign_text v, magnitude v, negsuc 0) =
        ground arith in
      ap
        (λ (t : List ℕ × ℕ × ℤ).
          some (layout_number t.0 [] (fill_tmp upper_digits 10 t.1) t.2 (negsuc 0) sign_flag))
        r
      ∙ ap some (layout-plain (sign_text v) tmp sign_flag)
      ∙ ap (λ (t : List ℕ). some (sign_text v ++ t))
          (reverse-fill_tmp 10 (magnitude v) upper_digits (omega arith) refl magnitude_fits)

  pub number-unsigned : number v 10 (negsuc 0) (negsuc 0) 0 ≡ some (numeral 64 upper_digits 10 v)
  unfolding number take_sign special_prefix special_size effective_type digit_char
  number-unsigned =
      ap some (layout-plain [] (fill_tmp upper_digits 10 v) 0)
      ∙ ap some (reverse-fill_tmp 10 v upper_digits (omega arith) refl fits)

  pub number-hex : number v 16 (negsuc 0) (negsuc 0) small ≡ some (numeral 64 lower_digits 16 v)
  unfolding number take_sign special_prefix special_size effective_type digit_char
  number-hex =
      ap some (layout-plain [] (fill_tmp lower_digits 16 v) small)
      ∙ ap some (reverse-fill_tmp 16 v lower_digits (omega arith) refl fits)
