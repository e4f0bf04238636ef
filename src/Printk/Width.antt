-- ===== src/Printk/Width.antt =====
-- How many bytes `number` of benos/lib/printk.c writes.
use Prim.Native.Nat.{max}
use mathlib.Core.List.{reverse, reverse-cons}
use risc_v_lab.Base.Int.{ℤ, pos, negsuc, pos_part, ◌-ℤ◌}
use risc_v_lab.Base.{
  ℕ, ◌+◌, ◌^◌, if◌then◌else◌, Bool, true, false, leb, ◌&&◌, some, List, [], ◌∷◌, length,
  length-append, length-replicate, ◌≡◌, ◌∙◌, ap, sym, refl, arith, Bool-cases, inl, inr,
}
use risc_v_lab.Printk.{
  upper_digits, lower_digits, fill_tmp, pad, has_flag, zeropad, sign_flag, left, small,
  layout_number, take_sign, special_prefix, special_size, effective_type, number,
}
use risc_v_lab.Printk.Digits.{at_least}

length-reverse : (l : List ℕ) → length (reverse l) ≡ length l
length-reverse [] = refl
length-reverse (x ∷ l) =
    ap length (reverse-cons x l)
    ∙ length-append (reverse l) (x ∷ [])
    ∙ omega (arith, length-reverse l)

length-pad : (c : ℕ) (size : ℤ) → length (pad c size).0 ≡ pos_part size
unfolding pad
length-pad c (pos n) = length-replicate n c
length-pad c (negsuc n) = refl

pad_rest : (c : ℕ) (size : ℤ) → pos_part (pad c size).1 ≡ 0
unfolding pad
pad_rest c (pos n) = refl
pad_rest c (negsuc n) = refl

ruleset lengths = (length-append, length-replicate, length-reverse, length-pad, pad_rest)

layout-length :
    (sign prefix tmp : List ℕ) (size precision : ℤ) (type : ℕ)
    → length (layout_number sign prefix tmp size precision type)
      ≡ length sign
        + length prefix
        + (pos_part (size -ℤ at_least precision (length tmp))
            + (pos_part (at_least precision (length tmp) -ℤ pos (length tmp)) + length tmp))
unfolding layout_number
layout-length sign prefix tmp size precision type =
    elim (Bool-cases (has_flag type (zeropad + left))) [
      | inl one ↦ elim (Bool-cases (has_flag type left)) [
        | inl l ↦ rw (one, l) (simp lengths (omega arith))
        | inr r ↦ rw (one, r) (simp lengths (omega arith))
      ]
      | inr neither ↦ elim (Bool-cases (has_flag type left)) [
        | inl l ↦ rw (neither, l) (simp lengths (omega arith))
        | inr r ↦ rw (neither, r) (simp lengths (omega arith))
      ]
    ]

-- The number is printed as a negative one.
abbrev pub is_negative : ℕ → ℕ → Bool
is_negative type num = has_flag (effective_type type) sign_flag && leb (2 ^ 63) num

abbrev pub digits_of : ℕ → ℕ → List ℕ
digits_of type num =
    fill_tmp (if has_flag type small then lower_digits else upper_digits) 10
      (take_sign (effective_type type) num (pos 0)).1

abbrev pub sign_of : ℕ → ℕ → List ℕ
sign_of type num = (take_sign (effective_type type) num (pos 0)).0

-- The digits with the zeros that the precision asks for.
abbrev pub digit_count : ℕ → ℕ → ℤ → ℕ
digit_count type num precision = max (pos_part precision) (length (digits_of type num))

abbrev part : ℕ → ℕ → ℕ
part type num = (take_sign (effective_type type) num (pos 0)).1

take_sign-negative :
    (type num : ℕ) (size : ℤ)
    → is_negative type num ≡ true
    → take_sign (effective_type type) num size ≡ (b'-' ∷ [], part type num, size)
unfolding take_sign
take_sign-negative type num size h = ground arith

take_sign-other :
    (type num w : ℕ)
    → is_negative type num ≡ false
    → take_sign (effective_type type) num (pos w)
      ≡ (sign_of type num, part type num, pos w -ℤ pos (length (sign_of type num)))
unfolding take_sign ◌-ℤ◌
take_sign-other type num w h = ground arith

special_prefix-decimal : (digits : List ℕ) (type : ℕ) → special_prefix digits type 10 ≡ []
unfolding special_prefix
special_prefix-decimal digits type = ground arith

special_size-decimal : (type : ℕ) (size : ℤ) → special_size type 10 size ≡ size
unfolding special_size
special_size-decimal type size = ground arith

field_total :
    (w k i : ℕ) (p : ℤ)
    → k + 0 + (pos_part ((pos w -ℤ pos k) -ℤ at_least p i) + (pos_part (at_least p i -ℤ pos i) + i))
      ≡ max w (k + max (pos_part p) i)
unfolding ◌-ℤ◌
field_total w k i (pos p) = ground arith
field_total w k i (negsuc p) = ground arith

minus_zero : (w : ℕ) → pos w -ℤ pos 0 ≡ pos w
unfolding ◌-ℤ◌
minus_zero w = ground arith

abbrev table : ℕ → List ℕ
table type = if has_flag type small then lower_digits else upper_digits

abbrev printed : ℕ → ℤ → List ℕ × ℕ × ℤ → List ℕ
printed type precision r =
    layout_number r.0 [] (fill_tmp (table type) 10 r.1) r.2 precision (effective_type type)

number-printed :
    (num : ℕ) (size precision : ℤ) (type : ℕ)
    → number num 10 size precision type
      ≡ some (printed type precision (take_sign (effective_type type) num size))
unfolding number
number-printed num size precision type =
    let r = take_sign (effective_type type) num size in
    rw
      (
        special_prefix-decimal (table type) (effective_type type),
        special_size-decimal (effective_type type) r.2,
      )
      refl

-- A sign and a size that differ by `k` from a width.
printed-length :
    (type num w k : ℕ) (sign : List ℕ) (precision : ℤ)
    → length (printed type precision (sign, part type num, pos w -ℤ pos k)) + k
      ≡ length sign + max w (k + digit_count type num precision)
printed-length type num w k sign precision =
    let tmp = digits_of type num in
    omega (
      arith,
      layout-length sign [] tmp (pos w -ℤ pos k) precision (effective_type type),
      field_total w k (length tmp) precision,
    )

-- `number` prints a decimal number at any width, precision and flags. It fills the width exactly,
-- unless sign and digits are longer; but a negative number that leaves room in its field takes one
-- byte more than the width.
pub number_width :
    (num width : ℕ) (precision : ℤ) (type : ℕ)
    → (s : List ℕ) × (number num 10 (pos width) precision type ≡ some s)
      × (length s ≡ (
          if is_negative type num
          then 1 + max width (digit_count type num precision)
          else max width (length (sign_of type num) + digit_count type num precision)))
number_width num width precision type = (
  _,
  number-printed num (pos width) precision type,
  elim (Bool-cases (is_negative type num)) [
    | inl negative ↦
        rw (negative, take_sign-negative type num (pos width) negative)
          (ap (λ z. length (printed type precision (b'-' ∷ [], part type num, z)))
              (sym (minus_zero width))
            ∙ omega (arith, printed-length type num width 0 (b'-' ∷ []) precision))
    | inr other ↦
        rw (other, take_sign-other type num width other)
          (omega (
            arith,
            printed-length type num width (length (sign_of type num)) (sign_of type num) precision,
          ))
  ],
)
