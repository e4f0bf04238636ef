-- ===== src/Printk/Digits.antt =====
-- The decimal digits that `number` of benos/lib/printk.c prints, read back by `scan_number`.
use mathlib.Core.List.{reverse, reverse-cons, append_assoc}
use native.Mathlib.Nat.{pow-suc}
use risc_v_lab.Base.Int.{ℤ, pos, negsuc, pos_part, ◌-ℤ◌, ltb_ℤ}
use risc_v_lab.Base.Tests.{checks_upto, checks_upto-at}
use risc_v_lab.Base.{
  ℕ, zero, suc, ◌+◌, ◌-◌, ◌*◌, ◌/◌, ◌%◌, ◌^◌, ◌<◌, ◌==◌, if◌then◌else◌, true, false, leb, some,
  List, [], ◌∷◌, ◌++◌, length, replicate, ◌≡◌, ◌∙◌, ap, refl, arith, Bool-cases, inl, inr, ==_iff,
}
use risc_v_lab.Printk.{
  is_digit, scan_digits, scan_number, digit_char, upper_digits, lower_digits, div_loop, fill_tmp,
  pad, layout_number, zeropad, sign_flag, take_sign, number, effective_type, special_prefix,
  special_size,
}

-- A table whose first ten digits are the decimal ones.
abbrev pub IsDecimal : List ℕ → Type 0
IsDecimal digits = (d : ℕ) → d < 10 → digit_char digits d ≡ b'0' + d

upper_table : checks_upto (λ d. digit_char upper_digits d == b'0' + d) 10 ≡ true
unfolding checks_upto digit_char
upper_table = refl

lower_table : checks_upto (λ d. digit_char lower_digits d == b'0' + d) 10 ≡ true
unfolding checks_upto digit_char
lower_table = refl

pub upper_digits-IsDecimal : IsDecimal upper_digits
upper_digits-IsDecimal d h = (==_iff _ _).0 (checks_upto-at _ 10 d h upper_table)

pub lower_digits-IsDecimal : IsDecimal lower_digits
lower_digits-IsDecimal d h = (==_iff _ _).0 (checks_upto-at _ 10 d h lower_table)

scan_digits-last :
    (d acc : ℕ) (rest : List ℕ)
    → d < 10
    → scan_digits acc ((b'0' + d) ∷ rest) ≡ scan_digits (acc * 10 + d) rest
unfolding scan_digits
scan_digits-last d acc rest h = ground arith

reverse-last : (x : ℕ) (xs rest : List ℕ) → reverse (x ∷ xs) ++ rest ≡ reverse xs ++ x ∷ rest
reverse-last x xs rest =
    ap (λ (l : List ℕ). l ++ rest) (reverse-cons x xs) ∙ append_assoc (reverse xs) (x ∷ []) rest

scan-div_loop :
    (fuel n : ℕ) (digits rest : List ℕ)
    → IsDecimal digits
    → n < 2 ^ fuel
    → scan_digits 0 (reverse (div_loop fuel digits 10 n) ++ rest) ≡ scan_digits n rest
unfolding div_loop
scan-div_loop zero n digits rest dec h =
    ap (λ (t : ℕ). scan_digits t rest) (let e : 0 ≡ n = omega arith in e)
scan-div_loop (suc fuel) n digits rest dec h = elim (Bool-cases (n == 0)) [
  | inl done ↦ rw done (ap (λ (t : ℕ). scan_digits t rest) (let e : 0 ≡ n = ground arith in e))
  | inr more ↦
      let bound : n / 10 < 2 ^ fuel = omega (arith, pow-suc 2 fuel) in
      let last = n % 10 in
      rw (more, dec last (omega arith))
        (ap (scan_digits 0) (reverse-last (b'0' + last) (div_loop fuel digits 10 (n / 10)) rest)
          ∙ scan-div_loop fuel (n / 10) digits ((b'0' + last) ∷ rest) dec bound
          ∙ scan_digits-last last (n / 10) rest (omega arith)
          ∙ ap (λ (t : ℕ). scan_digits t rest)
              (let e : n / 10 * 10 + n % 10 ≡ n = omega arith in e))
]

scan-fill_tmp :
    (n : ℕ) (digits rest : List ℕ)
    → IsDecimal digits
    → n < 2 ^ 64
    → scan_digits 0 (reverse (fill_tmp digits 10 n) ++ rest) ≡ scan_digits n rest
unfolding fill_tmp
scan-fill_tmp n digits rest dec h = elim (Bool-cases (n == 0)) [
  | inl e ↦ rw e (
      scan_digits-last 0 0 rest (omega arith)
      ∙ ap (λ (t : ℕ). scan_digits t rest) (let z : 0 * 10 + 0 ≡ n = ground arith in z))
  | inr ne ↦ rw ne (scan-div_loop 64 n digits rest dec h)
]

scan_digits-zeros :
    (k : ℕ) (rest : List ℕ) → scan_digits 0 (replicate k b'0' ++ rest) ≡ scan_digits 0 rest
scan_digits-zeros zero rest = refl
scan_digits-zeros (suc k) rest =
    scan_digits-last 0 0 (replicate k b'0' ++ rest) (omega arith) ∙ scan_digits-zeros k rest

scan_digits-pad :
    (size : ℤ) (rest : List ℕ) → scan_digits 0 ((pad b'0' size).0 ++ rest) ≡ scan_digits 0 rest
unfolding pad
scan_digits-pad (pos n) rest = scan_digits-zeros n rest
scan_digits-pad (negsuc n) rest = refl

-- Nothing is left to fill after a loop that has filled the field.
pub pad-pad : (c d : ℕ) (size : ℤ) → (pad d (pad c size).1).0 ≡ []
unfolding pad
pad-pad c d (pos n) = refl
pad-pad c d (negsuc n) = refl

-- A text that does not go on with a digit.
abbrev pub Ends : List ℕ → Type 0
Ends [] = Unit {0}
Ends (c ∷ s) = is_digit c ≡ false

scan_digits-Ends : (n : ℕ) (rest : List ℕ) → Ends rest → scan_digits n rest ≡ (n, rest)
unfolding scan_digits
scan_digits-Ends n [] e = refl
scan_digits-Ends n (c ∷ s) e = rw e refl

-- What stands between the sign and the end of the field, if the field is filled with zeros.
abbrev pub at_least : ℤ → ℕ → ℤ
at_least precision i = if ltb_ℤ precision (pos i) then pos i else precision

abbrev zeros : List ℕ → ℤ → List ℕ
zeros tmp precision =
    replicate (pos_part (at_least precision (length tmp) -ℤ pos (length tmp))) b'0'

abbrev unsigned_part : List ℕ → ℤ → ℤ → List ℕ
unsigned_part tmp size precision =
    let filled = pad b'0' (size -ℤ at_least precision (length tmp)) in
    filled.0 ++ (zeros tmp precision ++ (reverse tmp ++ (pad b' ' filled.1).0))

layout-unsigned_part :
    (sign tmp : List ℕ) (size precision : ℤ)
    → layout_number sign [] tmp size precision (zeropad + sign_flag)
      ≡ sign ++ unsigned_part tmp size precision
unfolding layout_number
layout-unsigned_part sign tmp size precision = refl

append_last : (a b c d r : List ℕ) → (a ++ (b ++ (c ++ d))) ++ r ≡ a ++ (b ++ (c ++ (d ++ r)))
append_last a b c d r = simp append_assoc

unsigned_part-scan :
    (tmp rest : List ℕ) (n : ℕ) (size precision : ℤ)
    → ((s : List ℕ) → scan_digits 0 (reverse tmp ++ s) ≡ scan_digits n s)
    → Ends rest
    → scan_digits 0 (unsigned_part tmp size precision ++ rest) ≡ (n, rest)
unsigned_part-scan tmp rest n size precision reads e =
    let size1 = size -ℤ at_least precision (length tmp) in
    let filled = pad b'0' size1 in
    let zeros' = zeros tmp precision in
    ap (scan_digits 0) (append_last filled.0 zeros' (reverse tmp) (pad b' ' filled.1).0 rest)
    ∙ ap (λ (l : List ℕ). scan_digits 0 (filled.0 ++ (zeros' ++ (reverse tmp ++ (l ++ rest)))))
        (pad-pad b'0' b' ' size1)
    ∙ scan_digits-pad size1 (zeros' ++ (reverse tmp ++ rest))
    ∙ scan_digits-zeros (pos_part (at_least precision (length tmp) -ℤ pos (length tmp)))
        (reverse tmp ++ rest)
    ∙ reads rest
    ∙ scan_digits-Ends n rest e

-- The value of 64 bits as a `long`: its sign, as it is printed, and its absolute value.
abbrev pub sign_text : ℕ → List ℕ
sign_text num = if leb (2 ^ 63) num then b'-' ∷ [] else []

abbrev pub magnitude : ℕ → ℕ
magnitude num = if leb (2 ^ 63) num then 2 ^ 64 - num else num

take_sign-signed :
    (num : ℕ) (size : ℤ)
    → take_sign (zeropad + sign_flag) num size ≡ (sign_text num, magnitude num, size)
unfolding take_sign
take_sign-signed num size = ground arith

-- A signed decimal number of 64 bits whose absolute value is below 2 ^ 31, printed by `number` with
-- the flags SIGN and ZEROPAD at any width and precision, consists of its sign and a part that
-- `scan_number` reads back as its absolute value, up to the text that follows, unless that goes on
-- with a digit.
pub number-scan_number :
    (num : ℕ) (size precision : ℤ) (rest : List ℕ)
    → num < 2 ^ 64
    → magnitude num < 2 ^ 31
    → Ends rest
    → (t : List ℕ) × (number num 10 size precision (zeropad + sign_flag)
        ≡ some (sign_text num ++ t))
      × (scan_number (t ++ rest) ≡ (magnitude num, rest))
unfolding number scan_number special_prefix special_size effective_type
number-scan_number num size precision rest fits small e =
    let tmp = fill_tmp upper_digits 10 (magnitude num) in
    (
      unsigned_part tmp size precision,
      ap
            (λ (r : List ℕ × ℕ × ℤ). some (
              layout_number r.0 [] (fill_tmp upper_digits 10 r.1) r.2 precision
                (zeropad + sign_flag)))
            (take_sign-signed num size)
          ∙ ap some (layout-unsigned_part (sign_text num) tmp size precision),
      unsigned_part-scan tmp rest (magnitude num) size precision
          (λ s. scan-fill_tmp (magnitude num) upper_digits s upper_digits-IsDecimal (omega arith))
          e,
    )
