-- ===== src/Printk.antt =====
-- The formatting of numbers in benos/lib/printk.c. A text is the list of its bytes; what the code
-- writes through `str` is the list that is returned. `size` and `precision` are ints.
pub mod Digits
pub mod Conversions
pub mod Format
pub mod Console
pub mod Width
use Prim.Native.Char.{code}
use Prim.Native.String.{String}
use mathlib.Core.List.{reverse}
use risc_v_lab.Base.Int.{ℤ, pos, negsuc, pos_part, ◌-ℤ◌, ltb_ℤ}
use risc_v_lab.Base.{
  ℕ, zero, suc, ◌+◌, ◌-◌, ◌*◌, ◌/◌, ◌%◌, ◌^◌, ◌==◌, if◌then◌else◌, Bool, true, false, not, ltb, leb,
  ◌&&◌, ◌||◌, bit_and, u64, Option, none, some, List, [], ◌∷◌, ◌++◌, length, get_elem?, replicate,
  ◌≡◌, refl, arith,
}

abbrev pub codes : String → List ℕ
codes String.[] = []
codes (String.◌∷◌ c s) = code c ∷ codes s

abbrev pub zeropad : ℕ
zeropad = 1

abbrev pub sign_flag : ℕ
sign_flag = 2

abbrev pub plus : ℕ
plus = 4

abbrev pub space : ℕ
space = 8

abbrev pub left : ℕ
left = 16

abbrev pub special : ℕ
special = 32

abbrev pub small : ℕ
small = 64

-- type & flag, as a test
abbrev pub has_flag : ℕ → ℕ → Bool
has_flag type flag = not (bit_and type flag == 0)

unfoldable pub is_digit : ℕ → Bool
is_digit c = leb b'0' c && leb c b'9'

-- The loop of `scan_number`: the number so far and the text that is left.
unfoldable pub scan_digits : ℕ → List ℕ → ℕ × List ℕ
unfolding is_digit
scan_digits tmp [] = (tmp, [])
scan_digits tmp (c ∷ s) = if is_digit c then scan_digits (tmp * 10 + (c - b'0')) s else (tmp, c ∷ s)

unfoldable pub scan_number : List ℕ → ℕ × List ℕ
scan_number string = scan_digits 0 string

abbrev pub upper_digits : List ℕ
upper_digits = codes "0123456789ABCDEFGHIJKLMNOPQRSTUVWXYZ"

abbrev pub lower_digits : List ℕ
lower_digits = codes "0123456789abcdefghijklmnopqrstuvwxyz"

-- A read of the table of digits; the places that are read are below 36.
unfoldable pub digit_char : List ℕ → ℕ → ℕ
digit_char digits i = elim (get_elem? digits i) [ none ↦ 0 | some c ↦ c ]

-- The rounds of `do_div` that fill `tmp`, the lowest digit first. A number of 64 bits has at most 64
-- digits.
unfoldable pub div_loop : ℕ → List ℕ → ℕ → ℕ → List ℕ
div_loop zero digits base num = []
div_loop (suc fuel) digits base num =
    let rest = div_loop fuel digits base (num / base) in
    if num == 0 then [] else digit_char digits (num % base) ∷ rest

unfoldable pub fill_tmp : List ℕ → ℕ → ℕ → List ℕ
fill_tmp digits base num = if num == 0 then b'0' ∷ [] else div_loop 64 digits base num

-- while (size-- > 0) *str++ = c; with the size afterwards.
unfoldable pub pad : ℕ → ℤ → List ℕ × ℤ
pad c (pos n) = (replicate n c, negsuc 0)
pad c (negsuc n) = ([], negsuc (suc n))

-- The sign, the absolute value and the size that is left.
unfoldable pub take_sign : ℕ → ℕ → ℤ → List ℕ × ℕ × ℤ
take_sign type num size =
    if has_flag type sign_flag
    then (if leb (2 ^ 63) num
        then (b'-' ∷ [], u64 (2 ^ 64 - num), size)
        else if has_flag type plus
        then (b'+' ∷ [], num, size -ℤ pos 1)
        else if has_flag type space
        then (b' ' ∷ [], num, size -ℤ pos 1)
        else ([], num, size))
    else ([], num, size)

unfoldable pub special_size : ℕ → ℕ → ℤ → ℤ
special_size type base size =
    if has_flag type special
    then (if base == 16 then size -ℤ pos 2 else if base == 8 then size -ℤ pos 1 else size)
    else size

unfoldable pub special_prefix : List ℕ → ℕ → ℕ → List ℕ
special_prefix digits type base =
    if has_flag type special
    then (if base == 8
        then b'0' ∷ []
        else if base == 16
        then b'0' ∷ digit_char digits 33 ∷ []
        else [])
    else []

-- What `number` writes once the digits stand in `tmp`.
unfoldable pub layout_number : List ℕ → List ℕ → List ℕ → ℤ → ℤ → ℕ → List ℕ
layout_number sign prefix tmp size precision type =
    let i = length tmp in
    let precision' = if ltb_ℤ precision (pos i) then pos i else precision in
    let size1 = size -ℤ precision' in
    let (before, size2) = if has_flag type (zeropad + left) then ([], size1) else pad b' ' size1 in
    let c = if has_flag type zeropad then b'0' else b' ' in
    let (between, size3) = if has_flag type left then ([], size2) else pad c size2 in
    let zeros = replicate (pos_part (precision' -ℤ pos i)) b'0' in
    before ++ (sign ++ (prefix ++ (between ++ (zeros ++ (reverse tmp ++ (pad b' ' size3).0)))))

-- The flags after `type &= ~ZEROPAD`.
unfoldable pub effective_type : ℕ → ℕ
effective_type type = if has_flag type left then bit_and type (2 ^ 32 - 1 - zeropad) else type

-- `none` is the null pointer.
unfoldable pub number : ℕ → ℕ → ℤ → ℤ → ℕ → Option (List ℕ)
number num base size precision type =
    let digits = if has_flag type small then lower_digits else upper_digits in
    let type' = effective_type type in
    if ltb base 2 || ltb 36 base
    then none
    else (let (sign, num', size1) = take_sign type' num size in
        some (
          layout_number sign (special_prefix digits type' base) (fill_tmp digits base num')
            (special_size type' base size1) precision type'))

hex : number 0xbeef 16 (pos 8) (negsuc 0) (special + zeropad) ≡ some (codes "0X00BEEF")
unfolding number take_sign special_size special_prefix fill_tmp layout_number digit_char div_loop
    pad ◌-ℤ◌ effective_type
hex = refl
