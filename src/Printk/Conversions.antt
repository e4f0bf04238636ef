-- ===== src/Printk/Conversions.antt =====
-- The arguments of `myprintf` (benos/lib/printk.c), the state of its loop, and how it parses a
-- conversion: flags, width, precision and qualifier. `none` is a missing argument, or one of the
-- wrong kind.
use risc_v_lab.Base.Int.{ℤ, pos, negsuc}
use risc_v_lab.Base.{
  ℕ, suc, ◌+◌, ◌-◌, ◌%◌, ◌^◌, ◌==◌, if◌then◌else◌, ltb, ◌||◌, bit_or, Option, none, some, ◌>>=◌,
  List, [], ◌∷◌, ◌++◌,
}
use risc_v_lab.Printk.{zeropad, plus, space, left, special, is_digit, scan_number}

-- An argument behind `...`: a register of 64 bits, or the address of a text.
pub data Arg : Type 0 where
  word : ℕ → Arg
  text : List ℕ → Arg

-- The state of the loop: what stands between `string` and `pos`, the arguments that are left, the
-- variable `base`, and the counts that `%n` has stored, each with its address.
pub record Printing : Type 0 where
  pub out : List ℕ
  pub args : List Arg
  pub base : Option ℕ
  pub counts : List (ℕ × ℕ)

-- *fmt and ++fmt
unfoldable pub peek : List ℕ → ℕ
peek [] = 0
peek (c ∷ s) = c

unfoldable pub skip : List ℕ → List ℕ
skip [] = []
skip (c ∷ s) = s

unfoldable pub put : List ℕ → Printing → Printing
put s st = record st { out = st.out ++ s }

-- va_arg of a number
unfoldable pub take_word : Printing → Option (ℕ × Printing)
take_word st = elim st.args [
  | [] ↦ none
  | a ∷ rest ↦ elim a [ word w ↦ some (w, record st { args = rest }) | text s ↦ none ]
]

-- The low `w` bits as a signed number, in 64 bits.
unfoldable pub sign_extend : ℕ → ℕ → ℕ
sign_extend w x = let v = x % 2 ^ w in if ltb v (2 ^ (w - 1)) then v else 2 ^ 64 - 2 ^ w + v

unfoldable pub to_int : ℕ → ℤ
to_int x = let v = x % 2 ^ 32 in if ltb v (2 ^ 31) then pos v else negsuc (2 ^ 32 - 1 - v)

unfoldable pub flag_of : ℕ → Option ℕ
flag_of c =
    if c == b'-'
    then some left
    else if c == b'+'
    then some plus
    else if c == b' '
    then some space
    else if c == b'#'
    then some special
    else if c == b'0'
    then some zeropad
    else none

-- The loop at the label `repeat`.
unfoldable pub parse_flags : ℕ → List ℕ → ℕ × List ℕ
parse_flags flags [] = (flags, [])
parse_flags flags (c ∷ s) = elim (flag_of c) [
  | none ↦ (flags, c ∷ s)
  | some f ↦ parse_flags (bit_or flags f) s
]

-- A conversion as it is parsed. No qualifier is -1 in the code.
pub record Conversion : Type 0 where
  pub flags : ℕ
  pub field_width : ℤ
  pub precision : ℤ
  pub qualifier : Option ℕ

-- A width that is an argument; the `*` is not skipped.
unfoldable pub width_arg : Conversion → ℤ → Conversion
width_arg cv (pos n) = record cv { field_width = pos n }
width_arg cv (negsuc n) = record cv { field_width = pos (suc n); flags = bit_or cv.flags left }

unfoldable pub parse_width :
    Conversion → List ℕ → Printing → Option (Conversion × List ℕ × Printing)
parse_width cv fmt st =
    if is_digit (peek fmt)
    then (let (n, rest) = scan_number fmt in some (record cv { field_width = pos n }, rest, st))
    else if peek fmt == b'*'
    then (do (w, st') ← take_word st; some (width_arg cv (to_int w), fmt, st'))
    else some (cv, fmt, st)

unfoldable pub at_least_zero : ℤ → ℤ
at_least_zero (pos n) = pos n
at_least_zero (negsuc n) = pos 0

unfoldable pub parse_precision :
    Conversion → List ℕ → Printing → Option (Conversion × List ℕ × Printing)
parse_precision cv fmt st =
    let fmt1 = skip fmt in
    if peek fmt == b'.'
    then (if is_digit (peek fmt1)
        then (let (n, rest) = scan_number fmt1 in some (record cv { precision = pos n }, rest, st))
        else if peek fmt1 == b'*'
        then (do
          (w, st') ← take_word st
          some (record cv { precision = at_least_zero (to_int w) }, fmt1, st'))
        else some (record cv { precision = pos 0 }, fmt1, st))
    else some (cv, fmt, st)

unfoldable pub parse_qualifier : Conversion → List ℕ → Conversion × List ℕ
parse_qualifier cv fmt =
    let c = peek fmt in
    let fmt1 = skip fmt in
    if c == b'h' || c == b'l' || c == b'L'
    then (if c == b'l'
        then (if peek fmt1 == b'l'
            then (record cv { qualifier = some b'L' }, skip fmt1)
            else (record cv { qualifier = some c }, fmt1))
        else (record cv { qualifier = some c }, fmt1))
    else (cv, fmt)

abbrev pub no_conversion : ℕ → Conversion
no_conversion flags = record {
  flags = flags;
  field_width = negsuc 0;
  precision = negsuc 0;
  qualifier = none;
}
