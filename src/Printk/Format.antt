-- ===== src/Printk/Format.antt =====
-- `myprintf` of benos/lib/printk.c. The format has no end mark: a read behind its last byte gives 0.
-- The buffer is the list of the bytes written so far, which are not bounded by its size, as in the
-- code. `none` is undefined behaviour: a missing argument or one of the wrong kind, a read of `base`
-- before any conversion has set it, and a width or a text that the model has no value for.
pub mod Fuel
pub mod Numerals
pub mod Pieces
pub mod Messages
pub mod Stale
use risc_v_lab.Base.Int.{ℤ, pos, negsuc, pos_part, ◌-ℤ◌, ltb_ℤ}
use risc_v_lab.Base.{
  ℕ, zero, suc, ◌+◌, ◌-◌, ◌*◌, ◌%◌, ◌^◌, ◌==◌, if◌then◌else◌, Bool, true, false, ltb, ◌||◌, bit_or,
  Option, none, some, ◌>>=◌, List, [], ◌∷◌, ◌++◌, length, replicate, take, ◌≡◌, refl,
}
use risc_v_lab.Printk.{
  codes, zeropad, sign_flag, plus, space, left, special, small, has_flag, is_digit, scan_number,
  number,
}
use risc_v_lab.Printk.Conversions.{
  Arg, Conversion, Printing, at_least_zero, flag_of, no_conversion, parse_flags, parse_precision,
  parse_qualifier, parse_width, peek, put, sign_extend, skip, take_word, text, to_int, width_arg,
  word,
}

-- while (--field_width > 0) *pos++ = ' ';
unfoldable pub char_pad : ℤ → List ℕ × ℤ
char_pad (pos zero) = ([], negsuc 0)
char_pad (pos (suc n)) = (replicate n b' ', pos 0)
char_pad (negsuc n) = ([], negsuc (suc n))

unfoldable pub print_char : Conversion → Printing → Option Printing
print_char cv st =
    let (before, w) =
      if has_flag cv.flags left then ([], cv.field_width) else char_pad cv.field_width in
    do (c, st') ← take_word st; some (put (before ++ (c % 2 ^ 8) ∷ (char_pad w).0) st')

-- while (len < field_width--) *pos++ = ' ';
unfoldable pub text_pad : ℕ → ℤ → List ℕ × ℤ
text_pad len width = (
  replicate (pos_part (width -ℤ pos len)) b' ',
  (if ltb_ℤ (pos len) width then pos len else width) -ℤ pos 1,
)

-- The text of the argument; the null pointer is printed as a word.
unfoldable pub text_of : Arg → Option (List ℕ)
text_of (word zero) = some (codes "<NULL>")
text_of (word (suc n)) = none
text_of (text s) = some s

-- A precision that is not given is -1.
unfoldable pub text_length : ℤ → ℕ → ℕ
text_length (negsuc n) len = len
text_length (pos p) len = if ltb p len then p else len

unfoldable pub place_text : Conversion → List ℕ → List ℕ
place_text cv s =
    let len = text_length cv.precision (length s) in
    let (before, w) =
      if has_flag cv.flags left then ([], cv.field_width) else text_pad len cv.field_width in
    before ++ (take len s ++ (text_pad len w).0)

unfoldable pub print_text : Conversion → Printing → Option Printing
print_text cv st = elim st.args [
  | [] ↦ none
  | a ∷ rest ↦ do s ← text_of a; some (put (place_text cv s) (record st { args = rest }))
]

unfoldable pub store_count : Printing → Option Printing
store_count st = do
  (p, st') ← take_word st
  some (record st' { counts = (p, length st.out) ∷ st.counts })

unfoldable pub put_number : ℕ → ℕ → Conversion → Printing → Option Printing
put_number num base cv st = do
  s ← number num base cv.field_width cv.precision cv.flags
  some (put s st)

-- A width of -1 is 2 * sizeof(void *).
unfoldable pub pointer_width : Conversion → Conversion
pointer_width cv = elim cv.field_width [
  | pos n ↦ cv
  | negsuc n ↦
      if n == 0 then record cv { field_width = pos 16; flags = bit_or cv.flags zeropad } else cv
]

unfoldable pub print_pointer : Conversion → Printing → Option Printing
print_pointer cv st = do (p, st') ← take_word st; put_number p 16 (pointer_width cv) st'

-- The argument as the qualifier and the sign say.
unfoldable pub num_of : Conversion → ℕ → ℕ
num_of cv w =
    let signed = has_flag cv.flags sign_flag in
    elim cv.qualifier [
      | none ↦ if signed then sign_extend 32 w else w % 2 ^ 32
      | some q ↦ if q == b'h' then (if signed then sign_extend 16 w else w % 2 ^ 16) else w
    ]

-- The code behind the switch.
unfoldable pub print_num : Conversion → Printing → Option Printing
print_num cv st = do (w, st') ← take_word st; base ← st'.base; put_number (num_of cv w) base cv st'

abbrev with_flag : ℕ → Conversion → Conversion
with_flag f cv = record cv { flags = bit_or cv.flags f }

abbrev with_base : ℕ → Printing → Printing
with_base b st = record st { base = some b }

-- What `default` prints: it goes on to the code behind the switch.
unfoldable pub default_text : ℕ → List ℕ
default_text c = (if c == b'%' then [] else b'%' ∷ []) ++ (if c == 0 then [] else c ∷ [])

-- switch (*fmt)
unfoldable pub convert : ℕ → Conversion → Printing → Option Printing
convert c cv st =
    if c == b'c'
    then print_char cv st
    else if c == b's'
    then print_text cv st
    else if c == b'n'
    then store_count st
    else if c == b'p'
    then print_pointer cv st
    else if c == b'o'
    then print_num cv (with_base 8 st)
    else if c == b'x'
    then print_num (with_flag small cv) (with_base 16 st)
    else if c == b'X'
    then print_num cv (with_base 16 st)
    else if c == b'd' || c == b'i'
    then print_num (with_flag sign_flag cv) (with_base 10 st)
    else if c == b'u'
    then print_num cv (with_base 10 st)
    else print_num cv (put (default_text c) st)

-- A round of the loop behind a `%`, with the text behind the conversion.
unfoldable pub conversion : List ℕ → Printing → Option (List ℕ × Printing)
conversion fmt st = do
  let (flags, fmt1) = parse_flags 0 fmt
  (cv2, fmt2, st2) ← parse_width (no_conversion flags) fmt1 st
  (cv3, fmt3, st3) ← parse_precision cv2 fmt2 st2
  let (cv4, fmt4) = parse_qualifier cv3 fmt3
  st' ← convert (peek fmt4) cv4 st3
  some (skip fmt4, st')

-- A round of the loop at the byte `c`.
unfoldable pub print_round : ℕ → List ℕ → Printing → Option (List ℕ × Printing)
print_round c fmt st = if c == b'%' then conversion fmt st else some (fmt, put (c ∷ []) st)

unfoldable pub print_loop : ℕ → List ℕ → Printing → Option Printing
print_loop zero fmt st = none
print_loop (suc fuel) [] st = some st
print_loop (suc fuel) (c ∷ fmt) st =
    print_round c fmt st >>= λ (r : List ℕ × Printing). print_loop fuel r.0 r.1

abbrev pub start : List Arg → Printing
start args = record { out = []; args = args; base = none; counts = [] }

-- Every round consumes a byte of the format.
unfoldable pub myprintf : List ℕ → List Arg → Option Printing
myprintf fmt args = print_loop (suc (length fmt)) fmt (start args)
