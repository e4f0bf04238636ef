-- ===== src/Tests/Printk.antt =====
-- benos/lib/printk.c on concrete numbers, formats and messages.
use risc_v_lab.Base.Int.{pos, negsuc, ◌-ℤ◌}
use risc_v_lab.Base.{
  ℕ, ◌+◌, ◌^◌, ◌-◌, ◌≡◌, ◌≢◌, refl, some, ◌>>=◌, false, List, [], ◌∷◌, ◌++◌, length, get_elem?, All,
  arith, if◌then◌else◌, Option,
}
use Prim.Native.Nat.{max}
use risc_v_lab.Printk.{
  codes, zeropad, sign_flag, is_digit, scan_number, scan_digits, number, take_sign, special_size,
  special_prefix, fill_tmp, layout_number, digit_char, div_loop, pad, effective_type,
}
use risc_v_lab.Printk.Digits.{magnitude, sign_text, number-scan_number}
use risc_v_lab.Printk.Width.{is_negative, digit_count, sign_of, number_width}
use mathlib.Core.Option
use risc_v_lab.Printk.Conversions.{
  word, text, Printing, parse_flags, flag_of, parse_width, peek, parse_precision, skip,
  parse_qualifier, take_word, put, sign_extend,
}
use risc_v_lab.Printk.Format.{
  start, print_loop, myprintf, print_round, conversion, convert, print_num, print_char, print_text,
  put_number, num_of, char_pad, text_of, place_text, text_length, text_pad,
}
use risc_v_lab.Printk.Format.Fuel.{print_loop-enough}
use risc_v_lab.Printk.Format.Pieces.{Piece, plain, dec, hex, IsPiece, spec, arg, render}
use risc_v_lab.Printk.Format.Messages.{format_of, args_of, render_all, myprintf-render_all}
use risc_v_lab.Printk.Format.Stale.{conversion-percent}
use risc_v_lab.Printk.Console.{Console, printks, init_printk_done}
use risc_v_lab.Printk.Console.Early.{Prints, render_all-Prints, booted, printks-three}

no_digit : is_digit b' ' ≡ false
unfolding is_digit
no_digit = refl

number-scan_number_example :
    (t : List ℕ) × (number (2 ^ 64 - 42) 10 (pos 6) (negsuc 0) (zeropad + sign_flag)
      ≡ some (sign_text (2 ^ 64 - 42) ++ t))
    × (scan_number (t ++ codes " ok") ≡ (magnitude (2 ^ 64 - 42), codes " ok"))
number-scan_number_example =
    number-scan_number (2 ^ 64 - 42) (pos 6) (negsuc 0) (codes " ok") (omega arith) (omega arith)
      no_digit

number_width_example :
    (s : List ℕ) × (number (2 ^ 64 - 42) 10 (pos 6) (negsuc 0) sign_flag ≡ some s)
    × (length s ≡ (
        if is_negative sign_flag (2 ^ 64 - 42)
        then 1 + max 6 (digit_count sign_flag (2 ^ 64 - 42) (negsuc 0))
        else max 6 (
            length (sign_of sign_flag (2 ^ 64 - 42))
            + digit_count sign_flag (2 ^ 64 - 42) (negsuc 0))))
number_width_example = number_width (2 ^ 64 - 42) 6 (negsuc 0) sign_flag

abbrev a_format : List ℕ
a_format = codes "n=%d"

print_loop-enough_example :
    print_loop 5 a_format (start (word 7 ∷ [])) ≡ print_loop 9 a_format (start (word 7 ∷ []))
print_loop-enough_example =
    print_loop-enough 5 9 a_format (start (word 7 ∷ [])) (omega arith) (omega arith)

abbrev message : List Piece
message = plain (codes "pid ") ∷ dec (2 ^ 32 - 5) ∷ plain (codes " at 0x") ∷ hex 0x80200000 ∷ []

message-IsPiece : All IsPiece message
unfolding IsPiece
message-IsPiece = omega arith

myprintf-render_all_example :
    (b : Option ℕ) × (myprintf (format_of message) (args_of message)
      ≡ some (record { out = render_all message; args = []; base = b; counts = [] }))
myprintf-render_all_example = myprintf-render_all message message-IsPiece

conversion-percent_example :
    (conversion
        (b'%' ∷ codes " done")
        (record { out = codes "7"; args = word 3 ∷ []; base = some 10; counts = [] })
      ≡ conversion (b'u' ∷ codes " done") (record {
        out = codes "7" ++ b'%' ∷ [];
        args = word 3 ∷ [];
        base = some 10;
        counts = [];
      }))
    × (conversion
          (b'%' ∷ codes " done")
          (record { out = codes "7"; args = word 3 ∷ []; base = some 8; counts = [] })
        ≡ conversion (b'o' ∷ codes " done") (record {
          out = codes "7" ++ b'%' ∷ [];
          args = word 3 ∷ [];
          base = some 8;
          counts = [];
        }))
    × (conversion
          (b'%' ∷ codes " done")
          (record { out = codes "7"; args = word 3 ∷ []; base = some 16; counts = [] })
        ≡ conversion (b'X' ∷ codes " done") (record {
          out = codes "7" ++ b'%' ∷ [];
          args = word 3 ∷ [];
          base = some 16;
          counts = [];
        }))
conversion-percent_example = conversion-percent (codes " done") (codes "7") (word 3 ∷ []) []

plain-Prints : (c : ℕ) → c ≢ b'%' → Prints (c ∷ [], []) (c ∷ [])
unfolding format_of args_of render_all spec arg render IsPiece
plain-Prints c ne = render_all-Prints (plain (c ∷ []) ∷ []) ((ne, tt), tt) (omega arith)

printks-three_example :
    (c : Console) × ((printks
          ((codes "a", []) ∷ (codes "b", []) ∷ (codes "c", []) ∷ [])
          (booted (0 ∷ 0 ∷ 0 ∷ []) [])
        >>= init_printk_done)
      ≡ some c)
    × (get_elem? c.shown 1 ≡ some b'c')
printks-three_example =
    printks-three (codes "a", []) (codes "b", []) (codes "c", []) (0 ∷ 0 ∷ 0 ∷ []) (codes "a")
      (codes "b") [] b'c' (plain-Prints b'a' (ground arith)) (plain-Prints b'b' (ground arith))
      (plain-Prints b'c' (ground arith)) (omega arith) (omega arith)

-- Widths on both sides, a prefix, a precision and a byte.
mixed :
    Option.map
      (λ (p : Printing). p.out)
      (myprintf
        (codes "[%-4d][%#06x][%.3s][%4c]%i")
        (word 42 ∷ word 255 ∷ text (codes "kernel") ∷ word b'!' ∷ word (2 ^ 32 - 1) ∷ []))
    ≡ some (codes "[42  ][0x00ff][ker][   !]-1")
unfolding myprintf print_loop print_round conversion parse_flags flag_of parse_width is_digit peek
    parse_precision skip parse_qualifier convert print_num print_char print_text put_number num_of
    take_word put char_pad text_of place_text text_length text_pad number take_sign special_size
    special_prefix fill_tmp layout_number digit_char div_loop pad ◌-ℤ◌ effective_type scan_number
    scan_digits sign_extend
mixed = refl
