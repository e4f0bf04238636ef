-- ===== src/Printk/Format/Pieces.antt =====
-- The conversions of `myprintf` (benos/lib/printk.c) that the kernel's messages use.
use mathlib.Core.List.{append-nil}
use risc_v_lab.Base.Int.{negsuc, ◌-ℤ◌}
use risc_v_lab.Base.{
  ℕ, suc, ◌%◌, ◌^◌, ◌<◌, Option, some, List, [], ◌∷◌, ◌++◌, length, All, ◌≡◌, ◌≢◌, ap, refl, arith,
}
use risc_v_lab.Printk.{codes, upper_digits, lower_digits, is_digit}
use risc_v_lab.Printk.Digits.{sign_text, magnitude}
use risc_v_lab.Printk.Conversions.{
  Arg, Printing, word, text, peek, skip, put, take_word, sign_extend, flag_of, parse_flags,
  parse_width, parse_precision, parse_qualifier, no_conversion,
}
use risc_v_lab.Printk.Format.{
  char_pad, print_char, text_pad, take, text_of, text_length, place_text, print_text, put_number,
  num_of, print_num, convert, conversion,
}
use risc_v_lab.Printk.Format.Numerals.{numeral, number-signed, number-unsigned, number-hex}

-- A piece of a format with its argument: plain text, %s, %c, %d, %u, %ld and %lx.
pub data Piece : Type 0 where
  plain : List ℕ → Piece
  str : List ℕ → Piece
  chr : ℕ → Piece
  dec : ℕ → Piece
  udec : ℕ → Piece
  long : ℕ → Piece
  hex : ℕ → Piece

-- Plain text has no percent sign, and a number is a register.
unfoldable pub IsPiece : Piece → Type 0
IsPiece (plain s) = All (λ c. c ≢ b'%') s
IsPiece (str s) = Unit {0}
IsPiece (chr c) = Unit {0}
IsPiece (dec w) = w < 2 ^ 64
IsPiece (udec w) = w < 2 ^ 64
IsPiece (long w) = w < 2 ^ 64
IsPiece (hex w) = w < 2 ^ 64

unfoldable pub spec : Piece → List ℕ
spec (plain s) = s
spec (str s) = codes "%s"
spec (chr c) = codes "%c"
spec (dec w) = codes "%d"
spec (udec w) = codes "%u"
spec (long w) = codes "%ld"
spec (hex w) = codes "%lx"

unfoldable pub arg : Piece → List Arg
arg (plain s) = []
arg (str s) = text s ∷ []
arg (chr c) = word c ∷ []
arg (dec w) = word w ∷ []
arg (udec w) = word w ∷ []
arg (long w) = word w ∷ []
arg (hex w) = word w ∷ []

unfoldable pub signed : ℕ → List ℕ
signed v = sign_text v ++ numeral 64 upper_digits 10 (magnitude v)

-- What a piece stands for.
unfoldable pub render : Piece → List ℕ
render (plain s) = s
render (str s) = s
render (chr c) = c % 2 ^ 8 ∷ []
render (dec w) = signed (sign_extend 32 w)
render (udec w) = numeral 64 upper_digits 10 (w % 2 ^ 32)
render (long w) = signed w
render (hex w) = numeral 64 lower_digits 16 w

text_pad-negative : (len n : ℕ) → text_pad len (negsuc n) ≡ ([], negsuc (suc n))
unfolding text_pad ◌-ℤ◌
text_pad-negative len n = ground arith

take_all : (s : List ℕ) → take (length s) s ≡ s
take_all [] = refl
take_all (c ∷ s) = ap (λ (t : List ℕ). c ∷ t) (take_all s)

place-plain : (s : List ℕ) → place_text (no_conversion 0) s ≡ s
unfolding place_text text_length
place-plain s =
    rw (text_pad-negative (length s) 0, text_pad-negative (length s) 1, take_all s) (append-nil s)

module _ (out : List ℕ) (args : List Arg) (base : Option ℕ) (counts : List (ℕ × ℕ)) where
  abbrev at : List Arg → Printing
  at rest = record { out = out; args = rest; base = base; counts = counts }

  abbrev done : List ℕ → Option ℕ → Printing
  done s b = record { out = out ++ s; args = args; base = b; counts = counts }

  pub long-conversion :
      (w : ℕ) (fmt : List ℕ)
      → w < 2 ^ 64
      → conversion (b'l' ∷ b'd' ∷ fmt) (at (word w ∷ args)) ≡ some (fmt, done (signed w) (some 10))
  unfolding conversion parse_flags flag_of parse_width is_digit peek parse_precision skip
      parse_qualifier convert print_num put_number num_of take_word put signed
  long-conversion w fmt fits = rw (number-signed w fits) refl

  pub hex-conversion :
      (w : ℕ) (fmt : List ℕ)
      → w < 2 ^ 64
      → conversion (b'l' ∷ b'x' ∷ fmt) (at (word w ∷ args))
        ≡ some (fmt, done (numeral 64 lower_digits 16 w) (some 16))
  unfolding conversion parse_flags flag_of parse_width is_digit peek parse_precision skip
      parse_qualifier convert print_num put_number num_of take_word put
  hex-conversion w fmt fits = rw (number-hex w fits) refl

  pub udec-conversion :
      (w : ℕ) (fmt : List ℕ)
      → conversion (b'u' ∷ fmt) (at (word w ∷ args))
        ≡ some (fmt, done (numeral 64 upper_digits 10 (w % 2 ^ 32)) (some 10))
  unfolding conversion parse_flags flag_of parse_width is_digit peek parse_precision skip
      parse_qualifier convert print_num put_number num_of take_word put
  udec-conversion w fmt = rw (number-unsigned (w % 2 ^ 32) (omega arith)) refl

  sign_extend_fits : (w : ℕ) → sign_extend 32 w < 2 ^ 64
  unfolding sign_extend
  sign_extend_fits w = ground arith

  pub dec-conversion :
      (w : ℕ) (fmt : List ℕ)
      → conversion (b'd' ∷ fmt) (at (word w ∷ args))
        ≡ some (fmt, done (signed (sign_extend 32 w)) (some 10))
  unfolding conversion parse_flags flag_of parse_width is_digit peek parse_precision skip
      parse_qualifier convert print_num put_number num_of take_word put signed
  dec-conversion w fmt = rw (number-signed (sign_extend 32 w) (sign_extend_fits w)) refl

  pub chr-conversion :
      (c : ℕ) (fmt : List ℕ)
      → conversion (b'c' ∷ fmt) (at (word c ∷ args)) ≡ some (fmt, done (c % 2 ^ 8 ∷ []) base)
  unfolding conversion parse_flags flag_of parse_width is_digit peek parse_precision skip
      parse_qualifier convert print_char char_pad take_word put
  chr-conversion c fmt = refl

  pub str-conversion :
      (s fmt : List ℕ) → conversion (b's' ∷ fmt) (at (text s ∷ args)) ≡ some (fmt, done s base)
  unfolding conversion parse_flags flag_of parse_width is_digit peek parse_precision skip
      parse_qualifier convert print_text text_of place_text text_length put text_pad
  str-conversion s fmt = ap (λ (t : List ℕ). some (fmt, done t base)) (place-plain s)
