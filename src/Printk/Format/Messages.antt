-- ===== src/Printk/Format/Messages.antt =====
-- Formats that are made of pieces, as the kernel's messages are, through `myprintf` of
-- benos/lib/printk.c.
use mathlib.Core.List.{append_assoc, append-nil}
use risc_v_lab.Base.{
  ℕ, zero, suc, ◌<◌, ◌==◌, false, Option, none, some, List, [], ◌∷◌, ◌++◌, length, length-append,
  All, ◌≡◌, ◌≢◌, ◌∙◌, ap, sym, arith,
}
use risc_v_lab.Printk.{codes}
use risc_v_lab.Printk.Conversions.{Arg, Printing, word, text, put}
use risc_v_lab.Printk.Format.{conversion, print_round, print_loop, myprintf}
use risc_v_lab.Printk.Format.Pieces.{
  Piece, plain, str, chr, dec, udec, long, hex, IsPiece, spec, arg, render, str-conversion,
  chr-conversion, dec-conversion, udec-conversion, long-conversion, hex-conversion,
}

-- What is left of the format and of the arguments for the pieces `ps`.
unfoldable pub format_of : List Piece → List ℕ
format_of [] = []
format_of (p ∷ ps) = spec p ++ format_of ps

unfoldable pub args_of : List Piece → List Arg
args_of [] = []
args_of (p ∷ ps) = arg p ++ args_of ps

unfoldable pub render_all : List Piece → List ℕ
render_all [] = []
render_all (p ∷ ps) = render p ++ render_all ps

abbrev wrote : Option ℕ → List (ℕ × ℕ) → List ℕ → Option Printing
wrote b counts out = some (record { out = out; args = []; base = b; counts = counts })

-- The loop on the format writes `s`, whatever stands before.
abbrev Writes : List ℕ → List Arg → List ℕ → Type 0
Writes fmt args s =
    (fuel : ℕ) (out : List ℕ) (base : Option ℕ) (counts : List (ℕ × ℕ))
    → length fmt < fuel
    → (b : Option ℕ) × (print_loop fuel fmt
          (record { out = out; args = args; base = base; counts = counts })
        ≡ some (record { out = out ++ s; args = []; base = b; counts = counts }))

Writes-plain :
    (t fmt : List ℕ) (args : List Arg) (s : List ℕ)
    → All (λ c. c ≢ b'%') t
    → Writes fmt args s
    → Writes (t ++ fmt) args (t ++ s)
unfolding print_loop print_round put
Writes-plain [] fmt args s ok rest fuel out base counts h = rest fuel out base counts h
Writes-plain (c ∷ t) fmt args s ok rest zero out base counts h = absurd (omega arith)
Writes-plain (c ∷ t) fmt args s ok rest (suc fuel) out base counts h =
    let ne : (c == b'%') ≡ false = ground (arith, ok.0) in
    let (b, runs) =
      Writes-plain t fmt args s ok.1 rest fuel (out ++ c ∷ []) base counts (omega arith) in
    (b, rw ne runs ∙ ap (wrote b counts) (append_assoc out (c ∷ []) (t ++ s)))

-- A conversion of two or three bytes that takes one argument.
Writes-conversion :
    (conv fmt : List ℕ) (a : Arg) (args : List Arg) (t s : List ℕ)
    → ((out : List ℕ) (base : Option ℕ) (counts : List (ℕ × ℕ))
        → (b : Option ℕ) × (conversion
              (conv ++ fmt)
              (record { out = out; args = a ∷ args; base = base; counts = counts })
            ≡ some (fmt, record { out = out ++ t; args = args; base = b; counts = counts })))
    → Writes fmt args s
    → Writes (b'%' ∷ conv ++ fmt) (a ∷ args) (t ++ s)
unfolding print_loop print_round
Writes-conversion conv fmt a args t s runs rest zero out base counts h = absurd (omega arith)
Writes-conversion conv fmt a args t s runs rest (suc fuel) out base counts h =
    let (b, first) = runs out base counts in
    let (b', others) = rest fuel (out ++ t) b counts (omega (arith, length-append conv fmt)) in
    (b', rw first others ∙ ap (wrote b' counts) (append_assoc out t s))

Writes-nil : Writes [] [] []
unfolding print_loop
Writes-nil zero out base counts h = absurd (omega arith)
Writes-nil (suc fuel) out base counts h = (base, ap (wrote base counts) (sym (append-nil out)))

Writes-render_all :
    (ps : List Piece) → All IsPiece ps → Writes (format_of ps) (args_of ps) (render_all ps)
unfolding format_of args_of render_all IsPiece spec arg render
Writes-render_all [] ok = Writes-nil
Writes-render_all (plain s ∷ ps) ok =
    Writes-plain s (format_of ps) (args_of ps) (render_all ps) ok.0 (Writes-render_all ps ok.1)
Writes-render_all (str s ∷ ps) ok =
    Writes-conversion (codes "s") (format_of ps) (text s) (args_of ps) s (render_all ps)
      (λ out base counts. (base, str-conversion out (args_of ps) base counts s (format_of ps)))
      (Writes-render_all ps ok.1)
Writes-render_all (chr c ∷ ps) ok =
    Writes-conversion (codes "c") (format_of ps) (word c) (args_of ps) (render (chr c))
      (render_all ps)
      (λ out base counts. (base, chr-conversion out (args_of ps) base counts c (format_of ps)))
      (Writes-render_all ps ok.1)
Writes-render_all (dec w ∷ ps) ok =
    Writes-conversion (codes "d") (format_of ps) (word w) (args_of ps) (render (dec w))
      (render_all ps)
      (λ out base counts. (some 10, dec-conversion out (args_of ps) base counts w (format_of ps)))
      (Writes-render_all ps ok.1)
Writes-render_all (udec w ∷ ps) ok =
    Writes-conversion (codes "u") (format_of ps) (word w) (args_of ps) (render (udec w))
      (render_all ps)
      (λ out base counts. (some 10, udec-conversion out (args_of ps) base counts w (format_of ps)))
      (Writes-render_all ps ok.1)
Writes-render_all (long w ∷ ps) ok =
    Writes-conversion (codes "ld") (format_of ps) (word w) (args_of ps) (render (long w))
      (render_all ps)
      (λ out base counts.
        (some 10, long-conversion out (args_of ps) base counts w (format_of ps) ok.0))
      (Writes-render_all ps ok.1)
Writes-render_all (hex w ∷ ps) ok =
    Writes-conversion (codes "lx") (format_of ps) (word w) (args_of ps) (render (hex w))
      (render_all ps)
      (λ out base counts.
        (some 16, hex-conversion out (args_of ps) base counts w (format_of ps) ok.0))
      (Writes-render_all ps ok.1)

-- For pieces that are texts without a percent sign, %s, %c, %d, %u, %ld and %lx, `myprintf` of their
-- formats in a row, with their arguments in a row, writes what each stands for, in this order: the
-- text itself, the argument's text, its byte, and its numeral in decimal with a minus sign where it
-- is negative or in lower case hexadecimal digits, without leading zeros. It uses up the arguments
-- and stores no count.
pub myprintf-render_all :
    (ps : List Piece)
    → All IsPiece ps
    → (b : Option ℕ) × (myprintf (format_of ps) (args_of ps)
        ≡ some (record { out = render_all ps; args = []; base = b; counts = [] }))
unfolding myprintf
myprintf-render_all ps ok =
    Writes-render_all ps ok (suc (length (format_of ps))) [] none [] (omega arith)
