-- ===== src/Printk/Format/Stale.antt =====
-- What `myprintf` (benos/lib/printk.c) does behind the `default` of its switch.
use risc_v_lab.Base.{ℕ, some, List, [], ◌∷◌, ◌++◌, ◌≡◌, refl}
use risc_v_lab.Printk.{is_digit}
use risc_v_lab.Printk.Conversions.{
  Arg, word, text, peek, skip, put, take_word, flag_of, parse_flags, parse_width, parse_precision,
  parse_qualifier,
}
use risc_v_lab.Printk.Format.{print_num, default_text, convert, conversion}

-- The conversion `%%` prints a percent sign and then takes an argument and prints it, in the base of
-- the conversion before it: behind one in base 10 it is a percent sign and `%u`, behind one in base
-- 8 `%o`, and behind one in base 16 `%X`, whatever the output, the arguments and the rest of the
-- format are.
pub conversion-percent :
    (rest out : List ℕ) (args : List Arg) (counts : List (ℕ × ℕ))
    → (conversion (b'%' ∷ rest) (record { out = out; args = args; base = some 10; counts = counts })
        ≡ conversion
            (b'u' ∷ rest)
            (record { out = out ++ b'%' ∷ []; args = args; base = some 10; counts = counts }))
      × (conversion
            (b'%' ∷ rest)
            (record { out = out; args = args; base = some 8; counts = counts })
          ≡ conversion
              (b'o' ∷ rest)
              (record { out = out ++ b'%' ∷ []; args = args; base = some 8; counts = counts }))
      × (conversion
            (b'%' ∷ rest)
            (record { out = out; args = args; base = some 16; counts = counts })
          ≡ conversion
              (b'X' ∷ rest)
              (record { out = out ++ b'%' ∷ []; args = args; base = some 16; counts = counts }))
unfolding conversion parse_flags flag_of parse_width is_digit peek parse_precision skip
    parse_qualifier convert print_num take_word put default_text
conversion-percent rest out [] counts = (refl, refl, refl)
conversion-percent rest out (word w ∷ args) counts = (refl, refl, refl)
conversion-percent rest out (text t ∷ args) counts = (refl, refl, refl)
