-- ===== src/Printk/Format/Fuel.antt =====
-- The loop of `myprintf` (benos/lib/printk.c) ends behind the format.
use risc_v_lab.Base.{
  ℕ, zero, suc, ◌+◌, ◌*◌, ◌-◌, ◌≤◌, bit_or, ◌<◌, ◌==◌, Option, none, some, ◌>>=◌, List, [], ◌∷◌,
  length, ◌≡◌, ap, refl, arith, Bool-cases, Option-cases, inl, inr,
}
use risc_v_lab.Printk.{scan_digits, scan_number}
use risc_v_lab.Printk.Conversions.{
  Printing, Conversion, peek, skip, put, flag_of, parse_flags, parse_width, parse_precision,
  parse_qualifier, no_conversion,
}
use risc_v_lab.Printk.Format.{convert, conversion, print_round, print_loop}

length-skip : (s : List ℕ) → length (skip s) ≤ length s
unfolding skip
length-skip [] = omega arith
length-skip (c ∷ s) = omega arith

scan_digits-le : (n : ℕ) (s : List ℕ) → length (scan_digits n s).1 ≤ length s
unfolding scan_digits
scan_digits-le n [] = omega arith
scan_digits-le n (c ∷ s) = ground (arith, scan_digits-le (n * 10 + (c - b'0')) s)

scan_number-le : (s : List ℕ) → length (scan_number s).1 ≤ length s
unfolding scan_number
scan_number-le s = scan_digits-le 0 s

parse_flags-le : (f : ℕ) (s : List ℕ) → length (parse_flags f s).1 ≤ length s
unfolding parse_flags
parse_flags-le f [] = omega arith
parse_flags-le f (c ∷ s) = elim (Option-cases (flag_of c)) [
  | inl e ↦ rw (e, parse_flags) (omega arith)
  | inr (g, e) ↦ rw (e, parse_flags) (omega (arith, parse_flags-le (bit_or f g) s))
]

>>=-some {ℓ κ} :
    {A : Type ℓ} {B : Type κ} (m : Option A) (f : A → Option B) (b : B)
    → (m >>= f) ≡ some b
    → (a : A) × (m ≡ some a) × (f a ≡ some b)
>>=-some none f b h = cc
>>=-some (some a) f b h = (a, refl, h)

parse_width-le :
    (cv : Conversion) (fmt : List ℕ) (st : Printing) (r : Conversion × List ℕ × Printing)
    → parse_width cv fmt st ≡ some r
    → length r.1 ≤ length fmt
unfolding parse_width
parse_width-le cv fmt st r h = ground (arith, scan_number-le fmt)

parse_precision-le :
    (cv : Conversion) (fmt : List ℕ) (st : Printing) (r : Conversion × List ℕ × Printing)
    → parse_precision cv fmt st ≡ some r
    → length r.1 ≤ length fmt
unfolding parse_precision
parse_precision-le cv fmt st r h = ground (arith, scan_number-le (skip fmt), length-skip fmt)

parse_qualifier-le :
    (cv : Conversion) (fmt : List ℕ) → length (parse_qualifier cv fmt).1 ≤ length fmt
unfolding parse_qualifier
parse_qualifier-le cv fmt = ground (arith, length-skip fmt, length-skip (skip fmt))

conversion-le :
    (fmt : List ℕ) (st : Printing) (r : List ℕ × Printing)
    → conversion fmt st ≡ some r
    → length r.0 ≤ length fmt
unfolding conversion
conversion-le fmt st r h =
    let (w, e1, h1) =
      >>=-some (parse_width (no_conversion (parse_flags 0 fmt).0) (parse_flags 0 fmt).1 st) _ r h in
    let (p, e2, h2) = >>=-some (parse_precision w.0 w.1 w.2) _ r h1 in
    let q = parse_qualifier p.0 p.1 in
    let (st', e3, h3) = >>=-some (convert (peek q.1) q.0 p.2) _ r h2 in
    let same : skip q.1 ≡ r.0 = cc in
    omega (
      arith,
      ap length same,
      length-skip q.1,
      parse_qualifier-le p.0 p.1,
      parse_precision-le w.0 w.1 w.2 p e2,
      parse_width-le (no_conversion (parse_flags 0 fmt).0) (parse_flags 0 fmt).1 st w e1,
      parse_flags-le 0 fmt,
    )

print_round-le :
    (c : ℕ) (fmt : List ℕ) (st : Printing) (r : List ℕ × Printing)
    → print_round c fmt st ≡ some r
    → length r.0 ≤ length fmt
unfolding print_round
print_round-le c fmt st r h = elim (Bool-cases (c == b'%')) [
  | inl e ↦ conversion-le fmt st r (rw e at h)
  | inr ne ↦
      let same : (fmt, put (c ∷ []) st) ≡ r = ground arith in
      omega (arith, ap (λ (t : List ℕ × Printing). length t.0) same)
]

-- One round for each byte of the format and one more are enough for the loop of `myprintf`: it has
-- the same result with any larger number of rounds, so that `none` is never for a lack of them.
pub print_loop-enough :
    (f g : ℕ) (fmt : List ℕ) (st : Printing)
    → length fmt < f
    → length fmt < g
    → print_loop f fmt st ≡ print_loop g fmt st
unfolding print_loop
print_loop-enough zero g fmt st p q = absurd (omega arith)
print_loop-enough (suc f) zero fmt st p q = absurd (omega arith)
print_loop-enough (suc f) (suc g) [] st p q = refl
print_loop-enough (suc f) (suc g) (c ∷ fmt) st p q = elim (Option-cases (print_round c fmt st)) [
  | inl e ↦ rw e refl
  | inr (r, e) ↦
      let le = print_round-le c fmt st r e in
      rw e (print_loop-enough f g r.0 r.1 (omega arith) (omega arith))
]
