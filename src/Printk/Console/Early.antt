-- ===== src/Printk/Console/Early.antt =====
-- The messages of `printk` (benos/lib/printk.c) before and after the console is ready.
use mathlib.Core.List.{append_assoc, append-nil}
use risc_v_lab.Base.{
  ℕ, suc, ◌+◌, ◌≤◌, ◌<◌, if◌then◌else◌, Bool, true, false, ltb, leb, some, ◌>>=◌, List, [], ◌∷◌,
  ◌++◌, All, length, set, take, get_elem?, length-set, take-set, get_elem?-take, get_elem?-set_self,
  get_elem?-set_ne, ◌≡◌, ◌∙◌, ap, sym, refl, arith, lt→ltb,
}
use risc_v_lab.Printk.Conversions.{Arg, Printing}
use risc_v_lab.Printk.Format.{myprintf}
use risc_v_lab.Printk.Format.Pieces.{Piece, IsPiece}
use risc_v_lab.Printk.Format.Messages.{format_of, args_of, render_all, myprintf-render_all}
use risc_v_lab.Printk.Console.{
  Console, console_print_buffer_size, memcpy, record_text, show_loop, print_or_record, printk,
  init_printk_done, printks,
}

length-memcpy : (buf : List ℕ) (dest : ℕ) (src : List ℕ) → length (memcpy buf dest src) ≡ length buf
unfolding memcpy
length-memcpy buf dest [] = refl
length-memcpy buf dest (c ∷ src) =
    length-memcpy (set buf dest c) (suc dest) src ∙ length-set buf dest c

take-memcpy :
    (buf : List ℕ) (dest : ℕ) (src : List ℕ)
    → dest + length src ≤ length buf
    → take (dest + length src) (memcpy buf dest src) ≡ take dest buf ++ src
unfolding memcpy
take-memcpy buf dest [] h =
    ap (λ (n : ℕ). take n buf) (let e : dest + 0 ≡ dest = omega arith in e)
    ∙ sym (append-nil (take dest buf))
take-memcpy buf dest (c ∷ src) h =
    ap (λ (n : ℕ). take n (memcpy (set buf dest c) (suc dest) src))
      (let e : dest + suc (length src) ≡ suc dest + length src = omega arith in e)
    ∙ take-memcpy (set buf dest c) (suc dest) src (omega (arith, length-set buf dest c))
    ∙ ap (λ (l : List ℕ). l ++ src) (take-set buf dest c (omega arith))
    ∙ append_assoc (take dest buf) (c ∷ []) src

get_elem?-memcpy_below :
    (buf : List ℕ) (dest i : ℕ) (src : List ℕ)
    → i < dest
    → get_elem? (memcpy buf dest src) i ≡ get_elem? buf i
unfolding memcpy
get_elem?-memcpy_below buf dest i [] h = refl
get_elem?-memcpy_below buf dest i (c ∷ src) h =
    get_elem?-memcpy_below (set buf dest c) (suc dest) i src (omega arith)
    ∙ get_elem?-set_ne buf dest i c (λ e. omega arith)

get_elem?-memcpy_first :
    (buf : List ℕ) (dest c : ℕ) (src : List ℕ)
    → dest < length buf
    → get_elem? (memcpy buf dest (c ∷ src)) dest ≡ some c
unfolding memcpy
get_elem?-memcpy_first buf dest c src h =
    get_elem?-memcpy_below (set buf dest c) (suc dest) dest src (omega arith)
    ∙ get_elem?-set_self buf dest c h

show_loop-append :
    (i : ℕ) (text shown : List ℕ)
    → i + length text ≤ console_print_buffer_size
    → show_loop i text shown ≡ shown ++ text
unfolding show_loop
show_loop-append i [] shown h = sym (append-nil shown)
show_loop-append i (c ∷ text) shown h =
    let inside : ltb console_print_buffer_size i ≡ false = ground arith in
    rw inside (
      show_loop-append (suc i) text (shown ++ c ∷ []) (omega arith)
      ∙ append_assoc shown (c ∷ []) text)

-- A call of `printk` that has a text, and the text.
pub record Prints (call : List ℕ × List Arg) (text : List ℕ) : Type 0 where
  pub printing : Printing
  pub runs : myprintf call.0 call.1 ≡ some printing
  pub writes : printing.out ≡ text
  pub fits : length text < console_print_buffer_size

-- A message of pieces prints what they stand for.
pub render_all-Prints :
    (ps : List Piece)
    → All IsPiece ps
    → length (render_all ps) < console_print_buffer_size
    → Prints (format_of ps, args_of ps) (render_all ps)
render_all-Prints ps ok fits =
    let (b, runs) = myprintf-render_all ps ok in
    record {
      printing = record { out = render_all ps; args = []; base = b; counts = [] };
      runs = runs;
      writes = refl;
      fits = fits;
    }

printk-Prints :
    (call : List ℕ × List Arg) (text : List ℕ) (c : Console)
    → Prints call text
    → printk call.0 call.1 c ≡ print_or_record text c
unfolding printk
printk-Prints call text c p =
    let short : ltb (length p.printing.out) console_print_buffer_size ≡ true =
      ap (λ (l : List ℕ). ltb (length l) console_print_buffer_size) p.writes ∙ lt→ltb _ _ p.fits in
    rw p.runs (rw short (ap (λ (l : List ℕ). print_or_record l c) p.writes))

-- Once the console is ready, a call of `printk` with a text gives this text to the console.
pub printk-ready :
    (call : List ℕ × List Arg) (text : List ℕ) (c : Console)
    → c.ready ≡ true
    → Prints call text
    → printk call.0 call.1 c ≡ some (record c { shown = c.shown ++ text })
unfolding print_or_record
printk-ready call text c ready p =
    printk-Prints call text c p
    ∙ ap
        (λ (b : Bool).
          if b then some (record c { shown = show_loop 0 text c.shown }) else record_text text c)
        ready
    ∙ ap (λ (l : List ℕ). some (record c { shown = l }))
        (show_loop-append 0 text c.shown (omega (arith, p.fits)))

-- The static variables before the first message.
abbrev pub booted : List ℕ → List ℕ → Console
booted buf shown = record {
  ready = false;
  log_buf = buf;
  g_record = 0;
  g_record_len = 0;
  shown = shown;
}

-- A message that is kept.
abbrev kept : List ℕ → Console → Console
kept text c = record c {
  log_buf = memcpy c.log_buf c.g_record text;
  g_record = length text;
  g_record_len = c.g_record_len + length text;
}

abbrev started : Console → Console
started c = record c {
  ready = true;
  shown = c.shown ++ take c.g_record_len c.log_buf;
  g_record = 0;
  g_record_len = 0;
}

printk-kept :
    (call : List ℕ × List Arg) (text : List ℕ) (c : Console)
    → c.ready ≡ false
    → Prints call text
    → c.g_record + length text ≤ length c.log_buf
    → printk call.0 call.1 c ≡ some (kept text c)
unfolding print_or_record record_text
printk-kept call text c down p room =
    let inside : leb (c.g_record + length text) (length c.log_buf) ≡ true = ground arith in
    printk-Prints call text c p
    ∙ ap
        (λ (b : Bool).
          if b then some (record c { shown = show_loop 0 text c.shown }) else record_text text c)
        down
    ∙ rw inside refl

init-started :
    (c : Console) → c.g_record_len ≤ length c.log_buf → init_printk_done c ≡ some (started c)
unfolding init_printk_done
init-started c room =
    let inside : leb c.g_record_len (length c.log_buf) ≡ true = ground arith in rw inside refl

module _ (buf shown t1 t2 t3 : List ℕ) where
  abbrev after_one : Console
  after_one = kept t1 (booted buf shown)

  abbrev after_two : Console
  after_two = kept t2 after_one

  abbrev after_three : Console
  after_three = kept t3 after_two

  two_shown :
      length t1 + length t2 ≤ length buf → take after_two.g_record_len after_two.log_buf ≡ t1 ++ t2
  two_shown room =
      let none_before : 0 + length t1 ≡ length t1 = omega arith in
      ap (λ (n : ℕ). take (n + length t2) after_two.log_buf) none_before
      ∙ take-memcpy (memcpy buf 0 t1) (length t1) t2 (omega (arith, length-memcpy buf 0 t1))
      ∙ ap (λ (n : ℕ). take n (memcpy buf 0 t1) ++ t2) (sym none_before)
      ∙ ap (λ (l : List ℕ). l ++ t2) (take-memcpy buf 0 t1 (omega arith))

  three_shown :
      (x : ℕ) (t : List ℕ)
      → t3 ≡ x ∷ t
      → 0 < length t1
      → length t2 < length buf
      → get_elem? (take after_three.g_record_len after_three.log_buf) (length t2) ≡ some x
  three_shown x t e pos1 room =
      get_elem?-take after_three.log_buf after_three.g_record_len (length t2) (omega arith)
      ∙ ap (λ (l : List ℕ). get_elem? (memcpy after_two.log_buf (length t2) l) (length t2)) e
      ∙ get_elem?-memcpy_first after_two.log_buf (length t2) x t
          (omega (arith, length-memcpy buf 0 t1, length-memcpy (memcpy buf 0 t1) (length t1) t2))

-- Two messages before the console is ready, that fit the buffer together: when it gets ready it
-- shows the first and then the second.
pub printks-two :
    (m1 m2 : List ℕ × List Arg) (buf shown t1 t2 : List ℕ)
    → Prints m1 t1
    → Prints m2 t2
    → length t1 + length t2 ≤ length buf
    → (c : Console) × ((printks (m1 ∷ m2 ∷ []) (booted buf shown) >>= init_printk_done) ≡ some c)
      × (c.ready ≡ true)
      × (c.shown ≡ shown ++ (t1 ++ t2))
unfolding printks
printks-two m1 m2 buf shown t1 t2 p1 p2 room =
    let one = printk-kept m1 t1 (booted buf shown) refl p1 (omega arith) in
    let two =
      printk-kept m2 t2 (after_one buf shown t1 t2 []) refl p2
        (omega (arith, length-memcpy buf 0 t1)) in
    let last = after_two buf shown t1 t2 [] in
    (
      started last,
      rw (one, two)
          (init-started last (
            omega (arith, length-memcpy buf 0 t1, length-memcpy (memcpy buf 0 t1) (length t1) t2))),
      refl,
      ap (λ (l : List ℕ). shown ++ l) (two_shown buf shown t1 t2 [] room),
    )

-- Three messages before the console is ready, that fit the buffer together, the first and the third
-- not empty: when it gets ready it shows the first byte of the third message at the length of the
-- second, and not behind the second.
pub printks-three :
    (m1 m2 m3 : List ℕ × List Arg) (buf t1 t2 t : List ℕ) (x : ℕ)
    → Prints m1 t1
    → Prints m2 t2
    → Prints m3 (x ∷ t)
    → 0 < length t1
    → length t1 + length t2 + length (x ∷ t) ≤ length buf
    → (c : Console) × ((printks (m1 ∷ m2 ∷ m3 ∷ []) (booted buf []) >>= init_printk_done) ≡ some c)
      × (get_elem? c.shown (length t2) ≡ some x)
unfolding printks
printks-three m1 m2 m3 buf t1 t2 t x p1 p2 p3 pos1 room =
    let one = printk-kept m1 t1 (booted buf []) refl p1 (omega arith) in
    let size1 = length-memcpy buf 0 t1 in
    let size2 = length-memcpy (memcpy buf 0 t1) (length t1) t2 in
    let two = printk-kept m2 t2 (after_one buf [] t1 t2 []) refl p2 (omega (arith, size1)) in
    let three =
      printk-kept m3 (x ∷ t) (after_two buf [] t1 t2 []) refl p3 (omega (arith, size1, size2)) in
    let last = after_three buf [] t1 t2 (x ∷ t) in
    let size3 = length-memcpy (memcpy (memcpy buf 0 t1) (length t1) t2) (length t2) (x ∷ t) in
    (
      started last,
      rw (one, two, three) (init-started last (omega (arith, size1, size2, size3))),
      three_shown buf [] t1 t2 (x ∷ t) x t refl pos1 (omega arith),
    )
