-- ===== src/Printk/Console.antt =====
-- `printk` and `init_printk_done` of benos/lib/printk.c. Before the console is ready the messages
-- are kept in a buffer. `none` is undefined behaviour: that of `myprintf`, and a message that does
-- not fit its buffer.
pub mod Early
use risc_v_lab.Base.{
  ℕ, zero, suc, ◌+◌, ◌^◌, if◌then◌else◌, Bool, true, false, ltb, leb, Option, none, some, ◌>>=◌,
  List, [], ◌∷◌, ◌++◌, length, set, take,
}
use risc_v_lab.Printk.Conversions.{Arg, Printing}
use risc_v_lab.Printk.Format.{myprintf}

-- The static variables: `ready` is the status, `g_record` the place in `log_buf` for the next
-- message. `shown` is what was given to `putchar_fn`.
pub record Console : Type 0 where
  pub ready : Bool
  pub log_buf : List ℕ
  pub g_record : ℕ
  pub g_record_len : ℕ
  pub shown : List ℕ

abbrev pub console_print_buffer_size : ℕ
console_print_buffer_size = 1024

abbrev pub log_buf_len : ℕ
log_buf_len = 2 ^ 17

-- memcpy of `src` to the place `dest` of the buffer
unfoldable pub memcpy : List ℕ → ℕ → List ℕ → List ℕ
memcpy buf dest [] = buf
memcpy buf dest (c ∷ src) = memcpy (set buf dest c) (suc dest) src

unfoldable pub record_text : List ℕ → Console → Option Console
record_text text c =
    if leb (c.g_record + length text) (length c.log_buf)
    then some (record c {
      log_buf = memcpy c.log_buf c.g_record text;
      g_record = length text;
      g_record_len = c.g_record_len + length text;
    })
    else none

-- The loop of `printk` from the place `i` on.
unfoldable pub show_loop : ℕ → List ℕ → List ℕ → List ℕ
show_loop i [] shown = shown
show_loop i (ch ∷ text) shown =
    let rest = show_loop (suc i) text (shown ++ ch ∷ []) in
    if ltb console_print_buffer_size i then shown ++ ch ∷ [] else rest

unfoldable pub print_or_record : List ℕ → Console → Option Console
print_or_record text c =
    if c.ready then some (record c { shown = show_loop 0 text c.shown }) else record_text text c

-- The end mark of the text must fit `print_buf` too. The result, a length, is left out.
unfoldable pub printk : List ℕ → List Arg → Console → Option Console
printk fmt args c = do
  (p : Printing) ← myprintf fmt args
  if ltb (length p.out) console_print_buffer_size then print_or_record p.out c else none

unfoldable pub init_printk_done : Console → Option Console
init_printk_done c =
    if leb c.g_record_len (length c.log_buf)
    then some (record c {
      ready = true;
      shown = c.shown ++ take c.g_record_len c.log_buf;
      g_record = 0;
      g_record_len = 0;
    })
    else none

-- Calls of `printk`, each a format with its arguments.
unfoldable pub printks : List (List ℕ × List Arg) → Console → Option Console
printks [] c = some c
printks ((fmt, args) ∷ calls) c = printk fmt args c >>= printks calls
