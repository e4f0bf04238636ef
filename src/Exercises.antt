-- ===== src/Exercises.antt =====
-- The exercises at the start of benos/src/kernel.c: a table of function names, and copies and updates
-- of the memory in assembly. The memory is one of doublewords, known by their aligned addresses; the
-- strings of the table are the bytes from `func_string` on.
pub mod Names
pub mod Copy
use risc_v_lab.Base.{
  ℕ, zero, suc, ◌+◌, ◌-◌, ◌^◌, ◌%◌, ◌==◌, if◌then◌else◌, Bool, ltb, bit_and, bit_or, u64, sub64,
  Option, none, some, List, [], ◌∷◌,
}
use risc_v_lab.Mmu.{Words, set_entry}

-- The `for` loop of `print_func_name`, from `i` on.
unfoldable pub find_func : ℕ → ℕ → List ℕ → Option ℕ
find_func addr i [] = none
find_func addr i (a ∷ func_addr) =
    let rest = find_func addr (i + 1) func_addr in if addr == a then some i else rest

-- The `while` loop, where `string` is what stands behind `p`: one byte is passed in a round. `none`
-- is a read behind the table.
unfoldable pub skip_names : ℕ → List ℕ → Option (List ℕ)
skip_names i [] = none
skip_names i (c ∷ string) =
    let i' = if c == 0 then i - 1 else i in
    let rest = skip_names i' string in if i' == 0 then some string else rest

-- What `%s` prints; `none` is a string without end.
unfoldable pub until_end : List ℕ → Option (List ℕ)
until_end [] = none
until_end (c ∷ string) =
    let rest = until_end string in
    if c == 0 then some [] else elim rest [ none ↦ none | some name ↦ some (c ∷ name) ]

abbrev pub behind : List ℕ → List ℕ
behind [] = []
behind (c ∷ string) = string

-- The name that is printed, or nothing.
unfoldable pub print_func_name : ℕ → List ℕ → List ℕ → Option (Option (List ℕ))
unfolding find_func
print_func_name addr func_addr func_string = elim (find_func addr 0 func_addr) [
  | none ↦ some none
  | some i ↦
      let string = if i == 0 then some func_string else skip_names i (behind func_string) in
      elim string [
        | none ↦ none
        | some s ↦ elim (until_end s) [ none ↦ none | some name ↦ some (some name) ]
      ]
]

-- The instruction `blt` compares as signed numbers.
unfoldable pub blt : ℕ → ℕ → Bool
blt a b = ltb (u64 (a + 2 ^ 63)) (u64 (b + 2 ^ 63))

-- The loop of `my_memcpy_asm_test1`, whose test follows the body; `none` is a lack of fuel.
unfoldable pub copy_loop : ℕ → ℕ → ℕ → ℕ → Words → Option Words
unfolding set_entry blt
copy_loop zero src dst end mem = none
copy_loop (suc fuel) src dst end mem =
    let mem1 = set_entry dst (mem src) mem in
    let src' = u64 (src + 8) in
    let rest = copy_loop fuel src' (u64 (dst + 8)) end mem1 in
    if blt src' end then rest else some mem1

-- my_memcpy_asm_test1 and my_memcpy_asm_test2, which differ in the names of the operands.
unfoldable pub my_memcpy : ℕ → ℕ → ℕ → ℕ → Words → Option Words
my_memcpy fuel src dst size mem = copy_loop fuel src dst (u64 (src + size)) mem

-- MY_OPS
unfoldable pub my_asm_orr : ℕ → ℕ → Words → Words
unfolding set_entry
my_asm_orr mask p mem = set_entry p (bit_or (mem p) mask) mem

unfoldable pub my_asm_and : ℕ → ℕ → Words → Words
unfolding set_entry
my_asm_and mask p mem = set_entry p (bit_and (mem p) mask) mem

unfoldable pub my_asm_add : ℕ → ℕ → Words → Words
unfolding set_entry
my_asm_add mask p mem = set_entry p (u64 (mem p + mask)) mem

-- The register holds the int.
unfoldable pub test_asm_goto : ℕ → ℕ
test_asm_goto a = if sub64 a 1 == 0 then 1 else 0
