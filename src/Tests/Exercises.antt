-- ===== src/Tests/Exercises.antt =====
-- The exercises of benos/src/kernel.c at concrete inputs.
use risc_v_lab.Base.{ℕ, ◌+◌, ◌≡◌, refl, arith, some, List, [], ◌∷◌, inl}
use mathlib.Core.Option
use risc_v_lab.Mmu.{Words, set_entry}
use risc_v_lab.Exercises.{
  find_func, skip_names, until_end, print_func_name, blt, copy_loop, my_memcpy, my_asm_and,
  my_asm_orr, my_asm_add, test_asm_goto,
}
use risc_v_lab.Exercises.Names.{strings, name_of, print_func_name-name_of}
use risc_v_lab.Exercises.Copy.{Copied, my_memcpy-Copied}

-- Three symbols of asm_test.S.
abbrev addresses : List ℕ
addresses = 0x800800 ∷ 0x800860 ∷ 0x800880 ∷ []

-- "ab", "c" and "de"
abbrev names : List (List ℕ)
names = (97 ∷ 98 ∷ []) ∷ (99 ∷ []) ∷ (100 ∷ 101 ∷ []) ∷ []

print_func_name-name_of_example :
    print_func_name 0x800880 addresses (strings names) ≡ some (name_of 0x800880 addresses names)
print_func_name-name_of_example =
    print_func_name-name_of 0x800880 97 addresses (98 ∷ []) ((99 ∷ []) ∷ (100 ∷ 101 ∷ []) ∷ [])
      (
        (omega arith, (omega arith, tt)),
        ((omega arith, tt), ((omega arith, (omega arith, tt)), tt)),
      )
      (omega arith)

name_found : print_func_name 0x800860 addresses (strings names) ≡ some (some (99 ∷ []))
unfolding print_func_name find_func skip_names until_end
name_found = refl

-- With an empty name at the front, the name of the next symbol is missed.
empty_first :
    print_func_name 0x800860 addresses (strings ([] ∷ (99 ∷ []) ∷ (100 ∷ []) ∷ []))
    ≡ some (some (100 ∷ []))
unfolding print_func_name find_func skip_names until_end
empty_first = refl

abbrev source : Words
source = λ a. a + 1

-- 32 bytes
my_memcpy-Copied_example :
    (mem' : Words) × (my_memcpy 4 0x80200000 0x80210000 32 source ≡ some mem')
    × Copied 4 0x80200000 0x80210000 source mem'
my_memcpy-Copied_example =
    my_memcpy-Copied 4 0x80200000 0x80210000 32 source (omega arith) (omega arith) (omega arith)
      (inl (omega arith))

-- A copy of no byte copies eight.
copy_none :
    Option.map {B = ℕ} (λ m. m 0x80210000) (my_memcpy 1 0x80200000 0x80210000 0 source)
    ≡ some 0x80200001
unfolding my_memcpy copy_loop blt set_entry
copy_none = refl

ops :
    (my_asm_and 0x2 8 (λ a. 0xf) 8 ≡ 0x2)
    × (my_asm_orr 0x3 8 (λ a. 0x80) 8 ≡ 0x83)
    × (my_asm_add 0x2 8 (λ a. 0x3) 8 ≡ 0x5)
unfolding my_asm_and my_asm_orr my_asm_add set_entry
ops = (refl, refl, refl)

goto_one : (test_asm_goto 1 ≡ 1) × (test_asm_goto 0 ≡ 0)
unfolding test_asm_goto
goto_one = (refl, refl)
