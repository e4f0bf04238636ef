-- ===== src/Exercises/Names.antt =====
-- `print_func_name` of benos/src/kernel.c finds the right name.
use risc_v_lab.Base.{
  ℕ, zero, suc, ◌+◌, ◌-◌, ◌≤◌, ◌<◌, ◌≡◌, ◌≢◌, ◌∙◌, sym, ap, refl, arith, ◌==◌, false, if◌then◌else◌,
  Option, none, some, List, [], ◌∷◌, ◌++◌, length, get_elem?, lt_of_get_elem?, All,
}
use native.Mathlib.Decide.{ℕ_discrete}
use native.Mathlib.Nat.{zero-add}
use risc_v_lab.Exercises.{find_func, skip_names, until_end, print_func_name, behind}

-- A table of names as it stands in the memory.
abbrev pub strings : List (List ℕ) → List ℕ
strings [] = []
strings (name ∷ names) = name ++ 0 ∷ strings names

abbrev pub IsName : List ℕ → Type 0
IsName = All (λ c. c ≢ 0)

-- The name of the first symbol with this address.
abbrev pub name_of : ℕ → List ℕ → List (List ℕ) → Option (List ℕ)
name_of addr [] names = none
name_of addr (a ∷ addrs) [] = none
name_of addr (a ∷ addrs) (name ∷ names) = if addr == a then some name else name_of addr addrs names

abbrev drop_names : ℕ → List (List ℕ) → List (List ℕ)
drop_names zero names = names
drop_names (suc i) [] = []
drop_names (suc i) (name ∷ names) = drop_names i names

until_end-name : (name rest : List ℕ) → IsName name → until_end (name ++ 0 ∷ rest) ≡ some name
unfolding until_end
until_end-name [] rest h = refl
until_end-name (c ∷ name) rest h =
    let more : (c == 0) ≡ false = let ne = h.0 in ground arith in
    rw (more, until_end-name name rest h.1) refl

nonzero : (i : ℕ) → (suc i == 0) ≡ false
nonzero i = ground arith

-- One name is passed.
skip_name :
    (i : ℕ) (name rest : List ℕ)
    → IsName name
    → skip_names (suc i) (name ++ 0 ∷ rest) ≡ (if i == 0 then some rest else skip_names i rest)
unfolding skip_names
skip_name i [] rest h = let e : suc i - 1 ≡ i = omega arith in rw e refl
skip_name i (c ∷ name) rest h =
    let more : (c == 0) ≡ false = let ne = h.0 in ground arith in
    rw (more, nonzero i) (skip_name i name rest h.1)

skip_names-drop :
    (i : ℕ) (name : List ℕ) (names : List (List ℕ))
    → IsName name
    → All IsName names
    → i < length names
    → skip_names (suc i) (name ++ 0 ∷ strings names) ≡ some (strings (drop_names i names))
skip_names-drop i name [] h hs lt = absurd (omega arith)
skip_names-drop zero name (n ∷ names) h hs lt = skip_name 0 name (strings (n ∷ names)) h
skip_names-drop (suc i) name (n ∷ names) h hs lt =
    skip_name (suc i) name (strings (n ∷ names)) h
    ∙ ap (λ b. if b then some (strings (n ∷ names)) else skip_names (suc i) (strings (n ∷ names)))
        (nonzero i)
    ∙ skip_names-drop i n names hs.0 hs.1 (omega arith)

until_end-drop :
    (i : ℕ) (names : List (List ℕ)) (name : List ℕ)
    → All IsName names
    → get_elem? names i ≡ some name
    → until_end (strings (drop_names i names)) ≡ some name
until_end-drop i [] name hs e = ground arith
until_end-drop zero (n ∷ names) name hs e = until_end-name n (strings names) hs.0 ∙ e
until_end-drop (suc i) (n ∷ names) name hs e = until_end-drop i names name hs.1 e

-- What the search finds.
data Search (addr k : ℕ) (addrs : List ℕ) (names : List (List ℕ)) : Type 0 where
  missing :
      find_func addr k addrs ≡ none → name_of addr addrs names ≡ none → Search addr k addrs names
  hit :
      (i : ℕ) (name : List ℕ)
      → find_func addr k addrs ≡ some (k + i)
      → get_elem? names i ≡ some name
      → name_of addr addrs names ≡ some name
      → Search addr k addrs names

Search-skip :
    (addr k a : ℕ) (addrs name : List ℕ) (names : List (List ℕ))
    → addr ≢ a
    → Search addr (k + 1) addrs names
    → Search addr k (a ∷ addrs) (name ∷ names)
unfolding find_func
Search-skip addr k a addrs name names ne (missing e e') = missing (ground arith) (ground arith)
Search-skip addr k a addrs name names ne (hit i n e at e') =
    hit (suc i) n (ground arith) at (ground arith)

find_func-Search :
    (addr k : ℕ) (addrs : List ℕ) (names : List (List ℕ))
    → length addrs ≤ length names
    → Search addr k addrs names
unfolding find_func
find_func-Search addr k [] names le = missing refl refl
find_func-Search addr k (a ∷ addrs) [] le = absurd (omega arith)
find_func-Search addr k (a ∷ addrs) (name ∷ names) le = elim (ℕ_discrete addr a) [
  | yes e ↦ hit 0 name (ground arith) refl (ground arith)
  | no ne ↦
      Search-skip addr k a addrs name names ne
        (find_func-Search addr (k + 1) addrs names (omega arith))
]

-- The string that is printed for entry `i`.
chosen : ℕ → List ℕ → Option (List ℕ)
chosen i func_string = if i == 0 then some func_string else skip_names i (behind func_string)

chosen-drop :
    (i c : ℕ) (first : List ℕ) (names : List (List ℕ))
    → All IsName ((c ∷ first) ∷ names)
    → i < suc (length names)
    → chosen i (strings ((c ∷ first) ∷ names)) ≡ some (strings (drop_names i ((c ∷ first) ∷ names)))
unfolding chosen
chosen-drop zero c first names hs lt = refl
chosen-drop (suc i) c first names hs lt =
    rw (nonzero i) (skip_names-drop i first names hs.0.1 hs.1 (omega arith))

print-missing :
    (addr : ℕ) (addrs func_string : List ℕ)
    → find_func addr 0 addrs ≡ none
    → print_func_name addr addrs func_string ≡ some none
unfolding print_func_name
print-missing addr addrs func_string e = rw (print_func_name, e) refl

print-hit :
    (addr i : ℕ) (addrs func_string s name : List ℕ)
    → find_func addr 0 addrs ≡ some i
    → chosen i func_string ≡ some s
    → until_end s ≡ some name
    → print_func_name addr addrs func_string ≡ some (some name)
unfolding print_func_name chosen
print-hit addr i addrs func_string s name a b c = rw (print_func_name, a, b, c) refl

print-Search :
    (addr c : ℕ) (addrs first : List ℕ) (names : List (List ℕ))
    → All IsName ((c ∷ first) ∷ names)
    → Search addr 0 addrs ((c ∷ first) ∷ names)
    → print_func_name addr addrs (strings ((c ∷ first) ∷ names))
      ≡ some (name_of addr addrs ((c ∷ first) ∷ names))
print-Search addr c addrs first names hs (missing e e') =
    print-missing addr addrs (strings ((c ∷ first) ∷ names)) e ∙ ap some (sym e')
print-Search addr c addrs first names hs (hit i name e at e') =
    let all = (c ∷ first) ∷ names in
    print-hit addr i addrs (strings all) (strings (drop_names i all)) name
      (e ∙ ap some (zero-add i)) (chosen-drop i c first names hs (lt_of_get_elem? all i name at))
      (until_end-drop i all name hs at)
    ∙ ap some (sym e')

-- `print_func_name` prints the name of the first symbol with the address that it is given, and
-- nothing if there is none, for a table with a name for every address whose names contain no 0 and
-- whose first name is not empty; it does not read behind the table.
pub print_func_name-name_of :
    (addr c : ℕ) (addrs first : List ℕ) (names : List (List ℕ))
    → All IsName ((c ∷ first) ∷ names)
    → length addrs ≤ suc (length names)
    → print_func_name addr addrs (strings ((c ∷ first) ∷ names))
      ≡ some (name_of addr addrs ((c ∷ first) ∷ names))
print_func_name-name_of addr c addrs first names hs le =
    print-Search addr c addrs first names hs
      (find_func-Search addr 0 addrs ((c ∷ first) ∷ names) le)
