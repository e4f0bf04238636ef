-- ===== src/Tests/Kallsyms.antt =====
-- benos/src/kallsyms.c with a table of three symbols of one token each.
use risc_v_lab.Base.{ℕ, zero, suc, ◌≡◌, ◌<◌, refl, arith, ◌==◌, if◌then◌else◌, some, List, [], ◌∷◌}
use risc_v_lab.Kallsyms.{
  Tables, Symbol, get_symbol_offset, kallsyms_expand_symbol, kallsyms_lookup, search_loop, end_loop,
  is_kernel,
}
use risc_v_lab.Kallsyms.Lookup.{IsTable, IsSymbol, kallsyms_lookup-IsSymbol}

-- Symbol i starts at 0x80200000 + 16 * i. Its name is one token: `t` for the type, and a letter.
abbrev tables : Tables
tables = record {
  kallsyms_addresses =
      λ i. if i == 0 then 0x80200000 else if i == 1 then 0x80200010 else 0x80200020;
  kallsyms_num_syms = 3;
  kallsyms_names = λ i. if i == 0 then 1 else if i == 2 then 1 else if i == 4 then 1 else 7;
  kallsyms_token_table = λ i. if i == 0 then 116 else if i == 1 then 97 else 0;
  kallsyms_token_index = λ i. 0;
  kallsyms_markers = λ i. 0;
  stext = 0x80200000;
  etext = 0x80200100;
}

lookup_runs :
    kallsyms_lookup tables 5 0x80200014
    ≡ some (some (record { name = 97 ∷ []; symbolsize = 16; offset = 4 }))
unfolding kallsyms_lookup search_loop end_loop is_kernel kallsyms_expand_symbol get_symbol_offset
lookup_runs = refl

-- The last symbol has the negated address as its size.
lookup_last :
    kallsyms_lookup tables 5 0x80200028
    ≡ some (some (record { name = 97 ∷ []; symbolsize = 0xffffffff7fdfffe0; offset = 8 }))
unfolding kallsyms_lookup search_loop end_loop is_kernel kallsyms_expand_symbol get_symbol_offset
lookup_last = refl

tables-IsTable : IsTable tables
tables-IsTable = record {
  some_symbol = omega arith;
  count = omega arith;
  first = omega arith;
  sorted = λ i j le lt. ground arith;
  addresses = λ i. ground arith;
}

names_expand :
    (i : ℕ)
    → i < 3
    → (r : ℕ × List ℕ) × (kallsyms_expand_symbol tables 5 (get_symbol_offset tables i) ≡ some r)
unfolding kallsyms_expand_symbol get_symbol_offset
names_expand zero h = (_, refl)
names_expand (suc zero) h = (_, refl)
names_expand (suc (suc zero)) h = (_, refl)
names_expand (suc (suc (suc i))) h = absurd (omega arith)

kallsyms_lookup-IsSymbol_example :
    (low : ℕ) × (r : Symbol) × (kallsyms_lookup tables 5 0x80200014 ≡ some (some r))
    × IsSymbol tables 5 0x80200014 low r
kallsyms_lookup-IsSymbol_example =
    kallsyms_lookup-IsSymbol tables 5 0x80200014 tables-IsTable names_expand (omega arith)
      (omega arith) (omega arith)
