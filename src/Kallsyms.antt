-- ===== src/Kallsyms.antt =====
-- benos/src/kallsyms.c: the name of the function that an address lies in. The tables are made by the
-- build, and are arguments here.
pub mod Search
pub mod Lookup
use risc_v_lab.Base.{
  ℕ, zero, suc, ◌+◌, ◌-◌, ◌/◌, ◌^◌, ◌%◌, ◌==◌, ◌&&◌, if◌then◌else◌, Bool, true, false, leb, ltb,
  Option, none, some, List, [], ◌∷◌, ◌++◌, u32, u64, sub64, shr, bit_and,
}
use mathlib.Core.Option

-- The arrays by their indices, and the ends of the kernel's text.
pub record Tables : Type 0 where
  pub kallsyms_addresses : ℕ → ℕ
  pub kallsyms_num_syms : ℕ
  pub kallsyms_names : ℕ → ℕ
  pub kallsyms_token_table : ℕ → ℕ
  pub kallsyms_token_index : ℕ → ℕ
  pub kallsyms_markers : ℕ → ℕ
  pub stext : ℕ
  pub etext : ℕ

module _ (t : Tables) where
  unfoldable pub is_kernel : ℕ → Bool
  is_kernel addr = leb t.stext addr && leb addr t.etext

  -- The loop of `get_symbol_offset`: each name has its length in front.
  unfoldable pub skip_names : ℕ → ℕ → ℕ
  skip_names zero name = name
  skip_names (suc i) name = skip_names i (name + t.kallsyms_names name + 1)

  unfoldable pub get_symbol_offset : ℕ → ℕ
  unfolding skip_names
  get_symbol_offset pos = u32 (skip_names (bit_and pos 0xff) (t.kallsyms_markers (shr pos 8)))

  -- The inner loop of `kallsyms_expand_symbol`: the characters it writes, and `skipped_first` after
  -- it. `none` is a lack of fuel.
  unfoldable pub token_loop : ℕ → ℕ → Bool → Option (List ℕ × Bool)
  token_loop zero tptr skipped_first = none
  token_loop (suc fuel) tptr skipped_first =
      let c = t.kallsyms_token_table tptr in
      let rest = token_loop fuel (tptr + 1) true in
      if c == 0
      then some ([], skipped_first)
      else if skipped_first
      then Option.map (λ r. (c ∷ r.0, r.1)) rest
      else rest

  -- The outer loop; the fuel is for each token.
  unfoldable pub expand_loop : ℕ → ℕ → ℕ → Bool → Option (List ℕ)
  unfolding token_loop
  expand_loop fuel zero ptr skipped_first = some []
  expand_loop fuel (suc len) ptr skipped_first =
      elim (token_loop fuel (t.kallsyms_token_index (t.kallsyms_names ptr)) skipped_first) [
        | none ↦ none
        | some (cs, skipped) ↦
            Option.map (λ rest. cs ++ rest) (expand_loop fuel len (ptr + 1) skipped)
      ]

  -- The offset of the next name, and the characters of this one.
  unfoldable pub kallsyms_expand_symbol : ℕ → ℕ → Option (ℕ × List ℕ)
  unfolding expand_loop
  kallsyms_expand_symbol fuel off =
      let len = t.kallsyms_names off in
      Option.map (λ cs. (u32 (off + len + 1), cs)) (expand_loop fuel len (off + 1) false)

  -- The binary search of `kallsyms_lookup`.
  unfoldable pub search_loop : ℕ → ℕ → ℕ → ℕ → Option ℕ
  search_loop zero addr low high = none
  search_loop (suc fuel) addr low high =
      let mid = u64 (low + high) / 2 in
      let below = leb (t.kallsyms_addresses mid) addr in
      let rest = search_loop fuel addr (if below then mid else low) (if below then high else mid) in
      if ltb 1 (sub64 high low) then rest else some low

  -- The `for` loop of `kallsyms_lookup` over `n` indices from `i` on: `symbol_end`.
  unfoldable pub end_loop : ℕ → ℕ → ℕ → ℕ
  end_loop zero i low = 0
  end_loop (suc n) i low =
      if ltb (t.kallsyms_addresses low) (t.kallsyms_addresses i)
      then t.kallsyms_addresses i
      else end_loop n (i + 1) low

-- What `kallsyms_lookup` stores.
pub record Symbol : Type 0 where
  pub name : List ℕ
  pub symbolsize : ℕ
  pub offset : ℕ

-- The inner `none` is NULL.
unfoldable pub kallsyms_lookup : Tables → ℕ → ℕ → Option (Option Symbol)
kallsyms_lookup t fuel addr =
    if is_kernel t addr
    then (elim (search_loop t (t.kallsyms_num_syms + 1) addr 0 t.kallsyms_num_syms) [
      | none ↦ none
      | some low ↦ elim (kallsyms_expand_symbol t fuel (get_symbol_offset t low)) [
        | none ↦ none
        | some (off, name) ↦
            let symbol_end = end_loop t (t.kallsyms_num_syms - (low + 1)) (low + 1) low in
            some (
              some (record {
                name = name;
                symbolsize = sub64 symbol_end (t.kallsyms_addresses low);
                offset = sub64 addr (t.kallsyms_addresses low);
              }))
      ]
    ])
    else some none
