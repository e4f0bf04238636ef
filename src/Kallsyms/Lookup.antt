-- ===== src/Kallsyms/Lookup.antt =====
-- What `kallsyms_lookup` of benos/src/kallsyms.c finds.
use risc_v_lab.Base.{
  ℕ, suc, ◌+◌, ◌-◌, ◌%◌, ◌^◌, ◌≤◌, ◌<◌, ◌≡◌, ◌∙◌, ap, arith, refl, true, ltb, some, List, sub64,
}
use risc_v_lab.Kallsyms.{
  Tables, Symbol, is_kernel, get_symbol_offset, kallsyms_expand_symbol, search_loop, end_loop,
  kallsyms_lookup,
}
use risc_v_lab.Kallsyms.Search.{IsLast, search_loop-IsLast}

-- The generated table of addresses: sorted, and the first symbol is not above the kernel's text.
pub record IsTable (t : Tables) : Type 0 where
  pub some_symbol : 0 < t.kallsyms_num_syms
  pub count : t.kallsyms_num_syms < 2 ^ 32
  pub first : t.kallsyms_addresses 0 ≤ t.stext
  pub sorted :
      (i j : ℕ) → i ≤ j → j < t.kallsyms_num_syms → t.kallsyms_addresses i ≤ t.kallsyms_addresses j
  pub addresses : (i : ℕ) → t.kallsyms_addresses i < 2 ^ 64

-- The result `r` for `addr` is symbol `low`.
pub record IsSymbol (t : Tables) (fuel addr low : ℕ) (r : Symbol) : Type 0 where
  -- It is the last one that starts at or below the address.
  pub bound : low < t.kallsyms_num_syms
  pub reached : t.kallsyms_addresses low ≤ addr
  pub last : (j : ℕ) → low < j → j < t.kallsyms_num_syms → addr < t.kallsyms_addresses j
  pub offset : t.kallsyms_addresses low + r.offset ≡ addr
  -- Its size reaches to the next symbol, if there is one.
  pub size :
      low + 1 < t.kallsyms_num_syms
      → t.kallsyms_addresses low + r.symbolsize ≡ t.kallsyms_addresses (low + 1)
  -- For the last symbol of all, it is the negated address.
  pub no_size :
      low + 1 ≡ t.kallsyms_num_syms → r.symbolsize ≡ (2 ^ 64 - t.kallsyms_addresses low) % 2 ^ 64
  pub name :
      (off : ℕ) × (kallsyms_expand_symbol t fuel (get_symbol_offset t low) ≡ some (off, r.name))

is_kernel-true : (t : Tables) (addr : ℕ) → t.stext ≤ addr → addr ≤ t.etext → is_kernel t addr ≡ true
unfolding is_kernel
is_kernel-true t addr a b = ground arith

end_loop-next :
    (t : Tables) (n low : ℕ)
    → t.kallsyms_addresses low < t.kallsyms_addresses (low + 1)
    → end_loop t (suc n) (low + 1) low ≡ t.kallsyms_addresses (low + 1)
unfolding end_loop
end_loop-next t n low lt =
    let found : ltb (t.kallsyms_addresses low) (t.kallsyms_addresses (low + 1)) ≡ true =
      ground arith in
    rw found refl

end_loop-none : (t : Tables) (n low : ℕ) → n ≡ 0 → end_loop t n (low + 1) low ≡ 0
unfolding end_loop
end_loop-none t n low e = rw e refl

module _ (t : Tables) (fuel addr low off : ℕ) (name : List ℕ) where
  abbrev symbol_end : ℕ
  symbol_end = end_loop t (t.kallsyms_num_syms - (low + 1)) (low + 1) low

  abbrev symbol : Symbol
  symbol = record {
    name = name;
    symbolsize = sub64 symbol_end (t.kallsyms_addresses low);
    offset = sub64 addr (t.kallsyms_addresses low);
  }

  lookup_some :
      is_kernel t addr ≡ true
      → search_loop t (t.kallsyms_num_syms + 1) addr 0 t.kallsyms_num_syms ≡ some low
      → kallsyms_expand_symbol t fuel (get_symbol_offset t low) ≡ some (off, name)
      → kallsyms_lookup t fuel addr ≡ some (some symbol)
  unfolding kallsyms_lookup
  lookup_some inside found expanded = rw (inside, found, expanded) refl

  symbol-IsSymbol :
      IsTable t
      → IsLast t addr low
      → addr < 2 ^ 64
      → kallsyms_expand_symbol t fuel (get_symbol_offset t low) ≡ some (off, name)
      → IsSymbol t fuel addr low symbol
  symbol-IsSymbol table found fits expanded = record {
    bound = found.bound;
    reached = found.reached;
    last = λ j lt h. omega (arith, found.above, table.sorted (low + 1) j (omega arith) h);
    offset = omega (arith, found.reached);
    size = λ h.
        let more : t.kallsyms_num_syms - (low + 1) ≡ suc (t.kallsyms_num_syms - (low + 2)) =
          omega arith in
        let next : symbol_end ≡ t.kallsyms_addresses (low + 1) =
          ap (λ n. end_loop t n (low + 1) low) more
          ∙ end_loop-next t (t.kallsyms_num_syms - (low + 2)) low
              (omega (arith, found.reached, found.above)) in
        omega (arith, next, found.reached, found.above, table.addresses (low + 1));
    no_size = λ e.
        let none_after = end_loop-none t (t.kallsyms_num_syms - (low + 1)) low (omega arith) in
        omega (arith, none_after);
    name = (off, expanded);
  }

-- `kallsyms_lookup`, over a generated table (sorted addresses, names that can be expanded with the
-- fuel given), for an address in the kernel's text: it finds the last symbol that starts at or below
-- the address, with its name, the offset of the address in it, and the distance to the next
-- symbol as its size; the size of the last symbol of the table is its negated address.
pub kallsyms_lookup-IsSymbol :
    (t : Tables) (fuel addr : ℕ)
    → IsTable t
    → ((i : ℕ)
        → i < t.kallsyms_num_syms
        → (r : ℕ × List ℕ) × (kallsyms_expand_symbol t fuel (get_symbol_offset t i) ≡ some r))
    → t.stext ≤ addr
    → addr ≤ t.etext
    → addr < 2 ^ 64
    → (low : ℕ) × (r : Symbol) × (kallsyms_lookup t fuel addr ≡ some (some r))
      × IsSymbol t fuel addr low r
kallsyms_lookup-IsSymbol t fuel addr table names above below fits =
    let (low, found, last) =
      search_loop-IsLast t (t.kallsyms_num_syms + 1) addr 0 t.kallsyms_num_syms table.some_symbol
        (omega arith) (omega (arith, table.count)) (omega (arith, table.first))
        (λ h. absurd (omega arith)) (omega arith) in
    let ((off, name), expanded) = names low last.bound in
    (
      low,
      symbol t fuel addr low off name,
      lookup_some t fuel addr low off name (is_kernel-true t addr above below) found expanded,
      symbol-IsSymbol t fuel addr low off name table last fits expanded,
    )
