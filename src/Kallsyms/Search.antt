-- ===== src/Kallsyms/Search.antt =====
-- The binary search of `kallsyms_lookup` of benos/src/kallsyms.c.
use risc_v_lab.Base.{
  ℕ, zero, suc, ◌+◌, ◌/◌, ◌^◌, ◌≤◌, ◌<◌, ◌≡◌, inl, inr, ◌∙◌, ap, arith, refl, Bool, true, false,
  Bool-cases, leb, ltb, if◌then◌else◌, some, u64, sub64,
}
use risc_v_lab.Kallsyms.{Tables, search_loop}

-- `low` is a symbol at or below `addr`, and the next one, if there is one, lies above.
pub record IsLast (t : Tables) (addr low : ℕ) : Type 0 where
  pub bound : low < t.kallsyms_num_syms
  pub reached : t.kallsyms_addresses low ≤ addr
  pub above : low + 1 < t.kallsyms_num_syms → addr < t.kallsyms_addresses (low + 1)

search_end :
    (t : Tables) (fuel addr low : ℕ)
    → low + 1 < 2 ^ 63
    → search_loop t (suc fuel) addr low (low + 1) ≡ some low
unfolding search_loop
search_end t fuel addr low h =
    let stop : ltb 1 (sub64 (low + 1) low) ≡ false = ground arith in rw stop refl

search_step :
    (t : Tables) (fuel addr low high : ℕ) (below : Bool)
    → low + 1 < high
    → high < 2 ^ 62
    → leb (t.kallsyms_addresses ((low + high) / 2)) addr ≡ below
    → search_loop t (suc fuel) addr low high
      ≡ search_loop t fuel addr
          (if below then (low + high) / 2 else low)
          (if below then high else (low + high) / 2)
unfolding search_loop
search_step t fuel addr low high below lt fits test =
    let more : ltb 1 (sub64 high low) ≡ true = ground arith in
    let sum : u64 (low + high) ≡ low + high = omega arith in rw (sum, more, test) refl

-- The search ends with the last symbol at or below the address, as it keeps a symbol at or below
-- the address at `low`, and one above it, or the end of the table, at `high`.
pub search_loop-IsLast :
    (t : Tables) (fuel addr low high : ℕ)
    → low < high
    → high ≤ t.kallsyms_num_syms
    → high < 2 ^ 62
    → t.kallsyms_addresses low ≤ addr
    → (high < t.kallsyms_num_syms → addr < t.kallsyms_addresses high)
    → high < low + fuel
    → (i : ℕ) × (search_loop t fuel addr low high ≡ some i) × IsLast t addr i
search_loop-IsLast t zero addr low high lt le fits reached above enough = absurd (omega arith)
search_loop-IsLast t (suc fuel) addr low high lt le fits reached above enough =
    elim (Bool-cases (ltb (low + 1) high)) [
      | inr stop ↦
          let e : high ≡ low + 1 = ground arith in
          (
            low,
            ap (search_loop t (suc fuel) addr low) e ∙ search_end t fuel addr low (omega arith),
            record {
              bound = omega arith;
              reached = reached;
              above = λ h. omega (arith, above, ap t.kallsyms_addresses e);
            },
          )
      | inl more ↦
          let gap : low + 1 < high = ground arith in
          elim (Bool-cases (leb (t.kallsyms_addresses ((low + high) / 2)) addr)) [
            | inl lower ↦
                let (i, runs, last) =
                  search_loop-IsLast t fuel addr ((low + high) / 2) high (omega arith) le fits
                    (ground arith) above (omega arith) in
                (i, search_step t fuel addr low high true gap fits lower ∙ runs, last)
            | inr upper ↦
                let (i, runs, last) =
                  search_loop-IsLast t fuel addr low ((low + high) / 2) (omega arith) (omega arith)
                    (omega arith) reached (λ h. ground arith) (omega arith) in
                (i, search_step t fuel addr low high false gap fits upper ∙ runs, last)
          ]
    ]
