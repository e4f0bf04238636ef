-- ===== src/Sbi/Pmp.antt =====
-- `sbi_set_pmp` of benos/sbi/sbi_main.c.
use risc_v_lab.Base.{
  ℕ, ◌+◌, ◌*◌, ◌/◌, ◌≤◌, ◌<◌, ◌≡◌, arith, refl, ◌==◌, ltb, if◌then◌else◌, true, false,
}
use risc_v_lab.Sbi.{
  Csrs, is_known, read_csr_num, write_csr_num, log2roundup, pmp_addr, pmp_cfg, sbi_set_pmp,
}

-- `sbi_set_pmp` accepts register 8, as the test is `>`, and says that it has succeeded, but changes
-- no register.
pub sbi_set_pmp-eighth :
    (start size prot : ℕ) (c : Csrs) (a : ℕ)
    → 2 ≤ log2roundup size
    → ((sbi_set_pmp 8 start size prot c).0 ≡ true) × ((sbi_set_pmp 8 start size prot c).1 a ≡ c a)
unfolding sbi_set_pmp write_csr_num
sbi_set_pmp-eighth start size prot c a big =
    let order : ltb (log2roundup size) 2 ≡ false = ground arith in (rw order refl, rw order refl)

-- `sbi_set_pmp` of a region that one of the registers 0 to 7 can hold succeeds: it writes the
-- region's address and configuration, whose other bytes it keeps, and no other register.
pub sbi_set_pmp-region :
    (i start size prot : ℕ) (c : Csrs) (a : ℕ)
    → i < 8
    → 2 ≤ log2roundup size
    → ((sbi_set_pmp i start size prot c).0 ≡ true)
      × ((sbi_set_pmp i start size prot c).1 a ≡ (
          if a == 0x3a0
          then pmp_cfg i (log2roundup size) prot (c 0x3a0)
          else if a == 0x3b0 + i
          then pmp_addr (log2roundup size) start
          else c a))
unfolding sbi_set_pmp write_csr_num read_csr_num
sbi_set_pmp-region i start size prot c a fits big =
    let order : ltb (log2roundup size) 2 ≡ false = ground arith in
    let small : ltb 8 i ≡ false = ground arith in
    let number : (0x3a0 + i / 4) / 2 * 2 ≡ 0x3a0 = omega arith in
    let known : is_known (0x3b0 + i) ≡ true = ground arith in
    (rw (small, order) refl, rw (small, order, number, known) refl)
