-- ===== src/Tests/Sbi.antt =====
-- benos/sbi: the memory protection of all addresses, and of a region of 256 KB.
use risc_v_lab.Base.{◌≡◌, ◌≤◌, refl, arith, true}
use risc_v_lab.Sbi.{Csrs, log2roundup, pmp_addr, sbi_set_pmp}
use risc_v_lab.Sbi.Pmp.{sbi_set_pmp-eighth}
use risc_v_lab.Sbi.Main.{Firmware, Entered, sbi_main, sbi_main-Entered}

abbrev csrs : Csrs
csrs a = 0

order_runs : log2roundup 0x40000 ≡ 18
unfolding log2roundup
order_runs = refl

-- 0x80300000 of 2 ^ 18 bytes.
addr_runs : pmp_addr 18 0x80300000 ≡ 0x200c7fff
unfolding pmp_addr
addr_runs = refl

order_fits : 2 ≤ log2roundup 0x40000
unfolding log2roundup
order_fits = omega arith

sbi_set_pmp-eighth_example :
    ((sbi_set_pmp 8 0x80300000 0x40000 1 csrs).0 ≡ true)
    × ((sbi_set_pmp 8 0x80300000 0x40000 1 csrs).1 0x3b0 ≡ csrs 0x3b0)
sbi_set_pmp-eighth_example = sbi_set_pmp-eighth 0x80300000 0x40000 1 csrs 0x3b0 order_fits

-- The machine after a reset.
abbrev reset : Firmware
reset = record {
  pmp = csrs;
  machine = record { mie = 0x88; mip = 0; mideleg = 0; medeleg = 0; mtime_cmp = 0 };
  mstatus = 0x1880;
  mtvec = 0;
  mepc = 0;
  stvec = 0;
  sie = 0x222;
  satp = 0;
}

sbi_main-Entered_example : Entered 0x80000400 reset (sbi_main 0x80000400 reset)
sbi_main-Entered_example = sbi_main-Entered 0x80000400 reset (omega arith)
