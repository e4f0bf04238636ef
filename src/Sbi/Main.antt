-- ===== src/Sbi/Main.antt =====
-- `sbi_main` of benos/sbi/sbi_main.c, which hands the machine to the kernel. What it prints is left
-- out.
use risc_v_lab.Base.{
  ℕ, zero, suc, ◌+◌, ◌-◌, ◌*◌, ◌/◌, ◌%◌, ◌^◌, ◌≤◌, ◌<◌, ◌≡◌, ◌∙◌, ap, refl, arith, bit_and, bit_or,
  not64, u64, ◌≢◌, ◌==◌, if◌then◌else◌, [], ◌∷◌, All,
}
use risc_v_lab.Base.Bits.{
  bit_and_digit, bit_or_digit, bit_or-zero, bit_and_low, bit_and_high, bit_or_low,
}
use risc_v_lab.Sbi.{
  Csrs, Machine, sbi_set_pmp, delegate_traps, log2roundup, log2_loop, pmp_addr, pmp_cfg,
}
use risc_v_lab.Sbi.Pmp.{sbi_set_pmp-region}

-- The control registers that are written besides those of the memory protection and of traps.
pub record Firmware : Type 0 where
  pub pmp : Csrs
  pub machine : Machine
  pub mstatus : ℕ
  pub mtvec : ℕ
  pub mepc : ℕ
  pub stvec : ℕ
  pub sie : ℕ
  pub satp : ℕ

abbrev pub mstatus_mpp : ℕ
mstatus_mpp = 3 * 2 ^ 11

abbrev pub mstatus_mpie : ℕ
mstatus_mpie = 0x80

abbrev pub prv_s : ℕ
prv_s = 1

abbrev pub pmp_rwx : ℕ
pmp_rwx = 7

abbrev pub fw_jump_addr : ℕ
fw_jump_addr = 0x80200000

-- INSERT_FIELD
unfoldable pub insert_field : ℕ → ℕ → ℕ → ℕ
insert_field val which fieldval =
    bit_or (bit_and val (not64 which)) (u64 (fieldval * bit_and which (not64 (which - 1))))

unfoldable pub sbi_trap_init : ℕ → Firmware → Firmware
sbi_trap_init vector f = record f { mtvec = vector; machine = record (f.machine) { mie = 0 } }

-- Up to the `mret`.
unfoldable pub sbi_main : ℕ → Firmware → Firmware
unfolding sbi_trap_init
sbi_main vector f =
    let f1 = sbi_trap_init vector f in
    let f2 = record f1 { pmp = (sbi_set_pmp 1 0 (2 ^ 64 - 1) pmp_rwx f1.pmp).1 } in
    let val = insert_field f2.mstatus mstatus_mpp prv_s in
    record f2 {
      mstatus = insert_field val mstatus_mpie 0;
      machine = delegate_traps f2.machine;
      mepc = fw_jump_addr;
      stvec = fw_jump_addr;
      sie = 0;
      satp = 0;
    }

and_half : (a b : ℕ) → bit_and a b / 2 ≡ bit_and (a / 2) (b / 2)
and_half a b = ground (arith, bit_and_digit a b)

or_half : (a b : ℕ) → bit_or a b / 2 ≡ bit_or (a / 2) (b / 2)
or_half a b = ground (arith, bit_or_digit a b)

-- Without the lowest `k` bits.
abbrev halves : ℕ → ℕ → ℕ
halves zero a = a
halves (suc k) a = halves k (a / 2)

and_above : (k a b : ℕ) → halves k (bit_and a b) ≡ bit_and (halves k a) (halves k b)
and_above zero a b = refl
and_above (suc k) a b = ap (halves k) (and_half a b) ∙ and_above k (a / 2) (b / 2)

or_above : (k a b : ℕ) → halves k (bit_or a b) ≡ bit_or (halves k a) (halves k b)
or_above zero a b = refl
or_above (suc k) a b = ap (halves k) (or_half a b) ∙ or_above k (a / 2) (b / 2)

-- The two bits of MPP, for S mode.
mpp_set : (v : ℕ) → halves 11 (insert_field v mstatus_mpp prv_s) % 4 ≡ 1
unfolding insert_field
mpp_set v =
    let a = or_above 11 (bit_and v (not64 mstatus_mpp)) 2048 in
    let b = and_above 11 v (not64 mstatus_mpp) in
    let w = halves 11 v in
    ground (
      arith,
      a,
      b,
      bit_or_digit (bit_and w (2 ^ 53 - 4)) 1,
      bit_or_digit (bit_and w (2 ^ 53 - 4) / 2) 0,
      bit_and_digit w (2 ^ 53 - 4),
      bit_and_digit (w / 2) (2 ^ 52 - 2),
    )

-- The bit MPIE is cleared, and the bits of MPP stay.
mpie_clear :
    (v : ℕ)
    → (halves 7 (insert_field v mstatus_mpie 0) % 2 ≡ 0)
      × (halves 11 (insert_field v mstatus_mpie 0) % 4 ≡ halves 11 v % 4)
unfolding insert_field
mpie_clear v =
    let same = bit_or-zero (bit_and v (not64 mstatus_mpie)) in
    let a = and_above 7 v (not64 mstatus_mpie) in
    let b = and_above 11 v (not64 mstatus_mpie) in
    rw same (
      ground (arith, a, bit_and_digit (halves 7 v) (2 ^ 57 - 2)),
      ground (
        arith,
        b,
        bit_and_digit (halves 11 v) (2 ^ 53 - 1),
        bit_and_digit (halves 11 v / 2) (2 ^ 52 - 1),
      ),
    )

all_bytes : log2roundup (2 ^ 64 - 1) ≡ 64
unfolding log2roundup log2_loop
all_bytes = refl

addr_ones : pmp_addr 64 0 ≡ 2 ^ 64 - 1
unfolding pmp_addr
addr_ones = refl

-- The second byte of the configuration: a region of a power of 2, with all three rights.
cfg_byte : (old : ℕ) → halves 8 (pmp_cfg 1 64 pmp_rwx old) % 2 ^ 8 ≡ 0x1f
unfolding pmp_cfg
cfg_byte old =
    let mask = 2 ^ 64 - 1 - 0xff00 in
    let a = or_above 8 (bit_and old mask) 0x1f00 in
    let b = and_above 8 old mask in
    let c = bit_and_high 8 (halves 8 old) (2 ^ 48 - 1) in
    let d = bit_or_low 8 (bit_and (halves 8 old / 2 ^ 8) (2 ^ 48 - 1)) 0x1f (omega arith) in
    ap (λ x. x % 2 ^ 8) (a ∙ ap (λ x. bit_or x 0x1f) (b ∙ c) ∙ d) ∙ omega arith

and_one : (a m : ℕ) → m % 2 ≡ 1 → bit_and a m ≡ bit_and (a / 2) (m / 2) * 2 + a % 2
and_one a m one = omega (arith, bit_and_digit a m)

or_one : (a m : ℕ) → m % 2 ≡ 0 → bit_or a m ≡ bit_or (a / 2) (m / 2) * 2 + a % 2
or_one a m even = omega (arith, bit_or_digit a m)

-- The first byte, and those from the third on, stay.
and_first : (a : ℕ) → bit_and a (2 ^ 64 - 1 - 0xff00) % 2 ^ 8 ≡ a % 2 ^ 8
and_first a = omega (
  arith,
  and_one (a) (2 ^ 64 - 1 - 0xff00) refl,
  and_one (a / 2) (2 ^ 63 - 1 - 0x7f80) refl,
  and_one (a / 2 / 2) (2 ^ 62 - 1 - 0x3fc0) refl,
  and_one (a / 2 / 2 / 2) (2 ^ 61 - 1 - 0x1fe0) refl,
  and_one (a / 2 / 2 / 2 / 2) (2 ^ 60 - 1 - 0xff0) refl,
  and_one (a / 2 / 2 / 2 / 2 / 2) (2 ^ 59 - 1 - 0x7f8) refl,
  and_one (a / 2 / 2 / 2 / 2 / 2 / 2) (2 ^ 58 - 1 - 0x3fc) refl,
  and_one (a / 2 / 2 / 2 / 2 / 2 / 2 / 2) (2 ^ 57 - 1 - 0x1fe) refl,
)

or_first : (a : ℕ) → bit_or a 0x1f00 % 2 ^ 8 ≡ a % 2 ^ 8
or_first a = omega (
  arith,
  or_one (a) 0x1f00 refl,
  or_one (a / 2) 0xf80 refl,
  or_one (a / 2 / 2) 0x7c0 refl,
  or_one (a / 2 / 2 / 2) 0x3e0 refl,
  or_one (a / 2 / 2 / 2 / 2) 0x1f0 refl,
  or_one (a / 2 / 2 / 2 / 2 / 2) 0xf8 refl,
  or_one (a / 2 / 2 / 2 / 2 / 2 / 2) 0x7c refl,
  or_one (a / 2 / 2 / 2 / 2 / 2 / 2 / 2) 0x3e refl,
)

cfg_first : (old : ℕ) → pmp_cfg 1 64 pmp_rwx old % 2 ^ 8 ≡ old % 2 ^ 8
unfolding pmp_cfg
cfg_first old = or_first (bit_and old (2 ^ 64 - 1 - 0xff00)) ∙ and_first old

cfg_later : (old : ℕ) → old < 2 ^ 64 → halves 16 (pmp_cfg 1 64 pmp_rwx old) ≡ halves 16 old
unfolding pmp_cfg
cfg_later old fits =
    let mask = 2 ^ 64 - 1 - 0xff00 in
    or_above 16 (bit_and old mask) 0x1f00
    ∙ bit_or-zero (halves 16 (bit_and old mask))
    ∙ and_above 16 old mask
    ∙ bit_and_low 48 (halves 16 old)
    ∙ omega arith

-- The registers of the memory protection after the call.
region_regs :
    (f : Firmware) (a : ℕ)
    → (sbi_set_pmp 1 0 (2 ^ 64 - 1) pmp_rwx f.pmp).1 a ≡ (
        if a == 0x3a0
        then pmp_cfg 1 64 pmp_rwx (f.pmp 0x3a0)
        else if a == 0x3b1
        then pmp_addr 64 0
        else f.pmp a)
region_regs f a =
    let two : 2 ≤ log2roundup (2 ^ 64 - 1) = omega (arith, all_bytes) in
    (sbi_set_pmp-region 1 0 (2 ^ 64 - 1) pmp_rwx f.pmp a (omega arith) two).1
    ∙ ap
        (λ n.
          if a == 0x3a0
          then pmp_cfg 1 n pmp_rwx (f.pmp 0x3a0)
          else if a == 0x3b1
          then pmp_addr n 0
          else f.pmp a)
        all_bytes

-- What the kernel finds: it runs in S mode behind `mret`, without interrupts and translation, its
-- region of the memory protection has all addresses, the other regions are as before, and it gets
-- the exceptions that it handles, but not its own calls.
pub record Entered (vector : ℕ) (f f' : Firmware) : Type 0 where
  pub mode : f'.mstatus / 2 ^ 11 % 4 ≡ prv_s
  pub masked : f'.mstatus / 2 ^ 7 % 2 ≡ 0
  pub entry : f'.mepc ≡ fw_jump_addr
  pub vectors : (f'.mtvec ≡ vector) × (f'.stvec ≡ fw_jump_addr)
  pub quiet : (f'.sie ≡ 0) × (f'.satp ≡ 0) × (f'.machine.mie ≡ 0)
  pub region : f'.pmp 0x3b1 ≡ 2 ^ 64 - 1
  pub rights : f'.pmp 0x3a0 / 2 ^ 8 % 2 ^ 8 ≡ 0x1f
  pub first_region : f'.pmp 0x3a0 % 2 ^ 8 ≡ f.pmp 0x3a0 % 2 ^ 8
  pub later_regions : f'.pmp 0x3a0 / 2 ^ 16 ≡ f.pmp 0x3a0 / 2 ^ 16
  pub others : (a : ℕ) → a ≢ 0x3a0 → a ≢ 0x3b1 → f'.pmp a ≡ f.pmp a
  pub delegated :
      All {A = ℕ}
        (λ e. f'.machine.medeleg / 2 ^ e % 2 ≡ 1)
        (8 ∷ 10 ∷ 12 ∷ 13 ∷ 15 ∷ 20 ∷ 21 ∷ 23 ∷ [])
  pub own_calls : f'.machine.medeleg / 2 ^ 9 % 2 ≡ 0

-- `sbi_main`, whatever the registers hold before, in their 64 bits: behind its `mret` the kernel
-- runs in S mode at its first address with interrupts and translation off; the second region of the
-- memory protection has been set, to all addresses for reading, writing and execution, and the
-- configuration and the addresses of all other regions are as before; user calls, page faults of all kinds and the calls and page faults of guests are
-- delegated to the kernel, and its own calls are not.
pub sbi_main-Entered :
    (vector : ℕ) (f : Firmware) → f.pmp 0x3a0 < 2 ^ 64 → Entered vector f (sbi_main vector f)
unfolding sbi_main sbi_trap_init delegate_traps
sbi_main-Entered vector f fits = record {
  mode =
      omega (arith, (mpie_clear (insert_field f.mstatus mstatus_mpp prv_s)).1, mpp_set f.mstatus);
  masked = omega (arith, (mpie_clear (insert_field f.mstatus mstatus_mpp prv_s)).0);
  entry = refl;
  vectors = (refl, refl);
  quiet = (refl, refl, refl);
  region = region_regs f 0x3b1 ∙ addr_ones;
  rights =
      ap (λ c. c / 2 ^ 8 % 2 ^ 8) (region_regs f 0x3a0) ∙ omega (arith, cfg_byte (f.pmp 0x3a0));
  first_region = ap (λ c. c % 2 ^ 8) (region_regs f 0x3a0) ∙ cfg_first (f.pmp 0x3a0);
  later_regions =
      ap (λ c. c / 2 ^ 16) (region_regs f 0x3a0) ∙ omega (arith, cfg_later (f.pmp 0x3a0) fits);
  others = λ a ne ne'. region_regs f a ∙ ground arith;
  delegated = (refl, (refl, (refl, (refl, (refl, (refl, (refl, (refl, tt))))))));
  own_calls = refl;
}
