-- ===== src/Trap/Dispatch.antt =====
-- The causes that `do_exception` of benos/src/trap.c does not handle.
use risc_v_lab.Base.{
  ℕ, ◌%◌, ◌^◌, ◌<◌, ◌==◌, false, leb, bit_and, some, get_elem?_of_lt, ◌≡◌, ◌≢◌, refl, arith,
}
use risc_v_lab.Base.Bits.{bit_and_low}
use risc_v_lab.Kernel.{Layout}
use risc_v_lab.Mmu.Guest.{GuestLayout}
use risc_v_lab.Trap.{
  Machine, Readings, Fault, fault_info, panics, ec_to_fault_info, exception, do_exception,
}

ec_to_fault_info-some : (scause : ℕ) → (f : Fault) × (ec_to_fault_info scause ≡ some f)
unfolding ec_to_fault_info
ec_to_fault_info-some scause =
    let low = bit_and_low 4 (scause % 2 ^ 32) in
    let (f, e) = get_elem?_of_lt fault_info (bit_and (scause % 2 ^ 32) 15) (omega arith) in (f, e)

-- An exception other than a call of a user program or of a guest and other than the three faults of
-- a guest's page ends in a panic that names an entry of `fault_info`, whatever the number is: the
-- lookup stays inside the table, and nothing is changed before.
pub do_exception-panics :
    (l : Layout) (g : GuestLayout) (r : Readings) (regs scause : ℕ) (m : Machine)
    → scause < 2 ^ 63
    → scause ≢ 8
    → scause ≢ 10
    → scause ≢ 0x14
    → scause ≢ 0x15
    → scause ≢ 0x17
    → (f : Fault) × (do_exception l g r regs scause m ≡ some (panics (some f) m))
unfolding do_exception exception
do_exception-panics l g r regs scause m fits user guest fetch load store =
    let (f, e) = ec_to_fault_info-some scause in
    let no_interrupt : leb (2 ^ 63) scause ≡ false = ground arith in
    let no_user : (scause == 8) ≡ false = ground arith in
    let no_guest : (scause == 10) ≡ false = ground arith in
    let no_fetch : (scause == 0x14) ≡ false = ground arith in
    let no_load : (scause == 0x15) ≡ false = ground arith in
    let no_store : (scause == 0x17) ≡ false = ground arith in
    (f, rw (no_interrupt, no_user, no_guest, no_fetch, no_load, no_store, e) refl)
