-- ===== src/Kernel/Syscall/Cases.antt =====
-- The cases of the number in `riscv_svc_handler` of benos/src/syscall.c.
use risc_v_lab.Base.{
  ℕ, zero, suc, ◌↔◌, ◌^◌, ◌%◌, ◌≤◌, ◌<◌, ◌≡◌, arith, refl, ◌==◌, ◌||◌, if◌then◌else◌, true, false,
  leb, ltb, none, some, List,
}
use native.Mathlib.Decide.{dec_lt}
use risc_v_lab.Kernel.{Layout, Kernel}
use risc_v_lab.Kernel.Fork.{put_regs}
use risc_v_lab.Kernel.Syscall.{
  minus_one, nr_syscalls, SyscallFn, sys_ni_syscall, sys_clone, sys_open, sys_close, sys_read,
  sys_write, sys_malloc, syscall_table, call_table, invoke_syscall, syscall_common, svc_handler,
}

-- The number of the call, and the frame with the argument saved.
abbrev pub number : ℕ → Kernel → ℕ
number regs k = (k.regs regs).a7 % 2 ^ 32

abbrev pub saved : ℕ → Kernel → Kernel
saved regs k = put_regs regs (record (k.regs regs) { orig_a0 = (k.regs regs).a0 }) k

abbrev pub with_result : ℕ → ℕ × Kernel → Kernel
with_result regs r = put_regs regs (record (r.1.regs regs) { a0 = r.0 }) r.1

call_unknown :
    (n : ℕ) (table : List SyscallFn) (regs : ℕ) (k : Kernel)
    → 6 ≤ n
    → n < 2 ^ 31
    → call_table n nr_syscalls table regs k ≡ some (minus_one, k)
unfolding call_table sys_ni_syscall
call_unknown n table regs k above fits =
    let outside : (leb (2 ^ 31) n || ltb n 6) ≡ false = ground arith in rw outside refl

call_negative :
    (n : ℕ) (table : List SyscallFn) (regs : ℕ) (k : Kernel)
    → 2 ^ 31 ≤ n
    → call_table n nr_syscalls table regs k ≡ none
unfolding call_table
call_negative n table regs k negative =
    let below : leb (2 ^ 31) n ≡ true = ground arith in rw below refl

-- `riscv_svc_handler` with a number that is neither negative as an `int` nor in the table writes -1
-- to a0 of the frame and the old a0 to orig_a0, and changes nothing else.
svc_handler-unknown :
    (l : Layout) (regs : ℕ) (k : Kernel)
    → 6 ≤ number regs k
    → number regs k < 2 ^ 31
    → svc_handler l regs k ≡ some (with_result regs (minus_one, saved regs k))
unfolding svc_handler syscall_common invoke_syscall
svc_handler-unknown l regs k above fits =
    let called = call_unknown (number regs k) (syscall_table l) regs (saved regs k) above fits in
    rw (called, invoke_syscall)

svc_handler-negative :
    (l : Layout) (regs : ℕ) (k : Kernel) → 2 ^ 31 ≤ number regs k → svc_handler l regs k ≡ none
unfolding svc_handler syscall_common invoke_syscall
svc_handler-negative l regs k negative =
    let called = call_negative (number regs k) (syscall_table l) regs (saved regs k) negative in
    rw (called, invoke_syscall)

-- The function of the table for a number below 6.
abbrev pub syscall_at : Layout → ℕ → SyscallFn
syscall_at l n regs k =
    if n == 4 then sys_clone l regs k else if n == 5 then sys_malloc regs k else (0, k)

call_known :
    (l : Layout) (n regs : ℕ) (k : Kernel)
    → n < 6
    → call_table n nr_syscalls (syscall_table l) regs k ≡ some (syscall_at l n regs k)
unfolding call_table syscall_table sys_open sys_close sys_read sys_write
call_known l zero regs k h = refl
call_known l (suc zero) regs k h = refl
call_known l (suc (suc zero)) regs k h = refl
call_known l (suc (suc (suc zero))) regs k h = refl
call_known l (suc (suc (suc (suc zero)))) regs k h = refl
call_known l (suc (suc (suc (suc (suc zero))))) regs k h = refl
call_known l (suc (suc (suc (suc (suc (suc n)))))) regs k h = absurd (omega arith)

svc_handler-known :
    (l : Layout) (regs : ℕ) (k : Kernel)
    → number regs k < 6
    → svc_handler l regs k
      ≡ some (with_result regs (syscall_at l (number regs k) regs (saved regs k)))
unfolding svc_handler syscall_common invoke_syscall
svc_handler-known l regs k below =
    let called = call_known l (number regs k) regs (saved regs k) below in
    rw (called, invoke_syscall)

not_served :
    (l : Layout) (regs : ℕ) (k : Kernel) → svc_handler l regs k ≡ none → 2 ^ 31 ≤ number regs k
not_served l regs k undefined = elim (dec_lt (number regs k) 6) [
  | yes below ↦ let called = svc_handler-known l regs k below in cc
  | no above ↦ elim (dec_lt (number regs k) (2 ^ 31)) [
    | yes fits ↦ let called = svc_handler-unknown l regs k (omega arith) fits in cc
    | no negative ↦ omega arith
  ]
]

-- `riscv_svc_handler` on every number, as its low 32 bits, after the old a0 has been written to
-- orig_a0: below 6 it calls the function of the number and writes its result to a0; from 6 on, while
-- the number is not negative as an `int`, it writes -1 to a0 and changes nothing else; and the call
-- is undefined for exactly the negative numbers, which pass the test against the size of the table.
pub svc_handler-cases :
    (l : Layout) (regs : ℕ) (k : Kernel)
    → (number regs k < 6
        → svc_handler l regs k
          ≡ some (with_result regs (syscall_at l (number regs k) regs (saved regs k))))
      × (6 ≤ number regs k
          → number regs k < 2 ^ 31
          → svc_handler l regs k ≡ some (with_result regs (minus_one, saved regs k)))
      × ((svc_handler l regs k ≡ none) ↔ (2 ^ 31 ≤ number regs k))
svc_handler-cases l regs k = (
  svc_handler-known l regs k,
  svc_handler-unknown l regs k,
  (not_served l regs k, svc_handler-negative l regs k),
)
