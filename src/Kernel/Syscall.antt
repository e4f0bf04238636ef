-- ===== src/Kernel/Syscall.antt =====
-- The system calls of benos/src/syscall.c and benos/src/fs.c. `regs` is the address of a trap frame.
-- A `long` is kept as its 64 bits, so -1 is 2 ^ 64 - 1.
pub mod Cases
pub mod Handler
use risc_v_lab.Base.{
  ℕ, zero, suc, ◌+◌, ◌-◌, ◌^◌, ◌%◌, ◌==◌, if◌then◌else◌, Bool, ltb, leb, ◌||◌, Option, none, some,
  List, [], ◌∷◌, get_elem?,
}
use risc_v_lab.PageAlloc.{get_free_page}
use risc_v_lab.Kernel.{PtRegs, Layout, Kernel}
use risc_v_lab.Kernel.Fork.{put_regs, do_fork}

abbrev pub minus_one : ℕ
minus_one = 2 ^ 64 - 1

abbrev pub nr_syscalls : ℕ
nr_syscalls = 6

abbrev pub SyscallFn : Type 0
SyscallFn = ℕ → Kernel → ℕ × Kernel

unfoldable pub sys_ni_syscall : SyscallFn
sys_ni_syscall regs k = (minus_one, k)

-- sys_open, sys_close, sys_read and sys_write only print their names.
unfoldable pub sys_open : SyscallFn
sys_open regs k = (0, k)

unfoldable pub sys_close : SyscallFn
sys_close regs k = (0, k)

unfoldable pub sys_read : SyscallFn
sys_read regs k = (0, k)

unfoldable pub sys_write : SyscallFn
sys_write regs k = (0, k)

-- The result of `do_fork` as a `long`.
unfoldable pub pid_result : Option ℕ → ℕ
pid_result none = minus_one
pid_result (some pid) = pid

unfoldable pub sys_clone : Layout → SyscallFn
sys_clone l regs k =
    let (pid, k') = do_fork l (k.regs regs).a0 (k.regs regs).a1 (k.regs regs).a2 k in
    (pid_result pid, k')

unfoldable pub sys_malloc : SyscallFn
sys_malloc regs k =
    let (addr, alloc) = get_free_page k.alloc in
    let k1 = record k { alloc = alloc } in (if addr == 0 then minus_one else addr, k1)

unfoldable pub syscall_table : Layout → List SyscallFn
syscall_table l = sys_open ∷ sys_close ∷ sys_read ∷ sys_write ∷ sys_clone l ∷ sys_malloc ∷ []

-- The number is an `int`, given by its 32 bits: from 2 ^ 31 on it is negative. `none` is a call
-- through a place outside the table, which is undefined.
unfoldable pub call_table : ℕ → ℕ → List SyscallFn → ℕ → Kernel → Option (ℕ × Kernel)
call_table syscall_no syscall_nr table regs k =
    if leb (2 ^ 31) syscall_no || ltb syscall_no syscall_nr
    then (elim (if leb (2 ^ 31) syscall_no then none else get_elem? table syscall_no) [
      | none ↦ none
      | some fn ↦ some (fn regs k)
    ])
    else some (sys_ni_syscall regs k)

unfoldable pub invoke_syscall : ℕ → ℕ → ℕ → List SyscallFn → Kernel → Option Kernel
invoke_syscall regs syscall_no syscall_nr table k =
    elim (call_table syscall_no syscall_nr table regs k) [
      | none ↦ none
      | some (ret, k1) ↦ some (put_regs regs (record (k1.regs regs) { a0 = ret }) k1)
    ]

-- riscv_syscall_common
unfoldable pub syscall_common : ℕ → ℕ → ℕ → List SyscallFn → Kernel → Option Kernel
syscall_common regs syscall_no syscall_nr table k =
    invoke_syscall regs syscall_no syscall_nr table
      (put_regs regs (record (k.regs regs) { orig_a0 = (k.regs regs).a0 }) k)

-- riscv_svc_handler
unfoldable pub svc_handler : Layout → ℕ → Kernel → Option Kernel
svc_handler l regs k =
    syscall_common regs ((k.regs regs).a7 % 2 ^ 32) nr_syscalls (syscall_table l) k
