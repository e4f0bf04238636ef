-- ===== src/Lib.antt =====
-- A verification library for benos, the small RISC-V kernel of this repository. The code is C for
-- 64 bits; an address is a number below 2 ^ 64, and arithmetic on `unsigned long` wraps by
-- `% 2 ^ 64`.
--
-- The parts and the files that model them:
-- - Mm: the page macros of benos/include/mm.h.
-- - PageAlloc: benos/src/page_alloc.c. The record `PageAlloc` holds the static variables; `mem_init`,
--   `get_free_page` and `free_page` have the names of the source. PageAlloc/Clients models callers
--   that take pages and give pages back, as a step relation.
-- - ListHead: benos/include/list.h. The memory is a function from addresses to nodes; `__list_add`
--   and `__list_del` are `list_add'` and `list_del'`. `IsRing` relates the memory to the sequence
--   of entries that a circular list stands for.
-- - Sched: benos/src/sched_simple.c with the types of benos/include/sched.h. `Sched` holds the list
--   heads, the other fields of the tasks, and the run queue `g_rq`.
-- - Kernel: benos/src/sched.c and benos/src/fork.c, which share the state `Kernel`: the scheduler's
--   state, `current` (the register tp), the callee-saved registers of the CPU, sstatus, the trap
--   frames, the page allocator and the table of tasks. `cpu_switch_to` is the routine of
--   benos/src/entry.S. `__schedule` is `schedule'`; of the stack of a task that is switched out the
--   model keeps in `callers` whether it returns to `schedule` or to `preempt_schedule_irq`, which end
--   in different ways. The task queue changes through Sched, pages come from PageAlloc.
-- - Pgtable: the entries of benos/include/asm/pgtable.h and pgtable_hwdef.h; `PAGE_READ_EXEC` and
--   `PAGE_WRITE_EXEC` are `prot_read_exec` and `prot_write_exec`.
-- - Mmu: benos/src/mmu.c, with a memory of 64-bit words and the page allocator as its state `Mmu`.
--   `__create_pgd_mapping` is `create_pgd_mapping`; the allocator of tables is an argument of it, as
--   in the source. Mmu/Guest has benos/src/stage2_mmu.c and benos/virt/vs_mmu.c, whose copies of the
--   functions of mmu.c are modelled once.
-- - Walk: `walk_pgtable` of benos/src/kernel.c, and what the tables of Mmu map. `IsTree` is the shape
--   of the tables: each page in use has one role, the directory, the table under one of its entries,
--   or a table under one of those. `entry_for` is the mapping that the tables stand for, and `Maps`
--   how a call changes it. Walk/Supply is the interface to the allocator of tables.
-- - Kallsyms: benos/src/kallsyms.c; the tables that the build generates are the record `Tables`.
-- - Kernel/Syscall: benos/src/syscall.c and benos/src/fs.c; `riscv_svc_handler` is `svc_handler` and
--   `riscv_syscall_common` is `syscall_common`. Undefined behaviour (a call through memory outside
--   the table) is `none`.
-- - Kernel/Timer: benos/src/timer.c; the functions keep their names without the prefix `riscv_`, and
--   `riscv_vcpu_timer_init` is `vcpu_timer_init'`. The readings of the clock are arguments.
-- - Plic: benos/src/plic.c. The registers of the device are words by address; what the claim
--   register reads is an argument.
-- - Trap: benos/src/trap.c, which joins the system calls, the timer, the interrupt controller and the
--   tables for guests. `Machine` is the state of all of them, `Readings` is what the code reads from
--   the hardware, and an `Outcome` is a return or a panic, after which nothing comes.
-- - Vs: the guest's exceptions and timer, benos/virt/vs_trap.c and benos/virt/vs_timer.c. Its calls of
--   the host are kept as numbers with arguments; `reset_timer` is `vs_reset_timer`.
-- - Printk: benos/lib/printk.c. A text is the list of its bytes. Printk has the formatting of
--   numbers (`number`, `scan_number`), Printk/Conversions the parser of a conversion, Printk/Format
--   the rest of `myprintf`, and Printk/Console the buffer of early messages (`printk`,
--   `init_printk_done`) with `memcpy` of benos/lib/string.c. `SIGN` is `sign_flag`.
-- - Memset: benos/src/memset.c, over a memory of bytes; `__memset` is `memset`.
-- - Dump: benos/src/dump_pgtable.c; a walk is the list of its calls of `print_pgtable`.
-- - Stack: benos/src/stacktrace.c; a walk is the list of what it prints.
-- - LockFree: others/atomic/example_14_10_free_lock_list.c; a thread is at a `Place` of its
--   function and makes one access to the shared memory in a step.
-- - Uart: benos/src/uart.c. The writes to the device are kept in order; the readings of the line
--   status are arguments.
-- - Start: `kernel_main` of benos/src/kernel.c, which puts the parts together; what it prints is left
--   out. `Linked` holds the addresses that the linker chooses.
-- - Exercises: the other functions of benos/src/kernel.c, a table of function names and copies and
--   updates in assembly. `my_memcpy_asm_test1` and its copy are `my_memcpy`.
-- - Sbi: the firmware of benos/sbi (sbi_lib.c, sbi_timer.c, sbi_trap.c and sbi_main.c), over
--   the control registers it reads and writes.
-- - Base: numbers, bits, the `int` of C (unbounded, since its overflow is undefined), lists.
-- - Tests: the theorems and the operations at concrete inputs.
--
-- Loops over linked memory run on fuel and have `none` for a lack of it; the theorems say how much
-- is enough, which is the length of the list and one more. `pick_next_task` allows three passes of
-- the search, of which two are used.
--
-- The loops of the page tables run on fuel too: 2 ^ 18 rounds, the pages of 1 GB, where the kernel
-- maps its devices and a guest's page.
--
-- The search of Kallsyms runs on the number of symbols and one more; the expansion of a name on the
-- length of its longest token and one more.
--
-- The digits of a number have fuel for 64 rounds, since each halves it at least; the loop of
-- `myprintf` has one round for each byte of the format and one more; the walk of `dump_pgtable` has
-- the pages of its range; the walk over frames 2 ^ 59 and one, as each frame takes 16 bytes.
--
-- The memory keeps list heads, task fields and trap frames apart; that they do not overlap is an
-- assumption of the model. The addresses that the linker chooses are the record `Layout`.
-- Not modelled: the serial port of the firmware; what show_regs, print_symbol and `kernel_main`
-- print; where pointers wrap round the end of the addresses; vs_main.c and vmm.c of the guest;
-- the assembly of entry.S but for `cpu_switch_to`; the start in assembly; benos/scripts, and the
-- other exercises in others. A cleared page or frame of PageAlloc, Kernel and Mmu is written as
-- such and not by `memset`.
pub mod Base
pub mod Mm
pub mod PageAlloc
pub mod ListHead
pub mod Pgtable
pub mod Mmu
pub mod Kallsyms
pub mod Dump
pub mod LockFree
pub mod Memset
pub mod Plic
pub mod Printk
pub mod Sbi
pub mod Sched
pub mod Kernel
pub mod Trap
pub mod Vs
pub mod Walk
pub mod Uart
pub mod Start
pub mod Exercises
pub mod Stack
pub mod Tests
