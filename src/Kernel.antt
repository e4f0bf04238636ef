-- ===== src/Kernel.antt =====
-- The state that benos/src/sched.c and benos/src/fork.c share: the tasks with the run queue, the
-- CPU's registers that these files save, restore or write, the trap frames (`struct pt_regs`), the
-- page allocator and the table of tasks.
pub mod Schedule
pub mod Fork
pub mod Switch
pub mod Scheduled
pub mod Progress
pub mod Syscall
pub mod Timer
use risc_v_lab.Base.{
  ℕ, suc, ◌+◌, ◌-◌, ◌^◌, ◌*◌, ◌%◌, ◌==◌, bit_and, bit_or, if◌then◌else◌, Bool, List, u64, not64,
}
use risc_v_lab.Base.Int.{ℤ}
use risc_v_lab.PageAlloc.{PageAlloc}
use risc_v_lab.Sched.{CpuContext, TaskStruct, Tasks, Sched}

-- struct pt_regs of include/asm/ptregs.h, which takes 296 bytes.
pub record PtRegs : Type 0 where
  pub sepc : ℕ
  pub ra : ℕ
  pub sp : ℕ
  pub gp : ℕ
  pub tp : ℕ
  pub t0 : ℕ
  pub t1 : ℕ
  pub t2 : ℕ
  pub s0 : ℕ
  pub s1 : ℕ
  pub a0 : ℕ
  pub a1 : ℕ
  pub a2 : ℕ
  pub a3 : ℕ
  pub a4 : ℕ
  pub a5 : ℕ
  pub a6 : ℕ
  pub a7 : ℕ
  pub s2 : ℕ
  pub s3 : ℕ
  pub s4 : ℕ
  pub s5 : ℕ
  pub s6 : ℕ
  pub s7 : ℕ
  pub s8 : ℕ
  pub s9 : ℕ
  pub s10 : ℕ
  pub s11 : ℕ
  pub t3 : ℕ
  pub t4 : ℕ
  pub t5 : ℕ
  pub t6 : ℕ
  pub sstatus : ℕ
  pub sbadaddr : ℕ
  pub scause : ℕ
  pub hstatus : ℕ
  pub orig_a0 : ℕ

abbrev pub pt_regs_size : ℕ
pt_regs_size = 296

abbrev pub thread_size : ℕ
thread_size = 4096

-- The two `BUG` messages of sched.c.
pub data Message : Type 0 where
  scheduling_while_atomic : ℤ → ℤ → Message
  incorrect_preempt_count : ℤ → Message

-- Addresses that the linker chooses, and the register `gp`, which no code here changes.
pub record Layout : Type 0 where
  pub rq_head : ℕ
  pub init_task : ℕ
  pub ret_from_kernel_thread : ℕ
  pub ret_from_fork : ℕ
  pub gp : ℕ

-- The two calls of `__schedule`.
pub data Caller : Type 0 where
  by_schedule by_preempt_schedule_irq : Caller

-- `current` is the register tp, `cpu` are ra, sp and s0 to s11. For a task that has been switched
-- out, `callers` is what its stack says: the function to which `__schedule` will return.

pub record Kernel : Type 0 where
  pub sched : Sched
  pub current : ℕ
  pub cpu : CpuContext
  pub sstatus : ℕ
  pub regs : ℕ → PtRegs
  pub alloc : PageAlloc
  pub g_task : List ℕ
  pub total_forks : ℕ
  pub messages : List Message
  pub callers : ℕ → Caller

abbrev pub sr_sie : ℕ
sr_sie = 2

-- raw_local_irq_enable and raw_local_irq_disable
unfoldable pub irq_enable : Kernel → Kernel
irq_enable k = record k { sstatus = bit_or k.sstatus sr_sie }

unfoldable pub irq_disable : Kernel → Kernel
irq_disable k = record k { sstatus = bit_and k.sstatus (not64 sr_sie) }

-- The fields of the task at `p`.
abbrev pub task : Kernel → ℕ → TaskStruct
task k p = k.sched.tasks p

abbrev pub set_tasks : Tasks → Kernel → Kernel
set_tasks ts k = record k { sched = record (k.sched) { tasks = ts } }
