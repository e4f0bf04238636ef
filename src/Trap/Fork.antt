-- ===== src/Trap/Fork.antt =====
-- A clone from user space, from the trap on (benos/src/trap.c, benos/src/syscall.c, benos/src/fork.c).
use risc_v_lab.Base.{
  ℕ, ◌+◌, ◌^◌, ◌%◌, ◌==◌, true, bit_and, u64, some, ◌≡◌, ◌≢◌, ◌∙◌, ap, refl, arith,
}
use risc_v_lab.PageAlloc.{get_free_page}
use risc_v_lab.Kernel.{PtRegs, Layout, Kernel}
use risc_v_lab.Kernel.Fork.{task_pt_regs, find_empty_task}
use risc_v_lab.Kernel.Syscall.{svc_handler}
use risc_v_lab.Kernel.Syscall.Handler.{ReturnsTwice, svc_handler-ReturnsTwice}
use risc_v_lab.Kernel.Syscall.Cases.{number}
use risc_v_lab.Mmu.Guest.{GuestLayout}
use risc_v_lab.Trap.{Machine, Readings, returns, skip_ecall, exception, do_exception}

eq_self : (n : ℕ) → (n == n) ≡ true
eq_self n = ground arith

-- The frame behind the ecall.
behind : ℕ → Kernel → PtRegs
behind regs k = record (k.regs regs) { sepc = u64 ((k.regs regs).sepc + 4) }

skip_ecall-frame : (regs : ℕ) (k : Kernel) → (skip_ecall regs k).regs regs ≡ behind regs k
unfolding skip_ecall behind
skip_ecall-frame regs k = rw (eq_self regs) refl

find_empty_task-skip_ecall :
    (regs : ℕ) (k : Kernel) → find_empty_task (skip_ecall regs k) ≡ find_empty_task k
unfolding skip_ecall find_empty_task
find_empty_task-skip_ecall regs k = refl

-- Both tasks go on behind the ecall.
pub record GoOn (regs p : ℕ) (k k' : Kernel) : Type 0 where
  pub parent : (k'.regs regs).sepc ≡ u64 ((k.regs regs).sepc + 4)
  pub child : (k'.regs (task_pt_regs p)).sepc ≡ u64 ((k.regs regs).sepc + 4)
  pub parent_sp : (k'.regs regs).sp ≡ (k.regs regs).sp

module _ (l : Layout) (g : GuestLayout) (r : Readings) (regs pid : ℕ) (m : Machine) where
  ReturnsTwice-GoOn :
      (p usr_sp : ℕ) (k' : Kernel)
      → ReturnsTwice regs p pid usr_sp (skip_ecall regs m.kernel) k'
      → GoOn regs p m.kernel k'
  unfolding behind
  ReturnsTwice-GoOn p usr_sp k' twice =
      let frame = skip_ecall-frame regs m.kernel in
      record {
        parent = ap (λ (t : PtRegs). t.sepc) twice.parent ∙ ap (λ (t : PtRegs). t.sepc) frame;
        child = twice.child_pc ∙ ap (λ (t : PtRegs). t.sepc) frame;
        parent_sp = ap (λ (t : PtRegs). t.sp) twice.parent ∙ ap (λ (t : PtRegs). t.sp) frame;
      }

  exception-svc :
      (k' : Kernel)
      → svc_handler l regs (skip_ecall regs m.kernel) ≡ some k'
      → do_exception l g r regs 8 m ≡ some (returns (record m { kernel = k' }))
  unfolding do_exception exception
  exception-svc k' runs = rw runs refl

-- A trap of a user program by an ecall whose frame asks for a clone (number 4, the frame at the top
-- of the current task's stack, flags that do not ask for a kernel thread), with a free page whose
-- frame is another one and a free entry in the table of tasks: `do_exception` returns, only the
-- kernel's state changes, the parent's frame has the child's number and the child's frame 0 as the
-- result, and both go on behind the ecall.
pub do_exception-fork :
    (l : Layout) (g : GuestLayout) (r : Readings) (regs pid : ℕ) (m : Machine)
    → number regs m.kernel ≡ 4
    → regs ≡ task_pt_regs m.kernel.current
    → bit_and (m.kernel.regs regs).a0 1 ≡ 0
    → (get_free_page m.kernel.alloc).0 ≢ 0
    → task_pt_regs (get_free_page m.kernel.alloc).0 ≢ regs
    → find_empty_task m.kernel ≡ some pid
    → (k' : Kernel) × (do_exception l g r regs 8 m ≡ some (returns (record m { kernel = k' })))
      × ((k'.regs regs).a0 ≡ pid)
      × ((k'.regs (task_pt_regs (get_free_page m.kernel.alloc).0)).a0 ≡ 0)
      × GoOn regs (get_free_page m.kernel.alloc).0 m.kernel k'
unfolding skip_ecall behind
do_exception-fork l g r regs pid m clone frame user page_found apart slot =
    let k1 = skip_ecall regs m.kernel in
    let same = skip_ecall-frame regs m.kernel in
    let (k', runs, twice) =
      svc_handler-ReturnsTwice l regs pid k1 (ap (λ (t : PtRegs). t.a7 % 2 ^ 32) same ∙ clone) frame
        (ap (λ (t : PtRegs). bit_and t.a0 1) same ∙ user) page_found apart
        (find_empty_task-skip_ecall regs m.kernel ∙ slot) in
    (
      k',
      exception-svc l g r regs pid m k' runs,
      ap (λ (t : PtRegs). t.a0) twice.parent,
      twice.child_result,
      ReturnsTwice-GoOn l g r regs pid m (get_free_page m.kernel.alloc).0 (k1.regs regs).a1 k'
          twice,
    )
