-- ===== src/Kernel/Syscall/Handler.antt =====
-- A clone through `riscv_svc_handler` of benos/src/syscall.c.
use risc_v_lab.Base.{
  ℕ, ◌≡◌, ◌≢◌, ◌∙◌, ap, sym, arith, refl, ◌==◌, if◌then◌else◌, true, false, Bool-cases, inl, inr,
  some, bit_and,
}
use risc_v_lab.PageAlloc.{PageAlloc, get_free_page}
use risc_v_lab.Kernel.{PtRegs, Layout, Kernel}
use risc_v_lab.Kernel.Fork.{
  put_regs, clone_regs, find_empty_task, task_pt_regs, copy_thread, clear_task, init_child,
  start_child, do_fork,
}
use risc_v_lab.Kernel.Fork.Created.{after, do_fork-some}
use risc_v_lab.Kernel.Schedule.{wake_up_process}
use risc_v_lab.Kernel.Syscall.{
  nr_syscalls, pid_result, sys_clone, syscall_table, call_table, invoke_syscall, syscall_common,
  svc_handler,
}
use risc_v_lab.Kernel.Syscall.Cases.{number, saved, with_result}

-- The fork contract, in the state `k'` after a clone of the frame at `regs` with the stack `usr_sp`
-- into the task at `p`: the parent sees the child's number, the child sees 0, and the child goes on
-- at the same place, on its own stack if one was given.
pub record ReturnsTwice (regs p pid usr_sp : ℕ) (k k' : Kernel) : Type 0 where
  pub parent : k'.regs regs ≡ record (k.regs regs) { a0 = pid; orig_a0 = (k.regs regs).a0 }
  pub child_result : (k'.regs (task_pt_regs p)).a0 ≡ 0
  pub child_pc : (k'.regs (task_pt_regs p)).sepc ≡ (k.regs regs).sepc
  pub child_sp : (k'.regs (task_pt_regs p)).sp ≡ (if usr_sp == 0 then (k.regs regs).sp else usr_sp)

call_clone :
    (l : Layout) (n regs : ℕ) (k : Kernel)
    → n ≡ 4
    → call_table n nr_syscalls (syscall_table l) regs k ≡ some (sys_clone l regs k)
unfolding call_table syscall_table
call_clone l n regs k e = rw e refl

clone_pid :
    (l : Layout) (regs pid : ℕ) (k k' : Kernel)
    → do_fork l (k.regs regs).a0 (k.regs regs).a1 (k.regs regs).a2 k ≡ (some pid, k')
    → sys_clone l regs k ≡ (pid, k')
unfolding sys_clone pid_result
clone_pid l regs pid k k' e = rw e refl

find_empty_task-saved : (regs : ℕ) (k : Kernel) → find_empty_task (saved regs k) ≡ find_empty_task k
unfolding find_empty_task
find_empty_task-saved regs k = refl

eq_self : (n : ℕ) → (n == n) ≡ true
eq_self n = ground arith

-- The frames after a clone of `k` into the task at `p`.
after-child :
    (l : Layout) (flags p pid fn arg : ℕ) (k : Kernel) (a : PageAlloc)
    → bit_and flags 1 ≡ 0
    → (after l flags p pid fn arg k a).regs (task_pt_regs p)
      ≡ clone_regs fn (k.regs (task_pt_regs k.current))
unfolding start_child wake_up_process init_child copy_thread clear_task
after-child l flags p pid fn arg k a user = rw (eq_self (task_pt_regs p), user) refl

after-other :
    (l : Layout) (flags p pid fn arg : ℕ) (k : Kernel) (a : PageAlloc) (frame : ℕ)
    → frame ≢ task_pt_regs p
    → (after l flags p pid fn arg k a).regs frame ≡ k.regs frame
unfolding start_child wake_up_process init_child copy_thread clear_task
after-other l flags p pid fn arg k a frame ne =
    let apart : (frame == task_pt_regs p) ≡ false = ground arith in rw apart refl

clone_regs_lem :
    (usr_sp : ℕ) (r : PtRegs)
    → ((clone_regs usr_sp r).a0 ≡ 0)
      × ((clone_regs usr_sp r).sepc ≡ r.sepc)
      × ((clone_regs usr_sp r).sp ≡ (if usr_sp == 0 then r.sp else usr_sp))
clone_regs_lem usr_sp r = elim (Bool-cases (usr_sp == 0)) [
  | inl kept ↦ (rw kept refl, rw kept refl, rw kept refl)
  | inr other ↦ (rw other refl, rw other refl, rw other refl)
]

put_regs-same : (a : ℕ) (r : PtRegs) (k : Kernel) → (put_regs a r k).regs a ≡ r
put_regs-same a r k = rw (eq_self a) refl

put_regs-other : (a b : ℕ) (r : PtRegs) (k : Kernel) → b ≢ a → (put_regs a r k).regs b ≡ k.regs b
put_regs-other a b r k ne = let apart : (b == a) ≡ false = ground arith in rw apart refl

module _ (l : Layout) (regs pid : ℕ) (k : Kernel) where
  abbrev page : ℕ
  page = (get_free_page k.alloc).0

  abbrev forked_state : Kernel
  forked_state =
      after l (k.regs regs).a0 page pid (k.regs regs).a1 (k.regs regs).a2 (saved regs k)
        (get_free_page k.alloc).1

  abbrev parent_frame : PtRegs
  parent_frame = record (k.regs regs) { orig_a0 = (k.regs regs).a0 }

  saved-frame : (saved regs k).regs regs ≡ parent_frame
  saved-frame = put_regs-same regs parent_frame k

  child-frame :
      regs ≡ task_pt_regs k.current
      → bit_and (k.regs regs).a0 1 ≡ 0
      → task_pt_regs page ≢ regs
      → (with_result regs (pid, forked_state)).regs (task_pt_regs page)
        ≡ clone_regs (k.regs regs).a1 parent_frame
  child-frame frame user apart =
      put_regs-other regs (task_pt_regs page) (record (forked_state.regs regs) { a0 = pid })
        forked_state apart
      ∙ after-child l (k.regs regs).a0 page pid (k.regs regs).a1 (k.regs regs).a2 (saved regs k)
          (get_free_page k.alloc).1 user
      ∙ ap (λ a. clone_regs (k.regs regs).a1 ((saved regs k).regs a)) (sym frame)
      ∙ ap (clone_regs (k.regs regs).a1) saved-frame

  forked-ReturnsTwice :
      regs ≡ task_pt_regs k.current
      → bit_and (k.regs regs).a0 1 ≡ 0
      → task_pt_regs page ≢ regs
      → ReturnsTwice regs page pid (k.regs regs).a1 k (with_result regs (pid, forked_state))
  forked-ReturnsTwice frame user apart =
      let child = child-frame frame user apart in
      let fields = clone_regs_lem (k.regs regs).a1 parent_frame in
      record {
        parent =
            put_regs-same regs (record (forked_state.regs regs) { a0 = pid }) forked_state
            ∙ ap (λ (r : PtRegs). record r { a0 = pid })
                (after-other l (k.regs regs).a0 page pid (k.regs regs).a1 (k.regs regs).a2
                    (saved regs k) (get_free_page k.alloc).1 regs (λ e. apart (sym e))
                  ∙ saved-frame);
        child_result = ap (λ (r : PtRegs). r.a0) child ∙ fields.0;
        child_pc = ap (λ (r : PtRegs). r.sepc) child ∙ fields.1;
        child_sp = ap (λ (r : PtRegs). r.sp) child ∙ fields.2;
      }

-- A clone from user space returns twice: with call number 4 in the frame at the top of the current
-- task's stack, flags that do not ask for a kernel thread, a free page whose frame is another one,
-- and a free entry in the table of tasks, `riscv_svc_handler` returns, and leaves the parent's and
-- the child's frames as the fork contract says.
pub svc_handler-ReturnsTwice :
    (l : Layout) (regs pid : ℕ) (k : Kernel)
    → number regs k ≡ 4
    → regs ≡ task_pt_regs k.current
    → bit_and (k.regs regs).a0 1 ≡ 0
    → (get_free_page k.alloc).0 ≢ 0
    → task_pt_regs (get_free_page k.alloc).0 ≢ regs
    → find_empty_task k ≡ some pid
    → (k' : Kernel) × (svc_handler l regs k ≡ some k')
      × ReturnsTwice regs (get_free_page k.alloc).0 pid (k.regs regs).a1 k k'
unfolding svc_handler syscall_common invoke_syscall
svc_handler-ReturnsTwice l regs pid k clone frame user page_found apart slot =
    let forks : do_fork l (k.regs regs).a0 (k.regs regs).a1 (k.regs regs).a2 (saved regs k)
        ≡ (some pid, forked_state l regs pid k) =
      do_fork-some l (k.regs regs).a0 (k.regs regs).a1 (k.regs regs).a2 pid (saved regs k)
        page_found (find_empty_task-saved regs k ∙ slot) in
    let same = saved-frame l regs pid k in
    let called : call_table (number regs k) nr_syscalls (syscall_table l) regs (saved regs k)
        ≡ some (pid, forked_state l regs pid k) =
      call_clone l (number regs k) regs (saved regs k) clone
      ∙ ap some (
          clone_pid l regs pid (saved regs k) (forked_state l regs pid k)
            (ap (λ (r : PtRegs). do_fork l r.a0 r.a1 r.a2 (saved regs k)) same ∙ forks)) in
    (_, rw (called, invoke_syscall), forked-ReturnsTwice l regs pid k frame user apart)
