-- ===== src/Tests/Kernel.antt =====
-- benos/src/sched.c and benos/src/fork.c with the two tasks of the run queue of `Tests.Sched`: the
-- first runs, the second was switched out.
use risc_v_lab.Base.{
  ◌⊎◌, inl, inr, ℕ, zero, suc, ◌^◌, ◌<◌, ◌≤◌, ◌↔◌, ◌==◌, if◌then◌else◌, ◌≡◌, ◌≢◌, refl, none, some,
  List, [], ◌∷◌, arith,
}
use risc_v_lab.PageAlloc.{get_free_page}
use risc_v_lab.Kernel.{Layout, by_schedule, by_preempt_schedule_irq, Kernel}
use risc_v_lab.Kernel.Schedule.{schedule, preempt_schedule_irq}
use risc_v_lab.Kernel.Switch.{IsBalanced, Scheduled}
use risc_v_lab.Kernel.Progress.{schedule-Scheduled}
use risc_v_lab.Base.{◌⊎◌, inl, inr, false}
use risc_v_lab.Kernel.Syscall.{minus_one, svc_handler}
use risc_v_lab.Kernel.Syscall.Cases.{number, saved, with_result, syscall_at, svc_handler-cases}
use risc_v_lab.Kernel.Timer.{Timer}
use risc_v_lab.Kernel.Fork.{task_pt_regs, zero_regs, find_empty_task, do_fork}
use risc_v_lab.Kernel.Fork.TaskTable.{IsEmptySlot}
use risc_v_lab.Kernel.Fork.Created.{IsFresh}
use risc_v_lab.Kernel.Fork.Forked.{Forked, do_fork-Forked, do_fork-table_full}
use risc_v_lab.Tests.Sched.{queued, state, tasks-IsReady, state-IsQueue}

abbrev pub layout : Layout
layout = record {
  rq_head = 256;
  init_task = 4096;
  ret_from_kernel_thread = 0x80200100;
  ret_from_fork = 0x80200200;
  gp = 0;
}

abbrev kernel : List ℕ → Kernel
kernel table = record {
  sched = state;
  current = 8192;
  cpu = record { ra = 0x80202000; sp = 0x3000; s = λ i. 0 };
  sstatus = 0x122;
  regs = λ a. zero_regs;
  alloc = record { mem_map = 0 ∷ 0 ∷ []; phy_start_address = 0x80210000 };
  g_task = table;
  total_forks = 2;
  messages = [];
  callers = λ q. if q == 12288 then by_preempt_schedule_irq else by_schedule;
}

abbrev running_kernel : Kernel
running_kernel = kernel (4096 ∷ 8192 ∷ 12288 ∷ 0 ∷ 0 ∷ [])

abbrev full_kernel : Kernel
full_kernel = kernel (4096 ∷ 8192 ∷ 12288 ∷ [])

-- The tasks of the system.
abbrev IsTask : ℕ → Type 0
IsTask q = (q ≡ 4096) ⊎ (q ≡ 8192) ⊎ (q ≡ 12288)

kernel-IsBalanced : (table : List ℕ) → IsBalanced IsTask layout (kernel table)
kernel-IsBalanced table = record { runs = refl; rest = λ q known ne. ground arith }

page-IsFresh : IsFresh layout running_kernel (get_free_page running_kernel.alloc).0 queued queued
unfolding get_free_page
page-IsFresh = record {
  fits = omega arith;
  not_null = ground arith;
  not_current = ground arith;
  not_queued = refl;
  node = refl;
  not_listed = refl;
}

slot_free : find_empty_task running_kernel ≡ some 3
unfolding find_empty_task
slot_free = refl

no_slot : (j : ℕ) → ¬ IsEmptySlot full_kernel.g_task j
no_slot zero f = ground arith
no_slot (suc zero) f = ground arith
no_slot (suc (suc zero)) f = ground arith
no_slot (suc (suc (suc j))) f = ground arith

schedule-Scheduled_example :
    ((k' : Kernel) × (schedule layout 3 running_kernel ≡ some k')
      × Scheduled IsTask layout by_schedule running_kernel queued k')
    × ((k' : Kernel) × (preempt_schedule_irq layout 3 running_kernel ≡ some k')
        × Scheduled IsTask layout by_preempt_schedule_irq running_kernel queued k')
schedule-Scheduled_example =
    schedule-Scheduled IsTask layout 3 running_kernel queued queued (tasks-IsReady 3 7)
      (kernel-IsBalanced running_kernel.g_task) (inr (inl refl), (inr (inr refl), tt)) refl refl
      (omega arith) (omega arith)

do_fork-Forked_example :
    (k' : Kernel) × (do_fork layout 1 0x80203000 0 running_kernel ≡ (some 3, k'))
    × Forked IsTask layout running_kernel (get_free_page running_kernel.alloc).0 3 queued queued k'
    × (k'.alloc ≡ (get_free_page running_kernel.alloc).1)
do_fork-Forked_example =
    do_fork-Forked IsTask layout 1 0x80203000 0 3 running_kernel queued queued page-IsFresh
      slot_free state-IsQueue (omega arith) (tasks-IsReady 3 7).tasks
      (kernel-IsBalanced running_kernel.g_task)

full_page : (get_free_page full_kernel.alloc).0 ≢ 0
unfolding get_free_page
full_page = ground arith

do_fork-table_full_example :
    ((do_fork layout 1 0x80203000 0 full_kernel).0 ≡ none)
    × ((do_fork layout 1 0x80203000 0 full_kernel).1.alloc ≡ (get_free_page full_kernel.alloc).1)
    × ((do_fork layout 1 0x80203000 0 full_kernel).1.g_task ≡ full_kernel.g_task)
    × ((do_fork layout 1 0x80203000 0 full_kernel).1.sched.rq ≡ full_kernel.sched.rq)
do_fork-table_full_example = do_fork-table_full layout 1 0x80203000 0 full_kernel full_page no_slot

-- A clone by the running task, whose frame lies at the top of its stack.
abbrev pub clone_kernel : Kernel
clone_kernel = record running_kernel {
  regs = λ a. record zero_regs { sepc = 0x1000; sp = 0x2000; a1 = 0x5000; a7 = 4 };
}

pub clone_slot : find_empty_task clone_kernel ≡ some 3
unfolding find_empty_task
clone_slot = refl

pub frame_here : 11992 ≡ task_pt_regs clone_kernel.current
unfolding task_pt_regs
frame_here = refl

pub frame_apart : task_pt_regs (get_free_page clone_kernel.alloc).0 ≢ 11992
unfolding task_pt_regs get_free_page
frame_apart = ground arith

pub clone_page : (get_free_page clone_kernel.alloc).0 ≢ 0
unfolding get_free_page
clone_page = ground arith

abbrev call_kernel : ℕ → Kernel
call_kernel n = record running_kernel { regs = λ a. record zero_regs { a0 = 7; a7 = n } }

svc_handler-cases_example :
    (number 11992 (call_kernel 9) < 6
      → svc_handler layout 11992 (call_kernel 9)
        ≡ some (
            with_result 11992 (
              syscall_at layout
                (number 11992 (call_kernel 9))
                11992
                (saved 11992 (call_kernel 9)))))
    × (6 ≤ number 11992 (call_kernel 9)
        → number 11992 (call_kernel 9) < 2 ^ 31
        → svc_handler layout 11992 (call_kernel 9)
          ≡ some (with_result 11992 (minus_one, saved 11992 (call_kernel 9))))
    × ((svc_handler layout 11992 (call_kernel 9) ≡ none) ↔ (2 ^ 31 ≤ number 11992 (call_kernel 9)))
svc_handler-cases_example = svc_handler-cases layout 11992 (call_kernel 9)

abbrev pub timer : Timer
timer = record {
  jiffies = 0;
  vcpu_time_delta = 0;
  vcpu_next_cycle = 0;
  vcpu_timer_init = false;
  hvip = 0x40;
  htimedelta = 0;
  sie = 0;
  timer_cmp = 0;
}
