-- ===== src/Kernel/Fork.antt =====
-- benos/src/fork.c: creating tasks and entering user space.
pub mod TaskTable
pub mod SetLinks
pub mod DoFork
pub mod Created
pub mod Forked
use risc_v_lab.Base.{
  ℕ, zero, suc, ◌+◌, ◌-◌, ◌/◌, ◌^◌, ◌==◌, bit_and, bit_or, if◌then◌else◌, Bool, true, false, Option,
  none, some, List, [], ◌∷◌, set, u64, not64,
}
use risc_v_lab.Base.Int.{ℤ, pos, negsuc, ◌+ℤ◌}
use risc_v_lab.ListHead.{ListNode, Nodes}
use risc_v_lab.PageAlloc.{PageAlloc, get_free_page}
use risc_v_lab.Sched.{CpuContext, running, TaskStruct, Tasks, put_task, Sched, run_list}
use risc_v_lab.Kernel.{PtRegs, pt_regs_size, thread_size, Layout, Kernel, task, set_tasks}
use risc_v_lab.Kernel.Schedule.{wake_up_process}

-- The loop of `find_empty_task` from index `i` on; a NULL entry is 0.
unfoldable pub find_empty : ℕ → List ℕ → Option ℕ
find_empty i [] = none
find_empty i (t ∷ ts) = if t == 0 then some i else find_empty (i + 1) ts

-- -1 is `none`.
unfoldable pub find_empty_task : Kernel → Option ℕ
unfolding find_empty
find_empty_task k = find_empty 0 k.g_task

unfoldable pub task_pt_regs : ℕ → ℕ
task_pt_regs tsk = u64 (tsk + thread_size - pt_regs_size)

abbrev pub zero_regs : PtRegs
zero_regs = record {
  sepc = 0;
  ra = 0;
  sp = 0;
  gp = 0;
  tp = 0;
  t0 = 0;
  t1 = 0;
  t2 = 0;
  s0 = 0;
  s1 = 0;
  a0 = 0;
  a1 = 0;
  a2 = 0;
  a3 = 0;
  a4 = 0;
  a5 = 0;
  a6 = 0;
  a7 = 0;
  s2 = 0;
  s3 = 0;
  s4 = 0;
  s5 = 0;
  s6 = 0;
  s7 = 0;
  s8 = 0;
  s9 = 0;
  s10 = 0;
  s11 = 0;
  t3 = 0;
  t4 = 0;
  t5 = 0;
  t6 = 0;
  sstatus = 0;
  sbadaddr = 0;
  scause = 0;
  hstatus = 0;
  orig_a0 = 0;
}

abbrev pub zero_context : CpuContext
zero_context = record { ra = 0; sp = 0; s = λ i. 0 }

-- A task whose bytes are all 0.
abbrev pub zero_task : TaskStruct
zero_task = record {
  cpu_context = zero_context;
  preempt_count = pos 0;
  need_resched = pos 0;
  kernel_sp = 0;
  user_sp = 0;
  state = running;
  flags = 0;
  pid = pos 0;
  counter = pos 0;
  priority = pos 0;
  next_task = 0;
  prev_task = 0;
}

abbrev pub pf_kthread : ℕ
pf_kthread = 1

-- SR_SPP | SR_SPIE
abbrev pub sr_spp : ℕ
sr_spp = 0x100

abbrev pub sr_spie : ℕ
sr_spie = 0x20

abbrev pub put_regs : ℕ → PtRegs → Kernel → Kernel
put_regs a r k = record k { regs = λ b. if b == a then r else k.regs b }

-- A kernel thread's frame: `childregs` after the `memset`, with gp and sstatus.
abbrev pub kthread_regs : Layout → PtRegs
kthread_regs l = record zero_regs { gp = l.gp; sstatus = bit_or sr_spp sr_spie }

-- A user thread's frame: the parent's, with result 0 and, if one is given, its own stack.
abbrev pub clone_regs : ℕ → PtRegs → PtRegs
clone_regs usr_sp parent =
    let child = record parent { a0 = 0 } in
    if usr_sp == 0 then child else record child { sp = usr_sp }

abbrev pub kthread_s : ℕ → ℕ → ℕ → ℕ
kthread_s fn arg zero = 0
kthread_s fn arg (suc zero) = fn
kthread_s fn arg (suc (suc zero)) = arg
kthread_s fn arg (suc (suc (suc i))) = 0

-- `copy_thread` always succeeds.
unfoldable pub copy_thread : Layout → ℕ → ℕ → ℕ → ℕ → Kernel → Kernel
unfolding put_task task_pt_regs
copy_thread l clone_flags p fn arg k =
    let childregs = task_pt_regs p in
    let kthread = bit_and clone_flags pf_kthread == 1 in
    let regs =
      if kthread then kthread_regs l else clone_regs fn (k.regs (task_pt_regs k.current)) in
    let context : CpuContext = record {
      ra = if kthread then l.ret_from_kernel_thread else l.ret_from_fork;
      sp = childregs;
      s = if kthread then kthread_s fn arg else (λ i. 0);
    } in
    let t = task k p in
    put_regs childregs regs
      (set_tasks (put_task p (record t { cpu_context = context }) k.sched.tasks) k)

-- x >> 1 on `int`
unfoldable pub half : ℤ → ℤ
half (pos n) = pos (n / 2)
half (negsuc n) = negsuc (n / 2)

-- SET_LINKS
unfoldable pub set_links : ℕ → ℕ → Tasks → Tasks
unfolding put_task
set_links init_task p ts =
    let ts1 = put_task p (record (ts p) { next_task = init_task }) ts in
    let last = (ts1 init_task).prev_task in
    let ts2 = put_task p (record (ts1 p) { prev_task = last }) ts1 in
    let last' = (ts2 init_task).prev_task in
    let ts3 = put_task last' (record (ts2 last') { next_task = p }) ts2 in
    put_task init_task (record (ts3 init_task) { prev_task = p }) ts3

-- memset(p, 0, sizeof(*p))
unfoldable pub clear_task : ℕ → Kernel → Kernel
unfolding put_task
clear_task p k = record k {
  sched = record (k.sched) {
    tasks = put_task p zero_task k.sched.tasks;
    nodes = λ a. if a == run_list p then record { next = 0; prev = 0 } else k.sched.nodes a;
  };
}

-- The assignments to the child's and the parent's fields.
unfoldable pub init_child : ℕ → ℕ → Kernel → Kernel
unfolding put_task half ◌+ℤ◌
init_child p pid k =
    let parent = task k k.current in
    let child = record (task k p) {
      state = running;
      pid = pos pid;
      counter = half (parent.counter +ℤ pos 1);
    } in
    let ts = put_task p child k.sched.tasks in
    let ts' =
      put_task k.current (record (ts k.current) { counter = half (ts k.current).counter }) ts in
    let child' = record (ts' p) { need_resched = pos 0; preempt_count = pos 0; priority = pos 2 } in
    set_tasks (put_task p child' ts') k

-- The rest of `do_fork`, once there is a page `p` and a free number `pid`.
unfoldable pub start_child : Layout → ℕ → ℕ → Kernel → Kernel
start_child l p pid k =
    let k1 = init_child p pid k in
    let k2 = record k1 { total_forks = u64 (k1.total_forks + 1); g_task = set k1.g_task pid p } in
    wake_up_process l p (set_tasks (set_links l.init_task p k2.sched.tasks) k2)

-- `none` is the result -1. No error path gives the page back.
unfoldable pub do_fork : Layout → ℕ → ℕ → ℕ → Kernel → Option ℕ × Kernel
do_fork l clone_flags fn arg k =
    let (p, alloc) = get_free_page k.alloc in
    let k1 = record k { alloc = alloc } in
    if p == 0
    then (none, k1)
    else (let k2 = clear_task p k1 in
        elim (find_empty_task k2) [
          | none ↦ (none, k2)
          | some pid ↦ (some pid, start_child l p pid (copy_thread l clone_flags p fn arg k2))
        ])

-- `memset`, and then pc, sp and the sstatus of the CPU without SPP.
unfoldable pub start_user_thread : ℕ → ℕ → ℕ → Kernel → Kernel
start_user_thread regs pc sp k =
    put_regs regs
      (record zero_regs { sepc = pc; sp = sp; sstatus = bit_and k.sstatus (not64 sr_spp) }) k

-- The flag is false for the result -1. The new stack's bytes are not modelled.
unfoldable pub move_to_user_space : ℕ → Kernel → Bool × Kernel
unfolding start_user_thread task_pt_regs
move_to_user_space pc k =
    let (stack, alloc) = get_free_page k.alloc in
    let k1 = record k { alloc = alloc } in
    if stack == 0
    then (false, k1)
    else (true, start_user_thread (task_pt_regs k.current) pc (u64 (stack + 4096)) k1)
