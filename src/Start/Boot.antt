-- ===== src/Start/Boot.antt =====
-- The start of benos/src/kernel.c, from the image as it is loaded to the endless loop.
use risc_v_lab.Base.{
  ℕ, ◌+◌, ◌^◌, ◌≤◌, ◌<◌, ◌≡◌, ◌≢◌, ◌∙◌, sym, ap, refl, arith, if◌then◌else◌, Bool, true, some, [],
  ◌∷◌, bit_or, u64,
}
use mathlib.Core.Path.{subst}
use risc_v_lab.Base.Int.{pos}
use risc_v_lab.ListHead.Ring.{IsRing}
use risc_v_lab.PageAlloc.{PageAlloc, MemReport, mem_init, get_free_page, ddr_end, nr_pages}
use risc_v_lab.Sched.{running}
use risc_v_lab.Sched.Queue.{IsQueue}
use risc_v_lab.Sched.Reset.{task_links}
use risc_v_lab.Kernel.{Layout, Kernel, irq_enable, task, sr_sie}
use risc_v_lab.Kernel.Schedule.{sched_init, wake_up_process}
use risc_v_lab.Kernel.Switch.{is_first_run}
use risc_v_lab.Kernel.Fork.{
  find_empty_task, do_fork, pf_kthread, start_child, init_child, copy_thread, clear_task,
}
use risc_v_lab.Kernel.Fork.Created.{Created, do_fork-Created, do_fork-some}
use risc_v_lab.Kernel.Timer.{timer_init, reset_timer}
use risc_v_lab.Mmu.{Mmu, paging_init}
use risc_v_lab.Walk.{walk_pgtable}
use risc_v_lab.Walk.Mapping.{found}
use risc_v_lab.Walk.Devices.{Spends, is_mmio, identity, paging_init-identity}
use risc_v_lab.Start.{Linked, Start, clean_bss, start_devices, kernel_main}
use risc_v_lab.Start.Image.{
  all_free, free_pages-replicate, sched_init-IsQueue, IsImage, start, cleaned, mem0, mem_init-runs,
  mem0-IsEmptyDir, new_page-low, new_page-IsFresh,
}

-- What the start leaves behind.
pub record Booted (qemu : Bool) (i : Linked) (cycles : ℕ) (s s' : Start) : Type 0 where
  -- The devices, and nothing else, are mapped, each page to itself.
  pub devices :
      (va : ℕ)
      → va < 2 ^ 39
      → found (walk_pgtable i.sections.idmap_pg_dir va s'.machine.mem) s'.machine.mem
        ≡ (if is_mmio qemu va then identity va else 0)
  -- The task `p` has number 1, lies in the RAM behind the image, has not run yet, is listed and is ready to run.
  pub p : ℕ
  pub behind : i.end_image ≤ p
  pub in_ram : p + 4096 ≤ ddr_end
  pub number : (task s'.machine.kernel p).pid ≡ pos 1
  pub runs : (task s'.machine.kernel p).state ≡ running
  pub queue : IsQueue i.layout.rq_head s'.machine.kernel.sched (p ∷ [])
  pub tasks : IsRing (task_links s'.machine.kernel.sched.tasks) i.layout.init_task (p ∷ [])
  pub starts : is_first_run i.layout (task s'.machine.kernel p).cpu_context ≡ true
  -- Both tasks can be preempted.
  pub count : (task s'.machine.kernel p).preempt_count ≡ pos 0
  pub first_count : (task s'.machine.kernel i.layout.init_task).preempt_count ≡ pos 0
  pub current : s'.machine.kernel.current ≡ i.layout.init_task
  -- Interrupts are on, and the first one of the timer comes after a hundredth of a second.
  pub irqs : s'.machine.kernel.sstatus ≡ bit_or s.machine.kernel.sstatus sr_sie
  pub tick : s'.machine.timer.timer_cmp ≡ u64 (cycles + 100000)

do_fork-sstatus :
    (l : Layout) (flags fn arg pid : ℕ) (k : Kernel)
    → (get_free_page k.alloc).0 ≢ 0
    → find_empty_task k ≡ some pid
    → (do_fork l flags fn arg k).1.sstatus ≡ k.sstatus
unfolding start_child wake_up_process init_child copy_thread clear_task
do_fork-sstatus l flags fn arg pid k page slot =
    ap (λ r. r.1.sstatus) (do_fork-some l flags fn arg pid k page slot)

module _ (qemu : Bool) (i : Linked) (cycles : ℕ) (s : Start) (h : IsImage i s) where
  -- The kernel's state before the first fork.
  abbrev before_fork : PageAlloc → Kernel
  before_fork a = sched_init i.layout (record ((cleaned i s h).machine.kernel) { alloc = a })

  fork_runs :
      (m : Mmu)
      → Spends 37 (mem0 i s h) m
      → (k' : Kernel) × (do_fork i.layout pf_kthread i.vs_thread 0 (before_fork m.alloc)
          ≡ (some 1, k'))
        × Created i.layout (before_fork m.alloc) (get_free_page m.alloc).0 1 [] [] k'
        × (i.end_image ≤ (get_free_page m.alloc).0)
        × (k'.sstatus ≡ s.machine.kernel.sstatus)
  unfolding sched_init clean_bss find_empty_task
  fork_runs m spent =
      let k = before_fork m.alloc in
      let (behind, fresh) = new_page-IsFresh i s h m k spent h.current in
      let (k', runs, forked) =
        do_fork-Created i.layout pf_kthread i.vs_thread 0 1 k [] [] fresh h.table
          (sched_init-IsQueue i.layout
            (record ((cleaned i s h).machine.kernel) { alloc = m.alloc }))
          (omega arith) h.listed in
      (
        k',
        runs,
        forked,
        behind,
        sym (ap (λ r. r.1.sstatus) runs)
            ∙ do_fork-sstatus i.layout pf_kthread i.vs_thread 0 1 k fresh.not_null h.table,
      )

  -- `kernel_main` from its parts.
  main_runs :
      (report : MemReport) (m : Mmu) (k' : Kernel)
      → mem_init i.end_image ddr_end (cleaned i s h).machine.kernel.alloc
        ≡ some (report, all_free nr_pages (start i s h))
      → paging_init qemu i.sections (mem0 i s h) ≡ some m
      → do_fork i.layout pf_kthread i.vs_thread 0 (before_fork m.alloc) ≡ (some 1, k')
      → kernel_main qemu i cycles s
        ≡ some (some 1, start_devices qemu i cycles (cleaned i s h) m k')
  unfolding kernel_main start_devices
  main_runs report m k' e1 e2 e3 = rw (kernel_main, e1, e2, e3) refl

  booted :
      (m : Mmu) (k' : Kernel)
      → Created i.layout (before_fork m.alloc) (get_free_page m.alloc).0 1 [] [] k'
      → k'.sstatus ≡ s.machine.kernel.sstatus
      → i.end_image ≤ (get_free_page m.alloc).0
      → (get_free_page m.alloc).0 + 4096 ≤ ddr_end
      → ((va : ℕ)
          → va < 2 ^ 39
          → found (walk_pgtable i.sections.idmap_pg_dir va m.mem) m.mem
            ≡ (if is_mmio qemu va then identity va else 0))
      → Booted qemu i cycles s (start_devices qemu i cycles (cleaned i s h) m k')
  unfolding start_devices irq_enable timer_init reset_timer sched_init clean_bss
  booted m k' f same behind low devices = record {
    devices = devices;
    p = (get_free_page m.alloc).0;
    behind = behind;
    in_ram = low;
    number = f.number;
    runs = f.runs;
    queue = f.queue;
    tasks = f.tasks;
    starts = f.child_first;
    count = f.child_count;
    first_count =
        subst (λ q. (task k' q).preempt_count ≡ pos 0) h.current
          (f.parent_count
            ∙ subst (λ q. (task s.machine.kernel q).preempt_count ≡ pos 0) (sym h.current) h.count);
    current = f.parent ∙ h.current;
    irqs = ap (λ x. bit_or x sr_sie) same;
    tick = refl;
  }

-- The kernel starts. From an image whose directory is empty, which ends in the RAM with 39 pages to
-- spare, and whose first task is alone and can be preempted, `kernel_main` reaches its endless loop:
-- the devices of the board, and nothing else below 2 ^ 39, are mapped, each page to itself; the task
-- of the guest has been created with number 1, in a page of the RAM behind the image, will start in
-- the start routine, and is the only one of the run queue and, with the first task, of the task
-- list; both tasks can be preempted; interrupts are on; and the timer is set to a hundredth of a second after the reading of the clock.
pub kernel_main-Booted :
    (qemu : Bool) (i : Linked) (cycles : ℕ) (s : Start)
    → IsImage i s
    → (s' : Start) × (kernel_main qemu i cycles s ≡ some (some 1, s')) × Booted qemu i cycles s s'
kernel_main-Booted qemu i cycles s h =
    let (report, e1) = mem_init-runs i s h in
    let (m, e2, role, tree, spent, devices) =
      paging_init-identity qemu i.sections (mem0 i s h) (mem0-IsEmptyDir i s h)
        (omega (arith, free_pages-replicate nr_pages)) in
    let (k', e3, forked, behind, same) = fork_runs qemu i cycles s h m spent in
    (
      start_devices qemu i cycles (clean_bss i s) m k',
      main_runs qemu i cycles s h report m k' e1 e2 e3,
      booted qemu i cycles s h m k' forked same behind (new_page-low i s h m spent) devices,
    )
