-- ===== src/Tests/Start.antt =====
-- `kernel_main` of benos/src/kernel.c at a concrete image.
use risc_v_lab.Base.{◌≡◌, refl, arith, ◌==◌, if◌then◌else◌, true, false, some, [], ◌∷◌}
use risc_v_lab.Base.Int.{pos}
use risc_v_lab.Sched.{Tasks}
use risc_v_lab.Sched.Reset.{task_links}
use risc_v_lab.ListHead.Ring.{IsRing}
use risc_v_lab.Kernel.{by_schedule}
use risc_v_lab.Kernel.Fork.{zero_task, zero_context, zero_regs, find_empty_task}
use risc_v_lab.Start.{Linked, Start, kernel_main}
use risc_v_lab.Start.Image.{IsImage}
use risc_v_lab.Start.Boot.{Booted, kernel_main-Booted}

abbrev linked : Linked
linked = record {
  bss = 0x80220000;
  ebss = 0x80228000;
  end_image = 0x80228000;
  do_exception_vector = 0x80201000;
  vs_thread = 0x80202000;
  sections = record { idmap_pg_dir = 0x80218000; text_boot = 0x80200000; etext = 0x80208000 };
  layout = record {
    rq_head = 0x80221000;
    init_task = 0x80210000;
    ret_from_kernel_thread = 0x80200100;
    ret_from_fork = 0x80200200;
    gp = 0;
  };
}

-- INIT_TASK, and memory that is zero.
abbrev tasks : Tasks
tasks = λ q.
    if q == 0x80210000
    then record zero_task {
      flags = 1;
      counter = pos 10;
      priority = pos 10;
      next_task = 0x80210000;
      prev_task = 0x80210000;
    }
    else zero_task

abbrev image : Start
image = record {
  machine = record {
    kernel = record {
      sched = record {
        nodes = λ a. record { next = 0; prev = 0 };
        tasks = tasks;
        rq = record { nr_running = 0; nr_switches = 0; curr = 0 };
      };
      current = 0x80210000;
      cpu = zero_context;
      sstatus = 0x100;
      regs = λ a. zero_regs;
      alloc = record { mem_map = []; phy_start_address = 0 };
      g_task = 0x80210000 ∷ 0 ∷ 0 ∷ [];
      total_forks = 0;
      messages = [];
      callers = λ q. by_schedule;
    };
    mem = λ a. 0;
    timer = record {
      jiffies = 0;
      vcpu_time_delta = 0;
      vcpu_next_cycle = 0;
      vcpu_timer_init = false;
      hvip = 0;
      htimedelta = 0;
      sie = 0;
      timer_cmp = 0;
    };
    plic = record { device = λ a. 0; sie = 0; uart_calls = 0; completed = [] };
    guest_writes = [];
  };
  csrs = record { hedeleg = 0; hideleg = 0; hvip = 0; sscratch = 0; stvec = 0; sie = 0 };
  uart = record { readings = []; writes = [] };
}

image-listed : IsRing (task_links tasks) 0x80210000 []
image-listed = record { chain = (refl, refl); distinct = (refl, tt) }

image-slot : find_empty_task image.machine.kernel ≡ some 1
unfolding find_empty_task
image-slot = refl

image-IsImage : IsImage linked image
image-IsImage = record {
  directory = (omega arith, refl, omega arith);
  in_image = omega arith;
  in_ram = omega arith;
  empty = λ x hx. refl;
  queue_head = omega arith;
  first_task = omega arith;
  current = refl;
  listed = image-listed;
  count = refl;
  table = image-slot;
}

kernel_main-Booted_example :
    (s' : Start) × (kernel_main true linked 5000 image ≡ some (some 1, s'))
    × Booted true linked 5000 image s'
kernel_main-Booted_example = kernel_main-Booted true linked 5000 image image-IsImage
