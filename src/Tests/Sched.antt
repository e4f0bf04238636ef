-- ===== src/Tests/Sched.antt =====
-- benos/src/sched_simple.c at a queue of two tasks.
use risc_v_lab.Base.{ℕ, ◌≡◌, ◌≢◌, refl, ◌==◌, if◌then◌else◌, Option, some, List, [], ◌∷◌, arith}
use mathlib.Core.Option
use risc_v_lab.Base.Int.{ℤ, pos}
use risc_v_lab.ListHead.{Nodes}
use risc_v_lab.Sched.{
  CpuContext, running, TaskStruct, Tasks, Sched, pick_next_task_simple, enqueue_task_simple,
  dequeue_task_simple,
}
use risc_v_lab.Sched.Ready.{IsReady}
use risc_v_lab.Sched.Passes.{Picked, pick_next_task_simple-Picked}
use risc_v_lab.Sched.Queue.{IsQueue, enqueue_task_simple-IsQueue, dequeue_task_simple-IsQueue}
use risc_v_lab.Sched.Tick.{ticks, ticks_lem}

-- Tasks at 8192 and 12288, the initial task at 4096, and the run queue's head at 256.
abbrev pub nodes : Nodes
nodes a =
    if a == 256
    then record { next = 8344; prev = 12440 }
    else if a == 8344
    then record { next = 12440; prev = 256 }
    else record { next = 256; prev = 8344 }

abbrev switched_out : CpuContext
switched_out = record { ra = 0x80201000; sp = 0; s = λ i. 0 }

abbrev pub a_task : ℤ → ℤ → ℕ → ℕ → TaskStruct
a_task count slice next prev = record {
  cpu_context = switched_out;
  preempt_count = count;
  need_resched = pos 1;
  kernel_sp = 0;
  user_sp = 0;
  state = running;
  flags = 0;
  pid = pos 1;
  counter = slice;
  priority = pos 2;
  next_task = next;
  prev_task = prev;
}

abbrev pub tasks : ℤ → ℤ → Tasks
tasks a b q =
    if q == 8192
    then a_task (pos 0) a 12288 4096
    else if q == 12288
    then a_task (pos 1) b 4096 8192
    else a_task (pos 1) (pos 0) 8192 12288

abbrev pub queued : List ℕ
queued = 8192 ∷ 12288 ∷ []

abbrev pub state : Sched
state = record {
  nodes = nodes;
  tasks = tasks (pos 3) (pos 7);
  rq = record { nr_running = 2; nr_switches = 0; curr = 0 };
}

pub tasks-IsReady : (a b : ℕ) → IsReady 256 4096 nodes (tasks (pos a) (pos b)) queued queued
tasks-IsReady a b = record {
  queue = record {
    chain = (refl, refl, (refl, refl, (refl, refl)));
    distinct = (refl, (refl, (refl, tt)));
  };
  tasks = record {
    chain = (refl, refl, (refl, refl, (refl, refl)));
    distinct = (refl, (refl, (refl, tt)));
  };
  addresses = (omega arith, (omega arith, tt));
  some_task = ground arith;
  listed = (refl, (refl, tt));
  counters = (omega arith, (omega arith, tt));
  priorities = (omega arith, (omega arith, tt));
}

pub state-IsQueue : IsQueue 256 state queued
state-IsQueue = record {
  ring = record {
    chain = (refl, refl, (refl, refl, (refl, refl)));
    distinct = (refl, (refl, (refl, tt)));
  };
  addresses = (omega arith, (omega arith, tt));
  counted = refl;
  small = omega arith;
}

-- Both slices are used up: each task gets 10 + 2 ticks, and the first is taken.
pick_runs :
    Option.map {B = Option ℕ × ℤ × ℤ}
      (λ r. (r.0, (r.1 8192).counter, (r.1 12288).counter))
      (pick_next_task_simple 256 4096 nodes 2 3 (tasks (pos 0) (pos 0)))
    ≡ some (some 8192, pos 12, pos 12)
unfolding pick_next_task_simple
pick_runs = refl

pick_next_task_simple-Picked_example :
    Picked
      (tasks (pos 0) (pos 0))
      queued
      queued
      (pick_next_task_simple 256 4096 nodes 2 3 (tasks (pos 0) (pos 0)))
pick_next_task_simple-Picked_example =
    pick_next_task_simple-Picked 256 4096 nodes 3 0 (tasks (pos 0) (pos 0)) queued queued
      (tasks-IsReady 0 0) (omega arith) (omega arith)

enqueue_task_simple-IsQueue_example :
    IsQueue 256 (enqueue_task_simple 256 16384 state) (16384 ∷ queued)
enqueue_task_simple-IsQueue_example =
    enqueue_task_simple-IsQueue 16384 state-IsQueue (omega arith) refl (omega arith) (omega arith)

dequeue_task_simple-IsQueue_example : IsQueue 256 (dequeue_task_simple 12288 state) (8192 ∷ [])
dequeue_task_simple-IsQueue_example = dequeue_task_simple-IsQueue (8192 ∷ []) 12288 [] state-IsQueue

ticks_lem_example :
    (ticks 1 12288 (tasks (pos 3) (pos 7)) 12288
      ≡ record (tasks (pos 3) (pos 7) 12288) { counter = pos 6 })
    × (ticks 7 12288 (tasks (pos 3) (pos 7)) 12288
        ≡ record (tasks (pos 3) (pos 7) 12288) { counter = pos 0; need_resched = pos 1 })
    × ((q : ℕ) → q ≢ 12288 → ticks 7 12288 (tasks (pos 3) (pos 7)) q ≡ tasks (pos 3) (pos 7) q)
ticks_lem_example = ticks_lem 6 1 12288 (tasks (pos 3) (pos 7)) refl (omega arith)
