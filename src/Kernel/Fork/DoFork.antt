-- ===== src/Kernel/Fork/DoFork.antt =====
-- The parts of `do_fork` of benos/src/fork.c, field by field.
use risc_v_lab.Base.{
  ℕ, suc, ◌^◌, ◌<◌, ◌≡◌, ◌≢◌, ◌∙◌, ap, refl, arith, true, List, [], ◌∷◌, ◌++◌, map, length, ◌∉◌,
}
use risc_v_lab.Base.Int.{pos, ◌+ℤ◌}
use risc_v_lab.ListHead.Chain.{Chain-frame}
use risc_v_lab.ListHead.Ring.{IsRing}
use risc_v_lab.Sched.{running, Tasks, run_list}
use risc_v_lab.Sched.Queue.{IsQueue, enqueue_task_simple-IsQueue}
use risc_v_lab.Sched.Reset.{task_links}
use risc_v_lab.Kernel.{Layout, Kernel, task}
use risc_v_lab.Kernel.Schedule.{enqueue_task, wake_up_process}
use risc_v_lab.Kernel.Switch.{is_first_run}
use risc_v_lab.Kernel.Fork.{copy_thread, half, set_links, clear_task, init_child, start_child}
use risc_v_lab.Kernel.Fork.SetLinks.{set_links-IsRing, set_links-other}

-- `start_child` from the state `k`, field by field.
module _ (l : Layout) (p pid : ℕ) (k : Kernel) (other : p ≢ k.current) where
  abbrev listed : Tasks
  listed = (init_child p pid k).sched.tasks

  pub child_fields :
      ((task (start_child l p pid k) p).counter ≡ half ((task k k.current).counter +ℤ pos 1))
      × ((task (start_child l p pid k) p).pid ≡ pos pid)
      × ((task (start_child l p pid k) p).state ≡ running)
      × ((task (start_child l p pid k) p).preempt_count ≡ pos 0)
      × ((task (start_child l p pid k) p).cpu_context ≡ (task k p).cpu_context)
  unfolding start_child wake_up_process init_child
  child_fields = ground (arith, set_links-other l.init_task p listed p)

  pub parent_counter :
      (task (start_child l p pid k) k.current).counter ≡ half (task k k.current).counter
  unfolding start_child wake_up_process init_child
  parent_counter = ground (arith, set_links-other l.init_task p listed k.current)

  pub other_fields :
      (q : ℕ)
      → q ≢ p
      → ((task (start_child l p pid k) q).preempt_count ≡ (task k q).preempt_count)
        × ((task (start_child l p pid k) q).cpu_context ≡ (task k q).cpu_context)
  unfolding start_child wake_up_process init_child
  other_fields q ne = ground (arith, set_links-other l.init_task p listed q)

  pub start_child-IsQueue :
      (xs : List ℕ)
      → IsQueue l.rq_head k.sched xs
      → p < 2 ^ 64
      → p ∉ xs
      → run_list p ≢ l.rq_head
      → suc (length xs) < 2 ^ 32
      → IsQueue l.rq_head (start_child l p pid k).sched (p ∷ xs)
  unfolding start_child wake_up_process init_child enqueue_task
  start_child-IsQueue xs q fits out ne small =
      enqueue_task_simple-IsQueue p
        (record { ring = q.ring; addresses = q.addresses; counted = q.counted; small = q.small })
        fits out ne small

  init_child-links :
      (q : ℕ)
      → ((listed q).next_task ≡ (task k q).next_task)
        × ((listed q).prev_task ≡ (task k q).prev_task)
  unfolding init_child
  init_child-links q = ground arith

  woken-links :
      (q : ℕ)
      → ((task (start_child l p pid k) q).next_task ≡ (set_links l.init_task p listed q).next_task)
        × ((task (start_child l p pid k) q).prev_task
            ≡ (set_links l.init_task p listed q).prev_task)
  unfolding start_child wake_up_process enqueue_task
  woken-links q = ground arith

  pub start_child-tasks :
      (ys : List ℕ)
      → IsRing (task_links k.sched.tasks) l.init_task ys
      → p ∉ (l.init_task ∷ ys)
      → IsRing (task_links (start_child l p pid k).sched.tasks) l.init_task (ys ++ p ∷ [])
  start_child-tasks ys r out =
      let first : IsRing (task_links listed) l.init_task ys = record {
        chain =
            Chain-frame (task_links listed) l.init_task ys l.init_task r.chain
              (λ q _. (init_child-links q).0) (λ q _. (init_child-links q).1);
        distinct = r.distinct;
      } in
      let linked = set_links-IsRing l.init_task p listed ys first out in
      record {
        chain =
            Chain-frame (task_links (start_child l p pid k).sched.tasks) l.init_task (ys ++ p ∷ [])
              l.init_task linked.chain (λ q _. (woken-links q).0) (λ q _. (woken-links q).1);
        distinct = linked.distinct;
      }

-- The new task's memory before `start_child`: cleared, and given its start routine.
module _ (l : Layout) (flags p fn arg : ℕ) (k : Kernel) where
  abbrev pub prepared : Kernel
  prepared = copy_thread l flags p fn arg (clear_task p k)

  pub prepared-other : (q : ℕ) → q ≢ p → task prepared q ≡ task k q
  unfolding copy_thread clear_task
  prepared-other q ne = ground arith

  pub prepared-first : is_first_run l (task prepared p).cpu_context ≡ true
  unfolding copy_thread clear_task
  prepared-first = ground arith

  prepared-nodes : (a : ℕ) → a ≢ run_list p → prepared.sched.nodes a ≡ k.sched.nodes a
  unfolding copy_thread clear_task
  prepared-nodes a ne = ground arith

  pub prepared-rest :
      (prepared.current ≡ k.current)
      × (prepared.sched.rq ≡ k.sched.rq)
      × (prepared.g_task ≡ k.g_task)
      × (prepared.cpu ≡ k.cpu)
  unfolding copy_thread clear_task
  prepared-rest = (refl, refl, refl, refl)

  pub prepared-IsQueue :
      (xs : List ℕ)
      → IsQueue l.rq_head k.sched xs
      → run_list p ∉ (l.rq_head ∷ map run_list xs)
      → IsQueue l.rq_head prepared.sched xs
  prepared-IsQueue xs q out = record {
    ring = record {
      chain =
          Chain-frame prepared.sched.nodes l.rq_head (map run_list xs) l.rq_head q.ring.chain
            (λ a i. ap (λ n. n.next) (prepared-nodes a (λ e. cc)))
            (λ a i. ap (λ n. n.prev) (prepared-nodes a (λ e. cc)));
      distinct = q.ring.distinct;
    };
    addresses = q.addresses;
    counted = ap (λ r. r.nr_running) prepared-rest.1 ∙ q.counted;
    small = q.small;
  }

  pub prepared-tasks :
      (ys : List ℕ)
      → IsRing (task_links k.sched.tasks) l.init_task ys
      → p ∉ (l.init_task ∷ ys)
      → IsRing (task_links prepared.sched.tasks) l.init_task ys
  prepared-tasks ys r out = record {
    chain =
        Chain-frame (task_links prepared.sched.tasks) l.init_task ys l.init_task r.chain
          (λ a i. ap (λ t. t.next_task) (prepared-other a (λ e. cc)))
          (λ a i. ap (λ t. t.prev_task) (prepared-other a (λ e. cc)));
    distinct = r.distinct;
  }
