-- ===== src/Kernel/Fork/Created.antt =====
-- The child of `do_fork` of benos/src/fork.c.
use risc_v_lab.Base.{
  ℕ, suc, ◌^◌, ◌<◌, ◌≡◌, ◌≢◌, ◌∙◌, sym, ap, refl, arith, ◌==◌, true, false, some, List, [], ◌∷◌,
  ◌++◌, map, length, set, ◌∉◌,
}
use risc_v_lab.Base.Int.{pos, ◌+ℤ◌}
use risc_v_lab.ListHead.Ring.{IsRing}
use risc_v_lab.PageAlloc.{PageAlloc, get_free_page}
use risc_v_lab.Sched.{running, TaskStruct, run_list}
use risc_v_lab.Sched.Queue.{IsQueue}
use risc_v_lab.Sched.Reset.{task_links}
use risc_v_lab.Kernel.{Layout, Kernel, task}
use risc_v_lab.Kernel.Schedule.{wake_up_process}
use risc_v_lab.Kernel.Switch.{is_first_run}
use risc_v_lab.Kernel.Fork.{
  find_empty_task, copy_thread, half, clear_task, init_child, start_child, do_fork,
}
use risc_v_lab.Kernel.Fork.TaskTable.{IsEmptySlot, find_empty_task-some}
use risc_v_lab.Kernel.Fork.DoFork.{
  prepared, child_fields, parent_counter, other_fields, start_child-IsQueue, start_child-tasks,
  prepared-other, prepared-first, prepared-rest, prepared-IsQueue, prepared-tasks,
}

-- The new page `p` is no object that the kernel already knows.
pub record IsFresh (l : Layout) (k : Kernel) (p : ℕ) (xs ys : List ℕ) : Type 0 where
  pub fits : p < 2 ^ 64
  pub not_null : p ≢ 0
  pub not_current : p ≢ k.current
  pub not_queued : p ∉ xs
  pub node : run_list p ∉ (l.rq_head ∷ map run_list xs)
  pub not_listed : p ∉ (l.init_task ∷ ys)

-- What a successful fork leaves in `k'`, apart from what other tasks are like.
pub record Created (l : Layout) (k : Kernel) (p pid : ℕ) (xs ys : List ℕ) (k' : Kernel)
    : Type 0 where
  pub free : IsEmptySlot k.g_task pid
  pub least : (j : ℕ) → j < pid → ¬ IsEmptySlot k.g_task j
  pub table : k'.g_task ≡ set k.g_task pid p
  pub queue : IsQueue l.rq_head k'.sched (p ∷ xs)
  pub tasks : IsRing (task_links k'.sched.tasks) l.init_task (ys ++ p ∷ [])
  pub runs : (task k' p).state ≡ running
  pub number : (task k' p).pid ≡ pos pid
  pub child_slice : (task k' p).counter ≡ half ((task k k.current).counter +ℤ pos 1)
  pub parent_slice : (task k' k.current).counter ≡ half (task k k.current).counter
  pub child_count : (task k' p).preempt_count ≡ pos 0
  pub child_first : is_first_run l (task k' p).cpu_context ≡ true
  pub parent_count : (task k' k.current).preempt_count ≡ (task k k.current).preempt_count
  pub parent : k'.current ≡ k.current

abbrev pub before : Layout → ℕ → ℕ → ℕ → ℕ → Kernel → PageAlloc → Kernel
before l flags p fn arg k a = prepared l flags p fn arg (record k { alloc = a })

abbrev pub after : Layout → ℕ → ℕ → ℕ → ℕ → ℕ → Kernel → PageAlloc → Kernel
after l flags p pid fn arg k a = start_child l p pid (before l flags p fn arg k a)

module _ (l : Layout) (flags p pid fn arg : ℕ) (k : Kernel) (a : PageAlloc) (xs ys : List ℕ)
    (fresh : IsFresh l k p xs ys) where
  abbrev pub old : Kernel
  old = before l flags p fn arg k a

  abbrev pub new : Kernel
  new = after l flags p pid fn arg k a

  pub current_after : new.current ≡ k.current
  unfolding start_child wake_up_process init_child copy_thread clear_task
  current_after = refl

  pub table_after : new.g_task ≡ set k.g_task pid p
  unfolding start_child wake_up_process init_child copy_thread clear_task
  table_after = refl

  pub ne_before : p ≢ old.current
  ne_before e = fresh.not_current (e ∙ (prepared-rest l flags p fn arg (record k { alloc = a })).0)

  pub parent_before : task old old.current ≡ task k k.current
  parent_before =
      ap (task old) (prepared-rest l flags p fn arg (record k { alloc = a })).0
      ∙ prepared-other l flags p fn arg (record k { alloc = a }) k.current
          (λ e. fresh.not_current (sym e))

  pub parent_counter_after : (task new k.current).counter ≡ half (task k k.current).counter
  parent_counter_after =
      ap (λ q. (task new q).counter)
        (sym (prepared-rest l flags p fn arg (record k { alloc = a })).0)
      ∙ parent_counter l p pid old ne_before
      ∙ ap (λ (t : TaskStruct). half t.counter) parent_before

  pub parent_count_after : (task new k.current).preempt_count ≡ (task k k.current).preempt_count
  parent_count_after =
      let same = other_fields l p pid old ne_before k.current (λ e. fresh.not_current (sym e)) in
      same.0
      ∙ ap (λ (t : TaskStruct). t.preempt_count)
          (prepared-other l flags p fn arg (record k { alloc = a }) k.current
            (λ e. fresh.not_current (sym e)))

  pub created :
      IsQueue l.rq_head k.sched xs
      → suc (length xs) < 2 ^ 32
      → IsRing (task_links k.sched.tasks) l.init_task ys
      → IsEmptySlot k.g_task pid
      → ((j : ℕ) → j < pid → ¬ IsEmptySlot k.g_task j)
      → Created l k p pid xs ys new
  created queue small tasks free least =
      let child = child_fields l p pid old ne_before in
      record {
        free = free;
        least = least;
        table = table_after;
        queue =
            start_child-IsQueue l p pid old ne_before xs
              (prepared-IsQueue l flags p fn arg (record k { alloc = a }) xs queue fresh.node)
              fresh.fits fresh.not_queued (ground (arith, fresh.node)) small;
        tasks =
            start_child-tasks l p pid old ne_before ys
              (prepared-tasks l flags p fn arg (record k { alloc = a }) ys tasks fresh.not_listed)
              fresh.not_listed;
        runs = child.2;
        number = child.1;
        child_slice = child.0 ∙ ap (λ (t : TaskStruct). half (t.counter +ℤ pos 1)) parent_before;
        parent_slice = parent_counter_after;
        child_count = child.3;
        child_first =
            ap (is_first_run l) child.4 ∙ prepared-first l flags p fn arg (record k { alloc = a });
        parent_count = parent_count_after;
        parent = current_after;
      }

pub find_empty_task-cleared :
    (p : ℕ) (k : Kernel) (a : PageAlloc)
    → find_empty_task (clear_task p (record k { alloc = a })) ≡ find_empty_task k
unfolding find_empty_task clear_task
find_empty_task-cleared p k a = refl

pub do_fork-some :
    (l : Layout) (flags fn arg pid : ℕ) (k : Kernel)
    → (get_free_page k.alloc).0 ≢ 0
    → find_empty_task k ≡ some pid
    → do_fork l flags fn arg k
      ≡ (some pid, after l flags (get_free_page k.alloc).0 pid fn arg k (get_free_page k.alloc).1)
unfolding do_fork
do_fork-some l flags fn arg pid k page slot =
    let slot' =
      find_empty_task-cleared (get_free_page k.alloc).0 k (get_free_page k.alloc).1 ∙ slot in
    let not_null : ((get_free_page k.alloc).0 == 0) ≡ false = ground (arith, page) in
    rw (not_null, slot', do_fork)

pub alloc_after :
    (l : Layout) (flags p pid fn arg : ℕ) (k : Kernel) (a : PageAlloc)
    → (after l flags p pid fn arg k a).alloc ≡ a
unfolding start_child wake_up_process init_child copy_thread clear_task
alloc_after l flags p pid fn arg k a = refl

pub do_fork-Created :
    (l : Layout) (flags fn arg pid : ℕ) (k : Kernel) (xs ys : List ℕ)
    → IsFresh l k (get_free_page k.alloc).0 xs ys
    → find_empty_task k ≡ some pid
    → IsQueue l.rq_head k.sched xs
    → suc (length xs) < 2 ^ 32
    → IsRing (task_links k.sched.tasks) l.init_task ys
    → (k' : Kernel) × (do_fork l flags fn arg k ≡ (some pid, k'))
      × Created l k (get_free_page k.alloc).0 pid xs ys k'
do_fork-Created l flags fn arg pid k xs ys fresh slot queue small tasks =
    let p = (get_free_page k.alloc).0 in
    let (free, least) = find_empty_task-some k pid slot in
    (
      _,
      do_fork-some l flags fn arg pid k fresh.not_null slot,
      created l flags p pid fn arg k (get_free_page k.alloc).1 xs ys fresh queue small tasks free
          least,
    )
