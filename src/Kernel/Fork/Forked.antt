-- ===== src/Kernel/Fork/Forked.antt =====
-- `do_fork` of benos/src/fork.c: the outcomes of a call.
use risc_v_lab.Base.{
  ◌⊎◌, inl, inr, ℕ, suc, ◌^◌, ◌<◌, ◌≡◌, ◌≢◌, ◌∙◌, sym, ap, arith, ◌==◌, if◌then◌else◌, true, false,
  none, some, List, [], ◌∷◌, ◌++◌, length, set,
}
use native.Mathlib.Decide.{ℕ_discrete}
use risc_v_lab.Base.Int.{pos, ◌+ℤ◌}
use risc_v_lab.ListHead.Ring.{IsRing}
use risc_v_lab.PageAlloc.{PageAlloc, get_free_page}
use risc_v_lab.Sched.{running, TaskStruct}
use risc_v_lab.Sched.Queue.{IsQueue}
use risc_v_lab.Sched.Reset.{task_links}
use risc_v_lab.Kernel.{Layout, Kernel, task}
use risc_v_lab.Kernel.Schedule.{preempt_count}
use risc_v_lab.Kernel.Switch.{is_first_run, resting_count, IsBalanced}
use risc_v_lab.Kernel.Fork.{find_empty_task, half, clear_task, do_fork}
use risc_v_lab.Kernel.Fork.TaskTable.{IsEmptySlot, find_empty_task-some, find_empty_task-full}
use risc_v_lab.Kernel.Fork.DoFork.{child_fields, other_fields, prepared-other, prepared-first}
use risc_v_lab.Kernel.Fork.Created.{
  IsFresh, Created, before, after, current_after, ne_before, parent_count_after, created,
  find_empty_task-cleared, do_fork-some, alloc_after,
}

-- What a successful fork leaves in `k'`: the child at `p` with number `pid`.
pub record Forked (IsTask : ℕ → Type 0) (l : Layout) (k : Kernel) (p pid : ℕ) (xs ys : List ℕ)
    (k' : Kernel) : Type 0 where
  -- The number is the least free one of the table, and now belongs to the child.
  pub free : IsEmptySlot k.g_task pid
  pub least : (j : ℕ) → j < pid → ¬ IsEmptySlot k.g_task j
  pub table : k'.g_task ≡ set k.g_task pid p
  -- The child is first in the run queue and last in the task list.
  pub queue : IsQueue l.rq_head k'.sched (p ∷ xs)
  pub tasks : IsRing (task_links k'.sched.tasks) l.init_task (ys ++ p ∷ [])
  -- The child can run, under its number, and shares the parent's time slice.
  pub runs : (task k' p).state ≡ running
  pub number : (task k' p).pid ≡ pos pid
  pub child_slice : (task k' p).counter ≡ half ((task k k.current).counter +ℤ pos 1)
  pub parent_slice : (task k' k.current).counter ≡ half (task k k.current).counter
  -- Preemption is as balanced as before; the parent goes on.
  pub balanced : IsBalanced (λ q. (q ≡ p) ⊎ IsTask q) l k'
  pub parent : k'.current ≡ k.current

rest_new :
    (l : Layout) (t : TaskStruct)
    → t.preempt_count ≡ pos 0
    → is_first_run l t.cpu_context ≡ true
    → t.preempt_count ≡ resting_count l t
rest_new l t zero first = zero ∙ sym (ap (λ b. if b then pos 0 else pos 1) first)

rest_same :
    (l : Layout) (t u : TaskStruct)
    → t.preempt_count ≡ u.preempt_count
    → t.cpu_context ≡ u.cpu_context
    → u.preempt_count ≡ resting_count l u
    → t.preempt_count ≡ resting_count l t
rest_same l t u e context rest =
    e ∙ rest ∙ sym (ap (λ c. if is_first_run l c then pos 0 else pos 1) context)

module _ (IsTask : ℕ → Type 0) (l : Layout) (flags p pid fn arg : ℕ) (k : Kernel) (a : PageAlloc)
    (xs ys : List ℕ) (fresh : IsFresh l k p xs ys) where
  rest_after :
      IsBalanced IsTask l k
      → (q : ℕ) → (q ≡ p) ⊎ IsTask q
      → q ≢ (after l flags p pid fn arg k a).current
      → (task (after l flags p pid fn arg k a) q).preempt_count
        ≡ resting_count l (task (after l flags p pid fn arg k a) q)
  rest_after balanced q known ne = elim (ℕ_discrete q p) [
    | yes e ↦
        let child =
          child_fields l p pid (before l flags p fn arg k a)
            (ne_before l flags p pid fn arg k a xs ys fresh) in
        rw e (
          rest_new l (task (after l flags p pid fn arg k a) p) child.3 (
            ap (is_first_run l) child.4 ∙ prepared-first l flags p fn arg (record k { alloc = a })))
    | no other ↦
        let same =
          other_fields l p pid (before l flags p fn arg k a)
            (ne_before l flags p pid fn arg k a xs ys fresh) q other in
        let same_task = prepared-other l flags p fn arg (record k { alloc = a }) q other in
        rest_same l (task (after l flags p pid fn arg k a) q) (task k q)
          (same.0 ∙ ap (λ (t : TaskStruct). t.preempt_count) same_task)
          (same.1 ∙ ap (λ (t : TaskStruct). t.cpu_context) same_task)
          (balanced.rest q (elim known [ inl e ↦ absurd (other e) | inr t ↦ t ])
            (λ e. ne (e ∙ sym (current_after l flags p pid fn arg k a xs ys fresh))))
  ]

  runs_after : IsBalanced IsTask l k → preempt_count (after l flags p pid fn arg k a) ≡ pos 0
  runs_after balanced =
      ap (λ q. (task (after l flags p pid fn arg k a) q).preempt_count)
        (current_after l flags p pid fn arg k a xs ys fresh)
      ∙ (parent_count_after l flags p pid fn arg k a xs ys fresh)
      ∙ balanced.runs

  forked :
      IsBalanced IsTask l k
      → Created l k p pid xs ys (after l flags p pid fn arg k a)
      → Forked IsTask l k p pid xs ys (after l flags p pid fn arg k a)
  forked balanced c = record {
    free = c.free;
    least = c.least;
    table = c.table;
    queue = c.queue;
    tasks = c.tasks;
    runs = c.runs;
    number = c.number;
    child_slice = c.child_slice;
    parent_slice = c.parent_slice;
    balanced = record { runs = (runs_after balanced); rest = rest_after balanced };
    parent = c.parent;
  }

-- `do_fork`, where there is a free page `p` that is no object the kernel already knows, and a free
-- entry in the table of tasks: it returns the least free number, and enters the child in the
-- table, at the front of the run queue and at the end of the task list, ready to run; the two
-- halves of the parent's time slice are the child's, rounded up, and the parent's, rounded down;
-- and the counts of preemption, which were balanced for a set of tasks, are balanced for these and
-- the child. Exactly one page was taken.
pub do_fork-Forked :
    (IsTask : ℕ → Type 0) (l : Layout) (flags fn arg pid : ℕ) (k : Kernel) (xs ys : List ℕ)
    → IsFresh l k (get_free_page k.alloc).0 xs ys
    → find_empty_task k ≡ some pid
    → IsQueue l.rq_head k.sched xs
    → suc (length xs) < 2 ^ 32
    → IsRing (task_links k.sched.tasks) l.init_task ys
    → IsBalanced IsTask l k
    → (k' : Kernel) × (do_fork l flags fn arg k ≡ (some pid, k'))
      × Forked IsTask l k (get_free_page k.alloc).0 pid xs ys k'
      × (k'.alloc ≡ (get_free_page k.alloc).1)
do_fork-Forked IsTask l flags fn arg pid k xs ys fresh slot queue small tasks balanced =
    let p = (get_free_page k.alloc).0 in
    let (free, least) = find_empty_task-some k pid slot in
    (
      _,
      do_fork-some l flags fn arg pid k fresh.not_null slot,
      forked IsTask l flags p pid fn arg k (get_free_page k.alloc).1 xs ys fresh balanced (
          created l flags p pid fn arg k (get_free_page k.alloc).1 xs ys fresh queue small tasks
            free least),
      alloc_after l flags p pid fn arg k (get_free_page k.alloc).1,
    )

-- `do_fork` with a full table of tasks returns -1, enters no task, and yet keeps the page that it
-- has taken: the allocator is left as `get_free_page` left it.
pub do_fork-table_full :
    (l : Layout) (flags fn arg : ℕ) (k : Kernel)
    → (get_free_page k.alloc).0 ≢ 0
    → ((j : ℕ) → ¬ IsEmptySlot k.g_task j)
    → ((do_fork l flags fn arg k).0 ≡ none)
      × ((do_fork l flags fn arg k).1.alloc ≡ (get_free_page k.alloc).1)
      × ((do_fork l flags fn arg k).1.g_task ≡ k.g_task)
      × ((do_fork l flags fn arg k).1.sched.rq ≡ k.sched.rq)
unfolding do_fork clear_task
do_fork-table_full l flags fn arg k page full =
    let not_null : ((get_free_page k.alloc).0 == 0) ≡ false = ground (arith, page) in
    let none_free =
      find_empty_task-cleared (get_free_page k.alloc).0 k (get_free_page k.alloc).1
      ∙ find_empty_task-full k full in
    let failed : do_fork l flags fn arg k ≡ (
      none,
      clear_task (get_free_page k.alloc).0 (record k { alloc = (get_free_page k.alloc).1 }),
    ) =
      rw (not_null, none_free, do_fork) in
    (
      ap (λ r. r.0) failed,
      ap (λ r. r.1.alloc) failed,
      ap (λ r. r.1.g_task) failed,
      ap (λ r. r.1.sched.rq) failed,
    )
