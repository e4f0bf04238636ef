-- ===== src/Kernel/Fork/SetLinks.antt =====
-- SET_LINKS of benos/include/sched.h enters a task at the end of the task list.
use risc_v_lab.Base.{ℕ, ◌≡◌, ◌≢◌, arith, List, [], ◌∷◌, ◌++◌, ◌∉◌}
use risc_v_lab.ListHead.{list_add_tail}
use risc_v_lab.ListHead.Chain.{Chain-frame, prev-mem}
use risc_v_lab.ListHead.Ring.{IsRing, list_add_tail-IsRing}
use risc_v_lab.Sched.{Tasks}
use risc_v_lab.Sched.Reset.{task_links}
use risc_v_lab.Kernel.Fork.{set_links}

links_next :
    (init_task p : ℕ) (ts : Tasks) (a : ℕ)
    → p ≢ init_task
    → p ≢ (ts init_task).prev_task
    → (set_links init_task p ts a).next_task ≡ (list_add_tail p init_task (task_links ts) a).next
unfolding set_links list_add_tail
links_next init_task p ts a ne out = ground arith

links_prev :
    (init_task p : ℕ) (ts : Tasks) (a : ℕ)
    → p ≢ init_task
    → p ≢ (ts init_task).prev_task
    → (set_links init_task p ts a).prev_task ≡ (list_add_tail p init_task (task_links ts) a).prev
unfolding set_links list_add_tail
links_prev init_task p ts a ne out = ground arith

-- The macro writes no other field.
pub set_links-other :
    (init_task p : ℕ) (ts : Tasks) (a : ℕ)
    → set_links init_task p ts a ≡ record (ts a) {
      next_task = (set_links init_task p ts a).next_task;
      prev_task = (set_links init_task p ts a).prev_task;
    }
unfolding set_links
set_links-other init_task p ts a = ground arith

-- `SET_LINKS` enters a task that is not in the task list at its end: the list stays circular and
-- well linked in both directions, in the order of creation.
pub set_links-IsRing :
    (init_task p : ℕ) (ts : Tasks) (ys : List ℕ)
    → IsRing (task_links ts) init_task ys
    → p ∉ (init_task ∷ ys)
    → IsRing (task_links (set_links init_task p ts)) init_task (ys ++ p ∷ [])
set_links-IsRing init_task p ts ys r fresh =
    let last = prev-mem (task_links ts) init_task ys init_task r.chain in
    let ne : p ≢ init_task = λ e. ground arith in
    let out : p ≢ (ts init_task).prev_task = λ e. ground arith in
    let entered = list_add_tail-IsRing p init_task ys r fresh in
    record {
      chain =
          Chain-frame (task_links (set_links init_task p ts)) init_task (ys ++ p ∷ []) init_task
            entered.chain (λ a _. links_next init_task p ts a ne out)
            (λ a _. links_prev init_task p ts a ne out);
      distinct = entered.distinct;
    }
