-- ===== src/Sched/Queue.antt =====
-- The run queue of benos/src/sched_simple.c: entering and removing tasks.
use risc_v_lab.Base.{
  ℕ, suc, ◌^◌, ◌<◌, ◌≡◌, ◌≢◌, sym, refl, arith, List, [], ◌∷◌, ◌++◌, map, length, ◌∉◌,
  length-append,
}
use mathlib.Core.Path.{subst}
use mathlib.Core.List.{map-append}
use risc_v_lab.ListHead.Ring.{IsRing, list_add-IsRing, list_del-IsRing}
use risc_v_lab.Sched.{Sched, run_list, enqueue_task_simple, dequeue_task_simple}
use risc_v_lab.Sched.Pick.{Addresses}

-- The run queue holds exactly the tasks `xs`, and counts them.
pub record IsQueue (rq_head : ℕ) (s : Sched) (xs : List ℕ) : Type 0 where
  pub ring : IsRing s.nodes rq_head (map run_list xs)
  pub addresses : Addresses xs
  pub counted : s.rq.nr_running ≡ length xs
  pub small : length xs < 2 ^ 32

not-mem-map_run_list :
    (p : ℕ) (xs : List ℕ) → p < 2 ^ 64 → Addresses xs → p ∉ xs → run_list p ∉ map run_list xs
not-mem-map_run_list p [] h fit out = refl
not-mem-map_run_list p (x ∷ xs) h fit out = ground (arith, not-mem-map_run_list p xs h fit.1)

-- `enqueue_task_simple` puts a task that is not in the run queue at its front: the queue stays
-- well linked, its order is kept and its count is right, for fewer than 2 ^ 32 tasks.
pub enqueue_task_simple-IsQueue :
    {rq_head : ℕ} {s : Sched} {xs : List ℕ} (p : ℕ)
    → IsQueue rq_head s xs
    → p < 2 ^ 64
    → p ∉ xs
    → run_list p ≢ rq_head
    → suc (length xs) < 2 ^ 32
    → IsQueue rq_head (enqueue_task_simple rq_head p s) (p ∷ xs)
unfolding enqueue_task_simple
enqueue_task_simple-IsQueue {rq_head} {s} {xs} p q fits out ne small = record {
  ring =
      list_add-IsRing (run_list p) rq_head (map run_list xs) q.ring
        (ground (arith, not-mem-map_run_list p xs fits q.addresses out));
  addresses = (fits, q.addresses);
  counted = omega (arith, q.counted);
  small = small;
}

Addresses-append :
    (xs : List ℕ) (p : ℕ) (ys : List ℕ) → Addresses (xs ++ p ∷ ys) → Addresses (xs ++ ys)
Addresses-append [] p ys h = h.1
Addresses-append (x ∷ xs) p ys h = (h.0, Addresses-append xs p ys h.1)

-- `dequeue_task_simple` takes exactly the given task out of the run queue, wherever it stands: the
-- others keep their order, and the queue stays well linked and rightly counted.
pub dequeue_task_simple-IsQueue :
    {rq_head : ℕ} {s : Sched} (before : List ℕ) (p : ℕ) (after : List ℕ)
    → IsQueue rq_head s (before ++ p ∷ after)
    → IsQueue rq_head (dequeue_task_simple p s) (before ++ after)
unfolding dequeue_task_simple
dequeue_task_simple-IsQueue {rq_head} {s} before p after q =
    let n = length-append before (p ∷ after) in
    let n' = length-append before after in
    record {
      ring =
          subst (IsRing _ rq_head) (sym (map-append run_list before after))
            (list_del-IsRing rq_head (run_list p) (map run_list before) (map run_list after)
              (subst (IsRing s.nodes rq_head) (map-append run_list before (p ∷ after)) q.ring)).0;
      addresses = Addresses-append before p after q.addresses;
      counted = omega (arith, q.counted, q.small);
      small = omega (arith, q.small);
    }
