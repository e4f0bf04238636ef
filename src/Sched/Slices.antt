-- ===== src/Sched/Slices.antt =====
-- What the scheduler of benos/src/sched_simple.c reads of the tasks: a change of other fields keeps
-- a queue ready and its best task.
use risc_v_lab.Base.{ℕ, ◌≡◌, List, [], ◌∷◌, All}
use risc_v_lab.Base.Int.{pos, ◌≤ℤ◌}
use risc_v_lab.ListHead.{Nodes}
use risc_v_lab.ListHead.Chain.{Chain-frame}
use risc_v_lab.Sched.{Tasks}
use risc_v_lab.Sched.Pick.{◌<ℤ◌, IsBest}
use risc_v_lab.Sched.Reset.{task_links}
use risc_v_lab.Sched.Ready.{IsReady}

-- Two states of the tasks with the same time slices, priorities and links.
abbrev pub SameSlices : Tasks → Tasks → Type 0
SameSlices ts us =
    (q : ℕ)
    → ((us q).counter ≡ (ts q).counter)
      × ((us q).priority ≡ (ts q).priority)
      × ((us q).next_task ≡ (ts q).next_task)
      × ((us q).prev_task ≡ (ts q).prev_task)

module _ (ts us : Tasks) (same : SameSlices ts us) where
  less_same :
      (p : ℕ) (xs : List ℕ)
      → All (λ q. (ts q).counter <ℤ (ts p).counter) xs
      → All (λ q. (us q).counter <ℤ (us p).counter) xs
  less_same p [] h = tt
  less_same p (x ∷ xs) h = (rw ((same x).0, (same p).0) h.0, less_same p xs h.1)

  most_same :
      (p : ℕ) (xs : List ℕ)
      → All (λ q. (ts q).counter ≤ℤ (ts p).counter) xs
      → All (λ q. (us q).counter ≤ℤ (us p).counter) xs
  most_same p [] h = tt
  most_same p (x ∷ xs) h = (rw ((same x).0, (same p).0) h.0, most_same p xs h.1)

  pub IsBest-same : {xs : List ℕ} {p : ℕ} → IsBest ts xs p → IsBest us xs p
  IsBest-same {p} best = record {
    before = best.before;
    after = best.after;
    split = best.split;
    less = less_same p best.before best.less;
    most = most_same p best.after best.most;
  }

  counters_same :
      (xs : List ℕ) → All (λ q. pos 0 ≤ℤ (ts q).counter) xs → All (λ q. pos 0 ≤ℤ (us q).counter) xs
  counters_same [] h = tt
  counters_same (x ∷ xs) h = (rw (same x).0 h.0, counters_same xs h.1)

  priorities_same :
      (xs : List ℕ)
      → All (λ q. pos 0 ≤ℤ (ts q).priority) xs
      → All (λ q. pos 0 ≤ℤ (us q).priority) xs
  priorities_same [] h = tt
  priorities_same (x ∷ xs) h = (rw (same x).1 h.0, priorities_same xs h.1)

  pub IsReady-same :
      {rq_head init_task : ℕ} {m : Nodes} {xs ys : List ℕ}
      → IsReady rq_head init_task m ts xs ys
      → IsReady rq_head init_task m us xs ys
  IsReady-same {init_task} {xs} {ys} r = record {
    queue = r.queue;
    tasks = record {
      chain =
          Chain-frame (task_links us) init_task ys init_task r.tasks.chain (λ q _. (same q).2)
            (λ q _. (same q).3);
      distinct = r.tasks.distinct;
    };
    addresses = r.addresses;
    some_task = r.some_task;
    listed = r.listed;
    counters = counters_same xs r.counters;
    priorities = priorities_same xs r.priorities;
  }
