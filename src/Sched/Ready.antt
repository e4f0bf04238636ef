-- ===== src/Sched/Ready.antt =====
-- The queues that `pick_next_task_simple` of benos/src/sched_simple.c can serve.
use risc_v_lab.Base.{
  ℕ, zero, suc, ◌≡◌, ◌≢◌, sym, refl, arith, ◌⊎◌, inl, inr, Option, none, some, List, [], ◌∷◌, ◌++◌,
  map, ◌∈◌, All,
}
use risc_v_lab.Base.Int.{ℤ, pos, negsuc, ◌≤ℤ◌, eq_of_parts}
use risc_v_lab.ListHead.{Nodes}
use risc_v_lab.ListHead.Chain.{Chain-frame}
use risc_v_lab.ListHead.Ring.{IsRing}
use risc_v_lab.Sched.{Tasks, run_list}
use mathlib.Core.Path.{subst}
use risc_v_lab.Sched.Pick.{◌<ℤ◌, Addresses, IsBest, Scanned, kept, found}
use risc_v_lab.Sched.Reset.{task_links, Refilled, refilled_all}

-- A queue of tasks of the task list, none of whose counters is negative and some of which, after
-- a reset, can run.
pub record IsReady (rq_head init_task : ℕ) (m : Nodes) (ts : Tasks) (xs ys : List ℕ) : Type 0 where
  pub queue : IsRing m rq_head (map run_list xs)
  pub tasks : IsRing (task_links ts) init_task ys
  pub addresses : Addresses xs
  pub some_task : xs ≢ []
  pub listed : All (λ q. q ∈ ys) xs
  pub counters : All (λ q. pos 0 ≤ℤ (ts q).counter) xs
  pub priorities : All (λ q. pos 0 ≤ℤ (ts q).priority) xs

pub ℤ-cases : (c : ℤ) → pos 0 ≤ℤ c → (c ≡ pos 0) ⊎ (pos 0 <ℤ c)
ℤ-cases (pos zero) h = inl refl
ℤ-cases (pos (suc n)) h = inr (omega arith)
ℤ-cases (negsuc n) h = absurd (omega arith)

-- A pass over a ready queue finds its best task.
pub found_of_Scanned :
    {ts : Tasks} {xs : List ℕ} {r : ℤ × Option ℕ}
    → xs ≢ []
    → All (λ q. pos 0 ≤ℤ (ts q).counter) xs
    → Scanned ts xs (negsuc 999) none r
    → (p : ℕ) × (r ≡ ((ts p).counter, some p)) × IsBest ts xs p
found_of_Scanned {xs = []} ne pos_all s = absurd (ne refl)
found_of_Scanned {xs = x ∷ xs} ne pos_all (kept all) = absurd (omega arith)
found_of_Scanned {xs = x ∷ xs} ne pos_all (found p best lt) = (p, refl, best)

pub All-mem :
    (P : ℕ → Type 0) (xs : List ℕ) (before : List ℕ) (p : ℕ) (after : List ℕ)
    → xs ≡ before ++ p ∷ after
    → All P xs
    → P p
All-mem P xs before p after e all = in_middle before (subst (All P) e all)
  where
    in_middle : (l : List ℕ) → All P (l ++ p ∷ after) → P p
    in_middle [] h = h.0
    in_middle (x ∷ l) h = in_middle l h.1

-- If the best counter is 0 and none is negative, all are 0.
pub zero_of_best :
    {ts : Tasks} {xs : List ℕ} {p : ℕ}
    → IsBest ts xs p
    → (ts p).counter ≡ pos 0
    → All (λ q. pos 0 ≤ℤ (ts q).counter) xs
    → All (λ q. (ts q).counter ≡ pos 0) xs
zero_of_best {ts} {xs} {p} best z nonneg =
    subst (All (λ q. (ts q).counter ≡ pos 0)) (sym best.split)
      (both best.before best.less (subst (All _) best.split nonneg))
  where
    behind :
        (l : List ℕ)
        → All (λ q. (ts q).counter ≤ℤ (ts p).counter) l
        → All (λ q. pos 0 ≤ℤ (ts q).counter) l
        → All (λ q. (ts q).counter ≡ pos 0) l
    behind [] h k = tt
    behind (x ∷ l) h k = (ground (arith, eq_of_parts (ts x).counter (pos 0)), behind l h.1 k.1)

    both :
        (l : List ℕ)
        → All (λ q. (ts q).counter <ℤ (ts p).counter) l
        → All (λ q. pos 0 ≤ℤ (ts q).counter) (l ++ p ∷ best.after)
        → All (λ q. (ts q).counter ≡ pos 0) (l ++ p ∷ best.after)
    both [] h k = (z, behind best.after best.most k.1)
    both (x ∷ l) h k = absurd (ground arith)

pub All-map {ℓ κ} :
    {P : ℕ → Type ℓ} {Q : ℕ → Type κ} (xs : List ℕ) → ((q : ℕ) → P q → Q q) → All P xs → All Q xs
All-map [] f h = tt
All-map (x ∷ xs) f h = (f x h.0, All-map xs f h.1)

pub Refilled-IsReady :
    {rq_head init_task : ℕ} {m : Nodes} {ts : Tasks} (ts' : Tasks) {xs ys : List ℕ}
    → IsReady rq_head init_task m ts xs ys
    → Refilled ys ts ts'
    → IsReady rq_head init_task m ts' xs ys × All (λ q. pos 0 <ℤ (ts' q).counter) xs
Refilled-IsReady {init_task} {ts} ts' {xs} {ys} r all =
    let each = refilled_all ts ts' ys xs all r.listed r.priorities in
    (
      record {
        queue = r.queue;
        tasks = record {
          chain =
              Chain-frame (task_links ts') init_task ys init_task r.tasks.chain
                (λ q _. ground (arith, all q)) (λ q _. ground (arith, all q));
          distinct = r.tasks.distinct;
        };
        addresses = r.addresses;
        some_task = r.some_task;
        listed = r.listed;
        counters = All-map xs (λ q h. omega arith) each;
        priorities = All-map xs (λ q h. h.1) each;
      },
      All-map xs (λ q h. h.0) each,
    )
