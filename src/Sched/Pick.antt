-- ===== src/Sched/Pick.antt =====
-- `pick_next_task_simple` of benos/src/sched_simple.c: one pass over the run queue.
use risc_v_lab.Base.{
  ℕ, zero, suc, ◌+◌, ◌^◌, ◌<◌, ◌≡◌, ap, refl, arith, ◌==◌, if◌then◌else◌, false, Bool-cases, ltb→lt,
  inl, inr, Option, some, List, [], ◌∷◌, ◌++◌, map, length, ◌∉◌, All,
}
use risc_v_lab.Base.Int.{ℤ, pos_part, neg_part, ◌≤ℤ◌, ltb_ℤ}
use risc_v_lab.ListHead.Ring.{IsRing}
use risc_v_lab.ListHead.{Nodes}
use risc_v_lab.ListHead.Chain.{Chain}
use risc_v_lab.Sched.{Tasks, run_list, task_of, pick_loop}

infix 50 ◌<ℤ◌
abbrev pub ◌<ℤ◌ : ℤ → ℤ → Type 0
a <ℤ b = pos_part a + neg_part b < pos_part b + neg_part a

-- Task addresses are 64-bit.
abbrev pub Addresses : List ℕ → Type 0
Addresses = All (λ p. p < 2 ^ 64)

pub task_of-run_list : (p : ℕ) → p < 2 ^ 64 → task_of (run_list p) ≡ p
task_of-run_list p h = omega arith

-- Task `p` has the largest counter of the queue `xs`, and is the first that has it.
pub record IsBest (ts : Tasks) (xs : List ℕ) (p : ℕ) : Type 0 where
  pub before : List ℕ
  pub after : List ℕ
  pub split : xs ≡ before ++ p ∷ after
  pub less : All (λ q. (ts q).counter <ℤ (ts p).counter) before
  pub most : All (λ q. (ts q).counter ≤ℤ (ts p).counter) after

-- The pass as a recursion on the tasks of the queue.
scan : Tasks → List ℕ → ℤ → Option ℕ → ℤ × Option ℕ
scan ts [] c next = (c, next)
scan ts (x ∷ xs) c next =
    scan ts xs (if ltb_ℤ c (ts x).counter then (ts x).counter else c)
      (if ltb_ℤ c (ts x).counter then some x else next)

pick_loop-scan :
    (rq_head : ℕ) (m : Nodes) (ts : Tasks) (fuel a : ℕ) (xs : List ℕ) (c : ℤ) (next : Option ℕ)
    → Chain m a (map run_list xs) rq_head
    → rq_head ∉ map run_list xs
    → Addresses xs
    → length xs < fuel
    → pick_loop rq_head m ts fuel (m a).next c next ≡ some (scan ts xs c next)
unfolding pick_loop scan
pick_loop-scan rq_head m ts zero a xs c next ch out fit enough = absurd (omega arith)
pick_loop-scan rq_head m ts (suc fuel) a [] c next ch out fit enough = ground (arith, ch.0)
pick_loop-scan rq_head m ts (suc fuel) a (x ∷ xs) c next ch out fit enough =
    let t : task_of (run_list x) ≡ x = task_of-run_list x fit.0 in
    let ne : (run_list x == rq_head) ≡ false = ground arith in
    rw (ch.0, ne, t)
      (pick_loop-scan rq_head m ts fuel (run_list x) xs _ _ ch.2 (ground arith) fit.1 (omega arith))

-- What a pass ends with: the start values where no counter is larger, or the first task with the
-- largest counter.
pub data Scanned (ts : Tasks) (xs : List ℕ) (c : ℤ) (next : Option ℕ) : ℤ × Option ℕ → Type 0 where
  kept : All (λ q. (ts q).counter ≤ℤ c) xs → Scanned ts xs c next (c, next)
  found :
      (p : ℕ) → IsBest ts xs p → c <ℤ (ts p).counter → Scanned ts xs c next ((ts p).counter, some p)

module _ (ts : Tasks) (x : ℕ) (xs : List ℕ) (c : ℤ) (next : Option ℕ) where
  Scanned-skip :
      {r : ℤ × Option ℕ}
      → (ts x).counter ≤ℤ c
      → Scanned ts xs c next r
      → Scanned ts (x ∷ xs) c next r
  Scanned-skip le (kept all) = kept (le, all)
  Scanned-skip le (found p best lt) =
      found p
        (record {
          before = x ∷ best.before;
          after = best.after;
          split = ap (λ l. x ∷ l) best.split;
          less = (omega arith, best.less);
          most = best.most;
        })
        lt

  Scanned-take :
      {r : ℤ × Option ℕ}
      → c <ℤ (ts x).counter
      → Scanned ts xs (ts x).counter (some x) r
      → Scanned ts (x ∷ xs) c next r
  Scanned-take lt (kept all) =
      found x (record { before = []; after = xs; split = refl; less = tt; most = all }) lt
  Scanned-take lt (found p best lt') =
      found p
        (record {
          before = x ∷ best.before;
          after = best.after;
          split = ap (λ l. x ∷ l) best.split;
          less = (lt', best.less);
          most = best.most;
        })
        (omega arith)

scan-Scanned :
    (ts : Tasks) (xs : List ℕ) (c : ℤ) (next : Option ℕ) → Scanned ts xs c next (scan ts xs c next)
unfolding scan
scan-Scanned ts [] c next = kept tt
scan-Scanned ts (x ∷ xs) c next = elim (Bool-cases (ltb_ℤ c (ts x).counter)) [
  | inl better ↦
      rw better (
        Scanned-take ts x xs c next (ltb→lt _ _ better)
          (scan-Scanned ts xs (ts x).counter (some x)))
  | inr worse ↦ rw worse (Scanned-skip ts x xs c next (ground arith) (scan-Scanned ts xs c next))
]

-- A pass over a well linked queue ends, with the first task that has the largest counter, if a
-- counter is larger than the start value.
pub pick_loop-Scanned :
    (rq_head : ℕ) (m : Nodes) (ts : Tasks) (fuel : ℕ) (xs : List ℕ) (c : ℤ) (next : Option ℕ)
    → IsRing m rq_head (map run_list xs)
    → Addresses xs
    → length xs < fuel
    → (r : ℤ × Option ℕ) × (pick_loop rq_head m ts fuel (m rq_head).next c next ≡ some r)
      × Scanned ts xs c next r
pick_loop-Scanned rq_head m ts fuel xs c next ring fit enough = (
  scan ts xs c next,
  pick_loop-scan rq_head m ts fuel rq_head xs c next ring.chain ring.distinct.0 fit enough,
  scan-Scanned ts xs c next,
)
