-- ===== src/LockFree/Alone.antt =====
-- A thread alone on the list of others/atomic/example_14_10_free_lock_list.c.
use risc_v_lab.Base.{
  ℕ, suc, ◌==◌, false, List, [], ◌∷◌, ◌++◌, ◌∈◌, ◌∉◌, Distinct, ◌≡◌, ◌≢◌, ◌∙◌, ap, sym, refl, arith,
}
use risc_v_lab.LockFree.{
  Links, Place, add_start, add_first, add_test, add_next, finished, write, step, run,
}
use risc_v_lab.LockFree.Races.{
  add_start-reads, add_first-empty, add_first-used, add_test-last, add_swap-last, write-other,
  write-same,
}

-- The nodes behind the node `p`.
abbrev pub Chain : Links → ℕ → List ℕ → Type 0
Chain m p [] = m p ≡ 0
Chain m p (a ∷ nodes) = (m p ≡ a) × (a ≢ 0) × Chain m a nodes

abbrev last_of : ℕ → List ℕ → ℕ
last_of p [] = p
last_of p (a ∷ nodes) = last_of a nodes

-- The steps of an addition: two for each node and two at the end.
abbrev pub rounds : List ℕ → ℕ
rounds [] = 2
rounds (a ∷ nodes) = suc (suc (rounds nodes))

last_of-mem : (a : ℕ) (nodes : List ℕ) → last_of a nodes ∈ (a ∷ nodes)
last_of-mem a [] = ground arith
last_of-mem a (b ∷ nodes) = ground (arith, last_of-mem b nodes)

ne_of_not_mem : (p q : ℕ) (nodes : List ℕ) → p ∉ nodes → q ∈ nodes → p ≢ q
ne_of_not_mem p q nodes out inside = λ e. cc

Chain-append :
    (m : Links) (new p : ℕ) (nodes : List ℕ)
    → Chain m p nodes
    → Distinct (p ∷ nodes)
    → new ∉ (p ∷ nodes)
    → new ≢ 0
    → m new ≡ 0
    → Chain (write (last_of p nodes) new m) p (nodes ++ new ∷ [])
Chain-append m new p [] chain distinct fresh nz empty =
    (write-same p new m, nz, write-other p new new m (λ e. ground arith) ∙ empty)
Chain-append m new p (a ∷ nodes) chain distinct fresh nz empty =
    let apart : p ≢ last_of a nodes =
      ne_of_not_mem p (last_of a nodes) (a ∷ nodes) distinct.0 (last_of-mem a nodes) in
    (
      write-other (last_of a nodes) p new m apart ∙ chain.0,
      chain.1,
      Chain-append m new a nodes chain.2 distinct.1 (ground arith) nz empty,
    )

add_test-more :
    (head new next : ℕ) (m : Links)
    → next ≢ 0
    → m next ≢ 0
    → step head (add_test new next) m ≡ (add_next new next, m)
unfolding step
add_test-more head new next m nn more =
    let ne : (next == 0) ≡ false = ground arith in
    let e : (m next == 0) ≡ false = ground arith in rw (ne, e) refl

add_next-reads :
    (head new next : ℕ) (m : Links) → step head (add_next new next) m ≡ (add_test new (m next), m)
unfolding step
add_next-reads head new next m = refl

run-step :
    (n head : ℕ) (p p' : Place) (m m' : Links)
    → step head p m ≡ (p', m')
    → run (suc n) head p m ≡ run n head p' m'
unfolding run
run-step n head p p' m m' e = ap (λ (r : Place × Links). run n head r.0 r.1) e

run-add_test :
    (head new a : ℕ) (m : Links) (nodes : List ℕ)
    → a ≢ 0
    → Chain m a nodes
    → run (rounds nodes) head (add_test new a) m ≡ (finished, write (last_of a nodes) new m)
unfolding run
run-add_test head new a m [] nz chain =
    rw (add_test-last head new a m nz chain, add_swap-last head new a m chain) refl
run-add_test head new a m (b ∷ nodes) nz chain =
    let more : m a ≢ 0 = λ e. chain.1 (sym chain.0 ∙ e) in
    let next = add_next-reads head new a m ∙ ap (λ (x : ℕ). (add_test new x, m)) chain.0 in
    run-step (suc (rounds nodes)) head (add_test new a) (add_next new a) m m
      (add_test-more head new a m nz more)
    ∙ run-step (rounds nodes) head (add_next new a) (add_test new b) m m next
    ∙ run-add_test head new b m nodes chain.1 chain.2

run-add_start :
    (head new : ℕ) (m : Links) (nodes : List ℕ)
    → Chain m head nodes
    → run (rounds nodes) head (add_start new) m ≡ (finished, write (last_of head nodes) new m)
unfolding run
run-add_start head new m [] chain =
    rw (add_start-reads head new m, add_first-empty head new (m head) m chain) refl
run-add_start head new m (a ∷ nodes) chain =
    let used : m head ≢ 0 = λ e. chain.1 (sym chain.0 ∙ e) in
    let one = add_start-reads head new m ∙ ap (λ (x : ℕ). (add_first new x, m)) chain.0 in
    run-step (suc (rounds nodes)) head (add_start new) (add_first new a) m m one
    ∙ run-step (rounds nodes) head (add_first new a) (add_test new a) m m
        (add_first-used head new a m used)
    ∙ run-add_test head new a m nodes chain.1 chain.2

-- A thread alone that adds a node, which is not in the list and has no next node, to a list whose
-- nodes are distinct ends after two steps for each node and two more; the node then stands at the
-- end, behind all nodes that were there.
pub run-Chain :
    (head new : ℕ) (m : Links) (nodes : List ℕ)
    → Chain m head nodes
    → Distinct (head ∷ nodes)
    → new ∉ (head ∷ nodes)
    → new ≢ 0
    → m new ≡ 0
    → (m' : Links) × (run (rounds nodes) head (add_start new) m ≡ (finished, m'))
      × Chain m' head (nodes ++ new ∷ [])
run-Chain head new m nodes chain distinct fresh nz empty = (
  write (last_of head nodes) new m,
  run-add_start head new m nodes chain,
  Chain-append m new head nodes chain distinct fresh nz empty,
)
