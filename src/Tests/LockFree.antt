-- ===== src/Tests/LockFree.antt =====
-- others/atomic/example_14_10_free_lock_list.c with the list at 1 and the nodes 10, 20 and 30.
use risc_v_lab.Base.{◌==◌, if◌then◌else◌, [], ◌∷◌, ◌++◌, ◌≡◌, refl, arith}
use risc_v_lab.LockFree.{Links, add_start, del_start, finished, run, interleave}
use risc_v_lab.LockFree.Alone.{Chain, rounds, run-Chain}
use risc_v_lab.LockFree.Races.{losing, interleave-lost}

abbrev two_nodes : Links
two_nodes = λ a. if a == 1 then 10 else if a == 10 then 20 else 0

abbrev one_node : Links
one_node = λ a. if a == 1 then 10 else 0

run-Chain_example :
    (m' : Links) × (run (rounds (10 ∷ 20 ∷ [])) 1 (add_start 30) two_nodes ≡ (finished, m'))
    × Chain m' 1 ((10 ∷ 20 ∷ []) ++ 30 ∷ [])
run-Chain_example =
    run-Chain 1 30 two_nodes (10 ∷ 20 ∷ []) (refl, omega arith, (refl, omega arith, refl))
      (refl, (refl, (refl, tt))) refl (omega arith) refl

interleave-lost_example :
    (m' : Links) × (interleave losing 1 (add_start 20) del_start one_node
      ≡ (finished, finished, m'))
    × (m' 1 ≡ 0)
    × (m' 10 ≡ 20)
interleave-lost_example = interleave-lost 1 10 20 one_node (omega arith) (omega arith) refl refl
