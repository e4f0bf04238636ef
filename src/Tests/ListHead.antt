-- ===== src/Tests/ListHead.antt =====
-- benos/include/list.h at a list of two entries.
use risc_v_lab.Base.{ℕ, ◌≡◌, refl, ◌==◌, if◌then◌else◌, some, List, [], ◌∷◌}
use risc_v_lab.ListHead.{Nodes, list_poison1, list_poison2, list_add, list_del, list_for_each}
use risc_v_lab.ListHead.Ring.{IsRing, list_del-IsRing}

abbrev entries : List ℕ
entries = 200 ∷ 300 ∷ []

abbrev two : Nodes
two a =
    if a == 100
    then record { next = 200; prev = 300 }
    else if a == 200
    then record { next = 300; prev = 100 }
    else record { next = 100; prev = 200 }

two-IsRing : IsRing two 100 (200 ∷ 300 ∷ [])
two-IsRing = record {
  chain = (refl, refl, (refl, refl, (refl, refl)));
  distinct = (refl, (refl, (refl, tt)));
}

walk_runs :
    list_for_each 4 (list_add 250 100 two 100).next 100 (list_add 250 100 two)
    ≡ some (250 ∷ 200 ∷ 300 ∷ [])
unfolding list_for_each list_add
walk_runs = refl

list_del-IsRing_example :
    IsRing (list_del 200 two) 100 (300 ∷ [])
    × ((list_del 200 two 200).next ≡ list_poison1)
    × ((list_del 200 two 200).prev ≡ list_poison2)
list_del-IsRing_example = list_del-IsRing 100 200 [] (300 ∷ []) two-IsRing
