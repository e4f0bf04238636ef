-- ===== src/ListHead.antt =====
-- The doubly linked circular lists of benos/include/list.h. A `struct list_head` is known by its
-- address, and the memory gives the two pointers at each address.
pub mod Chain
pub mod Ring
use risc_v_lab.Base.{
  ℕ, zero, suc, ◌+◌, ◌==◌, if◌then◌else◌, Bool, Option, none, some, List, [], ◌∷◌,
}
use mathlib.Core.Option

pub record ListNode : Type 0 where
  pub next : ℕ
  pub prev : ℕ

abbrev pub Nodes : Type 0
Nodes = ℕ → ListNode

-- The assignments `p->next = q` and `p->prev = q`.
unfoldable pub set_next : ℕ → ℕ → Nodes → Nodes
set_next p q m a = if a == p then record { next = q; prev = (m a).prev } else m a

unfoldable pub set_prev : ℕ → ℕ → Nodes → Nodes
set_prev p q m a = if a == p then record { next = (m a).next; prev = q } else m a

abbrev pub list_poison1 : ℕ
list_poison1 = 0x00100100 + 0xdead000000000000

abbrev pub list_poison2 : ℕ
list_poison2 = 0x00200200 + 0xdead000000000000

unfoldable pub init_list_head : ℕ → Nodes → Nodes
unfolding set_next set_prev
init_list_head list m = set_prev list list (set_next list list m)

-- __list_add
unfoldable pub list_add' : ℕ → ℕ → ℕ → Nodes → Nodes
unfolding set_next set_prev
list_add' new prev next m =
    set_next prev new (set_prev new prev (set_next new next (set_prev next new m)))

unfoldable pub list_add : ℕ → ℕ → Nodes → Nodes
unfolding list_add'
list_add new head m = list_add' new head (m head).next m

unfoldable pub list_add_tail : ℕ → ℕ → Nodes → Nodes
unfolding list_add'
list_add_tail new head m = list_add' new (m head).prev head m

-- __list_del
unfoldable pub list_del' : ℕ → ℕ → Nodes → Nodes
unfolding set_next set_prev
list_del' prev next m = set_next prev next (set_prev next prev m)

-- The last two writes poison the pointers of the entry.
unfoldable pub list_del : ℕ → Nodes → Nodes
unfolding list_del' set_next set_prev
list_del entry m =
    set_prev entry list_poison2
      (set_next entry list_poison1 (list_del' (m entry).prev (m entry).next m))

unfoldable pub list_empty : ℕ → Nodes → Bool
list_empty head m = (m head).next == head

-- The addresses that `list_for_each` visits, from `pos` on; `none` is a lack of fuel.
unfoldable pub list_for_each : ℕ → ℕ → ℕ → Nodes → Option (List ℕ)
list_for_each zero pos head m = none
list_for_each (suc fuel) pos head m =
    let rest = list_for_each fuel (m pos).next head m in
    if pos == head then some [] else Option.map (λ ps. pos ∷ ps) rest
