-- ===== src/LockFree.antt =====
-- The list without locks of others/atomic/example_14_10_free_lock_list.c. The memory has the `next` of
-- each node, with the null pointer as 0. A thread makes one access to the shared memory at a time,
-- so that the threads' steps can be put in any order; `cmpxchg` is one access.
pub mod Alone
pub mod Races
use risc_v_lab.Base.{ℕ, zero, suc, ◌==◌, if◌then◌else◌, Bool, List, [], ◌∷◌}

abbrev pub Links : Type 0
Links = ℕ → ℕ

-- Where a thread stands in `add_node`, which has made the node `new`, or in `del_node`. `crashed` is
-- an access through the null pointer.
pub data Place : Type 0 where
  add_start : ℕ → Place
  add_first : ℕ → ℕ → Place
  add_test : ℕ → ℕ → Place
  add_swap : ℕ → ℕ → Place
  add_next : ℕ → ℕ → Place
  del_start : Place
  del_test : ℕ → ℕ → Place
  del_swap : ℕ → ℕ → Place
  del_next : ℕ → ℕ → Place
  finished : Place
  crashed : Place

unfoldable pub write : ℕ → ℕ → Links → Links
write p v m = λ a. if a == p then v else m a

-- The value that was found, and the memory afterwards.
unfoldable pub cmpxchg : ℕ → ℕ → ℕ → Links → ℕ × Links
cmpxchg ptr old new m = (m ptr, if m ptr == old then write ptr new m else m)

-- One access of `del_node`, with the list at `head`; the other places do not change.
unfoldable pub del_step : ℕ → Place → Links → Place × Links
del_step head del_start m = (if m head == 0 then finished else del_test head (m head), m)
del_step head (del_test prev next) m = (
  if next == 0 then crashed else if m next == 0 then del_swap prev next else del_next prev next,
  m,
)
del_step head (del_swap prev next) m =
    let (found, m') = cmpxchg prev next 0 m in
    (if found == next then finished else del_next prev next, m')
del_step head (del_next prev next) m = (del_test next (m next), m)
del_step head p m = (p, m)

-- One access of `add_node`, or of `del_node`.
unfoldable pub step : ℕ → Place → Links → Place × Links
step head (add_start new) m = (add_first new (m head), m)
step head (add_first new next) m =
    let (found, m') = cmpxchg head 0 new m in
    (if found == 0 then finished else add_test new next, m')
step head (add_test new next) m =
    (if next == 0 then crashed else if m next == 0 then add_swap new next else add_next new next, m)
step head (add_swap new next) m =
    let (found, m') = cmpxchg next 0 new m in
    (if found == 0 then finished else add_next new next, m')
step head (add_next new next) m = (add_test new (m next), m)
step head p m = del_step head p m

-- Steps of one thread alone.
unfoldable pub run : ℕ → ℕ → Place → Links → Place × Links
run zero head p m = (p, m)
run (suc n) head p m = let (p', m') = step head p m in run n head p' m'

-- Two threads with their memory, and their steps in the order that the list says: true is a step of
-- the first.
unfoldable pub interleave : List Bool → ℕ → Place → Place → Links → Place × Place × Links
interleave [] head p q m = (p, q, m)
interleave (turn ∷ turns) head p q m =
    let (p', m1) = if turn then step head p m else (p, m) in
    let (q', m2) = if turn then (q, m1) else step head q m1 in interleave turns head p' q' m2
