-- ===== src/LockFree/Races.antt =====
-- Two threads on the list of others/atomic/example_14_10_free_lock_list.c.
use risc_v_lab.Base.{ℕ, ◌==◌, Bool, true, false, List, [], ◌∷◌, ◌≡◌, ◌≢◌, ◌∙◌, ap, sym, refl, arith}
use risc_v_lab.LockFree.{
  Links, add_start, add_first, add_test, add_swap, del_start, del_test, del_swap, finished, crashed,
  write, cmpxchg, del_step, step, interleave,
}

-- The steps of both on a list with one node.
module _ (head new next : ℕ) (m : Links) where
  pub add_first-used : m head ≢ 0 → step head (add_first new next) m ≡ (add_test new next, m)
  unfolding step cmpxchg
  add_first-used used = let ne : (m head == 0) ≡ false = ground arith in rw ne refl

  pub add_test-last :
      next ≢ 0 → m next ≡ 0 → step head (add_test new next) m ≡ (add_swap new next, m)
  unfolding step
  add_test-last nn last =
      let ne : (next == 0) ≡ false = ground arith in
      let e : (m next == 0) ≡ true = ground arith in rw (ne, e) refl

  pub add_swap-last : m next ≡ 0 → step head (add_swap new next) m ≡ (finished, write next new m)
  unfolding step cmpxchg
  add_swap-last last = let e : (m next == 0) ≡ true = ground arith in rw e refl

module _ (head prev next : ℕ) (m : Links) where
  pub del_test-last :
      next ≢ 0 → m next ≡ 0 → step head (del_test prev next) m ≡ (del_swap prev next, m)
  unfolding step del_step
  del_test-last nn last =
      let ne : (next == 0) ≡ false = ground arith in
      let e : (m next == 0) ≡ true = ground arith in rw (ne, e) refl

  pub del_swap-found : m prev ≡ next → step head (del_swap prev next) m ≡ (finished, write prev 0 m)
  unfolding step del_step cmpxchg
  del_swap-found found = let e : (m prev == next) ≡ true = ground arith in rw e refl

pub add_first-empty :
    (head new next : ℕ) (m : Links)
    → m head ≡ 0
    → step head (add_first new next) m ≡ (finished, write head new m)
unfolding step cmpxchg
add_first-empty head new next m empty = let e : (m head == 0) ≡ true = ground arith in rw e refl

add_test-null : (head new : ℕ) (m : Links) → step head (add_test new 0) m ≡ (crashed, m)
unfolding step
add_test-null head new m = refl

pub add_start-reads :
    (head new : ℕ) (m : Links) → step head (add_start new) m ≡ (add_first new (m head), m)
unfolding step
add_start-reads head new m = refl

pub del_start-used :
    (head : ℕ) (m : Links) → m head ≢ 0 → step head del_start m ≡ (del_test head (m head), m)
unfolding step del_step
del_start-used head m used = let ne : (m head == 0) ≡ false = ground arith in rw ne refl

pub write-other : (p q v : ℕ) (m : Links) → q ≢ p → write p v m q ≡ m q
unfolding write
write-other p q v m ne = let e : (q == p) ≡ false = ground arith in rw e refl

pub write-same : (p v : ℕ) (m : Links) → write p v m p ≡ v
unfolding write
write-same p v m = let e : (p == p) ≡ true = ground arith in rw e refl

-- The order in which the new node is put behind the node that is deleted next.
abbrev pub losing : List Bool
losing = true ∷ true ∷ true ∷ false ∷ false ∷ true ∷ false ∷ []

-- On a list with the one node `a`, a thread that adds the node `new` and one that deletes the last
-- node can both end as if they had succeeded and leave the list empty: in one order of their steps
-- the new node is put behind the node that is deleted, and is lost.
pub interleave-lost :
    (head a new : ℕ) (m : Links)
    → a ≢ 0
    → head ≢ a
    → m head ≡ a
    → m a ≡ 0
    → (m' : Links) × (interleave losing head (add_start new) del_start m ≡ (finished, finished, m'))
      × (m' head ≡ 0)
      × (m' a ≡ new)
unfolding interleave
interleave-lost head a new m ha apart first last =
    let used : m head ≢ 0 = λ e. ha (sym first ∙ e) in
    let one = add_start-reads head new m ∙ ap (λ (x : ℕ). (add_first new x, m)) first in
    let two = add_first-used head new a m used in
    let three = add_test-last head new a m ha last in
    let four = del_start-used head m used ∙ ap (λ (x : ℕ). (del_test head x, m)) first in
    let five = del_test-last head head a m ha last in
    let six = add_swap-last head new a m last in
    let m1 = write a new m in
    let seven = del_swap-found head head a m1 (write-other a head new m apart ∙ first) in
    (
      write head 0 m1,
      rw (one, two, three, four, five, six, seven) refl,
      write-same head 0 m1,
      write-other head a 0 m1 (λ e. apart (sym e)) ∙ write-same a new m,
    )

-- The order in which two threads both find the list empty.
abbrev pub crashing : List Bool
crashing = true ∷ false ∷ true ∷ false ∷ false ∷ []

-- On an empty list two threads that add the nodes `new` and `other`: in one order of their steps the
-- second goes on from the null pointer that it read before the first put its node in.
pub interleave-crashes :
    (head new other : ℕ) (m : Links)
    → new ≢ 0
    → m head ≡ 0
    → (m' : Links) × (interleave crashing head (add_start new) (add_start other) m
        ≡ (finished, crashed, m'))
unfolding interleave
interleave-crashes head new other m hn empty =
    let one = add_start-reads head new m ∙ ap (λ (x : ℕ). (add_first new x, m)) empty in
    let two = add_start-reads head other m ∙ ap (λ (x : ℕ). (add_first other x, m)) empty in
    let m1 = write head new m in
    let three = add_first-empty head new 0 m empty in
    let four = add_first-used head other 0 m1 (λ e. hn (sym (write-same head new m) ∙ e)) in
    let five = add_test-null head other m1 in (m1, rw (one, two, three, four, five) refl)
