-- ===== src/ListHead/Ring.antt =====
-- `list_add`, `list_add_tail` and `list_del` of benos/include/list.h as operations on sequences.
use risc_v_lab.Base.{
  ℕ, zero, ◌≡◌, ◌≢◌, ap, suc, ◌<◌, some, refl, length, ◌↔◌, arith, ◌==◌, true, if◌then◌else◌, List,
  [], ◌∷◌, ◌++◌, ◌∉◌, Distinct, has-append,
}
use risc_v_lab.ListHead.{
  Nodes, set_next, set_prev, list_poison1, list_poison2, list_add', list_add, list_add_tail,
  list_del', list_del, list_empty, list_for_each,
}
use risc_v_lab.ListHead.Chain.{Chain, Chain-frame, prev-mem, next-mem, Chain-split}

-- The circular list at `head` holds the entries `xs`, in the order of the `next` pointers.
pub record IsRing (m : Nodes) (head : ℕ) (xs : List ℕ) : Type 0 where
  pub chain : Chain m head xs head
  pub distinct : Distinct (head ∷ xs)

-- The four writes of `__list_add`, seen from any node.
list_add'-next :
    (new prev next : ℕ) (m : Nodes) (a : ℕ)
    → (list_add' new prev next m a).next
      ≡ (if a == prev then new else if a == new then next else (m a).next)
unfolding list_add'
list_add'-next new prev next m a = ground arith

list_add'-prev :
    (new prev next : ℕ) (m : Nodes) (a : ℕ)
    → (list_add' new prev next m a).prev
      ≡ (if a == new then prev else if a == next then new else (m a).prev)
unfolding list_add'
list_add'-prev new prev next m a = ground arith

list_del'-next :
    (prev next : ℕ) (m : Nodes) (a : ℕ)
    → (list_del' prev next m a).next ≡ (if a == prev then next else (m a).next)
unfolding list_del'
list_del'-next prev next m a = ground arith

list_del'-prev :
    (prev next : ℕ) (m : Nodes) (a : ℕ)
    → (list_del' prev next m a).prev ≡ (if a == next then prev else (m a).prev)
unfolding list_del'
list_del'-prev prev next m a = ground arith

module _ (m : Nodes) (new : ℕ) where
  -- Entering `new` in front of a run.
  Chain-add :
      (h t : ℕ) (xs : List ℕ)
      → Chain m h xs t
      → Distinct (h ∷ xs)
      → t ∉ xs
      → new ∉ (h ∷ xs)
      → new ≢ t
      → Chain (list_add' new h (m h).next m) h (new ∷ xs) t
  Chain-add h t [] c d out fresh ne =
      let n = list_add'-next new h (m h).next m in
      let p = list_add'-prev new h (m h).next m in
      (ground (arith, n h), ground (arith, p new), (ground (arith, n new), ground (arith, p t)))
  Chain-add h t (x ∷ xs) c d out fresh ne =
      let n = list_add'-next new h (m h).next m in
      let p = list_add'-prev new h (m h).next m in
      (
        ground (arith, n h),
        ground (arith, p new),
        (
          ground (arith, n new),
          ground (arith, p x),
          Chain-frame (list_add' new h (m h).next m) x xs t c.2 (λ q i. ground (arith, n q))
              (λ q i. ground (arith, p q)),
        ),
      )

  -- Entering `new` at the end of a run.
  Chain-add_tail :
      (h t : ℕ) (xs : List ℕ)
      → Chain m h xs t
      → Distinct (h ∷ xs)
      → t ∉ xs
      → new ∉ (h ∷ xs)
      → new ≢ t
      → Chain (list_add' new (m t).prev t m) h (xs ++ new ∷ []) t
  Chain-add_tail h t [] c d out fresh ne =
      let n = list_add'-next new (m t).prev t m in
      let p = list_add'-prev new (m t).prev t m in
      (ground (arith, n h), ground (arith, p new), (ground (arith, n new), ground (arith, p t)))
  Chain-add_tail h t (x ∷ xs) c d out fresh ne =
      let last = prev-mem m x xs t c.2 in
      (
        ground (arith, last, list_add'-next new (m t).prev t m h),
        ground (arith, list_add'-prev new (m t).prev t m x),
        Chain-add_tail x t xs c.2 d.1 (ground arith) (ground arith) ne,
      )

-- Unlinking `e` from a run.
Chain-del :
    (m : Nodes) (h e t : ℕ) (xs ys : List ℕ)
    → Chain m h xs e
    → Chain m e ys t
    → Distinct (h ∷ xs ++ e ∷ ys)
    → t ∉ (xs ++ e ∷ ys)
    → Chain (list_del' (m e).prev (m e).next m) h (xs ++ ys) t
Chain-del m h e t [] [] c c' d out =
    let n = list_del'-next (m e).prev (m e).next m in
    let p = list_del'-prev (m e).prev (m e).next m in (ground (arith, n h), ground (arith, p t))
Chain-del m h e t [] (y ∷ ys) c c' d out =
    let n = list_del'-next (m e).prev (m e).next m in
    let p = list_del'-prev (m e).prev (m e).next m in
    (
      ground (arith, n h),
      ground (arith, p y),
      Chain-frame (list_del' (m e).prev (m e).next m) y ys t c'.2 (λ q i. ground (arith, n q))
          (λ q i. ground (arith, p q)),
    )
Chain-del m h e t (x ∷ xs) ys c c' d out =
    let last = prev-mem m x xs e c.2 in
    let first = next-mem m e ys t c' in
    (
      ground (arith, last, list_del'-next (m e).prev (m e).next m h, has-append h xs (e ∷ ys)),
      ground (arith, first, list_del'-prev (m e).prev (m e).next m x, has-append x xs (e ∷ ys)),
      Chain-del m x e t xs ys c.2 c' d.1 (ground arith),
    )

Distinct-snoc : (x : ℕ) (xs : List ℕ) → Distinct xs → x ∉ xs → Distinct (xs ++ x ∷ [])
Distinct-snoc x [] d out = (refl, tt)
Distinct-snoc x (y ∷ ys) d out =
    (ground (arith, has-append y ys (x ∷ [])), Distinct-snoc x ys d.1 (ground arith))

-- The middle entry of a sequence without repetition is in neither part, and the parts have none.
Distinct-middle :
    (xs : List ℕ) (e : ℕ) (ys : List ℕ)
    → Distinct (xs ++ e ∷ ys)
    → Distinct (xs ++ ys) × (e ∉ (xs ++ ys))
Distinct-middle [] e ys d = (d.1, d.0)
Distinct-middle (x ∷ xs) e ys d =
    let rest = Distinct-middle xs e ys d.1 in
    let here : x ∉ (xs ++ ys) = ground (arith, has-append x xs ys, has-append x xs (e ∷ ys)) in
    ((here, rest.0), ground (arith, rest.1, has-append x xs (e ∷ ys)))

-- `list_add` enters an unlinked node at the front of a circular list and keeps the order of the
-- entries; the list stays well linked in both directions.
pub list_add-IsRing :
    {m : Nodes} (new head : ℕ) (xs : List ℕ)
    → IsRing m head xs
    → new ∉ (head ∷ xs)
    → IsRing (list_add new head m) head (new ∷ xs)
unfolding list_add
list_add-IsRing {m} new head xs r fresh = record {
  chain = Chain-add m new head head xs r.chain r.distinct r.distinct.0 fresh (ground arith);
  distinct = ground (arith, r.distinct.0, r.distinct.1);
}

-- `list_add_tail` enters an unlinked node at the end of a circular list and keeps the order of
-- the entries; the list stays well linked in both directions.
pub list_add_tail-IsRing :
    {m : Nodes} (new head : ℕ) (xs : List ℕ)
    → IsRing m head xs
    → new ∉ (head ∷ xs)
    → IsRing (list_add_tail new head m) head (xs ++ new ∷ [])
unfolding list_add_tail
list_add_tail-IsRing {m} new head xs r fresh = record {
  chain = Chain-add_tail m new head head xs r.chain r.distinct r.distinct.0 fresh (ground arith);
  distinct = Distinct-snoc new (head ∷ xs) r.distinct fresh;
}

list_del-other :
    (e : ℕ) (m : Nodes) (a : ℕ) → a ≢ e → list_del e m a ≡ list_del' (m e).prev (m e).next m a
unfolding list_del set_next set_prev
list_del-other e m a ne = ground arith

-- `list_del` takes exactly the given entry out of a circular list, wherever it stands, without
-- being told the head: the others stay in their order and well linked, and the pointers of the
-- entry are poisoned.
pub list_del-IsRing :
    {m : Nodes} (head e : ℕ) (xs ys : List ℕ)
    → IsRing m head (xs ++ e ∷ ys)
    → IsRing (list_del e m) head (xs ++ ys)
      × ((list_del e m e).next ≡ list_poison1)
      × ((list_del e m e).prev ≡ list_poison2)
unfolding list_del
list_del-IsRing {m} head e xs ys r =
    let (front, back) = Chain-split m head xs e ys head r.chain in
    let (distinct, gone) = Distinct-middle (head ∷ xs) e ys r.distinct in
    let unlinked = Chain-del m head e head xs ys front back r.distinct r.distinct.0 in
    (
      record {
        chain =
            Chain-frame (list_del e m) head (xs ++ ys) head unlinked
              (λ p i. ap (λ n. n.next) (list_del-other e m p (λ q. cc)))
              (λ p i. ap (λ n. n.prev) (list_del-other e m p (λ q. cc)));
        distinct = distinct;
      },
      ground arith,
      ground arith,
    )

-- `list_empty` tells exactly whether a circular list has no entry.
pub list_empty_iff :
    {m : Nodes} {head : ℕ} (xs : List ℕ) → IsRing m head xs → (list_empty head m ≡ true) ↔ (xs ≡ [])
unfolding list_empty
list_empty_iff [] r = ground (arith, r.chain.0)
list_empty_iff (x ∷ xs) r = ground (arith, r.chain.0, r.distinct.0)

for_each-Chain :
    (m : Nodes) (fuel a head : ℕ) (xs : List ℕ)
    → Chain m a xs head
    → head ∉ xs
    → length xs < fuel
    → list_for_each fuel (m a).next head m ≡ some xs
unfolding list_for_each
for_each-Chain m zero a head xs c out enough = absurd (omega arith)
for_each-Chain m (suc fuel) a head [] c out enough = ground (arith, c.0)
for_each-Chain m (suc fuel) a head (x ∷ xs) c out enough =
    ground (arith, c.0, for_each-Chain m fuel x head xs c.2)

-- `list_for_each` ends, and visits exactly the entries of a circular list in their order, with one
-- round more than there are entries.
pub list_for_each-IsRing :
    {m : Nodes} {head : ℕ} (fuel : ℕ) (xs : List ℕ)
    → IsRing m head xs
    → length xs < fuel
    → list_for_each fuel (m head).next head m ≡ some xs
list_for_each-IsRing {m} {head} fuel xs r enough =
    for_each-Chain m fuel head head xs r.chain r.distinct.0 enough
