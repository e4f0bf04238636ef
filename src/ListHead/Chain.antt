-- ===== src/ListHead/Chain.antt =====
-- Runs of linked nodes in the memory of benos/include/list.h, and how a write reaches them.
use risc_v_lab.Base.{ℕ, ◌≡◌, arith, List, [], ◌∷◌, ◌++◌, ◌∈◌}
use risc_v_lab.ListHead.{Nodes}

-- From `a` the `next` pointers lead through `xs` to `b`, and the `prev` pointers lead back.
abbrev pub Chain : Nodes → ℕ → List ℕ → ℕ → Type 0
Chain m a [] b = ((m a).next ≡ b) × ((m b).prev ≡ a)
Chain m a (x ∷ xs) b = ((m a).next ≡ x) × ((m x).prev ≡ a) × Chain m x xs b

-- A chain survives a change of the memory that spares its own pointers.
pub Chain-frame :
    {m : Nodes} (g : Nodes) (a : ℕ) (xs : List ℕ) (b : ℕ)
    → Chain m a xs b
    → ((p : ℕ) → p ∈ (a ∷ xs) → (g p).next ≡ (m p).next)
    → ((p : ℕ) → p ∈ (b ∷ xs) → (g p).prev ≡ (m p).prev)
    → Chain g a xs b
Chain-frame g a [] b c same_next same_prev = ground (arith, same_next a, same_prev b)
Chain-frame g a (x ∷ xs) b c same_next same_prev = (
  ground (arith, same_next a),
  ground (arith, same_prev x),
  Chain-frame g x xs b c.2 (λ p h. same_next p (ground arith)) (λ p h. same_prev p (ground arith)),
)

-- A node that is entered last is `prev` of the end, a node of the chain.
pub prev-mem : (m : Nodes) (a : ℕ) (xs : List ℕ) (b : ℕ) → Chain m a xs b → (m b).prev ∈ (a ∷ xs)
prev-mem m a [] b c = ground arith
prev-mem m a (x ∷ xs) b c = ground (arith, prev-mem m x xs b c.2)

pub next-mem : (m : Nodes) (a : ℕ) (xs : List ℕ) (b : ℕ) → Chain m a xs b → (m a).next ∈ (b ∷ xs)
next-mem m a [] b c = ground arith
next-mem m a (x ∷ xs) b c = ground arith

pub Chain-split :
    (m : Nodes) (a : ℕ) (xs : List ℕ) (e : ℕ) (ys : List ℕ) (b : ℕ)
    → Chain m a (xs ++ e ∷ ys) b
    → Chain m a xs e × Chain m e ys b
Chain-split m a [] e ys b c = ((c.0, c.1), c.2)
Chain-split m a (x ∷ xs) e ys b c =
    let (front, back) = Chain-split m x xs e ys b c.2 in ((c.0, c.1, front), back)
