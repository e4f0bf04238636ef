-- ===== src/PageAlloc/Clients.antt =====
-- The allocator of benos/src/page_alloc.c under any sequence of calls: which pages its callers hold.
use risc_v_lab.Base.{
  ℕ, ◌<◌, ◌≡◌, ◌≢◌, ap, ◌↔◌, inl, inr, refl, arith, ◌==◌, if◌then◌else◌, some, List, [], ◌∷◌,
  length, set, has, ◌∈◌, ◌∉◌, Distinct, length-set, lt_of_get_elem?, get_elem?-set_self,
  get_elem?-set_ne,
}
use native.Mathlib.Decide.{ℕ_discrete}
use risc_v_lab.PageAlloc.{PageAlloc, get_free_page, free_page}
use risc_v_lab.PageAlloc.Get.{IsFree, page_addr, FirstFit, get_free_page-FirstFit}
use risc_v_lab.PageAlloc.Free.{Fits, free_page-page_addr}

-- The allocator and the pages that are in its callers' hands.
pub record Clients : Type 0 where
  pub alloc : PageAlloc
  pub held : List ℕ

unfoldable pub drop_page : ℕ → List ℕ → List ℕ
drop_page p [] = []
drop_page p (q ∷ qs) = if p == q then qs else q ∷ drop_page p qs

-- A caller takes a page, or gives one back that it holds.
pub data Step (c : Clients) : Clients → Type 0 where
  take :
      (get_free_page c.alloc).0 ≢ 0
      → Step c
          (record { alloc = (get_free_page c.alloc).1; held = (get_free_page c.alloc).0 ∷ c.held })
  give :
      (p : ℕ) (a : PageAlloc)
      → p ∈ c.held
      → free_page p c.alloc ≡ some a
      → Step c (record { alloc = a; held = drop_page p c.held })

pub data Reach (c : Clients) : Clients → Type 0 where
  here : Reach c c
  next : {d e : Clients} → Reach c d → Step d e → Reach c e

-- The held pages are pairwise different pages of the memory, and a page is free in the map exactly
-- when nobody holds it.
pub record Owns (c : Clients) : Type 0 where
  pub fits : Fits c.alloc
  pub distinct : Distinct c.held
  pub is_page :
      (p : ℕ) → p ∈ c.held → (i : ℕ) × (i < length c.alloc.mem_map) × (p ≡ page_addr c.alloc i)
  pub free_iff :
      (i : ℕ)
      → i < length c.alloc.mem_map
      → IsFree c.alloc.mem_map i ↔ (page_addr c.alloc i ∉ c.held)

has-drop_page_ne : (a p : ℕ) (qs : List ℕ) → a ≢ p → has a (drop_page p qs) ≡ has a qs
unfolding drop_page
has-drop_page_ne a p [] ne = refl
has-drop_page_ne a p (q ∷ qs) ne = ground (arith, has-drop_page_ne a p qs)

not-mem-drop_page : (a p : ℕ) (qs : List ℕ) → a ∉ qs → a ∉ drop_page p qs
unfolding drop_page
not-mem-drop_page a p [] out = refl
not-mem-drop_page a p (q ∷ qs) out = ground (arith, not-mem-drop_page a p qs)

mem_of_mem-drop_page : (a p : ℕ) (qs : List ℕ) → a ∈ drop_page p qs → a ∈ qs
unfolding drop_page
mem_of_mem-drop_page a p [] h = h
mem_of_mem-drop_page a p (q ∷ qs) h = ground (arith, mem_of_mem-drop_page a p qs)

Distinct-drop_page : (p : ℕ) (qs : List ℕ) → Distinct qs → Distinct (drop_page p qs)
unfolding drop_page
Distinct-drop_page p [] d = d
Distinct-drop_page p (q ∷ qs) d = ground (arith, Distinct-drop_page p qs, not-mem-drop_page q p qs)

gone-drop_page : (p : ℕ) (qs : List ℕ) → Distinct qs → p ∉ drop_page p qs
unfolding drop_page
gone-drop_page p [] d = refl
gone-drop_page p (q ∷ qs) d = ground (arith, gone-drop_page p qs)

-- Different pages have different addresses.
page_addr-injective :
    (s : PageAlloc) (i j : ℕ)
    → Fits s
    → i < length s.mem_map
    → j < length s.mem_map
    → page_addr s i ≡ page_addr s j
    → i ≡ j
page_addr-injective s i j f hi hj e = omega arith

module _ (c : Clients) (o : Owns c) (i : ℕ) where
  abbrev after_take : Clients
  after_take = record {
    alloc = record c.alloc { mem_map = set c.alloc.mem_map i 1 };
    held = page_addr c.alloc i ∷ c.held;
  }

  abbrev after_give : Clients
  after_give = record {
    alloc = record c.alloc { mem_map = set c.alloc.mem_map i 0 };
    held = drop_page (page_addr c.alloc i) c.held;
  }

  take-is_page :
      i < length c.alloc.mem_map
      → (p : ℕ) → p ∈ (page_addr c.alloc i ∷ c.held)
      → (k : ℕ) × (k < length (set c.alloc.mem_map i 1)) × (p ≡ page_addr c.alloc k)
  take-is_page lt p h = elim (ℕ_discrete p (page_addr c.alloc i)) [
    | yes e ↦ (i, rw length-set lt, e)
    | no ne ↦ let (k, below, e) = o.is_page p (ground arith) in (k, rw length-set below, e)
  ]

  take-IsFree_iff :
      IsFree c.alloc.mem_map i
      → (j : ℕ) → j < length (set c.alloc.mem_map i 1)
      → IsFree (set c.alloc.mem_map i 1) j ↔ (page_addr c.alloc j ∉ (page_addr c.alloc i ∷ c.held))
  take-IsFree_iff free j h =
      let same : length (set c.alloc.mem_map i 1) ≡ length c.alloc.mem_map =
        length-set c.alloc.mem_map i 1 in
      let lt : i < length c.alloc.mem_map = lt_of_get_elem? c.alloc.mem_map i 0 free in
      elim (ℕ_discrete i j) [
        | yes e ↦ ground (arith, get_elem?-set_self c.alloc.mem_map i 1 lt, e)
        | no ne ↦ ground (
          arith,
          get_elem?-set_ne c.alloc.mem_map i j 1 ne,
          o.free_iff j,
          page_addr-injective c.alloc i j o.fits lt,
        )
      ]

  give-IsFree_iff :
      i < length c.alloc.mem_map
      → (j : ℕ) → j < length (set c.alloc.mem_map i 0)
      → IsFree (set c.alloc.mem_map i 0) j
        ↔ (page_addr c.alloc j ∉ drop_page (page_addr c.alloc i) c.held)
  give-IsFree_iff lt j h =
      let same : length (set c.alloc.mem_map i 0) ≡ length c.alloc.mem_map =
        length-set c.alloc.mem_map i 0 in
      elim (ℕ_discrete i j) [
        | yes e ↦ ground (
          arith,
          get_elem?-set_self c.alloc.mem_map i 0 lt,
          gone-drop_page (page_addr c.alloc i) c.held o.distinct,
          e,
        )
        | no ne ↦ ground (
          arith,
          get_elem?-set_ne c.alloc.mem_map i j 0 ne,
          o.free_iff j,
          page_addr-injective c.alloc i j o.fits lt,
          has-drop_page_ne (page_addr c.alloc j) (page_addr c.alloc i) c.held,
        )
      ]

  Owns-take : IsFree c.alloc.mem_map i → Owns after_take
  Owns-take free = record {
    fits = omega (arith, length-set c.alloc.mem_map i 1, o.fits);
    distinct = ((o.free_iff i (lt_of_get_elem? c.alloc.mem_map i 0 free)).0 free, o.distinct);
    is_page = take-is_page (lt_of_get_elem? c.alloc.mem_map i 0 free);
    free_iff = take-IsFree_iff free;
  }

  Owns-give : i < length c.alloc.mem_map → Owns after_give
  Owns-give lt = record {
    fits = omega (arith, length-set c.alloc.mem_map i 0, o.fits);
    distinct = Distinct-drop_page _ c.held o.distinct;
    is_page = λ p h.
        let (k, below, e) = o.is_page p (mem_of_mem-drop_page p _ c.held h) in
        (k, rw length-set below, e);
    free_iff = give-IsFree_iff lt;
  }

take-Owns :
    {c : Clients}
    → Owns c
    → (get_free_page c.alloc).0 ≢ 0
    → FirstFit c.alloc
    → Owns (record { alloc = (get_free_page c.alloc).1; held = (get_free_page c.alloc).0 ∷ c.held })
take-Owns o ne (inl (e, _)) = absurd (ne (ap (λ r. r.0) e))
take-Owns {c} o ne (inr (i, e, free, _)) = rw e (Owns-take c o i free)

give-Owns :
    {c : Clients}
    → Owns c
    → (p : ℕ) (a : PageAlloc) → p ∈ c.held
    → free_page p c.alloc ≡ some a
    → Owns (record { alloc = a; held = drop_page p c.held })
give-Owns {c} o p a h e =
    let (i, lt, is) = o.is_page p h in
    let freed : a ≡ record c.alloc { mem_map = set c.alloc.mem_map i 0 } =
      cc (free_page-page_addr c.alloc i o.fits lt) in
    rw (freed, is) (Owns-give c o i lt)

pub Step-Owns : {c d : Clients} → Step c d → Owns c → Owns d
Step-Owns {c} (take ne) o = take-Owns o ne (get_free_page-FirstFit c.alloc)
Step-Owns (give p a h e) o = give-Owns o p a h e

-- Whatever pages the callers take and give back, in whatever order: the pages they hold are
-- pairwise different pages of the memory, and a page is free in the map exactly when nobody
-- holds it. So the allocator never hands out a page that is in use, and loses none.
pub Reach-Owns : {c d : Clients} → Owns c → Reach c d → Owns d
Reach-Owns o here = o
Reach-Owns o (next r st) = Step-Owns st (Reach-Owns o r)
