-- ===== src/PageAlloc/Free.antt =====
-- `free_page` of benos/src/page_alloc.c, and its round trip with `get_free_page`.
use risc_v_lab.Base.{
  ℕ, ◌+◌, ◌*◌, ◌/◌, ◌^◌, ◌≤◌, ◌<◌, ◌≡◌, ◌≢◌, ◌∙◌, ap, length-set, inl, inr, arith, lt→ltb, some,
  length, set, sub64, lt_of_get_elem?, set-set, set-get_elem?,
}
use risc_v_lab.PageAlloc.{PageAlloc, get_free_page, free_page}
use risc_v_lab.PageAlloc.Get.{page_addr, FirstFit, get_free_page-FirstFit}

-- The pages of the map lie below 2 ^ 64, and the first is not at 0.
abbrev pub Fits : PageAlloc → Type 0
Fits s = (0 < s.phy_start_address) × (s.phy_start_address + length s.mem_map * 4096 ≤ 2 ^ 64)

-- The index that `free_page` computes from the address of a page is the page's own.
pub index-page_addr :
    (s : PageAlloc) (i : ℕ)
    → Fits s
    → i < length s.mem_map
    → sub64 (page_addr s i) s.phy_start_address / 4096 ≡ i
index-page_addr s i f h = omega arith

pub free_page-page_addr :
    (s : PageAlloc) (i : ℕ)
    → Fits s
    → i < length s.mem_map
    → free_page (page_addr s i) s ≡ some (record s { mem_map = set s.mem_map i 0 })
unfolding free_page
free_page-page_addr s i f h = rw (index-page_addr s i f h, lt→ltb i (length s.mem_map) h)

undo_get :
    (s : PageAlloc)
    → Fits s
    → (get_free_page s).0 ≢ 0
    → FirstFit s
    → free_page (get_free_page s).0 (get_free_page s).1 ≡ some s
undo_get s f ne (inl (e, _)) = absurd (ne (ap (λ r. r.0) e))
undo_get s f ne (inr (i, e, free, _)) =
    let same : length (set s.mem_map i 1) ≡ length s.mem_map = length-set s.mem_map i 1 in
    let lt : i < length s.mem_map = lt_of_get_elem? s.mem_map i 0 free in
    rw e (
      free_page-page_addr (record s { mem_map = set s.mem_map i 1 }) i (omega arith) (omega arith)
      ∙ ap (λ m. some (record s { mem_map = m }))
          (set-set s.mem_map i 1 0 ∙ set-get_elem? s.mem_map i 0 free))

-- Giving back the page that `get_free_page` has just handed out restores the allocator: the two
-- calls undo one another, for a memory whose pages lie above 0 and below 2 ^ 64 and in which a page
-- was left.
pub free_page-get_free_page :
    (s : PageAlloc)
    → Fits s
    → (get_free_page s).0 ≢ 0
    → free_page (get_free_page s).0 (get_free_page s).1 ≡ some s
free_page-get_free_page s f ne = undo_get s f ne (get_free_page-FirstFit s)
