-- ===== src/PageAlloc/Init.antt =====
-- `mem_init` of benos/src/page_alloc.c, and the pages that are handed out after it.
use risc_v_lab.Base.{
  ℕ, zero, suc, ◌+◌, ◌-◌, ◌*◌, ◌/◌, ◌^◌, ◌<◌, ◌≤◌, ◌≡◌, ◌∙◌, refl, sym, ap, arith, some, ◌∷◌, ◌++◌,
  replicate, set, u64, sub64,
}
use native.Mathlib.Decide.{dec_lt}
use native.Mathlib.Nat.{zero-add}
use risc_v_lab.Mm.{page_align_up, page_align_down}
use risc_v_lab.Mm.Align.{page_align_up_lem, page_align_down_lem}
use risc_v_lab.PageAlloc.{PageAlloc, MemReport, find_free, get_free_page, count_pages, mem_init}
use risc_v_lab.PageAlloc.Get.{page_addr, get_free_page-some}

-- The loop counts the pages between two page numbers.
count_pages_lem :
    (fuel a b n : ℕ)
    → b * 4096 < 2 ^ 64
    → a * 4096 < 2 ^ 64
    → b - a < fuel
    → count_pages fuel (a * 4096) (b * 4096) n ≡ some (n + (b - a))
unfolding count_pages
count_pages_lem zero a b n top first more = absurd (omega arith)
count_pages_lem (suc fuel) a b n top first more = elim (dec_lt a b) [
  | yes lt ↦
      let here : u64 (a * 4096 + 4096) ≡ (a + 1) * 4096 = omega arith in
      ground (arith, here, count_pages_lem fuel (a + 1) b (n + 1))
  | no ge ↦ ground arith
]

-- `mem_init` ends, and its report is right: for a range that ends below 2 ^ 64 and is not empty
-- after rounding, it prints the number of whole pages between the rounded ends, four times as many
-- KB, and the rounded start; that start is stored, and the map stays as it was.
pub mem_init-report :
    (start_mem end_mem : ℕ) (s : PageAlloc)
    → start_mem + 4095 < 2 ^ 64
    → end_mem < 2 ^ 64
    → page_align_up start_mem ≤ page_align_down end_mem
    → (n : ℕ) × (page_align_up start_mem + n * 4096 ≡ page_align_down end_mem)
      × (mem_init start_mem end_mem s
          ≡ some (
            record { free_kb = 4 * n; nr_free_pages = n; start = page_align_up start_mem },
            record s { phy_start_address = page_align_up start_mem },
          ))
unfolding mem_init
mem_init-report start_mem end_mem s low high order =
    let up : page_align_up start_mem ≡ (start_mem + 4095) / 4096 * 4096 =
      page_align_up_lem start_mem low in
    let down : page_align_down end_mem ≡ end_mem / 4096 * 4096 = page_align_down_lem end_mem high in
    let a = (start_mem + 4095) / 4096 in
    let b = end_mem / 4096 in
    let counted : count_pages (page_align_down end_mem / 4096 + 2) (page_align_up start_mem)
          (page_align_down end_mem) 0
        ≡ some (b - a) =
      rw (up, down)
        (count_pages_lem (b * 4096 / 4096 + 2) a b 0 (omega arith) (omega arith) (omega arith)
          ∙ ap some (zero-add (b - a))) in
    let kb : sub64 (page_align_down end_mem) (page_align_up start_mem) / 1024 ≡ 4 * (b - a) =
      omega arith in
    (b - a, omega arith, rw (counted, kb, mem_init))

-- The state after `k` calls of `get_free_page`.
unfoldable pub gets : ℕ → PageAlloc → PageAlloc
gets zero s = s
gets (suc k) s = (get_free_page (gets k s)).1

find_free-replicate :
    (k i m : ℕ) → find_free i (replicate k 1 ++ replicate (suc m) 0) ≡ some (i + k)
unfolding find_free
find_free-replicate zero i m = ground arith
find_free-replicate (suc k) i m = ground (arith, find_free-replicate k (i + 1) m)

set-replicate :
    (k m : ℕ)
    → set {A = ℕ} (replicate k 1 ++ replicate (suc m) 0) k 1 ≡ replicate (suc k) 1 ++ replicate m 0
set-replicate zero m = refl
set-replicate (suc k) m = ap (λ l. 1 ∷ l) (set-replicate k m)

-- The state in which the pages 0 to `k - 1` are taken and `m` more are free.
abbrev filled : ℕ → ℕ → PageAlloc → PageAlloc
filled k m s = record s { mem_map = replicate k 1 ++ replicate m 0 }

get_free_page-filled :
    (k m : ℕ) (s : PageAlloc)
    → get_free_page (filled k (suc m) s) ≡ (page_addr s k, filled (suc k) m s)
get_free_page-filled k m s =
    get_free_page-some (filled k (suc m) s) k (find_free-replicate k 0 m ∙ ap some (zero-add k))
    ∙ ap (λ l. (page_addr s k, record s { mem_map = l })) (set-replicate k m)

gets_fresh : (k m : ℕ) (s : PageAlloc) → s.mem_map ≡ replicate (k + m) 0 → gets k s ≡ filled k m s
unfolding gets
gets_fresh zero m s e =
    let same : m ≡ 0 + m = omega arith in
    ap (λ l. record s { mem_map = l }) (e ∙ ap (λ t. replicate t 0) (sym same))
gets_fresh (suc k) m s e =
    let same : suc k + m ≡ k + suc m = omega arith in
    ap (λ t. (get_free_page t).1) (gets_fresh k (suc m) s (e ∙ ap (λ t. replicate t 0) same))
    ∙ ap (λ r. r.1) (get_free_page-filled k m s)

-- From an empty map `get_free_page` hands the pages out in order: call `k` (from 0) returns the
-- address of page `k`.
pub get_free_page-gets :
    (k m : ℕ) (s : PageAlloc)
    → s.mem_map ≡ replicate (k + suc m) 0
    → (get_free_page (gets k s)).0 ≡ u64 (s.phy_start_address + k * 4096)
get_free_page-gets k m s e =
    ap (λ t. (get_free_page t).0) (gets_fresh k (suc m) s e)
    ∙ ap (λ r. r.0) (get_free_page-filled k m s)

-- The map always has `NR_PAGES` entries, however little memory `mem_init` reports. So where it
-- reports `n` pages, fewer than the entries of an empty map, the call of `get_free_page` after `n`
-- calls does not fail: it returns the address at which the memory ends.
pub get_free_page-past_end :
    (start_mem end_mem m : ℕ) (s : PageAlloc) {r : MemReport} {t : PageAlloc}
    → start_mem + 4095 < 2 ^ 64
    → end_mem < 2 ^ 64
    → page_align_up start_mem ≤ page_align_down end_mem
    → mem_init start_mem end_mem s ≡ some (r, t)
    → s.mem_map ≡ replicate (r.nr_free_pages + suc m) 0
    → (get_free_page (gets r.nr_free_pages t)).0 ≡ page_align_down end_mem
get_free_page-past_end start_mem end_mem m s {r} {t} low high order ran empty =
    let (n, ends, e) = mem_init-report start_mem end_mem s low high order in
    let got : ◌≡◌ {A = MemReport × PageAlloc} (r, t)
        (
          record { free_kb = 4 * n; nr_free_pages = n; start = page_align_up start_mem },
          record s { phy_start_address = page_align_up start_mem },
        ) =
      cc (ran, e) in
    let count : r.nr_free_pages ≡ n = ap (λ x. x.0.nr_free_pages) got in
    let start : t.phy_start_address ≡ page_align_up start_mem =
      ap (λ x. x.1.phy_start_address) got in
    get_free_page-gets r.nr_free_pages m t (ap (λ x. x.1.mem_map) got ∙ empty)
    ∙ omega (arith, page_align_down_lem end_mem high)
