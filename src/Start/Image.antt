-- ===== src/Start/Image.antt =====
-- The image of the kernel of benos/src/kernel.c as it is loaded, and the memory that it leaves free.
use risc_v_lab.Base.{
  ℕ, zero, suc, ◌+◌, ◌*◌, ◌/◌, ◌%◌, ◌^◌, ◌≤◌, ◌<◌, ◌≡◌, ◌≢◌, ◌∙◌, inl, inr, ap, refl, arith, some,
  [], replicate, length, length-replicate, lt_of_get_elem?,
}
use risc_v_lab.Mm.{page_align_up}
use risc_v_lab.Mm.Align.{page_align_up_lem, page_align_down_lem}
use risc_v_lab.ListHead.{init_list_head}
use risc_v_lab.ListHead.Ring.{IsRing}
use risc_v_lab.PageAlloc.{PageAlloc, MemReport, mem_init, get_free_page, ddr_end, nr_pages}
use risc_v_lab.PageAlloc.Get.{FirstFit, get_free_page-FirstFit}
use risc_v_lab.PageAlloc.Init.{mem_init-report}
use risc_v_lab.Sched.{run_list}
use risc_v_lab.Sched.Queue.{IsQueue}
use risc_v_lab.Sched.Reset.{task_links}
use risc_v_lab.Base.Int.{pos}
use risc_v_lab.Kernel.{Layout, Kernel, task}
use risc_v_lab.Kernel.Schedule.{sched_init}
use risc_v_lab.Kernel.Fork.{find_empty_task}
use risc_v_lab.Kernel.Fork.Created.{IsFresh}
use risc_v_lab.Mmu.{Mmu}
use risc_v_lab.Walk.Supply.{
  IsPool, IsFreePage, IsTablePage, free_pages, free_pages-none, free_pages-first,
}
use risc_v_lab.Walk.Empty.{IsEmptyDir}
use risc_v_lab.Walk.Devices.{Spends}
use risc_v_lab.Start.{Linked, Start, clear_range, clean_bss}

-- A memory map whose pages are all free.
abbrev pub all_free : ℕ → ℕ → PageAlloc
all_free n start = record { mem_map = replicate n 0; phy_start_address = start }

pub free_pages-replicate : (n : ℕ) → free_pages (replicate n 0) ≡ n
free_pages-replicate zero = refl
free_pages-replicate (suc n) = ap suc (free_pages-replicate n)

-- Where the pages of such a map lie.
all_free-page :
    (n start p : ℕ)
    → start + n * 4096 ≤ 2 ^ 56
    → IsFreePage (all_free n start) p
    → (start ≤ p) × (p < start + n * 4096)
all_free-page n start p low (j, e, free) =
    let inside = lt_of_get_elem? (replicate n 0) j 0 free in
    omega (arith, length-replicate {A = ℕ} n 0)

all_free-IsPool :
    (n start : ℕ)
    → 0 < start
    → start % 4096 ≡ 0
    → start + n * 4096 ≤ 2 ^ 56
    → IsPool (all_free n start)
all_free-IsPool n start a b c = record {
  positive = a;
  aligned = b;
  low = omega (arith, length-replicate {A = ℕ} n 0);
}

-- The page that `get_free_page` finds, where one is left.
get_free_page-IsFreePage :
    (a : PageAlloc) → 0 < free_pages a.mem_map → FirstFit a → IsFreePage a (get_free_page a).0
get_free_page-IsFreePage a left (inl (e, taken)) =
    absurd (omega (arith, free_pages-none a.mem_map taken))
get_free_page-IsFreePage a left (inr (j, e, free, _)) = (j, ap (λ r. r.0) e, free)

pub sched_init-IsQueue : (l : Layout) (k : Kernel) → IsQueue l.rq_head (sched_init l k).sched []
unfolding sched_init init_list_head
sched_init-IsQueue l k = record {
  ring = record { chain = ground arith; distinct = (refl, tt) };
  addresses = tt;
  counted = refl;
  small = omega arith;
}

-- What the image holds when `kernel_main` is called: an empty directory in the image, which ends in
-- the RAM with 39 pages to spare (one for the alignment, 37 for tables and one for a task), and the
-- first task, alone, as INIT_TASK makes it.
pub record IsImage (i : Linked) (s : Start) : Type 0 where
  pub directory : IsTablePage i.sections.idmap_pg_dir
  pub in_image : i.sections.idmap_pg_dir + 4096 ≤ i.end_image
  pub in_ram : i.end_image + 39 * 4096 ≤ ddr_end
  pub empty : (x : ℕ) → x < 512 → s.machine.mem (i.sections.idmap_pg_dir + x * 8) ≡ 0
  pub queue_head : i.layout.rq_head < i.end_image
  pub first_task : i.layout.init_task < i.end_image
  pub current : s.machine.kernel.current ≡ i.layout.init_task
  pub listed : IsRing (task_links s.machine.kernel.sched.tasks) i.layout.init_task []
  pub count : (task s.machine.kernel i.layout.init_task).preempt_count ≡ pos 0
  pub table : find_empty_task s.machine.kernel ≡ some 1

module _ (i : Linked) (s : Start) (h : IsImage i s) where
  -- The allocator after `mem_init`, and the memory after `clean_bss`.
  abbrev pub start : ℕ
  start = page_align_up i.end_image

  abbrev pub cleaned : Start
  cleaned = clean_bss i s

  abbrev pub mem0 : Mmu
  mem0 = record { mem = cleaned.machine.mem; alloc = all_free nr_pages start }

  start_lem : start ≡ (i.end_image + 4095) / 4096 * 4096
  start_lem = page_align_up_lem i.end_image (omega (arith, h.in_ram))

  pub mem_init-runs :
      (report : MemReport) × (mem_init i.end_image ddr_end cleaned.machine.kernel.alloc
        ≡ some (report, all_free nr_pages start))
  unfolding clean_bss
  mem_init-runs =
      let down = page_align_down_lem ddr_end (omega arith) in
      let (n, pages, runs) =
        mem_init-report i.end_image ddr_end
          (record (s.machine.kernel.alloc) { mem_map = replicate nr_pages 0 })
          (omega (arith, h.in_ram)) (omega arith) (omega (arith, start_lem, down, h.in_ram)) in
      (_, runs)

  pub mem0-IsEmptyDir : IsEmptyDir i.sections.idmap_pg_dir mem0
  unfolding clean_bss clear_range
  mem0-IsEmptyDir = record {
    pool =
        all_free-IsPool nr_pages start (omega (arith, start_lem, h.in_image))
          (omega (arith, start_lem)) (omega (arith, start_lem, h.in_ram));
    page = h.directory;
    own = λ free.
        let (low, high) =
          all_free-page nr_pages start i.sections.idmap_pg_dir (omega (arith, start_lem, h.in_ram))
            free in
        omega (arith, low, start_lem, h.in_image);
    empty = λ x hx. ground (arith, h.empty x hx);
  }

  page_low :
      (a : PageAlloc)
      → a.phy_start_address ≡ start
      → length a.mem_map ≡ nr_pages
      → nr_pages ≤ 37 + free_pages a.mem_map
      → FirstFit a
      → (get_free_page a).0 + 4096 ≤ ddr_end
  page_low a at count left (inl (e, taken)) =
      absurd (omega (arith, free_pages-none a.mem_map taken))
  page_low a at count left (inr (j, e, free, before)) =
      let first = free_pages-first a.mem_map j free before in
      omega (arith, ap (λ r. r.0) e, start_lem, h.in_ram)

  -- The next page lies in the RAM, since all pages in front of it have been taken for tables.
  pub new_page-low : (m : Mmu) → Spends 37 mem0 m → (get_free_page m.alloc).0 + 4096 ≤ ddr_end
  new_page-low m (left, still, same) =
      let count = length-replicate {A = ℕ} nr_pages 0 in
      let free = free_pages-replicate nr_pages in
      page_low m.alloc same.start (same.count ∙ count) (omega arith)
        (get_free_page-FirstFit m.alloc)

  -- The page of the new task is new to the kernel.
  pub new_page-IsFresh :
      (m : Mmu) (k : Kernel)
      → Spends 37 mem0 m
      → k.current ≡ i.layout.init_task
      → (i.end_image ≤ (get_free_page m.alloc).0)
        × IsFresh i.layout k (get_free_page m.alloc).0 [] []
  new_page-IsFresh m k spent at =
      let count = free_pages-replicate nr_pages in
      let p = (get_free_page m.alloc).0 in
      let (low, high) = all_free-page nr_pages start p (omega (arith, start_lem, h.in_ram)) (
        spent.1 p (
          get_free_page-IsFreePage m.alloc (omega (arith, spent.0, count))
            (get_free_page-FirstFit m.alloc))) in
      let behind : i.end_image ≤ p = omega (arith, low, start_lem) in
      (
        behind,
        record {
          fits = omega (arith, high, start_lem, h.in_ram);
          not_null = omega (arith, behind, h.first_task);
          not_current = omega (arith, behind, at, h.first_task);
          not_queued = refl;
          node =
              let ne : run_list p ≢ i.layout.rq_head =
                omega (arith, behind, high, start_lem, h.in_ram, h.queue_head) in
              ground arith;
          not_listed =
              let ne : p ≢ i.layout.init_task = omega (arith, behind, h.first_task) in ground arith;
        },
      )
