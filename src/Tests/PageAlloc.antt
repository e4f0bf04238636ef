-- ===== src/Tests/PageAlloc.antt =====
-- benos/src/page_alloc.c at a map of four pages.
use risc_v_lab.Base.{ℕ, zero, suc, ◌<◌, ◌≡◌, refl, arith, some, [], ◌∷◌, replicate, ◌≤◌}
use risc_v_lab.Mm.{page_align_up, page_align_down}
use risc_v_lab.PageAlloc.{nr_pages, ddr_end, PageAlloc, get_free_page, free_page, mem_init}
use risc_v_lab.PageAlloc.Get.{IsFree}
use risc_v_lab.PageAlloc.Free.{free_page-get_free_page}
use risc_v_lab.PageAlloc.Clients.{Clients, Step, Reach, Owns, Reach-Owns}
use risc_v_lab.PageAlloc.Init.{gets, get_free_page-past_end}

abbrev four : PageAlloc
four = record { mem_map = 1 ∷ 0 ∷ 1 ∷ 0 ∷ []; phy_start_address = 0x80210000 }

get_runs : get_free_page four ≡ (0x80211000, record four { mem_map = 1 ∷ 1 ∷ 1 ∷ 0 ∷ [] })
unfolding get_free_page
get_runs = refl

get_full : (get_free_page (record four { mem_map = 1 ∷ 1 ∷ [] })).0 ≡ 0
unfolding get_free_page
get_full = refl

free_runs : free_page 0x80212abc four ≡ some (record four { mem_map = 1 ∷ 0 ∷ 0 ∷ 0 ∷ [] })
unfolding free_page
free_runs = refl

free_page-get_free_page_example :
    free_page (get_free_page four).0 (get_free_page four).1 ≡ some four
unfolding get_free_page
free_page-get_free_page_example = free_page-get_free_page four (omega arith) (ground arith)

-- A memory of two pages of which nobody holds one, and a caller that takes the first.
abbrev fresh : Clients
fresh = record {
  alloc = record { mem_map = 0 ∷ 0 ∷ []; phy_start_address = 0x80210000 };
  held = [];
}

fresh-IsFree : (i : ℕ) → i < 2 → IsFree (0 ∷ 0 ∷ []) i
fresh-IsFree zero h = refl
fresh-IsFree (suc zero) h = refl
fresh-IsFree (suc (suc i)) h = absurd (omega arith)

fresh-Owns : Owns fresh
fresh-Owns = record {
  fits = omega arith;
  distinct = tt;
  is_page = λ p h. cc;
  free_iff = λ i h. (λ _. refl, λ _. fresh-IsFree i h);
}

abbrev after : Clients
after = record {
  alloc = record { mem_map = 1 ∷ 0 ∷ []; phy_start_address = 0x80210000 };
  held = 0x80210000 ∷ [];
}

takes_one : Reach fresh after
unfolding get_free_page
takes_one = Reach.next Reach.here (Step.take (ground arith))

Reach-Owns_example : Owns after
Reach-Owns_example = Reach-Owns fresh-Owns takes_one

-- The kernel's own memory: all 4096 entries are free, and the image ends at 0x80210000.
abbrev boot : PageAlloc
boot = record { mem_map = replicate nr_pages 0; phy_start_address = 0 }

boot_report :
    mem_init 0x80210000 ddr_end boot
    ≡ some (
      record { free_kb = 14272; nr_free_pages = 3568; start = 0x80210000 },
      record boot { phy_start_address = 0x80210000 },
    )
unfolding mem_init page_align_up page_align_down
boot_report = refl

boot_order : page_align_up 0x80210000 ≤ page_align_down ddr_end
unfolding page_align_up page_align_down
boot_order = omega arith

get_free_page-past_end_example :
    (get_free_page (gets 3568 (record boot { phy_start_address = 0x80210000 }))).0
    ≡ page_align_down ddr_end
get_free_page-past_end_example =
    get_free_page-past_end 0x80210000 ddr_end 527 boot (omega arith) (omega arith) boot_order
      boot_report refl
