-- ===== src/Paging/RoundTrip.antt =====
-- `map_page` undone by `free_page`, and `remap_pages` of a page that is not mapped.
use mathlib.Core.Path.{subst}
use helix_os.Common.{
  ℕ, suc, ◌+◌, ◌/◌, ◌%◌, ◌^◌, ◌≤◌, ◌<◌, ◌≡◌, ◌≢◌, refl, sym, ap, ◌∙◌, true, false, some, arith, ltb,
  ◌+w◌,
}
use helix_os.Paging.{Machine, page_of, get_page, map_r_page, remap_loop, remap_pages, page_size}
use helix_os.Paging.Tables.{IsDir, look, get_page-look}
use helix_os.Paging.Map.{Maps, map_r_page-Maps}

page_entry :
    (m : Machine) (dir w v : ℕ)
    → dir ≢ 0
    → w / 4096 ≡ v / 4096
    → get_page m dir w ≡ get_page m dir v
page_entry m dir w v ne p =
    let a : w / 2 ^ 22 ≡ v / 2 ^ 22 = omega arith in
    let b : w / 4096 % 1024 ≡ v / 4096 % 1024 = omega arith in
    get_page-look m dir w ne
    ∙ ap (λ x. look m dir x (w / 4096 % 1024)) a
    ∙ ap (look m dir (v / 2 ^ 22)) b
    ∙ sym (get_page-look m dir v ne)

-- `remap_pages` of a page that is not mapped maps it: to frame 0, with the new flags.
pub remap_pages_unmapped :
    (fuel end : ℕ) (m : Machine) (dir v stop flags : ℕ)
    → IsDir m dir
    → v < stop
    → stop ≤ v + page_size
    → v + page_size < 2 ^ 32
    → flags < 4096
    → m.early_placement + 8192 ≤ 2 ^ 32
    → get_page m dir v ≡ 0
    → (m' : Machine) × (remap_pages (suc (suc fuel)) end m dir v stop flags ≡ some m')
      × Maps m m' dir (page_of v) flags
unfolding remap_pages remap_loop
remap_pages_unmapped fuel end m dir v stop flags d first last word small low none_yet =
    let begin : ltb v stop ≡ true = ground arith in
    let next : v +w page_size ≡ v + page_size = omega arith in
    let done : ltb (v + page_size) stop ≡ false = ground arith in
    let (ret, maps) = map_r_page-Maps end m dir (page_of v) 0 flags d (omega arith) small low in
    (
      (map_r_page end m dir (page_of v) 0 flags).1,
      rw (begin, none_yet, next, done) refl,
      subst (Maps m _ dir (page_of v)) (omega arith) maps,
    )
