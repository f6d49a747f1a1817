-- ===== src/Paging/Owned.antt =====
-- `map_page` gives a page a frame that was free, and `free_page` returns it.
use helix_os.Common.{
  ℕ, ◌+◌, ◌*◌, ◌/◌, ◌%◌, ◌^◌, ◌≤◌, ◌<◌, ◌≡◌, ◌≢◌, refl, sym, ap, ◌∙◌, Bool, true, false, Option,
  some, List, arith, ltb, ◌==◌, if◌then◌else◌, length, ◌>>=◌, ◌+w◌, ◌-w◌,
}
use helix_os.Region.{bitmap_get}
use helix_os.Region.Bits.{AllBytes}
use helix_os.Region.Runs.{Marked, bitmap_unset-Marked}
use helix_os.Paging.{
  Machine, page_of, bm_set_bit, set_frame, ensure_table, put_entry, free_page, release_frame,
  get_page,
}
use helix_os.Paging.Tables.{IsDir, entry, look, get_page-look, seen_there}
use helix_os.Paging.Map.{Maps, Ensured, put_entry-Maps}
use helix_os.Paging.Frames.{Room, IsDir-counts, bm_set_bit-false}

-- The bitmap of frames is there, and is one of at most 2 ^ 20 frames.
pub record HasMap (m : Machine) (map : List ℕ) : Type 0 where
  pub there : m.page_bitmap ≡ some map
  pub bytes : AllBytes map
  pub small : length map ≤ 2 ^ 17

-- A change of the bitmap and the counters keeps the map from pages to entries.
abbrev counted : Machine → List ℕ → ℕ → ℕ → Machine
counted m map hint nfree = record m {
  page_bitmap = some map;
  last_free_page = hint;
  nfree_pages = nfree;
}

Maps-counts :
    (m m' : Machine) (dir v e : ℕ) (map : List ℕ) (hint nfree : ℕ)
    → Maps m m' dir v e
    → Maps m (counted m' map hint nfree) dir v e
unfolding get_page
Maps-counts m m' dir v e map hint nfree s = record {
  is_dir = IsDir-counts m' dir (some map) hint nfree s.is_dir;
  entries = s.entries;
}

set_frame-bit :
    (m : Machine) (map map' : List ℕ) (frame : ℕ) (v : Bool)
    → m.page_bitmap ≡ some map
    → bm_set_bit map frame v ≡ some map'
    → set_frame m frame v ≡ some (record m { page_bitmap = some map' })
unfolding set_frame
set_frame-bit m map map' frame v there bit = rw (there, bit) refl

abbrev one_with : Option Machine → Option (ℕ × Machine)
one_with r = r >>= λ m. some (1, m)

-- What `map_page` leaves: some frame that was free is taken, and the page has it with the flags.
pub record Mapped (m : Machine) (map : List ℕ) (dir v flags : ℕ) (r : Option (ℕ × Machine))
    : Type 0 where
  pub frame : ℕ
  pub result : Machine
  pub map' : List ℕ
  pub returned : r ≡ some (1, result)
  pub was_free : bitmap_get map frame ≡ some false
  pub inside : frame < 8 * length map
  pub marked : Marked true frame 1 map map'
  pub now : result.page_bitmap ≡ some map'
  pub count : result.nfree_pages ≡ m.nfree_pages -w 1
  pub maps : Maps m result dir v (frame * 4096 + flags)

module _ (end : ℕ) (m : Machine) (map : List ℕ) (dir v flags : ℕ) (h : HasMap m map)
    (d : IsDir m dir) (word : v < 2 ^ 32) (small : flags < 4096)
    (low : m.early_placement + 8192 ≤ 2 ^ 32) (r : Room map m.last_free_page) where
  -- The state after the frame was taken, but for its bit.
  before_bit : ℕ → ℕ → Machine
  before_bit frame hint =
      let m1 = record m { last_free_page = hint; nfree_pages = m.nfree_pages -w 1 } in
      put_entry dir v (ensure_table end m1 dir v flags) (frame * 4096 + flags)

abbrev freeing : ℕ → Option Machine → Option (ℕ × Machine)
freeing raddress r = r >>= λ m. some (
  1,
  record m {
    last_free_page =
        if ltb (raddress / 2 ^ 15) m.last_free_page then raddress / 2 ^ 15 else m.last_free_page;
    nfree_pages = m.nfree_pages +w 1;
  },
)

-- What `free_page` leaves: the frame is free, and the page has no entry.
pub record Freed (m : Machine) (map : List ℕ) (dir v raddress : ℕ) (r : Option (ℕ × Machine))
    : Type 0 where
  pub result : Machine
  pub map' : List ℕ
  pub returned : r ≡ some (1, result)
  pub marked : Marked false (raddress / 4096) 1 map map'
  pub now : result.page_bitmap ≡ some map'
  pub count : result.nfree_pages ≡ m.nfree_pages +w 1
  pub hint_le : result.last_free_page ≤ raddress / 2 ^ 15
  pub is_dir : IsDir result dir
  pub entries :
      (w : ℕ)
      → w < 2 ^ 32
      → get_page result dir w ≡ (if w / 4096 == v / 4096 then 0 else get_page m dir w)

-- `free_page` of a page that has an entry, whose frame is one of the bitmap, returns 1 and marks the
-- frame as free, and no other. The page has no entry then, every other page the one that it had, and
-- the hint for the next search is at or below the frame's byte.
pub free_page-Freed :
    (m : Machine) (map : List ℕ) (dir v raddress : ℕ)
    → HasMap m map
    → IsDir m dir
    → v < 2 ^ 32
    → get_page m dir v ≡ raddress
    → raddress ≢ 0
    → raddress / 4096 < 8 * length map
    → Freed m map dir v raddress (free_page m dir v)
unfolding free_page release_frame
free_page-Freed m map dir v raddress h d word has ne inside =
    let some_dir : (dir == 0) ≡ false = let z = d.some_dir in ground arith in
    let at : look m dir (v / 2 ^ 22) (v / 4096 % 1024) ≡ raddress =
      sym (get_page-look m dir v d.some_dir) ∙ has in
    let nonzero : entry m dir (v / 2 ^ 22) ≢ 0 = λ z.
      ne (sym at ∙ (let t : (entry m dir (v / 2 ^ 22) == 0) ≡ true = ground arith in rw t refl)) in
    let there : (entry m dir (v / 2 ^ 22) == 0) ≡ false = ground arith in
    let word_at : m.memory (page_of (entry m dir (v / 2 ^ 22)) + 4 * (v / 4096 % 1024)) ≡ raddress =
      ap
        (λ b.
          if b then 0 else m.memory (page_of (entry m dir (v / 2 ^ 22)) + 4 * (v / 4096 % 1024)))
        (sym there)
      ∙ at in
    let frame : (raddress == 0) ≡ false = ground arith in
    let (map', e, marked) = bitmap_unset-Marked map h.bytes (raddress / 4096) inside in
    let bit = bm_set_bit-false map (raddress / 4096) ∙ e in
    let cleared = put_entry dir v m 0 in
    let s : Ensured m m dir (v / 2 ^ 22) = record {
      is_dir = d;
      there = nonzero;
      same = λ l n hl hn. sym (seen_there m dir (v / 2 ^ 22) l n nonzero);
    } in
    let hint =
      if ltb (raddress / 2 ^ 15) m.last_free_page then raddress / 2 ^ 15 else m.last_free_page in
    let maps =
      Maps-counts m cleared dir v 0 map' hint (m.nfree_pages +w 1)
        (put_entry-Maps m m dir v 0 word d s) in
    record {
      result = counted cleared map' hint (m.nfree_pages +w 1);
      map' = map';
      returned =
          rw (some_dir, there, word_at, frame)
            (ap (freeing raddress)
              (set_frame-bit cleared map map' (raddress / 4096) false h.there bit));
      marked = marked;
      now = refl;
      count = refl;
      hint_le = ground arith;
      is_dir = maps.is_dir;
      entries = λ w hw.
          maps.entries w hw
          ∙ ap (λ x. if w / 4096 == v / 4096 then 0 else x)
              (seen_there m dir (v / 2 ^ 22) (w / 2 ^ 22) (w / 4096 % 1024) nonzero
                ∙ sym (get_page-look m dir w d.some_dir));
    }
