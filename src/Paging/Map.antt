-- ===== src/Paging/Map.antt =====
-- `map_r_page` and `free_page` against the map from pages to entries that a directory stands for.
use helix_os.Common.{
  ℕ, ◌+◌, ◌/◌, ◌%◌, ◌^◌, ◌≤◌, ◌<◌, ◌≡◌, ◌≢◌, refl, sym, ap, ◌∙◌, true, false, arith, ◌==◌, ◌&&◌,
  if◌then◌else◌, Bool-cases, inl, inr,
}
use helix_os.Paging.{Machine, page_of, ensure_table, put_entry, map_r_page, get_page}
use helix_os.Paging.Flags.{page-flags}
use helix_os.Paging.Tables.{
  IsDir, entry, look, seen, seen_there, entry_left, get_page-look, put-IsDir, put-look,
  ensure_table-grown, grown-IsDir, grown-look, grown_there,
}

-- What `ensure_table` leaves: the table is there, with what stood in its page if it is new.
pub record Ensured (m m' : Machine) (dir k : ℕ) : Type 0 where
  pub is_dir : IsDir m' dir
  pub there : entry m' dir k ≢ 0
  pub same : (l n : ℕ) → l < 1024 → n < 1024 → look m' dir l n ≡ seen m dir k l n

pub ensure_table-Ensured :
    (end : ℕ) (m : Machine) (dir v flags : ℕ)
    → IsDir m dir
    → v < 2 ^ 32
    → flags < 4096
    → m.early_placement + 8192 ≤ 2 ^ 32
    → Ensured m (ensure_table end m dir v flags) dir (v / 2 ^ 22)
unfolding ensure_table
ensure_table-Ensured end m dir v flags d word small room =
    elim (Bool-cases (entry m dir (v / 2 ^ 22) == 0)) [
      | inl absent ↦
          let missing : entry m dir (v / 2 ^ 22) ≡ 0 = ground arith in
          let hk : v / 2 ^ 22 < 1024 = omega arith in
          rw (ensure_table-grown end m dir d (v / 2 ^ 22) flags hk small room missing v refl)
            (record {
              is_dir = grown-IsDir end m dir d (v / 2 ^ 22) flags hk small room missing;
              there = grown_there end m dir d (v / 2 ^ 22) flags hk small room missing;
              same = grown-look end m dir d (v / 2 ^ 22) flags hk small room missing;
            })
      | inr present ↦
          let nonzero : entry m dir (v / 2 ^ 22) ≢ 0 = ground arith in
          rw present (record {
            is_dir = d;
            there = nonzero;
            same = λ l n hl hn. sym (seen_there m dir (v / 2 ^ 22) l n nonzero);
          })
    ]

-- Two addresses are in the same page if they have the same directory and table index.
same_page :
    (v w : ℕ)
    → ((w / 2 ^ 22 == v / 2 ^ 22) && (w / 4096 % 1024 == v / 4096 % 1024)) ≡ (w / 4096 == v / 4096)
same_page v w = elim (Bool-cases (w / 4096 == v / 4096)) [
  | inl same ↦
      let e : w / 4096 ≡ v / 4096 = ground arith in
      let a : (w / 2 ^ 22 == v / 2 ^ 22) ≡ true =
        let h : w / 2 ^ 22 ≡ v / 2 ^ 22 = omega arith in ground arith in
      let b : (w / 4096 % 1024 == v / 4096 % 1024) ≡ true =
        let h : w / 4096 % 1024 ≡ v / 4096 % 1024 = omega arith in ground arith in
      rw (same, a, b) refl
  | inr other ↦
      let ne : w / 4096 ≢ v / 4096 = ground arith in
      elim (Bool-cases (w / 2 ^ 22 == v / 2 ^ 22)) [
        | inl top ↦
            let t : w / 2 ^ 22 ≡ v / 2 ^ 22 = ground arith in
            let low : (w / 4096 % 1024 == v / 4096 % 1024) ≡ false =
              let h : w / 4096 % 1024 ≢ v / 4096 % 1024 = omega arith in ground arith in
            rw (other, top, low) refl
        | inr apart ↦ rw (other, apart) refl
      ]
]

-- The entry of one page is `e`. Those of all other pages are what they were, but for the pages of a
-- table that is new, whose entries are the words that stood in the table's page.
pub record Maps (m m' : Machine) (dir v e : ℕ) : Type 0 where
  pub is_dir : IsDir m' dir
  pub entries :
      (w : ℕ)
      → w < 2 ^ 32
      → get_page m' dir w ≡ (if w / 4096 == v / 4096 then e else entry_left m dir v w)

pub put_entry-Maps :
    (m m' : Machine) (dir v e : ℕ)
    → v < 2 ^ 32
    → IsDir m dir
    → Ensured m m' dir (v / 2 ^ 22)
    → Maps m (put_entry dir v m' e) dir v e
put_entry-Maps m m' dir v e word d s = record {
  is_dir =
      put-IsDir m' dir s.is_dir (v / 2 ^ 22) (v / 4096 % 1024) e (omega arith) (omega arith)
        s.there;
  entries = λ w hw.
      get_page-look (put_entry dir v m' e) dir w d.some_dir
      ∙ put-look m' dir s.is_dir (v / 2 ^ 22) (v / 4096 % 1024) e (omega arith) (omega arith)
          s.there (w / 2 ^ 22) (w / 4096 % 1024) (omega arith) (omega arith)
      ∙ ap (λ b. if b then e else look m' dir (w / 2 ^ 22) (w / 4096 % 1024)) (same_page v w)
      ∙ ap (λ x. if w / 4096 == v / 4096 then e else x)
          (s.same (w / 2 ^ 22) (w / 4096 % 1024) (omega arith) (omega arith));
}

pub map_r_page-Maps :
    (end : ℕ) (m : Machine) (dir vaddress raddress flags : ℕ)
    → IsDir m dir
    → vaddress < 2 ^ 32
    → flags < 4096
    → m.early_placement + 8192 ≤ 2 ^ 32
    → let (ret, m') = map_r_page end m dir vaddress raddress flags in
      (ret ≡ 1) × Maps m m' dir vaddress (page_of raddress + flags)
unfolding map_r_page
map_r_page-Maps end m dir vaddress raddress flags d word small room =
    let some : (dir == 0) ≡ false = let ne = d.some_dir in ground arith in
    let s = ensure_table-Ensured end m dir vaddress flags d word small room in
    rw (some, page-flags raddress flags small)
      (refl, put_entry-Maps m (ensure_table end m dir vaddress flags) dir vaddress _ word d s)
