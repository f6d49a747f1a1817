-- ===== src/Paging/Tables.antt =====
-- The page tables as a map from pages to entries.
use mathlib.Core.Path.{subst}
use Prim.Native.Nat.{bit_or}
use helix_os.Common.{
  ℕ, ◌+◌, ◌*◌, ◌/◌, ◌%◌, ◌^◌, ◌≤◌, ◌<◌, ◌≡◌, ◌≢◌, refl, sym, ap, ◌∙◌, true, false, arith, ◌==◌,
  ◌&&◌, if◌then◌else◌, ◌+w◌, Bool-cases, inl, inr, ◌⊎◌, ℕ_discrete, ◌⊎◌,
}
use helix_os.Paging.{
  Machine, page_of, page_size, store, align_up, early_start, kmalloc_early, dir_slot, ensure_table,
  get_page,
}
use helix_os.Paging.Flags.{page-flags}

-- The `k`-th word of the directory, the table that it points to, and the `j`-th entry of that.
abbrev pub entry : Machine → ℕ → ℕ → ℕ
entry m dir k = m.memory (dir + 4 * k)

abbrev pub table : Machine → ℕ → ℕ → ℕ
table m dir k = page_of (entry m dir k)

abbrev pub look : Machine → ℕ → ℕ → ℕ → ℕ
look m dir k j = if entry m dir k == 0 then 0 else m.memory (table m dir k + 4 * j)

-- A directory whose tables are different pages, all of them below what the early allocator hands out
-- next.
pub record IsDir (m : Machine) (dir : ℕ) : Type 0 where
  pub some_dir : dir ≢ 0
  pub aligned : dir % 4096 ≡ 0
  pub below : dir + 4096 ≤ m.early_placement
  pub tables_below :
      (k : ℕ) → k < 1024 → entry m dir k ≢ 0 → table m dir k + 4096 ≤ m.early_placement
  pub apart_dir : (k : ℕ) → k < 1024 → entry m dir k ≢ 0 → table m dir k ≢ dir
  pub apart :
      (k l : ℕ)
      → k < 1024
      → l < 1024
      → k ≢ l
      → entry m dir k ≢ 0
      → entry m dir l ≢ 0
      → table m dir k ≢ table m dir l

-- The `n`-th entry of the `l`-th table once the `k`-th table is there. A table that was missing is not
-- cleared, and its entries are the words that stood in its page.
abbrev pub seen : Machine → ℕ → ℕ → ℕ → ℕ → ℕ
seen m dir k l n =
    if (entry m dir k == 0) && (l == k)
    then m.memory (align_up m.early_placement + 4 * n)
    else look m dir l n

pub seen_there :
    (m : Machine) (dir k l n : ℕ) → entry m dir k ≢ 0 → seen m dir k l n ≡ look m dir l n
seen_there m dir k l n there = let z : (entry m dir k == 0) ≡ false = ground arith in rw z refl

-- The entry of the page of `w` once the table for `v` is there.
abbrev pub entry_left : Machine → ℕ → ℕ → ℕ → ℕ
entry_left m dir v w = seen m dir (v / 2 ^ 22) (w / 2 ^ 22) (w / 4096 % 1024)

pub get_page-look :
    (m : Machine) (dir v : ℕ)
    → dir ≢ 0
    → get_page m dir v ≡ look m dir (v / 2 ^ 22) (v / 4096 % 1024)
unfolding get_page
get_page-look m dir v ne = let z : (dir == 0) ≡ false = ground arith in rw z refl

store_at : (memory : ℕ → ℕ) (a v : ℕ) → store memory a v a ≡ v
store_at memory a v = let e : (a == a) ≡ true = ground arith in rw e refl

store_ne : (memory : ℕ → ℕ) (a v b : ℕ) → b ≢ a → store memory a v b ≡ memory b
store_ne memory a v b ne = let e : (b == a) ≡ false = ground arith in rw e refl

-- Words of different pages, or of different places of a page.
slot_ne :
    (a b i j : ℕ)
    → a % 4096 ≡ 0
    → b % 4096 ≡ 0
    → a ≢ b
    → i < 1024
    → j < 1024
    → a + 4 * i ≢ b + 4 * j
slot_ne a b i j ha hb ne hi hj = omega arith

align_up_lem :
    (a : ℕ)
    → a + 8192 ≤ 2 ^ 32
    → (align_up a % 4096 ≡ 0) × (a ≤ align_up a) × (align_up a < a + 4096)
unfolding align_up
align_up_lem a room = ground arith

module _ (m : Machine) (dir : ℕ) (d : IsDir m dir) (k j e : ℕ) (hk : k < 1024) (hj : j < 1024)
    (there : entry m dir k ≢ 0) where
  abbrev pub put : Machine
  put = record m { memory = store m.memory (table m dir k + 4 * j) e }

  put-entry : (l : ℕ) → l < 1024 → entry put dir l ≡ entry m dir l
  put-entry l hl = store_ne m.memory _ e _ (
      slot_ne dir (table m dir k) l j d.aligned (omega arith) (λ z. d.apart_dir k hk there (sym z))
        hl hj)

  pub put-IsDir : IsDir put dir
  put-IsDir =
      let same = put-entry in
      record {
        some_dir = d.some_dir;
        aligned = d.aligned;
        below = d.below;
        tables_below = λ l hl ne.
            subst (λ x. page_of x + 4096 ≤ m.early_placement) (sym (same l hl))
              (d.tables_below l hl (λ z. ne (same l hl ∙ z)));
        apart_dir = λ l hl ne z.
            d.apart_dir l hl (λ w. ne (same l hl ∙ w)) (ap page_of (sym (same l hl)) ∙ z);
        apart = λ l n hl hn differ nel nen z.
            d.apart l n hl hn differ (λ w. nel (same l hl ∙ w)) (λ w. nen (same n hn ∙ w))
              (ap page_of (sym (same l hl)) ∙ z ∙ ap page_of (same n hn));
      }

  pub put-look :
      (l n : ℕ)
      → l < 1024
      → n < 1024
      → look put dir l n ≡ (if (l == k) && (n == j) then e else look m dir l n)
  put-look l n hl hn =
      ap (λ x. if x == 0 then 0 else put.memory (page_of x + 4 * n)) (put-entry l hl)
      ∙ (elim (Bool-cases (entry m dir l == 0)) [
        | inl missing ↦
            let other : (l == k) ≡ false =
              let r : l ≢ k = λ z. there (ap (entry m dir) (sym z) ∙ ground arith) in
              ground arith in
            rw (missing, other) refl
        | inr present ↦ elim (ℕ_discrete l k) [
          | yes same ↦
              let test : (l == k) ≡ true = ground arith in
              let t : table m dir l ≡ table m dir k = ap (table m dir) same in
              elim (ℕ_discrete n j) [
                | yes both ↦
                    let test2 : (n == j) ≡ true = ground arith in
                    rw (present, test, test2)
                      (ap (λ a. put.memory a)
                          (ap (λ x. x + 4 * n) t ∙ ap (λ x. table m dir k + 4 * x) both)
                        ∙ store_at m.memory _ e)
                | no differ ↦
                    let test2 : (n == j) ≡ false = ground arith in
                    rw (present, test, test2) (store_ne m.memory _ e _ (omega (arith, t)))
              ]
          | no other ↦
              let test : (l == k) ≡ false = ground arith in
              let nonzero : entry m dir l ≢ 0 = ground arith in
              rw (present, test)
                (store_ne m.memory _ e _ (
                  slot_ne (table m dir l) (table m dir k) n j (omega arith) (omega arith)
                    (d.apart l k hl hk other nonzero there) hn hj))
        ]
      ])

module _ (end : ℕ) (m : Machine) (dir : ℕ) (d : IsDir m dir) (k flags : ℕ) (hk : k < 1024)
    (small : flags < 4096) (room : m.early_placement + 8192 ≤ 2 ^ 32)
    (missing : entry m dir k ≡ 0) where
  ptr : ℕ
  ptr = align_up m.early_placement

  pub grown : Machine
  grown = record m {
    early_placement = ptr + 4096;
    memory = store m.memory (dir + 4 * k) (ptr + flags);
  }

  ptr_facts : (ptr % 4096 ≡ 0) × (m.early_placement ≤ ptr) × (ptr < m.early_placement + 4096)
  unfolding ptr
  ptr_facts = align_up_lem m.early_placement room

  pub ensure_table-grown : (v : ℕ) → v / 2 ^ 22 ≡ k → ensure_table end m dir v flags ≡ grown
  unfolding ensure_table kmalloc_early early_start grown ptr
  ensure_table-grown v at =
      let (aligned, above, under) = align_up_lem m.early_placement room in
      let below = d.below in
      let some : (m.early_placement == 0) ≡ false = ground arith in
      let slot : dir_slot dir v ≡ dir + 4 * k = omega arith in
      let test : (m.memory (dir + 4 * k) == 0) ≡ true = ground arith in
      let p = align_up m.early_placement in
      let page : p ≡ page_of p = omega arith in
      let joined : bit_or p flags ≡ p + flags =
        ap (λ x. bit_or x flags) page ∙ page-flags p flags small ∙ ap (λ x. x + flags) (sym page) in
      let next : p +w page_size ≡ p + 4096 = omega arith in rw (some, slot, test, joined, next) refl

  grown-same : (l : ℕ) → l < 1024 → l ≢ k → entry grown dir l ≡ entry m dir l
  unfolding grown
  grown-same l hl ne = store_ne m.memory _ _ _ (omega arith)

  grown-new : (entry grown dir k ≡ ptr + flags) × (table grown dir k ≡ ptr)
  unfolding grown
  grown-new =
      let (aligned, _, _) = ptr_facts in
      let e = store_at m.memory (dir + 4 * k) (ptr + flags) in (e, ap page_of e ∙ omega arith)

  pub grown_there : entry grown dir k ≢ 0
  grown_there =
      let (e, _) = grown-new in
      let (_, above, _) = ptr_facts in let below = d.below in omega (arith, e)

  grown-behind : (a : ℕ) → dir + 4096 ≤ a → grown.memory a ≡ m.memory a
  unfolding grown
  grown-behind a h = store_ne m.memory _ _ a (omega arith)

  -- The words of a table that was there.
  grown-word :
      (l n : ℕ)
      → l < 1024
      → n < 1024
      → entry m dir l ≢ 0
      → grown.memory (table m dir l + 4 * n) ≡ m.memory (table m dir l + 4 * n)
  unfolding grown
  grown-word l n hl hn there =
      store_ne m.memory _ _ _
        (slot_ne (table m dir l) dir n k (omega arith) d.aligned (d.apart_dir l hl there) hn hk)

  ptr_word : (n : ℕ) → m.memory (ptr + 4 * n) ≡ m.memory (align_up m.early_placement + 4 * n)
  unfolding ptr
  ptr_word n = refl

  pub grown-look : (l n : ℕ) → l < 1024 → n < 1024 → look grown dir l n ≡ seen m dir k l n
  grown-look l n hl hn = elim (ℕ_discrete l k) [
    | yes same ↦
        let (e, t) = grown-new in
        let (aligned, above, under) = ptr_facts in
        let here : (entry grown dir l == 0) ≡ false =
          let z = grown_there in ap (λ x. entry grown dir x == 0) same ∙ ground arith in
        let gone : (entry m dir k == 0) ≡ true = ground arith in
        let first : (l == k) ≡ true = ground arith in
        let below = d.below in
        rw (here, gone, first)
          (ap (λ x. grown.memory (table grown dir x + 4 * n)) same
            ∙ ap (λ x. grown.memory (x + 4 * n)) t
            ∙ grown-behind (ptr + 4 * n) (omega arith)
            ∙ ptr_word n)
    | no other ↦
        let gone : (entry m dir k == 0) ≡ true = ground arith in
        let later : (l == k) ≡ false = ground arith in
        ap (λ x. if x == 0 then 0 else grown.memory (page_of x + 4 * n)) (grown-same l hl other)
        ∙ rw (gone, later)
            (elim (Bool-cases (entry m dir l == 0)) [
              | inl empty ↦ rw empty refl
              | inr present ↦
                  let nonzero : entry m dir l ≢ 0 = ground arith in
                  rw present (grown-word l n hl hn nonzero)
            ])
  ]

  -- A table of the grown directory is the new page or one that was there.
  grown-table :
      (l : ℕ)
      → l < 1024
      → entry grown dir l ≢ 0
      → ((l ≡ k) × (table grown dir l ≡ ptr))
        ⊎ ((l ≢ k) × (entry m dir l ≢ 0) × (table grown dir l ≡ table m dir l))
  grown-table l hl ne = elim (ℕ_discrete l k) [
    | yes same ↦ inl (same, ap (table grown dir) same ∙ grown-new.1)
    | no other ↦ let e = grown-same l hl other in inr (other, (λ z. ne (e ∙ z)), ap page_of e)
  ]

  grown-tables_below :
      (l : ℕ) → l < 1024 → entry grown dir l ≢ 0 → table grown dir l + 4096 ≤ grown.early_placement
  unfolding grown
  grown-tables_below l hl ne =
      let (_, above, _) = ptr_facts in
      elim (grown-table l hl ne) [
        | inl (_, t) ↦ omega (arith, t)
        | inr (_, was, t) ↦ let b = d.tables_below l hl was in omega (arith, t)
      ]

  grown-apart_dir : (l : ℕ) → l < 1024 → entry grown dir l ≢ 0 → table grown dir l ≢ dir
  grown-apart_dir l hl ne z =
      let (_, above, _) = ptr_facts in
      let below = d.below in
      elim (grown-table l hl ne) [
        | inl (_, t) ↦ omega (arith, t, z)
        | inr (_, was, t) ↦ d.apart_dir l hl was (sym t ∙ z)
      ]

  grown-apart :
      (l n : ℕ)
      → l < 1024
      → n < 1024
      → l ≢ n
      → entry grown dir l ≢ 0
      → entry grown dir n ≢ 0
      → table grown dir l ≢ table grown dir n
  grown-apart l n hl hn differ nel nen z =
      let (_, above, _) = ptr_facts in
      elim (grown-table l hl nel) [
        | inl (lk, tl) ↦ elim (grown-table n hn nen) [
          | inl (nk, _) ↦ differ (lk ∙ sym nk)
          | inr (_, was, tn) ↦ let b = d.tables_below n hn was in omega (arith, tl, tn, z)
        ]
        | inr (_, was, tl) ↦ elim (grown-table n hn nen) [
          | inl (_, tn) ↦ let b = d.tables_below l hl was in omega (arith, tl, tn, z)
          | inr (_, was', tn) ↦ d.apart l n hl hn differ was was' (sym tl ∙ z ∙ tn)
        ]
      ]

  pub grown-IsDir : IsDir grown dir
  unfolding grown
  grown-IsDir =
      let (_, above, _) = ptr_facts in
      let below = d.below in
      record {
        some_dir = d.some_dir;
        aligned = d.aligned;
        below = omega arith;
        tables_below = grown-tables_below;
        apart_dir = grown-apart_dir;
        apart = grown-apart;
      }
