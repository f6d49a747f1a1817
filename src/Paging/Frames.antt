-- ===== src/Paging/Frames.antt =====
-- The frames that `map_page` takes from the bitmap and `free_page` returns to it.
use Prim.Native.Nat.{bit_and}
use helix_os.Common.{
  ℕ, zero, suc, ◌+◌, ◌-◌, ◌*◌, ◌/◌, ◌%◌, ◌≤◌, ◌<◌, ◌≡◌, ◌≢◌, refl, sym, ap, ◌∙◌, Bool, true, false,
  not, ◌&&◌, ◌||◌, Option, some, List, [], ◌∷◌, arith, ltb, ◌==◌, get_elem?, length, ◌-w◌,
  Bool-cases, inl, inr,
}
use helix_os.Common.Tables.{table_holds, entry_of}
use helix_os.Region.{bitmap_get, bitmap_set, bitmap_unset, bit_of}
use helix_os.Region.Bits.{AllBytes}
use helix_os.Region.Runs.{byte_at, get-byte}
use helix_os.Paging.{Machine, bm_set_bit, find_byte, low_ones, frame_in, get_free_page}
use helix_os.Paging.Tables.{IsDir}

pub bm_set_bit-true : (map : List ℕ) (i : ℕ) → bm_set_bit map i true ≡ bitmap_set map i
unfolding bm_set_bit bitmap_set
bm_set_bit-true map i = refl

pub bm_set_bit-false : (map : List ℕ) (i : ℕ) → bm_set_bit map i false ≡ bitmap_unset map i
unfolding bm_set_bit bitmap_unset
bm_set_bit-false map i = refl

abbrev is_full : ℕ → Bool
is_full byte = bit_and byte 0xff == 0xff

-- A byte that is not full has a lowest bit that is 0, at the place that the loop counts.
abbrev ones_found : ℕ → Bool
ones_found byte =
    is_full byte || (ltb (low_ones 8 byte 0) 8 && not (bit_of byte (low_ones 8 byte 0)))

ones_table : table_holds ones_found 256 ≡ true
unfolding table_holds low_ones
ones_table = refl

low_ones-free :
    (byte : ℕ)
    → byte < 256
    → is_full byte ≡ false
    → (low_ones 8 byte 0 < 8) × (bit_of byte (low_ones 8 byte 0) ≡ false)
low_ones-free byte small part =
    let e = entry_of ones_found 256 byte ones_table small in
    split (is_full byte) part (low_ones 8 byte 0) (bit_of byte (low_ones 8 byte 0)) e
  where
    split :
        (full : Bool)
        → full ≡ false
        → (n : ℕ) (bit : Bool) → (full || (ltb n 8 && not bit)) ≡ true
        → (n < 8) × (bit ≡ false)
    split full p n bit e = ground arith

-- Some byte from `page` on is not full.
pub record Room (map : List ℕ) (page : ℕ) : Type 0 where
  pub place : ℕ
  pub byte : ℕ
  pub from : page ≤ place
  pub here : get_elem? map place ≡ some byte
  pub part : is_full byte ≡ false

record FoundByte (map : List ℕ) (page : ℕ) (r : Option (ℕ × ℕ)) : Type 0 where
  q : ℕ
  byte : ℕ
  found : r ≡ some (q, byte)
  from : page ≤ q
  here : get_elem? map q ≡ some byte
  part : is_full byte ≡ false

get-inside : (map : List ℕ) (i byte : ℕ) → get_elem? map i ≡ some byte → i < length map
get-inside [] i byte e = cc
get-inside (x ∷ map) zero byte e = omega arith
get-inside (x ∷ map) (suc i) byte e = omega (arith, get-inside map i byte e)

find_byte-FoundByte :
    (left : ℕ) (map : List ℕ) (page : ℕ) (r : Room map page)
    → r.place < page + left
    → FoundByte map page (find_byte left map page)
unfolding find_byte
find_byte-FoundByte zero map page r h = absurd (let f = r.from in omega arith)
find_byte-FoundByte (suc left) map page r h =
    let from = r.from in
    let (byte, e) = byte_at map page (omega (arith, get-inside map r.place r.byte r.here)) in
    elim (Bool-cases (is_full byte)) [
      | inl full ↦
          let passed : page ≢ r.place = λ z.
            let same : byte ≡ r.byte =
              let s : some byte ≡ some r.byte = sym e ∙ ap (get_elem? map) z ∙ r.here in cc in
            absurd (false_true (sym r.part ∙ ap is_full (sym same) ∙ full)) in
          let later : Room map (page + 1) = record {
            place = r.place;
            byte = r.byte;
            from = omega arith;
            here = r.here;
            part = r.part;
          } in
          let f = find_byte-FoundByte left map (page + 1) later (omega arith) in
          let f_from = f.from in
          record {
            q = f.q;
            byte = f.byte;
            found = rw (e, full) f.found;
            from = omega arith;
            here = f.here;
            part = f.part;
          }
      | inr part ↦ record {
        q = page;
        byte = byte;
        found = rw (e, part) refl;
        from = omega arith;
        here = e;
        part = part;
      }
    ]
  where
    false_true : false ≡ true → ⊥
    false_true z = cc

-- The frame that is handed out, and what is left.
pub record Taken (m : Machine) (map : List ℕ) (r : Option (ℕ × Machine)) : Type 0 where
  pub frame : ℕ
  pub hint : ℕ
  pub got :
      r ≡ some (frame * 4096, record m { last_free_page = hint; nfree_pages = m.nfree_pages -w 1 })
  pub was_free : bitmap_get map frame ≡ some false
  pub inside : frame < 8 * length map
  pub hint_at : hint ≡ frame / 8

pub get_free_page-Taken :
    (m : Machine) (map : List ℕ)
    → m.page_bitmap ≡ some map
    → AllBytes map
    → Room map m.last_free_page
    → Taken m map (get_free_page m)
unfolding get_free_page frame_in
get_free_page-Taken m map e bytes r =
    let from = r.from in
    let f =
      find_byte-FoundByte (length map - m.last_free_page) map m.last_free_page r
        (omega (arith, get-inside map r.place r.byte r.here)) in
    let (small, free) = low_ones-free f.byte (bytes f.q f.byte f.here) f.part in
    let j = low_ones 8 f.byte 0 in
    let div : (f.q * 8 + j) / 8 ≡ f.q = omega arith in
    let low : (f.q * 8 + j) % 8 ≡ j = omega arith in
    record {
      frame = f.q * 8 + j;
      hint = f.q;
      got = rw (e, f.found) refl;
      was_free =
          get-byte map (f.q * 8 + j) f.byte (ap (get_elem? map) div ∙ f.here)
          ∙ ap (λ k. some (bit_of f.byte k)) low
          ∙ ap some free;
      inside = omega (arith, get-inside map f.q f.byte f.here);
      hint_at = sym div;
    }

-- A directory does not depend on the bitmap.
pub IsDir-counts :
    (m : Machine) (dir : ℕ) (map : Option (List ℕ)) (hint nfree : ℕ)
    → IsDir m dir
    → IsDir (record m { page_bitmap = map; last_free_page = hint; nfree_pages = nfree }) dir
IsDir-counts m dir map hint nfree d = record {
  some_dir = d.some_dir;
  aligned = d.aligned;
  below = d.below;
  tables_below = d.tables_below;
  apart_dir = d.apart_dir;
  apart = d.apart;
}
