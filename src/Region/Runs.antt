-- ===== src/Region/Runs.antt =====
-- Setting and clearing the bits of a run, and testing whether a run is free.
use Prim.Native.Nat.{bit_and, bit_or}
use helix_os.Common.{
  ℕ, zero, suc, ◌+◌, ◌-◌, ◌*◌, ◌/◌, ◌%◌, ◌^◌, ◌≤◌, ◌<◌, ◌≡◌, refl, sym, ap, ◌∙◌, Bool, true, false,
  some, List, [], ◌∷◌, arith, ◌==◌, if◌then◌else◌, get_elem?, set, length, length-set,
  get_elem?-set_self, get_elem?-set_ne, Bool-cases, inl, inr, ℕ_discrete,
}
use helix_os.Common.Bytes.{within}
use helix_os.Region.{bit_of, bitmap_get, bitmap_set, bitmap_unset, set_run}
use helix_os.Region.Bits.{AllBytes, bit_or_lem, bit_unset_lem}

-- The `n` bits from `page` on are `value` in `map'`, and `map'` is otherwise as `map`.
pub record Marked (value : Bool) (page n : ℕ) (map map' : List ℕ) : Type 0 where
  pub same_length : length map' ≡ length map
  pub all_bytes : AllBytes map'
  pub inside : (i : ℕ) → within page n i ≡ true → bitmap_get map' i ≡ some value
  pub outside : (i : ℕ) → within page n i ≡ false → bitmap_get map' i ≡ bitmap_get map i

pub byte_at : (map : List ℕ) (w : ℕ) → w < length map → (byte : ℕ) × (get_elem? map w ≡ some byte)
byte_at [] w h = absurd (omega arith)
byte_at (byte ∷ map) zero h = (byte, refl)
byte_at (byte ∷ map) (suc w) h = byte_at map w (omega arith)

pub get-byte :
    (map : List ℕ) (i byte : ℕ)
    → get_elem? map (i / 8) ≡ some byte
    → bitmap_get map i ≡ some (bit_of byte (i % 8))
unfolding bitmap_get
get-byte map i byte e = rw e

module _ (value : Bool) (map : List ℕ) (bytes : AllBytes map) (index byte byte' : ℕ)
    (here : get_elem? map (index / 8) ≡ some byte) (inside : index / 8 < length map)
    (small : byte' < 256)
    (bits : (j : ℕ)
      → j < 8
      → bit_of byte' j ≡ (if index % 8 == j then value else bit_of byte j)) where
  abbrev changed : List ℕ
  changed = set map (index / 8) byte'

  changed-byte : (i : ℕ) → i / 8 ≡ index / 8 → get_elem? changed (i / 8) ≡ some byte'
  changed-byte i e = ap (get_elem? changed) e ∙ get_elem?-set_self map (index / 8) byte' inside

  changed-AllBytes : AllBytes changed
  changed-AllBytes i b e = elim (ℕ_discrete (index / 8) i) [
    | yes same ↦
        let there : get_elem? changed i ≡ some byte' =
          ap (get_elem? changed) (sym same) ∙ get_elem?-set_self map (index / 8) byte' inside in
        let eq : b ≡ byte' = some_eq b byte' (sym e ∙ there) in omega arith
    | no other ↦ bytes i b (sym (get_elem?-set_ne map byte' other) ∙ e)
  ]
    where
      some_eq : (x y : ℕ) → some x ≡ some y → x ≡ y
      some_eq x y p = cc

  changed-inside : (i : ℕ) → within index 1 i ≡ true → bitmap_get changed i ≡ some value
  changed-inside i h =
      let same : i ≡ index = ground arith in
      let test : (index % 8 == i % 8) ≡ true = ground arith in
      get-byte changed i byte' (changed-byte i (ap (λ x. x / 8) same))
      ∙ ap some (bits (i % 8) (omega arith) ∙ rw test)

  changed-outside : (i : ℕ) → within index 1 i ≡ false → bitmap_get changed i ≡ bitmap_get map i
  unfolding bitmap_get
  changed-outside i h = elim (ℕ_discrete (index / 8) (i / 8)) [
    | yes same ↦
        let test : (index % 8 == i % 8) ≡ false = ground arith in
        get-byte changed i byte' (changed-byte i (sym same))
        ∙ ap some (bits (i % 8) (omega arith) ∙ rw test)
        ∙ sym (get-byte map i byte (ap (get_elem? map) (sym same) ∙ here))
    | no other ↦ rw (get_elem?-set_ne map byte' other)
  ]

  changed-Marked : Marked value index 1 map changed
  changed-Marked = record {
    same_length = length-set map (index / 8) byte';
    all_bytes = changed-AllBytes;
    inside = changed-inside;
    outside = changed-outside;
  }

module _ (map : List ℕ) (bytes : AllBytes map) (index : ℕ) (inside : index < 8 * length map) where
  pub bitmap_set-Marked :
      (map' : List ℕ) × (bitmap_set map index ≡ some map') × Marked true index 1 map map'
  unfolding bitmap_set
  bitmap_set-Marked =
      let (byte, here) = byte_at map (index / 8) (omega arith) in
      let facts = λ (j : ℕ) (hj : j < 8).
        bit_or_lem byte (index % 8) j (bytes (index / 8) byte here) (omega arith) hj in
      (
        set map (index / 8) (bit_or byte (2 ^ (index % 8))),
        rw here,
        changed-Marked true map bytes index byte _ here (omega arith) (facts 0 (omega arith)).0
            (λ j hj. (facts j hj).1),
      )

  pub bitmap_unset-Marked :
      (map' : List ℕ) × (bitmap_unset map index ≡ some map') × Marked false index 1 map map'
  unfolding bitmap_unset
  bitmap_unset-Marked =
      let (byte, here) = byte_at map (index / 8) (omega arith) in
      let facts = λ (j : ℕ) (hj : j < 8).
        bit_unset_lem byte (index % 8) j (bytes (index / 8) byte here) (omega arith) hj in
      (
        set map (index / 8) (bit_and byte (255 - 2 ^ (index % 8))),
        rw here,
        changed-Marked false map bytes index byte _ here (omega arith) (facts 0 (omega arith)).0
            (λ j hj. (facts j hj).1),
      )

Marked-none : (value : Bool) (page : ℕ) (map : List ℕ) → AllBytes map → Marked value page 0 map map
Marked-none value page map bytes = record {
  same_length = refl;
  all_bytes = bytes;
  inside = λ i h. absurd (ground arith);
  outside = λ i h. refl;
}

Marked-cons :
    (value : Bool) (page n : ℕ) (map map1 map2 : List ℕ)
    → Marked value page 1 map map1
    → Marked value (page + 1) n map1 map2
    → Marked value page (suc n) map map2
Marked-cons value page n map map1 map2 one more = record {
  same_length = more.same_length ∙ one.same_length;
  all_bytes = more.all_bytes;
  inside = λ i h. elim (Bool-cases (within (page + 1) n i)) [
    | inl later ↦ more.inside i later
    | inr first ↦ more.outside i first ∙ one.inside i (ground arith)
  ];
  outside = λ i h. more.outside i (ground arith) ∙ one.outside i (ground arith);
}

pub set_run-Marked :
    (n : ℕ) (map : List ℕ)
    → AllBytes map
    → (page : ℕ) → page + n ≤ 8 * length map
    → (map' : List ℕ) × (set_run n map page ≡ some map') × Marked true page n map map'
unfolding set_run
set_run-Marked zero map bytes page fits = (map, refl, Marked-none true page map bytes)
set_run-Marked (suc n) map bytes page fits =
    let (map1, e, one) = bitmap_set-Marked map bytes page (omega arith) in
    let (map2, run, more) =
      set_run-Marked n map1 one.all_bytes (page + 1) (omega (arith, one.same_length)) in
    (map2, rw e run, Marked-cons true page n map map1 map2 one more)
