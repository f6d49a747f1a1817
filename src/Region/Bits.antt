-- ===== src/Region/Bits.antt =====
-- Reading and writing single bits of the bitmap.
use Prim.Native.Nat.{bit_and, bit_or}
use helix_os.Common.{
  ℕ, ◌+◌, ◌-◌, ◌*◌, ◌/◌, ◌%◌, ◌^◌, ◌<◌, ◌≡◌, refl, sym, ap, ◌∙◌, Bool, true, false, not, ◌&&◌, some,
  List, arith, ltb, ◌==◌, if◌then◌else◌, get_elem?,
}
use helix_os.Common.Tables.{table_holds, entry_of}
use helix_os.Region.{bit_of}

-- Every entry of the bitmap is a byte.
abbrev pub AllBytes : List ℕ → Type 0
AllBytes map = (i b : ℕ) → get_elem? map i ≡ some b → b < 256

same_bool : Bool → Bool → Bool
same_bool true b = b
same_bool false b = not b

same_bool_sound : (a b : Bool) → same_bool a b ≡ true → a ≡ b
unfolding same_bool
same_bool_sound true b e = sym e
same_bool_sound false b e = ground arith

-- What setting bit `k` of a byte does to bit `j`, and what clearing it does.
or_triple : ℕ → ℕ → ℕ → Bool
or_triple byte k j =
    ltb (bit_or byte (2 ^ k)) 256
    && same_bool (bit_of (bit_or byte (2 ^ k)) j) (if k == j then true else bit_of byte j)

unset_triple : ℕ → ℕ → ℕ → Bool
unset_triple byte k j =
    ltb (bit_and byte (255 - 2 ^ k)) 256
    && same_bool (bit_of (bit_and byte (255 - 2 ^ k)) j) (if k == j then false else bit_of byte j)

-- The entry of a table for every byte and every two of its bits.
abbrev triple_at : (ℕ → ℕ → ℕ → Bool) → ℕ → Bool
triple_at f x = f (x / 64) (x / 8 % 8) (x % 8)

or_table : table_holds (triple_at or_triple) 16384 ≡ true
unfolding table_holds same_bool or_triple
or_table = refl

unset_table : table_holds (triple_at unset_triple) 16384 ≡ true
unfolding table_holds same_bool unset_triple
unset_table = refl

ltb_sound : (a b : ℕ) → ltb a b ≡ true → a < b
ltb_sound a b e = ground arith

and-parts : (p q : Bool) → p && q ≡ true → (p ≡ true) × (q ≡ true)
and-parts true q e = (refl, e)
and-parts false q e = absurd (ground arith)

triple :
    (f : ℕ → ℕ → ℕ → Bool)
    → table_holds (triple_at f) 16384 ≡ true
    → (byte k j : ℕ) → byte < 256
    → k < 8
    → j < 8
    → f byte k j ≡ true
triple f table byte k j hb hk hj =
    let a : (byte * 64 + k * 8 + j) / 64 ≡ byte = omega arith in
    let b : (byte * 64 + k * 8 + j) / 8 % 8 ≡ k = omega arith in
    let c : (byte * 64 + k * 8 + j) % 8 ≡ j = omega arith in
    let e = entry_of (triple_at f) 16384 (byte * 64 + k * 8 + j) table (omega arith) in
    sym (
      ap (λ x. f x ((byte * 64 + k * 8 + j) / 8 % 8) ((byte * 64 + k * 8 + j) % 8)) a
      ∙ ap (λ x. f byte x ((byte * 64 + k * 8 + j) % 8)) b
      ∙ ap (f byte k) c)
    ∙ e

module _ (byte k j : ℕ) (hb : byte < 256) (hk : k < 8) (hj : j < 8) where
  pub bit_or_lem :
      (bit_or byte (2 ^ k) < 256)
      × (bit_of (bit_or byte (2 ^ k)) j ≡ (if k == j then true else bit_of byte j))
  unfolding or_triple
  bit_or_lem =
      let parts = and-parts _ _ (triple or_triple or_table byte k j hb hk hj) in
      (ltb_sound _ _ parts.0, same_bool_sound _ _ parts.1)

  pub bit_unset_lem :
      (bit_and byte (255 - 2 ^ k) < 256)
      × (bit_of (bit_and byte (255 - 2 ^ k)) j ≡ (if k == j then false else bit_of byte j))
  unfolding unset_triple
  bit_unset_lem =
      let parts = and-parts _ _ (triple unset_triple unset_table byte k j hb hk hj) in
      (ltb_sound _ _ parts.0, same_bool_sound _ _ parts.1)
