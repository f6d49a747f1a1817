-- ===== src/Dynstring/Chars.antt =====
-- `dstring_set_char` in a string whose block has room, and at the end of the block.
use helix_os.Common.{
  ℕ, ◌^◌, ◌<◌, ◌≡◌, refl, sym, ◌∙◌, true, false, some, arith, length, set, length-set, ltb,
  if◌then◌else◌, ◌*w◌, Bool-cases, inl, inr,
}
use helix_os.Dynstring.{Dynstring, dstring_set_char}

-- The block has the bytes that `alloced` counts.
pub record IsRoomy (d : Dynstring) : Type 0 where
  pub room : d.alloced *w d.block_size ≡ length d.string
  pub small : length d.string < 2 ^ 31

abbrev pub with_char : Dynstring → ℕ → ℕ → Dynstring
with_char d pos c = record d {
  string = set d.string pos c;
  size = if ltb d.size pos then pos else d.size;
}

module _ (fill : ℕ → ℕ) (d : Dynstring) (r : IsRoomy d) (pos c : ℕ) where
  pub dstring_set_char-with_char :
      pos < length d.string → dstring_set_char fill d pos c ≡ some (with_char d pos c)
  unfolding dstring_set_char
  dstring_set_char-with_char h =
      let inside : ltb pos (length d.string) ≡ true = ground arith in
      let fits : ltb (length d.string) pos ≡ false = ground arith in
      elim (Bool-cases (ltb d.size pos)) [
        | inl beyond ↦ rw (r.room, beyond, fits, inside) refl
        | inr before ↦ rw (before, inside) refl
      ]

  pub with_char-IsRoomy : IsRoomy (with_char d pos c)
  with_char-IsRoomy = record {
    room = r.room ∙ sym (length-set d.string pos c);
    small = let s = r.small in omega (arith, length-set d.string pos c);
  }
