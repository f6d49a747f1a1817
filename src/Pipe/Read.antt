-- ===== src/Pipe/Read.antt =====
-- `pipeline_read`: the bytes that it hands over and those that it leaves.
use native.Mathlib.Nat.{mod-add-mod, mod-mod, mod-lt, mod-eq_of_lt}
use helix_os.Common.{
  ℕ, zero, suc, ◌+◌, ◌-◌, ◌%◌, ◌^◌, ◌<◌, ◌≡◌, ◌≢◌, refl, sym, ap, ◌∙◌, List, [], ◌∷◌, arith, length,
  get_or, take, drop, ltb, inl, inr, Bool-cases, ◌+w◌, min,
}
use helix_os.Pipe.{Pipeline, take_byte, read_loop, pipeline_read}
use helix_os.Pipe.Ring.{IsValid, contents, length-span, span-mod, span-pop}

take_short : (n : ℕ) (xs : List ℕ) → min n (length xs) ≡ 0 → take n xs ≡ []
take_short zero xs h = refl
take_short (suc n) [] h = refl
take_short (suc n) (x ∷ xs) h = absurd (omega arith)

drop_short : (n : ℕ) (xs : List ℕ) → min n (length xs) ≡ 0 → drop n xs ≡ xs
drop_short zero xs h = refl
drop_short (suc n) [] h = refl
drop_short (suc n) (x ∷ xs) h = absurd (omega arith)

avail-take_byte : (line : Pipeline) → (take_byte line).avail ≡ line.avail - 1
unfolding take_byte
avail-take_byte line = refl

-- What a read of at most `size` bytes makes of a line.
pub record WasRead (line : Pipeline) (size i : ℕ) (out : ℕ × List ℕ × Pipeline) : Type 0 where
  pub valid : IsValid out.2
  pub count : out.0 ≡ i + min size line.avail
  pub handed : out.1 ≡ take size (contents line)
  pub left : contents out.2 ≡ drop size (contents line)
  pub same_size : out.2.size ≡ line.size
  pub same_flags : out.2.flags ≡ line.flags
  pub same_buf : out.2.buf ≡ line.buf

module _ {line : Pipeline} (v : IsValid line) (some_left : line.avail ≢ 0) where
  open line use {size, avail, readp, buf}

  next_read : (readp +w 1) % size ≡ (readp + 1) % size
  next_read = ap (λ t. t % size) (omega arith)

  take_byte-IsValid : IsValid (take_byte line)
  unfolding take_byte
  take_byte-IsValid = record {
    room = v.room;
    small = v.small;
    avail_in = omega arith;
    read_in = mod-lt _ (omega arith);
    write_word = v.write_word;
    whole = v.whole;
    aligned =
        ap (λ t. (t + (avail - 1)) % size) next_read
        ∙ mod-add-mod (readp + 1) size (avail - 1)
        ∙ ap (λ t. t % size) (omega arith)
        ∙ v.aligned;
  }

  take_byte-contents : contents line ≡ get_or buf readp 0 ∷ contents (take_byte line)
  unfolding take_byte
  take_byte-contents =
      span-pop buf size readp avail some_left
      ∙ rw
          (
            mod-eq_of_lt v.read_in,
            span-mod buf size (readp + 1) ((readp +w 1) % size) (avail - 1) restart,
          )
          refl
    where
      restart : (readp + 1) % size ≡ (readp +w 1) % size % size
      restart = sym next_read ∙ sym (mod-mod (readp +w 1) size)

WasRead-none :
    {line : Pipeline} (size i : ℕ)
    → IsValid line
    → min size line.avail ≡ 0
    → WasRead line size i (i, [], line)
WasRead-none {line} size i v e = record {
  valid = v;
  count = omega arith;
  handed = sym (take_short size (contents line) none_left);
  left = sym (drop_short size (contents line) none_left);
  same_size = refl;
  same_flags = refl;
  same_buf = refl;
}
  where
    none_left : min size (length (contents line)) ≡ 0
    none_left = omega (arith, length-span line.buf line.size line.readp line.avail)

WasRead-cons :
    {line : Pipeline} (size i : ℕ) (out : ℕ × List ℕ × Pipeline)
    → IsValid line
    → line.avail ≢ 0
    → WasRead (take_byte line) size (i + 1) out
    → WasRead line (suc size) i (out.0, get_or line.buf line.readp 0 ∷ out.1, out.2)
unfolding take_byte
WasRead-cons {line} size i out v ne w = record {
  valid = w.valid;
  count = w.count ∙ omega arith;
  handed = ap (λ r. get_or line.buf line.readp 0 ∷ r) w.handed ∙ ap (take (suc size)) (sym first);
  left = w.left ∙ ap (drop (suc size)) (sym first);
  same_size = w.same_size;
  same_flags = w.same_flags;
  same_buf = w.same_buf;
}
  where
    first : contents line ≡ get_or line.buf line.readp 0 ∷ contents (take_byte line)
    first = take_byte-contents v ne

read_loop-WasRead :
    (left : ℕ) {line : Pipeline} (i : ℕ)
    → IsValid line
    → i + line.avail < 2 ^ 32
    → WasRead line left i (read_loop left line i)
unfolding read_loop
read_loop-WasRead zero {line} i v small = WasRead-none 0 i v (omega arith)
read_loop-WasRead (suc left) {line} i v small = elim (Bool-cases (ltb i (line.avail +w i))) [
  | inl more ↦
      let ne : line.avail ≢ 0 = ground arith in
      rw more (
        WasRead-cons left i (read_loop left (take_byte line) (i + 1)) v ne (
          read_loop-WasRead left (i + 1) (take_byte-IsValid v ne)
            (omega (arith, avail-take_byte line))))
  | inr done ↦ rw done (WasRead-none (suc left) i v (ground arith))
]

-- `pipeline_read` of a valid line hands over the oldest bytes, `size` of them or all that there
-- are, returns their number, and leaves the others in a line that is valid.
pub pipeline_read-WasRead :
    {line : Pipeline} (size : ℕ) → IsValid line → WasRead line size 0 (pipeline_read line size)
unfolding pipeline_read
pipeline_read-WasRead size v = read_loop-WasRead size 0 v (omega arith)
