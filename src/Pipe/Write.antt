-- ===== src/Pipe/Write.antt =====
-- `pipe_write`: which bytes a line holds afterwards, and how many the call counts.
use native.Mathlib.Nat.{mod-mod_of_dvd, dvd_of_mod-eq-zero, mod-add-mod, mod-lt, mod-mod}
use helix_os.Common.{
  ℕ, zero, suc, ◌+◌, ◌-◌, ◌%◌, ◌^◌, ◌≤◌, ◌<◌, ◌≡◌, refl, sym, ap, ◌∙◌, Bool, true, false, List, [],
  ◌∷◌, ◌++◌, arith, length, length-append, length-set, take-nil, set, take, leb, if◌then◌else◌, inl,
  inr, Bool-cases, ◌+w◌, min,
}
use helix_os.Pipe.{Pipeline, pipe_flag_block, has_flag, is_full, make_room, put_byte, write_line}
use helix_os.Pipe.Ring.{IsValid, contents, span, length-span, span-mod, span-set, step-mod}
use mathlib.Core.List.{append_assoc, append-nil}

-- The last `n` of the bytes.
unfoldable pub keep : ℕ → List ℕ → List ℕ
keep n [] = []
keep n (x ∷ xs) = if leb (length (x ∷ xs)) n then x ∷ xs else keep n xs

pub keep-short : (n : ℕ) (xs : List ℕ) → length xs ≤ n → keep n xs ≡ xs
unfolding keep
keep-short n [] h = refl
keep-short n (x ∷ xs) h = ground arith

keep-long : (n x : ℕ) (xs : List ℕ) → length xs ≡ n → keep n (x ∷ xs) ≡ xs
unfolding keep
keep-long n x xs h = ground (arith, keep-short n xs)

keep-append : (n : ℕ) (xs ys : List ℕ) → keep n (keep n xs ++ ys) ≡ keep n (xs ++ ys)
unfolding keep
keep-append n [] ys = refl
keep-append n (x ∷ xs) ys = ground (arith, keep-append n xs ys, length-append xs ys)

-- A span that starts one place later and takes in a byte written behind it.
full-span :
    (buf : List ℕ) (size s t n i v : ℕ)
    → t % size ≡ (s + 1) % size
    → size ≤ length buf
    → n ≡ size - 1
    → i ≡ (s + n) % size
    → span (set buf i v) size t n ≡ keep n (span buf size s n ++ v ∷ [])
unfolding keep
full-span buf size s t zero i v e room h at = refl
full-span buf size s t (suc n) i v e room h at =
    span-mod (set buf i v) size t (s + 1) (suc n) e
    ∙ span-set buf size (s + 1) n i v room (omega arith) (at ∙ ap (λ k. k % size) (omega arith))
    ∙ sym (keep-long (suc n) _ (span buf size (s + 1) n ++ v ∷ []) long)
  where
    long : length (span buf size (s + 1) n ++ v ∷ []) ≡ suc n
    long =
        omega
          (arith, length-append (span buf size (s + 1) n) (v ∷ []), length-span buf size (s + 1) n)

abbrev pub capacity : Pipeline → ℕ
capacity line = line.size - 1

-- What one round of the loop makes of a line that is full, and of one that is not.
abbrev next_full : Pipeline → ℕ → Pipeline
next_full line byte = record line {
  readp = (line.readp +w 1) % line.size;
  writep = line.writep +w 1;
  buf = set line.buf (line.writep % line.size) byte;
}

abbrev next_part : Pipeline → ℕ → Pipeline
next_part line byte = record line {
  avail = line.avail +w 1;
  writep = line.writep +w 1;
  buf = set line.buf (line.writep % line.size) byte;
}

module _ {line : Pipeline} (v : IsValid line) where
  open line use {size, avail, writep, readp, buf}

  pub length-contents : length (contents line) ≡ avail
  length-contents = length-span buf size readp avail

  write_next : (writep +w 1) % size ≡ (writep + 1) % size
  write_next = mod-mod_of_dvd size (writep + 1) (dvd_of_mod-eq-zero size v.whole)

  -- The places written and read next, after the oldest byte went or another one came.
  aligned_next : (readp + avail + 1) % size ≡ (writep +w 1) % size
  aligned_next = step-mod size (readp + avail) writep v.aligned ∙ sym write_next

  full_next : ((readp +w 1) % size + avail) % size ≡ (writep +w 1) % size
  full_next =
      ap (λ t. (t % size + avail) % size) (omega arith)
      ∙ mod-add-mod (readp + 1) size avail
      ∙ ap (λ t. t % size) (omega arith)
      ∙ aligned_next

  next_full-IsValid : (byte : ℕ) → IsValid (next_full line byte)
  next_full-IsValid byte = record {
    room = rw length-set v.room;
    small = v.small;
    avail_in = v.avail_in;
    read_in = mod-lt _ (omega arith);
    write_word = omega arith;
    whole = v.whole;
    aligned = full_next;
  }

  next_part-IsValid : (byte : ℕ) → avail < size - 1 → IsValid (next_part line byte)
  next_part-IsValid byte h = record {
    room = rw length-set v.room;
    small = v.small;
    avail_in = omega arith;
    read_in = v.read_in;
    write_word = omega arith;
    whole = v.whole;
    aligned = ap (λ t. t % size) (omega arith) ∙ aligned_next;
  }

  next_part-contents :
      (byte : ℕ) → avail < size - 1 → contents (next_part line byte) ≡ contents line ++ byte ∷ []
  next_part-contents byte h =
      ap (span (set buf (writep % size) byte) size readp) fits
      ∙ span-set buf size readp avail (writep % size) byte v.room (omega arith) (sym v.aligned)
    where
      fits : avail +w 1 ≡ suc avail
      fits = omega arith

  restart : (readp +w 1) % size % size ≡ (readp + 1) % size
  restart = mod-mod _ size ∙ ap (λ t. t % size) (omega arith)

  -- With no room the oldest byte goes.
  next_full-contents :
      (byte : ℕ)
      → avail ≡ size - 1
      → contents (next_full line byte) ≡ keep (capacity line) (contents line ++ byte ∷ [])
  next_full-contents byte h =
      full-span buf size readp ((readp +w 1) % size) avail (writep % size) byte restart v.room h
        (sym v.aligned)
      ∙ ap (λ k. keep k (contents line ++ byte ∷ [])) h

-- The line that a write leaves, by the specification: a line that blocks takes what fits, any
-- other keeps the newest bytes.
unfoldable pub accept : Bool → ℕ → List ℕ → List ℕ → List ℕ
accept true cap held bytes = held ++ take (cap - length held) bytes
accept false cap held bytes = keep cap (held ++ bytes)

-- How many bytes a write counts.
unfoldable pub accepted : Bool → ℕ → List ℕ → List ℕ → ℕ
accepted true cap held bytes = min (length bytes) (cap - length held)
accepted false cap held bytes = length bytes

abbrev pub blocks : Pipeline → Bool
blocks line = has_flag line.flags pipe_flag_block

pub record Wrote (line : Pipeline) (bytes : List ℕ) (ret : ℕ) (out : ℕ × Pipeline) : Type 0 where
  pub valid : IsValid out.1
  pub same_size : out.1.size ≡ line.size
  pub same_flags : out.1.flags ≡ line.flags
  pub count : out.0 ≡ ret + accepted (blocks line) (capacity line) (contents line) bytes
  pub holds : contents out.1 ≡ accept (blocks line) (capacity line) (contents line) bytes

accept-snoc :
    (blk : Bool) (cap byte : ℕ) (held bytes : List ℕ)
    → length held < cap
    → accept blk cap (held ++ byte ∷ []) bytes ≡ accept blk cap held (byte ∷ bytes)
unfolding accept
accept-snoc true cap byte held bytes h =
    let e : cap - length held ≡ suc (cap - length (held ++ byte ∷ [])) =
      omega (arith, length-append held (byte ∷ [])) in
    rw (e, append_assoc)
accept-snoc false cap byte held bytes h = rw append_assoc

accepted-snoc :
    (blk : Bool) (cap byte : ℕ) (held bytes : List ℕ)
    → length held < cap
    → 1 + accepted blk cap (held ++ byte ∷ []) bytes ≡ accepted blk cap held (byte ∷ bytes)
unfolding accepted
accepted-snoc true cap byte held bytes h = omega (arith, length-append held (byte ∷ []))
accepted-snoc false cap byte held bytes h = omega arith

accept-keep :
    (cap byte : ℕ) (held bytes : List ℕ)
    → accept false cap (keep cap (held ++ byte ∷ [])) bytes ≡ accept false cap held (byte ∷ bytes)
unfolding accept
accept-keep cap byte held bytes = rw (keep-append, append_assoc)

accept-nil :
    (blk : Bool) (cap : ℕ) (held : List ℕ) → length held ≤ cap → accept blk cap held [] ≡ held
unfolding accept
accept-nil true cap held h = rw (take-nil, append-nil)
accept-nil false cap held h = rw append-nil (keep-short cap held h)

accepted-nil : (blk : Bool) (cap : ℕ) (held : List ℕ) → accepted blk cap held [] ≡ 0
unfolding accepted
accepted-nil true cap held = omega arith
accepted-nil false cap held = refl

accept_full :
    (cap : ℕ) (held bytes : List ℕ) → length held ≡ cap → accept true cap held bytes ≡ held
unfolding accept
accept_full cap held bytes h = let e : cap - length held ≡ 0 = omega arith in rw (e, append-nil)

accepted_full :
    (cap : ℕ) (held bytes : List ℕ) → length held ≡ cap → accepted true cap held bytes ≡ 0
unfolding accepted
accepted_full cap held bytes h = omega arith

pub accepted-le :
    (blk : Bool) (cap : ℕ) (held bytes : List ℕ) → accepted blk cap held bytes ≤ length bytes
unfolding accepted
accepted-le true cap held bytes = omega arith
accepted-le false cap held bytes = omega arith

module _ {line : Pipeline} (byte : ℕ) (v : IsValid line) where
  next-full :
      is_full line ≡ true
      → (line.avail ≡ line.size - 1) × (put_byte (make_room line) byte ≡ next_full line byte)
  unfolding make_room put_byte
  next-full e = ground arith

  next-part :
      is_full line ≡ false
      → (line.avail < line.size - 1) × (put_byte (make_room line) byte ≡ next_part line byte)
  unfolding make_room put_byte
  next-part e = ground arith

  full-Wrote :
      (bytes : List ℕ) (ret : ℕ) (out : ℕ × Pipeline)
      → line.avail ≡ line.size - 1
      → blocks line ≡ false
      → ret + length (byte ∷ bytes) < 2 ^ 32
      → Wrote (next_full line byte) bytes (ret +w 1) out
      → Wrote line (byte ∷ bytes) ret out
  unfolding accepted
  full-Wrote bytes ret out full nb small w = record {
    valid = w.valid;
    same_size = w.same_size;
    same_flags = w.same_flags;
    count = w.count ∙ rw nb (omega arith);
    holds =
        w.holds
        ∙ rw (nb, next_full-contents v byte full)
            (accept-keep (capacity line) byte (contents line) bytes);
  }

  part-Wrote :
      (bytes : List ℕ) (ret : ℕ) (out : ℕ × Pipeline)
      → line.avail < line.size - 1
      → ret + length (byte ∷ bytes) < 2 ^ 32
      → Wrote (next_part line byte) bytes (ret +w 1) out
      → Wrote line (byte ∷ bytes) ret out
  part-Wrote bytes ret out part small w =
      let room : length (contents line) < capacity line = omega (arith, length-contents v) in
      let e = next_part-contents v byte part in
      let n = accepted-snoc (blocks line) (capacity line) byte (contents line) bytes room in
      let m = accepted-le (blocks line) (capacity line) (contents line) (byte ∷ bytes) in
      record {
        valid = w.valid;
        same_size = w.same_size;
        same_flags = w.same_flags;
        count = w.count ∙ rw e (omega arith);
        holds =
            w.holds
            ∙ rw e (accept-snoc (blocks line) (capacity line) byte (contents line) bytes room);
      }

nil-Wrote : {line : Pipeline} (ret : ℕ) → IsValid line → Wrote line [] ret (ret, line)
nil-Wrote {line} ret v = record {
  valid = v;
  same_size = refl;
  same_flags = refl;
  count = omega (arith, accepted-nil (blocks line) (capacity line) (contents line));
  holds = sym (
      accept-nil (blocks line) (capacity line) (contents line)
        (omega (arith, length-contents v, v.avail_in)));
}

full_block-Wrote :
    {line : Pipeline} (bytes : List ℕ) (ret : ℕ)
    → IsValid line
    → line.avail ≡ line.size - 1
    → blocks line ≡ true
    → Wrote line bytes ret (ret, line)
full_block-Wrote {line} bytes ret v full b =
    let n : length (contents line) ≡ capacity line = length-contents v ∙ full in
    record {
      valid = v;
      same_size = refl;
      same_flags = refl;
      count = rw b (omega (arith, accepted_full (capacity line) (contents line) bytes n));
      holds = rw b (sym (accept_full (capacity line) (contents line) bytes n));
    }

-- A write to a valid line keeps it valid, with its size and flags. A line that blocks takes the
-- bytes that fit behind those that it holds, and the call counts these; any other line keeps the
-- newest `size - 1` of all, and the call counts every byte.
pub write_line-Wrote :
    (bytes : List ℕ) {line : Pipeline} (ret : ℕ)
    → IsValid line
    → ret + length bytes < 2 ^ 32
    → Wrote line bytes ret (write_line line bytes ret)
unfolding write_line
write_line-Wrote [] {line} ret v small = nil-Wrote ret v
write_line-Wrote (byte ∷ bytes) {line} ret v small = elim (Bool-cases (is_full line)) [
  | inl full ↦
      let (n, e) = next-full byte v full in
      elim (Bool-cases (blocks line)) [
        | inl b ↦ rw (full, b) (full_block-Wrote (byte ∷ bytes) ret v n b)
        | inr nb ↦
            rw (full, nb, e)
              (full-Wrote byte v bytes ret _ n nb small
                (write_line-Wrote bytes (ret +w 1) (next_full-IsValid v byte) (omega arith)))
      ]
  | inr part ↦
      let (n, e) = next-part byte v part in
      rw (part, e)
        (part-Wrote byte v bytes ret _ n small
          (write_line-Wrote bytes (ret +w 1) (next_part-IsValid v byte n) (omega arith)))
]
