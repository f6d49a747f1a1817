-- ===== src/Strings/Copies.antt =====
-- The routines of kernel/base/string.c that write a string: where it stands afterwards, and that
-- no other byte changes.
use helix_os.Common.{
  ℕ, zero, suc, ◌+◌, ◌≤◌, ◌<◌, ◌≡◌, ◌≢◌, ◌∙◌, some, List, [], ◌∷◌, ◌++◌, arith, length, take,
}
use helix_os.Common.Bytes.{Memory, store, IsString, SameOutside, Apart}
use helix_os.Strings.{strlen_loop, strcpy_loop, strcpy, strncpy_loop, strncpy, strcat, strncat}
use helix_os.Strings.Scan.{next-IsString, strlen_loop-length}
use mathlib.Core.Path.{subst}

-- A string reads the same in a memory that agrees on its bytes and its NUL.
IsString-frame :
    (m m' : Memory) (p : ℕ) (s : List ℕ)
    → ((x : ℕ) → p ≤ x → x < p + length s + 1 → m' x ≡ m x)
    → IsString m p s
    → IsString m' p s
IsString-frame m m' p [] same h = same p (omega arith) (omega arith) ∙ h
IsString-frame m m' p (c ∷ s) same h = (
  same p (omega arith) (omega arith) ∙ h.0,
  h.1,
  IsString-frame m m' (p + 1) s (λ x lo hi. same x (omega arith) (omega arith)) h.2,
)

abbrev Wrote : Memory → ℕ → List ℕ → Memory → Type 0
Wrote m dest s m' = IsString m' dest s × SameOutside dest (length s + 1) m m'

Wrote-cons :
    (m m' : Memory) (p c : ℕ) (s : List ℕ)
    → c ≢ 0
    → Wrote (store m p c) (p + 1) s m'
    → Wrote m p (c ∷ s) m'
Wrote-cons m m' p c s ne (is, same) =
    ((ground (arith, same p), ne, is), λ x out. ground (arith, same x))

-- What the loop does from index `i` on: the rest of the string is written and ended.
strcpy_loop-Wrote :
    (fuel : ℕ) (m : Memory) (dest src i : ℕ) (s : List ℕ)
    → IsString m (src + i) s
    → length s < fuel
    → Apart (dest + i) (length s + 1) (src + i) (length s + 1)
    → (m' : Memory) × (strcpy_loop fuel m dest src i ≡ some m') × Wrote m (dest + i) s m'
unfolding strcpy_loop
strcpy_loop-Wrote zero m dest src i s h enough apart = absurd (omega arith)
strcpy_loop-Wrote (suc fuel) m dest src i [] h enough apart =
    (store m (dest + i) 0, ground arith, (ground arith, λ x out. ground arith))
strcpy_loop-Wrote (suc fuel) m dest src i (c ∷ s) h enough apart =
    let m1 = store m (dest + i) c in
    let still = IsString-frame m m1 (src + i + 1) s (λ x lo hi. ground arith) h.2 in
    let (m', e, w) =
      strcpy_loop-Wrote fuel m1 dest src (i + 1) s (next-IsString m1 src i s still) (omega arith)
        (omega arith) in
    (
      m',
      ground (arith, e),
      Wrote-cons m m' (dest + i) c s h.1 (subst (λ a. Wrote m1 a s m') (omega arith) w),
    )

-- `strcpy`, given more fuel than the string has bytes, ends with the string at `dest`, and changes
-- no byte but those of its copy, if the copy shares no byte with the source.
pub strcpy-IsString :
    (fuel : ℕ) (m : Memory) (dest src : ℕ) (s : List ℕ)
    → IsString m src s
    → length s < fuel
    → Apart dest (length s + 1) src (length s + 1)
    → (m' : Memory) × (strcpy fuel m dest src ≡ some m')
      × (IsString m' dest s × SameOutside dest (length s + 1) m m')
unfolding strcpy
strcpy-IsString fuel m dest src s h enough apart =
    let (m', e, w) =
      strcpy_loop-Wrote fuel m dest src 0 s (subst (λ a. IsString m a s) (omega arith) h) enough
        (omega arith) in
    (m', e, subst (λ a. Wrote m a s m') (omega arith) w)

-- The first argument of `take` is `len - i`.
strncpy_loop-Wrote :
    (fuel : ℕ) (m : Memory) (dest src len i k : ℕ) (s : List ℕ)
    → IsString m (src + i) s
    → length s < fuel
    → i + k ≡ len
    → Apart (dest + i) (length s + 1) (src + i) (length s + 1)
    → (m' : Memory) × (strncpy_loop fuel m dest src len i ≡ some m')
      × Wrote m (dest + i) (take k s) m'
unfolding strncpy_loop
strncpy_loop-Wrote zero m dest src len i k s h enough e apart = absurd (omega arith)
strncpy_loop-Wrote (suc fuel) m dest src len i zero [] h enough e apart =
    (store m (dest + i) 0, ground arith, (ground arith, λ x out. ground arith))
strncpy_loop-Wrote (suc fuel) m dest src len i (suc k) [] h enough e apart =
    (store m (dest + i) 0, ground arith, (ground arith, λ x out. ground arith))
strncpy_loop-Wrote (suc fuel) m dest src len i zero (c ∷ s) h enough e apart =
    (store m (dest + i) 0, ground arith, (ground arith, λ x out. ground arith))
strncpy_loop-Wrote (suc fuel) m dest src len i (suc k) (c ∷ s) h enough e apart =
    let m1 = store m (dest + i) c in
    let still = IsString-frame m m1 (src + i + 1) s (λ x lo hi. ground arith) h.2 in
    let (m', r, w) =
      strncpy_loop-Wrote fuel m1 dest src len (i + 1) k s (next-IsString m1 src i s still)
        (omega arith) (omega arith) (omega arith) in
    (
      m',
      ground (arith, r),
      Wrote-cons m m' (dest + i) c (take k s) h.1
          (subst (λ a. Wrote m1 a (take k s) m') (omega arith) w),
    )

-- `strncpy`, given more fuel than the string has bytes, ends with the first `len` bytes of the
-- string at `dest`, ended by a NUL, and changes no other byte, if the whole string and the room
-- for it at `dest` share no byte.
pub strncpy-IsString :
    (fuel : ℕ) (m : Memory) (dest src len : ℕ) (s : List ℕ)
    → IsString m src s
    → length s < fuel
    → Apart dest (length s + 1) src (length s + 1)
    → (m' : Memory) × (strncpy fuel m dest src len ≡ some m')
      × (IsString m' dest (take len s) × SameOutside dest (length (take len s) + 1) m m')
unfolding strncpy
strncpy-IsString fuel m dest src len s h enough apart =
    let (m', e, w) =
      strncpy_loop-Wrote fuel m dest src len 0 len s (subst (λ a. IsString m a s) (omega arith) h)
        enough (omega arith) (omega arith) in
    (m', e, subst (λ a. Wrote m a (take len s) m') (omega arith) w)

-- A string up to its end, and one that begins at its end.
IsString-append :
    (m m' : Memory) (p : ℕ) (d s : List ℕ)
    → IsString m p d
    → ((x : ℕ) → p ≤ x → x < p + length d → m' x ≡ m x)
    → IsString m' (p + length d) s
    → IsString m' p (d ++ s)
IsString-append m m' p [] s h same hs = subst (λ a. IsString m' a s) (omega arith) hs
IsString-append m m' p (c ∷ d) s h same hs = (
  same p (omega arith) (omega arith) ∙ h.0,
  h.1,
  IsString-append m m' (p + 1) d s h.2 (λ x lo hi. same x (omega arith) (omega arith))
      (subst (λ a. IsString m' a s) (omega arith) hs),
)

module _ (fuel : ℕ) (m : Memory) (dest src : ℕ) (d s : List ℕ) (hd : IsString m dest d)
    (hs : IsString m src s) (enough_d : length d < fuel) (enough_s : length s < fuel)
    (apart : Apart (dest + length d) (length s + 1) src (length s + 1)) where
  find_end : strlen_loop fuel m dest 0 ≡ some (length d)
  find_end = ground (
    arith,
    strlen_loop-length fuel m dest 0 d (subst (λ a. IsString m a d) (omega arith) hd) enough_d,
  )

  -- `strcat`, given more fuel than either string has bytes, ends with the second string behind
  -- the first at `dest`, and changes no byte but those behind the first, if these share none with
  -- the second string.
  pub strcat-append :
      (m' : Memory) × (strcat fuel m dest src ≡ some m')
      × (IsString m' dest (d ++ s) × SameOutside (dest + length d) (length s + 1) m m')
  unfolding strcat
  strcat-append =
      let (m', e, (is, same)) = strcpy-IsString fuel m (dest + length d) src s hs enough_s apart in
      (
        m',
        rw find_end e,
        (IsString-append m m' dest d s hd (λ x lo hi. same x (ground arith)) is, same),
      )

  -- `strncat`, given more fuel than either string has bytes, ends with the first `n` bytes of the
  -- second string behind the first at `dest`, ended by a NUL, and changes no other byte, if the room
  -- for the whole second string there shares no byte with it.
  pub strncat-append :
      (n : ℕ)
      → (m' : Memory) × (strncat fuel m dest src n ≡ some m')
        × (IsString m' dest (d ++ take n s)
            × SameOutside (dest + length d) (length (take n s) + 1) m m')
  unfolding strncat
  strncat-append n =
      let (m', e, (is, same)) =
        strncpy-IsString fuel m (dest + length d) src n s hs enough_s apart in
      (
        m',
        rw find_end e,
        (IsString-append m m' dest d (take n s) hd (λ x lo hi. same x (ground arith)) is, same),
      )
