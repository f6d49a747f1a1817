-- ===== src/Strings/Scan.antt =====
-- The routines of kernel/base/string.c that read a string to its NUL.
use helix_os.Common.{
  ℕ, zero, suc, ◌+◌, ◌^◌, ◌≤◌, ◌<◌, ◌≡◌, ◌↔◌, refl, ap, ◌∙◌, some, List, [], ◌∷◌, arith, ◌==◌,
  if◌then◌else◌, length, take,
}
use helix_os.Common.Bytes.{Memory, IsString}
use helix_os.Strings.{strlen_loop, strlen, add_ne, strcmp_loop, strcmp, strncmp_loop, strncmp}
use mathlib.Core.Path.{subst}

abbrev pub next-IsString :
    (m : Memory) (p i : ℕ) (s : List ℕ) → IsString m (p + i + 1) s → IsString m (p + (i + 1)) s
next-IsString m p i s h = subst (λ a. IsString m a s) (omega arith) h

pub strlen_loop-length :
    (fuel : ℕ) (m : Memory) (p i : ℕ) (s : List ℕ)
    → IsString m (p + i) s
    → length s < fuel
    → strlen_loop fuel m p i ≡ some (i + length s)
unfolding strlen_loop
strlen_loop-length zero m p i s h enough = absurd (omega arith)
strlen_loop-length (suc fuel) m p i [] h enough = ground arith
strlen_loop-length (suc fuel) m p i (c ∷ s) h enough =
    ground (arith, strlen_loop-length fuel m p (i + 1) s (next-IsString m p i s h.2) (omega arith))

-- `strlen` of a string of fewer than 2 ^ 31 bytes, so that the source's `int` does not overflow, given
-- more fuel than it has bytes, ends and returns its length.
pub strlen-length :
    (fuel : ℕ) (m : Memory) (p : ℕ) (s : List ℕ)
    → IsString m p s
    → length s < fuel
    → length s < 2 ^ 31
    → strlen fuel m p ≡ some (length s)
unfolding strlen
strlen-length fuel m p s h enough small =
    ground
      (arith, strlen_loop-length fuel m p 0 s (subst (λ a. IsString m a s) (omega arith) h) enough)

-- How many positions differ, up to the first end of a string.
pub mismatches : List ℕ → List ℕ → ℕ
mismatches [] [] = 0
mismatches [] (d ∷ t) = 1
mismatches (c ∷ s) [] = 1
mismatches (c ∷ s) (d ∷ t) = (if c == d then 0 else 1) + mismatches s t

mismatches_iff : (s t : List ℕ) → (mismatches s t ≡ 0) ↔ (s ≡ t)
unfolding mismatches
mismatches_iff [] [] = (λ h. refl, λ h. refl)
mismatches_iff [] (d ∷ t) = (λ h. cc, λ h. cc)
mismatches_iff (c ∷ s) [] = (λ h. cc, λ h. cc)
mismatches_iff (c ∷ s) (d ∷ t) =
    (λ h. ground (arith, mismatches_iff s t), λ h. ground (arith, mismatches_iff s t))

mismatches-le : (s t : List ℕ) → mismatches s t ≤ length s + 1
unfolding mismatches
mismatches-le [] [] = omega arith
mismatches-le [] (d ∷ t) = omega arith
mismatches-le (c ∷ s) [] = omega arith
mismatches-le (c ∷ s) (d ∷ t) = ground (arith, mismatches-le s t)

strcmp_loop-mismatches :
    (fuel : ℕ) (m : Memory) (p q i ret : ℕ) (s t : List ℕ)
    → IsString m (p + i) s
    → IsString m (q + i) t
    → length s < fuel
    → ret + length s + 1 < 2 ^ 32
    → strcmp_loop fuel m p q i ret ≡ some (ret + mismatches s t)
unfolding strcmp_loop mismatches
strcmp_loop-mismatches zero m p q i ret s t hs ht enough small = absurd (omega arith)
strcmp_loop-mismatches (suc fuel) m p q i ret [] [] hs ht enough small = ground arith
strcmp_loop-mismatches (suc fuel) m p q i ret [] (d ∷ t) hs ht enough small = ground arith
strcmp_loop-mismatches (suc fuel) m p q i ret (c ∷ s) [] hs ht enough small = ground arith
strcmp_loop-mismatches (suc fuel) m p q i ret (c ∷ s) (d ∷ t) hs ht enough small =
    let now = add_ne ret c d in
    let later =
      strcmp_loop-mismatches fuel m p q (i + 1) now s t (next-IsString m p i s hs.2)
        (next-IsString m q i t ht.2) in
    ground (arith, later)

-- `strcmp` of two strings, given more fuel than the first has bytes and fewer than 2 ^ 31 bytes
-- to compare, ends; it returns the number of positions that differ up to the first end, which is
-- never a negative number, and 0 exactly when the strings are equal.
pub strcmp_iff :
    (fuel : ℕ) (m : Memory) (p q : ℕ) (s t : List ℕ)
    → IsString m p s
    → IsString m q t
    → length s < fuel
    → length s + 1 < 2 ^ 31
    → (r : ℕ) × (strcmp fuel m p q ≡ some r)
      × (r ≡ mismatches s t)
      × (r < 2 ^ 31)
      × ((r ≡ 0) ↔ (s ≡ t))
unfolding strcmp
strcmp_iff fuel m p q s t hs ht enough small = (
  mismatches s t,
  strcmp_loop-mismatches fuel m p q 0 0 s t (subst (λ a. IsString m a s) (omega arith) hs)
        (subst (λ a. IsString m a t) (omega arith) ht) enough (omega arith)
      ∙ ap some (omega arith),
  refl,
  omega (arith, mismatches-le s t),
  mismatches_iff s t,
)

strncmp_loop-mismatches :
    (left : ℕ) (m : Memory) (p q i ret : ℕ) (s t : List ℕ)
    → IsString m (p + i) s
    → IsString m (q + i) t
    → ret + length s + 1 < 2 ^ 32
    → strncmp_loop left m p q i ret ≡ ret + mismatches (take left s) (take left t)
unfolding strncmp_loop mismatches
strncmp_loop-mismatches zero m p q i ret s t hs ht small = omega arith
strncmp_loop-mismatches (suc left) m p q i ret [] [] hs ht small = ground arith
strncmp_loop-mismatches (suc left) m p q i ret [] (d ∷ t) hs ht small = ground arith
strncmp_loop-mismatches (suc left) m p q i ret (c ∷ s) [] hs ht small = ground arith
strncmp_loop-mismatches (suc left) m p q i ret (c ∷ s) (d ∷ t) hs ht small =
    let now = add_ne ret c d in
    let later =
      strncmp_loop-mismatches left m p q (i + 1) now s t (next-IsString m p i s hs.2)
        (next-IsString m q i t ht.2) in
    ground (arith, later)

-- `strncmp` of two strings, the first shorter than 2 ^ 32 - 1 bytes, returns 0 exactly when their
-- first `len` bytes are the same.
pub strncmp_iff :
    (m : Memory) (p q len : ℕ) (s t : List ℕ)
    → IsString m p s
    → IsString m q t
    → length s + 1 < 2 ^ 32
    → (strncmp m p q len ≡ 0) ↔ (take len s ≡ take len t)
unfolding strncmp
strncmp_iff m p q len s t hs ht small =
    let e =
      strncmp_loop-mismatches len m p q 0 0 s t (subst (λ a. IsString m a s) (omega arith) hs)
        (subst (λ a. IsString m a t) (omega arith) ht) (omega arith) in
    let spec = mismatches_iff (take len s) (take len t) in
    (λ h. spec.0 (omega arith), λ h. omega (arith, spec.1 h))
