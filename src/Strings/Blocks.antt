-- ===== src/Strings/Blocks.antt =====
-- What the block routines of kernel/base/string.c leave in memory.
use helix_os.Common.{
  ℕ, zero, suc, ◌+◌, ◌-◌, ◌^◌, ◌≤◌, ◌<◌, ◌≡◌, refl, ◌↔◌, inl, inr, true, some, arith, ltb, ltb→lt,
  Bool-cases, if◌then◌else◌,
}
use helix_os.Common.Bytes.{Memory, store, within}
use helix_os.Strings.{
  copy_word, copy_bytes, memset, memcpy_loop, memcpy, memmove, memcmp_loop, memcmp, add_ne,
}

-- `memset` writes `value` to the `count` bytes from `dest` on, and changes no other byte.
pub memset_lem :
    (m : Memory) (dest value count x : ℕ)
    → memset m dest value count x ≡ (if within dest count x then value else m x)
unfolding memset
memset_lem m dest value zero x = ground arith
memset_lem m dest value (suc count) x =
    ground (arith, memset_lem (store m dest value) (dest + 1) value count x)

abbrev pub Copied : Memory → ℕ → ℕ → ℕ → Memory → Type 0
Copied m dest src n m' = (x : ℕ) → m' x ≡ (if within dest n x then m (src + (x - dest)) else m x)

-- The destination does not begin inside the source, where a forward copy would read what it has
-- written; it may begin at or below it.
abbrev pub Forward : ℕ → ℕ → ℕ → Type 0
Forward dest src n = src < dest → src + n ≤ dest

read-store :
    (m : Memory) (dest src n x v : ℕ)
    → Forward dest src (suc n)
    → within (dest + 1) n x ≡ true
    → store m dest v (src + 1 + (x - (dest + 1))) ≡ m (src + (x - dest))
read-store m dest src n x v fwd h =
    let e : src + 1 + (x - (dest + 1)) ≡ src + (x - dest) = ground arith in rw e (ground arith)

copy_bytes-Copied :
    (m : Memory) (dest src n : ℕ)
    → Forward dest src n
    → Copied m dest src n (copy_bytes m dest src n)
unfolding copy_bytes
copy_bytes-Copied m dest src zero fwd x = ground arith
copy_bytes-Copied m dest src (suc n) fwd x = ground (
  arith,
  copy_bytes-Copied (store m dest (m src)) (dest + 1) (src + 1) n (omega arith) x,
  read-store m dest src n x (m src) fwd,
)

-- `memmove` copies `count` bytes and changes no other byte, if the destination does not begin
-- inside the source.
pub memmove-Copied :
    (m : Memory) (dest src count : ℕ)
    → Forward dest src count
    → Copied m dest src count (memmove m dest src count)
unfolding memmove
memmove-Copied m dest src count fwd = copy_bytes-Copied m dest src count fwd

copy_word-Copied : (m : Memory) (dest src : ℕ) → Copied m dest src 4 (copy_word m dest src)
copy_word-Copied m dest src x = ground arith

Copied-append :
    (m m1 m2 : Memory) (dest src a b : ℕ)
    → Forward dest src (a + b)
    → Copied m dest src a m1
    → Copied m1 (dest + a) (src + a) b m2
    → Copied m dest src (a + b) m2
Copied-append m m1 m2 dest src a b fwd first second x =
    let e : within (dest + a) b x ≡ true → src + a + (x - (dest + a)) ≡ src + (x - dest) =
      λ h. ground arith in
    ground (arith, second x, first x, first (src + (x - dest)), e)

memcpy_loop-Copied :
    (fuel : ℕ) (m : Memory) (dest src count : ℕ)
    → count < fuel
    → Forward dest src count
    → (m' : Memory) × (memcpy_loop fuel m dest src count ≡ some m') × Copied m dest src count m'
unfolding memcpy_loop
memcpy_loop-Copied zero m dest src count enough fwd = absurd (omega arith)
memcpy_loop-Copied (suc fuel) m dest src count enough fwd = elim (Bool-cases (ltb 4 count)) [
  | inl long ↦
      let four : 4 < count = ltb→lt 4 count long in
      let (m', e, rest) =
        memcpy_loop-Copied fuel (copy_word m dest src) (dest + 4) (src + 4) (count - 4)
          (omega arith) (omega arith) in
      let all =
        Copied-append m (copy_word m dest src) m' dest src 4 (count - 4) (omega arith)
          (copy_word-Copied m dest src) rest in
      let n : 4 + (count - 4) ≡ count = omega arith in (m', rw (long, e), rw n at all)
  | inr short ↦ (copy_bytes m dest src count, rw short, copy_bytes-Copied m dest src count fwd)
]

-- `memcpy`, given more fuel than bytes, ends, copies `count` bytes and changes no other byte, if
-- the destination does not begin inside the source.
pub memcpy-Copied :
    (fuel : ℕ) (m : Memory) (dest src count : ℕ)
    → count < fuel
    → Forward dest src count
    → (m' : Memory) × (memcpy fuel m dest src count ≡ some m') × Copied m dest src count m'
unfolding memcpy
memcpy-Copied fuel m dest src count enough fwd = memcpy_loop-Copied fuel m dest src count enough fwd

copy_bytes_smears :
    (m : Memory) (src count x : ℕ)
    → copy_bytes m (src + 1) src count x ≡ (if within (src + 1) count x then m src else m x)
unfolding copy_bytes
copy_bytes_smears m src zero x = ground arith
copy_bytes_smears m src (suc count) x =
    ground (arith, copy_bytes_smears (store m (src + 1) (m src)) (src + 1) count x)

-- Where the destination begins one byte above the source, `memmove` does not move the block: the
-- whole destination is filled with the first byte of the source.
pub memmove_smears :
    (m : Memory) (src count x : ℕ)
    → memmove m (src + 1) src count x ≡ (if within (src + 1) count x then m src else m x)
unfolding memmove
memmove_smears m src count x = copy_bytes_smears m src count x

-- The two blocks of `n` bytes agree.
abbrev pub SameBytes : Memory → ℕ → ℕ → ℕ → Type 0
SameBytes m s1 s2 n = (j : ℕ) → j < n → m (s1 + j) ≡ m (s2 + j)

module _ (m : Memory) (s1 s2 : ℕ) where
  memcmp_loop-zero :
      (left i ret : ℕ)
      → ret + left < 2 ^ 32
      → memcmp_loop left m s1 s2 i ret ≡ 0
      → (ret ≡ 0) × ((j : ℕ) → i ≤ j → j < i + left → m (s1 + j) ≡ m (s2 + j))
  unfolding memcmp_loop
  memcmp_loop-zero zero i ret small e = (e, λ j lo hi. absurd (omega arith))
  memcmp_loop-zero (suc left) i ret small e =
      let (r, rest) =
        memcmp_loop-zero left (i + 1) (add_ne ret (m (s1 + i)) (m (s2 + i))) (ground arith) e in
      (ground arith, λ j lo hi. ground (arith, rest j))

  memcmp_loop-same :
      (left i : ℕ)
      → ((j : ℕ) → i ≤ j → j < i + left → m (s1 + j) ≡ m (s2 + j))
      → memcmp_loop left m s1 s2 i 0 ≡ 0
  unfolding memcmp_loop
  memcmp_loop-same zero i same = refl
  memcmp_loop-same (suc left) i same =
      let now : m (s1 + i) ≡ m (s2 + i) = same i (omega arith) (omega arith) in
      let later = memcmp_loop-same left (i + 1) (λ j lo hi. same j (omega arith) (omega arith)) in
      ground (arith, later)

  -- `memcmp` of fewer than 2 ^ 32 bytes returns 0 exactly when the two blocks agree.
  pub memcmp_iff : (len : ℕ) → len < 2 ^ 32 → (memcmp m s1 s2 len ≡ 0) ↔ SameBytes m s1 s2 len
  unfolding memcmp
  memcmp_iff len small = (
    λ e j hi. (memcmp_loop-zero len 0 0 (omega arith) e).1 j (omega arith) (omega arith),
    λ same. memcmp_loop-same len 0 (λ j lo hi. same j (omega arith)),
  )
