-- ===== src/Strings/Tests.antt =====
-- Runs of the routines of kernel/base/string.c, and their theorems at concrete memories.
use helix_os.Common.{ℕ, ◌<◌, ◌^◌, ◌≡◌, ◌↔◌, refl, Option, some, List, [], ◌∷◌, arith, get_or}
use helix_os.Common.Bytes.{Memory, IsString}
use helix_os.Strings.{strlen, strcmp_loop, strcmp, memcpy, memcpy_loop, copy_bytes, memmove}
use helix_os.Strings.Blocks.{Copied, memmove_smears, memcpy-Copied}
use helix_os.Strings.Scan.{strlen-length, mismatches, strcmp_iff}

-- "cat" at 0, "car" at 4, and nothing behind.
abbrev text : Memory
text a = get_or (99 ∷ 97 ∷ 116 ∷ 0 ∷ 99 ∷ 97 ∷ 114 ∷ 0 ∷ []) a 0

abbrev cat : List ℕ
cat = 99 ∷ 97 ∷ 116 ∷ []

abbrev car : List ℕ
car = 99 ∷ 97 ∷ 114 ∷ []

cat-IsString : IsString text 0 cat
cat-IsString = omega arith

car-IsString : IsString text 4 car
car-IsString = omega arith

strcmp_differs : strcmp 9 text 0 4 ≡ some 1
unfolding strcmp strcmp_loop
strcmp_differs = refl

memcpy_long : Option (List ℕ)
unfolding memcpy memcpy_loop copy_bytes
memcpy_long = elim (memcpy 9 text 20 0 7) [
  | some m ↦ some (m 20 ∷ m 25 ∷ m 26 ∷ m 27 ∷ [])
  | o ↦ Option.none
]

memcpy_long_copies : memcpy_long ≡ some (99 ∷ 97 ∷ 114 ∷ 0 ∷ [])
unfolding memcpy_long
memcpy_long_copies = refl

memmove_smears_example : memmove text 1 0 3 3 ≡ 99
memmove_smears_example = memmove_smears text 0 3 3

memcpy-Copied_example : (m' : Memory) × (memcpy 8 text 20 0 7 ≡ some m') × Copied text 20 0 7 m'
memcpy-Copied_example = memcpy-Copied 8 text 20 0 7 (omega arith) (omega arith)

strlen-length_example : strlen 9 text 4 ≡ some 3
strlen-length_example = strlen-length 9 text 4 car car-IsString (omega arith) (omega arith)

strcmp_iff_example :
    (r : ℕ) × (strcmp 9 text 0 4 ≡ some r)
    × (r ≡ mismatches cat car)
    × (r < 2 ^ 31)
    × ((r ≡ 0) ↔ (cat ≡ car))
strcmp_iff_example =
    strcmp_iff 9 text 0 4 cat car cat-IsString car-IsString (omega arith) (omega arith)
