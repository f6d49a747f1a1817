-- ===== src/Strings.antt =====
-- The routines of kernel/base/string.c over a byte-addressed memory. A loop that runs to a NUL
-- takes fuel, and `none` means that the fuel ran out; a counted loop recurs on its count.
pub mod Blocks
pub mod Scan
pub mod Copies
mod Tests
use helix_os.Common.{
  ℕ, zero, suc, ◌+◌, ◌-◌, Bool, true, false, not, ◌&&◌, ◌||◌, Option, none, some, ltb, ◌==◌,
  if◌then◌else◌, u32, ◌>>=◌,
}
use helix_os.Common.Bytes.{Memory, store}

-- `ret += x != y` on an `int`, kept as its 32-bit pattern.
abbrev pub add_ne : ℕ → ℕ → ℕ → ℕ
add_ne ret x y = u32 (ret + (if x == y then 0 else 1))

pub strlen_loop : ℕ → Memory → ℕ → ℕ → Option ℕ
strlen_loop zero m input i = none
strlen_loop (suc fuel) m input i =
    let rest = strlen_loop fuel m input (i + 1) in if m (input + i) == 0 then some i else rest

pub strlen : ℕ → Memory → ℕ → Option ℕ
strlen fuel m input = strlen_loop fuel m input 0

pub strcmp_loop : ℕ → Memory → ℕ → ℕ → ℕ → ℕ → Option ℕ
strcmp_loop zero m s1 s2 i ret = none
strcmp_loop (suc fuel) m s1 s2 i ret =
    let ret' = add_ne ret (m (s1 + i)) (m (s2 + i)) in
    let rest = strcmp_loop fuel m s1 s2 (i + 1) ret' in
    if m (s1 + i) == 0 || m (s2 + i) == 0 then some ret' else rest

pub strcmp : ℕ → Memory → ℕ → ℕ → Option ℕ
strcmp fuel m s1 s2 = strcmp_loop fuel m s1 s2 0 0

-- The first argument is `len - i`, the rounds left.
pub strncmp_loop : ℕ → Memory → ℕ → ℕ → ℕ → ℕ → ℕ
strncmp_loop zero m s1 s2 i ret = ret
strncmp_loop (suc left) m s1 s2 i ret =
    let ret' = add_ne ret (m (s1 + i)) (m (s2 + i)) in
    let rest = strncmp_loop left m s1 s2 (i + 1) ret' in
    if m (s1 + i) == 0 || m (s2 + i) == 0 then ret' else rest

-- `len` is an `int` that is not negative (a negative one makes no round).
pub strncmp : Memory → ℕ → ℕ → ℕ → ℕ
strncmp m s1 s2 len = strncmp_loop len m s1 s2 0 0

pub strcpy_loop : ℕ → Memory → ℕ → ℕ → ℕ → Option Memory
strcpy_loop zero m dest src i = none
strcpy_loop (suc fuel) m dest src i =
    let rest = strcpy_loop fuel (store m (dest + i) (m (src + i))) dest src (i + 1) in
    if not (m (src + i) == 0) then rest else some (store m (dest + i) 0)

pub strcpy : ℕ → Memory → ℕ → ℕ → Option Memory
strcpy fuel m dest src = strcpy_loop fuel m dest src 0

pub strncpy_loop : ℕ → Memory → ℕ → ℕ → ℕ → ℕ → Option Memory
strncpy_loop zero m dest src len i = none
strncpy_loop (suc fuel) m dest src len i =
    let rest = strncpy_loop fuel (store m (dest + i) (m (src + i))) dest src len (i + 1) in
    if not (m (src + i) == 0) && ltb i len then rest else some (store m (dest + i) 0)

pub strncpy : ℕ → Memory → ℕ → ℕ → ℕ → Option Memory
strncpy fuel m dest src len = strncpy_loop fuel m dest src len 0

-- The scan for the end of `dest` is the loop of `strlen`.
pub strcat : ℕ → Memory → ℕ → ℕ → Option Memory
strcat fuel m dest src = do i ← strlen_loop fuel m dest 0; strcpy fuel m (dest + i) src

pub strncat : ℕ → Memory → ℕ → ℕ → ℕ → Option Memory
strncat fuel m dest src n = do i ← strlen_loop fuel m dest 0; strncpy fuel m (dest + i) src n

pub memset : Memory → ℕ → ℕ → ℕ → Memory
memset m dest value zero = m
memset m dest value (suc count) = memset (store m dest value) (dest + 1) value count

-- As the source has it, this writes bytes, like `memset`.
pub memsetw : Memory → ℕ → ℕ → ℕ → Memory
memsetw m dest value zero = m
memsetw m dest value (suc count) = memsetw (store m dest value) (dest + 1) value count

-- `*dest = *src` on a `uint32_t`: four bytes are read before four are written.
abbrev pub copy_word : Memory → ℕ → ℕ → Memory
copy_word m dest src =
    store (store (store (store m dest (m src)) (dest + 1) (m (src + 1))) (dest + 2) (m (src + 2)))
      (dest + 3) (m (src + 3))

pub copy_bytes : Memory → ℕ → ℕ → ℕ → Memory
copy_bytes m dest src zero = m
copy_bytes m dest src (suc count) = copy_bytes (store m dest (m src)) (dest + 1) (src + 1) count

pub memcpy_loop : ℕ → Memory → ℕ → ℕ → ℕ → Option Memory
memcpy_loop zero m dest src count = none
memcpy_loop (suc fuel) m dest src count =
    let rest = memcpy_loop fuel (copy_word m dest src) (dest + 4) (src + 4) (count - 4) in
    if ltb 4 count then rest else some (copy_bytes m dest src count)

pub memcpy : ℕ → Memory → ℕ → ℕ → ℕ → Option Memory
memcpy fuel m dest src count = memcpy_loop fuel m dest src count

pub memmove : Memory → ℕ → ℕ → ℕ → Memory
unfolding copy_bytes
memmove m dest src count = copy_bytes m dest src count

-- The first argument is `len - i`.
pub memcmp_loop : ℕ → Memory → ℕ → ℕ → ℕ → ℕ → ℕ
memcmp_loop zero m s1 s2 i ret = ret
memcmp_loop (suc left) m s1 s2 i ret =
    memcmp_loop left m s1 s2 (i + 1) (add_ne ret (m (s1 + i)) (m (s2 + i)))

pub memcmp : Memory → ℕ → ℕ → ℕ → ℕ
memcmp m s1 s2 len = memcmp_loop len m s1 s2 0 0
