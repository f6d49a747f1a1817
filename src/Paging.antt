-- ===== src/Paging.antt =====
-- The page tables and the frame bitmap of kernel/base/arch/i586/paging.c, with the early allocator of
-- kernel/base/mem/alloc.c from which the tables come. Memory is read and written in words: the word
-- at an address is a number below 2 ^ 32. `none` is an access outside the bitmap.
pub mod Flags
pub mod Tables
pub mod Map
pub mod Frames
pub mod Owned
pub mod RoundTrip
pub mod Fault
mod Tests
use Prim.Native.Nat.{bit_and, bit_or}
use helix_os.Common.{
  ℕ, zero, suc, ◌+◌, ◌-◌, ◌*◌, ◌/◌, ◌%◌, ◌^◌, Bool, true, false, not, ◌&&◌, Option, none, some,
  List, [], ◌∷◌, ltb, leb, ◌==◌, if◌then◌else◌, ◌+w◌, ◌-w◌, get_elem?, set, replicate, length,
  ◌>>=◌,
}

abbrev pub page_user : ℕ
page_user = 4

abbrev pub page_writeable : ℕ
page_writeable = 2

abbrev pub page_present : ℕ
page_present = 1

abbrev pub page_size : ℕ
page_size = 0x1000

-- The kernel's variables; `page_bitmap` is NULL before `init_paging`.
pub record Machine : Type 0 where
  pub memory : ℕ → ℕ
  pub early_placement : ℕ
  pub page_bitmap : Option (List ℕ)
  pub last_free_page : ℕ
  pub nfree_pages : ℕ
  pub npages : ℕ
  pub current_dir : ℕ
  pub kernel_dir : ℕ
  pub paging_enabled : Bool

-- `a & ~0xfff`
abbrev pub page_of : ℕ → ℕ
page_of a = a / 4096 * 4096

abbrev pub store : (ℕ → ℕ) → ℕ → ℕ → ℕ → ℕ
store memory a v x = if x == a then v else memory x

-- `kmalloc_early`; `end` is the end of the kernel's image.
pub early_start : ℕ → Machine → ℕ
early_start end m = if m.early_placement == 0 then page_of end +w page_size else m.early_placement

pub align_up : ℕ → ℕ
align_up a = if a % 4096 == 0 then a else page_of a +w page_size

pub kmalloc_early : ℕ → ℕ → Bool → Machine → ℕ × Machine
unfolding early_start
kmalloc_early end size align m =
    let start = early_start end m in
    let ptr = if align then align_up start else start in
    (ptr, record m { early_placement = ptr +w size })

-- `m[i/8] & (1 << (i % 8))`
pub bm_get_bit : List ℕ → ℕ → Option Bool
bm_get_bit map i = do byte ← get_elem? map (i / 8); some (not (bit_and byte (2 ^ (i % 8)) == 0))

pub bm_set_bit : List ℕ → ℕ → Bool → Option (List ℕ)
bm_set_bit map i v = do
  byte ← get_elem? map (i / 8)
  some (set map (i / 8) (if v then bit_or byte (2 ^ (i % 8)) else bit_and byte (255 - 2 ^ (i % 8))))

-- The first byte that is not full, from `page` on; the first argument is how many bytes are left.
pub find_byte : ℕ → List ℕ → ℕ → Option (ℕ × ℕ)
find_byte zero map page = none
find_byte (suc left) map page =
    let rest = find_byte left map (page + 1) in
    get_elem? map page >>= λ byte. if bit_and byte 0xff == 0xff then rest else some (page, byte)

-- `for ( j = 0; i & 1; i >>= 1 ) j++;` on a byte, which has eight bits.
pub low_ones : ℕ → ℕ → ℕ → ℕ
low_ones zero i j = j
low_ones (suc left) i j = let rest = low_ones left (i / 2) (j + 1) in if i % 2 == 1 then rest else j

pub frame_in : Machine → List ℕ → Option (ℕ × Machine)
frame_in m map = do
  (page, byte) ← find_byte (length map - m.last_free_page) map m.last_free_page
  some (
    (page * 8 + low_ones 8 byte 0) * 4096,
    record m { last_free_page = page; nfree_pages = m.nfree_pages -w 1 },
  )

pub get_free_page : Machine → Option (ℕ × Machine)
get_free_page m = elim m.page_bitmap [ none ↦ some (0, m) | some map ↦ frame_in m map ]

-- The word of the directory for an address, and the word of a table.
abbrev pub dir_slot : ℕ → ℕ → ℕ
dir_slot dir vaddress = dir + 4 * (vaddress / 2 ^ 22)

abbrev pub table_slot : ℕ → ℕ → ℕ
table_slot table vaddress = table + 4 * (vaddress / 4096 % 1024)

-- A table that is missing is allocated; it is not cleared.
pub ensure_table : ℕ → Machine → ℕ → ℕ → ℕ → Machine
ensure_table end m dir vaddress permissions =
    let (table, m') = kmalloc_early end page_size true m in
    if m.memory (dir_slot dir vaddress) == 0
    then record m' { memory = store m'.memory (dir_slot dir vaddress) (bit_or table permissions) }
    else m

abbrev pub put_entry : ℕ → ℕ → Machine → ℕ → Machine
put_entry dir vaddress m entry = record m {
  memory = store m.memory (table_slot (page_of (m.memory (dir_slot dir vaddress))) vaddress) entry;
}

pub set_frame : Machine → ℕ → Bool → Option Machine
set_frame m frame v = elim m.page_bitmap [
  | none ↦ none
  | some map ↦ bm_set_bit map frame v >>= λ map'. some (record m { page_bitmap = some map' })
]

pub map_r_page : ℕ → Machine → ℕ → ℕ → ℕ → ℕ → ℕ × Machine
map_r_page end m dir vaddress raddress permissions =
    let entry = bit_or (page_of raddress) permissions in
    if dir == 0
    then (0, m)
    else (1, put_entry dir vaddress (ensure_table end m dir vaddress permissions) entry)

pub map_page : ℕ → Machine → ℕ → ℕ → ℕ → Option (ℕ × Machine)
map_page end m dir vaddress permissions = do
  (frame, m1) ← get_free_page m
  let entry = bit_or (page_of frame) permissions
  let mapped = put_entry dir vaddress (ensure_table end m1 dir vaddress permissions) entry
  m2 ← (if dir == 0 then some m1 else set_frame mapped (entry / 4096) true)
  some (1, m2)

-- `for ( i = start; i < end; i += PAGE_SIZE )`; `i` may pass 2 ^ 32, so the loop takes fuel.
pub map_loop : ℕ → ℕ → Machine → ℕ → ℕ → ℕ → ℕ → Option Machine
map_loop zero end m dir i stop permissions = none
map_loop (suc fuel) end m dir i stop permissions =
    let rest = map_page end m dir i permissions >>= λ r.
    map_loop fuel end r.1 dir (i +w page_size) stop permissions in
    if ltb i stop then rest else some m

pub map_pages : ℕ → ℕ → Machine → ℕ → ℕ → ℕ → ℕ → Option Machine
map_pages fuel end m dir start stop permissions = map_loop fuel end m dir start stop permissions

pub get_page : Machine → ℕ → ℕ → ℕ
get_page m dir vaddress =
    let table = m.memory (dir_slot dir vaddress) in
    if dir == 0
    then 0
    else (if table == 0 then 0 else m.memory (table_slot (page_of table) vaddress))

pub remap_loop : ℕ → ℕ → Machine → ℕ → ℕ → ℕ → ℕ → Option Machine
remap_loop zero end m dir i stop permissions = none
remap_loop (suc fuel) end m dir i stop permissions =
    let (ret, m') = map_r_page end m dir (page_of i) (get_page m dir i) permissions in
    let rest = remap_loop fuel end m' dir (i +w page_size) stop permissions in
    if ltb i stop then rest else some m

pub remap_pages : ℕ → ℕ → Machine → ℕ → ℕ → ℕ → ℕ → Option Machine
remap_pages fuel end m dir start stop permissions = remap_loop fuel end m dir start stop permissions

-- What `free_page` does with the entry that it found and cleared.
pub release_frame : Machine → ℕ → Option (ℕ × Machine)
release_frame m raddress =
    if raddress == 0
    then some (0, m)
    else (set_frame m (raddress / 4096) false >>= λ m'. some (
      1,
      record m' {
        last_free_page =
            if ltb (raddress / 2 ^ 15) m'.last_free_page
            then raddress / 2 ^ 15
            else m'.last_free_page;
        nfree_pages = m'.nfree_pages +w 1;
      },
    ))

pub free_page : Machine → ℕ → ℕ → Option (ℕ × Machine)
free_page m dir vaddress =
    let table = m.memory (dir_slot dir vaddress) in
    let raddress = m.memory (table_slot (page_of table) vaddress) in
    if dir == 0
    then some (0, m)
    else (if table == 0 then some (0, m) else release_frame (put_entry dir vaddress m 0) raddress)

-- The new current directory, and the physical address that goes to `cr3`, with its flags.
pub set_page_dir : Machine → ℕ → ℕ × Machine
set_page_dir m dir =
    let address = if m.paging_enabled then get_page m m.current_dir dir else dir in
    (bit_or address 7, record m { current_dir = dir })

-- `for( i = 0; i < PAGE_SIZE / 4; i++ ) ret[i] = dir[i];`; the first argument is how many are left.
pub copy_words : ℕ → (ℕ → ℕ) → ℕ → ℕ → ℕ → ℕ → ℕ
copy_words zero memory dest src i = memory
copy_words (suc left) memory dest src i =
    copy_words left (store memory (dest + 4 * i) (memory (src + 4 * i))) dest src (i + 1)

-- `fresh` is the page that `kmalloca` returns.
pub clone_page_dir : ℕ → Machine → ℕ → ℕ × Machine
clone_page_dir fresh m dir =
    (fresh, record m { memory = copy_words (page_size / 4) m.memory fresh dir 0 })

-- The loop of `init_paging`, over 0x300000 bytes: the frames below are mapped to themselves and taken.
pub identity_loop : ℕ → ℕ → Machine → ℕ → ℕ → Option Machine
identity_loop zero end m dir i = some m
identity_loop (suc left) end m dir i =
    set_frame (map_r_page end m dir i i 7).1 (i / 4096) true >>= λ m'.
    identity_loop left end (record m' { nfree_pages = m'.nfree_pages -w 1 }) dir (i + 0x1000)

-- `memset` of a page.
abbrev pub clear_page : (ℕ → ℕ) → ℕ → ℕ → ℕ
clear_page memory page a = if leb page a && ltb a (page + page_size) then 0 else memory a

-- `max_mem` is in units of 1 KB.
pub init_paging : ℕ → ℕ → Machine → Option Machine
init_paging end max_mem m =
    let (dir, m1) = kmalloc_early end page_size true m in
    let npages = max_mem / 4 in
    let (bitmap, m2) = kmalloc_early end (npages / 8) true m1 in
    let m3 = record m2 {
      memory = clear_page m2.memory dir;
      page_bitmap = some (replicate (npages / 8) 0);
      npages = npages;
      nfree_pages = npages;
      kernel_dir = dir;
    } in
    identity_loop 0x300 end m3 dir 7 >>= λ m4.
    some (record (set_page_dir m4 dir).1 { paging_enabled = true })
