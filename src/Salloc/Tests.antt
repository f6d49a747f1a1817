-- ===== src/Salloc/Tests.antt =====
-- Runs of the size computations of kernel/base/mem/salloc.c, and their theorems at sizes.
use helix_os.Common.{ℕ, ◌+◌, ◌*◌, ◌≡◌, refl, some, arith}
use helix_os.Salloc.{
  sheap_valid_denom, next_class, class_of, map_bits, block_size, mapped_pages, freed_pages,
}
use helix_os.Salloc.Classes.{Fits, class_of-Fits}

-- 129 bytes are three units of 64, and the next class that is valid is the fourth.
class_of_129 : class_of 129 ≡ some 4
unfolding class_of next_class sheap_valid_denom
class_of_129 = refl

blocks_of_129 : block_size (64 * 4) ≡ 256
unfolding block_size map_bits
blocks_of_129 = refl

-- A page of bytes gets one page, and the length word has no room.
page_gets_one : mapped_pages 4096 ≡ 1
unfolding mapped_pages
page_gets_one = refl

-- For 4092 bytes two pages are mapped, and one is counted when they are freed.
pages_differ : ◌≡◌ {A = ℕ × ℕ} (mapped_pages 4092, freed_pages (4092 + 4)) (2, 1)
unfolding mapped_pages freed_pages
pages_differ = refl

class_of-Fits_example : (bits : ℕ) × (class_of 300 ≡ some bits) × Fits 300 bits
class_of-Fits_example = class_of-Fits 300 (omega arith)
