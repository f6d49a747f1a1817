-- ===== src/Ramfs/Files.antt =====
-- What `ramfs_write_node` stores and `ramfs_read_node` finds.
use helix_os.Common.{ℕ, ◌+◌, ◌≤◌, ◌<◌, ◌≡◌, List, length, get_elem?}
use helix_os.Dynstring.{Dynstring}
use helix_os.Dynstring.Chars.{IsRoomy}

-- The string `d'` after the bytes `xs` went into `d` from `pos` on.
record Written (d d' : Dynstring) (xs : List ℕ) (pos : ℕ) : Type 0 where
  roomy : IsRoomy d'
  covers : 0 < length xs → pos + length xs ≤ d'.size + 1
  grows : d.size ≤ d'.size
  before : (k : ℕ) → k < pos → get_elem? d'.string k ≡ get_elem? d.string k
  now : (k : ℕ) → k < length xs → get_elem? d'.string (pos + k) ≡ get_elem? xs k
