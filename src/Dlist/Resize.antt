-- ===== src/Dlist/Resize.antt =====
-- What the memory of a new block held, for the tests.
use helix_os.Common.{ℕ}

abbrev pub fill : ℕ → ℕ
fill i = 7
