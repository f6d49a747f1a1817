-- ===== src/Vfs/Lookup/Walk.antt =====
-- The lookup of a path as a walk over its names.
use helix_os.Common.{ℕ, ◌<◌, ◌≡◌, refl, List, [], ◌∷◌, ◌++◌, arith, ◌==◌, if◌then◌else◌, length}
use helix_os.Vfs.{FileNode, Funcs, call_lookup}
use helix_os.Vfs.Lookup.{next_name, skip_slash, is_dot, mounted}

-- A byte in front of the first name.
abbrev pub cons_first : ℕ → List (List ℕ) → List (List ℕ)
cons_first c [] = (c ∷ []) ∷ []
cons_first c (name ∷ names) = (c ∷ name) ∷ names

-- The names of a path, which slashes part; a slash at the end adds none.
unfoldable pub names_of : List ℕ → List (List ℕ)
names_of [] = []
names_of (c ∷ path) = let rest = names_of path in if c == b'/' then [] ∷ rest else cons_first c rest

-- Every name fits the buffer.
abbrev pub Fitting : List (List ℕ) → Type 0
Fitting [] = Unit
Fitting (name ∷ names) = (length name < 256) × Fitting names

module _ {W : Type 0} (drivers : ℕ → Funcs W) (roots : ℕ → FileNode) (flags : ℕ) where
  -- Each name is looked up in the node of those before it; `.` is the node itself.
  pub walk : List (List ℕ) → FileNode → W → ℕ × FileNode × W
  walk [] node world = (0, node, world)
  walk (name ∷ names) node world =
      let (ret, next, world') = call_lookup drivers node name flags world in
      let skipped = walk names node world in
      let down = walk names (mounted roots next) world' in
      if is_dot name then skipped else (if ret == 0 then down else (ret, node, world'))

-- A round takes the first name off the path, if its buffer has room for it.
abbrev Round : ℕ → List ℕ → List ℕ → List (List ℕ) → Type 0
Round left path name names =
    ((next_name left path).0 ≡ name) × (names_of (skip_slash (next_name left path).1) ≡ names)

module _ {W : Type 0} (drivers : ℕ → Funcs W) (roots : ℕ → FileNode) (flags : ℕ) where
  module _ (fuel : ℕ) (node : FileNode) (c : ℕ) (path : List ℕ) (world : W) (name : List ℕ)
      (names : List (List ℕ)) where
    abbrev rest : List ℕ
    rest = skip_slash (next_name 256 (c ∷ path)).1

  -- A walk over two lists of names is a walk over the first and then, from where that ends, over the
  -- second, unless the first fails.
  pub walk-append :
      (xs ys : List (List ℕ)) (node : FileNode) (world : W)
      → let (ret, last, world') = walk drivers roots flags xs node world in
        walk drivers roots flags (xs ++ ys) node world
        ≡ (if ret == 0 then walk drivers roots flags ys last world' else (ret, last, world'))
  unfolding walk
  walk-append [] ys node world = refl
  walk-append (name ∷ xs) ys node world =
      let (ret, next, w) = call_lookup drivers node name flags world in
      ground (arith, walk-append xs ys node world, walk-append xs ys (mounted roots next) w)
