-- ===== src/Vfs/Cursor.antt =====
-- Reads of a file whose driver hands over its bytes: the descriptor is a cursor into them.
use helix_os.Common.{
  ℕ, zero, suc, ◌+◌, ◌^◌, ◌≤◌, ◌<◌, ◌≡◌, ◌≢◌, refl, ap, ◌∙◌, true, Option, some, List, [], ◌∷◌,
  arith, ltb, ◌>>=◌, ◌+w◌, length, take, drop, length-take, length-drop, take-nil,
}
use helix_os.Vfs.{
  gained, FileNode, FileObj, Funcs, State, found, vfs_get_pobj, put_obj, call_read, vfs_read,
}
use helix_os.Vfs.Once.{vfs_read-once}
use helix_os.Vfs.Objects.{IsFile, get_pobj-IsFile, IsFile-found, put_obj-found}

pub drop-nil : {A : Type 0} (n : ℕ) → drop {A = A} n [] ≡ []
drop-nil zero = refl
drop-nil (suc n) = refl

-- What a read takes moves the cursor on by as many bytes.
drop-advance :
    (off n : ℕ) (xs : List ℕ) → drop (off + length (take n (drop off xs))) xs ≡ drop n (drop off xs)
drop-advance zero zero xs = refl
drop-advance zero (suc n) [] = refl
drop-advance zero (suc n) (x ∷ xs) = ground (arith, drop-advance 0 n xs)
drop-advance (suc off) n [] = rw (take-nil, drop-nil, drop-nil) refl
drop-advance (suc off) n (x ∷ xs) =
    let e : suc off + length (take n (drop off xs)) ≡ suc (off + length (take n (drop off xs))) =
      omega arith in
    ap (λ k. drop k (x ∷ xs)) e ∙ drop-advance off n xs

-- Every read asks for some byte.
abbrev pub Positive : List ℕ → Type 0
Positive [] = Unit
Positive (size ∷ sizes) = (size ≢ 0) × Positive sizes

-- The pieces that reads of these sizes take from the front.
pub chunks : List ℕ → List ℕ → List (ℕ × List ℕ)
chunks [] xs = []
chunks (n ∷ sizes) xs = (length (take n xs), take n xs) ∷ chunks sizes (drop n xs)

module _ {W : Type 0} (drivers : ℕ → Funcs W) (schedule : W → W) where
  -- The driver's `read` hands over the bytes of the file, and its state stays as it is.
  abbrev pub PlainFile : State W → FileNode → List ℕ → Type 0
  PlainFile st node bytes =
      (size offset : ℕ)
      → call_read drivers node size offset st.world
        ≡ (length (take size (drop offset bytes)), take size (drop offset bytes), st.world)

  -- A sequence of reads, with what each returns and hands over.
  pub run_reads : ℕ → State W → ℕ → List ℕ → Option (List (ℕ × List ℕ))
  run_reads fuel st pnode [] = some []
  run_reads fuel st pnode (size ∷ sizes) = do
    (ret, bytes, st') ← vfs_read drivers schedule fuel st pnode size
    rest ← run_reads fuel st' pnode sizes
    some ((ret, bytes) ∷ rest)

  abbrev advance : FileObj → ℕ → FileObj
  advance obj n = record obj { read_offset = obj.read_offset + n }

  module _ (fuel : ℕ) (st : State W) (pnode ptr : ℕ) (obj : FileObj) (bytes : List ℕ)
      (file : IsFile st pnode ptr obj) (plain : PlainFile st obj.node bytes)
      (inside : obj.read_offset ≤ length bytes) (small : length bytes < 2 ^ 31) where
    abbrev taken : ℕ → List ℕ
    taken size = take size (drop obj.read_offset bytes)

    abbrev after : ℕ → State W
    after size = put_obj st ptr (advance obj (length (taken size))) st.world

    taken-le : (size : ℕ) → obj.read_offset + length (taken size) ≤ length bytes
    taken-le size =
        omega
          (arith, length-take size (drop obj.read_offset bytes), length-drop obj.read_offset bytes)

    vfs_read-taken :
        (size : ℕ)
        → size ≢ 0
        → vfs_read drivers schedule (suc fuel) st pnode size
          ≡ some (length (taken size), taken size, after size)
    vfs_read-taken size ne =
        let n = length (taken size) in
        let le = taken-le size in
        let low : ltb n (2 ^ 31) ≡ true = ground arith in
        let moved : obj.read_offset +w gained n ≡ obj.read_offset + n = rw low (omega arith) in
        vfs_read-once drivers schedule fuel st pnode ptr obj (IsFile-found st pnode file) n st.world
          (omega arith) size (taken size) ne (plain size obj.read_offset)
        ∙ ap (λ k. some (n, taken size, put_obj st ptr (record obj { read_offset = k }) st.world))
            moved

  -- Reads of an open file of fewer than 2 ^ 31 bytes, whose driver hands over its bytes, each for some
  -- byte: they return the consecutive pieces of the file from the descriptor's offset on, each with
  -- its length, and none at the end.
  pub run_reads-chunks :
      (fuel : ℕ) (sizes : List ℕ) (st : State W) (pnode ptr : ℕ) (obj : FileObj) (bytes : List ℕ)
      → Positive sizes
      → vfs_get_pobj st pnode ≡ found ptr obj
      → PlainFile st obj.node bytes
      → obj.read_offset ≤ length bytes
      → length bytes < 2 ^ 31
      → run_reads (suc fuel) st pnode sizes ≡ some (chunks sizes (drop obj.read_offset bytes))
  unfolding run_reads chunks
  run_reads-chunks fuel [] st pnode ptr obj bytes pos e plain inside small = refl
  run_reads-chunks fuel (size ∷ sizes) st pnode ptr obj bytes pos e plain inside small =
      let file = get_pobj-IsFile st pnode ptr obj e in
      let one = vfs_read-taken fuel st pnode ptr obj bytes file plain inside small size pos.0 in
      let open' = put_obj-found st pnode file (advance obj _) st.world file.type in
      let more =
        run_reads-chunks fuel sizes _ pnode ptr _ bytes pos.1 open' plain
          (taken-le fuel st pnode ptr obj bytes file plain inside small size) small in
      rw (one, more)
        (ap
          (λ xs. some (
            (
              length (take size (drop obj.read_offset bytes)),
              take size (drop obj.read_offset bytes),
            )
            ∷ chunks sizes xs))
          (drop-advance obj.read_offset size bytes))
