-- ===== src/PipeCalls/Transfer.antt =====
-- What a write and a read do through the two descriptors of a pipe.
use mathlib.Core.Path.{subst}
use helix_os.Common.{
  ℕ, ◌-◌, ◌^◌, ◌≤◌, ◌<◌, ◌≡◌, ◌≢◌, refl, sym, ap, ◌∙◌, Bool, true, false, not, ◌&&◌, List, [], ◌∷◌,
  ◌++◌, arith, ◌==◌, if◌then◌else◌, length, take, drop, min, Bool-cases, inl, inr,
}
use helix_os.Pipe.{
  Pipe, Pipeline, has_flag, pipe_flag_block, pipe_flag_open, pipe_write, write_line, pipeline_read,
}
use helix_os.Pipe.Ring.{IsValid, contents}
use helix_os.Pipe.Write.{
  keep, accept, accepted, capacity, blocks, length-contents, write_line-Wrote,
}
use helix_os.Pipe.Read.{pipeline_read-WasRead}
use helix_os.Pipe.Single.{pipe_write-single}
use helix_os.Vfs.{FileNode}
use helix_os.Vfs.Open.{is_empty}
use helix_os.PipeCalls.{World, put, shared_get, read_first, pipe_vfs_read, pipe_vfs_write}

-- The pipe that a node of the pipe driver leads to.
abbrev pub pipe_of : World → FileNode → Pipe
pipe_of world node = world.pipes (shared_get world node.private_data)

-- The pipe has one line of 256 bytes, which is open, drops its oldest byte when it is full, and holds
-- the bytes `held`.
pub record Holds (pipe : Pipe) (held : List ℕ) : Type 0 where
  pub line : Pipeline
  pub one_line : pipe.bufs ≡ line ∷ []
  pub is_open : has_flag line.flags pipe_flag_open ≡ true
  pub drops : blocks line ≡ false
  pub size : line.size ≡ 256
  pub valid : IsValid line
  pub holds : contents line ≡ held

pub length-Holds : {pipe : Pipe} {held : List ℕ} → Holds pipe held → length held ≤ 255
length-Holds h =
    let v = h.valid in omega (arith, ap length h.holds, length-contents h.valid, h.size, v.avail_in)

pipe_write-Holds :
    {pipe : Pipe} {held : List ℕ} (bytes : List ℕ)
    → Holds pipe held
    → length bytes < 2 ^ 31
    → ((pipe_write pipe bytes).0 ≡ length bytes)
      × Holds (pipe_write pipe bytes).1 (keep 255 (held ++ bytes))
unfolding accept accepted
pipe_write-Holds {pipe} {held} bytes h small =
    let w = write_line-Wrote bytes 0 h.valid (omega arith) in
    let line' = (write_line h.line bytes 0).1 in
    let cap : capacity h.line ≡ 255 = ap (λ n. n - 1) h.size in
    let kept : contents line' ≡ keep 255 (held ++ bytes) =
      w.holds
      ∙ ap (λ b. accept b (capacity h.line) (contents h.line) bytes) h.drops
      ∙ ap (λ n. keep n (contents h.line ++ bytes)) cap
      ∙ ap (λ xs. keep 255 (xs ++ bytes)) h.holds in
    let all_counted : accepted (blocks h.line) (capacity h.line) (contents h.line) bytes
        ≡ length bytes =
      ap (λ b. accepted b (capacity h.line) (contents h.line) bytes) h.drops in
    rw (pipe_write-single pipe h.line bytes h.one_line h.is_open) (
      w.count ∙ omega (arith, all_counted),
      record {
        line = line';
        one_line = refl;
        is_open = ap (λ f. has_flag f pipe_flag_open) w.same_flags ∙ h.is_open;
        drops = ap (λ f. has_flag f pipe_flag_block) w.same_flags ∙ h.drops;
        size = w.same_size ∙ h.size;
        valid = w.valid;
        holds = kept;
      },
    )

pub read_first-Holds :
    {pipe : Pipe} {held : List ℕ} (n : ℕ)
    → Holds pipe held
    → let (ret, bytes, lines) = read_first pipe.bufs n in
      (ret ≡ min n (length held))
      × (bytes ≡ take n held)
      × Holds (record pipe { bufs = lines }) (drop n held)
unfolding read_first
read_first-Holds {pipe} {held} n h =
    let w = pipeline_read-WasRead n h.valid in
    let line' = (pipeline_read h.line n).2 in
    let v = h.valid in
    rw h.one_line (
      w.count ∙ omega (arith, ap length h.holds, length-contents h.valid),
      w.handed ∙ ap (take n) h.holds,
      record {
        line = line';
        one_line = refl;
        is_open = ap (λ f. has_flag f pipe_flag_open) w.same_flags ∙ h.is_open;
        drops = ap (λ f. has_flag f pipe_flag_block) w.same_flags ∙ h.drops;
        size = w.same_size ∙ h.size;
        valid = w.valid;
        holds = w.left ∙ ap (drop n) h.holds;
      },
    )

pub put_self : {A : Type 0} (fill : ℕ → A) (p : ℕ) (a : A) → put fill p a p ≡ a
put_self fill p a = let e : (p == p) ≡ true = ground arith in rw e refl

not_again :
    (bytes : List ℕ) (ret : ℕ) (more : Bool) (other : ℕ)
    → ret ≡ length bytes
    → (if not (is_empty bytes) && ret == 0 && more then other else ret) ≡ ret
not_again [] ret more other e = refl
not_again (c ∷ bytes) ret more other e = let ne : (ret == 0) ≡ false = ground arith in rw ne refl

pub length-ne : (xs : List ℕ) → xs ≢ [] → length xs ≢ 0
length-ne [] ne e = ne refl
length-ne (x ∷ xs) ne e = absurd (omega arith)

again :
    (n : ℕ) (held : List ℕ) (ret : ℕ) (more : Bool) (other : ℕ)
    → held ≢ []
    → ret ≡ min n (length held)
    → (if not (n == 0) && ret == 0 && more then other else ret) ≡ ret
again n held ret more other some_byte e = elim (Bool-cases (n == 0)) [
  | inl none_asked ↦ rw none_asked refl
  | inr asked ↦
      let some_held = length-ne held some_byte in
      let n_ne : n ≢ 0 = ground arith in
      let ne : (ret == 0) ≡ false = ground arith in rw (asked, ne) refl
]

module _ (world : World) (node : FileNode) (held : List ℕ)
    (h : Holds (pipe_of world node) held) where
  -- A write that is shorter than 2 ^ 31 bytes counts all of them, and the newest 255 bytes stay.
  pub write-Holds :
      (bytes : List ℕ) (offset : ℕ)
      → length bytes < 2 ^ 31
      → let (ret, world') = pipe_vfs_write node bytes offset world in
        (ret ≡ length bytes)
        × (world'.shareds ≡ world.shareds)
        × Holds (pipe_of world' node) (keep 255 (held ++ bytes))
  unfolding pipe_vfs_write accept accepted shared_get
  write-Holds bytes offset small =
      let (count, kept) = pipe_write-Holds bytes h small in
      (
        not_again bytes _ _ _ count ∙ count,
        refl,
        subst (λ p. Holds p (keep 255 (held ++ bytes))) (sym (put_self world.pipes _ _)) kept,
      )

  -- A read from a pipe that holds some byte hands over the oldest of them.
  pub read-Holds :
      (n offset : ℕ)
      → held ≢ []
      → let (ret, bytes, world') = pipe_vfs_read node n offset world in
        (ret ≡ min n (length held))
        × (bytes ≡ take n held)
        × (world'.shareds ≡ world.shareds)
        × Holds (pipe_of world' node) (drop n held)
  unfolding pipe_vfs_read read_first shared_get
  read-Holds n offset some_byte =
      let (count, handed, kept) = read_first-Holds n h in
      (
        again n held _ _ _ some_byte count ∙ count,
        handed,
        refl,
        subst (λ p. Holds p (drop n held)) (sym (put_self world.pipes _ _)) kept,
      )
