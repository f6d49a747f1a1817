-- ===== src/Pipe/Queue.antt =====
-- A line as a bounded queue of bytes: no sequence of writes and reads tells them apart.
use helix_os.Common.{
  ℕ, ◌-◌, ◌^◌, ◌<◌, ◌≡◌, refl, ap, ◌∙◌, Bool, List, [], ◌∷◌, arith, length, take, drop, min,
}
use mathlib.Core.Path.{ap₂}
use helix_os.Pipe.{Pipeline, has_flag, pipe_flag_block, write_line, pipeline_read}
use helix_os.Pipe.Ring.{IsValid, contents}
use helix_os.Pipe.Write.{accept, accepted, capacity, blocks, length-contents, write_line-Wrote}
use helix_os.Pipe.Read.{pipeline_read-WasRead}

pub data Op : Type 0 where
  write : List ℕ → Op
  read : ℕ → Op

-- What a caller sees: the count that a call returns, and the bytes that a read hands over.
abbrev pub Reply : Type 0
Reply = ℕ × List ℕ

pub run_line : Pipeline → List Op → List Reply
run_line line [] = []
run_line line (write bytes ∷ ops) =
    let (n, line') = write_line line bytes 0 in (n, []) ∷ run_line line' ops
run_line line (read size ∷ ops) =
    let (n, bytes, line') = pipeline_read line size in (n, bytes) ∷ run_line line' ops

-- The queue holds at most `cap` bytes, oldest first. With `blk` it takes what fits; else it drops
-- the oldest bytes.
unfoldable pub run_queue : Bool → ℕ → List ℕ → List Op → List Reply
run_queue blk cap held [] = []
run_queue blk cap held (write bytes ∷ ops) =
    (accepted blk cap held bytes, []) ∷ run_queue blk cap (accept blk cap held bytes) ops
run_queue blk cap held (read size ∷ ops) =
    (min size (length held), take size held) ∷ run_queue blk cap (drop size held) ops

-- Every write of the sequence is shorter than 2 ^ 32 bytes, as an `unsigned` size is.
abbrev pub Sized : List Op → Type 0
Sized [] = Unit {0}
Sized (write bytes ∷ ops) = (length bytes < 2 ^ 32) × Sized ops
Sized (read size ∷ ops) = Sized ops

run_queue-cong :
    {b b' : Bool} {c c' : ℕ} {h h' : List ℕ} (ops : List Op)
    → b ≡ b'
    → c ≡ c'
    → h ≡ h'
    → run_queue b c h ops ≡ run_queue b' c' h' ops
run_queue-cong ops p q r = cc

Reply-eq : {n n' : ℕ} {bs bs' : List ℕ} → n ≡ n' → bs ≡ bs' → ◌≡◌ {A = Reply} (n, bs) (n', bs')
Reply-eq p q = ap₂ (λ n bs. (n, bs)) p q

-- A valid line, through any sequence of writes and reads, replies as the bounded queue of the
-- bytes that it holds: capacity one less than its size, blocking if its flag says so.
pub run_line-run_queue :
    (ops : List Op) {line : Pipeline}
    → IsValid line
    → Sized ops
    → run_line line ops ≡ run_queue (blocks line) (capacity line) (contents line) ops
unfolding run_line run_queue
run_line-run_queue [] v s = refl
run_line-run_queue (write bytes ∷ ops) {line} v s =
    let w = write_line-Wrote bytes 0 v (omega arith) in
    ap₂ ◌∷◌ (ap (λ n. (n, [])) (w.count ∙ omega arith)) (
      run_line-run_queue ops w.valid s.1
      ∙ run_queue-cong ops (ap (λ f. has_flag f pipe_flag_block) w.same_flags)
          (ap (λ n. n - 1) w.same_size) w.holds)
run_line-run_queue (read size ∷ ops) {line} v s =
    let w = pipeline_read-WasRead size v in
    let held = length-contents v in
    ap₂ ◌∷◌ (Reply-eq (w.count ∙ omega arith) w.handed) (
      run_line-run_queue ops w.valid s
      ∙ run_queue-cong ops (ap (λ f. has_flag f pipe_flag_block) w.same_flags)
          (ap (λ n. n - 1) w.same_size) w.left)
