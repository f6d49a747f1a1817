-- ===== src/Pipe/Lines.antt =====
-- `pipe_write` over all the lines of a pipe.
use helix_os.Common.{
  ℕ, ◌+◌, ◌*◌, ◌^◌, ◌≤◌, ◌<◌, ◌≡◌, refl, Bool, true, false, List, [], ◌∷◌, arith, length,
  if◌then◌else◌, inl, inr, Bool-cases,
}
use helix_os.Pipe.{Pipeline, Pipe, pipe_flag_open, has_flag, write_one, write_lines, pipe_write}
use helix_os.Pipe.Ring.{IsValid, contents}
use helix_os.Pipe.Write.{accept, accepted, accepted-le, capacity, blocks, write_line-Wrote}

pub is_open : Pipeline → Bool
is_open line = has_flag line.flags pipe_flag_open

-- What `pipe_write` makes of one of its lines.
pub data WasWritten (bytes : List ℕ) (line line' : Pipeline) : Type 0 where
  written :
      is_open line ≡ true
      → IsValid line'
      → contents line' ≡ accept (blocks line) (capacity line) (contents line) bytes
      → WasWritten bytes line line'
  passed_over : is_open line ≡ false → line' ≡ line → WasWritten bytes line line'

abbrev pub AllWritten : List ℕ → List Pipeline → List Pipeline → Type 0
AllWritten bytes [] lines' = lines' ≡ []
AllWritten bytes (line ∷ lines) [] = ⊥
AllWritten bytes (line ∷ lines) (line' ∷ lines') =
    WasWritten bytes line line' × AllWritten bytes lines lines'

abbrev pub AllValid : List Pipeline → Type 0
AllValid [] = Unit {0}
AllValid (line ∷ lines) = IsValid line × AllValid lines

-- The bytes that a line takes, and those that the lines take in all.
pub taken : List ℕ → Pipeline → ℕ
taken bytes line =
    if is_open line then accepted (blocks line) (capacity line) (contents line) bytes else 0

pub total_taken : List ℕ → List Pipeline → ℕ
total_taken bytes [] = 0
total_taken bytes (line ∷ lines) = taken bytes line + total_taken bytes lines

module _ (bytes : List ℕ) {line : Pipeline} (ret : ℕ) (v : IsValid line)
    (small : ret + length bytes < 2 ^ 32) where
  taken-le : taken bytes line ≤ length bytes
  unfolding taken is_open
  taken-le = ground (arith, accepted-le (blocks line) (capacity line) (contents line) bytes)

  write_one-WasWritten :
      ((write_one line bytes ret).0 ≡ ret + taken bytes line)
      × WasWritten bytes line (write_one line bytes ret).1
  unfolding write_one taken is_open
  write_one-WasWritten = elim (Bool-cases (has_flag line.flags pipe_flag_open)) [
    | inl yes_open ↦
        let w = write_line-Wrote bytes ret v small in
        rw yes_open (w.count, written yes_open w.valid w.holds)
    | inr shut ↦ rw shut (omega arith, passed_over shut refl)
  ]

write_lines-AllWritten :
    (lines : List Pipeline) (bytes : List ℕ) (ret : ℕ)
    → AllValid lines
    → ret + length lines * length bytes < 2 ^ 32
    → let (total, lines') = write_lines lines bytes ret in
      (total ≡ ret + total_taken bytes lines) × AllWritten bytes lines lines'
unfolding write_lines total_taken
write_lines-AllWritten [] bytes ret v small = (omega arith, refl)
write_lines-AllWritten (line ∷ lines) bytes ret v small =
    let (n, w) = write_one-WasWritten bytes ret v.0 (omega arith) in
    let le = taken-le bytes ret v.0 (omega arith) in
    let (total, all) =
      write_lines-AllWritten lines bytes (write_one line bytes ret).0 v.1 (omega arith) in
    (omega arith, (w, all))

-- `pipe_write` to a pipe of valid lines writes the bytes to each line that is open, each by its
-- own rule (a line that blocks takes what fits, any other keeps the newest), leaves the others,
-- and returns the number of bytes taken in all, where that number cannot pass 2 ^ 32.
pub pipe_write-AllWritten :
    (pipe : Pipe) (bytes : List ℕ)
    → AllValid pipe.bufs
    → length pipe.bufs * length bytes < 2 ^ 32
    → let (ret, pipe') = pipe_write pipe bytes in
      (ret ≡ total_taken bytes pipe.bufs) × AllWritten bytes pipe.bufs pipe'.bufs
unfolding pipe_write
pipe_write-AllWritten pipe bytes v small =
    let (n, all) = write_lines-AllWritten pipe.bufs bytes 0 v (omega arith) in (omega arith, all)
