-- ===== src/Pipe/Single.antt =====
-- A pipe with one output, as a new pipe for two processes is.
use helix_os.Common.{ℕ, ◌≤◌, ◌≡◌, refl, true, some, List, [], ◌∷◌, arith, length}
use helix_os.Pipe.{
  Pipe, Pipeline, has_flag, pipe_flag_open, new_line, new_lines, pipe_create, write_line, write_one,
  write_lines, pipe_write,
}
use helix_os.Pipe.Ring.{IsValid}

pub pipe_write-single :
    (pipe : Pipe) (line : Pipeline) (bytes : List ℕ)
    → pipe.bufs ≡ line ∷ []
    → has_flag line.flags pipe_flag_open ≡ true
    → pipe_write pipe bytes
      ≡ ((write_line line bytes 0).0, record pipe { bufs = (write_line line bytes 0).1 ∷ [] })
unfolding pipe_write write_lines write_one
pipe_write-single pipe line bytes e is_open = rw (e, is_open) refl

pub pipe_create-single :
    (temp : Pipe) (block : ℕ → List ℕ) (size flags : ℕ)
    → pipe_create temp block 1 size flags
      ≡ some (record temp { nbufs = 1; bufs = new_line (block 0) size flags ∷ [] })
unfolding pipe_create new_lines
pipe_create-single temp block size flags = refl

-- The line of a pipe between two processes: 256 bytes, open, never blocking.
pub new_line-IsValid : (buf : List ℕ) → 256 ≤ length buf → IsValid (new_line buf 256 0)
new_line-IsValid buf room = record {
  room = room;
  small = omega arith;
  avail_in = omega arith;
  read_in = omega arith;
  write_word = omega arith;
  whole = refl;
  aligned = refl;
}
