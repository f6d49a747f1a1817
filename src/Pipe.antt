-- ===== src/Pipe.antt =====
-- kernel/base/datastructs/pipe.c: a pipe with one ring of bytes for each output. A function that
-- changes a line or a pipe returns the new one beside its result.
pub mod Ring
pub mod Write
pub mod Lines
pub mod Read
pub mod Queue
pub mod Single
mod Tests
use Prim.Native.Nat.{bit_and, bit_or}
use helix_os.Common.{
  ℕ, zero, suc, ◌+◌, ◌-◌, ◌%◌, Bool, not, ◌&&◌, Option, none, some, List, [], ◌∷◌, ◌==◌, ltb,
  if◌then◌else◌, ◌+w◌, ◌-w◌, get_or, set,
}

-- `pipeline_t`; `buf` holds at least `size` bytes.
pub record Pipeline : Type 0 where
  pub size : ℕ
  pub avail : ℕ
  pub writep : ℕ
  pub readp : ℕ
  pub flags : ℕ
  pub buf : List ℕ

-- `pipe_t`; the array of pointers `bufs` is the list of what they point to.
pub record Pipe : Type 0 where
  pub nbufs : ℕ
  pub buf_size : ℕ
  pub used : ℕ
  pub readers : ℕ
  pub writers : ℕ
  pub sem : ℕ
  pub bufs : List Pipeline

abbrev pub pipe_flag_open : ℕ
pipe_flag_open = 1

abbrev pub pipe_flag_block : ℕ
pipe_flag_block = 2

abbrev pub has_flag : ℕ → ℕ → Bool
has_flag flags mask = not (bit_and flags mask == 0)

-- The body of the loop of `pipe_create`; `buf` is the block that `kmalloc` returned.
abbrev pub new_line : List ℕ → ℕ → ℕ → Pipeline
new_line buf buf_size flags = record {
  size = buf_size;
  avail = 0;
  writep = 0;
  readp = 0;
  flags = bit_or pipe_flag_open flags;
  buf = buf;
}

pub new_lines : (ℕ → List ℕ) → ℕ → ℕ → ℕ → ℕ → List Pipeline
new_lines block buf_size flags i zero = []
new_lines block buf_size flags i (suc left) =
    new_line (block i) buf_size flags ∷ new_lines block buf_size flags (i + 1) left

-- `temp` is the unset `pipe_t` that `kmalloc` returned, `block i` the buffer for output `i`.
pub pipe_create : Pipe → (ℕ → List ℕ) → ℕ → ℕ → ℕ → Option Pipe
unfolding new_lines
pipe_create temp block outputs buf_size flags =
    if ltb 0 outputs
    then some (record temp { nbufs = outputs; bufs = new_lines block buf_size flags 0 outputs })
    else none

abbrev pub is_full : Pipeline → Bool
is_full line = line.avail == line.size -w 1

-- The write finds no room and may not drop a byte: the loop breaks.
abbrev pub must_block : Pipeline → Bool
must_block line = is_full line && has_flag line.flags pipe_flag_block

-- A full line drops its oldest byte, any other takes up one more.
pub make_room : Pipeline → Pipeline
make_room line =
    if is_full line
    then record line { readp = (line.readp +w 1) % line.size }
    else record line { avail = line.avail +w 1 }

pub put_byte : Pipeline → ℕ → Pipeline
put_byte line byte = record line {
  buf = set line.buf (line.writep % line.size) byte;
  writep = line.writep +w 1;
}

-- The inner loop of `pipe_write`, over the bytes that are left.
pub write_line : Pipeline → List ℕ → ℕ → ℕ × Pipeline
write_line line [] ret = (ret, line)
write_line line (byte ∷ bytes) ret =
    let rest = write_line (put_byte (make_room line) byte) bytes (ret +w 1) in
    if must_block line then (ret, line) else rest

-- The body of the outer loop: a line that is not open is passed over.
pub write_one : Pipeline → List ℕ → ℕ → ℕ × Pipeline
write_one line bytes ret =
    if has_flag line.flags pipe_flag_open then write_line line bytes ret else (ret, line)

pub write_lines : List Pipeline → List ℕ → ℕ → ℕ × List Pipeline
write_lines [] bytes ret = (ret, [])
write_lines (line ∷ lines) bytes ret =
    let (ret', line') = write_one line bytes ret in
    let (total, lines') = write_lines lines bytes ret' in (total, line' ∷ lines')

pub pipe_write : Pipe → List ℕ → ℕ × Pipe
pipe_write pipe bytes =
    let (ret, lines) = write_lines pipe.bufs bytes 0 in (ret, record pipe { bufs = lines })

-- What the body of the loop of `pipeline_read` leaves; it is run only where `avail` is not 0.
pub take_byte : Pipeline → Pipeline
take_byte line = record line { readp = (line.readp +w 1) % line.size; avail = line.avail - 1 }

-- The first argument is `size - i`; the results are `i`, the bytes read and the line.
pub read_loop : ℕ → Pipeline → ℕ → ℕ × List ℕ × Pipeline
read_loop zero line i = (i, [], line)
read_loop (suc left) line i =
    let rest = read_loop left (take_byte line) (i + 1) in
    if ltb i (line.avail +w i)
    then (rest.0, get_or line.buf line.readp 0 ∷ rest.1, rest.2)
    else (i, [], line)

pub pipeline_read : Pipeline → ℕ → ℕ × List ℕ × Pipeline
pipeline_read line size = read_loop size line 0
