-- ===== src/Pipe/Tests.antt =====
-- Runs of the pipe of kernel/base/datastructs/pipe.c, and its theorems at concrete lines.
use helix_os.Common.{◌≡◌, refl, none, List, [], ◌∷◌, arith}
use helix_os.Pipe.{Pipeline, Pipe, pipe_create, make_room, put_byte, write_line, pipe_write}
use helix_os.Pipe.Ring.{IsValid, contents}
use helix_os.Pipe.Write.{accept, accepted, keep}
use helix_os.Pipe.Lines.{AllWritten, total_taken, pipe_write-AllWritten}
use helix_os.Pipe.Queue.{Op, write, read, run_line, run_queue, run_line-run_queue}

-- A ring of four places that holds 8 and 9, the second round the end.
abbrev wrapped : Pipeline
wrapped = record {
  size = 4;
  avail = 2;
  writep = 4294967293;
  readp = 3;
  flags = 1;
  buf = 9 ∷ 7 ∷ 6 ∷ 8 ∷ [];
}

wrapped-IsValid : IsValid wrapped
wrapped-IsValid = omega arith

abbrev blocking : Pipeline
blocking = record wrapped { flags = 3 }

abbrev both : Pipe
both = record {
  nbufs = 2;
  buf_size = 0;
  used = 0;
  readers = 1;
  writers = 1;
  sem = 1;
  bufs = wrapped ∷ blocking ∷ [];
}

-- The newest three bytes stay, though `writep` wraps on the way.
contents-write : contents (write_line wrapped (1 ∷ 2 ∷ 3 ∷ 4 ∷ []) 0).1 ≡ 2 ∷ 3 ∷ 4 ∷ []
unfolding write_line make_room put_byte
contents-write = refl

contents-write_blocking : contents (write_line blocking (1 ∷ 2 ∷ 3 ∷ 4 ∷ []) 0).1 ≡ 8 ∷ 9 ∷ 1 ∷ []
unfolding write_line make_room put_byte
contents-write_blocking = refl

pipe_create-none : pipe_create both (λ i. []) 0 256 0 ≡ none
unfolding pipe_create
pipe_create-none = refl

pipe_write-AllWritten_example :
    ((pipe_write both (1 ∷ 2 ∷ [])).0 ≡ total_taken (1 ∷ 2 ∷ []) both.bufs)
    × AllWritten (1 ∷ 2 ∷ []) both.bufs (pipe_write both (1 ∷ 2 ∷ [])).1.bufs
pipe_write-AllWritten_example =
    pipe_write-AllWritten both (1 ∷ 2 ∷ []) (wrapped-IsValid, (omega arith, tt)) (omega arith)

abbrev script : List Op
script = write (1 ∷ 2 ∷ []) ∷ read 2 ∷ read 5 ∷ []

run_line-run_queue_example : run_line wrapped script ≡ (2, []) ∷ (2, 9 ∷ 1 ∷ []) ∷ (1, 2 ∷ []) ∷ []
unfolding run_queue accept accepted keep
run_line-run_queue_example =
    run_line-run_queue script {line = wrapped} wrapped-IsValid (omega arith)
