-- ===== src/PipeCalls/Made.antt =====
-- What `make_pipes` leaves.
use helix_os.Common.{
  ℕ, ◌+◌, ◌*◌, ◌≤◌, ◌<◌, ◌≡◌, ◌≢◌, refl, sym, ap, ◌∙◌, true, false, Option, some, [], ◌∷◌, arith,
  ◌==◌, ◌+w◌, length,
}
use helix_os.Dlist.{Dlist, dlist_get, dlist_add}
use helix_os.Dlist.Slots.{IsValid}
use helix_os.Dlist.Add.{dlist_add-slot}
use helix_os.Dlist.Room.{dlist_add-alloced}
use helix_os.Pipe.{Pipe, new_line}
use helix_os.Pipe.Single.{pipe_create-single, new_line-IsValid}
use helix_os.Vfs.{FileObj, Funcs, State, update, pobj_copy, zero_obj}
use helix_os.Vfs.Objects.{IsFile-found, allocated_of_get}
use helix_os.PipeCalls.{
  World, Linked, Blocks, put, change_pipe, count_end, copy_end, pipe_end, shared_new, shared_get,
  shared_aquire, pipe_vfs_funcs, make_pipe_pobj, pipe_obj_ctor, connect, make_pipes, pipe_pobj,
  pipeline_pobj,
}
use helix_os.PipeCalls.Transfer.{Holds, pipe_of}
use helix_os.PipeCalls.Ends.{Connected}

module _ (drivers : ℕ → Funcs World) (ctors : ℕ → ℕ → ℕ → State World → Option (State World))
    (at : Linked) (fill : ℕ → ℕ) (blocks : Blocks) (st : State World) where
  -- What the calls rely on: the pipe's functions stand where the objects point to them, the blocks
  -- that the heap hands out are blocks, and the table is valid and has room.
  pub record Fit : Type 0 where
    pub ctor : ctors at.pipe_obj_ctor ≡ pipe_obj_ctor
    pub some_ctor : at.pipe_obj_ctor ≢ 0
    pub served : drivers at.pipe_vfs_fs ≡ pipe_vfs_funcs
    pub some_writer : blocks.write_obj ≢ 0
    pub some_reader : blocks.read_obj ≢ 0
    pub some_shared : blocks.shared ≢ 0
    pub apart : blocks.read_obj ≢ blocks.write_obj
    pub buffer : 256 ≤ length (blocks.buffers 0)
    pub valid : IsValid st.pobjects
    pub room : st.pobjects.alloced + 2 * st.pobjects.block_size < 256

  made_pipe : Pipe
  made_pipe = record blocks.unset {
    nbufs = 1;
    bufs = new_line (blocks.buffers 0) 256 0 ∷ [];
    sem = 1;
  }

  abbrev writer : FileObj
  writer = pipe_end at blocks.shared

  made : State World
  made = record st {
    objects = update st.objects blocks.write_obj (some writer);
    world = record st.world {
      shareds =
          put st.world.shareds blocks.shared
            (record { object = blocks.pipe; references = 1; dtor = at.default_dtor });
      pipes = put st.world.pipes blocks.pipe made_pipe;
    };
  }

  make_pipe_pobj-made : make_pipe_pobj at blocks st ≡ some made
  unfolding make_pipe_pobj made made_pipe shared_new pipe_end
  make_pipe_pobj-made = rw (pipe_create-single blocks.unset blocks.buffers 256 0) refl

  module _ (fit : Fit) where
    copied : State World
    copied = record made {
      objects =
          update (update made.objects blocks.read_obj (some zero_obj)) blocks.read_obj
            (some (copy_end writer zero_obj));
      world = change_pipe (count_end (λ n. n +w 1) pipe_pobj) blocks.pipe (record made.world {
        shareds =
            put made.world.shareds blocks.shared
              (record { object = blocks.pipe; references = 2; dtor = at.default_dtor });
      });
    }

    pobj_copy-copied :
        pobj_copy ctors blocks.read_obj made blocks.write_obj ≡ some (blocks.read_obj, copied)
    unfolding pobj_copy pipe_obj_ctor shared_aquire shared_get made copied pipe_end copy_end
    pobj_copy-copied =
        let w : (blocks.write_obj == 0) ≡ false = ground (arith, fit.some_writer) in
        let r : (blocks.read_obj == 0) ≡ false = ground (arith, fit.some_reader) in
        let c : (at.pipe_obj_ctor == 0) ≡ false = ground (arith, fit.some_ctor) in
        let s : (blocks.shared == 0) ≡ false = ground (arith, fit.some_shared) in
        let a : (blocks.write_obj == blocks.read_obj) ≡ false = ground (arith, fit.apart) in
        let same_w : (blocks.write_obj == blocks.write_obj) ≡ true = ground arith in
        let same_r : (blocks.read_obj == blocks.read_obj) ≡ true = ground arith in
        let same_s : (blocks.shared == blocks.shared) ≡ true = ground arith in
        rw (w, same_w, c, fit.ctor, w, r, a, same_w, same_r, s, same_s) refl

    abbrev reader : FileObj
    reader = record (copy_end writer zero_obj) { file_type = pipeline_pobj }

    abbrev with_read : ℕ × Dlist
    with_read = dlist_add fill st.pobjects blocks.read_obj

    abbrev with_both : ℕ × Dlist
    with_both = dlist_add fill with_read.1 blocks.write_obj

    joined : State World
    joined = record copied {
      objects = update copied.objects blocks.read_obj (some reader);
      pobjects = with_both.1;
      world = change_pipe (λ p. record p { readers = 1; writers = 1 }) blocks.pipe copied.world;
    }

    make_pipes-joined : make_pipes ctors at fill blocks st ≡ some (with_read.0, with_both.0, joined)
    unfolding make_pipes connect copied joined shared_get made
    make_pipes-joined =
        let s : (blocks.shared == 0) ≡ false = ground (arith, fit.some_shared) in
        let same_r : (blocks.read_obj == blocks.read_obj) ≡ true = ground arith in
        let same_s : (blocks.shared == blocks.shared) ≡ true = ground arith in
        rw (make_pipe_pobj-made, pobj_copy-copied, same_r, s, same_s) refl

    -- Both ends are in the table, at slots that were free.
    slots :
        (dlist_get st.pobjects with_read.0 ≡ 0)
        × (dlist_get st.pobjects with_both.0 ≡ 0)
        × (with_read.0 ≢ with_both.0)
        × (dlist_get with_both.1 with_read.0 ≡ blocks.read_obj)
        × (dlist_get with_both.1 with_both.0 ≡ blocks.write_obj)
    slots =
        let room = fit.room in
        let (less, same) = dlist_add-alloced fill st.pobjects blocks.read_obj (omega arith) in
        let (free_r, _, at_r, keeps_r, _, valid) =
          dlist_add-slot fill {list = st.pobjects} fit.valid (omega arith) blocks.read_obj
            fit.some_reader in
        let (free_w, _, at_w, keeps_w, _, _) =
          dlist_add-slot fill {list = with_read.1} valid (omega arith) blocks.write_obj
            fit.some_writer in
        let differ : with_read.0 ≢ with_both.0 =
          λ e. fit.some_reader (sym at_r ∙ ap (dlist_get with_read.1) e ∙ free_w) in
        (
          free_r,
          sym (keeps_r with_both.0 (λ e. differ (sym e))) ∙ free_w,
          differ,
          keeps_w with_read.0 differ ∙ at_r,
          at_w,
        )

    joined-Holds : Holds (pipe_of joined.world writer.node) []
    unfolding joined copied made made_pipe shared_get pipe_end count_end
    joined-Holds =
        let s : (blocks.shared == 0) ≡ false = ground (arith, fit.some_shared) in
        let same_s : (blocks.shared == blocks.shared) ≡ true = ground arith in
        let same_p : (blocks.pipe == blocks.pipe) ≡ true = ground arith in
        rw (s, same_s, same_p)
          (record {
            line = new_line (blocks.buffers 0) 256 0;
            one_line = refl;
            is_open = refl;
            drops = refl;
            size = refl;
            valid = new_line-IsValid (blocks.buffers 0) fit.buffer;
            holds = refl;
          })

    joined-Connected : Connected drivers joined with_read.0 with_both.0 []
    unfolding joined copied made pipe_end copy_end
    joined-Connected =
        let (_, _, _, at_r, at_w) = slots in
        let same_r : (blocks.read_obj == blocks.read_obj) ≡ true = ground arith in
        let same_w : (blocks.write_obj == blocks.write_obj) ≡ true = ground arith in
        let a : (blocks.write_obj == blocks.read_obj) ≡ false = ground (arith, fit.apart) in
        record {
          read_ptr = blocks.read_obj;
          write_ptr = blocks.write_obj;
          reader = reader;
          writer = writer;
          reads = IsFile-found joined with_read.0 (record {
            here = at_r;
            ne_null = fit.some_reader;
            live = rw same_r refl;
            type = refl;
            allocated =
                allocated_of_get with_both.1 with_read.0 (λ z. fit.some_reader (sym at_r ∙ z));
          });
          writes = IsFile-found joined with_both.0 (record {
            here = at_w;
            ne_null = fit.some_writer;
            live = rw (a, same_w) refl;
            type = refl;
            allocated =
                allocated_of_get with_both.1 with_both.0 (λ z. fit.some_writer (sym at_w ∙ z));
          });
          apart = fit.apart;
          same_node = refl;
          served = fit.served;
          holds = joined-Holds;
        }

  -- `make_pipes` puts the two ends of an empty pipe at two descriptors that were free.
  pub make_pipes-Connected :
      Fit
      → (r w : ℕ) × (st' : State World) × (make_pipes ctors at fill blocks st ≡ some (r, w, st'))
        × (dlist_get st.pobjects r ≡ 0)
        × (dlist_get st.pobjects w ≡ 0)
        × (r ≢ w)
        × Connected drivers st' r w []
  make_pipes-Connected fit =
      let (free_r, free_w, differ, _, _) = slots fit in
      (
        (with_read fit).0,
        (with_both fit).0,
        joined fit,
        make_pipes-joined fit,
        free_r,
        free_w,
        differ,
        joined-Connected fit,
      )
