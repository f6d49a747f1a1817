-- ===== src/PipeCalls/Ends.antt =====
-- `make_pipes`: the two descriptors, and what is written to the one and read from the other.
use mathlib.Core.Path.{subst}
use helix_os.Common.{
  ℕ, suc, ◌^◌, ◌<◌, ◌≡◌, ◌≢◌, refl, sym, ap, ◌∙◌, some, List, [], ◌++◌, arith, ◌+w◌, length, take,
  drop, min,
}
use helix_os.Pipe.Write.{keep}
use helix_os.Vfs.{
  FileNode, FileObj, Funcs, State, found, put_obj, vfs_get_pobj, vfs_read, vfs_write, gained,
  call_read, call_write,
}
use helix_os.Vfs.Once.{vfs_read-once, vfs_write-once}
use helix_os.Vfs.Objects.{IsFile-found, put_obj-found, get_pobj-IsFile}
use helix_os.PipeCalls.{World, pipe_vfs_read, pipe_vfs_write, pipe_vfs_funcs}
use helix_os.PipeCalls.Transfer.{Holds, pipe_of, length-Holds, length-ne, write-Holds, read-Holds}

-- The descriptors `r` and `w` are the two ends of a pipe that holds the bytes `held`.
pub record Connected (drivers : ℕ → Funcs World) (st : State World) (r w : ℕ) (held : List ℕ)
    : Type 0 where
  pub read_ptr : ℕ
  pub write_ptr : ℕ
  pub reader : FileObj
  pub writer : FileObj
  pub reads : vfs_get_pobj st r ≡ found read_ptr reader
  pub writes : vfs_get_pobj st w ≡ found write_ptr writer
  pub apart : read_ptr ≢ write_ptr
  pub same_node : reader.node ≡ writer.node
  pub served : drivers reader.node.fs ≡ pipe_vfs_funcs
  pub holds : Holds (pipe_of st.world reader.node) held

module _ (drivers : ℕ → Funcs World) (node : FileNode)
    (served : drivers node.fs ≡ pipe_vfs_funcs) where
  call_write-pipe :
      (bytes : List ℕ) (offset : ℕ) (world : World)
      → call_write drivers node bytes offset world ≡ pipe_vfs_write node bytes offset world
  unfolding call_write pipe_vfs_funcs
  call_write-pipe bytes offset world = rw (call_write, served) refl

  call_read-pipe :
      (n offset : ℕ) (world : World)
      → call_read drivers node n offset world ≡ pipe_vfs_read node n offset world
  unfolding call_read pipe_vfs_funcs
  call_read-pipe n offset world = rw (call_read, served) refl

-- An object that is written anew leaves the others' descriptors as they were.
put_obj_ne :
    {W : Type 0} (st : State W) (fd ptr p : ℕ) (obj o : FileObj) (world : W)
    → vfs_get_pobj st fd ≡ found p o
    → p ≢ ptr
    → vfs_get_pobj (put_obj st ptr obj world) fd ≡ found p o
put_obj_ne st fd ptr p obj o world e ne =
    let file = get_pobj-IsFile st fd p o e in
    IsFile-found (put_obj st ptr obj world) fd (record {
      here = file.here;
      ne_null = file.ne_null;
      live = ground (arith, file.live);
      type = file.type;
      allocated = file.allocated;
    })

module _ (drivers : ℕ → Funcs World) (schedule : World → World) (fuel : ℕ) where
  -- A write of some byte through the descriptor of the write end, of fewer than 2 ^ 31 bytes, returns
  -- their number, and the pipe holds the newest 255 bytes then.
  pub vfs_write-Connected :
      (st : State World) (r w : ℕ) (held bytes : List ℕ)
      → Connected drivers st r w held
      → bytes ≢ []
      → length bytes < 2 ^ 31
      → (st' : State World) × (vfs_write drivers schedule (suc fuel) st w bytes (length bytes)
          ≡ some (length bytes, st'))
        × Connected drivers st' r w (keep 255 (held ++ bytes))
  vfs_write-Connected st r w held bytes c some_byte small =
      let at_writer =
        call_write-pipe drivers c.writer.node
          (ap (λ n. drivers n.fs) (sym c.same_node) ∙ c.served) in
      let h = subst (λ n. Holds (pipe_of st.world n) held) c.same_node c.holds in
      let off = c.writer.write_offset in
      let (count, same, h') = write-Holds st.world c.writer.node held h bytes off small in
      let ret = (pipe_vfs_write c.writer.node bytes off st.world).0 in
      let world = (pipe_vfs_write c.writer.node bytes off st.world).1 in
      let writer = record c.writer { write_offset = off +w gained ret } in
      let file = get_pobj-IsFile st w c.write_ptr c.writer c.writes in
      let once =
        vfs_write-once drivers schedule fuel st w c.write_ptr c.writer c.writes ret world
          (omega (arith, count, small)) (length bytes) bytes (length-ne bytes some_byte)
          (at_writer bytes off st.world) in
      let st' = put_obj st c.write_ptr writer world in
      (
        st',
        once ∙ ap (λ n. some (n, st')) count,
        record {
          read_ptr = c.read_ptr;
          write_ptr = c.write_ptr;
          reader = c.reader;
          writer = writer;
          reads = put_obj_ne st r c.write_ptr c.read_ptr writer c.reader world c.reads c.apart;
          writes = put_obj-found st w file writer world file.type;
          apart = c.apart;
          same_node = c.same_node;
          served = c.served;
          holds =
              subst (λ n. Holds (pipe_of world n) (keep 255 (held ++ bytes))) (sym c.same_node) h';
        },
      )

  pub vfs_read-Connected :
      (st : State World) (r w n : ℕ) (held : List ℕ)
      → Connected drivers st r w held
      → n ≢ 0
      → held ≢ []
      → (st' : State World) × (vfs_read drivers schedule (suc fuel) st r n
          ≡ some (min n (length held), take n held, st'))
        × Connected drivers st' r w (drop n held)
  vfs_read-Connected st r w n held c asked some_byte =
      let off = c.reader.read_offset in
      let (count, handed, same, h') =
        read-Holds st.world c.reader.node held c.holds n off some_byte in
      let result = pipe_vfs_read c.reader.node n off st.world in
      let world = result.2 in
      let reader = record c.reader { read_offset = off +w gained result.0 } in
      let file = get_pobj-IsFile st r c.read_ptr c.reader c.reads in
      let short = length-Holds c.holds in
      let once =
        vfs_read-once drivers schedule fuel st r c.read_ptr c.reader c.reads result.0 world
          (omega (arith, count, short)) n result.1 asked
          (call_read-pipe drivers c.reader.node c.served n off st.world) in
      let st' = put_obj st c.read_ptr reader world in
      (
        st',
        once
            ∙ ap (λ k. some (k, result.1, st')) count
            ∙ ap (λ bs. some (min n (length held), bs, st')) handed,
        record {
          read_ptr = c.read_ptr;
          write_ptr = c.write_ptr;
          reader = reader;
          writer = c.writer;
          reads = put_obj-found st r file reader world file.type;
          writes =
              put_obj_ne st w c.read_ptr c.write_ptr reader c.writer world c.writes
                (λ e. c.apart (sym e));
          apart = c.apart;
          same_node = c.same_node;
          served = c.served;
          holds = h';
        },
      )
