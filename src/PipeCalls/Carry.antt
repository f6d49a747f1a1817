-- ===== src/PipeCalls/Carry.antt =====
-- A new pipe carries bytes from its one descriptor to the other.
use mathlib.Core.Path.{subst}
use helix_os.Common.{
  ℕ, ◌≡◌, ◌≢◌, refl, sym, ◌∙◌, false, [], arith, leb, ◌==◌, if◌then◌else◌, take-nil,
}
use helix_os.Vfs.{FileNode, neg, error_try_again}
use helix_os.PipeCalls.{World, pipe_vfs_read, read_first, shared_get}
use helix_os.Vfs.Cursor.{drop-nil}
use helix_os.PipeCalls.Transfer.{put_self, Holds, pipe_of, read_first-Holds}

-- A read from a pipe that holds no byte is told to try again as long as some descriptor can write to
-- the pipe, and returns 0, the end of the file, once there is none. It hands over nothing.
pub pipe_vfs_read-empty :
    (world : World) (node : FileNode) (n offset : ℕ)
    → Holds (pipe_of world node) []
    → n ≢ 0
    → let (ret, bytes, world') = pipe_vfs_read node n offset world in
      (ret ≡ (if leb 1 (pipe_of world node).writers then neg error_try_again else 0))
      × (bytes ≡ [])
      × Holds (pipe_of world' node) []
unfolding pipe_vfs_read shared_get
pipe_vfs_read-empty world node n offset h asked =
    let (count, handed, kept) = read_first-Holds n h in
    let none_read : (read_first (pipe_of world node).bufs n).0 ≡ 0 = omega (arith, count) in
    let some_asked : (n == 0) ≡ false = ground arith in
    (
      rw (none_read, some_asked) refl,
      handed ∙ take-nil n,
      subst (λ p. Holds p []) (sym (put_self world.pipes _ _)) (subst (Holds _) (drop-nil n) kept),
    )
