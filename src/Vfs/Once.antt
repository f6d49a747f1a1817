-- ===== src/Vfs/Once.antt =====
-- A read or a write that does not have to wait calls the driver once.
use helix_os.Common.{ℕ, suc, ◌≡◌, ◌≢◌, refl, Bool, true, false, ◌&&◌, some, List, arith, ◌==◌, ◌+w◌}
use helix_os.Vfs.{
  FileObj, Funcs, State, found, vfs_get_pobj, put_obj, gained, nonblock_bit, call_read, call_write,
  read_loop, write_loop, vfs_read, vfs_write, neg, error_try_again,
}

and_false : (b : Bool) → b && false ≡ false
and_false true = refl
and_false false = refl

module _ {W : Type 0} (drivers : ℕ → Funcs W) (schedule : W → W) (fuel : ℕ) (st : State W)
    (fd ptr : ℕ) (obj : FileObj) (e : vfs_get_pobj st fd ≡ found ptr obj) (ret : ℕ) (world : W)
    (done : ret ≢ neg error_try_again) where
  pub vfs_read-once :
      (n : ℕ) (bytes : List ℕ)
      → n ≢ 0
      → call_read drivers obj.node n obj.read_offset st.world ≡ (ret, bytes, world)
      → vfs_read drivers schedule (suc fuel) st fd n
        ≡ some (
          ret,
          bytes,
          put_obj st ptr (record obj { read_offset = obj.read_offset +w gained ret }) world,
        )
  unfolding vfs_read read_loop
  vfs_read-once n bytes ne call =
      let some_byte : (n == 0) ≡ false = ground arith in
      let other : (ret == neg error_try_again) ≡ false = ground arith in
      rw (some_byte, e, call, other, and_false (nonblock_bit obj.node.flags == 0)) refl

  pub vfs_write-once :
      (n : ℕ) (bytes : List ℕ)
      → n ≢ 0
      → call_write drivers obj.node bytes obj.write_offset st.world ≡ (ret, world)
      → vfs_write drivers schedule (suc fuel) st fd bytes n
        ≡ some (
          ret,
          put_obj st ptr (record obj { write_offset = obj.write_offset +w gained ret }) world,
        )
  unfolding vfs_write write_loop
  vfs_write-once n bytes ne call =
      let some_byte : (n == 0) ≡ false = ground arith in
      let other : (ret == neg error_try_again) ≡ false = ground arith in
      rw (some_byte, e, call, other, and_false (nonblock_bit obj.node.flags == 0)) refl
