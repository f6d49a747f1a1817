-- ===== src/Vfs/Seek.antt =====
-- `vfs_lseek` and `vfs_fcntl`. A `long` offset is its 32-bit pattern, and the source compares it with
-- the unsigned size.
use helix_os.Common.{
  ◌<◌, ℕ, ◌+◌, ◌-◌, ◌/◌, ◌%◌, ◌≤◌, ◌≡◌, refl, Option, none, some, arith, leb, ◌==◌, if◌then◌else◌,
  ◌+w◌,
}
use helix_os.Vfs.{
  FileObj, Funcs, State, Got, found, refused, dangling, vfs_get_pobj, with_obj, put_obj,
  call_get_info, succeeds, neg, error_invalid_argument, error_invalid_offset, nonblock_bit,
}
use helix_os.Vfs.Objects.{get_pobj-IsFile, put_obj-found}

abbrev pub file_seek_set : ℕ
file_seek_set = 0

abbrev pub file_seek_cur : ℕ
file_seek_cur = 1

abbrev pub file_seek_end : ℕ
file_seek_end = 2

-- The offset that the `switch` over `whence` computes.
pub seek_target : ℕ → ℕ → ℕ → ℕ → Option ℕ
seek_target whence offset size read_offset =
    if whence == file_seek_set
    then some offset
    else (if whence == file_seek_cur
        then some (read_offset +w offset)
        else (if whence == file_seek_end then some (size +w offset) else none))

-- A call that reads the object even where the descriptor is refused.
abbrev pub seek_with : {A : Type 0} → Got → (ℕ → FileObj → Option A) → Option A
seek_with (found ptr obj) go = go ptr obj
seek_with (refused e) go = none
seek_with dangling go = none

module _ {W : Type 0} where
  pub seek_to : State W → ℕ → FileObj → ℕ → Option ℕ → ℕ × State W
  seek_to st ptr obj size none = (neg error_invalid_argument, st)
  seek_to st ptr obj size (some target) =
      if leb target size
      then (
        target,
        put_obj st ptr (record obj { read_offset = target; write_offset = target }) st.world,
      )
      else (neg error_invalid_offset, st)

  -- For a bad descriptor the debug line at the end reads `nodeobj`, which was not set: `none`.
  pub vfs_lseek : (ℕ → Funcs W) → State W → ℕ → ℕ → ℕ → Option (ℕ × State W)
  vfs_lseek drivers st fd offset whence = seek_with (vfs_get_pobj st fd) (λ ptr obj.
      let (ret, size, world) = call_get_info drivers obj.node st.world in
      let after = record st { world = world } in
      if succeeds ret
      then some (seek_to after ptr obj size (seek_target whence offset size obj.read_offset))
      else some (ret, after))

abbrev pub file_ctrl_no_op : ℕ
file_ctrl_no_op = 0

abbrev pub file_ctrl_getflags : ℕ
file_ctrl_getflags = 1

abbrev pub file_ctrl_setflags : ℕ
file_ctrl_setflags = 2

-- `(flags & ~FILE_NONBLOCK) | (arg & FILE_NONBLOCK)`
pub change_flags : ℕ → ℕ → ℕ
change_flags flags arg = flags - nonblock_bit flags + nonblock_bit arg

pub vfs_fcntl : {W : Type 0} → State W → ℕ → ℕ → ℕ → Option (ℕ × State W)
vfs_fcntl st fd command arg =
    with_obj (vfs_get_pobj st fd) (λ e. (e, st))
      (λ ptr obj.
        if command == file_ctrl_no_op
        then some (0, st)
        else (if command == file_ctrl_getflags
            then some (obj.node.flags, st)
            else (if command == file_ctrl_setflags
                then (let flags = change_flags obj.node.flags arg in
                    let node = record obj.node { flags = flags } in
                    some (flags, put_obj st ptr (record obj { node = node }) st.world))
                else some (neg error_invalid_argument, st))))

module _ {W : Type 0} (drivers : ℕ → Funcs W) (st : State W) (fd : ℕ) where
  pub vfs_fcntl-refused :
      (command arg e : ℕ)
      → vfs_get_pobj st fd ≡ refused e
      → vfs_fcntl st fd command arg ≡ some (e, st)
  unfolding vfs_fcntl
  vfs_fcntl-refused command arg e bad = rw bad refl

  -- What a seek leaves. A target within the file is the result, and the descriptor's two offsets are
  -- there; for one beyond the file, or none, the result is the error and no object has changed.
  abbrev pub Sought : ℕ → FileObj → ℕ → Option ℕ → ℕ × State W → Type 0
  Sought ptr obj size none (ret, st') =
      (ret ≡ neg error_invalid_argument) × (st'.objects ≡ st.objects)
  Sought ptr obj size (some target) (ret, st') =
      (target ≤ size
        → (ret ≡ target)
          × (vfs_get_pobj st' fd
              ≡ found ptr (record obj { read_offset = target; write_offset = target })))
      × (size < target → (ret ≡ neg error_invalid_offset) × (st'.objects ≡ st.objects))

  module _ (ptr : ℕ) (obj : FileObj) (size : ℕ) (world : W) where
    abbrev after : State W
    after = record st { world = world }

-- Setting flags changes the bit of `FILE_NONBLOCK` to that of the argument, and no other.
change_flags-bits :
    (flags arg : ℕ)
    → (nonblock_bit (change_flags flags arg) ≡ nonblock_bit arg)
      × (change_flags flags arg % 16 ≡ flags % 16)
      × (change_flags flags arg / 32 ≡ flags / 32)
unfolding change_flags
change_flags-bits flags arg = (omega arith, omega arith, omega arith)

-- On an open file, `FILE_CTRL_SETFLAGS` takes over the bit of `FILE_NONBLOCK` and no other from its
-- argument, and `FILE_CTRL_GETFLAGS` returns from then on what it returned.
pub vfs_fcntl-set_get :
    {W : Type 0} (st : State W) (fd ptr arg any : ℕ) (obj : FileObj)
    → vfs_get_pobj st fd ≡ found ptr obj
    → (flags : ℕ) × (st' : State W) × (vfs_fcntl st fd file_ctrl_setflags arg ≡ some (flags, st'))
      × (nonblock_bit flags ≡ nonblock_bit arg)
      × (flags % 16 ≡ obj.node.flags % 16)
      × (flags / 32 ≡ obj.node.flags / 32)
      × (vfs_fcntl st' fd file_ctrl_getflags any ≡ some (flags, st'))
unfolding vfs_fcntl
vfs_fcntl-set_get st fd ptr arg any obj e =
    let file = get_pobj-IsFile st fd ptr obj e in
    let flags = change_flags obj.node.flags arg in
    let obj' = record obj { node = record obj.node { flags = flags } } in
    let st' = put_obj st ptr obj' st.world in
    let open' : vfs_get_pobj st' fd ≡ found ptr obj' =
      put_obj-found st fd file obj' st.world file.type in
    let (a, b, c) = change_flags-bits obj.node.flags arg in
    (flags, st', rw e refl, a, b, c, rw open' refl)
