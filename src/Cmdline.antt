-- ===== src/Cmdline.antt =====
-- kernel/base/cmdline.c: the command line of the kernel as options with values. A string is the list of
-- its bytes before the NUL, and NULL is `none`. `knew` of a `sizeof` asks for four bytes, whatever the
-- count of entries or the length, and the heap gives a block of `room_of 4` bytes: a store behind it is
-- `none`.
pub mod Words
mod Tests
use helix_os.Common.{
  ◌*◌, ltb, length, ◌>>=◌, ℕ, ◌+◌, Bool, true, false, ◌&&◌, Option, none, some, List, [], ◌∷◌, ◌++◌,
  ◌==◌, if◌then◌else◌,
}
use helix_os.Ramfs.{same_name}
use helix_os.Salloc.Arrays.{room_of}

-- `cmdline_opt_t`
pub record CmdlineOpt : Type 0 where
  pub key : List ℕ
  pub value : List ℕ

-- The cases of the `switch` on a byte that is not NUL.
pub data CharCase : Type 0 where
  equals_case : CharCase
  space_case : CharCase
  default_case : CharCase

pub char_case : ℕ → CharCase
char_case c = if c == b'=' then equals_case else (if c == b' ' then space_case else default_case)

abbrev pub true_text : List ℕ
true_text = b't' ∷ b'r' ∷ b'u' ∷ b'e' ∷ []

-- `opts[k].key = knew( … )`, or `value`, with the text and its NUL put there; an option has eight bytes.
pub store_text : ℕ → List ℕ → Option (List ℕ)
store_text k text =
    if ltb (8 * k) (room_of 4) && ltb (length text) (room_of 4) then some text else none

-- What the end of an option makes of the text since `pos`, of the key that an equals sign left, and of
-- `has_val`.
pub end_option : ℕ → List ℕ → List ℕ → Bool → Option CmdlineOpt
end_option k text key true =
    store_text k text >>= λ value. some (record { key = key; value = value })
end_option k text key false =
    store_text k text >>= λ key'. some (record { key = key'; value = true_text })

-- The loop; `text` stands for `cmdline + pos` up to `i`, and `key` for `opts[k].key`.
pub parse_loop : List ℕ → ℕ → List ℕ → List ℕ → Bool → Option (List CmdlineOpt)
parse_loop [] k text key has_val = end_option k text key has_val >>= λ opt. some (opt ∷ [])
parse_loop (c ∷ cmdline) k text key has_val = elim (char_case c) [
  | equals_case ↦ store_text k text >>= λ key'. parse_loop cmdline k [] key' true
  | space_case ↦ end_option k text key has_val >>= λ opt.
      parse_loop cmdline (k + 1) [] [] false >>= λ opts. some (opt ∷ opts)
  | default_case ↦ parse_loop cmdline k (text ++ (c ∷ [])) key has_val
]

-- The result within is NULL for NULL.
pub parse_command_line : Option (List ℕ) → Option (Option (List CmdlineOpt))
parse_command_line none = some none
parse_command_line (some cmdline) = parse_loop cmdline 0 [] [] false >>= λ opts. some (some opts)

-- The options of a list whose last one a NULL key follows.
pub find_option : List CmdlineOpt → List ℕ → Option (List ℕ)
find_option [] key = none
find_option (opt ∷ opts) key =
    let rest = find_option opts key in if same_name key opt.key then some opt.value else rest

pub cmdline_get : Option (List CmdlineOpt) → List ℕ → Option (List ℕ)
cmdline_get none key = none
cmdline_get (some opts) key = find_option opts key

pub has_option : List CmdlineOpt → List ℕ → Bool
has_option [] key = false
has_option (opt ∷ opts) key =
    let rest = has_option opts key in if same_name key opt.key then true else rest

pub cmdline_has : Option (List CmdlineOpt) → List ℕ → Bool
cmdline_has none key = false
cmdline_has (some opts) key = has_option opts key
