-- ===== src/Dynstring.antt =====
-- kernel/base/datastructs/dynstring.c: a string whose block grows. The block is the list of its bytes,
-- and `none` is an access beyond the bytes that were asked for; the heap may round the block up.
-- `fill` is what the memory of a new block held.
pub mod Chars
use helix_os.Salloc.Arrays.{krealloc}
use helix_os.Common.{
  ℕ, zero, suc, ◌+◌, ◌-◌, ◌*◌, ◌/◌, ◌%◌, Bool, not, ◌&&◌, Option, none, some, List, [], ◌∷◌, ◌++◌,
  length, set, ltb, ◌==◌, if◌then◌else◌, ◌+w◌, ◌*w◌, ◌>>=◌, take,
}

abbrev pub default_dynstring_bsize : ℕ
default_dynstring_bsize = 32

-- `dynstring_t`; `size` is its `length`.
pub record Dynstring : Type 0 where
  pub string : List ℕ
  pub size : ℕ
  pub alloced : ℕ
  pub block_size : ℕ
  pub references : ℕ

-- The bytes of `newstr` are those before its NUL; `strdup` makes a block for them and the NUL. The
-- conditional takes the whole sum as its test.
pub dstring_set_string : Dynstring → List ℕ → Dynstring
dstring_set_string string newstr = record string {
  string = newstr ++ (0 ∷ []);
  size = length newstr;
  block_size = default_dynstring_bsize;
  alloced =
      if not
        (length newstr / default_dynstring_bsize +w length newstr % default_dynstring_bsize == 0)
      then 1
      else 0;
}

pub dstring_create : List ℕ → Dynstring
dstring_create newstr =
    record (dstring_set_string
      (record { string = []; size = 0; alloced = 0; block_size = 0; references = 0 }) newstr) {
        references = 0;
      }

-- The bytes before the first NUL of a block that holds one.
pub text_of : List ℕ → List ℕ
text_of [] = []
text_of (c ∷ block) = if c == 0 then [] else c ∷ text_of block

pub dstring_copy : Dynstring → Dynstring
dstring_copy string = dstring_create (text_of string.string)

-- A store into the block.
abbrev pub put_char : Dynstring → ℕ → ℕ → Option Dynstring
put_char string pos newchar =
    if ltb pos (length string.string)
    then some (record string { string = set string.string pos newchar })
    else none

module _ (fill : ℕ → ℕ) where
  pub widen : Dynstring → ℕ → Dynstring
  widen string pos =
      let alloced = pos / string.block_size +w pos % string.block_size in
      record string {
        alloced = alloced;
        string = krealloc 1 fill string.string (alloced *w string.block_size);
      }

  pub dstring_set_char : Dynstring → ℕ → ℕ → Option Dynstring
  dstring_set_char string pos newchar =
      put_char
        (if ltb string.size pos && ltb (string.alloced *w string.block_size) pos
          then widen string pos
          else (if ltb string.size pos then record string { size = pos } else string))
        pos newchar
