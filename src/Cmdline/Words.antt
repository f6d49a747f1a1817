-- ===== src/Cmdline/Words.antt =====
-- Options that are written out and read again.
use helix_os.Common.{◌<◌, length, ℕ, ◌≢◌, List, [], ◌∷◌, ◌++◌}
use helix_os.Cmdline.{CmdlineOpt}

-- No byte is an equals sign, a space or NUL.
unfoldable pub IsWord : List ℕ → Type 0
IsWord [] = Unit {0}
IsWord (c ∷ text) = (c ≢ b'=') × (c ≢ b' ') × (c ≢ 0) × IsWord text

unfoldable pub AllWords : List CmdlineOpt → Type 0
AllWords [] = Unit {0}
AllWords (opt ∷ opts) =
    IsWord opt.key
    × (length opt.key < 64)
    × IsWord opt.value
    × (length opt.value < 64)
    × AllWords opts

-- The options with an equals sign in each and a space between two.
unfoldable pub print_options : CmdlineOpt → List CmdlineOpt → List ℕ
print_options opt [] = opt.key ++ (b'=' ∷ opt.value)
print_options opt (next ∷ opts) =
    opt.key ++ (b'=' ∷ (opt.value ++ (b' ' ∷ print_options next opts)))
