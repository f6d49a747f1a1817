-- ===== src/Cmdline/Tests.antt =====
-- Command lines that are read.
use helix_os.Common.{[], ◌∷◌}
use helix_os.Cmdline.{CmdlineOpt}

abbrev init : CmdlineOpt
init = record { key = b'i' ∷ []; value = b'/' ∷ b's' ∷ [] }

abbrev root : CmdlineOpt
root = record { key = b'r' ∷ []; value = b'a' ∷ [] }
