-- ===== src/Emerge.antt =====
-- crates/worker/src/builder.rs: the command line that the worker runs for a workorder.
pub mod Options
mod Tests
use remerge.Prelude.{ℕ, Bool, not, List, [], ◌∷◌, ◌++◌, any, keep_if}
use remerge.Prelude.Text.{Text, codes, text_beq}
use remerge.Types.Workorder.{Workorder}

-- The options that every build starts with
abbrev pub base_args : List Text
base_args =
    codes "--buildpkg"
    ∷ codes "--usepkg"
    ∷ codes "--verbose"
    ∷ codes "--ask=n"
    ∷ codes "--color=y"
    ∷ codes "--keep-going"
    ∷ codes "--newuse"
    ∷ codes "--update"
    ∷ codes "--autounmask-write"
    ∷ codes "--autounmask-continue"
    ∷ []

-- The options of the request that are dropped
abbrev pub dropped_args : List Text
dropped_args =
    codes "--pretend"
    ∷ codes "-p"
    ∷ codes "--getbinpkg"
    ∷ codes "-g"
    ∷ codes "--newuse"
    ∷ codes "-N"
    ∷ codes "--update"
    ∷ codes "-u"
    ∷ codes "--autounmask-write"
    ∷ codes "--autounmask-continue"
    ∷ codes "--depclean"
    ∷ codes "--unmerge"
    ∷ codes "-C"
    ∷ codes "--deselect"
    ∷ codes "--sync"
    ∷ codes "--info"
    ∷ codes "--search"
    ∷ codes "-s"
    ∷ codes "--searchdesc"
    ∷ codes "-S"
    ∷ codes "--config"
    ∷ codes "--rage-clean"
    ∷ []

unfoldable pub is_dropped : Text → Bool
is_dropped arg = any (λ d. text_beq arg d) dropped_args

-- `build_emerge_args`
unfoldable pub build_emerge_args : Workorder → List Text
build_emerge_args workorder =
    base_args ++ keep_if (λ arg. not (is_dropped arg)) workorder.emerge_args

-- `build_emerge_invocation`
unfoldable pub build_emerge_invocation : Workorder → Text → Text × List Text
unfolding build_emerge_args
build_emerge_invocation workorder emerge_cmd =
    (emerge_cmd, build_emerge_args workorder ++ workorder.atoms)
