-- ===== src/Emerge/Tests.antt =====
-- Command lines at a concrete workorder, and their theorems there.
use mathlib.Core.List.{Memᴰ}
use remerge.Prelude.{true, [], ◌∷◌, ◌≡◌, refl, ok}
use remerge.Prelude.Text.{codes}
use remerge.Types.Samples.{order}
use remerge.Types.Workorder.{Workorder, building}
use remerge.Atom.{validate_atom}
use remerge.Emerge.{is_dropped, build_emerge_invocation}
use remerge.Emerge.Options.{dropped_atom_reaches}

abbrev work : Workorder
work = record (order 1 7 building) {
  atoms = codes "--pretend" ∷ [];
  emerge_args = codes "--pretend" ∷ codes "--quiet" ∷ [];
}

-- a request with ordinary atoms
abbrev plain : Workorder
plain = record work { atoms = codes "app-misc/jq" ∷ [] }

dropped_atom_reaches_example :
    (validate_atom (codes "--pretend") ≡ ok tt)
    × (is_dropped (codes "--pretend") ≡ true)
    × Memᴰ (codes "--pretend") (build_emerge_invocation work (codes "emerge")).1
dropped_atom_reaches_example =
    dropped_atom_reaches work (codes "emerge") (codes "--pretend") (Memᴰ.head refl) (Memᴰ.head refl)
