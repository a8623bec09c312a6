-- ===== src/Atom/Tests.antt =====
-- Runs of the atom validator on the inputs of its unit tests, and its theorems at concrete atoms.
use remerge.Prelude.{◌≡◌, ◌↔◌, refl, ok, err}
use remerge.Prelude.Text.{codes, strip_first}
use remerge.Atom.{validate_atom, is_package_char, empty, dangerous_characters, invalid_format}
use remerge.Atom.Grammar.{IsAtom, validate_atom_iff}

accepted :
    (validate_atom (codes "dev-libs/openssl") ≡ ok tt)
    × (validate_atom (codes ">=dev-libs/openssl-3.0") ≡ ok tt)
    × (validate_atom (codes "@preserved-rebuild") ≡ ok tt)
    × (validate_atom (codes "=dev-libs/openssl-3.*") ≡ ok tt)
    × (validate_atom (codes "firefox") ≡ ok tt)
unfolding validate_atom is_package_char strip_first
accepted = (refl, refl, refl, refl, refl)

refused :
    (validate_atom (codes "") ≡ err empty)
    × (validate_atom (codes "dev-libs/openssl; rm -rf /") ≡ err dangerous_characters)
    × (validate_atom (codes "@") ≡ err (invalid_format (codes "empty set name")))
    × (validate_atom (codes "/openssl") ≡ err (invalid_format (codes "empty category")))
    × (validate_atom (codes "dev-libs/") ≡ err (invalid_format (codes "empty package name")))
    × (validate_atom (codes "=firefox-128.0")
        ≡ err
            (invalid_format (codes "version operators require a qualified category/package atom")))
unfolding validate_atom is_package_char strip_first
refused = (refl, refl, refl, refl, refl, refl)

validate_atom_iff_example : (validate_atom (codes ">=a/b") ≡ ok tt) ↔ IsAtom (codes ">=a/b")
validate_atom_iff_example = validate_atom_iff (codes ">=a/b")
