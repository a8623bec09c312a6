-- ===== src/Version/Tests.antt =====
-- Versions of Gentoo packages compared and split, and the theorems there.
use remerge.Prelude.{[], arith, some, ◌≡◌, ◌↔◌, refl, Ordering}
use remerge.Prelude.Text.{codes}
use remerge.Version.{
  parse_atom_operator, equal_glob, split_name_version, split_revision, compare_part, compare_parts,
  compare_text, compare_versions, suffix_order, split_numeric_letter, split_parts, parse_u64,
}
use remerge.Version.Parts.{Part, suffixed, numbered, rc, IsPart, order, compare_part-written}
use remerge.Version.Names.{IsSplit, split_name_version_iff}

operator : parse_atom_operator (codes "=a/b-1*") ≡ (equal_glob, codes "a/b-1*")
unfolding parse_atom_operator
operator = refl

revision : split_revision (codes "3.1.4-r12") ≡ (codes "3.1.4", some (codes "r12"))
unfolding split_revision
revision = refl

tenth : compare_versions (codes "1.9") (codes "1.10") ≡ Ordering.lt
unfolding compare_versions compare_parts compare_part suffix_order split_numeric_letter compare_text
    split_parts parse_u64
tenth = refl

candidate : compare_versions (codes "1.0_rc2") (codes "1.0-r1") ≡ Ordering.lt
unfolding compare_versions compare_parts compare_part suffix_order split_numeric_letter compare_text
    split_parts parse_u64
candidate = refl

-- By the Package Manager Specification 1.0.1 is the later version.
patch_above_component : compare_versions (codes "1.0_p1") (codes "1.0.1") ≡ Ordering.gt
unfolding compare_versions compare_parts compare_part suffix_order split_numeric_letter compare_text
    split_parts parse_u64
patch_above_component = refl

-- `1b` and `rc2`
abbrev one_b : Part
one_b = numbered b'1' [] (some b'b')

abbrev rc_two : Part
rc_two = suffixed rc (codes "2")

one_b-IsPart : IsPart one_b
one_b-IsPart = (refl, omega arith, refl)

rc_two-IsPart : IsPart rc_two
rc_two-IsPart = (refl, omega arith)

compare_part-written_example :
    compare_part (codes "1b") (codes "rc2") ≡ compare_text (order one_b) (order rc_two)
compare_part-written_example = compare_part-written one_b rc_two one_b-IsPart rc_two-IsPart

split_name_version_iff_example :
    (split_name_version (codes "lib3ds-1.2") ≡ (codes "lib3ds", some (codes "1.2")))
    ↔ IsSplit (codes "lib3ds-1.2") (codes "lib3ds") (codes "1.2")
split_name_version_iff_example =
    split_name_version_iff (codes "lib3ds-1.2") (codes "lib3ds") (codes "1.2")
