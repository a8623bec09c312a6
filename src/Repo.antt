-- ===== src/Repo.antt =====
-- crates/server/src/repo.rs: the metadata of the binary packages that a scan finds, and their names.
pub mod Names
mod Tests
use remerge.Prelude.{
  ℕ, Bool, true, false, ◌&&◌, Option, none, some, List, [], ◌∷◌, if◌then◌else◌, ◌==◌,
}
use remerge.Prelude.Text.{Text, is_ascii_digit, unwrap_or}

pub record PackageMeta : Type 0 where
  pub cpv : Text
  pub filename : Text
  pub relative_path : Text
  pub size : ℕ
  pub sha256 : Text
  pub is_gpkg : Bool

abbrev pub starts_with_digit : Text → Bool
starts_with_digit [] = false
starts_with_digit (c ∷ cs) = is_ascii_digit c

-- what stands before the last dash that a digit follows
unfoldable pub before_version : Text → Option Text
before_version [] = none
before_version (c ∷ cs) =
    let rest = before_version cs in
    elim rest [
      | some base ↦ some (c ∷ base)
      | none ↦ if (c == 45) && starts_with_digit cs then some [] else none
    ]

-- `extract_package_base`
unfoldable pub extract_package_base : Text → Text
unfolding before_version
extract_package_base cpv = unwrap_or (before_version cpv) cpv
