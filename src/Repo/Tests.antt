-- ===== src/Repo/Tests.antt =====
-- The package names of the unit tests, and the theorems at concrete names.
use remerge.Prelude.{true, ◌++◌, ◌∷◌, ◌≡◌, ◌⊎◌, refl}
use remerge.Prelude.Text.{Text, codes}
use remerge.Repo.{extract_package_base, starts_with_digit}
use remerge.Repo.Names.{LacksVersion, extract_package_base_lem}

glibc : extract_package_base (codes "sys-libs/glibc-2.38-r10") ≡ codes "sys-libs/glibc"
unfolding extract_package_base
glibc = refl

extract_package_base_lem_example :
    (LacksVersion (codes "dev-libs/foo-1")
      × (extract_package_base (codes "dev-libs/foo-1") ≡ codes "dev-libs/foo-1"))
    ⊎ ((version : Text) × (codes "dev-libs/foo-1"
          ≡ extract_package_base (codes "dev-libs/foo-1") ++ (b'-' ∷ version))
        × (starts_with_digit version ≡ true)
        × LacksVersion version)
extract_package_base_lem_example = extract_package_base_lem (codes "dev-libs/foo-1")
