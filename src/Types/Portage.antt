-- ===== src/Types/Portage.antt =====
-- crates/types/src/portage.rs: the portage configuration snapshot and the identity of a host. Texts
-- are lists of code points, maps are association lists, unsigned integers are natural numbers.
use remerge.Prelude.{ℕ, Bool, Option, List}
use remerge.Prelude.Text.{Text}
use remerge.Prelude.Int.{ℤ}
use remerge.Prelude.Dict.{Dict}

pub record SnapshotEntry : Type 0 where
  pub digest : Text
  pub size : ℕ
  pub mtime_secs : ℤ

pub record RepoSnapshotManifest : Type 0 where
  pub tree_digest : Text
  pub entries : Dict Text SnapshotEntry

pub record SnapshotManifest : Type 0 where
  pub version : ℕ
  pub repo_snapshots : Dict Text RepoSnapshotManifest
  pub distfiles : Dict Text SnapshotEntry

pub record MakeConf : Type 0 where
  pub cflags : Text
  pub cxxflags : Text
  pub ldflags : Text
  pub makeopts : Text
  pub use_flags : List Text
  pub features : List Text
  pub accept_license : Text
  pub accept_keywords : Text
  pub emerge_default_opts : Text
  pub chost : Text
  pub cpu_flags : Option (Text × List Text)
  pub original_cflags : Option Text
  pub use_expand : Dict Text (List Text)
  pub extra : Dict Text Text
  pub use_flags_resolved : Bool

pub record PackageUseEntry : Type 0 where
  pub atom : Text
  pub flags : List Text

pub record PackageKeywordEntry : Type 0 where
  pub atom : Text
  pub keywords : List Text

pub record PackageLicenseEntry : Type 0 where
  pub atom : Text
  pub licenses : List Text

pub record PackageEnvEntry : Type 0 where
  pub atom : Text
  pub env_file : Text

pub record PortageConfig : Type 0 where
  pub make_conf : MakeConf
  pub package_use : List PackageUseEntry
  pub package_accept_keywords : List PackageKeywordEntry
  pub package_license : List PackageLicenseEntry
  pub package_mask : List Text
  pub package_unmask : List Text
  pub package_env : List PackageEnvEntry
  pub env_files : Dict Text Text
  pub repos_conf : Dict Text Text
  pub snapshot_manifest : SnapshotManifest
  pub repo_snapshots : Dict Text (Dict Text Text)
  pub repo_snapshot_refs : Dict Text (Dict Text Text)
  pub repo_snapshot_trees : Dict Text Text
  pub patches : Dict Text Text
  pub profile_overlay : Dict Text Text
  pub distfile_snapshots : Dict Text (List ℕ)
  pub distfile_snapshot_refs : Dict Text Text
  pub profile : Text
  pub world : List Text

pub record SystemIdentity : Type 0 where
  pub arch : Text
  pub chost : Text
  pub gcc_version : Text
  pub libc_version : Text
  pub kernel_version : Text
  pub python_targets : List Text
  pub profile : Text
