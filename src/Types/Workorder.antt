-- ===== src/Types/Workorder.antt =====
-- crates/types/src/workorder.rs and trace.rs: workorders, their status, progress events and results.
use remerge.Prelude.{ℕ, Bool, true, false, Option, List}
use remerge.Prelude.Text.{Text, text_beq}
use remerge.Prelude.Int.{ℤ}
use remerge.Prelude.Dict.{Dict}
use remerge.Types.Client.{ClientId, WorkorderId, DateTime, ClientRole}
use remerge.Types.Portage.{PortageConfig, SystemIdentity, SnapshotEntry}

pub record TraceContext : Type 0 where
  pub trace_id : Text
  pub traceparent : Text

pub data WorkorderStatus : Type 0 where
  pending provisioning building completed : WorkorderStatus
  failed : Text → WorkorderStatus
  cancelled : WorkorderStatus

-- the derived `PartialEq`
abbrev pub status_beq : WorkorderStatus → WorkorderStatus → Bool
status_beq pending pending = true
status_beq provisioning provisioning = true
status_beq building building = true
status_beq completed completed = true
status_beq (failed r) (failed s) = text_beq r s
status_beq cancelled cancelled = true
status_beq _ _ = false

-- `matches!(status, Pending | Provisioning | Building)`
abbrev pub is_active_status : WorkorderStatus → Bool
is_active_status pending = true
is_active_status provisioning = true
is_active_status building = true
is_active_status _ = false

-- `matches!(status, Completed | Cancelled | Failed { .. })`
abbrev pub is_terminal_status : WorkorderStatus → Bool
is_terminal_status completed = true
is_terminal_status cancelled = true
is_terminal_status (failed _) = true
is_terminal_status _ = false

pub record Workorder : Type 0 where
  pub id : WorkorderId
  pub client_id : ClientId
  pub role : ClientRole
  pub atoms : List Text
  pub emerge_args : List Text
  pub portage_config : PortageConfig
  pub system_id : SystemIdentity
  pub trace_context : Option TraceContext
  pub status : WorkorderStatus
  pub created_at : DateTime
  pub updated_at : DateTime

pub data BuildEvent : Type 0 where
  status_changed : WorkorderStatus → WorkorderStatus → BuildEvent
  log : Text → BuildEvent
  package_built : Text → ℕ → BuildEvent
  package_failed : Text → Text → BuildEvent
  finished : List Text → List Text → BuildEvent

pub record BuildProgress : Type 0 where
  pub workorder_id : WorkorderId
  pub trace_id : Option Text
  pub event : BuildEvent
  pub timestamp : DateTime

pub record ParityFileEntry : Type 0 where
  pub digest : Text
  pub size : ℕ
  pub mtime_secs : ℤ

pub record ParityDirectoryEntry : Type 0 where
  pub mtime_secs : ℤ

pub record ParitySymlinkEntry : Type 0 where
  pub digest : Text
  pub size : ℕ
  pub mtime_secs : ℤ

pub record ParityManifest : Type 0 where
  pub files : Dict Text ParityFileEntry
  pub directories : Dict Text ParityDirectoryEntry
  pub symlinks : Dict Text ParitySymlinkEntry

pub record BuiltPackage : Type 0 where
  pub atom : Text
  pub binpkg_path : Text
  pub sha256 : Text
  pub size : ℕ

pub record FailedPackage : Type 0 where
  pub atom : Text
  pub reason : Text
  pub build_log : Option Text

pub record WorkorderResult : Type 0 where
  pub workorder_id : WorkorderId
  pub built_packages : List BuiltPackage
  pub failed_packages : List FailedPackage
  pub binhost_uri : Text
  pub fetched_distfiles : Dict Text SnapshotEntry
  pub parity_manifest : ParityManifest
