-- ===== src/Server/State.antt =====
-- crates/server/src/state.rs and metrics.rs: the state that the handlers and the queue share. Each
-- map behind a lock is a dictionary. A broadcast channel is its presence in its map; what was sent
-- on any progress channel is one list, newest first. Metrics are 64-bit counters that wrap.
use remerge.Prelude.{
  ℕ, ◌+◌, ◌-◌, ◌%◌, ◌^◌, Bool, true, false, Option, none, some, List, [], if◌then◌else◌, nat_eq,
  ltb, length, is_some,
}
use remerge.Prelude.Text.{Text, text_eq}
use remerge.Prelude.Int.{ℤ}
use remerge.Prelude.Dict.{Dict, get, insert, remove}
use remerge.Types.Client.{WorkorderId, DateTime}
use remerge.Types.Workorder.{Workorder, BuildProgress, WorkorderResult}
use remerge.Auth.{CertRegistry}
use remerge.Registry.{ClientRegistry}

-- The fields of `ServerConfig` that the modelled operations read
pub record ServerConfig : Type 0 where
  pub max_workers : ℕ
  pub max_active_workorders : ℕ
  pub build_timeout_secs : ℕ
  pub retention_hours : ℕ
  pub max_retained_workorders : ℕ
  pub binhost_url : Text
  pub has_tls : Bool
  pub request_body_size_bytes : ℕ
  pub worker_memory_bytes : ℤ
  pub worker_cpu_shares : ℤ
  pub worker_network_mode : Text
  pub snapshot_cache_grace_period_hours : ℕ
  pub snapshot_cache_hard_delete_hours : ℕ
  pub repos_dir : Option Text

-- The counters of `Metrics` that the modelled operations touch
pub record Metrics : Type 0 where
  pub workorders_submitted : ℕ
  pub workorders_completed : ℕ
  pub workorders_failed : ℕ
  pub workorders_cancelled : ℕ
  pub builds_active : ℕ
  pub builds_total_duration_secs : ℕ
  pub queue_depth : ℕ
  pub cleanup_success_total : ℕ
  pub cleanup_failure_total : ℕ
  pub package_builds_total : ℕ
  pub package_build_duration_secs_total : ℕ
  pub package_builds_by_atom : Dict Text (ℕ × ℕ)

abbrev pub u64_mod : ℕ
u64_mod = 2 ^ 64

-- `fetch_add` and `fetch_sub(1)` on an `AtomicU64`
abbrev pub fetch_add : ℕ → ℕ → ℕ
fetch_add n k = (n + k) % u64_mod

abbrev pub fetch_sub : ℕ → ℕ
fetch_sub n = (n + u64_mod - 1) % u64_mod

-- `Metrics::new`
abbrev pub new_metrics : Metrics
new_metrics = record {
  workorders_submitted = 0;
  workorders_completed = 0;
  workorders_failed = 0;
  workorders_cancelled = 0;
  builds_active = 0;
  builds_total_duration_secs = 0;
  queue_depth = 0;
  cleanup_success_total = 0;
  cleanup_failure_total = 0;
  package_builds_total = 0;
  package_build_duration_secs_total = 0;
  package_builds_by_atom = [];
}

-- `MAX_PACKAGE_BUILD_METRIC_SERIES`
abbrev pub max_package_build_metric_series : ℕ
max_package_build_metric_series = 128

-- the entry of `record_package_build`; the entries hold plain u64 sums
abbrev bump_series : Option (ℕ × ℕ) → ℕ → ℕ × ℕ
bump_series none duration_secs = (1, duration_secs)
bump_series (some (builds, total)) duration_secs = (builds + 1, total + duration_secs)

unfoldable pub count_series : Text → ℕ → Dict Text (ℕ × ℕ) → Dict Text (ℕ × ℕ)
count_series atom duration_secs by_atom =
    if is_some (get atom by_atom)
    then insert atom (bump_series (get atom by_atom) duration_secs) by_atom
    else if ltb (length by_atom) max_package_build_metric_series
    then insert atom (bump_series none duration_secs) by_atom
    else by_atom

-- `Metrics::record_package_build`
unfoldable pub record_package_build : Text → ℕ → Metrics → Metrics
record_package_build atom duration_secs m = record m {
  package_builds_total = fetch_add m.package_builds_total 1;
  package_build_duration_secs_total = fetch_add m.package_build_duration_secs_total duration_secs;
  package_builds_by_atom = count_series atom duration_secs m.package_builds_by_atom;
}

-- `Metrics::record_cleanup`
abbrev pub record_cleanup : Bool → Metrics → Metrics
record_cleanup true m = record m { cleanup_success_total = fetch_add m.cleanup_success_total 1 }
record_cleanup false m = record m { cleanup_failure_total = fetch_add m.cleanup_failure_total 1 }

-- `SnapshotReferenceSet` of runtime.rs
pub record SnapshotReferenceSet : Type 0 where
  pub blob_digests : List Text
  pub tree_digests : List Text
  pub total_blob_bytes : ℕ
  pub total_tree_bytes : ℕ
  pub last_referenced_at : DateTime

pub record AppState : Type 0 where
  pub config : ServerConfig
  pub auth : CertRegistry
  pub clients : ClientRegistry
  pub workorders : Dict WorkorderId Workorder
  pub results : Dict WorkorderId WorkorderResult
  pub progress_txs : Dict WorkorderId (Unit {0})
  pub raw_output_txs : Dict WorkorderId (Unit {0})
  pub stdin_txs : Dict WorkorderId (Unit {0})
  pub container_ids : Dict WorkorderId Text
  pub image_last_used : Dict Text DateTime
  pub staged_workorder_references : Dict WorkorderId SnapshotReferenceSet
  pub metrics : Metrics
  pub sent : List BuildProgress

-- `create_progress_channel`
abbrev pub create_progress_channel : WorkorderId → AppState → AppState
create_progress_channel id s = record s {
  raw_output_txs = insert id tt s.raw_output_txs;
  progress_txs = insert id tt s.progress_txs;
}

-- `create_stdin_channel`
abbrev pub create_stdin_channel : WorkorderId → AppState → AppState
create_stdin_channel id s = record s { stdin_txs = insert id tt s.stdin_txs }

-- `remove_workorder_channels`
abbrev pub remove_workorder_channels : WorkorderId → AppState → AppState
remove_workorder_channels id s = record s {
  progress_txs = remove id s.progress_txs;
  raw_output_txs = remove id s.raw_output_txs;
  stdin_txs = remove id s.stdin_txs;
}

-- `track_staged_workorder_references`
abbrev pub track_staged_workorder_references :
    WorkorderId → SnapshotReferenceSet → AppState → AppState
track_staged_workorder_references id references s = record s {
  staged_workorder_references = insert id references s.staged_workorder_references;
}

-- `clear_staged_workorder_references`
abbrev pub clear_staged_workorder_references : WorkorderId → AppState → AppState
clear_staged_workorder_references id s = record s {
  staged_workorder_references = remove id s.staged_workorder_references;
}
