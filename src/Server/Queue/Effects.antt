-- ===== src/Server/Queue/Effects.antt =====
-- crates/server/src/queue.rs: what the processing of a workorder does to the shared state, one
-- effect at a time. The progress sender is taken once at the start, so a send needs no channel in
-- the map. Image and container timings are counted only and left out.
use remerge.Prelude.{ℕ, Bool, true, Option, none, some, List, [], ◌∷◌, nat_eq, map}
use remerge.Prelude.Text.{Text, text_eq}
use remerge.Prelude.Dict.{get, insert, remove, modify}
use remerge.Types.Client.{DateTime}
use remerge.Types.Workorder.{
  Workorder, WorkorderStatus, BuildEvent, status_changed, FailedPackage, WorkorderResult,
}
use remerge.Registry.{clear_active_workorder}
use remerge.Server.State.{
  AppState, Metrics, SnapshotReferenceSet, fetch_add, fetch_sub, record_package_build,
  record_cleanup, create_stdin_channel, remove_workorder_channels,
  track_staged_workorder_references, clear_staged_workorder_references,
}
use remerge.Server.Cancel.{trace_id_of}

pub data Effect : Type 0 where
  begin_build end_build : Effect
  set_status : WorkorderStatus → Effect
  send : BuildEvent → Effect
  store_result : WorkorderResult → Effect
  use_image : Text → Effect
  track_references : SnapshotReferenceSet → Effect
  register_container : Text → Effect
  open_stdin close_raw_output : Effect
  count_package : Text → ℕ → Effect
  count_completed count_failed : Effect
  add_duration : ℕ → Effect
  drop_container clear_references remove_channels free_client : Effect
  count_cleanup : Bool → Effect

abbrev pub with_metrics : AppState → Metrics → AppState
with_metrics s m = record s { metrics = m }

abbrev pub send_event : Workorder → DateTime → BuildEvent → AppState → AppState
send_event w now event s = record s {
  sent =
      (record { workorder_id = w.id; trace_id = trace_id_of w; event = event; timestamp = now })
      ∷ s.sent;
}

-- `set_workorder_status`: nothing is sent for a workorder that is gone
unfoldable pub set_workorder_status : Workorder → DateTime → WorkorderStatus → AppState → AppState
set_workorder_status w now new_status s = elim (get w.id s.workorders) [
  | none ↦ s
  | some old ↦ record (send_event w now (status_changed old.status new_status) s) {
    workorders = modify w.id (λ v. record v { status = new_status; updated_at = now }) s.workorders;
  }
]

unfoldable pub apply : Workorder → DateTime → Effect → AppState → AppState
unfolding set_workorder_status
apply w now begin_build s =
    with_metrics s (record s.metrics { builds_active = fetch_add s.metrics.builds_active 1 })
apply w now end_build s =
    with_metrics s (record s.metrics { builds_active = fetch_sub s.metrics.builds_active })
apply w now (set_status new_status) s = set_workorder_status w now new_status s
apply w now (send event) s = send_event w now event s
apply w now (store_result result) s = record s { results = insert w.id result s.results }
apply w now (use_image image_tag) s = record s {
  image_last_used = insert image_tag now s.image_last_used;
}
apply w now (track_references references) s = track_staged_workorder_references w.id references s
apply w now (register_container container_id) s = record s {
  container_ids = insert w.id container_id s.container_ids;
}
apply w now open_stdin s = create_stdin_channel w.id s
apply w now close_raw_output s = record s { raw_output_txs = remove w.id s.raw_output_txs }
apply w now (count_package atom duration_secs) s =
    with_metrics s (record_package_build atom duration_secs s.metrics)
apply w now count_completed s =
    with_metrics s
      (record s.metrics { workorders_completed = fetch_add s.metrics.workorders_completed 1 })
apply w now count_failed s =
    with_metrics s
      (record s.metrics { workorders_failed = fetch_add s.metrics.workorders_failed 1 })
apply w now (add_duration duration_secs) s = with_metrics s (record s.metrics {
  builds_total_duration_secs = fetch_add s.metrics.builds_total_duration_secs duration_secs;
})
apply w now drop_container s = record s { container_ids = remove w.id s.container_ids }
apply w now clear_references s = clear_staged_workorder_references w.id s
apply w now remove_channels s = remove_workorder_channels w.id s
apply w now free_client s = record s { clients = clear_active_workorder w.client_id s.clients }
apply w now (count_cleanup success) s = with_metrics s (record_cleanup success s.metrics)

unfoldable pub run : Workorder → DateTime → List Effect → AppState → AppState
unfolding apply
run w now [] s = s
run w now (e ∷ es) s = run w now es (apply w now e s)

-- `failed_packages_for_atoms`
unfoldable pub failed_packages_for_atoms : List Text → Text → List FailedPackage
failed_packages_for_atoms atoms reason =
    map (λ atom. record { atom = atom; reason = reason; build_log = none }) atoms

-- `cleanup_workorder_runtime`: without a container to remove it succeeds. Files are removed outside
-- of the state.
unfoldable pub cleanup_workorder_runtime : Option Bool → List Effect
cleanup_workorder_runtime removed =
    drop_container
    ∷ clear_references
    ∷ remove_channels
    ∷ free_client
    ∷ count_cleanup (elim removed [ none ↦ true | some success ↦ success ])
    ∷ []
