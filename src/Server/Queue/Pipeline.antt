-- ===== src/Server/Queue/Pipeline.antt =====
-- crates/server/src/queue.rs, `process_workorder`: its stages, each with its early return. A stage
-- that passes goes on with the next one.
use remerge.Prelude.{
  Bool, true, false, Option, none, some, List, [], ◌∷◌, ◌++◌, Result, ok, err, if◌then◌else◌,
  nat_eq, is_some, map,
}
use remerge.Prelude.Text.{Text, codes}
use remerge.Prelude.Dict.{Dict, get}
use remerge.Types.Portage.{SnapshotEntry}
use remerge.Types.Client.{DateTime}
use remerge.Types.Workorder.{
  Workorder, WorkorderStatus, building, completed, failed, finished, BuiltPackage, FailedPackage,
  ParityManifest, WorkorderResult,
}
use remerge.Server.State.{ServerConfig, AppState}
use remerge.Server.Queue.Effects.{
  Effect, begin_build, end_build, set_status, send, store_result, use_image, track_references,
  register_container, open_stdin, close_raw_output, count_completed, count_failed, add_duration,
  failed_packages_for_atoms, cleanup_workorder_runtime, run,
}
use remerge.Server.Queue.Process.{
  no_parity, World, fail_early, fail_ingest, reported_package, built_atoms, failed_atoms,
  built_packages, relay, wait_outcome, exit_failure,
}

-- if scanning did not match, the reported ones
abbrev or_reported : List Text → List BuiltPackage → List BuiltPackage
or_reported reported [] = map reported_package reported
or_reported reported (p ∷ packages) = p ∷ packages

abbrev or_all_failed : Workorder → Text → List FailedPackage → List FailedPackage
or_all_failed w reason [] = failed_packages_for_atoms w.atoms reason
or_all_failed w reason (p ∷ packages) = p ∷ packages

-- the result after the container has ended, by the failure if there is one
unfoldable pub final_result :
    ServerConfig
    → Workorder
    → World
    → Dict Text SnapshotEntry
    → ParityManifest
    → Option Text
    → WorkorderResult
unfolding built_packages failed_packages_for_atoms
final_result config w world distfiles parity none = record {
  workorder_id = w.id;
  built_packages = or_reported (built_atoms world.events) (built_packages w world);
  failed_packages = failed_atoms world.events;
  binhost_uri = config.binhost_url;
  fetched_distfiles = distfiles;
  parity_manifest = parity;
}
final_result config w world distfiles parity (some reason) = record {
  workorder_id = w.id;
  built_packages = map reported_package (built_atoms world.events);
  failed_packages = or_all_failed w reason (failed_atoms world.events);
  binhost_uri = config.binhost_url;
  fetched_distfiles = distfiles;
  parity_manifest = parity;
}

abbrev pub final_status : Option Text → WorkorderStatus
final_status none = completed
final_status (some reason) = failed reason

abbrev pub count_final : Option Text → Effect
count_final none = count_completed
count_final (some reason) = count_failed

unfoldable pub finished_of : WorkorderResult → Effect
finished_of result = send (
    finished (map (λ (p : BuiltPackage). p.atom) result.built_packages)
      (map (λ (p : FailedPackage). p.atom) result.failed_packages))

-- the last stage, for a container that ended well or with the given failure
unfoldable pub finish :
    ServerConfig
    → Workorder
    → World
    → Dict Text SnapshotEntry
    → ParityManifest
    → Option Text
    → List Effect
unfolding final_result finished_of cleanup_workorder_runtime
finish config w world distfiles parity outcome =
    let result = final_result config w world distfiles parity outcome in
    set_status (final_status outcome)
    ∷ store_result result
    ∷ finished_of result
    ∷ count_final outcome
    ∷ add_duration world.elapsed_secs
    ∷ end_build
    ∷ cleanup_workorder_runtime (some world.removed)

-- taking over what the container left
unfoldable pub ingest : ServerConfig → Workorder → World → List Effect
unfolding fail_ingest finish wait_outcome
ingest config w world = elim world.parity [
  | err e ↦
      fail_ingest config w world (codes "Failed to ingest final-state parity: " ++ e) no_parity
  | ok parity ↦ elim world.distfiles [
    | err e ↦ fail_ingest config w world (codes "Failed to ingest fetched distfiles: " ++ e) parity
    | ok distfiles ↦
        finish config w world distfiles parity (exit_failure world (wait_outcome config world))
  ]
]

-- the container runs; without the channel of its raw output the task panics
unfoldable pub attend : Bool → ServerConfig → Workorder → World → Text → List Effect
unfolding relay ingest
attend false config w world container_id = register_container container_id ∷ []
attend true config w world container_id =
    register_container container_id
    ∷ open_stdin
    ∷ close_raw_output
    ∷ (relay world.events ++ ingest config w world)

-- staging the files and starting the container
unfoldable pub launch : Bool → ServerConfig → Workorder → World → List Effect
unfolding fail_early attend
launch raw config w world = elim world.staged [
  | err e ↦ fail_early config w world (codes "Failed to stage worker runtime: " ++ e)
  | ok references ↦ track_references references ∷ elim world.container [
    | err e ↦ fail_early config w world (codes "Failed to start worker: " ++ e)
    | ok container_id ↦ attend raw config w world container_id
  ]
]

-- preparing the image
unfoldable pub prepare_image : World → Result Text Unit
prepare_image world = if world.needs_rebuild then world.image_build else ok tt

unfoldable pub build : Bool → ServerConfig → Workorder → World → List Effect
unfolding prepare_image fail_early launch
build raw config w world = elim (prepare_image world) [
  | err e ↦ fail_early config w world (codes "Failed to build worker image: " ++ e)
  | ok _ ↦ use_image world.image_tag ∷ set_status building ∷ launch raw config w world
]

-- `process_workorder`, by the presence of the progress and the raw output channel
unfoldable pub process_effects : Bool → Bool → ServerConfig → Workorder → World → List Effect
unfolding build
process_effects false raw config w world = begin_build ∷ end_build ∷ []
process_effects true raw config w world = begin_build ∷ build raw config w world

-- `process_workorder` when nothing else touches the state meanwhile
unfoldable pub process_workorder : Workorder → World → DateTime → AppState → AppState
unfolding process_effects run
process_workorder w world now s =
    run w now
      (process_effects (is_some (get w.id s.progress_txs)) (is_some (get w.id s.raw_output_txs))
        s.config w world)
      s
