-- ===== src/Server/Queue/Process.antt =====
-- crates/server/src/queue.rs, `process_workorder`: the effects of processing one workorder, by what
-- Docker, the file system and the worker's output answer, which is in `World`.
use remerge.Prelude.{
  ℕ, zero, Bool, ◌||◌, Option, none, some, List, [], ◌∷◌, ◌++◌, Result, ok, err, if◌then◌else◌,
  nat_eq, map, any, keep_if, ◌==◌,
}
use remerge.Prelude.Text.{Text, codes, text_beq, contains}
use remerge.Prelude.Int.{ℤ, pos}
use remerge.Prelude.Dict.{Dict}
use remerge.Types.Portage.{SnapshotEntry}
use remerge.Types.Workorder.{
  Workorder, failed, package_built, package_failed, finished, BuiltPackage, FailedPackage,
  ParityManifest, WorkorderResult,
}
use remerge.Repo.{PackageMeta, extract_package_base}
use remerge.Server.State.{ServerConfig, SnapshotReferenceSet}
use remerge.Server.Queue.Effects.{
  Effect, end_build, set_status, send, store_result, count_package, count_failed, add_duration,
  failed_packages_for_atoms, cleanup_workorder_runtime,
}

-- `WorkerEvent`: what the log of a worker reports of a package
pub data WorkerEvent : Type 0 where
  built : Text → ℕ → WorkerEvent
  broken : Text → Text → WorkerEvent

-- The answers from outside, in the order in which they are asked for. An error carries its message;
-- `decimal` and `signed` print numbers as `Display` does.
pub record World : Type 0 where
  pub image_tag : Text
  pub needs_rebuild : Bool
  pub image_build : Result Text Unit
  pub staged : Result Text SnapshotReferenceSet
  pub container : Result Text Text
  pub in_time : Bool
  pub exit : Result Text ℤ
  pub events : List WorkerEvent
  pub parity : Result Text ParityManifest
  pub distfiles : Result Text (Dict Text SnapshotEntry)
  pub scanned : Result Text (List PackageMeta)
  pub elapsed_secs : ℕ
  pub removed : Bool
  pub decimal : ℕ → Text
  pub signed : ℤ → Text

-- `ParityManifest::default`
abbrev pub no_parity : ParityManifest
no_parity = record { files = []; directories = []; symlinks = [] }

-- the result of a workorder that failed as a whole
unfoldable pub failure :
    ServerConfig → Workorder → Text → Dict Text SnapshotEntry → ParityManifest → WorkorderResult
unfolding failed_packages_for_atoms
failure config w reason distfiles parity = record {
  workorder_id = w.id;
  built_packages = [];
  failed_packages = failed_packages_for_atoms w.atoms reason;
  binhost_uri = config.binhost_url;
  fetched_distfiles = distfiles;
  parity_manifest = parity;
}

-- the early return of a failure before the container runs
unfoldable pub fail_early : ServerConfig → Workorder → World → Text → List Effect
unfolding failure cleanup_workorder_runtime
fail_early config w world reason =
    set_status (failed reason)
    ∷ send (finished [] w.atoms)
    ∷ store_result (failure config w reason [] no_parity)
    ∷ add_duration world.elapsed_secs
    ∷ end_build
    ∷ count_failed
    ∷ cleanup_workorder_runtime none

-- the early return of a failure to take over what the container left
unfoldable pub fail_ingest : ServerConfig → Workorder → World → Text → ParityManifest → List Effect
unfolding failure cleanup_workorder_runtime
fail_ingest config w world reason parity =
    set_status (failed reason)
    ∷ store_result (failure config w reason [] parity)
    ∷ send (finished [] w.atoms)
    ∷ add_duration world.elapsed_secs
    ∷ end_build
    ∷ count_failed
    ∷ cleanup_workorder_runtime (some world.removed)

-- what is left of an atom after `trim_start_matches` of operators
unfoldable pub trim_operators : Text → Text
trim_operators [] = []
trim_operators (c ∷ cs) =
    let rest = trim_operators cs in if contains c (codes ">=<~!") then rest else c ∷ cs

-- a package that is only known from the log
abbrev pub reported_package : Text → BuiltPackage
reported_package atom = record {
  atom = atom;
  binpkg_path = atom ++ codes ".gpkg.tar";
  sha256 = [];
  size = 0;
}

abbrev pub scanned_package : PackageMeta → BuiltPackage
scanned_package m = record {
  atom = m.cpv;
  binpkg_path = m.relative_path;
  sha256 = m.sha256;
  size = m.size;
}

abbrev pub built_atoms : List WorkerEvent → List Text
built_atoms [] = []
built_atoms (built atom duration_secs ∷ events) = atom ∷ built_atoms events
built_atoms (broken atom reason ∷ events) = built_atoms events

abbrev pub failed_atoms : List WorkerEvent → List FailedPackage
failed_atoms [] = []
failed_atoms (built atom duration_secs ∷ events) = failed_atoms events
failed_atoms (broken atom reason ∷ events) =
    (record { atom = atom; reason = reason; build_log = none }) ∷ failed_atoms events

-- does a scanned file belong to an atom that was asked for or reported
unfoldable pub is_wanted : Workorder → List Text → PackageMeta → Bool
unfolding extract_package_base trim_operators
is_wanted w reported m =
    let scanned_base = extract_package_base m.cpv in
    any (λ atom. text_beq (extract_package_base (trim_operators atom)) scanned_base) w.atoms
    || any (λ a. text_beq (extract_package_base a) scanned_base) reported

-- the packages of a scan that succeeds, or else those that were reported
unfoldable pub built_packages : Workorder → World → List BuiltPackage
unfolding is_wanted
built_packages w world =
    let reported = built_atoms world.events in
    elim world.scanned [
      | err e ↦ map reported_package reported
      | ok metas ↦ map scanned_package (keep_if (is_wanted w reported) metas)
    ]

-- the forwarding of the worker's events
unfoldable pub relay : List WorkerEvent → List Effect
relay [] = []
relay (built atom duration_secs ∷ events) =
    send (package_built atom duration_secs) ∷ count_package atom duration_secs ∷ relay events
relay (broken atom reason ∷ events) = send (package_failed atom reason) ∷ relay events

-- the wait for the container, with the timeout if one is configured
unfoldable pub wait_outcome : ServerConfig → World → Result Text ℤ
wait_outcome config world =
    if (config.build_timeout_secs == 0) || world.in_time
    then elim world.exit [
      | ok exit_code ↦ ok exit_code
      | err e ↦ err (codes "Failed to wait for worker container: " ++ e)
    ]
    else err (
        codes "Build exceeded configured timeout of "
        ++ world.decimal config.build_timeout_secs
        ++ codes " seconds")

abbrev pub exit_failure : World → Result Text ℤ → Option Text
exit_failure world (ok (pos zero)) = none
exit_failure world (ok exit_code) =
    some (codes "Worker exited with code " ++ world.signed exit_code)
exit_failure world (err reason) = some reason
