-- ===== src/Server/System/Calm.antt =====
-- Processing a workorder makes no workorder pending.
use remerge.Prelude.{
  Bool, true, false, Option, none, some, List, [], ◌∷◌, Result-cases, all, all-append, ◌≡◌, inl,
  inr, refl, nat_eq,
}
use remerge.Prelude.Dict.{Dict}
use remerge.Prelude.Text.{Text}
use remerge.Types.Portage.{SnapshotEntry}
use remerge.Types.Workorder.{Workorder, ParityManifest}
use remerge.Server.State.{ServerConfig}
use remerge.Server.Queue.Effects.{cleanup_workorder_runtime}
use remerge.Server.Queue.Process.{
  no_parity, WorkerEvent, built, broken, World, fail_early, fail_ingest, relay,
}
use remerge.Server.Queue.Pipeline.{
  process_effects, build, launch, attend, ingest, finish, finished_of, prepare_image,
}
use remerge.Server.System.Operations.{is_calm}

module _ (config : ServerConfig) (w : Workorder) (world : World) where
  fail_ingest-is_calm :
      (reason : Text) (parity : ParityManifest)
      → all is_calm (fail_ingest config w world reason parity) ≡ true
  unfolding fail_ingest is_calm cleanup_workorder_runtime
  fail_ingest-is_calm reason parity = refl

  relay-is_calm : (events : List WorkerEvent) → all is_calm (relay events) ≡ true
  unfolding relay is_calm
  relay-is_calm [] = refl
  relay-is_calm (built atom secs ∷ events) = relay-is_calm events
  relay-is_calm (broken atom reason ∷ events) = relay-is_calm events

  finish-is_calm :
      (distfiles : Dict Text SnapshotEntry) (parity : ParityManifest) (outcome : Option Text)
      → all is_calm (finish config w world distfiles parity outcome) ≡ true
  unfolding finish is_calm cleanup_workorder_runtime finished_of
  finish-is_calm distfiles parity none = refl
  finish-is_calm distfiles parity (some reason) = refl

  ingest-is_calm : all is_calm (ingest config w world) ≡ true
  unfolding ingest
  ingest-is_calm = elim (Result-cases world.parity) [
    | inr (e, p) ↦ rw (p, ingest) (fail_ingest-is_calm _ no_parity)
    | inl (parity, p) ↦ elim (Result-cases world.distfiles) [
      | inr (e, d) ↦ rw (p, ingest, d) (fail_ingest-is_calm _ parity)
      | inl (distfiles, d) ↦ rw (p, ingest, d) (finish-is_calm distfiles parity _)
    ]
  ]

  attend-is_calm :
      (raw : Bool) (container_id : Text)
      → all is_calm (attend raw config w world container_id) ≡ true
  unfolding attend is_calm
  attend-is_calm false container_id = refl
  attend-is_calm true container_id =
      rw (all-append is_calm (relay world.events), relay-is_calm world.events) ingest-is_calm

  launch-is_calm : (raw : Bool) → all is_calm (launch raw config w world) ≡ true
  unfolding launch is_calm fail_early cleanup_workorder_runtime
  launch-is_calm raw = elim (Result-cases world.staged) [
    | inr (e, p) ↦ rw (p, launch) refl
    | inl (references, p) ↦ elim (Result-cases world.container) [
      | inr (e, d) ↦ rw (p, launch, d) refl
      | inl (container_id, d) ↦ rw (p, launch, d) (attend-is_calm raw container_id)
    ]
  ]

  -- Processing a workorder never makes one pending.
  pub process_effects-is_calm :
      (progress raw : Bool) → all is_calm (process_effects progress raw config w world) ≡ true
  unfolding process_effects build is_calm fail_early cleanup_workorder_runtime
  process_effects-is_calm false raw = refl
  process_effects-is_calm true raw = elim (Result-cases (prepare_image world)) [
    | inr (e, p) ↦ rw (p, build) refl
    | inl (u, p) ↦ rw (p, build) (launch-is_calm raw)
  ]
