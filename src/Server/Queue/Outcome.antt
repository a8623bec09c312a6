-- ===== src/Server/Queue/Outcome.antt =====
-- What the processing of a workorder leaves behind, on every path.
use remerge.Prelude.{
  ℕ, ◌<◌, Bool, true, false, not, ◌&&◌, ◌||◌, some, List, [], ◌∷◌, ◌++◌, ok, err, is_ok,
  Result-cases, arith, ◌≡◌, inl, inr, refl, nat_eq, All, Bool-cases,
}
use remerge.Prelude.Text.{Text, codes}
use remerge.Prelude.Dict.{get}
use remerge.Types.Client.{DateTime}
use remerge.Types.Workorder.{Workorder, building, failed}
use remerge.Server.State.{ServerConfig, AppState, fetch_add, fetch_sub, u64_mod}
use remerge.Server.Queue.Effects.{
  with_metrics, Effect, set_status, use_image, track_references, register_container, open_stdin,
  close_raw_output, apply, run,
}
use remerge.Server.Queue.Process.{exit_failure, wait_outcome, World, fail_early, relay}
use remerge.Server.Queue.Pipeline.{
  final_status, ingest, attend, launch, build, prepare_image, process_effects, process_workorder,
}
use remerge.Server.Queue.Kept.{run-append, is_kept, run-IsKept, relay-kept}
use remerge.Server.Queue.Endings.{fail_early-IsEnded, fail_ingest-IsEnded, finish-IsEnded}
use remerge.Server.Queue.Verdict.{
  exited_well, is_success, IsDone, IsDone-moved, IsDone-trans, exit_failure-exited_well,
  final_status-terminal,
}

module _ (w : Workorder) (now : DateTime) (config : ServerConfig) (world : World) where
  ingest-IsDone :
      (s : AppState) (v : Workorder)
      → get w.id s.workorders ≡ some v
      → IsDone w s
          (run w now (ingest config w world) s)
          (is_ok world.parity && is_ok world.distfiles && exited_well config world)
          (fetch_sub s.metrics.builds_active)
  unfolding ingest exited_well
  ingest-IsDone s v n = elim (Result-cases world.parity) [
    | inr (e, bad) ↦
        rw (bad, ingest)
          (record {
            status = _;
            terminal = refl;
            verdict = refl;
            ended = fail_ingest-IsEnded w now config world s v n _ _;
          })
    | inl (parity, good) ↦ elim (Result-cases world.distfiles) [
      | inr (e, bad) ↦
          rw (good, bad, ingest)
            (record {
              status = _;
              terminal = refl;
              verdict = refl;
              ended = fail_ingest-IsEnded w now config world s v n _ _;
            })
      | inl (distfiles, got) ↦
          let outcome = exit_failure world (wait_outcome config world) in
          rw (good, got, ingest)
            (record {
              status = final_status outcome;
              terminal = final_status-terminal outcome;
              verdict = exit_failure-exited_well config world;
              ended = finish-IsEnded w now config world s v n distfiles parity outcome;
            })
    ]
  ]

  -- Effects of the running build before an ending change nothing of what it leaves.
  after-IsDone :
      (es rest : List Effect) (success : Bool) (s : AppState) (v : Workorder)
      → All (λ e. is_kept e ≡ true) es
      → get w.id s.workorders ≡ some v
      → ((t : AppState) (u : Workorder)
          → get w.id t.workorders ≡ some u
          → IsDone w t (run w now rest t) success (fetch_sub t.metrics.builds_active))
      → IsDone w s (run w now (es ++ rest) s) success (fetch_sub s.metrics.builds_active)
  after-IsDone es rest success s v k n ends =
      let kept = run-IsKept w now es s v k n in
      rw (run-append w now es rest s) (
        IsDone-trans w s (run w now es s) _ success kept
          (ends (run w now es s) kept.current kept.stored))

  attend-IsDone :
      (container_id : Text) (s : AppState) (v : Workorder)
      → get w.id s.workorders ≡ some v
      → IsDone w s
          (run w now (attend true config w world container_id) s)
          (is_ok world.parity && is_ok world.distfiles && exited_well config world)
          (fetch_sub s.metrics.builds_active)
  unfolding attend is_kept
  attend-IsDone container_id s v n =
      after-IsDone
        (register_container container_id ∷ open_stdin ∷ close_raw_output ∷ relay world.events)
        (ingest config w world) _ s v (refl, (refl, (refl, relay-kept world.events))) n
        ingest-IsDone

  early :
      (reason : Text) (s : AppState) (v : Workorder)
      → get w.id s.workorders ≡ some v
      → IsDone w s
          (run w now (fail_early config w world reason) s)
          false
          (fetch_sub s.metrics.builds_active)
  early reason s v n = record {
    status = failed reason;
    terminal = refl;
    verdict = refl;
    ended = fail_early-IsEnded w now config world s v n reason;
  }

  started-IsDone :
      (s : AppState) (v : Workorder)
      → get w.id s.workorders ≡ some v
      → IsDone w s
          (run w now
            (elim world.container [
              | err e ↦ fail_early config w world (codes "Failed to start worker: " ++ e)
              | ok container_id ↦ attend true config w world container_id
            ])
            s)
          (is_ok world.container
            && is_ok world.parity
            && is_ok world.distfiles
            && exited_well config world)
          (fetch_sub s.metrics.builds_active)
  unfolding exited_well
  started-IsDone s v n = elim (Result-cases world.container) [
    | inr (e, bad) ↦ rw bad (early _ s v n)
    | inl (container_id, started) ↦ rw started (attend-IsDone container_id s v n)
  ]

  launch-IsDone :
      (s : AppState) (v : Workorder)
      → get w.id s.workorders ≡ some v
      → IsDone w s
          (run w now (launch true config w world) s)
          (is_ok world.staged
            && is_ok world.container
            && is_ok world.parity
            && is_ok world.distfiles
            && exited_well config world)
          (fetch_sub s.metrics.builds_active)
  unfolding launch is_kept exited_well
  launch-IsDone s v n = elim (Result-cases world.staged) [
    | inr (e, bad) ↦ rw (bad, launch) (early _ s v n)
    | inl (references, staged) ↦
        rw (staged, launch)
          (after-IsDone (track_references references ∷ []) _ _ s v (refl, tt) n started-IsDone)
  ]

  image-is_ok : is_ok (prepare_image world) ≡ (not world.needs_rebuild || is_ok world.image_build)
  unfolding prepare_image
  image-is_ok = elim (Bool-cases world.needs_rebuild) [
    | inl stale ↦ rw stale refl
    | inr fresh ↦ rw fresh refl
  ]

  build-IsDone :
      (s : AppState) (v : Workorder)
      → get w.id s.workorders ≡ some v
      → IsDone w s
          (run w now (build true config w world) s)
          (is_success config world)
          (fetch_sub s.metrics.builds_active)
  unfolding build is_kept is_success
  build-IsDone s v n = elim (Result-cases (prepare_image world)) [
    | inr (e, bad) ↦ rw (bad, build, ← image-is_ok, bad) (early _ s v n)
    | inl (u, good) ↦
        rw (good, build, ← image-is_ok, good)
          (after-IsDone (use_image world.image_tag ∷ set_status building ∷ []) _ _ s v
            (refl, (refl, tt)) n launch-IsDone)
  ]

abbrev begin : AppState → AppState
begin s = with_metrics s (record s.metrics { builds_active = fetch_add s.metrics.builds_active 1 })

fetch_sub-fetch_add : (n : ℕ) → n < u64_mod → fetch_sub (fetch_add n 1) ≡ n
fetch_sub-fetch_add n h = omega arith

module _ (w : Workorder) (world : World) (now : DateTime) (s : AppState) (v : Workorder) where
  -- A stored workorder whose channels are open, with fewer than 2^64 active builds, ends in a
  -- terminal status, completed exactly if every step of the build went well, with a result of its
  -- own stored, its channels, container and staged references gone, its client free, the number of
  -- active builds as before, and the other workorders, results and clients untouched. Its status
  -- before is not looked at.
  pub process_workorder-IsDone :
      get w.id s.workorders ≡ some v
      → get w.id s.progress_txs ≡ some tt
      → get w.id s.raw_output_txs ≡ some tt
      → s.metrics.builds_active < u64_mod
      → IsDone w s
          (process_workorder w world now s)
          (is_success s.config world)
          s.metrics.builds_active
  unfolding process_workorder process_effects run apply
  process_workorder-IsDone n progress raw bound =
      rw (progress, raw, process_workorder)
        (IsDone-moved w s (begin s) _ _ _ _ (λ j other. refl) (λ j other. refl) refl
          (fetch_sub-fetch_add s.metrics.builds_active bound)
          (build-IsDone w now s.config world (begin s) v n))
