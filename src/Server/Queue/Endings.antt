-- ===== src/Server/Queue/Endings.antt =====
-- What the three endings of `process_workorder` leave behind.
use remerge.Prelude.{
  ℕ, Bool, true, false, Option, none, some, [], arith, ◌≡◌, ◌≢◌, refl, ◌∙◌, ap, nat_eq,
}
use remerge.Prelude.Text.{Text}
use remerge.Prelude.Dict.{Dict, get, insert, get-insert, get-remove, get-modify}
use remerge.Types.Client.{ClientId, WorkorderId, DateTime, ClientState}
use remerge.Types.Portage.{SnapshotEntry}
use remerge.Types.Workorder.{
  Workorder, WorkorderStatus, completed, failed, ParityManifest, WorkorderResult,
}
use remerge.Registry.{clear_active_workorder}
use remerge.Server.State.{ServerConfig, AppState, fetch_sub, Metrics, record_cleanup}
use remerge.Server.Queue.Effects.{set_workorder_status, apply, run, cleanup_workorder_runtime}
use remerge.Server.Queue.Process.{World, no_parity, failure, fail_early, fail_ingest}
use remerge.Server.Queue.Pipeline.{final_result, final_status, finished_of, finish}
use remerge.Server.Queue.Kept.{set_status-IsKept}

-- What an ending of `process_workorder` leaves of the state `s` before it: the status, and the
-- number of active builds, are `st` and `builds`.
pub record IsEnded (w : Workorder) (s s' : AppState) (st : WorkorderStatus) (builds : ℕ)
    : Type 0 where
  pub ended : Workorder
  pub stored : get w.id s'.workorders ≡ some ended
  pub status : ended.status ≡ st
  pub result : WorkorderResult
  pub reported : get w.id s'.results ≡ some result
  pub names : result.workorder_id ≡ w.id
  pub others : (j : WorkorderId) → j ≢ w.id → get j s'.workorders ≡ get j s.workorders
  pub other_results : (j : WorkorderId) → j ≢ w.id → get j s'.results ≡ get j s.results
  pub progress_closed : get w.id s'.progress_txs ≡ none
  pub raw_closed : get w.id s'.raw_output_txs ≡ none
  pub stdin_closed : get w.id s'.stdin_txs ≡ none
  pub container_gone : get w.id s'.container_ids ≡ none
  pub references_gone : get w.id s'.staged_workorder_references ≡ none
  pub freed :
      (entry : ClientState)
      → get w.client_id s.clients ≡ some entry
      → get w.client_id s'.clients ≡ some (record entry { active_workorder = none })
  pub other_clients : (c : ClientId) → c ≢ w.client_id → get c s'.clients ≡ get c s.clients
  pub active : s'.metrics.builds_active ≡ builds

record_cleanup-active :
    (success : Bool) (m : Metrics) → (record_cleanup success m).builds_active ≡ m.builds_active
record_cleanup-active true m = refl
record_cleanup-active false m = refl

module _ (w : Workorder) (now : DateTime) where
  -- the clean-up, after a state in which the workorder is stored with a result
  cleanup-IsEnded :
      (removed : Option Bool) (s t : AppState) (st : WorkorderStatus) (v : Workorder)
      (r : WorkorderResult) (builds : ℕ)
      → get w.id t.workorders ≡ some v
      → v.status ≡ st
      → get w.id t.results ≡ some r
      → r.workorder_id ≡ w.id
      → ((j : WorkorderId) → j ≢ w.id → get j t.workorders ≡ get j s.workorders)
      → ((j : WorkorderId) → j ≢ w.id → get j t.results ≡ get j s.results)
      → t.clients ≡ s.clients
      → t.metrics.builds_active ≡ builds
      → IsEnded w s (run w now (cleanup_workorder_runtime removed) t) st builds
  unfolding run apply cleanup_workorder_runtime clear_active_workorder
  cleanup-IsEnded removed s t st v r builds n status rn names others results cs active = record {
    ended = v;
    stored = n;
    status = status;
    result = r;
    reported = rn;
    names = names;
    others = others;
    other_results = results;
    progress_closed = rw (get-remove w.id w.id) (ground arith);
    raw_closed = rw (get-remove w.id w.id) (ground arith);
    stdin_closed = rw (get-remove w.id w.id) (ground arith);
    container_gone = rw (get-remove w.id w.id) (ground arith);
    references_gone = rw (get-remove w.id w.id) (ground arith);
    freed = λ entry known. rw (cs, get-modify w.client_id w.client_id, known) (ground arith);
    other_clients = λ c other. rw (cs, get-modify w.client_id c) (ground arith);
    active = record_cleanup-active _ t.metrics ∙ active;
  }

  set_status-stored :
      (st : WorkorderStatus) (s : AppState) (v : Workorder)
      → get w.id s.workorders ≡ some v
      → get w.id (set_workorder_status w now st s).workorders
        ≡ some (record v { status = st; updated_at = now })
  unfolding set_workorder_status
  set_status-stored st s v n = rw (n, set_workorder_status, get-modify w.id w.id, n) (ground arith)

  -- The endings, from a state in which the workorder is stored. Each sets the status, stores a
  -- result, takes the build off the active ones, and cleans up.
  module _ (config : ServerConfig) (world : World) (s : AppState) (v : Workorder)
      (n : get w.id s.workorders ≡ some v) where
    ending-IsEnded :
        (removed : Option Bool) (t : AppState) (st : WorkorderStatus) (r : WorkorderResult)
        → r.workorder_id ≡ w.id
        → t.workorders ≡ (set_workorder_status w now st s).workorders
        → t.results ≡ insert w.id r (set_workorder_status w now st s).results
        → t.clients ≡ (set_workorder_status w now st s).clients
        → t.metrics.builds_active
          ≡ fetch_sub (set_workorder_status w now st s).metrics.builds_active
        → IsEnded w s
            (run w now (cleanup_workorder_runtime removed) t)
            st
            (fetch_sub s.metrics.builds_active)
    ending-IsEnded removed t st r names ws rs cs active =
        let kept = set_status-IsKept w now st s v n in
        cleanup-IsEnded removed s t st (record v { status = st; updated_at = now }) r
          (fetch_sub s.metrics.builds_active) (rw ws (set_status-stored st s v n)) refl
          (rw (rs, get-insert w.id w.id) (ground arith)) names
          (λ j other. rw ws (kept.others j other))
          (λ j other. rw (rs, get-insert w.id j) (ground (arith, kept.results j other)))
          (cs ∙ kept.clients) (active ∙ ap fetch_sub kept.active)

    pub fail_early-IsEnded :
        (reason : Text)
        → IsEnded w s
            (run w now (fail_early config w world reason) s)
            (failed reason)
            (fetch_sub s.metrics.builds_active)
    unfolding run apply fail_early failure
    fail_early-IsEnded reason =
        ending-IsEnded none _ (failed reason) (failure config w reason [] no_parity) refl refl refl
          refl refl

    pub fail_ingest-IsEnded :
        (reason : Text) (parity : ParityManifest)
        → IsEnded w s
            (run w now (fail_ingest config w world reason parity) s)
            (failed reason)
            (fetch_sub s.metrics.builds_active)
    unfolding run apply fail_ingest failure
    fail_ingest-IsEnded reason parity =
        ending-IsEnded (some world.removed) _ (failed reason) (failure config w reason [] parity)
          refl refl refl refl refl

    final_result-names :
        (distfiles : Dict Text SnapshotEntry) (parity : ParityManifest) (outcome : Option Text)
        → (final_result config w world distfiles parity outcome).workorder_id ≡ w.id
    unfolding final_result
    final_result-names distfiles parity none = refl
    final_result-names distfiles parity (some reason) = refl

    pub finish-IsEnded :
        (distfiles : Dict Text SnapshotEntry) (parity : ParityManifest) (outcome : Option Text)
        → IsEnded w s
            (run w now (finish config w world distfiles parity outcome) s)
            (final_status outcome)
            (fetch_sub s.metrics.builds_active)
    unfolding run apply finish finished_of
    finish-IsEnded distfiles parity none =
        ending-IsEnded (some world.removed) _ completed
          (final_result config w world distfiles parity none)
          (final_result-names distfiles parity none) refl refl refl refl
    finish-IsEnded distfiles parity (some reason) =
        ending-IsEnded (some world.removed) _ (failed reason)
          (final_result config w world distfiles parity (some reason))
          (final_result-names distfiles parity (some reason)) refl refl refl refl
