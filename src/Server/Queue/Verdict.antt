-- ===== src/Server/Queue/Verdict.antt =====
-- Which builds count as a success, and what a workorder that is done leaves behind.
use remerge.Prelude.{
  ℕ, zero, suc, Bool, true, false, not, ◌&&◌, ◌||◌, Option, none, some, Result, ok, err, is_ok,
  Result-cases, arith, ◌≡◌, ◌≢◌, inl, inr, refl, ◌∙◌, ap, nat_eq, ◌==◌, Bool-cases,
}
use remerge.Prelude.Text.{Text}
use remerge.Prelude.Int.{ℤ, pos, negsuc, is_zero}
use remerge.Prelude.Dict.{get}
use remerge.Types.Client.{WorkorderId}
use remerge.Types.Workorder.{Workorder, WorkorderStatus, completed, status_beq, is_terminal_status}
use remerge.Registry.{ClientRegistry}
use remerge.Server.State.{ServerConfig, AppState, fetch_sub}
use remerge.Server.Queue.Process.{exit_failure, wait_outcome, World}
use remerge.Server.Queue.Pipeline.{final_status}
use remerge.Server.Queue.Kept.{IsKept}
use remerge.Server.Queue.Endings.{IsEnded}

-- The container ended in time, with the exit code 0.
unfoldable pub exited_well : ServerConfig → World → Bool
exited_well config world =
    ((config.build_timeout_secs == 0) || world.in_time)
    && (elim world.exit [ ok exit_code ↦ is_zero exit_code | err e ↦ false ])

-- Every step of the build went well.
unfoldable pub is_success : ServerConfig → World → Bool
unfolding exited_well
is_success config world =
    (not world.needs_rebuild || is_ok world.image_build)
    && is_ok world.staged
    && is_ok world.container
    && is_ok world.parity
    && is_ok world.distfiles
    && exited_well config world

-- An ending whose status is completed if the flag holds, and else failed.
pub record IsDone (w : Workorder) (s s' : AppState) (success : Bool) (builds : ℕ) : Type 0 where
  pub status : WorkorderStatus
  pub terminal : is_terminal_status status ≡ true
  pub verdict : status_beq status completed ≡ success
  pub ended : IsEnded w s s' status builds

-- The same from an earlier state, if that has the same other workorders, other results and clients.
pub IsDone-moved :
    (w : Workorder) (s t u : AppState) (success : Bool) (a b : ℕ)
    → ((j : WorkorderId) → j ≢ w.id → get j t.workorders ≡ get j s.workorders)
    → ((j : WorkorderId) → j ≢ w.id → get j t.results ≡ get j s.results)
    → t.clients ≡ s.clients
    → a ≡ b
    → IsDone w t u success a
    → IsDone w s u success b
IsDone-moved w s t u success a b others results clients same d = record {
  status = d.status;
  terminal = d.terminal;
  verdict = d.verdict;
  ended = record {
    ended = d.ended.ended;
    stored = d.ended.stored;
    status = d.ended.status;
    result = d.ended.result;
    reported = d.ended.reported;
    names = d.ended.names;
    others = λ j other. d.ended.others j other ∙ others j other;
    other_results = λ j other. d.ended.other_results j other ∙ results j other;
    progress_closed = d.ended.progress_closed;
    raw_closed = d.ended.raw_closed;
    stdin_closed = d.ended.stdin_closed;
    container_gone = d.ended.container_gone;
    references_gone = d.ended.references_gone;
    freed = λ entry known. d.ended.freed entry (rw clients known);
    other_clients =
        λ c other. d.ended.other_clients c other ∙ ap (λ (m : ClientRegistry). get c m) clients;
    active = d.ended.active ∙ same;
  };
}

pub IsDone-trans :
    (w : Workorder) (s t u : AppState) (success : Bool)
    → IsKept w s t
    → IsDone w t u success (fetch_sub t.metrics.builds_active)
    → IsDone w s u success (fetch_sub s.metrics.builds_active)
IsDone-trans w s t u success k d =
    IsDone-moved w s t u success (fetch_sub t.metrics.builds_active)
      (fetch_sub s.metrics.builds_active) k.others k.results k.clients (ap fetch_sub k.active) d

exit_failure-verdict :
    (world : World) (r : Result Text ℤ)
    → status_beq (final_status (exit_failure world r)) completed
      ≡ (elim r [ ok exit_code ↦ is_zero exit_code | err e ↦ false ])
exit_failure-verdict world (ok (pos zero)) = refl
exit_failure-verdict world (ok (pos (suc n))) = ground arith
exit_failure-verdict world (ok (negsuc n)) = refl
exit_failure-verdict world (err reason) = refl

pub exit_failure-exited_well :
    (config : ServerConfig) (world : World)
    → status_beq (final_status (exit_failure world (wait_outcome config world))) completed
      ≡ exited_well config world
unfolding wait_outcome exited_well
exit_failure-exited_well config world =
    elim (Bool-cases ((config.build_timeout_secs == 0) || world.in_time)) [
      | inr late ↦ rw late refl
      | inl timely ↦ elim (Result-cases world.exit) [
        | inl (c, e) ↦ rw (timely, e) (exit_failure-verdict world (ok c))
        | inr (x, e) ↦ rw (timely, e) refl
      ]
    ]

pub final_status-terminal :
    (outcome : Option Text) → is_terminal_status (final_status outcome) ≡ true
final_status-terminal none = refl
final_status-terminal (some reason) = refl
