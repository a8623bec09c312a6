-- ===== src/Server/Cancel.antt =====
-- crates/server/src/api.rs: listing, reading and cancelling workorders.
pub mod Ownership
mod Tests
use remerge.Prelude.{
  ℕ, Bool, true, false, ◌&&◌, Option, none, some, List, [], ◌∷◌, Result, ok, err, if◌then◌else◌,
  nat_eq, ◌==◌, is_some, keep_if, map,
}
use remerge.Prelude.Text.{Text}
use remerge.Prelude.Dict.{Dict, get, modify}
use remerge.Types.Client.{ClientId, WorkorderId, DateTime, AuthMode, is_authenticated_mode}
use remerge.Types.Workorder.{
  Workorder, WorkorderStatus, pending, building, cancelled, status_beq, is_active_status,
  BuildEvent, status_changed, BuildProgress, TraceContext, WorkorderResult,
}
use remerge.Auth.{HeaderMap, resolve_header_only}
use remerge.Registry.{clear_active_workorder}
use remerge.Server.State.{AppState, fetch_add, fetch_sub}

-- The status codes that the handlers answer with
pub data HttpError : Type 0 where
  unauthorized forbidden not_found : HttpError

unfoldable pub trace_id_of : Workorder → Option Text
trace_id_of w = elim w.trace_context [ none ↦ none | some ctx ↦ some ctx.trace_id ]

-- the match on `auth_client_id` in the handlers of one workorder
unfoldable pub check_owner : Option ClientId → Workorder → Result HttpError Unit
check_owner none w = err unauthorized
check_owner (some cid) w = if cid == w.client_id then ok tt else err forbidden

-- `WorkorderSummary` and `WorkorderStatusResponse` of crates/types/src/api.rs
pub record WorkorderSummary : Type 0 where
  pub id : WorkorderId
  pub atoms : List Text
  pub status : WorkorderStatus
  pub created_at : DateTime

pub record WorkorderStatusResponse : Type 0 where
  pub workorder_id : WorkorderId
  pub status : WorkorderStatus
  pub result : Option WorkorderResult
  pub trace_id : Option Text

abbrev summary : Workorder → WorkorderSummary
summary w = record { id = w.id; atoms = w.atoms; status = w.status; created_at = w.created_at }

abbrev values {ℓ} : {V : Type ℓ} → Dict WorkorderId V → List V
values [] = []
values ((k, v) ∷ m) = v ∷ values m

-- `list_workorders`: all of them, or those of the authenticated client
unfoldable pub list_workorders : HeaderMap → AppState → Result HttpError (List WorkorderSummary)
list_workorders headers s =
    if is_authenticated_mode s.auth.mode
    then elim (resolve_header_only s.auth headers) [
      | none ↦ err unauthorized
      | some cid ↦ ok (map summary (keep_if (λ w. w.client_id == cid) (values s.workorders)))
    ]
    else ok (map summary (values s.workorders))

abbrev status_response : WorkorderId → Workorder → AppState → WorkorderStatusResponse
status_response id w s = record {
  workorder_id = id;
  status = w.status;
  result = get id s.results;
  trace_id = trace_id_of w;
}

-- `get_workorder`
unfoldable pub get_workorder :
    HeaderMap → WorkorderId → AppState → Result HttpError WorkorderStatusResponse
unfolding check_owner
get_workorder headers id s = elim (get id s.workorders) [
  | none ↦ err not_found
  | some w ↦
      if is_authenticated_mode s.auth.mode
      then elim (check_owner (resolve_header_only s.auth headers) w) [
        | err e ↦ err e
        | ok _ ↦ ok (status_response id w s)
      ]
      else ok (status_response id w s)
]

-- the authentication at the head of `cancel_workorder`: an unknown workorder passes it
unfoldable pub authorize_cancel : HeaderMap → WorkorderId → AppState → Result HttpError Unit
unfolding check_owner
authorize_cancel headers id s =
    if is_authenticated_mode s.auth.mode
    then elim (get id s.workorders) [
      | none ↦ ok tt
      | some w ↦ check_owner (resolve_header_only s.auth headers) w
    ]
    else ok tt

-- What a cancellation writes, for a workorder in an active status. The container of a build is
-- stopped too, which is outside of the state.
unfoldable pub cancel_active : WorkorderId → DateTime → Workorder → AppState → AppState
unfolding trace_id_of
cancel_active id now w s = record s {
  workorders = modify id (λ v. record v { status = cancelled }) s.workorders;
  sent =
      if is_some (get id s.progress_txs)
      then (record {
        workorder_id = id;
        trace_id = trace_id_of w;
        event = status_changed w.status cancelled;
        timestamp = now;
      })
        ∷ s.sent
      else s.sent;
  clients = clear_active_workorder w.client_id s.clients;
  metrics = record s.metrics {
    queue_depth =
        if status_beq w.status pending
        then fetch_sub s.metrics.queue_depth
        else s.metrics.queue_depth;
    workorders_cancelled = fetch_add s.metrics.workorders_cancelled 1;
  };
}

-- the container that `cancel_workorder` stops, if any
unfoldable pub container_to_stop : WorkorderId → Workorder → AppState → Option Text
container_to_stop id w s = if status_beq w.status building then get id s.container_ids else none

unfoldable pub cancel_found :
    WorkorderId → DateTime → Option Workorder → AppState → Result HttpError Bool × AppState
unfolding cancel_active
cancel_found id now none s = (err not_found, s)
cancel_found id now (some w) s =
    if is_active_status w.status then (ok true, cancel_active id now w s) else (ok false, s)

-- `cancel_workorder`: the answer says whether the workorder was cancelled
unfoldable pub cancel_workorder :
    HeaderMap → WorkorderId → DateTime → AppState → Result HttpError Bool × AppState
unfolding authorize_cancel cancel_found
cancel_workorder headers id now s = elim (authorize_cancel headers id s) [
  | err e ↦ (err e, s)
  | ok _ ↦ cancel_found id now (get id s.workorders) s
]
