-- ===== src/Server/Submit.antt =====
-- crates/server/src/api.rs, `submit_workorder`: the admission of a workorder. What the handler gets
-- from outside is in `Arrival`: the fresh id, the time, the trace context of the request, and the
-- result of storing the snapshots (`normalize_portage_config_snapshots`). Writing the state to disk
-- afterwards changes nothing in memory and is left out.
pub mod Admission
mod Tests
use remerge.Prelude.{
  ℕ, ◌+◌, Bool, true, false, ◌&&◌, Option, none, some, List, [], ◌∷◌, ◌++◌, Result, ok, err, ◌>>=◌,
  ◌>>◌, bail_if, if◌then◌else◌, ltb, leb, nat_eq, length, keep_if,
}
use remerge.Prelude.Text.{Text, codes, text_beq, text_eq, to_lowercase, unwrap_or}
use remerge.Prelude.Dict.{Dict, get, insert}
use remerge.Types.Client.{ClientId, WorkorderId, DateTime, ClientRole, ConfigDiff}
use remerge.Types.Portage.{PortageConfig, SystemIdentity}
use remerge.Types.Workorder.{Workorder, WorkorderStatus, pending, is_active_status, TraceContext}
use remerge.Atom.{AtomValidationError, validate_atom}
use remerge.Auth.{HeaderMap, AuthError, ResolvedIdentity, resolve}
use remerge.Auth
use remerge.Registry.{ClientRegistry, RegistryError, Hashing, update, set_active_workorder}
use remerge.Server.State.{ServerConfig, AppState, create_progress_channel, fetch_add}

-- `SubmitWorkorderRequest` of crates/types/src/api.rs
pub record SubmitWorkorderRequest : Type 0 where
  pub client_id : ClientId
  pub role : ClientRole
  pub atoms : List Text
  pub emerge_args : List Text
  pub portage_config : PortageConfig
  pub system_id : SystemIdentity

-- `SubmitWorkorderResponse`
pub record SubmitWorkorderResponse : Type 0 where
  pub workorder_id : WorkorderId
  pub progress_ws_url : Text
  pub trace_id : Option Text

pub record Arrival : Type 0 where
  pub id : WorkorderId
  pub now : DateTime
  pub trace_context : TraceContext
  pub normalized : Result Text PortageConfig
  pub shown_id : Text

-- The refusals, with what their messages name
pub data Refusal : Type 0 where
  invalid_atom : Text → AtomValidationError → Refusal
  unauthenticated : AuthError → Refusal
  bad_snapshots : Text → Refusal
  capacity_reached : ℕ → Refusal
  rejected : RegistryError → Refusal

-- The status codes of the refusals
unfoldable pub status_code : Refusal → ℕ
unfolding Auth.status_code
status_code (invalid_atom atom e) = 400
status_code (unauthenticated e) = Auth.status_code e
status_code (bad_snapshots e) = 400
status_code (capacity_reached limit) = 503
status_code (rejected e) = 409

-- the loop over `req.atoms`
unfoldable pub validate_atoms : List Text → Result Refusal Unit
validate_atoms [] = ok tt
validate_atoms (atom ∷ atoms) =
    let rest = validate_atoms atoms in
    elim (validate_atom atom) [ ok _ ↦ rest | err e ↦ err (invalid_atom atom e) ]

unfoldable pub count_active : Dict WorkorderId Workorder → ℕ
count_active [] = 0
count_active ((id, w) ∷ ws) =
    let rest = count_active ws in if is_active_status w.status then rest + 1 else rest

-- the capacity check; a limit of 0 is no limit
unfoldable pub check_capacity : AppState → Result Refusal Unit
unfolding count_active
check_capacity s =
    bail_if
      (ltb 0 s.config.max_active_workorders
        && leb s.config.max_active_workorders (count_active s.workorders))
      (capacity_reached s.config.max_active_workorders)

abbrev with_error {ℓ} : {E F A : Type ℓ} → (E → F) → Result E A → Result F A
with_error f (ok a) = ok a
with_error f (err e) = err (f e)

unfoldable pub new_workorder :
    Arrival → SubmitWorkorderRequest → ResolvedIdentity → PortageConfig → Workorder
new_workorder a req identity config = record {
  id = a.id;
  client_id = identity.client_id;
  role = identity.role;
  atoms = req.atoms;
  emerge_args = req.emerge_args;
  portage_config = config;
  system_id = req.system_id;
  trace_context = some a.trace_context;
  status = pending;
  created_at = a.now;
  updated_at = a.now;
}

-- The state after an admitted submission
unfoldable pub admit : Arrival → Workorder → ClientRegistry → AppState → AppState
admit a workorder clients s =
    let opened = create_progress_channel a.id s in
    record opened {
      clients = set_active_workorder workorder.client_id a.id clients;
      workorders = insert a.id workorder opened.workorders;
      metrics = record opened.metrics {
        workorders_submitted = fetch_add opened.metrics.workorders_submitted 1;
        queue_depth = fetch_add opened.metrics.queue_depth 1;
      };
    }

-- the scheme of the WebSocket URL
abbrev scheme : HeaderMap → ServerConfig → Text
scheme headers config = elim (headers (codes "x-forwarded-proto")) [
  | some proto ↦ if text_beq (to_lowercase proto) (codes "https") then codes "wss" else codes "ws"
  | none ↦ if config.has_tls then codes "wss" else codes "ws"
]

unfoldable pub progress_ws_url : HeaderMap → ServerConfig → Text → Text
progress_ws_url headers config shown_id =
    scheme headers config
    ++ codes "://"
    ++ unwrap_or (headers (codes "host")) (codes "localhost:7654")
    ++ codes "/api/v1/workorders/"
    ++ shown_id
    ++ codes "/progress"

-- The checks of `submit_workorder`, in order: what is stored, or the refusal
unfoldable pub prepare :
    Hashing
    → Arrival
    → HeaderMap
    → SubmitWorkorderRequest
    → AppState
    → Result Refusal (Workorder × ConfigDiff × ClientRegistry)
unfolding validate_atoms check_capacity new_workorder
prepare h a headers req s = do
  validate_atoms req.atoms
  identity ← with_error unauthenticated (resolve s.auth headers req.client_id req.role)
  config ← with_error bad_snapshots a.normalized
  check_capacity s
  registered ←
      with_error rejected
        (update h identity.client_id identity.role req.portage_config req.system_id a.now s.clients)
  ok (new_workorder a req identity config, registered.0, registered.1)

-- `submit_workorder`: the answer and the state after it. A refusal leaves the state as it was.
unfoldable pub submit_workorder :
    Hashing
    → Arrival
    → HeaderMap
    → SubmitWorkorderRequest
    → AppState
    → Result Refusal SubmitWorkorderResponse × AppState
unfolding prepare admit progress_ws_url
submit_workorder h a headers req s = elim (prepare h a headers req s) [
  | err e ↦ (err e, s)
  | ok (workorder, diff, clients) ↦ (
    ok (record {
      workorder_id = a.id;
      progress_ws_url = progress_ws_url headers s.config a.shown_id;
      trace_id = some a.trace_context.trace_id;
    }),
    admit a workorder clients s,
  )
]
