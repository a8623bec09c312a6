-- ===== src/Server/Restart.antt =====
-- crates/server/src/persistence.rs and `AppState::new` of state.rs: the state after a restart. What
-- was read from the disk, JSON parsed, comes from outside; a file that is missing or cannot be read
-- counts as an empty map.
pub mod Recovery
mod Tests
use remerge.Prelude.{
  ℕ, Bool, true, false, Option, none, some, List, [], ◌∷◌, if◌then◌else◌, nat_eq, keep_if,
}
use remerge.Prelude.Dict.{Dict, get, insert, map_values, keys, passes}
use remerge.Types.Client.{ClientId, WorkorderId, DateTime, ClientState}
use remerge.Types.Workorder.{
  Workorder, WorkorderStatus, pending, provisioning, building, is_active_status, WorkorderResult,
}
use remerge.Auth.{CertRegistry}
use remerge.Registry.{ClientRegistry}
use remerge.Server.State.{ServerConfig, AppState, new_metrics}

-- The three files of the state directory, as far as they could be read
pub record Saved : Type 0 where
  pub workorders : Option (Dict WorkorderId Workorder)
  pub results : Option (Dict WorkorderId WorkorderResult)
  pub clients : Option (Dict ClientId ClientState)

abbrev pub unwrap_or_default {ℓ κ} : {K : Type ℓ} {V : Type κ} → Option (Dict K V) → Dict K V
unwrap_or_default none = []
unwrap_or_default (some m) = m

abbrev pub is_in_flight : WorkorderStatus → Bool
is_in_flight provisioning = true
is_in_flight building = true
is_in_flight _ = false

abbrev pub reset_in_flight : DateTime → Workorder → Workorder
reset_in_flight now w =
    if is_in_flight w.status then record w { status = pending; updated_at = now } else w

-- `load_workorders`
unfoldable pub load_workorders : DateTime → Saved → Dict WorkorderId Workorder
load_workorders now saved = map_values (reset_in_flight now) (unwrap_or_default saved.workorders)

-- `load_results`
unfoldable pub load_results : Saved → Dict WorkorderId WorkorderResult
load_results saved = unwrap_or_default saved.results

-- `load_clients`
unfoldable pub load_clients : Saved → ClientRegistry
load_clients saved =
    map_values (λ state. record state { active_workorder = none }) (unwrap_or_default saved.clients)

unfoldable pub is_waiting : Workorder → Bool
is_waiting w = is_active_status w.status

-- a channel for each id
unfoldable pub open_channels : List WorkorderId → Dict WorkorderId (Unit {0})
open_channels [] = []
open_channels (id ∷ ids) = insert id tt (open_channels ids)

-- `AppState::new`
unfoldable pub restart : ServerConfig → CertRegistry → DateTime → Saved → AppState
unfolding load_workorders load_results load_clients is_waiting open_channels
restart config auth now saved =
    let workorders = load_workorders now saved in
    let waiting = keep_if (λ id. passes is_waiting (get id workorders)) (keys workorders) in
    record {
      config = config;
      auth = auth;
      clients = load_clients saved;
      workorders = workorders;
      results = load_results saved;
      progress_txs = open_channels waiting;
      raw_output_txs = open_channels waiting;
      stdin_txs = [];
      container_ids = [];
      image_last_used = [];
      staged_workorder_references = [];
      metrics = new_metrics;
      sent = [];
    }
