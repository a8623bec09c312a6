-- ===== src/Server/Evict.antt =====
-- crates/server/src/state.rs, `evict_workorders`: forgetting workorders that have ended. The cut-off
-- time comes from outside. The sort is stable, as `sort_by_key` is.
pub mod Sorted
pub mod Oldest
pub mod Dropped
pub mod Once
pub mod Capped
pub mod Retention
mod Tests
use remerge.Prelude.{
  ℕ, ◌+◌, ◌-◌, Bool, true, false, ◌&&◌, List, [], ◌∷◌, if◌then◌else◌, nat_eq, ltb, leb, length,
  take, map,
}
use remerge.Prelude.Dict.{Dict, get, remove, pick}
use remerge.Types.Client.{WorkorderId, DateTime}
use remerge.Types.Workorder.{Workorder, WorkorderStatus, is_terminal_status}
use remerge.Server.State.{ServerConfig, AppState}

-- the six removals that the two loops make for an id
unfoldable pub drop_workorder : WorkorderId → AppState → AppState
drop_workorder id s = record s {
  workorders = remove id s.workorders;
  results = remove id s.results;
  progress_txs = remove id s.progress_txs;
  raw_output_txs = remove id s.raw_output_txs;
  stdin_txs = remove id s.stdin_txs;
  container_ids = remove id s.container_ids;
}

unfoldable pub drop_all : List WorkorderId → AppState → AppState
unfolding drop_workorder
drop_all [] s = s
drop_all (id ∷ ids) s = drop_all ids (drop_workorder id s)

unfoldable pub is_stale : DateTime → Workorder → Bool
is_stale cutoff w = is_terminal_status w.status && ltb w.updated_at cutoff

-- the ended workorders with their times, and their order by time
unfoldable pub ended : Dict WorkorderId Workorder → List (WorkorderId × DateTime)
ended [] = []
ended ((id, w) ∷ ws) =
    let rest = ended ws in if is_terminal_status w.status then (id, w.updated_at) ∷ rest else rest

abbrev pub insert_by_time :
    WorkorderId × DateTime → List (WorkorderId × DateTime) → List (WorkorderId × DateTime)
insert_by_time e [] = e ∷ []
insert_by_time e (f ∷ fs) =
    let rest = insert_by_time e fs in if leb e.1 f.1 then e ∷ f ∷ fs else f ∷ rest

unfoldable pub sort_by_time : List (WorkorderId × DateTime) → List (WorkorderId × DateTime)
sort_by_time [] = []
sort_by_time (e ∷ es) = insert_by_time e (sort_by_time es)

-- the ids that the cap on their number makes too many
unfoldable pub over_cap : ℕ → Dict WorkorderId Workorder → List WorkorderId
unfolding ended sort_by_time
over_cap cap ws =
    if ltb 0 cap && ltb cap (length ws)
    then map (λ (e : WorkorderId × DateTime). e.0)
        (take (length ws - cap) (sort_by_time (ended ws)))
    else []

-- `evict_workorders`: how many went, and the state after it
unfoldable pub evict_workorders : DateTime → AppState → ℕ × AppState
unfolding drop_all is_stale over_cap
evict_workorders cutoff s =
    let stale_ids = pick (is_stale cutoff) s.workorders in
    let fresh = drop_all stale_ids s in
    let to_evict = over_cap s.config.max_retained_workorders fresh.workorders in
    (length stale_ids + length to_evict, drop_all to_evict fresh)
