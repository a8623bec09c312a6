-- ===== src/Server/Queue.antt =====
-- crates/server/src/queue.rs: the queue loop and the processing of one workorder. The handling of a
-- workorder is the list of its effects on the shared state, each of which takes one lock, so that
-- other operations can run between any two of them.
pub mod Effects
pub mod Claim
pub mod Process
pub mod Pipeline
pub mod Kept
pub mod Endings
pub mod Verdict
pub mod Outcome
pub mod Order
mod Tests
use remerge.Prelude.{
  ℕ, Bool, true, false, Option, none, some, List, [], ◌∷◌, if◌then◌else◌, nat_eq, leb,
}
use remerge.Prelude.Dict.{Dict, get, modify}
use remerge.Types.Client.{WorkorderId, DateTime}
use remerge.Types.Workorder.{
  Workorder, WorkorderStatus, pending, provisioning, status_beq, status_changed,
}
use remerge.Server.State.{AppState, fetch_sub}
use remerge.Server.Cancel.{trace_id_of}

-- the earlier of two by `created_at`; of equals `min_by_key` keeps the first
abbrev older : Workorder → Option Workorder → Workorder
older w none = w
older w (some v) = if leb w.created_at v.created_at then w else v

-- the pending workorder that `process_queue` looks at next
unfoldable pub next_pending : Dict WorkorderId Workorder → Option Workorder
next_pending [] = none
next_pending ((id, w) ∷ ws) =
    let rest = next_pending ws in if status_beq w.status pending then some (older w rest) else rest

-- The claim: the workorder that was looked at is marked, if it is still there and pending.
unfoldable pub claim : Workorder → DateTime → AppState → Bool × AppState
claim workorder now s = elim (get workorder.id s.workorders) [
  | none ↦ (false, s)
  | some w ↦
      if status_beq w.status pending
      then (
        true,
        record s {
          workorders =
              modify workorder.id (λ v. record v { status = provisioning; updated_at = now })
                s.workorders;
          metrics = record s.metrics { queue_depth = fetch_sub s.metrics.queue_depth };
          sent = elim (get workorder.id s.progress_txs) [
            | none ↦ s.sent
            | some _ ↦
                (record {
                  workorder_id = workorder.id;
                  trace_id = trace_id_of workorder;
                  event = status_changed pending provisioning;
                  timestamp = now;
                })
                ∷ s.sent
          ];
        },
      )
      else (false, s)
]

unfoldable pub with_claimed : Workorder → Bool × AppState → Option Workorder × AppState
with_claimed w (claimed, s) = (if claimed then some w else none, s)

-- One turn of the loop of `process_queue`: the claimed workorder, if there is one. A claim that
-- fails goes round again.
unfoldable pub queue_turn : DateTime → AppState → Option Workorder × AppState
unfolding next_pending claim with_claimed
queue_turn now s = elim (next_pending s.workorders) [
  | none ↦ (none, s)
  | some w ↦ with_claimed w (claim w now s)
]
