-- ===== src/Server/System.antt =====
-- crates/server/src: the running server as a transition system. A state is the shared state with the
-- workorders that are being processed, each with the effects that it still has; a step is one
-- handler, one turn of the queue, one effect of one workorder, or one eviction. The steps may come in
-- any order.
pub mod Steps
pub mod Operations
pub mod Handlers
pub mod Calm
pub mod Invariant
mod Tests
use remerge.Prelude.{ℕ, Bool, Option, none, some, List, [], ◌∷◌, ◌++◌, All, ◌≡◌, ◌≢◌, nat_eq}
use remerge.Prelude.Dict.{get}
use remerge.Types.Client.{WorkorderId, DateTime}
use remerge.Types.Workorder.{Workorder}
use remerge.Auth.{CertRegistry, HeaderMap}
use remerge.Registry.{Hashing}
use remerge.Server.State.{ServerConfig, AppState}
use remerge.Server.Submit.{Arrival, SubmitWorkorderRequest, submit_workorder}
use remerge.Server.Cancel.{cancel_workorder}
use remerge.Server.Queue.{queue_turn}
use remerge.Server.Queue.Effects.{Effect, apply}
use remerge.Server.Queue.Process.{World}
use remerge.Server.Queue.Pipeline.{process_effects}
use remerge.Server.Evict.{evict_workorders}
use remerge.Server.Restart.{restart}

-- A workorder that was taken up, and what its processing has still to do
pub record Task : Type 0 where
  pub workorder : Workorder
  pub effects : List Effect

pub record System : Type 0 where
  pub state : AppState
  pub tasks : List Task

-- `Uuid::new_v4` gives an id that no workorder has, stored or in process.
pub record IsFresh (id : WorkorderId) (y : System) : Type 0 where
  pub unstored : get id y.state.workorders ≡ none
  pub unused : All (λ (t : Task). t.workorder.id ≢ id) y.tasks

pub data Step : System → System → Type 0 where
  submit :
      (y : System) (h : Hashing) (a : Arrival) (headers : HeaderMap) (req : SubmitWorkorderRequest)
      → IsFresh a.id y
      → Step y (record y { state = (submit_workorder h a headers req y.state).1 })
  cancel :
      (y : System) (headers : HeaderMap) (id : WorkorderId) (now : DateTime)
      → Step y (record y { state = (cancel_workorder headers id now y.state).1 })
  -- The spawned task looks its channels up later, so that they may be there or not by then.
  take_up :
      (y : System) (now : DateTime) (w : Workorder) (progress raw : Bool) (world : World)
      → (queue_turn now y.state).0 ≡ some w
      → Step y (record {
        state = (queue_turn now y.state).1;
        tasks =
            (record {
              workorder = w;
              effects = process_effects progress raw y.state.config w world;
            })
            ∷ y.tasks;
      })
  advance :
      (s : AppState) (before after : List Task) (w : Workorder) (now : DateTime) (e : Effect)
      (es : List Effect)
      → Step
          (record {
            state = s;
            tasks = before ++ ((record { workorder = w; effects = e ∷ es }) ∷ after);
          })
          (record {
            state = apply w now e s;
            tasks = before ++ ((record { workorder = w; effects = es }) ∷ after);
          })
  evict :
      (y : System) (cutoff : DateTime)
      → Step y (record y { state = (evict_workorders cutoff y.state).1 })

-- A server that starts with nothing saved
abbrev pub boot : ServerConfig → CertRegistry → DateTime → System
boot config auth now = record {
  state = restart config auth now (record { workorders = none; results = none; clients = none });
  tasks = [];
}

pub data Reach (start : System) : System → Type 0 where
  here : Reach start start
  next : {y z : System} → Reach start y → Step y z → Reach start z
