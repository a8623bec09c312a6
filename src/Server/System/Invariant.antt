-- ===== src/Server/System/Invariant.antt =====
-- What holds in every state that the running server can reach.
use remerge.Prelude.{
  Bool, true, false, List, [], ◌∷◌, ◌++◌, ◌&&◌, All, all, All-imp, All-change, arith, ◌≡◌, ◌≢◌,
  refl, sym, nat_eq,
}
use remerge.Prelude.Dict.{get, passes, map_values, IsDistinct}
use remerge.Prelude.Counts.{count_if}
use remerge.Types.Client.{WorkorderId, DateTime}
use remerge.Auth.{CertRegistry}
use remerge.Server.State.{ServerConfig, AppState}
use remerge.Server.Queue.Claim.{waits}
use remerge.Server.Queue.Effects.{apply}
use remerge.Server.Restart.{restart, load_workorders}
use remerge.Server.System.{Task, System, Step, Reach, boot}
use remerge.Server.System.Calm.{process_effects-is_calm}
use remerge.Server.System.Steps.{IsConsistent}
use remerge.Server.System.Operations.{
  is_calm, NonePends, apply-IsConsistent, apply-NonePends, queue_turn-IsConsistent,
}
use remerge.Server.System.Handlers.{
  cancel_workorder-IsConsistent, evict_workorders-IsConsistent, submit_workorder-IsConsistent,
}

-- A workorder in process does not wait, and nothing that is still to be done makes it wait.
pub record IsBusy (s : AppState) (t : Task) : Type 0 where
  pub taken : passes waits (get t.workorder.id s.workorders) ≡ false
  pub calm : all is_calm t.effects ≡ true

pub record IsSound (y : System) : Type 0 where
  pub consistent : IsConsistent y.state
  pub busy : All (IsBusy y.state) y.tasks

idle_later : (b c : Bool) → (c ≡ true → b ≡ true) → b ≡ false → c ≡ false
idle_later b true imp h = let now = imp refl in cc (now, h)
idle_later b false imp h = refl

IsBusy-later : (s s' : AppState) (t : Task) → NonePends s s' → IsBusy s t → IsBusy s' t
IsBusy-later s s' t none_pends b = record {
  taken = idle_later _ _ (none_pends t.workorder.id) b.taken;
  calm = b.calm;
}

All-later :
    (s s' : AppState) (ts : List Task) → NonePends s s' → All (IsBusy s) ts → All (IsBusy s') ts
All-later s s' ts none_pends =
    All-imp (IsBusy s) (IsBusy s') (λ t. IsBusy-later s s' t none_pends) ts

-- The tasks when a workorder that none of them is about comes in.
IsBusy-beside :
    (id : WorkorderId) (s s' : AppState) (ts : List Task)
    → ((j : WorkorderId)
        → id ≢ j
        → passes waits (get j s'.workorders) ≡ true
        → passes waits (get j s.workorders) ≡ true)
    → All (λ (t : Task). t.workorder.id ≢ id) ts
    → All (IsBusy s) ts
    → All (IsBusy s') ts
IsBusy-beside id s s' [] others unused busy = tt
IsBusy-beside id s s' (t ∷ ts) others unused busy = (
  record {
    taken = idle_later _ _ (others t.workorder.id (λ e. unused.0 (sym e))) busy.0.taken;
    calm = busy.0.calm;
  },
  IsBusy-beside id s s' ts others unused.1 busy.1,
)

&&-parts : (b c : Bool) → (b && c) ≡ true → (b ≡ true) × (c ≡ true)
&&-parts b c h = ground arith

-- Each step keeps the system sound.
Step-IsSound : (y z : System) → Step y z → IsSound y → IsSound z
Step-IsSound y z (Step.submit _ h a headers req fresh) sound =
    let (c, others) =
      submit_workorder-IsConsistent h a headers req y.state fresh.unstored sound.consistent in
    record {
      consistent = c;
      busy = IsBusy-beside a.id y.state _ y.tasks others fresh.unused sound.busy;
    }
Step-IsSound y z (Step.cancel _ headers id now) sound =
    let (c, none_pends) = cancel_workorder-IsConsistent headers id now y.state sound.consistent in
    record { consistent = c; busy = All-later y.state _ y.tasks none_pends sound.busy }
Step-IsSound y z (Step.take_up _ now w progress raw world claimed) sound =
    let (c, none_pends, taken) = queue_turn-IsConsistent now y.state w claimed sound.consistent in
    record {
      consistent = c;
      busy = (
        record {
          taken = taken;
          calm = process_effects-is_calm y.state.config w world progress raw;
        },
        All-later y.state _ y.tasks none_pends sound.busy,
      );
    }
Step-IsSound y z (Step.advance s before after w now e es) sound =
    let (here, put) =
      All-change (IsBusy s) before (record { workorder = w; effects = e ∷ es }) after sound.busy in
    let (calm, later) = &&-parts (is_calm e) (all is_calm es) here.calm in
    let none_pends = apply-NonePends w now s e calm in
    record {
      consistent = apply-IsConsistent w now s sound.consistent here.taken e calm;
      busy =
          All-later s (apply w now e s)
            (before ++ ((record { workorder = w; effects = es }) ∷ after)) none_pends
            (put (record { workorder = w; effects = es })
              (record { taken = here.taken; calm = later }));
    }
Step-IsSound y z (Step.evict _ cutoff) sound =
    let (c, none_pends) = evict_workorders-IsConsistent cutoff y.state sound.consistent in
    record { consistent = c; busy = All-later y.state _ y.tasks none_pends sound.busy }

boot-IsSound :
    (config : ServerConfig) (auth : CertRegistry) (now : DateTime) → IsSound (boot config auth now)
unfolding restart load_workorders map_values count_if IsDistinct get
boot-IsSound config auth now = record {
  consistent = record {
    distinct = tt;
    keyed = λ id w n. ground arith;
    depth = refl;
    open_progress = λ id h. ground arith;
    open_raw = λ id h. ground arith;
  };
  busy = tt;
}

Reach-IsSound : (x y : System) → IsSound x → Reach x y → IsSound y
Reach-IsSound x y sound Reach.here = sound
Reach-IsSound x z sound (Reach.next {y} r s) = Step-IsSound y z s (Reach-IsSound x y sound r)

-- In every state that a server started with nothing saved can reach, by handlers, turns of the
-- queue, effects of builds and evictions in any order: each id is stored once and under its own
-- workorder, the queue depth is the number of pending workorders, counted modulo 2^64, and both
-- channels of a pending workorder are open.
pub Reach-IsConsistent :
    (config : ServerConfig) (auth : CertRegistry) (now : DateTime) (y : System)
    → Reach (boot config auth now) y
    → IsConsistent y.state
Reach-IsConsistent config auth now y r =
    (Reach-IsSound (boot config auth now) y (boot-IsSound config auth now) r).consistent
