-- ===== src/Server/Queue/Tests.antt =====
-- The queue at concrete states, and its theorems there.
use remerge.Prelude.{◌≢◌, true, false, some, ◌≡◌, refl, ok, nat_eq, arith}
use remerge.Prelude.Dict.{get}
use remerge.Types.Samples.{order}
use remerge.Types.Workorder.{pending, building, cancelled}
use remerge.Server.Cancel.{cancel_workorder}
use remerge.Server.Queue.{claim, queue_turn}
use remerge.Server.Queue.Claim.{IsTurn, claim_once, queue_turn-oldest}
use remerge.Server.Queue.Pipeline.{prepare_image, process_effects, process_workorder}
use remerge.Server.Queue.Verdict.{IsDone, is_success}
use remerge.Server.Queue.Outcome.{process_workorder-IsDone}
use remerge.Server.Queue.Order.{
  is_result_first, process_effects-result_first, cancel_workorder-final,
}
use remerge.Server.Samples.{no_headers, holding, crowded, good_world, settings}

claimed : (claim (order 1 7 pending) 5 (holding pending)).0 ≡ true
unfolding claim get
claimed = refl

claim_once_example :
    claim (order 1 7 pending) 6 (claim (order 1 7 pending) 5 (holding pending)).1
    ≡ (false, (claim (order 1 7 pending) 5 (holding pending)).1)
claim_once_example =
    claim_once (order 1 7 pending) (order 1 7 pending) 5 6 (holding pending) claimed refl

taken : (queue_turn 5 crowded).0 ≡ some (order 2 8 pending)
unfolding queue_turn get
taken = refl

queue_turn-oldest_example : IsTurn 5 crowded (queue_turn 5 crowded).1 (order 2 8 pending)
queue_turn-oldest_example = queue_turn-oldest 5 crowded (order 2 8 pending) taken

process_workorder-IsDone_example :
    IsDone
      (order 1 7 pending)
      (holding cancelled)
      (process_workorder (order 1 7 pending) good_world 9 (holding cancelled))
      true
      0
unfolding get is_success
process_workorder-IsDone_example =
    process_workorder-IsDone (order 1 7 pending) good_world 9 (holding cancelled)
      (order 1 7 cancelled) refl refl refl (omega arith)

process_effects-result_first_example :
    is_result_first (process_effects true true settings (order 1 7 building) good_world) ≡ true
unfolding prepare_image
process_effects-result_first_example =
    process_effects-result_first settings (order 1 7 building) good_world

cancelled_once : (cancel_workorder no_headers 1 5 (holding pending)).0 ≡ ok true
unfolding cancel_workorder get
cancelled_once = refl

cancel_workorder-final_example :
    (claim (order 1 7 pending) 8 (cancel_workorder no_headers 1 5 (holding pending)).1
      ≡ (false, (cancel_workorder no_headers 1 5 (holding pending)).1))
    × ((cancel_workorder no_headers 1 6 (cancel_workorder no_headers 1 5 (holding pending)).1).1
        ≡ (cancel_workorder no_headers 1 5 (holding pending)).1)
    × ((cancel_workorder no_headers 1 6 (cancel_workorder no_headers 1 5 (holding pending)).1).0
        ≢ ok true)
cancel_workorder-final_example =
    cancel_workorder-final no_headers no_headers 1 5 6 8 (holding pending) (order 1 7 pending)
      cancelled_once refl
