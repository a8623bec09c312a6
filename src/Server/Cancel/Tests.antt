-- ===== src/Server/Cancel/Tests.antt =====
-- Cancellations at concrete states, and their theorems there.
use remerge.Prelude.{◌≢◌, true, false, ◌≡◌, ◌⊎◌, refl, ok, err, nat_eq}
use remerge.Prelude.Dict.{get}
use remerge.Types.Workorder.{pending, building, completed}
use remerge.Server.Cancel.{cancel_workorder, not_found}
use remerge.Server.Cancel.Ownership.{IsCancelled, cancel_workorder_lem}
use remerge.Server.Samples.{no_headers, holding}

ended_stays : (cancel_workorder no_headers 1 5 (holding completed)).0 ≡ ok false
unfolding cancel_workorder get
ended_stays = refl

unknown : (cancel_workorder no_headers 9 5 (holding building)).0 ≡ err not_found
unfolding cancel_workorder get
unknown = refl

cancel_workorder_lem_example :
    (((cancel_workorder no_headers 1 5 (holding pending)).1 ≡ holding pending)
      × ((cancel_workorder no_headers 1 5 (holding pending)).0 ≢ ok true))
    ⊎ (((cancel_workorder no_headers 1 5 (holding pending)).0 ≡ ok true)
        × IsCancelled no_headers 1
            (holding pending)
            (cancel_workorder no_headers 1 5 (holding pending)).1)
cancel_workorder_lem_example = cancel_workorder_lem no_headers 1 5 (holding pending)
