-- ===== src/Server/Submit/Tests.antt =====
-- Submissions at concrete states, and their theorems there.
use remerge.Prelude.{◌≤◌, ◌≢◌, some, ◌≡◌, ◌⊎◌, refl, ok, err, All, arith, nat_eq}
use remerge.Prelude.Text.{codes, strip_first}
use remerge.Prelude.Dict.{get, insert, modify}
use remerge.Atom.{validate_atom, is_package_char, is_name_char}
use remerge.Auth.{ResolvedIdentity, resolve, self_declared}
use remerge.Types.Client.{main, ClientId, WorkorderId}
use remerge.Registry.{update, set_active_workorder, active_workorder}
use remerge.Server.State.{AppState}
use remerge.Server.Submit.{
  Refusal, rejected, SubmitWorkorderResponse, count_active, submit_workorder,
}
use remerge.Server.Submit.Admission.{
  IsAdmitted, submit_workorder_lem, submit_workorder_exclusive, submit_workorder-capacity,
}
use remerge.Server.Samples.{toy, arrival, no_headers, request, idle}

submit_workorder_lem_example :
    ((x : Refusal) × ((submit_workorder toy (arrival 1) no_headers (request 7) idle)
        ≡ (err x, idle)))
    ⊎ ((i : ResolvedIdentity) × (r : SubmitWorkorderResponse) × ((submit_workorder toy
            (arrival 1)
            no_headers
            (request 7)
            idle).0
          ≡ ok r)
        × (r.workorder_id ≡ (arrival 1).id)
        × (resolve idle.auth no_headers 7 main ≡ ok i)
        × All (λ atom. validate_atom atom ≡ ok tt) (request 7).atoms
        × IsAdmitted
            (arrival 1)
            (request 7)
            i
            idle
            (submit_workorder toy (arrival 1) no_headers (request 7) idle).1)
submit_workorder_lem_example = submit_workorder_lem toy (arrival 1) no_headers (request 7) idle

abbrev reply : WorkorderId → SubmitWorkorderResponse
reply id = record {
  workorder_id = id;
  progress_ws_url = codes "ws://localhost:7654/api/v1/workorders/1/progress";
  trace_id = some (codes "t");
}

abbrev identity : ClientId → ResolvedIdentity
identity client = record { client_id = client; role = main; method = self_declared }

abbrev after_first : AppState
after_first = (submit_workorder toy (arrival 1) no_headers (request 7) idle).1

first : (submit_workorder toy (arrival 1) no_headers (request 7) idle).0 ≡ ok (reply 1)
unfolding submit_workorder validate_atom strip_first is_name_char is_package_char resolve update get
first = refl

second : (submit_workorder toy (arrival 2) no_headers (request 8) after_first).0 ≡ ok (reply 2)
unfolding submit_workorder validate_atom strip_first is_name_char is_package_char resolve update get
    insert set_active_workorder modify
second = refl

same_client :
    (submit_workorder toy (arrival 2) no_headers (request 7) after_first).0
    ≡ err (rejected (active_workorder 1))
unfolding submit_workorder validate_atom strip_first is_name_char is_package_char resolve update get
    insert set_active_workorder modify
same_client = refl

submit_workorder_exclusive_example : (identity 8).client_id ≢ (identity 7).client_id
unfolding resolve
submit_workorder_exclusive_example =
    submit_workorder_exclusive toy (arrival 1) (arrival 2) no_headers no_headers (request 7)
      (request 8) idle (reply 1) (reply 2) (identity 7) (identity 8) refl refl first second

submit_workorder-capacity_example :
    count_active (submit_workorder toy (arrival 1) no_headers (request 7) idle).1.workorders ≤ 2
unfolding count_active get
submit_workorder-capacity_example =
    submit_workorder-capacity toy (arrival 1) no_headers (request 7) idle refl (omega arith)
      (omega arith)
