-- ===== src/Server/System/Tests.antt =====
-- A run of the server: a submission, its taking up by the queue, and a cancellation.
use remerge.Prelude.{some, [], ◌∷◌, ◌≡◌, true, refl, nat_eq}
use remerge.Prelude.Text.{codes, strip_first}
use remerge.Prelude.Dict.{get, insert, modify, map_values}
use remerge.Atom.{validate_atom, is_package_char, is_name_char}
use remerge.Auth.{resolve}
use remerge.Types.Samples.{config, host}
use remerge.Types.Client.{main}
use remerge.Types.Workorder.{Workorder, pending}
use remerge.Registry.{update, set_active_workorder}
use remerge.Server.State.{create_progress_channel}
use remerge.Server.Submit.{submit_workorder}
use remerge.Server.Cancel.{cancel_workorder}
use remerge.Server.Queue.{queue_turn}
use remerge.Server.Restart.{restart}
use remerge.Server.Samples.{toy, arrival, no_headers, request, settings, open_auth, good_world}
use remerge.Server.System.{System, Step, Reach, boot}
use remerge.Server.System.Steps.{IsConsistent}
use remerge.Server.System.Invariant.{Reach-IsConsistent}

abbrev booted : System
booted = boot settings open_auth 0

abbrev submitted : System
submitted = record booted {
  state = (submit_workorder toy (arrival 1) no_headers (request 7) booted.state).1;
}

abbrev submitted_order : Workorder
submitted_order = record {
  id = 1;
  client_id = 7;
  role = main;
  atoms = codes "dev-libs/openssl" ∷ [];
  emerge_args = [];
  portage_config = config (codes "p");
  system_id = host;
  trace_context = some (arrival 1).trace_context;
  status = pending;
  created_at = 10;
  updated_at = 10;
}

take_up_first : (queue_turn 11 submitted.state).0 ≡ some submitted_order
unfolding submit_workorder validate_atom strip_first is_name_char is_package_char resolve update get
    insert set_active_workorder modify queue_turn restart create_progress_channel map_values
take_up_first = refl

submit_first : Step booted submitted
unfolding restart get map_values
submit_first =
    Step.submit booted toy (arrival 1) no_headers (request 7)
      (record { unstored = refl; unused = tt })

Reach-IsConsistent_example :
    IsConsistent (cancel_workorder no_headers 1 12 (queue_turn 11 submitted.state).1).1
Reach-IsConsistent_example = Reach-IsConsistent settings open_auth 0 _ (
    Reach.next
      (Reach.next (Reach.next Reach.here submit_first)
        (Step.take_up submitted 11 submitted_order true true good_world take_up_first))
      (Step.cancel _ no_headers 1 12))
