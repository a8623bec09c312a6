-- ===== src/Server/Queue/Order.antt =====
-- The order in which a client meets the effects of a workorder, and how the queue and a cancellation
-- interleave.
use remerge.Prelude.{
  Bool, true, false, ◌&&◌, some, List, [], ◌∷◌, ◌++◌, ok, is_ok, Result-cases, arith, ◌≡◌, ◌≢◌, inl,
  inr, refl, nat_eq,
}
use remerge.Prelude.Text.{Text}
use remerge.Prelude.Dict.{get}
use remerge.Types.Client.{WorkorderId, DateTime}
use remerge.Types.Workorder.{Workorder, finished, is_active_status}
use remerge.Auth.{HeaderMap}
use remerge.Server.State.{ServerConfig, AppState}
use remerge.Server.Cancel.{cancel_workorder}
use remerge.Server.Cancel.Ownership.{cancel_workorder_lem}
use remerge.Server.Queue.{claim}
use remerge.Server.Queue.Claim.{waits, claim-stale}
use remerge.Server.Queue.Effects.{Effect, send, store_result}
use remerge.Server.Queue.Process.{World, WorkerEvent, built, broken, fail_early, fail_ingest, relay}
use remerge.Server.Queue.Pipeline.{
  finish, ingest, attend, launch, build, prepare_image, process_effects,
}

-- No `Finished` event goes out before a result is stored.
unfoldable pub is_result_first : List Effect → Bool
is_result_first [] = true
is_result_first (store_result r ∷ es) = true
is_result_first (send (finished b f) ∷ es) = false
is_result_first (e ∷ es) = is_result_first es

relay-first :
    (events : List WorkerEvent) (es : List Effect)
    → is_result_first (relay events ++ es) ≡ is_result_first es
unfolding relay is_result_first
relay-first [] es = refl
relay-first (built a d ∷ events) es = relay-first events es
relay-first (broken a r ∷ events) es = relay-first events es

module _ (config : ServerConfig) (w : Workorder) (world : World) where
  ingest-first : is_result_first (ingest config w world) ≡ true
  unfolding ingest fail_ingest finish is_result_first
  ingest-first = elim (Result-cases world.parity) [
    | inr (e, bad) ↦ rw (bad, ingest) refl
    | inl (parity, good) ↦ elim (Result-cases world.distfiles) [
      | inr (e, bad) ↦ rw (good, bad, ingest) refl
      | inl (distfiles, got) ↦ rw (good, got, ingest) refl
    ]
  ]

  attend-first :
      (container_id : Text) → is_result_first (attend true config w world container_id) ≡ true
  unfolding attend is_result_first
  attend-first container_id = rw (relay-first world.events (ingest config w world)) ingest-first

  launch-first :
      is_result_first (launch true config w world) ≡ (is_ok world.staged && is_ok world.container)
  unfolding launch fail_early is_result_first
  launch-first = elim (Result-cases world.staged) [
    | inr (e, bad) ↦ rw (bad, launch) refl
    | inl (references, staged) ↦ elim (Result-cases world.container) [
      | inr (e, bad) ↦ rw (staged, bad, launch) refl
      | inl (container_id, started) ↦ rw (staged, started, launch) (attend-first container_id)
    ]
  ]

  -- With both channels open, the result is stored before `Finished` goes out exactly if the
  -- container was started: the failures before that send `Finished` first.
  pub process_effects-result_first :
      is_result_first (process_effects true true config w world)
      ≡ (is_ok (prepare_image world) && is_ok world.staged && is_ok world.container)
  unfolding process_effects build fail_early is_result_first
  process_effects-result_first = elim (Result-cases (prepare_image world)) [
    | inr (e, bad) ↦ rw (bad, build, process_effects) refl
    | inl (u, good) ↦ rw (good, build, process_effects) launch-first
  ]

-- A cancellation of a workorder that is not active changes nothing.
cancel-inactive :
    (headers : HeaderMap) (id : WorkorderId) (now : DateTime) (s : AppState) (w : Workorder)
    → get id s.workorders ≡ some w
    → is_active_status w.status ≡ false
    → ((cancel_workorder headers id now s).1 ≡ s)
      × ((cancel_workorder headers id now s).0 ≢ ok true)
cancel-inactive headers id now s w n ended = elim (cancel_workorder_lem headers id now s) [
  | inl unchanged ↦ unchanged
  | inr (_, c) ↦ ground (arith, c.found, c.active)
]

-- A workorder that a cancellation has ended is not claimed by the queue afterwards, and a second
-- cancellation does not end it again and changes nothing.
pub cancel_workorder-final :
    (headers headers' : HeaderMap) (id : WorkorderId) (now after later : DateTime) (s : AppState)
    (w : Workorder)
    → (cancel_workorder headers id now s).0 ≡ ok true
    → w.id ≡ id
    → (claim w later (cancel_workorder headers id now s).1
        ≡ (false, (cancel_workorder headers id now s).1))
      × ((cancel_workorder headers' id after (cancel_workorder headers id now s).1).1
          ≡ (cancel_workorder headers id now s).1)
      × ((cancel_workorder headers' id after (cancel_workorder headers id now s).1).0 ≢ ok true)
unfolding waits
cancel_workorder-final headers headers' id now after later s w e same =
    elim (cancel_workorder_lem headers id now s) [
      | inl (_, other) ↦ elim (other e) [ ]
      | inr (_, c) ↦
          let (same_state, not_again) =
            cancel-inactive headers' id after (cancel_workorder headers id now s).1 _ c.ends refl in
          (
            claim-stale w later (cancel_workorder headers id now s).1
                (λ v n. ground (arith, c.ends)),
            same_state,
            not_again,
          )
    ]
