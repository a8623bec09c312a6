-- ===== src/Server/Cancel/Ownership.antt =====
-- Who may read and cancel a workorder, and what a cancellation leaves behind.
use remerge.Prelude.{
  true, Option, none, some, ok, is_ok, Result-cases, arith, ◌≡◌, ◌≢◌, ◌↔◌, ◌⊎◌, inl, inr, refl,
  nat_eq, ==_iff, if◌then◌else◌, Option-cases, Bool-cases,
}
use remerge.Prelude.Dict.{get, get-modify}
use remerge.Types.Client.{ClientId, WorkorderId, DateTime, ClientState, is_authenticated_mode}
use remerge.Types.Workorder.{Workorder, pending, cancelled, status_beq, is_active_status}
use remerge.Auth.{HeaderMap, resolve_header_only}
use remerge.Registry.{clear_active_workorder}
use remerge.Server.State.{AppState, fetch_sub}
use remerge.Server.Cancel.{
  check_owner, get_workorder, authorize_cancel, cancel_active, cancel_found, cancel_workorder,
}

-- The caller may act on `w`: nobody is authenticated, or the caller is its client.
abbrev pub MayAct : HeaderMap → AppState → Workorder → Type 0
MayAct headers s w =
    is_authenticated_mode s.auth.mode ≡ true → resolve_header_only s.auth headers ≡ some w.client_id

check_owner_iff :
    (cid : Option ClientId) (w : Workorder) → (check_owner cid w ≡ ok tt) ↔ (cid ≡ some w.client_id)
unfolding check_owner
check_owner_iff none w = ground arith
check_owner_iff (some c) w = ground (arith, ==_iff c w.client_id)

-- A workorder can be read exactly when it is stored and the caller may act on it.
get_workorder-is_ok_iff :
    (headers : HeaderMap) (id : WorkorderId) (s : AppState)
    → (is_ok (get_workorder headers id s) ≡ true)
      ↔ ((w : Workorder) × (get id s.workorders ≡ some w) × MayAct headers s w)
unfolding get_workorder
get_workorder-is_ok_iff headers id s = (to, from)
  where
    to :
        is_ok (get_workorder headers id s) ≡ true
        → (w : Workorder) × (get id s.workorders ≡ some w) × MayAct headers s w
    to e = elim (Option-cases (get id s.workorders)) [
      | inl n ↦ ground arith
      | inr (w, n) ↦ elim (Result-cases (check_owner (resolve_header_only s.auth headers) w)) [
        | inl (u, owned) ↦ (w, n, λ _. (check_owner_iff _ w).0 owned)
        | inr (x, foreign) ↦ (w, n, λ on. ground arith)
      ]
    ]

    from :
        ((w : Workorder) × (get id s.workorders ≡ some w) × MayAct headers s w)
        → is_ok (get_workorder headers id s) ≡ true
    from (w, n, may) = elim (Bool-cases (is_authenticated_mode s.auth.mode)) [
      | inl on ↦ ground (arith, (check_owner_iff (resolve_header_only s.auth headers) w).1 (may on))
      | inr off ↦ ground arith
    ]

-- What a cancellation that takes effect leaves behind.
pub record IsCancelled (headers : HeaderMap) (id : WorkorderId) (s s' : AppState) : Type 0 where
  pub workorder : Workorder
  pub found : get id s.workorders ≡ some workorder
  pub active : is_active_status workorder.status ≡ true
  pub allowed : MayAct headers s workorder
  pub ends : get id s'.workorders ≡ some (record workorder { status = cancelled })
  pub others : (j : WorkorderId) → j ≢ id → get j s'.workorders ≡ get j s.workorders
  pub freed :
      (entry : ClientState)
      → get workorder.client_id s.clients ≡ some entry
      → get workorder.client_id s'.clients ≡ some (record entry { active_workorder = none })
  pub other_clients : (c : ClientId) → c ≢ workorder.client_id → get c s'.clients ≡ get c s.clients
  pub depth : s'.metrics.queue_depth ≡ (
      if status_beq workorder.status pending
      then fetch_sub s.metrics.queue_depth
      else s.metrics.queue_depth)
  pub results : s'.results ≡ s.results

authorize-MayAct :
    (headers : HeaderMap) (id : WorkorderId) (s : AppState) (w : Workorder)
    → get id s.workorders ≡ some w
    → authorize_cancel headers id s ≡ ok tt
    → MayAct headers s w
unfolding authorize_cancel
authorize-MayAct headers id s w n e on =
    (check_owner_iff (resolve_header_only s.auth headers) w).0 (ground arith)

cancel_active-IsCancelled :
    (headers : HeaderMap) (id : WorkorderId) (now : DateTime) (s : AppState) (w : Workorder)
    → get id s.workorders ≡ some w
    → is_active_status w.status ≡ true
    → MayAct headers s w
    → IsCancelled headers id s (cancel_active id now w s)
unfolding cancel_active clear_active_workorder
cancel_active-IsCancelled headers id now s w n active may = record {
  workorder = w;
  found = n;
  active = active;
  allowed = may;
  ends = rw (get-modify id id, n) (ground arith);
  others = λ j other. rw (get-modify id j) (ground arith);
  freed = λ entry known. rw (get-modify w.client_id w.client_id, known) (ground arith);
  other_clients = λ c other. rw (get-modify w.client_id c) (ground arith);
  depth = refl;
  results = refl;
}

module _ (headers : HeaderMap) (id : WorkorderId) (now : DateTime) (s : AppState) where
  -- A cancellation either changes nothing and does not answer that it cancelled, or it answers so:
  -- then the workorder was active and the caller allowed to act on it, it is now cancelled and its
  -- client free, the queue depth is one less if it was pending, and the
  -- other workorders, the other clients and the results are as before.
  pub cancel_workorder_lem :
      (((cancel_workorder headers id now s).1 ≡ s)
        × ((cancel_workorder headers id now s).0 ≢ ok true))
      ⊎ (((cancel_workorder headers id now s).0 ≡ ok true)
          × IsCancelled headers id s (cancel_workorder headers id now s).1)
  unfolding cancel_workorder cancel_found
  cancel_workorder_lem = elim (Result-cases (authorize_cancel headers id s)) [
    | inr (x, refused) ↦ inl (rw (refused, cancel_workorder) (refl, λ e. ground arith))
    | inl (u, passed) ↦ elim (Option-cases (get id s.workorders)) [
      | inl n ↦ inl (rw (passed, n, cancel_workorder) (refl, λ e. ground arith))
      | inr (w, n) ↦ elim (Bool-cases (is_active_status w.status)) [
        | inr done ↦ inl (rw (passed, n, done, cancel_workorder) (refl, λ e. ground arith))
        | inl active ↦ inr (
            rw (passed, n, active, cancel_workorder)
              (
                refl,
                cancel_active-IsCancelled headers id now s w n active
                    (authorize-MayAct headers id s w n passed),
              ))
      ]
    ]
  ]
