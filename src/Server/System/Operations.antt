-- ===== src/Server/System/Operations.antt =====
-- Each operation of the server keeps the shared state consistent.
use remerge.Prelude.{
  Bool, true, false, not, some, Bool-cases, Option-cases, arith, ◌≡◌, inl, inr, refl, nat_eq,
  ==_iff, ◌==◌,
}
use remerge.Prelude.Text.{text_eq}
use remerge.Prelude.Dict.{Dict, get, remove, modify, get-remove, passes}
use remerge.Types.Client.{WorkorderId, DateTime}
use remerge.Types.Workorder.{Workorder, WorkorderStatus, pending, provisioning, status_beq}
use remerge.Server.State.{AppState, Metrics, record_package_build, record_cleanup}
use remerge.Server.Queue.{claim, queue_turn}
use remerge.Server.Queue.Claim.{
  waits, claim-found, claim-workorders, claim-queue_depth, claim-stored, turn-claimed,
}
use remerge.Server.Queue.Effects.{
  Effect, begin_build, end_build, set_status, send, store_result, use_image, track_references,
  register_container, open_stdin, close_raw_output, count_package, count_completed, count_failed,
  add_duration, drop_container, clear_references, remove_channels, free_client, count_cleanup,
  set_workorder_status, apply,
}
use remerge.Server.System.Steps.{IsConsistent, IsConsistent-same, changed-IsConsistent, get-changed}

-- an effect that does not make a workorder pending
unfoldable pub is_calm : Effect → Bool
is_calm (set_status st) = not (status_beq st pending)
is_calm _ = true

module _ (w : Workorder) (now : DateTime) (s : AppState) (c : IsConsistent s)
    (busy : passes waits (get w.id s.workorders) ≡ false) where
  other-waiting :
      (id : WorkorderId) → passes waits (get id s.workorders) ≡ true → (w.id == id) ≡ false
  other-waiting id h = elim (Bool-cases (w.id == id)) [
    | inr other ↦ other
    | inl same ↦
        let clash : passes waits (get w.id s.workorders) ≡ true = rw ((==_iff w.id id).0 same) h in
        absurd (cc (clash, busy))
  ]

  set_status-IsConsistent :
      (st : WorkorderStatus)
      → status_beq st pending ≡ false
      → IsConsistent (set_workorder_status w now st s)
  unfolding set_workorder_status waits
  set_status-IsConsistent st calm = elim (Option-cases (get w.id s.workorders)) [
    | inl n ↦ rw (n, set_workorder_status) c
    | inr (v, n) ↦
        let idle : waits v ≡ false = rw n at busy in
        rw (n, set_workorder_status)
          (changed-IsConsistent s _ w.id (λ x. record x { status = st; updated_at = now }) v n calm
            refl refl (rw idle refl) (λ j other. refl) (λ j other. refl) c)
  ]

  keep-IsConsistent :
      (t : AppState)
      → t.workorders ≡ s.workorders
      → t.metrics.queue_depth ≡ s.metrics.queue_depth
      → t.progress_txs ≡ s.progress_txs
      → t.raw_output_txs ≡ s.raw_output_txs
      → IsConsistent t
  keep-IsConsistent t ws depth progress raw =
      IsConsistent-same s t ws depth (λ id h. rw progress refl) (λ id h. rw raw refl) c

  get-removed :
      {V : Type 0} (m : Dict WorkorderId V) (id : WorkorderId)
      → passes waits (get id s.workorders) ≡ true
      → get id (remove w.id m) ≡ get id m
  get-removed m id h = rw (get-remove w.id id, other-waiting id h) refl

  cleanup-depth : (b : Bool) (m : Metrics) → (record_cleanup b m).queue_depth ≡ m.queue_depth
  cleanup-depth true m = refl
  cleanup-depth false m = refl

  -- An effect on a workorder that is not pending.
  pub apply-IsConsistent : (e : Effect) → is_calm e ≡ true → IsConsistent (apply w now e s)
  unfolding apply is_calm record_package_build
  apply-IsConsistent (set_status st) calm = set_status-IsConsistent st (ground arith)
  apply-IsConsistent close_raw_output calm =
      IsConsistent-same s _ refl refl (λ id h. refl) (λ id h. get-removed s.raw_output_txs id h) c
  apply-IsConsistent remove_channels calm =
      IsConsistent-same s _ refl refl (λ id h. get-removed s.progress_txs id h)
        (λ id h. get-removed s.raw_output_txs id h) c
  apply-IsConsistent (count_cleanup b) calm =
      keep-IsConsistent _ refl (cleanup-depth b s.metrics) refl refl
  apply-IsConsistent begin_build calm = keep-IsConsistent _ refl refl refl refl
  apply-IsConsistent end_build calm = keep-IsConsistent _ refl refl refl refl
  apply-IsConsistent (send x) calm = keep-IsConsistent _ refl refl refl refl
  apply-IsConsistent (store_result r) calm = keep-IsConsistent _ refl refl refl refl
  apply-IsConsistent (use_image t) calm = keep-IsConsistent _ refl refl refl refl
  apply-IsConsistent (track_references r) calm = keep-IsConsistent _ refl refl refl refl
  apply-IsConsistent (register_container r) calm = keep-IsConsistent _ refl refl refl refl
  apply-IsConsistent open_stdin calm = keep-IsConsistent _ refl refl refl refl
  apply-IsConsistent (count_package a d) calm = keep-IsConsistent _ refl refl refl refl
  apply-IsConsistent count_completed calm = keep-IsConsistent _ refl refl refl refl
  apply-IsConsistent count_failed calm = keep-IsConsistent _ refl refl refl refl
  apply-IsConsistent (add_duration d) calm = keep-IsConsistent _ refl refl refl refl
  apply-IsConsistent drop_container calm = keep-IsConsistent _ refl refl refl refl
  apply-IsConsistent clear_references calm = keep-IsConsistent _ refl refl refl refl
  apply-IsConsistent free_client calm = keep-IsConsistent _ refl refl refl refl

-- No workorder becomes pending, but possibly the one with the given id.
abbrev pub NonePends : AppState → AppState → Type 0
NonePends s t =
    (id : WorkorderId)
    → passes waits (get id t.workorders) ≡ true
    → passes waits (get id s.workorders) ≡ true

pub apply-NonePends :
    (w : Workorder) (now : DateTime) (s : AppState) (e : Effect)
    → is_calm e ≡ true
    → NonePends s (apply w now e s)
unfolding apply is_calm set_workorder_status waits
apply-NonePends w now s (set_status st) calm = elim (Option-cases (get w.id s.workorders)) [
  | inl n ↦ rw (n, set_workorder_status) (λ id h. h)
  | inr (v, n) ↦
      rw (n, set_workorder_status)
        (λ id h.
          let f : Workorder → Workorder = λ x. record x { status = st; updated_at = now } in
          let t : AppState = record s { workorders = modify w.id f s.workorders } in
          (get-changed s t w.id f v n (ground arith) refl refl id h).1)
]
apply-NonePends w now s begin_build calm = λ id h. h
apply-NonePends w now s end_build calm = λ id h. h
apply-NonePends w now s (send x) calm = λ id h. h
apply-NonePends w now s (store_result r) calm = λ id h. h
apply-NonePends w now s (use_image t) calm = λ id h. h
apply-NonePends w now s (track_references r) calm = λ id h. h
apply-NonePends w now s (register_container r) calm = λ id h. h
apply-NonePends w now s open_stdin calm = λ id h. h
apply-NonePends w now s close_raw_output calm = λ id h. h
apply-NonePends w now s (count_package a d) calm = λ id h. h
apply-NonePends w now s count_completed calm = λ id h. h
apply-NonePends w now s count_failed calm = λ id h. h
apply-NonePends w now s (add_duration d) calm = λ id h. h
apply-NonePends w now s drop_container calm = λ id h. h
apply-NonePends w now s clear_references calm = λ id h. h
apply-NonePends w now s remove_channels calm = λ id h. h
apply-NonePends w now s free_client calm = λ id h. h
apply-NonePends w now s (count_cleanup b) calm = λ id h. h

module _ (now : DateTime) (s : AppState) (w : Workorder) (e : (queue_turn now s).0 ≡ some w) where
  claim-channels :
      ((claim w now s).1.progress_txs ≡ s.progress_txs)
      × ((claim w now s).1.raw_output_txs ≡ s.raw_output_txs)
  unfolding claim
  claim-channels = elim (Option-cases (get w.id s.workorders)) [
    | inl n ↦ rw (n, claim) (refl, refl)
    | inr (v, n) ↦ elim (Bool-cases (status_beq v.status pending)) [
      | inl waited ↦ rw (n, waited, claim) (refl, refl)
      | inr busy ↦ rw (n, busy, claim) (refl, refl)
    ]
  ]

  pub queue_turn-IsConsistent :
      IsConsistent s
      → IsConsistent (queue_turn now s).1
        × NonePends s (queue_turn now s).1
        × (passes waits (get w.id (queue_turn now s).1.workorders) ≡ false)
  unfolding waits
  queue_turn-IsConsistent c =
      let (n, taken, left) = turn-claimed now s w e in
      let (v, found, waited) = claim-found w now s taken in
      let (u, stored, done) = claim-stored w now s taken in
      let f : Workorder → Workorder = λ x. record x { status = provisioning; updated_at = now } in
      let (progress, raw) = claim-channels in
      let moved = claim-workorders w now s taken in
      rw left (
        changed-IsConsistent s (claim w now s).1 w.id f v found refl refl moved
            (rw waited (claim-queue_depth w now s taken)) (λ j other. rw progress refl)
            (λ j other. rw raw refl) c,
        (λ id h. (get-changed s (claim w now s).1 w.id f v found refl refl moved id h).1),
        rw (stored, done) refl,
      )
