-- ===== src/Server/Queue/Claim.antt =====
-- The claim of the queue: which workorder it takes, and that it takes it once.
use remerge.Prelude.{
  ◌≤◌, Bool, true, false, none, some, [], ◌∷◌, arith, ◌≡◌, ◌≢◌, inl, inr, refl, nat_eq,
  Option-cases, Bool-cases, leb, All,
}
use remerge.Prelude.Dict.{Dict, get, modify, get-modify}
use remerge.Types.Client.{WorkorderId, DateTime}
use remerge.Types.Workorder.{Workorder, pending, provisioning, status_beq}
use remerge.Server.State.{AppState, fetch_sub}
use remerge.Server.Queue.{next_pending, claim, with_claimed, queue_turn}

unfoldable pub waits : Workorder → Bool
waits w = status_beq w.status pending

-- `w` waits, and no waiting one of `ws` was created before it.
abbrev pub Leads : Workorder → Dict WorkorderId Workorder → Type 0
Leads w = All (λ (kv : WorkorderId × Workorder). waits kv.1 ≡ true → w.created_at ≤ kv.1.created_at)

Leads-of_earlier :
    (w v : Workorder) (ws : Dict WorkorderId Workorder)
    → w.created_at ≤ v.created_at
    → Leads v ws
    → Leads w ws
Leads-of_earlier w v [] le h = tt
Leads-of_earlier w v (kv ∷ ws) le h =
    ((λ waiting. omega (arith, h.0 waiting)), Leads-of_earlier w v ws le h.1)

none_waits : (w : Workorder) (ws : Dict WorkorderId Workorder) → next_pending ws ≡ none → Leads w ws
unfolding next_pending waits
none_waits w [] e = tt
none_waits w ((id, v) ∷ ws) e = elim (Bool-cases (waits v)) [
  | inl waiting ↦ ground arith
  | inr busy ↦ ((λ waiting. ground arith), none_waits w ws (ground arith))
]

pub next_pending-oldest :
    (ws : Dict WorkorderId Workorder) (w : Workorder)
    → next_pending ws ≡ some w
    → (waits w ≡ true) × Leads w ws
unfolding next_pending waits
next_pending-oldest [] w e = ground arith
next_pending-oldest ((id, v) ∷ ws) w e = elim (Bool-cases (waits v)) [
  | inl waiting ↦ elim (Option-cases (next_pending ws)) [
    | inl n ↦ ground (arith, none_waits w ws n)
    | inr (u, n) ↦ elim (Bool-cases (leb v.created_at u.created_at)) [
      | inl le ↦
          let tail = Leads-of_earlier v u ws (ground arith) (next_pending-oldest ws u n).1 in
          ground arith
      | inr gt ↦ ground (arith, next_pending-oldest ws u n)
    ]
  ]
  | inr busy ↦
      let (waiting, leads) = next_pending-oldest ws w (ground arith) in
      (waiting, ((λ h. ground arith), leads))
]

-- A claim that succeeds found the workorder pending.
pub claim-found :
    (w : Workorder) (now : DateTime) (s : AppState)
    → (claim w now s).0 ≡ true
    → (v : Workorder) × (get w.id s.workorders ≡ some v) × (waits v ≡ true)
unfolding claim waits
claim-found w now s e = elim (Option-cases (get w.id s.workorders)) [
  | inl n ↦ ground arith
  | inr (v, n) ↦ elim (Bool-cases (waits v)) [
    | inl waiting ↦ (v, n, waiting)
    | inr busy ↦ ground arith
  ]
]

-- A workorder that is gone or no longer pending is not claimed, and nothing changes.
pub claim-stale :
    (w : Workorder) (now : DateTime) (s : AppState)
    → ((v : Workorder) → get w.id s.workorders ≡ some v → waits v ≡ false)
    → claim w now s ≡ (false, s)
unfolding claim waits
claim-stale w now s stale = elim (Option-cases (get w.id s.workorders)) [
  | inl n ↦ ground arith
  | inr (v, n) ↦ ground (arith, stale v n)
]

module _ (w : Workorder) (now : DateTime) (s : AppState) where
  pub claim-workorders :
      (claim w now s).0 ≡ true
      → (claim w now s).1.workorders
        ≡ modify w.id (λ v. record v { status = provisioning; updated_at = now }) s.workorders
  unfolding claim waits
  claim-workorders e = let (v, n, waiting) = claim-found w now s e in ground arith

  pub claim-queue_depth :
      (claim w now s).0 ≡ true
      → (claim w now s).1.metrics.queue_depth ≡ fetch_sub s.metrics.queue_depth
  unfolding claim waits
  claim-queue_depth e = let (v, n, waiting) = claim-found w now s e in ground arith

-- After a claim that succeeds, what the workorder is stored as.
pub claim-stored :
    (w : Workorder) (now : DateTime) (s : AppState)
    → (claim w now s).0 ≡ true
    → (v : Workorder) × (get w.id (claim w now s).1.workorders ≡ some v) × (v.status ≡ provisioning)
claim-stored w now s e =
    let (v, n, waiting) = claim-found w now s e in
    (
      record v { status = provisioning; updated_at = now },
      rw (claim-workorders w now s e, get-modify w.id w.id, n) (ground arith),
      refl,
    )

-- Once a claim of a workorder has succeeded, a second claim of it fails and changes nothing.
pub claim_once :
    (w v : Workorder) (now later : DateTime) (s : AppState)
    → (claim w now s).0 ≡ true
    → v.id ≡ w.id
    → claim v later (claim w now s).1 ≡ (false, (claim w now s).1)
unfolding waits
claim_once w v now later s e same =
    let (u, stored, taken) = claim-stored w now s e in
    claim-stale v later (claim w now s).1 (λ x n. ground arith)

-- What a turn of the queue that claims `w` has done.
pub record IsTurn (now : DateTime) (s s' : AppState) (w : Workorder) : Type 0 where
  pub waited : waits w ≡ true
  pub oldest : Leads w s.workorders
  pub taken : (v : Workorder) × (get w.id s'.workorders ≡ some v) × (v.status ≡ provisioning)
  pub others : (id : WorkorderId) → id ≢ w.id → get id s'.workorders ≡ get id s.workorders
  pub depth : s'.metrics.queue_depth ≡ fetch_sub s.metrics.queue_depth

with_claimed-some :
    (v w : Workorder) (r : Bool × AppState)
    → (with_claimed v r).0 ≡ some w
    → (v ≡ w) × (r.0 ≡ true) × ((with_claimed v r).1 ≡ r.1)
unfolding with_claimed
with_claimed-some v w (true, s) e = (ground arith, refl, refl)
with_claimed-some v w (false, s) e = ground arith

pub turn-claimed :
    (now : DateTime) (s : AppState) (w : Workorder)
    → (queue_turn now s).0 ≡ some w
    → (next_pending s.workorders ≡ some w)
      × ((claim w now s).0 ≡ true)
      × ((queue_turn now s).1 ≡ (claim w now s).1)
unfolding queue_turn
turn-claimed now s w e = elim (Option-cases (next_pending s.workorders)) [
  | inl n ↦ ground arith
  | inr (v, n) ↦
      let (same, taken, left) = with_claimed-some v w (claim v now s) (rw (n, queue_turn) at e) in
      (rw (← same) n, rw (← same) taken, rw (n, queue_turn, ← same) left)
]

-- A turn of the queue that takes up a workorder takes a pending one that no pending one precedes,
-- leaves it provisioning, takes one off the queue depth, and leaves the other workorders as they were.
pub queue_turn-oldest :
    (now : DateTime) (s : AppState) (w : Workorder)
    → (queue_turn now s).0 ≡ some w
    → IsTurn now s (queue_turn now s).1 w
queue_turn-oldest now s w e =
    let (n, c, left) = turn-claimed now s w e in
    let (waiting, leads) = next_pending-oldest s.workorders w n in
    rw left (record {
      waited = waiting;
      oldest = leads;
      taken = claim-stored w now s c;
      others = λ id other. rw (claim-workorders w now s c, get-modify w.id id) (ground arith);
      depth = claim-queue_depth w now s c;
    })
