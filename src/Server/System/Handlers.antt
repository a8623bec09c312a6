-- ===== src/Server/System/Handlers.antt =====
-- The handlers of submissions and cancellations, and the eviction, keep the shared state consistent.
use remerge.Prelude.{
  true, false, Option, none, some, List, [], ◌∷◌, Result-cases, Bool-cases, Option-cases,
  if◌then◌else◌, arith, ◌≡◌, ◌≢◌, ◌⊎◌, inl, inr, refl, ◌∙◌, nat_eq, ==_iff, ◌==◌,
}
use remerge.Prelude.Dict.{
  Dict, get, insert, get-insert, get-remove, passes, IsDistinct, insert-IsDistinct,
  remove-IsDistinct, any-pick, pick,
}
use remerge.Prelude.Counts.{count_if-insert, count_if-remove}
use remerge.Types.Client.{WorkorderId, DateTime}
use remerge.Types.Workorder.{Workorder, cancelled, is_active_status}
use remerge.Auth.{HeaderMap}
use remerge.Registry.{ClientRegistry, Hashing}
use remerge.Server.State.{AppState}
use remerge.Server.Submit.{
  Arrival, SubmitWorkorderRequest, new_workorder, admit, submit_workorder, prepare,
}
use remerge.Server.Submit.Admission.{prepare-IsPrepared}
use remerge.Server.Cancel.{authorize_cancel, cancel_active, cancel_found, cancel_workorder}
use remerge.Server.Evict.{drop_workorder, drop_all, is_stale, over_cap, evict_workorders}
use remerge.Server.Evict.Oldest.{is_among, is_ended}
use remerge.Server.Evict.Dropped.{IsSame, drop_all-IsDistinct, drop_all-other, drop_all-among}
use remerge.Server.Evict.Capped.{over_cap-ended, passes-some}
use remerge.Server.Queue.Claim.{waits}
use remerge.Server.System.Steps.{
  count_pending, IsConsistent, changed-IsConsistent, get-changed, fetch_add_follows,
}
use remerge.Server.System.Operations.{NonePends}

module _ (id : WorkorderId) (now : DateTime) (w : Workorder) (s : AppState)
    (n : get id s.workorders ≡ some w) where
  cancel_active-IsConsistent : IsConsistent s → IsConsistent (cancel_active id now w s)
  unfolding cancel_active waits
  cancel_active-IsConsistent c =
      changed-IsConsistent s (cancel_active id now w s) id (λ v. record v { status = cancelled }) w
        n refl refl refl refl (λ j other. refl) (λ j other. refl) c

  cancel_active-NonePends : NonePends s (cancel_active id now w s)
  unfolding cancel_active waits
  cancel_active-NonePends = λ j h.
      (get-changed s (cancel_active id now w s) id (λ v. record v { status = cancelled }) w n refl
        refl refl j h).1

module _ (headers : HeaderMap) (id : WorkorderId) (now : DateTime) (s : AppState) where
  -- The state after a cancellation: as before, or with the found workorder cancelled.
  cancel_workorder-cases :
      ((cancel_workorder headers id now s).1 ≡ s)
      ⊎ ((w : Workorder) × (get id s.workorders ≡ some w)
          × ((cancel_workorder headers id now s).1 ≡ cancel_active id now w s))
  unfolding cancel_workorder cancel_found
  cancel_workorder-cases = elim (Result-cases (authorize_cancel headers id s)) [
    | inr (x, e) ↦ inl (rw (e, cancel_workorder) refl)
    | inl (u, e) ↦ elim (Option-cases (get id s.workorders)) [
      | inl n ↦ inl (rw (e, cancel_workorder, n, cancel_found) refl)
      | inr (w, n) ↦ elim (Bool-cases (is_active_status w.status)) [
        | inr ended ↦ inl (rw (e, cancel_workorder, n, cancel_found, ended) refl)
        | inl active ↦ inr (w, n, rw (e, cancel_workorder, n, cancel_found, active) refl)
      ]
    ]
  ]

  pub cancel_workorder-IsConsistent :
      IsConsistent s
      → IsConsistent (cancel_workorder headers id now s).1
        × NonePends s (cancel_workorder headers id now s).1
  cancel_workorder-IsConsistent c = elim cancel_workorder-cases [
    | inl same ↦ rw same (c, λ j h. h)
    | inr (w, n, e) ↦
        rw e (cancel_active-IsConsistent id now w s n c, cancel_active-NonePends id now w s n)
  ]

-- Dropping workorders, none of which waits.
drop_all-count :
    (ids : List WorkorderId) (s : AppState)
    → IsDistinct s.workorders
    → ((id : WorkorderId) → is_among id ids ≡ true → passes waits (get id s.workorders) ≡ false)
    → count_pending (drop_all ids s).workorders ≡ count_pending s.workorders
unfolding drop_all drop_workorder
drop_all-count [] s d idle = refl
drop_all-count (i ∷ ids) s d idle =
    drop_all-count ids (drop_workorder i s) (remove-IsDistinct i s.workorders d) (λ id h.
      let before = idle id (ground arith) in
      rw (get-remove i id)
        (elim (Bool-cases (i == id)) [ inl same ↦ rw same refl | inr other ↦ rw other before ]))
    ∙ count_if-remove waits i s.workorders d (idle i (ground arith))

drop_all-metrics : (ids : List WorkorderId) (s : AppState) → (drop_all ids s).metrics ≡ s.metrics
unfolding drop_all drop_workorder
drop_all-metrics [] s = refl
drop_all-metrics (i ∷ ids) s = drop_all-metrics ids (drop_workorder i s)

module _ (ids : List WorkorderId) (s : AppState) (c : IsConsistent s)
    (idle : (id : WorkorderId)
      → is_among id ids ≡ true
      → passes waits (get id s.workorders) ≡ false) where
  drop_all-kept :
      (id : WorkorderId) (w : Workorder)
      → get id (drop_all ids s).workorders ≡ some w
      → is_among id ids ≡ false
  drop_all-kept id w n = elim (Bool-cases (is_among id ids)) [
    | inr kept ↦ kept
    | inl dropped ↦ let gone = (drop_all-among ids id s dropped).workorder in absurd (cc (gone, n))
  ]

  drop_all-waiting :
      (id : WorkorderId)
      → passes waits (get id (drop_all ids s).workorders) ≡ true
      → IsSame id s (drop_all ids s) × (passes waits (get id s.workorders) ≡ true)
  drop_all-waiting id h =
      let (w, n, _) = passes-some waits (get id (drop_all ids s).workorders) h in
      let same = drop_all-other ids id s (drop_all-kept id w n) in (same, rw (← same.workorder) h)

  drop_all-IsConsistent : IsConsistent (drop_all ids s)
  drop_all-IsConsistent = record {
    distinct = drop_all-IsDistinct ids s c.distinct;
    keyed = λ id w n.
        c.keyed id w (rw (← (drop_all-other ids id s (drop_all-kept id w n)).workorder) n);
    depth = rw (drop_all-metrics ids s, drop_all-count ids s c.distinct idle) c.depth;
    open_progress =
        λ id h. let (same, w) = drop_all-waiting id h in same.progress ∙ c.open_progress id w;
    open_raw = λ id h. let (same, w) = drop_all-waiting id h in same.raw ∙ c.open_raw id w;
  }

ended_idle : (o : Option Workorder) → passes is_ended o ≡ true → passes waits o ≡ false
unfolding is_ended waits
ended_idle none h = refl
ended_idle (some w) h = ground arith

stale_idle :
    (cutoff : DateTime) (o : Option Workorder)
    → passes (is_stale cutoff) o ≡ true
    → passes waits o ≡ false
unfolding is_stale waits
stale_idle cutoff none h = refl
stale_idle cutoff (some w) h = ground arith

module _ (cutoff : DateTime) (s : AppState) (c : IsConsistent s) where
  pub evict_workorders-IsConsistent :
      IsConsistent (evict_workorders cutoff s).1 × NonePends s (evict_workorders cutoff s).1
  unfolding evict_workorders
  evict_workorders-IsConsistent =
      let ids = pick (is_stale cutoff) s.workorders in
      let fresh = drop_all ids s in
      let more = over_cap s.config.max_retained_workorders fresh.workorders in
      let stale = λ (id : WorkorderId) (h : is_among id ids ≡ true).
        stale_idle cutoff (get id s.workorders)
          (rw (any-pick (is_stale cutoff) id s.workorders c.distinct) at h) in
      let c' = drop_all-IsConsistent ids s c stale in
      let over = λ (id : WorkorderId) (h : is_among id more ≡ true).
        ended_idle (get id fresh.workorders)
          (over_cap-ended id s.config.max_retained_workorders fresh.workorders c'.distinct h) in
      (
        drop_all-IsConsistent more fresh c' over,
        λ id h. (drop_all-waiting ids s c stale id (drop_all-waiting more fresh c' over id h).1).1,
      )

module _ (a : Arrival) (w : Workorder) (clients : ClientRegistry) (s : AppState)
    (fresh : get a.id s.workorders ≡ none) (named : w.id ≡ a.id) (new : waits w ≡ true) where
  get-admit :
      (id : WorkorderId)
      → get id (admit a w clients s).workorders
        ≡ (if a.id == id then some w else get id s.workorders)
  unfolding admit
  get-admit id = get-insert a.id id w s.workorders

  keyed-admit :
      IsConsistent s
      → (id : WorkorderId) (v : Workorder) → get id (admit a w clients s).workorders ≡ some v
      → v.id ≡ id
  keyed-admit c id v n = elim (Bool-cases (a.id == id)) [
    | inl same ↦
        let there : some w ≡ some v = rw (get-admit id, same) at n in ground (arith, ==_iff a.id id)
    | inr other ↦ c.keyed id v (rw (get-admit id, other) at n)
  ]

  open_admit :
      (txs : Dict WorkorderId (Unit {0}))
      → ((id : WorkorderId) → passes waits (get id s.workorders) ≡ true → get id txs ≡ some tt)
      → (id : WorkorderId) → passes waits (get id (admit a w clients s).workorders) ≡ true
      → get id (insert a.id tt txs) ≡ some tt
  open_admit txs were id h = elim (Bool-cases (a.id == id)) [
    | inl same ↦ rw (get-insert a.id id, same) refl
    | inr other ↦ rw (get-insert a.id id, other) (were id (rw (get-admit id, other) at h))
  ]

  admit-IsConsistent : IsConsistent s → IsConsistent (admit a w clients s)
  unfolding admit
  admit-IsConsistent c = record {
    distinct = insert-IsDistinct a.id w s.workorders c.distinct;
    keyed = keyed-admit c;
    depth =
        fetch_add_follows s.metrics.queue_depth (count_pending s.workorders) c.depth
        ∙ rw (count_if-insert waits a.id w s.workorders fresh, new) refl;
    open_progress = open_admit s.progress_txs c.open_progress;
    open_raw = open_admit s.raw_output_txs c.open_raw;
  }

module _ (h : Hashing) (a : Arrival) (headers : HeaderMap) (req : SubmitWorkorderRequest)
    (s : AppState) (fresh : get a.id s.workorders ≡ none) where
  -- No workorder but the submitted one becomes pending.
  pub submit_workorder-IsConsistent :
      IsConsistent s
      → IsConsistent (submit_workorder h a headers req s).1
        × ((id : WorkorderId)
            → a.id ≢ id
            → passes waits (get id (submit_workorder h a headers req s).1.workorders) ≡ true
            → passes waits (get id s.workorders) ≡ true)
  unfolding submit_workorder new_workorder waits
  submit_workorder-IsConsistent c = elim (Result-cases (prepare h a headers req s)) [
    | inr (x, refused) ↦ rw (refused, submit_workorder) (c, λ id other w. w)
    | inl ((w, diff, clients), prepared) ↦
        let p = prepare-IsPrepared h a headers req s w diff clients prepared in
        let named : w.id ≡ a.id = rw p.workorder refl in
        let new : waits w ≡ true = rw p.workorder refl in
        rw (prepared, submit_workorder)
          (
            admit-IsConsistent a w clients s fresh named new c,
            λ id other v.
                let differs : (a.id == id) ≡ false = ground arith in
                rw (get-admit a w clients s fresh named new id, differs) at v,
          )
  ]
