-- ===== src/Server/Queue/Kept.antt =====
-- What the effects of a running build keep of the shared state.
use remerge.Prelude.{
  Bool, true, false, some, List, [], ◌∷◌, ◌++◌, arith, ◌≡◌, ◌≢◌, refl, ◌∙◌, nat_eq, All,
}
use remerge.Prelude.Dict.{get, get-insert, get-modify}
use remerge.Types.Client.{WorkorderId, DateTime}
use remerge.Types.Workorder.{Workorder, WorkorderStatus}
use remerge.Server.State.{AppState, record_package_build}
use remerge.Server.Queue.Effects.{
  Effect, set_status, send, store_result, use_image, track_references, register_container,
  open_stdin, close_raw_output, count_package, set_workorder_status, apply, run,
}
use remerge.Server.Queue.Process.{built, broken, WorkerEvent, relay}

pub run-append :
    (w : Workorder) (now : DateTime) (xs ys : List Effect) (s : AppState)
    → run w now (xs ++ ys) s ≡ run w now ys (run w now xs s)
unfolding run
run-append w now [] ys s = refl
run-append w now (x ∷ xs) ys s = run-append w now xs ys (apply w now x s)

-- What the effects of a running build keep: its workorder is stored, and the other workorders and
-- results, the clients and the number of builds are as before.
pub record IsKept (w : Workorder) (s s' : AppState) : Type 0 where
  pub current : Workorder
  pub stored : get w.id s'.workorders ≡ some current
  pub others : (j : WorkorderId) → j ≢ w.id → get j s'.workorders ≡ get j s.workorders
  pub results : (j : WorkorderId) → j ≢ w.id → get j s'.results ≡ get j s.results
  pub clients : s'.clients ≡ s.clients
  pub active : s'.metrics.builds_active ≡ s.metrics.builds_active

-- the effects that do so
unfoldable pub is_kept : Effect → Bool
is_kept (set_status st) = true
is_kept (send e) = true
is_kept (store_result r) = true
is_kept (use_image t) = true
is_kept (track_references r) = true
is_kept (register_container c) = true
is_kept open_stdin = true
is_kept close_raw_output = true
is_kept (count_package a d) = true
is_kept _ = false

module _ (w : Workorder) (now : DateTime) where
  pub set_status-IsKept :
      (st : WorkorderStatus) (s : AppState) (v : Workorder)
      → get w.id s.workorders ≡ some v
      → IsKept w s (set_workorder_status w now st s)
  unfolding set_workorder_status
  set_status-IsKept st s v n =
      rw (n, set_workorder_status)
        (record {
          current = record v { status = st; updated_at = now };
          stored = rw (get-modify w.id w.id, n) (ground arith);
          others = λ j other. rw (get-modify w.id j) (ground arith);
          results = λ j other. refl;
          clients = refl;
          active = refl;
        })

  same-IsKept :
      (s s' : AppState) (v : Workorder)
      → get w.id s.workorders ≡ some v
      → s'.workorders ≡ s.workorders
      → s'.results ≡ s.results
      → s'.clients ≡ s.clients
      → s'.metrics.builds_active ≡ s.metrics.builds_active
      → IsKept w s s'
  same-IsKept s s' v n ws rs cs active = record {
    current = v;
    stored = rw ws n;
    others = λ j other. rw ws refl;
    results = λ j other. rw rs refl;
    clients = cs;
    active = active;
  }

  apply-IsKept :
      (e : Effect) (s : AppState) (v : Workorder)
      → is_kept e ≡ true
      → get w.id s.workorders ≡ some v
      → IsKept w s (apply w now e s)
  unfolding apply is_kept record_package_build
  apply-IsKept (set_status st) s v k n = set_status-IsKept st s v n
  apply-IsKept (store_result r) s v k n = record {
    current = v;
    stored = n;
    others = λ j other. refl;
    results = λ j other. rw (get-insert w.id j) (ground arith);
    clients = refl;
    active = refl;
  }
  apply-IsKept (send x) s v k n = same-IsKept s _ v n refl refl refl refl
  apply-IsKept (use_image t) s v k n = same-IsKept s _ v n refl refl refl refl
  apply-IsKept (track_references r) s v k n = same-IsKept s _ v n refl refl refl refl
  apply-IsKept (register_container c) s v k n = same-IsKept s _ v n refl refl refl refl
  apply-IsKept open_stdin s v k n = same-IsKept s _ v n refl refl refl refl
  apply-IsKept close_raw_output s v k n = same-IsKept s _ v n refl refl refl refl
  apply-IsKept (count_package a d) s v k n = same-IsKept s _ v n refl refl refl refl
  apply-IsKept _ s v k n = ground arith

  pub IsKept-trans : (s t u : AppState) → IsKept w s t → IsKept w t u → IsKept w s u
  IsKept-trans s t u a b = record {
    current = b.current;
    stored = b.stored;
    others = λ j other. b.others j other ∙ a.others j other;
    results = λ j other. b.results j other ∙ a.results j other;
    clients = b.clients ∙ a.clients;
    active = b.active ∙ a.active;
  }

  pub run-IsKept :
      (es : List Effect) (s : AppState) (v : Workorder)
      → All (λ e. is_kept e ≡ true) es
      → get w.id s.workorders ≡ some v
      → IsKept w s (run w now es s)
  unfolding run
  run-IsKept [] s v k n = same-IsKept s s v n refl refl refl refl
  run-IsKept (e ∷ es) s v k n =
      let first = apply-IsKept e s v k.0 n in
      IsKept-trans s (apply w now e s) (run w now es (apply w now e s)) first
        (run-IsKept es (apply w now e s) first.current k.1 first.stored)

pub relay-kept : (events : List WorkerEvent) → All (λ e. is_kept e ≡ true) (relay events)
unfolding relay is_kept
relay-kept [] = tt
relay-kept (built a d ∷ events) = (refl, (refl, relay-kept events))
relay-kept (broken a r ∷ events) = (refl, relay-kept events)
