-- ===== src/Server/Restart/Recovery.antt =====
-- What a restart makes of the saved workorders and clients.

use remerge.Prelude.{
  is_ok, ◌∙◌, ◌-◌, Bool, true, false, ◌&&◌, none, some, List, [], ◌∷◌, if◌then◌else◌, arith, ◌≡◌,
  ◌⊎◌, inl, inr, refl, ap, nat_eq, ◌==◌, ==_iff, any, keep_if, Bool-cases,
}
use remerge.Prelude.Dict.{Dict, get, get-insert, get-map_values, keys, any-keys, passes}
use remerge.Types.Client.{main, ClientId, WorkorderId, DateTime, ClientState}
use remerge.Types.Workorder.{
  Workorder, WorkorderStatus, pending, provisioning, building, completed, cancelled, failed,
  is_active_status,
}
use remerge.Auth.{CertRegistry}
use remerge.Registry.{Hashing, hash_json, update}
use remerge.Registry.Admission.{IsAdmissible, update-is_ok_iff}
use remerge.Types.Portage.{PortageConfig, SystemIdentity}
use remerge.Server.State.{ServerConfig, AppState, u64_mod}
use remerge.Server.Restart.{
  Saved, unwrap_or_default, reset_in_flight, is_in_flight, load_workorders, load_clients,
  is_waiting, open_channels, restart,
}
use remerge.Server.Queue.{queue_turn}
use remerge.Server.Queue.Claim.{queue_turn-oldest}

any-keep_if :
    (p : WorkorderId → Bool) (id : WorkorderId) (ids : List WorkorderId)
    → any (λ i. i == id) (keep_if p ids) ≡ (any (λ i. i == id) ids && p id)
any-keep_if p id [] = refl
any-keep_if p id (i ∷ ids) = elim (Bool-cases (i == id)) [
  | inl same ↦ ground (arith, any-keep_if p id ids, ap p ((==_iff i id).0 same))
  | inr other ↦ ground (arith, any-keep_if p id ids)
]

get-open_channels :
    (id : WorkorderId) (ids : List WorkorderId)
    → get id (open_channels ids) ≡ (if any (λ i. i == id) ids then some tt else none)
unfolding open_channels get
get-open_channels id [] = refl
get-open_channels id (i ∷ ids) =
    ground (arith, get-insert i id tt (open_channels ids), get-open_channels id ids)

in_flight-cases :
    (st : WorkorderStatus)
    → ((is_in_flight st ≡ true) × (is_active_status st ≡ true))
      ⊎ ((is_in_flight st ≡ false) × ((is_active_status st ≡ false) ⊎ (st ≡ pending)))
in_flight-cases pending = inr (refl, inr refl)
in_flight-cases provisioning = inl (refl, refl)
in_flight-cases building = inl (refl, refl)
in_flight-cases completed = inr (refl, inl refl)
in_flight-cases (failed r) = inr (refl, inl refl)
in_flight-cases cancelled = inr (refl, inl refl)

module _ (now : DateTime) (w : Workorder) where
  reset-active : is_active_status w.status ≡ true → (reset_in_flight now w).status ≡ pending
  reset-active active = elim (in_flight-cases w.status) [
    | inl (flying, _) ↦ rw flying refl
    | inr (_, inl over) ↦ ground arith
    | inr (grounded, inr waits) ↦ rw grounded waits
  ]

  reset-over : is_active_status w.status ≡ false → reset_in_flight now w ≡ w
  reset-over over = elim (in_flight-cases w.status) [
    | inl (_, active) ↦ ground arith
    | inr (grounded, _) ↦ rw grounded refl
  ]

  reset-waiting : is_waiting (reset_in_flight now w) ≡ is_active_status w.status
  unfolding is_waiting
  reset-waiting = elim (Bool-cases (is_active_status w.status)) [
    | inl active ↦ rw (reset-active active, active) refl
    | inr over ↦ rw (reset-over over) refl
  ]

reset-owner : (now : DateTime) (w : Workorder) → (reset_in_flight now w).client_id ≡ w.client_id
reset-owner now w = ground arith

waiting_keys :
    (id : WorkorderId) (v : Workorder) (ws : Dict WorkorderId Workorder)
    → get id ws ≡ some v
    → any (λ i. i == id) (keep_if (λ i. passes is_waiting (get i ws)) (keys ws)) ≡ is_waiting v
waiting_keys id v ws n =
    rw (any-keep_if (λ i. passes is_waiting (get i ws)) id (keys ws), any-keys id ws, n) refl

-- A saved workorder after the restart: pending if it had not ended, with its channels open, and
-- otherwise as it was saved.
pub record IsRecovered (now : DateTime) (id : WorkorderId) (w : Workorder) (s : AppState)
    : Type 0 where
  pub stored : get id s.workorders ≡ some (reset_in_flight now w)
  pub progress : get id s.progress_txs ≡ (if is_active_status w.status then some tt else none)
  pub raw : get id s.raw_output_txs ≡ (if is_active_status w.status then some tt else none)
  pub waits : is_active_status w.status ≡ true → (reset_in_flight now w).status ≡ pending
  pub over : is_active_status w.status ≡ false → reset_in_flight now w ≡ w

module _ (config : ServerConfig) (auth : CertRegistry) (now : DateTime) (saved : Saved) where
  -- After a restart every saved workorder that had not ended waits with both of its channels open,
  -- and one that had ended is as it was saved.
  pub restart-IsRecovered :
      (id : WorkorderId) (w : Workorder)
      → get id (unwrap_or_default saved.workorders) ≡ some w
      → IsRecovered now id w (restart config auth now saved)
  unfolding restart load_workorders
  restart-IsRecovered id w n =
      let ws = load_workorders now saved in
      let loaded : get id ws ≡ some (reset_in_flight now w) =
        rw (get-map_values (reset_in_flight now) id, n) refl in
      let channel : get id (open_channels (keep_if (λ i. passes is_waiting (get i ws)) (keys ws)))
          ≡ (if is_active_status w.status then some tt else none) =
        rw
          (
            get-open_channels id,
            waiting_keys id (reset_in_flight now w) ws loaded,
            reset-waiting now w,
          )
          refl in
      record {
        stored = loaded;
        progress = channel;
        raw = channel;
        waits = reset-active now w;
        over = reset-over now w;
      }

  restart-free :
      (c : ClientId) (entry : ClientState)
      → get c (unwrap_or_default saved.clients) ≡ some entry
      → get c (restart config auth now saved).clients
        ≡ some (record entry { active_workorder = none })
  unfolding restart load_clients
  restart-free c entry n =
      rw (get-map_values (λ (x : ClientState). record x { active_workorder = none }) c, n) refl

  -- After a restart a known client is admitted again as a main client, even while a workorder of its
  -- own waits to be built again.
  pub restart-readmits :
      (h : Hashing) (c : ClientId) (entry : ClientState) (id : WorkorderId) (w : Workorder)
      (portage_config : PortageConfig) (system_id : SystemIdentity)
      → get c (unwrap_or_default saved.clients) ≡ some entry
      → get id (unwrap_or_default saved.workorders) ≡ some w
      → w.client_id ≡ c
      → is_active_status w.status ≡ true
      → (is_ok
            (update h c main portage_config system_id now (restart config auth now saved).clients)
          ≡ true)
        × ((v : Workorder) × (get id (restart config auth now saved).workorders ≡ some v)
            × (v.status ≡ pending)
            × (v.client_id ≡ c))
  restart-readmits h c entry id w portage_config system_id known n owner active =
      let back = restart-IsRecovered id w n in
      let free = restart-free c entry known in
      let admitted : IsAdmissible (get c (restart config auth now saved).clients) main
          (hash_json h.sha256_hex (h.config_json portage_config))
          (hash_json h.sha256_hex (h.system_json system_id)) =
        rw free (refl, λ e. cc) in
      (
        (update-is_ok_iff h c main portage_config system_id now
              (restart config auth now saved).clients).1
            admitted,
        (reset_in_flight now w, back.stored, back.waits active, reset-owner now w ∙ owner),
      )

  -- The first workorder that the queue takes up after a restart wraps the queue depth around, since
  -- the depth starts at 0 however many workorders wait.
  pub restart-queue_depth :
      (later : DateTime) (w : Workorder)
      → (queue_turn later (restart config auth now saved)).0 ≡ some w
      → (queue_turn later (restart config auth now saved)).1.metrics.queue_depth ≡ u64_mod - 1
  unfolding restart
  restart-queue_depth later w e =
      (queue_turn-oldest later (restart config auth now saved) w e).depth
