-- ===== src/Registry/Admission.antt =====
-- Who is admitted by `ClientRegistry::update`, and what an admission leaves in the registry.

use remerge.Prelude.{
  true, false, Option, none, some, ok, err, is_ok, is_ok-map_ok, map_ok-eq-ok, arith, ◌≡◌, ◌≢◌, ◌↔◌,
  refl, ap, nat_eq,
}
use remerge.Prelude.Text.{Text, text_beq_iff}
use remerge.Prelude.Dict.{get, get-insert, get-modify}
use remerge.Types.Client.{
  ClientId, WorkorderId, DateTime, ClientRole, main, follower, ClientState, ConfigDiff,
}
use remerge.Types.Portage.{PortageConfig, SystemIdentity}
use remerge.Registry.{
  ClientRegistry, active_workorder, Hashing, hash_json, check, store, update, set_active_workorder,
  clear_active_workorder,
}

-- The admission rule: an unknown client must be a main client; a known one must have no active
-- workorder, and a follower must present the configuration that is stored.
abbrev pub IsAdmissible : Option ClientState → ClientRole → Text → Text → Type 0
IsAdmissible none role config_hash system_hash = role ≡ main
IsAdmissible (some s) role config_hash system_hash =
    (s.active_workorder ≡ none)
    × (role ≡ follower → (s.config_hash ≡ config_hash) × (s.system_hash ≡ system_hash))

check_iff :
    (o : Option ClientState) (role : ClientRole) (ch sh : Text)
    → (is_ok (check o role ch sh) ≡ true) ↔ IsAdmissible o role ch sh
unfolding check
check_iff none main ch sh = (λ _. refl, λ _. refl)
check_iff none follower ch sh = (λ h. cc, λ h. cc)
check_iff (some s) main ch sh = ground arith
check_iff (some s) follower ch sh =
    ground (arith, text_beq_iff s.config_hash ch, text_beq_iff s.system_hash sh)

-- What the registry records of an admitted client.
pub record IsRecorded (o : Option ClientState) (config_hash system_hash : Text) (now : DateTime)
    : Type 0 where
  pub entry : ClientState
  pub known : o ≡ some entry
  pub config : entry.config_hash ≡ config_hash
  pub system : entry.system_hash ≡ system_hash
  pub seen : entry.last_seen ≡ now
  pub idle : entry.active_workorder ≡ none

store-IsRecorded :
    (cid : ClientId) (role : ClientRole) (ch sh : Text) (now : DateTime) (clients : ClientRegistry)
    (o : Option ClientState)
    → get cid clients ≡ o
    → IsAdmissible o role ch sh
    → IsRecorded (get cid (store cid role ch sh now clients)) ch sh now
unfolding store
store-IsRecorded cid main ch sh now clients o e a = record {
  entry = record {
    client_id = cid;
    config_hash = ch;
    system_hash = sh;
    last_seen = now;
    active_workorder = none;
  };
  known = ground (
    arith,
    get-insert cid cid
        (record {
          client_id = cid;
          config_hash = ch;
          system_hash = sh;
          last_seen = now;
          active_workorder = none;
        })
        clients,
  );
  config = refl;
  system = refl;
  seen = refl;
  idle = refl;
}
store-IsRecorded cid follower ch sh now clients none e a = cc
store-IsRecorded cid follower ch sh now clients (some s) e a = record {
  entry = record s { last_seen = now };
  known = rw (get-modify cid cid, e) (ground arith);
  config = (a.1 refl).0;
  system = (a.1 refl).1;
  seen = refl;
  idle = a.0;
}

get-store_ne :
    (cid j : ClientId) (role : ClientRole) (ch sh : Text) (now : DateTime)
    (clients : ClientRegistry)
    → j ≢ cid
    → get j (store cid role ch sh now clients) ≡ get j clients
unfolding store
get-store_ne cid j main ch sh now clients d = rw (get-insert cid j) (ground arith)
get-store_ne cid j follower ch sh now clients d = rw (get-modify cid j) (ground arith)

module _ (h : Hashing) (cid : ClientId) (role : ClientRole) (config : PortageConfig)
    (system : SystemIdentity) (now : DateTime) (clients : ClientRegistry) where
  abbrev config_hash : Text
  config_hash = hash_json h.sha256_hex (h.config_json config)

  abbrev system_hash : Text
  system_hash = hash_json h.sha256_hex (h.system_json system)

  -- A submission is admitted exactly when the admission rule allows it for the stored entry and
  -- the hashes of the presented configuration and system.
  pub update-is_ok_iff :
      (is_ok (update h cid role config system now clients) ≡ true)
      ↔ IsAdmissible (get cid clients) role config_hash system_hash
  unfolding update
  update-is_ok_iff =
      rw (is_ok-map_ok _ (check (get cid clients) role config_hash system_hash))
        (check_iff (get cid clients) role config_hash system_hash)

  update-eq-ok :
      (diff : ConfigDiff) (clients' : ClientRegistry)
      → update h cid role config system now clients ≡ ok (diff, clients')
      → (check (get cid clients) role config_hash system_hash ≡ ok diff)
        × (store cid role config_hash system_hash now clients ≡ clients')
  unfolding update
  update-eq-ok diff clients' e =
      let (d, accepted, same) =
        map_ok-eq-ok _ (check (get cid clients) role config_hash system_hash) e in
      (ground arith, ap (λ (p : ConfigDiff × ClientRegistry). p.1) same)

  -- An admission leaves the entries of other clients as they were. Its own client is known
  -- afterwards, with the presented hashes, seen now, and without an active workorder.
  pub update-IsRecorded :
      (diff : ConfigDiff) (clients' : ClientRegistry)
      → update h cid role config system now clients ≡ ok (diff, clients')
      → ((j : ClientId) → j ≢ cid → get j clients' ≡ get j clients)
        × IsRecorded (get cid clients') config_hash system_hash now
  update-IsRecorded diff clients' e =
      let (accepted, same) = update-eq-ok diff clients' e in
      let allowed =
        (check_iff (get cid clients) role config_hash system_hash).0 (ap is_ok accepted) in
      rw (← same) (
        λ j d. get-store_ne cid j role config_hash system_hash now clients d,
        store-IsRecorded cid role config_hash system_hash now clients (get cid clients) refl
            allowed,
      )

abbrev pub unchanged : ConfigDiff
unchanged = record { portage_changed = false; system_changed = false }

check_same :
    (s : ClientState) (role : ClientRole)
    → s.active_workorder ≡ none
    → check (some s) role s.config_hash s.system_hash ≡ ok unchanged
unfolding check
check_same s main idle =
    ground
      (arith, text_beq_iff s.config_hash s.config_hash, text_beq_iff s.system_hash s.system_hash)
check_same s follower idle =
    ground
      (arith, text_beq_iff s.config_hash s.config_hash, text_beq_iff s.system_hash s.system_hash)

module _ (h : Hashing) (cid : ClientId) (clients : ClientRegistry) (s : ClientState)
    (known : get cid clients ≡ some s) where
  get-set_active :
      (w : WorkorderId)
      → get cid (set_active_workorder cid w clients) ≡ some (record s { active_workorder = some w })
  unfolding set_active_workorder
  get-set_active w = rw (get-modify cid cid, known) (ground arith)

  -- While a known client has an active workorder, every submission under its identity is refused
  -- and names that workorder, whatever the role, the configuration and the system.
  pub update-set_active :
      (w : WorkorderId) (role : ClientRole) (config : PortageConfig) (system : SystemIdentity)
      (now : DateTime)
      → update h cid role config system now (set_active_workorder cid w clients)
        ≡ err (active_workorder w)
  unfolding update check
  update-set_active w role config system now = rw (get-set_active w) refl

  get-clear_active :
      get cid (clear_active_workorder cid clients) ≡ some (record s { active_workorder = none })
  unfolding clear_active_workorder
  get-clear_active = rw (get-modify cid cid, known) (ground arith)

  -- Once the active workorder of a known client is cleared, a submission with the stored hashes is
  -- admitted in either role, reports that nothing changed, and leaves the client idle and known.
  update-clear_active :
      (role : ClientRole) (config : PortageConfig) (system : SystemIdentity) (now : DateTime)
      → hash_json h.sha256_hex (h.config_json config) ≡ s.config_hash
      → hash_json h.sha256_hex (h.system_json system) ≡ s.system_hash
      → update h cid role config system now (clear_active_workorder cid clients)
        ≡ ok (
          unchanged,
          store cid role s.config_hash s.system_hash now (clear_active_workorder cid clients),
        )
  unfolding update
  update-clear_active role config system now e f =
      rw (get-clear_active, e, f, check_same (record s { active_workorder = none }) role refl) refl
