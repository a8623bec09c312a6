-- ===== src/Registry.antt =====
-- crates/server/src/registry.rs: the known clients, and who may submit a workorder. The map behind
-- the lock is the state; each method is a function on it. `serde_json` and SHA-256 are parameters.
pub mod Admission
mod Tests
use remerge.Prelude.{
  ℕ, Bool, true, false, not, ◌&&◌, ◌||◌, Option, none, some, Result, ok, err, map_ok, if◌then◌else◌,
  nat_eq,
}
use remerge.Prelude.Text.{Text, codes, text_beq}
use remerge.Prelude.Dict.{Dict, get, insert, modify}
use remerge.Types.Client.{
  ClientId, WorkorderId, DateTime, ClientRole, main, follower, role_beq, ClientState, ConfigDiff,
}
use remerge.Types.Portage.{PortageConfig, SystemIdentity}

abbrev pub ClientRegistry : Type 0
ClientRegistry = Dict ClientId ClientState

pub data RegistryError : Type 0 where
  active_workorder : WorkorderId → RegistryError
  no_main_client config_mismatch : RegistryError

-- `serde_json::to_string` (which may fail) of both kinds of value, and the hex SHA-256 of a text.
pub record Hashing : Type 0 where
  pub config_json : PortageConfig → Option Text
  pub system_json : SystemIdentity → Option Text
  pub sha256_hex : Text → Text

-- `hash_json`: a value that cannot be serialised counts as the empty text.
unfoldable pub hash_json : (Text → Text) → Option Text → Text
hash_json sha256_hex none = sha256_hex (codes "")
hash_json sha256_hex (some json) = sha256_hex json

-- the comparison of the stored hashes with those of the request
unfoldable pub diff_of : ClientState → Text → Text → ConfigDiff
diff_of existing config_hash system_hash = record {
  portage_changed = not (text_beq existing.config_hash config_hash);
  system_changed = not (text_beq existing.system_hash system_hash);
}

-- the `diff` that `update` works out, or its refusal
unfoldable pub check :
    Option ClientState → ClientRole → Text → Text → Result RegistryError ConfigDiff
unfolding diff_of
check none follower config_hash system_hash = err no_main_client
check none main config_hash system_hash =
    ok (record { portage_changed = true; system_changed = true })
check (some existing) role config_hash system_hash =
    let diff = diff_of existing config_hash system_hash in
    elim existing.active_workorder [
      | some active_id ↦ err (active_workorder active_id)
      | none ↦
          if role_beq role follower && (diff.portage_changed || diff.system_changed)
          then err config_mismatch
          else ok diff
    ]

-- what `update` writes when it accepts: a main client replaces its entry, a follower touches it
unfoldable pub store :
    ClientId → ClientRole → Text → Text → DateTime → ClientRegistry → ClientRegistry
store client_id main config_hash system_hash now clients =
    insert client_id
      (record {
        client_id = client_id;
        config_hash = config_hash;
        system_hash = system_hash;
        last_seen = now;
        active_workorder = none;
      })
      clients
store client_id follower config_hash system_hash now clients =
    modify client_id (λ existing. record existing { last_seen = now }) clients

-- `ClientRegistry::update`
unfoldable pub update :
    Hashing
    → ClientId
    → ClientRole
    → PortageConfig
    → SystemIdentity
    → DateTime
    → ClientRegistry
    → Result RegistryError (ConfigDiff × ClientRegistry)
unfolding check store hash_json
update h client_id role portage_config system_id now clients =
    let config_hash = hash_json h.sha256_hex (h.config_json portage_config) in
    let system_hash = hash_json h.sha256_hex (h.system_json system_id) in
    map_ok (λ diff. (diff, store client_id role config_hash system_hash now clients))
      (check (get client_id clients) role config_hash system_hash)

-- `ClientRegistry::set_active_workorder`
unfoldable pub set_active_workorder : ClientId → WorkorderId → ClientRegistry → ClientRegistry
set_active_workorder client_id workorder_id =
    modify client_id (λ state. record state { active_workorder = some workorder_id })

-- `ClientRegistry::clear_active_workorder`
unfoldable pub clear_active_workorder : ClientId → ClientRegistry → ClientRegistry
clear_active_workorder client_id =
    modify client_id (λ state. record state { active_workorder = none })

-- `ClientRegistry::get`
unfoldable pub lookup_client : ClientId → ClientRegistry → Option ClientState
lookup_client client_id clients = get client_id clients
