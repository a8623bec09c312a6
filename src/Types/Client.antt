-- ===== src/Types/Client.antt =====
-- crates/types/src/client.rs and auth.rs: client identities, roles and authentication modes. A UUID
-- is the natural number that its 128 bits spell; a `DateTime` counts ticks from a fixed instant.
use remerge.Prelude.{ℕ, Bool, true, false, Option, not, ◌&&◌, if◌then◌else◌, Result, ok, err}
use remerge.Prelude.Text.{Text, codes, text_beq}

abbrev pub ClientId : Type 0
ClientId = ℕ

abbrev pub WorkorderId : Type 0
WorkorderId = ℕ

abbrev pub DateTime : Type 0
DateTime = ℕ

pub data ClientRole : Type 0 where
  main follower : ClientRole

-- the derived `PartialEq`
abbrev pub role_beq : ClientRole → ClientRole → Bool
role_beq main main = true
role_beq follower follower = true
role_beq _ _ = false

-- `impl Display for ClientRole`
unfoldable pub display_role : ClientRole → Text
display_role main = codes "main"
display_role follower = codes "follower"

-- `impl FromStr for ClientRole`; the error carries the text that was not recognised
unfoldable pub role_from_str : Text → Result Text ClientRole
role_from_str s =
    if text_beq s (codes "main")
    then ok main
    else if text_beq s (codes "follower")
    then ok follower
    else err s

pub record ClientState : Type 0 where
  pub client_id : ClientId
  pub config_hash : Text
  pub system_hash : Text
  pub last_seen : DateTime
  pub active_workorder : Option WorkorderId

pub record ConfigDiff : Type 0 where
  pub portage_changed : Bool
  pub system_changed : Bool

-- `ConfigDiff::is_empty`
unfoldable pub is_empty_diff : ConfigDiff → Bool
is_empty_diff d = not d.portage_changed && not d.system_changed

pub data AuthMode : Type 0 where
  none mtls mixed : AuthMode

-- the test `mode() != AuthMode::None`
abbrev pub is_authenticated_mode : AuthMode → Bool
is_authenticated_mode none = false
is_authenticated_mode mtls = true
is_authenticated_mode mixed = true
