-- ===== src/Auth/Tests.antt =====
-- Runs of the certificate registry, and its theorems at concrete requests.
use remerge.Prelude.{Option, ◌≢◌, none, some, [], ◌∷◌, ◌≡◌, ◌⊎◌, inl, refl, ok, err, arith}
use remerge.Prelude.Text.{Text, codes, is_whitespace}
use remerge.Prelude.Dict.{get, insert}
use remerge.Types.Client
use remerge.Types.Client.{main, follower, mtls, mixed}
use remerge.Auth.{
  CertEntry, AuthConfig, ResolvedIdentity, self_declared, certificate, main_requires_cert,
  HeaderMap, normalise_fingerprint, collect_entries, new, resolve, resolve_header_only,
}
use remerge.Auth.Identity.{
  IsCertified, IsSelfDeclaredFollower, resolve-IsCertified, resolve-header_only,
}

abbrev builder : CertEntry
builder = record { fingerprint = codes "sha256:AB:CD"; client_id = 7; role = main; label = none }

abbrev auth_config : AuthConfig
auth_config = record { mode = mixed; cert_header = codes "X-Cert"; clients = builder ∷ [] }

-- Header names are read as they stand.
abbrev parse : Text → Option Text
parse t = some t

abbrev no_headers : HeaderMap
no_headers name = none

abbrev with_cert : HeaderMap
with_cert name = some (codes "ab cd")

abbrev builder_identity : ResolvedIdentity
builder_identity = record { client_id = 7; role = main; method = certificate (codes "abcd") none }

abbrev self_named : ResolvedIdentity
self_named = record { client_id = 3; role = follower; method = self_declared }

resolved_by_cert : resolve (new parse auth_config) with_cert 9 follower ≡ ok builder_identity
unfolding resolve new collect_entries normalise_fingerprint is_whitespace get insert
resolved_by_cert = refl

resolved_by_body : resolve (new parse auth_config) no_headers 3 follower ≡ ok self_named
unfolding resolve new
resolved_by_body = refl

main_refused : resolve (new parse auth_config) no_headers 3 main ≡ err main_requires_cert
unfolding resolve new
main_refused = refl

mixed_mode : mixed ≢ Client.none
mixed_mode = ground arith

resolve-IsCertified_example : IsCertified parse auth_config with_cert builder_identity
resolve-IsCertified_example =
    resolve-IsCertified parse auth_config with_cert 9 follower builder_identity mixed_mode
      (inl refl) resolved_by_cert

resolve-header_only_example :
    (resolve_header_only (new parse auth_config) no_headers ≡ some 3)
    ⊎ (IsSelfDeclaredFollower (new parse auth_config) self_named
        × (resolve_header_only (new parse auth_config) no_headers ≡ none))
unfolding new
resolve-header_only_example =
    resolve-header_only (new parse auth_config) no_headers 3 follower self_named mixed_mode
      resolved_by_body

spaced_normal : normalise_fingerprint (codes " AB:cd:01 ") ≡ codes "abcd01"
unfolding normalise_fingerprint is_whitespace
spaced_normal = refl
