-- ===== src/Auth.antt =====
-- crates/server/src/auth.rs: who a request comes from. A header map is read as a function from
-- names to the values that are valid text; parsing a header name is a parameter.
pub mod Fingerprint
pub mod Identity
mod Tests
use remerge.Prelude.{
  ℕ, Bool, true, false, ◌||◌, not, Option, none, some, List, [], ◌∷◌, Result, ok, err, ◌>>=◌, ok_or,
  ◌==◌, if◌then◌else◌, keep_if,
}
use remerge.Prelude.Text.{
  Text, codes, text_eq, text_beq, is_empty, trim, to_lowercase, strip_prefix, unwrap_or,
}
use remerge.Prelude.Dict.{Dict, get, insert}
use remerge.Types.Client
use remerge.Types.Client.{ClientId, ClientRole, main, follower, AuthMode, mtls, mixed}

pub record CertEntry : Type 0 where
  pub fingerprint : Text
  pub client_id : ClientId
  pub role : ClientRole
  pub label : Option Text

pub record AuthConfig : Type 0 where
  pub mode : AuthMode
  pub cert_header : Text
  pub clients : List CertEntry

pub record CertRegistry : Type 0 where
  pub mode : AuthMode
  pub cert_header : Text
  pub entries : Dict Text CertEntry

pub data AuthMethod : Type 0 where
  self_declared : AuthMethod
  certificate : Text → Option Text → AuthMethod

pub record ResolvedIdentity : Type 0 where
  pub client_id : ClientId
  pub role : ClientRole
  pub method : AuthMethod

pub data AuthError : Type 0 where
  certificate_required main_requires_cert : AuthError
  unknown_certificate : Text → AuthError

-- The value of each header that is present and valid text, by `headers.get(name)?.to_str().ok()`.
abbrev pub HeaderMap : Type 0
HeaderMap = Text → Option Text

-- `replace([':', ' '], "")`
unfoldable pub drop_separators : Text → Text
drop_separators = keep_if (λ c. not (c == b':' || c == b' '))

-- `normalise_fingerprint`
unfoldable pub normalise_fingerprint : Text → Text
unfolding drop_separators trim to_lowercase
normalise_fingerprint fp =
    let lower = to_lowercase (trim fp) in
    drop_separators (unwrap_or (strip_prefix (codes "sha256:") lower) lower)

-- the `collect` of `CertRegistry::new`: a later certificate replaces an earlier one with the same key
unfoldable pub collect_entries : List CertEntry → Dict Text CertEntry → Dict Text CertEntry
collect_entries [] m = m
collect_entries (e ∷ es) m = collect_entries es (insert (normalise_fingerprint e.fingerprint) e m)

-- `CertRegistry::new`; `parse_header_name` is `str::parse::<HeaderName>`
unfoldable pub new : (Text → Option Text) → AuthConfig → CertRegistry
new parse_header_name config = record {
  mode = config.mode;
  cert_header =
      unwrap_or (parse_header_name config.cert_header) (codes "x-client-cert-fingerprint");
  entries = collect_entries config.clients [];
}

abbrev non_empty : Text → Option Text
non_empty s = if is_empty s then none else some s

-- `CertRegistry::extract_fingerprint`
unfoldable pub extract_fingerprint : CertRegistry → HeaderMap → Option Text
extract_fingerprint r headers = elim (headers r.cert_header) [
  | none ↦ none
  | some raw ↦ non_empty (normalise_fingerprint raw)
]

abbrev identity_of : CertEntry → ResolvedIdentity
identity_of e = record {
  client_id = e.client_id;
  role = e.role;
  method = certificate (normalise_fingerprint e.fingerprint) e.label;
}

-- the certificate branches of `resolve`
unfoldable pub by_certificate : CertRegistry → Text → Result AuthError ResolvedIdentity
by_certificate r fp = do
  entry ← ok_or (get fp r.entries) (unknown_certificate fp)
  ok (identity_of entry)

abbrev self : ClientId → ClientRole → ResolvedIdentity
self client_id role = record { client_id = client_id; role = role; method = self_declared }

unfoldable pub resolve_as :
    AuthMode
    → CertRegistry
    → Option Text
    → ClientId
    → ClientRole
    → Result AuthError ResolvedIdentity
unfolding by_certificate
resolve_as Client.none r cert_fp body_client_id body_role = ok (self body_client_id body_role)
resolve_as mtls r none body_client_id body_role = err certificate_required
resolve_as mtls r (some fp) body_client_id body_role = by_certificate r fp
resolve_as mixed r (some fp) body_client_id body_role = by_certificate r fp
resolve_as mixed r none body_client_id main = err main_requires_cert
resolve_as mixed r none body_client_id follower = ok (self body_client_id follower)

-- `CertRegistry::resolve`
unfoldable pub resolve :
    CertRegistry → HeaderMap → ClientId → ClientRole → Result AuthError ResolvedIdentity
unfolding resolve_as extract_fingerprint
resolve r headers body_client_id body_role =
    resolve_as r.mode r (extract_fingerprint r headers) body_client_id body_role

abbrev client_of : Option CertEntry → Option ClientId
client_of none = none
client_of (some e) = some e.client_id

-- `CertRegistry::resolve_header_only`
unfoldable pub resolve_header_only : CertRegistry → HeaderMap → Option ClientId
unfolding extract_fingerprint
resolve_header_only r headers = elim (extract_fingerprint r headers) [
  | none ↦ none
  | some fp ↦ client_of (get fp r.entries)
]

-- `AuthError::status_code`
unfoldable pub status_code : AuthError → ℕ
status_code certificate_required = 401
status_code (unknown_certificate fp) = 401
status_code main_requires_cert = 403
