-- ===== src/Auth/Identity.antt =====
-- Where an authenticated identity comes from.
use mathlib.Core.List.{Memᴰ}
use remerge.Prelude.{
  Option, none, some, List, [], ◌∷◌, ok, arith, ◌≡◌, ◌≢◌, ◌⊎◌, inl, inr, refl, sym, ◌∙◌,
  Option-cases, Bool-cases,
}
use remerge.Prelude.Text.{Text, text_eq, text_beq, text_beq_iff}
use remerge.Prelude.Dict.{Dict, get, insert, get-insert}
use remerge.Types.Client
use remerge.Types.Client.{ClientId, ClientRole, main, follower, AuthMode, mtls, mixed}
use remerge.Auth.{
  CertEntry, AuthConfig, CertRegistry, ResolvedIdentity, self_declared, HeaderMap,
  normalise_fingerprint, collect_entries, new, extract_fingerprint, by_certificate, resolve_as,
  resolve, resolve_header_only,
}

-- The entries of a registry that stem from the list of configured certificates, each under the
-- normalised form of its own fingerprint.
abbrev Genuine : List CertEntry → Dict Text CertEntry → Type 0
Genuine certs m =
    (fp : Text) (e : CertEntry)
    → get fp m ≡ some e
    → Memᴰ e certs × (normalise_fingerprint e.fingerprint ≡ fp)

insert-Genuine :
    (certs : List CertEntry) (m : Dict Text CertEntry) (c : CertEntry)
    → Memᴰ c certs
    → Genuine certs m
    → Genuine certs (insert (normalise_fingerprint c.fingerprint) c m)
insert-Genuine certs m c listed g fp e found =
    let key = normalise_fingerprint c.fingerprint in
    elim (Bool-cases (text_beq key fp)) [
      | inl same ↦
          let hit : c ≡ e = ground (arith, get-insert key fp c m) in
          rw (← hit) (listed, (text_beq_iff key fp).0 same)
      | inr differs ↦ g fp e (ground (arith, get-insert key fp c m))
    ]

collect-Genuine :
    (certs es : List CertEntry) (m : Dict Text CertEntry)
    → ((e : CertEntry) → Memᴰ e es → Memᴰ e certs)
    → Genuine certs m
    → Genuine certs (collect_entries es m)
unfolding collect_entries
collect-Genuine certs [] m sub g = g
collect-Genuine certs (e ∷ es) m sub g =
    collect-Genuine certs es (insert (normalise_fingerprint e.fingerprint) e m)
      (λ x h. sub x (Memᴰ.tail h)) (insert-Genuine certs m e (sub e (Memᴰ.head refl)) g)

new-Genuine :
    (parse : Text → Option Text) (config : AuthConfig)
    → Genuine config.clients (new parse config).entries
unfolding new get
new-Genuine parse config =
    collect-Genuine config.clients config.clients [] (λ e h. h) (λ fp e found. cc)

-- An identity that a configured certificate vouches for: the request carries a header value with
-- the same normalised fingerprint, and the certificate names the client and the role.
pub record IsCertified (parse : Text → Option Text) (config : AuthConfig) (headers : HeaderMap)
    (i : ResolvedIdentity) : Type 0 where
  pub entry : CertEntry
  pub listed : Memᴰ entry config.clients
  pub raw : Text
  pub presented : headers (new parse config).cert_header ≡ some raw
  pub matched : normalise_fingerprint entry.fingerprint ≡ normalise_fingerprint raw
  pub client : i.client_id ≡ entry.client_id
  pub role : i.role ≡ entry.role

extract_fingerprint-raw :
    (r : CertRegistry) (headers : HeaderMap) (fp : Text)
    → extract_fingerprint r headers ≡ some fp
    → (raw : Text) × (headers r.cert_header ≡ some raw) × (normalise_fingerprint raw ≡ fp)
unfolding extract_fingerprint
extract_fingerprint-raw r headers fp e = elim (Option-cases (headers r.cert_header)) [
  | inl missing ↦ ground arith
  | inr (raw, present) ↦ (raw, present, ground arith)
]

by_certificate-entry :
    (r : CertRegistry) (fp : Text) (i : ResolvedIdentity)
    → by_certificate r fp ≡ ok i
    → (e : CertEntry) × (get fp r.entries ≡ some e)
      × (i.client_id ≡ e.client_id)
      × (i.role ≡ e.role)
unfolding by_certificate
by_certificate-entry r fp i h = elim (Option-cases (get fp r.entries)) [
  | inl missing ↦ ground arith
  | inr (e, found) ↦ (e, found, ground arith, ground arith)
]

module _ (parse : Text → Option Text) (config : AuthConfig) (headers : HeaderMap) where
  by_certificate-IsCertified :
      (fp : Text) (i : ResolvedIdentity)
      → extract_fingerprint (new parse config) headers ≡ some fp
      → by_certificate (new parse config) fp ≡ ok i
      → IsCertified parse config headers i
  by_certificate-IsCertified fp i shown h =
      let (raw, present, normal) = extract_fingerprint-raw (new parse config) headers fp shown in
      let (e, found, client, role) = by_certificate-entry (new parse config) fp i h in
      let (listed, key) = new-Genuine parse config fp e found in
      record {
        entry = e;
        listed = listed;
        raw = raw;
        presented = present;
        matched = key ∙ sym normal;
        client = client;
        role = role;
      }

  resolve_as-IsCertified :
      (mode : AuthMode) (o : Option Text) (body : ClientId) (body_role : ClientRole)
      (i : ResolvedIdentity)
      → extract_fingerprint (new parse config) headers ≡ o
      → mode ≢ Client.none
      → i.role ≡ main ⊎ mode ≡ mtls
      → resolve_as mode (new parse config) o body body_role ≡ ok i
      → IsCertified parse config headers i
  unfolding resolve_as
  resolve_as-IsCertified Client.none o body role i x auth k h = absurd (auth refl)
  resolve_as-IsCertified mtls none body role i x auth k h = cc
  resolve_as-IsCertified mtls (some fp) body role i x auth k h = by_certificate-IsCertified fp i x h
  resolve_as-IsCertified mixed (some fp) body role i x auth k h =
      by_certificate-IsCertified fp i x h
  resolve_as-IsCertified mixed none body main i x auth k h = cc
  resolve_as-IsCertified mixed none body follower i x auth k h = ground arith

  -- In the mtls mode every identity, and in the mixed mode every main identity, that a request
  -- resolves to is vouched for by a configured certificate whose fingerprint the request carries.
  -- What the body of the request says has no part in it.
  pub resolve-IsCertified :
      (body : ClientId) (body_role : ClientRole) (i : ResolvedIdentity)
      → config.mode ≢ Client.none
      → i.role ≡ main ⊎ config.mode ≡ mtls
      → resolve (new parse config) headers body body_role ≡ ok i
      → IsCertified parse config headers i
  unfolding resolve new
  resolve-IsCertified body body_role i auth k h =
      resolve_as-IsCertified config.mode (extract_fingerprint (new parse config) headers) body
        body_role i refl auth k h

-- A follower of the mixed mode that named itself in the body of its request.
abbrev pub IsSelfDeclaredFollower : CertRegistry → ResolvedIdentity → Type 0
IsSelfDeclaredFollower r i = (r.mode ≡ mixed) × (i.role ≡ follower) × (i.method ≡ self_declared)

resolve_as_cases :
    (mode : AuthMode) (r : CertRegistry) (o : Option Text) (body : ClientId)
    (body_role : ClientRole) (i : ResolvedIdentity)
    → mode ≢ Client.none
    → resolve_as mode r o body body_role ≡ ok i
    → ((fp : Text) × (o ≡ some fp) × (by_certificate r fp ≡ ok i))
      ⊎ ((o ≡ none) × (mode ≡ mixed) × (i.role ≡ follower) × (i.method ≡ self_declared))
unfolding resolve_as
resolve_as_cases Client.none r o body role i auth h = absurd (auth refl)
resolve_as_cases mtls r none body role i auth h = cc
resolve_as_cases mtls r (some fp) body role i auth h = inl (fp, refl, h)
resolve_as_cases mixed r (some fp) body role i auth h = inl (fp, refl, h)
resolve_as_cases mixed r none body main i auth h = cc
resolve_as_cases mixed r none body follower i auth h = inr (refl, refl, ground arith, ground arith)

module _ (r : CertRegistry) (headers : HeaderMap) where
  header_only_of_fingerprint :
      (fp : Text) (i : ResolvedIdentity)
      → extract_fingerprint r headers ≡ some fp
      → by_certificate r fp ≡ ok i
      → resolve_header_only r headers ≡ some i.client_id
  unfolding resolve_header_only
  header_only_of_fingerprint fp i shown h =
      let (e, found, client, role) = by_certificate-entry r fp i h in
      rw (shown, resolve_header_only, found, client)

  header_only_of_none : extract_fingerprint r headers ≡ none → resolve_header_only r headers ≡ none
  unfolding resolve_header_only
  header_only_of_none shown = rw (shown, resolve_header_only)

  -- In an authenticated mode the endpoints that read the header alone recognise the client that a
  -- submission with the same headers resolves to, but for the self-declared followers of the mixed
  -- mode: those they take for unauthenticated.
  pub resolve-header_only :
      (body : ClientId) (body_role : ClientRole) (i : ResolvedIdentity)
      → r.mode ≢ Client.none
      → resolve r headers body body_role ≡ ok i
      → (resolve_header_only r headers ≡ some i.client_id)
        ⊎ (IsSelfDeclaredFollower r i × (resolve_header_only r headers ≡ none))
  unfolding resolve
  resolve-header_only body body_role i auth h =
      elim (resolve_as_cases r.mode r (extract_fingerprint r headers) body body_role i auth h) [
        | inl (fp, shown, ok_i) ↦ inl (header_only_of_fingerprint fp i shown ok_i)
        | inr (absent, mode, role, method) ↦ inr ((mode, role, method), header_only_of_none absent)
      ]
