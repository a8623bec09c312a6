-- ===== src/Upload/Frame/RoundTrip.antt =====
-- A frame that was encoded decodes to what it was made of.
use remerge.Prelude.{
  ℕ, ◌≤◌, ◌<◌, ◌^◌, Bool, true, false, not, List, Result, ok, ◌>>=◌, ◌>>◌, bail_if, arith, ◌≡◌,
  refl, sym, ◌∙◌, ap, inl, inr, Bool-cases, ◌==◌, ==_iff, ltb, length, take, drop,
}
use remerge.Prelude.Text.{text_beq}
use remerge.Upload.Frame.{
  SnapshotBlobChunkHeader, Checksum, unsupported_flags, non_zero_reserved, chunk_magic, header_len,
  from_payload, frame_of, encode_with_payload, header_of, check_payload, decode,
}
use remerge.Upload.Frame.Bytes.{
  to_be_bytes, from_be_bytes, slice, byte_at, from_be_bytes-to_be_bytes,
}

-- A header whose fields fit their widths, as the types of the source have it
pub record IsHeader (h : SnapshotBlobChunkHeader) : Type 0 where
  pub sequence : h.sequence < 2 ^ 64
  pub offset_bytes : h.offset_bytes < 2 ^ 64
  pub payload_size_bytes : h.payload_size_bytes < 2 ^ 64
  pub payload_checksum : h.payload_checksum < 2 ^ 32

header_of_parts :
    (h : SnapshotBlobChunkHeader) (a b c d : ℕ)
    → a ≡ h.sequence
    → b ≡ h.offset_bytes
    → c ≡ h.payload_size_bytes
    → d ≡ h.payload_checksum
    → ◌≡◌ {A = SnapshotBlobChunkHeader}
        (record { sequence = a; offset_bytes = b; payload_size_bytes = c; payload_checksum = d })
        h
header_of_parts h a b c d ea eb ec ed = rw (ea, eb, ec, ed) refl

header_of-frame_of :
    (h : SnapshotBlobChunkHeader) (payload : List ℕ)
    → IsHeader h
    → header_of (frame_of h payload) ≡ h
unfolding header_of frame_of to_be_bytes
header_of-frame_of h payload fits =
    header_of_parts h (from_be_bytes (slice 8 16 (frame_of h payload)))
      (from_be_bytes (slice 16 24 (frame_of h payload)))
      (from_be_bytes (slice 24 32 (frame_of h payload)))
      (from_be_bytes (slice 32 36 (frame_of h payload)))
      (from_be_bytes-to_be_bytes 8 h.sequence (omega (arith, fits.sequence)))
      (from_be_bytes-to_be_bytes 8 h.offset_bytes (omega (arith, fits.offset_bytes)))
      (from_be_bytes-to_be_bytes 8 h.payload_size_bytes (omega (arith, fits.payload_size_bytes)))
      (from_be_bytes-to_be_bytes 4 h.payload_checksum (omega (arith, fits.payload_checksum)))

drop-frame_of :
    (h : SnapshotBlobChunkHeader) (payload : List ℕ)
    → drop header_len (frame_of h payload) ≡ payload
unfolding frame_of to_be_bytes
drop-frame_of h payload = refl

length-frame_of :
    (h : SnapshotBlobChunkHeader) (payload : List ℕ)
    → ltb (length (frame_of h payload)) header_len ≡ false
unfolding frame_of to_be_bytes
length-frame_of h payload = ground arith

-- A frame that was laid out passes the checks of its head.
decode-head :
    (adler : Checksum) (h : SnapshotBlobChunkHeader) (payload : List ℕ)
    → decode adler (frame_of h payload)
      ≡ check_payload adler (header_of (frame_of h payload)) (drop header_len (frame_of h payload))
unfolding decode frame_of to_be_bytes from_be_bytes
decode-head adler h payload = rw (length-frame_of h payload) refl

decode-frame_of :
    (adler : Checksum) (h : SnapshotBlobChunkHeader) (payload : List ℕ)
    → IsHeader h
    → decode adler (frame_of h payload) ≡ check_payload adler h payload
decode-frame_of adler h payload fits =
    decode-head adler h payload
    ∙ ap (λ x. check_payload adler x (drop header_len (frame_of h payload)))
        (header_of-frame_of h payload fits)
    ∙ ap (check_payload adler h) (drop-frame_of h payload)

encode-eq-ok :
    (adler : Checksum) (h : SnapshotBlobChunkHeader) (payload frame : List ℕ)
    → encode_with_payload adler h payload ≡ ok frame
    → (frame_of h payload ≡ frame) × (check_payload adler h payload ≡ ok (h, payload))
unfolding encode_with_payload check_payload
encode-eq-ok adler h payload frame e = elim (Bool-cases (length payload == h.payload_size_bytes)) [
  | inr longer ↦ ground arith
  | inl sized ↦ elim (Bool-cases (adler payload == h.payload_checksum)) [
    | inr damaged ↦ ground arith
    | inl intact ↦ (ground arith, rw (sized, intact, check_payload) refl)
  ]
]

-- A frame that the encoder makes of a header whose fields fit their types and of a payload decodes
-- to that header and payload.
decode-encode_with_payload :
    (adler : Checksum) (h : SnapshotBlobChunkHeader) (payload frame : List ℕ)
    → IsHeader h
    → encode_with_payload adler h payload ≡ ok frame
    → decode adler frame ≡ ok (h, payload)
decode-encode_with_payload adler h payload frame fits e =
    let (laid, passed) = encode-eq-ok adler h payload frame e in
    ap (decode adler) (sym laid) ∙ decode-frame_of adler h payload fits ∙ passed

pub encode-from_payload :
    (adler : Checksum) (sequence offset_bytes : ℕ) (payload : List ℕ)
    → encode_with_payload adler (from_payload adler sequence offset_bytes payload) payload
      ≡ ok (frame_of (from_payload adler sequence offset_bytes payload) payload)
unfolding encode_with_payload from_payload
encode-from_payload adler sequence offset_bytes payload = ground arith

-- The header made for a payload can be encoded with it, and decoding the frame gives both back, if
-- its numbers fit their types.
pub from_payload-decodes :
    (adler : Checksum) (sequence offset_bytes : ℕ) (payload : List ℕ)
    → IsHeader (from_payload adler sequence offset_bytes payload)
    → (encode_with_payload adler (from_payload adler sequence offset_bytes payload) payload
        >>= decode adler)
      ≡ ok (from_payload adler sequence offset_bytes payload, payload)
from_payload-decodes adler sequence offset_bytes payload fits =
    let h = from_payload adler sequence offset_bytes payload in
    rw (encode-from_payload adler sequence offset_bytes payload) (
      decode-encode_with_payload adler h payload (frame_of h payload) fits
        (encode-from_payload adler sequence offset_bytes payload))

-- What a frame has that `decode` accepts.
pub record IsIntact (adler : Checksum) (frame payload : List ℕ) (h : SnapshotBlobChunkHeader)
    : Type 0 where
  pub long : header_len ≤ length frame
  pub magic : text_beq (take 4 frame) chunk_magic ≡ true
  pub version : byte_at 4 frame ≡ 1
  pub flags : byte_at 5 frame ≡ 0
  pub reserved : from_be_bytes (slice 6 8 frame) ≡ 0
  pub rest : payload ≡ drop header_len frame
  pub sized : length payload ≡ h.payload_size_bytes
  pub summed : adler payload ≡ h.payload_checksum

check_payload-eq-ok :
    (adler : Checksum) (h g : SnapshotBlobChunkHeader) (payload given : List ℕ)
    → check_payload adler h payload ≡ ok (g, given)
    → (h ≡ g)
      × (payload ≡ given)
      × (length payload ≡ h.payload_size_bytes)
      × (adler payload ≡ h.payload_checksum)
unfolding check_payload
check_payload-eq-ok adler h g payload given e =
    elim (Bool-cases (length payload == h.payload_size_bytes)) [
      | inr longer ↦ ground arith
      | inl sized ↦ elim (Bool-cases (adler payload == h.payload_checksum)) [
        | inr damaged ↦ ground arith
        | inl intact ↦ (ground arith, ground arith, ground arith, ground arith)
      ]
    ]

bail_if-eq-ok {ℓ} :
    {E A : Type ℓ} (b : Bool) (x : E) (r : Result E A) {a : A}
    → (bail_if b x >> r) ≡ ok a
    → (b ≡ false) × (r ≡ ok a)
bail_if-eq-ok true x r e = cc
bail_if-eq-ok false x r e = (refl, e)

ltb-eq-false : (a b : ℕ) → ltb a b ≡ false → b ≤ a
ltb-eq-false a b e = ground arith

not-eq-false : (b : Bool) → not b ≡ false → b ≡ true
not-eq-false b e = ground arith

-- A frame that decodes is at least as long as a header, starts with the magic and the version, has
-- no flags and no reserved bits, and its payload is what follows the header, of the declared size and checksum.
pub decode-IsIntact :
    (adler : Checksum) (frame payload : List ℕ) (h : SnapshotBlobChunkHeader)
    → decode adler frame ≡ ok (h, payload)
    → IsIntact adler frame payload h
unfolding decode from_be_bytes
decode-IsIntact adler frame payload h e =
    let (long, e1) = bail_if-eq-ok _ _ _ e in
    let (magic, e2) = bail_if-eq-ok _ _ _ e1 in
    let (version, e3) = bail_if-eq-ok _ _ _ e2 in
    let (flags, e4) =
      bail_if-eq-ok (not (byte_at 5 frame == 0)) (unsupported_flags (byte_at 5 frame)) _ e3 in
    let (reserved, e5) =
      bail_if-eq-ok (not (from_be_bytes (slice 6 8 frame) == 0)) non_zero_reserved _ e4 in
    let (same, rest, sized, summed) =
      check_payload-eq-ok adler (header_of frame) h (drop header_len frame) payload e5 in
    record {
      long = ltb-eq-false _ _ long;
      magic = not-eq-false _ magic;
      version = (==_iff _ _).0 (not-eq-false _ version);
      flags = (==_iff _ _).0 (not-eq-false _ flags);
      reserved = (==_iff _ _).0 (not-eq-false _ reserved);
      rest = sym rest;
      sized = rw (← rest, ← same) sized;
      summed = rw (← rest, ← same) summed;
    }
