-- ===== src/Upload/Frame/Tests.antt =====
-- Frames at concrete payloads, and their theorems there.
use remerge.Prelude.{ℕ, [], ◌∷◌, List, ok, err, ◌>>=◌, ◌≡◌, refl, arith}
use remerge.Upload.Frame.{
  Checksum, SnapshotBlobChunkHeader, frame_too_short, from_payload, frame_of, encode_with_payload,
  decode,
}
use remerge.Upload.Frame.Bytes.{to_be_bytes, from_be_bytes}
use remerge.Upload.Frame.RoundTrip.{IsHeader, IsIntact, from_payload-decodes, decode-IsIntact}

-- A checksum of one byte
abbrev toy : Checksum
toy [] = 1
toy (b ∷ bytes) = b

abbrev body : List ℕ
body = 5 ∷ 6 ∷ 7 ∷ []

abbrev header : SnapshotBlobChunkHeader
header = from_payload toy 3 300 body

header-IsHeader : IsHeader header
unfolding from_payload
header-IsHeader = record {
  sequence = omega arith;
  offset_bytes = omega arith;
  payload_size_bytes = omega arith;
  payload_checksum = omega arith;
}

cut : decode toy (1 ∷ []) ≡ err (frame_too_short 36 1)
unfolding decode
cut = refl

decoded : decode toy (frame_of header body) ≡ ok (header, body)
unfolding decode frame_of to_be_bytes from_be_bytes from_payload
decoded = refl

from_payload-decodes_example :
    (encode_with_payload toy header body >>= decode toy) ≡ ok (header, body)
from_payload-decodes_example = from_payload-decodes toy 3 300 body header-IsHeader

decode-IsIntact_example : IsIntact toy (frame_of header body) body header
decode-IsIntact_example = decode-IsIntact toy (frame_of header body) body header decoded
