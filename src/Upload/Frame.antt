-- ===== src/Upload/Frame.antt =====
-- crates/types/src/api.rs, `SnapshotBlobChunkHeader`: the binary frames of an upload. Bytes are
-- numbers below 256; `adler32_slice` is a parameter.
pub mod Bytes
pub mod RoundTrip
mod Tests
use remerge.Prelude.{
  ℕ, zero, suc, ◌+◌, ◌-◌, ◌*◌, ◌/◌, ◌%◌, Bool, true, false, not, List, [], ◌∷◌, ◌++◌, Result, ok,
  err, ◌>>=◌, ◌>>◌, bail_if, if◌then◌else◌, ltb, ◌==◌, length, take, drop,
}
use remerge.Prelude.Text.{codes, text_beq}
use remerge.Upload.Frame.Bytes.{to_be_bytes, from_be_bytes, slice, byte_at}

pub record SnapshotBlobChunkHeader : Type 0 where
  pub sequence : ℕ
  pub offset_bytes : ℕ
  pub payload_size_bytes : ℕ
  pub payload_checksum : ℕ

pub data SnapshotBlobChunkFrameError : Type 0 where
  frame_too_short : ℕ → ℕ → SnapshotBlobChunkFrameError
  invalid_magic : SnapshotBlobChunkFrameError
  unsupported_version unsupported_flags : ℕ → SnapshotBlobChunkFrameError
  non_zero_reserved : SnapshotBlobChunkFrameError
  payload_size_mismatch checksum_mismatch : ℕ → ℕ → SnapshotBlobChunkFrameError
  payload_too_large : SnapshotBlobChunkFrameError

-- `SNAPSHOT_BLOB_CHUNK_MAGIC`, `.._HEADER_LEN` and `SNAPSHOT_BLOB_PROTOCOL_VERSION`
abbrev pub chunk_magic : List ℕ
chunk_magic = codes "RMCH"

abbrev pub header_len : ℕ
header_len = 36

abbrev pub protocol_version : ℕ
protocol_version = 1

-- `adler32_slice`
abbrev pub Checksum : Type 0
Checksum = List ℕ → ℕ

-- `SnapshotBlobChunkHeader::from_payload`
unfoldable pub from_payload : Checksum → ℕ → ℕ → List ℕ → SnapshotBlobChunkHeader
from_payload adler32_slice sequence offset_bytes payload = record {
  sequence = sequence;
  offset_bytes = offset_bytes;
  payload_size_bytes = length payload;
  payload_checksum = adler32_slice payload;
}

unfoldable pub frame_of : SnapshotBlobChunkHeader → List ℕ → List ℕ
unfolding to_be_bytes
frame_of h payload =
    chunk_magic
    ++ ((protocol_version ∷ 0 ∷ [])
        ++ (to_be_bytes 2 0
            ++ (to_be_bytes 8 h.sequence
                ++ (to_be_bytes 8 h.offset_bytes
                    ++ (to_be_bytes 8 h.payload_size_bytes
                        ++ (to_be_bytes 4 h.payload_checksum ++ payload))))))

-- `SnapshotBlobChunkHeader::encode_with_payload`
unfoldable pub encode_with_payload :
    Checksum → SnapshotBlobChunkHeader → List ℕ → Result SnapshotBlobChunkFrameError (List ℕ)
unfolding frame_of
encode_with_payload adler32_slice h payload = do
  bail_if (not (length payload == h.payload_size_bytes))
      (payload_size_mismatch h.payload_size_bytes (length payload))
  bail_if (not (adler32_slice payload == h.payload_checksum))
      (checksum_mismatch h.payload_checksum (adler32_slice payload))
  ok (frame_of h payload)

unfoldable pub header_of : List ℕ → SnapshotBlobChunkHeader
unfolding from_be_bytes
header_of frame = record {
  sequence = from_be_bytes (slice 8 16 frame);
  offset_bytes = from_be_bytes (slice 16 24 frame);
  payload_size_bytes = from_be_bytes (slice 24 32 frame);
  payload_checksum = from_be_bytes (slice 32 36 frame);
}

-- the checks of `decode` on the payload
unfoldable pub check_payload :
    Checksum
    → SnapshotBlobChunkHeader
    → List ℕ
    → Result SnapshotBlobChunkFrameError (SnapshotBlobChunkHeader × List ℕ)
check_payload adler32_slice h payload = do
  bail_if (not (length payload == h.payload_size_bytes))
      (payload_size_mismatch h.payload_size_bytes (length payload))
  bail_if (not (adler32_slice payload == h.payload_checksum))
      (checksum_mismatch h.payload_checksum (adler32_slice payload))
  ok (h, payload)

-- `SnapshotBlobChunkHeader::decode`
unfoldable pub decode :
    Checksum → List ℕ → Result SnapshotBlobChunkFrameError (SnapshotBlobChunkHeader × List ℕ)
unfolding header_of check_payload from_be_bytes
decode adler32_slice frame = do
  bail_if (ltb (length frame) header_len) (frame_too_short header_len (length frame))
  bail_if (not (text_beq (take 4 frame) chunk_magic)) invalid_magic
  bail_if (not (byte_at 4 frame == protocol_version)) (unsupported_version (byte_at 4 frame))
  bail_if (not (byte_at 5 frame == 0)) (unsupported_flags (byte_at 5 frame))
  bail_if (not (from_be_bytes (slice 6 8 frame) == 0)) non_zero_reserved
  check_payload adler32_slice (header_of frame) (drop header_len frame)
