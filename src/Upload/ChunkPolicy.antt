-- ===== src/Upload/ChunkPolicy.antt =====
-- crates/cli/src/client.rs, `SnapshotBlobChunkPolicy`: how large the chunks of an upload are.
-- Latencies count milliseconds; the product of sizes wraps at 64 bits.
pub mod Bounds
mod Tests
use remerge.Prelude.{ℕ, ◌+◌, ◌*◌, ◌/◌, ◌%◌, min, max, List, [], ◌∷◌, if◌then◌else◌, leb}
use remerge.Server.State.{u64_mod}

-- `SNAPSHOT_BLOB_STREAM_MIN_CHUNK_SIZE_BYTES`, `.._SLOW_ACK_THRESHOLD`, `.._GROW_AFTER_HEALTHY_ACKS`
abbrev pub min_stream_chunk_size_bytes : ℕ
min_stream_chunk_size_bytes = 256 * 1024

abbrev pub slow_ack_threshold : ℕ
slow_ack_threshold = 150

abbrev pub grow_after_healthy_acks : ℕ
grow_after_healthy_acks = 2

pub record SnapshotBlobChunkPolicy : Type 0 where
  pub current_chunk_size_bytes : ℕ
  pub max_chunk_size_bytes : ℕ
  pub min_chunk_size_bytes : ℕ
  pub healthy_ack_streak : ℕ

-- `SnapshotBlobChunkPolicy::new`
unfoldable pub new_policy : ℕ → SnapshotBlobChunkPolicy
new_policy max_chunk_size_bytes = record {
  current_chunk_size_bytes = max_chunk_size_bytes;
  max_chunk_size_bytes = max_chunk_size_bytes;
  min_chunk_size_bytes = min min_stream_chunk_size_bytes (max max_chunk_size_bytes 1);
  healthy_ack_streak = 0;
}

unfoldable pub chunk_size_for_remaining : SnapshotBlobChunkPolicy → ℕ → ℕ
chunk_size_for_remaining p remaining_bytes = min p.current_chunk_size_bytes (max remaining_bytes 1)

unfoldable pub shrink : SnapshotBlobChunkPolicy → SnapshotBlobChunkPolicy
shrink p = record p {
  current_chunk_size_bytes = max (p.current_chunk_size_bytes / 2) p.min_chunk_size_bytes;
}

unfoldable pub grow : SnapshotBlobChunkPolicy → SnapshotBlobChunkPolicy
grow p = record p {
  current_chunk_size_bytes =
      max (min ((p.current_chunk_size_bytes * 2) % u64_mod) p.max_chunk_size_bytes)
        p.min_chunk_size_bytes;
}

unfoldable pub reset_streak : SnapshotBlobChunkPolicy → SnapshotBlobChunkPolicy
reset_streak p = record p { healthy_ack_streak = 0 }

unfoldable pub on_ack : ℕ → SnapshotBlobChunkPolicy → SnapshotBlobChunkPolicy
unfolding shrink grow reset_streak
on_ack ack_latency p =
    if leb slow_ack_threshold ack_latency
    then reset_streak (shrink p)
    else if leb grow_after_healthy_acks (p.healthy_ack_streak + 1)
    then reset_streak (grow p)
    else record p { healthy_ack_streak = p.healthy_ack_streak + 1 }

unfoldable pub on_reconnect : SnapshotBlobChunkPolicy → SnapshotBlobChunkPolicy
unfolding shrink reset_streak
on_reconnect p = reset_streak (shrink p)

-- What happens to an upload, and the policy after it, oldest event last
pub data UploadEvent : Type 0 where
  ack : ℕ → UploadEvent
  reconnect : UploadEvent

unfoldable pub after : List UploadEvent → SnapshotBlobChunkPolicy → SnapshotBlobChunkPolicy
unfolding on_ack on_reconnect
after [] p = p
after (ack ack_latency ∷ events) p = on_ack ack_latency (after events p)
after (reconnect ∷ events) p = on_reconnect (after events p)
