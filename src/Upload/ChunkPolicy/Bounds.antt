-- ===== src/Upload/ChunkPolicy/Bounds.antt =====
-- The bounds that the chunk size of an upload never leaves, and how fast it falls.
use native.Mathlib.Nat.{mul-le-mul_left, pow-succ'}
use remerge.Prelude.{
  ℕ, zero, suc, ◌+◌, ◌*◌, ◌/◌, ◌^◌, ◌≤◌, ◌<◌, max, ◌⊎◌, inl, inr, Bool-cases, List, [], ◌∷◌, leb,
  arith, ◌≡◌, refl,
}
use remerge.Upload.ChunkPolicy.{
  slow_ack_threshold, grow_after_healthy_acks, SnapshotBlobChunkPolicy, new_policy,
  chunk_size_for_remaining, shrink, grow, reset_streak, on_ack, on_reconnect, UploadEvent, ack,
  reconnect, after,
}

-- The invariant of a policy for chunks of at most `limit` bytes.
pub record IsBounded (limit : ℕ) (p : SnapshotBlobChunkPolicy) : Type 0 where
  pub limit_kept : p.max_chunk_size_bytes ≡ limit
  pub positive : 0 < p.min_chunk_size_bytes
  pub floor : p.min_chunk_size_bytes ≤ p.current_chunk_size_bytes
  pub ceiling : p.current_chunk_size_bytes ≤ limit
  pub streak : p.healthy_ack_streak < 2

new_policy-IsBounded : (limit : ℕ) → 0 < limit → IsBounded limit (new_policy limit)
unfolding new_policy
new_policy-IsBounded limit h = record {
  limit_kept = refl;
  positive = omega arith;
  floor = omega arith;
  ceiling = omega arith;
  streak = omega arith;
}

shrink-IsBounded :
    (limit : ℕ) (p : SnapshotBlobChunkPolicy)
    → IsBounded limit p
    → IsBounded limit (reset_streak (shrink p))
unfolding shrink reset_streak
shrink-IsBounded limit p b = record {
  limit_kept = b.limit_kept;
  positive = b.positive;
  floor = omega arith;
  ceiling = omega (arith, b.floor, b.ceiling);
  streak = omega arith;
}

grow-IsBounded :
    (limit : ℕ) (p : SnapshotBlobChunkPolicy)
    → IsBounded limit p
    → IsBounded limit (reset_streak (grow p))
unfolding grow reset_streak
grow-IsBounded limit p b = record {
  limit_kept = b.limit_kept;
  positive = b.positive;
  floor = omega arith;
  ceiling = omega (arith, b.floor, b.ceiling, b.limit_kept);
  streak = omega arith;
}

on_ack-IsBounded :
    (limit ack_latency : ℕ) (p : SnapshotBlobChunkPolicy)
    → IsBounded limit p
    → IsBounded limit (on_ack ack_latency p)
unfolding on_ack
on_ack-IsBounded limit ack_latency p b = elim (Bool-cases (leb slow_ack_threshold ack_latency)) [
  | inl slow ↦ rw (slow, on_ack) (shrink-IsBounded limit p b)
  | inr fast ↦ elim (Bool-cases (leb grow_after_healthy_acks (p.healthy_ack_streak + 1))) [
    | inl ready ↦ rw (fast, ready, on_ack) (grow-IsBounded limit p b)
    | inr early ↦
        rw (fast, early, on_ack)
          (record {
            limit_kept = b.limit_kept;
            positive = b.positive;
            floor = b.floor;
            ceiling = b.ceiling;
            streak = ground arith;
          })
  ]
]

on_reconnect-IsBounded :
    (limit : ℕ) (p : SnapshotBlobChunkPolicy) → IsBounded limit p → IsBounded limit (on_reconnect p)
unfolding on_reconnect
on_reconnect-IsBounded limit p b = shrink-IsBounded limit p b

-- Whatever acknowledgements and reconnects an upload meets, the chunk size stays between the
-- minimum and the positive limit that the policy was made with, the minimum is positive, and the
-- streak of healthy acknowledgements is below 2.
pub after-IsBounded :
    (limit : ℕ) (events : List UploadEvent)
    → 0 < limit
    → IsBounded limit (after events (new_policy limit))
unfolding after
after-IsBounded limit [] h = new_policy-IsBounded limit h
after-IsBounded limit (ack ack_latency ∷ events) h =
    on_ack-IsBounded limit ack_latency (after events (new_policy limit))
      (after-IsBounded limit events h)
after-IsBounded limit (reconnect ∷ events) h =
    on_reconnect-IsBounded limit (after events (new_policy limit)) (after-IsBounded limit events h)

-- Under a positive limit, and while bytes remain, a chunk is not empty, and neither larger than
-- what remains nor than the limit.
pub chunk_size_for_remaining-bounds :
    (limit remaining : ℕ) (events : List UploadEvent)
    → 0 < limit
    → 0 < remaining
    → (0 < chunk_size_for_remaining (after events (new_policy limit)) remaining)
      × (chunk_size_for_remaining (after events (new_policy limit)) remaining ≤ remaining)
      × (chunk_size_for_remaining (after events (new_policy limit)) remaining ≤ limit)
unfolding chunk_size_for_remaining
chunk_size_for_remaining-bounds limit remaining events h r =
    let b = after-IsBounded limit events h in
    (omega (arith, b.floor, b.positive), omega arith, omega (arith, b.ceiling))

unfoldable pub reconnects : ℕ → List UploadEvent
reconnects zero = []
reconnects (suc n) = reconnect ∷ reconnects n

halve-le : (k c x : ℕ) → k * c ≤ x → (2 * k) * (c / 2) ≤ x
halve-le k c x h =
    let half : k * (2 * (c / 2)) ≤ k * c = mul-le-mul_left k (omega arith) in omega (arith, half, h)

halve-step :
    (k c m x : ℕ) → (c ≡ m) ⊎ (k * c ≤ x) → (max (c / 2) m ≡ m) ⊎ ((2 * k) * max (c / 2) m ≤ x)
halve-step k c m x (inl low) = inl (omega arith)
halve-step k c m x (inr h) = elim (Bool-cases (leb (c / 2) m)) [
  | inl low ↦ inl (ground arith)
  | inr high ↦ let same : max (c / 2) m ≡ c / 2 = ground arith in inr (rw same (halve-le k c x h))
]

module _ (limit : ℕ) where
  reconnects-halved :
      (n : ℕ)
      → ((after (reconnects n) (new_policy limit)).current_chunk_size_bytes
          ≡ (after (reconnects n) (new_policy limit)).min_chunk_size_bytes)
        ⊎ (2 ^ n * (after (reconnects n) (new_policy limit)).current_chunk_size_bytes ≤ limit)
  unfolding after reconnects on_reconnect shrink reset_streak new_policy
  reconnects-halved zero = inr (omega arith)
  reconnects-halved (suc n) =
      let p = after (reconnects n) (new_policy limit) in
      rw (pow-succ' 2 n) (
        halve-step (2 ^ n) p.current_chunk_size_bytes p.min_chunk_size_bytes limit
          (reconnects-halved n))

  -- After `n` reconnects in a row under a positive limit below `2 ^ n`, the chunk size is at its
  -- minimum.
  pub reconnects-minimum :
      (n : ℕ)
      → 0 < limit
      → limit < 2 ^ n
      → (after (reconnects n) (new_policy limit)).current_chunk_size_bytes
        ≡ (after (reconnects n) (new_policy limit)).min_chunk_size_bytes
  reconnects-minimum n positive small =
      let b = after-IsBounded limit (reconnects n) positive in
      elim (reconnects-halved n) [
        | inl low ↦ low
        | inr many ↦
            let one : 2 ^ n * 1
                ≤ 2 ^ n * (after (reconnects n) (new_policy limit)).current_chunk_size_bytes =
              mul-le-mul_left (2 ^ n) (omega (arith, b.floor, b.positive)) in
            omega (arith, one, many, small)
      ]
