-- ===== src/Upload/ChunkPolicy/Tests.antt =====
-- A policy on the events of its unit tests, and its theorems at concrete events.
use remerge.Prelude.{◌≤◌, ◌<◌, [], ◌∷◌, ◌≡◌, refl, arith}
use remerge.Upload.ChunkPolicy.{new_policy, chunk_size_for_remaining, ack, reconnect, after}
use remerge.Upload.ChunkPolicy.Bounds.{
  IsBounded, after-IsBounded, chunk_size_for_remaining-bounds, reconnects, reconnects-minimum,
}

grown :
    (after (ack 10 ∷ ack 10 ∷ reconnect ∷ []) (new_policy 1048576)).current_chunk_size_bytes
    ≡ 1048576
unfolding after new_policy
grown = refl

after-IsBounded_example :
    IsBounded 1048576 (after (ack 10 ∷ ack 900 ∷ reconnect ∷ []) (new_policy 1048576))
after-IsBounded_example = after-IsBounded 1048576 (ack 10 ∷ ack 900 ∷ reconnect ∷ []) (omega arith)

chunk_size_for_remaining-bounds_example :
    (0 < chunk_size_for_remaining (after (reconnect ∷ []) (new_policy 1048576)) 7)
    × (chunk_size_for_remaining (after (reconnect ∷ []) (new_policy 1048576)) 7 ≤ 7)
    × (chunk_size_for_remaining (after (reconnect ∷ []) (new_policy 1048576)) 7 ≤ 1048576)
chunk_size_for_remaining-bounds_example =
    chunk_size_for_remaining-bounds 1048576 7 (reconnect ∷ []) (omega arith) (omega arith)

reconnects-minimum_example :
    (after (reconnects 21) (new_policy 1048576)).current_chunk_size_bytes
    ≡ (after (reconnects 21) (new_policy 1048576)).min_chunk_size_bytes
reconnects-minimum_example = reconnects-minimum 1048576 21 (omega arith) (omega arith)
