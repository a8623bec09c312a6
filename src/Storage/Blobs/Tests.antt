-- ===== src/Storage/Blobs/Tests.antt =====
-- Blobs stored in an empty store, and the theorem there.
use remerge.Prelude.{ℕ, true, some, List, [], ◌∷◌, ok, ◌≡◌, ◌⊎◌, refl}
use remerge.Prelude.Text.{Text, text_eq}
use remerge.Prelude.Dict.{get, insert, remove}
use remerge.Storage.Samples.{digest_of, toy_codec, no_blobs}
use remerge.Storage.Blobs.{store_blob_for_digest, record_blob, delete_blob}
use remerge.Storage.Blobs.Verified.{IsVerified, store_blob_for_digest-IsVerified}

abbrev bytes : List ℕ
bytes = 7 ∷ 8 ∷ 9 ∷ []

stored : (store_blob_for_digest toy_codec 5 (digest_of bytes) bytes no_blobs).0 ≡ ok true
unfolding store_blob_for_digest record_blob get insert
stored = refl

deleted :
    (delete_blob
      (digest_of bytes)
      (store_blob_for_digest toy_codec 5 (digest_of bytes) bytes no_blobs).1).1
    ≡ no_blobs
unfolding store_blob_for_digest record_blob get insert delete_blob remove
deleted = refl

no_blobs-IsVerified : IsVerified toy_codec no_blobs
unfolding get
no_blobs-IsVerified = record { verified = λ digest bytes n. cc }

store_blob_for_digest-IsVerified_example :
    IsVerified toy_codec (store_blob_for_digest toy_codec 5 (digest_of bytes) bytes no_blobs).1
    × ((j : Text) (old : List ℕ)
        → get j no_blobs.blobs ≡ some old
        → get j (store_blob_for_digest toy_codec 5 (digest_of bytes) bytes no_blobs).1.blobs
          ≡ some old)
    × ((j : Text) (b : List ℕ)
        → get j (store_blob_for_digest toy_codec 5 (digest_of bytes) bytes no_blobs).1.blobs
          ≡ some b
        → (get j no_blobs.blobs ≡ some b) ⊎ ((j ≡ digest_of bytes) × (b ≡ bytes)))
store_blob_for_digest-IsVerified_example =
    store_blob_for_digest-IsVerified toy_codec 5 (digest_of bytes) bytes no_blobs
      no_blobs-IsVerified
