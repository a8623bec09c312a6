-- ===== src/Storage/Blobs/Verified.antt =====
-- Every stored blob is stored under the digest of its bytes.
use remerge.Prelude.{
  ℕ, Bool, true, false, not, Option, none, some, List, Result, ok, err, Result-cases, Bool-cases,
  Option-cases, if◌then◌else◌, arith, ◌≡◌, ◌⊎◌, inl, inr, refl, sym, ◌∙◌, length, is_some,
}
use remerge.Prelude.Text.{Text, text_beq, text_beq_iff, text_eq}
use remerge.Prelude.Dict.{Dict, get, get-insert}
use remerge.Prelude.Ops.{Op, ◌>>◌, continue_with, pure, Keeps}
use remerge.Types.Client.{DateTime}
use remerge.Storage.Blobs.{
  BlobMetadata, BlobStore, BlobError, Codec, validate_digest, encode_zstd_if_worthwhile,
  load_blob_metadata, persist_blob_metadata, ensured, ensure_blob_metadata, is_not_found_error,
  write_new, store_encoded_blob_variant, store_if_some, store_unless, maybe_store_zstd_variant,
  record_blob, touch_blob, store_blob_for_digest,
}

abbrev blobs_of : BlobStore → Dict Text (List ℕ)
blobs_of s = s.blobs

abbrev KeepsBlobs : {A : Type 0} → Op BlobStore BlobError A → Type 0
KeepsBlobs m = Keeps blobs_of m

-- Each identity of the store is its bytes'.
pub record IsVerified (codec : Codec) (store : BlobStore) : Type 0 where
  pub verified :
      (digest : Text) (bytes : List ℕ)
      → get digest store.blobs ≡ some bytes
      → codec.sha256_hex bytes ≡ digest

ensure-KeepsBlobs :
    (now : DateTime) (digest : Text) (raw : ℕ) → KeepsBlobs (ensure_blob_metadata now digest raw)
unfolding ensure_blob_metadata persist_blob_metadata
ensure-KeepsBlobs now digest raw s = elim (Result-cases (load_blob_metadata digest s).0) [
  | inl (m, e) ↦ rw (e, ensure_blob_metadata, ensured) refl
  | inr (x, e) ↦ elim (Bool-cases (is_not_found_error x)) [
    | inl missing ↦ rw (e, ensure_blob_metadata, ensured, missing) refl
    | inr other ↦ rw (e, ensure_blob_metadata, ensured, other) refl
  ]
]

store_encoded-KeepsBlobs :
    (now : DateTime) (digest : Text) (raw : ℕ) (bytes : List ℕ)
    → KeepsBlobs (store_encoded_blob_variant now digest raw bytes)
unfolding store_encoded_blob_variant persist_blob_metadata
store_encoded-KeepsBlobs now digest raw bytes s = ground (arith, ensure-KeepsBlobs now digest raw s)

store_if_some-KeepsBlobs :
    (now : DateTime) (digest : Text) (raw : ℕ) (c : Option (List ℕ))
    → KeepsBlobs (store_if_some now digest raw c)
store_if_some-KeepsBlobs now digest raw none s = refl
store_if_some-KeepsBlobs now digest raw (some c) s = store_encoded-KeepsBlobs now digest raw c s

store_unless-KeepsBlobs :
    (present : Bool) (codec : Codec) (now : DateTime) (digest : Text) (bytes : List ℕ)
    → KeepsBlobs (store_unless present codec now digest bytes)
store_unless-KeepsBlobs true codec now digest bytes s = refl
store_unless-KeepsBlobs false codec now digest bytes s =
    elim (Result-cases (encode_zstd_if_worthwhile codec bytes)) [
      | inl (c, e) ↦ rw e (store_if_some-KeepsBlobs now digest (length bytes) c s)
      | inr (x, e) ↦ rw e refl
    ]

maybe_store-KeepsBlobs :
    (codec : Codec) (now : DateTime) (digest : Text) (bytes : List ℕ)
    → KeepsBlobs (maybe_store_zstd_variant codec now digest bytes)
unfolding maybe_store_zstd_variant
maybe_store-KeepsBlobs codec now digest bytes s =
    let t = (ensure_blob_metadata now digest (length bytes) s).1 in
    ground (
      arith,
      store_unless-KeepsBlobs true codec now digest bytes t,
      store_unless-KeepsBlobs false codec now digest bytes t,
      ensure-KeepsBlobs now digest (length bytes) s,
    )

touch-KeepsBlobs :
    (now : DateTime) (digest : Text) (at : DateTime) → KeepsBlobs (touch_blob now digest at)
unfolding touch_blob persist_blob_metadata
touch-KeepsBlobs now digest at s = elim (Result-cases (validate_digest digest)) [
  | inr (x, e) ↦ rw e refl
  | inl (u, e) ↦ elim (Option-cases (get digest s.blobs)) [
    | inl n ↦ rw (e, n) refl
    | inr (blob, n) ↦ rw (e, n) (ground (arith, ensure-KeepsBlobs now digest (length blob) s))
  ]
]

continue-blobs :
    {A B : Type 0} (r : Result BlobError A × BlobStore) (f : A → Op BlobStore BlobError B)
    (files : Dict Text (List ℕ))
    → r.1.blobs ≡ files
    → ((a : A) (t : BlobStore) → t.blobs ≡ files → (f a t).1.blobs ≡ files)
    → (continue_with r f).1.blobs ≡ files
continue-blobs (ok a, t) f files e h = h a t e
continue-blobs (err x, t) f files e h = e

module _ (codec : Codec) (now : DateTime) (digest : Text) (bytes : List ℕ) where
  record-KeepsBlobs : KeepsBlobs (record_blob codec now digest bytes)
  unfolding record_blob
  record-KeepsBlobs s =
      continue-blobs (ensure_blob_metadata now digest (length bytes) s)
        (λ (_ : BlobMetadata).
          maybe_store_zstd_variant codec now digest bytes >> touch_blob now digest now)
        s.blobs (ensure-KeepsBlobs now digest (length bytes) s)
        (λ m t e.
          continue-blobs (maybe_store_zstd_variant codec now digest bytes t)
            (λ (_ : Unit {0}). touch_blob now digest now) s.blobs
            (maybe_store-KeepsBlobs codec now digest bytes t ∙ e)
            (λ u v d. touch-KeepsBlobs now digest now v ∙ d))

  -- The blobs after storing one: as before, or with the verified bytes added.
  pub store_blob-blobs :
      (s : BlobStore)
      → ((store_blob_for_digest codec now digest bytes s).1 ≡ s)
        ⊎ ((codec.sha256_hex bytes ≡ digest)
            × ((store_blob_for_digest codec now digest bytes s).1.blobs
                ≡ write_new digest bytes s.blobs))
  unfolding store_blob_for_digest
  store_blob-blobs s = elim (Result-cases (validate_digest digest)) [
    | inr (x, e) ↦ inl (rw (e, store_blob_for_digest) refl)
    | inl (u, e) ↦ elim (Bool-cases (text_beq (codec.sha256_hex bytes) digest)) [
      | inr differs ↦ inl (rw (e, store_blob_for_digest, differs) refl)
      | inl same ↦
          let put : BlobStore = record s { blobs = write_new digest bytes s.blobs } in
          inr (
            (text_beq_iff (codec.sha256_hex bytes) digest).0 same,
            rw (e, store_blob_for_digest, same)
                (continue-blobs (record_blob codec now digest bytes put)
                  (λ (_ : Unit {0}). pure (not (is_some (get digest s.blobs))))
                  (write_new digest bytes s.blobs) (record-KeepsBlobs put) (λ v t d. d)),
          )
    ]
  ]

module _ (codec : Codec) (now : DateTime) (digest : Text) (bytes : List ℕ) (s : BlobStore) where
  get-write_new :
      (j : Text)
      → get j (write_new digest bytes s.blobs) ≡ (
          if is_some (get digest s.blobs)
          then get j s.blobs
          else if text_beq digest j
          then some bytes
          else get j s.blobs)
  get-write_new j = elim (Bool-cases (is_some (get digest s.blobs))) [
    | inl there ↦ rw there refl
    | inr missing ↦ rw missing (get-insert digest j bytes s.blobs)
  ]

  stays :
      (j : Text) (old : List ℕ)
      → get j s.blobs ≡ some old
      → get j (write_new digest bytes s.blobs) ≡ some old
  stays j old n = elim (Bool-cases (is_some (get digest s.blobs))) [
    | inl there ↦ rw (get-write_new j, there) n
    | inr missing ↦ elim (Bool-cases (text_beq digest j)) [
      | inr other ↦ rw (get-write_new j, missing, other) n
      | inl same ↦
          let gone : is_some (get j s.blobs) ≡ false =
            rw (← (text_beq_iff digest j).0 same) missing in
          absurd (cc (rw n at gone))
    ]
  ]

  added :
      (j : Text) (b : List ℕ)
      → get j (write_new digest bytes s.blobs) ≡ some b
      → (get j s.blobs ≡ some b) ⊎ ((j ≡ digest) × (b ≡ bytes))
  added j b n = elim (Bool-cases (is_some (get digest s.blobs))) [
    | inl there ↦ inl (rw (get-write_new j, there) at n)
    | inr missing ↦ elim (Bool-cases (text_beq digest j)) [
      | inr other ↦ inl (rw (get-write_new j, missing, other) at n)
      | inl same ↦
          let it : some bytes ≡ some b = rw (get-write_new j, missing, same) at n in
          inr (sym ((text_beq_iff digest j).0 same), ground arith)
    ]
  ]

  -- Whatever is stored, and whether or not that succeeds, each blob stays stored under the digest of
  -- its bytes, what was stored stays, and no blob appears but the given one under its digest.
  pub store_blob_for_digest-IsVerified :
      IsVerified codec s
      → IsVerified codec (store_blob_for_digest codec now digest bytes s).1
        × ((j : Text) (old : List ℕ)
            → get j s.blobs ≡ some old
            → get j (store_blob_for_digest codec now digest bytes s).1.blobs ≡ some old)
        × ((j : Text) (b : List ℕ)
            → get j (store_blob_for_digest codec now digest bytes s).1.blobs ≡ some b
            → (get j s.blobs ≡ some b) ⊎ ((j ≡ digest) × (b ≡ bytes)))
  store_blob_for_digest-IsVerified v = elim (store_blob-blobs codec now digest bytes s) [
    | inl same ↦ rw same (v, λ j old n. n, λ j b n. inl n)
    | inr (right, e) ↦ (
      record {
        verified = λ j b n. elim (added j b (rw e at n)) [
          | inl before ↦ v.verified j b before
          | inr (here, given) ↦ rw (here, given) right
        ];
      },
      λ j old n. rw e (stays j old n),
      λ j b n. added j b (rw e at n),
    )
  ]
