-- ===== src/Storage/Blobs.antt =====
-- crates/server/src/blob_store.rs and crates/types/src/compression.rs: blobs under their SHA-256
-- digests, with a record for each and, where that saves enough, a compressed copy. The files are
-- dictionaries from digests. SHA-256 and zstd are parameters. The system calls succeed, and a file
-- is missing or holds what was written to it.
pub mod Verified
mod Tests
use remerge.Prelude.{
  ℕ, ◌+◌, ◌-◌, ◌*◌, ◌%◌, Bool, true, false, not, ◌&&◌, ◌||◌, Option, none, some, List, [], Result,
  ok, err, ok_or, bail_if, if◌then◌else◌, ltb, leb, ◌==◌, length, all, is_some, Eq, ◌≡◌, ◌↔◌, refl,
  nat_eq,
}
use remerge.Prelude.Text.{is_ascii_hexdigit, Text, text_beq, text_eq, is_ascii_digit}
use remerge.Prelude.Dict.{Dict, get, insert, remove}
use remerge.Prelude.Ops.{Op, ◌>>=◌, ◌>>◌, continue_with, pure, reads, writes, lifts}
use remerge.Types.Client.{DateTime}
use remerge.Server.State.{u64_mod}

pub data BlobEncoding : Type 0 where
  zstd : BlobEncoding

pub encoding_iff : (a b : BlobEncoding) → (true ≡ true) ↔ (a ≡ b)
encoding_iff zstd zstd = (λ _. refl, λ _. refl)

instance abbrev pub encoding_eq : Eq BlobEncoding
encoding_eq = record { beq = λ a b. true; beq_iff = encoding_iff }

pub record BlobMetadata : Type 0 where
  pub canonical_digest : Text
  pub raw_size_bytes : ℕ
  pub last_referenced_at : DateTime
  pub encoded_variants : Dict BlobEncoding ℕ

-- The files of the store, by digest
pub record BlobStore : Type 0 where
  pub blobs : Dict Text (List ℕ)
  pub metadata : Dict Text BlobMetadata
  pub zst : Dict Text (List ℕ)

pub data BlobError : Type 0 where
  invalid_digest metadata_missing blob_missing : Text → BlobError
  digest_mismatch metadata_digest_mismatch : Text → Text → BlobError
  metadata_size_mismatch raw_size_mismatch : Text → ℕ → ℕ → BlobError
  compression_failed : Text → BlobError

-- `Sha256` with `hex::encode`, and the two directions of `zstd::stream`
pub record Codec : Type 0 where
  pub sha256_hex : List ℕ → Text
  pub encode_all : List ℕ → Result Text (List ℕ)
  pub decode_all : List ℕ → Result Text (List ℕ)

-- `validate_digest`
unfoldable pub validate_digest : Text → Result BlobError (Unit {0})
validate_digest digest =
    if not (length digest == 64) || not (all is_ascii_hexdigit digest)
    then err (invalid_digest digest)
    else ok tt

-- `u64::saturating_add`
abbrev pub saturating_add : ℕ → ℕ → ℕ
saturating_add a b = if ltb (a + b) u64_mod then a + b else u64_mod - 1

abbrev pub min_zstd_variant_bytes : ℕ
min_zstd_variant_bytes = 65536

-- `compression_is_worthwhile`
unfoldable pub compression_is_worthwhile : ℕ → ℕ → Bool
compression_is_worthwhile raw_size_bytes encoded_size_bytes =
    ltb encoded_size_bytes raw_size_bytes
    && leb (raw_size_bytes * 10 % u64_mod) ((raw_size_bytes - encoded_size_bytes) * 100 % u64_mod)

-- `encode_zstd_if_worthwhile`
unfoldable pub encode_zstd_if_worthwhile : Codec → List ℕ → Result BlobError (Option (List ℕ))
unfolding compression_is_worthwhile
encode_zstd_if_worthwhile codec raw_bytes =
    if ltb (length raw_bytes) min_zstd_variant_bytes
    then ok none
    else elim (codec.encode_all raw_bytes) [
      | err e ↦ err (compression_failed e)
      | ok encoded ↦ ok (
          if compression_is_worthwhile (length raw_bytes) (length encoded)
          then some encoded
          else none)
    ]

-- `has_blob`
unfoldable pub has_blob : Text → Op BlobStore BlobError Bool
unfolding validate_digest
has_blob digest = do
  lifts (validate_digest digest)
  reads (λ store. ok (is_some (get digest store.blobs)))

-- `load_blob_metadata`
unfoldable pub load_blob_metadata : Text → Op BlobStore BlobError BlobMetadata
unfolding validate_digest
load_blob_metadata digest = do
  lifts (validate_digest digest)
  reads (λ store. ok_or (get digest store.metadata) (metadata_missing digest))

-- `is_not_found_error`
abbrev pub is_not_found_error : BlobError → Bool
is_not_found_error (metadata_missing d) = true
is_not_found_error _ = false

-- `persist_blob_metadata`
unfoldable pub persist_blob_metadata : Text → BlobMetadata → Op BlobStore BlobError (Unit {0})
persist_blob_metadata digest metadata =
    writes (λ store. record store { metadata = insert digest metadata store.metadata })

-- the checks of `ensure_blob_metadata` on a record that is there
abbrev pub check_metadata : Text → ℕ → BlobMetadata → Result BlobError BlobMetadata
check_metadata digest raw_size_bytes metadata =
    if not (text_beq metadata.canonical_digest digest)
    then err (metadata_digest_mismatch digest metadata.canonical_digest)
    else if not (metadata.raw_size_bytes == raw_size_bytes)
    then err (metadata_size_mismatch digest raw_size_bytes metadata.raw_size_bytes)
    else ok metadata

abbrev pub new_metadata : DateTime → Text → ℕ → BlobMetadata
new_metadata now digest raw_size_bytes = record {
  canonical_digest = digest;
  raw_size_bytes = raw_size_bytes;
  last_referenced_at = now;
  encoded_variants = [];
}

abbrev pub ensured :
    DateTime → Text → ℕ → Result BlobError BlobMetadata → Op BlobStore BlobError BlobMetadata
ensured now digest raw_size_bytes (ok metadata) =
    lifts (check_metadata digest raw_size_bytes metadata)
ensured now digest raw_size_bytes (err e) =
    if is_not_found_error e
    then (do
      persist_blob_metadata digest (new_metadata now digest raw_size_bytes)
      pure (new_metadata now digest raw_size_bytes))
    else lifts (err e)

-- `ensure_blob_metadata`
unfoldable pub ensure_blob_metadata : DateTime → Text → ℕ → Op BlobStore BlobError BlobMetadata
unfolding load_blob_metadata persist_blob_metadata
ensure_blob_metadata now digest raw_size_bytes store =
    ensured now digest raw_size_bytes (load_blob_metadata digest store).0 store

-- `write_bytes_atomically`: a file that is there stays as it is
abbrev pub write_new : Text → List ℕ → Dict Text (List ℕ) → Dict Text (List ℕ)
write_new digest bytes files =
    if is_some (get digest files) then files else insert digest bytes files

-- `store_encoded_blob_variant`
unfoldable pub store_encoded_blob_variant :
    DateTime → Text → ℕ → List ℕ → Op BlobStore BlobError (Unit {0})
unfolding ensure_blob_metadata persist_blob_metadata
store_encoded_blob_variant now digest raw_size_bytes bytes = do
  metadata ← ensure_blob_metadata now digest raw_size_bytes
  lifts (
      bail_if (not (metadata.raw_size_bytes == raw_size_bytes))
        (raw_size_mismatch digest metadata.raw_size_bytes raw_size_bytes))
  writes (λ store. record store { zst = write_new digest bytes store.zst })
  persist_blob_metadata digest
      (record metadata { encoded_variants = insert zstd (length bytes) metadata.encoded_variants })

abbrev pub store_if_some : DateTime → Text → ℕ → Option (List ℕ) → Op BlobStore BlobError (Unit {0})
store_if_some now digest raw_size_bytes none = pure tt
store_if_some now digest raw_size_bytes (some compressed) =
    store_encoded_blob_variant now digest raw_size_bytes compressed

abbrev pub store_unless :
    Bool → Codec → DateTime → Text → List ℕ → Op BlobStore BlobError (Unit {0})
store_unless true codec now digest bytes = pure tt
store_unless false codec now digest bytes = do
  compressed ← lifts (encode_zstd_if_worthwhile codec bytes)
  store_if_some now digest (length bytes) compressed

-- `maybe_store_zstd_variant`, whose answer its callers drop
unfoldable pub maybe_store_zstd_variant :
    Codec → DateTime → Text → List ℕ → Op BlobStore BlobError (Unit {0})
unfolding ensure_blob_metadata encode_zstd_if_worthwhile store_encoded_blob_variant
maybe_store_zstd_variant codec now digest bytes = do
  metadata ← ensure_blob_metadata now digest (length bytes)
  present ←
      reads (λ store.
        ok (is_some (get zstd metadata.encoded_variants) && is_some (get digest store.zst)))
  store_unless present codec now digest bytes

-- `touch_blob`
unfoldable pub touch_blob : DateTime → Text → DateTime → Op BlobStore BlobError (Unit {0})
unfolding validate_digest ensure_blob_metadata persist_blob_metadata
touch_blob now digest last_referenced_at = do
  lifts (validate_digest digest)
  blob ← reads (λ store. ok_or (get digest store.blobs) (blob_missing digest))
  metadata ← ensure_blob_metadata now digest (length blob)
  persist_blob_metadata digest (record metadata { last_referenced_at = last_referenced_at })

-- the raw file; the answer says whether it is new
abbrev pub put_blob : Text → List ℕ → Op BlobStore BlobError Bool
put_blob digest bytes store = (
  ok (not (is_some (get digest store.blobs))),
  record store { blobs = write_new digest bytes store.blobs },
)

-- the three calls that follow in `store_blob_for_digest`, with the blob there before or not
unfoldable pub record_blob : Codec → DateTime → Text → List ℕ → Op BlobStore BlobError (Unit {0})
unfolding ensure_blob_metadata maybe_store_zstd_variant touch_blob
record_blob codec now digest bytes = do
  metadata ← ensure_blob_metadata now digest (length bytes)
  maybe_store_zstd_variant codec now digest bytes
  touch_blob now digest now

-- `store_blob_for_digest`: whether the blob was uploaded
unfoldable pub store_blob_for_digest :
    Codec → DateTime → Text → List ℕ → Op BlobStore BlobError Bool
unfolding validate_digest
store_blob_for_digest codec now digest bytes = do
  lifts (validate_digest digest)
  lifts (
      bail_if (not (text_beq (codec.sha256_hex bytes) digest))
        (digest_mismatch digest (codec.sha256_hex bytes)))
  uploaded ← put_blob digest bytes
  record_blob codec now digest bytes
  pure uploaded

-- `delete_blob`
unfoldable pub delete_blob : Text → Op BlobStore BlobError (Unit {0})
unfolding validate_digest load_blob_metadata
delete_blob digest store = continue_with (lifts (validate_digest digest) store) (λ _ store. (
  ok tt,
  record {
    blobs = remove digest store.blobs;
    metadata = remove digest store.metadata;
    zst = elim (load_blob_metadata digest store).0 [
      | err e ↦ store.zst
      | ok metadata ↦
          if is_some (get zstd metadata.encoded_variants)
          then remove digest store.zst
          else store.zst
    ];
  },
))
