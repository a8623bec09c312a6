-- ===== src/Upload/Session/Offers.antt =====
-- crates/server/src/api.rs, `select_upload_encoding`: how the bytes of an upload are encoded.
use remerge.Prelude.{
  ℕ, Bool, not, Option, none, some, List, [], ◌∷◌, Result, ok, err, if◌then◌else◌, nat_eq, any,
}
use remerge.Prelude.Text.{Text, text_beq, text_eq}
use remerge.Upload.Session.{UploadError, unsupported_encoding, encoding_zstd}

pub record SnapshotBlobEncodingOffer : Type 0 where
  pub encoding : Text
  pub size_bytes : ℕ

-- `Iterator::find`
abbrev pub find {ℓ} : {A : Type ℓ} → (A → Bool) → List A → Option A
find p [] = none
find p (x ∷ xs) = let rest = find p xs in if p x then some x else rest

abbrev pub raw_unless : ℕ → Option SnapshotBlobEncodingOffer → Result UploadError (Option Text × ℕ)
raw_unless raw_size_bytes none = ok (none, raw_size_bytes)
raw_unless raw_size_bytes (some offer) = err (unsupported_encoding offer.encoding)

abbrev pub is_zstd_offer : SnapshotBlobEncodingOffer → Bool
is_zstd_offer offer = text_beq offer.encoding encoding_zstd

-- `select_upload_encoding`: the encoding and the size of the stream
unfoldable pub select_upload_encoding :
    ℕ → List Text → List SnapshotBlobEncodingOffer → Result UploadError (Option Text × ℕ)
select_upload_encoding raw_size_bytes capability_flags offered =
    let other = raw_unless raw_size_bytes (find (λ offer. not (is_zstd_offer offer)) offered) in
    if any (λ flag. text_beq flag encoding_zstd) capability_flags
    then elim (find is_zstd_offer offered) [
      | some offer ↦ ok (some offer.encoding, offer.size_bytes)
      | none ↦ other
    ]
    else other
