-- ===== src/Storage/Cleanup/Spared.antt =====
-- What a clean-up of the snapshot stores leaves alone.
use remerge.Prelude.{
  ℕ, Bool, true, false, none, some, List, [], ◌∷◌, Result-cases, Bool-cases, arith, ◌≡◌, ◌≢◌, inl,
  inr, refl, ◌∙◌, leb, keep_if, All, All-imp,
}
use remerge.Prelude.Text.{Text, text_beq, text_beq_iff, text_eq}
use remerge.Prelude.Dict.{Dict, get, remove, get-remove, IsDistinct}
use remerge.Server.State.{SnapshotReferenceSet}
use remerge.Storage.Blobs.{BlobMetadata, BlobStore, validate_digest, delete_blob}
use remerge.Storage.Cleanup.{
  Stores, EntryKind, blob, tree, CleanupEntry, Sweep, is_active, unreferenced, insert_oldest,
  sort_oldest, delete_from, delete_cleanup_entry, delete_entries, blob_digests_of, tree_digests_of,
}

abbrev pub store_of : EntryKind → Stores → BlobStore
store_of blob stores = stores.blobs
store_of tree stores = stores.trees

abbrev pub digests_of : EntryKind → List SnapshotReferenceSet → List Text
digests_of blob references = blob_digests_of references
digests_of tree references = tree_digests_of references

-- All files of a digest are as they were.
pub record IsSpared (j : Text) (s s' : BlobStore) : Type 0 where
  pub blobs : get j s'.blobs ≡ get j s.blobs
  pub metadata : get j s'.metadata ≡ get j s.metadata
  pub zst : get j s'.zst ≡ get j s.zst

pub IsSpared-refl : (j : Text) (s : BlobStore) → IsSpared j s s
IsSpared-refl j s = record { blobs = refl; metadata = refl; zst = refl }

pub IsSpared-trans :
    (j : Text) (s t u : BlobStore) → IsSpared j s t → IsSpared j t u → IsSpared j s u
IsSpared-trans j s t u h k = record {
  blobs = k.blobs ∙ h.blobs;
  metadata = k.metadata ∙ h.metadata;
  zst = k.zst ∙ h.zst;
}

text_ne_beq : (d j : Text) → d ≢ j → text_beq d j ≡ false
text_ne_beq d j h = ground (arith, text_beq_iff d j)

get-remove_other :
    {V : Type 0} (d j : Text) (m : Dict Text V) → d ≢ j → get j (remove d m) ≡ get j m
get-remove_other d j m h = rw (get-remove d j, text_ne_beq d j h) refl

delete_blob-IsSpared : (d j : Text) (s : BlobStore) → d ≢ j → IsSpared j s (delete_blob d s).1
unfolding delete_blob
delete_blob-IsSpared d j s h = elim (Result-cases (validate_digest d)) [
  | inr (x, e) ↦ rw (delete_blob, e) (IsSpared-refl j s)
  | inl (u, e) ↦
      rw (delete_blob, e)
        (record {
          blobs = get-remove_other d j s.blobs h;
          metadata = get-remove_other d j s.metadata h;
          zst = ground (arith, get-remove_other d j s.zst h);
        })
]

-- The entry is of the other kind or has another digest.
abbrev pub Misses : EntryKind → Text → CleanupEntry → Type 0
Misses kind j e = e.kind ≡ kind → e.digest ≢ j

delete_from-IsSpared :
    (k : EntryKind) (d : Text) (kind : EntryKind) (j : Text) (stores : Stores)
    → (k ≡ kind → d ≢ j)
    → IsSpared j (store_of kind stores) (store_of kind (delete_from k d stores).1)
unfolding delete_from
delete_from-IsSpared blob d blob j stores h = delete_blob-IsSpared d j stores.blobs (h refl)
delete_from-IsSpared blob d tree j stores h = IsSpared-refl j stores.trees
delete_from-IsSpared tree d blob j stores h = IsSpared-refl j stores.blobs
delete_from-IsSpared tree d tree j stores h = delete_blob-IsSpared d j stores.trees (h refl)

pub delete_cleanup_entry-stores :
    (e : CleanupEntry) (s : Sweep)
    → (delete_cleanup_entry e s).1.stores ≡ (delete_from e.kind e.digest s.stores).1
unfolding delete_cleanup_entry
delete_cleanup_entry-stores e s = elim (Result-cases (delete_from e.kind e.digest s.stores).0) [
  | inl (u, r) ↦ rw (delete_cleanup_entry, r) refl
  | inr (x, r) ↦ rw (delete_cleanup_entry, r) refl
]

module _ (kind : EntryKind) (j : Text) (floor : ℕ) where
  pub delete_entries-IsSpared :
      (es : List CleanupEntry) (s : Sweep)
      → All (Misses kind j) es
      → IsSpared j (store_of kind s.stores) (store_of kind (delete_entries floor es s).1.stores)
  unfolding delete_entries
  delete_entries-IsSpared [] s h = IsSpared-refl j (store_of kind s.stores)
  delete_entries-IsSpared (e ∷ es) s h =
      let t = (delete_cleanup_entry e s).1 in
      let first : IsSpared j (store_of kind s.stores) (store_of kind t.stores) =
        rw (delete_cleanup_entry-stores e s)
          (delete_from-IsSpared e.kind e.digest kind j s.stores h.0) in
      elim (Bool-cases (leb s.total_retained_bytes floor)) [
        | inl low ↦ rw (delete_entries, low) (IsSpared-refl j (store_of kind s.stores))
        | inr high ↦ elim (Result-cases (delete_cleanup_entry e s).0) [
          | inr (x, r) ↦ rw (delete_entries, high, r) first
          | inl (u, r) ↦
              rw (delete_entries, high, r)
                (IsSpared-trans j (store_of kind s.stores) (store_of kind t.stores) _ first
                  (delete_entries-IsSpared es t h.1))
        ]
      ]

module _ (P : CleanupEntry → Type 0) where
  insert_oldest-All :
      (e : CleanupEntry) (es : List CleanupEntry) → P e → All P es → All P (insert_oldest e es)
  unfolding insert_oldest
  insert_oldest-All e [] h hs = (h, tt)
  insert_oldest-All e (f ∷ fs) h hs =
      elim (Bool-cases (leb e.last_referenced_at f.last_referenced_at)) [
        | inl first ↦ rw first (h, hs)
        | inr later ↦ rw later (hs.0, insert_oldest-All e fs h hs.1)
      ]

  pub sort_oldest-All : (es : List CleanupEntry) → All P es → All P (sort_oldest es)
  unfolding sort_oldest
  sort_oldest-All [] hs = tt
  sort_oldest-All (e ∷ es) hs = insert_oldest-All e (sort_oldest es) hs.0 (sort_oldest-All es hs.1)

pub keep_if-All :
    (P Q : CleanupEntry → Type 0) (test : CleanupEntry → Bool)
    → ((e : CleanupEntry) → P e → test e ≡ true → Q e)
    → (es : List CleanupEntry) → All P es
    → All Q (keep_if test es)
keep_if-All P Q test imp [] hs = tt
keep_if-All P Q test imp (e ∷ es) hs = elim (Bool-cases (test e)) [
  | inl kept ↦ rw kept (imp e hs.0 kept, keep_if-All P Q test imp es hs.1)
  | inr not_kept ↦ rw not_kept (keep_if-All P Q test imp es hs.1)
]

-- What is known of an entry that a clean-up looks at.
pub record IsListed (kind : EntryKind) (active : List Text) (metas : Dict Text BlobMetadata)
    (e : CleanupEntry) : Type 0 where
  pub of_kind : e.kind ≡ kind
  pub inactive : is_active e.digest active ≡ false
  pub meta : BlobMetadata
  pub found : get e.digest metas ≡ some meta
  pub time : meta.last_referenced_at ≡ e.last_referenced_at

IsListed-later :
    (kind : EntryKind) (active : List Text) (d : Text) (m : BlobMetadata)
    (ms : Dict Text BlobMetadata)
    → get d ms ≡ none
    → (e : CleanupEntry) → IsListed kind active ms e
    → IsListed kind active ((d, m) ∷ ms) e
unfolding get
IsListed-later kind active d m ms new e h = record {
  of_kind = h.of_kind;
  inactive = h.inactive;
  meta = h.meta;
  found = elim (Bool-cases (text_beq d e.digest)) [
    | inr other ↦ rw other h.found
    | inl same ↦
        let gone : get e.digest ms ≡ none = rw (← (text_beq_iff d e.digest).0 same) new in
        absurd (cc (gone, h.found))
  ];
  time = h.time;
}

pub unreferenced-IsListed :
    (kind : EntryKind) (active : List Text) (metas : Dict Text BlobMetadata)
    → IsDistinct metas
    → All (IsListed kind active metas) (unreferenced kind active metas)
unfolding unreferenced IsDistinct get
unreferenced-IsListed kind active [] d = tt
unreferenced-IsListed kind active ((digest, m) ∷ ms) d =
    let later =
      All-imp (IsListed kind active ms) (IsListed kind active ((digest, m) ∷ ms))
        (IsListed-later kind active digest m ms d.0) (unreferenced kind active ms)
        (unreferenced-IsListed kind active ms d.1) in
    elim (Bool-cases (is_active digest active)) [
      | inl used ↦ rw used later
      | inr unused ↦ rw unused (
        record {
          of_kind = refl;
          inactive = unused;
          meta = m;
          found = rw ((text_beq_iff digest digest).1 refl) refl;
          time = refl;
        },
        later,
      )
    ]
