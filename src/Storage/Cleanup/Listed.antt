-- ===== src/Storage/Cleanup/Listed.antt =====
-- From the entries that a clean-up goes through back to the records in the stores.
use remerge.Prelude.{
  Bool, true, false, some, List, [], ◌∷◌, ◌++◌, Bool-cases, ◌≡◌, inl, inr, leb, keep_if, All,
}
use remerge.Prelude.Text.{Text, text_beq, text_beq_iff, text_eq}
use remerge.Prelude.Dict.{Dict, get}
use remerge.Storage.Blobs.{BlobMetadata}
use remerge.Storage.Cleanup.{
  EntryKind, CleanupEntry, is_active, unreferenced, insert_oldest, sort_oldest, retained_bytes_of,
}

-- What is listed of a record that no active reference names
abbrev pub entry_of : EntryKind → Text → BlobMetadata → CleanupEntry
entry_of kind j m = record {
  kind = kind;
  digest = j;
  last_referenced_at = m.last_referenced_at;
  retained_bytes = retained_bytes_of m;
}

module _ (P : CleanupEntry → Type 0) where
  insert_oldest-All_back :
      (e : CleanupEntry) (es : List CleanupEntry) → All P (insert_oldest e es) → P e × All P es
  unfolding insert_oldest
  insert_oldest-All_back e [] h = h
  insert_oldest-All_back e (f ∷ fs) h =
      elim (Bool-cases (leb e.last_referenced_at f.last_referenced_at)) [
        | inl first ↦ rw first at h
        | inr later ↦
            let all : All P (f ∷ insert_oldest e fs) = rw later at h in
            let (here, rest) = insert_oldest-All_back e fs all.1 in (here, (all.0, rest))
      ]

  pub sort_oldest-All_back : (es : List CleanupEntry) → All P (sort_oldest es) → All P es
  unfolding sort_oldest
  sort_oldest-All_back [] h = tt
  sort_oldest-All_back (e ∷ es) h =
      let (here, rest) = insert_oldest-All_back e (sort_oldest es) h in
      (here, sort_oldest-All_back es rest)

  pub keep_if-All_back :
      (test : CleanupEntry → Bool) (es : List CleanupEntry)
      → All P (keep_if test es)
      → All (λ e. test e ≡ true → P e) es
  keep_if-All_back test [] h = tt
  keep_if-All_back test (e ∷ es) h = elim (Bool-cases (test e)) [
    | inl kept ↦
        let all : P e × All P (keep_if test es) = rw kept at h in
        (λ t. all.0, keep_if-All_back test es all.1)
    | inr dropped ↦
        let all : All P (keep_if test es) = rw dropped at h in
        (λ t. absurd (cc (t, dropped)), keep_if-All_back test es all)
  ]

  pub append-All_back : (xs ys : List CleanupEntry) → All P (xs ++ ys) → All P xs × All P ys
  append-All_back [] ys h = (tt, h)
  append-All_back (x ∷ xs) ys h =
      let (first, second) = append-All_back xs ys h.1 in ((h.0, first), second)

  entry_at :
      (kind : EntryKind) (d j : Text) (n m : BlobMetadata)
      → d ≡ j
      → n ≡ m
      → P (entry_of kind d n)
      → P (entry_of kind j m)
  entry_at kind d j n m key value h = rw (← key, ← value) h

  -- What holds of all listed entries holds of each record that no active reference names.
  pub unreferenced-entry :
      (kind : EntryKind) (active : List Text) (metas : Dict Text BlobMetadata) (j : Text)
      (m : BlobMetadata)
      → get j metas ≡ some m
      → is_active j active ≡ false
      → All P (unreferenced kind active metas)
      → P (entry_of kind j m)
  unfolding unreferenced get
  unreferenced-entry kind active [] j m found unused h = cc found
  unreferenced-entry kind active ((d, n) ∷ ms) j m found unused h =
      let later : (rest : All P (unreferenced kind active ms)) (e : get j ms ≡ some m)
          → P (entry_of kind j m) =
        λ rest e. unreferenced-entry kind active ms j m e unused rest in
      elim (Bool-cases (text_beq d j)) [
        | inl same ↦
            let key : d ≡ j = (text_beq_iff d j).0 same in
            let value : some n ≡ some m = rw same at found in
            let idle : is_active d active ≡ false = rw key unused in
            let all : P (entry_of kind d n) × All P (unreferenced kind active ms) = rw idle at h in
            entry_at kind d j n m key (cc value) all.0
        | inr other ↦
            let next : get j ms ≡ some m = rw other at found in
            elim (Bool-cases (is_active d active)) [
              | inl used ↦ later (rw used at h) next
              | inr idle ↦
                  let all : P (entry_of kind d n) × All P (unreferenced kind active ms) =
                    rw idle at h in
                  later all.1 next
            ]
      ]
