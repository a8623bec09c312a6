-- ===== src/Storage/Cleanup/Reached.antt =====
-- A clean-up that succeeds gets down to the floor, or has nothing left to delete.
use remerge.Prelude.{Bool, ℕ, ◌≤◌, none, List, ◌≡◌, ◌⊎◌, keep_if, All}
use remerge.Prelude.Text.{Text, text_eq}
use remerge.Prelude.Dict.{get}
use remerge.Server.State.{SnapshotReferenceSet}
use remerge.Storage.Cleanup.{
  Stores, CleanupSettings, EntryKind, CleanupEntry, Sweep, sort_oldest, candidates,
}
use remerge.Storage.Cleanup.Spared.{store_of}

-- no record of a digest
abbrev pub IsForgotten : Stores → EntryKind → Text → Type 0
IsForgotten stores kind j = get j (store_of kind stores).metadata ≡ none

module _ (floor : ℕ) where
  -- Either the floor is reached or all of the entries are forgotten.
  abbrev pub IsReached : List CleanupEntry → Sweep → Type 0
  IsReached es t =
      (t.total_retained_bytes ≤ floor)
      ⊎ All (λ (e : CleanupEntry). IsForgotten t.stores e.kind e.digest) es

module _ (c : CleanupSettings) (references : List SnapshotReferenceSet) (stores : Stores) where
  -- the entries that either loop goes through
  old_enough : (CleanupEntry → Bool) → List CleanupEntry
  old_enough test = sort_oldest (keep_if test (candidates references stores))
