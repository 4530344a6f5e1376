-- ===== src/Response/Store.antt =====
-- internal/response/storage.go, storage_write.go, storage_cleanup.go: the store of full responses.
-- Times are counts of nanoseconds; a part under the mutex is one function.
pub mod Accounting
pub mod Eviction
pub mod System
pub mod Tracked
use mini.Prelude.{
  ℕ, ◌+◌, ◌-◌, Bool, true, false, ◌||◌, not, List, [], ◌∷◌, ◌++◌, Bytes, ◌==◌, ltb, is_empty,
  length, if◌then◌else◌,
}
use mini.Prelude.Int.{ℤ, pos, negsuc}

pub record StoredFile : Type 0 where
  pub path : Bytes
  pub size : ℕ
  pub expires : ℕ

pub record Store : Type 0 where
  pub ttl : ℕ
  pub budget_bytes : ℤ
  pub used_bytes : ℕ
  pub files : List StoredFile

-- used > budget
abbrev pub over : ℕ → ℤ → Bool
over used (pos budget) = ltb budget used
over used (negsuc _) = true

abbrev pub is_zero : ℤ → Bool
is_zero (pos n) = n == 0
is_zero (negsuc _) = false

pub record Evicted : Type 0 where
  pub out : List StoredFile
  pub used : ℕ
  pub kept : List StoredFile

abbrev pub evict_first : StoredFile → Evicted → Evicted
evict_first f e = record e { out = f ∷ e.out }

-- The loop of evictOvershoot.
unfoldable pub evict_loop : ℤ → ℕ → List StoredFile → Evicted
evict_loop budget used [] = record { out = []; used = used; kept = [] }
evict_loop budget used (f ∷ []) = record { out = []; used = used; kept = f ∷ [] }
evict_loop budget used (f ∷ g ∷ files) =
    let rest = evict_loop budget (used - f.size) (g ∷ files) in
    if over used budget
    then evict_first f rest
    else record { out = []; used = used; kept = f ∷ g ∷ files }

unfoldable pub evict_overshoot : Store → List StoredFile × Store
evict_overshoot s =
    let e = evict_loop s.budget_bytes s.used_bytes s.files in
    if is_zero s.budget_bytes || not (over s.used_bytes s.budget_bytes)
    then ([], s)
    else (e.out, record s { used_bytes = e.used; files = e.kept })

-- recordWrite up to the Unlock: the files to remove, and the store.
unfoldable pub record_write : Bytes → ℕ → ℕ → Store → List StoredFile × Store
record_write path size now s = evict_overshoot (record s {
  files = s.files ++ record { path = path; size = size; expires = now + s.ttl } ∷ [];
  used_bytes = s.used_bytes + size;
})

-- The kept files and the expired ones.
unfoldable pub partition_by_expiry : List StoredFile → ℕ → List StoredFile × List StoredFile
partition_by_expiry [] now = ([], [])
partition_by_expiry (f ∷ files) now =
    let (kept, expired) = partition_by_expiry files now in
    if ltb now f.expires then (f ∷ kept, expired) else (kept, f ∷ expired)

unfoldable pub release : ℕ → List StoredFile → ℕ
release used [] = used
release used (f ∷ files) = release (used - f.size) files

-- evictExpired up to the Unlock.
unfoldable pub evict_expired : ℕ → Store → List StoredFile × Store
evict_expired now s =
    let (kept, expired) = partition_by_expiry s.files now in
    (expired, record s { used_bytes = release s.used_bytes expired; files = kept })

unfoldable pub reclaim : ℕ → List StoredFile → ℕ
reclaim used [] = used
reclaim used (f ∷ files) = reclaim (used + f.size) files

-- The part of restoreRemoveFailed under the mutex, for the files that could not be removed.
unfoldable pub restore_failed : List StoredFile → Store → Store
restore_failed failed s =
    if is_empty failed
    then s
    else record s { used_bytes = reclaim s.used_bytes failed; files = failed ++ s.files }

-- What os.Remove can answer.
pub data Removal : Type 0 where
  removed missing refused : Removal

abbrev pub warns : Removal → Bool
warns removed = false
warns missing = false
warns refused = true

module _ (remove : Bytes → Removal) where
  unfoldable pub collect_remove_failed : List StoredFile → List StoredFile
  collect_remove_failed [] = []
  collect_remove_failed (f ∷ files) =
      let failed = collect_remove_failed files in
      if warns (remove f.path) then f ∷ failed else failed

  abbrev pub restore_remove_failed : List StoredFile × Store → Store
  restore_remove_failed (files, s) = restore_failed (collect_remove_failed files) s

unfoldable pub stats : Store → ℕ × ℕ
stats s = (length s.files, s.used_bytes)
