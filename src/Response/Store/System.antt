-- ===== src/Response/Store/System.antt =====
-- internal/response: the store with its disk and the calls in progress, as steps. WriteRaw creates
-- its file, then records it under the mutex; files are removed outside of it, one by one, and those
-- that could not be are put back under the mutex. Any two calls may interleave between these.
use mini.Prelude.{ℕ, ◌≡◌, false, List, [], ◌∷◌, ◌++◌, Bytes, bytes_eq, contains, if◌then◌else◌}
use mini.Response.Store.{StoredFile, Store, record_write, evict_expired, restore_failed}

-- A createUniqueFile that has returned, before recordWrite.
pub record Writing : Type 0 where
  pub path : Bytes
  pub size : ℕ

-- A restoreRemoveFailed: the files it has still to remove, and those it could not.
pub record Removing : Type 0 where
  pub waiting : List StoredFile
  pub failed : List StoredFile

pub record System : Type 0 where
  pub store : Store
  pub disk : List Bytes
  pub writings : List Writing
  pub removings : List Removing

unfoldable pub unlink : List Bytes → Bytes → List Bytes
unlink [] path = []
unlink (p ∷ disk) path = let rest = unlink disk path in if bytes_eq p path then rest else p ∷ rest

abbrev removing : List StoredFile → Removing
removing files = record { waiting = files; failed = [] }

pub data Step (s : System) : System → Type 0 where
  -- os.O_EXCL: the file is new.
  create :
      (path : Bytes) (size : ℕ)
      → contains s.disk path ≡ false
      → Step s (record s {
        disk = path ∷ s.disk;
        writings = record { path = path; size = size } ∷ s.writings;
      })
  record_file :
      (before after : List Writing) (w : Writing) (now : ℕ)
      → s.writings ≡ before ++ w ∷ after
      → Step s (record s {
        store = (record_write w.path w.size now s.store).1;
        writings = before ++ after;
        removings = removing (record_write w.path w.size now s.store).0 ∷ s.removings;
      })
  expire :
      (now : ℕ)
      → Step s (record s {
        store = (evict_expired now s.store).1;
        removings = removing (evict_expired now s.store).0 ∷ s.removings;
      })
  -- os.Remove succeeds, or finds no file; then nothing changes on the disk.
  remove_file :
      (before after : List Removing) (f : StoredFile) (waiting failed : List StoredFile)
      → s.removings ≡ before ++ record { waiting = f ∷ waiting; failed = failed } ∷ after
      → Step s (record s {
        disk = unlink s.disk f.path;
        removings = before ++ record { waiting = waiting; failed = failed } ∷ after;
      })
  remove_refused :
      (before after : List Removing) (f : StoredFile) (waiting failed : List StoredFile)
      → s.removings ≡ before ++ record { waiting = f ∷ waiting; failed = failed } ∷ after
      → Step s (record s {
        removings = before ++ record { waiting = waiting; failed = failed ++ f ∷ [] } ∷ after;
      })
  restore :
      (before after : List Removing) (failed : List StoredFile)
      → s.removings ≡ before ++ record { waiting = []; failed = failed } ∷ after
      → Step s (record s { store = restore_failed failed s.store; removings = before ++ after })
  -- Somebody else deletes a file of the directory.
  delete : (path : Bytes) → Step s (record s { disk = unlink s.disk path })

pub data Reach : System → System → Type 0 where
  start : {s : System} → Reach s s
  step : {s t u : System} → Reach s t → Step t u → Reach s u
