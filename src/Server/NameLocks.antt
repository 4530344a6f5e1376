-- ===== src/Server/NameLocks.antt =====
-- internal/server/name_locks.go: a lock for each name, made when it is asked for and dropped with its
-- last reference. A *nameLock is the number of its allocation. What happens under nameLocks.mu is one
-- step, since the mutex is held throughout.
pub mod Threads
pub mod Invariant
pub mod Steps
pub mod Safety
use mini.Prelude.{
  ℕ, zero, suc, ◌+◌, ◌-◌, ◌<◌, ◌≡◌, Bool, true, false, Option, none, some, Bytes, [], ◌==◌,
  if◌then◌else◌,
}
use mini.Prelude.Map.{Map, lookup, insert, erase}

-- f with the value x at i.
abbrev pub set {ℓ} : {A : Type ℓ} → (ℕ → A) → ℕ → A → ℕ → A
set f i x j = if i == j then x else f j

-- The map, and the mutex and the count of each lock that was allocated.
pub record NameLocks : Type 0 where
  pub locks : Map ℕ
  pub held : ℕ → Bool
  pub refs : ℕ → ℕ
  pub allocated : ℕ

abbrev pub no_locks : NameLocks
no_locks = record { locks = []; held = λ _. false; refs = λ _. 0; allocated = 0 }

-- &nameLock{} under the name, unless there is a lock.
abbrev pub entry_of : NameLocks → Bytes → Option ℕ → ℕ × NameLocks
entry_of l name (some id) = (id, l)
entry_of l name none = (
  l.allocated,
  record {
    locks = insert l.locks name l.allocated;
    held = set l.held l.allocated false;
    refs = set l.refs l.allocated 0;
    allocated = l.allocated + 1;
  },
)

unfoldable pub entry_locked : NameLocks → Bytes → ℕ × NameLocks
entry_locked l name = entry_of l name (lookup l.locks name)

abbrev pub with_refs : NameLocks → ℕ → ℕ → NameLocks
with_refs l id n = record {
  locks = l.locks;
  held = l.held;
  refs = set l.refs id n;
  allocated = l.allocated;
}

abbrev pub with_held : NameLocks → ℕ → Bool → NameLocks
with_held l id b = record {
  locks = l.locks;
  held = set l.held id b;
  refs = l.refs;
  allocated = l.allocated;
}

-- lock, up to l.mu.Unlock(): the lock to wait for.
unfoldable pub begin_lock : NameLocks → Bytes → ℕ × NameLocks
begin_lock l name = let (id, m) = entry_locked l name in (id, with_refs m id (m.refs id + 1))

abbrev pub try_entry : ℕ × NameLocks → Option ℕ × NameLocks
try_entry (id, m) =
    if m.held id then (none, m) else (some id, with_refs (with_held m id true) id (m.refs id + 1))

-- tryLock; `none` if the lock is held.
unfoldable pub try_lock : NameLocks → Bytes → Option ℕ × NameLocks
try_lock l name = try_entry (entry_locked l name)

abbrev pub delete_unused : NameLocks → Bytes → ℕ → NameLocks
delete_unused l name id =
    if l.refs id == 0
    then record {
      locks = erase l.locks name;
      held = l.held;
      refs = l.refs;
      allocated = l.allocated;
    }
    else l

-- release, from l.mu.Lock() on.
unfoldable pub drop_reference : NameLocks → Bytes → ℕ → NameLocks
drop_reference l name id = delete_unused (with_refs l id (l.refs id - 1)) name id

-- Where a goroutine stands: before a call, at nl.Lock(), between the call and its unlock, and in
-- release behind nl.Unlock().
pub data Thread : Type 0 where
  idle : Thread
  waiting holding releasing : Bytes → ℕ → Thread

abbrev pub after_try : Bytes → Option ℕ → Thread
after_try name none = idle
after_try name (some id) = holding name id

pub record System : Type 0 where
  pub shared : NameLocks
  pub thread : ℕ → Thread

abbrev pub moved : System → ℕ → NameLocks → Thread → System
moved s i l t = record { shared = l; thread = set s.thread i t }

-- One of n goroutines goes on.
pub data Step (n : ℕ) (s : System) : System → Type 0 where
  calls_lock :
      (i : ℕ) (name : Bytes)
      → i < n
      → s.thread i ≡ idle
      → Step n s
          (moved s i (begin_lock s.shared name).1 (waiting name (begin_lock s.shared name).0))
  acquires :
      (i : ℕ) (name : Bytes) (id : ℕ)
      → i < n
      → s.thread i ≡ waiting name id
      → s.shared.held id ≡ false
      → Step n s (moved s i (with_held s.shared id true) (holding name id))
  calls_try_lock :
      (i : ℕ) (name : Bytes)
      → i < n
      → s.thread i ≡ idle
      → Step n s (moved s i (try_lock s.shared name).1 (after_try name (try_lock s.shared name).0))
  unlocks :
      (i : ℕ) (name : Bytes) (id : ℕ)
      → i < n
      → s.thread i ≡ holding name id
      → Step n s (moved s i (with_held s.shared id false) (releasing name id))
  drops :
      (i : ℕ) (name : Bytes) (id : ℕ)
      → i < n
      → s.thread i ≡ releasing name id
      → Step n s (moved s i (drop_reference s.shared name id) idle)

abbrev pub init : System
init = record { shared = no_locks; thread = λ _. idle }

pub data Reach (n : ℕ) : System → Type 0 where
  start : Reach n init
  later : {s t : System} → Reach n s → Step n s t → Reach n t
