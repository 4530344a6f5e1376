-- ===== src/Server/Startup/History.antt =====
-- internal/server/startup_state.go: the tracker against the history of its changes.
use mini.Prelude.{
  ℕ, ◌+◌, ◌≡◌, refl, Bool, true, false, List, [], ◌∷◌, Option, none, some, Bytes, bytes_eq, ltb,
  if◌then◌else◌, arith,
}
use mini.Prelude.Map
use mini.Prelude.Map.{Map, flag_at}
use mini.Server.Startup.{
  StartupFailure, StartupStatus, connected, connecting, delayed, failed, StartupTracker,
  startup_hold, new_startup_tracker, open_window, mark_ready, record_failure, forget, or_zero_time,
  without_tools, state, window_end,
}

pub data Change : Type 0 where
  opened : Bytes → ℕ → Change
  marked : Bytes → Change
  recorded : Bytes → StartupFailure → Change
  forgotten : Bytes → Change

-- The tracker behind a history, the newest change first.
unfoldable pub run : List Change → StartupTracker
run [] = new_startup_tracker
run (opened name now ∷ older) = open_window (run older) name now
run (marked name ∷ older) = mark_ready (run older) name
run (recorded name failure ∷ older) = record_failure (run older) name failure
run (forgotten name ∷ older) = forget (run older) name

-- The newest fact of its kind about the server, if it was not forgotten since.
unfoldable pub was_marked : List Change → Bytes → Bool
was_marked [] k = false
was_marked (marked name ∷ older) k = if bytes_eq name k then true else was_marked older k
was_marked (forgotten name ∷ older) k = if bytes_eq name k then false else was_marked older k
was_marked (opened name now ∷ older) k = was_marked older k
was_marked (recorded name failure ∷ older) k = was_marked older k

unfoldable pub last_failure : List Change → Bytes → Option StartupFailure
last_failure [] k = none
last_failure (recorded name failure ∷ older) k =
    if bytes_eq name k then some failure else last_failure older k
last_failure (forgotten name ∷ older) k = if bytes_eq name k then none else last_failure older k
last_failure (opened name now ∷ older) k = last_failure older k
last_failure (marked name ∷ older) k = last_failure older k

unfoldable pub last_opened : List Change → Bytes → Option ℕ
last_opened [] k = none
last_opened (opened name now ∷ older) k = if bytes_eq name k then some now else last_opened older k
last_opened (forgotten name ∷ older) k = if bytes_eq name k then none else last_opened older k
last_opened (marked name ∷ older) k = last_opened older k
last_opened (recorded name failure ∷ older) k = last_opened older k

flag_at-erase :
    (m : Map Bool) (k j : Bytes)
    → flag_at (Map.erase m k) j ≡ (if bytes_eq k j then false else flag_at m j)
flag_at-erase m k j = ground (arith, Map.lookup-erase m k j)

flag_at-run :
    (history : List Change) (k : Bytes) → flag_at (run history).tools_ready k ≡ was_marked history k
unfolding run was_marked open_window mark_ready record_failure forget new_startup_tracker Map.lookup
flag_at-run [] k = refl
flag_at-run (opened name now ∷ older) k = flag_at-run older k
flag_at-run (recorded name failure ∷ older) k = flag_at-run older k
flag_at-run (marked name ∷ older) k =
    rw (Map.flag_at-insert (run older).tools_ready name k true) (rw (flag_at-run older k) refl)
flag_at-run (forgotten name ∷ older) k =
    rw (flag_at-erase (run older).tools_ready name k) (rw (flag_at-run older k) refl)

lookup-failures :
    (history : List Change) (k : Bytes)
    → Map.lookup (run history).failures k ≡ last_failure history k
unfolding run last_failure open_window mark_ready record_failure forget new_startup_tracker
    Map.lookup
lookup-failures [] k = refl
lookup-failures (opened name now ∷ older) k = lookup-failures older k
lookup-failures (marked name ∷ older) k = lookup-failures older k
lookup-failures (recorded name failure ∷ older) k =
    rw (Map.lookup-insert (run older).failures name k failure) (rw (lookup-failures older k) refl)
lookup-failures (forgotten name ∷ older) k =
    rw (Map.lookup-erase (run older).failures name k) (rw (lookup-failures older k) refl)

lookup-started_at :
    (history : List Change) (k : Bytes)
    → Map.lookup (run history).started_at k ≡ last_opened history k
unfolding run last_opened open_window mark_ready record_failure forget new_startup_tracker
    Map.lookup
lookup-started_at [] k = refl
lookup-started_at (marked name ∷ older) k = lookup-started_at older k
lookup-started_at (recorded name failure ∷ older) k = lookup-started_at older k
lookup-started_at (opened name now ∷ older) k =
    rw (Map.lookup-insert (run older).started_at name k now) (rw (lookup-started_at older k) refl)
lookup-started_at (forgotten name ∷ older) k =
    rw (Map.lookup-erase (run older).started_at name k) (rw (lookup-started_at older k) refl)

-- The end of the ten seconds from an opening; without one, from the zero time.
abbrev hold_end : Option ℕ → ℕ
hold_end none = 10000000000
hold_end (some opening) = opening + 10000000000

abbrev status_of : Bool → Option StartupFailure → ℕ → ℕ → StartupStatus
status_of true failure end now = connected
status_of false (some failure) end now = failed failure
status_of false none end now = if ltb now end then connecting else delayed

-- What a server should be after the history.
unfoldable pub status_after : List Change → Bytes → ℕ → StartupStatus
status_after history k now =
    status_of (was_marked history k) (last_failure history k) (hold_end (last_opened history k)) now

state-status_of :
    (b : Bool) (failure : Option StartupFailure) (opening : Option ℕ) (now : ℕ)
    → (if b
        then connected
        else without_tools failure (ltb now (or_zero_time opening + startup_hold)))
      ≡ status_of b failure (hold_end opening) now
state-status_of true failure opening now = refl
state-status_of false (some failure) opening now = refl
state-status_of false none none now = refl
state-status_of false none (some opening) now = refl

-- After any history of changes, a server is connected if its tools became ready since it was
-- last forgotten; otherwise it has failed with the last failure since then, if there was one;
-- otherwise it is connecting before the end of the ten seconds from its last opening since then,
-- or from the zero time without one, and delayed from then on.
pub state-run :
    (history : List Change) (k : Bytes) (now : ℕ)
    → state (run history) k now ≡ status_after history k now
unfolding state window_end status_after
state-run history k now = rw (flag_at-run history k) (
    rw (lookup-failures history k) (
      rw (lookup-started_at history k) (
        state-status_of (was_marked history k) (last_failure history k) (last_opened history k)
          now)))
