-- ===== src/Server/Startup/Report.antt =====
-- internal/server/startup_state.go: a report names each configured server that has no tools once.
use mini.Prelude.{
  ℕ, ◌≡◌, refl, Bool, true, false, ◌&&◌, List, [], ◌∷◌, Option, none, some, Bytes, bytes_eq,
  bytes_eq_iff, contains, contains-sort_by, subst, Bool-cases, inl, inr, if◌then◌else◌, arith,
}
use mini.Prelude.Map
use mini.Prelude.Map.{Map}
use mini.Server.Startup.{
  StartupStatus, connected, connecting, delayed, failed, StartupTracker, state, StartupPhase,
  phase_delayed, phase_failed, StartupReport, add_report, report_each, startup_report,
}

-- Where a report with this state of a server names it.
abbrev pub is_starting : StartupStatus → Bool
is_starting connecting = true
is_starting _ = false

abbrev pub phase_shown : StartupStatus → Option StartupPhase
phase_shown delayed = some phase_delayed
phase_shown (failed failure) = some phase_failed
phase_shown _ = none

Reported : StartupTracker → ℕ → List Bytes → Bytes → StartupReport → Type 0
Reported t now names k r =
    (contains r.starting k ≡ contains names k && is_starting (state t k now))
    × (Map.lookup r.unavailable k
        ≡ (if contains names k then phase_shown (state t k now) else none))

-- What a report says of the server that is added, and of another one.
reported_own :
    (st : StartupStatus) (name : Bytes) (listed : Bool) (k : Bytes) (r : StartupReport)
    → bytes_eq name k ≡ true
    → contains r.starting k ≡ listed && is_starting st
    → Map.lookup r.unavailable k ≡ (if listed then phase_shown st else none)
    → (contains (add_report name st r).starting k ≡ is_starting st)
      × (Map.lookup (add_report name st r).unavailable k ≡ phase_shown st)
unfolding contains
reported_own connected name listed k r q s u = (ground (arith, s), ground (arith, u))
reported_own connecting name listed k r q s u = (ground (arith, q), ground (arith, u))
reported_own delayed name listed k r q s u =
    (ground (arith, s), rw (Map.lookup-insert r.unavailable name k phase_delayed) (rw q refl))
reported_own (failed failure) name listed k r q s u =
    (ground (arith, s), rw (Map.lookup-insert r.unavailable name k phase_failed) (rw q refl))

reported_other :
    (st : StartupStatus) (name k : Bytes) (r : StartupReport)
    → bytes_eq name k ≡ false
    → (contains (add_report name st r).starting k ≡ contains r.starting k)
      × (Map.lookup (add_report name st r).unavailable k ≡ Map.lookup r.unavailable k)
unfolding contains
reported_other connected name k r q = (refl, refl)
reported_other connecting name k r q = (ground (arith, q), refl)
reported_other delayed name k r q =
    (refl, rw (Map.lookup-insert r.unavailable name k phase_delayed) (rw q refl))
reported_other (failed failure) name k r q =
    (refl, rw (Map.lookup-insert r.unavailable name k phase_failed) (rw q refl))

empty_report :
    (t : StartupTracker) (now : ℕ) (k : Bytes)
    → Reported t now [] k (record { starting = []; unavailable = [] })
unfolding Reported contains Map.lookup
empty_report t now k = (refl, refl)

add_report-Reported :
    (t : StartupTracker) (now : ℕ) (name : Bytes) (names : List Bytes) (k : Bytes)
    (st : StartupStatus) (r : StartupReport)
    → state t name now ≡ st
    → Reported t now names k r
    → Reported t now (name ∷ names) k (add_report name st r)
unfolding Reported contains
add_report-Reported t now name names k st r e h = elim (Bool-cases (bytes_eq name k)) [
  | inl q ↦
      let same : state t k now ≡ st =
        subst (λ n. state t n now ≡ st) ((bytes_eq_iff name k).0 q) e in
      rw same (
        rw q (
          reported_own st name (contains names k) k r q
            (subst (λ s. contains r.starting k ≡ contains names k && is_starting s) same h.0)
            (subst
              (λ s. Map.lookup r.unavailable k ≡ (if contains names k then phase_shown s else none))
              same h.1)))
  | inr q ↦
      let (starting, unavailable) = reported_other st name k r q in
      rw q (rw starting (rw unavailable h))
]

report_each-Reported :
    (t : StartupTracker) (now : ℕ) (names : List Bytes) (k : Bytes)
    → Reported t now names k (report_each t now names)
unfolding report_each
report_each-Reported t now [] k = empty_report t now k
report_each-Reported t now (name ∷ names) k =
    add_report-Reported t now name names k (state t name now) (report_each t now names) refl
      (report_each-Reported t now names k)

-- A report names a configured server as starting exactly if it is connecting, and as unavailable
-- exactly if it is delayed or has failed, with that phase; it names no other server.
pub startup_report_lem :
    (t : StartupTracker) (now : ℕ) (names : List Bytes) (k : Bytes)
    → (contains (startup_report t now names).starting k
        ≡ contains names k && is_starting (state t k now))
      × (Map.lookup (startup_report t now names).unavailable k
          ≡ (if contains names k then phase_shown (state t k now) else none))
unfolding startup_report Reported
startup_report_lem t now names k =
    let (starting, unavailable) = report_each-Reported t now names k in
    (rw (contains-sort_by (report_each t now names).starting k) starting, unavailable)
