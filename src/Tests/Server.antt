-- ===== src/Tests/Server.antt =====
-- internal/server at concrete values.
use mini.Prelude.{◌≡◌, ◌&&◌, refl, [], ◌∷◌, List, none, codes, bytes_eq, contains, if◌then◌else◌}
use mini.Prelude.Map
use mini.Server.Startup.{
  connecting, needs_auth, state, startup_report, new_startup_tracker, open_window, mark_ready,
  record_failure, forget,
}
use mini.Server.Startup.History.{
  Change, opened, marked, recorded, forgotten, run, status_after, state-run,
}
use mini.Server.Startup.Report.{is_starting, phase_shown, startup_report_lem}

-- The newest change first: a server that failed, was forgotten and opened again.
abbrev reopened : List Change
reopened =
    opened (codes "git") 100
    ∷ forgotten (codes "git")
    ∷ recorded (codes "git") needs_auth
    ∷ marked (codes "db")
    ∷ opened (codes "git") 1
    ∷ []

connects_again : state (run reopened) (codes "git") 200 ≡ connecting
unfolding state run new_startup_tracker open_window mark_ready record_failure forget Map.lookup
    Map.insert Map.erase bytes_eq
connects_again = refl

state-run_example : state (run reopened) (codes "git") 200 ≡ status_after reopened (codes "git") 200
state-run_example = state-run reopened (codes "git") 200

startup_report_lem_example :
    (contains
        (startup_report (run reopened) 200 (codes "git" ∷ codes "db" ∷ [])).starting
        (codes "git")
      ≡ contains (codes "git" ∷ codes "db" ∷ []) (codes "git")
        && is_starting (state (run reopened) (codes "git") 200))
    × (Map.lookup
          (startup_report (run reopened) 200 (codes "git" ∷ codes "db" ∷ [])).unavailable
          (codes "git")
        ≡ (if contains (codes "git" ∷ codes "db" ∷ []) (codes "git")
            then phase_shown (state (run reopened) (codes "git") 200)
            else none))
startup_report_lem_example =
    startup_report_lem (run reopened) 200 (codes "git" ∷ codes "db" ∷ []) (codes "git")
