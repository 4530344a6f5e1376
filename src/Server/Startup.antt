-- ===== src/Server/Startup.antt =====
-- internal/server/startup_state.go: what is known of each upstream while it starts. Times are counts
-- of nanoseconds since Go's zero time; each change is made under stateMu.
pub mod History
pub mod Report
use mini.Prelude.{
  ℕ, ◌+◌, Bool, true, false, not, List, [], ◌∷◌, Option, none, some, Bytes, codes, ltb, sort_by,
  if◌then◌else◌,
}
use mini.Prelude.Map
use mini.Prelude.Map.{Map, flag_at}

abbrev pub startup_hold : ℕ
startup_hold = 10000000000

pub data StartupFailure : Type 0 where
  needs_auth not_trusted : StartupFailure
  needs_env : List Bytes → StartupFailure

pub data StartupStatus : Type 0 where
  connected connecting delayed : StartupStatus
  failed : StartupFailure → StartupStatus

-- `changes` counts the closings of the channel `changed`.
pub record StartupTracker : Type 0 where
  pub started_at : Map ℕ
  pub tools_ready : Map Bool
  pub failures : Map StartupFailure
  pub changes : ℕ

unfoldable pub new_startup_tracker : StartupTracker
new_startup_tracker = record { started_at = []; tools_ready = []; failures = []; changes = 0 }

abbrev broadcast_change : StartupTracker → StartupTracker
broadcast_change t = record t { changes = t.changes + 1 }

unfoldable pub open_window : StartupTracker → Bytes → ℕ → StartupTracker
open_window t name now =
    broadcast_change (record t { started_at = Map.insert t.started_at name now })

unfoldable pub mark_ready : StartupTracker → Bytes → StartupTracker
mark_ready t name = broadcast_change (record t { tools_ready = Map.insert t.tools_ready name true })

unfoldable pub record_failure : StartupTracker → Bytes → StartupFailure → StartupTracker
record_failure t name failure =
    broadcast_change (record t { failures = Map.insert t.failures name failure })

unfoldable pub forget : StartupTracker → Bytes → StartupTracker
forget t name = broadcast_change (record t {
  started_at = Map.erase t.started_at name;
  tools_ready = Map.erase t.tools_ready name;
  failures = Map.erase t.failures name;
})

unfoldable pub ready : StartupTracker → Bytes → Bool
ready t name = flag_at t.tools_ready name

-- A missing time is the zero time.
abbrev pub or_zero_time : Option ℕ → ℕ
or_zero_time none = 0
or_zero_time (some time) = time

unfoldable pub window_end : StartupTracker → Bytes → ℕ
window_end t name = or_zero_time (Map.lookup t.started_at name) + startup_hold

abbrev pub without_tools : Option StartupFailure → Bool → StartupStatus
without_tools (some failure) in_window = failed failure
without_tools none in_window = if in_window then connecting else delayed

unfoldable pub state : StartupTracker → Bytes → ℕ → StartupStatus
unfolding window_end
state t name now =
    if flag_at t.tools_ready name
    then connected
    else without_tools (Map.lookup t.failures name) (ltb now (window_end t name))

pub data StartupPhase : Type 0 where
  phase_connected phase_connecting phase_delayed phase_failed : StartupPhase

unfoldable pub phase : StartupStatus → StartupPhase
phase connected = phase_connected
phase connecting = phase_connecting
phase delayed = phase_delayed
phase (failed failure) = phase_failed

-- What errors.Is and errors.As find in an error of an upstream.
pub record ErrorFacts : Type 0 where
  pub is_reauth_required : Bool
  pub is_agent_command_not_allowed : Bool
  pub unset_env : Option (List Bytes)

abbrev needs_env_of : Option (List Bytes) → Option StartupFailure
needs_env_of none = none
needs_env_of (some names) = some (needs_env names)

-- `none` is an error that is worth another try.
unfoldable pub terminal_startup_failure : ErrorFacts → Option StartupFailure
terminal_startup_failure e =
    if e.is_reauth_required
    then some needs_auth
    else if e.is_agent_command_not_allowed
    then some not_trusted
    else needs_env_of e.unset_env

pub record StartupReport : Type 0 where
  pub starting : List Bytes
  pub unavailable : Map StartupPhase

abbrev pub add_report : Bytes → StartupStatus → StartupReport → StartupReport
add_report name connected report = report
add_report name connecting report = record report { starting = name ∷ report.starting }
add_report name delayed report = record report {
  unavailable = Map.insert report.unavailable name phase_delayed;
}
add_report name (failed failure) report = record report {
  unavailable = Map.insert report.unavailable name phase_failed;
}

unfoldable pub report_each : StartupTracker → ℕ → List Bytes → StartupReport
report_each t now [] = record { starting = []; unavailable = [] }
report_each t now (name ∷ names) = add_report name (state t name now) (report_each t now names)

-- startupReportLocked, for the names of the configured servers; the reasons are left out.
unfoldable pub startup_report : StartupTracker → ℕ → List Bytes → StartupReport
unfolding report_each
startup_report t now names =
    let report = report_each t now names in
    record report { starting = sort_by (λ name. name) report.starting }
