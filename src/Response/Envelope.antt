-- ===== src/Response/Envelope.antt =====
-- internal/response/envelope.go, types.go: what an agent gets for a call.
pub mod Wire
use mini.Prelude.{
  ℕ, ◌≡◌, ◌↔◌, refl, Bool, true, false, not, ◌||◌, ◌&&◌, List, [], ◌∷◌, Option, none, some, Bytes,
  bytes_eq, codes, is_empty, if◌then◌else◌,
}
use mini.Prelude.Map
use mini.Prelude.Map.{Map}
use mini.Projection.Value.{Json}
use mini.Projection.Engine.{Truncation}

-- `data` is none where it is nil: in the envelope of an error.
pub record Envelope : Type 0 where
  pub data_value : Option Json
  pub excluded : List Bytes
  pub truncated : List Truncation
  pub file : Option Bytes
  pub error : Bytes
  pub message : Bytes
  pub retryable : Bool
  pub action : Bytes

pub record BuildParams : Type 0 where
  pub raw : Bytes
  pub summary : Json
  pub excluded : List Bytes
  pub truncated : List Truncation

unfoldable pub new_envelope : BuildParams → Envelope
new_envelope p = record {
  data_value = some p.summary;
  excluded = p.excluded;
  truncated = p.truncated;
  file = none;
  error = [];
  message = [];
  retryable = false;
  action = [];
}

abbrev with_file : Envelope → Option Bytes → Option Envelope
with_file e none = none
with_file e (some key) = some (record e { file = some key })

-- Build; `write_raw` is the store's WriteRaw, whose error is none.
unfoldable pub build : (Bytes → Option Bytes) → BuildParams → Option Envelope
build write_raw p =
    if not (is_empty p.excluded) || not (is_empty p.truncated)
    then with_file (new_envelope p) (write_raw p.raw)
    else some (new_envelope p)

pub record BuildErrorParams : Type 0 where
  pub code : Bytes
  pub message : Bytes
  pub retryable : Bool
  pub action : Bytes

unfoldable pub build_error : BuildErrorParams → Envelope
build_error p = record {
  data_value = none;
  excluded = [];
  truncated = [];
  file = none;
  error = p.code;
  message = p.message;
  retryable = p.retryable;
  action = p.action;
}

pub data WireValue : Type 0 where
  text : Bytes → WireValue
  flag : Bool → WireValue
  payload : Option Json → WireValue
  paths : List Bytes → WireValue
  cuts : List Truncation → WireValue

abbrev put_if : Bool → Bytes → WireValue → Map WireValue → Map WireValue
put_if test key v m = if test then Map.insert m key v else m

abbrev put_file : Option Bytes → Map WireValue → Map WireValue
put_file none m = m
put_file (some key) m = Map.insert m (codes "file") (text key)

-- WireMap
unfoldable pub wire_map : Envelope → Map WireValue
wire_map e =
    if not (bytes_eq e.error [])
    then put_if (not (bytes_eq e.action [])) (codes "action") (text e.action) (
        put_if e.retryable (codes "retryable") (flag true) (
          put_if (not (bytes_eq e.message [])) (codes "message") (text e.message)
            ((codes "error", text e.error) ∷ [])))
    else put_file e.file (
        put_if (not (is_empty e.truncated)) (codes "truncated") (cuts e.truncated) (
          put_if (not (is_empty e.excluded)) (codes "excluded") (paths e.excluded)
            ((codes "data", payload e.data_value) ∷ [])))
