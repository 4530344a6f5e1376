-- ===== src/Config/Projection.antt =====
-- internal/config/types.go: ProjectionConfig and the settings that are its defaults.
use mini.Prelude.{Bool, List, Option, none, some, [], Bytes, bytes_eq, codes, not, if◌then◌else◌}
use mini.Prelude.Int.{ℤ}
use mini.Prelude.Map.{Map}

-- ResponseFormat is a string; "" means that none is set.
pub record ProjectionConfig : Type 0 where
  pub alias : Bytes
  pub include_only : List Bytes
  pub exclude : List Bytes
  pub array_limits : Map ℤ
  pub string_limits : Map ℤ
  pub strip_markup : Bool
  pub format : Bytes

-- EffectiveFormat: the first that is set, else "json".
unfoldable pub effective_format : Bytes → Bytes → Bytes → Bytes
effective_format explicit projection global =
    if not (bytes_eq explicit [])
    then explicit
    else if not (bytes_eq projection [])
    then projection
    else if not (bytes_eq global [])
    then global
    else codes "json"

unfoldable pub projection_format : Option ProjectionConfig → Bytes
projection_format none = []
projection_format (some p) = p.format

pub data FormatError : Type 0 where
  renamed_to_toon invalid_format : FormatError

-- ValidResponseFormat; `none` is the nil error.
unfoldable pub valid_response_format : Bytes → Option FormatError
valid_response_format format =
    if bytes_eq format []
    then none
    else if bytes_eq format (codes "json")
    then none
    else if bytes_eq format (codes "toon")
    then none
    else if bytes_eq format (codes "mini")
    then some renamed_to_toon
    else some invalid_format
