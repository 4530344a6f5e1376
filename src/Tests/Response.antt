-- ===== src/Tests/Response.antt =====
-- internal/response at concrete values.
use mini.Prelude.{
  ◌≡◌, ◌+◌, ◌*◌, ◌/◌, refl, false, true, [], ◌∷◌, ◌++◌, List, Option, some, none, Bytes, codes,
  bytes_eq, contains, Member, if◌then◌else◌, arith,
}
use mini.Prelude.Int.{pos}
use mini.Prelude.Decimal.{decimal, digits}
use mini.Prelude.Map
use mini.Projection.Value.{other}
use mini.Response.Store.{StoredFile, Store, over, evict_loop, evict_overshoot, record_write}
use mini.Response.Store.Accounting.{Accounted, total}
use mini.Response.Store.Eviction.{WithinBudget, evict_overshoot_lem, record_write-Member}
use mini.Response.Store.System.{System, Reach, start, step, create, record_file}
use mini.Response.Store.Tracked.{IsSound, Reach-IsSound}
use mini.Response.Files.{
  Creation, created, exists, create_unique_file, new_file_base, load_entry, millisecond, join,
  try_names,
}
use mini.Response.Files.Reload.{load_entry-create_unique_file}
use mini.Response.Envelope.{
  BuildParams, BuildErrorParams, Envelope, build, build_error, wire_map, text, payload,
  new_envelope,
}
use mini.Response.Envelope.Wire.{nothing_lost, as_text, wire_map-build, wire_map-build_error}

abbrev old_file : StoredFile
old_file = record { path = codes "r/1.json"; size = 7; expires = 50 }

abbrev new_file : StoredFile
new_file = record { path = codes "r/2.json"; size = 5; expires = 60 }

abbrev tight : Store
tight = record {
  ttl = 10;
  budget_bytes = pos 10;
  used_bytes = 12;
  files = old_file ∷ new_file ∷ [];
}

evict_overshoot_run : (evict_overshoot tight).0 ≡ old_file ∷ []
unfolding evict_overshoot evict_loop
evict_overshoot_run = refl

evict_overshoot_lem_example :
    Accounted (evict_overshoot tight).1
    × WithinBudget (evict_overshoot tight).1
    × ((evict_overshoot tight).0 ++ (evict_overshoot tight).1.files ≡ tight.files)
    × ((before after : List StoredFile) (f : StoredFile)
        → (evict_overshoot tight).0 ≡ before ++ f ∷ after
        → over (total (f ∷ (after ++ (evict_overshoot tight).1.files))) tight.budget_bytes ≡ true)
evict_overshoot_lem_example = evict_overshoot_lem tight refl

record_write-Member_example :
    Member
      (record { path = codes "r/3.json"; size = 20; expires = 15 })
      (record_write (codes "r/3.json") 20 5 tight).1.files
record_write-Member_example = record_write-Member (codes "r/3.json") 20 5 tight

abbrev one_file : Store
one_file = record { ttl = 10; budget_bytes = pos 10; used_bytes = 7; files = old_file ∷ [] }

abbrev idle : System
idle = record { store = one_file; disk = codes "r/1.json" ∷ []; writings = []; removings = [] }

abbrev after_write : System
after_write = record {
  store = (record_write (codes "r/2.json") 5 50 one_file).1;
  disk = codes "r/2.json" ∷ codes "r/1.json" ∷ [];
  writings = [];
  removings =
      record { waiting = (record_write (codes "r/2.json") 5 50 one_file).0; failed = [] } ∷ [];
}

idle-IsSound : IsSound idle
unfolding contains
idle-IsSound = record { accounted = refl; all_tracked = λ p e. ground arith }

Reach-write : Reach idle after_write
unfolding contains bytes_eq
Reach-write =
    step (step start (create (codes "r/2.json") 5 refl))
      (record_file [] [] (record { path = codes "r/2.json"; size = 5 }) 50 refl)

Reach-IsSound_example : IsSound after_write
Reach-IsSound_example = Reach-IsSound Reach-write idle-IsSound

-- The first name is taken.
abbrev taken : Bytes → Creation
taken path = if bytes_eq path (codes "r/1700.json") then exists else created

abbrev fresh_store : Store
fresh_store = record { ttl = 5000000; budget_bytes = pos 0; used_bytes = 0; files = [] }

load_entry-create_unique_file_example :
    (name : Bytes) × (codes "r/1700_a1b2.json" ≡ join (codes "r") name)
    × (taken (codes "r/1700_a1b2.json") ≡ created)
    × (load_entry
          (codes "r")
          1701000000
          (record { name = name; is_dir = false; size = some 9 })
          fresh_store
        ≡ record fresh_store {
          files =
              record {
                path = codes "r/1700_a1b2.json";
                size = 9;
                expires = 1700000123 / millisecond * millisecond + 5000000;
              }
              ∷ [];
          used_bytes = 9;
        })
unfolding create_unique_file try_names new_file_base bytes_eq decimal digits
load_entry-create_unique_file_example =
    load_entry-create_unique_file taken (codes "r") 1700000123 (codes "a1b2" ∷ [])
      (codes "r/1700_a1b2.json") 9 1701000000 fresh_store (refl, tt) refl (omega arith)
      (omega arith) (omega arith)

abbrev cut_response : BuildParams
cut_response = record {
  raw = codes "{}";
  summary = other (codes "null");
  excluded = codes ".a" ∷ [];
  truncated = [];
}

abbrev stored_as : Bytes → Option Bytes
stored_as raw = some (codes "1700")

abbrev envelope : Envelope
envelope = record {
  data_value = some (other (codes "null"));
  excluded = codes ".a" ∷ [];
  truncated = [];
  file = some (codes "1700");
  error = [];
  message = [];
  retryable = false;
  action = [];
}

wire_map-build_example :
    (Map.lookup (wire_map envelope) (codes "data") ≡ some (payload (some (other (codes "null")))))
    × (Map.lookup (wire_map envelope) (codes "file")
        ≡ (if nothing_lost cut_response then none else as_text (stored_as (codes "{}"))))
unfolding build new_envelope
wire_map-build_example = wire_map-build stored_as cut_response envelope refl

abbrev no_login : BuildErrorParams
no_login = record { code = codes "auth"; message = []; retryable = true; action = [] }

wire_map-build_error_example :
    (Map.lookup (wire_map (build_error no_login)) (codes "data") ≡ none)
    × (Map.lookup (wire_map (build_error no_login)) (codes "file") ≡ none)
    × (Map.lookup (wire_map (build_error no_login)) (codes "error") ≡ some (text (codes "auth")))
unfolding bytes_eq
wire_map-build_error_example = wire_map-build_error no_login refl
