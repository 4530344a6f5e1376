-- ===== src/Response/Files.antt =====
-- internal/response/storage_write.go, storage_load.go: the names of the store's files, and which of
-- them a new store takes over. File operations, random numbers and the clock are parameters.
pub mod Reload
use mini.Prelude.{
  ℕ, zero, suc, ◌+◌, ◌*◌, ◌/◌, Bool, true, false, not, ◌||◌, ◌&&◌, List, [], ◌∷◌, ◌++◌, Option,
  none, some, Bytes, bytes_eq, codes, ◌==◌, ltb, leb, has_prefix, is_empty, take, if◌then◌else◌,
}
use mini.Prelude.Decimal.{decimal, read_digits}
use mini.Response.Store.{StoredFile, Store}

-- What fileio.CreateFile answers; `exists` is os.IsExist.
pub data Creation : Type 0 where
  created exists failed : Creation

pub data Written : Type 0 where
  written : Bytes → Written
  write_error name_collision : Written

abbrev pub millisecond : ℕ
millisecond = 1000000

-- strconv's largest int64
abbrev max_int64 : ℕ
max_int64 = 9223372036854775807

unfoldable pub new_file_base : ℕ → Bytes
new_file_base now = decimal (now / millisecond)

-- filepath.Join, of the directory of the store, whose path is clean, and the name of a file.
abbrev pub join : Bytes → Bytes → Bytes
join dir name = dir ++ b'/' ∷ name

-- A round of createUniqueFile behind its CreateFile; `rest` is what the later rounds give.
abbrev pub after_attempt : Creation → Bytes → Written → Written
after_attempt created path rest = written path
after_attempt exists path rest = rest
after_attempt failed path rest = write_error

abbrev pub suffixed : Bytes → List Bytes → List Bytes
suffixed base [] = []
suffixed base (s ∷ suffixes) = (base ++ b'_' ∷ s) ∷ suffixed base suffixes

module _ (create_file : Bytes → Creation) where
  -- The rounds, one for each name.
  unfoldable pub try_names : Bytes → List Bytes → Written
  try_names dir [] = name_collision
  try_names dir (name ∷ names) =
      let path = join dir (name ++ codes ".json") in
      after_attempt (create_file path) path (try_names dir names)

  -- `suffixes` are the answers of randutil.HexString(2), of which four are asked for at most.
  unfoldable pub create_unique_file : Bytes → Bytes → List Bytes → Written
  create_unique_file dir base suffixes = try_names dir (base ∷ suffixed base (take 4 suffixes))

-- A name before its extension, and filepath.Ext of it: what follows the last dot, with the dot.
unfoldable pub split_ext : Bytes → Bytes × Bytes
split_ext [] = ([], [])
split_ext (c ∷ cs) =
    let (base, ext) = split_ext cs in
    if not (is_empty ext) then (c ∷ base, ext) else if c == b'.' then ([], c ∷ cs) else (c ∷ cs, [])

-- strings.Contains(name, text)
unfoldable pub contains_text : Bytes → Bytes → Bool
contains_text [] text = is_empty text
contains_text (c ∷ cs) text = has_prefix (c ∷ cs) text || contains_text cs text

unfoldable pub before_underscore : Bytes → Bytes
before_underscore [] = []
before_underscore (c ∷ cs) = let rest = before_underscore cs in if c == b'_' then [] else c ∷ rest

-- An underscore in front does not count.
unfoldable pub timestamp_part : Bytes → Bytes
timestamp_part [] = []
timestamp_part (c ∷ cs) = if c == b'_' then c ∷ cs else before_underscore (c ∷ cs)

-- strconv.ParseInt(part, 10, 64) where it gives a number above 0; a minus sign never does.
abbrev positive : Option ℕ → Option ℕ
positive none = none
positive (some n) = if ltb 0 n && leb n max_int64 then some n else none

unfoldable pub parse_positive : Bytes → Option ℕ
parse_positive [] = none
parse_positive (c ∷ []) = positive (read_digits 0 (c ∷ []))
parse_positive (c ∷ d ∷ cs) =
    positive (if c == b'+' then read_digits 0 (d ∷ cs) else read_digits 0 (c ∷ d ∷ cs))

-- time.UnixMilli of the timestamp.
abbrev from_millis : Option ℕ → Option ℕ
from_millis none = none
from_millis (some n) = some (n * millisecond)

unfoldable pub parse_timestamp : Bytes → Option ℕ
parse_timestamp name = from_millis (parse_positive (timestamp_part (split_ext name).0))

-- A directory entry; `size` is none where Info fails.
pub record DirEntry : Type 0 where
  pub name : Bytes
  pub is_dir : Bool
  pub size : Option ℕ

abbrev add_entry : Bytes → ℕ → Option ℕ → Store → Store
add_entry path expires none s = s
add_entry path expires (some size) s = record s {
  files = s.files ++ record { path = path; size = size; expires = expires } ∷ [];
  used_bytes = s.used_bytes + size;
}

-- storeEntryIfFresh, without the removal of the file of a stale entry.
unfoldable pub store_entry_if_fresh : Bytes → DirEntry → ℕ → ℕ → Store → Store
store_entry_if_fresh dir e made_at now s =
    let expires = made_at + s.ttl in
    if ltb expires now then s else add_entry (join dir e.name) expires e.size s

abbrev store_entry : Bytes → DirEntry → ℕ → Option ℕ → Store → Store
store_entry dir e now none s = s
store_entry dir e now (some made_at) s = store_entry_if_fresh dir e made_at now s

unfoldable pub load_entry : Bytes → ℕ → DirEntry → Store → Store
load_entry dir now e s =
    if e.is_dir
      || (not (bytes_eq (split_ext e.name).1 (codes ".json"))
          || contains_text e.name (codes ".raw."))
    then s
    else store_entry dir e now (parse_timestamp e.name) s

unfoldable pub load_existing : Bytes → ℕ → List DirEntry → Store → Store
load_existing dir now [] s = s
load_existing dir now (e ∷ entries) s = load_existing dir now entries (load_entry dir now e s)
