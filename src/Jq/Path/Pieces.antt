-- ===== src/Jq/Path/Pieces.antt =====
-- What FormatPath of internal/jq/path.go writes, segment by segment.
use mini.Prelude.{
  ◌≡◌, refl, sym, ◌∙◌, Bool, true, false, ◌&&◌, List, [], ◌∷◌, ◌++◌, Bytes, ◌==◌, append_assoc,
  append-nil, has_prefix, if◌then◌else◌, arith,
}
use mini.Json.{marshal_string}
use mini.Jq.Path.{is_ident_safe, is_empty, write_segment, write_segments, numeric_index}

-- An index segment, "[N]" with decimal N.
unfoldable pub is_index : Bytes → Bool
is_index [] = false
is_index (c ∷ cs) = c == b'[' && (numeric_index cs).0 && is_empty (numeric_index cs).1

-- The segment for every index.
unfoldable pub wildcard : Bytes → Bytes
wildcard seg = if is_index seg then b'[' ∷ b']' ∷ [] else seg

-- A segment of a projection path: a field name with no bracket in front, or an index.
abbrev pub IsSegment : Bytes → Type 0
IsSegment seg = has_prefix seg (b'[' ∷ []) ≡ true → is_index seg ≡ true

-- What FormatPath writes for one segment; the flag says that nothing was written before.
abbrev pub piece : Bool → Bytes → Bytes
piece first seg =
    if is_ident_safe seg
    then b'.' ∷ seg
    else let dot = if first then b'.' ∷ [] else [] in
      if has_prefix seg (b'[' ∷ [])
      then dot ++ seg
      else dot ++ (b'[' ∷ (marshal_string seg ++ (b']' ∷ [])))

abbrev pub pieces : Bool → List Bytes → Bytes
pieces first [] = []
pieces first (seg ∷ path) = piece first seg ++ pieces false path

pub write_segment-piece : (b seg : Bytes) → write_segment b seg ≡ b ++ piece (is_empty b) seg
unfolding write_segment
write_segment-piece [] seg = ground arith
write_segment-piece (c ∷ b) seg = ground arith

pub is_empty-piece :
    (b : Bytes) (first : Bool) (seg : Bytes) → is_empty (b ++ piece first seg) ≡ false
unfolding has_prefix
is_empty-piece (c ∷ b) first seg = refl
is_empty-piece [] true [] = ground arith
is_empty-piece [] false [] = ground arith
is_empty-piece [] true (c ∷ seg) = ground arith
is_empty-piece [] false (c ∷ seg) = ground arith

pub write_segments-pieces :
    (path : List Bytes) (b : Bytes) → write_segments b path ≡ b ++ pieces (is_empty b) path
unfolding write_segments
write_segments-pieces [] b = sym (append-nil b)
write_segments-pieces (seg ∷ path) b = rw (write_segment-piece b seg) (
    write_segments-pieces path (b ++ piece (is_empty b) seg)
    ∙ rw (is_empty-piece b (is_empty b) seg)
        (append_assoc b (piece (is_empty b) seg) (pieces false path)))
