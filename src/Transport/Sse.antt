-- ===== src/Transport/Sse.antt =====
-- internal/transport/sse.go: server-sent events from a body that is there as a whole. json.Valid is a
-- parameter, and so are the handler and its state; a byte of the body is read without an error.
pub mod Lines
pub mod Events
pub mod Bounds
pub mod Ends
use mini.Prelude.{
  ℕ, zero, suc, ◌+◌, ◌-◌, Bool, true, false, not, ◌||◌, ◌&&◌, List, [], ◌∷◌, ◌++◌, Option, none,
  some, Bytes, bytes_eq, codes, ◌==◌, ltb, length, is_empty, reverse, if◌then◌else◌,
}

pub record SseLimits : Type 0 where
  pub message_bytes : ℕ
  pub line_bytes : ℕ

abbrev pub max_sse_message_bytes : ℕ
max_sse_message_bytes = 67108864

pub default_sse_limits : SseLimits
default_sse_limits = record {
  message_bytes = max_sse_message_bytes;
  line_bytes = max_sse_message_bytes + 8;
}

-- errSSEMessageTooLarge, or an error of the handler.
pub data SseError : Type 0 where
  message_too_large handler_error : SseError

pub data Outcome {ℓ} (A : Type ℓ) : Type ℓ where
  ok : A → Outcome A
  err : SseError → Outcome A

infixl 5 ◌>>=◌
abbrev pub ◌>>=◌ {ℓ κ} : {A : Type ℓ} {B : Type κ} → Outcome A → (A → Outcome B) → Outcome B
ok a >>= f = f a
err e >>= f = err e

unfoldable pub append_bounded : Bytes → Bytes → ℕ → Outcome Bytes
append_bounded dst value max_bytes =
    if ltb (max_bytes - length dst) (length value) then err message_too_large else ok (dst ++ value)

-- newSSELineReader: a byte order mark in front is passed over.
unfoldable pub skip_bom : Bytes → Bytes
skip_bom (a ∷ b ∷ c ∷ body) =
    if a == 0xef && (b == 0xbb && c == 0xbf) then body else a ∷ b ∷ c ∷ body
skip_bom body = body

-- A line that has been read, and what follows it; or the end of the body.
pub data Line : Type 0 where
  end : Line
  line : Bytes → Bytes → Line

abbrev consume_optional_lf : Bytes → Bytes
consume_optional_lf [] = []
consume_optional_lf (b ∷ body) = if b == b'\n' then body else b ∷ body

-- The end of the body, behind the line so far.
abbrev at_end : Bytes → Outcome Line
at_end [] = ok end
at_end (b ∷ so_far) = ok (line (b ∷ so_far) [])

-- readLine, behind the bytes of the line so far.
unfoldable pub read_line : SseLimits → Bytes → Bytes → Outcome Line
read_line limits so_far [] = at_end so_far
read_line limits so_far (b ∷ body) =
    let longer = so_far ++ b ∷ [] in
    let rest = read_line limits longer body in
    if b == b'\n'
    then ok (line so_far body)
    else if b == b'\r'
    then ok (line so_far (consume_optional_lf body))
    else if ltb limits.line_bytes (length longer)
    then err message_too_large
    else rest

-- bytes.Cut at the first colon; `none` if there is none.
unfoldable pub cut_at_colon : Bytes → Option (Bytes × Bytes)
cut_at_colon [] = none
cut_at_colon (c ∷ cs) =
    let rest = cut_at_colon cs in
    if c == b':'
    then some ([], cs)
    else elim rest [ none ↦ none | some (before, after) ↦ some (c ∷ before, after) ]

abbrev drop_space : Bytes → Bytes
drop_space [] = []
drop_space (c ∷ value) = if c == b' ' then value else c ∷ value

abbrev field_and_value : Bytes → Option (Bytes × Bytes) → Option (Bytes × Bytes)
field_and_value l none = some (l, [])
field_and_value l (some (field, value)) = some (field, drop_space value)

-- parseSSEDataLine; `none` is its false.
unfoldable pub parse_sse_data_line : Bytes → Option (Bytes × Bytes)
unfolding cut_at_colon
parse_sse_data_line [] = none
parse_sse_data_line (c ∷ l) =
    if c == b':' then none else field_and_value (c ∷ l) (cut_at_colon (c ∷ l))

-- What a line adds to the data of an event: none if its field is not "data".
abbrev data_of : Option (Bytes × Bytes) → Option Bytes
data_of none = none
data_of (some (field, value)) = if bytes_eq field (codes "data") then some value else none

module _ {ℓ} {S : Type ℓ} (valid : Bytes → Bool) (handle : Bytes → S → Outcome S) where
  pub record Scanner : Type ℓ where
    pub event : Bytes
    pub seen_data : Bool
    pub handled : S

  unfoldable pub flush : Scanner → Outcome Scanner
  flush s =
      if not s.seen_data
      then ok s
      else if not (valid s.event)
      then ok (record s { event = []; seen_data = false })
      else do
        handled ← handle s.event s.handled
        ok (record { event = []; seen_data = false; handled = handled })

  abbrev add_data : SseLimits → Scanner → Option Bytes → Outcome Scanner
  add_data limits s none = ok s
  add_data limits s (some value) = do
    joined ←
        if s.seen_data then append_bounded s.event (b'\n' ∷ []) limits.message_bytes else ok s.event
    event ← append_bounded joined value limits.message_bytes
    ok (record s { event = event; seen_data = true })

  unfoldable pub process_line : SseLimits → Bytes → Scanner → Outcome Scanner
  process_line limits [] s = flush s
  process_line limits (c ∷ l) s = add_data limits s (data_of (parse_sse_data_line (c ∷ l)))

  -- A round of scan behind its readLine; `go` is the later rounds.
  abbrev pub after_line :
      SseLimits → Scanner → (Bytes → Scanner → Outcome Scanner) → Line → Outcome Scanner
  after_line limits s go end = ok s
  after_line limits s go (line l rest) = process_line limits l s >>= go rest

  -- The loop of scan, on fuel: each line consumes a byte of the body at least.
  unfoldable pub scan : ℕ → SseLimits → Bytes → Scanner → Outcome Scanner
  scan zero limits body s = ok s
  scan (suc fuel) limits body s =
      read_line limits [] body >>= after_line limits s (scan fuel limits)

  -- scanSSEMessagesWithLimits on a body that can be read to its end.
  unfoldable pub scan_sse_messages_with_limits : SseLimits → Bytes → S → Outcome Scanner
  scan_sse_messages_with_limits limits body handled =
      scan (suc (length body)) limits (skip_bom body)
        (record { event = []; seen_data = false; handled = handled })
