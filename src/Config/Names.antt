-- ===== src/Config/Names.antt =====
-- internal/config/loader.go and permissions.go: which names are valid, and which tools are hidden.
use mini.Utf8.{within, runes}
use mini.Prelude.{
  ℕ, ◌+◌, ◌≡◌, refl, Bool, true, false, ◌&&◌, ◌||◌, not, List, [], ◌∷◌, ◌++◌, map, Option, none,
  some, Bytes, bytes_eq, ◌==◌, if◌then◌else◌, all, any, arith,
}

-- [a-zA-Z0-9_-]
unfoldable pub is_server_byte : ℕ → Bool
is_server_byte c =
    within b'a' b'z' c || within b'A' b'Z' c || within b'0' b'9' c || c == b'_' || c == b'-'

unfoldable pub is_tool_byte : ℕ → Bool
unfolding is_server_byte
is_tool_byte c = is_server_byte c || c == b'.'

abbrev non_empty : Bytes → Bool
non_empty [] = false
non_empty (c ∷ cs) = Bool.true

-- ValidServerName.MatchString
unfoldable pub valid_server_name : Bytes → Bool
valid_server_name s = non_empty s && all is_server_byte s

-- ValidToolName.MatchString
unfoldable pub valid_tool_name : Bytes → Bool
valid_tool_name s = non_empty s && all is_tool_byte s

-- The least letter that a rune folds to, for ASCII text: U+212A (Kelvin) folds to k and U+017F to s.
unfoldable pub fold_rune : ℕ → ℕ
fold_rune c =
    if within b'A' b'Z' c
    then c + 32
    else if c == 0x212A
    then b'k'
    else if c == 0x17F
    then b's'
    else c

-- strings.EqualFold where one side is ASCII, as a valid tool name is.
unfoldable pub equal_fold : Bytes → Bytes → Bool
unfolding fold_rune
equal_fold s t = bytes_eq (map fold_rune (runes s)) (map fold_rune (runes t))

pub record PermissionsConfig : Type 0 where
  pub hidden : List Bytes

-- PermissionsConfig.Hides; `none` is the nil pointer.
unfoldable pub hides : Option PermissionsConfig → Bytes → Bool
unfolding equal_fold
hides none tool_name = false
hides (some p) tool_name = any (λ name. equal_fold name tool_name) p.hidden

abbrev pub is_dotless : Bytes → Bool
is_dotless = all (λ c. not (c == b'.'))

server_byte-ne-dot : (c : ℕ) → is_server_byte c ≡ true → (c == b'.') ≡ false
unfolding is_server_byte
server_byte-ne-dot c h = ground arith

all_server_byte-is_dotless : (s : Bytes) → all is_server_byte s ≡ true → is_dotless s ≡ true
all_server_byte-is_dotless [] h = refl
all_server_byte-is_dotless (c ∷ cs) h =
    ground (arith, server_byte-ne-dot c, all_server_byte-is_dotless cs)

-- A valid server name holds no dot, the separator of a full name.
pub valid_server_name-is_dotless : (s : Bytes) → valid_server_name s ≡ true → is_dotless s ≡ true
unfolding valid_server_name
valid_server_name-is_dotless s h = all_server_byte-is_dotless s (ground arith)

-- A dotless prefix of a text is determined by the text.
pub dotless_split :
    (s t a b : Bytes)
    → is_dotless s ≡ true
    → is_dotless t ≡ true
    → s ++ (b'.' ∷ a) ≡ t ++ (b'.' ∷ b)
    → s ≡ t
dotless_split [] [] a b hs ht e = refl
dotless_split [] (y ∷ t) a b hs ht e = ground arith
dotless_split (x ∷ s) [] a b hs ht e = ground arith
dotless_split (x ∷ s) (y ∷ t) a b hs ht e = ground (arith, dotless_split s t a b)
