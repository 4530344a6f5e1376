-- ===== src/Response/Envelope/Wire.antt =====
-- internal/response: what the wire shape of an envelope says of the call.
use mini.Prelude.{
  ◌≡◌, refl, Bool, true, false, not, ◌&&◌, [], ◌∷◌, Option, none, some, Bytes, bytes_eq, codes,
  is_empty, if◌then◌else◌, Bool-cases, inl, inr,
}
use mini.Prelude.Map
use mini.Prelude.Map.{Map}
use mini.Response.Envelope.{
  Envelope, BuildParams, BuildErrorParams, WireValue, text, payload, flag, new_envelope, build,
  with_file, build_error, put_if, wire_map,
}

-- Nothing was left out or cut.
abbrev pub nothing_lost : BuildParams → Bool
nothing_lost p = is_empty p.excluded && is_empty p.truncated

abbrev pub as_text : Option Bytes → Option WireValue
as_text none = none
as_text (some key) = some (text key)

-- What put_if puts under another key does not show.
lookup-put_if :
    (test : Bool) (key : Bytes) (v : WireValue) (m : Map WireValue) (k : Bytes)
    → bytes_eq key k ≡ false
    → Map.lookup (put_if test key v m) k ≡ Map.lookup m k
lookup-put_if false key v m k h = refl
lookup-put_if true key v m k h = rw (Map.lookup-insert m key k v) (rw h refl)

wire_map-new_envelope :
    (p : BuildParams) (file : Option Bytes)
    → (Map.lookup (wire_map (record (new_envelope p) { file = file })) (codes "data")
        ≡ some (payload (some p.summary)))
      × (Map.lookup (wire_map (record (new_envelope p) { file = file })) (codes "file")
          ≡ as_text file)
unfolding wire_map new_envelope Map.lookup bytes_eq
wire_map-new_envelope p none = (
  rw (lookup-put_if _ (codes "truncated") _ _ (codes "data") refl)
      (rw (lookup-put_if _ (codes "excluded") _ _ (codes "data") refl) refl),
  rw (lookup-put_if _ (codes "truncated") _ _ (codes "file") refl)
      (rw (lookup-put_if _ (codes "excluded") _ _ (codes "file") refl) refl),
)
wire_map-new_envelope p (some key) = (
  rw (Map.lookup-insert _ (codes "file") (codes "data") _) (
      rw (lookup-put_if _ (codes "truncated") _ _ (codes "data") refl)
        (rw (lookup-put_if _ (codes "excluded") _ _ (codes "data") refl) refl)),
  rw (Map.lookup-insert _ (codes "file") (codes "file") _) refl,
)

some-injective : (a b : Envelope) → some a ≡ some b → a ≡ b
some-injective a b h = cc

-- If Build gives an envelope, its wire shape holds the summary as "data", and a "file" exactly
-- if a path was excluded or a value truncated: then the key under which WriteRaw stored the
-- response. So a response of which nothing was excluded or truncated has no file, even if its
-- summary differs from it, as when only markup was stripped.
pub wire_map-build :
    (write_raw : Bytes → Option Bytes) (p : BuildParams) (e : Envelope)
    → build write_raw p ≡ some e
    → (Map.lookup (wire_map e) (codes "data") ≡ some (payload (some p.summary)))
      × (Map.lookup (wire_map e) (codes "file")
          ≡ (if nothing_lost p then none else as_text (write_raw p.raw)))
unfolding build new_envelope
wire_map-build write_raw p e = elim (Bool-cases (is_empty p.excluded)) [
  | inl x ↦ elim (Bool-cases (is_empty p.truncated)) [
    | inl t ↦
        rw x (rw t (λ h. rw (← some-injective (new_envelope p) e h) (wire_map-new_envelope p none)))
    | inr t ↦ rw x (rw t (stored write_raw p e (write_raw p.raw)))
  ]
  | inr x ↦ rw x (stored write_raw p e (write_raw p.raw))
]
  where
    stored :
        (write_raw : Bytes → Option Bytes) (p : BuildParams) (e : Envelope) (key : Option Bytes)
        → with_file (new_envelope p) key ≡ some e
        → (Map.lookup (wire_map e) (codes "data") ≡ some (payload (some p.summary)))
          × (Map.lookup (wire_map e) (codes "file") ≡ as_text key)
    stored write_raw p e none h = absurd cc
    stored write_raw p e (some key) h =
        rw (← some-injective (record (new_envelope p) { file = some key }) e h)
          (wire_map-new_envelope p (some key))

-- Beside the optional fields an error has its code only.
error_fields :
    (p : BuildErrorParams) (k : Bytes)
    → bytes_eq (codes "action") k ≡ false
    → bytes_eq (codes "retryable") k ≡ false
    → bytes_eq (codes "message") k ≡ false
    → Map.lookup
        (put_if (not (bytes_eq p.action [])) (codes "action") (text p.action) (
          put_if p.retryable (codes "retryable") (flag true) (
            put_if
              (not (bytes_eq p.message []))
              (codes "message")
              (text p.message)
              ((codes "error", text p.code) ∷ []))))
        k
      ≡ Map.lookup ((codes "error", text p.code) ∷ []) k
error_fields p k a r m = rw (lookup-put_if _ (codes "action") _ _ k a) (
    rw (lookup-put_if _ (codes "retryable") _ _ k r)
      (rw (lookup-put_if _ (codes "message") _ _ k m) refl))

-- The wire shape of an error has no "data" and no "file", if the error has a code.
pub wire_map-build_error :
    (p : BuildErrorParams)
    → bytes_eq p.code [] ≡ false
    → (Map.lookup (wire_map (build_error p)) (codes "data") ≡ none)
      × (Map.lookup (wire_map (build_error p)) (codes "file") ≡ none)
      × (Map.lookup (wire_map (build_error p)) (codes "error") ≡ some (text p.code))
unfolding wire_map build_error Map.lookup bytes_eq
wire_map-build_error p h = rw h (
  error_fields p (codes "data") refl refl refl,
  error_fields p (codes "file") refl refl refl,
  error_fields p (codes "error") refl refl refl,
)
