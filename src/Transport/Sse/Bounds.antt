-- ===== src/Transport/Sse/Bounds.antt =====
-- internal/transport/sse.go: what the handler gets from any body.
use mini.Prelude.{
  ℕ, zero, suc, ◌-◌, ◌≤◌, ◌≡◌, Bool, true, not, [], ◌∷◌, Option, none, some, Bytes, ltb, length,
  length-append, if-elim, if◌then◌else◌, arith,
}
use mini.Transport.Sse.{
  SseLimits, Outcome, ok, err, ◌>>=◌, Line, line, end, read_line, parse_sse_data_line, data_of,
  append_bounded, skip_bom, Scanner, flush, add_data, process_line, after_line, scan,
  scan_sse_messages_with_limits,
}

-- The predicate holds of the value, if there is one.
abbrev pub Holds : {A : Type 0} → (A → Type 0) → Outcome A → Type 0
Holds Q (ok a) = Q a
Holds Q (err e) = Unit

>>=-Holds :
    {A B : Type 0} (Q : B → Type 0) (o : Outcome A) (f : A → Outcome B)
    → Holds (λ a. Holds Q (f a)) o
    → Holds Q (o >>= f)
>>=-Holds Q (ok a) f h = h
>>=-Holds Q (err e) f h = tt

Holds-map :
    {A : Type 0} {P Q : A → Type 0}
    → (o : Outcome A) → ((a : A) → P a → Q a)
    → Holds P o
    → Holds Q o
Holds-map (ok a) f h = f a h
Holds-map (err e) f h = tt

Holds-all : {A : Type 0} {Q : A → Type 0} (o : Outcome A) → ((a : A) → Q a) → Holds Q o
Holds-all (ok a) f = f a
Holds-all (err e) f = tt

append_bounded-Holds :
    (dst value : Bytes) (max_bytes : ℕ)
    → length dst ≤ max_bytes
    → Holds (λ r. length r ≤ max_bytes) (append_bounded dst value max_bytes)
unfolding append_bounded
append_bounded-Holds dst value max_bytes h =
    if-elim (Holds (λ (r : Bytes). length r ≤ max_bytes))
      (ltb (max_bytes - length dst) (length value)) _ _ (λ _. tt)
      (λ e. ground (arith, e, h, length-append dst value))

module _ {S : Type 0} (valid : Bytes → Bool) (handle : Bytes → S → Outcome S) (limits : SseLimits)
    (P : S → Type 0) where
  -- The event is within the limit, and the handled messages have the property.
  record Good (s : Scanner valid handle) : Type 0 where
    event_fits : length s.event ≤ limits.message_bytes
    handled_well : P s.handled

  -- The handler keeps the property for valid messages within the limit.
  unfoldable pub Keeps : Type 0
  Keeps =
      (m : Bytes) (s : S)
      → valid m ≡ true
      → length m ≤ limits.message_bytes
      → P s
      → Holds P (handle m s)

  flush-Good : Keeps → (s : Scanner valid handle) → Good s → Holds Good (flush valid handle s)
  unfolding flush Keeps
  flush-Good keeps s g =
      if-elim (Holds Good) (not s.seen_data) _ _ (λ _. g)
        (λ _.
          if-elim (Holds Good) (not (valid s.event)) _ _
            (λ _. record { event_fits = omega arith; handled_well = g.handled_well })
            (λ e. >>=-Holds Good (handle s.event s.handled) _ (
              Holds-map (handle s.event s.handled)
                (λ t p. record { event_fits = omega arith; handled_well = p })
                (keeps s.event s.handled (ground (arith, e)) g.event_fits g.handled_well))))

  add_data-Good :
      (s : Scanner valid handle) (found : Option Bytes)
      → Good s
      → Holds Good (add_data valid handle limits s found)
  add_data-Good s none g = g
  add_data-Good s (some value) g =
      >>=-Holds Good
        (if s.seen_data
          then append_bounded s.event (b'\n' ∷ []) limits.message_bytes
          else ok s.event)
        _
        (Holds-map _
          (λ joined j. >>=-Holds Good (append_bounded joined value limits.message_bytes) _ (
            Holds-map {Q = λ x. Good (record { event = x; seen_data = true; handled = s.handled })}
              _ (λ event e. record { event_fits = e; handled_well = g.handled_well })
              (append_bounded-Holds joined value limits.message_bytes j)))
          (if-elim (Holds (λ (r : Bytes). length r ≤ limits.message_bytes)) s.seen_data _ _
            (λ _. append_bounded-Holds s.event (b'\n' ∷ []) limits.message_bytes g.event_fits)
            (λ _. g.event_fits)))

  process_line-Good :
      Keeps
      → (l : Bytes) (s : Scanner valid handle) → Good s
      → Holds Good (process_line valid handle limits l s)
  unfolding process_line
  process_line-Good keeps [] s g = flush-Good keeps s g
  process_line-Good keeps (c ∷ l) s g = add_data-Good s (data_of (parse_sse_data_line (c ∷ l))) g

  after_line-Good :
      Keeps
      → (s : Scanner valid handle)
        (go : Bytes → Scanner valid handle → Outcome (Scanner valid handle))
      → Good s
      → ((rest : Bytes) (t : Scanner valid handle) → Good t → Holds Good (go rest t))
      → (next : Line) → Holds Good (after_line valid handle limits s go next)
  after_line-Good keeps s go g later end = g
  after_line-Good keeps s go g later (line l rest) =
      >>=-Holds Good (process_line valid handle limits l s) _
        (Holds-map _ (later rest) (process_line-Good keeps l s g))

  scan-Good :
      Keeps
      → (fuel : ℕ) (body : Bytes) (s : Scanner valid handle) → Good s
      → Holds Good (scan valid handle fuel limits body s)
  unfolding scan
  scan-Good keeps zero body s g = g
  scan-Good keeps (suc fuel) body s g = >>=-Holds Good (read_line limits [] body) _ (
      Holds-all (read_line limits [] body)
        (after_line-Good keeps s _ g (λ rest t. scan-Good keeps fuel rest t)))

-- Whatever the body, the handler is called with valid messages within the limit only: a property
-- of its state that it keeps for these holds at the end, if it held at first.
pub scan_sse_messages_with_limits-Keeps :
    {S : Type 0} (valid : Bytes → Bool) (handle : Bytes → S → Outcome S) (limits : SseLimits)
    (P : S → Type 0) (body : Bytes) (s : S)
    → Keeps valid handle limits P
    → P s
    → Holds (λ t. P t.handled) (scan_sse_messages_with_limits valid handle limits body s)
unfolding scan_sse_messages_with_limits
scan_sse_messages_with_limits-Keeps valid handle limits P body s keeps p =
    Holds-map {P = Good valid handle limits P} _ (λ t g. g.handled_well)
      (scan-Good valid handle limits P keeps (suc (length body)) (skip_bom body) _
        (record { event_fits = omega arith; handled_well = p }))
