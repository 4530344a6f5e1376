-- ===== src/Toon/Encode/Appends.antt =====
-- internal/toon/encode.go: what a writer does to the text that is there, and how this is composed.
use mini.Prelude.{
  ℕ, ◌+◌, ◌≤◌, ◌<◌, ◌≡◌, refl, sym, ap, subst, Bool, true, false, Bool-cases, inl, inr, [], ◌++◌,
  append_assoc, append-nil, Option, none, some, Bytes, length, length-append, leb, ltb, if-elim,
  if◌then◌else◌, arith,
}
use mini.Utf8.{valid_string}
use mini.Toon.Encode.{
  max_encode_bytes, max_encode_depth, EncodeError, too_large, invalid_utf8, EncodeResult, ok, err,
  Writer, and_write, with_text, append_string, check_depth, check_length, validate_utf8, done,
  write_checked, ◌>>◌,
}
use mini.Toon.Encode.Lines.{when, image, combined, within_depth}

-- The answer is the text put behind sb, within the limit; an error if there is no such text, and the
-- one of the limit if it is too long.
abbrev pub Agrees : Bytes → Option Bytes → EncodeResult → Type 0
Agrees sb none (ok out) = ⊥
Agrees sb (some t) (ok out) = (out ≡ sb ++ t) × (length out ≤ max_encode_bytes)
Agrees sb none (err e) = Unit
Agrees sb (some t) (err e) = (e ≡ too_large) × (max_encode_bytes < length sb + length t)

pub record Appends (t : Option Bytes) (w : Writer) : Type 0 where
  pub agrees : (sb : Bytes) → length sb ≤ max_encode_bytes → Agrees sb t (w sb)

abbrev pub joined : Option Bytes → Option Bytes → Option Bytes
joined = combined (λ s t. s ++ t)

and_then-Agrees :
    (sb s out : Bytes) (t : Option Bytes) (r : EncodeResult)
    → out ≡ sb ++ s
    → Agrees out t r
    → Agrees sb (image (λ u. s ++ u) t) r
and_then-Agrees sb s out none (ok r) e h = absurd h
and_then-Agrees sb s out none (err x) e h = tt
and_then-Agrees sb s out (some u) (ok r) e (f, l) = (rw f (rw e (append_assoc sb s u)), l)
and_then-Agrees sb s out (some u) (err x) e (f, l) =
    (f, omega (arith, l, ap length e, length-append sb s, length-append s u))

and_write-Agrees :
    (sb : Bytes) (s t : Option Bytes) (w : Writer) (r : EncodeResult)
    → Agrees sb s r
    → Appends t w
    → Agrees sb (joined s t) (and_write w r)
and_write-Agrees sb none t w (ok out) h a = absurd h
and_write-Agrees sb none t w (err x) h a = tt
and_write-Agrees sb (some s) t w (ok out) (e, l) a =
    and_then-Agrees sb s out t (w out) e (a.agrees out l)
and_write-Agrees sb (some s) none w (err x) h a = tt
and_write-Agrees sb (some s) (some t) w (err x) (e, l) a = (e, omega (arith, l, length-append s t))

pub >>-Appends :
    {s t : Option Bytes} (v w : Writer) → Appends s v → Appends t w → Appends (joined s t) (v >> w)
>>-Appends {s} {t} v w p q = record {
  agrees = λ sb h. and_write-Agrees sb s t w (v sb) (p.agrees sb h) q;
}

append_string-Agrees : (s sb : Bytes) → Agrees sb (some s) (append_string s sb)
unfolding append_string
append_string-Agrees s sb =
    if-elim (Agrees sb (some s)) (ltb max_encode_bytes (length sb + length s)) _ _
      (λ e. (refl, ground (arith, e))) (λ e. (refl, ground (arith, e, length-append sb s)))

pub append_string-Appends : (s : Bytes) → Appends (some s) (append_string s)
append_string-Appends s = record { agrees = λ sb h. append_string-Agrees s sb }

pub done-Appends : Appends (some []) done
done-Appends = record { agrees = λ sb h. (sym (append-nil sb), h) }

-- A text before and after one that may be missing.
pub >>-after :
    {A : Type 0} (o : Option A) (g : A → Bytes) (s : Bytes) (w : Writer)
    → Appends (image g o) w
    → Appends (image (λ a. s ++ g a) o) (append_string s >> w)
>>-after o g s w p =
    subst (λ (t : Option Bytes). Appends t (append_string s >> w)) (after o)
      (>>-Appends (append_string s) w (append_string-Appends s) p)
  where
    after : (o : _) → joined (some s) (image g o) ≡ image (λ a. s ++ g a) o
    after none = refl
    after (some a) = refl

guarded-Agrees :
    (b : Bool) (x : EncodeError) (w : Writer) (t : Option Bytes) (sb : Bytes)
    → Agrees sb t (w sb)
    → Agrees sb (when b t) (and_write w (if b then ok sb else err x))
guarded-Agrees true x w t sb h = h
guarded-Agrees false x w t sb h = tt

pub validate_utf8-Appends :
    {t : Option Bytes} (s : Bytes) (w : Writer)
    → Appends t w
    → Appends (when (valid_string s) t) (validate_utf8 s >> w)
unfolding validate_utf8
validate_utf8-Appends {t} s w p = record {
  agrees = λ sb h. guarded-Agrees (valid_string s) invalid_utf8 w t sb (p.agrees sb h);
}

check_depth-Agrees :
    (depth : ℕ) (w : Writer) (t : Option Bytes) (sb : Bytes)
    → Agrees sb t (w sb)
    → Agrees sb (within_depth depth t) (and_write w (check_depth depth sb))
unfolding check_depth
check_depth-Agrees depth w t sb h = elim (Bool-cases (leb depth max_encode_depth)) [
  | inl e ↦ let f : ltb max_encode_depth depth ≡ false = ground (arith, e) in rw e (rw f h)
  | inr e ↦ let f : ltb max_encode_depth depth ≡ true = ground (arith, e) in rw e (rw f tt)
]

pub check_depth-Appends :
    {t : Option Bytes} (depth : ℕ) (w : Writer)
    → Appends t w
    → Appends (within_depth depth t) (check_depth depth >> w)
check_depth-Appends {t} depth w p = record {
  agrees = λ sb h. check_depth-Agrees depth w t sb (p.agrees sb h);
}

pub write_checked-Appends :
    {t : Option Bytes} (each : ℕ → Writer) (depth : ℕ)
    → Appends t (each depth)
    → Appends (within_depth depth t) (write_checked each depth)
unfolding write_checked check_length
write_checked-Appends {t} each depth p = record {
  agrees = λ sb h.
      let f : ltb max_encode_bytes (length sb) ≡ false = ground (arith, h) in
      check_depth-Agrees depth (λ s. and_write (each depth) (check_length s)) t sb
        (rw f (p.agrees sb h));
}

pub >>-both :
    {A B C : Type 0} (p : Option A) (q : Option B) (f : A → Bytes) (g : B → Bytes) (c : A → B → C)
    (h : C → Bytes)
    → ((a : A) (b : B) → h (c a b) ≡ f a ++ g b)
    → (v w : Writer) → Appends (image f p) v
    → Appends (image g q) w
    → Appends (image h (combined c p q)) (v >> w)
>>-both p q f g c h e v w a b =
    subst (λ (t : Option Bytes). Appends t (v >> w)) (parts p q) (>>-Appends v w a b)
  where
    parts : (p : _) (q : _) → joined (image f p) (image g q) ≡ image h (combined c p q)
    parts none q = refl
    parts (some a) none = refl
    parts (some a) (some b) = ap some (sym (e a b))

-- The same text, written otherwise.
pub Appends-image :
    {A B : Type 0} (o : Option A) (g : A → Bytes) (c : A → B) (h : B → Bytes)
    → ((a : A) → h (c a) ≡ g a)
    → (w : Writer) → Appends (image g o) w
    → Appends (image h (image c o)) w
Appends-image none g c h e w p = p
Appends-image (some a) g c h e w p = subst (λ (s : Bytes). Appends (some s) w) (sym (e a)) p

-- What is made of a text, if there is one, and is as long as it or longer.
abbrev pub made : (Bytes → Option Bytes) → Option Bytes → Option Bytes
made g none = none
made g (some s) = g s

abbrev pub AtLeast : ℕ → Option Bytes → Type 0
AtLeast n none = Unit
AtLeast n (some t) = n ≤ length t

with_text-Agrees :
    (o : EncodeResult) (p : Option Bytes) (f : Bytes → Writer) (g : Bytes → Option Bytes)
    (sb : Bytes)
    → Agrees [] p o
    → ((s : Bytes) → Agrees sb (g s) (f s sb))
    → ((s : Bytes) → AtLeast (length s) (g s))
    → Agrees sb (made g p) (with_text o f sb)
with_text-Agrees (ok s) none f g sb h a l = absurd h
with_text-Agrees (ok s) (some t) f g sb (e, k) a l =
    subst (λ (u : Bytes). Agrees sb (g u) (f s sb)) e (a s)
with_text-Agrees (err x) none f g sb h a l = tt
with_text-Agrees (err x) (some t) f g sb (e, k) a l = too_long (g t) (l t)
  where
    too_long : (r : Option Bytes) → AtLeast (length t) r → Agrees sb r (err x)
    too_long none m = tt
    too_long (some u) m = (e, omega (arith, k, m))

pub with_text-Appends :
    (p : Option Bytes) (o : EncodeResult) (f : Bytes → Writer) (g : Bytes → Option Bytes)
    → Agrees [] p o
    → ((s : Bytes) → Appends (g s) (f s))
    → ((s : Bytes) → AtLeast (length s) (g s))
    → Appends (made g p) (with_text o f)
with_text-Appends p o f g h a l = record {
  agrees = λ sb k. with_text-Agrees o p f g sb h (λ s. (a s).agrees sb k) l;
}

-- A line that is made of the text.
pub with_text-image :
    {A : Type 0} (q : Option A) (k : A → Bytes) (o : EncodeResult) (f : Bytes → Writer)
    (g : Bytes → Bytes)
    → Agrees [] (image k q) o
    → ((s : Bytes) → Appends (some (g s)) (f s))
    → ((s : Bytes) → length s ≤ length (g s))
    → Appends (image (λ a. g (k a)) q) (with_text o f)
with_text-image q k o f g h a l =
    subst (λ (t : Option Bytes). Appends t (with_text o f)) (same q)
      (with_text-Appends (image k q) o f (λ s. some (g s)) h a l)
  where
    same : (q : _) → made (λ s. some (g s)) (image k q) ≡ image (λ a. g (k a)) q
    same none = refl
    same (some a) = refl

pub >>-before :
    {A : Type 0} (o : Option A) (g : A → Bytes) (s : Bytes) (w : Writer)
    → Appends (image g o) w
    → Appends (image (λ a. g a ++ s) o) (w >> append_string s)
>>-before o g s w p =
    subst (λ (t : Option Bytes). Appends t (w >> append_string s)) (before o)
      (>>-Appends w (append_string s) p (append_string-Appends s))
  where
    before : (o : _) → joined (image g o) (some s) ≡ image (λ a. g a ++ s) o
    before none = refl
    before (some a) = refl

pub Appends-when :
    {A : Type 0} (b : Bool) (o : Option A) (f : A → Bytes) (w : Writer)
    → Appends (when b (image f o)) w
    → Appends (image f (when b o)) w
Appends-when true o f w p = p
Appends-when false o f w p = p

-- Two texts made into one, otherwise.
pub Appends-both :
    {A B C : Type 0} (b : Bool) (p : Option A) (q : Option B) (g : A × B → Bytes) (c : A → B → C)
    (h : C → Bytes)
    → ((a : A) (b : B) → h (c a b) ≡ g (a, b))
    → (w : Writer) → Appends (image g (when b (combined (λ x y. (x, y)) p q))) w
    → Appends (image h (when b (combined c p q))) w
Appends-both false p q g c h e w a = a
Appends-both true none q g c h e w a = a
Appends-both true (some x) none g c h e w a = a
Appends-both true (some x) (some y) g c h e w a =
    subst (λ (s : Bytes). Appends (some s) w) (sym (e x y)) a
