-- ===== src/Replay/Fields.antt =====
-- tools/trace_replay/trace_replay.cpp: the fields of a line that `main` writes, and where `find_value_span` finds
-- the first of a key.
use saturnis.Base.{
  ◌≡◌, ◌≢◌, refl, sym, ap, ◌∙◌, Bool, true, false, not, ◌&&◌, ◌||◌, Option, none, some, List, [],
  ◌∷◌, ◌==◌, if◌then◌else◌, arith, inl, inr, subst, All, All-map, Bool-cases,
}
use saturnis.Replay.Text.{Text, codes, eq_text, json_escape}
use saturnis.Replay.Print.{quote, Shown, digits, quoted}
use saturnis.Replay.Spans.{IsPlain, IsDigits, IsShowable, Passes, Finds, here, there}

-- The keys that are looked up.
abbrev pub keys : List Text
keys =
    codes "seq"
    ∷ codes "master"
    ∷ codes "tick_first_attempt"
    ∷ codes "tick_complete"
    ∷ codes "addr"
    ∷ codes "size"
    ∷ codes "rw"
    ∷ codes "kind"
    ∷ codes "service_cycles"
    ∷ codes "retries"
    ∷ []

abbrev pub is_in : Text → List Text → Bool
is_in s [] = false
is_in s (key ∷ others) = eq_text s key || is_in s others

-- A text that is written as it is, and is no key.
abbrev pub IsText : Text → Type 0
IsText s = All (λ c. (c ≢ quote) × (c ≢ b'\\')) s × (is_in s keys ≡ false)

pub json_escape-text : (s : Text) → All (λ c. (c ≢ quote) × (c ≢ b'\\')) s → json_escape s ≡ s
unfolding json_escape
json_escape-text [] h = refl
json_escape-text (c ∷ s) h = ground (arith, h.0.0, h.0.1, json_escape-text s h.1)

eq_text_sound : (s t : Text) → eq_text s t ≡ true → s ≡ t
unfolding eq_text
eq_text_sound [] [] e = refl
eq_text_sound [] (d ∷ t) e = absurd (cc)
eq_text_sound (c ∷ s) [] e = absurd (cc)
eq_text_sound (c ∷ s) (d ∷ t) e = ground (arith, eq_text_sound s t)

key-other : (key s : Text) → is_in key keys ≡ true → is_in s keys ≡ false → eq_text key s ≡ false
key-other key s k o = elim (Bool-cases (eq_text key s)) [
  | inl same ↦ absurd (cc (k, o, ap (λ (t : Text). is_in t keys) (eq_text_sound key s same)))
  | inr other ↦ other
]

-- A value of a field.
abbrev pub IsValue : Shown → Type 0
IsValue (digits s) = IsDigits s
IsValue (quoted s) = IsPlain s × (is_in s keys ≡ false)

IsValue-Passes :
    (key : Text) (value : Shown) → is_in key keys ≡ true → IsValue value → Passes key value
IsValue-Passes key (digits s) k h = h
IsValue-Passes key (quoted s) k h = (h.0, key-other key s k h.1)

-- The first value of a key.
abbrev pub field_of : Text → List (Text × Shown) → Option Shown
field_of key [] = none
field_of key ((other, value) ∷ fields) =
    let rest = field_of key fields in if eq_text key other then some value else rest

abbrev pub is_plain : Text → Bool
is_plain [] = true
is_plain (c ∷ s) = not (c == quote) && is_plain s

pub is_plain-IsPlain : (s : Text) → is_plain s ≡ true → IsPlain s
is_plain-IsPlain [] e = tt
is_plain-IsPlain (c ∷ s) e = elim (Bool-cases (c == quote)) [
  | inl same ↦ absurd (cc (e, ap (λ (b : Bool). not b && is_plain s) same))
  | inr other ↦ (
    ground (arith, other),
    is_plain-IsPlain s (sym (ap (λ (b : Bool). not b && is_plain s) other) ∙ e),
  )
]

abbrev pub IsField : Text × Shown → Type 0
IsField (key, value) = (is_plain key ≡ true) × IsValue value

field_of-same :
    (key : Text) (value : Shown) (other : Text) (passed : Shown) (fields : List (Text × Shown))
    → eq_text key other ≡ true
    → field_of key ((other, passed) ∷ fields) ≡ some value
    → passed ≡ value
field_of-same key value other passed fields same e =
    ap (λ (o : Option Shown). elim o [ none ↦ passed | some v ↦ v ])
      (sym (ap (λ (b : Bool). if b then some passed else field_of key fields) same) ∙ e)

Finds-same :
    (key : Text) (value : Shown) (other : Text) (passed : Shown) (fields : List (Text × Shown))
    → key ≡ other
    → passed ≡ value
    → Finds key value ((other, passed) ∷ fields)
Finds-same key value other passed fields p q =
    subst (λ (t : Text). Finds key value ((t, passed) ∷ fields)) p
      (subst (λ (v : Shown). Finds key value ((key, v) ∷ fields)) (sym q) (here fields))

pub field_of-Finds :
    (key : Text) (value : Shown) (fields : List (Text × Shown))
    → is_in key keys ≡ true
    → All IsField fields
    → field_of key fields ≡ some value
    → Finds key value fields
field_of-Finds key value [] k h e = absurd (cc)
field_of-Finds key value ((other, passed) ∷ fields) k h e = elim (Bool-cases (eq_text key other)) [
  | inl same ↦
      Finds-same key value other passed fields (eq_text_sound key other same)
        (field_of-same key value other passed fields same e)
  | inr different ↦
      there other passed (is_plain-IsPlain other h.0.0) different
        (IsValue-Passes key passed k h.0.1)
        (field_of-Finds key value fields k h.1
          (sym (ap (λ (b : Bool). if b then some passed else field_of key fields) different) ∙ e))
]

pub IsValue-IsShowable : (value : Shown) → IsValue value → IsShowable value
IsValue-IsShowable (digits s) h = h
IsValue-IsShowable (quoted s) h = h.0

text-IsPlain : (s : Text) → All (λ c. (c ≢ quote) × (c ≢ b'\\')) s → IsPlain s
text-IsPlain s = All-map (λ c. (c ≢ quote) × (c ≢ b'\\')) (λ c. c ≢ quote) (λ c h. h.0) s

pub IsText-IsValue : (s : Text) → IsText s → IsValue (quoted (json_escape s))
IsText-IsValue s h = rw (json_escape-text s h.0) (text-IsPlain s h.0, h.1)
