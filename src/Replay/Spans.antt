-- ===== src/Replay/Spans.antt =====
-- tools/trace_replay/trace_replay.cpp: `find_value_span` on a line of fields.
use saturnis.Base.{
  ℕ, ◌≡◌, ◌≢◌, ◌≤◌, refl, ap, ◌∙◌, false, Option, none, some, List, [], ◌∷◌, ◌++◌, arith, All,
  All-map,
}
use saturnis.Replay.Print.{quote, Shown, digits, quoted, shown, content, fields_text}
use saturnis.Replay.Text.{
  Text, eq_text, behind_prefix, behind, skip_blanks, until_quote, until_end, value_behind,
  colon_behind, find_value_span,
}

-- No quotes.
abbrev pub IsPlain : Text → Type 0
IsPlain = All (λ c. c ≢ quote)

abbrev needle_of : Text → Text
needle_of key = quote ∷ (key ++ quote ∷ [])

prefix_key : (key rest : Text) → behind_prefix (key ++ quote ∷ []) (key ++ quote ∷ rest) ≡ some rest
unfolding behind_prefix
prefix_key [] rest = refl
prefix_key (c ∷ key) rest = ground (arith, prefix_key key rest)

prefix_other :
    (key s rest : Text)
    → IsPlain key
    → IsPlain s
    → eq_text key s ≡ false
    → behind_prefix (key ++ quote ∷ []) (s ++ quote ∷ rest) ≡ none
unfolding behind_prefix eq_text
prefix_other [] [] rest k p e = absurd (cc)
prefix_other [] (d ∷ s) rest k p e = ground (arith, p.0)
prefix_other (c ∷ key) [] rest k p e = ground (arith, k.0)
prefix_other (c ∷ key) (d ∷ s) rest k p e = ground (arith, prefix_other key s rest k.1 p.1)

-- A text without quotes is passed over.
behind-IsPlain :
    (key s rest : Text)
    → IsPlain s
    → behind (needle_of key) (s ++ rest) ≡ behind (needle_of key) rest
unfolding behind behind_prefix
behind-IsPlain key [] rest p = refl
behind-IsPlain key (c ∷ s) rest p = ground (arith, p.0, behind-IsPlain key s rest p.1)

behind-hit :
    (needle : Text) (c : ℕ) (text rest : Text)
    → behind_prefix needle (c ∷ text) ≡ some rest
    → behind needle (c ∷ text) ≡ some rest
unfolding behind
behind-hit needle c text rest e =
    ap (λ (o : Option Text). elim o [ some r ↦ some r | none ↦ behind needle text ]) e

behind-miss :
    (needle : Text) (c : ℕ) (text : Text)
    → behind_prefix needle (c ∷ text) ≡ none
    → behind needle (c ∷ text) ≡ behind needle text
unfolding behind
behind-miss needle c text e =
    ap (λ (o : Option Text). elim o [ some r ↦ some r | none ↦ behind needle text ]) e

-- The key itself.
pub behind-key :
    (key rest : Text) → behind (needle_of key) (quote ∷ (key ++ quote ∷ rest)) ≡ some rest
unfolding behind_prefix
behind-key key rest =
    behind-hit (needle_of key) quote (key ++ quote ∷ rest) rest (prefix_key key rest)

-- A character that begins no key, behind a closing quote.
pub behind-closing :
    (c sep : ℕ) (key rest : Text)
    → sep ≢ quote
    → c ≢ sep
    → behind (needle_of (c ∷ key)) (quote ∷ sep ∷ rest) ≡ behind (needle_of (c ∷ key)) rest
unfolding behind_prefix
behind-closing c sep key rest no_quote other =
    behind-miss (needle_of (c ∷ key)) quote (sep ∷ rest) (ground arith)
    ∙ behind-miss (needle_of (c ∷ key)) sep rest (ground arith)

-- Another text between quotes.
pub behind-other :
    (c : ℕ) (key s : Text) (sep : ℕ) (rest : Text)
    → IsPlain (c ∷ key)
    → IsPlain s
    → eq_text (c ∷ key) s ≡ false
    → sep ≢ quote
    → c ≢ sep
    → behind (needle_of (c ∷ key)) (quote ∷ (s ++ quote ∷ sep ∷ rest))
      ≡ behind (needle_of (c ∷ key)) rest
unfolding behind_prefix
behind-other c key s sep rest k p e no_quote other =
    behind-miss (needle_of (c ∷ key)) quote (s ++ quote ∷ sep ∷ rest)
      (prefix_other (c ∷ key) s (sep ∷ rest) k p e)
    ∙ behind-IsPlain (c ∷ key) s (quote ∷ sep ∷ rest) p
    ∙ behind-closing c sep key rest no_quote other

-- A number is digits; a text has no quotes and is not the key that is looked for.
abbrev pub IsDigits : Text → Type 0
IsDigits [] = ⊥
IsDigits (c ∷ s) = All (λ d. (b'0' ≤ d) × (d ≤ b'9')) (c ∷ s)

abbrev pub Passes : Text → Shown → Type 0
Passes key (digits s) = IsDigits s
Passes key (quoted s) = IsPlain s × (eq_text key s ≡ false)

-- The first field of a key.
pub data Finds (key : Text) (value : Shown) : List (Text × Shown) → Type 0 where
  here : (fields : List (Text × Shown)) → Finds key value ((key, value) ∷ fields)
  there :
      (other : Text) (passed : Shown) {fields : List (Text × Shown)}
      → IsPlain other
      → eq_text key other ≡ false
      → Passes key passed
      → Finds key value fields
      → Finds key value ((other, passed) ∷ fields)

IsDigits-IsPlain : (s : Text) → All (λ d. (b'0' ≤ d) × (d ≤ b'9')) s → IsPlain s
IsDigits-IsPlain s = All-map (λ d. (b'0' ≤ d) × (d ≤ b'9')) (λ d. d ≢ quote) (λ d h. ground arith) s

digits-IsPlain : (s : Text) → IsDigits s → IsPlain s
digits-IsPlain [] h = elim h [ ]
digits-IsPlain (c ∷ s) h = IsDigits-IsPlain (c ∷ s) h

module _ (c : ℕ) (key : Text) (plain : IsPlain (c ∷ key)) (no_colon : c ≢ b':')
    (no_comma : c ≢ b',') where
  behind-shown :
      (passed : Shown) (rest : Text)
      → Passes (c ∷ key) passed
      → behind (needle_of (c ∷ key)) (shown passed rest) ≡ behind (needle_of (c ∷ key)) rest
  behind-shown (digits s) rest h =
      behind-IsPlain (c ∷ key) s (b',' ∷ rest) (digits-IsPlain s h)
      ∙ behind-IsPlain (c ∷ key) (b',' ∷ []) rest (ground arith)
  behind-shown (quoted s) rest h =
      behind-other c key s b',' rest plain h.0 h.1 (ground arith) no_comma

  behind-Finds :
      (value : Shown) {fields : List (Text × Shown)} (rest : Text)
      → Finds (c ∷ key) value fields
      → (tail : Text) × (behind (needle_of (c ∷ key)) (fields_text fields rest)
          ≡ some (b':' ∷ shown value tail))
  behind-Finds value rest (here fields) =
      (fields_text fields rest, behind-key (c ∷ key) (b':' ∷ shown value (fields_text fields rest)))
  behind-Finds value rest (there other passed {fields} p e passes found) =
      let (tail, at) = behind-Finds value rest found in
      (
        tail,
        behind-other c key other b':' (shown passed (fields_text fields rest)) plain p e
              (ground arith) no_colon
            ∙ behind-shown passed (fields_text fields rest) passes
            ∙ at,
      )

until_end-digits :
    (s rest : Text) → All (λ d. (b'0' ≤ d) × (d ≤ b'9')) s → until_end (s ++ b',' ∷ rest) ≡ s
unfolding until_end
until_end-digits [] rest h = refl
until_end-digits (c ∷ s) rest h = ground (arith, h.0, until_end-digits s rest h.1)

until_quote-text : (s rest : Text) → IsPlain s → until_quote (s ++ quote ∷ rest) ≡ some s
unfolding until_quote
until_quote-text [] rest h = refl
until_quote-text (c ∷ s) rest h = ground (arith, h.0, until_quote-text s rest h.1)

abbrev pub IsShowable : Shown → Type 0
IsShowable (digits s) = IsDigits s
IsShowable (quoted s) = IsPlain s

value_behind-shown :
    (value : Shown) (tail : Text)
    → IsShowable value
    → value_behind (some (shown value tail)) ≡ some (content value)
unfolding skip_blanks
value_behind-shown (digits []) tail h = elim h [ ]
value_behind-shown (digits (c ∷ s)) tail h = ground (arith, h.0, until_end-digits (c ∷ s) tail h)
value_behind-shown (quoted s) tail h = until_quote-text s (b',' ∷ tail) h

-- In a line of fields, the value of the first field of a key is found, whatever stands behind the fields: the
-- digits of a number, or the text between the quotes.
pub find_value_span-Finds :
    (c : ℕ) (key : Text) (value : Shown) {fields : List (Text × Shown)} (rest : Text)
    → IsPlain (c ∷ key)
    → c ≢ b':'
    → c ≢ b','
    → IsShowable value
    → Finds (c ∷ key) value fields
    → find_value_span (b'{' ∷ fields_text fields rest) (c ∷ key) ≡ some (content value)
unfolding find_value_span behind behind_prefix
find_value_span-Finds c key value {fields} rest plain no_colon no_comma ok found =
    let (tail, at) = behind-Finds c key plain no_colon no_comma value rest found in
    ap (λ (o : Option Text). value_behind (colon_behind o))
      (behind-IsPlain (c ∷ key) (b'{' ∷ []) (fields_text fields rest) (ground arith) ∙ at)
    ∙ value_behind-shown value tail ok
