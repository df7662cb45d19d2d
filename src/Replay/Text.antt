-- ===== src/Replay/Text.antt =====
-- tools/trace_replay/trace_replay.cpp: the text of a JSONL record. A text is the list of its bytes.
use Prim.Native.Char.{code}
use Prim.Native.String.{String}
use saturnis.Base.{
  ℕ, zero, suc, ◌+◌, ◌-◌, ◌*◌, ◌/◌, ◌%◌, ◌^◌, Bool, true, false, ◌&&◌, ◌||◌, Option, none, some,
  List, [], ◌∷◌, ◌++◌, leb, ltb, ◌==◌, if◌then◌else◌,
}

abbrev pub Text : Type 0
Text = List ℕ

abbrev pub codes : String → Text
codes String.[] = []
codes (String.◌∷◌ c s) = code c ∷ codes s

unfoldable pub eq_text : Text → Text → Bool
eq_text [] [] = true
eq_text (c ∷ s) (d ∷ t) = c == d && eq_text s t
eq_text _ _ = false

-- What stands behind a prefix.
unfoldable pub behind_prefix : Text → Text → Option Text
behind_prefix [] text = some text
behind_prefix (c ∷ cs) [] = none
behind_prefix (c ∷ cs) (d ∷ text) = if c == d then behind_prefix cs text else none

-- What stands behind the first place of `needle`, as `find` gives it.
unfoldable pub behind : Text → Text → Option Text
behind needle [] = behind_prefix needle []
behind needle (c ∷ text) = elim (behind_prefix needle (c ∷ text)) [
  | some rest ↦ some rest
  | none ↦ behind needle text
]

unfoldable pub skip_blanks : Text → Text
skip_blanks [] = []
skip_blanks (c ∷ text) =
    let rest = skip_blanks text in if c == b' ' || c == b'\t' then rest else c ∷ text

-- Up to the closing quote, which must be there.
unfoldable pub until_quote : Text → Option Text
until_quote [] = none
until_quote (c ∷ text) =
    if c == b'"' then some [] else elim (until_quote text) [ none ↦ none | some s ↦ some (c ∷ s) ]

-- Up to a comma or a closing brace.
unfoldable pub until_end : Text → Text
until_end [] = []
until_end (c ∷ text) = let rest = until_end text in if c == b',' || c == b'}' then [] else c ∷ rest

abbrev pub value_at : Text → Option Text
value_at [] = none
value_at (c ∷ text) = if c == b'"' then until_quote text else some (until_end (c ∷ text))

abbrev pub value_behind : Option Text → Option Text
value_behind none = none
value_behind (some text) = value_at (skip_blanks text)

abbrev pub colon_behind : Option Text → Option Text
colon_behind none = none
colon_behind (some text) = behind (b':' ∷ []) text

unfoldable pub find_value_span : Text → Text → Option Text
find_value_span line key = value_behind (colon_behind (behind (b'"' ∷ (key ++ b'"' ∷ [])) line))

abbrev pub decimal_digit : ℕ → Option ℕ
decimal_digit c = if leb b'0' c && leb c b'9' then some (c - b'0') else none

abbrev pub hex_digit : ℕ → Option ℕ
hex_digit c =
    if leb b'0' c && leb c b'9'
    then some (c - b'0')
    else if leb b'a' c && leb c b'f'
    then some (c - b'a' + 10)
    else if leb b'A' c && leb c b'F'
    then some (c - b'A' + 10)
    else none

-- The number that digits spell behind `acc`, if all of the text is digits.
unfoldable pub number_from : (ℕ → Option ℕ) → ℕ → Text → ℕ → Option ℕ
number_from digit base [] acc = some acc
number_from digit base (c ∷ text) acc = elim (digit c) [
  | none ↦ none
  | some d ↦ number_from digit base text (acc * base + d)
]

abbrev pub in_range : ℕ → Option ℕ → Option ℕ
in_range limit none = none
in_range limit (some n) = if ltb n limit then some n else none

-- `std::from_chars` with the test that it has come to the end: at least one digit, nothing but digits, and
-- a number that fits.
unfoldable pub from_chars : (ℕ → Option ℕ) → ℕ → ℕ → Text → Option ℕ
from_chars digit base limit [] = none
from_chars digit base limit (c ∷ text) = in_range limit (number_from digit base (c ∷ text) 0)

unfoldable pub parse_u64 : Text → Option ℕ
unfolding from_chars
parse_u64 = from_chars decimal_digit 10 (2 ^ 64)

unfoldable pub trim_prefix : Text → Text
trim_prefix (c ∷ d ∷ text) = if c == b'0' && (d == b'x' || d == b'X') then text else c ∷ d ∷ text
trim_prefix text = text

unfoldable pub parse_addr : Text → Option ℕ
unfolding from_chars trim_prefix
parse_addr text = from_chars hex_digit 16 (2 ^ 32) (trim_prefix text)

-- The hexadecimal digit of a value below 16.
abbrev pub hex_code : ℕ → ℕ
hex_code d = if ltb d 10 then b'0' + d else b'A' + (d - 10)

-- The last `n` hexadecimal digits of a value, the highest first.
unfoldable pub hex_digits : ℕ → ℕ → Text
hex_digits zero value = []
hex_digits (suc n) value = hex_digits n (value / 16) ++ hex_code (value % 16) ∷ []

unfoldable pub to_hex32 : ℕ → Text
unfolding hex_digits
to_hex32 value = b'0' ∷ b'x' ∷ hex_digits 8 value

unfoldable pub json_escape : Text → Text
json_escape [] = []
json_escape (c ∷ text) =
    let rest = json_escape text in if c == b'"' || c == b'\\' then b'\\' ∷ c ∷ rest else c ∷ rest
