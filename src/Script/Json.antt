-- ===== src/Script/Json.antt =====
-- `JSON.parse` and `JSON.stringify` of a string, which utils/script applies to string literals.
pub mod RoundTrip
use hydrui.Base.{
  ℕ, zero, suc, ◌+◌, ◌-◌, ◌*◌, ◌&&◌, ◌||◌, Option, none, some, [], ◌∷◌, Text, ltb, leb, ◌==◌,
  if◌then◌else◌, is_empty, ◌/◌, ◌%◌, Bool, ◌++◌, codes, ◌≡◌, refl,
}

-- Where the reader stands: between units, behind a backslash, or with `k + 1` digits of a `\u` escape
-- to come, after those of `value`.
pub data JsonState : Type 0 where
  plain escape : JsonState
  hex : ℕ → ℕ → JsonState

-- What a unit does: nothing is given out, a unit is, the string ends, or the text is no JSON.
pub data JsonStep : Type 0 where
  go : JsonState → JsonStep
  give : ℕ → JsonStep
  close fail : JsonStep

abbrev escaped : ℕ → Option ℕ
escaped c =
    if c == b'"'
    then some b'"'
    else if c == b'\\'
    then some b'\\'
    else if c == b'/'
    then some b'/'
    else if c == b'b'
    then some 8
    else if c == b'f'
    then some 12
    else if c == b'n'
    then some 10
    else if c == b'r'
    then some 13
    else if c == b't'
    then some 9
    else none

abbrev hex_digit : ℕ → Option ℕ
hex_digit c =
    if leb b'0' c && leb c b'9'
    then some (c - b'0')
    else if leb b'a' c && leb c b'f'
    then some (c - b'a' + 10)
    else if leb b'A' c && leb c b'F'
    then some (c - b'A' + 10)
    else none

abbrev step_escape : ℕ → Option ℕ → JsonStep
step_escape c (some unit) = give unit
step_escape c none = if c == b'u' then go (hex 3 0) else fail

abbrev step_hex : ℕ → ℕ → Option ℕ → JsonStep
step_hex k value none = fail
step_hex zero value (some d) = give (value * 16 + d)
step_hex (suc k) value (some d) = go (hex k (value * 16 + d))

unfoldable pub json_step : JsonState → ℕ → JsonStep
json_step plain c =
    if c == b'"' then close else if c == b'\\' then go escape else if ltb c 32 then fail else give c
json_step escape c = step_escape c (escaped c)
json_step (hex k value) c = step_hex k value (hex_digit c)

abbrev prepend : ℕ → Option Text → Option Text
prepend c none = none
prepend c (some t) = some (c ∷ t)

unfoldable pub json_body : JsonState → Text → Option Text
json_body state [] = none
json_body state (c ∷ r) = elim (json_step state c) [
  | go state' ↦ json_body state' r
  | give unit ↦ prepend unit (json_body plain r)
  | close ↦ if is_empty r then some [] else none
  | fail ↦ none
]

-- `JSON.parse` of a text that begins with a quote; `none` is a `SyntaxError`.
unfoldable pub json_parse : Text → Option Text
json_parse [] = none
json_parse (c ∷ r) = if c == b'"' then json_body plain r else none

-- `JSON.stringify` of a string.
abbrev pub backslash : ℕ → Text
backslash c = b'\\' ∷ c ∷ []

unfoldable pub hex_unit : ℕ → ℕ
hex_unit d = if ltb d 10 then d + b'0' else d + 87

abbrev pub unicode : ℕ → Text
unicode c =
    b'\\'
    ∷ b'u'
    ∷ hex_unit (c / 4096)
    ∷ hex_unit (c / 256 % 16)
    ∷ hex_unit (c / 16 % 16)
    ∷ hex_unit (c % 16)
    ∷ []

abbrev pub is_high : ℕ → Bool
is_high c = leb 55296 c && leb c 56319

abbrev pub is_low : ℕ → Bool
is_low c = leb 56320 c && leb c 57343

-- The units that stand for another one behind a backslash.
abbrev pub short_escape : ℕ → Option ℕ
short_escape c =
    if c == b'"'
    then some b'"'
    else if c == b'\\'
    then some b'\\'
    else if c == 8
    then some b'b'
    else if c == 12
    then some b'f'
    else if c == 10
    then some b'n'
    else if c == 13
    then some b'r'
    else if c == 9
    then some b't'
    else none

abbrev pub quote_or : ℕ → Option ℕ → Text
quote_or c (some e) = backslash e
quote_or c none = if ltb c 32 || (is_high c || is_low c) then unicode c else c ∷ []

unfoldable pub quote_unit : ℕ → Text
quote_unit c = quote_or c (short_escape c)

-- A high surrogate in front of a low one stays as it is; a surrogate that stands alone is escaped.
unfoldable pub quote : Text → Text
unfolding quote_unit
quote [] = []
quote (c ∷ []) = quote_unit c
quote (c ∷ d ∷ r) =
    let pair = c ∷ d ∷ quote r in
    let single = quote_unit c ++ quote (d ∷ r) in if is_high c && is_low d then pair else single

unfoldable pub json_stringify : Text → Text
unfolding quote
json_stringify t = b'"' ∷ (quote t ++ codes "\"")
