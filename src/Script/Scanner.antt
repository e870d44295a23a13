-- ===== src/Script/Scanner.antt =====
-- The class `Scanner` of utils/script/lex.ts.
--
-- A scanner is `p` with `rest`, the source from `p` on: `peek`, `peek2` and `peek3` are its first
-- code units. Loops that stop at the end of the source recur on `rest`. The two loops that skip a
-- comment do not stop there, so they take fuel, and `out_of_fuel` is a run that has not ended.
pub mod Reads
pub mod Comments
pub mod Trivia
pub mod Lexeme
pub mod Scanned
pub mod Printed
pub mod Scan
pub mod Ends
pub mod Total
pub mod Underscore
use hydrui.Base.{
  ℕ, zero, suc, ◌+◌, ◌-◌, Bool, false, ◌&&◌, ◌||◌, Option, none, some, [], ◌∷◌, Text, codes,
  eq_text, if◌then◌else◌, leb, ◌==◌, take, drop, first?, is_empty,
}
use hydrui.Script.Token.{
  Token, TokenType, select, words, three_units, two_units, one_unit, identifier, number, string,
}

pub record Scanner : Type 0 where
  pub p : ℕ
  pub rest : Text

abbrev pub at : ℕ → Text → Scanner
at p r = record { p = p; rest = r }

abbrev pub advance : ℕ → Scanner → Scanner
advance n s = at (s.p + n) (drop n s.rest)

-- `peek`: `none` is the empty string that `slice` gives at the end of the source.
abbrev pub peek : Scanner → Option ℕ
peek s = first? s.rest

pub data LexError : Type 0 where
  unexpected_end no_token : LexError
  invalid_identifier : Option ℕ → LexError
  invalid_number : ℕ → LexError
  expected : ℕ → Option ℕ → LexError
  unhandled : Option ℕ → LexError

-- `failed p e` is the error of `scan`, which puts the position `p` in front of the message of `e`.
pub data Result {ℓ} (A : Type ℓ) : Type ℓ where
  ok : A → Result A
  failed : ℕ → LexError → Result A
  out_of_fuel : Result A

infixl 5 ◌>>=◌
abbrev pub ◌>>=◌ {ℓ κ} : {A : Type ℓ} {B : Type κ} → Result A → (A → Result B) → Result B
ok a >>= f = f a
failed p e >>= f = failed p e
out_of_fuel >>= f = out_of_fuel

-- The tests on a text of at most one unit; each of them is false of the empty string.
abbrev pub within : ℕ → ℕ → ℕ → Bool
within lo hi c = leb lo c && leb c hi

unfoldable pub is_decimal : Option ℕ → Bool
is_decimal none = false
is_decimal (some c) = within b'0' b'9' c

unfoldable pub is_hex : Option ℕ → Bool
is_hex none = false
is_hex (some c) = within b'0' b'9' c || (within b'a' b'f' c || within b'A' b'F' c)

unfoldable pub is_letter : Option ℕ → Bool
is_letter none = false
is_letter (some c) = within b'a' b'z' c || within b'A' b'Z' c

abbrev pub unit_is : ℕ → Option ℕ → Bool
unit_is u none = false
unit_is u (some c) = c == u

unfoldable pub is_number : Option ℕ → Bool
unfolding is_decimal is_hex
is_number ch =
    is_decimal ch || (is_hex ch || (unit_is b'.' ch || (unit_is b'x' ch || unit_is b'X' ch)))

unfoldable pub is_ident : Option ℕ → Bool
unfolding is_letter is_decimal
is_ident ch = is_letter ch || (is_decimal ch || unit_is b'_' ch)

unfoldable pub is_whitespace : Option ℕ → Bool
is_whitespace ch = unit_is 32 ch || (unit_is 9 ch || unit_is 10 ch)

-- `while (test(this.peek())) this.p++;`, for a test that is false at the end of the source.
unfoldable pub skip_while : (Option ℕ → Bool) → ℕ → Text → Scanner
skip_while test p [] = at p []
skip_while test p (c ∷ r) = if test (some c) then skip_while test (p + 1) r else at p (c ∷ r)

-- The loop of a line comment. At the end of the source `peek` stays `""`, which is not a newline.
unfoldable pub skip_line : ℕ → Scanner → Result Scanner
skip_line zero s = out_of_fuel
skip_line (suc f) s =
    let further = skip_line f (advance 1 s) in if unit_is 10 (peek s) then ok s else further

unfoldable pub skip_block : ℕ → Scanner → Result Scanner
skip_block zero s = out_of_fuel
skip_block (suc f) s =
    let further = skip_block f (advance 1 s) in
    if eq_text (take 2 s.rest) (codes "*/") then ok s else further

-- `skipWhitespaceAndComments`
unfoldable pub skip_whitespace_and_comments : ℕ → Scanner → Result Scanner
skip_whitespace_and_comments zero s = out_of_fuel
skip_whitespace_and_comments (suc f) s =
    let spaces = skip_whitespace_and_comments f (skip_while is_whitespace s.p s.rest) in
    let line = skip_line f (advance 2 s) >>= λ t. skip_whitespace_and_comments f t in
    let block = skip_block f (advance 2 s) >>= λ t. skip_whitespace_and_comments f (advance 2 t) in
    if is_whitespace (peek s)
    then spaces
    else if eq_text (take 2 s.rest) (codes "//")
    then line
    else if eq_text (take 2 s.rest) (codes "/*")
    then block
    else ok s

-- A token from `start` to where the scanner now stands, and the scanner.
abbrev pub make_token : ℕ → TokenType → Scanner → Token × Scanner
make_token start type s = (record { type = type; span = record { start = start; end = s.p } }, s)

-- What `slice(start, end)` is, for a scanner that went from `s` to `t`.
abbrev pub slice_between : Scanner → Scanner → Text
slice_between s t = take (t.p - s.p) s.rest

abbrev or_identifier : Option TokenType → TokenType
or_identifier none = identifier
or_identifier (some t) = t

-- `scanIdent`: the first unit may also be `_`.
unfoldable pub scan_ident : Scanner → Result (Token × Scanner)
scan_ident s =
    let t = skip_while is_ident (s.p + 1) (drop 1 s.rest) in
    if is_letter (peek s) || unit_is b'_' (peek s)
    then ok (make_token s.p (or_identifier (select words (slice_between s t))) t)
    else failed s.p (invalid_identifier (peek s))

-- `scanNumber`, with the `mustAdvance` that it begins with.
unfoldable pub scan_number_from : ℕ → Text → Result (Token × Scanner)
scan_number_from p [] = failed p unexpected_end
scan_number_from p (c ∷ r) =
    if is_number (some c) || c == b'-'
    then ok (make_token p number (skip_while is_number (p + 1) r))
    else failed (p + 1) (invalid_number c)

unfoldable pub scan_number : Scanner → Result (Token × Scanner)
unfolding scan_number_from
scan_number s = scan_number_from s.p s.rest

-- The loop of `scanString`: to behind the closing quote. A backslash takes the next unit with it.
unfoldable pub scan_string_body : ℕ → Text → Result Scanner
scan_string_body p [] = failed p unexpected_end
scan_string_body p (c ∷ []) =
    if c == b'"' then ok (at (p + 1) []) else failed (p + 1) unexpected_end
scan_string_body p (c ∷ d ∷ r) =
    let escaped = scan_string_body (p + 2) r in
    let plain = scan_string_body (p + 1) (d ∷ r) in
    if c == b'"' then ok (at (p + 1) (d ∷ r)) else if c == b'\\' then escaped else plain

unfoldable pub scan_string : Scanner → Result (Token × Scanner)
scan_string s =
    if unit_is b'"' (peek s)
    then (scan_string_body (s.p + 1) (drop 1 s.rest) >>= λ t. ok (make_token s.p string t))
    else failed s.p (expected b'"' (peek s))

-- A switch of `scanToken` on the next `n` units: the token of the label that it finds, and what
-- comes behind the switch where it finds none.
abbrev pub accept :
    ℕ → Scanner → Option TokenType → Result (Token × Scanner) → Result (Token × Scanner)
accept n s (some type) behind = ok (make_token s.p type (advance n s))
accept n s none behind = behind

-- `p` is three, two or one unit further where a label fits, and back at the start where none does.
unfoldable pub scan_operator : Scanner → Result (Token × Scanner)
scan_operator s = accept 3 s (select three_units (take 3 s.rest)) (
    accept 2 s (select two_units (take 2 s.rest))
      (accept 1 s (select one_unit (take 1 s.rest)) (failed s.p (unhandled (peek s)))))

abbrev pub some_token : Result (Token × Scanner) → Result (Option Token × Scanner)
some_token r = r >>= λ (tok, t). ok (some tok, t)

-- The test of `scanToken` for a number: a digit, or a sign or a point in front of one.
unfoldable pub starts_number : Scanner → Bool
starts_number s =
    is_decimal (peek s)
    || ((unit_is b'-' (peek s) || unit_is b'.' (peek s)) && is_decimal (first? (drop 1 s.rest)))

-- `scanToken` behind the white space; `none` is the end of the source.
unfoldable pub scan_after_space : Scanner → Result (Option Token × Scanner)
scan_after_space s =
    if is_empty s.rest
    then ok (none, s)
    else if is_letter (peek s)
    then some_token (scan_ident s)
    else if starts_number s
    then some_token (scan_number s)
    else if unit_is b'"' (peek s)
    then some_token (scan_string s)
    else some_token (scan_operator s)

-- `scan`, which runs `scanToken` and adds the position to an error.
unfoldable pub scan : ℕ → Scanner → Result (Option Token × Scanner)
scan f s = skip_whitespace_and_comments f s >>= scan_after_space

abbrev pub some_scanned : Option Token × Scanner → Result (Token × Scanner)
some_scanned (some token, t) = ok (token, t)
some_scanned (none, t) = failed t.p no_token

-- `mustScan`: the message of `no_token` has no position in front of it.
unfoldable pub must_scan : ℕ → Scanner → Result (Token × Scanner)
must_scan f s = scan f s >>= some_scanned
