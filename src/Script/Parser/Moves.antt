-- ===== src/Script/Parser/Moves.antt =====
-- How a parser moves over the tokens, and parsers that end on every state with few tokens left.
use hydrui.Base.{ℕ, suc, ◌<◌, ◌≡◌, refl, sym, subst, ap, ◌∙◌, Option, none, some, length}
use hydrui.Script.Token.{Token}
use hydrui.Script.Scanner
use hydrui.Script.Scanner.{Scanner, skip_whitespace_and_comments, scan_after_space, scan, ◌>>=◌}
use hydrui.Script.Scanner.Ends.{IsUnclosed}
use hydrui.Script.Parser.{ParserState, Outcome, ok, failed, out_of_fuel, scan_rest}

-- From a state to one whose token is the same, or is what `scan` gives a number of times further on.
pub data Moves : ParserState → ParserState → Type 0 where
  stay : {s t : ParserState} → s.scanner ≡ t.scanner → s.token ≡ t.token → Moves s t
  next :
      {s u : ParserState} (token : Token) {t : ParserState}
      → s.token ≡ some token
      → scan_rest s.scanner ≡ Scanner.ok (t.token, t.scanner)
      → Moves t u
      → Moves s u

-- Scanning on from here, token by token, comes to a comment that is never closed. The scans are those of `scan`, so
-- what stands in a string or in a closed comment is no such comment, and at the end there is none.
pub data HasUnclosed : Scanner → Type 0 where
  open_here : {s : Scanner} → IsUnclosed s.rest → HasUnclosed s
  behind_token :
      {s t : Scanner} (ahead : Option Token)
      → scan_rest s ≡ Scanner.ok (ahead, t)
      → HasUnclosed t
      → HasUnclosed s

pub Moves-trans : {s t u : ParserState} → Moves s t → Moves t u → Moves s u
Moves-trans (stay a b) (stay c d) = stay (a ∙ c) (b ∙ d)
Moves-trans (stay a b) (next token {t = v} here read rest) =
    next token {t = v} (b ∙ here) (ap scan_rest a ∙ read) rest
Moves-trans (next token {t = v} here read rest) m =
    next token {t = v} here read (Moves-trans rest m)

pub Moves-refl : (s : ParserState) → Moves s s
Moves-refl s = stay refl refl

-- What is not closed further on is not closed here.
pub Moves-HasUnclosed :
    {s t : ParserState} → Moves s t → HasUnclosed t.scanner → HasUnclosed s.scanner
Moves-HasUnclosed (stay e _) h = subst HasUnclosed (sym e) h
Moves-HasUnclosed (next token {t = v} here read rest) h =
    behind_token v.token read (Moves-HasUnclosed rest h)

-- The units in front of a parser; none where there is no token.
abbrev pub units_left : Option Token → Scanner → ℕ
units_left none s = 0
units_left (some token) s = suc (length s.rest)

abbrev pub left : ParserState → ℕ
left s = units_left s.token s.scanner

-- What an outcome is to be, from the state `s`: a move to fewer than `n` units, an error, or no end
-- where a comment has none.
abbrev pub EndsBelow {ℓ} : {A : Type ℓ} → ℕ → ParserState → Outcome (A × ParserState) → Type 0
EndsBelow n s (ok (a, t)) = Moves s t × (left t < n)
EndsBelow n s (failed e) = Unit
EndsBelow n s out_of_fuel = HasUnclosed s.scanner

abbrev pub Ends {ℓ} : {A : Type ℓ} → ParserState → Outcome (A × ParserState) → Type 0
Ends s o = EndsBelow (suc (left s)) s o
