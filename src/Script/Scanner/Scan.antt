-- ===== src/Script/Scanner/Scan.antt =====
-- `scan` as a whole: white space and comments, then a token.
use mathlib.Core.Path.{subst}
use hydrui.Base.{
  ℕ, ◌+◌, ◌≤◌, ◌<◌, ◌≡◌, refl, ap, ◌∙◌, sym, Option, none, some, [], ◌∷◌, ◌++◌, Text, codes, length,
  arith, eq_text, length-append, append-nil,
}
use hydrui.Script.Token.{Token, TokenType}
use hydrui.Script.Scanner.{
  Scanner, at, ok, out_of_fuel, scan, starts_number, scan_after_space, skip_whitespace_and_comments,
  is_letter, is_decimal, is_whitespace,
}
use hydrui.Script.Scanner.Reads.{>>=-Chain, Reads, Reads-trans}
use hydrui.Script.Scanner.Comments.{NoNewline}
use hydrui.Script.Scanner.Trivia.{
  IsTrivia, StopsAt, skip_whitespace_and_comments-Reads, skip_whitespace_and_comments-append,
  skip_whitespace_and_comments-out_of_fuel,
}
use hydrui.Script.Scanner.Lexeme.{
  IsLexeme, spelling, word, numeral, literal, truth, falsehood, spelled,
}
use hydrui.Script.Scanner.Scanned.{Scanned, scan_after_space-Scanned, scan_after_space-none}
use hydrui.Script.Scanner.Printed.{token_at, scan_after_space-append}

-- A successful scan of a token consumes white space and comments, then a text of the token's type,
-- and the span is where that text stands.
pub scan-Scanned :
    (f : ℕ) (s : Scanner) {token : Token} {t : Scanner}
    → scan f s ≡ ok (some token, t)
    → (trivia : Text) × (u : Scanner) × Reads s trivia u
      × IsTrivia u.rest trivia
      × Scanned u token t
unfolding scan
scan-Scanned f s h =
    let record { value = u; stepped = skipped; went_on = scanned } =
      >>=-Chain scan_after_space (skip_whitespace_and_comments f s) h in
    let (xs, reads, trivia, stop) = skip_whitespace_and_comments-Reads f s skipped in
    (xs, u, reads, trivia, scan_after_space-Scanned u.p u.rest scanned)

all-IsTrivia :
    {s u : Scanner} (xs : Text)
    → Reads s xs u
    → IsTrivia u.rest xs
    → u.rest ≡ []
    → IsTrivia [] s.rest
all-IsTrivia {s} {u} xs reads trivia end =
    let whole : s.rest ≡ xs = reads.text ∙ (ap (xs ++◌) end ∙ append-nil xs) in
    rw whole (rw end at trivia)

-- The end is reported only where nothing but white space and comments is left.
pub scan-none : (f : ℕ) (s : Scanner) {t : Scanner} → scan f s ≡ ok (none, t) → IsTrivia [] s.rest
unfolding scan
scan-none f s h =
    let record { value = u; stepped = skipped; went_on = scanned } =
      >>=-Chain scan_after_space (skip_whitespace_and_comments f s) h in
    let (xs, reads, trivia, stop) = skip_whitespace_and_comments-Reads f s skipped in
    let (end, _) = scan_after_space-none u.p u.rest scanned in all-IsTrivia xs reads trivia end

-- A property of a spelling, where there is one.
abbrev OfSpelling : (Text → Type 0) → Option Text → Type 0
OfSpelling P none = Unit
OfSpelling P (some xs) = P xs

spelling-StopsAt :
    (r : Text) (type : TokenType) → OfSpelling (λ xs. StopsAt (xs ++ 32 ∷ r)) (spelling type)
unfolding spelling is_whitespace eq_text
spelling-StopsAt r TokenType.identifier = tt
spelling-StopsAt r TokenType.number = tt
spelling-StopsAt r TokenType.boolean = tt
spelling-StopsAt r TokenType.string = tt
spelling-StopsAt r _ = record { no_space = refl; no_line = refl; no_block = refl }

IsLexeme-StopsAt : (type : TokenType) (xs r : Text) → IsLexeme type xs → StopsAt (xs ++ 32 ∷ r)
unfolding is_letter is_decimal is_whitespace starts_number eq_text
IsLexeme-StopsAt type xs r (word c ys l passes none_fits) = ground arith
IsLexeme-StopsAt type xs r (numeral c ys n passes) = ground arith
IsLexeme-StopsAt type xs r (literal ys e) = record {
  no_space = refl;
  no_line = refl;
  no_block = refl;
}
IsLexeme-StopsAt type xs r truth = record { no_space = refl; no_line = refl; no_block = refl }
IsLexeme-StopsAt type xs r falsehood = record { no_space = refl; no_line = refl; no_block = refl }
IsLexeme-StopsAt type xs r (spelled ys e) =
    subst (OfSpelling (λ xs. StopsAt (xs ++ 32 ∷ r))) e (spelling-StopsAt r type)

-- White space and comments, a text of a type of token, and a blank: with more fuel than the white
-- space and the comments are long, `scan` gives that token and stops behind it.
pub scan-append :
    (f p : ℕ) (trivia : Text) (type : TokenType) (xs r : Text)
    → IsTrivia (xs ++ 32 ∷ r) trivia
    → IsLexeme type xs
    → length trivia < f
    → scan f (at p (trivia ++ (xs ++ 32 ∷ r)))
      ≡ ok (
        some (token_at type (p + length trivia) (length xs)),
        at (p + length trivia + length xs) (32 ∷ r),
      )
unfolding scan
scan-append f p trivia type xs r t l h =
    rw
      (skip_whitespace_and_comments-append f p trivia (xs ++ 32 ∷ r) t
        (IsLexeme-StopsAt type xs r l) h)
      (scan_after_space-append type xs l (p + length trivia) r)

spelling-pos : (type : TokenType) → OfSpelling (λ xs. 0 < length xs) (spelling type)
unfolding spelling
spelling-pos TokenType.identifier = tt
spelling-pos TokenType.number = tt
spelling-pos TokenType.boolean = tt
spelling-pos TokenType.string = tt
spelling-pos _ = omega arith

pub IsLexeme-pos : (type : TokenType) (xs : Text) → IsLexeme type xs → 0 < length xs
IsLexeme-pos type xs (word c ys l passes none_fits) = omega arith
IsLexeme-pos type xs (numeral c ys n passes) = omega arith
IsLexeme-pos type xs (literal ys e) = omega arith
IsLexeme-pos type xs truth = omega arith
IsLexeme-pos type xs falsehood = omega arith
IsLexeme-pos type xs (spelled ys e) = subst (OfSpelling (λ xs. 0 < length xs)) e (spelling-pos type)

Reads-le :
    {s t : Scanner} (xs : Text)
    → Reads s xs t
    → (s.p + length xs ≡ t.p) × (length s.rest ≡ length xs + length t.rest)
Reads-le {s} {t} xs r = (sym r.position, rw r.text (length-append xs t.rest))

Scanned-lt :
    {s t : Scanner} {a : Token}
    → Scanned s a t
    → (a.span.start ≡ s.p) × (a.span.end ≡ t.p) × (s.p < t.p) × (length t.rest < length s.rest)
Scanned-lt {a = a} c =
    let pos = IsLexeme-pos a.type c.lexeme c.is_lexeme in
    let lengths = Reads-le c.lexeme c.reads in (c.start, c.end, omega arith, omega arith)

-- The spans of two scans in a row: neither is empty, and the second begins where the first ends or
-- later, so what is left to scan falls by at least one unit a token.
pub scan-scan :
    (f : ℕ) (s : Scanner) {a b : Token} {t u : Scanner}
    → scan f s ≡ ok (some a, t)
    → scan f t ≡ ok (some b, u)
    → (a.span.start < a.span.end)
      × (a.span.end ≤ b.span.start)
      × (b.span.start < b.span.end)
      × (length t.rest < length s.rest)
scan-scan f s {a} {b} {t} {u} h k =
    let (xs, v, reads, trivia, scanned) = scan-Scanned f s h in
    let (ys, w, reads', trivia', scanned') = scan-Scanned f t k in
    omega (arith, Reads-le xs reads, Scanned-lt scanned, Reads-le ys reads', Scanned-lt scanned')

-- A source that ends in a line comment is scanned without end, whatever the fuel.
pub scan-out_of_fuel :
    (f p : ℕ) (body : Text) → NoNewline body → scan f (at p (codes "//" ++ body)) ≡ out_of_fuel
unfolding scan
scan-out_of_fuel f p body clean = rw (skip_whitespace_and_comments-out_of_fuel f p body clean) refl

-- What any scan that ends well has consumed; it is not nothing, where there is a token.
pub scan-Reads :
    (f : ℕ) (s : Scanner) (ahead : Option Token) {t : Scanner}
    → scan f s ≡ ok (ahead, t)
    → (xs : Text) × Reads s xs t
unfolding scan
scan-Reads f s (some token) h =
    let (xs, u, reads, trivia, scanned) = scan-Scanned f s h in
    (xs ++ scanned.lexeme, Reads-trans xs scanned.lexeme reads scanned.reads)
scan-Reads f s none h =
    let record { value = u; stepped = skipped; went_on = scanned } =
      >>=-Chain scan_after_space (skip_whitespace_and_comments f s) h in
    let (xs, reads, _, _) = skip_whitespace_and_comments-Reads f s skipped in
    let (_, same) = scan_after_space-none u.p u.rest scanned in (xs, rw same reads)

-- A token is never empty.
pub scan-shorter :
    (f : ℕ) (s : Scanner) {token : Token} {t : Scanner}
    → scan f s ≡ ok (some token, t)
    → length t.rest < length s.rest
scan-shorter f s h =
    let (xs, u, reads, trivia, scanned) = scan-Scanned f s h in
    omega (arith, Reads-le xs reads, Scanned-lt scanned)
