-- ===== src/Script/Scanner/Scanned.antt =====
-- Soundness of `scanToken`: each token is in front of the scanner, and its text is one of its type.
use mathlib.Core.Path.{subst}
use hydrui.Base.{
  ◌≢◌, ℕ, ◌+◌, ◌-◌, ◌≡◌, inl, inr, refl, sym, ap, true, false, ◌||◌, none, some, [], ◌∷◌, ◌++◌,
  Text, codes, All, length, first?, take, arith, Bool-cases, Option-cases, ◌==◌, ==_iff,
  take-length-append, take-append-drop,
}
use hydrui.Script.Token.{
  Token, TokenType, Switch, select, words, three_units, two_units, one_unit, identifier, number,
  string,
}
use hydrui.Script.Scanner.{
  Scanner, at, advance, Result, ok, failed, make_token, some_token, is_letter, is_decimal, is_ident,
  is_hex, is_number, scan_ident, scan_number, scan_string_body, scan_string, scan_operator,
  scan_after_space, starts_number,
}
use hydrui.Script.Scanner.Reads.{>>=-Chain, Reads, Reads-cons, skip_while-Reads}
use hydrui.Script.Scanner.Lexeme.{
  IsLexeme, IsEscaped, word, numeral, literal, done, plain, escape, select-All, AreSpelled,
  three_units-AreSpelled, two_units-AreSpelled, one_unit-AreSpelled, AreSpelled-AreLexemes,
  words-AreLexemes,
}

-- What a scan function that hands out `token` has done.
pub record Scanned (s : Scanner) (token : Token) (t : Scanner) : Type 0 where
  pub lexeme : Text
  pub reads : Reads s lexeme t
  pub is_lexeme : IsLexeme token.type lexeme
  pub start : token.span.start ≡ s.p
  pub end : token.span.end ≡ t.p

pub slice-Reads : {s t : Scanner} (xs : Text) → Reads s xs t → take (t.p - s.p) s.rest ≡ xs
slice-Reads {s} {t} xs r =
    let n : t.p - s.p ≡ length xs = omega (arith, r.position) in
    rw (n, r.text) (take-length-append xs t.rest)

make_token-Scanned :
    {s t t' : Scanner} {token : Token} (type : TokenType) (xs : Text)
    → Reads s xs t
    → IsLexeme type xs
    → ok (make_token s.p type t) ≡ ok (token, t')
    → Scanned s token t'
make_token-Scanned {s} {t} {t'} {token} type xs r l h =
    let made : ◌≡◌ {A = Token × Scanner} (make_token s.p type t) (token, t') = cc h in
    subst (λ (q : Token × Scanner). Scanned s q.0 q.1) made
      (record { lexeme = xs; reads = r; is_lexeme = l; start = refl; end = refl })

select-words : (xs : Text) {type : TokenType} → select words xs ≡ some type → IsLexeme type xs
select-words xs = select-All IsLexeme words xs words-AreLexemes

is_ident-none : is_ident none ≡ false
unfolding is_ident is_letter is_decimal
is_ident-none = refl

is_letter-none : is_letter none ≡ false
unfolding is_letter
is_letter-none = refl

is_number-none : is_number none ≡ false
unfolding is_number is_decimal is_hex
is_number-none = refl

scan_ident-Scanned :
    (p : ℕ) (r : Text) {token : Token} {t : Scanner}
    → is_letter (first? r) ≡ true
    → scan_ident (at p r) ≡ ok (token, t)
    → Scanned (at p r) token t
unfolding scan_ident
scan_ident-Scanned p [] l h = cc (rw is_letter-none at l)
scan_ident-Scanned p (c ∷ r) l h =
    let (xs, reads, passes, _) = skip_while-Reads is_ident (p + 1) r is_ident-none in
    let all = Reads-cons p c r reads in
    let h' = rw (l, slice-Reads (c ∷ xs) all) at h in
    elim (Option-cases (select words (c ∷ xs))) [
      | inl w ↦ make_token-Scanned identifier (c ∷ xs) all (word c xs l passes w) (rw w at h')
      | inr (type, w) ↦ make_token-Scanned type (c ∷ xs) all (select-words (c ∷ xs) w) (rw w at h')
    ]

-- What starts a number is decided within the number.
starts_number-append :
    (p c : ℕ) (xs r : Text)
    → is_number (first? r) ≡ false
    → starts_number (at p (c ∷ (xs ++ r))) ≡ true
    → starts_number (at 0 (c ∷ xs)) ≡ true
unfolding starts_number is_number
starts_number-append p c [] [] e h = h
starts_number-append p c [] (d ∷ r) e h = ground arith
starts_number-append p c (x ∷ xs) r e h = h

starts_number-first :
    (p c : ℕ) (r : Text)
    → starts_number (at p (c ∷ r)) ≡ true
    → is_number (some c) || c == b'-' ≡ true
unfolding starts_number is_number is_decimal
starts_number-first p c r h = ground arith

scan_number-Scanned :
    (p : ℕ) (r : Text) {token : Token} {t : Scanner}
    → starts_number (at p r) ≡ true
    → scan_number (at p r) ≡ ok (token, t)
    → Scanned (at p r) token t
unfolding scan_number
scan_number-Scanned p [] n h = cc
scan_number-Scanned p (c ∷ r) n h =
    let (xs, reads, passes, stop) = skip_while-Reads is_number (p + 1) r is_number-none in
    make_token-Scanned number (c ∷ xs) (Reads-cons p c r reads)
      (numeral c xs (starts_number-append p c xs _ stop (rw (← reads.text) n)) passes)
      (rw (starts_number-first p c r n) at h)

abbrev HaveLength : ℕ → Switch → Type 0
HaveLength n = All (λ (e : Text × TokenType). length e.0 ≡ n)

-- A label of `n` units, found in front of the scanner, is what `advance n` consumes.
operator-Scanned :
    (n : ℕ) (s : Scanner) (sw : Switch) (type : TokenType) {token : Token} {t : Scanner}
    → AreSpelled sw
    → select sw (take n s.rest) ≡ some type
    → HaveLength n sw
    → ok (make_token s.p type (advance n s)) ≡ ok (token, t)
    → Scanned s token t
operator-Scanned n s sw type spelled_sw e l h =
    make_token-Scanned type (take n s.rest)
      (record {
        text = sym (take-append-drop n s.rest);
        position = omega (arith, select-All (λ _ x. length x ≡ n) sw _ l e);
      })
      (select-All IsLexeme sw (take n s.rest) (AreSpelled-AreLexemes sw spelled_sw) e) h

scan_operator-Scanned :
    (s : Scanner) {token : Token} {t : Scanner}
    → scan_operator s ≡ ok (token, t)
    → Scanned s token t
unfolding scan_operator
scan_operator-Scanned s h = elim (Option-cases (select three_units (take 3 s.rest))) [
  | inr (type, e) ↦
      operator-Scanned 3 s three_units type three_units-AreSpelled e (omega arith) (rw e at h)
  | inl e ↦ elim (Option-cases (select two_units (take 2 s.rest))) [
    | inr (type, e₁) ↦
        operator-Scanned 2 s two_units type two_units-AreSpelled e₁ (omega arith) (rw (e, e₁) at h)
    | inl e₁ ↦ elim (Option-cases (select one_unit (take 1 s.rest))) [
      | inr (type, e₂) ↦
          operator-Scanned 1 s one_unit type one_unit-AreSpelled e₂ (omega arith)
            (rw (e, e₁, e₂) at h)
      | inl e₂ ↦ cc (rw (e, e₁, e₂) at h)
    ]
  ]
]

closing :
    (p c : ℕ) (r : Text) {t : Scanner}
    → (c == b'"') ≡ true
    → at (p + 1) r ≡ t
    → Reads (at p (c ∷ r)) (codes "\"") t
closing p c r e h = rw (← h, (==_iff c _).0 e) (record { text = refl; position = refl })

opening :
    (p c : ℕ) (r : Text) {xs : Text} {t : Scanner}
    → (c == b'"') ≡ true
    → Reads (at (p + 1) r) xs t
    → Reads (at p (c ∷ r)) (b'"' ∷ xs) t
opening p c r e reads = record {
  text = cc ((==_iff c b'"').0 e, reads.text);
  position = omega (arith, reads.position);
}

-- The loop of a string consumes an escaped text and the closing quote.
scan_string_body-Reads :
    (p : ℕ) (r : Text) {t : Scanner}
    → scan_string_body p r ≡ ok t
    → (xs : Text) × Reads (at p r) (xs ++ codes "\"") t × IsEscaped xs
unfolding scan_string_body
scan_string_body-Reads p [] h = cc
scan_string_body-Reads p (c ∷ []) {t} h = elim (Bool-cases (c == b'"')) [
  | inr e ↦ cc (rw e at h)
  | inl e ↦ ([], closing p c [] e (cc (rw e at h)), done)
]
scan_string_body-Reads p (c ∷ d ∷ r) {t} h = elim (Bool-cases (c == b'"')) [
  | inl e ↦ ([], closing p c (d ∷ r) e (cc (rw e at h)), done)
  | inr e ↦ elim (Bool-cases (c == b'\\')) [
    | inl b ↦
        let (xs, reads, escaped) = scan_string_body-Reads (p + 2) r (rw (e, b) at h) in
        (
          c ∷ d ∷ xs,
          record {
            text = ap (λ x. c ∷ d ∷ x) reads.text;
            position = omega (arith, reads.position);
          },
          rw ((==_iff c _).0 b) (escape d escaped),
        )
    | inr b ↦
        let (xs, reads, escaped) = scan_string_body-Reads (p + 1) (d ∷ r) (rw (e, b) at h) in
        (c ∷ xs, Reads-cons p c (d ∷ r) reads, plain c e b escaped)
  ]
]

scan_string-Scanned :
    (p : ℕ) (r : Text) {token : Token} {t : Scanner}
    → scan_string (at p r) ≡ ok (token, t)
    → Scanned (at p r) token t
unfolding scan_string
scan_string-Scanned p [] h = cc
scan_string-Scanned p (c ∷ r) h = elim (Bool-cases (c == b'"')) [
  | inr e ↦ cc (rw e at h)
  | inl e ↦
      let record { value = u; stepped = body; went_on = made } =
        >>=-Chain _ (scan_string_body (p + 1) r) (rw e at h) in
      let (xs, reads, escaped) = scan_string_body-Reads (p + 1) r body in
      make_token-Scanned string (b'"' ∷ (xs ++ codes "\"")) (opening p c r e reads)
        (literal xs escaped) made
]

some_token-eq-ok :
    (m : Result (Token × Scanner)) {token : Token} {t : Scanner}
    → some_token m ≡ ok (some token, t)
    → m ≡ ok (token, t)
some_token-eq-ok (ok a) h = cc
some_token-eq-ok (failed p e) h = cc
some_token-eq-ok Result.out_of_fuel h = cc

some_token-ne-none : (m : Result (Token × Scanner)) {t : Scanner} → some_token m ≢ ok (none, t)
some_token-ne-none (ok a) h = cc
some_token-ne-none (failed p e) h = cc
some_token-ne-none Result.out_of_fuel h = cc

-- Behind white space and comments: what is handed out stands in front of the scanner.
pub scan_after_space-Scanned :
    (p : ℕ) (r : Text) {token : Token} {t : Scanner}
    → scan_after_space (at p r) ≡ ok (some token, t)
    → Scanned (at p r) token t
unfolding scan_after_space
scan_after_space-Scanned p [] h = cc
scan_after_space-Scanned p (c ∷ r) h = elim (Bool-cases (is_letter (some c))) [
  | inl e ↦ scan_ident-Scanned p (c ∷ r) e (some_token-eq-ok _ (rw e at h))
  | inr e ↦ elim (Bool-cases (starts_number (at p (c ∷ r)))) [
    | inl e₁ ↦ scan_number-Scanned p (c ∷ r) e₁ (some_token-eq-ok _ (rw (e, e₁) at h))
    | inr e₁ ↦ elim (Bool-cases (c == b'"')) [
      | inl e₂ ↦ scan_string-Scanned p (c ∷ r) (some_token-eq-ok _ (rw (e, e₁, e₂) at h))
      | inr e₂ ↦ scan_operator-Scanned (at p (c ∷ r)) (some_token-eq-ok _ (rw (e, e₁, e₂) at h))
    ]
  ]
]

-- The end of the source is reported only there.
pub scan_after_space-none :
    (p : ℕ) (r : Text) {t : Scanner}
    → scan_after_space (at p r) ≡ ok (none, t)
    → (r ≡ []) × (t ≡ at p r)
unfolding scan_after_space
scan_after_space-none p [] h = (refl, cc)
scan_after_space-none p (c ∷ r) {t} h = absurd (elim (Bool-cases (is_letter (some c))) [
  | inl e ↦ some_token-ne-none _ (rw e at h)
  | inr e ↦ elim (Bool-cases (starts_number (at p (c ∷ r)))) [
    | inl e₁ ↦ some_token-ne-none _ (rw (e, e₁) at h)
    | inr e₁ ↦ elim (Bool-cases (c == b'"')) [
      | inl e₂ ↦ some_token-ne-none _ (rw (e, e₁, e₂) at h)
      | inr e₂ ↦ some_token-ne-none _ (rw (e, e₁, e₂) at h)
    ]
  ]
])
