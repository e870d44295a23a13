-- ===== src/Script/Parser/Total.antt =====
-- Parsers that end on every state with few tokens left, and how they are put together.
use hydrui.Base.{
  ℕ, zero, suc, ◌+◌, ◌≤◌, ◌<◌, ◌≡◌, refl, inl, inr, Bool, true, false, Option, none, some, Text,
  length, arith, Bool-cases,
}
use hydrui.Script.Token.{Token, TokenType, TokenType-eq}
use hydrui.Script.Scanner
use hydrui.Script.Scanner.{Scanner, scan, skip_whitespace_and_comments, scan_after_space}
use hydrui.Script.Scanner.Total.{scan_after_space-ends}
use hydrui.Script.Scanner.Scan.{scan-shorter}
use hydrui.Script.Scanner.Ends.{IsUnclosed, skip_whitespace_and_comments_ends}
use hydrui.Script.Parser.{
  Parser, ParserState, ParseError, Outcome, ok, failed, out_of_fuel, ◌>>=◌, ◌>>◌, pure, throw, when,
  scan_rest, advance, accept, expect, on, then_do, lift, take_token, position, slice, next_position,
  accept_token, expect_token, accepted_span, accepted_text, token_type, type_of, as_if_present,
  unexpected_end, expected_token,
}
use hydrui.Script.Parser.Moves.{
  Moves, stay, next, Moves-trans, Moves-refl, Moves-HasUnclosed, open_here, left, units_left, Ends,
  EndsBelow,
}

-- The parser ends on every state with fewer than `m` units.
pub record IsTotal {ℓ} {A : Type ℓ} (m : ℕ) (p : Parser A) : Type 0 where
  pub ends : (s : ParserState) → left s < m → Ends s (p s)

-- `scan_rest` has the fuel it needs.
pub scan_rest-out_of_fuel : (s : Scanner) → scan_rest s ≡ Scanner.out_of_fuel → IsUnclosed s.rest
unfolding scan
scan_rest-out_of_fuel s h =
    elim (skip_whitespace_and_comments_ends (length s.rest + 1) s (omega arith)) [
      | inr unclosed ↦ unclosed
      | inl (t, ends) ↦ absurd (scan_after_space-ends t (rw ends at h))
    ]

pub units_left-scan :
    (s : Scanner) (ahead : Option Token) (t : Scanner)
    → scan_rest s ≡ Scanner.ok (ahead, t)
    → units_left ahead t < suc (length s.rest)
units_left-scan s none t h = omega arith
units_left-scan s (some token) t h = omega (arith, scan-shorter (length s.rest + 1) s h)

EndsBelow-from {ℓ} :
    {A : Type ℓ} (n m : ℕ) {s t : ParserState} (o : Outcome (A × ParserState))
    → Moves s t
    → m ≤ n
    → EndsBelow m t o
    → EndsBelow n s o
EndsBelow-from n m (ok (a, u)) moves le (moves', lt) = (Moves-trans moves moves', omega arith)
EndsBelow-from n m (failed e) moves le h = tt
EndsBelow-from n m out_of_fuel moves le h = Moves-HasUnclosed moves h

module _ {ℓ κ} {A : Type ℓ} {B : Type κ} where
  then_do-Ends :
      (n : ℕ) (s : ParserState) (o : Outcome (A × ParserState)) (f : A → Parser B)
      → EndsBelow n s o
      → ((a : A) (t : ParserState) → left t < n → Ends t (f a t))
      → EndsBelow n s (then_do o f)
  then_do-Ends n s (ok (a, t)) f (moves, lt) go =
      EndsBelow-from n (suc (left t)) (f a t) moves lt (go a t lt)
  then_do-Ends n s (failed e) f h go = tt
  then_do-Ends n s out_of_fuel f h go = h

  pub bind-Total :
      {m : ℕ} {p : Parser A} {f : A → Parser B}
      → IsTotal m p
      → ((a : A) → IsTotal m (f a))
      → IsTotal m (p >>= f)
  unfolding ◌>>=◌
  bind-Total {p = p} {f = f} hp hf = record {
    ends = λ s h.
        then_do-Ends (suc (left s)) s (p s) f (hp.ends s h) (λ a t lt. (hf a).ends t (omega arith));
  }

  pub then-Total :
      {m : ℕ} {p : Parser A} {q : Parser B} → IsTotal m p → IsTotal m q → IsTotal m (p >> q)
  then-Total {q = q} hp hq = bind-Total {f = λ _. q} hp (λ _. hq)

module _ {ℓ} {A : Type ℓ} where
  pub pure-Total : {m : ℕ} (a : A) → IsTotal m (pure a)
  unfolding pure
  pure-Total a = record { ends = λ s h. (Moves-refl s, omega arith) }

  -- A parser that reads the state.
  read-Total : {m : ℕ} (f : ParserState → A) → IsTotal m (λ s. ok (f s, s))
  read-Total f = record { ends = λ s h. (Moves-refl s, omega arith) }

  pub throw-Total : {m : ℕ} (e : ParseError) → IsTotal m (throw {A = A} e)
  unfolding throw
  throw-Total e = record { ends = λ s h. tt }

  pub when-Total :
      {m : ℕ} (b : Bool) {p q : Parser A} → IsTotal m p → IsTotal m q → IsTotal m (when b p q)
  unfolding when
  when-Total true hp hq = hp
  when-Total false hp hq = hq

  pub IsTotal-le : {m : ℕ} (n : ℕ) {p : Parser A} → n ≤ m → IsTotal m p → IsTotal n p
  IsTotal-le n le hp = record { ends = λ s h. hp.ends s (omega arith) }

  taken-Ends :
      (n : ℕ) (s : ParserState) (o : Outcome (Unit {0} × ParserState)) (p q : Parser A)
      → EndsBelow n s o
      → ((t : ParserState) → left t < n → Ends t (p t))
      → EndsBelow n s (then_do (then_do o (λ _. pure true)) (λ accepted. when accepted p q))
  unfolding pure when
  taken-Ends n s (ok (a, t)) p q (moves, lt) go =
      EndsBelow-from n (suc (left t)) (p t) moves lt (go t lt)
  taken-Ends n s (failed e) p q h go = tt
  taken-Ends n s out_of_fuel p q h go = h

lift-Ends :
    (s : ParserState) (token : Token) (r : Scanner.Result (Option Token × Scanner))
    (end : Option Token → Scanner → ParserState)
    → s.token ≡ some token
    → scan_rest s.scanner ≡ r
    → ((ahead : Option Token) (t : Scanner)
        → ((end ahead t).token ≡ ahead) × ((end ahead t).scanner ≡ t))
    → EndsBelow {A = Unit {0}}
        (suc (length s.scanner.rest))
        s
        (lift r (λ (ahead, t). ok (tt, end ahead t)))
lift-Ends s token (Scanner.ok (ahead, t)) end here read same =
    let (token_same, scanner_same) = same ahead t in
    (
      next token {t = end ahead t} here (rw (token_same, scanner_same) read)
          (Moves-refl (end ahead t)),
      rw (token_same, scanner_same) (units_left-scan s.scanner ahead t read),
    )
lift-Ends s token (Scanner.failed p e) end here read same = tt
lift-Ends s token Scanner.out_of_fuel end here read same =
    open_here (scan_rest-out_of_fuel s.scanner read)

module _ (source : Text) (allow_partial : Bool) where
  take_token-Ends :
      (s : ParserState) (token : Token)
      → s.token ≡ some token
      → EndsBelow (left s) s (take_token source allow_partial token s)
  unfolding advance
  take_token-Ends s token here = rw here (
      lift-Ends (record s { token = some token }) token (scan_rest s.scanner)
        (λ ahead t. record {
          scanner = t;
          token = ahead;
          accepted_span = token.span;
          accepted_text = slice source allow_partial token.span;
          p = next_position ahead token.span.end;
        })
        refl refl (λ ahead t. (refl, refl)))

  as_if_present-Ends :
      (e : ParseError) (s : ParserState) → Ends s (as_if_present source allow_partial e s)
  as_if_present-Ends e s = elim (Bool-cases allow_partial) [
    | inl partial ↦ rw partial (stay refl refl, omega arith)
    | inr partial ↦ rw partial tt
  ]

  expect_token-Ends :
      (type : TokenType) (s : ParserState) (ahead : Option Token)
      → s.token ≡ ahead
      → Ends s (expect_token source allow_partial type ahead s)
  unfolding pure when advance ◌>>=◌
  expect_token-Ends type s none e = as_if_present-Ends unexpected_end s
  expect_token-Ends type s (some token) e = elim (Bool-cases (TokenType-eq token.type type)) [
    | inr e₁ ↦ rw e₁ (as_if_present-Ends (expected_token token.type type s.p) s)
    | inl e₁ ↦ rw e₁ (
        EndsBelow-from (suc (left s)) (left s) _ (Moves-refl s) (omega arith) (
          then_do-Ends (left s) s (take_token source allow_partial token s) (λ _. pure true)
            (take_token-Ends s token e) (λ a t lt. (Moves-refl t, omega arith))))
  ]

  pub expect-Total : {m : ℕ} (type : TokenType) → IsTotal m (expect source allow_partial type)
  unfolding expect
  expect-Total type = record { ends = λ s h. expect_token-Ends type s s.token refl }

  module _ {ℓ} {A : Type ℓ} (m : ℕ) (type : TokenType) {p q : Parser A} where
    on_token-Ends :
        (s : ParserState) (ahead : Option Token)
        → s.token ≡ ahead
        → IsTotal m p
        → IsTotal (suc m) q
        → left s < suc m
        → Ends s (
            then_do
              (accept_token source allow_partial type ahead s)
              (λ accepted. when accepted p q))
    unfolding when ◌>>=◌ advance pure
    on_token-Ends s none e hp hq h = hq.ends s h
    on_token-Ends s (some token) e hp hq h = elim (Bool-cases (TokenType-eq token.type type)) [
      | inr e₁ ↦ rw e₁ (hq.ends s h)
      | inl e₁ ↦ rw e₁ (
          EndsBelow-from (suc (left s)) (left s) _ (Moves-refl s) (omega arith) (
            taken-Ends (left s) s (take_token source allow_partial token s) p q
              (take_token-Ends s token e) (λ t lt. hp.ends t (omega arith))))
    ]

    -- Behind a token that is accepted there is less left.
    pub on-Total :
        IsTotal m p → IsTotal (suc m) q → IsTotal (suc m) (on source allow_partial type p q)
    unfolding accept on ◌>>=◌
    on-Total hp hq = record { ends = λ s h. on_token-Ends s s.token refl hp hq h }

  module _ {ℓ} {A : Type ℓ} where
    pub on_same-Total :
        {m : ℕ} (type : TokenType) {p q : Parser A}
        → IsTotal m p
        → IsTotal m q
        → IsTotal m (on source allow_partial type p q)
    on_same-Total {m = zero} type hp hq = record { ends = λ s h. absurd (omega arith) }
    on_same-Total {m = suc m} type hp hq = on-Total m type (IsTotal-le m (omega arith) hp) hq

pub position-Total : {m : ℕ} → IsTotal m position
unfolding position
position-Total = read-Total (λ s. s.p)

pub accepted_span-Total : {m : ℕ} → IsTotal m accepted_span
unfolding accepted_span
accepted_span-Total = read-Total (λ s. s.accepted_span)

pub accepted_text-Total : {m : ℕ} → IsTotal m accepted_text
unfolding accepted_text
accepted_text-Total = read-Total (λ s. s.accepted_text)

pub token_type-Total : {m : ℕ} → IsTotal m token_type
unfolding token_type
token_type-Total = read-Total (λ s. type_of s.token)

pub ruleset totals = (
  position-Total, accepted_span-Total, accepted_text-Total, token_type-Total, pure-Total,
  throw-Total, expect-Total, when-Total, bind-Total, then-Total, on_same-Total,
)

-- The same, where a token that is accepted makes room for one more level.
pub ruleset totals_below = (
  position-Total, accepted_span-Total, accepted_text-Total, token_type-Total, pure-Total,
  throw-Total, expect-Total, when-Total, bind-Total, then-Total, on-Total,
)
