-- ===== src/Script/Scanner/Trivia.antt =====
-- `skipWhitespaceAndComments` against a grammar of white space and comments.
use hydrui.Base.{
  ℕ, zero, suc, ◌+◌, ◌<◌, ◌≡◌, refl, ap, true, false, Option, some, [], ◌∷◌, ◌++◌, Text, codes, All,
  length, first?, take, drop, append_assoc, arith, Bool-cases, inl, inr, eq_text, ◌∙◌, eq_text→eq,
  length-append,
}
use hydrui.Script.Scanner.{
  Scanner, at, advance, peek, skip_line, skip_block, skip_whitespace_and_comments, is_whitespace,
  ok, out_of_fuel, ◌>>=◌,
}
use hydrui.Script.Scanner.Reads.{
  >>=-Chain, Reads, Reads-refl, Reads-trans, Passes, skip_while-Reads, skip_while-append,
}
use hydrui.Script.Scanner.Comments.{
  NoNewline, NoClose, skip_line-Reads, skip_line-append, skip_line-out_of_fuel, skip_block-Reads,
  skip_block-append,
}

-- White space and closed comments in front of `after`: a line comment is closed by a newline, and a
-- block comment by the first `*/`.
pub data IsTrivia (after : Text) : Text → Type 0 where
  none : IsTrivia after []
  space : (c : ℕ) {xs : Text} → Passes is_whitespace c → IsTrivia after xs → IsTrivia after (c ∷ xs)
  line :
      (body xs : Text) {all : Text}
      → NoNewline body
      → first? (xs ++ after) ≡ some 10
      → IsTrivia after xs
      → all ≡ codes "//" ++ (body ++ xs)
      → IsTrivia after all
  block :
      (body xs : Text) {all : Text}
      → NoClose body (codes "*/" ++ (xs ++ after))
      → IsTrivia after xs
      → all ≡ codes "/*" ++ (body ++ (codes "*/" ++ xs))
      → IsTrivia after all

-- `after` begins with neither white space nor a comment.
pub record StopsAt (after : Text) : Type 0 where
  pub no_space : is_whitespace (first? after) ≡ false
  pub no_line : eq_text (take 2 after) (codes "//") ≡ false
  pub no_block : eq_text (take 2 after) (codes "/*") ≡ false

pub spaces-IsTrivia :
    {after : Text} (xs : Text) {ys : Text}
    → All (Passes is_whitespace) xs
    → IsTrivia after ys
    → IsTrivia after (xs ++ ys)
spaces-IsTrivia [] h t = t
spaces-IsTrivia (x ∷ xs) h t = space x h.0 (spaces-IsTrivia xs h.1 t)

-- A text whose first two units are known.
take_two : (r : Text) (a b : ℕ) → take 2 r ≡ a ∷ b ∷ [] → r ≡ a ∷ b ∷ drop 2 r
take_two [] a b e = cc
take_two (x ∷ []) a b e = cc
take_two (x ∷ y ∷ r) a b e = cc

pub advance-Reads :
    (s : Scanner) (a b : ℕ)
    → eq_text (take 2 s.rest) (a ∷ b ∷ []) ≡ true
    → Reads s (a ∷ b ∷ []) (advance 2 s)
advance-Reads s a b e = record { text = take_two s.rest a b (eq_text→eq _ _ e); position = refl }

pub is_whitespace-none : is_whitespace Option.none ≡ false
unfolding is_whitespace
is_whitespace-none = refl

-- What the scanner skips is white space and closed comments, and it stops in front of neither.
pub skip_whitespace_and_comments-Reads :
    (f : ℕ) (s : Scanner) {t : Scanner}
    → skip_whitespace_and_comments f s ≡ ok t
    → (xs : Text) × Reads s xs t × IsTrivia t.rest xs × StopsAt t.rest
unfolding skip_whitespace_and_comments
skip_whitespace_and_comments-Reads zero s h = cc
skip_whitespace_and_comments-Reads (suc f) s {t} h = elim (Bool-cases (is_whitespace (peek s))) [
  | inl e ↦
      let (xs, spaces, white, _) = skip_while-Reads is_whitespace s.p s.rest is_whitespace-none in
      let (ys, more, trivia, stop) = skip_whitespace_and_comments-Reads f _ (rw e at h) in
      (xs ++ ys, Reads-trans xs ys spaces more, spaces-IsTrivia xs white trivia, stop)
  | inr e ↦ elim (Bool-cases (eq_text (take 2 s.rest) (codes "//"))) [
    | inl e₁ ↦
        let record { value = u; stepped = skipped; went_on = next } =
          >>=-Chain _ (skip_line f (advance 2 s)) (rw (e, e₁) at h) in
        let (body, reads, clean, newline) = skip_line-Reads f _ _ skipped in
        let (ys, more, trivia, stop) = skip_whitespace_and_comments-Reads f u next in
        (
          codes "//" ++ (body ++ ys),
          Reads-trans (codes "//") (body ++ ys) (advance-Reads s _ _ e₁)
              (Reads-trans body ys reads more),
          line body ys clean (rw (← more.text) newline) trivia refl,
          stop,
        )
    | inr e₁ ↦ elim (Bool-cases (eq_text (take 2 s.rest) (codes "/*"))) [
      | inl e₂ ↦
          let record { value = u; stepped = skipped; went_on = next } =
            >>=-Chain _ (skip_block f (advance 2 s)) (rw (e, e₁, e₂) at h) in
          let (body, reads, clean, close) = skip_block-Reads f _ _ skipped in
          let closed = advance-Reads u _ _ close in
          let (ys, more, trivia, stop) = skip_whitespace_and_comments-Reads f (advance 2 u) next in
          (
            codes "/*" ++ (body ++ (codes "*/" ++ ys)),
            Reads-trans (codes "/*") (body ++ (codes "*/" ++ ys)) (advance-Reads s _ _ e₂) (
                Reads-trans body (codes "*/" ++ ys) reads
                  (Reads-trans (codes "*/") ys closed more)),
            block body ys (rw (← more.text, ← closed.text) clean) trivia refl,
            stop,
          )
      | inr e₂ ↦
          let here : s ≡ t = cc (rw (e, e₁, e₂) at h) in
          (
            [],
            rw (← here) (Reads-refl s),
            none,
            rw (← here) (record { no_space = e; no_line = e₁; no_block = e₂ }),
          )
    ]
  ]
]

is_whitespace-slash : is_whitespace (some b'/') ≡ false
unfolding is_whitespace
is_whitespace-slash = refl

-- The white space that trivia begins with, and what follows it.
split_spaces :
    {after : Text} (xs : Text)
    → IsTrivia after xs
    → is_whitespace (first? after) ≡ false
    → (ys zs : Text) × (xs ≡ ys ++ zs)
      × All (Passes is_whitespace) ys
      × IsTrivia after zs
      × (is_whitespace (first? (zs ++ after)) ≡ false)
split_spaces xs none h = ([], [], refl, tt, none, h)
split_spaces xs (space c {xs = r} e t) h =
    let (ys, zs, eq, white, t', stop) = split_spaces r t h in
    (c ∷ ys, zs, ap (c ∷◌) eq, (e, white), t', stop)
split_spaces xs (line body r clean newline t e) h =
    ([], xs, refl, tt, line body r clean newline t e, rw e is_whitespace-slash)
split_spaces xs (block body r clean t e) h =
    ([], xs, refl, tt, block body r clean t e, rw e is_whitespace-slash)

-- One round of the loop at a comment.
round-line :
    (f p : ℕ) (r : Text)
    → skip_whitespace_and_comments (suc f) (at p (codes "//" ++ r))
      ≡ (skip_line f (at (p + 2) r) >>= λ t. skip_whitespace_and_comments f t)
unfolding skip_whitespace_and_comments is_whitespace eq_text
round-line f p r = refl

round-block :
    (f p : ℕ) (r : Text)
    → skip_whitespace_and_comments (suc f) (at p (codes "/*" ++ r))
      ≡ (skip_block f (at (p + 2) r) >>= λ t. skip_whitespace_and_comments f (advance 2 t))
unfolding skip_whitespace_and_comments is_whitespace eq_text
round-block f p r = refl

round-spaces :
    (f p c : ℕ) (ys r : Text)
    → Passes is_whitespace c
    → All (Passes is_whitespace) ys
    → is_whitespace (first? r) ≡ false
    → skip_whitespace_and_comments (suc f) (at p (c ∷ (ys ++ r)))
      ≡ skip_whitespace_and_comments f (at (p + length (c ∷ ys)) r)
unfolding skip_whitespace_and_comments
round-spaces f p c ys r e white stop =
    rw (e, skip_while-append is_whitespace p (c ∷ ys) r (e, white) stop)

round_stop :
    (f p : ℕ) (r : Text) → StopsAt r → skip_whitespace_and_comments (suc f) (at p r) ≡ ok (at p r)
unfolding skip_whitespace_and_comments
round_stop f p r s = rw (s.no_space, s.no_line, s.no_block)

ok-at : {p q : ℕ} (r : Text) → p ≡ q → ok (at p r) ≡ ok (at q r)
ok-at r e = ap (λ k. ok (at k r)) e

-- With more fuel than units, trivia is skipped whole.
pub skip_whitespace_and_comments-append :
    (f p : ℕ) (xs after : Text)
    → IsTrivia after xs
    → StopsAt after
    → length xs < f
    → skip_whitespace_and_comments f (at p (xs ++ after)) ≡ ok (at (p + length xs) after)
skip_whitespace_and_comments-append zero p xs after t s h = absurd (omega arith)
skip_whitespace_and_comments-append (suc f) p xs after none s h =
    round_stop f p after s ∙ ok-at after (omega arith)
skip_whitespace_and_comments-append (suc f) p xs after (space c {xs = r} e t) s h =
    let (ys, zs, eq, white, t', stop) = split_spaces r t s.no_space in
    let n : length r ≡ length ys + length zs = rw eq (length-append ys zs) in
    rw (eq, append_assoc ys zs after, round-spaces f p c ys (zs ++ after) e white stop)
      (skip_whitespace_and_comments-append f (p + length (c ∷ ys)) zs after t' s (omega arith)
        ∙ ok-at after (omega (arith, length-append {0} ys zs)))
skip_whitespace_and_comments-append (suc f) p xs after (line body r clean newline t e) s h =
    let n : length xs ≡ suc (suc (length body + length r)) =
      rw e (omega (arith, length-append {0} body r)) in
    rw
      (
        e,
        append_assoc body r after,
        round-line f p (body ++ (r ++ after)),
        skip_line-append f (p + 2) body (r ++ after) clean newline (omega arith),
      )
      (skip_whitespace_and_comments-append f (p + 2 + length body) r after t s (omega arith)
        ∙ ok-at after (omega (arith, length-append {0} body r)))
skip_whitespace_and_comments-append (suc f) p xs after (block body r clean t e) s h =
    let close = codes "*/" ++ r in
    let n : length xs ≡ length body + length r + 4 =
      rw e (omega (arith, length-append {0} body close)) in
    rw
      (
        e,
        append_assoc body close after,
        round-block f p (body ++ (close ++ after)),
        skip_block-append f (p + 2) body (r ++ after) clean (omega arith),
      )
      (skip_whitespace_and_comments-append f (p + 2 + length body + 2) r after t s (omega arith)
        ∙ ok-at after (omega (arith, length-append {0} body close)))

-- A line comment that the source ends in is never left: `while (this.peek() !== "\n")` runs on
-- behind the end of the source.
pub skip_whitespace_and_comments-out_of_fuel :
    (f p : ℕ) (body : Text)
    → NoNewline body
    → skip_whitespace_and_comments f (at p (codes "//" ++ body)) ≡ out_of_fuel
unfolding skip_whitespace_and_comments
skip_whitespace_and_comments-out_of_fuel zero p body clean = refl
skip_whitespace_and_comments-out_of_fuel (suc f) p body clean =
    rw (round-line f p body, skip_line-out_of_fuel f (p + 2) body clean) refl
