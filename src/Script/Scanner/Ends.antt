-- ===== src/Script/Scanner/Ends.antt =====
-- Where the loops of `skipWhitespaceAndComments` end.
use hydrui.Base.{
  ℕ, zero, suc, ◌+◌, ◌≤◌, ◌<◌, ◌≡◌, ◌⊎◌, inl, inr, refl, ap, sym, true, [], ◌∷◌, ◌++◌, Text, codes,
  length, first?, take, arith, Bool-cases, eq_text, ◌==◌, length-append, append-nil,
}
use hydrui.Script.Scanner.{
  Scanner, at, advance, peek, ok, skip_line, skip_block, skip_while, skip_whitespace_and_comments,
  is_whitespace,
}
use hydrui.Script.Scanner.Reads.{Reads, Reads-trans, skip_while-Reads}
use hydrui.Script.Scanner.Comments.{NoNewline, NoClose, skip_line-Reads, skip_block-Reads}
use hydrui.Script.Scanner.Trivia.{
  IsTrivia, none, line, block, spaces-IsTrivia, advance-Reads, is_whitespace-none,
}

-- A comment that is never closed begins behind white space and closed comments.
pub data IsUnclosed : Text → Type 0 where
  open_line :
      (body : Text) {all : Text} → NoNewline body → all ≡ codes "//" ++ body → IsUnclosed all
  open_block :
      (body : Text) {all : Text} → NoClose body [] → all ≡ codes "/*" ++ body → IsUnclosed all
  behind :
      (xs after : Text) {all : Text}
      → IsTrivia after xs
      → IsUnclosed after
      → all ≡ xs ++ after
      → IsUnclosed all

skip_line_ends :
    (f p : ℕ) (r : Text)
    → length r < f
    → ((t : Scanner) × (skip_line f (at p r) ≡ ok t)) ⊎ NoNewline r
unfolding skip_line
skip_line_ends zero p r h = absurd (omega arith)
skip_line_ends (suc f) p [] h = inr tt
skip_line_ends (suc f) p (c ∷ r) h = elim (Bool-cases (c == 10)) [
  | inl e ↦ inl (at p (c ∷ r), rw e)
  | inr e ↦ elim (skip_line_ends f (p + 1) r (omega arith)) [
    | inl (t, ends) ↦ inl (t, rw e ends)
    | inr clean ↦ inr (e, clean)
  ]
]

skip_block_ends :
    (f p : ℕ) (r : Text)
    → length r < f
    → ((t : Scanner) × (skip_block f (at p r) ≡ ok t)) ⊎ NoClose r []
unfolding skip_block
skip_block_ends zero p r h = absurd (omega arith)
skip_block_ends (suc f) p [] h = inr tt
skip_block_ends (suc f) p (c ∷ r) h = elim (Bool-cases (eq_text (take 2 (c ∷ r)) (codes "*/"))) [
  | inl e ↦ inl (at p (c ∷ r), rw e)
  | inr e ↦ elim (skip_block_ends f (p + 1) r (omega arith)) [
    | inl (t, ends) ↦ inl (t, rw e ends)
    | inr clean ↦ inr (rw append-nil e, clean)
  ]
]

length-Reads :
    {s t : Scanner} (xs : Text) → Reads s xs t → length s.rest ≡ length xs + length t.rest
length-Reads {s} {t} xs r = rw r.text (length-append xs t.rest)

skip_while-shorter :
    (p : ℕ) (r : Text)
    → is_whitespace (first? r) ≡ true
    → length (skip_while is_whitespace p r).rest < length r
unfolding skip_while
skip_while-shorter p [] e = cc is_whitespace-none
skip_while-shorter p (c ∷ r) e =
    let (xs, reads, _, _) = skip_while-Reads is_whitespace (p + 1) r is_whitespace-none in
    rw e (omega (arith, length-Reads xs reads))

-- A closed comment is trivia.
closed_line :
    (f : ℕ) (s : Scanner) {u : Scanner}
    → eq_text (take 2 s.rest) (codes "//") ≡ true
    → skip_line f (advance 2 s) ≡ ok u
    → (xs : Text) × Reads s xs u × IsTrivia u.rest xs × (2 ≤ length xs)
closed_line f s e skipped =
    let (body, reads, clean, newline) = skip_line-Reads f _ _ skipped in
    (
      codes "//" ++ body,
      Reads-trans (codes "//") body (advance-Reads s _ _ e) reads,
      line body [] clean newline none (ap (λ x. codes "//" ++ x) (sym (append-nil body))),
      omega arith,
    )

closed_block :
    (f : ℕ) (s : Scanner) {u : Scanner}
    → eq_text (take 2 s.rest) (codes "/*") ≡ true
    → skip_block f (advance 2 s) ≡ ok u
    → (xs : Text) × Reads s xs (advance 2 u) × IsTrivia (advance 2 u).rest xs × (2 ≤ length xs)
closed_block f s {u} e skipped =
    let (body, reads, clean, close) = skip_block-Reads f _ _ skipped in
    let closed = advance-Reads u _ _ close in
    (
      codes "/*" ++ (body ++ codes "*/"),
      Reads-trans (codes "/*") (body ++ codes "*/") (advance-Reads s _ _ e)
          (Reads-trans body (codes "*/") reads closed),
      block body [] (rw (← closed.text) clean) none refl,
      omega arith,
    )

-- With more fuel than units, the loop ends, unless a comment that is never closed begins behind white
-- space and closed comments.
pub skip_whitespace_and_comments_ends :
    (f : ℕ) (s : Scanner)
    → length s.rest < f
    → ((t : Scanner) × (skip_whitespace_and_comments f s ≡ ok t)) ⊎ IsUnclosed s.rest
unfolding skip_whitespace_and_comments
skip_whitespace_and_comments_ends zero s h = absurd (omega arith)
skip_whitespace_and_comments_ends (suc f) s h = elim (Bool-cases (is_whitespace (peek s))) [
  | inl e ↦
      let u = skip_while is_whitespace s.p s.rest in
      let (xs, spaces, white, _) = skip_while-Reads is_whitespace s.p s.rest is_whitespace-none in
      elim (skip_whitespace_and_comments_ends f u
        (omega (arith, skip_while-shorter s.p s.rest e))) [
          | inl (t, ends) ↦ inl (t, rw e ends)
          | inr open_comment ↦ inr (
              behind xs u.rest (rw append-nil at (spaces-IsTrivia {after = u.rest} xs white none))
                open_comment spaces.text)
        ]
  | inr e ↦ elim (Bool-cases (eq_text (take 2 s.rest) (codes "//"))) [
    | inl e₁ ↦
        let two = advance-Reads s _ _ e₁ in
        elim (skip_line_ends f (s.p + 2) (advance 2 s).rest
          (omega (arith, length-Reads (codes "//") two))) [
            | inr clean ↦ inr (open_line (advance 2 s).rest clean two.text)
            | inl (u, skipped) ↦
                let (xs, reads, trivia, long) = closed_line f s e₁ skipped in
                elim (skip_whitespace_and_comments_ends f u
                  (omega (arith, length-Reads xs reads))) [
                    | inl (t, ends) ↦ inl (t, rw (e, e₁, skipped) ends)
                    | inr open_comment ↦ inr (behind xs u.rest trivia open_comment reads.text)
                  ]
          ]
    | inr e₁ ↦ elim (Bool-cases (eq_text (take 2 s.rest) (codes "/*"))) [
      | inl e₂ ↦
          let two = advance-Reads s _ _ e₂ in
          elim (skip_block_ends f (s.p + 2) (advance 2 s).rest
            (omega (arith, length-Reads (codes "/*") two))) [
              | inr clean ↦ inr (open_block (advance 2 s).rest clean two.text)
              | inl (u, skipped) ↦
                  let (xs, reads, trivia, long) = closed_block f s e₂ skipped in
                  elim (skip_whitespace_and_comments_ends f (advance 2 u)
                    (omega (arith, length-Reads xs reads))) [
                      | inl (t, ends) ↦ inl (t, rw (e, e₁, e₂, skipped) ends)
                      | inr open_comment ↦
                          inr (behind xs (advance 2 u).rest trivia open_comment reads.text)
                    ]
            ]
      | inr e₂ ↦ inl (s, rw (e, e₁, e₂))
    ]
  ]
]
