-- ===== src/Script/Scanner/Comments.antt =====
-- The two loops of `skipWhitespaceAndComments` that skip a comment.
use hydrui.Base.{
  ℕ, zero, suc, ◌+◌, ◌<◌, ◌≡◌, refl, ap, true, false, some, [], ◌∷◌, ◌++◌, Text, codes, All, length,
  first?, take, arith, Bool-cases, inl, inr, ◌==◌, eq_text, eq_text_refl, ==_iff, append-nil,
}
use hydrui.Script.Scanner.{Scanner, at, peek, skip_line, skip_block, ok, out_of_fuel}
use hydrui.Script.Scanner.Reads.{Reads, Reads-refl, Reads-cons}

-- A text without a newline.
abbrev pub NoNewline : Text → Type 0
NoNewline = All (λ c. (c == 10) ≡ false)

-- A text in which no close of a block comment begins, followed by `after`.
abbrev pub NoClose : Text → Text → Type 0
NoClose [] after = Unit
NoClose (c ∷ xs) after =
    (eq_text (take 2 (c ∷ (xs ++ after))) (codes "*/") ≡ false) × NoClose xs after

-- Without a newline the loop never ends.
pub skip_line-out_of_fuel :
    (f p : ℕ) (xs : Text) → NoNewline xs → skip_line f (at p xs) ≡ out_of_fuel
unfolding skip_line
skip_line-out_of_fuel zero p xs n = refl
skip_line-out_of_fuel (suc f) p [] n = skip_line-out_of_fuel f (p + 1) [] n
skip_line-out_of_fuel (suc f) p (x ∷ xs) n = rw n.0 (skip_line-out_of_fuel f (p + 1) xs n.1)

pub skip_line-append :
    (f p : ℕ) (xs r : Text)
    → NoNewline xs
    → first? r ≡ some 10
    → length xs < f
    → skip_line f (at p (xs ++ r)) ≡ ok (at (p + length xs) r)
unfolding skip_line
skip_line-append zero p xs r n e h = absurd (omega arith)
skip_line-append (suc f) p [] [] n e h = cc
skip_line-append (suc f) p [] (c ∷ r) n e h =
    rw ((==_iff c 10).1 (cc)) (ap (λ k. ok (at k (c ∷ r))) (omega arith))
skip_line-append (suc f) p (x ∷ xs) r n e h =
    rw (n.0, skip_line-append f (p + 1) xs r n.1 e (omega arith))
      (ap (λ k. ok (at k r)) (omega arith))

-- The empty string is no close of a comment.
eq_text-nil : eq_text [] (codes "*/") ≡ false
unfolding eq_text
eq_text-nil = refl

-- The loop of a line comment stops in front of the first newline.
pub skip_line-Reads :
    (f p : ℕ) (r : Text) {t : Scanner}
    → skip_line f (at p r) ≡ ok t
    → (xs : Text) × Reads (at p r) xs t × NoNewline xs × (peek t ≡ some 10)
unfolding skip_line
skip_line-Reads zero p r h = cc
skip_line-Reads (suc f) p [] h = cc (skip_line-out_of_fuel f (p + 1) [] tt)
skip_line-Reads (suc f) p (c ∷ r) {t} h = elim (Bool-cases (c == 10)) [
  | inl e ↦
      let here : at p (c ∷ r) ≡ t = cc (rw e at h) in
      ([], rw (← here) (Reads-refl (at p (c ∷ r))), tt, rw (← here) (ap some ((==_iff c 10).0 e)))
  | inr e ↦
      let (xs, reads, none, stop) = skip_line-Reads f (p + 1) r (rw e at h) in
      (c ∷ xs, Reads-cons p c r reads, (e, none), stop)
]

pub skip_block-append :
    (f p : ℕ) (xs r : Text)
    → NoClose xs (codes "*/" ++ r)
    → length xs < f
    → skip_block f (at p (xs ++ (codes "*/" ++ r))) ≡ ok (at (p + length xs) (codes "*/" ++ r))
unfolding skip_block
skip_block-append zero p xs r n h = absurd (omega arith)
skip_block-append (suc f) p [] r n h =
    rw (eq_text_refl (codes "*/")) (ap (λ k. ok (at k (codes "*/" ++ r))) (omega arith))
skip_block-append (suc f) p (x ∷ xs) r n h =
    rw (n.0, skip_block-append f (p + 1) xs r n.1 (omega arith))
      (ap (λ k. ok (at k (codes "*/" ++ r))) (omega arith))

pub skip_block-out_of_fuel :
    (f p : ℕ) (xs : Text) → NoClose xs [] → skip_block f (at p xs) ≡ out_of_fuel
unfolding skip_block
skip_block-out_of_fuel zero p xs n = refl
skip_block-out_of_fuel (suc f) p [] n = rw eq_text-nil (skip_block-out_of_fuel f (p + 1) [] tt)
skip_block-out_of_fuel (suc f) p (x ∷ xs) n =
    rw (rw append-nil at n.0) (skip_block-out_of_fuel f (p + 1) xs n.1)

-- The loop of a block comment stops at the first close.
pub skip_block-Reads :
    (f p : ℕ) (r : Text) {t : Scanner}
    → skip_block f (at p r) ≡ ok t
    → (xs : Text) × Reads (at p r) xs t
      × NoClose xs t.rest
      × (eq_text (take 2 t.rest) (codes "*/") ≡ true)
unfolding skip_block
skip_block-Reads zero p r h = cc
skip_block-Reads (suc f) p [] h = cc (skip_block-out_of_fuel (suc f) p [] tt)
skip_block-Reads (suc f) p (c ∷ r) {t} h =
    elim (Bool-cases (eq_text (take 2 (c ∷ r)) (codes "*/"))) [
      | inl e ↦
          let here : at p (c ∷ r) ≡ t = cc (rw e at h) in
          ([], rw (← here) (Reads-refl (at p (c ∷ r))), tt, rw (← here) e)
      | inr e ↦
          let (xs, reads, none, stop) = skip_block-Reads f (p + 1) r (rw e at h) in
          (c ∷ xs, Reads-cons p c r reads, (rw (← reads.text) e, none), stop)
    ]
