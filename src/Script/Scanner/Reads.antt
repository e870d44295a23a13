-- ===== src/Script/Scanner/Reads.antt =====
-- What a step of the scanner consumes, and the loops that consume a run of units.
use hydrui.Base.{
  ℕ, ◌+◌, ◌≡◌, refl, ap, Bool, true, false, Option, none, some, [], ◌∷◌, ◌++◌, Text, All, length,
  first?, append_assoc, length-append, arith, Bool-cases, inl, inr,
}
use hydrui.Script.Scanner.{Result, ok, failed, out_of_fuel, ◌>>=◌, Scanner, at, peek, skip_while}

-- A chain of two steps that ends well, taken apart at the value that the first one hands on.
pub record Chain {ℓ κ} {A : Type ℓ} {B : Type κ} (step : Result A) (next : A → Result B) (b : B)
    : Type (ℓ ⊔ κ) where
  pub value : A
  pub stepped : step ≡ ok value
  pub went_on : next value ≡ ok b

pub >>=-Chain {ℓ κ} :
    {A : Type ℓ} {B : Type κ} {b : B} (next : A → Result B) (step : Result A)
    → (step >>= next) ≡ ok b
    → Chain step next b
>>=-Chain next (failed p e) h = cc
>>=-Chain next out_of_fuel h = cc
>>=-Chain next (ok a) h = record { value = a; stepped = refl; went_on = h }

-- Going from `s` to `t` consumes `xs`.
pub record Reads (s : Scanner) (xs : Text) (t : Scanner) : Type 0 where
  pub text : s.rest ≡ xs ++ t.rest
  pub position : t.p ≡ s.p + length xs

pub Reads-refl : (s : Scanner) → Reads s [] s
Reads-refl s = record { text = refl; position = omega arith }

pub Reads-trans :
    {s t u : Scanner} (xs ys : Text) → Reads s xs t → Reads t ys u → Reads s (xs ++ ys) u
Reads-trans xs ys a b = record {
  text = rw (a.text, b.text, append_assoc);
  position = omega (arith, a.position, b.position, length-append {0} xs ys);
}

pub Reads-cons :
    (p c : ℕ) (r : Text) {xs : Text} {t : Scanner}
    → Reads (at (p + 1) r) xs t
    → Reads (at p (c ∷ r)) (c ∷ xs) t
Reads-cons p c r a = record { text = ap (c ∷◌) a.text; position = omega (arith, a.position) }

module _ (test : Option ℕ → Bool) where
  abbrev pub Passes : ℕ → Type 0
  Passes c = test (some c) ≡ true

  -- The loop consumes units that pass, and stops in front of one that does not.
  pub skip_while-Reads :
      (p : ℕ) (r : Text)
      → test none ≡ false
      → (xs : Text) × Reads (at p r) xs (skip_while test p r)
        × All Passes xs
        × (test (peek (skip_while test p r)) ≡ false)
  unfolding skip_while
  skip_while-Reads p [] stop = ([], Reads-refl (at p []), tt, stop)
  skip_while-Reads p (c ∷ r) stop = elim (Bool-cases (test (some c))) [
    | inl e ↦ rw e (
        let (xs, reads, passes, end) = skip_while-Reads (p + 1) r stop in
        (c ∷ xs, Reads-cons p c r reads, (e, passes), end))
    | inr e ↦ rw e ([], Reads-refl (at p (c ∷ r)), tt, e)
  ]

  -- Such a run in front of a unit that does not pass is consumed whole.
  pub skip_while-append :
      (p : ℕ) (xs r : Text)
      → All Passes xs
      → test (first? r) ≡ false
      → skip_while test p (xs ++ r) ≡ at (p + length xs) r
  unfolding skip_while
  skip_while-append p [] [] h e = ap (λ n. at n []) (omega arith)
  skip_while-append p [] (c ∷ r) h e = rw e (ap (λ n. at n (c ∷ r)) (omega arith))
  skip_while-append p (x ∷ xs) r h e =
      rw (h.0, skip_while-append (p + 1) xs r h.1 e) (ap (λ n. at n r) (omega arith))
