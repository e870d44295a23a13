-- ===== src/Script/Scanner/Underscore.antt =====
-- Names that begin with an underscore: `scanIdent` and `scanToken` disagree about them.
use hydrui.Base.{
  ℕ, suc, ◌+◌, ◌≡◌, refl, false, none, some, ◌∷◌, ◌++◌, Text, All, length, first?, arith, eq_text,
}
use hydrui.Script.Token.{select, words, identifier}
use hydrui.Script.Scanner.{
  at, ok, failed, scan, scan_ident, scan_after_space, scan_operator, starts_number, is_ident,
  skip_whitespace_and_comments, is_letter, is_decimal, is_whitespace, unhandled,
}
use hydrui.Script.Scanner.Reads.{Passes, skip_while-append}
use hydrui.Script.Scanner.Printed.{token_at, slice_prefix}

as_ident :
    (p : ℕ) (xs r : Text)
    → All (Passes is_ident) xs
    → is_ident (first? r) ≡ false
    → select words (b'_' ∷ xs) ≡ none
    → scan_ident (at p (b'_' ∷ (xs ++ r)))
      ≡ ok (token_at identifier p (suc (length xs)), at (p + suc (length xs)) r)
unfolding scan_ident is_letter
as_ident p xs r passes stop none_fits =
    let e : p + 1 + length xs ≡ p + suc (length xs) = omega arith in
    rw
      (
        skip_while-append is_ident (p + 1) xs r passes stop,
        e,
        slice_prefix p (b'_' ∷ xs) r,
        none_fits,
      )
      refl

unhandled_unit :
    (f p : ℕ) (r : Text) → scan (suc f) (at p (b'_' ∷ r)) ≡ failed p (unhandled (some b'_'))
unfolding scan skip_whitespace_and_comments is_whitespace scan_after_space scan_operator is_letter
    is_decimal starts_number eq_text select
unhandled_unit f p r = refl

-- `scanIdent` takes a name that begins with `_`, but `scan` never comes to it with one: there such
-- a name is an unhandled character.
pub scan-scan_ident :
    (f p : ℕ) (xs r : Text)
    → All (Passes is_ident) xs
    → is_ident (first? r) ≡ false
    → select words (b'_' ∷ xs) ≡ none
    → (scan_ident (at p (b'_' ∷ (xs ++ r)))
        ≡ ok (token_at identifier p (suc (length xs)), at (p + suc (length xs)) r))
      × (scan (suc f) (at p (b'_' ∷ (xs ++ r))) ≡ failed p (unhandled (some b'_')))
scan-scan_ident f p xs r passes stop none_fits =
    (as_ident p xs r passes stop none_fits, unhandled_unit f p (xs ++ r))
