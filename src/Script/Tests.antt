-- ===== src/Script/Tests.antt =====
-- Runs of the scanner at concrete texts, and instances of the theorems about it.
use hydrui.Base.{
  ◌≤◌, ◌<◌, ◌≡◌, ◌⊎◌, refl, true, false, Option, some, [], Text, codes, length, arith, eq_text,
}
use hydrui.Script.Token.{identifier, number, equal, and_not, select, words}
use hydrui.Script.Scanner.{
  Scanner, at, ok, failed, out_of_fuel, scan, scan_after_space, scan_ident, scan_number,
  scan_operator, starts_number, skip_whitespace_and_comments, skip_block, skip_while, is_ident,
  is_letter, is_decimal, is_hex, is_number, is_whitespace, unhandled,
}
use hydrui.Script.Scanner.Reads.{Reads}
use hydrui.Script.Scanner.Trivia.{IsTrivia, none, space, block}
use hydrui.Script.Scanner.Lexeme.{IsLexeme, spelled, spelling}
use hydrui.Script.Scanner.Scanned.{Scanned}
use hydrui.Script.Scanner.Printed.{token_at}
use hydrui.Script.Scanner.Scan.{scan-Scanned, scan-none, scan-append, scan-scan, scan-out_of_fuel}
use hydrui.Script.Scanner.Ends.{IsUnclosed, skip_whitespace_and_comments_ends}
use hydrui.Script.Scanner.Underscore.{scan-scan_ident}

-- `a /**/&^ 1f`
abbrev sample : Text
sample = codes "a /**/&^ 1f"

first_scan : scan 12 (at 0 sample) ≡ ok (some (token_at identifier 0 1), at 1 (codes " /**/&^ 1f"))
unfolding scan skip_whitespace_and_comments is_whitespace scan_after_space scan_ident skip_while
    is_ident is_letter is_decimal select eq_text
first_scan = refl

second_scan :
    scan 12 (at 1 (codes " /**/&^ 1f")) ≡ ok (some (token_at and_not 6 2), at 8 (codes " 1f"))
unfolding scan skip_whitespace_and_comments is_whitespace scan_after_space scan_operator skip_while
    skip_block is_letter is_decimal starts_number select eq_text
second_scan = refl

third_scan : scan 12 (at 8 (codes " 1f")) ≡ ok (some (token_at number 9 2), at 11 [])
unfolding scan skip_whitespace_and_comments is_whitespace scan_after_space scan_number skip_while
    is_letter is_number is_hex is_decimal starts_number select eq_text
third_scan = refl

last_scan : scan 12 (at 11 (codes " ")) ≡ ok (Option.none, at 12 [])
unfolding scan skip_whitespace_and_comments is_whitespace scan_after_space skip_while eq_text
last_scan = refl

blank_block-IsTrivia : IsTrivia (codes "== ") (codes " /**/")
unfolding is_whitespace
blank_block-IsTrivia = space 32 refl (block [] [] tt none refl)

equal-IsLexeme : IsLexeme equal (codes "==")
unfolding spelling
equal-IsLexeme = spelled _ refl

scan-append_example :
    scan 9 (at 3 (codes " /**/== ")) ≡ ok (some (token_at equal 8 2), at 10 (codes " "))
scan-append_example =
    scan-append 9 3 (codes " /**/") equal (codes "==") [] blank_block-IsTrivia equal-IsLexeme
      (omega arith)

scan-Scanned_example :
    (trivia : Text) × (u : Scanner) × Reads (at 1 (codes " /**/&^ 1f")) trivia u
    × IsTrivia u.rest trivia
    × Scanned u (token_at and_not 6 2) (at 8 (codes " 1f"))
scan-Scanned_example = scan-Scanned 12 (at 1 (codes " /**/&^ 1f")) second_scan

scan-none_example : IsTrivia [] (codes " ")
scan-none_example = scan-none 12 (at 11 (codes " ")) last_scan

scan-scan_example :
    (token_at identifier 0 1).span.start < (token_at identifier 0 1).span.end
    × ((token_at identifier 0 1).span.end ≤ (token_at and_not 6 2).span.start)
    × ((token_at and_not 6 2).span.start < (token_at and_not 6 2).span.end)
    × (length (codes " /**/&^ 1f") < length sample)
scan-scan_example = scan-scan 12 (at 0 sample) first_scan second_scan

scan-out_of_fuel_example : scan 100 (at 0 (codes "// end")) ≡ out_of_fuel
scan-out_of_fuel_example = scan-out_of_fuel 100 0 (codes " end") (ground arith)

skip_whitespace_and_comments_ends_example :
    ((t : Scanner) × (skip_whitespace_and_comments 12 (at 0 sample) ≡ ok t)) ⊎ IsUnclosed sample
skip_whitespace_and_comments_ends_example =
    skip_whitespace_and_comments_ends 12 (at 0 sample) (omega arith)

letter_a-passes : is_ident (some b'a') ≡ true
unfolding is_ident is_letter
letter_a-passes = refl

end_of_ident : is_ident Option.none ≡ false
unfolding is_ident is_letter is_decimal
end_of_ident = refl

no_word : select words (codes "_a") ≡ Option.none
unfolding select eq_text
no_word = refl

scan-scan_ident_example :
    (scan_ident (at 4 (codes "_a")) ≡ ok (token_at identifier 4 2, at 6 []))
    × (scan 1 (at 4 (codes "_a")) ≡ failed 4 (unhandled (some b'_')))
scan-scan_ident_example =
    scan-scan_ident 0 4 (codes "a") [] (letter_a-passes, tt) end_of_ident no_word
