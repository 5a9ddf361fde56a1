-- ===== src/Read/Examples.antt =====
-- Tests of the model of read.c, and its bounds at small inputs.
use brianscheme.Base.{◌≡◌, refl, false, [], ◌∷◌, codes, arith}
use brianscheme.Read.{
  isspace, is_delimiter, is_initial, isalpha, isdigit, is_symbol_char, eat, eat_whitespace,
  eat_expected_string, scanned, scan_symbol, scan_string, scan_number,
}
use brianscheme.Read.Bounds.{IsWithin, IsTaken, scan_symbol-IsTaken, scan_string-IsWithin}

test_comment : eat_whitespace (codes " ; no\n x") ≡ codes "x"
unfolding eat_whitespace eat isspace
test_comment = refl

test_newline : eat_expected_string (codes "ewline") (codes "ewliner") ≡ scanned [] (codes "r")
unfolding eat_expected_string
test_newline = refl

test_symbol : scan_symbol 0 [] (codes "a+1)") ≡ scanned (codes "1+a") (codes ")")
unfolding scan_symbol is_symbol_char is_initial isalpha isdigit is_delimiter isspace
test_symbol = refl

test_string :
    scan_string false 0 [] (codes "a\\\"\\n\" b") ≡ scanned (10 ∷ 34 ∷ b'a' ∷ []) (codes " b")
unfolding scan_string
test_string = refl

test_number : scan_number 0 [] (codes "-1.5 ") ≡ scanned (codes "5.1-") (codes " ")
unfolding scan_number isdigit is_delimiter isspace
test_number = refl

scan_symbol-IsTaken_example : IsTaken 1000 (codes "ab ") (scan_symbol 1 (codes "a") (codes "b "))
scan_symbol-IsTaken_example = scan_symbol-IsTaken (codes "b ") (codes "a") 1 refl (omega arith)

scan_string-IsWithin_example : IsWithin 1000 (scan_string false 0 [] (codes "ab\" "))
scan_string-IsWithin_example = scan_string-IsWithin (codes "ab\" ") [] false 0 refl (omega arith)
