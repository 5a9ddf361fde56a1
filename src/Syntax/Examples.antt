-- ===== src/Syntax/Examples.antt =====
-- The reader and the printer at a store that has the pair (a . -5).
use brianscheme.Base.{
  ◌≡◌, ◌-◌, ◌^◌, ◌++◌, refl, some, true, List, ℕ, [], ◌∷◌, ◌==◌, arith, if◌then◌else◌, codes,
}
use brianscheme.Object.{symbol, lazy_symbol, fixnum, boolean, pair, the_empty_list, null, nil}
use brianscheme.Store.{Store}
use brianscheme.Store.Blank.{blank}
use brianscheme.Read.{is_delimiter, is_initial, is_symbol_char, isalpha, isspace}
use brianscheme.Read.Datum.{Host, lisp_read}
use brianscheme.Print.{Printer, owrite}
use brianscheme.Syntax.{Term, sym, num, join, show, IsPlain, IsHeld, Denotes}
use brianscheme.Syntax.Atoms.{Reads}
use brianscheme.Syntax.Errors.{Throws, spaced, lisp_read-spaced}
use brianscheme.Syntax.Reads.{lisp_read-show}
use brianscheme.Syntax.RoundTrip.{lisp_read-owrite}
use brianscheme.Syntax.Forms.{IsPrintable, IsUnquoted}
use brianscheme.Syntax.Writes.{owrite-show}

abbrev host : Host
host = record { text = λ fault. []; atof = λ text. 0; bound = 9 }

abbrev printer : Printer
printer = record { text = λ fault. []; double = λ n. []; pointer = λ n. [] }

abbrev entry : Term
entry = join (sym (codes "a")) (num (2 ^ 64 - 5))

abbrev store : Store
store = record blank {
  object = λ p.
      if p == 8
      then symbol (codes "a")
      else if p == 16
      then pair 8 24
      else if p == 24
      then fixnum (2 ^ 64 - 5)
      else if p == 96
      then the_empty_list null null
      else if p == 112
      then boolean 1
      else if p == 128
      then lazy_symbol 0
      else if p == 152
      then symbol (codes "quote")
      else if p == 160
      then symbol (codes "quasiquote")
      else if p == 168
      then symbol (codes "unquote")
      else if p == 176
      then symbol (codes "unquotesplicing")
      else nil;
  free = 40 ∷ 48 ∷ 56 ∷ 64 ∷ [];
}

store-IsHeld : IsHeld store []
store-IsHeld = record {
  distinct = (refl, (refl, (refl, (refl, tt))));
  proper = λ q m. ground arith;
  empty_object = (null, null, refl);
  empty_kept = (refl, refl, refl);
  error_object = (0, refl);
  error_kept = refl;
  table = refl;
  named = tt;
}

store-IsPrintable : IsPrintable store
store-IsPrintable = record {
  truth = refl;
  quote = refl;
  unquote = refl;
  splice = refl;
  quasiquote = refl;
}

entry_denoted : Denotes store entry 16
entry_denoted =
    (8, 24, (refl, refl, refl), refl, ((refl, refl, refl), refl), ((refl, refl, refl), refl))

entry-IsPlain : IsPlain entry
unfolding is_initial isalpha is_symbol_char
entry-IsPlain = ((refl, refl, (refl, tt), omega arith), omega arith)

entry-IsUnquoted : IsUnquoted entry
entry-IsUnquoted = ((refl, refl, refl, refl), tt, tt)

newline_delimits : is_delimiter 10 ≡ true
unfolding is_delimiter isspace
newline_delimits = refl

lisp_read-show_example :
    Reads store [] 4 entry (10 ∷ []) (lisp_read 9 host store (show entry ++ 10 ∷ []))
lisp_read-show_example =
    lisp_read-show host entry 9 store [] 10 [] entry-IsPlain (omega arith) store-IsHeld
      (omega arith) (omega arith) newline_delimits

owrite-show_example : owrite 9 printer store 16 ≡ some (112, store, show entry)
owrite-show_example =
    owrite-show printer entry 9 store [] 16 (omega arith) store-IsHeld store-IsPrintable
      entry-IsUnquoted entry_denoted

lisp_read-owrite_example :
    (text : List ℕ) × (owrite 9 printer store 16 ≡ some (112, store, text))
    × Reads store [] 4 entry (10 ∷ []) (lisp_read 9 host store (text ++ 10 ∷ []))
lisp_read-owrite_example =
    lisp_read-owrite host printer entry 9 store [] 16 10 [] entry-IsPlain entry-IsUnquoted
      (omega arith) store-IsHeld store-IsPrintable entry_denoted (omega arith) (omega arith)
      newline_delimits

lisp_read-spaced_example : Throws [] (lisp_read 9 host store (b'(' ∷ spaced (sym (codes "a") ∷ [])))
lisp_read-spaced_example =
    lisp_read-spaced host (sym (codes "a") ∷ []) 8 store [] (entry-IsPlain.0, tt) (omega arith)
      store-IsHeld (omega arith) (omega arith)
