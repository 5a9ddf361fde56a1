-- ===== src/Syntax/RoundTrip.antt =====
-- read.c after interp.c: the reader reads what the printer writes.
use brianscheme.Base.{ℕ, ◌+◌, ◌<◌, ◌≤◌, ◌≡◌, true, some, List, ◌∷◌, ◌++◌, length}
use brianscheme.Object.{Ptr}
use brianscheme.Store.{Store}
use brianscheme.Read.{is_delimiter}
use brianscheme.Read.Datum.{Host, lisp_read}
use brianscheme.Print.{Printer, owrite}
use brianscheme.Syntax.{Term, show, IsPlain, IsHeld, Denotes, cost, rounds}
use brianscheme.Syntax.Atoms.{Reads}
use brianscheme.Syntax.Reads.{lisp_read-show}
use brianscheme.Syntax.Forms.{IsPrintable, IsUnquoted}
use brianscheme.Syntax.Writes.{owrite-show}

-- What owrite writes for an object of a plain term in which no list starts with a quoting symbol,
-- lisp_read reads, with a delimiter behind it, as an object of the same term, up to the delimiter,
-- when there are enough fuel, free objects and room for the symbol table's loop.
pub lisp_read-owrite :
    (h : Host) (printer : Printer) (v : Term) (f : ℕ) (s : Store) (names : List Ptr) (p : Ptr)
    (c : ℕ) (cs : List ℕ)
    → IsPlain v
    → IsUnquoted v
    → rounds v < f
    → IsHeld s names
    → IsPrintable s
    → Denotes s v p
    → cost v ≤ length s.free
    → length names + cost v < h.bound
    → is_delimiter c ≡ true
    → (text : List ℕ) × (owrite f printer s p ≡ some (s.true_object, s, text))
      × Reads s names (cost v) v (c ∷ cs) (lisp_read f h s (text ++ c ∷ cs))
lisp_read-owrite h printer v f s names p c cs plain unquoted lt w i at room bound delim = (
  show v,
  owrite-show printer v f s names p lt w i unquoted at,
  lisp_read-show h v f s names c cs plain lt w room bound delim,
)
