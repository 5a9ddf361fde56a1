-- ===== src/Syntax/Errors.antt =====
-- read.c: a list that the input ends in.
use brianscheme.Base.{
  ℕ, zero, suc, ◌+◌, ◌≤◌, ◌<◌, ◌≡◌, refl, ap, true, some, List, [], ◌∷◌, ◌++◌, arith, ==-self,
  length,
}
use brianscheme.Object.{Ptr, pair, string}
use brianscheme.Store.{
  Store, make_string, make_primitive_exception, throw_message, car, cons, is_primitive_exception,
}
use brianscheme.Read.{Fault, unexpected_eof, is_delimiter, isspace, eat, eat_whitespace}
use brianscheme.Read.Datum.{
  Host, Reading, throw, failed, unless_failed, lisp_read, read_pair, pair_body, after_car,
}
use brianscheme.Syntax.{Term, str, show, IsPlain, IsKept, IsHeld, cost, rounds}
use brianscheme.Syntax.Stores.{failed-Denotes}
use brianscheme.Syntax.Symbols.{alloc-Grown}
use brianscheme.Syntax.Steps.{paren_opens, car_read, cdr_read, unless_failed_of}
use brianscheme.Syntax.Reads.{show-IsStart, space_before, lisp_read-show}

-- The reading ends at the end of the input with an exception of the message.
abbrev pub Throws : List ℕ → Reading → Type 0
Throws message reading =
    (p : Ptr) × (m : Ptr) × (s' : Store) × (reading ≡ some (p, s', []))
    × (failed s' p ≡ some true)
    × (s'.object p ≡ pair s'.error_sym m)
    × (s'.object m ≡ string message)

failed_error :
    (s : Store) (p e m : Ptr)
    → IsKept s p
    → s.object p ≡ pair e m
    → s.error_sym ≡ e
    → failed s p ≡ some true
unfolding failed is_primitive_exception car
failed_error s p e m (t, n, out) at same = rw (n, t, at, same, ==-self e)

throw-Throws :
    (h : Host) (s : Store) (names : List Ptr) (fault : Fault)
    → IsHeld s names
    → 2 ≤ length s.free
    → Throws (h.text fault) (throw h s fault [])
unfolding throw throw_message make_string make_primitive_exception cons
throw-Throws h s names fault w room =
    let (m, s1, made, grown, kept, at, same) =
      alloc-Grown s names (string (h.text fault)) w (omega arith) in
    let (p, s2, made', grown', kept', at', same') =
      alloc-Grown s1 grown.entries (pair s1.error_sym m) grown.held
        (let x = grown.room in omega arith) in
    let (_, text) = grown'.keeps (str (h.text fault)) m (kept, at) in
    (
      p,
      m,
      s2,
      rw (made, made'),
      failed_error s2 p s1.error_sym m kept' at' same',
      rw same' at',
      text,
    )

-- The texts of terms, each with a space behind it.
abbrev pub spaced : List Term → List ℕ
spaced [] = []
spaced (v ∷ vs) = show v ++ b' ' ∷ spaced vs

abbrev pub AllPlain : List Term → Type 0
AllPlain [] = Unit
AllPlain (v ∷ vs) = IsPlain v × AllPlain vs

abbrev pub costs : List Term → ℕ
costs [] = 0
costs (v ∷ vs) = cost v + costs vs

abbrev pub all_rounds : List Term → ℕ
all_rounds [] = 0
all_rounds (v ∷ vs) = suc (rounds v + all_rounds vs)

read_pair_eof :
    (h : Host) (f : ℕ) (s : Store) → read_pair (suc f) h s [] ≡ throw h s unexpected_eof []
unfolding read_pair pair_body eat_whitespace eat
read_pair_eof h f s = refl

space_delimits : is_delimiter b' ' ≡ true
unfolding is_delimiter isspace
space_delimits = refl

-- An exception is passed on.
unless_failed-Throws :
    (message : List ℕ) (reading : Reading) (next : Ptr → Store → List ℕ → Reading)
    → Throws message reading
    → Throws message (unless_failed reading next)
unless_failed-Throws message reading next (p, m, s', run, bad, at, text) =
    (p, m, s', rw (run, bad), bad, at, text)

-- What follows a car that was read: the rest of the list, or the end of the input.
after_unclosed :
    (h : Host) (vs : List Term) (f : ℕ) (s : Store) (names : List Ptr) (obj : Ptr)
    → AllPlain vs
    → IsHeld s names
    → 2 ≤ length s.free
    → Throws (h.text unexpected_eof) (read_pair f h s (spaced vs))
    → Throws
        (h.text unexpected_eof)
        (after_car h (lisp_read f h) (read_pair f h) obj s (eat_whitespace (b' ' ∷ spaced vs)))
unfolding eat_whitespace eat isspace after_car
after_unclosed h [] f s names obj plain w room rest = throw-Throws h s names unexpected_eof w room
after_unclosed h (v ∷ vs) f s names obj plain w room rest =
    let (c, cs, q, start) = show-IsStart v plain.0 in
    let split = ap (λ (xs : List ℕ). xs ++ b' ' ∷ spaced vs) q in
    rw
      (
        space_before (spaced (v ∷ vs)) c (cs ++ b' ' ∷ spaced vs) split start,
        split,
        cdr_read h (lisp_read f h) (read_pair f h) obj s c (cs ++ b' ' ∷ spaced vs) start.3,
      )
      (unless_failed-Throws (h.text unexpected_eof) _ _ (rw split at rest))

unclosed :
    (h : Host) (vs : List Term) (f : ℕ) (s : Store) (names : List Ptr)
    → AllPlain vs
    → all_rounds vs < f
    → IsHeld s names
    → costs vs + 2 ≤ length s.free
    → length names + costs vs < h.bound
    → Throws (h.text unexpected_eof) (read_pair f h s (spaced vs))
unclosed h vs zero s names plain lt w room bound = absurd (omega arith)
unclosed h [] (suc f) s names plain lt w room bound =
    rw (read_pair_eof h f s) (throw-Throws h s names unexpected_eof w (omega arith))
unclosed h (v ∷ vs) (suc f) s names plain lt w room bound =
    let (c, cs, q, start) = show-IsStart v plain.0 in
    let (p, s', run, grown, at) =
      lisp_read-show h v f s names b' ' (spaced vs) plain.0 (omega arith) w (omega arith)
        (omega arith) space_delimits in
    rw
      (
        car_read h f s (spaced (v ∷ vs)) c (cs ++ b' ' ∷ spaced vs)
            (ap (λ (xs : List ℕ). xs ++ b' ' ∷ spaced vs) q) start,
        unless_failed_of s' p (b' ' ∷ spaced vs) _ _ run (failed-Denotes grown.held v p at),
      )
      (after_unclosed h vs f s' grown.entries p plain.1 grown.held
        (let x = grown.room in omega arith)
        (unclosed h vs f s' grown.entries plain.1 (omega arith) grown.held
          (let x = grown.room in omega arith) (let x = grown.longer in omega arith)))

-- lisp_read of a parenthesis and the texts of plain terms, each with a space behind it, at the end
-- of the input, with enough fuel, free objects and room for the symbol table's loop, ends with the
-- exception for an unexpected end, and the input used up.
pub lisp_read-spaced :
    (h : Host) (vs : List Term) (f : ℕ) (s : Store) (names : List Ptr)
    → AllPlain vs
    → all_rounds vs < f
    → IsHeld s names
    → costs vs + 2 ≤ length s.free
    → length names + costs vs < h.bound
    → Throws (h.text unexpected_eof) (lisp_read (suc f) h s (b'(' ∷ spaced vs))
lisp_read-spaced h vs f s names plain lt w room bound =
    rw (paren_opens h f s (spaced vs)) (unclosed h vs f s names plain lt w room bound)
