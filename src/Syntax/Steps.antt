-- ===== src/Syntax/Steps.antt =====
-- read.c: the steps of lisp_read and read_pair over a list.
use brianscheme.Base.{ℕ, suc, ◌≤◌, ◌≡◌, refl, ◌∙◌, false, some, List, ◌∷◌, arith, ◌==◌, length}
use brianscheme.Object.{Ptr}
use brianscheme.Store.{Store, cons}
use brianscheme.Read.{is_initial, isalpha, isdigit, isspace, eat, eat_whitespace}
use brianscheme.Read.Datum.{
  Host, Reading, with_input, unless_failed, failed, lisp_read, read_pair, datum_body, pair_body,
  after_car,
}
use brianscheme.Syntax.{Term, join, Denotes}
use brianscheme.Syntax.Scans.{IsStart, eat_whitespace-start}
use brianscheme.Syntax.Stores.{Grown-trans, Grown-weaken, failed-Denotes}
use brianscheme.Syntax.Symbols.{cons-Makes}
use brianscheme.Syntax.Atoms.{Reads}

-- The steps of the reader that a list takes.
pub space_skipped :
    (h : Host) (f : ℕ) (s : Store) (cs : List ℕ)
    → lisp_read (suc f) h s (b' ' ∷ cs) ≡ lisp_read (suc f) h s cs
unfolding lisp_read eat_whitespace eat isspace
space_skipped h f s cs = refl

pub paren_opens :
    (h : Host) (f : ℕ) (s : Store) (cs : List ℕ)
    → lisp_read (suc f) h s (b'(' ∷ cs) ≡ read_pair f h s cs
unfolding lisp_read datum_body eat_whitespace eat isspace isdigit is_initial isalpha
paren_opens h f s cs = refl

pub paren_closes :
    (h : Host) (f : ℕ) (s : Store) (cs : List ℕ)
    → read_pair (suc f) h s (b')' ∷ cs) ≡ some (s.empty_list, s, cs)
unfolding read_pair pair_body eat_whitespace eat isspace
paren_closes h f s cs = refl

pub car_read :
    (h : Host) (f : ℕ) (s : Store) (inp : List ℕ) (c : ℕ) (cs : List ℕ)
    → inp ≡ c ∷ cs
    → IsStart c
    → read_pair (suc f) h s inp
      ≡ unless_failed
          (lisp_read f h s inp)
          (λ obj s' rest. after_car h (lisp_read f h) (read_pair f h) obj s' (eat_whitespace rest))
unfolding read_pair pair_body
car_read h f s inp c cs q start = rw (q, eat_whitespace-start c cs start, start.2)

pub cdr_read :
    (h : Host) (lisp pair : Store → List ℕ → Reading) (obj : Ptr) (s : Store) (c : ℕ) (cs : List ℕ)
    → (c == b'.') ≡ false
    → after_car h lisp pair obj s (c ∷ cs)
      ≡ unless_failed (pair s (c ∷ cs)) (λ cdr_obj s' rest. with_input (cons s' obj cdr_obj) rest)
unfolding after_car
cdr_read h lisp pair obj s c cs e = rw e

pub unless_failed_of :
    (s : Store) (p : Ptr) (rest : List ℕ) (reading : Reading)
    (next : Ptr → Store → List ℕ → Reading)
    → reading ≡ some (p, s, rest)
    → failed s p ≡ some false
    → unless_failed reading next ≡ next p s rest
unless_failed_of s p rest reading next e ok = rw (e, ok)

-- An object that was read, in front of which another is put.
pub then_cons :
    (s : Store) (names : List Ptr) (k : ℕ) (a b : Term) (pa : Ptr) (mid rest : List ℕ)
    (reading : Reading) (next : Ptr → Store → List ℕ → Reading)
    → Denotes s a pa
    → suc k ≤ length s.free
    → Reads s names k b mid reading
    → ((p : Ptr) (s' : Store) → next p s' mid ≡ with_input (cons s' pa p) rest)
    → Reads s names (suc k) (join a b) rest (unless_failed reading next)
then_cons s names k a b pa mid rest reading next ha room (p, s', run, grown, hb) at =
    let (q, s'', made, grown', hab) =
      cons-Makes s' grown.entries a b pa p grown.held (let x = grown.room in omega arith)
        (grown.keeps a pa ha) hb in
    (
      q,
      s'',
      unless_failed_of s' p mid reading next run (failed-Denotes grown.held b p hb)
          ∙ at p s'
          ∙ rw made,
      Grown-weaken (omega arith) (Grown-trans grown grown'),
      hab,
    )
