-- ===== src/Syntax/Reads.antt =====
-- read.c: lisp_read of the text of a list, and of any term.
use brianscheme.Base.{
  ℕ, zero, suc, ◌+◌, ◌≤◌, ◌<◌, ◌≡◌, refl, sym as symm, ap, ◌∙◌, true, false, List, [], ◌∷◌, ◌++◌,
  arith, ◌==◌, length, codes,
}
use brianscheme.Object.{Ptr}
use brianscheme.Store.{Store}
use brianscheme.Read.{is_delimiter, isspace, eat, eat_whitespace, delimited}
use brianscheme.Read.Datum.{Host, Reading, lisp_read, read_pair, after_car, dotted}
use brianscheme.Print.{escape}
use brianscheme.Syntax.{
  Term, empty, sym, str, num, join, show, tail, IsPlain, IsHeld, Denotes, cost, rounds,
}
use brianscheme.Syntax.Scans.{IsStart, initial_apart, eat_whitespace-start, print_long-IsStart}
use brianscheme.Syntax.Stores.{Grown-refl, Grown-trans, Grown-weaken, failed-Denotes}
use brianscheme.Syntax.Atoms.{Reads, read_symbol-Reads, read_string-Reads, read_number-Reads}
use brianscheme.Syntax.Steps.{
  car_read, cdr_read, paren_closes, paren_opens, space_skipped, then_cons, unless_failed_of,
}

abbrev ReadsTerm : Host → Term → Type 0
ReadsTerm h v =
    (f : ℕ) (s : Store) (names : List Ptr) (c : ℕ) (cs : List ℕ)
    → rounds v < f
    → IsHeld s names
    → cost v ≤ length s.free
    → length names + cost v < h.bound
    → is_delimiter c ≡ true
    → Reads s names (cost v) v (c ∷ cs) (lisp_read f h s (show v ++ c ∷ cs))

-- What follows a car that was read as `a`.
abbrev ReadsTail : Host → Term → Type 0
ReadsTail h v =
    (f : ℕ) (s : Store) (names : List Ptr) (a : Term) (pa : Ptr) (rest : List ℕ)
    → rounds v < f
    → IsHeld s names
    → Denotes s a pa
    → suc (cost v) ≤ length s.free
    → length names + cost v < h.bound
    → Reads s names (suc (cost v)) (join a v) rest
        (after_car h (lisp_read f h) (read_pair f h) pa s (eat_whitespace (tail v ++ rest)))

tail_head : (v : Term) → (c : ℕ) × (cs : List ℕ) × (tail v ≡ c ∷ cs) × (is_delimiter c ≡ true)
unfolding is_delimiter isspace
tail_head empty = (b')', [], refl, refl)
tail_head (sym t) = (_, _, refl, refl)
tail_head (str t) = (_, _, refl, refl)
tail_head (num n) = (_, _, refl, refl)
tail_head (join a d) = (_, _, refl, refl)

quote-IsStart : IsStart 34
unfolding isspace
quote-IsStart = (refl, refl, refl, refl)

pub show-IsStart : (v : Term) → IsPlain v → (c : ℕ) × (cs : List ℕ) × (show v ≡ c ∷ cs) × IsStart c
unfolding isspace
show-IsStart empty plain = (b'(', _, refl, (refl, refl, refl, refl))
show-IsStart (sym []) plain = absurd plain
show-IsStart (sym (c ∷ t)) (first, point, _, _) = (c, t, refl, (initial_apart c first point).0)
show-IsStart (str t) plain = (34, _, refl, quote-IsStart)
show-IsStart (num n) plain = let (c, cs, q, start, _, _) = print_long-IsStart n in (c, cs, q, start)
show-IsStart (join a d) plain = (b'(', _, refl, (refl, refl, refl, refl))

text_split :
    (xs ys rest : List ℕ) (c : ℕ) (cs : List ℕ)
    → ys ≡ c ∷ cs
    → (xs ++ ys) ++ rest ≡ xs ++ c ∷ (cs ++ rest)
text_split [] ys rest c cs q = rw q
text_split (x ∷ xs) ys rest c cs q = ap (λ (zs : List ℕ). x ∷ zs) (text_split xs ys rest c cs q)

-- The text of a list after its parenthesis, where its car and what follows the car are read.
read_list :
    (h : Host) (a d : Term)
    → IsPlain a
    → ReadsTerm h a
    → ReadsTail h d
    → (f : ℕ) (s : Store) (names : List Ptr) (rest : List ℕ) → rounds a < f
    → rounds d < f
    → IsHeld s names
    → cost (join a d) ≤ length s.free
    → length names + cost (join a d) < h.bound
    → Reads s names
        (cost (join a d))
        (join a d)
        rest
        (read_pair (suc f) h s ((show a ++ tail d) ++ rest))
read_list h a d plain reads_a reads_d f s names rest fa fd w room bound =
    let (c, cs, q, delim) = tail_head d in
    let (b, bs, q', start) = show-IsStart a plain in
    let (pa, s', run, grown, ha) =
      reads_a f s names c (cs ++ rest) fa w (omega arith) (omega arith) delim in
    let (p, s'', run', grown', had) =
      reads_d f s' grown.entries a pa rest fd grown.held ha (let x = grown.room in omega arith)
        (let x = grown.longer in omega arith) in
    (
      p,
      s'',
      car_read h f s ((show a ++ tail d) ++ rest) b ((bs ++ tail d) ++ rest)
            (ap (λ (xs : List ℕ). (xs ++ tail d) ++ rest) q') start
          ∙ unless_failed_of s' pa (c ∷ (cs ++ rest)) (lisp_read f h s ((show a ++ tail d) ++ rest))
              _
              (ap (λ (xs : List ℕ). lisp_read f h s xs) (text_split (show a) (tail d) rest c cs q)
                ∙ run)
              (failed-Denotes grown.held a pa ha)
          ∙ ap
              (λ (xs : List ℕ).
                after_car h (lisp_read f h) (read_pair f h) pa s' (eat_whitespace (xs ++ rest)))
              ((symm q))
          ∙ run',
      Grown-weaken (omega arith) (Grown-trans grown grown'),
      had,
    )

Reads-path :
    {s : Store} {names : List Ptr} {k : ℕ} (v : Term) {rest : List ℕ} {reading reading' : Reading}
    → reading ≡ reading'
    → Reads s names k v rest reading'
    → Reads s names k v rest reading
Reads-path v e (p, s', run, grown, at) = (p, s', e ∙ run, grown, at)

-- A point, an object and the parenthesis.
dotted_read :
    (h : Host) (lisp pair : Store → List ℕ → Reading) (s : Store) (names : List Ptr) (k : ℕ)
    (a v : Term) (pa : Ptr) (cs rest : List ℕ)
    → Denotes s a pa
    → suc k ≤ length s.free
    → Reads s names k v (b')' ∷ rest) (lisp s (b' ' ∷ cs))
    → Reads s names (suc k) (join a v) rest (after_car h lisp pair pa s (b'.' ∷ b' ' ∷ cs))
unfolding after_car dotted delimited is_delimiter isspace eat_whitespace eat
dotted_read h lisp pair s names k a v pa cs rest ha room reading =
    then_cons s names k a v pa (b')' ∷ rest) rest (lisp s (b' ' ∷ cs)) _ ha room reading
      (λ p s'. refl)

tail_dotted :
    (h : Host) (v : Term)
    → tail v ≡ b' ' ∷ b'.' ∷ b' ' ∷ (show v ++ codes ")")
    → ReadsTerm h v
    → ReadsTail h v
unfolding eat_whitespace eat isspace is_delimiter
tail_dotted h v e reads zero s names a pa rest lt w ha room bound = absurd (omega arith)
tail_dotted h v e reads (suc f) s names a pa rest lt w ha room bound =
    let text = (show v ++ codes ")") ++ rest in
    rw e (
      dotted_read h (lisp_read (suc f) h) (read_pair (suc f) h) s names (cost v) a v pa text rest ha
        room
        (Reads-path v
          (space_skipped h f s text
            ∙ ap (λ (xs : List ℕ). lisp_read (suc f) h s xs)
                (text_split (show v) (codes ")") rest b')' [] refl))
          (reads (suc f) s names b')' rest lt w (omega arith) bound refl)))

empty_read :
    (h : Host) (f : ℕ) (s : Store) (names : List Ptr) (rest : List ℕ)
    → IsHeld s names
    → 0 < f
    → Reads s names 0 empty rest (read_pair f h s (b')' ∷ rest))
empty_read h zero s names rest w lt = absurd (omega arith)
empty_read h (suc f) s names rest w lt =
    (s.empty_list, s, paren_closes h f s rest, Grown-refl w, refl)

-- What closes a list after its car.
cdr-Reads :
    (h : Host) (f : ℕ) (s : Store) (names : List Ptr) (k : ℕ) (a v : Term) (pa : Ptr) (inp : List ℕ)
    (c : ℕ) (cs rest : List ℕ)
    → inp ≡ c ∷ cs
    → (c == b'.') ≡ false
    → Denotes s a pa
    → suc k ≤ length s.free
    → Reads s names k v rest (read_pair f h s inp)
    → Reads s names (suc k) (join a v) rest (after_car h (lisp_read f h) (read_pair f h) pa s inp)
cdr-Reads h f s names k a v pa inp c cs rest q point ha room reading =
    Reads-path (join a v)
      (ap (λ (xs : List ℕ). after_car h (lisp_read f h) (read_pair f h) pa s xs) q
        ∙ cdr_read h (lisp_read f h) (read_pair f h) pa s c cs point)
      (then_cons s names k a v pa rest rest (read_pair f h s (c ∷ cs)) _ ha room
        (Reads-path v (ap (λ (xs : List ℕ). read_pair f h s xs) (symm q)) reading) (λ p s'. refl))

tail_empty : (h : Host) → ReadsTail h empty
unfolding eat_whitespace eat isspace
tail_empty h f s names a pa rest lt w ha room bound =
    cdr-Reads h f s names 0 a empty pa (b')' ∷ rest) b')' rest rest refl refl ha room
      (empty_read h f s names rest w (omega arith))

pub space_before :
    (xs : List ℕ) (c : ℕ) (cs : List ℕ) → xs ≡ c ∷ cs → IsStart c → eat_whitespace (b' ' ∷ xs) ≡ xs
unfolding eat_whitespace eat isspace
space_before xs c cs q start = rw q (eat_whitespace-start c cs start)

tail_join :
    (h : Host) (b v : Term) → IsPlain b → ReadsTerm h b → ReadsTail h v → ReadsTail h (join b v)
tail_join h b v plain reads_b reads_v zero s names a pa rest lt w ha room bound =
    absurd (omega arith)
tail_join h b v plain reads_b reads_v (suc f) s names a pa rest lt w ha room bound =
    let (c, cs, q, start) = show-IsStart b plain in
    let text = (show b ++ tail v) ++ rest in
    let split = ap (λ (xs : List ℕ). (xs ++ tail v) ++ rest) q in
    let reading =
      read_list h b v plain reads_b reads_v f s names rest (omega arith) (omega arith) w
        (omega arith) bound in
    rw (space_before text c ((cs ++ tail v) ++ rest) split start) (
      cdr-Reads h (suc f) s names (cost (join b v)) a (join b v) pa text c ((cs ++ tail v) ++ rest)
        rest split start.3 ha room reading)

term_join :
    (h : Host) (a d : Term) → IsPlain a → ReadsTerm h a → ReadsTail h d → ReadsTerm h (join a d)
term_join h a d plain reads_a reads_d zero s names c cs lt w room bound delim = absurd (omega arith)
term_join h a d plain reads_a reads_d (suc zero) s names c cs lt w room bound delim =
    absurd (omega arith)
term_join h a d plain reads_a reads_d (suc (suc f)) s names c cs lt w room bound delim =
    Reads-path (join a d) (paren_opens h (suc f) s ((show a ++ tail d) ++ c ∷ cs)) (
      read_list h a d plain reads_a reads_d f s names (c ∷ cs) (omega arith) (omega arith) w room
        bound)

term_empty : (h : Host) → ReadsTerm h empty
term_empty h zero s names c cs lt w room bound delim = absurd (omega arith)
term_empty h (suc f) s names c cs lt w room bound delim =
    Reads-path empty (paren_opens h f s (b')' ∷ c ∷ cs))
      (empty_read h f s names (c ∷ cs) w (omega arith))

sym_term : (h : Host) (t : List ℕ) → IsPlain (sym t) → ReadsTerm h (sym t)
sym_term h t plain zero s names c cs lt w room bound delim = absurd (omega arith)
sym_term h t plain (suc f) s names c cs lt w room bound delim =
    read_symbol-Reads h f s names t c cs plain w room (omega arith) delim

str_term : (h : Host) (t : List ℕ) → IsPlain (str t) → ReadsTerm h (str t)
str_term h t plain zero s names c cs lt w room bound delim = absurd (omega arith)
str_term h t plain (suc f) s names c cs lt w room bound delim =
    Reads-path (str t)
      (ap (λ (xs : List ℕ). lisp_read (suc f) h s (34 ∷ xs))
        (text_split (escape t) (34 ∷ []) (c ∷ cs) 34 [] refl))
      (read_string-Reads h f s names t (c ∷ cs) plain w room)

num_term : (h : Host) (n : ℕ) → IsPlain (num n) → ReadsTerm h (num n)
num_term h n plain zero s names c cs lt w room bound delim = absurd (omega arith)
num_term h n plain (suc f) s names c cs lt w room bound delim =
    read_number-Reads h f s names n c cs plain w room delim

reads_both : (h : Host) (v : Term) → IsPlain v → ReadsTerm h v × ReadsTail h v
reads_both h empty plain = (term_empty h, tail_empty h)
reads_both h (sym t) plain = (sym_term h t plain, tail_dotted h (sym t) refl (sym_term h t plain))
reads_both h (str t) plain = (str_term h t plain, tail_dotted h (str t) refl (str_term h t plain))
reads_both h (num n) plain = (num_term h n plain, tail_dotted h (num n) refl (num_term h n plain))
reads_both h (join a d) plain =
    let (reads_a, _) = reads_both h a plain.0 in
    let (_, reads_d) = reads_both h d plain.1 in
    (term_join h a d plain.0 reads_a reads_d, tail_join h a d plain.0 reads_a reads_d)

-- lisp_read of the text of a plain term, a delimiter behind it, with enough fuel, free objects and
-- room for the symbol table's loop, gives an object of the term and leaves the input at the
-- delimiter. The store keeps what it held, and every object that denoted a term still does.
pub lisp_read-show :
    (h : Host) (v : Term) (f : ℕ) (s : Store) (names : List Ptr) (c : ℕ) (cs : List ℕ)
    → IsPlain v
    → rounds v < f
    → IsHeld s names
    → cost v ≤ length s.free
    → length names + cost v < h.bound
    → is_delimiter c ≡ true
    → Reads s names (cost v) v (c ∷ cs) (lisp_read f h s (show v ++ c ∷ cs))
lisp_read-show h v f s names c cs plain lt w room bound delim =
    (reads_both h v plain).0 f s names c cs lt w room bound delim
