-- ===== src/Syntax/Writes.antt =====
-- interp.c: owrite of an object that denotes a term writes the term's text.
use brianscheme.Base.{
  ℕ, zero, suc, ◌<◌, ◌≡◌, refl, ap, ◌∙◌, inl, inr, true, false, some, List, ◌∷◌, ◌++◌, arith, ◌==◌,
  Bool-cases, ==→eq, ==-self, append_assoc, codes,
}
use brianscheme.Object.{Ptr, Data, symbol, fixnum, string, pair, the_empty_list}
use brianscheme.Store.{Store, car, cdr, is_pair, is_hashtab, is_primitive_exception}
use brianscheme.Print.{
  Printer, Writing, said, after, rest_body, pair_body, write_data, owrite, write_pair, print_long,
}
use brianscheme.Syntax.{Term, empty, sym, str, num, join, show, IsKept, Denotes, IsHeld, rounds}
use brianscheme.Syntax.Forms.{
  IsPrintable, IsUnquoted, TailUnquoted, data_written, stem, stem_closed, true_fine, write_form_of,
}

-- The parts of write_pair.
rest_pair :
    (write more : Store → Ptr → Writing) (s : Store) (p : Ptr) (text : List ℕ)
    → is_pair s p ≡ true
    → more s p ≡ said s text
    → rest_body write more s p ≡ said s (b' ' ∷ text)
unfolding rest_body after
rest_pair write more s p text e run = rw (e, run)

rest_other :
    (write more : Store → Ptr → Writing) (s : Store) (p : Ptr) (text : List ℕ)
    → is_pair s p ≡ false
    → (p == s.empty_list) ≡ false
    → write s p ≡ said s text
    → rest_body write more s p ≡ said s (codes " . " ++ text)
unfolding rest_body after
rest_other write more s p text e n run = rw (e, n, run)

pair_of :
    (write more : Store → Ptr → Writing) (s : Store) (p pa pd : Ptr) (text rest : List ℕ)
    → s.object p ≡ pair pa pd
    → write s pa ≡ said s text
    → is_primitive_exception s s.true_object ≡ some false
    → rest_body write more s pd ≡ said s rest
    → pair_body write more s p ≡ said s (text ++ rest)
unfolding pair_body car cdr after
pair_of write more s p pa pd text rest at run ok run' = rw (at, run, ok, run')

not_empty_list :
    (s : Store) (names : List Ptr) (p : Ptr)
    → IsHeld s names
    → ((a b : Ptr) → ¬ (s.object p ≡ the_empty_list a b))
    → (p == s.empty_list) ≡ false
not_empty_list s names p w n = elim (Bool-cases (p == s.empty_list)) [
  | inr e ↦ e
  | inl e ↦
      let (a, b, at) = w.empty_object in
      absurd (n a b (ap (λ (r : Ptr). s.object r) (==→eq p s.empty_list e) ∙ at))
]

abbrev WritesTerm : Printer → Term → Type 0
WritesTerm h v =
    (f : ℕ) (s : Store) (names : List Ptr) (p : Ptr)
    → rounds v < f
    → IsHeld s names
    → IsPrintable s
    → IsUnquoted v
    → Denotes s v p
    → owrite f h s p ≡ said s (show v)

abbrev WritesRest : Printer → Term → Type 0
WritesRest h v =
    (f : ℕ) (s : Store) (names : List Ptr) (p : Ptr)
    → rounds v < f
    → IsHeld s names
    → IsPrintable s
    → TailUnquoted v
    → Denotes s v p
    → rest_body (owrite f h) (write_pair f h) s p ≡ said s (stem v)

-- An object that is written by itself.
atom_written :
    (h : Printer) (f : ℕ) (s : Store) (p : Ptr) (d : Data) (text : List ℕ)
    → IsKept s p
    → s.object p ≡ d
    → is_hashtab (record s { object = λ q. d }) p ≡ false
    → ((write more : Store → Ptr → Writing) → write_data h write more s p d ≡ said s text)
    → owrite (suc f) h s p ≡ said s text
atom_written h f s p d text kept at e run =
    data_written h f s p kept (rw at e)
    ∙ ap (λ (x : Data). write_data h (owrite f h) (write_pair f h) s p x) at
    ∙ run (owrite f h) (write_pair f h)

sym_written : (h : Printer) (t : List ℕ) → WritesTerm h (sym t)
unfolding write_data
sym_written h t zero s names p lt w i u (kept, at) = absurd (omega arith)
sym_written h t (suc f) s names p lt w i u (kept, at) =
    atom_written h f s p (symbol t) t kept at (rw kept.0) (λ write more. refl)

str_written : (h : Printer) (t : List ℕ) → WritesTerm h (str t)
unfolding write_data
str_written h t zero s names p lt w i u (kept, at) = absurd (omega arith)
str_written h t (suc f) s names p lt w i u (kept, at) =
    atom_written h f s p (string t) (show (str t)) kept at (rw kept.0) (λ write more. refl)

num_written : (h : Printer) (n : ℕ) → WritesTerm h (num n)
unfolding write_data
num_written h n zero s names p lt w i u (kept, at) = absurd (omega arith)
num_written h n (suc f) s names p lt w i u (kept, at) =
    atom_written h f s p (fixnum n) (print_long n) kept at (rw kept.0) (λ write more. refl)

empty_written : (h : Printer) → WritesTerm h empty
unfolding write_data
empty_written h zero s names p lt w i u e = absurd (omega arith)
empty_written h (suc f) s names p lt w i u e =
    let (a, b, at) = w.empty_object in
    rw e (
      atom_written h f s s.empty_list (the_empty_list a b) (codes "()") w.empty_kept at
        (rw w.empty_kept.0) (λ write more. refl))

-- The text of a list, without its parentheses.
list_written :
    (h : Printer) (a d : Term) (f : ℕ) (s : Store) (names : List Ptr) (p : Ptr)
    → WritesTerm h a
    → WritesRest h d
    → rounds a < f
    → rounds d < f
    → IsHeld s names
    → IsPrintable s
    → TailUnquoted (join a d)
    → Denotes s (join a d) p
    → write_pair (suc f) h s p ≡ said s (show a ++ stem d)
unfolding write_pair
list_written h a d f s names p writes_a writes_d fa fd w i (ua, ud) (pa, pd, out, at, ha, hd) =
    pair_of (owrite f h) (write_pair f h) s p pa pd (show a) (stem d) at
      (writes_a f s names pa fa w i ua ha) (true_fine i) (writes_d f s names pd fd w i ud hd)

join_written :
    (h : Printer) (a d : Term) → WritesTerm h a → WritesRest h d → WritesTerm h (join a d)
unfolding write_data
join_written h a d writes_a writes_d zero s names p lt w i u k = absurd (omega arith)
join_written h a d writes_a writes_d (suc zero) s names p lt w i u k = absurd (omega arith)
join_written h a d writes_a writes_d (suc (suc f)) s names p lt w i (nq, ua, ud)
      (pa, pd, out, at, ha, hd) =
    let text =
      list_written h a d f s names p writes_a writes_d (omega arith) (omega arith) w i (ua, ud)
        (pa, pd, out, at, ha, hd) in
    data_written h (suc f) s p out (rw (at, out.0))
    ∙ ap (λ (x : Data). write_data h (owrite (suc f) h) (write_pair (suc f) h) s p x) at
    ∙ write_form_of (owrite (suc f) h) (write_pair (suc f) h) s names a pa pd p (show a ++ stem d) w
        i at ha nq text
    ∙ ap (λ (xs : List ℕ). said s (b'(' ∷ xs))
        (append_assoc (show a) (stem d) (codes ")")
          ∙ ap (λ (xs : List ℕ). show a ++ xs) (stem_closed d))

empty_rest : (h : Printer) → WritesRest h empty
unfolding rest_body
empty_rest h f s names p lt w i u e =
    let (a, b, at) = w.empty_object in rw (e, at, w.empty_kept.0, ==-self s.empty_list)

join_rest : (h : Printer) (a d : Term) → WritesTerm h a → WritesRest h d → WritesRest h (join a d)
join_rest h a d writes_a writes_d zero s names p lt w i u k = absurd (omega arith)
join_rest h a d writes_a writes_d (suc f) s names p lt w i u (pa, pd, out, at, ha, hd) =
    rest_pair (owrite (suc f) h) (write_pair (suc f) h) s p (show a ++ stem d) (rw (at, out.0)) (
      list_written h a d f s names p writes_a writes_d (omega arith) (omega arith) w i u
        (pa, pd, out, at, ha, hd))

sym_rest : (h : Printer) (t : List ℕ) → WritesRest h (sym t)
sym_rest h t f s names p lt w i u (kept, at) =
    rest_other (owrite f h) (write_pair f h) s p t (rw (at, kept.0))
      (not_empty_list s names p w (λ a b k. cc)) (sym_written h t f s names p lt w i tt (kept, at))

str_rest : (h : Printer) (t : List ℕ) → WritesRest h (str t)
str_rest h t f s names p lt w i u (kept, at) =
    rest_other (owrite f h) (write_pair f h) s p (show (str t)) (rw (at, kept.0))
      (not_empty_list s names p w (λ a b k. cc)) (str_written h t f s names p lt w i tt (kept, at))

num_rest : (h : Printer) (n : ℕ) → WritesRest h (num n)
num_rest h n f s names p lt w i u (kept, at) =
    rest_other (owrite f h) (write_pair f h) s p (print_long n) (rw (at, kept.0))
      (not_empty_list s names p w (λ a b k. cc)) (num_written h n f s names p lt w i tt (kept, at))

writes_both : (h : Printer) (v : Term) → WritesTerm h v × WritesRest h v
writes_both h empty = (empty_written h, empty_rest h)
writes_both h (sym t) = (sym_written h t, sym_rest h t)
writes_both h (str t) = (str_written h t, str_rest h t)
writes_both h (num n) = (num_written h n, num_rest h n)
writes_both h (join a d) =
    let (writes_a, _) = writes_both h a in
    let (_, rests_d) = writes_both h d in
    (join_written h a d writes_a rests_d, join_rest h a d writes_a rests_d)

-- owrite of an object of a term in which no list starts with a quoting symbol, with enough fuel,
-- writes the term's text, changes nothing and gives #t.
pub owrite-show :
    (h : Printer) (v : Term) (f : ℕ) (s : Store) (names : List Ptr) (p : Ptr)
    → rounds v < f
    → IsHeld s names
    → IsPrintable s
    → IsUnquoted v
    → Denotes s v p
    → owrite f h s p ≡ said s (show v)
owrite-show h v f s names p lt w i u k = (writes_both h v).0 f s names p lt w i u k
