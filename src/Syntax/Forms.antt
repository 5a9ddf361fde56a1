-- ===== src/Syntax/Forms.antt =====
-- interp.c: what owrite does with a list, and with any other object that denotes a term.
use brianscheme.Base.{
  ℕ, suc, ◌≡◌, refl, ap, ◌∙◌, inl, inr, false, some, List, [], ◌∷◌, ◌++◌, ◌==◌, Bool-cases, ==→eq,
  append_assoc, codes,
}
use brianscheme.Object.{Ptr, tagged, boolean, symbol, pair}
use brianscheme.Store.{Store, car, is_hashtab, is_primitive_exception, same_text}
use brianscheme.Store.Symbols.{same_text_self}
use brianscheme.Print.{
  Printer, Writing, said, around, write_form, write_data, write_body, owrite, write_pair,
}
use brianscheme.Syntax.{Term, empty, sym, str, num, join, show, tail, IsKept, Denotes, IsHeld}

-- A term other than the symbol of a text.
abbrev pub Differs : Term → List ℕ → Type 0
Differs (sym t) u = same_text t u ≡ false
Differs _ u = Unit

-- None of the symbols at which owrite abbreviates a list.
abbrev pub NotQuoting : Term → Type 0
NotQuoting a =
    Differs a (codes "quote")
    × Differs a (codes "unquote")
    × Differs a (codes "unquotesplicing")
    × Differs a (codes "quasiquote")

-- No list starts with a quoting symbol.
abbrev mutual
  pub IsUnquoted : Term → Type 0
  IsUnquoted (join a d) = NotQuoting a × IsUnquoted a × TailUnquoted d
  IsUnquoted _ = Unit

  pub TailUnquoted : Term → Type 0
  TailUnquoted (join a d) = IsUnquoted a × TailUnquoted d
  TailUnquoted _ = Unit

-- What init makes of the symbols and of #t, as far as the printer looks.
pub record IsPrintable (s : Store) : Type 0 where
  pub truth : s.object s.true_object ≡ boolean 1
  pub quote : s.object s.quote_symbol ≡ symbol (codes "quote")
  pub unquote : s.object s.unquote_symbol ≡ symbol (codes "unquote")
  pub splice : s.object s.unquotesplicing_symbol ≡ symbol (codes "unquotesplicing")
  pub quasiquote : s.object s.quasiquote_symbol ≡ symbol (codes "quasiquote")

-- The text of a list without its parentheses, from the first cdr on.
abbrev pub stem : Term → List ℕ
stem empty = []
stem (join a d) = codes " " ++ (show a ++ stem d)
stem v = codes " . " ++ show v

pub stem_closed : (v : Term) → stem v ++ codes ")" ≡ tail v
stem_closed empty = refl
stem_closed (sym t) = refl
stem_closed (str t) = refl
stem_closed (num n) = refl
stem_closed (join a d) =
    ap (λ (xs : List ℕ). b' ' ∷ xs)
      (append_assoc (show a) (stem d) (codes ")")
        ∙ ap (λ (xs : List ℕ). show a ++ xs) (stem_closed d))

pub true_fine : {s : Store} → IsPrintable s → is_primitive_exception s s.true_object ≡ some false
unfolding is_primitive_exception
true_fine {s} i = elim (Bool-cases (tagged s.true_object)) [
  | inl e ↦ rw (i.truth, e)
  | inr e ↦ rw (i.truth, e)
]

around_of :
    (write : Store → Ptr → Writing) (s : Store) (before : List ℕ) (obj : Ptr) (behind text : List ℕ)
    → write s obj ≡ said s text
    → is_primitive_exception s s.true_object ≡ some false
    → around write s before obj behind ≡ said s (before ++ (text ++ behind))
unfolding around
around_of write s before obj behind text e ok = rw (e, ok)

-- An object that denotes another term is not the symbol of the text.
other_head :
    (s : Store) (names : List Ptr) (a : Term) (p q : Ptr) (u : List ℕ)
    → IsHeld s names
    → s.object q ≡ symbol u
    → Denotes s a p
    → Differs a u
    → (p == q) ≡ false
other_head s names a p q u w hq h apart = elim (Bool-cases (p == q)) [
  | inr e ↦ e
  | inl e ↦ absurd (clash a h apart (ap (λ (r : Ptr). s.object r) (==→eq p q e) ∙ hq))
]
  where
    clash : (b : Term) → Denotes s b p → Differs b u → ¬ (s.object p ≡ symbol u)
    clash empty k d m = let (x, y, at) = w.empty_object in let m' = rw k at m in cc
    clash (sym t) k d m =
        let at = k.1 in
        let same : t ≡ u = cc in let d' = rw same at d in let z = same_text_self u in cc
    clash (str t) k d m = let at = k.1 in cc
    clash (num n) k d m = let at = k.1 in cc
    clash (join b c) (pb, pc, out, at, hb, hc) d m = cc

-- A list that starts with no quoting symbol is written in parentheses.
pub write_form_of :
    (write more : Store → Ptr → Writing) (s : Store) (names : List Ptr) (a : Term) (pa pd p : Ptr)
    (text : List ℕ)
    → IsHeld s names
    → IsPrintable s
    → s.object p ≡ pair pa pd
    → Denotes s a pa
    → NotQuoting a
    → more s p ≡ said s text
    → write_form write more s p ≡ said s (b'(' ∷ (text ++ codes ")"))
unfolding write_form car
write_form_of write more s names a pa pd p text w i at ha (n1, n2, n3, n4) e =
    rw
      (
        at,
        other_head s names a pa s.quote_symbol _ w i.quote ha n1,
        other_head s names a pa s.unquote_symbol _ w i.unquote ha n2,
        other_head s names a pa s.unquotesplicing_symbol _ w i.splice ha n3,
        other_head s names a pa s.quasiquote_symbol _ w i.quasiquote ha n4,
      )
      (around_of more s (codes "(") p (codes ")") text e (true_fine i))

pub data_written :
    (h : Printer) (f : ℕ) (s : Store) (p : Ptr)
    → IsKept s p
    → is_hashtab s p ≡ false
    → owrite (suc f) h s p ≡ write_data h (owrite f h) (write_pair f h) s p (s.object p)
unfolding owrite write_body
data_written h f s p (t, n, out) e = rw (n, e, t)
