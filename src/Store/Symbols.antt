-- ===== src/Store/Symbols.antt =====
-- make_symbol of types.c: a text has one symbol.
use brianscheme.Base.{
  ℕ, zero, suc, ◌≤◌, ◌<◌, ◌≡◌, refl, ap, ◌∙◌, ◌⊎◌, inl, inr, false, true, some, none, List, [], ◌∷◌,
  arith, ◌==◌, Bool-cases, ==→eq, ==-self, length,
}
use brianscheme.Object.{Ptr, pair, symbol}
use brianscheme.Store.{
  Store, write, alloc, car, cdr, cons, same_text, symbol_text, find_symbol, intern, make_symbol,
}
use brianscheme.Store.Lists.{IsListOf, IsStore, allocated}

pub same_text_self : (xs : List ℕ) → same_text xs xs ≡ true
same_text_self [] = refl
same_text_self (x ∷ xs) = rw (==-self x) (same_text_self xs)

pub same_text→eq : (xs ys : List ℕ) → same_text xs ys ≡ true → xs ≡ ys
same_text→eq [] [] h = refl
same_text→eq [] (y ∷ ys) h = cc
same_text→eq (x ∷ xs) [] h = cc
same_text→eq (x ∷ xs) (y ∷ ys) h = elim (Bool-cases (x == y)) [
  | inl e ↦ let tails = same_text→eq xs ys (rw e at h) in let heads = ==→eq x y e in cc
  | inr e ↦ let h' = rw e at h in cc
]

-- Every object of the list is a symbol.
abbrev pub AllSymbols : Store → List Ptr → Type 0
AllSymbols s [] = Unit
AllSymbols s (x ∷ xs) = ((text : List ℕ) × (symbol_text (s.object x) ≡ some text)) × AllSymbols s xs

-- The symbol table lists symbols.
pub record IsTable (s : Store) (xs : List Ptr) : Type 0 where
  pub store : IsStore s
  pub table : IsListOf s s.symbol_table xs
  pub symbols : AllSymbols s xs

-- find_symbol ends: with no entry, or at an entry for a symbol of the text.
find_symbol_lem :
    (fuel : ℕ) (s : Store) (value : List ℕ) (p : Ptr) (xs : List Ptr)
    → IsListOf s p xs
    → AllSymbols s xs
    → length xs < fuel
    → (find_symbol fuel s value p ≡ some none)
      ⊎ ((e : Ptr) × (a : Ptr) × (find_symbol fuel s value p ≡ some (some e))
          × (car s e ≡ some a)
          × (symbol_text (s.object a) ≡ some value))
unfolding find_symbol car cdr
find_symbol_lem zero s value p xs l n h = absurd (omega arith)
find_symbol_lem (suc fuel) s value p [] l n h = inl (rw (l, ==-self s.empty_list))
find_symbol_lem (suc fuel) s value p (x ∷ xs) (d, out, ne, cell, rest) ((text, named), n) h =
    elim (Bool-cases (same_text text value)) [
      | inl e ↦
          inr (p, x, rw (ne, cell, named, e), rw cell, named ∙ ap some (same_text→eq text value e))
      | inr e ↦
          let later = find_symbol_lem fuel s value d xs rest n (omega arith) in
          rw (ne, cell, named, e) later
    ]

abbrev pub interned : Store → Ptr → Ptr → List Ptr → List ℕ → Store
interned s q r ps value =
    record (allocated (allocated s q (r ∷ ps) (symbol value)) r ps (pair q s.symbol_table)) {
      symbol_table = r;
    }

pub two_free :
    (xs : List Ptr) → 2 ≤ length xs → (q : Ptr) × (r : Ptr) × (ps : List Ptr) × (xs ≡ q ∷ r ∷ ps)
two_free [] h = elim h [ ]
two_free (q ∷ []) h = absurd (omega arith)
two_free (q ∷ r ∷ ps) h = (q, r, ps, refl)

-- The new symbol and its entry in the table are different objects, and no entry is the empty list.
module _ (s : Store) (q r : Ptr) (ps : List Ptr) (w : IsStore s) (e : s.free ≡ q ∷ r ∷ ps) where
  apart : (q == r) ≡ false
  apart = let d = rw e at w.distinct in ground (arith, d.0)

  entry_of_none : (r == s.empty_list) ≡ false
  entry_of_none = let k = rw e at w.empty_kept in ground (arith, k)

  pub intern_at : (value : List ℕ) → intern s value ≡ some (q, interned s q r ps value)
  unfolding intern cons alloc write
  intern_at value = rw e

  interned_text : (value : List ℕ) → symbol_text ((interned s q r ps value).object q) ≡ some value
  interned_text value = rw (apart, ==-self q)

  find_interned :
      (fuel : ℕ) (value : List ℕ)
      → find_symbol (suc fuel) (interned s q r ps value) value r ≡ some (some r)
  unfolding find_symbol car cdr
  find_interned fuel value = rw (entry_of_none, ==-self r, apart, ==-self q, same_text_self value)

  car-interned : (value : List ℕ) → car (interned s q r ps value) r ≡ some q
  unfolding car
  car-interned value = rw (==-self r)

-- make_symbol, with a table of symbols, two free objects and more fuel than the table has entries,
-- gives a symbol of the text, and gives the same object when it is called again.
pub make_symbol_lem :
    (fuel : ℕ) (s : Store) (value : List ℕ) (xs : List Ptr)
    → IsTable s xs
    → 2 ≤ length s.free
    → length xs < fuel
    → (p : Ptr) × (s' : Store) × (make_symbol fuel s value ≡ some (p, s'))
      × (symbol_text (s'.object p) ≡ some value)
      × (make_symbol fuel s' value ≡ some (p, s'))
unfolding make_symbol
make_symbol_lem zero s value xs w room h = absurd (omega arith)
make_symbol_lem (suc fuel) s value xs w room h =
    elim (find_symbol_lem (suc fuel) s value s.symbol_table xs w.table w.symbols h) [
      | inr (e, a, found, at, named) ↦ (a, s, rw (found, at), named, rw (found, at))
      | inl fresh ↦
          let (q, r, ps, e) = two_free s.free room in
          (
            q,
            interned s q r ps value,
            rw fresh (intern_at s q r ps w.store e value),
            interned_text s q r ps w.store e value,
            rw (find_interned s q r ps w.store e fuel value, car-interned s q r ps w.store e value),
          )
    ]
