-- ===== src/Syntax/Symbols.antt =====
-- types.c: make_symbol and cons, on the objects that denote terms.
use brianscheme.Base.{
  ℕ, ◌≤◌, ◌<◌, ◌≡◌, Option, refl, inl, inr, some, List, ◌∷◌, arith, ==-self, length, uncons,
}
use brianscheme.Object.{Ptr, Data, symbol, string, fixnum, pair}
use brianscheme.Store.{Store, cons, alloc, make_string, make_fixnum, make_symbol}
use brianscheme.Store.Lists.{IsStore, allocated, alloc_at}
use brianscheme.Store.Symbols.{interned, intern_at, two_free}
use brianscheme.Syntax.{Term, sym, str, num, join, IsKept, Denotes, IsHeld}
use brianscheme.Syntax.Stores.{
  Grown, Grown-refl, Grown-weaken, Grown-allocated, IsHeld-allocated, IsKept-allocated,
  Denotes-allocated, find_symbol-Denotes, entitled-Denotes, entitled-IsListOf, entitled-AllNamed,
}

pub IsHeld-IsStore : {s : Store} {names : List Ptr} → IsHeld s names → IsStore s
IsHeld-IsStore w = record { distinct = w.distinct; empty_kept = w.empty_kept.2 }

-- intern puts the new symbol in front of the table.
module _ (s : Store) (names : List Ptr) (w : IsHeld s names) (q r : Ptr) (ps : List Ptr)
    (e : s.free ≡ q ∷ r ∷ ps) (value : List ℕ) where
  abbrev first : Store
  first = allocated s q (r ∷ ps) (symbol value)

  abbrev second : Store
  second = allocated first r ps (pair q s.symbol_table)

  IsHeld-first : IsHeld first names
  IsHeld-first = IsHeld-allocated s q (r ∷ ps) e (symbol value) names w

  IsHeld-second : IsHeld second names
  IsHeld-second = IsHeld-allocated first r ps refl (pair q s.symbol_table) names IsHeld-first

  symbol_second : Denotes second (sym value) q
  symbol_second =
      Denotes-allocated first r ps refl (pair q s.symbol_table) (sym value) q
        (IsKept-allocated s q (r ∷ ps) e (symbol value) names w, rw (==-self q))

  IsHeld-interned : IsHeld (interned s q r ps value) (q ∷ names)
  IsHeld-interned =
      let w2 = IsHeld-second in
      let kept = rw e at w.empty_kept in
      record {
        distinct = w2.distinct;
        proper = w2.proper;
        empty_object = w2.empty_object;
        empty_kept = w2.empty_kept;
        error_object = w2.error_object;
        error_kept = w2.error_kept;
        table = (
          s.symbol_table,
          (IsKept-allocated first r ps refl (pair q s.symbol_table) names IsHeld-first).2,
          ground (arith, kept.2),
          rw (==-self r),
          entitled-IsListOf second r s.symbol_table names w2.table,
        );
        named =
            (symbol_second.0, (value, symbol_second.1), entitled-AllNamed second r names w2.named);
      }

  Grown-interned : Grown s names 2 (interned s q r ps value)
  Grown-interned =
      let a = Grown-allocated s q (r ∷ ps) e (symbol value) names w in
      let b = Grown-allocated first r ps refl (pair q s.symbol_table) names IsHeld-first in
      record {
        entries = q ∷ names;
        held = IsHeld-interned;
        longer = omega arith;
        room = let x = a.room in let y = b.room in omega arith;
        keeps = λ v p d. entitled-Denotes second r v p (b.keeps v p (a.keeps v p d));
      }

  interned-Denotes : Denotes (interned s q r ps value) (sym value) q
  interned-Denotes = entitled-Denotes second r (sym value) q symbol_second

-- A result of a constructor that denotes a term.
abbrev pub Makes : Store → List Ptr → ℕ → Term → Option (Ptr × Store) → Type 0
Makes s names k v made =
    (p : Ptr) × (s' : Store) × (made ≡ some (p, s')) × Grown s names k s' × Denotes s' v p

pub make_symbol-Makes :
    (fuel : ℕ) (s : Store) (names : List Ptr) (value : List ℕ)
    → IsHeld s names
    → 2 ≤ length s.free
    → length names < fuel
    → Makes s names 2 (sym value) (make_symbol fuel s value)
unfolding make_symbol
make_symbol-Makes fuel s names value w room h =
    elim (find_symbol-Denotes fuel s value s.symbol_table names w.table w.named h) [
      | inr (e, a, found, at, named) ↦
          (a, s, rw (found, at), Grown-weaken (omega arith) (Grown-refl w), named)
      | inl fresh ↦
          let (q, r, ps, e) = two_free s.free room in
          (
            q,
            interned s q r ps value,
            rw fresh (intern_at s q r ps (IsHeld-IsStore w) e value),
            Grown-interned s names w q r ps e value,
            interned-Denotes s names w q r ps e value,
          )
    ]

pub alloc-Grown :
    (s : Store) (names : List Ptr) (d : Data)
    → IsHeld s names
    → 1 ≤ length s.free
    → (q : Ptr) × (s' : Store) × (alloc s d ≡ some (q, s'))
      × Grown s names 1 s'
      × IsKept s' q
      × (s'.object q ≡ d)
      × (s'.error_sym ≡ s.error_sym)
alloc-Grown s names d w room =
    let (q, ps, e) = uncons s.free room in
    (
      q,
      allocated s q ps d,
      alloc_at s q ps d e,
      Grown-allocated s q ps e d names w,
      IsKept-allocated s q ps e d names w,
      rw (==-self q),
      refl,
    )

pub make_string-Makes :
    (s : Store) (names : List Ptr) (value : List ℕ)
    → IsHeld s names
    → 1 ≤ length s.free
    → Makes s names 1 (str value) (make_string s value)
unfolding make_string
make_string-Makes s names value w room =
    let (q, s', made, grown, kept, at, _) = alloc-Grown s names (string value) w room in
    (q, s', made, grown, (kept, at))

pub make_fixnum-Makes :
    (s : Store) (names : List Ptr) (n : ℕ)
    → IsHeld s names
    → 1 ≤ length s.free
    → Makes s names 1 (num n) (make_fixnum s n)
unfolding make_fixnum
make_fixnum-Makes s names n w room =
    let (q, s', made, grown, kept, at, _) = alloc-Grown s names (fixnum n) w room in
    (q, s', made, grown, (kept, at))

pub cons-Makes :
    (s : Store) (names : List Ptr) (a b : Term) (pa pb : Ptr)
    → IsHeld s names
    → 1 ≤ length s.free
    → Denotes s a pa
    → Denotes s b pb
    → Makes s names 1 (join a b) (cons s pa pb)
unfolding cons
cons-Makes s names a b pa pb w room ha hb =
    let (q, s', made, grown, kept, at, _) = alloc-Grown s names (pair pa pb) w room in
    (q, s', made, grown, (pa, pb, kept, at, grown.keeps a pa ha, grown.keeps b pb hb))
