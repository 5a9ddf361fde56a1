-- ===== src/Syntax/Stores.antt =====
-- types.c, on the objects that denote terms: what allocation and make_symbol keep.
use brianscheme.Base.{
  ℕ, zero, suc, ◌+◌, ◌≤◌, ◌<◌, ◌≡◌, ◌⊎◌, ap, ◌∙◌, inl, inr, false, some, none, List, [], ◌∷◌, arith,
  ◌==◌, Bool-cases, ==→eq, ==-self, length,
}
use brianscheme.Base.Members.{mem}
use brianscheme.Object.{Ptr, Data, symbol, lazy_symbol}
use brianscheme.Store.{Store, car, cdr, same_text, find_symbol, is_primitive_exception}
use brianscheme.Store.Lists.{IsListOf, allocated, alloc-IsListOf}
use brianscheme.Store.Symbols.{same_text→eq}
use brianscheme.Read.Datum.{failed}
use brianscheme.Syntax.{Term, empty, sym, str, num, join, IsKept, Denotes, AllNamed, IsHeld}

-- From `s` to `s'`, `k` objects at most were allocated, and `k` entries at most went into the table.
pub record Grown (s : Store) (names : List Ptr) (k : ℕ) (s' : Store) : Type 0 where
  pub entries : List Ptr
  pub held : IsHeld s' entries
  pub longer : length entries ≤ length names + k
  pub room : length s.free ≤ length s'.free + k
  pub keeps : (w : Term) (q : Ptr) → Denotes s w q → Denotes s' w q

pub Grown-refl : {s : Store} {names : List Ptr} → IsHeld s names → Grown s names 0 s
Grown-refl {s} {names} w = record {
  entries = names;
  held = w;
  longer = omega arith;
  room = omega arith;
  keeps = λ v q d. d;
}

pub Grown-trans :
    {s s' s'' : Store} {names : List Ptr} {j k : ℕ} (a : Grown s names j s')
    → Grown s' a.entries k s''
    → Grown s names (j + k) s''
Grown-trans a b = record {
  entries = b.entries;
  held = b.held;
  longer = let x = a.longer in let y = b.longer in omega arith;
  room = let x = a.room in let y = b.room in omega arith;
  keeps = λ v q d. b.keeps v q (a.keeps v q d);
}

-- A step that allocates less than a bound.
pub Grown-weaken :
    {s s' : Store} {names : List Ptr} {j k : ℕ} → j ≤ k → Grown s names j s' → Grown s names k s'
Grown-weaken le a = record {
  entries = a.entries;
  held = a.held;
  longer = let x = a.longer in omega arith;
  room = let x = a.room in omega arith;
  keeps = a.keeps;
}

module _ (s : Store) (q : Ptr) (ps : List Ptr) (e : s.free ≡ q ∷ ps) (d : Data) where
  kept_apart : (p : Ptr) → mem p s.free ≡ false → ((p == q) ≡ false) × (mem p ps ≡ false)
  kept_apart p out = let out' = rw e at out in (ground arith, ground arith)

  pub IsKept-alloc :
      (p : Ptr)
      → IsKept s p
      → IsKept (allocated s q ps d) p × ((allocated s q ps d).object p ≡ s.object p)
  IsKept-alloc p (t, n, out) = let (apart, out') = kept_apart p out in ((t, n, out'), rw apart)

  pub Denotes-allocated : (v : Term) (p : Ptr) → Denotes s v p → Denotes (allocated s q ps d) v p
  Denotes-allocated empty p h = h
  Denotes-allocated (sym t) p h = let (kept, same) = IsKept-alloc p h.0 in (kept, same ∙ h.1)
  Denotes-allocated (str t) p h = let (kept, same) = IsKept-alloc p h.0 in (kept, same ∙ h.1)
  Denotes-allocated (num n) p h = let (kept, same) = IsKept-alloc p h.0 in (kept, same ∙ h.1)
  Denotes-allocated (join a b) p (pa, pd, out, at, ha, hd) =
      let (kept, same) = IsKept-alloc p out in
      (pa, pd, kept, same ∙ at, Denotes-allocated a pa ha, Denotes-allocated b pd hd)

  AllNamed-allocated : (xs : List Ptr) → AllNamed s xs → AllNamed (allocated s q ps d) xs
  AllNamed-allocated [] h = tt
  AllNamed-allocated (x ∷ xs) (out, (t, at), rest) =
      let (kept, same) = IsKept-alloc x out in (kept, (t, same ∙ at), AllNamed-allocated xs rest)

  pub IsHeld-allocated : (names : List Ptr) → IsHeld s names → IsHeld (allocated s q ps d) names
  IsHeld-allocated names w =
      let distinct = rw e at w.distinct in
      let (a, b, at) = w.empty_object in
      let (kept, same) = IsKept-alloc s.empty_list w.empty_kept in
      let (n, lazy) = w.error_object in
      let (apart, out) = kept_apart s.error_sym w.error_kept in
      record {
        distinct = distinct.1;
        proper = λ p m. w.proper p (rw e (ground arith));
        empty_object = (a, b, same ∙ at);
        empty_kept = kept;
        error_object = (n, rw apart lazy);
        error_kept = out;
        table = alloc-IsListOf s q ps d e s.symbol_table names w.table;
        named = AllNamed-allocated names w.named;
      }

  pub Grown-allocated : (names : List Ptr) → IsHeld s names → Grown s names 1 (allocated s q ps d)
  Grown-allocated names w = record {
    entries = names;
    held = IsHeld-allocated names w;
    longer = omega arith;
    room = let size = ap (λ (ys : List Ptr). length ys) e in omega arith;
    keeps = Denotes-allocated;
  }

  -- The new object is none of those that are left.
  pub IsKept-allocated : (names : List Ptr) → IsHeld s names → IsKept (allocated s q ps d) q
  IsKept-allocated names w =
      let (t, n) = w.proper q (rw e (rw (==-self q))) in
      let distinct = rw e at w.distinct in (t, n, distinct.0)

no_lazy :
    {s : Store} {names : List Ptr}
    → IsHeld s names
    → (v : Term) (p : Ptr) (n : ℕ) → Denotes s v p
    → ¬ (s.object p ≡ lazy_symbol n)
no_lazy w empty p n h k = let (a, b, at) = w.empty_object in let k' = rw h at k in cc
no_lazy w (sym t) p n h k = let at = h.1 in cc
no_lazy w (str t) p n h k = let at = h.1 in cc
no_lazy w (num m) p n h k = let at = h.1 in cc
no_lazy w (join a b) p n (pa, pd, out, at, ha, hd) k = cc

no_error :
    {s : Store} {names : List Ptr}
    → IsHeld s names
    → (v : Term) (p : Ptr) → Denotes s v p
    → (p == s.error_sym) ≡ false
no_error {s} w v p h = elim (Bool-cases (p == s.error_sym)) [
  | inr e ↦ e
  | inl e ↦
      let (n, lazy) = w.error_object in
      absurd (no_lazy w v p n h (ap (λ (q : Ptr). s.object q) (==→eq p s.error_sym e) ∙ lazy))
]

-- An object that denotes a term is no exception.
pub failed-Denotes :
    {s : Store} {names : List Ptr}
    → IsHeld s names
    → (v : Term) (p : Ptr) → Denotes s v p
    → failed s p ≡ some false
unfolding failed is_primitive_exception car
failed-Denotes w empty p h =
    let (t, n, out) = w.empty_kept in let (a, b, at) = w.empty_object in rw (h, n, t, at)
failed-Denotes w (sym t) p h = let (tag, n, out) = h.0 in rw (n, tag, h.1)
failed-Denotes w (str t) p h = let (tag, n, out) = h.0 in rw (n, tag, h.1)
failed-Denotes w (num k) p h = let (tag, n, out) = h.0 in rw (n, tag, h.1)
failed-Denotes w (join a b) p (pa, pd, (tag, n, out), at, ha, hd) =
    rw (n, tag, at, no_error w a pa ha)

-- find_symbol ends: with no entry, or at an entry whose symbol has the text.
pub find_symbol-Denotes :
    (fuel : ℕ) (s : Store) (value : List ℕ) (p : Ptr) (xs : List Ptr)
    → IsListOf s p xs
    → AllNamed s xs
    → length xs < fuel
    → (find_symbol fuel s value p ≡ some none)
      ⊎ ((e : Ptr) × (a : Ptr) × (find_symbol fuel s value p ≡ some (some e))
          × (car s e ≡ some a)
          × Denotes s (sym value) a)
unfolding find_symbol car cdr
find_symbol-Denotes zero s value p xs l n h = absurd (omega arith)
find_symbol-Denotes (suc fuel) s value p [] l n h = inl (rw (l, ==-self s.empty_list))
find_symbol-Denotes (suc fuel) s value p (x ∷ xs) (d, out, ne, cell, rest) (kept, (t, at), n) h =
    elim (Bool-cases (same_text t value)) [
      | inl e ↦
          inr (p, x, rw (ne, cell, at, e), rw cell, (kept, at ∙ ap symbol (same_text→eq t value e)))
      | inr e ↦
          let later = find_symbol-Denotes fuel s value d xs rest n (omega arith) in
          rw (ne, cell, at, e) later
    ]

abbrev pub entitled : Store → Ptr → Store
entitled s r = record s { symbol_table = r }

pub entitled-Denotes :
    (s : Store) (r : Ptr) (v : Term) (p : Ptr) → Denotes s v p → Denotes (entitled s r) v p
entitled-Denotes s r empty p h = h
entitled-Denotes s r (sym t) p h = h
entitled-Denotes s r (str t) p h = h
entitled-Denotes s r (num n) p h = h
entitled-Denotes s r (join a b) p (pa, pd, out, at, ha, hd) =
    (pa, pd, out, at, entitled-Denotes s r a pa ha, entitled-Denotes s r b pd hd)

pub entitled-IsListOf :
    (s : Store) (r p : Ptr) (xs : List Ptr) → IsListOf s p xs → IsListOf (entitled s r) p xs
entitled-IsListOf s r p [] l = l
entitled-IsListOf s r p (x ∷ xs) (d, out, ne, cell, rest) =
    (d, out, ne, cell, entitled-IsListOf s r d xs rest)

pub entitled-AllNamed :
    (s : Store) (r : Ptr) (xs : List Ptr) → AllNamed s xs → AllNamed (entitled s r) xs
entitled-AllNamed s r [] h = tt
entitled-AllNamed s r (x ∷ xs) h = (h.0, h.1, entitled-AllNamed s r xs h.2)
