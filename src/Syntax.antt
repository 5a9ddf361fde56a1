-- ===== src/Syntax.antt =====
-- The data that read.c reads and interp.c prints, as terms: what text stands for one, and which
-- objects of a store do.
pub mod Numbers
pub mod Scans
pub mod Atoms
pub mod Reads
pub mod Forms
pub mod Steps
pub mod Stores
pub mod Symbols
pub mod Writes
pub mod Errors
mod Examples
pub mod RoundTrip
use brianscheme.Base.{
  ℕ, zero, suc, ◌+◌, ◌<◌, ◌^◌, ◌≡◌, true, false, List, [], ◌∷◌, ◌++◌, ◌==◌, length, codes,
}
use brianscheme.Base.Members.{mem, Nodup}
use brianscheme.Object.{
  Ptr, null, tagged, Data, symbol, lazy_symbol, fixnum, string, pair, the_empty_list,
}
use brianscheme.Store.{Store}
use brianscheme.Store.Lists.{IsListOf}
use brianscheme.Read.{is_initial, is_symbol_char}
use brianscheme.Print.{print_long, escape}

-- The empty list, a symbol, a string, a fixnum by its 64-bit pattern, and a pair.
pub data Term : Type 0 where
  empty : Term
  sym : List ℕ → Term
  str : List ℕ → Term
  num : ℕ → Term
  join : Term → Term → Term

abbrev pub SymbolChars : List ℕ → Type 0
SymbolChars [] = Unit
SymbolChars (c ∷ cs) = (is_symbol_char c ≡ true) × SymbolChars cs

-- A symbol that the reader can read anywhere: no longer than its buffer, and not with a point in
-- front, which after the first element of a list would be taken for a dotted pair.
abbrev pub IsName : List ℕ → Type 0
IsName [] = ⊥
IsName (c ∷ cs) =
    (is_initial c ≡ true) × ((c == b'.') ≡ false) × SymbolChars (c ∷ cs) × (length (c ∷ cs) < 1000)

abbrev pub NoZero : List ℕ → Type 0
NoZero [] = Unit
NoZero (c ∷ cs) = ((c == 0) ≡ false) × NoZero cs

-- A term whose parts the reader's buffers can hold.
abbrev pub IsPlain : Term → Type 0
IsPlain empty = Unit
IsPlain (sym t) = IsName t
IsPlain (str t) = NoZero t × (length t < 1000)
IsPlain (num n) = n < 2 ^ 64
IsPlain (join a d) = IsPlain a × IsPlain d

-- The text of a term: `inner` is what follows a parenthesis, `tail` what follows a pair's car.
abbrev mutual
  pub show : Term → List ℕ
  show empty = codes "()"
  show (sym t) = t
  show (str t) = 34 ∷ (escape t ++ 34 ∷ [])
  show (num n) = print_long n
  show (join a d) = b'(' ∷ (show a ++ tail d)

  pub tail : Term → List ℕ
  tail empty = codes ")"
  tail (join a d) = b' ' ∷ (show a ++ tail d)
  tail (sym t) = codes " . " ++ (t ++ codes ")")
  tail (str t) = codes " . " ++ ((34 ∷ (escape t ++ 34 ∷ [])) ++ codes ")")
  tail (num n) = codes " . " ++ (print_long n ++ codes ")")

-- An address of an object that alloc_object will not hand out.
abbrev pub IsKept : Store → Ptr → Type 0
IsKept s p = (tagged p ≡ false) × ((p == null) ≡ false) × (mem p s.free ≡ false)

-- The object at `p` is the term.
abbrev pub Denotes : Store → Term → Ptr → Type 0
Denotes s empty p = p ≡ s.empty_list
Denotes s (sym t) p = IsKept s p × (s.object p ≡ symbol t)
Denotes s (str t) p = IsKept s p × (s.object p ≡ string t)
Denotes s (num n) p = IsKept s p × (s.object p ≡ fixnum n)
Denotes s (join a d) p =
    (pa : Ptr) × (pd : Ptr) × IsKept s p
    × (s.object p ≡ pair pa pd)
    × Denotes s a pa
    × Denotes s d pd

-- Every entry of the symbol table is a symbol.
abbrev pub AllNamed : Store → List Ptr → Type 0
AllNamed s [] = Unit
AllNamed s (x ∷ xs) = IsKept s x × ((t : List ℕ) × (s.object x ≡ symbol t)) × AllNamed s xs

-- What init sets up and allocation keeps: the free objects are distinct and proper, the empty list
-- and error_sym are the objects that they should be, and the symbol table lists `names`.
pub record IsHeld (s : Store) (names : List Ptr) : Type 0 where
  pub distinct : Nodup s.free
  pub proper : (q : Ptr) → mem q s.free ≡ true → (tagged q ≡ false) × ((q == null) ≡ false)
  pub empty_object : (a : Ptr) × (b : Ptr) × (s.object s.empty_list ≡ the_empty_list a b)
  pub empty_kept : IsKept s s.empty_list
  pub error_object : (n : ℕ) × (s.object s.error_sym ≡ lazy_symbol n)
  pub error_kept : mem s.error_sym s.free ≡ false
  pub table : IsListOf s s.symbol_table names
  pub named : AllNamed s names

-- How many objects a term takes at most.
abbrev pub cost : Term → ℕ
cost empty = 0
cost (sym t) = 2
cost (str t) = 1
cost (num n) = 1
cost (join a d) = suc (cost a + cost d)

-- Rounds of the reader and the printer.
abbrev pub rounds : Term → ℕ
rounds empty = 1
rounds (join a d) = suc (suc (rounds a + rounds d))
rounds _ = 1
