-- ===== src/Vm/Opcodes.antt =====
-- vm.c: the opcodes' names and their labels. The entries of the table are given as two lists, of the
-- symbols that vm_init made of the names and of the names; dispatch_table holds an alien for each.
mod Examples
use brianscheme.Base.{
  ℕ, ◌+◌, ◌≤◌, ◌≡◌, refl, ap, ◌∙◌, ◌⊎◌, inl, inr, false, Option, some, List, [], ◌∷◌, if◌then◌else◌,
  ◌>>=◌, get_elem?, codes, ◌==◌, ==-self, ==→eq, ne→==, Bool-cases, arith,
}
use brianscheme.Object.{Ptr}
use brianscheme.Store.{Store, varray, make_symbol}
use brianscheme.Interp.Primitives.{Primitive, argument}
use brianscheme.Vm.Bytecode.{alien_ptr}

-- The opcodes, in the order of opcode_table.
abbrev pub bytecode_str : List (List ℕ)
bytecode_str =
    codes "pushvarargs"
    ∷ codes "chainframe"
    ∷ codes "endframe"
    ∷ codes "argcheck"
    ∷ codes "spush"
    ∷ codes "sset"
    ∷ codes "swap"
    ∷ codes "return"
    ∷ codes "cconst"
    ∷ codes "fn"
    ∷ codes "fjump"
    ∷ codes "tjump"
    ∷ codes "jump"
    ∷ codes "callj"
    ∷ codes "lvar"
    ∷ codes "save"
    ∷ codes "gvar"
    ∷ codes "lset"
    ∷ codes "gset"
    ∷ codes "setcc"
    ∷ codes "cc"
    ∷ codes "pop"
    ∷ codes "cons"
    ∷ codes "car"
    ∷ codes "cdr"
    ∷ codes "setcar"
    ∷ codes "setcdr"
    ∷ []

-- The tests that opcode_table makes of symbol_to_code, from the opcode number i on.
unfoldable pub find_code : Store → List Ptr → ℕ → List Ptr → Ptr → Option Ptr
find_code s table i [] obj = some s.false_object
find_code s table i (op ∷ ops) obj =
    let rest = find_code s table (i + 1) ops obj in if obj == op then get_elem? table i else rest

unfoldable pub symbol_to_code : Ptr → List Ptr → Store → Ptr → Option Ptr
unfolding find_code varray
symbol_to_code dispatch_table ops s obj = do
  table ← varray s dispatch_table
  find_code s table 0 ops obj

unfoldable pub symbol_to_code_proc : Ptr → List Ptr → Primitive
unfolding symbol_to_code
symbol_to_code_proc dispatch_table ops s args n top = do
  first ← argument 0 args n top
  found ← symbol_to_code dispatch_table ops s first
  some (found, s)

-- The tests that opcode_table makes of code_to_symbol_proc.
unfoldable pub find_name : ℕ → Store → List Ptr → ℕ → List (List ℕ) → ℕ → Option (Ptr × Store)
unfolding make_symbol
find_name fuel s table i [] code = some (s.false_object, s)
find_name fuel s table i (name ∷ names) code =
    let rest = find_name fuel s table (i + 1) names code in
    let found = make_symbol fuel s name in
    do entry ← get_elem? table i; label ← alien_ptr s entry; (if code == label then found else rest)

unfoldable pub code_to_symbol_proc : ℕ → Ptr → Primitive
unfolding find_name varray
code_to_symbol_proc fuel dispatch_table s args n top = do
  first ← argument 0 args n top
  code ← alien_ptr s first
  table ← varray s dispatch_table
  find_name fuel s table 0 bytecode_str code

-- The label of an entry.
abbrev pub label_at : Store → List Ptr → ℕ → Option ℕ
label_at s table i = do entry ← get_elem? table i; alien_ptr s entry

-- From the opcode number i on, the table has a label for each name, and the symbol of the name is
-- interned.
abbrev pub Covers : ℕ → Store → List Ptr → ℕ → List Ptr → List (List ℕ) → Type 0
Covers fuel s table i [] [] = Unit
Covers fuel s table i (op ∷ ops) (name ∷ names) =
    ((entry : Ptr) × (label : ℕ) × (get_elem? table i ≡ some entry)
      × (alien_ptr s entry ≡ some label)
      × (make_symbol fuel s name ≡ some (op, s)))
    × Covers fuel s table (i + 1) ops names
Covers fuel s table i _ _ = ⊥

-- No two entries have the same label.
abbrev pub AreDistinct : Store → List Ptr → Type 0
AreDistinct s table =
    (i j label : ℕ) → label_at s table i ≡ some label → label_at s table j ≡ some label → i ≡ j

-- The symbol is one of the list.
abbrev pub IsOpcode : Ptr → List Ptr → Type 0
IsOpcode obj [] = ⊥
IsOpcode obj (op ∷ ops) = (obj ≡ op) ⊎ IsOpcode obj ops

-- The entry that is found, its number j, and the way back from its label.
found_back :
    (fuel : ℕ) (s : Store) (table : List Ptr) (i : ℕ) (ops : List Ptr) (names : List (List ℕ))
    (obj : Ptr)
    → Covers fuel s table i ops names
    → AreDistinct s table
    → IsOpcode obj ops
    → (entry : Ptr) × (label : ℕ) × (j : ℕ) × (find_code s table i ops obj ≡ some entry)
      × (alien_ptr s entry ≡ some label)
      × (get_elem? table j ≡ some entry)
      × (i ≤ j)
      × (find_name fuel s table i names label ≡ some (obj, s))
unfolding find_code find_name
found_back fuel s table i [] [] obj c d m = absurd m
found_back fuel s table i [] (name ∷ names) obj c d m = elim c [ ]
found_back fuel s table i (op ∷ ops) [] obj c d m = elim c [ ]
found_back fuel s table i (op ∷ ops) (name ∷ names) obj ((e, w, at, labelled, made), c) d m =
    elim (Bool-cases (obj == op)) [
      | inl h ↦ (
        e,
        w,
        i,
        rw (h, at),
        labelled,
        at,
        omega arith,
        rw (at, labelled, ==-self w, made) (rw (==→eq obj op h) refl),
      )
      | inr h ↦
          let later : IsOpcode obj ops = elim m [
            | inl q ↦ absurd (ground (arith, q, h))
            | inr k ↦ k
          ] in
          let (entry, label, j, found, its, place, after, back) =
            found_back fuel s table (i + 1) ops names obj c d later in
          let other : (label == w) ≡ false =
            ne→== label w
              λ q. omega (arith, d i j w (rw at labelled) (rw place (its ∙ ap some q))) in
          (
            entry,
            label,
            j,
            rw (h, found),
            its,
            place,
            omega arith,
            rw (at, labelled, other, back) refl,
          )
    ]

-- When dispatch_table has distinct labels for the opcodes and their names are interned, a symbol that
-- names an opcode has a code, symbol_to_code_proc gives it, and code_to_symbol_proc gives the symbol
-- back for that code.
pub code_to_symbol_proc-symbol_to_code_proc :
    (fuel : ℕ) (s : Store) (dispatch_table : Ptr) (ops : List Ptr) (args : List Ptr)
    → (n top : ℕ) → {obj : Ptr} → {table : List Ptr} → argument 0 args n top ≡ some obj
    → varray s dispatch_table ≡ some table
    → Covers fuel s table 0 ops bytecode_str
    → AreDistinct s table
    → IsOpcode obj ops
    → (entry : Ptr) × (label : ℕ) × (symbol_to_code_proc dispatch_table ops s args n top
        ≡ some (entry, s))
      × (alien_ptr s entry ≡ some label)
      × (code_to_symbol_proc fuel dispatch_table s (entry ∷ []) 1 1 ≡ some (obj, s))
unfolding symbol_to_code_proc symbol_to_code code_to_symbol_proc
code_to_symbol_proc-symbol_to_code_proc fuel s dispatch_table ops args n top {obj = obj}
      {table = table} first at c d m =
    let (entry, label, j, found, its, place, after, back) =
      found_back fuel s table 0 ops bytecode_str obj c d m in
    (entry, label, rw (first, at, found) refl, its, rw (its, at, back))
