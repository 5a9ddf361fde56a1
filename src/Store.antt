-- ===== src/Store.antt =====
-- types.c: the constructors, predicates and accessors of Scheme objects over a store of objects.
-- A read through the wrong member of the union has no result.
pub mod Blank
mod Examples
pub mod Lists
pub mod Symbols
pub mod Types
use brianscheme.Base.{
  ℕ, zero, suc, ◌+◌, Bool, true, false, not, ◌&&◌, Option, none, some, List, [], ◌∷◌, ◌==◌,
  if◌then◌else◌, ◌>>=◌, get_elem?, replicate, set, length, ltb,
}
use brianscheme.HashTab.{
  Bucket, HashTab, Iter, htb_init, htb_search, htb_insert, htb_remove, htb_iter_init, htb_iter_inc,
}
use brianscheme.Object.{
  Ptr, null, tagged, Data, boolean, symbol, lazy_symbol, fixnum, string, pair, vector, hash_table,
  meta_proc, primitive_proc, compound_proc, compiled_proc, compiled_syntax_proc, the_empty_list,
}

-- The objects, those that alloc_object will hand out, in order, and the members of global_state
-- that types.c, interp.c
-- and vm.c use; `global_env` is its `env`.
pub record Store : Type 0 where
  pub object : Ptr → Data
  pub free : List Ptr
  pub empty_list : Ptr
  pub false_object : Ptr
  pub true_object : Ptr
  pub eof : Ptr
  pub error_sym : Ptr
  pub empty_vector : Ptr
  pub all_characters : Ptr
  pub symbol_table : Ptr
  pub next_uninterned_symbol : ℕ
  pub cc_bytecode : Ptr
  pub vm_error_restart : Ptr
  pub quote_symbol : Ptr
  pub quasiquote_symbol : Ptr
  pub unquote_symbol : Ptr
  pub unquotesplicing_symbol : Ptr
  pub set_symbol : Ptr
  pub if_symbol : Ptr
  pub begin_symbol : Ptr
  pub lambda_symbol : Ptr
  pub global_env : Ptr
  pub vm_env : Ptr

-- A write of an object's type and union.
unfoldable pub write : Store → Ptr → Data → Store
write s p d = record s { object = λ q. if q == p then d else s.object q }

-- alloc_object, with the members that the caller writes next.
unfoldable pub alloc : Store → Data → Option (Ptr × Store)
unfolding write
alloc s d = elim s.free [ [] ↦ none | p ∷ ps ↦ some (p, write (record s { free = ps }) p d) ]

abbrev pub is_the_empty_list : Store → Ptr → Bool
is_the_empty_list s obj = obj == s.empty_list

-- The tests of a type that a tagged pointer never has.
abbrev pub has_type : (Data → Bool) → Store → Ptr → Bool
has_type test s obj = not (tagged obj) && test (s.object obj)

abbrev pub is_boolean : Store → Ptr → Bool
is_boolean = has_type λ d. elim d [ boolean v ↦ true | _ ↦ false ]

abbrev pub is_symbol : Store → Ptr → Bool
is_symbol = has_type λ d. elim d [ symbol v ↦ true | lazy_symbol n ↦ true | _ ↦ false ]

abbrev pub is_fixnum : Store → Ptr → Bool
is_fixnum = has_type λ d. elim d [ fixnum n ↦ true | _ ↦ false ]

abbrev pub is_string : Store → Ptr → Bool
is_string = has_type λ d. elim d [ string v ↦ true | _ ↦ false ]

abbrev pub is_pair : Store → Ptr → Bool
is_pair = has_type λ d. elim d [ pair a b ↦ true | _ ↦ false ]

abbrev pub is_vector : Store → Ptr → Bool
is_vector = has_type λ d. elim d [ vector v ↦ true | _ ↦ false ]

abbrev pub is_hashtab : Store → Ptr → Bool
is_hashtab = has_type λ d. elim d [ hash_table t ↦ true | _ ↦ false ]

abbrev pub is_meta : Store → Ptr → Bool
is_meta = has_type λ d. elim d [ meta_proc p m ↦ true | _ ↦ false ]

abbrev pub is_primitive_proc : Store → Ptr → Bool
is_primitive_proc = has_type λ d. elim d [ primitive_proc f ↦ true | _ ↦ false ]

abbrev pub is_compiled_proc : Store → Ptr → Bool
is_compiled_proc = has_type λ d. elim d [ compiled_proc b e ↦ true | _ ↦ false ]

abbrev pub is_compiled_syntax_proc : Store → Ptr → Bool
is_compiled_syntax_proc = has_type λ d. elim d [ compiled_syntax_proc b e ↦ true | _ ↦ false ]

-- CAR and CDR: the empty list has a pair's members too.
abbrev pub both_of : Data → Option (Ptr × Ptr)
both_of (pair a b) = some (a, b)
both_of (the_empty_list a b) = some (a, b)
both_of _ = none

unfoldable pub car : Store → Ptr → Option Ptr
car s obj = do ab ← both_of (s.object obj); some ab.0

unfoldable pub cdr : Store → Ptr → Option Ptr
cdr s obj = do ab ← both_of (s.object obj); some ab.1

abbrev pub with_both : Data → Ptr → Ptr → Data
with_both (the_empty_list _ _) a b = the_empty_list a b
with_both _ a b = pair a b

unfoldable pub set_car : Store → Ptr → Ptr → Option Store
unfolding write
set_car s obj value = do
  ab ← both_of (s.object obj)
  some (write s obj (with_both (s.object obj) value ab.1))

unfoldable pub set_cdr : Store → Ptr → Ptr → Option Store
unfolding write
set_cdr s obj value = do
  ab ← both_of (s.object obj)
  some (write s obj (with_both (s.object obj) ab.0 value))

abbrev pub varray_of : Data → Option (List Ptr)
varray_of (vector objects) = some objects
varray_of _ = none

-- VARRAY.
unfoldable pub varray : Store → Ptr → Option (List Ptr)
varray s obj = varray_of (s.object obj)

abbrev pub table_of : Data → Option HashTab
table_of (hash_table t) = some t
table_of _ = none

-- HTAB.
unfoldable pub htab : Store → Ptr → Option HashTab
htab s obj = table_of (s.object obj)

unfoldable pub make_fixnum : Store → ℕ → Option (Ptr × Store)
unfolding alloc
make_fixnum s value = alloc s (fixnum value)

unfoldable pub make_string : Store → List ℕ → Option (Ptr × Store)
unfolding alloc
make_string s value = alloc s (string value)

unfoldable pub cons : Store → Ptr → Ptr → Option (Ptr × Store)
unfolding alloc
cons s a d = alloc s (pair a d)

unfoldable pub make_vector : Store → Ptr → ℕ → Option (Ptr × Store)
unfolding alloc
make_vector s fill size = alloc s (vector (replicate size fill))

unfoldable pub make_compiled_proc : Store → Ptr → Ptr → Option (Ptr × Store)
unfolding alloc
make_compiled_proc s bytecode env = alloc s (compiled_proc bytecode env)

-- The second half: the body is stored before cons runs, the parameters after.
unfoldable pub make_compound_proc : Store → Ptr → Ptr → Ptr → Option (Ptr × Store)
unfolding alloc cons write
make_compound_proc s parameters body env = do
  made ← alloc s (compound_proc s.empty_list body)
  frame ← cons made.1 parameters env
  some (made.0, write frame.1 made.0 (compound_proc frame.0 body))

unfoldable pub make_character : Store → ℕ → Option Ptr
unfolding varray
make_character s value = do all ← varray s s.all_characters; get_elem? all value

-- The loops over a list, on fuel.
unfoldable pub elements : ℕ → Store → Ptr → Option (List Ptr)
unfolding car cdr
elements zero s next = none
elements (suc fuel) s next =
    let more = (do a ← car s next; d ← cdr s next; rest ← elements fuel s d; some (a ∷ rest)) in
    if is_the_empty_list s next then some [] else more

unfoldable pub list_to_vector : ℕ → Store → Ptr → Option (Ptr × Store)
unfolding elements alloc
list_to_vector fuel s list =
    if is_the_empty_list s list
    then some (s.empty_vector, s)
    else do xs ← elements fuel s list; alloc s (vector xs)

unfoldable pub make_hashtab : Store → ℕ → Option (Ptr × Store)
unfolding alloc htb_init
make_hashtab s size = alloc s (hash_table (htb_init size none))

unfoldable pub set_hashtab : Store → Ptr → Ptr → Ptr → Option Store
unfolding htab write htb_insert
set_hashtab s tab key val = do
  t ← htab s tab
  some (write s tab (hash_table (htb_insert t key val).0))

unfoldable pub remkey_hashtab : Store → Ptr → Ptr → Option Store
unfolding htab write htb_remove
remkey_hashtab s tab key = do t ← htab s tab; some (write s tab (hash_table (htb_remove t key)))

unfoldable pub get_hashtab : Store → Ptr → Ptr → Ptr → Option Ptr
unfolding htab htb_search
get_hashtab s tab key fail = do
  t ← htab s tab
  some (let val = htb_search t key in if val == null then fail else val)

-- while(iter.key != NULL), on fuel.
unfoldable pub keys_loop : ℕ → Bucket → HashTab → Iter → Store → Ptr → Option (Ptr × Store)
unfolding cons htb_iter_inc
keys_loop zero past t iter s result = none
keys_loop (suc fuel) past t iter s result =
    let more = (do
      r ← cons s iter.key result
      keys_loop fuel past t (htb_iter_inc past t iter) r.1 r.0) in
    if iter.key == null then some (result, s) else more

unfoldable pub get_hashtab_keys : ℕ → Bucket → Store → Ptr → Option (Ptr × Store)
unfolding keys_loop htab htb_iter_init
get_hashtab_keys fuel past s table = do
  t ← htab s table
  keys_loop fuel past t (htb_iter_init past t) s s.empty_list

-- strcmp(car(element)->data.symbol.value, value) == 0.
abbrev pub same_text : List ℕ → List ℕ → Bool
same_text [] [] = true
same_text (x ∷ xs) (y ∷ ys) = x == y && same_text xs ys
same_text _ _ = false

abbrev pub symbol_text : Data → Option (List ℕ)
symbol_text (symbol value) = some value
symbol_text _ = none

-- The loop of find_symbol, on fuel. The inner `none` is a NULL result.
unfoldable pub find_symbol : ℕ → Store → List ℕ → Ptr → Option (Option Ptr)
unfolding car cdr
find_symbol zero s value element = none
find_symbol (suc fuel) s value element =
    let more = (do
      a ← car s element
      text ← symbol_text (s.object a)
      d ← cdr s element
      let rest = find_symbol fuel s value d
      if same_text text value then some (some element) else rest) in
    if is_the_empty_list s element then some none else more

unfoldable pub make_uninterned_symbol : Store → Option (Ptr × Store)
unfolding alloc
make_uninterned_symbol s = do
  r ← alloc s (lazy_symbol s.next_uninterned_symbol)
  some (r.0, record (r.1) { next_uninterned_symbol = s.next_uninterned_symbol + 1 })

-- The symbol that is new, and the table with it in front.
unfoldable pub intern : Store → List ℕ → Option (Ptr × Store)
unfolding alloc cons
intern s value = do
  obj ← alloc s (symbol value)
  cell ← cons obj.1 obj.0 obj.1.symbol_table
  some (obj.0, record (cell.1) { symbol_table = cell.0 })

unfoldable pub make_symbol : ℕ → Store → List ℕ → Option (Ptr × Store)
unfolding find_symbol car intern
make_symbol fuel s value = do
  element ← find_symbol fuel s value s.symbol_table
  elim element [ none ↦ intern s value | some e ↦ do a ← car s e; some (a, s) ]

unfoldable pub make_primitive_exception : Store → Ptr → Option (Ptr × Store)
unfolding cons
make_primitive_exception s contents = cons s s.error_sym contents

unfoldable pub is_primitive_exception : Store → Ptr → Option Bool
unfolding car
is_primitive_exception s obj =
    if is_pair s obj then (do a ← car s obj; some (a == s.error_sym)) else some false

-- `text` is what vsnprintf left in the buffer.
unfoldable pub throw_message : Store → List ℕ → Option (Ptr × Store)
unfolding make_string make_primitive_exception
throw_message s text = do m ← make_string s text; make_primitive_exception m.1 m.0

unfoldable pub vector_set : Store → Ptr → ℕ → Ptr → Option Store
unfolding varray write
vector_set s obj i value = do
  objects ← varray s obj
  if ltb i (length objects) then some (write s obj (vector (set objects i value))) else none
