-- ===== src/Store/Examples.antt =====
-- Tests of the model of types.c, and its theorems at a store of a few objects.
use brianscheme.Base.{◌≡◌, refl, some, none, [], ◌∷◌, ◌==◌, arith, if◌then◌else◌}
use brianscheme.HashTab.{htb_init, htb_insert}
use brianscheme.HashTab.Iterate.{flatten}
use brianscheme.HashTab.Table.{htb_init-IsTable, insert-IsTable}
use brianscheme.Object.{Ptr, symbol, pair, hash_table, nil}
use brianscheme.Store.Blank.{blank}
use brianscheme.Store.{htab, Store, symbol_text, make_symbol, get_hashtab_keys}
use brianscheme.Store.Lists.{IsListOf, IsStore, keys_onto, get_hashtab_keys_lem}
use brianscheme.Store.Symbols.{make_symbol_lem}

-- One symbol, the list of it, which is the symbol table, and a table that has it as a key.
abbrev store : Store
store = record blank {
  object = λ p.
      if p == 8
      then symbol (97 ∷ [])
      else if p == 16
      then pair 8 96
      else if p == 24
      then hash_table (htb_insert (htb_init 2 none) 8 32).0
      else nil;
  free = 40 ∷ 48 ∷ [];
  symbol_table = 16;
}

store-IsStore : IsStore store
store-IsStore = record { distinct = (refl, (refl, tt)); empty_kept = refl }

make_symbol_lem_example :
    (p : Ptr) × (s' : Store) × (make_symbol 2 store (98 ∷ []) ≡ some (p, s'))
    × (symbol_text (s'.object p) ≡ some (98 ∷ []))
    × (make_symbol 2 s' (98 ∷ []) ≡ some (p, s'))
make_symbol_lem_example =
    make_symbol_lem 2 store (98 ∷ []) (8 ∷ [])
      (record {
        store = store-IsStore;
        table = (96, refl, refl, refl, refl);
        symbols = ((97 ∷ [], refl), tt);
      })
      (omega arith) (omega arith)

get_hashtab_keys_lem_example :
    (r : Ptr) × (s' : Store) × (get_hashtab_keys 2 [] store 24 ≡ some (r, s'))
    × IsListOf s' r (keys_onto (flatten (htb_insert (htb_init 2 none) 8 32).0.arr) [])
unfolding htb_init htb_insert
get_hashtab_keys_lem_example =
    get_hashtab_keys_lem 2 [] store 24 (htb_insert (htb_init 2 none) 8 32).0 (unfold htab in refl)
      (insert-IsTable (htb_init-IsTable 2 none (omega arith)).0 8 32 refl) store-IsStore
      (omega arith) (omega arith)

-- A symbol that the table has is the old object.
old_symbol : make_symbol 2 store (97 ∷ []) ≡ some (8, store)
unfolding make_symbol
old_symbol = refl
