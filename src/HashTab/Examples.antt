-- ===== src/HashTab/Examples.antt =====
-- Tests of the model of hashtab.c, and its theorems at a concrete table.
use brianscheme.Base.{ℕ, ◌+◌, ◌≡◌, refl, ◌==◌, none, some, [], ◌∷◌, arith, if◌then◌else◌}
use brianscheme.HashTab.{
  HashTab, htb_init, htb_search, htb_insert, htb_remove, htb_iter_init, htb_iter_inc, htb_grow,
}
use brianscheme.HashTab.Count.{nodes, remove_overcounts}
use brianscheme.HashTab.Table.{
  IsTable, htb_init-IsTable, insert-IsTable, remove-IsTable, search-insert, search-remove,
}
use brianscheme.HashTab.Iterate.{IsAt, pending, htb_iter_inc-pending, htb_iter_init-pending}
use brianscheme.HashTab.Grow.{htb_grow_lem}

-- Keys 64 and 192 share a chain of the two, 128 has the other.
abbrev empty : HashTab
empty = htb_init 2 none

abbrev one : HashTab
one = (htb_insert empty 64 7).0

abbrev two : HashTab
two = (htb_insert one 192 8).0

abbrev three : HashTab
three = (htb_insert two 128 9).0

three_chains : three.arr ≡ ((128, 9) ∷ []) ∷ ((64, 7) ∷ (192, 8) ∷ []) ∷ []
unfolding htb_init htb_insert
three_chains = refl

overwrite : (htb_insert three 64 1).0.arr ≡ ((128, 9) ∷ []) ∷ ((64, 1) ∷ (192, 8) ∷ []) ∷ []
unfolding htb_init htb_insert
overwrite = refl

count_after_remove : (htb_remove three 64).count ≡ 3
unfolding htb_init htb_insert htb_remove
count_after_remove = refl

one-IsTable : IsTable one
one-IsTable = insert-IsTable ((htb_init-IsTable 2 none (omega arith)).0) 64 7 refl

two-IsTable : IsTable two
two-IsTable = insert-IsTable one-IsTable 192 8 refl

three-IsTable : IsTable three
three-IsTable = insert-IsTable two-IsTable 128 9 refl

insert-IsTable_example : IsTable (htb_insert three 320 5).0
insert-IsTable_example = insert-IsTable three-IsTable 320 5 refl

remove-IsTable_example : IsTable (htb_remove three 64)
remove-IsTable_example = remove-IsTable three-IsTable 64

search-insert_example :
    htb_search (htb_insert three 64 1).0 192 ≡ (if 64 == 192 then 1 else htb_search three 192)
search-insert_example = search-insert three-IsTable 64 1 192

search-remove_example :
    htb_search (htb_remove three 64) 192 ≡ (if 64 == 192 then 0 else htb_search three 192)
search-remove_example = search-remove three-IsTable 64 192

remove_overcounts_example : (htb_remove three 64).count ≡ nodes (htb_remove three 64).arr + 1
unfolding htb_init htb_insert
remove_overcounts_example = remove_overcounts three-IsTable refl 64 refl

-- The iterator on the first pair, with an arbitrary word past the array.
htb_iter_inc-pending_example :
    let ii = htb_iter_init ((1, 1) ∷ []) three in
    (ii.key ≡ 128)
    × (ii.value ≡ 9)
    × IsAt three (htb_iter_inc ((1, 1) ∷ []) three ii)
    × (pending three (htb_iter_inc ((1, 1) ∷ []) three ii) ≡ (64, 7) ∷ (192, 8) ∷ [])
unfolding htb_init htb_insert
htb_iter_inc-pending_example =
    htb_iter_inc-pending ((1, 1) ∷ []) three-IsTable.slots (htb_iter_init ((1, 1) ∷ []) three) 128 9
      ((64, 7) ∷ (192, 8) ∷ []) ((htb_iter_init-pending ((1, 1) ∷ []) three-IsTable.slots).0)
      ((htb_iter_init-pending ((1, 1) ∷ []) three-IsTable.slots).1)

htb_grow_lem_example :
    (new : HashTab) × (htb_grow 4 [] three 8 ≡ some new)
    × (new.size ≡ 8)
    × IsTable new
    × ((j : ℕ) → htb_search new j ≡ htb_search three j)
unfolding htb_init htb_insert
htb_grow_lem_example = htb_grow_lem 4 [] three 8 three-IsTable (omega arith) (omega arith)
