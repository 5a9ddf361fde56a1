-- ===== src/Interp/Tables.antt =====
-- interp.c: the primitives on hash tables.
use brianscheme.Base.{
  ℕ, ◌≡◌, refl, false, some, List, if◌then◌else◌, ◌>>=◌, ◌==◌, ==-self, Bool-cases, inl, inr,
}
use brianscheme.Object.{Ptr, null, hash_table}
use brianscheme.HashTab.{Bucket, HashTab, htb_search, htb_insert, htb_remove}
use brianscheme.HashTab.Table.{IsTable, search-insert, search-remove}
use brianscheme.Store.{
  Store, write, htab, is_hashtab, make_hashtab, set_hashtab, get_hashtab, remkey_hashtab,
  get_hashtab_keys,
}
use brianscheme.Interp.Primitives.{Primitive, argument, long, test_first}

abbrev pub is_hashtab_proc : Primitive
is_hashtab_proc = test_first is_hashtab

unfoldable pub make_hashtab_proc : Primitive
unfolding make_hashtab
make_hashtab_proc s args n top = do
  first ← argument 0 args n top
  size ← long s first
  make_hashtab s size

unfoldable pub set_hashtab_proc : Primitive
unfolding set_hashtab
set_hashtab_proc s args n top = do
  first ← argument 0 args n top
  second ← argument 1 args n top
  third ← argument 2 args n top
  s' ← set_hashtab s first second third
  some (third, s')

unfoldable pub get_hashtab_proc : Primitive
unfolding get_hashtab
get_hashtab_proc s args n top = do
  first ← argument 0 args n top
  second ← argument 1 args n top
  third ← argument 2 args n top
  found ← get_hashtab s first second third
  some (found, s)

-- The fuel and the slot past the array are those of get_hashtab_keys.
unfoldable pub get_hashtab_keys_proc : ℕ → Bucket → Primitive
unfolding get_hashtab_keys
get_hashtab_keys_proc fuel past s args n top = do
  first ← argument 0 args n top
  get_hashtab_keys fuel past s first

unfoldable pub remkey_hashtab_proc : Primitive
unfolding remkey_hashtab
remkey_hashtab_proc s args n top = do
  first ← argument 0 args n top
  second ← argument 1 args n top
  s' ← remkey_hashtab s first second
  some (s'.true_object, s')

-- A call on a hash table, a key and a third argument.
abbrev pub IsTableCall : Store → List Ptr → ℕ → ℕ → Ptr → HashTab → Ptr → Ptr → Type 0
IsTableCall s args n top p t k v =
    (argument 0 args n top ≡ some p)
    × (argument 1 args n top ≡ some k)
    × (argument 2 args n top ≡ some v)
    × (s.object p ≡ hash_table t)

-- A lookup, with the result for a key that is not there as the third argument.
abbrev pub lookup : HashTab → Ptr → Ptr → Ptr
lookup t k fail = let val = htb_search t k in if val == null then fail else val

-- A lookup after a write of the table.
get_hashtab_proc-write :
    (s : Store) (args : List Ptr) (n top : ℕ) {p j fail : Ptr} {t : HashTab} (t' : HashTab)
    → IsTableCall s args n top p t j fail
    → get_hashtab_proc (write s p (hash_table t')) args n top
      ≡ some (lookup t' j fail, write s p (hash_table t'))
unfolding get_hashtab_proc get_hashtab htab write
get_hashtab_proc-write s args n top {p = p} t' (first, second, third, at) =
    rw (first, second, third, ==-self p) refl

-- After `hashtab-set!` of a key in a well-formed table, a lookup of that key gives the value, which is
-- no NULL, and a lookup of any other key what it gave before; after `hashtab-remkey!` of the key, a
-- lookup of it gives the argument for a key that is not there, and any other lookup what it gave
-- before. The two lookups may have their arguments on another stack.
pub set_hashtab_proc-get_hashtab_proc :
    (s : Store) (args args' : List Ptr) (n top n' top' : ℕ) {p k v j fail : Ptr} {t : HashTab}
    → IsTable t
    → IsTableCall s args n top p t k v
    → IsTableCall s args' n' top' p t j fail
    → (v == null) ≡ false
    → ((do
      r ← set_hashtab_proc s args n top
      after ← get_hashtab_proc r.1 args' n' top'
      some after.0)
        ≡ some (if k == j then v else lookup t j fail))
      × ((do
        r ← remkey_hashtab_proc s args n top
        after ← get_hashtab_proc r.1 args' n' top'
        some after.0)
          ≡ some (if k == j then fail else lookup t j fail))
unfolding set_hashtab_proc remkey_hashtab_proc set_hashtab remkey_hashtab htab
set_hashtab_proc-get_hashtab_proc s args args' n top n' top' {p = p} {k = k} {v = v} {j = j}
      {fail = fail} {t = t} w (first, second, third, at) call plain =
    (
      rw (first, second, third, at)
          (rw
            (
              get_hashtab_proc-write s args' n' top' (htb_insert t k v).0 call,
              search-insert w k v j,
            )
            (elim (Bool-cases (k == j)) [ inl e ↦ rw (e, plain) | inr e ↦ rw e ])),
      rw (first, second, at)
          (rw (get_hashtab_proc-write s args' n' top' (htb_remove t k) call, search-remove w k j)
            (elim (Bool-cases (k == j)) [ inl e ↦ rw e | inr e ↦ rw e ])),
    )
