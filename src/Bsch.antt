-- ===== src/Bsch.antt =====
-- bsch.c: the search path, libraries and the image at the end of the program's own file. A char* is
-- the bytes before its '\0'; files and what the system says of them are arguments.
mod Examples
pub mod ImageSearch
pub mod SearchPath
use brianscheme.Base.{
  ℕ, zero, suc, ◌+◌, ◌-◌, ◌*◌, ◌^◌, Bool, Option, none, some, List, [], ◌∷◌, ◌++◌, if◌then◌else◌,
  ◌>>=◌, ◌==◌, false, ltb, length, take, drop, codes,
}
use brianscheme.Object.{Ptr, null}
use brianscheme.Store.{Store, make_string, make_symbol, cons, cdr, set_cdr, get_hashtab}
use brianscheme.Env.{define_global_variable}
use brianscheme.Read.Datum.{Host, lisp_read}
use brianscheme.Interp.{Runtime, interp, apply}

abbrev pub del : ℕ
del = b':'

-- The count of the copying loop.
unfoldable pub count_parts : ℕ → List ℕ → ℕ
count_parts count [] = count
count_parts count (c ∷ p) = count_parts (if c == del then count + 1 else count) p

-- What stands before and behind the first delimiter.
unfoldable pub strchr : List ℕ → Option (List ℕ × List ℕ)
strchr [] = none
strchr (c ∷ cp) =
    let rest = (do parts ← strchr cp; some (c ∷ parts.0, parts.1)) in
    if c == del then some ([], cp) else rest

-- r[i] is the text at cp once its delimiter is a '\0'. The pointer is NULL + 1 behind the last part, and
-- then a further round has no result.
unfoldable pub split_loop : ℕ → List ℕ → Option (List (List ℕ))
unfolding strchr
split_loop zero cp = some []
split_loop (suc rounds) cp = elim (strchr cp) [
  | none ↦ if rounds == 0 then some (cp ∷ []) else none
  | some (part, behind) ↦ (do r ← split_loop rounds behind; some (part ∷ r))
]

unfoldable pub split_path : List ℕ → Option (List (List ℕ))
unfolding split_loop count_parts
split_path path = split_loop (count_parts 1 path) path

unfoldable pub pathcat : List ℕ → List ℕ → List ℕ
pathcat a b = a ++ b'/' ∷ b

-- The list is built from its end.
unfoldable pub string_list : Store → List (List ℕ) → Option (Ptr × Store)
unfolding make_string cons
string_list s [] = some (s.empty_list, s)
string_list s (text ∷ strs) = do
  list ← string_list s strs
  str ← make_string list.1 text
  cons str.1 str.0 list.0

unfoldable pub interp_definer : ℕ → Store → List ℕ → Ptr → Option Store
unfolding make_symbol define_global_variable
interp_definer fuel s sym value = do
  r ← make_symbol fuel s sym
  define_global_variable r.1 r.0 value r.1.global_env

unfoldable pub vm_definer : ℕ → Store → List ℕ → Ptr → Option Store
unfolding make_symbol define_global_variable get_hashtab set_cdr cons
vm_definer fuel s sym value = do
  r ← make_symbol fuel s sym
  slot ← get_hashtab r.1 r.1.vm_env r.0 null
  (if slot == null
      then (do c ← cons r.1 r.0 value; define_global_variable c.1 r.0 c.0 c.1.vm_env)
      else set_cdr r.1 slot value)

unfoldable pub insert_strlist : ℕ → Store → List (List ℕ) → List ℕ → Bool → Option Store
unfolding string_list interp_definer vm_definer
insert_strlist fuel s strv name use_interp = do
  list ← string_list s strv
  s' ← (if use_interp then interp_definer fuel list.1 name list.0 else some list.1)
  vm_definer fuel s' name list.0

-- access(filename, R_OK) == 0, and what fopen finds.
pub record Disk : Type 0 where
  pub readable : List ℕ → Bool
  pub contents : List ℕ → Option (List ℕ)

unfoldable pub find_library : Disk → List (List ℕ) → List ℕ → Option (List ℕ)
unfolding pathcat
find_library disk [] libname = none
find_library disk (path ∷ paths) libname =
    let rest = find_library disk paths libname in
    if disk.readable (pathcat path libname) then some (pathcat path libname) else rest

pub data Loaded : Type 0 where
  exits : ℕ → Loaded
  returned : Ptr → Store → Loaded

-- while((form = obj_read(stdlib)) != NULL), on fuel, which is also the depth of the recursions.
unfoldable pub load_forms : ℕ → Runtime → Host → Store → List ℕ → Ptr → Option Loaded
unfolding interp
load_forms zero w h s stdlib result = none
load_forms (suc fuel) w h s stdlib result = do
  form ← lisp_read fuel h s stdlib
  let more = (do
    r ← interp fuel w form.1 form.0 form.1.empty_list
    load_forms fuel w h r.1 form.2 r.0)
  (if form.0 == null then some (returned result form.1) else more)

unfoldable pub load_library :
    ℕ → Runtime → Host → Disk → List (List ℕ) → Store → List ℕ → Option Loaded
unfolding find_library load_forms
load_library fuel w h disk bs_paths s libname = elim (find_library disk bs_paths libname) [
  | none ↦ some (exits 3)
  | some filename ↦ elim (disk.contents filename) [
    | none ↦ some (exits 3)
    | some stdlib ↦ load_forms fuel w h s stdlib null
  ]
]

unfoldable pub compile_library : ℕ → Runtime → Store → List ℕ → Option Loaded
unfolding make_symbol get_hashtab cdr make_string cons apply
compile_library fuel w s libname = do
  compile_file ← make_symbol fuel s (codes "compile-file")
  compiler ← get_hashtab compile_file.1 compile_file.1.vm_env compile_file.0 null
  let compiled = (do
    fn ← cdr compile_file.1 compiler
    name ← make_string compile_file.1 libname
    form ← cons name.1 name.0 name.1.empty_list
    r ← apply fuel w form.1 fn form.0
    some (returned r.0 r.1))
  (if compiler == null then some (exits 4) else compiled)

-- The four bytes that fread stores in `sample`, lowest first.
abbrev pub is_mark : List ℕ → Bool
is_mark (a ∷ b ∷ c ∷ d ∷ []) = a + 256 * b + 65536 * c + 16777216 * d == 0xdeadbeef
is_mark _ = false

-- The loop of find_image, on fuel; `left` is what is left of the file, and `ps` the size of a page.
unfoldable pub image_loop : ℕ → ℕ → List ℕ → ℕ → Option ℕ
image_loop ps zero left loc = none
image_loop ps (suc fuel) left loc =
    let sample = take 4 (drop (ps - 4) left) in
    let rest = image_loop ps fuel (drop ps left) (loc + ps) in
    if ltb (length sample) 4 then some 0 else if is_mark sample then some (loc + ps) else rest

unfoldable pub find_image : ℕ → ℕ → List ℕ → Option ℕ
unfolding image_loop
find_image fuel ps self = image_loop ps fuel self 0
